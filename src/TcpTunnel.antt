-- ===== src/TcpTunnel.antt =====
-- client/atrust/tcptunnel.go: tcpTunnelConn, with Read, Write and CloseWrite. The reader is the
-- bytes that the server still sends before it ends the stream; `sent` is what the TLS connection
-- took. The TLS connection is a parameter: how many bytes a call takes or gives, and its error.
-- Deadlines and logging are left out, and the locks, which make each call one step.
pub mod Reading
pub mod Draining
pub mod Writing
pub mod Handshake
pub mod Replies
pub mod Refusals
pub mod Selection
pub mod Dialing
mod Examples
use distrust_core.Base.{
  ℕ, zero, suc, ◌+◌, ◌-◌, ◌*◌, ◌/◌, ◌%◌, ◌^◌, ◌≤◌, ◌<◌, ◌≡◌, refl, sym, ap, ◌∙◌, subst, ◌≢◌, ◌↔◌,
  ◌⊎◌, inl, inr, Bool, true, false, not, ◌&&◌, ◌||◌, Option, none, some, List, [], ◌∷◌, ◌++◌, map,
  arith, ltb→lt, leb→le, ltb, leb, nat_beq, if◌then◌else◌, ◌==◌, Comparable_nat, Comparable_string,
  ==_self, Bool-cases, Option-cases, if_both, option_both, length, get_elem?, set, take, drop, All,
  length-append, length-take, length-drop, length-set, take-append-drop, take-append_length,
  drop-append_length, All-append, All-implies, get_elem?-append, drop-append, take-append_le,
  drop-append_le, take-all, append_assoc_list, ℤ, pos, negsuc, leb_ℤ, Outcome, ok, err, panic, ◌>>◌,
  guard, or_panic, or_err, then_some, then_some_gave, chain_gave, or_panic_gave, lookup, insert,
  remove, lookup-insert, lookup-remove, length-insert, length-insert_present, length-remove,
  length-remove_present, Bytes, IsByte, AreBytes, join16, join32, be16, be32, slice, put, put16,
  copy_at, get16,
}

-- io.EOF, io.ErrUnexpectedEOF and a header that no frame has
pub data ReadError : Type 0 where
  eof unexpected_eof unexpected_header : ReadError

-- io.ErrShortWrite, and an error of the TLS connection
pub data WriteError : Type 0 where
  short_write connection_failed : WriteError

-- `close_write_err` is `closeWriteErr`, once `closeWriteOnce` is done.
pub record TcpTunnelConn : Type 0 where
  pub reader : Bytes
  pub read_buf : Bytes
  pub reuse : Bool
  pub raw : Bool
  pub close_write_err : Option (Option WriteError)
  pub sent : Bytes

-- The error of `io.ReadFull` on a stream that ends too early, by what it had read.
abbrev pub ended : Bytes → ReadError
ended [] = eof
ended (_ ∷ _) = unexpected_eof

-- What Read answers, then `readBuf` and the bytes to come.
abbrev pub ReadStep : Type 0
ReadStep = Outcome ReadError Bytes × Bytes × Bytes

-- The payload of a data frame, into a buffer of `size` bytes.
unfoldable pub read_payload : ℕ → ℕ → Bytes → ReadStep
read_payload size len rest =
    if leb len (length rest)
    then (if leb len size
        then (ok (take len rest), [], drop len rest)
        else (ok (take size (take len rest)), drop size (take len rest), drop len rest))
    else (err (ended rest), [], [])

-- The loop of Read over the frames. It goes on behind a data frame that is empty.
unfoldable pub read_frames : ℕ → Bytes → ReadStep
unfolding read_payload
read_frames size (h0 ∷ h1 ∷ hi ∷ lo ∷ rest) =
    let after = read_frames size rest in
    if nat_beq h0 0x01 && nat_beq h1 0x00
    then (if nat_beq (join16 hi lo) 0 then after else read_payload size (join16 hi lo) rest)
    else (if nat_beq h0 0x01 && nat_beq h1 0x01
        then (err eof, [], rest)
        else (err unexpected_header, [], rest))
read_frames size short = (err (ended short), [], [])

-- A read of the TLS connection through its buffer, where `available` bytes are at hand.
abbrev pub read_raw : (Bytes → ℕ → ℕ) → ℕ → Bytes → Outcome ReadError Bytes × Bytes
read_raw available size [] = (err eof, [])
read_raw available size (b ∷ bs) =
    let n = available (b ∷ bs) size in (ok (take n (b ∷ bs)), drop n (b ∷ bs))

unfoldable pub read : (Bytes → ℕ → ℕ) → TcpTunnelConn → ℕ → Outcome ReadError Bytes × TcpTunnelConn
unfolding read_frames
read available c zero = (ok [], c)
read available c (suc n) =
    let (raw_answer, raw_rest) = read_raw available (suc n) c.reader in
    let (answer, buf, rest) = read_frames (suc n) c.reader in
    if c.raw then (raw_answer, record c { reader = raw_rest }) else elim c.read_buf [
      | [] ↦ (answer, record c { read_buf = buf; reader = rest })
      | b ∷ bs ↦ (ok (take (suc n) (b ∷ bs)), record c { read_buf = drop n bs })
    ]

-- A write of a byte slice to a connection that took some bytes before: how many it takes, and
-- whether it fails.
abbrev pub TlsWrite : Type 0
TlsWrite = Bytes → Bytes → ℕ × Bool

-- What the connection took, with the error of `writeTCPTunnelHandshakeMessage`.
unfoldable pub write_tcp_tunnel_handshake_message :
    TlsWrite → Bytes → Bytes → Bytes × Option WriteError
write_tcp_tunnel_handshake_message tls_write sent message =
    let (n, failed) = tls_write sent message in
    (
      sent ++ take n message,
      if failed
          then some connection_failed
          else (if nat_beq n (length message) then none else some short_write),
    )

-- A data frame of at most 0xFFFF bytes.
abbrev pub data_frame : Bytes → Bytes
data_frame chunk = 0x01 ∷ 0x00 ∷ (be16 (length chunk) ++ chunk)

-- The loop of Write on the bytes that are left, `written` bytes having been written.
unfoldable pub write_chunks : ℕ → TlsWrite → Bytes → Bytes → ℕ → ℕ × Option WriteError × Bytes
unfolding write_tcp_tunnel_handshake_message
write_chunks fuel tls_write sent [] written = (written, none, sent)
write_chunks zero tls_write sent b written = (written, none, sent)
write_chunks (suc fuel) tls_write sent b written =
    let chunk = take 0xffff b in
    let (after, failure) = write_tcp_tunnel_handshake_message tls_write sent (data_frame chunk) in
    elim failure [
      | some e ↦ (written, some e, after)
      | none ↦ write_chunks fuel tls_write after (drop 0xffff b) (written + length chunk)
    ]

-- How many bytes were written, and the error. Each turn of the loop takes a byte at least.
unfoldable pub write : TlsWrite → TcpTunnelConn → Bytes → ℕ × Option WriteError × TcpTunnelConn
unfolding write_chunks
write tls_write c [] = (0, none, c)
write tls_write c (x ∷ xs) = elim c.raw [
  | true ↦
      let (n, failed) = tls_write c.sent (x ∷ xs) in
      (
        n,
        if failed then some connection_failed else none,
        record c { sent = c.sent ++ take n (x ∷ xs) },
      )
  | false ↦
      let (n, failure, after) = write_chunks (length (x ∷ xs)) tls_write c.sent (x ∷ xs) 0 in
      (n, failure, record c { sent = after })
]

-- CloseWrite, whose body runs once. `tls_close_write` is what CloseWrite of the TLS connection
-- answers where it has one.
unfoldable pub close_write :
    TlsWrite → Option WriteError → TcpTunnelConn → Option WriteError × TcpTunnelConn
unfolding write_tcp_tunnel_handshake_message
close_write tls_write tls_close_write c = elim c.close_write_err [
  | some answer ↦ (answer, c)
  | none ↦ elim c.reuse [
    | true ↦
        let (after, failure) =
          write_tcp_tunnel_handshake_message tls_write c.sent (0x01 ∷ 0x01 ∷ 0x00 ∷ 0x00 ∷ []) in
        (failure, record c { close_write_err = some failure; sent = after })
    | false ↦ (tls_close_write, record c { close_write_err = some tls_close_write })
  ]
]
