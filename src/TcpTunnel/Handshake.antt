-- ===== src/TcpTunnel/Handshake.antt =====
-- client/atrust/tcptunnel.go: the messages that open a TCP tunnel, and the server's answers to them.
-- The JSON of the authentication answer is a parameter that reads its code. A context is what its
-- error is before and after the reads: a context that ends closes the connection, which ends the
-- stream early. Messages of errors and logging are left out.
use distrust_core.NetIp.{NetIp, to4}
use distrust_core.TcpTunnel.{TlsWrite, WriteError, write_tcp_tunnel_handshake_message}
use distrust_core.Base.{
  ℕ, zero, suc, ◌+◌, ◌%◌, Bool, false, ◌&&◌, ◌||◌, Option, none, some, List, [], ◌∷◌, ◌++◌, ltb,
  leb, nat_beq, if◌then◌else◌, Comparable_nat, Comparable_string, length, get_elem?, take, drop, ℤ,
  pos, negsuc, Outcome, ok, err, ◌>>=◌, ◌>>◌, guard, or_panic, Bytes, be16, get16,
}

-- tcpTunnelAuthResponse, without the message
pub record AuthResponse : Type 0 where
  pub code : ℤ

-- The statuses of a connect reply that have an error of their own.
pub data HandshakeError : Type 0 where
  context_error connection_ended : HandshakeError
  unexpected_server_hello unexpected_auth_response bad_json session_invalid : HandshakeError
  authentication_failed : ℤ → HandshakeError
  unexpected_version unexpected_address_type auth_request_too_large : HandshakeError
  server_failure connection_not_allowed network_unreachable host_unreachable : HandshakeError
  connection_refused ttl_expired command_not_supported address_not_supported : HandshakeError
  connect_failed : ℕ → HandshakeError

abbrev pub Reply {ℓ} : Type ℓ → Type ℓ
Reply A = Outcome HandshakeError A

-- `io.ReadFull` on a handshake
unfoldable pub read_full : ℕ → Bytes → Reply (Bytes × Bytes)
read_full n stream =
    if leb n (length stream) then ok (take n stream, drop n stream) else err connection_ended

abbrev pub byte_at : Bytes → ℕ → Reply ℕ
byte_at p i = or_panic (get_elem? p i)

unfoldable pub read_tcp_protocol_response : Bytes → Reply (Bytes × Bytes)
read_tcp_protocol_response stream = do
  (length_bytes, s1) ← read_full 2 stream
  size ← or_panic (get16 length_bytes 0)
  read_full size s1

unfoldable pub encode_tcp_tunnel_auth_length : ℕ → Reply Bytes
encode_tcp_tunnel_auth_length length_ =
    if ltb 0xffff length_ then err auth_request_too_large else ok (be16 length_)

-- `writeTCPTunnelInitialMessages`: both messages in one write
unfoldable pub write_tcp_tunnel_initial_messages :
    TlsWrite → Bytes → Bytes → Bytes → Bytes × Option WriteError
write_tcp_tunnel_initial_messages tls_write sent init_msg dest_msg =
    write_tcp_tunnel_handshake_message tls_write sent (init_msg ++ dest_msg)

-- A host, by what net.ParseIP makes of it: an address, or a name with its bytes.
abbrev destination_host : Option NetIp → Bytes → Bytes
destination_host none host = 0x03 ∷ length host % 256 ∷ host
destination_host (some ip) host = elim (to4 ip) [ some v4 ↦ 0x01 ∷ v4 | none ↦ 0x04 ∷ ip ]

-- The port is cut to 16 bits, the length of a name to 8.
unfoldable pub encode_tcp_tunnel_destination : Option NetIp → Bytes → ℕ → Bool → Bytes
encode_tcp_tunnel_destination parsed host port zero_rtt =
    0x05
    ∷ 0x01
    ∷ (if zero_rtt then 1 else 0)
    ∷ (destination_host parsed host ++ be16 (port % 65536))

abbrev pub is_code : ℕ → ℤ → Bool
is_code n (pos m) = nat_beq n m
is_code n (negsuc m) = false

-- The codes 10000004 and 75500002 say that the session is over; `handles` is whether an embedding
-- program is told of it, as handleSessionInvalid answers.
unfoldable pub parse_tcp_tunnel_auth_response :
    (Bytes → Option AuthResponse) → Bool → Bytes → Reply (Unit {0})
parse_tcp_tunnel_auth_response unmarshal handles data_ = elim (unmarshal data_) [
  | none ↦ err bad_json
  | some response ↦
      if is_code 0 response.code
      then ok tt
      else (if (is_code 10000004 response.code || is_code 75500002 response.code) && handles
          then err session_invalid
          else err (authentication_failed response.code))
]

abbrev pub address_length : ℕ → Reply ℕ
address_length kind =
    if nat_beq kind 0x01
    then ok 4
    else (if nat_beq kind 0x04 then ok 16 else err unexpected_address_type)

-- The bound address, which is discarded.
abbrev pub bind_address : ℕ → ℕ → Bytes → Reply (ℕ × Bool × Bytes)
bind_address flag kind stream = do
  size ← address_length kind
  (bound, rest) ← read_full (size + 2) stream
  ok (0, nat_beq flag 0x01, rest)

-- The status, whether the connection is reusable, and the bytes behind the reply.
unfoldable pub read_socks5_connect_reply : Bytes → Reply (ℕ × Bool × Bytes)
read_socks5_connect_reply stream = do
  (header, s1) ← read_full 4 stream
  version ← byte_at header 0
  guard (nat_beq version 0x05) unexpected_version
  status ← byte_at header 1
  flag ← byte_at header 2
  kind ← byte_at header 3
  if nat_beq status 0x00 then bind_address flag kind s1 else ok (status, false, s1)

-- The errors of the statuses from 1 on.
abbrev pub status_errors : List HandshakeError
status_errors =
    server_failure ∷ connection_not_allowed ∷ network_unreachable ∷ host_unreachable
    ∷ connection_refused ∷ ttl_expired ∷ command_not_supported ∷ address_not_supported ∷ []

-- The switch on a status that is not 0.
unfoldable pub status_error : ℕ → HandshakeError
status_error zero = connect_failed 0
status_error (suc n) = elim (get_elem? status_errors n) [
  | some e ↦ e
  | none ↦ connect_failed (suc n)
]

-- Two bytes that are read and tested.
abbrev pub expect : ℕ → ℕ → HandshakeError → Bytes → Reply Bytes
expect first second failure stream = do
  (bytes, rest) ← read_full 2 stream
  a ← byte_at bytes 0
  b ← byte_at bytes 1
  guard (nat_beq a first && nat_beq b second) failure
  ok rest

module _ (unmarshal : Bytes → Option AuthResponse) (handles : Bool) where
  -- The reads of waitForTCPConnectReply.
  unfoldable pub read_connect_reply : Bytes → Reply (Bool × Bytes)
  read_connect_reply stream = do
    s1 ← expect 0x05 0x81 unexpected_server_hello stream
    s2 ← expect 0x53 0x00 unexpected_auth_response s1
    (response, s3) ← read_tcp_protocol_response s2
    parse_tcp_tunnel_auth_response unmarshal handles response
    (status, reuse, s4) ← read_socks5_connect_reply s3
    if nat_beq status 0 then ok (reuse, s4) else err (status_error status)

  -- The context's error replaces the answer.
  unfoldable pub wait_for_tcp_connect_reply : Bool → Bool → Bytes → Reply (Bool × Bytes)
  wait_for_tcp_connect_reply ended_before ended_after stream =
      if ended_before || ended_after then err context_error else read_connect_reply stream
