-- ===== src/TcpTunnel/Writing.antt =====
-- client/atrust/tcptunnel.go: what Write and CloseWrite put on the wire, whatever the TLS connection
-- takes of each call.
use distrust_core.TcpTunnel.{
  TcpTunnelConn, WriteError, eof, TlsWrite, write_tcp_tunnel_handshake_message, data_frame,
  write_chunks, write, close_write,
}
use distrust_core.TcpTunnel.Reading.{delivery, delivery_frame}
use distrust_core.TcpTunnel.Draining.{drain, drain-pending, pending}
use distrust_core.Base.{
  ℕ, zero, suc, ◌+◌, ◌/◌, ◌%◌, ◌≤◌, ◌<◌, ◌≡◌, refl, sym, ap, ◌∙◌, subst, inl, inr, true, false,
  Option, none, some, List, [], ◌∷◌, ◌++◌, arith, leb, nat_beq, Comparable_nat, Comparable_string,
  Bool-cases, nat_beq_iff, length, take, drop, All, length-append, length-take, length-drop,
  take-append_length, drop-append_length, take-all, append_assoc_list, append_nil_list, Bytes,
  join16,
}

-- Frames that carry these bytes, whatever follows.
abbrev pub Carries : Bytes → Bytes → Type 0
Carries wire b = (s : Bytes) → delivery (wire ++ s) ≡ (b ++ (delivery s).0, (delivery s).1)

data_frame-Carries : (chunk : Bytes) → length chunk < 65536 → Carries (data_frame chunk) chunk
data_frame-Carries chunk small s =
    let n : join16 (length chunk / 256 % 256) (length chunk % 256) ≡ length chunk = omega arith in
    let fits : leb (length chunk) (length (chunk ++ s)) ≡ true =
      ground (arith, length-append chunk s) in
    delivery_frame _ _ _ _ _
    ∙ rw n (rw (fits, take-append_length chunk s, drop-append_length chunk s) refl)

Carries-append : (v w x y : Bytes) → Carries v x → Carries w y → Carries (v ++ w) (x ++ y)
Carries-append v w x y first second s = rw (append_assoc_list v w s) (
    first (w ++ s)
    ∙ ap (λ d. (x ++ d.0, d.1)) (second s)
    ∙ ap (λ bytes. (bytes, (delivery s).1)) (sym (append_assoc_list x y (delivery s).0)))

take_chunk : (k m : ℕ) (b : Bytes) → take (length (take k b) + m) b ≡ take k b ++ take m (drop k b)
take_chunk zero m b = let sum : 0 + m ≡ m = omega arith in ap (λ k. take k b) sum
take_chunk (suc k) m [] = let sum : 0 + m ≡ m = omega arith in ap (λ j. take j []) sum
take_chunk (suc k) m (x ∷ b) =
    let sum : suc (length (take k b)) + m ≡ suc (length (take k b) + m) = omega arith in
    rw sum (ap (◌∷◌ x) (take_chunk k m b))

-- How a write of b ends that counts m bytes: without an error all are counted; with one, what went
-- out behind the counted bytes is a beginning of the next frame.
abbrev pub Ends : Option WriteError → ℕ → Bytes → Bytes → Type 0
Ends none m b part = (m ≡ length b) × (part ≡ [])
Ends (some e) m b part =
    (m < length b) × ((k : ℕ) × (part ≡ take k (data_frame (take 0xffff (drop m b)))))

-- What a write of b came to, when w bytes were written before it: the frames on the wire carry the
-- m bytes that it adds to the count, and only a write without an error wrote everything and nothing
-- else.
abbrev WroteFrom : ℕ → Bytes → Bytes → ℕ × Option WriteError × Bytes → Type 0
WroteFrom w sent b (n, failure, after) =
    (m : ℕ) × (wire : Bytes) × (part : Bytes) × (n ≡ w + m)
    × (after ≡ sent ++ (wire ++ part))
    × Carries wire (take m b)
    × Ends failure m b part

-- The end of a write of b, from that of what was left of it behind a chunk of k bytes.
shifted_end :
    (failure : Option WriteError) (m k : ℕ) (b left part : Bytes)
    → length b ≡ k + length left
    → drop (k + m) b ≡ drop m left
    → Ends failure m left part
    → Ends failure (k + m) b part
shifted_end none m k b left part sum same end = (omega (arith, end.0), end.1)
shifted_end (some e) m k b left part sum same (less, (j, is)) =
    (omega arith, (j, is ∙ ap (λ rest. take j (data_frame (take 0xffff rest))) (sym same)))

drop_chunk : (k m : ℕ) (b : Bytes) → drop (length (take k b) + m) b ≡ drop m (drop k b)
drop_chunk zero m b = let sum : 0 + m ≡ m = omega arith in ap (λ k. drop k b) sum
drop_chunk (suc k) m [] = let sum : 0 + m ≡ m = omega arith in ap (λ j. drop j []) sum
drop_chunk (suc k) m (x ∷ b) =
    let sum : suc (length (take k b)) + m ≡ suc (length (take k b) + m) = omega arith in
    rw sum (drop_chunk k m b)

-- A connection of frames, just opened, in front of this stream.
abbrev pub opened : Bytes → TcpTunnelConn
opened stream = record {
  reader = stream;
  read_buf = [];
  reuse = true;
  raw = false;
  close_write_err = none;
  sent = [];
}

module _ (tls_write : TlsWrite) where
  -- The bytes of a message that the connection took.
  abbrev Took : Bytes → Bytes → Bytes × Option WriteError → Type 0
  Took sent message (after, none) = after ≡ sent ++ message
  Took sent message (after, some e) = (k : ℕ) × (after ≡ sent ++ take k message)

  write_message-Took :
      (sent message : Bytes)
      → Took sent message (write_tcp_tunnel_handshake_message tls_write sent message)
  unfolding write_tcp_tunnel_handshake_message
  write_message-Took sent message = elim (Bool-cases (tls_write sent message).1) [
    | inl failed ↦ rw failed (_, refl)
    | inr fine ↦ elim (Bool-cases (nat_beq (tls_write sent message).0 (length message))) [
      | inl whole ↦
          let n = (nat_beq_iff _ (length message)).0 whole in
          rw (fine, whole) (ap (◌++◌ sent) (ap (λ k. take k message) n ∙ take-all message))
      | inr short ↦ rw (fine, short) (_, refl)
    ]
  ]

  abbrev AllFrom : ℕ → Type 0
  AllFrom fuel =
      (sent b : Bytes) (w : ℕ)
      → length b ≤ fuel
      → WroteFrom w sent b (write_chunks fuel tls_write sent b w)

  chunk_then_rest :
      (fuel : ℕ) (sent b : Bytes) (w : ℕ) (call : Bytes × Option WriteError)
      → 0 < length b
      → length b ≤ suc fuel
      → AllFrom fuel
      → Took sent (data_frame (take 0xffff b)) call
      → WroteFrom w sent b (elim (call.1) [
        | some e ↦ (w, some e, call.0)
        | none ↦ write_chunks fuel tls_write call.0 (drop 0xffff b) (w + length (take 0xffff b))
      ])
  chunk_then_rest fuel sent b w (after, some e) some_ enough rest took = (
    0,
    [],
    take took.0 (data_frame (take 0xffff b)),
    omega arith,
    took.1,
    λ s. refl,
    (some_, (took.0, refl)),
  )
  chunk_then_rest fuel sent b w (after, none) some_ enough rest took =
      let chunk = take 0xffff b in
      let left = length-drop 0xffff b in
      let (m, wire, part, count, is, carries, end) =
        rest after (drop 0xffff b) (w + length chunk) (omega (arith, left)) in
      let size = length-take 0xffff b in
      let small : length chunk < 65536 = omega (arith, size) in
      let sum : length b ≡ length chunk + length (drop 0xffff b) = omega (arith, size, left) in
      let bytes =
        append_assoc_list sent (data_frame chunk) (wire ++ part)
        ∙ ap (◌++◌ sent) (sym (append_assoc_list (data_frame chunk) wire part)) in
      (
        length chunk + m,
        data_frame chunk ++ wire,
        part,
        omega (arith, count),
        is ∙ ap (λ sent_. sent_ ++ (wire ++ part)) took ∙ bytes,
        subst (Carries (data_frame chunk ++ wire)) (sym (take_chunk 0xffff m b)) (
            Carries-append (data_frame chunk) wire chunk (take m (drop 0xffff b))
              (data_frame-Carries chunk small) carries),
        shifted_end _ m (length chunk) b (drop 0xffff b) part sum (drop_chunk 0xffff m b) end,
      )

  write_chunks-WroteFrom : (fuel : ℕ) → AllFrom fuel
  unfolding write_chunks
  write_chunks-WroteFrom fuel sent [] w enough =
      (0, [], [], omega arith, sym (append_nil_list sent), λ s. refl, (refl, refl))
  write_chunks-WroteFrom zero sent (x ∷ b) w enough = absurd (omega arith)
  write_chunks-WroteFrom (suc fuel) sent (x ∷ b) w enough =
      chunk_then_rest fuel sent (x ∷ b) w _ (omega arith) enough (write_chunks-WroteFrom fuel)
        (write_message-Took sent _)

  -- The contract of an io.Writer, whatever the TLS connection takes of a frame: Write on a connection
  -- of frames counts no more bytes than it was given, and sends frames that carry exactly the bytes
  -- that it counts. Without an error it counts all the bytes and sends nothing else. With an error it
  -- counts fewer, and behind those frames sends at most the next frame, from its beginning on, whose
  -- bytes it does not count.
  pub write-Contract :
      (c : TcpTunnelConn) (b : Bytes)
      → c.raw ≡ false
      → let (n, failure, after) = write tls_write c b in
        (wire : Bytes) × (part : Bytes) × (after.sent ≡ c.sent ++ (wire ++ part))
        × Carries wire (take n b)
        × Ends failure n b part
  unfolding write
  write-Contract c [] framed = ([], [], sym (append_nil_list c.sent), λ s. refl, (refl, refl))
  write-Contract c (x ∷ xs) framed =
      let (m, wire, part, count, is, carries, end) =
        write_chunks-WroteFrom (length (x ∷ xs)) c.sent (x ∷ xs) 0 (omega arith) in
      let all_ : (write_chunks (length (x ∷ xs)) tls_write c.sent (x ∷ xs) 0).0 ≡ m =
        omega (arith, count) in
      rw framed (
        wire,
        part,
        is,
        subst (λ k. Carries wire (take k (x ∷ xs))) (sym all_) carries,
        subst
            (λ k.
              Ends (write_chunks (length (x ∷ xs)) tls_write c.sent (x ∷ xs) 0).1 k (x ∷ xs) part)
            (sym all_) end,
      )

  whole_message :
      (sent message : Bytes) (call : Bytes × Option WriteError)
      → Took sent message call
      → call.1 ≡ none
      → call.0 ≡ sent ++ message
  whole_message sent message (after, none) took fine = took
  whole_message sent message (after, some e) took fine = cc

  close_write_sends :
      (c : TcpTunnelConn) (tls_close_write : Option WriteError)
      → c.reuse ≡ true
      → c.close_write_err ≡ none
      → (close_write tls_write tls_close_write c).0 ≡ none
      → (close_write tls_write tls_close_write c).1.sent ≡ c.sent ++ (1 ∷ 1 ∷ 0 ∷ 0 ∷ [])
  unfolding close_write
  close_write_sends c tls_close_write reuse open_ fine =
      let message : Bytes = 1 ∷ 1 ∷ 0 ∷ 0 ∷ [] in
      let call = write_tcp_tunnel_handshake_message tls_write c.sent message in
      let sent_ : (close_write tls_write tls_close_write c).1.sent ≡ call.0 =
        rw (open_) (rw reuse refl) in
      let answer : (close_write tls_write tls_close_write c).0 ≡ call.1 =
        rw (open_) (rw reuse refl) in
      sent_
      ∙ whole_message c.sent message call (write_message-Took c.sent message) (sym answer ∙ fine)

  write_keeps :
      (c : TcpTunnelConn) (b : Bytes)
      → let after = (write tls_write c b).2 in
        (after.reuse ≡ c.reuse) × (after.close_write_err ≡ c.close_write_err)
  unfolding write
  write_keeps c [] = (refl, refl)
  write_keeps c (x ∷ xs) = elim (Bool-cases c.raw) [
    | inl raw ↦ rw raw (refl, refl)
    | inr framed ↦ rw framed (refl, refl)
  ]

  written_whole :
      (c : TcpTunnelConn) (b : Bytes)
      → c.raw ≡ false
      → (write tls_write c b).1 ≡ none
      → (wire : Bytes) × ((write tls_write c b).2.sent ≡ c.sent ++ wire) × Carries wire b
  written_whole c b framed fine =
      let (wire, part, is, carries, end) = write-Contract c b framed in
      let (count, no_part) = subst (λ f. Ends f (write tls_write c b).0 b part) fine end in
      (
        wire,
        is ∙ ap (λ p. c.sent ++ (wire ++ p)) no_part ∙ ap (◌++◌ c.sent) (append_nil_list wire),
        subst (Carries wire) (ap (λ k. take k b) count ∙ take-all b) carries,
      )

  -- What a reusable connection writes and closes without an error, a connection that reads it
  -- delivers: all the bytes, in order, and then the end of the stream, whatever the sizes of the
  -- buffers, if none is empty and there is one more of them than bytes.
  pub drain-write :
      (available : Bytes → ℕ → ℕ) (tls_close_write : Option WriteError) (incoming b : Bytes)
      (sizes : List ℕ)
      → (write tls_write (opened incoming) b).1 ≡ none
      → (close_write tls_write tls_close_write (write tls_write (opened incoming) b).2).0 ≡ none
      → All (λ size. 0 < size) sizes
      → length b < length sizes
      → drain available sizes (
          opened
            (close_write tls_write tls_close_write (write tls_write (opened incoming) b).2).1.sent)
        ≡ (b, some eof)
  drain-write available tls_close_write incoming b sizes fine closed rooms enough =
      let (wire, is, carries) = written_whole (opened incoming) b refl fine in
      let after = (write tls_write (opened incoming) b).2 in
      let kept = write_keeps (opened incoming) b in
      let sent =
        close_write_sends after tls_close_write kept.0 kept.1 closed
        ∙ ap (λ w. w ++ (1 ∷ 1 ∷ 0 ∷ 0 ∷ [])) is in
      let ends_ : delivery (1 ∷ 1 ∷ 0 ∷ 0 ∷ []) ≡ ([], eof) = delivery_frame 1 1 0 0 [] in
      let whole : pending (opened (wire ++ (1 ∷ 1 ∷ 0 ∷ 0 ∷ []))) ≡ (b, eof) =
        carries (1 ∷ 1 ∷ 0 ∷ 0 ∷ [])
        ∙ ap (λ d. (b ++ d.0, d.1)) ends_
        ∙ ap (λ bytes. (bytes, eof)) (append_nil_list b) in
      let size = ap (λ w. length w.0) whole in
      rw sent (
        drain-pending available sizes (opened (wire ++ (1 ∷ 1 ∷ 0 ∷ 0 ∷ []))) refl rooms
          (omega (arith, size))
        ∙ ap (λ w. (w.0, some w.1)) whole)
