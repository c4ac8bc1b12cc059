-- ===== src/Conntrack/Flushing.antt =====
-- client/atrust/l3tunnelconn.go: what becomes of the packets that WritePacket queued.
use Prim.Native.String.{String}
use distrust_core.Conntrack.{Conntrack, ConntrackMgr, ConntrackError, points_to}
use distrust_core.Conntrack.Invariant.{IsConsistent}
use distrust_core.Conntrack.Auth.{auth_result, cache_packet, complete_auth, get_by_id}
use distrust_core.Conntrack.Delivery.{complete_auth-cache_packet, complete_auth-answered}
use distrust_core.Tunnel.Frames.{get_data_payload}
use distrust_core.Tunnel.Meta.{PacketMeta}
use distrust_core.Base.{
  ℕ, ◌≤◌, ◌≡◌, refl, sym, ap, ◌∙◌, subst, ◌≢◌, ◌↔◌, inl, inr, Bool, true, false, Option, none, some,
  List, [], ◌∷◌, ◌++◌, map, arith, ltb, nat_beq, if◌then◌else◌, Comparable_nat, Comparable_string,
  Bool-cases, nat_beq_iff, length, append_assoc_list, append_nil_list, lookup, Bytes,
}
use distrust_core.Conntrack.Writing.{
  SendError, connection_failed, short_write, Sent, queued, cache_answer, written_answer, FrameWrite,
  write_frame, write_authenticated_packet, answer_done, send_or_cache, flush, flush_all,
  complete_authentication,
}

module _ (bytes_of : String → Bytes) (tls_write : FrameWrite) where
  -- The connection takes each of the frames whole and without an error, in turn.
  abbrev pub Taken : List Bytes → List Bytes → Type 0
  Taken sent [] = Unit
  Taken sent (frame ∷ frames) =
      (tls_write sent frame ≡ (length frame, false)) × Taken (sent ++ (frame ∷ [])) frames

  -- What comes of frames to write: all are handed over and taken, or the connection is closed at the
  -- first that is not taken whole, and nothing is handed over behind it.
  abbrev pub InOrder : List Bytes → List Bytes → List Bytes × Bool → Type 0
  InOrder sent frames (after, true) = (after ≡ sent ++ frames) × Taken sent frames
  InOrder sent frames (after, false) =
      (first : List Bytes) × (frame : Bytes) × (left : List Bytes) × (frames
        ≡ first ++ (frame ∷ left))
      × Taken sent first
      × (tls_write (sent ++ first) frame ≢ (length frame, false))
      × (after ≡ sent ++ (first ++ (frame ∷ [])))

  shifted :
      (sent : List Bytes) (frame : Bytes) (frames : List Bytes) (out : List Bytes × Bool)
      → tls_write sent frame ≡ (length frame, false)
      → InOrder (sent ++ (frame ∷ [])) frames out
      → InOrder sent (frame ∷ frames) out
  shifted sent frame frames (after, true) taken (is, rest) =
      (is ∙ append_assoc_list sent (frame ∷ []) frames, (taken, rest))
  shifted sent frame frames (after, false) taken (first, last, left, cuts, rest, refused, is) = (
    frame ∷ first,
    last,
    left,
    ap (◌∷◌ frame) cuts,
    (taken, rest),
    (λ whole.
        refused (ap (λ s. tls_write s last) (append_assoc_list sent (frame ∷ []) first) ∙ whole)),
    is ∙ append_assoc_list sent (frame ∷ []) (first ++ (last ∷ [])),
  )

  -- The answer of a write tells whether the frame was taken whole.
  write_frame-taken :
      (sent : List Bytes) (frame : Bytes)
      → ((write_frame bytes_of tls_write sent frame).1 ≡ none)
        ↔ (tls_write sent frame ≡ (length frame, false))
  unfolding write_frame
  write_frame-taken sent frame = (whole (tls_write sent frame), λ is. rw is (rw self refl))
    where
      self : nat_beq (length frame) (length frame) ≡ true
      self = ground arith

      whole :
          (out : ℕ × Bool)
          → (if out.1
              then some connection_failed
              else (if nat_beq out.0 (length frame) then none else some short_write))
            ≡ none
          → out ≡ (length frame, false)
      whole (n, true) h = cc
      whole (n, false) h = elim (Bool-cases (nat_beq n (length frame))) [
        | inl same ↦ ap (λ k. (k, false)) ((nat_beq_iff n (length frame)).0 same)
        | inr short ↦ absurd (ground arith)
      ]

  write_frame-sent :
      (sent : List Bytes) (frame : Bytes)
      → (write_frame bytes_of tls_write sent frame).0 ≡ sent ++ (frame ∷ [])
  unfolding write_frame
  write_frame-sent sent frame = refl

  write_authenticated_packet-fits :
      (token packet : Bytes) (sent : List Bytes)
      → length token ≤ 255
      → write_authenticated_packet bytes_of tls_write token packet sent
        ≡ write_frame bytes_of tls_write sent (get_data_payload token packet)
  unfolding write_authenticated_packet
  write_authenticated_packet-fits token packet sent short =
      let fits : ltb 255 (length token) ≡ false = ground arith in rw fits refl

  -- One round of the loop, from what the write of its frame answered.
  round-InOrder :
      (token frame : Bytes) (sent frames packets : List Bytes) (out : List Bytes × Option SendError)
      → ((out.1 ≡ none) ↔ (tls_write sent frame ≡ (length frame, false)))
      → out.0 ≡ sent ++ (frame ∷ [])
      → ((s : List Bytes) → InOrder s frames (flush bytes_of tls_write token s packets))
      → InOrder sent (frame ∷ frames) (elim (out.1) [
        | some _ ↦ (out.0, false)
        | none ↦ flush bytes_of tls_write token out.0 packets
      ])
  round-InOrder token frame sent frames packets (after, none) taken is rest =
      shifted sent frame frames (flush bytes_of tls_write token after packets) (taken.0 refl) (
        subst (λ s. InOrder s frames (flush bytes_of tls_write token after packets)) is
          (rest after))
  round-InOrder token frame sent frames packets (after, some e) taken is rest = (
    [],
    frame,
    frames,
    refl,
    tt,
    (λ whole.
        some_error (taken.1 (ap (λ s. tls_write s frame) (sym (append_nil_list sent)) ∙ whole))),
    is,
  )
    where
      some_error : some e ≡ none → ⊥
      some_error same = cc

  flush-InOrder :
      (token : Bytes) (sent packets : List Bytes)
      → length token ≤ 255
      → InOrder sent
          (map (get_data_payload token) packets)
          (flush bytes_of tls_write token sent packets)
  unfolding flush
  flush-InOrder token sent [] short = (sym (append_nil_list sent), tt)
  flush-InOrder token sent (packet ∷ packets) short =
      let frame = get_data_payload token packet in
      let fits = write_authenticated_packet-fits token packet sent short in
      round-InOrder token frame sent (map (get_data_payload token) packets) packets
        (write_authenticated_packet bytes_of tls_write token packet sent)
        (subst (λ out. (out.1 ≡ none) ↔ (tls_write sent frame ≡ (length frame, false))) (sym fits)
          (write_frame-taken sent frame))
        (ap (λ out. out.0) fits ∙ write_frame-sent sent frame)
        (λ s. flush-InOrder token s packets short)

  written_answer-not_queued : (failure : Option SendError) → written_answer failure ≢ queued
  written_answer-not_queued none = λ e. cc
  written_answer-not_queued (some e) = λ e. cc

  answer_done-not_queued :
      (result : String × Option ConntrackError) (packet : Bytes) (sent : List Bytes)
      → (answer_done bytes_of tls_write result packet sent).1 ≢ queued
  answer_done-not_queued (token, some e) packet sent = λ e. cc
  answer_done-not_queued (token, none) packet sent = written_answer-not_queued _

  cache_packet-queued :
      (p : ℕ) (meta : PacketMeta) (packet : Bytes) (m n : ConntrackMgr)
      → Conntrack.auth_done (m.store p) ≡ false
      → (cache_packet p meta packet m).0 ≡ n
      → cache_answer (cache_packet p meta packet m).2 ≡ queued
      → cache_packet p meta packet m ≡ (n, true, none)
  unfolding cache_packet
  cache_packet-queued p meta packet m n open_ same answer =
      elim (Bool-cases (points_to (lookup (Conntrack.key (m.store p)) m.by_key) p)) [
        | inl held ↦ ground arith
        | inr lost ↦ absurd (ground arith)
      ]

  -- What is queued was kept by the table, and no frame was written.
  send_or_cache-queued :
      (p : ℕ) (meta : PacketMeta) (packet : Bytes) (sent after : List Bytes) (m n : ConntrackMgr)
      → send_or_cache bytes_of tls_write p meta packet sent m ≡ (n, after, queued)
      → cache_packet p meta packet m ≡ (n, true, none)
  unfolding send_or_cache auth_result
  send_or_cache-queued p meta packet sent after m n h =
      elim (Bool-cases (Conntrack.auth_done (m.store p))) [
        | inl done ↦ absurd (
            answer_done-not_queued
              (Conntrack.connect_token (m.store p), Conntrack.auth_err (m.store p)) packet sent
              (sym (answered done) ∙ ap (λ (o : ConntrackMgr × List Bytes × Sent). o.2) h))
        | inr open_ ↦
            cache_packet-queued p meta packet m n open_
              (sym (unanswered open_).0 ∙ ap (λ (o : ConntrackMgr × List Bytes × Sent). o.0) h)
              (sym (unanswered open_).1 ∙ ap (λ (o : ConntrackMgr × List Bytes × Sent). o.2) h)
      ]
    where
      answered :
          Conntrack.auth_done (m.store p) ≡ true
          → (send_or_cache bytes_of tls_write p meta packet sent m).2
            ≡ (answer_done bytes_of tls_write
                (Conntrack.connect_token (m.store p), Conntrack.auth_err (m.store p))
                packet
                sent).1
      answered done = rw (send_or_cache, auth_result, done) refl

      unanswered :
          Conntrack.auth_done (m.store p) ≡ false
          → ((send_or_cache bytes_of tls_write p meta packet sent m).0
              ≡ (cache_packet p meta packet m).0)
            × ((send_or_cache bytes_of tls_write p meta packet sent m).2
                ≡ cache_answer (cache_packet p meta packet m).2)
      unanswered open_ = rw (send_or_cache, auth_result, open_) (refl, refl)

  complete_authentication_flushes :
      (auth_id : ℕ) (token : String) (sent : List Bytes) (m : ConntrackMgr) (p : ℕ)
      (packets : List Bytes)
      → (complete_auth auth_id token none m).1 ≡ some (p, packets)
      → (
        (complete_authentication bytes_of tls_write auth_id token none sent m).1,
        (complete_authentication bytes_of tls_write auth_id token none sent m).2,
      )
        ≡ flush bytes_of tls_write (bytes_of token) sent packets
  unfolding complete_authentication get_by_id
  complete_authentication_flushes auth_id token sent m p packets h =
      let (found, same) =
        complete_auth-answered auth_id token none m ((complete_auth auth_id token none m).0) p
          packets
          (ap (λ (x : Option (ℕ × List Bytes)). ((complete_auth auth_id token none m).0, x)) h) in
      rw (complete_authentication, get_by_id, found)
        (ap (flush_all bytes_of tls_write (bytes_of token) sent none) h)

  -- A packet that was queued is not lost and does not overtake: if the authentication of its
  -- connection then succeeds, with a token that fits a frame, the frames of the packets that waited,
  -- in their order, and then of this packet are handed to the TLS connection, which takes each whole;
  -- or one of these writes fails or is short, and then the frames up to that one were handed over in
  -- this order, the connection is closed, and no frame follows.
  pub complete_authentication-send_or_cache :
      (p : ℕ) (meta : PacketMeta) (packet : Bytes) (token : String) (sent after : List Bytes)
      (m n : ConntrackMgr)
      → IsConsistent m
      → send_or_cache bytes_of tls_write p meta packet sent m ≡ (n, after, queued)
      → length (bytes_of token) ≤ 255
      → let done =
          complete_authentication bytes_of tls_write
            (Conntrack.auth_id (m.store p))
            token
            none
            after
            n in
        InOrder after
          (map (get_data_payload (bytes_of token)) (Conntrack.pending (m.store p) ++ (packet ∷ [])))
          (done.1, done.2)
  complete_authentication-send_or_cache p meta packet token sent after m n c h short =
      let frames = Conntrack.pending (m.store p) ++ (packet ∷ []) in
      subst (InOrder after (map (get_data_payload (bytes_of token)) frames))
        (sym (
          complete_authentication_flushes (Conntrack.auth_id (m.store p)) token after n p frames (
            complete_auth-cache_packet p meta packet token m n c
              (send_or_cache-queued p meta packet sent after m n h))))
        (flush-InOrder (bytes_of token) after frames short)
