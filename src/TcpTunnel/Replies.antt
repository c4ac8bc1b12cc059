-- ===== src/TcpTunnel/Replies.antt =====
-- client/atrust/tcptunnel.go: which answers of the server open a tunnel, and what the others come to.
use distrust_core.TcpTunnel.Handshake.{
  AuthResponse, HandshakeError, Reply, read_full, read_tcp_protocol_response,
  parse_tcp_tunnel_auth_response, read_socks5_connect_reply, status_error, read_connect_reply,
  byte_at, address_length, bind_address, is_code, unexpected_version, unexpected_server_hello,
  unexpected_auth_response, expect, authentication_failed, session_invalid,
}
use distrust_core.Base.{
  ℕ, zero, suc, ◌+◌, ◌≡◌, refl, sym, ap, ◌∙◌, ◌⊎◌, inl, inr, Bool, true, false, ◌&&◌, ◌||◌, Option,
  some, [], ◌∷◌, ◌++◌, arith, leb, nat_beq, if◌then◌else◌, Comparable_nat, Comparable_string,
  Bool-cases, nat_beq_iff, Option-cases, length, take, drop, length-append, length-take,
  take-append-drop, take-append_length, drop-append_length, ℤ, pos, negsuc, ok, err, panic, ◌>>=◌,
  ◌>>◌, guard, guard-eq-ok, or_panic, chain_gave, Bytes, join16, get16,
}

pub read_full_append : (p s : Bytes) (n : ℕ) → length p ≡ n → read_full n (p ++ s) ≡ ok (p, s)
unfolding read_full
read_full_append p s n size =
    let fits : leb n (length (p ++ s)) ≡ true = ground (arith, length-append p s) in
    rw fits (
      ap (λ k. ok (take k (p ++ s), drop k (p ++ s))) (sym size)
      ∙ rw (take-append_length p s, drop-append_length p s) refl)

read_full_gave :
    (n : ℕ) (s p rest : Bytes) → read_full n s ≡ ok (p, rest) → (s ≡ p ++ rest) × (length p ≡ n)
unfolding read_full
read_full_gave n s p rest gave = ground (arith, take-append-drop n s, length-take n s)

-- What a server sends: its hello, the accepted authentication with its payload, and a connect reply.
unfoldable pub server_answers : ℕ → ℕ → Bytes → ℕ → ℕ → ℕ → Bytes → Bytes
server_answers hi lo payload status flag kind rest =
    0x05 ∷ 0x81 ∷ 0x53 ∷ 0x00 ∷ hi ∷ lo ∷ (payload ++ (0x05 ∷ status ∷ flag ∷ kind ∷ rest))

-- Four bytes, read one by one.
four : (p : Bytes) → length p ≡ 4 → (a : ℕ) × (b : ℕ) × (c : ℕ) × (d : ℕ) × (p ≡ a ∷ b ∷ c ∷ d ∷ [])
four (a ∷ b ∷ c ∷ d ∷ []) size = (a, b, c, d, refl)
four [] size = absurd (omega arith)
four (a ∷ []) size = absurd (omega arith)
four (a ∷ b ∷ []) size = absurd (omega arith)
four (a ∷ b ∷ c ∷ []) size = absurd (omega arith)
four (a ∷ b ∷ c ∷ d ∷ e ∷ p) size = absurd (omega arith)

two : (p : Bytes) → length p ≡ 2 → (a : ℕ) × (b : ℕ) × (p ≡ a ∷ b ∷ [])
two (a ∷ b ∷ []) size = (a, b, refl)
two [] size = absurd (omega arith)
two (a ∷ []) size = absurd (omega arith)
two (a ∷ b ∷ c ∷ p) size = absurd (omega arith)

abbrev pub Bound : ℕ → Bytes → Type 0
Bound kind bound = (kind ≡ 1) × (length bound ≡ 6) ⊎ (kind ≡ 4) × (length bound ≡ 18)

-- The rest of a connect reply behind its four bytes.
abbrev pub connect_fields : Bytes → Bytes → Reply (ℕ × Bool × Bytes)
connect_fields header s = do
  version ← byte_at header 0
  guard (nat_beq version 0x05) unexpected_version
  status ← byte_at header 1
  flag ← byte_at header 2
  kind ← byte_at header 3
  if nat_beq status 0x00 then bind_address flag kind s else ok (status, false, s)

bind_address_gave :
    (flag kind : ℕ) (s rest : Bytes) (status : ℕ) (reuse : Bool)
    → bind_address flag kind s ≡ ok (status, reuse, rest)
    → (bound : Bytes) × (s ≡ bound ++ rest) × (reuse ≡ nat_beq flag 1) × Bound kind bound
bind_address_gave flag kind s rest status reuse gave =
    let (size, sized, read_) = chain_gave (address_length kind) _ gave in
    let ((bound, left), took, end) = chain_gave (read_full (size + 2) s) _ read_ in
    let (is, len) = read_full_gave (size + 2) s bound left took in
    let same : left ≡ rest = ground arith in
    let kinds : Bound kind bound = ground arith in
    (bound, is ∙ ap (◌++◌ bound) same, ground arith, kinds)

fields_accepted :
    (a b c d : ℕ) (s rest : Bytes) (reuse : Bool)
    → connect_fields (a ∷ b ∷ c ∷ d ∷ []) s ≡ ok (0, reuse, rest)
    → (a ≡ 5)
      × (b ≡ 0)
      × ((bound : Bytes) × (s ≡ bound ++ rest) × (reuse ≡ nat_beq c 1) × Bound d bound)
fields_accepted a b c d s rest reuse gave =
    let (version, next) = guard-eq-ok (nat_beq a 5) unexpected_version _ _ gave in
    elim (Bool-cases (nat_beq b 0)) [
      | inl zero_ ↦
          let call : bind_address c d s ≡ ok (0, reuse, rest) =
            ap (λ t. if t then bind_address c d s else ok (b, false, s)) (sym zero_) ∙ next in
          (
            (nat_beq_iff a 5).0 version,
            (nat_beq_iff b 0).0 zero_,
            bind_address_gave c d s rest 0 reuse call,
          )
      | inr other ↦ absurd (ground arith)
    ]

-- A connect reply with status 0.
socks5_accepted :
    (stream rest : Bytes) (reuse : Bool)
    → read_socks5_connect_reply stream ≡ ok (0, reuse, rest)
    → (flag : ℕ) × (kind : ℕ) × (bound : Bytes) × (stream
        ≡ 0x05 ∷ 0x00 ∷ flag ∷ kind ∷ (bound ++ rest))
      × (reuse ≡ nat_beq flag 1)
      × Bound kind bound
unfolding read_socks5_connect_reply
socks5_accepted stream rest reuse gave =
    let ((header, s1), r1, k1) = chain_gave (read_full 4 stream) _ gave in
    let (is, size) = read_full_gave 4 stream header s1 r1 in
    let (a, b, c, d, fields) = four header size in
    let (version, status, (bound, left, flag, kinds)) =
      fields_accepted a b c d s1 rest reuse (ap (λ h. connect_fields h s1) (sym fields) ∙ k1) in
    (
      c,
      d,
      bound,
      is
          ∙ ap (λ h. h ++ s1) fields
          ∙ ap (λ s. a ∷ b ∷ c ∷ d ∷ s) left
          ∙ ap (λ v. v ∷ b ∷ c ∷ d ∷ (bound ++ rest)) version
          ∙ ap (λ v. 5 ∷ v ∷ c ∷ d ∷ (bound ++ rest)) status,
      flag,
      kinds,
    )

abbrev pub protocol_response : Bytes → Bytes → Reply (Bytes × Bytes)
protocol_response length_bytes s = do size ← or_panic (get16 length_bytes 0); read_full size s

protocol_response_gave :
    (stream payload rest : Bytes)
    → read_tcp_protocol_response stream ≡ ok (payload, rest)
    → (hi : ℕ) × (lo : ℕ) × (stream ≡ hi ∷ lo ∷ (payload ++ rest)) × (join16 hi lo ≡ length payload)
unfolding read_tcp_protocol_response get16
protocol_response_gave stream payload rest gave =
    let ((length_bytes, s1), r1, k1) = chain_gave (read_full 2 stream) _ gave in
    let (is, size) = read_full_gave 2 stream length_bytes s1 r1 in
    let (hi, lo, fields) = two length_bytes size in
    let call : read_full (join16 hi lo) s1 ≡ ok (payload, rest) =
      ap (λ b. protocol_response b s1) (sym fields) ∙ k1 in
    let (left, len) = read_full_gave (join16 hi lo) s1 payload rest call in
    (hi, lo, is ∙ ap (λ b. b ++ s1) fields ∙ ap (λ s. hi ∷ lo ∷ s) left, sym len)

abbrev pub tested : ℕ → ℕ → HandshakeError → Bytes → Bytes → Reply Bytes
tested first second failure bytes rest = do
  a ← byte_at bytes 0
  b ← byte_at bytes 1
  guard (nat_beq a first && nat_beq b second) failure
  ok rest

both_true : (x y : Bool) → x && y ≡ true → (x ≡ true) × (y ≡ true)
both_true true y both = (refl, both)
both_true false y both = cc

tested_gave :
    (x y a b : ℕ) (e : HandshakeError) (s rest : Bytes)
    → tested x y e (a ∷ b ∷ []) s ≡ ok rest
    → (a ≡ x) × (b ≡ y) × (s ≡ rest)
tested_gave x y a b e s rest gave =
    let (both, left) = guard-eq-ok (nat_beq a x && nat_beq b y) e _ _ gave in
    let (first, second) = both_true (nat_beq a x) (nat_beq b y) both in
    ((nat_beq_iff a x).0 first, (nat_beq_iff b y).0 second, ground arith)

expect_gave :
    (x y : ℕ) (e : HandshakeError) (stream rest : Bytes)
    → expect x y e stream ≡ ok rest
    → stream ≡ x ∷ y ∷ rest
expect_gave x y e stream rest gave =
    let ((bytes, s1), r1, k1) = chain_gave (read_full 2 stream) _ gave in
    let (is, size) = read_full_gave 2 stream bytes s1 r1 in
    let (a, b, fields) = two bytes size in
    let (first, second, left) =
      tested_gave x y a b e s1 rest (ap (λ p. tested x y e p s1) (sym fields) ∙ k1) in
    is
    ∙ ap (λ p. p ++ s1) fields
    ∙ ap (λ v. v ∷ b ∷ s1) first
    ∙ ap (λ v. x ∷ v ∷ s1) second
    ∙ ap (λ s. x ∷ y ∷ s) left

followed_gave :
    {A : Type 0} (call : Reply (Unit {0})) (next : Reply A) {answer : A}
    → (call >> next) ≡ ok answer
    → (call ≡ ok tt) × (next ≡ ok answer)
followed_gave (ok tt) next gave = (refl, gave)
followed_gave (err e) next gave = cc
followed_gave panic next gave = cc

abbrev judged : ℤ → Bool → Reply (Unit {0})
judged code handles =
    if is_code 0 code
    then ok tt
    else (if (is_code 10000004 code || is_code 75500002 code) && handles
        then err session_invalid
        else err (authentication_failed code))

is_zero : (c : ℤ) → is_code 0 c ≡ true → c ≡ pos 0
is_zero (pos n) same = ap pos (sym ((nat_beq_iff 0 n).0 same))
is_zero (negsuc n) same = cc

judged_ok : (code : ℤ) (handles : Bool) → judged code handles ≡ ok tt → code ≡ pos 0
judged_ok code handles gave = elim (Bool-cases (is_code 0 code)) [
  | inl zero_ ↦ is_zero code zero_
  | inr other ↦ absurd (ground arith)
]

zero_status :
    (status : ℕ) (flag reuse : Bool) (left rest : Bytes)
    → ◌≡◌ {A = Reply (Bool × Bytes)}
        (if nat_beq status 0 then ok (flag, left) else err (status_error status))
        (ok (reuse, rest))
    → (status ≡ 0) × (flag ≡ reuse) × (left ≡ rest)
zero_status zero flag reuse left rest gave = ground arith
zero_status (suc n) flag reuse left rest gave = absurd (ground arith)

module _ (unmarshal : Bytes → Option AuthResponse) (handles : Bool) where
  auth_gave :
      (payload : Bytes)
      → parse_tcp_tunnel_auth_response unmarshal handles payload ≡ ok tt
      → unmarshal payload ≡ some (record { code = pos 0 })
  unfolding parse_tcp_tunnel_auth_response
  auth_gave payload gave = elim (Option-cases (unmarshal payload)) [
    | inl missing ↦ absurd (ground arith)
    | inr (response, read_) ↦
        let judged_ : judged response.code handles ≡ ok tt = ground arith in
        read_ ∙ ap (λ c. some (record { code = c })) (judged_ok response.code handles judged_)
  ]

  -- The rest of the reads behind the authentication.
  abbrev pub connect_reply : Bytes → Reply (Bool × Bytes)
  connect_reply s = do
    (status, reuse, left) ← read_socks5_connect_reply s
    if nat_beq status 0 then ok (reuse, left) else err (status_error status)

  connect_reply_gave :
      (s rest : Bytes) (reuse : Bool)
      → connect_reply s ≡ ok (reuse, rest)
      → read_socks5_connect_reply s ≡ ok (0, reuse, rest)
  connect_reply_gave s rest reuse gave =
      let ((status, flag, left), r, k) = chain_gave (read_socks5_connect_reply s) _ gave in
      let (zero_, same, rest_) = zero_status status flag reuse left rest k in
      r
      ∙ ap (λ n. ok (n, flag, left)) zero_
      ∙ ap (λ b. ok (0, b, left)) same
      ∙ ap (λ l. ok (0, reuse, l)) rest_

  -- A tunnel is opened only by a server that sends its hello, accepts the authentication with code 0,
  -- and answers the connect request with status 0 and a bound address: these are the bytes that were
  -- read, the connection is reusable if the reply's reserved byte is 1, and what is behind the reply
  -- is left for Read.
  pub read_connect_reply-server_answers :
      (stream rest : Bytes) (reuse : Bool)
      → read_connect_reply unmarshal handles stream ≡ ok (reuse, rest)
      → (hi : ℕ) × (lo : ℕ) × (payload : Bytes) × (flag : ℕ) × (kind : ℕ) × (bound : Bytes)
        × (stream ≡ server_answers hi lo payload 0 flag kind (bound ++ rest))
        × (join16 hi lo ≡ length payload)
        × (unmarshal payload ≡ some (record { code = pos 0 }))
        × (reuse ≡ nat_beq flag 1)
        × Bound kind bound
  unfolding read_connect_reply server_answers
  read_connect_reply-server_answers stream rest reuse gave =
      let (s1, r1, k1) = chain_gave (expect 0x05 0x81 unexpected_server_hello stream) _ gave in
      let (s2, r2, k2) = chain_gave (expect 0x53 0x00 unexpected_auth_response s1) _ k1 in
      let ((payload, s3), r3, k3) = chain_gave (read_tcp_protocol_response s2) _ k2 in
      let (hi, lo, is3, len) = protocol_response_gave s2 payload s3 r3 in
      let (auth, k4) = followed_gave _ (connect_reply s3) k3 in
      let (flag, kind, bound, is4, reusable, bound_) =
        socks5_accepted s3 rest reuse (connect_reply_gave s3 rest reuse k4) in
      (
        hi,
        lo,
        payload,
        flag,
        kind,
        bound,
        expect_gave _ _ _ stream s1 r1
            ∙ ap (λ s. 0x05 ∷ 0x81 ∷ s) (expect_gave _ _ _ s1 s2 r2 ∙ ap (λ s. 0x53 ∷ 0x00 ∷ s) is3)
            ∙ ap (λ s. 0x05 ∷ 0x81 ∷ 0x53 ∷ 0x00 ∷ hi ∷ lo ∷ (payload ++ s)) is4,
        len,
        auth_gave payload auth,
        reusable,
        bound_,
      )
