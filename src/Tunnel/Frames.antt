-- ===== src/Tunnel/Frames.antt =====
-- client/atrust/l3tunnelconn.go: getDataPayload and parseDataPayload.
use distrust_core.Base.{
  ℕ, zero, suc, ◌+◌, ◌-◌, ◌/◌, ◌%◌, ◌≤◌, ◌<◌, ◌≡◌, ap, ◌∙◌, ◌≢◌, inl, inr, none, some, List, [],
  ◌∷◌, ◌++◌, arith, leb, Comparable_nat, Comparable_string, Option-cases, length, get_elem?, take,
  drop, length-append, get_elem?-append, drop-append, take-all, Outcome, ok, panic, ◌>>=◌, ◌>>◌,
  guard, or_panic, Bytes, join16, be16, slice, get16,
}

pub data FrameError : Type 0 where
  payload_too_short token_overflow packet_length_overflow : FrameError
  packet_data_overflow : FrameError

-- Version, command, the token with its length, two reserved bytes, the count of packets, and one
-- packet with its length.
unfoldable pub get_data_payload : Bytes → Bytes → Bytes
get_data_payload token packet =
    0x05
    ∷ 0x14
    ∷ length token % 256
    ∷ (token ++ (0x00 ∷ 0x00 ∷ 0x01 ∷ (be16 (length packet % 65536) ++ packet)))

-- The loop over `count` packets from index `idx` on.
unfoldable pub parse_packets : ℕ → Bytes → ℕ → Outcome FrameError (List Bytes)
parse_packets zero payload idx = ok []
parse_packets (suc count) payload idx = do
  guard (leb (idx + 2) (length payload)) packet_length_overflow
  plen ← or_panic (get16 payload idx)
  guard (leb (idx + 2 + plen) (length payload)) packet_data_overflow
  packet ← or_panic (slice payload (idx + 2) (idx + 2 + plen))
  rest ← parse_packets count payload (idx + 2 + plen)
  ok (packet ∷ rest)

unfoldable pub parse_data_payload : Bytes → Outcome FrameError (List Bytes)
unfolding parse_packets
parse_data_payload payload = do
  guard (leb 4 (length payload)) payload_too_short
  token_len ← or_panic (get_elem? payload 0)
  guard (leb (1 + token_len + 3) (length payload)) token_overflow
  count ← or_panic (get_elem? payload (1 + token_len + 2))
  parse_packets count payload (1 + token_len + 3)

get_elem?-some : (p : Bytes) (i : ℕ) → i < length p → get_elem? p i ≢ none
get_elem?-some [] i h = absurd (omega arith)
get_elem?-some (x ∷ p) zero h = λ e. cc
get_elem?-some (x ∷ p) (suc i) h = get_elem?-some p i (omega arith)

get16-some : (p : Bytes) (i : ℕ) → i + 2 ≤ length p → get16 p i ≢ none
unfolding get16
get16-some p i h = ground (arith, get_elem?-some p i, get_elem?-some p (suc i))

slice-in_range : (p : Bytes) (lo hi : ℕ) → lo ≤ hi → hi ≤ length p → slice p lo hi ≢ none
unfolding slice
slice-in_range p lo hi h k = ground arith

parse_packets_safe : (count : ℕ) (p : Bytes) (idx : ℕ) → parse_packets count p idx ≢ panic
unfolding parse_packets
parse_packets_safe zero p idx = λ e. cc
parse_packets_safe (suc count) p idx = λ e. elim (Option-cases (get16 p idx)) [
  | inl none_ ↦ ground (arith, get16-some p idx)
  | inr (plen, some_) ↦ ground (
    arith,
    slice-in_range p (idx + 2) (idx + 2 + plen),
    parse_packets_safe count p (idx + 2 + plen),
  )
]

-- Parsing a data payload never panics, whatever the bytes: every index is tested before it is read.
pub parse_data_payload_safe : (p : Bytes) → parse_data_payload p ≢ panic
unfolding parse_data_payload
parse_data_payload_safe p = λ e. elim (Option-cases (get_elem? p 0)) [
  | inl none_ ↦ ground (arith, get_elem?-some p 0)
  | inr (token_len, some_) ↦ elim (Option-cases (get_elem? p (1 + token_len + 2))) [
    | inl none_ ↦ ground (arith, get_elem?-some p (1 + token_len + 2))
    | inr (count, count_) ↦ ground (arith, parse_packets_safe count p (1 + token_len + 3))
  ]
]

-- Reading behind the token: positions count from the end of the token.
module _ (t : ℕ) (token ys : Bytes) where
  get_elem?-behind : (i : ℕ) → get_elem? (t ∷ token ++ ys) (1 + length token + i) ≡ get_elem? ys i
  get_elem?-behind i =
      let e : 1 + length token + i ≡ suc (length token + i) = omega arith in
      rw e (get_elem?-append token ys i)

  get16-behind : (i : ℕ) → get16 (t ∷ token ++ ys) (1 + length token + i) ≡ get16 ys i
  unfolding get16
  get16-behind i =
      let e : suc (1 + length token + i) ≡ 1 + length token + suc i = omega arith in
      rw e (rw (get_elem?-behind i, get_elem?-behind (suc i)))

  slice-behind :
      (a b : ℕ)
      → a ≤ b
      → slice (t ∷ token ++ ys) (1 + length token + a) (1 + length token + b) ≡ slice ys a b
  unfolding slice
  slice-behind a b h =
      let lo : 1 + length token + a ≡ suc (length token + a) = omega arith in
      let size : 1 + length token + b - (1 + length token + a) ≡ b - a = omega arith in
      let dropped : drop (1 + length token + a) (t ∷ token ++ ys) ≡ drop a ys =
        rw lo (drop-append token ys a) in
      ground (arith, length-append token ys, ap (take (b - a)) dropped, size)

slice_behind_header :
    (a b c d e : ℕ) (packet : Bytes)
    → slice (a ∷ b ∷ c ∷ d ∷ e ∷ packet) 5 (5 + length packet) ≡ some packet
unfolding slice
slice_behind_header a b c d e packet =
    let size : 5 + length packet - 5 ≡ length packet = omega arith in
    rw size (rw (take-all packet) (ground arith))

-- A payload that holds one packet, by its fields.
parse_one :
    (p packet : Bytes) (tl n : ℕ)
    → length p ≡ 1 + tl + 5 + n
    → get_elem? p 0 ≡ some tl
    → get_elem? p (1 + tl + 2) ≡ some 1
    → get16 p (1 + tl + 3) ≡ some n
    → slice p (1 + tl + 3 + 2) (1 + tl + 3 + 2 + n) ≡ some packet
    → parse_data_payload p ≡ ok (packet ∷ [])
unfolding parse_data_payload
parse_one p packet tl n len e0 count size body = ground arith

-- A data frame whose token and packet fit their length fields, without its version and command,
-- parses back to exactly its packet.
pub parse_data_payload-get_data_payload :
    (token packet : Bytes)
    → length token < 256
    → length packet < 65536
    → parse_data_payload (drop 2 (get_data_payload token packet)) ≡ ok (packet ∷ [])
unfolding get_data_payload get16
parse_data_payload-get_data_payload token packet short small =
    let n = length packet in
    let packet_size : join16 (n % 65536 / 256 % 256) (n % 65536 % 256) ≡ n = omega arith in
    let ys : Bytes = 0x00 ∷ 0x00 ∷ 0x01 ∷ (be16 (n % 65536) ++ packet) in
    let t : ℕ = length token % 256 in
    let tl : length token % 256 ≡ length token = omega arith in
    let len : length (t ∷ token ++ ys) ≡ 1 + length token + 5 + n =
      omega (arith, length-append token ys) in
    let from : 1 + length token + 3 + 2 ≡ 1 + length token + 5 = omega arith in
    let to : 1 + length token + 3 + 2 + n ≡ 1 + length token + (5 + n) = omega arith in
    let whole : slice ys 5 (5 + n) ≡ some packet = slice_behind_header _ _ _ _ _ packet in
    parse_one (t ∷ token ++ ys) packet (length token) n len (ap some tl)
      (get_elem?-behind t token ys 2) (get16-behind t token ys 3 ∙ ap some packet_size)
      (rw (to, from) (slice-behind t token ys 5 (5 + n) (omega arith) ∙ whole))
