-- ===== src/Zctcpip/Verified.antt =====
-- A packet whose checksum was reset passes its check, and what a valid packet guarantees.
use distrust_core.Zctcpip.Checksum.{checksum}
use distrust_core.Zctcpip.Header.{header_cases}
use distrust_core.Zctcpip.Ipv4.{
  total_len, header_len, payload, valid, verify, set_checksum, reset_checksum,
}
use distrust_core.Base.{
  ℕ, ◌-◌, ◌*◌, ◌/◌, ◌%◌, ◌≤◌, ◌≡◌, refl, ◌∙◌, inl, inr, true, none, some, arith, Comparable_nat,
  Comparable_string, Option-cases, length, get_elem?, set, take, drop, length-take, length-drop,
  length-set, ok, Bytes, slice, put, get16,
}

slice-some :
    (p : Bytes) (lo hi : ℕ)
    → lo ≤ hi
    → hi ≤ length p
    → (q : Bytes) × (slice p lo hi ≡ some q) × (length q ≡ hi - lo)
unfolding slice
slice-some p lo hi h k = (
  take (hi - lo) (drop lo p),
  ground arith,
  omega (arith, length-take (hi - lo) (drop lo p), length-drop lo p),
)

pub valid-length : (p : Bytes) → valid p ≡ true → 20 ≤ length p
unfolding valid
valid-length p v = ground arith

-- What the test of a valid packet says of its fields.
pub valid-fields :
    (p : Bytes)
    → valid p ≡ true
    → (total : ℕ) × (header : ℕ) × (total_len p ≡ some total)
      × (header_len p ≡ some header)
      × (header ≤ total)
      × (total ≤ length p % 65536)
unfolding valid
valid-fields p v = elim (Option-cases (total_len p)) [
  | inl e ↦ absurd (no_total p e v)
  | inr (total, e) ↦ elim (Option-cases (header_len p)) [
    | inl f ↦ absurd (no_header p f v)
    | inr (header, f) ↦
        (total, header, e, f, (bounds p total header e f v).0, (bounds p total header e f v).1)
  ]
]
  where
    no_total : (p : Bytes) → total_len p ≡ none → valid p ≡ true → ⊥
    no_total p e v = ground arith

    no_header : (p : Bytes) → header_len p ≡ none → valid p ≡ true → ⊥
    no_header p e v = ground arith

    bounds :
        (p : Bytes) (total header : ℕ)
        → total_len p ≡ some total
        → header_len p ≡ some header
        → valid p ≡ true
        → (header ≤ total) × (total ≤ length p % 65536)
    bounds p total header e f v = ground arith

-- The payload of a valid packet is a slice within its bytes, as long as its header says: taking it
-- does not panic.
pub valid-payload :
    (p : Bytes)
    → valid p ≡ true
    → (total : ℕ) × (header : ℕ) × (body : Bytes) × (total_len p ≡ some total)
      × (header_len p ≡ some header)
      × (payload p ≡ some body)
      × (length body ≡ total - header)
unfolding payload
valid-payload p v =
    let (total, header, e, f, le, fits) = valid-fields p v in
    let (body, sliced, size) = slice-some p header total le (omega arith) in
    (total, header, body, e, f, payload_lem p total header body e f sliced, size)
  where
    payload_lem :
        (p : Bytes) (total header : ℕ) (body : Bytes)
        → total_len p ≡ some total
        → header_len p ≡ some header
        → slice p header total ≡ some body
        → payload p ≡ some body
    payload_lem p total header body e f g = rw (f, payload) (rw (e, payload) g)

-- The checksum's place filled, without a test of the length.
abbrev with_checksum : Bytes → ℕ × ℕ → Bytes
with_checksum p (hi, lo) = set (set p 10 hi) 11 lo

set_checksum-with :
    (p : Bytes) (c : ℕ × ℕ) → 20 ≤ length p → set_checksum p c ≡ some (with_checksum p c)
unfolding set_checksum put
set_checksum-with p c h = ground (arith, length-set p 10 c.0)

-- Writing the checksum touches no other field, and its place is overwritten whole.
with_checksum_fields :
    (c : ℕ × ℕ) (p : Bytes)
    → 20 ≤ length p
    → let z = with_checksum p (0, 0) in
      let q = with_checksum z c in
      (get_elem? q 10 ≡ some c.0)
      × (get_elem? q 11 ≡ some c.1)
      × (get_elem? q 0 ≡ get_elem? p 0)
      × (get_elem? z 0 ≡ get_elem? p 0)
      × (get16 q 2 ≡ get16 p 2)
      × (with_checksum q (0, 0) ≡ z)
unfolding get16
with_checksum_fields c p h =
    header_cases
      (λ p.
        let z = with_checksum p (0, 0) in
        let q = with_checksum z c in
        (get_elem? q 10 ≡ some c.0)
        × (get_elem? q 11 ≡ some c.1)
        × (get_elem? q 0 ≡ get_elem? p 0)
        × (get_elem? z 0 ≡ get_elem? p 0)
        × (get16 q 2 ≡ get16 p 2)
        × (with_checksum q (0, 0) ≡ z))
      (λ a0 a1 a2 a3 a4 a5 a6 a7 a8 a9 a10 a11 a12 a13 a14 a15 a16 a17 a18 a19 rest.
        (refl, refl, refl, refl, refl, refl))
      p h

length-with_checksum : (p : Bytes) (c : ℕ × ℕ) → length (with_checksum p c) ≡ length p
length-with_checksum p c = length-set (set p 10 c.0) 11 c.1 ∙ length-set p 10 c.0

reset_checksum-with :
    (p covered : Bytes) (first : ℕ)
    → 20 ≤ length p
    → get_elem? (with_checksum p (0, 0)) 0 ≡ some first
    → slice (with_checksum p (0, 0)) 0 (first % 16 * 4) ≡ some covered
    → reset_checksum p ≡ some (with_checksum (with_checksum p (0, 0)) (checksum 0 covered))
unfolding reset_checksum
reset_checksum-with p covered first long e sliced =
    let z = with_checksum p (0, 0) in
    let z_long : 20 ≤ length z = omega (arith, length-with_checksum p (0, 0)) in
    rw (set_checksum-with p (0, 0) long)
      (rw e (rw sliced (set_checksum-with z (checksum 0 covered) z_long)))

verify-with :
    (q covered : Bytes) (first packet_length : ℕ)
    → 20 ≤ length q
    → get_elem? q 0 ≡ some first
    → get_elem? q 10 ≡ some (checksum 0 covered).0
    → get_elem? q 11 ≡ some (checksum 0 covered).1
    → total_len q ≡ some packet_length
    → first / 16 ≡ 4
    → first % 16 * 4 ≤ packet_length
    → packet_length ≤ length q % 65536
    → slice (with_checksum q (0, 0)) 0 (first % 16 * 4) ≡ some covered
    → verify q ≡ ok tt
unfolding verify
verify-with q covered first packet_length long e0 e10 e11 e2 version le fits sliced =
    rw (e10, verify)
      (rw (e11, verify)
        (rw (e2, verify) (rw (e0, verify) (ground (arith, set_checksum-with q (0, 0) long)))))

header_len-first :
    (p : Bytes) (first header : ℕ)
    → get_elem? p 0 ≡ some first
    → header_len p ≡ some header
    → header ≡ first % 16 * 4
unfolding header_len
header_len-first p first header e h = ground arith

-- Resetting the checksum of a valid IPv4 packet succeeds, and the result passes the check.
pub reset_checksum-verify :
    (p : Bytes) (first : ℕ)
    → valid p ≡ true
    → get_elem? p 0 ≡ some first
    → first / 16 ≡ 4
    → (q : Bytes) × (reset_checksum p ≡ some q) × (verify q ≡ ok tt)
unfolding total_len
reset_checksum-verify p first v e version = finish (valid-fields p v)
  where
    finish :
        (total : ℕ) × (header : ℕ) × (total_len p ≡ some total)
          × (header_len p ≡ some header)
          × (header ≤ total)
          × (total ≤ length p % 65536)
        → (q : Bytes) × (reset_checksum p ≡ some q) × (verify q ≡ ok tt)
    finish (total, header, et, eh, le, fits) =
        let z = with_checksum p (0, 0) in
        let long = valid-length p v in
        let own = header_len-first p first header e eh in
        let small : first % 16 * 4 ≤ length z = omega (arith, length-with_checksum p (0, 0)) in
        let (covered, sliced, _) = slice-some z 0 (first % 16 * 4) (omega arith) small in
        let (q10, q11, q0, z0, q2, clears) = with_checksum_fields (checksum 0 covered) p long in
        let q = with_checksum z (checksum 0 covered) in
        let same : length q ≡ length p =
          length-with_checksum z (checksum 0 covered) ∙ length-with_checksum p (0, 0) in
        (
          q,
          reset_checksum-with p covered first long (z0 ∙ e) sliced,
          verify-with q covered first total (omega arith) (q0 ∙ e) q10 q11 (q2 ∙ et) version
              (omega arith) (rw same fits) (rw clears sliced),
        )
