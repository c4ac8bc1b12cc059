-- ===== src/Zctcpip/Examples.antt =====
-- A twenty-byte header that carries no payload.
use distrust_core.Zctcpip.Checksum.{checksum, sum, checksum_complements}
use distrust_core.Zctcpip.Ipv4.{total_len, header_len, payload, valid, verify, reset_checksum}
use distrust_core.Zctcpip.Verified.{valid-payload, reset_checksum-verify}
use distrust_core.Base.{
  ℕ, ◌+◌, ◌-◌, ◌%◌, ◌^◌, ◌≡◌, refl, true, some, [], ◌∷◌, Comparable_nat, Comparable_string, length,
  ok, Bytes, join16, get16,
}

abbrev header : Bytes
header = 0x45 ∷ 0 ∷ 0 ∷ 20 ∷ 0 ∷ 1 ∷ 0 ∷ 0 ∷ 64 ∷ 17 ∷ 0 ∷ 0 ∷ 10 ∷ 0 ∷ 0 ∷ 1 ∷ 10 ∷ 0 ∷ 0 ∷ 2 ∷ []

header-valid : valid header ≡ true
unfolding valid total_len header_len get16
header-valid = refl

checksum_complements_example :
    ((0 + sum header) % 2 ^ 32 + join16 (checksum 0 header).0 (checksum 0 header).1) % 65535 ≡ 0
checksum_complements_example = checksum_complements 0 header

valid-payload_example :
    (total : ℕ) × (header_size : ℕ) × (body : Bytes) × (total_len header ≡ some total)
    × (header_len header ≡ some header_size)
    × (payload header ≡ some body)
    × (length body ≡ total - header_size)
valid-payload_example = valid-payload header header-valid

reset_checksum-verify_example : (q : Bytes) × (reset_checksum header ≡ some q) × (verify q ≡ ok tt)
reset_checksum-verify_example = reset_checksum-verify header 0x45 header-valid refl refl
