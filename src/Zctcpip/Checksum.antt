-- ===== src/Zctcpip/Checksum.antt =====
-- internal/zctcpip/tcpip.go: Sum and Checksum, on uint32 with its wrap-around.
use distrust_core.Base.{
  ℕ, ◌+◌, ◌-◌, ◌*◌, ◌/◌, ◌%◌, ◌^◌, ◌<◌, ◌≡◌, [], ◌∷◌, arith, Comparable_nat, Comparable_string,
  Bytes, IsByte, join16,
}

-- The byte that an odd length leaves over, shifted into the high half.
abbrev odd_tail : Bytes → ℕ
odd_tail [] = 0
odd_tail (a ∷ []) = a * 256
odd_tail (a ∷ b ∷ rest) = odd_tail rest

-- The loop over the pairs.
unfoldable pub sum_pairs : ℕ → Bytes → ℕ
sum_pairs sum [] = sum
sum_pairs sum (a ∷ []) = sum
sum_pairs sum (a ∷ b ∷ rest) = sum_pairs ((sum + join16 a b) % 2 ^ 32) rest

unfoldable pub sum : Bytes → ℕ
unfolding sum_pairs
sum b = sum_pairs (odd_tail b) b

-- The two additions of the carry, and the complement.
unfoldable pub fold_complement : ℕ → ℕ
fold_complement s =
    let once : ℕ = s / 65536 + s % 65536 in
    let twice : ℕ = once + once / 65536 in 2 ^ 32 - 1 - twice

-- The answer's two bytes.
unfoldable pub checksum : ℕ → Bytes → ℕ × ℕ
unfolding fold_complement
checksum s b =
    let folded : ℕ = fold_complement ((s + sum b) % 2 ^ 32) in (folded / 256 % 256, folded % 256)

pub checksum-IsByte : (s : ℕ) (b : Bytes) → IsByte (checksum s b).0 × IsByte (checksum s b).1
unfolding checksum
checksum-IsByte s b = (omega arith, omega arith)

-- The checksum complements the sum in one's-complement arithmetic: added to the sum on which it was
-- computed, it gives a multiple of 0xffff.
pub checksum_complements :
    (s : ℕ) (b : Bytes)
    → let (hi, lo) = checksum s b in ((s + sum b) % 2 ^ 32 + join16 hi lo) % 65535 ≡ 0
unfolding checksum
checksum_complements s b = complements ((s + sum b) % 2 ^ 32) (omega arith)
  where
    complements :
        (t : ℕ)
        → t < 2 ^ 32
        → (t + join16 (fold_complement t / 256 % 256) (fold_complement t % 256)) % 65535 ≡ 0
    complements t h = omega arith
