-- ===== src/Zctcpip/Header.antt =====
-- Packets of at least twenty bytes, taken apart.
use Prim.Native.Nat.{ℕ, ◌≤◌}
use mathlib.Core.List.{[], ◌∷◌}
use native.Mathlib.Omega.{arith}
use distrust_core.Base.{Bytes, length}

-- To prove something of every packet that has room for an IPv4 header, prove it of twenty bytes and
-- a rest.
pub header_cases {ℓ} :
    (P : Bytes → Type ℓ)
    → ((a0 a1 a2 a3 a4 a5 a6 a7 a8 a9 a10 a11 a12 a13 a14 a15 a16 a17 a18 a19 : ℕ) (rest : Bytes)
        → P (
            a0 ∷ a1 ∷ a2 ∷ a3 ∷ a4 ∷ a5 ∷ a6 ∷ a7 ∷ a8 ∷ a9 ∷ a10 ∷ a11 ∷ a12 ∷ a13 ∷ a14 ∷ a15
            ∷ a16 ∷ a17 ∷ a18 ∷ a19 ∷ rest))
    → (p : Bytes) → 20 ≤ length p
    → P p
header_cases P f [] h = absurd (omega arith)
header_cases P f (a0 ∷ []) h = absurd (omega arith)
header_cases P f (a0 ∷ a1 ∷ []) h = absurd (omega arith)
header_cases P f (a0 ∷ a1 ∷ a2 ∷ []) h = absurd (omega arith)
header_cases P f (a0 ∷ a1 ∷ a2 ∷ a3 ∷ []) h = absurd (omega arith)
header_cases P f (a0 ∷ a1 ∷ a2 ∷ a3 ∷ a4 ∷ []) h = absurd (omega arith)
header_cases P f (a0 ∷ a1 ∷ a2 ∷ a3 ∷ a4 ∷ a5 ∷ []) h = absurd (omega arith)
header_cases P f (a0 ∷ a1 ∷ a2 ∷ a3 ∷ a4 ∷ a5 ∷ a6 ∷ []) h = absurd (omega arith)
header_cases P f (a0 ∷ a1 ∷ a2 ∷ a3 ∷ a4 ∷ a5 ∷ a6 ∷ a7 ∷ []) h = absurd (omega arith)
header_cases P f (a0 ∷ a1 ∷ a2 ∷ a3 ∷ a4 ∷ a5 ∷ a6 ∷ a7 ∷ a8 ∷ []) h = absurd (omega arith)
header_cases P f (a0 ∷ a1 ∷ a2 ∷ a3 ∷ a4 ∷ a5 ∷ a6 ∷ a7 ∷ a8 ∷ a9 ∷ []) h = absurd (omega arith)
header_cases P f (a0 ∷ a1 ∷ a2 ∷ a3 ∷ a4 ∷ a5 ∷ a6 ∷ a7 ∷ a8 ∷ a9 ∷ a10 ∷ []) h =
    absurd (omega arith)
header_cases P f (a0 ∷ a1 ∷ a2 ∷ a3 ∷ a4 ∷ a5 ∷ a6 ∷ a7 ∷ a8 ∷ a9 ∷ a10 ∷ a11 ∷ []) h =
    absurd (omega arith)
header_cases P f (a0 ∷ a1 ∷ a2 ∷ a3 ∷ a4 ∷ a5 ∷ a6 ∷ a7 ∷ a8 ∷ a9 ∷ a10 ∷ a11 ∷ a12 ∷ []) h =
    absurd (omega arith)
header_cases P f (a0 ∷ a1 ∷ a2 ∷ a3 ∷ a4 ∷ a5 ∷ a6 ∷ a7 ∷ a8 ∷ a9 ∷ a10 ∷ a11 ∷ a12 ∷ a13 ∷ []) h =
    absurd (omega arith)
header_cases P f
      (a0 ∷ a1 ∷ a2 ∷ a3 ∷ a4 ∷ a5 ∷ a6 ∷ a7 ∷ a8 ∷ a9 ∷ a10 ∷ a11 ∷ a12 ∷ a13 ∷ a14 ∷ []) h =
    absurd (omega arith)
header_cases P f
      (a0 ∷ a1 ∷ a2 ∷ a3 ∷ a4 ∷ a5 ∷ a6 ∷ a7 ∷ a8 ∷ a9 ∷ a10 ∷ a11 ∷ a12 ∷ a13 ∷ a14 ∷ a15 ∷ []) h =
    absurd (omega arith)
header_cases P f
      (a0 ∷ a1 ∷ a2 ∷ a3 ∷ a4 ∷ a5 ∷ a6 ∷ a7 ∷ a8 ∷ a9 ∷ a10 ∷ a11 ∷ a12 ∷ a13 ∷ a14 ∷ a15 ∷ a16
        ∷ [])
      h =
    absurd (omega arith)
header_cases P f
      (a0 ∷ a1 ∷ a2 ∷ a3 ∷ a4 ∷ a5 ∷ a6 ∷ a7 ∷ a8 ∷ a9 ∷ a10 ∷ a11 ∷ a12 ∷ a13 ∷ a14 ∷ a15 ∷ a16
        ∷ a17 ∷ [])
      h =
    absurd (omega arith)
header_cases P f
      (a0 ∷ a1 ∷ a2 ∷ a3 ∷ a4 ∷ a5 ∷ a6 ∷ a7 ∷ a8 ∷ a9 ∷ a10 ∷ a11 ∷ a12 ∷ a13 ∷ a14 ∷ a15 ∷ a16
        ∷ a17 ∷ a18 ∷ [])
      h =
    absurd (omega arith)
header_cases P f
      (a0 ∷ a1 ∷ a2 ∷ a3 ∷ a4 ∷ a5 ∷ a6 ∷ a7 ∷ a8 ∷ a9 ∷ a10 ∷ a11 ∷ a12 ∷ a13 ∷ a14 ∷ a15 ∷ a16
        ∷ a17 ∷ a18 ∷ a19 ∷ rest)
      h =
    f a0 a1 a2 a3 a4 a5 a6 a7 a8 a9 a10 a11 a12 a13 a14 a15 a16 a17 a18 a19 rest
