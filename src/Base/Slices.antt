-- ===== src/Base/Slices.antt =====
-- Byte slices as lists of numbers below 256, with Go's indexing, slicing and big-endian integers.
-- `none` is a panic: an index or a bound out of range. A slice's capacity is its length.
use Prim.Native.Nat.{ℕ, suc, ◌+◌, ◌-◌, ◌*◌, ◌/◌, ◌%◌, ◌<◌}
use mathlib.Core.Bool.{◌&&◌}
use mathlib.Core.List.{List, [], ◌∷◌, ◌++◌}
use mathlib.Core.Option.{Option, none, some}
use distrust_core.Base.Tests.{leb, ltb, if◌then◌else◌}
use distrust_core.Base.Lists.{length, get_elem?, take, drop, set, All}
use distrust_core.Base.Outcomes.{then_some}

abbrev pub Bytes : Type 0
Bytes = List ℕ

abbrev pub IsByte : ℕ → Type 0
IsByte b = b < 256

abbrev pub AreBytes : Bytes → Type 0
AreBytes = All IsByte

-- `uint16(hi)<<8 | uint16(lo)` of two bytes
abbrev pub join16 : ℕ → ℕ → ℕ
join16 hi lo = hi * 256 + lo

abbrev pub join32 : ℕ → ℕ → ℕ → ℕ → ℕ
join32 a b c d = a * 16777216 + b * 65536 + c * 256 + d

-- `binary.BigEndian.PutUint16` and `PutUint32`
abbrev pub be16 : ℕ → Bytes
be16 n = n / 256 % 256 ∷ n % 256 ∷ []

abbrev pub be32 : ℕ → Bytes
be32 n = n / 16777216 % 256 ∷ n / 65536 % 256 ∷ n / 256 % 256 ∷ n % 256 ∷ []

-- `p[lo:hi]`
unfoldable pub slice : Bytes → ℕ → ℕ → Option Bytes
slice p lo hi = if leb lo hi && leb hi (length p) then some (take (hi - lo) (drop lo p)) else none

-- `binary.BigEndian.Uint16(p[i:])`
unfoldable pub get16 : Bytes → ℕ → Option ℕ
get16 p i =
    then_some (get_elem? p i) λ hi. then_some (get_elem? p (suc i)) λ lo. some (join16 hi lo)

-- `p[i] = v`
unfoldable pub put : Bytes → ℕ → ℕ → Option Bytes
put p i v = if ltb i (length p) then some (set p i v) else none

-- `binary.BigEndian.PutUint16(p[i:], v)`
unfoldable pub put16 : Bytes → ℕ → ℕ → Option Bytes
unfolding put
put16 p i v = then_some (put p i (v / 256 % 256)) λ q. put q (suc i) (v % 256)

-- `copy(p[i:j], q)` where q is no longer than the place
unfoldable pub copy_at : Bytes → ℕ → Bytes → Option Bytes
copy_at p i q =
    if leb (i + length q) (length p) then some (take i p ++ q ++ drop (i + length q) p) else none
