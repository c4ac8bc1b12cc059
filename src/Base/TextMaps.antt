-- ===== src/Base/TextMaps.antt =====
-- What a lookup finds behind an insertion or a removal, in a map with texts for keys.
use Prim.Native.Nat.{ℕ}
use Prim.Native.String.{String}
use mathlib.Core.Path.{◌≡◌, ap}
use mathlib.Core.Logic.{◌⊎◌, inl, inr}
use mathlib.Core.Bool.{false, true}
use mathlib.Core.List.{List}
use mathlib.Core.Option.{none, some}
use native.Mathlib.Omega.{arith}
use distrust_core.Base.Tests.{Comparable_string, ◌==◌, Bool-cases}
use distrust_core.Base.Maps.{lookup, insert, remove, lookup-insert, lookup-remove}

pub same_key : (key other : String) → (key == other) ≡ true → key ≡ other
same_key key other same = (Comparable_string.same_iff key other).0 same

-- A lookup behind an insertion, or behind a removal.
pub inserted :
    (key other : String) (value : ℕ) (m : List (String × ℕ)) {found : ℕ}
    → lookup other (insert key value m) ≡ some found
    → (key ≡ other) × (value ≡ found) ⊎ (lookup other m ≡ some found)
inserted key other value m is = elim (Bool-cases (key == other)) [
  | inl same ↦ inl (same_key key other same, ground (arith, lookup-insert key other value m))
  | inr differs ↦ inr (ground (arith, lookup-insert key other value m))
]

pub removed :
    (key other : String) (m : List (String × ℕ)) {found : ℕ}
    → lookup other (remove key m) ≡ some found
    → ((key == other) ≡ false) × (lookup other m ≡ some found)
removed key other m is = ground (arith, lookup-remove key other m)

pub kept :
    (key other : String) (value : ℕ) (m : List (String × ℕ)) {found : ℕ}
    → lookup key m ≡ none
    → lookup other m ≡ some found
    → lookup other (insert key value m) ≡ some found
kept key other value m absent is = elim (Bool-cases (key == other)) [
  | inl same ↦ absurd (cc_of (ap (λ g. lookup g m) (same_key key other same)))
  | inr differs ↦ ground (arith, lookup-insert key other value m)
]
  where
    cc_of : lookup key m ≡ lookup other m → ⊥
    cc_of e = cc
