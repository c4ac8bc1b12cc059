-- ===== src/Base/Maps.antt =====
-- Go's maps as association lists: a lookup finds the first pair, an insert replaces it in place.
use Prim.Native.Nat.{suc, ◌≤◌, ◌<◌}
use mathlib.Core.Path.{◌≡◌}
use mathlib.Core.List.{List, [], ◌∷◌}
use mathlib.Core.Option.{Option, none, some}
use native.Mathlib.Omega.{arith}
use distrust_core.Base.Tests.{Comparable, ◌==◌, if◌then◌else◌}
use distrust_core.Base.Lists.{length}

module _ {ℓ κ} {Key : Type ℓ} {Value : Type κ} ⦃c : Comparable Key⦄ where
  -- `delete(entries, key)`
  unfoldable pub remove : Key → List (Key × Value) → List (Key × Value)
  remove key [] = []
  remove key ((first, found) ∷ entries) =
      let rest = remove key entries in if key == first then rest else (first, found) ∷ rest

  -- `entries[key]`
  unfoldable pub lookup : Key → List (Key × Value) → Option Value
  lookup key [] = none
  lookup key ((first, found) ∷ entries) =
      let rest = lookup key entries in if key == first then some found else rest

  -- `entries[key] = value`
  unfoldable pub insert : Key → Value → List (Key × Value) → List (Key × Value)
  insert key value [] = (key, value) ∷ []
  insert key value ((first, found) ∷ entries) =
      let rest = insert key value entries in
      if key == first then (first, value) ∷ entries else (first, found) ∷ rest

  pub lookup-remove :
      (key other : Key) (entries : List (Key × Value))
      → lookup other (remove key entries) ≡ (if key == other then none else lookup other entries)
  unfolding lookup remove
  lookup-remove key other [] = ground arith
  lookup-remove key other ((first, found) ∷ entries) = ground (
    arith,
    lookup-remove key other entries,
    c.same_iff key first,
    c.same_iff other first,
    c.same_iff key other,
  )

  pub lookup-insert :
      (key other : Key) (value : Value) (entries : List (Key × Value))
      → lookup other (insert key value entries)
        ≡ (if key == other then some value else lookup other entries)
  unfolding lookup insert
  lookup-insert key other value [] = ground (arith, c.same_iff key other, c.same_iff other key)
  lookup-insert key other value ((first, found) ∷ entries) = ground (
    arith,
    lookup-insert key other value entries,
    c.same_iff key first,
    c.same_iff other first,
    c.same_iff key other,
  )

  pub length-remove :
      (key : Key) (entries : List (Key × Value)) → length (remove key entries) ≤ length entries
  unfolding remove
  length-remove key [] = omega arith
  length-remove key ((first, found) ∷ entries) = ground (arith, length-remove key entries)

  pub length-remove_present :
      (key : Key) (value : Value) (entries : List (Key × Value))
      → lookup key entries ≡ some value
      → length (remove key entries) < length entries
  unfolding remove lookup
  length-remove_present key value [] present = ground arith
  length-remove_present key value ((first, found) ∷ entries) present =
      ground (arith, length-remove key entries, length-remove_present key value entries)

  pub length-insert_present :
      (key : Key) (value old : Value) (entries : List (Key × Value))
      → lookup key entries ≡ some old
      → length (insert key value entries) ≡ length entries
  unfolding insert lookup
  length-insert_present key value old [] present = ground arith
  length-insert_present key value old ((first, found) ∷ entries) present =
      ground (arith, length-insert_present key value old entries)

  pub length-insert :
      (key : Key) (value : Value) (entries : List (Key × Value))
      → length (insert key value entries) ≤ suc (length entries)
  unfolding insert
  length-insert key value [] = omega arith
  length-insert key value ((first, found) ∷ entries) =
      ground (arith, length-insert key value entries)
