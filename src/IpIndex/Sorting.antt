-- ===== src/IpIndex/Sorting.antt =====
-- The list that `sort_by_start` gives is sorted by start.
use mathlib.Core.Option.{some-injective}
use distrust_core.IpIndex.{IndexedResource, insert_by_start, sort_by_start}
use distrust_core.Base.{
  ℕ, zero, suc, ◌≤◌, ◌≡◌, some, List, [], ◌∷◌, arith, Comparable_nat, Comparable_string, get_elem?,
  take, drop, All,
}

abbrev pub StartsFrom : ℕ → List IndexedResource → Type 0
StartsFrom n = All λ r. n ≤ r.start

abbrev pub IsSorted : List IndexedResource → Type 0
IsSorted [] = Unit
IsSorted (x ∷ xs) = StartsFrom x.start xs × IsSorted xs

StartsFrom-mono : (m n : ℕ) (xs : List IndexedResource) → m ≤ n → StartsFrom n xs → StartsFrom m xs
StartsFrom-mono m n [] h k = tt
StartsFrom-mono m n (x ∷ xs) h k = (omega arith, StartsFrom-mono m n xs h k.1)

insert_by_start-StartsFrom :
    (n : ℕ) (x : IndexedResource) (xs : List IndexedResource)
    → n ≤ x.start
    → StartsFrom n xs
    → StartsFrom n (insert_by_start x xs)
unfolding insert_by_start
insert_by_start-StartsFrom n x [] h k = (h, tt)
insert_by_start-StartsFrom n x (y ∷ ys) h k =
    ground (arith, insert_by_start-StartsFrom n x ys h k.1)

insert_by_start-IsSorted :
    (x : IndexedResource) (xs : List IndexedResource)
    → IsSorted xs
    → IsSorted (insert_by_start x xs)
unfolding insert_by_start
insert_by_start-IsSorted x [] s = (tt, tt)
insert_by_start-IsSorted x (y ∷ ys) s = ground (
  arith,
  insert_by_start-IsSorted x ys s.1,
  insert_by_start-StartsFrom y.start x ys,
  StartsFrom-mono x.start y.start ys,
)

pub sort_by_start-IsSorted : (xs : List IndexedResource) → IsSorted (sort_by_start xs)
unfolding sort_by_start
sort_by_start-IsSorted [] = tt
sort_by_start-IsSorted (x ∷ xs) = insert_by_start-IsSorted x _ (sort_by_start-IsSorted xs)

pub IsSorted-take : (n : ℕ) (xs : List IndexedResource) → IsSorted xs → IsSorted (take n xs)
IsSorted-take zero xs s = tt
IsSorted-take (suc n) [] s = tt
IsSorted-take (suc n) (x ∷ xs) s = (StartsFrom-take x.start n xs s.0, IsSorted-take n xs s.1)
  where
    StartsFrom-take :
        (m n : ℕ) (xs : List IndexedResource) → StartsFrom m xs → StartsFrom m (take n xs)
    StartsFrom-take m zero xs k = tt
    StartsFrom-take m (suc n) [] k = tt
    StartsFrom-take m (suc n) (x ∷ xs) k = (k.0, StartsFrom-take m n xs k.1)

pub IsSorted-drop : (n : ℕ) (xs : List IndexedResource) → IsSorted xs → IsSorted (drop n xs)
IsSorted-drop zero xs s = s
IsSorted-drop (suc n) [] s = tt
IsSorted-drop (suc n) (x ∷ xs) s = IsSorted-drop n xs s.1

pub StartsFrom-drop :
    (n : ℕ) (xs : List IndexedResource) (r : IndexedResource)
    → IsSorted xs
    → get_elem? xs n ≡ some r
    → StartsFrom r.start (drop (suc n) xs)
StartsFrom-drop n [] r s e = tt
StartsFrom-drop zero (x ∷ xs) r s e = rw (← some-injective x r e) (s.0)
StartsFrom-drop (suc n) (x ∷ xs) r s e = StartsFrom-drop n xs r s.1 e
