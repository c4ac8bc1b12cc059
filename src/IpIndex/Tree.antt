-- ===== src/IpIndex/Tree.antt =====
-- The tree that `build` makes, and its lookup against the linear scan.
use mathlib.Core.Option.{some-injective}
use distrust_core.IpIndex.{
  IndexedResource, Node, nil, node, Query, build_fuel, covers, pick, reaches, match_node, raise_max,
}
use distrust_core.IpIndex.Scan.{scan, scan-append, scan-none_covers}
use distrust_core.IpIndex.Sorting.{
  StartsFrom, IsSorted, IsSorted-take, IsSorted-drop, StartsFrom-drop,
}
use distrust_core.Base.{
  ℕ, zero, suc, ◌/◌, ◌≤◌, ◌<◌, ◌≡◌, refl, sym, ap, inl, inr, false, ◌&&◌, Option, some, List, [],
  ◌∷◌, ◌++◌, arith, ltb→lt, ltb, leb, if◌then◌else◌, Comparable_nat, Comparable_string, Bool-cases,
  length, get_elem?, take, drop, All, length-take, length-drop, All-append,
}

abbrev pub in_order : Node → List IndexedResource
in_order nil = []
in_order (node r max_end left right) = in_order left ++ r ∷ in_order right

abbrev pub EndsUpTo : ℕ → List IndexedResource → Type 0
EndsUpTo m = All λ r. r.end ≤ m

-- maxEnd bounds the ends below a node, and the right subtree starts no earlier than the node.
abbrev pub IsSearchTree : Node → Type 0
IsSearchTree nil = Unit
IsSearchTree (node r max_end left right) =
    IsSearchTree left
    × IsSearchTree right
    × EndsUpTo max_end (in_order left ++ r ∷ in_order right)
    × StartsFrom r.start (in_order right)

EndsUpTo-none_covers :
    (q : Query) (m : ℕ) (xs : List IndexedResource)
    → m < q.ip
    → EndsUpTo m xs
    → All (λ r. covers q r ≡ false) xs
unfolding covers
EndsUpTo-none_covers q m [] h e = tt
EndsUpTo-none_covers q m (x ∷ xs) h e = (ground (arith, e.0), EndsUpTo-none_covers q m xs h e.1)

StartsFrom-none_covers :
    (q : Query) (m : ℕ) (xs : List IndexedResource)
    → q.ip < m
    → StartsFrom m xs
    → All (λ r. covers q r ≡ false) xs
unfolding covers
StartsFrom-none_covers q m [] h e = tt
StartsFrom-none_covers q m (x ∷ xs) h e = (ground (arith, e.0), StartsFrom-none_covers q m xs h e.1)

-- A child that does not reach the address holds nothing that covers it.
child-scan :
    (q : Query) (child : Node) (best : Option IndexedResource)
    → IsSearchTree child
    → match_node q child best ≡ scan q (in_order child) best
    → (if reaches q.ip child then match_node q child best else best) ≡ scan q (in_order child) best
unfolding scan
child-scan q nil best t ih = refl
child-scan q (node r m left right) best t ih = elim (Bool-cases (leb q.ip m)) [
  | inl yes_ ↦ rw yes_ ih
  | inr no_ ↦
      rw no_ (sym (scan-none_covers q _ best (EndsUpTo-none_covers q m _ (ground arith) t.2)))
]

right-scan :
    (q : Query) (r : IndexedResource) (right : Node) (best : Option IndexedResource)
    → IsSearchTree right
    → StartsFrom r.start (in_order right)
    → match_node q right best ≡ scan q (in_order right) best
    → (if leb r.start q.ip && reaches q.ip right then match_node q right best else best)
      ≡ scan q (in_order right) best
right-scan q r right best t s ih = elim (Bool-cases (leb r.start q.ip)) [
  | inl yes_ ↦ rw yes_ (child-scan q right best t ih)
  | inr no_ ↦
      rw no_ (sym (scan-none_covers q _ best (StartsFrom-none_covers q r.start _ (ground arith) s)))
]

-- The pruned walk finds what the scan of all resources finds.
pub match_node-scan :
    (q : Query) (t : Node) (best : Option IndexedResource)
    → IsSearchTree t
    → match_node q t best ≡ scan q (in_order t) best
unfolding match_node scan
match_node-scan q nil best t = refl
match_node-scan q (node r m left right) best t = elim (Bool-cases (ltb m q.ip)) [
  | inl yes_ ↦
      rw yes_
        (sym (scan-none_covers q _ best (EndsUpTo-none_covers q m _ (ltb→lt m q.ip yes_) t.2)))
  | inr no_ ↦
      rw (no_, scan-append q (in_order left) (r ∷ in_order right) best)
        (rw (child-scan q left best t.0 (match_node-scan q left best t.0)) (
          right-scan q r right (pick q r (scan q (in_order left) best)) t.1 t.3
            (match_node-scan q right (pick q r (scan q (in_order left) best)) t.1)))
]

split_at :
    (n : ℕ) (xs : List IndexedResource) (r : IndexedResource)
    → get_elem? xs n ≡ some r
    → take n xs ++ r ∷ drop (suc n) xs ≡ xs
split_at n [] r e = ground arith
split_at zero (x ∷ xs) r e = ap (λ y. y ∷ xs) (sym (some-injective x r e))
split_at (suc n) (x ∷ xs) r e = ap (◌∷◌ x) (split_at n xs r e)

get_elem?-lt :
    (n : ℕ) (xs : List IndexedResource)
    → n < length xs
    → (r : IndexedResource) × (get_elem? xs n ≡ some r)
get_elem?-lt n [] h = absurd (omega arith)
get_elem?-lt zero (x ∷ xs) h = (x, refl)
get_elem?-lt (suc n) (x ∷ xs) h = get_elem?-lt n xs (omega arith)

-- The tree holds the slice, in its order.
pub in_order-build_fuel :
    (fuel : ℕ) (xs : List IndexedResource) → length xs ≤ fuel → in_order (build_fuel fuel xs) ≡ xs
unfolding build_fuel
in_order-build_fuel zero [] h = refl
in_order-build_fuel zero (x ∷ xs) h = absurd (omega arith)
in_order-build_fuel (suc f) [] h = refl
in_order-build_fuel (suc f) (x ∷ xs) h =
    let middle : ℕ = suc (length xs) / 2 in
    let (r, e) = get_elem?-lt middle (x ∷ xs) (omega arith) in
    rw e (
      rw
        (
          in_order-build_fuel f (take middle (x ∷ xs)) (omega (arith, length-take middle (x ∷ xs))),
          in_order-build_fuel f (drop (suc middle) (x ∷ xs))
              (omega (arith, length-drop (suc middle) (x ∷ xs))),
        )
        (split_at middle (x ∷ xs) r e))

ends_lift : (m n : ℕ) (xs : List IndexedResource) → m ≤ n → EndsUpTo m xs → EndsUpTo n xs
ends_lift m n [] h e = tt
ends_lift m n (x ∷ xs) h e = (omega arith, ends_lift m n xs h e.1)

-- A child's ends are below the maxEnd of its parent, whose computation starts from `m`.
child_ends :
    (child : Node) (m n : ℕ)
    → raise_max child m ≤ n
    → IsSearchTree child
    → EndsUpTo n (in_order child)
child_ends nil m n h t = tt
child_ends (node r max_end left right) m n h t =
    ends_lift max_end n (in_order left ++ r ∷ in_order right) (ground arith) t.2

raise_max_ge : (child : Node) (m : ℕ) → m ≤ raise_max child m
raise_max_ge nil m = omega arith
raise_max_ge (node r max_end left right) m = ground arith

pub build_fuel-IsSearchTree :
    (fuel : ℕ) (xs : List IndexedResource)
    → length xs ≤ fuel
    → IsSorted xs
    → IsSearchTree (build_fuel fuel xs)
unfolding build_fuel
build_fuel-IsSearchTree zero xs h s = tt
build_fuel-IsSearchTree (suc f) [] h s = tt
build_fuel-IsSearchTree (suc f) (x ∷ xs) h s =
    let middle : ℕ = suc (length xs) / 2 in
    let low : length (take middle (x ∷ xs)) ≤ f = omega (arith, length-take middle (x ∷ xs)) in
    let high : length (drop (suc middle) (x ∷ xs)) ≤ f =
      omega (arith, length-drop (suc middle) (x ∷ xs)) in
    let (r, e) = get_elem?-lt middle (x ∷ xs) (omega arith) in
    let left : Node = build_fuel f (take middle (x ∷ xs)) in
    let right : Node = build_fuel f (drop (suc middle) (x ∷ xs)) in
    let left_tree : IsSearchTree left =
      build_fuel-IsSearchTree f (take middle (x ∷ xs)) low (IsSorted-take middle (x ∷ xs) s) in
    let right_tree : IsSearchTree right =
      build_fuel-IsSearchTree f (drop (suc middle) (x ∷ xs)) high
        (IsSorted-drop (suc middle) (x ∷ xs) s) in
    rw e (
      left_tree,
      right_tree,
      All-append _ (in_order left) (r ∷ in_order right)
          (child_ends left r.end _ (raise_max_ge right (raise_max left r.end)) left_tree)
          (
            omega (arith, raise_max_ge left r.end, raise_max_ge right (raise_max left r.end)),
            child_ends right (raise_max left r.end) _ (omega arith) right_tree,
          ),
      rw (in_order-build_fuel f (drop (suc middle) (x ∷ xs)) high)
          (StartsFrom-drop middle (x ∷ xs) r s e),
    )
