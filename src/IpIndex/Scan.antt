-- ===== src/IpIndex/Scan.antt =====
-- The linear scan that the tree lookup stands for, and its independence of the order of the list.
use distrust_core.IpIndex.{
  IndexedResource, Query, covers, improves, pick, insert_by_start, sort_by_start,
}
use distrust_core.Base.{
  ℕ, ◌<◌, ◌≡◌, refl, ap, ◌∙◌, inl, inr, false, Option, none, some, List, [], ◌∷◌, ◌++◌, arith, leb,
  Comparable_nat, Comparable_string, Bool-cases, All,
}

-- Every resource in turn may replace the best so far.
unfoldable pub scan : Query → List IndexedResource → Option IndexedResource → Option IndexedResource
scan q [] best = best
scan q (r ∷ rs) best = scan q rs (pick q r best)

pub scan-append :
    (q : Query) (xs ys : List IndexedResource) (best : Option IndexedResource)
    → scan q (xs ++ ys) best ≡ scan q ys (scan q xs best)
unfolding scan
scan-append q [] ys best = refl
scan-append q (x ∷ xs) ys best = scan-append q xs ys (pick q x best)

-- Resources that do not cover the query leave the best as it is.
pub scan-none_covers :
    (q : Query) (xs : List IndexedResource) (best : Option IndexedResource)
    → All (λ r. covers q r ≡ false) xs
    → scan q xs best ≡ best
unfolding scan pick
scan-none_covers q [] best h = refl
scan-none_covers q (x ∷ xs) best h = rw (h.0) (scan-none_covers q xs best h.1)

pub pick_comm :
    (q : Query) (x y : IndexedResource) (best : Option IndexedResource)
    → x.order < y.order
    → pick q x (pick q y best) ≡ pick q y (pick q x best)
unfolding pick improves
pick_comm q x y none h = ground arith
pick_comm q x y (some b) h = ground arith

abbrev pub OrdersAfter : ℕ → List IndexedResource → Type 0
OrdersAfter n = All λ r. n < r.order

abbrev pub HasIncreasingOrders : List IndexedResource → Type 0
HasIncreasingOrders [] = Unit
HasIncreasingOrders (x ∷ xs) = OrdersAfter x.order xs × HasIncreasingOrders xs

pub insert_by_start-OrdersAfter :
    (n : ℕ) (x : IndexedResource) (xs : List IndexedResource)
    → n < x.order
    → OrdersAfter n xs
    → OrdersAfter n (insert_by_start x xs)
unfolding insert_by_start
insert_by_start-OrdersAfter n x [] h k = (h, tt)
insert_by_start-OrdersAfter n x (y ∷ ys) h k =
    ground (arith, insert_by_start-OrdersAfter n x ys h k.1)

sort_by_start-OrdersAfter :
    (n : ℕ) (xs : List IndexedResource) → OrdersAfter n xs → OrdersAfter n (sort_by_start xs)
unfolding sort_by_start
sort_by_start-OrdersAfter n [] h = tt
sort_by_start-OrdersAfter n (x ∷ xs) h =
    insert_by_start-OrdersAfter n x (sort_by_start xs) h.0 (sort_by_start-OrdersAfter n xs h.1)

scan-insert_by_start :
    (q : Query) (x : IndexedResource) (ys : List IndexedResource) (best : Option IndexedResource)
    → OrdersAfter x.order ys
    → scan q (insert_by_start x ys) best ≡ scan q ys (pick q x best)
unfolding scan insert_by_start
scan-insert_by_start q x [] best h = refl
scan-insert_by_start q x (y ∷ ys) best h = elim (Bool-cases (leb x.start y.start)) [
  | inl first ↦ rw first refl
  | inr later ↦
      rw later (
        scan-insert_by_start q x ys (pick q y best) h.1 ∙ ap (scan q ys) (pick_comm q x y best h.0))
]

-- Sorting by start changes nothing: the orders decide.
pub scan-sort_by_start :
    (q : Query) (xs : List IndexedResource) (best : Option IndexedResource)
    → HasIncreasingOrders xs
    → scan q (sort_by_start xs) best ≡ scan q xs best
unfolding scan sort_by_start
scan-sort_by_start q [] best h = refl
scan-sort_by_start q (x ∷ xs) best h =
    scan-insert_by_start q x (sort_by_start xs) best (sort_by_start-OrdersAfter x.order xs h.0)
    ∙ scan-sort_by_start q xs (pick q x best) h.1
