-- ===== src/IpIndex/Lookup.antt =====
-- Index.Match and its variants against the list that the server issued.
use Prim.Native.String.{String}
use distrust_core.NetIp.{NetIp, ipv4_uint32}
use distrust_core.Client.{IpResource, accepts}
use distrust_core.IpIndex.{
  IndexedResource, Query, index_entry, index_from, sort_by_start, build, new, covers, improves,
  pick, match_node, match_index,
}
use distrust_core.IpIndex.Scan.{scan, OrdersAfter, HasIncreasingOrders, scan-sort_by_start}
use distrust_core.IpIndex.Sorting.{sort_by_start-IsSorted}
use distrust_core.IpIndex.Tree.{match_node-scan, in_order-build_fuel, build_fuel-IsSearchTree}
use distrust_core.Base.{
  ℕ, suc, ◌<◌, ◌≡◌, refl, sym, ap, ◌∙◌, ◌⊎◌, inl, inr, Bool, true, false, ◌&&◌, ◌||◌, Option, none,
  some, List, [], ◌∷◌, arith, ltb, leb, if◌then◌else◌, ◌==◌, Comparable_nat, Comparable_string,
  Bool-cases, Option-cases, length, ℤ, leb_ℤ, then_some,
}

-- Does a server's resource serve the query? Both bounds are IPv4 addresses around the destination.
unfoldable pub serves : Query → IpResource → Bool
serves q resource = elim (ipv4_uint32 resource.ip_min) [
  | none ↦ false
  | some low ↦ elim (ipv4_uint32 resource.ip_max) [
    | none ↦ false
    | some high ↦
        leb low q.ip
        && leb q.ip high
        && (resource.protocol == q.protocol || resource.protocol == "all")
        && (q.protocol == "icmp"
            || leb_ℤ resource.port_min q.port && leb_ℤ q.port resource.port_max)
        && accepts q.accept resource
  ]
]

unfoldable pub first_such : {A : Type 0} → (A → Bool) → List A → Option A
first_such p [] = none
first_such p (x ∷ xs) = if p x then some x else first_such p xs

-- The last such element, or the one at hand.
unfoldable pub last_such : {A : Type 0} → (A → Bool) → List A → Option A → Option A
last_such p [] best = best
last_such p (x ∷ xs) best = last_such p xs (if p x then some x else best)

abbrev pub resource_of : Option IndexedResource → Option IpResource
resource_of none = none
resource_of (some r) = some r.resource

-- The resource that the server's order selects.
unfoldable pub chosen : Query → List IpResource → Option IpResource
chosen q resources =
    if q.prefer_last then last_such (serves q) resources none else first_such (serves q) resources

index_from-OrdersAfter : (n i : ℕ) (rs : List IpResource) → n < i → OrdersAfter n (index_from i rs)
unfolding index_from index_entry
index_from-OrdersAfter n i [] h = tt
index_from-OrdersAfter n i (r ∷ rs) h = ground (arith, index_from-OrdersAfter n (suc i) rs)

index_from-HasIncreasingOrders :
    (i : ℕ) (rs : List IpResource) → HasIncreasingOrders (index_from i rs)
unfolding index_from index_entry
index_from-HasIncreasingOrders i [] = tt
index_from-HasIncreasingOrders i (r ∷ rs) =
    ground (arith, index_from-HasIncreasingOrders (suc i) rs, index_from-OrdersAfter i (suc i) rs)

scan_from_first :
    (q : Query) (b : IndexedResource) (xs : List IndexedResource)
    → q.prefer_last ≡ false
    → OrdersAfter b.order xs
    → scan q xs (some b) ≡ some b
unfolding scan pick improves
scan_from_first q b [] e h = refl
scan_from_first q b (x ∷ xs) e h = ground (arith, scan_from_first q b xs e h.1)

-- One resource: indexed or skipped, it is picked exactly when it serves.
entry-covers :
    (q : Query) (i : ℕ) (r : IpResource)
    → ((x : IndexedResource) × (index_entry i r ≡ some x)
        × (x.resource ≡ r)
        × (x.order ≡ i)
        × (covers q x ≡ serves q r))
      ⊎ ((index_entry i r ≡ none) × (serves q r ≡ false))
unfolding index_entry covers serves
entry-covers q i r = elim (Option-cases (ipv4_uint32 r.ip_min)) [
  | inl e ↦ inr (ground arith, ground arith)
  | inr (low, e) ↦ elim (Option-cases (ipv4_uint32 r.ip_max)) [
    | inl f ↦ inr (ground arith, ground arith)
    | inr (high, f) ↦ elim (Bool-cases (ltb high low)) [
      | inl g ↦ inr (ground arith, ground arith)
      | inr g ↦ inl (
        record { resource = r; start = low; end = high; order = i },
        ground arith,
        refl,
        refl,
        ground arith,
      )
    ]
  ]
]

pick-hit :
    (q : Query) (x : IndexedResource) (best : Option IndexedResource)
    → covers q x ≡ true
    → improves q x best ≡ true
    → pick q x best ≡ some x
unfolding pick
pick-hit q x best c b = ground arith

pick-miss :
    (q : Query) (x : IndexedResource) (best : Option IndexedResource)
    → covers q x ≡ false
    → pick q x best ≡ best
unfolding pick
pick-miss q x best c = ground arith

scan-first_such :
    (q : Query) (i : ℕ) (rs : List IpResource)
    → q.prefer_last ≡ false
    → resource_of (scan q (index_from i rs) none) ≡ first_such (serves q) rs
unfolding scan index_from first_such improves
scan-first_such q i [] e = refl
scan-first_such q i (r ∷ rs) e =
    let after : Option IndexedResource → Option IpResource =
      λ b. resource_of (scan q (index_from (suc i) rs) b) in
    elim (entry-covers q i r) [
      | inl (x, indexed, own, at, same) ↦ elim (Bool-cases (serves q r)) [
        | inl hit ↦
            rw (indexed, hit)
              (ap after (pick-hit q x none (same ∙ hit) refl)
                ∙ ap resource_of (
                    scan_from_first q x (index_from (suc i) rs) e
                      (index_from-OrdersAfter x.order (suc i) rs (omega arith)))
                ∙ ap some own)
        | inr miss ↦
            rw (indexed, miss)
              (ap after (pick-miss q x none (same ∙ miss)) ∙ scan-first_such q (suc i) rs e)
      ]
      | inr (skipped, miss) ↦ rw (skipped, miss) (scan-first_such q (suc i) rs e)
    ]

abbrev OlderThan : ℕ → Option IndexedResource → Type 0
OlderThan i none = Unit
OlderThan i (some b) = b.order < i

OlderThan-suc : (i : ℕ) (best : Option IndexedResource) → OlderThan i best → OlderThan (suc i) best
OlderThan-suc i none h = tt
OlderThan-suc i (some b) h = omega arith

improves_older :
    (q : Query) (x : IndexedResource) (best : Option IndexedResource)
    → q.prefer_last ≡ true
    → OlderThan x.order best
    → improves q x best ≡ true
unfolding improves
improves_older q x none e h = refl
improves_older q x (some b) e h = ground arith

scan-last_such :
    (q : Query) (i : ℕ) (rs : List IpResource) (best : Option IndexedResource)
    → q.prefer_last ≡ true
    → OlderThan i best
    → resource_of (scan q (index_from i rs) best) ≡ last_such (serves q) rs (resource_of best)
unfolding scan index_from last_such
scan-last_such q i [] best e h = refl
scan-last_such q i (r ∷ rs) best e h =
    let after : Option IndexedResource → Option IpResource =
      λ b. resource_of (scan q (index_from (suc i) rs) b) in
    elim (entry-covers q i r) [
      | inl (x, indexed, own, at, same) ↦ elim (Bool-cases (serves q r)) [
        | inl hit ↦
            let older : OlderThan x.order best = rw at h in
            let younger : OlderThan (suc i) (some x) = omega arith in
            rw (indexed, hit)
              (ap after (pick-hit q x best (same ∙ hit) (improves_older q x best e older))
                ∙ scan-last_such q (suc i) rs (some x) e younger
                ∙ ap (λ b. last_such (serves q) rs (some b)) own)
        | inr miss ↦
            rw (indexed, miss)
              (ap after (pick-miss q x best (same ∙ miss))
                ∙ scan-last_such q (suc i) rs best e (OlderThan-suc i best h))
      ]
      | inr (skipped, miss) ↦
          rw (skipped, miss) (scan-last_such q (suc i) rs best e (OlderThan-suc i best h))
    ]

scan-chosen :
    (q : Query) (rs : List IpResource) → resource_of (scan q (index_from 0 rs) none) ≡ chosen q rs
unfolding chosen
scan-chosen q rs =
    let choose : Bool → Option IpResource =
      λ b. if b then last_such (serves q) rs none else first_such (serves q) rs in
    elim (Bool-cases q.prefer_last) [
      | inl last ↦ scan-last_such q 0 rs none last tt ∙ sym (ap choose last)
      | inr first ↦ scan-first_such q 0 rs first ∙ sym (ap choose first)
    ]

abbrev pub query : ℕ → String → ℤ → Bool → Option (IpResource → Bool) → Query
query ip protocol port prefer_last accept = record {
  ip = ip;
  protocol = protocol;
  port = port;
  prefer_last = prefer_last;
  accept = accept;
}

match_node-chosen :
    (q : Query) (rs : List IpResource) → resource_of (match_node q (new rs) none) ≡ chosen q rs
unfolding new build
match_node-chosen q rs =
    let sorted : List IndexedResource = sort_by_start (index_from 0 rs) in
    ap resource_of (
      match_node-scan q (build sorted) none (
        build_fuel-IsSearchTree (length sorted) sorted (omega arith)
          (sort_by_start-IsSorted (index_from 0 rs)))
      ∙ ap (λ xs. scan q xs none) (in_order-build_fuel (length sorted) sorted (omega arith))
      ∙ scan-sort_by_start q (index_from 0 rs) none (index_from-HasIncreasingOrders 0 rs))
    ∙ scan-chosen q rs

-- A lookup in the index built from a list of resources returns, for a destination that has an IPv4
-- form, the first resource of the list in the server's order that serves it (the last one if the
-- caller prefers it), and none if no resource serves it; for any other destination it returns none.
pub match_index-chosen :
    (rs : List IpResource) (destination : NetIp) (protocol : String) (port : ℤ) (prefer_last : Bool)
    (accept : Option (IpResource → Bool))
    → match_index (new rs) destination protocol port prefer_last accept
      ≡ then_some
          (ipv4_uint32 destination)
          (λ ip. chosen (query ip protocol port prefer_last accept) rs)
unfolding match_index
match_index-chosen rs destination protocol port prefer_last accept =
    elim (Option-cases (ipv4_uint32 destination)) [
      | inl e ↦ rw e
      | inr (ip, e) ↦ rw e (
          as_then (match_node (query ip protocol port prefer_last accept) (new rs) none)
          ∙ match_node-chosen (query ip protocol port prefer_last accept) rs)
    ]
  where
    as_then :
        (o : Option IndexedResource)
        → then_some o (λ (best : IndexedResource). some best.resource) ≡ resource_of o
    as_then none = refl
    as_then (some b) = refl
