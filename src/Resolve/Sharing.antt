-- ===== src/Resolve/Sharing.antt =====
-- resolve/resolver.go: who waits for a shared lookup.
use Prim.Native.String.{String}
use mathlib.Core.Option.{some-injective}
use distrust_core.Base.TextMaps.{inserted, removed}
use distrust_core.Resolve.Coordination.{
  Resolutions, no_resolutions, write_at, join_resolution, release_resolution_waiter, end_resolution,
  return_resolution, listed, close_resolutions, Step, joins, releases, ends, returns, closes, Reach,
  starts, goes,
}
use distrust_core.Base.{
  ℕ, ◌-◌, ◌≤◌, ◌<◌, ◌≡◌, refl, sym, ap, ◌∙◌, ◌≢◌, ◌⊎◌, inl, inr, Bool, true, false, some, List, [],
  ◌∷◌, arith, nat_beq, ◌==◌, Comparable_nat, Comparable_string, Bool-cases, nat_beq_iff, if_both,
  option_both, lookup, insert, remove,
}

-- A lookup in the table is awaited by exactly the goroutines that it counts.
record IsShared (r : Resolutions) : Type 0 where
  shared :
      (host : String) (call : ℕ)
      → lookup host r.resolutions ≡ some call
      → (r.waiters call ≡ r.waiting call)
        × (0 < r.waiting call)
        × (r.is_done call ≡ false)
        × (r.host_of call ≡ host)
        × (call < r.next)
  unawaited :
      (call : ℕ)
      → r.is_cancelled call ≡ true
      → (r.is_done call ≡ true) ⊎ (r.waiting call ≡ 0) ⊎ (r.closed ≡ true)
  kept :
      (host : String) (call : ℕ)
      → lookup host r.resolutions ≡ some call
      → r.is_cancelled call ≡ false
  unused : (call : ℕ) → r.next ≤ call → (r.is_cancelled call ≡ false) × (r.is_done call ≡ false)
  numbered : (call : ℕ) → listed call r.resolutions ≡ true → call < r.next

listed-insert :
    (host : String) (call value : ℕ) (m : List (String × ℕ))
    → listed call (insert host value m) ≡ true
    → (call ≡ value) ⊎ (listed call m ≡ true)
unfolding insert
listed-insert host call value [] among = ground arith
listed-insert host call value ((first, found) ∷ m) among =
    ground (arith, listed-insert host call value m)

listed-remove :
    (host : String) (call : ℕ) (m : List (String × ℕ))
    → listed call (remove host m) ≡ true
    → listed call m ≡ true
unfolding remove
listed-remove host call [] among = among
listed-remove host call ((first, found) ∷ m) among = ground (arith, listed-remove host call m)

module _ (r : Resolutions) (shared : IsShared r) where
  join-IsShared : (host : String) → IsShared (join_resolution host r)
  unfolding join_resolution
  join-IsShared host =
      if_both IsShared r.closed (λ _. shared)
        λ open_.
          option_both IsShared (lookup host r.resolutions)
            (λ missing. record {
              shared = λ other call found. elim (inserted host other r.next r.resolutions found) [
                | inl (same, new_) ↦
                    let fresh = shared.unused call (omega arith) in
                    (ground arith, ground arith, fresh.1, ground (arith, same), omega arith)
                | inr old ↦
                    let (counts, some_, waits, of, lt) = shared.shared other call old in
                    (ground arith, ground arith, waits, ground arith, omega arith)
              ];
              unawaited = λ call off. elim (Bool-cases (nat_beq call r.next)) [
                | inl new_ ↦ let fresh = shared.unused call (ground arith) in absurd (ground arith)
                | inr old ↦ elim (shared.unawaited call off) [
                  | inl done_ ↦ inl done_
                  | inr (inl nobody) ↦ inr (inl (ground arith))
                  | inr (inr closed) ↦ inr (inr closed)
                ]
              ];
              kept = λ other call found. elim (inserted host other r.next r.resolutions found) [
                | inl (same, new_) ↦ (shared.unused call (omega arith)).0
                | inr old ↦ shared.kept other call old
              ];
              unused = λ call le. shared.unused call (omega arith);
              numbered = λ call among. elim (listed-insert host call r.next r.resolutions among) [
                | inl is ↦ omega arith
                | inr old ↦ let lt = shared.numbered call old in omega arith
              ];
            })
            (λ call found. record {
              shared = λ other c place.
                  let (counts, some_, waits, of, lt) = shared.shared other c place in
                  let joined = shared.shared host call found in
                  (ground arith, ground arith, waits, of, lt);
              unawaited = λ c off. elim (Bool-cases (nat_beq c call)) [
                | inl same ↦
                    let running = shared.kept host call found in
                    let is : c ≡ call = (nat_beq_iff c call).0 same in
                    let off_ : r.is_cancelled call ≡ true = ap r.is_cancelled (sym is) ∙ off in
                    absurd (ground arith)
                | inr differs ↦ elim (shared.unawaited c off) [
                  | inl done_ ↦ inl done_
                  | inr (inl nobody) ↦ inr (inl (ground arith))
                  | inr (inr closed) ↦ inr (inr closed)
                ]
              ];
              kept = shared.kept;
              unused = shared.unused;
              numbered = shared.numbered;
            })

  -- A call in the table that is not the one at its own host's place is another.
  elsewhere :
      (call : ℕ) (other : String) (c : ℕ)
      → lookup (r.host_of call) r.resolutions ≢ some call
      → lookup other r.resolutions ≡ some c
      → nat_beq c call ≡ false
  elsewhere call other c absent found = elim (Bool-cases (nat_beq c call)) [
    | inl same ↦
        let (counts, some_, waits, of, lt) = shared.shared other c found in
        let is : c ≡ call = (nat_beq_iff c call).0 same in
        let host_is : r.host_of call ≡ other = ap r.host_of (sym is) ∙ of in
        absurd (absent (ap (λ h. lookup h r.resolutions) host_is ∙ found ∙ ap some is))
    | inr differs ↦ differs
  ]

  removed_other :
      (call : ℕ) (other : String) (c : ℕ)
      → lookup other (remove (r.host_of call) r.resolutions) ≡ some c
      → (nat_beq c call ≡ false) × (lookup other r.resolutions ≡ some c)
  removed_other call other c found =
      let (differs, old) = removed (r.host_of call) other r.resolutions found in
      (
        elim (Bool-cases (nat_beq c call)) [
          | inl same ↦
              let (counts, some_, waits, of, lt) = shared.shared other c old in
              let is : c ≡ call = (nat_beq_iff c call).0 same in
              let host_is : r.host_of call ≡ other = ap r.host_of (sym is) ∙ of in
              let equal : (r.host_of call == other) ≡ true =
                (Comparable_string.same_iff (r.host_of call) other).1 host_is in
              absurd (opposite (r.host_of call == other) equal differs)
          | inr other_ ↦ other_
        ],
        old,
      )
    where
      opposite : (b : Bool) → b ≡ true → b ≡ false → ⊥
      opposite true first second = cc
      opposite false first second = cc

  -- A goroutine stops waiting for a call that is not in the table.
  leaves-IsShared :
      (call : ℕ)
      → lookup (r.host_of call) r.resolutions ≢ some call
      → IsShared (record r { waiting = write_at call (r.waiting call - 1) r.waiting })
  leaves-IsShared call absent = record {
    shared = λ other c found.
        let (counts, some_, waits, of, lt) = shared.shared other c found in
        let differs = elsewhere call other c absent found in
        (ground arith, ground arith, waits, of, lt);
    unawaited = λ c off. elim (shared.unawaited c off) [
      | inl done_ ↦ inl done_
      | inr (inl nobody) ↦ inr (inl (ground arith))
      | inr (inr closed) ↦ inr (inr closed)
    ];
    kept = shared.kept;
    unused = shared.unused;
    numbered = shared.numbered;
  }

  not_current :
      (call current : ℕ)
      → lookup (r.host_of call) r.resolutions ≡ some current
      → nat_beq current call ≡ false
      → lookup (r.host_of call) r.resolutions ≢ some call
  not_current call current found differs =
      λ e. let is : current ≡ call = some-injective current call (sym found ∙ e) in ground arith

  release-IsShared : (call : ℕ) → 0 < r.waiting call → IsShared (release_resolution_waiter call r)
  unfolding release_resolution_waiter
  release-IsShared call waits_ =
      option_both IsShared (lookup (r.host_of call) r.resolutions)
        (λ missing. leaves-IsShared call (λ e. cc))
        (λ current found.
          if_both IsShared (nat_beq current call)
            (λ same.
              let is : current ≡ call = (nat_beq_iff current call).0 same in
              let place = found ∙ ap some is in
              let (counts, some_, runs, of, lt) = shared.shared (r.host_of call) call place in
              if_both IsShared (nat_beq (r.waiters call - 1) 0)
                (λ last. record {
                  shared = λ other c left.
                      let (differs, old) = removed_other call other c left in
                      let (counts', some', waits, of', lt') = shared.shared other c old in
                      (ground arith, ground arith, waits, of', lt');
                  unawaited = λ c off. elim (Bool-cases (nat_beq c call)) [
                    | inl here ↦ inr (inl (ground arith))
                    | inr differs ↦ elim (shared.unawaited c (ground arith)) [
                      | inl done_ ↦ inl done_
                      | inr (inl nobody) ↦ inr (inl (ground arith))
                      | inr (inr closed) ↦ inr (inr closed)
                    ]
                  ];
                  kept = λ other c left.
                      let (differs, old) = removed_other call other c left in
                      let on = shared.kept other c old in ground arith;
                  unused = λ c le. let (off, done_) = shared.unused c le in (ground arith, done_);
                  numbered = λ c among.
                      shared.numbered c (listed-remove (r.host_of call) c r.resolutions among);
                })
                (λ more. record {
                  shared = λ other c left.
                      let (counts', some', waits, of', lt') = shared.shared other c left in
                      (ground arith, ground arith, waits, of', lt');
                  unawaited = λ c off. elim (shared.unawaited c off) [
                    | inl done_ ↦ inl done_
                    | inr (inl nobody) ↦ inr (inl (ground arith))
                    | inr (inr closed) ↦ inr (inr closed)
                  ];
                  kept = shared.kept;
                  unused = shared.unused;
                  numbered = shared.numbered;
                }))
            (λ other. leaves-IsShared call (not_current call current found other)))

  return-IsShared : (call : ℕ) → IsShared (return_resolution call r)
  unfolding return_resolution
  return-IsShared call =
      if_both IsShared (r.is_done call)
        (λ done_. leaves-IsShared call (λ place.
          let (counts, some_, runs, of, lt) = shared.shared (r.host_of call) call place in
          ground arith))
        (λ _. shared)

  ended-IsShared :
      (call : ℕ) (table : List (String × ℕ))
      → ((other : String) (c : ℕ)
          → lookup other table ≡ some c
          → (nat_beq c call ≡ false) × (lookup other r.resolutions ≡ some c))
      → ((c : ℕ) → listed c table ≡ true → c < r.next)
      → call < r.next
      → IsShared (record r {
        resolutions = table;
        is_cancelled = write_at call true r.is_cancelled;
        is_done = write_at call true r.is_done;
      })
  ended-IsShared call table others small known = record {
    shared = λ other c found.
        let (differs, old) = others other c found in
        let (counts, some_, runs, of, lt) = shared.shared other c old in
        (counts, some_, ground arith, of, lt);
    unawaited = λ c off. elim (Bool-cases (nat_beq c call)) [
      | inl here ↦ inl (ground arith)
      | inr differs ↦ elim (shared.unawaited c (ground arith)) [
        | inl done_ ↦ inl (ground arith)
        | inr rest ↦ inr rest
      ]
    ];
    kept = λ other c found.
        let (differs, old) = others other c found in
        let on = shared.kept other c old in ground arith;
    unused = λ c le. let fresh = shared.unused c le in (ground arith, ground arith);
    numbered = small;
  }

  end-IsShared : (call : ℕ) → call < r.next → IsShared (end_resolution call r)
  unfolding end_resolution
  end-IsShared call known =
      option_both IsShared (lookup (r.host_of call) r.resolutions)
        (λ missing.
          ended-IsShared call r.resolutions
            (λ other c found. (elsewhere call other c (λ e. cc) found, found)) shared.numbered
            known)
        (λ current found.
          if_both IsShared (nat_beq current call)
            (λ _.
              ended-IsShared call (remove (r.host_of call) r.resolutions)
                (λ other c left. removed_other call other c left)
                (λ c among.
                  shared.numbered c (listed-remove (r.host_of call) c r.resolutions among))
                known)
            (λ differs.
              ended-IsShared call r.resolutions
                (λ other c place.
                  (elsewhere call other c (not_current call current found differs) place, place))
                shared.numbered known))

  close-IsShared : IsShared (close_resolutions r)
  unfolding close_resolutions lookup
  close-IsShared = record {
    shared = λ host call found. cc;
    unawaited = λ call off. inr (inr refl);
    kept = λ host call found. cc;
    unused = λ call le.
        let (off, done_) = shared.unused call le in (ground (arith, shared.numbered call), done_);
    numbered = λ call among. cc;
  }

no_resolutions-IsShared : IsShared no_resolutions
unfolding no_resolutions lookup
no_resolutions-IsShared = record {
  shared = λ host call found. cc;
  unawaited = λ call off. cc;
  kept = λ host call found. cc;
  unused = λ call le. (refl, refl);
  numbered = λ call among. cc;
}

Step-IsShared : (r s : Resolutions) → Step r s → IsShared r → IsShared s
Step-IsShared _ _ (joins host r) shared = join-IsShared r shared host
Step-IsShared _ _ (releases call r waits) shared = release-IsShared r shared call waits
Step-IsShared _ _ (ends call r known running) shared = end-IsShared r shared call known
Step-IsShared _ _ (returns call r) shared = return-IsShared r shared call
Step-IsShared _ _ (closes r) shared = close-IsShared r shared

Reach-IsShared : (r : Resolutions) → Reach r → IsShared r
Reach-IsShared _ starts = no_resolutions-IsShared
Reach-IsShared _ (goes r s reach step) = Step-IsShared r s step (Reach-IsShared r reach)

-- A shared lookup is not cancelled under those who wait for it: in every state that the goroutines
-- can reach, a lookup that is cancelled has ended, or nobody waits for it, or the resolver is closed;
-- and one that a new caller would join is awaited, by as many goroutines as it counts, and still runs.
pub Reach-unawaited :
    (r : Resolutions)
    → Reach r
    → ((call : ℕ)
        → r.is_cancelled call ≡ true
        → (r.is_done call ≡ true) ⊎ (r.waiting call ≡ 0) ⊎ (r.closed ≡ true))
      × ((host : String) (call : ℕ)
          → lookup host r.resolutions ≡ some call
          → (r.waiters call ≡ r.waiting call)
            × (0 < r.waiting call)
            × (r.is_done call ≡ false)
            × (r.is_cancelled call ≡ false))
Reach-unawaited r reach =
    let shared = Reach-IsShared r reach in
    (
      shared.unawaited,
      λ host call found.
          let (counts, some_, runs, of, lt) = shared.shared host call found in
          (counts, some_, runs, shared.kept host call found),
    )
