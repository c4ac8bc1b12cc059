-- ===== src/Conntrack/Standing.antt =====
-- The result of an authentication that is over stands, whatever methods are called later.
use Prim.Native.String.{String}
use mathlib.Core.Option.{some-injective}
use distrust_core.Conntrack.{
  Conntrack, ConntrackMgr, ConntrackError, conntrack_evicted, net_closed, update, remove_indexes,
  remove_locked, finish, remove_if_expired, remove_expired_from, remove_expired, remove_front,
  remove_oldest, expires, refresh, add, create, get_or_create,
}
use distrust_core.Base.{
  ℕ, suc, ◌+◌, ◌%◌, ◌^◌, ◌≤◌, ◌<◌, ◌≡◌, refl, sym, ap, subst, Bool, true, false, Option, none, some,
  List, [], ◌∷◌, arith, leb, nat_beq, if◌then◌else◌, Comparable_nat, Comparable_string, nat_beq_iff,
  if_both, option_both, length, then_some_gave, lookup,
}

pub clash : (b : Bool) → b ≡ true → b ≡ false → ⊥
clash true is other = cc
clash false is other = cc

module _ (p : ℕ) (token : String) (e : Option ConntrackError) where
  -- The authentication is over with this token and this error.
  abbrev pub Holds : Conntrack → Type 0
  Holds ct = (ct.auth_done ≡ true) × (ct.connect_token ≡ token) × (ct.auth_err ≡ e)

  -- The connection of the number has been made, and its authentication is over.
  abbrev pub Stands : ConntrackMgr → Type 0
  Stands m = Holds (m.store p) × (p ≤ m.allocated)

  pub update-Stands :
      (q : ℕ) (ct : Conntrack) (m : ConntrackMgr)
      → (Holds (m.store q) → Holds ct)
      → Stands m
      → Stands (update q ct m)
  update-Stands q ct m keeps (over, made) = (
    if_both Holds (nat_beq q p)
        (λ same. keeps (subst (λ r. Holds (m.store r)) (sym ((nat_beq_iff q p).0 same)) over))
        (λ _. over),
    made,
  )

  -- A write to a connection whose authentication is not over.
  pub update_open-Stands :
      (q : ℕ) (ct : Conntrack) (m : ConntrackMgr)
      → Conntrack.auth_done (m.store q) ≡ false
      → Stands m
      → Stands (update q ct m)
  update_open-Stands q ct m open_ =
      update-Stands q ct m (λ over. absurd (clash (Conntrack.auth_done (m.store q)) over.0 open_))

  -- A write to the next connection.
  pub update_next-Stands :
      (q : ℕ) (ct : Conntrack) (m : ConntrackMgr) → p < q → Stands m → Stands (update q ct m)
  update_next-Stands q ct m later (over, made) = (
    if_both Holds (nat_beq q p)
        (λ same. let is = (nat_beq_iff q p).0 same in absurd (omega (arith, is))) (λ _. over),
    made,
  )

  pub remove_indexes-Stands : (q : ℕ) (m : ConntrackMgr) → Stands m → Stands (remove_indexes q m)
  unfolding remove_indexes
  remove_indexes-Stands q m =
      update-Stands q (record (m.store q) { in_lru = false }) m (λ over. over)

  pub finish-Holds : (why : ConntrackError) (ct : Conntrack) → Holds ct → Holds (finish why ct)
  finish-Holds why ct (over, same, result) = (
    refl,
    same,
    if_both (λ o. o ≡ e) ct.auth_done (λ _. result)
        (λ open_. absurd (clash ct.auth_done over open_)),
  )

  pub remove_locked-Stands :
      (why : ConntrackError) (q : ℕ) (m : ConntrackMgr) → Stands m → Stands (remove_locked why q m)
  unfolding remove_locked
  remove_locked-Stands why q m over =
      let removed = remove_indexes q m in
      update-Stands q (finish why (removed.store q)) removed (finish-Holds why (removed.store q))
        (remove_indexes-Stands q m over)

  pub remove_if_expired-Stands :
      (now q : ℕ) (m : ConntrackMgr) → Stands m → Stands (remove_if_expired now q m)
  unfolding remove_if_expired
  remove_if_expired-Stands now q m over =
      if_both Stands (leb (expires m (m.store q)) now)
        (λ _. remove_locked-Stands conntrack_evicted q m over) (λ _. over)

  pub remove_expired_from-Stands :
      (now : ℕ) (list : List ℕ) (m : ConntrackMgr)
      → Stands m
      → Stands (remove_expired_from now list m)
  unfolding remove_expired_from
  remove_expired_from-Stands now [] m over = over
  remove_expired_from-Stands now (q ∷ list) m over =
      remove_expired_from-Stands now list (remove_if_expired now q m)
        (remove_if_expired-Stands now q m over)

  pub remove_expired-Stands :
      (now : ℕ) (m : ConntrackMgr) → Stands m → Stands (remove_expired now m)
  unfolding remove_expired
  remove_expired-Stands now m = remove_expired_from-Stands now m.lru m

  pub remove_front-Stands :
      (list : List ℕ) (m : ConntrackMgr) → Stands m → Stands (remove_front list m)
  remove_front-Stands [] m over = over
  remove_front-Stands (q ∷ list) m over = remove_locked-Stands conntrack_evicted q m over

  pub refresh-Stands :
      (now q : ℕ) (m n : ConntrackMgr) → refresh now q m ≡ some n → Stands m → Stands n
  unfolding refresh
  refresh-Stands now q m n is over =
      let P : Option ConntrackMgr → Type 0 = λ o. o ≡ some n → Stands n in
      if_both P (Conntrack.in_lru (m.store q))
        (λ _ here.
          subst Stands (some-injective _ _ here)
            (update-Stands q (record (m.store q) { last_seen = now }) m (λ kept. kept) over))
        (λ _ nothing. absurd (no_some n nothing)) is
    where
      no_some : (o : ConntrackMgr) → none ≡ some o → ⊥
      no_some o h = cc

  pub create-Stands : (ct : Conntrack) (m : ConntrackMgr) → Stands m → Stands (create ct m)
  unfolding create remove_oldest add
  create-Stands ct m (over, made) =
      let numbered = record m {
        next_auth_id = (m.next_auth_id + 1) % 2 ^ 64;
        allocated = suc m.allocated;
      } in
      let kept : Stands numbered = (over, omega arith) in
      if_both Stands m.closed
        (λ _.
          update_next-Stands (suc m.allocated)
            (record ct { auth_err = some net_closed; auth_done = true }) numbered (omega arith)
            kept)
        (λ _.
          let room =
            if leb m.max_entries (length m.by_key) then remove_oldest numbered else numbered in
          update_next-Stands (suc m.allocated) (record ct { in_lru = true }) room (omega arith)
            (if_both Stands (leb m.max_entries (length m.by_key))
              (λ _. remove_front-Stands m.lru numbered kept) (λ _. kept)))

  pub get_or_create-Stands :
      (now : ℕ) (key app_id group : String) (m n : ConntrackMgr) (q : ℕ)
      → get_or_create now key app_id group m ≡ some (n, q)
      → Stands m
      → Stands n
  unfolding get_or_create
  get_or_create-Stands now key app_id group m n q is over =
      let swept = remove_expired now m in
      let kept = remove_expired-Stands now m over in
      let P : Option (ConntrackMgr × ℕ) → Type 0 = λ o. o ≡ some (n, q) → Stands n in
      option_both P (lookup key swept.by_key)
        (λ _ made.
          subst Stands (ap (λ (r : ConntrackMgr × ℕ). r.0) (some-injective _ _ made))
            (create-Stands _ swept kept))
        (λ found _ made.
          let (after, refreshed, last) = then_some_gave (refresh now found swept) _ made in
          subst Stands (ap (λ (r : ConntrackMgr × ℕ). r.0) (some-injective _ _ last))
            (refresh-Stands now found swept after refreshed kept))
        is
