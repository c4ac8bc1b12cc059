-- ===== src/Conntrack/Invariant.antt =====
-- The invariant of the table: its two maps and its list hold the same connections, and what it
-- does not hold is finished. The calls that take a connection out keep it.
use Prim.Native.String.{String}
use text.Mathlib.TextEquality.{eq_iff}
use distrust_core.Conntrack.{
  Conntrack, ConntrackMgr, ConntrackError, conntrack_evicted, write, update, without, points_to,
  remove_indexes, remove_locked, finish, remove_expired, remove_expired_from, remove_if_expired,
  new_conntrack_mgr, expires,
}
use distrust_core.Conntrack.Keys.{member, member-without}
use distrust_core.Base.{
  ℕ, ◌≤◌, ◌<◌, ◌≡◌, refl, sym, ap, ◌∙◌, inl, inr, true, false, some, List, [], ◌∷◌, arith, leb,
  nat_beq, Comparable_nat, Comparable_string, Bool-cases, length, lookup, remove, lookup-remove,
  length-remove,
}

pub record IsConsistent (m : ConntrackMgr) : Type 0 where
  -- What is under a key has that key, is under its own number, and is live.
  pub keyed :
      (k : String) (p : ℕ)
      → lookup k m.by_key ≡ some p
      → (Conntrack.key (m.store p) ≡ k) × (Conntrack.in_lru (m.store p) ≡ true)
  pub numbered :
      (i p : ℕ) → lookup i m.by_id ≡ some p → (i ≡ p) × (Conntrack.in_lru (m.store p) ≡ true)
  -- What is live is in both maps.
  pub live :
      (p : ℕ)
      → Conntrack.in_lru (m.store p) ≡ true
      → (lookup (Conntrack.key (m.store p)) m.by_key ≡ some p)
        × (lookup p m.by_id ≡ some p)
        × (Conntrack.auth_id (m.store p) ≡ p)
        × (p ≤ m.allocated)
  pub listed : (p : ℕ) → member p m.lru ≡ Conntrack.in_lru (m.store p)
  -- Whoever waits for a connection that the table does not hold is woken up.
  pub settled :
      (p : ℕ)
      → 0 < p
      → p ≤ m.allocated
      → Conntrack.in_lru (m.store p) ≡ false
      → Conntrack.auth_done (m.store p) ≡ true
  -- A connection whose authentication is over keeps no packet.
  pub delivered :
      (p : ℕ) → Conntrack.auth_done (m.store p) ≡ true → Conntrack.pending (m.store p) ≡ []
  -- A closed table holds nothing.
  pub shut : (p : ℕ) → m.closed ≡ true → Conntrack.in_lru (m.store p) ≡ false
  pub ids : m.next_auth_id ≡ m.allocated
  pub capacity : length m.by_key ≤ m.max_entries

pub new_conntrack_mgr-IsConsistent : IsConsistent new_conntrack_mgr
unfolding new_conntrack_mgr lookup
new_conntrack_mgr-IsConsistent = record {
  keyed = λ k p h. absurd cc;
  numbered = λ i p h. absurd cc;
  live = λ p h. absurd cc;
  listed = λ p. refl;
  settled = λ p h k. absurd (omega arith);
  delivered = λ p h. refl;
  shut = λ p h. refl;
  ids = refl;
  capacity = omega arith;
}

-- The table without a connection that it held, which becomes `out`.
abbrev pub dropped : Conntrack → ℕ → ConntrackMgr → ConntrackMgr
dropped out p m = record m {
  by_key = remove (Conntrack.key (m.store p)) m.by_key;
  by_id = remove p m.by_id;
  lru = without p m.lru;
  store = write m.store p out;
}

abbrev pub IsFinished : Conntrack → Type 0
IsFinished ct = (ct.auth_done ≡ true) × (ct.pending ≡ []) × (ct.in_lru ≡ false)

pub dropped-IsConsistent :
    (out : Conntrack) (p : ℕ) (m : ConntrackMgr)
    → IsFinished out
    → IsConsistent m
    → Conntrack.in_lru (m.store p) ≡ true
    → IsConsistent (dropped out p m)
dropped-IsConsistent out p m (done, empty, away) c in_ =
    let key = Conntrack.key (m.store p) in
    record {
      keyed = λ k q h. ground (arith, lookup-remove key k m.by_key, c.keyed k q, eq_iff key k);
      numbered = λ i q h. ground (arith, lookup-remove p i m.by_id, c.numbered i q);
      live = λ q h. ground (
        arith,
        lookup-remove key (Conntrack.key (m.store q)) m.by_key,
        lookup-remove p q m.by_id,
        c.live q,
        c.live p in_,
        away,
        eq_iff key (Conntrack.key (m.store q)),
      );
      listed = λ q. ground (arith, member-without p q m.lru, c.listed q, away);
      settled = λ q h k l. ground (arith, done, c.settled q);
      delivered = λ q h. ground (arith, empty, c.delivered q);
      shut = λ q h. ground (arith, away, c.shut q);
      ids = c.ids;
      capacity = omega (arith, c.capacity, length-remove key m.by_key);
    }

-- A change of one connection that the table's invariant allows.
pub record IsAllowed (m : ConntrackMgr) (p : ℕ) (ct : Conntrack) : Type 0 where
  pub same_key : ct.key ≡ Conntrack.key (m.store p)
  pub same_id : ct.auth_id ≡ Conntrack.auth_id (m.store p)
  pub same_place : ct.in_lru ≡ Conntrack.in_lru (m.store p)
  pub woken : ct.in_lru ≡ false → Conntrack.auth_done (m.store p) ≡ true → ct.auth_done ≡ true
  pub flushed : ct.auth_done ≡ true → ct.pending ≡ []

pub update-IsConsistent :
    (p : ℕ) (ct : Conntrack) (m : ConntrackMgr)
    → IsAllowed m p ct
    → IsConsistent m
    → IsConsistent (update p ct m)
update-IsConsistent p ct m a c = record {
  keyed = λ k q h. ground (arith, c.keyed k q, a.same_key, a.same_place);
  numbered = λ i q h. ground (arith, c.numbered i q, a.same_place);
  live = λ q h. ground (arith, c.live q, a.same_key, a.same_place, a.same_id);
  listed = λ q. ground (arith, c.listed q, a.same_place);
  settled = λ q h k l. ground (arith, c.settled q, a.same_place, a.woken);
  delivered = λ q h. ground (arith, c.delivered q, a.flushed);
  shut = λ q h. ground (arith, a.same_place, c.shut q);
  ids = c.ids;
  capacity = c.capacity;
}

pub remove_indexes_live :
    (p : ℕ) (m : ConntrackMgr)
    → IsConsistent m
    → Conntrack.in_lru (m.store p) ≡ true
    → remove_indexes p m ≡ dropped (record (m.store p) { in_lru = false }) p m
unfolding remove_indexes
remove_indexes_live p m c h =
    let (by_key, by_id, same, _) = c.live p h in
    rw (same, by_key, by_id, h) (let self : nat_beq p p ≡ true = ground arith in rw self refl)

-- A connection that the table does not hold is in neither map.
remove_indexes_absent :
    (p : ℕ) (m : ConntrackMgr)
    → IsConsistent m
    → Conntrack.in_lru (m.store p) ≡ false
    → remove_indexes p m ≡ update p (record (m.store p) { in_lru = false }) m
unfolding remove_indexes
remove_indexes_absent p m c h =
    let key = Conntrack.key (m.store p) in
    let id = Conntrack.auth_id (m.store p) in
    let no_key : points_to (lookup key m.by_key) p ≡ false = ground (arith, c.keyed key p) in
    let no_id : points_to (lookup id m.by_id) p ≡ false = ground (arith, c.numbered id p) in
    rw (no_key, no_id, h) refl

write-write_at :
    (s : ℕ → Conntrack) (p : ℕ) (a b : Conntrack) (q : ℕ)
    → write (write s p a) p b q ≡ write s p b q
write-write_at s p a b q = ground arith

pub write-write :
    (s : ℕ → Conntrack) (p : ℕ) (a b : Conntrack) → write (write s p a) p b ≡ write s p b
write-write s p a b = λ i q. write-write_at s p a b q i

pub write_self : (s : ℕ → Conntrack) (p : ℕ) (a : Conntrack) → write s p a p ≡ a
write_self s p a = ground arith

abbrev finish_in : ConntrackError → ℕ → ConntrackMgr → ConntrackMgr
finish_in e p m = update p (finish e (m.store p)) m

finish_in-write :
    (e : ConntrackError) (p : ℕ) (m : ConntrackMgr) (out : Conntrack) (n : ConntrackMgr)
    → n.store ≡ write m.store p out
    → finish_in e p n ≡ record n { store = write m.store p (finish e out) }
finish_in-write e p m out n h =
    ap (λ (s : ℕ → Conntrack). record n { store = write s p (finish e (s p)) }) h
    ∙ ap (λ (ct : Conntrack). record n { store = write (write m.store p out) p (finish e ct) })
        (write_self m.store p out)
    ∙ ap (λ (s : ℕ → Conntrack). record n { store = s }) (write-write m.store p out (finish e out))

pub remove_locked_live :
    (e : ConntrackError) (p : ℕ) (m : ConntrackMgr)
    → IsConsistent m
    → Conntrack.in_lru (m.store p) ≡ true
    → remove_locked e p m ≡ dropped (finish e (record (m.store p) { in_lru = false })) p m
unfolding remove_locked
remove_locked_live e p m c h =
    let out : Conntrack = record (m.store p) { in_lru = false } in
    ap (finish_in e p) (remove_indexes_live p m c h)
    ∙ finish_in-write e p m out (dropped out p m) refl

pub remove_locked_absent :
    (e : ConntrackError) (p : ℕ) (m : ConntrackMgr)
    → IsConsistent m
    → Conntrack.in_lru (m.store p) ≡ false
    → remove_locked e p m ≡ update p (finish e (record (m.store p) { in_lru = false })) m
unfolding remove_locked
remove_locked_absent e p m c h =
    let out : Conntrack = record (m.store p) { in_lru = false } in
    ap (finish_in e p) (remove_indexes_absent p m c h)
    ∙ finish_in-write e p m out (update p out m) refl

pub remove_locked-IsConsistent :
    (e : ConntrackError) (p : ℕ) (m : ConntrackMgr)
    → IsConsistent m
    → IsConsistent (remove_locked e p m)
remove_locked-IsConsistent e p m c = elim (Bool-cases (Conntrack.in_lru (m.store p))) [
  | inl in_ ↦ rw (remove_locked_live e p m c in_) (
      dropped-IsConsistent (finish e (record (m.store p) { in_lru = false })) p m (refl, refl, refl)
        c in_)
  | inr away ↦ rw (remove_locked_absent e p m c away) (
      update-IsConsistent p (finish e (record (m.store p) { in_lru = false })) m
        (record {
          same_key = refl;
          same_id = refl;
          same_place = sym away;
          woken = λ h k. refl;
          flushed = λ h. refl;
        })
        c)
]

remove_if_expired-IsConsistent :
    (now p : ℕ) (m : ConntrackMgr) → IsConsistent m → IsConsistent (remove_if_expired now p m)
unfolding remove_if_expired
remove_if_expired-IsConsistent now p m c = elim (Bool-cases (leb (expires m (m.store p)) now)) [
  | inl late ↦ rw late (remove_locked-IsConsistent conntrack_evicted p m c)
  | inr early ↦ rw early c
]

remove_expired_from-IsConsistent :
    (now : ℕ) (list : List ℕ) (m : ConntrackMgr)
    → IsConsistent m
    → IsConsistent (remove_expired_from now list m)
unfolding remove_expired_from
remove_expired_from-IsConsistent now [] m c = c
remove_expired_from-IsConsistent now (p ∷ rest) m c =
    remove_expired_from-IsConsistent now rest (remove_if_expired now p m)
      (remove_if_expired-IsConsistent now p m c)

pub remove_expired-IsConsistent :
    (now : ℕ) (m : ConntrackMgr) → IsConsistent m → IsConsistent (remove_expired now m)
unfolding remove_expired
remove_expired-IsConsistent now m c = remove_expired_from-IsConsistent now m.lru m c
