-- ===== src/Conntrack/Creation.antt =====
-- getOrCreate: it keeps the table's invariant, and it always finds or makes the connection of a key.
use Prim.Native.String.{String}
use text.Mathlib.TextEquality.{eq_iff}
use distrust_core.Conntrack.{
  Conntrack, ConntrackMgr, net_closed, update, without, remove_indexes, remove_locked,
  remove_expired, remove_oldest, remove_front, new_conntrack, refresh, add, create, get_or_create,
}
use distrust_core.Conntrack.Keys.{member, member-without, member-append}
use distrust_core.Conntrack.Invariant.{
  IsConsistent, update-IsConsistent, remove_expired-IsConsistent,
}
use distrust_core.Conntrack.Room.{
  Kept, remove_expired-Kept, lookup-remove_front, remove_front-IsConsistent, remove_front_room,
}
use distrust_core.Base.{
  ℕ, suc, ◌+◌, ◌%◌, ◌^◌, ◌<◌, ◌≡◌, refl, ap, ◌∙◌, inl, inr, Bool, true, false, none, some, List, [],
  ◌∷◌, ◌++◌, arith, leb, if◌then◌else◌, Comparable_nat, Comparable_string, ==_self, Bool-cases,
  Option-cases, length, lookup, lookup-insert, length-insert,
}

-- The table after a number was given out and the connection was put in.
abbrev with_new : ConntrackMgr → Conntrack → ConntrackMgr
with_new n ct =
    add (suc n.allocated) ct
      (record n { next_auth_id = (n.next_auth_id + 1) % 2 ^ 64; allocated = suc n.allocated })

with_new-IsConsistent :
    (n : ConntrackMgr) (ct : Conntrack)
    → IsConsistent n
    → lookup ct.key n.by_key ≡ none
    → length n.by_key < n.max_entries
    → suc n.allocated < 2 ^ 64
    → ct.auth_id ≡ suc n.allocated
    → ct.pending ≡ []
    → n.closed ≡ false
    → IsConsistent (with_new n ct)
unfolding add
with_new-IsConsistent n ct c absent room small id empty open_ =
    let p = suc n.allocated in
    let unused : Conntrack.in_lru (n.store p) ≡ false = ground (arith, c.live p) in
    record {
      keyed =
          λ k q h. ground (arith, lookup-insert ct.key k p n.by_key, c.keyed k q, eq_iff ct.key k);
      numbered = λ i q h. ground (arith, id, lookup-insert ct.auth_id i p n.by_id, c.numbered i q);
      live = λ q h. ground (
        arith,
        id,
        absent,
        lookup-insert ct.key (Conntrack.key (n.store q)) p n.by_key,
        lookup-insert ct.key ct.key p n.by_key,
        lookup-insert ct.auth_id q p n.by_id,
        c.live q,
        eq_iff ct.key ct.key,
        eq_iff ct.key (Conntrack.key (n.store q)),
      );
      listed = λ q. ground (arith, member-append p q n.lru, c.listed q, unused);
      settled = λ q h k l. ground (arith, c.settled q);
      delivered = λ q h. ground (arith, empty, c.delivered q);
      shut = λ q h. absurd (ground arith);
      ids = omega (arith, c.ids, small);
      capacity = omega (arith, room, length-insert ct.key p n.by_key);
    }

abbrev numbered_next : ConntrackMgr → ConntrackMgr
numbered_next m = record m {
  next_auth_id = (m.next_auth_id + 1) % 2 ^ 64;
  allocated = suc m.allocated;
}

-- Numbers are given out before the oldest connection leaves; the order does not matter.
add-remove_front :
    (list : List ℕ) (ct : Conntrack) (m : ConntrackMgr)
    → add (suc m.allocated) ct (remove_front list (numbered_next m))
      ≡ with_new (remove_front list m) ct
unfolding remove_locked remove_indexes
add-remove_front [] ct m = refl
add-remove_front (p ∷ rest) ct m = refl

remove_front-Kept :
    (list : List ℕ) (m : ConntrackMgr)
    → Kept m (remove_front list m)
      × (ConntrackMgr.next_auth_id (remove_front list m) ≡ m.next_auth_id)
unfolding remove_locked remove_indexes
remove_front-Kept [] m = ((refl, refl, refl), refl)
remove_front-Kept (p ∷ rest) m = ((refl, refl, refl), refl)

-- What getOrCreate answers from a table `m`: the table `n` and the connection `p`. A closed table
-- makes a connection that is finished.
abbrev pub Answers : ConntrackMgr → String → ConntrackMgr → ℕ → Type 0
Answers m key n p =
    IsConsistent n
    × (m.closed ≡ false → lookup key n.by_key ≡ some p)
    × (m.closed ≡ true
        → (Conntrack.auth_done (n.store p) ≡ true)
          × (Conntrack.auth_err (n.store p) ≡ some net_closed))

-- A closed table gives out the number and keeps nothing.
create_closed :
    (ct : Conntrack) (m : ConntrackMgr) (key : String)
    → IsConsistent m
    → m.closed ≡ true
    → suc m.allocated < 2 ^ 64
    → ct.pending ≡ []
    → ct.in_lru ≡ false
    → Answers m key (create ct m) (suc m.allocated)
unfolding create
create_closed ct m key c shut small empty away =
    let p = suc m.allocated in
    let unused : Conntrack.in_lru (m.store p) ≡ false = ground (arith, c.live p) in
    rw (shut, create)
      (
        record {
          keyed = λ k q h. ground (arith, c.keyed k q);
          numbered = λ i q h. ground (arith, c.numbered i q);
          live = λ q h. ground (arith, away, c.live q);
          listed = λ q. ground (arith, away, unused, c.listed q);
          settled = λ q h k l. ground (arith, c.settled q);
          delivered = λ q h. ground (arith, empty, c.delivered q);
          shut = λ q h. ground (arith, away, c.shut q shut);
          ids = omega (arith, c.ids, small);
          capacity = c.capacity;
        },
        λ h. absurd cc,
        λ h. (ground arith, ground arith),
      )

-- The table that the connection is put into, by whether it is full.
abbrev put_in : Conntrack → ConntrackMgr → Bool → ConntrackMgr
put_in ct m full =
    add (suc m.allocated) ct
      (if full then remove_front m.lru (numbered_next m) else numbered_next m)

chosen :
    (ct : Conntrack) (m : ConntrackMgr)
    → m.closed ≡ false
    → create ct m ≡ put_in ct m (leb m.max_entries (length m.by_key))
unfolding create remove_oldest
chosen ct m open_ =
    ap
      (λ (b : Bool).
        if b
        then update (suc m.allocated) (record ct { auth_err = some net_closed; auth_done = true })
            (numbered_next m)
        else put_in ct m (leb m.max_entries (length m.by_key)))
      open_

-- An open table makes room, and then holds the connection.
create_open :
    (ct : Conntrack) (m : ConntrackMgr)
    → IsConsistent m
    → m.closed ≡ false
    → lookup ct.key m.by_key ≡ none
    → 0 < m.max_entries
    → suc m.allocated < 2 ^ 64
    → ct.auth_id ≡ suc m.allocated
    → ct.pending ≡ []
    → (n : ConntrackMgr) × (create ct m ≡ with_new n ct)
      × IsConsistent (with_new n ct)
      × (n.allocated ≡ m.allocated)
unfolding create remove_oldest
create_open ct m c open_ absent positive small id empty =
    elim (Bool-cases (leb m.max_entries (length m.by_key))) [
      | inl full ↦
          let n = remove_front m.lru m in
          let ((closed_, allocated_, max_), next_) = remove_front-Kept m.lru m in
          (
            n,
            chosen ct m open_ ∙ ap (put_in ct m) full ∙ add-remove_front m.lru ct m,
            with_new-IsConsistent n ct (remove_front-IsConsistent m.lru m c)
                (lookup-remove_front ct.key m.lru m absent)
                (rw max_ (remove_front_room m.lru m c refl positive)) (rw allocated_ small)
                (rw allocated_ id) empty (closed_ ∙ open_),
            allocated_,
          )
      | inr room ↦ (
        m,
        chosen ct m open_ ∙ ap (put_in ct m) room,
        with_new-IsConsistent m ct c absent (ground arith) small id empty open_,
        refl,
      )
    ]

lookup-with_new :
    (n : ConntrackMgr) (ct : Conntrack)
    → lookup ct.key (ConntrackMgr.by_key (with_new n ct)) ≡ some (suc n.allocated)
unfolding add
lookup-with_new n ct =
    lookup-insert ct.key ct.key (suc n.allocated) n.by_key ∙ rw (==_self ct.key) refl

create-Answers :
    (now : ℕ) (id : ℕ) (key app_id node_group_id : String) (m : ConntrackMgr)
    → IsConsistent m
    → lookup key m.by_key ≡ none
    → 0 < m.max_entries
    → suc m.allocated < 2 ^ 64
    → id ≡ suc m.allocated
    → Answers m key (create (new_conntrack now id key app_id node_group_id) m) (suc m.allocated)
create-Answers now id key app_id node_group_id m c absent positive small own =
    let ct = new_conntrack now id key app_id node_group_id in
    elim (Bool-cases m.closed) [
      | inl shut ↦ create_closed ct m key c shut small refl refl
      | inr open_ ↦
          let (n, same, made, count) = create_open ct m c open_ absent positive small own refl in
          rw same
            (made, λ h. lookup-with_new n ct ∙ ap (λ (a : ℕ). some (suc a)) count, λ h. absurd cc)
    ]

relisted-IsConsistent :
    (list : List ℕ) (m : ConntrackMgr)
    → ((q : ℕ) → member q list ≡ member q m.lru)
    → IsConsistent m
    → IsConsistent (record m { lru = list })
relisted-IsConsistent list m same c = record {
  keyed = c.keyed;
  numbered = c.numbered;
  live = c.live;
  listed = λ q. same q ∙ c.listed q;
  settled = c.settled;
  delivered = c.delivered;
  shut = c.shut;
  ids = c.ids;
  capacity = c.capacity;
}

pub refresh-Answers :
    (now : ℕ) (key : String) (p : ℕ) (m : ConntrackMgr)
    → IsConsistent m
    → lookup key m.by_key ≡ some p
    → (n : ConntrackMgr) × (refresh now p m ≡ some n) × Answers m key n p
unfolding refresh
refresh-Answers now key p m c found =
    let (same, in_) = c.keyed key p found in
    let seen : Conntrack = record (m.store p) { last_seen = now } in
    let touched =
      update-IsConsistent p seen m
        (record {
          same_key = refl;
          same_id = refl;
          same_place = refl;
          woken = λ h k. k;
          flushed = c.delivered p;
        })
        c in
    (
      record (update p seen m) { lru = without p m.lru ++ (p ∷ []) },
      rw (in_, refresh) refl,
      (
        relisted-IsConsistent (without p m.lru ++ (p ∷ [])) (update p seen m)
            (λ q. ground (
              arith,
              member-append p q (without p m.lru),
              member-without p q m.lru,
              c.listed p,
              in_,
            ))
            touched,
        λ h. found,
        λ h. absurd (ground (arith, c.shut p h)),
      ),
    )

-- In a consistent table with room for at least one connection, and fewer than 2 ^ 64 - 1 connections
-- made so far, getOrCreate does not panic; the table stays consistent and so within its
-- capacity; an open table then holds the answered connection under the key, and a closed one answers
-- a connection that is finished with the error of a closed network.
pub get_or_create-Answers :
    (now : ℕ) (key app_id node_group_id : String) (m : ConntrackMgr)
    → IsConsistent m
    → 0 < m.max_entries
    → suc m.allocated < 2 ^ 64
    → (n : ConntrackMgr) × (p : ℕ) × (get_or_create now key app_id node_group_id m ≡ some (n, p))
      × Answers m key n p
unfolding get_or_create
get_or_create-Answers now key app_id node_group_id m c positive small =
    let swept = remove_expired now m in
    let swept_c = remove_expired-IsConsistent now m c in
    let (closed_, allocated_, max_) = remove_expired-Kept now m in
    elim (Option-cases (lookup key swept.by_key)) [
      | inl absent ↦
          let id = (swept.next_auth_id + 1) % 2 ^ 64 in
          let own : id ≡ suc swept.allocated = omega (arith, swept_c.ids, small, allocated_) in
          let (kept, opened, finished) =
            create-Answers now id key app_id node_group_id swept swept_c absent (rw max_ positive)
              (rw allocated_ small) own in
          (
            create (new_conntrack now id key app_id node_group_id) swept,
            suc swept.allocated,
            rw (absent, get_or_create) refl,
            (kept, λ h. opened (closed_ ∙ h), λ h. finished (closed_ ∙ h)),
          )
      | inr (p, found) ↦
          let (n, done, (kept, opened, finished)) = refresh-Answers now key p swept swept_c found in
          (
            n,
            p,
            rw (found, get_or_create) (rw done refl),
            (kept, λ h. opened (closed_ ∙ h), λ h. finished (closed_ ∙ h)),
          )
    ]
