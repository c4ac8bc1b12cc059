-- ===== src/Conntrack/Room.antt =====
-- What the removals leave of a table, and the room that they make in a full one.
use Prim.Native.String.{String}
use distrust_core.Conntrack.{
  Conntrack, ConntrackMgr, conntrack_evicted, remove_indexes, remove_locked, remove_expired,
  remove_expired_from, remove_if_expired, remove_front,
}
use distrust_core.Conntrack.Invariant.{IsConsistent, remove_locked-IsConsistent, remove_locked_live}
use distrust_core.Base.{
  ℕ, ◌<◌, ◌≡◌, refl, sym, ◌∙◌, true, none, some, List, [], ◌∷◌, arith, Comparable_nat,
  Comparable_string, ==_self, length, lookup, lookup-remove, length-remove_present,
}

-- What no removal changes.
abbrev pub Kept : ConntrackMgr → ConntrackMgr → Type 0
Kept m n = (n.closed ≡ m.closed) × (n.allocated ≡ m.allocated) × (n.max_entries ≡ m.max_entries)

remove_if_expired-Kept : (now p : ℕ) (m : ConntrackMgr) → Kept m (remove_if_expired now p m)
unfolding remove_if_expired remove_locked remove_indexes
remove_if_expired-Kept now p m = (ground arith, ground arith, ground arith)

remove_expired_from-Kept :
    (now : ℕ) (list : List ℕ) (m : ConntrackMgr) → Kept m (remove_expired_from now list m)
unfolding remove_expired_from
remove_expired_from-Kept now [] m = (refl, refl, refl)
remove_expired_from-Kept now (p ∷ rest) m =
    let (a, b, c) = remove_if_expired-Kept now p m in
    let (x, y, z) = remove_expired_from-Kept now rest (remove_if_expired now p m) in
    (x ∙ a, y ∙ b, z ∙ c)

pub remove_expired-Kept : (now : ℕ) (m : ConntrackMgr) → Kept m (remove_expired now m)
unfolding remove_expired
remove_expired-Kept now m = remove_expired_from-Kept now m.lru m

pub lookup-remove_front :
    (k : String) (list : List ℕ) (m : ConntrackMgr)
    → lookup k m.by_key ≡ none
    → lookup k (ConntrackMgr.by_key (remove_front list m)) ≡ none
unfolding remove_locked remove_indexes
lookup-remove_front k [] m h = h
lookup-remove_front k (p ∷ rest) m h =
    ground (arith, lookup-remove (Conntrack.key (m.store p)) k m.by_key)

pub remove_front-IsConsistent :
    (list : List ℕ) (m : ConntrackMgr) → IsConsistent m → IsConsistent (remove_front list m)
remove_front-IsConsistent [] m c = c
remove_front-IsConsistent (p ∷ rest) m c = remove_locked-IsConsistent conntrack_evicted p m c

-- A table that holds a connection has it in its list.
listed_first :
    (entries : List (String × ℕ)) (m : ConntrackMgr)
    → IsConsistent m
    → m.by_key ≡ entries
    → m.lru ≡ []
    → entries ≡ []
unfolding lookup
listed_first [] m c h e = refl
listed_first ((k, p) ∷ entries) m c h e =
    let found : lookup k m.by_key ≡ some p = rw h (rw (==_self k) refl) in
    absurd (ground (arith, c.keyed k p found, c.listed p, e))

pub remove_front_room :
    (list : List ℕ) (m : ConntrackMgr)
    → IsConsistent m
    → m.lru ≡ list
    → 0 < m.max_entries
    → length (ConntrackMgr.by_key (remove_front list m)) < m.max_entries
remove_front_room [] m c h some_room =
    let empty : m.by_key ≡ [] = listed_first m.by_key m c refl h in rw empty some_room
remove_front_room (p ∷ rest) m c h some_room =
    let in_ : Conntrack.in_lru (m.store p) ≡ true = sym (c.listed p) ∙ rw h (ground arith) in
    let (found, _, _, _) = c.live p in_ in
    rw (remove_locked_live conntrack_evicted p m c in_) (
      omega (arith, c.capacity, length-remove_present (Conntrack.key (m.store p)) p m.by_key found))
