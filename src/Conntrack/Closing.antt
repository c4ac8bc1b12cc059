-- ===== src/Conntrack/Closing.antt =====
-- close: the table ends empty, and stays consistent.
use Prim.Native.String.{String}
use distrust_core.Conntrack.{
  Conntrack, ConntrackMgr, ConntrackError, net_closed, remove_indexes, remove_locked,
}
use distrust_core.Conntrack.Invariant.{IsConsistent, remove_locked-IsConsistent}
use distrust_core.Conntrack.Auth.{remove_all, close}
use distrust_core.Base.{
  ℕ, ◌≡◌, refl, Bool, true, false, ◌||◌, some, List, [], ◌∷◌, arith, nat_beq, if◌then◌else◌,
  Comparable_nat, Comparable_string, lookup,
}

-- Is `p` under a key of the list?
abbrev holds : ℕ → List (String × ℕ) → Bool
holds p [] = false
holds p ((k, q) ∷ entries) = nat_beq q p || holds p entries

lookup-holds :
    (k : String) (p : ℕ) (entries : List (String × ℕ))
    → lookup k entries ≡ some p
    → holds p entries ≡ true
unfolding lookup
lookup-holds k p [] h = ground arith
lookup-holds k p ((j, q) ∷ entries) h = ground (arith, lookup-holds k p entries)

remove_locked_place :
    (e : ConntrackError) (q p : ℕ) (m : ConntrackMgr)
    → Conntrack.in_lru (ConntrackMgr.store (remove_locked e q m) p)
      ≡ (if nat_beq q p then false else Conntrack.in_lru (m.store p))
unfolding remove_locked remove_indexes
remove_locked_place e q p m = ground arith

remove_all_place :
    (entries : List (String × ℕ)) (p : ℕ) (m : ConntrackMgr)
    → Conntrack.in_lru (ConntrackMgr.store (remove_all entries m) p)
      ≡ (if holds p entries then false else Conntrack.in_lru (m.store p))
remove_all_place [] p m = refl
remove_all_place ((k, q) ∷ entries) p m = ground (
  arith,
  remove_all_place entries p (remove_locked net_closed q m),
  remove_locked_place net_closed q p m,
)

remove_all-IsConsistent :
    (entries : List (String × ℕ)) (m : ConntrackMgr)
    → IsConsistent m
    → IsConsistent (remove_all entries m)
remove_all-IsConsistent [] m c = c
remove_all-IsConsistent ((k, q) ∷ entries) m c =
    remove_all-IsConsistent entries (remove_locked net_closed q m)
      (remove_locked-IsConsistent net_closed q m c)

-- The table is marked as closed before the removals, which do not read the mark.
remove_all_closed :
    (entries : List (String × ℕ)) (m : ConntrackMgr)
    → remove_all entries (record m { closed = true })
      ≡ record (remove_all entries m) { closed = true }
unfolding remove_locked remove_indexes
remove_all_closed [] m = refl
remove_all_closed ((k, q) ∷ entries) m = remove_all_closed entries (remove_locked net_closed q m)

closed-IsConsistent :
    (m : ConntrackMgr)
    → IsConsistent m
    → ((p : ℕ) → Conntrack.in_lru (m.store p) ≡ false)
    → IsConsistent (record m { closed = true })
closed-IsConsistent m c empty = record {
  keyed = c.keyed;
  numbered = c.numbered;
  live = c.live;
  listed = c.listed;
  settled = c.settled;
  delivered = c.delivered;
  shut = λ p h. empty p;
  ids = c.ids;
  capacity = c.capacity;
}

pub close-IsConsistent : (m : ConntrackMgr) → IsConsistent m → IsConsistent (close m)
unfolding close
close-IsConsistent m c = rw (remove_all_closed m.by_key m) (
    closed-IsConsistent (remove_all m.by_key m) (remove_all-IsConsistent m.by_key m c) (λ p.
      ground (
        arith,
        remove_all_place m.by_key p m,
        c.live p,
        lookup-holds (Conntrack.key (m.store p)) p m.by_key,
      )))
