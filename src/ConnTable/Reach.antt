-- ===== src/ConnTable/Reach.antt =====
-- client/atrust/l3tunnel.go: the states that the calls of an L3 tunnel can reach, in any order.
use Prim.Native.String.{String}
use distrust_core.ConnTable.{
  L3Tunnel, new_l3_tunnel, get_conn, start_reconnect, connect_conn, finish_dial, connect_gives_up,
  evict_conn, evict_stale_conns, close_begins, close_sweeps, close_doomed,
}
use distrust_core.Base.{
  ℕ, ◌≤◌, ◌<◌, ◌≡◌, refl, ◌⊎◌, Bool, true, false, ◌||◌, none, some, List, [], ◌∷◌, arith, nat_beq,
  Comparable_nat, Comparable_string, lookup,
}

-- One call, or one step of a goroutine. Only a worker ends a call.
pub data Step : L3Tunnel → L3Tunnel → Type 0 where
  got : (group : String) (t : L3Tunnel) → Step t (get_conn group t).1
  reconnects : (group : String) (t : L3Tunnel) → Step t (start_reconnect group t)
  dials :
      (group : String) (call : ℕ) (addr : String) (t : L3Tunnel)
      → t.working call ≡ some group
      → t.carried call ≡ none
      → Step t (connect_conn call addr t)
  finishes :
      (group : String) (call : ℕ) (t : L3Tunnel)
      → t.working call ≡ some group
      → Step t (finish_dial group call t)
  gives_up :
      (group : String) (call : ℕ) (t : L3Tunnel)
      → t.working call ≡ some group
      → t.carried call ≡ none
      → Step t (connect_gives_up group call t)
  evicts : (group : String) (conn : ℕ) (t : L3Tunnel) → Step t (evict_conn group conn t)
  evicts_stale :
      (best_nodes : List (String × String)) (major : String) (t : L3Tunnel)
      → Step t (evict_stale_conns best_nodes major t)
  begins : (t : L3Tunnel) → Step t (close_begins t)
  sweeps : (t : L3Tunnel) → Step t (close_sweeps t)
  closes : (t : L3Tunnel) → Step t (close_doomed t)

pub data Reach : L3Tunnel → Type 0 where
  starts : Reach new_l3_tunnel
  goes : (t u : L3Tunnel) → Reach t → Step t u → Reach u

abbrev pub has : ℕ → List ℕ → Bool
has n [] = false
has n (m ∷ ms) = nat_beq n m || has n ms

-- A connection is in the table, or taken to be closed.
abbrev pub IsPlaced : L3Tunnel → ℕ → Type 0
IsPlaced t conn =
    ((group : String) × (lookup group t.conns ≡ some conn)) ⊎ (has conn t.doomed ≡ true)

-- An open connection is placed, or held by the worker of a call, which has still to finish.
abbrev pub IsHeld : L3Tunnel → ℕ → Type 0
IsHeld t conn = IsPlaced t conn ⊎ ((call : ℕ) × (t.carried call ≡ some conn))

-- What holds of the calls: one that waits is under way for its group, by a worker that is to end it,
-- and its group has no connection; one that has ended is not under way. What is carried, a worker
-- carries.
pub record IsSound (t : L3Tunnel) : Type 0 where
  pub held : (conn : ℕ) → t.is_open conn ≡ true → IsHeld t conn
  pub single :
      (group : String) (call : ℕ)
      → lookup group t.connecting ≡ some call
      → (lookup group t.conns ≡ none)
        × (t.calls call ≡ none)
        × (t.working call ≡ some group)
        × (call < t.next_call)
  pub awaited :
      (call : ℕ)
      → call < t.next_call
      → t.calls call ≡ none
      → (group : String) × (lookup group t.connecting ≡ some call)
  pub fresh : (call : ℕ) → t.next_call ≤ call → t.calls call ≡ none
  pub busy :
      (call conn : ℕ)
      → t.carried call ≡ some conn
      → (group : String) × (t.working call ≡ some group)
  pub swept : t.closed ≡ true → t.sweeping ≡ false → t.conns ≡ []

pub new_l3_tunnel-IsSound : IsSound new_l3_tunnel
unfolding new_l3_tunnel lookup
new_l3_tunnel-IsSound = record {
  held = λ conn open_. cc;
  single = λ group call found. cc;
  awaited = λ call old waits. absurd (omega arith);
  fresh = λ call new_. refl;
  busy = λ call conn carried. cc;
  swept = λ closed swept. refl;
}
