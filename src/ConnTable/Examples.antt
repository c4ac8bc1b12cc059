-- ===== src/ConnTable/Examples.antt =====
-- Concrete runs of the table of L3 connections.
use Prim.Native.String.{String}
use distrust_core.ConnTable.{
  L3Tunnel, new_l3_tunnel, get_conn, start_call, finish_connect, connect_conn, finish_dial,
  connect_gives_up, close_begins, close_sweeps, close_doomed,
}
use distrust_core.ConnTable.Reach.{
  Reach, starts, goes, got, dials, finishes, begins, sweeps, closes, IsHeld,
}
use distrust_core.ConnTable.Accounting.{
  IsEnding, Reach-IsHeld, Reach-all_closed, Reach-one_dial, Reach-ends,
}
use distrust_core.Base.{
  ℕ, ◌⊎◌, ◌<◌, ◌≡◌, refl, ◌≢◌, true, false, none, some, [], arith, Comparable_nat,
  Comparable_string, lookup, insert, remove,
}

-- A packet for a node group waits for its connection.
abbrev waiting : L3Tunnel
waiting = (get_conn "g" new_l3_tunnel).1

waiting-Reach : Reach waiting
waiting-Reach = goes _ _ starts (got "g" new_l3_tunnel)

at_work : (waiting.working 0 ≡ some "g") × (waiting.carried 0 ≡ none)
unfolding get_conn new_l3_tunnel start_call lookup
at_work = (refl, refl)

-- The dial succeeds, and its goroutine holds the connection.
abbrev dialed : L3Tunnel
dialed = connect_conn 0 "node:443" waiting

dialed-Reach : Reach dialed
dialed-Reach = goes _ _ waiting-Reach (dials "g" 0 "node:443" waiting at_work.0 at_work.1)

is_open : dialed.is_open 0 ≡ true
unfolding get_conn new_l3_tunnel start_call connect_conn lookup insert remove
is_open = refl

Reach-IsHeld_example : IsHeld dialed 0
Reach-IsHeld_example = Reach-IsHeld dialed dialed-Reach 0 is_open

-- Close runs before the goroutine finishes, and again what it took is closed.
abbrev swept : L3Tunnel
swept = close_sweeps (close_begins dialed)

swept-Reach : Reach swept
swept-Reach = goes _ _ (goes _ _ dialed-Reach (begins _)) (sweeps _)

at_work_still : swept.working 0 ≡ some "g"
unfolding get_conn new_l3_tunnel start_call connect_conn lookup close_begins close_sweeps
at_work_still = refl

abbrev shut : L3Tunnel
shut = close_doomed (finish_dial "g" 0 swept)

shut-Reach : Reach shut
shut-Reach = goes _ _ (goes _ _ swept-Reach (finishes "g" 0 swept at_work_still)) (closes _)

shut_fields : (shut.closed ≡ true) × (shut.sweeping ≡ false) × (shut.doomed ≡ [])
unfolding get_conn new_l3_tunnel start_call connect_conn finish_dial finish_connect lookup insert
    remove close_begins close_sweeps close_doomed
shut_fields = (refl, refl, refl)

Reach-all_closed_example : (shut.is_open 0 ≡ false) ⊎ IsEnding shut 0
Reach-all_closed_example =
    Reach-all_closed shut shut-Reach shut_fields.0 shut_fields.1 shut_fields.2 0

abbrev Waits : ℕ → Type 0
Waits call =
    (call < waiting.next_call) × (waiting.calls call ≡ none) × (waiting.working call ≡ some "g")

waits : Waits 0
unfolding get_conn new_l3_tunnel start_call lookup
waits = (omega arith, refl, refl)

Reach-one_dial_example : ◌≡◌ {A = ℕ} 0 0
Reach-one_dial_example = Reach-one_dial waiting "g" 0 0 waiting-Reach waits waits

Reach-ends_example :
    (group : String) × (waiting.working 0 ≡ some group)
    × ((addr : String) → (finish_dial group 0 (connect_conn 0 addr waiting)).calls 0 ≢ none)
    × ((conn : ℕ) → waiting.carried 0 ≡ some conn → (finish_dial group 0 waiting).calls 0 ≢ none)
    × (waiting.closed ≡ true → (connect_gives_up group 0 waiting).calls 0 ≢ none)
Reach-ends_example = Reach-ends waiting 0 waiting-Reach waits.0 waits.1
