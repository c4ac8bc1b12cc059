-- ===== src/Conntrack/Once.antt =====
-- An authentication is completed once, however the methods are called later.
use Prim.Native.String.{String}
use distrust_core.Conntrack.{Conntrack, ConntrackMgr, ConntrackError, update, remove_indexes}
use distrust_core.Conntrack.Auth.{complete_auth, completed, completion, auth_result}
use distrust_core.Conntrack.Delivery.{complete_auth-answered, complete_auth_over}
use distrust_core.Conntrack.Reach.{Step, completes, Reach, after, Reach-IsConsistent}
use distrust_core.Conntrack.Standing.{Stands}
use distrust_core.Conntrack.Steps.{Step-Stands}
use distrust_core.Base.{
  ℕ, ◌≤◌, ◌≡◌, refl, sym, ap, ◌∙◌, subst, true, Option, none, some, List, arith, Comparable_nat,
  Comparable_string, Bytes,
}

-- What a table becomes by any calls of its methods.
pub data Later (n : ConntrackMgr) : ConntrackMgr → Type 0 where
  now : Later n n
  then_ : {m l : ConntrackMgr} → Later n m → Step m l → Later n l

Later-Reach : {n l : ConntrackMgr} → Later n l → Reach n → Reach l
Later-Reach now reach = reach
Later-Reach (then_ runs step) reach = after (Later-Reach runs reach) step

Later-Stands :
    (p : ℕ) (token : String) (e : Option ConntrackError) {n l : ConntrackMgr}
    → Later n l
    → Stands p token e n
    → Stands p token e l
Later-Stands p token e now over = over
Later-Stands p token e (then_ runs step) over =
    Step-Stands p token e step (Later-Stands p token e runs over)

completion-Stands :
    (token : String) (e : Option ConntrackError) (m : ConntrackMgr) (p : ℕ) (packets : List Bytes)
    → p ≤ m.allocated
    → let n = (completion e p packets (update p (completed token e (m.store p)) m)).0 in
      Stands p (Conntrack.connect_token (n.store p)) e n
unfolding remove_indexes
completion-Stands token none m p packets made = ((ground arith, refl, ground arith), made)
completion-Stands token (some e) m p packets made = ((ground arith, refl, ground arith), made)

Stands-auth_result :
    (p : ℕ) (token : String) (e : Option ConntrackError) (m : ConntrackMgr)
    → Stands p token e m
    → auth_result p m ≡ (token, e, true)
unfolding auth_result
Stands-auth_result p token e m ((over, same, result), made) = ground arith

-- An authentication is completed once: after a completion that answered a connection of a table that
-- calls of the methods have reached, and then any further calls in any order, the connection's result
-- is still that of the completion, with the error that was given, and another completion of the same
-- number answers nothing and does not change the table.
pub complete_auth_once :
    (auth_id : ℕ) (token other : String) (e another : Option ConntrackError) (m n l : ConntrackMgr)
    (p : ℕ) (packets : List Bytes)
    → Reach m
    → complete_auth auth_id token e m ≡ (n, some (p, packets))
    → Later n l
    → (complete_auth auth_id other another l ≡ (l, none))
      × (auth_result p n ≡ (Conntrack.connect_token (n.store p), e, true))
      × (auth_result p l ≡ auth_result p n)
complete_auth_once auth_id token other e another m n l p packets reach h runs =
    let (found, same) = complete_auth-answered auth_id token e m n p packets h in
    let c = Reach-IsConsistent reach in
    let (number, in_) = c.numbered auth_id p found in
    let (_, _, _, made) = c.live p in_ in
    let settled =
      subst (λ (r : ConntrackMgr). Stands p (Conntrack.connect_token (r.store p)) e r) same
        (completion-Stands token e m p packets made) in
    let over = Later-Stands p (Conntrack.connect_token (n.store p)) e runs settled in
    let reached = Later-Reach runs (
      after reach (
        completes auth_id token e n
          (ap (λ (r : ConntrackMgr × Option (ℕ × List Bytes)). r.0) h))) in
    let stands = Stands-auth_result p (Conntrack.connect_token (n.store p)) e n settled in
    (
      complete_auth_over auth_id other another l (λ q held.
          let (number_too, _) = (Reach-IsConsistent reached).numbered auth_id q held in
          subst (λ (r : ℕ). Conntrack.auth_done (l.store r) ≡ true) (sym number ∙ number_too)
            over.0.0),
      stands,
      Stands-auth_result p (Conntrack.connect_token (n.store p)) e l over ∙ sym stands,
    )
