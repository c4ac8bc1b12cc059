-- ===== src/ConnTable/Accounting.antt =====
-- client/atrust/l3tunnel.go: no connection and no waiting call of an L3 tunnel is lost.
use Prim.Native.String.{String}
use mathlib.Core.Option.{some-injective}
use distrust_core.ConnTable.{
  L3Tunnel, write_at, finish_awaited, finish_connect, connect_conn, finish_dial, connect_gives_up,
  returns,
}
use distrust_core.Base.{
  ℕ, ◌<◌, ◌≡◌, sym, ap, ◌∙◌, ◌≢◌, ◌⊎◌, inl, inr, refl, ◌∷◌, Bool, true, false, Option, none, some,
  [], arith, nat_beq, Comparable_nat, Comparable_string, Bool-cases, if_both, option_both, lookup,
}
use distrust_core.ConnTable.Reach.{Reach, has, IsHeld}
use distrust_core.ConnTable.Sound.{Reach-IsSound, lookup_nothing}

opposite : (b : Bool) → b ≡ true → b ≡ false → ⊥
opposite true first second = cc
opposite false first second = cc

-- No connection is lost: in every state that the calls can reach, a connection that is open is in the
-- table, or has been taken out of it to be closed, or the goroutine that dialed it still holds it and
-- has not ended its call with it.
pub Reach-IsHeld : (t : L3Tunnel) → Reach t → (conn : ℕ) → t.is_open conn ≡ true → IsHeld t conn
Reach-IsHeld t reach = (Reach-IsSound t reach).held

finish_dial_is :
    (t : L3Tunnel) (group : String) (call conn : ℕ)
    → t.carried call ≡ some conn
    → finish_dial group call t ≡ returns call (finish_connect group call (some conn) t)
unfolding finish_dial finish_connect
finish_dial_is t group call conn carries =
    ap
      (λ o. elim o [
        | none ↦ t
        | some made ↦ returns call (finish_connect group call (some made) t)
      ])
      carries

-- The worker of a call holds this connection; when it finishes, the connection is to be closed.
pub IsEnding : L3Tunnel → ℕ → Type 0
IsEnding t conn =
    (call : ℕ) × (group : String) × (t.working call ≡ some group)
    × (t.carried call ≡ some conn)
    × (has conn (finish_dial group call t).doomed ≡ true)

module _ (t : L3Tunnel) (closed : t.closed ≡ true) where
  finish_connect_dooms :
      (group : String) (call conn : ℕ)
      → has conn (returns call (finish_connect group call (some conn) t)).doomed ≡ true
  unfolding finish_connect
  finish_connect_dooms group call conn =
      let P : L3Tunnel → Type 0 = λ u. has conn (returns call u).doomed ≡ true in
      let first : has conn (conn ∷ t.doomed) ≡ true = ground arith in
      option_both P (lookup group t.connecting) (λ _. first)
        λ awaited _.
          if_both P (nat_beq awaited call)
            (λ _.
              if_both P t.closed (λ _. first) (λ open_. absurd (opposite t.closed closed open_)))
            (λ _. first)

  finish_dial_dooms :
      (group : String) (call conn : ℕ)
      → t.carried call ≡ some conn
      → has conn (finish_dial group call t).doomed ≡ true
  finish_dial_dooms group call conn carries =
      rw (finish_dial_is t group call conn carries) (finish_connect_dooms group call conn)

-- After Close has emptied the table, and the connections that were taken out of it are closed, a
-- connection is closed too, however the two parts of Close and the dials were ordered; or a goroutine
-- that has dialed it has still to finish, and finishing takes it to be closed.
pub Reach-all_closed :
    (t : L3Tunnel)
    → Reach t
    → t.closed ≡ true
    → t.sweeping ≡ false
    → t.doomed ≡ []
    → (conn : ℕ) → (t.is_open conn ≡ false) ⊎ IsEnding t conn
unfolding IsEnding
Reach-all_closed t reach closed swept closed_all conn =
    let sound = Reach-IsSound t reach in
    elim (Bool-cases (t.is_open conn)) [
      | inl open_ ↦ elim (sound.held conn open_) [
        | inl (inl (group, place)) ↦
            let empty = sound.swept closed swept in
            let nothing : lookup group t.conns ≡ none =
              ap (lookup group) empty ∙ lookup_nothing group in
            absurd (ground arith)
        | inl (inr doomed) ↦
            let among : has conn [] ≡ true = ap (has conn) (sym closed_all) ∙ doomed in
            absurd (ground arith)
        | inr (call, carries) ↦
            let (group, worker) = sound.busy call conn carries in
            inr (call, group, worker, carries, finish_dial_dooms t closed group call conn carries)
      ]
      | inr shut ↦ inl shut
    ]

-- A group is dialed once at a time: of two calls that still wait, the goroutines dial different
-- groups.
pub Reach-one_dial :
    (t : L3Tunnel) (group : String) (call other : ℕ)
    → Reach t
    → (call < t.next_call) × (t.calls call ≡ none) × (t.working call ≡ some group)
    → (other < t.next_call) × (t.calls other ≡ none) × (t.working other ≡ some group)
    → call ≡ other
Reach-one_dial t group call other reach waits waits_too = some-injective call other (
    sym (under_way call waits.0 waits.1 waits.2)
    ∙ under_way other waits_too.0 waits_too.1 waits_too.2)
  where
    under_way :
        (c : ℕ)
        → c < t.next_call
        → t.calls c ≡ none
        → t.working c ≡ some group
        → lookup group t.connecting ≡ some c
    under_way c lt waits_ working =
        let sound = Reach-IsSound t reach in
        let (g, found) = sound.awaited c lt waits_ in
        let (conn, still, worker, lt_) = sound.single g c found in
        let same : group ≡ g = some-injective group g (sym working ∙ worker) in
        ap (λ h. lookup h t.connecting) same ∙ found

differ : {o : Option ℕ} {call : ℕ} → o ≡ none → o ≡ some call → ⊥
differ missing found = cc

not_same :
    {o : Option ℕ} (awaited call : ℕ)
    → o ≡ some awaited
    → o ≡ some call
    → nat_beq awaited call ≡ false
    → ⊥
not_same awaited call is found other =
    let same : awaited ≡ call = some-injective awaited call (sym is ∙ found) in ground arith

written :
    (t : L3Tunnel) (call : ℕ) (result : Option ℕ) → write_at call (some result) t.calls call ≢ none
written t call result = ground arith

module _ (t : L3Tunnel) (group : String) (call : ℕ)
    (found : lookup group t.connecting ≡ some call) where
  -- finishConnect ends a call that is under way, whatever it brings.
  finish_connect_ends :
      (result : Option ℕ) → (returns call (finish_connect group call result t)).calls call ≢ none
  unfolding finish_connect
  finish_connect_ends result =
      let Ended : L3Tunnel → Type 0 = λ u. (returns call u).calls call ≢ none in
      option_both Ended (lookup group t.connecting) (λ missing. absurd (differ missing found))
        λ awaited is.
          if_both Ended (nat_beq awaited call) (λ _. awaited_ends result)
            (λ other. absurd (not_same awaited call is found other))
    where
      awaited_ends :
          (result_ : Option ℕ)
          → (returns call (finish_awaited group call result_ t)).calls call ≢ none
      awaited_ends none = written t call none
      awaited_ends (some conn) =
          let Ended : L3Tunnel → Type 0 = λ u. (returns call u).calls call ≢ none in
          if_both Ended t.closed (λ _. written t call none) (λ _. written t call (some conn))

  finish_dial_ends :
      (conn : ℕ) → t.carried call ≡ some conn → (finish_dial group call t).calls call ≢ none
  finish_dial_ends conn carries =
      rw (finish_dial_is t group call conn carries) (finish_connect_ends (some conn))

  connect_gives_up_ends : t.closed ≡ true → (connect_gives_up group call t).calls call ≢ none
  unfolding connect_gives_up
  connect_gives_up_ends closed =
      if_both (λ (u : L3Tunnel). u.calls call ≢ none) t.closed (λ _. finish_connect_ends none)
        (λ open_. absurd (opposite t.closed closed open_))

connect_conn_carries :
    (call : ℕ) (addr : String) (t : L3Tunnel)
    → (connect_conn call addr t).carried call ≡ some t.next_conn
unfolding connect_conn
connect_conn_carries call addr t = ground arith

connect_conn_connecting :
    (call : ℕ) (addr : String) (t : L3Tunnel) → (connect_conn call addr t).connecting ≡ t.connecting
unfolding connect_conn
connect_conn_connecting call addr t = refl

-- A call that waits can always end: a goroutine dials for it, ends it by finishing when its dial has
-- succeeded, whatever the address, now or in an earlier step, and when the tunnel is closed ends it
-- also by giving up.
pub Reach-ends :
    (t : L3Tunnel) (call : ℕ)
    → Reach t
    → call < t.next_call
    → t.calls call ≡ none
    → (group : String) × (t.working call ≡ some group)
      × ((addr : String) → (finish_dial group call (connect_conn call addr t)).calls call ≢ none)
      × ((conn : ℕ) → t.carried call ≡ some conn → (finish_dial group call t).calls call ≢ none)
      × (t.closed ≡ true → (connect_gives_up group call t).calls call ≢ none)
Reach-ends t call reach lt waits =
    let sound = Reach-IsSound t reach in
    let (group, found) = sound.awaited call lt waits in
    let (conn, still, worker, lt_) = sound.single group call found in
    (
      group,
      worker,
      (λ addr.
          finish_dial_ends (connect_conn call addr t) group call
            (ap (lookup group) (connect_conn_connecting call addr t) ∙ found) t.next_conn
            (connect_conn_carries call addr t)),
      finish_dial_ends t group call found,
      connect_gives_up_ends t group call found,
    )
