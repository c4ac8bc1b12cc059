-- ===== src/ConnTable/Finishing.antt =====
-- client/atrust/l3tunnel.go: finishConnect keeps the connection of a worker that returns.
use Prim.Native.String.{String}
use mathlib.Core.Option.{some-injective}
use distrust_core.ConnTable.{
  L3Tunnel, end_call, finish_connect, returns, finish_dial, connect_gives_up,
}
use distrust_core.Base.{
  ℕ, ◌≡◌, sym, ap, ◌∙◌, ◌≢◌, ◌⊎◌, inl, inr, true, false, none, some, List, ◌∷◌, arith, nat_beq,
  Comparable_nat, Comparable_string, nat_beq_iff, if_both, option_both, lookup, remove,
  lookup-remove, insert, lookup-insert, ==_self,
}
use distrust_core.ConnTable.Reach.{IsPlaced, has, IsSound}
use distrust_core.ConnTable.Calls.{returns-IsSound, doom-IsSound, end_call-IsSound, keeps-IsSound}

removed_now :
    (group : String) (call : ℕ) (connecting : List (String × ℕ))
    → lookup group (remove group connecting) ≢ some call
removed_now group call connecting e =
    ground (arith, lookup-remove group group connecting, ==_self group)

module _ (t : L3Tunnel) (sound : IsSound t) where
  not_awaited :
      (group : String) (call awaited : ℕ)
      → lookup group t.connecting ≡ some awaited
      → nat_beq awaited call ≡ false
      → lookup group t.connecting ≢ some call
  not_awaited group call awaited found other =
      λ e. let same : awaited ≡ call = some-injective awaited call (sym found ∙ e) in ground arith

  -- What finishConnect has to do, so that the worker of the call can return.
  Settles : String → ℕ → L3Tunnel → Type 0
  Settles group call u =
      IsSound u
      × (u.working call ≡ some group)
      × (lookup group u.connecting ≢ some call)
      × ((conn : ℕ) → u.carried call ≡ some conn → IsPlaced u conn)

  module _ (group : String) (call : ℕ) (worker : t.working call ≡ some group) where
    finish_connect_nothing :
        t.carried call ≡ none → Settles group call (finish_connect group call none t)
    unfolding finish_connect Settles
    finish_connect_nothing idle =
        option_both (Settles group call) (lookup group t.connecting)
          (λ none_. (sound, worker, (λ e. cc), (λ conn carried. cc)))
          (λ awaited found.
            if_both (Settles group call) (nat_beq awaited call)
              (λ same.
                let awaits : lookup group t.connecting ≡ some call =
                  found ∙ ap some ((nat_beq_iff awaited call).0 same) in
                (
                  end_call-IsSound t sound group call worker awaits none,
                  worker,
                  (λ e. removed_now group call t.connecting e),
                  (λ conn carried. cc),
                ))
              (λ other.
                (sound, worker, not_awaited group call awaited found other, (λ conn carried. cc))))

    finish_connect_carried :
        (conn : ℕ)
        → t.carried call ≡ some conn
        → Settles group call (finish_connect group call (some conn) t)
    unfolding finish_connect Settles
    finish_connect_carried conn carries =
        option_both (Settles group call) (lookup group t.connecting)
          (λ none_.
            (doom-IsSound t sound (some conn), worker, (λ e. cc), doomed_now conn carries t.doomed))
          (λ awaited found.
            if_both (Settles group call) (nat_beq awaited call)
              (λ same.
                let awaits : lookup group t.connecting ≡ some call =
                  found ∙ ap some ((nat_beq_iff awaited call).0 same) in
                if_both (Settles group call) t.closed
                  (λ _. (
                    doom-IsSound (end_call group call none t)
                        (end_call-IsSound t sound group call worker awaits none) (some conn),
                    worker,
                    (λ e. removed_now group call t.connecting e),
                    doomed_now conn carries t.doomed,
                  ))
                  (λ open_. (
                    keeps-IsSound t sound group call worker awaits conn open_,
                    worker,
                    (λ e. removed_now group call t.connecting e),
                    (λ c carried. inl (group, kept_now conn carries c carried)),
                  )))
              (λ other. (
                doom-IsSound t sound (some conn),
                worker,
                not_awaited group call awaited found other,
                doomed_now conn carries t.doomed,
              )))
      where
        same_conn : (c d : ℕ) → t.carried call ≡ some c → t.carried call ≡ some d → c ≡ d
        same_conn c d is is_too = some-injective c d (sym is ∙ is_too)

        doomed_now :
            (c : ℕ)
            → t.carried call ≡ some c
            → (doomed : List ℕ) (d : ℕ) → t.carried call ≡ some d
            → ((g : String) × (lookup g t.conns ≡ some d)) ⊎ (has d (c ∷ doomed) ≡ true)
        doomed_now c is doomed d is_too = let e = same_conn c d is is_too in inr (ground arith)

        kept_now :
            (c : ℕ)
            → t.carried call ≡ some c
            → (d : ℕ) → t.carried call ≡ some d
            → lookup group (insert group c t.conns) ≡ some d
        kept_now c is d is_too =
            let e = same_conn c d is is_too in
            ground (arith, lookup-insert group group c t.conns, ==_self group)

    settled-IsSound : (u : L3Tunnel) → Settles group call u → IsSound (returns call u)
    unfolding Settles
    settled-IsSound u (sound_, working, unawaited, placed) =
        returns-IsSound u sound_ group call working unawaited placed

    pub finish_dial-IsSound : IsSound (finish_dial group call t)
    unfolding finish_dial
    finish_dial-IsSound =
        option_both IsSound (t.carried call) (λ idle. sound)
          (λ conn carries. settled-IsSound _ (finish_connect_carried conn carries))

    pub connect_gives_up-IsSound : t.carried call ≡ none → IsSound (connect_gives_up group call t)
    unfolding connect_gives_up
    connect_gives_up-IsSound idle =
        if_both IsSound t.closed (λ _. settled-IsSound _ (finish_connect_nothing idle)) (λ _. sound)
