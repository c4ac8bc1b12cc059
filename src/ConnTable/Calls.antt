-- ===== src/ConnTable/Calls.antt =====
-- client/atrust/l3tunnel.go: how the calls of an L3 tunnel begin and end.
use Prim.Native.String.{String}
use mathlib.Core.Option.{some-injective}
use distrust_core.ConnTable.{L3Tunnel, write_at, start_call, end_call, doom, returns, connect_conn}
use distrust_core.Base.{
  ℕ, ◌≡◌, sym, ap, ◌∙◌, ◌≢◌, inl, inr, Bool, true, false, Option, none, some, arith, nat_beq, ◌==◌,
  Comparable_nat, Comparable_string, ==_self, Bool-cases, nat_beq_iff, lookup, insert,
  lookup-insert, lookup-remove,
}
use distrust_core.Base.TextMaps.{same_key, inserted, removed, kept}
use distrust_core.ConnTable.Reach.{IsPlaced, IsSound}

module _ (t : L3Tunnel) (sound : IsSound t) where
  pub start_call-IsSound :
      (group : String)
      → lookup group t.conns ≡ none
      → lookup group t.connecting ≡ none
      → IsSound (start_call group t)
  unfolding start_call
  start_call-IsSound group no_conn no_call = record {
    held = sound.held;
    single = λ other call found. elim (inserted group other t.next_call t.connecting found) [
      | inl (same, new_) ↦ (
        ap (λ g. lookup g t.conns) (sym same) ∙ no_conn,
        sound.fresh call (omega arith),
        ground (arith, same),
        omega arith,
      )
      | inr old ↦
          let (conn, waits, worker, lt) = sound.single other call old in
          (conn, waits, ground arith, omega arith)
    ];
    awaited = λ call old waits. elim (Bool-cases (nat_beq call t.next_call)) [
      | inl new_ ↦
          (group, ground (arith, lookup-insert group group t.next_call t.connecting, ==_self group))
      | inr older ↦
          let (other, found) = sound.awaited call (ground arith) waits in
          (other, kept group other t.next_call t.connecting no_call found)
    ];
    fresh = λ call new_. sound.fresh call (omega arith);
    busy = λ call conn carried.
        let (old, worker) = sound.busy call conn carried in
        elim (Bool-cases (nat_beq call t.next_call)) [
          | inl new_ ↦ (group, ground arith)
          | inr older ↦ (old, ground arith)
        ];
    swept = sound.swept;
  }

  pub doom-IsSound : (conn : Option ℕ) → IsSound (doom conn t)
  doom-IsSound none = sound
  doom-IsSound (some conn) = record {
    held = λ other open_. elim (sound.held other open_) [
      | inl placed ↦ inl (still other placed)
      | inr carried ↦ inr carried
    ];
    single = sound.single;
    awaited = sound.awaited;
    fresh = sound.fresh;
    busy = sound.busy;
    swept = sound.swept;
  }
    where
      still : (other : ℕ) → IsPlaced t other → IsPlaced (doom (some conn) t) other
      still other (inl place) = inl place
      still other (inr doomed) = inr (ground arith)

  -- The worker of a call that nobody waits for returns, when what it carries is placed.
  pub returns-IsSound :
      (group : String) (call : ℕ)
      → t.working call ≡ some group
      → lookup group t.connecting ≢ some call
      → ((conn : ℕ) → t.carried call ≡ some conn → IsPlaced t conn)
      → IsSound (returns call t)
  returns-IsSound group call worker unawaited placed = record {
    held = λ conn open_. elim (sound.held conn open_) [
      | inl place ↦ inl place
      | inr (c, carried) ↦ elim (Bool-cases (nat_beq c call)) [
        | inl same ↦ inl (placed conn (ap t.carried (sym ((nat_beq_iff c call).0 same)) ∙ carried))
        | inr differs ↦ inr (c, ground arith)
      ]
    ];
    single = λ other c found.
        let (conn, waits, working, lt) = sound.single other c found in
        (conn, waits, still other c found working, lt);
    awaited = sound.awaited;
    fresh = sound.fresh;
    busy = λ c conn carried.
        let (differs, old) = carried_still c conn carried in
        let (other, working) = sound.busy c conn old in (other, ground arith);
    swept = sound.swept;
  }
    where
      carried_still :
          (c conn : ℕ)
          → write_at call none t.carried c ≡ some conn
          → (nat_beq c call ≡ false) × (t.carried c ≡ some conn)
      carried_still c conn carried = ground arith

      still :
          (other : String) (c : ℕ)
          → lookup other t.connecting ≡ some c
          → t.working c ≡ some other
          → write_at call none t.working c ≡ some other
      still other c found working = elim (Bool-cases (nat_beq c call)) [
        | inl same ↦
            let is : c ≡ call = (nat_beq_iff c call).0 same in
            let group_is : some other ≡ some group = sym working ∙ ap t.working is ∙ worker in
            absurd (
              unawaited (
                ap (λ g. lookup g t.connecting) (sym (some-injective other group group_is))
                ∙ found
                ∙ ap some is))
        | inr differs ↦ ground arith
      ]

  -- A worker makes a new connection.
  pub connect_conn-IsSound :
      (group : String) (call : ℕ) (addr : String)
      → t.working call ≡ some group
      → t.carried call ≡ none
      → IsSound (connect_conn call addr t)
  unfolding connect_conn
  connect_conn-IsSound group call addr worker idle = record {
    held = λ other open_. elim (Bool-cases (nat_beq other t.next_conn)) [
      | inl same ↦
          let is : other ≡ t.next_conn = (nat_beq_iff other t.next_conn).0 same in
          inr (call, ground arith)
      | inr differs ↦ elim (sound.held other (ground arith)) [
        | inl placed ↦ inl placed
        | inr (c, carried) ↦ inr (c, still c other carried)
      ]
    ];
    single = sound.single;
    awaited = sound.awaited;
    fresh = sound.fresh;
    busy = λ c conn carried. elim (Bool-cases (nat_beq c call)) [
      | inl same ↦ (group, ap t.working ((nat_beq_iff c call).0 same) ∙ worker)
      | inr differs ↦ sound.busy c conn (ground arith)
    ];
    swept = sound.swept;
  }
    where
      still :
          (c conn : ℕ)
          → t.carried c ≡ some conn
          → write_at call (some t.next_conn) t.carried c ≡ some conn
      still c conn carried = elim (Bool-cases (nat_beq c call)) [
        | inl same ↦ absurd (no_both (sym (ap t.carried ((nat_beq_iff c call).0 same)) ∙ carried))
        | inr differs ↦ ground arith
      ]
        where
          no_both : t.carried call ≡ some conn → ⊥
          no_both found = cc

  module _ (group : String) (call : ℕ) (worker : t.working call ≡ some group)
      (awaits : lookup group t.connecting ≡ some call) where
    -- Another call that is under way is another number.
    other_call :
        (other : String) (c : ℕ)
        → (group == other) ≡ false
        → lookup other t.connecting ≡ some c
        → nat_beq c call ≡ false
    other_call other c differs found = elim (Bool-cases (nat_beq c call)) [
      | inl same ↦
          let is : c ≡ call = (nat_beq_iff c call).0 same in
          let (conn, waits, working, lt) = sound.single other c found in
          let group_is : some group ≡ some other = sym worker ∙ ap t.working (sym is) ∙ working in
          absurd (
            no_both (group == other)
              ((Comparable_string.same_iff group other).1 (some-injective group other group_is))
              differs)
      | inr other_number ↦ other_number
    ]
      where
        no_both : (b : Bool) → b ≡ true → b ≡ false → ⊥
        no_both true first second = cc
        no_both false first second = cc

    pub end_call-IsSound : (result : Option ℕ) → IsSound (end_call group call result t)
    end_call-IsSound result = record {
      held = sound.held;
      single = λ other c found.
          let (differs, old) = removed group other t.connecting found in
          let (conn, waits, working, lt) = sound.single other c old in
          let number = other_call other c differs old in (conn, ground arith, working, lt);
      awaited = λ c lt waits.
          let (number, still) = pending_still c waits in
          let (other, found) = sound.awaited c lt still in
          (
            other,
            elim (Bool-cases (group == other)) [
              | inl same ↦
                  let called : some call ≡ some c =
                    sym awaits
                    ∙ ap (λ g. lookup g t.connecting) (same_key group other same)
                    ∙ found in
                  absurd (differ c number (sym (some-injective call c called)))
              | inr differs ↦ ground (arith, lookup-remove group other t.connecting)
            ],
          );
      fresh = λ c new_.
          let (conn, waits, working, lt) = sound.single group call awaits in
          let old = sound.fresh c new_ in ground arith;
      busy = sound.busy;
      swept = sound.swept;
    }
      where
        pending_still :
            (c : ℕ)
            → write_at call (some result) t.calls c ≡ none
            → (nat_beq c call ≡ false) × (t.calls c ≡ none)
        pending_still c waits = ground arith

        differ : (c : ℕ) → nat_beq c call ≡ false → c ≢ call
        differ c number = ground arith

    -- The new connection of the call takes its place in the table.
    pub keeps-IsSound :
        (conn : ℕ)
        → t.closed ≡ false
        → IsSound (end_call group call (some conn) (record t { conns = insert group conn t.conns }))
    keeps-IsSound conn open_ =
        let ended = end_call-IsSound (some conn) in
        let (no_conn, waits_, working_, lt_) = sound.single group call awaits in
        record {
          held = λ other is. elim (sound.held other is) [
            | inl (inl (g, place)) ↦ inl (inl (g, kept group g conn t.conns no_conn place))
            | inl (inr doomed) ↦ inl (inr doomed)
            | inr carried ↦ inr carried
          ];
          single = λ other c found.
              let (differs, old) = removed group other t.connecting found in
              let (no_other, waits, working, lt) = ended.single other c found in
              (ground (arith, lookup-insert group other conn t.conns), waits, working, lt);
          awaited = ended.awaited;
          fresh = ended.fresh;
          busy = sound.busy;
          swept = λ closed swept. absurd (cc_of closed);
        }
      where
        cc_of : t.closed ≡ true → ⊥
        cc_of closed = cc
