-- ===== src/ConnTable/Sound.antt =====
-- client/atrust/l3tunnel.go: what holds in every state that an L3 tunnel can reach.
use Prim.Native.String.{String}
use mathlib.Core.Option.{some-injective}
use distrust_core.ConnTable.{
  L3Tunnel, Got, write_at, get_conn, start_reconnect, evict_conn, is_stale, split_stale,
  evict_stale_conns, values, close_begins, close_sweeps, close_doomed,
}
use distrust_core.Base.{
  ℕ, ◌≡◌, refl, sym, ap, ◌∙◌, ◌⊎◌, inl, inr, Bool, true, false, none, some, List, [], ◌∷◌, ◌++◌,
  arith, nat_beq, ◌==◌, Comparable_nat, Comparable_string, Bool-cases, if_both, option_both, lookup,
  remove, lookup-remove,
}
use distrust_core.ConnTable.Reach.{
  Step, got, reconnects, dials, finishes, gives_up, evicts, evicts_stale, begins, sweeps, closes,
  Reach, starts, goes, has, IsSound, new_l3_tunnel-IsSound,
}
use distrust_core.Base.TextMaps.{same_key}
use distrust_core.ConnTable.Finishing.{finish_dial-IsSound, connect_gives_up-IsSound}
use distrust_core.ConnTable.Calls.{start_call-IsSound, connect_conn-IsSound}

has-append_left : (n : ℕ) (ms ns : List ℕ) → has n ms ≡ true → has n (ms ++ ns) ≡ true
has-append_left n [] ns among = cc
has-append_left n (m ∷ ms) ns among = ground (arith, has-append_left n ms ns)

has-append_right : (n : ℕ) (ms ns : List ℕ) → has n ns ≡ true → has n (ms ++ ns) ≡ true
has-append_right n [] ns among = among
has-append_right n (m ∷ ms) ns among = ground (arith, has-append_right n ms ns)

abbrev pub no_conns : List (String × ℕ)
no_conns = []

pub lookup_nothing : (group : String) → lookup group no_conns ≡ none
unfolding lookup
lookup_nothing group = refl

remove_nothing : (group : String) → remove group no_conns ≡ []
unfolding remove
remove_nothing group = refl

has_value :
    (group : String) (conn : ℕ) (conns : List (String × ℕ))
    → lookup group conns ≡ some conn
    → has conn (values conns) ≡ true
unfolding lookup
has_value group conn [] place = cc
has_value group conn ((first, found) ∷ conns) place = ground (arith, has_value group conn conns)

module _ (stale : String → ℕ → Bool) where
  split_stale_nothing : (split_stale stale []).0 ≡ []
  unfolding split_stale
  split_stale_nothing = refl

  split_stale_absent :
      (group : String) (conns : List (String × ℕ))
      → lookup group conns ≡ none
      → lookup group (split_stale stale conns).0 ≡ none
  unfolding split_stale lookup
  split_stale_absent group [] missing = refl
  split_stale_absent group ((first, found) ∷ conns) missing =
      ground (arith, split_stale_absent group conns)

  split_stale_present :
      (group : String) (conn : ℕ) (conns : List (String × ℕ))
      → lookup group conns ≡ some conn
      → (lookup group (split_stale stale conns).0 ≡ some conn)
        ⊎ (has conn (split_stale stale conns).1 ≡ true)
  unfolding split_stale lookup
  split_stale_present group conn [] place = cc
  split_stale_present group conn ((first, found) ∷ conns) place =
      ground (arith, split_stale_present group conn conns)

module _ (t : L3Tunnel) (sound : IsSound t) where
  get_conn-IsSound : (group : String) → IsSound (get_conn group t).1
  unfolding get_conn
  get_conn-IsSound group =
      let P : Got × L3Tunnel → Type 0 = λ answer. IsSound answer.1 in
      option_both P (lookup group t.conns)
        (λ no_conn.
          option_both P (lookup group t.connecting)
            (λ no_call. start_call-IsSound t sound group no_conn no_call) (λ call _. sound))
        (λ conn _. sound)

  start_reconnect-IsSound : (group : String) → IsSound (start_reconnect group t)
  unfolding start_reconnect
  start_reconnect-IsSound group =
      if_both IsSound t.closed (λ _. sound)
        λ _.
          option_both IsSound (lookup group t.conns)
            (λ no_conn.
              option_both IsSound (lookup group t.connecting)
                (λ no_call. start_call-IsSound t sound group no_conn no_call) (λ call _. sound))
            (λ conn _. sound)

  -- The table shrinks, and what leaves it is to be closed.
  shrinks-IsSound :
      (conns : List (String × ℕ)) (leaving : List ℕ) (sweeping : Bool)
      → ((group : String) → lookup group t.conns ≡ none → lookup group conns ≡ none)
      → ((group : String) (conn : ℕ)
          → lookup group t.conns ≡ some conn
          → (lookup group conns ≡ some conn) ⊎ (has conn leaving ≡ true))
      → (t.closed ≡ true → sweeping ≡ false → conns ≡ [])
      → IsSound (record t { conns = conns; doomed = leaving ++ t.doomed; sweeping = sweeping })
  shrinks-IsSound conns leaving sweeping absent present empty = record {
    held = λ conn open_. elim (sound.held conn open_) [
      | inl (inl (group, place)) ↦ elim (present group conn place) [
        | inl stays ↦ inl (inl (group, stays))
        | inr leaves ↦ inl (inr (has-append_left conn leaving t.doomed leaves))
      ]
      | inl (inr doomed) ↦ inl (inr (has-append_right conn leaving t.doomed doomed))
      | inr carried ↦ inr carried
    ];
    single = λ group call found.
        let (no_conn, waits, working, lt) = sound.single group call found in
        (absent group no_conn, waits, working, lt);
    awaited = sound.awaited;
    fresh = sound.fresh;
    busy = sound.busy;
    swept = empty;
  }

  evict_conn-IsSound : (group : String) (conn : ℕ) → IsSound (evict_conn group conn t)
  unfolding evict_conn
  evict_conn-IsSound group conn =
      option_both IsSound (lookup group t.conns) (λ _. sound)
        λ existing found.
          if_both IsSound (nat_beq existing conn)
            (λ same.
              shrinks-IsSound (remove group t.conns) (conn ∷ []) t.sweeping
                (λ other missing. ground (arith, lookup-remove group other t.conns))
                (λ other c place. elim (Bool-cases (group == other)) [
                  | inl here ↦
                      let e = ap (λ g. lookup g t.conns) (same_key group other here) in
                      let is : existing ≡ c = some-injective existing c (sym found ∙ e ∙ place) in
                      inr (ground arith)
                  | inr elsewhere ↦ inl (ground (arith, lookup-remove group other t.conns))
                ])
                (λ closed swept.
                  ap (remove group) (sound.swept closed swept) ∙ remove_nothing group))
            (λ _. sound)

  evict_stale_conns-IsSound :
      (best_nodes : List (String × String)) (major : String)
      → IsSound (evict_stale_conns best_nodes major t)
  unfolding evict_stale_conns
  evict_stale_conns-IsSound best_nodes major =
      let stale = is_stale best_nodes major t in
      shrinks-IsSound (split_stale stale t.conns).0 (split_stale stale t.conns).1 t.sweeping
        (λ group. split_stale_absent stale group t.conns)
        (λ group conn. split_stale_present stale group conn t.conns)
        (λ closed swept.
          ap (λ m. (split_stale stale m).0) (sound.swept closed swept) ∙ split_stale_nothing stale)

  close_sweeps-IsSound : IsSound (close_sweeps t)
  unfolding close_sweeps
  close_sweeps-IsSound =
      if_both IsSound t.sweeping
        (λ _.
          shrinks-IsSound [] (values t.conns) false (λ group _. lookup_nothing group)
            (λ group conn place. inr (has_value group conn t.conns place)) (λ closed swept. refl))
        (λ _. sound)

  close_doomed-IsSound : IsSound (close_doomed t)
  unfolding close_doomed
  close_doomed-IsSound = closing t.doomed refl
    where
      left_over :
          (conn other : ℕ) (rest : List ℕ)
          → has other (conn ∷ rest) ≡ true
          → write_at conn false t.is_open other ≡ true
          → has other rest ≡ true
      left_over conn other rest among open_ = ground arith

      closing :
          (doomed : List ℕ)
          → t.doomed ≡ doomed
          → IsSound (elim doomed [
            | [] ↦ t
            | conn ∷ rest ↦ record t { is_open = write_at conn false t.is_open; doomed = rest }
          ])
      closing [] is = sound
      closing (conn ∷ rest) is = record {
        held = λ other open_. elim (sound.held other (ground arith)) [
          | inl (inl place) ↦ inl (inl place)
          | inl (inr doomed) ↦
              inl (inr (left_over conn other rest (ap (has other) (sym is) ∙ doomed) open_))
          | inr carried ↦ inr carried
        ];
        single = sound.single;
        awaited = sound.awaited;
        fresh = sound.fresh;
        busy = sound.busy;
        swept = sound.swept;
      }

  close_begins-IsSound : IsSound (close_begins t)
  unfolding close_begins
  close_begins-IsSound =
      if_both IsSound t.closed (λ _. sound)
        λ _. record {
          held = sound.held;
          single = sound.single;
          awaited = sound.awaited;
          fresh = sound.fresh;
          busy = sound.busy;
          swept = λ closed swept. cc;
        }

Step-IsSound : (t u : L3Tunnel) → Step t u → IsSound t → IsSound u
Step-IsSound _ _ (got group t) sound = get_conn-IsSound t sound group
Step-IsSound _ _ (reconnects group t) sound = start_reconnect-IsSound t sound group
Step-IsSound _ _ (dials group call addr t worker idle) sound =
    connect_conn-IsSound t sound group call addr worker idle
Step-IsSound _ _ (finishes group call t worker) sound =
    finish_dial-IsSound t sound group call worker
Step-IsSound _ _ (gives_up group call t worker idle) sound =
    connect_gives_up-IsSound t sound group call worker idle
Step-IsSound _ _ (evicts group conn t) sound = evict_conn-IsSound t sound group conn
Step-IsSound _ _ (evicts_stale best_nodes major t) sound =
    evict_stale_conns-IsSound t sound best_nodes major
Step-IsSound _ _ (begins t) sound = close_begins-IsSound t sound
Step-IsSound _ _ (sweeps t) sound = close_sweeps-IsSound t sound
Step-IsSound _ _ (closes t) sound = close_doomed-IsSound t sound

pub Reach-IsSound : (t : L3Tunnel) → Reach t → IsSound t
Reach-IsSound _ starts = new_l3_tunnel-IsSound
Reach-IsSound _ (goes t u reach step) = Step-IsSound t u step (Reach-IsSound t reach)
