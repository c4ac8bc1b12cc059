-- ===== src/ConnTable.antt =====
-- client/atrust/l3tunnel.go: the table of L3 connections by node group, with the dials under way. A
-- connection and a call are their numbers. Each function is a part of a method that holds connsMu,
-- but for the dial, connect_conn: the connection that a worker makes it alone holds until it calls
-- finishConnect. What a method does behind the mutex, closing connections, is a step of its own, from
-- the list `doomed`. Timers and the packets are left out.
pub mod Reach
pub mod Calls
pub mod Finishing
pub mod Sound
pub mod Accounting
mod Examples
use Prim.Native.String.{String}
use distrust_core.Base.{
  ℕ, zero, suc, ◌+◌, ◌-◌, ◌*◌, ◌/◌, ◌%◌, ◌^◌, ◌≤◌, ◌<◌, ◌≡◌, refl, sym, ap, ◌∙◌, subst, ◌≢◌, ◌↔◌,
  ◌⊎◌, inl, inr, Bool, true, false, not, ◌&&◌, ◌||◌, Option, none, some, List, [], ◌∷◌, ◌++◌, map,
  arith, ltb→lt, leb→le, ltb, leb, nat_beq, if◌then◌else◌, ◌==◌, Comparable_nat, Comparable_string,
  ==_self, Bool-cases, nat_beq_iff, Option-cases, if_both, option_both, length, get_elem?, set,
  take, drop, All, length-append, length-take, length-drop, length-set, take-append-drop,
  take-append_length, drop-append_length, All-append, All-implies, get_elem?-append, drop-append,
  take-append_le, drop-append_le, take-all, append_assoc_list, append_nil_list, ℤ, pos, negsuc,
  leb_ℤ, Outcome, ok, err, panic, ◌>>◌, guard, or_panic, or_err, then_some, then_some_gave,
  chain_gave, or_panic_gave, lookup, insert, remove, lookup-insert, lookup-remove, length-insert,
  length-insert_present, length-remove, length-remove_present, Bytes, IsByte, AreBytes, join16,
  join32, be16, be32, slice, put, put16, copy_at, get16,
}

-- `closed` is whether closeCh is closed, `sweeping` whether Close has still to empty the table.
-- A call is `none` while it waits, then its connection, or none for an error. `is_open` and
-- `address` are of connections; `working` gives the group of the goroutine in
-- connectWithRetry that is to end a call, `carried` the connection that it has made and has still to
-- hand to finishConnect.
pub record L3Tunnel : Type 0 where
  pub conns : List (String × ℕ)
  pub connecting : List (String × ℕ)
  pub calls : ℕ → Option (Option ℕ)
  pub next_call : ℕ
  pub next_conn : ℕ
  pub is_open : ℕ → Bool
  pub address : ℕ → String
  pub doomed : List ℕ
  pub working : ℕ → Option String
  pub carried : ℕ → Option ℕ
  pub closed : Bool
  pub sweeping : Bool

unfoldable pub new_l3_tunnel : L3Tunnel
new_l3_tunnel = record {
  conns = [];
  connecting = [];
  calls = λ call. none;
  next_call = 0;
  next_conn = 0;
  is_open = λ conn. false;
  address = λ conn. "";
  doomed = [];
  working = λ call. none;
  carried = λ call. none;
  closed = false;
  sweeping = false;
}

-- The place of a number in a store is written.
abbrev pub write_at {ℓ} : {A : Type ℓ} → ℕ → A → (ℕ → A) → ℕ → A
write_at n value store m = if nat_beq m n then value else store m

-- A call of its own, with the goroutine that makes the connection.
unfoldable pub start_call : String → L3Tunnel → L3Tunnel
start_call group t = record t {
  connecting = insert group t.next_call t.connecting;
  next_call = suc t.next_call;
  working = write_at t.next_call (some group) t.working;
}

-- What getConn answers: a connection, or a call to wait for.
pub data Got : Type 0 where
  connected waits : ℕ → Got

unfoldable pub get_conn : String → L3Tunnel → Got × L3Tunnel
unfolding start_call
get_conn group t = elim (lookup group t.conns) [
  | some conn ↦ (connected conn, t)
  | none ↦ elim (lookup group t.connecting) [
    | some call ↦ (waits call, t)
    | none ↦ (waits t.next_call, start_call group t)
  ]
]

unfoldable pub start_reconnect : String → L3Tunnel → L3Tunnel
unfolding start_call
start_reconnect group t = if t.closed then t else elim (lookup group t.conns) [
  | some conn ↦ t
  | none ↦ elim (lookup group t.connecting) [ some call ↦ t | none ↦ start_call group t ]
]

-- `call.done` is closed, with the connection or an error.
abbrev pub end_call : String → ℕ → Option ℕ → L3Tunnel → L3Tunnel
end_call group call result t = record t {
  connecting = remove group t.connecting;
  calls = write_at call (some result) t.calls;
}

abbrev pub doom : Option ℕ → L3Tunnel → L3Tunnel
doom none t = t
doom (some conn) t = record t { doomed = conn ∷ t.doomed }

-- The end of a call whose connection is still awaited.
abbrev pub finish_awaited : String → ℕ → Option ℕ → L3Tunnel → L3Tunnel
finish_awaited group call none t = end_call group call none t
finish_awaited group call (some conn) t =
    if t.closed
    then doom (some conn) (end_call group call none t)
    else end_call group call (some conn) (record t { conns = insert group conn t.conns })

unfoldable pub finish_connect : String → ℕ → Option ℕ → L3Tunnel → L3Tunnel
finish_connect group call conn t = elim (lookup group t.connecting) [
  | none ↦ doom conn t
  | some awaited ↦ if nat_beq awaited call then finish_awaited group call conn t else doom conn t
]

-- The goroutine that is to end a call returns.
abbrev pub returns : ℕ → L3Tunnel → L3Tunnel
returns call t = record t {
  working = write_at call none t.working;
  carried = write_at call none t.carried;
}

-- The worker of a call has made a connection to an address. It does not hold the mutex.
unfoldable pub connect_conn : ℕ → String → L3Tunnel → L3Tunnel
connect_conn call addr t = record t {
  next_conn = suc t.next_conn;
  is_open = write_at t.next_conn true t.is_open;
  address = write_at t.next_conn addr t.address;
  carried = write_at call (some t.next_conn) t.carried;
}

-- The worker of a call hands the connection that it has made to finishConnect, and returns.
unfoldable pub finish_dial : String → ℕ → L3Tunnel → L3Tunnel
unfolding finish_connect
finish_dial group call t = elim (t.carried call) [
  | none ↦ t
  | some conn ↦ returns call (finish_connect group call (some conn) t)
]

-- `net.ErrClosed`, which a worker answers only when the tunnel is closed
unfoldable pub connect_gives_up : String → ℕ → L3Tunnel → L3Tunnel
unfolding finish_connect
connect_gives_up group call t =
    if t.closed then returns call (finish_connect group call none t) else t

unfoldable pub evict_conn : String → ℕ → L3Tunnel → L3Tunnel
evict_conn group conn t = elim (lookup group t.conns) [
  | none ↦ t
  | some existing ↦
      if nat_beq existing conn
      then record t { conns = remove group t.conns; doomed = conn ∷ t.doomed }
      else t
]

abbrev pub text_at : List (String × String) → String → String
text_at entries key = elim (lookup key entries) [ some text ↦ text | none ↦ "" ]

-- Is the connection of the group to another node than the best one?
unfoldable pub is_stale : List (String × String) → String → L3Tunnel → String → ℕ → Bool
is_stale best_nodes major_node_group t group conn =
    let of_group = text_at best_nodes group in
    let addr = if of_group == "" then text_at best_nodes major_node_group else of_group in
    not (addr == "") && not (t.address conn == addr)

-- The loop of evictStaleConns over the table: what stays, and what is closed.
unfoldable pub split_stale : (String → ℕ → Bool) → List (String × ℕ) → List (String × ℕ) × List ℕ
split_stale stale [] = ([], [])
split_stale stale ((group, conn) ∷ conns) =
    let (kept, removed) = split_stale stale conns in
    if stale group conn then (kept, conn ∷ removed) else ((group, conn) ∷ kept, removed)

unfoldable pub evict_stale_conns : List (String × String) → String → L3Tunnel → L3Tunnel
unfolding split_stale is_stale
evict_stale_conns best_nodes major_node_group t =
    let (kept, removed) = split_stale (is_stale best_nodes major_node_group t) t.conns in
    record t { conns = kept; doomed = removed ++ t.doomed }

abbrev pub values : List (String × ℕ) → List ℕ
values [] = []
values ((group, conn) ∷ conns) = conn ∷ values conns

-- Close, up to connsMu and behind it. Only the first call does anything.
unfoldable pub close_begins : L3Tunnel → L3Tunnel
close_begins t = if t.closed then t else record t { closed = true; sweeping = true }

unfoldable pub close_sweeps : L3Tunnel → L3Tunnel
close_sweeps t =
    if t.sweeping
    then record t { conns = []; doomed = values t.conns ++ t.doomed; sweeping = false }
    else t

-- `conn.Close()` of a connection that was taken out of the table
unfoldable pub close_doomed : L3Tunnel → L3Tunnel
close_doomed t = elim t.doomed [
  | [] ↦ t
  | conn ∷ rest ↦ record t { is_open = write_at conn false t.is_open; doomed = rest }
]
