-- ===== src/UdpForwarding.antt =====
-- service/udp_forwarding.go: the sessions of UDP forwarding, their queues and the budget of queued
-- bytes. An address with its port is a text; a session is its number. The goroutine that reads the
-- socket and those of the sessions take steps: each function is what one of them does under a mutex
-- or on a channel. Sockets, callbacks and the pool of buffers are left out. A limit of 0 is none.
pub mod Budget
pub mod Accounting
pub mod Datagrams
mod Examples
use Prim.Native.String.{String}
use distrust_core.Base.{
  ℕ, zero, suc, ◌+◌, ◌-◌, ◌*◌, ◌/◌, ◌%◌, ◌^◌, ◌≤◌, ◌<◌, ◌≡◌, refl, sym, ap, ◌∙◌, subst, ◌≢◌, ◌↔◌,
  ◌⊎◌, inl, inr, Bool, true, false, not, ◌&&◌, ◌||◌, Option, none, some, List, [], ◌∷◌, ◌++◌, map,
  arith, ltb→lt, leb→le, ltb, leb, nat_beq, if◌then◌else◌, ◌==◌, Comparable_nat, Comparable_string,
  ==_self, Bool-cases, nat_beq_iff, Option-cases, if_both, option_both, length, get_elem?, set,
  take, drop, All, length-append, length-take, length-drop, length-set, take-append-drop,
  take-append_length, drop-append_length, All-append, All-implies, get_elem?-append, drop-append,
  take-append_le, drop-append_le, take-all, append_assoc_list, append_nil_list, ℤ, pos, negsuc,
  leb_ℤ, Outcome, ok, err, panic, ◌>>◌, guard, or_panic, or_err, then_some, then_some_gave,
  chain_gave, or_panic_gave, lookup, insert, remove, lookup-insert, lookup-remove, length-insert,
  length-insert_present, length-remove, length-remove_present, Bytes, IsByte, AreBytes, join16,
  join32, be16, be32, slice, put, put16, copy_at, get16,
}

pub record UdpDatagram : Type 0 where
  pub data_ : Bytes
  pub buffered : Bool
  pub accounted_bytes : ℕ

-- `taken` is the datagram that the session's goroutine is writing; `in_lru` is whether lruElement is
-- set.
pub record UdpConnection : Type 0 where
  pub send : List UdpDatagram
  pub taken : Option UdpDatagram
  pub closed : Bool
  pub in_lru : Bool
  pub last_active : ℕ

-- `in_flight` is the datagram that the reading goroutine has reserved bytes for; the front of `lru`
-- is the oldest session's key; `panicked` is whether a nil session was used.
pub record UdpForward : Type 0 where
  pub connections : List (String × ℕ)
  pub lru : List String
  pub conns : ℕ → UdpConnection
  pub next_conn : ℕ
  pub queued_bytes : ℕ
  pub max_connections : ℕ
  pub max_queued_bytes : ℕ
  pub in_flight : Option UdpDatagram
  pub panicked : Bool

abbrev pub new_connection : UdpConnection
new_connection = record { send = []; taken = none; closed = false; in_lru = false; last_active = 0 }

unfoldable pub new_udp_forward : ℕ → ℕ → UdpForward
new_udp_forward max_connections max_queued_bytes = record {
  connections = [];
  lru = [];
  conns = λ conn. new_connection;
  next_conn = 0;
  queued_bytes = 0;
  max_connections = max_connections;
  max_queued_bytes = max_queued_bytes;
  in_flight = none;
  panicked = false;
}

abbrev pub write_conn : ℕ → UdpConnection → UdpForward → UdpForward
write_conn n c u = record u { conns = λ m. if nat_beq m n then c else u.conns m }

abbrev pub buffer_size : ℕ
buffer_size = 40960

-- The bytes that a datagram counts for, once they are reserved; none if the budget is exceeded. The
-- test is `bytes > u.maxQueuedBytes-used` of signed integers.
unfoldable pub reserve_datagram : UdpDatagram → UdpForward → Option (UdpDatagram × UdpForward)
reserve_datagram d u =
    let bytes = if d.buffered then buffer_size else length d.data_ in
    if nat_beq u.max_queued_bytes 0
    then some (d, u)
    else (if leb (u.queued_bytes + bytes) u.max_queued_bytes
        then some (
          record d { accounted_bytes = bytes },
          record u { queued_bytes = u.queued_bytes + bytes },
        )
        else none)

unfoldable pub release_datagram : UdpDatagram → UdpForward → UdpForward
release_datagram d u = record u { queued_bytes = u.queued_bytes - d.accounted_bytes }

abbrev without : String → List String → List String
without key [] = []
without key (k ∷ ks) = let rest = without key ks in if key == k then rest else k ∷ rest

abbrev touch : ℕ → UdpConnection → UdpConnection
touch now c = record c { last_active = now }

-- `markConnectionActiveLocked`: PushBack for a session that is not in the list, else MoveToBack
unfoldable pub mark_active_locked : ℕ → String → ℕ → UdpForward → UdpForward
mark_active_locked now key n u =
    write_conn n (record (touch now (u.conns n)) { in_lru = true })
      (record u { lru = (if (u.conns n).in_lru then without key u.lru else u.lru) ++ key ∷ [] })

unfoldable pub mark_connection_active : ℕ → String → ℕ → UdpForward → UdpForward
unfolding mark_active_locked
mark_connection_active now key n u = elim (lookup key u.connections) [
  | none ↦ u
  | some m ↦ if nat_beq m n then mark_active_locked now key n u else u
]

-- The oldest session leaves the table, and is answered.
unfoldable pub make_room : UdpForward → Option ℕ × UdpForward
make_room u =
    if nat_beq u.max_connections 0 || ltb (length u.connections) u.max_connections
    then (none, u)
    else elim u.lru [
      | [] ↦ (none, u)
      | key ∷ rest ↦ elim (lookup key u.connections) [
        | none ↦ (none, record u { panicked = true })
        | some oldest ↦ (
          some oldest,
          write_conn oldest (record (u.conns oldest) { in_lru = false })
              (record u { connections = remove key u.connections; lru = rest }),
        )
      ]
    ]

unfoldable pub close_connection : ℕ → UdpForward → UdpForward
close_connection n u = write_conn n (record (u.conns n) { closed = true }) u

abbrev close_evicted : Option ℕ → UdpForward → UdpForward
close_evicted none u = u
close_evicted (some n) u = close_connection n u

abbrev add_connection : ℕ → String → UdpForward → UdpForward
add_connection now key u = mark_active_locked now key u.next_conn (
    write_conn u.next_conn new_connection (record u {
      connections = insert key u.next_conn u.connections;
      next_conn = suc u.next_conn;
    }))

unfoldable pub get_or_create_connection : ℕ → String → UdpForward → ℕ × UdpForward
unfolding mark_active_locked make_room close_connection
get_or_create_connection now key u = elim (lookup key u.connections) [
  | some n ↦ (n, mark_active_locked now key n u)
  | none ↦
      let (evicted, roomy) = make_room u in
      (u.next_conn, close_evicted evicted (add_connection now key roomy))
]

abbrev pub queue_size : ℕ
queue_size = 64

unfoldable pub enqueue : ℕ → UdpDatagram → ℕ → UdpForward → Option UdpForward
enqueue now d n u =
    if (u.conns n).closed || leb queue_size (length (u.conns n).send)
    then none
    else some
        (write_conn n (touch now (record (u.conns n) { send = (u.conns n).send ++ d ∷ [] })) u)

-- `handleOwned` up to the session: bytes are reserved, or the datagram is dropped.
unfoldable pub receive : UdpDatagram → UdpForward → UdpForward
unfolding reserve_datagram
receive d u = elim u.in_flight [
  | some busy ↦ u
  | none ↦ elim (reserve_datagram d u) [
    | none ↦ u
    | some (reserved, v) ↦ record v { in_flight = some reserved }
  ]
]

-- The rest of `handleOwned`: the datagram is queued for its session, or dropped.
unfoldable pub deliver : ℕ → String → UdpForward → UdpForward
unfolding get_or_create_connection enqueue release_datagram
deliver now key u = elim u.in_flight [
  | none ↦ u
  | some d ↦
      let (n, v) = get_or_create_connection now key u in
      let settled : UdpForward = elim (enqueue now d n v) [
        | some queued ↦ queued
        | none ↦ release_datagram d v
      ] in
      record settled { in_flight = none }
]

-- The session's goroutine takes a datagram from its queue, and releases it when it is written.
unfoldable pub take_datagram : ℕ → UdpForward → UdpForward
take_datagram n u = elim ((u.conns n).taken) [
  | some busy ↦ u
  | none ↦ elim ((u.conns n).send) [
    | [] ↦ u
    | d ∷ rest ↦ write_conn n (record (u.conns n) { send = rest; taken = some d }) u
  ]
]

unfoldable pub write_datagram : ℕ → UdpForward → UdpForward
unfolding release_datagram
write_datagram n u = elim ((u.conns n).taken) [
  | none ↦ u
  | some d ↦ release_datagram d (write_conn n (record (u.conns n) { taken = none }) u)
]

unfoldable pub remove_connection : String → ℕ → UdpForward → UdpForward
remove_connection key n u = elim (lookup key u.connections) [
  | none ↦ u
  | some m ↦
      if nat_beq m n
      then write_conn n (record (u.conns n) { in_lru = false })
          (record u {
            connections = remove key u.connections;
            lru = if (u.conns n).in_lru then without key u.lru else u.lru;
          })
      else u
]

-- The loop that releases what is left in the queue of a session that ends.
unfoldable pub drain_queue : ℕ → UdpForward → UdpForward
unfolding release_datagram
drain_queue n u = elim ((u.conns n).send) [
  | [] ↦ u
  | d ∷ rest ↦ release_datagram d (write_conn n (record (u.conns n) { send = rest }) u)
]
