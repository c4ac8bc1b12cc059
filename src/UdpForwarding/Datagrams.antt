-- ===== src/UdpForwarding/Datagrams.antt =====
-- service/udp_forwarding.go: the way of a datagram keeps the account of the queued bytes.
use Prim.Native.String.{String}
use distrust_core.UdpForwarding.{
  UdpDatagram, UdpConnection, UdpForward, new_udp_forward, write_conn, reserve_datagram,
  release_datagram, mark_connection_active, get_or_create_connection, enqueue, receive, deliver,
  take_datagram, write_datagram, drain_queue, buffer_size, queue_size,
}
use distrust_core.UdpForwarding.Budget.{
  Step, receives, delivers, takes, writes, answers, closes, removes, drains, Reach, starts, goes,
  held, queued, load, total, queued-append, IsAccounted, change-IsAccounted, load_counted, known,
}
use distrust_core.Base.{
  ℕ, ◌+◌, ◌-◌, ◌≤◌, ◌<◌, ◌≡◌, refl, ap, ◌∙◌, ◌≢◌, inl, ◌||◌, Option, none, some, List, [], ◌∷◌,
  arith, leb→le, leb, nat_beq, if◌then◌else◌, Comparable_nat, Comparable_string, if_both,
  option_both, length, lookup,
}
use distrust_core.UdpForwarding.Accounting.{
  quiet-IsAccounted, mark_active_locked-IsAccounted, close_connection-IsAccounted,
  remove_connection-IsAccounted, get_or_create_connection-Found,
}

module _ (u : UdpForward) (accounted : IsAccounted u) where
  receive-IsAccounted : (d : UdpDatagram) → d.accounted_bytes ≡ 0 → IsAccounted (receive d u)
  unfolding receive reserve_datagram
  receive-IsAccounted d unreserved =
      option_both IsAccounted u.in_flight
        (λ idle.
          let Kept : Option (UdpDatagram × UdpForward) → Type 0 = λ o.
            IsAccounted (elim o [ none ↦ u | some r ↦ record (r.1) { in_flight = some (r.0) } ]) in
          let bytes = if d.buffered then buffer_size else length d.data_ in
          let nothing : held u.in_flight ≡ 0 = ap held idle in
          if_both Kept (nat_beq u.max_queued_bytes 0)
            (λ _. record {
              balance = omega (arith, accounted.balance, nothing, unreserved);
              within = accounted.within;
              unused = accounted.unused;
              given = accounted.given;
            })
            (λ _.
              if_both Kept (leb (u.queued_bytes + bytes) u.max_queued_bytes)
                (λ fits. record {
                  balance = omega (arith, accounted.balance, nothing);
                  within = λ _. leb→le (u.queued_bytes + bytes) u.max_queued_bytes fits;
                  unused = accounted.unused;
                  given = accounted.given;
                })
                (λ _. accounted)))
        (λ busy _. accounted)

  -- A session releases a datagram that it held.
  release-IsAccounted :
      (n : ℕ) (c : UdpConnection) (d : UdpDatagram)
      → load (u.conns n) ≡ load c + d.accounted_bytes
      → IsAccounted (release_datagram d (write_conn n c u))
  unfolding release_datagram
  release-IsAccounted n c d holds =
      let counted = load_counted u accounted n in
      change-IsAccounted u accounted n c (u.queued_bytes - d.accounted_bytes) u.in_flight
        (omega (arith, holds, counted))
        (λ limited. let within = accounted.within limited in omega arith)
        (known u accounted n c (omega (arith, holds)))

  take_datagram-IsAccounted : (n : ℕ) → IsAccounted (take_datagram n u)
  unfolding take_datagram
  take_datagram-IsAccounted n =
      option_both IsAccounted ((u.conns n).taken) (λ idle. from_queue (u.conns n).send refl idle)
        (λ busy _. accounted)
    where
      from_queue :
          (send : List UdpDatagram)
          → (u.conns n).send ≡ send
          → (u.conns n).taken ≡ none
          → IsAccounted (elim send [
            | [] ↦ u
            | d ∷ rest ↦ write_conn n (record (u.conns n) { send = rest; taken = some d }) u
          ])
      from_queue [] is idle = accounted
      from_queue (d ∷ rest) is idle =
          quiet-IsAccounted u accounted n _ (omega (arith, ap queued is, ap held idle))

  write_datagram-IsAccounted : (n : ℕ) → IsAccounted (write_datagram n u)
  unfolding write_datagram
  write_datagram-IsAccounted n =
      option_both IsAccounted ((u.conns n).taken) (λ _. accounted)
        λ d busy. release-IsAccounted n _ d (omega (arith, ap held busy))

  drain_queue-IsAccounted : (n : ℕ) → IsAccounted (drain_queue n u)
  unfolding drain_queue
  drain_queue-IsAccounted n = from_queue (u.conns n).send refl
    where
      from_queue :
          (send : List UdpDatagram)
          → (u.conns n).send ≡ send
          → IsAccounted (elim send [
            | [] ↦ u
            | d ∷ rest ↦ release_datagram d (write_conn n (record (u.conns n) { send = rest }) u)
          ])
      from_queue [] is = accounted
      from_queue (d ∷ rest) is = release-IsAccounted n _ d (omega (arith, ap queued is))

  -- A datagram in flight is queued, or dropped.
  settled-IsAccounted :
      (now : ℕ) (d : UdpDatagram) (n : ℕ)
      → u.in_flight ≡ some d
      → n < u.next_conn
      → IsAccounted
          (record (elim (enqueue now d n u) as (λ (o : Option UdpForward). UdpForward) [
            | some queued ↦ queued
            | none ↦ release_datagram d u
          ]) { in_flight = none })
  unfolding enqueue release_datagram
  settled-IsAccounted now d n flight lt =
      let Kept : Option UdpForward → Type 0 = λ o.
        IsAccounted
          (record (elim o as (λ (w : Option UdpForward). UdpForward) [
            | some queued ↦ queued
            | none ↦ release_datagram d u
          ]) { in_flight = none }) in
      let bytes : held u.in_flight ≡ d.accounted_bytes = ap held flight in
      if_both Kept ((u.conns n).closed || leb queue_size (length (u.conns n).send))
        (λ _. record {
          balance = omega (arith, accounted.balance, bytes);
          within = λ limited. let within = accounted.within limited in omega arith;
          unused = accounted.unused;
          given = accounted.given;
        })
        (λ _.
          change-IsAccounted u accounted n _ u.queued_bytes none
            (omega (arith, bytes, queued-append (u.conns n).send (d ∷ []))) accounted.within
            (inl lt))

deliver-IsAccounted :
    (u : UdpForward) (now : ℕ) (key : String) → IsAccounted u → IsAccounted (deliver now key u)
unfolding deliver
deliver-IsAccounted u now key accounted =
    option_both IsAccounted u.in_flight (λ _. accounted)
      λ d flight.
        let (sound, same, lt) = get_or_create_connection-Found now key u accounted in
        let r = get_or_create_connection now key u in
        settled-IsAccounted (r.1) sound now d (r.0) (same ∙ flight) lt

mark_connection_active-IsAccounted :
    (u : UdpForward) (now : ℕ) (key : String) (n : ℕ)
    → IsAccounted u
    → IsAccounted (mark_connection_active now key n u)
unfolding mark_connection_active
mark_connection_active-IsAccounted u now key n accounted =
    option_both IsAccounted (lookup key u.connections) (λ _. accounted)
      λ m _.
        if_both IsAccounted (nat_beq m n)
          (λ _. mark_active_locked-IsAccounted u accounted now key n) (λ _. accounted)

new_udp_forward-IsAccounted :
    (max_connections max_queued_bytes : ℕ)
    → IsAccounted (new_udp_forward max_connections max_queued_bytes)
unfolding new_udp_forward lookup
new_udp_forward-IsAccounted max_connections max_queued_bytes = record {
  balance = refl;
  within = λ limited. omega arith;
  unused = λ n le. refl;
  given = λ key n found. cc;
}

Step-IsAccounted : (u v : UdpForward) → Step u v → IsAccounted u → IsAccounted v
Step-IsAccounted _ _ (receives d u unreserved) accounted =
    receive-IsAccounted u accounted d unreserved
Step-IsAccounted _ _ (delivers now key u) accounted = deliver-IsAccounted u now key accounted
Step-IsAccounted _ _ (takes n u) accounted = take_datagram-IsAccounted u accounted n
Step-IsAccounted _ _ (writes n u) accounted = write_datagram-IsAccounted u accounted n
Step-IsAccounted _ _ (answers now key n u) accounted =
    mark_connection_active-IsAccounted u now key n accounted
Step-IsAccounted _ _ (closes n u) accounted = close_connection-IsAccounted u accounted n
Step-IsAccounted _ _ (removes key n u) accounted = remove_connection-IsAccounted u accounted key n
Step-IsAccounted _ _ (drains n u) accounted = drain_queue-IsAccounted u accounted n

keeps_account : (u : UdpForward) → Reach u → IsAccounted u
keeps_account _ (starts max_connections max_queued_bytes) =
    new_udp_forward-IsAccounted max_connections max_queued_bytes
keeps_account _ (goes u v reach step) = Step-IsAccounted u v step (keeps_account u reach)

-- In every state that the goroutines can reach, whatever their order, queuedBytes is exactly what the
-- datagrams that wait or are being written have reserved, and it is within its limit, where there is
-- one.
pub Reach-queued_bytes :
    (u : UdpForward)
    → Reach u
    → (u.queued_bytes ≡ held u.in_flight + total u.next_conn (λ n. load (u.conns n)))
      × (u.max_queued_bytes ≢ 0 → u.queued_bytes ≤ u.max_queued_bytes)
Reach-queued_bytes u reach =
    let accounted = keeps_account u reach in (accounted.balance, accounted.within)
