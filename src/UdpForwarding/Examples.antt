-- ===== src/UdpForwarding/Examples.antt =====
-- A concrete run of UDP forwarding.
use distrust_core.UdpForwarding.{UdpDatagram, UdpForward, new_udp_forward, receive, deliver}
use distrust_core.UdpForwarding.Budget.{Reach, starts, goes, receives, delivers, held, load, total}
use distrust_core.UdpForwarding.Datagrams.{Reach-queued_bytes}
use distrust_core.Base.{◌+◌, ◌≤◌, ◌≡◌, refl, ◌≢◌, false, [], ◌∷◌, Comparable_nat, Comparable_string}

abbrev datagram : UdpDatagram
datagram = record { data_ = 1 ∷ 2 ∷ []; buffered = false; accounted_bytes = 0 }

abbrev before : UdpForward
before = new_udp_forward 2 100

abbrev queued_one : UdpForward
queued_one = deliver 5 "10.0.0.1:53" (receive datagram before)

queued_one-Reach : Reach queued_one
queued_one-Reach =
    goes _ _ (goes _ _ (starts 2 100) (receives datagram before refl)) (delivers 5 "10.0.0.1:53" _)

Reach-queued_bytes_example :
    (queued_one.queued_bytes
      ≡ held queued_one.in_flight + total queued_one.next_conn (λ n. load (queued_one.conns n)))
    × (queued_one.max_queued_bytes ≢ 0 → queued_one.queued_bytes ≤ queued_one.max_queued_bytes)
Reach-queued_bytes_example = Reach-queued_bytes queued_one queued_one-Reach
