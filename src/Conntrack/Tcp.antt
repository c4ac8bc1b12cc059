-- ===== src/Conntrack/Tcp.antt =====
-- client/atrust/l3tunnelconntrack.go: observeTCP and observeTCPFin, the states of a tracked TCP
-- connection. Durations are in nanoseconds.
use Prim.Native.Nat.{bit_and}
use distrust_core.Zctcpip.Transport.{tcp_fin, tcp_syn, tcp_rst, tcp_ack}
use distrust_core.Base.{
  ℕ, ◌+◌, ◌*◌, ◌%◌, ◌^◌, ◌≤◌, ◌<◌, ◌≡◌, refl, ◌⊎◌, inl, inr, Bool, true, false, not, ◌&&◌, ◌||◌,
  arith, nat_beq, if◌then◌else◌, Comparable_nat, Comparable_string, Bool-cases,
}

abbrev pub second : ℕ
second = 1000000000

abbrev pub default_conntrack_ttl : ℕ
default_conntrack_ttl = 60 * second

abbrev pub tcp_reset_ttl : ℕ
tcp_reset_ttl = 90 * second

abbrev pub tcp_established_ttl : ℕ
tcp_established_ttl = 21600 * second

-- The constants `tcpState...`.
pub data TcpState : Type 0 where
  reset inbound_syn outbound_syn syn_ack established : TcpState
  inbound_fin inbound_first_closed outbound_fin outbound_first_closed : TcpState

-- The fields of a conntrack that TCP owns.
pub record TcpTrack : Type 0 where
  pub state : TcpState
  pub sequence : ℕ  -- uint32
  pub ttl : ℕ

-- What the tracker reads of a segment; `incoming` is direction 1.
pub record Segment : Type 0 where
  pub flags : ℕ  -- uint16
  pub sequence : ℕ  -- uint32
  pub acknowledgment : ℕ  -- uint32
  pub incoming : Bool

unfoldable pub has : ℕ → Segment → Bool
has flag s = not (nat_beq (bit_and s.flags flag) 0)

-- `acknowledgment == ct.tcpSeq+1`, in 32 bits.
unfoldable pub acknowledges : Segment → TcpTrack → Bool
acknowledges s t = nat_beq s.acknowledgment ((t.sequence + 1) % 2 ^ 32)

unfoldable pub observe_tcp_fin : Segment → TcpTrack → TcpTrack
observe_tcp_fin s t =
    if has tcp_fin s
    then record t { state = if s.incoming then inbound_fin else outbound_fin }
    else t

unfoldable pub observe_reset : Segment → TcpTrack → TcpTrack
observe_reset s t =
    if not (has tcp_syn s)
    then t
    else (if s.incoming
        then record { state = inbound_syn; sequence = s.sequence; ttl = 120 * second }
        else record { state = outbound_syn; sequence = s.sequence; ttl = 60 * second })

unfoldable pub observe_inbound_syn : Segment → TcpTrack → TcpTrack
observe_inbound_syn s t =
    if s.incoming || not (has tcp_syn s)
    then t
    else (if has tcp_ack s && acknowledges s t
        then record t { state = established; ttl = tcp_established_ttl }
        else record { state = syn_ack; sequence = s.sequence; ttl = 60 * second })

unfoldable pub observe_outbound_syn : Segment → TcpTrack → TcpTrack
observe_outbound_syn s t =
    if s.incoming && nat_beq (bit_and s.flags 18) 18 && acknowledges s t
    then record { state = syn_ack; sequence = s.sequence; ttl = 60 * second }
    else t

unfoldable pub observe_syn_ack : Segment → TcpTrack → TcpTrack
unfolding observe_tcp_fin
observe_syn_ack s t =
    if not s.incoming && has tcp_ack s && acknowledges s t
    then record t { state = established; ttl = tcp_established_ttl }
    else observe_tcp_fin s t

-- The switch on the state.
unfoldable pub observe_state : TcpState → Segment → TcpTrack → TcpTrack
unfolding observe_reset observe_inbound_syn observe_outbound_syn observe_syn_ack observe_tcp_fin
observe_state reset s t = observe_reset s t
observe_state inbound_syn s t = observe_inbound_syn s t
observe_state outbound_syn s t = observe_outbound_syn s t
observe_state syn_ack s t = observe_syn_ack s t
observe_state established s t = observe_tcp_fin s t
observe_state inbound_fin s t =
    if not s.incoming && has tcp_fin s
    then record t { state = inbound_first_closed; ttl = 120 * second }
    else t
observe_state outbound_fin s t =
    if s.incoming && has tcp_fin s
    then record t { state = outbound_first_closed; ttl = 30 * second }
    else t
observe_state inbound_first_closed s t = t
observe_state outbound_first_closed s t = t

unfoldable pub observe_tcp : Segment → TcpTrack → TcpTrack
unfolding observe_state
observe_tcp s t =
    if has tcp_rst s
    then record t { state = reset; ttl = tcp_reset_ttl }
    else observe_state t.state s
        (record t { ttl = if nat_beq t.ttl 0 then default_conntrack_ttl else t.ttl })

-- How far a connection has come.
abbrev pub progress : TcpState → ℕ
progress reset = 0
progress inbound_syn = 1
progress outbound_syn = 1
progress syn_ack = 2
progress established = 3
progress inbound_fin = 4
progress outbound_fin = 4
progress inbound_first_closed = 5
progress outbound_first_closed = 5

progress-observe_state :
    (x : TcpState) (s : Segment) (t : TcpTrack)
    → t.state ≡ x
    → progress x ≤ progress (TcpTrack.state (observe_state x s t))
unfolding observe_state observe_reset observe_inbound_syn observe_outbound_syn observe_syn_ack
    observe_tcp_fin
progress-observe_state reset s t h = ground arith
progress-observe_state inbound_syn s t h = ground arith
progress-observe_state outbound_syn s t h = ground arith
progress-observe_state syn_ack s t h = ground arith
progress-observe_state established s t h = ground arith
progress-observe_state inbound_fin s t h = ground arith
progress-observe_state outbound_fin s t h = ground arith
progress-observe_state inbound_first_closed s t h = ground arith
progress-observe_state outbound_first_closed s t h = ground arith

observe_state_ttl :
    (x : TcpState) (s : Segment) (t : TcpTrack) → 0 < t.ttl → 0 < TcpTrack.ttl (observe_state x s t)
unfolding observe_state observe_reset observe_inbound_syn observe_outbound_syn observe_syn_ack
    observe_tcp_fin
observe_state_ttl reset s t h = ground arith
observe_state_ttl inbound_syn s t h = ground arith
observe_state_ttl outbound_syn s t h = ground arith
observe_state_ttl syn_ack s t h = ground arith
observe_state_ttl established s t h = ground arith
observe_state_ttl inbound_fin s t h = ground arith
observe_state_ttl outbound_fin s t h = ground arith
observe_state_ttl inbound_first_closed s t h = ground arith
observe_state_ttl outbound_first_closed s t h = ground arith

-- A segment without RST never takes a connection back: its state comes as far as before or further.
-- A segment with RST takes it to the reset state. Either way the connection has a time to live.
pub observe_tcp-progress :
    (s : Segment) (t : TcpTrack)
    → (has tcp_rst s ≡ false → progress t.state ≤ progress (TcpTrack.state (observe_tcp s t)))
      × (has tcp_rst s ≡ true → TcpTrack.state (observe_tcp s t) ≡ reset)
      × (0 < TcpTrack.ttl (observe_tcp s t))
unfolding observe_tcp
observe_tcp-progress s t =
    let aged : TcpTrack = record t {
      ttl = if nat_beq t.ttl 0 then default_conntrack_ttl else t.ttl;
    } in
    (
      λ h. ground (arith, progress-observe_state t.state s aged refl),
      λ h. ground arith,
      ground (arith, observe_state_ttl t.state s aged),
    )

-- How a connection came to be established: by an outgoing segment that acknowledges the sequence
-- number kept from the other side's.
abbrev pub Handshake : Segment → TcpTrack → Type 0
Handshake s t =
    (s.incoming ≡ false)
    × (has tcp_ack s ≡ true)
    × (s.acknowledgment ≡ (t.sequence + 1) % 2 ^ 32)
    × ((t.state ≡ syn_ack) ⊎ (t.state ≡ inbound_syn) × (has tcp_syn s ≡ true))

observe_state-Handshake :
    (x : TcpState) (s : Segment) (t : TcpTrack)
    → t.state ≡ x
    → TcpTrack.state (observe_state x s t) ≡ established
    → (x ≡ established) ⊎ Handshake s t
unfolding observe_state observe_reset observe_inbound_syn observe_outbound_syn observe_syn_ack
    observe_tcp_fin acknowledges
observe_state-Handshake reset s t h e = ground arith
observe_state-Handshake inbound_syn s t h e = ground arith
observe_state-Handshake outbound_syn s t h e = ground arith
observe_state-Handshake syn_ack s t h e = ground arith
observe_state-Handshake established s t h e = inl refl
observe_state-Handshake inbound_fin s t h e = ground arith
observe_state-Handshake outbound_fin s t h e = ground arith
observe_state-Handshake inbound_first_closed s t h e = ground arith
observe_state-Handshake outbound_first_closed s t h e = ground arith

-- A connection that is established after a segment was so before, or the segment ends a handshake:
-- it has no RST, it is outgoing, it acknowledges the kept sequence number, and the connection was
-- in the state after a SYN and its answer, or the segment itself answers an incoming SYN.
pub observe_tcp-Handshake :
    (s : Segment) (t : TcpTrack)
    → TcpTrack.state (observe_tcp s t) ≡ established
    → (has tcp_rst s ≡ false) × ((t.state ≡ established) ⊎ Handshake s t)
unfolding observe_tcp
observe_tcp-Handshake s t h = elim (Bool-cases (has tcp_rst s)) [
  | inl rst ↦ absurd (ground arith)
  | inr no_rst ↦
      let aged : TcpTrack = record t {
        ttl = if nat_beq t.ttl 0 then default_conntrack_ttl else t.ttl;
      } in
      (no_rst, observe_state-Handshake t.state s aged refl (ground arith))
]
