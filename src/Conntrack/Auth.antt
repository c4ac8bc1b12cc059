-- ===== src/Conntrack/Auth.antt =====
-- client/atrust/l3tunnelconntrack.go: the methods on a table besides getOrCreate.
use Prim.Native.String.{String}
use distrust_core.Base.Partial.{◌>>=◌}
use distrust_core.Conntrack.{
  Conntrack, ConntrackMgr, ConntrackError, conntrack_evicted, pending_packet_cache_full, net_closed,
  update, points_to, remove_indexes, remove_locked, refresh,
}
use distrust_core.Conntrack.Tcp.{TcpTrack, Segment, observe_tcp, second, default_conntrack_ttl}
use distrust_core.Tunnel.Meta.{PacketMeta}
use distrust_core.Zctcpip.Ipv4.{valid, protocol, payload, protocol_tcp, protocol_udp, protocol_icmp}
use distrust_core.Zctcpip.Transport.{tcp_valid, tcp_flags}
use distrust_core.Base.{
  ℕ, ◌+◌, ◌*◌, Bool, true, false, not, ◌||◌, Option, none, some, List, [], ◌∷◌, ◌++◌, ltb, leb,
  nat_beq, if◌then◌else◌, ◌==◌, Comparable_nat, Comparable_string, length, then_some, lookup, Bytes,
  get16,
}

unfoldable pub get_by_key : String → ConntrackMgr → Option ℕ
get_by_key key m = lookup key m.by_key

unfoldable pub get_by_id : ℕ → ConntrackMgr → Option ℕ
get_by_id auth_id m = lookup auth_id m.by_id

-- `binary.BigEndian.Uint32`
read32 : Bytes → ℕ → Option ℕ
read32 p i = do hi ← get16 p i; lo ← get16 p (i + 2); some (hi * 65536 + lo)

unfoldable pub read_segment : Bool → Bytes → Option Segment
unfolding read32
read_segment incoming p = do
  flags ← tcp_flags p
  sequence ← read32 p 4
  acknowledgment ← read32 p 8
  some (record {
    flags = flags;
    sequence = sequence;
    acknowledgment = acknowledgment;
    incoming = incoming;
  })

abbrev expire_at : ℕ → Conntrack → Conntrack
expire_at time ct = record ct { expires_at = time }

abbrev track : ℕ → TcpTrack → Conntrack → Conntrack
track now tcp ct = record ct { tcp = tcp; expires_at = now + tcp.ttl }

unfoldable pub observe_segment : ℕ → Bool → Bytes → Conntrack → Option Conntrack
unfolding read_segment
observe_segment now incoming p ct =
    if tcp_valid p
    then then_some (read_segment incoming p) (λ s. some (track now (observe_tcp s ct.tcp) ct))
    else some (expire_at (now + default_conntrack_ttl) ct)

-- The time to live of a packet that is not TCP.
abbrev protocol_ttl : ℕ → ℕ
protocol_ttl proto =
    if nat_beq proto protocol_udp
    then 120 * second
    else (if nat_beq proto protocol_icmp then 30 * second else default_conntrack_ttl)

abbrev with_proto : ℕ → Conntrack → Conntrack
with_proto proto ct = record ct { auth_meta = record ct.auth_meta { proto = proto } }

unfoldable pub observe_payload : ℕ → Bool → Bytes → ℕ → Conntrack → Option Conntrack
unfolding observe_segment
observe_payload now incoming packet proto ct =
    if nat_beq proto protocol_tcp
    then then_some (payload packet) (λ p. observe_segment now incoming p (with_proto proto ct))
    else some (expire_at (now + protocol_ttl proto) (with_proto proto ct))

-- What observePacket does to the connection after it has refreshed it.
unfoldable pub observe : ℕ → Bool → Bytes → Conntrack → Option Conntrack
unfolding observe_payload
observe now incoming packet ct =
    if valid packet
    then then_some (protocol packet) (λ proto. observe_payload now incoming packet proto ct)
    else some (expire_at (now + default_conntrack_ttl) ct)

unfoldable pub observe_packet :
    ℕ → String → Bytes → Bool → ConntrackMgr → Option (ConntrackMgr × Bool)
unfolding observe
observe_packet now key packet incoming m = elim (lookup key m.by_key) [
  | none ↦ some (m, false)
  | some p ↦
      then_some (refresh now p m)
        λ n. then_some (observe now incoming packet (n.store p)) λ ct. some (update p ct n, true)
]

-- `completeAuth` on a connection whose channel is open.
abbrev pub completed : String → Option ConntrackError → Conntrack → Conntrack
completed token e ct = record ct {
  pending = [];
  connect_token = if token == "" then ct.connect_token else token;
  auth_err = e;
  auth_done = true;
}

-- With an error the connection leaves the table.
abbrev pub completion :
    Option ConntrackError → ℕ → List Bytes → ConntrackMgr → ConntrackMgr × Option (ℕ × List Bytes)
completion none p packets after = (after, some (p, packets))
completion (some _) p packets after = (remove_indexes p after, some (p, []))

-- The answer is the connection and the packets to send, or nothing.
unfoldable pub complete_auth :
    ℕ → String → Option ConntrackError → ConntrackMgr → ConntrackMgr × Option (ℕ × List Bytes)
complete_auth auth_id token e m = elim (lookup auth_id m.by_id) [
  | none ↦ (m, none)
  | some p ↦
      let ct = m.store p in
      if ct.auth_done
      then (m, none)
      else completion e p ct.pending (update p (completed token e ct) m)
]

abbrev pub cached : PacketMeta → Bytes → Conntrack → Conntrack
cached meta packet ct = record ct { auth_meta = meta; pending = ct.pending ++ (packet ∷ []) }

-- The answer tells whether the packet was kept, and the error.
unfoldable pub cache_packet :
    ℕ → PacketMeta → Bytes → ConntrackMgr → ConntrackMgr × Bool × Option ConntrackError
cache_packet p meta packet m =
    let ct = m.store p in
    if not (points_to (lookup ct.key m.by_key) p)
    then (m, false, if ct.auth_done then ct.auth_err else some conntrack_evicted)
    else (if ct.auth_done
        then (m, false, ct.auth_err)
        else (if leb 1024 (length ct.pending)
            then (m, false, some pending_packet_cache_full)
            else (update p (cached meta packet ct) m, true, none)))

unfoldable pub auth_result : ℕ → ConntrackMgr → String × Option ConntrackError × Bool
auth_result p m =
    let ct = m.store p in
    if ct.auth_done then (ct.connect_token, ct.auth_err, true) else ("", none, false)

-- The variables of nextAuthBatch's loop; `more` is true after its `break`.
pub record Batch : Type 0 where
  pub table : ConntrackMgr
  pub jobs : List (ℕ × PacketMeta)
  pub more : Bool

abbrev pub is_empty : List Bytes → Bool
is_empty [] = true
is_empty (_ ∷ _) = false

-- A connection that no request is under way for, and that has packets and is not to wait.
unfoldable pub is_due : ℕ → Conntrack → Bool
is_due now ct = not (ct.auth_started || is_empty ct.pending || ltb now ct.auth_retry_at)

unfoldable pub take_job : ℕ → ℕ → ℕ → Batch → Batch
unfolding is_due
take_job now limit p b =
    let ct = b.table.store p in
    if b.more || not (is_due now ct)
    then b
    else (if leb limit (length b.jobs) then record b { more = true } else record {
      table = update p (record ct { auth_started = true }) b.table;
      jobs = b.jobs ++ ((p, ct.auth_meta) ∷ []);
      more = false;
    })

-- The clock is read anew for each connection, which the argument `clock` answers.
unfoldable pub take_jobs : (ℕ → ℕ) → ℕ → List ℕ → Batch → Batch
unfolding take_job
take_jobs clock limit [] b = b
take_jobs clock limit (p ∷ list) b = take_jobs clock limit list (take_job (clock p) limit p b)

unfoldable pub next_auth_batch : (ℕ → ℕ) → ℕ → ConntrackMgr → Batch
unfolding take_jobs
next_auth_batch clock limit m =
    take_jobs clock limit m.lru (record { table = m; jobs = []; more = false })

unfoldable pub mark_auth_sent : ℕ → ℕ → ConntrackMgr → ConntrackMgr
mark_auth_sent auth_id deadline m = elim (lookup auth_id m.by_id) [
  | none ↦ m
  | some p ↦
      let ct = m.store p in
      if ct.auth_done then m else update p (record ct { auth_deadline = deadline }) m
]

-- `defaultAuthMaxAttempts`
abbrev pub auth_max_attempts : ℕ
auth_max_attempts = 3

abbrev pub timed_out : Conntrack → Conntrack
timed_out ct = record ct { auth_timeouts = ct.auth_timeouts + 1 }

abbrev pub retried : ℕ → Conntrack → Conntrack
retried time ct = record ct { auth_started = false; auth_deadline = 0; auth_retry_at = time }

unfoldable pub expire_one : ℕ → ConntrackError → ℕ → ConntrackMgr × ℕ → ConntrackMgr × ℕ
expire_one now e p (m, expired) =
    let ct = m.store p in
    if nat_beq ct.auth_deadline 0 || ltb now ct.auth_deadline
    then (m, expired)
    else (if ltb (ct.auth_timeouts + 1) auth_max_attempts
        then (update p (retried now (timed_out ct)) m, expired)
        else (remove_locked e p (update p (timed_out ct) m), expired + 1))

unfoldable pub expire_list : ℕ → ConntrackError → List ℕ → ConntrackMgr × ℕ → ConntrackMgr × ℕ
unfolding expire_one
expire_list now e [] s = s
expire_list now e (p ∷ list) s = expire_list now e list (expire_one now e p s)

unfoldable pub expire_auth : ℕ → ConntrackError → ConntrackMgr → ConntrackMgr × ℕ
unfolding expire_list
expire_auth now e m = expire_list now e m.lru (m, 0)

unfoldable pub retry_auth : ℕ → ℕ → ℕ → ConntrackMgr → ConntrackMgr × Bool
retry_auth now auth_id delay m = elim (lookup auth_id m.by_id) [
  | none ↦ (m, false)
  | some p ↦
      let ct = m.store p in
      if ct.auth_done then (m, false) else (update p (retried (now + delay) ct) m, true)
]

unfoldable pub remove_key : String → ConntrackMgr → ConntrackMgr
remove_key key m = elim (lookup key m.by_key) [
  | none ↦ m
  | some p ↦ remove_locked conntrack_evicted p m
]

abbrev pub remove_all : List (String × ℕ) → ConntrackMgr → ConntrackMgr
remove_all [] m = m
remove_all ((k, p) ∷ entries) m = remove_all entries (remove_locked net_closed p m)

-- Go walks the map in an order of its own; here it is the list's.
unfoldable pub close : ConntrackMgr → ConntrackMgr
close m = remove_all m.by_key (record m { closed = true })
