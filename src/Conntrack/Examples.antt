-- ===== src/Conntrack/Examples.antt =====
-- A table with one connection, and an established TCP connection.
use Prim.Native.String.{String}
use distrust_core.Conntrack.{
  Conntrack, ConntrackMgr, ConntrackError, new_conntrack, new_conntrack_mgr, create, get_or_create,
  update, add, remove_expired, remove_expired_from,
}
use distrust_core.Conntrack.Tcp.{
  TcpTrack, Segment, reset, syn_ack, established, observe_tcp, observe_state, observe_syn_ack,
  observe_tcp-progress, observe_tcp-Handshake, has, acknowledges, Handshake, progress,
}
use distrust_core.Conntrack.Creation.{Answers, get_or_create-Answers}
use distrust_core.Conntrack.Auth.{
  complete_auth, cache_packet, cached, auth_result, next_auth_batch, take_jobs, take_job, is_due,
  Batch, completed, remove_key,
}
use distrust_core.Conntrack.Reach.{
  Reach, made, after, gets, caches, removes, Reach-IsConsistent, IsHeldOrOver, Reach-IsHeldOrOver,
}
use distrust_core.Conntrack.Delivery.{complete_auth-cache_packet}
use distrust_core.Conntrack.Once.{Later, now, then_, complete_auth_once}
use distrust_core.Conntrack.Writing.{FrameWrite, send_or_cache, queued, complete_authentication}
use distrust_core.Conntrack.Flushing.{InOrder, complete_authentication-send_or_cache}
use distrust_core.Tunnel.Frames.{get_data_payload}
use distrust_core.Conntrack.Batches.{Waits, next_auth_batch-Waits}
use distrust_core.Tunnel.Meta.{PacketMeta}
use distrust_core.Zctcpip.Transport.{tcp_rst}
use distrust_core.Base.{
  ℕ, ◌≤◌, ◌<◌, ◌≡◌, refl, ap, ◌⊎◌, Bool, Option, true, false, none, some, [], ◌∷◌, ◌++◌, map, arith,
  Comparable_nat, Comparable_string, length, All, lookup, insert, Bytes,
}

abbrev one_made : ConntrackMgr
one_made = create (new_conntrack 5 1 "k" "app" "group") new_conntrack_mgr

one_made_lem : get_or_create 5 "k" "app" "group" new_conntrack_mgr ≡ some (one_made, 1)
unfolding get_or_create remove_expired remove_expired_from new_conntrack_mgr create lookup
one_made_lem = refl

one_made-Reach : Reach one_made
unfolding new_conntrack_mgr
one_made-Reach =
    after made (gets 5 "k" "app" "group" one_made 1 (omega arith) (omega arith) one_made_lem)

get_or_create-Answers_example :
    (n : ConntrackMgr) × (p : ℕ) × (get_or_create 5 "k" "app" "group" one_made ≡ some (n, p))
    × Answers one_made "k" n p
unfolding create new_conntrack_mgr add
get_or_create-Answers_example =
    get_or_create-Answers 5 "k" "app" "group" one_made (Reach-IsConsistent one_made-Reach)
      (omega arith) (omega arith)

Reach-IsHeldOrOver_example :
    IsHeldOrOver one_made 1 × (length one_made.by_key ≤ one_made.max_entries)
unfolding create new_conntrack_mgr add
Reach-IsHeldOrOver_example = Reach-IsHeldOrOver 1 one_made-Reach (omega arith) (omega arith)

abbrev meta_one : PacketMeta
meta_one = record {
  atype = 4;
  proto = 17;
  src_ip = 10 ∷ 0 ∷ 0 ∷ 1 ∷ [];
  dst_ip = 10 ∷ 0 ∷ 0 ∷ 2 ∷ [];
  src_port = 40000;
  dst_port = 53;
}

abbrev one_waits : ConntrackMgr
one_waits = update 1 (cached meta_one (69 ∷ []) (one_made.store 1)) one_made

one_waits_lem : cache_packet 1 meta_one (69 ∷ []) one_made ≡ (one_waits, true, none)
unfolding cache_packet create new_conntrack_mgr add insert lookup
one_waits_lem = refl

complete_auth-cache_packet_example :
    (complete_auth (Conntrack.auth_id (one_made.store 1)) "token" none one_waits).1
    ≡ some (1, Conntrack.pending (one_made.store 1) ++ ((69 ∷ []) ∷ []))
complete_auth-cache_packet_example =
    complete_auth-cache_packet 1 meta_one (69 ∷ []) "token" one_made one_waits
      (Reach-IsConsistent one_made-Reach) one_waits_lem

abbrev one_done : ConntrackMgr
one_done = update 1 (completed "token" none (one_waits.store 1)) one_waits

one_done_lem : complete_auth 1 "token" none one_waits ≡ (one_done, some (1, (69 ∷ []) ∷ []))
unfolding complete_auth create new_conntrack_mgr add insert lookup
one_done_lem = refl

one_waits-Reach : Reach one_waits
one_waits-Reach = after one_made-Reach (
    caches 1 meta_one (69 ∷ []) one_waits
      (ap (λ (r : ConntrackMgr × Bool × Option ConntrackError). r.0) one_waits_lem))

-- The connection is removed behind its completion.
one_removed : Later one_done (remove_key "k" one_done)
one_removed = then_ now (removes "k" _ refl)

complete_auth_once_example :
    (complete_auth 1 "other" none (remove_key "k" one_done) ≡ (remove_key "k" one_done, none))
    × (auth_result 1 one_done ≡ (Conntrack.connect_token (one_done.store 1), none, true))
    × (auth_result 1 (remove_key "k" one_done) ≡ auth_result 1 one_done)
complete_auth_once_example =
    complete_auth_once 1 "token" "other" none none one_waits one_done (remove_key "k" one_done) 1
      ((69 ∷ []) ∷ []) one_waits-Reach one_done_lem one_removed

next_auth_batch-Waits_example :
    let b = next_auth_batch (λ p. 7) 1 one_waits in
    (length b.jobs ≤ 1)
    × All (Waits one_waits) b.jobs
    × All (λ (job : ℕ × PacketMeta). Conntrack.auth_started (b.table.store (job.0)) ≡ true) b.jobs
next_auth_batch-Waits_example = next_auth_batch-Waits (λ p. 7) 1 one_waits

-- The batch is not empty.
batch_lem : Batch.jobs (next_auth_batch (λ p. 7) 1 one_waits) ≡ (1, meta_one) ∷ []
unfolding next_auth_batch take_jobs take_job is_due create new_conntrack_mgr add insert lookup
batch_lem = refl

abbrev half_open : TcpTrack
half_open = record { state = syn_ack; sequence = 4294967295; ttl = 60 }

abbrev last_ack : Segment
last_ack = record { flags = 16; sequence = 1; acknowledgment = 0; incoming = false }

observe_tcp-progress_example :
    (has tcp_rst last_ack ≡ false
      → progress syn_ack ≤ progress (TcpTrack.state (observe_tcp last_ack half_open)))
    × (has tcp_rst last_ack ≡ true → TcpTrack.state (observe_tcp last_ack half_open) ≡ reset)
    × (0 < TcpTrack.ttl (observe_tcp last_ack half_open))
observe_tcp-progress_example = observe_tcp-progress last_ack half_open

established_lem : TcpTrack.state (observe_tcp last_ack half_open) ≡ established
unfolding observe_tcp observe_state observe_syn_ack has acknowledges
established_lem = refl

observe_tcp-Handshake_example :
    (has tcp_rst last_ack ≡ false)
    × ((half_open.state ≡ established) ⊎ Handshake last_ack half_open)
observe_tcp-Handshake_example = observe_tcp-Handshake last_ack half_open established_lem

-- A token's bytes, of which only the number matters here.
abbrev token_bytes : String → Bytes
token_bytes token = 116 ∷ 111 ∷ []

-- A connection that takes one frame whole, and then fails.
abbrev takes_one : FrameWrite
takes_one [] frame = (length frame, false)
takes_one (_ ∷ _) frame = (0, true)

one_queued_lem :
    send_or_cache token_bytes takes_one 1 meta_one (69 ∷ []) [] one_made ≡ (one_waits, [], queued)
unfolding send_or_cache auth_result cache_packet create new_conntrack_mgr add insert lookup
one_queued_lem = refl

complete_authentication-send_or_cache_example :
    InOrder token_bytes takes_one []
      (map
        (get_data_payload (token_bytes "to"))
        (Conntrack.pending (one_made.store 1) ++ ((69 ∷ []) ∷ [])))
      (
        (complete_authentication token_bytes takes_one
            (Conntrack.auth_id (one_made.store 1))
            "to"
            none
            []
            one_waits).1,
        (complete_authentication token_bytes takes_one
            (Conntrack.auth_id (one_made.store 1))
            "to"
            none
            []
            one_waits).2,
      )
complete_authentication-send_or_cache_example =
    complete_authentication-send_or_cache token_bytes takes_one 1 meta_one (69 ∷ []) "to" [] []
      one_made one_waits (Reach-IsConsistent one_made-Reach) one_queued_lem (omega arith)
