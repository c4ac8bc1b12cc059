-- ===== src/Conntrack/Writing.antt =====
-- client/atrust/l3tunnelconn.go: WritePacket and completeAuthentication on the table, where nothing
-- comes between the calls that each makes, as the lock of the connection sees to for its packets,
-- and the frames that they write. The bytes of a token and the TLS connection are parameters.
use Prim.Native.String.{String}
use distrust_core.Conntrack.{ConntrackMgr, ConntrackError, pending_packet_cache_full, get_or_create}
use distrust_core.Conntrack.Auth.{
  observe_packet, auth_result, cache_packet, complete_auth, get_by_id,
}
use distrust_core.Tunnel.Frames.{get_data_payload}
use distrust_core.Tunnel.Meta.{PacketMeta}
use distrust_core.Base.{
  ℕ, Bool, true, false, Option, none, some, List, [], ◌∷◌, ◌++◌, ltb, nat_beq, if◌then◌else◌,
  Comparable_nat, Comparable_string, length, then_some, Bytes,
}

pub data SendError : Type 0 where
  token_too_long connection_failed short_write : SendError

pub data Sent : Type 0 where
  written queued dropped : Sent
  not_written : SendError → Sent
  failed : ConntrackError → Sent

-- A full cache drops the packet and is no error.
abbrev pub cache_answer : Option ConntrackError → Sent
cache_answer none = queued
cache_answer (some pending_packet_cache_full) = dropped
cache_answer (some e) = failed e

abbrev pub written_answer : Option SendError → Sent
written_answer none = written
written_answer (some e) = not_written e

-- A write of a frame to the TLS connection, which was handed some frames before: how many bytes it
-- takes, and whether it fails.
abbrev pub FrameWrite : Type 0
FrameWrite = List Bytes → Bytes → ℕ × Bool

module _ (bytes_of : String → Bytes) (tls_write : FrameWrite) where
  -- The frames that were handed to the connection, this one included, and the error. The hook and
  -- the mark for the heartbeat are left out.
  unfoldable pub write_frame : List Bytes → Bytes → List Bytes × Option SendError
  write_frame sent frame =
      let (n, fails) = tls_write sent frame in
      (
        sent ++ (frame ∷ []),
        if fails
            then some connection_failed
            else (if nat_beq n (length frame) then none else some short_write),
      )

  unfoldable pub write_authenticated_packet :
      Bytes → Bytes → List Bytes → List Bytes × Option SendError
  unfolding write_frame
  write_authenticated_packet token packet sent =
      if ltb 0xff (length token)
      then (sent, some token_too_long)
      else write_frame sent (get_data_payload token packet)

  abbrev pub answer_done : String × Option ConntrackError → Bytes → List Bytes → List Bytes × Sent
  answer_done (token, some e) packet sent = (sent, failed e)
  answer_done (token, none) packet sent =
      let (after, failure) = write_authenticated_packet (bytes_of token) packet sent in
      (after, written_answer failure)

  -- WritePacket once it has the connection.
  unfoldable pub send_or_cache :
      ℕ → PacketMeta → Bytes → List Bytes → ConntrackMgr → ConntrackMgr × List Bytes × Sent
  unfolding write_authenticated_packet
  send_or_cache p meta packet sent m =
      let (token, e, done) = auth_result p m in
      let (cached, _, cache_error) = cache_packet p meta packet m in
      let (after, answer) = answer_done (token, e) packet sent in
      if done then (m, after, answer) else (cached, sent, cache_answer cache_error)

  -- The clock is read twice.
  unfoldable pub write_packet :
      ℕ
      → ℕ
      → String
      → PacketMeta
      → String
      → String
      → Bytes
      → List Bytes
      → ConntrackMgr
      → Option (ConntrackMgr × List Bytes × Sent)
  unfolding send_or_cache
  write_packet now later key meta app_id node_group_id packet sent m =
      then_some (get_or_create now key app_id node_group_id m) λ (held, p).
        then_some (observe_packet later key packet false held)
          λ (seen, _). some (send_or_cache p meta packet sent seen)

  -- The loop over the packets: the frames that were handed to the connection, and whether it stays
  -- open. The first write that fails closes it and ends the loop.
  unfoldable pub flush : Bytes → List Bytes → List Bytes → List Bytes × Bool
  unfolding write_authenticated_packet
  flush token sent [] = (sent, true)
  flush token sent (packet ∷ packets) =
      let (after, failure) = write_authenticated_packet token packet sent in
      elim failure [ some _ ↦ (after, false) | none ↦ flush token after packets ]

  abbrev pub flush_all :
      Bytes → List Bytes → Option ConntrackError → Option (ℕ × List Bytes) → List Bytes × Bool
  flush_all token sent (some e) completed = (sent, true)
  flush_all token sent none none = (sent, true)
  flush_all token sent none (some (p, packets)) = flush token sent packets

  unfoldable pub complete_authentication :
      ℕ
      → String
      → Option ConntrackError
      → List Bytes
      → ConntrackMgr
      → ConntrackMgr × List Bytes × Bool
  unfolding flush
  complete_authentication auth_id token e sent m = elim (get_by_id auth_id m) [
    | none ↦ (m, sent, true)
    | some _ ↦
        let (after, completed) = complete_auth auth_id token e m in
        let (frames, open_) = flush_all (bytes_of token) sent e completed in (after, frames, open_)
  ]
