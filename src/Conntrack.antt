-- ===== src/Conntrack.antt =====
-- client/atrust/l3tunnelconntrack.go: the table of tracked connections and their authentication.
-- A `*conntrack` is a number, its place in `store`: the maps and the list hold the numbers, so that a
-- caller's pointer to a connection that the table forgot still has a value. Every method takes the
-- lock for its whole body, so it is one step; a time is in nanoseconds after the zero time, and a
-- method that reads the clock takes what it read. `none` is a panic.
pub mod Tcp
pub mod Keys
pub mod Invariant
pub mod Room
pub mod Creation
pub mod Auth
pub mod Methods
pub mod Closing
pub mod Reach
pub mod Delivery
pub mod Standing
pub mod Steps
pub mod Once
pub mod Batches
pub mod Writing
pub mod Flushing
mod Examples
use Prim.Native.String.{String}
use distrust_core.Base.Partial.{◌>>=◌}
use distrust_core.Conntrack.Tcp.{
  TcpTrack, TcpState, reset, Segment, observe_tcp, second, default_conntrack_ttl,
}
use distrust_core.Tunnel.Meta.{PacketMeta}
use distrust_core.Zctcpip.Ipv4.{valid, protocol, payload, protocol_tcp, protocol_udp, protocol_icmp}
use distrust_core.Zctcpip.Transport.{tcp_valid, tcp_flags}
use distrust_core.Base.{
  ℕ, zero, suc, ◌+◌, ◌-◌, ◌*◌, ◌/◌, ◌%◌, ◌^◌, ◌≤◌, ◌<◌, ◌≡◌, refl, sym, ap, ◌∙◌, subst, ◌≢◌, ◌↔◌,
  ◌⊎◌, inl, inr, Bool, true, false, not, ◌&&◌, ◌||◌, Option, none, some, List, [], ◌∷◌, ◌++◌, map,
  arith, ltb→lt, leb→le, ltb, leb, nat_beq, if◌then◌else◌, ◌==◌, Comparable_nat, Comparable_string,
  Bool-cases, Option-cases, length, get_elem?, set, take, drop, All, length-append, length-take,
  length-drop, length-set, take-append-drop, take-append_length, drop-append_length, All-append,
  get_elem?-append, drop-append, take-append_le, drop-append_le, take-all, append_assoc_list, ℤ,
  pos, negsuc, leb_ℤ, Outcome, ok, err, panic, ◌>>◌, guard, or_panic, or_err, then_some, lookup,
  insert, remove, lookup-insert, lookup-remove, length-insert, length-insert_present, length-remove,
  length-remove_present, Bytes, IsByte, AreBytes, join16, join32, be16, be32, slice, put, put16,
  copy_at, get16,
}

pub data ConntrackError : Type 0 where
  conntrack_evicted pending_packet_cache_full net_closed auth_timeout : ConntrackError
  other_error : String → ConntrackError

pub record Conntrack : Type 0 where
  pub key : String
  pub auth_id : ℕ  -- uint64
  pub connect_token : String
  pub app_id : String
  pub node_group_id : String
  pub auth_done : Bool  -- the channel `authCh` is closed
  pub auth_err : Option ConntrackError
  pub auth_started : Bool
  pub auth_timeouts : ℕ
  pub auth_meta : PacketMeta
  pub auth_deadline : ℕ  -- 0 is the zero time
  pub auth_retry_at : ℕ
  pub pending : List Bytes
  pub last_seen : ℕ
  pub expires_at : ℕ
  pub tcp : TcpTrack  -- `tcpState`, `tcpSeq` and `tcpTTL`
  pub in_lru : Bool  -- `lruElement` is not nil

pub record ConntrackMgr : Type 0 where
  pub next_auth_id : ℕ  -- uint64
  pub by_key : List (String × ℕ)
  pub by_id : List (ℕ × ℕ)
  pub lru : List ℕ
  pub ttl : ℕ
  pub max_entries : ℕ
  pub closed : Bool
  pub store : ℕ → Conntrack
  pub allocated : ℕ  -- how many connections were made: they are 1, 2, ...

abbrev pub no_meta : PacketMeta
no_meta = record { atype = 0; proto = 0; src_ip = []; dst_ip = []; src_port = 0; dst_port = 0 }

abbrev pub no_conntrack : Conntrack
no_conntrack = record {
  key = "";
  auth_id = 0;
  connect_token = "";
  app_id = "";
  node_group_id = "";
  auth_done = false;
  auth_err = none;
  auth_started = false;
  auth_timeouts = 0;
  auth_meta = no_meta;
  auth_deadline = 0;
  auth_retry_at = 0;
  pending = [];
  last_seen = 0;
  expires_at = 0;
  tcp = record { state = reset; sequence = 0; ttl = 0 };
  in_lru = false;
}

unfoldable pub new_conntrack_mgr : ConntrackMgr
new_conntrack_mgr = record {
  next_auth_id = 0;
  by_key = [];
  by_id = [];
  lru = [];
  ttl = 0;
  max_entries = 16384;
  closed = false;
  store = λ p. no_conntrack;
  allocated = 0;
}

-- `p.field = ...`
abbrev pub write : (ℕ → Conntrack) → ℕ → Conntrack → ℕ → Conntrack
write store p ct q = if nat_beq p q then ct else store q

abbrev pub update : ℕ → Conntrack → ConntrackMgr → ConntrackMgr
update p ct m = record m { store = write m.store p ct }

-- The list holds no connection twice, so removing its element removes every copy.
abbrev pub without : ℕ → List ℕ → List ℕ
without p [] = []
without p (q ∷ list) = let rest = without p list in if nat_beq p q then rest else q ∷ rest

abbrev pub points_to : Option ℕ → ℕ → Bool
points_to none p = false
points_to (some q) p = nat_beq q p

unfoldable pub remove_indexes : ℕ → ConntrackMgr → ConntrackMgr
remove_indexes p m =
    let ct = m.store p in
    record m {
      by_key = if points_to (lookup ct.key m.by_key) p then remove ct.key m.by_key else m.by_key;
      by_id =
          if points_to (lookup ct.auth_id m.by_id) p then remove ct.auth_id m.by_id else m.by_id;
      lru = if ct.in_lru then without p m.lru else m.lru;
      store = write m.store p (record ct { in_lru = false });
    }

-- What `removeLocked` does to the connection itself.
abbrev pub finish : ConntrackError → Conntrack → Conntrack
finish e ct = record ct {
  pending = [];
  auth_err = if ct.auth_done then ct.auth_err else some e;
  auth_done = true;
}

unfoldable pub remove_locked : ConntrackError → ℕ → ConntrackMgr → ConntrackMgr
unfolding remove_indexes
remove_locked e p m =
    let removed = remove_indexes p m in update p (finish e (removed.store p)) removed

abbrev pub expires : ConntrackMgr → Conntrack → ℕ
expires m ct = if ltb 0 m.ttl then ct.last_seen + m.ttl else ct.expires_at

unfoldable pub remove_if_expired : ℕ → ℕ → ConntrackMgr → ConntrackMgr
remove_if_expired now p m =
    if leb (expires m (m.store p)) now then remove_locked conntrack_evicted p m else m

-- The loop reads the next element before it removes one, so it walks the list as it was.
unfoldable pub remove_expired_from : ℕ → List ℕ → ConntrackMgr → ConntrackMgr
remove_expired_from now [] m = m
remove_expired_from now (p ∷ rest) m = remove_expired_from now rest (remove_if_expired now p m)

unfoldable pub remove_expired : ℕ → ConntrackMgr → ConntrackMgr
unfolding remove_expired_from
remove_expired now m = remove_expired_from now m.lru m

abbrev pub remove_front : List ℕ → ConntrackMgr → ConntrackMgr
remove_front [] m = m
remove_front (p ∷ _) m = remove_locked conntrack_evicted p m

unfoldable pub remove_oldest : ConntrackMgr → ConntrackMgr
remove_oldest m = remove_front m.lru m

-- `ct.lastSeen = now; m.lru.MoveToBack(ct.lruElement)`, which panics on a nil element
unfoldable pub refresh : ℕ → ℕ → ConntrackMgr → Option ConntrackMgr
refresh now p m =
    let ct = m.store p in
    if ct.in_lru
    then some
        (record (update p (record ct { last_seen = now }) m) { lru = without p m.lru ++ (p ∷ []) })
    else none

abbrev pub new_conntrack : ℕ → ℕ → String → String → String → Conntrack
new_conntrack now id key app_id node_group_id = record no_conntrack {
  key = key;
  auth_id = id;
  app_id = app_id;
  node_group_id = node_group_id;
  last_seen = now;
  expires_at = now + default_conntrack_ttl;
}

-- The table gets the connection.
unfoldable pub add : ℕ → Conntrack → ConntrackMgr → ConntrackMgr
add p ct m = record m {
  by_key = insert ct.key p m.by_key;
  by_id = insert ct.auth_id p m.by_id;
  lru = m.lru ++ (p ∷ []);
  store = write m.store p (record ct { in_lru = true });
}

unfoldable pub create : Conntrack → ConntrackMgr → ConntrackMgr
unfolding remove_oldest add
create ct m =
    let numbered = record m {
      next_auth_id = (m.next_auth_id + 1) % 2 ^ 64;
      allocated = suc m.allocated;
    } in
    let room = if leb m.max_entries (length m.by_key) then remove_oldest numbered else numbered in
    if m.closed
    then update (suc m.allocated) (record ct { auth_err = some net_closed; auth_done = true })
        numbered
    else add (suc m.allocated) ct room

unfoldable pub get_or_create :
    ℕ → String → String → String → ConntrackMgr → Option (ConntrackMgr × ℕ)
unfolding refresh create
get_or_create now key app_id node_group_id m =
    let swept = remove_expired now m in
    elim (lookup key swept.by_key) [
      | some p ↦ then_some (refresh now p swept) λ after. some (after, p)
      | none ↦ some (
        create (new_conntrack now ((swept.next_auth_id + 1) % 2 ^ 64) key app_id node_group_id)
            swept,
        suc swept.allocated,
      )
    ]
