-- ===== src/Conntrack/Delivery.antt =====
-- What becomes of the packets that wait for an authentication, and what a completion answers.
use Prim.Native.String.{String}
use distrust_core.Conntrack.{Conntrack, ConntrackMgr, ConntrackError, update, points_to}
use distrust_core.Conntrack.Invariant.{IsConsistent}
use distrust_core.Conntrack.Auth.{complete_auth, completed, completion, cache_packet, cached}
use distrust_core.Tunnel.Meta.{PacketMeta}
use distrust_core.Base.{
  ℕ, ◌≡◌, refl, inl, inr, true, false, Option, none, some, List, [], ◌∷◌, ◌++◌, arith,
  Comparable_nat, Comparable_string, Bool-cases, Option-cases, lookup, Bytes,
}

-- What a kept packet tells of the connection that it waits in.
cache_packet-kept :
    (p : ℕ) (meta : PacketMeta) (packet : Bytes) (m n : ConntrackMgr)
    → IsConsistent m
    → cache_packet p meta packet m ≡ (n, true, none)
    → (update p (cached meta packet (m.store p)) m ≡ n)
      × (Conntrack.auth_done (m.store p) ≡ false)
      × (Conntrack.in_lru (m.store p) ≡ true)
unfolding cache_packet
cache_packet-kept p meta packet m n c h =
    elim (Bool-cases (points_to (lookup (Conntrack.key (m.store p)) m.by_key) p)) [
      | inl held ↦
          (ground arith, ground arith, ground (arith, c.keyed (Conntrack.key (m.store p)) p))
      | inr lost ↦ absurd (ground arith)
    ]

-- Packets wait in order: if a table keeps a packet, completing the authentication of its connection
-- without an error answers the packets that waited before it, and then the packet.
pub complete_auth-cache_packet :
    (p : ℕ) (meta : PacketMeta) (packet : Bytes) (token : String) (m n : ConntrackMgr)
    → IsConsistent m
    → cache_packet p meta packet m ≡ (n, true, none)
    → (complete_auth (Conntrack.auth_id (m.store p)) token none n).1
      ≡ some (p, Conntrack.pending (m.store p) ++ (packet ∷ []))
unfolding complete_auth
complete_auth-cache_packet p meta packet token m n c h =
    let (same, open_, in_) = cache_packet-kept p meta packet m n c h in
    let (_, numbered, own, _) = c.live p in_ in rw (← same) (ground (arith, own, numbered, open_))

-- A completion that answered a connection: it was under the number, and what the table became.
pub complete_auth-answered :
    (auth_id : ℕ) (token : String) (e : Option ConntrackError) (m n : ConntrackMgr) (p : ℕ)
    (packets : List Bytes)
    → complete_auth auth_id token e m ≡ (n, some (p, packets))
    → (lookup auth_id m.by_id ≡ some p)
      × ((completion e p packets (update p (completed token e (m.store p)) m)).0 ≡ n)
unfolding complete_auth
complete_auth-answered auth_id token none m n p packets h = (ground arith, ground arith)
complete_auth-answered auth_id token (some e) m n p packets h = (ground arith, ground arith)

-- A table that holds a connection under the number only if it is over completes nothing.
pub complete_auth_over :
    (auth_id : ℕ) (token : String) (e : Option ConntrackError) (m : ConntrackMgr)
    → ((p : ℕ) → lookup auth_id m.by_id ≡ some p → Conntrack.auth_done (m.store p) ≡ true)
    → complete_auth auth_id token e m ≡ (m, none)
unfolding complete_auth
complete_auth_over auth_id token e m over = elim (Option-cases (lookup auth_id m.by_id)) [
  | inl absent ↦ rw (absent, complete_auth) refl
  | inr (p, found) ↦ rw (found, complete_auth) (rw (over p found) refl)
]
