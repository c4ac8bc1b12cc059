-- ===== src/Conntrack/Reach.antt =====
-- Every sequence of calls keeps the table's invariant.
use Prim.Native.String.{String}
use mathlib.Core.Option.{some-injective}
use distrust_core.Conntrack.{
  Conntrack, ConntrackMgr, ConntrackError, new_conntrack_mgr, get_or_create, remove_expired,
}
use distrust_core.Conntrack.Invariant.{
  IsConsistent, remove_expired-IsConsistent, new_conntrack_mgr-IsConsistent,
}
use distrust_core.Conntrack.Creation.{get_or_create-Answers}
use distrust_core.Conntrack.Auth.{
  observe_packet, complete_auth, cache_packet, next_auth_batch, Batch, mark_auth_sent, expire_auth,
  retry_auth, remove_key, close,
}
use distrust_core.Conntrack.Methods.{
  observe_packet-IsConsistent, complete_auth-IsConsistent, cache_packet-IsConsistent,
  take_jobs-IsConsistent, expire_list-IsConsistent, mark_auth_sent-IsConsistent,
  retry_auth-IsConsistent, remove_key-IsConsistent,
}
use distrust_core.Conntrack.Closing.{close-IsConsistent}
use distrust_core.Tunnel.Meta.{PacketMeta}
use distrust_core.Base.{
  ℕ, suc, ◌^◌, ◌≤◌, ◌<◌, ◌≡◌, sym, ap, ◌∙◌, subst, ◌⊎◌, inl, inr, Bool, true, false, Option, some,
  [], Comparable_nat, Comparable_string, Bool-cases, length, lookup, Bytes,
}

-- One call of a method that changes a table, with its arguments and what the clock read.
pub data Step (m : ConntrackMgr) : ConntrackMgr → Type 0 where
  gets :
      (now : ℕ) (key app_id node_group_id : String) (n : ConntrackMgr) (p : ℕ)
      → 0 < m.max_entries
      → suc m.allocated < 2 ^ 64
      → get_or_create now key app_id node_group_id m ≡ some (n, p)
      → Step m n
  observes :
      (now : ℕ) (key : String) (packet : Bytes) (incoming : Bool) (n : ConntrackMgr) (seen : Bool)
      → observe_packet now key packet incoming m ≡ some (n, seen)
      → Step m n
  completes :
      (auth_id : ℕ) (token : String) (e : Option ConntrackError) (n : ConntrackMgr)
      → (complete_auth auth_id token e m).0 ≡ n
      → Step m n
  caches :
      (p : ℕ) (meta : PacketMeta) (packet : Bytes) (n : ConntrackMgr)
      → (cache_packet p meta packet m).0 ≡ n
      → Step m n
  batches :
      (clock : ℕ → ℕ) (limit : ℕ) (n : ConntrackMgr)
      → Batch.table (next_auth_batch clock limit m) ≡ n
      → Step m n
  marks :
      (auth_id deadline : ℕ) (n : ConntrackMgr) → mark_auth_sent auth_id deadline m ≡ n → Step m n
  expires_auth :
      (now : ℕ) (e : ConntrackError) (n : ConntrackMgr) → (expire_auth now e m).0 ≡ n → Step m n
  retries :
      (now auth_id delay : ℕ) (n : ConntrackMgr) → (retry_auth now auth_id delay m).0 ≡ n → Step m n
  removes : (key : String) (n : ConntrackMgr) → remove_key key m ≡ n → Step m n
  sweeps : (now : ℕ) (n : ConntrackMgr) → remove_expired now m ≡ n → Step m n
  closes : (n : ConntrackMgr) → close m ≡ n → Step m n

pub data Reach : ConntrackMgr → Type 0 where
  made : Reach new_conntrack_mgr
  after : {m n : ConntrackMgr} → Reach m → Step m n → Reach n

get_or_create-IsConsistent :
    (now : ℕ) (key app_id node_group_id : String) (m n : ConntrackMgr) (p : ℕ)
    → IsConsistent m
    → 0 < m.max_entries
    → suc m.allocated < 2 ^ 64
    → get_or_create now key app_id node_group_id m ≡ some (n, p)
    → IsConsistent n
get_or_create-IsConsistent now key app_id node_group_id m n p c positive small h =
    let (found, q, same, (kept, _, _)) =
      get_or_create-Answers now key app_id node_group_id m c positive small in
    subst IsConsistent (ap (λ (r : ConntrackMgr × ℕ). r.0) (some-injective _ _ (sym same ∙ h))) kept

Step-IsConsistent : {m n : ConntrackMgr} → Step m n → IsConsistent m → IsConsistent n
unfolding next_auth_batch expire_auth
Step-IsConsistent {m} (gets now key app_id group n p positive small h) c =
    get_or_create-IsConsistent now key app_id group m n p c positive small h
Step-IsConsistent {m} (observes now key packet incoming n seen h) c =
    observe_packet-IsConsistent now key packet incoming m n seen c h
Step-IsConsistent {m} (completes auth_id token e n h) c =
    subst IsConsistent h (complete_auth-IsConsistent auth_id token e m c)
Step-IsConsistent {m} (caches p meta packet n h) c =
    subst IsConsistent h (cache_packet-IsConsistent p meta packet m c)
Step-IsConsistent {m} (batches clock limit n h) c =
    subst IsConsistent h
      (take_jobs-IsConsistent clock limit m.lru (record { table = m; jobs = []; more = false }) c)
Step-IsConsistent {m} (marks auth_id deadline n h) c =
    subst IsConsistent h (mark_auth_sent-IsConsistent auth_id deadline m c)
Step-IsConsistent {m} (expires_auth now e n h) c =
    subst IsConsistent h (expire_list-IsConsistent now e m.lru (m, 0) c)
Step-IsConsistent {m} (retries now auth_id delay n h) c =
    subst IsConsistent h (retry_auth-IsConsistent now auth_id delay m c)
Step-IsConsistent {m} (removes key n h) c = subst IsConsistent h (remove_key-IsConsistent key m c)
Step-IsConsistent {m} (sweeps now n h) c =
    subst IsConsistent h (remove_expired-IsConsistent now m c)
Step-IsConsistent {m} (closes n h) c = subst IsConsistent h (close-IsConsistent m c)

pub Reach-IsConsistent : {m : ConntrackMgr} → Reach m → IsConsistent m
Reach-IsConsistent made = new_conntrack_mgr-IsConsistent
Reach-IsConsistent (after r s) = Step-IsConsistent s (Reach-IsConsistent r)

-- What a table owes to those who wait for a connection that it made: either it still holds the
-- connection, under its key and under its number, or the authentication is over and no packet is
-- left in it.
abbrev pub IsHeldOrOver : ConntrackMgr → ℕ → Type 0
IsHeldOrOver m p =
    (lookup (Conntrack.key (m.store p)) m.by_key ≡ some p)
      × (lookup (Conntrack.auth_id (m.store p)) m.by_id ≡ some p)
    ⊎ (Conntrack.auth_done (m.store p) ≡ true) × (Conntrack.pending (m.store p) ≡ [])

-- After any calls, at fewer than 2 ^ 64 - 1 connections made, no connection is lost: the table still
-- holds it under its key and its number, or its authentication is over and it keeps no
-- packet. The table never holds more connections than its capacity.
pub Reach-IsHeldOrOver :
    {m : ConntrackMgr} (p : ℕ)
    → Reach m
    → 0 < p
    → p ≤ m.allocated
    → IsHeldOrOver m p × (length m.by_key ≤ m.max_entries)
Reach-IsHeldOrOver {m} p r made_ bound =
    let c = Reach-IsConsistent r in
    (
      elim (Bool-cases (Conntrack.in_lru (m.store p))) [
        | inl in_ ↦
            let (keyed, numbered, own, _) = c.live p in_ in
            inl (keyed, ap (λ (i : ℕ). lookup i m.by_id) own ∙ numbered)
        | inr away ↦ let over = c.settled p made_ bound away in inr (over, c.delivered p over)
      ],
      c.capacity,
    )
