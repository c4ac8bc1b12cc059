-- ===== src/Conntrack/Methods.antt =====
-- The methods on a table besides getOrCreate and close keep its invariant.
use Prim.Native.String.{String}
use mathlib.Core.Option.{some-injective}
use distrust_core.Conntrack.{
  Conntrack, ConntrackMgr, ConntrackError, conntrack_evicted, update, points_to, refresh,
}
use distrust_core.Conntrack.Invariant.{
  IsConsistent, update-IsConsistent, remove_locked-IsConsistent, remove_indexes_live,
  dropped-IsConsistent, write_self,
}
use distrust_core.Conntrack.Creation.{refresh-Answers}
use distrust_core.Conntrack.Auth.{
  observe_packet, observe, observe_payload, observe_segment, complete_auth, completed, completion,
  cache_packet, cached, take_jobs, take_job, Batch, is_due, mark_auth_sent, expire_list, expire_one,
  timed_out, retried, auth_max_attempts, retry_auth, remove_key,
}
use distrust_core.Tunnel.Meta.{PacketMeta}
use distrust_core.Base.{
  ℕ, ◌+◌, ◌≡◌, refl, sym, ap, ◌∙◌, subst, inl, inr, Bool, true, false, not, ◌||◌, Option, none,
  some, List, [], ◌∷◌, arith, ltb, leb, nat_beq, Comparable_nat, Comparable_string, Option-cases,
  if_both, option_both, length, then_some_gave, lookup, Bytes,
}

-- A change that leaves the connection's place and authentication as they are.
abbrev Minor : Conntrack → Conntrack → Type 0
Minor old ct =
    (ct.key ≡ old.key)
    × (ct.auth_id ≡ old.auth_id)
    × (ct.in_lru ≡ old.in_lru)
    × (ct.auth_done ≡ old.auth_done)
    × (ct.pending ≡ old.pending)

pub Minor-IsConsistent :
    (p : ℕ) (ct : Conntrack) (m : ConntrackMgr)
    → Minor (m.store p) ct
    → IsConsistent m
    → IsConsistent (update p ct m)
Minor-IsConsistent p ct m (key, id, place, done, pending) c =
    update-IsConsistent p ct m
      (record {
        same_key = key;
        same_id = id;
        same_place = place;
        woken = λ h k. done ∙ k;
        flushed = λ h. pending ∙ c.delivered p (sym done ∙ h);
      })
      c

observe-Minor :
    (now : ℕ) (incoming : Bool) (packet : Bytes) (old ct : Conntrack)
    → observe now incoming packet old ≡ some ct
    → Minor old ct
unfolding observe observe_payload observe_segment
observe-Minor now incoming packet old ct h =
    (ground arith, ground arith, ground arith, ground arith, ground arith)

pub observe_packet-IsConsistent :
    (now : ℕ) (key : String) (packet : Bytes) (incoming : Bool) (m n : ConntrackMgr) (seen : Bool)
    → IsConsistent m
    → observe_packet now key packet incoming m ≡ some (n, seen)
    → IsConsistent n
unfolding observe_packet
observe_packet-IsConsistent now key packet incoming m n seen c h =
    elim (Option-cases (lookup key m.by_key)) [
      | inl absent ↦
          let same = rw (absent, observe_packet) at h in
          rw (← ap (λ (r : ConntrackMgr × Bool). r.0) (some-injective _ _ same)) c
      | inr (p, found) ↦
          let made = rw (found, observe_packet) at h in
          let (refreshed, done, then_) = then_some_gave (refresh now p m) _ made in
          let (ct, observed, last) =
            then_some_gave (observe now incoming packet (refreshed.store p)) _ then_ in
          let (other, done_, (kept, _, _)) = refresh-Answers now key p m c found in
          let same : other ≡ refreshed = some-injective _ _ (sym done_ ∙ done) in
          let here = subst IsConsistent same kept in
          subst IsConsistent (ap (λ (r : ConntrackMgr × Bool). r.0) (some-injective _ _ last)) (
            Minor-IsConsistent p ct refreshed
              (observe-Minor now incoming packet (refreshed.store p) ct observed) here)
    ]

pub completed_none-IsConsistent :
    (p : ℕ) (token : String) (e : Option ConntrackError) (m : ConntrackMgr)
    → IsConsistent m
    → Conntrack.in_lru (m.store p) ≡ true
    → IsConsistent (update p (completed token e (m.store p)) m)
completed_none-IsConsistent p token e m c in_ =
    update-IsConsistent p (completed token e (m.store p)) m
      (record {
        same_key = refl;
        same_id = refl;
        same_place = refl;
        woken = λ x y. refl;
        flushed = λ x. refl;
      })
      c

completed-IsConsistent :
    (p : ℕ) (token : String) (e : Option ConntrackError) (m : ConntrackMgr)
    → IsConsistent m
    → Conntrack.in_lru (m.store p) ≡ true
    → IsConsistent (
        (completion e p
          (Conntrack.pending (m.store p))
          (update p (completed token e (m.store p)) m)).0)
completed-IsConsistent p token none m c in_ = completed_none-IsConsistent p token none m c in_
completed-IsConsistent p token (some e) m c in_ =
    let ct = completed token (some e) (m.store p) in
    let n = update p ct m in
    let kept = completed_none-IsConsistent p token (some e) m c in_ in
    let own : n.store p ≡ ct = write_self m.store p ct in
    let still : Conntrack.in_lru (n.store p) ≡ true = ap (λ (x : Conntrack). x.in_lru) own ∙ in_ in
    rw (remove_indexes_live p n kept still) (
      dropped-IsConsistent (record (n.store p) { in_lru = false }) p n
        (ap (λ (x : Conntrack). x.auth_done) own, ap (λ (x : Conntrack). x.pending) own, refl) kept
        still)

pub complete_auth-IsConsistent :
    (auth_id : ℕ) (token : String) (e : Option ConntrackError) (m : ConntrackMgr)
    → IsConsistent m
    → IsConsistent ((complete_auth auth_id token e m).0)
unfolding complete_auth
complete_auth-IsConsistent auth_id token e m c =
    option_both (λ (r : ConntrackMgr × Option (ℕ × List Bytes)). IsConsistent (r.0))
      (lookup auth_id m.by_id) (λ h. c)
      (λ p h.
        let (own, in_) = c.numbered auth_id p h in
        if_both (λ (r : ConntrackMgr × Option (ℕ × List Bytes)). IsConsistent (r.0))
          (Conntrack.auth_done (m.store p)) (λ k. c)
          (λ k. completed-IsConsistent p token e m c in_))

pub cache_packet-IsConsistent :
    (p : ℕ) (meta : PacketMeta) (packet : Bytes) (m : ConntrackMgr)
    → IsConsistent m
    → IsConsistent ((cache_packet p meta packet m).0)
unfolding cache_packet
cache_packet-IsConsistent p meta packet m c =
    let P : ConntrackMgr × Bool × Option ConntrackError → Type 0 = λ r. IsConsistent (r.0) in
    let ct = m.store p in
    if_both P (not (points_to (lookup ct.key m.by_key) p)) (λ h. c)
      (λ h.
        if_both P ct.auth_done (λ k. c)
          (λ k.
            if_both P (leb 1024 (length ct.pending)) (λ l. c)
              (λ l.
                update-IsConsistent p (cached meta packet ct) m
                  (record {
                    same_key = refl;
                    same_id = refl;
                    same_place = refl;
                    woken = λ x y. y;
                    flushed = λ x. absurd (ground arith);
                  })
                  c)))

take_job-IsConsistent :
    (now limit p : ℕ) (b : Batch)
    → IsConsistent b.table
    → IsConsistent (Batch.table (take_job now limit p b))
unfolding take_job
take_job-IsConsistent now limit p b c =
    let P : Batch → Type 0 = λ r. IsConsistent (r.table) in
    let ct = b.table.store p in
    if_both P (b.more || not (is_due now ct)) (λ h. c)
      (λ h.
        if_both P (leb limit (length b.jobs)) (λ k. c)
          (λ k.
            Minor-IsConsistent p (record ct { auth_started = true }) b.table
              (refl, refl, refl, refl, refl) c))

pub take_jobs-IsConsistent :
    (clock : ℕ → ℕ) (limit : ℕ) (list : List ℕ) (b : Batch)
    → IsConsistent b.table
    → IsConsistent (Batch.table (take_jobs clock limit list b))
unfolding take_jobs
take_jobs-IsConsistent clock limit [] b c = c
take_jobs-IsConsistent clock limit (p ∷ list) b c =
    take_jobs-IsConsistent clock limit list (take_job (clock p) limit p b)
      (take_job-IsConsistent (clock p) limit p b c)

expire_one-IsConsistent :
    (now : ℕ) (e : ConntrackError) (p : ℕ) (s : ConntrackMgr × ℕ)
    → IsConsistent (s.0)
    → IsConsistent ((expire_one now e p s).0)
unfolding expire_one
expire_one-IsConsistent now e p (m, n) c =
    let P : ConntrackMgr × ℕ → Type 0 = λ r. IsConsistent (r.0) in
    let ct = m.store p in
    let minor : Minor ct (timed_out ct) = (refl, refl, refl, refl, refl) in
    if_both P (nat_beq ct.auth_deadline 0 || ltb now ct.auth_deadline) (λ h. c)
      (λ h.
        if_both P (ltb (ct.auth_timeouts + 1) auth_max_attempts)
          (λ k.
            Minor-IsConsistent p (retried now (timed_out ct)) m (refl, refl, refl, refl, refl) c)
          (λ k.
            remove_locked-IsConsistent e p (update p (timed_out ct) m)
              (Minor-IsConsistent p (timed_out ct) m minor c)))

pub expire_list-IsConsistent :
    (now : ℕ) (e : ConntrackError) (list : List ℕ) (s : ConntrackMgr × ℕ)
    → IsConsistent (s.0)
    → IsConsistent ((expire_list now e list s).0)
unfolding expire_list
expire_list-IsConsistent now e [] s c = c
expire_list-IsConsistent now e (p ∷ list) s c =
    expire_list-IsConsistent now e list (expire_one now e p s) (expire_one-IsConsistent now e p s c)

pub mark_auth_sent-IsConsistent :
    (auth_id deadline : ℕ) (m : ConntrackMgr)
    → IsConsistent m
    → IsConsistent (mark_auth_sent auth_id deadline m)
unfolding mark_auth_sent
mark_auth_sent-IsConsistent auth_id deadline m c =
    option_both IsConsistent (lookup auth_id m.by_id) (λ h. c)
      (λ p h.
        if_both IsConsistent (Conntrack.auth_done (m.store p)) (λ k. c)
          (λ k.
            Minor-IsConsistent p (record (m.store p) { auth_deadline = deadline }) m
              (refl, refl, refl, refl, refl) c))

pub retry_auth-IsConsistent :
    (now auth_id delay : ℕ) (m : ConntrackMgr)
    → IsConsistent m
    → IsConsistent ((retry_auth now auth_id delay m).0)
unfolding retry_auth
retry_auth-IsConsistent now auth_id delay m c =
    let P : ConntrackMgr × Bool → Type 0 = λ r. IsConsistent (r.0) in
    option_both P (lookup auth_id m.by_id) (λ h. c)
      (λ p h.
        if_both P (Conntrack.auth_done (m.store p)) (λ k. c)
          (λ k.
            Minor-IsConsistent p (retried (now + delay) (m.store p)) m
              (refl, refl, refl, refl, refl) c))

pub remove_key-IsConsistent :
    (key : String) (m : ConntrackMgr) → IsConsistent m → IsConsistent (remove_key key m)
unfolding remove_key
remove_key-IsConsistent key m c =
    option_both IsConsistent (lookup key m.by_key) (λ h. c)
      (λ p h. remove_locked-IsConsistent conntrack_evicted p m c)
