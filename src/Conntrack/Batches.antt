-- ===== src/Conntrack/Batches.antt =====
-- The batches of authentication requests.
use distrust_core.Conntrack.{Conntrack, ConntrackMgr, update}
use distrust_core.Conntrack.Auth.{next_auth_batch, take_jobs, take_job, Batch, is_due, is_empty}
use distrust_core.Tunnel.Meta.{PacketMeta}
use distrust_core.Base.{
  ℕ, ◌≤◌, ◌<◌, ◌≡◌, refl, sym, ap, ◌∙◌, true, false, not, ◌||◌, List, [], ◌∷◌, ◌++◌, arith, leb,
  Comparable_nat, Comparable_string, if_both, length, All, length-append, All-append, All-implies,
}

-- A job for a connection that no request was under way for and that has packets.
abbrev pub Waits : ConntrackMgr → ℕ × PacketMeta → Type 0
Waits m (p, meta) =
    (Conntrack.auth_started (m.store p) ≡ false)
    × (is_empty (Conntrack.pending (m.store p)) ≡ false)

-- What holds of a batch while the loop runs, from the table `m`.
record IsBatch (m : ConntrackMgr) (limit : ℕ) (b : Batch) : Type 0 where
  bounded : length b.jobs ≤ limit
  waited : All (Waits m) b.jobs
  marked :
      All (λ (job : ℕ × PacketMeta). Conntrack.auth_started (b.table.store (job.0)) ≡ true) b.jobs
  only_marked :
      (q : ℕ)
      → (Conntrack.pending (b.table.store q) ≡ Conntrack.pending (m.store q))
        × (Conntrack.auth_started (b.table.store q) ≡ false
            → Conntrack.auth_started (m.store q) ≡ false)

taken-IsBatch :
    (m : ConntrackMgr) (now limit p : ℕ) (b : Batch)
    → IsBatch m limit b
    → is_due now (b.table.store p) ≡ true
    → length b.jobs < limit
    → IsBatch m limit (record {
      table = update p (record (b.table.store p) { auth_started = true }) b.table;
      jobs = b.jobs ++ ((p, Conntrack.auth_meta (b.table.store p)) ∷ []);
      more = false;
    })
unfolding is_due
taken-IsBatch m now limit p b c due room =
    let job : ℕ × PacketMeta = (p, Conntrack.auth_meta (b.table.store p)) in
    let (pending, started) = c.only_marked p in
    record {
      bounded = omega (arith, room, length-append b.jobs (job ∷ []));
      waited =
          All-append (Waits m) b.jobs (job ∷ []) c.waited
            ((ground arith, ap is_empty (sym pending) ∙ ground arith), tt);
      marked =
          All-append _ b.jobs (job ∷ []) (All-implies b.jobs (λ other old. ground arith) c.marked)
            (ground arith, tt);
      only_marked = λ q. (ground (arith, c.only_marked q), λ h. ground (arith, c.only_marked q));
    }

take_job-IsBatch :
    (m : ConntrackMgr) (now limit p : ℕ) (b : Batch)
    → IsBatch m limit b
    → IsBatch m limit (take_job now limit p b)
unfolding take_job
take_job-IsBatch m now limit p b c =
    if_both (IsBatch m limit) (b.more || not (is_due now (b.table.store p))) (λ h. c)
      (λ h.
        if_both (IsBatch m limit) (leb limit (length b.jobs))
          (λ k. record {
            bounded = c.bounded;
            waited = c.waited;
            marked = c.marked;
            only_marked = c.only_marked;
          })
          (λ k. taken-IsBatch m now limit p b c (ground arith) (ground arith)))

take_jobs-IsBatch :
    (m : ConntrackMgr) (clock : ℕ → ℕ) (limit : ℕ) (list : List ℕ) (b : Batch)
    → IsBatch m limit b
    → IsBatch m limit (take_jobs clock limit list b)
unfolding take_jobs
take_jobs-IsBatch m clock limit [] b c = c
take_jobs-IsBatch m clock limit (p ∷ list) b c =
    take_jobs-IsBatch m clock limit list (take_job (clock p) limit p b)
      (take_job-IsBatch m (clock p) limit p b c)

-- A batch has at most as many jobs as its limit. Each is for a connection that no request was under
-- way for and that has packets, and the table marks its request as under way.
pub next_auth_batch-Waits :
    (clock : ℕ → ℕ) (limit : ℕ) (m : ConntrackMgr)
    → let b = next_auth_batch clock limit m in
      (length b.jobs ≤ limit)
      × All (Waits m) b.jobs
      × All (λ (job : ℕ × PacketMeta). Conntrack.auth_started (b.table.store (job.0)) ≡ true) b.jobs
unfolding next_auth_batch
next_auth_batch-Waits clock limit m =
    let start : Batch = record { table = m; jobs = []; more = false } in
    let c = take_jobs-IsBatch m clock limit m.lru start (record {
      bounded = omega arith;
      waited = tt;
      marked = tt;
      only_marked = λ q. (refl, λ h. h);
    }) in
    (c.bounded, c.waited, c.marked)
