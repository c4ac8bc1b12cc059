-- ===== src/Conntrack/Steps.antt =====
-- Each step of the methods keeps the result of an authentication that is over.
use Prim.Native.String.{String}
use mathlib.Core.Option.{some-injective}
use distrust_core.Conntrack.{
  Conntrack, ConntrackMgr, ConntrackError, conntrack_evicted, net_closed, update, points_to,
  remove_locked, refresh,
}
use distrust_core.Conntrack.Auth.{
  observe_packet, observe, observe_payload, observe_segment, complete_auth, completed, completion,
  cache_packet, cached, take_jobs, take_job, Batch, is_due, next_auth_batch, mark_auth_sent,
  expire_list, expire_one, expire_auth, timed_out, retried, auth_max_attempts, retry_auth,
  remove_key, remove_all, close,
}
use distrust_core.Conntrack.Reach.{
  Step, gets, observes, completes, caches, batches, marks, expires_auth, retries, removes, sweeps,
  closes,
}
use distrust_core.Tunnel.Meta.{PacketMeta}
use distrust_core.Base.{
  ℕ, ◌+◌, ◌≡◌, ap, subst, Bool, true, false, not, ◌||◌, Option, none, some, List, [], ◌∷◌, arith,
  ltb, leb, nat_beq, Comparable_nat, Comparable_string, if_both, option_both, length,
  then_some_gave, lookup, Bytes,
}
use distrust_core.Conntrack.Standing.{
  Holds, Stands, update-Stands, update_open-Stands, remove_indexes-Stands, remove_locked-Stands,
  remove_expired-Stands, refresh-Stands, get_or_create-Stands,
}

module _ (p : ℕ) (token : String) (e : Option ConntrackError) where
  observe-Holds :
      (now : ℕ) (incoming : Bool) (packet : Bytes) (old ct : Conntrack)
      → observe now incoming packet old ≡ some ct
      → Holds p token e old
      → Holds p token e ct
  unfolding observe observe_payload observe_segment
  observe-Holds now incoming packet old ct h (over, same, result) =
      (ground arith, ground arith, ground arith)

  observe_packet-Stands :
      (now : ℕ) (key : String) (packet : Bytes) (incoming : Bool) (m n : ConntrackMgr) (seen : Bool)
      → observe_packet now key packet incoming m ≡ some (n, seen)
      → Stands p token e m
      → Stands p token e n
  unfolding observe_packet
  observe_packet-Stands now key packet incoming m n seen is over =
      let P : Option (ConntrackMgr × Bool) → Type 0 =
        λ o. o ≡ some (n, seen) → Stands p token e n in
      let first : ConntrackMgr × Bool → ConntrackMgr = λ r. r.0 in
      option_both P (lookup key m.by_key)
        (λ _ made. subst (Stands p token e) (ap first (some-injective _ _ made)) over)
        (λ q _ made.
          let (refreshed, done, then_) = then_some_gave (refresh now q m) _ made in
          let (ct, observed, last) =
            then_some_gave (observe now incoming packet (refreshed.store q)) _ then_ in
          subst (Stands p token e) (ap first (some-injective _ _ last)) (
            update-Stands p token e q ct refreshed
              (observe-Holds now incoming packet (refreshed.store q) ct observed)
              (refresh-Stands p token e now q m refreshed done over)))
        is

  completion-Stands :
      (why : Option ConntrackError) (q : ℕ) (packets : List Bytes) (m : ConntrackMgr)
      → Stands p token e m
      → Stands p token e ((completion why q packets m).0)
  completion-Stands none q packets m over = over
  completion-Stands (some why) q packets m over = remove_indexes-Stands p token e q m over

  complete_auth-Stands :
      (auth_id : ℕ) (given : String) (why : Option ConntrackError) (m : ConntrackMgr)
      → Stands p token e m
      → Stands p token e ((complete_auth auth_id given why m).0)
  unfolding complete_auth
  complete_auth-Stands auth_id given why m over =
      let P : ConntrackMgr × Option (ℕ × List Bytes) → Type 0 = λ r. Stands p token e (r.0) in
      option_both P (lookup auth_id m.by_id) (λ _. over)
        (λ q _.
          if_both P (Conntrack.auth_done (m.store q)) (λ _. over)
            (λ open_.
              completion-Stands why q (Conntrack.pending (m.store q))
                (update q (completed given why (m.store q)) m)
                (update_open-Stands p token e q (completed given why (m.store q)) m open_ over)))

  cache_packet-Stands :
      (q : ℕ) (meta : PacketMeta) (packet : Bytes) (m : ConntrackMgr)
      → Stands p token e m
      → Stands p token e ((cache_packet q meta packet m).0)
  unfolding cache_packet
  cache_packet-Stands q meta packet m over =
      let P : ConntrackMgr × Bool × Option ConntrackError → Type 0 = λ r. Stands p token e (r.0) in
      let ct = m.store q in
      if_both P (not (points_to (lookup ct.key m.by_key) q)) (λ _. over)
        (λ _.
          if_both P ct.auth_done (λ _. over)
            (λ open_.
              if_both P (leb 1024 (length ct.pending)) (λ _. over)
                (λ _. update_open-Stands p token e q (cached meta packet ct) m open_ over)))

  take_jobs-Stands :
      (clock : ℕ → ℕ) (limit : ℕ) (list : List ℕ) (b : Batch)
      → Stands p token e b.table
      → Stands p token e (Batch.table (take_jobs clock limit list b))
  unfolding take_jobs take_job
  take_jobs-Stands clock limit [] b over = over
  take_jobs-Stands clock limit (q ∷ list) b over =
      let P : Batch → Type 0 = λ r. Stands p token e r.table in
      let ct = b.table.store q in
      take_jobs-Stands clock limit list (take_job (clock q) limit q b) (
        if_both P (b.more || not (is_due (clock q) ct)) (λ _. over)
          (λ _.
            if_both P (leb limit (length b.jobs)) (λ _. over)
              (λ _.
                update-Stands p token e q (record ct { auth_started = true }) b.table (λ kept. kept)
                  over)))

  expire_one-Stands :
      (now : ℕ) (why : ConntrackError) (q : ℕ) (s : ConntrackMgr × ℕ)
      → Stands p token e (s.0)
      → Stands p token e ((expire_one now why q s).0)
  unfolding expire_one
  expire_one-Stands now why q (m, n) over =
      let P : ConntrackMgr × ℕ → Type 0 = λ r. Stands p token e (r.0) in
      let ct = m.store q in
      if_both P (nat_beq ct.auth_deadline 0 || ltb now ct.auth_deadline) (λ _. over)
        (λ _.
          if_both P (ltb (ct.auth_timeouts + 1) auth_max_attempts)
            (λ _. update-Stands p token e q (retried now (timed_out ct)) m (λ kept. kept) over)
            (λ _.
              remove_locked-Stands p token e why q (update q (timed_out ct) m)
                (update-Stands p token e q (timed_out ct) m (λ kept. kept) over)))

  expire_list-Stands :
      (now : ℕ) (why : ConntrackError) (list : List ℕ) (s : ConntrackMgr × ℕ)
      → Stands p token e (s.0)
      → Stands p token e ((expire_list now why list s).0)
  unfolding expire_list
  expire_list-Stands now why [] s over = over
  expire_list-Stands now why (q ∷ list) s over =
      expire_list-Stands now why list (expire_one now why q s) (expire_one-Stands now why q s over)

  mark_auth_sent-Stands :
      (auth_id deadline : ℕ) (m : ConntrackMgr)
      → Stands p token e m
      → Stands p token e (mark_auth_sent auth_id deadline m)
  unfolding mark_auth_sent
  mark_auth_sent-Stands auth_id deadline m over =
      option_both (Stands p token e) (lookup auth_id m.by_id) (λ _. over)
        (λ q _.
          if_both (Stands p token e) (Conntrack.auth_done (m.store q)) (λ _. over)
            (λ open_.
              update_open-Stands p token e q (record (m.store q) { auth_deadline = deadline }) m
                open_ over))

  retry_auth-Stands :
      (now auth_id delay : ℕ) (m : ConntrackMgr)
      → Stands p token e m
      → Stands p token e ((retry_auth now auth_id delay m).0)
  unfolding retry_auth
  retry_auth-Stands now auth_id delay m over =
      let P : ConntrackMgr × Bool → Type 0 = λ r. Stands p token e (r.0) in
      option_both P (lookup auth_id m.by_id) (λ _. over)
        (λ q _.
          if_both P (Conntrack.auth_done (m.store q)) (λ _. over)
            (λ open_.
              update_open-Stands p token e q (retried (now + delay) (m.store q)) m open_ over))

  remove_key-Stands :
      (key : String) (m : ConntrackMgr) → Stands p token e m → Stands p token e (remove_key key m)
  unfolding remove_key
  remove_key-Stands key m over =
      option_both (Stands p token e) (lookup key m.by_key) (λ _. over)
        (λ q _. remove_locked-Stands p token e conntrack_evicted q m over)

  remove_all-Stands :
      (entries : List (String × ℕ)) (m : ConntrackMgr)
      → Stands p token e m
      → Stands p token e (remove_all entries m)
  remove_all-Stands [] m over = over
  remove_all-Stands ((key, q) ∷ entries) m over =
      remove_all-Stands entries (remove_locked net_closed q m)
        (remove_locked-Stands p token e net_closed q m over)

  pub Step-Stands : {m n : ConntrackMgr} → Step m n → Stands p token e m → Stands p token e n
  unfolding next_auth_batch expire_auth close
  Step-Stands {m} (gets now key app_id group n q positive small h) over =
      get_or_create-Stands p token e now key app_id group m n q h over
  Step-Stands {m} (observes now key packet incoming n seen h) over =
      observe_packet-Stands now key packet incoming m n seen h over
  Step-Stands {m} (completes auth_id given why n h) over =
      subst (Stands p token e) h (complete_auth-Stands auth_id given why m over)
  Step-Stands {m} (caches q meta packet n h) over =
      subst (Stands p token e) h (cache_packet-Stands q meta packet m over)
  Step-Stands {m} (batches clock limit n h) over =
      subst (Stands p token e) h
        (take_jobs-Stands clock limit m.lru (record { table = m; jobs = []; more = false }) over)
  Step-Stands {m} (marks auth_id deadline n h) over =
      subst (Stands p token e) h (mark_auth_sent-Stands auth_id deadline m over)
  Step-Stands {m} (expires_auth now why n h) over =
      subst (Stands p token e) h (expire_list-Stands now why m.lru (m, 0) over)
  Step-Stands {m} (retries now auth_id delay n h) over =
      subst (Stands p token e) h (retry_auth-Stands now auth_id delay m over)
  Step-Stands {m} (removes key n h) over = subst (Stands p token e) h (remove_key-Stands key m over)
  Step-Stands {m} (sweeps now n h) over =
      subst (Stands p token e) h (remove_expired-Stands p token e now m over)
  Step-Stands {m} (closes n h) over =
      subst (Stands p token e) h (remove_all-Stands m.by_key (record m { closed = true }) over)
