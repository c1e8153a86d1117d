-- ===== src/Jobs/Reaper.antt =====
-- expire_stale_running_jobs of job_store.py, and the signs of life that it reads.
use genesis_agents.Base.{
  ℕ, ◌+◌, ◌≤◌, ◌<◌, ◌≡◌, refl, ◌∙◌, String, Bool, true, some, ◌≢◌, eq_iff, if◌then◌else◌, contains,
  arith, ◌⊎◌, inl, inr, Bool-cases,
}
use genesis_agents.Base.Result.{after}
use genesis_agents.Jobs.Table.{Job, Store, find_job, has_id, ids}
use genesis_agents.Jobs.Operations.{
  beat_row, heartbeat, claim, claimable, claim_queued_jobs, is_stale, expire, last_sign, minutes,
  expire_stale_running_jobs,
}
use genesis_agents.Jobs.Outcomes.{
  heartbeat_lem, claim_queued_jobs_lem, expire_stale_running_jobs_lem,
}
use genesis_agents.Jobs.Rows.{find_job-id, find_job-update_where}

module _ (now stale_minutes : ℕ) (message : String) (i : String) (s : Store) (j : Job)
    (m : find_job i s.jobs ≡ some j) where
  reap-row :
      find_job i (after (expire_stale_running_jobs now stale_minutes message) s).jobs
      ≡ some (if is_stale now stale_minutes j then expire now message j else j)
  unfolding expire
  reap-row = rw (
    expire_stale_running_jobs_lem now s stale_minutes message,
    find_job-update_where (is_stale now stale_minutes) (expire now message) (λ k. refl) i s.jobs,
    m,
  )

  -- A row with a sign of life in the last N minutes is left alone.
  pub reap_spares :
      now ≤ last_sign j + minutes stale_minutes
      → find_job i (after (expire_stale_running_jobs now stale_minutes message) s).jobs ≡ some j
  unfolding is_stale
  reap_spares h = reap-row ∙ ground arith

  -- The reaper changes the row of an id exactly when it is RUNNING and its last heartbeat (or, with
  -- none, its start, or its creation) is more than N minutes old; then the row becomes
  -- what `expire` makes of it.
  pub reap_exact :
      ((j.status ≡ "RUNNING")
        × (last_sign j + minutes stale_minutes < now)
        × (find_job i (after (expire_stale_running_jobs now stale_minutes message) s).jobs
            ≡ some (expire now message j)))
      ⊎ (((j.status ≢ "RUNNING") ⊎ (now ≤ last_sign j + minutes stale_minutes))
          × (find_job i (after (expire_stale_running_jobs now stale_minutes message) s).jobs
              ≡ some j))
  unfolding is_stale
  reap_exact = elim (Bool-cases (is_stale now stale_minutes j)) [
    | inl e ↦ inl (ground (arith, eq_iff j.status "RUNNING"), ground arith, reap-row ∙ ground arith)
    | inr e ↦ inr (ground (arith, eq_iff j.status "RUNNING"), reap-row ∙ ground arith)
  ]

-- A job that sent a heartbeat at some time is, but for that heartbeat, as it was after every sweep of
-- the reaper that runs within the next `stale_minutes`.
pub heartbeat_spares :
    (t now stale_minutes : ℕ) (message i : String) (s : Store) (j : Job)
    → find_job i s.jobs ≡ some j
    → now ≤ t + minutes stale_minutes
    → find_job i
        (after (expire_stale_running_jobs now stale_minutes message) (after (heartbeat t i) s)).jobs
      ≡ some (beat_row t j)
heartbeat_spares t now stale_minutes message i s j m h =
    reap_spares now stale_minutes message i (after (heartbeat t i) s) (beat_row t j) beaten h
  where
    same : has_id i j ≡ true
    same = (eq_iff j.id i).1 (find_job-id i s.jobs j m)

    beaten : find_job i (after (heartbeat t i) s).jobs ≡ some (beat_row t j)
    beaten = rw (
      heartbeat_lem t s i,
      find_job-update_where (has_id i) (beat_row t) (λ k. refl) i s.jobs,
      m,
      same,
    )

-- A job that claim_queued_jobs took at some time is as that claim left it after every sweep of the
-- reaper that runs within the next `stale_minutes`, with no heartbeat of its own.
pub claim_spares :
    (t now stale_minutes limit : ℕ) (message i : String) (locked : String → Bool) (s : Store)
    (j : Job)
    → find_job i s.jobs ≡ some j
    → now ≤ t + minutes stale_minutes
    → contains (ids (claimable locked limit s.jobs)) i ≡ true
    → find_job i
        (after
          (expire_stale_running_jobs now stale_minutes message)
          (after (claim_queued_jobs t locked limit) s)).jobs
      ≡ some (claim t j)
unfolding claim
claim_spares t now stale_minutes limit message i locked s j m h c =
    reap_spares now stale_minutes message i (after (claim_queued_jobs t locked limit) s) (claim t j)
      claimed h
  where
    claimed : find_job i (after (claim_queued_jobs t locked limit) s).jobs ≡ some (claim t j)
    claimed = rw (
      claim_queued_jobs_lem t s locked limit,
      find_job-update_where (λ k. contains (ids (claimable locked limit s.jobs)) k.id) (claim t)
          (λ k. refl) i s.jobs,
      m,
      find_job-id i s.jobs j m,
      c,
    )
