-- ===== src/Jobs/Outcomes.antt =====
-- What each function of job_store.py does to the tables, branch by branch: it leaves them as they
-- are, inserts one row and its event, or moves some rows and writes an event for each.
use genesis_agents.Base.{
  ℕ, ◌≡◌, refl, String, Bool, true, false, ◌&&◌, Option, none, some, List, [], ◌∷◌, ◌++◌, contains,
  filter, map, arith, ◌⊎◌, inl, inr, Option-cases, Bool-cases,
}
use genesis_agents.Base.Result.{after}
use genesis_agents.Jobs.Table.{
  Job, Store, find_job, id_is_free, key_is_free, update_where, has_id, ids, status_change,
}
use genesis_agents.Jobs.Operations.{
  NewJob, NewChild, Update, create_job, create_child_job, existing, new_row, child_row,
  update_job_status, set_clauses, refuses, heartbeat, beat_row, claim, claim_job_by_id, claimable,
  is_queued, claim_queued_jobs, is_stale, expire, expire_stale_running_jobs,
}

-- The tables after an UPDATE of the rows with `p`, and one event for each of `xs`.
abbrev pub moved :
    ℕ → Option String → String → (Job → Bool) → (Job → Job) → List String → Store → Store
moved now from to p f xs s = record {
  jobs = update_where p f s.jobs;
  events = s.events ++ map (status_change now from to) xs;
}

-- The tables after an INSERT of a row with its first event.
abbrev pub inserted : ℕ → Job → Store → Store
inserted now j s = record {
  jobs = s.jobs ++ (j ∷ []);
  events = s.events ++ (status_change now none j.status j.id ∷ []);
}

module _ (now : ℕ) (s : Store) where
  pub create_job-cases :
      (job_id : String) (n : NewJob)
      → (after (create_job now job_id n) s ≡ s)
        ⊎ ((j : Job) × (j.id ≡ job_id)
            × (find_job job_id s.jobs ≡ none)
            × (after (create_job now job_id n) s ≡ inserted now j s))
  unfolding create_job
  create_job-cases job_id n = elim (Option-cases (existing n.idempotency_key s.jobs)) [
    | inr (j, e) ↦ inl (ground arith)
    | inl e ↦ elim (Bool-cases (id_is_free job_id s.jobs && key_is_free n.idempotency_key s.jobs)) [
      | inl free ↦ inr (new_row now job_id n, refl, ground arith, ground arith)
      | inr taken ↦ inl (ground arith)
    ]
  ]

  pub update_job_status-cases :
      (job_id : String) (u : Update)
      → (after (update_job_status now job_id u) s ≡ s)
        ⊎ ((j : Job) × (find_job job_id s.jobs ≡ some j)
            × (refuses u j.status ≡ false)
            × (after (update_job_status now job_id u) s
                ≡ moved now
                    (some j.status)
                    u.new_status
                    (has_id job_id)
                    (set_clauses now u)
                    (job_id ∷ [])
                    s))
  unfolding update_job_status
  update_job_status-cases job_id u = elim (Option-cases (find_job job_id s.jobs)) [
    | inl e ↦ inl (ground arith)
    | inr (j, e) ↦ elim (Bool-cases (refuses u j.status)) [
      | inl r ↦ inl (ground arith)
      | inr r ↦ inr (j, e, r, ground arith)
    ]
  ]

  -- A repeated child id inserts no row; its event is written all the same.
  pub create_child_job-cases :
      (c : NewChild)
      → ((j : Job) × (find_job c.child_job_id s.jobs ≡ some j)
          × (after (create_child_job now c) s ≡ record s {
            events = s.events ++ (status_change now none "RUNNING" c.child_job_id ∷ []);
          }))
        ⊎ ((find_job c.child_job_id s.jobs ≡ none)
            × (after (create_child_job now c) s
                ≡ inserted now (child_row now c (find_job c.parent_job_id s.jobs)) s))
  unfolding create_child_job
  create_child_job-cases c = elim (Option-cases (find_job c.child_job_id s.jobs)) [
    | inl e ↦ inr (e, ground arith)
    | inr (j, e) ↦ inl (j, e, ground arith)
  ]

  pub heartbeat_lem :
      (job_id : String)
      → after (heartbeat now job_id) s
        ≡ record s { jobs = update_where (has_id job_id) (beat_row now) s.jobs }
  unfolding heartbeat
  heartbeat_lem job_id = refl

  module _ (job_id : String) (j : Job) (e : find_job job_id s.jobs ≡ some j) where
    pub claim_job_by_id-queued :
        is_queued j ≡ true
        → after (claim_job_by_id now job_id) s
          ≡ moved now
              (some "QUEUED")
              "RUNNING"
              (λ k. has_id job_id k && is_queued k)
              (claim now)
              (job_id ∷ [])
              s
    unfolding claim_job_by_id
    claim_job_by_id-queued q = ground arith

    pub claim_job_by_id-other : is_queued j ≡ false → after (claim_job_by_id now job_id) s ≡ s
    unfolding claim_job_by_id
    claim_job_by_id-other q = ground arith

  pub claim_job_by_id-cases :
      (job_id : String)
      → (after (claim_job_by_id now job_id) s ≡ s)
        ⊎ ((j : Job) × (find_job job_id s.jobs ≡ some j)
            × (is_queued j ≡ true)
            × (after (claim_job_by_id now job_id) s
                ≡ moved now
                    (some "QUEUED")
                    "RUNNING"
                    (λ k. has_id job_id k && is_queued k)
                    (claim now)
                    (job_id ∷ [])
                    s))
  unfolding claim_job_by_id
  claim_job_by_id-cases job_id = elim (Option-cases (find_job job_id s.jobs)) [
    | inl e ↦ inl (ground arith)
    | inr (j, e) ↦ elim (Bool-cases (is_queued j)) [
      | inl q ↦ inr (j, e, q, claim_job_by_id-queued job_id j e q)
      | inr q ↦ inl (claim_job_by_id-other job_id j e q)
    ]
  ]

  pub claim_queued_jobs_lem :
      (locked : String → Bool) (limit : ℕ)
      → after (claim_queued_jobs now locked limit) s ≡ (
          let xs = ids (claimable locked limit s.jobs) in
          moved now (some "QUEUED") "RUNNING" (λ j. contains xs j.id) (claim now) xs s)
  unfolding claim_queued_jobs
  claim_queued_jobs_lem locked limit = refl

  pub expire_stale_running_jobs_lem :
      (stale_minutes : ℕ) (message : String)
      → after (expire_stale_running_jobs now stale_minutes message) s
        ≡ moved now
            (some "RUNNING")
            "EXPIRED"
            (is_stale now stale_minutes)
            (expire now message)
            (ids (filter (is_stale now stale_minutes) s.jobs))
            s
  unfolding expire_stale_running_jobs
  expire_stale_running_jobs_lem stale_minutes message = refl
