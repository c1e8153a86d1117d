-- ===== src/Jobs/Tenants.antt =====
-- The tenant and the owner of a row under the transactions of job_store.py.
use genesis_agents.Base.{
  ◌≡◌, refl, String, Bool, Option, none, some, List, [], ◌∷◌, ◌++◌, arith, inl, inr, Option-cases,
}
use genesis_agents.Jobs.Table.{Job, Store, find_job, update_where, has_id}
use genesis_agents.Jobs.Operations.{set_clauses, beat_row, claim, is_stale, expire}
use genesis_agents.Jobs.Rows.{find_job-append, find_job-update_where}
use genesis_agents.Jobs.Outcomes.{
  create_job-cases, create_child_job-cases, update_job_status-cases, heartbeat_lem,
  claim_job_by_id-cases, claim_queued_jobs_lem, expire_stale_running_jobs_lem,
}
use genesis_agents.Jobs.History.{
  Op, create, create_child, update, beat, claim_one, claim_queued, reap, apply, run,
}

abbrev pub owners : Job → Option String × Option String
owners j = (j.tenant_id, j.owner_principal_id)

-- The tenant and the owner of the row with this id.
abbrev pub owners_of : String → List Job → Option (Option String × Option String)
owners_of i js = elim (find_job i js) [ none ↦ none | some j ↦ some (owners j) ]

module _ (i : String) (o : Option String × Option String) where
  append-owners :
      (js : List Job) (n : Job) → owners_of i js ≡ some o → owners_of i (js ++ (n ∷ [])) ≡ some o
  append-owners js n h = elim (Option-cases (find_job i js)) [
    | inl e ↦ cc (rw (owners_of, e) at h)
    | inr (j, e) ↦ rw (owners_of, find_job-append i js n, e) (rw (owners_of, e) at h)
  ]

  update_where-owners :
      (p : Job → Bool) (f : Job → Job)
      → ((j : Job) → (f j).id ≡ j.id)
      → ((j : Job) → owners (f j) ≡ owners j)
      → (js : List Job) → owners_of i js ≡ some o
      → owners_of i (update_where p f js) ≡ some o
  update_where-owners p f keep same js h = elim (Option-cases (find_job i js)) [
    | inl e ↦ cc (rw (owners_of, e) at h)
    | inr (j, e) ↦
        rw (owners_of, find_job-update_where p f keep i js, e)
          (ground (arith, same j, rw (owners_of, e) at h))
  ]

  apply-owners :
      (op : Op) (s : Store) → owners_of i s.jobs ≡ some o → owners_of i (apply op s).jobs ≡ some o
  unfolding apply set_clauses claim expire
  apply-owners (create now job_id n) s h = elim (create_job-cases now s job_id n) [
    | inl e ↦ rw e h
    | inr (j, _, free, e) ↦ rw e (append-owners s.jobs j h)
  ]
  apply-owners (create_child now n) s h = elim (create_child_job-cases now s n) [
    | inl (j, e, r) ↦ rw r h
    | inr (e, r) ↦ rw r (append-owners s.jobs _ h)
  ]
  apply-owners (update now job_id u) s h = elim (update_job_status-cases now s job_id u) [
    | inl e ↦ rw e h
    | inr (j, f, r, e) ↦
        rw e
          (update_where-owners (has_id job_id) (set_clauses now u) (λ j. refl) (λ j. refl) s.jobs h)
  ]
  apply-owners (beat now job_id) s h =
      rw (heartbeat_lem now s job_id)
        (update_where-owners (has_id job_id) (beat_row now) (λ j. refl) (λ j. refl) s.jobs h)
  apply-owners (claim_one now job_id) s h = elim (claim_job_by_id-cases now s job_id) [
    | inl e ↦ rw e h
    | inr (j, f, q, e) ↦ rw e (update_where-owners _ (claim now) (λ j. refl) (λ j. refl) s.jobs h)
  ]
  apply-owners (claim_queued now locked limit) s h =
      rw (claim_queued_jobs_lem now s locked limit)
        (update_where-owners _ (claim now) (λ j. refl) (λ j. refl) s.jobs h)
  apply-owners (reap now stale_minutes message) s h =
      rw (expire_stale_running_jobs_lem now s stale_minutes message) (
        update_where-owners (is_stale now stale_minutes) (expire now message) (λ j. refl)
          (λ j. refl) s.jobs h)

  -- A row keeps its tenant and its owner whatever transactions there are.
  pub run-owners :
      (ops : List Op) (s : Store)
      → owners_of i s.jobs ≡ some o
      → owners_of i (run ops s).jobs ≡ some o
  unfolding run
  run-owners [] s h = h
  run-owners (op ∷ ops) s h = run-owners ops (apply op s) (apply-owners op s h)
