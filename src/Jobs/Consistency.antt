-- ===== src/Jobs/Consistency.antt =====
-- The event log and the job rows under the functions of job_store.py.
use mathlib.Core.List.{map-append}
use genesis_agents.Base.{
  ℕ, ◌≡◌, refl, String, Bool, ◌&&◌, Option, none, some, List, [], ◌∷◌, eq_iff, contains, arith, ◌∙◌,
  inl, inr,
}
use genesis_agents.Base.Result.{after}
use genesis_agents.Jobs.Table.{Job, Store, find_job, has_id, ids, status_change}
use genesis_agents.Jobs.Operations.{
  NewJob, NewChild, Update, create_job, create_child_job, child_row, update_job_status, set_clauses,
  heartbeat, beat_row, claim, claim_job_by_id, is_queued, claim_queued_jobs, is_stale, expire,
  expire_stale_running_jobs,
}
use genesis_agents.Jobs.Outcomes.{
  moved, inserted, create_job-cases, create_child_job-cases, update_job_status-cases, heartbeat_lem,
  claim_job_by_id-cases, claim_queued_jobs_lem, expire_stale_running_jobs_lem,
}
use genesis_agents.Jobs.History.{
  Op, create, create_child, update, beat, claim_one, claim_queued, reap, apply, run, IsFresh,
  AllFresh,
}
use genesis_agents.Jobs.Rows.{
  find_job-append, contains-ids, ids-update_where, find_job-update_where, contains-filter,
  Distinct-append,
}
use genesis_agents.Jobs.Log.{
  IsConsistent, move-IsConsistent, last_to, last_to-append, contains-one, found-has_id,
  found-queued, found-claimable,
}

module _ (now : ℕ) (s : Store) (c : IsConsistent s) where
  inserted-IsConsistent : (j : Job) → find_job j.id s.jobs ≡ none → IsConsistent (inserted now j s)
  unfolding last_to
  inserted-IsConsistent j free = record {
    distinct =
        rw map-append
          (Distinct-append (ids s.jobs) j.id c.distinct (ground (arith, contains-ids j.id s.jobs)));
    logged = λ i. ground (
      arith,
      last_to-append i s.events (status_change now none j.status j.id ∷ []),
      find_job-append i s.jobs j,
      c.logged i,
      eq_iff j.id i,
    );
  }

  -- An UPDATE of one row by its key.
  move_one-IsConsistent :
      (job_id : String) (j : Job) (from : Option String) (to : String) (f : Job → Job)
      → find_job job_id s.jobs ≡ some j
      → ((k : Job) → (f k).id ≡ k.id)
      → ((k : Job) → (f k).status ≡ to)
      → IsConsistent (moved now from to (has_id job_id) f (job_id ∷ []) s)
  move_one-IsConsistent job_id j from to f e keep moves =
      move-IsConsistent now from to (has_id job_id) f keep moves s (job_id ∷ []) c
        (λ i. contains-one job_id i ∙ found-has_id i job_id s.jobs j e)

  create-IsConsistent :
      (job_id : String) (n : NewJob) → IsConsistent (after (create_job now job_id n) s)
  create-IsConsistent job_id n = elim (create_job-cases now s job_id n) [
    | inl e ↦ rw e c
    | inr (j, i, free, e) ↦ rw e (inserted-IsConsistent j (rw i free))
  ]

  create_child-IsConsistent :
      (n : NewChild)
      → find_job n.child_job_id s.jobs ≡ none
      → IsConsistent (after (create_child_job now n) s)
  unfolding child_row
  create_child-IsConsistent n free = elim (create_child_job-cases now s n) [
    | inl (j, e, r) ↦ cc
    | inr (e, r) ↦ rw r (inserted-IsConsistent _ free)
  ]

  update-IsConsistent :
      (job_id : String) (u : Update) → IsConsistent (after (update_job_status now job_id u) s)
  unfolding set_clauses
  update-IsConsistent job_id u = elim (update_job_status-cases now s job_id u) [
    | inl e ↦ rw e c
    | inr (j, f, r, e) ↦ rw e (move_one-IsConsistent job_id j _ _ _ f (λ k. refl) (λ k. refl))
  ]

  heartbeat-IsConsistent : (job_id : String) → IsConsistent (after (heartbeat now job_id) s)
  heartbeat-IsConsistent job_id = rw (heartbeat_lem now s job_id) (record {
    distinct = rw (ids-update_where (has_id job_id) (beat_row now) (λ j. refl) s.jobs) c.distinct;
    logged = λ i. ground (
      arith,
      c.logged i,
      find_job-update_where (has_id job_id) (beat_row now) (λ j. refl) i s.jobs,
    );
  })

  claim_one-IsConsistent : (job_id : String) → IsConsistent (after (claim_job_by_id now job_id) s)
  unfolding claim
  claim_one-IsConsistent job_id = elim (claim_job_by_id-cases now s job_id) [
    | inl e ↦ rw e c
    | inr (j, f, q, e) ↦ rw e (
        move-IsConsistent now (some "QUEUED") "RUNNING" (λ k. has_id job_id k && is_queued k)
          (claim now) (λ k. refl) (λ k. refl) s (job_id ∷ []) c
          (λ i. contains-one job_id i ∙ found-queued i job_id s.jobs j f q))
  ]

  claim_queued-IsConsistent :
      (locked : String → Bool) (limit : ℕ)
      → IsConsistent (after (claim_queued_jobs now locked limit) s)
  unfolding claim
  claim_queued-IsConsistent locked limit = rw (claim_queued_jobs_lem now s locked limit) (
      move-IsConsistent now (some "QUEUED") "RUNNING" (λ j. contains _ j.id) (claim now) (λ k. refl)
        (λ k. refl) s _ c (λ i. found-claimable i locked limit s.jobs c.distinct))

  reap-IsConsistent :
      (stale_minutes : ℕ) (message : String)
      → IsConsistent (after (expire_stale_running_jobs now stale_minutes message) s)
  unfolding expire
  reap-IsConsistent stale_minutes message =
      rw (expire_stale_running_jobs_lem now s stale_minutes message) (
        move-IsConsistent now (some "RUNNING") "EXPIRED" (is_stale now stale_minutes)
          (expire now message) (λ k. refl) (λ k. refl) s _ c
          (λ i. contains-filter (is_stale now stale_minutes) i s.jobs c.distinct))

pub apply-IsConsistent :
    (op : Op) (s : Store) → IsFresh op s → IsConsistent s → IsConsistent (apply op s)
unfolding apply
apply-IsConsistent (create now job_id n) s f c = create-IsConsistent now s c job_id n
apply-IsConsistent (create_child now n) s f c = create_child-IsConsistent now s c n f
apply-IsConsistent (update now job_id u) s f c = update-IsConsistent now s c job_id u
apply-IsConsistent (beat now job_id) s f c = heartbeat-IsConsistent now s c job_id
apply-IsConsistent (claim_one now job_id) s f c = claim_one-IsConsistent now s c job_id
apply-IsConsistent (claim_queued now locked limit) s f c =
    claim_queued-IsConsistent now s c locked limit
apply-IsConsistent (reap now stale_minutes message) s f c =
    reap-IsConsistent now s c stale_minutes message

-- Whatever sequence of calls is made from consistent tables, as long as no child id is repeated,
-- the ids stay distinct and the last event of every id names exactly the status of its row, or
-- there is neither.
pub run-IsConsistent :
    (ops : List Op) (s : Store) → AllFresh ops s → IsConsistent s → IsConsistent (run ops s)
unfolding run
run-IsConsistent [] s f c = c
run-IsConsistent (op ∷ ops) s f c =
    run-IsConsistent ops (apply op s) f.1 (apply-IsConsistent op s f.0 c)
