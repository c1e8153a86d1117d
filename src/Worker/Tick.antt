-- ===== src/Worker/Tick.antt =====
-- execute_job_by_id and run_tick of worker.py: jobs are claimed and then processed one by one.
use genesis_agents.Base.{
  ℕ, String, Bool, true, false, Option, none, some, List, [], length, if◌then◌else◌, nat_eq,
}
use genesis_agents.Base.Json.{Json}
use genesis_agents.Base.Result.{Result, ok, raise, after}
use genesis_agents.Jobs.Table.{Job, Store, DbError, ids}
use genesis_agents.Jobs.Operations.{claim_job_by_id, claim_queued_jobs, expire_stale_running_jobs}
use genesis_agents.Worker.Process.{Env, World, Exception, process_job, process_all}

-- The answers of the two functions; the id in those of execute_job_by_id is the argument's.
pub record Executed : Type 0 where
  pub ok : Bool
  pub error : Option String
  pub expired : ℕ

pub record Ticked : Type 0 where
  pub expired : ℕ
  pub claimed : ℕ
  pub processed : ℕ
  pub job_ids : List String

-- A transaction of the store that does not raise, or the empty answer.
abbrev pub answer_or {ℓ} : {A : Type ℓ} → A → Result DbError (A × Store) → A
answer_or d (ok (a, s)) = a
answer_or d (raise e) = d

abbrev stale_minutes : ℕ
stale_minutes = 5

-- The store after expire_stale_running_jobs, and the number of expired jobs.
abbrev pub reap : ℕ → String → World → World × ℕ
reap now message w = (
  record w { store = after (expire_stale_running_jobs now stale_minutes message) w.store },
  answer_or 0 (expire_stale_running_jobs now stale_minutes message w.store),
)

-- The answer, unless a process_job has raised.
abbrev unless : {A : Type 0} → A → Option Exception → Result Exception A
unless a none = ok a
unless a (some e) = raise e

module _ (dumps : String → Json → Result Exception String) (env : Job → Env) (now : ℕ)
    (message : String) where
  execute_claimed : Option Job → World → ℕ → World × Result Exception Executed
  execute_claimed none w expired =
      (w, ok (record { ok = false; error = some "not_queued_or_missing"; expired = expired }))
  execute_claimed (some job) w expired =
      let (v, raised) = process_job dumps (env job) job w in
      (v, unless (record { ok = true; error = none; expired = expired }) raised)

  unfoldable pub execute_job_by_id : String → World → World × Result Exception Executed
  unfolding execute_claimed
  execute_job_by_id job_id w =
      let (w1, expired) = reap now message w in
      execute_claimed (answer_or none (claim_job_by_id now job_id w1.store))
        (record w1 { store = after (claim_job_by_id now job_id) w1.store }) expired

  -- The rows that other transactions have locked are told by `locked`; `slots` is the limit or
  -- WORKER_CONCURRENCY.
  unfoldable pub run_tick : (String → Bool) → ℕ → Bool → World → World × Result Exception Ticked
  run_tick locked slots expire_stale w =
      let (w1, expired) = if expire_stale then reap now message w else (w, 0) in
      if nat_eq slots 0
      then (w1, ok (record { expired = expired; claimed = 0; processed = 0; job_ids = [] }))
      else (let jobs = answer_or [] (claim_queued_jobs now locked slots w1.store) in
          let (v, raised) =
            process_all dumps env jobs
              (record w1 { store = after (claim_queued_jobs now locked slots) w1.store }) in
          (
            v,
            unless
                (record {
                  expired = expired;
                  claimed = length jobs;
                  processed = length (ids jobs);
                  job_ids = ids jobs;
                })
                raised,
          ))
