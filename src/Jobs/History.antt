-- ===== src/Jobs/History.antt =====
-- Histories of job_store.py: any sequence of its transactions, one after the other.
use genesis_agents.Base.{ℕ, ◌≡◌, String, Bool, false, none, List, [], ◌∷◌}
use genesis_agents.Base.Result.{after}
use genesis_agents.Jobs.Table.{Store, find_job}
use genesis_agents.Jobs.Operations.{
  NewJob, NewChild, Update, create_job, create_child_job, update_job_status, heartbeat,
  claim_job_by_id, claim_queued_jobs, expire_stale_running_jobs,
}

-- A call, with its arguments and its time.
pub data Op : Type 0 where
  create : ℕ → String → NewJob → Op
  create_child : ℕ → NewChild → Op
  update : ℕ → String → Update → Op
  beat : ℕ → String → Op
  claim_one : ℕ → String → Op
  claim_queued : ℕ → (String → Bool) → ℕ → Op
  reap : ℕ → ℕ → String → Op

unfoldable pub apply : Op → Store → Store
apply (create now job_id n) = after (create_job now job_id n)
apply (create_child now c) = after (create_child_job now c)
apply (update now job_id u) = after (update_job_status now job_id u)
apply (beat now job_id) = after (heartbeat now job_id)
apply (claim_one now job_id) = after (claim_job_by_id now job_id)
apply (claim_queued now locked limit) = after (claim_queued_jobs now locked limit)
apply (reap now stale_minutes message) = after (expire_stale_running_jobs now stale_minutes message)

unfoldable pub run : List Op → Store → Store
run [] s = s
run (op ∷ ops) s = run ops (apply op s)

-- The call does not repeat the id of a child job.
abbrev pub IsFresh : Op → Store → Type 0
IsFresh (create_child now c) s = find_job c.child_job_id s.jobs ≡ none
IsFresh _ s = Unit

abbrev pub AllFresh : List Op → Store → Type 0
AllFresh [] s = Unit
AllFresh (op ∷ ops) s = IsFresh op s × AllFresh ops (apply op s)

-- The call does not ask for a terminal override.
abbrev pub IsAutomatic : Op → Type 0
IsAutomatic (update now job_id u) = u.allow_terminal_override ≡ false
IsAutomatic _ = Unit
