-- ===== src/Jobs/Updates.antt =====
-- What update_job_status of job_store.py does to the row that it names.
use genesis_agents.Base.{ℕ, ◌≡◌, refl, String, true, false, some, arith, inl, inr, eq_iff}
use genesis_agents.Base.Result.{after}
use genesis_agents.Jobs.Table.{Job, Store, find_job, has_id, update_where}
use genesis_agents.Jobs.Operations.{Update, update_job_status, refuses, set_clauses}
use genesis_agents.Jobs.Outcomes.{update_job_status-cases}
use genesis_agents.Jobs.Rows.{find_job-update_where, find_job-id}

-- A row in a terminal state refuses an automatic change of status.
pub refused :
    (now : ℕ) (job_id : String) (u : Update) (s : Store) (j : Job)
    → find_job job_id s.jobs ≡ some j
    → refuses u j.status ≡ true
    → after (update_job_status now job_id u) s ≡ s
refused now job_id u s j f r = elim (update_job_status-cases now s job_id u) [
  | inl e ↦ e
  | inr (k, g, q, e) ↦ absurd (ground arith)
]

set_clauses-id : (now : ℕ) (u : Update) (j : Job) → (set_clauses now u j).id ≡ j.id
unfolding set_clauses
set_clauses-id now u j = refl

updated-jobs :
    (now : ℕ) (job_id : String) (u : Update) (s : Store) (j : Job)
    → find_job job_id s.jobs ≡ some j
    → refuses u j.status ≡ false
    → (after (update_job_status now job_id u) s).jobs
      ≡ update_where (has_id job_id) (set_clauses now u) s.jobs
unfolding update_job_status
updated-jobs now job_id u s j f r = ground arith

-- Any other row takes the new status.
pub updated :
    (now : ℕ) (job_id : String) (u : Update) (s : Store) (j : Job)
    → find_job job_id s.jobs ≡ some j
    → refuses u j.status ≡ false
    → find_job job_id (after (update_job_status now job_id u) s).jobs ≡ some (set_clauses now u j)
updated now job_id u s j f r = rw (
  updated-jobs now job_id u s j f r,
  find_job-update_where (has_id job_id) (set_clauses now u) (set_clauses-id now u) job_id s.jobs,
  f,
  (eq_iff j.id job_id).1 (find_job-id job_id s.jobs j f),
)
