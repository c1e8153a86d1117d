-- ===== src/Jobs/Children.antt =====
-- create_child_job of job_store.py: the owner of a delegated job, and a repeated child id.
use genesis_agents.Base.{
  ℕ, ◌≡◌, refl, sym, ap, ◌∙◌, none, some, [], ◌∷◌, ◌++◌, ◌≢◌, eq_iff, arith, get_or, inl, inr,
}
use genesis_agents.Base.Result.{after}
use genesis_agents.Jobs.Table.{Job, Store, find_job, status_change}
use genesis_agents.Jobs.Operations.{NewChild, child_row, create_child_job}
use genesis_agents.Jobs.Outcomes.{create_child_job-cases}
use genesis_agents.Jobs.Log.{IsConsistent, last_to, last_to-append_one, status_in}
use genesis_agents.Jobs.Rows.{find_job-append}

-- A new child of a job in the table gets a row that is RUNNING with a heartbeat at its creation, and
-- that has the tenant and the owner of its parent's row.
pub child_inherits :
    (now : ℕ) (c : NewChild) (s : Store) (parent : Job)
    → find_job c.child_job_id s.jobs ≡ none
    → find_job c.parent_job_id s.jobs ≡ some parent
    → (child : Job) × (find_job c.child_job_id (after (create_child_job now c) s).jobs ≡ some child)
      × (child.status ≡ "RUNNING")
      × (child.last_heartbeat_at ≡ some now)
      × (child.tenant_id ≡ parent.tenant_id)
      × (child.owner_principal_id ≡ parent.owner_principal_id)
unfolding child_row
child_inherits now c s parent free e = (
  child_row now c (find_job c.parent_job_id s.jobs),
  elim (create_child_job-cases now s c) [
    | inl (j, f, r) ↦ cc
    | inr (f, r) ↦ rw (
      r,
      find_job-append c.child_job_id s.jobs (child_row now c (find_job c.parent_job_id s.jobs)),
      free,
      (eq_iff c.child_job_id c.child_job_id).1 refl,
    )
  ],
  refl,
  refl,
  ground arith,
  ground arith,
)

-- A call that repeats a child's id leaves every row as it is, and yet logs a change to RUNNING; so
-- where the child's status is not RUNNING, the log and the rows no longer agree.
pub child_again :
    (now : ℕ) (c : NewChild) (s : Store) (j : Job)
    → find_job c.child_job_id s.jobs ≡ some j
    → j.status ≢ "RUNNING"
    → ((after (create_child_job now c) s).jobs ≡ s.jobs)
      × (last_to c.child_job_id (after (create_child_job now c) s).events ≡ some "RUNNING")
      × (¬ IsConsistent (after (create_child_job now c) s))
child_again now c s j m other = elim (create_child_job-cases now s c) [
  | inr (e, r) ↦ cc
  | inl (k, e, r) ↦ (rw r, said r, λ t. other (wrong r t))
]
  where
    event_only : Store
    event_only = record s {
      events = s.events ++ (status_change now none "RUNNING" c.child_job_id ∷ []);
    }

    said :
        after (create_child_job now c) s ≡ event_only
        → last_to c.child_job_id (after (create_child_job now c) s).events ≡ some "RUNNING"
    said r =
        ap (λ t. last_to c.child_job_id t.events) r
        ∙ last_to-append_one c.child_job_id now none "RUNNING" s.events

    m_status : status_in c.child_job_id s.jobs ≡ some j.status
    m_status = rw (m, status_in)

    wrong :
        after (create_child_job now c) s ≡ event_only
        → IsConsistent (after (create_child_job now c) s)
        → j.status ≡ "RUNNING"
    wrong r t =
        ap (λ o. get_or o j.status)
          (sym m_status
            ∙ (sym (ap (λ u. status_in c.child_job_id u.jobs) r)
                ∙ (sym (t.logged c.child_job_id) ∙ said r)))
