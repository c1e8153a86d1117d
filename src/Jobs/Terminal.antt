-- ===== src/Jobs/Terminal.antt =====
-- The terminal statuses of job_store.py under every function.
use mathlib.Core.Bool.{false≢true}
use mathlib.Core.List.{map-append}
use genesis_agents.Base.{
  ℕ, ◌≡◌, refl, String, Bool, true, false, ◌&&◌, none, some, List, [], ◌∷◌, ◌≢◌, eq_iff, contains,
  arith, ◌∙◌, sym, ap, inl, inr, Option-cases,
}
use genesis_agents.Jobs.Table.{Job, Store, is_terminal, find_job, update_where, has_id, ids}
use genesis_agents.Jobs.Operations.{
  Update, refuses, child_row, set_clauses, beat_row, claim, claimable, is_queued, is_stale, expire,
}
use genesis_agents.Jobs.Outcomes.{
  inserted, create_job-cases, create_child_job-cases, update_job_status-cases, heartbeat_lem,
  claim_job_by_id-cases, claim_queued_jobs_lem, expire_stale_running_jobs_lem,
}
use genesis_agents.Jobs.History.{
  Op, create, create_child, update, beat, claim_one, claim_queued, reap, apply, run, IsAutomatic,
}
use genesis_agents.Jobs.Log.{status_in, claimable-queued}
use genesis_agents.Jobs.Rows.{
  Distinct, find_job-append, find_job-id, contains-ids, ids-update_where, find_job-update_where,
  Distinct-append,
}

inserted-Distinct :
    (now : ℕ) (s : Store) (j : Job)
    → find_job j.id s.jobs ≡ none
    → Distinct (ids s.jobs)
    → Distinct (ids (inserted now j s).jobs)
inserted-Distinct now s j free d =
    rw map-append (Distinct-append (ids s.jobs) j.id d (ground (arith, contains-ids j.id s.jobs)))

-- No call makes two rows with one id.
pub apply-Distinct :
    (op : Op) (s : Store) → Distinct (ids s.jobs) → Distinct (ids (apply op s).jobs)
unfolding apply set_clauses claim expire child_row
apply-Distinct (create now job_id n) s d = elim (create_job-cases now s job_id n) [
  | inl e ↦ rw e d
  | inr (j, i, free, e) ↦ rw e (inserted-Distinct now s j (rw i free) d)
]
apply-Distinct (create_child now n) s d = elim (create_child_job-cases now s n) [
  | inl (j, e, r) ↦ rw r d
  | inr (e, r) ↦ rw r (inserted-Distinct now s _ e d)
]
apply-Distinct (update now job_id u) s d = elim (update_job_status-cases now s job_id u) [
  | inl e ↦ rw e d
  | inr (j, f, r, e) ↦
      rw (e, ids-update_where (has_id job_id) (set_clauses now u) (λ k. refl) s.jobs) d
]
apply-Distinct (beat now job_id) s d =
    rw
      (
        heartbeat_lem now s job_id,
        ids-update_where (has_id job_id) (beat_row now) (λ k. refl) s.jobs,
      )
      d
apply-Distinct (claim_one now job_id) s d = elim (claim_job_by_id-cases now s job_id) [
  | inl e ↦ rw e d
  | inr (j, f, q, e) ↦
      rw (e, ids-update_where (λ k. has_id job_id k && is_queued k) (claim now) (λ k. refl) s.jobs)
        d
]
apply-Distinct (claim_queued now locked limit) s d =
    rw
      (
        claim_queued_jobs_lem now s locked limit,
        ids-update_where (λ j. contains (ids (claimable locked limit s.jobs)) j.id) (claim now)
            (λ k. refl) s.jobs,
      )
      d
apply-Distinct (reap now stale_minutes message) s d =
    rw
      (
        expire_stale_running_jobs_lem now s stale_minutes message,
        ids-update_where (is_stale now stale_minutes) (expire now message) (λ k. refl) s.jobs,
      )
      d

-- A terminal status is neither QUEUED nor RUNNING.
pub is_terminal-active : (t : String) → is_terminal t ≡ true → (t ≢ "QUEUED") × (t ≢ "RUNNING")
unfolding is_terminal
is_terminal-active t h = (λ e. false≢true (rw e at h), λ e. false≢true (rw e at h))

module _ (i t : String) (s : Store) (h : status_in i s.jobs ≡ some t) where
  pub inserted_keeps : (now : ℕ) (j : Job) → status_in i (inserted now j s).jobs ≡ some t
  inserted_keeps now j = ground (arith, find_job-append i s.jobs j)

  -- An UPDATE keeps the status of a row that it does not match.
  pub update_keeps :
      (p : Job → Bool) (f : Job → Job)
      → ((j : Job) → (f j).id ≡ j.id)
      → ((j : Job) → find_job i s.jobs ≡ some j → (p j ≡ true) → (f j).status ≡ j.status)
      → status_in i (update_where p f s.jobs) ≡ some t
  update_keeps p f keep same = elim (Option-cases (find_job i s.jobs)) [
    | inl n ↦ ground arith
    | inr (j, m) ↦ ground (arith, find_job-update_where p f keep i s.jobs, same j m)
  ]

module _ (i t : String) (terminal : is_terminal t ≡ true) where
  -- Past the guard, an update of a terminal row without the override writes the status it has.
  admitted_update :
      (s : Store) (job_id : String) (u : Update)
      → status_in i s.jobs ≡ some t
      → (j : Job) → find_job job_id s.jobs ≡ some j
      → refuses u j.status ≡ false
      → u.allow_terminal_override ≡ false
      → (k : Job) → find_job i s.jobs ≡ some k
      → has_id job_id k ≡ true
      → u.new_status ≡ k.status
  admitted_update s job_id u h j f r a k m q =
      let same_id : i ≡ job_id = sym (find_job-id i s.jobs k m) ∙ (eq_iff k.id job_id).0 q in
      let same_row : some k ≡ some j = sym m ∙ (ap (λ x. find_job x s.jobs) same_id ∙ f) in
      ground (arith, same_row, eq_iff u.new_status t)

  -- A call without the override leaves a terminal row's status as it is.
  apply_keeps :
      (op : Op) (s : Store)
      → Distinct (ids s.jobs)
      → IsAutomatic op
      → status_in i s.jobs ≡ some t
      → status_in i (apply op s).jobs ≡ some t
  unfolding apply set_clauses claim expire is_stale
  apply_keeps (create now job_id n) s d a h = elim (create_job-cases now s job_id n) [
    | inl e ↦ rw e h
    | inr (j, _, free, e) ↦ rw e (inserted_keeps i t s h now j)
  ]
  apply_keeps (create_child now n) s d a h = elim (create_child_job-cases now s n) [
    | inl (j, e, r) ↦ rw r h
    | inr (e, r) ↦ rw r (inserted_keeps i t s h now _)
  ]
  apply_keeps (update now job_id u) s d a h = elim (update_job_status-cases now s job_id u) [
    | inl e ↦ rw e h
    | inr (j, f, r, e) ↦ rw e (
        update_keeps i t s h (has_id job_id) (set_clauses now u) (λ k. refl)
          (λ k m q. admitted_update s job_id u h j f r a k m q))
  ]
  apply_keeps (beat now job_id) s d a h =
      rw (heartbeat_lem now s job_id)
        (update_keeps i t s h (has_id job_id) (beat_row now) (λ k. refl) (λ k m q. refl))
  apply_keeps (claim_one now job_id) s d a h = elim (claim_job_by_id-cases now s job_id) [
    | inl e ↦ rw e h
    | inr (j, f, q, e) ↦ rw e (
        update_keeps i t s h (λ k. has_id job_id k && is_queued k) (claim now) (λ k. refl)
          (λ k m q. ground (arith, eq_iff k.status "QUEUED", is_terminal-active t terminal)))
  ]
  apply_keeps (claim_queued now locked limit) s d a h =
      rw (claim_queued_jobs_lem now s locked limit) (
        update_keeps i t s h _ (claim now) (λ k. refl)
          (λ k m q. ground (
            arith,
            eq_iff k.status "QUEUED",
            is_terminal-active t terminal,
            find_job-id i s.jobs k m,
            claimable-queued i locked limit s.jobs d,
          )))
  apply_keeps (reap now stale_minutes message) s d a h =
      rw (expire_stale_running_jobs_lem now s stale_minutes message) (
        update_keeps i t s h (is_stale now stale_minutes) (expire now message) (λ k. refl)
          (λ k m q. ground (arith, eq_iff k.status "RUNNING", is_terminal-active t terminal)))

abbrev pub AllAutomatic : List Op → Type 0
AllAutomatic [] = Unit
AllAutomatic (op ∷ ops) = IsAutomatic op × AllAutomatic ops

-- A job whose status is DELIVERED, FAILED, SETTLED, REFUNDED or EXPIRED still has that status after
-- any sequence of calls in which no update_job_status asks for allow_terminal_override: not the
-- reaper, a claim, a heartbeat nor a late update of the worker moves it.
pub run_keeps_terminal :
    (i t : String) (ops : List Op) (s : Store)
    → Distinct (ids s.jobs)
    → is_terminal t ≡ true
    → AllAutomatic ops
    → status_in i s.jobs ≡ some t
    → status_in i (run ops s).jobs ≡ some t
unfolding run
run_keeps_terminal i t [] s d terminal a h = h
run_keeps_terminal i t (op ∷ ops) s d terminal a h =
    run_keeps_terminal i t ops (apply op s) (apply-Distinct op s d) terminal a.1
      (apply_keeps i t terminal op s d a.0 h)
