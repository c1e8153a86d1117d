-- ===== src/Jobs/Idempotency.antt =====
-- create_job of job_store.py under an idempotency key.
use genesis_agents.Base.{
  ℕ, ◌≡◌, ◌≢◌, refl, sym, ap, ◌∙◌, String, Bool, true, false, Option, none, some, List, [], ◌∷◌,
  ◌++◌, eq_iff, arith, inl, inr, Option-cases, Bool-cases, subst,
}
use genesis_agents.Base.Result.{Result, ok, raise}
use genesis_agents.Jobs.Table.{
  Job, Store, DbError, unique_violation, find_key, update_where, has_id, id_is_free,
}
use genesis_agents.Jobs.Operations.{
  NewJob, Created, create_job, new_row, set_clauses, beat_row, claim, is_stale, expire,
}
use genesis_agents.Jobs.Outcomes.{
  inserted, create_job-cases, create_child_job-cases, update_job_status-cases, heartbeat_lem,
  claim_job_by_id-cases, claim_queued_jobs_lem, expire_stale_running_jobs_lem,
}
use genesis_agents.Jobs.History.{
  Op, create, create_child, update, beat, claim_one, claim_queued, reap, apply, run,
}

-- The id of the row with this key.
abbrev pub key_owner : String → List Job → Option String
key_owner k js = elim (find_key k js) [ none ↦ none | some j ↦ some j.id ]

key_owner-append :
    (k i : String) (js : List Job) (n : Job)
    → key_owner k js ≡ some i
    → key_owner k (js ++ (n ∷ [])) ≡ some i
unfolding find_key
key_owner-append k i [] n h = ground arith
key_owner-append k i (j ∷ js) n h = ground (arith, key_owner-append k i js n)

key_owner-update_where :
    (k : String) (p : Job → Bool) (f : Job → Job)
    → ((j : Job) → (f j).id ≡ j.id)
    → ((j : Job) → (f j).idempotency_key ≡ j.idempotency_key)
    → (js : List Job) → key_owner k (update_where p f js) ≡ key_owner k js
unfolding find_key update_where
key_owner-update_where k p f keep keep_key [] = refl
key_owner-update_where k p f keep keep_key (j ∷ js) =
    ground (arith, keep j, keep_key j, key_owner-update_where k p f keep keep_key js)

module _ (k i : String) where
  apply-key_owner :
      (op : Op) (s : Store) → key_owner k s.jobs ≡ some i → key_owner k (apply op s).jobs ≡ some i
  unfolding apply set_clauses claim expire
  apply-key_owner (create now job_id n) s h = elim (create_job-cases now s job_id n) [
    | inl e ↦ rw e h
    | inr (j, _, free, e) ↦ rw e (key_owner-append k i s.jobs j h)
  ]
  apply-key_owner (create_child now n) s h = elim (create_child_job-cases now s n) [
    | inl (j, e, r) ↦ rw r h
    | inr (e, r) ↦ rw r (key_owner-append k i s.jobs _ h)
  ]
  apply-key_owner (update now job_id u) s h = elim (update_job_status-cases now s job_id u) [
    | inl e ↦ rw e h
    | inr (j, f, r, e) ↦ rw e (
        key_owner-update_where k (has_id job_id) (set_clauses now u) (λ j. refl) (λ j. refl) s.jobs
        ∙ h)
  ]
  apply-key_owner (beat now job_id) s h =
      rw (heartbeat_lem now s job_id)
        (key_owner-update_where k (has_id job_id) (beat_row now) (λ j. refl) (λ j. refl) s.jobs ∙ h)
  apply-key_owner (claim_one now job_id) s h = elim (claim_job_by_id-cases now s job_id) [
    | inl e ↦ rw e h
    | inr (j, f, q, e) ↦
        rw e (key_owner-update_where k _ (claim now) (λ j. refl) (λ j. refl) s.jobs ∙ h)
  ]
  apply-key_owner (claim_queued now locked limit) s h =
      rw (claim_queued_jobs_lem now s locked limit)
        (key_owner-update_where k _ (claim now) (λ j. refl) (λ j. refl) s.jobs ∙ h)
  apply-key_owner (reap now stale_minutes message) s h =
      rw (expire_stale_running_jobs_lem now s stale_minutes message) (
        key_owner-update_where k (is_stale now stale_minutes) (expire now message) (λ j. refl)
          (λ j. refl) s.jobs
        ∙ h)

  run-key_owner :
      (ops : List Op) (s : Store)
      → key_owner k s.jobs ≡ some i
      → key_owner k (run ops s).jobs ≡ some i
  unfolding run
  run-key_owner [] s h = h
  run-key_owner (op ∷ ops) s h = run-key_owner ops (apply op s) (apply-key_owner op s h)

  -- A request with a key that a row owns returns that row's id and changes nothing.
  create_job-hit :
      (now : ℕ) (job_id : String) (n : NewJob) (s : Store)
      → n.idempotency_key ≡ some k
      → k ≢ ""
      → key_owner k s.jobs ≡ some i
      → (r : Created) × (create_job now job_id n s ≡ ok (r, s))
        × (r.id ≡ i)
        × (r.idempotent_hit ≡ true)
  unfolding create_job
  create_job-hit now job_id n s e ne h = elim (Option-cases (find_key k s.jobs)) [
    | inl m ↦ absurd (ground arith)
    | inr (j, m) ↦ (
      record { id = j.id; status = j.status; created_at = none; idempotent_hit = true },
      ground (arith, eq_iff k ""),
      ground arith,
      refl,
    )
  ]

key_owner-found :
    (k : String) (n : Job) (js : List Job)
    → n.idempotency_key ≡ some k
    → find_key k js ≡ none
    → key_owner k (js ++ (n ∷ [])) ≡ some n.id
unfolding find_key
key_owner-found k n [] e h = ground (arith, eq_iff k k)
key_owner-found k n (j ∷ js) e h = ground (arith, key_owner-found k n js e)

-- A result that names the row which owns the key.
abbrev Owns : String → Result DbError (Created × Store) → Type 0
Owns k (ok (r, t)) = key_owner k t.jobs ≡ some r.id
Owns k (raise e) = Unit

module _ (now : ℕ) (job_id k : String) (n : NewJob) (s : Store) (e : n.idempotency_key ≡ some k)
    (m : find_key k s.jobs ≡ none) where
  create_job-new :
      id_is_free job_id s.jobs ≡ true
      → create_job now job_id n s
        ≡ ok (
          record { id = job_id; status = "QUEUED"; created_at = some now; idempotent_hit = false },
          inserted now (new_row now job_id n) s,
        )
  unfolding create_job
  create_job-new free = ground arith

  create_job-refused :
      id_is_free job_id s.jobs ≡ false → create_job now job_id n s ≡ raise unique_violation
  unfolding create_job
  create_job-refused taken = ground arith

create_job-Owns :
    (now : ℕ) (job_id k : String) (n : NewJob) (s : Store)
    → n.idempotency_key ≡ some k
    → k ≢ ""
    → Owns k (create_job now job_id n s)
unfolding create_job
create_job-Owns now job_id k n s e ne = elim (Option-cases (find_key k s.jobs)) [
  | inr (j, m) ↦
      let owner : key_owner k s.jobs ≡ some j.id = rw (m, key_owner) in
      let (r, hit, same, _) = create_job-hit k j.id now job_id n s e ne owner in
      subst (Owns k) (sym hit) (owner ∙ ap some (sym same))
  | inl m ↦ elim (Bool-cases (id_is_free job_id s.jobs)) [
    | inl free ↦
        subst (Owns k) (sym (create_job-new now job_id k n s e m free))
          (key_owner-found k (new_row now job_id n) s.jobs e m)
    | inr taken ↦ subst (Owns k) (sym (create_job-refused now job_id k n s e m taken)) tt
  ]
]

-- After create_job has answered a request with a non-empty idempotency key, every later request
-- with that key gets the id that was given then, marked as an idempotent hit, and changes nothing,
-- whatever calls are made in between.
pub create_job_idempotent :
    (now now' : ℕ) (job_id job_id' k : String) (n n' : NewJob) (s s' : Store) (r : Created)
    (ops : List Op)
    → create_job now job_id n s ≡ ok (r, s')
    → n.idempotency_key ≡ some k
    → n'.idempotency_key ≡ some k
    → k ≢ ""
    → (r' : Created) × (create_job now' job_id' n' (run ops s') ≡ ok (r', run ops s'))
      × (r'.id ≡ r.id)
      × (r'.idempotent_hit ≡ true)
create_job_idempotent now now' job_id job_id' k n n' s s' r ops h e e' ne =
    create_job-hit k r.id now' job_id' n' (run ops s') e' ne
      (run-key_owner k r.id ops s' (subst (Owns k) h (create_job-Owns now job_id k n s e ne)))
