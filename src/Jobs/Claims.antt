-- ===== src/Jobs/Claims.antt =====
-- claim_job_by_id and claim_queued_jobs of job_store.py.
use genesis_agents.Base.{
  ℕ, ◌≤◌, ◌≡◌, refl, sym, subst, String, Bool, true, false, not, ◌&&◌, none, some, List, [], ◌∷◌,
  ◌≢◌, eq_iff, contains, length, length-take-le, All, arith, inl, inr, Bool-cases, Option-cases,
}
use genesis_agents.Base.Result.{after, ok, after-eq_of_ok}
use genesis_agents.Jobs.Table.{Job, Store, find_job, update_where, has_id, ids}
use genesis_agents.Jobs.Operations.{
  set_clauses, beat_row, claim, claimable, is_queued, is_stale, expire, claim_job_by_id,
}
use genesis_agents.Jobs.Outcomes.{
  inserted, create_job-cases, create_child_job-cases, update_job_status-cases, heartbeat_lem,
  claim_job_by_id-cases, claim_job_by_id-queued, claim_job_by_id-other, claim_queued_jobs_lem,
  expire_stale_running_jobs_lem,
}
use genesis_agents.Jobs.History.{
  Op, create, create_child, update, beat, claim_one, claim_queued, reap, apply, run,
}
use genesis_agents.Jobs.Log.{claimable-queued}
use genesis_agents.Jobs.Order.{NotBefore, find_job-In, In-filter, order_by_created-oldest}
use genesis_agents.Jobs.Rows.{Distinct, found, find_job-id, find_job-append, find_job-update_where}

-- The job has a row, which is not QUEUED.
abbrev pub is_taken : String → Store → Bool
is_taken i s = found (find_job i s.jobs) (λ j. not (is_queued j))

-- The call is no update that puts a job back into QUEUED.
abbrev pub IsForward : Op → Type 0
IsForward (update now job_id u) = u.new_status ≢ "QUEUED"
IsForward _ = Unit

abbrev pub AllForward : List Op → Type 0
AllForward [] = Unit
AllForward (op ∷ ops) = IsForward op × AllForward ops

module _ (i : String) (s : Store) (h : is_taken i s ≡ true) where
  inserted-is_taken : (now : ℕ) (j : Job) → is_taken i (inserted now j s) ≡ true
  inserted-is_taken now j = ground (arith, find_job-append i s.jobs j)

  update-is_taken :
      (p : Job → Bool) (f : Job → Job)
      → ((j : Job) → (f j).id ≡ j.id)
      → ((j : Job) → is_queued j ≡ false → is_queued (f j) ≡ false)
      → found (find_job i (update_where p f s.jobs)) (λ j. not (is_queued j)) ≡ true
  update-is_taken p f keep stays = elim (Option-cases (find_job i s.jobs)) [
    | inl n ↦ ground arith
    | inr (j, m) ↦ ground (arith, find_job-update_where p f keep i s.jobs, stays j)
  ]

apply-is_taken :
    (i : String) (op : Op) (s : Store)
    → IsForward op
    → is_taken i s ≡ true
    → is_taken i (apply op s) ≡ true
unfolding apply set_clauses claim expire
apply-is_taken i (create now job_id n) s a h = elim (create_job-cases now s job_id n) [
  | inl e ↦ rw e h
  | inr (j, _, free, e) ↦ rw e (inserted-is_taken i s h now j)
]
apply-is_taken i (create_child now n) s a h = elim (create_child_job-cases now s n) [
  | inl (j, e, r) ↦ rw r h
  | inr (e, r) ↦ rw r (inserted-is_taken i s h now _)
]
apply-is_taken i (update now job_id u) s a h = elim (update_job_status-cases now s job_id u) [
  | inl e ↦ rw e h
  | inr (j, f, r, e) ↦ rw e (
      update-is_taken i s h (has_id job_id) (set_clauses now u) (λ k. refl)
        (λ k q. ground (arith, eq_iff u.new_status "QUEUED")))
]
apply-is_taken i (beat now job_id) s a h =
    rw (heartbeat_lem now s job_id)
      (update-is_taken i s h (has_id job_id) (beat_row now) (λ k. refl) (λ k q. q))
apply-is_taken i (claim_one now job_id) s a h = elim (claim_job_by_id-cases now s job_id) [
  | inl e ↦ rw e h
  | inr (j, f, q, e) ↦ rw e (update-is_taken i s h _ (claim now) (λ k. refl) (λ k q. refl))
]
apply-is_taken i (claim_queued now locked limit) s a h =
    rw (claim_queued_jobs_lem now s locked limit)
      (update-is_taken i s h _ (claim now) (λ k. refl) (λ k q. refl))
apply-is_taken i (reap now stale_minutes message) s a h =
    rw (expire_stale_running_jobs_lem now s stale_minutes message) (
      update-is_taken i s h (is_stale now stale_minutes) (expire now message) (λ k. refl)
        (λ k q. refl))

run-is_taken :
    (i : String) (ops : List Op) (s : Store)
    → AllForward ops
    → is_taken i s ≡ true
    → is_taken i (run ops s) ≡ true
unfolding run
run-is_taken i [] s a h = h
run-is_taken i (op ∷ ops) s a h = run-is_taken i ops (apply op s) a.1 (apply-is_taken i op s a.0 h)

taken-not_claimed :
    (now : ℕ) (i : String) (s : Store)
    → is_taken i s ≡ true
    → claim_job_by_id now i s ≡ ok (none, s)
unfolding claim_job_by_id
taken-not_claimed now i s h = elim (Option-cases (find_job i s.jobs)) [
  | inl n ↦ ground arith
  | inr (j, m) ↦ ground arith
]

claimed_row-is_taken :
    (now : ℕ) (i : String) (s : Store) (j : Job)
    → find_job i s.jobs ≡ some j
    → is_queued j ≡ true
    → found
        (find_job i (update_where (λ k. has_id i k && is_queued k) (claim now) s.jobs))
        (λ k. not (is_queued k))
      ≡ true
unfolding claim
claimed_row-is_taken now i s j m q =
    let hit : (has_id i j && is_queued j) ≡ true =
      ground (arith, find_job-id i s.jobs j m, eq_iff j.id i) in
    rw (
      find_job-update_where (λ k. has_id i k && is_queued k) (claim now) (λ k. refl) i s.jobs,
      m,
      hit,
    )

claim-is_taken :
    (now : ℕ) (i : String) (s : Store) (j : Job)
    → find_job i s.jobs ≡ some j
    → is_taken i (after (claim_job_by_id now i) s) ≡ true
unfolding claim_job_by_id claim
claim-is_taken now i s j m = elim (Bool-cases (is_queued j)) [
  | inl q ↦
      subst (λ t. is_taken i t ≡ true) (sym (claim_job_by_id-queued now s i j m q))
        (claimed_row-is_taken now i s j m q)
  | inr q ↦
      subst (λ t. is_taken i t ≡ true) (sym (claim_job_by_id-other now s i j m q)) (ground arith)
]

claimed-is_taken :
    (now : ℕ) (i : String) (row : Job) (s s' : Store)
    → claim_job_by_id now i s ≡ ok (some row, s')
    → is_taken i s' ≡ true
unfolding claim_job_by_id claim
claimed-is_taken now i row s s' h = elim (Option-cases (find_job i s.jobs)) [
  | inl n ↦ ground arith
  | inr (j, m) ↦
      subst (λ t. is_taken i t ≡ true) (after-eq_of_ok (claim_job_by_id now i) h)
        (claim-is_taken now i s j m)
]

-- Once claim_job_by_id has handed out a job, every later claim_job_by_id of it returns None and
-- changes nothing, after any calls in between of which none sets the status back to QUEUED.
pub claimed_once :
    (now now' : ℕ) (i : String) (row : Job) (s s' : Store) (ops : List Op)
    → claim_job_by_id now i s ≡ ok (some row, s')
    → AllForward ops
    → claim_job_by_id now' i (run ops s') ≡ ok (none, run ops s')
claimed_once now now' i row s s' ops h a =
    taken-not_claimed now' i (run ops s')
      (run-is_taken i ops s' a (claimed-is_taken now i row s s' h))

All-by_ids :
    (P : String → Type 0) (xs : List Job)
    → ((i : String) → contains (ids xs) i ≡ true → P i)
    → All (λ k. P k.id) xs
unfolding contains
All-by_ids P [] h = tt
All-by_ids P (x ∷ xs) h =
    (h x.id (ground (arith, eq_iff x.id x.id)), All-by_ids P xs (λ i c. h i (ground arith)))

-- The rows that claim_queued_jobs takes, from a table with distinct ids, are at most `limit`, each
-- with the id of a row of the table that is QUEUED and that no other transaction has locked.
pub claimable_lem :
    (locked : String → Bool) (limit : ℕ) (js : List Job)
    → Distinct (ids js)
    → (length (claimable locked limit js) ≤ limit)
      × All
          (λ k. found (find_job k.id js) (λ j. is_queued j && not (locked j.id)) ≡ true)
          (claimable locked limit js)
unfolding claimable
claimable_lem locked limit js d = (
  length-take-le limit _,
  All-by_ids (λ i. found (find_job i js) (λ j. is_queued j && not (locked j.id)) ≡ true) _
      (λ i h. claimable-queued i locked limit js d h),
)

-- No QUEUED, unlocked row that claim_queued_jobs leaves was created before a row that it takes.
pub claimable-oldest :
    (locked : String → Bool) (limit : ℕ) (js : List Job) (i : String) (j : Job)
    → find_job i js ≡ some j
    → is_queued j ≡ true
    → locked i ≡ false
    → contains (ids (claimable locked limit js)) i ≡ false
    → All (λ k. NotBefore k j) (claimable locked limit js)
unfolding claimable
claimable-oldest locked limit js i j m q l c =
    let same : j.id ≡ i = find_job-id i js j m in
    order_by_created-oldest limit _ j
      (In-filter (λ k. is_queued k && not (locked k.id)) js j (find_job-In i js j m)
        (rw (q, same, l)))
      (rw same c)
