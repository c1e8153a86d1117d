-- ===== src/Jobs/Log.antt =====
-- The event log of job_store.py, read as a record of the statuses.
use genesis_agents.Base.{
  ℕ, ◌≡◌, refl, String, Bool, true, not, ◌&&◌, Option, none, some, List, [], ◌∷◌, ◌++◌, ◌==◌,
  eq_iff, if◌then◌else◌, contains, map, arith, ◌∙◌, sym, inl, inr, Option-cases, ==_sym,
}
use genesis_agents.Jobs.Table.{
  Job, Event, Store, find_job, update_where, has_id, ids, status_change,
}
use genesis_agents.Jobs.Operations.{claimable, is_queued}
use genesis_agents.Jobs.Rows.{
  Distinct, found, find_job-id, ids-update_where, find_job-update_where, contains-filter,
  contains-order_by_created, contains-take,
}

-- The status of the row with this id.
abbrev pub status_in : String → List Job → Option String
status_in i js = elim (find_job i js) [ none ↦ none | some j ↦ some j.status ]

abbrev or_else : Option String → Option String → Option String
or_else none b = b
or_else (some a) b = some a

-- What the last event of a job says.
unfoldable pub last_to : String → List Event → Option String
last_to i [] = none
last_to i (e ∷ es) = or_else (last_to i es) (if e.job_id == i then some e.to_status else none)

pub last_to-append :
    (i : String) (es fs : List Event) → last_to i (es ++ fs) ≡ or_else (last_to i fs) (last_to i es)
unfolding last_to
last_to-append i [] fs = ground arith
last_to-append i (e ∷ es) fs = ground (arith, last_to-append i es fs)

-- The event written last decides.
pub last_to-append_one :
    (i : String) (now : ℕ) (from : Option String) (to : String) (es : List Event)
    → last_to i (es ++ (status_change now from to i ∷ [])) ≡ some to
unfolding last_to
last_to-append_one i now from to es =
    ground (arith, last_to-append i es (status_change now from to i ∷ []), eq_iff i i)

pub last_to-map :
    (i : String) (now : ℕ) (from : Option String) (to : String) (xs : List String)
    → last_to i (map (status_change now from to) xs) ≡ (if contains xs i then some to else none)
unfolding last_to contains
last_to-map i now from to [] = refl
last_to-map i now from to (x ∷ xs) = ground (arith, last_to-map i now from to xs)

pub record IsConsistent (s : Store) : Type 0 where
  pub distinct : Distinct (ids s.jobs)
  pub logged : (i : String) → last_to i s.events ≡ status_in i s.jobs

-- An UPDATE that keeps ids and moves the rows with `p` to one status, with one event for each.
module _ (now : ℕ) (from : Option String) (to : String) (p : Job → Bool) (f : Job → Job)
    (keep : (j : Job) → (f j).id ≡ j.id) (moves : (j : Job) → (f j).status ≡ to) where
  status_in-update_where :
      (i : String) (js : List Job)
      → status_in i (update_where p f js)
        ≡ (if found (find_job i js) p then some to else status_in i js)
  status_in-update_where i js = elim (Option-cases (find_job i js)) [
    | inl e ↦ ground (arith, find_job-update_where p f keep i js)
    | inr (j, e) ↦ ground (arith, find_job-update_where p f keep i js, moves j)
  ]

  pub move-IsConsistent :
      (s : Store) (xs : List String)
      → IsConsistent s
      → ((i : String) → contains xs i ≡ found (find_job i s.jobs) p)
      → IsConsistent (record {
        jobs = update_where p f s.jobs;
        events = s.events ++ map (status_change now from to) xs;
      })
  move-IsConsistent s xs c covers = record {
    distinct = rw (ids-update_where p f keep s.jobs) c.distinct;
    logged = λ i. ground (
      arith,
      last_to-append i s.events (map (status_change now from to) xs),
      last_to-map i now from to xs,
      covers i,
      status_in-update_where i s.jobs,
      c.logged i,
    );
  }

pub contains-one : (x i : String) → contains (x ∷ []) i ≡ (x == i)
unfolding contains
contains-one x i = ground arith

-- The row that a key finds has that key, as a test.
pub found-has_id :
    (i x : String) (js : List Job) (j : Job)
    → find_job x js ≡ some j
    → (x == i) ≡ found (find_job i js) (has_id x)
found-has_id i x js j e = elim (Option-cases (find_job i js)) [
  | inl n ↦ ground (arith, eq_iff x i)
  | inr (k, m) ↦ ground (arith, find_job-id i js k m, ==_sym x i)
]

pub found-queued :
    (i x : String) (js : List Job) (j : Job)
    → find_job x js ≡ some j
    → is_queued j ≡ true
    → (x == i) ≡ found (find_job i js) (λ k. has_id x k && is_queued k)
found-queued i x js j e q = elim (Option-cases (find_job i js)) [
  | inl n ↦ ground (arith, eq_iff x i)
  | inr (k, m) ↦ ground (arith, eq_iff x i, find_job-id i js k m, ==_sym x i)
]

-- What claim_queued_jobs selects is among the rows that are queued.
pub claimable-queued :
    (i : String) (locked : String → Bool) (limit : ℕ) (js : List Job)
    → Distinct (ids js)
    → contains (ids (claimable locked limit js)) i ≡ true
    → found (find_job i js) (λ j. is_queued j && not (locked j.id)) ≡ true
unfolding claimable
claimable-queued i locked limit js d h =
    sym (contains-filter (λ j. is_queued j && not (locked j.id)) i js d)
    ∙ (sym (contains-order_by_created i _) ∙ contains-take i limit _ h)

pub found-claimable :
    (i : String) (locked : String → Bool) (limit : ℕ) (js : List Job)
    → Distinct (ids js)
    → contains (ids (claimable locked limit js)) i
      ≡ found (find_job i js) (λ j. contains (ids (claimable locked limit js)) j.id)
found-claimable i locked limit js d = elim (Option-cases (find_job i js)) [
  | inl n ↦ ground (arith, claimable-queued i locked limit js d)
  | inr (k, m) ↦ ground (arith, find_job-id i js k m)
]
