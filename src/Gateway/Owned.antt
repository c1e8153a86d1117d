-- ===== src/Gateway/Owned.antt =====
-- Who reads a job by the routes of main.py.
use genesis_agents.Base.{
  ◌≡◌, ◌⊎◌, refl, inl, inr, String, Bool, true, Option, none, some, ◌==◌, arith, eq_iff, Bool-cases,
}
use genesis_agents.Base.Result.{Result, ok, Result-cases}
use genesis_agents.Text.{or_empty}
use genesis_agents.Auth.Envelope.{Principal, has_scope}
use genesis_agents.Auth.Tokens.{owns_resource, both_none}
use genesis_agents.Auth.Owners.{owner_match}
use genesis_agents.Jobs.Table.{Job, Store}
use genesis_agents.Jobs.Operations.{get_job}
use genesis_agents.Gateway.Ownership.{
  owned_row, require_owned_job, get_job_status, authorize_job_read, get_job_events,
}

-- The principal has the scope, and the row's tenant and owner; a row that has neither is the legacy
-- gateway's.
pub record IsReader (p : Principal) (j : Job) (scope : String) : Type 0 where
  pub in_scope : has_scope p scope ≡ true
  pub owner :
      ((j.tenant_id ≡ none) × (j.owner_principal_id ≡ none) × (p.auth_method ≡ "legacy_gateway"))
      ⊎ ((p.tenant_id ≡ or_empty j.tenant_id) × (p.principal_id ≡ or_empty j.owner_principal_id))

both_none-true : (a b : Option String) → both_none a b ≡ true → (a ≡ none) × (b ≡ none)
both_none-true none none h = (refl, refl)
both_none-true none (some b) h = cc
both_none-true (some a) b h = cc

owns-owner :
    (p : Principal) (j : Job)
    → owns_resource p (some (owned_row j)) ≡ ok true
    → ((j.tenant_id ≡ none) × (j.owner_principal_id ≡ none) × (p.auth_method ≡ "legacy_gateway"))
      ⊎ ((p.tenant_id ≡ or_empty j.tenant_id) × (p.principal_id ≡ or_empty j.owner_principal_id))
owns-owner p j h = elim (Bool-cases (both_none j.tenant_id j.owner_principal_id)) [
  | inl n ↦
      let (t, o) = both_none-true _ _ n in
      inl (t, o, unfold owns_resource in ground (arith, eq_iff p.auth_method "legacy_gateway"))
  | inr s ↦ inr (owner_match p (owned_row j) h (ground arith))
]

pub require_owned_job-IsReader :
    (p : Principal) (found : Option Job) (scope : String) (j : Job)
    → require_owned_job p found scope ≡ ok j
    → (found ≡ some j) × IsReader p j scope
unfolding require_owned_job
require_owned_job-IsReader p none scope j h = cc
require_owned_job-IsReader p (some k) scope j h =
    elim (Result-cases (owns_resource p (some (owned_row k)))) [
      | inl (e, r) ↦ absurd (ground arith)
      | inr (b, r) ↦ elim (Bool-cases b) [
        | inr n ↦ absurd (ground arith)
        | inl y ↦
            let same : k ≡ j = ground arith in
            (
              ground arith,
              rw (← same)
                  (record { in_scope = ground arith; owner = owns-owner p k (ground arith) }),
            )
      ]
    ]

-- GET /agents/jobs/{job_id} answers only with the row of that id, to a principal with the scope
-- job.read and with the row's tenant and owner; a row that has neither is the legacy gateway's.
pub status_owned :
    (job_store_ok : Bool) (job_id : String) (p : Principal) (s : Store) (j : Job)
    → get_job_status job_store_ok job_id p s ≡ ok j
    → (get_job job_id s ≡ some j) × IsReader p j "job.read"
unfolding get_job_status
status_owned job_store_ok job_id p s j h = elim (Bool-cases job_store_ok) [
  | inr n ↦ absurd (ground arith)
  | inl y ↦ require_owned_job-IsReader p (get_job job_id s) "job.read" j (ground arith)
]

authorize-IsReader :
    (job_store_ok : Bool) (p : Principal) (job_id : String) (s : Store)
    → authorize_job_read job_store_ok p job_id "job.read" s ≡ ok tt
    → (p.auth_method ≡ "legacy_gateway")
      ⊎ ((j : Job) × (get_job job_id s ≡ some j) × IsReader p j "job.read")
unfolding authorize_job_read
authorize-IsReader job_store_ok p job_id s h =
    elim (Bool-cases (p.auth_method == "legacy_gateway")) [
      | inl l ↦ inl ((eq_iff p.auth_method "legacy_gateway").0 l)
      | inr n ↦ elim (Result-cases (require_owned_job p (get_job job_id s) "job.read")) [
        | inl (e, r) ↦ absurd (ground arith)
        | inr (j, r) ↦
            let (f, i) = require_owned_job-IsReader p (get_job job_id s) "job.read" j r in
            inr (j, f, i)
      ]
    ]

-- GET /agents/jobs/{job_id}/events answers only to the legacy gateway principal, or to a principal
-- with the scope job.read that has the tenant and owner of the job's row.
pub events_owned :
    {A : Type 0} (job_store_ok : Bool) (p : Principal) (job_id : String) (events : Result String A)
    (s : Store) (a : A)
    → get_job_events job_store_ok p job_id events s ≡ ok a
    → (p.auth_method ≡ "legacy_gateway")
      ⊎ ((j : Job) × (get_job job_id s ≡ some j) × IsReader p j "job.read")
unfolding get_job_events
events_owned job_store_ok p job_id events s a h =
    elim (Result-cases (authorize_job_read job_store_ok p job_id "job.read" s)) [
      | inl (e, r) ↦ absurd (ground arith)
      | inr (u, r) ↦ authorize-IsReader job_store_ok p job_id s r
    ]
