-- ===== src/Gateway/Ownership.antt =====
-- Which jobs a principal may read, by main.py: _require_owned_job, _authorize_job_read, and the
-- routes that read a job, its events and its sandbox.
use genesis_agents.Base.{String, Bool, not, Option, none, some, ◌==◌, if◌then◌else◌}
use genesis_agents.Base.Result.{Result, ok, raise}
use genesis_agents.Auth.Envelope.{Principal, has_scope}
use genesis_agents.Auth.Tokens.{OwnedRow, owns_resource}
use genesis_agents.Jobs.Table.{Job, Store}
use genesis_agents.Jobs.Operations.{get_job}
use genesis_agents.Gateway.Http.{HttpError, http}

-- A row of genesis_jobs, with the columns that owns_resource reads.
abbrev pub owned_row : Job → OwnedRow
owned_row j = record {
  camel_tenant_id = some j.tenant_id;
  camel_owner_principal_id = some j.owner_principal_id;
  tenant_id = none;
  owner_principal_id = none;
}

unfoldable pub require_owned_job : Principal → Option Job → String → Result HttpError Job
unfolding has_scope owns_resource
require_owned_job principal none scope = raise (http 404 "job not found")
require_owned_job principal (some job) scope =
    if not (has_scope principal scope)
    then raise (http 403 "principal scope denied")
    else elim (owns_resource principal (some (owned_row job))) [
      | raise e ↦ raise (http 500 "Internal Server Error")
      | ok owner ↦ if owner then ok job else raise (http 403 "resource owner mismatch")
    ]

-- GET /agents/jobs/{job_id}; the times of the answer are not printed.
unfoldable pub get_job_status : Bool → String → Principal → Store → Result HttpError Job
unfolding require_owned_job get_job
get_job_status job_store_ok job_id principal s =
    if not job_store_ok
    then raise (http 503 "job_store unavailable")
    else require_owned_job principal (get_job job_id s) "job.read"

unfoldable pub authorize_job_read :
    Bool → Principal → String → String → Store → Result HttpError (Unit {0})
unfolding require_owned_job get_job
authorize_job_read job_store_ok principal job_id scope s =
    if principal.auth_method == "legacy_gateway"
    then ok tt
    else if not job_store_ok
    then raise (http 503 "job_store unavailable")
    else elim (require_owned_job principal (get_job job_id s) scope) [
      | raise e ↦ raise e
      | ok job ↦ ok tt
    ]

module _ {A : Type 0} where
  -- GET /agents/jobs/{job_id}/events, where `events` is what get_events returns or raises.
  unfoldable pub get_job_events :
      Bool → Principal → String → Result String A → Store → Result HttpError A
  unfolding authorize_job_read
  get_job_events job_store_ok principal job_id events s =
      elim (authorize_job_read job_store_ok principal job_id "job.read" s) [
        | raise e ↦ raise e
        | ok u ↦ elim events [ raise e ↦ raise (http 500 e) | ok es ↦ ok es ]
      ]

  -- GET /agents/jobs/{job_id}/sandbox, where `status` is what sandbox_status returns for a workspace,
  -- none where no workspace is registered, or what is raised.
  unfoldable pub get_job_sandbox :
      Bool → Principal → String → Result String (Option A) → Store → Result HttpError A
  unfolding authorize_job_read
  get_job_sandbox job_store_ok principal job_id status s =
      elim (authorize_job_read job_store_ok principal job_id "job.read" s) [
        | raise e ↦ raise e
        | ok u ↦ elim status [
          | raise e ↦ raise (http 500 e)
          | ok found ↦ elim found [
            | none ↦ raise (http 404 "No sandbox registered")
            | some a ↦ ok a
          ]
        ]
      ]

  -- The guard of GET /agents/jobs/{job_id}/artifacts, and what is listed behind it.
  unfoldable pub get_job_artifacts :
      Bool → Principal → String → Result HttpError A → Store → Result HttpError A
  unfolding require_owned_job get_job
  get_job_artifacts job_store_ok principal job_id listed s =
      if not job_store_ok
      then raise (http 503 "job_store unavailable")
      else elim (require_owned_job principal (get_job job_id s) "artifact.read") [
        | raise e ↦ raise e
        | ok job ↦ listed
      ]
