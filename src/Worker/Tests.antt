-- ===== src/Worker/Tests.antt =====
-- A job with a callback that expires while its agent runs, and one with an escrow of its own.
use mathlib.Core.Bool.{false≢true}
use genesis_agents.Base.{
  ◌≡◌, refl, ◌++◌, String, true, Option, none, some, List, [], ◌∷◌, eq_iff, nat_eq, if◌then◌else◌,
  contains, filter,
}
use genesis_agents.Base.Json.{Json, null}
use genesis_agents.Base.Result.{Result, ok}
use genesis_agents.Jobs.Table.{Job, find_job, is_terminal, update_where}
use genesis_agents.Jobs.Operations.{expire_stale_running_jobs, is_stale, expire}
use genesis_agents.Jobs.History.{Op, reap, run, apply}
use genesis_agents.Worker.Profile.{deployment_profile, escrow_permitted, lstrip, rstrip, lower}
use genesis_agents.Worker.Callback.{Payload}
use genesis_agents.Worker.Process.{Env, World, Exception, Act, posted, process_job}
use genesis_agents.Worker.Reports.{row_agrees, row_disagrees}

abbrev job_with : Option String → Option String → Job
job_with webhook_url escrow_id = record {
  id = "j1";
  agent_slug = "genesis-seo";
  buyer_wallet_id = none;
  buyer_client_id = none;
  tenant_id = none;
  owner_principal_id = none;
  prompt = "p";
  params = [];
  status = "RUNNING";
  price_tier_cents = none;
  idempotency_key = none;
  webhook_url = webhook_url;
  webhook_secret = none;
  escrow_id = escrow_id;
  output_artifact_uris = [];
  result_summary = none;
  error_code = none;
  error_message = none;
  started_at = some 1000;
  completed_at = none;
  last_heartbeat_at = some 1000;
  created_at = 900;
  updated_at = 1000;
}

abbrev dumps : String → Json → Result Exception String
dumps response trace = ok response

-- A run that succeeds, after the transactions of others.
abbrev env_with : List Op → Env
env_with meanwhile = record {
  meanwhile = meanwhile;
  execution =
      ok (record { ok = true; response = "done"; trace = null; error = none; message = "" });
  upload = some [];
  first_update = none;
  last_update = none;
  heartbeat = none;
  now = 2000;
  profile = some " SwarmSync-Marketplace ";
  max_attempts = 3;
  responses = λ n. if nat_eq n 2 then some 204 else none;
}

abbrev world_of : Job → World
world_of j = record {
  store = record { jobs = j ∷ []; events = [] };
  acts = [];
  processed_count = 0;
  failed_count = 0;
}

marketplace : escrow_permitted (some " SwarmSync-Marketplace ") ≡ true
unfolding escrow_permitted deployment_profile lstrip rstrip lower
marketplace = refl

-- The job is claimed at 1000, waits for others of its tick without a heartbeat, and is expired.
abbrev expired_meanwhile : List Op
expired_meanwhile = reap 1400 5 "No heartbeat for 5+ minutes" ∷ []

abbrev callback_job : Job
callback_job = job_with (some "https://market/cb") (some "e1")

abbrev late : Env
late = env_with expired_meanwhile

expired :
    find_job "j1" (run expired_meanwhile (world_of callback_job).store).jobs
    ≡ some (expire 1400 "No heartbeat for 5+ minutes" callback_job)
unfolding run apply expire_stale_running_jobs is_stale filter update_where find_job contains expire
expired = refl

row_disagrees_example :
    (find_job "j1" (process_job dumps late callback_job (world_of callback_job)).0.store.jobs
      ≡ some (expire 1400 "No heartbeat for 5+ minutes" callback_job))
    × ((p : Payload) × (rest : List Act) × (p.status ≡ "DELIVERED")
        × ((process_job dumps late callback_job (world_of callback_job)).0.acts
            ≡ [] ++ (posted "https://market/cb" p ∷ rest)))
unfolding expire
row_disagrees_example =
    row_disagrees dumps late callback_job (world_of callback_job)
      (expire 1400 "No heartbeat for 5+ minutes" callback_job) 2 expired
      (unfold is_terminal contains in refl) (λ h. false≢true ((eq_iff "EXPIRED" "DELIVERED").1 h))
      refl refl refl refl

row_agrees_example :
    (j' : Job) × (find_job "j1"
        (process_job dumps (env_with []) callback_job (world_of callback_job)).0.store.jobs
      ≡ some j')
    × (j'.status ≡ "DELIVERED")
    × (j'.completed_at ≡ (if is_terminal "DELIVERED" then some 2000 else none))
row_agrees_example =
    row_agrees dumps (env_with []) callback_job (world_of callback_job) callback_job
      (unfold run find_job in refl) (unfold is_terminal contains in refl) refl
