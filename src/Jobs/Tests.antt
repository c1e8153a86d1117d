-- ===== src/Jobs/Tests.antt =====
-- The job store at concrete tables: one request, claimed, delivered and delegated.
use genesis_agents.Base.{
  ◌≡◌, refl, String, true, false, none, some, List, [], ◌∷◌, eq_iff, contains, arith,
}
use genesis_agents.Base.Result.{after, ok}
use genesis_agents.Jobs.Table.{Job, Store, find_job, is_terminal}
use genesis_agents.Jobs.Operations.{
  NewJob, NewChild, Created, Update, new_row, create_job, create_child_job, update_job_status,
  set_clauses, claim, claim_job_by_id,
}
use genesis_agents.Jobs.History.{
  Op, create, create_child, update, beat, claim_one, reap, apply, run,
}
use genesis_agents.Jobs.Log.{IsConsistent, last_to, status_in}
use genesis_agents.Jobs.Outcomes.{inserted}
use genesis_agents.Jobs.Consistency.{run-IsConsistent}
use genesis_agents.Jobs.Terminal.{run_keeps_terminal}
use genesis_agents.Jobs.Claims.{claimed_once}
use genesis_agents.Jobs.Idempotency.{create_job_idempotent}

abbrev empty : Store
empty = record { jobs = []; events = [] }

abbrev request : NewJob
request = record {
  agent_slug = "genesis-builder";
  prompt = "build";
  params = none;
  buyer_wallet_id = none;
  buyer_client_id = none;
  price_tier_cents = some 500;
  idempotency_key = some "k1";
  webhook_url = none;
  webhook_secret = none;
  escrow_id = none;
  tenant_id = some "acme";
  owner_principal_id = some "ben";
}

abbrev child : NewChild
child = record {
  child_job_id = "c2";
  agent_slug = "genesis-qa";
  prompt = "test";
  parent_job_id = "c1";
  params = none;
}

abbrev set_status : String → Update
set_status t = record {
  new_status = t;
  error_code = none;
  error_message = none;
  result_summary = none;
  output_artifact_uris = none;
  allow_terminal_override = false;
}

-- One job, created at 10.
abbrev one_job : Store
one_job = inserted 10 (new_row 10 "c1" request) empty

create_job_one :
    create_job 10 "c1" request empty
    ≡ ok (
      record { id = "c1"; status = "QUEUED"; created_at = some 10; idempotent_hit = false },
      one_job,
    )
unfolding create_job
create_job_one = refl

abbrev life : List Op
life =
    create 10 "c1" request
    ∷ claim_one 20 "c1"
    ∷ create_child 30 child
    ∷ update 40 "c1" (set_status "DELIVERED")
    ∷ []

life_delivers : status_in "c1" (run life empty).jobs ≡ some "DELIVERED"
unfolding run apply create_job create_child_job update_job_status claim_job_by_id find_job claim
    is_terminal set_clauses
life_delivers = refl

run-IsConsistent_example : IsConsistent (run life empty)
unfolding apply create_job create_child_job update_job_status claim_job_by_id find_job claim
    is_terminal set_clauses last_to
run-IsConsistent_example =
    run-IsConsistent life empty (tt, (tt, (refl, (tt, tt))))
      (record { distinct = tt; logged = λ i. refl })

-- A late sweep, a claim and a late update leave the delivery in place.
run_keeps_terminal_example :
    status_in "c1"
      (run
        (reap 9000 5 "late" ∷ claim_one 9001 "c1" ∷ update 9002 "c1" (set_status "RUNNING") ∷ [])
        (run life empty)).jobs
    ≡ some "DELIVERED"
unfolding run apply create_job create_child_job update_job_status claim_job_by_id find_job claim
    is_terminal set_clauses contains
run_keeps_terminal_example =
    run_keeps_terminal "c1" "DELIVERED"
      (reap 9000 5 "late" ∷ claim_one 9001 "c1" ∷ update 9002 "c1" (set_status "RUNNING") ∷ [])
      (run life empty) (refl, (refl, tt)) refl (tt, (tt, (refl, tt))) refl

abbrev one_claimed : Store
one_claimed = after (claim_job_by_id 20 "c1") one_job

claimed_once_example :
    claim_job_by_id 9001 "c1" (run (beat 30 "c1" ∷ reap 9000 5 "late" ∷ []) one_claimed)
    ≡ ok (none, run (beat 30 "c1" ∷ reap 9000 5 "late" ∷ []) one_claimed)
unfolding claim_job_by_id
claimed_once_example =
    claimed_once 20 9001 "c1" (claim 20 (new_row 10 "c1" request)) one_job one_claimed
      (beat 30 "c1" ∷ reap 9000 5 "late" ∷ []) refl (tt, (tt, tt))

abbrev claimed_row : Job
claimed_row = claim 20 (new_row 10 "c1" request)

-- The delegated job has been delivered, and its id is used again.
abbrev child_done : Store
child_done = run (create_child 30 child ∷ update 35 "c2" (set_status "DELIVERED") ∷ []) one_job

abbrev done_row : Store → Job → Job
done_row s d = elim (find_job "c2" s.jobs) [ none ↦ d | some j ↦ j ]

create_job_idempotent_example :
    (r' : Created) × (create_job 90 "c9" request (run (claim_one 20 "c1" ∷ []) one_job)
      ≡ ok (r', run (claim_one 20 "c1" ∷ []) one_job))
    × (r'.id ≡ "c1")
    × (r'.idempotent_hit ≡ true)
create_job_idempotent_example =
    create_job_idempotent 10 90 "c1" "c9" "k1" request request empty one_job
      (record { id = "c1"; status = "QUEUED"; created_at = some 10; idempotent_hit = false })
      (claim_one 20 "c1" ∷ []) create_job_one refl refl (ground (arith, eq_iff "k1" ""))
