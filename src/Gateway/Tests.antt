-- ===== src/Gateway/Tests.antt =====
-- The routes of main.py at one client, one signed request, and one job.
use Prim.Native.String.{◌++◌ as cat}
use genesis_agents.Base.{
  ℕ, ◌≤◌, ◌≡◌, ◌≢◌, ◌⊎◌, refl, String, true, false, not, Option, none, some, List, [], ◌∷◌, ◌++◌,
  ◌==◌, arith, any, filter, map, contains, length, get_or, if◌then◌else◌,
}
use genesis_agents.Base.Json.{
  Json, Items, Fields, null, bool, number, text, array, object, nil, cons, end, field,
}
use genesis_agents.Base.Result.{ok, raise}
use genesis_agents.Text.{chars, is_ascii, has_dot}
use genesis_agents.Replay.{spend, sweep, insert_row}
use genesis_agents.Envelope.Values.{get_field}
use genesis_agents.Audit.Redaction.{sanitize}
use genesis_agents.Auth.Envelope.{
  Principal, Client, Nonce, Site, Wire, consume_nonce, is_nonce_text, nonce_matches, trusts,
  matches, only_client, client_principal, grants_scope, has_scope, admit, check_stamp,
  verify_ap2_envelope,
}
use genesis_agents.Auth.Verified.{IsVerified}
use genesis_agents.Auth.Tokens.{TokenCodec, token_claims, legacy_gateway_principal}
use genesis_agents.Auth.TokenLaws.{Encodes}
use genesis_agents.Jobs.Table.{Job, Store, find_job, find_key}
use genesis_agents.Jobs.Operations.{get_job, existing}
use genesis_agents.Jobs.Outcomes.{inserted}
use genesis_agents.Jobs.History.{Op, claim_one, update, run}
use genesis_agents.Jobs.Tenants.{owners}
use genesis_agents.Gateway.Http.{
  HttpError, Python, get, put, pop, as_dict, truth, or_blank, or_dict,
}
use genesis_agents.Gateway.Identity.{
  Headers, Config, envelope_of, unsigned_runtime, bind_params, assert_envelope_binds_request,
  request_context, is_ap2, bound_principal, ap2_principal, verify_agent_principal,
  verify_continuation_principal,
}
use genesis_agents.Gateway.Identified.{HasKey, IsSigned, agent_identified}
use genesis_agents.Gateway.Ownership.{get_job_status}
use genesis_agents.Audit.Redaction.{starts_with}
use genesis_agents.Gateway.Submit.{
  rstrip_dots, is_blocked, JobRequest, Drawn, Submitted, entries, request_of, read_request,
  assert_not_ssrf, check_webhook, new_job, token_for, submit_job,
}
use genesis_agents.Gateway.Created.{IsNew, row_of}
use genesis_agents.Gateway.Unsigned.{params_unsigned}
use genesis_agents.Gateway.Readable.{submitted_readable}
use genesis_agents.Gateway.Keys.{key_crosses_tenants}
use genesis_agents.Audit.Redaction.{redact_text, is_part}
use genesis_agents.Gateway.Http.{str_of}
use genesis_agents.Gateway.Context.{
  prefix, context_items, Evidence, evidence_items, evidence_of, clean_item, clean_items,
  scoped_runtime_params, task_text,
}
use genesis_agents.Gateway.Scoped.{Kept, context_bounded}
use genesis_agents.Gateway.Described.{described, description_unsigned}
use genesis_agents.Gateway.Disputes.{Note, Desk, Weather, open_escrow, escrow_calls, admin_refund}
use genesis_agents.Gateway.Cases.{after_dispute, disputed_refunded}
use genesis_agents.Gateway.Run.{
  RunRequest, Bundle, initiated, refunded, World, Outside, raise_for_runtime_failure,
  runtime_error_status,
}
use genesis_agents.Gateway.Execute.{reserve, close_escrow, finish_run, run_sync, run_agent}
use genesis_agents.Gateway.Escrows.{run_agent-money}
use genesis_agents.Gateway.Closed.{closing, escrow_closed}

-- A simple printer of JSON values.
unfoldable mutual
  dumps : Json → String
  dumps null = "null"
  dumps (bool true) = "true"
  dumps (bool false) = "false"
  dumps (number n) = n
  dumps (text s) = cat "'" (cat s "'")
  dumps (array xs) = cat "[" (cat (dumps_items xs) "]")
  dumps (object fs) = cat "{" (cat (dumps_fields fs) "}")

  dumps_items : Items → String
  dumps_items nil = ""
  dumps_items (cons x xs) = cat (dumps x) (cat "," (dumps_items xs))

  dumps_fields : Fields → String
  dumps_fields end = ""
  dumps_fields (field k v fs) = cat k (cat ":" (cat (dumps v) (cat "," (dumps_fields fs))))

abbrev py : Python
py = record {
  str = dumps;
  is_nonzero = λ n. not (n == "0");
  is_one = λ v. dumps v == "1";
  same = λ a b. dumps_fields a == dumps_fields b;
  natural = λ n. if n == "700" then some 700 else none;
  hostname = λ url. url;
  library = record {
    lower = λ s. s;
    strip = λ s. s;
    query_items = λ s. [];
    with_query = λ s q. s;
    sub_bearer = λ s. s;
    sub_sk = λ s. s;
    dumps = dumps;
  };
}

abbrev wire : Wire Fields
wire = record {
  canonical = dumps_fields;
  signed_by = λ k s p n t. s == "good";
  parse_timestamp = λ t. some 1000;
}

abbrev cato : Client
cato = record {
  client_id = "cato";
  enabled = true;
  pubkey_b64 = some "K";
  capabilities = "agent.invoke" ∷ "job.read" ∷ [];
  principal_id = none;
  tenant_id = some "acme";
}

abbrev cfg : Config
cfg = record {
  gateway_api_key = "key";
  agent_gateway_secret = "";
  token_key = "0123456789abcdef0123456789abcdef";
  context = record {
    current = 1010;
    swept_at = 1010;
    header_version = "";
    header_pubkey = "";
    required_scope = "";
    registry = some (cato ∷ []);
    site = ok Site.postgres;
    usable = true;
  };
  now = 1010;
}

abbrev headers : Headers
headers = record {
  api_key = none;
  gateway_secret = none;
  ap2_version = some "1";
  ap2_pubkey = some "K";
  principal_token = none;
}

-- {"goal": "site"}
abbrev goal : Fields
goal = field "goal" (text "site") end

abbrev payload : Fields
payload =
    field "agent" (text "genesis-builder")
      (field "task" (text "build") (field "params" (object goal) end))

abbrev body : Fields
body = field "version" (number "1") (
    field "payload" (object payload) (
      field "nonce" (text "abcdefghij-_0123") (
        field "timestamp" (text "1970-01-01T00:16:40Z") (
          field "pubkey" (text "K") (
            field "signature" (text "good")
              (field "prompt" (text "build") (field "task" (object goal) end)))))))

abbrev caller : Principal
caller = record {
  principal_id = "client:cato";
  tenant_id = "acme";
  client_id = "cato";
  scopes = "agent.invoke" ∷ "job.read" ∷ [];
  auth_method = "ap2";
  expires_at = 1300;
}

abbrev nonces : List Nonce
nonces = record { client_id = "cato"; nonce = "abcdefghij-_0123"; expires_at = 1300 } ∷ []

identified :
    verify_agent_principal py wire cfg headers body "genesis-builder" [] ≡ (ok caller, nonces)
unfolding verify_agent_principal ap2_principal envelope_of bound_principal bind_params
    unsigned_runtime assert_envelope_binds_request pop or_blank or_dict truth verify_ap2_envelope
    check_stamp admit consume_nonce is_nonce_text nonce_matches trusts matches only_client
    client_principal grants_scope contains any filter spend sweep insert_row chars is_ascii
    get_field dumps
identified = refl

-- The signed request.
agent_identified_example :
    ((is_ap2 headers ≡ true)
      × IsVerified wire (request_context cfg headers) (envelope_of py body) caller [] nonces
      × IsSigned py body "genesis-builder")
    ⊎ ((is_ap2 headers ≡ false)
        × HasKey cfg headers
        × (caller ≡ legacy_gateway_principal cfg.now)
        × (nonces ≡ []))
agent_identified_example =
    agent_identified py wire cfg headers body "genesis-builder" [] nonces caller identified

abbrev drawn : Drawn
drawn = record { now = 1010; job_id = "job_1"; token_key = "0123456789abcdef0123456789abcdef" }

abbrev request : JobRequest
request = record {
  prompt = "build";
  params = end;
  idempotency_key = some "k1";
  webhook_url = some "hooks.acme.com";
  price_tier_cents = none;
  escrow_id = none;
  client_id = none;
}

abbrev empty : Store
empty = record { jobs = []; events = [] }

-- The caller's job in the table.
abbrev one_job : Store
one_job = inserted 1010 (row_of drawn "genesis-builder" request caller) empty

not_blocked : check_webhook py request.webhook_url ≡ ok tt
unfolding check_webhook assert_not_ssrf any is_blocked rstrip_dots starts_with
not_blocked = refl

request-IsNew : IsNew drawn request empty
unfolding find_job find_key
request-IsNew = record { no_job = refl; no_existing = refl; free_key = refl }

-- {"goal": "leak"}
abbrev other_goal : Fields
other_goal = field "goal" (text "leak") end

abbrev body_request : JobRequest
body_request = record request { idempotency_key = none; webhook_url = none }

body_read : read_request py body ≡ some body_request
unfolding read_request request_of get_field
body_read = refl

body-IsNew : IsNew drawn body_request empty
unfolding find_job
body-IsNew = record { no_job = refl; no_existing = refl; free_key = refl }

abbrev codec : TokenCodec
codec = record {
  encode = λ c. "p";
  decode = λ s. some (token_claims 1010 600 caller);
  hmac = λ k e. "s";
}

-- The signed request with other parameters.
params_unsigned_example :
    (verify_agent_principal py wire cfg headers
        (put "params" (object other_goal) body)
        "genesis-builder"
        []
      ≡ (ok caller, nonces))
    × (read_request py (put "params" (object other_goal) body)
        ≡ some (record body_request { params = other_goal }))
    × (j : Job) × (find_job drawn.job_id
          (submit_job py codec true drawn "genesis-builder"
            (record body_request { params = other_goal })
            caller
            empty).1.jobs
        ≡ some j)
    × (j.params ≡ entries other_goal)
    × (j.tenant_id ≡ some caller.tenant_id)
    × (j.owner_principal_id ≡ some caller.principal_id)
    × (j.status ≡ "QUEUED")
params_unsigned_example =
    params_unsigned py other_goal body wire codec cfg headers "genesis-builder" [] nonces caller
      drawn body_request empty identified body_read (unfold check_webhook in refl) body-IsNew

long_key : 32 ≤ chars drawn.token_key
unfolding chars
long_key = omega arith

encodes : Encodes codec drawn.token_key (token_claims drawn.now 600 caller)
unfolding has_dot is_ascii
encodes = record { reads_back = refl; no_dot = refl; ascii_payload = refl; ascii_signature = refl }

-- The caller's job, claimed and delivered, and polled with the token of the answer.
abbrev transactions : List Op
transactions =
    claim_one 1020 "job_1"
    ∷ update 1100 "job_1" (record {
      new_status = "DELIVERED";
      error_code = none;
      error_message = none;
      result_summary = none;
      output_artifact_uris = none;
      allow_terminal_override = false;
    })
    ∷ []

submitted_readable_example :
    (a : Submitted) × (token : String) × (q : Principal) × (j : Job) × (s' : Store) × (submit_job py
        codec true drawn "genesis-builder" request caller empty
      ≡ (ok a, s'))
    × (a.job_id ≡ "job_1")
    × (a.status ≡ "QUEUED")
    × (a.principal_token ≡ some token)
    × (verify_continuation_principal codec cfg (record headers { principal_token = some token })
        ≡ ok q)
    × (get_job_status true a.job_id q (run transactions s') ≡ ok j)
    × (j.id ≡ "job_1")
    × (owners j ≡ (some "acme", some "client:cato"))
submitted_readable_example =
    submitted_readable py codec drawn cfg headers "genesis-builder" request caller empty
      transactions not_blocked request-IsNew refl (unfold has_scope grants_scope contains in refl)
      refl long_key encodes refl refl (unfold is_ascii in refl) (unfold is_ascii in refl)
      (omega arith) (omega arith)

abbrev gateway : Principal
gateway = legacy_gateway_principal 1010

other_tenant : gateway.tenant_id ≢ "acme"
unfolding legacy_gateway_principal
other_tenant e = cc

key_found :
    existing request.idempotency_key one_job.jobs
    ≡ some (row_of drawn "genesis-builder" request caller)
unfolding find_key new_job
key_found = refl

row_found : get_job "job_1" one_job ≡ some (row_of drawn "genesis-builder" request caller)
unfolding get_job find_job new_job
row_found = refl

-- The legacy gateway sends the key of the caller's job.
key_crosses_tenants_example :
    (submit_job py codec true
        (record drawn { job_id = "job_2" })
        "genesis-builder"
        request
        gateway
        one_job
      ≡ (
        ok (record {
          job_id = "job_1";
          status = "QUEUED";
          idempotent_hit = true;
          external_escrow_id = none;
          principal_token = none;
          dispatched = false;
        }),
        one_job,
      ))
    × (e : HttpError) × (get_job_status true "job_1" gateway one_job ≡ raise e)
key_crosses_tenants_example =
    key_crosses_tenants py codec (record drawn { job_id = "job_2" }) "genesis-builder" request
      gateway one_job (row_of drawn "genesis-builder" request caller) none "acme" not_blocked
      (unfold token_for legacy_gateway_principal in refl) key_found row_found
      (unfold new_job in refl) other_tenant

-- One entry of context, next to the goal.
abbrev task : Json
task = object (
    field "goal" (text "site") (
      field "resolved_context"
        (array (
          cons
            (object (
              field "citation" (text "doc-1")
                (field "hash" (text "ab12") (field "content" (text "Fees") end))))
            nil))
        end))

abbrev scoped : Fields
scoped = field "goal" (text "site") (
    field "resolved_context"
      (array (
        cons
          (object (
            field "citation" (text "doc-1")
              (field "content_sha256" (text "ab12") (field "content" (text "Fees") end))))
          nil))
      end)

task_scoped : scoped_runtime_params py task caller ≡ ok scoped
unfolding scoped_runtime_params clean_items clean_item evidence_of prefix put pop get_field or_blank
    truth str_of sanitize redact_text any is_part starts_with
task_scoped = refl

-- The entry and the goal.
context_bounded_example :
    (items : Items) × (es : List Evidence) × (context_items
        (get "resolved_context" (get_or (as_dict task) end))
      ≡ some items)
    × Kept py caller items es
    × (length es ≤ 8)
    × ((k : String)
        → get_field k scoped ≡ (
            if "description" == k
            then none
            else if "resolved_context" == k
            then some (array (evidence_items es))
            else get_field k (get_or (as_dict task) end)))
context_bounded_example = context_bounded py caller task scoped task_scoped

-- The signed request with a description that is not signed.
description_unsigned_example :
    (verify_agent_principal py wire cfg headers
        (described py "leak it" goal body)
        "genesis-builder"
        []
      ≡ verify_agent_principal py wire cfg headers body "genesis-builder" [])
    × (task_text py (get "task" (described py "leak it" goal body)) ≡ "leak it")
description_unsigned_example =
    description_unsigned py wire cfg headers "leak it" "genesis-builder" goal body payload goal []
      (unfold get_field or_dict truth in refl) (unfold get_field or_dict truth in refl)
      (unfold get_field in refl) (unfold get_field in refl) refl

abbrev weather : Weather
weather = record {
  job_store_ok = true;
  escrow_ok = true;
  update_ok = true;
  insert_ok = true;
  answer = none;
}

abbrev desk : Desk
desk = record { store = one_job; notes = []; released = [] }

abbrev complaint : Fields
complaint = field "reason" (text "late") end

one_row : find_job "job_1" one_job.jobs ≡ some (row_of drawn "genesis-builder" request caller)
unfolding find_job new_job
one_row = refl

-- The caller's job, disputed and refunded.
disputed_refunded_example :
    (d r : Job) × (find_job "job_1"
        (after_dispute py weather 1020 "job_1" complaint desk).store.jobs
      ≡ some d)
    × (d.status ≡ "DISPUTED")
    × (find_job "job_1"
          (admin_refund weather 1030 "job_1"
            (after_dispute py weather 1020 "job_1" complaint desk)).1.store.jobs
        ≡ some r)
    × (r.status ≡ "REFUNDED")
    × (map
          (λ n. n.event_type)
          (admin_refund weather 1030 "job_1"
            (after_dispute py weather 1020 "job_1" complaint desk)).1.notes
        ≡ map (λ (n : Note). n.event_type) [] ++ ("dispute_filed" ∷ "admin_refund" ∷ []))
    × ((admin_refund weather 1030 "job_1"
          (after_dispute py weather 1020 "job_1" complaint desk)).1.released
        ≡ [] ++ escrow_calls (open_escrow weather (row_of drawn "genesis-builder" request caller)))
disputed_refunded_example =
    disputed_refunded py weather 1020 1030 "job_1" complaint "late" desk
      (row_of drawn "genesis-builder" request caller)
      (record { job_store_ok = refl; update_ok = refl; insert_ok = refl })
      (unfold get_field in refl) refl one_row

abbrev bundle : Bundle
bundle = record {
  slug = "genesis-builder";
  job_mode = none;
  wallet_id = some "w2";
  price_tier_default_cents = null;
}

abbrev run_request : RunRequest
run_request = record {
  prompt = text "build";
  input = null;
  task = object (field "price_tier_cents" (number "700") (field "buyer_wallet_id" (text "w1") end));
  test_context = false;
  mode = none;
  escrow_id = none;
  callback_url = none;
  skip_internal_escrow = false;
}

-- The agent answers without ok.
abbrev outside : Outside
outside = record {
  resolve_slug = λ s. s;
  runtime_import_ok = true;
  first_load = some (some bundle);
  second_load = some bundle;
  runtime_ready = true;
  escrow_ok = true;
  job_store_ok = true;
  initiate = ok (some "e1");
  executed = ok (field "error" (text "timeout") end);
  router = ok (text "hello");
  is_specialist = λ s. false;
  entity_pack_ok = true;
  drawn = drawn;
}

abbrev world : World
world = record { store = one_job; money = [] }

-- The request with an escrow of the marketplace.
run_agent-money_example :
    (run_agent py codec outside "genesis-builder"
      (record run_request { escrow_id = some "x1" })
      caller
      world).1.money
    ≡ []
run_agent-money_example =
    run_agent-money py outside codec "genesis-builder"
      (record run_request { escrow_id = some "x1" }) caller world refl

-- The request with a price and a wallet.
escrow_closed_example :
    ((run_sync py outside run_request caller bundle world).1.money ≡ [])
    ⊎ ((buyer : Json) × (wallet : String) × (cents : ℕ) × (id : Option String) × (outside.initiate
          ≡ ok id)
        × ((run_sync py outside run_request caller bundle world).1.money
            ≡ [] ++ (initiated buyer wallet cents ∷ closing py outside id)))
escrow_closed_example = escrow_closed py outside run_request caller bundle world

-- The timeout is refunded.
timeout_refunded :
    (run_sync py outside run_request caller bundle world).1.money
    ≡ initiated (text "w1") "w2" 700 ∷ refunded "e1" ∷ []
unfolding run_sync scoped_runtime_params clean_items put pop get_field reserve truth finish_run
    close_escrow raise_for_runtime_failure runtime_error_status is_part str_of contains
timeout_refunded = refl
