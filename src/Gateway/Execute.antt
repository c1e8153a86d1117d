-- ===== src/Gateway/Execute.antt =====
-- The paths of run_agent in main.py: the reserve of an escrow, the queued job, the run by the
-- runtime, and the choice between them.
use genesis_agents.Base.{
  ℕ, String, Bool, not, ◌&&◌, Option, none, some, List, [], ◌∷◌, ◌==◌, if◌then◌else◌,
}
use genesis_agents.Base.Json.{Json, Fields, object}
use genesis_agents.Base.Result.{ok, raise}
use genesis_agents.Text.{truthy, truthy?, or_empty}
use genesis_agents.Auth.Envelope.{Principal}
use genesis_agents.Auth.Tokens.{TokenCodec}
use genesis_agents.Jobs.Table.{Store}
use genesis_agents.Jobs.Operations.{NewJob, Created, create_job}
use genesis_agents.Gateway.Http.{HttpError, Detail, http, Python, get, as_dict, truth}
use genesis_agents.Gateway.Context.{or_json, build_user_prompt, scoped_runtime_params}
use genesis_agents.Gateway.Submit.{as_text, entries, check_webhook, token_for}
use genesis_agents.Gateway.Run.{
  RunRequest, Bundle, initiated, settled, refunded, World, Outside, queued, ran, Run, spend, crash,
  skips_escrow, prohibited_tools, prefers_sync, whole, raise_for_runtime_failure, answer_persona,
}

-- What comes of the escrow step: the escrow's id, with the worlds after it, or an error.
pub data Reserve : Type 0 where
  reserved : Option String → World → Reserve
  refused : HttpError → Reserve

-- Prohibited names end the request; without one, the rest of it is read.
abbrev pub refuse_names : List String → World → Run → Run
refuse_names [] w rest = rest
refuse_names (name ∷ names) w rest = (
  raise (record { status = 403; detail = Detail.names "prohibited_capability" (name ∷ names) }),
  w,
)

module _ (py : Python) where
  -- The escrow that the gateway initiates itself.
  unfoldable pub reserve : Outside → Bool → Json → Json → Option String → World → Reserve
  unfolding truth
  reserve o skip price buyer wallet w =
      if o.escrow_ok && (not skip && (truth py price && (truth py buyer && truthy? wallet)))
      then elim (whole py price) [
        | none ↦ refused crash
        | some cents ↦ elim o.initiate [
          | raise e ↦ refused (http 402 "escrow_initiate_failed")
          | ok id ↦ reserved id (spend (initiated buyer (or_empty wallet) cents) w)
        ]
      ]
      else reserved none w

  -- release_escrow, for an escrow of the gateway's own.
  unfoldable pub release : Outside → RunRequest → Option String → World → World
  release o body escrow w =
      if truthy? escrow && (o.escrow_ok && not (truthy? body.escrow_id))
      then spend (refunded (or_empty escrow)) w
      else w

  -- `int(price) if price else None`
  abbrev pub job_price : Json → Option (Option ℕ)
  job_price price =
      if truth py price
      then (elim (whole py price) [ none ↦ none | some n ↦ some (some n) ])
      else some none

  abbrev pub job_of :
      String
      → RunRequest
      → Principal
      → String
      → Fields
      → Option ℕ
      → Option String
      → Option String
      → NewJob
  job_of slug body principal prompt params price buyer escrow = record {
    agent_slug = slug;
    prompt = prompt;
    params = some (entries params);
    buyer_wallet_id = buyer;
    buyer_client_id = none;
    price_tier_cents = price;
    idempotency_key = none;
    webhook_url = body.callback_url;
    webhook_secret = none;
    escrow_id = escrow;
    tenant_id = some principal.tenant_id;
    owner_principal_id = some principal.principal_id;
  }

  -- The `try` block around create_job; a callback URL that is blocked counts as a failure in it.
  unfoldable pub enqueue :
      Outside
      → String
      → RunRequest
      → Principal
      → String
      → Fields
      → Json
      → Option String
      → Store
      → Option (Created × Store)
  unfolding check_webhook create_job truth
  enqueue o slug body principal prompt params price escrow s =
      elim (check_webhook py body.callback_url) [
        | raise e ↦ none
        | ok u ↦ elim (job_price price) [
          | none ↦ none
          | some cents ↦ elim (as_text (get "buyer_wallet_id" params)) [
            | none ↦ none
            | some buyer ↦
                elim (create_job o.drawn.now o.drawn.job_id
                  (job_of slug body principal prompt params cents buyer escrow) s) [
                    | raise e ↦ none
                    | ok (job, s') ↦ some (job, s')
                  ]
          ]
        ]
      ]

  unfoldable pub answer_queued :
      TokenCodec → Outside → RunRequest → Principal → Option String → Created → World → Run
  unfolding token_for
  answer_queued codec o body principal escrow job w = elim (token_for py codec o.drawn principal) [
    | raise e ↦ (raise e, w)
    | ok token ↦ (
      ok (
          queued (record {
            job_id = job.id;
            status = job.status;
            idempotent_hit = job.idempotent_hit;
            principal_token = token;
            escrow_id = if truthy? escrow then escrow else none;
            external_escrow_id = if truthy? body.escrow_id then body.escrow_id else none;
          })),
      w,
    )
  ]

  -- The job, once the escrow is settled on.
  unfoldable pub queue_job :
      TokenCodec
      → Outside
      → String
      → RunRequest
      → Principal
      → String
      → Fields
      → Json
      → Option String
      → World
      → Run
  unfolding enqueue release answer_queued
  queue_job codec o slug body principal prompt params price escrow w =
      elim (enqueue o slug body principal prompt params price escrow w.store) [
        | none ↦ (raise (http 500 "job_create_failed"), release o body escrow w)
        | some (job, s') ↦ answer_queued codec o body principal escrow job (record w { store = s' })
      ]

  -- `user_prompt or (json.dumps(body.task) if isinstance(body.task, dict) else "")`
  abbrev pub async_prompt : String → Json → String
  async_prompt prompt task =
      if truthy prompt
      then prompt
      else elim (as_dict task) [ none ↦ "" | some fs ↦ py.library.dumps (object fs) ]

  abbrev pub job_prompt : RunRequest → String
  job_prompt body = async_prompt (build_user_prompt py body.prompt body.input body.task) body.task

  abbrev pub asked_price : Fields → Bundle → Json
  asked_price params bundle =
      or_json py (get "price_tier_cents" params) bundle.price_tier_default_cents

  unfoldable pub run_async :
      TokenCodec → Outside → String → RunRequest → Principal → Bundle → World → Run
  unfolding scoped_runtime_params reserve queue_job build_user_prompt truth
  run_async codec o slug body principal bundle w =
      if not o.job_store_ok
      then (raise (http 503 "job_store_unavailable"), w)
      else elim (scoped_runtime_params py body.task principal) [
        | raise e ↦ (raise e, w)
        | ok params ↦
            if truthy? body.escrow_id
            then queue_job codec o slug body principal (job_prompt body) params
                (asked_price params bundle) body.escrow_id w
            else elim (reserve o (skips_escrow body) (asked_price params bundle)
                (get "buyer_wallet_id" params) bundle.wallet_id w) [
                  | refused e ↦ (raise e, w)
                  | reserved escrow w' ↦
                      queue_job codec o slug body principal (job_prompt body) params
                        (asked_price params bundle) escrow w'
                ]
      ]

  -- The end of the escrow of a run that returned, by the result's `ok`.
  unfoldable pub close_escrow : Outside → Option String → Fields → World → World
  unfolding truth
  close_escrow o escrow result w =
      if truthy? escrow && o.escrow_ok
      then (if truth py (get "ok" result)
          then spend (settled (or_empty escrow)) w
          else spend (refunded (or_empty escrow)) w)
      else w

  -- What execute_agent returned: the escrow is closed, then a failure is raised. The escrow ids that
  -- the answer repeats are left out.
  unfoldable pub finish_run : Outside → Option String → Fields → World → Run
  unfolding close_escrow raise_for_runtime_failure
  finish_run o escrow result w = elim (raise_for_runtime_failure py result) [
    | raise e ↦ (raise e, close_escrow o escrow result w)
    | ok u ↦ (ok (ran result), close_escrow o escrow result w)
  ]

  unfoldable pub run_sync : Outside → RunRequest → Principal → Bundle → World → Run
  unfolding scoped_runtime_params reserve release finish_run answer_persona
  run_sync o body principal bundle w =
      if not o.runtime_ready
      then answer_persona py o w
      else elim (scoped_runtime_params py body.task principal) [
        | raise e ↦ (raise e, w)
        | ok params ↦
            elim (reserve o (skips_escrow body) (get "price_tier_cents" params)
              (get "buyer_wallet_id" params) bundle.wallet_id w) [
                | refused e ↦ (raise e, w)
                | reserved escrow w' ↦ elim o.executed [
                  | raise e ↦ answer_persona py o (release o body escrow w')
                  | ok result ↦ finish_run o escrow result w'
                ]
              ]
      ]

  unfoldable pub run_bundle :
      TokenCodec → Outside → String → RunRequest → Principal → Bundle → World → Run
  unfolding prefers_sync run_async run_sync answer_persona
  run_bundle codec o slug body principal bundle w =
      if prefers_sync py body
      then (if o.is_specialist bundle.slug && not o.entity_pack_ok
          then (raise (http 500 "accounting_entity_load_failed"), w)
          else answer_persona py o w)
      else if or_empty bundle.job_mode == "async"
      then run_async codec o slug body principal bundle w
      else run_sync o body principal bundle w

  -- From the load of the bundle on.
  unfoldable pub run_loaded : TokenCodec → Outside → String → RunRequest → Principal → World → Run
  unfolding run_bundle answer_persona
  run_loaded codec o slug body principal w =
      if not o.runtime_import_ok
      then (raise (http 503 "bundle_runtime_unavailable"), w)
      else elim o.first_load [
        | none ↦ (raise (http 503 "bundle_runtime_unavailable"), w)
        | some found ↦ elim found [
          | none ↦ (raise (http 404 "agent_bundle_required"), w)
          | some b ↦ elim o.second_load [
            | none ↦ answer_persona py o w
            | some bundle ↦ run_bundle codec o slug body principal bundle w
          ]
        ]
      ]

  unfoldable pub run_agent : TokenCodec → Outside → String → RunRequest → Principal → World → Run
  unfolding prohibited_tools run_loaded
  run_agent codec o slug body principal w =
      refuse_names (prohibited_tools py body.task (o.resolve_slug slug)) w
        (run_loaded codec o slug body principal w)
