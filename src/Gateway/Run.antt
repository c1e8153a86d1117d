-- ===== src/Gateway/Run.antt =====
-- POST /agents/{slug}/run of main.py: run_agent, with its escrows. What the bundle loader, the escrow
-- client, the runtime and the model router answer is given. A wallet or a price that is read as no
-- text or no whole number ends the request where it is used.
use Prim.Native.String.{◌++◌ as cat}
use genesis_agents.Base.{
  ℕ, String, Bool, true, ◌||◌, Option, none, some, List, [], ◌∷◌, ◌++◌, ◌==◌, map, filter, contains,
  get_or, if◌then◌else◌,
}
use genesis_agents.Base.Json.{Json, Items, Fields, bool, number, text, array, nil, cons, end}
use genesis_agents.Base.Result.{Result, ok, raise}
use genesis_agents.Text.{truthy?, or_empty}
use genesis_agents.Envelope.Values.{get_field}
use genesis_agents.Audit.Redaction.{is_part}
use genesis_agents.Policy.Check.{is_prohibited, sorted_texts}
use genesis_agents.Jobs.Table.{Store}
use genesis_agents.Gateway.Http.{HttpError, Detail, http, Python, get, as_dict, truth, str_of}
use genesis_agents.Gateway.Submit.{Drawn}

pub record RunRequest : Type 0 where
  pub prompt : Json
  pub input : Json
  pub task : Json
  pub test_context : Bool
  pub mode : Option String
  pub escrow_id : Option String
  pub callback_url : Option String
  pub skip_internal_escrow : Bool

pub record Bundle : Type 0 where
  pub slug : String
  pub job_mode : Option String
  pub wallet_id : Option String
  pub price_tier_default_cents : Json

-- The calls of the escrow client: an initiation that succeeded, and the settlements and refunds that
-- were asked for. The client raises nothing.
pub data Money : Type 0 where
  initiated : Json → String → ℕ → Money
  settled : String → Money
  refunded : String → Money

pub record World : Type 0 where
  pub store : Store
  pub money : List Money

-- The outside of one request. A load of the bundle is none where it raises; the second one is none
-- also where there is no bundle. `initiate` is the escrow's id or the error, `executed` the result of
-- execute_agent or what it raises with.
pub record Outside : Type 0 where
  pub resolve_slug : String → String
  pub runtime_import_ok : Bool
  pub first_load : Option (Option Bundle)
  pub second_load : Option Bundle
  pub runtime_ready : Bool
  pub escrow_ok : Bool
  pub job_store_ok : Bool
  pub initiate : Result String (Option String)
  pub executed : Result String Fields
  pub router : Result HttpError Json
  pub is_specialist : String → Bool
  pub entity_pack_ok : Bool
  pub drawn : Drawn

pub record Queued : Type 0 where
  pub job_id : String
  pub status : String
  pub idempotent_hit : Bool
  pub principal_token : Option String
  pub escrow_id : Option String
  pub external_escrow_id : Option String

-- The answers: a queued job, the result of the runtime, and the text of the persona path, which is
-- sent as `"ok": True`.
pub data Reply : Type 0 where
  queued : Queued → Reply
  ran : Fields → Reply
  persona : Json → Reply

abbrev pub Run : Type 0
Run = Result HttpError Reply × World

abbrev pub spend : Money → World → World
spend m w = record w { money = w.money ++ (m ∷ []) }

abbrev pub crash : HttpError
crash = http 500 "Internal Server Error"

abbrev items_of : Json → List Json
items_of (array xs) = go xs
  where
    go : Items → List Json
    go nil = []
    go (cons y ys) = y ∷ go ys
items_of _ = []

-- `constraints.get("allowed_tools", [])` of the task's constraints, where each level is a dictionary.
abbrev requested_tools : Json → List Json
requested_tools task =
    items_of
      (get "allowed_tools" (get_or (as_dict (get "constraints" (get_or (as_dict task) end))) end))

abbrev pub skips_escrow : RunRequest → Bool
skips_escrow body = truthy? body.escrow_id || body.skip_internal_escrow

module _ (py : Python) where
  unfoldable pub prohibited_tools : Json → String → List String
  unfolding is_prohibited filter str_of
  prohibited_tools task bundle_slug =
      sorted_texts
        (filter (λ n. is_prohibited n (some bundle_slug)) (map (str_of py) (requested_tools task)))

  unfoldable pub prefers_sync : RunRequest → Bool
  prefers_sync body = body.test_context || py.library.strip (or_empty body.mode) == "live_test"

  -- `int(value)`
  abbrev pub whole : Json → Option ℕ
  whole (number n) = py.natural n
  whole (text s) = py.natural s
  whole (bool true) = some 1
  whole _ = none

  unfoldable pub runtime_error_status : Fields → ℕ
  unfolding is_part contains str_of
  runtime_error_status result =
      let error = str_of py (get_or (get_field "error" result) (text "agent_failure")) in
      let message = str_of py (get_or (get_field "message" result) (text "")) in
      let combined = py.library.lower (cat error (cat " " message)) in
      if error == "timeout"
      then 504
      else if is_part "429" combined
          || (is_part "too many requests" combined || is_part "rate limit" combined)
      then 429
      else if is_part "402" combined
          || (is_part "credit" combined || is_part "payment required" combined)
      then 402
      else if error == "success_criteria_failed"
      then 422
      else if contains
          ("tool_not_allowed" ∷ "file_write_limit_exceeded" ∷ "token_budget_exceeded"
            ∷ "llm_call_limit_exceeded" ∷ [])
          error
      then 429
      else 502

  -- `result.get("ok", True)`
  abbrev pub succeeded : Fields → Bool
  succeeded result = truth py (get_or (get_field "ok" result) (bool true))

  -- Of the detail of the answer, the error is kept.
  unfoldable pub raise_for_runtime_failure : Fields → Result HttpError (Unit {0})
  unfolding truth runtime_error_status
  raise_for_runtime_failure result =
      if succeeded result
      then ok tt
      else raise (record {
        status = runtime_error_status result;
        detail =
            Detail.message (str_of py (get_or (get_field "error" result) (text "agent_failure")));
      })

  -- The fallback: the router's answer under the persona's prompt.
  unfoldable pub answer_persona : Outside → World → Run
  answer_persona o w = elim o.router [
    | raise e ↦ (raise e, w)
    | ok answer ↦ (ok (persona answer), w)
  ]
