-- ===== src/Runtime/State.antt =====
-- The values that the loop of agent_runtime.py handles, and the state it keeps between tool calls.
use Prim.Native.Char.{code}
use genesis_agents.Base.{
  ℕ, String, Bool, true, false, not, Option, List, [], ◌∷◌, nat_eq, if◌then◌else◌, contains,
}
use genesis_agents.Base.Json.{
  Json, Fields, null, bool, number, text, array, object, nil, cons, end, field,
}
use genesis_agents.Base.Result.{Result}
use genesis_agents.Text.{truthy}
use genesis_agents.Envelope.Values.{get_key}
use genesis_agents.Envelope.Answers.{fields, or_null}
use genesis_agents.Grants.Token.{Spent, Site, Health}

-- What a tool call makes happen outside the loop: an event, the audit entry made before a tool runs,
-- the call of the tool, the audit entry made after it.
pub data Effect : Type 0 where
  emitted : String → String → Effect
  intent : String → Json → Effect
  called : String → Json → Effect
  appended : String → Json → Json → Effect

-- The exceptions that leave the loop.
pub data Crash : Type 0 where
  unbound_local attribute_error value_error : Crash

-- One tool call of the model's message, with what the outside answers to it: what json.loads makes
-- of its arguments, the replay table's health and the time, the id drawn for a refusal, whether the
-- two audit entries are written, and what the tool returns, or the type and message it raises with.
pub record Call : Type 0 where
  pub id : String
  pub name : String
  pub arguments : Option Json
  pub health : Health
  pub now : ℕ
  pub request_id : String
  pub intent_ok : Bool
  pub answer : Result (String × String) Json
  pub event_ok : Bool

-- What stays the same during an invocation.
pub record Job : Type 0 where
  pub slug : String
  pub job_id : String
  pub session_id : String
  pub tools_advertised : List String
  pub registered : String → Bool
  pub delegated_allowed_risks : Option (List String)
  pub grant : String
  pub principal_id : String
  pub tenant_id : String
  pub site : Site
  pub key : String

-- The fields that a record of genesis_call has besides.
pub record Link : Type 0 where
  pub target_agent_slug : Json
  pub child_job_id : Json
  pub child_session_id : Json
  pub child_ok : Json

-- A trace record, less its times and texts for display.
pub record Record : Type 0 where
  pub turn : ℕ
  pub tool_name : String
  pub tool_call_id : String
  pub arguments : Fields
  pub ok : Bool
  pub link : Option Link

pub record Subagent : Type 0 where
  pub parent_job_id : String
  pub child_job_id : Json
  pub child_agent_slug : Json
  pub task : Json
  pub status : String

-- The local variables of _run_loop, the table of spent grants and the effects, newest first.
-- `none` is an unbound variable.
pub record State : Type 0 where
  pub turn : ℕ
  pub llm_calls : ℕ
  pub total_tokens : ℕ
  pub files_written : ℕ
  pub deployment_authorized : Option Bool
  pub tool_result : Option Json
  pub tool_executed : Bool
  pub tool_call_records : List Record
  pub subagent_records : List Subagent
  pub grants : List Spent
  pub effects : List Effect

-- A step that goes on, or an exception and the state it leaves behind.
pub data Progress : Type 0 where
  going : State → Progress
  crashed : Crash → State → Progress

abbrev pub state_of : Progress → State
state_of (going s) = s
state_of (crashed e s) = s

abbrev pub and_then : Progress → (State → Progress) → Progress
and_then (going s) f = f s
and_then (crashed e s) f = crashed e s

-- `bool(v)` on a value that Python prints as kept.
unfoldable pub is_truthy : Json → Bool
unfolding contains
is_truthy null = false
is_truthy (bool b) = b
is_truthy (number n) = not (contains ("0" ∷ "0.0" ∷ "-0.0" ∷ []) n)
is_truthy (text s) = truthy s
is_truthy (array nil) = false
is_truthy (array (cons x xs)) = true
is_truthy (object end) = false
is_truthy (object (field k v fs)) = true

abbrev pub is_dict : Json → Bool
is_dict null = false
is_dict (bool b) = false
is_dict (number n) = false
is_dict (text s) = false
is_dict (array xs) = false
is_dict (object fs) = true

-- `bool(tool_result.get("ok")) if isinstance(tool_result, dict) else False`
unfoldable pub is_ok : Json → Bool
unfolding is_truthy get_key
is_ok v = if is_dict v then is_truthy (or_null (get_key "ok" v)) else false

-- The dictionary of a call that is refused.
abbrev pub refusal : String → String → Json
refusal error tool =
    object (fields (("ok", bool false) ∷ ("error", text error) ∷ ("tool", text tool) ∷ []))

abbrev pub class_refusal : String → String → String → Json
class_refusal error tool risk = object (
    fields (
      ("ok", bool false)
      ∷ ("error", text error)
      ∷ ("tool", text tool)
      ∷ ("risk_class", text risk)
      ∷ []))

unfoldable starts_with_underscore : String → Bool
starts_with_underscore String.[] = false
starts_with_underscore (String.◌∷◌ c s) = nat_eq (code c) b'_'

-- `{k: v for k, v in args.items() if not k.startswith("_")}`
unfoldable pub shown : Fields → Fields
unfolding starts_with_underscore
shown end = end
shown (field k v fs) =
    let rest = shown fs in if starts_with_underscore k then rest else field k v rest
