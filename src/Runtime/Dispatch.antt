-- ===== src/Runtime/Dispatch.antt =====
-- The execution of one tool call in _run_loop of agent_runtime.py: the prohibition check, the policy
-- chain, the chain after it that runs the tool, the audit entry and the trace record.
use genesis_agents.Base.{
  ℕ, suc, String, Bool, true, false, not, ◌&&◌, Option, none, some, List, [], ◌∷◌, ◌==◌, ltb,
  contains, get_or, if◌then◌else◌,
}
use genesis_agents.Base.Json.{Json, bool, text, object, end}
use genesis_agents.Base.Result.{Result, ok, raise}
use genesis_agents.Policy.Tables.{risk_deployment, risk_read_only}
use genesis_agents.Policy.Check.{check_tool_policy, Decision}
use genesis_agents.Envelope.Answers.{fields}
use genesis_agents.Grants.Token.{Codec, Request, GrantError, Spent, consume_action_grant}
use genesis_agents.Runtime.State.{
  Call, Job, State, Progress, going, crashed, is_ok, is_dict, refusal, class_refusal, emitted,
  intent, called, Crash, Effect,
}

abbrev pub max_files_written : ℕ
max_files_written = 20

abbrev pub say : Effect → State → State
say e s = record s { effects = e ∷ s.effects }

abbrev pub answer : Json → State → State
answer v s = record s { tool_result = some v }

-- `json.loads(raw_args)`, or an empty dictionary where it raises.
abbrev pub args_of : Call → Json
args_of c = get_or c.arguments (object end)

abbrev pub policy_of : Job → Call → Decision
policy_of job c = check_tool_policy job.slug c.name

-- The risk class is not among those that the delegating agent passed on.
abbrev pub escalates : Option (List String) → String → Bool
escalates none risk = false
escalates (some risks) risk = not (contains risks risk)

-- `tool_result = await tool(**args, **ctx)`, where ** wants a dictionary.
abbrev pub outcome : Json → Result (String × String) Json → Result (String × String) Json
outcome args result =
    if is_dict args then result else raise ("TypeError", "argument after ** must be a mapping")

abbrev pub exception : String × String → Json
exception (type, message) = object (
    fields (
      ("ok", bool false)
      ∷ ("error", text "tool_exception")
      ∷ ("type", text type)
      ∷ ("message", text message)
      ∷ []))

-- A successful file_write is counted.
unfoldable pub note_result : Call → Result (String × String) Json → State → State
note_result c (raise e) s = answer (exception e) s
note_result c (ok v) s =
    if c.name == "file_write" && is_ok v
    then record s { tool_result = some v; files_written = suc s.files_written }
    else answer v s

unfoldable pub run_tool : Call → State → State
unfolding note_result
run_tool c s = note_result c (outcome (args_of c) c.answer) (record s {
  tool_executed = true;
  effects = called c.name (args_of c) ∷ emitted "tool.called" c.name ∷ s.effects;
})

-- After append_tool_intent, which returns or raises.
abbrev pub after_intent : Bool → Call → State → State
after_intent true c s = run_tool c (say (intent c.name (args_of c)) s)
after_intent false c s = answer (refusal "audit_preflight_failed" c.name) s

-- The last branch of the second chain: the audit entry before a tool that does not only read.
unfoldable pub execute : Job → Call → State → State
execute job c s =
    if (policy_of job c).risk_class == risk_read_only
    then run_tool c s
    else after_intent c.intent_ok c s

-- The refusal of a write over the quota, less the two counts in it.
abbrev pub over_quota : Json
over_quota = object (fields (("ok", bool false) ∷ ("error", text "file_write_limit_exceeded") ∷ []))

unfoldable pub within_quota : Job → Call → State → State
within_quota job c s =
    if c.name == "file_write" && not (ltb s.files_written max_files_written)
    then answer over_quota s
    else execute job c s

-- The second chain on a tool of the deployment class: the variable is unbound if no tool of the
-- class was authorized or refused before.
abbrev pub by_authorization : Option Bool → Job → Call → State → Progress
by_authorization none job c s = crashed Crash.unbound_local s
by_authorization (some true) job c s = going (within_quota job c s)
by_authorization (some false) job c s = going (
    answer (class_refusal "deployment_approval_required" c.name risk_deployment)
      (say (emitted "tool.blocked" c.name) s))

-- The second chain, from the test of the deployment class on.
unfoldable pub second_chain : Job → Call → State → Progress
second_chain job c s =
    if (policy_of job c).risk_class == risk_deployment
    then by_authorization s.deployment_authorized job c s
    else going (within_quota job c s)

-- Any exception of consume_action_grant is a refusal.
abbrev pub authorized : Result GrantError (String × List Spent) → State → State
authorized (ok (a, grants')) s = record s { grants = grants'; deployment_authorized = some true }
authorized (raise e) s = record s { deployment_authorized = some false }

module _ (codec : Codec Json) where
  -- What the grant is consumed for.
  abbrev pub request_of : Job → Call → Request Json
  request_of job c = record {
    principal_id = job.principal_id;
    tenant_id = job.tenant_id;
    tool = c.name;
    args = args_of c;
  }

  unfoldable pub authorize : Job → Call → State → State
  authorize job c s =
      authorized
        (consume_action_grant codec job.site c.health job.key c.now (request_of job c) job.grant
          s.grants)
        s

  -- The first chain. Its answers are not final: the second chain follows in each case.
  unfoldable pub first_chain : Job → Call → State → State
  first_chain job c s =
      let p = policy_of job c in
      if not p.ok
      then answer (class_refusal "tool_policy_denied" c.name p.risk_class)
          (say (emitted "tool.blocked" c.name) s)
      else if escalates job.delegated_allowed_risks p.risk_class
      then answer (class_refusal "delegation_privilege_escalation" c.name p.risk_class) s
      else if p.risk_class == risk_deployment
      then authorize job c s
      else s
