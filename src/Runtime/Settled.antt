-- ===== src/Runtime/Settled.antt =====
-- Dispatched calls of agent_runtime.py: the tool ran, or the answer is a refusal.
use genesis_agents.Base.{
  ◌≡◌, ◌⊎◌, inl, inr, refl, String, Bool, true, false, not, ◌&&◌, Option, none, some, ◌==◌, ltb,
  arith, Bool-cases,
}
use genesis_agents.Base.Json.{Json}
use genesis_agents.Base.Result.{Result, ok, raise}
use genesis_agents.Policy.Tables.{risk_read_only, risk_deployment}
use genesis_agents.Policy.Check.{is_prohibited, prohibition_group}
use genesis_agents.Envelope.Values.{get_key, get_field}
use genesis_agents.Envelope.Answers.{EnvelopeError, prohibited_refusal}
use genesis_agents.Envelope.Laws.{failure_lem}
use genesis_agents.Grants.Token.{Codec}
use genesis_agents.Runtime.State.{
  Call, Job, State, Progress, going, crashed, is_ok, is_truthy, refusal, class_refusal,
}
use genesis_agents.Runtime.Dispatch.{
  policy_of, note_result, run_tool, after_intent, execute, within_quota, over_quota,
  by_authorization, second_chain, max_files_written,
}
use genesis_agents.Runtime.Calls.{refused_by_group, is_open_to, dispatch, result_of}

-- The tool ran, or the answer is a refusal.
abbrev pub IsSettled : State → Type 0
IsSettled s = (s.tool_executed ≡ true) ⊎ (is_ok (result_of s) ≡ false)

abbrev pub Settles : Progress → Type 0
Settles (going s) = IsSettled s
Settles (crashed e s) = Unit

pub refusal-is_ok : (error tool : String) → is_ok (refusal error tool) ≡ false
unfolding is_ok get_key get_field is_truthy
refusal-is_ok error tool = refl

class_refusal-is_ok : (error tool risk : String) → is_ok (class_refusal error tool risk) ≡ false
unfolding is_ok get_key get_field is_truthy
class_refusal-is_ok error tool risk = refl

over_quota-is_ok : is_ok over_quota ≡ false
unfolding is_ok get_key get_field is_truthy
over_quota-is_ok = refl

note_result-executed :
    (c : Call) (r : Result (String × String) Json) (s : State)
    → (note_result c r s).tool_executed ≡ s.tool_executed
unfolding note_result
note_result-executed c (raise e) s = refl
note_result-executed c (ok v) s = ground arith

run_tool-settles : (c : Call) (s : State) → IsSettled (run_tool c s)
unfolding run_tool
run_tool-settles c s = inl (note_result-executed c _ _)

after_intent-settles : (b : Bool) (c : Call) (s : State) → IsSettled (after_intent b c s)
after_intent-settles true c s = run_tool-settles c _
after_intent-settles false c s = inr (refusal-is_ok "audit_preflight_failed" c.name)

quota-settles : (job : Job) (c : Call) (s : State) → IsSettled (within_quota job c s)
unfolding within_quota execute
quota-settles job c s =
    elim (Bool-cases (c.name == "file_write" && not (ltb s.files_written max_files_written))) [
      | inl b ↦ rw b (inr over_quota-is_ok)
      | inr b ↦ elim (Bool-cases ((policy_of job c).risk_class == risk_read_only)) [
        | inl l ↦ rw (b, l) (run_tool-settles c s)
        | inr l ↦ rw (b, l) (after_intent-settles c.intent_ok c s)
      ]
    ]

authorization-Settles :
    (d : Option Bool) (job : Job) (c : Call) (s : State) → Settles (by_authorization d job c s)
authorization-Settles none job c s = tt
authorization-Settles (some true) job c s = quota-settles job c s
authorization-Settles (some false) job c s =
    inr (class_refusal-is_ok "deployment_approval_required" c.name risk_deployment)

second_chain-Settles : (job : Job) (c : Call) (s : State) → Settles (second_chain job c s)
unfolding second_chain
second_chain-Settles job c s = elim (Bool-cases ((policy_of job c).risk_class == risk_deployment)) [
  | inl b ↦ rw b (authorization-Settles s.deployment_authorized job c s)
  | inr b ↦ rw b (quota-settles job c s)
]

prohibited-is_ok :
    (tool group : String) (slug : Option Json) (id : String) (v : Json)
    → prohibited_refusal tool group slug id ≡ ok v
    → is_ok v ≡ false
unfolding prohibited_refusal is_ok
prohibited-is_ok tool group slug id v h =
    ground (arith, (failure_lem tool "policy_denied" _ _ none id v h).1)

group-Settles :
    (tool group : String) (slug : Option Json) (id : String) (s : State)
    → Settles (refused_by_group (prohibited_refusal tool group slug id) s)
group-Settles tool group slug id s = settled _ refl
  where
    settled :
        (x : Result EnvelopeError Json)
        → prohibited_refusal tool group slug id ≡ x
        → Settles (refused_by_group x s)
    settled (ok v) e = inr (prohibited-is_ok tool group slug id v e)
    settled (raise r) e = tt

pub dispatch-Settles :
    (codec : Codec Json) (job : Job) (c : Call) (s : State) → Settles (dispatch codec job c s)
unfolding dispatch
dispatch-Settles codec job c s = elim (Bool-cases (is_prohibited c.name (some job.slug))) [
  | inl b ↦ rw b (group-Settles c.name (prohibition_group c.name) _ _ _)
  | inr b ↦ elim (Bool-cases (is_open_to job c.name)) [
    | inl o ↦ rw (b, o) (second_chain-Settles job c _)
    | inr o ↦ rw (b, o) (inr (refusal-is_ok "tool_not_allowed" c.name))
  ]
]
