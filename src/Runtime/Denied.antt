-- ===== src/Runtime/Denied.antt =====
-- What becomes of a call that the first chain of agent_runtime.py refuses.
use genesis_agents.Base.{
  ◌≡◌, ◌∙◌, ◌⊎◌, inl, inr, refl, ap, String, Bool, true, false, none, some, List, ◌∷◌, ◌==◌, arith,
  Bool-cases,
}
use genesis_agents.Base.Json.{Json}
use genesis_agents.Base.Result.{Result, ok, raise}
use genesis_agents.Policy.Tables.{risk_read_only, risk_deployment}
use genesis_agents.Grants.Token.{Codec}
use genesis_agents.Runtime.State.{Call, Job, State, going, crashed, Effect, called, emitted, Crash}
use genesis_agents.Runtime.Dispatch.{
  args_of, policy_of, escalates, outcome, exception, note_result, run_tool, after_intent, execute,
  within_quota, by_authorization, second_chain, first_chain,
}
use genesis_agents.Runtime.Calls.{dispatch}
use genesis_agents.Runtime.Effects.{run_tool-effects}
use genesis_agents.Runtime.Invariants.{IsCallable, HasRoom}

-- The first chain refuses: by the agent's policy, or by the risk classes passed on to it.
abbrev pub IsRefused : Job → Call → Type 0
IsRefused job c =
    ((policy_of job c).ok ≡ false)
    ⊎ (((policy_of job c).ok ≡ true)
        × (escalates job.delegated_allowed_risks (policy_of job c).risk_class ≡ true))

-- What a tool's answer is to the model.
abbrev pub reply : Result (String × String) Json → Json
reply (ok v) = v
reply (raise e) = exception e

-- The tool was called last, and its answer stands.
pub record HasRun (c : Call) (s : State) : Type 0 where
  pub earlier : List Effect
  pub last_call : s.effects ≡ called c.name (args_of c) ∷ earlier
  pub executed : s.tool_executed ≡ true
  pub result : s.tool_result ≡ some (reply (outcome (args_of c) c.answer))

note_result-result :
    (c : Call) (r : Result (String × String) Json) (s : State)
    → ((note_result c r s).tool_result ≡ some (reply r))
      × ((note_result c r s).tool_executed ≡ s.tool_executed)
unfolding note_result
note_result-result c (raise e) s = (refl, refl)
note_result-result c (ok v) s = ground arith

run_tool-HasRun : (c : Call) (s : State) → HasRun c (run_tool c s)
unfolding run_tool
run_tool-HasRun c s = record {
  earlier = emitted "tool.called" c.name ∷ s.effects;
  last_call = run_tool-effects c s;
  executed = (note_result-result c _ _).1;
  result = (note_result-result c _ _).0;
}

after_intent-HasRun : (b : Bool) (c : Call) (s : State) → b ≡ true → HasRun c (after_intent b c s)
after_intent-HasRun true c s h = run_tool-HasRun c _
after_intent-HasRun false c s h = cc

quota-HasRun :
    (job : Job) (c : Call) (s : State)
    → c.intent_ok ≡ true
    → HasRoom c s
    → HasRun c (within_quota job c s)
unfolding within_quota execute
quota-HasRun job c s i r =
    rw r (elim (Bool-cases ((policy_of job c).risk_class == risk_read_only)) [
      | inl b ↦ rw b (run_tool-HasRun c s)
      | inr b ↦ rw b (after_intent-HasRun c.intent_ok c s i)
    ])

module _ (codec : Codec Json) (job : Job) (c : Call) where
  -- The first chain leaves the count of files and the authorization of an earlier call.
  first_chain-refused :
      (s : State)
      → IsRefused job c
      → ((first_chain codec job c s).deployment_authorized ≡ s.deployment_authorized)
        × ((first_chain codec job c s).files_written ≡ s.files_written)
  unfolding first_chain
  first_chain-refused s (inl b) = (rw b refl, rw b refl)
  first_chain-refused s (inr (b, e)) = (rw (b, e) refl, rw (b, e) refl)

  pub dispatch-callable :
      (s : State)
      → IsCallable job c.name
      → dispatch codec job c s ≡ second_chain job c (first_chain codec job c s)
  unfolding dispatch
  dispatch-callable s i = rw (i.unprohibited, i.registered, i.advertised)

  -- A call that the first chain refuses runs all the same, and its answer replaces the refusal. This
  -- holds for each callable tool that the agent's policy denies or that escalates a delegated
  -- agent's risk classes, if it is not of the deployment class or an earlier deployment in the
  -- run was authorized, the quota has room and the audit entry before it is written.
  pub refused_runs :
      (s : State)
      → IsCallable job c.name
      → IsRefused job c
      → (((policy_of job c).risk_class == risk_deployment) ≡ false)
        ⊎ (s.deployment_authorized ≡ some true)
      → HasRoom c s
      → c.intent_ok ≡ true
      → (s' : State) × (dispatch codec job c s ≡ going s') × HasRun c s'
  unfolding second_chain
  refused_runs s i r d q a =
      let (kept, files) = first_chain-refused s r in
      let t = first_chain codec job c s in
      (
        within_quota job c t,
        dispatch-callable s i ∙ reached t (elim d [ inl b ↦ inl b | inr e ↦ inr (kept ∙ e) ]),
        quota-HasRun job c t a (rw files q),
      )
    where
      reached :
          (t : State)
          → (((policy_of job c).risk_class == risk_deployment) ≡ false)
            ⊎ (t.deployment_authorized ≡ some true)
          → second_chain job c t ≡ going (within_quota job c t)
      reached t (inl b) = rw b
      reached t (inr e) = elim (Bool-cases ((policy_of job c).risk_class == risk_deployment)) [
        | inl b ↦ rw b (ap (λ x. by_authorization x job c t) e)
        | inr b ↦ rw b
      ]

  -- A call of the deployment class that the first chain refuses, before any deployment of the run,
  -- ends the run by an exception (an unbound variable) in place of an answer to the model.
  pub refused_crashes :
      (s : State)
      → IsCallable job c.name
      → IsRefused job c
      → ((policy_of job c).risk_class == risk_deployment) ≡ true
      → s.deployment_authorized ≡ none
      → (s' : State) × (dispatch codec job c s ≡ crashed Crash.unbound_local s')
  unfolding second_chain
  refused_crashes s i r d n = (
    first_chain codec job c s,
    dispatch-callable s i
        ∙ rw d (
            ap (λ x. by_authorization x job c (first_chain codec job c s))
              ((first_chain-refused s r).0 ∙ n)),
  )
