-- ===== src/Runtime/Deployment.antt =====
-- Tools of the deployment class in agent_runtime.py, whose calls consume a signed grant.
use genesis_agents.Base.{◌≡◌, ◌∙◌, refl, sym, ap, String, true, false, List, ◌==◌}
use genesis_agents.Base.Json.{Json}
use genesis_agents.Base.Result.{Result, ok, raise}
use genesis_agents.Policy.Tables.{risk_deployment}
use genesis_agents.Grants.Token.{Codec, Spent, GrantError}
use genesis_agents.Grants.Accepted.{IsAccepted, accepted}
use genesis_agents.Runtime.State.{Call, Job, State, state_of}
use genesis_agents.Runtime.Dispatch.{
  policy_of, escalates, authorized, authorize, request_of, first_chain, by_authorization,
  second_chain,
}
use genesis_agents.Runtime.Calls.{dispatch}
use genesis_agents.Runtime.Invariants.{IsCallable}
use genesis_agents.Runtime.Denied.{dispatch-callable}

-- A tool of the deployment class that the first chain asks a grant for.
pub record NeedsGrant (job : Job) (c : Call) : Type 0 where
  pub callable : IsCallable job c.name
  pub allowed : (policy_of job c).ok ≡ true
  pub passed_on : escalates job.delegated_allowed_risks (policy_of job c).risk_class ≡ false
  pub deploys : ((policy_of job c).risk_class == risk_deployment) ≡ true

module _ (job : Job) (c : Call)
    (deploys : ((policy_of job c).risk_class == risk_deployment) ≡ true) where
  second_chain-deploys :
      (s : State) → second_chain job c s ≡ by_authorization s.deployment_authorized job c s
  unfolding second_chain
  second_chain-deploys s = rw deploys

  -- The tool runs only if the grant was consumed.
  second_chain-authorized :
      (x : Result GrantError (String × List Spent)) (s : State)
      → s.tool_executed ≡ false
      → (state_of (second_chain job c (authorized x s))).tool_executed ≡ true
      → (out : String × List Spent) × (x ≡ ok out)
  second_chain-authorized (ok out) s e h = (out, refl)
  second_chain-authorized (raise g) s e h =
      cc (ap (λ p. (state_of p).tool_executed) (second_chain-deploys (authorized (raise g) s)))

module _ (codec : Codec Json) (job : Job) (c : Call) where
  first_chain-authorizes :
      (s : State) → NeedsGrant job c → first_chain codec job c s ≡ authorize codec job c s
  unfolding first_chain
  first_chain-authorizes s n = rw (n.allowed, n.passed_on, n.deploys)

  -- A tool of the deployment class that the policy allows to the agent, and whose risk class an agent
  -- that delegated to it, if there is one, passed on, runs only if consume_action_grant accepted the job's grant for this call: signed, in its time, for the
  -- requester, the tenant, this tool and the digest of these arguments, and not spent before. An
  -- authorization from an earlier call does not count.
  pub deployment_granted :
      (s : State)
      → NeedsGrant job c
      → s.tool_executed ≡ false
      → (state_of (dispatch codec job c s)).tool_executed ≡ true
      → (a : String) × (grants' : List Spent) × IsAccepted codec job.key c.now
          (request_of codec job c)
          job.grant
          a
          s.grants
          grants'
  unfolding authorize
  deployment_granted s n e h =
      let eq =
        dispatch-callable codec job c s n.callable
        ∙ ap (second_chain job c) (first_chain-authorizes s n) in
      let ((a, grants'), spent) =
        second_chain-authorized job c n.deploys _ s e
          (sym (ap (λ p. (state_of p).tool_executed) eq) ∙ h) in
      (
        a,
        grants',
        accepted codec job.site c.health job.key c.now _ job.grant a s.grants grants' spent,
      )
