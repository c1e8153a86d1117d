-- ===== src/Runtime/Tests.antt =====
-- Runs of agent_runtime.py at concrete inputs: an accounting agent that asks for send_email, an
-- agent that deploys, and one that delegates.
use mathlib.Core.Bool.{false≢true}
use genesis_agents.Base.{
  ◌==◌, eq_iff, ℕ, ◌≤◌, ◌≡◌, ◌↔◌, refl, inl, String, true, false, none, some, List, [], ◌∷◌, All,
  filter, any, lookup, contains,
}
use genesis_agents.Base.Result.{ok}
use genesis_agents.Text.{chars, is_ascii, split_dots, cut_dot}
use genesis_agents.Policy.Tables.{slug_allowed_risks}
use genesis_agents.Policy.Risks.{tool_risk_by_name}
use genesis_agents.Policy.Check.{
  is_prohibited, prohibited_tools, scoped, check_tool_policy, allowed_risks, get_tool_risk_by_name,
}
use genesis_agents.Replay.{spend, sweep, insert_row}
use genesis_agents.Envelope.Values.{get_key, get_field}
use genesis_agents.Grants.Token.{
  Spent, open_grant, check_parts, check_claims, spend_claims, spend_jti, insert_grant, in_health,
  consume_action_grant,
}
use genesis_agents.Grants.Accepted.{IsAccepted}
use genesis_agents.Runtime.State.{State, going, state_of, is_ok, is_truthy, shown}
use genesis_agents.Runtime.Dispatch.{
  first_chain, second_chain, within_quota, execute, run_tool, note_result, authorize, policy_of,
  request_of,
}
use genesis_agents.Runtime.Calls.{dispatch, run_call, conclude, append_event, trace_call, link_of}
use genesis_agents.Runtime.Criteria.{
  max_latency_s, Answered, check_success_criteria, in_force, given, check_criterion, successful,
}
use genesis_agents.Runtime.Loop.{
  Turn, Outcome, stopped, answered, start, run_loop, rounds, round, turn_body, use_response,
  final_answer, timeout,
}
use genesis_agents.Runtime.Invariants.{IsCallable}
use genesis_agents.Runtime.Runs.{final_state}
use genesis_agents.Runtime.Allowed.{calls-IsPreceded, IsPreceded}
use genesis_agents.Runtime.Denied.{refused_runs, HasRun}
use genesis_agents.Runtime.Deployment.{deployment_granted, NeedsGrant}
use genesis_agents.Runtime.Termination.{run_loop-ends, EndsWithin}
use genesis_agents.Runtime.Evidence.{check_success_criteria-ok, Holds}
use genesis_agents.Runtime.Answers.{answered_evidence}
use genesis_agents.Runtime.Backed.{records-IsBacked, IsBacked, CallTest}
use genesis_agents.Runtime.Budget.{
  Ledger, charge_all, remaining_delegation_budget, children_charged,
}
use genesis_agents.Runtime.Delegation.{
  root, genesis_call, execute_child, delegate_to, targets_of, delegation_targets,
}
use genesis_agents.Runtime.Hierarchy.{
  delegation_one_level, IsShallow, rooted, delegated, below_meta,
}
use genesis_agents.Runtime.Samples.{toy, call, script, loads, mailer, formatter, deployer}

callable : IsCallable mailer "send_email"
unfolding is_prohibited prohibited_tools scoped contains
callable = record { registered = refl; advertised = refl; unprohibited = refl }

denied : (policy_of mailer (call "send_email")).ok ≡ false
unfolding check_tool_policy is_prohibited prohibited_tools scoped contains
denied = refl

calls-IsPreceded_example :
    IsPreceded mailer
      (final_state (run_loop toy loads mailer none (script (call "send_email" ∷ [])) [])).effects
calls-IsPreceded_example =
    calls-IsPreceded toy loads mailer none (script (call "send_email" ∷ [])) []

-- The email is sent though the policy denies send_email to every agent.
refused_runs_example :
    (s' : State) × (dispatch toy mailer (call "send_email") (start mailer []) ≡ going s')
    × HasRun (call "send_email") s'
refused_runs_example =
    refused_runs toy mailer (call "send_email") (start mailer []) callable (inl denied)
      (inl (
        unfold check_tool_policy is_prohibited prohibited_tools scoped contains
          get_tool_risk_by_name tool_risk_by_name lookup in
        refl))
      refl refl

deploys : NeedsGrant deployer (call "github_tool")
unfolding check_tool_policy is_prohibited prohibited_tools scoped contains allowed_risks
    slug_allowed_risks get_tool_risk_by_name tool_risk_by_name lookup
deploys = record {
  callable = record { registered = refl; advertised = refl; unprohibited = refl };
  allowed = refl;
  passed_on = refl;
  deploys = refl;
}

deployed :
    (state_of (dispatch toy deployer (call "github_tool") (start deployer []))).tool_executed ≡ true
unfolding dispatch first_chain second_chain authorize within_quota execute run_tool note_result
    check_tool_policy is_prohibited prohibited_tools scoped contains allowed_risks
    slug_allowed_risks get_tool_risk_by_name tool_risk_by_name lookup consume_action_grant
    open_grant check_parts check_claims spend_claims spend_jti insert_grant in_health spend
    insert_row sweep any filter split_dots cut_dot chars is_ascii is_ok
deployed = refl

deployment_granted_example :
    (a : String) × (grants' : List Spent) × IsAccepted toy deployer.key 1010
      (request_of toy deployer (call "github_tool"))
      deployer.grant
      a
      []
      grants'
deployment_granted_example =
    deployment_granted toy deployer (call "github_tool") (start deployer []) deploys refl deployed

-- The script that formats code once and answers.
abbrev formats : ℕ → Turn
formats = script (call "code_format" ∷ [])

run_loop-ends_example :
    (o : Outcome) × (s : State) × (run_loop toy loads formatter none formats [] ≡ stopped o s)
    × EndsWithin o s
run_loop-ends_example = run_loop-ends toy loads formatter none formats []

abbrev is_format : CallTest
is_format name args = name == "code_format"

records-IsBacked_example :
    IsBacked is_format (final_state (run_loop toy loads formatter none formats []))
records-IsBacked_example = records-IsBacked is_format toy loads formatter none formats []

formatted :
    run_loop toy loads formatter none formats []
    ≡ stopped
        (answered (some "done") [])
        (final_state (run_loop toy loads formatter none formats []))
unfolding run_loop rounds round turn_body use_response final_answer run_call conclude append_event
    trace_call link_of dispatch first_chain second_chain within_quota execute run_tool note_result
    check_tool_policy is_prohibited prohibited_tools scoped contains allowed_risks
    slug_allowed_risks get_tool_risk_by_name tool_risk_by_name lookup is_ok is_truthy get_key
    get_field shown check_success_criteria in_force given check_criterion successful filter any
formatted = refl

answered_evidence_example :
    1 ≤ successful (final_state (run_loop toy loads formatter none formats [])).tool_call_records
answered_evidence_example =
    answered_evidence toy loads formatter none formats [] (some "done")
      (final_state (run_loop toy loads formatter none formats [])) (unfold any given in refl) refl
      formatted

-- A late answer without the call that the bundle asks for.
abbrev late : Answered
late = record { response = some "hi"; elapsed = 40000; tool_calls = [] }

check_success_criteria-ok_example :
    (check_success_criteria loads (some (max_latency_s none ∷ [])) late true ≡ [])
    ↔ All (Holds loads late) (in_force (some (max_latency_s none ∷ [])) true)
check_success_criteria-ok_example =
    check_success_criteria-ok loads (some (max_latency_s none ∷ [])) late true

-- genesis-meta calls genesis-seo.
seo_called : genesis_call some (root "genesis-meta") "genesis-seo" ≡ ok (below_meta "genesis-seo")
unfolding genesis_call execute_child delegate_to targets_of delegation_targets lookup contains
seo_called = refl

delegation_one_level_example : IsShallow (below_meta "genesis-seo")
delegation_one_level_example =
    delegation_one_level some (below_meta "genesis-seo") (λ agent slug e. refl)
      (delegated "genesis-seo" (rooted "genesis-meta") seo_called)

abbrev empty_ledger : Ledger
empty_ledger = record { tokens = []; cents = [] }

-- A child that answered and one that timed out.
abbrev children : List (Outcome × State)
children =
    (answered (some "done") [], record (start formatter []) { total_tokens = 1400 })
    ∷ (timeout, record (start formatter []) { total_tokens = 9000 })
    ∷ []

children_charged_example :
    (remaining_delegation_budget (charge_all "job-1" children empty_ledger) "job-1" 4000 600 200
      ≡ (2000, 200))
    × (remaining_delegation_budget (charge_all "job-1" children empty_ledger) "job-2" 4000 600 200
        ≡ remaining_delegation_budget empty_ledger "job-2" 4000 600 200)
unfolding lookup
children_charged_example =
    children_charged "job-1" "job-2" children empty_ledger 4000 600 200 refl
      (λ h. false≢true ((eq_iff "job-1" "job-2").1 h))
