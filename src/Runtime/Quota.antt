-- ===== src/Runtime/Quota.antt =====
-- The quota on file_write in a run of agent_runtime.py.
use genesis_agents.Base.{
  ℕ, ◌≤◌, String, Bool, true, false, Option, List, ◌==◌, arith, Bool-cases, inl, inr,
}
use genesis_agents.Base.Json.{Json}
use genesis_agents.Base.Result.{Result, ok, raise}
use genesis_agents.Policy.Tables.{risk_read_only}
use genesis_agents.Grants.Token.{Codec, Spent}
use genesis_agents.Runtime.State.{Call, Job, State}
use genesis_agents.Runtime.Dispatch.{
  note_result, run_tool, after_intent, execute, policy_of, max_files_written,
}
use genesis_agents.Runtime.Calls.{append_event, trace_call}
use genesis_agents.Runtime.Criteria.{Criterion}
use genesis_agents.Runtime.Loop.{Turn, run_loop}
use genesis_agents.Runtime.Invariants.{IsKept, HasRoom}
use genesis_agents.Runtime.Runs.{call-IsRunKept, final_state, run-keeps}

abbrev WithinQuota : State → Type 0
WithinQuota s = s.files_written ≤ max_files_written

note_result-quota :
    (c : Call) (r : Result (String × String) Json) (s : State)
    → HasRoom c s
    → WithinQuota s
    → WithinQuota (note_result c r s)
unfolding note_result
note_result-quota c (raise e) s r q = q
note_result-quota c (ok v) s r q = ground arith

after_intent-quota :
    (b : Bool) (c : Call) (s : State)
    → HasRoom c s
    → WithinQuota s
    → WithinQuota (after_intent b c s)
unfolding run_tool
after_intent-quota true c s r q = note_result-quota c _ _ r q
after_intent-quota false c s r q = q

execute-quota :
    (job : Job) (c : Call) (s : State) → HasRoom c s → WithinQuota s → WithinQuota (execute job c s)
unfolding execute run_tool
execute-quota job c s r q = elim (Bool-cases ((policy_of job c).risk_class == risk_read_only)) [
  | inl b ↦ rw b (note_result-quota c _ _ r q)
  | inr b ↦ rw b (after_intent-quota c.intent_ok c s r q)
]

quota-IsKept : (job : Job) → IsKept job WithinQuota
unfolding append_event trace_call
quota-IsKept job = record {
  dispatched = record {
    said = λ s k t q. q;
    replied = λ s v q. q;
    granted = λ s g d q. q;
    executed = λ c s i r q. execute-quota job c s r q;
  };
  begun = λ s q. q;
  entered = λ c s q. ground arith;
  traced = λ c args v s q. ground arith;
}

-- No run writes more than 20 files: the count of successful file_write calls never passes the quota,
-- whatever the model asks for.
pub files_written_bounded :
    (codec : Codec Json) (loads : String → Option Json) (job : Job)
    (criteria : Option (List Criterion)) (script : ℕ → Turn) (grants : List Spent)
    → (final_state (run_loop codec loads job criteria script grants)).files_written ≤ 20
files_written_bounded codec loads job criteria script grants =
    run-keeps (call-IsRunKept codec (quota-IsKept job) (λ s turn calls tokens q. q)) loads criteria
      script grants (omega arith)
