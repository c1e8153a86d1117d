-- ===== src/Runtime/Counts.antt =====
-- The counts of turns, model calls and tokens in agent_runtime.py, which a tool call leaves alone.
use genesis_agents.Base.{ℕ, ◌≡◌, inl, inr, String, Bool, true, false, ◌==◌, arith, Bool-cases}
use genesis_agents.Base.Json.{Json}
use genesis_agents.Base.Result.{Result, ok, raise}
use genesis_agents.Policy.Tables.{risk_read_only}
use genesis_agents.Runtime.State.{Call, Job, State}
use genesis_agents.Runtime.Dispatch.{note_result, run_tool, after_intent, execute, policy_of}
use genesis_agents.Runtime.Calls.{append_event, trace_call}
use genesis_agents.Runtime.Invariants.{IsKept}

-- The counts of the loop, which no tool call changes.
abbrev pub HasCounts : ℕ → ℕ → ℕ → State → Type 0
HasCounts turn calls tokens s = (s.turn ≡ turn) × (s.llm_calls ≡ calls) × (s.total_tokens ≡ tokens)

module _ (turn calls tokens : ℕ) where
  note_result-counts :
      (c : Call) (r : Result (String × String) Json) (s : State)
      → HasCounts turn calls tokens s
      → HasCounts turn calls tokens (note_result c r s)
  unfolding note_result
  note_result-counts c (raise e) s q = q
  note_result-counts c (ok v) s q = ground arith

  after_intent-counts :
      (b : Bool) (c : Call) (s : State)
      → HasCounts turn calls tokens s
      → HasCounts turn calls tokens (after_intent b c s)
  unfolding run_tool
  after_intent-counts true c s q = note_result-counts c _ _ q
  after_intent-counts false c s q = q

  execute-counts :
      (job : Job) (c : Call) (s : State)
      → HasCounts turn calls tokens s
      → HasCounts turn calls tokens (execute job c s)
  unfolding execute run_tool
  execute-counts job c s q = elim (Bool-cases ((policy_of job c).risk_class == risk_read_only)) [
    | inl b ↦ rw b (note_result-counts c _ _ q)
    | inr b ↦ rw b (after_intent-counts c.intent_ok c s q)
  ]

  pub counts-IsKept : (job : Job) → IsKept job (HasCounts turn calls tokens)
  unfolding append_event trace_call
  counts-IsKept job = record {
    dispatched = record {
      said = λ s k t q. q;
      replied = λ s v q. q;
      granted = λ s g d q. q;
      executed = λ c s i r q. execute-counts job c s q;
    };
    begun = λ s q. q;
    entered = λ c s q. ground arith;
    traced = λ c args v s q. ground arith;
  }
