-- ===== src/Runtime/Effects.antt =====
-- The effects that the steps of a tool call add, in agent_runtime.py.
use genesis_agents.Base.{
  ◌≡◌, ◌⊎◌, inl, inr, refl, String, Bool, true, false, ◌&&◌, List, ◌∷◌, ◌==◌, arith, eq_iff,
  Bool-cases,
}
use genesis_agents.Base.Json.{Json, Fields}
use genesis_agents.Base.Result.{Result, ok, raise}
use genesis_agents.Policy.Tables.{risk_read_only}
use genesis_agents.Runtime.State.{
  Call, Job, State, Effect, emitted, intent, called, appended, is_dict, is_ok,
}
use genesis_agents.Runtime.Dispatch.{
  args_of, policy_of, note_result, run_tool, after_intent, execute,
}
use genesis_agents.Runtime.Calls.{append_event, trace_call, outputs, result_of}

-- The effects after a tool was called, or would have been.
abbrev pub with_call : Call → List Effect → List Effect
with_call c es = called c.name (args_of c) ∷ emitted "tool.called" c.name ∷ es

note_result-effects :
    (c : Call) (r : Result (String × String) Json) (s : State)
    → (note_result c r s).effects ≡ s.effects
unfolding note_result
note_result-effects c (raise e) s = refl
note_result-effects c (ok v) s = elim (Bool-cases (c.name == "file_write" && is_ok v)) [
  | inl b ↦ rw b
  | inr b ↦ rw b
]

pub run_tool-effects : (c : Call) (s : State) → (run_tool c s).effects ≡ with_call c s.effects
unfolding run_tool
run_tool-effects c s = note_result-effects c _ _

after_intent-effects :
    (b : Bool) (c : Call) (s : State)
    → ((after_intent b c s).effects ≡ s.effects)
      ⊎ ((after_intent b c s).effects ≡ with_call c (intent c.name (args_of c) ∷ s.effects))
after_intent-effects true c s = inr (run_tool-effects c _)
after_intent-effects false c s = inl refl

-- The audit entry stands before the call unless the tool only reads; without it there is no call.
pub execute-effects :
    (job : Job) (c : Call) (s : State)
    → (((execute job c s).effects ≡ s.effects)
        ⊎ ((execute job c s).effects ≡ with_call c (intent c.name (args_of c) ∷ s.effects)))
      ⊎ (((policy_of job c).risk_class ≡ risk_read_only)
          × ((execute job c s).effects ≡ with_call c s.effects))
unfolding execute
execute-effects job c s = elim (Bool-cases ((policy_of job c).risk_class == risk_read_only)) [
  | inl b ↦ rw b (inr ((eq_iff _ _).0 b, run_tool-effects c s))
  | inr b ↦ rw b (inl (after_intent-effects c.intent_ok c s))
]

pub append_event-effects :
    (c : Call) (s : State)
    → ((append_event c s).effects ≡ s.effects)
      ⊎ ((append_event c s).effects
          ≡ appended c.name (args_of c) (outputs (result_of s)) ∷ s.effects)
unfolding append_event
append_event-effects c s = elim (Bool-cases s.tool_executed) [
  | inr b ↦ rw b (inl refl)
  | inl b ↦ elim (Bool-cases c.event_ok) [
    | inl e ↦ rw (b, e) (inr refl)
    | inr e ↦ rw (b, e) (inl refl)
  ]
]

pub trace_call-effects :
    (job : Job) (c : Call) (args : Fields) (v : Json) (s : State)
    → ((trace_call job c args v s).effects ≡ s.effects)
      ⊎ ((trace_call job c args v s).effects ≡ emitted "subagent.returned" c.name ∷ s.effects)
unfolding trace_call
trace_call-effects job c args v s = elim (Bool-cases (c.name == "genesis_call" && is_dict v)) [
  | inl b ↦ rw b (inr refl)
  | inr b ↦ rw b (inl refl)
]

note_result-records :
    (c : Call) (r : Result (String × String) Json) (s : State)
    → (note_result c r s).tool_call_records ≡ s.tool_call_records
unfolding note_result
note_result-records c (raise e) s = refl
note_result-records c (ok v) s = ground arith

after_intent-records :
    (b : Bool) (c : Call) (s : State) → (after_intent b c s).tool_call_records ≡ s.tool_call_records
unfolding run_tool
after_intent-records true c s = note_result-records c _ _
after_intent-records false c s = refl

-- The trace is not written while a tool runs.
pub execute-records :
    (job : Job) (c : Call) (s : State) → (execute job c s).tool_call_records ≡ s.tool_call_records
unfolding execute run_tool
execute-records job c s = elim (Bool-cases ((policy_of job c).risk_class == risk_read_only)) [
  | inl b ↦ rw b (note_result-records c _ _)
  | inr b ↦ rw b (after_intent-records c.intent_ok c s)
]
