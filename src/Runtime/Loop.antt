-- ===== src/Runtime/Loop.antt =====
-- _run_loop of agent_runtime.py. What the clock, the model and the tools answer, turn by turn, is a
-- script. The loop's test is in a round; rounds are repeated on fuel. The proof bundle that is made
-- from the browser's log after the last answer, the trace and the routing fields are left out.
use genesis_agents.Base.{
  ℕ, suc, zero, ◌+◌, String, Bool, true, false, not, Option, none, some, List, [], ◌∷◌, ltb,
  if◌then◌else◌,
}
use genesis_agents.Base.Json.{Json}
use genesis_agents.Grants.Token.{Codec, Spent}
use genesis_agents.Runtime.State.{Call, Job, State, Progress, going, crashed, emitted, Crash}
use genesis_agents.Runtime.Dispatch.{say}
use genesis_agents.Runtime.Calls.{run_calls}
use genesis_agents.Runtime.Criteria.{Criterion, Failure, check_success_criteria}

abbrev pub max_turns : ℕ
max_turns = 10

abbrev pub max_llm_calls : ℕ
max_llm_calls = 10

abbrev pub max_tokens_per_job : ℕ
max_tokens_per_job = 50000

-- The first choice's message: its content, its tool calls and the time since the start.
pub record Message : Type 0 where
  pub content : Option String
  pub tool_calls : List Call
  pub elapsed : ℕ

-- A model's response; the tokens are 0 where the usage cannot be read.
pub record Response : Type 0 where
  pub total_tokens : ℕ
  pub choice : Option Message

-- A turn: whether the time is over, and the response, if the call does not raise.
pub record Turn : Type 0 where
  pub timed_out : Bool
  pub response : Option Response

pub data Outcome : Type 0 where
  answered : Option String → List Failure → Outcome
  timeout llm_call_limit_exceeded llm_call_failed token_budget_exceeded : Outcome
  no_choices_in_llm_response max_turns_reached : Outcome
  raised : Crash → Outcome

pub data Round : Type 0 where
  stopped : Outcome → State → Round
  again : State → Round

abbrev pub and_again : Round → (State → Round) → Round
and_again (stopped o s) f = stopped o s
and_again (again s) f = f s

abbrev pub is_empty {ℓ} : {A : Type ℓ} → List A → Bool
is_empty [] = true
is_empty (x ∷ xs) = false

abbrev pub completion : List Failure → String
completion fs = if is_empty fs then "job.completed" else "job.failed"

-- The state before the first turn.
abbrev pub start : Job → List Spent → State
start job grants = record {
  turn = 0;
  llm_calls = 0;
  total_tokens = 0;
  files_written = 0;
  deployment_authorized = none;
  tool_result = none;
  tool_executed = false;
  tool_call_records = [];
  subagent_records = [];
  grants = grants;
  effects = emitted "agent.started" job.slug ∷ [];
}

module _ (codec : Codec Json) (loads : String → Option Json) (job : Job)
    (success_criteria : Option (List Criterion)) where
  -- The last answer, judged by the criteria.
  unfoldable pub final_answer : Message → State → Round
  final_answer m s =
      let failed =
        check_success_criteria loads success_criteria
          (record { response = m.content; elapsed = m.elapsed; tool_calls = s.tool_call_records })
          (not (is_empty job.tools_advertised)) in
      stopped (answered m.content failed) (say (emitted (completion failed) job.job_id) s)

  abbrev pub next_turn : Progress → Round
  next_turn (going s) = again s
  next_turn (crashed e s) = stopped (raised e) s

  abbrev pub use_message : Message → List Call → State → Round
  use_message m [] s = final_answer m s
  use_message m (c ∷ cs) s = next_turn (run_calls codec job (c ∷ cs) s)

  unfoldable pub use_response : Response → State → Round
  unfolding final_answer
  use_response r s =
      if ltb max_tokens_per_job s.total_tokens
      then stopped token_budget_exceeded s
      else elim r.choice [
        | none ↦ stopped no_choices_in_llm_response s
        | some m ↦ use_message m m.tool_calls s
      ]

  -- The body of the loop, after its test and `turn += 1`.
  unfoldable pub turn_body : Turn → State → Round
  turn_body t s =
      if t.timed_out
      then stopped timeout s
      else if not (ltb s.llm_calls max_llm_calls)
      then stopped llm_call_limit_exceeded s
      else elim t.response [
        | none ↦ stopped llm_call_failed s
        | some r ↦ use_response r (record s {
          llm_calls = suc s.llm_calls;
          total_tokens = s.total_tokens + r.total_tokens;
        })
      ]

  unfoldable pub round : (ℕ → Turn) → State → Round
  round script s =
      if ltb s.turn max_turns
      then turn_body (script s.turn) (record s { turn = suc s.turn })
      else stopped max_turns_reached s

  -- `again` is a run that is out of fuel.
  unfoldable pub rounds : (ℕ → Turn) → ℕ → State → Round
  rounds script zero s = again s
  rounds script (suc fuel) s = and_again (round script s) (rounds script fuel)

  -- A run from the start; the last round is the one whose test fails.
  unfoldable pub run_loop : (ℕ → Turn) → List Spent → Round
  run_loop script grants = rounds script (suc max_turns) (start job grants)
