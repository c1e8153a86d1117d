-- ===== src/Runtime/Answers.antt =====
-- The answered runs of agent_runtime.py: where the verdict on the success criteria comes from.
use genesis_agents.Base.{
  ℕ, zero, suc, ◌≤◌, ◌≡◌, subst, refl, inl, inr, String, false, not, Option, List, [], ◌∷◌, ltb,
  any, Bool-cases, Option-cases,
}
use genesis_agents.Base.Json.{Json}
use genesis_agents.Grants.Token.{Codec, Spent}
use genesis_agents.Runtime.State.{Call, Job, State, Progress, going, crashed}
use genesis_agents.Runtime.Calls.{run_calls}
use genesis_agents.Runtime.Criteria.{
  Criterion, Failure, Answered, given, successful, check_success_criteria, counts_calls,
}
use genesis_agents.Runtime.Loop.{
  Message, Response, Turn, answered, timeout, llm_call_limit_exceeded, llm_call_failed,
  token_budget_exceeded, no_choices_in_llm_response, max_turns_reached, raised, Round, stopped,
  again, start, and_again, final_answer, next_turn, use_message, use_response, turn_body, round,
  rounds, run_loop, max_turns, max_llm_calls, max_tokens_per_job, is_empty,
}
use genesis_agents.Runtime.Evidence.{criteria_evidence}

module _ (codec : Codec Json) (loads : String → Option Json) (job : Job)
    (criteria : Option (List Criterion)) where
  -- The result that the criteria are checked on, at some time.
  abbrev pub result_at : ℕ → Option String → State → Answered
  result_at elapsed content s = record {
    response = content;
    elapsed = elapsed;
    tool_calls = s.tool_call_records;
  }

  abbrev Verdict : Option String → List Failure → State → Type 0
  Verdict content failed s =
      (elapsed : ℕ) × (check_success_criteria loads criteria (result_at elapsed content s)
          (not (is_empty job.tools_advertised))
        ≡ failed)

  -- A stopped run that has an answer has its verdict.
  abbrev IsJudged : Round → Type 0
  IsJudged (again s) = Unit
  IsJudged (stopped (answered content failed) s) = Verdict content failed s
  IsJudged (stopped timeout s) = Unit
  IsJudged (stopped llm_call_limit_exceeded s) = Unit
  IsJudged (stopped llm_call_failed s) = Unit
  IsJudged (stopped token_budget_exceeded s) = Unit
  IsJudged (stopped no_choices_in_llm_response s) = Unit
  IsJudged (stopped max_turns_reached s) = Unit
  IsJudged (stopped (raised e) s) = Unit

  next-IsJudged : (p : Progress) → IsJudged (next_turn codec loads job criteria p)
  next-IsJudged (going s) = tt
  next-IsJudged (crashed e s) = tt

  message-IsJudged :
      (m : Message) (cs : List Call) (s : State)
      → IsJudged (use_message codec loads job criteria m cs s)
  unfolding final_answer
  message-IsJudged m [] s = (m.elapsed, refl)
  message-IsJudged m (c ∷ cs) s = next-IsJudged (run_calls codec job (c ∷ cs) s)

  response-IsJudged :
      (r : Response) (s : State) → IsJudged (use_response codec loads job criteria r s)
  unfolding use_response
  response-IsJudged r s = elim (Bool-cases (ltb max_tokens_per_job s.total_tokens)) [
    | inl b ↦ rw b tt
    | inr b ↦ elim (Option-cases r.choice) [
      | inl n ↦ rw (b, n) tt
      | inr (m, e) ↦ rw (b, e) (message-IsJudged m m.tool_calls s)
    ]
  ]

  body-IsJudged : (t : Turn) (s : State) → IsJudged (turn_body codec loads job criteria t s)
  unfolding turn_body
  body-IsJudged t s = elim (Bool-cases t.timed_out) [
    | inl b ↦ rw b tt
    | inr b ↦ elim (Bool-cases (ltb s.llm_calls max_llm_calls)) [
      | inr l ↦ rw (b, l) tt
      | inl l ↦ elim (Option-cases t.response) [
        | inl n ↦ rw (b, l, n) tt
        | inr (r, e) ↦ rw (b, l, e) (response-IsJudged r _)
      ]
    ]
  ]

  round-IsJudged :
      (script : ℕ → Turn) (s : State) → IsJudged (round codec loads job criteria script s)
  unfolding round
  round-IsJudged script s = elim (Bool-cases (ltb s.turn max_turns)) [
    | inl b ↦ rw b (body-IsJudged (script s.turn) _)
    | inr b ↦ rw b tt
  ]

  continued-IsJudged :
      (r : Round) (f : State → Round)
      → IsJudged r
      → ((s : State) → IsJudged (f s))
      → IsJudged (and_again r f)
  continued-IsJudged (stopped o s) f j h = j
  continued-IsJudged (again s) f j h = h s

  rounds-IsJudged :
      (script : ℕ → Turn) (fuel : ℕ) (s : State)
      → IsJudged (rounds codec loads job criteria script fuel s)
  unfolding rounds
  rounds-IsJudged script zero s = tt
  rounds-IsJudged script (suc fuel) s =
      continued-IsJudged (round codec loads job criteria script s)
        (rounds codec loads job criteria script fuel) (round-IsJudged script s)
        (rounds-IsJudged script fuel)

  run_loop-judged :
      (script : ℕ → Turn) (grants : List Spent) (content : Option String) (failed : List Failure)
      (s : State)
      → run_loop codec loads job criteria script grants ≡ stopped (answered content failed) s
      → Verdict content failed s
  unfolding run_loop
  run_loop-judged script grants content failed s h =
      subst IsJudged h (rounds-IsJudged script _ (start job grants))

  -- An agent that advertises tools cannot answer ok without evidence: if the run ends with an answer
  -- and no failed criterion, and the bundle has no min_successful_tool_calls criterion of its own, at
  -- least one tool call is on record as successful.
  pub answered_evidence :
      (script : ℕ → Turn) (grants : List Spent) (content : Option String) (s : State)
      → any counts_calls (given criteria) ≡ false
      → is_empty job.tools_advertised ≡ false
      → run_loop codec loads job criteria script grants ≡ stopped (answered content []) s
      → 1 ≤ successful s.tool_call_records
  answered_evidence script grants content s own adv h =
      let (elapsed, ok) = run_loop-judged script grants content [] s h in
      criteria_evidence loads criteria (result_at elapsed content s) own (rw adv at ok)
