-- ===== src/Runtime/Termination.antt =====
-- The bounds of the loop of agent_runtime.py: it ends, within its turns and model calls.
use genesis_agents.Base.{
  ℕ, zero, suc, ◌+◌, ◌≤◌, ◌<◌, ◌≡◌, ◌≢◌, ◌⊎◌, inl, inr, refl, sym, ◌∙◌, ap, String, Option, List,
  [], ◌∷◌, ltb, arith, Bool-cases, Option-cases,
}
use genesis_agents.Base.Json.{Json}
use genesis_agents.Grants.Token.{Codec, Spent}
use genesis_agents.Runtime.State.{Call, Job, State, Progress, going, crashed, state_of}
use genesis_agents.Runtime.Calls.{run_calls}
use genesis_agents.Runtime.Criteria.{Criterion}
use genesis_agents.Runtime.Loop.{
  Message, Response, Turn, Outcome, llm_call_limit_exceeded, token_budget_exceeded, Round, stopped,
  again, start, and_again, final_answer, next_turn, use_message, use_response, turn_body, round,
  rounds, run_loop, max_turns, max_llm_calls, max_tokens_per_job,
}
use genesis_agents.Runtime.Invariants.{run_call-keeps}
use genesis_agents.Runtime.Runs.{run_calls-keeps}
use genesis_agents.Runtime.Counts.{HasCounts, counts-IsKept}

-- The loop's test: a call for each turn, and the tokens within the budget.
record IsHead (s : State) : Type 0 where
  calls : s.llm_calls ≡ s.turn
  turns : s.turn ≤ max_turns
  tokens : s.total_tokens ≤ max_tokens_per_job

-- The end of a run: at most 10 turns, a model call at most for each, the separate limit on model
-- calls not met, and more than 50,000 tokens only where that is the error.
pub record EndsWithin (o : Outcome) (s : State) : Type 0 where
  pub turns : s.turn ≤ 10
  pub calls : s.llm_calls ≤ s.turn
  pub no_call_limit : o ≢ llm_call_limit_exceeded
  pub tokens : (o ≡ token_budget_exceeded) ⊎ (s.total_tokens ≤ 50000)

-- A round from a head with `turn` turns.
IsGood : ℕ → Round → Type 0
IsGood turn (stopped o s) = EndsWithin o s
IsGood turn (again s) = IsHead s × (s.turn ≡ turn)

-- The state in a turn after the model has answered.
record IsAsked (s : State) : Type 0 where
  asked : s.llm_calls ≡ s.turn
  in_turns : s.turn ≤ max_turns

module _ (codec : Codec Json) (loads : String → Option Json) (job : Job)
    (criteria : Option (List Criterion)) where
  next-IsGood :
      (p : Progress) (s : State)
      → IsAsked s
      → s.total_tokens ≤ max_tokens_per_job
      → HasCounts s.turn s.llm_calls s.total_tokens (state_of p)
      → IsGood s.turn (next_turn codec loads job criteria p)
  unfolding IsGood
  next-IsGood (going t) s a l (x, y, z) =
      (record { calls = y ∙ a.asked ∙ sym x; turns = rw x a.in_turns; tokens = rw z l }, x)
  next-IsGood (crashed e t) s a l (x, y, z) = record {
    turns = rw x a.in_turns;
    calls = omega (arith, x, y, a.asked);
    no_call_limit = λ h. cc;
    tokens = inr (rw z l);
  }

  message-IsGood :
      (m : Message) (cs : List Call) (s : State)
      → IsAsked s
      → s.total_tokens ≤ max_tokens_per_job
      → IsGood s.turn (use_message codec loads job criteria m cs s)
  unfolding IsGood final_answer
  message-IsGood m [] s a l = record {
    turns = a.in_turns;
    calls = omega (arith, a.asked);
    no_call_limit = λ h. cc;
    tokens = inr l;
  }
  message-IsGood m (c ∷ cs) s a l = next-IsGood (run_calls codec job (c ∷ cs) s) s a l (
      run_calls-keeps codec job
        (run_call-keeps (counts-IsKept s.turn s.llm_calls s.total_tokens job) codec) (c ∷ cs) s
        (refl, refl, refl))

  response-IsGood :
      (r : Response) (s : State)
      → IsAsked s
      → IsGood s.turn (use_response codec loads job criteria r s)
  unfolding IsGood use_response
  response-IsGood r s a = elim (Bool-cases (ltb max_tokens_per_job s.total_tokens)) [
    | inl b ↦ rw b (record {
      turns = a.in_turns;
      calls = omega (arith, a.asked);
      no_call_limit = λ h. cc;
      tokens = inl refl;
    })
    | inr b ↦ elim (Option-cases r.choice) [
      | inl n ↦
          rw (b, n)
            (record {
              turns = a.in_turns;
              calls = omega (arith, a.asked);
              no_call_limit = λ h. cc;
              tokens = inr (ground arith);
            })
      | inr (m, e) ↦ rw (b, e) (message-IsGood m m.tool_calls s a (ground arith))
    ]
  ]

  body-IsGood :
      (t : Turn) (s : State)
      → IsHead s
      → s.turn < max_turns
      → IsGood (suc s.turn) (turn_body codec loads job criteria t (record s { turn = suc s.turn }))
  unfolding IsGood turn_body
  body-IsGood t s h l = elim (Bool-cases t.timed_out) [
    | inl b ↦ rw b (record {
      turns = omega arith;
      calls = omega (arith, h.calls);
      no_call_limit = λ e. cc;
      tokens = inr h.tokens;
    })
    | inr b ↦ elim (Bool-cases (ltb s.llm_calls max_llm_calls)) [
      | inr n ↦ absurd (ground (arith, h.calls))
      | inl n ↦ elim (Option-cases t.response) [
        | inl e ↦
            rw (b, n, e)
              (record {
                turns = omega arith;
                calls = omega (arith, h.calls);
                no_call_limit = λ e. cc;
                tokens = inr h.tokens;
              })
        | inr (r, e) ↦
            rw (b, n, e)
              (response-IsGood r _ (record { asked = ap suc h.calls; in_turns = omega arith }))
      ]
    ]
  ]

  round-IsGood :
      (script : ℕ → Turn) (s : State)
      → IsHead s
      → IsGood (suc s.turn) (round codec loads job criteria script s)
  unfolding IsGood round
  round-IsGood script s h = elim (Bool-cases (ltb s.turn max_turns)) [
    | inl b ↦ rw b (body-IsGood (script s.turn) s h (ground arith))
    | inr b ↦ rw b (record {
      turns = h.turns;
      calls = omega (arith, h.calls);
      no_call_limit = λ e. cc;
      tokens = inr h.tokens;
    })
  ]

  -- A run of rounds that has stopped.
  abbrev HasStopped : Round → Type 0
  HasStopped r = (o : Outcome) × (s : State) × (r ≡ stopped o s) × EndsWithin o s

  continued-ends :
      (turn : ℕ) (r : Round) (f : State → Round)
      → IsGood turn r
      → ((s : State) → IsHead s → s.turn ≡ turn → HasStopped (f s))
      → HasStopped (and_again r f)
  unfolding IsGood
  continued-ends turn (stopped o s) f g h = (o, s, refl, g)
  continued-ends turn (again s) f g h = h s g.0 g.1

  rounds-end :
      (script : ℕ → Turn) (fuel : ℕ) (s : State)
      → IsHead s
      → max_turns < fuel + s.turn
      → HasStopped (rounds codec loads job criteria script fuel s)
  unfolding rounds
  rounds-end script zero s h l = absurd (omega (arith, h.turns))
  rounds-end script (suc fuel) s h l =
      continued-ends (suc s.turn) (round codec loads job criteria script s)
        (rounds codec loads job criteria script fuel) (round-IsGood script s h)
        (λ t g e. rounds-end script fuel t g (omega arith))

  -- Every run ends, whatever the model answers, with an answer, an error or an exception, after at
  -- most 10 turns and at most one model call for each: the fuel of 11 rounds is enough. The error
  -- llm_call_limit_exceeded never occurs, and every other end but token_budget_exceeded has at most
  -- 50,000 tokens.
  pub run_loop-ends :
      (script : ℕ → Turn) (grants : List Spent)
      → (o : Outcome) × (s : State) × (run_loop codec loads job criteria script grants
          ≡ stopped o s)
        × EndsWithin o s
  unfolding run_loop
  run_loop-ends script grants =
      rounds-end script (suc max_turns) (start job grants)
        (record { calls = refl; turns = omega arith; tokens = omega arith }) (omega arith)
