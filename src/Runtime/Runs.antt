-- ===== src/Runtime/Runs.antt =====
-- Invariants of a run of agent_runtime.py: what each tool call keeps, the whole run keeps.
use genesis_agents.Base.{
  ℕ, suc, zero, String, Option, List, [], ◌∷◌, ltb, Bool-cases, Option-cases, inl, inr,
}
use genesis_agents.Base.Json.{Json}
use genesis_agents.Grants.Token.{Codec, Spent}
use genesis_agents.Runtime.State.{Call, Job, State, Progress, going, crashed, state_of, emitted}
use genesis_agents.Runtime.Dispatch.{say}
use genesis_agents.Runtime.Calls.{run_call, run_calls}
use genesis_agents.Runtime.Criteria.{Criterion}
use genesis_agents.Runtime.Invariants.{IsKept, then-keeps, run_call-keeps}
use genesis_agents.Runtime.Loop.{
  Message, Response, Turn, Round, stopped, again, start, final_answer, next_turn, use_message,
  use_response, turn_body, round, rounds, and_again, run_loop, max_tokens_per_job, max_llm_calls,
  max_turns,
}

-- A predicate that does not look at the counts of the loop.
abbrev pub IsCountFree : (State → Type 0) → Type 0
IsCountFree P =
    (s : State) (turn calls tokens : ℕ)
    → P s
    → P (record s { turn = turn; llm_calls = calls; total_tokens = tokens })

abbrev pub final_state : Round → State
final_state (stopped o s) = s
final_state (again s) = s

-- A predicate that each tool call, each event and each change of the counts keeps.
pub record IsRunKept (codec : Codec Json) (job : Job) (P : State → Type 0) : Type 0 where
  pub calls : (c : Call) (s : State) → P s → P (state_of (run_call codec job c s))
  pub said : (s : State) (k t : String) → P s → P (say (emitted k t) s)
  pub counted : IsCountFree P

pub call-IsRunKept :
    {job : Job} {P : State → Type 0} (codec : Codec Json)
    → IsKept job P
    → IsCountFree P
    → IsRunKept codec job P
call-IsRunKept codec k free = record {
  calls = run_call-keeps k codec;
  said = k.dispatched.said;
  counted = free;
}

-- The calls of one message.
module _ {P : State → Type 0} (codec : Codec Json) (job : Job)
    (kept : (c : Call) (s : State) → P s → P (state_of (run_call codec job c s))) where
  pub run_calls-keeps : (cs : List Call) (s : State) → P s → P (state_of (run_calls codec job cs s))
  run_calls-keeps [] s p = p
  run_calls-keeps (c ∷ cs) s p =
      then-keeps (run_call codec job c s) (run_calls codec job cs) (kept c s p) (run_calls-keeps cs)

module _ {codec : Codec Json} {job : Job} {P : State → Type 0} (k : IsRunKept codec job P) where
  open k use {said, counted}

  module _ (loads : String → Option Json) (criteria : Option (List Criterion)) where
    next-keeps :
        (x : Progress) → P (state_of x) → P (final_state (next_turn codec loads job criteria x))
    next-keeps (going s) p = p
    next-keeps (crashed e s) p = p

    message-keeps :
        (m : Message) (cs : List Call) (s : State)
        → P s
        → P (final_state (use_message codec loads job criteria m cs s))
    unfolding final_answer
    message-keeps m [] s p = said s _ _ p
    message-keeps m (c ∷ cs) s p =
        next-keeps (run_calls codec job (c ∷ cs) s) (run_calls-keeps codec job k.calls (c ∷ cs) s p)

    response-keeps :
        (r : Response) (s : State)
        → P s
        → P (final_state (use_response codec loads job criteria r s))
    unfolding use_response
    response-keeps r s p = elim (Bool-cases (ltb max_tokens_per_job s.total_tokens)) [
      | inl b ↦ rw b p
      | inr b ↦ elim (Option-cases r.choice) [
        | inl n ↦ rw (b, n) p
        | inr (m, e) ↦ rw (b, e) (message-keeps m m.tool_calls s p)
      ]
    ]

    body-keeps :
        (t : Turn) (s : State) → P s → P (final_state (turn_body codec loads job criteria t s))
    unfolding turn_body
    body-keeps t s p = elim (Bool-cases t.timed_out) [
      | inl b ↦ rw b p
      | inr b ↦ elim (Bool-cases (ltb s.llm_calls max_llm_calls)) [
        | inr l ↦ rw (b, l) p
        | inl l ↦ elim (Option-cases t.response) [
          | inl n ↦ rw (b, l, n) p
          | inr (r, e) ↦ rw (b, l, e) (response-keeps r _ (counted s _ _ _ p))
        ]
      ]
    ]

    round-keeps :
        (script : ℕ → Turn) (s : State)
        → P s
        → P (final_state (round codec loads job criteria script s))
    unfolding round
    round-keeps script s p = elim (Bool-cases (ltb s.turn max_turns)) [
      | inl b ↦ rw b (body-keeps _ _ (counted s _ _ _ p))
      | inr b ↦ rw b p
    ]

    continued :
        (r : Round) (f : State → Round)
        → P (final_state r)
        → ((s : State) → P s → P (final_state (f s)))
        → P (final_state (and_again r f))
    continued (stopped o s) f p h = p
    continued (again s) f p h = h s p

    rounds-keeps :
        (script : ℕ → Turn) (fuel : ℕ) (s : State)
        → P s
        → P (final_state (rounds codec loads job criteria script fuel s))
    unfolding rounds
    rounds-keeps script zero s p = p
    rounds-keeps script (suc fuel) s p =
        continued (round codec loads job criteria script s)
          (rounds codec loads job criteria script fuel) (round-keeps script s p)
          (rounds-keeps script fuel)

    -- An invariant of each step that the start has, the end of a run has.
    pub run-keeps :
        (script : ℕ → Turn) (grants : List Spent)
        → P (start job grants)
        → P (final_state (run_loop codec loads job criteria script grants))
    unfolding run_loop
    run-keeps script grants p = rounds-keeps script _ _ p
