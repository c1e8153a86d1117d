-- ===== src/Runtime/Backed.antt =====
-- The trace of agent_runtime.py against the audit log: what stands behind a successful record.
use genesis_agents.Base.{
  ℕ, suc, ◌≤◌, ◌≡◌, ◌⊎◌, inl, inr, refl, String, false, Option, List, [], ◌∷◌, Bool, ◌&&◌, arith,
  Bool-cases, if◌then◌else◌,
}
use genesis_agents.Base.Json.{Json, Fields, null, bool, number, text, array, object, end}
use genesis_agents.Envelope.Values.{get_key, get_field}
use genesis_agents.Grants.Token.{Codec, Spent}
use genesis_agents.Runtime.State.{
  Call, Job, State, Progress, going, crashed, state_of, and_then, Effect, emitted, intent, called,
  appended, is_ok, is_truthy, Record, shown,
}
use genesis_agents.Runtime.Dispatch.{args_of, execute}
use genesis_agents.Runtime.Calls.{
  append_event, trace_call, record_call, conclude, run_call, result_of, outputs,
}
use genesis_agents.Runtime.Criteria.{Criterion}
use genesis_agents.Runtime.Effects.{execute-effects, execute-records}
use genesis_agents.Runtime.Loop.{Turn, run_loop}
use genesis_agents.Runtime.Settled.{IsSettled, Settles, dispatch-Settles, refusal-is_ok}
use genesis_agents.Runtime.Invariants.{IsDispatchKept, dispatch-keeps}
use genesis_agents.Runtime.Runs.{IsRunKept, run-keeps, final_state}

-- The arguments as a record shows them.
abbrev pub shown_of : Json → Fields
shown_of null = end
shown_of (bool b) = end
shown_of (number n) = end
shown_of (text t) = end
shown_of (array xs) = end
shown_of (object fs) = shown fs

-- A test on the name of a tool and its arguments as they are shown.
abbrev pub CallTest : Type 0
CallTest = String → Fields → Bool

-- The audit entries of calls with the test that answered ok.
unfoldable pub entries : CallTest → List Effect → ℕ
entries t [] = 0
entries t (emitted k n ∷ es) = entries t es
entries t (intent n a ∷ es) = entries t es
entries t (called n a ∷ es) = entries t es
entries t (appended n a o ∷ es) =
    let rest = entries t es in if is_ok o && t n (shown_of a) then suc rest else rest

-- The records of calls with the test that are marked ok.
unfoldable pub reported : CallTest → List Record → ℕ
reported t [] = 0
reported t (r ∷ rs) =
    let rest = reported t rs in if r.ok && t r.tool_name r.arguments then suc rest else rest

-- As many audit entries as successful records, among the calls with the test.
abbrev pub IsBacked : CallTest → State → Type 0
IsBacked t s = reported t s.tool_call_records ≤ entries t s.effects

outputs-is_ok : (v : Json) → is_ok (outputs v) ≡ is_ok v
unfolding is_ok get_key get_field is_truthy
outputs-is_ok null = refl
outputs-is_ok (bool b) = refl
outputs-is_ok (number n) = refl
outputs-is_ok (text t) = refl
outputs-is_ok (array xs) = refl
outputs-is_ok (object fs) = refl

module _ (t : CallTest) where
  -- A state in which the audit log is ready for the record of the call with these arguments.
  abbrev IsReady : Call → Json → State → Type 0
  IsReady c v s =
      IsBacked t s
      × (((is_ok (result_of s) && t c.name (shown_of v)) ≡ false)
          ⊎ (suc (reported t s.tool_call_records) ≤ entries t s.effects))

  append_event-IsReady :
      (c : Call) (s : State) → IsBacked t s → IsSettled s → IsReady c (args_of c) (append_event c s)
  unfolding append_event entries
  append_event-IsReady c s b k = elim (Bool-cases s.tool_executed) [
    | inr n ↦ rw n (b, inl (ground arith))
    | inl x ↦ elim (Bool-cases c.event_ok) [
      | inr n ↦ rw (x, n) (b, inl (rw (refusal-is_ok "audit_append_failed" c.name) refl))
      | inl y ↦
          rw (x, y)
            (elim (Bool-cases (is_ok (result_of s) && t c.name (shown_of (args_of c)))) [
              | inl o ↦
                  rw (outputs-is_ok (result_of s), o) (omega (arith, b), inr (omega (arith, b)))
              | inr o ↦ rw (outputs-is_ok (result_of s), o) (b, inl refl)
            ])
    ]
  ]

  trace_call-IsBacked :
      (job : Job) (c : Call) (args : Fields) (s : State)
      → IsReady c (object args) s
      → IsBacked t (trace_call job c args (result_of s) s)
  unfolding trace_call reported entries
  trace_call-IsBacked job c args s (b, r) = ground arith

  record_call-IsBacked :
      (job : Job) (c : Call) (v : Json) (s : State)
      → IsReady c v s
      → IsBacked t (state_of (record_call job c v s))
  record_call-IsBacked job c null s r = r.0
  record_call-IsBacked job c (bool b) s r = r.0
  record_call-IsBacked job c (number n) s r = r.0
  record_call-IsBacked job c (text u) s r = r.0
  record_call-IsBacked job c (array xs) s r = r.0
  record_call-IsBacked job c (object args) s r = trace_call-IsBacked job c args s r

  execute-IsBacked :
      (job : Job) (c : Call) (s : State) → IsBacked t s → IsBacked t (execute job c s)
  unfolding entries
  execute-IsBacked job c s b = elim (execute-effects job c s) [
    | inl (inl e) ↦ rw (execute-records job c s, e) b
    | inl (inr e) ↦ rw (execute-records job c s, e) b
    | inr (l, e) ↦ rw (execute-records job c s, e) b
  ]

  IsBacked-IsDispatchKept : (job : Job) → IsDispatchKept job (IsBacked t)
  unfolding entries
  IsBacked-IsDispatchKept job = record {
    said = λ s k n b. b;
    replied = λ s v b. b;
    granted = λ s g d b. b;
    executed = λ c s i r b. execute-IsBacked job c s b;
  }

  concluded :
      (job : Job) (c : Call) (x : Progress)
      → Settles x
      → IsBacked t (state_of x)
      → IsBacked t (state_of (and_then x (conclude job c)))
  unfolding conclude
  concluded job c (going s) k b =
      record_call-IsBacked job c (args_of c) (append_event c s) (append_event-IsReady c s b k)
  concluded job c (crashed e s) k b = b

  IsBacked-IsRunKept : (codec : Codec Json) (job : Job) → IsRunKept codec job (IsBacked t)
  unfolding run_call entries
  IsBacked-IsRunKept codec job = record {
    calls = λ c s b.
        concluded job c _ (dispatch-Settles codec job c _)
          (dispatch-keeps (IsBacked-IsDispatchKept job) codec c _ b);
    said = λ s k n b. b;
    counted = λ s turn calls tokens b. b;
  }

-- For every test on the name of a tool and its arguments as the trace shows them, and in every run:
-- among the calls with the test there are at most as many trace records marked ok as audit entries,
-- made after the tool, whose outputs are ok. So each record marked ok has an audit entry of its own,
-- of the same tool with the same arguments shown, that says ok.
pub records-IsBacked :
    (t : CallTest) (codec : Codec Json) (loads : String → Option Json) (job : Job)
    (criteria : Option (List Criterion)) (script : ℕ → Turn) (grants : List Spent)
    → IsBacked t (final_state (run_loop codec loads job criteria script grants))
unfolding reported
records-IsBacked t codec loads job criteria script grants =
    run-keeps (IsBacked-IsRunKept t codec job) loads criteria script grants (omega arith)
