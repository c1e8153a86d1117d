-- ===== src/Runtime/Invariants.antt =====
-- Invariants of a run of agent_runtime.py: what each step of a tool call keeps, the whole run keeps.
use genesis_agents.Base.{
  arith, ◌≡◌, String, Bool, true, false, not, ◌&&◌, contains, Option, none, some, List, ◌==◌, ltb,
  Bool-cases, inl, inr,
}
use genesis_agents.Base.Json.{Json, Fields, null, bool, number, text, array, object}
use genesis_agents.Base.Result.{Result, ok, raise}
use genesis_agents.Policy.Tables.{risk_deployment}
use genesis_agents.Policy.Check.{is_prohibited}
use genesis_agents.Envelope.Answers.{EnvelopeError}
use genesis_agents.Grants.Token.{Codec, Spent, GrantError}
use genesis_agents.Runtime.State.{
  Call, Job, State, Progress, going, crashed, state_of, and_then, emitted,
}
use genesis_agents.Runtime.Dispatch.{
  say, answer, args_of, policy_of, execute, within_quota, by_authorization, second_chain,
  first_chain, authorize, authorized, max_files_written, escalates,
}
use genesis_agents.Runtime.Calls.{
  append_event, trace_call, record_call, conclude, refused_by_group, is_open_to, dispatch, run_call,
  result_of,
}

-- A name that may be called: registered, advertised to the job and not prohibited to its slug.
pub record IsCallable (job : Job) (name : String) : Type 0 where
  pub registered : job.registered name ≡ true
  pub advertised : contains job.tools_advertised name ≡ true
  pub unprohibited : is_prohibited name (some job.slug) ≡ false

callable :
    (job : Job) (name : String)
    → is_prohibited name (some job.slug) ≡ false
    → is_open_to job name ≡ true
    → IsCallable job name
callable job name b o = record {
  registered = ground arith;
  advertised = ground arith;
  unprohibited = b;
}

-- The quota on file_write leaves room for the call.
abbrev pub HasRoom : Call → State → Type 0
HasRoom c s = (c.name == "file_write" && not (ltb s.files_written max_files_written)) ≡ false

-- A predicate that each step of a dispatch keeps.
pub record IsDispatchKept (job : Job) (P : State → Type 0) : Type 0 where
  pub said : (s : State) (k t : String) → P s → P (say (emitted k t) s)
  pub replied : (s : State) (v : Json) → P s → P (answer v s)
  pub granted :
      (s : State) (g : List Spent) (d : Option Bool)
      → P s
      → P (record s { grants = g; deployment_authorized = d })
  pub executed :
      (c : Call) (s : State) → IsCallable job c.name → HasRoom c s → P s → P (execute job c s)

-- A predicate that each step of a tool call keeps.
pub record IsKept (job : Job) (P : State → Type 0) : Type 0 where
  pub dispatched : IsDispatchKept job P
  pub begun : (s : State) → P s → P (record s { tool_executed = false })
  pub entered : (c : Call) (s : State) → P s → P (append_event c s)
  pub traced :
      (c : Call) (args : Fields) (v : Json) (s : State) → P s → P (trace_call job c args v s)

module _ {job : Job} {P : State → Type 0} (d : IsDispatchKept job P) where
  open d use {said, replied, granted, executed}

  quota-keeps : (c : Call) (s : State) → IsCallable job c.name → P s → P (within_quota job c s)
  unfolding within_quota
  quota-keeps c s i p =
      elim (Bool-cases (c.name == "file_write" && not (ltb s.files_written max_files_written))) [
        | inl b ↦ rw b (replied s _ p)
        | inr b ↦ rw b (executed c s i b p)
      ]

  authorization-keeps :
      (d : Option Bool) (c : Call) (s : State)
      → IsCallable job c.name
      → P s
      → P (state_of (by_authorization d job c s))
  authorization-keeps none c s i p = p
  authorization-keeps (some true) c s i p = quota-keeps c s i p
  authorization-keeps (some false) c s i p = replied _ _ (said s _ _ p)

  second-keeps :
      (c : Call) (s : State) → IsCallable job c.name → P s → P (state_of (second_chain job c s))
  unfolding second_chain
  second-keeps c s i p = elim (Bool-cases ((policy_of job c).risk_class == risk_deployment)) [
    | inr b ↦ rw b (quota-keeps c s i p)
    | inl b ↦ rw b (authorization-keeps s.deployment_authorized c s i p)
  ]

  module _ (codec : Codec Json) where
    authorized-keeps :
        (x : Result GrantError (String × List Spent)) (s : State) → P s → P (authorized x s)
    authorized-keeps (ok (a, g)) s p = granted s g (some true) p
    authorized-keeps (raise e) s p = granted s s.grants (some false) p

    authorize-keeps : (c : Call) (s : State) → P s → P (authorize codec job c s)
    unfolding authorize
    authorize-keeps c s p = authorized-keeps _ s p

    first-keeps : (c : Call) (s : State) → P s → P (first_chain codec job c s)
    unfolding first_chain
    first-keeps c s p = elim (Bool-cases (policy_of job c).ok) [
      | inr b ↦ rw b (replied _ _ (said s _ _ p))
      | inl b ↦
          elim (Bool-cases (escalates job.delegated_allowed_risks (policy_of job c).risk_class)) [
            | inl t ↦ rw (b, t) (replied s _ p)
            | inr t ↦ elim (Bool-cases ((policy_of job c).risk_class == risk_deployment)) [
              | inl r ↦ rw (b, t, r) (authorize-keeps c s p)
              | inr r ↦ rw (b, t, r) p
            ]
          ]
    ]

    refused-keeps :
        (x : Result EnvelopeError Json) (s : State) → P s → P (state_of (refused_by_group x s))
    refused-keeps (ok v) s p = replied s v p
    refused-keeps (raise e) s p = p

    pub dispatch-keeps : (c : Call) (s : State) → P s → P (state_of (dispatch codec job c s))
    unfolding dispatch
    dispatch-keeps c s p = elim (Bool-cases (is_prohibited c.name (some job.slug))) [
      | inl b ↦ rw b (refused-keeps _ _ (said s _ _ p))
      | inr b ↦ elim (Bool-cases (is_open_to job c.name)) [
        | inr o ↦ rw (b, o) (replied s _ p)
        | inl o ↦ rw (b, o) (second-keeps c _ (callable job c.name b o) (first-keeps c s p))
      ]
    ]

-- The continuation of a step that keeps a predicate.
pub then-keeps :
    {P : State → Type 0} (x : Progress) (f : State → Progress)
    → P (state_of x)
    → ((s : State) → P s → P (state_of (f s)))
    → P (state_of (and_then x f))
then-keeps (going s) f p h = h s p
then-keeps (crashed e s) f p h = p

module _ {job : Job} {P : State → Type 0} (k : IsKept job P) (codec : Codec Json) where
  open k use {dispatched, begun, entered, traced}

  record-keeps : (c : Call) (v : Json) (s : State) → P s → P (state_of (record_call job c v s))
  record-keeps c null s p = p
  record-keeps c (bool b) s p = p
  record-keeps c (number n) s p = p
  record-keeps c (text t) s p = p
  record-keeps c (array xs) s p = p
  record-keeps c (object args) s p = traced c args (result_of s) s p

  pub run_call-keeps : (c : Call) (s : State) → P s → P (state_of (run_call codec job c s))
  unfolding run_call conclude
  run_call-keeps c s p =
      then-keeps (dispatch codec job c (record s { tool_executed = false })) (conclude job c)
        (dispatch-keeps dispatched codec c _ (begun s p))
        (λ t q. record-keeps c (args_of c) _ (entered c t q))
