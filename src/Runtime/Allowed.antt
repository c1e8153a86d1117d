-- ===== src/Runtime/Allowed.antt =====
-- Which tools a run of agent_runtime.py calls, and what its audit log has before each.
use genesis_agents.Base.{ℕ, ◌≡◌, refl, ◌⊎◌, inl, inr, sym, subst, String, Option, List, [], ◌∷◌}
use genesis_agents.Base.Json.{Json}
use genesis_agents.Policy.Tables.{risk_read_only}
use genesis_agents.Policy.Check.{check_tool_policy}
use genesis_agents.Grants.Token.{Codec, Spent}
use genesis_agents.Runtime.State.{Call, Job, Effect, emitted, intent, called, appended}
use genesis_agents.Runtime.Dispatch.{args_of}
use genesis_agents.Runtime.Criteria.{Criterion}
use genesis_agents.Runtime.Loop.{Turn, run_loop, start}
use genesis_agents.Runtime.Effects.{execute-effects, append_event-effects, trace_call-effects}
use genesis_agents.Runtime.Invariants.{IsCallable, IsKept}
use genesis_agents.Runtime.Runs.{call-IsRunKept, final_state, run-keeps}

-- A property of the effects that is kept when any effect but a call is added, and when a callable
-- tool is called: with its audit entry, or if it only reads.
record IsLogKept (job : Job) (Q : List Effect → Type 0) : Type 0 where
  emits : (es : List Effect) (k t : String) → Q es → Q (emitted k t ∷ es)
  appends : (es : List Effect) (t : String) (a o : Json) → Q es → Q (appended t a o ∷ es)
  calls :
      (es : List Effect) (c : Call)
      → IsCallable job c.name
      → Q es
      → Q (
          called c.name (args_of c) ∷ emitted "tool.called" c.name ∷ intent c.name (args_of c) ∷ es)
  reads :
      (es : List Effect) (c : Call)
      → IsCallable job c.name
      → (check_tool_policy job.slug c.name).risk_class ≡ risk_read_only
      → Q es
      → Q (called c.name (args_of c) ∷ emitted "tool.called" c.name ∷ es)

log-IsKept :
    {job : Job} {Q : List Effect → Type 0} → IsLogKept job Q → IsKept job (λ s. Q s.effects)
log-IsKept {job} {Q} k = record {
  dispatched = record {
    said = λ s e t q. emits s.effects e t q;
    replied = λ s v q. q;
    granted = λ s g d q. q;
    executed = λ c s i r q. elim (execute-effects job c s) [
      | inl (inl e) ↦ subst Q (sym e) q
      | inl (inr e) ↦ subst Q (sym e) (calls s.effects c i q)
      | inr (l, e) ↦ subst Q (sym e) (reads s.effects c i l q)
    ];
  };
  begun = λ s q. q;
  entered = λ c s q. elim (append_event-effects c s) [
    | inl e ↦ subst Q (sym e) q
    | inr e ↦ subst Q (sym e) (appends s.effects c.name _ _ q)
  ];
  traced = λ c args v s q. elim (trace_call-effects job c args v s) [
    | inl e ↦ subst Q (sym e) q
    | inr e ↦ subst Q (sym e) (emits s.effects _ c.name q)
  ];
}
  where
    open k use {emits, appends, calls, reads}

log-keeps :
    {job : Job} {Q : List Effect → Type 0} (k : IsLogKept job Q) (codec : Codec Json)
    (loads : String → Option Json) (criteria : Option (List Criterion)) (script : ℕ → Turn)
    (grants : List Spent)
    → Q (start job grants).effects
    → Q (final_state (run_loop codec loads job criteria script grants)).effects
log-keeps k codec = run-keeps (call-IsRunKept codec (log-IsKept k) (λ s turn calls tokens q. q))

-- A tool that is called is one that may be called.
abbrev pub IsAllowed : Job → Effect → Type 0
IsAllowed job (emitted k t) = Unit
IsAllowed job (intent t a) = Unit
IsAllowed job (called t a) = IsCallable job t
IsAllowed job (appended t a o) = Unit

-- The latest effects, back to the call before, have the audit entry for a call.
abbrev pub Intended : String → Json → List Effect → Type 0
Intended t a [] = ⊥
Intended t a (emitted k u ∷ es) = Intended t a es
Intended t a (intent u b ∷ es) = ((u ≡ t) × (b ≡ a)) ⊎ Intended t a es
Intended t a (called u b ∷ es) = ⊥
Intended t a (appended u b o ∷ es) = Intended t a es

-- Each call of a tool that does not only read has its own audit entry before it.
abbrev pub IsPreceded : Job → List Effect → Type 0
IsPreceded job [] = Unit
IsPreceded job (emitted k t ∷ es) = IsPreceded job es
IsPreceded job (intent t a ∷ es) = IsPreceded job es
IsPreceded job (called t a ∷ es) =
    (((check_tool_policy job.slug t).risk_class ≡ risk_read_only) ⊎ Intended t a es)
    × IsPreceded job es
IsPreceded job (appended t a o ∷ es) = IsPreceded job es

-- In every run each call of a tool whose policy decision is not read-only comes after an audit entry
-- for that tool and those arguments, made since the call before it; a tool whose entry fails is not
-- called.
pub calls-IsPreceded :
    (codec : Codec Json) (loads : String → Option Json) (job : Job)
    (criteria : Option (List Criterion)) (script : ℕ → Turn) (grants : List Spent)
    → IsPreceded job (final_state (run_loop codec loads job criteria script grants)).effects
calls-IsPreceded codec loads job criteria script grants =
    log-keeps {Q = IsPreceded job}
      (record {
        emits = λ es k t q. q;
        appends = λ es t a o q. q;
        calls = λ es c i q. (inr (inl (refl, refl)), q);
        reads = λ es c i l q. (inl l, q);
      })
      codec loads criteria script grants tt
