-- ===== src/Runtime/Budget.antt =====
-- The budget that a parent run passes on to its children: remaining_delegation_budget and
-- record_delegated_spend of agent_runtime.py, the inherited budgets of a child run, and the tokens
-- that genesis_call of tools/genesis_call_tool.py charges for it.
use genesis_agents.Base.{
  ℕ, ◌+◌, ◌-◌, min, ◌≡◌, refl, ◌∙◌, String, true, Option, none, some, List, [], ◌∷◌, ◌==◌, lookup,
  get_or, if◌then◌else◌, arith, eq_iff, ==_ne, ==_refl, ◌≢◌, nat_eq,
}
use genesis_agents.Text.{truthy}
use genesis_agents.Runtime.State.{State}
use genesis_agents.Runtime.Loop.{
  Outcome, answered, timeout, llm_call_limit_exceeded, llm_call_failed, token_budget_exceeded,
  no_choices_in_llm_response, max_turns_reached, raised,
}

-- The runtime's two dictionaries, by the parent's job id.
pub record Ledger : Type 0 where
  pub tokens : List (String × ℕ)
  pub cents : List (String × ℕ)

-- `d.get(k, 0)`
abbrev pub spent : String → List (String × ℕ) → ℕ
spent k d = get_or (lookup k d) 0

unfoldable pub remaining_delegation_budget : Ledger → String → ℕ → ℕ → ℕ → ℕ × ℕ
remaining_delegation_budget l job_id token_budget total_tokens cost_budget_cents =
    (token_budget - total_tokens - spent job_id l.tokens, cost_budget_cents - spent job_id l.cents)

-- `d[k] = d.get(k, 0) + n`, for an n that is not 0.
unfoldable pub charge : String → ℕ → List (String × ℕ) → List (String × ℕ)
charge k n d = if nat_eq n 0 then d else (k, spent k d + n) ∷ d

abbrev pub record_delegated_spend : Option String → ℕ → ℕ → Ledger → Ledger
record_delegated_spend none tokens cents l = l
record_delegated_spend (some parent) tokens cents l =
    if truthy parent
    then record { tokens = charge parent tokens l.tokens; cents = charge parent cents l.cents }
    else l

-- `min(own, max(0, inherited))`, where the child's bundle may have no budget of its own.
abbrev pub inherited_budget : Option ℕ → Option ℕ → Option ℕ
inherited_budget own none = own
inherited_budget own (some n) = some (min (get_or own n) n)

-- `(result.get("resource_usage") or {}).get("total_tokens", 0)` on the result of a run: only an
-- answer and max_turns_reached report a usage.
abbrev pub reported_tokens : Outcome → State → ℕ
reported_tokens (answered content failed) s = s.total_tokens
reported_tokens timeout s = 0
reported_tokens llm_call_limit_exceeded s = 0
reported_tokens llm_call_failed s = 0
reported_tokens token_budget_exceeded s = 0
reported_tokens no_choices_in_llm_response s = 0
reported_tokens max_turns_reached s = s.total_tokens
reported_tokens (raised e) s = 0

-- What genesis_call charges to the parent when the child's run is over.
abbrev pub charge_child : String → Outcome → State → Ledger → Ledger
charge_child parent o s = record_delegated_spend (some parent) (reported_tokens o s) 0

spent-charge :
    (k j : String) (n : ℕ) (d : List (String × ℕ))
    → spent j (charge k n d) ≡ (if k == j then spent j d + n else spent j d)
unfolding charge lookup
spent-charge k j n d = ground (arith, eq_iff k j)

-- The children of a parent, one after another, and what they report in all.
abbrev pub charge_all : String → List (Outcome × State) → Ledger → Ledger
charge_all parent [] l = l
charge_all parent ((o, s) ∷ cs) l = charge_all parent cs (charge_child parent o s l)

abbrev pub reported_all : List (Outcome × State) → ℕ
reported_all [] = 0
reported_all ((o, s) ∷ cs) = reported_tokens o s + reported_all cs

spent-charge_child :
    (parent job : String) (o : Outcome) (s : State) (l : Ledger)
    → truthy parent ≡ true
    → (spent job (charge_child parent o s l).tokens
        ≡ (if parent == job then spent job l.tokens + reported_tokens o s else spent job l.tokens))
      × (spent job (charge_child parent o s l).cents ≡ spent job l.cents)
unfolding charge
spent-charge_child parent job o s l t =
    rw t (spent-charge parent job (reported_tokens o s) l.tokens, refl)

-- The ledger after all the children of a parent.
spent-charge_all :
    (parent job : String) (children : List (Outcome × State)) (l : Ledger)
    → truthy parent ≡ true
    → (spent job (charge_all parent children l).tokens ≡ (
        if parent == job then spent job l.tokens + reported_all children else spent job l.tokens))
      × (spent job (charge_all parent children l).cents ≡ spent job l.cents)
spent-charge_all parent job [] l t = (ground arith, refl)
spent-charge_all parent job ((o, s) ∷ cs) l t =
    let (tokens, cents) = spent-charge_child parent job o s l t in
    let (tokens', cents') = spent-charge_all parent job cs (charge_child parent o s l) t in
    (ground arith, cents' ∙ cents)

-- The ceiling on tokens is one for all the children of a parent: after any of them, the next one
-- inherits the parent's budget less the parent's own tokens, what was spent before and all that the
-- children reported, and never below 0. The ceiling on cents does not move, since nothing charges
-- cents, and another job's budget stays as it was.
pub children_charged :
    (parent other : String) (children : List (Outcome × State)) (l : Ledger) (budget own cost : ℕ)
    → truthy parent ≡ true
    → parent ≢ other
    → (remaining_delegation_budget (charge_all parent children l) parent budget own cost ≡ (
      budget - own - (spent parent l.tokens + reported_all children),
      cost - spent parent l.cents,
    ))
      × (remaining_delegation_budget (charge_all parent children l) other budget own cost
          ≡ remaining_delegation_budget l other budget own cost)
unfolding remaining_delegation_budget
children_charged parent other children l budget own cost t ne =
    let (tokens, cents) = spent-charge_all parent parent children l t in
    let (tokens', cents') = spent-charge_all parent other children l t in
    (rw (tokens, cents, ==_refl parent) refl, rw (tokens', cents', ==_ne parent other ne) refl)
