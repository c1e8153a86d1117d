-- ===== src/Policy/Laws.antt =====
-- The decisions of runtime/tool_policy.py for all slugs and tool names.
use genesis_agents.Base.{
  ◌≡◌, ◌↔◌, ◌⊎◌, inl, inr, refl, sym, String, Bool, true, false, not, ◌&&◌, none, some, List, [],
  ◌∷◌, all, contains, lookup, get_or, arith, ◌==◌, eq_iff, Bool-cases, subst,
}
use genesis_agents.Policy.Tables.{
  risk_read_only, risk_admin, risk_payment, risk_prohibited, slug_allowed_risks,
  default_allowed_risks,
}
use genesis_agents.Policy.Risks.{tool_risk_by_name}
use genesis_agents.Policy.Check.{
  prohibited_tools, is_prohibited, get_tool_risk_by_name, allowed_risks, is_tool_allowed,
  check_tool_policy,
}

-- What every value of a table has, and the default, a lookup has.
lookup-all {ℓ} :
    {V : Type ℓ} (p : V → Bool) (m : List (String × V)) (k : String) (d : V)
    → all (λ e. p e.1) m ≡ true
    → p d ≡ true
    → p (get_or (lookup k m) d) ≡ true
unfolding all lookup
lookup-all p [] k d h e = e
lookup-all p ((j, v) ∷ m) k d h e = elim (Bool-cases (j == k)) [
  | inl q ↦ rw q (ground arith)
  | inr q ↦ rw q (lookup-all p m k d (ground arith) e)
]

-- No slug, known or not, holds the risk class.
abbrev NotHeld : String → Type 0
NotHeld risk = (slug : String) → contains (allowed_risks slug) risk ≡ false

abbrev lacks : String → List String → Bool
lacks risk risks = not (contains risks risk)

not_held :
    (risk : String)
    → all (λ e. lacks risk e.1) slug_allowed_risks ≡ true
    → lacks risk default_allowed_risks ≡ true
    → NotHeld risk
unfolding allowed_risks
not_held risk h e slug =
    ground (arith, lookup-all (lacks risk) slug_allowed_risks slug default_allowed_risks h e)

payment-NotHeld : NotHeld risk_payment
unfolding all slug_allowed_risks contains
payment-NotHeld = not_held risk_payment refl refl

admin-NotHeld : NotHeld risk_admin
unfolding all slug_allowed_risks contains
admin-NotHeld = not_held risk_admin refl refl

prohibited-NotHeld : NotHeld risk_prohibited
unfolding all slug_allowed_risks contains
prohibited-NotHeld = not_held risk_prohibited refl refl

denied_unless_held :
    (slug tool : String)
    → contains (allowed_risks slug) (get_tool_risk_by_name tool) ≡ false
    → ((check_tool_policy slug tool).ok ≡ false) × (is_tool_allowed slug tool ≡ false)
unfolding check_tool_policy is_tool_allowed
denied_unless_held slug tool h = ground arith

risk_of_prohibited :
    (tool : String)
    → contains prohibited_tools tool ≡ true
    → get_tool_risk_by_name tool ≡ risk_prohibited
unfolding get_tool_risk_by_name
risk_of_prohibited tool p = rw p

risk_of_unlisted :
    (tool : String)
    → contains prohibited_tools tool ≡ false
    → lookup tool tool_risk_by_name ≡ none
    → get_tool_risk_by_name tool ≡ risk_admin
unfolding get_tool_risk_by_name
risk_of_unlisted tool p e = rw (p, e)

prohibited_unreachable :
    (slug tool : String)
    → contains prohibited_tools tool ≡ true
    → ((check_tool_policy slug tool).ok ≡ false) × (is_tool_allowed slug tool ≡ false)
prohibited_unreachable slug tool p =
    denied_unless_held slug tool (rw (risk_of_prohibited tool p) (prohibited-NotHeld slug))

-- No slug whatsoever, listed or not, may call a tool of the payment class, a tool that has no entry
-- in TOOL_RISK_BY_NAME (which gets the admin class), or a prohibited tool: check_tool_policy and
-- is_tool_allowed both refuse it.
pub unreachable_risks :
    (slug tool : String)
    → (get_tool_risk_by_name tool ≡ risk_payment)
      ⊎ ((lookup tool tool_risk_by_name ≡ none) ⊎ (contains prohibited_tools tool ≡ true))
    → ((check_tool_policy slug tool).ok ≡ false) × (is_tool_allowed slug tool ≡ false)
unreachable_risks slug tool (inl e) = denied_unless_held slug tool (rw e (payment-NotHeld slug))
unreachable_risks slug tool (inr (inr p)) = prohibited_unreachable slug tool p
unreachable_risks slug tool (inr (inl e)) = elim (Bool-cases (contains prohibited_tools tool)) [
  | inl p ↦ prohibited_unreachable slug tool p
  | inr p ↦ denied_unless_held slug tool (rw (risk_of_unlisted tool p e) (admin-NotHeld slug))
]

-- A name that is prohibited for a slug is refused to it, with the prohibited class and the policy
-- error.
pub prohibited_decision :
    (slug tool : String)
    → is_prohibited tool (some slug) ≡ true
    → ((check_tool_policy slug tool).ok ≡ false)
      × ((check_tool_policy slug tool).risk_class ≡ risk_prohibited)
      × ((check_tool_policy slug tool).error ≡ some "tool_policy_denied")
unfolding check_tool_policy
prohibited_decision slug tool h = (rw h, rw h, rw h)

contains-one : (x y : String) → contains (x ∷ []) y ≡ true → x ≡ y
unfolding contains
contains-one x y h = ground (arith, eq_iff x y)

-- A slug that SLUG_ALLOWED_RISKS does not list may call read-only tools alone.
pub unlisted_read_only :
    (slug tool : String)
    → lookup slug slug_allowed_risks ≡ none
    → (check_tool_policy slug tool).ok ≡ true
    → get_tool_risk_by_name tool ≡ risk_read_only
unlisted_read_only slug tool none_listed h =
    elim (Bool-cases (contains (allowed_risks slug) (get_tool_risk_by_name tool))) [
      | inl e ↦ sym (
          contains-one risk_read_only (get_tool_risk_by_name tool)
            (subst (λ r. contains r (get_tool_risk_by_name tool) ≡ true) default e))
      | inr e ↦ cc (denied_unless_held slug tool e).0
    ]
  where
    default : allowed_risks slug ≡ default_allowed_risks
    default = unfold allowed_risks in (rw none_listed)

-- check_tool_policy allows a call exactly if is_tool_allowed does and the name is not prohibited for
-- the slug, and it reports an error exactly if it refuses.
pub check_tool_policy-agrees :
    (slug tool : String)
    → ((check_tool_policy slug tool).ok
        ≡ (is_tool_allowed slug tool && not (is_prohibited tool (some slug))))
      × (((check_tool_policy slug tool).ok ≡ true) ↔ ((check_tool_policy slug tool).error ≡ none))
unfolding check_tool_policy is_tool_allowed
check_tool_policy-agrees slug tool = ground arith

-- The two disagree on workflow_webhook_trigger: for a slug that is prohibited from it and holds the
-- network class, is_tool_allowed says yes and check_tool_policy refuses.
pub webhook_disagreement :
    (slug : String)
    → is_prohibited "workflow_webhook_trigger" (some slug) ≡ true
    → contains (allowed_risks slug) "network" ≡ true
    → (is_tool_allowed slug "workflow_webhook_trigger" ≡ true)
      × ((check_tool_policy slug "workflow_webhook_trigger").ok ≡ false)
unfolding is_tool_allowed get_tool_risk_by_name prohibited_tools tool_risk_by_name contains lookup
webhook_disagreement slug p n = (n, (prohibited_decision slug "workflow_webhook_trigger" p).0)
