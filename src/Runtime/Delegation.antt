-- ===== src/Runtime/Delegation.antt =====
-- Delegation to another agent: the checks of genesis_call in tools/genesis_call_tool.py, and what it
-- passes on. The bundles are the loader's.
use genesis_agents.Base.{
  ℕ, suc, String, not, ◌||◌, Option, none, some, List, [], ◌∷◌, ◌++◌, ◌==◌, ltb, contains, lookup,
  get_or, if◌then◌else◌,
}
use genesis_agents.Base.Result.{Result, ok, raise}
use genesis_agents.Policy.Check.{allowed_risks}

abbrev pub max_delegation_depth : ℕ
max_delegation_depth = 3

unfoldable pub delegation_targets : List (String × List String)
delegation_targets =
    (
      "genesis-meta",
      "genesis-research" ∷ "genesis-finance" ∷ "genesis-pricing" ∷ "genesis-legal"
          ∷ "genesis-analyst" ∷ "genesis-content" ∷ "genesis-marketing" ∷ "genesis-seo"
          ∷ "genesis-support" ∷ [],
    )
    ∷ []

unfoldable pub targets_of : String → List String
targets_of slug = get_or (lookup slug delegation_targets) []

pub data DelegationError : Type 0 where
  delegation_target_not_allowed delegation_depth_exceeded delegation_cycle_detected unknown_slug :
      DelegationError

-- An agent at work: its slug, and the chain, the depth and the risk classes it was given.
pub record Agent : Type 0 where
  pub slug : String
  pub chain : List String
  pub depth : ℕ
  pub risks : Option (List String)

-- An agent that nobody delegated to.
abbrev pub root : String → Agent
root slug = record { slug = slug; chain = []; depth = 0; risks = none }

-- The checks on a target in its canonical spelling. The parent's context has the parent at the end
-- of the chain, and the call appends it once more for the child.
unfoldable pub delegate_to : Agent → String → Result DelegationError Agent
delegate_to parent target =
    let chain = parent.chain ++ (parent.slug ∷ []) in
    if not (contains (targets_of parent.slug) target)
    then raise delegation_target_not_allowed
    else if not (ltb parent.depth max_delegation_depth)
    then raise delegation_depth_exceeded
    else if contains chain target || (target == parent.slug)
    then raise delegation_cycle_detected
    else ok (record {
      slug = target;
      chain = chain ++ (parent.slug ∷ []);
      depth = suc parent.depth;
      risks = some (allowed_risks parent.slug);
    })

-- The start of the child by execute_agent, which loads the bundle of the target once more and works
-- under the slug in it.
unfoldable pub execute_child : (String → Option String) → Agent → Result DelegationError Agent
execute_child load_bundle child = elim (load_bundle child.slug) [
  | none ↦ raise unknown_slug
  | some slug ↦ ok (record child { slug = slug })
]

-- `load_bundle` gives the slug in the bundle that it finds.
unfoldable pub genesis_call :
    (String → Option String) → Agent → String → Result DelegationError Agent
unfolding execute_child
genesis_call load_bundle parent agent = elim (load_bundle agent) [
  | none ↦ raise delegation_target_not_allowed
  | some target ↦ elim (delegate_to parent target) [
    | raise e ↦ raise e
    | ok child ↦ execute_child load_bundle child
  ]
]
