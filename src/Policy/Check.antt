-- ===== src/Policy/Check.antt =====
-- The decisions of runtime/tool_policy.py on one call of a tool by an agent.
use Prim.Native.Nat.{Ordering}
use Prim.Native.String.{compare}
use genesis_agents.Base.{
  String, Bool, true, false, not, ◌&&◌, ◌||◌, Option, none, some, List, [], ◌∷◌, map, filter,
  contains, lookup, get_or, if◌then◌else◌,
}
use genesis_agents.Text.{truthy}
use genesis_agents.Policy.Tables.{
  risk_admin, risk_prohibited, slug_allowed_risks, default_allowed_risks, human_only_tools,
  prohibition_groups, slug_scoped_only, prohibited_tools_by_slug,
}
use genesis_agents.Policy.Risks.{tool_risk_by_name}

-- The keys of PROHIBITION_GROUPS.
unfoldable pub prohibited_names : List String
unfolding prohibition_groups
prohibited_names = map (λ e. e.0) prohibition_groups

abbrev pub text_le : String → String → Bool
text_le x y = elim (compare x y) [ Ordering.lt ↦ true | Ordering.eq ↦ true | Ordering.gt ↦ false ]

-- `sorted` on texts.
abbrev pub insert_text : String → List String → List String
insert_text x [] = x ∷ []
insert_text x (y ∷ ys) = let rest = insert_text x ys in if text_le x y then x ∷ y ∷ ys else y ∷ rest

abbrev pub sorted_texts : List String → List String
sorted_texts [] = []
sorted_texts (x ∷ xs) = insert_text x (sorted_texts xs)

-- Every prohibited name, those prohibited only for some slugs included.
unfoldable pub prohibition_manifest_names : List String
unfolding prohibited_names
prohibition_manifest_names = sorted_texts prohibited_names

unfoldable pub prohibited_tools : List String
unfolding prohibited_names filter contains
prohibited_tools = filter (λ name. not (contains slug_scoped_only name)) prohibited_names

unfoldable pub scoped : Option String → String → Bool
unfolding prohibited_tools_by_slug contains lookup
scoped none tool_name = false
scoped (some slug) tool_name =
    truthy slug && contains (get_or (lookup slug prohibited_tools_by_slug) []) tool_name

unfoldable pub is_prohibited : String → Option String → Bool
is_prohibited tool_name agent_slug =
    contains prohibited_tools tool_name || scoped agent_slug tool_name

unfoldable pub prohibition_group : String → String
unfolding prohibition_groups lookup
prohibition_group tool_name = get_or (lookup tool_name prohibition_groups) "A"

unfoldable pub get_tool_risk_by_name : String → String
get_tool_risk_by_name tool_name =
    if contains prohibited_tools tool_name
    then risk_prohibited
    else get_or (lookup tool_name tool_risk_by_name) risk_admin

-- `SLUG_ALLOWED_RISKS.get(agent_slug, DEFAULT_ALLOWED_RISKS)`
unfoldable pub allowed_risks : String → List String
allowed_risks agent_slug = get_or (lookup agent_slug slug_allowed_risks) default_allowed_risks

unfoldable pub is_tool_allowed : String → String → Bool
is_tool_allowed agent_slug tool_name =
    if contains human_only_tools tool_name
    then false
    else contains (allowed_risks agent_slug) (get_tool_risk_by_name tool_name)

-- The dictionary that check_tool_policy returns.
pub record Decision : Type 0 where
  pub ok : Bool
  pub tool_name : String
  pub agent_slug : String
  pub risk_class : String
  pub allowed : List String
  pub group : Option String
  pub error : Option String

unfoldable pub check_tool_policy : String → String → Decision
check_tool_policy agent_slug tool_name =
    if is_prohibited tool_name (some agent_slug)
    then record {
      ok = false;
      tool_name = tool_name;
      agent_slug = agent_slug;
      risk_class = risk_prohibited;
      allowed = allowed_risks agent_slug;
      group = some (prohibition_group tool_name);
      error = some "tool_policy_denied";
    }
    else if contains human_only_tools tool_name
    then record {
      ok = false;
      tool_name = tool_name;
      agent_slug = agent_slug;
      risk_class = get_tool_risk_by_name tool_name;
      allowed = allowed_risks agent_slug;
      group = none;
      error = some "human_action_required";
    }
    else (let ok' = contains (allowed_risks agent_slug) (get_tool_risk_by_name tool_name) in
        record {
          ok = ok';
          tool_name = tool_name;
          agent_slug = agent_slug;
          risk_class = get_tool_risk_by_name tool_name;
          allowed = allowed_risks agent_slug;
          group = none;
          error = if ok' then none else some "tool_policy_denied";
        })
