-- ===== src/Runtime/Criteria.antt =====
-- _check_success_criteria of agent_runtime.py. Times are in hundredths of a second, to which the
-- code rounds them; json.loads is the library's.
use genesis_agents.Base.{
  ℕ, String, Bool, true, false, not, ◌&&◌, Option, none, some, List, [], ◌∷◌, ◌++◌, ltb, any,
  filter, length, if◌then◌else◌, get_or,
}
use genesis_agents.Base.Json.{Json, object, end}
use genesis_agents.Text.{truthy?}
use genesis_agents.Envelope.Values.{get_key}
use genesis_agents.Runtime.State.{is_dict, Record}

-- A criterion of a bundle by its type, with its config.
pub data Criterion : Type 0 where
  non_empty : Criterion
  contains_keys : List String → Criterion
  max_latency_s : Option ℕ → Criterion
  min_successful_tool_calls : Option ℕ → Criterion
  unknown_type : String → Criterion

-- A failed criterion, by its reason.
pub data Failure : Type 0 where
  response_empty response_not_object response_not_parseable : Failure
  missing_key : String → Failure
  too_slow : ℕ → ℕ → Failure
  too_few_calls : ℕ → ℕ → Failure

-- The parts of the result that the criteria read.
pub record Answered : Type 0 where
  pub response : Option String
  pub elapsed : ℕ
  pub tool_calls : List Record

abbrev pub counts_calls : Criterion → Bool
counts_calls non_empty = false
counts_calls (contains_keys ks) = false
counts_calls (max_latency_s n) = false
counts_calls (min_successful_tool_calls n) = true
counts_calls (unknown_type t) = false

-- `[{"type": "non_empty"}]` where the bundle has none, and one successful tool call where evidence is
-- required and the bundle does not count calls itself.
unfoldable pub given : Option (List Criterion) → List Criterion
given none = non_empty ∷ []
given (some []) = non_empty ∷ []
given (some (c ∷ cs)) = c ∷ cs

unfoldable pub in_force : Option (List Criterion) → Bool → List Criterion
in_force criteria require_tool_evidence =
    if require_tool_evidence && not (any counts_calls (given criteria))
    then given criteria ++ (min_successful_tool_calls (some 1) ∷ [])
    else given criteria

-- `sum(1 for call in calls if call.get("ok") is True)`
unfoldable pub successful : List Record → ℕ
unfolding filter
successful records = length (filter (λ r. r.ok) records)

abbrev pub has_key : Json → String → Bool
has_key v k = elim (get_key k v) [ none ↦ false | some w ↦ true ]

unfoldable pub missing : Json → List String → List Failure
missing v [] = []
missing v (k ∷ ks) = let rest = missing v ks in if has_key v k then rest else missing_key k ∷ rest

module _ (loads : String → Option Json) where
  -- `json.loads(result.get("response") or "{}")`
  abbrev pub response_object : Option String → Option Json
  response_object none = some (object end)
  response_object (some s) = if truthy? (some s) then loads s else some (object end)

  unfoldable pub check_keys : List String → Option Json → List Failure
  unfolding missing
  check_keys ks none = response_not_parseable ∷ []
  check_keys ks (some v) = if is_dict v then missing v ks else response_not_object ∷ []

  -- One round of the loop over the criteria.
  unfoldable pub check_criterion : Answered → Criterion → List Failure
  unfolding check_keys successful
  check_criterion r non_empty = if truthy? r.response then [] else response_empty ∷ []
  check_criterion r (contains_keys ks) = check_keys ks (response_object r.response)
  check_criterion r (max_latency_s seconds) =
      let max_s = get_or seconds 30000 in
      if ltb max_s r.elapsed then too_slow r.elapsed max_s ∷ [] else []
  check_criterion r (min_successful_tool_calls count) =
      let minimum = get_or count 1 in
      if ltb (successful r.tool_calls) minimum
      then too_few_calls (successful r.tool_calls) minimum ∷ []
      else []
  check_criterion r (unknown_type t) = []

  abbrev pub check_all : Answered → List Criterion → List Failure
  check_all r [] = []
  check_all r (c ∷ cs) = check_criterion r c ++ check_all r cs

  -- The failed criteria; the result is ok if there are none.
  unfoldable pub check_success_criteria : Option (List Criterion) → Answered → Bool → List Failure
  unfolding in_force check_criterion
  check_success_criteria criteria result require_tool_evidence =
      check_all result (in_force criteria require_tool_evidence)
