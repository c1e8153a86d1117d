-- ===== src/Runtime/Evidence.antt =====
-- What an answer without failed criteria means in agent_runtime.py.
use genesis_agents.Base.{
  ◌≤◌, ◌≡◌, ◌↔◌, refl, subst, inl, inr, String, Bool, true, false, Option, none, some, List, [],
  ◌∷◌, ◌++◌, any, All, get_or, arith, Bool-cases,
}
use genesis_agents.Base.Json.{Json}
use genesis_agents.Text.{truthy?}
use genesis_agents.Runtime.State.{is_dict}
use genesis_agents.Runtime.Criteria.{
  Criterion, non_empty, contains_keys, max_latency_s, min_successful_tool_calls, unknown_type,
  Answered, given, in_force, successful, missing, has_key, check_keys, check_criterion, check_all,
  check_success_criteria, counts_calls, response_object,
}

-- A parsed response that is an object with the keys.
abbrev pub HasKeys : List String → Option Json → Type 0
HasKeys ks none = ⊥
HasKeys ks (some v) = (is_dict v ≡ true) × All (λ k. has_key v k ≡ true) ks

-- A criterion in its own terms: a response that is there, a JSON object with the keys, an answer in
-- time, enough successful calls. A type that the code does not know asks for nothing.
abbrev pub Holds : (String → Option Json) → Answered → Criterion → Type 0
Holds loads r non_empty = truthy? r.response ≡ true
Holds loads r (contains_keys ks) = HasKeys ks (response_object loads r.response)
Holds loads r (max_latency_s seconds) = r.elapsed ≤ get_or seconds 30000
Holds loads r (min_successful_tool_calls count) = get_or count 1 ≤ successful r.tool_calls
Holds loads r (unknown_type t) = Unit

missing-empty :
    (v : Json) (ks : List String) → (missing v ks ≡ []) ↔ All (λ k. has_key v k ≡ true) ks
unfolding missing
missing-empty v [] = (λ h. tt, λ h. refl)
missing-empty v (k ∷ ks) = elim (Bool-cases (has_key v k)) [
  | inl b ↦ rw b ((λ h. (refl, (missing-empty v ks).0 h)), λ h. (missing-empty v ks).1 h.1)
  | inr b ↦ rw b ((λ h. cc), λ h. cc h.0)
]

append-empty : {A : Type 0} (xs ys : List A) → (xs ++ ys ≡ []) ↔ ((xs ≡ []) × (ys ≡ []))
append-empty [] ys = ((λ h. (refl, h)), λ h. h.1)
append-empty (x ∷ xs) ys = ((λ h. cc), λ h. cc h.0)

module _ (loads : String → Option Json) where
  check_keys-empty :
      (ks : List String) (x : Option Json) → (check_keys loads ks x ≡ []) ↔ HasKeys ks x
  unfolding check_keys
  check_keys-empty ks none = ((λ h. cc), λ h. absurd h)
  check_keys-empty ks (some v) = elim (Bool-cases (is_dict v)) [
    | inl b ↦ rw b ((λ h. (refl, (missing-empty v ks).0 h)), λ h. (missing-empty v ks).1 h.1)
    | inr b ↦ rw b ((λ h. cc), λ h. cc h.0)
  ]

  check_criterion-empty :
      (r : Answered) (c : Criterion) → (check_criterion loads r c ≡ []) ↔ Holds loads r c
  unfolding check_criterion
  check_criterion-empty r non_empty = ground arith
  check_criterion-empty r (contains_keys ks) =
      check_keys-empty ks (response_object loads r.response)
  check_criterion-empty r (max_latency_s seconds) = ground arith
  check_criterion-empty r (min_successful_tool_calls count) = ground arith
  check_criterion-empty r (unknown_type t) = ((λ h. tt), λ h. refl)

  check_all-empty :
      (r : Answered) (cs : List Criterion) → (check_all loads r cs ≡ []) ↔ All (Holds loads r) cs
  check_all-empty r [] = ((λ h. tt), λ h. refl)
  check_all-empty r (c ∷ cs) =
      let (split, join) = append-empty (check_criterion loads r c) (check_all loads r cs) in
      let (one, back) = check_criterion-empty r c in
      let (rest, again) = check_all-empty r cs in
      ((λ h. (one (split h).0, rest (split h).1)), λ (h, hs). join (back h, again hs))

  -- A result is judged ok exactly if each criterion in force holds of it in its own terms.
  pub check_success_criteria-ok :
      (criteria : Option (List Criterion)) (r : Answered) (evidence : Bool)
      → (check_success_criteria loads criteria r evidence ≡ [])
        ↔ All (Holds loads r) (in_force criteria evidence)
  unfolding check_success_criteria
  check_success_criteria-ok criteria r evidence = check_all-empty r (in_force criteria evidence)

All-last : {A : Type 0} (P : A → Type 0) (xs : List A) (x : A) → All P (xs ++ (x ∷ [])) → P x
All-last P [] x h = h.0
All-last P (y ∷ xs) x h = All-last P xs x h.1

-- Where evidence is required, a bundle that does not count calls itself is judged ok only with a
-- successful call.
pub criteria_evidence :
    (loads : String → Option Json) (criteria : Option (List Criterion)) (r : Answered)
    → any counts_calls (given criteria) ≡ false
    → check_success_criteria loads criteria r true ≡ []
    → 1 ≤ successful r.tool_calls
criteria_evidence loads criteria r own h =
    All-last (Holds loads r) (given criteria) (min_successful_tool_calls (some 1))
      (subst (All (Holds loads r)) forced ((check_success_criteria-ok loads criteria r true).0 h))
  where
    forced : in_force criteria true ≡ given criteria ++ (min_successful_tool_calls (some 1) ∷ [])
    forced = unfold in_force in rw own refl
