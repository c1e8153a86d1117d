-- ===== src/Gateway/Context.antt =====
-- The request of POST /agents/{slug}/run in main.py: _coerce_prompt_field, _build_user_prompt,
-- _scoped_runtime_params, and the statuses of runtime failures.
use Prim.Native.String.{◌++◌ as cat}
use genesis_agents.Base.{
  ℕ, zero, suc, String, not, ◌&&◌, ◌||◌, Option, none, some, List, [], ◌∷◌, ◌++◌, ◌==◌, ltb,
  contains, get_or, if◌then◌else◌,
}
use genesis_agents.Base.Json.{Json, Items, Fields, null, text, array, object, nil, cons, end, field}
use genesis_agents.Base.Result.{Result, ok, raise}
use genesis_agents.Text.{truthy}
use genesis_agents.Audit.Redaction.{sanitize}
use genesis_agents.Auth.Envelope.{Principal}
use genesis_agents.Gateway.Http.{
  HttpError, http, Python, get, put, pop, as_dict, truth, str_of, or_blank,
}

-- `s[:n]`
unfoldable pub prefix : ℕ → String → String
prefix zero s = ""
prefix (suc n) String.[] = ""
prefix (suc n) (String.◌∷◌ c s) = String.◌∷◌ c (prefix n s)

abbrev pub count : Items → ℕ
count nil = 0
count (cons x xs) = suc (count xs)

-- `params.get("resolved_context", [])`, where None counts as the empty list.
abbrev pub context_items : Json → Option Items
context_items null = some nil
context_items (array xs) = some xs
context_items _ = none

-- An entry of the context that is passed on.
pub record Evidence : Type 0 where
  pub citation : String
  pub content_sha256 : String
  pub content : String

abbrev pub evidence_json : Evidence → Json
evidence_json e = object (
    field "citation" (text e.citation)
      (field "content_sha256" (text e.content_sha256) (field "content" (text e.content) end)))

abbrev pub evidence_items : List Evidence → Items
evidence_items [] = nil
evidence_items (e ∷ es) = cons (evidence_json e) (evidence_items es)

module _ (py : Python) where
  -- `a or b`
  abbrev pub or_json : Json → Json → Json
  or_json a b = if truth py a then a else b

  unfoldable pub evidence_of : Fields → Evidence
  unfolding prefix or_blank truth str_of sanitize
  evidence_of item = record {
    citation = prefix 512 (or_blank py (get "citation" item));
    content_sha256 =
        prefix 128 (or_blank py (or_json (get "content_sha256" item) (get "hash" item)));
    content =
        prefix 4000 (str_of py (sanitize py.library "" (text (or_blank py (get "content" item)))));
  }

  unfoldable pub clean_item : Principal → Json → Result HttpError Evidence
  unfolding evidence_of str_of truth
  clean_item principal item = elim (as_dict item) [
    | none ↦ raise (http 422 "resolved_context_invalid")
    | some fs ↦
        if not (
          str_of py (or_json (get "tenant_id" fs) (text principal.tenant_id))
          == principal.tenant_id)
        then raise (http 403 "resolved_context_tenant_mismatch")
        else if not (truthy (evidence_of fs).citation)
            || (not (truthy (evidence_of fs).content_sha256)
                || not (truthy (evidence_of fs).content))
        then raise (http 422 "resolved_context_evidence_required")
        else ok (evidence_of fs)
  ]

  -- The loop over the context; it ends at the first entry that is refused.
  unfoldable pub clean_items : Principal → Items → Result HttpError (List Evidence)
  unfolding clean_item
  clean_items principal nil = ok []
  clean_items principal (cons x xs) = elim (clean_item principal x) [
    | raise e ↦ raise e
    | ok c ↦ elim (clean_items principal xs) [ raise e ↦ raise e | ok cs ↦ ok (c ∷ cs) ]
  ]

  unfoldable pub scoped_runtime_params : Json → Principal → Result HttpError Fields
  unfolding clean_items put pop
  scoped_runtime_params task principal =
      let params = get_or (as_dict task) end in
      elim (context_items (get "resolved_context" params)) [
        | none ↦ raise (http 422 "resolved_context_invalid")
        | some items ↦
            if ltb 8 (count items)
            then raise (http 422 "resolved_context_invalid")
            else elim (clean_items principal items) [
              | raise e ↦ raise e
              | ok clean ↦
                  ok (
                    pop "description"
                      (put "resolved_context" (array (evidence_items clean)) params))
            ]
      ]

  -- `value.strip()` on a text, `json.dumps` on a dictionary or list.
  unfoldable pub coerce_prompt_field : Json → String
  coerce_prompt_field null = ""
  coerce_prompt_field (text s) = py.library.strip s
  coerce_prompt_field (array xs) = py.library.dumps (array xs)
  coerce_prompt_field (object fs) = py.library.dumps (object fs)
  coerce_prompt_field v = py.library.strip (py.str v)

  abbrev join_parts : List String → String
  join_parts [] = ""
  join_parts (p ∷ []) = p
  join_parts (p ∷ q ∷ ps) = cat p (cat "\n\n" (join_parts (q ∷ ps)))

  -- `if s and s not in parts: parts.append(f"{label}{s}")`
  abbrev pub add_part : String → String → List String → List String
  add_part label s parts =
      if truthy s && not (contains parts s) then parts ++ (cat label s ∷ []) else parts

  -- What of the task goes into the prompt.
  unfoldable pub task_text : Json → String
  unfolding coerce_prompt_field truth
  task_text (object fs) = coerce_prompt_field (
      or_json (get "description" fs)
        (or_json (get "text" fs) (or_json (get "task" fs) (object fs))))
  task_text v = coerce_prompt_field v

  -- `if task_raw is not None: ...`
  unfoldable pub with_task : Json → List String → List String
  unfolding task_text contains
  with_task null parts = parts
  with_task task parts = add_part "Task:\n" (task_text task) parts

  -- _build_user_prompt, from the fields prompt, input and task of the body.
  unfoldable pub build_user_prompt : Json → Json → Json → String
  unfolding with_task contains coerce_prompt_field
  build_user_prompt prompt input task =
      let prompt' = coerce_prompt_field prompt in
      let parts = if truthy prompt' then prompt' ∷ [] else [] in
      py.library.strip (join_parts (with_task task (add_part "" (coerce_prompt_field input) parts)))
