-- ===== src/Gateway/Scoped.antt =====
-- What the context of a run may hold, by main.py, and what its signature leaves open.
use genesis_agents.Base.{
  ℕ, zero, suc, ◌≤◌, ◌≡◌, refl, ap, String, true, none, some, List, [], ◌∷◌, ◌==◌, arith, eq_iff,
  length, Option-cases, inl, inr, get_or, if◌then◌else◌,
}
use genesis_agents.Base.Json.{Json, Items, Fields, text, array, nil, cons, end, field}
use genesis_agents.Base.Result.{ok, Result-cases}
use genesis_agents.Text.{chars, truthy}
use genesis_agents.Envelope.Values.{get_field}
use genesis_agents.Auth.Envelope.{Principal}
use genesis_agents.Gateway.Http.{Python, get, put, pop, as_dict, str_of}
use genesis_agents.Gateway.Bodies.{get_field-put}
use genesis_agents.Gateway.Context.{
  prefix, count, context_items, Evidence, evidence_items, or_json, evidence_of, clean_item,
  clean_items, scoped_runtime_params,
}

pub chars-prefix : (n : ℕ) (s : String) → chars (prefix n s) ≤ n
unfolding chars prefix
chars-prefix zero s = omega arith
chars-prefix (suc n) String.[] = omega arith
chars-prefix (suc n) (String.◌∷◌ c s) = omega (arith, chars-prefix n s)

get-pop :
    (k j : String) (fs : Fields)
    → get_field j (pop k fs) ≡ (if k == j then none else get_field j fs)
unfolding get_field pop
get-pop k j end = ground arith
get-pop k j (field i v fs) = ground (arith, eq_iff i k, eq_iff i j, eq_iff k j, get-pop k j fs)

written :
    (k : String) (v : Json) (fs : Fields)
    → get_field k (pop "description" (put "resolved_context" v fs)) ≡ (
        if "description" == k
        then none
        else if "resolved_context" == k
        then some v
        else get_field k fs)
written k v fs =
    rw (
      get-pop "description" k (put "resolved_context" v fs),
      get_field-put "resolved_context" k v fs,
    )

module _ (py : Python) (p : Principal) where
  -- An entry of the request that is kept: a dictionary of the principal's tenant, cut to its bounds,
  -- with all three texts.
  pub record IsKept (x : Json) (e : Evidence) : Type 0 where
    pub entry : Fields
    pub is_dict : as_dict x ≡ some entry
    pub same_tenant :
        str_of py (or_json py (get "tenant_id" entry) (text p.tenant_id)) ≡ p.tenant_id
    pub taken : e ≡ evidence_of py entry
    pub has_citation : truthy e.citation ≡ true
    pub has_hash : truthy e.content_sha256 ≡ true
    pub has_content : truthy e.content ≡ true
    pub citation_bound : chars e.citation ≤ 512
    pub hash_bound : chars e.content_sha256 ≤ 128
    pub content_bound : chars e.content ≤ 4000

  -- Entry by entry.
  abbrev pub Kept : Items → List Evidence → Type 0
  Kept nil [] = Unit
  Kept nil (e ∷ es) = ⊥
  Kept (cons x xs) [] = ⊥
  Kept (cons x xs) (e ∷ es) = IsKept x e × Kept xs es

  evidence_of_bounds :
      (fs : Fields)
      → (chars (evidence_of py fs).citation ≤ 512)
        × (chars (evidence_of py fs).content_sha256 ≤ 128)
        × (chars (evidence_of py fs).content ≤ 4000)
  unfolding evidence_of
  evidence_of_bounds fs = (chars-prefix 512 _, chars-prefix 128 _, chars-prefix 4000 _)

  clean_item-IsKept : (x : Json) (e : Evidence) → clean_item py p x ≡ ok e → IsKept x e
  unfolding clean_item
  clean_item-IsKept x e h = elim (Option-cases (as_dict x)) [
    | inl n ↦ absurd (ground arith)
    | inr (fs, d) ↦
        let same : evidence_of py fs ≡ e = ground arith in
        let (c, s, t) = evidence_of_bounds fs in
        rw (← same) (record {
          entry = fs;
          is_dict = d;
          same_tenant = ground (
            arith,
            eq_iff (str_of py (or_json py (get "tenant_id" fs) (text p.tenant_id))) p.tenant_id,
          );
          taken = refl;
          has_citation = ground arith;
          has_hash = ground arith;
          has_content = ground arith;
          citation_bound = c;
          hash_bound = s;
          content_bound = t;
        })
  ]

  clean_items-Kept :
      (xs : Items) (es : List Evidence)
      → clean_items py p xs ≡ ok es
      → Kept xs es × (length es ≡ count xs)
  unfolding clean_items
  clean_items-Kept nil [] h = (tt, refl)
  clean_items-Kept nil (e ∷ es) h = cc
  clean_items-Kept (cons x xs) es h = elim (Result-cases (clean_item py p x)) [
    | inl (b, r) ↦ absurd (ground arith)
    | inr (e, r) ↦ elim (Result-cases (clean_items py p xs)) [
      | inl (b, q) ↦ absurd (ground arith)
      | inr (rest, q) ↦
          let made : e ∷ rest ≡ es = ground arith in
          let (kept, long) = clean_items-Kept xs rest q in
          rw (← made) ((clean_item-IsKept x e r, kept), ap suc long)
    ]
  ]

  -- The runtime parameters of a run carry at most eight entries of context, one for each entry of the
  -- task's resolved_context, in order: each is a dictionary whose tenant, where it names one, is the principal's, with
  -- a citation of at most 512 characters, a hash of at most 128 and a content of at most 4000, none
  -- empty. All other parameters are the task's, but there is no description.
  pub context_bounded :
      (task : Json) (params : Fields)
      → scoped_runtime_params py task p ≡ ok params
      → (items : Items) × (es : List Evidence) × (context_items
            (get "resolved_context" (get_or (as_dict task) end))
          ≡ some items)
        × Kept items es
        × (length es ≤ 8)
        × ((k : String)
            → get_field k params ≡ (
                if "description" == k
                then none
                else if "resolved_context" == k
                then some (array (evidence_items es))
                else get_field k (get_or (as_dict task) end)))
  unfolding scoped_runtime_params
  context_bounded task params h =
      let given : Fields = get_or (as_dict task) end in
      elim (Option-cases (context_items (get "resolved_context" given))) [
        | inl n ↦ absurd (ground arith)
        | inr (items, i) ↦ elim (Result-cases (clean_items py p items)) [
          | inl (b, r) ↦ absurd (ground arith)
          | inr (es, r) ↦
              let (kept, long) = clean_items-Kept items es r in
              let made : pop "description"
                    (put "resolved_context" (array (evidence_items es)) given)
                  ≡ params =
                ground arith in
              (
                items,
                es,
                i,
                kept,
                ground arith,
                λ k. rw (← made) (written k (array (evidence_items es)) given),
              )
        ]
      ]
