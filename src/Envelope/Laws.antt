-- ===== src/Envelope/Laws.antt =====
-- The answers that tools/_envelope.py builds, read backwards.
use genesis_agents.Base.{
  String, Bool, true, false, not, ◌||◌, contains, lookup, Option, none, some, ◌==◌, ◌≡◌, ◌≢◌, refl,
  subst, arith, Option-cases, inl, inr,
}
use genesis_agents.Base.Json.{
  Json, Items, Fields, null, bool, number, text, array, object, nil, cons, end, field,
}
use genesis_agents.Base.Result.{ok}
use genesis_agents.Envelope.Values.{
  strip_banned, strip_items, strip_fields, is_clean, are_clean, fields_clean, get_field, get_key,
}
use genesis_agents.Envelope.Answers.{
  retryable_by_code, modes, failure, failure_fields, success, success_fields, is_filled, is_object,
  is_true,
}

mutual
  unfolding strip_banned strip_items strip_fields is_clean are_clean fields_clean

  -- What is stripped has no banned key at any depth.
  pub strip_banned_clean : (v : Json) → is_clean (strip_banned v) ≡ true
  strip_banned_clean null = refl
  strip_banned_clean (bool b) = refl
  strip_banned_clean (number n) = refl
  strip_banned_clean (text s) = refl
  strip_banned_clean (array xs) = strip_items_clean xs
  strip_banned_clean (object fs) = strip_fields_clean fs

  strip_items_clean : (xs : Items) → are_clean (strip_items xs) ≡ true
  strip_items_clean nil = refl
  strip_items_clean (cons x xs) = ground (arith, strip_banned_clean x, strip_items_clean xs)

  strip_fields_clean : (fs : Fields) → fields_clean (strip_fields fs) ≡ true
  strip_fields_clean end = refl
  strip_fields_clean (field k v fs) = ground (arith, strip_banned_clean v, strip_fields_clean fs)

-- An answer that reports success names a known mode, comes with evidence that is a dictionary with an
-- entry and a result that is a dictionary, and, in the mode APPROVAL_REQUIRED, with evidence that the
-- readback matched; it says ok, has no error, and no banned key at any depth.
pub success_lem :
    (tool mode : String) (result evidence : Json) (key : Option Json) (duplicate : Bool)
    (id : String) (answer : Json)
    → success tool mode result evidence key duplicate id ≡ ok answer
    → (contains modes mode ≡ true)
      × (is_filled evidence ≡ true)
      × (is_object result ≡ true)
      × ((not (mode == "APPROVAL_REQUIRED") || is_true (get_key "readback_matches" evidence))
          ≡ true)
      × (get_key "ok" answer ≡ some (bool true))
      × (get_key "error" answer ≡ none)
      × (is_clean answer ≡ true)
unfolding success
success_lem tool mode result evidence key duplicate id answer h =
    let stripped : strip_banned (object (success_fields tool mode result evidence key duplicate id))
        ≡ answer =
      ground arith in
    (
      ground arith,
      ground arith,
      ground arith,
      ground arith,
      subst (λ v. get_key "ok" v ≡ some (bool true)) stripped
          (unfold success_fields strip_banned get_key get_field contains in refl),
      subst (λ v. get_key "error" v ≡ none) stripped
          (unfold success_fields strip_banned get_key get_field contains in refl),
      subst (λ v. is_clean v ≡ true) stripped (strip_banned_clean _),
    )

-- The answer to a failure has a code of the taxonomy; it says not ok, has no result and no banned key
-- at any depth.
pub failure_lem :
    (tool code message : String) (detail : Fields) (retry : Option Json) (id : String)
    (answer : Json)
    → failure tool code message detail retry id ≡ ok answer
    → (lookup code retryable_by_code ≢ none)
      × (get_key "ok" answer ≡ some (bool false))
      × (get_key "result" answer ≡ none)
      × (is_clean answer ≡ true)
unfolding failure
failure_lem tool code message detail retry id answer h =
    elim (Option-cases (lookup code retryable_by_code)) [
      | inl n ↦ absurd (ground arith)
      | inr (b, e) ↦
          let stripped : strip_banned (object (failure_fields tool code b message detail retry id))
              ≡ answer =
            ground arith in
          (
            (λ n. cc),
            subst (λ v. get_key "ok" v ≡ some (bool false)) stripped
                (unfold failure_fields strip_banned get_key get_field contains in refl),
            subst (λ v. get_key "result" v ≡ none) stripped
                (unfold failure_fields strip_banned get_key get_field contains in refl),
            subst (λ v. is_clean v ≡ true) stripped (strip_banned_clean _),
          )
    ]
