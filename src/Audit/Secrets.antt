-- ===== src/Audit/Secrets.antt =====
-- What `_sanitize` of audit.py keeps out of the log.
use genesis_agents.Base.{String, true, ◌≡◌, refl, if◌then◌else◌, Bool-cases, inl, inr, ap}
use genesis_agents.Base.Json.{
  Json, Items, Fields, null, bool, number, text, array, object, nil, cons, end, field,
}
use genesis_agents.Audit.Chain.{Store, Texts}
use genesis_agents.Audit.Redaction.{
  Library, Call, is_sensitive, guard_key, sanitize, sanitize_items, sanitize_fields,
  sanitize_inputs, entry_of, log_call,
}

module _ (lib : Library) (f : String → Json → Json) where
  -- Every value under a sensitive key, at any depth, is replaced by another one.
  unfoldable mutual
    unfolding is_sensitive

    pub replace : Json → Json
    replace null = null
    replace (bool b) = bool b
    replace (number n) = number n
    replace (text s) = text s
    replace (array xs) = array (replace_items xs)
    replace (object fs) = object (replace_fields fs)

    pub replace_items : Items → Items
    replace_items nil = nil
    replace_items (cons x xs) = cons (replace x) (replace_items xs)

    pub replace_fields : Fields → Fields
    replace_fields end = end
    replace_fields (field k v fs) =
        let rest = replace_fields fs in
        let value = replace v in
        if is_sensitive lib k then field k (f k v) rest else field k value rest

  sensitive_lem :
      (k : String) (v : Json) → is_sensitive lib k ≡ true → sanitize lib k v ≡ text "[REDACTED]"
  unfolding sanitize guard_key
  sensitive_lem k null h = rw h
  sensitive_lem k (bool b) h = rw h
  sensitive_lem k (number n) h = rw h
  sensitive_lem k (text s) h = rw h
  sensitive_lem k (array xs) h = rw h
  sensitive_lem k (object fs) h = rw h

  mutual
    unfolding sanitize sanitize_items sanitize_fields replace replace_items replace_fields

    sanitize-replace : (k : String) (v : Json) → sanitize lib k (replace v) ≡ sanitize lib k v
    sanitize-replace k null = refl
    sanitize-replace k (bool b) = refl
    sanitize-replace k (number n) = refl
    sanitize-replace k (text s) = refl
    sanitize-replace k (array xs) =
        ap (λ ys. guard_key lib k (array ys)) (sanitize_items-replace k xs)
    sanitize-replace k (object fs) =
        ap (λ gs. guard_key lib k (object gs)) (sanitize_fields-replace fs)

    sanitize_items-replace :
        (k : String) (xs : Items)
        → sanitize_items lib k (replace_items xs) ≡ sanitize_items lib k xs
    sanitize_items-replace k nil = refl
    sanitize_items-replace k (cons x xs) = rw (sanitize-replace k x, sanitize_items-replace k xs)

    sanitize_fields-replace :
        (fs : Fields) → sanitize_fields lib (replace_fields fs) ≡ sanitize_fields lib fs
    sanitize_fields-replace end = refl
    sanitize_fields-replace (field k v fs) = elim (Bool-cases (is_sensitive lib k)) [
      | inl h ↦ rw (h, sensitive_lem k (f k v) h, sensitive_lem k v h, sanitize_fields-replace fs)
      | inr h ↦ rw (h, sanitize-replace k v, sanitize_fields-replace fs)
    ]

  sanitize_inputs-replace : (v : Json) → sanitize_inputs lib (replace v) ≡ sanitize_inputs lib v
  unfolding sanitize_inputs replace
  sanitize_inputs-replace null = refl
  sanitize_inputs-replace (bool b) = refl
  sanitize_inputs-replace (number n) = refl
  sanitize_inputs-replace (text s) = refl
  sanitize_inputs-replace (array xs) = refl
  sanitize_inputs-replace (object fs) = sanitize-replace "" (object fs)

  -- Two calls whose inputs and outputs differ only in the values under sensitive keys, at any depth,
  -- leave the same log, digests, hashes and head included, whatever those values are.
  pub secrets_unlogged :
      (texts : Texts) (c : Call) (s : Store)
      → log_call lib texts (record c { inputs = replace c.inputs; outputs = replace c.outputs }) s
        ≡ log_call lib texts c s
  unfolding log_call entry_of
  secrets_unlogged texts c s = rw (sanitize_inputs-replace c.inputs, sanitize-replace "" c.outputs)
