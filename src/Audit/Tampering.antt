-- ===== src/Audit/Tampering.antt =====
-- Changed rows under the verification of audit.py.
use genesis_agents.Base.{
  suc, ◌≡◌, refl, ap, ◌∙◌, String, true, ◌&&◌, Option, none, some, List, [], ◌∷◌, ◌==◌, arith,
  filter, length, nat_eq, map, Option-cases, inl, inr,
}
use genesis_agents.Audit.Chain.{
  Row, Head, Store, Texts, rows_of, last_row, check_rows, check_head, verify_chain, expected,
  row_hash_v1, row_hash_v2,
}

-- A redaction of the JSON of a row, where the row has digests.
unfoldable pub redact : (String → String) → (String → String) → Row → Row
redact f g r = record r {
  inputs_json = elim r.inputs_digest [ none ↦ r.inputs_json | some d ↦ f r.inputs_json ];
  outputs_json = elim r.inputs_digest [ none ↦ r.outputs_json | some d ↦ g r.outputs_json ];
}

-- A change of the error text of a row.
unfoldable pub set_error : (String → String) → Row → Row
set_error f r = record r { error = f r.error }

-- A change of rows that verify_chain does not look at.
record IsUnseen (texts : Texts) (f : Row → Row) : Type 0 where
  id : (r : Row) → (f r).id ≡ r.id
  session : (r : Row) → (f r).session_id ≡ r.session_id
  prev : (r : Row) → (f r).prev_hash ≡ r.prev_hash
  hash : (r : Row) → (f r).row_hash ≡ r.row_hash
  expects : (r : Row) → expected texts (f r) ≡ expected texts r

module _ (texts : Texts) (f : Row → Row) (unseen : IsUnseen texts f) where
  rows_of-map :
      (session_id : String) (rows : List Row)
      → rows_of session_id (map f rows) ≡ map f (rows_of session_id rows)
  unfolding rows_of filter
  rows_of-map session_id [] = refl
  rows_of-map session_id (r ∷ rows) = ground (arith, rows_of-map session_id rows, unseen.session r)

  check_rows-map :
      (prev : String) (rows : List Row)
      → check_rows texts prev (map f rows) ≡ check_rows texts prev rows
  unfolding check_rows
  check_rows-map prev [] = refl
  check_rows-map prev (r ∷ rows) =
      let rest : check_rows texts (f r).row_hash (map f rows) ≡ check_rows texts r.row_hash rows =
        ap (λ h. check_rows texts h (map f rows)) (unseen.hash r)
        ∙ check_rows-map r.row_hash rows in
      λ i. (unseen.prev r i == prev) && ((unseen.expects r i == unseen.hash r i) && rest i)

  length-map : (rows : List Row) → length (map f rows) ≡ length rows
  length-map [] = refl
  length-map (r ∷ rows) = ap suc (length-map rows)

  check_last :
      (h : Head) (rows : List Row)
      → (elim (last_row (map f rows)) [
        | none ↦ true
        | some r ↦ r.row_hash == h.last_row_hash && nat_eq r.id h.last_row_id
      ]
          ≡ elim (last_row rows) [
            | none ↦ true
            | some r ↦ r.row_hash == h.last_row_hash && nat_eq r.id h.last_row_id
          ])
  check_last h [] = refl
  check_last h (r ∷ []) = rw (unseen.hash r, unseen.id r) refl
  check_last h (r ∷ q ∷ rows) = check_last h (q ∷ rows)

  check_head-map :
      (h : Option Head) (rows : List Row) → check_head h (map f rows) ≡ check_head h rows
  unfolding check_head
  check_head-map none rows = refl
  check_head-map (some h) rows = rw (check_head, length-map rows, check_last h rows) refl

  verify_chain-map :
      (session_id : String) (s : Store)
      → verify_chain texts session_id (record s { rows = map f s.rows })
        ≡ verify_chain texts session_id s
  unfolding verify_chain
  verify_chain-map session_id s =
      rw
        (
          rows_of-map session_id s.rows,
          check_head-map (s.heads session_id) (rows_of session_id s.rows),
          check_rows-map "" (rows_of session_id s.rows),
        )
        refl

expected-redact :
    (texts : Texts) (f g : String → String) (r : Row)
    → expected texts (redact f g r) ≡ expected texts r
unfolding expected redact row_hash_v1 row_hash_v2
expected-redact texts f g r = elim (Option-cases r.inputs_digest) [
  | inl n ↦ rw (expected, n) (rw n refl)
  | inr (d, e) ↦ rw (expected, e) refl
]

redact-IsUnseen : (texts : Texts) (f g : String → String) → IsUnseen texts (redact f g)
unfolding redact
redact-IsUnseen texts f g = record {
  id = λ r. refl;
  session = λ r. refl;
  prev = λ r. refl;
  hash = λ r. refl;
  expects = expected-redact texts f g;
}

set_error-IsUnseen : (texts : Texts) (f : String → String) → IsUnseen texts (set_error f)
unfolding set_error expected row_hash_v1 row_hash_v2
set_error-IsUnseen texts f = record {
  id = λ r. refl;
  session = λ r. refl;
  prev = λ r. refl;
  hash = λ r. refl;
  expects = λ r. refl;
}

-- The JSON of the inputs and outputs of all rows that have digests can be changed in any way, and
-- no session's verification changes.
pub redaction_verifies :
    (texts : Texts) (f g : String → String) (session_id : String) (s : Store)
    → verify_chain texts session_id (record s { rows = map (redact f g) s.rows })
      ≡ verify_chain texts session_id s
redaction_verifies texts f g = verify_chain-map texts (redact f g) (redact-IsUnseen texts f g)

-- The error texts of all rows can be changed in any way, and no session's verification changes.
pub errors_unbound :
    (texts : Texts) (f : String → String) (session_id : String) (s : Store)
    → verify_chain texts session_id (record s { rows = map (set_error f) s.rows })
      ≡ verify_chain texts session_id s
errors_unbound texts f = verify_chain-map texts (set_error f) (set_error-IsUnseen texts f)
