-- ===== src/Audit/Chain.antt =====
-- The rows and heads of audit.py, the hash of a row, verify_chain and session_summary. SHA-256 and
-- Python's texts of integers and floats are parameters. The table is listed in the order of its ids.
use Prim.Native.String.{◌++◌ as cat}
use genesis_agents.Base.{
  ℕ, ◌+◌, String, Bool, true, false, not, ◌&&◌, Option, none, some, List, [], ◌∷◌, ◌==◌, nat_eq,
  filter, length, map, if◌then◌else◌, min, max,
}
use genesis_agents.Text.{truthy}

-- A row of audit_log. Rows of the first schema have no digests.
pub record Row : Type 0 where
  pub id : ℕ
  pub session_id : String
  pub action_type : String
  pub tool_name : String
  pub inputs_json : String
  pub outputs_json : String
  pub cost_cents : ℕ
  pub error : String
  pub timestamp : ℕ
  pub prev_hash : String
  pub row_hash : String
  pub inputs_digest : Option String
  pub outputs_digest : Option String

-- A row of audit_chain_heads.
pub record Head : Type 0 where
  pub last_row_id : ℕ
  pub last_row_hash : String
  pub row_count : ℕ

-- Both tables; the heads by their session, and the last id that was given out.
pub record Store : Type 0 where
  pub rows : List Row
  pub heads : String → Option Head
  pub last_id : ℕ

-- hashlib.sha256(...).hexdigest(), f"{int}" and f"{float}".
pub record Texts : Type 0 where
  pub sha256 : String → String
  pub int_text : ℕ → String
  pub float_text : ℕ → String

abbrev pub joined : List String → String
joined [] = ""
joined (s ∷ []) = s
joined (s ∷ t ∷ ss) = cat s (cat ":" (joined (t ∷ ss)))

-- An Option column in an f-string.
abbrev pub none_text : Option String → String
none_text none = "None"
none_text (some s) = s

-- SELECT ... WHERE session_id = ? ORDER BY id
unfoldable pub rows_of : String → List Row → List Row
unfolding filter
rows_of session_id rows = filter (λ (r : Row). r.session_id == session_id) rows

abbrev pub last_row : List Row → Option Row
last_row [] = none
last_row (r ∷ []) = some r
last_row (r ∷ q ∷ rows) = last_row (q ∷ rows)

-- _last_row_hash: the row_hash of the last row, or "".
abbrev pub hash_of : Option Row → String
hash_of none = ""
hash_of (some r) = r.row_hash

-- Check 3 of verify_chain.
unfoldable pub check_head : Option Head → List Row → Bool
check_head none rows = true
check_head (some h) rows =
    if not (nat_eq (length rows) h.row_count) then false else elim (last_row rows) [
      | none ↦ true
      | some r ↦ r.row_hash == h.last_row_hash && nat_eq r.id h.last_row_id
    ]

module _ (texts : Texts) where
  open texts use {sha256, int_text, float_text}

  -- _digest
  unfoldable pub digest : String → String
  digest text = if truthy text then sha256 text else ""

  -- The payload of _row_hash, and with the JSON for the digests that of _row_hash_v1.
  abbrev pub payload : Row → String → String → String
  payload r inputs outputs = joined (
      int_text r.id
      ∷ r.session_id
      ∷ r.action_type
      ∷ r.tool_name
      ∷ int_text r.cost_cents
      ∷ float_text r.timestamp
      ∷ r.prev_hash
      ∷ inputs
      ∷ outputs
      ∷ [])

  -- _row_hash
  unfoldable pub row_hash_v2 : Row → String → String → String
  row_hash_v2 r inputs_digest outputs_digest = sha256 (payload r inputs_digest outputs_digest)

  -- _row_hash_v1
  unfoldable pub row_hash_v1 : Row → String
  row_hash_v1 r = sha256 (payload r r.inputs_json r.outputs_json)

  -- `expected` in verify_chain.
  unfoldable pub expected : Row → String
  unfolding row_hash_v1 row_hash_v2
  expected r = elim r.inputs_digest [
    | none ↦ row_hash_v1 r
    | some d ↦ row_hash_v2 r d (none_text r.outputs_digest)
  ]

  -- The loop of verify_chain, from `expected_prev`.
  unfoldable pub check_rows : String → List Row → Bool
  unfolding expected
  check_rows prev [] = true
  check_rows prev (r ∷ rows) =
      r.prev_hash == prev && (expected r == r.row_hash && check_rows r.row_hash rows)

  unfoldable pub verify_chain : String → Store → Bool
  unfolding check_rows check_head rows_of
  verify_chain session_id s =
      let rows = rows_of session_id s.rows in
      check_head (s.heads session_id) rows && check_rows "" rows

-- What session_summary returns, but for the tools used.
pub record Summary : Type 0 where
  pub action_count : ℕ
  pub total_cost_cents : ℕ
  pub errors : ℕ
  pub start_ts : Option ℕ
  pub end_ts : Option ℕ

abbrev pub total_cost : List Row → ℕ
total_cost [] = 0
total_cost (r ∷ rows) = r.cost_cents + total_cost rows

abbrev pub count_errors : List Row → ℕ
count_errors [] = 0
count_errors (r ∷ rows) = (if truthy r.error then 1 else 0) + count_errors rows

-- min() and max() of a list; none where it is empty.
abbrev pub fold_by : (ℕ → ℕ → ℕ) → List ℕ → Option ℕ
fold_by f [] = none
fold_by f (t ∷ ts) = elim (fold_by f ts) [ none ↦ some t | some u ↦ some (f t u) ]

unfoldable pub session_summary : String → Store → Summary
unfolding rows_of
session_summary session_id s =
    let rows = rows_of session_id s.rows in
    let timestamps = map (λ (r : Row). r.timestamp) rows in
    record {
      action_count = length rows;
      total_cost_cents = total_cost rows;
      errors = count_errors rows;
      start_ts = fold_by min timestamps;
      end_ts = fold_by max timestamps;
    }
