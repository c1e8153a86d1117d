-- ===== src/Audit/Append.antt =====
-- The append of audit.py: `log`, with its lock and its transaction, so that an append is one step.
-- The JSON texts come in as the redaction made them.
use genesis_agents.Base.{
  ℕ, ◌+◌, String, Option, none, some, List, [], ◌∷◌, ◌++◌, ◌==◌, if◌then◌else◌,
}
use genesis_agents.Audit.Chain.{
  Row, Head, Store, Texts, rows_of, last_row, hash_of, digest, row_hash_v2,
}

-- The arguments of `log`, and the time.
pub record Entry : Type 0 where
  pub session_id : String
  pub action_type : String
  pub tool_name : String
  pub inputs_json : String
  pub outputs_json : String
  pub cost_cents : ℕ
  pub error : String
  pub ts : ℕ

abbrev pub count_of : Option Head → ℕ
count_of none = 0
count_of (some h) = h.row_count

-- INSERT INTO audit_chain_heads ... ON CONFLICT(session_id) DO UPDATE
unfoldable pub upsert_head : String → ℕ → String → (String → Option Head) → String → Option Head
upsert_head session_id row_id hash heads s =
    if session_id == s
    then some (record {
      last_row_id = row_id;
      last_row_hash = hash;
      row_count = count_of (heads session_id) + 1;
    })
    else heads s

-- UPDATE audit_log SET row_hash = ? WHERE id = ?, on the row with that id, the inserted one.
unfoldable pub set_row_hash : String → Row → Row
set_row_hash hash r = record r { row_hash = hash }

-- The inserted row, with the placeholder for its hash.
unfoldable pub new_row : ℕ → String → Entry → String → String → Row
new_row row_id prev_hash e inputs_digest outputs_digest = record {
  id = row_id;
  session_id = e.session_id;
  action_type = e.action_type;
  tool_name = e.tool_name;
  inputs_json = e.inputs_json;
  outputs_json = e.outputs_json;
  cost_cents = e.cost_cents;
  error = e.error;
  timestamp = e.ts;
  prev_hash = prev_hash;
  row_hash = "";
  inputs_digest = some inputs_digest;
  outputs_digest = some outputs_digest;
}

module _ (texts : Texts) where
  -- _log_postgres, and the SQLite branch of `log`, each in one transaction under a lock: read the last
  -- hash, insert, hash, update, and set the head.
  unfoldable pub append_row : Entry → String → String → Store → ℕ × Store
  unfolding new_row set_row_hash upsert_head row_hash_v2 rows_of
  append_row e inputs_digest outputs_digest s =
      let prev_hash = hash_of (last_row (rows_of e.session_id s.rows)) in
      let row_id = s.last_id + 1 in
      let inserted = new_row row_id prev_hash e inputs_digest outputs_digest in
      let rh = row_hash_v2 texts inserted inputs_digest outputs_digest in
      (
        row_id,
        record {
          rows = s.rows ++ (set_row_hash rh inserted ∷ []);
          heads = upsert_head e.session_id row_id rh s.heads;
          last_id = row_id;
        },
      )

  unfoldable pub log : Entry → Store → ℕ × Store
  unfolding append_row digest
  log e = append_row e (digest texts e.inputs_json) (digest texts e.outputs_json)

  -- log_spec_commitment; `inputs` is the JSON of the spec hash and the request id.
  unfoldable pub log_spec_commitment : String → String → ℕ → Store → ℕ × Store
  unfolding log
  log_spec_commitment session_id inputs ts = log (record {
    session_id = session_id;
    action_type = "spec_commitment";
    tool_name = "conduit.spec_commitment";
    inputs_json = inputs;
    outputs_json = "{\"committed\": true}";
    cost_cents = 0;
    error = "";
    ts = ts;
  })

  unfoldable pub log_all : List Entry → Store → Store
  unfolding log
  log_all [] s = s
  log_all (e ∷ es) s = log_all es (log e s).1
