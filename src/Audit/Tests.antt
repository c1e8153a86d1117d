-- ===== src/Audit/Tests.antt =====
-- The log of audit.py with hashes that are the payloads themselves: two appends, a redaction, and a
-- session from before the heads.
use Prim.Native.String.{◌++◌ as cat}
use genesis_agents.Base.{
  String, any, ◌≡◌, ◌≢◌, refl, true, false, none, List, [], ◌∷◌, arith, filter, length, map,
}
use genesis_agents.Audit.Chain.{
  Row, Store, Texts, rows_of, verify_chain, check_rows, check_head, expected, row_hash_v1,
}
use genesis_agents.Audit.Append.{Entry, log, log_all, append_row, new_row, set_row_hash}
use genesis_agents.Audit.Laws.{is_tracked, is_tracked_by}
use genesis_agents.Audit.Histories.{log_all-verifies, legacy_append_condemned, loss_detected}
use genesis_agents.Audit.Tampering.{set_error, errors_unbound}
use genesis_agents.Base.Json.{
  Json, Items, Fields, null, bool, number, text, array, object, nil, cons, end, field,
}
use genesis_agents.Audit.Redaction.{
  Library, Call, sanitize, redact_text, redact_url, guard_key, is_sensitive, is_part, starts_with,
  log_call,
}
use genesis_agents.Audit.Secrets.{secrets_unlogged, replace}

abbrev plain_texts : Texts
plain_texts = record { sha256 = λ s. s; int_text = λ n. "1"; float_text = λ t. "0.5" }

abbrev empty : Store
empty = record { rows = []; heads = λ s. none; last_id = 0 }

abbrev call : Entry
call = record {
  session_id = "s1";
  action_type = "tool_call";
  tool_name = "browser";
  inputs_json = "{}";
  outputs_json = "[]";
  cost_cents = 3;
  error = "";
  ts = 10;
}

abbrev failed_call : Entry
failed_call = record call { error = "timeout" }

abbrev two_calls : Store
two_calls = log_all plain_texts (call ∷ failed_call ∷ []) empty

abbrev legacy_row : Row
legacy_row = record {
  id = 1;
  session_id = "s1";
  action_type = "tool_call";
  tool_name = "browser";
  inputs_json = "{}";
  outputs_json = "[]";
  cost_cents = 1;
  error = "";
  timestamp = 5;
  prev_hash = "";
  row_hash = "1:s1:tool_call:browser:1:0.5::{}:[]";
  inputs_digest = none;
  outputs_digest = none;
}

abbrev legacy : Store
legacy = record { rows = legacy_row ∷ []; heads = λ s. none; last_id = 1 }

cons-ne-nil : {r : Row} {rows : List Row} → r ∷ rows ≢ []
cons-ne-nil h = cc

empty_verifies : verify_chain plain_texts "s1" empty ≡ true
unfolding verify_chain check_rows check_head rows_of filter
empty_verifies = refl

empty_tracked : is_tracked "s1" empty ≡ true
unfolding is_tracked is_tracked_by rows_of filter
empty_tracked = refl

legacy_verifies : verify_chain plain_texts "s1" legacy ≡ true
unfolding verify_chain check_rows check_head rows_of filter expected row_hash_v1
legacy_verifies = refl

-- Two appends to an empty log.
log_all-verifies_example :
    (verify_chain plain_texts "s1" two_calls ≡ true) × (is_tracked "s1" two_calls ≡ true)
log_all-verifies_example =
    log_all-verifies plain_texts "s1" (call ∷ failed_call ∷ []) empty empty_verifies empty_tracked

-- Two appends to the legacy session.
legacy_append_condemned_example :
    (verify_chain plain_texts "s1" (log_all plain_texts (call ∷ failed_call ∷ []) legacy) ≡ false)
    × (check_rows plain_texts ""
          (rows_of "s1" (log_all plain_texts (call ∷ failed_call ∷ []) legacy).rows)
        ≡ true)
legacy_append_condemned_example =
    legacy_append_condemned plain_texts call (failed_call ∷ []) legacy refl
      (unfold rows_of filter in cons-ne-nil) legacy_verifies

two_verify : (verify_chain plain_texts "s1" two_calls ≡ true) × (is_tracked "s1" two_calls ≡ true)
two_verify =
    log_all-verifies plain_texts "s1" (call ∷ failed_call ∷ []) empty empty_verifies empty_tracked

two_rows : rows_of "s1" two_calls.rows ≢ []
unfolding log_all log append_row new_row set_row_hash rows_of filter
two_rows = cons-ne-nil

two_long : length (rows_of "s1" []) ≢ length (rows_of "s1" two_calls.rows)
unfolding log_all log append_row new_row set_row_hash rows_of filter
two_long h = absurd (omega arith)

-- The deletion of the whole session.
loss_detected_example : verify_chain plain_texts "s1" (record two_calls { rows = [] }) ≡ false
loss_detected_example =
    loss_detected plain_texts "s1" two_calls [] two_verify.0 two_verify.1 two_rows two_long

-- All errors are wiped.
errors_unbound_example :
    verify_chain plain_texts "s1"
      (record two_calls { rows = map (set_error (λ t. "")) two_calls.rows })
    ≡ verify_chain plain_texts "s1" two_calls
errors_unbound_example = errors_unbound plain_texts (λ t. "") "s1" two_calls

-- A simple printer of JSON values.
unfoldable mutual
  dumps : Json → String
  dumps null = "null"
  dumps (bool true) = "true"
  dumps (bool false) = "false"
  dumps (number n) = n
  dumps (text s) = cat "'" (cat s "'")
  dumps (array xs) = cat "[" (cat (dumps_items xs) "]")
  dumps (object fs) = cat "{" (cat (dumps_fields fs) "}")

  dumps_items : Items → String
  dumps_items nil = ""
  dumps_items (cons x xs) = cat (dumps x) (cat "," (dumps_items xs))

  dumps_fields : Fields → String
  dumps_fields end = ""
  dumps_fields (field k v fs) = cat k (cat ":" (cat (dumps v) (cat "," (dumps_fields fs))))

abbrev plain_library : Library
plain_library = record {
  lower = λ s. s;
  strip = λ s. s;
  query_items = λ s. [];
  with_query = λ s q. s;
  sub_bearer = λ s. s;
  sub_sk = λ s. s;
  dumps = dumps;
}

-- {"user": "ann", "logins": [{"password": "hunter2", "at": 7}]}
abbrev login : Json
login = object (
    field "user" (text "ann") (
      field "logins"
        (array
          (cons (object (field "password" (text "hunter2") (field "at" (number "7") end))) nil))
        end))

login_sanitized :
    sanitize plain_library "" login
    ≡ object (
        field "user" (text "ann") (
          field "logins"
            (array (
              cons
                (object (field "password" (text "[REDACTED]") (field "at" (number "7") end)))
                nil))
            end))
unfolding sanitize redact_text redact_url guard_key is_sensitive any is_part starts_with
login_sanitized = refl

abbrev login_call : Call
login_call = record {
  session_id = "s1";
  action_type = "tool_call";
  tool_name = "browser";
  inputs = login;
  outputs = text "sk-12345678";
  cost_cents = 0;
  error = "";
  ts = 11;
}

abbrev other_value : String → Json → Json
other_value k v = text "12345"

-- A call with another password.
secrets_unlogged_example :
    log_call plain_library plain_texts
      (record login_call {
        inputs = replace plain_library other_value login;
        outputs = replace plain_library other_value login_call.outputs;
      })
      two_calls
    ≡ log_call plain_library plain_texts login_call two_calls
secrets_unlogged_example =
    secrets_unlogged plain_library other_value plain_texts login_call two_calls
