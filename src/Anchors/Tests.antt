-- ===== src/Anchors/Tests.antt =====
-- A day of two rows, anchored and checked again.
use genesis_agents.Base.{
  ℕ, ◌≡◌, refl, String, true, Option, none, some, [], ◌∷◌, filter, contains, false,
}
use genesis_agents.Base.Result.{ok}
use genesis_agents.Audit.Chain.{
  Row, Store, Texts, verify_chain, rows_of, check_head, check_rows, expected, row_hash_v1,
}
use genesis_agents.Anchors.Merkle.{merkle_root, climb}
use genesis_agents.Anchors.Daily.{
  Anchor, Verdict, anchor_of, verify_anchor, get_anchor, judge, rows_on, sessions_on,
  broken_sessions_on,
}

abbrev texts : Texts
texts = record { sha256 = λ s. s; int_text = λ n. "1"; float_text = λ n. "0" }

abbrev row_at : ℕ → String → String → Row
row_at id prev hash = record {
  id = id;
  session_id = "s1";
  action_type = "tool_call";
  tool_name = "code_format";
  inputs_json = "{}";
  outputs_json = "{}";
  cost_cents = 0;
  error = "";
  timestamp = 90000;
  prev_hash = prev;
  row_hash = hash;
  inputs_digest = none;
  outputs_digest = none;
}

abbrev first_hash : String
first_hash = "1:s1:tool_call:code_format:1:0::{}:{}"

abbrev second_hash : String
second_hash = "1:s1:tool_call:code_format:1:0:1:s1:tool_call:code_format:1:0::{}:{}:{}:{}"

abbrev day : Store
day = record {
  rows = row_at 1 "" first_hash ∷ row_at 2 first_hash second_hash ∷ [];
  heads = λ s. none;
  last_id = 2;
}

abbrev day_start : String → Option ℕ
day_start date = some 86400

abbrev anchor : Anchor
anchor = anchor_of texts day_start "1970-01-02" "t" 86400 day

abbrev verdict : Verdict
verdict = record {
  anchored = true;
  stored_root = anchor.root;
  recomputed_root = anchor.root;
  rows_intact = true;
  broken_sessions = [];
  is_match = true;
  tampered = false;
}

intact : verify_anchor texts day_start "1970-01-02" "t" (anchor ∷ []) (some day) ≡ ok verdict
unfolding verify_anchor get_anchor judge broken_sessions_on sessions_on rows_on filter contains
    verify_chain rows_of check_head check_rows expected row_hash_v1 merkle_root climb
intact = refl
