-- ===== src/Audit/Redaction.antt =====
-- The redaction of audit.py, `_sanitize`, on JSON values, and `log` from the values of a call. The
-- library functions on texts are parameters: `str.lower`, `str.strip`, `parse_qsl` on the query of a
-- URL, the URL with another query, the two substitutions by regular expressions, and `json.dumps`.
use Prim.Native.Char.{code}
use genesis_agents.Base.{
  ℕ, String, Bool, true, false, ◌&&◌, ◌||◌, List, [], ◌∷◌, map, any, nat_eq, if◌then◌else◌,
}
use genesis_agents.Base.Json.{
  Json, Items, Fields, null, bool, number, text, array, object, nil, cons, end, field,
}
use genesis_agents.Audit.Chain.{Store, Texts}
use genesis_agents.Audit.Append.{Entry, log}

abbrev pub sensitive_keys : List String
sensitive_keys =
    "api_key" ∷ "token" ∷ "password" ∷ "secret" ∷ "key" ∷ "authorization" ∷ "bearer" ∷ "credential"
    ∷ "passwd" ∷ "passphrase" ∷ []

abbrev pub redacted : String
redacted = "[REDACTED]"

-- `s.startswith(p)`
unfoldable pub starts_with : String → String → Bool
starts_with String.[] s = true
starts_with (String.◌∷◌ c p) String.[] = false
starts_with (String.◌∷◌ c p) (String.◌∷◌ d s) = nat_eq (code c) (code d) && starts_with p s

-- `p in s`
unfoldable pub is_part : String → String → Bool
unfolding starts_with
is_part p String.[] = starts_with p String.[]
is_part p (String.◌∷◌ c s) = starts_with p (String.◌∷◌ c s) || is_part p s

pub record Library : Type 0 where
  pub lower : String → String
  pub strip : String → String
  pub query_items : String → List (String × String)
  pub with_query : String → List (String × String) → String
  pub sub_bearer : String → String
  pub sub_sk : String → String
  pub dumps : Json → String

module _ (lib : Library) where
  unfoldable pub is_sensitive : String → Bool
  unfolding any is_part
  is_sensitive key = any (λ s. is_part s (lib.lower key)) sensitive_keys

  unfoldable pub redact_item : String × String → String × String
  unfolding is_sensitive
  redact_item (key, item) = (key, if is_sensitive key then redacted else item)

  unfoldable pub redact_url : String → String
  unfolding redact_item starts_with
  redact_url value =
      if starts_with "http://" value || starts_with "https://" value
      then lib.with_query value (map redact_item (lib.query_items value))
      else value

  unfoldable pub redact_text : String → String
  unfolding redact_url starts_with
  redact_text s =
      let value = redact_url s in
      let lowered = lib.strip (lib.lower value) in
      if starts_with "bearer " lowered
        || (starts_with "sk-" lowered || starts_with "sk-ant-" lowered)
      then redacted
      else lib.sub_sk (lib.sub_bearer value)

  -- The first test of `_sanitize`, on the key that the value stands under.
  unfoldable pub guard_key : String → Json → Json
  unfolding is_sensitive
  guard_key parent_key v = if is_sensitive parent_key then text redacted else v

  unfoldable mutual
    unfolding redact_text guard_key

    pub sanitize : String → Json → Json
    sanitize parent_key null = guard_key parent_key null
    sanitize parent_key (bool b) = guard_key parent_key (bool b)
    sanitize parent_key (number n) = guard_key parent_key (number n)
    sanitize parent_key (text s) = guard_key parent_key (text (redact_text s))
    sanitize parent_key (array xs) = guard_key parent_key (array (sanitize_items parent_key xs))
    sanitize parent_key (object fs) = guard_key parent_key (object (sanitize_fields fs))

    pub sanitize_items : String → Items → Items
    sanitize_items parent_key nil = nil
    sanitize_items parent_key (cons x xs) =
        cons (sanitize parent_key x) (sanitize_items parent_key xs)

    pub sanitize_fields : Fields → Fields
    sanitize_fields end = end
    sanitize_fields (field k v fs) = field k (sanitize k v) (sanitize_fields fs)

  -- `_sanitize_inputs(inputs if isinstance(inputs, dict) else {})`
  unfoldable pub sanitize_inputs : Json → Json
  unfolding sanitize
  sanitize_inputs (object fs) = sanitize "" (object fs)
  sanitize_inputs _ = object end

  -- `safe if isinstance(safe, str) else json.dumps(safe)`
  unfoldable pub raw_output : Json → String
  raw_output (text s) = s
  raw_output v = lib.dumps v

-- The arguments of `log` as the callers give them, and the time.
pub record Call : Type 0 where
  pub session_id : String
  pub action_type : String
  pub tool_name : String
  pub inputs : Json
  pub outputs : Json
  pub cost_cents : ℕ
  pub error : String
  pub ts : ℕ

module _ (lib : Library) (texts : Texts) where
  unfoldable pub entry_of : Call → Entry
  unfolding sanitize_inputs sanitize raw_output
  entry_of c = record {
    session_id = c.session_id;
    action_type = c.action_type;
    tool_name = c.tool_name;
    inputs_json = lib.dumps (sanitize_inputs lib c.inputs);
    outputs_json = raw_output lib (sanitize lib "" c.outputs);
    cost_cents = c.cost_cents;
    error = c.error;
    ts = c.ts;
  }

  unfoldable pub log_call : Call → Store → ℕ × Store
  unfolding entry_of log
  log_call c = log texts (entry_of c)
