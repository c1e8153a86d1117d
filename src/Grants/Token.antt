-- ===== src/Grants/Token.antt =====
-- Issue and consumption of a grant, as runtime/action_grants.py does them. The JSON encoding in
-- base64, HMAC-SHA256 and the digest of the arguments are the libraries'. A claim is none where the
-- payload lacks its field; times are seconds since the epoch.
use genesis_agents.Base.{
  ℕ, ◌+◌, String, Bool, true, false, not, ◌&&◌, ◌||◌, Option, none, some, List, ◌==◌, ltb, nat_eq,
  get_or, if◌then◌else◌, min, max,
}
use genesis_agents.Base.Result.{Result, ok, raise, Tx, pure, ◌>>◌}
use genesis_agents.Text.{chars, is_ascii, or_empty, split_dots, dotted}
use genesis_agents.Replay.{spend}

-- GrantError by its message, and the exceptions that are no GrantError.
pub data GrantError : Type 0 where
  key_not_configured grant_invalid grant_signature_invalid grant_audience_invalid : GrantError
  grant_expired grant_principal_mismatch grant_tenant_mismatch grant_tool_mismatch : GrantError
  grant_args_mismatch grant_already_consumed grant_store_unavailable : GrantError
  auth_db_path_not_configured type_error key_error os_error : GrantError

-- The payload of a grant.
pub record Claims : Type 0 where
  pub v : Option ℕ
  pub aud : Option String
  pub jti : Option String
  pub authorization_id : Option String
  pub sub : Option String
  pub tenant : Option String
  pub tool : Option String
  pub args_digest : Option String
  pub iat : Option ℕ
  pub exp : Option ℕ

-- A row of genesis_action_grants. The SQLite table keeps the first three columns only.
pub record Spent : Type 0 where
  pub jti : String
  pub consumed_at : ℕ
  pub expires_at : ℕ
  pub owner : Option (String × String × String)

-- Where grants are spent, and what the attempt to reach it meets.
pub data Site : Type 0 where
  postgres : Site
  sqlite : String → Site

pub data Health : Type 0 where
  usable no_directory unusable : Health

-- `db_path`, pg_store.postgres_selected() and GENESIS_AUTH_DB_PATH decide the site.
unfoldable pub site : Option String → Bool → String → Site
site (some path) pg env = sqlite path
site none true env = postgres
site none false env = sqlite env

-- `str(Path(s))`, which is "." for the empty text.
abbrev pub path_text : String → String
path_text s = if s == "" then "." else s

unfoldable pub insert_grant : ℕ → Spent → Tx GrantError (List Spent) (Unit {0})
insert_grant consumed_at row rows =
    elim (spend (λ r. r.jti) (λ r. r.expires_at) ◌==◌ consumed_at row rows) [
      | none ↦ raise grant_already_consumed
      | some rows' ↦ ok (tt, rows')
    ]

unfoldable pub in_health :
    Health
    → GrantError
    → Tx GrantError (List Spent) (Unit {0})
    → Tx GrantError (List Spent) (Unit {0})
in_health usable no_dir m = m
in_health no_directory no_dir m = λ rows. raise no_dir
in_health unusable no_dir m = λ rows. raise grant_store_unavailable

unfoldable pub spend_jti : Site → Health → ℕ → Spent → Tx GrantError (List Spent) (Unit {0})
spend_jti postgres health now row = in_health health grant_store_unavailable (insert_grant now row)
spend_jti (sqlite path) health now row =
    if path_text path == ""
    then (λ rows. raise auth_db_path_not_configured)
    else in_health health os_error (insert_grant now (record row { owner = none }))

abbrev pub lift :
    Result GrantError Claims
    → (Claims → Tx GrantError (List Spent) String)
    → Tx GrantError (List Spent) String
lift (ok c) f = f c
lift (raise e) f = λ rows. raise e

-- json + base64, HMAC under a key, and the digest of a tool with its arguments.
pub record Codec (Args : Type 0) : Type 0 where
  pub encode : Claims → String
  pub decode : String → Option Claims
  pub hmac : String → String → String
  pub digest : String → Args → String

-- Whom and what a grant is for.
pub record Request (Args : Type 0) : Type 0 where
  pub principal_id : String
  pub tenant_id : String
  pub tool : String
  pub args : Args

module _ {Args : Type 0} (codec : Codec Args) where
  open codec use {encode, decode, hmac, digest}

  unfoldable pub grant_claims : ℕ → ℕ → String → String → Request Args → Claims
  grant_claims now ttl_seconds jti authorization_id r = record {
    v = some 1;
    aud = some "genesis-tool-dispatch";
    jti = some jti;
    authorization_id = some authorization_id;
    sub = some r.principal_id;
    tenant = some r.tenant_id;
    tool = some r.tool;
    args_digest = some (digest r.tool r.args);
    iat = some now;
    exp = some (now + min (max 1 ttl_seconds) 300);
  }

  -- `jti` is the drawn UUID.
  unfoldable pub issue_action_grant :
      String → ℕ → ℕ → String → String → Request Args → Result GrantError String
  unfolding grant_claims
  issue_action_grant key now ttl_seconds jti authorization_id r =
      let encoded = encode (grant_claims now ttl_seconds jti authorization_id r) in
      if ltb (chars key) 32
      then raise key_not_configured
      else ok (dotted "genesis-action-v1" encoded (hmac key encoded))

  -- The parts of the `try` block that follow the split.
  unfoldable pub check_parts : String → String → String → String → Result GrantError Claims
  check_parts key prefix encoded supplied =
      if not (prefix == "genesis-action-v1")
      then raise grant_invalid
      else if ltb (chars key) 32
      then raise key_not_configured
      else if not (is_ascii (hmac key encoded) && is_ascii supplied)
      then raise grant_invalid
      else if not (hmac key encoded == supplied)
      then raise grant_signature_invalid
      else elim (decode encoded) [ none ↦ raise grant_invalid | some c ↦ ok c ]

  -- The `try` block of consume_action_grant: the payload of a token with a valid signature.
  unfoldable pub open_grant : String → String → Result GrantError Claims
  unfolding split_dots
  open_grant key token = elim (split_dots token) [
    | none ↦ raise grant_invalid
    | some (prefix, encoded, supplied) ↦ check_parts key prefix encoded supplied
  ]

  -- One round of the loop over `checks`; compare_digest raises a TypeError outside ASCII.
  abbrev pub check_equal :
      Option String → String → GrantError → Result GrantError Claims → Result GrantError Claims
  check_equal actual required error next =
      if not (is_ascii (or_empty actual) && is_ascii required)
      then raise type_error
      else if not (or_empty actual == required)
      then raise error
      else next

  -- The checks between the signature and the spending.
  unfoldable pub check_claims : ℕ → Request Args → Claims → Result GrantError Claims
  check_claims now r c =
      if not (nat_eq (get_or c.v 0) 1) || not (or_empty c.aud == "genesis-tool-dispatch")
      then raise grant_audience_invalid
      else if ltb (get_or c.exp 0) now || ltb (now + 60) (get_or c.iat 0)
      then raise grant_expired
      else check_equal c.sub r.principal_id grant_principal_mismatch (
          check_equal c.tenant r.tenant_id grant_tenant_mismatch (
            check_equal c.tool r.tool grant_tool_mismatch
              (check_equal c.args_digest (digest r.tool r.args) grant_args_mismatch (ok c))))

  abbrev pub grant_row : ℕ → Request Args → String → ℕ → Spent
  grant_row now r jti exp = record {
    jti = jti;
    consumed_at = now;
    expires_at = exp;
    owner = some (r.principal_id, r.tenant_id, r.tool);
  }

  -- `payload["jti"]` and `payload["exp"]` raise a KeyError where the field is missing.
  unfoldable pub spend_claims :
      Site → Health → ℕ → Request Args → Claims → Tx GrantError (List Spent) String
  spend_claims at health now r c rows = elim c.jti [
    | none ↦ raise key_error
    | some jti ↦ elim c.exp [
      | none ↦ raise key_error
      | some exp ↦
          (spend_jti at health now (grant_row now r jti exp) >> pure (or_empty c.authorization_id))
            rows
    ]
  ]

  unfoldable pub consume_action_grant :
      Site → Health → String → ℕ → Request Args → String → Tx GrantError (List Spent) String
  consume_action_grant at health key now r token rows =
      lift (open_grant key token) (λ c. lift (check_claims now r c) (spend_claims at health now r))
        rows
