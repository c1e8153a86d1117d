-- ===== src/Auth/Tokens.antt =====
-- Principal tokens, the gateway's compatibility identity and the ownership of rows, as
-- runtime/request_auth.py has them. JSON in base64 and HMAC-SHA256 are the libraries'. A set of
-- scopes is a list, so that it is not sorted; a field that a payload lacks is none.
use genesis_agents.Base.{
  ℕ, ◌+◌, String, Bool, true, false, not, ◌&&◌, ◌||◌, Option, none, some, List, [], ◌∷◌, ◌==◌, ltb,
  nat_eq, get_or, if◌then◌else◌, min, max,
}
use genesis_agents.Base.Result.{Result, ok, raise}
use genesis_agents.Text.{chars, is_ascii, or_empty, truthy?, split_dots, dotted}
use genesis_agents.Auth.Envelope.{AuthError, Principal}

pub record TokenClaims : Type 0 where
  pub v : Option ℕ
  pub aud : Option String
  pub sub : Option String
  pub tenant : Option String
  pub client : Option String
  pub scopes : Option (List String)
  pub iat : Option ℕ
  pub exp : Option ℕ

pub record TokenCodec : Type 0 where
  pub encode : TokenClaims → String
  pub decode : String → Option TokenClaims
  pub hmac : String → String → String

-- A row of a table with owners: the camel-case columns, none where the row lacks them, and the others.
pub record OwnedRow : Type 0 where
  pub camel_tenant_id : Option (Option String)
  pub camel_owner_principal_id : Option (Option String)
  pub tenant_id : Option String
  pub owner_principal_id : Option String

-- `min(max(1, int(ttl_seconds)), PRINCIPAL_TOKEN_TTL_SECONDS)`
abbrev pub token_lifetime : ℕ → ℕ
token_lifetime ttl_seconds = min (max 1 ttl_seconds) 600

unfoldable pub token_claims : ℕ → ℕ → Principal → TokenClaims
token_claims now ttl_seconds p = record {
  v = some 1;
  aud = some "genesis-gateway";
  sub = some p.principal_id;
  tenant = some p.tenant_id;
  client = some p.client_id;
  scopes = some p.scopes;
  iat = some now;
  exp = some (now + token_lifetime ttl_seconds);
}

-- verify_principal_token, after the signature.
unfoldable pub check_token : ℕ → TokenClaims → Result AuthError Principal
check_token now c =
    if not (nat_eq (get_or c.v 0) 1)
      || (not (or_empty c.aud == "genesis-gateway")
          || (ltb (get_or c.exp 0) now || ltb (now + 60) (get_or c.iat 0)))
    then raise AuthError.principal_token_expired
    else if not (truthy? c.sub) || not (truthy? c.tenant)
    then raise AuthError.principal_token_identity_missing
    else ok (record {
      principal_id = or_empty c.sub;
      tenant_id = or_empty c.tenant;
      client_id = or_empty c.client;
      scopes = get_or c.scopes [];
      auth_method = "principal_token";
      expires_at = get_or c.exp 0;
    })

module _ (codec : TokenCodec) where
  open codec use {encode, decode, hmac}

  unfoldable pub issue_principal_token : String → ℕ → ℕ → Principal → Result AuthError String
  unfolding token_claims
  issue_principal_token key now ttl_seconds p =
      let encoded = encode (token_claims now ttl_seconds p) in
      if ltb (chars key) 32
      then raise AuthError.principal_token_key_not_configured
      else ok (dotted "genesis-principal-v1" encoded (hmac key encoded))

  -- The `try` block of verify_principal_token, after the split.
  unfoldable pub token_parts : String → String → String → String → Result AuthError TokenClaims
  token_parts key prefix encoded supplied =
      if not (prefix == "genesis-principal-v1")
      then raise AuthError.principal_token_invalid
      else if ltb (chars key) 32
      then raise AuthError.principal_token_key_not_configured
      else if not (is_ascii encoded && (is_ascii (hmac key encoded) && is_ascii supplied))
      then raise AuthError.principal_token_invalid
      else if not (hmac key encoded == supplied)
      then raise AuthError.principal_token_signature_invalid
      else elim (decode encoded) [ none ↦ raise AuthError.principal_token_invalid | some c ↦ ok c ]

  unfoldable pub open_token : String → String → Result AuthError TokenClaims
  unfolding split_dots token_parts
  open_token key token = elim (split_dots token) [
    | none ↦ raise AuthError.principal_token_invalid
    | some (prefix, encoded, supplied) ↦ token_parts key prefix encoded supplied
  ]

  unfoldable pub verify_principal_token : String → ℕ → String → Result AuthError Principal
  unfolding open_token check_token
  verify_principal_token key now token = elim (open_token key token) [
    | raise e ↦ raise e
    | ok c ↦ check_token now c
  ]

unfoldable pub legacy_gateway_principal : ℕ → Principal
legacy_gateway_principal now = record {
  principal_id = "legacy:gateway";
  tenant_id = "legacy";
  client_id = "legacy-gateway";
  scopes = "agent.invoke" ∷ "agent.list" ∷ "agent.health" ∷ "job.read" ∷ "artifact.read" ∷ [];
  auth_method = "legacy_gateway";
  expires_at = now + 60;
}

-- One compare_digest of two texts.
abbrev pub compare_digest : String → String → Result AuthError Bool
compare_digest a b = if is_ascii a && is_ascii b then ok (a == b) else raise AuthError.type_error

abbrev pub both_none : Option String → Option String → Bool
both_none none none = true
both_none none (some o) = false
both_none (some t) o = false

-- The `and` of two comparisons.
abbrev pub and_then : Result AuthError Bool → Result AuthError Bool → Result AuthError Bool
and_then (ok true) next = next
and_then (ok false) next = ok false
and_then (raise e) next = raise e

-- The columns that count: `row.get("tenantId", row.get("tenant_id"))`, and the owner's.
abbrev pub tenant_of : OwnedRow → Option String
tenant_of row = get_or row.camel_tenant_id row.tenant_id

abbrev pub owner_of : OwnedRow → Option String
owner_of row = get_or row.camel_owner_principal_id row.owner_principal_id

-- No row and an empty row are none.
unfoldable pub owns_resource : Principal → Option OwnedRow → Result AuthError Bool
owns_resource p none = ok false
owns_resource p (some row) =
    if both_none (tenant_of row) (owner_of row)
    then ok (p.auth_method == "legacy_gateway")
    else and_then (compare_digest (or_empty (tenant_of row)) p.tenant_id)
        (compare_digest (or_empty (owner_of row)) p.principal_id)
