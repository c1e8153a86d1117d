-- ===== src/Auth/Tests.antt =====
-- The envelopes and owners of runtime/request_auth.py at one client.
use genesis_agents.Base.{
  ◌≡◌, refl, String, true, none, some, [], ◌∷◌, ◌==◌, arith, any, filter, contains,
}
use genesis_agents.Base.Result.{ok}
use genesis_agents.Text.{chars, is_ascii}
use genesis_agents.Replay.{spend, sweep, insert_row}
use genesis_agents.Auth.Envelope.{
  NonceTables, verify_at, Principal, Client, Site, Context, Body, Payload, Wire, consume_nonce,
  is_nonce_text, nonce_matches, trusts, matches, only_client, client_principal, grants_scope, admit,
  check_stamp, verify_ap2_envelope,
}
use genesis_agents.Auth.Once.{accepted_once, verify_all}
use genesis_agents.Auth.Tokens.{OwnedRow, owns_resource}

abbrev wire : Wire String
wire = record {
  canonical = λ p. p;
  signed_by = λ k s p n t. s == "good";
  parse_timestamp = λ t. some 1000;
}

abbrev signed_payload : Payload String
signed_payload = record { agent = some "genesis-builder"; task = some "build"; params = some "{}" }

abbrev body : Body String
body = record {
  version = some 1;
  payload = some signed_payload;
  nonce = "abcdefghij-_0123";
  timestamp = "1970-01-01T00:16:40Z";
  pubkey = "K";
  signature = "good";
}

abbrev cato : Client
cato = record {
  client_id = "cato";
  enabled = true;
  pubkey_b64 = some "K";
  capabilities = "agent.invoke" ∷ [];
  principal_id = none;
  tenant_id = some "acme";
}

abbrev context : Context
context = record {
  current = 1010;
  swept_at = 1010;
  header_version = "1";
  header_pubkey = "K";
  required_scope = "agent.invoke";
  registry = some (cato ∷ []);
  site = ok Site.postgres;
  usable = true;
}

abbrev caller : Principal
caller = record {
  principal_id = "client:cato";
  tenant_id = "acme";
  client_id = "cato";
  scopes = "agent.invoke" ∷ [];
  auth_method = "ap2";
  expires_at = 1300;
}

abbrev no_nonces : NonceTables
no_nonces site = []

abbrev spent : NonceTables
spent = (verify_at wire context body no_nonces).1

first_at : verify_at wire context body no_nonces ≡ (ok caller, spent)
unfolding verify_at verify_ap2_envelope check_stamp admit consume_nonce is_nonce_text nonce_matches
    trusts matches only_client client_principal grants_scope contains any filter spend sweep
    insert_row chars is_ascii
first_at = refl

abbrev elsewhere : Context
elsewhere = record context { site = ok (Site.sqlite "/data/auth.db") }

-- The envelope, replayed at its site after an attempt there and one at another site.
accepted_once_example : ¬ (
    (verify_at wire
      (record context { swept_at = 1300 })
      body
      (verify_all wire ((context, body) ∷ (elsewhere, body) ∷ []) spent)).0
    ≡ ok caller)
accepted_once_example =
    accepted_once wire Site.postgres context (record context { swept_at = 1300 }) body 1000 caller
      caller no_nonces spent ((context, body) ∷ (elsewhere, body) ∷ []) refl refl first_at refl refl
      (omega arith, (omega arith, tt)) (omega arith)

-- A row of the caller.
abbrev job_row : OwnedRow
job_row = record {
  camel_tenant_id = some (some "acme");
  camel_owner_principal_id = some (some "client:cato");
  tenant_id = none;
  owner_principal_id = none;
}

owned : owns_resource caller (some job_row) ≡ ok true
unfolding owns_resource is_ascii
owned = refl
