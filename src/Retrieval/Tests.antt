-- ===== src/Retrieval/Tests.antt =====
-- retrieval_route.py at one client, one query, one row of the vault and two of the backbone.
use genesis_agents.Base.{
  ◌≡◌, ◌⊎◌, refl, Bool, true, false, not, none, some, List, [], ◌∷◌, ◌==◌, All, any, filter,
  contains, map,
}
use genesis_agents.Base.Json.{Fields, text, end, field}
use genesis_agents.Base.Result.{ok}
use genesis_agents.Text.{chars, is_ascii, or_empty}
use genesis_agents.Replay.{spend, sweep, insert_row}
use genesis_agents.Auth.Envelope.{
  Principal, Client, Nonce, Site, Body, Payload, Wire, consume_nonce, is_nonce_text, nonce_matches,
  trusts, matches, only_client, client_principal, grants_scope, has_scope, admit, check_stamp,
  verify_ap2_envelope, assert_envelope_binds,
}
use genesis_agents.Auth.Tokens.{TokenCodec, verify_principal_token}
use genesis_agents.Auth.Verified.{IsVerified, IsBound}
use genesis_agents.Knowledge.Backbone.{
  Chunk, has_matching_access, filter_by_permission, put_identity, put_all, dedup_by_identity,
  add_to_groups, group_all, max_by_score, pick, dedup_by_content_hash_with_precedence,
  dedup_and_precede, resolve,
}
use genesis_agents.Gateway.Http.{Python, str_of, or_blank, truth}
use genesis_agents.Envelope.Values.{get_field}
use genesis_agents.Gateway.Identity.{Headers, Config, is_ap2, bound_principal}
use genesis_agents.Retrieval.Identity.{
  Query, Hint, scope_params, retrieval_context, signed_retrieval_binding, bind_query,
  retrieval_principal,
}
use genesis_agents.Retrieval.Route.{
  VaultRow, Stores, compute_staleness, safe_content, row_to_chunk, row_to_kb_chunk,
  query_knowledge_backbone, fan_out, vault_chunks, retrieval_query,
}
use genesis_agents.Retrieval.Identified.{retrieval_identified}
use genesis_agents.Retrieval.Served.{IsServed, retrieval_query-IsServed}

abbrev wire : Wire Fields
wire = record {
  canonical = λ fs. elim fs [ end ↦ "" | field k v gs ↦ k ];
  signed_by = λ k s p n t. s == "good";
  parse_timestamp = λ t. some 1000;
}

abbrev ask : Client
ask = record {
  client_id = "ask";
  enabled = true;
  pubkey_b64 = some "K";
  capabilities = "retrieval.query" ∷ [];
  principal_id = some "ann";
  tenant_id = some "acme";
}

abbrev cfg : Config
cfg = record {
  gateway_api_key = "key";
  agent_gateway_secret = "";
  token_key = "0123456789abcdef0123456789abcdef";
  context = record {
    current = 1010;
    swept_at = 1010;
    header_version = "";
    header_pubkey = "";
    required_scope = "";
    registry = some (ask ∷ []);
    site = ok Site.postgres;
    usable = true;
  };
  now = 1010;
}

abbrev headers : Headers
headers = record {
  api_key = none;
  gateway_secret = none;
  ap2_version = some "1";
  ap2_pubkey = some "K";
  principal_token = none;
}

abbrev query : Query
query = record {
  query = "fees";
  top_k = "8";
  entity_filter = none;
  include_superseded = false;
  domain_hint = Hint.any;
  requesting_principal = none;
}

abbrev signed_payload : Payload Fields
signed_payload = record {
  agent = some "retrieval.query";
  task = some "fees";
  params = some (scope_params query);
}

abbrev body : Body Fields
body = record {
  version = some 1;
  payload = some signed_payload;
  nonce = "abcdefghij-_0123";
  timestamp = "1970-01-01T00:16:40Z";
  pubkey = "K";
  signature = "good";
}

abbrev ann : Principal
ann = record {
  principal_id = "ann";
  tenant_id = "acme";
  client_id = "ask";
  scopes = "retrieval.query" ∷ [];
  auth_method = "ap2";
  expires_at = 1300;
}

abbrev nonces : List Nonce
nonces = record { client_id = "ask"; nonce = "abcdefghij-_0123"; expires_at = 1300 } ∷ []

abbrev codec : TokenCodec
codec = record { encode = λ c. "p"; decode = λ s. none; hmac = λ k e. "s" }

identified : retrieval_principal wire codec cfg headers body (some query) [] ≡ (ok ann, nonces)
unfolding retrieval_principal bind_query signed_retrieval_binding assert_envelope_binds
    bound_principal verify_ap2_envelope check_stamp admit consume_nonce is_nonce_text nonce_matches
    trusts matches only_client client_principal grants_scope contains any filter spend sweep
    insert_row chars is_ascii
identified = refl

-- The signed query.
retrieval_identified_example :
    ((is_ap2 headers ≡ true)
      × IsVerified wire (retrieval_context cfg headers) body ann [] nonces
      × (q : Query) × (some query ≡ some q)
      × IsBound wire body "retrieval.query" q.query (scope_params q))
    ⊎ ((is_ap2 headers ≡ false)
        × (verify_principal_token codec cfg.token_key cfg.now (or_empty headers.principal_token)
            ≡ ok ann)
        × (has_scope ann "retrieval.query" ≡ true)
        × (nonces ≡ []))
retrieval_identified_example =
    retrieval_identified wire codec cfg headers body (some query) [] nonces ann identified

abbrev py : Python
py = record {
  str = λ v. "?";
  is_nonzero = λ n. not (n == "0");
  is_one = λ v. false;
  same = λ a b. false;
  natural = λ n. none;
  hostname = λ url. url;
  library = record {
    lower = λ s. s;
    strip = λ s. s;
    query_items = λ s. [];
    with_query = λ s q. s;
    sub_bearer = λ s. s;
    sub_sk = λ s. s;
    dumps = λ v. "?";
  };
}

abbrev vault_row : VaultRow
vault_row = record {
  chunk_id = "v1";
  content_sha256 = "ab12";
  vault_path = "fees.md";
  heading_path = "Rates";
  supersedes = [];
  score = 7;
  columns = field "content_text" (text "Fees are fixed.") end;
}

-- A row that Ann may see, and one that only Bob may.
abbrev shared_row : Chunk
shared_row = record {
  source_classification = none;
  drive_id = some "d1";
  file_id = some "f1";
  content_hash = some "h1";
  permissions_snapshot = some (record { public = false; principals = some ("ann" ∷ []) });
  score = 5;
  columns = field "chunk_id" (text "k1") end;
}

abbrev private_row : Chunk
private_row = record shared_row {
  file_id = some "f2";
  content_hash = some "h2";
  permissions_snapshot = some (record { public = false; principals = some ("bob" ∷ []) });
}

abbrev stores : Stores
stores = record {
  vault_rows = some (vault_row ∷ [], some 1000);
  backbone_rows = some (shared_row ∷ private_row ∷ []);
  min_score = 4;
  staleness_seconds = 86400;
  now = 1010;
  isoformat = λ t. "1970-01-01T00:16:40+00:00";
}

abbrev IsFirst : VaultRow → Type 0
IsFirst r = r.chunk_id ≡ "v1"

abbrev in_drive : Chunk → Bool
in_drive r = or_empty r.drive_id == "d1"

-- The query of Ann, over both stores.
retrieval_query-IsServed_example :
    All
      (IsServed py IsFirst in_drive stores Hint.any ann)
      (retrieval_query py stores query ann).chunks
retrieval_query-IsServed_example =
    retrieval_query-IsServed py IsFirst in_drive stores query ann
      (λ rows updated e. let same : vault_row ∷ [] ≡ rows = cc in rw (← same) (refl, tt))
      (λ rows e.
        let same : shared_row ∷ private_row ∷ [] ≡ rows = cc in rw (← same) (refl, (refl, tt)))

answered : map (λ c. c.chunk_id) (retrieval_query py stores query ann).chunks ≡ "v1" ∷ "k1" ∷ []
unfolding retrieval_query compute_staleness vault_chunks row_to_chunk safe_content fan_out
    query_knowledge_backbone row_to_kb_chunk resolve filter_by_permission has_matching_access
    dedup_and_precede dedup_by_identity put_all put_identity dedup_by_content_hash_with_precedence
    group_all add_to_groups pick max_by_score filter contains get_field str_of or_blank truth
answered = refl
