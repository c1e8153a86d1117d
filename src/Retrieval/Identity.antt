-- ===== src/Retrieval/Identity.antt =====
-- _retrieval_principal of retrieval_route.py: an AP2 envelope that covers the query, or a
-- continuation token with the scope. What model_validate reads from the body is given, none where it
-- raises; a numeral is a text.
use genesis_agents.Base.{String, Bool, not, Option, none, some, List, if◌then◌else◌}
use genesis_agents.Base.Json.{Json, Fields, null, bool, number, text, end, field}
use genesis_agents.Base.Result.{Result, ok, raise}
use genesis_agents.Text.{truthy?, or_empty}
use genesis_agents.Auth.Envelope.{
  AuthError, Principal, Context, Body, Wire, Nonce, verify_ap2_envelope, assert_envelope_binds,
  has_scope,
}
use genesis_agents.Auth.Tokens.{TokenCodec, verify_principal_token}
use genesis_agents.Gateway.Http.{HttpError, http}
use genesis_agents.Gateway.Identity.{
  Headers, Config, auth_status, request_context, is_ap2, bound_principal,
}

pub data Hint : Type 0 where
  vault drive any : Hint

-- RetrievalQueryRequest
pub record Query : Type 0 where
  pub query : String
  pub top_k : String
  pub entity_filter : Option String
  pub include_superseded : Bool
  pub domain_hint : Hint
  pub requesting_principal : Option String

abbrev pub retrieval_scope : String
retrieval_scope = "retrieval.query"

abbrev pub retrieval_envelope_agent : String
retrieval_envelope_agent = "retrieval.query"

abbrev hint_text : Hint → String
hint_text vault = "vault"
hint_text drive = "drive"
hint_text any = "any"

abbrev text_or_null : Option String → Json
text_or_null none = null
text_or_null (some s) = text s

-- The signed scope of a query.
abbrev pub scope_params : Query → Fields
scope_params q = field "top_k" (number q.top_k) (
    field "entity_filter" (text_or_null q.entity_filter) (
      field "include_superseded" (bool q.include_superseded) (
        field "domain_hint" (text (hint_text q.domain_hint))
          (field "requesting_principal" (text_or_null q.requesting_principal) end))))

unfoldable pub signed_retrieval_binding : Option Query → Result AuthError (String × Fields)
signed_retrieval_binding none = raise AuthError.ap2_params_invalid
signed_retrieval_binding (some q) = ok (q.query, scope_params q)

abbrev pub retrieval_context : Config → Headers → Context
retrieval_context cfg h = record (request_context cfg h) { required_scope = retrieval_scope }

module _ (wire : Wire Fields) where
  unfoldable pub bind_query : Body Fields → Option Query → Result AuthError (Unit {0})
  unfolding signed_retrieval_binding assert_envelope_binds
  bind_query body parsed = elim (signed_retrieval_binding parsed) [
    | raise e ↦ raise e
    | ok (task, params) ↦ assert_envelope_binds wire body retrieval_envelope_agent task params
  ]

  unfoldable pub retrieval_principal :
      TokenCodec
      → Config
      → Headers
      → Body Fields
      → Option Query
      → List Nonce
      → Result HttpError Principal × List Nonce
  unfolding verify_ap2_envelope bind_query bound_principal verify_principal_token has_scope
  retrieval_principal codec cfg h body parsed nonces =
      if is_ap2 h
      then bound_principal nonces (verify_ap2_envelope wire (retrieval_context cfg h) body nonces)
          (bind_query body parsed)
      else if not (truthy? h.principal_token)
      then (raise (http 401 "principal token required"), nonces)
      else elim (verify_principal_token codec cfg.token_key cfg.now (or_empty h.principal_token)) [
        | raise e ↦ (raise (auth_status e), nonces)
        | ok p ↦
            if not (has_scope p retrieval_scope)
            then (raise (http 403 "principal scope denied"), nonces)
            else (ok p, nonces)
      ]
