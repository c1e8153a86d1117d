-- ===== src/Gateway/Identity.antt =====
-- Who calls, by main.py: the gateway's keys, AP2 envelopes bound to the request, continuation tokens,
-- and the admin scope.
use genesis_agents.Base.{
  ℕ, String, Bool, true, false, not, ◌||◌, Option, none, some, List, ◌==◌, if◌then◌else◌,
}
use genesis_agents.Base.Json.{Json, Fields}
use genesis_agents.Base.Result.{Result, ok, raise}
use genesis_agents.Text.{truthy, truthy?, or_empty}
use genesis_agents.Auth.Envelope.{
  AuthError, Principal, Context, Body, Wire, Nonce, verify_ap2_envelope, has_scope,
}
use genesis_agents.Auth.Tokens.{
  TokenCodec, compare_digest, verify_principal_token, legacy_gateway_principal,
}
use genesis_agents.Gateway.Http.{
  HttpError, Detail, http, Python, get, has, pop, as_dict, or_blank, or_dict,
}

pub record Headers : Type 0 where
  pub api_key : Option String
  pub gateway_secret : Option String
  pub ap2_version : Option String
  pub ap2_pubkey : Option String
  pub principal_token : Option String

-- The environment of the process, an unset variable being the empty text, and the clock. The headers
-- and the scope of `context` are filled in for each request.
pub record Config : Type 0 where
  pub gateway_api_key : String
  pub agent_gateway_secret : String
  pub token_key : String
  pub context : Context
  pub now : ℕ

-- One comparison of a secret: the TypeError of compare_digest is the status 500.
abbrev pub key_test : String → String → Result HttpError Bool
key_test given expected = elim (compare_digest given expected) [
  | raise e ↦ raise (http 500 "Internal Server Error")
  | ok b ↦ ok b
]

abbrev pub key_or :
    Result HttpError Bool → Result HttpError (Unit {0}) → Result HttpError (Unit {0})
key_or (raise e) next = raise e
key_or (ok true) next = ok tt
key_or (ok false) next = next

unfoldable pub verify_gateway_key : Config → Headers → Result HttpError (Unit {0})
verify_gateway_key cfg h =
    let refusal = raise (http 401 "Invalid or missing X-Agent-Api-Key") in
    if not (truthy cfg.gateway_api_key)
    then raise (http 503 "Gateway authentication is not configured")
    else key_or (key_test (or_empty h.api_key) cfg.gateway_api_key) (
        if truthy cfg.agent_gateway_secret
        then key_or (key_test (or_empty h.gateway_secret) cfg.agent_gateway_secret) refusal
        else refusal)

-- An AuthenticationError is caught; a TypeError is not.
abbrev pub auth_status : AuthError → HttpError
auth_status AuthError.type_error = http 500 "Internal Server Error"
auth_status e = record { status = 401; detail = Detail.auth e }

-- The runtime task without its description, where the signed parameters have none.
unfoldable pub unsigned_runtime : Fields → Fields → Fields
unfolding pop
unsigned_runtime runtime_task signed_params =
    if has "description" signed_params then runtime_task else pop "description" runtime_task

-- The context of one request.
abbrev pub request_context : Config → Headers → Context
request_context cfg h = record (cfg.context) {
  header_version = or_empty h.ap2_version;
  header_pubkey = or_empty h.ap2_pubkey;
  required_scope = "agent.invoke";
}

abbrev pub is_ap2 : Headers → Bool
is_ap2 h = truthy? h.ap2_version || truthy? h.ap2_pubkey

-- A nonce that the envelope has spent stays spent where the binding fails.
unfoldable pub bound_principal :
    List Nonce
    → Result AuthError (Principal × List Nonce)
    → Result AuthError (Unit {0})
    → Result HttpError Principal × List Nonce
bound_principal nonces (raise e) binding = (raise (auth_status e), nonces)
bound_principal nonces (ok (principal, nonces')) (raise e) = (raise (auth_status e), nonces')
bound_principal nonces (ok (principal, nonces')) (ok u) = (ok principal, nonces')

module _ (py : Python) where
  -- The body as verify_ap2_envelope reads it. What is signed is the whole payload.
  unfoldable pub envelope_of : Fields → Body Fields
  unfolding or_blank
  envelope_of body = record {
    version = if py.is_one (get "version" body) then some 1 else none;
    payload = elim (as_dict (get "payload" body)) [
      | none ↦ none
      | some payload ↦ some (record {
        agent = some (or_blank py (get "agent" payload));
        task = some (or_blank py (get "task" payload));
        params = some payload;
      })
    ];
    nonce = or_blank py (get "nonce" body);
    timestamp = or_blank py (get "timestamp" body);
    pubkey = or_blank py (get "pubkey" body);
    signature = or_blank py (get "signature" body);
  }

  unfoldable pub bind_params : Json → Json → Result AuthError (Unit {0})
  unfolding unsigned_runtime
  bind_params runtime_task signed_params = elim (as_dict runtime_task) [
    | none ↦ raise AuthError.ap2_params_invalid
    | some task ↦ elim (as_dict signed_params) [
      | none ↦ raise AuthError.ap2_params_invalid
      | some signed ↦
          if py.same (unsigned_runtime task signed) signed
          then ok tt
          else raise AuthError.ap2_params_mismatch
    ]
  ]

  unfoldable pub assert_envelope_binds_request : Fields → String → Result AuthError (Unit {0})
  unfolding bind_params or_blank or_dict
  assert_envelope_binds_request body route_slug = elim (as_dict (or_dict py (get "payload" body))) [
    | none ↦ raise AuthError.ap2_envelope_invalid
    | some payload ↦
        if not (or_blank py (get "agent" payload) == route_slug)
        then raise AuthError.ap2_agent_mismatch
        else if not (or_blank py (get "task" payload) == or_blank py (get "prompt" body))
        then raise AuthError.ap2_task_mismatch
        else bind_params (or_dict py (get "task" body)) (or_dict py (get "params" payload))
  ]

  unfoldable pub ap2_principal :
      Wire Fields → Context → Fields → String → List Nonce → Result HttpError Principal × List Nonce
  unfolding envelope_of verify_ap2_envelope assert_envelope_binds_request bound_principal
  ap2_principal wire context body slug nonces =
      bound_principal nonces (verify_ap2_envelope wire context (envelope_of body) nonces)
        (assert_envelope_binds_request body slug)

  unfoldable pub verify_agent_principal :
      Wire Fields
      → Config
      → Headers
      → Fields
      → String
      → List Nonce
      → Result HttpError Principal × List Nonce
  unfolding ap2_principal verify_gateway_key legacy_gateway_principal
  verify_agent_principal wire cfg h body slug nonces =
      if is_ap2 h
      then ap2_principal wire (request_context cfg h) body slug nonces
      else elim (verify_gateway_key cfg h) [
        | raise e ↦ (raise e, nonces)
        | ok u ↦ (ok (legacy_gateway_principal cfg.now), nonces)
      ]

unfoldable pub verify_continuation_principal :
    TokenCodec → Config → Headers → Result HttpError Principal
unfolding verify_gateway_key verify_principal_token legacy_gateway_principal
verify_continuation_principal codec cfg h =
    if truthy? h.principal_token
    then elim (verify_principal_token codec cfg.token_key cfg.now (or_empty h.principal_token)) [
      | raise e ↦ raise (auth_status e)
      | ok p ↦ ok p
    ]
    else elim (verify_gateway_key cfg h) [
      | raise e ↦ raise e
      | ok u ↦ ok (legacy_gateway_principal cfg.now)
    ]

unfoldable pub require_admin : Principal → Result HttpError (Unit {0})
unfolding has_scope
require_admin p = if has_scope p "admin" then ok tt else raise (http 403 "admin access required")
