-- ===== src/Gateway/Identified.antt =====
-- What stands behind a principal of main.py.
use genesis_agents.Base.{
  ◌≡◌, ◌⊎◌, refl, inl, inr, String, Bool, true, false, some, List, arith, eq_iff, Bool-cases,
  Option-cases, if◌then◌else◌,
}
use genesis_agents.Base.Json.{Fields}
use genesis_agents.Base.Result.{Result, ok, raise, Result-cases}
use genesis_agents.Text.{truthy, or_empty}
use genesis_agents.Auth.Envelope.{AuthError, Principal, Wire, Nonce}
use genesis_agents.Auth.Tokens.{legacy_gateway_principal}
use genesis_agents.Auth.Verified.{IsVerified, verified}
use genesis_agents.Gateway.Http.{HttpError, Python, get, as_dict, or_blank, or_dict}
use genesis_agents.Gateway.Identity.{
  Headers, Config, key_test, key_or, verify_gateway_key, envelope_of, unsigned_runtime, bind_params,
  assert_envelope_binds_request, request_context, is_ap2, bound_principal, ap2_principal,
  verify_agent_principal,
}

-- One of the two keys of the gateway.
abbrev pub HasKey : Config → Headers → Type 0
HasKey cfg h =
    (truthy cfg.gateway_api_key ≡ true)
    × ((or_empty h.api_key ≡ cfg.gateway_api_key)
        ⊎ ((truthy cfg.agent_gateway_secret ≡ true)
            × (or_empty h.gateway_secret ≡ cfg.agent_gateway_secret)))

key_test-true : (a b : String) → key_test a b ≡ ok true → a ≡ b
key_test-true a b h = ground (arith, eq_iff a b)

key_or-ok :
    (r : Result HttpError Bool) (next : Result HttpError (Unit {0}))
    → key_or r next ≡ ok tt
    → (r ≡ ok true) ⊎ (next ≡ ok tt)
key_or-ok (ok true) next h = inl refl
key_or-ok (ok false) next h = inr h
key_or-ok (raise e) next h = cc

second_key :
    (cfg : Config) (h : Headers) (e : HttpError)
    → (if truthy cfg.agent_gateway_secret
        then key_or (key_test (or_empty h.gateway_secret) cfg.agent_gateway_secret) (raise e)
        else raise e)
      ≡ ok tt
    → (truthy cfg.agent_gateway_secret ≡ true)
      × (or_empty h.gateway_secret ≡ cfg.agent_gateway_secret)
second_key cfg h e p = elim (Bool-cases (truthy cfg.agent_gateway_secret)) [
  | inr n ↦ absurd (ground arith)
  | inl t ↦ elim (key_or-ok _ (raise e) (rw t at p)) [
    | inl k ↦ (t, key_test-true _ _ k)
    | inr n ↦ cc
  ]
]

pub verify_gateway_key-HasKey :
    (cfg : Config) (h : Headers) → verify_gateway_key cfg h ≡ ok tt → HasKey cfg h
unfolding verify_gateway_key
verify_gateway_key-HasKey cfg h e = elim (Bool-cases (truthy cfg.gateway_api_key)) [
  | inr n ↦ absurd (ground arith)
  | inl t ↦ elim (key_or-ok _ _ (rw t at e)) [
    | inl k ↦ (t, inl (key_test-true _ _ k))
    | inr n ↦ (t, inr (second_key cfg h _ n))
  ]
]

pub bound_principal-ok :
    (nonces nonces' : List Nonce) (r : Result AuthError (Principal × List Nonce))
    (b : Result AuthError (Unit {0})) (p : Principal)
    → bound_principal nonces r b ≡ (ok p, nonces')
    → (r ≡ ok (p, nonces')) × (b ≡ ok tt)
unfolding bound_principal
bound_principal-ok nonces nonces' (raise e) b p h = absurd (ground arith)
bound_principal-ok nonces nonces' (ok (q, n)) (raise e) p h = absurd (ground arith)
bound_principal-ok nonces nonces' (ok (q, n)) (ok u) p h = (ground arith, refl)

module _ (py : Python) where
  -- The signed payload covers the agent, the prompt and the parameters of the request.
  pub record IsSigned (body : Fields) (route_slug : String) : Type 0 where
    pub payload : Fields
    pub task : Fields
    pub signed : Fields
    pub has_payload : as_dict (or_dict py (get "payload" body)) ≡ some payload
    pub same_agent : or_blank py (get "agent" payload) ≡ route_slug
    pub same_task : or_blank py (get "task" payload) ≡ or_blank py (get "prompt" body)
    pub has_task : as_dict (or_dict py (get "task" body)) ≡ some task
    pub has_params : as_dict (or_dict py (get "params" payload)) ≡ some signed
    pub same_params : py.same (unsigned_runtime task signed) signed ≡ true

  binds-IsSigned :
      (body : Fields) (route_slug : String)
      → assert_envelope_binds_request py body route_slug ≡ ok tt
      → IsSigned body route_slug
  unfolding assert_envelope_binds_request bind_params
  binds-IsSigned body route_slug h =
      elim (Option-cases (as_dict (or_dict py (get "payload" body)))) [
        | inl n ↦ absurd (ground arith)
        | inr (payload, e) ↦ elim (Option-cases (as_dict (or_dict py (get "task" body)))) [
          | inl n ↦ absurd (ground arith)
          | inr (task, t) ↦ elim (Option-cases (as_dict (or_dict py (get "params" payload)))) [
            | inl n ↦ absurd (ground arith)
            | inr (signed, p) ↦ record {
              payload = payload;
              task = task;
              signed = signed;
              has_payload = e;
              same_agent = ground (arith, eq_iff (or_blank py (get "agent" payload)) route_slug);
              same_task = ground (
                arith,
                eq_iff (or_blank py (get "task" payload)) (or_blank py (get "prompt" body)),
              );
              has_task = t;
              has_params = p;
              same_params = ground arith;
            }
          ]
        ]
      ]

  -- A principal of /agents/{slug}/run or /agents/{slug}/jobs stands on one of two things. With an AP2
  -- header, on a verified envelope for the scope agent.invoke, whose nonce is spent, and whose signed
  -- payload names the route's agent, the body's prompt, and the body's task, up to an unsigned
  -- description, as its parameters. Without one, on a key of the gateway; then it is the legacy
  -- principal and no nonce is spent.
  pub agent_identified :
      (wire : Wire Fields) (cfg : Config) (h : Headers) (body : Fields) (slug : String)
      (nonces nonces' : List Nonce) (p : Principal)
      → verify_agent_principal py wire cfg h body slug nonces ≡ (ok p, nonces')
      → ((is_ap2 h ≡ true)
          × IsVerified wire (request_context cfg h) (envelope_of py body) p nonces nonces'
          × IsSigned body slug)
        ⊎ ((is_ap2 h ≡ false)
            × HasKey cfg h
            × (p ≡ legacy_gateway_principal cfg.now)
            × (nonces' ≡ nonces))
  unfolding verify_agent_principal ap2_principal
  agent_identified wire cfg h body slug nonces nonces' p e = elim (Bool-cases (is_ap2 h)) [
    | inl a ↦
        let (v, b) = bound_principal-ok nonces nonces' _ _ p (rw a at e) in
        inl (
          a,
          verified wire (request_context cfg h) (envelope_of py body) p nonces nonces' v,
          binds-IsSigned body slug b,
        )
    | inr a ↦ elim (Result-cases (verify_gateway_key cfg h)) [
      | inl (x, k) ↦ absurd (ground arith)
      | inr (u, k) ↦ inr (a, verify_gateway_key-HasKey cfg h k, ground arith, ground arith)
    ]
  ]
