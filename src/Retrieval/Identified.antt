-- ===== src/Retrieval/Identified.antt =====
-- What stands behind a principal of retrieval_route.py.
use genesis_agents.Base.{
  ◌≡◌, ◌⊎◌, refl, inl, inr, true, false, Option, none, some, List, arith, Bool-cases,
}
use genesis_agents.Base.Json.{Fields}
use genesis_agents.Base.Result.{ok, Result-cases}
use genesis_agents.Text.{or_empty}
use genesis_agents.Auth.Envelope.{Principal, Body, Wire, Nonce, has_scope}
use genesis_agents.Auth.Tokens.{TokenCodec, verify_principal_token}
use genesis_agents.Auth.Verified.{IsVerified, IsBound, verified, binds_exactly}
use genesis_agents.Gateway.Identity.{Headers, Config, is_ap2}
use genesis_agents.Gateway.Identified.{bound_principal-ok}
use genesis_agents.Retrieval.Identity.{
  Query, scope_params, retrieval_scope, retrieval_envelope_agent, retrieval_context,
  signed_retrieval_binding, bind_query, retrieval_principal,
}

module _ (wire : Wire Fields) where
  bind_query-ok :
      (body : Body Fields) (parsed : Option Query)
      → bind_query wire body parsed ≡ ok tt
      → (q : Query) × (parsed ≡ some q)
        × IsBound wire body retrieval_envelope_agent q.query (scope_params q)
  unfolding bind_query signed_retrieval_binding
  bind_query-ok body none h = cc
  bind_query-ok body (some q) h =
      (q, refl, (binds_exactly wire body retrieval_envelope_agent q.query (scope_params q)).0 h)

  -- A principal of the retrieval route stands on one of two things. With an AP2 header, on a verified
  -- envelope for the scope retrieval.query, whose nonce is spent, and whose payload names the
  -- retrieval agent, the text of the query and, as its parameters, the canonical JSON of all five
  -- fields of its scope. Without one, on a continuation token that verifies and has the scope; then no
  -- nonce is spent. A key of the gateway is not enough.
  pub retrieval_identified :
      (codec : TokenCodec) (cfg : Config) (h : Headers) (body : Body Fields) (parsed : Option Query)
      (nonces nonces' : List Nonce) (p : Principal)
      → retrieval_principal wire codec cfg h body parsed nonces ≡ (ok p, nonces')
      → ((is_ap2 h ≡ true)
          × IsVerified wire (retrieval_context cfg h) body p nonces nonces'
          × (q : Query) × (parsed ≡ some q)
          × IsBound wire body "retrieval.query" q.query (scope_params q))
        ⊎ ((is_ap2 h ≡ false)
            × (verify_principal_token codec cfg.token_key cfg.now (or_empty h.principal_token)
                ≡ ok p)
            × (has_scope p "retrieval.query" ≡ true)
            × (nonces' ≡ nonces))
  unfolding retrieval_principal
  retrieval_identified codec cfg h body parsed nonces nonces' p e = elim (Bool-cases (is_ap2 h)) [
    | inl a ↦
        let (v, b) = bound_principal-ok nonces nonces' _ _ p (rw a at e) in
        let (q, read, bound) = bind_query-ok body parsed b in
        inl (a, verified wire (retrieval_context cfg h) body p nonces nonces' v, q, read, bound)
    | inr a ↦
        elim (Result-cases
          (verify_principal_token codec cfg.token_key cfg.now (or_empty h.principal_token))) [
            | inl (x, v) ↦ absurd (ground arith)
            | inr (q, v) ↦ elim (Bool-cases (has_scope q retrieval_scope)) [
              | inl s ↦
                  let same : q ≡ p = ground arith in
                  inr (a, rw (← same) v, rw (← same) s, ground arith)
              | inr s ↦ absurd (ground arith)
            ]
          ]
  ]
