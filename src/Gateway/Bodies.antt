-- ===== src/Gateway/Bodies.antt =====
-- Dictionaries of main.py after a write, and what the identity of a caller does not read.
use genesis_agents.Base.{
  ◌≡◌, refl, ap, ◌∙◌, String, false, some, List, ◌==◌, arith, eq_iff, if◌then◌else◌, Bool-cases,
  inl, inr,
}
use genesis_agents.Base.Json.{Json, Fields, end, field}
use genesis_agents.Envelope.Values.{get_field}
use genesis_agents.Auth.Envelope.{Wire, Nonce, verify_ap2_envelope}
use genesis_agents.Gateway.Http.{Python, put, get}
use genesis_agents.Gateway.Identity.{
  Headers, Config, envelope_of, assert_envelope_binds_request, verify_agent_principal,
  ap2_principal, bound_principal, is_ap2, request_context,
}

pub get_field-put :
    (k j : String) (v : Json) (fs : Fields)
    → get_field j (put k v fs) ≡ (if k == j then some v else get_field j fs)
unfolding get_field put
get_field-put k j v end = refl
get_field-put k j v (field i w fs) =
    ground (arith, eq_iff k j, eq_iff i k, eq_iff i j, get_field-put k j v fs)

pub get-put_ne :
    (k j : String) (v : Json) (fs : Fields) → (k == j) ≡ false → get j (put k v fs) ≡ get j fs
get-put_ne k j v fs h = rw (get_field-put k j v fs, h)

module _ (py : Python) (body body' : Fields) (slug : String) where
  -- Two bodies with one envelope and one answer of the binding have one identity.
  pub same_identity :
      envelope_of py body ≡ envelope_of py body'
      → assert_envelope_binds_request py body slug ≡ assert_envelope_binds_request py body' slug
      → (wire : Wire Fields) (cfg : Config) (h : Headers) (nonces : List Nonce)
      → verify_agent_principal py wire cfg h body slug nonces
        ≡ verify_agent_principal py wire cfg h body' slug nonces
  unfolding verify_agent_principal ap2_principal
  same_identity e b wire cfg h nonces = elim (Bool-cases (is_ap2 h)) [
    | inl a ↦ rw a (
        ap
          (λ x.
            bound_principal nonces (verify_ap2_envelope wire (request_context cfg h) x nonces)
              (assert_envelope_binds_request py body slug))
          e
        ∙ ap
            (bound_principal nonces
              (verify_ap2_envelope wire (request_context cfg h) (envelope_of py body') nonces))
            b)
    | inr a ↦ rw a
  ]

module _ (py : Python) (v : Json) (body : Fields) where
  envelope_of-put : envelope_of py (put "params" v body) ≡ envelope_of py body
  unfolding envelope_of
  envelope_of-put = rw (
    get-put_ne "params" "version" v body refl,
    get-put_ne "params" "payload" v body refl,
    get-put_ne "params" "nonce" v body refl,
    get-put_ne "params" "timestamp" v body refl,
    get-put_ne "params" "pubkey" v body refl,
    get-put_ne "params" "signature" v body refl,
  )

  binds-put :
      (slug : String)
      → assert_envelope_binds_request py (put "params" v body) slug
        ≡ assert_envelope_binds_request py body slug
  unfolding assert_envelope_binds_request
  binds-put slug = ground (
    arith,
    get-put_ne "params" "payload" v body refl,
    get-put_ne "params" "prompt" v body refl,
    get-put_ne "params" "task" v body refl,
  )

  -- The field `params` of the body has no part in the identity of the caller.
  pub verify_agent_principal-put :
      (wire : Wire Fields) (cfg : Config) (h : Headers) (slug : String) (nonces : List Nonce)
      → verify_agent_principal py wire cfg h (put "params" v body) slug nonces
        ≡ verify_agent_principal py wire cfg h body slug nonces
  verify_agent_principal-put wire cfg h slug nonces =
      same_identity py (put "params" v body) body slug envelope_of-put (binds-put slug) wire cfg h
        nonces
