-- ===== src/Auth/Verified.antt =====
-- verify_ap2_envelope and assert_envelope_binds of runtime/request_auth.py, read backwards.
use genesis_agents.Base.{
  ℕ, ◌+◌, ◌≤◌, ◌≡◌, ◌↔◌, refl, String, Bool, true, false, Option, none, some, List, [], ◌∷◌, eq_iff,
  filter, arith, Option-cases, inl, inr,
}
use genesis_agents.Base.Result.{Result, ok, raise}
use genesis_agents.Text.{or_empty}
use genesis_agents.Replay.{spend}
use genesis_agents.Auth.Envelope.{
  AuthError, Principal, Client, Nonce, Site, Context, Body, Payload, Wire, nonce_key, same_key,
  consume_nonce, nonce_matches, trusts, matches, only_client, client_principal, grants_scope, admit,
  check_stamp, verify_ap2_envelope, assert_envelope_binds, max_clock_skew_seconds,
}

abbrev pub spend_nonce : ℕ → Nonce → List Nonce → Option (List Nonce)
spend_nonce = spend nonce_key (λ r. r.expires_at) same_key

consume_nonce-ok :
    (site : Result AuthError Site) (usable : Bool) (now : ℕ) (row : Nonce) (rows rows' : List Nonce)
    (u : Unit {0})
    → consume_nonce site usable now row rows ≡ ok (u, rows')
    → spend_nonce now row rows ≡ some rows'
unfolding consume_nonce
consume_nonce-ok (raise e) usable now row rows rows' u h = cc
consume_nonce-ok (ok site) false now row rows rows' u h = cc
consume_nonce-ok (ok site) true now row rows rows' u h = ground arith

only_client-ok :
    (registry : Option (List Client)) (pubkey : String) (c : Client)
    → only_client registry pubkey ≡ ok c
    → (clients : List Client) × (registry ≡ some clients)
      × (filter (trusts pubkey) clients ≡ c ∷ [])
unfolding only_client matches
only_client-ok none pubkey c h = cc
only_client-ok (some clients) pubkey c h = (clients, refl, ground arith)

module _ {Params : Type 0} (wire : Wire Params) where
  -- What stands behind a principal.
  pub record IsVerified (x : Context) (body : Body Params) (p : Principal) (rows rows' : List Nonce)
      : Type 0 where
    pub payload : Payload Params
    pub has_payload : body.payload ≡ some payload
    pub nonce_shape : nonce_matches body.nonce ≡ true
    pub same_pubkey : body.pubkey ≡ x.header_pubkey
    pub stamped : ℕ
    pub has_stamp : wire.parse_timestamp body.timestamp ≡ some stamped
    pub not_late : x.current ≤ stamped + max_clock_skew_seconds
    pub not_early : stamped ≤ x.current + max_clock_skew_seconds
    pub clients : List Client
    pub has_registry : x.registry ≡ some clients
    pub client : Client
    pub only_one : filter (trusts body.pubkey) clients ≡ client ∷ []
    pub in_scope : grants_scope client.capabilities x.required_scope ≡ true
    pub signed : wire.signed_by body.pubkey body.signature payload body.nonce body.timestamp ≡ true
    pub answer : p ≡ client_principal client (stamped + max_clock_skew_seconds)
    pub spends :
        spend_nonce x.swept_at
          (record {
            client_id = client.client_id;
            nonce = body.nonce;
            expires_at = stamped + max_clock_skew_seconds;
          })
          rows
        ≡ some rows'

  admit-ok :
      (x : Context) (body : Body Params) (payload : Payload Params) (stamped : ℕ) (client : Client)
      (p : Principal) (rows rows' : List Nonce)
      → admit wire x body payload stamped client rows ≡ ok (p, rows')
      → (grants_scope client.capabilities x.required_scope ≡ true)
        × (wire.signed_by body.pubkey body.signature payload body.nonce body.timestamp ≡ true)
        × (p ≡ client_principal client (stamped + max_clock_skew_seconds))
        × (u : Unit {0}) × (consume_nonce x.site x.usable x.swept_at
              (record {
                client_id = client.client_id;
                nonce = body.nonce;
                expires_at = stamped + max_clock_skew_seconds;
              })
              rows
            ≡ ok (u, rows'))
  unfolding admit
  admit-ok x body payload stamped client p rows rows' h =
      (ground arith, ground arith, ground arith, tt, ground arith)

  check_stamp-ok :
      (x : Context) (body : Body Params) (payload : Payload Params) (stamped : ℕ) (p : Principal)
      (rows rows' : List Nonce)
      → check_stamp wire x body payload stamped rows ≡ ok (p, rows')
      → (x.current ≤ stamped + max_clock_skew_seconds)
        × (stamped ≤ x.current + max_clock_skew_seconds)
        × (client : Client) × (only_client x.registry body.pubkey ≡ ok client)
        × (admit wire x body payload stamped client rows ≡ ok (p, rows'))
  unfolding check_stamp
  check_stamp-ok x body payload stamped p rows rows' h =
      go (only_client x.registry body.pubkey) refl
    where
      go :
          (r : Result AuthError Client)
          → only_client x.registry body.pubkey ≡ r
          → (x.current ≤ stamped + max_clock_skew_seconds)
            × (stamped ≤ x.current + max_clock_skew_seconds)
            × (client : Client) × (only_client x.registry body.pubkey ≡ ok client)
            × (admit wire x body payload stamped client rows ≡ ok (p, rows'))
      go (raise e) eq = absurd (ground arith)
      go (ok c) eq = (ground arith, ground arith, c, eq, ground arith)

  verify-ok :
      (x : Context) (body : Body Params) (p : Principal) (rows rows' : List Nonce)
      → verify_ap2_envelope wire x body rows ≡ ok (p, rows')
      → (payload : Payload Params) × (stamped : ℕ) × (body.payload ≡ some payload)
        × (nonce_matches body.nonce ≡ true)
        × (body.pubkey ≡ x.header_pubkey)
        × (wire.parse_timestamp body.timestamp ≡ some stamped)
        × (check_stamp wire x body payload stamped rows ≡ ok (p, rows'))
  unfolding verify_ap2_envelope
  verify-ok x body p rows rows' h = elim (Option-cases body.payload) [
    | inl n ↦ absurd (ground arith)
    | inr (payload, e) ↦ elim (Option-cases (wire.parse_timestamp body.timestamp)) [
      | inl n ↦ absurd (ground arith)
      | inr (stamped, t) ↦ (
        payload,
        stamped,
        e,
        ground arith,
        ground (arith, eq_iff body.pubkey x.header_pubkey),
        t,
        ground arith,
      )
    ]
  ]

  -- verify_ap2_envelope returns a principal only for a body with a payload, a nonce of 16 to 128
  -- characters of the nonce alphabet, the public key of the header, a time stamp within 300 seconds
  -- of the clock, exactly one enabled client of the registry with that key, that client's scopes
  -- covering the required one, and a valid signature; then the principal is the client's, and its
  -- nonce was not in the swept table and now is in it until 300 seconds after the time stamp.
  pub verified :
      (x : Context) (body : Body Params) (p : Principal) (rows rows' : List Nonce)
      → verify_ap2_envelope wire x body rows ≡ ok (p, rows')
      → IsVerified x body p rows rows'
  verified x body p rows rows' h =
      let (payload, stamped, hp, shape, key, stamp, h1) = verify-ok x body p rows rows' h in
      let (late, early, client, only, h2) = check_stamp-ok x body payload stamped p rows rows' h1 in
      let (clients, registry, one) = only_client-ok x.registry body.pubkey client only in
      let (scope, signed, answer, u, h3) = admit-ok x body payload stamped client p rows rows' h2 in
      record {
        payload = payload;
        has_payload = hp;
        nonce_shape = shape;
        same_pubkey = key;
        stamped = stamped;
        has_stamp = stamp;
        not_late = late;
        not_early = early;
        clients = clients;
        has_registry = registry;
        client = client;
        only_one = one;
        in_scope = scope;
        signed = signed;
        answer = answer;
        spends = consume_nonce-ok x.site x.usable x.swept_at _ rows rows' u h3;
      }

  -- The signed payload covers what the route executes.
  pub record IsBound (body : Body Params) (agent task : String) (params : Params) : Type 0 where
    pub payload : Payload Params
    pub signed : Params
    pub has_payload : body.payload ≡ some payload
    pub same_agent : or_empty payload.agent ≡ agent
    pub same_task : or_empty payload.task ≡ task
    pub has_params : payload.params ≡ some signed
    pub same_params : wire.canonical signed ≡ wire.canonical params

  binds-IsBound :
      (body : Body Params) (agent task : String) (params : Params)
      → assert_envelope_binds wire body agent task params ≡ ok tt
      → IsBound body agent task params
  unfolding assert_envelope_binds
  binds-IsBound body agent task params h = elim (Option-cases body.payload) [
    | inl n ↦ absurd (ground arith)
    | inr (payload, e) ↦ elim (Option-cases payload.params) [
      | inl n ↦ absurd (ground arith)
      | inr (signed, s) ↦ record {
        payload = payload;
        signed = signed;
        has_payload = e;
        same_agent = ground (arith, eq_iff (or_empty payload.agent) agent);
        same_task = ground (arith, eq_iff (or_empty payload.task) task);
        has_params = s;
        same_params = ground (arith, eq_iff (wire.canonical signed) (wire.canonical params));
      }
    ]
  ]

  bound-binds :
      (body : Body Params) (agent task : String) (params signed : Params) (payload : Payload Params)
      → body.payload ≡ some payload
      → or_empty payload.agent ≡ agent
      → or_empty payload.task ≡ task
      → payload.params ≡ some signed
      → wire.canonical signed ≡ wire.canonical params
      → assert_envelope_binds wire body agent task params ≡ ok tt
  unfolding assert_envelope_binds
  bound-binds body agent task params signed payload e a t s c = ground (
    arith,
    eq_iff (or_empty payload.agent) agent,
    eq_iff (or_empty payload.task) task,
    eq_iff (wire.canonical signed) (wire.canonical params),
  )

  -- assert_envelope_binds accepts a body exactly when it has a payload whose agent and task are the
  -- texts of the route and whose params are a dictionary with the route's canonical JSON.
  pub binds_exactly :
      (body : Body Params) (agent task : String) (params : Params)
      → (assert_envelope_binds wire body agent task params ≡ ok tt) ↔ IsBound body agent task params
  binds_exactly body agent task params = (
    binds-IsBound body agent task params,
    λ b.
        bound-binds body agent task params b.signed b.payload b.has_payload b.same_agent b.same_task
          b.has_params b.same_params,
  )
