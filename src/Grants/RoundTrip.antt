-- ===== src/Grants/RoundTrip.antt =====
-- A grant of runtime/action_grants.py, from its issue to its use.
use genesis_agents.Base.{
  ℕ, ◌+◌, ◌≤◌, ◌≡◌, refl, sym, ap, ◌∙◌, String, true, false, ◌||◌, Option, none, some, List, [],
  ◌∷◌, ◌++◌, ◌==◌, get_or, ltb, arith, any, min, max, ==_refl, subst,
}
use genesis_agents.Base.Result.{Result, ok, raise}
use genesis_agents.Text.{or_empty, chars, is_ascii, has_dot, dotted, split_dots-dotted}
use genesis_agents.Replay.{spend-free, sweep}
use genesis_agents.Grants.Token.{
  GrantError, Claims, Spent, Site, Health, insert_grant, in_health, spend_jti, Codec, Request,
  grant_claims, issue_action_grant, open_grant, check_parts, check_claims, check_equal,
  spend_claims, grant_row, consume_action_grant, usable, postgres,
}
use genesis_agents.Grants.Laws.{IsSigned}
use genesis_agents.Grants.Accepted.{middle, accepted}

-- The lifetime that a grant gets.
abbrev pub lifetime : ℕ → ℕ
lifetime ttl_seconds = min (max 1 ttl_seconds) 300

abbrev claim : (Claims → Option String) → Option Claims → String
claim f none = ""
claim f (some c) = or_empty (f c)

abbrev expiry : Option Claims → ℕ
expiry none = 0
expiry (some c) = get_or c.exp 0

-- What a transaction goes on with, given the answer.
abbrev answered :
    String → Result GrantError (Unit {0} × List Spent) → Result GrantError (String × List Spent)
answered a (ok (u, rows)) = ok (a, rows)
answered a (raise e) = raise e

insert_free :
    (now : ℕ) (row : Spent) (rows : List Spent)
    → any
        (λ (q : Spent). q.jti == row.jti)
        (sweep (λ (q : Spent). q.jti) (λ (q : Spent). q.expires_at) ◌==◌ now rows)
      ≡ false
    → insert_grant now row rows
      ≡ ok (
        tt,
        sweep (λ (q : Spent). q.jti) (λ (q : Spent). q.expires_at) ◌==◌ now rows ++ (row ∷ []),
      )
unfolding insert_grant
insert_free now row rows free = rw (
  insert_grant,
  spend-free (λ (q : Spent). q.jti) (λ (q : Spent). q.expires_at) ◌==◌ now row rows free,
)

module _ {Args : Type 0} (codec : Codec Args) where
  open codec use {encode, decode, hmac, digest}

  -- What the codec does with one payload: JSON in base64 reads back, with no dot, in ASCII.
  pub record Encodes (key : String) (c : Claims) : Type 0 where
    pub reads_back : decode (encode c) ≡ some c
    pub no_dot : has_dot (encode c) ≡ false
    pub ascii_signature : is_ascii (hmac key (encode c)) ≡ true

  -- The texts of a request can be compared by compare_digest.
  pub record IsPlain (r : Request Args) : Type 0 where
    pub principal : is_ascii r.principal_id ≡ true
    pub tenant : is_ascii r.tenant_id ≡ true
    pub tool : is_ascii r.tool ≡ true
    pub arguments : is_ascii (digest r.tool r.args) ≡ true

  parts_issued :
      (key : String) (c : Claims)
      → 32 ≤ chars key
      → Encodes key c
      → check_parts codec key "genesis-action-v1" (encode c) (hmac key (encode c)) ≡ ok c
  unfolding check_parts
  parts_issued key c long e =
      let short : ltb (chars key) 32 ≡ false = ground arith in
      rw (short, e.ascii_signature, ==_refl (hmac key (encode c)), e.reads_back)

  open_issued :
      (key : String) (c : Claims)
      → 32 ≤ chars key
      → Encodes key c
      → open_grant codec key (dotted "genesis-action-v1" (encode c) (hmac key (encode c))) ≡ ok c
  unfolding open_grant
  open_issued key c long e =
      rw
        (
          open_grant,
          split_dots-dotted "genesis-action-v1" (encode c) (hmac key (encode c))
              (unfold has_dot in refl) e.no_dot,
        )
        (parts_issued key c long e)

  check_equal_refl :
      (s : String) (error : GrantError) (next : Result GrantError Claims)
      → is_ascii s ≡ true
      → check_equal codec (some s) s error next ≡ next
  check_equal_refl s error next a = rw (a, ==_refl s)

  check_issued :
      (now now' ttl_seconds : ℕ) (jti authorization_id : String) (r : Request Args)
      → IsPlain r
      → now ≤ now'
      → now' ≤ now + lifetime ttl_seconds
      → check_claims codec now' r (grant_claims codec now ttl_seconds jti authorization_id r)
        ≡ ok (grant_claims codec now ttl_seconds jti authorization_id r)
  unfolding check_claims grant_claims
  check_issued now now' ttl_seconds jti authorization_id r plain h h' =
      let live : (ltb (now + lifetime ttl_seconds) now' || ltb (now' + 60) now) ≡ false =
        ground arith in
      rw live (
        check_equal_refl r.principal_id _ _ plain.principal
        ∙ (check_equal_refl r.tenant_id _ _ plain.tenant
            ∙ (check_equal_refl r.tool _ _ plain.tool
                ∙ check_equal_refl (digest r.tool r.args) _ _ plain.arguments)))

  spend_issued :
      (now now' ttl_seconds : ℕ) (jti authorization_id : String) (r : Request Args)
      (rows : List Spent)
      → any
          (λ (q : Spent). q.jti == jti)
          (sweep (λ (q : Spent). q.jti) (λ (q : Spent). q.expires_at) ◌==◌ now' rows)
        ≡ false
      → spend_claims codec postgres usable now' r
          (grant_claims codec now ttl_seconds jti authorization_id r)
          rows
        ≡ ok (
          authorization_id,
          sweep (λ (q : Spent). q.jti) (λ (q : Spent). q.expires_at) ◌==◌ now' rows
              ++ (grant_row codec now' r jti (now + lifetime ttl_seconds) ∷ []),
        )
  unfolding spend_claims spend_jti in_health grant_claims
  spend_issued now now' ttl_seconds jti authorization_id r rows free =
      ap (answered authorization_id)
        (insert_free now' (grant_row codec now' r jti (now + lifetime ttl_seconds)) rows free)

  token_issued :
      (key : String) (now ttl_seconds : ℕ) (jti authorization_id token : String) (r : Request Args)
      → issue_action_grant codec key now ttl_seconds jti authorization_id r ≡ ok token
      → (let encoded = encode (grant_claims codec now ttl_seconds jti authorization_id r) in
          token ≡ dotted "genesis-action-v1" encoded (hmac key encoded))
  unfolding issue_action_grant
  token_issued key now ttl_seconds jti authorization_id token r h = ground arith

  -- The payload under a signature is the one that was encoded.
  payload_issued :
      (key : String) (c c' : Claims)
      → Encodes key c
      → IsSigned codec key (dotted "genesis-action-v1" (encode c) (hmac key (encode c))) c'
      → some c ≡ some c'
  payload_issued key c c' e s =
      let same : some ("genesis-action-v1", encode c, hmac key (encode c))
          ≡ some ("genesis-action-v1", s.encoded, hmac key s.encoded) =
        sym (
          split_dots-dotted "genesis-action-v1" (encode c) (hmac key (encode c))
            (unfold has_dot in refl) e.no_dot)
        ∙ s.parts in
      sym e.reads_back ∙ (ap decode (ap middle same) ∙ s.payload)

  -- A grant that was issued under a key of at least 32 characters is accepted for the request it was
  -- issued for, under that key, from its issue until its lifetime is over, which is from 1 to 300
  -- seconds whatever was asked for; the answer is the authorization id, and the id goes into the
  -- table. Conditions: the codec encodes its payload, the texts are ASCII, the id is not in the table
  -- and the Postgres store is usable.
  pub issue-consume :
      (key : String) (now now' ttl_seconds : ℕ) (jti authorization_id : String) (r : Request Args)
      (rows : List Spent)
      → 32 ≤ chars key
      → Encodes key (grant_claims codec now ttl_seconds jti authorization_id r)
      → IsPlain r
      → now ≤ now'
      → now' ≤ now + lifetime ttl_seconds
      → any
          (λ (q : Spent). q.jti == jti)
          (sweep (λ (q : Spent). q.jti) (λ (q : Spent). q.expires_at) ◌==◌ now' rows)
        ≡ false
      → (token : String) × (issue_action_grant codec key now ttl_seconds jti authorization_id r
          ≡ ok token)
        × (consume_action_grant codec postgres usable key now' r token rows
            ≡ ok (
              authorization_id,
              sweep (λ (q : Spent). q.jti) (λ (q : Spent). q.expires_at) ◌==◌ now' rows
                  ++ (grant_row codec now' r jti (now + lifetime ttl_seconds) ∷ []),
            ))
        × (1 ≤ lifetime ttl_seconds)
        × (lifetime ttl_seconds ≤ 300)
  unfolding issue_action_grant consume_action_grant
  issue-consume key now now' ttl_seconds jti authorization_id r rows long e plain h h' free = (
    dotted "genesis-action-v1" (encode c) (hmac key (encode c)),
    ground arith,
    rw
        (
          consume_action_grant,
          open_issued key c long e,
          check_issued now now' ttl_seconds jti authorization_id r plain h h',
        )
        (spend_issued now now' ttl_seconds jti authorization_id r rows free),
    omega arith,
    omega arith,
  )
    where
      c : Claims
      c = grant_claims codec now ttl_seconds jti authorization_id r

  -- A grant issued for one request is accepted only for that principal, that tenant, that tool and
  -- those arguments, and only until its lifetime is over. Conditions: the codec encodes its payload,
  -- and the digest tells tools and arguments apart.
  pub bound_to_request :
      (key : String) (now now' ttl_seconds : ℕ) (jti authorization_id : String)
      (r r' : Request Args) (at : Site) (health : Health) (token a : String)
      (rows rows' : List Spent)
      → Encodes key (grant_claims codec now ttl_seconds jti authorization_id r)
      → ((tool tool' : String) (args args' : Args)
          → digest tool args ≡ digest tool' args'
          → args ≡ args')
      → issue_action_grant codec key now ttl_seconds jti authorization_id r ≡ ok token
      → consume_action_grant codec at health key now' r' token rows ≡ ok (a, rows')
      → (r'.principal_id ≡ r.principal_id)
        × (r'.tenant_id ≡ r.tenant_id)
        × (r'.tool ≡ r.tool)
        × (r'.args ≡ r.args)
        × (now' ≤ now + lifetime ttl_seconds)
        × (a ≡ authorization_id)
  unfolding grant_claims issue_action_grant
  bound_to_request key now now' ttl_seconds jti authorization_id r r' at health token a rows rows' e
        injective issued used =
      let same : token ≡ _ = token_issued key now ttl_seconds jti authorization_id token r issued in
      let x = accepted codec at health key now' r' token a rows rows' used in
      let claims : some (grant_claims codec now ttl_seconds jti authorization_id r)
          ≡ some x.claims =
        payload_issued key _ x.claims e
          (subst (λ t. IsSigned codec key t x.claims) same x.signed) in
      (
        sym x.matches.principal ∙ sym (ap (claim (λ c. c.sub)) claims),
        sym x.matches.tenant ∙ sym (ap (claim (λ c. c.tenant)) claims),
        sym x.matches.tool ∙ sym (ap (claim (λ c. c.tool)) claims),
        injective r'.tool r.tool r'.args r.args
            (sym x.matches.arguments ∙ sym (ap (claim (λ c. c.args_digest)) claims)),
        subst (λ t. now' ≤ t) (sym (ap expiry claims)) x.matches.fresh,
        x.answer ∙ sym (ap (claim (λ c. c.authorization_id)) claims),
      )
