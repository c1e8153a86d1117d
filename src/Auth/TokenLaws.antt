-- ===== src/Auth/TokenLaws.antt =====
-- A principal token of runtime/request_auth.py, from its issue to its use.
use genesis_agents.Base.{
  ℕ, ◌+◌, ◌≤◌, ◌≡◌, refl, String, true, false, some, ltb, if◌then◌else◌, arith, ==_refl, Bool-cases,
  inl, inr,
}
use genesis_agents.Base.Result.{ok, raise}
use genesis_agents.Text.{chars, is_ascii, truthy, has_dot, dotted, split_dots-dotted}
use genesis_agents.Auth.Envelope.{AuthError, Principal}
use genesis_agents.Auth.Tokens.{
  TokenClaims, TokenCodec, token_lifetime, token_claims, check_token, issue_principal_token,
  token_parts, open_token, verify_principal_token,
}

-- The principal that a token carries on.
abbrev pub continued : Principal → ℕ → Principal
continued p expires_at = record p { auth_method = "principal_token"; expires_at = expires_at }

module _ (codec : TokenCodec) where
  open codec use {encode, decode, hmac}

  -- What the codec does with one payload: JSON in base64 reads back, with no dot, in ASCII.
  pub record Encodes (key : String) (c : TokenClaims) : Type 0 where
    pub reads_back : decode (encode c) ≡ some c
    pub no_dot : has_dot (encode c) ≡ false
    pub ascii_payload : is_ascii (encode c) ≡ true
    pub ascii_signature : is_ascii (hmac key (encode c)) ≡ true

  token_parts_issued :
      (key : String) (c : TokenClaims)
      → 32 ≤ chars key
      → Encodes key c
      → token_parts codec key "genesis-principal-v1" (encode c) (hmac key (encode c)) ≡ ok c
  unfolding token_parts
  token_parts_issued key c long e =
      let short : ltb (chars key) 32 ≡ false = ground arith in
      rw (short, e.ascii_payload, e.ascii_signature, ==_refl (hmac key (encode c)), e.reads_back)

  open_token_issued :
      (key : String) (c : TokenClaims)
      → 32 ≤ chars key
      → Encodes key c
      → open_token codec key (dotted "genesis-principal-v1" (encode c) (hmac key (encode c))) ≡ ok c
  unfolding open_token
  open_token_issued key c long e =
      rw
        (
          open_token,
          split_dots-dotted "genesis-principal-v1" (encode c) (hmac key (encode c))
              (unfold has_dot in refl) e.no_dot,
        )
        (token_parts_issued key c long e)

  check_token_issued :
      (now now' ttl_seconds : ℕ) (p : Principal)
      → truthy p.principal_id ≡ true
      → truthy p.tenant_id ≡ true
      → now ≤ now' + 60
      → check_token now' (token_claims now ttl_seconds p) ≡ (
          if ltb (now + token_lifetime ttl_seconds) now'
          then raise AuthError.principal_token_expired
          else ok (continued p (now + token_lifetime ttl_seconds)))
  unfolding check_token token_claims
  check_token_issued now now' ttl_seconds p i t h =
      let begun : ltb (now' + 60) now ≡ false = ground arith in
      elim (Bool-cases (ltb (now + token_lifetime ttl_seconds) now')) [
        | inl b ↦ rw b refl
        | inr b ↦ rw (b, begun, i, t) refl
      ]

  -- A token issued under a key of at least 32 characters, for a principal with an id and a tenant,
  -- gives back that principal, with the same id, tenant, client and scopes, up to the end of its
  -- lifetime, and is refused as expired after it; the lifetime is at most 600 seconds. Conditions:
  -- the codec encodes its payload, and the verifying clock is at most a minute behind the issue.
  pub issue-verify :
      (key : String) (now now' ttl_seconds : ℕ) (p : Principal)
      → 32 ≤ chars key
      → Encodes key (token_claims now ttl_seconds p)
      → truthy p.principal_id ≡ true
      → truthy p.tenant_id ≡ true
      → now ≤ now' + 60
      → (token : String) × (issue_principal_token codec key now ttl_seconds p ≡ ok token)
        × (verify_principal_token codec key now' token ≡ (
            if ltb (now + token_lifetime ttl_seconds) now'
            then raise AuthError.principal_token_expired
            else ok (continued p (now + token_lifetime ttl_seconds))))
        × (token_lifetime ttl_seconds ≤ 600)
  unfolding issue_principal_token verify_principal_token
  issue-verify key now now' ttl_seconds p long e i t h =
      let c = token_claims now ttl_seconds p in
      (
        dotted "genesis-principal-v1" (encode c) (hmac key (encode c)),
        ground arith,
        rw (verify_principal_token, open_token_issued key c long e)
            (check_token_issued now now' ttl_seconds p i t h),
        omega arith,
      )
