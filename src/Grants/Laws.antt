-- ===== src/Grants/Laws.antt =====
-- The signature and the checks of a grant of runtime/action_grants.py.
use genesis_agents.Base.{
  ℕ, ◌+◌, ◌≤◌, ◌≡◌, sym, ◌∙◌, String, not, ◌||◌, Option, some, ◌==◌, eq_iff, ltb, nat_eq, get_or,
  arith, Bool-cases, Option-cases, inl, inr,
}
use genesis_agents.Base.Result.{Result, ok}
use genesis_agents.Text.{chars, or_empty, split_dots}
use genesis_agents.Grants.Token.{
  GrantError, Claims, Codec, Request, check_parts, open_grant, check_claims, check_equal,
}

module _ {Args : Type 0} (codec : Codec Args) where
  open codec use {encode, decode, hmac, digest}

  -- A token with a valid signature.
  pub record IsSigned (key token : String) (c : Claims) : Type 0 where
    pub encoded : String
    pub parts : split_dots token ≡ some ("genesis-action-v1", encoded, hmac key encoded)
    pub payload : decode encoded ≡ some c
    pub long_key : 32 ≤ chars key

  -- A payload that is for the request, at a time.
  pub record IsFor (now : ℕ) (r : Request Args) (c : Claims) : Type 0 where
    pub version : get_or c.v 0 ≡ 1
    pub audience : or_empty c.aud ≡ "genesis-tool-dispatch"
    pub fresh : now ≤ get_or c.exp 0
    pub begun : get_or c.iat 0 ≤ now + 60
    pub principal : or_empty c.sub ≡ r.principal_id
    pub tenant : or_empty c.tenant ≡ r.tenant_id
    pub tool : or_empty c.tool ≡ r.tool
    pub arguments : or_empty c.args_digest ≡ digest r.tool r.args

  check_equal-ok :
      (actual : Option String) (required : String) (error : GrantError)
      (next : Result GrantError Claims) (c : Claims)
      → check_equal codec actual required error next ≡ ok c
      → (or_empty actual ≡ required) × (next ≡ ok c)
  check_equal-ok actual required error next c h = ground (arith, eq_iff (or_empty actual) required)

  -- The check of the identity, after that of version, audience and time.
  identity : Request Args → Claims → Result GrantError Claims
  identity r c = check_equal codec c.sub r.principal_id GrantError.grant_principal_mismatch (
      check_equal codec c.tenant r.tenant_id GrantError.grant_tenant_mismatch (
        check_equal codec c.tool r.tool GrantError.grant_tool_mismatch (
          check_equal codec c.args_digest (digest r.tool r.args) GrantError.grant_args_mismatch
            (ok c))))

  check_claims-times :
      (now : ℕ) (r : Request Args) (c c' : Claims)
      → check_claims codec now r c ≡ ok c'
      → (get_or c.v 0 ≡ 1)
        × (or_empty c.aud ≡ "genesis-tool-dispatch")
        × (now ≤ get_or c.exp 0)
        × (get_or c.iat 0 ≤ now + 60)
        × (identity r c ≡ ok c')
  unfolding check_claims identity
  check_claims-times now r c c' h =
      elim (Bool-cases
        (not (nat_eq (get_or c.v 0) 1) || not (or_empty c.aud == "genesis-tool-dispatch"))) [
          | inl b ↦ cc (rw b at h)
          | inr b ↦
              elim (Bool-cases (ltb (get_or c.exp 0) now || ltb (now + 60) (get_or c.iat 0))) [
                | inl t ↦ cc (rw (b, t) at h)
                | inr t ↦ (
                  ground arith,
                  ground (arith, eq_iff (or_empty c.aud) "genesis-tool-dispatch"),
                  ground arith,
                  ground arith,
                  rw (b, t) at h,
                )
              ]
        ]

  pub check_claims-IsFor :
      (now : ℕ) (r : Request Args) (c c' : Claims)
      → check_claims codec now r c ≡ ok c'
      → IsFor now r c × (c ≡ c')
  unfolding identity
  check_claims-IsFor now r c c' h =
      let (v, a, e, i, rest) = check_claims-times now r c c' h in
      let (p, rest1) = check_equal-ok c.sub r.principal_id _ _ c' rest in
      let (t, rest2) = check_equal-ok c.tenant r.tenant_id _ _ c' rest1 in
      let (l, rest3) = check_equal-ok c.tool r.tool _ _ c' rest2 in
      let (d, last) = check_equal-ok c.args_digest (digest r.tool r.args) _ _ c' rest3 in
      (
        record {
          version = v;
          audience = a;
          fresh = e;
          begun = i;
          principal = p;
          tenant = t;
          tool = l;
          arguments = d;
        },
        cc,
      )

  check_parts-ok :
      (key prefix encoded supplied : String) (c : Claims)
      → check_parts codec key prefix encoded supplied ≡ ok c
      → (prefix ≡ "genesis-action-v1")
        × (supplied ≡ hmac key encoded)
        × (decode encoded ≡ some c)
        × (32 ≤ chars key)
  unfolding check_parts
  check_parts-ok key prefix encoded supplied c h =
      ground (arith, eq_iff prefix "genesis-action-v1", eq_iff (hmac key encoded) supplied)

  pub open_grant-IsSigned :
      (key token : String) (c : Claims) → open_grant codec key token ≡ ok c → IsSigned key token c
  unfolding open_grant
  open_grant-IsSigned key token c h = elim (Option-cases (split_dots token)) [
    | inl n ↦ cc
    | inr (parts, e) ↦ signed parts e
  ]
    where
      opened :
          (prefix encoded supplied : String)
          → split_dots token ≡ some (prefix, encoded, supplied)
          → open_grant codec key token ≡ check_parts codec key prefix encoded supplied
      opened prefix encoded supplied e = rw (open_grant, e)

      signed :
          (parts : String × String × String) → split_dots token ≡ some parts → IsSigned key token c
      signed (prefix, encoded, supplied) e =
          let (p, s, d, k) =
            check_parts-ok key prefix encoded supplied c
              (sym (opened prefix encoded supplied e) ∙ h) in
          record {
            encoded = encoded;
            parts = e ∙ (λ i. some (p i, encoded, s i));
            payload = d;
            long_key = k;
          }
