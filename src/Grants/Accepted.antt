-- ===== src/Grants/Accepted.antt =====
-- consume_action_grant of runtime/action_grants.py, read backwards from an accepted grant.
use genesis_agents.Base.{
  ℕ, ◌≡◌, refl, sym, ap, ◌∙◌, String, Bool, Option, none, some, List, ◌==◌, arith, Bool-cases,
  Option-cases, inl, inr,
}
use genesis_agents.Base.Result.{Result, ok, raise, Tx}
use genesis_agents.Text.{or_empty}
use genesis_agents.Replay.{spend, is_spent}
use genesis_agents.Grants.Token.{
  GrantError, Claims, Spent, Site, Health, path_text, insert_grant, in_health, spend_jti, Codec,
  Request, open_grant, check_claims, spend_claims, grant_row, lift, consume_action_grant, usable,
  no_directory, unusable, postgres, sqlite,
}
use genesis_agents.Grants.Laws.{IsSigned, IsFor, open_grant-IsSigned, check_claims-IsFor}

-- The id has a row that expires at `until` or later.
abbrev pub is_consumed : String → ℕ → List Spent → Bool
is_consumed = is_spent (λ (r : Spent). r.jti) (λ (r : Spent). r.expires_at) ◌==◌

abbrev pub spend_row : ℕ → Spent → List Spent → Option (List Spent)
spend_row = spend (λ (r : Spent). r.jti) (λ (r : Spent). r.expires_at) ◌==◌

insert_grant-ok :
    (now : ℕ) (row : Spent) (rows rows' : List Spent) (u : Unit {0})
    → insert_grant now row rows ≡ ok (u, rows')
    → spend_row now row rows ≡ some rows'
unfolding insert_grant
insert_grant-ok now row rows rows' u h = ground arith

in_health-ok :
    (health : Health) (e : GrantError) (m : Tx GrantError (List Spent) (Unit {0}))
    (rows rows' : List Spent) (u : Unit {0})
    → in_health health e m rows ≡ ok (u, rows')
    → m rows ≡ ok (u, rows')
unfolding in_health
in_health-ok usable e m rows rows' u h = h
in_health-ok no_directory e m rows rows' u h = cc
in_health-ok unusable e m rows rows' u h = cc

-- A transaction of spend_jti that commits has spent the row, whatever the site.
spend_jti-ok :
    (at : Site) (health : Health) (now : ℕ) (row : Spent) (rows rows' : List Spent) (u : Unit {0})
    → spend_jti at health now row rows ≡ ok (u, rows')
    → (o : Option (String × String × String)) × (spend_row now (record row { owner = o }) rows
        ≡ some rows')
unfolding spend_jti
spend_jti-ok postgres health now row rows rows' u h =
    (row.owner, insert_grant-ok now row rows rows' u (in_health-ok health _ _ rows rows' u h))
spend_jti-ok (sqlite path) health now row rows rows' u h =
    elim (Bool-cases (path_text path == "")) [
      | inl b ↦ cc (rw b at h)
      | inr b ↦ (
        none,
        insert_grant-ok now _ rows rows' u (in_health-ok health _ _ rows rows' u (rw b at h)),
      )
    ]

-- The second of the parts of a token.
abbrev pub middle : Option (String × String × String) → String
middle none = ""
middle (some (x, y, z)) = y

lift-ok :
    (x : Result GrantError Claims) (f : Claims → Tx GrantError (List Spent) String)
    (rows : List Spent) (out : String × List Spent)
    → lift x f rows ≡ ok out
    → (c : Claims) × (x ≡ ok c) × (f c rows ≡ ok out)
lift-ok (ok c) f rows out h = (c, refl, h)
lift-ok (raise e) f rows out h = cc

module _ {Args : Type 0} (codec : Codec Args) where
  spend_claims-ok :
      (at : Site) (health : Health) (now : ℕ) (r : Request Args) (c : Claims) (a : String)
      (rows rows' : List Spent)
      → spend_claims codec at health now r c rows ≡ ok (a, rows')
      → (jti : String) × (exp : ℕ) × (u : Unit {0}) × (c.jti ≡ some jti)
        × (c.exp ≡ some exp)
        × (a ≡ or_empty c.authorization_id)
        × (spend_jti at health now (grant_row codec now r jti exp) rows ≡ ok (u, rows'))
  unfolding spend_claims
  spend_claims-ok at health now r c a rows rows' h = elim (Option-cases c.jti) [
    | inl n ↦ absurd (ground arith)
    | inr (jti, j) ↦ elim (Option-cases c.exp) [
      | inl n ↦ absurd (ground arith)
      | inr (exp, e) ↦ (jti, exp, tt, j, e, ground arith, ground arith)
    ]
  ]

  -- What stands behind an accepted grant.
  pub record IsAccepted (key : String) (now : ℕ) (r : Request Args) (token a : String)
      (rows rows' : List Spent) : Type 0 where
    pub claims : Claims
    pub signed : IsSigned codec key token claims
    pub matches : IsFor codec now r claims
    pub answer : a ≡ or_empty claims.authorization_id
    pub id : String
    pub until : ℕ
    pub has_id : claims.jti ≡ some id
    pub has_exp : claims.exp ≡ some until
    pub owner : Option (String × String × String)
    pub spends :
        spend_row now
          (record { jti = id; consumed_at = now; expires_at = until; owner = owner })
          rows
        ≡ some rows'

  -- consume_action_grant accepts a token only if it carries an HMAC signature under a key of at least
  -- 32 characters over a payload of version 1 for this audience, the time is at most its expiry and
  -- at least a minute before its issue or later, and it names the caller's principal, tenant, tool
  -- and the digest of the tool's arguments; and then its id was not spent before and now is.
  pub accepted :
      (at : Site) (health : Health) (key : String) (now : ℕ) (r : Request Args) (token a : String)
      (rows rows' : List Spent)
      → consume_action_grant codec at health key now r token rows ≡ ok (a, rows')
      → IsAccepted key now r token a rows rows'
  unfolding consume_action_grant
  accepted at health key now r token a rows rows' h =
      let (c, o, h1) = lift-ok (open_grant codec key token) _ rows (a, rows') h in
      let (c', m, h2) = lift-ok (check_claims codec now r c) _ rows (a, rows') h1 in
      let (fits, same) = check_claims-IsFor codec now r c c' m in
      let (jti, exp, u, j, e, answer, spent) = spend_claims-ok at health now r c' a rows rows' h2 in
      let (owner, row) =
        spend_jti-ok at health now (grant_row codec now r jti exp) rows rows' u spent in
      record {
        claims = c;
        signed = open_grant-IsSigned codec key token c o;
        matches = fits;
        answer = answer ∙ ap (λ d. or_empty d.authorization_id) (sym same);
        id = jti;
        until = exp;
        has_id = ap (λ d. d.jti) same ∙ j;
        has_exp = ap (λ d. d.exp) same ∙ e;
        owner = owner;
        spends = row;
      }
