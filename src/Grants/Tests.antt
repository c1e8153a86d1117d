-- ===== src/Grants/Tests.antt =====
-- The grants of runtime/action_grants.py with a codec of one payload: a grant that is issued,
-- consumed and tried again.
use genesis_agents.Base.{
  ◌+◌, ◌≤◌, ◌≡◌, refl, String, some, List, [], ◌∷◌, ◌++◌, ◌==◌, arith, any, filter,
}
use genesis_agents.Base.Result.{ok, raise}
use genesis_agents.Text.{chars, is_ascii, has_dot, split_dots, cut_dot}
use genesis_agents.Replay.{spend, sweep, insert_row}
use genesis_agents.Grants.Token.{
  GrantError, Claims, Spent, Codec, Request, grant_claims, issue_action_grant, open_grant,
  check_parts, check_claims, spend_claims, spend_jti, insert_grant, in_health, consume_action_grant,
  usable, postgres, grant_row,
}
use genesis_agents.Grants.Accepted.{spend_row}
use genesis_agents.Grants.Refinement.{spend_row-refines, spend_spec, view, view?, at_time}
use genesis_agents.Grants.Once.{consumed_once, attempt_all}
use genesis_agents.Grants.RoundTrip.{Encodes, IsPlain, issue-consume, lifetime}

abbrev pay : Request String
pay = record { principal_id = "ann"; tenant_id = "acme"; tool = "pay"; args = "100" }

abbrev payload : Claims
payload = record {
  v = some 1;
  aud = some "genesis-tool-dispatch";
  jti = some "j1";
  authorization_id = some "a1";
  sub = some "ann";
  tenant = some "acme";
  tool = some "pay";
  args_digest = some "100";
  iat = some 1000;
  exp = some 1060;
}

abbrev toy : Codec String
toy = record {
  encode = λ c. "p";
  decode = λ s. some payload;
  hmac = λ k e. "s";
  digest = λ tool args. args;
}

abbrev secret : String
secret = "0123456789abcdef0123456789abcdef"

abbrev spent : List Spent
spent = grant_row toy 1010 pay "j1" 1060 ∷ []

issued_once : issue_action_grant toy secret 1000 60 "j1" "a1" pay ≡ ok "genesis-action-v1.p.s"
unfolding issue_action_grant chars
issued_once = refl

used_once :
    consume_action_grant toy postgres usable secret 1010 pay "genesis-action-v1.p.s" []
    ≡ ok ("a1", spent)
unfolding consume_action_grant open_grant check_parts check_claims spend_claims spend_jti
    insert_grant in_health spend insert_row sweep any filter split_dots cut_dot chars is_ascii
used_once = refl

used_twice :
    consume_action_grant toy postgres usable secret 1020 pay "genesis-action-v1.p.s" spent
    ≡ raise GrantError.grant_already_consumed
unfolding consume_action_grant open_grant check_parts check_claims spend_claims spend_jti
    insert_grant in_health spend insert_row sweep any filter split_dots cut_dot chars is_ascii
used_twice = refl

long : 32 ≤ chars secret
unfolding chars
long = omega arith

encodes : Encodes toy secret (grant_claims toy 1000 60 "j1" "a1" pay)
unfolding has_dot is_ascii grant_claims
encodes = record { reads_back = refl; no_dot = refl; ascii_signature = refl }

plain : IsPlain toy pay
unfolding is_ascii
plain = record { principal = refl; tenant = refl; tool = refl; arguments = refl }

-- The grant, tried again after one attempt in between.
consumed_once_example : ¬ (
    consume_action_grant toy postgres usable secret 1020 pay "genesis-action-v1.p.s" (
      attempt_all toy postgres secret
        (record { health = usable; time = 1015; request = pay; token = "genesis-action-v1.p.s" }
          ∷ [])
        spent)
    ≡ ok ("a1", []))
consumed_once_example =
    consumed_once toy postgres secret usable usable 1010 1020 pay pay "genesis-action-v1.p.s" "a1"
      "a1" [] spent []
      (record { health = usable; time = 1015; request = pay; token = "genesis-action-v1.p.s" } ∷ [])
      used_once (omega arith, tt)

-- The grant from its issue to its use.
issue-consume_example :
    (token : String) × (issue_action_grant toy secret 1000 60 "j1" "a1" pay ≡ ok token)
    × (consume_action_grant toy postgres usable secret 1010 pay token []
        ≡ ok (
          "a1",
          sweep (λ (q : Spent). q.jti) (λ (q : Spent). q.expires_at) ◌==◌ 1010 []
              ++ (grant_row toy 1010 pay "j1" (1000 + lifetime 60) ∷ []),
        ))
    × (1 ≤ lifetime 60)
    × (lifetime 60 ≤ 300)
issue-consume_example =
    issue-consume toy secret 1000 1010 60 "j1" "a1" pay [] long encodes plain (omega arith)
      (omega arith) (unfold any sweep filter in refl)

-- The grant in a table that has a row of another one.
spend_row-refines_example :
    at_time "j1" 1030 (
      view?
        (spend_row 1010 (grant_row toy 1010 pay "j1" 1060) (grant_row toy 990 pay "j0" 1005 ∷ [])))
    ≡ at_time "j1" 1030 (spend_spec 1010 "j1" 1060 (view (grant_row toy 990 pay "j0" 1005 ∷ [])))
spend_row-refines_example =
    spend_row-refines 1010 (grant_row toy 1010 pay "j1" 1060) (grant_row toy 990 pay "j0" 1005 ∷ [])
      "j1" 1030 (omega arith)
