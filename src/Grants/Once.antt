-- ===== src/Grants/Once.antt =====
-- Histories of attempts to consume grants of runtime/action_grants.py.
use genesis_agents.Base.{
  ℕ, ◌≤◌, ◌≡◌, refl, sym, ap, ◌∙◌, String, true, none, some, List, [], ◌∷◌, arith, ==_refl, All,
  subst,
}
use genesis_agents.Base.Result.{Result, ok, raise, after}
use genesis_agents.Replay.{spend-refused, spend-keeps, spend-spends}
use genesis_agents.Grants.Token.{
  GrantError, Spent, Site, Health, Codec, Request, consume_action_grant,
}
use genesis_agents.Grants.Accepted.{middle, is_consumed, spend_row, IsAccepted, accepted}

none-ne-some : {rows : List Spent} → ¬ (none ≡ some rows)
none-ne-some h = cc

module _ {Args : Type 0} (codec : Codec Args) where
  -- A later attempt to consume some grant at the same site, under the same key.
  pub record Attempt : Type 0 where
    pub health : Health
    pub time : ℕ
    pub request : Request Args
    pub token : String

  module _ (at : Site) (key : String) where
    unfoldable pub attempt_all : List Attempt → List Spent → List Spent
    attempt_all [] rows = rows
    attempt_all (t ∷ ts) rows =
        attempt_all ts
          (after (consume_action_grant codec at t.health key t.time t.request t.token) rows)

    attempt-keeps :
        (id : String) (until : ℕ) (t : Attempt) (rows : List Spent)
        → t.time ≤ until
        → is_consumed id until rows ≡ true
        → is_consumed id until
            (after (consume_action_grant codec at t.health key t.time t.request t.token) rows)
          ≡ true
    attempt-keeps id until t rows le s =
        go (consume_action_grant codec at t.health key t.time t.request t.token rows) refl
      where
        go :
            (x : Result GrantError (String × List Spent))
            → consume_action_grant codec at t.health key t.time t.request t.token rows ≡ x
            → is_consumed id until (after (λ q. x) rows) ≡ true
        go (raise e) eq = s
        go (ok (a, rows')) eq =
            let acc = accepted codec at t.health key t.time t.request t.token a rows rows' eq in
            spend-keeps _ _ _ id t.time until _ rows rows' le s acc.spends

    attempt_all-keeps :
        (id : String) (until : ℕ) (ts : List Attempt) (rows : List Spent)
        → All (λ t. t.time ≤ until) ts
        → is_consumed id until rows ≡ true
        → is_consumed id until (attempt_all ts rows) ≡ true
    unfolding attempt_all
    attempt_all-keeps id until [] rows h s = s
    attempt_all-keeps id until (t ∷ ts) rows h s =
        attempt_all-keeps id until ts _ h.1 (attempt-keeps id until t rows h.0 s)

  All-time_le :
      {t u : ℕ} (ts : List Attempt) → All (λ x. x.time ≤ t) ts → t ≤ u → All (λ x. x.time ≤ u) ts
  All-time_le [] h le = tt
  All-time_le (x ∷ xs) h le = (omega arith, All-time_le xs h.1 le)

  -- Once a grant has been accepted, the same token is never accepted again at the same site, for any
  -- request, however many attempts with this or other tokens lie between, succeed or fail, as long
  -- as none of them is later than the second use.
  pub consumed_once :
      (at : Site) (key : String) (health health' : Health) (now now' : ℕ) (r r' : Request Args)
      (token a a' : String) (rows rows' last : List Spent) (ts : List Attempt)
      → consume_action_grant codec at health key now r token rows ≡ ok (a, rows')
      → All (λ t. t.time ≤ now') ts
      → ¬ (
          consume_action_grant codec at health' key now' r' token (attempt_all at key ts rows')
          ≡ ok (a', last))
  consumed_once at key health health' now now' r r' token a a' rows rows' last ts first times
        second =
      none-ne-some (sym refused ∙ again.spends)
    where
      once : IsAccepted codec key now r token a rows rows'
      once = accepted codec at health key now r token a rows rows' first

      again : IsAccepted codec key now' r' token a' (attempt_all at key ts rows') last
      again =
          accepted codec at health' key now' r' token a' (attempt_all at key ts rows') last second

      same_text : once.signed.encoded ≡ again.signed.encoded
      same_text = ap middle (sym once.signed.parts ∙ again.signed.parts)

      same_claims : some once.claims ≡ some again.claims
      same_claims = sym once.signed.payload ∙ (ap codec.decode same_text ∙ again.signed.payload)

      same_id : once.id ≡ again.id
      same_id = grind (arith, once.has_id, again.has_id, same_claims)

      same_until : once.until ≡ again.until
      same_until = grind (arith, once.has_exp, again.has_exp, same_claims)

      in_time : now' ≤ once.until
      in_time = grind (arith, again.matches.fresh, again.has_exp, same_until)

      spent : is_consumed once.id once.until rows' ≡ true
      spent = spend-spends _ _ _ now _ rows rows' (==_refl once.id) once.spends

      still : is_consumed once.id once.until (attempt_all at key ts rows') ≡ true
      still =
          attempt_all-keeps at key once.id once.until ts rows' (All-time_le ts times in_time) spent

      refused :
          spend_row now'
            (record {
              jti = again.id;
              consumed_at = now';
              expires_at = again.until;
              owner = again.owner;
            })
            (attempt_all at key ts rows')
          ≡ none
      refused =
          spend-refused _ _ _ now' once.until _ (attempt_all at key ts rows') in_time (
            subst (λ i. is_consumed i once.until (attempt_all at key ts rows') ≡ true) same_id
              still)
