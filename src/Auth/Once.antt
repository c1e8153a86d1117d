-- ===== src/Auth/Once.antt =====
-- Histories of envelopes that runtime/request_auth.py verifies, and repeated ones.
use genesis_agents.Base.{
  ℕ, ◌+◌, ◌≤◌, ◌≡◌, refl, sym, ap, ◌∙◌, subst, String, Bool, true, Option, none, some, List, [],
  ◌∷◌, ==_refl, arith, All, eq_iff, inl, inr, Bool-cases,
}
use genesis_agents.Base.Result.{Result, ok, raise, after, Result-cases}
use genesis_agents.Replay.{is_spent, spend-refused, spend-keeps, spend-spends}
use genesis_agents.Auth.Envelope.{
  AuthError, Principal, Client, Nonce, Site, postgres, sqlite, Context, Body, Wire, NonceTables,
  same_site, with_rows, answer_of, verify_at, nonce_key, same_key, trusts, verify_ap2_envelope,
  max_clock_skew_seconds,
}
use genesis_agents.Auth.Verified.{spend_nonce, IsVerified, verified}
use genesis_agents.Base.{filter}

abbrev is_used : String × String → ℕ → List Nonce → Bool
is_used = is_spent nonce_key (λ r. r.expires_at) same_key

same_key_refl : (a b : String) → same_key (a, b) (a, b) ≡ true
same_key_refl a b = ground (arith, ==_refl a, ==_refl b)

none-ne-some : {rows : List Nonce} → ¬ (none ≡ some rows)
none-ne-some h = cc

abbrev head_or : Client → List Client → Client
head_or d [] = d
head_or d (c ∷ cs) = c

abbrev some_or : {A : Type 0} → A → Option A → A
some_or d none = d
some_or d (some a) = a

same_site-eq : (a b : Site) → same_site a b ≡ true → a ≡ b
same_site-eq postgres postgres h = refl
same_site-eq postgres (sqlite q) h = cc
same_site-eq (sqlite q) postgres h = cc
same_site-eq (sqlite q) (sqlite r) h = ap sqlite ((eq_iff q r).0 h)

same_site_refl : (a : Site) → same_site a a ≡ true
same_site_refl postgres = refl
same_site_refl (sqlite q) = ==_refl q

principal_eq : {p q : Principal} → Path (Result AuthError Principal) (ok p) (ok q) → p ≡ q
principal_eq h = cc

module _ {Params : Type 0} (wire : Wire Params) where
  verify-keeps :
      (k : String × String) (until : ℕ) (x : Context) (body : Body Params) (rows : List Nonce)
      → x.swept_at ≤ until
      → is_used k until rows ≡ true
      → is_used k until (after (verify_ap2_envelope wire x body) rows) ≡ true
  verify-keeps k until x body rows le s = go (verify_ap2_envelope wire x body rows) refl
    where
      go :
          (r : Result AuthError (Principal × List Nonce))
          → verify_ap2_envelope wire x body rows ≡ r
          → is_used k until (after (λ q. r) rows) ≡ true
      go (raise e) eq = s
      go (ok (p, rows')) eq =
          spend-keeps _ _ _ k x.swept_at until _ rows rows' le s
            (verified wire x body p rows rows' eq).spends

  at_site :
      (x : Context) (body : Body Params) (tables : NonceTables) (site : Site)
      → x.site ≡ ok site
      → verify_at wire x body tables ≡ (
        answer_of wire (verify_ap2_envelope wire x body (tables site)),
        with_rows wire site tables (verify_ap2_envelope wire x body (tables site)),
      )
  unfolding verify_at
  at_site x body tables site s =
      ap
        (λ (r : Result AuthError Site). elim r [
          | raise e ↦ (answer_of wire (verify_ap2_envelope wire x body []), tables)
          | ok q ↦ (
            answer_of wire (verify_ap2_envelope wire x body (tables q)),
            with_rows wire q tables (verify_ap2_envelope wire x body (tables q)),
          )
        ])
        s

  siteless :
      (x : Context) (body : Body Params) (tables : NonceTables) (e : AuthError)
      → x.site ≡ raise e
      → verify_at wire x body tables ≡ (answer_of wire (verify_ap2_envelope wire x body []), tables)
  unfolding verify_at
  siteless x body tables e s =
      ap
        (λ (r : Result AuthError Site). elim r [
          | raise e ↦ (answer_of wire (verify_ap2_envelope wire x body []), tables)
          | ok q ↦ (
            answer_of wire (verify_ap2_envelope wire x body (tables q)),
            with_rows wire q tables (verify_ap2_envelope wire x body (tables q)),
          )
        ])
        s

  -- A body that was accepted is not accepted again on rows in which the ids that were spent are still
  -- spent.
  refused_again :
      (x x' : Context) (body : Body Params) (stamped : ℕ) (p p' : Principal)
      (rows rows' between last : List Nonce)
      → verify_ap2_envelope wire x body rows ≡ ok (p, rows')
      → wire.parse_timestamp body.timestamp ≡ some stamped
      → x'.registry ≡ x.registry
      → ((k : String × String)
          → is_used k (stamped + max_clock_skew_seconds) rows' ≡ true
          → is_used k (stamped + max_clock_skew_seconds) between ≡ true)
      → x'.swept_at ≤ stamped + max_clock_skew_seconds
      → ¬ (verify_ap2_envelope wire x' body between ≡ ok (p', last))
  refused_again x x' body stamped p p' rows rows' between last first stamp registry keeps in_time
        second =
      none-ne-some (sym refused ∙ again.spends)
    where
      once : IsVerified wire x body p rows rows'
      once = verified wire x body p rows rows' first

      again : IsVerified wire x' body p' between last
      again = verified wire x' body p' between last second

      same_clients : once.clients ≡ again.clients
      same_clients = ap (some_or []) (sym once.has_registry ∙ (sym registry ∙ again.has_registry))

      same_client : once.client ≡ again.client
      same_client =
          ap (head_or once.client)
            (sym once.only_one ∙ (ap (filter (trusts body.pubkey)) same_clients ∙ again.only_one))

      same_stamp : once.stamped ≡ stamped
      same_stamp = ap (some_or 0) (sym once.has_stamp ∙ stamp)

      spent :
          is_used (once.client.client_id, body.nonce) (once.stamped + max_clock_skew_seconds) rows'
          ≡ true
      spent =
          spend-spends _ _ _ x.swept_at _ rows rows'
            (same_key_refl once.client.client_id body.nonce) once.spends

      still :
          is_used (again.client.client_id, body.nonce) (stamped + max_clock_skew_seconds) between
          ≡ true
      still =
          keeps (again.client.client_id, body.nonce)
            (subst
              (λ n.
                is_used (again.client.client_id, body.nonce) (n + max_clock_skew_seconds) rows'
                ≡ true)
              same_stamp
              (subst
                (λ c.
                  is_used (c.client_id, body.nonce) (once.stamped + max_clock_skew_seconds) rows'
                  ≡ true)
                same_client spent))

      refused :
          spend_nonce x'.swept_at
            (record {
              client_id = again.client.client_id;
              nonce = body.nonce;
              expires_at = again.stamped + max_clock_skew_seconds;
            })
            between
          ≡ none
      refused =
          spend-refused _ _ _ x'.swept_at (stamped + max_clock_skew_seconds) _ between in_time still

  -- Requests that come in one after the other, each in its context and on the table of its site.
  unfoldable pub verify_all : List (Context × Body Params) → NonceTables → NonceTables
  unfolding verify_at
  verify_all [] tables = tables
  verify_all ((x, body) ∷ ts) tables = verify_all ts (verify_at wire x body tables).1

  with_rows-keeps :
      (k : String × String) (until : ℕ) (site other : Site) (tables : NonceTables) (x : Context)
      (body : Body Params)
      → x.swept_at ≤ until
      → is_used k until (tables site) ≡ true
      → is_used k until
          (with_rows wire other tables (verify_ap2_envelope wire x body (tables other)) site)
        ≡ true
  with_rows-keeps k until site other tables x body le s =
      elim (Result-cases (verify_ap2_envelope wire x body (tables other))) [
        | inl (e, r) ↦ rw r s
        | inr ((p, rows), r) ↦ elim (Bool-cases (same_site site other)) [
          | inr n ↦ rw (r, n) s
          | inl y ↦
              let kept =
                verify-keeps k until x body (tables other) le
                  (subst (λ q. is_used k until (tables q) ≡ true) (same_site-eq site other y) s) in
              rw (r, y) (rw (after, r) at kept)
        ]
      ]

  verify_at-keeps :
      (k : String × String) (until : ℕ) (site : Site) (x : Context) (body : Body Params)
      (tables : NonceTables)
      → x.swept_at ≤ until
      → is_used k until (tables site) ≡ true
      → is_used k until ((verify_at wire x body tables).1 site) ≡ true
  unfolding verify_at
  verify_at-keeps k until site x body tables le s = elim (Result-cases x.site) [
    | inl (e, r) ↦
        subst (λ t. is_used k until (t site) ≡ true)
          (sym (ap (λ v. v.1) (siteless x body tables e r))) s
    | inr (other, r) ↦
        subst (λ t. is_used k until (t site) ≡ true)
          (sym (ap (λ v. v.1) (at_site x body tables other r)))
          (with_rows-keeps k until site other tables x body le s)
  ]

  verify_all-keeps :
      (k : String × String) (until : ℕ) (site : Site) (ts : List (Context × Body Params))
      (tables : NonceTables)
      → All (λ (t : Context × Body Params). t.0.swept_at ≤ until) ts
      → is_used k until (tables site) ≡ true
      → is_used k until (verify_all ts tables site) ≡ true
  unfolding verify_all
  verify_all-keeps k until site [] tables h s = s
  verify_all-keeps k until site ((x, body) ∷ ts) tables h s =
      verify_all-keeps k until site ts _ h.1 (verify_at-keeps k until site x body tables h.0 s)

  accepted-rows :
      (site : Site) (x : Context) (body : Body Params) (p : Principal)
      (tables tables' : NonceTables)
      → x.site ≡ ok site
      → verify_at wire x body tables ≡ (ok p, tables')
      → verify_ap2_envelope wire x body (tables site) ≡ ok (p, tables' site)
  accepted-rows site x body p tables tables' s h =
      let here = sym (at_site x body tables site s) ∙ h in
      let answer : answer_of wire (verify_ap2_envelope wire x body (tables site)) ≡ ok p =
        ap (λ v. v.0) here in
      let left : with_rows wire site tables (verify_ap2_envelope wire x body (tables site)) site
          ≡ tables' site =
        ap (λ v. v.1 site) here in
      elim (Result-cases (verify_ap2_envelope wire x body (tables site))) [
        | inl (e, r) ↦ cc (rw r at answer)
        | inr ((q, rows), r) ↦
            let same : q ≡ p = principal_eq (rw r at answer) in
            let kept : rows ≡ tables' site = rw (r, same_site_refl site) at left in
            r ∙ (λ i. ok (same i, kept i))
      ]

  -- A body that was accepted at a site is not accepted again at that site under the same registry,
  -- whatever requests lie between, at that site or at others, as long as no sweep from then on reads
  -- a time after the stamp's 300 seconds. Each site has its own table of nonces.
  pub accepted_once :
      (site : Site) (x x' : Context) (body : Body Params) (stamped : ℕ) (p p' : Principal)
      (tables tables' : NonceTables) (ts : List (Context × Body Params))
      → x.site ≡ ok site
      → x'.site ≡ ok site
      → verify_at wire x body tables ≡ (ok p, tables')
      → wire.parse_timestamp body.timestamp ≡ some stamped
      → x'.registry ≡ x.registry
      → All (λ (t : Context × Body Params). t.0.swept_at ≤ stamped + max_clock_skew_seconds) ts
      → x'.swept_at ≤ stamped + max_clock_skew_seconds
      → ¬ ((verify_at wire x' body (verify_all ts tables')).0 ≡ ok p')
  accepted_once site x x' body stamped p p' tables tables' ts s s' first stamp registry times
        in_time second =
      refused_again x x' body stamped p p' (tables site) (tables' site) (verify_all ts tables' site)
        _ (accepted-rows site x body p tables tables' s first) stamp registry
        (λ k. verify_all-keeps k (stamped + max_clock_skew_seconds) site ts tables' times) in_time
        (accepted-rows site x' body p' (verify_all ts tables')
          (verify_at wire x' body (verify_all ts tables')).1 s'
          (λ i. (second i, (verify_at wire x' body (verify_all ts tables')).1)))
