-- ===== src/Gateway/Readable.antt =====
-- A job of main.py from its submission to the poll by the token of the answer.
use genesis_agents.Base.{
  ℕ, ◌+◌, ◌≤◌, ◌≡◌, ◌≢◌, refl, ◌∙◌, String, Option, Option-cases, List, true, false, none, some,
  arith, eq_iff, ==_refl, Bool-cases, inl, inr, ltb, ap, if◌then◌else◌,
}
use genesis_agents.Base.Result.{ok}
use genesis_agents.Text.{chars, truthy, truthy?, is_ascii, split_dots}
use genesis_agents.Auth.Envelope.{Principal, has_scope}
use genesis_agents.Auth.Tokens.{
  TokenCodec, token_claims, token_lifetime, issue_principal_token, verify_principal_token,
  open_token, owns_resource,
}
use genesis_agents.Auth.TokenLaws.{Encodes, continued, issue-verify}
use genesis_agents.Jobs.Table.{Job, Store, find_job}
use genesis_agents.Jobs.Operations.{get_job}
use genesis_agents.Jobs.Outcomes.{inserted}
use genesis_agents.Jobs.History.{Op, run}
use genesis_agents.Jobs.Rows.{find_job-id}
use genesis_agents.Jobs.Tenants.{owners, owners_of, run-owners}
use genesis_agents.Gateway.Http.{Python}
use genesis_agents.Gateway.Identity.{Headers, Config, verify_continuation_principal}
use genesis_agents.Gateway.Ownership.{owned_row, require_owned_job, get_job_status}
use genesis_agents.Gateway.Submit.{
  JobRequest, Drawn, Submitted, new_job, submit_job, check_webhook, token_for,
}
use genesis_agents.Gateway.Created.{
  IsNew, row_of, submit_job-new, answer_job-token, find_job-inserted,
}

module _ (codec : TokenCodec) where
  empty_token :
      (key : String) (now : ℕ) (p : Principal) → verify_principal_token codec key now "" ≢ ok p
  unfolding verify_principal_token open_token split_dots
  empty_token key now p h = cc

  -- A token that verifies is taken up by the continuation.
  continuation :
      (cfg : Config) (h : Headers) (token : String) (p : Principal)
      → verify_principal_token codec cfg.token_key cfg.now token ≡ ok p
      → verify_continuation_principal codec cfg (record h { principal_token = some token }) ≡ ok p
  unfolding verify_continuation_principal
  continuation cfg h token p v = elim (Bool-cases (truthy token)) [
    | inl t ↦ rw (t, v)
    | inr f ↦
        let blank : token ≡ "" = ground (arith, eq_iff token "") in
        absurd (empty_token cfg.token_key cfg.now p (rw blank at v))
  ]

late_test :
    (d : Drawn) (cfg : Config)
    → cfg.now ≤ d.now + 600
    → ltb (d.now + token_lifetime 600) cfg.now ≡ false
late_test d cfg h = ground arith

some_eq :
    {x y : Option String × Option String}
    → Path (Option (Option String × Option String)) (some x) (some y)
    → x ≡ y
some_eq h = cc

owns_row :
    (j : Job) (p q : Principal)
    → owners j ≡ (some p.tenant_id, some p.principal_id)
    → q.tenant_id ≡ p.tenant_id
    → q.principal_id ≡ p.principal_id
    → is_ascii p.tenant_id ≡ true
    → is_ascii p.principal_id ≡ true
    → owns_resource q (some (owned_row j)) ≡ ok true
unfolding owns_resource
owns_row j p q o t i at ai =
    let tenant : j.tenant_id ≡ some p.tenant_id = ap (λ x. x.0) o in
    let owner : j.owner_principal_id ≡ some p.principal_id = ap (λ x. x.1) o in
    rw (tenant, owner, t, i, at, ai, ==_refl p.tenant_id, ==_refl p.principal_id)

module _ (py : Python) (codec : TokenCodec) where
  inserted-owners :
      (d : Drawn) (slug : String) (r : JobRequest) (p : Principal) (s : Store)
      → IsNew d r s
      → owners_of d.job_id (inserted d.now (row_of d slug r p) s).jobs
        ≡ some (some p.tenant_id, some p.principal_id)
  unfolding new_job
  inserted-owners d slug r p s n = rw (owners_of, find_job-inserted d slug r p s n)

  status_of_row :
      (i : String) (p : Principal) (s : Store) (e : ℕ)
      → owners_of i s.jobs ≡ some (some p.tenant_id, some p.principal_id)
      → has_scope p "job.read" ≡ true
      → is_ascii p.tenant_id ≡ true
      → is_ascii p.principal_id ≡ true
      → (j : Job) × (get_job_status true i (continued p e) s ≡ ok j)
        × (j.id ≡ i)
        × (owners j ≡ (some p.tenant_id, some p.principal_id))
  unfolding get_job_status require_owned_job get_job has_scope
  status_of_row i p s e o sc at ai = elim (Option-cases (find_job i s.jobs)) [
    | inl n ↦ cc (rw (owners_of, n) at o)
    | inr (j, f) ↦
        let mine : owners j ≡ (some p.tenant_id, some p.principal_id) =
          some_eq (rw (owners_of, f) at o) in
        (
          j,
          rw (f, sc, owns_row j p (continued p e) mine refl refl at ai),
          find_job-id i s.jobs j f,
          mine,
        )
  ]

  token_issued :
      (d : Drawn) (p : Principal) (token : String)
      → p.auth_method ≡ "ap2"
      → issue_principal_token codec d.token_key d.now 600 p ≡ ok token
      → token_for py codec d p ≡ ok (some token)
  unfolding token_for
  token_issued d p token ap2 issued = rw (token_for, (eq_iff p.auth_method "ap2").1 ap2, issued)

  -- A job that a principal of an AP2 envelope submits is readable by the token of the answer: the
  -- submission answers with the fresh id, QUEUED and a token, and as long as the token lives, 600
  -- seconds, and whatever transactions the job store makes in between, a poll that carries the token
  -- and nothing else is answered with the row of that id, of the principal's tenant and ownership.
  -- Conditions: a callback URL that is not blocked, a fresh id and idempotency key, the scope
  -- job.read, a token key of at least 32 characters and a codec that reads its payload back, an id and
  -- a tenant in ASCII that are not empty, and a polling clock at most a minute behind.
  pub submitted_readable :
      (d : Drawn) (cfg : Config) (h : Headers) (slug : String) (r : JobRequest) (p : Principal)
      (s : Store) (ops : List Op)
      → check_webhook py r.webhook_url ≡ ok tt
      → IsNew d r s
      → p.auth_method ≡ "ap2"
      → has_scope p "job.read" ≡ true
      → cfg.token_key ≡ d.token_key
      → 32 ≤ chars d.token_key
      → Encodes codec d.token_key (token_claims d.now 600 p)
      → truthy p.principal_id ≡ true
      → truthy p.tenant_id ≡ true
      → is_ascii p.tenant_id ≡ true
      → is_ascii p.principal_id ≡ true
      → d.now ≤ cfg.now + 60
      → cfg.now ≤ d.now + 600
      → (a : Submitted) × (token : String) × (q : Principal) × (j : Job) × (s' : Store)
        × (submit_job py codec true d slug r p s ≡ (ok a, s'))
        × (a.job_id ≡ d.job_id)
        × (a.status ≡ "QUEUED")
        × (a.principal_token ≡ some token)
        × (verify_continuation_principal codec cfg (record h { principal_token = some token })
            ≡ ok q)
        × (get_job_status true a.job_id q (run ops s') ≡ ok j)
        × (j.id ≡ d.job_id)
        × (owners j ≡ (some p.tenant_id, some p.principal_id))
  submitted_readable d cfg h slug r p s ops w n ap2 sc same long enc i t at ai lo hi =
      let (token, issued, verifies, short) =
        issue-verify codec d.token_key d.now cfg.now 600 p long enc i t lo in
      let s' : Store = inserted d.now (row_of d slug r p) s in
      let (j, polled, id, mine) =
        status_of_row d.job_id p (run ops s') (d.now + 600)
          (run-owners d.job_id (some p.tenant_id, some p.principal_id) ops s'
            (inserted-owners d slug r p s n))
          sc at ai in
      (
        record {
          job_id = d.job_id;
          status = "QUEUED";
          idempotent_hit = false;
          external_escrow_id = if truthy? r.escrow_id then r.escrow_id else none;
          principal_token = some token;
          dispatched = true;
        },
        token,
        continued p (d.now + 600),
        j,
        s',
        rw (submit_job-new py codec d slug r p s w n) (
            ap (λ x. (x, inserted d.now (row_of d slug r p) s))
              (answer_job-token py codec d r p _ (some token) (token_issued d p token ap2 issued))),
        refl,
        refl,
        refl,
        continuation codec cfg h token (continued p (d.now + 600))
            (rw same (verifies ∙ rw (late_test d cfg hi))),
        polled,
        id,
        mine,
      )
