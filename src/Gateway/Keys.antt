-- ===== src/Gateway/Keys.antt =====
-- Idempotency keys across the owners of main.py.
use genesis_agents.Base.{
  ◌≡◌, ◌≢◌, inl, inr, ap, ◌∙◌, String, true, false, Option, none, some, arith, if◌then◌else◌,
}
use genesis_agents.Base.Result.{ok, raise, Result-cases}
use genesis_agents.Text.{truthy?, or_empty}
use genesis_agents.Auth.Envelope.{Principal}
use genesis_agents.Auth.Tokens.{TokenCodec}
use genesis_agents.Jobs.Table.{Job, Store}
use genesis_agents.Jobs.Operations.{create_job, existing, get_job}
use genesis_agents.Gateway.Http.{HttpError, Python}
use genesis_agents.Gateway.Ownership.{get_job_status}
use genesis_agents.Gateway.Owned.{status_owned}
use genesis_agents.Gateway.Created.{answer_job-token}
use genesis_agents.Gateway.Submit.{JobRequest, Drawn, new_job, submit_job, check_webhook, token_for}

other_owner :
    (p : Principal) (s : Store) (j k : Job) (tenant : String)
    → get_job j.id s ≡ some j
    → j.tenant_id ≡ some tenant
    → p.tenant_id ≢ tenant
    → get_job_status true j.id p s ≢ ok k
other_owner p s j k tenant f o ne h =
    let (found, reader) = status_owned true j.id p s k h in
    let same : k.tenant_id ≡ some tenant = ground arith in
    elim reader.owner [ inl (t, rest, legacy) ↦ cc | inr (t, i) ↦ ne (t ∙ ap or_empty same) ]

denied :
    (p : Principal) (s : Store) (j : Job) (tenant : String)
    → get_job j.id s ≡ some j
    → j.tenant_id ≡ some tenant
    → p.tenant_id ≢ tenant
    → (e : HttpError) × (get_job_status true j.id p s ≡ raise e)
denied p s j tenant f o ne = elim (Result-cases (get_job_status true j.id p s)) [
  | inl r ↦ r
  | inr (k, h) ↦ absurd (other_owner p s j k tenant f o ne h)
]

module _ (py : Python) (codec : TokenCodec) where
  found_key :
      (d : Drawn) (slug : String) (r : JobRequest) (p : Principal) (s : Store) (j : Job)
      → existing r.idempotency_key s.jobs ≡ some j
      → create_job d.now d.job_id (new_job slug r p) s
        ≡ ok (record { id = j.id; status = j.status; created_at = none; idempotent_hit = true }, s)
  unfolding create_job new_job
  found_key d slug r p s j e = rw (create_job, e)

  -- An idempotency key is shared by all tenants: a request whose key stands in the row of another
  -- owner's job is answered with the id and the status of that job, the tables stay as they are, so
  -- that the request makes no job of its own, and the principal cannot read the job that the answer
  -- names. Conditions: a callback URL that is not blocked, a token for the principal or none, a row
  -- under its id, with a tenant that is not the principal's.
  pub key_crosses_tenants :
      (d : Drawn) (slug : String) (r : JobRequest) (p : Principal) (s : Store) (j : Job)
      (token : Option String) (tenant : String)
      → check_webhook py r.webhook_url ≡ ok tt
      → token_for py codec d p ≡ ok token
      → existing r.idempotency_key s.jobs ≡ some j
      → get_job j.id s ≡ some j
      → j.tenant_id ≡ some tenant
      → p.tenant_id ≢ tenant
      → (submit_job py codec true d slug r p s ≡ (
        ok (record {
          job_id = j.id;
          status = j.status;
          idempotent_hit = true;
          external_escrow_id = if truthy? r.escrow_id then r.escrow_id else none;
          principal_token = token;
          dispatched = false;
        }),
        s,
      ))
        × (e : HttpError) × (get_job_status true j.id p s ≡ raise e)
  unfolding submit_job
  key_crosses_tenants d slug r p s j token tenant w t e f o ne =
      let (x, refused) = denied p s j tenant f o ne in
      (
        rw (w, found_key d slug r p s j e)
            (ap (λ y. (y, s))
              (answer_job-token py codec d r p
                (record { id = j.id; status = j.status; created_at = none; idempotent_hit = true })
                token t)),
        x,
        refused,
      )
