-- ===== src/Gateway/Created.antt =====
-- What submit_job of main.py stores.
use genesis_agents.Base.{
  ◌≡◌, String, true, false, not, Option, none, some, arith, ==_refl, if◌then◌else◌,
}
use genesis_agents.Base.Result.{ok}
use genesis_agents.Text.{truthy?}
use genesis_agents.Jobs.Table.{Job, Store, find_job, key_is_free}
use genesis_agents.Jobs.Operations.{Created, create_job, existing, new_row}
use genesis_agents.Jobs.Outcomes.{inserted}
use genesis_agents.Jobs.Rows.{find_job-append}
use genesis_agents.Auth.Envelope.{Principal}
use genesis_agents.Auth.Tokens.{TokenCodec}
use genesis_agents.Gateway.Http.{Python}
use genesis_agents.Gateway.Submit.{
  JobRequest, Drawn, new_job, submit_job, check_webhook, token_for, answer_job,
}

-- Nothing in the table stands in the way of the new row.
pub record IsNew (d : Drawn) (r : JobRequest) (s : Store) : Type 0 where
  pub no_job : find_job d.job_id s.jobs ≡ none
  pub no_existing : existing r.idempotency_key s.jobs ≡ none
  pub free_key : key_is_free r.idempotency_key s.jobs ≡ true

-- The row of a request.
abbrev pub row_of : Drawn → String → JobRequest → Principal → Job
row_of d slug r principal = new_row d.now d.job_id (new_job slug r principal)

create_job-new :
    (d : Drawn) (slug : String) (r : JobRequest) (p : Principal) (s : Store)
    → IsNew d r s
    → create_job d.now d.job_id (new_job slug r p) s
      ≡ ok (
        record {
          id = d.job_id;
          status = "QUEUED";
          created_at = some d.now;
          idempotent_hit = false;
        },
        inserted d.now (row_of d slug r p) s,
      )
unfolding create_job new_job
create_job-new d slug r p s n = ground (arith, n.no_job, n.no_existing, n.free_key)

module _ (py : Python) (codec : TokenCodec) where
  pub submit_job-new :
      (d : Drawn) (slug : String) (r : JobRequest) (p : Principal) (s : Store)
      → check_webhook py r.webhook_url ≡ ok tt
      → IsNew d r s
      → submit_job py codec true d slug r p s ≡ (
        answer_job py codec d r p (record {
          id = d.job_id;
          status = "QUEUED";
          created_at = some d.now;
          idempotent_hit = false;
        }),
        inserted d.now (row_of d slug r p) s,
      )
  unfolding submit_job
  submit_job-new d slug r p s w n = rw (w, create_job-new d slug r p s n)

pub find_job-inserted :
    (d : Drawn) (slug : String) (r : JobRequest) (p : Principal) (s : Store)
    → IsNew d r s
    → find_job d.job_id (inserted d.now (row_of d slug r p) s).jobs ≡ some (row_of d slug r p)
unfolding find_job
find_job-inserted d slug r p s n =
    rw (find_job-append d.job_id s.jobs (row_of d slug r p), n.no_job, ==_refl d.job_id)

module _ (py : Python) (codec : TokenCodec) where
  -- The answer with a token that is issued, or with none.
  pub answer_job-token :
      (d : Drawn) (r : JobRequest) (p : Principal) (c : Created) (token : Option String)
      → token_for py codec d p ≡ ok token
      → answer_job py codec d r p c
        ≡ ok (record {
          job_id = c.id;
          status = c.status;
          idempotent_hit = c.idempotent_hit;
          external_escrow_id = if truthy? r.escrow_id then r.escrow_id else none;
          principal_token = token;
          dispatched = not c.idempotent_hit;
        })
  unfolding answer_job
  answer_job-token d r p c token t = rw (answer_job, t)
