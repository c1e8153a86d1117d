-- ===== src/Gateway/Unsigned.antt =====
-- What the signature of an AP2 request leaves open on POST /agents/{slug}/jobs of main.py.
use genesis_agents.Base.{ℕ, ◌≡◌, refl, ◌∙◌, String, true, Option, some, List, arith}
use genesis_agents.Base.Json.{Fields, object}
use genesis_agents.Base.Result.{ok}
use genesis_agents.Envelope.Values.{get_field}
use genesis_agents.Auth.Envelope.{Principal, Wire, Nonce}
use genesis_agents.Auth.Tokens.{TokenCodec}
use genesis_agents.Jobs.Table.{Job, Store, find_job}
use genesis_agents.Gateway.Http.{Python, get, put}
use genesis_agents.Gateway.Identity.{Headers, Config, verify_agent_principal}
use genesis_agents.Gateway.Bodies.{get_field-put, verify_agent_principal-put}
use genesis_agents.Gateway.Submit.{
  JobRequest, Drawn, request_of, as_text, as_cents, prompt_of, params_of, read_request, new_job,
  entries, submit_job, check_webhook,
}
use genesis_agents.Gateway.Created.{IsNew, row_of, submit_job-new, find_job-inserted}

request_of-params :
    (a : Option String) (b : Option Fields) (c d e : Option (Option String)) (f : Option (Option ℕ))
    (g h : Option (Option String)) (v : Fields) (r : JobRequest)
    → request_of a b c d e f g h ≡ some r
    → request_of a (some v) c d e f g h ≡ some (record r { params = v })
unfolding request_of
request_of-params a b c d e f g h v r p = ground arith

module _ (py : Python) (v body : Fields) where
  read_request-put :
      (r : JobRequest)
      → read_request py body ≡ some r
      → read_request py (put "params" (object v) body) ≡ some (record r { params = v })
  unfolding read_request
  read_request-put r h =
      rw
        (
          get_field-put "params" "prompt" (object v) body,
          get_field-put "params" "params" (object v) body,
          get_field-put "params" "idempotency_key" (object v) body,
          get_field-put "params" "webhook_url" (object v) body,
          get_field-put "params" "callback_url" (object v) body,
          get_field-put "params" "price_tier_cents" (object v) body,
          get_field-put "params" "escrow_id" (object v) body,
          get_field-put "params" "client_id" (object v) body,
        )
        (request_of-params (prompt_of (get_field "prompt" body))
          (params_of (get_field "params" body)) (as_text (get "idempotency_key" body))
          (as_text (get "webhook_url" body)) (as_text (get "callback_url" body))
          (as_cents py (get "price_tier_cents" body)) (as_text (get "escrow_id" body))
          (as_text (get "client_id" body)) v r h)

  -- Whoever may change a request to /agents/{slug}/jobs on its way can put any parameters into the
  -- body: the gateway answers with the same principal and spends the same nonces as for the request
  -- that was signed, and the job in the table has those parameters. This holds for each request whose
  -- fields have their types, with a callback URL that is not blocked, and a fresh id and idempotency
  -- key.
  pub params_unsigned :
      (wire : Wire Fields) (codec : TokenCodec) (cfg : Config) (h : Headers) (slug : String)
      (nonces nonces' : List Nonce) (p : Principal) (d : Drawn) (r : JobRequest) (s : Store)
      → verify_agent_principal py wire cfg h body slug nonces ≡ (ok p, nonces')
      → read_request py body ≡ some r
      → check_webhook py r.webhook_url ≡ ok tt
      → IsNew d r s
      → (verify_agent_principal py wire cfg h (put "params" (object v) body) slug nonces
          ≡ (ok p, nonces'))
        × (read_request py (put "params" (object v) body) ≡ some (record r { params = v }))
        × (j : Job) × (find_job d.job_id
              (submit_job py codec true d slug (record r { params = v }) p s).1.jobs
            ≡ some j)
        × (j.params ≡ entries v)
        × (j.tenant_id ≡ some p.tenant_id)
        × (j.owner_principal_id ≡ some p.principal_id)
        × (j.status ≡ "QUEUED")
  params_unsigned wire codec cfg h slug nonces nonces' p d r s q e w n =
      let r' : JobRequest = record r { params = v } in
      let n' : IsNew d r' s = record {
        no_job = n.no_job;
        no_existing = n.no_existing;
        free_key = n.free_key;
      } in
      (
        verify_agent_principal-put py (object v) body wire cfg h slug nonces ∙ q,
        read_request-put r e,
        row_of d slug r' p,
        rw (submit_job-new py codec d slug r' p s w n') (find_job-inserted d slug r' p s n'),
        unfold new_job in refl,
        unfold new_job in refl,
        unfold new_job in refl,
        unfold new_job in refl,
      )
