-- ===== src/Gateway/Escrows.antt =====
-- The escrows of one request to run_agent of main.py.
use genesis_agents.Base.{
  ◌≡◌, refl, inl, inr, ap, ◌∙◌, String, true, false, not, ◌&&◌, Option, none, List, [], ◌∷◌, ◌==◌,
  arith, Bool-cases, Option-cases,
}
use genesis_agents.Base.Json.{Json, Fields}
use genesis_agents.Base.Result.{Result-cases}
use genesis_agents.Text.{truthy?, or_empty}
use genesis_agents.Auth.Envelope.{Principal}
use genesis_agents.Auth.Tokens.{TokenCodec}
use genesis_agents.Jobs.Operations.{Created}
use genesis_agents.Gateway.Http.{Python}
use genesis_agents.Gateway.Context.{scoped_runtime_params}
use genesis_agents.Gateway.Submit.{token_for}
use genesis_agents.Gateway.Run.{
  RunRequest, Bundle, World, Outside, Run, skips_escrow, prefers_sync, prohibited_tools,
  answer_persona, raise_for_runtime_failure,
}
use genesis_agents.Gateway.Execute.{
  reserved, reserve, release, enqueue, answer_queued, queue_job, run_async, finish_run,
  close_escrow, run_sync, run_bundle, run_loaded, run_agent, refuse_names, job_prompt, asked_price,
}

-- The gateway may not touch an escrow for this request: the escrow client is not permitted, or the
-- request brings an escrow of its own or asks to skip it.
abbrev pub IsBarred : Outside → RunRequest → Type 0
IsBarred o body = (o.escrow_ok && not (skips_escrow body)) ≡ false

refuse_names-money :
    (names : List String) (w : World) (rest : Run)
    → rest.1.money ≡ w.money
    → (refuse_names names w rest).1.money ≡ w.money
refuse_names-money [] w rest h = h
refuse_names-money (name ∷ names) w rest h = refl

module _ (py : Python) (o : Outside) where
  pub answer_persona-world : (w : World) → (answer_persona py o w).1 ≡ w
  unfolding answer_persona
  answer_persona-world w = elim (Result-cases o.router) [ inl (e, r) ↦ rw r | inr (a, r) ↦ rw r ]

  answer_queued-world :
      (codec : TokenCodec) (body : RunRequest) (p : Principal) (escrow : Option String)
      (job : Created) (w : World)
      → (answer_queued py codec o body p escrow job w).1 ≡ w
  unfolding answer_queued
  answer_queued-world codec body p escrow job w =
      elim (Result-cases (token_for py codec o.drawn p)) [
        | inl (e, r) ↦ rw (answer_queued, r)
        | inr (a, r) ↦ rw (answer_queued, r)
      ]

  reserve-barred :
      (body : RunRequest) (price buyer : Json) (wallet : Option String) (w : World)
      → IsBarred o body
      → reserve py o (skips_escrow body) price buyer wallet w ≡ reserved none w
  unfolding reserve
  reserve-barred body price buyer wallet w b = ground arith

  pub release-none : (body : RunRequest) (w : World) → release py o body none w ≡ w
  unfolding release
  release-none body w = refl

  release-external :
      (body : RunRequest) (w : World)
      → truthy? body.escrow_id ≡ true
      → release py o body body.escrow_id w ≡ w
  unfolding release
  release-external body w t = ground arith

  queue_job-money :
      (codec : TokenCodec) (slug : String) (body : RunRequest) (p : Principal) (prompt : String)
      (params : Fields) (price : Json) (escrow : Option String) (w : World)
      → release py o body escrow w ≡ w
      → (queue_job py codec o slug body p prompt params price escrow w).1.money ≡ w.money
  unfolding queue_job
  queue_job-money codec slug body p prompt params price escrow w r =
      elim (Option-cases (enqueue py o slug body p prompt params price escrow w.store)) [
        | inl n ↦ rw (queue_job, n, r)
        | inr ((job, s'), e) ↦
            rw (queue_job, e)
              (ap (λ x. x.money)
                (answer_queued-world codec body p escrow job (record w { store = s' })))
      ]

  run_async-money :
      (codec : TokenCodec) (slug : String) (body : RunRequest) (p : Principal) (b : Bundle)
      (w : World)
      → IsBarred o body
      → (run_async py codec o slug body p b w).1.money ≡ w.money
  unfolding run_async
  run_async-money codec slug body p b w barred = elim (Bool-cases o.job_store_ok) [
    | inr n ↦ rw (run_async, n)
    | inl y ↦ elim (Result-cases (scoped_runtime_params py body.task p)) [
      | inl (e, r) ↦ rw (run_async, y, r)
      | inr (params, r) ↦ elim (Bool-cases (truthy? body.escrow_id)) [
        | inl t ↦
            rw (run_async, y, r, t)
              (queue_job-money codec slug body p (job_prompt py body) params
                (asked_price py params b) body.escrow_id w (release-external body w t))
        | inr t ↦
            rw (run_async, y, r, reserve-barred body _ _ b.wallet_id w barred, t)
              (queue_job-money codec slug body p (job_prompt py body) params
                (asked_price py params b) none w (release-none body w))
      ]
    ]
  ]

  pub finish_run-world :
      (escrow : Option String) (result : Fields) (w : World)
      → (finish_run py o escrow result w).1 ≡ close_escrow py o escrow result w
  unfolding finish_run
  finish_run-world escrow result w = elim (Result-cases (raise_for_runtime_failure py result)) [
    | inl (e, r) ↦ rw (finish_run, r)
    | inr (u, r) ↦ rw (finish_run, r)
  ]

  pub finish_run-none : (result : Fields) (w : World) → (finish_run py o none result w).1 ≡ w
  finish_run-none result w = finish_run-world none result w ∙ (unfold close_escrow in refl)

  run_sync-money :
      (body : RunRequest) (p : Principal) (b : Bundle) (w : World)
      → IsBarred o body
      → (run_sync py o body p b w).1.money ≡ w.money
  unfolding run_sync
  run_sync-money body p b w barred = elim (Bool-cases o.runtime_ready) [
    | inr n ↦ rw (run_sync, n) (ap (λ x. x.money) (answer_persona-world w))
    | inl y ↦ elim (Result-cases (scoped_runtime_params py body.task p)) [
      | inl (e, r) ↦ rw (run_sync, y, r)
      | inr (params, r) ↦ elim (Result-cases o.executed) [
        | inl (e, x) ↦
            rw (run_sync, y, r, reserve-barred body _ _ b.wallet_id w barred, x)
              (ap (λ v. v.money) (answer_persona-world w))
        | inr (result, x) ↦
            rw (run_sync, y, r, reserve-barred body _ _ b.wallet_id w barred, x)
              (ap (λ v. v.money) (finish_run-none result w))
      ]
    ]
  ]

  run_bundle-money :
      (codec : TokenCodec) (slug : String) (body : RunRequest) (p : Principal) (b : Bundle)
      (w : World)
      → IsBarred o body
      → (run_bundle py codec o slug body p b w).1.money ≡ w.money
  unfolding run_bundle
  run_bundle-money codec slug body p b w barred = elim (Bool-cases (prefers_sync py body)) [
    | inl y ↦ elim (Bool-cases (o.is_specialist b.slug && not o.entity_pack_ok)) [
      | inl z ↦ rw (run_bundle, y, z)
      | inr z ↦ rw (run_bundle, y, z) (ap (λ x. x.money) (answer_persona-world w))
    ]
    | inr n ↦ elim (Bool-cases (or_empty b.job_mode == "async")) [
      | inl z ↦ rw (run_bundle, n, z) (run_async-money codec slug body p b w barred)
      | inr z ↦ rw (run_bundle, n, z) (run_sync-money body p b w barred)
    ]
  ]

  run_loaded-money :
      (codec : TokenCodec) (slug : String) (body : RunRequest) (p : Principal) (w : World)
      → IsBarred o body
      → (run_loaded py codec o slug body p w).1.money ≡ w.money
  unfolding run_loaded
  run_loaded-money codec slug body p w barred = elim (Bool-cases o.runtime_import_ok) [
    | inr n ↦ rw (run_loaded, n)
    | inl y ↦ elim (Option-cases o.first_load) [
      | inl n ↦ rw (run_loaded, y, n)
      | inr (found, f) ↦ elim (Option-cases found) [
        | inl n ↦ rw (run_loaded, y, f, n)
        | inr (b, e) ↦ elim (Option-cases o.second_load) [
          | inl n ↦ rw (run_loaded, y, f, e, n) (ap (λ x. x.money) (answer_persona-world w))
          | inr (c, d) ↦ rw (run_loaded, y, f, e, d) (run_bundle-money codec slug body p c w barred)
        ]
      ]
    ]
  ]

  -- POST /agents/{slug}/run moves no money where the escrow client is not permitted, nor where the
  -- request brings an escrow of its own or asks to skip it: on every path, errors, crashes of the
  -- agent and failures to queue the job included, no escrow is initiated, settled or refunded.
  pub run_agent-money :
      (codec : TokenCodec) (slug : String) (body : RunRequest) (p : Principal) (w : World)
      → IsBarred o body
      → (run_agent py codec o slug body p w).1.money ≡ w.money
  unfolding run_agent
  run_agent-money codec slug body p w barred =
      refuse_names-money (prohibited_tools py body.task (o.resolve_slug slug)) w _
        (run_loaded-money codec slug body p w barred)
