-- ===== src/Worker/Reports.antt =====
-- The row of a job after process_job of worker.py, and the status that its callback reports.
use genesis_agents.Base.{
  ℕ, suc, ◌≡◌, ◌≢◌, refl, sym, ap, ◌∙◌, inl, inr, String, true, false, some, List, [], ◌∷◌, ◌++◌,
  if◌then◌else◌, Bool-cases, ==_ne, none,
}
use genesis_agents.Base.Json.{Json}
use genesis_agents.Base.Result.{Result}
use genesis_agents.Text.{or_empty}
use genesis_agents.Jobs.Table.{Job, find_job, is_terminal}
use genesis_agents.Jobs.Operations.{refuses, set_clauses}
use genesis_agents.Jobs.Updates.{refused, updated}
use genesis_agents.Jobs.History.{run}
use genesis_agents.Worker.Callback.{Payload, attempts, fire_callback, is_success}
use genesis_agents.Worker.Process.{
  Env, Exception, World, Final, final, Act, posted, is_external_escrow, settle_result, settle,
  finish, finish_after, call_back, fire, post_all, payload_of, process_job,
}
use genesis_agents.Worker.Money.{final_status}
use genesis_agents.Worker.Outcome.{
  final_update, Writes, settle_result-Writes, final_update-status, process_job-store,
}

module _ (dumps : String → Json → Result Exception String) (env : Env) (job : Job) where
  -- The row of a job that is still open when its run is over takes the status of its delivery:
  -- DELIVERED or DELIVERED_WITH_ARTIFACT_WARNING after a successful run whose answer json.dumps has
  -- written and whose status update_job_status has recorded, and FAILED otherwise, provided that the
  -- update of the exception handler does not raise. It is completed, unless the upload of the
  -- artifacts of a delivery raised: that status is not a terminal one, and such a row stays open.
  pub row_agrees :
      (w : World) (j : Job)
      → find_job job.id (run env.meanwhile w.store).jobs ≡ some j
      → is_terminal j.status ≡ false
      → env.last_update ≡ none
      → (j' : Job) × (find_job job.id (process_job dumps env job w).0.store.jobs ≡ some j')
        × (j'.status ≡ final_status dumps env)
        × (j'.completed_at
            ≡ (if is_terminal (final_status dumps env) then some env.now else j.completed_at))
  unfolding set_clauses
  row_agrees w j f o l =
      let u = (final_update dumps env job) env.execution in
      (
        set_clauses env.now u j,
        rw ((process_job-store dumps env job) w l) (updated env.now job.id u _ j f (rw o refl)),
        ((final_update-status dumps env job) env.execution).0,
        rw (((final_update-status dumps env job) env.execution).0) refl,
      )

  -- The first post of a callback, where there is one.
  posts :
      (p : Payload) (n : ℕ)
      → (rest : List Payload) × ((fire_callback (suc n) env.responses p).0 ≡ p ∷ rest)
  unfolding fire_callback attempts
  posts p n = elim (Bool-cases (is_success (env.responses 1))) [
    | inl b ↦ ([], rw b refl)
    | inr b ↦ ((attempts env.responses p 2 n).0, rw b refl)
  ]

  fire-posts :
      (w : World) (f : Final) (n : ℕ)
      → env.max_attempts ≡ suc n
      → (rest : List Act) × ((fire dumps env job f w).acts
          ≡ w.acts ++ (posted (or_empty job.webhook_url) (payload_of dumps job f) ∷ rest))
  unfolding fire
  fire-posts w f n m =
      let (rest, e) = posts (payload_of dumps job f) n in
      (
        post_all dumps (or_empty job.webhook_url) rest,
        ap (λ ps. w.acts ++ post_all dumps (or_empty job.webhook_url) ps)
            (ap (λ k. (fire_callback k env.responses (payload_of dumps job f)).0) m ∙ e),
      )

  external-finish :
      (w : World) (f : Final)
      → is_external_escrow job ≡ true
      → env.heartbeat ≡ none
      → (finish dumps env job (w, final f)).0 ≡ fire dumps env job f w
  unfolding finish finish_after call_back
  external-finish w f x h =
      ap (λ l. (finish_after dumps l env job (w, final f)).0) h
      ∙ ap (λ b. if b then fire dumps env job f w else w) x

  external-process :
      (w : World) (n : ℕ)
      → is_external_escrow job ≡ true
      → env.last_update ≡ none
      → env.heartbeat ≡ none
      → env.max_attempts ≡ suc n
      → (p : Payload) × (rest : List Act) × (p.status ≡ final_status dumps env)
        × ((process_job dumps env job w).0.acts
            ≡ w.acts ++ (posted (or_empty job.webhook_url) p ∷ rest))
  unfolding process_job settle Writes
  external-process w n x l h m =
      let w1 = record w { store = run env.meanwhile w.store } in
      let (w2, y) = settle_result dumps env.execution env job w1 in
      let (_, (f, e, s), quiet) = (settle_result-Writes dumps env job) env.execution w1 l in
      let (rest, posted_first) = fire-posts w2 f n m in
      (
        payload_of dumps job f,
        rest,
        s,
        ap (λ z. (finish dumps env job (w2, z)).0.acts) e
            ∙ ap (λ v. v.acts) (external-finish w2 f x h)
            ∙ posted_first
            ∙ ap
                (λ acts.
                  acts ++ (posted (or_empty job.webhook_url) (payload_of dumps job f) ∷ rest))
                (quiet x),
      )

  refused_status :
      (status : String)
      → is_terminal status ≡ true
      → status ≢ final_status dumps env
      → refuses ((final_update dumps env job) env.execution) status ≡ true
  refused_status status t ne = rw (
    t,
    ==_ne ((final_update dumps env job) env.execution).new_status status
        (λ e. ne (sym e ∙ ((final_update-status dumps env job) env.execution).0)),
    ((final_update-status dumps env job) env.execution).1,
  )

  -- The row and the callback can disagree. If the job has reached a terminal status while its agent
  -- ran, the reaper's EXPIRED for instance, other than that of its delivery, process_job leaves the
  -- row as it is and reports the status of the delivery, or FAILED without one, to the callback URL
  -- all the same. Conditions: the update of the exception handler does not raise, the heartbeat task
  -- has not failed, and at least one attempt of a callback is made.
  pub row_disagrees :
      (w : World) (j : Job) (n : ℕ)
      → find_job job.id (run env.meanwhile w.store).jobs ≡ some j
      → is_terminal j.status ≡ true
      → j.status ≢ final_status dumps env
      → is_external_escrow job ≡ true
      → env.last_update ≡ none
      → env.heartbeat ≡ none
      → env.max_attempts ≡ suc n
      → (find_job job.id (process_job dumps env job w).0.store.jobs ≡ some j)
        × ((p : Payload) × (rest : List Act) × (p.status ≡ final_status dumps env)
            × ((process_job dumps env job w).0.acts
                ≡ w.acts ++ (posted (or_empty job.webhook_url) p ∷ rest)))
  row_disagrees w j n f t ne x l h m =
      let u = (final_update dumps env job) env.execution in
      (
        rw ((process_job-store dumps env job) w l) (
            rw
              (refused env.now job.id u (run env.meanwhile w.store) j f
                (refused_status j.status t ne))
              f),
        external-process w n x l h m,
      )
