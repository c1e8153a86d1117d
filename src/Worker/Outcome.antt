-- ===== src/Worker/Outcome.antt =====
-- The update, the status and the silence of every branch of process_job of worker.py whose last
-- update returns.
use Prim.Native.String.{◌++◌ as cat}
use genesis_agents.Base.{
  ◌≡◌, refl, sym, ◌∙◌, inl, inr, String, true, false, some, get_or, if◌then◌else◌, arith, Option,
  Option-cases, none, subst, Bool, ◌&&◌,
}
use genesis_agents.Base.Json.{Json}
use genesis_agents.Base.Result.{Result, ok, raise, after}
use genesis_agents.Jobs.Table.{Job}
use genesis_agents.Jobs.Operations.{Update, update_job_status}
use genesis_agents.Jobs.History.{run}
use genesis_agents.Worker.Process.{
  Env, Execution, Exception, World, Final, Ended, final, escaped, Act, own_escrow,
  is_external_escrow, delivery_status, recorded, deliver, fail_job, fail_result, handle,
  handle_after, settle_result, settle, finish, finish_after, delivery_of, cut, call_back, fire,
  process_job, delivery_update, failure_update,
}
use genesis_agents.Worker.Money.{is_ok, is_delivery}

module _ (dumps : String → Json → Result Exception String) (env : Env) (job : Job) where
  -- The update that stays: that of the try block, or that of the handler.
  abbrev pub chosen : Result Exception Update → Update
  chosen (ok u) = u
  chosen (raise (type, message)) = failure_update type message

  abbrev pub final_update : Result Exception Execution → Update
  final_update (ok r) = chosen (
      if r.ok
      then recorded env (delivery_update dumps env.upload r)
      else recorded env (ok (failure_update (get_or r.error "unknown") r.message)))
  final_update (raise e) = chosen (raise e)

  -- A branch of the try statement writes this update, makes a final record with this status, and
  -- calls nobody if the job has a callback.
  unfoldable pub Writes : Update → String → World → World × Ended → Type 0
  Writes u status w x =
      (x.0.store ≡ after (update_job_status env.now job.id u) w.store)
      × ((f : Final) × (x.1 ≡ final f) × (f.status ≡ status))
      × (is_external_escrow job ≡ true → x.0.acts ≡ w.acts)

  own_escrow-store :
      (operation : String) (call : Act) (w : World)
      → (own_escrow env job operation call w).store ≡ w.store
  unfolding own_escrow
  own_escrow-store operation call w = ground arith

  external-own_escrow :
      (operation : String) (call : Act) (w : World)
      → is_external_escrow job ≡ true
      → (own_escrow env job operation call w).acts ≡ w.acts
  unfolding own_escrow
  external-own_escrow operation call w x = ground arith

  fail_job-Writes :
      (u : Update) (reason error : String) (w : World)
      → Writes u "FAILED" w (fail_job env job u reason error w)
  unfolding fail_job Writes
  fail_job-Writes u reason error w = (
    own_escrow-store _ _ _,
    (record { status = "FAILED"; output = none; error = some error }, refl, refl),
    λ x. external-own_escrow _ _ _ x,
  )

  handle-Writes :
      (e : Exception) (w : World)
      → env.last_update ≡ none
      → Writes (chosen (raise e)) "FAILED" w (handle env job e w)
  unfolding handle handle_after
  handle-Writes (type, message) w l =
      subst
        (λ o.
          Writes (failure_update type message) "FAILED" w
            (handle_after o env job (type, message) w))
        (sym l) (fail_job-Writes _ _ (cat "runtime_exception:" (cat type (cat ": " message))) w)

  deliver-Writes :
      (r : Execution) (x : Result Exception Update) (w : World)
      → env.last_update ≡ none
      → Writes
          (chosen x)
          (if is_ok x then delivery_status env.upload else "FAILED")
          w
          (deliver env job r x w)
  unfolding deliver Writes
  deliver-Writes r (raise e) w l = handle-Writes e w l
  deliver-Writes r (ok u) w l = (
    own_escrow-store _ _ _,
    (
      record { status = delivery_status env.upload; output = some r.response; error = none },
      refl,
      refl,
    ),
    λ x. external-own_escrow _ _ _ x,
  )

  fail_result-Writes :
      (r : Execution) (x : Result Exception Update) (w : World)
      → env.last_update ≡ none
      → Writes (chosen x) "FAILED" w (fail_result env job r x w)
  unfolding fail_result
  fail_result-Writes r (raise e) w l = handle-Writes e w l
  fail_result-Writes r (ok u) w l = fail_job-Writes u _ (get_or r.error "agent_failure") w

  Writes-if :
      (b : Bool) (u v : Result Exception Update) (s : Bool) (w : World) (x y : World × Ended)
      → Writes (chosen u) (if s then delivery_status env.upload else "FAILED") w x
      → Writes (chosen v) "FAILED" w y
      → Writes
          (chosen (if b then u else v))
          (if b && s then delivery_status env.upload else "FAILED")
          w
          (if b then x else y)
  Writes-if true u v s w x y h k = h
  Writes-if false u v s w x y h k = k

  pub settle_result-Writes :
      (x : Result Exception Execution) (w : World)
      → env.last_update ≡ none
      → Writes
          (final_update x)
          (if is_delivery dumps env x then delivery_status env.upload else "FAILED")
          w
          (settle_result dumps x env job w)
  settle_result-Writes (raise e) w l = handle-Writes e w l
  settle_result-Writes (ok r) w l =
      let u = recorded env (delivery_update dumps env.upload r) in
      let v = recorded env (ok (failure_update (get_or r.error "unknown") r.message)) in
      Writes-if r.ok u v (is_ok u) w (deliver env job r u w) (fail_result env job r v w)
        (deliver-Writes r u w l) (fail_result-Writes r v w l)

  call_back-store : (w : World) (x : Ended) → (call_back dumps env job (w, x)).0.store ≡ w.store
  unfolding call_back fire
  call_back-store w (escaped e) = refl
  call_back-store w (final f) = ground arith

  pub finish_after-store :
      (l : Option Exception) (w : World) (x : Ended)
      → (finish_after dumps l env job (w, x)).0.store ≡ w.store
  unfolding finish_after
  finish_after-store none w x = call_back-store w x
  finish_after-store (some e) w x = refl

  -- An update of a worker is not an operator's, and its status is that of the delivery.
  abbrev pub WritesStatus : Update → String → Type 0
  WritesStatus u status = (u.new_status ≡ status) × (u.allow_terminal_override ≡ false)

  recorded-status :
      (u : Update) (status : String)
      → WritesStatus u status
      → WritesStatus
          (chosen (recorded env (ok u)))
          (if is_ok (recorded env (ok u)) then status else "FAILED")
  recorded-status u status h = elim (Option-cases env.first_update) [
    | inl n ↦ rw n h
    | inr ((type, message), e) ↦ rw e (refl, refl)
  ]

  failed-status :
      (u : Update) → WritesStatus u "FAILED" → WritesStatus (chosen (recorded env (ok u))) "FAILED"
  failed-status u h = elim (Option-cases env.first_update) [
    | inl n ↦ rw n h
    | inr ((type, message), e) ↦ rw e (refl, refl)
  ]

  delivery_of-status :
      (t : Result Exception String)
      → WritesStatus (chosen (recorded env (delivery_of env.upload t))) (
          if is_ok (recorded env (delivery_of env.upload t))
          then delivery_status env.upload
          else "FAILED")
  delivery_of-status (raise (type, message)) = (refl, refl)
  delivery_of-status (ok text) = recorded-status _ (delivery_status env.upload) (refl, refl)

  WritesStatus-if :
      (b : Bool) (u v : Result Exception Update)
      → WritesStatus (chosen u) (if is_ok u then delivery_status env.upload else "FAILED")
      → WritesStatus (chosen v) "FAILED"
      → WritesStatus
          (chosen (if b then u else v))
          (if b && is_ok u then delivery_status env.upload else "FAILED")
  WritesStatus-if true u v h k = h
  WritesStatus-if false u v h k = k

  pub final_update-status :
      (x : Result Exception Execution)
      → WritesStatus
          (final_update x)
          (if is_delivery dumps env x then delivery_status env.upload else "FAILED")
  final_update-status (raise (type, message)) = (refl, refl)
  final_update-status (ok r) =
      WritesStatus-if r.ok (recorded env (delivery_update dumps env.upload r)) _
        (delivery_of-status (dumps (cut 1800 r.response) r.trace))
        (failed-status (failure_update (get_or r.error "unknown") r.message) (refl, refl))

  pub process_job-store :
      (w : World)
      → env.last_update ≡ none
      → (process_job dumps env job w).0.store
        ≡ after
            (update_job_status env.now job.id (final_update env.execution))
            (run env.meanwhile w.store)
  unfolding process_job settle finish Writes
  process_job-store w l =
      let w1 = record w { store = run env.meanwhile w.store } in
      let (w2, x) = settle_result dumps env.execution env job w1 in
      finish_after-store env.heartbeat w2 x ∙ (settle_result-Writes env.execution w1 l).0
