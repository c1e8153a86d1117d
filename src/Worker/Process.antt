-- ===== src/Worker/Process.antt =====
-- process_job, execute_job_by_id and run_tick of worker.py over the job store. What the run of the
-- agent, the upload, the escrow service and the callback answer is an argument, and so are the
-- transactions of others, the heartbeats among them, that the store meets while the agent runs.
-- json.dumps is an argument; the back-fill of the durable session and the logs are left out.
use Prim.Native.String.{◌++◌ as cat}
use genesis_agents.Base.{
  ℕ, zero, suc, String, Bool, false, not, ◌&&◌, Option, none, some, List, [], ◌∷◌, ◌++◌, get_or,
  if◌then◌else◌,
}
use genesis_agents.Base.Json.{Json}
use genesis_agents.Base.Result.{Result, ok, raise, after}
use genesis_agents.Text.{truthy?, or_empty}
use genesis_agents.Jobs.Table.{Job, Store}
use genesis_agents.Jobs.Operations.{Update, update_job_status}
use genesis_agents.Jobs.History.{Op, run}
use genesis_agents.Worker.Profile.{escrow_permitted}
use genesis_agents.Worker.Callback.{Payload, fire_callback}

-- The result of execute_agent, as far as the worker reads it.
pub record Execution : Type 0 where
  pub ok : Bool
  pub response : String
  pub trace : Json
  pub error : Option String
  pub message : String

-- What happens outside the process: a settlement, a refund, an escrow operation that the guard
-- blocks, and a POST to the callback URL.
pub data Act : Type 0 where
  settled : String → Act
  refunded : String → String → Act
  blocked : String → Act
  posted : String → Payload → Act

-- The type and the message of an exception.
abbrev pub Exception : Type 0
Exception = String × String

-- What the outside answers during one job: the transactions of others while the agent runs, the
-- result or the exception of execute_agent, the upload of the artifacts, if it does not raise, the
-- exceptions, if any, of update_job_status in the try block and in its handler, the one that the
-- heartbeat task has ended with, the time, the profile variable and the status of each callback
-- attempt. An update that raises leaves the tables as they are.
pub record Env : Type 0 where
  pub meanwhile : List Op
  pub execution : Result Exception Execution
  pub upload : Option (List String)
  pub first_update : Option Exception
  pub last_update : Option Exception
  pub heartbeat : Option Exception
  pub now : ℕ
  pub profile : Option String
  pub max_attempts : ℕ
  pub responses : ℕ → Option ℕ

-- The store, the acts, newest last, and the counters of _worker_state.
pub record World : Type 0 where
  pub store : Store
  pub acts : List Act
  pub processed_count : ℕ
  pub failed_count : ℕ

-- `s[:n]`
unfoldable pub cut : ℕ → String → String
cut zero s = String.[]
cut (suc n) String.[] = String.[]
cut (suc n) (String.◌∷◌ c s) = String.◌∷◌ c (cut n s)

-- final_status, final_output and final_error.
pub record Final : Type 0 where
  pub status : String
  pub output : Option String
  pub error : Option String

-- How the try statement ends: with these, or with an exception of its handler, which leaves
-- final_status None.
pub data Ended : Type 0 where
  final : Final → Ended
  escaped : Exception → Ended

abbrev pub act : Act → World → World
act a w = record w { acts = w.acts ++ (a ∷ []) }

abbrev pub update_row : ℕ → String → Update → World → World
update_row now job_id u w = record w { store = after (update_job_status now job_id u) w.store }

-- `bool(callback_url)`
abbrev pub is_external_escrow : Job → Bool
is_external_escrow job = truthy? job.webhook_url

-- The guarded call of the escrow client, for an escrow of one's own.
unfoldable pub own_escrow : Env → Job → String → Act → World → World
own_escrow env job operation call w =
    if truthy? job.escrow_id && not (is_external_escrow job)
    then act (if escrow_permitted env.profile then call else blocked operation) w
    else w

abbrev pub delivery_status : Option (List String) → String
delivery_status none = "DELIVERED_WITH_ARTIFACT_WARNING"
delivery_status (some uris) = "DELIVERED"

-- `artifact_uris if artifact_uris else None`
abbrev pub uris_or_none : Option (List String) → Option (List String)
uris_or_none none = none
uris_or_none (some []) = none
uris_or_none (some (u ∷ us)) = some (u ∷ us)

abbrev pub failure_update : String → String → Update
failure_update code message = record {
  new_status = "FAILED";
  error_code = some code;
  error_message = some (cut 4000 message);
  result_summary = none;
  output_artifact_uris = none;
  allow_terminal_override = false;
}

-- The update of the try block, which is recorded unless an exception comes before or with it.
abbrev pub recorded : Env → Result Exception Update → Result Exception Update
recorded env (raise e) = raise e
recorded env (ok u) = elim env.first_update [ none ↦ ok u | some e ↦ raise e ]

-- A failure whose update has returned: the counter and the refund of an escrow of one's own.
unfoldable pub fail_job : Env → Job → Update → String → String → World → World × Ended
fail_job env job u reason error w =
    let w1 = update_row env.now job.id u w in
    (
      own_escrow env job "release_escrow" (refunded (or_empty job.escrow_id) reason)
          (record w1 { failed_count = suc w1.failed_count }),
      final (record { status = "FAILED"; output = none; error = some error }),
    )

-- The handler after its update.
unfoldable pub handle_after : Option Exception → Env → Job → Exception → World → World × Ended
unfolding fail_job
handle_after (some e) env job x w = (w, escaped e)
handle_after none env job (type, message) w =
    fail_job env job (failure_update type message) (cat "runtime_exception:" type)
      (cat "runtime_exception:" (cat type (cat ": " message))) w

-- `except Exception`, whose own update may raise.
unfoldable pub handle : Env → Job → Exception → World → World × Ended
unfolding handle_after
handle env job x w = handle_after env.last_update env job x w

-- The branch of a result that is ok, from update_job_status on.
unfoldable pub deliver : Env → Job → Execution → Result Exception Update → World → World × Ended
unfolding handle
deliver env job r (raise e) w = handle env job e w
deliver env job r (ok u) w =
    let w1 = update_row env.now job.id u w in
    (
      own_escrow env job "complete_escrow" (settled (or_empty job.escrow_id))
          (record w1 { processed_count = suc w1.processed_count }),
      final
          (record { status = delivery_status env.upload; output = some r.response; error = none }),
    )

-- The branch of a result that is not.
unfoldable pub fail_result : Env → Job → Execution → Result Exception Update → World → World × Ended
unfolding handle fail_job
fail_result env job r (raise e) w = handle env job e w
fail_result env job r (ok u) w =
    fail_job env job u (get_or r.error "agent_failure") (get_or r.error "agent_failure") w

-- The update of a delivery, or the exception of json.dumps.
abbrev pub delivery_of : Option (List String) → Result Exception String → Result Exception Update
delivery_of upload (raise e) = raise e
delivery_of upload (ok text) = ok (record {
  new_status = delivery_status upload;
  error_code = none;
  error_message = none;
  result_summary = some (cut 4000 text);
  output_artifact_uris = uris_or_none upload;
  allow_terminal_override = false;
})

module _ (dumps : String → Json → Result Exception String) where
  abbrev pub delivery_update : Option (List String) → Execution → Result Exception Update
  delivery_update upload r = delivery_of upload (dumps (cut 1800 r.response) r.trace)

  -- After execute_agent, which returns a result or raises.
  abbrev pub settle_result : Result Exception Execution → Env → Job → World → World × Ended
  settle_result (ok r) env job w =
      if r.ok
      then deliver env job r (recorded env (delivery_update env.upload r)) w
      else fail_result env job r
          (recorded env (ok (failure_update (get_or r.error "unknown") r.message))) w
  settle_result (raise e) env job w = handle env job e w

  -- `try` and its handler.
  unfoldable pub settle : Env → Job → World → World × Ended
  unfolding deliver fail_result handle
  settle env job w = settle_result env.execution env job w

  abbrev pub post_all : String → List Payload → List Act
  post_all url [] = []
  post_all url (p ∷ ps) = posted url p ∷ post_all url ps

  abbrev pub payload_of : Job → Final → Payload
  payload_of job f = record {
    job_id = job.id;
    status = f.status;
    output = f.output;
    error = f.error;
    external_escrow_id = if is_external_escrow job then job.escrow_id else none;
  }

  unfoldable pub fire : Env → Job → Final → World → World
  fire env job f w = record w {
    acts =
        w.acts
        ++ post_all (or_empty job.webhook_url)
            (fire_callback env.max_attempts env.responses (payload_of job f)).0;
  }

  -- `if callback_url and final_status`
  unfoldable pub call_back : Env → Job → World × Ended → World × Option Exception
  unfolding fire
  call_back env job (w, final f) = (if is_external_escrow job then fire env job f w else w, none)
  call_back env job (w, escaped e) = (w, some e)

  -- `finally`: an error of the heartbeat task is raised again before the callback.
  unfoldable pub finish_after :
      Option Exception → Env → Job → World × Ended → World × Option Exception
  unfolding call_back
  finish_after none env job x = call_back env job x
  finish_after (some e) env job x = (x.0, some e)

  unfoldable pub finish : Env → Job → World × Ended → World × Option Exception
  unfolding finish_after
  finish env job x = finish_after env.heartbeat env job x

  -- The exception is the one that process_job raises.
  unfoldable pub process_job : Env → Job → World → World × Option Exception
  unfolding settle finish
  process_job env job w =
      finish env job (settle env job (record w { store = run env.meanwhile w.store }))

  -- The claimed jobs, one after another, each with its environment, up to the first that raises.
  unfoldable pub process_all : (Job → Env) → List Job → World → World × Option Exception
  process_all env [] w = (w, none)
  process_all env (j ∷ js) w =
      let rest : World → World × Option Exception = λ v. process_all env js v in
      let (v, raised) = process_job (env j) j w in
      elim raised [ some e ↦ (v, some e) | none ↦ rest v ]
