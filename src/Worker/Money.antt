-- ===== src/Worker/Money.antt =====
-- The acts of process_job of worker.py outside the process, and what each of them rests on.
use Prim.Native.String.{◌++◌ as cat}
use genesis_agents.Base.{◌≡◌, String, Bool, true, false, ◌&&◌, List, ◌++◌, if◌then◌else◌, All, none}
use genesis_agents.Base.Json.{Json}
use genesis_agents.Base.Result.{Result, ok, raise}
use genesis_agents.Text.{truthy?, or_empty}
use genesis_agents.Jobs.Table.{Job}
use genesis_agents.Worker.Profile.{escrow_permitted}
use genesis_agents.Worker.Process.{
  Env, Execution, Exception, World, Ended, final, escaped, Act, settled, refunded, blocked, posted,
  is_external_escrow, delivery_status, recorded, delivery_update,
}

abbrev pub is_ok {ℓ κ} : {E : Type ℓ} {A : Type κ} → Result E A → Bool
is_ok (ok a) = true
is_ok (raise e) = false

module _ (dumps : String → Json → Result Exception String) (env : Env) where
  -- A delivery: the run of the agent was a success, json.dumps has written its answer and
  -- update_job_status has returned.
  abbrev pub is_delivery : Result Exception Execution → Bool
  is_delivery (ok r) = r.ok && is_ok (recorded env (delivery_update dumps env.upload r))
  is_delivery (raise e) = false

  abbrev pub delivered : Bool
  delivered = is_delivery env.execution

  abbrev pub final_status : String
  final_status = if delivered then delivery_status env.upload else "FAILED"

-- An escrow of the worker's own, in a marketplace build.
pub record IsOwn (env : Env) (job : Job) (e : String) : Type 0 where
  pub permitted : escrow_permitted env.profile ≡ true
  pub internal : is_external_escrow job ≡ false
  pub has_escrow : truthy? job.escrow_id ≡ true
  pub same : e ≡ or_empty job.escrow_id

module _ (dumps : String → Json → Result Exception String) where
  abbrev pub IsJustified : Env → Job → Act → Type 0
  IsJustified env job (settled e) = IsOwn env job e × (delivered dumps env ≡ true)
  IsJustified env job (refunded e reason) = IsOwn env job e × (delivered dumps env ≡ false)
  IsJustified env job (blocked op) =
      (escrow_permitted env.profile ≡ false) × (is_external_escrow job ≡ false)
  IsJustified env job (posted url p) =
      (is_external_escrow job ≡ true)
      × (env.heartbeat ≡ none)
      × (url ≡ or_empty job.webhook_url)
      × (p.job_id ≡ job.id)
      × (p.status ≡ final_status dumps env)

-- The status that is reported, if there is one.
abbrev pub Reports : String → Ended → Type 0
Reports status (final f) = f.status ≡ status
Reports status (escaped e) = Unit {0}

-- Acts with a property were added.
abbrev pub Added : (Act → Type 0) → World → World → Type 0
Added J w w' = (new : List Act) × (w'.acts ≡ w.acts ++ new) × All J new

module _ (dumps : String → Json → Result Exception String) (env : Env) (job : Job) where
  -- What a branch of the try statement does.
  Settles : World → World × Ended → Type 0
  Settles w x = Added (IsJustified dumps env job) w x.0 × Reports (final_status dumps env) x.1
