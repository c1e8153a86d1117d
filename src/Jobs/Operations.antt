-- ===== src/Jobs/Operations.antt =====
-- The functions of job_store.py, each one transaction. The NOW() of a call and the ids that
-- `_gen_id` draws are arguments.
use genesis_agents.Base.{
  ℕ, ◌+◌, ◌*◌, String, Bool, true, false, not, ◌&&◌, Option, none, some, List, [], ◌∷◌, ◌==◌,
  if◌then◌else◌, ltb, map, filter, contains, take, length, get_or,
}
use genesis_agents.Base.Json.{Json, text}
use genesis_agents.Base.Result.{Tx, ok, pure, gets, ◌>>=◌, ◌>>◌}
use genesis_agents.Text.{truthy}
use genesis_agents.Jobs.Table.{
  Job, Event, Store, DbError, is_terminal, find_job, find_key, update_where, has_id, insert_job,
  status_change, insert_events, set_jobs, order_by_created, ids,
}

-- The keyword arguments of create_job.
pub record NewJob : Type 0 where
  pub agent_slug : String
  pub prompt : String
  pub params : Option (List (String × Json))
  pub buyer_wallet_id : Option String
  pub buyer_client_id : Option String
  pub price_tier_cents : Option ℕ
  pub idempotency_key : Option String
  pub webhook_url : Option String
  pub webhook_secret : Option String
  pub escrow_id : Option String
  pub tenant_id : Option String
  pub owner_principal_id : Option String

pub record Created : Type 0 where
  pub id : String
  pub status : String
  pub created_at : Option ℕ
  pub idempotent_hit : Bool

abbrev pub new_row : ℕ → String → NewJob → Job
new_row now job_id n = record {
  id = job_id;
  agent_slug = n.agent_slug;
  buyer_wallet_id = n.buyer_wallet_id;
  buyer_client_id = n.buyer_client_id;
  tenant_id = n.tenant_id;
  owner_principal_id = n.owner_principal_id;
  prompt = n.prompt;
  params = get_or n.params [];
  status = "QUEUED";
  price_tier_cents = n.price_tier_cents;
  idempotency_key = n.idempotency_key;
  webhook_url = n.webhook_url;
  webhook_secret = n.webhook_secret;
  escrow_id = n.escrow_id;
  output_artifact_uris = [];
  result_summary = none;
  error_code = none;
  error_message = none;
  started_at = none;
  completed_at = none;
  last_heartbeat_at = none;
  created_at = now;
  updated_at = now;
}

-- The idempotency check, made for a key that is not empty.
abbrev pub existing : Option String → List Job → Option Job
existing none js = none
existing (some k) js = if truthy k then find_key k js else none

insert_new : ℕ → String → NewJob → Tx DbError Store Created
insert_new now job_id n = do
  insert_job (new_row now job_id n)
  insert_events (status_change now none "QUEUED" job_id ∷ [])
  pure (record { id = job_id; status = "QUEUED"; created_at = some now; idempotent_hit = false })

unfoldable pub create_job : ℕ → String → NewJob → Tx DbError Store Created
unfolding find_key insert_new insert_job insert_events
create_job now job_id n s = elim (existing n.idempotency_key s.jobs) [
  | none ↦ insert_new now job_id n s
  | some j ↦
      ok (record { id = j.id; status = j.status; created_at = none; idempotent_hit = true }, s)
]

-- `d[k] = v`
unfoldable pub set_param : String → Json → List (String × Json) → List (String × Json)
set_param k v [] = (k, v) ∷ []
set_param k v ((j, w) ∷ d) = if j == k then (j, v) ∷ d else (j, w) ∷ set_param k v d

-- The arguments of create_child_job.
pub record NewChild : Type 0 where
  pub child_job_id : String
  pub agent_slug : String
  pub prompt : String
  pub parent_job_id : String
  pub params : Option (List (String × Json))

-- `parent.get(...)`, where a missing parent row is `{}`.
abbrev of_parent : (Job → Option String) → Option Job → Option String
of_parent field none = none
of_parent field (some j) = field j

unfoldable pub child_row : ℕ → NewChild → Option Job → Job
unfolding set_param
child_row now c parent = record {
  id = c.child_job_id;
  agent_slug = c.agent_slug;
  buyer_wallet_id = none;
  buyer_client_id = none;
  tenant_id = of_parent (λ j. j.tenant_id) parent;
  owner_principal_id = of_parent (λ j. j.owner_principal_id) parent;
  prompt = c.prompt;
  params = set_param "_parent_job_id" (text c.parent_job_id) (get_or c.params []);
  status = "RUNNING";
  price_tier_cents = none;
  idempotency_key = none;
  webhook_url = none;
  webhook_secret = none;
  escrow_id = none;
  output_artifact_uris = [];
  result_summary = none;
  error_code = none;
  error_message = none;
  started_at = some now;
  completed_at = none;
  last_heartbeat_at = some now;
  created_at = now;
  updated_at = now;
}

-- INSERT ... ON CONFLICT (id) DO NOTHING
insert_if_new : Job → Tx DbError Store (Unit {0})
insert_if_new j s = elim (find_job j.id s.jobs) [ none ↦ insert_job j s | some _ ↦ ok (tt, s) ]

unfoldable pub create_child_job : ℕ → NewChild → Tx DbError Store String
unfolding find_job child_row insert_if_new insert_job insert_events
create_child_job now c = do
  parent ← gets (λ s. find_job c.parent_job_id s.jobs)
  insert_if_new (child_row now c parent)
  insert_events (status_change now none "RUNNING" c.child_job_id ∷ [])
  pure c.child_job_id

unfoldable pub get_job : String → Store → Option Job
unfolding find_job
get_job i s = find_job i s.jobs

-- The keyword arguments of update_job_status.
pub record Update : Type 0 where
  pub new_status : String
  pub error_code : Option String
  pub error_message : Option String
  pub result_summary : Option String
  pub output_artifact_uris : Option (List String)
  pub allow_terminal_override : Bool

-- COALESCE(a, b)
abbrev pub coalesce : Option ℕ → ℕ → ℕ
coalesce none d = d
coalesce (some t) d = t

-- A column that is set only if its argument is not None.
abbrev set_if {ℓ} : {A : Type ℓ} → Option A → Option A → Option A
set_if none old = old
set_if (some v) old = some v

-- The SET clauses of update_job_status.
unfoldable pub set_clauses : ℕ → Update → Job → Job
unfolding is_terminal
set_clauses now u j = record j {
  status = u.new_status;
  output_artifact_uris = get_or u.output_artifact_uris j.output_artifact_uris;
  result_summary = set_if u.result_summary j.result_summary;
  error_code = set_if u.error_code j.error_code;
  error_message = set_if u.error_message j.error_message;
  started_at = if u.new_status == "RUNNING" then some (coalesce j.started_at now) else j.started_at;
  completed_at = if is_terminal u.new_status then some now else j.completed_at;
  updated_at = now;
}

-- The guard of update_job_status.
abbrev pub refuses : Update → String → Bool
refuses u from_status =
    is_terminal from_status && not (u.new_status == from_status) && not u.allow_terminal_override

unfoldable pub update_job_status : ℕ → String → Update → Tx DbError Store Bool
unfolding find_job update_where set_jobs insert_events
update_job_status now job_id u s = elim (find_job job_id s.jobs) [
  | none ↦ ok (false, s)
  | some row ↦
      if refuses u row.status
      then ok (false, s)
      else (do
        set_jobs (update_where (has_id job_id) (set_clauses now u) s.jobs)
        insert_events (status_change now (some row.status) u.new_status job_id ∷ [])
        pure true)
          s
]

-- `cur.rowcount > 0`
abbrev exists_job : String → List Job → Bool
exists_job i js = elim (find_job i js) [ none ↦ false | some _ ↦ true ]

abbrev pub beat_row : ℕ → Job → Job
beat_row now j = record j { last_heartbeat_at = some now }

unfoldable pub heartbeat : ℕ → String → Tx DbError Store Bool
unfolding find_job update_where set_jobs
heartbeat now job_id s =
    (do
      set_jobs (update_where (has_id job_id) (beat_row now) s.jobs)
      pure (exists_job job_id s.jobs))
      s

-- The SET clauses of the two claims.
unfoldable pub claim : ℕ → Job → Job
claim now j = record j {
  status = "RUNNING";
  started_at = some (coalesce j.started_at now);
  last_heartbeat_at = some now;
  updated_at = now;
}

abbrev pub is_queued : Job → Bool
is_queued j = j.status == "QUEUED"

abbrev pub claimed_event : ℕ → String → Event
claimed_event now = status_change now (some "QUEUED") "RUNNING"

unfoldable pub claim_job_by_id : ℕ → String → Tx DbError Store (Option Job)
unfolding find_job update_where set_jobs insert_events
claim_job_by_id now job_id s = elim (find_job job_id s.jobs) [
  | none ↦ ok (none, s)
  | some row ↦
      if is_queued row
      then (do
        set_jobs (update_where (λ j. has_id job_id j && is_queued j) (claim now) s.jobs)
        insert_events (claimed_event now job_id ∷ [])
        pure (some (claim now row)))
          s
      else ok (none, s)
]

-- The subquery of claim_queued_jobs. `locked` tells the rows that other transactions hold.
unfoldable pub claimable : (String → Bool) → ℕ → List Job → List Job
unfolding filter order_by_created
claimable locked limit js =
    take limit (order_by_created (filter (λ j. is_queued j && not (locked j.id)) js))

unfoldable pub claim_queued_jobs : ℕ → (String → Bool) → ℕ → Tx DbError Store (List Job)
unfolding claimable update_where set_jobs insert_events contains
claim_queued_jobs now locked limit s =
    (do
      let claimed = claimable locked limit s.jobs
      set_jobs (update_where (λ j. contains (ids claimed) j.id) (claim now) s.jobs)
      insert_events (map (claimed_event now) (ids claimed))
      pure (map (claim now) claimed))
      s

-- Seconds in a minute; `make_interval(mins => n)`.
abbrev pub minutes : ℕ → ℕ
minutes n = 60 * n

-- COALESCE("lastHeartbeatAt", "startedAt", "createdAt")
abbrev pub last_sign : Job → ℕ
last_sign j = coalesce j.last_heartbeat_at (coalesce j.started_at j.created_at)

-- The WHERE of expire_stale_running_jobs: `t < NOW() - interval`, with no subtraction.
unfoldable pub is_stale : ℕ → ℕ → Job → Bool
is_stale now stale_minutes j =
    (j.status == "RUNNING") && ltb (last_sign j + minutes stale_minutes) now

-- The SET clauses of expire_stale_running_jobs. `message` is 'No heartbeat for N+ minutes'.
unfoldable pub expire : ℕ → String → Job → Job
expire now message j = record j {
  status = "EXPIRED";
  error_code = some "stale_heartbeat";
  error_message = some message;
  completed_at = some now;
  updated_at = now;
}

unfoldable pub expire_stale_running_jobs : ℕ → ℕ → String → Tx DbError Store ℕ
unfolding is_stale filter update_where set_jobs insert_events
expire_stale_running_jobs now stale_minutes message s =
    (do
      let expired = ids (filter (is_stale now stale_minutes) s.jobs)
      set_jobs (update_where (is_stale now stale_minutes) (expire now message) s.jobs)
      insert_events (map (status_change now (some "RUNNING") "EXPIRED") expired)
      pure (length expired))
      s
