-- ===== src/Jobs/Table.antt =====
-- The tables of job_store.py and the statements that its functions run on them. NOW() is a number
-- of seconds; the ids of event rows, fresh UUIDs that nothing reads, are left out.
use genesis_agents.Base.{
  ℕ, String, Bool, true, false, ◌&&◌, Option, none, some, List, [], ◌∷◌, ◌++◌, contains, ◌==◌,
  if◌then◌else◌, leb, map,
}
use genesis_agents.Base.Json.{Json}
use genesis_agents.Base.Result.{Tx, ok, raise}

-- A row of genesis_jobs.
pub record Job : Type 0 where
  pub id : String
  pub agent_slug : String
  pub buyer_wallet_id : Option String
  pub buyer_client_id : Option String
  pub tenant_id : Option String
  pub owner_principal_id : Option String
  pub prompt : String
  pub params : List (String × Json)
  pub status : String
  pub price_tier_cents : Option ℕ
  pub idempotency_key : Option String
  pub webhook_url : Option String
  pub webhook_secret : Option String
  pub escrow_id : Option String
  pub output_artifact_uris : List String
  pub result_summary : Option String
  pub error_code : Option String
  pub error_message : Option String
  pub started_at : Option ℕ
  pub completed_at : Option ℕ
  pub last_heartbeat_at : Option ℕ
  pub created_at : ℕ
  pub updated_at : ℕ

-- A row of genesis_job_events.
pub record Event : Type 0 where
  pub job_id : String
  pub event_type : String
  pub from_status : Option String
  pub to_status : String
  pub created_at : ℕ

-- Rows in the order of their insertion.
pub record Store : Type 0 where
  pub jobs : List Job
  pub events : List Event

pub data DbError : Type 0 where
  unique_violation : DbError

abbrev pub terminal_job_statuses : List String
terminal_job_statuses = "DELIVERED" ∷ "FAILED" ∷ "SETTLED" ∷ "REFUNDED" ∷ "EXPIRED" ∷ []

unfoldable pub is_terminal : String → Bool
unfolding contains
is_terminal = contains terminal_job_statuses

-- SELECT ... WHERE id = %s
unfoldable pub find_job : String → List Job → Option Job
find_job i [] = none
find_job i (j ∷ js) = if j.id == i then some j else find_job i js

abbrev pub has_key : String → Option String → Bool
has_key k none = false
has_key k (some k') = k' == k

-- SELECT ... WHERE "idempotencyKey" = %s
unfoldable pub find_key : String → List Job → Option Job
find_key k [] = none
find_key k (j ∷ js) = if has_key k j.idempotency_key then some j else find_key k js

-- UPDATE ... SET ... WHERE
unfoldable pub update_where : (Job → Bool) → (Job → Job) → List Job → List Job
update_where p f [] = []
update_where p f (j ∷ js) = (if p j then f j else j) ∷ update_where p f js

abbrev pub has_id : String → Job → Bool
has_id i j = j.id == i

-- The UNIQUE constraint on "idempotencyKey", which NULLs do not meet.
abbrev pub key_is_free : Option String → List Job → Bool
key_is_free none js = true
key_is_free (some k) js = elim (find_key k js) [ none ↦ true | some _ ↦ false ]

abbrev pub id_is_free : String → List Job → Bool
id_is_free i js = elim (find_job i js) [ none ↦ true | some _ ↦ false ]

-- INSERT INTO genesis_jobs, under the table's PRIMARY KEY and UNIQUE constraints.
unfoldable pub insert_job : Job → Tx DbError Store (Unit {0})
unfolding find_job find_key
insert_job j s =
    if id_is_free j.id s.jobs && key_is_free j.idempotency_key s.jobs
    then ok (tt, record s { jobs = s.jobs ++ (j ∷ []) })
    else raise unique_violation

-- INSERT INTO genesis_job_events
abbrev pub status_change : ℕ → Option String → String → String → Event
status_change now from to job_id = record {
  job_id = job_id;
  event_type = "status_change";
  from_status = from;
  to_status = to;
  created_at = now;
}

unfoldable pub insert_events : List Event → Tx DbError Store (Unit {0})
insert_events es s = ok (tt, record s { events = s.events ++ es })

unfoldable pub set_jobs : List Job → Tx DbError Store (Unit {0})
set_jobs js s = ok (tt, record s { jobs = js })

-- ORDER BY "createdAt" ASC; rows of the same time keep the table's order.
unfoldable pub insert_by_created : Job → List Job → List Job
insert_by_created j [] = j ∷ []
insert_by_created j (k ∷ ks) =
    if leb j.created_at k.created_at then j ∷ k ∷ ks else k ∷ insert_by_created j ks

unfoldable pub order_by_created : List Job → List Job
unfolding insert_by_created
order_by_created [] = []
order_by_created (j ∷ js) = insert_by_created j (order_by_created js)

abbrev pub ids : List Job → List String
ids = map (λ j. j.id)
