-- ===== src/Gateway/Disputes.antt =====
-- The disputes of main.py: file_dispute, admin_refund and admin_resolve over the job store, and the
-- internal secret with the limit of a tick. Times are given; a status update or an insert can fail,
-- and its failure is only logged.
use genesis_agents.Base.{
  ℕ, String, Bool, true, not, ◌&&◌, Option, none, some, List, [], ◌∷◌, ◌++◌, ◌==◌, get_or,
  if◌then◌else◌,
}
use genesis_agents.Base.Json.{Json, Fields, null, text, object, end, field}
use genesis_agents.Base.Result.{Result, ok, raise, after}
use genesis_agents.Text.{truthy, truthy?, or_empty}
use genesis_agents.Envelope.Values.{get_field}
use genesis_agents.Jobs.Table.{Job, Store}
use genesis_agents.Jobs.Operations.{Update, get_job, update_job_status}
use genesis_agents.Gateway.Http.{HttpError, http, Python}

-- A row of genesis_job_events that these routes write, which has no statuses.
pub record Note : Type 0 where
  pub job_id : String
  pub event_type : String
  pub payload : Json
  pub created_at : ℕ

-- The tables, the notes, and the escrows that release_escrow was called for, in order.
pub record Desk : Type 0 where
  pub store : Store
  pub notes : List Note
  pub released : List String

-- What the environment does in one call: whether the job store is there, the escrow client is
-- permitted and imported, the update and the insert succeed, and what release_escrow answers, none
-- where it raises.
pub record Weather : Type 0 where
  pub job_store_ok : Bool
  pub escrow_ok : Bool
  pub update_ok : Bool
  pub insert_ok : Bool
  pub answer : Option Json

abbrev pub override_to : String → Update
override_to status = record {
  new_status = status;
  error_code = none;
  error_message = none;
  result_summary = none;
  output_artifact_uris = none;
  allow_terminal_override = true;
}

unfoldable pub force_status : Weather → ℕ → String → String → Store → Store
unfolding update_job_status
force_status w now job_id status s =
    if w.update_ok then after (update_job_status now job_id (override_to status)) s else s

unfoldable pub write_note : Weather → Note → List Note → List Note
write_note w n notes = if w.insert_ok then notes ++ (n ∷ []) else notes

abbrev pub note : ℕ → String → String → Json → Note
note now job_id event_type payload = record {
  job_id = job_id;
  event_type = event_type;
  payload = payload;
  created_at = now;
}

-- `(body or {}).get("reason", "")`; `strip` is an AttributeError on any value but a text.
abbrev pub reason_of : Option Json → Option String
reason_of none = some ""
reason_of (some (text s)) = some s
reason_of _ = none

-- `(body or {}).get("evidence", {})`
abbrev pub evidence_of : Fields → Json
evidence_of body = get_or (get_field "evidence" body) (object end)

pub record Verdict : Type 0 where
  pub job_id : String
  pub status : String
  pub escrow : Json

abbrev pub verdict : String → String → Json → Verdict
verdict job_id status escrow = record { job_id = job_id; status = status; escrow = escrow }

module _ (py : Python) where
  -- POST /jobs/{job_id}/dispute
  unfoldable pub file_dispute :
      Weather → ℕ → String → Fields → Desk → Result HttpError Verdict × Desk
  unfolding get_job force_status write_note get_field
  file_dispute w now job_id body k = elim (reason_of (get_field "reason" body)) [
    | none ↦ (raise (http 500 "Internal Server Error"), k)
    | some given ↦
        let reason = py.library.strip given in
        let payload =
          object (field "reason" (text reason) (field "evidence" (evidence_of body) end)) in
        if not (truthy reason)
        then (raise (http 400 "reason required"), k)
        else if not w.job_store_ok
        then (raise (http 503 "job_store_unavailable"), k)
        else elim (get_job job_id k.store) [
          | none ↦ (raise (http 404 "job not found"), k)
          | some job ↦ (
            ok (verdict job_id "DISPUTED" null),
            record k {
              store = force_status w now job_id "DISPUTED" k.store;
              notes = write_note w (note now job_id "dispute_filed" payload) k.notes;
            },
          )
        ]
  ]

-- The escrow of a job, where the client may be called.
unfoldable pub open_escrow : Weather → Job → Option String
open_escrow w job = if truthy? job.escrow_id && w.escrow_ok then job.escrow_id else none

abbrev pub escrow_answer : Weather → Option String → Json
escrow_answer w none = null
escrow_answer w (some escrow_id) = get_or w.answer null

abbrev pub escrow_calls : Option String → List String
escrow_calls none = []
escrow_calls (some escrow_id) = escrow_id ∷ []

-- POST /admin/disputes/{job_id}/refund
unfoldable pub admin_refund : Weather → ℕ → String → Desk → Result HttpError Verdict × Desk
unfolding get_job force_status write_note open_escrow
admin_refund w now job_id k =
    if not w.job_store_ok
    then (raise (http 503 "job_store_unavailable"), k)
    else elim (get_job job_id k.store) [
      | none ↦ (raise (http 404 "job not found"), k)
      | some job ↦
          let escrow = escrow_answer w (open_escrow w job) in
          (
            ok (verdict job_id "REFUNDED" escrow),
            record {
              store = force_status w now job_id "REFUNDED" k.store;
              notes =
                  write_note w (note now job_id "admin_refund" (object (field "escrow" escrow end)))
                    k.notes;
              released = k.released ++ escrow_calls (open_escrow w job);
            },
          )
    ]

-- POST /admin/disputes/{job_id}/resolve
unfoldable pub admin_resolve : Weather → ℕ → String → Desk → Result HttpError Verdict × Desk
unfolding get_job force_status write_note
admin_resolve w now job_id k =
    if not w.job_store_ok
    then (raise (http 503 "job_store_unavailable"), k)
    else elim (get_job job_id k.store) [
      | none ↦ (raise (http 404 "job not found"), k)
      | some job ↦ (
        ok (verdict job_id "RESOLVED" null),
        record k {
          store = force_status w now job_id "SETTLED" k.store;
          notes =
              write_note w
                (note now job_id "admin_resolve" (object (field "resolved_by" (text "admin") end)))
                k.notes;
        },
      )
    ]

-- _require_internal_secret, on the secret of the environment, an unset one being the empty text.
unfoldable pub require_internal_secret : String → Option String → Result HttpError (Unit {0})
require_internal_secret expected given =
    if not (truthy expected)
    then raise (http 503 "INTERNAL_SECRET not configured on this service")
    else if or_empty given == expected
    then ok tt
    else raise (http 401 "Invalid or missing X-Internal-Secret")
