-- ===== src/Gateway/Cases.antt =====
-- A dispute of main.py from its filing to its end.
use genesis_agents.Base.{ℕ, ◌≡◌, refl, ap, map, String, true, false, some, [], ◌∷◌, ◌++◌, arith}
use mathlib.Core.List.{map-append, append_assoc}
use genesis_agents.Base.Json.{Fields, null, text, object, end, field}
use genesis_agents.Base.Result.{ok}
use genesis_agents.Text.{truthy}
use genesis_agents.Envelope.Values.{get_field}
use genesis_agents.Jobs.Table.{Job, Store, find_job}
use genesis_agents.Jobs.Operations.{get_job, refuses, set_clauses}
use genesis_agents.Jobs.Updates.{updated}
use genesis_agents.Gateway.Http.{Python}
use genesis_agents.Gateway.Disputes.{
  Desk, Weather, override_to, force_status, write_note, note, reason_of, evidence_of, verdict,
  file_dispute, open_escrow, escrow_answer, escrow_calls, admin_refund,
}

-- Every call succeeds.
pub record IsFair (w : Weather) : Type 0 where
  pub job_store_ok : w.job_store_ok ≡ true
  pub update_ok : w.update_ok ≡ true
  pub insert_ok : w.insert_ok ≡ true

refuses-override : (status from : String) → refuses (override_to status) from ≡ false
refuses-override status from = ground arith

-- A status that a person sets is set from any status, terminal ones included.
forced :
    (w : Weather) (now : ℕ) (job_id status : String) (s : Store) (j : Job)
    → w.update_ok ≡ true
    → find_job job_id s.jobs ≡ some j
    → find_job job_id (force_status w now job_id status s).jobs
      ≡ some (set_clauses now (override_to status) j)
unfolding force_status
forced w now job_id status s j u f =
    rw u (updated now job_id (override_to status) s j f (refuses-override status j.status))

-- The row of a job that a person moves to `status`.
abbrev pub moved_row : ℕ → String → Job → Job
moved_row now status j = set_clauses now (override_to status) j

set_clauses-escrow :
    (now : ℕ) (status : String) (j : Job) → (moved_row now status j).escrow_id ≡ j.escrow_id
unfolding set_clauses
set_clauses-escrow now status j = refl

set_clauses-status :
    (now : ℕ) (status : String) (j : Job) → (moved_row now status j).status ≡ status
unfolding set_clauses
set_clauses-status now status j = refl

filed :
    (py : Python) (w : Weather) (now : ℕ) (job_id : String) (body : Fields) (given : String)
    (k : Desk) (j : Job)
    → IsFair w
    → reason_of (get_field "reason" body) ≡ some given
    → truthy (py.library.strip given) ≡ true
    → find_job job_id k.store.jobs ≡ some j
    → file_dispute py w now job_id body k ≡ (
      ok (verdict job_id "DISPUTED" null),
      record k {
        store = force_status w now job_id "DISPUTED" k.store;
        notes =
            k.notes
            ++ (note now job_id "dispute_filed" (
                  object (
                    field "reason"
                      (text (py.library.strip given))
                      (field "evidence" (evidence_of body) end)))
                ∷ []);
      },
    )
unfolding file_dispute get_job write_note
filed py w now job_id body given k j fair r t f = ground (arith, fair.job_store_ok, fair.insert_ok)

refunded :
    (w : Weather) (now : ℕ) (job_id : String) (k : Desk) (j : Job)
    → IsFair w
    → find_job job_id k.store.jobs ≡ some j
    → admin_refund w now job_id k ≡ (
      ok (verdict job_id "REFUNDED" (escrow_answer w (open_escrow w j))),
      record {
        store = force_status w now job_id "REFUNDED" k.store;
        notes =
            k.notes
            ++ (note now job_id "admin_refund"
                  (object (field "escrow" (escrow_answer w (open_escrow w j)) end))
                ∷ []);
        released = k.released ++ escrow_calls (open_escrow w j);
      },
    )
unfolding admin_refund get_job write_note
refunded w now job_id k j fair f = rw (fair.job_store_ok, f, fair.insert_ok)

open_escrow-row :
    (w : Weather) (now : ℕ) (status : String) (j : Job)
    → open_escrow w (moved_row now status j) ≡ open_escrow w j
unfolding open_escrow
open_escrow-row w now status j = rw (set_clauses-escrow now status j)

-- The tables after a dispute.
abbrev pub after_dispute : Python → Weather → ℕ → String → Fields → Desk → Desk
after_dispute py w now job_id body k = (file_dispute py w now job_id body k).1

-- A dispute with a reason and the refund that an administrator gives for it, on an existing job, each
-- call of the database succeeding: the job is DISPUTED after the one and REFUNDED after the other,
-- whatever its status was, a terminal one included; both leave a note, in order; and release_escrow
-- is called once if the job has an escrow and the escrow client is permitted, and else never.
pub disputed_refunded :
    (py : Python) (w : Weather) (now later : ℕ) (job_id : String) (body : Fields) (given : String)
    (k : Desk) (j : Job)
    → IsFair w
    → reason_of (get_field "reason" body) ≡ some given
    → truthy (py.library.strip given) ≡ true
    → find_job job_id k.store.jobs ≡ some j
    → (d r : Job) × (find_job job_id (after_dispute py w now job_id body k).store.jobs ≡ some d)
      × (d.status ≡ "DISPUTED")
      × (find_job job_id
            (admin_refund w later job_id (after_dispute py w now job_id body k)).1.store.jobs
          ≡ some r)
      × (r.status ≡ "REFUNDED")
      × (map
            (λ n. n.event_type)
            (admin_refund w later job_id (after_dispute py w now job_id body k)).1.notes
          ≡ map (λ n. n.event_type) k.notes ++ ("dispute_filed" ∷ "admin_refund" ∷ []))
      × ((admin_refund w later job_id (after_dispute py w now job_id body k)).1.released
          ≡ k.released ++ escrow_calls (open_escrow w j))
disputed_refunded py w now later job_id body given k j fair r t f =
    let k1 : Desk = record k {
      store = force_status w now job_id "DISPUTED" k.store;
      notes =
          k.notes
          ++ (note now job_id "dispute_filed" (
                object (
                  field "reason" (text (py.library.strip given))
                    (field "evidence" (evidence_of body) end)))
              ∷ []);
    } in
    let d : Job = moved_row now "DISPUTED" j in
    let e : after_dispute py w now job_id body k ≡ k1 =
      ap (λ x. x.1) (filed py w now job_id body given k j fair r t f) in
    let f1 : find_job job_id k1.store.jobs ≡ some d =
      forced w now job_id "DISPUTED" k.store j fair.update_ok f in
    let e2 = refunded w later job_id k1 d fair f1 in
    (
      d,
      moved_row later "REFUNDED" d,
      rw e f1,
      set_clauses-status now "DISPUTED" j,
      rw (e, e2) (forced w later job_id "REFUNDED" k1.store d fair.update_ok f1),
      set_clauses-status later "REFUNDED" d,
      rw (e, e2) (simp (map-append, append_assoc)),
      rw (e, e2) (ap (λ x. k.released ++ escrow_calls x) (open_escrow-row w now "DISPUTED" j)),
    )
