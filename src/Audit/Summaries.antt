-- ===== src/Audit/Summaries.antt =====
-- How `log` of audit.py moves session_summary.
use genesis_agents.Base.{
  ◌+◌, ◌≡◌, refl, ap, ◌∙◌, String, false, List, [], ◌∷◌, ◌++◌, ◌==◌, arith, if◌then◌else◌, length,
  length-append,
}
use genesis_agents.Text.{truthy}
use genesis_agents.Audit.Chain.{
  Row, Store, Texts, rows_of, session_summary, total_cost, count_errors,
}
use genesis_agents.Audit.Append.{Entry, log, new_row, set_row_hash}
use genesis_agents.Audit.Laws.{appended, log-rows_of}
use genesis_agents.Audit.Histories.{log-other}

total_cost-append :
    (rows : List Row) (r : Row) → total_cost (rows ++ (r ∷ [])) ≡ total_cost rows + r.cost_cents
total_cost-append [] r = omega arith
total_cost-append (q ∷ rows) r = omega (arith, total_cost-append rows r)

count_errors-append :
    (rows : List Row) (r : Row)
    → count_errors (rows ++ (r ∷ [])) ≡ count_errors rows + (if truthy r.error then 1 else 0)
count_errors-append [] r = omega arith
count_errors-append (q ∷ rows) r = omega (arith, count_errors-append rows r)

module _ (texts : Texts) where
  -- After an append, the summary of its session has one action more, its cost more, and one error
  -- more exactly if the error text is not empty; the summary of every other session is the same.
  pub log-session_summary :
      (e : Entry) (s : Store) (other : String)
      → (e.session_id == other) ≡ false
      → ((session_summary e.session_id (log texts e s).1).action_count
          ≡ (session_summary e.session_id s).action_count + 1)
        × ((session_summary e.session_id (log texts e s).1).total_cost_cents
            ≡ (session_summary e.session_id s).total_cost_cents + e.cost_cents)
        × ((session_summary e.session_id (log texts e s).1).errors
            ≡ (session_summary e.session_id s).errors + (if truthy e.error then 1 else 0))
        × (session_summary other (log texts e s).1 ≡ session_summary other s)
  unfolding session_summary new_row set_row_hash
  log-session_summary e s other d =
      let rows = rows_of e.session_id s.rows in
      let r = appended texts e s in
      (
        ap length (log-rows_of texts e s) ∙ (length-append rows (r ∷ [])),
        ap total_cost (log-rows_of texts e s) ∙ total_cost-append rows r,
        ap count_errors (log-rows_of texts e s) ∙ count_errors-append rows r,
        rw (session_summary, (log-other texts other e s d).0) refl,
      )
