-- ===== src/Audit/Laws.antt =====
-- What `log` of audit.py does to the verification of a session.
use genesis_agents.Base.{
  ℕ, ◌+◌, ◌≡◌, refl, sym, ap, ◌∙◌, String, Bool, true, Option, none, some, List, [], ◌∷◌, ◌++◌,
  ◌==◌, arith, length, nat_eq, ==_refl, length-append,
}
use genesis_agents.Audit.Chain.{
  Row, Head, Store, Texts, rows_of, last_row, hash_of, check_rows, check_head, verify_chain,
  expected, row_hash_v2, digest,
}
use genesis_agents.Audit.Append.{
  Entry, count_of, upsert_head, set_row_hash, new_row, append_row, log,
}
use genesis_agents.Audit.Rows.{
  rows_of-same, last_row-append, end_hash, end_hash_lem, check_rows-append,
}

-- There is a head if there are rows.
unfoldable pub is_tracked_by : Option Head → List Row → Bool
is_tracked_by none rows = nat_eq (length rows) 0
is_tracked_by (some h) rows = true

unfoldable pub is_tracked : String → Store → Bool
unfolding is_tracked_by
is_tracked session_id s = is_tracked_by (s.heads session_id) (rows_of session_id s.rows)

module _ (texts : Texts) where
  -- The row that `log` appends.
  abbrev pub appended : Entry → Store → Row
  appended e s =
      let inserted =
        new_row (s.last_id + 1) (hash_of (last_row (rows_of e.session_id s.rows))) e
          (digest texts e.inputs_json) (digest texts e.outputs_json) in
      set_row_hash
        (row_hash_v2 texts inserted (digest texts e.inputs_json) (digest texts e.outputs_json))
        inserted

  log-rows : (e : Entry) (s : Store) → (log texts e s).1.rows ≡ s.rows ++ (appended e s ∷ [])
  unfolding log append_row
  log-rows e s = refl

  appended-sealed :
      (e : Entry) (s : Store) → expected texts (appended e s) ≡ (appended e s).row_hash
  unfolding new_row set_row_hash expected row_hash_v2
  appended-sealed e s = refl

  appended-linked :
      (e : Entry) (s : Store) → (appended e s).prev_hash ≡ end_hash "" (rows_of e.session_id s.rows)
  unfolding new_row set_row_hash
  appended-linked e s = sym (end_hash_lem (rows_of e.session_id s.rows))

  pub appended-session : (e : Entry) (s : Store) → (appended e s).session_id ≡ e.session_id
  unfolding new_row set_row_hash
  appended-session e s = refl

  pub log-rows_of :
      (e : Entry) (s : Store)
      → rows_of e.session_id (log texts e s).1.rows
        ≡ rows_of e.session_id s.rows ++ (appended e s ∷ [])
  unfolding log append_row
  log-rows_of e s =
      rows_of-same e.session_id s.rows (appended e s)
        (ap (λ t. t == e.session_id) (appended-session e s) ∙ ==_refl e.session_id)

  pub log-heads :
      (e : Entry) (s : Store)
      → (log texts e s).1.heads e.session_id
        ≡ some (record {
          last_row_id = (appended e s).id;
          last_row_hash = (appended e s).row_hash;
          row_count = count_of (s.heads e.session_id) + 1;
        })
  unfolding log append_row upsert_head new_row set_row_hash
  log-heads e s = rw (==_refl e.session_id)

  check_head-append :
      (rows : List Row) (r : Row) (n : ℕ)
      → check_head
          (some (record { last_row_id = r.id; last_row_hash = r.row_hash; row_count = n }))
          (rows ++ (r ∷ []))
        ≡ nat_eq (length rows + 1) n
  unfolding check_head
  check_head-append rows r n =
      rw (check_head, last_row-append rows r, length-append rows (r ∷ []))
        (ground (arith, ==_refl r.row_hash))

  -- The chain of the rows goes on.
  pub check_rows-log :
      (e : Entry) (s : Store)
      → check_rows texts "" (rows_of e.session_id s.rows) ≡ true
      → check_rows texts "" (rows_of e.session_id (log texts e s).1.rows) ≡ true
  check_rows-log e s h = rw (log-rows_of e s) (
      check_rows-append texts "" (rows_of e.session_id s.rows) (appended e s) h
        (appended-linked e s) (appended-sealed e s))

  pub length-log :
      (e : Entry) (s : Store)
      → length (rows_of e.session_id (log texts e s).1.rows)
        ≡ length (rows_of e.session_id s.rows) + 1
  length-log e s =
      rw (log-rows_of e s, length-append (rows_of e.session_id s.rows) (appended e s ∷ []))

  -- How `log` changes what verify_chain computes for its session.
  pub verify_chain-log :
      (e : Entry) (s : Store)
      → check_rows texts "" (rows_of e.session_id s.rows) ≡ true
      → verify_chain texts e.session_id (log texts e s).1
        ≡ nat_eq (length (rows_of e.session_id s.rows) + 1) (count_of (s.heads e.session_id) + 1)
  unfolding verify_chain
  verify_chain-log e s h =
      let chained : check_rows texts "" (rows_of e.session_id s.rows ++ (appended e s ∷ []))
          ≡ true =
        check_rows-append texts "" (rows_of e.session_id s.rows) (appended e s) h
          (appended-linked e s) (appended-sealed e s) in
      rw
        (
          log-rows_of e s,
          log-heads e s,
          chained,
          check_head-append (rows_of e.session_id s.rows) (appended e s)
              (count_of (s.heads e.session_id) + 1),
        )
        (ground arith)
