-- ===== src/Audit/Rows.antt =====
-- How an append changes the rows of a session in audit.py.
use genesis_agents.Base.{
  ◌≡◌, refl, String, true, false, some, List, [], ◌∷◌, ◌++◌, ◌==◌, arith, filter, eq_iff,
}
use genesis_agents.Audit.Chain.{Row, Texts, rows_of, last_row, hash_of, check_rows, expected}

pub rows_of-same :
    (session_id : String) (rows : List Row) (r : Row)
    → (r.session_id == session_id) ≡ true
    → rows_of session_id (rows ++ (r ∷ [])) ≡ rows_of session_id rows ++ (r ∷ [])
unfolding rows_of filter
rows_of-same session_id [] r h = rw h
rows_of-same session_id (q ∷ rows) r h = ground (arith, rows_of-same session_id rows r h)

pub rows_of-other :
    (session_id : String) (rows : List Row) (r : Row)
    → (r.session_id == session_id) ≡ false
    → rows_of session_id (rows ++ (r ∷ [])) ≡ rows_of session_id rows
unfolding rows_of filter
rows_of-other session_id [] r h = rw h
rows_of-other session_id (q ∷ rows) r h = ground (arith, rows_of-other session_id rows r h)

pub last_row-append : (rows : List Row) (r : Row) → last_row (rows ++ (r ∷ [])) ≡ some r
last_row-append [] r = refl
last_row-append (q ∷ []) r = refl
last_row-append (q ∷ p ∷ rows) r = last_row-append (p ∷ rows) r

-- The hash at the end of a chain that starts after `prev`.
abbrev pub end_hash : String → List Row → String
end_hash prev [] = prev
end_hash prev (r ∷ rows) = end_hash r.row_hash rows

pub end_hash-last_row :
    (prev : String) (q : Row) (rows : List Row)
    → end_hash prev (q ∷ rows) ≡ hash_of (last_row (q ∷ rows))
end_hash-last_row prev q [] = refl
end_hash-last_row prev q (p ∷ rows) = end_hash-last_row q.row_hash p rows

pub end_hash_lem : (rows : List Row) → end_hash "" rows ≡ hash_of (last_row rows)
end_hash_lem [] = refl
end_hash_lem (q ∷ rows) = end_hash-last_row "" q rows

module _ (texts : Texts) where
  -- A row that links to the end of a chain and carries its own hash extends it.
  pub check_rows-append :
      (prev : String) (rows : List Row) (r : Row)
      → check_rows texts prev rows ≡ true
      → r.prev_hash ≡ end_hash prev rows
      → expected texts r ≡ r.row_hash
      → check_rows texts prev (rows ++ (r ∷ [])) ≡ true
  unfolding check_rows
  check_rows-append prev [] r h link e =
      ground (arith, eq_iff r.prev_hash prev, eq_iff (expected texts r) r.row_hash)
  check_rows-append prev (q ∷ rows) r h link e = ground (arith, check_rows-append q.row_hash rows r)
