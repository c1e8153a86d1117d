-- ===== src/Audit/Histories.antt =====
-- The verification of the sessions of audit.py after any sequence of appends.
use genesis_agents.Base.{
  suc, ◌≤◌, ◌≡◌, ◌≢◌, refl, sym, ap, ◌∙◌, subst, String, true, false, Option, none, some, List, [],
  ◌∷◌, ◌==◌, arith, length, nat_eq, eq_iff, Bool-cases, inl, inr,
}
use genesis_agents.Audit.Chain.{
  Row, Head, Store, Texts, rows_of, check_rows, check_head, verify_chain,
}
use genesis_agents.Audit.Append.{Entry, count_of, upsert_head, append_row, log, log_all}
use genesis_agents.Audit.Laws.{
  is_tracked, is_tracked_by, verify_chain-log, log-heads, check_rows-log, length-log, appended,
  appended-session,
}
use genesis_agents.Audit.Rows.{rows_of-other}

module _ (texts : Texts) where
  verified_rows :
      (session_id : String) (s : Store)
      → verify_chain texts session_id s ≡ true
      → check_rows texts "" (rows_of session_id s.rows) ≡ true
  unfolding verify_chain
  verified_rows session_id s v = ground (arith)

  head_count :
      (h : Option Head) (rows : List Row)
      → check_head h rows ≡ true
      → is_tracked_by h rows ≡ true
      → count_of h ≡ length rows
  unfolding check_head is_tracked_by
  head_count none rows c t = ground arith
  head_count (some h) rows c t = ground arith

  verified_count :
      (session_id : String) (s : Store)
      → verify_chain texts session_id s ≡ true
      → is_tracked session_id s ≡ true
      → count_of (s.heads session_id) ≡ length (rows_of session_id s.rows)
  unfolding verify_chain is_tracked
  verified_count session_id s v t =
      head_count (s.heads session_id) (rows_of session_id s.rows) (ground arith) t

  log-same :
      (e : Entry) (s : Store)
      → verify_chain texts e.session_id s ≡ true
      → is_tracked e.session_id s ≡ true
      → (verify_chain texts e.session_id (log texts e s).1 ≡ true)
        × (is_tracked e.session_id (log texts e s).1 ≡ true)
  unfolding is_tracked is_tracked_by
  log-same e s v t = (
    verify_chain-log texts e s (verified_rows e.session_id s v)
        ∙ rw (verified_count e.session_id s v t) (ground arith),
    rw (is_tracked, log-heads texts e s) refl,
  )

  pub log-other :
      (session_id : String) (e : Entry) (s : Store)
      → (e.session_id == session_id) ≡ false
      → (rows_of session_id (log texts e s).1.rows ≡ rows_of session_id s.rows)
        × ((log texts e s).1.heads session_id ≡ s.heads session_id)
  unfolding log append_row upsert_head
  log-other session_id e s d = (
    rows_of-other session_id s.rows (appended texts e s)
        (ap (λ t. t == session_id) (appended-session texts e s) ∙ d),
    rw d refl,
  )

  verify-of :
      (session_id : String) (s s' : Store)
      → rows_of session_id s'.rows ≡ rows_of session_id s.rows
      → s'.heads session_id ≡ s.heads session_id
      → (verify_chain texts session_id s' ≡ verify_chain texts session_id s)
        × (is_tracked session_id s' ≡ is_tracked session_id s)
  unfolding verify_chain is_tracked
  verify-of session_id s s' p q = (rw (p, q) refl, rw (is_tracked, p, q) refl)

  log-keeps :
      (session_id : String) (e : Entry) (s : Store)
      → verify_chain texts session_id s ≡ true
      → is_tracked session_id s ≡ true
      → (verify_chain texts session_id (log texts e s).1 ≡ true)
        × (is_tracked session_id (log texts e s).1 ≡ true)
  log-keeps session_id e s v t = elim (Bool-cases (e.session_id == session_id)) [
    | inl b ↦
        subst
          (λ i.
            (verify_chain texts i (log texts e s).1 ≡ true)
            × (is_tracked i (log texts e s).1 ≡ true))
          ((eq_iff e.session_id session_id).0 b)
          (log-same e s
            (subst (λ i. verify_chain texts i s ≡ true) (sym ((eq_iff e.session_id session_id).0 b))
              v)
            (subst (λ i. is_tracked i s ≡ true) (sym ((eq_iff e.session_id session_id).0 b)) t))
    | inr b ↦
        let (p, q) = log-other session_id e s b in
        let (x, y) = verify-of session_id s (log texts e s).1 p q in (x ∙ v, y ∙ t)
  ]

  -- A session that verifies, and has a head unless it has no rows, still verifies after any sequence
  -- of appends to any sessions, and still has a head unless it has no rows.
  pub log_all-verifies :
      (session_id : String) (es : List Entry) (s : Store)
      → verify_chain texts session_id s ≡ true
      → is_tracked session_id s ≡ true
      → (verify_chain texts session_id (log_all texts es s) ≡ true)
        × (is_tracked session_id (log_all texts es s) ≡ true)
  unfolding log_all
  log_all-verifies session_id [] s v t = (v, t)
  log_all-verifies session_id (e ∷ es) s v t =
      let (v', t') = log-keeps session_id e s v t in
      log_all-verifies session_id es (log texts e s).1 v' t'

  -- A session whose rows are chained, under a head that counts fewer of them.
  record IsShort (session_id : String) (s : Store) : Type 0 where
    head : Head
    has_head : s.heads session_id ≡ some head
    chained : check_rows texts "" (rows_of session_id s.rows) ≡ true
    short : suc head.row_count ≤ length (rows_of session_id s.rows)

  IsShort-condemned :
      (session_id : String) (s : Store)
      → IsShort session_id s
      → verify_chain texts session_id s ≡ false
  unfolding verify_chain check_head
  IsShort-condemned session_id s i =
      let short = i.short in
      let differ : nat_eq (length (rows_of session_id s.rows)) i.head.row_count ≡ false =
        ground arith in
      rw (i.has_head, differ)

  log-IsShort-same :
      (e : Entry) (s : Store)
      → check_rows texts "" (rows_of e.session_id s.rows) ≡ true
      → suc (count_of (s.heads e.session_id)) ≤ length (rows_of e.session_id s.rows)
      → IsShort e.session_id (log texts e s).1
  log-IsShort-same e s c l = record {
    head = _;
    has_head = log-heads texts e s;
    chained = check_rows-log texts e s c;
    short = rw (length-log texts e s) (omega (arith, l));
  }

  log-IsShort :
      (session_id : String) (e : Entry) (s : Store)
      → IsShort session_id s
      → IsShort session_id (log texts e s).1
  log-IsShort session_id e s i = elim (Bool-cases (e.session_id == session_id)) [
    | inl b ↦
        let same : session_id ≡ e.session_id = sym ((eq_iff e.session_id session_id).0 b) in
        subst (λ x. IsShort x (log texts e s).1) (sym same)
          (log-IsShort-same e s
            (subst (λ x. check_rows texts "" (rows_of x s.rows) ≡ true) same i.chained)
            (subst (λ x. suc (count_of (s.heads x)) ≤ length (rows_of x s.rows)) same
              (rw i.has_head i.short)))
    | inr b ↦
        let (p, q) = log-other session_id e s b in
        record {
          head = i.head;
          has_head = q ∙ i.has_head;
          chained = rw p i.chained;
          short = rw p i.short;
        }
  ]

  log_all-IsShort :
      (session_id : String) (es : List Entry) (s : Store)
      → IsShort session_id s
      → IsShort session_id (log_all texts es s)
  unfolding log_all
  log_all-IsShort session_id [] s i = i
  log_all-IsShort session_id (e ∷ es) s i =
      log_all-IsShort session_id es (log texts e s).1 (log-IsShort session_id e s i)

  some_rows : (rows : List Row) → rows ≢ [] → 1 ≤ length rows
  some_rows [] ne = absurd (ne refl)
  some_rows (r ∷ rows) ne = omega arith

  -- A session with rows and no head, written before heads were kept, that verifies: after one append
  -- to it and any further ones, to it or to others, it does not verify, although its rows still pass
  -- the check of the rows alone.
  pub legacy_append_condemned :
      (e : Entry) (es : List Entry) (s : Store)
      → s.heads e.session_id ≡ none
      → rows_of e.session_id s.rows ≢ []
      → verify_chain texts e.session_id s ≡ true
      → (verify_chain texts e.session_id (log_all texts (e ∷ es) s) ≡ false)
        × (check_rows texts "" (rows_of e.session_id (log_all texts (e ∷ es) s).rows) ≡ true)
  unfolding log_all
  legacy_append_condemned e es s h ne v =
      let first =
        log-IsShort-same e s (verified_rows e.session_id s v)
          (rw h (some_rows (rows_of e.session_id s.rows) ne)) in
      let last = log_all-IsShort e.session_id es (log texts e s).1 first in
      (IsShort-condemned e.session_id (log_all texts es (log texts e s).1) last, last.chained)

  lost :
      (h : Option Head) (rows rows' : List Row)
      → check_head h rows ≡ true
      → is_tracked_by h rows ≡ true
      → rows ≢ []
      → length rows' ≢ length rows
      → check_head h rows' ≡ false
  unfolding check_head is_tracked_by
  lost none [] rows' c t ne d = absurd (ne refl)
  lost none (r ∷ rows) rows' c t ne d = ground arith
  lost (some h) rows rows' c t ne d = ground arith

  -- Whatever replaces the rows of a table under the same heads, a session that verified and had rows
  -- and a head does not verify unless it has as many rows as before; so the loss of rows from its
  -- end, or of all of them, is found.
  pub loss_detected :
      (session_id : String) (s : Store) (rows' : List Row)
      → verify_chain texts session_id s ≡ true
      → is_tracked session_id s ≡ true
      → rows_of session_id s.rows ≢ []
      → length (rows_of session_id rows') ≢ length (rows_of session_id s.rows)
      → verify_chain texts session_id (record s { rows = rows' }) ≡ false
  unfolding verify_chain is_tracked
  loss_detected session_id s rows' v t ne d =
      let h =
        lost (s.heads session_id) (rows_of session_id s.rows) (rows_of session_id rows')
          (ground arith) t ne d in
      rw h refl
