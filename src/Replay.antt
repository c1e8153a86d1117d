-- ===== src/Replay.antt =====
-- A table of spent one-time ids that expire: the DELETE of the rows that have expired and the INSERT
-- under the PRIMARY KEY, which runtime/action_grants.py and runtime/request_auth.py run in one
-- transaction.
use genesis_agents.Base.{
  ℕ, ◌≤◌, ◌≡◌, Bool, true, false, not, ◌&&◌, Option, none, some, List, [], ◌∷◌, ◌++◌, any, filter,
  ltb, leb, if◌then◌else◌, arith,
}

module _ {R K : Type 0} (key : R → K) (expires : R → ℕ) (beq : K → K → Bool) where
  -- DELETE FROM ... WHERE expires_at < now
  unfoldable pub sweep : ℕ → List R → List R
  unfolding filter
  sweep now = filter (λ r. not (ltb (expires r) now))

  -- INSERT INTO ... VALUES (...); `none` is the unique violation.
  unfoldable pub insert_row : R → List R → Option (List R)
  unfolding any
  insert_row r rows = if any (λ q. beq (key q) (key r)) rows then none else some (rows ++ (r ∷ []))

  unfoldable pub spend : ℕ → R → List R → Option (List R)
  spend now r rows = insert_row r (sweep now rows)

  -- There is a row for the id that does not expire before `until`.
  unfoldable pub is_spent : K → ℕ → List R → Bool
  unfolding any
  is_spent k until = any (λ q. beq (key q) k && leb until (expires q))

  is_spent-sweep :
      (k : K) (until now : ℕ) (rows : List R)
      → now ≤ until
      → is_spent k until rows ≡ true
      → is_spent k until (sweep now rows) ≡ true
  unfolding is_spent sweep
  is_spent-sweep k until now [] h s = s
  is_spent-sweep k until now (r ∷ rows) h s = ground (arith, is_spent-sweep k until now rows)

  is_spent-append :
      (k : K) (until : ℕ) (rows : List R) (r : R)
      → is_spent k until rows ≡ true
      → is_spent k until (rows ++ (r ∷ [])) ≡ true
  unfolding is_spent
  is_spent-append k until [] r s = ground arith
  is_spent-append k until (q ∷ rows) r s = ground (arith, is_spent-append k until rows r)

  is_spent-insert_row :
      (r : R) (rows : List R) (until : ℕ)
      → is_spent (key r) until rows ≡ true
      → any (λ q. beq (key q) (key r)) rows ≡ true
  unfolding is_spent
  is_spent-insert_row r [] until s = s
  is_spent-insert_row r (q ∷ rows) until s = ground (arith, is_spent-insert_row r rows until)

  -- An id that is spent until some time cannot be spent again up to then.
  pub spend-refused :
      (now until : ℕ) (r : R) (rows : List R)
      → now ≤ until
      → is_spent (key r) until rows ≡ true
      → spend now r rows ≡ none
  unfolding spend insert_row
  spend-refused now until r rows h s = ground (
    arith,
    is_spent-insert_row r (sweep now rows) until,
    is_spent-sweep (key r) until now rows h s,
  )

  -- Spending another id up to that time leaves it spent.
  pub spend-keeps :
      (k : K) (now until : ℕ) (r : R) (rows rows' : List R)
      → now ≤ until
      → is_spent k until rows ≡ true
      → spend now r rows ≡ some rows'
      → is_spent k until rows' ≡ true
  unfolding spend insert_row
  spend-keeps k now until r rows rows' h s e =
      ground
        (arith, is_spent-sweep k until now rows h s, is_spent-append k until (sweep now rows) r)

  is_spent-last :
      (k : K) (rows : List R) (r : R)
      → beq (key r) k ≡ true
      → is_spent k (expires r) (rows ++ (r ∷ [])) ≡ true
  unfolding is_spent
  is_spent-last k [] r e = ground arith
  is_spent-last k (q ∷ rows) r e = ground (arith, is_spent-last k rows r e)

  -- An id that has just been spent is spent until its row expires.
  pub spend-spends :
      (now : ℕ) (r : R) (rows rows' : List R)
      → beq (key r) (key r) ≡ true
      → spend now r rows ≡ some rows'
      → is_spent (key r) (expires r) rows' ≡ true
  unfolding spend insert_row
  spend-spends now r rows rows' e h = ground (arith, is_spent-last (key r) (sweep now rows) r e)

  -- An id that is not in the table is inserted.
  pub spend-free :
      (now : ℕ) (r : R) (rows : List R)
      → any (λ q. beq (key q) (key r)) (sweep now rows) ≡ false
      → spend now r rows ≡ some (sweep now rows ++ (r ∷ []))
  unfolding spend insert_row
  spend-free now r rows free = ground arith
