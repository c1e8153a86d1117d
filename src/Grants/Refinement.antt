-- ===== src/Grants/Refinement.antt =====
-- The table of spent grants of runtime/action_grants.py against a set of ids with expiry times.
use genesis_agents.Base.{
  ℕ, ◌≤◌, ◌≡◌, refl, ap, inl, inr, String, Bool, ◌&&◌, ◌||◌, Option, none, some, List, [], ◌∷◌,
  ◌++◌, ◌==◌, any, filter, leb, if◌then◌else◌, arith, Bool-cases,
}
use genesis_agents.Replay.{is_spent, sweep, insert_row, spend}
use genesis_agents.Grants.Token.{Spent}
use genesis_agents.Grants.Accepted.{spend_row, is_consumed}

-- A set of spent ids: whether an id is spent at a time.
abbrev pub SpentIds : Type 0
SpentIds = String → ℕ → Bool

-- What spending promises: an id that is spent now is refused; any other id is spent from now on until
-- it expires, and all others stay as they were.
unfoldable pub spend_spec : ℕ → String → ℕ → SpentIds → Option SpentIds
spend_spec now id until spent =
    if spent id now then none else some (λ k t. spent k t || ((id == k) && leb t until))

-- The set that a table stands for.
abbrev pub view : List Spent → SpentIds
view rows k t = is_consumed k t rows

abbrev pub at_time : String → ℕ → Option SpentIds → Option Bool
at_time k t none = none
at_time k t (some s) = some (s k t)

abbrev pub view? : Option (List Spent) → Option SpentIds
view? none = none
view? (some rows) = some (view rows)

module _ (k : String) where
  -- The table after the sweep has an id exactly if it is spent now.
  any-sweep :
      (now : ℕ) (rows : List Spent)
      → any
          (λ (q : Spent). q.jti == k)
          (sweep (λ (r : Spent). r.jti) (λ (r : Spent). r.expires_at) ◌==◌ now rows)
        ≡ is_consumed k now rows
  unfolding any sweep filter is_spent
  any-sweep now [] = refl
  any-sweep now (r ∷ rows) = ground (arith, any-sweep now rows)

  is_consumed-sweep :
      (now t : ℕ) (rows : List Spent)
      → now ≤ t
      → is_consumed k t (sweep (λ (r : Spent). r.jti) (λ (r : Spent). r.expires_at) ◌==◌ now rows)
        ≡ is_consumed k t rows
  unfolding any sweep filter is_spent
  is_consumed-sweep now t [] h = refl
  is_consumed-sweep now t (r ∷ rows) h = ground (arith, is_consumed-sweep now t rows h)

  is_consumed-append :
      (t : ℕ) (rows : List Spent) (r : Spent)
      → is_consumed k t (rows ++ (r ∷ []))
        ≡ (is_consumed k t rows || ((r.jti == k) && leb t r.expires_at))
  unfolding any is_spent
  is_consumed-append t [] r = ground arith
  is_consumed-append t (q ∷ rows) r = ground (arith, is_consumed-append t rows r)

-- The table of spent grants, with its sweep of expired rows and its primary key, refines a set of ids
-- with expiry times: spending an id is refused by the table exactly if the set has it at that time,
-- and otherwise leads to a table that answers for every id, at that time and later, as the set does
-- to which the id was added.
pub spend_row-refines :
    (now : ℕ) (row : Spent) (rows : List Spent) (k : String) (t : ℕ)
    → now ≤ t
    → at_time k t (view? (spend_row now row rows))
      ≡ at_time k t (spend_spec now row.jti row.expires_at (view rows))
unfolding spend insert_row spend_spec
spend_row-refines now row rows k t h = elim (Bool-cases (is_consumed row.jti now rows)) [
  | inl b ↦ rw (any-sweep row.jti now rows, b) refl
  | inr b ↦
      rw (any-sweep row.jti now rows, b)
        (ap some (
          rw
            (
              is_consumed-append k t
                  (sweep (λ (r : Spent). r.jti) (λ (r : Spent). r.expires_at) ◌==◌ now rows) row,
              is_consumed-sweep k now t rows h,
            )
            refl))
]
