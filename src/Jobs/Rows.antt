-- ===== src/Jobs/Rows.antt =====
-- Laws of the statements of Jobs/Table: which row a primary key finds after an INSERT or an UPDATE.
use genesis_agents.Base.{
  ℕ, suc, zero, ◌≡◌, refl, String, Bool, true, false, ◌||◌, Option, none, some, List, [], ◌∷◌, ◌++◌,
  ◌==◌, eq_iff, if◌then◌else◌, contains, filter, take, arith,
}
use genesis_agents.Jobs.Table.{
  Job, find_job, update_where, ids, insert_by_created, order_by_created,
}

-- No text occurs twice.
abbrev pub Distinct : List String → Type 0
Distinct [] = Unit
Distinct (x ∷ xs) = (contains xs x ≡ false) × Distinct xs

abbrev pub found : Option Job → (Job → Bool) → Bool
found none p = false
found (some j) p = p j

pub find_job-append :
    (i : String) (js : List Job) (n : Job)
    → find_job i (js ++ (n ∷ []))
      ≡ elim (find_job i js) [ some j ↦ some j | none ↦ if n.id == i then some n else none ]
unfolding find_job
find_job-append i [] n = refl
find_job-append i (j ∷ js) n = ground (arith, find_job-append i js n)

-- The row that a key finds has that key.
pub find_job-id : (i : String) (js : List Job) (j : Job) → find_job i js ≡ some j → j.id ≡ i
unfolding find_job
find_job-id i [] j h = ground arith
find_job-id i (k ∷ js) j h = ground (arith, find_job-id i js j, eq_iff k.id i)

pub contains-ids :
    (i : String) (js : List Job) → contains (ids js) i ≡ found (find_job i js) (λ j. true)
unfolding find_job contains
contains-ids i [] = refl
contains-ids i (j ∷ js) = ground (arith, contains-ids i js)

module _ (p : Job → Bool) (f : Job → Job) (keep : (j : Job) → (f j).id ≡ j.id) where
  pub ids-update_where : (js : List Job) → ids (update_where p f js) ≡ ids js
  unfolding update_where
  ids-update_where [] = refl
  ids-update_where (j ∷ js) = ground (arith, keep j, ids-update_where js)

  pub find_job-update_where :
      (i : String) (js : List Job)
      → find_job i (update_where p f js)
        ≡ elim (find_job i js) [ none ↦ none | some j ↦ some (if p j then f j else j) ]
  unfolding update_where find_job
  find_job-update_where i [] = refl
  find_job-update_where i (j ∷ js) = ground (arith, keep j, find_job-update_where i js)

-- Among rows with distinct ids, an id is among those of the rows with `p` exactly when its row has.
module _ (p : Job → Bool) where
  contains-filter-false :
      (i : String) (js : List Job)
      → contains (ids js) i ≡ false
      → contains (ids (filter p js)) i ≡ false
  unfolding contains filter
  contains-filter-false i [] h = refl
  contains-filter-false i (j ∷ js) h = ground (arith, contains-filter-false i js)

  pub contains-filter :
      (i : String) (js : List Job)
      → Distinct (ids js)
      → contains (ids (filter p js)) i ≡ found (find_job i js) p
  unfolding contains filter find_job
  contains-filter i [] d = refl
  contains-filter i (j ∷ js) d = ground (
    arith,
    eq_iff j.id i,
    contains-filter i js d.1,
    contains-filter-false i js,
    contains-filter-false j.id js d.0,
  )

contains-insert_by_created :
    (i : String) (j : Job) (js : List Job)
    → contains (ids (insert_by_created j js)) i ≡ ((j.id == i) || contains (ids js) i)
unfolding contains insert_by_created
contains-insert_by_created i j [] = refl
contains-insert_by_created i j (k ∷ ks) = ground (arith, contains-insert_by_created i j ks)

pub contains-order_by_created :
    (i : String) (js : List Job) → contains (ids (order_by_created js)) i ≡ contains (ids js) i
unfolding contains order_by_created
contains-order_by_created i [] = refl
contains-order_by_created i (j ∷ js) =
    ground
      (arith, contains-order_by_created i js, contains-insert_by_created i j (order_by_created js))

pub contains-take :
    (i : String) (n : ℕ) (js : List Job)
    → contains (ids (take n js)) i ≡ true
    → contains (ids js) i ≡ true
unfolding contains
contains-take i zero js h = ground arith
contains-take i (suc n) [] h = ground arith
contains-take i (suc n) (j ∷ js) h = ground (arith, contains-take i n js)

contains-append :
    (xs : List String) (x y : String) → contains (xs ++ (x ∷ [])) y ≡ (contains xs y || (x == y))
unfolding contains
contains-append [] x y = ground arith
contains-append (z ∷ xs) x y = ground (arith, contains-append xs x y)

pub Distinct-append :
    (xs : List String) (x : String)
    → Distinct xs
    → contains xs x ≡ false
    → Distinct (xs ++ (x ∷ []))
unfolding contains
Distinct-append [] x d h = (refl, tt)
Distinct-append (z ∷ xs) x d h = (
  ground (arith, contains-append xs x z, eq_iff x z, eq_iff z x),
  Distinct-append xs x d.1 (ground arith),
)
