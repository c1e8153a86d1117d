-- ===== src/Jobs/Order.antt =====
-- The order in which claim_queued_jobs picks rows: the subquery's ORDER BY "createdAt" and LIMIT.
use genesis_agents.Base.{
  ℕ, zero, suc, ◌≤◌, ◌≡◌, ap, String, Bool, true, false, some, List, [], ◌∷◌, ◌==◌, eq_iff,
  contains, filter, take, leb, All, arith, ◌⊎◌, inl, inr, Bool-cases,
}
use genesis_agents.Jobs.Table.{Job, find_job, insert_by_created, order_by_created, ids}

-- The row stands in the list.
abbrev pub In : Job → List Job → Type 0
In j [] = ⊥
In j (k ∷ ks) = (k ≡ j) ⊎ In j ks

pub find_job-In : (i : String) (js : List Job) (j : Job) → find_job i js ≡ some j → In j js
unfolding find_job
find_job-In i [] j h = ground arith
find_job-In i (k ∷ ks) j h = elim (Bool-cases (k.id == i)) [
  | inl e ↦ inl (ground arith)
  | inr e ↦ inr (find_job-In i ks j (ground arith))
]

pub In-filter :
    (p : Job → Bool) (js : List Job) (j : Job) → In j js → p j ≡ true → In j (filter p js)
unfolding filter
In-filter p [] j h e = elim h [ ]
In-filter p (k ∷ ks) j h e = ground (arith, In-filter p ks j, ap p)

In-insert_by_created :
    (k : Job) (js : List Job) (j : Job) → (k ≡ j) ⊎ In j js → In j (insert_by_created k js)
unfolding insert_by_created
In-insert_by_created k [] j h = h
In-insert_by_created k (x ∷ xs) j h = ground (arith, In-insert_by_created k xs j)

pub In-order_by_created : (js : List Job) (j : Job) → In j js → In j (order_by_created js)
unfolding order_by_created
In-order_by_created [] j h = h
In-order_by_created (k ∷ ks) j (inl e) = In-insert_by_created k (order_by_created ks) j (inl e)
In-order_by_created (k ∷ ks) j (inr h) =
    In-insert_by_created k (order_by_created ks) j (inr (In-order_by_created ks j h))

abbrev pub NotBefore : Job → Job → Type 0
NotBefore k x = k.created_at ≤ x.created_at

abbrev IsOrdered : List Job → Type 0
IsOrdered [] = Unit
IsOrdered (k ∷ ks) = All (NotBefore k) ks × IsOrdered ks

All-insert_by_created :
    (k j : Job) (js : List Job)
    → NotBefore k j
    → All (NotBefore k) js
    → All (NotBefore k) (insert_by_created j js)
unfolding insert_by_created
All-insert_by_created k j [] h a = (h, tt)
All-insert_by_created k j (x ∷ xs) h a = ground (arith, All-insert_by_created k j xs)

All-NotBefore_trans :
    (k j : Job) (js : List Job) → NotBefore k j → All (NotBefore j) js → All (NotBefore k) js
All-NotBefore_trans k j [] h a = tt
All-NotBefore_trans k j (x ∷ xs) h a = (omega arith, All-NotBefore_trans k j xs h a.1)

insert_by_created-IsOrdered :
    (j : Job) (js : List Job) → IsOrdered js → IsOrdered (insert_by_created j js)
unfolding insert_by_created
insert_by_created-IsOrdered j [] o = (tt, tt)
insert_by_created-IsOrdered j (k ∷ ks) o = elim (Bool-cases (leb j.created_at k.created_at)) [
  | inl e ↦ rw e (((ground arith), All-NotBefore_trans j k ks (ground arith) o.0), o)
  | inr e ↦
      rw e (All-insert_by_created k j ks (ground arith) o.0, insert_by_created-IsOrdered j ks o.1)
]

order_by_created-IsOrdered : (js : List Job) → IsOrdered (order_by_created js)
unfolding order_by_created
order_by_created-IsOrdered [] = tt
order_by_created-IsOrdered (j ∷ js) =
    insert_by_created-IsOrdered j (order_by_created js) (order_by_created-IsOrdered js)

All-at : (k : Job) (js : List Job) (j : Job) → All (NotBefore k) js → In j js → NotBefore k j
All-at k [] j a h = elim h [ ]
All-at k (x ∷ xs) j a h = ground (arith, All-at k xs j)

-- A row of an ordered list that the LIMIT cuts off is no older than any row that it keeps.
take-oldest :
    (n : ℕ) (js : List Job) (j : Job)
    → IsOrdered js
    → In j js
    → contains (ids (take n js)) j.id ≡ false
    → All (λ k. NotBefore k j) (take n js)
unfolding contains
take-oldest zero js j o h c = tt
take-oldest (suc n) [] j o h c = tt
take-oldest (suc n) (x ∷ xs) j o (inl e) c =
    absurd (ground (arith, eq_iff x.id j.id, ap (λ (k : Job). k.id) e))
take-oldest (suc n) (x ∷ xs) j o (inr h) c =
    (All-at x xs j o.0 h, take-oldest n xs j o.1 h (ground arith))

pub order_by_created-oldest :
    (n : ℕ) (js : List Job) (j : Job)
    → In j js
    → contains (ids (take n (order_by_created js))) j.id ≡ false
    → All (λ k. NotBefore k j) (take n (order_by_created js))
order_by_created-oldest n js j h c =
    take-oldest n (order_by_created js) j (order_by_created-IsOrdered js)
      (In-order_by_created js j h) c
