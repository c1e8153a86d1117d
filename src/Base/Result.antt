-- ===== src/Base/Result.antt =====
-- A call that returns or raises, and a database transaction: one that raises has no new state, so
-- its caller goes on from the state before it (rollback).

use mathlib.Core.Path.{◌≡◌, refl, ap}
use mathlib.Core.Logic.{◌⊎◌, inl, inr}

pub data Result {ℓ κ} (E : Type ℓ) (A : Type κ) : Type (ℓ ⊔ κ) where
  ok : A → Result E A
  raise : E → Result E A

abbrev pub Tx : Type 0 → Type 0 → Type 0 → Type 0
Tx E S A = S → Result E (A × S)

module _ {E S A : Type 0} where
  abbrev pub pure : A → Tx E S A
  pure a s = ok (a, s)

  abbrev pub fail : E → Tx E S A
  fail e s = raise e

  abbrev pub gets : (S → A) → Tx E S A
  gets f s = ok (f s, s)

  -- The state that a caller sees after the transaction.
  abbrev pub after : Tx E S A → S → S
  after m s = elim (m s) [ ok (a, s') ↦ s' | raise e ↦ s ]

abbrev pub modify : {E S : Type 0} → (S → S) → Tx E S (Unit {0})
modify f s = ok (tt, f s)

infixl 5 ◌>>=◌ ◌>>◌
abbrev pub ◌>>=◌ : {E S A B : Type 0} → Tx E S A → (A → Tx E S B) → Tx E S B
◌>>=◌ m f s = elim (m s) [ ok (a, s') ↦ f a s' | raise e ↦ raise e ]

abbrev pub ◌>>◌ : {E S B : Type 0} → Tx E S (Unit {0}) → Tx E S B → Tx E S B
m >> n = m >>= λ _. n

pub after-eq_of_ok :
    {E S A : Type 0} (m : Tx E S A) {s s' : S} {a : A} → m s ≡ ok (a, s') → after m s ≡ s'
after-eq_of_ok m {s = s} h = ap (λ r. elim r [ ok (a, t) ↦ t | raise e ↦ s ]) h

pub Result-cases {ℓ κ} :
    {E : Type ℓ} {A : Type κ} (r : Result E A) → ((e : E) × (r ≡ raise e)) ⊎ ((a : A) × (r ≡ ok a))
Result-cases (raise e) = inl (e, refl)
Result-cases (ok a) = inr (a, refl)
