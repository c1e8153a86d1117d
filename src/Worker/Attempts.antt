-- ===== src/Worker/Attempts.antt =====
-- The posts that fire_callback of worker.py makes.
use genesis_agents.Base.{
  ℕ, zero, suc, ◌+◌, ◌≤◌, ◌≡◌, ◌⊎◌, refl, ap, subst, inl, inr, Bool, true, false, Option, List,
  length, arith, Bool-cases,
}
use genesis_agents.Worker.Callback.{Payload, attempts, fire_callback, is_success}

-- A run of the loop from an attempt with a number of them left: it stops at the first success, or
-- there is none and all of them are made.
abbrev pub Stops : (ℕ → Option ℕ) → ℕ → ℕ → List Payload × Bool → Type 0
Stops responses attempt left (posts, done) =
    ((done ≡ true)
      × (length posts ≤ left)
      × ((k : ℕ) × (length posts ≡ suc k) × (is_success (responses (k + attempt)) ≡ true)))
    ⊎ ((done ≡ false) × (length posts ≡ left))

module _ (responses : ℕ → Option ℕ) (p : Payload) where
  moved_success :
      {m n : ℕ} → m ≡ n → is_success (responses m) ≡ true → is_success (responses n) ≡ true
  moved_success e s = subst (λ n. is_success (responses n) ≡ true) e s

  attempts-stop :
      (attempt left : ℕ) → Stops responses attempt left (attempts responses p attempt left)
  unfolding attempts
  attempts-stop attempt zero = inr (refl, refl)
  attempts-stop attempt (suc left) = elim (Bool-cases (is_success (responses attempt))) [
    | inl b ↦ rw b (inl (refl, omega arith, (zero, refl, moved_success (omega arith) b)))
    | inr b ↦ rw b (elim (attempts-stop (suc attempt) left) [
      | inl (d, l, (k, e, s)) ↦
          inl (d, omega arith, (suc k, ap suc e, moved_success (omega arith) s))
      | inr (d, e) ↦ inr (d, ap suc e)
    ])
  ]

  -- A callback is posted until the first answer of 200 to 299 and at most max_attempts times: it ends
  -- well with the post that was answered so, or badly after exactly max_attempts posts.
  pub fire_callback-Stops :
      (max_attempts : ℕ) → Stops responses 1 max_attempts (fire_callback max_attempts responses p)
  unfolding fire_callback
  fire_callback-Stops max_attempts = attempts-stop 1 max_attempts
