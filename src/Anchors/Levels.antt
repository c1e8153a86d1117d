-- ===== src/Anchors/Levels.antt =====
-- The levels of the Merkle tree of anchor_logger.py get shorter until one node is left.
use genesis_agents.Base.{
  ◌⊎◌, inl, inr, ℕ, zero, suc, ◌+◌, ◌≤◌, ◌≡◌, refl, String, some, List, [], ◌∷◌, length, arith,
}
use genesis_agents.Anchors.Merkle.{parent, next_level, climb, merkle_root}

module _ (sha256 : String → String) where
  -- A level has half as many nodes as the one below it, rounded up.
  pub length-next_level :
      (xs : List String)
      → (length (next_level sha256 xs) + length (next_level sha256 xs) ≡ length xs)
        ⊎ (length (next_level sha256 xs) + length (next_level sha256 xs) ≡ suc (length xs))
  length-next_level [] = inl (omega arith)
  length-next_level (x ∷ []) = inr (omega arith)
  length-next_level (x ∷ y ∷ rest) = elim (length-next_level rest) [
    | inl e ↦ inl (omega arith)
    | inr e ↦ inr (omega arith)
  ]

  pub climb-ends :
      (fuel : ℕ) (x : String) (xs : List String)
      → length xs ≤ fuel
      → (root : String) × (climb sha256 fuel (x ∷ xs) ≡ some root)
  unfolding climb
  climb-ends fuel x [] h = (x, refl)
  climb-ends zero x (y ∷ rest) h = absurd (omega arith)
  climb-ends (suc fuel) x (y ∷ rest) h =
      climb-ends fuel (parent sha256 x y) (next_level sha256 rest)
        (elim (length-next_level rest) [ inl e ↦ omega arith | inr e ↦ omega arith ])

  -- The loop ends with a root for every list of leaves: the fuel of one round for each leaf is enough.
  pub merkle_root-ends :
      (leaves : List String) → (root : String) × (merkle_root sha256 leaves ≡ some root)
  unfolding merkle_root
  merkle_root-ends [] = (sha256 "empty", refl)
  merkle_root-ends (x ∷ xs) = climb-ends (length (x ∷ xs)) x xs (omega arith)
