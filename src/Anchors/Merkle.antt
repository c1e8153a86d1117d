-- ===== src/Anchors/Merkle.antt =====
-- _build_merkle_tree of anchor_logger.py. SHA-256 is an argument. The loop runs on fuel; the list of
-- all levels is not returned.
use Prim.Native.String.{◌++◌ as cat}
use genesis_agents.Base.{ℕ, zero, suc, String, Option, none, some, List, [], ◌∷◌, length}

module _ (sha256 : String → String) where
  -- The parent of two nodes.
  abbrev pub parent : String → String → String
  parent left right = sha256 (cat left right)

  -- One round of the loop: an odd node is its own right neighbour.
  abbrev pub next_level : List String → List String
  next_level [] = []
  next_level (left ∷ []) = parent left left ∷ []
  next_level (left ∷ right ∷ rest) = parent left right ∷ next_level rest

  -- `while len(current) > 1`, and then current[0]; none where the fuel runs out.
  unfoldable pub climb : ℕ → List String → Option String
  climb fuel [] = none
  climb fuel (root ∷ []) = some root
  climb zero (x ∷ y ∷ rest) = none
  climb (suc fuel) (x ∷ y ∷ rest) = climb fuel (next_level (x ∷ y ∷ rest))

  -- The root over the leaves.
  unfoldable pub merkle_root : List String → Option String
  merkle_root [] = some (sha256 "empty")
  merkle_root (x ∷ xs) = climb (length (x ∷ xs)) (x ∷ xs)
