-- ===== src/Knowledge/Permitted.antt =====
-- What a principal gets from `resolve` of knowledge_backbone.py.
use genesis_agents.Base.{
  ◌≡◌, refl, String, Bool, true, none, some, List, [], ◌∷◌, ltb, filter, map, All, Bool-cases, inl,
  inr,
}
use genesis_agents.Text.{truthy}
use genesis_agents.Knowledge.Backbone.{
  Chunk, Group, has_matching_access, filter_by_permission, put_identity, put_all, dedup_by_identity,
  snoc, add_to_groups, group_all, max_by_score, is_canonical, best_of, pick,
  dedup_by_content_hash_with_precedence, dedup_and_precede, resolve, same_identity, same_text,
}

module _ (P : Chunk → Bool) where
  abbrev Holds : List Chunk → Type 0
  Holds = All (λ r. P r ≡ true)

  abbrev HoldsIn : Group → Type 0
  HoldsIn g = (P g.first ≡ true) × Holds g.rest

  put_identity-Holds :
      (r : Chunk) (best : List Chunk) → P r ≡ true → Holds best → Holds (put_identity r best)
  unfolding put_identity
  put_identity-Holds r [] p h = (p, tt)
  put_identity-Holds r (q ∷ best) p h = elim (Bool-cases (same_identity q r)) [
    | inl e ↦ elim (Bool-cases (ltb q.score r.score)) [
      | inl l ↦ rw (e, l) (p, h.1)
      | inr l ↦ rw (e, l) h
    ]
    | inr e ↦ rw e (h.0, put_identity-Holds r best p h.1)
  ]

  put_all-Holds : (rows best : List Chunk) → Holds rows → Holds best → Holds (put_all rows best)
  unfolding put_all
  put_all-Holds [] best h b = b
  put_all-Holds (r ∷ rows) best h b =
      put_all-Holds rows (put_identity r best) h.1 (put_identity-Holds r best h.0 b)

  snoc-Holds : (rows : List Chunk) (r : Chunk) → Holds rows → P r ≡ true → Holds (snoc rows r)
  snoc-Holds [] r h p = (p, tt)
  snoc-Holds (q ∷ rows) r h p = (h.0, snoc-Holds rows r h.1 p)

  add_to_groups-Holds :
      (r : Chunk) (groups : List Group)
      → P r ≡ true
      → All HoldsIn groups
      → All HoldsIn (add_to_groups r groups)
  unfolding add_to_groups
  add_to_groups-Holds r [] p h = ((p, tt), tt)
  add_to_groups-Holds r (g ∷ groups) p h =
      elim (Bool-cases (same_text g.first.content_hash r.content_hash)) [
        | inl e ↦ rw e ((h.0.0, snoc-Holds g.rest r h.0.1 p), h.1)
        | inr e ↦ rw e (h.0, add_to_groups-Holds r groups p h.1)
      ]

  group_all-Holds :
      (rows : List Chunk) (groups : List Group)
      → Holds rows
      → All HoldsIn groups
      → All HoldsIn (group_all rows groups)
  unfolding group_all
  group_all-Holds [] groups h g = g
  group_all-Holds (r ∷ rows) groups h g =
      group_all-Holds rows (add_to_groups r groups) h.1 (add_to_groups-Holds r groups h.0 g)

  pub max_by_score-Holds :
      (best : Chunk) (rows : List Chunk)
      → P best ≡ true
      → Holds rows
      → P (max_by_score best rows) ≡ true
  unfolding max_by_score
  max_by_score-Holds best [] p h = p
  max_by_score-Holds best (r ∷ rows) p h = elim (Bool-cases (ltb best.score r.score)) [
    | inl l ↦ rw l (max_by_score-Holds r rows h.0 h.1)
    | inr l ↦ rw l (max_by_score-Holds best rows p h.1)
  ]

  filter-Holds : (f : Chunk → Bool) (rows : List Chunk) → Holds rows → Holds (filter f rows)
  unfolding filter
  filter-Holds f [] h = tt
  filter-Holds f (r ∷ rows) h = elim (Bool-cases (f r)) [
    | inl e ↦ rw e (h.0, filter-Holds f rows h.1)
    | inr e ↦ rw e (filter-Holds f rows h.1)
  ]

  best_of-Holds : (g : Group) (cs : List Chunk) → HoldsIn g → Holds cs → P (best_of g cs) ≡ true
  best_of-Holds g [] h c = max_by_score-Holds g.first g.rest h.0 h.1
  best_of-Holds g (x ∷ cs) h c = max_by_score-Holds x cs c.0 c.1

  pick-Holds : (g : Group) → HoldsIn g → P (pick g) ≡ true
  unfolding pick
  pick-Holds g h = go g.rest (
      best_of-Holds g (filter is_canonical (g.first ∷ g.rest)) h
        (filter-Holds is_canonical (g.first ∷ g.rest) h))
    where
      go :
          (rest : List Chunk)
          → P (best_of g (filter is_canonical (g.first ∷ g.rest))) ≡ true
          → P (elim rest [
            | [] ↦ g.first
            | q ∷ rows ↦ best_of g (filter is_canonical (g.first ∷ g.rest))
          ])
            ≡ true
      go [] b = h.0
      go (q ∷ rows) b = b

  map-pick-Holds : (groups : List Group) → All HoldsIn groups → Holds (map pick groups)
  map-pick-Holds [] h = tt
  map-pick-Holds (g ∷ groups) h = (pick-Holds g h.0, map-pick-Holds groups h.1)

  -- Whatever all rows have, all rows that the two deduplications leave have.
  pub dedup_and_precede-Holds : (rows : List Chunk) → Holds rows → Holds (dedup_and_precede rows)
  unfolding dedup_and_precede dedup_by_content_hash_with_precedence dedup_by_identity
  dedup_and_precede-Holds rows h =
      map-pick-Holds _ (group_all-Holds (put_all rows []) [] (put_all-Holds rows [] h tt) tt)

filter-All : (f : Chunk → Bool) (rows : List Chunk) → All (λ r. f r ≡ true) (filter f rows)
unfolding filter
filter-All f [] = tt
filter-All f (r ∷ rows) = elim (Bool-cases (f r)) [
  | inl e ↦ rw e (e, filter-All f rows)
  | inr e ↦ rw e (filter-All f rows)
]

-- Every row that `resolve` returns to a principal is public or names that principal.
pub resolve-permitted :
    (rows : List Chunk) (principal : String)
    → All
        (λ r. has_matching_access r.permissions_snapshot principal ≡ true)
        (resolve rows (some principal))
unfolding resolve filter_by_permission
resolve-permitted rows principal =
    dedup_and_precede-Holds (λ r. has_matching_access r.permissions_snapshot principal) _
      (filtered principal)
  where
    filtered :
        (p : String)
        → All
            (λ r. has_matching_access r.permissions_snapshot p ≡ true)
            (filter_by_permission rows (some p))
    filtered p = elim (Bool-cases (truthy p)) [
      | inl t ↦
          rw (filter_by_permission, t)
            (filter-All (λ r. has_matching_access r.permissions_snapshot p) rows)
      | inr t ↦ rw (filter_by_permission, t) tt
    ]

-- Without a principal, or with the empty text for one, `resolve` returns no row.
pub resolve-anonymous :
    (rows : List Chunk) → (resolve rows none ≡ []) × (resolve rows (some "") ≡ [])
unfolding resolve filter_by_permission dedup_and_precede dedup_by_content_hash_with_precedence
    dedup_by_identity put_all group_all
resolve-anonymous rows = (refl, refl)
