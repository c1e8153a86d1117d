-- ===== src/Retrieval/Served.antt =====
-- What retrieval_query of retrieval_route.py answers.
use genesis_agents.Base.{
  ℕ, ◌≤◌, ◌≡◌, ◌≢◌, ◌⊎◌, refl, inl, inr, String, Bool, true, Option, some, List, [], ◌∷◌, ◌++◌, map,
  filter, leb, All, Bool-cases, Option-cases,
}
use genesis_agents.Base.Json.{Json}
use genesis_agents.Text.{chars, truthy}
use genesis_agents.Auth.Envelope.{Principal}
use genesis_agents.Knowledge.Backbone.{Chunk, has_matching_access, filter_by_permission, resolve}
use genesis_agents.Knowledge.Permitted.{dedup_and_precede-Holds, resolve-permitted}
use genesis_agents.Gateway.Scoped.{chars-prefix}
use genesis_agents.Gateway.Http.{Python, get}
use genesis_agents.Gateway.Context.{or_json}
use genesis_agents.Retrieval.Identity.{Query, Hint, vault}
use genesis_agents.Retrieval.Route.{
  VaultRow, RetrievalChunk, Stores, safe_content, row_to_chunk, row_to_kb_chunk,
  query_knowledge_backbone, fan_out, vault_chunks, retrieval_query,
}

module _ {A B : Type 0} (P : A → Type 0) (Q : B → Type 0) (f : A → B)
    (g : (a : A) → P a → Q (f a)) where
  All-map : (xs : List A) → All P xs → All Q (map f xs)
  All-map [] h = tt
  All-map (x ∷ xs) h = (g x h.0, All-map xs h.1)

module _ {A : Type 0} (P : A → Type 0) (t : A → Bool) where
  All-filter : (xs : List A) → All P xs → All (λ x. P x × (t x ≡ true)) (filter t xs)
  unfolding filter
  All-filter [] h = tt
  All-filter (x ∷ xs) h = elim (Bool-cases (t x)) [
    | inl e ↦ rw e ((h.0, e), All-filter xs h.1)
    | inr e ↦ rw e (All-filter xs h.1)
  ]

module _ {A : Type 0} (P : A → Type 0) where
  All-append : (xs ys : List A) → All P xs → All P ys → All P (xs ++ ys)
  All-append [] ys h k = k
  All-append (x ∷ xs) ys h k = (h.0, All-append xs ys h.1 k)

module _ {A : Type 0} (P Q : A → Type 0) where
  All-both : (xs : List A) → All P xs → All Q xs → All (λ x. P x × Q x) xs
  All-both [] h k = tt
  All-both (x ∷ xs) h k = ((h.0, k.0), All-both xs h.1 k.1)

  All-left : (xs : List A) → All (λ x. P x × Q x) xs → All P xs
  All-left [] h = tt
  All-left (x ∷ xs) h = (h.0.0, All-left xs h.1)

-- Whatever all rows have, all resolved rows have.
resolve-Holds :
    (K : Chunk → Bool) (rows : List Chunk) (principal : String)
    → All (λ r. K r ≡ true) rows
    → All (λ r. K r ≡ true) (resolve rows (some principal))
unfolding resolve filter_by_permission
resolve-Holds K rows principal h =
    dedup_and_precede-Holds K (filter_by_permission rows (some principal))
      (elim (Bool-cases (truthy principal)) [
        | inr n ↦ rw (filter_by_permission, n) tt
        | inl y ↦
            rw (filter_by_permission, y)
              (All-left (λ r. K r ≡ true) _ _
                (All-filter (λ r. K r ≡ true)
                  (λ (r : Chunk). has_matching_access r.permissions_snapshot principal) rows h))
      ])

module _ (py : Python) where
  safe_content-short : (v : Json) → chars (safe_content py v) ≤ 4000
  unfolding safe_content
  safe_content-short v = chars-prefix 4000 _

-- V and K are any properties that the rows of the two stores have.
module _ (py : Python) (V : VaultRow → Type 0) (K : Chunk → Bool) (o : Stores) (hint : Hint)
    (p : Principal) where
  -- A chunk of an answer, with a bounded content: of a row of the vault, or of a row of the knowledge
  -- backbone that the principal may see, in both cases above the threshold.
  abbrev pub IsServed : RetrievalChunk → Type 0
  IsServed c =
      (chars c.content ≤ 4000)
      × (((r : VaultRow) × V r × (c ≡ row_to_chunk py r) × (leb o.min_score r.score ≡ true))
          ⊎ ((hint ≢ vault)
              × (truthy p.principal_id ≡ true)
              × (r : Chunk) × (K r ≡ true)
              × (c ≡ row_to_kb_chunk py r)
              × (has_matching_access r.permissions_snapshot p.principal_id ≡ true)
              × (leb o.min_score r.score ≡ true)))

  vault-IsServed : (rows : List VaultRow) → All V rows → All IsServed (vault_chunks py o rows)
  unfolding vault_chunks row_to_chunk
  vault-IsServed rows v =
      All-map (λ r. V r × (leb o.min_score r.score ≡ true)) IsServed (row_to_chunk py)
        (λ r h. (safe_content-short py (get "content_text" r.columns), inl (r, h.0, refl, h.1))) _
        (All-filter V (λ r. leb o.min_score r.score) rows v)

  kb-IsServed :
      hint ≢ vault
      → ((rows : List Chunk) → o.backbone_rows ≡ some rows → All (λ r. K r ≡ true) rows)
      → All IsServed (query_knowledge_backbone py o p.principal_id).0
  unfolding query_knowledge_backbone row_to_kb_chunk
  kb-IsServed ne k = elim (Bool-cases (truthy p.principal_id)) [
    | inr n ↦ rw (query_knowledge_backbone, n) tt
    | inl y ↦ elim (Option-cases o.backbone_rows) [
      | inl n ↦ rw (query_knowledge_backbone, y, n) tt
      | inr (rows, e) ↦
          let found : List Chunk = resolve rows (some p.principal_id) in
          rw (query_knowledge_backbone, y, e)
            (All-map
              (λ (r : Chunk).
                ((K r ≡ true) × (has_matching_access r.permissions_snapshot p.principal_id ≡ true))
                × (leb o.min_score r.score ≡ true))
              IsServed (row_to_kb_chunk py)
              (λ r h. (
                safe_content-short py
                    (or_json py (get "content_text" r.columns) (get "content" r.columns)),
                inr (ne, y, r, h.0.0, refl, h.0.1, h.1),
              ))
              _
              (All-filter _ (λ r. leb o.min_score r.score) found
                (All-both (λ r. K r ≡ true)
                  (λ r. has_matching_access r.permissions_snapshot p.principal_id ≡ true) found
                  (resolve-Holds K rows p.principal_id (k rows e))
                  (resolve-permitted rows p.principal_id))))
    ]
  ]

fan_out-IsServed :
    (py : Python) (V : VaultRow → Type 0) (K : Chunk → Bool) (o : Stores) (hint : Hint)
    (p : Principal)
    → ((rows : List Chunk) → o.backbone_rows ≡ some rows → All (λ r. K r ≡ true) rows)
    → All (IsServed py V K o hint p) (fan_out py o hint p).0
unfolding fan_out
fan_out-IsServed py V K o vault p k = tt
fan_out-IsServed py V K o Hint.drive p k = kb-IsServed py V K o Hint.drive p (λ e. cc) k
fan_out-IsServed py V K o Hint.any p k = kb-IsServed py V K o Hint.any p (λ e. cc) k

-- Let V hold of all rows that the vault returns, and K of all rows that the knowledge backbone
-- returns. Each chunk that a retrieval query answers comes from a row with V, or from one with K; the
-- score is not below the threshold, and the content has at most 4000 characters. A row of the
-- backbone is answered only for a query that is not for the vault alone, to a principal with an id,
-- and if the row is public or names that principal.
pub retrieval_query-IsServed :
    (py : Python) (V : VaultRow → Type 0) (K : Chunk → Bool) (o : Stores) (q : Query)
    (p : Principal)
    → ((rows : List VaultRow) (updated : Option ℕ)
        → o.vault_rows ≡ some (rows, updated)
        → All V rows)
    → ((rows : List Chunk) → o.backbone_rows ≡ some rows → All (λ r. K r ≡ true) rows)
    → All (IsServed py V K o q.domain_hint p) (retrieval_query py o q p).chunks
unfolding retrieval_query
retrieval_query-IsServed py V K o q p v k = elim (Option-cases o.vault_rows) [
  | inl n ↦ rw (retrieval_query, n) tt
  | inr ((rows, updated), e) ↦
      rw (retrieval_query, e)
        (All-append (IsServed py V K o q.domain_hint p) (vault_chunks py o rows)
          (fan_out py o q.domain_hint p).0
          (vault-IsServed py V K o q.domain_hint p rows (v rows updated e))
          (fan_out-IsServed py V K o q.domain_hint p k))
]
