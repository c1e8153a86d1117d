-- ===== src/Knowledge/Backbone.antt =====
-- knowledge_backbone.py: the rows that a principal may see, without duplicates. Scores are ordered
-- numbers, and a column that a row lacks is none. `columns` are those that nothing here reads.
use genesis_agents.Base.{
  ℕ, String, Bool, true, false, ◌&&◌, Option, none, some, List, [], ◌∷◌, ◌==◌, ltb, filter,
  contains, map, if◌then◌else◌,
}
use genesis_agents.Text.{truthy}
use genesis_agents.Base.Json.{Fields}

-- A permissions_snapshot that is a dictionary: whether `public` is True, and `principals`, if it is
-- a list, a tuple or a set.
pub record Snapshot : Type 0 where
  pub public : Bool
  pub principals : Option (List String)

pub record Chunk : Type 0 where
  pub source_classification : Option String
  pub drive_id : Option String
  pub file_id : Option String
  pub content_hash : Option String
  pub permissions_snapshot : Option Snapshot
  pub score : ℕ
  pub columns : Fields

unfoldable pub has_matching_access : Option Snapshot → String → Bool
has_matching_access none principal = false
has_matching_access (some s) principal =
    if s.public then true else elim s.principals [ none ↦ false | some ps ↦ contains ps principal ]

unfoldable pub filter_by_permission : List Chunk → Option String → List Chunk
unfolding has_matching_access filter
filter_by_permission rows none = []
filter_by_permission rows (some principal) =
    if truthy principal
    then filter (λ (r : Chunk). has_matching_access r.permissions_snapshot principal) rows
    else []

-- `==` on a text or None.
abbrev pub same_text : Option String → Option String → Bool
same_text none none = true
same_text none (some b) = false
same_text (some a) none = false
same_text (some a) (some b) = a == b

abbrev pub same_identity : Chunk → Chunk → Bool
same_identity q r = same_text q.drive_id r.drive_id && same_text q.file_id r.file_id

-- One round of _dedup_by_identity: the best copy per key, in the order of the keys' first rows.
unfoldable pub put_identity : Chunk → List Chunk → List Chunk
put_identity r [] = r ∷ []
put_identity r (q ∷ best) =
    let rest = put_identity r best in
    if same_identity q r then (if ltb q.score r.score then r ∷ best else q ∷ best) else q ∷ rest

unfoldable pub put_all : List Chunk → List Chunk → List Chunk
unfolding put_identity
put_all [] best = best
put_all (r ∷ rows) best = put_all rows (put_identity r best)

unfoldable pub dedup_by_identity : List Chunk → List Chunk
unfolding put_all
dedup_by_identity rows = put_all rows []

-- A group of rows with one content hash, in the order of their arrival; never empty.
pub record Group : Type 0 where
  pub first : Chunk
  pub rest : List Chunk

abbrev pub snoc : List Chunk → Chunk → List Chunk
snoc [] r = r ∷ []
snoc (q ∷ rows) r = q ∷ snoc rows r

unfoldable pub add_to_groups : Chunk → List Group → List Group
add_to_groups r [] = record { first = r; rest = [] } ∷ []
add_to_groups r (g ∷ groups) =
    let later = add_to_groups r groups in
    if same_text g.first.content_hash r.content_hash
    then record g { rest = snoc g.rest r } ∷ groups
    else g ∷ later

unfoldable pub group_all : List Chunk → List Group → List Group
unfolding add_to_groups
group_all [] groups = groups
group_all (r ∷ rows) groups = group_all rows (add_to_groups r groups)

-- `max(rows, key=score)`, which keeps the first of equals.
unfoldable pub max_by_score : Chunk → List Chunk → Chunk
max_by_score best [] = best
max_by_score best (r ∷ rows) =
    if ltb best.score r.score then max_by_score r rows else max_by_score best rows

abbrev pub is_canonical : Chunk → Bool
is_canonical r = same_text r.source_classification (some "canonical")

abbrev pub best_of : Group → List Chunk → Chunk
best_of g [] = max_by_score g.first g.rest
best_of g (c ∷ cs) = max_by_score c cs

-- The choice in a group, in _dedup_by_content_hash_with_precedence.
unfoldable pub pick : Group → Chunk
unfolding max_by_score filter
pick g = elim g.rest [
  | [] ↦ g.first
  | q ∷ rows ↦ best_of g (filter is_canonical (g.first ∷ g.rest))
]

unfoldable pub dedup_by_content_hash_with_precedence : List Chunk → List Chunk
unfolding group_all pick
dedup_by_content_hash_with_precedence rows = map pick (group_all rows [])

unfoldable pub dedup_and_precede : List Chunk → List Chunk
dedup_and_precede rows = dedup_by_content_hash_with_precedence (dedup_by_identity rows)

unfoldable pub resolve : List Chunk → Option String → List Chunk
resolve rows principal = dedup_and_precede (filter_by_permission rows principal)
