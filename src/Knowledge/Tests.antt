-- ===== src/Knowledge/Tests.antt =====
-- The resolution of knowledge_backbone.py at two copies of one document.
use genesis_agents.Base.{◌≡◌, refl, true, false, none, some, [], ◌∷◌, filter, contains}
use genesis_agents.Base.Json.{end}
use genesis_agents.Knowledge.Backbone.{
  Chunk, has_matching_access, filter_by_permission, dedup_and_precede, dedup_by_identity,
  dedup_by_content_hash_with_precedence, put_all, put_identity, group_all, add_to_groups, pick,
  max_by_score, resolve,
}

abbrev canonical_copy : Chunk
canonical_copy = record {
  source_classification = some "canonical";
  drive_id = some "d1";
  file_id = some "f1";
  content_hash = some "h";
  permissions_snapshot = some (record { public = false; principals = some ("ann" ∷ []) });
  score = 3;
  columns = end;
}

abbrev controller_copy : Chunk
controller_copy = record canonical_copy {
  source_classification = some "controller";
  file_id = some "f2";
  permissions_snapshot = some (record { public = true; principals = none });
  score = 5;
}

canonical_wins : resolve (controller_copy ∷ canonical_copy ∷ []) (some "ann") ≡ canonical_copy ∷ []
unfolding resolve has_matching_access filter_by_permission dedup_and_precede dedup_by_identity
    dedup_by_content_hash_with_precedence put_all put_identity group_all add_to_groups pick
    max_by_score filter contains
canonical_wins = refl

other_copy : resolve (controller_copy ∷ canonical_copy ∷ []) (some "bob") ≡ controller_copy ∷ []
unfolding resolve has_matching_access filter_by_permission dedup_and_precede dedup_by_identity
    dedup_by_content_hash_with_precedence put_all put_identity group_all add_to_groups pick
    max_by_score filter contains
other_copy = refl
