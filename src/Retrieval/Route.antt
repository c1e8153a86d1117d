-- ===== src/Retrieval/Route.antt =====
-- retrieval_query of retrieval_route.py over the two stores. Scores are ordered numbers, times are
-- seconds, and a date in a row is its text; a column that a row lacks is null.
use Prim.Native.String.{◌++◌ as cat}
use genesis_agents.Base.{
  ℕ, ◌-◌, String, Bool, true, false, not, Option, none, some, List, [], ◌∷◌, ◌++◌, map, filter, ltb,
  leb, get_or, if◌then◌else◌,
}
use genesis_agents.Base.Json.{Json, Fields, text}
use genesis_agents.Text.{truthy}
use genesis_agents.Envelope.Values.{get_field}
use genesis_agents.Audit.Redaction.{sanitize}
use genesis_agents.Auth.Envelope.{Principal}
use genesis_agents.Knowledge.Backbone.{Chunk, resolve}
use genesis_agents.Gateway.Http.{Python, get, str_of, or_blank}
use genesis_agents.Gateway.Context.{prefix, or_json}
use genesis_agents.Retrieval.Identity.{Query, Hint, vault}

-- A row of vault_chunks.
pub record VaultRow : Type 0 where
  pub chunk_id : String
  pub content_sha256 : String
  pub vault_path : String
  pub heading_path : String
  pub supersedes : List String
  pub score : ℕ
  pub columns : Fields

-- The fields that only chunks of the vault fill, and those that only chunks of the backbone fill.
pub record Note : Type 0 where
  pub entity : Json
  pub type : Json
  pub status : Json
  pub updated : Json
  pub supersedes : List String

pub record Provenance : Type 0 where
  pub source_account : Json
  pub source_classification : Option String
  pub drive_id : Option String
  pub file_id : Option String
  pub original_path : Json
  pub modified_at : Json
  pub content_hash : Option String
  pub staleness_flag : Json

pub data Source : Type 0 where
  of_vault : Note → Source
  of_knowledge_backbone : Provenance → Source

pub record RetrievalChunk : Type 0 where
  pub chunk_id : String
  pub content_sha256 : String
  pub citation : String
  pub score : ℕ
  pub content : String
  pub source : Source

pub record RetrievalQueryResponse : Type 0 where
  pub chunks : List RetrievalChunk
  pub index_updated_at : Option String
  pub stale : Bool
  pub refusal : Bool
  pub reason : Option String
  pub degraded : Bool
  pub degraded_reason : Option String
  pub partial : Bool
  pub partial_reason : Option String

-- What the stores answer, none where they raise; the settings, and the clock with its isoformat.
pub record Stores : Type 0 where
  pub vault_rows : Option (List VaultRow × Option ℕ)
  pub backbone_rows : Option (List Chunk)
  pub min_score : ℕ
  pub staleness_seconds : ℕ
  pub now : ℕ
  pub isoformat : ℕ → String

abbrev pub refusal_reason : String
refusal_reason = "no vault answer found above threshold"

unfoldable pub compute_staleness : Stores → Option ℕ → Option String × Bool
compute_staleness o none = (none, false)
compute_staleness o (some updated) =
    (some (o.isoformat updated), ltb o.staleness_seconds (o.now - updated))

abbrev pub degraded_response : String → RetrievalQueryResponse
degraded_response why = record {
  chunks = [];
  index_updated_at = none;
  stale = false;
  refusal = true;
  reason = some refusal_reason;
  degraded = true;
  degraded_reason = some why;
  partial = false;
  partial_reason = none;
}

module _ (py : Python) where
  unfoldable pub safe_content : Json → String
  unfolding prefix str_of or_blank sanitize
  safe_content value = prefix 4000 (str_of py (sanitize py.library "" (text (or_blank py value))))

  unfoldable pub row_to_chunk : VaultRow → RetrievalChunk
  unfolding safe_content
  row_to_chunk row = record {
    chunk_id = row.chunk_id;
    content_sha256 = row.content_sha256;
    citation = cat row.vault_path (cat "#" row.heading_path);
    score = row.score;
    content = safe_content (get "content_text" row.columns);
    source = of_vault (record {
      entity = get "entity" row.columns;
      type = get "type" row.columns;
      status = get "status" row.columns;
      updated = get "updated" row.columns;
      supersedes = row.supersedes;
    });
  }

  -- `str(row.get(k, default))`
  abbrev column_text : String → Json → Fields → String
  column_text k default columns = str_of py (get_or (get_field k columns) default)

  unfoldable pub row_to_kb_chunk : Chunk → RetrievalChunk
  unfolding safe_content str_of get_field
  row_to_kb_chunk row = record {
    chunk_id = column_text "chunk_id" (text "") row.columns;
    content_sha256 = get_or row.content_hash "";
    citation =
        column_text "citation" (get_or (get_field "original_path" row.columns) (text ""))
          row.columns;
    score = row.score;
    content =
        safe_content (or_json py (get "content_text" row.columns) (get "content" row.columns));
    source = of_knowledge_backbone (record {
      source_account = get "source_account" row.columns;
      source_classification = row.source_classification;
      drive_id = row.drive_id;
      file_id = row.file_id;
      original_path = get "original_path" row.columns;
      modified_at = get "modified_at" row.columns;
      content_hash = row.content_hash;
      staleness_flag = get "staleness_flag" row.columns;
    });
  }

  -- The chunks, `partial` and its reason.
  unfoldable pub query_knowledge_backbone :
      Stores → String → List RetrievalChunk × (Bool × Option String)
  unfolding resolve filter row_to_kb_chunk
  query_knowledge_backbone o principal =
      if not (truthy principal) then ([], (false, none)) else elim o.backbone_rows [
        | none ↦ ([], (true, some "knowledge_backbone unavailable"))
        | some rows ↦ (
          map row_to_kb_chunk
              (filter (λ (r : Chunk). leb o.min_score r.score) (resolve rows (some principal))),
          (false, none),
        )
      ]

  -- The fan-out to the second backend.
  unfoldable pub fan_out : Stores → Hint → Principal → List RetrievalChunk × (Bool × Option String)
  unfolding query_knowledge_backbone
  fan_out o vault p = ([], (false, none))
  fan_out o Hint.drive p = query_knowledge_backbone o p.principal_id
  fan_out o Hint.any p = query_knowledge_backbone o p.principal_id

  -- The answer on chunks of both backends.
  abbrev pub respond :
      List RetrievalChunk → Option String × Bool → Bool × Option String → RetrievalQueryResponse
  respond chunks (index_updated_at, stale) (partial, partial_reason) = record {
    chunks = chunks;
    index_updated_at = index_updated_at;
    stale = stale;
    refusal = (elim chunks [ [] ↦ true | c ∷ cs ↦ false ]);
    reason = (elim chunks [ [] ↦ some refusal_reason | c ∷ cs ↦ none ]);
    degraded = false;
    degraded_reason = none;
    partial = partial;
    partial_reason = partial_reason;
  }

  unfoldable pub vault_chunks : Stores → List VaultRow → List RetrievalChunk
  unfolding row_to_chunk filter
  vault_chunks o rows = map row_to_chunk (filter (λ (r : VaultRow). leb o.min_score r.score) rows)

  unfoldable pub retrieval_query : Stores → Query → Principal → RetrievalQueryResponse
  unfolding compute_staleness vault_chunks fan_out
  retrieval_query o q p = elim o.vault_rows [
    | none ↦ degraded_response "assistant-tier PG unavailable"
    | some (rows, updated) ↦
        let (found, partial) = fan_out o q.domain_hint p in
        respond (vault_chunks o rows ++ found) (compute_staleness o updated) partial
  ]
