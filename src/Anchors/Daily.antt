-- ===== src/Anchors/Daily.antt =====
-- The anchors of anchor_logger.py over the audit log: compute_daily_anchor, record_anchor, get_anchor
-- and verify_anchor. The database is none where it is missing or unreadable; `day_start` is
-- strptime's reading of a date in UTC, and none where it raises. Times are in seconds.
use genesis_agents.Base.{
  ℕ, ◌+◌, String, Bool, true, false, not, ◌&&◌, Option, none, some, List, [], ◌∷◌, ◌++◌, ◌==◌,
  length, map, filter, contains, leb, ltb, get_or, if◌then◌else◌,
}
use genesis_agents.Base.Result.{Result, ok, raise}
use genesis_agents.Audit.Chain.{Row, Store, Texts, verify_chain}
use genesis_agents.Anchors.Merkle.{merkle_root}

pub record Anchor : Type 0 where
  pub date : String
  pub session_count : ℕ
  pub action_count : ℕ
  pub leaf_hashes : List String
  pub root : String
  pub computed_at : String

pub data AnchorError : Type 0 where
  bad_date unreadable : AnchorError

-- The dictionary that verify_anchor returns.
pub record Verdict : Type 0 where
  pub anchored : Bool
  pub stored_root : String
  pub recomputed_root : String
  pub rows_intact : Bool
  pub broken_sessions : List String
  pub is_match : Bool
  pub tampered : Bool

-- The rows of the day that starts at a time.
unfoldable pub rows_on : ℕ → List Row → List Row
unfolding filter
rows_on start rows = filter (λ r. leb start r.timestamp && ltb r.timestamp (start + 86400)) rows

-- `if sid not in seen: seen.append(sid)` for each row, from what was seen before.
abbrev pub sessions_from : List String → List Row → List String
sessions_from seen [] = seen
sessions_from seen (r ∷ rows) =
    sessions_from (if contains seen r.session_id then seen else seen ++ (r.session_id ∷ [])) rows

unfoldable pub sessions_on : ℕ → List Row → List String
unfolding rows_on contains
sessions_on start rows = sessions_from [] (rows_on start rows)

abbrev pub hashes_on : ℕ → List Row → List String
hashes_on start rows = map (λ r. r.row_hash) (rows_on start rows)

-- Append only: a second anchor of a date does not replace the first one.
abbrev pub record_anchor : Anchor → List Anchor → List Anchor
record_anchor a anchors = anchors ++ (a ∷ [])

-- The first anchor of the date.
unfoldable pub get_anchor : String → List Anchor → Option Anchor
get_anchor date [] = none
get_anchor date (a ∷ anchors) = if a.date == date then some a else get_anchor date anchors

abbrev pub is_empty : List String → Bool
is_empty [] = true
is_empty (x ∷ xs) = false

abbrev stored_of : Option Anchor → String
stored_of none = ""
stored_of (some a) = a.root

abbrev is_some : Option Anchor → Bool
is_some none = false
is_some (some a) = true

-- The comparison of the roots and the chains.
unfoldable pub judge : Option Anchor → Anchor → List String → Verdict
judge stored live broken =
    let is_match = is_some stored && (stored_of stored == live.root) && is_empty broken in
    record {
      anchored = is_some stored;
      stored_root = stored_of stored;
      recomputed_root = live.root;
      rows_intact = is_empty broken;
      broken_sessions = broken;
      is_match = is_match;
      tampered = is_some stored && not is_match;
    }

module _ (texts : Texts) (day_start : String → Option ℕ) where
  -- The anchor of a readable day; the root is there for every list of leaves.
  abbrev pub anchor_of : String → String → ℕ → Store → Anchor
  anchor_of date computed_at start s = record {
    date = date;
    session_count = length (sessions_on start s.rows);
    action_count = length (rows_on start s.rows);
    leaf_hashes = hashes_on start s.rows;
    root = get_or (merkle_root texts.sha256 (hashes_on start s.rows)) "";
    computed_at = computed_at;
  }

  unfoldable pub compute_daily_anchor : String → String → Option Store → Result AnchorError Anchor
  compute_daily_anchor date computed_at db = elim (day_start date) [
    | none ↦ raise bad_date
    | some start ↦ elim db [
      | none ↦ raise unreadable
      | some s ↦ ok (anchor_of date computed_at start s)
    ]
  ]

  -- The sessions of the day whose chain does not verify.
  unfoldable pub broken_sessions_on : ℕ → Store → List String
  unfolding filter
  broken_sessions_on start s =
      filter (λ session_id. not (verify_chain texts session_id s)) (sessions_on start s.rows)

  unfoldable pub verify_anchor :
      String → String → List Anchor → Option Store → Result AnchorError Verdict
  unfolding get_anchor broken_sessions_on
  verify_anchor date computed_at anchors db = elim (day_start date) [
    | none ↦ raise bad_date
    | some start ↦ elim db [
      | none ↦ raise unreadable
      | some s ↦ ok (
          judge (get_anchor date anchors) (anchor_of date computed_at start s)
            (broken_sessions_on start s))
    ]
  ]
