-- ===== src/Envelope/Values.antt =====
-- _strip_banned of tools/_envelope.py on JSON values.
use genesis_agents.Base.{
  String, Bool, true, not, ◌&&◌, List, [], ◌∷◌, contains, if◌then◌else◌, Option, none, some, ◌==◌,
}
use genesis_agents.Base.Json.{
  Json, Items, Fields, null, bool, number, text, array, object, nil, cons, end, field,
}

abbrev pub banned_response_keys : List String
banned_response_keys = "stub" ∷ "scaffold" ∷ "note" ∷ []

unfoldable mutual
  unfolding contains

  pub strip_banned : Json → Json
  strip_banned null = null
  strip_banned (bool b) = bool b
  strip_banned (number n) = number n
  strip_banned (text s) = text s
  strip_banned (array xs) = array (strip_items xs)
  strip_banned (object fs) = object (strip_fields fs)

  pub strip_items : Items → Items
  strip_items nil = nil
  strip_items (cons x xs) = cons (strip_banned x) (strip_items xs)

  pub strip_fields : Fields → Fields
  strip_fields end = end
  strip_fields (field k v fs) =
      let rest = strip_fields fs in
      let value = strip_banned v in
      if contains banned_response_keys k then rest else field k value rest

-- No banned key, at any depth.
unfoldable mutual
  unfolding contains

  pub is_clean : Json → Bool
  is_clean null = true
  is_clean (bool b) = true
  is_clean (number n) = true
  is_clean (text s) = true
  is_clean (array xs) = are_clean xs
  is_clean (object fs) = fields_clean fs

  pub are_clean : Items → Bool
  are_clean nil = true
  are_clean (cons x xs) = is_clean x && are_clean xs

  pub fields_clean : Fields → Bool
  fields_clean end = true
  fields_clean (field k v fs) =
      not (contains banned_response_keys k) && (is_clean v && fields_clean fs)

-- `d.get(k)` on a dictionary.
unfoldable pub get_field : String → Fields → Option Json
get_field k end = none
get_field k (field j v fs) = if j == k then some v else get_field k fs

-- `d.get(k)` on a value that is a dictionary.
unfoldable pub get_key : String → Json → Option Json
unfolding get_field
get_key k null = none
get_key k (bool b) = none
get_key k (number n) = none
get_key k (text s) = none
get_key k (array xs) = none
get_key k (object fs) = get_field k fs
