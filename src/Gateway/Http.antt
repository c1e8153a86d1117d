-- ===== src/Gateway/Http.antt =====
-- What the routes of main.py share: HTTP errors, request bodies as JSON, and the functions of Python
-- that they call on JSON values. An exception that no handler catches is the status 500.
use genesis_agents.Base.{
  ℕ, String, Bool, true, false, Option, none, some, List, ◌==◌, get_or, if◌then◌else◌,
}
use genesis_agents.Base.Json.{
  Json, Fields, null, bool, number, text, array, object, nil, cons, end, field,
}
use genesis_agents.Text.{truthy}
use genesis_agents.Envelope.Values.{get_field}
use genesis_agents.Auth.Envelope.{AuthError}
use genesis_agents.Audit.Redaction.{Library}

pub data Detail : Type 0 where
  message : String → Detail
  auth : AuthError → Detail
  names : String → List String → Detail

pub record HttpError : Type 0 where
  pub status : ℕ
  pub detail : Detail

abbrev pub http : ℕ → String → HttpError
http status detail = record { status = status; detail = message detail }

-- Python on JSON values: `str`, numbers that are not zero, `==` with the number 1 and on
-- dictionaries, a number as a natural one, `json.dumps`, the host of a URL, and the functions on texts.
pub record Python : Type 0 where
  pub str : Json → String
  pub is_nonzero : String → Bool
  pub is_one : Json → Bool
  pub same : Fields → Fields → Bool
  pub natural : String → Option ℕ
  pub hostname : String → String
  pub library : Library

-- `body.get(k)`
abbrev pub get : String → Fields → Json
get k fs = get_or (get_field k fs) null

-- `k in d`
abbrev pub has : String → Fields → Bool
has k fs = elim (get_field k fs) [ none ↦ false | some v ↦ true ]

-- `d.pop(k, None)`
unfoldable pub pop : String → Fields → Fields
pop k end = end
pop k (field j v fs) = let rest = pop k fs in if j == k then rest else field j v rest

-- `d[k] = v`
unfoldable pub put : String → Json → Fields → Fields
put k v end = field k v end
put k v (field j w fs) = if j == k then field j v fs else field j w (put k v fs)

-- `v if isinstance(v, dict) else ...`
abbrev pub as_dict : Json → Option Fields
as_dict (object fs) = some fs
as_dict _ = none

module _ (py : Python) where
  -- `bool(v)`
  unfoldable pub truth : Json → Bool
  truth null = false
  truth (bool b) = b
  truth (number n) = py.is_nonzero n
  truth (text s) = truthy s
  truth (array nil) = false
  truth (array (cons x xs)) = true
  truth (object end) = false
  truth (object (field k v fs)) = true

  -- `str(v)`
  unfoldable pub str_of : Json → String
  str_of (text s) = s
  str_of v = py.str v

  -- `str(v or "")`
  unfoldable pub or_blank : Json → String
  unfolding truth str_of
  or_blank v = if truth v then str_of v else ""

  -- `v or {}`
  unfoldable pub or_dict : Json → Json
  unfolding truth
  or_dict v = if truth v then v else object end
