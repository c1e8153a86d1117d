-- ===== src/Auth/Envelope.antt =====
-- AP2 envelopes, as runtime/request_auth.py verifies them. Canonical JSON, Ed25519 over base64 and
-- ISO timestamps are the libraries'. A set of scopes is a list; times are seconds since the epoch.
use Prim.Native.Char.{code}
use genesis_agents.Base.{
  ℕ, ◌+◌, ◌-◌, String, Bool, true, false, not, ◌&&◌, ◌||◌, Option, none, some, List, [], ◌∷◌, ◌==◌,
  ltb, leb, nat_eq, get_or, contains, any, filter, if◌then◌else◌,
}
use Prim.Native.String.{◌++◌ as cat}
use genesis_agents.Base.Result.{Result, ok, raise, Tx}
use genesis_agents.Text.{chars, is_ascii, or_empty, truthy, truthy?}
use genesis_agents.Replay.{spend}

-- AuthenticationError by its message, and the TypeError of compare_digest.
pub data AuthError : Type 0 where
  ap2_version_invalid ap2_envelope_invalid ap2_pubkey_header_mismatch ap2_timestamp_invalid :
      AuthError
  ap2_envelope_expired trusted_client_registry_invalid ap2_client_untrusted ap2_scope_denied :
      AuthError
  ap2_signature_invalid ap2_replay_detected ap2_nonce_store_unavailable
        auth_db_path_not_configured :
      AuthError
  ap2_agent_mismatch ap2_task_mismatch ap2_params_invalid ap2_params_mismatch : AuthError
  principal_token_key_not_configured principal_token_invalid principal_token_signature_invalid :
      AuthError
  principal_token_expired principal_token_identity_missing type_error : AuthError

pub record Principal : Type 0 where
  pub principal_id : String
  pub tenant_id : String
  pub client_id : String
  pub scopes : List String
  pub auth_method : String
  pub expires_at : ℕ

-- `scope in scopes or "*" in scopes`
unfoldable pub grants_scope : List String → String → Bool
grants_scope scopes scope = contains scopes scope || contains scopes "*"

unfoldable pub has_scope : Principal → String → Bool
unfolding grants_scope
has_scope p = grants_scope p.scopes

-- An entry of trusted_ap2_clients.json.
pub record Client : Type 0 where
  pub client_id : String
  pub enabled : Bool
  pub pubkey_b64 : Option String
  pub capabilities : List String
  pub principal_id : Option String
  pub tenant_id : Option String

-- A row of genesis_ap2_nonces.
pub record Nonce : Type 0 where
  pub client_id : String
  pub nonce : String
  pub expires_at : ℕ

abbrev pub nonce_key : Nonce → String × String
nonce_key r = (r.client_id, r.nonce)

abbrev pub same_key : String × String → String × String → Bool
same_key (a, b) (c, d) = a == c && b == d

pub data Site : Type 0 where
  postgres : Site
  sqlite : String → Site

-- _use_postgres and _auth_db_path, from the explicit path, pg_store and GENESIS_AUTH_DB_PATH.
unfoldable pub nonce_site : Option String → Bool → String → Result AuthError Site
nonce_site (some path) pg configured = ok (sqlite path)
nonce_site none true configured = ok postgres
nonce_site none false configured =
    if truthy configured then ok (sqlite configured) else raise auth_db_path_not_configured

-- _consume_nonce on a site that can be used or not, at the time that the sweep reads. The rows are
-- those of the table at that site; each site has a table of its own.
unfoldable pub consume_nonce :
    Result AuthError Site → Bool → ℕ → Nonce → Tx AuthError (List Nonce) (Unit {0})
consume_nonce (raise e) usable now row rows = raise e
consume_nonce (ok site) false now row rows = raise ap2_nonce_store_unavailable
consume_nonce (ok site) true now row rows =
    elim (spend nonce_key (λ r. r.expires_at) same_key now row rows) [
      | none ↦ raise ap2_replay_detected
      | some rows' ↦ ok (tt, rows')
    ]

-- The class [A-Za-z0-9_-].
abbrev between : ℕ → ℕ → ℕ → Bool
between a b n = leb a n && leb n b

unfoldable pub is_nonce_text : String → Bool
is_nonce_text String.[] = true
is_nonce_text (String.◌∷◌ c s) =
    (between 65 90 (code c)
      || (between 97 122 (code c)
          || (between 48 57 (code c) || (nat_eq (code c) 95 || nat_eq (code c) 45))))
    && is_nonce_text s

-- _NONCE_RE.fullmatch
unfoldable pub nonce_matches : String → Bool
unfolding is_nonce_text
nonce_matches s = leb 16 (chars s) && (leb (chars s) 128 && is_nonce_text s)

-- The signed payload; none for `params` that are no dictionary.
pub record Payload (Params : Type 0) : Type 0 where
  pub agent : Option String
  pub task : Option String
  pub params : Option Params

-- The request body; none for a payload that is no dictionary. The texts are `str(x or "")`.
pub record Body (Params : Type 0) : Type 0 where
  pub version : Option ℕ
  pub payload : Option (Payload Params)
  pub nonce : String
  pub timestamp : String
  pub pubkey : String
  pub signature : String

-- The libraries: canonical JSON, Ed25519 by key and signature in base64, and ISO timestamps with a
-- time zone.
pub record Wire (Params : Type 0) : Type 0 where
  pub canonical : Params → String
  pub signed_by : String → String → Payload Params → String → String → Bool
  pub parse_timestamp : String → Option ℕ

-- The environment of one verification.
pub record Context : Type 0 where
  pub current : ℕ
  pub swept_at : ℕ
  pub header_version : String
  pub header_pubkey : String
  pub required_scope : String
  pub registry : Option (List Client)
  pub site : Result AuthError Site
  pub usable : Bool

abbrev pub max_clock_skew_seconds : ℕ
max_clock_skew_seconds = 300

-- The comprehension over the registry; compare_digest raises a TypeError outside ASCII.
unfoldable pub trusts : String → Client → Bool
trusts pubkey c = c.enabled && or_empty c.pubkey_b64 == pubkey

unfoldable pub matches : String → List Client → Result AuthError (List Client)
unfolding trusts
matches pubkey clients =
    if any (λ (c : Client). c.enabled && not (is_ascii (or_empty c.pubkey_b64))) clients
    then raise type_error
    else ok (filter (trusts pubkey) clients)

-- `if len(matches) != 1: raise ...`, and the client.
unfoldable pub only_client : Option (List Client) → String → Result AuthError Client
unfolding matches
only_client none pubkey = raise trusted_client_registry_invalid
only_client (some clients) pubkey = elim (matches pubkey clients) [
  | raise e ↦ raise e
  | ok ms ↦ elim ms [
    | [] ↦ raise ap2_client_untrusted
    | c ∷ cs ↦ elim cs [ [] ↦ ok c | d ∷ ds ↦ raise ap2_client_untrusted ]
  ]
]

-- The principal that a client's envelope gives.
unfoldable pub client_principal : Client → ℕ → Principal
client_principal c expires_at = record {
  principal_id =
      if truthy? c.principal_id then or_empty c.principal_id else cat "client:" c.client_id;
  tenant_id = or_empty c.tenant_id;
  client_id = c.client_id;
  scopes = c.capabilities;
  auth_method = "ap2";
  expires_at = expires_at;
}

module _ {Params : Type 0} (wire : Wire Params) where
  open wire use {canonical, signed_by, parse_timestamp}

  -- From the scopes to the end, for the client and the stamped time.
  unfoldable pub admit :
      Context → Body Params → Payload Params → ℕ → Client → Tx AuthError (List Nonce) Principal
  unfolding grants_scope client_principal consume_nonce
  admit x body payload stamped client rows =
      if not (grants_scope client.capabilities x.required_scope)
      then raise ap2_scope_denied
      else if not (signed_by body.pubkey body.signature payload body.nonce body.timestamp)
      then raise ap2_signature_invalid
      else elim (consume_nonce x.site x.usable x.swept_at
          (record {
            client_id = client.client_id;
            nonce = body.nonce;
            expires_at = stamped + max_clock_skew_seconds;
          })
          rows) [
            | raise e ↦ raise e
            | ok (u, rows') ↦ ok (client_principal client (stamped + max_clock_skew_seconds), rows')
          ]

  -- The check of the time and the registry.
  unfoldable pub check_stamp :
      Context → Body Params → Payload Params → ℕ → Tx AuthError (List Nonce) Principal
  unfolding admit only_client
  check_stamp x body payload stamped rows =
      if ltb max_clock_skew_seconds (x.current - stamped)
        || ltb max_clock_skew_seconds (stamped - x.current)
      then raise ap2_envelope_expired
      else elim (only_client x.registry body.pubkey) [
        | raise e ↦ raise e
        | ok client ↦ admit x body payload stamped client rows
      ]

  unfoldable pub verify_ap2_envelope : Context → Body Params → Tx AuthError (List Nonce) Principal
  unfolding check_stamp nonce_matches
  verify_ap2_envelope x body rows =
      if not (nat_eq (get_or body.version 0) 1) || not (x.header_version == "1")
      then raise ap2_version_invalid
      else elim body.payload [
        | none ↦ raise ap2_envelope_invalid
        | some payload ↦
            if not (nonce_matches body.nonce)
            then raise ap2_envelope_invalid
            else if not (is_ascii body.pubkey && is_ascii x.header_pubkey)
            then raise type_error
            else if not (body.pubkey == x.header_pubkey)
            then raise ap2_pubkey_header_mismatch
            else elim (parse_timestamp body.timestamp) [
              | none ↦ raise ap2_timestamp_invalid
              | some stamped ↦ check_stamp x body payload stamped rows
            ]
      ]

  -- _eq
  abbrev pub text_eq : Option String → String → Bool
  text_eq left right = or_empty left == right

  unfoldable pub assert_envelope_binds :
      Body Params → String → String → Params → Result AuthError (Unit {0})
  assert_envelope_binds body agent task params = elim body.payload [
    | none ↦ raise ap2_envelope_invalid
    | some payload ↦
        if not (text_eq payload.agent agent)
        then raise ap2_agent_mismatch
        else if not (text_eq payload.task task)
        then raise ap2_task_mismatch
        else elim payload.params [
          | none ↦ raise ap2_params_invalid
          | some signed_params ↦
              if canonical signed_params == canonical params
              then ok tt
              else raise ap2_params_mismatch
        ]
  ]

abbrev pub same_site : Site → Site → Bool
same_site postgres postgres = true
same_site postgres (sqlite path) = false
same_site (sqlite path) postgres = false
same_site (sqlite path) (sqlite path') = path == path'

-- The nonce tables of all sites.
abbrev pub NonceTables : Type 0
NonceTables = Site → List Nonce

module _ {Params : Type 0} (wire : Wire Params) where
  abbrev pub with_rows :
      Site → NonceTables → Result AuthError (Principal × List Nonce) → NonceTables
  with_rows site tables (raise e) = tables
  with_rows site tables (ok (p, rows)) = λ q. if same_site q site then rows else tables q

  abbrev pub answer_of : Result AuthError (Principal × List Nonce) → Result AuthError Principal
  answer_of (raise e) = raise e
  answer_of (ok (p, rows)) = ok p

  -- A verification on the table of its site; without a site, no table changes.
  unfoldable pub verify_at :
      Context → Body Params → NonceTables → Result AuthError Principal × NonceTables
  unfolding verify_ap2_envelope
  verify_at x body tables = elim x.site [
    | raise e ↦ (answer_of (verify_ap2_envelope wire x body []), tables)
    | ok site ↦ (
      answer_of (verify_ap2_envelope wire x body (tables site)),
      with_rows site tables (verify_ap2_envelope wire x body (tables site)),
    )
  ]
