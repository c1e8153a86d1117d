-- ===== src/Gateway/Submit.antt =====
-- POST /agents/{slug}/jobs of main.py: the guard on callback URLs, and submit_job over create_job.
use Prim.Native.Char.{Char, code}
use genesis_agents.Base.{
  ℕ, String, Bool, not, ◌||◌, Option, none, some, List, [], ◌∷◌, ◌==◌, any, nat_eq, if◌then◌else◌,
}
use genesis_agents.Base.Json.{Json, Fields, null, number, text, object, end, field}
use genesis_agents.Base.Result.{Result, ok, raise}
use genesis_agents.Text.{truthy, truthy?}
use genesis_agents.Envelope.Values.{get_field}
use genesis_agents.Audit.Redaction.{starts_with}
use genesis_agents.Auth.Envelope.{Principal}
use genesis_agents.Auth.Tokens.{TokenCodec, issue_principal_token}
use genesis_agents.Jobs.Table.{Store}
use genesis_agents.Jobs.Operations.{NewJob, Created, create_job}
use genesis_agents.Gateway.Http.{HttpError, http, Python, get}

abbrev pub ssrf_blocked_prefixes : List String
ssrf_blocked_prefixes =
    "localhost" ∷ "127." ∷ "0." ∷ "10." ∷ "192.168." ∷ "172.16." ∷ "172.17." ∷ "172.18." ∷ "172.19."
    ∷ "172.20." ∷ "172.21." ∷ "172.22." ∷ "172.23." ∷ "172.24." ∷ "172.25." ∷ "172.26." ∷ "172.27."
    ∷ "172.28." ∷ "172.29." ∷ "172.30." ∷ "172.31." ∷ "::1" ∷ "fe80:" ∷ []

abbrev join_dot : Char → String → String
join_dot c String.[] = if nat_eq (code c) b'.' then String.[] else String.◌∷◌ c String.[]
join_dot c (String.◌∷◌ d s) = String.◌∷◌ c (String.◌∷◌ d s)

-- `s.rstrip(".")`
unfoldable pub rstrip_dots : String → String
rstrip_dots String.[] = String.[]
rstrip_dots (String.◌∷◌ c s) = join_dot c (rstrip_dots s)

unfoldable pub is_blocked : String → String → Bool
unfolding rstrip_dots starts_with
is_blocked host blocked = host == rstrip_dots blocked || starts_with blocked host

-- The request of submit_job, with the types that it passes on to create_job.
pub record JobRequest : Type 0 where
  pub prompt : String
  pub params : Fields
  pub idempotency_key : Option String
  pub webhook_url : Option String
  pub price_tier_cents : Option ℕ
  pub escrow_id : Option String
  pub client_id : Option String

-- The answer, and whether the job went to the trigger.
pub record Submitted : Type 0 where
  pub job_id : String
  pub status : String
  pub idempotent_hit : Bool
  pub external_escrow_id : Option String
  pub principal_token : Option String
  pub dispatched : Bool

abbrev pub entries : Fields → List (String × Json)
entries end = []
entries (field k v fs) = (k, v) ∷ entries fs

-- A text or null.
abbrev pub as_text : Json → Option (Option String)
as_text null = some none
as_text (text s) = some (some s)
as_text _ = none

abbrev pub as_cents : Python → Json → Option (Option ℕ)
as_cents py null = some none
as_cents py (number n) = elim (py.natural n) [ none ↦ none | some k ↦ some (some k) ]
as_cents py _ = none

-- `body.get("prompt", "")` and `body.get("params", {})`
abbrev pub prompt_of : Option Json → Option String
prompt_of none = some ""
prompt_of (some (text s)) = some s
prompt_of _ = none

abbrev pub params_of : Option Json → Option Fields
params_of none = some end
params_of (some (object fs)) = some fs
params_of (some null) = some end
params_of _ = none

-- `body.get("webhook_url") or body.get("callback_url")`
abbrev first_url : Option String → Option String → Option String
first_url webhook callback = if truthy? webhook then webhook else callback

infixl 5 ◌>>=◌
abbrev ◌>>=◌ : {A B : Type 0} → Option A → (A → Option B) → Option B
none >>= f = none
some a >>= f = f a

-- The request of fields with the right types.
unfoldable pub request_of :
    Option String
    → Option Fields
    → Option (Option String)
    → Option (Option String)
    → Option (Option String)
    → Option (Option ℕ)
    → Option (Option String)
    → Option (Option String)
    → Option JobRequest
request_of prompt params key webhook callback price escrow client = do
  prompt' ← prompt
  params' ← params
  key' ← key
  webhook' ← webhook
  callback' ← callback
  price' ← price
  escrow' ← escrow
  client' ← client
  some (record {
    prompt = prompt';
    params = params';
    idempotency_key = key';
    webhook_url = first_url webhook' callback';
    price_tier_cents = price';
    escrow_id = escrow';
    client_id = client';
  })

module _ (py : Python) where
  -- The fields that submit_job reads; none for a field of another type, which the model leaves out.
  unfoldable pub read_request : Fields → Option JobRequest
  unfolding get_field request_of
  read_request body =
      request_of (prompt_of (get_field "prompt" body)) (params_of (get_field "params" body))
        (as_text (get "idempotency_key" body)) (as_text (get "webhook_url" body))
        (as_text (get "callback_url" body)) (as_cents py (get "price_tier_cents" body))
        (as_text (get "escrow_id" body)) (as_text (get "client_id" body))

  unfoldable pub assert_not_ssrf : String → Result HttpError (Unit {0})
  unfolding any is_blocked
  assert_not_ssrf url =
      if any (is_blocked (py.library.lower (py.hostname url))) ssrf_blocked_prefixes
      then raise (http 400 "Blocked: URL host resolves to a private/loopback address")
      else ok tt

  -- `if webhook_url: _assert_not_ssrf(webhook_url)`
  unfoldable pub check_webhook : Option String → Result HttpError (Unit {0})
  unfolding assert_not_ssrf
  check_webhook none = ok tt
  check_webhook (some url) = if truthy url then assert_not_ssrf url else ok tt

-- The arguments that submit_job gives to create_job.
unfoldable pub new_job : String → JobRequest → Principal → NewJob
new_job slug r principal = record {
  agent_slug = slug;
  prompt = r.prompt;
  params = some (entries r.params);
  buyer_wallet_id = none;
  buyer_client_id = r.client_id;
  price_tier_cents = r.price_tier_cents;
  idempotency_key = r.idempotency_key;
  webhook_url = r.webhook_url;
  webhook_secret = none;
  escrow_id = r.escrow_id;
  tenant_id = some principal.tenant_id;
  owner_principal_id = some principal.principal_id;
}

-- What one request draws from outside: the clock, the fresh id, and the key of the tokens.
pub record Drawn : Type 0 where
  pub now : ℕ
  pub job_id : String
  pub token_key : String

module _ (py : Python) (codec : TokenCodec) where
  -- `issue_principal_token(principal)` for an AP2 principal, and no token for another one.
  unfoldable pub token_for : Drawn → Principal → Result HttpError (Option String)
  unfolding issue_principal_token
  token_for d principal =
      if principal.auth_method == "ap2"
      then elim (issue_principal_token codec d.token_key d.now 600 principal) [
        | raise e ↦ raise (http 500 "Internal Server Error")
        | ok token ↦ ok (some token)
      ]
      else ok none

  -- The answer to a job that is made or found.
  unfoldable pub answer_job : Drawn → JobRequest → Principal → Created → Result HttpError Submitted
  unfolding token_for
  answer_job d r principal job = elim (token_for d principal) [
    | raise e ↦ raise e
    | ok token ↦ ok (record {
      job_id = job.id;
      status = job.status;
      idempotent_hit = job.idempotent_hit;
      external_escrow_id = if truthy? r.escrow_id then r.escrow_id else none;
      principal_token = token;
      dispatched = not job.idempotent_hit;
    })
  ]

  -- The store of the answer is that after the insert, also where the token is refused.
  unfoldable pub submit_job :
      Bool → Drawn → String → JobRequest → Principal → Store → Result HttpError Submitted × Store
  unfolding check_webhook create_job new_job answer_job
  submit_job job_store_ok d slug r principal s =
      if not job_store_ok
      then (raise (http 503 "job_store unavailable"), s)
      else elim (check_webhook py r.webhook_url) [
        | raise e ↦ (raise e, s)
        | ok u ↦ elim (create_job d.now d.job_id (new_job slug r principal) s) [
          | raise e ↦ (raise (http 500 "job_create_failed"), s)
          | ok (job, s') ↦ (answer_job d r principal job, s')
        ]
      ]
