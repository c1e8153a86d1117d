-- ===== src/Envelope/Answers.antt =====
-- The answers of tools/_envelope.py: failure and success. The request id is drawn anew each time, and
-- the library's ValueErrors are values.
use genesis_agents.Base.{
  String, Bool, true, false, not, ◌&&◌, List, [], ◌∷◌, contains, lookup, if◌then◌else◌, Option,
  none, some, ◌==◌,
}
use genesis_agents.Base.Json.{Json, Fields, null, bool, number, text, array, object, end, field}
use genesis_agents.Base.Result.{Result, ok, raise}
use genesis_agents.Envelope.Values.{strip_banned, get_key}

-- The ValueErrors, by their reason.
pub data EnvelopeError : Type 0 where
  unknown_error_code unknown_mode evidence_required result_not_object readback_required :
      EnvelopeError

unfoldable pub retryable_by_code : List (String × Bool)
retryable_by_code =
    ("not_implemented", false)
    ∷ ("provider_unconfigured", false)
    ∷ ("upstream_timeout", true)
    ∷ ("validation_failed", false)
    ∷ ("duplicate_request", true)
    ∷ ("authorization_missing", false)
    ∷ ("policy_denied", false)
    ∷ []

abbrev pub modes : List String
modes = "READ_ONLY" ∷ "PROPOSE_ONLY" ∷ "APPROVAL_REQUIRED" ∷ []

-- A dictionary display.
abbrev pub fields : List (String × Json) → Fields
fields [] = end
fields ((k, v) ∷ fs) = field k v (fields fs)

-- A value or None.
abbrev pub or_null : Option Json → Json
or_null none = null
or_null (some v) = v

-- The dictionary that failure builds, for a known code.
unfoldable pub failure_fields :
    String → String → Bool → String → Fields → Option Json → String → Fields
failure_fields tool code retryable message detail retry_after_ms request_id = fields (
    ("ok", bool false)
    ∷ ("tool", text tool)
    ∷ ("contract_version", text "1.0.0")
    ∷ ("request_id", text request_id)
    ∷ (
      "error",
      object (
          fields (
            ("code", text code)
            ∷ ("retryable", bool retryable)
            ∷ ("message", text message)
            ∷ ("detail", object detail)
            ∷ ("retry_after_ms", if retryable then or_null retry_after_ms else null)
            ∷ [])),
    )
    ∷ [])

unfoldable pub failure :
    String → String → String → Fields → Option Json → String → Result EnvelopeError Json
unfolding retryable_by_code failure_fields lookup
failure tool code message detail retry_after_ms request_id = elim (lookup code retryable_by_code) [
  | none ↦ raise unknown_error_code
  | some retryable ↦ ok (
      strip_banned
        (object (failure_fields tool code retryable message detail retry_after_ms request_id)))
]

-- prohibited_refusal
unfoldable pub prohibited_refusal :
    String → String → Option Json → String → Result EnvelopeError Json
unfolding failure
prohibited_refusal tool group agent_slug request_id =
    failure tool "policy_denied"
      "This operation is permanently prohibited. Automation may prepare; a human pays; automation records."
      (fields (
        ("risk_class", text "prohibited")
        ∷ ("agent_slug", or_null agent_slug)
        ∷ ("prohibition_group", text group)
        ∷ (
          "remediation",
          text
              "Escalate to a named human approver. This decision is not overridable by configuration.",
        )
        ∷ []))
      none request_id

abbrev pub is_object : Json → Bool
is_object (object fs) = true
is_object null = false
is_object (bool b) = false
is_object (number n) = false
is_object (text s) = false
is_object (array xs) = false

-- A dictionary with an entry.
abbrev pub is_filled : Json → Bool
is_filled (object (field k v fs)) = true
is_filled (object end) = false
is_filled null = false
is_filled (bool b) = false
is_filled (number n) = false
is_filled (text s) = false
is_filled (array xs) = false

-- `v is True`
abbrev pub is_true : Option Json → Bool
is_true none = false
is_true (some (bool b)) = b
is_true (some null) = false
is_true (some (number n)) = false
is_true (some (text s)) = false
is_true (some (array xs)) = false
is_true (some (object fs)) = false

unfoldable pub success_fields : String → String → Json → Json → Option Json → Bool → String → Fields
success_fields tool mode result evidence idempotency_key duplicate request_id = fields (
    ("ok", bool true)
    ∷ ("tool", text tool)
    ∷ ("contract_version", text "1.0.0")
    ∷ ("request_id", text request_id)
    ∷ ("mode", text mode)
    ∷ ("idempotency_key", or_null idempotency_key)
    ∷ ("duplicate", bool duplicate)
    ∷ ("result", result)
    ∷ ("evidence", evidence)
    ∷ [])

unfoldable pub success :
    String → String → Json → Json → Option Json → Bool → String → Result EnvelopeError Json
unfolding success_fields get_key contains
success tool mode result evidence idempotency_key duplicate request_id =
    if not (contains modes mode)
    then raise unknown_mode
    else if not (is_filled evidence)
    then raise evidence_required
    else if not (is_object result)
    then raise result_not_object
    else if (mode == "APPROVAL_REQUIRED") && not (is_true (get_key "readback_matches" evidence))
    then raise readback_required
    else ok (
        strip_banned
          (object (success_fields tool mode result evidence idempotency_key duplicate request_id)))
