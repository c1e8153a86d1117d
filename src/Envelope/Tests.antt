-- ===== src/Envelope/Tests.antt =====
-- The answers of tools/_envelope.py to a read and to a prohibited call.
use genesis_agents.Base.{true, false, [], ◌∷◌, contains, lookup, none, some, ◌≡◌, refl}
use genesis_agents.Base.Json.{Json, null, number, text, array, object, nil, end, field}
use genesis_agents.Base.Result.{ok, raise}
use genesis_agents.Envelope.Values.{strip_banned, get_field, get_key}
use genesis_agents.Envelope.Answers.{
  EnvelopeError, fields, failure, failure_fields, success, success_fields, retryable_by_code,
}

abbrev ledger : Json
ledger = object (fields (("source", text "ledger") ∷ []))

abbrev rows : Json
rows = object (fields (("note", text "looks fine") ∷ ("rows", array nil) ∷ []))

-- The answer, without the note in the result.
abbrev read_answer : Json
read_answer = object (
    success_fields "finance_read" "READ_ONLY" (object (fields (("rows", array nil) ∷ []))) ledger
      none false "r1")

read_succeeds : success "finance_read" "READ_ONLY" rows ledger none false "r1" ≡ ok read_answer
unfolding success success_fields strip_banned get_key get_field contains
read_succeeds = refl

no_evidence :
    success "finance_read" "READ_ONLY" rows (object end) none false "r1"
    ≡ raise EnvelopeError.evidence_required
unfolding success contains
no_evidence = refl

abbrev timeout_answer : Json
timeout_answer =
    object
      (failure_fields "bank_read" "upstream_timeout" true "late" end (some (number "2000")) "r2")

timeout_fails :
    failure "bank_read" "upstream_timeout" "late"
      (field "stub" null end)
      (some (number "2000"))
      "r2"
    ≡ ok timeout_answer
unfolding failure failure_fields retryable_by_code lookup strip_banned contains
timeout_fails = refl
