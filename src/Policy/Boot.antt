-- ===== src/Policy/Boot.antt =====
-- assert_prohibitions_intact of runtime/tool_policy.py, the check before the gateway takes traffic.
use genesis_agents.Base.{
  String, Option, none, some, List, [], ◌∷◌, map, filter, contains, if◌then◌else◌, ◌==◌,
}
use genesis_agents.Base.Result.{Result, ok, raise}
use genesis_agents.Policy.Tables.{
  risk_payment, risk_prohibited, slug_allowed_risks, default_allowed_risks,
}
use genesis_agents.Policy.Check.{prohibition_manifest_names, prohibited_tools}

-- The RuntimeErrors, each with what its message names.
pub data BootError : Type 0 where
  manifest_missing manifest_mismatch : BootError
  prohibited_registered : List String → BootError
  slug_grants_prohibited : String → BootError
  default_grants_prohibited : BootError
  payment_granted : List String → BootError
  default_grants_payment : BootError

-- The slugs whose set holds the risk class, in the table's order.
unfoldable pub holders : String → List String
unfolding slug_allowed_risks filter contains
holders risk = map (λ e. e.0) (filter (λ e. contains e.1 risk) slug_allowed_risks)

-- `if present: raise ...`, and the like.
abbrev pub raise_on :
    (String → List String → BootError)
    → List String
    → Result BootError (Unit {0})
    → Result BootError (Unit {0})
raise_on error [] next = next
raise_on error (x ∷ xs) next = raise (error x (x ∷ xs))

unfoldable pub grants : Result BootError (Unit {0})
unfolding holders contains
grants =
    raise_on (λ x xs. BootError.slug_grants_prohibited x) (holders risk_prohibited)
      (if contains default_allowed_risks risk_prohibited
        then raise BootError.default_grants_prohibited
        else raise_on (λ x xs. BootError.payment_granted xs) (holders risk_payment)
            (if contains default_allowed_risks risk_payment
              then raise BootError.default_grants_payment
              else ok tt))

-- The names of PROHIBITED_TOOLS that are registered.
unfoldable pub present : List String → List String
unfolding prohibited_tools filter contains
present registry = filter (contains registry) prohibited_tools

-- `json.dumps` of the manifest's names and `hashlib.sha256` are the libraries'.
module _ (dumps : List String → String) (sha256 : String → String) where
  unfoldable pub prohibition_manifest_digest : String
  unfolding prohibition_manifest_names
  prohibition_manifest_digest = sha256 (dumps prohibition_manifest_names)

  -- `on_disk` is the digest that _read_manifest_digest found in the manifest file, if any, and
  -- `registry` the names of the registered tools.
  unfoldable pub assert_prohibitions_intact :
      List String → Option String → Result BootError (Unit {0})
  assert_prohibitions_intact registry none = raise BootError.manifest_missing
  assert_prohibitions_intact registry (some on_disk) =
      if on_disk == prohibition_manifest_digest
      then raise_on (λ x xs. BootError.prohibited_registered xs) (present registry) grants
      else raise BootError.manifest_mismatch
