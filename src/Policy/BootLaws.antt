-- ===== src/Policy/BootLaws.antt =====
-- assert_prohibitions_intact of runtime/tool_policy.py, read backwards.
use mathlib.Core.Bool.{false≢true}
use genesis_agents.Base.{
  ◌≡◌, ◌≢◌, ◌↔◌, refl, sym, ◌∙◌, get_or, ap, subst, String, true, false, Option, none, some, List,
  [], ◌∷◌, filter, contains, arith, ◌==◌, eq_iff, Bool-cases, inl, inr,
}
use genesis_agents.Base.Result.{Result, ok, raise}
use genesis_agents.Policy.Check.{prohibited_tools}
use genesis_agents.Policy.Boot.{
  BootError, prohibition_manifest_digest, present, grants, raise_on, assert_prohibitions_intact,
}

-- No name of `names` is in `registry`.
abbrev pub Disjoint : List String → List String → Type 0
Disjoint names registry =
    (tool : String) → contains names tool ≡ true → contains registry tool ≡ false

filter-nil_of_Disjoint :
    (names registry : List String) → Disjoint names registry → filter (contains registry) names ≡ []
unfolding filter contains
filter-nil_of_Disjoint [] registry d = refl
filter-nil_of_Disjoint (x ∷ xs) registry d = rw (
  d x (ground (arith, eq_iff x x)),
  filter-nil_of_Disjoint xs registry (λ t h. d t (ground arith)),
)

Disjoint-of_filter-nil :
    (names registry : List String) → filter (contains registry) names ≡ [] → Disjoint names registry
unfolding filter contains
Disjoint-of_filter-nil [] registry e t h = cc
Disjoint-of_filter-nil (x ∷ xs) registry e t h = elim (Bool-cases (contains registry x)) [
  | inl r ↦ ground arith
  | inr r ↦ elim (Bool-cases (x == t)) [
    | inl q ↦ subst (λ y. contains registry y ≡ false) ((eq_iff x t).0 q) r
    | inr q ↦ Disjoint-of_filter-nil xs registry (ground arith) t (ground arith)
  ]
]

-- The grants of SLUG_ALLOWED_RISKS pass their own assertions.
grants_lem : grants ≡ ok tt
unfolding grants
grants_lem = refl

raise-ne-ok : (e : BootError) (r : Result BootError (Unit {0})) → r ≡ raise e → r ≢ ok tt
raise-ne-ok e r h k = cc

module _ (dumps : List String → String) (sha256 : String → String) where
  raised :
      (registry xs : List String)
      → raise_on (λ x ys. BootError.prohibited_registered ys) xs grants ≡ ok tt
      → xs ≡ []
  raised registry [] h = refl
  raised registry (x ∷ xs) h = cc

  -- The gateway starts exactly if the manifest file holds the digest of the prohibited names and no
  -- prohibited tool is registered.
  pub boot_exact :
      (registry : List String) (on_disk : Option String)
      → (assert_prohibitions_intact dumps sha256 registry on_disk ≡ ok tt) ↔ (
          (on_disk ≡ some (prohibition_manifest_digest dumps sha256))
          × Disjoint prohibited_tools registry)
  unfolding assert_prohibitions_intact present
  boot_exact registry none = (λ h. cc, λ h. cc)
  boot_exact registry (some d) = elim (Bool-cases (d == prohibition_manifest_digest dumps sha256)) [
    | inr q ↦ (
      λ h. absurd (raise-ne-ok BootError.manifest_mismatch _ (rw q) h),
      λ h. absurd (false≢true (sym q ∙ (eq_iff d _).1 (ap (λ o. get_or o d) h.0))),
    )
    | inl q ↦ (
      λ h. (
        ap some ((eq_iff d _).0 q),
        Disjoint-of_filter-nil prohibited_tools registry (raised registry _ (rw q at h)),
      ),
      λ h. rw (q, filter-nil_of_Disjoint prohibited_tools registry h.1) grants_lem,
    )
  ]
