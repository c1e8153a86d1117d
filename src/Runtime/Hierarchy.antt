-- ===== src/Runtime/Hierarchy.antt =====
-- The agents that a run can bring to work by genesis_call of tools/genesis_call_tool.py.
use mathlib.Core.Bool.{false≢true}
use genesis_agents.Base.{
  suc, ◌≡◌, ◌⊎◌, refl, sym, ◌∙◌, ap, subst, inl, inr, String, Bool, true, false, Option, some, List,
  [], ◌∷◌, ◌++◌, ◌==◌, all, contains, lookup, arith, eq_iff, Bool-cases, Option-cases,
}
use genesis_agents.Base.Result.{ok, Result-cases}
use genesis_agents.Policy.Check.{allowed_risks}
use genesis_agents.Runtime.Delegation.{
  Agent, root, genesis_call, execute_child, delegate_to, targets_of, delegation_targets,
}

-- An agent at work in a tree of delegations.
pub data Reached (load_bundle : String → Option String) : Agent → Type 0 where
  rooted : (slug : String) → Reached load_bundle (root slug)
  delegated :
      {p c : Agent} (agent : String)
      → Reached load_bundle p
      → genesis_call load_bundle p agent ≡ ok c
      → Reached load_bundle c

contains-all :
    (p : String → Bool) (xs : List String) (x : String)
    → all p xs ≡ true
    → contains xs x ≡ true
    → p x ≡ true
unfolding all contains
contains-all p [] x h c = cc
contains-all p (y ∷ ys) x h c = elim (Bool-cases (y == x)) [
  | inl e ↦ subst (λ z. p z ≡ true) ((eq_iff y x).0 e) (ground arith)
  | inr e ↦ contains-all p ys x (ground arith) (ground arith)
]

abbrev is_leaf : String → Bool
is_leaf slug = elim (targets_of slug) [ [] ↦ true | x ∷ xs ↦ false ]

meta_targets : all is_leaf (targets_of "genesis-meta") ≡ true
unfolding all targets_of delegation_targets lookup
meta_targets = refl

-- Only one agent has targets.
targets_of-meta : (slug : String) → ("genesis-meta" ≡ slug) ⊎ (targets_of slug ≡ [])
unfolding targets_of delegation_targets lookup
targets_of-meta slug = elim (Bool-cases ("genesis-meta" == slug)) [
  | inl e ↦ inl ((eq_iff "genesis-meta" slug).0 e)
  | inr e ↦ inr (rw e refl)
]

leaf-targets : (slug : String) → is_leaf slug ≡ true → targets_of slug ≡ []
unfolding targets_of delegation_targets lookup
leaf-targets slug h = elim (targets_of-meta slug) [
  | inl e ↦ absurd (false≢true (subst (λ s. is_leaf s ≡ true) (sym e) h))
  | inr e ↦ e
]

abbrev child_of : Agent → String → Agent
child_of p target = record {
  slug = target;
  chain = (p.chain ++ (p.slug ∷ [])) ++ (p.slug ∷ []);
  depth = suc p.depth;
  risks = some (allowed_risks p.slug);
}

-- What an accepted delegation has passed.
delegate_to-ok :
    (p c : Agent) (target : String)
    → delegate_to p target ≡ ok c
    → (contains (targets_of p.slug) target ≡ true) × (c ≡ child_of p target)
unfolding delegate_to
delegate_to-ok p c target h = ground arith

-- The one place below the root: a target of genesis-meta.
abbrev pub below_meta : String → Agent
below_meta slug = record {
  slug = slug;
  chain = "genesis-meta" ∷ "genesis-meta" ∷ [];
  depth = 1;
  risks = some (allowed_risks "genesis-meta");
}

abbrev pub IsShallow : Agent → Type 0
IsShallow a =
    (a ≡ root a.slug)
    ⊎ ((a ≡ below_meta a.slug) × (contains (targets_of "genesis-meta") a.slug ≡ true))

leaf-refuses :
    (p c : Agent) (target : String) → targets_of p.slug ≡ [] → ¬ (delegate_to p target ≡ ok c)
unfolding contains
leaf-refuses p c target e h =
    false≢true (subst (λ ts. contains ts target ≡ true) e (delegate_to-ok p c target h).0)

-- The loader finds a bundle under its own slug too.
abbrev pub IsCanonical : (String → Option String) → Type 0
IsCanonical load_bundle =
    (agent slug : String) → load_bundle agent ≡ some slug → load_bundle slug ≡ some slug

genesis_call-ok :
    (load_bundle : String → Option String) (p c : Agent) (agent : String)
    → IsCanonical load_bundle
    → genesis_call load_bundle p agent ≡ ok c
    → (target : String) × (delegate_to p target ≡ ok c)
unfolding genesis_call execute_child delegate_to
genesis_call-ok load_bundle p c agent canonical h = elim (Option-cases (load_bundle agent)) [
  | inl n ↦ absurd (ground arith)
  | inr (target, e) ↦
      let again : load_bundle target ≡ some target = canonical agent target e in
      elim (Result-cases (delegate_to p target)) [
        | inl (x, r) ↦ absurd (ground arith)
        | inr (child, r) ↦
            let (t, same) = delegate_to-ok p child target r in
            let slug : child.slug ≡ target = ap (λ a. a.slug) same in
            (target, r ∙ sym (rw (genesis_call, e, r) (rw (execute_child, slug, again) refl)) ∙ h)
      ]
]

from_root :
    (p c : Agent) (target : String)
    → p ≡ root p.slug
    → delegate_to p target ≡ ok c
    → (c ≡ below_meta c.slug) × (contains (targets_of "genesis-meta") c.slug ≡ true)
from_root p c target r h =
    let (t, e) = delegate_to-ok p c target h in
    elim (targets_of-meta p.slug) [
      | inr n ↦ absurd (leaf-refuses p c target n h)
      | inl m ↦
          let same : c ≡ below_meta target =
            e ∙ ap (λ a. child_of a target) (r ∙ ap root (sym m)) in
          let slug : target ≡ c.slug = sym (ap (λ a. a.slug) same) in
          (
            same ∙ ap below_meta slug,
            subst (λ x. contains (targets_of "genesis-meta") x ≡ true) slug
                (subst (λ x. contains (targets_of x) target ≡ true) (sym m) t),
          )
    ]

from_below :
    (p c : Agent) (target : String)
    → contains (targets_of "genesis-meta") p.slug ≡ true
    → ¬ (delegate_to p target ≡ ok c)
from_below p c target m =
    leaf-refuses p c target
      (leaf-targets p.slug (contains-all is_leaf (targets_of "genesis-meta") p.slug meta_targets m))

-- Delegation is one level deep, under any loader that finds each bundle under its own slug too: an
-- agent at work is one that nobody delegated to, or a target of genesis-meta that genesis-meta called
-- as a root, at depth 1 and limited to the risk classes of genesis-meta.
pub delegation_one_level :
    (load_bundle : String → Option String) (a : Agent)
    → IsCanonical load_bundle
    → Reached load_bundle a
    → IsShallow a
delegation_one_level load_bundle a canonical (rooted slug) = inl refl
delegation_one_level load_bundle c canonical (delegated {p} agent r h) =
    let (target, d) = genesis_call-ok load_bundle p c agent canonical h in
    elim (delegation_one_level load_bundle p canonical r) [
      | inl q ↦ inr (from_root p c target q d)
      | inr q ↦ absurd (from_below p c target q.1 d)
    ]
