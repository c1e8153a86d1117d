-- ===== src/Auth/Owners.antt =====
-- Who owns a row, by owns_resource of runtime/request_auth.py.
use genesis_agents.Base.{
  ℕ, ◌≡◌, ◌↔◌, refl, sym, ap, ◌∙◌, String, Bool, true, false, not, some, eq_iff, arith,
}
use genesis_agents.Base.Result.{Result, ok, raise}
use genesis_agents.Text.{or_empty, is_ascii}
use genesis_agents.Auth.Envelope.{AuthError, Principal}
use genesis_agents.Auth.Tokens.{
  OwnedRow, tenant_of, owner_of, both_none, compare_digest, and_then, owns_resource,
  legacy_gateway_principal,
}

-- A row that has a tenant or an owner.
abbrev pub has_owner : OwnedRow → Bool
has_owner row = not (both_none (tenant_of row) (owner_of row))

compare_digest-true : (a b : String) → compare_digest a b ≡ ok true → a ≡ b
compare_digest-true a b h = ground (arith, eq_iff a b)

and_then-true :
    (x y : Result AuthError Bool) → and_then x y ≡ ok true → (x ≡ ok true) × (y ≡ ok true)
and_then-true (ok true) y h = (refl, h)
and_then-true (ok false) y h = absurd (cc)
and_then-true (raise e) y h = cc

-- A principal owns a row that has a tenant or an owner only if it has the row's tenant and the row's
-- owner, an absent one counting as the empty text.
pub owner_match :
    (p : Principal) (row : OwnedRow)
    → owns_resource p (some row) ≡ ok true
    → has_owner row ≡ true
    → (p.tenant_id ≡ or_empty (tenant_of row)) × (p.principal_id ≡ or_empty (owner_of row))
unfolding owns_resource
owner_match p row h o =
    let compared : and_then (compare_digest (or_empty (tenant_of row)) p.tenant_id)
          (compare_digest (or_empty (owner_of row)) p.principal_id)
        ≡ ok true =
      ground arith in
    let (t, i) = and_then-true _ _ compared in
    (sym (compare_digest-true _ _ t), sym (compare_digest-true _ _ i))

-- Two principals that own one row with a tenant or an owner have the same tenant and the same id.
pub one_owner :
    (p q : Principal) (row : OwnedRow)
    → owns_resource p (some row) ≡ ok true
    → owns_resource q (some row) ≡ ok true
    → has_owner row ≡ true
    → (p.tenant_id ≡ q.tenant_id) × (p.principal_id ≡ q.principal_id)
one_owner p q row hp hq o =
    let (t, i) = owner_match p row hp o in
    let (t', i') = owner_match q row hq o in (t ∙ sym t', i ∙ sym i')

legacy_digests :
    (a b : String)
    → a ≡ "legacy"
    → b ≡ "legacy:gateway"
    → and_then (compare_digest a "legacy") (compare_digest b "legacy:gateway") ≡ ok true
unfolding is_ascii
legacy_digests a b t i =
    ap (λ x. and_then (compare_digest x "legacy") (compare_digest b "legacy:gateway")) t
    ∙ ap (λ y. compare_digest y "legacy:gateway") i

owns-compares :
    (p : Principal) (row : OwnedRow)
    → has_owner row ≡ true
    → owns_resource p (some row)
      ≡ and_then
          (compare_digest (or_empty (tenant_of row)) p.tenant_id)
          (compare_digest (or_empty (owner_of row)) p.principal_id)
unfolding owns_resource
owns-compares p row o = ground arith

-- Of the rows with a tenant or an owner, the legacy gateway principal owns only those of the tenant
-- "legacy" and the owner "legacy:gateway", and those it owns.
pub legacy_rows :
    (now : ℕ) (row : OwnedRow)
    → has_owner row ≡ true
    → (owns_resource (legacy_gateway_principal now) (some row) ≡ ok true)
      ↔ ((or_empty (tenant_of row) ≡ "legacy") × (or_empty (owner_of row) ≡ "legacy:gateway"))
unfolding legacy_gateway_principal
legacy_rows now row o = (
  (λ h. let (t, i) = owner_match (legacy_gateway_principal now) row h o in (sym t, sym i)),
  λ q. owns-compares (legacy_gateway_principal now) row o ∙ legacy_digests _ _ q.0 q.1,
)
