-- ===== src/Grants/Exchange/Allowed.antt =====
-- grants/token_exchange.py: which tokens the single checks of an exchange let pass.
use agent_oauth_from_scratch.Shared.{
  ℕ, ◌+◌, ◌≤◌, ◌≡◌, refl, ◌≢◌, sym, ap, ◌∙◌, ◌↔◌, ◌⊎◌, inl, inr, arith, String, false, Option, none,
  some, List, [], ◌∷◌, eq_iff,
}
use agent_oauth_from_scratch.Shared.Lists.{length}
use agent_oauth_from_scratch.Outcome.{ok, >>=-eq-ok, guard-eq-ok}
use agent_oauth_from_scratch.Value.{Value, null, int, str, Fields, get, ℤ, pos, negsuc}
use agent_oauth_from_scratch.Delegation.{
  may_act_permits, may_act_claim, tenant_of, tenant_claim, depth_claim, chain, last_of,
}
use agent_oauth_from_scratch.Delegation.Chain.{IsObjectId}
use agent_oauth_from_scratch.Delegation.Derivation.{declared_depth_iff}
use agent_oauth_from_scratch.Delegation.Permits.{
  IsPermitted, may_act_permits_iff, IsOptionalText, tenant_of_iff,
}
use agent_oauth_from_scratch.Models.{RegisteredClient}
use agent_oauth_from_scratch.Platform.{Platform}
use agent_oauth_from_scratch.Scopes.{parse_scope}
use agent_oauth_from_scratch.Grants.Exchange.{
  check_may_act, agreed, agreed_tenant, next_depth, exceeds, parse_scope_claim,
}
use agent_oauth_from_scratch.Grants.Exchange.Steps.{agreed-eq-ok, next_depth-eq-ok}

pub check_may_act_iff :
    (claims : Fields) (actor : String)
    → (check_may_act claims actor ≡ ok tt) ↔ IsPermitted actor (get claims may_act_claim)
unfolding check_may_act
check_may_act_iff claims actor = (
  λ h.
      let (permitted, read, passed) = >>=-eq-ok (may_act_permits claims actor) _ h in
      (may_act_permits_iff claims actor).0 (read ∙ ap ok (guard-eq-ok permitted _ passed)),
  λ p. rw ((may_act_permits_iff claims actor).1 p) refl,
)

-- A `tenant` claim that agrees with the actor's tenant: none at all, or that tenant.
abbrev pub IsSameTenant : String → Value → Type 0
IsSameTenant tenant v = (v ≡ null) ⊎ ((v ≡ str tenant) × (tenant ≢ ""))

same_of_optional :
    (v : Value) (found : Option String) (tenant : String)
    → IsOptionalText v found
    → (found ≡ none) ⊎ (found ≡ some tenant)
    → IsSameTenant tenant v
same_of_optional null found tenant o h = inl refl
same_of_optional (str s) found tenant (ne, found_is) h = elim h [
  | inl absent ↦ absurd (cc (sym found_is ∙ absent))
  | inr same ↦ inr (ground (arith, found_is, same), λ empty. ne (ground (arith, found_is, same)))
]
same_of_optional _ found tenant o h = absurd o

agreed_self : (tenant : String) → agreed (some tenant) tenant ≡ ok (some tenant)
agreed_self tenant = rw ((eq_iff tenant tenant).1 refl) refl

agreed_tenant-of_same :
    (claims : Fields) (actor : RegisteredClient)
    → IsSameTenant actor.tenant (get claims tenant_claim)
    → agreed_tenant claims actor ≡ ok (some actor.tenant)
unfolding agreed_tenant
agreed_tenant-of_same claims actor same = elim same [
  | inl absent ↦ rw ((tenant_of_iff claims none).1 (rw absent refl)) refl
  | inr (is_str, ne) ↦
      rw ((tenant_of_iff claims (some actor.tenant)).1 (rw is_str (ne, refl)))
        (agreed_self actor.tenant)
]

pub agreed_tenant_iff :
    (claims : Fields) (actor : RegisteredClient)
    → ((found : Option String) × (agreed_tenant claims actor ≡ ok found))
      ↔ IsSameTenant actor.tenant (get claims tenant_claim)
unfolding agreed_tenant
agreed_tenant_iff claims actor = (
  λ (found, h).
      let (own, read, agrees) = >>=-eq-ok (tenant_of claims) _ h in
      same_of_optional (get claims tenant_claim) own actor.tenant
        ((tenant_of_iff claims own).0 read) (agreed-eq-ok own found actor.tenant agrees).1,
  λ same. (some actor.tenant, agreed_tenant-of_same claims actor same),
)

-- The bound on the depth is at least `n`.
abbrev pub IsWithin : ℕ → ℤ → Type 0
IsWithin n (pos most) = n ≤ most
IsWithin n (negsuc u) = ⊥

exceeds_iff : (n : ℕ) (most : ℤ) → (exceeds n most ≡ false) ↔ IsWithin n most
exceeds_iff n (pos most) = (λ h. ground arith, λ h. ground arith)
exceeds_iff n (negsuc u) = ((λ h. absurd (cc h)), λ h. absurd h)

-- An absent scope claim, or a text.
abbrev pub IsScopeClaim : Value → Type 0
IsScopeClaim v = (v ≡ null) ⊎ ((s : String) × (v ≡ str s))

pub parse_scope_claim_iff :
    (v : Value) → ((scopes : List String) × (parse_scope_claim v ≡ ok scopes)) ↔ IsScopeClaim v
parse_scope_claim_iff null = ((λ h. inl refl), λ h. (parse_scope none, refl))
parse_scope_claim_iff (str s) = ((λ h. inr (s, refl)), λ h. (parse_scope (some s), refl))
parse_scope_claim_iff _ = (
  λ (scopes, h). absurd (cc h),
  λ h. elim h [ inl p ↦ absurd (cc p) | inr (s, p) ↦ absurd (cc p) ],
)

pub last_of-cons : (x : String) (xs : List String) → (y : String) × (last_of (x ∷ xs) ≡ ok y)
last_of-cons x [] = (x, refl)
last_of-cons x (y ∷ ys) = last_of-cons y ys

module _ (platform : Platform) where
  -- A declared depth that is the number of hops of the chain, with room for one hop more.
  abbrev pub IsCounted : ℤ → Fields → List String → Type 0
  IsCounted maximum_depth claims identities =
      (n : ℕ) × (get claims depth_claim ≡ int (pos n))
      × (chain platform.object_id claims ≡ ok identities)
      × (length identities ≡ n + 1)
      × IsWithin (n + 1) maximum_depth

  pub next_depth_iff :
      IsObjectId platform.object_id
      → (maximum_depth : ℤ) (claims : Fields)
      → ((n : ℕ) × (next_depth platform maximum_depth claims ≡ ok n))
        ↔ ((identities : List String) × IsCounted maximum_depth claims identities)
  unfolding next_depth
  next_depth_iff law maximum_depth claims = (
    λ (n, h).
        let (depth, declared, one_more, within) =
          next_depth-eq-ok platform maximum_depth claims n h in
        let (identities, said, read, count) =
          (declared_depth_iff platform.object_id law claims depth).0 declared in
        let fits = (exceeds_iff (depth + 1) maximum_depth).0 (rw (← one_more) within) in
        (identities, (depth, said, read, count, fits)),
    λ (identities, (n, said, read, count, within)). (
      n + 1,
      rw
          (
            (declared_depth_iff platform.object_id law claims n).1 (identities, said, read, count),
            (exceeds_iff (n + 1) maximum_depth).1 within,
          )
          refl,
    ),
  )
