-- ===== src/Grants/Exchange/Shrink.antt =====
-- The shrink rules: what a token that an exchange issues has in common with the token that it was
-- derived from, and where it is smaller.
use agent_oauth_from_scratch.Shared.{
  ℕ, ◌≤◌, String, ◌≡◌, refl, sym, ap, ◌∙◌, true, false, ◌&&◌, none, some, List, [], ◌∷◌, arith,
}
use agent_oauth_from_scratch.Shared.Lists.{contains, All, IsUnique}
use agent_oauth_from_scratch.Shared.Sorting.{sorted-IsUnique, sorted-All}
use agent_oauth_from_scratch.Shared.Words.{join, IsWord}
use agent_oauth_from_scratch.Outcome.{ok, ok-injective}
use agent_oauth_from_scratch.Value.{Value, int, pos, str, obj, null, instant, Fields, get, ℤ}
use agent_oauth_from_scratch.Config.{Settings}
use agent_oauth_from_scratch.Forms
use agent_oauth_from_scratch.Forms.{TokenForm}
use agent_oauth_from_scratch.Models.{RegisteredClient, SigningKey}
use agent_oauth_from_scratch.Platform.{Platform, Draws}
use agent_oauth_from_scratch.Storage.{Database}
use agent_oauth_from_scratch.Scopes.{within, parse_scope}
use agent_oauth_from_scratch.Scopes.Parsing.{parse_scope-words}
use agent_oauth_from_scratch.Tokens.{mint, minter_owned_claims}
use agent_oauth_from_scratch.Tokens.Minting.{mint-lifetime}
use agent_oauth_from_scratch.Delegation.{act_claim, depth_claim, task_claim, tenant_claim}
use agent_oauth_from_scratch.Grants.Base.{GrantResult}
use agent_oauth_from_scratch.Grants.Exchange.{parse_scope_claim, requested_or_all}
use agent_oauth_from_scratch.Grants.Exchange.Derived.{IsDerived}
use agent_oauth_from_scratch.Pipeline.{IssuedToken, issued_claims, minter}
use agent_oauth_from_scratch.Pipeline.Claims.{
  AreClaims, dict_or_null, text_or_null, issued_claims-AreClaims, issued_claims-IsDict,
}
use agent_oauth_from_scratch.Pipeline.Issuing.{IsIssued}
use agent_oauth_from_scratch.Pipeline.Guarantees.{issued-scope, issued-carries}

parse_scope_claim-words :
    (v : Value) (scopes : List String)
    → parse_scope_claim v ≡ ok scopes
    → IsUnique scopes × All IsWord scopes
parse_scope_claim-words (str s) scopes h = rw (← ok-injective h) (parse_scope-words (some s))
parse_scope_claim-words null scopes h = rw (← ok-injective h) (parse_scope-words none)
parse_scope_claim-words _ scopes h = absurd (cc h)

requested_or_all-words :
    (requested scopes : List String)
    → IsUnique requested × All IsWord requested
    → IsUnique scopes × All IsWord scopes
    → IsUnique (requested_or_all requested scopes) × All IsWord (requested_or_all requested scopes)
requested_or_all-words [] scopes r (u, w) = (sorted-IsUnique scopes u, sorted-All IsWord scopes w)
requested_or_all-words (x ∷ xs) scopes r s = r

-- A scope that two ceilings and the request let through lies in all three.
three_way :
    (requested a b : List String) (s : String)
    → (contains requested s && within (a ∷ b ∷ []) s) ≡ true
    → (contains a s ≡ true) × (contains b s ≡ true) × (contains requested s ≡ true)
three_way requested a b s h = ground arith

-- What the theorems say of a token, in terms of the step that derived it.
module _ (platform : Platform) (settings : Settings) (signing_key : SigningKey) (maximum_depth : ℤ)
    (form : TokenForm) (client : RegisteredClient) (audience : String)
    (subject_claims actor_claims : Fields) (actor_client : RegisteredClient) (result : GrantResult)
    (d : IsDerived platform maximum_depth form client audience subject_claims actor_claims
      actor_client result)
    (draws : Draws) (db : Database) (issued : IssuedToken) where
  module _ (after : Database)
      (i : IsIssued platform settings signing_key draws result db after issued) where
    pub scope_of_derived :
        (s : String)
        → contains (parse_scope (some issued.scope)) s ≡ true
        → (contains d.subject_scopes s ≡ true)
          × (contains actor_client.allowed_scopes s ≡ true)
          × (contains (requested_or_all (parse_scope (Forms.get form "scope")) d.subject_scopes) s
              ≡ true)
    scope_of_derived s held =
        let (u, w) =
          requested_or_all-words (parse_scope (Forms.get form "scope")) d.subject_scopes
            (parse_scope-words (Forms.get form "scope"))
            (parse_scope_claim-words _ d.subject_scopes d.scopes) in
        let same = ap (λ (r : GrantResult). r.requested_scopes) d.is_result in
        let cut =
          issued-scope platform settings signing_key draws result db after issued i (rw same u)
            (rw same w) s in
        three_way _ d.subject_scopes actor_client.allowed_scopes s (
          sym (
            ap (λ (r : GrantResult). contains r.requested_scopes s && within r.ceilings s)
              d.is_result)
          ∙ sym cut
          ∙ held)

    claims_of_derived :
        AreClaims settings result (join i.granted) (issued_claims settings result (join i.granted))
    claims_of_derived =
        issued_claims-AreClaims settings result (join i.granted)
          (ap (λ (r : GrantResult). r.extra_claims) d.is_result)

    -- What the token carries under a name that the minter does not own.
    carried :
        (k : String)
        → contains minter_owned_claims k ≡ false
        → get i.minted.claims k ≡ get (issued_claims settings result (join i.granted)) k
    carried = issued-carries platform settings signing_key draws result db after issued i

    pub sub_of_derived : get i.minted.claims "sub" ≡ str d.actor_subject
    sub_of_derived =
        carried "sub" refl
        ∙ claims_of_derived.sub
        ∙ ap (λ (r : GrantResult). str r.subject) d.is_result

    pub act_of_derived : get i.minted.claims act_claim ≡ obj d.act
    act_of_derived =
        carried act_claim refl
        ∙ claims_of_derived.act
        ∙ ap (λ (r : GrantResult). dict_or_null r.act) d.is_result

    pub depth_of_derived : get i.minted.claims depth_claim ≡ int (pos d.new_depth)
    depth_of_derived =
        carried depth_claim refl
        ∙ claims_of_derived.depth
        ∙ ap (λ (r : GrantResult). int (pos r.delegation_depth)) d.is_result

    pub task_of_derived : get i.minted.claims task_claim ≡ text_or_null d.task_id
    task_of_derived =
        carried task_claim refl
        ∙ claims_of_derived.task
        ∙ ap (λ (r : GrantResult). text_or_null r.task_id) d.is_result

    pub tenant_of_derived : get i.minted.claims tenant_claim ≡ text_or_null d.tenant
    tenant_of_derived =
        carried tenant_claim refl
        ∙ claims_of_derived.tenant
        ∙ ap (λ (r : GrantResult). text_or_null r.tenant) d.is_result

    pub exp_of_derived :
        (expires_at : ℕ) × (get i.minted.claims "exp" ≡ instant expires_at)
        × (expires_at ≤ d.max_expires_at)
    exp_of_derived =
        let limit = ap (λ (r : GrantResult). r.max_expires_at) d.is_result in
        let m =
          mint-lifetime platform (minter platform settings signing_key)
            (issued_claims settings result (join i.granted)) none d.max_expires_at draws.minted_at
            draws.jti i.minted (issued_claims-IsDict settings result (join i.granted))
            (ap
                (λ l.
                  mint platform (minter platform settings signing_key)
                    (issued_claims settings result (join i.granted)) none l draws.minted_at
                    draws.jti)
                (sym limit)
              ∙ i.signed) in
        (m.0, m.2, m.5)
