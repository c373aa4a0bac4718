-- ===== src/Grants/Exchange/Derivable.antt =====
-- grants/token_exchange.py, `resolve` from the point where the actor's client is known: from which
-- claims it derives a token.
use agent_oauth_from_scratch.Shared.{
  ℕ, String, ◌≡◌, refl, ◌↔◌, sym, Option, some, List, [], ◌∷◌, ap,
}
use agent_oauth_from_scratch.Outcome.{ok}
use agent_oauth_from_scratch.Value.{Value, str, Fields, get, item, ℤ}
use agent_oauth_from_scratch.Value.Access.{text_item_iff, item_or_key_error_iff}
use agent_oauth_from_scratch.Value.Times.{from_timestamp}
use agent_oauth_from_scratch.Forms
use agent_oauth_from_scratch.Forms.{TokenForm}
use agent_oauth_from_scratch.Models.{RegisteredClient}
use agent_oauth_from_scratch.Platform.{Platform}
use agent_oauth_from_scratch.Scopes.{parse_scope}
use agent_oauth_from_scratch.Delegation.{chain, last_of, may_act_claim, tenant_claim, task_claim}
use agent_oauth_from_scratch.Delegation.Chain.{IsObjectId, chain_sound}
use agent_oauth_from_scratch.Delegation.Derivation.{nest-of_chain}
use agent_oauth_from_scratch.Delegation.Permits.{IsPermitted, IsOptionalText, task_of_iff}
use agent_oauth_from_scratch.Grants.Base.{GrantResult, default_result}
use agent_oauth_from_scratch.Grants.Exchange.{requested_or_all, derive, access_token_urn}
use agent_oauth_from_scratch.Grants.Exchange.Derived.{IsDerived, derive-eq-ok}
use agent_oauth_from_scratch.Grants.Exchange.Allowed.{
  check_may_act_iff, IsSameTenant, agreed_tenant_iff, IsCounted, next_depth_iff, IsScopeClaim,
  parse_scope_claim_iff, last_of-cons,
}

module _ (platform : Platform) where
  derive-IsDerived :
      (maximum_depth : ℤ) (form : TokenForm) (client : RegisteredClient) (audience : String)
      (subject_claims actor_claims : Fields) (actor_client : RegisteredClient)
      (result : GrantResult)
      → IsDerived platform maximum_depth form client audience subject_claims actor_claims
          actor_client result
      → derive platform maximum_depth form client audience subject_claims actor_claims actor_client
        ≡ ok result
  unfolding derive
  derive-IsDerived maximum_depth form client audience subject_claims actor_claims actor_client
        result d =
      rw (d.actor_sub, d.permitted, d.agreed, d.deeper, d.scopes, d.nested, d.read)
        (rw (d.root, d.task, d.has_exp, d.until) (ap ok (sym d.is_result)))

  last_of-chain :
      (claims : Fields) (identities : List String)
      → chain platform.object_id claims ≡ ok identities
      → (y : String) × (last_of identities ≡ ok y)
  last_of-chain claims identities read =
      let (subject, rest, e, is_str, ne, acts, short) =
        chain_sound platform.object_id claims identities read in
      rw e (last_of-cons subject rest)

  -- The subject token's claims let the actor act, do not name another tenant than the actor's,
  -- can be read, and leave room for one hop more; the actor's name it.
  pub record IsDerivable (maximum_depth : ℤ) (subject_claims actor_claims : Fields)
      (actor_client : RegisteredClient) : Type 0 where
    pub actor_subject : String
    pub identities : List String
    pub task_id : Option String
    pub exp : Value
    pub max_expires_at : ℕ
    pub actor_sub : get actor_claims "sub" ≡ str actor_subject
    pub permitted : IsPermitted actor_subject (get subject_claims may_act_claim)
    pub same_tenant : IsSameTenant actor_client.tenant (get subject_claims tenant_claim)
    pub counted : IsCounted platform maximum_depth subject_claims identities
    pub has_scopes : IsScopeClaim (get subject_claims "scope")
    pub task : IsOptionalText (get subject_claims task_claim) task_id
    pub has_exp : item subject_claims "exp" ≡ some exp
    pub until : from_timestamp platform.float_timestamp exp ≡ ok max_expires_at

  module _ (law : IsObjectId platform.object_id) (maximum_depth : ℤ) (form : TokenForm)
      (client : RegisteredClient) (audience : String) (subject_claims actor_claims : Fields)
      (actor_client : RegisteredClient) where
    derivable :
        (result : GrantResult)
        → IsDerived platform maximum_depth form client audience subject_claims actor_claims
            actor_client result
        → IsDerivable maximum_depth subject_claims actor_claims actor_client
    derivable result d =
        let (identities, counted) =
          (next_depth_iff platform law maximum_depth subject_claims).0 (d.new_depth, d.deeper) in
        record {
          actor_subject = d.actor_subject;
          identities = identities;
          task_id = d.task_id;
          exp = d.exp;
          max_expires_at = d.max_expires_at;
          actor_sub = (text_item_iff actor_claims "sub" d.actor_subject).0 d.actor_sub;
          permitted = (check_may_act_iff subject_claims d.actor_subject).0 d.permitted;
          same_tenant = (agreed_tenant_iff subject_claims actor_client).0 (d.tenant, d.agreed);
          counted = counted;
          has_scopes =
              (parse_scope_claim_iff (get subject_claims "scope")).0 (d.subject_scopes, d.scopes);
          task = (task_of_iff subject_claims d.task_id).0 d.task;
          has_exp = (item_or_key_error_iff subject_claims "exp" d.exp).0 d.has_exp;
          until = d.until;
        }

    derived :
        IsDerivable maximum_depth subject_claims actor_claims actor_client
        → (result : GrantResult) × IsDerived platform maximum_depth form client audience
            subject_claims actor_claims actor_client result
    derived d =
        let (tenant, agreed) = (agreed_tenant_iff subject_claims actor_client).1 d.same_tenant in
        let (new_depth, deeper) =
          (next_depth_iff platform law maximum_depth subject_claims).1 (d.identities, d.counted) in
        let (subject_scopes, scopes) =
          (parse_scope_claim_iff (get subject_claims "scope")).1 d.has_scopes in
        let (n, said, read, count, fits) = d.counted in
        let (act, nested) = nest-of_chain platform.object_id subject_claims d.identities read in
        let (act_root, root) = last_of-chain subject_claims d.identities read in
        (
          record (default_result d.actor_subject client.client_id
              (requested_or_all (parse_scope (Forms.get form "scope")) subject_scopes)
              (subject_scopes ∷ actor_client.allowed_scopes ∷ [])) {
                act = some act;
                act_root = some act_root;
                task_id = d.task_id;
                delegation_depth = new_depth;
                tenant = tenant;
                audience = some audience;
                max_expires_at = some d.max_expires_at;
                issued_token_type = some access_token_urn;
              },
          record {
            actor_subject = d.actor_subject;
            tenant = tenant;
            new_depth = new_depth;
            subject_scopes = subject_scopes;
            act = act;
            identities = d.identities;
            act_root = act_root;
            task_id = d.task_id;
            exp = d.exp;
            max_expires_at = d.max_expires_at;
            actor_sub = (text_item_iff actor_claims "sub" d.actor_subject).1 d.actor_sub;
            permitted = (check_may_act_iff subject_claims d.actor_subject).1 d.permitted;
            agreed = agreed;
            deeper = deeper;
            scopes = scopes;
            nested = nested;
            read = read;
            root = root;
            task = (task_of_iff subject_claims d.task_id).1 d.task;
            has_exp = (item_or_key_error_iff subject_claims "exp" d.exp).1 d.has_exp;
            until = d.until;
            is_result = refl;
          },
        )

    -- If dictionaries with equal object identities have equal sizes: there is a result exactly
    -- for claims that a token can be derived from.
    pub derive_iff :
        ((result : GrantResult) × (derive platform maximum_depth form client audience subject_claims
              actor_claims actor_client
            ≡ ok result))
        ↔ IsDerivable maximum_depth subject_claims actor_claims actor_client
    derive_iff = (
      λ (result, h). derivable result (
          derive-eq-ok platform maximum_depth form client audience subject_claims actor_claims
            actor_client result h),
      λ d.
          let (result, is_derived) = derived d in
          (
            result,
            derive-IsDerived maximum_depth form client audience subject_claims actor_claims
                actor_client result is_derived,
          ),
    )
