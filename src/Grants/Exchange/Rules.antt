-- ===== src/Grants/Exchange/Rules.antt =====
-- The shrink rules as theorems on an exchange that succeeds.
use agent_oauth_from_scratch.Shared.{
  ℕ, ◌≤◌, ◌<◌, String, ◌≡◌, ◌≢◌, ◌⊎◌, sym, ap, ◌∙◌, true, Option, none, some, List, ◌∷◌, arith,
}
use agent_oauth_from_scratch.Shared.Lists.{contains, length}
use agent_oauth_from_scratch.Outcome.{ok, >>=-eq-ok, ok-injective}
use agent_oauth_from_scratch.Value.{int, pos, str, instant, Fields, get, ℤ}
use agent_oauth_from_scratch.Value.Times.{from_timestamp, to_timestamp}
use agent_oauth_from_scratch.Config.{Settings}
use agent_oauth_from_scratch.Forms
use agent_oauth_from_scratch.Forms.{TokenForm}
use agent_oauth_from_scratch.Models.{RegisteredClient, SigningKey, active}
use agent_oauth_from_scratch.Platform.{Platform, Draws}
use agent_oauth_from_scratch.Storage.{Database}
use agent_oauth_from_scratch.Scopes.{parse_scope}
use agent_oauth_from_scratch.Delegation.{
  chain, declared_depth, task_of, tenant_of, task_claim, tenant_claim, maximum_chain_depth,
}
use agent_oauth_from_scratch.Delegation.Chain.{IsObjectId}
use agent_oauth_from_scratch.Delegation.Derivation.{
  declared_depth-nest, declared_depth_iff, chain-nest,
}
use agent_oauth_from_scratch.Grants.Base.{GrantResult}
use agent_oauth_from_scratch.Grants.Exchange.{
  parse_scope_claim, requested_or_all, derive, exceeds, agreed_tenant,
}
use agent_oauth_from_scratch.Grants.Exchange.Derived.{IsDerived, derive-eq-ok}
use agent_oauth_from_scratch.Grants.Exchange.Shrink.{
  scope_of_derived, sub_of_derived, act_of_derived, depth_of_derived, task_of_derived,
  tenant_of_derived, exp_of_derived,
}
use agent_oauth_from_scratch.Pipeline.{IssuedToken, issue}
use agent_oauth_from_scratch.Pipeline.Claims.{text_or_null}
use agent_oauth_from_scratch.Pipeline.Issuing.{IsIssued}
use agent_oauth_from_scratch.Pipeline.Guarantees.{issue-eq-ok}
use agent_oauth_from_scratch.Grants.Exchange.Steps.{
  IsAtMost, to_timestamp-IsAtMost, from_timestamp-pos, agreed-eq-ok, text_item-of, nonull,
  key_item-of, not_exceeds, IsTokenOf, encoded, next_depth-eq-ok,
}

module _ (platform : Platform) (maximum_depth : ℤ) (form : TokenForm) (client : RegisteredClient)
    (audience : String) (subject_claims actor_claims : Fields)
    (actor_client : RegisteredClient) where
  -- A result of an exchange is the same whatever the statuses of the calling client and of the
  -- actor's client are, and its own status is `active`.
  pub exchange_ignores_status :
      (result : GrantResult) (status actor_status : String)
      → derive platform maximum_depth form
          (record client { status = status })
          audience
          subject_claims
          actor_claims
          (record actor_client { status = actor_status })
        ≡ ok result
      → (derive platform maximum_depth form client audience subject_claims actor_claims actor_client
          ≡ ok result)
        × (result.principal_status ≡ active)
  unfolding derive agreed_tenant
  exchange_ignores_status result status actor_status h = (
    h,
    ap (λ (r : GrantResult). r.principal_status)
        (derive-eq-ok platform maximum_depth form (record client { status = status }) audience
          subject_claims actor_claims (record actor_client { status = actor_status }) result
          h).is_result,
  )

-- A derivation that succeeded, and the issuance of its result that succeeded.
module _ (platform : Platform) (settings : Settings) (signing_key : SigningKey) (maximum_depth : ℤ)
    (form : TokenForm) (client : RegisteredClient) (audience : String)
    (subject_claims actor_claims : Fields) (actor_client : RegisteredClient) (result : GrantResult)
    (derived : derive platform maximum_depth form client audience subject_claims actor_claims
        actor_client
      ≡ ok result)
    (draws : Draws) (db : Database) (issued : IssuedToken)
    (done : (issue platform settings signing_key draws result db).0 ≡ ok issued) where
  abbrev parts :
      IsDerived platform maximum_depth form client audience subject_claims actor_claims actor_client
        result
  parts =
      derive-eq-ok platform maximum_depth form client audience subject_claims actor_claims
        actor_client result derived

  abbrev after : Database
  after = (issue platform settings signing_key draws result db).1

  abbrev issuing : IsIssued platform settings signing_key draws result db after issued
  issuing = issue-eq-ok platform settings signing_key draws result db issued done

  text : IsTokenOf platform signing_key issued.access_token issuing.minted.claims
  text = encoded platform settings signing_key draws result db after issued issuing

  -- Every scope of the token that an exchange issues is a scope of the subject token, is
  -- allowed to the actor's client, and was requested, where an empty request stands for all
  -- that the subject token has.
  pub exchange_scope :
      (subject_scopes : List String)
      → parse_scope_claim (get subject_claims "scope") ≡ ok subject_scopes
      → (s : String) → contains (parse_scope (some issued.scope)) s ≡ true
      → (contains subject_scopes s ≡ true)
        × (contains actor_client.allowed_scopes s ≡ true)
        × (contains (requested_or_all (parse_scope (Forms.get form "scope")) subject_scopes) s
            ≡ true)
  exchange_scope subject_scopes read s held = rw (ok-injective (sym read ∙ parts.scopes)) (
      scope_of_derived platform settings signing_key maximum_depth form client audience
        subject_claims actor_claims actor_client result parts draws db issued after issuing s held)

  -- If dictionaries with equal object identities have equal sizes, the bound `most` on the
  -- depth is below 32, and the actor token has a non-empty subject: the token that an exchange
  -- issues is the signed encoding of claims whose chain of holders is the actor in front of the
  -- subject token's whole chain, and whose declared depth is accepted, counts exactly the hops
  -- of that chain, and is at most `most`.
  pub exchange_chain :
      IsObjectId platform.object_id
      → (most : ℕ) → maximum_depth ≡ pos most
      → most < maximum_chain_depth
      → (actor : String) → get actor_claims "sub" ≡ str actor
      → actor ≢ ""
      → (claims : Fields) × (identities : List String) × IsTokenOf platform signing_key
          issued.access_token claims
        × (chain platform.object_id subject_claims ≡ ok identities)
        × (chain platform.object_id claims ≡ ok (actor ∷ identities))
        × (declared_depth platform.object_id claims ≡ ok (length identities))
        × (length identities ≤ most)
  exchange_chain law most bound small actor named ne =
      let p = parts in
      let (depth, declared, new, capped) =
        next_depth-eq-ok platform maximum_depth subject_claims p.new_depth p.deeper in
      let (identities, said, read, count) =
        (declared_depth_iff platform.object_id law subject_claims depth).0 declared in
      let is_actor = text_item-of actor_claims "sub" actor p.actor_subject named p.actor_sub in
      let within_cap =
        not_exceeds p.new_depth most (ap (exceeds p.new_depth) (sym bound) ∙ capped) in
      let sub =
        sub_of_derived platform settings signing_key maximum_depth form client audience
          subject_claims actor_claims actor_client result p draws db issued after issuing in
      let under =
        act_of_derived platform settings signing_key maximum_depth form client audience
          subject_claims actor_claims actor_client result p draws db issued after issuing in
      let counted =
        depth_of_derived platform settings signing_key maximum_depth form client audience
          subject_claims actor_claims actor_client result p draws db issued after issuing in
      let named' = sub ∙ ap str is_actor in
      (
        issuing.minted.claims,
        identities,
        text,
        read,
        chain-nest platform.object_id law subject_claims issuing.minted.claims p.act identities
            actor read p.nested named' ne under (omega (arith, new, count, within_cap, small)),
        declared_depth-nest platform.object_id law subject_claims issuing.minted.claims p.act depth
              actor declared p.nested named' ne under (counted ∙ ap (λ n. int (pos n)) new)
              (omega (arith, new, within_cap, small))
            ∙ ap ok (sym count),
        omega (arith, new, count, within_cap),
      )

  -- If the subject token expires `t` seconds after 1970, the token that an exchange issues is
  -- the signed encoding of claims whose expiry, as it is written into the token, is not after
  -- `t`.
  pub exchange_expiry :
      (t : ℕ)
      → get subject_claims "exp" ≡ int (pos t)
      → (claims : Fields) × (expires_at : ℕ) × IsTokenOf platform signing_key issued.access_token
          claims
        × (get claims "exp" ≡ instant expires_at)
        × IsAtMost (to_timestamp expires_at) t
  exchange_expiry t said =
      let p = parts in
      let (expires_at, exp_claim, early) =
        exp_of_derived platform settings signing_key maximum_depth form client audience
          subject_claims actor_claims actor_client result p draws db issued after issuing in
      let limit = from_timestamp-pos platform.float_timestamp t p.max_expires_at (
        ap (from_timestamp platform.float_timestamp)
          (key_item-of subject_claims "exp" p.exp (int (pos t)) said (λ e. nonull t e) p.has_exp)
        ∙ p.until) in
      (
        issuing.minted.claims,
        expires_at,
        text,
        exp_claim,
        to_timestamp-IsAtMost expires_at t (omega (arith, early, limit)),
      )

  -- The token that an exchange issues is the signed encoding of claims that carry the subject
  -- token's task and the tenant of the actor's client; a tenant that the subject token has is
  -- that one.
  pub exchange_origin :
      (claims : Fields) × (task : Option String) × (subject_tenant : Option String) × IsTokenOf
        platform signing_key issued.access_token claims
      × (task_of subject_claims ≡ ok task)
      × (get claims task_claim ≡ text_or_null task)
      × (tenant_of subject_claims ≡ ok subject_tenant)
      × (get claims tenant_claim ≡ str actor_client.tenant)
      × ((subject_tenant ≡ none) ⊎ (subject_tenant ≡ some actor_client.tenant))
  unfolding agreed_tenant
  exchange_origin =
      let p = parts in
      let (subject_tenant, read, rest) = >>=-eq-ok (tenant_of subject_claims) _ p.agreed in
      let (same, origin) = agreed-eq-ok subject_tenant p.tenant actor_client.tenant rest in
      (
        issuing.minted.claims,
        p.task_id,
        subject_tenant,
        text,
        p.task,
        task_of_derived platform settings signing_key maximum_depth form client audience
            subject_claims actor_claims actor_client result p draws db issued after issuing,
        read,
        tenant_of_derived platform settings signing_key maximum_depth form client audience
              subject_claims actor_claims actor_client result p draws db issued after issuing
            ∙ ap text_or_null same,
        origin,
      )
