-- ===== src/Grants/Lineage/Exchanged.antt =====
-- grants/token_exchange.py: one exchange in a chain, against the invariant of a descendant.
use agent_oauth_from_scratch.Shared.{
  ℕ, suc, ◌+◌, ◌≤◌, ◌<◌, ◌≡◌, refl, ◌≢◌, ◌⊎◌, sym, ap, ◌∙◌, String, true, Option, none, some, List,
  ◌∷◌, arith, inl, inr,
}
use agent_oauth_from_scratch.Shared.Lists.{contains}
use agent_oauth_from_scratch.Shared.Words.{join}
use agent_oauth_from_scratch.Outcome.{ok, >>=-eq-ok, ok-injective}
use agent_oauth_from_scratch.Value.{int, str, instant, Fields, get, pos}
use agent_oauth_from_scratch.Value.Wire.{as_read, IsReadBack, timestamp-to_timestamp}
use agent_oauth_from_scratch.Value.Times.{to_timestamp, from_timestamp}
use agent_oauth_from_scratch.Config.{Settings}
use agent_oauth_from_scratch.Forms.{TokenForm}
use agent_oauth_from_scratch.Models.{RegisteredClient, SigningKey}
use agent_oauth_from_scratch.Platform.{Platform, Draws}
use agent_oauth_from_scratch.Storage.{Database}
use agent_oauth_from_scratch.Scopes.{parse_scope}
use agent_oauth_from_scratch.Delegation.{
  task_claim, tenant_claim, chain, declared_depth, last_of, maximum_chain_depth, tenant_of,
}
use agent_oauth_from_scratch.Delegation.Chain.{IsObjectId, chain_sound}
use agent_oauth_from_scratch.Delegation.Derivation.{declared_depth-nest, chain-nest}
use agent_oauth_from_scratch.Grants.Base.{GrantResult}
use agent_oauth_from_scratch.Grants.Exchange.{parse_scope_claim, agreed_tenant}
use agent_oauth_from_scratch.Grants.Exchange.Derived.{IsDerived}
use agent_oauth_from_scratch.Grants.Exchange.Shrink.{
  scope_of_derived, sub_of_derived, act_of_derived, depth_of_derived, task_of_derived,
  tenant_of_derived, exp_of_derived,
}
use agent_oauth_from_scratch.Grants.Exchange.Steps.{
  agreed-eq-ok, text_item-of, key_item-of, not_exceeds, next_depth-eq-ok,
}
use agent_oauth_from_scratch.Pipeline.{IssuedToken}
use agent_oauth_from_scratch.Pipeline.Claims.{text_or_null}
use agent_oauth_from_scratch.Pipeline.Issuing.{IsIssued}
use agent_oauth_from_scratch.Grants.Lineage.Reading.{
  parse_scope_claim-written, task_of-read, tenant_of-read, scope-read, chain-read,
  declared_depth-read,
}
use agent_oauth_from_scratch.Grants.Lineage.Rooted.{IsHeir}
use agent_oauth_from_scratch.Pipeline.Guarantees.{issued-AreClaims}

module _ (platform : Platform) (settings : Settings) (signing_key : SigningKey) (most : ℕ) where
  abbrev Heir : Fields → Fields → ℕ → Type 0
  Heir = IsHeir platform.object_id most

  -- A tenant that is held and agreed on is kept.
  tenant-kept :
      (subject_tenant : Option String) (actor_tenant tenant : String)
      → text_or_null subject_tenant ≡ str tenant
      → (subject_tenant ≡ none) ⊎ (subject_tenant ≡ some actor_tenant)
      → str actor_tenant ≡ str tenant
  tenant-kept subject_tenant actor_tenant tenant held (inl missing) =
      absurd (cc (rw missing at held))
  tenant-kept subject_tenant actor_tenant tenant held (inr same) = rw same at held

  last_of-cons :
      (x y : String) (ys identities : List String)
      → identities ≡ y ∷ ys
      → last_of (x ∷ identities) ≡ last_of identities
  last_of-cons x y ys identities e = rw e refl

  -- An exchange of an heir's token for an actor with a name, and the issuance of its result.
  module _ (law : IsObjectId platform.object_id) (small : most < maximum_chain_depth)
      (origin claims : Fields) (hops : ℕ) (p : Heir origin claims hops) (draws : Draws)
      (form : TokenForm) (client actor_client : RegisteredClient) (audience : String)
      (subject_claims actor_claims : Fields) (result : GrantResult) (db after : Database)
      (issued : IssuedToken) (back : IsReadBack subject_claims claims) (actor : String)
      (named : get actor_claims "sub" ≡ str actor) (ne : actor ≢ "")
      (d : IsDerived platform
        (pos most)
        form
        client
        audience
        subject_claims
        actor_claims
        actor_client
        result)
      (i : IsIssued platform settings signing_key draws result db after issued) where
    declared_before : declared_depth platform.object_id subject_claims ≡ ok hops
    declared_before =
        declared_depth-read subject_claims claims back platform.object_id law hops p.declared

    deeper : (d.new_depth ≡ hops + 1) × (d.new_depth ≤ most)
    deeper =
        let (depth, declared, new, capped) =
          next_depth-eq-ok platform (pos most) subject_claims d.new_depth d.deeper in
        (
          new ∙ ap (λ n. n + 1) (ok-injective (sym declared ∙ declared_before)),
          not_exceeds d.new_depth most capped,
        )

    sub : get i.minted.claims "sub" ≡ str actor
    sub =
        sub_of_derived platform settings signing_key (pos most) form client audience subject_claims
          actor_claims actor_client result d draws db issued after i
        ∙ ap str (text_item-of actor_claims "sub" actor d.actor_subject named d.actor_sub)

    chained : chain platform.object_id i.minted.claims ≡ ok (actor ∷ p.identities)
    chained =
        chain-nest platform.object_id law subject_claims i.minted.claims d.act p.identities actor
          (chain-read subject_claims claims back platform.object_id law p.identities p.chained)
          d.nested sub ne
          (act_of_derived platform settings signing_key (pos most) form client audience
            subject_claims actor_claims actor_client result d draws db issued after i)
          (omega (arith, p.counted, deeper, small))

    declared_after : declared_depth platform.object_id i.minted.claims ≡ ok (suc hops)
    declared_after =
        let (same, capped) = deeper in
        let one : hops + 1 ≡ suc hops = omega arith in
        declared_depth-nest platform.object_id law subject_claims i.minted.claims d.act hops actor
          declared_before d.nested sub ne
          (act_of_derived platform settings signing_key (pos most) form client audience
            subject_claims actor_claims actor_client result d draws db issued after i)
          (depth_of_derived platform settings signing_key (pos most) form client audience
              subject_claims actor_claims actor_client result d draws db issued after i
            ∙ ap (λ n. int (pos n)) same)
          (omega (arith, same, capped, small))
        ∙ ap ok one

    ends : last_of (actor ∷ p.identities) ≡ ok p.origin_subject
    ends =
        let (subject, rest, e, is_str, subject_ne, acts, short) =
          chain_sound platform.object_id claims p.identities p.chained in
        last_of-cons actor subject rest p.identities e ∙ p.ends

    task : get i.minted.claims task_claim ≡ str p.task
    task =
        task_of_derived platform settings signing_key (pos most) form client audience subject_claims
          actor_claims actor_client result d draws db issued after i
        ∙ sym (task_of-read subject_claims claims back d.task_id d.task)
        ∙ p.has_task

    tenant : get i.minted.claims tenant_claim ≡ str p.tenant
    unfolding agreed_tenant
    tenant =
        let (subject_tenant, read, rest) = >>=-eq-ok (tenant_of subject_claims) _ d.agreed in
        let (same, matches) = agreed-eq-ok subject_tenant d.tenant actor_client.tenant rest in
        let held =
          sym (tenant_of-read subject_claims claims back subject_tenant read) ∙ p.has_tenant in
        tenant_of_derived platform settings signing_key (pos most) form client audience
          subject_claims actor_claims actor_client result d draws db issued after i
        ∙ ap text_or_null same
        ∙ tenant-kept subject_tenant actor_client.tenant p.tenant held matches

    until_after :
        (until : ℕ) × (get i.minted.claims "exp" ≡ instant until) × (until ≤ p.origin_until)
    until_after =
        let (until, has, early) =
          exp_of_derived platform settings signing_key (pos most) form client audience
            subject_claims actor_claims actor_client result d draws db issued after i in
        let exp : int (to_timestamp p.until) ≡ d.exp =
          key_item-of subject_claims "exp" d.exp (int (to_timestamp p.until))
            (back "exp" ∙ ap as_read p.expires) (λ h. absurd (cc h)) d.has_exp in
        let limit =
          timestamp-to_timestamp platform.float_timestamp p.until d.max_expires_at
            (ap (from_timestamp platform.float_timestamp) exp ∙ d.until) in
        (until, has, omega (arith, early, limit, p.sooner))

    shrunk :
        (s : String)
        → contains (parse_scope (some (join i.granted))) s ≡ true
        → contains p.origin_scopes s ≡ true
    shrunk s held =
        let before = scope-read subject_claims claims back d.subject_scopes d.scopes in
        let same = ok-injective (sym before ∙ p.has_scopes) in
        p.shrunk s (
          ap (λ l. contains l s) (sym same)
          ∙ (scope_of_derived platform settings signing_key (pos most) form client audience
              subject_claims actor_claims actor_client result d draws db issued after i s
              (ap (λ (t : IssuedToken). contains (parse_scope (some t.scope)) s) i.token ∙ held)).0)

    pub exchanged-IsHeir : Heir origin i.minted.claims (suc hops)
    exchanged-IsHeir =
        let c =
          issued-AreClaims platform settings signing_key draws result db after issued i
            (ap (λ (r : GrantResult). r.extra_claims) d.is_result) in
        let (until, has, early) = until_after in
        record {
          identities = actor ∷ p.identities;
          origin_subject = p.origin_subject;
          task = p.task;
          tenant = p.tenant;
          scopes = parse_scope (some (join i.granted));
          origin_scopes = p.origin_scopes;
          until = until;
          origin_until = p.origin_until;
          chained = chained;
          counted = omega (arith, p.counted);
          ends = ends;
          origin_sub = p.origin_sub;
          declared = declared_after;
          capped = omega (arith, deeper);
          has_task = task;
          origin_task = p.origin_task;
          has_tenant = tenant;
          origin_tenant = p.origin_tenant;
          has_scopes = ap parse_scope_claim c.scope ∙ parse_scope_claim-written (join i.granted);
          origin_has = p.origin_has;
          shrunk = shrunk;
          expires = has;
          origin_expires = p.origin_expires;
          sooner = early;
        }
