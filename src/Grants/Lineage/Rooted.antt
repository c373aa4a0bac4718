-- ===== src/Grants/Lineage/Rooted.antt =====
-- grants/client_credentials.py: the invariant of a descendant, and root tokens.
use agent_oauth_from_scratch.Shared.{
  ℕ, zero, ◌+◌, ◌≤◌, ◌≡◌, refl, ◌≢◌, sym, ap, ◌∙◌, String, true, some, List, [], ◌∷◌, arith, eq_iff,
}
use agent_oauth_from_scratch.Shared.Lists.{contains, length}
use agent_oauth_from_scratch.Shared.Words.{join}
use agent_oauth_from_scratch.Outcome.{ok, ok-injective}
use agent_oauth_from_scratch.Value.{int, str, instant, Fields, get, pos}
use agent_oauth_from_scratch.Config.{Settings}
use agent_oauth_from_scratch.Forms.{TokenForm}
use agent_oauth_from_scratch.Models.{RegisteredClient, registered_client, SigningKey}
use agent_oauth_from_scratch.Platform.{Platform, Draws}
use agent_oauth_from_scratch.Storage.{Database}
use agent_oauth_from_scratch.Delegation.{task_claim, tenant_claim, chain, declared_depth, last_of}
use agent_oauth_from_scratch.Delegation.Chain.{Acts, IsObjectId, chain_iff}
use agent_oauth_from_scratch.Delegation.Derivation.{declared_depth_iff}
use agent_oauth_from_scratch.Grants.Base.{GrantResult}
use agent_oauth_from_scratch.Grants.ClientCredentials.{resolve_credentials}
use agent_oauth_from_scratch.Grants.Exchange.{parse_scope_claim}
use agent_oauth_from_scratch.Pipeline.{IssuedToken}
use agent_oauth_from_scratch.Pipeline.Claims.{text_or_null, dict_or_null}
use agent_oauth_from_scratch.Pipeline.Issuing.{IsIssued}
use agent_oauth_from_scratch.Pipeline.Guarantees.{issued-AreClaims}
use agent_oauth_from_scratch.Grants.Lineage.Reading.{parse_scope_claim-written}

-- What a token with the claims `claims`, `hops` exchanges after the root token `origin`, is worth.
module _ (object_id : Fields → ℕ) (most : ℕ) where
  pub record IsHeir (origin claims : Fields) (hops : ℕ) : Type 0 where
    pub identities : List String
    pub origin_subject : String
    pub task : String
    pub tenant : String
    pub scopes : List String
    pub origin_scopes : List String
    pub until : ℕ
    pub origin_until : ℕ
    -- who holds it, and on whose behalf: as many hands as there were exchanges, and the first is the
    -- root's subject
    pub chained : chain object_id claims ≡ ok identities
    pub counted : length identities ≡ hops + 1
    pub ends : last_of identities ≡ ok origin_subject
    pub origin_sub : get origin "sub" ≡ str origin_subject
    pub declared : declared_depth object_id claims ≡ ok hops
    pub capped : hops ≤ most
    -- one task and one tenant
    pub has_task : get claims task_claim ≡ str task
    pub origin_task : get origin task_claim ≡ str task
    pub has_tenant : get claims tenant_claim ≡ str tenant
    pub origin_tenant : get origin tenant_claim ≡ str tenant
    -- no scope that the root token does not have
    pub has_scopes : parse_scope_claim (get claims "scope") ≡ ok scopes
    pub origin_has : parse_scope_claim (get origin "scope") ≡ ok origin_scopes
    pub shrunk : (s : String) → contains scopes s ≡ true → contains origin_scopes s ≡ true
    -- no later end
    pub expires : get claims "exp" ≡ instant until
    pub origin_expires : get origin "exp" ≡ instant origin_until
    pub sooner : until ≤ origin_until

module _ (platform : Platform) (settings : Settings) (signing_key : SigningKey) (most : ℕ) where
  abbrev Heir : Fields → Fields → ℕ → Type 0
  Heir = IsHeir platform.object_id most

  registered-named :
      (client : RegisteredClient) → registered_client client ≡ ok client → client.subject ≢ ""
  unfolding registered_client
  registered-named client valid empty = ground (arith, (eq_iff client.subject "").1 empty)

  -- A root token is its own heir.
  pub rooted-IsHeir :
      IsObjectId platform.object_id
      → (draws : Draws) (form : TokenForm) (client : RegisteredClient) (result : GrantResult)
        (db after : Database) (issued : IssuedToken)
      → registered_client client ≡ ok client
      → (resolve_credentials draws form (some client) db).0 ≡ ok result
      → (i : IsIssued platform settings signing_key draws result db after issued)
      → Heir i.minted.claims i.minted.claims zero
  unfolding resolve_credentials
  rooted-IsHeir law draws form client result db after issued valid resolved i =
      let same = sym (ok-injective resolved) in
      let c =
        issued-AreClaims platform settings signing_key draws result db after issued i
          (ap (λ (r : GrantResult). r.extra_claims) same) in
      let sub = c.sub ∙ ap (λ (r : GrantResult). str r.subject) same in
      let act = c.act ∙ ap (λ (r : GrantResult). dict_or_null r.act) same in
      let depth = c.depth ∙ ap (λ (r : GrantResult). int (pos r.delegation_depth)) same in
      let task = c.task ∙ ap (λ (r : GrantResult). text_or_null r.task_id) same in
      let tenant = c.tenant ∙ ap (λ (r : GrantResult). text_or_null r.tenant) same in
      let scope = ap parse_scope_claim c.scope ∙ parse_scope_claim-written (join i.granted) in
      let chained =
        (chain_iff platform.object_id law i.minted.claims client.subject []).1
          (sub, registered-named client valid, rw act Acts.done, omega arith) in
      record {
        identities = client.subject ∷ [];
        origin_subject = client.subject;
        task = draws.task_id;
        tenant = client.tenant;
        scopes = _;
        origin_scopes = _;
        until = i.expires_at;
        origin_until = i.expires_at;
        chained = chained;
        counted = refl;
        ends = refl;
        origin_sub = sub;
        declared =
            (declared_depth_iff platform.object_id law i.minted.claims 0).1
              (client.subject ∷ [], depth, chained, refl);
        capped = omega arith;
        has_task = task;
        origin_task = task;
        has_tenant = tenant;
        origin_tenant = tenant;
        has_scopes = scope;
        origin_has = scope;
        shrunk = λ s h. h;
        expires = i.exp_claim;
        origin_expires = i.exp_claim;
        sooner = omega arith;
      }
