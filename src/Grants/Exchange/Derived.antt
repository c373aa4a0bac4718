-- ===== src/Grants/Exchange/Derived.antt =====
-- A success of `derive`, taken apart.
use agent_oauth_from_scratch.Shared.{ℕ, String, ◌≡◌, sym, Option, some, List, [], ◌∷◌}
use agent_oauth_from_scratch.Outcome.{ok, >>=-eq-ok, ok-injective}
use agent_oauth_from_scratch.Value.{Value, Fields, get, ℤ}
use agent_oauth_from_scratch.Value.Access.{text_item, item_or_key_error}
use agent_oauth_from_scratch.Value.Times.{from_timestamp}
use agent_oauth_from_scratch.Forms
use agent_oauth_from_scratch.Forms.{TokenForm}
use agent_oauth_from_scratch.Models.{RegisteredClient}
use agent_oauth_from_scratch.Platform.{Platform}
use agent_oauth_from_scratch.Scopes.{parse_scope}
use agent_oauth_from_scratch.Delegation.{chain, last_of, nest, task_of}
use agent_oauth_from_scratch.Grants.Base.{GrantResult, default_result}
use agent_oauth_from_scratch.Grants.Exchange.{
  check_may_act, agreed_tenant, next_depth, parse_scope_claim, requested_or_all, derive,
  access_token_urn,
}

module _ (platform : Platform) where
  pub record IsDerived (maximum_depth : ℤ) (form : TokenForm) (client : RegisteredClient)
      (audience : String) (subject_claims actor_claims : Fields) (actor_client : RegisteredClient)
      (result : GrantResult) : Type 0 where
    pub actor_subject : String
    pub tenant : Option String
    pub new_depth : ℕ
    pub subject_scopes : List String
    pub act : Fields
    pub identities : List String
    pub act_root : String
    pub task_id : Option String
    pub exp : Value
    pub max_expires_at : ℕ
    pub actor_sub : text_item actor_claims "sub" ≡ ok actor_subject
    pub permitted : check_may_act subject_claims actor_subject ≡ ok tt
    pub agreed : agreed_tenant subject_claims actor_client ≡ ok tenant
    pub deeper : next_depth platform maximum_depth subject_claims ≡ ok new_depth
    pub scopes : parse_scope_claim (get subject_claims "scope") ≡ ok subject_scopes
    pub nested : nest subject_claims ≡ ok act
    pub read : chain platform.object_id subject_claims ≡ ok identities
    pub root : last_of identities ≡ ok act_root
    pub task : task_of subject_claims ≡ ok task_id
    pub has_exp : item_or_key_error subject_claims "exp" ≡ ok exp
    pub until : from_timestamp platform.float_timestamp exp ≡ ok max_expires_at
    pub is_result :
        result
        ≡ record (default_result actor_subject client.client_id
            (requested_or_all (parse_scope (Forms.get form "scope")) subject_scopes)
            (subject_scopes ∷ actor_client.allowed_scopes ∷ [])) {
              act = some act;
              act_root = some act_root;
              task_id = task_id;
              delegation_depth = new_depth;
              tenant = tenant;
              audience = some audience;
              max_expires_at = some max_expires_at;
              issued_token_type = some access_token_urn;
            }

  pub derive-eq-ok :
      (maximum_depth : ℤ) (form : TokenForm) (client : RegisteredClient) (audience : String)
      (subject_claims actor_claims : Fields) (actor_client : RegisteredClient)
      (result : GrantResult)
      → derive platform maximum_depth form client audience subject_claims actor_claims actor_client
        ≡ ok result
      → IsDerived maximum_depth form client audience subject_claims actor_claims actor_client result
  unfolding derive
  derive-eq-ok maximum_depth form client audience subject_claims actor_claims actor_client result
        h =
      let (actor_subject, actor_sub, h₁) = >>=-eq-ok (text_item actor_claims "sub") _ h in
      let (u, permitted, h₂) = >>=-eq-ok (check_may_act subject_claims actor_subject) _ h₁ in
      let (tenant, agreed, h₃) = >>=-eq-ok (agreed_tenant subject_claims actor_client) _ h₂ in
      let (new_depth, deeper, h₄) =
        >>=-eq-ok (next_depth platform maximum_depth subject_claims) _ h₃ in
      let (subject_scopes, scopes, h₅) =
        >>=-eq-ok (parse_scope_claim (get subject_claims "scope")) _ h₄ in
      let (act, nested, h₆) = >>=-eq-ok (nest subject_claims) _ h₅ in
      let (identities, read, h₇) = >>=-eq-ok (chain platform.object_id subject_claims) _ h₆ in
      let (act_root, root, h₈) = >>=-eq-ok (last_of identities) _ h₇ in
      let (task_id, task, h₉) = >>=-eq-ok (task_of subject_claims) _ h₈ in
      let (exp, has_exp, h') = >>=-eq-ok (item_or_key_error subject_claims "exp") _ h₉ in
      let (max_expires_at, until, made) =
        >>=-eq-ok (from_timestamp platform.float_timestamp exp) _ h' in
      record {
        actor_subject = actor_subject;
        tenant = tenant;
        new_depth = new_depth;
        subject_scopes = subject_scopes;
        act = act;
        identities = identities;
        act_root = act_root;
        task_id = task_id;
        exp = exp;
        max_expires_at = max_expires_at;
        actor_sub = actor_sub;
        permitted = permitted;
        agreed = agreed;
        deeper = deeper;
        scopes = scopes;
        nested = nested;
        read = read;
        root = root;
        task = task;
        has_exp = has_exp;
        until = until;
        is_result = sym (ok-injective made);
      }
