-- ===== src/Examples/Lineages.antt =====
-- A planner and a worker take a token each, and the planner's is exchanged for the worker.
use agent_oauth_from_scratch.Shared.{ℕ, ◌+◌, ◌*◌, ◌≡◌, refl, String, none, some, [], ◌∷◌, arith}
use agent_oauth_from_scratch.Shared.Words.{join}
use agent_oauth_from_scratch.Outcome.{ok}
use agent_oauth_from_scratch.Value.{
  int, str, obj, instant, pos, Fields, end, field, item, get, put, update, has, size_fields,
}
use agent_oauth_from_scratch.Value.Times.{second, later, from_timestamp, to_timestamp}
use agent_oauth_from_scratch.Value.Wire.{read_back, read_back-IsReadBack}
use agent_oauth_from_scratch.Forms
use agent_oauth_from_scratch.Forms.{TokenForm}
use agent_oauth_from_scratch.Models.{RegisteredClient, registered_client}
use agent_oauth_from_scratch.Storage.{Database, no_rows}
use agent_oauth_from_scratch.Scopes.{attenuate, parse_scope}
use agent_oauth_from_scratch.Delegation.{
  depth, chain, declared_depth, task_of, tenant_of, nest, may_act_permits,
}
use agent_oauth_from_scratch.Grants.Base.{GrantResult, default_result}
use agent_oauth_from_scratch.Grants.ClientCredentials.{resolve_credentials}
use agent_oauth_from_scratch.Grants.Exchange.{derive, check_may_act, agreed_tenant, next_depth}
use agent_oauth_from_scratch.Grants.Lineage.{Lineage, rooted, exchanged}
use agent_oauth_from_scratch.Grants.Lineage.Rooted.{IsHeir}
use agent_oauth_from_scratch.Grants.Lineage.Heirs.{Lineage-IsHeir}
use agent_oauth_from_scratch.Pipeline.{IssuedToken, issued_claims, minter}
use agent_oauth_from_scratch.Pipeline.Issuing.{IsIssued, issuance}
use agent_oauth_from_scratch.Tokens.{MintedToken, mint}
use agent_oauth_from_scratch.Examples.Data.{
  platform, settings, key, now, draws, form, worker, caller,
}

-- the claims of a token that lasts for the five minutes of the settings
abbrev pub token_claims : String → String → String → Fields → Fields
token_claims subject client_id scope rest = field "iss" (str "https://as.example") (
    field "iat" (instant now) (
      field "exp" (instant (now + 300 * second)) (
        field "jti" (str "j1") (
          field "sub" (str subject)
            (field "aud" (str "https://api.example") (field "client_id" (str client_id) (rest)))))))

abbrev pub root_claims : RegisteredClient → Fields
root_claims client = token_claims client.subject client.client_id "read" (
    field "delegation_depth" (int (pos 0)) (
      field "scope" (str "read")
        (field "task_id" (str "t9") (field "tenant" (str client.tenant) end))))

abbrev pub root_result : RegisteredClient → GrantResult
root_result client =
    record (default_result client.subject client.client_id ("read" ∷ [])
      (client.allowed_scopes ∷ [])) {
        principal_status = client.status;
        task_id = some "t9";
        tenant = some client.tenant;
      }

abbrev pub token_of : Fields → MintedToken
token_of claims = record { token = "ES256.j1"; claims = claims; expires_in = 300 }

abbrev pub issued_for : GrantResult → IssuedToken
issued_for result = record {
  access_token = "ES256.j1";
  expires_in = 300;
  scope = join ("read" ∷ []);
  issued_token_type = result.issued_token_type;
}

abbrev pub with_row : GrantResult → Database
with_row result = record no_rows {
  issued_credentials =
      issuance platform settings key result (join ("read" ∷ []))
        (issued_claims settings result (join ("read" ∷ []))) now (now + 300 * second) "j1"
      ∷ [];
}

abbrev IsIssuedFor : GrantResult → Type 0
IsIssuedFor result =
    IsIssued platform settings key draws result no_rows (with_row result) (issued_for result)

abbrev issued_with :
    (result : GrantResult) (claims : Fields)
    → result.principal_status ≡ "active"
    → attenuate result.requested_scopes result.ceilings ≡ ok ("read" ∷ [])
    → mint platform
        (minter platform settings key)
        (issued_claims settings result (join ("read" ∷ [])))
        none
        result.max_expires_at
        now
        "j1"
      ≡ ok (token_of claims)
    → get claims "jti" ≡ str "j1"
    → get claims "iat" ≡ instant now
    → get claims "exp" ≡ instant (now + 300 * second)
    → IsIssuedFor result
issued_with result claims usable attenuated signed has_jti has_iat has_exp = record {
  granted = "read" ∷ [];
  minted = token_of claims;
  issued_at = now;
  expires_at = now + 300 * second;
  jti = "j1";
  usable = usable;
  attenuated = attenuated;
  signed = signed;
  jti_claim = has_jti;
  iat_claim = has_iat;
  exp_claim = has_exp;
  recorded = record { fresh = refl; added = refl };
  token = refl;
}

abbrev LineageTo : Fields → Fields → ℕ → Type 0
LineageTo = Lineage platform settings key (pos 4)

planner_root : LineageTo (root_claims caller) (root_claims caller) 0
unfolding attenuate mint issued_claims get put update has later join resolve_credentials parse_scope
    registered_client Forms.get
planner_root =
    rooted draws form caller (root_result caller) no_rows (with_row (root_result caller))
      (issued_for (root_result caller)) refl refl
      (issued_with (root_result caller) (root_claims caller) refl refl refl refl refl refl)

worker_root : LineageTo (root_claims worker) (root_claims worker) 0
unfolding attenuate mint issued_claims get put update has later join resolve_credentials parse_scope
    registered_client Forms.get
worker_root =
    rooted draws form worker (root_result worker) no_rows (with_row (root_result worker))
      (issued_for (root_result worker)) refl refl
      (issued_with (root_result worker) (root_claims worker) refl refl refl refl refl refl)

abbrev exchange_claims : Fields
exchange_claims = token_claims "worker" caller.client_id "read" (
    field "delegation_depth" (int (pos 1)) (
      field "scope" (str "read") (
        field "act" (obj (field "sub" (str "planner") end))
          (field "task_id" (str "t9") (field "tenant" (str "acme") end)))))

abbrev exchange_result : GrantResult
exchange_result =
    record (default_result "worker" caller.client_id ("read" ∷ [])
      (("read" ∷ []) ∷ worker.allowed_scopes ∷ [])) {
        act = some (field "sub" (str "planner") end);
        act_root = some "planner";
        task_id = some "t9";
        delegation_depth = 1;
        tenant = some "acme";
        audience = some "https://api.example";
        max_expires_at = some (now + 300 * second);
        issued_token_type = some "urn:ietf:params:oauth:token-type:access_token";
      }

delegated : LineageTo (root_claims caller) exchange_claims 1
unfolding attenuate mint issued_claims get put item update has later join parse_scope Forms.get
    derive check_may_act agreed_tenant next_depth may_act_permits declared_depth chain nest task_of
    tenant_of size_fields from_timestamp depth read_back to_timestamp
delegated =
    exchanged draws form caller worker "https://api.example" (read_back (root_claims caller))
      (read_back (root_claims worker)) exchange_result no_rows (with_row exchange_result)
      (issued_for exchange_result) planner_root worker_root
      (read_back-IsReadBack (root_claims caller)) (read_back-IsReadBack (root_claims worker)) refl
      (issued_with exchange_result exchange_claims refl refl refl refl refl refl)

Lineage-IsHeir_example : IsHeir size_fields 4 (root_claims caller) exchange_claims 1
Lineage-IsHeir_example =
    Lineage-IsHeir platform settings key 4 (λ a b same. same) (omega arith) (root_claims caller)
      exchange_claims 1 delegated
