-- ===== src/Grants/ClientCredentials.antt =====
-- grants/client_credentials.py
use agent_oauth_from_scratch.Shared.{true, Option, none, some, [], ◌∷◌}
use agent_oauth_from_scratch.Outcome.{ok, raised, uncaught}
use agent_oauth_from_scratch.Exec.{Exec, pure, lift}
use agent_oauth_from_scratch.Value.{obj, Fields, end, field}
use agent_oauth_from_scratch.Value.Json.{
  string_type, enum_type, password_type, described_type, object_schema,
}
use agent_oauth_from_scratch.Forms
use agent_oauth_from_scratch.Forms.{TokenForm}
use agent_oauth_from_scratch.Models.{RegisteredClient}
use agent_oauth_from_scratch.Platform.{Draws}
use agent_oauth_from_scratch.Process
use agent_oauth_from_scratch.Process.{Process}
use agent_oauth_from_scratch.Process.Alone.{Refines, lift-Refines}
use agent_oauth_from_scratch.Storage.{Database}
use agent_oauth_from_scratch.Scopes.{parse_scope}
use agent_oauth_from_scratch.Grants.Base.{GrantResult, default_result, Grant}

-- the result for a client
credentials_result : Draws → TokenForm → RegisteredClient → GrantResult
credentials_result draws form client =
    record (default_result client.subject client.client_id (parse_scope (Forms.get form "scope"))
      (client.allowed_scopes ∷ [])) {
        principal_status = client.status;
        task_id = some draws.task_id;
        tenant = some client.tenant;
      }

-- `resolve`; the assertion that there is a client raises
unfoldable pub resolve_credentials :
    Draws → TokenForm → Option RegisteredClient → Exec Database GrantResult
unfolding credentials_result
resolve_credentials draws form none = lift (raised uncaught)
resolve_credentials draws form (some client) = pure (credentials_result draws form client)

-- `resolve` has no statement
unfoldable pub credentials_steps :
    Draws → TokenForm → Option RegisteredClient → Process Database GrantResult
unfolding credentials_result
credentials_steps draws form none = Process.lift (raised uncaught)
credentials_steps draws form (some client) = Process.pure (credentials_result draws form client)

pub resolve_credentials-Refines :
    (draws : Draws) (form : TokenForm) (client : Option RegisteredClient)
    → Refines (credentials_steps draws form client) (resolve_credentials draws form client)
unfolding resolve_credentials credentials_steps
resolve_credentials-Refines draws form none = lift-Refines (raised uncaught)
resolve_credentials-Refines draws form (some client) =
    lift-Refines (ok (credentials_result draws form client))

-- `openapi_schema`
abbrev pub credentials_schema : Fields
credentials_schema =
    object_schema "client_credentials" ("grant_type" ∷ "client_id" ∷ "client_secret" ∷ []) (
      field "grant_type" (obj (enum_type ("client_credentials" ∷ []))) (
        field "client_id" (obj string_type) (
          field "client_secret" (obj password_type) (
            field "scope"
              (obj (described_type "Space delimited. Intersected with the client ceiling.")) end))))

abbrev pub client_credentials : Grant
client_credentials = record {
  grant_type = "client_credentials";
  requires_client_auth = true;
  response_types = [];
  resolve = resolve_credentials;
  resolve_steps = credentials_steps;
  resolve_alone = resolve_credentials-Refines;
  metadata = end;
  openapi_schema = credentials_schema;
}
