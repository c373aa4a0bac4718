-- ===== src/Metadata.antt =====
-- api/metadata.py: the discovery document, made from what is installed.
pub mod Honest
use agent_oauth_from_scratch.Shared.{String, Bool, true, List, [], ◌∷◌, ◌++◌, if◌then◌else◌}
use agent_oauth_from_scratch.Shared.Lists.{contains}
use agent_oauth_from_scratch.Shared.Sorting.{sorted}
use agent_oauth_from_scratch.Exec.{Exec, pure, ◌>>=◌}
use agent_oauth_from_scratch.Value.{
  Value, bool, str, arr, obj, Items, nil, cons, Fields, end, field, update,
}
use agent_oauth_from_scratch.Value.Json.{texts}
use agent_oauth_from_scratch.Auth
use agent_oauth_from_scratch.Auth.{ClientAuthRegistry}
use agent_oauth_from_scratch.Config.{Settings, url_for}
use agent_oauth_from_scratch.Grants
use agent_oauth_from_scratch.Grants.{GrantRegistry}
use agent_oauth_from_scratch.Grants.Base.{Grant}
use agent_oauth_from_scratch.Models.{RegisteredClient}
use agent_oauth_from_scratch.Platform.{Platform}
use agent_oauth_from_scratch.Storage.{Database}
use agent_oauth_from_scratch.Auth.Clients.{all}

-- the elements of a set that is made of a list
abbrev pub distinct : List String → List String
distinct [] = []
distinct (s ∷ ss) = let rest = distinct ss in if contains rest s then rest else s ∷ rest

-- `sorted` of a set
abbrev pub sorted_set : List String → Value
sorted_set ss = arr (texts (sorted (distinct ss)))

all_scopes : List RegisteredClient → List String
all_scopes [] = []
all_scopes (client ∷ clients) = client.allowed_scopes ++ all_scopes clients

-- `for grant in grants.all(): document.update(grant.metadata(settings))`
add_metadata : List Grant → Fields → Fields
add_metadata [] document = document
add_metadata (grant ∷ grants) document = add_metadata grants (update document grant.metadata)

module _ (platform : Platform) (settings : Settings) (grants : GrantRegistry)
    (auth_methods : ClientAuthRegistry) where
  derived_document : List RegisteredClient → Fields
  unfolding all_scopes
  derived_document clients = field "issuer" (str settings.issuer) (
      field "token_endpoint" (str (url_for settings "/oauth/token")) (
        field "jwks_uri" (str (url_for settings "/.well-known/jwks.json")) (
          field "grant_types_supported" (sorted_set (Grants.grant_types grants)) (
            field "response_types_supported" (sorted_set (Grants.response_types grants)) (
              field "token_endpoint_auth_methods_supported" (sorted_set (Auth.names auth_methods))
                (field "scopes_supported" (sorted_set (all_scopes clients)) end))))))

  -- `authorization_server_metadata`
  unfoldable pub authorization_server_metadata : Exec Database Fields
  unfolding derived_document add_metadata
  authorization_server_metadata = do
    clients ← all platform.collates
    pure (update (add_metadata grants.grants (derived_document clients)) settings.metadata_overlay)

-- `[g.openapi_schema() for g in grants.all()]`
schemas : List Grant → Items
schemas [] = nil
schemas (grant ∷ grants) = cons (obj grant.openapi_schema) (schemas grants)

-- `token_request_openapi`
unfoldable pub token_request_openapi : GrantRegistry → Fields
unfolding schemas
token_request_openapi grants =
    field "requestBody"
      (obj (
        field "required" (bool true) (
          field "content"
            (obj (
              field "application/x-www-form-urlencoded"
                (obj (field "schema" (obj (field "oneOf" (arr (schemas grants.grants)) end)) end))
                end))
            end)))
      end
