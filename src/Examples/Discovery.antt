-- ===== src/Examples/Discovery.antt =====
-- The discovery document of a server with two clients.
use agent_oauth_from_scratch.Shared.{◌≡◌, refl, [], ◌∷◌}
use agent_oauth_from_scratch.Shared.Sorting.{sorted}
use agent_oauth_from_scratch.Outcome.{ok}
use agent_oauth_from_scratch.Value.{null, str, arr, Fields, end, field, get, has, update}
use agent_oauth_from_scratch.Auth
use agent_oauth_from_scratch.Config.{checked_settings}
use agent_oauth_from_scratch.Grants
use agent_oauth_from_scratch.Value.Json.{texts}
use agent_oauth_from_scratch.Metadata.{authorization_server_metadata}
use agent_oauth_from_scratch.Metadata.Honest.{metadata-advertises}
use agent_oauth_from_scratch.Storage.{Database, no_rows, all_clients}
use agent_oauth_from_scratch.Examples.Data.{platform, settings, key, worker, caller}
use agent_oauth_from_scratch.Examples.Requests.{server, made}

abbrev both : Database
both = record no_rows { clients = worker ∷ caller ∷ [] }

abbrev document : Fields
document = field "issuer" (str "https://as.example") (
    field "token_endpoint" (str "https://as.example/oauth/token") (
      field "jwks_uri" (str "https://as.example/.well-known/jwks.json") (
        field "grant_types_supported"
          (arr
            (texts ("client_credentials" ∷ "urn:ietf:params:oauth:grant-type:token-exchange" ∷ [])))
          (field "response_types_supported" (arr (texts [])) (
            field "token_endpoint_auth_methods_supported"
              (arr (texts ("client_secret_post" ∷ "private_key_jwt" ∷ [])))
              (field "scopes_supported" (arr (texts ("read" ∷ "send" ∷ "write" ∷ []))) end))))))

checked : checked_settings settings ≡ ok settings
unfolding checked_settings has
checked = refl

is_made :
    (authorization_server_metadata platform settings server.grants server.auth_methods both).0
    ≡ ok document
unfolding authorization_server_metadata all_clients update Grants.grant_types Grants.response_types
    Auth.names sorted
is_made = refl

metadata-advertises_example :
    (get document "issuer" ≡ str "https://as.example")
    × (get document "token_endpoint" ≡ str "https://as.example/oauth/token")
    × (get document "grant_types_supported"
        ≡ arr
            (texts ("client_credentials" ∷ "urn:ietf:params:oauth:grant-type:token-exchange" ∷ [])))
    × (get document "response_types_supported" ≡ arr (texts []))
    × (get document "token_endpoint_auth_methods_supported"
        ≡ arr (texts ("client_secret_post" ∷ "private_key_jwt" ∷ [])))
    × (get document "introspection_endpoint" ≡ null)
    × (get document "revocation_endpoint" ≡ null)
    × (get document "code_challenge_methods_supported" ≡ null)
    × (get document "dpop_signing_alg_values_supported" ≡ null)
metadata-advertises_example =
    metadata-advertises settings checked tt platform key server made both document is_made
