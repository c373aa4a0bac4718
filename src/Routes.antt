-- ===== src/Routes.antt =====
-- api/routes.py and api/schemas.py: the token endpoint, from the request to the response.
pub mod Keeping
pub mod Ledger
pub mod Recognized
pub mod Granted
pub mod Exchanging
pub mod Conflict
pub mod Discovery
pub mod KeySet
pub mod Statements
use agent_oauth_from_scratch.Shared.{
  ℕ, String, Bool, true, false, Option, none, some, ◌==◌, if◌then◌else◌, List, [], ◌∷◌,
}
use agent_oauth_from_scratch.Outcome.{Outcome, ok, raised, oauth, OauthError, ◌>>=◌ as then_ok}
use agent_oauth_from_scratch.Exec.{Exec, pure, lift, ◌>>=◌, ◌>>◌}
use agent_oauth_from_scratch.Auth
use agent_oauth_from_scratch.Auth.{ClientAuthRegistry}
use agent_oauth_from_scratch.Auth.Clients.{authenticate}
use agent_oauth_from_scratch.Auth.SecretPost.{client_secret_post}
use agent_oauth_from_scratch.Auth.Assertion.{PrivateKeyJwt}
use agent_oauth_from_scratch.Auth.PrivateKeyJwt.{private_key_jwt}
use agent_oauth_from_scratch.Config.{Settings, url_for}
use agent_oauth_from_scratch.Forms.{Request, TokenForm, read_token_form, grant_type}
use agent_oauth_from_scratch.Grants
use agent_oauth_from_scratch.Grants.{GrantRegistry}
use agent_oauth_from_scratch.Grants.Base.{Grant, GrantResult}
use agent_oauth_from_scratch.Grants.ClientCredentials.{client_credentials}
use agent_oauth_from_scratch.Grants.TokenExchange.{TokenExchange, token_exchange}
use agent_oauth_from_scratch.Models.{RegisteredClient, SigningKey}
use agent_oauth_from_scratch.Pipeline.{IssuedToken, issue}
use agent_oauth_from_scratch.Platform.{Platform, Draws}
use agent_oauth_from_scratch.Storage.{Database}
use agent_oauth_from_scratch.Tokens.{TokenVerifier}

-- `TokenResponse` and `TokenExchangeResponse` with absent members dropped
pub record TokenResponse : Type 0 where
  pub access_token : String
  pub token_type : String
  pub expires_in : ℕ
  pub scope : Option String
  pub issued_token_type : Option String

-- Every response of the two handlers carries `Cache-Control: no-store`.
pub data Response : Type 0 where
  success : TokenResponse → Response
  -- status, error, description, and whether `WWW-Authenticate` is sent
  failure : ℕ → String → String → Bool → Response
  -- an exception that no handler takes
  server_error : Response

-- `value or None`
abbrev pub or_none : String → Option String
or_none value = if value == "" then none else some value

-- the body of a token
unfoldable pub token_response : IssuedToken → TokenResponse
token_response issued = record {
  access_token = issued.access_token;
  token_type = "Bearer";
  expires_in = issued.expires_in;
  scope = or_none issued.scope;
  issued_token_type = elim issued.issued_token_type [ none ↦ none | some t ↦ or_none t ];
}

-- `oauth_error_handler`
unfoldable pub respond : Outcome IssuedToken → Response
unfolding token_response
respond (ok issued) = success (token_response issued)
respond (raised (oauth e)) =
    failure e.status_code e.error e.description (e.error == "invalid_client")
respond (raised _) = server_error

-- What `create_app` is given, and what it makes of it.
pub record Server : Type 0 where
  pub platform : Platform
  pub settings : Settings
  pub signing_key : SigningKey
  pub grants : GrantRegistry
  pub auth_methods : ClientAuthRegistry

-- `default_grant_registry` and `default_client_auth_registry`, as `create_app` calls them
module _ (platform : Platform) (settings : Settings) (signing_key : SigningKey) where
  unfoldable pub default_grant_registry : Outcome GrantRegistry
  default_grant_registry = Grants.grant_registry (
      client_credentials
      ∷ token_exchange platform (record {
        verifier = record { issuer = settings.issuer; signing_key = signing_key };
        maximum_depth = settings.max_delegation_depth;
      })
      ∷ [])

  unfoldable pub default_client_auth_registry : Outcome ClientAuthRegistry
  default_client_auth_registry = Auth.client_auth_registry (
      client_secret_post platform
      ∷ private_key_jwt platform (record {
        issuer = settings.issuer;
        token_endpoint = url_for settings "/oauth/token";
        server_key = signing_key;
      })
      ∷ [])

  -- `create_app` with its defaults
  unfoldable pub create_app : Outcome Server
  create_app = then_ok default_grant_registry λ grants.
      then_ok default_client_auth_registry λ auth_methods. ok (record {
        platform = platform;
        settings = settings;
        signing_key = signing_key;
        grants = grants;
        auth_methods = auth_methods;
      })

module _ (server : Server) where
  pub identify : Draws → TokenForm → Exec Database RegisteredClient
  identify draws form = do
    found ← lift (Auth.extract server.auth_methods form)
    authenticate draws found.0 found.1

  -- `if grant.requires_client_auth`
  pub caller : Draws → TokenForm → Bool → Exec Database (Option RegisteredClient)
  caller draws form false = pure none
  caller draws form true = do client ← identify draws form; pure (some client)

  -- `get_oauth_token` up to the response
  unfoldable pub grant_token : Draws → Request → Exec Database IssuedToken
  unfolding caller identify
  grant_token draws request = do
    form ← lift (read_token_form server.platform request)
    grant_type ← lift (grant_type form)
    grant ← lift (Grants.get server.grants grant_type)
    client ← caller draws form grant.requires_client_auth
    result ← grant.resolve draws form client
    issue server.platform server.settings server.signing_key draws result

  -- `POST /oauth/token`
  unfoldable pub get_oauth_token : Draws → Request → Database → Response × Database
  unfolding grant_token respond
  get_oauth_token draws request db =
      let (result, db') = grant_token draws request db in (respond result, db')
