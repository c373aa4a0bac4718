-- ===== src/Examples/Requests.antt =====
-- The token endpoint, its form, client assertions, and the repositories.
use agent_oauth_from_scratch.Shared.{
  ◌≡◌, ◌↔◌, refl, String, true, none, some, [], ◌∷◌, ◌==◌, if◌then◌else◌,
}
use agent_oauth_from_scratch.Shared.Lists.{contains}
use agent_oauth_from_scratch.Outcome.{ok}
use agent_oauth_from_scratch.Exec.{◌>>◌}
use agent_oauth_from_scratch.Value.{int, pos, str, Fields, end, field, get, item}
use agent_oauth_from_scratch.Value.Times.{from_timestamp}
use agent_oauth_from_scratch.Auth
use agent_oauth_from_scratch.Auth.Base.{PresentedCredential}
use agent_oauth_from_scratch.Auth.Clients.{authenticate}
use agent_oauth_from_scratch.Auth.Clients.Secrets.{
  Answers, authenticate_secret_iff, authenticate_secret_ends,
}
use agent_oauth_from_scratch.Auth.SecretPost.{client_secret_post}
use agent_oauth_from_scratch.Auth.Assertion.{
  PrivateKeyJwt, claims_are_acceptable, replay_key, audience_accepted,
}
use agent_oauth_from_scratch.Auth.PrivateKeyJwt.{private_key_jwt, verify_assertion}
use agent_oauth_from_scratch.Auth.PrivateKeyJwt.Accepted.{IsAccepted}
use agent_oauth_from_scratch.Auth.PrivateKeyJwt.Decided.{verify_assertion_iff}
use agent_oauth_from_scratch.Forms
use agent_oauth_from_scratch.Forms.{
  Request, TokenForm, FormValue, text, getlist, require, read_token_form,
}
use agent_oauth_from_scratch.Forms.Reading.{read_token_form-get}
use agent_oauth_from_scratch.Grants
use agent_oauth_from_scratch.Grants.ClientCredentials.{client_credentials}
use agent_oauth_from_scratch.Grants.TokenExchange.{token_exchange}
use agent_oauth_from_scratch.Models.{RegisteredClient, registered_client}
use agent_oauth_from_scratch.Platform.{Platform}
use agent_oauth_from_scratch.Routes.{
  Server, create_app, default_grant_registry, default_client_auth_registry, get_oauth_token,
}
use agent_oauth_from_scratch.Routes.Ledger.{IsAccounted, get_oauth_token-IsAccounted}
use agent_oauth_from_scratch.Storage.{
  Database, no_rows, get_key, claim, client_row, get_client, upsert_client,
}
use agent_oauth_from_scratch.Storage.Clients.{get_client-upsert_client}
use agent_oauth_from_scratch.Examples.Data.{platform, settings, key, draws, worker}

abbrev pub server_on : Platform → Server
server_on p = record {
  platform = p;
  settings = settings;
  signing_key = key;
  grants = record {
    grants =
        client_credentials
        ∷ token_exchange p (record {
          verifier = record { issuer = settings.issuer; signing_key = key };
          maximum_depth = settings.max_delegation_depth;
        })
        ∷ [];
  };
  auth_methods = record {
    methods =
        client_secret_post p
        ∷ private_key_jwt p (record {
          issuer = settings.issuer;
          token_endpoint = "https://as.example/oauth/token";
          server_key = key;
        })
        ∷ [];
  };
}

abbrev pub server : Server
server = server_on platform

pub made_on : (p : Platform) → create_app p settings key ≡ ok (server_on p)
unfolding create_app default_grant_registry default_client_auth_registry Grants.grant_registry
    Auth.client_auth_registry
made_on p = refl

pub made : create_app platform settings key ≡ ok server
made = made_on platform

abbrev pub request : Request
request = record {
  content_type = "application/x-www-form-urlencoded";
  form =
      ("grant_type", text "client_credentials")
      ∷ ("client_id", text "worker-app")
      ∷ ("client_secret", text "hunter2")
      ∷ [];
}

abbrev pub stored : Database
stored = record no_rows {
  clients = worker ∷ [];
  client_keys = record { client_id = "worker-app"; kid = "c1"; public_jwk = end } ∷ [];
}

get_oauth_token-IsAccounted_example :
    IsAccounted platform key [] (get_oauth_token server draws request stored)
get_oauth_token-IsAccounted_example =
    get_oauth_token-IsAccounted platform settings key server made draws request stored

abbrev form : TokenForm
form = record {
  fields =
      ("grant_type", "client_credentials")
      ∷ ("client_id", "worker-app")
      ∷ ("client_secret", "hunter2")
      ∷ [];
}

is_read : read_token_form platform request ≡ ok form
unfolding read_token_form getlist require Forms.get
is_read = refl

read_token_form-get_example :
    (Forms.get form "client_id" ≡ some "worker-app")
    ↔ (getlist request.form "client_id" ≡ text "worker-app" ∷ [])
read_token_form-get_example =
    read_token_form-get platform request form (λ names name. refl) is_read "client_id" "worker-app"

-- An assertion of the worker's client, good for a minute.
abbrev pub assertion_claims : Fields
assertion_claims = field "iss" (str "worker-app") (
    field "sub" (str "worker-app") (
      field "aud" (str "https://as.example")
        (field "jti" (str "a1") (field "exp" (int (pos 1900000060)) end))))

abbrev pub signing_platform : Platform
signing_platform = record platform {
  unverified_header = λ token. some (field "alg" (str "ES256") (field "kid" (str "c1") end));
  decode = λ now key checks token. if token == "assertion" then some assertion_claims else none;
  jwk_key = λ jwk. some (record { x = 1; y = 2 });
}

abbrev method : PrivateKeyJwt
method = record {
  issuer = "https://as.example";
  token_endpoint = "https://as.example/oauth/token";
  server_key = key;
}

abbrev presented : PresentedCredential
presented = record {
  client_id = "worker-app";
  method = "private_key_jwt";
  secret = none;
  assertion = some "assertion";
}

accepted :
    (verify_assertion signing_platform method draws presented (some worker) stored).0 ≡ ok true
unfolding verify_assertion get_key claim claims_are_acceptable replay_key audience_accepted get item
    from_timestamp
accepted = refl

verify_assertion_iff_example :
    ((verify_assertion signing_platform method draws presented (some worker) stored).0 ≡ ok true)
    ↔ ((owner : RegisteredClient) × (some worker ≡ some owner)
        × IsAccepted signing_platform method draws "assertion" owner stored
            (verify_assertion signing_platform method draws presented (some worker) stored).1)
verify_assertion_iff_example =
    verify_assertion_iff signing_platform method draws presented (some worker) stored

get_client-upsert_client_example :
    (((upsert_client worker >> get_client "worker-app") stored).0 ≡ (
      if "worker-app" == "worker-app"
      then ok (some (client_row worker))
      else (get_client "worker-app" stored).0))
    × ((s : String)
        → contains (client_row worker).allowed_scopes s ≡ contains worker.allowed_scopes s)
    × ((s : String)
        → contains (client_row worker).allowed_audiences s ≡ contains worker.allowed_audiences s)
unfolding registered_client
get_client-upsert_client_example = get_client-upsert_client worker "worker-app" stored refl

abbrev by_secret : PresentedCredential
by_secret = record {
  client_id = "worker-app";
  method = "client_secret_post";
  secret = some "hunter2";
  assertion = none;
}

authenticate_secret_iff_example :
    ((authenticate draws by_secret (client_secret_post platform) stored).0 ≡ ok worker) ↔ (
      ((get_client "worker-app" stored).0 ≡ ok (some worker))
      × (hash : String) × (some "hunter2" ≡ some hash)
      × (platform.argon_verify hash "hunter2" ≡ some true))
authenticate_secret_iff_example = authenticate_secret_iff platform draws by_secret stored worker

authenticate_secret_ends_example :
    Answers platform "hunter2"
      (some worker)
      stored
      (authenticate draws by_secret (client_secret_post platform) stored)
unfolding get_client
authenticate_secret_ends_example =
    authenticate_secret_ends platform draws by_secret stored (some worker) refl
