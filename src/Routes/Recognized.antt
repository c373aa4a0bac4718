-- ===== src/Routes/Recognized.antt =====
-- src/auth and services/clients.py, as the token endpoint calls them: a request with an identifier and a
-- secret.
use agent_oauth_from_scratch.Shared.{
  ◌≡◌, refl, sym, ap, ◌∙◌, String, true, none, some, [], ◌∷◌, inl, inr,
}
use agent_oauth_from_scratch.Outcome.{Outcome, ok, ok-injective}
use agent_oauth_from_scratch.Config.{Settings, url_for}
use agent_oauth_from_scratch.Auth
use agent_oauth_from_scratch.Auth.Base.{PresentedCredential}
use agent_oauth_from_scratch.Auth.SecretPost.{secret_post_name, client_secret_post, extract_secret}
use agent_oauth_from_scratch.Auth.Assertion.{extract_assertion}
use agent_oauth_from_scratch.Auth.PrivateKeyJwt.{private_key_jwt}
use agent_oauth_from_scratch.Auth.Clients.{authenticate}
use agent_oauth_from_scratch.Auth.Clients.Secrets.{
  authenticate_secret_iff, authenticate_secret_ends,
}
use agent_oauth_from_scratch.Forms
use agent_oauth_from_scratch.Forms.{
  Request, TokenForm, read_token_form, require, present, grant_type,
}
use agent_oauth_from_scratch.Forms.Given.{
  IsGiven, require-IsGiven, present-IsGiven, present_of_none,
}
use agent_oauth_from_scratch.Grants
use agent_oauth_from_scratch.Grants.ClientCredentials.{client_credentials}
use agent_oauth_from_scratch.Grants.TokenExchange.{token_exchange}
use agent_oauth_from_scratch.Models.{RegisteredClient, SigningKey}
use agent_oauth_from_scratch.Platform.{Platform, Draws}
use agent_oauth_from_scratch.Routes.{
  Server, create_app, default_grant_registry, default_client_auth_registry, identify,
}
use agent_oauth_from_scratch.Storage.{Database, get_client}

-- the credential of a form with an identifier and a secret
abbrev secret_of : String → String → PresentedCredential
secret_of client_id secret = record {
  client_id = client_id;
  method = secret_post_name;
  secret = some secret;
  assertion = none;
}

-- The form asks for a grant, names a client and its secret, and presents no assertion.
pub record IsSecretForm (form : TokenForm) (wanted client_id secret : String) : Type 0 where
  pub wants : Forms.get form "grant_type" ≡ some wanted
  pub names : IsGiven form "client_id" client_id
  pub tells : IsGiven form "client_secret" secret
  pub no_assertion : Forms.get form "client_assertion" ≡ none
  pub no_type : Forms.get form "client_assertion_type" ≡ none

module _ (platform : Platform) where
  -- The client is stored, and the secret is its own.
  pub record IsKnown (client : RegisteredClient) (secret : String) (db : Database) : Type 0 where
    pub hash : String
    pub stored : (get_client client.client_id db).0 ≡ ok (some client)
    pub has_hash : client.secret_hash ≡ some hash
    pub verified : platform.argon_verify hash secret ≡ some true

module _ (platform : Platform) (settings : Settings) (signing_key : SigningKey) where
  extract_secret_of :
      (form : TokenForm) (wanted client_id secret : String)
      → IsSecretForm form wanted client_id secret
      → extract_secret form ≡ ok (some (secret_of client_id secret))
  unfolding extract_secret
  extract_secret_of form wanted client_id secret f =
      rw
        (
          present-IsGiven form "client_id" client_id f.names,
          require-IsGiven form "client_id" client_id f.names,
          require-IsGiven form "client_secret" secret f.tells,
        )
        refl

  extract_assertion_of :
      (form : TokenForm) (wanted client_id secret : String)
      → IsSecretForm form wanted client_id secret
      → extract_assertion platform form ≡ ok none
  unfolding extract_assertion
  extract_assertion_of form wanted client_id secret f =
      rw
        (
          present_of_none form "client_assertion" f.no_assertion,
          present_of_none form "client_assertion_type" f.no_type,
        )
        refl

  -- the server that `create_app` makes with its defaults
  abbrev pub default_server : Server
  default_server = record {
    platform = platform;
    settings = settings;
    signing_key = signing_key;
    grants = record {
      grants =
          client_credentials
          ∷ token_exchange platform (record {
            verifier = record { issuer = settings.issuer; signing_key = signing_key };
            maximum_depth = settings.max_delegation_depth;
          })
          ∷ [];
    };
    auth_methods = record {
      methods =
          client_secret_post platform
          ∷ private_key_jwt platform (record {
            issuer = settings.issuer;
            token_endpoint = url_for settings "/oauth/token";
            server_key = signing_key;
          })
          ∷ [];
    };
  }

  pub created :
      (server : Server)
      → create_app platform settings signing_key ≡ ok server
      → server ≡ default_server
  unfolding create_app default_grant_registry default_client_auth_registry Grants.grant_registry
      Auth.client_auth_registry
  created server h = sym (ok-injective h)

  extracted :
      (form : TokenForm) (wanted client_id secret : String)
      → IsSecretForm form wanted client_id secret
      → Auth.extract default_server.auth_methods form
        ≡ ok (secret_of client_id secret, client_secret_post platform)
  unfolding Auth.extract
  extracted form wanted client_id secret f =
      rw
        (
          extract_secret_of form wanted client_id secret f,
          extract_assertion_of form wanted client_id secret f,
        )
        refl

  authenticated :
      (draws : Draws) (client : RegisteredClient) (secret : String) (db : Database)
      → IsKnown platform client secret db
      → authenticate draws (secret_of client.client_id secret) (client_secret_post platform) db
        ≡ (ok client, db)
  authenticated draws client secret db k =
      let good =
        (authenticate_secret_iff platform draws (secret_of client.client_id secret) db client).1
          (k.stored, k.hash, k.has_hash, k.verified) in
      elim (authenticate_secret_ends platform draws (secret_of client.client_id secret) db
        (some client) k.stored) [
          | inl (found, same, ends) ↦
              ends
              ∙ ap (λ (r : Outcome RegisteredClient). (r, db)) (sym (ap (λ r. r.0) ends) ∙ good)
          | inr (inl refused) ↦ absurd (cc (sym (ap (λ r. r.0) refused) ∙ good))
          | inr (inr (unread, failed)) ↦ absurd (cc (sym (ap (λ r. r.0) failed) ∙ good))
        ]

  pub identified :
      (draws : Draws) (form : TokenForm) (wanted : String) (client : RegisteredClient)
      (secret : String) (db : Database)
      → IsSecretForm form wanted client.client_id secret
      → IsKnown platform client secret db
      → identify default_server draws form db ≡ (ok client, db)
  unfolding identify
  identified draws form wanted client secret db f k =
      rw (extracted form wanted client.client_id secret f) (authenticated draws client secret db k)
