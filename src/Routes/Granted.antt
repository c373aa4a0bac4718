-- ===== src/Routes/Granted.antt =====
-- api/routes.py: the answers to a client credentials request with a client's own secret.
use agent_oauth_from_scratch.Shared.{
  ℕ, ◌+◌, ◌*◌, ◌≤◌, ◌≡◌, ◌≢◌, refl, ap, ◌∙◌, String, true, false, none, List, [], ◌∷◌, ◌==◌,
}
use agent_oauth_from_scratch.Shared.Lists.{any}
use agent_oauth_from_scratch.Shared.Words.{join}
use agent_oauth_from_scratch.Outcome.{Outcome, ok}
use agent_oauth_from_scratch.Value.{pos}
use agent_oauth_from_scratch.Value.Times.{second}
use agent_oauth_from_scratch.Config.{Settings}
use agent_oauth_from_scratch.Forms
use agent_oauth_from_scratch.Forms.{
  Request, TokenForm, read_token_form, require, present, grant_type,
}
use agent_oauth_from_scratch.Forms.Given.{grant_type_of}
use agent_oauth_from_scratch.Grants
use agent_oauth_from_scratch.Grants.ClientCredentials.{resolve_credentials}
use agent_oauth_from_scratch.Models.{active, RegisteredClient, SigningKey}
use agent_oauth_from_scratch.Pipeline.{IssuedToken, issue}
use agent_oauth_from_scratch.Pipeline.Guarantees.{issue_unusable}
use agent_oauth_from_scratch.Pipeline.Returning.{root_result, root_token, root_issue-returns}
use agent_oauth_from_scratch.Platform.{Platform, Draws}
use agent_oauth_from_scratch.Routes.{
  Server, success, failure, Response, or_none, create_app, grant_token, get_oauth_token, respond,
  token_response,
}
use agent_oauth_from_scratch.Scopes.{attenuate, parse_scope}
use agent_oauth_from_scratch.Storage.{Database, IssuanceRecord}
use agent_oauth_from_scratch.Tokens.Returning.{last_time}
use agent_oauth_from_scratch.Routes.Recognized.{
  IsSecretForm, IsKnown, default_server, created, identified,
}

module _ (platform : Platform) (settings : Settings) (signing_key : SigningKey) where
  -- Such a request reaches the pipeline with the result of the root grant.
  granted_by_issue :
      (draws : Draws) (request : Request) (form : TokenForm) (client : RegisteredClient)
      (secret : String) (db : Database)
      → read_token_form platform request ≡ ok form
      → IsSecretForm form "client_credentials" client.client_id secret
      → IsKnown platform client secret db
      → grant_token (default_server platform settings signing_key) draws request db
        ≡ issue platform settings signing_key draws
            (root_result draws client (parse_scope (Forms.get form "scope")))
            db
  unfolding grant_token Grants.get resolve_credentials
  granted_by_issue draws request form client secret db readable f k =
      rw
        (
          readable,
          grant_type_of form "client_credentials" f.wants,
          identified platform settings signing_key draws form "client_credentials" client secret db
              f k,
        )
        refl

  -- If the server was made with the default grants and methods, the form can be read and asks
  -- for the client credentials grant with an identifier and a secret, that client is stored and
  -- active, its hash verifies the secret, its scopes are attenuated to some, the lifetime in
  -- the settings is at least a second and ends within the range of a `datetime`, and the
  -- identifier that is drawn is new: the token endpoint answers with the token, its lifetime,
  -- and the granted scopes.
  pub get_oauth_token-grants :
      (server : Server) (draws : Draws) (request : Request) (form : TokenForm)
      (client : RegisteredClient) (secret : String) (granted : List String) (n : ℕ) (db : Database)
      → create_app platform settings signing_key ≡ ok server
      → read_token_form platform request ≡ ok form
      → IsSecretForm form "client_credentials" client.client_id secret
      → IsKnown platform client secret db
      → client.status ≡ active
      → attenuate (parse_scope (Forms.get form "scope")) (client.allowed_scopes ∷ []) ≡ ok granted
      → settings.access_token_ttl_seconds ≡ pos n
      → 1 ≤ n
      → draws.minted_at + n * second ≤ last_time
      → any (λ (row : IssuanceRecord). row.jti == draws.jti) db.issued_credentials ≡ false
      → (get_oauth_token server draws request db).0
        ≡ success (record {
          access_token =
              root_token platform settings signing_key draws client
                (parse_scope (Forms.get form "scope"))
                (join granted)
                n;
          token_type = "Bearer";
          expires_in = n;
          scope = or_none (join granted);
          issued_token_type = none;
        })
  unfolding get_oauth_token respond token_response
  get_oauth_token-grants server draws request form client secret granted n db made readable f k
        usable allowed ttl some_time fits fresh =
      let requested = parse_scope (Forms.get form "scope") in
      ap (λ (s : Server). (get_oauth_token s draws request db).0)
        (created platform settings signing_key server made)
      ∙ ap (λ r. respond r.0) (granted_by_issue draws request form client secret db readable f k)
      ∙ ap respond (
          root_issue-returns platform settings signing_key draws client requested granted n db
            usable allowed ttl some_time fits fresh)

  -- If the server was made with the default grants and methods, and a client that is stored and
  -- not active asks for the client credentials grant with its own identifier and secret: the
  -- endpoint answers `invalid_client`, status 401, with `WWW-Authenticate`, as for a wrong
  -- secret, and writes nothing.
  pub get_oauth_token-suspends :
      (server : Server) (draws : Draws) (request : Request) (form : TokenForm)
      (client : RegisteredClient) (secret : String) (db : Database)
      → create_app platform settings signing_key ≡ ok server
      → read_token_form platform request ≡ ok form
      → IsSecretForm form "client_credentials" client.client_id secret
      → IsKnown platform client secret db
      → client.status ≢ active
      → get_oauth_token server draws request db
        ≡ (failure 401 "invalid_client" "client authentication failed" true, db)
  unfolding get_oauth_token respond
  get_oauth_token-suspends server draws request form client secret db made readable f k inactive =
      let answer : Outcome IssuedToken × Database → Response × Database = λ r. (respond r.0, r.1) in
      ap (λ (s : Server). get_oauth_token s draws request db)
        (created platform settings signing_key server made)
      ∙ ap answer (granted_by_issue draws request form client secret db readable f k)
      ∙ ap answer (
          issue_unusable platform settings signing_key draws
            (root_result draws client (parse_scope (Forms.get form "scope"))) db inactive)
