-- ===== src/Routes/Conflict.antt =====
-- api/routes.py and src/auth: a token request with a client assertion and a client identifier beside it.
use agent_oauth_from_scratch.Shared.{◌≡◌, refl, ap, ◌∙◌, String, true, some, ◌==◌}
use agent_oauth_from_scratch.Outcome.{Outcome, ok, OauthError}
use agent_oauth_from_scratch.Exec.{pure, ◌>>=◌}
use agent_oauth_from_scratch.Exec.Refused.{IsRefused, lift-IsRefused, >>=-IsRefused}
use agent_oauth_from_scratch.Auth
use agent_oauth_from_scratch.Auth.Assertion.Presenting.{
  extract_assertion-eq-ok, extract_assertion-IsPolite,
}
use agent_oauth_from_scratch.Auth.Presented.{extract-IsPolite, extract-ne-ok}
use agent_oauth_from_scratch.Auth.SecretPost.Presenting.{
  extract_secret-eq-ok, extract_secret-IsPolite,
}
use agent_oauth_from_scratch.Config.{Settings}
use agent_oauth_from_scratch.Forms
use agent_oauth_from_scratch.Forms.{Request, TokenForm, read_token_form, grant_type}
use agent_oauth_from_scratch.Forms.Given.{grant_type_of}
use agent_oauth_from_scratch.Forms.Reading.{read_token_form-grant_type}
use agent_oauth_from_scratch.Grants
use agent_oauth_from_scratch.Grants.Base.{Grant}
use agent_oauth_from_scratch.Grants.Installed.{get-All, get-IsPolite}
use agent_oauth_from_scratch.Models.{SigningKey}
use agent_oauth_from_scratch.Pipeline.{IssuedToken, issue}
use agent_oauth_from_scratch.Platform.{Platform, Draws}
use agent_oauth_from_scratch.Routes.{
  Server, Response, failure, respond, create_app, identify, caller, grant_token, get_oauth_token,
}
use agent_oauth_from_scratch.Routes.Recognized.{default_server, created}
use agent_oauth_from_scratch.Storage.{Database}

module _ (platform : Platform) (settings : Settings) (signing_key : SigningKey) (form : TokenForm)
    (client_id assertion : String) (named : Forms.get form "client_id" ≡ some client_id)
    (there : Forms.get form "client_assertion" ≡ some assertion) where
  identify-IsRefused :
      (draws : Draws) (db : Database)
      → IsRefused (identify (default_server platform settings signing_key) draws form) db
  unfolding identify
  identify-IsRefused draws db =
      let server = default_server platform settings signing_key in
      lift-IsRefused (Auth.extract server.auth_methods form) _ db
        (extract-IsPolite form server.auth_methods (
          extract_secret-IsPolite form client_id named,
          (extract_assertion-IsPolite platform form assertion there, tt),
        ))
        λ found h. absurd (
          extract-ne-ok form _ _ found (extract_secret-eq-ok form client_id named)
            (λ q e.
              let (p, is_some, given) = extract_assertion-eq-ok platform form assertion q there e in
              (p, is_some))
            h)

  caller-IsRefused :
      (draws : Draws) (db : Database)
      → IsRefused (caller (default_server platform settings signing_key) draws form true) db
  unfolding caller
  caller-IsRefused draws db =
      >>=-IsRefused (identify (default_server platform settings signing_key) draws form)
        (λ client. pure (some client)) db (identify-IsRefused draws db)

  grant_token-IsRefused :
      (draws : Draws) (request : Request) (db : Database)
      → read_token_form platform request ≡ ok form
      → IsRefused (grant_token (default_server platform settings signing_key) draws request) db
  unfolding grant_token
  grant_token-IsRefused draws request db readable =
      let server = default_server platform settings signing_key in
      let (given, typed) = read_token_form-grant_type platform request form readable in
      rw (readable, grant_type_of form given typed)
        (lift-IsRefused (Grants.get server.grants given) _ db (get-IsPolite server.grants given)
          λ grant found.
            rw
              (get-All (λ (g : Grant). g.requires_client_auth ≡ true) server.grants given grant
                (refl, (refl, tt)) found).1
              (>>=-IsRefused (caller server draws form true)
                (λ client. do
                  result ← grant.resolve draws form client
                  issue platform settings signing_key draws result)
                db (caller-IsRefused draws db)))

-- If the server was made with the default grants and methods, a request that can be read and that
-- has both a client identifier and a client assertion is refused with status 400, whether the two
-- agree or not, and nothing is written.
pub get_oauth_token-refuses_both :
    (platform : Platform) (settings : Settings) (signing_key : SigningKey) (server : Server)
    → create_app platform settings signing_key ≡ ok server
    → (draws : Draws) (request : Request) (form : TokenForm) (client_id assertion : String)
      (db : Database)
    → read_token_form platform request ≡ ok form
    → Forms.get form "client_id" ≡ some client_id
    → Forms.get form "client_assertion" ≡ some assertion
    → (e : OauthError) × (get_oauth_token server draws request db
        ≡ (failure 400 e.error e.description (e.error == "invalid_client"), db))
unfolding get_oauth_token respond
get_oauth_token-refuses_both platform settings signing_key server made draws request form client_id
      assertion db readable named there =
    let (e, ends, polite) =
      grant_token-IsRefused platform settings signing_key form client_id assertion named there draws
        request db readable in
    let answer : Outcome IssuedToken × Database → Response × Database = λ r. (respond r.0, r.1) in
    (
      e,
      ap (λ (s : Server). get_oauth_token s draws request db)
            (created platform settings signing_key server made)
          ∙ ap answer ends
          ∙ ap (λ n. (failure n e.error e.description (e.error == "invalid_client"), db)) polite,
    )
