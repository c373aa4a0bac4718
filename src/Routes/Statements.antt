-- ===== src/Routes/Statements.antt =====
-- api/routes.py: the token handler as a coroutine. It awaits the database, and other requests run
-- between its statements.
pub mod Brief
pub mod Accounted
pub mod Single
use agent_oauth_from_scratch.Shared.{Bool, true, false, Option, none, some}
use agent_oauth_from_scratch.Process.{Process, pure, lift, ◌>>=◌}
use agent_oauth_from_scratch.Process.Alone.{Refines, lift-Refines, >>=-Refines}
use agent_oauth_from_scratch.Auth
use agent_oauth_from_scratch.Auth.Clients.Statements.{authenticate_steps, authenticate-Refines}
use agent_oauth_from_scratch.Forms.{Request, TokenForm, read_token_form, grant_type}
use agent_oauth_from_scratch.Grants
use agent_oauth_from_scratch.Models.{RegisteredClient}
use agent_oauth_from_scratch.Pipeline.{IssuedToken}
use agent_oauth_from_scratch.Pipeline.Statements.{issue_steps, issue-Refines}
use agent_oauth_from_scratch.Platform.{Draws}
use agent_oauth_from_scratch.Storage.{Database}
use agent_oauth_from_scratch.Routes.{Server, identify, caller, grant_token}

module _ (server : Server) where
  pub identify_steps : Draws → TokenForm → Process Database RegisteredClient
  identify_steps draws form = do
    found ← lift (Auth.extract server.auth_methods form)
    authenticate_steps draws found.0 found.1

  pub caller_steps : Draws → TokenForm → Bool → Process Database (Option RegisteredClient)
  caller_steps draws form false = pure none
  caller_steps draws form true = do client ← identify_steps draws form; pure (some client)

  -- `get_oauth_token` up to the response, statement by statement
  unfoldable pub token_steps : Draws → Request → Process Database IssuedToken
  unfolding caller_steps identify_steps
  token_steps draws request = do
    form ← lift (read_token_form server.platform request)
    grant_type ← lift (grant_type form)
    grant ← lift (Grants.get server.grants grant_type)
    client ← caller_steps draws form grant.requires_client_auth
    result ← grant.resolve_steps draws form client
    issue_steps server.platform server.settings server.signing_key draws result

  identify-Refines :
      (draws : Draws) (form : TokenForm)
      → Refines (identify_steps draws form) (identify server draws form)
  unfolding identify_steps identify
  identify-Refines draws form =
      >>=-Refines _ _ _ _ (lift-Refines (Auth.extract server.auth_methods form))
        λ found. authenticate-Refines draws found.0 found.1

  caller-Refines :
      (draws : Draws) (form : TokenForm) (needed : Bool)
      → Refines (caller_steps draws form needed) (caller server draws form needed)
  unfolding caller_steps caller
  caller-Refines draws form false = lift-Refines _
  caller-Refines draws form true =
      >>=-Refines _ _ _ _ (identify-Refines draws form) λ client. lift-Refines _

  -- A request whose statements meet no other statement in between ends as the handler does as one
  -- action: with the same result, and with the same database.
  pub token_steps-Refines :
      (draws : Draws) (request : Request)
      → Refines (token_steps draws request) (grant_token server draws request)
  unfolding token_steps grant_token
  token_steps-Refines draws request =
      >>=-Refines _ _ _ _ (lift-Refines (read_token_form server.platform request)) λ form.
        >>=-Refines _ _ _ _ (lift-Refines (grant_type form)) λ name.
          >>=-Refines _ _ _ _ (lift-Refines (Grants.get server.grants name)) λ grant.
            >>=-Refines _ _ _ _ (caller-Refines draws form grant.requires_client_auth) λ client.
              >>=-Refines _ _ _ _ (grant.resolve_alone draws form client) λ result.
                issue-Refines server.platform server.settings server.signing_key draws result
