-- ===== src/Routes/Statements/Brief.antt =====
-- api/routes.py: the statements of a token request.
use agent_oauth_from_scratch.Shared.{◌≡◌, Bool, true, false, Option, none, some}
use agent_oauth_from_scratch.Shared.Lists.{All}
use agent_oauth_from_scratch.Outcome.{ok, ok-injective}
use agent_oauth_from_scratch.Process.Follows.{
  Follows, lift-Follows, lift-Follows_of_ok, >>=-Follows, Follows-mono,
}
use agent_oauth_from_scratch.Auth
use agent_oauth_from_scratch.Auth.Clients.Statements.{IsBriefMethod, authenticate-Follows}
use agent_oauth_from_scratch.Auth.Presented.{extract-All}
use agent_oauth_from_scratch.Auth.SecretPost.{verify_post_steps}
use agent_oauth_from_scratch.Auth.PrivateKeyJwt.Statements.{verify_assertion-Follows}
use agent_oauth_from_scratch.Config.{Settings}
use agent_oauth_from_scratch.Forms.{Request, TokenForm, read_token_form, grant_type}
use agent_oauth_from_scratch.Grants
use agent_oauth_from_scratch.Grants.Base.{Grant}
use agent_oauth_from_scratch.Grants.ClientCredentials.{credentials_steps}
use agent_oauth_from_scratch.Grants.Installed.{get-All}
use agent_oauth_from_scratch.Grants.TokenExchange.Statements.{resolve_exchange-Follows}
use agent_oauth_from_scratch.Models.{RegisteredClient, SigningKey}
use agent_oauth_from_scratch.Pipeline.Statements.{issue-Follows}
use agent_oauth_from_scratch.Platform.{Platform, Draws}
use agent_oauth_from_scratch.Storage.{Database}
use agent_oauth_from_scratch.Storage.Moves.{Uses, Moves, uses}
use agent_oauth_from_scratch.Routes.{
  Server, create_app, default_grant_registry, default_client_auth_registry,
}
use agent_oauth_from_scratch.Routes.Statements.{identify_steps, caller_steps, token_steps}

-- The grant makes at most one statement, and none that issues.
abbrev pub IsBriefGrant : Grant → Type 0
IsBriefGrant grant =
    (draws : Draws) (form : TokenForm) (client : Option RegisteredClient)
    → Follows Uses 1 (grant.resolve_steps draws form client)

credentials-Follows :
    (draws : Draws) (form : TokenForm) (client : Option RegisteredClient)
    → Follows Uses 1 (credentials_steps draws form client)
unfolding credentials_steps
credentials-Follows draws form none = tt
credentials-Follows draws form (some client) = tt

pub record IsBrief (server : Server) : Type 0 where
  pub grants : All IsBriefGrant server.grants.grants
  pub methods : All IsBriefMethod server.auth_methods.methods

pub create_app-IsBrief :
    (platform : Platform) (settings : Settings) (signing_key : SigningKey) (server : Server)
    → create_app platform settings signing_key ≡ ok server
    → IsBrief server
unfolding create_app default_grant_registry default_client_auth_registry Grants.grant_registry
    Auth.client_auth_registry verify_post_steps
create_app-IsBrief platform settings signing_key server made = rw (← ok-injective made) (record {
  grants = (credentials-Follows, (resolve_exchange-Follows platform _, tt));
  methods = (λ draws presented client. tt, (verify_assertion-Follows platform _, tt));
})

Uses-Moves : (db after : Database) → Uses db after → Moves db after
Uses-Moves db after u = uses u

module _ (server : Server) (brief : IsBrief server) where
  identify-Follows :
      (draws : Draws) (form : TokenForm) → Follows Uses 3 (identify_steps server draws form)
  unfolding identify_steps
  identify-Follows draws form =
      lift-Follows_of_ok Uses 3 (Auth.extract server.auth_methods form) _
        λ (presented, method) found.
          authenticate-Follows draws presented method
            (extract-All form IsBriefMethod server.auth_methods presented method brief.methods
              found).0

  pub caller-Follows :
      (draws : Draws) (form : TokenForm) (needed : Bool)
      → Follows Uses 3 (caller_steps server draws form needed)
  unfolding caller_steps
  caller-Follows draws form false = tt
  caller-Follows draws form true =
      >>=-Follows Uses 3 0 _ _ (identify-Follows draws form) λ client. tt

  -- A token request makes at most five statements.
  pub token_steps-Follows :
      (draws : Draws) (request : Request) → Follows Moves 5 (token_steps server draws request)
  unfolding token_steps
  token_steps-Follows draws request =
      lift-Follows Moves 5 (read_token_form server.platform request) _ λ form.
        lift-Follows Moves 5 (grant_type form) _ λ name.
          lift-Follows_of_ok Moves 5 (Grants.get server.grants name) _ λ grant found.
            >>=-Follows Moves 3 2 _ _
              (Follows-mono Uses Moves 3 _ Uses-Moves
                (caller-Follows draws form grant.requires_client_auth))
              λ client.
                >>=-Follows Moves 1 1 _ _
                  (Follows-mono Uses Moves 1 _ Uses-Moves (
                    (get-All IsBriefGrant server.grants name grant brief.grants found).1 draws form
                      client))
                  λ result.
                    issue-Follows server.platform server.settings server.signing_key draws result
