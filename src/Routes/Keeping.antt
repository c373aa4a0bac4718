-- ===== src/Routes/Keeping.antt =====
-- The token endpoint before its token is issued: nothing that it does touches the issued credentials.
use agent_oauth_from_scratch.Shared.{◌≡◌, refl, Bool, true, false, Option, none, some}
use agent_oauth_from_scratch.Shared.Lists.{All}
use agent_oauth_from_scratch.Outcome.{ok, ok-injective}
use agent_oauth_from_scratch.Auth
use agent_oauth_from_scratch.Auth.Clients.Proof.{IsKeepingMethod, authenticate-Keeps}
use agent_oauth_from_scratch.Auth.SecretPost.{verify_post}
use agent_oauth_from_scratch.Auth.Presented.{extract-All}
use agent_oauth_from_scratch.Auth.PrivateKeyJwt.Proof.{verify_assertion-Keeps}
use agent_oauth_from_scratch.Config.{Settings}
use agent_oauth_from_scratch.Forms.{TokenForm}
use agent_oauth_from_scratch.Grants
use agent_oauth_from_scratch.Grants.{GrantRegistry}
use agent_oauth_from_scratch.Grants.Base.{Grant}
use agent_oauth_from_scratch.Grants.ClientCredentials.{resolve_credentials}
use agent_oauth_from_scratch.Grants.TokenExchange.Reads.{resolve_exchange-Keeps}
use agent_oauth_from_scratch.Models.{RegisteredClient, SigningKey}
use agent_oauth_from_scratch.Platform.{Platform, Draws}
use agent_oauth_from_scratch.Storage.Keeping.{Keeps, bind-Keeps, lift-Keeps}
use agent_oauth_from_scratch.Routes.{
  Server, create_app, default_grant_registry, default_client_auth_registry, identify, caller,
}

abbrev pub IsKeepingGrant : Grant → Type 0
IsKeepingGrant grant =
    (draws : Draws) (form : TokenForm) (client : Option RegisteredClient)
    → Keeps (grant.resolve draws form client)

resolve_credentials-Keeps :
    (draws : Draws) (form : TokenForm) (client : Option RegisteredClient)
    → Keeps (resolve_credentials draws form client)
unfolding resolve_credentials
resolve_credentials-Keeps draws form none db = refl
resolve_credentials-Keeps draws form (some client) db = refl

-- What a server that `create_app` made is made of, as far as the table is concerned.
pub record IsDefault (platform : Platform) (settings : Settings) (signing_key : SigningKey)
    (server : Server) : Type 0 where
  pub grants : All IsKeepingGrant server.grants.grants
  pub methods : All IsKeepingMethod server.auth_methods.methods
  pub has_platform : server.platform ≡ platform
  pub has_settings : server.settings ≡ settings
  pub has_signing_key : server.signing_key ≡ signing_key

module _ (platform : Platform) (settings : Settings) (signing_key : SigningKey) where
  pub create_app-IsDefault :
      (server : Server)
      → create_app platform settings signing_key ≡ ok server
      → IsDefault platform settings signing_key server
  unfolding create_app default_grant_registry default_client_auth_registry Grants.grant_registry
      Auth.client_auth_registry verify_post
  create_app-IsDefault server made = rw (← ok-injective made) (record {
    grants = (resolve_credentials-Keeps, (resolve_exchange-Keeps platform _, tt));
    methods = (λ draws presented client db. refl, (verify_assertion-Keeps platform _, tt));
    has_platform = refl;
    has_settings = refl;
    has_signing_key = refl;
  })

module _ (server : Server) (methods : All IsKeepingMethod server.auth_methods.methods) where
  identify-Keeps : (draws : Draws) (form : TokenForm) → Keeps (identify server draws form)
  unfolding identify
  identify-Keeps draws form =
      lift-Keeps (Auth.extract server.auth_methods form) _ λ (presented, method) found.
        authenticate-Keeps draws presented method
          (extract-All form IsKeepingMethod server.auth_methods presented method methods found).0

  pub caller-Keeps :
      (draws : Draws) (form : TokenForm) (needed : Bool) → Keeps (caller server draws form needed)
  unfolding caller
  caller-Keeps draws form false db = refl
  caller-Keeps draws form true db =
      bind-Keeps (identify server draws form) _ (identify-Keeps draws form) (λ client db. refl) db
