-- ===== src/Grants/Lineage.antt =====
-- The tokens that descend from a root token: it is issued for the client credentials grant of
-- src/grants/client_credentials.py, and each of the others for an exchange of
-- src/grants/token_exchange.py, whose subject token is the one before it and whose actor token is
-- some other token of this server.
pub mod Reading
pub mod Rooted
pub mod Exchanged
pub mod Heirs
use agent_oauth_from_scratch.Shared.{ℕ, zero, suc, String, ◌≡◌, some}
use agent_oauth_from_scratch.Outcome.{ok}
use agent_oauth_from_scratch.Value.{Fields, ℤ}
use agent_oauth_from_scratch.Value.Wire.{IsReadBack}
use agent_oauth_from_scratch.Config.{Settings}
use agent_oauth_from_scratch.Forms.{TokenForm}
use agent_oauth_from_scratch.Models.{RegisteredClient, registered_client, SigningKey}
use agent_oauth_from_scratch.Platform.{Platform, Draws}
use agent_oauth_from_scratch.Storage.{Database}
use agent_oauth_from_scratch.Grants.Base.{GrantResult}
use agent_oauth_from_scratch.Grants.ClientCredentials.{resolve_credentials}
use agent_oauth_from_scratch.Grants.Exchange.{derive}
use agent_oauth_from_scratch.Pipeline.{IssuedToken}
use agent_oauth_from_scratch.Pipeline.Issuing.{IsIssued}

module _ (platform : Platform) (settings : Settings) (signing_key : SigningKey)
    (maximum_depth : ℤ) where
  -- By the claims that were signed for the root token and for the descendant, and by the number of
  -- exchanges between them.
  pub data Lineage : Fields → Fields → ℕ → Type 0 where
    rooted :
        (draws : Draws) (form : TokenForm) (client : RegisteredClient) (result : GrantResult)
        (db after : Database) (issued : IssuedToken)
        → registered_client client ≡ ok client
        → (resolve_credentials draws form (some client) db).0 ≡ ok result
        → (i : IsIssued platform settings signing_key draws result db after issued)
        → Lineage i.minted.claims i.minted.claims zero
    exchanged :
        {origin claims other actor_signed : Fields} {hops hops' : ℕ} (draws : Draws)
        (form : TokenForm) (client actor_client : RegisteredClient) (audience : String)
        (subject_claims actor_claims : Fields) (result : GrantResult) (db after : Database)
        (issued : IssuedToken)
        → Lineage origin claims hops
        → Lineage other actor_signed hops'
        → IsReadBack subject_claims claims
        → IsReadBack actor_claims actor_signed
        → derive platform maximum_depth form client audience subject_claims actor_claims
            actor_client
          ≡ ok result
        → (i : IsIssued platform settings signing_key draws result db after issued)
        → Lineage origin i.minted.claims (suc hops)
