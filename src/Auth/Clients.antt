-- ===== src/Auth/Clients.antt =====
-- services/clients.py: the client is looked up, and the method judges the proof.
pub mod Proof
pub mod Secrets
pub mod Statements
use agent_oauth_from_scratch.Shared.{String, Bool, true, false, Option, none, some, List}
use agent_oauth_from_scratch.Outcome.{ok, raised, uncaught, refuse}
use agent_oauth_from_scratch.Exec.{Exec, pure, lift, ◌>>=◌}
use agent_oauth_from_scratch.Models.{RegisteredClient}
use agent_oauth_from_scratch.Platform.{Draws}
use agent_oauth_from_scratch.Storage.{Database, get_client, all_clients}
use agent_oauth_from_scratch.Auth.Base.{PresentedCredential, ClientAuthMethod}

-- the test of the proof, and the assertion that there is a client
proven : Bool → Option RegisteredClient → Exec Database RegisteredClient
proven false client = lift (refuse "invalid_client" "client authentication failed" 401)
proven true none = lift (raised uncaught)
proven true (some client) = pure client

-- `ClientRegistry.authenticate`
unfoldable pub authenticate :
    Draws → PresentedCredential → ClientAuthMethod → Exec Database RegisteredClient
unfolding proven
authenticate draws presented method = do
  client ← get_client presented.client_id
  good ← method.verify draws presented client
  proven good client

-- `ClientRegistry.all`
abbrev pub all : (String → String → Bool) → Exec Database (List RegisteredClient)
all collates = all_clients collates
