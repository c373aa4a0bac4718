-- ===== src/Auth/Clients/Proof.antt =====
-- services/clients.py, as far as the table of issued credentials is concerned.
use agent_oauth_from_scratch.Shared.{refl, Bool, true, false, Option, none, some}
use agent_oauth_from_scratch.Models.{RegisteredClient}
use agent_oauth_from_scratch.Platform.{Draws}
use agent_oauth_from_scratch.Storage.{get_client}
use agent_oauth_from_scratch.Storage.Keeping.{Keeps, bind-Keeps, get_client-Keeps}
use agent_oauth_from_scratch.Auth.Base.{PresentedCredential, ClientAuthMethod}
use agent_oauth_from_scratch.Auth.Clients.{authenticate, proven}

abbrev pub IsKeepingMethod : ClientAuthMethod → Type 0
IsKeepingMethod method =
    (draws : Draws) (presented : PresentedCredential) (client : Option RegisteredClient)
    → Keeps (method.verify draws presented client)

proven-Keeps : (good : Bool) (client : Option RegisteredClient) → Keeps (proven good client)
unfolding proven
proven-Keeps false client db = refl
proven-Keeps true none db = refl
proven-Keeps true (some client) db = refl

pub authenticate-Keeps :
    (draws : Draws) (presented : PresentedCredential) (method : ClientAuthMethod)
    → IsKeepingMethod method
    → Keeps (authenticate draws presented method)
unfolding authenticate
authenticate-Keeps draws presented method keeps =
    bind-Keeps (get_client presented.client_id) _ (get_client-Keeps presented.client_id) λ client.
      bind-Keeps (method.verify draws presented client) _ (keeps draws presented client)
        λ good. proven-Keeps good client
