-- ===== src/Auth/Clients/Statements.antt =====
-- services/clients.py, `authenticate`, statement by statement.
use agent_oauth_from_scratch.Shared.{Bool, true, false, Option, none, some}
use agent_oauth_from_scratch.Outcome.{Outcome, ok, raised, uncaught, refuse}
use agent_oauth_from_scratch.Process.{Process, lift, statement, ◌>>=◌}
use agent_oauth_from_scratch.Process.Alone.{Refines, lift-Refines, statement-Refines, >>=-Refines}
use agent_oauth_from_scratch.Process.Gated.{Gated, Fails, Denies, rest-Gated, >>=-Gated}
use agent_oauth_from_scratch.Process.Follows.{Follows, statement-Follows, >>=-Follows}
use agent_oauth_from_scratch.Models.{RegisteredClient}
use agent_oauth_from_scratch.Platform.{Draws}
use agent_oauth_from_scratch.Storage.{Database, get_client}
use agent_oauth_from_scratch.Storage.Moves.{Uses, get_client-Uses}
use agent_oauth_from_scratch.Auth.Base.{PresentedCredential, ClientAuthMethod}
use agent_oauth_from_scratch.Auth.Clients.{authenticate, proven}

-- the test of the proof, and the assertion that there is a client
judged : Bool → Option RegisteredClient → Outcome RegisteredClient
judged false client = refuse "invalid_client" "client authentication failed" 401
judged true none = raised uncaught
judged true (some client) = ok client

unfoldable pub authenticate_steps :
    Draws → PresentedCredential → ClientAuthMethod → Process Database RegisteredClient
unfolding judged
authenticate_steps draws presented method = do
  client ← statement (get_client presented.client_id)
  good ← method.verify_steps draws presented client
  lift (judged good client)

proven-Refines :
    (good : Bool) (client : Option RegisteredClient)
    → Refines (lift (judged good client)) (proven good client)
unfolding judged proven
proven-Refines false client = lift-Refines (judged false client)
proven-Refines true none = lift-Refines (judged true none)
proven-Refines true (some client) = lift-Refines (judged true (some client))

pub authenticate-Refines :
    (draws : Draws) (presented : PresentedCredential) (method : ClientAuthMethod)
    → Refines (authenticate_steps draws presented method) (authenticate draws presented method)
unfolding authenticate_steps authenticate
authenticate-Refines draws presented method =
    >>=-Refines _ _ _ _ (statement-Refines (get_client presented.client_id)) λ client.
      >>=-Refines _ _ _ _ (method.verify_alone draws presented client)
        λ good. proven-Refines good client

-- The method makes at most two statements, and none that issues.
abbrev pub IsBriefMethod : ClientAuthMethod → Type 0
IsBriefMethod method =
    (draws : Draws) (presented : PresentedCredential) (client : Option RegisteredClient)
    → Follows Uses 2 (method.verify_steps draws presented client)

pub authenticate-Follows :
    (draws : Draws) (presented : PresentedCredential) (method : ClientAuthMethod)
    → IsBriefMethod method
    → Follows Uses 3 (authenticate_steps draws presented method)
unfolding authenticate_steps
authenticate-Follows draws presented method brief =
    >>=-Follows Uses 1 2 _ _
      (statement-Follows Uses (get_client presented.client_id)
        (get_client-Uses presented.client_id))
      λ client. >>=-Follows Uses 2 0 _ _ (brief draws presented client) λ good. tt

judged-Fails :
    (good : Bool) (client : Option RegisteredClient) → Denies (ok good) → Fails (judged good client)
unfolding judged
judged-Fails false client bad = tt
judged-Fails true client bad = absurd bad

-- Where the method's proof is gated, so is the authentication.
pub authenticate-Gated :
    (R : Database → Database → Type 0) (draws : Draws) (presented : PresentedCredential)
    (method : ClientAuthMethod)
    → ((client : Option RegisteredClient)
        → Gated R Denies (method.verify_steps draws presented client))
    → Gated R Fails (authenticate_steps draws presented method)
unfolding authenticate_steps
authenticate-Gated R draws presented method guards =
    rest-Gated R Fails (λ e. tt) _ _
      λ client.
        >>=-Gated R Denies Fails (λ e. tt) _ _ (guards client)
          λ good bad. judged-Fails good client bad
