-- ===== src/Examples/Granted.antt =====
-- A request for three scopes, of which the client may have two, and one of a suspended client.
use agent_oauth_from_scratch.Shared.{◌≡◌, refl, true, none, some, [], ◌∷◌, arith}
use agent_oauth_from_scratch.Shared.Words.{join}
use agent_oauth_from_scratch.Outcome.{ok}
use agent_oauth_from_scratch.Forms
use agent_oauth_from_scratch.Forms.{Request, TokenForm, text, getlist, require, read_token_form}
use agent_oauth_from_scratch.Models.{suspended, RegisteredClient, registered_client}
use agent_oauth_from_scratch.Routes.{success, failure, get_oauth_token}
use agent_oauth_from_scratch.Routes.Recognized.{IsSecretForm, IsKnown}
use agent_oauth_from_scratch.Routes.Granted.{get_oauth_token-grants, get_oauth_token-suspends}
use agent_oauth_from_scratch.Pipeline.Returning.{root_token}
use agent_oauth_from_scratch.Scopes.{attenuate, parse_scope}
use agent_oauth_from_scratch.Storage.{Database, get_client}
use agent_oauth_from_scratch.Examples.Data.{platform, settings, key, draws, worker}
use agent_oauth_from_scratch.Examples.Requests.{server, made, stored}

abbrev request : Request
request = record {
  content_type = "application/x-www-form-urlencoded";
  form =
      ("grant_type", text "client_credentials")
      ∷ ("client_id", text "worker-app")
      ∷ ("client_secret", text "hunter2")
      ∷ ("scope", text "read admin send")
      ∷ [];
}

abbrev form : TokenForm
form = record {
  fields =
      ("grant_type", "client_credentials")
      ∷ ("client_id", "worker-app")
      ∷ ("client_secret", "hunter2")
      ∷ ("scope", "read admin send")
      ∷ [];
}

is_read : read_token_form platform request ≡ ok form
unfolding read_token_form getlist require Forms.get
is_read = refl

has_secret : IsSecretForm form "client_credentials" "worker-app" "hunter2"
unfolding Forms.get
has_secret = record {
  wants = refl;
  names = (refl, λ h. absurd (cc h));
  tells = (refl, λ h. absurd (cc h));
  no_assertion = refl;
  no_type = refl;
}

is_known : IsKnown platform worker "hunter2" stored
unfolding get_client registered_client
is_known = record { hash = "hunter2"; stored = refl; has_hash = refl; verified = refl }

get_oauth_token-grants_example :
    (get_oauth_token server draws request stored).0
    ≡ success (record {
      access_token =
          root_token platform settings key draws worker
            ("read" ∷ "admin" ∷ "send" ∷ [])
            (join ("read" ∷ "send" ∷ []))
            300;
      token_type = "Bearer";
      expires_in = 300;
      scope = some "read send";
      issued_token_type = none;
    })
unfolding Forms.get parse_scope attenuate join
get_oauth_token-grants_example =
    get_oauth_token-grants platform settings key server draws request form worker "hunter2"
      ("read" ∷ "send" ∷ []) 300 stored made is_read has_secret is_known refl refl refl
      (omega arith) (omega arith) refl

abbrev suspended_worker : RegisteredClient
suspended_worker = record worker { status = suspended }

abbrev with_suspended : Database
with_suspended = record stored { clients = suspended_worker ∷ [] }

suspended-IsKnown : IsKnown platform suspended_worker "hunter2" with_suspended
unfolding get_client registered_client
suspended-IsKnown = record { hash = "hunter2"; stored = refl; has_hash = refl; verified = refl }

get_oauth_token-suspends_example :
    get_oauth_token server draws request with_suspended
    ≡ (failure 401 "invalid_client" "client authentication failed" true, with_suspended)
get_oauth_token-suspends_example =
    get_oauth_token-suspends platform settings key server draws request form suspended_worker
      "hunter2" with_suspended made is_read has_secret suspended-IsKnown (λ h. absurd (cc h))
