-- ===== src/Examples/Raced.antt =====
-- One client assertion, sent twice at the same time, and one sent with a client identifier beside it.
use agent_oauth_from_scratch.Shared.{
  ℕ, ◌+◌, ◌*◌, suc, ◌≤◌, ◌≡◌, refl, some, List, [], ◌∷◌, ◌==◌, map, arith,
}
use agent_oauth_from_scratch.Outcome.{ok, OauthError}
use agent_oauth_from_scratch.Process.{◌>>=◌}
use agent_oauth_from_scratch.Value.{get, put, has, update, item}
use agent_oauth_from_scratch.Value.Times.{later, from_timestamp, epoch, second}
use agent_oauth_from_scratch.Auth
use agent_oauth_from_scratch.Auth.Assertion.{
  extract_assertion, unverified_subject, claims_are_acceptable, replay_key, audience_accepted,
}
use agent_oauth_from_scratch.Auth.Clients.Statements.{authenticate_steps}
use agent_oauth_from_scratch.Auth.PrivateKeyJwt.{verify_assertion_steps}
use agent_oauth_from_scratch.Auth.SecretPost.{extract_secret}
use agent_oauth_from_scratch.Forms
use agent_oauth_from_scratch.Forms.{
  Request, TokenForm, text, read_token_form, getlist, require, present, grant_type,
}
use agent_oauth_from_scratch.Grants
use agent_oauth_from_scratch.Grants.ClientCredentials.{credentials_steps}
use agent_oauth_from_scratch.Models.{registered_client}
use agent_oauth_from_scratch.Pipeline.{check_identity_is_usable, issued_claims}
use agent_oauth_from_scratch.Pipeline.Statements.{record_token_steps, issue_steps}
use agent_oauth_from_scratch.Platform.{Platform}
use agent_oauth_from_scratch.Routes.{
  Server, Response, success, failure, server_error, respond, token_response, get_oauth_token,
}
use agent_oauth_from_scratch.Routes.Conflict.{get_oauth_token-refuses_both}
use agent_oauth_from_scratch.Routes.Statements.{token_steps}
use agent_oauth_from_scratch.Scopes.{attenuate, parse_scope}
use agent_oauth_from_scratch.Shared.Words.{join}
use agent_oauth_from_scratch.Storage.{get_client, get_key, claim, record_issuance, purge_expired}
use agent_oauth_from_scratch.Tokens.{mint}
use agent_oauth_from_scratch.Concurrent.{
  Event, arrive, turn, write, purges, settle, pick, proceed, do_write, happen, serve, idle,
}
use agent_oauth_from_scratch.Concurrent.Credit.{tokens}
use agent_oauth_from_scratch.Concurrent.Single.{others, serve-once}
use agent_oauth_from_scratch.Examples.Data.{settings, key, draws}
use agent_oauth_from_scratch.Examples.Requests.{
  server_on, made_on, stored, signing_platform, assertion_claims,
}
use agent_oauth_from_scratch.Examples.Concurrently.{draws_again}

-- what the signed text says can be read before it is verified
abbrev raced_platform : Platform
raced_platform = record signing_platform { unverified_claims = λ token. some assertion_claims }

abbrev raced_server : Server
raced_server = server_on raced_platform

abbrev signed_request : Request
signed_request = record {
  content_type = "application/x-www-form-urlencoded";
  form =
      ("grant_type", text "client_credentials")
      ∷ ("client_assertion_type", text "urn:ietf:params:oauth:client-assertion-type:jwt-bearer")
      ∷ ("client_assertion", text "assertion")
      ∷ [];
}

-- Both requests look up the client and the key before either claims the identifier.
abbrev race : List Event
race =
    arrive draws signed_request
    ∷ arrive draws_again signed_request
    ∷ turn 1
    ∷ turn 1
    ∷ turn 1
    ∷ write (purges 5)
    ∷ turn 1
    ∷ turn 0
    ∷ turn 0
    ∷ turn 0
    ∷ turn 0
    ∷ []

raced_key :
    replay_key raced_platform assertion_claims
    ≡ ok ("worker-app", "a1", (1900000060 + epoch) * second)
unfolding replay_key get item from_timestamp
raced_key = refl

serve-once_example :
    tokens (serve raced_server race (idle stored)).answered
    ≤ suc (others raced_server "assertion" race)
serve-once_example =
    serve-once raced_platform settings key raced_server (made_on raced_platform) "assertion"
      assertion_claims "worker-app" "a1" ((1900000060 + epoch) * second)
      (λ now key found h. ground arith) raced_key race stored
      (tt, (tt, (tt, (tt, (tt, (omega arith, (tt, (tt, (tt, (tt, (tt, tt)))))))))))

abbrev status_of : Response → ℕ
status_of (success body) = 200
status_of (failure status error description challenge) = status
status_of server_error = 500

one_wins : map status_of (serve raced_server race (idle stored)).answered ≡ 401 ∷ 200 ∷ []
unfolding serve happen settle pick proceed do_write token_steps authenticate_steps credentials_steps
    verify_assertion_steps issue_steps record_token_steps ◌>>=◌ get_client get_key claim
    registered_client purge_expired record_issuance respond token_response read_token_form getlist
    require present grant_type Forms.get Grants.get Auth.extract extract_secret extract_assertion
    unverified_subject claims_are_acceptable audience_accepted replay_key parse_scope attenuate join
    issued_claims mint get put has update item from_timestamp check_identity_is_usable later
one_wins = refl

abbrev named_request : Request
named_request = record signed_request {
  form = ("client_id", text "worker-app") ∷ signed_request.form;
}

abbrev named_form : TokenForm
named_form = record {
  fields =
      ("client_id", "worker-app")
      ∷ ("grant_type", "client_credentials")
      ∷ ("client_assertion_type", "urn:ietf:params:oauth:client-assertion-type:jwt-bearer")
      ∷ ("client_assertion", "assertion")
      ∷ [];
}

named_is_read : read_token_form raced_platform named_request ≡ ok named_form
unfolding read_token_form getlist require Forms.get
named_is_read = refl

-- The identifier is the one in the assertion.
get_oauth_token-refuses_both_example :
    (e : OauthError) × (get_oauth_token raced_server draws named_request stored
      ≡ (failure 400 e.error e.description (e.error == "invalid_client"), stored))
unfolding Forms.get
get_oauth_token-refuses_both_example =
    get_oauth_token-refuses_both raced_platform settings key raced_server (made_on raced_platform)
      draws named_request named_form "worker-app" "assertion" stored named_is_read refl refl
