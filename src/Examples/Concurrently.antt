-- ===== src/Examples/Concurrently.antt =====
-- Two requests of one client at once: both are looked up before either issues.
use agent_oauth_from_scratch.Shared.{◌≤◌, ◌+◌, ◌*◌, ◌≡◌, refl, List, [], ◌∷◌, String, map}
use agent_oauth_from_scratch.Shared.Lists.{All, length}
use agent_oauth_from_scratch.Process.{◌>>=◌}
use agent_oauth_from_scratch.Value.{get, put, has, update}
use agent_oauth_from_scratch.Value.Times.{later}
use agent_oauth_from_scratch.Auth
use agent_oauth_from_scratch.Auth.Assertion.{extract_assertion}
use agent_oauth_from_scratch.Auth.Clients.Statements.{authenticate_steps}
use agent_oauth_from_scratch.Auth.SecretPost.{extract_secret, verify_post_steps}
use agent_oauth_from_scratch.Forms
use agent_oauth_from_scratch.Forms.{read_token_form, getlist, require, present, grant_type}
use agent_oauth_from_scratch.Grants
use agent_oauth_from_scratch.Grants.ClientCredentials.{credentials_steps}
use agent_oauth_from_scratch.Models.{registered_client}
use agent_oauth_from_scratch.Pipeline.{check_identity_is_usable, issued_claims}
use agent_oauth_from_scratch.Pipeline.Statements.{record_token_steps, issue_steps}
use agent_oauth_from_scratch.Routes.{
  Response, success, failure, server_error, respond, token_response,
}
use agent_oauth_from_scratch.Routes.Statements.{token_steps}
use agent_oauth_from_scratch.Scopes.{attenuate, parse_scope}
use agent_oauth_from_scratch.Shared.Words.{join}
use agent_oauth_from_scratch.Tokens.{mint}
use agent_oauth_from_scratch.Platform.{Draws}
use agent_oauth_from_scratch.Storage.{
  Database, no_rows, upsert_client, get_client, record_issuance, purge_expired,
}
use agent_oauth_from_scratch.Storage.Consistency.{IsConsistent, empty, upserts}
use agent_oauth_from_scratch.Concurrent.{
  System, Event, arrive, turn, write, purges, settle, pick, proceed, do_write, happen, serve, idle,
}
use agent_oauth_from_scratch.Concurrent.Accounted.{Accounts, serve-Accounts}
use agent_oauth_from_scratch.Concurrent.Consistent.{serve-IsConsistent}
use agent_oauth_from_scratch.Concurrent.Answered.{turns, arrivals, serve-answers}
use agent_oauth_from_scratch.Concurrent.Aged.{count_statements}
use agent_oauth_from_scratch.Examples.Data.{platform, settings, key, draws, worker}
use agent_oauth_from_scratch.Examples.Requests.{server, made, request, stored}

abbrev pub draws_again : Draws
draws_again = record draws { jti = "j2" }

-- The second request comes in before the first one's statement, and ends first.
abbrev events : List Event
events =
    arrive draws request
    ∷ arrive draws_again request
    ∷ turn 1
    ∷ write (purges 5)
    ∷ turn 1
    ∷ turn 0
    ∷ turn 0
    ∷ []

serve-Accounts_example :
    Accounts platform key
      (serve server events (idle stored)).answered
      stored
      (serve server events (idle stored)).database
serve-Accounts_example = serve-Accounts platform settings key server made events stored

abbrev seeded : Database
seeded = (upsert_client worker no_rows).1

serve-IsConsistent_example : IsConsistent (serve server events (idle seeded)).database
serve-IsConsistent_example =
    serve-IsConsistent platform settings key server made events seeded (upserts worker empty)

abbrev two_requests : List Event
two_requests = arrive draws request ∷ arrive draws_again request ∷ turn 1 ∷ []

-- both requests are under way, and the first one has made a statement
abbrev busy : System
busy = serve server two_requests (idle stored)

counted : count_statements server two_requests (idle stored) [] ≡ 1 ∷ 0 ∷ []
unfolding count_statements serve happen settle pick proceed do_write token_steps authenticate_steps
    credentials_steps verify_post_steps issue_steps record_token_steps ◌>>=◌ get_client
    registered_client purge_expired record_issuance respond token_response read_token_form getlist
    require present grant_type Forms.get Grants.get Auth.extract extract_secret extract_assertion
    parse_scope attenuate join issued_claims mint get put has update check_identity_is_usable later
counted = refl

serve-answers_example :
    All (λ n. n ≤ 4) (count_statements server two_requests (idle stored) [])
    × (length (count_statements server two_requests (idle stored) []) ≡ length busy.waiting)
    × (length busy.answered + length busy.waiting ≡ arrivals two_requests)
    × ((serve server (turns (5 * length busy.waiting)) busy).waiting ≡ [])
    × (length (serve server (turns (5 * length busy.waiting)) busy).answered
        ≡ arrivals two_requests)
serve-answers_example = serve-answers platform settings key server made two_requests stored

-- the token of a response
abbrev token_in : Response → String
token_in (success body) = body.access_token
token_in (failure status error description challenge) = error
token_in server_error = "server error"

overtaken : map token_in (serve server events (idle stored)).answered ≡ "ES256.j1" ∷ "ES256.j2" ∷ []
unfolding serve happen settle pick proceed do_write token_steps authenticate_steps credentials_steps
    verify_post_steps issue_steps record_token_steps ◌>>=◌ get_client registered_client
    purge_expired record_issuance respond token_response read_token_form getlist require present
    grant_type Forms.get Grants.get Auth.extract extract_secret extract_assertion parse_scope
    attenuate join issued_claims mint get put has update check_identity_is_usable later
overtaken = refl
