-- ===== src/Examples/Exchanged.antt =====
-- A whole exchange: the two tokens verify, and the clients of the planner and the worker are stored.
use agent_oauth_from_scratch.Shared.{
  ◌≡◌, ◌+◌, ◌*◌, arith, refl, some, none, [], ◌∷◌, ◌==◌, if◌then◌else◌,
}
use agent_oauth_from_scratch.Outcome.{ok}
use agent_oauth_from_scratch.Value.{pos, str, field, get, put, item, size_fields}
use agent_oauth_from_scratch.Value.Times.{from_timestamp, second}
use agent_oauth_from_scratch.Delegation.{
  depth, chain, declared_depth, task_of, tenant_of, nest, may_act_permits,
}
use agent_oauth_from_scratch.Forms
use agent_oauth_from_scratch.Forms.{TokenForm, Request, text, getlist, read_token_form, require}
use agent_oauth_from_scratch.Grants.Exchange.{
  required_audience, check_token_types, verify_presented, derive, check_may_act, agreed_tenant,
  next_depth, access_token_urn, exchange_grant_type,
}
use agent_oauth_from_scratch.Grants.TokenExchange.{
  TokenExchange, actor_client, exchange, resolve_exchange,
}
use agent_oauth_from_scratch.Grants.TokenExchange.Decided.{IsExchangeable, resolve_exchange_iff}
use agent_oauth_from_scratch.Models.{RegisteredClient, registered_client}
use agent_oauth_from_scratch.Shared.Words.{join}
use agent_oauth_from_scratch.Pipeline.Returning.{text_until}
use agent_oauth_from_scratch.Routes.{success, get_oauth_token}
use agent_oauth_from_scratch.Routes.Recognized.{IsSecretForm, IsKnown}
use agent_oauth_from_scratch.Routes.Exchanging.{get_oauth_token-exchanges}
use agent_oauth_from_scratch.Platform.{Platform}
use agent_oauth_from_scratch.Scopes.{parse_scope, attenuate}
use agent_oauth_from_scratch.Storage.{Database, no_rows, get_client}
use agent_oauth_from_scratch.Tokens.{token_header, verify_any_audience}
use agent_oauth_from_scratch.Examples.Requests.{server_on, made_on}
use agent_oauth_from_scratch.Examples.Data.{
  platform, settings, key, draws, subject_claims, actor_claims, worker, caller, result, now,
}

-- Two texts verify.
abbrev reading : Platform
reading = record platform {
  unverified_header = λ token. some (field "alg" (str "ES256") (token_header key));
  decode = λ now key checks token.
      if token == "subject"
      then some subject_claims
      else (if token == "actor" then some actor_claims else none);
}

abbrev grant : TokenExchange
grant = record {
  verifier = record { issuer = settings.issuer; signing_key = key };
  maximum_depth = pos 4;
}

abbrev full_form : TokenForm
full_form = record {
  fields =
      ("grant_type", exchange_grant_type)
      ∷ ("client_id", "planner-app")
      ∷ ("client_secret", "hunter3")
      ∷ ("scope", "read")
      ∷ ("audience", "https://api.example")
      ∷ ("subject_token", "subject")
      ∷ ("subject_token_type", access_token_urn)
      ∷ ("actor_token", "actor")
      ∷ ("actor_token_type", access_token_urn)
      ∷ [];
}

abbrev request : Request
request = record {
  content_type = "application/x-www-form-urlencoded";
  form =
      ("grant_type", text exchange_grant_type)
      ∷ ("client_id", text "planner-app")
      ∷ ("client_secret", text "hunter3")
      ∷ ("scope", text "read")
      ∷ ("audience", text "https://api.example")
      ∷ ("subject_token", text "subject")
      ∷ ("subject_token_type", text access_token_urn)
      ∷ ("actor_token", text "actor")
      ∷ ("actor_token_type", text access_token_urn)
      ∷ [];
}

abbrev planner_client : RegisteredClient
planner_client = record caller { secret_hash = some "hunter3" }

abbrev stored : Database
stored = record no_rows { clients = worker ∷ planner_client ∷ [] }

granted : (exchange reading grant draws full_form planner_client stored).0 ≡ ok result
unfolding exchange required_audience check_token_types verify_presented actor_client
    verify_any_audience get_client registered_client require derive check_may_act agreed_tenant
    next_depth may_act_permits declared_depth chain nest task_of tenant_of parse_scope get item
    size_fields from_timestamp Forms.get depth put
granted = refl

resolved :
    (resolve_exchange reading grant draws full_form (some planner_client) stored).0 ≡ ok result
unfolding resolve_exchange
resolved = granted

resolve_exchange_iff_example :
    (owner : RegisteredClient) × (some planner_client ≡ some owner)
    × IsExchangeable reading grant draws full_form owner stored
resolve_exchange_iff_example =
    (resolve_exchange_iff reading grant (λ a b same. same) draws full_form stored
        (some planner_client)).0
      (result, resolved)

is_read : read_token_form reading request ≡ ok full_form
unfolding read_token_form getlist require Forms.get
is_read = refl

has_secret : IsSecretForm full_form exchange_grant_type "planner-app" "hunter3"
unfolding Forms.get
has_secret = record {
  wants = refl;
  names = (refl, λ h. absurd (cc h));
  tells = (refl, λ h. absurd (cc h));
  no_assertion = refl;
  no_type = refl;
}

is_known : IsKnown reading planner_client "hunter3" stored
unfolding get_client registered_client
is_known = record { hash = "hunter3"; stored = refl; has_hash = refl; verified = refl }

get_oauth_token-exchanges_example :
    (get_oauth_token (server_on reading) draws request stored).0
    ≡ success (record {
      access_token = text_until reading settings key draws result "read" (now + 100 * second);
      token_type = "Bearer";
      expires_in = 100;
      scope = some "read";
      issued_token_type = some access_token_urn;
    })
unfolding attenuate join
get_oauth_token-exchanges_example =
    get_oauth_token-exchanges reading settings key (λ a b same. same) (server_on reading) draws
      request full_form planner_client "hunter3" result ("read" ∷ []) 300 stored (made_on reading)
      is_read has_secret is_known granted refl refl (omega arith) (omega arith) refl
