-- ===== src/Routes/Exchanging.antt =====
-- api/routes.py: the answer to an exchange that is granted.
use agent_oauth_from_scratch.Shared.{
  ℕ, ◌+◌, ◌-◌, ◌*◌, ◌/◌, ◌≤◌, ◌≡◌, refl, ap, ◌∙◌, String, false, some, List, ◌==◌,
}
use agent_oauth_from_scratch.Shared.Lists.{any}
use agent_oauth_from_scratch.Shared.Words.{join}
use agent_oauth_from_scratch.Outcome.{ok}
use agent_oauth_from_scratch.Value.{end, pos}
use agent_oauth_from_scratch.Value.Times.{second}
use agent_oauth_from_scratch.Config.{Settings}
use agent_oauth_from_scratch.Delegation.Chain.{IsObjectId}
use agent_oauth_from_scratch.Forms.{Request, TokenForm, read_token_form}
use agent_oauth_from_scratch.Forms.Given.{grant_type_of}
use agent_oauth_from_scratch.Grants
use agent_oauth_from_scratch.Grants.Base.{GrantResult}
use agent_oauth_from_scratch.Grants.Exchange.{exchange_grant_type, access_token_urn}
use agent_oauth_from_scratch.Grants.Exchange.Derived.{derive-eq-ok}
use agent_oauth_from_scratch.Grants.TokenExchange.{TokenExchange, exchange, resolve_exchange}
use agent_oauth_from_scratch.Grants.TokenExchange.Decided.{exchange-eq-ok}
use agent_oauth_from_scratch.Models.{active, RegisteredClient, SigningKey}
use agent_oauth_from_scratch.Pipeline.{issue}
use agent_oauth_from_scratch.Pipeline.Returning.{end_of, text_until, issue-returns}
use agent_oauth_from_scratch.Platform.{Platform, Draws}
use agent_oauth_from_scratch.Routes.{
  Server, success, or_none, create_app, grant_token, get_oauth_token, respond, token_response,
}
use agent_oauth_from_scratch.Routes.Recognized.{
  IsSecretForm, IsKnown, default_server, created, identified,
}
use agent_oauth_from_scratch.Scopes.{attenuate}
use agent_oauth_from_scratch.Storage.{Database, IssuanceRecord}
use agent_oauth_from_scratch.Tokens.Returning.{last_time}

module _ (platform : Platform) (settings : Settings) (signing_key : SigningKey)
    (law : IsObjectId platform.object_id) where
  -- the exchange that the default registry has
  abbrev pub default_exchange : TokenExchange
  default_exchange = record {
    verifier = record { issuer = settings.issuer; signing_key = signing_key };
    maximum_depth = settings.max_delegation_depth;
  }

  -- The result of an exchange counts as active, adds no claims, and is an access token.
  exchange-IsPlain :
      (draws : Draws) (form : TokenForm) (client : RegisteredClient) (db : Database)
      (result : GrantResult)
      → (exchange platform default_exchange draws form client db).0 ≡ ok result
      → (result.principal_status ≡ active)
        × (result.extra_claims ≡ end)
        × (result.issued_token_type ≡ some access_token_urn)
  exchange-IsPlain draws form client db result h =
      let (e, made, whole) =
        exchange-eq-ok platform default_exchange law draws form db client result h in
      let d =
        derive-eq-ok platform settings.max_delegation_depth form client e.audience e.subject_claims
          e.actor_claims e.actor result made in
      (
        ap (λ (r : GrantResult). r.principal_status) d.is_result,
        ap (λ (r : GrantResult). r.extra_claims) d.is_result,
        ap (λ (r : GrantResult). r.issued_token_type) d.is_result,
      )

  -- A request for an exchange reaches the pipeline with its result.
  exchanged_by_issue :
      (draws : Draws) (request : Request) (form : TokenForm) (client : RegisteredClient)
      (secret : String) (result : GrantResult) (db : Database)
      → read_token_form platform request ≡ ok form
      → IsSecretForm form exchange_grant_type client.client_id secret
      → IsKnown platform client secret db
      → (exchange platform default_exchange draws form client db).0 ≡ ok result
      → grant_token (default_server platform settings signing_key) draws request db
        ≡ issue platform settings signing_key draws result db
  unfolding grant_token Grants.get resolve_exchange
  exchanged_by_issue draws request form client secret result db readable f k h =
      let (e, made, whole) =
        exchange-eq-ok platform default_exchange law draws form db client result h in
      rw
        (
          readable,
          grant_type_of form exchange_grant_type f.wants,
          identified platform settings signing_key draws form exchange_grant_type client secret db f
              k,
          whole,
        )
        refl

  -- If dictionaries with equal object identities have equal sizes, the server was made with the
  -- default grants and methods, the form can be read and asks for the exchange with the identifier
  -- and the secret of a stored client, the exchange is granted to that client, its scopes are
  -- attenuated to some, the lifetime in the settings ends within the range of a `datetime`, the
  -- earlier of that end and the subject token's is at least a second away, and the identifier
  -- that is drawn is new: the token endpoint answers with the token of the exchange's result until
  -- that time, the whole seconds until then, the granted scopes, and the type of an access token.
  pub get_oauth_token-exchanges :
      (server : Server) (draws : Draws) (request : Request) (form : TokenForm)
      (client : RegisteredClient) (secret : String) (result : GrantResult) (granted : List String)
      (n : ℕ) (db : Database)
      → create_app platform settings signing_key ≡ ok server
      → read_token_form platform request ≡ ok form
      → IsSecretForm form exchange_grant_type client.client_id secret
      → IsKnown platform client secret db
      → (exchange platform default_exchange draws form client db).0 ≡ ok result
      → attenuate result.requested_scopes result.ceilings ≡ ok granted
      → settings.access_token_ttl_seconds ≡ pos n
      → draws.minted_at + n * second ≤ last_time
      → draws.minted_at + second ≤ end_of platform settings signing_key draws result n
      → any (λ (row : IssuanceRecord). row.jti == draws.jti) db.issued_credentials ≡ false
      → (get_oauth_token server draws request db).0
        ≡ success (record {
          access_token =
              text_until platform settings signing_key draws result
                (join granted)
                (end_of platform settings signing_key draws result n);
          token_type = "Bearer";
          expires_in =
              (end_of platform settings signing_key draws result n - draws.minted_at) / second;
          scope = or_none (join granted);
          issued_token_type = some access_token_urn;
        })
  unfolding get_oauth_token respond token_response
  get_oauth_token-exchanges server draws request form client secret result granted n db made
        readable f k exchanges allowed ttl fits lasts_some fresh =
      let (usable, plain, kind) = exchange-IsPlain draws form client db result exchanges in
      ap (λ (s : Server). (get_oauth_token s draws request db).0)
        (created platform settings signing_key server made)
      ∙ ap (λ r. respond r.0)
          (exchanged_by_issue draws request form client secret result db readable f k exchanges)
      ∙ ap respond (
          issue-returns platform settings signing_key draws result granted n db usable plain allowed
            ttl fits lasts_some fresh)
      ∙ rw kind refl
