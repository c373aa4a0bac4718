-- ===== src/Grants/TokenExchange/Decided.antt =====
-- grants/token_exchange.py, `resolve`: which exchanges are granted.
use agent_oauth_from_scratch.Shared.{
  ◌≡◌, refl, ◌↔◌, ap, sym, ◌∙◌, String, true, Option, none, some, some-injective,
}
use agent_oauth_from_scratch.Shared.Lists.{contains}
use agent_oauth_from_scratch.Outcome.{ok, ok-injective}
use agent_oauth_from_scratch.Exec.{>>=-eq-ok, lift->>=-eq-ok}
use agent_oauth_from_scratch.Value.{Fields}
use agent_oauth_from_scratch.Forms.{TokenForm, require}
use agent_oauth_from_scratch.Forms.Given.{IsGiven, require_iff}
use agent_oauth_from_scratch.Models.{RegisteredClient}
use agent_oauth_from_scratch.Platform.{Platform, Draws}
use agent_oauth_from_scratch.Storage.{Database}
use agent_oauth_from_scratch.Tokens.{verify_any_audience}
use agent_oauth_from_scratch.Delegation.Chain.{IsObjectId}
use agent_oauth_from_scratch.Grants.Base.{GrantResult}
use agent_oauth_from_scratch.Grants.Exchange.{
  required_audience, check_token_types, verify_presented, derive,
}
use agent_oauth_from_scratch.Grants.Exchange.Asked.{
  required_audience_iff, verify_presented_iff, AsksForAccessTokens, check_token_types_iff,
}
use agent_oauth_from_scratch.Grants.Exchange.Derivable.{IsDerivable, derive_iff}
use agent_oauth_from_scratch.Grants.TokenExchange.Actor.{
  IsClientOf, actor_client_iff, actor_client-returns,
}
use agent_oauth_from_scratch.Grants.TokenExchange.{
  TokenExchange, actor_client, exchange, resolve_exchange,
}

module _ (platform : Platform) (grant : TokenExchange) where
  -- The form asks for an audience of the client, both tokens verify, the actor's client is stored,
  -- and a token can be derived from the claims.
  pub record IsExchangeable (draws : Draws) (form : TokenForm) (client : RegisteredClient)
      (db : Database) : Type 0 where
    pub audience : String
    pub subject_token : String
    pub actor_token : String
    pub subject_claims : Fields
    pub actor_claims : Fields
    pub actor : RegisteredClient
    pub has_audience : IsGiven form "audience" audience
    pub allowed : contains client.allowed_audiences audience ≡ true
    pub has_subject : IsGiven form "subject_token" subject_token
    pub has_actor : IsGiven form "actor_token" actor_token
    pub asks : AsksForAccessTokens form
    pub subject_verified :
        verify_any_audience platform grant.verifier draws.subject_verified_at subject_token
        ≡ ok subject_claims
    pub actor_verified :
        verify_any_audience platform grant.verifier draws.actor_verified_at actor_token
        ≡ ok actor_claims
    pub actor_is_stored : IsClientOf actor_claims db actor
    pub derivable : IsDerivable platform grant.maximum_depth subject_claims actor_claims actor

  module _ (law : IsObjectId platform.object_id) (draws : Draws) (form : TokenForm)
      (db : Database) where
    exchangeable :
        (client : RegisteredClient) (result : GrantResult)
        → (exchange platform grant draws form client db).0 ≡ ok result
        → IsExchangeable draws form client db
    unfolding exchange
    exchangeable client result h =
        let (audience, is_audience, h₁) = lift->>=-eq-ok (required_audience form client) _ db h in
        let (subject_token, is_subject, h₂) =
          lift->>=-eq-ok (require form "subject_token") _ db h₁ in
        let (actor_token, is_actor, h₃) = lift->>=-eq-ok (require form "actor_token") _ db h₂ in
        let (u, asks, h₄) = lift->>=-eq-ok (check_token_types form) _ db h₃ in
        let (subject_claims, subject_verified, h₅) =
          lift->>=-eq-ok
            (verify_presented platform grant.verifier draws.subject_verified_at subject_token
              audience)
            _ db h₄ in
        let (actor_claims, actor_verified, h₆) =
          lift->>=-eq-ok
            (verify_presented platform grant.verifier draws.actor_verified_at actor_token audience)
            _ db h₅ in
        let (actor, stored, rest) = >>=-eq-ok (actor_client actor_claims) _ db h₆ in
        let (given, allowed) = (required_audience_iff form client audience).0 is_audience in
        record {
          audience = audience;
          subject_token = subject_token;
          actor_token = actor_token;
          subject_claims = subject_claims;
          actor_claims = actor_claims;
          actor = actor;
          has_audience = given;
          allowed = allowed;
          has_subject = (require_iff form "subject_token" subject_token).0 is_subject;
          has_actor = (require_iff form "actor_token" actor_token).0 is_actor;
          asks = (check_token_types_iff form).0 asks;
          subject_verified =
              (verify_presented_iff platform grant.verifier draws.subject_verified_at subject_token
                  audience subject_claims).0
                subject_verified;
          actor_verified =
              (verify_presented_iff platform grant.verifier draws.actor_verified_at actor_token
                  audience actor_claims).0
                actor_verified;
          actor_is_stored = (actor_client_iff actor_claims db actor).0 stored;
          derivable =
              (derive_iff platform law grant.maximum_depth form client audience subject_claims
                  actor_claims actor).0
                (result, ap (λ r. r.0) (sym rest) ∙ h₆);
        }

    -- What is granted is derived from the claims, and nothing is written.
    pub exchanged :
        (client : RegisteredClient) (e : IsExchangeable draws form client db)
        → (result : GrantResult) × (derive platform grant.maximum_depth form client e.audience
              e.subject_claims e.actor_claims e.actor
            ≡ ok result)
          × (exchange platform grant draws form client db ≡ (ok result, db))
    unfolding exchange
    exchanged client e =
        let (result, made) =
          (derive_iff platform law grant.maximum_depth form client e.audience e.subject_claims
              e.actor_claims e.actor).1
            e.derivable in
        (
          result,
          made,
          rw
              (
                (required_audience_iff form client e.audience).1 (e.has_audience, e.allowed),
                (require_iff form "subject_token" e.subject_token).1 e.has_subject,
                (require_iff form "actor_token" e.actor_token).1 e.has_actor,
                (check_token_types_iff form).1 e.asks,
                (verify_presented_iff platform grant.verifier draws.subject_verified_at
                      e.subject_token e.audience e.subject_claims).1
                    e.subject_verified,
                (verify_presented_iff platform grant.verifier draws.actor_verified_at e.actor_token
                      e.audience e.actor_claims).1
                    e.actor_verified,
                actor_client-returns e.actor_claims db e.actor e.actor_is_stored,
                made,
              )
              refl,
        )

    -- A result of an exchange is that of its claims, and nothing has been written.
    pub exchange-eq-ok :
        (client : RegisteredClient) (result : GrantResult)
        → (exchange platform grant draws form client db).0 ≡ ok result
        → (e : IsExchangeable draws form client db) × (derive platform grant.maximum_depth form
              client e.audience e.subject_claims e.actor_claims e.actor
            ≡ ok result)
          × (exchange platform grant draws form client db ≡ (ok result, db))
    exchange-eq-ok client result h =
        let e = exchangeable client result h in
        let (found, made, whole) = exchanged client e in
        let same = ok-injective (ap (λ r. r.0) (sym whole) ∙ h) in
        (e, made ∙ ap ok same, whole ∙ ap (λ (r : GrantResult). (ok r, db)) same)

    -- If dictionaries with equal object identities have equal sizes: an exchange is granted
    -- exactly when the request has a client, its form has an audience that is allowed to that
    -- client, says that both tokens are access tokens and asks for no other kind, both tokens
    -- verify, the client that the actor token names is stored, and of the claims, the subject
    -- token's `may_act` is absent or names the actor, its tenant is absent or that of the actor's
    -- client, its declared depth is the number of hops of its chain and one hop more is within
    -- the bound, its scope, its task and its expiry can be read, and the actor token has a subject.
    pub resolve_exchange_iff :
        (client : Option RegisteredClient)
        → ((result : GrantResult) × ((resolve_exchange platform grant draws form client db).0
              ≡ ok result))
          ↔ ((caller : RegisteredClient) × (client ≡ some caller)
              × IsExchangeable draws form caller db)
    unfolding resolve_exchange
    resolve_exchange_iff none =
        (λ (result, h). absurd (cc h), λ (caller, is_caller, e). absurd (cc is_caller))
    resolve_exchange_iff (some client) = (
      λ (result, h). (client, refl, exchangeable client result h),
      λ (caller, is_caller, e).
          let (result, made, whole) =
            exchanged client (rw (some-injective client caller is_caller) e) in
          (result, ap (λ r. r.0) whole),
    )
