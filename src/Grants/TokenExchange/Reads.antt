-- ===== src/Grants/TokenExchange/Reads.antt =====
-- The token exchange and the registries, as far as the table of issued credentials is concerned.
use agent_oauth_from_scratch.Shared.{refl, Option, none, some}
use agent_oauth_from_scratch.Exec.{lift}
use agent_oauth_from_scratch.Value.{Value, null, str, Fields, get}
use agent_oauth_from_scratch.Forms.{TokenForm, require}
use agent_oauth_from_scratch.Models.{RegisteredClient}
use agent_oauth_from_scratch.Platform.{Platform, Draws}
use agent_oauth_from_scratch.Storage.Keeping.{Keeps, bind-Keeps, get_client-Keeps}
use agent_oauth_from_scratch.Grants.Exchange.{
  required_audience, check_token_types, verify_presented,
}
use agent_oauth_from_scratch.Grants.TokenExchange.{
  TokenExchange, known_client, look_up, actor_client, exchange, resolve_exchange,
}

look_up-Keeps : (v : Value) → Keeps (look_up v)
unfolding look_up
look_up-Keeps (str client_id) db = get_client-Keeps client_id db
look_up-Keeps null db = refl
look_up-Keeps _ db = refl

known_client-Keeps : (found : Option RegisteredClient) → Keeps (known_client found)
unfolding known_client
known_client-Keeps none db = refl
known_client-Keeps (some client) db = refl

actor_client-Keeps : (claims : Fields) → Keeps (actor_client claims)
unfolding actor_client
actor_client-Keeps claims =
    bind-Keeps (look_up (get claims "client_id")) _ (look_up-Keeps (get claims "client_id"))
      known_client-Keeps

module _ (platform : Platform) (grant : TokenExchange) where
  exchange-Keeps :
      (draws : Draws) (form : TokenForm) (client : RegisteredClient)
      → Keeps (exchange platform grant draws form client)
  unfolding exchange
  exchange-Keeps draws form client =
      bind-Keeps (lift (required_audience form client)) _ (λ db. refl)
        λ audience.
          bind-Keeps (lift (require form "subject_token")) _ (λ db. refl)
            λ subject_token.
              bind-Keeps (lift (require form "actor_token")) _ (λ db. refl)
                λ actor_token.
                  bind-Keeps (lift (check_token_types form)) _ (λ db. refl)
                    λ u.
                      bind-Keeps
                        (lift (
                          verify_presented platform grant.verifier draws.subject_verified_at
                            subject_token audience))
                        _ (λ db. refl)
                        λ subject_claims.
                          bind-Keeps
                            (lift (
                              verify_presented platform grant.verifier draws.actor_verified_at
                                actor_token audience))
                            _ (λ db. refl)
                            λ actor_claims.
                              bind-Keeps (actor_client actor_claims) _
                                (actor_client-Keeps actor_claims) λ actor. λ db. refl

  pub resolve_exchange-Keeps :
      (draws : Draws) (form : TokenForm) (client : Option RegisteredClient)
      → Keeps (resolve_exchange platform grant draws form client)
  unfolding resolve_exchange
  resolve_exchange-Keeps draws form none db = refl
  resolve_exchange-Keeps draws form (some client) db = exchange-Keeps draws form client db
