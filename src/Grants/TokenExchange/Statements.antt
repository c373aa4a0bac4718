-- ===== src/Grants/TokenExchange/Statements.antt =====
-- grants/token_exchange.py: the one statement of `resolve`.
use agent_oauth_from_scratch.Shared.{Option, none, some}
use agent_oauth_from_scratch.Process.Follows.{Follows, lift-Follows, statement-Follows, >>=-Follows}
use agent_oauth_from_scratch.Value.{Value, str, Fields, get}
use agent_oauth_from_scratch.Forms.{TokenForm, require}
use agent_oauth_from_scratch.Models.{RegisteredClient}
use agent_oauth_from_scratch.Platform.{Platform, Draws}
use agent_oauth_from_scratch.Storage.{get_client}
use agent_oauth_from_scratch.Storage.Moves.{Uses, get_client-Uses}
use agent_oauth_from_scratch.Grants.Exchange.{required_audience, check_token_types}
use agent_oauth_from_scratch.Grants.TokenExchange.{
  TokenExchange, look_up_steps, actor_client_steps, exchange_steps, resolve_exchange_steps,
}

look_up-Follows : (client_id : Value) → Follows Uses 1 (look_up_steps client_id)
unfolding look_up_steps
look_up-Follows (str client_id) =
    statement-Follows Uses (get_client client_id) (get_client-Uses client_id)
look_up-Follows _ = tt

actor_client-Follows : (actor_claims : Fields) → Follows Uses 1 (actor_client_steps actor_claims)
unfolding actor_client_steps
actor_client-Follows actor_claims =
    >>=-Follows Uses 1 0 _ _ (look_up-Follows (get actor_claims "client_id")) λ found. tt

module _ (platform : Platform) (grant : TokenExchange) where
  exchange-Follows :
      (draws : Draws) (form : TokenForm) (client : RegisteredClient)
      → Follows Uses 1 (exchange_steps platform grant draws form client)
  unfolding exchange_steps
  exchange-Follows draws form client =
      lift-Follows Uses 1 (required_audience form client) _ λ audience.
        lift-Follows Uses 1 (require form "subject_token") _ λ subject_token.
          lift-Follows Uses 1 (require form "actor_token") _ λ actor_token.
            lift-Follows Uses 1 (check_token_types form) _ λ checked.
              lift-Follows Uses 1 _ _ λ subject_claims. lift-Follows Uses 1 _ _ λ actor_claims.
                >>=-Follows Uses 1 0 _ _ (actor_client-Follows actor_claims) λ actor. tt

  pub resolve_exchange-Follows :
      (draws : Draws) (form : TokenForm) (client : Option RegisteredClient)
      → Follows Uses 1 (resolve_exchange_steps platform grant draws form client)
  unfolding resolve_exchange_steps
  resolve_exchange-Follows draws form none = tt
  resolve_exchange-Follows draws form (some client) = exchange-Follows draws form client
