-- ===== src/Grants/TokenExchange.antt =====
-- grants/token_exchange.py: `resolve`, in the order of the source.
pub mod Reads
pub mod Decided
pub mod Actor
pub mod Required
pub mod Statements
use agent_oauth_from_scratch.Shared.{ℕ, String, true, Option, none, some, List, [], ◌∷◌}
use agent_oauth_from_scratch.Outcome.{Outcome, ok, raised, uncaught, refuse}
use agent_oauth_from_scratch.Exec.{Exec, pure, lift, ◌>>=◌, ◌>>◌}
use agent_oauth_from_scratch.Value.{
  Value, null, bool, int, float, str, arr, obj, instant, Fields, get, end, field, ℤ,
}
use agent_oauth_from_scratch.Value.Json.{string_type, enum_type, described_type, object_schema}
use agent_oauth_from_scratch.Forms.{TokenForm, require}
use agent_oauth_from_scratch.Models.{RegisteredClient}
use agent_oauth_from_scratch.Platform.{Platform, Draws}
use agent_oauth_from_scratch.Process
use agent_oauth_from_scratch.Process.{Process, statement, ◌>>=◌ as next}
use agent_oauth_from_scratch.Process.Alone.{Refines, lift-Refines, statement-Refines, >>=-Refines}
use agent_oauth_from_scratch.Storage.{Database, get_client}
use agent_oauth_from_scratch.Tokens.{TokenVerifier}
use agent_oauth_from_scratch.Grants.Base.{GrantResult, Grant}
use agent_oauth_from_scratch.Grants.Exchange.{
  exchange_grant_type, supported_token_types, required_audience, check_token_types,
  verify_presented, derive,
}

pub record TokenExchange : Type 0 where
  pub verifier : TokenVerifier
  pub maximum_depth : ℤ

known_client : Option RegisteredClient → Exec Database RegisteredClient
known_client none = lift (refuse "invalid_grant" "token exchange was refused" 400)
known_client (some client) = pure client

look_up : Value → Exec Database (Option RegisteredClient)
look_up (str client_id) = get_client client_id
look_up _ = pure none

-- `_actor_client`
unfoldable pub actor_client : Fields → Exec Database RegisteredClient
unfolding known_client look_up
actor_client actor_claims = do found ← look_up (get actor_claims "client_id"); known_client found

-- the same, statement by statement
look_up_steps : Value → Process Database (Option RegisteredClient)
look_up_steps (str client_id) = statement (get_client client_id)
look_up_steps _ = Process.pure none

as_known : Option RegisteredClient → Outcome RegisteredClient
as_known none = refuse "invalid_grant" "token exchange was refused" 400
as_known (some client) = ok client

unfoldable pub actor_client_steps : Fields → Process Database RegisteredClient
unfolding look_up_steps as_known
actor_client_steps actor_claims =
    next (look_up_steps (get actor_claims "client_id")) λ found. Process.lift (as_known found)

look_up-Refines : (client_id : Value) → Refines (look_up_steps client_id) (look_up client_id)
unfolding look_up_steps look_up
look_up-Refines (str client_id) = statement-Refines (get_client client_id)
look_up-Refines _ = lift-Refines (ok none)

known_client-Refines :
    (found : Option RegisteredClient) → Refines (Process.lift (as_known found)) (known_client found)
unfolding as_known known_client
known_client-Refines none = lift-Refines (as_known none)
known_client-Refines (some client) = lift-Refines (as_known (some client))

actor_client-Refines :
    (actor_claims : Fields) → Refines (actor_client_steps actor_claims) (actor_client actor_claims)
unfolding actor_client_steps actor_client
actor_client-Refines actor_claims =
    >>=-Refines _ _ _ _ (look_up-Refines (get actor_claims "client_id")) known_client-Refines

-- what `openapi_schema` lists as required
abbrev pub exchange_required : List String
exchange_required =
    "grant_type" ∷ "subject_token" ∷ "subject_token_type" ∷ "actor_token" ∷ "actor_token_type"
    ∷ "audience" ∷ []

-- `openapi_schema`
abbrev pub exchange_schema : Fields
exchange_schema = object_schema "token-exchange" exchange_required (
    field "grant_type" (obj (enum_type (exchange_grant_type ∷ []))) (
      field "subject_token" (obj string_type) (
        field "subject_token_type" (obj (enum_type supported_token_types)) (
          field "actor_token" (obj string_type) (
            field "actor_token_type" (obj (enum_type supported_token_types)) (
              field "audience" (obj (described_type "Required. Exactly one downstream service."))
                (field "scope" (obj string_type) end)))))))

module _ (platform : Platform) (grant : TokenExchange) where
  -- `resolve` for a client
  unfoldable pub exchange : Draws → TokenForm → RegisteredClient → Exec Database GrantResult
  exchange draws form client = do
    audience ← lift (required_audience form client)
    subject_token ← lift (require form "subject_token")
    actor_token ← lift (require form "actor_token")
    lift (check_token_types form)
    subject_claims ←
        lift (
          verify_presented platform grant.verifier draws.subject_verified_at subject_token audience)
    actor_claims ←
        lift (verify_presented platform grant.verifier draws.actor_verified_at actor_token audience)
    actor ← actor_client actor_claims
    lift
        (derive platform grant.maximum_depth form client audience subject_claims actor_claims actor)

  -- `resolve`; the assertion that there is a client raises
  unfoldable pub resolve_exchange :
      Draws → TokenForm → Option RegisteredClient → Exec Database GrantResult
  unfolding exchange
  resolve_exchange draws form none = lift (raised uncaught)
  resolve_exchange draws form (some client) = exchange draws form client

  unfoldable pub exchange_steps :
      Draws → TokenForm → RegisteredClient → Process Database GrantResult
  exchange_steps draws form client = next (Process.lift (required_audience form client)) λ audience.
      next (Process.lift (require form "subject_token")) λ subject_token.
        next (Process.lift (require form "actor_token")) λ actor_token.
          next (Process.lift (check_token_types form)) λ checked.
            next
              (Process.lift (
                verify_presented platform grant.verifier draws.subject_verified_at subject_token
                  audience))
              λ subject_claims.
                next
                  (Process.lift (
                    verify_presented platform grant.verifier draws.actor_verified_at actor_token
                      audience))
                  λ actor_claims. next (actor_client_steps actor_claims) λ actor. Process.lift (
                    derive platform grant.maximum_depth form client audience subject_claims
                      actor_claims actor)

  -- `resolve`, statement by statement
  unfoldable pub resolve_exchange_steps :
      Draws → TokenForm → Option RegisteredClient → Process Database GrantResult
  unfolding exchange_steps
  resolve_exchange_steps draws form none = Process.lift (raised uncaught)
  resolve_exchange_steps draws form (some client) = exchange_steps draws form client

  exchange-Refines :
      (draws : Draws) (form : TokenForm) (client : RegisteredClient)
      → Refines (exchange_steps draws form client) (exchange draws form client)
  unfolding exchange_steps exchange
  exchange-Refines draws form client =
      >>=-Refines _ _ _ _ (lift-Refines (required_audience form client)) λ audience.
        >>=-Refines _ _ _ _ (lift-Refines (require form "subject_token")) λ subject_token.
          >>=-Refines _ _ _ _ (lift-Refines (require form "actor_token")) λ actor_token.
            >>=-Refines _ _ _ _ (lift-Refines (check_token_types form)) λ checked.
              >>=-Refines _ _ _ _ (lift-Refines _) λ subject_claims.
                >>=-Refines _ _ _ _ (lift-Refines _) λ actor_claims.
                  >>=-Refines _ _ _ _ (actor_client-Refines actor_claims) λ actor. lift-Refines _

  pub resolve_exchange-Refines :
      (draws : Draws) (form : TokenForm) (client : Option RegisteredClient)
      → Refines (resolve_exchange_steps draws form client) (resolve_exchange draws form client)
  unfolding resolve_exchange_steps resolve_exchange
  resolve_exchange-Refines draws form none = lift-Refines (raised uncaught)
  resolve_exchange-Refines draws form (some client) = exchange-Refines draws form client

  abbrev pub token_exchange : Grant
  token_exchange = record {
    grant_type = exchange_grant_type;
    requires_client_auth = true;
    response_types = [];
    resolve = resolve_exchange;
    resolve_steps = resolve_exchange_steps;
    resolve_alone = resolve_exchange-Refines;
    metadata = end;
    openapi_schema = exchange_schema;
  }
