-- ===== src/Examples/Refused.antt =====
-- An exchange without a subject token.
use agent_oauth_from_scratch.Shared.{◌≡◌, refl, some, [], ◌∷◌}
use agent_oauth_from_scratch.Value.{pos, arr, get}
use agent_oauth_from_scratch.Value.Json.{texts}
use agent_oauth_from_scratch.Forms
use agent_oauth_from_scratch.Forms.{TokenForm}
use agent_oauth_from_scratch.Grants.TokenExchange.{
  TokenExchange, token_exchange, exchange_required, resolve_exchange,
}
use agent_oauth_from_scratch.Exec.Refused.{IsRefused}
use agent_oauth_from_scratch.Grants.TokenExchange.Required.{resolve_exchange-refuses}
use agent_oauth_from_scratch.Storage.{no_rows}
use agent_oauth_from_scratch.Examples.Data.{platform, settings, key, draws, caller}

abbrev half_form : TokenForm
half_form = record {
  fields =
      ("grant_type", "urn:ietf:params:oauth:grant-type:token-exchange")
      ∷ ("audience", "https://api.example")
      ∷ ("actor_token", "t1")
      ∷ [];
}

abbrev grant : TokenExchange
grant = record {
  verifier = record { issuer = settings.issuer; signing_key = key };
  maximum_depth = pos 4;
}

resolve_exchange-refuses_example :
    (get (token_exchange platform grant).openapi_schema "required" ≡ arr (texts exchange_required))
    × IsRefused (resolve_exchange platform grant draws half_form (some caller)) no_rows
unfolding Forms.get
resolve_exchange-refuses_example =
    resolve_exchange-refuses platform grant draws half_form caller no_rows "subject_token"
      (λ h. absurd (cc h)) refl refl
