-- ===== src/Grants/TokenExchange/Required.antt =====
-- grants/token_exchange.py: `resolve` against the required parameters of `openapi_schema`.
use agent_oauth_from_scratch.Shared.{
  ◌≡◌, ◌≢◌, refl, String, true, none, some, List, [], ◌∷◌, ◌==◌, Bool-cases, inl, inr, eq_iff,
  arith,
}
use agent_oauth_from_scratch.Shared.Lists.{contains, All}
use agent_oauth_from_scratch.Exec.Refused.{IsRefused, lift-IsRefused}
use agent_oauth_from_scratch.Value.{arr, get}
use agent_oauth_from_scratch.Value.Json.{texts}
use agent_oauth_from_scratch.Forms
use agent_oauth_from_scratch.Forms.{TokenForm, require}
use agent_oauth_from_scratch.Forms.Given.{require-IsPolite, require-eq-ok}
use agent_oauth_from_scratch.Models.{RegisteredClient}
use agent_oauth_from_scratch.Platform.{Platform, Draws}
use agent_oauth_from_scratch.Storage.{Database}
use agent_oauth_from_scratch.Grants.Exchange.{required_audience, check_token_types}
use agent_oauth_from_scratch.Grants.Exchange.Refusals.{
  required_audience-IsPolite, check_token_types-IsPolite, required_audience-eq-ok,
  check_token_types-eq-ok,
}
use agent_oauth_from_scratch.Grants.TokenExchange.{
  TokenExchange, token_exchange, exchange_required, exchange, resolve_exchange,
}

-- A name of a list has every property that all the names of the list have.
All-contains :
    (P : String → Type 0) (names : List String) (name : String)
    → All P names
    → contains names name ≡ true
    → P name
All-contains P [] name ps h = absurd (cc h)
All-contains P (n ∷ names) name (p, ps) h = elim (Bool-cases (n == name)) [
  | inl same ↦ rw (← (eq_iff n name).0 same) p
  | inr other ↦ All-contains P names name ps (ground (arith, other))
]

module _ (platform : Platform) (grant : TokenExchange) where
  exchange-IsRefused :
      (draws : Draws) (form : TokenForm) (client : RegisteredClient) (db : Database) (name : String)
      → (Forms.get form "grant_type" ≢ none)
      → contains exchange_required name ≡ true
      → Forms.get form name ≡ none
      → IsRefused (exchange platform grant draws form client) db
  unfolding exchange
  exchange-IsRefused draws form client db name typed listed missing =
      lift-IsRefused (required_audience form client) _ db (required_audience-IsPolite form client)
        λ audience has_audience.
          lift-IsRefused (require form "subject_token") _ db (require-IsPolite form "subject_token")
            λ subject_token has_subject.
              lift-IsRefused (require form "actor_token") _ db (require-IsPolite form "actor_token")
                λ actor_token has_actor.
                  lift-IsRefused (check_token_types form) _ db (check_token_types-IsPolite form)
                    λ u has_types.
                      let (subject_type, actor_type) = check_token_types-eq-ok form has_types in
                      absurd (
                        All-contains (λ n. Forms.get form n ≢ none) exchange_required name
                          (
                            typed,
                            (
                              require-eq-ok form "subject_token" subject_token has_subject,
                              (
                                subject_type,
                                (
                                  require-eq-ok form "actor_token" actor_token has_actor,
                                  (
                                    actor_type,
                                    (required_audience-eq-ok form client audience has_audience, tt),
                                  ),
                                ),
                              ),
                            ),
                          )
                          listed missing)

  -- A form with a grant type that lacks a parameter which the published schema of the exchange
  -- lists as required is refused, with status 400, and nothing is written.
  pub resolve_exchange-refuses :
      (draws : Draws) (form : TokenForm) (client : RegisteredClient) (db : Database) (name : String)
      → Forms.get form "grant_type" ≢ none
      → contains exchange_required name ≡ true
      → Forms.get form name ≡ none
      → (get ((token_exchange platform grant).openapi_schema) "required"
          ≡ arr (texts exchange_required))
        × IsRefused (resolve_exchange platform grant draws form (some client)) db
  unfolding resolve_exchange get
  resolve_exchange-refuses draws form client db name typed listed missing =
      (refl, exchange-IsRefused draws form client db name typed listed missing)
