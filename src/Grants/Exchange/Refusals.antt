-- ===== src/Grants/Exchange/Refusals.antt =====
-- grants/token_exchange.py: how the checks of the parameters of an exchange fail.
use agent_oauth_from_scratch.Shared.{◌≡◌, sym, ◌∙◌, ◌≢◌, String, Option, none, some}
use agent_oauth_from_scratch.Shared.Lists.{contains}
use agent_oauth_from_scratch.Outcome.{ok, guard}
use agent_oauth_from_scratch.Outcome.Polite.{IsPolite, guard-IsPolite, >>=-IsPolite}
use agent_oauth_from_scratch.Forms
use agent_oauth_from_scratch.Forms.{TokenForm, require}
use agent_oauth_from_scratch.Forms.Given.{require-IsPolite}
use agent_oauth_from_scratch.Models.{RegisteredClient}
use agent_oauth_from_scratch.Grants.Exchange.{
  required_audience, check_token_type, check_requested_type, check_token_types,
  supported_token_types,
}
use agent_oauth_from_scratch.Grants.Exchange.Asked.{required_audience_iff, check_token_types_iff}

pub required_audience-IsPolite :
    (form : TokenForm) (client : RegisteredClient) → IsPolite (required_audience form client)
unfolding required_audience
required_audience-IsPolite form client =
    >>=-IsPolite (require form "audience") _ (require-IsPolite form "audience") λ audience.
      >>=-IsPolite (guard (contains client.allowed_audiences audience) _) _
        (guard-IsPolite (contains client.allowed_audiences audience) _ _) λ u. tt

pub required_audience-eq-ok :
    (form : TokenForm) (client : RegisteredClient) (audience : String)
    → required_audience form client ≡ ok audience
    → Forms.get form "audience" ≢ none
required_audience-eq-ok form client audience h =
    let (given, allowed) = (required_audience_iff form client audience).0 h in
    λ missing. absurd (cc (sym given.0 ∙ missing))

check_token_type-IsPolite :
    (form : TokenForm) (name : String) → IsPolite (check_token_type form name)
unfolding check_token_type
check_token_type-IsPolite form name =
    >>=-IsPolite (require form name) _ (require-IsPolite form name)
      λ given. guard-IsPolite (contains supported_token_types given) _ _

check_requested_type-IsPolite :
    (requested : Option String) → IsPolite (check_requested_type requested)
unfolding check_requested_type
check_requested_type-IsPolite none = tt
check_requested_type-IsPolite (some requested) =
    guard-IsPolite (contains supported_token_types requested) _ _

pub check_token_types-IsPolite : (form : TokenForm) → IsPolite (check_token_types form)
unfolding check_token_types
check_token_types-IsPolite form =
    >>=-IsPolite (check_token_type form "subject_token_type") _
      (check_token_type-IsPolite form "subject_token_type")
      λ u.
        >>=-IsPolite (check_token_type form "actor_token_type") _
          (check_token_type-IsPolite form "actor_token_type")
          λ v. check_requested_type-IsPolite (Forms.get form "requested_token_type")

pub check_token_types-eq-ok :
    (form : TokenForm) {u : Unit}
    → check_token_types form ≡ ok u
    → (Forms.get form "subject_token_type" ≢ none) × (Forms.get form "actor_token_type" ≢ none)
check_token_types-eq-ok form h =
    let asks = (check_token_types_iff form).0 h in
    (
      λ missing. absurd (cc (sym asks.subject ∙ missing)),
      λ missing. absurd (cc (sym asks.actor ∙ missing)),
    )
