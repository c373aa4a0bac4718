-- ===== src/Grants/Exchange/Asked.antt =====
-- grants/token_exchange.py: which forms ask for an exchange, and which tokens verify.
use agent_oauth_from_scratch.Shared.{
  ℕ, ◌≡◌, refl, ◌↔◌, ◌⊎◌, inl, inr, arith, String, true, Option, none, some, eq_iff, ap, ◌∙◌,
}
use agent_oauth_from_scratch.Shared.Lists.{contains}
use agent_oauth_from_scratch.Outcome.{
  Outcome, ok, raised, token, ok-injective, >>=-eq-ok, guard-eq-ok,
}
use agent_oauth_from_scratch.Forms
use agent_oauth_from_scratch.Forms.{TokenForm, require}
use agent_oauth_from_scratch.Forms.Given.{IsGiven, require_iff}
use agent_oauth_from_scratch.Value.{Fields}
use agent_oauth_from_scratch.Platform.{Platform}
use agent_oauth_from_scratch.Tokens.{TokenVerifier, verify_any_audience}
use agent_oauth_from_scratch.Models.{RegisteredClient}
use agent_oauth_from_scratch.Grants.Exchange.{
  required_audience, check_token_type, check_requested_type, check_token_types,
  supported_token_types, access_token_urn, as_refusal, verify_presented,
}

pub required_audience_iff :
    (form : TokenForm) (client : RegisteredClient) (audience : String)
    → (required_audience form client ≡ ok audience)
      ↔ (IsGiven form "audience" audience × (contains client.allowed_audiences audience ≡ true))
unfolding required_audience
required_audience_iff form client audience = (
  λ h.
      let (given, has, rest) = >>=-eq-ok (require form "audience") _ h in
      let (u, allowed, made) = >>=-eq-ok _ _ rest in
      let same = ok-injective made in
      (
        rw (← same) ((require_iff form "audience" given).0 has),
        rw (← same) (guard-eq-ok (contains client.allowed_audiences given) _ allowed),
      ),
  λ (given, allowed). rw ((require_iff form "audience" audience).1 given, allowed) refl,
)

supported_iff :
    (given : String) → (contains supported_token_types given ≡ true) ↔ (given ≡ access_token_urn)
supported_iff given = (λ h. ground (arith, eq_iff access_token_urn given), λ h. rw h refl)

-- The parameter says that the token is an access token.
abbrev pub IsAccessToken : TokenForm → String → Type 0
IsAccessToken form name = Forms.get form name ≡ some access_token_urn

check_token_type_iff :
    (form : TokenForm) (name : String)
    → (check_token_type form name ≡ ok tt) ↔ IsAccessToken form name
unfolding check_token_type
check_token_type_iff form name = (
  λ h.
      let (given, has, rest) = >>=-eq-ok (require form name) _ h in
      ((require_iff form name given).0 has).0
      ∙ ap some ((supported_iff given).0 (guard-eq-ok _ _ rest)),
  λ h. rw ((require_iff form name access_token_urn).1 (h, λ p. absurd (cc p))) refl,
)

check_requested_type_iff :
    (requested : Option String)
    → (check_requested_type requested ≡ ok tt)
      ↔ ((requested ≡ none) ⊎ (requested ≡ some access_token_urn))
unfolding check_requested_type
check_requested_type_iff none = ((λ h. inl refl), λ h. refl)
check_requested_type_iff (some given) = (
  λ h. inr (ap some ((supported_iff given).0 (guard-eq-ok _ _ h))),
  λ h. elim h [
    | inl absent ↦ absurd (cc absent)
    | inr same ↦ rw ((supported_iff given).1 (ground (arith, same))) refl
  ],
)

-- Both tokens are said to be access tokens, and nothing else is asked for.
pub record AsksForAccessTokens (form : TokenForm) : Type 0 where
  pub subject : IsAccessToken form "subject_token_type"
  pub actor : IsAccessToken form "actor_token_type"
  pub requested :
      (Forms.get form "requested_token_type" ≡ none) ⊎ IsAccessToken form "requested_token_type"

pub check_token_types_iff :
    (form : TokenForm) → (check_token_types form ≡ ok tt) ↔ AsksForAccessTokens form
unfolding check_token_types
check_token_types_iff form = (
  λ h.
      let (u, subject, h') = >>=-eq-ok (check_token_type form "subject_token_type") _ h in
      let (v, actor, last) = >>=-eq-ok (check_token_type form "actor_token_type") _ h' in
      record {
        subject = (check_token_type_iff form "subject_token_type").0 subject;
        actor = (check_token_type_iff form "actor_token_type").0 actor;
        requested = (check_requested_type_iff (Forms.get form "requested_token_type")).0 last;
      },
  λ a.
      rw
        (
          (check_token_type_iff form "subject_token_type").1 a.subject,
          (check_token_type_iff form "actor_token_type").1 a.actor,
        )
        ((check_requested_type_iff (Forms.get form "requested_token_type")).1 a.requested),
)

as_refusal-eq-ok : (r : Outcome Fields) (claims : Fields) → as_refusal r ≡ ok claims → r ≡ ok claims
as_refusal-eq-ok (ok found) claims h = h
as_refusal-eq-ok (raised (token message)) claims h = cc
as_refusal-eq-ok (raised _) claims h = cc

pub verify_presented_iff :
    (platform : Platform) (verifier : TokenVerifier) (now : ℕ) (text audience : String)
    (claims : Fields)
    → (verify_presented platform verifier now text audience ≡ ok claims)
      ↔ (verify_any_audience platform verifier now text ≡ ok claims)
unfolding verify_presented
verify_presented_iff platform verifier now text audience claims =
    (as_refusal-eq-ok (verify_any_audience platform verifier now text) claims, ap as_refusal)
