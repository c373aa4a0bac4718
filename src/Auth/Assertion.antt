-- ===== src/Auth/Assertion.antt =====
-- auth/private_key_jwt.py, what touches no table: the reading of the form, and of the claims of a
-- client assertion.
pub mod Presenting
pub mod Acceptable
use agent_oauth_from_scratch.Shared.{
  ℕ, ◌*◌, ◌+◌, String, Bool, true, false, Option, none, some, List, [], ◌∷◌, not, ◌&&◌, ◌||◌, ◌==◌,
  leb, if◌then◌else◌,
}
use agent_oauth_from_scratch.Outcome.{
  Outcome, ok, raised, uncaught, refuse, guard, oauth_error, ◌>>=◌,
}
use agent_oauth_from_scratch.Value.{Value, str, arr, obj, Items, nil, cons, Fields, end, field, get}
use agent_oauth_from_scratch.Value.Json.{string_type, enum_type}
use agent_oauth_from_scratch.Value.Access.{item_or_key_error, text_item, text_of}
use agent_oauth_from_scratch.Value.Times.{second, from_timestamp}
use agent_oauth_from_scratch.Forms
use agent_oauth_from_scratch.Forms.{TokenForm, present, require}
use agent_oauth_from_scratch.Models.{RegisteredClient, SigningKey}
use agent_oauth_from_scratch.Platform.{Platform}
use agent_oauth_from_scratch.Delegation.{is_text}
use agent_oauth_from_scratch.Auth.Base.{PresentedCredential}

abbrev pub private_key_jwt_name : String
private_key_jwt_name = "private_key_jwt"

abbrev pub assertion_type : String
assertion_type = "urn:ietf:params:oauth:client-assertion-type:jwt-bearer"

-- `openapi_properties`
abbrev pub openapi_properties : Fields
openapi_properties =
    field "client_assertion_type" (obj (enum_type (assertion_type ∷ [])))
      (field "client_assertion" (obj string_type) end)

-- `required_openapi_fields`
abbrev pub required_openapi_fields : List String
required_openapi_fields = "client_assertion_type" ∷ "client_assertion" ∷ []

abbrev pub algorithm : String
algorithm = "ES256"

-- five minutes, in microseconds
abbrev pub maximum_lifetime : ℕ
maximum_lifetime = 300 * second

-- `set(audience) & accepted`, where a list or a dictionary cannot be in a set
abbrev is_hashable : Value → Bool
is_hashable (arr vs) = false
is_hashable (obj d) = false
is_hashable _ = true

pub all_hashable : Items → Bool
all_hashable nil = true
all_hashable (cons v vs) = is_hashable v && all_hashable vs

module _ (issuer token_endpoint : String) where
  abbrev names_server : Value → Bool
  names_server v = is_text v issuer || is_text v token_endpoint

  any_names_server : Items → Bool
  any_names_server nil = false
  any_names_server (cons v vs) = names_server v || any_names_server vs

  -- whether the `aud` claim names this server
  unfoldable pub audience_accepted : Value → Outcome Bool
  unfolding all_hashable any_names_server
  audience_accepted (arr vs) = if all_hashable vs then ok (any_names_server vs) else raised uncaught
  audience_accepted (obj d) = raised uncaught
  audience_accepted v = ok (names_server v)

pub record PrivateKeyJwt : Type 0 where
  pub issuer : String
  pub token_endpoint : String
  pub server_key : SigningKey

non_empty_subject : Value → Outcome String
non_empty_subject (str subject) =
    if subject == ""
    then refuse "invalid_request" "client assertion has no subject" 400
    else ok subject
non_empty_subject _ = refuse "invalid_request" "client assertion has no subject" 400

module _ (platform : Platform) where
  -- `_unverified_subject`
  unfoldable pub unverified_subject : String → Outcome String
  unfolding non_empty_subject
  unverified_subject assertion = elim (platform.unverified_claims assertion) [
    | none ↦ refuse "invalid_request" "client assertion is malformed" 400
    | some claims ↦ non_empty_subject (get claims "sub")
  ]

  -- `form.get("client_id") != claimed`, for a field that is present
  disagrees : Option String → String → Bool
  disagrees none claimed = false
  disagrees (some given) claimed = not (given == claimed)

  extract_attempt : TokenForm → Outcome (Option PresentedCredential)
  extract_attempt form = do
    given_type ← require form "client_assertion_type"
    guarded ←
        guard (given_type == assertion_type)
          (oauth_error "invalid_request" "unsupported client assertion type" 400)
    assertion ← require form "client_assertion"
    claimed ← unverified_subject assertion
    agreed ←
        guard (not (disagrees (Forms.get form "client_id") claimed))
          (oauth_error "invalid_request" "client_id does not match the client assertion" 400)
    ok (
        some (record {
          client_id = claimed;
          method = private_key_jwt_name;
          secret = none;
          assertion = some assertion;
        }))

  -- `PrivateKeyJwt.extract`
  unfoldable pub extract_assertion : TokenForm → Outcome (Option PresentedCredential)
  unfolding extract_attempt disagrees
  extract_assertion form =
      if not (present form "client_assertion") && not (present form "client_assertion_type")
      then ok none
      else extract_attempt form

  -- `_claims_are_acceptable`, the clock reading among the arguments
  expires_soon : ℕ → Fields → Outcome Bool
  expires_soon now claims = do
    exp ← item_or_key_error claims "exp"
    expires_at ← from_timestamp platform.float_timestamp exp
    ok (leb expires_at (now + maximum_lifetime))

  audience_then_expiry : PrivateKeyJwt → ℕ → Fields → Outcome Bool
  audience_then_expiry method now claims = do
    accepted ← audience_accepted method.issuer method.token_endpoint (get claims "aud")
    if accepted then expires_soon now claims else ok false

  unfoldable pub claims_are_acceptable :
      PrivateKeyJwt → ℕ → Fields → RegisteredClient → Outcome Bool
  unfolding audience_then_expiry expires_soon
  claims_are_acceptable method now claims client =
      if is_text (get claims "iss") client.client_id && is_text (get claims "sub") client.client_id
      then audience_then_expiry method now claims
      else ok false

  -- what `_is_first_use` claims: the client, the identifier and the expiry
  unfoldable pub replay_key : Fields → Outcome (String × String × ℕ)
  replay_key claims = do
    client_id ← text_item claims "sub"
    jti ← item_or_key_error claims "jti"
    exp ← item_or_key_error claims "exp"
    expires_at ← from_timestamp platform.float_timestamp exp
    ok (client_id, text_of platform.str_of jti, expires_at)
