-- ===== src/Tokens.antt =====
-- crypto/tokens.py: the one place that mints a token, and the one that verifies one.
pub mod Minting
pub mod Returning
use agent_oauth_from_scratch.Shared.{
  ℕ, ◌-◌, ◌/◌, String, Bool, true, false, Option, none, some, List, [], ◌∷◌, not, ◌<>◌, ltb, eqb,
  if◌then◌else◌, ◌==◌,
}
use agent_oauth_from_scratch.Shared.Lists.{keep, is_empty}
use agent_oauth_from_scratch.Shared.Words.{comma_separated}
use agent_oauth_from_scratch.Outcome.{Outcome, ok, raised, token, guard, ◌>>=◌, ◌>>◌}
use agent_oauth_from_scratch.Value.{Value, str, instant, Fields, end, field, get, has, update, ℤ}
use agent_oauth_from_scratch.Value.Times.{later, second}
use agent_oauth_from_scratch.Platform.{Platform, Checks}
use agent_oauth_from_scratch.Models.{SigningKey}
use agent_oauth_from_scratch.Delegation.{is_text}

abbrev pub algorithm : String
algorithm = "ES256"

abbrev pub access_token_type : String
access_token_type = "at+jwt"

-- in sorted order
abbrev pub minter_owned_claims : List String
minter_owned_claims = "exp" ∷ "iat" ∷ "iss" ∷ "jti" ∷ []

abbrev pub required_claims : List String
required_claims = "iss" ∷ "sub" ∷ "aud" ∷ "iat" ∷ "exp" ∷ "jti" ∷ []

pub record MintedToken : Type 0 where
  pub token : String
  pub claims : Fields
  pub expires_in : ℕ

pub record TokenMinter : Type 0 where
  pub issuer : String
  pub signing_key : SigningKey
  pub default_ttl_seconds : ℤ

pub record TokenVerifier : Type 0 where
  pub issuer : String
  pub signing_key : SigningKey

abbrev pub lifetime : Option ℤ → TokenMinter → ℤ
lifetime none minter = minter.default_ttl_seconds
lifetime (some ttl_seconds) minter = ttl_seconds

-- `min(expires_at, not_after)`
abbrev pub earliest : ℕ → Option ℕ → ℕ
earliest expires_at none = expires_at
earliest expires_at (some not_after) = if ltb not_after expires_at then not_after else expires_at

abbrev pub full_claims : String → ℕ → ℕ → String → Fields → Fields
full_claims issuer now expires_at jti claims =
    update
      (field "iss" (str issuer)
        (field "iat" (instant now) (field "exp" (instant expires_at) (field "jti" (str jti) end))))
      claims

-- the header that the minter writes
abbrev pub token_header : SigningKey → Fields
token_header key = field "kid" (str key.kid) (field "typ" (str access_token_type) end)

module _ (platform : Platform) where
  sign : TokenMinter → ℕ → String → Fields → ℕ → Outcome MintedToken
  sign minter now jti claims expires_at =
      -- a difference below 0 is 0 here, and is refused alike
      let remaining = (expires_at - now) / second in
      let full = full_claims minter.issuer now expires_at jti claims in
      if eqb remaining 0
      then raised (token "the requested lifetime has already elapsed")
      else ok (record {
        token =
            platform.encode full minter.signing_key.private_key algorithm
              (token_header minter.signing_key);
        claims = full;
        expires_in = remaining;
      })

  -- The clock reading and the random `jti` are arguments.
  unfoldable pub mint :
      TokenMinter → Fields → Option ℤ → Option ℕ → ℕ → String → Outcome MintedToken
  unfolding sign
  mint minter claims ttl_seconds not_after now jti =
      let supplied = keep (has claims) minter_owned_claims in
      do
        guard (is_empty supplied) (token ("the caller may not set " <> comma_separated supplied))
        expires_at ← later now (lifetime ttl_seconds minter)
        sign minter now jti claims (earliest expires_at not_after)

  verify_claims : TokenVerifier → ℕ → String → Option String → Outcome Fields
  verify_claims verifier now text audience =
      elim (platform.decode now (platform.public_key verifier.signing_key.private_key)
        (record {
          algorithms = algorithm ∷ [];
          issuer = some verifier.issuer;
          audience = audience;
          required = required_claims;
          verify_aud = elim audience [ none ↦ false | some a ↦ true ];
        })
        text) [ none ↦ raised (token "token validation failed") | some claims ↦ ok claims ]

  verify_header : TokenVerifier → Option Fields → Outcome (Unit {0})
  verify_header verifier none = raised (token "token header is malformed")
  verify_header verifier (some header) = do
    guard (is_text (get header "alg") algorithm) (token "unsupported token algorithm")
    guard (is_text (get header "typ") access_token_type) (token "token is not an access token")
    guard (is_text (get header "kid") verifier.signing_key.kid)
        (token "token was not signed by the active key")

  -- `_verify`; the clock reading is that of PyJWT
  unfoldable pub verify_token : TokenVerifier → ℕ → String → Option String → Outcome Fields
  unfolding verify_claims verify_header
  verify_token verifier now text audience = do
    verify_header verifier (platform.unverified_header text)
    verify_claims verifier now text audience

  unfoldable pub verify_any_audience : TokenVerifier → ℕ → String → Outcome Fields
  unfolding verify_token
  verify_any_audience verifier now text = verify_token verifier now text none

  unfoldable pub verify : TokenVerifier → ℕ → String → String → Outcome Fields
  unfolding verify_token
  verify verifier now text audience = verify_token verifier now text (some audience)
