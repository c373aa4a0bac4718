-- ===== src/Pipeline/Verifying.antt =====
-- The tokens of services/pipeline.py at the verifier of crypto/tokens.py.
use agent_oauth_from_scratch.Shared.{
  ℕ, ◌*◌, ◌/◌, ◌≤◌, ◌<◌, ◌≡◌, ◌≢◌, ◌⊎◌, refl, sym, ap, ◌∙◌, String, true, false, Option, none, some,
  [], ◌∷◌, eq_refl, inl, inr,
}
use agent_oauth_from_scratch.Shared.Lists.{contains, All}
use agent_oauth_from_scratch.Shared.Words.{join}
use agent_oauth_from_scratch.Outcome.{ok, raised, token}
use agent_oauth_from_scratch.Value.{null, str, instant, Fields, end, get}
use agent_oauth_from_scratch.Value.Times.{second}
use agent_oauth_from_scratch.Value.Wire.{IsReadBack}
use agent_oauth_from_scratch.Config.{Settings}
use agent_oauth_from_scratch.Models.{SigningKey}
use agent_oauth_from_scratch.Platform.{Platform, Checks, PrivateKey, Draws}
use agent_oauth_from_scratch.Storage.{Database}
use agent_oauth_from_scratch.Tokens.{
  algorithm, required_claims, token_header, TokenVerifier, verify_any_audience, verify,
  verify_token,
}
use agent_oauth_from_scratch.Tokens.Minting.{mint-claims}
use agent_oauth_from_scratch.Grants.Base.{GrantResult}
use agent_oauth_from_scratch.Grants.Exchange.Steps.{encoded}
use agent_oauth_from_scratch.Pipeline.{IssuedToken, or_else, issued_claims, minter}
use agent_oauth_from_scratch.Pipeline.Claims.{issued_claims-IsDict}
use agent_oauth_from_scratch.Pipeline.Issuing.{IsIssued}
use agent_oauth_from_scratch.Pipeline.Guarantees.{issued-AreClaims}

some-injective : {A : Type 0} {a b : A} → some a ≡ some b → a ≡ b
some-injective {A} {a} h = ap (λ o. elim o [ none ↦ a | some x ↦ x ]) h

-- What PyJWT checks of the claims, at a time: `jwt.decode` compares whole seconds.
pub record IsAcceptable (now : ℕ) (claims : Fields) (checks : Checks) : Type 0 where
  pub subject : String
  pub identifier : String
  pub issued : ℕ
  pub expires : ℕ
  pub required : All (λ name. get claims name ≢ null) checks.required
  pub iss : (issuer : String) → checks.issuer ≡ some issuer → get claims "iss" ≡ str issuer
  pub aud :
      (checks.verify_aud ≡ false)
      ⊎ ((audience : String) × (checks.audience ≡ some audience)
          × (get claims "aud" ≡ str audience))
  pub sub : get claims "sub" ≡ str subject
  pub jti : get claims "jti" ≡ str identifier
  pub iat : get claims "iat" ≡ instant issued
  pub past : issued ≤ now
  pub exp : get claims "exp" ≡ instant expires
  pub alive : now < expires / second * second
  pub nbf : get claims "nbf" ≡ null

-- What PyJWT documents of a text that it signed: the header is read as it was written, beside the
-- algorithm, and the claims are given back if they pass the checks, with the signer's public key.
pub record IsSigned (platform : Platform) (claims : Fields) (key : PrivateKey) (header : Fields)
    : Type 0 where
  pub header_read : Fields
  pub opens :
      platform.unverified_header (platform.encode claims key algorithm header) ≡ some header_read
  pub alg : get header_read "alg" ≡ str algorithm
  pub typ : get header_read "typ" ≡ get header "typ"
  pub kid : get header_read "kid" ≡ get header "kid"
  pub decodes :
      (now : ℕ) (checks : Checks)
      → contains checks.algorithms algorithm ≡ true
      → IsAcceptable now claims checks
      → (read : Fields) × (platform.decode now
            (platform.public_key key)
            checks
            (platform.encode claims key algorithm header)
          ≡ some read)
        × IsReadBack read claims

module _ (platform : Platform) (settings : Settings) (signing_key : SigningKey) (draws : Draws)
    (result : GrantResult) (db after : Database) (issued : IssuedToken)
    (i : IsIssued platform settings signing_key draws result db after issued) where
  -- the verifier that `create_app` makes
  abbrev verifier : TokenVerifier
  verifier = record { issuer = settings.issuer; signing_key = signing_key }

  abbrev own_audience : String
  own_audience = or_else result.audience settings.resource_audience

  -- the checks of `_verify`
  abbrev checks_for : Option String → Checks
  checks_for audience = record {
    algorithms = algorithm ∷ [];
    issuer = some settings.issuer;
    audience = audience;
    required = required_claims;
    verify_aud = elim audience [ none ↦ false | some a ↦ true ];
  }

  acceptable :
      (audience : Option String) (now : ℕ)
      → result.extra_claims ≡ end
      → i.issued_at ≤ now
      → now < i.expires_at / second * second
      → (audience ≡ none) ⊎ (audience ≡ some own_audience)
      → IsAcceptable now i.minted.claims (checks_for audience)
  acceptable audience now plain past alive asked =
      let c = issued-AreClaims platform settings signing_key draws result db after issued i plain in
      let iss =
        (mint-claims platform (minter platform settings signing_key)
          (issued_claims settings result (join i.granted)) none result.max_expires_at
          draws.minted_at draws.jti i.minted (issued_claims-IsDict settings result (join i.granted))
          i.signed).0 in
      record {
        subject = result.subject;
        identifier = i.jti;
        issued = i.issued_at;
        expires = i.expires_at;
        required = (
          λ h. absurd (cc (sym iss ∙ h)),
          (
            λ h. absurd (cc (sym c.sub ∙ h)),
            (
              λ h. absurd (cc (sym c.aud ∙ h)),
              (
                λ h. absurd (cc (sym i.iat_claim ∙ h)),
                (
                  λ h. absurd (cc (sym i.exp_claim ∙ h)),
                  (λ h. absurd (cc (sym i.jti_claim ∙ h)), tt),
                ),
              ),
            ),
          ),
        );
        iss = λ issuer same. iss ∙ ap str (some-injective same);
        aud = elim asked [ inl any ↦ inl (rw any refl) | inr own ↦ inr (own_audience, own, c.aud) ];
        sub = c.sub;
        jti = i.jti_claim;
        iat = i.iat_claim;
        past = past;
        exp = i.exp_claim;
        alive = alive;
        nbf = c.nbf;
      }

  -- `_verify` of the token for no audience or for its own one.
  verify_token-issued :
      (audience : Option String) (now : ℕ)
      → IsSigned platform i.minted.claims signing_key.private_key (token_header signing_key)
      → IsAcceptable now i.minted.claims (checks_for audience)
      → (read : Fields) × (verify_token platform verifier now issued.access_token audience
          ≡ ok read)
        × IsReadBack read i.minted.claims
  unfolding verify_token get
  verify_token-issued audience now s good =
      let (read, decoded, back) = s.decodes now (checks_for audience) refl good in
      let text = encoded platform settings signing_key draws result db after issued i in
      (
        read,
        rw (text, s.opens, s.alg, s.typ, s.kid, eq_refl signing_key.kid)
            (ap
              (λ o. elim o [
                | none ↦ raised (token "token validation failed")
                | some claims ↦ ok claims
              ])
              decoded),
        back,
      )

  -- If the grant adds no claims of its own, and PyJWT reads a text that it signed as it
  -- documents: from the time when a token was issued until the last whole second before it
  -- expires, the server's own verifier accepts it, both for any audience and for the token's
  -- own one, and returns the claims that were signed, their times as whole seconds.
  pub verify-issued :
      result.extra_claims ≡ end
      → IsSigned platform i.minted.claims signing_key.private_key (token_header signing_key)
      → (now : ℕ) → i.issued_at ≤ now
      → now < i.expires_at / second * second
      → ((read : Fields) × (verify_any_audience platform verifier now issued.access_token ≡ ok read)
          × IsReadBack read i.minted.claims)
        × ((read : Fields) × (verify platform verifier now issued.access_token own_audience
              ≡ ok read)
            × IsReadBack read i.minted.claims)
  unfolding verify_any_audience verify
  verify-issued plain s now past alive = (
    verify_token-issued none now s (acceptable none now plain past alive (inl refl)),
    verify_token-issued (some own_audience) now s
        (acceptable (some own_audience) now plain past alive (inr refl)),
  )
