-- ===== src/Auth/PrivateKeyJwt/Single.antt =====
-- auth/private_key_jwt.py, `verify`, statement by statement: a text is proven by nothing but the claim
-- of its identifier.
use native.Mathlib.Nat.{le_refl}
use agent_oauth_from_scratch.Shared.{
  ℕ, ◌≡◌, refl, String, Bool, true, false, Option, none, some, Bool-cases, Option-cases, inl, inr,
}
use agent_oauth_from_scratch.Outcome.{ok}
use agent_oauth_from_scratch.Process.{◌>>=◌}
use agent_oauth_from_scratch.Process.Gated.{Gated, Denies, rest-Gated, lift-Gated}
use agent_oauth_from_scratch.Value.{Fields, get}
use agent_oauth_from_scratch.Models.{RegisteredClient, ClientKey}
use agent_oauth_from_scratch.Platform.{Platform, Draws, PublicKey}
use agent_oauth_from_scratch.Storage.Replays.Held.{IsWon, claim-IsWon}
use agent_oauth_from_scratch.Delegation.{is_text}
use agent_oauth_from_scratch.Auth.Base.{PresentedCredential}
use agent_oauth_from_scratch.Auth.Assertion.{
  PrivateKeyJwt, algorithm, claims_are_acceptable, replay_key,
}
use agent_oauth_from_scratch.Auth.PrivateKeyJwt.{
  is_first_use_steps, and_first_use_steps, accept_claims_steps, decode_with, with_key_steps,
  with_kid_steps, with_header_steps, usable_kid, verify_assertion_steps, assertion_checks,
}

-- Whenever the text verifies, and with whichever key, it has these claims.
abbrev pub IsRead : Platform → String → Fields → Type 0
IsRead platform text claims =
    (now : ℕ) (key : PublicKey) (found : Fields)
    → platform.decode now key assertion_checks text ≡ some found
    → found ≡ claims

module _ (platform : Platform) (method : PrivateKeyJwt) (text : String) (claims : Fields)
    (read : IsRead platform text claims) (client_id jti : String) (expires_at : ℕ)
    (named : replay_key platform claims ≡ ok (client_id, jti, expires_at)) where
  and_first_use-Gated :
      (acceptable : Bool)
      → Gated
          (IsWon expires_at client_id jti)
          Denies
          (and_first_use_steps platform method acceptable claims)
  unfolding and_first_use_steps is_first_use_steps ◌>>=◌
  and_first_use-Gated false = tt
  and_first_use-Gated true = rw named (λ db.
      elim (claim-IsWon expires_at client_id jti expires_at db (le_refl expires_at)) [
        | inl lost ↦ inr (rw lost tt)
        | inr won ↦ inl won
      ])

  accept_claims-Gated :
      (draws : Draws) (decoded : Option Fields) (client : RegisteredClient)
      → ((found : Fields) → decoded ≡ some found → found ≡ claims)
      → Gated
          (IsWon expires_at client_id jti)
          Denies
          (accept_claims_steps platform method draws decoded client)
  unfolding accept_claims_steps
  accept_claims-Gated draws none client same = tt
  accept_claims-Gated draws (some found) client same = rw (same found refl) (
      lift-Gated (IsWon expires_at client_id jti) Denies (λ e. tt)
        (claims_are_acceptable platform method draws.assertion_checked_at claims client) _
        λ acceptable judged. and_first_use-Gated acceptable)

  decode_with-IsRead :
      (draws : Draws) (key : ClientKey) (found : Fields)
      → decode_with platform method draws key text ≡ some found
      → found ≡ claims
  unfolding decode_with
  decode_with-IsRead draws key found h = elim (Option-cases (platform.jwk_key key.public_jwk)) [
    | inl unusable ↦ absurd (cc (rw (unusable, decode_with) at h))
    | inr (public_key, usable) ↦
        read draws.assertion_verified_at public_key found (rw (usable, decode_with) at h)
  ]

  with_key-Gated :
      (draws : Draws) (key : Option ClientKey) (client : RegisteredClient)
      → Gated
          (IsWon expires_at client_id jti)
          Denies
          (with_key_steps platform method draws key text client)
  unfolding with_key_steps
  with_key-Gated draws none client = tt
  with_key-Gated draws (some key) client =
      accept_claims-Gated draws (decode_with platform method draws key text) client
        (decode_with-IsRead draws key)

  with_kid-Gated :
      (draws : Draws) (kid : Option String) (client : Option RegisteredClient)
      → Gated
          (IsWon expires_at client_id jti)
          Denies
          (with_kid_steps platform method draws kid text client)
  unfolding with_kid_steps
  with_kid-Gated draws none client = tt
  with_kid-Gated draws (some kid) none = tt
  with_kid-Gated draws (some kid) (some client) =
      rest-Gated (IsWon expires_at client_id jti) Denies (λ e. tt) _ _
        λ key. with_key-Gated draws key client

  with_header-Gated :
      (draws : Draws) (header : Option Fields) (client : Option RegisteredClient)
      → Gated
          (IsWon expires_at client_id jti)
          Denies
          (with_header_steps platform method draws header text client)
  unfolding with_header_steps
  with_header-Gated draws none client = tt
  with_header-Gated draws (some header) client =
      elim (Bool-cases (is_text (get header "alg") algorithm)) [
        | inl same ↦ rw same (with_kid-Gated draws (usable_kid (get header "kid")) client)
        | inr other ↦ rw other tt
      ]

  pub verify_assertion-Gated :
      (draws : Draws) (presented : PresentedCredential) (client : Option RegisteredClient)
      → presented.assertion ≡ some text
      → Gated
          (IsWon expires_at client_id jti)
          Denies
          (verify_assertion_steps platform method draws presented client)
  unfolding verify_assertion_steps
  verify_assertion-Gated draws presented client is_text =
      rw is_text (with_header-Gated draws (platform.unverified_header text) client)
