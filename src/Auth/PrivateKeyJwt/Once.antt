-- ===== src/Auth/PrivateKeyJwt/Once.antt =====
-- An accepted client assertion is not accepted again.
use agent_oauth_from_scratch.Shared.{ℕ, ◌≡◌, ◌≢◌, sym, ap, ◌∙◌, String, true, Option, some}
use agent_oauth_from_scratch.Outcome.{ok, ok-injective}
use agent_oauth_from_scratch.Value.{Fields}
use agent_oauth_from_scratch.Models.{RegisteredClient}
use agent_oauth_from_scratch.Platform.{Platform, Draws, PublicKey, Checks}
use agent_oauth_from_scratch.Storage.{Database, is_claimed}
use agent_oauth_from_scratch.Auth.Base.{PresentedCredential}
use agent_oauth_from_scratch.Auth.SecretPost.{or_default}
use agent_oauth_from_scratch.Auth.Assertion.{PrivateKeyJwt, replay_key}
use agent_oauth_from_scratch.Auth.Assertion.Acceptable.{replay_key-IsAcceptable}
use agent_oauth_from_scratch.Auth.PrivateKeyJwt.Accepted.{verify_assertion-IsAccepted}
use agent_oauth_from_scratch.Auth.PrivateKeyJwt.{verify_assertion, assertion_checks}

module _ (platform : Platform) (method : PrivateKeyJwt) where
  -- The claims of a signed text do not depend on the time or the key with which it verifies.
  abbrev IsStable : Type 0
  IsStable =
      (now later : ℕ) (key other : PublicKey) (checks : Checks) (text : String) (a b : Fields)
      → platform.decode now key checks text ≡ some a
      → platform.decode later other checks text ≡ some b
      → a ≡ b

  -- If the claims of a signed text do not depend on when and with which key it verifies, a
  -- client assertion that was accepted is not accepted again on the database that it left, at
  -- no time and for no client.
  verify_assertion-once :
      IsStable
      → (draws draws' : Draws) (presented : PresentedCredential)
        (client other : Option RegisteredClient) (db : Database)
      → (verify_assertion platform method draws presented client db).0 ≡ ok true
      → (verify_assertion platform method draws' presented other
          (verify_assertion platform method draws presented client db).1).0
        ≢ ok true
  verify_assertion-once stable draws draws' presented client other db h again =
      let after = (verify_assertion platform method draws presented client db).1 in
      let (owner, is_owner, first) =
        verify_assertion-IsAccepted platform method draws presented client db h in
      let (owner', is_owner', second) =
        verify_assertion-IsAccepted platform method draws' presented other after again in
      let same =
        stable draws.assertion_verified_at draws'.assertion_verified_at first.public_key
          second.public_key assertion_checks (or_default presented.assertion "") first.claims
          second.claims first.decoded second.decoded in
      let keys = ok-injective (
        sym (
          replay_key-IsAcceptable platform method draws.assertion_checked_at first.claims owner
            first.jti first.acceptable first.has_jti)
        ∙ ap (replay_key platform) same
        ∙ replay_key-IsAcceptable platform method draws'.assertion_checked_at second.claims owner'
            second.jti second.acceptable second.has_jti) in
      absurd (
        cc (
          first.used,
          second.fresh,
          ap (λ (k : String × String × ℕ). is_claimed after.client_assertion_jti k.0 k.1) keys,
        ))
