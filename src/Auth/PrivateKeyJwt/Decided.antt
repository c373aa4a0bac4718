-- ===== src/Auth/PrivateKeyJwt/Decided.antt =====
-- auth/private_key_jwt.py, `verify`: which client assertions are accepted.
use agent_oauth_from_scratch.Shared.{ℕ, ◌≡◌, refl, ◌↔◌, String, true, false, Option, some}
use agent_oauth_from_scratch.Outcome.{ok}
use agent_oauth_from_scratch.Value.{Fields}
use agent_oauth_from_scratch.Models.{RegisteredClient, ClientKey}
use agent_oauth_from_scratch.Platform.{Platform, Draws, PublicKey}
use agent_oauth_from_scratch.Storage.{Database, is_claimed, get_key, claim}
use agent_oauth_from_scratch.Auth.Base.{PresentedCredential}
use agent_oauth_from_scratch.Auth.SecretPost.{or_default}
use agent_oauth_from_scratch.Auth.Assertion.{PrivateKeyJwt, replay_key}
use agent_oauth_from_scratch.Auth.Assertion.Acceptable.{
  claims_are_acceptable_iff, replay_key-IsAcceptable,
}
use agent_oauth_from_scratch.Auth.PrivateKeyJwt.Accepted.{IsAccepted, verify_assertion-IsAccepted}
use agent_oauth_from_scratch.Auth.PrivateKeyJwt.{
  is_first_use, and_first_use, accept_claims, decode_with, with_key, with_kid, with_header,
  verify_assertion, assertion_checks,
}

get_key_same : (client_id kid : String) (db : Database) → (get_key client_id kid db).1 ≡ db
unfolding get_key
get_key_same client_id kid db = refl

module _ (platform : Platform) (method : PrivateKeyJwt) where
  and_first_use-of_fresh :
      (claims : Fields) (key : String × String × ℕ) (db : Database)
      → replay_key platform claims ≡ ok key
      → is_claimed db.client_assertion_jti key.0 key.1 ≡ false
      → (and_first_use platform method true claims db).0 ≡ ok true
  unfolding and_first_use is_first_use claim
  and_first_use-of_fresh claims key db named fresh = rw (named, fresh) refl

  decode_with-of_usable :
      (draws : Draws) (row : ClientKey) (assertion : String) (claims : Fields)
      (public_key : PublicKey)
      → platform.jwk_key row.public_jwk ≡ some public_key
      → platform.decode draws.assertion_verified_at public_key assertion_checks assertion
        ≡ some claims
      → decode_with platform method draws row assertion ≡ some claims
  unfolding decode_with
  decode_with-of_usable draws row assertion claims public_key usable decoded =
      rw (usable, decode_with) decoded

  with_key-of_accepted :
      (draws : Draws) (assertion : String) (client : RegisteredClient) (db after : Database)
      (a : IsAccepted platform method draws assertion client db after)
      → (with_key platform method draws (some a.row) assertion client db).0 ≡ ok true
  unfolding with_key accept_claims
  with_key-of_accepted draws assertion client db after a =
      let now = draws.assertion_checked_at in
      rw
        (
          decode_with-of_usable draws a.row assertion a.claims a.public_key a.usable a.decoded,
          (claims_are_acceptable_iff platform method now a.claims client).1 a.acceptable,
        )
        (and_first_use-of_fresh a.claims _ db
          (replay_key-IsAcceptable platform method now a.claims client a.jti a.acceptable a.has_jti)
          a.fresh)

  with_kid-of_accepted :
      (draws : Draws) (assertion : String) (client : RegisteredClient) (db after : Database)
      (a : IsAccepted platform method draws assertion client db after)
      → (with_kid platform method draws (some a.kid) assertion (some client) db).0 ≡ ok true
  unfolding with_kid
  with_kid-of_accepted draws assertion client db after a =
      rw (a.has_key, get_key_same client.client_id a.kid db)
        (with_key-of_accepted draws assertion client db after a)

  -- An assertion is accepted exactly when the client exists and the assertion is good: its header
  -- can be read, has the algorithm, and names a key of that very client; it verifies under that
  -- key; its claims are issued by the client, about the client, for this server, and expire at
  -- most five minutes from now; and its identifier was unused by that client. It is used
  -- afterwards.
  pub verify_assertion_iff :
      (draws : Draws) (presented : PresentedCredential) (client : Option RegisteredClient)
      (db : Database)
      → ((verify_assertion platform method draws presented client db).0 ≡ ok true) ↔ (
          (owner : RegisteredClient) × (client ≡ some owner)
          × IsAccepted platform method draws
              (or_default presented.assertion "")
              owner
              db
              (verify_assertion platform method draws presented client db).1)
  unfolding verify_assertion with_header
  verify_assertion_iff draws presented client db = (
    verify_assertion-IsAccepted platform method draws presented client db,
    λ (owner, is_owner, a).
        rw (is_owner, a.parsed, a.signed_by, a.signed_with)
          (with_kid-of_accepted draws (or_default presented.assertion "") owner db _ a),
  )
