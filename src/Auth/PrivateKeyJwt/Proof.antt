-- ===== src/Auth/PrivateKeyJwt/Proof.antt =====
-- What an accepted client assertion proves, and that it is accepted once.
use agent_oauth_from_scratch.Shared.{
  refl, String, Bool, true, false, Option, none, some, Bool-cases, inl, inr,
}
use agent_oauth_from_scratch.Exec.{lift}
use agent_oauth_from_scratch.Value.{Fields, get}
use agent_oauth_from_scratch.Models.{RegisteredClient, ClientKey}
use agent_oauth_from_scratch.Platform.{Platform, Draws}
use agent_oauth_from_scratch.Storage.{get_key}
use agent_oauth_from_scratch.Storage.Keeping.{Keeps, bind-Keeps, get_key-Keeps, claim-Keeps}
use agent_oauth_from_scratch.Delegation.{is_text}
use agent_oauth_from_scratch.Auth.Base.{PresentedCredential}
use agent_oauth_from_scratch.Auth.SecretPost.{or_default}
use agent_oauth_from_scratch.Auth.Assertion.{
  PrivateKeyJwt, algorithm, claims_are_acceptable, replay_key,
}
use agent_oauth_from_scratch.Auth.PrivateKeyJwt.{
  is_first_use, and_first_use, accept_claims, decode_with, with_key, with_kid, with_header,
  usable_kid, verify_assertion,
}

module _ (platform : Platform) (method : PrivateKeyJwt) where
  and_first_use-Keeps :
      (acceptable : Bool) (claims : Fields)
      → Keeps (and_first_use platform method acceptable claims)
  unfolding and_first_use is_first_use
  and_first_use-Keeps false claims db = refl
  and_first_use-Keeps true claims db =
      bind-Keeps (lift (replay_key platform claims)) _ (λ db. refl)
        (λ key. claim-Keeps key.0 key.1 key.2) db

  accept_claims-Keeps :
      (draws : Draws) (claims : Option Fields) (client : RegisteredClient)
      → Keeps (accept_claims platform method draws claims client)
  unfolding accept_claims
  accept_claims-Keeps draws none client db = refl
  accept_claims-Keeps draws (some claims) client db =
      bind-Keeps
        (lift (claims_are_acceptable platform method draws.assertion_checked_at claims client)) _
        (λ db. refl) (λ acceptable. and_first_use-Keeps acceptable claims) db

  with_key-Keeps :
      (draws : Draws) (key : Option ClientKey) (assertion : String) (client : RegisteredClient)
      → Keeps (with_key platform method draws key assertion client)
  unfolding with_key
  with_key-Keeps draws none assertion client db = refl
  with_key-Keeps draws (some key) assertion client db =
      accept_claims-Keeps draws (decode_with platform method draws key assertion) client db

  with_kid-Keeps :
      (draws : Draws) (kid : Option String) (assertion : String) (client : Option RegisteredClient)
      → Keeps (with_kid platform method draws kid assertion client)
  unfolding with_kid
  with_kid-Keeps draws none assertion client db = refl
  with_kid-Keeps draws (some kid) assertion none db = refl
  with_kid-Keeps draws (some kid) assertion (some client) db =
      bind-Keeps (get_key client.client_id kid) _ (get_key-Keeps client.client_id kid)
        (λ row. with_key-Keeps draws row assertion client) db

  with_header-Keeps :
      (draws : Draws) (header : Option Fields) (assertion : String)
      (client : Option RegisteredClient)
      → Keeps (with_header platform method draws header assertion client)
  unfolding with_header
  with_header-Keeps draws none assertion client db = refl
  with_header-Keeps draws (some header) assertion client db =
      elim (Bool-cases (is_text (get header "alg") algorithm)) [
        | inl same ↦
            rw same (with_kid-Keeps draws (usable_kid (get header "kid")) assertion client db)
        | inr other ↦ rw other
      ]

  pub verify_assertion-Keeps :
      (draws : Draws) (presented : PresentedCredential) (client : Option RegisteredClient)
      → Keeps (verify_assertion platform method draws presented client)
  unfolding verify_assertion
  verify_assertion-Keeps draws presented client =
      let assertion = or_default presented.assertion "" in
      with_header-Keeps draws (platform.unverified_header assertion) assertion client
