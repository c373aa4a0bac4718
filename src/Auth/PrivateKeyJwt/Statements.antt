-- ===== src/Auth/PrivateKeyJwt/Statements.antt =====
-- auth/private_key_jwt.py: the statements of `verify`.
use agent_oauth_from_scratch.Shared.{
  String, Bool, true, false, Option, none, some, Bool-cases, inl, inr,
}
use agent_oauth_from_scratch.Process.Follows.{Follows, lift-Follows, statement-Follows, >>=-Follows}
use agent_oauth_from_scratch.Value.{Fields, get}
use agent_oauth_from_scratch.Models.{RegisteredClient, ClientKey}
use agent_oauth_from_scratch.Platform.{Platform, Draws}
use agent_oauth_from_scratch.Storage.{get_key, claim}
use agent_oauth_from_scratch.Storage.Moves.{Uses, claimed, get_key-Uses}
use agent_oauth_from_scratch.Delegation.{is_text}
use agent_oauth_from_scratch.Auth.Base.{PresentedCredential}
use agent_oauth_from_scratch.Auth.SecretPost.{or_default}
use agent_oauth_from_scratch.Auth.Assertion.{
  PrivateKeyJwt, algorithm, claims_are_acceptable, replay_key,
}
use agent_oauth_from_scratch.Auth.PrivateKeyJwt.{
  is_first_use_steps, and_first_use_steps, accept_claims_steps, decode_with, with_key_steps,
  with_kid_steps, with_header_steps, usable_kid, verify_assertion_steps,
}

module _ (platform : Platform) (method : PrivateKeyJwt) where
  and_first_use-Follows :
      (acceptable : Bool) (claims : Fields)
      → Follows Uses 1 (and_first_use_steps platform method acceptable claims)
  unfolding and_first_use_steps is_first_use_steps
  and_first_use-Follows false claims = tt
  and_first_use-Follows true claims =
      lift-Follows Uses 1 (replay_key platform claims) _
        λ key. statement-Follows Uses (claim key.0 key.1 key.2) λ db. claimed key.0 key.1 key.2

  accept_claims-Follows :
      (draws : Draws) (claims : Option Fields) (client : RegisteredClient)
      → Follows Uses 1 (accept_claims_steps platform method draws claims client)
  unfolding accept_claims_steps
  accept_claims-Follows draws none client = tt
  accept_claims-Follows draws (some claims) client =
      lift-Follows Uses 1
        (claims_are_acceptable platform method draws.assertion_checked_at claims client) _
        λ acceptable. and_first_use-Follows acceptable claims

  with_key-Follows :
      (draws : Draws) (key : Option ClientKey) (assertion : String) (client : RegisteredClient)
      → Follows Uses 1 (with_key_steps platform method draws key assertion client)
  unfolding with_key_steps
  with_key-Follows draws none assertion client = tt
  with_key-Follows draws (some key) assertion client =
      accept_claims-Follows draws (decode_with platform method draws key assertion) client

  with_kid-Follows :
      (draws : Draws) (kid : Option String) (assertion : String) (client : Option RegisteredClient)
      → Follows Uses 2 (with_kid_steps platform method draws kid assertion client)
  unfolding with_kid_steps
  with_kid-Follows draws none assertion client = tt
  with_kid-Follows draws (some kid) assertion none = tt
  with_kid-Follows draws (some kid) assertion (some client) =
      >>=-Follows Uses 1 1 _ _
        (statement-Follows Uses (get_key client.client_id kid) (get_key-Uses client.client_id kid))
        λ key. with_key-Follows draws key assertion client

  with_header-Follows :
      (draws : Draws) (header : Option Fields) (assertion : String)
      (client : Option RegisteredClient)
      → Follows Uses 2 (with_header_steps platform method draws header assertion client)
  unfolding with_header_steps
  with_header-Follows draws none assertion client = tt
  with_header-Follows draws (some header) assertion client =
      elim (Bool-cases (is_text (get header "alg") algorithm)) [
        | inl same ↦
            rw same (with_kid-Follows draws (usable_kid (get header "kid")) assertion client)
        | inr other ↦ rw other tt
      ]

  pub verify_assertion-Follows :
      (draws : Draws) (presented : PresentedCredential) (client : Option RegisteredClient)
      → Follows Uses 2 (verify_assertion_steps platform method draws presented client)
  unfolding verify_assertion_steps
  verify_assertion-Follows draws presented client =
      let assertion = or_default presented.assertion "" in
      with_header-Follows draws (platform.unverified_header assertion) assertion client
