-- ===== src/Auth/PrivateKeyJwt.antt =====
-- auth/private_key_jwt.py, `verify`: the client's own key, the claims, and the single use.
pub mod Proof
pub mod Used
pub mod Accepted
pub mod Decided
pub mod Once
pub mod Statements
pub mod Single
use agent_oauth_from_scratch.Shared.{
  ℕ, String, Bool, true, false, Option, none, some, List, [], ◌∷◌, ◌==◌, if◌then◌else◌, Bool-cases,
  inl, inr,
}
use agent_oauth_from_scratch.Outcome.{ok}
use agent_oauth_from_scratch.Exec.{Exec, pure, lift, ◌>>=◌}
use agent_oauth_from_scratch.Value.{
  Value, null, bool, int, float, str, arr, obj, instant, Fields, get,
}
use agent_oauth_from_scratch.Models.{RegisteredClient, ClientKey}
use agent_oauth_from_scratch.Platform.{Platform, Draws, Checks}
use agent_oauth_from_scratch.Process
use agent_oauth_from_scratch.Process.{Process, statement, ◌>>=◌ as next}
use agent_oauth_from_scratch.Process.Alone.{Refines, lift-Refines, statement-Refines, >>=-Refines}
use agent_oauth_from_scratch.Storage.{Database, get_key, claim}
use agent_oauth_from_scratch.Delegation.{is_text}
use agent_oauth_from_scratch.Auth.Base.{PresentedCredential, ClientAuthMethod}
use agent_oauth_from_scratch.Auth.SecretPost.{or_default}
use agent_oauth_from_scratch.Auth.Assertion.{
  PrivateKeyJwt, private_key_jwt_name, algorithm, extract_assertion, claims_are_acceptable,
  replay_key,
}

-- the options of the `jwt.decode` of an assertion; the audience is checked by the program
abbrev pub assertion_checks : Checks
assertion_checks = record {
  algorithms = algorithm ∷ [];
  issuer = none;
  audience = none;
  required = "iss" ∷ "sub" ∷ "aud" ∷ "exp" ∷ "jti" ∷ [];
  verify_aud = false;
}

-- `not isinstance(kid, str) or not kid`
abbrev usable_kid : Value → Option String
usable_kid (str kid) = if kid == "" then none else some kid
usable_kid _ = none

module _ (platform : Platform) (method : PrivateKeyJwt) where
  -- `_is_first_use`
  unfoldable pub is_first_use : Fields → Exec Database Bool
  is_first_use claims = do key ← lift (replay_key platform claims); claim key.0 key.1 key.2

  and_first_use : Bool → Fields → Exec Database Bool
  and_first_use false claims = pure false
  and_first_use true claims = is_first_use claims

  pub accept_claims : Draws → Option Fields → RegisteredClient → Exec Database Bool
  accept_claims draws none client = pure false
  accept_claims draws (some claims) client = do
    acceptable ←
        lift (claims_are_acceptable platform method draws.assertion_checked_at claims client)
    and_first_use acceptable claims

  -- `jwt.decode` under the key of the row; a key that is no usable JWK gives no claims
  decode_with : Draws → ClientKey → String → Option Fields
  decode_with draws key assertion = elim (platform.jwk_key key.public_jwk) [
    | none ↦ none
    | some public_key ↦
        platform.decode draws.assertion_verified_at public_key assertion_checks assertion
  ]

  with_key : Draws → Option ClientKey → String → RegisteredClient → Exec Database Bool
  with_key draws none assertion client = pure false
  with_key draws (some key) assertion client =
      accept_claims draws (decode_with draws key assertion) client

  -- for an unknown client the signature check whose result is dropped has no effect
  with_kid : Draws → Option String → String → Option RegisteredClient → Exec Database Bool
  with_kid draws none assertion client = pure false
  with_kid draws (some kid) assertion none = pure false
  with_kid draws (some kid) assertion (some client) = do
    key ← get_key client.client_id kid
    with_key draws key assertion client

  with_header : Draws → Option Fields → String → Option RegisteredClient → Exec Database Bool
  with_header draws none assertion client = pure false
  with_header draws (some header) assertion client =
      if is_text (get header "alg") algorithm
      then with_kid draws (usable_kid (get header "kid")) assertion client
      else pure false

  -- `PrivateKeyJwt.verify`
  unfoldable pub verify_assertion :
      Draws → PresentedCredential → Option RegisteredClient → Exec Database Bool
  unfolding with_header with_kid with_key decode_with accept_claims and_first_use is_first_use
  verify_assertion draws presented client =
      let assertion = or_default presented.assertion "" in
      with_header draws (platform.unverified_header assertion) assertion client

  -- the same, statement by statement
  unfoldable pub is_first_use_steps : Fields → Process Database Bool
  is_first_use_steps claims =
      next (Process.lift (replay_key platform claims)) λ key. statement (claim key.0 key.1 key.2)

  and_first_use_steps : Bool → Fields → Process Database Bool
  and_first_use_steps false claims = Process.pure false
  and_first_use_steps true claims = is_first_use_steps claims

  accept_claims_steps : Draws → Option Fields → RegisteredClient → Process Database Bool
  accept_claims_steps draws none client = Process.pure false
  accept_claims_steps draws (some claims) client =
      next
        (Process.lift
          (claims_are_acceptable platform method draws.assertion_checked_at claims client))
        λ acceptable. and_first_use_steps acceptable claims

  with_key_steps : Draws → Option ClientKey → String → RegisteredClient → Process Database Bool
  with_key_steps draws none assertion client = Process.pure false
  with_key_steps draws (some key) assertion client =
      accept_claims_steps draws (decode_with draws key assertion) client

  with_kid_steps : Draws → Option String → String → Option RegisteredClient → Process Database Bool
  with_kid_steps draws none assertion client = Process.pure false
  with_kid_steps draws (some kid) assertion none = Process.pure false
  with_kid_steps draws (some kid) assertion (some client) =
      next (statement (get_key client.client_id kid))
        λ key. with_key_steps draws key assertion client

  with_header_steps :
      Draws → Option Fields → String → Option RegisteredClient → Process Database Bool
  with_header_steps draws none assertion client = Process.pure false
  with_header_steps draws (some header) assertion client =
      if is_text (get header "alg") algorithm
      then with_kid_steps draws (usable_kid (get header "kid")) assertion client
      else Process.pure false

  unfoldable pub verify_assertion_steps :
      Draws → PresentedCredential → Option RegisteredClient → Process Database Bool
  unfolding decode_with with_header_steps with_kid_steps with_key_steps accept_claims_steps
      and_first_use_steps is_first_use_steps
  verify_assertion_steps draws presented client =
      let assertion = or_default presented.assertion "" in
      with_header_steps draws (platform.unverified_header assertion) assertion client

  and_first_use-Refines :
      (acceptable : Bool) (claims : Fields)
      → Refines (and_first_use_steps acceptable claims) (and_first_use acceptable claims)
  unfolding and_first_use_steps and_first_use is_first_use_steps is_first_use
  and_first_use-Refines false claims = lift-Refines (ok false)
  and_first_use-Refines true claims =
      >>=-Refines _ _ _ _ (lift-Refines (replay_key platform claims))
        λ key. statement-Refines (claim key.0 key.1 key.2)

  accept_claims-Refines :
      (draws : Draws) (claims : Option Fields) (client : RegisteredClient)
      → Refines (accept_claims_steps draws claims client) (accept_claims draws claims client)
  unfolding accept_claims_steps accept_claims
  accept_claims-Refines draws none client = lift-Refines (ok false)
  accept_claims-Refines draws (some claims) client =
      >>=-Refines _ _ _ _
        (lift-Refines
          (claims_are_acceptable platform method draws.assertion_checked_at claims client))
        λ acceptable. and_first_use-Refines acceptable claims

  with_key-Refines :
      (draws : Draws) (key : Option ClientKey) (assertion : String) (client : RegisteredClient)
      → Refines (with_key_steps draws key assertion client) (with_key draws key assertion client)
  unfolding with_key_steps with_key
  with_key-Refines draws none assertion client = lift-Refines (ok false)
  with_key-Refines draws (some key) assertion client =
      accept_claims-Refines draws (decode_with draws key assertion) client

  with_kid-Refines :
      (draws : Draws) (kid : Option String) (assertion : String) (client : Option RegisteredClient)
      → Refines (with_kid_steps draws kid assertion client) (with_kid draws kid assertion client)
  unfolding with_kid_steps with_kid
  with_kid-Refines draws none assertion client = lift-Refines (ok false)
  with_kid-Refines draws (some kid) assertion none = lift-Refines (ok false)
  with_kid-Refines draws (some kid) assertion (some client) =
      >>=-Refines _ _ _ _ (statement-Refines (get_key client.client_id kid))
        λ key. with_key-Refines draws key assertion client

  with_header-Refines :
      (draws : Draws) (header : Option Fields) (assertion : String)
      (client : Option RegisteredClient)
      → Refines
          (with_header_steps draws header assertion client)
          (with_header draws header assertion client)
  unfolding with_header_steps with_header
  with_header-Refines draws none assertion client = lift-Refines (ok false)
  with_header-Refines draws (some header) assertion client =
      elim (Bool-cases (is_text (get header "alg") algorithm)) [
        | inl same ↦
            rw same (with_kid-Refines draws (usable_kid (get header "kid")) assertion client)
        | inr other ↦ rw other (lift-Refines (ok false))
      ]

  pub verify_assertion-Refines :
      (draws : Draws) (presented : PresentedCredential) (client : Option RegisteredClient)
      → Refines
          (verify_assertion_steps draws presented client)
          (verify_assertion draws presented client)
  unfolding verify_assertion_steps verify_assertion
  verify_assertion-Refines draws presented client =
      let assertion = or_default presented.assertion "" in
      with_header-Refines draws (platform.unverified_header assertion) assertion client

  abbrev pub private_key_jwt : ClientAuthMethod
  private_key_jwt = record {
    name = private_key_jwt_name;
    extract = extract_assertion platform;
    verify = verify_assertion;
    verify_steps = verify_assertion_steps;
    verify_alone = verify_assertion-Refines;
  }
