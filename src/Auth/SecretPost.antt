-- ===== src/Auth/SecretPost.antt =====
-- auth/client_secret_post.py and `verify_secret` of storage/secrets.py.
pub mod Presenting
use agent_oauth_from_scratch.Shared.{
  String, Bool, true, false, Option, none, some, List, [], ◌∷◌, not, ◌&&◌, if◌then◌else◌,
}
use agent_oauth_from_scratch.Outcome.{Outcome, ok, raised, uncaught, ◌>>=◌}
use agent_oauth_from_scratch.Exec
use agent_oauth_from_scratch.Exec.{Exec}
use agent_oauth_from_scratch.Value.{obj, Fields, end, field}
use agent_oauth_from_scratch.Value.Json.{string_type, password_type}
use agent_oauth_from_scratch.Forms.{TokenForm, present, require}
use agent_oauth_from_scratch.Models.{RegisteredClient}
use agent_oauth_from_scratch.Platform.{Platform, Draws}
use agent_oauth_from_scratch.Process
use agent_oauth_from_scratch.Process.{Process}
use agent_oauth_from_scratch.Process.Alone.{Refines, lift-Refines}
use agent_oauth_from_scratch.Storage.{Database}
use agent_oauth_from_scratch.Auth.Base.{PresentedCredential, ClientAuthMethod}

abbrev pub secret_post_name : String
secret_post_name = "client_secret_post"

-- `ClientSecretPost.extract`
unfoldable pub extract_secret : TokenForm → Outcome (Option PresentedCredential)
extract_secret form =
    if not (present form "client_id") && not (present form "client_secret") then ok none else do
      client_id ← require form "client_id"
      secret ← require form "client_secret"
      ok (
          some (record {
            client_id = client_id;
            method = secret_post_name;
            secret = some secret;
            assertion = none;
          }))

-- `openapi_properties`
abbrev pub openapi_properties : Fields
openapi_properties =
    field "client_id" (obj string_type) (field "client_secret" (obj password_type) end)

-- `required_openapi_fields`
abbrev pub required_openapi_fields : List String
required_openapi_fields = "client_id" ∷ "client_secret" ∷ []

abbrev pub or_default : Option String → String → String
or_default none d = d
or_default (some s) d = s

-- `client.secret_hash if client else None`
abbrev pub hash_of : Option RegisteredClient → Option String
hash_of none = none
hash_of (some client) = client.secret_hash

abbrev pub is_present : Option String → Bool
is_present none = false
is_present (some s) = true

module _ (platform : Platform) where
  -- `verify_secret`
  unfoldable pub verify_secret : String → Option String → Outcome Bool
  verify_secret secret secret_hash =
      elim (platform.argon_verify (or_default secret_hash platform.absent_secret_hash) secret) [
        | none ↦ raised uncaught
        | some true ↦ ok (is_present secret_hash)
        | some false ↦ ok false
      ]

  -- `ClientSecretPost.verify`
  unfoldable pub verify_post :
      Draws → PresentedCredential → Option RegisteredClient → Exec Database Bool
  unfolding verify_secret
  verify_post draws presented client =
      Exec.lift (verify_secret (or_default presented.secret "") (hash_of client))

  -- `ClientSecretPost.verify` has no statement
  unfoldable pub verify_post_steps :
      Draws → PresentedCredential → Option RegisteredClient → Process Database Bool
  unfolding verify_secret
  verify_post_steps draws presented client =
      Process.lift (verify_secret (or_default presented.secret "") (hash_of client))

  pub verify_post-Refines :
      (draws : Draws) (presented : PresentedCredential) (client : Option RegisteredClient)
      → Refines (verify_post_steps draws presented client) (verify_post draws presented client)
  unfolding verify_post verify_post_steps
  verify_post-Refines draws presented client =
      lift-Refines (verify_secret (or_default presented.secret "") (hash_of client))

  abbrev pub client_secret_post : ClientAuthMethod
  client_secret_post = record {
    name = secret_post_name;
    extract = extract_secret;
    verify = verify_post;
    verify_steps = verify_post_steps;
    verify_alone = verify_post-Refines;
  }
