-- ===== src/Examples/Data.antt =====
-- Concrete values for the tests: a platform, settings, claims, and the result and the token that an
-- exchange makes of them.
use agent_oauth_from_scratch.Shared.{ℕ, ◌+◌, ◌*◌, String, true, none, some, [], ◌∷◌, ◌<>◌, ◌==◌}
use agent_oauth_from_scratch.Value.{Value, int, str, obj, pos, Fields, end, field, get, size_fields}
use agent_oauth_from_scratch.Value.Access.{text_of}
use agent_oauth_from_scratch.Value.Times.{epoch, second}
use agent_oauth_from_scratch.Config.{Settings}
use agent_oauth_from_scratch.Models.{RegisteredClient, SigningKey, default_client}
use agent_oauth_from_scratch.Platform.{Platform, Draws}
use agent_oauth_from_scratch.Forms.{TokenForm}
use agent_oauth_from_scratch.Grants.Base.{GrantResult, default_result}
use agent_oauth_from_scratch.Pipeline.{IssuedToken}

abbrev pub name_of : Value → String
name_of v = "?"

-- A token text is its identifier behind the signer's algorithm; two texts verify.
abbrev pub platform : Platform
platform = record {
  object_id = size_fields;
  float_timestamp = λ bits. none;
  public_key = λ key. record { x = key.scalar; y = key.scalar };
  unverified_header = λ token. none;
  unverified_claims = λ token. none;
  decode = λ now key checks token. none;
  encode = λ claims key algorithm header. algorithm <> "." <> text_of name_of (get claims "jti");
  jwk_key = λ jwk. none;
  argon_verify = λ hash secret. some (hash == secret);
  absent_secret_hash = "placeholder";
  str_of = name_of;
  set_order = λ names. names;
  collates = λ a b. true;
}

abbrev pub settings : Settings
settings = record {
  issuer = "https://as.example";
  key_directory = "/keys";
  resource_audience = "https://api.example";
  access_token_ttl_seconds = pos 300;
  database_url = "postgresql://localhost/as";
  max_delegation_depth = pos 4;
  metadata_overlay = end;
}

abbrev pub key : SigningKey
key = record { private_key = record { scalar = 5 }; kid = "k1" }

-- 1,900,000,000 seconds after 1970
abbrev pub now : ℕ
now = (1900000000 + epoch) * second

abbrev pub draws : Draws
draws = record {
  assertion_verified_at = now;
  assertion_checked_at = now;
  subject_verified_at = now;
  actor_verified_at = now;
  minted_at = now;
  task_id = "t9";
  jti = "j1";
}

abbrev pub form : TokenForm
form = record { fields = ("scope", "read") ∷ ("audience", "https://api.example") ∷ [] }

abbrev pub subject_claims : Fields
subject_claims = field "sub" (str "planner") (
    field "scope" (str "read write") (
      field "exp" (int (pos 1900000100)) (
        field "delegation_depth" (int (pos 1)) (
          field "act" (obj (field "sub" (str "user") end))
            (field "task_id" (str "t1") (field "tenant" (str "acme") end))))))

abbrev pub actor_claims : Fields
actor_claims = field "sub" (str "worker") (field "client_id" (str "worker-app") end)

abbrev pub worker : RegisteredClient
worker = record (default_client "worker-app" "worker") {
  allowed_scopes = "read" ∷ "send" ∷ [];
  tenant = "acme";
  secret_hash = some "hunter2";
}

abbrev pub caller : RegisteredClient
caller = record (default_client "planner-app" "planner") {
  allowed_scopes = "read" ∷ "write" ∷ [];
  allowed_audiences = "https://api.example" ∷ [];
  tenant = "acme";
}

abbrev pub act : Fields
act = field "sub" (str "planner") (field "act" (obj (field "sub" (str "user") end)) end)

abbrev pub result : GrantResult
result =
    record (default_result "worker" "planner-app" ("read" ∷ [])
      (("read" ∷ "write" ∷ []) ∷ ("read" ∷ "send" ∷ []) ∷ [])) {
        act = some act;
        act_root = some "user";
        task_id = some "t1";
        delegation_depth = 2;
        tenant = some "acme";
        audience = some "https://api.example";
        max_expires_at = some ((1900000100 + epoch) * second);
        issued_token_type = some "urn:ietf:params:oauth:token-type:access_token";
      }

abbrev pub issued : IssuedToken
issued = record {
  access_token = "ES256.j1";
  expires_in = 100;
  scope = "read";
  issued_token_type = some "urn:ietf:params:oauth:token-type:access_token";
}

-- the claims of a token derived from the subject token
abbrev pub derived_claims : Fields
derived_claims =
    field "sub" (str "worker") (field "act" (obj act) (field "delegation_depth" (int (pos 2)) end))
