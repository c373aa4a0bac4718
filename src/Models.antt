-- ===== src/Models.antt =====
-- models.py, and `SigningKey` of crypto/keys.py.
use agent_oauth_from_scratch.Shared.{
  String, Option, none, List, [], ◌||◌, ◌==◌, if◌then◌else◌, ◌<>◌,
}
use agent_oauth_from_scratch.Outcome.{Outcome, ok, raised, value}
use agent_oauth_from_scratch.Value.{Fields}
use agent_oauth_from_scratch.Platform.{PrivateKey}

abbrev pub active : String
active = "active"

abbrev pub suspended : String
suspended = "suspended"

-- The two sets of texts are lists, used by membership.
pub record RegisteredClient : Type 0 where
  pub client_id : String
  pub subject : String
  pub allowed_scopes : List String
  pub allowed_audiences : List String
  pub status : String
  pub secret_hash : Option String
  pub auth_method : String
  pub tenant : String

-- the defaults of the dataclass
abbrev pub default_client : String → String → RegisteredClient
default_client client_id subject = record {
  client_id = client_id;
  subject = subject;
  allowed_scopes = [];
  allowed_audiences = [];
  status = active;
  secret_hash = none;
  auth_method = "client_secret_post";
  tenant = "default";
}

-- `RegisteredClient(...)` with its `__post_init__`
unfoldable pub registered_client : RegisteredClient → Outcome RegisteredClient
registered_client client =
    if client.client_id == "" || client.subject == ""
    then raised (value "client_id and subject must not be empty")
    else if client.status == active || client.status == suspended
    then ok client
    else raised (value ("unknown client status: " <> client.status))

pub record ClientKey : Type 0 where
  pub client_id : String
  pub kid : String
  pub public_jwk : Fields

pub record SigningKey : Type 0 where
  pub private_key : PrivateKey
  pub kid : String
