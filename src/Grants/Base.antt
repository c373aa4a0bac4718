-- ===== src/Grants/Base.antt =====
-- grants/base.py: what a grant resolves, and what a grant must provide.
use agent_oauth_from_scratch.Shared.{ℕ, String, Bool, Option, none, List}
use agent_oauth_from_scratch.Exec.{Exec}
use agent_oauth_from_scratch.Value.{Fields, end}
use agent_oauth_from_scratch.Forms.{TokenForm}
use agent_oauth_from_scratch.Models.{RegisteredClient}
use agent_oauth_from_scratch.Platform.{Draws}
use agent_oauth_from_scratch.Process.{Process}
use agent_oauth_from_scratch.Process.Alone.{Refines}
use agent_oauth_from_scratch.Storage.{Database}

pub record GrantResult : Type 0 where
  pub subject : String
  pub client_id : String
  pub requested_scopes : List String
  pub ceilings : List (List String)
  pub principal_status : String
  pub audience : Option String
  pub issued_token_type : Option String
  pub tenant : Option String
  pub max_expires_at : Option ℕ
  pub act : Option Fields
  pub act_root : Option String
  pub task_id : Option String
  pub delegation_depth : ℕ
  pub extra_claims : Fields

-- the defaults of the dataclass
abbrev pub default_result : String → String → List String → List (List String) → GrantResult
default_result subject client_id requested_scopes ceilings = record {
  subject = subject;
  client_id = client_id;
  requested_scopes = requested_scopes;
  ceilings = ceilings;
  principal_status = "active";
  audience = none;
  issued_token_type = none;
  tenant = none;
  max_expires_at = none;
  act = none;
  act_root = none;
  task_id = none;
  delegation_depth = 0;
  extra_claims = end;
}

-- The protocol class. `resolve` is there twice: as one action on the database, and statement by
-- statement.
pub record Grant : Type 0 where
  pub grant_type : String
  pub requires_client_auth : Bool
  pub response_types : List String
  pub resolve : Draws → TokenForm → Option RegisteredClient → Exec Database GrantResult
  pub resolve_steps : Draws → TokenForm → Option RegisteredClient → Process Database GrantResult
  pub resolve_alone :
      (draws : Draws) (form : TokenForm) (client : Option RegisteredClient)
      → Refines (resolve_steps draws form client) (resolve draws form client)
  pub metadata : Fields
  pub openapi_schema : Fields
