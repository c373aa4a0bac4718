-- ===== src/Auth/Base.antt =====
-- auth/base.py: what a caller presents, and what a method must provide.
use agent_oauth_from_scratch.Shared.{String, Bool, Option}
use agent_oauth_from_scratch.Outcome.{Outcome}
use agent_oauth_from_scratch.Exec.{Exec}
use agent_oauth_from_scratch.Forms.{TokenForm}
use agent_oauth_from_scratch.Models.{RegisteredClient}
use agent_oauth_from_scratch.Platform.{Draws}
use agent_oauth_from_scratch.Process.{Process}
use agent_oauth_from_scratch.Process.Alone.{Refines}
use agent_oauth_from_scratch.Storage.{Database}

pub record PresentedCredential : Type 0 where
  pub client_id : String
  pub method : String
  pub secret : Option String
  pub assertion : Option String

-- The protocol class. `verify` is there twice: as one action on the database, and statement by
-- statement.
pub record ClientAuthMethod : Type 0 where
  pub name : String
  pub extract : TokenForm → Outcome (Option PresentedCredential)
  pub verify : Draws → PresentedCredential → Option RegisteredClient → Exec Database Bool
  pub verify_steps : Draws → PresentedCredential → Option RegisteredClient → Process Database Bool
  pub verify_alone :
      (draws : Draws) (presented : PresentedCredential) (client : Option RegisteredClient)
      → Refines (verify_steps draws presented client) (verify draws presented client)
