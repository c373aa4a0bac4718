-- ===== src/Startup/Restart.antt =====
-- `lifespan` of main.py: what a start makes of the stored client.
use agent_oauth_from_scratch.Shared.{◌≡◌, sym, ap, ◌∙◌, String, Option, some, List, arith}
use agent_oauth_from_scratch.Outcome.{Outcome, ok, >>=-eq-ok}
use agent_oauth_from_scratch.Exec
use agent_oauth_from_scratch.Exec.{Exec, lift}
use agent_oauth_from_scratch.Models.{active, RegisteredClient, registered_client}
use agent_oauth_from_scratch.Storage.{Database, client_row, get_client, upsert_client}
use agent_oauth_from_scratch.Storage.Clients.{get_client-stored}
use agent_oauth_from_scratch.Storage.Migrations.{Schema, migrate}
use agent_oauth_from_scratch.Startup.{
  Environment, required_environment, bootstrap_client, on_tables, lifespan,
}

registered_client-eq-ok :
    (client made : RegisteredClient) → registered_client client ≡ ok made → made ≡ client
unfolding registered_client
registered_client-eq-ok client made h = ground arith

-- A client that the environment gives is valid and active.
bootstrap_client-eq-ok :
    (hash_secret : String → String) (environ : Environment) (client : RegisteredClient)
    → bootstrap_client hash_secret environ ≡ ok client
    → (registered_client client ≡ ok client) × (client.status ≡ active)
unfolding bootstrap_client
bootstrap_client-eq-ok hash_secret environ client h =
    let (client_id, e₁, h₁) = >>=-eq-ok (required_environment environ "OAUTH_CLIENT_ID") _ h in
    let (subject, e₂, h₂) = >>=-eq-ok (required_environment environ "OAUTH_CLIENT_SUBJECT") _ h₁ in
    let (secret, e₃, made) = >>=-eq-ok (required_environment environ "OAUTH_CLIENT_SECRET") _ h₂ in
    let same = registered_client-eq-ok _ client made in
    (ap registered_client same ∙ made, ap (λ (c : RegisteredClient). c.status) same)

-- A valid client is what its identifier gives, after it is stored.
stored-client :
    (client : RegisteredClient) (s : Schema)
    → registered_client client ≡ ok client
    → (get_client client.client_id (on_tables (upsert_client client) s).1.tables).0
      ≡ ok (some (client_row client))
unfolding on_tables
stored-client client s valid = get_client-stored client s.tables valid

module _ (execute : String → Database → Option Database) (hash_secret : String → String) where
  -- After a start that succeeds, the client of the environment is stored as the environment
  -- gives it and is active, whatever row was stored under its identifier before, suspended ones
  -- included.
  pub lifespan-resets :
      (environ : Environment) (files : List String) (before : Schema)
      → (lifespan execute hash_secret environ files before).0 ≡ ok tt
      → (client : RegisteredClient) × (bootstrap_client hash_secret environ ≡ ok client)
        × ((get_client client.client_id
              (lifespan execute hash_secret environ files before).1.tables).0
            ≡ ok (some (client_row client)))
        × ((client_row client).status ≡ active)
  unfolding lifespan
  lifespan-resets environ files before h =
      let (ran, migrated, e) = Exec.>>=-eq-ok (migrate execute files) _ before h in
      let s = (migrate execute files before).1 in
      let (client, given, e') =
        Exec.>>=-eq-ok (lift (bootstrap_client hash_secret environ))
          (λ (c : RegisteredClient). on_tables (upsert_client c)) s (ap (λ r. r.0) (sym e) ∙ h) in
      let (valid, is_active) = bootstrap_client-eq-ok hash_secret environ client given in
      (
        client,
        given,
        ap (λ (r : Outcome Unit × Schema). (get_client client.client_id r.1.tables).0) (e ∙ e')
            ∙ stored-client client s valid,
        is_active,
      )
