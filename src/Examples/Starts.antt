-- ===== src/Examples/Starts.antt =====
-- A start over a database in which one migration is applied and the client of the environment is
-- suspended.
use agent_oauth_from_scratch.Shared.{
  ◌≡◌, refl, ◌⊎◌, inr, sym, String, Bool, true, false, Option, none, some, List, [], ◌∷◌, ◌==◌,
  if◌then◌else◌,
}
use agent_oauth_from_scratch.Shared.Sorting.{sorted}
use agent_oauth_from_scratch.Outcome.{ok, raised, uncaught, ok-injective}
use agent_oauth_from_scratch.Exec.{Exec}
use agent_oauth_from_scratch.Models.{active, suspended, RegisteredClient, registered_client}
use agent_oauth_from_scratch.Storage.{Database, no_rows, client_row, get_client, upsert_client}
use agent_oauth_from_scratch.Storage.Migrations.{Schema, PoolLibrary, migrate, reset}
use agent_oauth_from_scratch.Storage.Migrations.Whole.{
  all_or_nothing, execute_all, migrate-all_or_nothing,
}
use agent_oauth_from_scratch.Startup.{
  Environment, bootstrap_client, required_environment, lifespan, live, Backend, with_connection,
}
use agent_oauth_from_scratch.Startup.Lifespan.{IsPoolLibrary, live-refuses}
use agent_oauth_from_scratch.Startup.Restart.{lifespan-resets}
use agent_oauth_from_scratch.Examples.Data.{worker}

abbrev keyed : RegisteredClient
keyed = record worker { client_id = "keyed-app" }

-- one file adds a client
abbrev execute : String → Database → Option Database
execute sql tables =
    if sql == "0002_keys.sql" then some (upsert_client keyed tables).1 else some tables

abbrev files : List String
files = "0002_keys.sql" ∷ "0001_clients.sql" ∷ []

-- the client of the environment is there and suspended
abbrev before : Schema
before = record {
  tables = record no_rows { clients = record worker { status = suspended } ∷ [] };
  schema_version = "0001_clients.sql" ∷ [];
}

migrate-all_or_nothing_example :
    (migrate execute files before
      ≡ all_or_nothing before
          ("0002_keys.sql" ∷ [])
          (execute_all execute ("0002_keys.sql" ∷ []) before.tables))
    × ((execute_all execute ("0002_keys.sql" ∷ []) before.tables ≡ none)
        ⊎ (migrate execute files (migrate execute files before).1
            ≡ (ok [], (migrate execute files before).1)))
unfolding sorted
migrate-all_or_nothing_example = migrate-all_or_nothing execute files before (refl, (refl, tt))

runs_sql : migrate execute files before ≡ (
  ok ("0002_keys.sql" ∷ []),
  record {
    tables = (upsert_client keyed before.tables).1;
    schema_version = "0002_keys.sql" ∷ "0001_clients.sql" ∷ [];
  },
)
unfolding migrate sorted
runs_sql = refl

abbrev environ : Environment
environ name =
    if name == "OAUTH_CLIENT_ID"
    then some "worker-app"
    else if name == "OAUTH_CLIENT_SUBJECT"
    then some "worker"
    else if name == "OAUTH_CLIENT_SECRET"
    then some "hunter2"
    else if name == "OAUTH_MAX_DELEGATION_DEPTH"
    then some "5"
    else none

starts : (lifespan execute (λ secret. secret) environ files before).0 ≡ ok tt
unfolding lifespan migrate sorted bootstrap_client required_environment registered_client
    upsert_client
starts = refl

lifespan-resets_example :
    (client : RegisteredClient) × (bootstrap_client (λ secret. secret) environ ≡ ok client)
    × ((get_client client.client_id
          (lifespan execute (λ secret. secret) environ files before).1.tables).0
        ≡ ok (some (client_row client)))
    × ((client_row client).status ≡ active)
lifespan-resets_example = lifespan-resets execute (λ secret. secret) environ files before starts

-- a pool is whether it is open
abbrev pools : PoolLibrary
pools = record {
  Pool = Bool;
  async_connection_pool = λ database_url open_now min_size max_size. open_now;
  open_pool = λ pool. ok true;
  close_pool = λ pool. ok false;
  is_open = λ pool. pool;
}

pools-IsPoolLibrary : IsPoolLibrary pools
pools-IsPoolLibrary = record { opens = λ pool opened h. sym (ok-injective h) }

-- the environment without a secret
abbrev secretless : Environment
secretless name = if name == "OAUTH_CLIENT_SECRET" then some "" else environ name

-- while it is up, the server is reset by hand
abbrev resets : Exec (Backend pools) (Unit {0})
resets = with_connection pools reset

lives :
    live pools execute (λ secret. secret) environ files resets (false, before)
    ≡ (ok tt, (false, (reset before).1))
unfolding live lifespan migrate sorted bootstrap_client required_environment registered_client
    upsert_client reset with_connection
lives = refl

live-refuses_example :
    live pools execute (λ secret. secret) secretless files resets (false, before)
    ≡ (raised uncaught, (true, (migrate execute files before).1))
live-refuses_example =
    live-refuses pools execute (λ secret. secret) pools-IsPoolLibrary secretless files resets
      (false, before) true "OAUTH_CLIENT_SECRET" refl refl (inr refl)
