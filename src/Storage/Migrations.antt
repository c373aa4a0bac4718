-- ===== src/Storage/Migrations.antt =====
-- storage/database.py: the migration runner, in the transaction of its connection, the reset, and the
-- pool.
pub mod Applied
pub mod Whole
pub mod Reset
use agent_oauth_from_scratch.Shared.{
  ℕ, String, Bool, true, false, Option, none, some, List, [], ◌∷◌, not, if◌then◌else◌,
}
use agent_oauth_from_scratch.Shared.Lists.{contains}
use agent_oauth_from_scratch.Shared.Sorting.{sorted}
use agent_oauth_from_scratch.Outcome.{Outcome, ok, raised, uncaught}
use agent_oauth_from_scratch.Exec.{Exec}
use agent_oauth_from_scratch.Storage.{Database, no_rows}

-- The tables, and the names in `schema_version`.
pub record Schema : Type 0 where
  pub tables : Database
  pub schema_version : List String

-- A step that may fail, and what follows it.
abbrev pub and_then : {A B : Type 0} → Option A → (A → Option B) → Option B
and_then none f = none
and_then (some a) f = f a

abbrev pub prepend : String → Option (List String × Schema) → Option (List String × Schema)
prepend name none = none
prepend name (some (ran, s)) = some (name ∷ ran, s)

-- the commit, or the rollback that the connection does on an exception
abbrev pub settle : Schema → Option (List String × Schema) → Exec Schema (List String)
settle before none s = (raised uncaught, before)
settle before (some (ran, after)) s = (ok ran, after)

-- What a file of SQL does to the tables is a parameter; `none` is an exception.
module _ (execute : String → Database → Option Database) where
  -- INSERT INTO schema_version; a name that is there violates the primary key
  note : String → Schema → Option Schema
  note name s =
      if contains s.schema_version name
      then none
      else some (record s { schema_version = name ∷ s.schema_version })

  -- the body of the loop for a file that is not applied
  apply : String → Schema → Option Schema
  unfolding note
  apply name s = and_then (execute name s.tables) λ tables. note name (record s { tables = tables })

  -- The loop of `migrate`, with the names that were read before it.
  run_pending : List String → List String → Schema → Option (List String × Schema)
  run_pending applied [] s = some ([], s)
  run_pending applied (name ∷ names) s = elim (contains applied name) [
    | true ↦ run_pending applied names s
    | false ↦ and_then (apply name s) λ s'. prepend name (run_pending applied names s')
  ]

  -- `migrate`, with the names of the files as `glob` gives them
  unfoldable pub migrate : List String → Exec Schema (List String)
  unfolding run_pending apply
  migrate files s = settle s (run_pending s.schema_version (sorted files) s) s

-- What psycopg_pool gives: pools, and what opens and closes one.
pub record PoolLibrary : Type 1 where
  pub Pool : Type 0
  -- from the address, whether it opens at once, and the least and the greatest number of connections
  pub async_connection_pool : String → Bool → ℕ → ℕ → Pool
  pub open_pool : Pool → Outcome Pool
  pub close_pool : Pool → Outcome Pool
  pub is_open : Pool → Bool

-- `create_pool`
unfoldable pub create_pool : (library : PoolLibrary) → String → Bool → library.Pool
create_pool library database_url open_now = library.async_connection_pool database_url open_now 1 10

-- `reset`: the schema is dropped with all its tables, `schema_version` included, and made anew
unfoldable pub reset : Exec Schema (Unit {0})
reset s = (ok tt, record { tables = no_rows; schema_version = [] })
