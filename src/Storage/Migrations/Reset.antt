-- ===== src/Storage/Migrations/Reset.antt =====
-- `reset` of storage/database.py, and the migrations after it.
use agent_oauth_from_scratch.Shared.{◌≡◌, refl, ap, ◌∙◌, String, Option, List, [], ◌∷◌, not}
use agent_oauth_from_scratch.Shared.Lists.{contains, keep}
use agent_oauth_from_scratch.Shared.Sorting.{sorted}
use agent_oauth_from_scratch.Outcome.{ok}
use agent_oauth_from_scratch.Exec
use agent_oauth_from_scratch.Storage.{Database}
use agent_oauth_from_scratch.Storage.Migrations.{Schema, migrate, reset}
use agent_oauth_from_scratch.Storage.Migrations.Applied.{migrate-eq-ok}

keep_all : (names : List String) → keep (λ name. not (contains [] name)) names ≡ names
keep_all [] = refl
keep_all (name ∷ names) = ap (λ rest. name ∷ rest) (keep_all names)

module _ (execute : String → Database → Option Database) where
  -- After a reset, whatever was applied before, migrations that succeed run every file, in the order
  -- of the names, and afterwards exactly the files are applied.
  pub migrate-reset :
      (files ran : List String) (s after : Schema)
      → Exec.◌>>◌ reset (migrate execute files) s ≡ (ok ran, after)
      → (ran ≡ sorted files)
        × ((name : String) → contains after.schema_version name ≡ contains files name)
  unfolding reset
  migrate-reset files ran s after h =
      let (which, noted, again) = migrate-eq-ok execute files ran (reset s).1 after h in
      (which ∙ keep_all (sorted files), noted)
