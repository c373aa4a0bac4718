-- ===== src/Storage/Migrations/Whole.antt =====
-- `migrate` of storage/database.py against a description of the whole run.
use agent_oauth_from_scratch.Shared.{
  ◌≡◌, refl, sym, ap, ◌∙◌, ◌⊎◌, inl, inr, String, true, false, Option, none, some, List, [], ◌∷◌,
  not, ◌==◌, arith, eq_iff, Bool-cases,
}
use agent_oauth_from_scratch.Shared.Lists.{contains, keep, contains-keep, IsUnique, keep-IsUnique}
use agent_oauth_from_scratch.Shared.Sorting.{sorted, sorted-IsUnique}
use agent_oauth_from_scratch.Outcome.{Outcome, ok, raised, uncaught}
use agent_oauth_from_scratch.Storage.{Database}
use agent_oauth_from_scratch.Storage.Migrations.{
  Schema, note, apply, and_then, prepend, run_pending, settle, migrate,
}
use agent_oauth_from_scratch.Storage.Migrations.Applied.{migrate-eq-ok}

-- the files that are not applied, in the order of their names
abbrev pub pending : List String → List String → List String
pending applied files = keep (λ name. not (contains applied name)) (sorted files)

-- the names, each of which is put in front of what was there
abbrev pub noted : List String → List String → List String
noted [] names = names
noted (name ∷ ran) names = noted ran (name ∷ names)

-- The files have all been run, or one of them has failed.
finished : List String → List String → Option Database → Option (List String × Schema)
finished ran names none = none
finished ran names (some tables) =
    some (ran, record { tables = tables; schema_version = noted ran names })

-- All of it is there, or nothing of it.
abbrev pub all_or_nothing : Schema → List String → Option Database → Outcome (List String) × Schema
all_or_nothing before ran none = (raised uncaught, before)
all_or_nothing before ran (some tables) =
    (ok ran, record { tables = tables; schema_version = noted ran before.schema_version })

prepend-finished :
    (name : String) (ran names : List String) (found : Option Database)
    → prepend name (finished ran (name ∷ names) found) ≡ finished (name ∷ ran) names found
unfolding finished
prepend-finished name ran names none = refl
prepend-finished name ran names (some tables) = refl

settle-finished :
    (before : Schema) (ran : List String) (found : Option Database)
    → settle before (finished ran before.schema_version found) before
      ≡ all_or_nothing before ran found
unfolding finished
settle-finished before ran none = refl
settle-finished before ran (some tables) = refl

-- None of the names is among the others.
abbrev IsFresh : List String → List String → Type 0
IsFresh names others = (name : String) → contains names name ≡ true → contains others name ≡ false

IsFresh-cons :
    (name : String) (ran names : List String)
    → contains ran name ≡ false
    → IsFresh (name ∷ ran) names
    → IsFresh ran (name ∷ names)
IsFresh-cons name ran names unique fresh n among = elim (Bool-cases (name == n)) [
  | inl same ↦ ground (arith, (eq_iff name n).0 same, unique, among)
  | inr other ↦ ground (arith, fresh n)
]

module _ (execute : String → Database → Option Database) where
  -- the SQL of the files, one after the other
  abbrev pub execute_all : List String → Database → Option Database
  execute_all [] tables = some tables
  execute_all (name ∷ names) tables = and_then (execute name tables) (execute_all names)

  apply-finished :
      (applied names ran : List String) (name : String) (s : Schema) (found : Option Database)
      → contains s.schema_version name ≡ false
      → ((tables : Database)
          → run_pending execute applied names
              (record { tables = tables; schema_version = name ∷ s.schema_version })
            ≡ finished ran (name ∷ s.schema_version) (execute_all ran tables))
      → and_then
          (and_then found λ tables. note execute name (record s { tables = tables }))
          (λ s'. prepend name (run_pending execute applied names s'))
        ≡ finished (name ∷ ran) s.schema_version (and_then found (execute_all ran))
  unfolding note finished
  apply-finished applied names ran name s none fresh more = refl
  apply-finished applied names ran name s (some tables) fresh more = rw fresh (
      ap (prepend name) (more tables)
      ∙ prepend-finished name ran s.schema_version (execute_all ran tables))

  run_pending-finished :
      (applied names : List String) (s : Schema)
      → IsUnique (keep (λ name. not (contains applied name)) names)
      → IsFresh (keep (λ name. not (contains applied name)) names) s.schema_version
      → run_pending execute applied names s
        ≡ finished
            (keep (λ name. not (contains applied name)) names)
            s.schema_version
            (execute_all (keep (λ name. not (contains applied name)) names) s.tables)
  unfolding run_pending finished apply
  run_pending-finished applied [] s unique fresh = refl
  run_pending-finished applied (name ∷ names) s unique fresh =
      let rest = keep (λ (n : String). not (contains applied n)) names in
      elim (Bool-cases (contains applied name)) [
        | inl old ↦
            rw (old, run_pending)
              (run_pending-finished applied names s (rw old at unique) (rw old at fresh))
        | inr new ↦
            let all_unique : IsUnique (name ∷ rest) = rw new at unique in
            let all_fresh : IsFresh (name ∷ rest) s.schema_version = rw new at fresh in
            rw (new, run_pending)
              (apply-finished applied names rest name s (execute name s.tables)
                (all_fresh name (rw ((eq_iff name name).1 refl) refl))
                λ tables.
                  run_pending-finished applied names
                    (record { tables = tables; schema_version = name ∷ s.schema_version })
                    all_unique.1 (IsFresh-cons name rest s.schema_version all_unique.0 all_fresh))
      ]

  pending-IsFresh :
      (applied names : List String)
      → IsFresh (keep (λ name. not (contains applied name)) names) applied
  pending-IsFresh applied names name among =
      ground (arith, contains-keep (λ n. not (contains applied n)) names name, among)

  migrate-whole :
      (files : List String) (s : Schema)
      → IsUnique files
      → migrate execute files s
        ≡ all_or_nothing s
            (pending s.schema_version files)
            (execute_all (pending s.schema_version files) s.tables)
  unfolding migrate
  migrate-whole files s unique =
      let ran = pending s.schema_version files in
      ap (λ o. settle s o s)
        (run_pending-finished s.schema_version (sorted files) s
          (keep-IsUnique _ (sorted files) (sorted-IsUnique files unique))
          (pending-IsFresh s.schema_version (sorted files)))
      ∙ settle-finished s ran (execute_all ran s.tables)

  migrate-again :
      (files ran : List String) (s : Schema) (found : Option Database)
      → migrate execute files s ≡ all_or_nothing s ran found
      → (found ≡ none)
        ⊎ (migrate execute files (migrate execute files s).1 ≡ (ok [], (migrate execute files s).1))
  migrate-again files ran s none h = inl refl
  migrate-again files ran s (some tables) h =
      let same : migrate execute files s ≡ (ok ran, (migrate execute files s).1) =
        h ∙ ap (λ (t : Schema). (ok ran, t)) (sym (ap (λ p. p.1) h)) in
      inr ((migrate-eq-ok execute files ran s (migrate execute files s).1 same).2)

  -- If no two files have one name: a run of the migrations runs exactly the SQL of the files that
  -- were not applied, one after the other in the order of their names, and notes those names; if one
  -- of the files fails, everything is as it was. A run after one that has not failed runs nothing
  -- and changes nothing.
  pub migrate-all_or_nothing :
      (files : List String) (s : Schema)
      → IsUnique files
      → let ran = pending s.schema_version files in
        let after = (migrate execute files s).1 in
        (migrate execute files s ≡ all_or_nothing s ran (execute_all ran s.tables))
        × ((execute_all ran s.tables ≡ none) ⊎ (migrate execute files after ≡ (ok [], after)))
  migrate-all_or_nothing files s unique =
      let ran = pending s.schema_version files in
      let whole = migrate-whole files s unique in
      (whole, migrate-again files ran s (execute_all ran s.tables) whole)
