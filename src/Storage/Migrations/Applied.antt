-- ===== src/Storage/Migrations/Applied.antt =====
-- `migrate` of storage/database.py: runs that succeed.
use agent_oauth_from_scratch.Shared.{
  ◌≡◌, refl, sym, ap, ◌∙◌, ◌⊎◌, String, true, Option, none, some, List, [], ◌∷◌, not, ◌||◌, arith,
  eq_iff, Bool-cases, inl, inr,
}
use agent_oauth_from_scratch.Shared.Lists.{contains, keep, contains-keep}
use agent_oauth_from_scratch.Shared.Sorting.{sorted, contains-sorted}
use agent_oauth_from_scratch.Outcome.{ok, raised, uncaught, ok-injective}
use agent_oauth_from_scratch.Storage.{Database}
use agent_oauth_from_scratch.Storage.Migrations.{
  Schema, note, apply, and_then, prepend, run_pending, settle, migrate,
}

some-injective : {A : Type 0} {a b : A} → some a ≡ some b → a ≡ b
some-injective {A} {a} h = ap (λ o. elim o [ none ↦ a | some x ↦ x ]) h

and_then-eq-some :
    {A B : Type 0} (o : Option A) (f : A → Option B) {b : B}
    → and_then o f ≡ some b
    → (a : A) × (o ≡ some a) × (f a ≡ some b)
and_then-eq-some none f h = absurd (cc h)
and_then-eq-some (some a) f h = (a, refl, h)

prepend-eq-some :
    (name : String) (o : Option (List String × Schema)) (ran : List String) (after : Schema)
    → prepend name o ≡ some (ran, after)
    → (rest : List String) × (o ≡ some (rest, after)) × (ran ≡ name ∷ rest)
prepend-eq-some name none ran after h = absurd (cc h)
prepend-eq-some name (some (rest, last)) ran after h =
    let same = some-injective h in
    (rest, ap (λ (l : Schema). some (rest, l)) (ap (λ p. p.1) same), ap (λ p. p.0) (sym same))

module _ (execute : String → Database → Option Database) where
  apply-eq-some :
      (name : String) (s after : Schema)
      → apply execute name s ≡ some after
      → after.schema_version ≡ name ∷ s.schema_version
  unfolding apply note
  apply-eq-some name s after h = ground arith

  record IsRun (applied names ran : List String) (s after : Schema) : Type 0 where
    which : ran ≡ keep (λ name. not (contains applied name)) names
    noted :
        (name : String)
        → contains after.schema_version name ≡ (contains s.schema_version name || contains ran name)

  run_pending-IsRun :
      (applied names ran : List String) (s after : Schema)
      → run_pending execute applied names s ≡ some (ran, after)
      → IsRun applied names ran s after
  unfolding run_pending
  run_pending-IsRun applied [] ran s after h =
      let same = some-injective h in
      record {
        which = ap (λ p. p.0) (sym same);
        noted = λ name. rw (← ap (λ p. p.1) same, ← ap (λ p. p.0) same) (ground arith);
      }
  run_pending-IsRun applied (name ∷ names) ran s after h =
      elim (Bool-cases (contains applied name)) [
        | inl old ↦
            let r = run_pending-IsRun applied names ran s after (rw (old, run_pending) at h) in
            record { which = rw old r.which; noted = r.noted }
        | inr new ↦
            let (s', done, h') =
              and_then-eq-some (apply execute name s)
                (λ s'. prepend name (run_pending execute applied names s'))
                (rw (new, run_pending) at h) in
            let (rest, more, ran_rest) =
              prepend-eq-some name (run_pending execute applied names s') ran after h' in
            let r = run_pending-IsRun applied names rest s' after more in
            record {
              which = rw new (ran_rest ∙ ap (λ l. name ∷ l) r.which);
              noted =
                  λ n. rw ran_rest (r.noted n ∙ rw (apply-eq-some name s s' done) (ground arith));
            }
      ]

  settle-eq-ok :
      (before after : Schema) (o : Option (List String × Schema)) (ran : List String)
      → settle before o before ≡ (ok ran, after)
      → o ≡ some (ran, after)
  settle-eq-ok before after none ran h = absurd (cc h)
  settle-eq-ok before after (some (done, last)) ran h =
      let first = ok-injective (ap (λ p. p.0) h) in
      let second = ap (λ p. p.1) h in rw (first, second) refl

  nothing_pending :
      (applied names : List String) (s : Schema)
      → ((name : String) → contains names name ≡ true → contains applied name ≡ true)
      → run_pending execute applied names s ≡ some ([], s)
  unfolding run_pending
  nothing_pending applied [] s h = refl
  nothing_pending applied (name ∷ names) s h =
      rw (h name (rw ((eq_iff name name).1 refl) refl), run_pending)
        (nothing_pending applied names s (λ n c. h n (ground arith)))

  kept-contains :
      (applied names : List String) (name : String)
      → (contains applied name || contains (keep (λ n. not (contains applied n)) names) name)
        ≡ (contains applied name || contains names name)
  kept-contains applied names name =
      ground (arith, contains-keep (λ n. not (contains applied n)) names name)

  settle-cases :
      (before : Schema) (o : Option (List String × Schema))
      → ((ran : List String) × ((settle before o before).0 ≡ ok ran))
        ⊎ ((settle before o before).0 ≡ raised uncaught)
  settle-cases before none = inr refl
  settle-cases before (some (ran, after)) = inl (ran, refl)

  pub migrate-cases :
      (files : List String) (s : Schema)
      → ((ran : List String) × ((migrate execute files s).0 ≡ ok ran))
        ⊎ ((migrate execute files s).0 ≡ raised uncaught)
  unfolding migrate
  migrate-cases files s = settle-cases s (run_pending execute s.schema_version (sorted files) s)

  -- After a run that succeeds exactly the old names and the files are applied, and a second run
  -- runs nothing.
  pub migrate-eq-ok :
      (files ran : List String) (s after : Schema)
      → migrate execute files s ≡ (ok ran, after)
      → (ran ≡ keep (λ name. not (contains s.schema_version name)) (sorted files))
        × ((name : String)
            → contains after.schema_version name
              ≡ (contains s.schema_version name || contains files name))
        × (migrate execute files after ≡ (ok [], after))
  unfolding migrate
  migrate-eq-ok files ran s after h =
      let r =
        run_pending-IsRun s.schema_version (sorted files) ran s after
          (settle-eq-ok s after (run_pending execute s.schema_version (sorted files) s) ran h) in
      let noted : (name : String)
          → contains after.schema_version name
            ≡ (contains s.schema_version name || contains files name) =
        λ name.
          r.noted name
          ∙ rw r.which (
              kept-contains s.schema_version (sorted files) name
              ∙ ap (λ b. contains s.schema_version name || b) (contains-sorted files name)) in
      (
        r.which,
        noted,
        rw (
            nothing_pending after.schema_version (sorted files) after
              (λ name c. ground (arith, noted name, contains-sorted files name))),
      )
