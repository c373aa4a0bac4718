-- ===== src/Startup/Lifespan.antt =====
-- `lifespan` of main.py: a start over an environment that lacks a variable.
use agent_oauth_from_scratch.Shared.{
  ◌≡◌, refl, ◌⊎◌, inl, inr, String, true, Option, none, some, List, [], ◌∷◌, ◌==◌, eq_iff, arith,
  Bool-cases,
}
use agent_oauth_from_scratch.Shared.Lists.{contains}
use agent_oauth_from_scratch.Outcome
use agent_oauth_from_scratch.Outcome.{Outcome, ok, raised, uncaught}
use agent_oauth_from_scratch.Exec
use agent_oauth_from_scratch.Exec.{Exec, lift}
use agent_oauth_from_scratch.Storage.{Database}
use agent_oauth_from_scratch.Storage.Migrations.{PoolLibrary, migrate}
use agent_oauth_from_scratch.Storage.Migrations.Applied.{migrate-cases}
use agent_oauth_from_scratch.Startup.{
  Environment, Backend, bootstrap_client, required_environment, present_text, replace_pool, on_pool,
  with_connection, live,
}

-- the variables without which there is no start
abbrev pub required_variables : List String
required_variables = "OAUTH_CLIENT_ID" ∷ "OAUTH_CLIENT_SUBJECT" ∷ "OAUTH_CLIENT_SECRET" ∷ []

-- A variable that is not set, or is set to the empty text.
abbrev pub IsMissing : Environment → String → Type 0
IsMissing environ name = (environ name ≡ none) ⊎ (environ name ≡ some "")

missing-raises :
    (environ : Environment) (name : String)
    → IsMissing environ name
    → required_environment environ name ≡ raised uncaught
unfolding required_environment present_text
missing-raises environ name missing = elim missing [
  | inl unset ↦ rw unset refl
  | inr empty ↦ rw empty refl
]

-- A variable is required: it has a value, or there is an exception.
present-cases :
    (found : Option String)
    → (present_text found ≡ raised uncaught) ⊎ ((value : String) × (present_text found ≡ ok value))
unfolding present_text
present-cases none = inl refl
present-cases (some value) = elim (Bool-cases (value == "")) [
  | inl empty ↦ inl (rw empty refl)
  | inr other ↦ inr (value, rw other refl)
]

required-cases :
    (environ : Environment) (name : String)
    → (required_environment environ name ≡ raised uncaught)
      ⊎ ((value : String) × (required_environment environ name ≡ ok value))
unfolding required_environment
required-cases environ name = present-cases (environ name)

after_first :
    {A B : Type 0} (first : Outcome A) (rest : A → Outcome B)
    → (first ≡ raised uncaught) ⊎ ((a : A) × (first ≡ ok a))
    → ((a : A) → rest a ≡ raised uncaught)
    → Outcome.◌>>=◌ first rest ≡ raised uncaught
after_first first rest (inl raises) h = rw raises refl
after_first first rest (inr (a, found)) h = rw found (h a)

-- Without one of the variables there is no client.
bootstrap_client-raises :
    (hash_secret : String → String) (environ : Environment) (name : String)
    → contains required_variables name ≡ true
    → IsMissing environ name
    → bootstrap_client hash_secret environ ≡ raised uncaught
unfolding bootstrap_client
bootstrap_client-raises hash_secret environ name listed missing =
    let raises = missing-raises environ name missing in
    elim (Bool-cases ("OAUTH_CLIENT_ID" == name)) [
      | inl same ↦ rw ((eq_iff "OAUTH_CLIENT_ID" name).0 same, raises) refl
      | inr not_id ↦
          after_first (required_environment environ "OAUTH_CLIENT_ID") _
            (required-cases environ "OAUTH_CLIENT_ID")
            λ client_id. elim (Bool-cases ("OAUTH_CLIENT_SUBJECT" == name)) [
              | inl same ↦ rw ((eq_iff "OAUTH_CLIENT_SUBJECT" name).0 same, raises) refl
              | inr not_subject ↦
                  after_first (required_environment environ "OAUTH_CLIENT_SUBJECT") _
                    (required-cases environ "OAUTH_CLIENT_SUBJECT")
                    λ subject.
                      let same = (eq_iff "OAUTH_CLIENT_SECRET" name).0 (ground (arith, listed)) in
                      rw (same, raises) refl
            ]
    ]

module _ (library : PoolLibrary) where
  -- What psycopg_pool documents: a pool that is opened is open.
  pub record IsPoolLibrary : Type 0 where
    pub opens :
        (pool opened : library.Pool)
        → library.open_pool pool ≡ ok opened
        → library.is_open opened ≡ true

  continue-raises :
      {A B : Type 0} (r : Outcome A) (f : A → Exec (Backend library) B) (backend : Backend library)
      → ((a : A) × (r ≡ ok a)) ⊎ (r ≡ raised uncaught)
      → ((a : A) → f a backend ≡ (raised uncaught, backend))
      → Exec.continue r f backend ≡ (raised uncaught, backend)
  continue-raises r f backend (inl (a, found)) h = rw found (h a)
  continue-raises r f backend (inr raises) h = rw raises refl

  module _ (execute : String → Database → Option Database) (hash_secret : String → String) where
    -- If a pool that is opened is open, the pool can be opened, and OAUTH_CLIENT_ID,
    -- OAUTH_CLIENT_SUBJECT or OAUTH_CLIENT_SECRET is not set or is empty: whatever the server would
    -- do while it is up, it serves nothing. The start ends with an exception, the database is what
    -- the migrations leave, and the pool stays open.
    pub live-refuses :
        IsPoolLibrary
        → (environ : Environment) (files : List String) (serve : Exec (Backend library) (Unit {0}))
          (backend : Backend library) (opened : library.Pool) (name : String)
        → library.open_pool backend.0 ≡ ok opened
        → contains required_variables name ≡ true
        → IsMissing environ name
        → live library execute hash_secret environ files serve backend
          ≡ (raised uncaught, (opened, (migrate execute files backend.1).1))
    unfolding live on_pool replace_pool with_connection
    live-refuses law environ files serve backend opened name opens listed missing =
        rw (opens, law.opens backend.0 opened opens)
          (continue-raises (migrate execute files backend.1).0 _
            (opened, (migrate execute files backend.1).1) (migrate-cases execute files backend.1)
            λ ran. rw (bootstrap_client-raises hash_secret environ name listed missing) refl)
