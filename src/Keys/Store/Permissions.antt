-- ===== src/Keys/Store/Permissions.antt =====
-- `load_or_create` of crypto/keys.py in several servers: the permissions of the directory of the key.
use agent_oauth_from_scratch.Shared.{
  ℕ, ◌≡◌, refl, String, true, Option, none, some, List, [], ◌∷◌, eqb, Bool-cases, inl, inr,
}
use agent_oauth_from_scratch.Outcome.{Outcome, ok, raised}
use agent_oauth_from_scratch.Platform.{PrivateKey}
use agent_oauth_from_scratch.Keys.Store.{
  KeyFormat, Stage, begin, made, reading, missing, temporary, written, lost, clearing, returned,
  failed, owner_only, Answer, os_error, success, finished, read_or, link, entered, advance,
  mode_after, load_private_key,
}
use agent_oauth_from_scratch.Keys.Store.Race.{Directory, Turn, start, take_turn, run}

-- A server that has come to the key file stands over a directory that only the owner can enter.
abbrev pub IsPrivate : Option ℕ → Stage → Type 0
IsPrivate mode begin = Unit
IsPrivate mode made = Unit
IsPrivate mode (failed e) = Unit
IsPrivate mode _ = mode ≡ some owner_only

module _ (format : KeyFormat) (private_key_path : String) where
  -- Once only the owner can enter, it stays so.
  mode_after-owner_only :
      (answer : Answer) (stage : Stage)
      → mode_after format private_key_path answer stage (some owner_only) ≡ some owner_only
  unfolding mode_after
  mode_after-owner_only (success drawn) begin = refl
  mode_after-owner_only (success drawn) made = refl
  mode_after-owner_only os_error stage = refl
  mode_after-owner_only (success drawn) _ = refl

  finished-IsPrivate :
      (mode : Option ℕ) (outcome : Outcome PrivateKey)
      → mode ≡ some owner_only
      → IsPrivate mode (finished outcome)
  unfolding finished
  finished-IsPrivate mode (ok key) h = h
  finished-IsPrivate mode (raised e) h = tt

  read_or-IsPrivate :
      (mode : Option ℕ) (file : Option String)
      → mode ≡ some owner_only
      → IsPrivate mode (read_or format private_key_path missing file)
  unfolding read_or
  read_or-IsPrivate mode none h = h
  read_or-IsPrivate mode (some pem) h = finished-IsPrivate mode (load_private_key format pem) h

  link-IsPrivate :
      (mode : Option ℕ) (key : PrivateKey) (file : Option String)
      → mode ≡ some owner_only
      → IsPrivate mode (link format private_key_path key file).0
  unfolding link
  link-IsPrivate mode key none h = h
  link-IsPrivate mode key (some pem) h = h

  advance-IsPrivate :
      format.posix ≡ true
      → (answer : Answer) (stage : Stage) (mode : Option ℕ) (file : Option String)
      → IsPrivate mode stage
      → IsPrivate
          (mode_after format private_key_path answer stage mode)
          (advance format private_key_path answer stage file).0
  unfolding advance mode_after entered
  advance-IsPrivate posix os_error begin mode file h = tt
  advance-IsPrivate posix (success drawn) begin mode file h = rw posix tt
  advance-IsPrivate posix os_error made mode file h = tt
  advance-IsPrivate posix (success drawn) made mode file h = refl
  advance-IsPrivate posix os_error reading mode file h = tt
  advance-IsPrivate posix (success drawn) reading mode file h = read_or-IsPrivate mode file h
  advance-IsPrivate posix os_error missing mode file h = tt
  advance-IsPrivate posix (success drawn) missing mode file h = h
  advance-IsPrivate posix os_error (temporary key) mode file h = h
  advance-IsPrivate posix (success drawn) (temporary key) mode file h = h
  advance-IsPrivate posix os_error (written key) mode file h = h
  advance-IsPrivate posix (success drawn) (written key) mode file h = link-IsPrivate mode key file h
  advance-IsPrivate posix os_error lost mode file h = h
  advance-IsPrivate posix (success drawn) lost mode file h = h
  advance-IsPrivate posix os_error (clearing outcome) mode file h = tt
  advance-IsPrivate posix (success drawn) (clearing outcome) mode file h =
      finished-IsPrivate mode outcome h
  advance-IsPrivate posix os_error (returned key) mode file h = h
  advance-IsPrivate posix (success drawn) (returned key) mode file h = h
  advance-IsPrivate posix answer (failed e) mode file h = tt

  IsPrivate-kept :
      (answer : Answer) (turned stage : Stage) (mode : Option ℕ)
      → IsPrivate mode stage
      → IsPrivate (mode_after format private_key_path answer turned mode) stage
  IsPrivate-kept answer turned begin mode h = tt
  IsPrivate-kept answer turned made mode h = tt
  IsPrivate-kept answer turned (failed e) mode h = tt
  IsPrivate-kept answer turned _ mode h = rw h (mode_after-owner_only answer turned)

  take_turn-IsPrivate :
      format.posix ≡ true
      → (turn : Turn) (d : Directory) → ((i : ℕ) → IsPrivate d.mode (d.stages i))
      → (i : ℕ)
      → IsPrivate
          (take_turn format private_key_path turn d).mode
          ((take_turn format private_key_path turn d).stages i)
  unfolding take_turn
  take_turn-IsPrivate posix turn d h i = elim (Bool-cases (eqb turn.server i)) [
    | inl same ↦
        rw same
          (advance-IsPrivate posix turn.answer (d.stages turn.server) d.mode d.file (h turn.server))
    | inr other ↦
        rw other (IsPrivate-kept turn.answer (d.stages turn.server) (d.stages i) d.mode (h i))
  ]

  run-IsPrivate :
      format.posix ≡ true
      → (turns : List Turn) (d : Directory) → ((i : ℕ) → IsPrivate d.mode (d.stages i))
      → (i : ℕ)
      → IsPrivate
          (run format private_key_path turns d).mode
          ((run format private_key_path turns d).stages i)
  unfolding run
  run-IsPrivate posix [] d h i = h i
  run-IsPrivate posix (turn ∷ turns) d h i =
      run-IsPrivate posix turns (take_turn format private_key_path turn d)
        (take_turn-IsPrivate posix turn d h) i

  -- On a POSIX host, however the operations of the starting servers interleave and whichever of
  -- them fail, and whatever the permissions of the directory were before: a server that looks
  -- for the key file, holds a temporary file with a generated key, or has returned a key does
  -- so in a directory that only the owner can enter.
  pub start-IsPrivate :
      format.posix ≡ true
      → (turns : List Turn) (mode : Option ℕ) (file : Option String) (i : ℕ)
      → IsPrivate
          (run format private_key_path turns (start mode file)).mode
          ((run format private_key_path turns (start mode file)).stages i)
  start-IsPrivate posix turns mode file i = run-IsPrivate posix turns (start mode file) (λ j. tt) i
