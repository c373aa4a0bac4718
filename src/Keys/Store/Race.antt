-- ===== src/Keys/Store/Race.antt =====
-- `load_or_create` of crypto/keys.py in several servers over one key file: runs and the invariant of their
-- agreement.
use agent_oauth_from_scratch.Shared.{
  ℕ, ◌≡◌, refl, sym, ◌∙◌, String, Option, none, some, List, [], ◌∷◌, eqb, if◌then◌else◌, Bool-cases,
  inl, inr,
}
use agent_oauth_from_scratch.Outcome.{Outcome, ok, raised, ok-injective}
use agent_oauth_from_scratch.Platform.{PrivateKey}
use agent_oauth_from_scratch.Keys.Store.{
  KeyFormat, load_private_key, Stage, begin, made, reading, missing, temporary, written, lost,
  clearing, returned, failed, Answer, os_error, success, finished, read_or, read_published, link,
  entered, advance, mode_after,
}

-- The servers, by number, over the permissions of the directory and the contents of the key file.
pub record Directory : Type 0 where
  pub mode : Option ℕ
  pub file : Option String
  pub stages : ℕ → Stage

-- One operation of a server.
pub record Turn : Type 0 where
  pub server : ℕ
  pub answer : Answer

abbrev pub start : Option ℕ → Option String → Directory
start mode file = record { mode = mode; file = file; stages = λ i. begin }

module _ (format : KeyFormat) (private_key_path : String) where
  unfoldable pub take_turn : Turn → Directory → Directory
  take_turn turn d =
      let (stage, file) =
        advance format private_key_path turn.answer (d.stages turn.server) d.file in
      record {
        mode = mode_after format private_key_path turn.answer (d.stages turn.server) d.mode;
        file = file;
        stages = λ j. if eqb turn.server j then stage else d.stages j;
      }

  unfoldable pub run : List Turn → Directory → Directory
  unfolding take_turn
  run [] d = d
  run (turn ∷ turns) d = run turns (take_turn turn d)

  -- A file that is there is not changed.
  abbrev pub IsKept : Option String → Option String → Type 0
  IsKept none after = Unit
  IsKept (some pem) after = after ≡ some pem

  -- A key that a server has returned, or is about to, is the key of the file.
  abbrev pub IsAgreed : Option String → Stage → Type 0
  IsAgreed file (returned key) =
      (pem : String) × (file ≡ some pem) × (load_private_key format pem ≡ ok key)
  IsAgreed file (clearing (ok key)) =
      (pem : String) × (file ≡ some pem) × (load_private_key format pem ≡ ok key)
  IsAgreed file (clearing (raised e)) = Unit
  IsAgreed file _ = Unit

  IsKept-refl : (file : Option String) → IsKept file file
  IsKept-refl none = tt
  IsKept-refl (some pem) = refl

  IsKept-trans : (a b c : Option String) → IsKept a b → IsKept b c → IsKept a c
  IsKept-trans none b c h k = tt
  IsKept-trans (some pem) none c h k = absurd (cc h)
  IsKept-trans (some pem) (some other) c h k = k ∙ h

  IsAgreed-kept :
      (file after : Option String) (stage : Stage)
      → IsKept file after
      → IsAgreed file stage
      → IsAgreed after stage
  IsAgreed-kept none after (returned key) h (pem, there, loads) = absurd (cc there)
  IsAgreed-kept (some p) after (returned key) h (pem, there, loads) = (pem, h ∙ there, loads)
  IsAgreed-kept none after (clearing (ok key)) h (pem, there, loads) = absurd (cc there)
  IsAgreed-kept (some p) after (clearing (ok key)) h (pem, there, loads) = (pem, h ∙ there, loads)
  IsAgreed-kept file after (clearing (raised e)) h k = tt
  IsAgreed-kept file after begin h k = tt
  IsAgreed-kept file after _ h k = tt

  -- What `cryptography` documents: a key that was written as PEM is loaded as the same key.
  abbrev pub IsPemFormat : Type 0
  IsPemFormat = (key : PrivateKey) → load_private_key format (format.private_bytes key) ≡ ok key

  finished-IsAgreed :
      (pem : String) (loaded : Outcome PrivateKey)
      → load_private_key format pem ≡ loaded
      → IsAgreed (some pem) (finished loaded)
  unfolding finished
  finished-IsAgreed pem (ok key) h = (pem, refl, h)
  finished-IsAgreed pem (raised e) h = tt

  read_or-IsAgreed :
      (absent : Stage) (file : Option String)
      → IsAgreed none absent
      → IsAgreed file (read_or format private_key_path absent file)
  unfolding read_or
  read_or-IsAgreed absent none h = h
  read_or-IsAgreed absent (some pem) h = finished-IsAgreed pem (load_private_key format pem) refl

  cleared-IsAgreed :
      (file : Option String) (outcome : Outcome PrivateKey)
      → IsAgreed file (clearing outcome)
      → IsAgreed file (finished outcome)
  unfolding finished
  cleared-IsAgreed file (ok key) h = h
  cleared-IsAgreed file (raised e) h = tt

  loaded-IsAgreed :
      (pem : String) (loaded : Outcome PrivateKey)
      → load_private_key format pem ≡ loaded
      → IsAgreed (some pem) (clearing loaded)
  loaded-IsAgreed pem (ok key) h = (pem, refl, h)
  loaded-IsAgreed pem (raised e) h = tt

  read_published-IsAgreed :
      (file : Option String)
      → IsAgreed file (clearing (read_published format private_key_path file))
  unfolding read_published
  read_published-IsAgreed none = tt
  read_published-IsAgreed (some pem) = loaded-IsAgreed pem (load_private_key format pem) refl

  -- One operation keeps the file, and leaves its server in agreement with it.
  abbrev IsStep : Option String → Stage × Option String → Type 0
  IsStep file (stage, after) = IsKept file after × IsAgreed after stage

  entered-IsAgreed : (file : Option String) → IsAgreed file (entered format private_key_path)
  unfolding entered
  entered-IsAgreed file = elim (Bool-cases format.posix) [
    | inl posix ↦ rw posix tt
    | inr other ↦ rw other tt
  ]

  advance-IsAgreed :
      IsPemFormat
      → (answer : Answer) (stage : Stage) (file : Option String) → IsAgreed file stage
      → IsStep file (advance format private_key_path answer stage file)
  unfolding advance link
  advance-IsAgreed law os_error begin file h = (IsKept-refl file, tt)
  advance-IsAgreed law os_error made file h = (IsKept-refl file, tt)
  advance-IsAgreed law os_error reading file h = (IsKept-refl file, tt)
  advance-IsAgreed law os_error missing file h = (IsKept-refl file, tt)
  advance-IsAgreed law os_error (temporary key) file h = (IsKept-refl file, tt)
  advance-IsAgreed law os_error (written key) file h = (IsKept-refl file, tt)
  advance-IsAgreed law os_error lost file h = (IsKept-refl file, tt)
  advance-IsAgreed law (success drawn) begin file h = (IsKept-refl file, entered-IsAgreed file)
  advance-IsAgreed law (success drawn) made file h = (IsKept-refl file, tt)
  advance-IsAgreed law (success drawn) reading file h =
      (IsKept-refl file, read_or-IsAgreed missing file tt)
  advance-IsAgreed law (success drawn) missing file h = (IsKept-refl file, tt)
  advance-IsAgreed law (success drawn) (temporary key) file h = (IsKept-refl file, tt)
  advance-IsAgreed law (success drawn) (written key) none h =
      (tt, (format.private_bytes key, refl, law key))
  advance-IsAgreed law (success drawn) (written key) (some pem) h = (refl, tt)
  advance-IsAgreed law (success drawn) lost file h =
      (IsKept-refl file, read_published-IsAgreed file)
  advance-IsAgreed law os_error (clearing outcome) file h = (IsKept-refl file, tt)
  advance-IsAgreed law (success drawn) (clearing outcome) file h =
      (IsKept-refl file, cleared-IsAgreed file outcome h)
  advance-IsAgreed law answer (returned key) file h = (IsKept-refl file, h)
  advance-IsAgreed law answer (failed e) file h = (IsKept-refl file, tt)

  -- Every server agrees with the file.
  abbrev pub IsConsistent : Directory → Type 0
  IsConsistent d = (i : ℕ) → IsAgreed d.file (d.stages i)

  take_turn-IsConsistent :
      IsPemFormat
      → (turn : Turn) (d : Directory) → IsConsistent d
      → IsKept d.file (take_turn turn d).file × IsConsistent (take_turn turn d)
  unfolding take_turn
  take_turn-IsConsistent law turn d h =
      let s = advance-IsAgreed law turn.answer (d.stages turn.server) d.file (h turn.server) in
      (
        s.0,
        λ j. elim (Bool-cases (eqb turn.server j)) [
          | inl same ↦ rw same s.1
          | inr other ↦ rw other (IsAgreed-kept d.file _ (d.stages j) s.0 (h j))
        ],
      )

  run-IsConsistent :
      IsPemFormat
      → (turns : List Turn) (d : Directory) → IsConsistent d
      → IsKept d.file (run turns d).file × IsConsistent (run turns d)
  unfolding run
  run-IsConsistent law [] d h = (IsKept-refl d.file, h)
  run-IsConsistent law (turn ∷ turns) d h =
      let (kept, one) = take_turn-IsConsistent law turn d h in
      let (later, all) = run-IsConsistent law turns (take_turn turn d) one in
      (IsKept-trans d.file _ _ kept later, all)

  -- If keys are read back from PEM as they were written: however the operations of the starting
  -- servers interleave and whichever of them the operating system fails, all the servers that
  -- return a key return the same one, the key file holds it, and a key file that was there is
  -- unchanged.
  pub start_race-IsAgreed :
      IsPemFormat
      → (turns : List Turn) (mode : Option ℕ) (file : Option String) (i j : ℕ) (k l : PrivateKey)
      → (run turns (start mode file)).stages i ≡ returned k
      → (run turns (start mode file)).stages j ≡ returned l
      → (pem : String) × (k ≡ l)
        × ((run turns (start mode file)).file ≡ some pem)
        × (load_private_key format pem ≡ ok k)
        × IsKept file (run turns (start mode file)).file
  start_race-IsAgreed law turns mode file i j k l hi hj =
      let (kept, all) = run-IsConsistent law turns (start mode file) (λ n. tt) in
      let (pem, there, loads) = rw hi at (all i) in
      let (pem', there', loads') = rw hj at (all j) in
      let same : pem ≡ pem' = cc (there, there') in
      (pem, ok-injective (sym loads ∙ rw same loads'), there, loads, kept)
