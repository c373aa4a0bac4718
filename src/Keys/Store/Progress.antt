-- ===== src/Keys/Store/Progress.antt =====
-- `load_or_create` of crypto/keys.py in several servers: how far each of them has to go.
use agent_oauth_from_scratch.Shared.{
  ℕ, ◌+◌, ◌-◌, ◌≤◌, ◌≡◌, refl, String, Option, List, [], ◌∷◌, eqb, if◌then◌else◌, arith, Bool-cases,
  inl, inr,
}
use agent_oauth_from_scratch.Shared.Lists.{All}
use agent_oauth_from_scratch.Platform.{PrivateKey}
use agent_oauth_from_scratch.Keys.Store.{
  KeyFormat, Stage, begin, made, reading, missing, temporary, written, lost, clearing, returned,
  failed,
}
use agent_oauth_from_scratch.Keys.Store.Nearer.{
  rank, IsSuccess, IsUsable, IsHealthy, advance-IsProgress, IsHealthy-kept,
}
use agent_oauth_from_scratch.Keys.Store.Race.{Directory, Turn, start, take_turn, run, IsPemFormat}

-- How many of the turns are the server's own.
abbrev pub own_turns : ℕ → List Turn → ℕ
own_turns i [] = 0
own_turns i (turn ∷ turns) = (if eqb turn.server i then 1 else 0) + own_turns i turns

module _ (format : KeyFormat) (private_key_path : String) where
  record IsSound (d : Directory) : Type 0 where
    usable : IsUsable format private_key_path d.file
    healthy : (i : ℕ) → IsHealthy format private_key_path d.file (d.stages i)

  module _ (law : IsPemFormat format private_key_path) where
    take_turn-IsSound :
        (turn : Turn) (d : Directory) (i : ℕ)
        → IsSuccess turn.answer
        → IsSound d
        → IsSound (take_turn format private_key_path turn d)
          × (rank ((take_turn format private_key_path turn d).stages i)
              ≤ rank (d.stages i) - (if eqb turn.server i then 1 else 0))
    unfolding take_turn
    take_turn-IsSound turn d i s sound =
        let p =
          advance-IsProgress format private_key_path law turn.answer (d.stages turn.server) d.file s
            sound.usable (sound.healthy turn.server) in
        (
          record {
            usable = p.usable;
            healthy = λ j. elim (Bool-cases (eqb turn.server j)) [
              | inl same ↦ rw same p.healthy
              | inr other ↦ rw other (
                  IsHealthy-kept format private_key_path d.file _ (d.stages j) p.kept
                    (sound.healthy j))
            ];
          },
          elim (Bool-cases (eqb turn.server i)) [
            | inl same ↦ rw same (ground (arith, p.nearer))
            | inr other ↦ rw other (omega arith)
          ],
        )

    run-IsSound :
        (turns : List Turn) (d : Directory) (i : ℕ)
        → All (λ (turn : Turn). IsSuccess turn.answer) turns
        → IsSound d
        → IsSound (run format private_key_path turns d)
          × (rank ((run format private_key_path turns d).stages i)
              ≤ rank (d.stages i) - own_turns i turns)
    unfolding run
    run-IsSound [] d i s sound = (sound, omega arith)
    run-IsSound (turn ∷ turns) d i (s, ss) sound =
        let (one, near) = take_turn-IsSound turn d i s sound in
        let (all, nearer) = run-IsSound turns (take_turn format private_key_path turn d) i ss one in
        (all, omega (arith, near, nearer))

    rank-eq-zero :
        (file : Option String) (stage : Stage)
        → IsHealthy format private_key_path file stage
        → rank stage ≤ 0
        → (key : PrivateKey) × (stage ≡ returned key)
    rank-eq-zero file (returned key) h r = (key, refl)
    rank-eq-zero file (failed e) h r = absurd h
    rank-eq-zero file begin h r = absurd (omega arith)
    rank-eq-zero file made h r = absurd (omega arith)
    rank-eq-zero file reading h r = absurd (omega arith)
    rank-eq-zero file missing h r = absurd (omega arith)
    rank-eq-zero file (temporary key) h r = absurd (omega arith)
    rank-eq-zero file (written key) h r = absurd (omega arith)
    rank-eq-zero file lost h r = absurd (omega arith)
    rank-eq-zero file (clearing outcome) h r = absurd (omega arith)

    -- If keys are read back from PEM as they were written, no operation fails, and a key file
    -- that is there can be used: a server that has made eight operations has returned a key,
    -- however the operations of the others lie between them.
    pub start-returns :
        (turns : List Turn) (mode : Option ℕ) (file : Option String) (i : ℕ)
        → All (λ (turn : Turn). IsSuccess turn.answer) turns
        → IsUsable format private_key_path file
        → 8 ≤ own_turns i turns
        → (key : PrivateKey) × ((run format private_key_path turns (start mode file)).stages i
            ≡ returned key)
    start-returns turns mode file i s usable enough =
        let (sound, near) =
          run-IsSound turns (start mode file) i s (record { usable = usable; healthy = λ j. tt }) in
        rank-eq-zero _ _ (sound.healthy i) (omega (arith, near, enough))
