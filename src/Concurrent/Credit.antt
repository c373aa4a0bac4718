-- ===== src/Concurrent/Credit.antt =====
-- The tokens that the handlers under way may still make, while the identifier of a client assertion is
-- free, and once it is taken.
use agent_oauth_from_scratch.Shared.{
  ℕ, zero, suc, ◌+◌, ◌≤◌, ◌≡◌, refl, ◌⊎◌, inl, inr, String, Bool-cases, Option, none, some, List,
  [], ◌∷◌, arith, if◌then◌else◌,
}
use agent_oauth_from_scratch.Shared.Lists.{any}
use agent_oauth_from_scratch.Outcome.{Outcome, ok, raised, oauth, uncaught}
use agent_oauth_from_scratch.Process.{Process, finish, ask}
use agent_oauth_from_scratch.Process.Gated.{Gated, Fails}
use agent_oauth_from_scratch.Pipeline.{IssuedToken}
use agent_oauth_from_scratch.Storage.{Database}
use agent_oauth_from_scratch.Storage.Moves.{Moves}
use agent_oauth_from_scratch.Storage.Replays.{IsHeld, holds}
use agent_oauth_from_scratch.Storage.Replays.Held.{IsWon, Moves-IsHeld}
use agent_oauth_from_scratch.Routes.{Response, success, failure, server_error, respond}
use agent_oauth_from_scratch.Concurrent.{
  Waiting, System, settle, add_first, pick, proceed, abandon, idle,
}
use agent_oauth_from_scratch.Concurrent.Picked.{IsPicked}
use agent_oauth_from_scratch.Concurrent.Short.{IsShort}

-- how many of the responses have a token
abbrev pub tokens : List Response → ℕ
tokens [] = 0
tokens (success body ∷ responses) = suc (tokens responses)
tokens (failure status error description challenge ∷ responses) = tokens responses
tokens (server_error ∷ responses) = tokens responses

respond-tokens :
    (result : Outcome IssuedToken) (answered : List Response)
    → tokens (respond result ∷ answered) ≤ suc (tokens answered)
unfolding respond
respond-tokens (ok issued) answered = omega arith
respond-tokens (raised (oauth e)) answered = omega arith
respond-tokens (raised _) answered = omega arith

respond-tokens_of_Fails :
    (result : Outcome IssuedToken) (answered : List Response)
    → Fails result
    → tokens (respond result ∷ answered) ≡ tokens answered
unfolding respond
respond-tokens_of_Fails (ok issued) answered fails = absurd fails
respond-tokens_of_Fails (raised (oauth e)) answered fails = refl
respond-tokens_of_Fails (raised _) answered fails = refl

module _ (limit : ℕ) (client_id jti : String) where
  -- 1 while the identifier is still to be had
  pub credit : Database → ℕ
  credit db = if any (holds limit client_id jti) db.client_assertion_jti then 0 else 1

  pub credit-keep :
      (db after : Database)
      → (IsHeld limit client_id jti db → IsHeld limit client_id jti after)
      → credit after ≤ credit db
  unfolding credit IsHeld
  credit-keep db after keeps =
      elim (Bool-cases (any (holds limit client_id jti) db.client_assertion_jti)) [
        | inl held ↦ rw (held, keeps held) (omega arith)
        | inr free ↦ rw free (ground arith)
      ]

  credit-IsWon :
      (db after : Database) → IsWon limit client_id jti db after → suc (credit after) ≤ credit db
  unfolding credit IsHeld
  credit-IsWon db after (free, held) =
      elim (Bool-cases (any (holds limit client_id jti) db.client_assertion_jti)) [
        | inl old ↦ absurd (free old)
        | inr new ↦ rw (new, held) (omega arith)
      ]

  -- A handler that costs nothing makes no token unless it takes the identifier.
  abbrev pub Costs : ℕ → Process Database IssuedToken → Type 0
  Costs k process = Gated (IsWon limit client_id jti) Fails process ⊎ (1 ≤ k)

  abbrev pub CostsNext : ℕ → Waiting → Type 0
  CostsNext k w =
      ((db : Database)
        → IsWon limit client_id jti db (w.update db)
          ⊎ Gated (IsWon limit client_id jti) Fails (w.rest db))
      ⊎ (1 ≤ k)

  -- All of them make at most `n` tokens without taking it.
  pub Open : ℕ → List Waiting → Type 0
  Open n [] = Unit
  Open n (w ∷ ws) = (k m : ℕ) × CostsNext k w × Open m ws × (k + m ≤ n)

  pub IsSplit : ℕ → Option (Waiting × List Waiting) → Type 0
  IsSplit n none = Unit
  IsSplit n (some (w, others)) = (k m : ℕ) × CostsNext k w × Open m others × (k + m ≤ n)

  add_first-IsSplit :
      (k m n : ℕ) (w : Waiting) (found : Option (Waiting × List Waiting))
      → CostsNext k w
      → k + m ≤ n
      → IsSplit m found
      → IsSplit n (add_first w found)
  unfolding add_first IsSplit Open
  add_first-IsSplit k m n w none costs fits split = tt
  add_first-IsSplit k m n w (some (found, others)) costs fits (j, l, next, rest, fits') =
      (j, k + l, next, (k, l, costs, rest, omega arith), omega arith)

  pub pick-IsSplit : (n i : ℕ) (ws : List Waiting) → Open n ws → IsSplit n (pick i ws)
  unfolding pick Open IsSplit
  pick-IsSplit n i [] rest = tt
  pick-IsSplit n zero (w ∷ ws) rest = rest
  pick-IsSplit n (suc i) (w ∷ ws) (k, m, costs, rest, fits) =
      add_first-IsSplit k m n w (pick i ws) costs fits (pick-IsSplit m i ws rest)

  -- The tokens so far, those that may come, and the identifier: together at most `n`.
  pub record IsPaid (n : ℕ) (system : System) : Type 0 where
    pub to_come : ℕ
    pub rest : Open to_come system.waiting
    pub bound : tokens system.answered + to_come + credit system.database ≤ n

  pub settle-IsPaid :
      (process : Process Database IssuedToken) (db : Database) (waiting : List Waiting)
      (answered : List Response) (k m n : ℕ)
      → Costs k process
      → Open m waiting
      → tokens answered + (k + m) + credit db ≤ n
      → IsPaid n (settle process db waiting answered)
  unfolding settle Open
  settle-IsPaid (finish result) db waiting answered k m n (inl fails) rest bound = record {
    to_come = m;
    rest = rest;
    bound = omega (arith, respond-tokens_of_Fails result answered fails, bound);
  }
  settle-IsPaid (finish result) db waiting answered k m n (inr paid) rest bound = record {
    to_come = m;
    rest = rest;
    bound = omega (arith, respond-tokens result answered, bound, paid);
  }
  settle-IsPaid (ask update next) db waiting answered k m n costs rest bound = record {
    to_come = k + m;
    rest = (k, m, costs, rest, omega arith);
    bound = bound;
  }

  -- A statement of a handler costs what the handler costs, or it takes the identifier.
  proceed-some-IsPaid :
      (w : Waiting) (others : List Waiting) (system : System) (k m n : ℕ)
      → CostsNext k w
      → Moves system.database (w.update system.database)
      → Open m others
      → tokens system.answered + (k + m) + credit system.database ≤ n
      → IsPaid n (proceed (some (w, others)) system)
  unfolding proceed
  proceed-some-IsPaid w others system k m n (inr paid) moves rest bound =
      let db = system.database in
      let kept = credit-keep db (w.update db) (Moves-IsHeld limit client_id jti db _ moves) in
      settle-IsPaid (w.rest db) (w.update db) others system.answered k m n (inr paid) rest
        (omega (arith, kept, bound))
  proceed-some-IsPaid w others system k m n (inl closed) moves rest bound =
      let db = system.database in
      elim (closed db) [
        | inl won ↦
            settle-IsPaid (w.rest db) (w.update db) others system.answered (suc k) m n
              (inr (omega arith)) rest (omega (arith, credit-IsWon db (w.update db) won, bound))
        | inr gated ↦
            settle-IsPaid (w.rest db) (w.update db) others system.answered k m n (inl gated) rest (
              omega (
                arith,
                credit-keep db (w.update db) (Moves-IsHeld limit client_id jti db _ moves),
                bound,
              ))
      ]

  pub proceed-IsPaid :
      (found : Option (Waiting × List Waiting)) (system : System) (n to_come : ℕ)
      → IsPaid n system
      → IsPicked (IsShort 4) found
      → IsSplit to_come found
      → tokens system.answered + to_come + credit system.database ≤ n
      → IsPaid n (proceed found system)
  unfolding IsSplit
  proceed-IsPaid none system n to_come paid short split bound = unfold proceed in paid
  proceed-IsPaid (some (w, others)) system n to_come paid (short, _) (k, m, costs, rest, fits)
        bound =
      proceed-some-IsPaid w others system k m n costs (short system.database).0 rest
        (omega (arith, fits, bound))

  pub abandon-IsPaid :
      (found : Option (Waiting × List Waiting)) (system : System) (n to_come : ℕ)
      → IsPaid n system
      → IsSplit to_come found
      → tokens system.answered + to_come + credit system.database ≤ n
      → IsPaid n (abandon found system)
  unfolding IsSplit abandon
  abandon-IsPaid none system n to_come paid split bound = paid
  abandon-IsPaid (some (w, others)) system n to_come paid (k, m, costs, rest, fits) bound =
      settle-IsPaid (finish (raised uncaught)) system.database others system.answered 0 m n (inl tt)
        rest (omega (arith, fits, bound))

  pub idle-IsPaid : (db : Database) → IsPaid 1 (idle db)
  unfolding credit Open
  idle-IsPaid db = record { to_come = 0; rest = tt; bound = ground arith }
