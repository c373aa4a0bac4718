-- ===== src/Concurrent/Short.antt =====
-- The handlers that wait: how many statements they have before them, and of which kind.
use agent_oauth_from_scratch.Shared.{ℕ, Option, none, some, List, [], ◌∷◌}
use agent_oauth_from_scratch.Shared.Lists.{All}
use agent_oauth_from_scratch.Process.{Process, finish, ask}
use agent_oauth_from_scratch.Process.Follows.{Follows, Follows-suc}
use agent_oauth_from_scratch.Pipeline.{IssuedToken}
use agent_oauth_from_scratch.Routes.{Server, Response}
use agent_oauth_from_scratch.Routes.Statements.{token_steps}
use agent_oauth_from_scratch.Routes.Statements.Brief.{IsBrief, token_steps-Follows}
use agent_oauth_from_scratch.Storage.{Database}
use agent_oauth_from_scratch.Storage.Moves.{Moves}
use agent_oauth_from_scratch.Concurrent.{
  Waiting, System, Event, arrive, turn, drop, write, settle, pick, proceed, abandon, happen, serve,
}
use agent_oauth_from_scratch.Concurrent.Picked.{IsPicked, pick-IsPicked}

-- It waits for a statement, and after that one it has at most `n`.
abbrev pub IsShort : ℕ → Waiting → Type 0
IsShort n w = (db : Database) → Moves db (w.update db) × Follows Moves n (w.rest db)

settle-IsShort :
    (process : Process Database IssuedToken) (db : Database) (waiting : List Waiting)
    (answered : List Response)
    → All (IsShort 4) waiting
    → Follows Moves 5 process
    → All (IsShort 4) (settle process db waiting answered).waiting
unfolding settle
settle-IsShort (finish result) db waiting answered h f = h
settle-IsShort (ask update rest) db waiting answered h f = (f, h)

proceed-IsShort :
    (found : Option (Waiting × List Waiting)) (system : System)
    → All (IsShort 4) system.waiting
    → IsPicked (IsShort 4) found
    → All (IsShort 4) (proceed found system).waiting
unfolding proceed
proceed-IsShort none system h p = h
proceed-IsShort (some (w, others)) system h (short, p) =
    settle-IsShort (w.rest system.database) (w.update system.database) others system.answered p
      (Follows-suc Moves 4 (w.rest system.database) (short system.database).1)

abandon-IsShort :
    (found : Option (Waiting × List Waiting)) (system : System)
    → All (IsShort 4) system.waiting
    → IsPicked (IsShort 4) found
    → All (IsShort 4) (abandon found system).waiting
unfolding abandon settle
abandon-IsShort none system h p = h
abandon-IsShort (some (w, others)) system h (short, p) = p

module _ (server : Server) (brief : IsBrief server) where
  pub happen-IsShort :
      (event : Event) (system : System)
      → All (IsShort 4) system.waiting
      → All (IsShort 4) (happen server event system).waiting
  unfolding happen
  happen-IsShort (arrive draws request) system h =
      settle-IsShort (token_steps server draws request) system.database system.waiting
        system.answered h (token_steps-Follows server brief draws request)
  happen-IsShort (turn n) system h =
      proceed-IsShort (pick n system.waiting) system h (pick-IsPicked _ n system.waiting h)
  happen-IsShort (drop n) system h =
      abandon-IsShort (pick n system.waiting) system h (pick-IsPicked _ n system.waiting h)
  happen-IsShort (write w) system h = h

  pub serve-IsShort :
      (events : List Event) (system : System)
      → All (IsShort 4) system.waiting
      → All (IsShort 4) (serve server events system).waiting
  unfolding serve
  serve-IsShort [] system h = h
  serve-IsShort (event ∷ events) system h =
      serve-IsShort events (happen server event system) (happen-IsShort event system h)
