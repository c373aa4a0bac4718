-- ===== src/Concurrent/Aged.antt =====
-- How many statements each handler that waits has made, whatever came between them.
use agent_oauth_from_scratch.Shared.{
  ℕ, zero, suc, ◌+◌, ◌≤◌, ◌≡◌, refl, ap, arith, Option, none, some, List, [], ◌∷◌,
}
use agent_oauth_from_scratch.Shared.Lists.{All, length}
use agent_oauth_from_scratch.Process.{Process, finish, ask}
use agent_oauth_from_scratch.Process.Follows.{Follows}
use agent_oauth_from_scratch.Pipeline.{IssuedToken}
use agent_oauth_from_scratch.Routes.{Server, Response}
use agent_oauth_from_scratch.Routes.Statements.{token_steps}
use agent_oauth_from_scratch.Routes.Statements.Brief.{IsBrief, token_steps-Follows}
use agent_oauth_from_scratch.Storage.{Database}
use agent_oauth_from_scratch.Storage.Moves.{Moves}
use agent_oauth_from_scratch.Concurrent.{
  Waiting, System, Event, arrive, turn, drop, write, settle, add_first, pick, proceed, abandon,
  happen, serve, idle,
}
use agent_oauth_from_scratch.Concurrent.Short.{IsShort}

-- A handler that has made `n` statements: its count is in front if it waits for another one.
count_settled : Process Database IssuedToken → ℕ → List ℕ → List ℕ
count_settled (finish result) n others = others
count_settled (ask update rest) n others = n ∷ others

-- A handler makes one statement more.
count_turn : Option (Waiting × List Waiting) → Option (ℕ × List ℕ) → Database → List ℕ → List ℕ
count_turn none counted db counts = counts
count_turn (some (w, ws)) none db counts = counts
count_turn (some (w, ws)) (some (n, others)) db counts = count_settled (w.rest db) (suc n) others

count_drop : Option (ℕ × List ℕ) → List ℕ → List ℕ
count_drop none counts = counts
count_drop (some (n, others)) counts = others

-- the counts of the handlers that wait, in their order, after an event
count_event : Server → Event → System → List ℕ → List ℕ
count_event server (arrive draws request) system counts =
    count_settled (token_steps server draws request) 0 counts
count_event server (turn i) system counts =
    count_turn (pick i system.waiting) (pick i counts) system.database counts
count_event server (drop i) system counts = count_drop (pick i counts) counts
count_event server (write w) system counts = counts

unfoldable pub count_statements : Server → List Event → System → List ℕ → List ℕ
unfolding count_event count_turn count_drop count_settled
count_statements server [] system counts = counts
count_statements server (event ∷ events) system counts =
    count_statements server events (happen server event system)
      (count_event server event system counts)

-- It has made `n` statements, and waits for one of at most five.
IsYoung : ℕ → Waiting → Type 0
IsYoung n w = (k : ℕ) × IsShort k w × (n + k ≤ 4)

AreYoung : List ℕ → List Waiting → Type 0
AreYoung [] [] = Unit
AreYoung [] (w ∷ ws) = ⊥
AreYoung (n ∷ counts) [] = ⊥
AreYoung (n ∷ counts) (w ∷ ws) = IsYoung n w × AreYoung counts ws

IsYoungPick : Option (ℕ × List ℕ) → Option (Waiting × List Waiting) → Type 0
IsYoungPick none none = Unit
IsYoungPick none (some found) = ⊥
IsYoungPick (some counted) none = ⊥
IsYoungPick (some (n, counts)) (some (w, ws)) = IsYoung n w × AreYoung counts ws

add_first-IsYoungPick :
    (n : ℕ) (w : Waiting) (counted : Option (ℕ × List ℕ)) (found : Option (Waiting × List Waiting))
    → IsYoung n w
    → IsYoungPick counted found
    → IsYoungPick (add_first n counted) (add_first w found)
unfolding add_first IsYoungPick AreYoung
add_first-IsYoungPick n w none none young h = tt
add_first-IsYoungPick n w none (some found) young h = absurd h
add_first-IsYoungPick n w (some counted) none young h = absurd h
add_first-IsYoungPick n w (some (m, counts)) (some (v, ws)) young (h, rest) = (h, (young, rest))

pick-IsYoungPick :
    (i : ℕ) (counts : List ℕ) (ws : List Waiting)
    → AreYoung counts ws
    → IsYoungPick (pick i counts) (pick i ws)
unfolding pick IsYoungPick AreYoung
pick-IsYoungPick i [] [] h = tt
pick-IsYoungPick i [] (w ∷ ws) h = absurd h
pick-IsYoungPick i (n ∷ counts) [] h = absurd h
pick-IsYoungPick zero (n ∷ counts) (w ∷ ws) h = h
pick-IsYoungPick (suc i) (n ∷ counts) (w ∷ ws) (young, h) =
    add_first-IsYoungPick n w (pick i counts) (pick i ws) young (pick-IsYoungPick i counts ws h)

settle-AreYoung :
    (process : Process Database IssuedToken) (db : Database) (ws : List Waiting)
    (answered : List Response) (n k : ℕ) (counts : List ℕ)
    → Follows Moves k process
    → n + k ≤ 5
    → AreYoung counts ws
    → AreYoung (count_settled process n counts) (settle process db ws answered).waiting
unfolding settle count_settled AreYoung IsYoung
settle-AreYoung (finish result) db ws answered n k counts f fits h = h
settle-AreYoung (ask update rest) db ws answered n zero counts f fits h = absurd f
settle-AreYoung (ask update rest) db ws answered n (suc k) counts f fits h =
    ((k, f, omega (arith, fits)), h)

turn-AreYoung :
    (found : Option (Waiting × List Waiting)) (counted : Option (ℕ × List ℕ)) (system : System)
    (counts : List ℕ)
    → AreYoung counts system.waiting
    → IsYoungPick counted found
    → AreYoung (count_turn found counted system.database counts) (proceed found system).waiting
unfolding proceed count_turn IsYoungPick IsYoung
turn-AreYoung none none system counts h p = h
turn-AreYoung none (some counted) system counts h p = h
turn-AreYoung (some found) none system counts h p = absurd p
turn-AreYoung (some (w, ws)) (some (n, others)) system counts h ((k, short, fits), rest) =
    settle-AreYoung (w.rest system.database) (w.update system.database) ws system.answered (suc n) k
      others (short system.database).1 (omega (arith, fits)) rest

drop-AreYoung :
    (found : Option (Waiting × List Waiting)) (counted : Option (ℕ × List ℕ)) (system : System)
    (counts : List ℕ)
    → AreYoung counts system.waiting
    → IsYoungPick counted found
    → AreYoung (count_drop counted counts) (abandon found system).waiting
unfolding abandon settle count_drop IsYoungPick
drop-AreYoung none none system counts h p = h
drop-AreYoung none (some counted) system counts h p = absurd p
drop-AreYoung (some found) none system counts h p = absurd p
drop-AreYoung (some (w, ws)) (some (n, others)) system counts h (young, rest) = rest

happen-AreYoung :
    (server : Server) (event : Event) (system : System) (counts : List ℕ)
    → IsBrief server
    → AreYoung counts system.waiting
    → AreYoung (count_event server event system counts) (happen server event system).waiting
unfolding happen count_event
happen-AreYoung server (arrive draws request) system counts brief h =
    settle-AreYoung (token_steps server draws request) system.database system.waiting
      system.answered 0 5 counts (token_steps-Follows server brief draws request) (omega arith) h
happen-AreYoung server (turn i) system counts brief h =
    turn-AreYoung (pick i system.waiting) (pick i counts) system counts h
      (pick-IsYoungPick i counts system.waiting h)
happen-AreYoung server (drop i) system counts brief h =
    drop-AreYoung (pick i system.waiting) (pick i counts) system counts h
      (pick-IsYoungPick i counts system.waiting h)
happen-AreYoung server (write w) system counts brief h = h

serve-AreYoung :
    (server : Server) (events : List Event) (system : System) (counts : List ℕ)
    → IsBrief server
    → AreYoung counts system.waiting
    → AreYoung (count_statements server events system counts) (serve server events system).waiting
unfolding serve count_statements
serve-AreYoung server [] system counts brief h = h
serve-AreYoung server (event ∷ events) system counts brief h =
    serve-AreYoung server events (happen server event system)
      (count_event server event system counts) brief
      (happen-AreYoung server event system counts brief h)

AreYoung-few :
    (counts : List ℕ) (ws : List Waiting)
    → AreYoung counts ws
    → All (λ n. n ≤ 4) counts × (length counts ≡ length ws)
unfolding AreYoung IsYoung
AreYoung-few [] [] h = (tt, refl)
AreYoung-few [] (w ∷ ws) h = absurd h
AreYoung-few (n ∷ counts) [] h = absurd h
AreYoung-few (n ∷ counts) (w ∷ ws) ((k, short, fits), h) =
    let (few, same) = AreYoung-few counts ws h in ((omega (arith, fits), few), ap suc same)

-- A handler that waits has made at most four statements, whatever happened between them.
pub serve-few :
    (server : Server) (events : List Event) (db : Database)
    → IsBrief server
    → All (λ n. n ≤ 4) (count_statements server events (idle db) [])
      × (length (count_statements server events (idle db) [])
          ≡ length (serve server events (idle db)).waiting)
unfolding AreYoung
serve-few server events db brief =
    AreYoung-few _ _ (serve-AreYoung server events (idle db) [] brief tt)
