-- ===== src/Concurrent/Answered.antt =====
-- How a server with many requests under way comes to an end of each of them.
use agent_oauth_from_scratch.Shared.{
  ℕ, zero, suc, ◌+◌, ◌*◌, ◌≤◌, ◌≡◌, refl, ap, arith, Option, none, some, List, [], ◌∷◌,
}
use agent_oauth_from_scratch.Shared.Lists.{All, length}
use agent_oauth_from_scratch.Outcome.{ok}
use agent_oauth_from_scratch.Process.{Process, finish, ask}
use agent_oauth_from_scratch.Process.Follows.{Follows}
use agent_oauth_from_scratch.Config.{Settings}
use agent_oauth_from_scratch.Models.{SigningKey}
use agent_oauth_from_scratch.Pipeline.{IssuedToken}
use agent_oauth_from_scratch.Platform.{Platform}
use agent_oauth_from_scratch.Storage.{Database}
use agent_oauth_from_scratch.Storage.Moves.{Moves}
use agent_oauth_from_scratch.Routes.{Server, Response, create_app}
use agent_oauth_from_scratch.Routes.Statements.{token_steps}
use agent_oauth_from_scratch.Routes.Statements.Brief.{create_app-IsBrief}
use agent_oauth_from_scratch.Concurrent.{
  Waiting, System, Event, arrive, turn, drop, write, settle, pick, proceed, abandon, happen, serve,
  idle,
}
use agent_oauth_from_scratch.Concurrent.Aged.{count_statements, serve-few}
use agent_oauth_from_scratch.Concurrent.Picked.{IsOneLess, pick-IsOneLess}
use agent_oauth_from_scratch.Concurrent.Short.{IsShort, serve-IsShort}

-- `n` turns, each of the handler in front
unfoldable pub turns : ℕ → List Event
turns zero = []
turns (suc n) = turn 0 ∷ turns n

-- how many requests come in
unfoldable pub arrivals : List Event → ℕ
arrivals [] = 0
arrivals (arrive draws request ∷ events) = suc (arrivals events)
arrivals (turn n ∷ events) = arrivals events
arrivals (drop n ∷ events) = arrivals events
arrivals (write w ∷ events) = arrivals events

-- The handlers have at most `n` statements before them.
Work : ℕ → List Waiting → Type 0
Work n [] = Unit
Work n (w ∷ ws) = (k m : ℕ) × IsShort k w × Work m ws × (suc k + m ≤ n)

Work-mono : (m n : ℕ) (ws : List Waiting) → m ≤ n → Work m ws → Work n ws
unfolding Work
Work-mono m n [] le h = tt
Work-mono m n (w ∷ ws) le (k, l, short, h, fits) = (k, l, short, h, omega (arith, fits, le))

Work-of_short : (ws : List Waiting) → All (IsShort 4) ws → Work (5 * length ws) ws
unfolding Work
Work-of_short [] h = tt
Work-of_short (w ∷ ws) (short, h) = (4, 5 * length ws, short, Work-of_short ws h, omega arith)

settle-Work :
    (process : Process Database IssuedToken) (db : Database) (waiting : List Waiting)
    (answered : List Response) (k m n : ℕ)
    → Follows Moves k process
    → Work m waiting
    → k + m ≤ n
    → Work n (settle process db waiting answered).waiting
unfolding settle Work
settle-Work (finish result) db waiting answered k m n f h fits =
    Work-mono m n waiting (omega (arith, fits)) h
settle-Work (ask update rest) db waiting answered zero m n f h fits = absurd f
settle-Work (ask update rest) db waiting answered (suc k) m n f h fits = (k, m, f, h, fits)

pick-Work :
    (n : ℕ) (ws : List Waiting) (system : System)
    → system.waiting ≡ ws
    → Work (suc n) ws
    → Work n (proceed (pick 0 ws) system).waiting
unfolding Work pick proceed
pick-Work n [] system same h = rw same tt
pick-Work n (w ∷ ws) system same (k, m, short, h, fits) =
    settle-Work (w.rest system.database) (w.update system.database) ws system.answered k m n
      (short system.database).1 h (omega (arith, fits))

Work-zero : (ws : List Waiting) → Work 0 ws → ws ≡ []
unfolding Work
Work-zero [] h = refl
Work-zero (w ∷ ws) (k, m, short, h, fits) = absurd (omega (arith, fits))

turns-Work :
    (server : Server) (n : ℕ) (system : System)
    → Work n system.waiting
    → (serve server (turns n) system).waiting ≡ []
unfolding turns serve happen
turns-Work server zero system h = Work-zero system.waiting h
turns-Work server (suc n) system h =
    turns-Work server n (happen server (turn 0) system) (pick-Work n system.waiting system refl h)

-- the requests that are answered or under way
abbrev requests : System → ℕ
requests system = length system.answered + length system.waiting

settle-requests :
    (process : Process Database IssuedToken) (db : Database) (waiting : List Waiting)
    (answered : List Response)
    → requests (settle process db waiting answered) ≡ suc (length answered + length waiting)
unfolding settle
settle-requests (finish result) db waiting answered = omega arith
settle-requests (ask update rest) db waiting answered = omega arith

proceed-requests :
    (found : Option (Waiting × List Waiting)) (system : System)
    → IsOneLess (length system.waiting) found
    → requests (proceed found system) ≡ requests system
unfolding proceed
proceed-requests none system less = refl
proceed-requests (some (w, others)) system less =
    let db = system.database in
    omega (arith, settle-requests (w.rest db) (w.update db) others system.answered, less)

abandon-requests :
    (found : Option (Waiting × List Waiting)) (system : System)
    → IsOneLess (length system.waiting) found
    → requests (abandon found system) ≡ requests system
unfolding abandon settle
abandon-requests none system less = refl
abandon-requests (some (w, others)) system less = omega (arith, less)

happen-requests :
    (server : Server) (event : Event) (system : System)
    → requests (happen server event system) ≡ arrivals (event ∷ []) + requests system
unfolding happen arrivals
happen-requests server (arrive draws request) system = omega (
  arith,
  settle-requests (token_steps server draws request) system.database system.waiting system.answered,
)
happen-requests server (turn n) system =
    omega (arith, proceed-requests (pick n system.waiting) system (pick-IsOneLess n system.waiting))
happen-requests server (drop n) system =
    omega (arith, abandon-requests (pick n system.waiting) system (pick-IsOneLess n system.waiting))
happen-requests server (write w) system = omega arith

arrivals-cons :
    (event : Event) (events : List Event)
    → arrivals (event ∷ events) ≡ arrivals (event ∷ []) + arrivals events
unfolding arrivals
arrivals-cons (arrive draws request) events = omega arith
arrivals-cons (turn n) events = omega arith
arrivals-cons (drop n) events = omega arith
arrivals-cons (write w) events = omega arith

serve-requests :
    (server : Server) (events : List Event) (system : System)
    → requests (serve server events system) ≡ arrivals events + requests system
unfolding serve arrivals
serve-requests server [] system = omega arith
serve-requests server (event ∷ events) system = omega (
  arith,
  serve-requests server events (happen server event system),
  happen-requests server event system,
  arrivals-cons event events,
)

arrivals-turns : (n : ℕ) → arrivals (turns n) ≡ 0
unfolding arrivals turns
arrivals-turns zero = refl
arrivals-turns (suc n) = arrivals-turns n

-- At a server with the default grants and methods, whatever events follow one another: a request that
-- waits for a statement of its handler has had at most four of them, whatever came between them,
-- so that the fifth one answers it; every request that has come in has been answered or waits; and
-- after five more turns for each request that waits, all of them are answered.
pub serve-answers :
    (platform : Platform) (settings : Settings) (signing_key : SigningKey) (server : Server)
    → create_app platform settings signing_key ≡ ok server
    → (events : List Event) (db : Database)
    → let busy = serve server events (idle db) in
      let counts = count_statements server events (idle db) [] in
      let after = serve server (turns (5 * length busy.waiting)) busy in
      All (λ n. n ≤ 4) counts
      × (length counts ≡ length busy.waiting)
      × (length busy.answered + length busy.waiting ≡ arrivals events)
      × (after.waiting ≡ [])
      × (length after.answered ≡ arrivals events)
serve-answers platform settings signing_key server made events db =
    let brief = create_app-IsBrief platform settings signing_key server made in
    let busy = serve server events (idle db) in
    let n = 5 * length busy.waiting in
    let done =
      turns-Work server n busy
        (Work-of_short busy.waiting (serve-IsShort server brief events (idle db) tt)) in
    let (few, same) = serve-few server events db brief in
    (
      few,
      same,
      omega (arith, serve-requests server events (idle db)),
      done,
      omega (
        arith,
        serve-requests server (turns n) busy,
        serve-requests server events (idle db),
        arrivals-turns n,
        ap (λ (ws : List Waiting). length ws) done,
      ),
    )
