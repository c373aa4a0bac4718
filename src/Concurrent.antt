-- ===== src/Concurrent.antt =====
-- main.py and api/routes.py at work: the server answers many requests at a time. Every handler is a
-- coroutine, and between any two of its statements other handlers, and other programs, reach the
-- database.
pub mod Picked
pub mod Short
pub mod Accounted
pub mod Consistent
pub mod Aged
pub mod Answered
pub mod Alone
pub mod Credit
pub mod Single
use agent_oauth_from_scratch.Shared.{ℕ, zero, suc, Option, none, some, List, [], ◌∷◌}
use agent_oauth_from_scratch.Outcome.{raised, uncaught}
use agent_oauth_from_scratch.Process.{Process, finish, ask}
use agent_oauth_from_scratch.Forms.{Request}
use agent_oauth_from_scratch.Models.{RegisteredClient, ClientKey}
use agent_oauth_from_scratch.Pipeline.{IssuedToken}
use agent_oauth_from_scratch.Platform.{Draws}
use agent_oauth_from_scratch.Routes.{Server, Response, respond}
use agent_oauth_from_scratch.Routes.Statements.{token_steps}
use agent_oauth_from_scratch.Storage.{Database, upsert_client, add_key, purge_expired}

-- A handler that waits for its next statement.
pub record Waiting : Type 0 where
  pub update : Database → Database
  pub rest : Database → Process Database IssuedToken

-- The database, the handlers that wait, and the responses so far, the latest first.
pub record System : Type 0 where
  pub database : Database
  pub waiting : List Waiting
  pub answered : List Response

-- What other programs write, beside this server: seeds, registrations and the purge.
pub data Write : Type 0 where
  upserts : RegisteredClient → Write
  adds : ClientKey → Write
  purges : ℕ → Write

pub data Event : Type 0 where
  -- a request comes in, and its handler runs up to its first statement
  arrive : Draws → Request → Event
  -- the handler at this place makes its statement, and runs up to the next one
  turn : ℕ → Event
  -- the handler at this place loses its connection before its statement is committed
  drop : ℕ → Event
  write : Write → Event

-- a handler that has run as far as it can: it answers, or it waits
unfoldable pub settle :
    Process Database IssuedToken → Database → List Waiting → List Response → System
settle (finish result) db waiting answered = record {
  database = db;
  waiting = waiting;
  answered = respond result ∷ answered;
}
settle (ask update rest) db waiting answered = record {
  database = db;
  waiting = record { update = update; rest = rest } ∷ waiting;
  answered = answered;
}

add_first : {A : Type 0} → A → Option (A × List A) → Option (A × List A)
add_first w none = none
add_first w (some (found, others)) = some (found, w ∷ others)

-- the handler at a place, and the others
unfoldable pub pick : {A : Type 0} → ℕ → List A → Option (A × List A)
unfolding add_first
pick n [] = none
pick zero (w ∷ ws) = some (w, ws)
pick (suc n) (w ∷ ws) = add_first w (pick n ws)

-- the statement of the handler that is picked
unfoldable pub proceed : Option (Waiting × List Waiting) → System → System
unfolding settle
proceed none system = system
proceed (some (w, others)) system =
    let db = system.database in settle (w.rest db) (w.update db) others system.answered

-- the exception of a lost connection, which no layer takes
unfoldable pub abandon : Option (Waiting × List Waiting) → System → System
unfolding settle
abandon none system = system
abandon (some (w, others)) system =
    settle (finish (raised uncaught)) system.database others system.answered

unfoldable pub do_write : Write → Database → Database
do_write (upserts client) db = (upsert_client client db).1
do_write (adds key) db = (add_key key db).1
do_write (purges now) db = (purge_expired now db).1

unfoldable pub happen : Server → Event → System → System
unfolding settle pick proceed abandon do_write
happen server (arrive draws request) system =
    settle (token_steps server draws request) system.database system.waiting system.answered
happen server (turn n) system = proceed (pick n system.waiting) system
happen server (drop n) system = abandon (pick n system.waiting) system
happen server (write w) system = record system { database = do_write w system.database }

-- the events one after the other
unfoldable pub serve : Server → List Event → System → System
unfolding happen
serve server [] system = system
serve server (event ∷ events) system = serve server events (happen server event system)

-- no request is under way
abbrev pub idle : Database → System
idle db = record { database = db; waiting = []; answered = [] }
