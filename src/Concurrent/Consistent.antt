-- ===== src/Concurrent/Consistent.antt =====
-- What the server and the other programs make of the database, in any order of their statements.
use agent_oauth_from_scratch.Shared.{◌≡◌, refl, Option, none, some, List, [], ◌∷◌}
use agent_oauth_from_scratch.Shared.Lists.{All}
use agent_oauth_from_scratch.Outcome.{ok}
use agent_oauth_from_scratch.Process.{Process, finish, ask}
use agent_oauth_from_scratch.Config.{Settings}
use agent_oauth_from_scratch.Models.{SigningKey}
use agent_oauth_from_scratch.Pipeline.{IssuedToken}
use agent_oauth_from_scratch.Platform.{Platform}
use agent_oauth_from_scratch.Storage.{Database}
use agent_oauth_from_scratch.Storage.Consistency
use agent_oauth_from_scratch.Storage.Consistency.{Reaches, IsConsistent, reaches-IsConsistent}
use agent_oauth_from_scratch.Storage.Moves.{Moves-Reaches}
use agent_oauth_from_scratch.Routes.{Server, Response, create_app}
use agent_oauth_from_scratch.Routes.Statements.{token_steps}
use agent_oauth_from_scratch.Routes.Statements.Brief.{IsBrief, create_app-IsBrief}
use agent_oauth_from_scratch.Concurrent.{
  Waiting, System, Write, upserts, adds, purges, Event, arrive, turn, drop, write, settle, pick,
  proceed, abandon, do_write, happen, serve, idle,
}
use agent_oauth_from_scratch.Concurrent.Picked.{IsPicked, pick-IsPicked}
use agent_oauth_from_scratch.Concurrent.Short.{IsShort, happen-IsShort}

do_write-Reaches : (w : Write) (db : Database) → Reaches db → Reaches (do_write w db)
unfolding do_write
do_write-Reaches (upserts client) db h = Consistency.upserts client h
do_write-Reaches (adds key) db h = Consistency.adds key h
do_write-Reaches (purges now) db h = Consistency.purges now h

settle-database :
    (process : Process Database IssuedToken) (db : Database) (waiting : List Waiting)
    (answered : List Response)
    → (settle process db waiting answered).database ≡ db
unfolding settle
settle-database (finish result) db waiting answered = refl
settle-database (ask update rest) db waiting answered = refl

proceed-Reaches :
    (found : Option (Waiting × List Waiting)) (system : System)
    → IsPicked (IsShort 4) found
    → Reaches system.database
    → Reaches (proceed found system).database
unfolding proceed
proceed-Reaches none system p h = h
proceed-Reaches (some (w, others)) system (short, p) h =
    let db = system.database in
    rw (settle-database (w.rest db) (w.update db) others system.answered)
      (Moves-Reaches db (w.update db) (short db).0 h)

abandon-database :
    (found : Option (Waiting × List Waiting)) (system : System)
    → (abandon found system).database ≡ system.database
unfolding abandon settle
abandon-database none system = refl
abandon-database (some (w, others)) system = refl

module _ (server : Server) (brief : IsBrief server) where
  happen-Reaches :
      (event : Event) (system : System)
      → All (IsShort 4) system.waiting
      → Reaches system.database
      → Reaches (happen server event system).database
  unfolding happen
  happen-Reaches (arrive draws request) system short h =
      rw
        (settle-database (token_steps server draws request) system.database system.waiting
          system.answered)
        h
  happen-Reaches (turn n) system short h =
      proceed-Reaches (pick n system.waiting) system (pick-IsPicked _ n system.waiting short) h
  happen-Reaches (drop n) system short h = rw (abandon-database (pick n system.waiting) system) h
  happen-Reaches (write w) system short h = do_write-Reaches w system.database h

  serve-Reaches :
      (events : List Event) (system : System)
      → All (IsShort 4) system.waiting
      → Reaches system.database
      → Reaches (serve server events system).database
  unfolding serve
  serve-Reaches [] system short h = h
  serve-Reaches (event ∷ events) system short h =
      serve-Reaches events (happen server event system)
        (happen-IsShort server brief event system short) (happen-Reaches event system short h)

-- From a database that the repositories' statements make, a server with the default grants and
-- methods, in any order of the statements of its requests, of the losses of their connections and
-- of the writes of other programs, comes only to databases that keep every constraint of the
-- schema.
pub serve-IsConsistent :
    (platform : Platform) (settings : Settings) (signing_key : SigningKey) (server : Server)
    → create_app platform settings signing_key ≡ ok server
    → (events : List Event) (db : Database) → Reaches db
    → IsConsistent (serve server events (idle db)).database
serve-IsConsistent platform settings signing_key server made events db h = reaches-IsConsistent _ (
    serve-Reaches server (create_app-IsBrief platform settings signing_key server made) events
      (idle db) tt h)
