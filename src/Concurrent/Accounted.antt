-- ===== src/Concurrent/Accounted.antt =====
-- The responses of a server with many requests under way, and the table of issued credentials.
use agent_oauth_from_scratch.Shared.{◌≡◌, refl, ◌∙◌, Option, none, some, List, [], ◌∷◌}
use agent_oauth_from_scratch.Shared.Lists.{All}
use agent_oauth_from_scratch.Outcome.{ok, raised, uncaught}
use agent_oauth_from_scratch.Process.{Process, finish, ask}
use agent_oauth_from_scratch.Config.{Settings}
use agent_oauth_from_scratch.Models.{SigningKey}
use agent_oauth_from_scratch.Pipeline.{IssuedToken}
use agent_oauth_from_scratch.Platform.{Platform}
use agent_oauth_from_scratch.Storage.{Database, purge_expired}
use agent_oauth_from_scratch.Storage.Keeping.{upsert_client-Keeps, add_key-Keeps}
use agent_oauth_from_scratch.Routes.{Server, Response, respond, create_app}
use agent_oauth_from_scratch.Routes.Keeping.{create_app-IsDefault}
use agent_oauth_from_scratch.Routes.Ledger.{IsAccounted}
use agent_oauth_from_scratch.Routes.Statements.{token_steps}
use agent_oauth_from_scratch.Routes.Statements.Brief.{IsBrief, create_app-IsBrief}
use agent_oauth_from_scratch.Routes.Statements.Accounted.{Comes, token_steps-Comes}
use agent_oauth_from_scratch.Concurrent.{
  Waiting, System, Write, upserts, adds, purges, Event, arrive, turn, drop, write, settle, pick,
  proceed, abandon, do_write, happen, serve, idle,
}
use agent_oauth_from_scratch.Concurrent.Picked.{IsPicked, pick-IsPicked}

do_write-keeps :
    (w : Write) (db : Database) → (do_write w db).issued_credentials ≡ db.issued_credentials
unfolding do_write purge_expired
do_write-keeps (upserts client) db = upsert_client-Keeps client db
do_write-keeps (adds key) db = add_key-Keeps key db
do_write-keeps (purges now) db = refl

module _ (platform : Platform) (signing_key : SigningKey) where
  -- From the rows of `first` to the rows of `last`, the responses account for every row, each in
  -- its turn.
  abbrev pub Accounts : List Response → Database → Database → Type 0
  Accounts [] first last = last.issued_credentials ≡ first.issued_credentials
  Accounts (response ∷ earlier) first last =
      (before after : Database) × Accounts earlier first before
      × IsAccounted platform signing_key before.issued_credentials (response, after)
      × (last.issued_credentials ≡ after.issued_credentials)

  Accounts-keeps :
      (responses : List Response) (first last next : Database)
      → next.issued_credentials ≡ last.issued_credentials
      → Accounts responses first last
      → Accounts responses first next
  Accounts-keeps [] first last next same h = same ∙ h
  Accounts-keeps (response ∷ earlier) first last next same (before, after, h, accounted, kept) =
      (before, after, h, accounted, same ∙ kept)

  -- A handler that waits makes no token without its own row, whatever it meets.
  abbrev IsHonest : Waiting → Type 0
  IsHonest w = (db : Database) → Comes platform signing_key db (w.update db) (w.rest db)

  record IsSound (first : Database) (system : System) : Type 0 where
    accounts : Accounts system.answered first system.database
    honest : All IsHonest system.waiting

  settle-IsSound :
      (first before after : Database) (process : Process Database IssuedToken)
      (waiting : List Waiting) (answered : List Response)
      → Accounts answered first before
      → All IsHonest waiting
      → Comes platform signing_key before after process
      → IsSound first (settle process after waiting answered)
  unfolding settle
  settle-IsSound first before after (finish result) waiting answered accounts honest comes =
      record { accounts = (before, after, accounts, comes, refl); honest = honest }
  settle-IsSound first before after (ask update rest) waiting answered accounts honest comes =
      record {
        accounts = Accounts-keeps answered first before after comes.0 accounts;
        honest = (comes.1, honest);
      }

  proceed-IsSound :
      (first : Database) (found : Option (Waiting × List Waiting)) (system : System)
      → IsSound first system
      → IsPicked IsHonest found
      → IsSound first (proceed found system)
  unfolding proceed
  proceed-IsSound first none system sound h = sound
  proceed-IsSound first (some (w, others)) system sound (honest, h) =
      settle-IsSound first system.database (w.update system.database) (w.rest system.database)
        others system.answered sound.accounts h (honest system.database)

  abandon-IsSound :
      (first : Database) (found : Option (Waiting × List Waiting)) (system : System)
      → IsSound first system
      → IsPicked IsHonest found
      → IsSound first (abandon found system)
  unfolding abandon respond
  abandon-IsSound first none system sound h = sound
  abandon-IsSound first (some (w, others)) system sound (honest, h) =
      settle-IsSound first system.database system.database (finish (raised uncaught)) others
        system.answered sound.accounts h refl

module _ (server : Server) (brief : IsBrief server) where
  happen-IsSound :
      (first : Database) (event : Event) (system : System)
      → IsSound server.platform server.signing_key first system
      → IsSound server.platform server.signing_key first (happen server event system)
  unfolding happen
  happen-IsSound first (arrive draws request) system sound =
      settle-IsSound server.platform server.signing_key first system.database system.database
        (token_steps server draws request) system.waiting system.answered sound.accounts
        sound.honest (token_steps-Comes server brief draws request system.database)
  happen-IsSound first (turn n) system sound =
      proceed-IsSound server.platform server.signing_key first (pick n system.waiting) system sound
        (pick-IsPicked _ n system.waiting sound.honest)
  happen-IsSound first (drop n) system sound =
      abandon-IsSound server.platform server.signing_key first (pick n system.waiting) system sound
        (pick-IsPicked _ n system.waiting sound.honest)
  happen-IsSound first (write w) system sound = record {
    accounts =
        Accounts-keeps server.platform server.signing_key system.answered first system.database
          (do_write w system.database) (do_write-keeps w system.database) sound.accounts;
    honest = sound.honest;
  }

  serve-IsSound :
      (first : Database) (events : List Event) (system : System)
      → IsSound server.platform server.signing_key first system
      → IsSound server.platform server.signing_key first (serve server events system)
  unfolding serve
  serve-IsSound first [] system sound = sound
  serve-IsSound first (event ∷ events) system sound =
      serve-IsSound first events (happen server event system)
        (happen-IsSound first event system sound)

-- However the statements of any number of token requests, the losses of their connections, and
-- the writes of other programs, follow one another, for a server with the default grants and
-- methods: the responses, in the order in which they are made, account for the issued credentials
-- from the first database to the last. A response with a token has added one row, under an
-- identifier that no earlier row had, whose identifier, times and scope are those of the token;
-- nothing else has added or removed a row.
pub serve-Accounts :
    (platform : Platform) (settings : Settings) (signing_key : SigningKey) (server : Server)
    → create_app platform settings signing_key ≡ ok server
    → (events : List Event) (db : Database)
    → let after = serve server events (idle db) in
      Accounts platform signing_key after.answered db after.database
serve-Accounts platform settings signing_key server made events db =
    let d = create_app-IsDefault platform settings signing_key server made in
    let brief = create_app-IsBrief platform settings signing_key server made in
    rw (← d.has_platform, ← d.has_signing_key)
      (serve-IsSound server brief db events (idle db)
        (record { accounts = refl; honest = tt })).accounts
