-- ===== src/Concurrent/Alone.antt =====
-- A server with one request under way, against the handler as one action.
use agent_oauth_from_scratch.Shared.{ℕ, zero, suc, ◌≡◌, refl, ap, ◌∙◌, [], ◌∷◌}
use agent_oauth_from_scratch.Outcome.{Outcome, ok}
use agent_oauth_from_scratch.Process.{Process, finish, ask, run}
use agent_oauth_from_scratch.Process.Follows.{Follows}
use agent_oauth_from_scratch.Config.{Settings}
use agent_oauth_from_scratch.Forms.{Request}
use agent_oauth_from_scratch.Models.{SigningKey}
use agent_oauth_from_scratch.Pipeline.{IssuedToken}
use agent_oauth_from_scratch.Platform.{Platform, Draws}
use agent_oauth_from_scratch.Storage.{Database}
use agent_oauth_from_scratch.Storage.Moves.{Moves}
use agent_oauth_from_scratch.Routes.{Server, Response, respond, create_app, get_oauth_token}
use agent_oauth_from_scratch.Routes.Statements.{token_steps, token_steps-Refines}
use agent_oauth_from_scratch.Routes.Statements.Brief.{create_app-IsBrief, token_steps-Follows}
use agent_oauth_from_scratch.Concurrent.{System, arrive, settle, pick, proceed, happen, serve, idle}
use agent_oauth_from_scratch.Concurrent.Answered.{turns}

-- One response has been made, and no request is under way.
abbrev served : Response × Database → System
served (response, db) = record { database = db; waiting = []; answered = response ∷ [] }

turns-served :
    (server : Server) (n : ℕ) (r : Response × Database)
    → serve server (turns n) (served r) ≡ served r
unfolding turns serve happen pick proceed
turns-served server zero r = refl
turns-served server (suc n) r = turns-served server n r

turns-settle :
    (server : Server) (n : ℕ) (process : Process Database IssuedToken) (db : Database)
    → Follows Moves n process
    → serve server (turns n) (settle process db [] [])
      ≡ served (respond (run process db).0, (run process db).1)
unfolding turns serve happen pick proceed settle run
turns-settle server n (finish result) db h = turns-served server n (respond result, db)
turns-settle server zero (ask update rest) db h = absurd h
turns-settle server (suc n) (ask update rest) db h =
    turns-settle server n (rest db) (update db) (h db).1

-- A request that comes to an idle server with the default grants and methods, and that no other
-- request and no other program interrupts, is answered after five turns: with the response, and
-- with the database, of the handler as one action.
serve-alone :
    (platform : Platform) (settings : Settings) (signing_key : SigningKey) (server : Server)
    → create_app platform settings signing_key ≡ ok server
    → (draws : Draws) (request : Request) (db : Database)
    → serve server (arrive draws request ∷ turns 5) (idle db)
      ≡ served (get_oauth_token server draws request db)
unfolding serve happen get_oauth_token
serve-alone platform settings signing_key server made draws request db =
    turns-settle server 5 (token_steps server draws request) db (
      token_steps-Follows server (create_app-IsBrief platform settings signing_key server made)
        draws request)
    ∙ ap (λ (r : Outcome IssuedToken × Database). served (respond r.0, r.1))
        (token_steps-Refines server draws request db)
