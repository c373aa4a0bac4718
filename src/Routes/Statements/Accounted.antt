-- ===== src/Routes/Statements/Accounted.antt =====
-- api/routes.py: the token handler as a coroutine, and the table of issued credentials.
use agent_oauth_from_scratch.Shared.{ℕ, zero, suc, ◌≡◌, refl}
use agent_oauth_from_scratch.Outcome.{Failure, Outcome, ok, raised, oauth}
use agent_oauth_from_scratch.Process.{Process, finish, ask, run, lift, ◌>>=◌}
use agent_oauth_from_scratch.Process.Follows.{Follows}
use agent_oauth_from_scratch.Forms.{Request, read_token_form, grant_type}
use agent_oauth_from_scratch.Grants
use agent_oauth_from_scratch.Grants.Base.{GrantResult}
use agent_oauth_from_scratch.Grants.Installed.{get-All}
use agent_oauth_from_scratch.Models.{SigningKey}
use agent_oauth_from_scratch.Pipeline.{IssuedToken}
use agent_oauth_from_scratch.Pipeline.Statements.{issue_steps, issue-Follows, issue-Refines}
use agent_oauth_from_scratch.Platform.{Platform, Draws}
use agent_oauth_from_scratch.Storage.{Database}
use agent_oauth_from_scratch.Storage.Moves.{Uses, Moves, Uses-keeps}
use agent_oauth_from_scratch.Routes.{Server, respond}
use agent_oauth_from_scratch.Routes.Ledger.{IsAccounted, issue-IsAccounted}
use agent_oauth_from_scratch.Routes.Statements.{token_steps}
use agent_oauth_from_scratch.Routes.Statements.Brief.{IsBrief, IsBriefGrant, caller-Follows}

module _ (platform : Platform) (signing_key : SigningKey) where
  -- Between `before` and `after` the handler made a statement, or none. Its response, if it comes
  -- now, is accounted for, and it makes no token without its own row, whatever its next statements
  -- meet.
  abbrev pub Comes : Database → Database → Process Database IssuedToken → Type 0
  Comes before after (finish result) =
      IsAccounted platform signing_key before.issued_credentials (respond result, after)
  Comes before after (ask update rest) =
      (after.issued_credentials ≡ before.issued_credentials)
      × ((db : Database) → Comes db (update db) (rest db))

  respond-raised :
      (before after : Database) (e : Failure)
      → after.issued_credentials ≡ before.issued_credentials
      → Comes before after (finish (raised e))
  unfolding respond
  respond-raised before after (oauth e) same = same
  respond-raised before after _ same = same

  module _ {A : Type 0} where
    Comes-lift :
        (r : Outcome A) (f : A → Process Database IssuedToken) (before after : Database)
        → after.issued_credentials ≡ before.issued_credentials
        → ((a : A) → r ≡ ok a → Comes before after (f a))
        → Comes before after (lift r >>= f)
    unfolding ◌>>=◌
    Comes-lift (ok a) f before after same goes = goes a refl
    Comes-lift (raised e) f before after same goes = respond-raised before after e same

    Comes->>= :
        (n : ℕ) (process : Process Database A) (f : A → Process Database IssuedToken)
        (before after : Database)
        → Follows Uses n process
        → ((a : A) (before after : Database)
            → after.issued_credentials ≡ before.issued_credentials
            → Comes before after (f a))
        → after.issued_credentials ≡ before.issued_credentials
        → Comes before after (process >>= f)
    unfolding ◌>>=◌
    Comes->>= n (finish (ok a)) f before after h goes same = goes a before after same
    Comes->>= n (finish (raised e)) f before after h goes same = respond-raised before after e same
    Comes->>= zero (ask update rest) f before after h goes same = absurd h
    Comes->>= (suc n) (ask update rest) f before after h goes same = (
      same,
      λ db.
          Comes->>= n (rest db) f db (update db) (h db).1 goes (Uses-keeps db (update db) (h db).0),
    )

  -- a run of the process from a database, as a response to account for
  abbrev IsAccountedRun : Process Database IssuedToken → Type 0
  IsAccountedRun process =
      (db : Database)
      → IsAccounted platform signing_key db.issued_credentials
          (respond (run process db).0, (run process db).1)

  Comes-last :
      (db after : Database) (process : Process Database IssuedToken)
      → Follows Moves 0 process
      → IsAccounted platform signing_key db.issued_credentials
          (respond (run process after).0, (run process after).1)
      → Comes db after process
  unfolding run
  Comes-last db after (finish result) h accounted = accounted
  Comes-last db after (ask update rest) h accounted = absurd h

  -- One statement is as good as no interruption.
  Comes-of_run :
      (process : Process Database IssuedToken) (before after : Database)
      → Follows Moves 1 process
      → IsAccountedRun process
      → after.issued_credentials ≡ before.issued_credentials
      → Comes before after process
  unfolding run
  Comes-of_run (finish result) before after h accounted same = rw (← same) (accounted after)
  Comes-of_run (ask update rest) before after h accounted same =
      (same, λ db. Comes-last db (update db) (rest db) (h db).1 (accounted db))

module _ (server : Server) (brief : IsBrief server) where
  issue-Comes :
      (draws : Draws) (result : GrantResult) (before after : Database)
      → after.issued_credentials ≡ before.issued_credentials
      → Comes server.platform server.signing_key before after
          (issue_steps server.platform server.settings server.signing_key draws result)
  issue-Comes draws result before after same =
      Comes-of_run server.platform server.signing_key _ before after
        (issue-Follows server.platform server.settings server.signing_key draws result)
        (λ db.
          rw (issue-Refines server.platform server.settings server.signing_key draws result db)
            (issue-IsAccounted server draws result db))
        same

  pub token_steps-Comes :
      (draws : Draws) (request : Request) (db : Database)
      → Comes server.platform server.signing_key db db (token_steps server draws request)
  unfolding token_steps
  token_steps-Comes draws request db =
      let p = server.platform in
      let k = server.signing_key in
      Comes-lift p k (read_token_form server.platform request) _ db db refl λ form read.
        Comes-lift p k (grant_type form) _ db db refl λ name given.
          Comes-lift p k (Grants.get server.grants name) _ db db refl λ grant found.
            Comes->>= p k 3 _ _ db db
              (caller-Follows server brief draws form grant.requires_client_auth)
              (λ client before after same.
                Comes->>= p k 1 _ _ before after
                  ((get-All IsBriefGrant server.grants name grant brief.grants found).1 draws form
                    client)
                  (λ result before after same. issue-Comes draws result before after same) same)
              refl
