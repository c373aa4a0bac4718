-- ===== src/Routes/Ledger.antt =====
-- The token endpoint and the table of issued credentials: no token without its row, and no row
-- without its token.
use agent_oauth_from_scratch.Shared.{◌≡◌, refl, sym, ap, ◌∙◌, false, List, ◌∷◌, ◌==◌}
use agent_oauth_from_scratch.Shared.Lists.{All, any}
use agent_oauth_from_scratch.Shared.Words.{join}
use agent_oauth_from_scratch.Outcome.{Failure, Outcome, ok, raised, oauth}
use agent_oauth_from_scratch.Exec.Ends.{Ends, Ends-bind, Ends-continue}
use agent_oauth_from_scratch.Value.{str, instant, Fields, get}
use agent_oauth_from_scratch.Auth.Clients.Proof.{IsKeepingMethod}
use agent_oauth_from_scratch.Config.{Settings}
use agent_oauth_from_scratch.Forms.{Request, read_token_form, grant_type}
use agent_oauth_from_scratch.Grants
use agent_oauth_from_scratch.Grants.{GrantRegistry}
use agent_oauth_from_scratch.Grants.Base.{GrantResult}
use agent_oauth_from_scratch.Grants.Installed.{get-All}
use agent_oauth_from_scratch.Grants.Exchange.Steps.{IsTokenOf, encoded}
use agent_oauth_from_scratch.Models.{SigningKey}
use agent_oauth_from_scratch.Pipeline.{IssuedToken, issue, issued_claims}
use agent_oauth_from_scratch.Pipeline.Issuing.{issuance, IsIssued, issue-Ends}
use agent_oauth_from_scratch.Platform.{Platform, Draws}
use agent_oauth_from_scratch.Storage.{Database, IssuanceRecord}
use agent_oauth_from_scratch.Storage.Keeping.{Ends-Keeps}
use agent_oauth_from_scratch.Routes.Keeping.{IsKeepingGrant, create_app-IsDefault, caller-Keeps}
use agent_oauth_from_scratch.Routes.{
  Server, Response, success, failure, server_error, token_response, or_none, respond, create_app,
  caller, grant_token, get_oauth_token,
}

abbrev Kept : List IssuanceRecord → Failure → Database → Type 0
Kept rows e after = after.issued_credentials ≡ rows

-- `rows` are the credentials that were issued before this token.
record IsGranted (server : Server) (draws : Draws) (rows : List IssuanceRecord)
    (issued : IssuedToken) (after : Database) : Type 0 where
  result : GrantResult
  before : Database
  same : before.issued_credentials ≡ rows
  made :
      IsIssued server.platform server.settings server.signing_key draws result before after issued

IsGranted-of_issue :
    (server : Server) (draws : Draws) (rows : List IssuanceRecord) (result : GrantResult)
    (before : Database) (r : Outcome IssuedToken × Database)
    → before.issued_credentials ≡ rows
    → Ends
        (λ issued after.
          IsIssued server.platform server.settings server.signing_key draws result before after
            issued)
        (λ e after. after ≡ before)
        r
    → Ends (λ issued after. IsGranted server draws rows issued after) (Kept rows) r
IsGranted-of_issue server draws rows result before (ok issued, after) same made = record {
  result = result;
  before = before;
  same = same;
  made = made;
}
IsGranted-of_issue server draws rows result before (raised e, after) same unchanged =
    ap (λ (d : Database). d.issued_credentials) unchanged ∙ same

-- What a response and the database behind it owe to the issued credentials before it: a token comes
-- with one new row, which is its own; any other response leaves the rows as they are.
abbrev pub IsAccounted : Platform → SigningKey → List IssuanceRecord → Response × Database → Type 0
IsAccounted platform signing_key rows (success body, after) =
    (row : IssuanceRecord) × (claims : Fields) × (any (λ (old : IssuanceRecord). old.jti == row.jti)
        rows
      ≡ false)
    × (after.issued_credentials ≡ row ∷ rows)
    × IsTokenOf platform signing_key body.access_token claims
    × (get claims "jti" ≡ str row.jti)
    × (get claims "iat" ≡ instant row.issued_at)
    × (get claims "exp" ≡ instant row.expires_at)
    × (body.scope ≡ or_none row.scope)
IsAccounted platform signing_key rows (failure status error description challenge, after) =
    after.issued_credentials ≡ rows
IsAccounted platform signing_key rows (server_error, after) = after.issued_credentials ≡ rows

module _ (server : Server) (grants : All IsKeepingGrant server.grants.grants)
    (methods : All IsKeepingMethod server.auth_methods.methods) where
  issue-IsGranted :
      (draws : Draws) (rows : List IssuanceRecord) (result : GrantResult) (before : Database)
      → before.issued_credentials ≡ rows
      → Ends
          (IsGranted server draws rows)
          (Kept rows)
          (issue server.platform server.settings server.signing_key draws result before)
  issue-IsGranted draws rows result before same =
      IsGranted-of_issue server draws rows result before
        (issue server.platform server.settings server.signing_key draws result before) same
        (issue-Ends server.platform server.settings server.signing_key draws result before)

  grant_token-Ends :
      (draws : Draws) (request : Request) (db : Database)
      → Ends
          (IsGranted server draws db.issued_credentials)
          (Kept db.issued_credentials)
          (grant_token server draws request db)
  unfolding grant_token
  grant_token-Ends draws request db =
      let rows = db.issued_credentials in
      let Q : IssuedToken → Database → Type 0 = IsGranted server draws rows in
      let E = Kept rows in
      Ends-continue Q E (read_token_form server.platform request) _ db (λ e x. refl)
        λ form read.
          Ends-continue Q E (grant_type form) _ db (λ e x. refl)
            λ name given.
              Ends-continue Q E (Grants.get server.grants name) _ db (λ e x. refl)
                λ grant found.
                  Ends-bind Q E (λ client s. s.issued_credentials ≡ rows)
                    (caller server draws form grant.requires_client_auth db) _
                    (Ends-Keeps rows _
                      (caller-Keeps server methods draws form grant.requires_client_auth db))
                    λ client s kept.
                      Ends-bind Q E (λ result s. s.issued_credentials ≡ rows)
                        (grant.resolve draws form client s) _
                        (Ends-Keeps rows _ (
                          (get-All IsKeepingGrant server.grants name grant grants found).1 draws
                            form client s
                          ∙ kept))
                        λ result before same. issue-IsGranted draws rows result before same

granted-IsAccounted :
    (server : Server) (draws : Draws) (rows : List IssuanceRecord) (issued : IssuedToken)
    (after : Database)
    → IsGranted server draws rows issued after
    → IsAccounted server.platform server.signing_key rows (success (token_response issued), after)
unfolding token_response
granted-IsAccounted server draws rows issued after g =
    let i = g.made in
    let row =
      issuance server.platform server.settings server.signing_key g.result (join i.granted)
        (issued_claims server.settings g.result (join i.granted)) i.issued_at i.expires_at i.jti in
    (
      row,
      i.minted.claims,
      ap (any (λ (old : IssuanceRecord). old.jti == row.jti)) (sym g.same) ∙ i.recorded.fresh,
      ap (λ (d : Database). d.issued_credentials) i.recorded.added ∙ ap (λ old. row ∷ old) g.same,
      encoded server.platform server.settings server.signing_key draws g.result g.before after
          issued i,
      i.jti_claim,
      i.iat_claim,
      i.exp_claim,
      ap (λ (t : IssuedToken). or_none t.scope) i.token,
    )

respond-IsAccounted :
    (server : Server) (draws : Draws) (rows : List IssuanceRecord)
    (r : Outcome IssuedToken × Database)
    → Ends (IsGranted server draws rows) (Kept rows) r
    → IsAccounted server.platform server.signing_key rows (respond r.0, r.1)
unfolding respond
respond-IsAccounted server draws rows (ok issued, after) g =
    granted-IsAccounted server draws rows issued after g
respond-IsAccounted server draws rows (raised (oauth e), after) kept = kept
respond-IsAccounted server draws rows (raised _, after) kept = kept

-- what `issue` does to the table, whichever statements come before it
pub issue-IsAccounted :
    (server : Server) (draws : Draws) (result : GrantResult) (db : Database)
    → IsAccounted server.platform server.signing_key db.issued_credentials (
      respond (issue server.platform server.settings server.signing_key draws result db).0,
      (issue server.platform server.settings server.signing_key draws result db).1,
    )
issue-IsAccounted server draws result db =
    respond-IsAccounted server draws db.issued_credentials
      (issue server.platform server.settings server.signing_key draws result db)
      (IsGranted-of_issue server draws db.issued_credentials result db
        (issue server.platform server.settings server.signing_key draws result db) refl
        (issue-Ends server.platform server.settings server.signing_key draws result db))

-- Whatever is sent to the token endpoint of a server made with the default grants and methods: a
-- response with a token has added exactly one row to the issued credentials, under an identifier
-- that no earlier row had, and the token is the signed encoding of claims with that row's
-- identifier and times, with that row's scope in the body; every other response has left the
-- issued credentials as they were.
pub get_oauth_token-IsAccounted :
    (platform : Platform) (settings : Settings) (signing_key : SigningKey) (server : Server)
    → create_app platform settings signing_key ≡ ok server
    → (draws : Draws) (request : Request) (db : Database)
    → IsAccounted platform signing_key db.issued_credentials
        (get_oauth_token server draws request db)
unfolding get_oauth_token
get_oauth_token-IsAccounted platform settings signing_key server made draws request db =
    let d = create_app-IsDefault platform settings signing_key server made in
    rw (← d.has_platform, ← d.has_signing_key)
      (respond-IsAccounted server draws db.issued_credentials (grant_token server draws request db)
        (grant_token-Ends server d.grants d.methods draws request db))
