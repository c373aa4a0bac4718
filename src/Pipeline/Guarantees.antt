-- ===== src/Pipeline/Guarantees.antt =====
-- What every issued token satisfies, whichever grant resolved it.
use agent_oauth_from_scratch.Shared.{
  refl, false, none, String, ◌≡◌, ◌≢◌, ap, ◌∙◌, ◌&&◌, some, List, ne→==,
}
use agent_oauth_from_scratch.Shared.Lists.{contains, All, IsUnique}
use agent_oauth_from_scratch.Shared.Words.{join, IsWord}
use agent_oauth_from_scratch.Outcome.{Failure, ok, raised, oauth_error}
use agent_oauth_from_scratch.Exec.Ends.{Ends-ok, Ends-raised}
use agent_oauth_from_scratch.Config.{Settings}
use agent_oauth_from_scratch.Models.{active, SigningKey}
use agent_oauth_from_scratch.Platform.{Platform, Draws}
use agent_oauth_from_scratch.Storage.{Database}
use agent_oauth_from_scratch.Scopes.{within, parse_scope}
use agent_oauth_from_scratch.Scopes.Attenuation.{contains-attenuate, attenuate-keeps}
use agent_oauth_from_scratch.Scopes.Parsing.{parse_scope-join}
use agent_oauth_from_scratch.Grants.Base.{GrantResult}
use agent_oauth_from_scratch.Pipeline.{
  IssuedToken, issue, issued_claims, minter, check_identity_is_usable,
}
use agent_oauth_from_scratch.Pipeline.Claims.{
  AreClaims, issued_claims-IsDict, issued_claims-AreClaims,
}
use agent_oauth_from_scratch.Value.{Fields, get}
use agent_oauth_from_scratch.Delegation.{act_claim, depth_claim, task_claim, tenant_claim}
use agent_oauth_from_scratch.Tokens.{minter_owned_claims}
use agent_oauth_from_scratch.Tokens.Minting.{mint-claims}
use agent_oauth_from_scratch.Pipeline.Issuing.{IsIssued, issue-Ends}

module _ (platform : Platform) (settings : Settings) (signing_key : SigningKey) where
  -- An issuance that succeeds has found the principal active, granted the attenuated scopes,
  -- minted exactly the claims of the result, added one row for that token, under an identifier
  -- that no earlier row had, to the issued credentials, and returned that token.
  pub issue-eq-ok :
      (draws : Draws) (result : GrantResult) (db : Database) (issued : IssuedToken)
      → (issue platform settings signing_key draws result db).0 ≡ ok issued
      → IsIssued platform settings signing_key draws result db
          (issue platform settings signing_key draws result db).1
          issued
  issue-eq-ok draws result db issued h =
      Ends-ok (λ issued after. IsIssued platform settings signing_key draws result db after issued)
        (λ e after. after ≡ db) _ issued (issue-Ends platform settings signing_key draws result db)
        h

  -- A refused or failed issuance leaves every table as it was.
  pub issue_failed :
      (draws : Draws) (result : GrantResult) (db : Database) (e : Failure)
      → (issue platform settings signing_key draws result db).0 ≡ raised e
      → (issue platform settings signing_key draws result db).1 ≡ db
  issue_failed draws result db e h =
      Ends-raised
        (λ issued after. IsIssued platform settings signing_key draws result db after issued)
        (λ e after. after ≡ db) _ e (issue-Ends platform settings signing_key draws result db) h

  -- A principal whose status is not `active` gets no token, whatever it asked for: the answer
  -- is `invalid_client`, status 401, and nothing is written.
  pub issue_unusable :
      (draws : Draws) (result : GrantResult) (db : Database)
      → result.principal_status ≢ active
      → issue platform settings signing_key draws result db
        ≡ (raised (oauth_error "invalid_client" "client authentication failed" 401), db)
  unfolding issue check_identity_is_usable
  issue_unusable draws result db h = rw (ne→== _ _ h)

  -- A token on record carries, under each name that the minter does not own, the claim of its result.
  pub issued-carries :
      (draws : Draws) (result : GrantResult) (db after : Database) (issued : IssuedToken)
      (i : IsIssued platform settings signing_key draws result db after issued) (k : String)
      → contains minter_owned_claims k ≡ false
      → get i.minted.claims k ≡ get (issued_claims settings result (join i.granted)) k
  issued-carries draws result db after issued i =
      (mint-claims platform (minter platform settings signing_key)
        (issued_claims settings result (join i.granted)) none result.max_expires_at draws.minted_at
        draws.jti i.minted (issued_claims-IsDict settings result (join i.granted)) i.signed).3

  -- A token on record, whose result adds no claims, carries the fields of its result.
  pub issued-AreClaims :
      (draws : Draws) (result : GrantResult) (db after : Database) (issued : IssuedToken)
      (i : IsIssued platform settings signing_key draws result db after issued)
      → result.extra_claims ≡ Fields.end
      → AreClaims settings result (join i.granted) i.minted.claims
  issued-AreClaims draws result db after issued i plain =
      let c = issued_claims-AreClaims settings result (join i.granted) plain in
      let carries = issued-carries draws result db after issued i in
      record {
        sub = carries "sub" refl ∙ c.sub;
        aud = carries "aud" refl ∙ c.aud;
        client_id = carries "client_id" refl ∙ c.client_id;
        depth = carries depth_claim refl ∙ c.depth;
        scope = carries "scope" refl ∙ c.scope;
        act = carries act_claim refl ∙ c.act;
        task = carries task_claim refl ∙ c.task;
        tenant = carries tenant_claim refl ∙ c.tenant;
        nbf = carries "nbf" refl ∙ c.nbf;
      }

  -- The scope text of a token on record is read back as the attenuated scopes.
  pub issued-scope :
      (draws : Draws) (result : GrantResult) (db after : Database) (issued : IssuedToken)
      → IsIssued platform settings signing_key draws result db after issued
      → IsUnique result.requested_scopes
      → All IsWord result.requested_scopes
      → (s : String)
      → contains (parse_scope (some issued.scope)) s
        ≡ (contains result.requested_scopes s && within result.ceilings s)
  issued-scope draws result db after issued i unique words s =
      let (u, w) =
        attenuate-keeps result.requested_scopes result.ceilings i.granted i.attenuated unique
          words in
      ap (λ (t : IssuedToken). contains (parse_scope (some t.scope)) s) i.token
      ∙ ap (λ (xs : List String). contains xs s) (parse_scope-join i.granted u w)
      ∙ contains-attenuate result.requested_scopes result.ceilings i.granted i.attenuated s

  -- If the requested scopes are distinct words, the scope text of an issued token is read back
  -- as exactly those requested scopes that lie in every ceiling of the grant.
  pub issue-scope :
      (draws : Draws) (result : GrantResult) (db : Database) (issued : IssuedToken)
      → IsUnique result.requested_scopes
      → All IsWord result.requested_scopes
      → (issue platform settings signing_key draws result db).0 ≡ ok issued
      → (s : String)
      → contains (parse_scope (some issued.scope)) s
        ≡ (contains result.requested_scopes s && within result.ceilings s)
  issue-scope draws result db issued unique words h s =
      issued-scope draws result db _ issued (issue-eq-ok draws result db issued h) unique words s
