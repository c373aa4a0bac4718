-- ===== src/Pipeline/Issuing.antt =====
-- What `issue` does, when it succeeds and when it does not.
use agent_oauth_from_scratch.Shared.{
  ℕ, String, ◌≡◌, refl, false, none, List, ◌∷◌, arith, eq_iff, ◌==◌, Bool-cases, inl, inr,
}
use agent_oauth_from_scratch.Shared.Lists.{any}
use agent_oauth_from_scratch.Shared.Words.{join}
use agent_oauth_from_scratch.Outcome.{Failure, ok, guard-eq-ok}
use agent_oauth_from_scratch.Exec.Ends.{Ends, Ends-continue, Ends-bind, Ends-mono}
use agent_oauth_from_scratch.Value.{str, instant, Fields, get}
use agent_oauth_from_scratch.Value.Access.{text_item, instant_item, text_of}
use agent_oauth_from_scratch.Config.{Settings}
use agent_oauth_from_scratch.Models.{active, SigningKey}
use agent_oauth_from_scratch.Platform.{Platform, Draws}
use agent_oauth_from_scratch.Storage.{Database, IssuanceRecord, record_issuance}
use agent_oauth_from_scratch.Scopes.{attenuate}
use agent_oauth_from_scratch.Tokens.{MintedToken, mint}
use agent_oauth_from_scratch.Grants.Base.{GrantResult}
use agent_oauth_from_scratch.Pipeline.{
  IssuedToken, or_else, issued_claims, minter, record_token, check_identity_is_usable, issue,
}

module _ (platform : Platform) (settings : Settings) (signing_key : SigningKey) where
  -- The record of a token of this result.
  abbrev pub issuance : GrantResult → String → Fields → ℕ → ℕ → String → IssuanceRecord
  issuance result scope claims issued_at expires_at jti = record {
    jti = jti;
    client_id = result.client_id;
    subject = result.subject;
    audience = text_of platform.str_of (get claims "aud");
    scope = scope;
    issued_at = issued_at;
    expires_at = expires_at;
    root_subject = or_else result.act_root result.subject;
    task_id = result.task_id;
    delegation_depth = result.delegation_depth;
  }

  -- `row` is new to `db`, and `after` is `db` with it.
  pub record IsRecorded (row : IssuanceRecord) (db after : Database) : Type 0 where
    pub fresh : any (λ (old : IssuanceRecord). old.jti == row.jti) db.issued_credentials ≡ false
    pub added : after ≡ record db { issued_credentials = row ∷ db.issued_credentials }

  record_issuance-Ends :
      (row : IssuanceRecord) (db : Database)
      → Ends (λ u after. IsRecorded row db after) (λ e after. after ≡ db) (record_issuance row db)
  unfolding record_issuance
  record_issuance-Ends row db =
      elim (Bool-cases (any (λ (old : IssuanceRecord). old.jti == row.jti) db.issued_credentials)) [
        | inl old ↦ rw old
        | inr new ↦ rw new (record { fresh = new; added = refl })
      ]

  pub record IsIssued (draws : Draws) (result : GrantResult) (db after : Database)
      (issued : IssuedToken) : Type 0 where
    pub granted : List String
    pub minted : MintedToken
    pub issued_at : ℕ
    pub expires_at : ℕ
    pub jti : String
    pub usable : result.principal_status ≡ active
    pub attenuated : attenuate result.requested_scopes result.ceilings ≡ ok granted
    pub signed :
        mint platform
          (minter platform settings signing_key)
          (issued_claims settings result (join granted))
          none
          result.max_expires_at
          draws.minted_at
          draws.jti
        ≡ ok minted
    pub jti_claim : get minted.claims "jti" ≡ str jti
    pub iat_claim : get minted.claims "iat" ≡ instant issued_at
    pub exp_claim : get minted.claims "exp" ≡ instant expires_at
    pub recorded :
        IsRecorded
          (issuance result
            (join granted)
            (issued_claims settings result (join granted))
            issued_at
            expires_at
            jti)
          db
          after
    pub token : issued ≡ record {
      access_token = minted.token;
      expires_in = minted.expires_in;
      scope = join granted;
      issued_token_type = result.issued_token_type;
    }

  text_item-eq-ok : (d : Fields) (k s : String) → text_item d k ≡ ok s → get d k ≡ str s
  text_item-eq-ok d k s h = ground arith

  instant_item-eq-ok :
      (d : Fields) (k : String) (t : ℕ) → instant_item d k ≡ ok t → get d k ≡ instant t
  instant_item-eq-ok d k t h = ground arith

  abbrev Unchanged : Database → Failure → Database → Type 0
  Unchanged db e after = after ≡ db

  -- The claims of a minted token, as `record_token` reads them, and the row that it writes.
  record IsTokenRecorded (result : GrantResult) (scope : String) (claims : Fields)
      (minted : MintedToken) (db after : Database) : Type 0 where
    issued_at : ℕ
    expires_at : ℕ
    jti : String
    jti_claim : get minted.claims "jti" ≡ str jti
    iat_claim : get minted.claims "iat" ≡ instant issued_at
    exp_claim : get minted.claims "exp" ≡ instant expires_at
    recorded : IsRecorded (issuance result scope claims issued_at expires_at jti) db after

  record_token-Ends :
      (result : GrantResult) (scope : String) (claims : Fields) (minted : MintedToken)
      (db : Database)
      → Ends
          (λ u after. IsTokenRecorded result scope claims minted db after)
          (Unchanged db)
          (record_token platform settings signing_key result scope claims minted db)
  unfolding record_token
  record_token-Ends result scope claims minted db =
      let Q : Unit {0} → Database → Type 0 =
        λ u after. IsTokenRecorded result scope claims minted db after in
      Ends-continue Q (Unchanged db) (text_item minted.claims "jti") _ db (λ e x. refl)
        λ jti has_jti.
          Ends-continue Q (Unchanged db) (instant_item minted.claims "iat") _ db (λ e x. refl)
            λ issued_at has_iat.
              Ends-continue Q (Unchanged db) (instant_item minted.claims "exp") _ db (λ e x. refl)
                λ expires_at has_exp.
                  let row = issuance result scope claims issued_at expires_at jti in
                  Ends-mono (λ u after. IsRecorded row db after) Q (Unchanged db)
                    (record_issuance row db) (record_issuance-Ends row db)
                    λ u after recorded. record {
                      issued_at = issued_at;
                      expires_at = expires_at;
                      jti = jti;
                      jti_claim = text_item-eq-ok _ _ _ has_jti;
                      iat_claim = instant_item-eq-ok _ _ _ has_iat;
                      exp_claim = instant_item-eq-ok _ _ _ has_exp;
                      recorded = recorded;
                    }

  -- How `issue` ends: with a token on record, or with the database as it was.
  pub issue-Ends :
      (draws : Draws) (result : GrantResult) (db : Database)
      → Ends
          (λ issued after. IsIssued draws result db after issued)
          (Unchanged db)
          (issue platform settings signing_key draws result db)
  unfolding issue check_identity_is_usable
  issue-Ends draws result db =
      let Q : IssuedToken → Database → Type 0 =
        λ issued after. IsIssued draws result db after issued in
      let E = Unchanged db in
      Ends-continue Q E (check_identity_is_usable result) _ db (λ e x. refl)
        λ u usable.
          Ends-continue Q E (attenuate result.requested_scopes result.ceilings) _ db (λ e x. refl)
            λ granted attenuated.
              let claims = issued_claims settings result (join granted) in
              Ends-continue Q E
                (mint platform (minter platform settings signing_key) claims none
                  result.max_expires_at draws.minted_at draws.jti)
                _ db (λ e x. refl)
                λ minted signed.
                  Ends-bind Q E
                    (λ u after. IsTokenRecorded result (join granted) claims minted db after)
                    (record_token platform settings signing_key result (join granted) claims minted
                      db)
                    _ (record_token-Ends result (join granted) claims minted db)
                    λ v after t. record {
                      granted = granted;
                      minted = minted;
                      issued_at = t.issued_at;
                      expires_at = t.expires_at;
                      jti = t.jti;
                      usable = (eq_iff _ _).0 (guard-eq-ok _ _ usable);
                      attenuated = attenuated;
                      signed = signed;
                      jti_claim = t.jti_claim;
                      iat_claim = t.iat_claim;
                      exp_claim = t.exp_claim;
                      recorded = t.recorded;
                      token = refl;
                    }
