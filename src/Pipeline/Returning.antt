-- ===== src/Pipeline/Returning.antt =====
-- services/pipeline.py: `issue` on a result that adds no claims.
use agent_oauth_from_scratch.Shared.{
  ℕ, ◌+◌, ◌-◌, ◌*◌, ◌/◌, ap, ◌∙◌, ◌≤◌, ◌≡◌, refl, String, false, none, some, List, [], ◌∷◌, arith,
  ◌==◌,
}
use agent_oauth_from_scratch.Shared.Lists.{any}
use agent_oauth_from_scratch.Shared.Words.{join}
use agent_oauth_from_scratch.Outcome.{ok}
use agent_oauth_from_scratch.Value.{str, instant, Fields, end, get, pos}
use agent_oauth_from_scratch.Value.Access.{text_item_of, instant_item}
use agent_oauth_from_scratch.Value.Times.{second}
use agent_oauth_from_scratch.Config.{Settings}
use agent_oauth_from_scratch.Models.{active, RegisteredClient, SigningKey}
use agent_oauth_from_scratch.Platform.{Platform, Draws}
use agent_oauth_from_scratch.Storage.{Database, IssuanceRecord, record_issuance}
use agent_oauth_from_scratch.Scopes.{attenuate}
use agent_oauth_from_scratch.Tokens.{
  algorithm, token_header, full_claims, MintedToken, mint, earliest,
}
use agent_oauth_from_scratch.Tokens.Returning.{last_time, lasts, mint-returns, full_claims-owned}
use agent_oauth_from_scratch.Grants.Base.{GrantResult, default_result}
use agent_oauth_from_scratch.Pipeline.{
  issued_claims, minter, record_token, check_identity_is_usable, issue,
}
use agent_oauth_from_scratch.Pipeline.Claims.{issued_claims-IsDict}
use agent_oauth_from_scratch.Pipeline.Unclaimed.{issued_claims-unclaimed}

-- The result of the client credentials grant.
abbrev pub root_result : Draws → RegisteredClient → List String → GrantResult
root_result draws client requested =
    record (default_result client.subject client.client_id requested (client.allowed_scopes ∷ [])) {
      principal_status = client.status;
      task_id = some draws.task_id;
      tenant = some client.tenant;
    }

module _ (platform : Platform) (settings : Settings) (signing_key : SigningKey) where
  -- the time at which the token of a result expires, for a lifetime of `n` seconds
  abbrev pub end_of : Draws → GrantResult → ℕ → ℕ
  end_of draws result n = earliest (draws.minted_at + n * second) result.max_expires_at

  abbrev claims_until : Draws → GrantResult → String → ℕ → Fields
  claims_until draws result scope expires_at =
      full_claims settings.issuer draws.minted_at expires_at draws.jti
        (issued_claims settings result scope)

  -- the token text of a result, for a scope and a time
  abbrev pub text_until : Draws → GrantResult → String → ℕ → String
  text_until draws result scope expires_at =
      platform.encode (claims_until draws result scope expires_at) signing_key.private_key algorithm
        (token_header signing_key)

  -- the token text of a root grant
  abbrev pub root_token : Draws → RegisteredClient → List String → String → ℕ → String
  root_token draws client requested scope n =
      text_until draws (root_result draws client requested) scope (draws.minted_at + n * second)

  instant_item_of :
      (d : Fields) (k : String) (t : ℕ) → get d k ≡ instant t → instant_item d k ≡ ok t
  instant_item_of d k t h = ground arith

  record_token-returns :
      (result : GrantResult) (scope : String) (claims : Fields) (minted : MintedToken)
      (jti : String) (issued_at expires_at : ℕ) (db : Database)
      → get minted.claims "jti" ≡ str jti
      → get minted.claims "iat" ≡ instant issued_at
      → get minted.claims "exp" ≡ instant expires_at
      → any (λ (row : IssuanceRecord). row.jti == jti) db.issued_credentials ≡ false
      → (record_token platform settings signing_key result scope claims minted db).0 ≡ ok tt
  unfolding record_token record_issuance
  record_token-returns result scope claims minted jti issued_at expires_at db has_jti has_iat
        has_exp fresh =
      rw
        (
          text_item_of minted.claims "jti" jti has_jti,
          instant_item_of minted.claims "iat" issued_at has_iat,
          instant_item_of minted.claims "exp" expires_at has_exp,
          fresh,
        )
        refl

  issue-of :
      (draws : Draws) (result : GrantResult) (granted : List String) (minted : MintedToken)
      (db : Database)
      → check_identity_is_usable result ≡ ok tt
      → attenuate result.requested_scopes result.ceilings ≡ ok granted
      → mint platform
          (minter platform settings signing_key)
          (issued_claims settings result (join granted))
          none
          result.max_expires_at
          draws.minted_at
          draws.jti
        ≡ ok minted
      → (record_token platform settings signing_key result
          (join granted)
          (issued_claims settings result (join granted))
          minted
          db).0
        ≡ ok tt
      → (issue platform settings signing_key draws result db).0
        ≡ ok (record {
          access_token = minted.token;
          expires_in = minted.expires_in;
          scope = join granted;
          issued_token_type = result.issued_token_type;
        })
  unfolding issue
  issue-of draws result granted minted db usable allowed signed recorded =
      rw (usable, allowed, signed, recorded) refl

  usable_of :
      (result : GrantResult)
      → result.principal_status ≡ active
      → check_identity_is_usable result ≡ ok tt
  unfolding check_identity_is_usable
  usable_of result usable = rw usable refl

  -- The token of a result that counts as active and adds no claims is issued, whole and on record,
  -- if its scopes are attenuated to some, it lasts at least a second and ends in time, and its
  -- identifier is new.
  pub issue-returns :
      (draws : Draws) (result : GrantResult) (granted : List String) (n : ℕ) (db : Database)
      → result.principal_status ≡ active
      → result.extra_claims ≡ end
      → attenuate result.requested_scopes result.ceilings ≡ ok granted
      → settings.access_token_ttl_seconds ≡ pos n
      → draws.minted_at + n * second ≤ last_time
      → draws.minted_at + second ≤ end_of draws result n
      → any (λ (row : IssuanceRecord). row.jti == draws.jti) db.issued_credentials ≡ false
      → (issue platform settings signing_key draws result db).0
        ≡ ok (record {
          access_token = text_until draws result (join granted) (end_of draws result n);
          expires_in = (end_of draws result n - draws.minted_at) / second;
          scope = join granted;
          issued_token_type = result.issued_token_type;
        })
  issue-returns draws result granted n db usable plain allowed ttl fits lasts_some fresh =
      let claims = issued_claims settings result (join granted) in
      let free = issued_claims-unclaimed settings result (join granted) plain in
      let signed =
        mint-returns platform (minter platform settings signing_key) claims result.max_expires_at n
          draws.minted_at draws.jti free ttl fits lasts_some in
      let (has_jti, has_iat, has_exp) =
        full_claims-owned platform settings.issuer draws.minted_at (end_of draws result n) draws.jti
          claims (issued_claims-IsDict settings result (join granted)) free in
      issue-of draws result granted _ db (usable_of result usable) allowed signed (
        record_token-returns result (join granted) claims _ draws.jti draws.minted_at
          (end_of draws result n) db has_jti has_iat has_exp fresh)

  -- The same for the result of a root grant.
  pub root_issue-returns :
      (draws : Draws) (client : RegisteredClient) (requested granted : List String) (n : ℕ)
      (db : Database)
      → client.status ≡ active
      → attenuate requested (client.allowed_scopes ∷ []) ≡ ok granted
      → settings.access_token_ttl_seconds ≡ pos n
      → 1 ≤ n
      → draws.minted_at + n * second ≤ last_time
      → any (λ (row : IssuanceRecord). row.jti == draws.jti) db.issued_credentials ≡ false
      → (issue platform settings signing_key draws (root_result draws client requested) db).0
        ≡ ok (record {
          access_token = root_token draws client requested (join granted) n;
          expires_in = n;
          scope = join granted;
          issued_token_type = none;
        })
  root_issue-returns draws client requested granted n db usable allowed ttl some_time fits fresh =
      issue-returns draws (root_result draws client requested) granted n db usable refl allowed ttl
        fits (omega arith) fresh
      ∙ ap
          (λ (lasts_for : ℕ). ok (record {
            access_token = root_token draws client requested (join granted) n;
            expires_in = lasts_for;
            scope = join granted;
            issued_token_type = none;
          }))
          (lasts platform draws.minted_at n)
