-- ===== src/Pipeline/Statements.antt =====
-- services/pipeline.py, `issue`, statement by statement.
use agent_oauth_from_scratch.Shared.{String, none}
use agent_oauth_from_scratch.Shared.Words.{join}
use agent_oauth_from_scratch.Process.{Process, pure, lift, statement, ◌>>=◌, ◌>>◌}
use agent_oauth_from_scratch.Process.Alone.{Refines, lift-Refines, statement-Refines, >>=-Refines}
use agent_oauth_from_scratch.Process.Follows.{Follows, lift-Follows, >>=-Follows}
use agent_oauth_from_scratch.Value.{Fields, get}
use agent_oauth_from_scratch.Value.Access.{text_item, instant_item, text_of}
use agent_oauth_from_scratch.Config.{Settings}
use agent_oauth_from_scratch.Models.{SigningKey}
use agent_oauth_from_scratch.Platform.{Platform, Draws}
use agent_oauth_from_scratch.Storage.{Database, record_issuance}
use agent_oauth_from_scratch.Storage.Moves.{Moves, recorded}
use agent_oauth_from_scratch.Scopes.{attenuate}
use agent_oauth_from_scratch.Tokens.{MintedToken, mint}
use agent_oauth_from_scratch.Grants.Base.{GrantResult}
use agent_oauth_from_scratch.Pipeline.{
  IssuedToken, or_else, resolve_identity, check_identity_is_usable, resolve_policy, issued_claims,
  minter, record_token, issue,
}

module _ (platform : Platform) (settings : Settings) (signing_key : SigningKey) where
  unfoldable pub record_token_steps :
      GrantResult → String → Fields → MintedToken → Process Database (Unit {0})
  record_token_steps result scope claims minted = do
    jti ← lift (text_item minted.claims "jti")
    issued_at ← lift (instant_item minted.claims "iat")
    expires_at ← lift (instant_item minted.claims "exp")
    statement (
        record_issuance (record {
          jti = jti;
          client_id = result.client_id;
          subject = resolve_identity result;
          audience = text_of platform.str_of (get claims "aud");
          scope = scope;
          issued_at = issued_at;
          expires_at = expires_at;
          root_subject = or_else result.act_root (resolve_identity result);
          task_id = result.task_id;
          delegation_depth = result.delegation_depth;
        }))

  unfoldable pub issue_steps : Draws → GrantResult → Process Database IssuedToken
  unfolding record_token_steps
  issue_steps draws result = do
    lift (check_identity_is_usable result)
    granted_scopes ← lift (attenuate result.requested_scopes (resolve_policy result))
    let scope = join granted_scopes
    let claims = issued_claims settings result scope
    minted ← lift (
        mint platform (minter platform settings signing_key) claims none result.max_expires_at
          draws.minted_at draws.jti)
    record_token_steps result scope claims minted
    pure (record {
      access_token = minted.token;
      expires_in = minted.expires_in;
      scope = scope;
      issued_token_type = result.issued_token_type;
    })

  record_token-Refines :
      (result : GrantResult) (scope : String) (claims : Fields) (minted : MintedToken)
      → Refines
          (record_token_steps result scope claims minted)
          (record_token platform settings signing_key result scope claims minted)
  unfolding record_token_steps record_token
  record_token-Refines result scope claims minted =
      >>=-Refines _ _ _ _ (lift-Refines (text_item minted.claims "jti")) λ jti.
        >>=-Refines _ _ _ _ (lift-Refines (instant_item minted.claims "iat")) λ issued_at.
          >>=-Refines _ _ _ _ (lift-Refines (instant_item minted.claims "exp"))
            λ expires_at. statement-Refines _

  pub issue-Refines :
      (draws : Draws) (result : GrantResult)
      → Refines (issue_steps draws result) (issue platform settings signing_key draws result)
  unfolding issue_steps issue
  issue-Refines draws result =
      >>=-Refines _ _ _ _ (lift-Refines (check_identity_is_usable result)) λ usable.
        >>=-Refines _ _ _ _ (lift-Refines _) λ granted_scopes.
          >>=-Refines _ _ _ _ (lift-Refines _) λ minted.
            >>=-Refines _ _ _ _
              (record_token-Refines result (join granted_scopes)
                (issued_claims settings result (join granted_scopes)) minted)
              λ recorded. lift-Refines _

  record_token-Follows :
      (result : GrantResult) (scope : String) (claims : Fields) (minted : MintedToken)
      → Follows Moves 1 (record_token_steps result scope claims minted)
  unfolding record_token_steps
  record_token-Follows result scope claims minted =
      lift-Follows Moves 1 (text_item minted.claims "jti") _ λ jti.
        lift-Follows Moves 1 (instant_item minted.claims "iat") _ λ issued_at.
          lift-Follows Moves 1 (instant_item minted.claims "exp") _
            λ expires_at. λ db. (recorded _, tt)

  pub issue-Follows :
      (draws : Draws) (result : GrantResult) → Follows Moves 1 (issue_steps draws result)
  unfolding issue_steps
  issue-Follows draws result = lift-Follows Moves 1 (check_identity_is_usable result) _ λ usable.
      lift-Follows Moves 1 _ _ λ granted_scopes. lift-Follows Moves 1 _ _ λ minted.
        >>=-Follows Moves 1 0 _ _
          (record_token-Follows result (join granted_scopes)
            (issued_claims settings result (join granted_scopes)) minted)
          λ recorded. tt
