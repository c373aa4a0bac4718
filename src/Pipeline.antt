-- ===== src/Pipeline.antt =====
-- services/pipeline.py: the one path from a grant's result to a recorded token.
pub mod Claims
pub mod Unclaimed
pub mod Issuing
pub mod Guarantees
pub mod Verifying
pub mod Returning
pub mod Decided
pub mod Statements
use agent_oauth_from_scratch.Shared.{
  ℕ, String, Bool, true, false, Option, none, some, List, [], ◌∷◌, ◌==◌, if◌then◌else◌,
}
use agent_oauth_from_scratch.Shared.Words.{join}
use agent_oauth_from_scratch.Outcome.{Outcome, ok, guard, oauth_error}
use agent_oauth_from_scratch.Exec.{Exec, pure, lift, ◌>>=◌, ◌>>◌}
use agent_oauth_from_scratch.Value.{Value, int, str, obj, Fields, end, field, get, put, update, pos}
use agent_oauth_from_scratch.Value.Access.{text_item, instant_item, text_of}
use agent_oauth_from_scratch.Config.{Settings}
use agent_oauth_from_scratch.Models.{active, SigningKey}
use agent_oauth_from_scratch.Platform.{Platform, Draws}
use agent_oauth_from_scratch.Storage.{Database, IssuanceRecord, record_issuance}
use agent_oauth_from_scratch.Scopes.{attenuate}
use agent_oauth_from_scratch.Tokens.{MintedToken, TokenMinter, mint}
use agent_oauth_from_scratch.Delegation.{act_claim, depth_claim, task_claim, tenant_claim}
use agent_oauth_from_scratch.Grants.Base.{GrantResult}

pub record IssuedToken : Type 0 where
  pub access_token : String
  pub expires_in : ℕ
  pub scope : String
  pub issued_token_type : Option String

-- `value or default`
abbrev pub or_else : Option String → String → String
or_else none default = default
or_else (some value) default = if value == "" then default else value

-- `if value is not None: claims[name] = value`
abbrev pub put_text : Fields → String → Option String → Fields
put_text claims name none = claims
put_text claims name (some value) = put claims name (str value)

abbrev pub put_dict : Fields → String → Option Fields → Fields
put_dict claims name none = claims
put_dict claims name (some value) = put claims name (obj value)

-- `if scope: claims["scope"] = scope`
abbrev pub put_scope : Fields → String → Fields
put_scope claims scope = if scope == "" then claims else put claims "scope" (str scope)

-- `_resolve_identity`
abbrev pub resolve_identity : GrantResult → String
resolve_identity result = result.subject

-- `_check_identity_is_usable`
unfoldable pub check_identity_is_usable : GrantResult → Outcome (Unit {0})
check_identity_is_usable result =
    guard (result.principal_status == active)
      (oauth_error "invalid_client" "client authentication failed" 401)

-- `_resolve_policy`
abbrev pub resolve_policy : GrantResult → List (List String)
resolve_policy result = result.ceilings

module _ (settings : Settings) where
  -- the claims that `issue` hands to the minter
  unfoldable pub issued_claims : GrantResult → String → Fields
  issued_claims result scope =
      let base = field "sub" (str (resolve_identity result)) (
        field "aud" (str (or_else result.audience settings.resource_audience)) (
          field "client_id" (str result.client_id)
            (field depth_claim (int (pos result.delegation_depth)) end))) in
      let scoped = put_scope base scope in
      let acting = put_dict scoped act_claim result.act in
      let tasked = put_text acting task_claim result.task_id in
      let tenanted = put_text tasked tenant_claim result.tenant in
      update tenanted result.extra_claims

module _ (platform : Platform) (settings : Settings) (signing_key : SigningKey) where
  -- the minter that the constructor makes
  abbrev pub minter : TokenMinter
  minter = record {
    issuer = settings.issuer;
    signing_key = signing_key;
    default_ttl_seconds = settings.access_token_ttl_seconds;
  }

  -- the row that is written down before the token is returned
  unfoldable pub record_token :
      GrantResult → String → Fields → MintedToken → Exec Database (Unit {0})
  record_token result scope claims minted = do
    jti ← lift (text_item minted.claims "jti")
    issued_at ← lift (instant_item minted.claims "iat")
    expires_at ← lift (instant_item minted.claims "exp")
    record_issuance (record {
      jti = jti;
      client_id = result.client_id;
      subject = resolve_identity result;
      audience = text_of platform.str_of (get claims "aud");
      scope = scope;
      issued_at = issued_at;
      expires_at = expires_at;
      root_subject = or_else result.act_root (resolve_identity result);
      task_id = result.task_id;
      delegation_depth = result.delegation_depth;
    })

  -- `issue`
  unfoldable pub issue : Draws → GrantResult → Exec Database IssuedToken
  issue draws result = do
    lift (check_identity_is_usable result)
    granted_scopes ← lift (attenuate result.requested_scopes (resolve_policy result))
    let scope = join granted_scopes
    let claims = issued_claims settings result scope
    minted ← lift (mint platform minter claims none result.max_expires_at draws.minted_at draws.jti)
    record_token result scope claims minted
    pure (record {
      access_token = minted.token;
      expires_in = minted.expires_in;
      scope = scope;
      issued_token_type = result.issued_token_type;
    })
