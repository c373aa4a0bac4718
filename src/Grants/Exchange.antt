-- ===== src/Grants/Exchange.antt =====
-- grants/token_exchange.py, what touches no table: the parameters, the verification of the two
-- tokens, and the result from their claims and the actor's registration.
pub mod Refusals
pub mod Derived
pub mod Derivable
pub mod Asked
pub mod Allowed
pub mod Shrink
pub mod Steps
pub mod Rules
use agent_oauth_from_scratch.Shared.{
  ℕ, ◌+◌, String, Bool, true, false, Option, none, some, List, [], ◌∷◌, not, ◌==◌, ◌<>◌, ltb,
  if◌then◌else◌,
}
use agent_oauth_from_scratch.Shared.Lists.{contains, is_empty}
use agent_oauth_from_scratch.Shared.Sorting.{sorted}
use agent_oauth_from_scratch.Outcome.{
  Outcome, ok, raised, oauth, token, key_store, value, uncaught, refuse, guard, oauth_error, ◌>>=◌,
  ◌>>◌,
}
use agent_oauth_from_scratch.Value.{
  Value, null, bool, int, float, str, arr, obj, instant, Fields, get, item, ℤ, pos, negsuc,
}
use agent_oauth_from_scratch.Value.Access.{item_or_key_error, text_item}
use agent_oauth_from_scratch.Value.Times.{from_timestamp}
use agent_oauth_from_scratch.Forms
use agent_oauth_from_scratch.Forms.{TokenForm, require}
use agent_oauth_from_scratch.Models.{RegisteredClient}
use agent_oauth_from_scratch.Platform.{Platform}
use agent_oauth_from_scratch.Scopes.{parse_scope}
use agent_oauth_from_scratch.Tokens.{TokenVerifier, verify_any_audience}
use agent_oauth_from_scratch.Delegation.{
  chain, last_of, declared_depth, may_act_permits, nest, task_of, tenant_of,
}
use agent_oauth_from_scratch.Grants.Base.{GrantResult, default_result}

abbrev pub exchange_grant_type : String
exchange_grant_type = "urn:ietf:params:oauth:grant-type:token-exchange"

abbrev pub access_token_urn : String
access_token_urn = "urn:ietf:params:oauth:token-type:access_token"

abbrev pub supported_token_types : List String
supported_token_types = access_token_urn ∷ []

-- `_required_audience`
unfoldable pub required_audience : TokenForm → RegisteredClient → Outcome String
required_audience form client = do
  audience ← require form "audience"
  guard (contains client.allowed_audiences audience)
      (oauth_error "invalid_target" "audience is not permitted" 400)
  ok audience

-- one round of the loop of `_check_token_types`
check_token_type : TokenForm → String → Outcome (Unit {0})
check_token_type form name = do
  given ← require form name
  guard (contains supported_token_types given)
      (oauth_error "invalid_request" ("unsupported " <> name) 400)

check_requested_type : Option String → Outcome (Unit {0})
check_requested_type none = ok tt
check_requested_type (some requested) =
    guard (contains supported_token_types requested)
      (oauth_error "invalid_request" "unsupported requested_token_type" 400)

-- `_check_token_types`
unfoldable pub check_token_types : TokenForm → Outcome (Unit {0})
unfolding check_token_type check_requested_type
check_token_types form = do
  check_token_type form "subject_token_type"
  check_token_type form "actor_token_type"
  check_requested_type (Forms.get form "requested_token_type")

-- `except TokenError`
abbrev as_refusal : Outcome Fields → Outcome Fields
as_refusal (ok claims) = ok claims
as_refusal (raised (token message)) = refuse "invalid_grant" "token exchange was refused" 400
as_refusal (raised e) = raised e

-- `parse_scope` of a claim; a claim that is neither absent nor a text has no `strip`
abbrev pub parse_scope_claim : Value → Outcome (List String)
parse_scope_claim null = ok (parse_scope none)
parse_scope_claim (str s) = ok (parse_scope (some s))
parse_scope_claim _ = raised uncaught

-- `_check_may_act`
unfoldable pub check_may_act : Fields → String → Outcome (Unit {0})
check_may_act subject_claims actor_subject = do
  permitted ← may_act_permits subject_claims actor_subject
  guard permitted (oauth_error "invalid_grant" "token exchange was refused" 400)

abbrev pub agreed : Option String → String → Outcome (Option String)
agreed none actor_tenant = ok (some actor_tenant)
agreed (some tenant) actor_tenant =
    if tenant == actor_tenant
    then ok (some tenant)
    else refuse "invalid_grant" "token exchange was refused" 400

-- `_agreed_tenant`
unfoldable pub agreed_tenant : Fields → RegisteredClient → Outcome (Option String)
agreed_tenant subject_claims actor_client = do
  tenant ← tenant_of subject_claims
  agreed tenant actor_client.tenant

-- `requested or tuple(sorted(subject_scopes))`
abbrev pub requested_or_all : List String → List String → List String
requested_or_all [] subject_scopes = sorted subject_scopes
requested_or_all (scope ∷ scopes) subject_scopes = scope ∷ scopes

-- `n > most`, for a bound that may be any integer
abbrev pub exceeds : ℕ → ℤ → Bool
exceeds n (pos most) = ltb most n
exceeds n (negsuc most) = true

module _ (platform : Platform) where
  -- `_verify`; the audience that it is handed is not used
  unfoldable pub verify_presented : TokenVerifier → ℕ → String → String → Outcome Fields
  verify_presented verifier now text audience =
      as_refusal (verify_any_audience platform verifier now text)

  -- the depth of the new token, checked against the cap
  unfoldable pub next_depth : ℤ → Fields → Outcome ℕ
  next_depth maximum_depth subject_claims = do
    depth ← declared_depth platform.object_id subject_claims
    guard (not (exceeds (depth + 1) maximum_depth))
        (oauth_error "invalid_grant" "delegation is too deep" 400)
    ok (depth + 1)

  -- `resolve` from the point where the actor's client is known
  unfoldable pub derive :
      ℤ
      → TokenForm
      → RegisteredClient
      → String
      → Fields
      → Fields
      → RegisteredClient
      → Outcome GrantResult
  derive maximum_depth form client audience subject_claims actor_claims actor_client = do
    actor_subject ← text_item actor_claims "sub"
    check_may_act subject_claims actor_subject
    tenant ← agreed_tenant subject_claims actor_client
    new_depth ← next_depth maximum_depth subject_claims
    subject_scopes ← parse_scope_claim (get subject_claims "scope")
    act ← nest subject_claims
    identities ← chain platform.object_id subject_claims
    act_root ← last_of identities
    task_id ← task_of subject_claims
    exp ← item_or_key_error subject_claims "exp"
    max_expires_at ← from_timestamp platform.float_timestamp exp
    ok
        (record (default_result actor_subject client.client_id
          (requested_or_all (parse_scope (Forms.get form "scope")) subject_scopes)
          (subject_scopes ∷ actor_client.allowed_scopes ∷ [])) {
            act = some act;
            act_root = some act_root;
            task_id = task_id;
            delegation_depth = new_depth;
            tenant = tenant;
            audience = some audience;
            max_expires_at = some max_expires_at;
            issued_token_type = some access_token_urn;
          })
