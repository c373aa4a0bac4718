-- ===== src/Pipeline/Claims.antt =====
-- The claims that the pipeline hands to the minter.
use agent_oauth_from_scratch.Shared.{
  String, ◌≡◌, refl, Option, none, some, ◌==◌, if◌then◌else◌, Bool-cases, inl, inr, eq_iff, ap, ◌∙◌,
}
use agent_oauth_from_scratch.Value.{
  Value, null, int, str, obj, Fields, end, field, get, has, update, pos,
}
use agent_oauth_from_scratch.Value.Laws.{IsDict, get-put, put-IsDict, update-IsDict}
use agent_oauth_from_scratch.Config.{Settings}
use agent_oauth_from_scratch.Delegation.{act_claim, depth_claim, task_claim, tenant_claim}
use agent_oauth_from_scratch.Grants.Base.{GrantResult}
use agent_oauth_from_scratch.Pipeline.{or_else, put_text, put_dict, put_scope, issued_claims}

abbrev pub text_or_null : Option String → Value
text_or_null none = null
text_or_null (some s) = str s

abbrev pub dict_or_null : Option Fields → Value
dict_or_null none = null
dict_or_null (some d) = obj d

-- A key that is absent reads as null.
get-absent :
    (d : Fields) (k j : String) → get d k ≡ null → get d j ≡ (if k == j then null else get d j)
get-absent d k j h = elim (Bool-cases (k == j)) [
  | inl same ↦ rw same (rw (← (eq_iff k j).0 same) h)
  | inr other ↦ rw other
]

get-put_text :
    (d : Fields) (k j : String) (o : Option String)
    → get d k ≡ null
    → get (put_text d k o) j ≡ (if k == j then text_or_null o else get d j)
get-put_text d k j none h = get-absent d k j h
get-put_text d k j (some v) h = get-put d k j (str v)

get-put_dict :
    (d : Fields) (k j : String) (o : Option Fields)
    → get d k ≡ null
    → get (put_dict d k o) j ≡ (if k == j then dict_or_null o else get d j)
get-put_dict d k j none h = get-absent d k j h
get-put_dict d k j (some v) h = get-put d k j (obj v)

get-put_scope :
    (d : Fields) (scope j : String)
    → get d "scope" ≡ null
    → get (put_scope d scope) j
      ≡ (if "scope" == j then (if scope == "" then null else str scope) else get d j)
get-put_scope d scope j h = elim (Bool-cases (scope == "")) [
  | inl e ↦ rw e (get-absent d "scope" j h)
  | inr e ↦ rw e (get-put d "scope" j (str scope))
]

put_text-IsDict : (d : Fields) (k : String) (o : Option String) → IsDict d → IsDict (put_text d k o)
put_text-IsDict d k none u = u
put_text-IsDict d k (some v) u = put-IsDict d k (str v) u

put_dict-IsDict : (d : Fields) (k : String) (o : Option Fields) → IsDict d → IsDict (put_dict d k o)
put_dict-IsDict d k none u = u
put_dict-IsDict d k (some v) u = put-IsDict d k (obj v) u

put_scope-IsDict : (d : Fields) (scope : String) → IsDict d → IsDict (put_scope d scope)
put_scope-IsDict d scope u = elim (Bool-cases (scope == "")) [
  | inl e ↦ rw e u
  | inr e ↦ rw e (put-IsDict d "scope" (str scope) u)
]

pub record AreClaims (settings : Settings) (result : GrantResult) (granted : String)
    (claims : Fields) : Type 0 where
  pub sub : get claims "sub" ≡ str result.subject
  pub aud : get claims "aud" ≡ str (or_else result.audience settings.resource_audience)
  pub client_id : get claims "client_id" ≡ str result.client_id
  pub depth : get claims depth_claim ≡ int (pos result.delegation_depth)
  pub scope : get claims "scope" ≡ (if granted == "" then null else str granted)
  pub act : get claims act_claim ≡ dict_or_null result.act
  pub task : get claims task_claim ≡ text_or_null result.task_id
  pub tenant : get claims tenant_claim ≡ text_or_null result.tenant
  -- no time before which the token is not valid
  pub nbf : get claims "nbf" ≡ null

module _ (settings : Settings) (result : GrantResult) (scope : String) where
  pub issued_claims-IsDict : IsDict (issued_claims settings result scope)
  unfolding issued_claims has
  issued_claims-IsDict = update-IsDict _ result.extra_claims (
      put_text-IsDict _ tenant_claim result.tenant (
        put_text-IsDict _ task_claim result.task_id (
          put_dict-IsDict _ act_claim result.act
            (put_scope-IsDict _ scope (refl, (refl, (refl, (refl, tt))))))))

  abbrev base : Fields
  base = field "sub" (str result.subject) (
      field "aud" (str (or_else result.audience settings.resource_audience)) (
        field "client_id" (str result.client_id)
          (field depth_claim (int (pos result.delegation_depth)) end)))

  abbrev scoped : Fields
  scoped = put_scope base scope

  abbrev acting : Fields
  acting = put_dict scoped act_claim result.act

  abbrev tasked : Fields
  tasked = put_text acting task_claim result.task_id

  abbrev tenanted : Fields
  tenanted = put_text tasked tenant_claim result.tenant

  get-scoped :
      (j : String)
      → get scoped j
        ≡ (if "scope" == j then (if scope == "" then null else str scope) else get base j)
  unfolding get
  get-scoped j = get-put_scope base scope j refl

  get-acting :
      (j : String)
      → get acting j ≡ (if act_claim == j then dict_or_null result.act else get scoped j)
  unfolding get
  get-acting j = get-put_dict scoped act_claim j result.act (get-scoped act_claim)

  get-tasked :
      (j : String)
      → get tasked j ≡ (if task_claim == j then text_or_null result.task_id else get acting j)
  unfolding get
  get-tasked j =
      get-put_text acting task_claim j result.task_id
        (get-acting task_claim ∙ get-scoped task_claim)

  get-tenanted :
      (j : String)
      → get tenanted j ≡ (if tenant_claim == j then text_or_null result.tenant else get tasked j)
  unfolding get
  get-tenanted j =
      get-put_text tasked tenant_claim j result.tenant
        (get-tasked tenant_claim ∙ get-acting tenant_claim ∙ get-scoped tenant_claim)

  tenanted-AreClaims : AreClaims settings result scope tenanted
  unfolding get
  tenanted-AreClaims = record {
    sub = get-tenanted "sub" ∙ get-tasked "sub" ∙ get-acting "sub" ∙ get-scoped "sub";
    aud = get-tenanted "aud" ∙ get-tasked "aud" ∙ get-acting "aud" ∙ get-scoped "aud";
    client_id =
        get-tenanted "client_id"
        ∙ get-tasked "client_id"
        ∙ get-acting "client_id"
        ∙ get-scoped "client_id";
    depth =
        get-tenanted depth_claim
        ∙ get-tasked depth_claim
        ∙ get-acting depth_claim
        ∙ get-scoped depth_claim;
    scope = get-tenanted "scope" ∙ get-tasked "scope" ∙ get-acting "scope" ∙ get-scoped "scope";
    act = get-tenanted act_claim ∙ get-tasked act_claim ∙ get-acting act_claim;
    task = get-tenanted task_claim ∙ get-tasked task_claim;
    tenant = get-tenanted tenant_claim;
    nbf = get-tenanted "nbf" ∙ get-tasked "nbf" ∙ get-acting "nbf" ∙ get-scoped "nbf";
  }

  issued_claims-eq-tenanted :
      result.extra_claims ≡ end → issued_claims settings result scope ≡ tenanted
  unfolding issued_claims update
  issued_claims-eq-tenanted none_extra = ap (update tenanted) none_extra

  -- Each claim holds the field of the result that it is named for, where the grant adds no other
  -- claims.
  pub issued_claims-AreClaims :
      result.extra_claims ≡ end
      → AreClaims settings result scope (issued_claims settings result scope)
  issued_claims-AreClaims none_extra = rw (issued_claims-eq-tenanted none_extra) tenanted-AreClaims
