-- ===== src/Pipeline/Unclaimed.antt =====
-- services/pipeline.py: the names that the pipeline's claims leave to the minter.
use agent_oauth_from_scratch.Shared.{
  String, ◌≡◌, refl, true, false, Option, none, some, ◌==◌, Bool-cases, inl, inr, ◌∙◌,
}
use agent_oauth_from_scratch.Value.{str, obj, Fields, end, has, update}
use agent_oauth_from_scratch.Value.Laws.{has-put}
use agent_oauth_from_scratch.Shared.Lists.{keep, is_empty}
use agent_oauth_from_scratch.Tokens.{minter_owned_claims}
use agent_oauth_from_scratch.Config.{Settings}
use agent_oauth_from_scratch.Delegation.{act_claim, depth_claim, task_claim, tenant_claim}
use agent_oauth_from_scratch.Grants.Base.{GrantResult}
use agent_oauth_from_scratch.Pipeline.{put_text, put_dict, put_scope, issued_claims}

has-put_text :
    (d : Fields) (k j : String) (o : Option String)
    → (k == j) ≡ false
    → has (put_text d k o) j ≡ has d j
has-put_text d k j none other = refl
has-put_text d k j (some v) other = has-put d k j (str v) ∙ rw other refl

has-put_dict :
    (d : Fields) (k j : String) (o : Option Fields)
    → (k == j) ≡ false
    → has (put_dict d k o) j ≡ has d j
has-put_dict d k j none other = refl
has-put_dict d k j (some v) other = has-put d k j (obj v) ∙ rw other refl

has-put_scope :
    (d : Fields) (scope j : String) → ("scope" == j) ≡ false → has (put_scope d scope) j ≡ has d j
has-put_scope d scope j other = elim (Bool-cases (scope == "")) [
  | inl e ↦ rw e refl
  | inr e ↦ rw e (has-put d "scope" j (str scope) ∙ rw other refl)
]

-- The claims of a result that adds none do not have a name that is none of theirs.
issued_claims-lacks :
    (settings : Settings) (result : GrantResult) (scope k : String)
    → result.extra_claims ≡ end
    → (tenant_claim == k) ≡ false
    → (task_claim == k) ≡ false
    → (act_claim == k) ≡ false
    → ("scope" == k) ≡ false
    → ("sub" == k) ≡ false
    → ("aud" == k) ≡ false
    → ("client_id" == k) ≡ false
    → (depth_claim == k) ≡ false
    → has (issued_claims settings result scope) k ≡ false
unfolding issued_claims update has
issued_claims-lacks settings result scope k plain tenant task act scoped sub aud client depth =
    rw plain (
      has-put_text _ tenant_claim k result.tenant tenant
      ∙ has-put_text _ task_claim k result.task_id task
      ∙ has-put_dict _ act_claim k result.act act
      ∙ has-put_scope _ scope k scoped
      ∙ rw (sub, aud, client, depth) refl)

-- The claims of a result that adds none have no name that the minter owns.
pub issued_claims-unclaimed :
    (settings : Settings) (result : GrantResult) (scope : String)
    → result.extra_claims ≡ end
    → is_empty (keep (has (issued_claims settings result scope)) minter_owned_claims) ≡ true
issued_claims-unclaimed settings result scope plain =
    rw
      (
        issued_claims-lacks settings result scope "exp" plain refl refl refl refl refl refl refl
            refl,
        issued_claims-lacks settings result scope "iat" plain refl refl refl refl refl refl refl
            refl,
        issued_claims-lacks settings result scope "iss" plain refl refl refl refl refl refl refl
            refl,
        issued_claims-lacks settings result scope "jti" plain refl refl refl refl refl refl refl
            refl,
      )
      refl
