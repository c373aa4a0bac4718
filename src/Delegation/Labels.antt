-- ===== src/Delegation/Labels.antt =====
-- What `task_of` and `tenant_of` read.
use agent_oauth_from_scratch.Shared.{◌≡◌, refl, ◌∙◌, String, Option, none, some}
use agent_oauth_from_scratch.Outcome.{ok, >>=-eq-ok}
use agent_oauth_from_scratch.Value.{Value, null, str, Fields, get}
use agent_oauth_from_scratch.Delegation.{
  non_empty_str, task_claim, tenant_claim, optional_str, task_of, tenant_of,
}
use agent_oauth_from_scratch.Delegation.Chain.{non_empty_str-eq-ok}

-- A claim holds an optional text.
abbrev pub IsOptional : Value → Option String → Type 0
IsOptional v none = v ≡ null
IsOptional v (some s) = v ≡ str s

optional_str-eq-ok :
    (v : Value) (description : String) (o : Option String)
    → optional_str v description ≡ ok o
    → IsOptional v o
unfolding optional_str
optional_str-eq-ok null description none h = refl
optional_str-eq-ok null description (some s) h = absurd (cc h)
optional_str-eq-ok (str t) description none h =
    let (text, named, made) = >>=-eq-ok (non_empty_str (str t) description) _ h in absurd (cc made)
optional_str-eq-ok (str t) description (some s) h =
    let (text, named, made) = >>=-eq-ok (non_empty_str (str t) description) _ h in
    (non_empty_str-eq-ok (str t) description text named).0 ∙ cc made
optional_str-eq-ok _ description o h = absurd (cc h)

pub task_of-eq-ok :
    (claims : Fields) (o : Option String)
    → task_of claims ≡ ok o
    → IsOptional (get claims task_claim) o
unfolding task_of
task_of-eq-ok claims o h = optional_str-eq-ok (get claims task_claim) _ o h

pub tenant_of-eq-ok :
    (claims : Fields) (o : Option String)
    → tenant_of claims ≡ ok o
    → IsOptional (get claims tenant_claim) o
unfolding tenant_of
tenant_of-eq-ok claims o h = optional_str-eq-ok (get claims tenant_claim) _ o h
