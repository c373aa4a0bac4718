-- ===== src/Delegation/Permits.antt =====
-- `may_act_permits`, `task_of` and `tenant_of` of services/delegation.py: which claims pass.
use agent_oauth_from_scratch.Shared.{
  ◌≡◌, refl, ◌≢◌, sym, ap, ◌↔◌, ◌⊎◌, inl, inr, arith, String, true, Option, none, some, eq_iff,
  Bool-cases,
}
use agent_oauth_from_scratch.Outcome.{ok, ok-injective, >>=-eq-ok}
use agent_oauth_from_scratch.Value.{
  Value, null, bool, int, float, str, arr, obj, instant, Items, nil, cons, Fields, get,
}
use agent_oauth_from_scratch.Delegation.{
  is_text, names_actor, any_names_actor, permits, may_act_permits, may_act_claim, optional_str,
  non_empty_str, task_of, task_claim, tenant_of, tenant_claim,
}
use agent_oauth_from_scratch.Delegation.Chain.{non_empty_str-eq-ok, non_empty_str_of}

pub is_text-str : (v : Value) (s : String) → is_text v s ≡ true → v ≡ str s
is_text-str (str t) s h = ap str ((eq_iff t s).0 h)
is_text-str null s h = absurd (cc h)
is_text-str (bool b) s h = absurd (cc h)
is_text-str (int z) s h = absurd (cc h)
is_text-str (float bits) s h = absurd (cc h)
is_text-str (arr vs) s h = absurd (cc h)
is_text-str (obj d) s h = absurd (cc h)
is_text-str (instant t) s h = absurd (cc h)

pub is_text_self : (v : Value) (s : String) → v ≡ str s → is_text v s ≡ true
is_text_self v s h = rw h ((eq_iff s s).1 refl)

-- A dictionary whose subject is the actor.
abbrev pub NamesActor : String → Value → Type 0
NamesActor actor (obj entry) = get entry "sub" ≡ str actor
NamesActor actor _ = ⊥

abbrev pub AnyNamesActor : String → Items → Type 0
AnyNamesActor actor nil = ⊥
AnyNamesActor actor (cons entry entries) = NamesActor actor entry ⊎ AnyNamesActor actor entries

-- A `may_act` claim that lets the actor act: none at all, or one that names the actor, or a list
-- with an entry that does.
abbrev pub IsPermitted : String → Value → Type 0
IsPermitted actor null = Unit
IsPermitted actor (arr entries) = AnyNamesActor actor entries
IsPermitted actor entry = NamesActor actor entry

names_actor_iff :
    (entry : Value) (actor : String) → (names_actor entry actor ≡ true) ↔ NamesActor actor entry
names_actor_iff (obj d) actor = (is_text-str (get d "sub") actor, is_text_self (get d "sub") actor)
names_actor_iff _ actor = ((λ h. absurd (cc h)), λ h. absurd h)

any_names_actor_iff :
    (entries : Items) (actor : String)
    → (any_names_actor entries actor ≡ true) ↔ AnyNamesActor actor entries
unfolding any_names_actor
any_names_actor_iff nil actor = ((λ h. absurd (cc h)), λ h. absurd h)
any_names_actor_iff (cons entry entries) actor = (
  λ h. elim (Bool-cases (names_actor entry actor)) [
    | inl named ↦ inl ((names_actor_iff entry actor).0 named)
    | inr other ↦ inr ((any_names_actor_iff entries actor).0 (rw other at h))
  ],
  λ named. elim named [
    | inl first ↦ rw ((names_actor_iff entry actor).1 first) refl
    | inr later ↦ ground (arith, (any_names_actor_iff entries actor).1 later)
  ],
)

permits_iff : (v : Value) (actor : String) → (permits v actor ≡ ok true) ↔ IsPermitted actor v
unfolding permits
permits_iff null actor = ((λ h. tt), λ h. refl)
permits_iff (obj d) actor = (
  λ h. is_text-str (get d "sub") actor (ok-injective h),
  λ h. ap ok (is_text_self (get d "sub") actor h),
)
permits_iff (arr entries) actor = (
  λ h. (any_names_actor_iff entries actor).0 (ok-injective h),
  λ h. ap ok ((any_names_actor_iff entries actor).1 h),
)
permits_iff _ actor = ((λ h. absurd (cc h)), λ h. absurd h)

-- The claims let the actor act exactly when their `may_act` is absent or names the actor.
pub may_act_permits_iff :
    (claims : Fields) (actor : String)
    → (may_act_permits claims actor ≡ ok true) ↔ IsPermitted actor (get claims may_act_claim)
unfolding may_act_permits
may_act_permits_iff claims actor = permits_iff (get claims may_act_claim) actor

-- What an optional claim is read as: nothing, or a text that is not empty.
abbrev pub IsOptionalText : Value → Option String → Type 0
IsOptionalText null found = found ≡ none
IsOptionalText (str s) found = (s ≢ "") × (found ≡ some s)
IsOptionalText _ found = ⊥

optional_str-eq-ok :
    (v : Value) (description : String) (found : Option String)
    → optional_str v description ≡ ok found
    → IsOptionalText v found
unfolding optional_str
optional_str-eq-ok null description found h = sym (ok-injective h)
optional_str-eq-ok (str s) description found h =
    let (text, is_found, read) = >>=-eq-ok (non_empty_str (str s) description) _ h in
    let (same, ne) = non_empty_str-eq-ok (str s) description text is_found in
    (λ empty. ne (ground (arith, same)), ground (arith, same))
optional_str-eq-ok _ description found h = cc

optional_str-IsOptionalText :
    (v : Value) (description : String) (found : Option String)
    → IsOptionalText v found
    → optional_str v description ≡ ok found
unfolding optional_str
optional_str-IsOptionalText null description found h = ap ok (sym h)
optional_str-IsOptionalText (str s) description found (ne, found_is) =
    rw (non_empty_str_of (str s) description s refl ne, found_is) refl
optional_str-IsOptionalText _ description found h = absurd h

-- The task of a token is read exactly when the claim is absent or a text that is not empty.
pub task_of_iff :
    (claims : Fields) (found : Option String)
    → (task_of claims ≡ ok found) ↔ IsOptionalText (get claims task_claim) found
unfolding task_of
task_of_iff claims found = (optional_str-eq-ok _ _ found, optional_str-IsOptionalText _ _ found)

pub tenant_of_iff :
    (claims : Fields) (found : Option String)
    → (tenant_of claims ≡ ok found) ↔ IsOptionalText (get claims tenant_claim) found
unfolding tenant_of
tenant_of_iff claims found = (optional_str-eq-ok _ _ found, optional_str-IsOptionalText _ _ found)
