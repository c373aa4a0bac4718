-- ===== src/Forms/Given.antt =====
-- What the readers of a form say of a parameter that is given, and of one that is not.
use agent_oauth_from_scratch.Shared.{
  ◌≡◌, ◌≢◌, refl, sym, ap, ◌∙◌, ◌↔◌, eq_iff, String, true, false, none, some, ne→==, Option, ◌==◌,
  Bool-cases, inl, inr,
}
use agent_oauth_from_scratch.Outcome.{ok, raised, uncaught, ok-injective}
use agent_oauth_from_scratch.Outcome.Polite.{IsPolite}
use agent_oauth_from_scratch.Forms.{TokenForm, get, non_empty, require, present, grant_type}

-- A parameter that is given and not empty.
abbrev pub IsGiven : TokenForm → String → String → Type 0
IsGiven form name given = (get form name ≡ some given) × (given ≢ "")

non_empty_of : (name given : String) → given ≢ "" → non_empty name (some given) ≡ ok given
unfolding non_empty
non_empty_of name given ne = rw (ne→== given "" ne) refl

pub require-IsGiven :
    (form : TokenForm) (name given : String)
    → IsGiven form name given
    → require form name ≡ ok given
unfolding require
require-IsGiven form name given (there, ne) = ap (non_empty name) there ∙ non_empty_of name given ne

pub present_of_some :
    (form : TokenForm) (name given : String) → get form name ≡ some given → present form name ≡ true
unfolding present
present_of_some form name given there = ap (λ o. elim o [ none ↦ false | some v ↦ true ]) there

pub present-IsGiven :
    (form : TokenForm) (name given : String) → IsGiven form name given → present form name ≡ true
present-IsGiven form name given (there, ne) = present_of_some form name given there

pub present_of_none :
    (form : TokenForm) (name : String) → get form name ≡ none → present form name ≡ false
unfolding present
present_of_none form name missing = ap (λ o. elim o [ none ↦ false | some v ↦ true ]) missing

pub grant_type_of :
    (form : TokenForm) (given : String)
    → get form "grant_type" ≡ some given
    → grant_type form ≡ ok given
unfolding grant_type
grant_type_of form given there = ap (λ o. elim o [ none ↦ raised uncaught | some v ↦ ok v ]) there

non_empty-IsPolite : (name : String) (given : Option String) → IsPolite (non_empty name given)
unfolding non_empty
non_empty-IsPolite name none = refl
non_empty-IsPolite name (some value) = elim (Bool-cases (value == "")) [
  | inl empty ↦ rw empty refl
  | inr other ↦ rw other tt
]

pub require-IsPolite : (form : TokenForm) (name : String) → IsPolite (require form name)
unfolding require
require-IsPolite form name = non_empty-IsPolite name (get form name)

non_empty-eq-some :
    (name : String) (given : Option String) (v : String)
    → non_empty name given ≡ ok v
    → (given ≡ some v) × (v ≢ "")
unfolding non_empty
non_empty-eq-some name none v h = absurd (cc h)
non_empty-eq-some name (some value) v h = elim (Bool-cases (value == "")) [
  | inl empty ↦ absurd (cc (rw empty at h))
  | inr other ↦
      let same = ok-injective (rw other at h) in
      (ap some same, λ empty. absurd (cc (sym ((eq_iff value "").1 (same ∙ empty)) ∙ other)))
]

-- A parameter is had exactly when it is given and not empty.
pub require_iff :
    (form : TokenForm) (name v : String) → (require form name ≡ ok v) ↔ IsGiven form name v
unfolding require
require_iff form name v = (non_empty-eq-some name (get form name) v, require-IsGiven form name v)

pub require-get :
    (form : TokenForm) (name v : String) → require form name ≡ ok v → get form name ≡ some v
require-get form name v h = ((require_iff form name v).0 h).0

-- What is required is given.
pub require-eq-ok :
    (form : TokenForm) (name v : String) → require form name ≡ ok v → get form name ≢ none
require-eq-ok form name v h = λ missing. absurd (cc (sym (require-get form name v h) ∙ missing))
