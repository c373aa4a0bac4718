-- ===== src/Forms/Reading.antt =====
-- What is read of a token request: each parameter that was sent once, as a text.
use agent_oauth_from_scratch.Shared.{
  ◌≡◌, refl, sym, ap, ◌∙◌, ◌↔◌, String, true, false, some, List, [], ◌∷◌, arith, eq_iff, ◌==◌, ◌<>◌,
  if◌then◌else◌, Bool-cases, inl, inr,
}
use agent_oauth_from_scratch.Shared.Lists.{contains}
use agent_oauth_from_scratch.Outcome.{ok, ok-injective, guard, oauth_error, >>=-eq-ok}
use agent_oauth_from_scratch.Platform.{Platform}
use agent_oauth_from_scratch.Forms
use agent_oauth_from_scratch.Forms.Given.{require-get}
use agent_oauth_from_scratch.Forms.{
  Request, TokenForm, FormValue, text, upload, lookup, getlist, keys, put, single, read_fields,
  with_grant_type, require, read_token_form, starts_lower, form_content_type,
}

lookup-put :
    (fields : List (String × String)) (name value other : String)
    → lookup (put fields name value) other
      ≡ (if name == other then some value else lookup fields other)
unfolding lookup put
lookup-put [] name value other = refl
lookup-put ((k, v) ∷ fields) name value other =
    ground
      (arith, eq_iff k name, eq_iff k other, eq_iff name other, lookup-put fields name value other)

single-eq-ok :
    (name : String) (values : List FormValue) (value : String)
    → single name values ≡ ok value
    → values ≡ text value ∷ []
unfolding single
single-eq-ok name [] value h = absurd (cc h)
single-eq-ok name (text v ∷ []) value h = rw (ok-injective h) refl
single-eq-ok name (upload ∷ []) value h = absurd (cc h)
single-eq-ok name (v ∷ w ∷ values) value h = absurd (cc h)

getlist-missing :
    (form : List (String × FormValue)) (name : String)
    → contains (keys form) name ≡ false
    → getlist form name ≡ []
unfolding getlist
getlist-missing [] name h = refl
getlist-missing ((k, v) ∷ form) name h = ground (arith, eq_iff k name, getlist-missing form name)

-- What the loop over `names` does to the fields.
record IsRead (form : List (String × FormValue)) (names : List String)
    (fields out : List (String × String)) (name : String) : Type 0 where
  read :
      contains names name ≡ true
      → (value : String) × (getlist form name ≡ text value ∷ []) × (lookup out name ≡ some value)
  unread : contains names name ≡ false → lookup out name ≡ lookup fields name

read_fields-IsRead :
    (form : List (String × FormValue)) (names : List String) (fields out : List (String × String))
    → read_fields form names fields ≡ ok out
    → (name : String) → IsRead form names fields out name
unfolding read_fields
read_fields-IsRead form [] fields out h name = record {
  read = λ c. absurd (cc c);
  unread = λ c. ap (λ f. lookup f name) (sym (ok-injective h));
}
read_fields-IsRead form (n ∷ names) fields out h name =
    let (value, one, rest) = >>=-eq-ok (single n (getlist form n)) _ h in
    let later = read_fields-IsRead form names (put fields n value) out rest name in
    let found = lookup-put fields n value name in
    let is_single = single-eq-ok n (getlist form n) value one in
    elim (Bool-cases (contains names name)) [
      | inl c ↦ record { read = λ u. later.read c; unread = λ u. ground arith }
      | inr c ↦ elim (Bool-cases (n == name)) [
        | inl same ↦ record {
          read = λ u. (
            value,
            ap (getlist form) (sym ((eq_iff n name).0 same)) ∙ is_single,
            later.unread c ∙ found ∙ rw same refl,
          );
          unread = λ u. ground arith;
        }
        | inr other ↦ record {
          read = λ u. ground arith;
          unread = λ u. later.unread c ∙ found ∙ rw other refl;
        }
      ]
    ]

-- A set of texts is iterated over exactly its elements.
abbrev pub IsSetOrder : (List String → List String) → Type 0
IsSetOrder set_order =
    (names : List String) (name : String) → contains (set_order names) name ≡ contains names name

with_grant_type-eq-ok :
    (fields : List (String × String)) (form : TokenForm)
    → with_grant_type fields ≡ ok form
    → (form.fields ≡ fields) × (given : String) × (Forms.get form "grant_type" ≡ some given)
unfolding with_grant_type
with_grant_type-eq-ok fields form h =
    let (given, required, made) =
      >>=-eq-ok (require (record { fields = fields }) "grant_type") _ h in
    (
      ap (λ (f : TokenForm). f.fields) (sym (ok-injective made)),
      given,
      rw (← ok-injective made)
          (require-get (record { fields = fields }) "grant_type" given required),
    )

read_token_form-eq-ok :
    (platform : Platform) (request : Request) (form : TokenForm)
    → read_token_form platform request ≡ ok form
    → (read_fields request.form (platform.set_order (keys request.form)) [] ≡ ok form.fields)
      × (given : String) × (Forms.get form "grant_type" ≡ some given)
unfolding read_token_form
read_token_form-eq-ok platform request form h =
    let (u, typed, h') =
      >>=-eq-ok
        (guard (starts_lower request.content_type form_content_type)
          (oauth_error "invalid_request" ("content type must be " <> form_content_type) 400))
        _ h in
    let (fields, read, made) =
      >>=-eq-ok (read_fields request.form (platform.set_order (keys request.form)) []) _ h' in
    let (same, given, typed) = with_grant_type-eq-ok fields form made in
    (read ∙ ap ok (sym same), given, typed)

-- A form that is read has a grant type.
pub read_token_form-grant_type :
    (platform : Platform) (request : Request) (form : TokenForm)
    → read_token_form platform request ≡ ok form
    → (given : String) × (Forms.get form "grant_type" ≡ some given)
read_token_form-grant_type platform request form h =
    let (read, given, typed) = read_token_form-eq-ok platform request form h in (given, typed)

-- If a request is read, a parameter has a value in the form exactly when the body holds that
-- parameter once, as a text with that value.
pub read_token_form-get :
    (platform : Platform) (request : Request) (form : TokenForm)
    → IsSetOrder platform.set_order
    → read_token_form platform request ≡ ok form
    → (name value : String)
    → (Forms.get form name ≡ some value) ↔ (getlist request.form name ≡ text value ∷ [])
unfolding Forms.get lookup
read_token_form-get platform request form law h name value =
    let names = platform.set_order (keys request.form) in
    let r =
      read_fields-IsRead request.form names [] form.fields
        (read_token_form-eq-ok platform request form h).0 name in
    elim (Bool-cases (contains (keys request.form) name)) [
      | inl c ↦
          let (v, sent, held) = r.read (law (keys request.form) name ∙ c) in
          rw (sent, held) ((λ e. ground arith), λ e. ground arith)
      | inr c ↦
          let unheld = r.unread (law (keys request.form) name ∙ c) in
          let unsent = getlist-missing request.form name c in
          rw (unheld, unsent) ((λ e. absurd (cc e)), λ e. absurd (cc e))
    ]
