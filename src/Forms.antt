-- ===== src/Forms.antt =====
-- api/forms.py: the fields of a token request.
pub mod Reading
pub mod Given
use agent_oauth_from_scratch.Shared.{
  ℕ, ◌+◌, String, Bool, true, false, Option, none, some, List, [], ◌∷◌, ◌&&◌, leb, ◌==◌, ◌<>◌,
  if◌then◌else◌, not, eqb, ◌||◌,
}
use agent_oauth_from_scratch.Outcome.{
  Outcome, ok, raised, uncaught, refuse, guard, oauth_error, ◌>>=◌, ◌>>◌,
}
use agent_oauth_from_scratch.Platform.{Platform}
use Prim.Native.Char.{code}
use Prim.Native.String

abbrev pub form_content_type : String
form_content_type = "application/x-www-form-urlencoded"

-- A value of a parsed form body: a text, or an uploaded file.
pub data FormValue : Type 0 where
  text : String → FormValue
  upload : FormValue

-- What the routes read of a request: the content type, "" if absent, and the pairs of the body.
pub record Request : Type 0 where
  pub content_type : String
  pub form : List (String × FormValue)

pub record TokenForm : Type 0 where
  pub fields : List (String × String)

unfoldable pub lookup : List (String × String) → String → Option String
lookup [] name = none
lookup ((k, v) ∷ fields) name = if k == name then some v else lookup fields name

-- `TokenForm.get`
unfoldable pub get : TokenForm → String → Option String
unfolding lookup
get form name = lookup form.fields name

abbrev missing_parameter {ℓ} : {A : Type ℓ} → String → Outcome A
missing_parameter name = refuse "invalid_request" ("missing required parameter: " <> name) 400

non_empty : String → Option String → Outcome String
non_empty name none = missing_parameter name
non_empty name (some value) = if value == "" then missing_parameter name else ok value

-- `TokenForm.require`
unfoldable pub require : TokenForm → String → Outcome String
unfolding non_empty get
require form name = non_empty name (get form name)

-- `TokenForm.present`
unfoldable pub present : TokenForm → String → Bool
unfolding get
present form name = elim (get form name) [ none ↦ false | some v ↦ true ]

-- `TokenForm.grant_type`
unfoldable pub grant_type : TokenForm → Outcome String
unfolding get
grant_type form = elim (get form "grant_type") [ none ↦ raised uncaught | some v ↦ ok v ]

-- `c.lower()` on the Latin-1 characters of a header
abbrev lower_code : ℕ → ℕ
lower_code c =
    if (leb 65 c && leb c 90) || ((leb 192 c && leb c 222) && not (eqb c 215)) then c + 32 else c

-- `value.lower().startswith(prefix)`, with the prefix as it is written
starts_lower : String → String → Bool
starts_lower s String.[] = true
starts_lower String.[] (String.◌∷◌ p prefix) = false
starts_lower (String.◌∷◌ c s) (String.◌∷◌ p prefix) =
    eqb (lower_code (code c)) (code p) && starts_lower s prefix

-- `form.getlist(name)` and `form.keys()`
unfoldable pub getlist : List (String × FormValue) → String → List FormValue
getlist [] name = []
getlist ((k, v) ∷ form) name = let rest = getlist form name in if k == name then v ∷ rest else rest

abbrev pub keys : List (String × FormValue) → List String
keys [] = []
keys ((k, v) ∷ form) = k ∷ keys form

-- `fields[name] = value`
put : List (String × String) → String → String → List (String × String)
put [] name value = (name, value) ∷ []
put ((k, v) ∷ fields) name value =
    let rest = put fields name value in if k == name then (k, value) ∷ fields else (k, v) ∷ rest

-- the body of the loop over the names
single : String → List FormValue → Outcome String
single name [] = raised uncaught
single name (text value ∷ []) = ok value
single name (upload ∷ []) = refuse "invalid_request" (name <> " must be text") 400
single name (v ∷ w ∷ values) = refuse "invalid_request" (name <> " must appear at most once") 400

read_fields :
    List (String × FormValue)
    → List String
    → List (String × String)
    → Outcome (List (String × String))
read_fields form [] fields = ok fields
read_fields form (name ∷ names) fields = do
  value ← single name (getlist form name)
  read_fields form names (put fields name value)

-- `if not fields.get("grant_type")`
with_grant_type : List (String × String) → Outcome TokenForm
unfolding require
with_grant_type fields = do
  given ← require (record { fields = fields }) "grant_type"
  ok (record { fields = fields })

module _ (platform : Platform) where
  unfoldable pub read_token_form : Request → Outcome TokenForm
  unfolding starts_lower single read_fields with_grant_type put
  read_token_form request = do
    guard (starts_lower request.content_type form_content_type)
        (oauth_error "invalid_request" ("content type must be " <> form_content_type) 400)
    fields ← read_fields request.form (platform.set_order (keys request.form)) []
    with_grant_type fields
