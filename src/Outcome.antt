-- ===== src/Outcome.antt =====
-- errors.py, and Python's exceptions as values. A function that may raise returns an `Outcome`.
pub mod Polite
use agent_oauth_from_scratch.Shared.{ℕ, String, ◌≡◌, refl, ap, Bool, true, false}

-- `OAuthError`: the one error that becomes a protocol response.
pub record OauthError : Type 0 where
  pub error : String
  pub description : String
  pub status_code : ℕ

pub data Failure : Type 0 where
  -- an `OAuthError`, `MalformedChainError` included
  oauth : OauthError → Failure
  -- a `TokenError` of crypto/tokens.py
  token : String → Failure
  -- a `KeyStoreError` of crypto/keys.py
  key_store : String → Failure
  -- a `ValueError` that the program raises itself
  value : String → Failure
  -- any other exception, which no layer converts: the response is a plain 500
  uncaught : Failure

pub data Outcome {ℓ} (A : Type ℓ) : Type ℓ where
  ok : A → Outcome A
  raised : Failure → Outcome A

infixl 5 ◌>>=◌ ◌>>◌
abbrev pub ◌>>=◌ {ℓ κ} : {A : Type ℓ} {B : Type κ} → Outcome A → (A → Outcome B) → Outcome B
ok a >>= f = f a
raised e >>= f = raised e

abbrev pub ◌>>◌ {ℓ} : {B : Type ℓ} → Outcome (Unit {0}) → Outcome B → Outcome B
m >> k = m >>= λ _. k

-- `raise OAuthError(error, description, status_code)`
abbrev pub refuse {ℓ} : {A : Type ℓ} → String → String → ℕ → Outcome A
refuse error description status_code =
    raised (oauth (record { error = error; description = description; status_code = status_code }))

-- `if not test: raise failure`
abbrev pub guard : Bool → Failure → Outcome (Unit {0})
guard true e = ok tt
guard false e = raised e

abbrev pub oauth_error : String → String → ℕ → Failure
oauth_error error description status_code =
    oauth (record { error = error; description = description; status_code = status_code })

module _ {ℓ κ} {A : Type ℓ} {B : Type κ} where
  -- A block that succeeds has a first step that succeeds, and a rest that succeeds on its value.
  pub >>=-eq-ok :
      (first : Outcome A) (rest : A → Outcome B) {out : B}
      → (first >>= rest) ≡ ok out
      → (found : A) × (first ≡ ok found) × (rest found ≡ ok out)
  >>=-eq-ok (ok found) rest done = (found, refl, done)
  >>=-eq-ok (raised e) rest done = cc

pub guard-eq-ok : (b : Bool) (e : Failure) {u : Unit {0}} → guard b e ≡ ok u → b ≡ true
guard-eq-ok true e h = refl
guard-eq-ok false e h = cc

pub ok-injective {ℓ} : {A : Type ℓ} {a b : A} → ok a ≡ ok b → a ≡ b
ok-injective {a} p = ap (λ r. elim r [ ok x ↦ x | raised e ↦ a ]) p

pub raised-injective {ℓ} :
    {A : Type ℓ} {d e : Failure} → ◌≡◌ {A = Outcome A} (raised d) (raised e) → d ≡ e
raised-injective {A} {d} p = ap (λ (r : Outcome A). elim r [ ok x ↦ d | raised e ↦ e ]) p
