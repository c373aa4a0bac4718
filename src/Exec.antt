-- ===== src/Exec.antt =====
-- Actions that read and write the database and may raise. Every repository commits as it writes, so
-- what was written before an exception stays written.
pub mod Ends
pub mod Refused
use agent_oauth_from_scratch.Shared.{◌≡◌, refl}
use agent_oauth_from_scratch.Outcome.{Outcome, ok, raised, Failure}

abbrev pub Exec {ℓ} : Type ℓ → Type ℓ → Type ℓ
Exec S A = S → Outcome A × S

module _ {ℓ} {S A : Type ℓ} where
  abbrev pub pure : A → Exec S A
  pure a s = (ok a, s)

  abbrev pub lift : Outcome A → Exec S A
  lift r s = (r, s)

module _ {ℓ} {S A B : Type ℓ} where
  abbrev pub continue : Outcome A → (A → Exec S B) → Exec S B
  continue (ok a) f s = f a s
  continue (raised e) f s = (raised e, s)

  infixl 5 ◌>>=◌ ◌>>◌
  abbrev pub ◌>>=◌ : Exec S A → (A → Exec S B) → Exec S B
  ◌>>=◌ first rest before = let (result, between) = first before in continue result rest between

  abbrev pub ◌>>◌ : Exec S A → Exec S B → Exec S B
  first >> second = first >>= λ ignored. second

module _ {ℓ} {S A B : Type ℓ} where
  continue-eq-ok :
      (r : Outcome A) (f : A → Exec S B) (s : S) {b : B}
      → (continue r f s).0 ≡ ok b
      → (a : A) × (r ≡ ok a) × (continue r f s ≡ f a s)
  continue-eq-ok (ok a) f s h = (a, refl, refl)
  continue-eq-ok (raised e) f s h = cc

  -- A block that succeeds has run its first action and then the rest from the state it left.
  pub >>=-eq-ok :
      (m : Exec S A) (f : A → Exec S B) (s : S) {b : B}
      → ((m >>= f) s).0 ≡ ok b
      → (a : A) × ((m s).0 ≡ ok a) × ((m >>= f) s ≡ f a (m s).1)
  >>=-eq-ok m f s h = continue-eq-ok (m s).0 f (m s).1 h

  -- A block that starts with a value runs the rest on it.
  pub lift->>=-eq-ok :
      (r : Outcome A) (f : A → Exec S B) (s : S) {b : B}
      → ((lift r >>= f) s).0 ≡ ok b
      → (a : A) × (r ≡ ok a) × ((f a s).0 ≡ ok b)
  lift->>=-eq-ok (ok a) f s h = (a, refl, h)
  lift->>=-eq-ok (raised e) f s h = cc
