-- ===== src/Exec/Ends.antt =====
-- How a block ends: with a value and a state, or with an exception and a state. One rule for each
-- kind of first action.
use agent_oauth_from_scratch.Shared.{◌≡◌, refl}
use agent_oauth_from_scratch.Outcome.{Outcome, ok, raised, Failure, ok-injective, raised-injective}
use agent_oauth_from_scratch.Exec.{Exec, continue}

module _ {S : Type 0} where
  abbrev pub Ends :
      {A : Type 0} → (A → S → Type 0) → (Failure → S → Type 0) → Outcome A × S → Type 0
  Ends Q E (ok a, s) = Q a s
  Ends Q E (raised e, s) = E e s

  module _ {A B : Type 0} (Q : B → S → Type 0) (E : Failure → S → Type 0) where
    pub Ends-continue :
        (r : Outcome A) (f : A → Exec S B) (s : S)
        → ((e : Failure) → r ≡ raised e → E e s)
        → ((a : A) → r ≡ ok a → Ends Q E (f a s))
        → Ends Q E (continue r f s)
    Ends-continue (ok a) f s fails goes = goes a refl
    Ends-continue (raised e) f s fails goes = fails e refl

    pub Ends-bind :
        (P : A → S → Type 0) (r : Outcome A × S) (f : A → Exec S B)
        → Ends P E r
        → ((a : A) (s : S) → P a s → Ends Q E (f a s))
        → Ends Q E (continue r.0 f r.1)
    Ends-bind P (ok a, s) f p goes = goes a s p
    Ends-bind P (raised e, s) f p goes = p

  module _ {A : Type 0} (Q : A → S → Type 0) (E : Failure → S → Type 0) where
    pub Ends-ok : (r : Outcome A × S) (a : A) → Ends Q E r → r.0 ≡ ok a → Q a r.1
    Ends-ok (ok b, s) a q h = rw (← ok-injective h) q
    Ends-ok (raised e, s) a q h = absurd (cc h)

    pub Ends-raised : (r : Outcome A × S) (e : Failure) → Ends Q E r → r.0 ≡ raised e → E e r.1
    Ends-raised (ok b, s) e q h = absurd (cc h)
    Ends-raised (raised d, s) e q h = rw (← raised-injective h) q

  module _ {A : Type 0} (P Q : A → S → Type 0) (E : Failure → S → Type 0) where
    pub Ends-mono :
        (r : Outcome A × S) → Ends P E r → ((a : A) (s : S) → P a s → Q a s) → Ends Q E r
    Ends-mono (ok a, s) p goes = goes a s p
    Ends-mono (raised e, s) p goes = p
