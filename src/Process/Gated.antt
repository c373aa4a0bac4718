-- ===== src/Process/Gated.antt =====
-- A coroutine that comes to nothing unless one of its statements passes a gate.
use agent_oauth_from_scratch.Shared.{◌≡◌, refl, ◌⊎◌, inl, inr, Bool, true, false}
use agent_oauth_from_scratch.Outcome.{Outcome, ok, raised, Failure}
use agent_oauth_from_scratch.Process.{Process, finish, ask, lift, ◌>>=◌}

-- The bad outcomes: no success at all, or no proof.
abbrev pub Fails : {A : Type 0} → Outcome A → Type 0
Fails (ok a) = ⊥
Fails (raised e) = Unit

abbrev pub Denies : Outcome Bool → Type 0
Denies (ok true) = ⊥
Denies (ok false) = Unit
Denies (raised e) = Unit

-- It ends with a bad outcome, if no statement of its own makes a step of `R`.
abbrev pub Gated : {S A : Type 0} → (S → S → Type 0) → (Outcome A → Type 0) → Process S A → Type 0
Gated R Bad (finish r) = Bad r
Gated {S} R Bad (ask update rest) = (s : S) → R s (update s) ⊎ Gated R Bad (rest s)

module _ {S A B : Type 0} (R : S → S → Type 0) (Bad : Outcome A → Type 0)
    (Worse : Outcome B → Type 0) (fails : (e : Failure) → Worse (raised e)) where
  -- Where the first part is gated, what follows has to be so only on its bad results.
  pub >>=-Gated :
      (process : Process S A) (f : A → Process S B)
      → Gated R Bad process
      → ((a : A) → Bad (ok a) → Gated R Worse (f a))
      → Gated R Worse (process >>= f)
  unfolding ◌>>=◌
  >>=-Gated (finish (ok a)) f h rest = rest a h
  >>=-Gated (finish (raised e)) f h rest = fails e
  >>=-Gated (ask update more) f h rest = λ s. elim (h s) [
    | inl passed ↦ inl passed
    | inr gated ↦ inr (>>=-Gated (more s) f gated rest)
  ]

module _ {S A B : Type 0} (R : S → S → Type 0) (Bad : Outcome B → Type 0)
    (fails : (e : Failure) → Bad (raised e)) where
  -- What follows any first part is gated.
  pub rest-Gated :
      (process : Process S A) (f : A → Process S B)
      → ((a : A) → Gated R Bad (f a))
      → Gated R Bad (process >>= f)
  unfolding ◌>>=◌
  rest-Gated (finish (ok a)) f rest = rest a
  rest-Gated (finish (raised e)) f rest = fails e
  rest-Gated (ask update more) f rest = λ s. inr (rest-Gated (more s) f rest)

  -- What follows a result that is already there is gated, if it is so on that result.
  pub lift-Gated :
      (r : Outcome A) (f : A → Process S B)
      → ((a : A) → r ≡ ok a → Gated R Bad (f a))
      → Gated R Bad (lift r >>= f)
  unfolding ◌>>=◌
  lift-Gated (ok a) f rest = rest a refl
  lift-Gated (raised e) f rest = fails e
