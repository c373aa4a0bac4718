-- ===== src/Process/Follows.antt =====
-- How many statements a coroutine has, and what each of them does.
use native.Mathlib.Numerals.{unary_clauses}
use agent_oauth_from_scratch.Shared.{ℕ, zero, suc, ◌+◌, ◌≡◌, refl}
use agent_oauth_from_scratch.Outcome.{Outcome, ok, raised}
use agent_oauth_from_scratch.Exec.{Exec}
use agent_oauth_from_scratch.Process.{Process, finish, ask, lift, statement, ◌>>=◌}

-- Whatever its statements meet, there are at most `n` of them, and each makes a step of `R`.
abbrev pub Follows : {S A : Type 0} → (S → S → Type 0) → ℕ → Process S A → Type 0
Follows R n (finish r) = Unit
Follows R zero (ask update rest) = ⊥
Follows {S} R (suc n) (ask update rest) = (s : S) → R s (update s) × Follows R n (rest s)

module _ {S A : Type 0} (R : S → S → Type 0) where
  pub Follows-suc :
      (n : ℕ) (process : Process S A) → Follows R n process → Follows R (suc n) process
  Follows-suc n (finish r) h = tt
  Follows-suc zero (ask update rest) h = absurd h
  Follows-suc (suc n) (ask update rest) h = λ s. ((h s).0, Follows-suc n (rest s) (h s).1)

  Follows-add : (n k : ℕ) (process : Process S A) → Follows R k process → Follows R (k + n) process
  Follows-add zero k process h = simp unary_clauses h
  Follows-add (suc n) k process h =
      simp unary_clauses (Follows-suc (k + n) process (Follows-add n k process h))

  pub statement-Follows :
      (action : Exec S A) → ((s : S) → R s (action s).1) → Follows R 1 (statement action)
  statement-Follows action h = λ s. (h s, tt)

module _ {S A B : Type 0} (R : S → S → Type 0) where
  pub lift-Follows :
      (n : ℕ) (r : Outcome A) (f : A → Process S B)
      → ((a : A) → Follows R n (f a))
      → Follows R n (lift r >>= f)
  unfolding ◌>>=◌
  lift-Follows n (ok a) f rest = rest a
  lift-Follows n (raised e) f rest = tt

  pub lift-Follows_of_ok :
      (n : ℕ) (r : Outcome A) (f : A → Process S B)
      → ((a : A) → r ≡ ok a → Follows R n (f a))
      → Follows R n (lift r >>= f)
  unfolding ◌>>=◌
  lift-Follows_of_ok n (ok a) f rest = rest a refl
  lift-Follows_of_ok n (raised e) f rest = tt

  pub >>=-Follows :
      (n k : ℕ) (process : Process S A) (f : A → Process S B)
      → Follows R n process
      → ((a : A) → Follows R k (f a))
      → Follows R (k + n) (process >>= f)
  unfolding ◌>>=◌
  >>=-Follows n k (finish (ok a)) f h rest = Follows-add R n k (f a) (rest a)
  >>=-Follows n k (finish (raised e)) f h rest = tt
  >>=-Follows zero k (ask update more) f h rest = absurd h
  >>=-Follows (suc n) k (ask update more) f h rest =
      simp unary_clauses λ s. ((h s).0, >>=-Follows n k (more s) f (h s).1 rest)

module _ {S A : Type 0} (R T : S → S → Type 0) where
  pub Follows-mono :
      (n : ℕ) (process : Process S A)
      → ((s t : S) → R s t → T s t)
      → Follows R n process
      → Follows T n process
  Follows-mono n (finish r) weaker h = tt
  Follows-mono zero (ask update rest) weaker h = h
  Follows-mono (suc n) (ask update rest) weaker h =
      λ s. (weaker s (update s) (h s).0, Follows-mono n (rest s) weaker (h s).1)
