-- ===== src/Process.antt =====
-- A coroutine of the server between two of its database statements. Each `await` of a repository is
-- one statement, after which any other coroutine may run.
pub mod Alone
pub mod Follows
pub mod Gated
use agent_oauth_from_scratch.Shared.{ℕ, zero, suc}
use agent_oauth_from_scratch.Outcome.{Outcome, ok, raised}
use agent_oauth_from_scratch.Exec.{Exec}

-- What is left of it: the end, or a statement. The statement changes the state, and what it finds
-- in the state decides how the coroutine goes on.
pub data Process (S A : Type 0) : Type 0 where
  finish : Outcome A → Process S A
  ask : (S → S) → (S → Process S A) → Process S A

module _ {S A : Type 0} where
  abbrev pub pure : A → Process S A
  pure a = finish (ok a)

  abbrev pub lift : Outcome A → Process S A
  lift r = finish r

  -- an action of a repository, as one statement
  abbrev pub statement : Exec S A → Process S A
  statement action = ask (λ s. (action s).1) (λ s. finish (action s).0)

  -- nothing comes between its statements
  unfoldable pub run : Process S A → Exec S A
  run (finish r) s = (r, s)
  run (ask update rest) s = run (rest s) (update s)

infixl 5 ◌>>=◌ ◌>>◌
unfoldable pub ◌>>=◌ : {S A B : Type 0} → Process S A → (A → Process S B) → Process S B
finish (ok a) >>= f = f a
finish (raised e) >>= f = finish (raised e)
ask update rest >>= f = ask update λ s. rest s >>= f

abbrev pub ◌>>◌ : {S A B : Type 0} → Process S A → Process S B → Process S B
first >> second = first >>= λ ignored. second
