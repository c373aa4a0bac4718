-- ===== src/Process/Alone.antt =====
-- A coroutine that runs alone, against the same code as one action on the state.
use agent_oauth_from_scratch.Shared.{◌≡◌, refl, ap, ◌∙◌}
use agent_oauth_from_scratch.Outcome.{Outcome, ok, raised}
use agent_oauth_from_scratch.Exec
use agent_oauth_from_scratch.Exec.{Exec}
use agent_oauth_from_scratch.Process.{Process, finish, ask, run, lift, statement, ◌>>=◌}

-- Run alone, the process does what the action does.
abbrev pub Refines : {S A : Type 0} → Process S A → Exec S A → Type 0
Refines {S} process action = (s : S) → run process s ≡ action s

module _ {S A : Type 0} where
  pub lift-Refines : (r : Outcome A) → Refines {S = S} (lift r) (Exec.lift r)
  unfolding run
  lift-Refines r s = refl

  pub statement-Refines : (action : Exec S A) → Refines (statement action) action
  unfolding run
  statement-Refines action s = refl

module _ {S A B : Type 0} where
  run->>= :
      (process : Process S A) (f : A → Process S B) (s : S)
      → run (process >>= f) s ≡ Exec.◌>>=◌ (run process) (λ a. run (f a)) s
  unfolding run ◌>>=◌
  run->>= (finish (ok a)) f s = refl
  run->>= (finish (raised e)) f s = refl
  run->>= (ask update rest) f s = run->>= (rest s) f (update s)

  continue-ap :
      (r : Outcome A) (f : A → Process S B) (g : A → Exec S B) (s : S)
      → ((a : A) → Refines (f a) (g a))
      → Exec.continue r (λ a. run (f a)) s ≡ Exec.continue r g s
  continue-ap (ok a) f g s same = same a s
  continue-ap (raised e) f g s same = refl

  pub >>=-Refines :
      (process : Process S A) (action : Exec S A) (f : A → Process S B) (g : A → Exec S B)
      → Refines process action
      → ((a : A) → Refines (f a) (g a))
      → Refines (process >>= f) (Exec.◌>>=◌ action g)
  >>=-Refines process action f g first rest s =
      run->>= process f s
      ∙ ap (λ (r : Outcome A × S). Exec.continue r.0 (λ a. run (f a)) r.1) (first s)
      ∙ continue-ap (action s).0 f g (action s).1 rest
