-- ===== src/Concurrent/Picked.antt =====
-- The handler that a turn picks, and the others.
use agent_oauth_from_scratch.Shared.{ℕ, zero, suc, ◌≡◌, refl, ap, Option, none, some, List, [], ◌∷◌}
use agent_oauth_from_scratch.Shared.Lists.{All, length}
use agent_oauth_from_scratch.Concurrent.{Waiting, add_first, pick}

-- What all of them satisfy, the picked one and the others satisfy.
abbrev pub IsPicked : (Waiting → Type 0) → Option (Waiting × List Waiting) → Type 0
IsPicked P none = Unit
IsPicked P (some (w, others)) = P w × All P others

-- The others are one less.
abbrev pub IsOneLess : ℕ → Option (Waiting × List Waiting) → Type 0
IsOneLess n none = Unit
IsOneLess n (some (w, others)) = suc (length others) ≡ n

module _ (P : Waiting → Type 0) where
  add_first-IsPicked :
      (w : Waiting) (found : Option (Waiting × List Waiting))
      → P w
      → IsPicked P found
      → IsPicked P (add_first w found)
  unfolding add_first
  add_first-IsPicked w none p h = tt
  add_first-IsPicked w (some (found, others)) p (q, h) = (q, (p, h))

  pub pick-IsPicked : (n : ℕ) (ws : List Waiting) → All P ws → IsPicked P (pick n ws)
  unfolding pick
  pick-IsPicked n [] h = tt
  pick-IsPicked zero (w ∷ ws) h = h
  pick-IsPicked (suc n) (w ∷ ws) (p, h) = add_first-IsPicked w (pick n ws) p (pick-IsPicked n ws h)

add_first-IsOneLess :
    (n : ℕ) (w : Waiting) (found : Option (Waiting × List Waiting))
    → IsOneLess n found
    → IsOneLess (suc n) (add_first w found)
unfolding add_first
add_first-IsOneLess n w none h = tt
add_first-IsOneLess n w (some (found, others)) h = ap suc h

pub pick-IsOneLess : (n : ℕ) (ws : List Waiting) → IsOneLess (length ws) (pick n ws)
unfolding pick
pick-IsOneLess n [] = tt
pick-IsOneLess zero (w ∷ ws) = refl
pick-IsOneLess (suc n) (w ∷ ws) =
    add_first-IsOneLess (length ws) w (pick n ws) (pick-IsOneLess n ws)
