-- ===== src/Shared/Sorting.antt =====
-- `sorted(...)` of a collection of texts.
use agent_oauth_from_scratch.Shared.Tests.{◌==◌, if◌then◌else◌, Bool-cases}
use agent_oauth_from_scratch.Shared.Lists.{contains, IsUnique, All}
use Prim.Native.Nat.{Ordering}
use Prim.Native.String
use Prim.Native.String.{String}
use mathlib.Core.Path.{◌≡◌, refl}
use mathlib.Core.Logic.{inl, inr}
use mathlib.Core.Bool.{Bool, true, false, ◌||◌}
use mathlib.Core.List.{List, [], ◌∷◌}
use native.Mathlib.Omega.{arith}
use text.Mathlib.TextEquality.{eq_iff}

-- `a < b` on texts, by code points.
abbrev pub text_lt : String → String → Bool
text_lt a b = elim (String.compare a b) [ Ordering.lt ↦ true | _ ↦ false ]

unfoldable pub insert : String → List String → List String
insert s [] = s ∷ []
insert s (x ∷ xs) = let rest = insert s xs in if text_lt x s then x ∷ rest else s ∷ x ∷ xs

unfoldable pub sorted : List String → List String
unfolding insert
sorted [] = []
sorted (x ∷ xs) = insert x (sorted xs)

pub contains-insert :
    (s t : String) (xs : List String) → contains (insert s xs) t ≡ (s == t || contains xs t)
unfolding insert
contains-insert s t [] = refl
contains-insert s t (x ∷ xs) = ground (arith, contains-insert s t xs)

-- Sorting keeps the members.
pub contains-sorted : (xs : List String) (t : String) → contains (sorted xs) t ≡ contains xs t
unfolding sorted
contains-sorted [] t = refl
contains-sorted (x ∷ xs) t = ground (arith, contains-insert x t (sorted xs), contains-sorted xs t)

insert-IsUnique :
    (s : String) (xs : List String) → contains xs s ≡ false → IsUnique xs → IsUnique (insert s xs)
unfolding insert
insert-IsUnique s [] fresh u = (refl, tt)
insert-IsUnique s (x ∷ xs) fresh (fresh_x, u) =
    ground (arith, insert-IsUnique s xs, contains-insert s x xs, eq_iff s x, eq_iff x s)

pub sorted-IsUnique : (xs : List String) → IsUnique xs → IsUnique (sorted xs)
unfolding sorted
sorted-IsUnique [] u = tt
sorted-IsUnique (x ∷ xs) (fresh, u) =
    insert-IsUnique x (sorted xs) (ground (arith, contains-sorted xs x)) (sorted-IsUnique xs u)

insert-All {κ} :
    (P : String → Type κ) (s : String) (xs : List String) → P s → All P xs → All P (insert s xs)
unfolding insert
insert-All P s [] p h = (p, tt)
insert-All P s (x ∷ xs) p (hx, h) = elim (Bool-cases (text_lt x s)) [
  | inl e ↦ rw e (hx, insert-All P s xs p h)
  | inr e ↦ rw e (p, (hx, h))
]

pub sorted-All {κ} : (P : String → Type κ) (xs : List String) → All P xs → All P (sorted xs)
unfolding sorted
sorted-All P [] h = tt
sorted-All P (x ∷ xs) (hx, h) = insert-All P x (sorted xs) hx (sorted-All P xs h)
