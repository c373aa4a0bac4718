-- ===== src/Shared/Lists.antt =====
-- Lists of texts, as sets and as sequences: `in`, `any`, `all`, `len`, removal of duplicates.
use agent_oauth_from_scratch.Shared.Tests.{◌==◌, if◌then◌else◌, Bool-cases}
use Prim.Native.Nat.{ℕ, suc, ◌+◌}
use Prim.Native.String.{String}
use mathlib.Core.Path.{◌≡◌, refl, ap}
use mathlib.Core.Logic.{inl, inr}
use mathlib.Core.Bool.{Bool, true, false, ◌&&◌, ◌||◌}
use mathlib.Core.List.{List, [], ◌∷◌, ◌++◌}
use native.Mathlib.Omega.{arith}
use text.Mathlib.TextEquality.{eq_iff}

module _ {ℓ} {A : Type ℓ} where
  abbrev pub length : List A → ℕ
  length [] = 0
  length (x ∷ xs) = suc (length xs)

  abbrev pub all : (A → Bool) → List A → Bool
  all p [] = true
  all p (x ∷ xs) = p x && all p xs

  abbrev pub any : (A → Bool) → List A → Bool
  any p [] = false
  any p (x ∷ xs) = p x || any p xs

  -- `not xs`
  abbrev pub is_empty : List A → Bool
  is_empty [] = true
  is_empty (x ∷ xs) = false

  abbrev pub keep : (A → Bool) → List A → List A
  keep p [] = []
  keep p (x ∷ xs) = let rest = keep p xs in if p x then x ∷ rest else rest

  pub length-append : (xs ys : List A) → length (xs ++ ys) ≡ length xs + length ys
  length-append [] ys = omega arith
  length-append (x ∷ xs) ys = omega (arith, length-append xs ys)

  abbrev pub All {κ} : (A → Type κ) → List A → Type κ
  All P [] = Unit
  All P (x ∷ xs) = P x × All P xs

  pub All-append {κ} :
      (Good : A → Type κ) (front back : List A)
      → All Good front
      → All Good back
      → All Good (front ++ back)
  All-append Good [] back first second = second
  All-append Good (x ∷ front) back (here, first) second =
      (here, All-append Good front back first second)

  pub all→All : (p : A → Bool) (xs : List A) → all p xs ≡ true → All (λ x. p x ≡ true) xs
  all→All p [] h = tt
  all→All p (x ∷ xs) h = (ground arith, all→All p xs (ground arith))

pub all-append {ℓ} :
    {A : Type ℓ} (p : A → Bool) (xs ys : List A) → all p (xs ++ ys) ≡ (all p xs && all p ys)
all-append p [] ys = refl
all-append p (x ∷ xs) ys = ground (arith, all-append p xs ys)

-- `s in xs`
abbrev pub contains : List String → String → Bool
contains [] s = false
contains (x ∷ xs) s = x == s || contains xs s

-- No text stands twice.
abbrev pub IsUnique : List String → Type 0
IsUnique [] = Unit
IsUnique (x ∷ xs) = (contains xs x ≡ false) × IsUnique xs

abbrev pub IsSubset : List String → List String → Type 0
IsSubset xs ys = (s : String) → contains xs s ≡ true → contains ys s ≡ true

-- whether a text stands twice
abbrev pub has_repeated : List String → Bool
has_repeated [] = false
has_repeated (x ∷ xs) = if contains xs x then true else has_repeated xs

pub contains-append :
    (xs ys : List String) (s : String) → contains (xs ++ ys) s ≡ (contains xs s || contains ys s)
contains-append [] ys s = refl
contains-append (x ∷ xs) ys s = ground (arith, contains-append xs ys s)

pub contains-keep :
    (p : String → Bool) (xs : List String) (s : String)
    → contains (keep p xs) s ≡ (contains xs s && p s)
contains-keep p [] s = refl
contains-keep p (x ∷ xs) s = elim (Bool-cases (x == s)) [
  | inl same ↦ ground (arith, contains-keep p xs s, ap p ((eq_iff x s).0 same))
  | inr other ↦ ground (arith, contains-keep p xs s)
]

pub keep-IsUnique : (p : String → Bool) (xs : List String) → IsUnique xs → IsUnique (keep p xs)
keep-IsUnique p [] u = tt
keep-IsUnique p (x ∷ xs) (fresh, u) = ground (arith, keep-IsUnique p xs u, contains-keep p xs x)
