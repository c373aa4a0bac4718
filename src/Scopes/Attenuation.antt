-- ===== src/Scopes/Attenuation.antt =====
-- `attenuate`: what is granted, when it is refused, and that authority never grows.
use agent_oauth_from_scratch.Shared.{
  String, ◌≡◌, refl, sym, ◌∙◌, ◌↔◌, eq_refl, ap, Bool, true, false, ◌&&◌, List, [], ◌∷◌, ◌++◌,
  arith, if◌then◌else◌, Bool-cases, inl, inr,
}
use agent_oauth_from_scratch.Shared.Lists.{
  contains, contains-keep, keep-IsUnique, IsUnique, All, all-append, any, is_empty, keep,
}
use agent_oauth_from_scratch.Outcome.{ok, refuse}
use agent_oauth_from_scratch.Shared.Words.{IsWord}
use agent_oauth_from_scratch.Scopes.{within, granted_or_refused, attenuate}

-- An empty ceiling lets nothing through.
within_of_empty :
    (ceilings : List (List String)) (s : String)
    → any is_empty ceilings ≡ true
    → within ceilings s ≡ false
within_of_empty [] s h = cc
within_of_empty ([] ∷ cs) s h = refl
within_of_empty ((x ∷ c) ∷ cs) s h = ground (arith, within_of_empty cs s h)

keep_of_none :
    (p : String → Bool) (xs : List String) → ((s : String) → p s ≡ false) → keep p xs ≡ []
keep_of_none p [] h = refl
keep_of_none p (x ∷ xs) h = ground (arith, h x, keep_of_none p xs h)

-- The grant is the request cut down to the scopes that every ceiling holds, in the order of the
-- request; the request is refused if that leaves nothing of it.
pub attenuate_lem :
    (requested : List String) (ceilings : List (List String))
    → attenuate requested ceilings ≡ (
        if is_empty requested then ok [] else granted_or_refused (keep (within ceilings) requested))
unfolding attenuate
attenuate_lem requested ceilings = elim (Bool-cases (any is_empty ceilings)) [
  | inl powerless ↦ rw (
    powerless,
    keep_of_none (within ceilings) requested (λ s. within_of_empty ceilings s powerless),
  )
  | inr other ↦ rw other
]

granted-eq-keep :
    (requested : List String) (ceilings : List (List String)) {granted : List String}
    → attenuate requested ceilings ≡ ok granted
    → keep (within ceilings) requested ≡ granted
granted-eq-keep [] ceilings e = ground (arith, attenuate_lem [] ceilings)
granted-eq-keep (r ∷ rs) ceilings e = ground (arith, attenuate_lem (r ∷ rs) ceilings)

-- If a request is granted, a scope is among the granted ones exactly when it was requested and
-- every ceiling holds it.
pub contains-attenuate :
    (requested : List String) (ceilings : List (List String)) (granted : List String)
    → attenuate requested ceilings ≡ ok granted
    → (s : String) → contains granted s ≡ (contains requested s && within ceilings s)
contains-attenuate requested ceilings granted e s =
    rw (← granted-eq-keep requested ceilings e) (contains-keep (within ceilings) requested s)

keep-keep :
    (a b : List (List String)) (xs : List String)
    → keep (within b) (keep (within a) xs) ≡ keep (within (a ++ b)) xs
keep-keep a b [] = refl
keep-keep a b (x ∷ xs) = ground (arith, keep-keep a b xs, all-append (λ c. contains c x) a b)

-- If a request is granted under some ceilings, attenuating what was granted under further
-- ceilings is attenuating the request under both.
attenuate-attenuate :
    (requested : List String) (a b : List (List String)) (granted : List String)
    → attenuate requested a ≡ ok granted
    → attenuate granted b ≡ attenuate requested (a ++ b)
attenuate-attenuate [] a b granted e =
    ground (arith, attenuate_lem [] a, attenuate_lem [] b, attenuate_lem [] (a ++ b))
attenuate-attenuate (r ∷ rs) a b [] e =
    let kept = granted-eq-keep (r ∷ rs) a e in
    absurd (cc (attenuate_lem (r ∷ rs) a, ap granted_or_refused kept))
attenuate-attenuate (r ∷ rs) a b (g ∷ gs) e =
    let kept = granted-eq-keep (r ∷ rs) a e in
    cc (
      attenuate_lem (g ∷ gs) b,
      attenuate_lem (r ∷ rs) (a ++ b),
      ap granted_or_refused (keep-keep a b (r ∷ rs)),
      ap (λ xs. granted_or_refused (keep (within b) xs)) kept,
    )

keep_of_outside :
    (p : String → Bool) (xs : List String)
    → ((s : String) → contains xs s ≡ true → p s ≡ false)
    → keep p xs ≡ []
keep_of_outside p [] h = refl
keep_of_outside p (x ∷ xs) h =
    let ih = keep_of_outside p xs (λ s m. h s (ground arith)) in ground (arith, h x, eq_refl x)

refused_iff_empty :
    (granted : List String)
    → (granted_or_refused granted
        ≡ refuse "invalid_scope" "none of the requested scopes are allowed" 400)
      ↔ (granted ≡ [])
refused_iff_empty [] = (λ h. refl, λ h. refl)
refused_iff_empty (g ∷ gs) = (λ h. cc, λ h. cc)

-- A request that names a scope is refused, as `invalid_scope`, exactly when no scope that it
-- names lies in every ceiling.
pub attenuate-refused_iff :
    (scope : String) (scopes : List String) (ceilings : List (List String))
    → (attenuate (scope ∷ scopes) ceilings
        ≡ refuse "invalid_scope" "none of the requested scopes are allowed" 400)
      ↔ ((s : String) → contains (scope ∷ scopes) s ≡ true → within ceilings s ≡ false)
attenuate-refused_iff scope scopes ceilings =
    let requested = scope ∷ scopes in
    let cut = attenuate_lem requested ceilings in
    let (empty_of, refused_of) = refused_iff_empty (keep (within ceilings) requested) in
    (
      λ h s m.
          let none_kept = empty_of (sym cut ∙ h) in
          ground (
            arith,
            contains-keep (within ceilings) requested s,
            ap (λ (xs : List String). contains xs s) none_kept,
          ),
      λ outside. cut ∙ refused_of (keep_of_outside (within ceilings) requested outside),
    )

keep-All {κ} :
    (P : String → Type κ) (p : String → Bool) (xs : List String) → All P xs → All P (keep p xs)
keep-All P p [] h = tt
keep-All P p (x ∷ xs) (hx, h) = elim (Bool-cases (p x)) [
  | inl e ↦ rw e (hx, keep-All P p xs h)
  | inr e ↦ rw e (keep-All P p xs h)
]

-- What is granted stays free of duplicates, and each scope keeps its form.
pub attenuate-keeps :
    (requested : List String) (ceilings : List (List String)) (granted : List String)
    → attenuate requested ceilings ≡ ok granted
    → IsUnique requested
    → All IsWord requested
    → IsUnique granted × All IsWord granted
attenuate-keeps requested ceilings granted e unique words =
    rw (← granted-eq-keep requested ceilings e) (
      keep-IsUnique (within ceilings) requested unique,
      keep-All IsWord (within ceilings) requested words,
    )
