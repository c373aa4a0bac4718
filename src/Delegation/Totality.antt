-- ===== src/Delegation/Totality.antt =====
-- `chain` of services/delegation.py on every input: how it ends.
use agent_oauth_from_scratch.Shared.{
  ℕ, zero, suc, ◌+◌, ◌≤◌, ◌<◌, String, ◌≡◌, refl, ◌⊎◌, inl, inr, Bool, true, false, List, [], ◌∷◌,
  ◌++◌, arith, ◌==◌, eqb, if◌then◌else◌, Bool-cases,
}
use agent_oauth_from_scratch.Shared.Lists.{length, length-append, any}
use agent_oauth_from_scratch.Outcome.{Outcome, ok, ◌>>=◌}
use agent_oauth_from_scratch.Value.{Value, null, str, obj, Fields, get}
use agent_oauth_from_scratch.Delegation.{
  malformed, non_empty_str, walk, chain, act_claim, maximum_chain_depth,
}

-- The result is a value or the refusal `invalid_grant`, status 400.
abbrev pub IsAnswered {ℓ} : {A : Type ℓ} → Outcome A → Type ℓ
IsAnswered {A} r = ((a : A) × (r ≡ ok a)) ⊎ ((description : String) × (r ≡ malformed description))

pub bind-IsAnswered {ℓ} :
    {A B : Type ℓ} (m : Outcome A) (f : A → Outcome B)
    → IsAnswered m
    → ((a : A) → IsAnswered (f a))
    → IsAnswered (m >>= f)
bind-IsAnswered m f (inl (a, e)) k = rw e (k a)
bind-IsAnswered m f (inr (description, e)) k = rw e (inr (description, refl))

pub non_empty_str-IsAnswered :
    (v : Value) (description : String) → IsAnswered (non_empty_str v description)
non_empty_str-IsAnswered (str s) description = elim (Bool-cases (s == "")) [
  | inl is_empty ↦ rw is_empty (inr (description, refl))
  | inr other ↦ rw other (inl (s, refl))
]
non_empty_str-IsAnswered null description = inr (description, refl)
non_empty_str-IsAnswered _ description = inr (description, refl)

cap-IsAnswered {ℓ} :
    {A : Type ℓ} (b : Bool) (description : String) (r : Outcome A)
    → (b ≡ false → IsAnswered r)
    → IsAnswered (if b then malformed description else r)
cap-IsAnswered true description r k = inr (description, refl)
cap-IsAnswered false description r k = k refl

module _ (object_id : Fields → ℕ) where
  walk-IsAnswered :
      (fuel : ℕ) (seen : List ℕ) (identities : List String) (node : Value)
      → length identities ≤ maximum_chain_depth
      → suc maximum_chain_depth < length identities + fuel
      → IsAnswered (walk object_id fuel seen identities node)
  unfolding walk
  walk-IsAnswered zero seen identities node fits enough = absurd (omega arith)
  walk-IsAnswered (suc fuel) seen identities null fits enough = inl (identities, refl)
  walk-IsAnswered (suc fuel) seen identities (obj node) fits enough =
      elim (Bool-cases (any (eqb (object_id node)) seen)) [
        | inl again ↦ rw again (inr ("act chain refers to itself", refl))
        | inr new ↦ rw new (
            bind-IsAnswered _ _ (non_empty_str-IsAnswered (get node "sub") _) λ actor.
              let found = identities ++ actor ∷ [] in
              cap-IsAnswered _ _ _ λ short.
                walk-IsAnswered fuel (object_id node ∷ seen) found (get node act_claim)
                  (ground arith) (omega (arith, length-append identities (actor ∷ []))))
      ]
  walk-IsAnswered (suc fuel) seen identities _ fits enough = inr ("act must be an object", refl)

  -- Whatever the claims, the chain is read to its end or refused as `invalid_grant`, status
  -- 400.
  pub chain_total : (claims : Fields) → IsAnswered (chain object_id claims)
  unfolding chain
  chain_total claims =
      bind-IsAnswered _ _ (non_empty_str-IsAnswered (get claims "sub") "token has no subject")
        λ subject.
          walk-IsAnswered (suc maximum_chain_depth) (object_id claims ∷ []) (subject ∷ [])
            (get claims act_claim) (omega arith) (omega arith)
