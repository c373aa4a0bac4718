-- ===== src/Delegation/Chain.antt =====
-- `chain` of services/delegation.py, on fuel, against the nesting that it reads.
use agent_oauth_from_scratch.Shared.{
  ℕ, zero, suc, ◌+◌, ◌≤◌, ◌<◌, String, ◌≡◌, refl, ◌≢◌, ◌↔◌, inl, inr, sym, ap, ◌∙◌, false, List, [],
  ◌∷◌, ◌++◌, arith, eq_iff, eqb, Bool-cases, ne→==,
}
use agent_oauth_from_scratch.Shared.Lists.{length, length-append, any, All}
use agent_oauth_from_scratch.Outcome.{ok, >>=-eq-ok}
use agent_oauth_from_scratch.Value.{Value, null, str, obj, Fields, get, size, size_fields}
use agent_oauth_from_scratch.Value.Laws.{size-get, size-get-le-obj}
use agent_oauth_from_scratch.Delegation.{non_empty_str, walk, chain, act_claim, maximum_chain_depth}
use mathlib.Core.List.{append_assoc, append-nil, head-eq_of_cons-eq, tail-eq_of_cons-eq}

-- The identities of an `act` claim, outermost first.
pub data Acts : Value → List String → Type 0 where
  done : Acts null []
  hop :
      {node : Fields} {actor : String} {rest : List String}
      → get node "sub" ≡ str actor
      → actor ≢ ""
      → Acts (get node act_claim) rest
      → Acts (obj node) (actor ∷ rest)

-- Dictionaries of different sizes are different objects, so Python's `id` tells them apart.
abbrev pub IsObjectId : (Fields → ℕ) → Type 0
IsObjectId object_id = (a b : Fields) → object_id a ≡ object_id b → size_fields a ≡ size_fields b

pub non_empty_str-eq-ok :
    (v : Value) (description s : String)
    → non_empty_str v description ≡ ok s
    → (v ≡ str s) × (s ≢ "")
non_empty_str-eq-ok (str t) description s h = ground (arith, eq_iff t "")
non_empty_str-eq-ok null description s h = cc
non_empty_str-eq-ok _ description s h = cc

pub non_empty_str_of :
    (v : Value) (description s : String) → v ≡ str s → s ≢ "" → non_empty_str v description ≡ ok s
non_empty_str_of v description s e ne = rw (e, ne→== s "" ne)

module _ (object_id : Fields → ℕ) where
  walk-obj :
      (fuel : ℕ) (seen : List ℕ) (identities : List String) (node : Fields) (out : List String)
      → walk object_id (suc fuel) seen identities (obj node) ≡ ok out
      → (actor : String) × (get node "sub" ≡ str actor)
        × (actor ≢ "")
        × (length (identities ++ actor ∷ []) ≤ maximum_chain_depth)
        × (walk object_id fuel
              (object_id node ∷ seen)
              (identities ++ actor ∷ [])
              (get node act_claim)
            ≡ ok out)
  unfolding walk
  walk-obj fuel seen identities node out h = elim (Bool-cases (any (eqb (object_id node)) seen)) [
    | inl again ↦ absurd (cc (rw again at h))
    | inr new ↦
        let (actor, named, rest) = >>=-eq-ok _ _ (rw new at h) in
        let (is_str, ne) = non_empty_str-eq-ok _ _ actor named in
        (actor, is_str, ne, ground arith, ground arith)
  ]

  -- What `walk` returns extends what it had by the identities of the claim.
  walk_sound :
      (fuel : ℕ) (seen : List ℕ) (identities : List String) (node : Value) (out : List String)
      → walk object_id fuel seen identities node ≡ ok out
      → length identities ≤ maximum_chain_depth
      → (rest : List String) × (out ≡ identities ++ rest)
        × Acts node rest
        × (length out ≤ maximum_chain_depth)
  unfolding walk
  walk_sound zero seen identities node out h fits = cc
  walk_sound (suc fuel) seen identities null out h fits =
      ([], cc (append-nil identities), done, ground arith)
  walk_sound (suc fuel) seen identities (obj node) out h fits =
      let (actor, named, ne, short, next) = walk-obj fuel seen identities node out h in
      let (rest, e, acts, bound) =
        walk_sound fuel (object_id node ∷ seen) (identities ++ actor ∷ []) (get node act_claim) out
          next short in
      (actor ∷ rest, e ∙ append_assoc identities (actor ∷ []) rest, hop named ne acts, bound)
  walk_sound (suc fuel) seen identities _ out h fits = cc

  abbrev IsAbove : Value → List ℕ → Type 0
  IsAbove v = All (λ i. (e : Fields) × (object_id e ≡ i) × (size v ≤ size_fields e))

  IsAbove-mono : (v w : Value) (seen : List ℕ) → size w ≤ size v → IsAbove v seen → IsAbove w seen
  IsAbove-mono v w [] le h = tt
  IsAbove-mono v w (i ∷ seen) le ((e, same, below), h) =
      ((e, same, omega arith), IsAbove-mono v w seen le h)

  not-seen :
      IsObjectId object_id
      → (node : Fields) (seen : List ℕ) → IsAbove (obj node) seen
      → any (eqb (object_id node)) seen ≡ false
  unfolding size
  not-seen law node [] h = refl
  not-seen law node (i ∷ seen) ((e, same, below), h) =
      ground (arith, law node e, not-seen law node seen h)

  walk-hop :
      (fuel : ℕ) (seen : List ℕ) (identities : List String) (node : Fields) (actor : String)
      → any (eqb (object_id node)) seen ≡ false
      → get node "sub" ≡ str actor
      → actor ≢ ""
      → length identities < maximum_chain_depth
      → walk object_id (suc fuel) seen identities (obj node)
        ≡ walk object_id fuel
            (object_id node ∷ seen)
            (identities ++ actor ∷ [])
            (get node act_claim)
  unfolding walk
  walk-hop fuel seen identities node actor new named ne fits =
      rw (new, non_empty_str_of _ _ actor named ne)
        (ground (arith, length-append identities (actor ∷ [])))

  -- Within the depth that can be read, `walk` reads every identity.
  walk_complete :
      IsObjectId object_id
      → (fuel : ℕ) (seen : List ℕ) (identities : List String) (node : Value) (rest : List String)
      → Acts node rest
      → IsAbove node seen
      → length identities + length rest ≤ maximum_chain_depth
      → length rest < fuel
      → walk object_id fuel seen identities node ≡ ok (identities ++ rest)
  unfolding walk
  walk_complete law zero seen identities node rest acts above fits enough = absurd (omega arith)
  walk_complete law (suc fuel) seen identities node rest done above fits enough =
      ap ok (sym (append-nil identities))
  walk_complete law (suc fuel) seen identities node rest
        (hop {node = d} {actor} {rest = more} named ne acts) above fits enough =
      walk-hop fuel seen identities d actor (not-seen law d seen above) named ne (omega arith)
      ∙ walk_complete law fuel (object_id d ∷ seen) (identities ++ actor ∷ []) (get d act_claim)
          more acts
          (
            (d, refl, size-get d act_claim),
            IsAbove-mono (obj d) (get d act_claim) seen (size-get-le-obj d act_claim) above,
          )
          (omega (arith, length-append identities (actor ∷ []))) (omega arith)
      ∙ ap ok (append_assoc identities (actor ∷ []) more)

  chain-eq-ok :
      (claims : Fields) (out : List String)
      → chain object_id claims ≡ ok out
      → (subject : String) × (get claims "sub" ≡ str subject)
        × (subject ≢ "")
        × (walk object_id
              (suc maximum_chain_depth)
              (object_id claims ∷ [])
              (subject ∷ [])
              (get claims act_claim)
            ≡ ok out)
  unfolding chain
  chain-eq-ok claims out h =
      let (subject, named, walked) =
        >>=-eq-ok (non_empty_str (get claims "sub") "token has no subject") _ h in
      let (is_str, ne) = non_empty_str-eq-ok _ _ subject named in (subject, is_str, ne, walked)

  -- A chain that is read is the subject and the identities that `act` nests.
  pub chain_sound :
      (claims : Fields) (out : List String)
      → chain object_id claims ≡ ok out
      → (subject : String) × (rest : List String) × (out ≡ subject ∷ rest)
        × (get claims "sub" ≡ str subject)
        × (subject ≢ "")
        × Acts (get claims act_claim) rest
        × (length rest < maximum_chain_depth)
  chain_sound claims out h =
      let (subject, is_str, ne, walked) = chain-eq-ok claims out h in
      let (rest, e, acts, bound) =
        walk_sound (suc maximum_chain_depth) (object_id claims ∷ []) (subject ∷ [])
          (get claims act_claim) out walked (omega arith) in
      (subject, rest, e, is_str, ne, acts, omega (arith, ap length e))

  -- If dictionaries with equal object identities have equal sizes: a chain is read exactly when
  -- the token has a non-empty subject and its `act` claim nests fewer than 32 identities; it is
  -- the subject, then those identities from the outermost in.
  pub chain_iff :
      IsObjectId object_id
      → (claims : Fields) (subject : String) (rest : List String)
      → (chain object_id claims ≡ ok (subject ∷ rest)) ↔ (
          (get claims "sub" ≡ str subject)
          × (subject ≢ "")
          × Acts (get claims act_claim) rest
          × (length rest < maximum_chain_depth))
  unfolding chain
  chain_iff law claims subject rest = (
    λ h.
        let (s, more, e, is_str, ne, acts, bound) = chain_sound claims (subject ∷ rest) h in
        let same = head-eq_of_cons-eq e in
        (
          is_str ∙ ap str (sym same),
          λ p. ne (sym same ∙ p),
          rw (tail-eq_of_cons-eq e) acts,
          rw (tail-eq_of_cons-eq e) bound,
        ),
    λ h.
        let (is_str, ne, acts, fits) = h in
        rw (non_empty_str_of _ _ subject is_str ne) (
          walk_complete law (suc maximum_chain_depth) (object_id claims ∷ []) (subject ∷ [])
            (get claims act_claim) rest acts ((claims, refl, size-get claims act_claim), tt)
            (omega arith) (omega arith)),
  )
