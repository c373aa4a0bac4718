-- ===== src/Delegation/Derivation.antt =====
-- `nest` and `declared_depth` of services/delegation.py: a derived token and the token that it came from.
use agent_oauth_from_scratch.Shared.{
  ℕ, ◌+◌, ◌<◌, String, ◌≡◌, refl, ◌≢◌, ◌↔◌, sym, ap, ◌∙◌, List, ◌∷◌, arith,
}
use agent_oauth_from_scratch.Shared.Lists.{length}
use agent_oauth_from_scratch.Outcome.{ok, >>=-eq-ok, ok-injective}
use agent_oauth_from_scratch.Value.{Value, null, int, str, obj, Fields, get, put, pos}
use agent_oauth_from_scratch.Delegation.{
  non_empty_str, chain, act_claim, depth_claim, maximum_chain_depth, nest, depth, declared_depth,
  nest_under, agrees, declared_as,
}
use agent_oauth_from_scratch.Delegation.Chain.{
  Acts, done, hop, IsObjectId, non_empty_str-eq-ok, non_empty_str_of, chain_iff, chain_sound,
}

nest_under-eq-ok :
    (existing : Value) (subject : String) (act : Fields)
    → nest_under existing (Fields.field "sub" (str subject) Fields.end) ≡ ok act
    → (get act "sub" ≡ str subject) × (get act act_claim ≡ existing)
unfolding nest_under get put
nest_under-eq-ok null subject act h = rw (← ok-injective h) (refl, refl)
nest_under-eq-ok (obj d) subject act h = rw (← ok-injective h) (refl, refl)
nest_under-eq-ok _ subject act h = cc

-- `nest` records the subject of the token, and under it the whole chain that the token carries.
pub nest-eq-ok :
    (claims act : Fields)
    → nest claims ≡ ok act
    → (subject : String) × (get claims "sub" ≡ str subject)
      × (subject ≢ "")
      × (get act "sub" ≡ str subject)
      × (get act act_claim ≡ get claims act_claim)
unfolding nest
nest-eq-ok claims act h =
    let (subject, named, built) =
      >>=-eq-ok (non_empty_str (get claims "sub") "subject token has no subject") _ h in
    let (is_str, ne) = non_empty_str-eq-ok _ _ subject named in
    let (sub, under) = nest_under-eq-ok (get claims act_claim) subject act built in
    (subject, is_str, ne, sub, under)

nest_under-Acts :
    (existing : Value) (identities : List String) (new_act : Fields)
    → Acts existing identities
    → (act : Fields) × (nest_under existing new_act ≡ ok act)
unfolding nest_under
nest_under-Acts existing identities new_act done = (new_act, refl)
nest_under-Acts existing identities new_act (hop {node} named ne acts) =
    (put new_act act_claim (obj node), refl)

-- A token whose chain can be read can be nested.
pub nest-of_chain :
    (object_id : Fields → ℕ) (claims : Fields) (identities : List String)
    → chain object_id claims ≡ ok identities
    → (act : Fields) × (nest claims ≡ ok act)
unfolding nest
nest-of_chain object_id claims identities read =
    let (subject, rest, e, is_str, ne, acts, short) =
      chain_sound object_id claims identities read in
    let (act, built) =
      nest_under-Acts (get claims act_claim) rest (Fields.field "sub" (str subject) Fields.end)
        acts in
    (act, rw (non_empty_str_of _ _ subject is_str ne) built)

module _ (object_id : Fields → ℕ) (law : IsObjectId object_id) where
  -- If dictionaries with equal object identities have equal sizes: a token that has a non-empty
  -- subject and the nested claims of another token under `act` has that token's chain behind
  -- its own subject, if that chain has fewer than 32 identities.
  pub chain-nest :
      (claims derived act : Fields) (identities : List String) (actor : String)
      → chain object_id claims ≡ ok identities
      → nest claims ≡ ok act
      → get derived "sub" ≡ str actor
      → actor ≢ ""
      → get derived act_claim ≡ obj act
      → length identities < maximum_chain_depth
      → chain object_id derived ≡ ok (actor ∷ identities)
  chain-nest claims derived act identities actor read nested named ne under fits =
      let (subject, rest, e, is_str, subject_ne, acts, short) =
        chain_sound object_id claims identities read in
      let (s, s_named, s_ne, act_sub, act_act) = nest-eq-ok claims act nested in
      rw e (
        (chain_iff object_id law derived actor (subject ∷ rest)).1 (
          named,
          ne,
          rw under (hop (act_sub ∙ sym s_named ∙ is_str) subject_ne (rw act_act acts)),
          omega (arith, ap length e),
        ))

  agrees-eq-ok :
      (declared : ℕ) (claims : Fields) (n : ℕ)
      → agrees object_id declared claims ≡ ok n
      → (identities : List String) × (declared ≡ n)
        × (chain object_id claims ≡ ok identities)
        × (length identities ≡ n + 1)
  unfolding agrees depth
  agrees-eq-ok declared claims n h =
      let (hops, counted, same) = >>=-eq-ok (depth object_id claims) _ h in
      let (identities, read, e) = >>=-eq-ok (chain object_id claims) _ counted in
      let (subject, rest, split, is_str, ne, acts, short) =
        chain_sound object_id claims identities read in
      (identities, ground arith, read, ground (arith, ok-injective e, ap length split))

  declared_as-eq-ok :
      (v : Value) (claims : Fields) (n : ℕ)
      → declared_as object_id v claims ≡ ok n
      → (identities : List String) × (v ≡ int (pos n))
        × (chain object_id claims ≡ ok identities)
        × (length identities ≡ n + 1)
  unfolding declared_as
  declared_as-eq-ok (int (pos declared)) claims n h =
      let (identities, same, read, count) = agrees-eq-ok declared claims n h in
      (identities, ap (λ k. int (pos k)) same, read, count)
  declared_as-eq-ok null claims n h = cc
  declared_as-eq-ok _ claims n h = cc

  -- If dictionaries with equal object identities have equal sizes: a declared depth is accepted
  -- exactly when the claim is that number, and the chain can be read and has that many hops.
  pub declared_depth_iff :
      (claims : Fields) (n : ℕ)
      → (declared_depth object_id claims ≡ ok n) ↔ (
          (identities : List String) × (get claims depth_claim ≡ int (pos n))
          × (chain object_id claims ≡ ok identities)
          × (length identities ≡ n + 1))
  unfolding declared_depth agrees depth declared_as
  declared_depth_iff claims n = (
    declared_as-eq-ok (get claims depth_claim) claims n,
    λ (identities, declared, read, count). rw (declared, read) (ground arith),
  )

  -- If dictionaries with equal object identities have equal sizes: a token that has a non-empty
  -- subject, the nested claims of another token under `act` and one hop more than that token
  -- declares, is accepted with that depth, as long as it is below 32.
  pub declared_depth-nest :
      (claims derived act : Fields) (n : ℕ) (actor : String)
      → declared_depth object_id claims ≡ ok n
      → nest claims ≡ ok act
      → get derived "sub" ≡ str actor
      → actor ≢ ""
      → get derived act_claim ≡ obj act
      → get derived depth_claim ≡ int (pos (n + 1))
      → n + 1 < maximum_chain_depth
      → declared_depth object_id derived ≡ ok (n + 1)
  declared_depth-nest claims derived act n actor declared nested named ne under counted fits =
      let (identities, said, read, count) = (declared_depth_iff claims n).0 declared in
      (declared_depth_iff derived (n + 1)).1 (
        actor ∷ identities,
        counted,
        chain-nest claims derived act identities actor read nested named ne under (omega arith),
        omega arith,
      )
