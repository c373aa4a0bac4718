-- ===== src/Examples/Claims.antt =====
-- The chain of holders, the declared depth, and scopes.
use agent_oauth_from_scratch.Shared.{◌<◌, ◌≡◌, ◌≢◌, ◌↔◌, refl, String, ◌&&◌, List, [], ◌∷◌}
use agent_oauth_from_scratch.Shared.Lists.{contains, length}
use agent_oauth_from_scratch.Outcome.{ok}
use agent_oauth_from_scratch.Value.{int, pos, str, get, put, size_fields}
use agent_oauth_from_scratch.Delegation.{chain, depth, declared_depth, nest}
use agent_oauth_from_scratch.Delegation.Chain.{Acts, chain_iff}
use agent_oauth_from_scratch.Delegation.Totality.{IsAnswered, chain_total}
use agent_oauth_from_scratch.Delegation.Derivation.{declared_depth_iff}
use agent_oauth_from_scratch.Scopes.{attenuate, within}
use agent_oauth_from_scratch.Scopes.Attenuation.{contains-attenuate}
use agent_oauth_from_scratch.Examples.Data.{subject_claims, derived_claims, act}

read : chain size_fields subject_claims ≡ ok ("planner" ∷ "user" ∷ [])
unfolding chain get size_fields
read = refl

declared : declared_depth size_fields subject_claims ≡ ok 1
unfolding declared_depth depth chain get size_fields
declared = refl

nested : nest subject_claims ≡ ok act
unfolding nest get put
nested = refl

chain_total_example : IsAnswered (chain size_fields derived_claims)
chain_total_example = chain_total size_fields derived_claims

chain_iff_example : (chain size_fields derived_claims ≡ ok ("worker" ∷ "planner" ∷ "user" ∷ [])) ↔ (
    (get derived_claims "sub" ≡ str "worker")
    × (◌≢◌ {A = String} "worker" "")
    × Acts (get derived_claims "act") ("planner" ∷ "user" ∷ [])
    × (length {A = String} ("planner" ∷ "user" ∷ []) < 32))
chain_iff_example =
    chain_iff size_fields (λ a b same. same) derived_claims "worker" ("planner" ∷ "user" ∷ [])

declared_depth_iff_example : (declared_depth size_fields subject_claims ≡ ok 1) ↔ (
    (identities : List String) × (get subject_claims "delegation_depth" ≡ int (pos 1))
    × (chain size_fields subject_claims ≡ ok identities)
    × (length identities ≡ 2))
declared_depth_iff_example = declared_depth_iff size_fields (λ a b same. same) subject_claims 1

abbrev asked : List String
asked = "read" ∷ "write" ∷ []

abbrev ceiling : List (List String)
ceiling = ("read" ∷ "send" ∷ []) ∷ []

cut : attenuate asked ceiling ≡ ok ("read" ∷ [])
unfolding attenuate
cut = refl

contains-attenuate_example :
    contains ("read" ∷ []) "write" ≡ (contains asked "write" && within ceiling "write")
contains-attenuate_example = contains-attenuate asked ceiling ("read" ∷ []) cut "write"
