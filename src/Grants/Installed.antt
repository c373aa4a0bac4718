-- ===== src/Grants/Installed.antt =====
-- The grant that a registry finds is one that is installed.
use agent_oauth_from_scratch.Shared.{
  ◌≡◌, refl, String, List, [], ◌∷◌, Bool-cases, inl, inr, eq_iff, ◌==◌,
}
use agent_oauth_from_scratch.Shared.Lists.{All}
use agent_oauth_from_scratch.Outcome.{ok, ok-injective}
use agent_oauth_from_scratch.Outcome.Polite.{IsPolite}
use agent_oauth_from_scratch.Grants
use agent_oauth_from_scratch.Grants.{GrantRegistry, find_grant}
use agent_oauth_from_scratch.Grants.Base.{Grant}

find_grant-All :
    (P : Grant → Type 0) (grants : List Grant) (grant_type : String) (grant : Grant)
    → All P grants
    → find_grant grants grant_type ≡ ok grant
    → (grant.grant_type ≡ grant_type) × P grant
unfolding find_grant
find_grant-All P [] grant_type grant ps h = absurd (cc h)
find_grant-All P (g ∷ grants) grant_type grant (p, ps) h =
    elim (Bool-cases (g.grant_type == grant_type)) [
      | inl same ↦ let e = ok-injective (rw same at h) in rw (← e) ((eq_iff _ _).0 same, p)
      | inr other ↦ find_grant-All P grants grant_type grant ps (rw other at h)
    ]

-- The grant that is found for a type has that type, and every property that all the installed grants
-- have.
pub get-All :
    (P : Grant → Type 0) (registry : GrantRegistry) (grant_type : String) (grant : Grant)
    → All P registry.grants
    → Grants.get registry grant_type ≡ ok grant
    → (grant.grant_type ≡ grant_type) × P grant
unfolding Grants.get
get-All P registry grant_type grant ps h = find_grant-All P registry.grants grant_type grant ps h

find_grant-IsPolite :
    (grants : List Grant) (grant_type : String) → IsPolite (find_grant grants grant_type)
unfolding find_grant
find_grant-IsPolite [] grant_type = refl
find_grant-IsPolite (g ∷ grants) grant_type = elim (Bool-cases (g.grant_type == grant_type)) [
  | inl same ↦ rw same tt
  | inr other ↦ rw other (find_grant-IsPolite grants grant_type)
]

pub get-IsPolite :
    (registry : GrantRegistry) (grant_type : String) → IsPolite (Grants.get registry grant_type)
unfolding Grants.get
get-IsPolite registry grant_type = find_grant-IsPolite registry.grants grant_type
