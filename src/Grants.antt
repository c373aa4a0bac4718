-- ===== src/Grants.antt =====
-- grants/__init__.py: the registry of installed grants.
pub mod Base
pub mod ClientCredentials
pub mod Exchange
pub mod TokenExchange
pub mod Lineage
pub mod Installed
use Base.{Grant}
use agent_oauth_from_scratch.Shared.{
  String, Bool, true, false, List, [], ◌∷◌, ◌++◌, ◌==◌, if◌then◌else◌,
}
use agent_oauth_from_scratch.Shared.Lists.{has_repeated}
use agent_oauth_from_scratch.Outcome.{Outcome, ok, raised, value, refuse}

pub record GrantRegistry : Type 0 where
  pub grants : List Grant

abbrev pub type_names : List Grant → List String
type_names [] = []
type_names (g ∷ grants) = g.grant_type ∷ type_names grants

-- `GrantRegistry(grants)`
unfoldable pub grant_registry : List Grant → Outcome GrantRegistry
grant_registry grants =
    if has_repeated (type_names grants)
    then raised (value "grant types must be unique")
    else ok (record { grants = grants })

find_grant : List Grant → String → Outcome Grant
find_grant [] grant_type = refuse "unsupported_grant_type" "grant type is not supported" 400
find_grant (g ∷ grants) grant_type =
    if g.grant_type == grant_type then ok g else find_grant grants grant_type

-- `get`
unfoldable pub get : GrantRegistry → String → Outcome Grant
unfolding find_grant
get registry grant_type = find_grant registry.grants grant_type

-- `grant_types`
unfoldable pub grant_types : GrantRegistry → List String
grant_types registry = type_names registry.grants

all_response_types : List Grant → List String
all_response_types [] = []
all_response_types (g ∷ grants) = g.response_types ++ all_response_types grants

-- `response_types`
unfoldable pub response_types : GrantRegistry → List String
unfolding all_response_types
response_types registry = all_response_types registry.grants
