-- ===== src/Scopes.antt =====
-- services/scopes.py: parsing a scope parameter, and the intersection that every grant goes through.
pub mod Attenuation
pub mod Parsing
use agent_oauth_from_scratch.Shared.{
  String, Bool, Option, none, some, List, [], ◌∷◌, ◌++◌, if◌then◌else◌,
}
use agent_oauth_from_scratch.Shared.Lists.{contains, keep, all, any, is_empty}
use agent_oauth_from_scratch.Shared.Words.{split, is_blank}
use agent_oauth_from_scratch.Outcome.{Outcome, ok, refuse}

-- the loop over `value.split()`, with the list built so far
collect : List String → List String → List String
collect scopes [] = scopes
collect scopes (scope ∷ rest) =
    collect (if contains scopes scope then scopes else scopes ++ scope ∷ []) rest

unfoldable pub parse_scope : Option String → List String
unfolding collect split is_blank
parse_scope none = []
parse_scope (some value) = if is_blank value then [] else collect [] (split value)

-- `all(scope in ceiling for ceiling in ceilings)`
abbrev pub within : List (List String) → String → Bool
within ceilings scope = all (λ ceiling. contains ceiling scope) ceilings

abbrev pub granted_or_refused : List String → Outcome (List String)
granted_or_refused granted =
    if is_empty granted
    then refuse "invalid_scope" "none of the requested scopes are allowed" 400
    else ok granted

unfoldable pub attenuate : List String → List (List String) → Outcome (List String)
attenuate requested ceilings =
    if is_empty requested
    then ok []
    else if any is_empty ceilings
    then refuse "invalid_scope" "none of the requested scopes are allowed" 400
    else granted_or_refused (keep (within ceilings) requested)
