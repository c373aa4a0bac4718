-- ===== src/Auth.antt =====
-- auth/: the contract of a client authentication method, and the registry that picks the one in use.
pub mod Base
pub mod SecretPost
pub mod Assertion
pub mod Clients
pub mod PrivateKeyJwt
pub mod Presented
use agent_oauth_from_scratch.Shared.{
  String, Bool, true, false, Option, none, some, List, [], ◌∷◌, map, ◌==◌, if◌then◌else◌,
}
use agent_oauth_from_scratch.Shared.Lists.{has_repeated}
use agent_oauth_from_scratch.Outcome.{Outcome, ok, raised, value, refuse, ◌>>=◌}
use Base.{PresentedCredential, ClientAuthMethod}
use agent_oauth_from_scratch.Forms.{TokenForm}

-- The installed methods, in the order of installation, by distinct names.
pub record ClientAuthRegistry : Type 0 where
  pub methods : List ClientAuthMethod

abbrev pub method_names : List ClientAuthMethod → List String
method_names [] = []
method_names (m ∷ methods) = m.name ∷ method_names methods

-- `ClientAuthRegistry(methods)`
unfoldable pub client_auth_registry : List ClientAuthMethod → Outcome ClientAuthRegistry
client_auth_registry methods =
    if has_repeated (method_names methods)
    then raised (value "client authentication method names must be unique")
    else ok (record { methods = methods })

-- `names`
unfoldable pub names : ClientAuthRegistry → List String
names registry = method_names registry.methods

abbrev Found : Type 0
Found = PresentedCredential × ClientAuthMethod

abbrev add_found : Option PresentedCredential → ClientAuthMethod → List Found → List Found
add_found none method found = found
add_found (some presented) method found = (presented, method) ∷ found

-- the list comprehension of `extract`
find_presented : List ClientAuthMethod → TokenForm → Outcome (List Found)
find_presented [] form = ok []
find_presented (method ∷ methods) form = do
  presented ← method.extract form
  found ← find_presented methods form
  ok (add_found presented method found)

exactly_one : List Found → Outcome Found
exactly_one [] = refuse "invalid_request" "missing required parameter: client_id" 400
exactly_one (one ∷ []) = ok one
exactly_one (one ∷ other ∷ found) =
    refuse "invalid_request" "client credentials must be presented exactly once" 400

-- `ClientAuthRegistry.extract`; no installed method reads the headers
unfoldable pub extract : ClientAuthRegistry → TokenForm → Outcome Found
unfolding find_presented exactly_one
extract registry form = do found ← find_presented registry.methods form; exactly_one found
