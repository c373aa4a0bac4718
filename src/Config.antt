-- ===== src/Config.antt =====
-- config.py: the settings and what their constructor refuses. The environment and the TOML file of
-- the overlay are inputs: the values that they give.
use agent_oauth_from_scratch.Shared.{
  ℕ, String, Bool, false, List, [], ◌∷◌, not, ◌||◌, ◌&&◌, ◌==◌, ◌<>◌, leb, eqb,
}
use agent_oauth_from_scratch.Shared.Lists.{keep, is_empty}
use agent_oauth_from_scratch.Shared.Words.{comma_separated}
use agent_oauth_from_scratch.Outcome.{Outcome, ok, value, guard, ◌>>◌}
use agent_oauth_from_scratch.Value.{Fields, has, ℤ, pos, negsuc}
use Prim.Native.Char.{code}

-- in sorted order
abbrev pub derived_metadata_keys : List String
derived_metadata_keys =
    "code_challenge_methods_supported" ∷ "dpop_signing_alg_values_supported"
    ∷ "grant_types_supported" ∷ "introspection_endpoint" ∷ "issuer" ∷ "jwks_uri"
    ∷ "response_types_supported" ∷ "revocation_endpoint" ∷ "scopes_supported" ∷ "token_endpoint"
    ∷ "token_endpoint_auth_methods_supported" ∷ []

pub record Settings : Type 0 where
  pub issuer : String
  pub key_directory : String
  pub resource_audience : String
  pub access_token_ttl_seconds : ℤ
  pub database_url : String
  pub max_delegation_depth : ℤ
  pub metadata_overlay : Fields

-- `issuer.endswith("/")`
unfoldable pub ends_with_slash : String → Bool
ends_with_slash String.[] = false
ends_with_slash (String.◌∷◌ c String.[]) = eqb (code c) b'/'
ends_with_slash (String.◌∷◌ c (String.◌∷◌ d s)) = ends_with_slash (String.◌∷◌ d s)

-- `1 <= n <= most`
abbrev pub between_one_and : ℕ → ℤ → Bool
between_one_and most (pos n) = leb 1 n && leb n most
between_one_and most (negsuc n) = false

-- `Settings(...)` with its `__post_init__`
unfoldable pub checked_settings : Settings → Outcome Settings
unfolding ends_with_slash
checked_settings s =
    let declared = keep (has s.metadata_overlay) derived_metadata_keys in
    do
      guard (not (s.issuer == "" || ends_with_slash s.issuer))
          (value "issuer must be a non-empty URL without a trailing slash")
      guard (not (s.resource_audience == "")) (value "resource_audience must not be empty")
      guard (not (s.database_url == "")) (value "database_url must not be empty")
      guard (between_one_and 10 s.max_delegation_depth)
          (value "max_delegation_depth must be between 1 and 10")
      guard (between_one_and 3600 s.access_token_ttl_seconds)
          (value "access_token_ttl_seconds must be between 1 and 3600")
      guard (is_empty declared) (
          value ("the metadata overlay may not declare a capability: " <> comma_separated declared))
      ok s

-- `url_for`
abbrev pub url_for : Settings → String → String
url_for s path = s.issuer <> path
