-- ===== src/Metadata/Honest.antt =====
-- The server advertises what is installed, whatever the deployment adds to the document.
use agent_oauth_from_scratch.Shared.{
  ◌≡◌, refl, sym, ap, ◌∙◌, String, true, false, List, [], ◌∷◌, arith,
}
use agent_oauth_from_scratch.Shared.Lists.{contains, keep, is_empty, contains-keep}
use agent_oauth_from_scratch.Shared.Sorting.{sorted}
use agent_oauth_from_scratch.Outcome.{ok, ok-injective}
use agent_oauth_from_scratch.Exec
use agent_oauth_from_scratch.Value.{null, str, arr, Fields, get, has, update}
use agent_oauth_from_scratch.Value.Laws.{get-update, IsDict}
use agent_oauth_from_scratch.Auth
use agent_oauth_from_scratch.Config.{Settings, checked_settings, url_for, derived_metadata_keys}
use agent_oauth_from_scratch.Grants
use agent_oauth_from_scratch.Models.{SigningKey}
use agent_oauth_from_scratch.Platform.{Platform}
use agent_oauth_from_scratch.Routes.{
  Server, create_app, default_grant_registry, default_client_auth_registry,
}
use agent_oauth_from_scratch.Storage.{Database, all_clients}
use agent_oauth_from_scratch.Value.Json.{texts}
use agent_oauth_from_scratch.Metadata.{
  derived_document, add_metadata, authorization_server_metadata,
}

no_element : (names : List String) (k : String) → is_empty names ≡ true → contains names k ≡ false
no_element [] k h = refl
no_element (n ∷ names) k h = absurd (cc h)

undeclared :
    (d : Fields) (names : List String) (k : String)
    → is_empty (keep (has d) names) ≡ true
    → contains names k ≡ true
    → has d k ≡ false
undeclared d names k none_kept named =
    ground (arith, contains-keep (has d) names k, no_element (keep (has d) names) k none_kept)

-- The overlay of settings that were accepted declares no derived key.
overlay_of_checked :
    (s t : Settings)
    → checked_settings s ≡ ok t
    → is_empty (keep (has s.metadata_overlay) derived_metadata_keys) ≡ true
unfolding checked_settings
overlay_of_checked s t h = ground arith

module _ (settings : Settings) (checked : checked_settings settings ≡ ok settings)
    (named_once : IsDict settings.metadata_overlay) where
  -- A derived member of the document is the program's, whatever the overlay is.
  derived_kept :
      (base : Fields) (k : String)
      → contains derived_metadata_keys k ≡ true
      → get (update base settings.metadata_overlay) k ≡ get base k
  derived_kept base k derived =
      let absent =
        undeclared settings.metadata_overlay derived_metadata_keys k
          (overlay_of_checked settings settings checked) derived in
      get-update base settings.metadata_overlay k named_once ∙ rw absent refl

  -- If the settings were accepted and their overlay names each key once, a discovery document
  -- of a server made with the default grants and methods has the issuer and the token endpoint
  -- of the settings, advertises the two installed grants, no response type and the two
  -- installed client authentication methods, and has no introspection endpoint, no revocation
  -- endpoint, no code challenge method and no DPoP algorithm.
  pub metadata-advertises :
      (platform : Platform) (signing_key : SigningKey) (server : Server)
      → create_app platform settings signing_key ≡ ok server
      → (db : Database) (document : Fields)
      → (authorization_server_metadata platform settings server.grants server.auth_methods db).0
        ≡ ok document
      → (get document "issuer" ≡ str settings.issuer)
        × (get document "token_endpoint" ≡ str (url_for settings "/oauth/token"))
        × (get document "grant_types_supported"
            ≡ arr (
                texts
                  ("client_credentials" ∷ "urn:ietf:params:oauth:grant-type:token-exchange" ∷ [])))
        × (get document "response_types_supported" ≡ arr (texts []))
        × (get document "token_endpoint_auth_methods_supported"
            ≡ arr (texts ("client_secret_post" ∷ "private_key_jwt" ∷ [])))
        × (get document "introspection_endpoint" ≡ null)
        × (get document "revocation_endpoint" ≡ null)
        × (get document "code_challenge_methods_supported" ≡ null)
        × (get document "dpop_signing_alg_values_supported" ≡ null)
  unfolding create_app default_grant_registry default_client_auth_registry Grants.grant_registry
      Auth.client_auth_registry authorization_server_metadata derived_document add_metadata get
      update Grants.grant_types Grants.response_types Auth.names sorted
  metadata-advertises platform signing_key server made db document h =
      let same = ok-injective made in
      let (clients, read, run) = Exec.>>=-eq-ok (all_clients platform.collates) _ db h in
      let is_document = ok-injective (sym h ∙ ap (λ r. r.0) run) in
      rw (is_document, ← same)
        (
          derived_kept _ "issuer" refl,
          derived_kept _ "token_endpoint" refl,
          derived_kept _ "grant_types_supported" refl,
          derived_kept _ "response_types_supported" refl,
          derived_kept _ "token_endpoint_auth_methods_supported" refl,
          derived_kept _ "introspection_endpoint" refl,
          derived_kept _ "revocation_endpoint" refl,
          derived_kept _ "code_challenge_methods_supported" refl,
          derived_kept _ "dpop_signing_alg_values_supported" refl,
        )
