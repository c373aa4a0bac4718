-- ===== src/Routes/Discovery.antt =====
-- The handlers of api/routes.py that only read: the root, the key set and the discovery document.
use agent_oauth_from_scratch.Outcome.{Outcome, ok, ◌>>=◌}
use agent_oauth_from_scratch.Exec.{Exec}
use agent_oauth_from_scratch.Value.{str, arr, obj, nil, cons, Fields, end, field}
use agent_oauth_from_scratch.Keys.{public_jwk}
use agent_oauth_from_scratch.Metadata.{authorization_server_metadata}
use agent_oauth_from_scratch.Routes.{Server}
use agent_oauth_from_scratch.Storage.{Database}

-- `read_root`
abbrev pub read_root : Fields
read_root = field "service" (str "agent-oauth-authorization-server") end

-- `get_jwks`
unfoldable pub get_jwks : Server → Outcome Fields
get_jwks server = do
  jwk ← public_jwk server.platform server.signing_key
  ok (field "keys" (arr (cons (obj jwk) nil)) end)

-- `get_oauth_authorization_server`
unfoldable pub get_oauth_authorization_server : Server → Exec Database Fields
get_oauth_authorization_server server =
    authorization_server_metadata server.platform server.settings server.grants server.auth_methods
