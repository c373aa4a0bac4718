-- ===== src/Routes/KeySet.antt =====
-- The key set that a server publishes, against the tokens that it signs.
use agent_oauth_from_scratch.Shared.{◌<◌, ◌^◌, ◌≡◌, refl, String}
use agent_oauth_from_scratch.Outcome.{ok}
use agent_oauth_from_scratch.Value.{str, null, arr, obj, nil, cons, Fields, end, field, get}
use agent_oauth_from_scratch.Keys.{coordinate_size, public_jwk}
use agent_oauth_from_scratch.Keys.Base64url.Decoding.{decode}
use agent_oauth_from_scratch.Keys.Published.{from_bytes, jwk_of-reads_back}
use agent_oauth_from_scratch.Platform.{PublicKey}
use agent_oauth_from_scratch.Routes.{Server}
use agent_oauth_from_scratch.Routes.Discovery.{get_jwks}
use agent_oauth_from_scratch.Tokens.{algorithm, token_header}

abbrev pub server_key : Server → PublicKey
server_key server = server.platform.public_key server.signing_key.private_key

-- If both coordinates of the server's public key are below 2^256, the key set that the server
-- publishes has one key: its `x` and `y` decode to the coordinates of that point, it names the
-- algorithm and the key identifier that the header of every minted token has, and it has no
-- private member `d`.
pub get_jwks-reads_back :
    (server : Server)
    → (server_key server).x < 256 ^ coordinate_size
    → (server_key server).y < 256 ^ coordinate_size
    → (jwk : Fields) × (x : String) × (y : String) × (get_jwks server
        ≡ ok (field "keys" (arr (cons (obj jwk) nil)) end))
      × (get jwk "x" ≡ str x)
      × (get jwk "y" ≡ str y)
      × (from_bytes 0 (decode x) ≡ (server_key server).x)
      × (from_bytes 0 (decode y) ≡ (server_key server).y)
      × (get jwk "alg" ≡ str algorithm)
      × (get jwk "kid" ≡ get (token_header server.signing_key) "kid")
      × (get jwk "d" ≡ null)
unfolding get_jwks public_jwk get
get_jwks-reads_back server hx hy =
    let (jwk, x, y, made, has_x, has_y, back_x, back_y, crv, alg, kid, private) =
      jwk_of-reads_back (server_key server) server.signing_key.kid hx hy in
    (jwk, x, y, rw made refl, has_x, has_y, back_x, back_y, alg, kid, private)
