-- ===== src/Keys.antt =====
-- crypto/keys.py: the signing key as a public JWK, and its thumbprint.
pub mod Base64url
pub mod Published
pub mod Store
use agent_oauth_from_scratch.Shared.{
  ℕ, zero, suc, ◌*◌, ◌/◌, ◌%◌, ◌^◌, String, Bool, true, false, List, [], ◌∷◌, ◌++◌, ◌<>◌, ltb,
  if◌then◌else◌,
}
use agent_oauth_from_scratch.Outcome.{Outcome, ok, raised, uncaught, ◌>>=◌}
use agent_oauth_from_scratch.Value.{str, Fields, end, field}
use agent_oauth_from_scratch.Models.{SigningKey}
use agent_oauth_from_scratch.Platform.{Platform, PrivateKey, PublicKey}
use Base64url.{base64url}

abbrev pub coordinate_size : ℕ
coordinate_size = 32

-- the last bytes of a number, most significant first
low_bytes : ℕ → ℕ → List ℕ
low_bytes zero n = []
low_bytes (suc size) n = low_bytes size (n / 256) ++ n % 256 ∷ []

-- `n.to_bytes(size, "big")`, with its `OverflowError`
unfoldable pub to_bytes : ℕ → ℕ → Outcome (List ℕ)
unfolding low_bytes
to_bytes size n = if ltb n (256 ^ size) then ok (low_bytes size n) else raised uncaught

-- `_base64url(number.to_bytes(coordinate_size, "big"))`
unfoldable pub coordinate : ℕ → Outcome String
coordinate n = do bytes ← to_bytes coordinate_size n; ok (base64url bytes)

-- `json.dumps(..., sort_keys=True, separators=(",", ":"))` of the four members of a thumbprint; a
-- text in base64url needs no escape
abbrev pub canonical_jwk : String → String → String
canonical_jwk x y = "{\"crv\":\"P-256\",\"kty\":\"EC\",\"x\":\"" <> x <> "\",\"y\":\"" <> y <> "\"}"

-- the members of a public JWK
abbrev pub jwk_members : String → String → String → Fields
jwk_members x y kid = field "kty" (str "EC") (
    field "crv" (str "P-256") (
      field "x" (str x) (
        field "y" (str y)
          (field "kid" (str kid) (field "use" (str "sig") (field "alg" (str "ES256") end))))))

-- `SigningKey.public_jwk`, from the numbers of the public key
unfoldable pub jwk_of : PublicKey → String → Outcome Fields
jwk_of public_key kid = do
  x ← coordinate public_key.x
  y ← coordinate public_key.y
  ok (jwk_members x y kid)

module _ (platform : Platform) where
  -- `SigningKey.public_jwk`
  unfoldable pub public_jwk : SigningKey → Outcome Fields
  public_jwk key = jwk_of (platform.public_key key.private_key) key.kid

  -- `KeyStore._kid_for`; the digest of a text in UTF-8 is a parameter
  unfoldable pub kid_for : (String → List ℕ) → PrivateKey → Outcome String
  kid_for sha256 private_key = do
    let numbers = platform.public_key private_key
    x ← coordinate numbers.x
    y ← coordinate numbers.y
    ok (base64url (sha256 (canonical_jwk x y)))
