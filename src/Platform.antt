-- ===== src/Platform.antt =====
-- What the program calls and does not implement: PyJWT, `cryptography`, argon2, CPython's object
-- identities and its order of sets, and the collation of the database. They are parameters, in one
-- record. The laws that a theorem needs of them are records of their own below.
use agent_oauth_from_scratch.Shared.{ℕ, String, Bool, Option, List}
use agent_oauth_from_scratch.Value.{Value, Fields}

-- The numbers of a P-256 key of the `cryptography` package.
pub record PrivateKey : Type 0 where
  pub scalar : ℕ

pub record PublicKey : Type 0 where
  pub x : ℕ
  pub y : ℕ

-- The keyword arguments of `jwt.decode`: `issuer`, `audience` and `options`.
pub record Checks : Type 0 where
  pub algorithms : List String
  pub issuer : Option String
  pub audience : Option String
  pub required : List String
  pub verify_aud : Bool

pub record Platform : Type 0 where
  -- CPython's `id` of a dictionary
  pub object_id : Fields → ℕ
  -- `datetime.fromtimestamp` of a float, in microseconds since year 1; `none` if it raises
  pub float_timestamp : ℕ → Option ℕ
  -- `private_key.public_key()`
  pub public_key : PrivateKey → PublicKey
  -- `jwt.get_unverified_header(token)`; `none` for an `InvalidTokenError`
  pub unverified_header : String → Option Fields
  -- `jwt.decode(token, options={"verify_signature": False})`
  pub unverified_claims : String → Option Fields
  -- `jwt.decode(token, key, ...)` at a time; `none` for an `InvalidTokenError`
  pub decode : ℕ → PublicKey → Checks → String → Option Fields
  -- `jwt.encode(claims, key, algorithm=..., headers=...)`
  pub encode : Fields → PrivateKey → String → Fields → String
  -- `jwt.PyJWK.from_dict(jwk).key`; `none` for a `PyJWKError`
  pub jwk_key : Fields → Option PublicKey
  -- `PasswordHasher().verify(hash, secret)`: `some false` for an exception that the program catches,
  -- `none` for one that it does not, as for a hash that argon2 cannot read
  pub argon_verify : String → String → Option Bool
  -- the placeholder hash that the program computes at import
  pub absent_secret_hash : String
  -- `str(value)` of a value that is no text
  pub str_of : Value → String
  -- the order in which a set of these texts is iterated
  pub set_order : List String → List String
  -- whether the database sorts one text before another
  pub collates : String → String → Bool

-- What one request reads from the clock and from the generator of random texts, each by its place in
-- the program, so that two readings may differ.
pub record Draws : Type 0 where
  -- the clock: PyJWT on the client assertion, the program on it, PyJWT on the two tokens, the minter
  pub assertion_verified_at : ℕ
  pub assertion_checked_at : ℕ
  pub subject_verified_at : ℕ
  pub actor_verified_at : ℕ
  pub minted_at : ℕ
  -- `secrets.token_urlsafe(12)` of a root grant, `secrets.token_urlsafe(24)` of the minter
  pub task_id : String
  pub jti : String
