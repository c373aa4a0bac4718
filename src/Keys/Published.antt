-- ===== src/Keys/Published.antt =====
-- `SigningKey.public_jwk` of crypto/keys.py, against a reader of the published coordinates.
use agent_oauth_from_scratch.Shared.{
  ℕ, zero, suc, ◌+◌, ◌*◌, ◌/◌, ◌%◌, ◌^◌, ◌<◌, ◌≡◌, refl, ap, ◌∙◌, String, true, List, [], ◌∷◌, ◌++◌,
  ltb, arith,
}
use agent_oauth_from_scratch.Shared.Lists.{All, All-append}
use agent_oauth_from_scratch.Outcome.{ok}
use agent_oauth_from_scratch.Value.{null, str, Fields, get}
use agent_oauth_from_scratch.Platform.{PublicKey}
use agent_oauth_from_scratch.Keys.{
  coordinate_size, low_bytes, to_bytes, coordinate, jwk_members, jwk_of,
}
use agent_oauth_from_scratch.Keys.Base64url.{base64url}
use agent_oauth_from_scratch.Keys.Base64url.Decoding.{decode, decode-base64url}

-- `int.from_bytes(bytes, "big")`, behind a number
unfoldable pub from_bytes : ℕ → List ℕ → ℕ
from_bytes acc [] = acc
from_bytes acc (b ∷ bytes) = from_bytes (acc * 256 + b) bytes

lt→ltb : (a b : ℕ) → a < b → ltb a b ≡ true
lt→ltb a b h = ground arith

from_bytes-append :
    (acc : ℕ) (xs ys : List ℕ) → from_bytes acc (xs ++ ys) ≡ from_bytes (from_bytes acc xs) ys
unfolding from_bytes
from_bytes-append acc [] ys = refl
from_bytes-append acc (x ∷ xs) ys = from_bytes-append (acc * 256 + x) xs ys

low_bytes-small : (size n : ℕ) → All (λ b. b < 256) (low_bytes size n)
unfolding low_bytes
low_bytes-small zero n = tt
low_bytes-small (suc size) n =
    All-append (λ b. b < 256) (low_bytes size (n / 256)) (n % 256 ∷ [])
      (low_bytes-small size (n / 256)) (omega arith, tt)

pow_step : (size : ℕ) → 256 ^ suc size ≡ 256 ^ size * 256
pow_step size = omega arith

below_pow : (n p : ℕ) → n < p * 256 → n / 256 < p
below_pow n p h = omega arith

from_bytes-low_bytes : (size n : ℕ) → n < 256 ^ size → from_bytes 0 (low_bytes size n) ≡ n
unfolding low_bytes from_bytes
from_bytes-low_bytes zero n h = omega arith
from_bytes-low_bytes (suc size) n h =
    rw
      (
        from_bytes-append 0 (low_bytes size (n / 256)) (n % 256 ∷ []),
        from_bytes-low_bytes size (n / 256) (below_pow n (256 ^ size) (rw (← pow_step size) h)),
      )
      (omega arith)

to_bytes_fits : (size n : ℕ) → n < 256 ^ size → to_bytes size n ≡ ok (low_bytes size n)
unfolding to_bytes
to_bytes_fits size n h = rw (lt→ltb n (256 ^ size) h)

-- A coordinate that fits is published as a text that is read back as the same number.
coordinate_lem :
    (n : ℕ)
    → n < 256 ^ coordinate_size
    → (x : String) × (coordinate n ≡ ok x) × (from_bytes 0 (decode x) ≡ n)
unfolding coordinate
coordinate_lem n h =
    let bytes = low_bytes coordinate_size n in
    (
      base64url bytes,
      rw (to_bytes_fits coordinate_size n h),
      ap (from_bytes 0) (decode-base64url bytes (low_bytes-small coordinate_size n))
          ∙ from_bytes-low_bytes coordinate_size n h,
    )

-- If both coordinates of a public key are below 2^256, its JWK is made, its `x` and `y` decode to
-- the coordinates of that very point, it names the curve, the algorithm and the given key
-- identifier, and it has no private member `d`.
pub jwk_of-reads_back :
    (key : PublicKey) (kid : String)
    → key.x < 256 ^ coordinate_size
    → key.y < 256 ^ coordinate_size
    → (jwk : Fields) × (x : String) × (y : String) × (jwk_of key kid ≡ ok jwk)
      × (get jwk "x" ≡ str x)
      × (get jwk "y" ≡ str y)
      × (from_bytes 0 (decode x) ≡ key.x)
      × (from_bytes 0 (decode y) ≡ key.y)
      × (get jwk "crv" ≡ str "P-256")
      × (get jwk "alg" ≡ str "ES256")
      × (get jwk "kid" ≡ str kid)
      × (get jwk "d" ≡ null)
unfolding jwk_of get
jwk_of-reads_back key kid hx hy =
    let (x, made_x, back_x) = coordinate_lem key.x hx in
    let (y, made_y, back_y) = coordinate_lem key.y hy in
    (
      jwk_members x y kid,
      x,
      y,
      rw (made_x, made_y) refl,
      refl,
      refl,
      back_x,
      back_y,
      refl,
      refl,
      refl,
      refl,
    )
