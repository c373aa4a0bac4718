-- ===== src/Keys/Base64url.antt =====
-- `_base64url` of crypto/keys.py, and the standard library's encoder below it.
pub mod Decoding
use agent_oauth_from_scratch.Shared.{
  ℕ, zero, suc, ◌+◌, ◌*◌, ◌/◌, ◌%◌, String, Bool, true, false, Option, none, some, List, [], ◌∷◌,
  ◌&&◌, eqb, if◌then◌else◌,
}
use Prim.Native.Char.{Char, code}
use Prim.Native.String

-- the alphabet of `base64.urlsafe_b64encode`, in the order of its values
abbrev pub alphabet : String
alphabet = "ABCDEFGHIJKLMNOPQRSTUVWXYZabcdefghijklmnopqrstuvwxyz0123456789-_"

-- A character of a text, by its place; past the end, the padding.
pub char_at : String → ℕ → Char
char_at String.[] n = "="
char_at (String.◌∷◌ c s) zero = c
char_at (String.◌∷◌ c s) (suc n) = char_at s n

digit : ℕ → Char
unfolding char_at
digit n = char_at alphabet n

-- `base64.urlsafe_b64encode`, as a text of ASCII characters: three bytes are four digits, and the
-- last group is filled up with `=`
urlsafe_b64encode : List ℕ → String
unfolding digit
urlsafe_b64encode [] = ""
urlsafe_b64encode (a ∷ []) = String.◌∷◌ (digit (a / 4)) (String.◌∷◌ (digit (a % 4 * 16)) "==")
urlsafe_b64encode (a ∷ b ∷ []) =
    String.◌∷◌ (digit (a / 4))
      (String.◌∷◌ (digit (a % 4 * 16 + b / 16)) (String.◌∷◌ (digit (b % 16 * 4)) "="))
urlsafe_b64encode (a ∷ b ∷ c ∷ bytes) = String.◌∷◌ (digit (a / 4)) (
    String.◌∷◌ (digit (a % 4 * 16 + b / 16)) (
      String.◌∷◌ (digit (b % 16 * 4 + c / 64))
        (String.◌∷◌ (digit (c % 64)) (urlsafe_b64encode bytes))))

-- a character in front of what is left of the rest
keep_unless_last : Char → String → String
keep_unless_last c String.[] = if eqb (code c) b'=' then "" else String.◌∷◌ c ""
keep_unless_last c (String.◌∷◌ d s) = String.◌∷◌ c (String.◌∷◌ d s)

-- `value.rstrip(b"=")`
rstrip_padding : String → String
unfolding keep_unless_last
rstrip_padding String.[] = ""
rstrip_padding (String.◌∷◌ c s) = keep_unless_last c (rstrip_padding s)

-- `_base64url`
unfoldable pub base64url : List ℕ → String
unfolding urlsafe_b64encode rstrip_padding
base64url bytes = rstrip_padding (urlsafe_b64encode bytes)
