-- ===== src/Keys/Base64url/Decoding.antt =====
-- A decoder of unpadded base64url text, and its round trip.
use agent_oauth_from_scratch.Shared.{
  ℕ, zero, suc, ◌+◌, ◌*◌, ◌/◌, ◌%◌, ◌<◌, String, Bool, true, false, List, [], ◌∷◌, ◌&&◌, eqb,
  if◌then◌else◌, ◌≡◌, refl, ap, ◌∙◌, arith,
}
use agent_oauth_from_scratch.Shared.Lists.{All, all}
use agent_oauth_from_scratch.Keys.Base64url.{
  alphabet, digit, urlsafe_b64encode, keep_unless_last, rstrip_padding, base64url,
}
use Prim.Native.Char.{Char, code}

-- The place of a character in a text; the length of the text if it does not stand there.
pub place_in : String → Char → ℕ
place_in String.[] c = 0
place_in (String.◌∷◌ d s) c = if eqb (code d) (code c) then 0 else suc (place_in s c)

pub value_of : Char → ℕ
unfolding place_in
value_of c = place_in alphabet c

-- The bytes of an unpadded text; a single digit that is left over is no byte.
unfoldable pub decode : String → List ℕ
unfolding value_of
decode String.[] = []
decode (String.◌∷◌ p String.[]) = []
decode (String.◌∷◌ p (String.◌∷◌ q String.[])) = (value_of p * 4 + value_of q / 16) ∷ []
decode (String.◌∷◌ p (String.◌∷◌ q (String.◌∷◌ r String.[]))) =
    (value_of p * 4 + value_of q / 16) ∷ (value_of q % 16 * 16 + value_of r / 4) ∷ []
decode (String.◌∷◌ p (String.◌∷◌ q (String.◌∷◌ r (String.◌∷◌ t s)))) =
    (value_of p * 4 + value_of q / 16)
    ∷ (value_of q % 16 * 16 + value_of r / 4)
    ∷ (value_of r % 4 * 64 + value_of t)
    ∷ decode s

-- the numbers below a bound, the largest first
numbers : ℕ → List ℕ
numbers zero = []
numbers (suc bound) = bound ∷ numbers bound

-- What a test finds of each number below a bound.
all-numbers :
    (test : ℕ → Bool) (bound value : ℕ)
    → value < bound
    → all test (numbers bound) ≡ true
    → test value ≡ true
unfolding numbers
all-numbers test zero value small found = absurd (omega arith)
all-numbers test (suc bound) value small found = ground (arith, all-numbers test bound value)

is_digit : ℕ → Bool
is_digit n = eqb (value_of (digit n)) n && (if eqb (code (digit n)) b'=' then false else true)

digits_table : all is_digit (numbers 64) ≡ true
unfolding numbers is_digit value_of digit
digits_table = refl

value_of-digit : (n : ℕ) → n < 64 → value_of (digit n) ≡ n
unfolding is_digit
value_of-digit n h = ground (arith, all-numbers is_digit 64 n h digits_table)

digit_no_padding : (n : ℕ) → n < 64 → eqb (code (digit n)) b'=' ≡ false
unfolding is_digit
digit_no_padding n h = ground (arith, all-numbers is_digit 64 n h digits_table)

keep_unless_last_lem :
    (c : Char) (s : String) → eqb (code c) b'=' ≡ false → keep_unless_last c s ≡ String.◌∷◌ c s
unfolding keep_unless_last
keep_unless_last_lem c String.[] h = rw h
keep_unless_last_lem c (String.◌∷◌ d s) h = refl

strip_digit :
    (n : ℕ) (s : String)
    → n < 64
    → rstrip_padding (String.◌∷◌ (digit n) s) ≡ String.◌∷◌ (digit n) (rstrip_padding s)
unfolding rstrip_padding
strip_digit n s h = keep_unless_last_lem (digit n) (rstrip_padding s) (digit_no_padding n h)

strip_two :
    (m n : ℕ)
    → m < 64
    → n < 64
    → rstrip_padding (String.◌∷◌ (digit m) (String.◌∷◌ (digit n) "=="))
      ≡ String.◌∷◌ (digit m) (String.◌∷◌ (digit n) "")
unfolding rstrip_padding keep_unless_last
strip_two m n hm hn =
    strip_digit m (String.◌∷◌ (digit n) "==") hm ∙ ap (String.◌∷◌ (digit m)) (strip_digit n "==" hn)

strip_three :
    (m n k : ℕ)
    → m < 64
    → n < 64
    → k < 64
    → rstrip_padding (String.◌∷◌ (digit m) (String.◌∷◌ (digit n) (String.◌∷◌ (digit k) "=")))
      ≡ String.◌∷◌ (digit m) (String.◌∷◌ (digit n) (String.◌∷◌ (digit k) ""))
unfolding rstrip_padding keep_unless_last
strip_three m n k hm hn hk =
    strip_digit m (String.◌∷◌ (digit n) (String.◌∷◌ (digit k) "=")) hm
    ∙ ap (String.◌∷◌ (digit m)) (
        strip_digit n (String.◌∷◌ (digit k) "=") hn
        ∙ ap (String.◌∷◌ (digit n)) (strip_digit k "=" hk))

strip_four :
    (m n k l : ℕ) (s : String)
    → m < 64
    → n < 64
    → k < 64
    → l < 64
    → rstrip_padding (
        String.◌∷◌ (digit m) (String.◌∷◌ (digit n) (String.◌∷◌ (digit k) (String.◌∷◌ (digit l) s))))
      ≡ String.◌∷◌
          (digit m)
          (String.◌∷◌ (digit n) (String.◌∷◌ (digit k) (String.◌∷◌ (digit l) (rstrip_padding s))))
strip_four m n k l s hm hn hk hl =
    strip_digit m _ hm
    ∙ ap (String.◌∷◌ (digit m)) (
        strip_digit n _ hn
        ∙ ap (String.◌∷◌ (digit n))
            (strip_digit k _ hk ∙ ap (String.◌∷◌ (digit k)) (strip_digit l s hl)))

-- Bytes that are encoded without padding are decoded to themselves.
pub decode-base64url :
    (bytes : List ℕ) → All (λ b. b < 256) bytes → decode (base64url bytes) ≡ bytes
unfolding decode base64url urlsafe_b64encode
decode-base64url [] h = refl
decode-base64url (a ∷ []) h =
    rw (strip_two (a / 4) (a % 4 * 16) (omega arith) (omega arith))
      (ground (arith, value_of-digit (a / 4), value_of-digit (a % 4 * 16)))
decode-base64url (a ∷ b ∷ []) h =
    rw
      (strip_three (a / 4) (a % 4 * 16 + b / 16) (b % 16 * 4) (omega arith) (omega arith)
        (omega arith))
      (ground (
        arith,
        value_of-digit (a / 4),
        value_of-digit (a % 4 * 16 + b / 16),
        value_of-digit (b % 16 * 4),
      ))
decode-base64url (a ∷ b ∷ c ∷ bytes) h =
    rw
      (strip_four (a / 4) (a % 4 * 16 + b / 16) (b % 16 * 4 + c / 64) (c % 64)
        (urlsafe_b64encode bytes) (omega arith) (omega arith) (omega arith) (omega arith))
      (ground (
        arith,
        value_of-digit (a / 4),
        value_of-digit (a % 4 * 16 + b / 16),
        value_of-digit (b % 16 * 4 + c / 64),
        value_of-digit (c % 64),
        decode-base64url bytes h.1.1.1,
      ))
