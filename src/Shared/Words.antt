-- ===== src/Shared/Words.antt =====
-- `str.split()`, `str.strip()` and `" ".join(...)`.
use agent_oauth_from_scratch.Shared.Tests.{◌==◌, ◌<>◌, if◌then◌else◌, Bool-cases, ne→==, leb, eqb}
use agent_oauth_from_scratch.Shared.Lists.{All}
use Prim.Native.Nat.{ℕ}
use Prim.Native.Char.{Char, code}
use Prim.Native.String.{String}
use mathlib.Core.Path.{◌≡◌, refl, ap}
use mathlib.Core.Logic.{◌≢◌, inl, inr}
use mathlib.Core.Bool.{Bool, true, false, ◌&&◌, ◌||◌}
use mathlib.Core.List.{List, [], ◌∷◌}
use native.Mathlib.Omega.{arith}
use text.Mathlib.TextEquality.{eq_iff}
use text.Mathlib.TextLemmas.{nil-append, cons-append, append-nil}

-- `str.isspace` of one character, by its code point
unfoldable pub is_space : ℕ → Bool
is_space c =
    (leb 9 c && leb c 13)
    || (leb 28 c && leb c 32)
    || (eqb c 0x85 || eqb c 0xa0 || eqb c 0x1680)
    || (leb 0x2000 c && leb c 0x200a)
    || (eqb c 0x2028 || eqb c 0x2029 || eqb c 0x202f || eqb c 0x205f || eqb c 0x3000)

-- `not s.strip()`
unfoldable pub is_blank : String → Bool
unfolding is_space
is_blank String.[] = true
is_blank (String.◌∷◌ c s) = is_space (code c) && is_blank s

abbrev flush : String → List String → List String
flush w ws = if w == "" then ws else w ∷ ws

-- The characters up to the first space, and the words behind them.
abbrev break_at : Bool → Char → String × List String → String × List String
break_at true c (w, ws) = ("", flush w ws)
break_at false c (w, ws) = (String.◌∷◌ c w, ws)

break_word : String → String × List String
break_word String.[] = ("", [])
break_word (String.◌∷◌ c s) = break_at (is_space (code c)) c (break_word s)

-- `s.split()`
unfoldable pub split : String → List String
unfolding break_word is_space
split s = let (w, ws) = break_word s in flush w ws

-- `" ".join(words)`
unfoldable pub join : List String → String
join [] = ""
join (w ∷ []) = w
join (w ∷ v ∷ ws) = w <> " " <> join (v ∷ ws)

-- `", ".join(names)`
unfoldable pub comma_separated : List String → String
comma_separated [] = ""
comma_separated (n ∷ []) = n
comma_separated (n ∷ m ∷ names) = n <> ", " <> comma_separated (m ∷ names)

abbrev pub NoSpace : String → Type 0
NoSpace String.[] = Unit
NoSpace (String.◌∷◌ c s) = (is_space (code c) ≡ false) × NoSpace s

-- A text that `split` returns: not empty, and without a space.
abbrev pub IsWord : String → Type 0
IsWord w = (w ≢ "") × NoSpace w

flush-IsWord : (w : String) (ws : List String) → NoSpace w → All IsWord ws → All IsWord (flush w ws)
flush-IsWord w ws n h = ground (arith, eq_iff w "")

break_word-IsWord : (s : String) → NoSpace (break_word s).0 × All IsWord (break_word s).1
unfolding break_word
break_word-IsWord String.[] = (tt, tt)
break_word-IsWord (String.◌∷◌ c s) =
    let (n, h) = break_word-IsWord s in
    elim (Bool-cases (is_space (code c))) [
      | inl space ↦ rw space (tt, flush-IsWord (break_word s).0 (break_word s).1 n h)
      | inr other ↦ rw other ((other, n), h)
    ]

pub split-IsWord : (s : String) → All IsWord (split s)
unfolding split
split-IsWord s =
    let (n, h) = break_word-IsWord s in flush-IsWord (break_word s).0 (break_word s).1 n h

break_word-append :
    (w s : String) → NoSpace w → break_word (w <> s) ≡ (w <> (break_word s).0, (break_word s).1)
unfolding break_word
break_word-append String.[] s n = rw (nil-append, nil-append)
break_word-append (String.◌∷◌ c w) s (other, n) =
    rw (cons-append, cons-append, break_word, other, break_word-append w s n)

break_word_of_NoSpace : (w : String) → NoSpace w → break_word w ≡ (w, [])
unfolding break_word
break_word_of_NoSpace String.[] n = refl
break_word_of_NoSpace (String.◌∷◌ c w) (other, n) =
    rw (break_word, other, break_word_of_NoSpace w n)

break_word-space :
    (s : String) → break_word (" " <> s) ≡ ("", flush (break_word s).0 (break_word s).1)
unfolding break_word is_space
break_word-space s = rw (cons-append " " "" s, nil-append s)

split-join_from :
    (w : String) (ws : List String)
    → IsWord w
    → All IsWord ws
    → break_word (join (w ∷ ws)) ≡ (w, ws)
unfolding join
split-join_from w [] (ne, n) h = break_word_of_NoSpace w n
split-join_from w (v ∷ ws) (ne, n) (hv, h) =
    rw (break_word-append w (" " <> join (v ∷ ws)) n, break_word-space, split-join_from v ws hv h)
      (rw (append-nil w, ne→== v "" hv.0))

-- What is joined by single spaces is split into the same words.
pub split-join : (ws : List String) → All IsWord ws → split (join ws) ≡ ws
unfolding split join break_word
split-join [] h = refl
split-join (w ∷ ws) (hw, h) = rw (split-join_from w ws hw h, ne→== w "" hw.0)

break_word_of_blank : (s : String) → is_blank s ≡ true → break_word s ≡ ("", [])
unfolding break_word is_blank
break_word_of_blank String.[] h = refl
break_word_of_blank (String.◌∷◌ c s) h = elim (Bool-cases (is_space (code c))) [
  | inl space ↦ rw (break_word, space, break_word_of_blank s (ground arith))
  | inr other ↦ cc (ap (λ (b : Bool). b && is_blank s) other, h)
]

-- A blank text has no words.
pub split_of_blank : (s : String) → is_blank s ≡ true → split s ≡ []
unfolding split
split_of_blank s h = rw (break_word_of_blank s h)
