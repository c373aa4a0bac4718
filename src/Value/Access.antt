-- ===== src/Value/Access.antt =====
-- `d[name]` with its `KeyError`, and the values that the program reads as texts.
use agent_oauth_from_scratch.Shared.{ℕ, ◌≡◌, refl, ap, ◌↔◌, String, Option, none, some, arith}
use agent_oauth_from_scratch.Outcome.{Outcome, ok, raised, uncaught, ok-injective}
use agent_oauth_from_scratch.Value.{Value, str, instant, Fields, get, item}

abbrev pub item_or_key_error : Fields → String → Outcome Value
item_or_key_error d name = elim (item d name) [ none ↦ raised uncaught | some v ↦ ok v ]

-- a claim that is known to be a text where it is read
abbrev pub text_item : Fields → String → Outcome String
text_item d name = elim (get d name) [ str s ↦ ok s | _ ↦ raised uncaught ]

pub text_item_of : (d : Fields) (k s : String) → get d k ≡ str s → text_item d k ≡ ok s
text_item_of d k s h = ground arith

str-of_elim :
    (v : Value) (s : String)
    → ◌≡◌ {A = Outcome String} (elim v [ str t ↦ ok t | _ ↦ raised uncaught ]) (ok s)
    → v ≡ str s
str-of_elim (str t) s h = ap str (ok-injective h)
str-of_elim _ s h = absurd (cc h)

pub text_item_iff : (d : Fields) (k s : String) → (text_item d k ≡ ok s) ↔ (get d k ≡ str s)
text_item_iff d k s = (str-of_elim (get d k) s, text_item_of d k s)

some-of_elim :
    (o : Option Value) (v : Value)
    → ◌≡◌ {A = Outcome Value} (elim o [ none ↦ raised uncaught | some w ↦ ok w ]) (ok v)
    → o ≡ some v
some-of_elim none v h = absurd (cc h)
some-of_elim (some w) v h = ap some (ok-injective h)

pub item_or_key_error_iff :
    (d : Fields) (k : String) (v : Value) → (item_or_key_error d k ≡ ok v) ↔ (item d k ≡ some v)
item_or_key_error_iff d k v = (some-of_elim (item d k) v, λ h. rw (h, item_or_key_error) refl)

-- a claim that is known to be a `datetime` where it is read
abbrev pub instant_item : Fields → String → Outcome ℕ
instant_item d name = elim (get d name) [ instant t ↦ ok t | _ ↦ raised uncaught ]

-- `str(value)`
abbrev pub text_of : (Value → String) → Value → String
text_of str_of (str s) = s
text_of str_of v = str_of v
