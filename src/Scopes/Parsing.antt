-- ===== src/Scopes/Parsing.antt =====
-- `parse_scope`: stable order, no scope twice, no empty scope, and a round trip through the text
-- that a token carries.
use agent_oauth_from_scratch.Shared.{
  String, ◌≡◌, refl, ap, sym, ◌∙◌, false, ◌||◌, Option, none, some, List, [], ◌∷◌, ◌++◌, arith,
  eq_iff, ◌==◌, Bool-cases, inl, inr,
}
use agent_oauth_from_scratch.Shared.Lists.{contains, contains-append, All, All-append, IsUnique}
use agent_oauth_from_scratch.Shared.Words.{
  split, join, is_blank, IsWord, split-IsWord, split-join, split_of_blank,
}
use agent_oauth_from_scratch.Scopes.{collect, parse_scope}
use mathlib.Core.List.{append_assoc, append-nil}

contains-collect :
    (acc ws : List String) (s : String)
    → contains (collect acc ws) s ≡ (contains acc s || contains ws s)
unfolding collect
contains-collect acc [] s = ground arith
contains-collect acc (w ∷ ws) s = elim (Bool-cases (w == s)) [
  | inl same ↦ ground (
    arith,
    contains-collect acc ws s,
    contains-collect (acc ++ w ∷ []) ws s,
    contains-append acc (w ∷ []) s,
    ap (contains acc) ((eq_iff w s).0 same),
  )
  | inr other ↦ ground (
    arith,
    contains-collect acc ws s,
    contains-collect (acc ++ w ∷ []) ws s,
    contains-append acc (w ∷ []) s,
  )
]

IsUnique-append_one :
    (acc : List String) (w : String)
    → contains acc w ≡ false
    → IsUnique acc
    → IsUnique (acc ++ w ∷ [])
IsUnique-append_one [] w h u = (refl, tt)
IsUnique-append_one (x ∷ acc) w h (fresh, u) =
    ground
      (arith, IsUnique-append_one acc w, contains-append acc (w ∷ []) x, eq_iff w x, eq_iff x w)

collect-IsUnique : (acc ws : List String) → IsUnique acc → IsUnique (collect acc ws)
unfolding collect
collect-IsUnique acc [] u = u
collect-IsUnique acc (w ∷ ws) u = elim (Bool-cases (contains acc w)) [
  | inl old ↦ rw old (collect-IsUnique acc ws u)
  | inr new ↦ rw new (collect-IsUnique (acc ++ w ∷ []) ws (IsUnique-append_one acc w new u))
]

collect-IsWord :
    (acc ws : List String) → All IsWord acc → All IsWord ws → All IsWord (collect acc ws)
unfolding collect
collect-IsWord acc [] h k = h
collect-IsWord acc (w ∷ ws) h (hw, k) = elim (Bool-cases (contains acc w)) [
  | inl old ↦ rw old (collect-IsWord acc ws h k)
  | inr new ↦
      rw new (collect-IsWord (acc ++ w ∷ []) ws (All-append IsWord acc (w ∷ []) h (hw, tt)) k)
]

fresh_of_IsUnique :
    (acc : List String) (w : String) (ws : List String)
    → IsUnique (acc ++ w ∷ ws)
    → contains acc w ≡ false
fresh_of_IsUnique [] w ws u = refl
fresh_of_IsUnique (x ∷ acc) w ws (fresh, u) =
    ground
      (arith, fresh_of_IsUnique acc w ws u, contains-append acc (w ∷ ws) x, eq_iff w x, eq_iff x w)

collect_of_IsUnique : (acc ws : List String) → IsUnique (acc ++ ws) → collect acc ws ≡ acc ++ ws
unfolding collect
collect_of_IsUnique acc [] u = rw append-nil
collect_of_IsUnique acc (w ∷ ws) u =
    rw (fresh_of_IsUnique acc w ws u)
      (collect_of_IsUnique (acc ++ w ∷ []) ws (rw append_assoc u) ∙ append_assoc acc (w ∷ []) ws)

-- The scopes are those that stand between the spaces of the text, each once, and none is empty or
-- holds a space.
pub parse_scope-IsWord :
    (value : String)
    → IsUnique (parse_scope (some value))
      × All IsWord (parse_scope (some value))
      × ((s : String) → contains (parse_scope (some value)) s ≡ contains (split value) s)
unfolding parse_scope
parse_scope-IsWord value = elim (Bool-cases (is_blank value)) [
  | inl blank ↦ rw (blank, split_of_blank value blank) (tt, tt, λ s. refl)
  | inr other ↦ rw other (
    collect-IsUnique [] (split value) tt,
    collect-IsWord [] (split value) tt (split-IsWord value),
    contains-collect [] (split value),
  )
]

-- Distinct words that are joined by spaces, as they are written into a token, are read back the
-- same.
pub parse_scope-join :
    (scopes : List String)
    → IsUnique scopes
    → All IsWord scopes
    → parse_scope (some (join scopes)) ≡ scopes
unfolding parse_scope
parse_scope-join scopes u h = elim (Bool-cases (is_blank (join scopes))) [
  | inl blank ↦ rw blank (sym (split_of_blank (join scopes) blank) ∙ split-join scopes h)
  | inr other ↦ rw (other, split-join scopes h) (collect_of_IsUnique [] scopes u)
]

-- The scopes that are read from an absent or a present parameter are words, each once.
pub parse_scope-words :
    (value : Option String) → IsUnique (parse_scope value) × All IsWord (parse_scope value)
unfolding parse_scope
parse_scope-words none = (tt, tt)
parse_scope-words (some value) = let (u, w, same) = parse_scope-IsWord value in (u, w)
