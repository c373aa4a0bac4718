-- ===== src/Storage/Keyed.antt =====
-- The keys of the tables, and what the statements that put a row do to them.
use agent_oauth_from_scratch.Shared.{
  ◌≡◌, refl, sym, ap, ◌∙◌, String, Bool, true, false, ◌&&◌, ◌||◌, List, [], ◌∷◌, ◌==◌, arith,
  eq_iff, Bool-cases, inl, inr,
}
use agent_oauth_from_scratch.Shared.Lists.{All, any, keep}
use agent_oauth_from_scratch.Models.{RegisteredClient, ClientKey}
use agent_oauth_from_scratch.Storage.{IssuanceRecord, Replay, put_client, put_key}

-- The rows of a table have different keys.
abbrev pub IsKeyed : {A : Type 0} → (A → A → Bool) → List A → Type 0
IsKeyed same [] = Unit
IsKeyed same (row ∷ rows) = (any (same row) rows ≡ false) × IsKeyed same rows

abbrev pub same_client : RegisteredClient → RegisteredClient → Bool
same_client a b = b.client_id == a.client_id

abbrev pub same_key : ClientKey → ClientKey → Bool
same_key a b = b.client_id == a.client_id && b.kid == a.kid

abbrev pub same_jti : IssuanceRecord → IssuanceRecord → Bool
same_jti a b = b.jti == a.jti

abbrev pub same_use : Replay → Replay → Bool
same_use a b = b.client_id == a.client_id && b.jti == a.jti

module _ {A : Type 0} (same : A → A → Bool) where
  any-keep :
      (p : A → Bool) (row : A) (rows : List A)
      → any (same row) rows ≡ false
      → any (same row) (keep p rows) ≡ false
  any-keep p row [] h = refl
  any-keep p row (x ∷ rows) h = elim (Bool-cases (p x)) [
    | inl kept ↦ rw kept (ground (arith, any-keep p row rows (ground arith)))
    | inr dropped ↦ rw dropped (any-keep p row rows (ground arith))
  ]

  pub keep-IsKeyed : (p : A → Bool) (rows : List A) → IsKeyed same rows → IsKeyed same (keep p rows)
  keep-IsKeyed p [] h = tt
  keep-IsKeyed p (x ∷ rows) (new, h) = elim (Bool-cases (p x)) [
    | inl kept ↦ rw kept (any-keep p x rows new, keep-IsKeyed p rows h)
    | inr dropped ↦ rw dropped (keep-IsKeyed p rows h)
  ]

-- which clients a table has, after a row is put
any-put_client :
    (rows : List RegisteredClient) (new : RegisteredClient) (client_id : String)
    → any (λ (row : RegisteredClient). row.client_id == client_id) (put_client rows new) ≡ (
        new.client_id == client_id
        || any (λ (row : RegisteredClient). row.client_id == client_id) rows)
unfolding put_client
any-put_client [] new client_id = refl
any-put_client (row ∷ rows) new client_id = ground (
  arith,
  eq_iff row.client_id new.client_id,
  eq_iff row.client_id client_id,
  eq_iff new.client_id client_id,
  any-put_client rows new client_id,
)

pub put_client-IsKeyed :
    (rows : List RegisteredClient) (new : RegisteredClient)
    → IsKeyed same_client rows
    → IsKeyed same_client (put_client rows new)
unfolding put_client
put_client-IsKeyed [] new h = (refl, tt)
put_client-IsKeyed (row ∷ rows) new (fresh, h) =
    elim (Bool-cases (row.client_id == new.client_id)) [
      | inl same ↦ rw same (
        ap (λ (s : String). any (λ (r : RegisteredClient). r.client_id == s) rows)
              (sym ((eq_iff row.client_id new.client_id).0 same))
            ∙ fresh,
        h,
      )
      | inr other ↦ rw other (
        any-put_client rows new row.client_id
            ∙ ground (
              arith,
              other,
              fresh,
              eq_iff row.client_id new.client_id,
              eq_iff new.client_id row.client_id,
            ),
        put_client-IsKeyed rows new h,
      )
    ]

-- which keys a table has, after a row is put
any-put_key :
    (rows : List ClientKey) (new other : ClientKey)
    → any (same_key other) (put_key rows new) ≡ (same_key other new || any (same_key other) rows)
unfolding put_key
any-put_key [] new other = refl
any-put_key (row ∷ rows) new other = ground (
  arith,
  eq_iff row.client_id new.client_id,
  eq_iff row.client_id other.client_id,
  eq_iff new.client_id other.client_id,
  eq_iff row.kid new.kid,
  eq_iff row.kid other.kid,
  eq_iff new.kid other.kid,
  any-put_key rows new other,
)

both :
    (a b : ClientKey)
    → (a.client_id == b.client_id && a.kid == b.kid) ≡ true
    → (a.client_id ≡ b.client_id) × (a.kid ≡ b.kid)
both a b h = ground (arith, eq_iff a.client_id b.client_id, eq_iff a.kid b.kid)

pub put_key-IsKeyed :
    (rows : List ClientKey) (new : ClientKey)
    → IsKeyed same_key rows
    → IsKeyed same_key (put_key rows new)
unfolding put_key
put_key-IsKeyed [] new h = (refl, tt)
put_key-IsKeyed (row ∷ rows) new (fresh, h) =
    elim (Bool-cases (row.client_id == new.client_id && row.kid == new.kid)) [
      | inl same ↦ let (owner, name) = both row new same in rw same (rw (← owner, ← name) fresh, h)
      | inr other ↦ rw other (
        any-put_key rows new row
            ∙ ground (
              arith,
              other,
              fresh,
              eq_iff row.client_id new.client_id,
              eq_iff new.client_id row.client_id,
              eq_iff row.kid new.kid,
              eq_iff new.kid row.kid,
            ),
        put_key-IsKeyed rows new h,
      )
    ]

-- Every owner that a table of keys needs is there.
abbrev pub IsOwned : List RegisteredClient → ClientKey → Type 0
IsOwned clients key =
    any (λ (row : RegisteredClient). row.client_id == key.client_id) clients ≡ true

pub put_key-All :
    (Good : ClientKey → Type 0) (rows : List ClientKey) (new : ClientKey)
    → All Good rows
    → Good new
    → All Good (put_key rows new)
unfolding put_key
put_key-All Good [] new h good = (good, tt)
put_key-All Good (row ∷ rows) new (here, h) good =
    elim (Bool-cases (row.client_id == new.client_id && row.kid == new.kid)) [
      | inl same ↦ rw same (good, h)
      | inr other ↦ rw other (here, put_key-All Good rows new h good)
    ]

pub IsOwned-put_client :
    (clients : List RegisteredClient) (new : RegisteredClient) (keys : List ClientKey)
    → All (IsOwned clients) keys
    → All (IsOwned (put_client clients new)) keys
IsOwned-put_client clients new [] h = tt
IsOwned-put_client clients new (key ∷ keys) (here, h) = (
  ground (arith, any-put_client clients new key.client_id),
  IsOwned-put_client clients new keys h,
)
