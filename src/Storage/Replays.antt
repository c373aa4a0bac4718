-- ===== src/Storage/Replays.antt =====
-- `AssertionReplayRepository`: an identifier is claimed once.
pub mod Held
use agent_oauth_from_scratch.Shared.{
  ℕ, ◌+◌, ◌≤◌, String, ◌≡◌, refl, Bool, true, false, ◌&&◌, List, [], ◌∷◌, arith, eq_iff, ◌==◌,
  if◌then◌else◌, Bool-cases, inl, inr, leb, ◌≢◌, ◌⊎◌,
}
use agent_oauth_from_scratch.Shared.Lists.{All, any, keep}
use agent_oauth_from_scratch.Outcome.{Outcome, ok, raised}
use agent_oauth_from_scratch.Storage.{Database, Replay, is_claimed, claim, purge_expired}

-- One request, of any server, that claims an identifier.
pub record Attempt : Type 0 where
  pub client_id : String
  pub jti : String
  pub expires_at : ℕ

abbrev pub is_attempt : Attempt → String → String → Bool
is_attempt a client_id jti = a.client_id == client_id && a.jti == jti

-- What any of the servers does to the table, in the order in which the database does it.
data Event : Type 0 where
  attempt : Attempt → Event
  purge : ℕ → Event

won : Outcome Bool → ℕ
won (ok true) = 1
won _ = 0

won-cases : (r : Outcome Bool) → (won r ≡ 0) ⊎ (won r ≡ 1)
unfolding won
won-cases (ok true) = inr refl
won-cases (ok false) = inl refl
won-cases (raised e) = inl refl

-- How many of the attempts win this identifier.
wins : String → String → List Event → Database → ℕ
unfolding won claim purge_expired
wins client_id jti [] db = 0
wins client_id jti (attempt a ∷ events) db =
    let (result, db') = claim a.client_id a.jti a.expires_at db in
    (if is_attempt a client_id jti then won result else 0) + wins client_id jti events db'
wins client_id jti (purge now ∷ events) db = wins client_id jti events (purge_expired now db).1

-- Attempts on this identifier last at least until `limit`, and no purge runs after it.
abbrev IsBefore : ℕ → String → String → Event → Type 0
IsBefore limit client_id jti (attempt a) = is_attempt a client_id jti ≡ true → limit ≤ a.expires_at
IsBefore limit client_id jti (purge now) = now ≤ limit

-- A row that holds the identifier until `limit` stands in the table.
abbrev pub holds : ℕ → String → String → Replay → Bool
holds limit client_id jti row =
    (row.client_id == client_id && row.jti == jti) && leb limit row.expires_at

unfoldable pub IsHeld : ℕ → String → String → Database → Type 0
IsHeld limit client_id jti db = any (holds limit client_id jti) db.client_assertion_jti ≡ true

any-keep {ℓ} :
    {A : Type ℓ} (p q : A → Bool) (xs : List A)
    → ((x : A) → p x ≡ true → q x ≡ true)
    → any p xs ≡ true
    → any p (keep q xs) ≡ true
any-keep p q [] imp h = h
any-keep p q (x ∷ xs) imp h = ground (arith, imp x, any-keep p q xs imp)

any-imp {ℓ} :
    {A : Type ℓ} (p q : A → Bool) (xs : List A)
    → ((x : A) → p x ≡ true → q x ≡ true)
    → any p xs ≡ true
    → any q xs ≡ true
any-imp p q [] imp h = h
any-imp p q (x ∷ xs) imp h = ground (arith, imp x, any-imp p q xs imp)

module _ (limit : ℕ) (client_id jti : String) where
  pub IsHeld-purge :
      (now : ℕ) (db : Database)
      → now ≤ limit
      → IsHeld limit client_id jti db
      → IsHeld limit client_id jti (purge_expired now db).1
  unfolding IsHeld purge_expired
  IsHeld-purge now db early h =
      any-keep (holds limit client_id jti) _ db.client_assertion_jti (λ row p. ground arith) h

  pub IsHeld-claim :
      (a : Attempt) (db : Database)
      → IsHeld limit client_id jti db
      → IsHeld limit client_id jti (claim a.client_id a.jti a.expires_at db).1
  unfolding IsHeld claim
  IsHeld-claim a db h = ground arith

  -- A held identifier is not won.
  claim-held :
      (a : Attempt) (db : Database)
      → IsHeld limit client_id jti db
      → is_attempt a client_id jti ≡ true
      → won (claim a.client_id a.jti a.expires_at db).0 ≡ 0
  unfolding IsHeld claim won
  claim-held a db h same =
      let same_client = (eq_iff a.client_id client_id).0 (ground arith) in
      let same_jti = (eq_iff a.jti jti).0 (ground arith) in
      let claimed : is_claimed db.client_assertion_jti a.client_id a.jti ≡ true =
        rw (same_client, same_jti)
          (any-imp (holds limit client_id jti) _ db.client_assertion_jti (λ row p. ground arith)
            h) in
      rw claimed

  -- An identifier that is won is held.
  IsHeld-won :
      (a : Attempt) (db : Database)
      → is_attempt a client_id jti ≡ true
      → limit ≤ a.expires_at
      → won (claim a.client_id a.jti a.expires_at db).0 ≢ 0
      → IsHeld limit client_id jti (claim a.client_id a.jti a.expires_at db).1
  unfolding IsHeld claim won
  IsHeld-won a db same lasts h =
      elim (Bool-cases (is_claimed db.client_assertion_jti a.client_id a.jti)) [
        | inl old ↦ absurd (h (rw old))
        | inr new ↦ rw new (ground arith)
      ]

  wins_of_held :
      (events : List Event) (db : Database)
      → All (IsBefore limit client_id jti) events
      → IsHeld limit client_id jti db
      → wins client_id jti events db ≡ 0
  unfolding wins
  wins_of_held [] db h held = refl
  wins_of_held (attempt a ∷ events) db (b, h) held = ground (
    arith,
    claim-held a db held,
    IsHeld-claim a db held,
    wins_of_held events (claim a.client_id a.jti a.expires_at db).1 h,
  )
  wins_of_held (purge now ∷ events) db (b, h) held =
      wins_of_held events (purge_expired now db).1 h (IsHeld-purge now db b held)

  -- In any order of attempts and purges, at most one attempt wins an identifier, if every
  -- attempt on it lasts until a limit and no purge runs at a time after that limit.
  wins-le-one :
      (events : List Event) (db : Database)
      → All (IsBefore limit client_id jti) events
      → wins client_id jti events db ≤ 1
  unfolding wins
  wins-le-one [] db h = omega arith
  wins-le-one (attempt a ∷ events) db (b, h) =
      let db' = (claim a.client_id a.jti a.expires_at db).1 in
      let later = wins-le-one events db' h in
      elim (Bool-cases (is_attempt a client_id jti)) [
        | inr other ↦ rw other (omega (arith, later))
        | inl same ↦ elim (won-cases (claim a.client_id a.jti a.expires_at db).0) [
          | inl lost ↦ rw (same, lost) (omega (arith, later))
          | inr first ↦
              let held = IsHeld-won a db same (b same) (λ e. absurd (omega (arith, e, first))) in
              rw (same, first) (omega (arith, wins_of_held events db' h held))
        ]
      ]
  wins-le-one (purge now ∷ events) db (b, h) = wins-le-one events (purge_expired now db).1 h
