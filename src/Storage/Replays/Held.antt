-- ===== src/Storage/Replays/Held.antt =====
-- storage/repositories.py: an identifier of an assertion that stands in the table, under every
-- statement.
use agent_oauth_from_scratch.Shared.{
  ℕ, ◌≤◌, String, ◌≡◌, refl, ap, ◌∙◌, ◌⊎◌, ◌||◌, true, false, arith, Bool-cases, inl, inr, eq_iff,
  ◌==◌, List,
}
use agent_oauth_from_scratch.Shared.Lists.{any}
use agent_oauth_from_scratch.Outcome.{ok}
use agent_oauth_from_scratch.Models.{active, suspended, RegisteredClient, ClientKey}
use agent_oauth_from_scratch.Storage.{
  Database, Replay, IssuanceRecord, is_claimed, claim, record_issuance, upsert_client, add_key,
}
use agent_oauth_from_scratch.Storage.Moves.{reads, claimed, Moves, uses, recorded}
use agent_oauth_from_scratch.Storage.Replays.{IsHeld, IsHeld-claim, holds, any-imp}

record_issuance-client_assertion_jti :
    (row : IssuanceRecord) (db : Database)
    → (record_issuance row db).1.client_assertion_jti ≡ db.client_assertion_jti
unfolding record_issuance
record_issuance-client_assertion_jti row db =
    elim (Bool-cases (any (λ (old : IssuanceRecord). old.jti == row.jti) db.issued_credentials)) [
      | inl old ↦ rw old
      | inr new ↦ rw new
    ]

upsert_client-client_assertion_jti :
    (client : RegisteredClient) (db : Database)
    → (upsert_client client db).1.client_assertion_jti ≡ db.client_assertion_jti
unfolding upsert_client
upsert_client-client_assertion_jti client db =
    elim (Bool-cases (client.status == active || client.status == suspended)) [
      | inl known ↦ rw known
      | inr unknown ↦ rw unknown
    ]

add_key-client_assertion_jti :
    (key : ClientKey) (db : Database)
    → (add_key key db).1.client_assertion_jti ≡ db.client_assertion_jti
unfolding add_key
add_key-client_assertion_jti key db =
    elim (Bool-cases
      (any (λ (row : RegisteredClient). row.client_id == key.client_id) db.clients)) [
        | inl owned ↦ rw owned
        | inr alone ↦ rw alone
      ]

module _ (limit : ℕ) (client_id jti : String) where
  is_claimed-held :
      (db : Database)
      → IsHeld limit client_id jti db
      → is_claimed db.client_assertion_jti client_id jti ≡ true
  unfolding IsHeld
  is_claimed-held db held =
      any-imp (holds limit client_id jti) _ db.client_assertion_jti (λ row p. ground arith) held

  -- The step takes the identifier, which was free.
  abbrev pub IsWon : Database → Database → Type 0
  IsWon before after = (IsHeld limit client_id jti before → ⊥) × IsHeld limit client_id jti after

  pub claim-IsWon :
      (expires_at : ℕ) (db : Database)
      → limit ≤ expires_at
      → ((claim client_id jti expires_at db).0 ≡ ok false)
        ⊎ IsWon db (claim client_id jti expires_at db).1
  unfolding claim IsHeld
  claim-IsWon expires_at db lasts =
      elim (Bool-cases (is_claimed db.client_assertion_jti client_id jti)) [
        | inl old ↦ inl (rw old refl)
        | inr new ↦ inr (
          λ held. cc (new, is_claimed-held db held),
          rw new
              (ground (arith, lasts, (eq_iff client_id client_id).1 refl, (eq_iff jti jti).1 refl)),
        )
      ]

  IsHeld-same :
      (before after : Database)
      → after.client_assertion_jti ≡ before.client_assertion_jti
      → IsHeld limit client_id jti before
      → IsHeld limit client_id jti after
  unfolding IsHeld
  IsHeld-same before after same h =
      ap (λ (rows : List Replay). any (holds limit client_id jti) rows) same ∙ h

  pub Moves-IsHeld :
      (db after : Database)
      → Moves db after
      → IsHeld limit client_id jti db
      → IsHeld limit client_id jti after
  Moves-IsHeld db _ (uses reads) h = h
  Moves-IsHeld db _ (uses (claimed id name expires_at)) h =
      IsHeld-claim limit client_id jti
        (record { client_id = id; jti = name; expires_at = expires_at }) db h
  Moves-IsHeld db _ (recorded row) h =
      IsHeld-same db _ (record_issuance-client_assertion_jti row db) h

  pub upsert_client-IsHeld :
      (client : RegisteredClient) (db : Database)
      → IsHeld limit client_id jti db
      → IsHeld limit client_id jti (upsert_client client db).1
  upsert_client-IsHeld client db h =
      IsHeld-same db _ (upsert_client-client_assertion_jti client db) h

  pub add_key-IsHeld :
      (key : ClientKey) (db : Database)
      → IsHeld limit client_id jti db
      → IsHeld limit client_id jti (add_key key db).1
  add_key-IsHeld key db h = IsHeld-same db _ (add_key-client_assertion_jti key db) h
