-- ===== src/Storage/Consistency.antt =====
-- The databases that the statements of storage/repositories.py reach, and the constraints of the schema.
use agent_oauth_from_scratch.Shared.{ℕ, String, ◌||◌, not, ◌==◌, ltb, Bool-cases, inl, inr}
use agent_oauth_from_scratch.Shared.Lists.{All, any}
use agent_oauth_from_scratch.Models.{active, suspended, RegisteredClient, ClientKey}
use agent_oauth_from_scratch.Storage.{
  Database, no_rows, IssuanceRecord, client_row, upsert_client, record_issuance, add_key,
  is_claimed, claim, purge_expired,
}
use agent_oauth_from_scratch.Storage.Keyed.{
  IsKeyed, same_client, same_key, same_jti, same_use, IsOwned, keep-IsKeyed, put_client-IsKeyed,
  put_key-IsKeyed, put_key-All, IsOwned-put_client,
}

-- Every statement that writes, and nothing else, takes one database to the next.
pub data Reaches : Database → Type 0 where
  empty : Reaches no_rows
  upserts :
      {db : Database} (client : RegisteredClient) → Reaches db → Reaches (upsert_client client db).1
  records : {db : Database} (row : IssuanceRecord) → Reaches db → Reaches (record_issuance row db).1
  adds : {db : Database} (key : ClientKey) → Reaches db → Reaches (add_key key db).1
  claims :
      {db : Database} (client_id jti : String) (expires_at : ℕ)
      → Reaches db
      → Reaches (claim client_id jti expires_at db).1
  purges : {db : Database} (now : ℕ) → Reaches db → Reaches (purge_expired now db).1

-- The constraints of the schema: the primary keys, and the foreign key of the clients' keys.
pub record IsConsistent (db : Database) : Type 0 where
  pub clients_keyed : IsKeyed same_client db.clients
  pub keys_keyed : IsKeyed same_key db.client_keys
  pub credentials_keyed : IsKeyed same_jti db.issued_credentials
  pub uses_keyed : IsKeyed same_use db.client_assertion_jti
  pub keys_owned : All (IsOwned db.clients) db.client_keys

upsert-IsConsistent :
    (client : RegisteredClient) (db : Database)
    → IsConsistent db
    → IsConsistent (upsert_client client db).1
unfolding upsert_client
upsert-IsConsistent client db h =
    elim (Bool-cases (client.status == active || client.status == suspended)) [
      | inl known ↦ rw known (record {
        clients_keyed = put_client-IsKeyed db.clients (client_row client) h.clients_keyed;
        keys_keyed = h.keys_keyed;
        credentials_keyed = h.credentials_keyed;
        uses_keyed = h.uses_keyed;
        keys_owned = IsOwned-put_client db.clients (client_row client) db.client_keys h.keys_owned;
      })
      | inr unknown ↦ rw unknown h
    ]

record_issuance-IsConsistent :
    (row : IssuanceRecord) (db : Database)
    → IsConsistent db
    → IsConsistent (record_issuance row db).1
unfolding record_issuance
record_issuance-IsConsistent row db h =
    elim (Bool-cases (any (same_jti row) db.issued_credentials)) [
      | inl old ↦ rw old h
      | inr new ↦ rw new (record {
        clients_keyed = h.clients_keyed;
        keys_keyed = h.keys_keyed;
        credentials_keyed = (new, h.credentials_keyed);
        uses_keyed = h.uses_keyed;
        keys_owned = h.keys_owned;
      })
    ]

add_key-IsConsistent :
    (key : ClientKey) (db : Database) → IsConsistent db → IsConsistent (add_key key db).1
unfolding add_key
add_key-IsConsistent key db h =
    elim (Bool-cases
      (any (λ (row : RegisteredClient). row.client_id == key.client_id) db.clients)) [
        | inl owned ↦ rw owned (record {
          clients_keyed = h.clients_keyed;
          keys_keyed = put_key-IsKeyed db.client_keys key h.keys_keyed;
          credentials_keyed = h.credentials_keyed;
          uses_keyed = h.uses_keyed;
          keys_owned = put_key-All (IsOwned db.clients) db.client_keys key h.keys_owned owned;
        })
        | inr alone ↦ rw alone h
      ]

claim-IsConsistent :
    (client_id jti : String) (expires_at : ℕ) (db : Database)
    → IsConsistent db
    → IsConsistent (claim client_id jti expires_at db).1
unfolding claim
claim-IsConsistent client_id jti expires_at db h =
    elim (Bool-cases (is_claimed db.client_assertion_jti client_id jti)) [
      | inl old ↦ rw old h
      | inr new ↦ rw new (record {
        clients_keyed = h.clients_keyed;
        keys_keyed = h.keys_keyed;
        credentials_keyed = h.credentials_keyed;
        uses_keyed = (new, h.uses_keyed);
        keys_owned = h.keys_owned;
      })
    ]

purge_expired-IsConsistent :
    (now : ℕ) (db : Database) → IsConsistent db → IsConsistent (purge_expired now db).1
unfolding purge_expired
purge_expired-IsConsistent now db h = record {
  clients_keyed = h.clients_keyed;
  keys_keyed = h.keys_keyed;
  credentials_keyed = h.credentials_keyed;
  uses_keyed =
      keep-IsKeyed same_use (λ row. not (ltb row.expires_at now)) db.client_assertion_jti
        h.uses_keyed;
  keys_owned = h.keys_owned;
}

-- In every database that the repositories' statements make from the empty one, in any order, no
-- two clients have one identifier, no two keys one client and key identifier, no two issued
-- credentials and no two uses of an assertion one identifier, and every key belongs to a client
-- that is there.
pub reaches-IsConsistent : (db : Database) → Reaches db → IsConsistent db
reaches-IsConsistent _ empty = record {
  clients_keyed = tt;
  keys_keyed = tt;
  credentials_keyed = tt;
  uses_keyed = tt;
  keys_owned = tt;
}
reaches-IsConsistent _ (upserts {db} client h) =
    upsert-IsConsistent client db (reaches-IsConsistent db h)
reaches-IsConsistent _ (records {db} row h) =
    record_issuance-IsConsistent row db (reaches-IsConsistent db h)
reaches-IsConsistent _ (adds {db} key h) = add_key-IsConsistent key db (reaches-IsConsistent db h)
reaches-IsConsistent _ (claims {db} client_id jti expires_at h) =
    claim-IsConsistent client_id jti expires_at db (reaches-IsConsistent db h)
reaches-IsConsistent _ (purges {db} now h) =
    purge_expired-IsConsistent now db (reaches-IsConsistent db h)
