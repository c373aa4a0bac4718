-- ===== src/Storage/Moves.antt =====
-- storage/repositories.py: the statements that a token request makes, as steps of the database.
use agent_oauth_from_scratch.Shared.{ℕ, String, ◌≡◌, refl}
use agent_oauth_from_scratch.Storage.{
  Database, IssuanceRecord, get_client, get_key, claim, record_issuance,
}
use agent_oauth_from_scratch.Storage.Keeping.{claim-Keeps}
use agent_oauth_from_scratch.Storage.Consistency.{Reaches, records, claims}

-- A statement before the token: a look-up, or the claim of an assertion's identifier.
pub data Uses : Database → Database → Type 0 where
  reads : {db : Database} → Uses db db
  claimed :
      {db : Database} (client_id jti : String) (expires_at : ℕ)
      → Uses db (claim client_id jti expires_at db).1

-- Any statement of a request.
pub data Moves : Database → Database → Type 0 where
  uses : {db after : Database} → Uses db after → Moves db after
  recorded : {db : Database} (row : IssuanceRecord) → Moves db (record_issuance row db).1

pub get_client-Uses : (client_id : String) (db : Database) → Uses db (get_client client_id db).1
unfolding get_client
get_client-Uses client_id db = reads

pub get_key-Uses : (client_id kid : String) (db : Database) → Uses db (get_key client_id kid db).1
unfolding get_key
get_key-Uses client_id kid db = reads

pub Uses-keeps :
    (db after : Database) → Uses db after → after.issued_credentials ≡ db.issued_credentials
Uses-keeps db _ reads = refl
Uses-keeps db _ (claimed client_id jti expires_at) = claim-Keeps client_id jti expires_at db

pub Moves-Reaches : (db after : Database) → Moves db after → Reaches db → Reaches after
Moves-Reaches db _ (uses reads) h = h
Moves-Reaches db _ (uses (claimed client_id jti expires_at)) h = claims client_id jti expires_at h
Moves-Reaches db _ (recorded row) h = records row h
