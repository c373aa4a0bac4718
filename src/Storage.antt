-- ===== src/Storage.antt =====
-- storage/repositories.py over the tables of storage/migrations: each repository's operations, as
-- actions on the database.
pub mod Clients
pub mod Replays
pub mod Keeping
pub mod Migrations
pub mod Keyed
pub mod Consistency
pub mod Moves
use agent_oauth_from_scratch.Shared.{
  ℕ, zero, suc, String, Bool, true, false, Option, none, some, List, [], ◌∷◌, ◌++◌, ◌&&◌, ◌||◌, ◌-◌,
  not, ◌==◌, ltb, if◌then◌else◌, map,
}
use agent_oauth_from_scratch.Shared.Lists.{length, any, keep}
use agent_oauth_from_scratch.Shared.Sorting.{sorted}
use agent_oauth_from_scratch.Outcome.{Outcome, ok, raised, uncaught, ◌>>=◌}
use agent_oauth_from_scratch.Value.{Fields}
use agent_oauth_from_scratch.Models.{
  active, suspended, RegisteredClient, ClientKey, registered_client,
}
use agent_oauth_from_scratch.Exec.{Exec}

pub record IssuanceRecord : Type 0 where
  pub jti : String
  pub client_id : String
  pub subject : String
  pub audience : String
  pub scope : String
  pub issued_at : ℕ
  pub expires_at : ℕ
  pub root_subject : String
  pub task_id : Option String
  pub delegation_depth : ℕ

-- A row of `client_assertion_jti`.
pub record Replay : Type 0 where
  pub client_id : String
  pub jti : String
  pub expires_at : ℕ

-- The four tables. A row of `clients` has the columns of a client.
pub record Database : Type 0 where
  pub clients : List RegisteredClient
  pub client_keys : List ClientKey
  pub issued_credentials : List IssuanceRecord
  pub client_assertion_jti : List Replay

abbrev pub no_rows : Database
no_rows = record {
  clients = [];
  client_keys = [];
  issued_credentials = [];
  client_assertion_jti = [];
}

-- SELECT ... WHERE client_id = %s
find_client : List RegisteredClient → String → Option RegisteredClient
find_client [] client_id = none
find_client (row ∷ rows) client_id =
    if row.client_id == client_id then some row else find_client rows client_id

-- `_to_client(row) if row else None`
row_to_client : Option RegisteredClient → Outcome (Option RegisteredClient)
row_to_client none = ok none
row_to_client (some row) = do client ← registered_client row; ok (some client)

-- `ClientRepository.get`
unfoldable pub get_client : String → Exec Database (Option RegisteredClient)
unfolding find_client row_to_client registered_client
get_client client_id db = (row_to_client (find_client db.clients client_id), db)

-- INSERT ... ON CONFLICT (client_id) DO UPDATE
pub put_client : List RegisteredClient → RegisteredClient → List RegisteredClient
put_client [] new = new ∷ []
put_client (row ∷ rows) new =
    let rest = put_client rows new in
    if row.client_id == new.client_id then new ∷ rows else row ∷ rest

-- the row that is written: the sets as sorted arrays
abbrev pub client_row : RegisteredClient → RegisteredClient
client_row client = record client {
  allowed_scopes = sorted client.allowed_scopes;
  allowed_audiences = sorted client.allowed_audiences;
}

-- `ClientRepository.upsert`; the CHECK on the status raises
unfoldable pub upsert_client : RegisteredClient → Exec Database (Unit {0})
unfolding put_client
upsert_client client db =
    if client.status == active || client.status == suspended
    then (ok tt, record db { clients = put_client db.clients (client_row client) })
    else (raised uncaught, db)

-- ORDER BY client_id, under the collation of the database
insert_by :
    (String → String → Bool) → RegisteredClient → List RegisteredClient → List RegisteredClient
insert_by collates new [] = new ∷ []
insert_by collates new (row ∷ rows) =
    let rest = insert_by collates new rows in
    if collates row.client_id new.client_id then row ∷ rest else new ∷ row ∷ rows

order_by : (String → String → Bool) → List RegisteredClient → List RegisteredClient
order_by collates [] = []
order_by collates (row ∷ rows) = insert_by collates row (order_by collates rows)

rows_to_clients : List RegisteredClient → Outcome (List RegisteredClient)
rows_to_clients [] = ok []
rows_to_clients (row ∷ rows) = do
  client ← registered_client row
  clients ← rows_to_clients rows
  ok (client ∷ clients)

-- `ClientRepository.all`
unfoldable pub all_clients : (String → String → Bool) → Exec Database (List RegisteredClient)
unfolding insert_by order_by rows_to_clients registered_client
all_clients collates db = (rows_to_clients (order_by collates db.clients), db)

find_credential : List IssuanceRecord → String → Option IssuanceRecord
find_credential [] jti = none
find_credential (row ∷ rows) jti = if row.jti == jti then some row else find_credential rows jti

-- `IssuedCredentialRepository.record`; a second row of one `jti` violates the primary key
unfoldable pub record_issuance : IssuanceRecord → Exec Database (Unit {0})
record_issuance issuance db =
    if any (λ (row : IssuanceRecord). row.jti == issuance.jti) db.issued_credentials
    then (raised uncaught, db)
    else (ok tt, record db { issued_credentials = issuance ∷ db.issued_credentials })

-- `IssuedCredentialRepository.get`
unfoldable pub get_credential : String → Exec Database (Option IssuanceRecord)
unfolding find_credential
get_credential jti db = (ok (find_credential db.issued_credentials jti), db)

-- `IssuedCredentialRepository.count`
unfoldable pub count_credentials : Exec Database ℕ
count_credentials db = (ok (length db.issued_credentials), db)

find_key : List ClientKey → String → String → Option ClientKey
find_key [] client_id kid = none
find_key (row ∷ rows) client_id kid =
    if row.client_id == client_id && row.kid == kid then some row else find_key rows client_id kid

-- `ClientKeyRepository.get`
unfoldable pub get_key : String → String → Exec Database (Option ClientKey)
unfolding find_key
get_key client_id kid db = (ok (find_key db.client_keys client_id kid), db)

-- INSERT ... ON CONFLICT (client_id, kid) DO UPDATE
pub put_key : List ClientKey → ClientKey → List ClientKey
put_key [] key = key ∷ []
put_key (row ∷ rows) key =
    let rest = put_key rows key in
    if row.client_id == key.client_id && row.kid == key.kid then key ∷ rows else row ∷ rest

-- `ClientKeyRepository.add`; a key of no client violates the foreign key
unfoldable pub add_key : ClientKey → Exec Database (Unit {0})
unfolding put_key
add_key key db =
    if any (λ (row : RegisteredClient). row.client_id == key.client_id) db.clients
    then (ok tt, record db { client_keys = put_key db.client_keys key })
    else (raised uncaught, db)

-- whether a row of `client_assertion_jti` has this primary key
abbrev pub is_claimed : List Replay → String → String → Bool
is_claimed rows client_id jti =
    any (λ (row : Replay). row.client_id == client_id && row.jti == jti) rows

-- `AssertionReplayRepository.claim`, one statement
unfoldable pub claim : String → String → ℕ → Exec Database Bool
claim client_id jti expires_at db =
    if is_claimed db.client_assertion_jti client_id jti then (ok false, db) else (
      ok true,
      record db {
        client_assertion_jti =
            record { client_id = client_id; jti = jti; expires_at = expires_at }
            ∷ db.client_assertion_jti;
      },
    )

-- `AssertionReplayRepository.purge_expired`, at the database's time
unfoldable pub purge_expired : ℕ → Exec Database ℕ
purge_expired now db =
    let live = keep (λ (row : Replay). not (ltb row.expires_at now)) db.client_assertion_jti in
    (ok (length db.client_assertion_jti - length live), record db { client_assertion_jti = live })
