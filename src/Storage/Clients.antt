-- ===== src/Storage/Clients.antt =====
-- `ClientRepository`: what is read back after a write.
use agent_oauth_from_scratch.Shared.{
  String, ◌≡◌, refl, true, ◌||◌, some, List, [], ◌∷◌, arith, eq_iff, eq_refl, ◌==◌, if◌then◌else◌,
  Bool-cases, inl, inr,
}
use agent_oauth_from_scratch.Shared.Lists.{contains}
use agent_oauth_from_scratch.Shared.Sorting.{contains-sorted}
use agent_oauth_from_scratch.Outcome.{ok}
use agent_oauth_from_scratch.Exec.{◌>>◌}
use agent_oauth_from_scratch.Models.{active, suspended, RegisteredClient, registered_client}
use agent_oauth_from_scratch.Storage.{
  Database, find_client, put_client, client_row, row_to_client, get_client, upsert_client,
}

find_client-put_client :
    (rows : List RegisteredClient) (new : RegisteredClient) (client_id : String)
    → find_client (put_client rows new) client_id
      ≡ (if new.client_id == client_id then some new else find_client rows client_id)
unfolding find_client put_client
find_client-put_client [] new client_id = refl
find_client-put_client (row ∷ rows) new client_id = ground (
  arith,
  eq_iff row.client_id new.client_id,
  eq_iff row.client_id client_id,
  eq_iff new.client_id client_id,
  find_client-put_client rows new client_id,
)

-- A client that its constructor accepts has a known status, and the row that is written for it is
-- accepted again.
valid-row :
    (client : RegisteredClient)
    → registered_client client ≡ ok client
    → ((client.status == active || client.status == suspended) ≡ true)
      × (registered_client (client_row client) ≡ ok (client_row client))
unfolding registered_client
valid-row client h = ground arith

-- After a valid client is stored, its identifier gives that client, with the same scopes and
-- audiences as sets; every other identifier gives what it gave before.
pub get_client-upsert_client :
    (client : RegisteredClient) (client_id : String) (db : Database)
    → registered_client client ≡ ok client
    → (((upsert_client client >> get_client client_id) db).0 ≡ (
        if client.client_id == client_id
        then ok (some (client_row client))
        else (get_client client_id db).0))
      × ((s : String)
          → contains (client_row client).allowed_scopes s ≡ contains client.allowed_scopes s)
      × ((s : String)
          → contains (client_row client).allowed_audiences s ≡ contains client.allowed_audiences s)
unfolding upsert_client get_client
get_client-upsert_client client client_id db valid =
    let (known, again) = valid-row client valid in
    (
      rw (known, find_client-put_client db.clients (client_row client) client_id)
          (elim (Bool-cases (client.client_id == client_id)) [
            | inl same ↦ rw (same, row_to_client, again)
            | inr other ↦ rw other
          ]),
      contains-sorted client.allowed_scopes,
      contains-sorted client.allowed_audiences,
    )

-- After a valid client is stored, its identifier gives that client.
pub get_client-stored :
    (client : RegisteredClient) (db : Database)
    → registered_client client ≡ ok client
    → (get_client client.client_id (upsert_client client db).1).0 ≡ ok (some (client_row client))
unfolding upsert_client get_client
get_client-stored client db valid =
    let (known, again) = valid-row client valid in
    rw (
      known,
      find_client-put_client db.clients (client_row client) client.client_id,
      eq_refl client.client_id,
      row_to_client,
      again,
    )
