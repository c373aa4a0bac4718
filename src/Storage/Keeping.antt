-- ===== src/Storage/Keeping.antt =====
-- Actions that leave the table of issued credentials as it is.
use agent_oauth_from_scratch.Shared.{
  ◌≡◌, refl, ◌∙◌, String, ℕ, List, Bool-cases, inl, inr, ◌||◌, ◌==◌,
}
use agent_oauth_from_scratch.Shared.Lists.{any}
use agent_oauth_from_scratch.Models.{active, suspended, RegisteredClient, ClientKey}
use agent_oauth_from_scratch.Outcome.{Outcome, ok, raised}
use agent_oauth_from_scratch.Exec.{Exec, lift, continue, ◌>>=◌}
use agent_oauth_from_scratch.Exec.Ends.{Ends}
use agent_oauth_from_scratch.Storage.{
  Database, IssuanceRecord, is_claimed, get_client, get_key, claim, upsert_client, add_key,
}

abbrev pub Keeps : {A : Type 0} → Exec Database A → Type 0
Keeps m = (db : Database) → (m db).1.issued_credentials ≡ db.issued_credentials

module _ {A B : Type 0} where
  continue-Keeps :
      (r : Outcome A) (f : A → Exec Database B) (db : Database) (rows : List IssuanceRecord)
      → db.issued_credentials ≡ rows
      → ((a : A) → Keeps (f a))
      → (continue r f db).1.issued_credentials ≡ rows
  continue-Keeps (ok a) f db rows same k = k a db ∙ same
  continue-Keeps (raised e) f db rows same k = same

  pub lift-Keeps :
      (r : Outcome A) (f : A → Exec Database B)
      → ((a : A) → r ≡ ok a → Keeps (f a))
      → Keeps (lift r >>= f)
  lift-Keeps (ok a) f k db = k a refl db
  lift-Keeps (raised e) f k db = refl

  pub bind-Keeps :
      (m : Exec Database A) (f : A → Exec Database B)
      → Keeps m
      → ((a : A) → Keeps (f a))
      → Keeps (m >>= f)
  bind-Keeps m f h k db = continue-Keeps (m db).0 f (m db).1 db.issued_credentials (h db) k

-- Such an action ends with the table as it is, with a value or with an exception.
pub Ends-Keeps :
    {A : Type 0} (rows : List IssuanceRecord) (r : Outcome A × Database)
    → r.1.issued_credentials ≡ rows
    → Ends
        (λ a after. after.issued_credentials ≡ rows)
        (λ e after. after.issued_credentials ≡ rows)
        r
Ends-Keeps rows (ok a, after) h = h
Ends-Keeps rows (raised e, after) h = h

pub get_client-Keeps : (client_id : String) → Keeps (get_client client_id)
unfolding get_client
get_client-Keeps client_id db = refl

pub get_key-Keeps : (client_id kid : String) → Keeps (get_key client_id kid)
unfolding get_key
get_key-Keeps client_id kid db = refl

pub claim-Keeps : (client_id jti : String) (expires_at : ℕ) → Keeps (claim client_id jti expires_at)
unfolding claim
claim-Keeps client_id jti expires_at db =
    elim (Bool-cases (is_claimed db.client_assertion_jti client_id jti)) [
      | inl old ↦ rw old
      | inr new ↦ rw new
    ]

pub upsert_client-Keeps : (client : RegisteredClient) → Keeps (upsert_client client)
unfolding upsert_client
upsert_client-Keeps client db =
    elim (Bool-cases (client.status == active || client.status == suspended)) [
      | inl known ↦ rw known
      | inr unknown ↦ rw unknown
    ]

pub add_key-Keeps : (key : ClientKey) → Keeps (add_key key)
unfolding add_key
add_key-Keeps key db =
    elim (Bool-cases
      (any (λ (row : RegisteredClient). row.client_id == key.client_id) db.clients)) [
        | inl owned ↦ rw owned
        | inr alone ↦ rw alone
      ]
