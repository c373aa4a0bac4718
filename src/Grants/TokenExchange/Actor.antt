-- ===== src/Grants/TokenExchange/Actor.antt =====
-- grants/token_exchange.py, `_actor_client`: which client it finds.
use agent_oauth_from_scratch.Shared.{◌≡◌, refl, ◌↔◌, ap, sym, ◌∙◌, String, Option, none, some}
use agent_oauth_from_scratch.Outcome.{Outcome, ok, ok-injective}
use agent_oauth_from_scratch.Exec
use agent_oauth_from_scratch.Exec.{Exec, lift, >>=-eq-ok, lift->>=-eq-ok}
use agent_oauth_from_scratch.Value.{Value, str, Fields, get}
use agent_oauth_from_scratch.Models.{RegisteredClient}
use agent_oauth_from_scratch.Storage.{Database, get_client}
use agent_oauth_from_scratch.Grants.TokenExchange.{known_client, look_up, actor_client}

known_client-eq-ok :
    (found : Option RegisteredClient) (actor : RegisteredClient) (db : Database)
    → (known_client found db).0 ≡ ok actor
    → found ≡ some actor
unfolding known_client
known_client-eq-ok none actor db h = cc
known_client-eq-ok (some client) actor db h = ap some (ok-injective h)

-- The client that a token names, as it is stored.
abbrev pub IsClientOf : Fields → Database → RegisteredClient → Type 0
IsClientOf claims db client =
    (client_id : String) × (get claims "client_id" ≡ str client_id)
    × ((get_client client_id db).0 ≡ ok (some client))

look_up-eq-ok :
    (v : Value) (db : Database) (client : RegisteredClient)
    → (look_up v db).0 ≡ ok (some client)
    → (client_id : String) × (v ≡ str client_id) × ((get_client client_id db).0 ≡ ok (some client))
unfolding look_up
look_up-eq-ok (str client_id) db client h = (client_id, refl, h)
look_up-eq-ok _ db client h = absurd (cc (ok-injective h))

known-of_stored :
    (actor : RegisteredClient) (read : Outcome (Option RegisteredClient)) (db : Database)
    → read ≡ ok (some actor)
    → (Exec.continue read known_client db).0 ≡ ok actor
unfolding known_client
known-of_stored actor read db h = rw h refl

pub actor_client_iff :
    (claims : Fields) (db : Database) (actor : RegisteredClient)
    → ((actor_client claims db).0 ≡ ok actor) ↔ IsClientOf claims db actor
unfolding actor_client
actor_client_iff claims db actor = (
  λ h.
      let (found, is_found, rest) =
        >>=-eq-ok (look_up (get claims "client_id")) known_client db h in
      look_up-eq-ok (get claims "client_id") db actor
        (is_found ∙ ap ok (known_client-eq-ok found actor _ (ap (λ r. r.0) (sym rest) ∙ h))),
  λ (client_id, named, stored).
      rw (named, look_up) (known-of_stored actor (get_client client_id db).0 _ stored),
)

known_client-of_found :
    (found : Option RegisteredClient) (actor : RegisteredClient) (db : Database)
    → found ≡ some actor
    → known_client found db ≡ (ok actor, db)
unfolding known_client
known_client-of_found found actor db h = rw h refl

-- The actor's client is found without a write.
pub actor_client-returns :
    (claims : Fields) (db : Database) (actor : RegisteredClient)
    → IsClientOf claims db actor
    → actor_client claims db ≡ (ok actor, db)
unfolding actor_client get_client
actor_client-returns claims db actor (client_id, named, stored) =
    rw (named, look_up, stored) (known_client-of_found (some actor) actor db refl)
