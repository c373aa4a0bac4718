-- ===== src/Examples/Databases.antt =====
-- A client is stored, its key is added, an assertion is used, and the used assertions are purged.
use agent_oauth_from_scratch.Value.{end}
use agent_oauth_from_scratch.Models.{ClientKey}
use agent_oauth_from_scratch.Storage.{
  Database, no_rows, upsert_client, add_key, claim, purge_expired,
}
use agent_oauth_from_scratch.Storage.Consistency.{
  empty, upserts, adds, claims, purges, IsConsistent, reaches-IsConsistent,
}
use agent_oauth_from_scratch.Examples.Data.{worker}

abbrev worker_key : ClientKey
worker_key = record { client_id = "worker-app"; kid = "k1"; public_jwk = end }

abbrev with_key : Database
with_key = (add_key worker_key (upsert_client worker no_rows).1).1

abbrev used : Database
used = (purge_expired 5 (claim "worker-app" "a1" 9 with_key).1).1

reaches-IsConsistent_example : IsConsistent used
reaches-IsConsistent_example =
    reaches-IsConsistent used
      (purges 5 (claims "worker-app" "a1" 9 (adds worker_key (upserts worker empty))))
