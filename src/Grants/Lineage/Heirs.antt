-- ===== src/Grants/Lineage/Heirs.antt =====
-- Chains of grants from src/grants: the invariant of a descendant, over every chain.
use agent_oauth_from_scratch.Shared.{ℕ, ◌<◌}
use agent_oauth_from_scratch.Value.{Fields, pos}
use agent_oauth_from_scratch.Config.{Settings}
use agent_oauth_from_scratch.Models.{SigningKey}
use agent_oauth_from_scratch.Platform.{Platform}
use agent_oauth_from_scratch.Delegation.{maximum_chain_depth}
use agent_oauth_from_scratch.Delegation.Chain.{IsObjectId, chain_sound}
use agent_oauth_from_scratch.Grants.Exchange.Derived.{derive-eq-ok}
use agent_oauth_from_scratch.Grants.Lineage.{Lineage, rooted, exchanged}
use agent_oauth_from_scratch.Grants.Lineage.Reading.{sub-read}
use agent_oauth_from_scratch.Grants.Lineage.Rooted.{IsHeir, rooted-IsHeir}
use agent_oauth_from_scratch.Grants.Lineage.Exchanged.{exchanged-IsHeir}

module _ (platform : Platform) (settings : Settings) (signing_key : SigningKey) (most : ℕ) where
  -- If dictionaries with equal object identities have equal sizes and the bound `most` on the
  -- depth is below 32: a token that descends from a root token by any number of exchanges,
  -- whichever clients, actors and requests they had, has a chain of holders that ends in the
  -- root token's subject and has one holder for each exchange, declares that many hops, which
  -- are at most `most`, carries the root token's task and tenant, has no scope that the root
  -- token does not have, and does not outlive it.
  pub Lineage-IsHeir :
      IsObjectId platform.object_id
      → most < maximum_chain_depth
      → (origin claims : Fields) (hops : ℕ)
      → Lineage platform settings signing_key (pos most) origin claims hops
      → IsHeir platform.object_id most origin claims hops
  Lineage-IsHeir law small _ _ _
        (rooted draws form client result db after issued valid resolved i) =
      rooted-IsHeir platform settings signing_key most law draws form client result db after issued
        valid resolved i
  Lineage-IsHeir law small _ _ _
        (exchanged {origin} {claims} {other} {actor_signed} {hops} {hops'} draws form client
          actor_client audience subject_claims actor_claims result db after issued before actors
          back actor_back derived i) =
      let q = Lineage-IsHeir law small other actor_signed hops' actors in
      let (actor, rest, e, named, ne, acts, short) =
        chain_sound platform.object_id actor_signed q.identities q.chained in
      exchanged-IsHeir platform settings signing_key most law small origin claims hops
        (Lineage-IsHeir law small origin claims hops before) draws form client actor_client audience
        subject_claims actor_claims result db after issued back actor
        (sub-read actor_claims actor_signed actor_back actor named) ne
        (derive-eq-ok platform (pos most) form client audience subject_claims actor_claims
          actor_client result derived)
        i
