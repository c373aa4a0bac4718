-- ===== src/Concurrent/Single.antt =====
-- A client assertion that is sent many times, by requests that are under way together.
use native.Mathlib.Nat.{zero-add}
use agent_oauth_from_scratch.Shared.{
  ℕ, suc, ◌+◌, ◌≤◌, ◌≡◌, inl, inr, String, Bool-cases, List, [], ◌∷◌, arith, if◌then◌else◌,
}
use agent_oauth_from_scratch.Shared.Lists.{All}
use agent_oauth_from_scratch.Outcome.{ok}
use agent_oauth_from_scratch.Value.{Fields}
use agent_oauth_from_scratch.Auth.Assertion.{replay_key}
use agent_oauth_from_scratch.Auth.PrivateKeyJwt.Single.{IsRead}
use agent_oauth_from_scratch.Config.{Settings}
use agent_oauth_from_scratch.Models.{SigningKey}
use agent_oauth_from_scratch.Platform.{Platform}
use agent_oauth_from_scratch.Storage.{Database}
use agent_oauth_from_scratch.Storage.Replays.{IsHeld-purge}
use agent_oauth_from_scratch.Storage.Replays.Held.{upsert_client-IsHeld, add_key-IsHeld}
use agent_oauth_from_scratch.Routes.{Server, create_app}
use agent_oauth_from_scratch.Routes.Statements.{token_steps}
use agent_oauth_from_scratch.Routes.Statements.Brief.{IsBrief, create_app-IsBrief}
use agent_oauth_from_scratch.Routes.Statements.Single.{
  presents, IsGuarded, token_steps-Gated, create_app-IsGuarded,
}
use agent_oauth_from_scratch.Concurrent.{
  System, Write, upserts, adds, purges, Event, arrive, turn, drop, write, pick, do_write, happen,
  serve, idle,
}
use agent_oauth_from_scratch.Concurrent.Credit.{
  tokens, credit, credit-keep, pick-IsSplit, IsPaid, settle-IsPaid, proceed-IsPaid, abandon-IsPaid,
  idle-IsPaid,
}
use agent_oauth_from_scratch.Concurrent.Picked.{pick-IsPicked}
use agent_oauth_from_scratch.Concurrent.Short.{IsShort, happen-IsShort}

-- how many requests come in that do not present this assertion
unfoldable pub others : Server → String → List Event → ℕ
others server text [] = 0
others server text (arrive draws request ∷ events) =
    (if presents server text request then 0 else 1) + others server text events
others server text (turn n ∷ events) = others server text events
others server text (drop n ∷ events) = others server text events
others server text (write w ∷ events) = others server text events

-- No purge runs after `limit`.
abbrev pub IsTimely : ℕ → Event → Type 0
IsTimely limit (write (purges now)) = now ≤ limit
IsTimely limit _ = Unit

module _ (limit : ℕ) (client_id jti : String) where
  do_write-credit :
      (w : Write) (db : Database)
      → IsTimely limit (write w)
      → credit limit client_id jti (do_write w db) ≤ credit limit client_id jti db
  unfolding do_write
  do_write-credit (upserts client) db timely =
      credit-keep limit client_id jti db _ (upsert_client-IsHeld limit client_id jti client db)
  do_write-credit (adds key) db timely =
      credit-keep limit client_id jti db _ (add_key-IsHeld limit client_id jti key db)
  do_write-credit (purges now) db timely =
      credit-keep limit client_id jti db _ (IsHeld-purge limit client_id jti now db timely)

  module _ (server : Server) (brief : IsBrief server) (text : String)
      (guarded : IsGuarded text client_id jti limit server) where
    happen-IsPaid :
        (event : Event) (system : System) (n : ℕ)
        → IsTimely limit event
        → All (IsShort 4) system.waiting
        → IsPaid limit client_id jti n system
        → IsPaid limit client_id jti
            (others server text (event ∷ []) + n)
            (happen server event system)
    unfolding happen others
    happen-IsPaid (arrive draws request) system n timely short paid =
        elim (Bool-cases (presents server text request)) [
          | inl there ↦
              settle-IsPaid limit client_id jti (token_steps server draws request) system.database
                system.waiting system.answered 0 paid.to_come _
                (inl
                  (token_steps-Gated text client_id jti limit server guarded draws request there))
                paid.rest (rw there (omega (arith, paid.bound)))
          | inr other ↦
              settle-IsPaid limit client_id jti (token_steps server draws request) system.database
                system.waiting system.answered 1 paid.to_come _ (inr (omega arith)) paid.rest
                (rw other (omega (arith, paid.bound)))
        ]
    happen-IsPaid (turn i) system n timely short paid = rw zero-add (
        proceed-IsPaid limit client_id jti (pick i system.waiting) system n paid.to_come paid
          (pick-IsPicked _ i system.waiting short)
          (pick-IsSplit limit client_id jti paid.to_come i system.waiting paid.rest) paid.bound)
    happen-IsPaid (drop i) system n timely short paid = rw zero-add (
        abandon-IsPaid limit client_id jti (pick i system.waiting) system n paid.to_come paid
          (pick-IsSplit limit client_id jti paid.to_come i system.waiting paid.rest) paid.bound)
    happen-IsPaid (write w) system n timely short paid = record {
      to_come = paid.to_come;
      rest = paid.rest;
      bound = omega (arith, paid.bound, do_write-credit w system.database timely);
    }

    others-cons :
        (event : Event) (events : List Event)
        → others server text (event ∷ events)
          ≡ others server text (event ∷ []) + others server text events
    unfolding others
    others-cons (arrive draws request) events = omega arith
    others-cons (turn n) events = omega arith
    others-cons (drop n) events = omega arith
    others-cons (write w) events = omega arith

    serve-tokens :
        (events : List Event) (system : System) (n : ℕ)
        → All (IsTimely limit) events
        → All (IsShort 4) system.waiting
        → IsPaid limit client_id jti n system
        → tokens (serve server events system).answered ≤ others server text events + n
    unfolding serve others
    serve-tokens [] system n timely short paid = omega (arith, paid.bound)
    serve-tokens (event ∷ events) system n (timely, later) short paid = omega (
      arith,
      others-cons event events,
      serve-tokens events (happen server event system) (others server text (event ∷ []) + n) later
          (happen-IsShort server brief event system short)
          (happen-IsPaid event system n timely short paid),
    )

-- For a server with the default grants and methods, from any database, in any order of the
-- statements of its requests, of the losses of their connections and of the writes of other
-- programs: if a client assertion has the same claims whenever it verifies, those claims name an
-- identifier and an expiry, and no purge runs at a time after that expiry, the responses with a
-- token are at most one more than the requests that do not present that assertion.
pub serve-once :
    (platform : Platform) (settings : Settings) (signing_key : SigningKey) (server : Server)
    → create_app platform settings signing_key ≡ ok server
    → (text : String) (claims : Fields) (client_id jti : String) (expires_at : ℕ)
    → IsRead platform text claims
    → replay_key platform claims ≡ ok (client_id, jti, expires_at)
    → (events : List Event) (db : Database) → All (IsTimely expires_at) events
    → tokens (serve server events (idle db)).answered ≤ suc (others server text events)
serve-once platform settings signing_key server made text claims client_id jti expires_at read named
      events db timely =
    let brief = create_app-IsBrief platform settings signing_key server made in
    let guarded =
      create_app-IsGuarded platform settings signing_key server made text claims client_id jti
        expires_at read named in
    omega (
      arith,
      serve-tokens expires_at client_id jti server brief text guarded events (idle db) 1 timely tt
          (idle-IsPaid expires_at client_id jti db),
    )
