-- ===== src/Auth/Clients/Secrets.antt =====
-- services/clients.py with auth/client_secret_post.py: who is authenticated by a secret.
use agent_oauth_from_scratch.Shared.{
  ◌≡◌, refl, sym, ap, ◌∙◌, ◌↔◌, ◌⊎◌, inl, inr, String, Bool, true, false, Option, none, some,
  Option-cases, arith,
}
use agent_oauth_from_scratch.Outcome.{Outcome, ok, raised, uncaught, oauth_error, ok-injective}
use agent_oauth_from_scratch.Exec.{lift, continue, >>=-eq-ok}
use agent_oauth_from_scratch.Models.{RegisteredClient}
use agent_oauth_from_scratch.Platform.{Platform, Draws}
use agent_oauth_from_scratch.Storage.{Database, get_client}
use agent_oauth_from_scratch.Auth.Base.{PresentedCredential}
use agent_oauth_from_scratch.Auth.SecretPost.{
  verify_secret, verify_post, client_secret_post, or_default, hash_of,
}
use agent_oauth_from_scratch.Auth.Clients.{authenticate, proven}

module _ (platform : Platform) where
  verify_secret_iff :
      (secret : String) (secret_hash : Option String)
      → (verify_secret platform secret secret_hash ≡ ok true) ↔ (
          (hash : String) × (secret_hash ≡ some hash)
          × (platform.argon_verify hash secret ≡ some true))
  unfolding verify_secret
  verify_secret_iff secret none = ((λ h. ground arith), λ (hash, e, v). absurd (cc e))
  verify_secret_iff secret (some hash) =
      ((λ h. (hash, refl, ground arith)), λ (other, e, v). ground arith)

  -- Authentication by a secret, once the row of the named client has been read.
  authenticate_of_found :
      (draws : Draws) (presented : PresentedCredential) (db : Database)
      (found : Option RegisteredClient)
      → (get_client presented.client_id db).0 ≡ ok found
      → authenticate draws presented (client_secret_post platform) db
        ≡ continue
            (verify_secret platform (or_default presented.secret "") (hash_of found))
            (λ good. proven good found)
            db
  unfolding authenticate get_client verify_post
  authenticate_of_found draws presented db found h = rw h refl

  proven-eq-ok :
      (good : Bool) (found : Option RegisteredClient) (db : Database) (client : RegisteredClient)
      → (proven good found db).0 ≡ ok client
      → (good ≡ true) × (found ≡ some client)
  unfolding proven
  proven-eq-ok false found db client h = absurd (cc h)
  proven-eq-ok true none db client h = absurd (cc h)
  proven-eq-ok true (some owner) db client h = (refl, ap some (ok-injective h))

  found-eq-ok :
      (draws : Draws) (presented : PresentedCredential) (db : Database) (client : RegisteredClient)
      → (authenticate draws presented (client_secret_post platform) db).0 ≡ ok client
      → (found : Option RegisteredClient) × ((get_client presented.client_id db).0 ≡ ok found)
  unfolding authenticate
  found-eq-ok draws presented db client h =
      let (found, stored, rest) = >>=-eq-ok (get_client presented.client_id) _ db h in
      (found, stored)

  -- the hash that argon2 is given for a client, or for nobody
  abbrev pub tried_hash : Option RegisteredClient → String
  tried_hash found = or_default (hash_of found) platform.absent_secret_hash

  -- The three ways in which authentication by a secret ends.
  abbrev pub Answers :
      String → Option RegisteredClient → Database → Outcome RegisteredClient × Database → Type 0
  Answers secret found db r =
      ((client : RegisteredClient) × (found ≡ some client) × (r ≡ (ok client, db)))
      ⊎ ((r ≡ (raised (oauth_error "invalid_client" "client authentication failed" 401), db))
          ⊎ ((platform.argon_verify (tried_hash found) secret ≡ none)
              × (r ≡ (raised uncaught, db))))

  verify_secret-cases :
      (secret : String) (secret_hash : Option String)
      → ((hash : String) × (secret_hash ≡ some hash)
          × (verify_secret platform secret secret_hash ≡ ok true))
        ⊎ ((verify_secret platform secret secret_hash ≡ ok false)
            ⊎ ((platform.argon_verify (or_default secret_hash platform.absent_secret_hash) secret
                  ≡ none)
                × (verify_secret platform secret secret_hash ≡ raised uncaught)))
  unfolding verify_secret
  verify_secret-cases secret none =
      elim (Option-cases (platform.argon_verify platform.absent_secret_hash secret)) [
        | inl unread ↦ inr (inr (unread, rw (unread, verify_secret) refl))
        | inr (true, good) ↦ inr (inl (rw (good, verify_secret) refl))
        | inr (false, bad) ↦ inr (inl (rw (bad, verify_secret) refl))
      ]
  verify_secret-cases secret (some hash) = elim (Option-cases (platform.argon_verify hash secret)) [
    | inl unread ↦ inr (inr (unread, rw (unread, verify_secret) refl))
    | inr (true, good) ↦ inl (hash, refl, rw (good, verify_secret) refl)
    | inr (false, bad) ↦ inr (inl (rw (bad, verify_secret) refl))
  ]

  proven-Answers :
      (secret : String) (found : Option RegisteredClient) (db : Database)
      → Answers secret found db
          (continue (verify_secret platform secret (hash_of found)) (λ good. proven good found) db)
  unfolding proven
  proven-Answers secret none db = elim (verify_secret-cases secret none) [
    | inl (hash, absent, good) ↦ absurd (cc absent)
    | inr (inl bad) ↦ inr (inl (rw bad refl))
    | inr (inr (unread, failed)) ↦ inr (inr (unread, rw failed refl))
  ]
  proven-Answers secret (some client) db = elim (verify_secret-cases secret client.secret_hash) [
    | inl (hash, there, good) ↦ inl (client, refl, rw good refl)
    | inr (inl bad) ↦ inr (inl (rw bad refl))
    | inr (inr (unread, failed)) ↦ inr (inr (unread, rw failed refl))
  ]

  -- Only the client that the credential names is authenticated, and it is exactly when it is
  -- stored, has a secret, and its hash verifies the presented secret.
  pub authenticate_secret_iff :
      (draws : Draws) (presented : PresentedCredential) (db : Database) (client : RegisteredClient)
      → ((authenticate draws presented (client_secret_post platform) db).0 ≡ ok client) ↔ (
          ((get_client presented.client_id db).0 ≡ ok (some client))
          × (hash : String) × (client.secret_hash ≡ some hash)
          × (platform.argon_verify hash (or_default presented.secret "") ≡ some true))
  unfolding proven
  authenticate_secret_iff draws presented db client = (
    λ h.
        let (found, stored) = found-eq-ok draws presented db client h in
        let (good, judged, rest) =
          >>=-eq-ok (lift (verify_secret platform (or_default presented.secret "") (hash_of found)))
            (λ good. proven good found) db
            (ap (λ r. r.0) (sym (authenticate_of_found draws presented db found stored)) ∙ h) in
        let (is_good, owner) = proven-eq-ok good found db client (
          ap (λ r. r.0) (sym rest)
          ∙ (ap (λ r. r.0) (sym (authenticate_of_found draws presented db found stored)) ∙ h)) in
        let (hash, has_hash, verified) =
          (verify_secret_iff (or_default presented.secret "") client.secret_hash).0 (
            ap (λ o. verify_secret platform (or_default presented.secret "") (hash_of o))
              (sym owner)
            ∙ judged
            ∙ ap ok is_good) in
        (stored ∙ ap ok owner, hash, has_hash, verified),
    λ (stored, hash, has_hash, verified).
        let good =
          (verify_secret_iff (or_default presented.secret "") client.secret_hash).1
            (hash, has_hash, verified) in
        rw (authenticate_of_found draws presented db (some client) stored, good) refl,
  )

  -- If the stored row of the named client can be read, authentication by a secret leaves the
  -- database as it is and ends in one of three ways: with the stored client; with
  -- `invalid_client`, status 401, the same for an unknown client, a client without a secret and a
  -- wrong secret; or with a server error, only if argon2 cannot read the hash that it is given.
  pub authenticate_secret_ends :
      (draws : Draws) (presented : PresentedCredential) (db : Database)
      (found : Option RegisteredClient)
      → (get_client presented.client_id db).0 ≡ ok found
      → Answers
          (or_default presented.secret "")
          found
          db
          (authenticate draws presented (client_secret_post platform) db)
  authenticate_secret_ends draws presented db found h =
      rw (authenticate_of_found draws presented db found h)
        (proven-Answers (or_default presented.secret "") found db)
