-- ===== src/Auth/PrivateKeyJwt/Used.antt =====
-- auth/private_key_jwt.py, `_is_first_use`: accepted claims use up their identifier.
use agent_oauth_from_scratch.Shared.{
  ℕ, ◌≡◌, refl, sym, ap, ◌∙◌, String, Bool, true, false, Option, none, some, Bool-cases, inl, inr,
  eq_iff,
}
use agent_oauth_from_scratch.Outcome.{ok, ok-injective}
use agent_oauth_from_scratch.Exec.{lift, >>=-eq-ok}
use agent_oauth_from_scratch.Value.{Fields}
use agent_oauth_from_scratch.Models.{RegisteredClient}
use agent_oauth_from_scratch.Platform.{Platform, Draws}
use agent_oauth_from_scratch.Storage.{Database, is_claimed, claim}
use agent_oauth_from_scratch.Auth.Assertion.{PrivateKeyJwt, claims_are_acceptable, replay_key}
use agent_oauth_from_scratch.Auth.PrivateKeyJwt.{is_first_use, and_first_use, accept_claims}

claim-eq-true :
    (client_id jti : String) (expires_at : ℕ) (db : Database)
    → (claim client_id jti expires_at db).0 ≡ ok true
    → (is_claimed db.client_assertion_jti client_id jti ≡ false)
      × (is_claimed (claim client_id jti expires_at db).1.client_assertion_jti client_id jti ≡ true)
unfolding claim
claim-eq-true client_id jti expires_at db h =
    elim (Bool-cases (is_claimed db.client_assertion_jti client_id jti)) [
      | inl old ↦ absurd (cc (ok-injective (rw old at h)))
      | inr new ↦
          let same_id = (eq_iff client_id client_id).1 refl in
          let same_jti = (eq_iff jti jti).1 refl in rw new (refl, rw (same_id, same_jti) refl)
    ]

module _ (platform : Platform) (method : PrivateKeyJwt) where
  -- The identifier of the claims was free and is taken now.
  pub record IsUsed (claims : Fields) (db after : Database) : Type 0 where
    pub key : String × String × ℕ
    pub named : replay_key platform claims ≡ ok key
    pub fresh : is_claimed db.client_assertion_jti key.0 key.1 ≡ false
    pub used : is_claimed after.client_assertion_jti key.0 key.1 ≡ true

  and_first_use-eq-true :
      (acceptable : Bool) (claims : Fields) (db : Database)
      → (and_first_use platform method acceptable claims db).0 ≡ ok true
      → (acceptable ≡ true)
        × IsUsed claims db (and_first_use platform method acceptable claims db).1
  unfolding and_first_use is_first_use
  and_first_use-eq-true false claims db h = absurd (cc (ok-injective h))
  and_first_use-eq-true true claims db h =
      let (key, named, e) =
        >>=-eq-ok (lift (replay_key platform claims)) (λ key. claim key.0 key.1 key.2) db h in
      let (fresh, used) = claim-eq-true key.0 key.1 key.2 db (ap (λ r. r.0) (sym e) ∙ h) in
      rw e (refl, record { key = key; named = named; fresh = fresh; used = used })

  pub accept_claims-eq-true :
      (draws : Draws) (decoded : Option Fields) (client : RegisteredClient) (db : Database)
      → (accept_claims platform method draws decoded client db).0 ≡ ok true
      → (claims : Fields) × (decoded ≡ some claims)
        × (claims_are_acceptable platform method draws.assertion_checked_at claims client ≡ ok true)
        × IsUsed claims db (accept_claims platform method draws decoded client db).1
  unfolding accept_claims
  accept_claims-eq-true draws none client db h = absurd (cc (ok-injective h))
  accept_claims-eq-true draws (some claims) client db h =
      let (acceptable, judged, e) =
        >>=-eq-ok
          (lift (claims_are_acceptable platform method draws.assertion_checked_at claims client))
          (λ acceptable. and_first_use platform method acceptable claims) db h in
      let (agreed, used) = and_first_use-eq-true acceptable claims db (ap (λ r. r.0) (sym e) ∙ h) in
      (claims, refl, judged ∙ ap ok agreed, rw e used)
