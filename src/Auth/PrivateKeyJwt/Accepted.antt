-- ===== src/Auth/PrivateKeyJwt/Accepted.antt =====
-- auth/private_key_jwt.py, `verify`: what an accepted client assertion proves.
use agent_oauth_from_scratch.Shared.{
  ℕ, ◌≡◌, refl, sym, ap, ◌∙◌, String, Bool, true, false, Option, none, some, Bool-cases,
  Option-cases, inl, inr,
}
use agent_oauth_from_scratch.Outcome.{Outcome, ok, ok-injective}
use agent_oauth_from_scratch.Exec.{>>=-eq-ok}
use agent_oauth_from_scratch.Value.{Value, Fields, get}
use agent_oauth_from_scratch.Value.Access.{item_or_key_error, text_of}
use agent_oauth_from_scratch.Models.{RegisteredClient, ClientKey}
use agent_oauth_from_scratch.Platform.{Platform, Draws, PublicKey}
use agent_oauth_from_scratch.Storage.{Database, is_claimed, get_key}
use agent_oauth_from_scratch.Delegation.{is_text}
use agent_oauth_from_scratch.Auth.Base.{PresentedCredential}
use agent_oauth_from_scratch.Auth.SecretPost.{or_default}
use agent_oauth_from_scratch.Auth.Assertion.{PrivateKeyJwt, algorithm}
use agent_oauth_from_scratch.Auth.Assertion.Acceptable.{
  IsAcceptable, claims_are_acceptable_iff, replay_key-IsAcceptable, replay_key-eq-ok,
}
use agent_oauth_from_scratch.Auth.PrivateKeyJwt.Used.{accept_claims-eq-true}
use agent_oauth_from_scratch.Auth.PrivateKeyJwt.{
  accept_claims, decode_with, with_key, with_kid, with_header, usable_kid, verify_assertion,
  assertion_checks,
}

module _ (platform : Platform) (method : PrivateKeyJwt) where
  -- An assertion of a client that is accepted, and the databases before and after.
  pub record IsAccepted (draws : Draws) (assertion : String) (client : RegisteredClient)
      (db after : Database) : Type 0 where
    pub header : Fields
    pub kid : String
    pub row : ClientKey
    pub public_key : PublicKey
    pub claims : Fields
    pub jti : Value
    pub parsed : platform.unverified_header assertion ≡ some header
    pub signed_by : is_text (get header "alg") algorithm ≡ true
    pub signed_with : usable_kid (get header "kid") ≡ some kid
    pub has_key : (get_key client.client_id kid db).0 ≡ ok (some row)
    pub usable : platform.jwk_key row.public_jwk ≡ some public_key
    pub decoded :
        platform.decode draws.assertion_verified_at public_key assertion_checks assertion
        ≡ some claims
    pub acceptable : IsAcceptable platform method draws.assertion_checked_at claims client
    pub has_jti : item_or_key_error claims "jti" ≡ ok jti
    pub fresh :
        is_claimed db.client_assertion_jti client.client_id (text_of platform.str_of jti) ≡ false
    pub used :
        is_claimed after.client_assertion_jti client.client_id (text_of platform.str_of jti) ≡ true

  decode_with-eq-some :
      (draws : Draws) (row : ClientKey) (assertion : String) (claims : Fields)
      → decode_with platform method draws row assertion ≡ some claims
      → (public_key : PublicKey) × (platform.jwk_key row.public_jwk ≡ some public_key)
        × (platform.decode draws.assertion_verified_at public_key assertion_checks assertion
            ≡ some claims)
  unfolding decode_with
  decode_with-eq-some draws row assertion claims h =
      elim (Option-cases (platform.jwk_key row.public_jwk)) [
        | inl unusable ↦ absurd (cc (rw (unusable, decode_with) at h))
        | inr (public_key, usable) ↦ (public_key, usable, rw (usable, decode_with) at h)
      ]

  with_key-eq-true :
      (draws : Draws) (key : Option ClientKey) (assertion : String) (client : RegisteredClient)
      (db : Database)
      → (with_key platform method draws key assertion client db).0 ≡ ok true
      → (row : ClientKey) × (key ≡ some row)
        × ((accept_claims platform method draws
              (decode_with platform method draws row assertion)
              client
              db)
            ≡ with_key platform method draws key assertion client db)
  unfolding with_key
  with_key-eq-true draws none assertion client db h = absurd (cc (ok-injective h))
  with_key-eq-true draws (some row) assertion client db h = (row, refl, refl)

  with_kid-eq-true :
      (draws : Draws) (header : Fields) (kid : Option String) (assertion : String)
      (client : RegisteredClient) (db : Database)
      → platform.unverified_header assertion ≡ some header
      → is_text (get header "alg") algorithm ≡ true
      → usable_kid (get header "kid") ≡ kid
      → (with_kid platform method draws kid assertion (some client) db).0 ≡ ok true
      → IsAccepted draws assertion client db
          (with_kid platform method draws kid assertion (some client) db).1
  unfolding with_kid get_key
  with_kid-eq-true draws header none assertion client db parsed signed_by signed h =
      absurd (cc (ok-injective h))
  with_kid-eq-true draws header (some kid) assertion client db parsed signed_by signed h =
      let (found, has_key, e) =
        >>=-eq-ok (get_key client.client_id kid)
          (λ row. with_key platform method draws row assertion client) db h in
      let (row, is_row, same) =
        with_key-eq-true draws found assertion client (get_key client.client_id kid db).1
          (ap (λ r. r.0) (sym e) ∙ h) in
      let (claims, decoded, acceptable, used) =
        accept_claims-eq-true platform method draws
          (decode_with platform method draws row assertion) client
          (get_key client.client_id kid db).1 (ap (λ r. r.0) (same ∙ sym e) ∙ h) in
      let passes =
        (claims_are_acceptable_iff platform method draws.assertion_checked_at claims client).0
          acceptable in
      let (jti, has_jti) = replay_key-eq-ok platform claims used.key used.named in
      let is_key : used.key ≡ (client.client_id, text_of platform.str_of jti, passes.expires_at) =
        ok-injective (
          sym used.named
          ∙ replay_key-IsAcceptable platform method draws.assertion_checked_at claims client jti
              passes has_jti) in
      let (public_key, usable, verified) = decode_with-eq-some draws row assertion claims decoded in
      record {
        header = header;
        kid = kid;
        row = row;
        public_key = public_key;
        claims = claims;
        jti = jti;
        parsed = parsed;
        signed_by = signed_by;
        signed_with = signed;
        has_key = has_key ∙ ap ok is_row;
        usable = usable;
        decoded = verified;
        acceptable = passes;
        has_jti = has_jti;
        fresh =
            ap (λ (k : String × String × ℕ). is_claimed db.client_assertion_jti k.0 k.1)
              (sym is_key)
            ∙ used.fresh;
        used =
            ap
              (λ (r : Outcome Bool × Database).
                is_claimed r.1.client_assertion_jti client.client_id (text_of platform.str_of jti))
              (e ∙ sym same)
            ∙ ap
                (λ (k : String × String × ℕ).
                  is_claimed
                    (accept_claims platform method draws
                      (decode_with platform method draws row assertion) client
                      (get_key client.client_id kid db).1).1.client_assertion_jti
                    k.0 k.1)
                (sym is_key)
            ∙ used.used;
      }

  with_kid-none :
      (draws : Draws) (kid : Option String) (assertion : String) (db : Database)
      → with_kid platform method draws kid assertion none db ≡ (ok false, db)
  unfolding with_kid
  with_kid-none draws none assertion db = refl
  with_kid-none draws (some kid) assertion db = refl

  with_header-eq-true :
      (draws : Draws) (header : Option Fields) (assertion : String)
      (client : Option RegisteredClient) (db : Database)
      → platform.unverified_header assertion ≡ header
      → (with_header platform method draws header assertion client db).0 ≡ ok true
      → (owner : RegisteredClient) × (client ≡ some owner)
        × IsAccepted draws assertion owner db
            (with_header platform method draws header assertion client db).1
  unfolding with_header
  with_header-eq-true draws none assertion client db parsed h = absurd (cc (ok-injective h))
  with_header-eq-true draws (some header) assertion none db parsed h =
      elim (Bool-cases (is_text (get header "alg") algorithm)) [
        | inl same ↦
            let refused = with_kid-none draws (usable_kid (get header "kid")) assertion db in
            absurd (cc (ok-injective (ap (λ r. r.0) (sym refused) ∙ (rw same at h))))
        | inr other ↦ absurd (cc (ok-injective (rw other at h)))
      ]
  with_header-eq-true draws (some header) assertion (some client) db parsed h =
      elim (Bool-cases (is_text (get header "alg") algorithm)) [
        | inl same ↦ rw same (
          client,
          refl,
          with_kid-eq-true draws header (usable_kid (get header "kid")) assertion client db parsed
              same refl (rw same at h),
        )
        | inr other ↦ absurd (cc (ok-injective (rw other at h)))
      ]

  pub verify_assertion-IsAccepted :
      (draws : Draws) (presented : PresentedCredential) (client : Option RegisteredClient)
      (db : Database)
      → (verify_assertion platform method draws presented client db).0 ≡ ok true
      → (owner : RegisteredClient) × (client ≡ some owner)
        × IsAccepted draws
            (or_default presented.assertion "")
            owner
            db
            (verify_assertion platform method draws presented client db).1
  unfolding verify_assertion
  verify_assertion-IsAccepted draws presented client db h =
      with_header-eq-true draws (platform.unverified_header (or_default presented.assertion ""))
        (or_default presented.assertion "") client db refl h
