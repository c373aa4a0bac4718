-- ===== src/Auth/Assertion/Acceptable.antt =====
-- auth/private_key_jwt.py, `_claims_are_acceptable`: the claims of an assertion that pass.
use agent_oauth_from_scratch.Shared.{
  ℕ, ◌+◌, ◌≤◌, ◌≡◌, refl, ap, ◌∙◌, ◌↔◌, ◌⊎◌, inl, inr, arith, String, true, leb, Bool-cases,
}
use agent_oauth_from_scratch.Outcome.{ok, ok-injective, >>=-eq-ok}
use agent_oauth_from_scratch.Value.{Value, str, arr, obj, Items, nil, cons, Fields, get}
use agent_oauth_from_scratch.Value.Access.{item_or_key_error, text_item, text_item_of, text_of}
use agent_oauth_from_scratch.Value.Times.{from_timestamp}
use agent_oauth_from_scratch.Delegation.{is_text}
use agent_oauth_from_scratch.Delegation.Permits.{is_text-str, is_text_self}
use agent_oauth_from_scratch.Models.{RegisteredClient}
use agent_oauth_from_scratch.Platform.{Platform}
use agent_oauth_from_scratch.Auth.Assertion.{
  PrivateKeyJwt, maximum_lifetime, all_hashable, names_server, any_names_server, audience_accepted,
  expires_soon, audience_then_expiry, claims_are_acceptable, replay_key,
}

module _ (issuer token_endpoint : String) where
  -- One of the two texts that identify this server.
  abbrev pub NamesServer : Value → Type 0
  NamesServer v = (v ≡ str issuer) ⊎ (v ≡ str token_endpoint)

  abbrev pub AnyNamesServer : Items → Type 0
  AnyNamesServer nil = ⊥
  AnyNamesServer (cons v vs) = NamesServer v ⊎ AnyNamesServer vs

  -- An `aud` claim for this server: one of the texts, or a list without a list or a dictionary in
  -- it, that has one of the texts.
  abbrev pub IsForServer : Value → Type 0
  IsForServer (arr vs) = (all_hashable vs ≡ true) × AnyNamesServer vs
  IsForServer v = NamesServer v

  names_server_iff : (v : Value) → (names_server issuer token_endpoint v ≡ true) ↔ NamesServer v
  names_server_iff v = (
    λ h. elim (Bool-cases (is_text v issuer)) [
      | inl same ↦ inl (is_text-str v issuer same)
      | inr other ↦ inr (is_text-str v token_endpoint (rw other at h))
    ],
    λ named. elim named [
      | inl same ↦ rw (is_text_self v issuer same) refl
      | inr same ↦ ground (arith, is_text_self v token_endpoint same)
    ],
  )

  any_names_server_iff :
      (vs : Items) → (any_names_server issuer token_endpoint vs ≡ true) ↔ AnyNamesServer vs
  unfolding any_names_server
  any_names_server_iff nil = ((λ h. absurd (cc h)), λ h. absurd h)
  any_names_server_iff (cons v vs) = (
    λ h. elim (Bool-cases (names_server issuer token_endpoint v)) [
      | inl named ↦ inl ((names_server_iff v).0 named)
      | inr other ↦ inr ((any_names_server_iff vs).0 (rw other at h))
    ],
    λ named. elim named [
      | inl first ↦ rw ((names_server_iff v).1 first) refl
      | inr later ↦ ground (arith, (any_names_server_iff vs).1 later)
    ],
  )

  audience_accepted_iff :
      (v : Value) → (audience_accepted issuer token_endpoint v ≡ ok true) ↔ IsForServer v
  unfolding audience_accepted
  audience_accepted_iff (arr vs) = elim (Bool-cases (all_hashable vs)) [
    | inl hashable ↦ (
      λ h. (hashable, (any_names_server_iff vs).0 (ok-injective (rw hashable at h))),
      λ (x, named). rw (hashable, (any_names_server_iff vs).1 named) refl,
    )
    | inr unhashable ↦
        ((λ h. absurd (cc (rw unhashable at h))), λ (x, named). absurd (cc (x, unhashable)))
  ]
  audience_accepted_iff (obj d) =
      ((λ h. absurd (cc h)), λ named. elim named [ inl x ↦ absurd (cc x) | inr x ↦ absurd (cc x) ])
  audience_accepted_iff (str s) = (
    (λ h. (names_server_iff (str s)).0 (ok-injective h)),
    λ named. ap ok ((names_server_iff (str s)).1 named),
  )
  audience_accepted_iff v = (
    (λ h. (names_server_iff v).0 (ok-injective h)),
    λ named. ap ok ((names_server_iff v).1 named),
  )

-- The claims of an assertion of this client, for this server, that expires soon enough.
pub record IsAcceptable (platform : Platform) (method : PrivateKeyJwt) (now : ℕ) (claims : Fields)
    (client : RegisteredClient) : Type 0 where
  pub issued_by : get claims "iss" ≡ str client.client_id
  pub about : get claims "sub" ≡ str client.client_id
  pub for_server : IsForServer method.issuer method.token_endpoint (get claims "aud")
  pub exp : Value
  pub has_exp : item_or_key_error claims "exp" ≡ ok exp
  pub expires_at : ℕ
  pub read : from_timestamp platform.float_timestamp exp ≡ ok expires_at
  pub soon : expires_at ≤ now + maximum_lifetime

leb-le : (a b : ℕ) → leb a b ≡ true → a ≤ b
leb-le a b h = ground arith

le-leb : (a b : ℕ) → a ≤ b → leb a b ≡ true
le-leb a b h = ground arith

module _ (platform : Platform) (method : PrivateKeyJwt) (now : ℕ) (claims : Fields)
    (client : RegisteredClient) where
  expires_soon-eq-true :
      expires_soon platform now claims ≡ ok true
      → (exp : Value) × (item_or_key_error claims "exp" ≡ ok exp)
        × (expires_at : ℕ) × (from_timestamp platform.float_timestamp exp ≡ ok expires_at)
        × (expires_at ≤ now + maximum_lifetime)
  unfolding expires_soon
  expires_soon-eq-true h =
      let (exp, has_exp, h') = >>=-eq-ok (item_or_key_error claims "exp") _ h in
      let (expires_at, read, soon) = >>=-eq-ok (from_timestamp platform.float_timestamp exp) _ h' in
      (exp, has_exp, expires_at, read, leb-le _ _ (ok-injective soon))

  audience_then_expiry-eq-true :
      audience_then_expiry platform method now claims ≡ ok true
      → (audience_accepted method.issuer method.token_endpoint (get claims "aud") ≡ ok true)
        × (expires_soon platform now claims ≡ ok true)
  unfolding audience_then_expiry
  audience_then_expiry-eq-true h =
      let (accepted, judged, rest) =
        >>=-eq-ok (audience_accepted method.issuer method.token_endpoint (get claims "aud")) _ h in
      elim (Bool-cases accepted) [
        | inl good ↦ (judged ∙ ap ok good, rw good at rest)
        | inr bad ↦ absurd (cc (ok-injective (rw bad at rest)))
      ]

  pub claims_are_acceptable_iff :
      (claims_are_acceptable platform method now claims client ≡ ok true)
      ↔ IsAcceptable platform method now claims client
  unfolding claims_are_acceptable audience_then_expiry expires_soon
  claims_are_acceptable_iff = (
    λ h. elim (Bool-cases (is_text (get claims "iss") client.client_id)) [
      | inr other ↦ absurd (cc (ok-injective (rw other at h)))
      | inl issued ↦ elim (Bool-cases (is_text (get claims "sub") client.client_id)) [
        | inr other ↦ absurd (cc (ok-injective (rw (issued, other) at h)))
        | inl about ↦
            let (accepted, soon) = audience_then_expiry-eq-true (rw (issued, about) at h) in
            let (exp, has_exp, expires_at, read, fits) = expires_soon-eq-true soon in
            record {
              issued_by = is_text-str (get claims "iss") client.client_id issued;
              about = is_text-str (get claims "sub") client.client_id about;
              for_server =
                  (audience_accepted_iff method.issuer method.token_endpoint (get claims "aud")).0
                    accepted;
              exp = exp;
              has_exp = has_exp;
              expires_at = expires_at;
              read = read;
              soon = fits;
            }
      ]
    ],
    λ a.
        rw
          (
            is_text_self (get claims "iss") client.client_id a.issued_by,
            is_text_self (get claims "sub") client.client_id a.about,
            (audience_accepted_iff method.issuer method.token_endpoint (get claims "aud")).1
                a.for_server,
            a.has_exp,
            a.read,
            le-leb _ _ a.soon,
          )
          refl,
  )

-- What acceptable claims use up: an identifier of this very client, until their expiry.
pub replay_key-IsAcceptable :
    (platform : Platform) (method : PrivateKeyJwt) (now : ℕ) (claims : Fields)
    (client : RegisteredClient) (jti : Value) (a : IsAcceptable platform method now claims client)
    → item_or_key_error claims "jti" ≡ ok jti
    → replay_key platform claims ≡ ok (client.client_id, text_of platform.str_of jti, a.expires_at)
unfolding replay_key
replay_key-IsAcceptable platform method now claims client jti a has_jti =
    rw (text_item_of claims "sub" client.client_id a.about, has_jti, a.has_exp, a.read) refl

pub replay_key-eq-ok :
    (platform : Platform) (claims : Fields) (key : String × String × ℕ)
    → replay_key platform claims ≡ ok key
    → (jti : Value) × (item_or_key_error claims "jti" ≡ ok jti)
unfolding replay_key
replay_key-eq-ok platform claims key h =
    let (client_id, has_id, h') = >>=-eq-ok (text_item claims "sub") _ h in
    let (jti, has_jti, h₂) = >>=-eq-ok (item_or_key_error claims "jti") _ h' in (jti, has_jti)
