-- ===== src/Routes/Statements/Single.antt =====
-- api/routes.py: a token request that presents a client assertion gets its token by nothing but the
-- claim of the assertion's identifier.
use agent_oauth_from_scratch.Shared.{
  ℕ, ◌≡◌, refl, sym, ap, ◌∙◌, String, Bool, true, false, Option, none, some, [], ◌∷◌, ◌==◌, eq_iff,
}
use agent_oauth_from_scratch.Shared.Lists.{All}
use agent_oauth_from_scratch.Outcome.{Outcome, ok, raised, ok-injective}
use agent_oauth_from_scratch.Process.Gated.{Gated, Fails, Denies, lift-Gated, >>=-Gated}
use agent_oauth_from_scratch.Value.{Fields}
use agent_oauth_from_scratch.Auth
use agent_oauth_from_scratch.Auth.Assertion.{PrivateKeyJwt, replay_key}
use agent_oauth_from_scratch.Auth.Assertion.Presenting.{extract_assertion-eq-ok}
use agent_oauth_from_scratch.Auth.Base.{PresentedCredential, ClientAuthMethod}
use agent_oauth_from_scratch.Auth.Clients.Statements.{authenticate-Gated}
use agent_oauth_from_scratch.Auth.Presented.{extract-second}
use agent_oauth_from_scratch.Auth.PrivateKeyJwt.Single.{IsRead, verify_assertion-Gated}
use agent_oauth_from_scratch.Auth.PrivateKeyJwt.{private_key_jwt}
use agent_oauth_from_scratch.Auth.SecretPost.{client_secret_post}
use agent_oauth_from_scratch.Config.{Settings}
use agent_oauth_from_scratch.Forms
use agent_oauth_from_scratch.Forms.{Request, TokenForm, read_token_form, grant_type}
use agent_oauth_from_scratch.Grants
use agent_oauth_from_scratch.Grants.Base.{Grant}
use agent_oauth_from_scratch.Grants.Installed.{get-All}
use agent_oauth_from_scratch.Models.{RegisteredClient, SigningKey}
use agent_oauth_from_scratch.Platform.{Platform, Draws}
use agent_oauth_from_scratch.Storage.Replays.Held.{IsWon}
use agent_oauth_from_scratch.Routes.{
  Server, create_app, default_grant_registry, default_client_auth_registry,
}
use agent_oauth_from_scratch.Routes.Statements.{identify_steps, caller_steps, token_steps}

abbrev is_just : Option String → String → Bool
is_just none text = false
is_just (some given) text = given == text

abbrev assertion_is : Outcome TokenForm → String → Bool
assertion_is (ok form) text = is_just (Forms.get form "client_assertion") text
assertion_is (raised e) text = false

-- whether a request can be read and has this client assertion
unfoldable pub presents : Server → String → Request → Bool
presents server text request = assertion_is (read_token_form server.platform request) text

is_just-true :
    (given : Option String) (text : String) → is_just given text ≡ true → given ≡ some text
is_just-true none text h = absurd (cc h)
is_just-true (some given) text h = ap some ((eq_iff given text).0 h)

presents-get :
    (server : Server) (text : String) (request : Request) (form : TokenForm)
    → presents server text request ≡ true
    → read_token_form server.platform request ≡ ok form
    → Forms.get form "client_assertion" ≡ some text
unfolding presents
presents-get server text request form h read =
    is_just-true (Forms.get form "client_assertion") text
      (ap (λ (r : Outcome TokenForm). assertion_is r text) (sym read) ∙ h)

module _ (text : String) (client_id jti : String) (expires_at : ℕ) where
  -- What finds the assertion in a form comes to nothing, unless it claims the identifier.
  abbrev pub IsGuard : PresentedCredential × ClientAuthMethod → Type 0
  IsGuard found =
      (draws : Draws) (client : Option RegisteredClient)
      → Gated (IsWon expires_at client_id jti) Denies (found.1.verify_steps draws found.0 client)

  -- Every grant needs a client, and a form with the assertion is judged by it.
  pub record IsGuarded (server : Server) : Type 0 where
    pub grants : All (λ (grant : Grant). grant.requires_client_auth ≡ true) server.grants.grants
    pub guards :
        (form : TokenForm) (found : PresentedCredential × ClientAuthMethod)
        → Forms.get form "client_assertion" ≡ some text
        → Auth.extract server.auth_methods form ≡ ok found
        → IsGuard found

  module _ (server : Server) (guarded : IsGuarded server) where
    identify-Gated :
        (draws : Draws) (form : TokenForm)
        → Forms.get form "client_assertion" ≡ some text
        → Gated (IsWon expires_at client_id jti) Fails (identify_steps server draws form)
    unfolding identify_steps
    identify-Gated draws form there =
        lift-Gated (IsWon expires_at client_id jti) Fails (λ e. tt)
          (Auth.extract server.auth_methods form) _
          λ found read.
            authenticate-Gated (IsWon expires_at client_id jti) draws found.0 found.1
              (λ client. guarded.guards form found there read draws client)

    caller-Gated :
        (draws : Draws) (form : TokenForm)
        → Forms.get form "client_assertion" ≡ some text
        → Gated (IsWon expires_at client_id jti) Fails (caller_steps server draws form true)
    unfolding caller_steps
    caller-Gated draws form there =
        >>=-Gated (IsWon expires_at client_id jti) Fails Fails (λ e. tt) _ _
          (identify-Gated draws form there) λ client bad. absurd bad

    pub token_steps-Gated :
        (draws : Draws) (request : Request)
        → presents server text request ≡ true
        → Gated (IsWon expires_at client_id jti) Fails (token_steps server draws request)
    unfolding token_steps
    token_steps-Gated draws request there =
        lift-Gated (IsWon expires_at client_id jti) Fails (λ e. tt)
          (read_token_form server.platform request) _
          λ form read.
            lift-Gated (IsWon expires_at client_id jti) Fails (λ e. tt) (grant_type form) _
              λ name named.
                lift-Gated (IsWon expires_at client_id jti) Fails (λ e. tt)
                  (Grants.get server.grants name) _
                  λ grant found.
                    rw
                      (get-All (λ (g : Grant). g.requires_client_auth ≡ true) server.grants name
                        grant guarded.grants found).1
                      (>>=-Gated (IsWon expires_at client_id jti) Fails Fails (λ e. tt) _ _
                        (caller-Gated draws form (presents-get server text request form there read))
                        λ client bad. absurd bad)

abbrev assertion_of : Option PresentedCredential → Option String
assertion_of none = none
assertion_of (some presented) = presented.assertion

second_guards :
    (platform : Platform) (method : PrivateKeyJwt) (first : ClientAuthMethod)
    → (text : String) (claims : Fields) (client_id jti : String) (expires_at : ℕ)
    → IsRead platform text claims
    → replay_key platform claims ≡ ok (client_id, jti, expires_at)
    → (form : TokenForm) (found : PresentedCredential × ClientAuthMethod)
    → Forms.get form "client_assertion" ≡ some text
    → Auth.extract (record { methods = first ∷ private_key_jwt platform method ∷ [] }) form
      ≡ ok found
    → IsGuard text client_id jti expires_at found
second_guards platform method first text claims client_id jti expires_at read named form found there
      extracted draws client =
    let (p, reads, is_second) =
      extract-second form first (private_key_jwt platform method) found extracted (λ q e.
        let (p, is_some, given) = extract_assertion-eq-ok platform form text q there e in
        (p, is_some)) in
    let (p', same, given) = extract_assertion-eq-ok platform form text (some p) there reads in
    rw is_second (
      verify_assertion-Gated platform method text claims read client_id jti expires_at named draws p
        client (ap assertion_of same ∙ given))

pub create_app-IsGuarded :
    (platform : Platform) (settings : Settings) (signing_key : SigningKey) (server : Server)
    → create_app platform settings signing_key ≡ ok server
    → (text : String) (claims : Fields) (client_id jti : String) (expires_at : ℕ)
    → IsRead platform text claims
    → replay_key platform claims ≡ ok (client_id, jti, expires_at)
    → IsGuarded text client_id jti expires_at server
unfolding create_app default_grant_registry default_client_auth_registry Grants.grant_registry
    Auth.client_auth_registry
create_app-IsGuarded platform settings signing_key server made text claims client_id jti expires_at
      read named =
    rw (← ok-injective made) (record {
      grants = (refl, (refl, tt));
      guards =
          second_guards platform _ (client_secret_post platform) text claims client_id jti
            expires_at read named;
    })
