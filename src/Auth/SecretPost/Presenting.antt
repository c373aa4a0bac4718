-- ===== src/Auth/SecretPost/Presenting.antt =====
-- auth/client_secret_post.py, `extract`: what is read from a form with a client identifier.
use agent_oauth_from_scratch.Shared.{◌≡◌, sym, String, Option, some}
use agent_oauth_from_scratch.Outcome.{ok, ok-injective, >>=-eq-ok}
use agent_oauth_from_scratch.Outcome.Polite.{IsPolite, >>=-IsPolite}
use agent_oauth_from_scratch.Forms.{TokenForm, get, require}
use agent_oauth_from_scratch.Forms.Given.{present_of_some, require-IsPolite}
use agent_oauth_from_scratch.Auth.Base.{PresentedCredential}
use agent_oauth_from_scratch.Auth.SecretPost.{extract_secret}

module _ (form : TokenForm) (client_id : String)
    (there : get form "client_id" ≡ some client_id) where
  -- It presents a secret, or the request is refused.
  pub extract_secret-eq-ok :
      (q : Option PresentedCredential)
      → extract_secret form ≡ ok q
      → (p : PresentedCredential) × (q ≡ some p)
  unfolding extract_secret
  extract_secret-eq-ok q h =
      let (named, has_name, h') =
        >>=-eq-ok (require form "client_id") _
          (rw (present_of_some form "client_id" client_id there) at h) in
      let (secret, has_secret, made) = >>=-eq-ok (require form "client_secret") _ h' in
      (_, sym (ok-injective made))

  pub extract_secret-IsPolite : IsPolite (extract_secret form)
  unfolding extract_secret
  extract_secret-IsPolite = rw (present_of_some form "client_id" client_id there) (
      >>=-IsPolite (require form "client_id") _ (require-IsPolite form "client_id") λ named.
        >>=-IsPolite (require form "client_secret") _ (require-IsPolite form "client_secret")
          λ secret. tt)
