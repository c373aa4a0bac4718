-- ===== src/Auth/Assertion/Presenting.antt =====
-- auth/private_key_jwt.py, `extract`: what is read from a form with a client assertion.
use agent_oauth_from_scratch.Shared.{
  ◌≡◌, refl, sym, ◌∙◌, not, String, Option, none, some, ◌==◌, Bool-cases, Option-cases, inl, inr,
}
use agent_oauth_from_scratch.Outcome.{ok, ok-injective, >>=-eq-ok, guard}
use agent_oauth_from_scratch.Outcome.Polite.{IsPolite, guard-IsPolite, >>=-IsPolite}
use agent_oauth_from_scratch.Value.{Value, str, get as get_claim}
use agent_oauth_from_scratch.Platform.{Platform}
use agent_oauth_from_scratch.Forms.{TokenForm, get, require}
use agent_oauth_from_scratch.Forms.Given.{require-get, require-IsPolite, present_of_some}
use agent_oauth_from_scratch.Auth.Base.{PresentedCredential}
use agent_oauth_from_scratch.Auth.Assertion.{
  private_key_jwt_name, assertion_type, non_empty_subject, unverified_subject, disagrees,
  extract_attempt, extract_assertion,
}

module _ (platform : Platform) where
  extract_attempt-eq-ok :
      (form : TokenForm) (q : Option PresentedCredential)
      → extract_attempt platform form ≡ ok q
      → (p : PresentedCredential) × (q ≡ some p) × (p.assertion ≡ get form "client_assertion")
  unfolding extract_attempt
  extract_attempt-eq-ok form q h =
      let (given_type, typed, h₁) = >>=-eq-ok (require form "client_assertion_type") _ h in
      let (guarded, is_type, h₂) = >>=-eq-ok (guard (given_type == assertion_type) _) _ h₁ in
      let (text, given, h₃) = >>=-eq-ok (require form "client_assertion") _ h₂ in
      let (claimed, named, h₄) = >>=-eq-ok (unverified_subject platform text) _ h₃ in
      let (agreed, agrees, made) =
        >>=-eq-ok (guard (not (disagrees platform (get form "client_id") claimed)) _) _ h₄ in
      (
        record {
          client_id = claimed;
          method = private_key_jwt_name;
          secret = none;
          assertion = some text;
        },
        sym (ok-injective made),
        sym (require-get form "client_assertion" text given),
      )

  -- A form with an assertion presents that assertion, if it presents anything by it.
  pub extract_assertion-eq-ok :
      (form : TokenForm) (text : String) (q : Option PresentedCredential)
      → get form "client_assertion" ≡ some text
      → extract_assertion platform form ≡ ok q
      → (p : PresentedCredential) × (q ≡ some p) × (p.assertion ≡ some text)
  unfolding extract_assertion
  extract_assertion-eq-ok form text q there h =
      let (p, is_some, given) =
        extract_attempt-eq-ok form q
          (rw (present_of_some form "client_assertion" text there) at h) in
      (p, is_some, given ∙ there)

  non_empty_subject-IsPolite : (subject : Value) → IsPolite (non_empty_subject subject)
  unfolding non_empty_subject
  non_empty_subject-IsPolite (str subject) = elim (Bool-cases (subject == "")) [
    | inl empty ↦ rw empty refl
    | inr other ↦ rw other tt
  ]
  non_empty_subject-IsPolite _ = refl

  unverified_subject-IsPolite : (text : String) → IsPolite (unverified_subject platform text)
  unfolding unverified_subject
  unverified_subject-IsPolite text = elim (Option-cases (platform.unverified_claims text)) [
    | inl malformed ↦ rw (malformed, unverified_subject) refl
    | inr (claims, parsed) ↦
        rw (parsed, unverified_subject) (non_empty_subject-IsPolite (get_claim claims "sub"))
  ]

  -- A form with an assertion presents it, or the request is refused.
  pub extract_assertion-IsPolite :
      (form : TokenForm) (text : String)
      → get form "client_assertion" ≡ some text
      → IsPolite (extract_assertion platform form)
  unfolding extract_assertion extract_attempt
  extract_assertion-IsPolite form text there =
      rw (present_of_some form "client_assertion" text there) (
        >>=-IsPolite (require form "client_assertion_type") _
          (require-IsPolite form "client_assertion_type")
          λ given_type.
            >>=-IsPolite (guard (given_type == assertion_type) _) _
              (guard-IsPolite (given_type == assertion_type) _ _)
              λ guarded.
                >>=-IsPolite (require form "client_assertion") _
                  (require-IsPolite form "client_assertion")
                  λ assertion.
                    >>=-IsPolite (unverified_subject platform assertion) _
                      (unverified_subject-IsPolite assertion)
                      λ claimed.
                        >>=-IsPolite
                          (guard (not (disagrees platform (get form "client_id") claimed)) _) _
                          (guard-IsPolite (not (disagrees platform (get form "client_id") claimed))
                            _ _)
                          λ agreed. tt)
