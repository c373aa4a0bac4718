-- ===== src/Outcome/Polite.antt =====
-- errors.py: results that are refusals of the request.
use agent_oauth_from_scratch.Shared.{◌≡◌, refl, String, Bool, true, false}
use agent_oauth_from_scratch.Outcome.{Outcome, ok, raised, oauth, guard, oauth_error, ◌>>=◌}

-- A refusal of the request: an `OAuthError` with status 400, or no failure.
abbrev pub IsPolite {ℓ} : {A : Type ℓ} → Outcome A → Type 0
IsPolite (ok a) = Unit
IsPolite (raised (oauth e)) = e.status_code ≡ 400
IsPolite (raised _) = ⊥

pub guard-IsPolite :
    (b : Bool) (error description : String) → IsPolite (guard b (oauth_error error description 400))
guard-IsPolite true error description = tt
guard-IsPolite false error description = refl

pub >>=-IsPolite :
    {A B : Type 0} (r : Outcome A) (f : A → Outcome B)
    → IsPolite r
    → ((a : A) → IsPolite (f a))
    → IsPolite (r >>= f)
>>=-IsPolite (ok a) f h k = k a
>>=-IsPolite (raised (oauth e)) f h k = h
>>=-IsPolite (raised e) f h k = absurd h
