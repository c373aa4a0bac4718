-- ===== src/Exec/Refused.antt =====
-- Actions that refuse the request before they write.
use agent_oauth_from_scratch.Shared.{◌≡◌, refl}
use agent_oauth_from_scratch.Outcome.{Outcome, ok, raised, oauth, OauthError}
use agent_oauth_from_scratch.Outcome.Polite.{IsPolite}
use agent_oauth_from_scratch.Exec.{Exec, lift, ◌>>=◌}

-- The request is refused with status 400 and nothing is written.
abbrev pub IsRefused : {S A : Type 0} → Exec S A → S → Type 0
IsRefused m db = (e : OauthError) × (m db ≡ (raised (oauth e), db)) × (e.status_code ≡ 400)

pub lift-IsRefused :
    {S A B : Type 0} (r : Outcome A) (f : A → Exec S B) (db : S)
    → IsPolite r
    → ((a : A) → r ≡ ok a → IsRefused (f a) db)
    → IsRefused (lift r >>= f) db
lift-IsRefused (ok a) f db h k = k a refl
lift-IsRefused (raised (oauth e)) f db h k = (e, refl, h)
lift-IsRefused (raised e) f db h k = absurd h

pub >>=-IsRefused :
    {S A B : Type 0} (m : Exec S A) (f : A → Exec S B) (db : S)
    → IsRefused m db
    → IsRefused (m >>= f) db
>>=-IsRefused m f db (e, ends, polite) = (e, rw ends refl, polite)
