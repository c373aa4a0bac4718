-- ===== src/Auth/Presented.antt =====
-- What the registry of authentication methods finds in a request: the one method that is presented.
use agent_oauth_from_scratch.Shared.{
  ◌≡◌, ◌≢◌, refl, sym, ap, ◌∙◌, Option, none, some, List, [], ◌∷◌,
}
use agent_oauth_from_scratch.Shared.Lists.{All}
use agent_oauth_from_scratch.Outcome.{ok, ok-injective, >>=-eq-ok}
use agent_oauth_from_scratch.Outcome.Polite.{IsPolite, >>=-IsPolite}
use agent_oauth_from_scratch.Forms.{TokenForm}
use agent_oauth_from_scratch.Auth
use agent_oauth_from_scratch.Auth.{
  ClientAuthRegistry, Found, add_found, find_presented, exactly_one,
}
use agent_oauth_from_scratch.Auth.Base.{PresentedCredential, ClientAuthMethod}

abbrev IsFoundBy : TokenForm → (ClientAuthMethod → Type 0) → Found → Type 0
IsFoundBy form P (presented, method) = P method × (method.extract form ≡ ok (some presented))

add_found-All :
    (form : TokenForm) (P : ClientAuthMethod → Type 0) (presented : Option PresentedCredential)
    (method : ClientAuthMethod) (found : List Found)
    → method.extract form ≡ ok presented
    → P method
    → All (IsFoundBy form P) found
    → All (IsFoundBy form P) (add_found presented method found)
add_found-All form P none method found e p ps = ps
add_found-All form P (some presented) method found e p ps = ((p, e), ps)

find_presented-All :
    (form : TokenForm) (P : ClientAuthMethod → Type 0) (methods : List ClientAuthMethod)
    (found : List Found)
    → All P methods
    → find_presented methods form ≡ ok found
    → All (IsFoundBy form P) found
unfolding find_presented
find_presented-All form P [] found ps h = rw (← ok-injective h) tt
find_presented-All form P (method ∷ methods) found (p, ps) h =
    let (presented, e, h') = >>=-eq-ok (method.extract form) _ h in
    let (rest, found_rest, made) = >>=-eq-ok (find_presented methods form) _ h' in
    rw (← ok-injective made) (
      add_found-All form P presented method rest e p
        (find_presented-All form P methods rest ps found_rest))

exactly_one-All :
    (P : Found → Type 0) (found : List Found) (one : Found)
    → All P found
    → exactly_one found ≡ ok one
    → P one
unfolding exactly_one
exactly_one-All P [] one ps h = absurd (cc h)
exactly_one-All P (a ∷ []) one (p, ps) h = rw (← ok-injective h) p
exactly_one-All P (a ∷ b ∷ found) one ps h = absurd (cc h)

-- The credential that is found is the one that the found method reads from the form, and that method
-- has every property that all the installed methods have.
pub extract-All :
    (form : TokenForm) (P : ClientAuthMethod → Type 0) (registry : ClientAuthRegistry)
    (presented : PresentedCredential) (method : ClientAuthMethod)
    → All P registry.methods
    → Auth.extract registry form ≡ ok (presented, method)
    → P method × (method.extract form ≡ ok (some presented))
unfolding Auth.extract
extract-All form P registry presented method ps h =
    let (found, read, one) = >>=-eq-ok (find_presented registry.methods form) _ h in
    exactly_one-All (IsFoundBy form P) found (presented, method)
      (find_presented-All form P registry.methods found ps read) one

add_found-nil :
    (first : Option PresentedCredential) (method other : ClientAuthMethod)
    (presented : PresentedCredential) (one : Found)
    → exactly_one (add_found first method ((presented, other) ∷ [])) ≡ ok one
    → one ≡ (presented, other)
unfolding exactly_one
add_found-nil none method other presented one h = sym (ok-injective h)
add_found-nil (some p) method other presented one h = absurd (cc h)

-- Of two methods the second is the one that is found, if it finds anything.
pub extract-second :
    (form : TokenForm) (first second : ClientAuthMethod) (one : Found)
    → Auth.extract (record { methods = first ∷ second ∷ [] }) form ≡ ok one
    → ((q : Option PresentedCredential)
        → second.extract form ≡ ok q
        → (p : PresentedCredential) × (q ≡ some p))
    → (p : PresentedCredential) × (second.extract form ≡ ok (some p)) × (one ≡ (p, second))
unfolding Auth.extract find_presented
extract-second form first second one h finds =
    let (found, read, h') = >>=-eq-ok (find_presented (first ∷ second ∷ []) form) _ h in
    let (p, read_first, rest) = >>=-eq-ok (first.extract form) _ read in
    let (others, read_others, made) = >>=-eq-ok (find_presented (second ∷ []) form) _ rest in
    let (q, read_second, made_others) = >>=-eq-ok (second.extract form) _ read_others in
    let (presented, is_some) = finds q read_second in
    let is_found : found ≡ add_found p first ((presented, second) ∷ []) =
      cc (ok-injective made, ok-injective made_others, is_some) in
    (
      presented,
      read_second ∙ ap ok is_some,
      add_found-nil p first second presented one (ap exactly_one (sym is_found) ∙ h'),
    )

find_presented-IsPolite :
    (form : TokenForm) (methods : List ClientAuthMethod)
    → All (λ (method : ClientAuthMethod). IsPolite (method.extract form)) methods
    → IsPolite (find_presented methods form)
unfolding find_presented
find_presented-IsPolite form [] polite = tt
find_presented-IsPolite form (method ∷ methods) (polite, rest) =
    >>=-IsPolite (method.extract form) _ polite λ presented.
      >>=-IsPolite (find_presented methods form) _ (find_presented-IsPolite form methods rest)
        λ found. tt

exactly_one-IsPolite : (found : List Found) → IsPolite (exactly_one found)
unfolding exactly_one
exactly_one-IsPolite [] = refl
exactly_one-IsPolite (one ∷ []) = tt
exactly_one-IsPolite (one ∷ other ∷ found) = refl

pub extract-IsPolite :
    (form : TokenForm) (registry : ClientAuthRegistry)
    → All (λ (method : ClientAuthMethod). IsPolite (method.extract form)) registry.methods
    → IsPolite (Auth.extract registry form)
unfolding Auth.extract
extract-IsPolite form registry polite =
    >>=-IsPolite (find_presented registry.methods form) _
      (find_presented-IsPolite form registry.methods polite) exactly_one-IsPolite

-- Where each of two methods finds something, if it does not refuse, no credential is taken.
pub extract-ne-ok :
    (form : TokenForm) (first second : ClientAuthMethod) (one : Found)
    → ((q : Option PresentedCredential)
        → first.extract form ≡ ok q
        → (p : PresentedCredential) × (q ≡ some p))
    → ((q : Option PresentedCredential)
        → second.extract form ≡ ok q
        → (p : PresentedCredential) × (q ≡ some p))
    → Auth.extract (record { methods = first ∷ second ∷ [] }) form ≢ ok one
unfolding Auth.extract find_presented exactly_one
extract-ne-ok form first second one finds finds_too h =
    let (found, read, h') = >>=-eq-ok (find_presented (first ∷ second ∷ []) form) _ h in
    let (q, read_first, rest) = >>=-eq-ok (first.extract form) _ read in
    let (others, read_others, made) = >>=-eq-ok (find_presented (second ∷ []) form) _ rest in
    let (r, read_second, made_others) = >>=-eq-ok (second.extract form) _ read_others in
    let (p, is_some) = finds q read_first in
    let (o, is_some_too) = finds_too r read_second in
    let is_found : found ≡ (p, first) ∷ (o, second) ∷ [] =
      cc (ok-injective made, ok-injective made_others, is_some, is_some_too) in
    absurd (cc (ap exactly_one (sym is_found) ∙ h'))
