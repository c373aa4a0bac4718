-- ===== src/Grants/Exchange/Steps.antt =====
-- What single steps of an exchange give: the expiry, the tenant, the depth, and the signed text.
use agent_oauth_from_scratch.Shared.{
  ℕ, ◌+◌, ◌*◌, ◌≤◌, String, ◌≡◌, refl, ◌≢◌, ◌⊎◌, sym, ap, ◌∙◌, Bool, true, false, Option, none,
  some, arith, eq_iff, not, inl,
}
use agent_oauth_from_scratch.Shared.Words.{join}
use agent_oauth_from_scratch.Outcome.{ok, >>=-eq-ok, ok-injective, guard-eq-ok, guard, oauth_error}
use agent_oauth_from_scratch.Value.{
  Value, int, pos, negsuc, str, null, Fields, end, field, get, item, ℤ,
}
use agent_oauth_from_scratch.Value.Access.{text_item, item_or_key_error}
use agent_oauth_from_scratch.Value.Times.{from_timestamp, timestamp_ℤ, to_timestamp, epoch, second}
use agent_oauth_from_scratch.Config.{Settings}
use agent_oauth_from_scratch.Models.{SigningKey}
use agent_oauth_from_scratch.Platform.{Platform, Draws}
use agent_oauth_from_scratch.Storage.{Database}
use agent_oauth_from_scratch.Tokens.{algorithm, token_header}
use agent_oauth_from_scratch.Tokens.Minting.{mint-eq-ok}
use agent_oauth_from_scratch.Delegation.{declared_depth}
use agent_oauth_from_scratch.Grants.Base.{GrantResult}
use agent_oauth_from_scratch.Grants.Exchange.{next_depth, exceeds, agreed}
use agent_oauth_from_scratch.Pipeline.{IssuedToken, issued_claims, minter}
use agent_oauth_from_scratch.Pipeline.Issuing.{IsIssued}

-- A time of the wire format that is not after `t` seconds since 1970.
abbrev pub IsAtMost : ℤ → ℕ → Type 0
IsAtMost (pos u) t = u ≤ t
IsAtMost (negsuc u) t = Unit

pub to_timestamp-IsAtMost : (e t : ℕ) → e ≤ (t + epoch) * second → IsAtMost (to_timestamp e) t
unfolding to_timestamp
to_timestamp-IsAtMost e t h = ground arith

pub from_timestamp-pos :
    (f : ℕ → Option ℕ) (t limit : ℕ)
    → from_timestamp f (int (pos t)) ≡ ok limit
    → limit ≡ (t + epoch) * second
unfolding from_timestamp timestamp_ℤ
from_timestamp-pos f t limit h = ground arith

not-eq-true : (b : Bool) → not b ≡ true → b ≡ false
not-eq-true b h = ground arith

pub agreed-eq-ok :
    (subject_tenant agreed_on : Option String) (actor_tenant : String)
    → agreed subject_tenant actor_tenant ≡ ok agreed_on
    → (agreed_on ≡ some actor_tenant)
      × ((subject_tenant ≡ none) ⊎ (subject_tenant ≡ some actor_tenant))
agreed-eq-ok none agreed_on actor_tenant h = (sym (ok-injective h), inl refl)
agreed-eq-ok (some t) agreed_on actor_tenant h = ground (arith, eq_iff t actor_tenant)

pub text_item-of : (d : Fields) (k s t : String) → get d k ≡ str s → text_item d k ≡ ok t → t ≡ s
text_item-of d k s t said read = ground arith

pub nonull : (t : ℕ) → int (pos t) ≢ null
nonull t h = absurd (cc h)

pub key_item-of :
    (d : Fields) (k : String) (v w : Value)
    → get d k ≡ w
    → w ≢ null
    → item_or_key_error d k ≡ ok v
    → w ≡ v
unfolding get item
key_item-of end k v w said there read = absurd (there (sym said))
key_item-of (field name u d) k v w said there read = ground (arith, key_item-of d k v w)

pub not_exceeds : (n most : ℕ) → exceeds n (pos most) ≡ false → n ≤ most
not_exceeds n most h = ground arith

-- The token text is the signed encoding of these claims.
abbrev pub IsTokenOf : Platform → SigningKey → String → Fields → Type 0
IsTokenOf platform key text claims =
    text ≡ platform.encode claims key.private_key algorithm (token_header key)

module _ (platform : Platform) where
  pub next_depth-eq-ok :
      (maximum_depth : ℤ) (claims : Fields) (n : ℕ)
      → next_depth platform maximum_depth claims ≡ ok n
      → (depth : ℕ) × (declared_depth platform.object_id claims ≡ ok depth)
        × (n ≡ depth + 1)
        × (exceeds n maximum_depth ≡ false)
  unfolding next_depth
  next_depth-eq-ok maximum_depth claims n h =
      let (depth, declared, rest) = >>=-eq-ok (declared_depth platform.object_id claims) _ h in
      let (u, within_cap, made) =
        >>=-eq-ok
          (guard (not (exceeds (depth + 1) maximum_depth))
            (oauth_error "invalid_grant" "delegation is too deep" 400))
          _ rest in
      (
        depth,
        declared,
        sym (ok-injective made),
        rw (← ok-injective made) (not-eq-true _ (guard-eq-ok _ _ within_cap)),
      )

module _ (platform : Platform) (settings : Settings) (signing_key : SigningKey) where
  pub encoded :
      (draws : Draws) (result : GrantResult) (db after : Database) (issued : IssuedToken)
      (i : IsIssued platform settings signing_key draws result db after issued)
      → IsTokenOf platform signing_key issued.access_token i.minted.claims
  encoded draws result db after issued i =
      ap (λ (t : IssuedToken). t.access_token) i.token
      ∙ (mint-eq-ok platform (minter platform settings signing_key)
          (issued_claims settings result (join i.granted)) none result.max_expires_at
          draws.minted_at draws.jti i.minted i.signed).encoded
