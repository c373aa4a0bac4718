-- ===== src/Pipeline/Decided.antt =====
-- services/pipeline.py: which results `issue` makes a token of, and which token.
use agent_oauth_from_scratch.Shared.{
  ℕ, ◌+◌, ◌-◌, ◌*◌, ◌/◌, ◌≤◌, ◌≡◌, sym, ap, ◌∙◌, ◌↔◌, String, false, none, List, arith, ◌==◌,
}
use agent_oauth_from_scratch.Shared.Lists.{any}
use agent_oauth_from_scratch.Shared.Words.{join}
use agent_oauth_from_scratch.Outcome.{ok, ok-injective}
use agent_oauth_from_scratch.Value.{str, end, pos, ℤ}
use agent_oauth_from_scratch.Value.Times.{second, later}
use agent_oauth_from_scratch.Config.{Settings}
use agent_oauth_from_scratch.Grants.Base.{GrantResult}
use agent_oauth_from_scratch.Models.{active, SigningKey}
use agent_oauth_from_scratch.Platform.{Platform, Draws}
use agent_oauth_from_scratch.Scopes.{attenuate}
use agent_oauth_from_scratch.Storage.{Database, IssuanceRecord}
use agent_oauth_from_scratch.Tokens.Minting.{mint-eq-ok, mint-claims}
use agent_oauth_from_scratch.Tokens.Returning.{last_time}
use agent_oauth_from_scratch.Pipeline.{IssuedToken, issue, issued_claims, minter}
use agent_oauth_from_scratch.Pipeline.Claims.{issued_claims-IsDict}
use agent_oauth_from_scratch.Pipeline.Guarantees.{issue-eq-ok}
use agent_oauth_from_scratch.Pipeline.Issuing.{IsIssued}
use agent_oauth_from_scratch.Pipeline.Returning.{end_of, text_until, issue-returns}

str-injective : (s t : String) → str s ≡ str t → s ≡ t
str-injective s t h = ap (λ v. elim v [ str x ↦ x | _ ↦ s ]) h

later-pos :
    (now n planned : ℕ)
    → later now (pos n) ≡ ok planned
    → (planned ≡ now + n * second) × (now + n * second ≤ last_time)
unfolding later
later-pos now n planned h = ground arith

module _ (platform : Platform) (settings : Settings) (signing_key : SigningKey) where
  -- The principal is active, the scopes are attenuated to some, the token lasts a second and ends
  -- in time, and its identifier is new.
  pub record IsIssuable (draws : Draws) (result : GrantResult) (granted : List String) (n : ℕ)
      (db : Database) : Type 0 where
    pub usable : result.principal_status ≡ active
    pub allowed : attenuate result.requested_scopes result.ceilings ≡ ok granted
    pub in_range : draws.minted_at + n * second ≤ last_time
    pub lasting : draws.minted_at + second ≤ end_of platform settings signing_key draws result n
    pub fresh : any (λ (row : IssuanceRecord). row.jti == draws.jti) db.issued_credentials ≡ false

  -- the token of a result, for a lifetime of `n` seconds and some scopes
  abbrev pub token_for : Draws → GrantResult → List String → ℕ → IssuedToken
  token_for draws result granted n = record {
    access_token =
        text_until platform settings signing_key draws result (join granted)
          (end_of platform settings signing_key draws result n);
    expires_in = (end_of platform settings signing_key draws result n - draws.minted_at) / second;
    scope = join granted;
    issued_token_type = result.issued_token_type;
  }

  module _ (draws : Draws) (result : GrantResult) (n : ℕ) (db : Database)
      (plain : result.extra_claims ≡ end) (ttl : settings.access_token_ttl_seconds ≡ pos n) where
    returns :
        (granted : List String)
        → IsIssuable draws result granted n db
        → (issue platform settings signing_key draws result db).0
          ≡ ok (token_for draws result granted n)
    returns granted i =
        issue-returns platform settings signing_key draws result granted n db i.usable plain
          i.allowed ttl i.in_range i.lasting i.fresh

    issuable :
        (after : Database) (issued : IssuedToken)
        (i : IsIssued platform settings signing_key draws result db after issued)
        → IsIssuable draws result i.granted n db
    issuable after issued i =
        let claims = issued_claims settings result (join i.granted) in
        let m =
          mint-eq-ok platform (minter platform settings signing_key) claims none
            result.max_expires_at draws.minted_at draws.jti i.minted i.signed in
        let (planned, fits) =
          later-pos draws.minted_at n m.expires_at
            (ap (λ (z : ℤ). later draws.minted_at z) (sym ttl) ∙ m.planned) in
        let (iss, iat, has_jti, others) =
          mint-claims platform (minter platform settings signing_key) claims none
            result.max_expires_at draws.minted_at draws.jti i.minted
            (issued_claims-IsDict settings result (join i.granted)) i.signed in
        let same = str-injective i.jti draws.jti (sym i.jti_claim ∙ has_jti) in
        record {
          usable = i.usable;
          allowed = i.attenuated;
          in_range = fits;
          lasting = rw (← planned) m.alive;
          fresh = rw (← same) i.recorded.fresh;
        }

    -- If the grant adds no claims of its own, and the settings have a lifetime of `n` seconds: a
    -- result gets a token exactly when its principal is active, its scopes are attenuated to some,
    -- the lifetime ends within the range of a `datetime`, the earlier of that end and the result's
    -- own limit is at least a second away, and the identifier that is drawn is new; the token is
    -- the signed encoding of the result's claims with the attenuated scopes and that end.
    pub issue_iff :
        (issued : IssuedToken)
        → ((issue platform settings signing_key draws result db).0 ≡ ok issued) ↔ (
            (granted : List String) × IsIssuable draws result granted n db
            × (issued ≡ token_for draws result granted n))
    issue_iff issued = (
      λ h.
          let i = issue-eq-ok platform settings signing_key draws result db issued h in
          let can = issuable _ issued i in
          (i.granted, can, ok-injective (sym h ∙ returns i.granted can)),
      λ (granted, can, same). returns granted can ∙ ap ok (sym same),
    )
