-- ===== src/Tokens/Minting.antt =====
-- What `mint` guarantees of a token.
use agent_oauth_from_scratch.Shared.{
  ℕ, ◌+◌, ◌-◌, ◌/◌, ◌≤◌, String, ◌≡◌, refl, ap, sym, true, false, Option, some, arith, Bool-cases,
  inl, inr, eqb,
}
use agent_oauth_from_scratch.Shared.Lists.{contains, keep, is_empty}
use agent_oauth_from_scratch.Outcome.{ok, >>=-eq-ok, guard-eq-ok, ok-injective}
use agent_oauth_from_scratch.Value.{str, instant, Fields, get, has, ℤ}
use agent_oauth_from_scratch.Value.Laws.{IsDict, get-update, get-eq-null}
use agent_oauth_from_scratch.Value.Times.{later, second}
use agent_oauth_from_scratch.Platform.{Platform}
use agent_oauth_from_scratch.Tokens.{
  algorithm, token_header, MintedToken, TokenMinter, mint, sign, minter_owned_claims, full_claims,
  earliest, lifetime,
}

module _ (platform : Platform) where
  pub record IsMinted (minter : TokenMinter) (claims : Fields) (ttl_seconds : Option ℤ)
      (not_after : Option ℕ) (now : ℕ) (jti : String) (minted : MintedToken) : Type 0 where
    pub expires_at : ℕ
    pub planned : later now (lifetime ttl_seconds minter) ≡ ok expires_at
    pub unclaimed : is_empty (keep (has claims) minter_owned_claims) ≡ true
    pub claimed :
        minted.claims ≡ full_claims minter.issuer now (earliest expires_at not_after) jti claims
    pub encoded :
        minted.token
        ≡ platform.encode minted.claims minter.signing_key.private_key algorithm
            (token_header minter.signing_key)
    pub lasts : minted.expires_in ≡ (earliest expires_at not_after - now) / second
    pub alive : now + second ≤ earliest expires_at not_after

  sign-IsMinted :
      (minter : TokenMinter) (claims : Fields) (ttl_seconds : Option ℤ) (not_after : Option ℕ)
      (now : ℕ) (jti : String) (minted : MintedToken) (expires_at : ℕ)
      → later now (lifetime ttl_seconds minter) ≡ ok expires_at
      → is_empty (keep (has claims) minter_owned_claims) ≡ true
      → sign platform minter now jti claims (earliest expires_at not_after) ≡ ok minted
      → IsMinted minter claims ttl_seconds not_after now jti minted
  unfolding sign
  sign-IsMinted minter claims ttl_seconds not_after now jti minted expires_at planned unclaimed h =
      let e = earliest expires_at not_after in
      elim (Bool-cases (eqb ((e - now) / second) 0)) [
        | inl over ↦ cc (rw over at h)
        | inr more ↦
            let same = ok-injective (rw more at h) in
            record {
              expires_at = expires_at;
              planned = planned;
              unclaimed = unclaimed;
              claimed = ap (λ (m : MintedToken). m.claims) (sym same);
              encoded = rw (← same) refl;
              lasts = ap (λ (m : MintedToken). m.expires_in) (sym same);
              alive = ground arith;
            }
      ]

  pub mint-eq-ok :
      (minter : TokenMinter) (claims : Fields) (ttl_seconds : Option ℤ) (not_after : Option ℕ)
      (now : ℕ) (jti : String) (minted : MintedToken)
      → mint platform minter claims ttl_seconds not_after now jti ≡ ok minted
      → IsMinted minter claims ttl_seconds not_after now jti minted
  unfolding mint
  mint-eq-ok minter claims ttl_seconds not_after now jti minted h =
      let (u, allowed, h') = >>=-eq-ok _ _ h in
      let (expires_at, planned, signed) =
        >>=-eq-ok (later now (lifetime ttl_seconds minter)) _ h' in
      sign-IsMinted minter claims ttl_seconds not_after now jti minted expires_at planned
        (guard-eq-ok _ _ allowed) signed

  -- The four claims that the server owns are absent from what the caller gave.
  pub unclaimed-has :
      (claims : Fields)
      → is_empty (keep (has claims) minter_owned_claims) ≡ true
      → (has claims "exp" ≡ false)
        × (has claims "iat" ≡ false)
        × (has claims "iss" ≡ false)
        × (has claims "jti" ≡ false)
  unclaimed-has claims h = ground arith

  -- If the caller's claims name each key once, a minted token carries the server's issuer, the
  -- time of minting and the given identifier, and under every name that the minter does not own
  -- exactly what the caller gave.
  pub mint-claims :
      (minter : TokenMinter) (claims : Fields) (ttl_seconds : Option ℤ) (not_after : Option ℕ)
      (now : ℕ) (jti : String) (minted : MintedToken)
      → IsDict claims
      → mint platform minter claims ttl_seconds not_after now jti ≡ ok minted
      → (get minted.claims "iss" ≡ str minter.issuer)
        × (get minted.claims "iat" ≡ instant now)
        × (get minted.claims "jti" ≡ str jti)
        × ((k : String)
            → contains minter_owned_claims k ≡ false
            → get minted.claims k ≡ get claims k)
  unfolding get
  mint-claims minter claims ttl_seconds not_after now jti minted d h =
      let m = mint-eq-ok minter claims ttl_seconds not_after now jti minted h in
      let (no_exp, no_iat, no_iss, no_jti) = unclaimed-has claims m.unclaimed in
      rw m.claimed (
        rw (get-update _ claims "iss" d, no_iss),
        rw (get-update _ claims "iat" d, no_iat),
        rw (get-update _ claims "jti" d, no_jti),
        λ k other. rw (get-update _ claims k d) (ground (arith, get-eq-null claims k)),
      )

  -- If the caller's claims name each key once, a minted token expires at least a second after
  -- it is minted, not after the lifetime that was asked for, and not after the limit that was
  -- given, and `expires_in` is the whole seconds until then.
  pub mint-lifetime :
      (minter : TokenMinter) (claims : Fields) (ttl_seconds : Option ℤ) (limit : ℕ) (now : ℕ)
      (jti : String) (minted : MintedToken)
      → IsDict claims
      → mint platform minter claims ttl_seconds (some limit) now jti ≡ ok minted
      → (expires_at planned : ℕ) × (get minted.claims "exp" ≡ instant expires_at)
        × (later now (lifetime ttl_seconds minter) ≡ ok planned)
        × (expires_at ≤ planned)
        × (expires_at ≤ limit)
        × (now + second ≤ expires_at)
        × (minted.expires_in ≡ (expires_at - now) / second)
  unfolding get
  mint-lifetime minter claims ttl_seconds limit now jti minted d h =
      let m = mint-eq-ok minter claims ttl_seconds (some limit) now jti minted h in
      let (no_exp, no_iat, no_iss, no_jti) = unclaimed-has claims m.unclaimed in
      (
        earliest m.expires_at (some limit),
        m.expires_at,
        rw (m.claimed, get-update _ claims "exp" d, no_exp),
        m.planned,
        ground arith,
        ground arith,
        m.alive,
        m.lasts,
      )
