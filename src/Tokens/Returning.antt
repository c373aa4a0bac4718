-- ===== src/Tokens/Returning.antt =====
-- crypto/tokens.py: `mint` for a lifetime in range.
use agent_oauth_from_scratch.Shared.{
  ℕ, ◌+◌, ◌-◌, ◌*◌, ◌/◌, ◌≤◌, ◌≡◌, refl, String, true, false, Option, none, arith, eqb,
}
use agent_oauth_from_scratch.Shared.Lists.{keep, is_empty}
use agent_oauth_from_scratch.Outcome.{ok}
use agent_oauth_from_scratch.Value.{str, instant, Fields, get, has, pos}
use agent_oauth_from_scratch.Value.Laws.{IsDict, get-update}
use agent_oauth_from_scratch.Value.Times.{second, last_second, later}
use agent_oauth_from_scratch.Platform.{Platform}
use agent_oauth_from_scratch.Tokens.{
  algorithm, token_header, minter_owned_claims, full_claims, TokenMinter, mint, sign, earliest,
}
use agent_oauth_from_scratch.Tokens.Minting.{unclaimed-has}

-- the last microsecond of a `datetime`
abbrev pub last_time : ℕ
last_time = last_second * second + (second - 1)

module _ (platform : Platform) where
  later_fits :
      (now n : ℕ) → now + n * second ≤ last_time → later now (pos n) ≡ ok (now + n * second)
  unfolding later
  later_fits now n fits = ground arith

  pub lasts : (now n : ℕ) → (now + n * second - now) / second ≡ n
  lasts now n = omega arith

  alive : (now ends : ℕ) → now + second ≤ ends → eqb ((ends - now) / second) 0 ≡ false
  alive now ends h = ground arith

  -- A token that ends in time and lasts at least a second is minted.
  pub mint-returns :
      (minter : TokenMinter) (claims : Fields) (not_after : Option ℕ) (n now : ℕ) (jti : String)
      → is_empty (keep (has claims) minter_owned_claims) ≡ true
      → minter.default_ttl_seconds ≡ pos n
      → now + n * second ≤ last_time
      → now + second ≤ earliest (now + n * second) not_after
      → mint platform minter claims none not_after now jti
        ≡ ok (record {
          token =
              platform.encode
                (full_claims minter.issuer now (earliest (now + n * second) not_after) jti claims)
                minter.signing_key.private_key
                algorithm
                (token_header minter.signing_key);
          claims = full_claims minter.issuer now (earliest (now + n * second) not_after) jti claims;
          expires_in = (earliest (now + n * second) not_after - now) / second;
        })
  unfolding mint sign
  mint-returns minter claims not_after n now jti free lifetime fits lasts_some =
      rw (free, lifetime, later_fits now n fits, alive now _ lasts_some) refl

  -- What the minter adds is in the claims.
  pub full_claims-owned :
      (issuer : String) (now expires_at : ℕ) (jti : String) (claims : Fields)
      → IsDict claims
      → is_empty (keep (has claims) minter_owned_claims) ≡ true
      → (get (full_claims issuer now expires_at jti claims) "jti" ≡ str jti)
        × (get (full_claims issuer now expires_at jti claims) "iat" ≡ instant now)
        × (get (full_claims issuer now expires_at jti claims) "exp" ≡ instant expires_at)
  unfolding get
  full_claims-owned issuer now expires_at jti claims d free =
      let (no_exp, no_iat, no_iss, no_jti) = unclaimed-has platform claims free in
      (
        rw (get-update _ claims "jti" d, no_jti) refl,
        rw (get-update _ claims "iat" d, no_iat) refl,
        rw (get-update _ claims "exp" d, no_exp) refl,
      )
