-- ===== src/Examples/Verified.antt =====
-- A root token at the verifier of the server, a minute after it was issued.
use agent_oauth_from_scratch.Shared.{◌+◌, ◌*◌, ◌≡◌, refl, none, some, [], ◌∷◌, arith}
use agent_oauth_from_scratch.Shared.Words.{join}
use agent_oauth_from_scratch.Outcome.{ok}
use agent_oauth_from_scratch.Value.{str, instant, Fields, field, get, put, has, update}
use agent_oauth_from_scratch.Value.Times.{second, later}
use agent_oauth_from_scratch.Value.Wire.{IsReadBack, read_back, read_back-IsReadBack}
use agent_oauth_from_scratch.Platform.{Platform}
use agent_oauth_from_scratch.Pipeline.{issued_claims, minter}
use agent_oauth_from_scratch.Pipeline.Issuing.{IsIssued}
use agent_oauth_from_scratch.Pipeline.Verifying.{IsSigned, verify-issued}
use agent_oauth_from_scratch.Scopes.{attenuate}
use agent_oauth_from_scratch.Storage.{no_rows}
use agent_oauth_from_scratch.Tokens.{TokenVerifier, mint, token_header, verify_any_audience, verify}
use agent_oauth_from_scratch.Examples.Data.{platform, settings, key, now, draws, caller}
use agent_oauth_from_scratch.Examples.Lineages.{
  root_claims, root_result, token_of, issued_for, with_row,
}

-- a platform that reads the one token of the caller
abbrev reader : Platform
reader = record platform {
  unverified_header = λ token. some (field "alg" (str "ES256") (token_header key));
  decode = λ time public_key checks token. some (read_back (root_claims caller));
}

abbrev IsIssuedByReader : Type 0
IsIssuedByReader =
    IsIssued reader settings key draws (root_result caller) no_rows (with_row (root_result caller))
      (issued_for (root_result caller))

abbrev issued_with_claims :
    attenuate ("read" ∷ []) (caller.allowed_scopes ∷ []) ≡ ok ("read" ∷ [])
    → mint reader
        (minter reader settings key)
        (issued_claims settings (root_result caller) (join ("read" ∷ [])))
        none
        none
        now
        "j1"
      ≡ ok (token_of (root_claims caller))
    → get (root_claims caller) "jti" ≡ str "j1"
    → get (root_claims caller) "iat" ≡ instant now
    → get (root_claims caller) "exp" ≡ instant (now + 300 * second)
    → IsIssuedByReader
issued_with_claims attenuated signed has_jti has_iat has_exp = record {
  granted = "read" ∷ [];
  minted = token_of (root_claims caller);
  issued_at = now;
  expires_at = now + 300 * second;
  jti = "j1";
  usable = refl;
  attenuated = attenuated;
  signed = signed;
  jti_claim = has_jti;
  iat_claim = has_iat;
  exp_claim = has_exp;
  recorded = record { fresh = refl; added = refl };
  token = refl;
}

signed : IsSigned reader (root_claims caller) key.private_key (token_header key)
unfolding get
signed = record {
  header_read = field "alg" (str "ES256") (token_header key);
  opens = refl;
  alg = refl;
  typ = refl;
  kid = refl;
  decodes = λ time checks known good.
      (read_back (root_claims caller), refl, read_back-IsReadBack (root_claims caller));
}

abbrev verifier : TokenVerifier
verifier = record { issuer = settings.issuer; signing_key = key }

verify-issued_example :
    ((read : Fields) × (verify_any_audience reader verifier (now + 60 * second) "ES256.j1"
        ≡ ok read)
      × IsReadBack read (root_claims caller))
    × ((read : Fields) × (verify reader verifier
            (now + 60 * second)
            "ES256.j1"
            settings.resource_audience
          ≡ ok read)
        × IsReadBack read (root_claims caller))
unfolding attenuate mint issued_claims get put update has later join
verify-issued_example =
    verify-issued reader settings key draws (root_result caller) no_rows
      (with_row (root_result caller)) (issued_for (root_result caller))
      (issued_with_claims refl refl refl refl refl) refl signed (now + 60 * second) (omega arith)
      (omega arith)
