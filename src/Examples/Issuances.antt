-- ===== src/Examples/Issuances.antt =====
-- The pipeline and the minter on the result of one exchange.
use agent_oauth_from_scratch.Shared.{
  ℕ, ◌≤◌, ◌+◌, ◌-◌, ◌*◌, ◌/◌, ◌≡◌, refl, ◌&&◌, none, some, List, String, [], ◌∷◌,
}
use agent_oauth_from_scratch.Shared.Lists.{contains, All, IsUnique}
use agent_oauth_from_scratch.Shared.Words.{join, IsWord}
use agent_oauth_from_scratch.Outcome.{ok}
use agent_oauth_from_scratch.Value.{
  pos, str, instant, Fields, end, field, item, get, put, update, has,
}
use agent_oauth_from_scratch.Value.Times.{later, second}
use agent_oauth_from_scratch.Pipeline.{
  issue, check_identity_is_usable, issued_claims, record_token, minter,
}
use agent_oauth_from_scratch.Pipeline.Decided.{IsIssuable, token_for, issue_iff}
use agent_oauth_from_scratch.Pipeline.Guarantees.{issue-scope}
use agent_oauth_from_scratch.Scopes.{attenuate, parse_scope, within}
use agent_oauth_from_scratch.Scopes.Parsing.{parse_scope-words}
use agent_oauth_from_scratch.Storage.{no_rows, record_issuance}
use agent_oauth_from_scratch.Tokens.{MintedToken, mint, full_claims}
use agent_oauth_from_scratch.Tokens.Minting.{mint-lifetime}
use agent_oauth_from_scratch.Examples.Data.{platform, settings, key, now, draws, result, issued}

done : (issue platform settings key draws result no_rows).0 ≡ ok issued
unfolding issue check_identity_is_usable issued_claims record_token attenuate record_issuance mint
    get item put update has later join
done = refl

issue_iff_example :
    (granted : List String) × IsIssuable platform settings key draws result granted 300 no_rows
    × (issued ≡ token_for platform settings key draws result granted 300)
issue_iff_example =
    (issue_iff platform settings key draws result 300 no_rows refl refl issued).0 done

words : IsUnique ("read" ∷ []) × All IsWord ("read" ∷ [])
unfolding parse_scope
words = parse_scope-words (some "read")

issue-scope_example :
    contains (parse_scope (some issued.scope)) "write"
    ≡ (contains result.requested_scopes "write" && within result.ceilings "write")
issue-scope_example =
    issue-scope platform settings key draws result no_rows issued words.0 words.1 done "write"

abbrev claims : Fields
claims = field "sub" (str "worker") (field "scope" (str "read") end)

abbrev limit : ℕ
limit = now + 100 * second

abbrev minted : MintedToken
minted = record {
  token = "ES256.j1";
  claims = full_claims "https://as.example" now limit "j1" claims;
  expires_in = 100;
}

is_minted :
    mint platform (minter platform settings key) claims none (some limit) now "j1" ≡ ok minted
unfolding mint get item put update has later
is_minted = refl

mint-lifetime_example :
    (expires_at planned : ℕ) × (get minted.claims "exp" ≡ instant expires_at)
    × (later now (pos 300) ≡ ok planned)
    × (expires_at ≤ planned)
    × (expires_at ≤ limit)
    × (now + second ≤ expires_at)
    × (100 ≡ (expires_at - now) / second)
unfolding has
mint-lifetime_example =
    mint-lifetime platform (minter platform settings key) claims none limit now "j1" minted
      (refl, (refl, tt)) is_minted
