-- ===== src/Examples/Keys.antt =====
-- Two servers that start at once over a directory without a key file, and a published key.
use agent_oauth_from_scratch.Shared.{
  ℕ, zero, suc, ◌≡◌, refl, ap, String, true, none, some, List, [], ◌∷◌, arith,
}
use agent_oauth_from_scratch.Outcome.{ok}
use agent_oauth_from_scratch.Value.{str, null, arr, obj, nil, cons, Fields, end, field, get}
use agent_oauth_from_scratch.Platform.{PrivateKey}
use agent_oauth_from_scratch.Keys.Base64url.Decoding.{decode}
use agent_oauth_from_scratch.Keys.Published.{from_bytes}
use agent_oauth_from_scratch.Routes.Discovery.{get_jwks}
use agent_oauth_from_scratch.Routes.KeySet.{get_jwks-reads_back}
use agent_oauth_from_scratch.Tokens.{token_header}
use agent_oauth_from_scratch.Examples.Data.{key}
use agent_oauth_from_scratch.Examples.Requests.{server}
use agent_oauth_from_scratch.Keys.Store.{
  KeyFormat, p256, load_private_key, validate_private_key, success, returned, advance,
}
use agent_oauth_from_scratch.Keys.Store.Race.{
  Turn, start, run, take_turn, IsPemFormat, IsKept, start_race-IsAgreed,
}
use agent_oauth_from_scratch.Keys.Store.Permissions.{IsPrivate, start-IsPrivate}
use agent_oauth_from_scratch.Keys.Store.Progress.{start-returns}

-- a key as a text: as many marks as its scalar says
tally : ℕ → String
tally zero = ""
tally (suc n) = String.◌∷◌ "I" (tally n)

tally_of : String → ℕ
tally_of String.[] = 0
tally_of (String.◌∷◌ c s) = suc (tally_of s)

tally_of-tally : (n : ℕ) → tally_of (tally n) ≡ n
unfolding tally tally_of
tally_of-tally zero = refl
tally_of-tally (suc n) = ap suc (tally_of-tally n)

abbrev tallies : KeyFormat
tallies = record {
  load_pem = λ pem. some (p256 (record { scalar = tally_of pem }));
  private_bytes = λ k. tally k.scalar;
  sha256 = λ text. [];
  posix = true;
  mkdir_mode = 493;
}

tallies-IsPemFormat : IsPemFormat tallies "/keys/es256-private.pem"
unfolding load_private_key validate_private_key
tallies-IsPemFormat k = ap (λ n. ok (record { scalar = n })) (tally_of-tally k.scalar)

abbrev one : PrivateKey
one = record { scalar = 1 }

abbrev turn_of : ℕ → ℕ → Turn
turn_of i n = record { server = i; answer = success (record { scalar = n }) }

-- both servers find no file; server 1 publishes first, and server 2 then loads its key
abbrev turns : List Turn
turns =
    turn_of 1 0
    ∷ turn_of 2 0
    ∷ turn_of 1 0
    ∷ turn_of 2 0
    ∷ turn_of 1 0
    ∷ turn_of 2 0
    ∷ turn_of 1 1
    ∷ turn_of 2 2
    ∷ turn_of 1 0
    ∷ turn_of 2 0
    ∷ turn_of 1 0
    ∷ turn_of 2 0
    ∷ turn_of 2 0
    ∷ turn_of 1 0
    ∷ turn_of 2 0
    ∷ []

first_returns :
    (run tallies "/keys/es256-private.pem" turns (start none none)).stages 1 ≡ returned one
unfolding run take_turn advance load_private_key validate_private_key tally tally_of
first_returns = refl

second_returns :
    (run tallies "/keys/es256-private.pem" turns (start none none)).stages 2 ≡ returned one
unfolding run take_turn advance load_private_key validate_private_key tally tally_of
second_returns = refl

start_race-IsAgreed_example :
    (pem : String) × (one ≡ one)
    × ((run tallies "/keys/es256-private.pem" turns (start none none)).file ≡ some pem)
    × (load_private_key tallies pem ≡ ok one)
    × IsKept tallies "/keys/es256-private.pem" none
        (run tallies "/keys/es256-private.pem" turns (start none none)).file
start_race-IsAgreed_example =
    start_race-IsAgreed tallies "/keys/es256-private.pem" tallies-IsPemFormat turns none none 1 2
      one one first_returns second_returns

start-returns_example :
    (k : PrivateKey) × ((run tallies "/keys/es256-private.pem" turns (start none none)).stages 2
      ≡ returned k)
start-returns_example =
    start-returns tallies "/keys/es256-private.pem" tallies-IsPemFormat turns none none 2
      (tt, (tt, (tt, (tt, (tt, (tt, (tt, (tt, (tt, (tt, (tt, (tt, (tt, (tt, (tt, tt)))))))))))))))
      tt (omega arith)

start-IsPrivate_example :
    IsPrivate
      (run tallies "/keys/es256-private.pem" turns (start none none)).mode
      ((run tallies "/keys/es256-private.pem" turns (start none none)).stages 2)
start-IsPrivate_example = start-IsPrivate tallies "/keys/es256-private.pem" refl turns none none 2

get_jwks-reads_back_example :
    (jwk : Fields) × (x : String) × (y : String) × (get_jwks server
      ≡ ok (field "keys" (arr (cons (obj jwk) nil)) end))
    × (get jwk "x" ≡ str x)
    × (get jwk "y" ≡ str y)
    × (from_bytes 0 (decode x) ≡ 5)
    × (from_bytes 0 (decode y) ≡ 5)
    × (get jwk "alg" ≡ str "ES256")
    × (get jwk "kid" ≡ get (token_header key) "kid")
    × (get jwk "d" ≡ null)
get_jwks-reads_back_example = get_jwks-reads_back server (omega arith) (omega arith)
