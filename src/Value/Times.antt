-- ===== src/Value/Times.antt =====
-- `datetime` values, as microseconds since the first day of year 1, and their conversions.
use agent_oauth_from_scratch.Shared.{
  ℕ, suc, ◌+◌, ◌-◌, ◌*◌, ◌/◌, true, false, Option, none, some, leb, if◌then◌else◌,
}
use agent_oauth_from_scratch.Outcome.{Outcome, ok, raised, uncaught}
use agent_oauth_from_scratch.Value.{Value, bool, int, float, ℤ, pos, negsuc}

abbrev pub second : ℕ
second = 1000000

-- 1970-01-01, in seconds since the first day of year 1
abbrev pub epoch : ℕ
epoch = 62135596800

-- 9999-12-31 23:59:59
abbrev pub last_second : ℕ
last_second = 315537897599

-- A number of seconds since year 1 as a `datetime`, or the exception of one out of range.
abbrev pub in_range : ℕ → Outcome ℕ
in_range seconds = if leb seconds last_second then ok (seconds * second) else raised uncaught

unfoldable pub timestamp_ℤ : ℤ → Outcome ℕ
timestamp_ℤ (pos t) = in_range (t + epoch)
timestamp_ℤ (negsuc t) = if leb (suc t) epoch then in_range (epoch - suc t) else raised uncaught

-- `datetime.fromtimestamp(value, tz=UTC)`; what is no number is a `TypeError`
unfoldable pub from_timestamp : (ℕ → Option ℕ) → Value → Outcome ℕ
unfolding timestamp_ℤ
from_timestamp float_timestamp (int t) = timestamp_ℤ t
from_timestamp float_timestamp (bool true) = timestamp_ℤ (pos 1)
from_timestamp float_timestamp (bool false) = timestamp_ℤ (pos 0)
from_timestamp float_timestamp (float bits) = elim (float_timestamp bits) [
  | none ↦ raised uncaught
  | some t ↦ ok t
]
from_timestamp float_timestamp _ = raised uncaught

-- `now + timedelta(seconds=n)`
unfoldable pub later : ℕ → ℤ → Outcome ℕ
later now (pos n) =
    let t = now + n * second in
    if leb t (last_second * second + (second - 1)) then ok t else raised uncaught
later now (negsuc n) =
    if leb (suc n * second) now then ok (now - suc n * second) else raised uncaught

-- `timegm(value.utctimetuple())`: what `jwt.encode` writes for a `datetime`
unfoldable pub to_timestamp : ℕ → ℤ
to_timestamp t =
    let seconds = t / second in
    if leb epoch seconds then pos (seconds - epoch) else negsuc (epoch - seconds - 1)
