-- ===== src/Value/Wire.antt =====
-- What the claims of a token become on the way through PyJWT: `jwt.encode` writes a `datetime` as
-- whole seconds since 1970, and every other claim is read back as it was signed.
use agent_oauth_from_scratch.Shared.{
  ℕ, suc, ◌+◌, ◌-◌, ◌*◌, ◌/◌, leb, Bool-cases, inl, inr, ◌≤◌, ◌≡◌, refl, String, true, Option,
  arith,
}
use agent_oauth_from_scratch.Outcome.{ok}
use agent_oauth_from_scratch.Value.{
  Value, null, bool, int, float, str, arr, obj, instant, Fields, end, field, get,
}
use agent_oauth_from_scratch.Value.Times.{
  to_timestamp, timestamp_ℤ, from_timestamp, in_range, epoch, second,
}

abbrev pub as_read : Value → Value
as_read (instant t) = int (to_timestamp t)
as_read v = v

-- Verified claims are the claims that were signed.
abbrev pub IsReadBack : Fields → Fields → Type 0
IsReadBack read signed = (k : String) → get read k ≡ as_read (get signed k)

unfoldable pub read_back : Fields → Fields
read_back end = end
read_back (field k v d) = field k (as_read v) (read_back d)

pub read_back-IsReadBack : (d : Fields) → IsReadBack (read_back d) d
unfolding read_back get
read_back-IsReadBack end k = refl
read_back-IsReadBack (field name v d) k = ground (arith, read_back-IsReadBack d k)

pub as_read-eq-str : (v : Value) (s : String) → as_read v ≡ str s → v ≡ str s
as_read-eq-str (instant t) s h = absurd (cc h)
as_read-eq-str null s h = h
as_read-eq-str (bool b) s h = h
as_read-eq-str (int n) s h = h
as_read-eq-str (float bits) s h = h
as_read-eq-str (str t) s h = h
as_read-eq-str (arr items) s h = h
as_read-eq-str (obj d) s h = h

pub as_read-eq-null : (v : Value) → as_read v ≡ null → v ≡ null
as_read-eq-null (instant t) h = absurd (cc h)
as_read-eq-null null h = h
as_read-eq-null (bool b) h = h
as_read-eq-null (int n) h = h
as_read-eq-null (float bits) h = h
as_read-eq-null (str t) h = h
as_read-eq-null (arr items) h = h
as_read-eq-null (obj d) h = h

in_range-eq-ok : (seconds limit : ℕ) → in_range seconds ≡ ok limit → limit ≡ seconds * second
in_range-eq-ok seconds limit h = ground arith

-- A time that went into a token and is read as a `datetime` again has lost at most its fraction of a
-- second.
pub timestamp-to_timestamp :
    (f : ℕ → Option ℕ) (t limit : ℕ)
    → from_timestamp f (int (to_timestamp t)) ≡ ok limit
    → limit ≤ t
unfolding from_timestamp timestamp_ℤ to_timestamp
timestamp-to_timestamp f t limit h = elim (Bool-cases (leb epoch (t / second))) [
  | inl late ↦
      let fits = in_range-eq-ok (t / second - epoch + epoch) limit (rw late at h) in
      ground (arith, fits, late)
  | inr early ↦
      let u = epoch - t / second - 1 in
      let there : leb (suc u) epoch ≡ true = ground (arith, early) in
      let fits = in_range-eq-ok (epoch - suc u) limit (rw there at (rw early at h)) in
      ground (arith, fits, early)
]
