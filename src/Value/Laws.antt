-- ===== src/Value/Laws.antt =====
-- What `get` reads after `put`, and how small a nested dictionary is.
use agent_oauth_from_scratch.Shared.{
  ◌<◌, ◌≤◌, String, ◌≡◌, refl, false, ◌||◌, arith, eq_iff, ◌==◌, if◌then◌else◌, Bool-cases, inl,
  inr,
}
use agent_oauth_from_scratch.Value.{
  Value, null, obj, Fields, end, field, get, put, has, update, size, size_fields,
}

pub get-put :
    (d : Fields) (k j : String) (v : Value) → get (put d k v) j ≡ (if k == j then v else get d j)
unfolding get put
get-put end k j v = refl
get-put (field i w d) k j v = ground (arith, eq_iff i k, eq_iff i j, eq_iff k j, get-put d k j v)

-- A value read from a dictionary is smaller than it.
pub size-get : (d : Fields) (k : String) → size (get d k) ≤ size_fields d
unfolding get size
size-get end k = omega arith
size-get (field i w d) k = ground (arith, size-get d k)

pub size-get_obj : (d e : Fields) (k : String) → get d k ≡ obj e → size_fields e < size_fields d
unfolding size
size-get_obj d e k h = rw h at (size-get d k)

pub size-get-le-obj : (d : Fields) (k : String) → size (get d k) ≤ size (obj d)
unfolding size
size-get-le-obj d k = omega (arith, size-get d k)

-- A dictionary holds each key once.
abbrev pub IsDict : Fields → Type 0
IsDict end = Unit
IsDict (field k v d) = (has d k ≡ false) × IsDict d

pub has-put : (d : Fields) (k j : String) (v : Value) → has (put d k v) j ≡ (k == j || has d j)
unfolding has put
has-put end k j v = ground arith
has-put (field i w d) k j v = ground (arith, eq_iff i k, eq_iff i j, eq_iff k j, has-put d k j v)

pub put-IsDict : (d : Fields) (k : String) (v : Value) → IsDict d → IsDict (put d k v)
unfolding put has
put-IsDict end k v u = (refl, tt)
put-IsDict (field i w d) k v (fresh, u) =
    ground (arith, eq_iff i k, eq_iff k i, put-IsDict d k v u, has-put d k i v)

pub get-update :
    (d e : Fields) (j : String)
    → IsDict e
    → get (update d e) j ≡ (if has e j then get e j else get d j)
unfolding update has get
get-update d end j u = refl
get-update d (field k v e) j (fresh, u) = elim (Bool-cases (k == j)) [
  | inl same ↦
      let absent : has e j ≡ false = rw (← (eq_iff k j).0 same) fresh in
      ground (arith, get-update (put d k v) e j u, get-put d k j v)
  | inr other ↦ ground (arith, get-update (put d k v) e j u, get-put d k j v)
]

pub get-eq-null : (d : Fields) (k : String) → has d k ≡ false → get d k ≡ null
unfolding has get
get-eq-null end k h = refl
get-eq-null (field i w d) k h = ground (arith, get-eq-null d k)

pub update-IsDict : (d e : Fields) → IsDict d → IsDict (update d e)
unfolding update
update-IsDict d end u = u
update-IsDict d (field k v e) u = update-IsDict (put d k v) e (put-IsDict d k v u)
