-- ===== src/Value.antt =====
-- The Python values that stand in token claims, and dictionaries of them.
pub mod Laws
pub mod Times
pub mod Wire
pub mod Json
pub mod Access
use agent_oauth_from_scratch.Shared.{
  ℕ, suc, ◌+◌, String, Bool, true, false, Option, none, some, ◌==◌, if◌then◌else◌,
}

-- `negsuc n` is -(n + 1).
pub data ℤ : Type 0 where
  pos : ℕ → ℤ
  negsuc : ℕ → ℤ

-- A decoded JSON value. `float` holds the bits of a number that is no integer; `instant` is a
-- `datetime`, which only the claims that the minter builds hold, in microseconds since year 1.
mutual
  pub data Value : Type 0 where
    null : Value
    bool : Bool → Value
    int : ℤ → Value
    float : ℕ → Value
    str : String → Value
    arr : Items → Value
    obj : Fields → Value
    instant : ℕ → Value

  pub data Items : Type 0 where
    -- no more items
    nil : Items
    cons : (first : Value) (rest : Items) → Items

  pub data Fields : Type 0 where
    end : Fields
    field : String → Value → Fields → Fields

-- `d[name]`, with `none` for a `KeyError`
unfoldable pub item : Fields → String → Option Value
item end name = none
item (field k v d) name = if k == name then some v else item d name

-- `d.get(name)`: a missing key and a null are one
unfoldable pub get : Fields → String → Value
get end name = null
get (field k v d) name = if k == name then v else get d name

-- `d[name] = v`, at the place where the key stands, or behind all keys
unfoldable pub put : Fields → String → Value → Fields
put end name v = field name v end
put (field k w d) name v =
    let rest = put d name v in if k == name then field k v d else field k w rest

-- `d.update(other)`
unfoldable pub update : Fields → Fields → Fields
unfolding put
update d end = d
update d (field k v other) = update (put d k v) other

-- `{**d, **other}` is `update d other`; `name in d`
unfoldable pub has : Fields → String → Bool
has end name = false
has (field k v d) name = if k == name then true else has d name

-- The number of entries of a dictionary, those of its values included.
unfoldable mutual
  pub size : Value → ℕ
  size (arr vs) = suc (size_items vs)
  size (obj d) = suc (size_fields d)
  size _ = 0

  pub size_items : Items → ℕ
  size_items nil = 0
  size_items (cons v vs) = size v + size_items vs

  pub size_fields : Fields → ℕ
  size_fields end = 0
  size_fields (field k v d) = suc (size v + size_fields d)
