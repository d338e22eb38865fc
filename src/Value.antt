-- ===== src/Value.antt =====
-- The values that the services carry and do not compute with: Python's integers and floats, and
-- the JSON values of libs/shared/models.py. A JSON object is a list of its items in insertion order.
use media_center.Prelude.{
  ℕ, ◌^◌, String, Bool, false, not, ◌&&◌, ◌||◌, str_eq, leb, ◌==◌, Option, none, some,
  if◌then◌else◌,
}

-- `negsuc n` is -(n + 1).
pub data ℤ : Type 0 where
  pos : ℕ → ℤ
  negsuc : ℕ → ℤ

-- A double: `finite s m k` is m / 2 ^ k, negated if `s`. Every finite double is of this form.
pub data Float : Type 0 where
  nan : Float
  infinite : Bool → Float
  finite : Bool → ℕ → ℕ → Float

-- Field(ge=0, le=1, allow_inf_nan=False)
unfoldable pub is_share : Float → Bool
is_share nan = false
is_share (infinite s) = false
is_share (finite s m k) = (not s || m == 0) && leb m (2 ^ k)

mutual
  pub data Json : Type 0 where
    null : Json
    bool : Bool → Json
    int : ℤ → Json
    float : Float → Json
    str : String → Json
    arr : Items → Json
    obj : Fields → Json

  pub data Items : Type 0 where
    nil : Items
    cons : Json → Items → Items

  pub data Fields : Type 0 where
    end : Fields
    field : String → Json → Fields → Fields

-- d[k] = v
unfoldable pub set_field : String → Json → Fields → Fields
set_field k v end = field k v end
set_field k v (field j w d) = if str_eq j k then field j v d else field j w (set_field k v d)

-- d.get(k)
unfoldable pub get_field : String → Fields → Option Json
get_field k end = none
get_field k (field j v d) = if str_eq j k then some v else get_field k d
