-- ===== src/StrictJson.antt =====
-- src/mercury_relay_plugin/strict_json.py: the JSON reader of every peer-facing boundary.
-- The parser of the `json` module is the parameter `loads`: it gives the tree of the text as it is
-- written, with every pair of an object in order. The two hooks of the code then go over that tree.
pub mod Keys
mod Tests
use Prim.Native.String.{String}
use text.Mathlib.Text.{◌==◌}
use mercury_relay_plugin.Prelude.{
  Bool, true, false, ◌||◌, Option, none, some, Result, ok, err, or_fail, if◌then◌else◌, ℤ, ◌>>=◌,
}

pub data StrictJsonError : Type 0 where
  duplicate_object_key non_standard_constant invalid_json : StrictJsonError

-- `constant` is NaN or an infinity, `decimal` any number that is not an `int`.
mutual
  pub data Json : Type 0 where
    null constant decimal : Json
    boolean : Bool → Json
    integer : ℤ → Json
    string : String → Json
    array : Items → Json
    object : Fields → Json

  pub data Items : Type 0 where
    no_item : Items
    item : Json → Items → Items

  pub data Fields : Type 0 where
    no_field : Fields
    field : String → Json → Fields → Fields

-- `key in result`
unfoldable pub has_key : String → Fields → Bool
has_key key no_field = false
has_key key (field k v rest) = k == key || has_key key rest

-- `mapping.get(key)`
unfoldable pub get : String → Fields → Option Json
get key no_field = none
get key (field k v rest) = if k == key then some v else get key rest

-- `result[key] = value`, for a key that is not there
unfoldable pub put_last : Fields → String → Json → Fields
put_last no_field key value = field key value no_field
put_last (field k v rest) key value = field k v (put_last rest key value)

unfoldable pub add_pairs : Fields → Fields → Result StrictJsonError Fields
unfolding has_key put_last
add_pairs result no_field = ok result
add_pairs result (field key value pairs) =
    let rest = add_pairs (put_last result key value) pairs in
    if has_key key result then err duplicate_object_key else rest

-- `_reject_duplicate_keys`
unfoldable pub reject_duplicate_keys : Fields → Result StrictJsonError Fields
reject_duplicate_keys pairs = add_pairs no_field pairs

-- The tree with the hooks applied, the inner values first.
unfoldable mutual
  pub strict : Json → Result StrictJsonError Json
  strict null = ok null
  strict constant = err non_standard_constant
  strict decimal = ok decimal
  strict (boolean b) = ok (boolean b)
  strict (integer n) = ok (integer n)
  strict (string s) = ok (string s)
  strict (array xs) = do ys ← strict_items xs; ok (array ys)
  strict (object pairs) = do
    values ← strict_fields pairs
    result ← reject_duplicate_keys values
    ok (object result)

  pub strict_items : Items → Result StrictJsonError Items
  strict_items no_item = ok no_item
  strict_items (item x xs) = do y ← strict x; ys ← strict_items xs; ok (item y ys)

  pub strict_fields : Fields → Result StrictJsonError Fields
  strict_fields no_field = ok no_field
  strict_fields (field k v rest) = do
    w ← strict v
    others ← strict_fields rest
    ok (field k w others)

unfoldable pub loads_strict : (String → Option Json) → String → Result StrictJsonError Json
loads_strict loads text = do tree ← or_fail (loads text) invalid_json; strict tree
