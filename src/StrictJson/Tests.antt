-- ===== src/StrictJson/Tests.antt =====
-- The strict reader at concrete trees.
use Prim.Native.String.{String}
use text.Mathlib.Text.{◌==◌}
use mercury_relay_plugin.Prelude.{
  ◌≡◌, refl, ◌↔◌, true, Option, none, some, ok, err, if◌then◌else◌, pos,
}
use mercury_relay_plugin.StrictJson.{
  duplicate_object_key, non_standard_constant, invalid_json, Json, null, constant, integer, array,
  object, no_item, item, no_field, field, strict, loads_strict, has_key, put_last, add_pairs,
  reject_duplicate_keys,
}
use mercury_relay_plugin.StrictJson.Keys.{is_strict, loads_strict_iff}

abbrev nested : Json
nested =
    object
      (field "a" (array (item (integer (pos 1)) (item null no_item))) (field "b" null no_field))

abbrev repeated : Json
repeated = array (item (object (field "a" null (field "b" null (field "a" null no_field)))) no_item)

-- A parser that knows one text.
abbrev test_loads : String → Option Json
test_loads text = if text == "{\"a\":[1,null],\"b\":null}" then some nested else none

passes : strict nested ≡ ok nested
unfolding strict reject_duplicate_keys add_pairs has_key put_last
passes = refl

refuses_repeated : strict repeated ≡ err duplicate_object_key
unfolding strict reject_duplicate_keys add_pairs has_key put_last
refuses_repeated = refl

refuses_constant : strict (array (item constant no_item)) ≡ err non_standard_constant
unfolding strict
refuses_constant = refl

refuses_text : loads_strict test_loads "{" ≡ err invalid_json
unfolding loads_strict
refuses_text = refl

loads_strict_iff_example :
    (loads_strict test_loads "{\"a\":[1,null],\"b\":null}" ≡ ok nested)
    ↔ ((test_loads "{\"a\":[1,null],\"b\":null}" ≡ some nested) × (is_strict nested ≡ true))
loads_strict_iff_example = loads_strict_iff test_loads "{\"a\":[1,null],\"b\":null}" nested
