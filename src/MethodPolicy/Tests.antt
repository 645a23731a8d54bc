-- ===== src/MethodPolicy/Tests.antt =====
-- The policy at concrete requests.
use Prim.Native.String.{String}
use text.Mathlib.Text.{◌==◌}
use mercury_relay_plugin.Prelude.{◌≡◌, refl, ◌↔◌, Option, none, some, ok, err, if◌then◌else◌, pos}
use mercury_relay_plugin.StrictJson.{
  Json, null, string, integer, object, Fields, no_field, field, strict, loads_strict, has_key, get,
  put_last, add_pairs, reject_duplicate_keys,
}
use mercury_relay_plugin.MethodPolicy.{
  invalid_json, method_not_allowed, privileged_identity, profile_not_available, Policy,
  allowed_v1_methods, is_member, only_fields, is_text, is_correlated, is_allowed, mapping,
  params_of, is_start, all_of_profile, matches_profile, validate_profile_id, authorizes,
  is_permitted, check_profile, parsed, validate_text,
}
use mercury_relay_plugin.MethodPolicy.Permitted.{IsPermitted, validate_text_iff}

abbrev test_policy : Policy
test_policy = record {
  profile = "default";
  allowed_methods = allowed_v1_methods;
  profile_authorizer = none;
}

abbrev request : String → Fields → Json
request method params = object (
    field "jsonrpc" (string "2.0") (
      field "id" (integer (pos 7))
        (field "method" (string method) (field "params" (object params) no_field))))

-- A parser that knows four texts.
abbrev test_loads : String → Option Json
test_loads text =
    if text == "create"
    then some (request "session.create" (field "profile" (string "default") no_field))
    else if text == "admin"
    then some (request "gateway.shutdown" no_field)
    else if text == "identity"
    then some (request "session.create" (field "principal_id" null no_field))
    else if text == "elsewhere"
    then some (request "session.create" (field "profile" (string "work") no_field))
    else none

permits : validate_text test_policy test_loads "create" ≡ ok "create"
unfolding validate_text loads_strict strict reject_duplicate_keys add_pairs has_key put_last get
    parsed mapping params_of is_member only_fields is_text is_correlated is_allowed check_profile
    is_permitted validate_profile_id matches_profile all_of_profile is_start authorizes
permits = refl

refuses_method : validate_text test_policy test_loads "admin" ≡ err method_not_allowed
unfolding validate_text loads_strict strict reject_duplicate_keys add_pairs has_key put_last get
    parsed mapping params_of is_member only_fields is_text is_correlated is_allowed check_profile
    is_permitted validate_profile_id matches_profile all_of_profile is_start authorizes
refuses_method = refl

refuses_identity : validate_text test_policy test_loads "identity" ≡ err privileged_identity
unfolding validate_text loads_strict strict reject_duplicate_keys add_pairs has_key put_last get
    parsed mapping params_of is_member only_fields is_text is_correlated is_allowed check_profile
    is_permitted validate_profile_id matches_profile all_of_profile is_start authorizes
refuses_identity = refl

refuses_profile : validate_text test_policy test_loads "elsewhere" ≡ err profile_not_available
unfolding validate_text loads_strict strict reject_duplicate_keys add_pairs has_key put_last get
    parsed mapping params_of is_member only_fields is_text is_correlated is_allowed check_profile
    is_permitted validate_profile_id matches_profile all_of_profile is_start authorizes
refuses_profile = refl

refuses_text : validate_text test_policy test_loads "{" ≡ err invalid_json
unfolding validate_text loads_strict strict reject_duplicate_keys add_pairs has_key put_last get
    parsed mapping params_of is_member only_fields is_text is_correlated is_allowed check_profile
    is_permitted validate_profile_id matches_profile all_of_profile is_start authorizes
refuses_text = refl

validate_text_iff_example :
    (validate_text test_policy test_loads "create" ≡ ok "create")
    ↔ ((◌≡◌ {A = String} "create" "create") × IsPermitted test_policy test_loads "create")
validate_text_iff_example = validate_text_iff test_policy test_loads "create" "create"
