-- ===== src/MethodPolicy.antt =====
-- src/mercury_relay_plugin/method_policy.py: the policy for requests that enter from the relay.
-- A request is the value that the strict reader gives; the policy returns the text itself.
pub mod Permitted
mod Tests
use Prim.Native.String.{String}
use Prim.Native.Char.{code}
use text.Mathlib.Text as Text
use mercury_relay_plugin.Prelude.{
  ℕ, suc, Bool, true, false, not, ◌&&◌, ◌||◌, Option, none, some, List, [], ◌∷◌, Result, ok, err,
  or_fail, guard, leb, length, if◌then◌else◌, ◌==◌, Bytes, ◌>>=◌, ◌>>◌,
}
use mercury_relay_plugin.StrictJson.{
  Json, null, constant, decimal, boolean, integer, string, array, object, Fields, no_field, field,
  get, has_key, StrictJsonError, loads_strict,
}

pub data Reason : Type 0 where
  invalid_request invalid_json uncorrelated_request method_not_allowed : Reason
  invalid_params privileged_identity profile_not_available : Reason

-- What the authorizer does with a profile: `none` is an exception, `some true` is `True`.
pub record Policy : Type 0 where
  pub profile : String
  pub allowed_methods : List String
  pub profile_authorizer : Option (String → Option Bool)

abbrev pub allowed_v1_methods : List String
allowed_v1_methods =
    "approval.respond" ∷ "clarify.respond" ∷ "complete.slash" ∷ "config.set" ∷ "cron.manage"
    ∷ "delegation.status" ∷ "file.attach" ∷ "gateway.ping" ∷ "image.attach_bytes" ∷ "model.options"
    ∷ "process.list" ∷ "profiles.list" ∷ "projects.create" ∷ "projects.delete"
    ∷ "projects.project_sessions" ∷ "projects.set_active" ∷ "projects.tree" ∷ "prompt.submit"
    ∷ "session.active_list" ∷ "session.branch" ∷ "session.close" ∷ "session.compress"
    ∷ "session.context_breakdown" ∷ "session.create" ∷ "session.history" ∷ "session.interrupt"
    ∷ "session.resume" ∷ "session.steer" ∷ "session.undo" ∷ "session.usage" ∷ []

unfoldable pub is_member : String → List String → Bool
is_member name [] = false
is_member name (x ∷ xs) = Text.◌==◌ x name || is_member name xs

abbrev pub request_fields : List String
request_fields = "jsonrpc" ∷ "id" ∷ "method" ∷ "params" ∷ []

-- `set(request).issubset(_REQUEST_FIELDS)`
unfoldable pub only_fields : List String → Fields → Bool
unfolding is_member
only_fields names no_field = true
only_fields names (field key value rest) = is_member key names && only_fields names rest

unfoldable pub is_text : String → Option Json → Bool
is_text s none = false
is_text s (some null) = false
is_text s (some constant) = false
is_text s (some decimal) = false
is_text s (some (boolean b)) = false
is_text s (some (integer n)) = false
is_text s (some (string t)) = Text.◌==◌ t s
is_text s (some (array xs)) = false
is_text s (some (object fs)) = false

-- An identifier of a request: an `int`, or a text that is not empty.
unfoldable pub is_correlated : Option Json → Bool
is_correlated none = false
is_correlated (some null) = false
is_correlated (some constant) = false
is_correlated (some decimal) = false
is_correlated (some (boolean b)) = false
is_correlated (some (integer n)) = true
is_correlated (some (string t)) = not (Text.◌==◌ t "")
is_correlated (some (array xs)) = false
is_correlated (some (object fs)) = false

unfoldable pub is_allowed : List String → Option Json → Bool
is_allowed names none = false
is_allowed names (some null) = false
is_allowed names (some constant) = false
is_allowed names (some decimal) = false
is_allowed names (some (boolean b)) = false
is_allowed names (some (integer n)) = false
is_allowed names (some (string t)) = is_member t names
is_allowed names (some (array xs)) = false
is_allowed names (some (object fs)) = false

-- `isinstance(value, Mapping)`
unfoldable pub mapping : Reason → Json → Result Reason Fields
mapping reason null = err reason
mapping reason constant = err reason
mapping reason decimal = err reason
mapping reason (boolean b) = err reason
mapping reason (integer n) = err reason
mapping reason (string t) = err reason
mapping reason (array xs) = err reason
mapping reason (object fs) = ok fs

-- `request.get("params", {})`
unfoldable pub params_of : Option Json → Result Reason Fields
params_of none = ok no_field
params_of (some value) = mapping invalid_params value

abbrev pub codes : String → List ℕ
codes String.[] = []
codes (String.◌∷◌ c s) = code c ∷ codes s

-- `[a-z0-9]`
unfoldable pub is_start : ℕ → Bool
is_start c = (leb b'a' c && leb c b'z') || (leb b'0' c && leb c b'9')

-- `[a-z0-9_-]`
unfoldable pub all_of_profile : List ℕ → Bool
all_of_profile [] = true
all_of_profile (c ∷ cs) = (is_start c || c == b'_' || c == b'-') && all_of_profile cs

unfoldable pub matches_profile : List ℕ → Bool
matches_profile [] = false
matches_profile (c ∷ cs) = is_start c && all_of_profile cs && leb (length cs) 63

-- `validate_profile_id` of config.py, which raises where this is false.
unfoldable pub validate_profile_id : String → Bool
validate_profile_id profile = matches_profile (codes profile)

unfoldable pub authorizes : Option Bool → Bool
authorizes none = false
authorizes (some answer) = answer

-- The `try` on the requested profile.
unfoldable pub is_permitted : String → Option (String → Option Bool) → String → Bool
is_permitted own none profile = validate_profile_id profile && Text.◌==◌ profile own
is_permitted own (some authorizer) profile =
    validate_profile_id profile && authorizes (authorizer profile)

unfoldable pub check_profile : Policy → Option Json → Result Reason (Unit {0})
check_profile policy none = ok tt
check_profile policy (some null) = ok tt
check_profile policy (some constant) = err invalid_params
check_profile policy (some decimal) = err invalid_params
check_profile policy (some (boolean b)) = err invalid_params
check_profile policy (some (integer n)) = err invalid_params
check_profile policy (some (string profile)) =
    guard (is_permitted policy.profile policy.profile_authorizer profile) profile_not_available
check_profile policy (some (array xs)) = err invalid_params
check_profile policy (some (object fs)) = err invalid_params

unfoldable pub parsed : Result StrictJsonError Json → Result Reason Json
parsed (ok value) = ok value
parsed (err e) = err invalid_json

module _ (policy : Policy) (loads : String → Option Json) where
  unfoldable pub validate_text : String → Result Reason String
  validate_text raw = do
    value ← parsed (loads_strict loads raw)
    request ← mapping invalid_request value
    guard (is_text "2.0" (get "jsonrpc" request)) invalid_request
    guard (only_fields request_fields request) invalid_request
    guard (is_correlated (get "id" request)) uncorrelated_request
    guard (is_allowed policy.allowed_methods (get "method" request)) method_not_allowed
    params ← params_of (get "params" request)
    guard (not (has_key "auth_identity" params || has_key "principal_id" params))
        privileged_identity
    check_profile policy (get "profile" params)
    ok raw
