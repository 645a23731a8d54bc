-- ===== src/Admission.antt =====
-- src/mercury_relay_plugin/admission.py: the envelope that opens a controller, and the admission of a channel.
-- Every refusal of the envelope has the reason invalid_auth_envelope.
pub mod Values
pub mod Envelope
pub mod Open
pub mod Claims
pub mod Stages
pub mod Admitted
pub mod Pairing
mod Tests
use Prim.Native.String.{String}
use text.Mathlib.Text as Text
use mercury_relay_plugin.Prelude.{
  ℕ, ◌*◌, Bool, true, false, not, ◌&&◌, ◌||◌, Option, none, some, List, [], ◌∷◌, Bytes, length, ltb,
  leb, ◌==◌, if◌then◌else◌, Result, ok, err, or_fail, guard, ◌>>=◌, ◌>>◌, ℤ, pos, negsuc,
}
use mercury_relay_plugin.StrictJson.{
  Json, null, constant, decimal, boolean, integer, string, array, object, Fields, get, has_key,
  StrictJsonError, loads_strict,
}
use mercury_relay_plugin.MethodPolicy.{codes, only_fields, is_text, validate_profile_id}
use mercury_relay_plugin.SessionLease.{max_cursor}
use mercury_relay_plugin.Authorization.Records.{max_device_name_chars}

-- The reasons of an AdmissionRejected, and `rejected_by_offer`, the PairingRejected that passes through.
pub data Refusal : Type 0 where
  invalid_auth_envelope invalid_channel channel_already_admitted device_not_authorized : Refusal
  profile_not_available lease_not_available runtime_unavailable : Refusal
  pairing_unavailable pairing_rejected rejected_by_offer : Refusal

-- What the six results of `_parse_controller_auth` are; `recovers` says that the version is 1.
pub record AuthEnvelope : Type 0 where
  pub device_id : String
  pub profile : String
  pub resume_cursor : Option ℕ
  pub recovers : Bool
  pub lease_channel : String
  pub device_name : Option String

abbrev pub auth_envelope_type : String
auth_envelope_type = "controller.open"

abbrev pub max_auth_envelope_bytes : ℕ
max_auth_envelope_bytes = 512

abbrev pub envelope_fields : List String
envelope_fields =
    "type" ∷ "device_id" ∷ "profile" ∷ "resume_cursor" ∷ "recovery_version" ∷ "channel"
    ∷ "device_name" ∷ []

-- `[A-Za-z0-9_-]`
unfoldable pub is_channel_char : ℕ → Bool
is_channel_char c =
    (leb b'A' c && leb c b'Z')
    || (leb b'a' c && leb c b'z')
    || (leb b'0' c && leb c b'9')
    || c == b'_'
    || c == b'-'

unfoldable pub all_channel_chars : List ℕ → Bool
all_channel_chars [] = true
all_channel_chars (c ∷ cs) = is_channel_char c && all_channel_chars cs

-- `_CHANNEL_RE.fullmatch`
unfoldable pub matches_channel : String → Bool
matches_channel s =
    all_channel_chars (codes s) && leb 1 (length (codes s)) && leb (length (codes s)) 64

-- `none` is the ValueError.
unfoldable pub validate_channel : Json → Option String
validate_channel null = some ""
validate_channel (string s) = if matches_channel s then some s else none
validate_channel value = none

unfoldable pub string_of : Option Json → Option String
string_of (some (string s)) = some s
string_of value = none

unfoldable pub cursor_of : Option Json → Result Refusal (Option ℕ)
cursor_of none = ok none
cursor_of (some (integer (pos n))) =
    if leb n max_cursor then ok (some n) else err invalid_auth_envelope
cursor_of (some value) = err invalid_auth_envelope

unfoldable pub recovery_of : Option Json → Result Refusal Bool
recovery_of none = ok false
recovery_of (some (integer (pos n))) = if n == 1 then ok true else err invalid_auth_envelope
recovery_of (some value) = err invalid_auth_envelope

-- A channel that is named is not the default one.
unfoldable pub named_channel : Option String → Result Refusal String
named_channel none = err invalid_auth_envelope
named_channel (some s) = if Text.◌==◌ s "" then err invalid_auth_envelope else ok s

unfoldable pub channel_of : Option Json → Result Refusal String
channel_of none = ok ""
channel_of (some value) = named_channel (validate_channel value)

unfoldable pub name_of : Option Json → Result Refusal (Option String)
name_of none = ok none
name_of (some (string s)) =
    if leb (length (codes s)) (4 * max_device_name_chars)
    then ok (some s)
    else err invalid_auth_envelope
name_of (some value) = err invalid_auth_envelope

unfoldable pub object_of : Result StrictJsonError Json → Result Refusal Fields
object_of (ok (object fs)) = ok fs
object_of value = err invalid_auth_envelope

-- The fields that may be absent.
unfoldable pub parse_options : String → String → Fields → Result Refusal AuthEnvelope
parse_options device_id profile value = do
  resume_cursor ← cursor_of (get "resume_cursor" value)
  recovers ← recovery_of (get "recovery_version" value)
  lease_channel ← channel_of (get "channel" value)
  device_name ← name_of (get "device_name" value)
  ok (record {
    device_id = device_id;
    profile = profile;
    resume_cursor = resume_cursor;
    recovers = recovers;
    lease_channel = lease_channel;
    device_name = device_name;
  })

unfoldable pub has_required : Fields → Bool
has_required value = has_key "type" value && has_key "device_id" value && has_key "profile" value

unfoldable pub is_device_size : ℕ → Bool
is_device_size size = leb 1 size && leb size 128

unfoldable pub parse_fields : Fields → Result Refusal AuthEnvelope
parse_fields value = do
  guard (has_required value) invalid_auth_envelope
  guard (only_fields envelope_fields value) invalid_auth_envelope
  guard (is_text auth_envelope_type (get "type" value)) invalid_auth_envelope
  device_id ← or_fail (string_of (get "device_id" value)) invalid_auth_envelope
  guard (is_device_size (length (codes device_id))) invalid_auth_envelope
  profile ← or_fail (string_of (get "profile" value)) invalid_auth_envelope
  guard (validate_profile_id profile) invalid_auth_envelope
  parse_options device_id profile value

-- `_parse_controller_auth`: `decode` is UTF-8, and `loads` the parser of the json module.
unfoldable pub parse_controller_auth :
    (Bytes → Option String) → (String → Option Json) → Bytes → Result Refusal AuthEnvelope
parse_controller_auth decode loads plaintext = do
  guard (leb (length plaintext) max_auth_envelope_bytes) invalid_auth_envelope
  text ← or_fail (decode plaintext) invalid_auth_envelope
  value ← object_of (loads_strict loads text)
  parse_fields value
