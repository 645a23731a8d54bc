-- ===== src/Authorization/Tests.antt =====
-- The repository at concrete inputs: the theorems applied, and runs of its methods.
use mercury_relay_plugin.Prelude.{
  ◌≡◌, ◌≢◌, refl, true, false, none, some, [], ◌∷◌, ◌==◌, Bytes, ok, replicate, take, bytes_eq,
}
use mercury_relay_plugin.Authorization.Records.{
  Text, authorized, revoked, active, Device, Offer, State, Library, client, validate_auth_state,
}
use mercury_relay_plugin.Authorization.{
  new_device, admit_device, summary, revoked_device, Env, written, consume_offer, revoke,
  is_authorized, revoked_key, runs,
}
use mercury_relay_plugin.Authorization.Changes.{Changes}
use mercury_relay_plugin.Authorization.Calls.{creates_offer, perform_all}
use mercury_relay_plugin.Authorization.Withdrawal.{revoke-is_authorized}
use mercury_relay_plugin.Authorization.Refusals.{
  Raises, IsUsable, revoked_key_never_pairs, unusable_offer_never_pairs,
}

-- An encoding that is the identity on 16 and on 32 bytes, and a digest that is one.
abbrev pub test_library : Library
test_library = record {
  urlsafe_b64decode = λ t. some (take 16 t);
  b64url_encode = λ b. b;
  sha256 = λ b. b;
  is_space = λ c. c == 32;
}

abbrev pub phone_id : Text
phone_id = replicate 16 b'a'

abbrev pub phone_key : Bytes
phone_key = replicate 32 1

abbrev pub phone : Device
phone = record {
  device_id = phone_id;
  device_public_key = phone_key;
  channel_binding_digest = replicate 32 2;
  status = authorized;
  created_at = 10;
  updated_at = 20;
  epoch = 0;
  capabilities = client ∷ [];
  device_name = none;
  label = none;
}

abbrev lost_phone : Device
lost_phone = record phone { status = revoked; capabilities = []; epoch = 1 }

abbrev old_offer : Offer
old_offer = record {
  offer_id = replicate 16 b'o';
  capability_digest = replicate 32 3;
  installation_id = replicate 32 4;
  host_public_key = replicate 32 5;
  created_at = 100;
  expires_at = 400;
  status = active;
  consumed_at = 0;
}

abbrev pub paired : State
paired = record {
  schema_version = 1;
  revoked_key_digests = none;
  devices = phone ∷ [];
  pairing_offer = some old_offer;
}

abbrev withdrawn : State
withdrawn = record paired { devices = lost_phone ∷ [] }

abbrev pub at_500 : Env
at_500 = record {
  now = some 500;
  later = some 500;
  first_write = written;
  second_write = written;
  identifiers = [];
  capability = none;
  identity = some (record { installation_id = replicate 32 4; public_key = replicate 32 5 });
}

paired_valid : validate_auth_state test_library paired ≡ true
unfolding validate_auth_state runs bytes_eq
paired_valid = refl

phone_authorized : (is_authorized test_library phone_id phone_key paired).0 ≡ ok true
unfolding is_authorized runs bytes_eq
phone_authorized = refl

revoke_phone :
    (is_authorized test_library phone_id phone_key (revoke test_library at_500 phone_id paired).1).0
    ≡ ok false
unfolding is_authorized revoke runs bytes_eq
revoke_phone = refl

phone_key_revoked : revoked_key test_library phone_key withdrawn ≡ true
unfolding revoked_key bytes_eq
phone_key_revoked = refl

revoked_key_never_pairs_example :
    Raises
      (perform_all test_library ((at_500, creates_offer 60) ∷ []) withdrawn)
      (consume_offer test_library at_500 (replicate 32 3) phone_key (replicate 32 2))
revoked_key_never_pairs_example =
    revoked_key_never_pairs test_library at_500 phone_key ((at_500, creates_offer 60) ∷ [])
      withdrawn (replicate 32 3) (replicate 32 2) phone_key_revoked

abbrev offered : State
offered = record paired { pairing_offer = some (record old_offer { expires_at = 700 }) }

abbrev with_identifier : Env
with_identifier = record at_500 { identifiers = some (replicate 16 b'd') ∷ [] }

abbrev tablet : Device
tablet = new_device test_library (replicate 16 b'd') (replicate 32 9) (replicate 32 2) 500

tablet_is_paired :
    (consume_offer test_library with_identifier
      (replicate 32 3)
      (replicate 32 9)
      (replicate 32 2)
      offered).0
    ≡ ok (summary tablet)
unfolding consume_offer admit_device runs bytes_eq
tablet_is_paired = refl

unusable_offer_never_pairs_example : IsUsable test_library with_identifier (replicate 32 3) offered
unusable_offer_never_pairs_example =
    unusable_offer_never_pairs test_library with_identifier (replicate 32 3) (replicate 32 9)
      (replicate 32 2) offered (summary tablet) tablet_is_paired

pub phone_is_found :
    (revoke test_library at_500 phone_id paired).0 ≡ ok (some (summary (revoked_device phone 500)))
unfolding revoke runs bytes_eq
phone_is_found = refl

revoke-is_authorized_example :
    (is_authorized test_library phone_id phone_key (revoke test_library at_500 phone_id paired).1).0
    ≢ ok true
revoke-is_authorized_example =
    revoke-is_authorized test_library at_500 phone_id phone_key paired
      (some (summary (revoked_device phone 500))) phone_is_found
