-- ===== src/Admission/Tests.antt =====
-- An admission at concrete inputs, with a library that encrypts nothing.
use Prim.Native.String.{String}
use mercury_relay_plugin.Prelude.{
  ℕ, ◌+◌, ◌≡◌, ◌≢◌, refl, ◌↔◌, ◌⊎◌, true, false, Option, none, some, [], Bytes, ok, err, replicate,
}
use mercury_relay_plugin.StrictJson.{
  Json, string, object, no_field, field, strict, loads_strict, has_key, get, put_last, add_pairs,
  reject_duplicate_keys,
}
use mercury_relay_plugin.MethodPolicy.{
  codes, is_member, only_fields, is_text, is_start, all_of_profile, matches_profile,
  validate_profile_id,
}
use mercury_relay_plugin.SecureChannel.{
  Noise, NoiseChannel, complete, is_complete, handshake_finished, open_connection, decrypt,
  decrypt_open, transported,
}
use mercury_relay_plugin.Authorization.{summary, revoked_device, revoke}
use mercury_relay_plugin.Authorization.Tests.{
  test_library, phone_key, phone, paired, at_500, phone_is_found,
}
use mercury_relay_plugin.Admission.{
  Refusal, AuthEnvelope, string_of, cursor_of, recovery_of, channel_of, name_of, object_of,
  parse_options, has_required, is_device_size, parse_fields, parse_controller_auth,
}
use mercury_relay_plugin.Admission.Envelope.{IsEnvelope, parse_controller_auth_iff}
use mercury_relay_plugin.Admission.Open.{Leases, World, Answers, complete_pairing, open_controller}
use mercury_relay_plugin.Admission.Claims.{IsClaimed, IsUnclaimed}
use mercury_relay_plugin.Admission.Stages.{Ends}
use mercury_relay_plugin.Admission.Admitted.{IsAdmitted, IsEarly, open_controller-IsAdmitted}
use mercury_relay_plugin.Admission.Pairing.{
  IsPaired, Unmoved, complete_pairing-IsPaired, revoked_while_opening,
}

abbrev plain : Noise ℕ
plain = record {
  start = λ initiator private prologue remote. some 0;
  write_message = λ k payload. some ([], k);
  read_message = λ k wire. some ([], k);
  encrypt_record = λ k bytes. some (bytes, k);
  decrypt_record = λ k bytes. some (bytes, k);
  handshake_hash = λ k. none;
  captured_peer = λ k. none;
}

abbrev channel : NoiseChannel ℕ
channel = record {
  connection = some 3;
  is_initiator = false;
  closed = false;
  admitted = false;
  transport_bound = false;
  next_action = complete;
  channel_binding = some (replicate 32 2);
  remote_static_public = some phone_key;
  configured_remote_static = none;
}

abbrev world : World ℕ ℕ
world = record { state = paired; channel = channel; leases = 0 }

-- Leases are counted.
abbrev counted : Leases ℕ ℕ
counted = record {
  get = λ device lease_channel n. none;
  release_device = λ device n. n;
  ask = λ asks e key epoch n. (ok n, n + 1);
  detach = λ a n. n;
}

-- While the lease is opened, the phone is revoked.
abbrev revoking : Answers ℕ ℕ
revoking = record {
  naming = at_500;
  first = at_500;
  second = at_500;
  first_profile = λ p. some true;
  second_profile = λ p. some true;
  awaited =
      λ v. record v { state = (revoke test_library at_500 (codes "aaaaaaaaaaaaaaaa") paired).1 };
}

abbrev envelope : AuthEnvelope
envelope = record {
  device_id = "aaaaaaaaaaaaaaaa";
  profile = "default";
  resume_cursor = none;
  recovers = false;
  lease_channel = "";
  device_name = none;
}

abbrev written : Bytes
written = replicate 16 b'{'

abbrev decode : Bytes → Option String
decode bytes = some "{}"

abbrev loads : String → Option Json
loads text = some (
    object (
      field "device_id" (string "aaaaaaaaaaaaaaaa")
        (field "profile" (string "default") (field "type" (string "controller.open") no_field))))

envelope_parsed : parse_controller_auth decode loads written ≡ ok envelope
unfolding parse_controller_auth object_of loads_strict strict reject_duplicate_keys add_pairs
    has_key put_last get parse_fields has_required only_fields is_member is_text string_of
    is_device_size validate_profile_id matches_profile all_of_profile is_start parse_options
    cursor_of recovery_of channel_of name_of
envelope_parsed = refl

record_read : decrypt plain written channel ≡ (ok written, channel)
unfolding decrypt decrypt_open open_connection handshake_finished is_complete transported
record_read = refl

parse_controller_auth_iff_example :
    (parse_controller_auth decode loads written ≡ ok envelope)
    ↔ IsEnvelope decode loads written envelope
parse_controller_auth_iff_example = parse_controller_auth_iff decode loads written envelope

open_controller-IsAdmitted_example :
    ((reason : Refusal) × IsClaimed channel reason
      × (open_controller test_library counted revoking plain decode loads written world
          ≡ (err reason, world)))
    ⊎ (IsUnclaimed channel
        × Ends
            (IsAdmitted test_library counted revoking plain decode loads written world)
            (IsEarly test_library counted revoking plain decode loads written world)
            (open_controller test_library counted revoking plain decode loads written world))
open_controller-IsAdmitted_example =
    open_controller-IsAdmitted test_library counted revoking plain decode loads written world

complete_pairing-IsPaired_example :
    ((reason : Refusal) × IsClaimed channel reason
      × (complete_pairing test_library at_500 (replicate 32 3) world ≡ (err reason, world)))
    ⊎ (IsUnclaimed channel
        × Ends
            (IsPaired test_library at_500 (replicate 32 3) world)
            (Unmoved test_library at_500 (replicate 32 3) world)
            (complete_pairing test_library at_500 (replicate 32 3) world))
complete_pairing-IsPaired_example =
    complete_pairing-IsPaired test_library at_500 (replicate 32 3) world

revoked_while_opening_example :
    open_controller test_library counted revoking plain decode loads written world ≢ (ok 0, world)
revoked_while_opening_example =
    revoked_while_opening test_library counted revoking plain decode loads written written world
      channel envelope at_500 record_read envelope_parsed
      (λ v. (paired, some (summary (revoked_device phone 500)), phone_is_found, refl)) 0 world
