-- ===== src/Framing/Tests.antt =====
-- Framing at concrete inputs: the theorems applied, and runs of the code.
use mercury_relay_plugin.Prelude.{
  ◌≤◌, ◌≡◌, refl, inl, none, List, [], ◌∷◌, ◌++◌, arith, Bytes, All, length, replicate, ok, err,
}
use mercury_relay_plugin.Framing.{
  decode_error, truncated_header, build_record, encode_record, decode_record, encode_message,
}
use mercury_relay_plugin.Framing.Wire.{pack_header}
use mercury_relay_plugin.Framing.Codec.{
  IsCanonical, canonical_count, frame_of, decode_record-encode_record, encode_record-decode_record,
}
use mercury_relay_plugin.Framing.Reassembler.{Reassembler, reset, join, push, push_all}
use mercury_relay_plugin.Framing.Reassembler.Messages.{push_all-encode_message, replies_of}
use mercury_relay_plugin.Framing.Reassembler.Integrity.{Holds, Pushed, push-Pushed}

abbrev channel : Bytes
channel = replicate 16 7

abbrev message : Bytes
message = replicate 16 9

abbrev hello : Bytes
hello = b'h' ∷ b'i' ∷ []

abbrev hello_record : Bytes
hello_record =
    b'M'
    ∷ b'R'
    ∷ 1
    ∷ 1
    ∷ 0
    ∷ 0
    ∷ 0
    ∷ 0
    ∷ 0
    ∷ 1
    ∷ 0
    ∷ 0
    ∷ 0
    ∷ 2
    ∷ 0
    ∷ 0
    ∷ 0
    ∷ 2
    ∷ (channel ++ (message ++ hello))

encode_hello : encode_record channel message hello 0 1 2 1 0 ≡ ok hello_record
unfolding encode_record build_record pack_header
encode_hello = refl

decode_record-encode_record_example :
    (decode_record hello_record ≡ ok (frame_of channel message hello 0 1 2))
    × (length hello_record ≤ 65_519)
    × IsCanonical hello 0 1 2
decode_record-encode_record_example =
    decode_record-encode_record channel message hello 0 1 2 1 0 encode_hello

encode_record-decode_record_example :
    encode_record channel message hello 0 1 2 1 0 ≡ ok hello_record
encode_record-decode_record_example =
    encode_record-decode_record hello_record (frame_of channel message hello 0 1 2) (omega arith)
      (decode_record-encode_record channel message hello 0 1 2 1 0 encode_hello).0

decode_truncated : decode_record (b'M' ∷ []) ≡ err (decode_error truncated_header)
unfolding decode_record
decode_truncated = refl

abbrev idle : Reassembler
idle = record {
  channel_id = none;
  expected_kind = 1;
  expected_flags = 0;
  active_channel_id = none;
  message_id = none;
  fragment_count = 0;
  logical_length = 0;
  next_index = 0;
  received_length = 0;
  parts = [];
}

push_all-encode_message_example :
    (rs : List Bytes) × (encode_message channel message hello 1 0 ≡ ok rs)
    × (length rs ≡ canonical_count (length hello))
    × All (λ r. length r ≤ 65_519) rs
    × (push_all idle rs ≡ (replies_of hello (length rs), reset idle))
push_all-encode_message_example =
    push_all-encode_message channel message hello idle refl refl (omega arith)
      (refl, refl, refl, refl) refl refl refl

idle-Holds : Holds idle []
unfolding join
idle-Holds = record { parts_are = refl; next_is = refl; received = refl; phase = inl (refl, refl) }

push-Pushed_example : Pushed [] hello_record (push idle hello_record)
push-Pushed_example = push-Pushed idle hello_record [] idle-Holds
