-- ===== src/Framing.antt =====
-- src/mercury_relay_plugin/framing.py: the plaintext records and their decoder. The reassembly of a
-- message is in `Reassembler`, the proofs are in the modules below.
pub mod Wire
pub mod Codec
pub mod Reassembler
mod Tests
use mercury_relay_plugin.Prelude.{
  ℕ, zero, suc, ◌+◌, ◌-◌, ◌*◌, ◌/◌, Bool, not, ◌||◌, min, max, List, [], ◌∷◌, ◌++◌, Bytes, bytes_eq,
  length, take, drop, ltb, leb, ◌==◌, if◌then◌else◌, Result, ok, err, ◌>>=◌, ◌>>◌, guard,
}
use Wire.{Header, pack_header, unpack_header}

-- The messages of the exceptions that the module raises.
pub data Reason : Type 0 where
  exactly_16_bytes unknown_kind unknown_flags : Reason
  index_not_16_bit count_not_16_bit logical_length_limit payload_limit : Reason
  index_outside_count count_not_canonical payload_not_canonical : Reason
  truncated_header record_too_long invalid_magic unknown_version reserved_nonzero : Reason
  count_outside_range index_or_length_not_canonical record_length_mismatch : Reason
  kind_or_flags_mismatch channel_mismatch fragment_zero_first metadata_mismatch : Reason
  not_contiguous exceeds_logical_length incomplete : Reason

pub data Error : Type 0 where
  value_error decode_error reassembly_error : Reason → Error

abbrev pub magic : Bytes
magic = b'M' ∷ b'R' ∷ []

abbrev pub protocol_version : ℕ
protocol_version = 1

abbrev pub kind_hermes_bytes : ℕ
kind_hermes_bytes = 1

abbrev pub flags_none : ℕ
flags_none = 0

abbrev pub reserved_none : ℕ
reserved_none = 0

abbrev pub channel_id_size : ℕ
channel_id_size = 16

abbrev pub message_id_size : ℕ
message_id_size = 16

abbrev pub max_noise_plaintext_bytes : ℕ
max_noise_plaintext_bytes = 65_519

-- 16 << 20
abbrev pub max_logical_message_bytes : ℕ
max_logical_message_bytes = 16_777_216

abbrev pub frame_header_size : ℕ
frame_header_size = 50

abbrev pub max_payload_bytes : ℕ
max_payload_bytes = max_noise_plaintext_bytes - frame_header_size

-- `math.ceil(a / b)` for the sizes at hand, where the division of floats is close enough.
abbrev pub ceil_div : ℕ → ℕ → ℕ
ceil_div a b = (a + b - 1) / b

abbrev pub max_fragment_count : ℕ
max_fragment_count = ceil_div max_logical_message_bytes max_payload_bytes

pub record Frame : Type 0 where
  pub channel_id : Bytes
  pub message_id : Bytes
  pub kind : ℕ
  pub flags : ℕ
  pub fragment_index : ℕ
  pub fragment_count : ℕ
  pub logical_length : ℕ
  pub payload : Bytes

-- `_view(value, field, size=16)`
unfoldable pub sized_view : Bytes → Result Error Bytes
sized_view value =
    if length value == channel_id_size then ok value else err (value_error exactly_16_bytes)

unfoldable pub validate_kind_flags : ℕ → ℕ → Result Error (Unit {0})
validate_kind_flags kind flags = do
  guard (kind == kind_hermes_bytes) (value_error unknown_kind)
  guard (flags == flags_none) (value_error unknown_flags)

-- `_fragment_count`
unfoldable pub fragment_count : ℕ → Result Error ℕ
fragment_count logical_length =
    if ltb max_logical_message_bytes logical_length
    then err (value_error logical_length_limit)
    else ok (max 1 (ceil_div logical_length max_payload_bytes))

-- `_payload_length`
unfoldable pub payload_length : ℕ → ℕ → Result Error ℕ
unfolding fragment_count
payload_length logical_length fragment_index = do
  count ← fragment_count logical_length
  guard (ltb fragment_index count) (value_error index_outside_count)
  let start = fragment_index * max_payload_bytes
  ok (min max_payload_bytes (logical_length - start))

-- The header that `_record` packs in front of a payload.
abbrev pub header_of : Bytes → Bytes → ℕ → ℕ → ℕ → ℕ → ℕ → ℕ → Header
header_of channel message size index count logical_length kind flags = record {
  magic = magic;
  version = protocol_version;
  kind = kind;
  flags = flags;
  reserved = reserved_none;
  fragment_index = index;
  fragment_count = count;
  logical_length = logical_length;
  payload_length = size;
  channel_id = channel;
  message_id = message;
}

-- `_record`
unfoldable pub build_record : Bytes → Bytes → Bytes → ℕ → ℕ → ℕ → ℕ → ℕ → Result Error Bytes
unfolding payload_length
build_record channel message payload index count logical_length kind flags = do
  expected ← payload_length logical_length index
  canonical ← fragment_count logical_length
  guard (count == canonical) (value_error count_not_canonical)
  guard (length payload == expected) (value_error payload_not_canonical)
  ok (
      pack_header (header_of channel message (length payload) index count logical_length kind flags)
      ++ payload)

-- The integer arguments are not negative.
unfoldable pub encode_record : Bytes → Bytes → Bytes → ℕ → ℕ → ℕ → ℕ → ℕ → Result Error Bytes
unfolding sized_view validate_kind_flags
encode_record channel_id message_id payload index count logical_length kind flags = do
  channel ← sized_view channel_id
  message ← sized_view message_id
  validate_kind_flags kind flags
  guard (ltb index 65_536) (value_error index_not_16_bit)
  guard (ltb count 65_536) (value_error count_not_16_bit)
  guard (leb logical_length max_logical_message_bytes) (value_error logical_length_limit)
  guard (leb (length payload) max_payload_bytes) (value_error payload_limit)
  build_record channel message payload index count logical_length kind flags

-- `payload_bytes[index * MAX_PAYLOAD_BYTES : (index + 1) * MAX_PAYLOAD_BYTES]`
abbrev pub fragment : Bytes → ℕ → Bytes
fragment payload index = take max_payload_bytes (drop (index * max_payload_bytes) payload)

-- The records of the generator expression, `rounds` of them from `index` on.
unfoldable pub encode_fragments :
    Bytes → Bytes → Bytes → ℕ → ℕ → ℕ → ℕ → ℕ → Result Error (List Bytes)
encode_fragments channel message payload count kind flags zero index = ok []
encode_fragments channel message payload count kind flags (suc rounds) index = do
  first ←
      build_record channel message (fragment payload index) index count (length payload) kind flags
  rest ← encode_fragments channel message payload count kind flags rounds (index + 1)
  ok (first ∷ rest)

unfoldable pub encode_message : Bytes → Bytes → Bytes → ℕ → ℕ → Result Error (List Bytes)
unfolding sized_view validate_kind_flags
encode_message channel_id message_id payload kind flags = do
  channel ← sized_view channel_id
  message ← sized_view message_id
  validate_kind_flags kind flags
  guard (leb (length payload) max_logical_message_bytes) (value_error logical_length_limit)
  count ← fragment_count (length payload)
  encode_fragments channel message payload count kind flags count 0

-- `except ValueError: raise DecodeError`
abbrev pub as_decode_error : Result Error ℕ → Result Error ℕ
as_decode_error (ok n) = ok n
as_decode_error (err e) = err (decode_error index_or_length_not_canonical)

-- `_record_view`
unfoldable pub record_view : Bytes → Result Error Bytes
record_view view = do
  guard (leb frame_header_size (length view)) (decode_error truncated_header)
  guard (leb (length view) max_noise_plaintext_bytes) (decode_error record_too_long)
  ok view

-- The tests of `decode_record` on the unpacked header.
unfoldable pub check_header : Header → ℕ → Result Error (Unit {0})
unfolding payload_length
check_header h size = do
  guard (bytes_eq h.magic magic) (decode_error invalid_magic)
  guard (h.version == protocol_version) (decode_error unknown_version)
  guard (h.kind == kind_hermes_bytes) (decode_error unknown_kind)
  guard (h.flags == flags_none) (decode_error unknown_flags)
  guard (h.reserved == reserved_none) (decode_error reserved_nonzero)
  guard (not ((h.fragment_count == 0) || ltb max_fragment_count h.fragment_count))
      (decode_error count_outside_range)
  guard (leb h.logical_length max_logical_message_bytes) (decode_error logical_length_limit)
  expected_count ← as_decode_error (fragment_count h.logical_length)
  expected_length ← as_decode_error (payload_length h.logical_length h.fragment_index)
  guard (h.fragment_count == expected_count) (decode_error count_not_canonical)
  guard (h.payload_length == expected_length) (decode_error payload_not_canonical)
  guard (size == frame_header_size + h.payload_length) (decode_error record_length_mismatch)

unfoldable pub decode_record : Bytes → Result Error Frame
unfolding record_view
decode_record bytes = do
  view ← record_view bytes
  let h = unpack_header view
  check_header h (length view)
  ok (record {
    channel_id = h.channel_id;
    message_id = h.message_id;
    kind = h.kind;
    flags = h.flags;
    fragment_index = h.fragment_index;
    fragment_count = h.fragment_count;
    logical_length = h.logical_length;
    payload = drop frame_header_size view;
  })
