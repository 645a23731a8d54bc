-- ===== src/Framing/Codec.antt =====
-- One record: `encode_record` against `decode_record` of framing.py.
use mercury_relay_plugin.Prelude.{
  ℕ, ◌+◌, ◌-◌, ◌*◌, ◌≤◌, ◌<◌, ◌≡◌, min, max, ◌++◌, arith, Bytes, All, bytes_eq, bytes_eq→eq, length,
  drop, ok, length-append, length-take, length-drop, drop-append,
}
use mercury_relay_plugin.Framing.Wire.{
  Header, Fits, pack_header, unpack_header, length-pack_header, unpack_header-pack_header,
  pack_header-unpack_header,
}
use mercury_relay_plugin.Framing.{
  Frame, magic, max_payload_bytes, max_logical_message_bytes, ceil_div, fragment_count,
  payload_length, header_of, build_record, encode_record, check_header, decode_record,
}

-- The canonical number of fragments, and the size of the one at an index.
abbrev pub canonical_count : ℕ → ℕ
canonical_count n = max 1 (ceil_div n max_payload_bytes)

abbrev pub canonical_size : ℕ → ℕ → ℕ
canonical_size n i = min max_payload_bytes (n - i * max_payload_bytes)

-- Where the arguments of a record are canonical.
pub record IsCanonical (payload : Bytes) (index count logical_length : ℕ) : Type 0 where
  pub logical_bound : logical_length ≤ max_logical_message_bytes
  pub count_canonical : count ≡ canonical_count logical_length
  pub index_bound : index < count
  pub size_canonical : length payload ≡ canonical_size logical_length index

pub canonical_count-le : (n : ℕ) → n ≤ max_logical_message_bytes → canonical_count n ≤ 257
canonical_count-le n h = omega arith

pub build_record-IsCanonical :
    (channel message payload : Bytes) (index count n kind flags : ℕ) (r : Bytes)
    → build_record channel message payload index count n kind flags ≡ ok r
    → IsCanonical payload index count n
      × (r
          ≡ pack_header (header_of channel message (length payload) index count n kind flags)
            ++ payload)
unfolding build_record fragment_count
build_record-IsCanonical channel message payload index count n kind flags r h = ground arith

pub build_record-eq-ok :
    (channel message payload : Bytes) (index count n kind flags : ℕ)
    → IsCanonical payload index count n
    → build_record channel message payload index count n kind flags
      ≡ ok (
          pack_header (header_of channel message (length payload) index count n kind flags)
          ++ payload)
unfolding build_record fragment_count
build_record-eq-ok channel message payload index count n kind flags c = ground arith

abbrev pub frame_of : Bytes → Bytes → Bytes → ℕ → ℕ → ℕ → Frame
frame_of channel message payload index count n = record {
  channel_id = channel;
  message_id = message;
  kind = 1;
  flags = 0;
  fragment_index = index;
  fragment_count = count;
  logical_length = n;
  payload = payload;
}

abbrev pub record_bytes : Bytes → Bytes → Bytes → ℕ → ℕ → ℕ → Bytes
record_bytes channel message payload index count n =
    pack_header (header_of channel message (length payload) index count n 1 0) ++ payload

module _ (channel message payload : Bytes) (index count n : ℕ)
    (c : IsCanonical payload index count n) (channel_size : length channel ≡ 16)
    (message_size : length message ≡ 16) where
  abbrev canonical_header : Header
  canonical_header = header_of channel message (length payload) index count n 1 0

  canonical_header-Fits : Fits canonical_header
  canonical_header-Fits =
      omega (arith, c.logical_bound, c.count_canonical, c.index_bound, c.size_canonical)

  pub length-record_bytes :
      length (record_bytes channel message payload index count n) ≡ 50 + length payload
  length-record_bytes = omega (
    arith,
    length-append {0} (pack_header canonical_header) payload,
    length-pack_header canonical_header canonical_header-Fits,
  )

  check_canonical_header : check_header canonical_header (50 + length payload) ≡ ok tt
  unfolding check_header fragment_count payload_length bytes_eq
  check_canonical_header =
      ground (arith, c.logical_bound, c.count_canonical, c.index_bound, c.size_canonical)

  pub decode_record-record_bytes :
      decode_record (record_bytes channel message payload index count n)
      ≡ ok (frame_of channel message payload index count n)
  unfolding decode_record
  decode_record-record_bytes = ground (
    arith,
    c.size_canonical,
    length-record_bytes,
    check_canonical_header,
    unpack_header-pack_header canonical_header payload canonical_header-Fits,
    drop-append 50 (pack_header canonical_header) payload
        (length-pack_header canonical_header canonical_header-Fits),
  )

-- When encoding a record succeeds its arguments are canonical, what it returns is at most one
-- Noise plaintext long and decodes to the frame that was encoded.
pub decode_record-encode_record :
    (channel message payload : Bytes) (index count n kind flags : ℕ) {r : Bytes}
    → encode_record channel message payload index count n kind flags ≡ ok r
    → (decode_record r ≡ ok (frame_of channel message payload index count n))
      × (length r ≤ 65_519)
      × IsCanonical payload index count n
unfolding encode_record
decode_record-encode_record channel message payload index count n kind flags {r} h =
    let parts : (length channel ≡ 16)
        × (length message ≡ 16)
        × (kind ≡ 1)
        × (flags ≡ 0)
        × (build_record channel message payload index count n kind flags ≡ ok r) =
      ground arith in
    let (channel_size, message_size, k, f, built) = parts in
    let (c, e) =
      build_record-IsCanonical channel message payload index count n kind flags r built in
    (
      ground (
        arith,
        decode_record-record_bytes channel message payload index count n c channel_size
            message_size,
      ),
      ground (
        arith,
        length-record_bytes channel message payload index count n c channel_size message_size,
        c.size_canonical,
      ),
      c,
    )

-- What the tests of `decode_record` establish of a header.
record IsChecked (h : Header) (size : ℕ) : Type 0 where
  magic_is : h.magic ≡ magic
  version_is : h.version ≡ 1
  kind_is : h.kind ≡ 1
  flags_are : h.flags ≡ 0
  reserved_is : h.reserved ≡ 0
  logical_bound : h.logical_length ≤ max_logical_message_bytes
  count_canonical : h.fragment_count ≡ canonical_count h.logical_length
  index_bound : h.fragment_index < h.fragment_count
  size_canonical : h.payload_length ≡ canonical_size h.logical_length h.fragment_index
  size_is : size ≡ 50 + h.payload_length

check_header-IsChecked : (h : Header) (size : ℕ) → check_header h size ≡ ok tt → IsChecked h size
unfolding check_header fragment_count payload_length
check_header-IsChecked h size p = ground (arith, bytes_eq→eq h.magic magic)

abbrev frame_from : Header → Bytes → Frame
frame_from h payload = record {
  channel_id = h.channel_id;
  message_id = h.message_id;
  kind = h.kind;
  flags = h.flags;
  fragment_index = h.fragment_index;
  fragment_count = h.fragment_count;
  logical_length = h.logical_length;
  payload = payload;
}

decoded_frame :
    (r : Bytes) (f : Frame)
    → decode_record r ≡ ok f
    → (check_header (unpack_header r) (length r) ≡ ok tt)
      × (frame_from (unpack_header r) (drop 50 r) ≡ f)
      × (50 ≤ length r)
      × (length r ≤ 65_519)
unfolding decode_record
decoded_frame r f h = ground arith

header_ids :
    (r : Bytes)
    → 50 ≤ length r
    → (length (unpack_header r).channel_id ≡ 16) × (length (unpack_header r).message_id ≡ 16)
unfolding unpack_header
header_ids r h = omega (
  arith,
  length-take {0} 16 (drop 18 r),
  length-take {0} 16 (drop 34 r),
  length-drop {0} 18 r,
  length-drop {0} 34 r,
)

-- The header of a record that decodes is the one that its fields encode to.
IsChecked-header_of :
    (h : Header) (size n : ℕ)
    → IsChecked h size
    → n ≡ h.payload_length
    → header_of h.channel_id h.message_id n h.fragment_index h.fragment_count h.logical_length
        h.kind h.flags
      ≡ h
IsChecked-header_of h size n c e = ground (arith, c.magic_is, c.version_is, c.reserved_is)

encode_frame_from :
    (h : Header) (payload r : Bytes)
    → IsChecked h (length r)
    → length payload ≡ h.payload_length
    → length h.channel_id ≡ 16
    → length h.message_id ≡ 16
    → pack_header h ++ payload ≡ r
    → encode_record h.channel_id h.message_id payload h.fragment_index h.fragment_count
        h.logical_length h.kind h.flags
      ≡ ok r
unfolding encode_record
encode_frame_from h payload r c size ch ms e = ground (
  arith,
  c.kind_is,
  c.flags_are,
  c.logical_bound,
  c.count_canonical,
  c.index_bound,
  c.size_canonical,
  IsChecked-header_of h (length r) (length payload) c size,
  build_record-eq-ok h.channel_id h.message_id payload h.fragment_index h.fragment_count
      h.logical_length h.kind h.flags
      (omega (arith, c.logical_bound, c.count_canonical, c.index_bound, c.size_canonical)),
)

-- A record has one encoding: bytes that decode to a frame are the bytes that its fields encode to.
pub encode_record-decode_record :
    (r : Bytes) (f : Frame)
    → All (λ b. b < 256) r
    → decode_record r ≡ ok f
    → encode_record f.channel_id f.message_id f.payload f.fragment_index f.fragment_count
        f.logical_length f.kind f.flags
      ≡ ok r
encode_record-decode_record r f bytes h =
    let (checked, frame, long, short) = decoded_frame r f h in
    let c = check_header-IsChecked (unpack_header r) (length r) checked in
    let (ch, ms) = header_ids r long in
    rw (← frame) (
      encode_frame_from (unpack_header r) (drop 50 r) r c
        (omega (arith, length-drop {0} 50 r, c.size_is)) ch ms
        (pack_header-unpack_header r bytes long))
