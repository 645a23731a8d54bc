-- ===== src/Framing/Wire.antt =====
-- The fixed header of a record: `_HEADER = struct.Struct("!2sBBBBHHII16s16s")` of framing.py.
use mercury_relay_plugin.Prelude.{
  zero, suc, ℕ, ◌+◌, ◌*◌, ◌/◌, ◌%◌, ◌^◌, ◌≤◌, ◌<◌, ◌≡◌, refl, sym, ap, ◌∙◌, [], ◌∷◌, ◌++◌, arith,
  Bytes, All, length, take, drop, take-append, drop-append, drop-drop, take-append-drop,
  length-append,
}
use mathlib.Core.List.{append_assoc}

pub record Header : Type 0 where
  pub magic : Bytes
  pub version : ℕ
  pub kind : ℕ
  pub flags : ℕ
  pub reserved : ℕ
  pub fragment_index : ℕ
  pub fragment_count : ℕ
  pub logical_length : ℕ
  pub payload_length : ℕ
  pub channel_id : Bytes
  pub message_id : Bytes

-- The byte of `n` with `256 ^ k` in front of it.
abbrev pub byte_of : ℕ → ℕ → ℕ
byte_of k n = n / 256 ^ k % 256

abbrev pub be16 : ℕ → Bytes → Bytes
be16 n rest = byte_of 1 n ∷ byte_of 0 n ∷ rest

abbrev pub be32 : ℕ → Bytes → Bytes
be32 n rest = byte_of 3 n ∷ byte_of 2 n ∷ byte_of 1 n ∷ byte_of 0 n ∷ rest

-- `_HEADER.pack`, for fields in the range of their formats.
unfoldable pub pack_header : Header → Bytes
pack_header h =
    h.magic
    ++ (h.version
        ∷ h.kind
        ∷ h.flags
        ∷ h.reserved
        ∷ be16 h.fragment_index (
            be16 h.fragment_count
              (be32 h.logical_length (be32 h.payload_length (h.channel_id ++ h.message_id)))))

abbrev pub byte_at : ℕ → Bytes → ℕ
byte_at i [] = 0
byte_at zero (x ∷ xs) = x
byte_at (suc i) (x ∷ xs) = byte_at i xs

abbrev pub read16 : ℕ → Bytes → ℕ
read16 i bytes = byte_at i bytes * 256 + byte_at (i + 1) bytes

abbrev pub read32 : ℕ → Bytes → ℕ
read32 i bytes = read16 i bytes * 65_536 + read16 (i + 2) bytes

-- `_HEADER.unpack_from(view, 0)`, for a view of at least 50 bytes.
unfoldable pub unpack_header : Bytes → Header
unpack_header view = record {
  magic = take 2 view;
  version = byte_at 2 view;
  kind = byte_at 3 view;
  flags = byte_at 4 view;
  reserved = byte_at 5 view;
  fragment_index = read16 6 view;
  fragment_count = read16 8 view;
  logical_length = read32 10 view;
  payload_length = read32 14 view;
  channel_id = take 16 (drop 18 view);
  message_id = take 16 (drop 34 view);
}

-- The fields fit their formats.
pub record Fits (h : Header) : Type 0 where
  pub magic_size : length h.magic ≡ 2
  pub index_16_bit : h.fragment_index < 65_536
  pub count_16_bit : h.fragment_count < 65_536
  pub logical_32_bit : h.logical_length < 4_294_967_296
  pub payload_32_bit : h.payload_length < 4_294_967_296
  pub channel_size : length h.channel_id ≡ 16
  pub message_size : length h.message_id ≡ 16

read16-be16 : (n : ℕ) → n < 65_536 → byte_of 1 n * 256 + byte_of 0 n ≡ n
read16-be16 n h = omega arith

read32-be32 :
    (n : ℕ)
    → n < 4_294_967_296
    → (byte_of 3 n * 256 + byte_of 2 n) * 65_536 + (byte_of 1 n * 256 + byte_of 0 n) ≡ n
read32-be32 n h = omega arith

take-channel :
    (channel message rest : Bytes)
    → length channel ≡ 16
    → take 16 ((channel ++ message) ++ rest) ≡ channel
take-channel channel message rest h = rw append_assoc (take-append 16 channel (message ++ rest) h)

take-message :
    (channel message rest : Bytes)
    → length channel ≡ 16
    → length message ≡ 16
    → take 16 (drop 16 ((channel ++ message) ++ rest)) ≡ message
take-message channel message rest h g =
    rw (append_assoc, drop-append 16 channel (message ++ rest) h) (take-append 16 message rest g)

unpack_magic :
    (m : Bytes) (h : Header) (rest : Bytes)
    → h.magic ≡ m
    → Fits h
    → unpack_header (pack_header (record h { magic = m }) ++ rest) ≡ record h { magic = m }
unfolding unpack_header pack_header
unpack_magic [] h rest e fits = absurd (omega (arith, ap (length {0}) e, fits.magic_size))
unpack_magic (a ∷ []) h rest e fits = absurd (omega (arith, ap (length {0}) e, fits.magic_size))
unpack_magic (a ∷ b ∷ []) h rest e fits = λ i. record {
  magic = a ∷ b ∷ [];
  version = h.version;
  kind = h.kind;
  flags = h.flags;
  reserved = h.reserved;
  fragment_index = read16-be16 h.fragment_index fits.index_16_bit i;
  fragment_count = read16-be16 h.fragment_count fits.count_16_bit i;
  logical_length = read32-be32 h.logical_length fits.logical_32_bit i;
  payload_length = read32-be32 h.payload_length fits.payload_32_bit i;
  channel_id = take-channel h.channel_id h.message_id rest fits.channel_size i;
  message_id = take-message h.channel_id h.message_id rest fits.channel_size fits.message_size i;
}
unpack_magic (a ∷ b ∷ c ∷ m) h rest e fits =
    absurd (omega (arith, ap (length {0}) e, fits.magic_size))

-- What is packed is unpacked, whatever bytes follow the header.
pub unpack_header-pack_header :
    (h : Header) (rest : Bytes) → Fits h → unpack_header (pack_header h ++ rest) ≡ h
unpack_header-pack_header h rest fits = unpack_magic h.magic h rest refl fits

pub length-pack_header : (h : Header) → Fits h → length (pack_header h) ≡ 50
unfolding pack_header
length-pack_header h fits =
    omega (arith, length-append {0} h.magic, length-append {0} h.channel_id h.message_id)

byte_at-lt : (i : ℕ) (view : Bytes) → All (λ b. b < 256) view → byte_at i view < 256
byte_at-lt i [] h = omega arith
byte_at-lt zero (x ∷ xs) h = h.0
byte_at-lt (suc i) (x ∷ xs) h = byte_at-lt i xs h.1

byte_at-drop :
    (i j : ℕ) (view : Bytes)
    → j ≡ suc i
    → i < length view
    → byte_at i view ∷ drop j view ≡ drop i view
byte_at-drop i j [] e h = absurd (omega arith)
byte_at-drop zero j (x ∷ xs) e h = rw e
byte_at-drop (suc i) zero (x ∷ xs) e h = absurd (omega arith)
byte_at-drop (suc i) (suc j) (x ∷ xs) e h = byte_at-drop i j xs (omega arith) (omega arith)

be16-bytes : (a b : ℕ) (rest : Bytes) → a < 256 → b < 256 → be16 (a * 256 + b) rest ≡ a ∷ b ∷ rest
be16-bytes a b rest ha hb = λ i. high i ∷ low i ∷ rest
  where
    high : byte_of 1 (a * 256 + b) ≡ a
    high = omega arith

    low : byte_of 0 (a * 256 + b) ≡ b
    low = omega arith

be32-bytes :
    (a b c d : ℕ) (rest : Bytes)
    → a < 256
    → b < 256
    → c < 256
    → d < 256
    → be32 ((a * 256 + b) * 65_536 + (c * 256 + d)) rest ≡ a ∷ b ∷ c ∷ d ∷ rest
be32-bytes a b c d rest ha hb hc hd = λ i. byte3 i ∷ byte2 i ∷ byte1 i ∷ byte0 i ∷ rest
  where
    byte3 : byte_of 3 ((a * 256 + b) * 65_536 + (c * 256 + d)) ≡ a
    byte3 = omega arith

    byte2 : byte_of 2 ((a * 256 + b) * 65_536 + (c * 256 + d)) ≡ b
    byte2 = omega arith

    byte1 : byte_of 1 ((a * 256 + b) * 65_536 + (c * 256 + d)) ≡ c
    byte1 = omega arith

    byte0 : byte_of 0 ((a * 256 + b) * 65_536 + (c * 256 + d)) ≡ d
    byte0 = omega arith

module _ (view : Bytes) (bytes : All (λ b. b < 256) view) (long : 50 ≤ length view) where
  byte_back : (i j : ℕ) → j ≡ suc i → i < 50 → byte_at i view ∷ drop j view ≡ drop i view
  byte_back i j e h = byte_at-drop i j view e (omega arith)

  lt_256 : (i : ℕ) → byte_at i view < 256
  lt_256 i = byte_at-lt i view bytes

  read16_back : (i : ℕ) → i + 1 < 50 → be16 (read16 i view) (drop (i + 2) view) ≡ drop i view
  read16_back i h =
      be16-bytes _ _ _ (lt_256 i) (lt_256 (i + 1))
      ∙ ap (◌∷◌ (byte_at i view)) (byte_back (i + 1) (i + 2) (omega arith) (omega arith))
      ∙ byte_back i (i + 1) (omega arith) (omega arith)

  read32_back : (i : ℕ) → i + 3 < 50 → be32 (read32 i view) (drop (i + 4) view) ≡ drop i view
  read32_back i h =
      be32-bytes _ _ _ _ _ (lt_256 i) (lt_256 (i + 1)) (lt_256 (i + 2)) (lt_256 (i + 2 + 1))
      ∙ ap (λ t. byte_at i view ∷ byte_at (i + 1) view ∷ byte_at (i + 2) view ∷ t)
          (byte_back (i + 2 + 1) (i + 4) (omega arith) (omega arith))
      ∙ ap (λ t. byte_at i view ∷ byte_at (i + 1) view ∷ t)
          (byte_back (i + 2) (i + 2 + 1) (omega arith) (omega arith))
      ∙ ap (◌∷◌ (byte_at i view)) (byte_back (i + 1) (i + 2) (omega arith) (omega arith))
      ∙ byte_back i (i + 1) (omega arith) (omega arith)

  ids_back : (take 16 (drop 18 view) ++ take 16 (drop 34 view)) ++ drop 50 view ≡ drop 18 view
  ids_back =
      append_assoc (take 16 (drop 18 view)) (take 16 (drop 34 view)) (drop 50 view)
      ∙ ap (λ t. take 16 (drop 18 view) ++ (take 16 (drop 34 view) ++ t))
          (sym (drop-drop 16 34 50 view refl))
      ∙ ap (◌++◌ (take 16 (drop 18 view)))
          (take-append-drop 16 (drop 34 view) ∙ sym (drop-drop 16 18 34 view refl))
      ∙ take-append-drop 16 (drop 18 view)

  abbrev from2 : Bytes → Bytes
  from2 r = byte_at 2 view ∷ byte_at 3 view ∷ byte_at 4 view ∷ byte_at 5 view ∷ r

  abbrev fields : Bytes → Bytes
  fields r = from2 (
      be16 (read16 6 view) (be16 (read16 8 view) (be32 (read32 10 view) (be32 (read32 14 view) r))))

  fields_back :
      take 2 view ++ fields ((take 16 (drop 18 view) ++ take 16 (drop 34 view)) ++ drop 50 view)
      ≡ view
  fields_back =
      ap (◌++◌ (take 2 view)) (
        ap fields ids_back
        ∙ ap
            (λ (r : Bytes).
              from2 (be16 (read16 6 view) (be16 (read16 8 view) (be32 (read32 10 view) r))))
            (read32_back 14 (omega arith))
        ∙ ap (λ (r : Bytes). from2 (be16 (read16 6 view) (be16 (read16 8 view) r)))
            (read32_back 10 (omega arith))
        ∙ ap (λ (r : Bytes). from2 (be16 (read16 6 view) r)) (read16_back 8 (omega arith))
        ∙ ap from2 (read16_back 6 (omega arith))
        ∙ ap (λ r. byte_at 2 view ∷ byte_at 3 view ∷ byte_at 4 view ∷ r)
            (byte_back 5 6 refl (omega arith))
        ∙ ap (λ r. byte_at 2 view ∷ byte_at 3 view ∷ r) (byte_back 4 5 refl (omega arith))
        ∙ ap (◌∷◌ (byte_at 2 view)) (byte_back 3 4 refl (omega arith))
        ∙ byte_back 2 3 refl (omega arith))
      ∙ take-append-drop 2 view

  -- A view of at least 50 bytes starts with what its header packs to.
  pub pack_header-unpack_header : pack_header (unpack_header view) ++ drop 50 view ≡ view
  unfolding unpack_header pack_header
  pack_header-unpack_header = append_assoc (take 2 view) _ (drop 50 view) ∙ fields_back
