-- ===== src/Framing/Reassembler/Messages.antt =====
-- `encode_message` of framing.py against the reassembly of its records by a `Reassembler`.
use mathlib.Core.List.{append-nil, append_assoc}
use mercury_relay_plugin.Prelude.{
  ℕ, zero, suc, ◌+◌, ◌-◌, ◌*◌, ◌≤◌, ◌<◌, ◌≡◌, refl, sym, ap, subst, ◌∙◌, ◌⊎◌, inl, inr, ◌≢◌, false,
  Option, none, some, List, [], ◌∷◌, ◌++◌, arith, Bytes, All, bytes_eq_refl, length, take, drop,
  Result, ok, length-take, length-drop, take-all, min,
}
use mercury_relay_plugin.Framing.{
  Error, Frame, max_payload_bytes, max_logical_message_bytes, fragment, fragment_count,
  encode_fragments, encode_message, decode_record,
}
use mercury_relay_plugin.Framing.Codec.{
  IsCanonical, canonical_count, frame_of, decode_record-record_bytes, build_record-eq-ok,
  length-record_bytes, record_bytes,
}
use mercury_relay_plugin.Framing.Reassembler.{
  Reassembler, reset, set_and_differs, begin_or_continue, join, append_part, accept, push, push_all,
}

pub join-append : (xs : List Bytes) (y : Bytes) → join (xs ++ y ∷ []) ≡ join xs ++ y
unfolding join
join-append [] y = append-nil y
join-append (x ∷ xs) y = rw (join-append xs y) (sym (append_assoc x (join xs) y))

take-append-take :
    (n m k : ℕ) (xs : Bytes) → n + m ≡ k → take n xs ++ take m (drop n xs) ≡ take k xs
take-append-take zero m k xs e = ap (λ i. take i xs) (omega arith)
take-append-take (suc n) m zero xs e = absurd (omega arith)
take-append-take (suc n) zero (suc k) [] e = refl
take-append-take (suc n) (suc m) (suc k) [] e = refl
take-append-take (suc n) m (suc k) (x ∷ xs) e = ap (◌∷◌ x) (take-append-take n m k xs (omega arith))

-- The object after `append_part` on a fragment that is not the last.
abbrev pub extend : Reassembler → Frame → Reassembler
extend b f = record b {
  parts = b.parts ++ f.payload ∷ [];
  received_length = b.received_length + length f.payload;
  next_index = b.next_index + 1;
}

append_part_next :
    (b : Reassembler) (f : Frame)
    → f.fragment_index ≡ b.next_index
    → b.received_length + length f.payload ≤ b.logical_length
    → b.next_index + 1 ≢ b.fragment_count
    → append_part b f ≡ ok (none, extend b f)
unfolding append_part
append_part_next b f e h n = ground arith

append_part_last :
    (b : Reassembler) (f : Frame)
    → f.fragment_index ≡ b.next_index
    → b.received_length + length f.payload ≡ b.logical_length
    → b.next_index + 1 ≡ b.fragment_count
    → append_part b f ≡ ok (some (join (b.parts ++ f.payload ∷ [])), reset b)
unfolding append_part reset
append_part_last b f e h n = ground arith

module _ (channel message payload : Bytes) (count : ℕ) where
  -- The object after the fragments below `i`.
  record Collected (s : Reassembler) (i : ℕ) : Type 0 where
    kind_is : s.expected_kind ≡ 1
    flags_are : s.expected_flags ≡ 0
    channel_fits : set_and_differs s.channel_id channel ≡ false
    next_is : s.next_index ≡ i
    received : s.received_length ≡ i * max_payload_bytes
    collected : join s.parts ≡ take (i * max_payload_bytes) payload
    phase :
        ((i ≡ 0) × (s.message_id ≡ none))
        ⊎ ((s.message_id ≡ some message)
            × (s.active_channel_id ≡ some channel)
            × (s.fragment_count ≡ count)
            × (s.logical_length ≡ length payload))

  abbrev started : Reassembler → Reassembler
  started s = record s {
    active_channel_id = some channel;
    message_id = some message;
    fragment_count = count;
    logical_length = length payload;
  }

  abbrev frame_at : ℕ → Frame
  frame_at i = frame_of channel message (fragment payload i) i count (length payload)

  begin_or_continue-frame_at :
      (s : Reassembler) (i : ℕ) → Collected s i → begin_or_continue s (frame_at i) ≡ ok (started s)
  unfolding begin_or_continue
  begin_or_continue-frame_at s i c =
      ground (arith, c.phase, bytes_eq_refl channel, bytes_eq_refl message)

  length-fragment :
      (i : ℕ)
      → length (fragment payload i) ≡ min max_payload_bytes (length payload - i * max_payload_bytes)
  length-fragment i = omega (
    arith,
    length-take {0} max_payload_bytes (drop (i * max_payload_bytes) payload),
    length-drop {0} (i * max_payload_bytes) payload,
  )

  accept-frame_at :
      (s : Reassembler) (i : ℕ)
      → Collected s i
      → accept s (frame_at i) ≡ append_part (started s) (frame_at i)
  unfolding accept
  accept-frame_at s i c =
      ground (arith, c.kind_is, c.flags_are, c.channel_fits, begin_or_continue-frame_at s i c)

  join-extended :
      (s : Reassembler) (i : ℕ)
      → Collected s i
      → join (s.parts ++ fragment payload i ∷ []) ≡ take ((i + 1) * max_payload_bytes) payload
  join-extended s i c =
      join-append s.parts (fragment payload i)
      ∙ ap (λ (t : Bytes). t ++ fragment payload i) c.collected
      ∙ take-append-take (i * max_payload_bytes) max_payload_bytes _ payload (omega arith)

  accept_next :
      (s : Reassembler) (i : ℕ)
      → Collected s i
      → count ≡ canonical_count (length payload)
      → i + 1 < count
      → accept s (frame_at i) ≡ ok (none, extend (started s) (frame_at i))
  accept_next s i c e h =
      accept-frame_at s i c
      ∙ append_part_next (started s) (frame_at i) (sym c.next_is)
          (omega (arith, length-fragment i, c.received)) (omega (arith, c.next_is))

  extend-Collected :
      (s : Reassembler) (i : ℕ)
      → Collected s i
      → count ≡ canonical_count (length payload)
      → i + 1 < count
      → Collected (extend (started s) (frame_at i)) (i + 1)
  extend-Collected s i c e h = record {
    kind_is = c.kind_is;
    flags_are = c.flags_are;
    channel_fits = c.channel_fits;
    next_is = omega (arith, c.next_is);
    received = omega (arith, length-fragment i, c.received);
    collected = join-extended s i c;
    phase = inr (refl, refl, refl, refl);
  }

  accept_last :
      (s : Reassembler) (i : ℕ)
      → Collected s i
      → count ≡ canonical_count (length payload)
      → i + 1 ≡ count
      → accept s (frame_at i) ≡ ok (some payload, reset s)
  unfolding reset
  accept_last s i c e h =
      accept-frame_at s i c
      ∙ append_part_last (started s) (frame_at i) (sym c.next_is)
          (omega (arith, length-fragment i, c.received)) (omega (arith, c.next_is))
      ∙ ap (λ m. ok (some m, reset s))
          (join-extended s i c ∙ take-all ((i + 1) * max_payload_bytes) payload (omega arith))

  abbrev record_at : ℕ → Bytes
  record_at i = record_bytes channel message (fragment payload i) i count (length payload)

  abbrev records : ℕ → ℕ → List Bytes
  records zero i = []
  records (suc n) i = record_at i ∷ records n (i + 1)

  length-records : (n i : ℕ) → length (records n i) ≡ n
  length-records zero i = refl
  length-records (suc n) i = ap suc (length-records n (i + 1))

push-accept :
    (s next : Reassembler) (r : Bytes) (f : Frame) (m : Option Bytes)
    → decode_record r ≡ ok f
    → accept s f ≡ ok (m, next)
    → push s r ≡ (ok m, next)
unfolding push
push-accept s next r f m d a = ground arith

-- The replies to the last `n` fragments of a payload: `None` until the message is complete.
abbrev pub replies_of : Bytes → ℕ → List (Result Error (Option Bytes))
replies_of payload zero = []
replies_of payload (suc zero) = ok (some payload) ∷ []
replies_of payload (suc (suc n)) = ok none ∷ replies_of payload (suc n)

push_all-cons :
    (s next last : Reassembler) (r : Bytes) (rs : List Bytes) (reply : Result Error (Option Bytes))
    (replies : List (Result Error (Option Bytes)))
    → push s r ≡ (reply, next)
    → push_all next rs ≡ (replies, last)
    → push_all s (r ∷ rs) ≡ (reply ∷ replies, last)
unfolding push_all
push_all-cons s next last r rs reply replies p q = ground (arith, p, q)

module _ (channel message payload : Bytes) (count : ℕ) (channel_size : length channel ≡ 16)
    (message_size : length message ≡ 16) (bounded : length payload ≤ max_logical_message_bytes)
    (e : count ≡ canonical_count (length payload)) where
  fragment-IsCanonical :
      (i : ℕ) → i < count → IsCanonical (fragment payload i) i count (length payload)
  fragment-IsCanonical i h = record {
    logical_bound = bounded;
    count_canonical = e;
    index_bound = h;
    size_canonical = length-fragment channel message payload count i;
  }

  decode_record-record_at :
      (i : ℕ)
      → i < count
      → decode_record (record_at channel message payload count i)
        ≡ ok (frame_at channel message payload count i)
  decode_record-record_at i h =
      decode_record-record_bytes channel message (fragment payload i) i count (length payload)
        (fragment-IsCanonical i h) channel_size message_size

  encode_fragments-records :
      (n i : ℕ)
      → i + n ≡ count
      → encode_fragments channel message payload count 1 0 n i
        ≡ ok (records channel message payload count n i)
  unfolding encode_fragments
  encode_fragments-records zero i h = refl
  encode_fragments-records (suc n) i h = rw (
    build_record-eq-ok channel message (fragment payload i) i count (length payload) 1 0
        (fragment-IsCanonical i (omega arith)),
    encode_fragments-records n (i + 1) (omega arith),
  )

  records_short :
      (n i : ℕ)
      → i + n ≡ count
      → All (λ r. length r ≤ 65_519) (records channel message payload count n i)
  records_short zero i h = tt
  records_short (suc n) i h = (
    omega (
      arith,
      length-record_bytes channel message (fragment payload i) i count (length payload)
          (fragment-IsCanonical i (omega arith)) channel_size message_size,
      length-fragment channel message payload count i,
    ),
    records_short n (i + 1) (omega arith),
  )

  push_all-records :
      (n i : ℕ) (s : Reassembler)
      → Collected channel message payload count s i
      → i + suc n ≡ count
      → push_all s (records channel message payload count (suc n) i)
        ≡ (replies_of payload (suc n), reset s)
  unfolding push_all reset
  push_all-records zero i s c h =
      push_all-cons s (reset s) (reset s) _ [] _ []
        (push-accept s _ _ _ _ (decode_record-record_at i (omega arith))
          (accept_last channel message payload count s i c e (omega arith)))
        refl
  push_all-records (suc n) i s c h =
      push_all-cons s _ (reset s) _ (records channel message payload count (suc n) (i + 1)) _ _
        (push-accept s _ _ _ _ (decode_record-record_at i (omega arith))
          (accept_next channel message payload count s i c e (omega arith)))
        (push_all-records n (i + 1) _
          (extend-Collected channel message payload count s i c e (omega arith)) (omega arith))

-- Nothing of a message is held.
abbrev pub IsIdle : Reassembler → Type 0
IsIdle s = (s.message_id ≡ none) × (s.next_index ≡ 0) × (s.received_length ≡ 0) × (s.parts ≡ [])

IsIdle-Collected :
    (channel message payload : Bytes) (count : ℕ) (s : Reassembler)
    → IsIdle s
    → s.expected_kind ≡ 1
    → s.expected_flags ≡ 0
    → set_and_differs s.channel_id channel ≡ false
    → Collected channel message payload count s 0
unfolding join
IsIdle-Collected channel message payload count s idle k f c = record {
  kind_is = k;
  flags_are = f;
  channel_fits = c;
  next_is = idle.1;
  received = idle.2;
  collected = ap join idle.3;
  phase = inl (refl, idle.0);
}

encode_message-records :
    (channel message payload : Bytes)
    → length channel ≡ 16
    → length message ≡ 16
    → length payload ≤ max_logical_message_bytes
    → encode_message channel message payload 1 0
      ≡ ok (
          records channel message payload
            (canonical_count (length payload))
            (canonical_count (length payload))
            0)
unfolding encode_message fragment_count
encode_message-records channel message payload ch ms bounded = ground (
  arith,
  encode_fragments-records channel message payload (canonical_count (length payload)) ch ms bounded
      refl (canonical_count (length payload)) 0 (omega arith),
)

pub IsIdle-reset : (s : Reassembler) → IsIdle s → IsIdle (reset s)
unfolding reset
IsIdle-reset s idle = (refl, refl, refl, refl)

-- Every payload of at most 16 MiB is split into the canonical number of records, none longer than
-- one Noise plaintext, and an idle reassembler for its channel and kind that is pushed those records
-- in order answers `None` to all but the last and the exact payload to the last, and is idle again.
pub push_all-encode_message :
    (channel message payload : Bytes) (s : Reassembler)
    → length channel ≡ 16
    → length message ≡ 16
    → length payload ≤ max_logical_message_bytes
    → IsIdle s
    → s.expected_kind ≡ 1
    → s.expected_flags ≡ 0
    → set_and_differs s.channel_id channel ≡ false
    → (rs : List Bytes) × (encode_message channel message payload 1 0 ≡ ok rs)
      × (length rs ≡ canonical_count (length payload))
      × All (λ r. length r ≤ 65_519) rs
      × (push_all s rs ≡ (replies_of payload (length rs), reset s))
push_all-encode_message channel message payload s ch ms bounded idle k f fits =
    let n = canonical_count (length payload) in
    let rs = records channel message payload n n 0 in
    let size : length rs ≡ n = length-records channel message payload n n 0 in
    let pred : suc (n - 1) ≡ n = omega arith in
    (
      rs,
      encode_message-records channel message payload ch ms bounded,
      size,
      records_short channel message payload n ch ms bounded refl n 0 (omega arith),
      rw size (
          subst
            (λ k.
              push_all s (records channel message payload n k 0) ≡ (replies_of payload k, reset s))
            pred
            (push_all-records channel message payload n ch ms bounded refl (n - 1) 0 s
              (IsIdle-Collected channel message payload n s idle k f fits) (omega arith))),
    )
