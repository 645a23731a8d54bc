-- ===== src/Framing/Reassembler.antt =====
-- `class Reassembler` of src/mercury_relay_plugin/framing.py. An object is a record; `push` returns
-- what the method returns or raises, with the object that it leaves.
pub mod Messages
pub mod Integrity
use mercury_relay_plugin.Prelude.{
  ℕ, ◌+◌, Bool, true, false, not, ◌&&◌, ◌||◌, Option, none, some, List, [], ◌∷◌, ◌++◌, Bytes,
  bytes_eq, length, leb, ltb, ◌==◌, if◌then◌else◌, Result, ok, err, ◌>>=◌, ◌>>◌, guard,
}
use mercury_relay_plugin.Framing.{
  Error, Frame, reassembly_error, kind_or_flags_mismatch, channel_mismatch, fragment_zero_first,
  metadata_mismatch, not_contiguous, exceeds_logical_length, incomplete, sized_view,
  validate_kind_flags, decode_record,
}

pub record Reassembler : Type 0 where
  pub channel_id : Option Bytes
  pub expected_kind : ℕ
  pub expected_flags : ℕ
  pub active_channel_id : Option Bytes
  pub message_id : Option Bytes
  pub fragment_count : ℕ
  pub logical_length : ℕ
  pub next_index : ℕ
  pub received_length : ℕ
  pub parts : List Bytes

unfoldable pub reset : Reassembler → Reassembler
reset s = record s {
  active_channel_id = none;
  message_id = none;
  fragment_count = 0;
  logical_length = 0;
  next_index = 0;
  received_length = 0;
  parts = [];
}

abbrev fresh : Option Bytes → ℕ → ℕ → Reassembler
fresh channel kind flags = record {
  channel_id = channel;
  expected_kind = kind;
  expected_flags = flags;
  active_channel_id = none;
  message_id = none;
  fragment_count = 0;
  logical_length = 0;
  next_index = 0;
  received_length = 0;
  parts = [];
}

abbrev optional_view : Option Bytes → Result Error (Option Bytes)
optional_view none = ok none
optional_view (some c) = do view ← sized_view c; ok (some view)

-- `__init__`
unfoldable pub new_reassembler : Option Bytes → ℕ → ℕ → Result Error Reassembler
unfolding sized_view validate_kind_flags
new_reassembler channel_id kind flags = do
  channel ← optional_view channel_id
  validate_kind_flags kind flags
  ok (fresh channel kind flags)

abbrev pub is_some {ℓ} : {A : Type ℓ} → Option A → Bool
is_some none = false
is_some (some a) = true

unfoldable pub in_progress : Reassembler → Bool
in_progress s = is_some s.message_id

-- Whether an optional byte string is set and differs: `x is not None and y != x`.
abbrev pub set_and_differs : Option Bytes → Bytes → Bool
set_and_differs none y = false
set_and_differs (some x) y = not (bytes_eq y x)

-- `y == x` for an attribute that may be `None`.
abbrev pub holds : Option Bytes → Bytes → Bool
holds none y = false
holds (some x) y = bytes_eq y x

-- The branch on `self._message_id is None`.
unfoldable pub begin_or_continue : Reassembler → Frame → Result Error Reassembler
begin_or_continue s frame =
    if not (is_some s.message_id)
    then (do
      guard (frame.fragment_index == 0) (reassembly_error fragment_zero_first)
      ok (record s {
        active_channel_id = some frame.channel_id;
        message_id = some frame.message_id;
        fragment_count = frame.fragment_count;
        logical_length = frame.logical_length;
      }))
    else if holds s.active_channel_id frame.channel_id
        && (holds s.message_id frame.message_id
            && ((frame.fragment_count == s.fragment_count)
                && (frame.logical_length == s.logical_length)))
    then ok s
    else err (reassembly_error metadata_mismatch)

unfoldable pub join : List Bytes → Bytes
join [] = []
join (x ∷ xs) = x ++ join xs

-- The rest of the body, once the frame belongs to the message at hand.
unfoldable pub append_part : Reassembler → Frame → Result Error (Option Bytes × Reassembler)
append_part s frame = do
  guard (frame.fragment_index == s.next_index) (reassembly_error not_contiguous)
  guard (leb (s.received_length + length frame.payload) s.logical_length)
      (reassembly_error exceeds_logical_length)
  let next = record s {
    parts = s.parts ++ frame.payload ∷ [];
    received_length = s.received_length + length frame.payload;
    next_index = s.next_index + 1;
  }
  if not (next.next_index == next.fragment_count) then ok (none, next) else do
    guard (next.received_length == next.logical_length) (reassembly_error incomplete)
    ok (some (join next.parts), reset next)

-- The body of the `try` on a decoded frame.
unfoldable pub accept : Reassembler → Frame → Result Error (Option Bytes × Reassembler)
accept s frame = do
  guard ((frame.kind == s.expected_kind) && (frame.flags == s.expected_flags))
      (reassembly_error kind_or_flags_mismatch)
  guard (not (set_and_differs s.channel_id frame.channel_id)) (reassembly_error channel_mismatch)
  begun ← begin_or_continue s frame
  append_part begun frame

-- `except …: self.reset(); raise`
abbrev pub reset_on_error :
    Reassembler
    → Result Error (Option Bytes × Reassembler)
    → Result Error (Option Bytes) × Reassembler
reset_on_error s (ok (message, next)) = (ok message, next)
reset_on_error s (err e) = (err e, reset s)

unfoldable pub push : Reassembler → Bytes → Result Error (Option Bytes) × Reassembler
push s bytes = reset_on_error s (do frame ← decode_record bytes; accept s frame)

-- What a sequence of pushes returns or raises, and the object after it.
unfoldable pub push_all :
    Reassembler → List Bytes → List (Result Error (Option Bytes)) × Reassembler
push_all s [] = ([], s)
push_all s (r ∷ rs) =
    let (reply, next) = push s r in
    let (replies, last) = push_all next rs in (reply ∷ replies, last)
