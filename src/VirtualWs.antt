-- ===== src/VirtualWs.antt =====
-- src/mercury_relay_plugin/virtual_ws.py: the bounded queues between the relay and the Hermes session.
-- A frame is the list of its UTF-8 bytes. Each coroutine is a step: `waits` stands for a coroutine
-- that is suspended on an empty queue and has changed nothing.
pub mod Bounds
mod Tests
use mercury_relay_plugin.Prelude.{
  ℕ, ◌+◌, ◌-◌, Bool, true, false, not, ◌&&◌, Option, none, some, List, [], ◌∷◌, ◌++◌, Bytes, length,
  ltb, leb, ◌==◌, if◌then◌else◌,
}

pub data Error : Type 0 where
  closed_error frame_too_large inbound_backpressure outbound_backpressure : Error
  rejected_by_validator : Error
  disconnected : ℕ → Bytes → Error

-- What a queue holds: a frame, or the `_CloseSignal`.
pub data Item : Type 0 where
  text : Bytes → Item
  close_signal : ℕ → Bytes → Item

pub record VirtualWs : Type 0 where
  pub max_queue_items : ℕ
  pub max_frame_bytes : ℕ
  pub max_queue_bytes : ℕ
  pub accepted : Bool
  pub accepted_subprotocol : Option Bytes
  pub closed : Bool
  pub close_code : Option ℕ
  pub close_reason : Bytes
  pub inbound : List Item
  pub outbound : List Item
  pub inbound_bytes : ℕ
  pub outbound_bytes : ℕ

pub data Reply {ℓ} (A : Type ℓ) : Type ℓ where
  returns : A → Reply A
  raises : Error → Reply A
  waits : Reply A

-- The constructor, for limits that it does not refuse.
unfoldable pub new_virtual_ws : ℕ → ℕ → ℕ → Option VirtualWs
new_virtual_ws max_queue_items max_frame_bytes max_queue_bytes =
    if ltb max_queue_items 1
    then none
    else if ltb max_frame_bytes 1
    then none
    else if ltb max_queue_bytes 1
    then none
    else some record {
      max_queue_items = max_queue_items;
      max_frame_bytes = max_frame_bytes;
      max_queue_bytes = max_queue_bytes;
      accepted = false;
      accepted_subprotocol = none;
      closed = false;
      close_code = none;
      close_reason = [];
      inbound = [];
      outbound = [];
      inbound_bytes = 0;
      outbound_bytes = 0;
    }

-- `x or y`, for the code and the reason of a close
abbrev pub code_or : Option ℕ → ℕ → ℕ
code_or none d = d
code_or (some n) d = if n == 0 then d else n

abbrev pub reason_or : Bytes → Bytes → Bytes
reason_or [] d = d
reason_or r d = r

-- `_validate_text`: whether the size of the frame is allowed.
unfoldable pub fits_frame : VirtualWs → Bytes → Bool
fits_frame s frame = leb (length frame) s.max_frame_bytes

-- `_signal_close`: both queues are drained and hold the signal alone.
unfoldable pub signal_close : VirtualWs → ℕ → Bytes → VirtualWs
signal_close s code reason = record s {
  inbound = close_signal code reason ∷ [];
  outbound = close_signal code reason ∷ [];
  inbound_bytes = 0;
  outbound_bytes = 0;
}

-- The first close keeps its code and its reason.
unfoldable pub mark_closed : VirtualWs → ℕ → Bytes → VirtualWs
mark_closed s code reason =
    if s.closed
    then s
    else record s { closed = true; close_code = some code; close_reason = reason }

-- `_close_now`
unfoldable pub close_now : VirtualWs → ℕ → Bytes → VirtualWs
unfolding signal_close mark_closed
close_now s code reason =
    let c = mark_closed s code reason in
    signal_close c (code_or c.close_code code) (reason_or c.close_reason reason)

unfoldable pub accept : VirtualWs → Option Bytes → Reply (Unit {0}) × VirtualWs
accept s subprotocol =
    if s.closed
    then (raises closed_error, s)
    else (returns tt, record s { accepted = true; accepted_subprotocol = subprotocol })

abbrev pub backpressure_code : ℕ
backpressure_code = 1013

abbrev pub inbound_reason : Bytes
inbound_reason =
    b'i' ∷ b'n' ∷ b'b' ∷ b'o' ∷ b'u' ∷ b'n' ∷ b'd' ∷ b'_' ∷ b'b' ∷ b'a' ∷ b'c' ∷ b'k' ∷ b'p' ∷ b'r'
    ∷ b'e' ∷ b's' ∷ b's' ∷ b'u' ∷ b'r' ∷ b'e' ∷ []

abbrev pub outbound_reason : Bytes
outbound_reason =
    b'o' ∷ b'u' ∷ b't' ∷ b'b' ∷ b'o' ∷ b'u' ∷ b'n' ∷ b'd' ∷ b'_' ∷ b'b' ∷ b'a' ∷ b'c' ∷ b'k' ∷ b'p'
    ∷ b'r' ∷ b'e' ∷ b's' ∷ b's' ∷ b'u' ∷ b'r' ∷ b'e' ∷ []

-- `feed_text` on the text that the validator let through.
unfoldable pub enqueue_inbound : VirtualWs → Bytes → Reply (Unit {0}) × VirtualWs
unfolding close_now fits_frame
enqueue_inbound s frame =
    if not (fits_frame s frame)
    then (raises frame_too_large, s)
    else if ltb s.max_queue_bytes (s.inbound_bytes + length frame)
    then (raises inbound_backpressure, close_now s backpressure_code inbound_reason)
    else if leb s.max_queue_items (length s.inbound)
    then (raises inbound_backpressure, close_now s backpressure_code inbound_reason)
    else (
      returns tt,
      record s {
        inbound = s.inbound ++ text frame ∷ [];
        inbound_bytes = s.inbound_bytes + length frame;
      },
    )

-- `inbound_validator`: none, or a function that returns a text or raises.
unfoldable pub feed_text :
    Option (Bytes → Option Bytes) → VirtualWs → Bytes → Reply (Unit {0}) × VirtualWs
unfolding enqueue_inbound
feed_text validator s frame =
    if s.closed
    then (raises closed_error, s)
    else if not (fits_frame s frame)
    then (raises frame_too_large, s)
    else elim validator [
      | none ↦ enqueue_inbound s frame
      | some validate ↦ elim (validate frame) [
        | none ↦ (raises rejected_by_validator, s)
        | some checked ↦ enqueue_inbound s checked
      ]
    ]

-- The head of the queue that `receive_text` got.
unfoldable pub take_inbound : List Item → VirtualWs → Reply Bytes × VirtualWs
take_inbound [] s = (waits, s)
take_inbound (close_signal code reason ∷ rest) s =
    (raises (disconnected code reason), record s { inbound = rest })
take_inbound (text frame ∷ rest) s =
    (returns frame, record s { inbound = rest; inbound_bytes = s.inbound_bytes - length frame })

abbrev pub is_empty : List Item → Bool
is_empty [] = true
is_empty (x ∷ xs) = false

unfoldable pub receive_text : VirtualWs → Reply Bytes × VirtualWs
unfolding take_inbound
receive_text s =
    if s.closed && is_empty s.inbound
    then (raises (disconnected (code_or s.close_code 1000) s.close_reason), s)
    else take_inbound s.inbound s

unfoldable pub send_text : VirtualWs → Bytes → Reply (Unit {0}) × VirtualWs
unfolding close_now fits_frame
send_text s frame =
    if s.closed
    then (raises closed_error, s)
    else if not (fits_frame s frame)
    then (raises frame_too_large, s)
    else if ltb s.max_queue_bytes (s.outbound_bytes + length frame)
    then (raises outbound_backpressure, close_now s backpressure_code outbound_reason)
    else if leb s.max_queue_items (length s.outbound)
    then (raises outbound_backpressure, close_now s backpressure_code outbound_reason)
    else (
      returns tt,
      record s {
        outbound = s.outbound ++ text frame ∷ [];
        outbound_bytes = s.outbound_bytes + length frame;
      },
    )

unfoldable pub take_outbound : List Item → VirtualWs → Reply Bytes × VirtualWs
take_outbound [] s = (waits, s)
take_outbound (close_signal code reason ∷ rest) s =
    (raises closed_error, record s { outbound = rest })
take_outbound (text frame ∷ rest) s =
    (returns frame, record s { outbound = rest; outbound_bytes = s.outbound_bytes - length frame })

-- `next_text`
unfoldable pub next_text : VirtualWs → Reply Bytes × VirtualWs
unfolding take_outbound
next_text s = take_outbound s.outbound s

unfoldable pub close : VirtualWs → ℕ → Bytes → VirtualWs
unfolding close_now
close s code reason = close_now s code reason
