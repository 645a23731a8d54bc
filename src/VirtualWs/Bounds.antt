-- ===== src/VirtualWs/Bounds.antt =====
-- The bounds of the queues of virtual_ws.py and their byte counts.

use mercury_relay_plugin.Prelude.{
  ℕ, ◌+◌, ◌≤◌, ◌≡◌, refl, inl, inr, Bool-cases, Option-cases, true, false, Option, none, some, List,
  [], ◌∷◌, ◌++◌, arith, Bytes, length, length-append,
}
use mercury_relay_plugin.VirtualWs.{
  VirtualWs, new_virtual_ws, Item, text, close_signal, accept, enqueue_inbound, fits_frame,
  feed_text, take_inbound, take_outbound, receive_text, mark_closed, signal_close, inbound_reason,
  outbound_reason, send_text, next_text, close, close_now,
}

-- The bytes of the frames that a queue holds.
abbrev pub queued_bytes : List Item → ℕ
queued_bytes [] = 0
queued_bytes (text frame ∷ rest) = length frame + queued_bytes rest
queued_bytes (close_signal code reason ∷ rest) = queued_bytes rest

-- The number of the frames that a queue holds, empty ones included.
abbrev pub frames : List Item → ℕ
frames [] = 0
frames (text frame ∷ rest) = 1 + frames rest
frames (close_signal code reason ∷ rest) = frames rest

queued_bytes-append :
    (q : List Item) (frame : Bytes)
    → queued_bytes (q ++ text frame ∷ []) ≡ queued_bytes q + length frame
queued_bytes-append [] frame = omega arith
queued_bytes-append (text f ∷ q) frame = omega (arith, queued_bytes-append q frame)
queued_bytes-append (close_signal c r ∷ q) frame = omega (arith, queued_bytes-append q frame)

pub record IsBounded (s : VirtualWs) : Type 0 where
  pub some_room : 1 ≤ s.max_queue_items
  pub inbound_exact : s.inbound_bytes ≡ queued_bytes s.inbound
  pub outbound_exact : s.outbound_bytes ≡ queued_bytes s.outbound
  pub inbound_within : s.inbound_bytes ≤ s.max_queue_bytes
  pub outbound_within : s.outbound_bytes ≤ s.max_queue_bytes
  pub inbound_items : length s.inbound ≤ s.max_queue_items
  pub outbound_items : length s.outbound ≤ s.max_queue_items
  pub closed_inbound : s.closed ≡ true → frames s.inbound ≡ 0
  pub closed_outbound : s.closed ≡ true → frames s.outbound ≡ 0

-- A call of the facade.
pub data Call : Type 0 where
  accepts : Option Bytes → Call
  feeds : Bytes → Call
  receives : Call
  sends : Bytes → Call
  takes : Call
  closes : ℕ → Bytes → Call

unfoldable pub step : Option (Bytes → Option Bytes) → VirtualWs → Call → VirtualWs
step validator s (accepts subprotocol) = (accept s subprotocol).1
step validator s (feeds frame) = (feed_text validator s frame).1
step validator s receives = (receive_text s).1
step validator s (sends frame) = (send_text s frame).1
step validator s takes = (next_text s).1
step validator s (closes code reason) = close s code reason

mark_closed-max_queue_items :
    (s : VirtualWs) (code : ℕ) (reason : Bytes)
    → (mark_closed s code reason).max_queue_items ≡ s.max_queue_items
unfolding mark_closed
mark_closed-max_queue_items s code reason = elim (Bool-cases s.closed) [
  | inl e ↦ rw e
  | inr e ↦ rw e
]

close_now-IsBounded :
    (s : VirtualWs) (code : ℕ) (reason : Bytes) → IsBounded s → IsBounded (close_now s code reason)
unfolding close_now signal_close
close_now-IsBounded s code reason b = record {
  some_room = omega (arith, mark_closed-max_queue_items s code reason, b.some_room);
  inbound_exact = refl;
  outbound_exact = refl;
  inbound_within = omega arith;
  outbound_within = omega arith;
  inbound_items = omega (arith, mark_closed-max_queue_items s code reason, b.some_room);
  outbound_items = omega (arith, mark_closed-max_queue_items s code reason, b.some_room);
  closed_inbound = λ c. refl;
  closed_outbound = λ c. refl;
}

enqueue_inbound-IsBounded :
    (s : VirtualWs) (frame : Bytes)
    → s.closed ≡ false
    → IsBounded s
    → IsBounded (enqueue_inbound s frame).1
unfolding enqueue_inbound
enqueue_inbound-IsBounded s frame o b = ground (
  arith,
  close_now-IsBounded s 1013 inbound_reason b,
  queued_bytes-append s.inbound frame,
  length-append s.inbound (text frame ∷ []),
)

feed_text-IsBounded :
    (validator : Option (Bytes → Option Bytes)) (s : VirtualWs) (frame : Bytes)
    → IsBounded s
    → IsBounded (feed_text validator s frame).1
unfolding feed_text fits_frame
feed_text-IsBounded none s frame b = elim (Bool-cases s.closed) [
  | inl c ↦ ground arith
  | inr o ↦ ground (arith, enqueue_inbound-IsBounded s frame o b)
]
feed_text-IsBounded (some validate) s frame b = elim (Bool-cases s.closed) [
  | inl c ↦ ground arith
  | inr o ↦ elim (Option-cases (validate frame)) [
    | inl e ↦ ground arith
    | inr (checked, e) ↦ ground (arith, enqueue_inbound-IsBounded s checked o b)
  ]
]

send_text-IsBounded :
    (s : VirtualWs) (frame : Bytes) → IsBounded s → IsBounded (send_text s frame).1
unfolding send_text fits_frame
send_text-IsBounded s frame b = ground (
  arith,
  close_now-IsBounded s 1013 outbound_reason b,
  queued_bytes-append s.outbound frame,
  length-append s.outbound (text frame ∷ []),
)

take_inbound-IsBounded :
    (q : List Item) (s : VirtualWs) → s.inbound ≡ q → IsBounded s → IsBounded (take_inbound q s).1
unfolding take_inbound
take_inbound-IsBounded [] s e b = b
take_inbound-IsBounded (close_signal code reason ∷ rest) s e b = ground (arith)
take_inbound-IsBounded (text frame ∷ rest) s e b = ground (arith)

take_outbound-IsBounded :
    (q : List Item) (s : VirtualWs) → s.outbound ≡ q → IsBounded s → IsBounded (take_outbound q s).1
unfolding take_outbound
take_outbound-IsBounded [] s e b = b
take_outbound-IsBounded (close_signal code reason ∷ rest) s e b = ground (arith)
take_outbound-IsBounded (text frame ∷ rest) s e b = ground (arith)

accept-IsBounded : (s : VirtualWs) (p : Option Bytes) → IsBounded s → IsBounded (accept s p).1
unfolding accept
accept-IsBounded s p b = ground arith

receive_text-IsBounded : (s : VirtualWs) → IsBounded s → IsBounded (receive_text s).1
unfolding receive_text
receive_text-IsBounded s b = ground (arith, take_inbound-IsBounded s.inbound s refl b)

step-IsBounded :
    (validator : Option (Bytes → Option Bytes)) (s : VirtualWs) (c : Call)
    → IsBounded s
    → IsBounded (step validator s c)
unfolding step next_text close
step-IsBounded v s (accepts p) b = accept-IsBounded s p b
step-IsBounded v s (feeds frame) b = feed_text-IsBounded v s frame b
step-IsBounded v s receives b = receive_text-IsBounded s b
step-IsBounded v s (sends frame) b = send_text-IsBounded s frame b
step-IsBounded v s takes b = take_outbound-IsBounded s.outbound s refl b
step-IsBounded v s (closes code reason) b = close_now-IsBounded s code reason b

unfoldable pub run : Option (Bytes → Option Bytes) → VirtualWs → List Call → VirtualWs
run validator s [] = s
run validator s (c ∷ calls) = run validator (step validator s c) calls

run-IsBounded :
    (validator : Option (Bytes → Option Bytes)) (s : VirtualWs) (calls : List Call)
    → IsBounded s
    → IsBounded (run validator s calls)
unfolding run
run-IsBounded validator s [] b = b
run-IsBounded validator s (c ∷ calls) b =
    run-IsBounded validator (step validator s c) calls (step-IsBounded validator s c b)

new_virtual_ws-IsBounded :
    (items frame bytes : ℕ) (s : VirtualWs)
    → new_virtual_ws items frame bytes ≡ some s
    → IsBounded s
unfolding new_virtual_ws
new_virtual_ws-IsBounded items frame bytes s e = ground arith

-- From a new facade, whatever calls are made in whatever order, failing ones included: each byte count
-- is the size of the frames in its queue and at most the limit, neither queue has more items than it
-- may, and a closed facade holds no frame, not even an empty one.
pub reachable-IsBounded :
    (validator : Option (Bytes → Option Bytes)) (items frame bytes : ℕ) (s : VirtualWs)
    (calls : List Call)
    → new_virtual_ws items frame bytes ≡ some s
    → IsBounded (run validator s calls)
reachable-IsBounded validator items frame bytes s calls e =
    run-IsBounded validator s calls (new_virtual_ws-IsBounded items frame bytes s e)
