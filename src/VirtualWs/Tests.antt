-- ===== src/VirtualWs/Tests.antt =====
-- The facade at concrete inputs: the theorems applied, and runs of the code.
use mercury_relay_plugin.Prelude.{◌≡◌, refl, false, some, none, [], ◌∷◌, Bytes}
use mercury_relay_plugin.VirtualWs.{
  VirtualWs, raises, inbound_backpressure, new_virtual_ws, feed_text,
}
use mercury_relay_plugin.VirtualWs.Bounds.{IsBounded, feeds, receives, run, reachable-IsBounded}

abbrev narrow : VirtualWs
narrow = record {
  max_queue_items = 1;
  max_frame_bytes = 8;
  max_queue_bytes = 8;
  accepted = false;
  accepted_subprotocol = none;
  closed = false;
  close_code = none;
  close_reason = [];
  inbound = [];
  outbound = [];
  inbound_bytes = 0;
  outbound_bytes = 0;
}

narrow_is_new : new_virtual_ws 1 8 8 ≡ some narrow
unfolding new_virtual_ws
narrow_is_new = refl

abbrev hello : Bytes
hello = b'h' ∷ b'i' ∷ []

reachable-IsBounded_example :
    IsBounded (run none narrow (feeds hello ∷ receives ∷ feeds hello ∷ feeds hello ∷ []))
reachable-IsBounded_example =
    reachable-IsBounded none 1 8 8 narrow (feeds hello ∷ receives ∷ feeds hello ∷ feeds hello ∷ [])
      narrow_is_new

-- A second frame does not fit, and closes the facade.
second_frame :
    (feed_text none (feed_text none narrow hello).1 hello).0 ≡ raises inbound_backpressure
unfolding feed_text
second_frame = refl
