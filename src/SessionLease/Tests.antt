-- ===== src/SessionLease/Tests.antt =====
-- A lease at concrete inputs: the theorems applied, and runs of the code.
use mercury_relay_plugin.Prelude.{
  ◌≡◌, ◌≤◌, refl, Bool, true, false, none, some, List, [], ◌∷◌, ◌++◌, arith, Bytes, bytes_eq, drop,
  ok,
}
use mercury_relay_plugin.VirtualWs.{VirtualWs, feed_text}
use mercury_relay_plugin.SessionLease.{
  record_outcome, after_trim, append_event, live_text, deliver, events_after, next_text, Json,
  LeaseLimits, LeaseAttachment, Message, Decoded, mapping, malformed, Value, string, SessionLease,
  is_current, submit_parsed, lookup, submit_new, make_room, feed_new, attach, is_attached,
  new_attachment, publish, retain, trim, submit_text, parse_submission, submission, prompt_submit,
}
use mercury_relay_plugin.SessionLease.Ring.{Window}
use mercury_relay_plugin.SessionLease.History.{Holds, IsWithin, retain-Holds, attach-replays}
use mercury_relay_plugin.SessionLease.Stream.Follows.{
  Consumer, Event, sends, takes, take_next, consume, consume_all, Follows,
}
use mercury_relay_plugin.SessionLease.Stream.Follows.Delivery.{
  hello, attach-Follows, attach_drained,
}
use mercury_relay_plugin.SessionLease.Submissions.{submit_all, submit_text-fed_once}

abbrev prompt : Bytes
prompt = b'p' ∷ []

abbrev prompt_message : Message
prompt_message = record {
  method = some (string prompt_submit);
  id = some (string (b'1' ∷ []));
  result_field = none;
  error_field = none;
  submission_id = some (string (b's' ∷ []));
}

abbrev decode : Bytes → Decoded
decode (x ∷ []) = mapping prompt_message
decode _ = malformed

abbrev same : Value → Value → Bool
same (string a) (string b) = bytes_eq a b
same _ _ = false

abbrev test_json : Json
test_json = record {
  loads_strict = decode;
  same_value = same;
  frame_text = λ e replay. e.text;
  attached_text = λ last gap first cursor recovery reset. cursor ∷ last ∷ [];
  replay_complete_text = λ last. last ∷ [];
  response_text = λ id outcome. [];
  validator = none;
}

abbrev idle_websocket : VirtualWs
idle_websocket = record {
  max_queue_items = 4;
  max_frame_bytes = 8;
  max_queue_bytes = 8;
  accepted = true;
  accepted_subprotocol = none;
  closed = false;
  close_code = none;
  close_reason = [];
  inbound = [];
  outbound = [];
  inbound_bytes = 0;
  outbound_bytes = 0;
}

abbrev two_events : LeaseLimits
two_events = record {
  max_events = 2;
  max_event_bytes = 100;
  max_event_age_seconds = 600;
  max_tracked_submissions = 4;
}

-- One frame was trimmed, and two are in the ring.
abbrev full_lease : SessionLease
full_lease = record {
  limits = two_events;
  websocket = idle_websocket;
  ring =
      record { lease_seq = 2; text = b'b' ∷ []; size = 1; stored_at = 10 }
      ∷ record { lease_seq = 3; text = b'c' ∷ b'c' ∷ []; size = 2; stored_at = 11 }
      ∷ [];
  ring_bytes = 3;
  last_seq = 3;
  trimmed_through = 1;
  attachment = none;
  gone = [];
  made = 0;
  submissions = [];
  recovery_enabled = false;
  released = false;
}

abbrev history : List Bytes
history = (b'a' ∷ []) ∷ (b'b' ∷ []) ∷ (b'c' ∷ b'c' ∷ []) ∷ []

full_lease-Holds : Holds history full_lease
full_lease-Holds = record {
  window = ((b'c' ∷ b'c' ∷ []) ∷ [], refl, refl, refl, ([], refl, refl, refl, refl));
  exact = refl;
  counted = refl;
  trimmed = omega arith;
}

retain-Holds_example :
    Holds (history ++ (b'd' ∷ b'd' ∷ []) ∷ []) (retain test_json full_lease 12 (b'd' ∷ b'd' ∷ [])).1
    × IsWithin (retain test_json full_lease 12 (b'd' ∷ b'd' ∷ [])).1
retain-Holds_example =
    retain-Holds test_json history full_lease 12 (b'd' ∷ b'd' ∷ []) full_lease-Holds

abbrev trimmed : SessionLease
trimmed = (trim full_lease 12).1

abbrev consumer : LeaseAttachment
consumer = new_attachment test_json trimmed 2 false false

consumer_attaches :
    attach test_json full_lease 12 2 false false false ≡ (ok consumer, publish trimmed consumer)
unfolding attach is_attached trim
consumer_attaches = refl

attach-replays_example :
    Window 2 (drop 2 history) consumer.replay
    × (consumer.replay_gap ≡ false)
    × (2 ≤ 3)
    × Holds history (publish trimmed consumer)
    × ((publish trimmed consumer).attachment ≡ some consumer)
unfolding trim publish
attach-replays_example =
    attach-replays test_json history full_lease 12 2 false false false consumer
      (publish trimmed consumer) full_lease-Holds consumer_attaches

abbrev live_lease : SessionLease
live_lease = publish trimmed consumer

abbrev submitted : SessionLease
submitted = (submit_text test_json live_lease 0 prompt).1

prompt_is_parsed : parse_submission (decode prompt) ≡ submission (b's' ∷ []) (string (b'1' ∷ []))
unfolding parse_submission bytes_eq
prompt_is_parsed = refl

nothing_on_record : lookup (b's' ∷ []) live_lease.submissions ≡ none
unfolding lookup publish trim
nothing_on_record = refl

prompt_is_fed : submit_text test_json live_lease 0 prompt ≡ (ok tt, submitted)
unfolding submit_text bytes_eq publish trim is_current new_attachment submit_parsed parse_submission
    lookup submit_new make_room feed_new feed_text
prompt_is_fed = refl

submit_text-fed_once_example :
    (submit_text test_json (submit_all test_json submitted ((1, prompt) ∷ [])) 0 prompt).1.websocket
    ≡ (submit_all test_json submitted ((1, prompt) ∷ [])).websocket
submit_text-fed_once_example =
    submit_text-fed_once test_json live_lease submitted 0 0 prompt prompt (b's' ∷ [])
      (string (b'1' ∷ [])) (string (b'1' ∷ [])) ((1, prompt) ∷ []) nothing_on_record
      prompt_is_parsed prompt_is_fed prompt_is_parsed

abbrev first_run : List Event
first_run = takes ∷ sends 13 (b'd' ∷ b'd' ∷ []) ∷ takes ∷ []

abbrev streamed : List Bytes
streamed =
    hello test_json live_lease consumer 2 false ∷ (b'c' ∷ b'c' ∷ []) ∷ (b'd' ∷ b'd' ∷ []) ∷ []

attach-Follows_example :
    Follows streamed
      (consume_all test_json (record { lease = live_lease; received = [] }) first_run)
unfolding trim publish
attach-Follows_example =
    attach-Follows test_json history full_lease 12 2 false false consumer live_lease
      full_lease-Holds tt consumer_attaches first_run

abbrev after_first_run : Consumer
after_first_run = consume_all test_json (record { lease = live_lease; received = [] }) first_run

abbrev waiting : LeaseAttachment
waiting = record consumer {
  preamble = none;
  replay = [];
  live = (b'd' ∷ b'd' ∷ []) ∷ [];
  live_bytes = 2;
}

still_attached : after_first_run.lease.attachment ≡ some waiting
unfolding trim publish consume_all consume take_next next_text retain record_outcome after_trim
    append_event live_text deliver new_attachment events_after
still_attached = refl

attach_drained_example : (consume_all test_json after_first_run (takes ∷ [])).received ≡ streamed
unfolding trim publish
attach_drained_example =
    attach_drained test_json history full_lease 12 2 false false consumer live_lease
      full_lease-Holds tt consumer_attaches first_run waiting still_attached
