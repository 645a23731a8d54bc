-- ===== src/ConnectionJournal/Tests.antt =====
-- The journal at concrete events, and its theorems applied.
use mercury_relay_plugin.Prelude.{
  ◌≡◌, refl, true, false, none, some, [], ◌∷◌, ok, err, pos, leb, ◌&&◌,
}
use mercury_relay_plugin.ConnectionJournal.{
  null, unhashable, text, integer, unhashable_type, Calendar, Entry, Mapping,
  sanitize_connection_event, only_keys, is_member, get, is_schema_version, safe_timestamp,
  is_timestamp, matches, sanitized_timed, sanitized_named, sanitized_fields, event_name,
  safe_choice, safe_id, is_id, all_hex, bounded_int, to_mapping,
}
use mercury_relay_plugin.ConnectionJournal.Safe.{IsSafe, sanitize_connection_event-IsSafe}
use mercury_relay_plugin.ConnectionJournal.Again.{sanitize_connection_event-to_mapping}
use mercury_relay_plugin.ConnectionJournal.Journal.{Settings, new_journal, Env}
use mercury_relay_plugin.ConnectionJournal.Bounds.{
  IsBounded, opens, sends, closes, writer_takes, run, run-new_journal-IsBounded,
}

abbrev test_calendar : Calendar
test_calendar = record { is_digit = λ c. leb b'0' c && leb c b'9'; strptime = λ s. true }

abbrev backoff : Entry
backoff = record {
  timestamp = "2026-01-02T03:04:05.678Z";
  event = "reconnect_backoff";
  attempt_id = some "0123456789abcdef";
  connection_id = none;
  generation = none;
  outcome = some "started";
  reason = some "unknown";
  exception_category = none;
  backoff_ms = some 1500;
  attempt_number = none;
  connection_age_ms = none;
  last_send_age_ms = none;
  last_receive_age_ms = none;
  close_code = none;
}

-- A reason that is no word of the vocabulary, and an identifier and a number out of their range.
abbrev reported : Mapping
reported =
    ("schema_version", integer (pos 1))
    ∷ ("timestamp", text "2026-01-02T03:04:05.678Z")
    ∷ ("event", text "reconnect_backoff")
    ∷ ("attempt_id", text "0123456789abcdef")
    ∷ ("connection_id", text "wss://relay")
    ∷ ("outcome", text "started")
    ∷ ("reason", text "token abc refused")
    ∷ ("backoff_ms", integer (pos 1500))
    ∷ ("close_code", integer (pos 70_000))
    ∷ []

sanitizes : sanitize_connection_event test_calendar reported ≡ ok (some backoff)
unfolding sanitize_connection_event only_keys is_member get is_schema_version safe_timestamp
    is_timestamp matches sanitized_timed sanitized_named sanitized_fields event_name safe_choice
    safe_id is_id all_hex bounded_int
sanitizes = refl

raises :
    sanitize_connection_event test_calendar (
      ("schema_version", integer (pos 1))
      ∷ ("timestamp", text "2026-01-02T03:04:05.678Z")
      ∷ ("event", unhashable)
      ∷ [])
    ≡ err unhashable_type
unfolding sanitize_connection_event only_keys is_member get is_schema_version safe_timestamp
    is_timestamp matches sanitized_timed sanitized_named sanitized_fields event_name safe_choice
    safe_id is_id all_hex bounded_int
raises = refl

drops_unknown_key :
    sanitize_connection_event test_calendar (("url", text "wss://relay") ∷ to_mapping backoff)
    ≡ ok none
unfolding sanitize_connection_event only_keys is_member get is_schema_version safe_timestamp
    is_timestamp matches sanitized_timed sanitized_named sanitized_fields event_name safe_choice
    safe_id is_id all_hex bounded_int
drops_unknown_key = refl

backoff-IsSafe : IsSafe test_calendar backoff
backoff-IsSafe = sanitize_connection_event-IsSafe test_calendar reported backoff sanitizes

sanitize_connection_event-IsSafe_example : IsSafe test_calendar backoff
sanitize_connection_event-IsSafe_example =
    sanitize_connection_event-IsSafe test_calendar reported backoff sanitizes

sanitize_connection_event-to_mapping_example :
    sanitize_connection_event test_calendar (to_mapping backoff) ≡ ok (some backoff)
sanitize_connection_event-to_mapping_example =
    sanitize_connection_event-to_mapping test_calendar backoff backoff-IsSafe

abbrev test_settings : Settings
test_settings = record {
  calendar = test_calendar;
  max_bytes = 65_536;
  memory_limit = 2;
  writer_queue_limit = 1;
  line_bytes = λ e. 300;
}

abbrev now : Env
now = record { timestamp = some "2026-01-02T03:04:06.000Z"; thread_starts = true }

run-new_journal-IsBounded_example : IsBounded test_settings (
    run test_settings
      (opens now (some 10) "0123456789abcdef" null (integer (pos 4))
        ∷ sends (some 20) none
        ∷ writer_takes false
        ∷ closes
        ∷ [])
      (new_journal test_settings true (none ∷ some (to_mapping backoff) ∷ [])))
run-new_journal-IsBounded_example =
    run-new_journal-IsBounded test_settings true (none ∷ some (to_mapping backoff) ∷ []) (
      opens now (some 10) "0123456789abcdef" null (integer (pos 4))
      ∷ sends (some 20) none
      ∷ writer_takes false
      ∷ closes
      ∷ [])
