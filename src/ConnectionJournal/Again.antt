-- ===== src/ConnectionJournal/Again.antt =====
-- `sanitize_connection_event` of connection_journal.py on what it has returned.
use Prim.Native.String.{String}
use mercury_relay_plugin.Prelude.{ℕ, ◌≡◌, refl, true, Option, none, some, List, leb, arith, ok}
use mercury_relay_plugin.ConnectionJournal.{
  text, Calendar, Entry, max_event_age_ms, max_generation, max_attempt_number, max_close_code,
  event_names, outcomes, reasons, exception_categories, event_keys, is_member, only_keys, get,
  bounded_int, safe_id, safe_choice, is_schema_version, event_name, is_timestamp, safe_timestamp,
  sanitized_fields, sanitized_named, sanitized_timed, sanitize_connection_event, text_value,
  int_value, to_mapping,
}
use mercury_relay_plugin.ConnectionJournal.Safe.{IsSafe, IsId, IsWithin, IsChoice, on_true}

safe_id-text_value : (o : Option String) → IsId o → safe_id (text_value o) ≡ o
unfolding safe_id
safe_id-text_value none h = refl
safe_id-text_value (some s) h = rw h refl

bounded_int-int_value :
    (maximum : ℕ) (o : Option ℕ) → IsWithin maximum o → bounded_int maximum (int_value o) ≡ o
unfolding bounded_int
bounded_int-int_value maximum none h = refl
bounded_int-int_value maximum (some n) h = on_true (leb n maximum) (some n) none (ground (arith, h))

safe_choice-text_value :
    (allowed : List String) (o : Option String)
    → IsChoice allowed o
    → safe_choice (text_value o) allowed ≡ ok o
unfolding safe_choice
safe_choice-text_value allowed none h = refl
safe_choice-text_value allowed (some s) h = rw h refl

event_name_text :
    (name : String) → is_member name event_names ≡ true → event_name (text name) ≡ ok (some name)
unfolding event_name
event_name_text name h = on_true (is_member name event_names) (ok (some name)) (ok none) h

module _ (calendar : Calendar) where
  safe_timestamp_text :
      (t : String) → is_timestamp calendar t ≡ true → safe_timestamp calendar (text t) ≡ some t
  unfolding safe_timestamp
  safe_timestamp_text t h = on_true (is_timestamp calendar t) (some t) none h

  known_keys : (e : Entry) → only_keys event_keys (to_mapping e) ≡ true
  unfolding only_keys is_member
  known_keys e = refl

  sanitized_fields-to_mapping :
      (e : Entry)
      → IsSafe calendar e
      → sanitized_fields calendar (to_mapping e) e.timestamp e.event ≡ ok (some e)
  unfolding sanitized_fields get
  sanitized_fields-to_mapping e s =
      rw
        (
          safe_choice-text_value outcomes e.outcome s.outcome,
          safe_choice-text_value reasons e.reason s.reason,
          safe_choice-text_value exception_categories e.exception_category s.exception_category,
          safe_id-text_value e.attempt_id s.attempt_id,
          safe_id-text_value e.connection_id s.connection_id,
          bounded_int-int_value max_generation e.generation s.generation,
          bounded_int-int_value max_event_age_ms e.backoff_ms s.backoff_ms,
          bounded_int-int_value max_attempt_number e.attempt_number s.attempt_number,
          bounded_int-int_value max_event_age_ms e.connection_age_ms s.connection_age_ms,
          bounded_int-int_value max_event_age_ms e.last_send_age_ms s.last_send_age_ms,
          bounded_int-int_value max_event_age_ms e.last_receive_age_ms s.last_receive_age_ms,
          bounded_int-int_value max_close_code e.close_code s.close_code,
        )
        refl

  -- The dictionary of a safe event is sanitized to the same event: what the journal has recorded is
  -- accepted again, field by field, when it is loaded or exported.
  pub sanitize_connection_event-to_mapping :
      (e : Entry)
      → IsSafe calendar e
      → sanitize_connection_event calendar (to_mapping e) ≡ ok (some e)
  unfolding sanitize_connection_event sanitized_timed sanitized_named is_schema_version get
  sanitize_connection_event-to_mapping e s =
      rw
        (
          known_keys e,
          safe_timestamp_text e.timestamp s.timestamp,
          event_name_text e.event s.event,
          sanitized_fields-to_mapping e s,
        )
        refl
