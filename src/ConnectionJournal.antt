-- ===== src/ConnectionJournal.antt =====
-- src/mercury_relay_plugin/connection_journal.py: the events of the journal and their closed schema.
-- A mapping is its list of pairs. `Calendar` stands for `strptime` and for the digits of `re`.
pub mod Journal
pub mod Safe
pub mod Again
pub mod Tables
pub mod Bounds
pub mod Export
mod Tests
use Prim.Native.String.{String}
use Prim.Native.Char.{code}
use package.text.Mathlib.Text as Text
use mercury_relay_plugin.Prelude.{
  ℕ, zero, suc, ◌+◌, ◌-◌, ◌*◌, ◌^◌, Bool, true, false, not, ◌&&◌, ◌||◌, Option, none, some, List,
  [], ◌∷◌, ◌++◌, leb, ltb, ◌==◌, length, drop, Result, ok, err, if◌then◌else◌, ℤ, pos, negsuc,
  ◌>>=◌,
}

-- The value of a field; `unhashable` is a list or an object, `float_one` the number 1.0.
pub data Value : Type 0 where
  null float_one unhashable other : Value
  boolean : Bool → Value
  integer : ℤ → Value
  text : String → Value

-- What the set of a vocabulary raises on a value without a hash.
pub data TypeError : Type 0 where
  unhashable_type : TypeError

pub record Calendar : Type 0 where
  pub is_digit : ℕ → Bool
  pub strptime : String → Bool

abbrev pub Mapping : Type 0
Mapping = List (String × Value)

-- A sanitized event: the fields of the dictionary that is returned.
pub record Entry : Type 0 where
  pub timestamp : String
  pub event : String
  pub attempt_id : Option String
  pub connection_id : Option String
  pub generation : Option ℕ
  pub outcome : Option String
  pub reason : Option String
  pub exception_category : Option String
  pub backoff_ms : Option ℕ
  pub attempt_number : Option ℕ
  pub connection_age_ms : Option ℕ
  pub last_send_age_ms : Option ℕ
  pub last_receive_age_ms : Option ℕ
  pub close_code : Option ℕ

abbrev pub max_event_age_ms : ℕ
max_event_age_ms = 7 * 24 * 60 * 60 * 1000

abbrev pub max_generation : ℕ
max_generation = 2 ^ 31 - 1

abbrev pub max_attempt_number : ℕ
max_attempt_number = 2 ^ 31 - 1

abbrev pub max_close_code : ℕ
max_close_code = 65_535

abbrev pub default_memory_events : ℕ
default_memory_events = 64

abbrev pub event_names : List String
event_names =
    "connection_attempt" ∷ "connection_open" ∷ "disconnect" ∷ "handshake_outcome"
    ∷ "admission_outcome" ∷ "reconnect_attempt" ∷ "reconnect_backoff" ∷ "reconnect_result"
    ∷ "host_generation_change" ∷ []

abbrev pub outcomes : List String
outcomes = "unknown" ∷ "started" ∷ "success" ∷ "failed" ∷ "rejected" ∷ "timeout" ∷ "closed" ∷ []

abbrev pub reasons : List String
reasons =
    "unknown" ∷ "connect_started" ∷ "connect_failed" ∷ "connection_closed" ∷ "connection_failed"
    ∷ "connection_limit" ∷ "handshake_failed" ∷ "handshake_timeout" ∷ "protocol_violation"
    ∷ "timeout" ∷ "pairing_pending" ∷ "pairing_rejected" ∷ "pairing_ack_failed"
    ∷ "device_not_authorized" ∷ "invalid_auth_envelope" ∷ "lease_not_available"
    ∷ "profile_not_available" ∷ "runtime_unavailable" ∷ "channel_already_admitted"
    ∷ "controller_transport" ∷ "backpressure" ∷ "socket_closed" ∷ "shutdown" ∷ []

abbrev pub exception_categories : List String
exception_categories =
    "timeout" ∷ "unauthorized" ∷ "connection" ∷ "protocol" ∷ "admission" ∷ "transport" ∷ "os_error"
    ∷ "value_error" ∷ "cancelled" ∷ "other" ∷ "unknown" ∷ []

abbrev pub event_keys : List String
event_keys =
    "schema_version" ∷ "timestamp" ∷ "event" ∷ "attempt_id" ∷ "connection_id" ∷ "generation"
    ∷ "outcome" ∷ "reason" ∷ "exception_category" ∷ "backoff_ms" ∷ "attempt_number"
    ∷ "connection_age_ms" ∷ "last_send_age_ms" ∷ "last_receive_age_ms" ∷ "close_code" ∷ []

unfoldable pub is_member : String → List String → Bool
is_member name [] = false
is_member name (x ∷ xs) = Text.◌==◌ x name || is_member name xs

-- `set(value) <= _EVENT_KEYS`
unfoldable pub only_keys : List String → Mapping → Bool
unfolding is_member
only_keys names [] = true
only_keys names ((key, v) ∷ rest) = is_member key names && only_keys names rest

-- `value.get(key)`, where a key that is missing reads as `None`.
unfoldable pub get : String → Mapping → Value
get key [] = null
get key ((k, v) ∷ rest) = if Text.◌==◌ k key then v else get key rest

abbrev pub codes : String → List ℕ
codes String.[] = []
codes (String.◌∷◌ c s) = code c ∷ codes s

-- `[0-9a-f]*`
unfoldable pub all_hex : List ℕ → Bool
all_hex [] = true
all_hex (c ∷ cs) = ((leb b'0' c && leb c b'9') || (leb b'a' c && leb c b'f')) && all_hex cs

unfoldable pub is_id : String → Bool
is_id s = length (codes s) == 16 && all_hex (codes s)

-- A text against a pattern in which `d` is a digit and any other character is itself.
unfoldable pub matches : (ℕ → Bool) → List ℕ → List ℕ → Bool
matches digit [] [] = true
matches digit [] (c ∷ cs) = false
matches digit (p ∷ ps) [] = false
matches digit (p ∷ ps) (c ∷ cs) = (if p == b'd' then digit c else c == p) && matches digit ps cs

-- `_bounded_int`
unfoldable pub bounded_int : ℕ → Value → Option ℕ
bounded_int maximum null = none
bounded_int maximum float_one = none
bounded_int maximum unhashable = none
bounded_int maximum other = none
bounded_int maximum (boolean b) = none
bounded_int maximum (integer (pos n)) = if leb n maximum then some n else none
bounded_int maximum (integer (negsuc n)) = none
bounded_int maximum (text t) = none

-- `_safe_id`
unfoldable pub safe_id : Value → Option String
safe_id null = none
safe_id float_one = none
safe_id unhashable = none
safe_id other = none
safe_id (boolean b) = none
safe_id (integer n) = none
safe_id (text t) = if is_id t then some t else none

-- `safe_choice`
unfoldable pub safe_choice : Value → List String → Result TypeError (Option String)
safe_choice null allowed = ok none
safe_choice float_one allowed = ok (some "unknown")
safe_choice unhashable allowed = err unhashable_type
safe_choice other allowed = ok (some "unknown")
safe_choice (boolean b) allowed = ok (some "unknown")
safe_choice (integer n) allowed = ok (some "unknown")
safe_choice (text t) allowed = if is_member t allowed then ok (some t) else ok (some "unknown")

-- `value.get("schema_version") == JOURNAL_SCHEMA_VERSION`, which holds of 1, 1.0 and `True`.
unfoldable pub is_schema_version : Value → Bool
is_schema_version null = false
is_schema_version float_one = true
is_schema_version unhashable = false
is_schema_version other = false
is_schema_version (boolean b) = b
is_schema_version (integer (pos n)) = n == 1
is_schema_version (integer (negsuc n)) = false
is_schema_version (text t) = false

-- `event in _EVENT_NAMES`
unfoldable pub event_name : Value → Result TypeError (Option String)
event_name null = ok none
event_name float_one = ok none
event_name unhashable = err unhashable_type
event_name other = ok none
event_name (boolean b) = ok none
event_name (integer n) = ok none
event_name (text t) = if is_member t event_names then ok (some t) else ok none

-- `append` of a deque with a greatest length
unfoldable pub onto_deque {ℓ} : {A : Type ℓ} → ℕ → List A → A → List A
onto_deque limit xs x = drop (length xs + 1 - limit) (xs ++ x ∷ [])

module _ (calendar : Calendar) where
  unfoldable pub is_timestamp : String → Bool
  is_timestamp s =
      matches calendar.is_digit (codes "dddd-dd-ddTdd:dd:dd.dddZ") (codes s) && calendar.strptime s

  -- `_safe_timestamp`
  unfoldable pub safe_timestamp : Value → Option String
  safe_timestamp null = none
  safe_timestamp float_one = none
  safe_timestamp unhashable = none
  safe_timestamp other = none
  safe_timestamp (boolean b) = none
  safe_timestamp (integer n) = none
  safe_timestamp (text t) = if is_timestamp t then some t else none

  -- The dictionary that is returned, once the time and the name are at hand.
  unfoldable pub sanitized_fields : Mapping → String → String → Result TypeError (Option Entry)
  sanitized_fields value timestamp event = do
    outcome ← safe_choice (get "outcome" value) outcomes
    reason ← safe_choice (get "reason" value) reasons
    category ← safe_choice (get "exception_category" value) exception_categories
    ok (
        some (record {
          timestamp = timestamp;
          event = event;
          attempt_id = safe_id (get "attempt_id" value);
          connection_id = safe_id (get "connection_id" value);
          generation = bounded_int max_generation (get "generation" value);
          outcome = outcome;
          reason = reason;
          exception_category = category;
          backoff_ms = bounded_int max_event_age_ms (get "backoff_ms" value);
          attempt_number = bounded_int max_attempt_number (get "attempt_number" value);
          connection_age_ms = bounded_int max_event_age_ms (get "connection_age_ms" value);
          last_send_age_ms = bounded_int max_event_age_ms (get "last_send_age_ms" value);
          last_receive_age_ms = bounded_int max_event_age_ms (get "last_receive_age_ms" value);
          close_code = bounded_int max_close_code (get "close_code" value);
        }))

  unfoldable pub sanitized_named :
      Mapping → String → Option String → Result TypeError (Option Entry)
  sanitized_named value timestamp none = ok none
  sanitized_named value timestamp (some event) = sanitized_fields value timestamp event

  unfoldable pub sanitized_timed : Mapping → Option String → Result TypeError (Option Entry)
  sanitized_timed value none = ok none
  sanitized_timed value (some timestamp) = do
    event ← event_name (get "event" value)
    sanitized_named value timestamp event

  -- `sanitize_connection_event`
  unfoldable pub sanitize_connection_event : Mapping → Result TypeError (Option Entry)
  sanitize_connection_event value =
      if only_keys event_keys value && is_schema_version (get "schema_version" value)
      then sanitized_timed value (safe_timestamp (get "timestamp" value))
      else ok none

  -- The loop of `sanitize_connection_events`.
  unfoldable pub keep_event : List Entry → Option Entry → List Entry
  keep_event result none = result
  keep_event result (some e) = onto_deque default_memory_events result e

  unfoldable pub sanitize_all : List Entry → List Mapping → Result TypeError (List Entry)
  sanitize_all result [] = ok result
  sanitize_all result (value ∷ values) = do
    event ← sanitize_connection_event value
    sanitize_all (keep_event result event) values

  unfoldable pub sanitize_connection_events : List Mapping → Result TypeError (List Entry)
  sanitize_connection_events values = sanitize_all [] values

abbrev pub text_value : Option String → Value
text_value none = null
text_value (some s) = text s

abbrev pub int_value : Option ℕ → Value
int_value none = null
int_value (some n) = integer (pos n)

-- The dictionary of a sanitized event.
abbrev pub to_mapping : Entry → Mapping
to_mapping e =
    ("schema_version", integer (pos 1))
    ∷ ("timestamp", text e.timestamp)
    ∷ ("event", text e.event)
    ∷ ("attempt_id", text_value e.attempt_id)
    ∷ ("connection_id", text_value e.connection_id)
    ∷ ("generation", int_value e.generation)
    ∷ ("outcome", text_value e.outcome)
    ∷ ("reason", text_value e.reason)
    ∷ ("exception_category", text_value e.exception_category)
    ∷ ("backoff_ms", int_value e.backoff_ms)
    ∷ ("attempt_number", int_value e.attempt_number)
    ∷ ("connection_age_ms", int_value e.connection_age_ms)
    ∷ ("last_send_age_ms", int_value e.last_send_age_ms)
    ∷ ("last_receive_age_ms", int_value e.last_receive_age_ms)
    ∷ ("close_code", int_value e.close_code)
    ∷ []
