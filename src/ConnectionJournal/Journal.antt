-- ===== src/ConnectionJournal/Journal.antt =====
-- The class `ConnectionJournal` of connection_journal.py. A reading of the monotonic clock is whole
-- microseconds, or `none` where it raises; the writer thread takes one line in a step of its own.
use Prim.Native.String.{String}
use package.text.Mathlib.Text as Text
use mercury_relay_plugin.Prelude.{
  ℕ, suc, ◌-◌, ◌*◌, ◌/◌, min, Bool, true, false, not, ◌&&◌, ◌||◌, Option, none, some, List, [], ◌∷◌,
  ◌++◌, map, leb, ltb, length, drop, Result, ok, err, if◌then◌else◌, pos, negsuc, ◌>>=◌,
}
use mercury_relay_plugin.ConnectionJournal.{
  Value, null, float_one, unhashable, other, boolean, integer, text, TypeError, Calendar, Mapping,
  Entry, max_event_age_ms, max_generation, get, int_value, to_mapping, sanitize_connection_event,
  sanitize_connection_events, onto_deque,
}

abbrev pub max_event_bytes : ℕ
max_event_bytes = 2 * 1024

abbrev pub max_connections : ℕ
max_connections = 64

-- `line_bytes` is the length of the printed event with its line feed.
pub record Settings : Type 0 where
  pub calendar : Calendar
  pub max_bytes : ℕ
  pub memory_limit : ℕ
  pub writer_queue_limit : ℕ
  pub line_bytes : Entry → ℕ

pub record Connection : Type 0 where
  pub opened_at : ℕ
  pub last_send : Option ℕ
  pub last_receive : Option ℕ

pub record Journal : Type 0 where
  pub events : List Entry
  pub write_queue : List Entry
  pub writer_started : Bool
  pub writer_closed : Bool
  pub dropped_events : ℕ
  pub storage_available : Bool
  pub write_failure_count : ℕ
  pub host_generation : Option ℕ
  pub host_connected : Bool
  pub host_opened_at : Option ℕ
  pub host_last_send : Option ℕ
  pub host_last_receive : Option ℕ
  pub connections : List (String × Connection)

-- What the clock and the start of the thread do in one recording.
pub record Env : Type 0 where
  pub timestamp : Option String
  pub thread_starts : Bool

-- The reading of the clock in a call, and what a second one gives where that was none.
pub record Readings : Type 0 where
  pub now : Option ℕ
  pub connection_again : Option ℕ
  pub send_again : Option ℕ
  pub receive_again : Option ℕ

unfoldable pub or_again : Option ℕ → Option ℕ → Option ℕ
or_again none again = again
or_again (some now) again = some now

-- `_age_ms`, where a clock that has gone back gives 0.
unfoldable pub age_ms : Option ℕ → Option ℕ → Option ℕ
age_ms none current = none
age_ms (some start) none = none
age_ms (some start) (some current) = some (min max_event_age_ms ((current - start) / 1000))

unfoldable pub normalized_mapping : String → String → Mapping → Mapping
unfolding get
normalized_mapping timestamp event fields =
    ("schema_version", integer (pos 1))
    ∷ ("timestamp", text timestamp)
    ∷ ("event", text event)
    ∷ ("attempt_id", get "attempt_id" fields)
    ∷ ("connection_id", get "connection_id" fields)
    ∷ ("generation", get "generation" fields)
    ∷ ("outcome", get "outcome" fields)
    ∷ ("reason", get "reason" fields)
    ∷ ("exception_category", get "exception_category" fields)
    ∷ ("backoff_ms", get "backoff_ms" fields)
    ∷ ("attempt_number", get "attempt_number" fields)
    ∷ ("connection_age_ms", get "connection_age_ms" fields)
    ∷ ("last_send_age_ms", get "last_send_age_ms" fields)
    ∷ ("last_receive_age_ms", get "last_receive_age_ms" fields)
    ∷ ("close_code", get "close_code" fields)
    ∷ []

unfoldable pub mark_write_failure : Journal → Journal
mark_write_failure j = record j {
  storage_available = false;
  write_failure_count = suc j.write_failure_count;
}

unfoldable pub ensure_writer : Env → Journal → Journal
ensure_writer env j =
    if j.writer_started || j.writer_closed
    then j
    else if env.thread_starts
    then record j { writer_started = true }
    else mark_write_failure j

unfoldable pub find_connection : String → List (String × Connection) → Option Connection
find_connection id [] = none
find_connection id ((k, c) ∷ rest) = if Text.◌==◌ k id then some c else find_connection id rest

-- `self._connections[id] = c`
unfoldable pub set_connection :
    String → Connection → List (String × Connection) → List (String × Connection)
set_connection id c [] = (id, c) ∷ []
set_connection id c ((k, d) ∷ rest) =
    if Text.◌==◌ k id then (k, c) ∷ rest else (k, d) ∷ set_connection id c rest

-- `self._connections.pop(id, None)`
unfoldable pub pop_connection : String → List (String × Connection) → List (String × Connection)
pop_connection id [] = []
pop_connection id ((k, d) ∷ rest) = if Text.◌==◌ k id then rest else (k, d) ∷ pop_connection id rest

unfoldable pub is_tracked : Option Connection → Bool
is_tracked none = false
is_tracked (some c) = true

-- The list with room for one more: the oldest goes, unless the connection is there.
unfoldable pub with_room : String → List (String × Connection) → List (String × Connection)
with_room id cs =
    if leb max_connections (length cs) && not (is_tracked (find_connection id cs))
    then drop 1 cs
    else cs

unfoldable pub track_at :
    Option ℕ → String → List (String × Connection) → List (String × Connection)
track_at none id cs = cs
track_at (some now) id cs =
    set_connection id (record { opened_at = now; last_send = none; last_receive = none }) cs

unfoldable pub track_connection : Option ℕ → String → Journal → Journal
track_connection now id j = record j { connections = track_at now id (with_room id j.connections) }

unfoldable pub with_send :
    ℕ → String → Option Connection → List (String × Connection) → List (String × Connection)
with_send now id none cs = cs
with_send now id (some c) cs = set_connection id (record c { last_send = some now }) cs

unfoldable pub with_receive :
    ℕ → String → Option Connection → List (String × Connection) → List (String × Connection)
with_receive now id none cs = cs
with_receive now id (some c) cs = set_connection id (record c { last_receive = some now }) cs

-- `mark_send`: of the host where no connection is named.
unfoldable pub mark_send : Option ℕ → Option String → Journal → Journal
mark_send none id j = j
mark_send (some now) none j = record j { host_last_send = some now }
mark_send (some now) (some id) j = record j {
  connections = with_send now id (find_connection id j.connections) j.connections;
}

unfoldable pub mark_receive : Option ℕ → Option String → Journal → Journal
mark_receive none id j = j
mark_receive (some now) none j = record j { host_last_receive = some now }
mark_receive (some now) (some id) j = record j {
  connections = with_receive now id (find_connection id j.connections) j.connections;
}

unfoldable pub clamped_generation : Value → Option ℕ
clamped_generation null = none
clamped_generation float_one = none
clamped_generation unhashable = none
clamped_generation other = none
clamped_generation (boolean b) = none
clamped_generation (integer (pos n)) = some (min max_generation n)
clamped_generation (integer (negsuc n)) = some 0
clamped_generation (text t) = none

module _ (settings : Settings) where
  unfoldable pub normalize_event :
      Option String → String → Mapping → Result TypeError (Option Entry)
  normalize_event none event fields = ok none
  normalize_event (some timestamp) event fields =
      sanitize_connection_event settings.calendar (normalized_mapping timestamp event fields)

  unfoldable pub put_nowait : Entry → Journal → Journal
  put_nowait line j =
      if leb settings.writer_queue_limit (length j.write_queue)
      then record j { dropped_events = suc j.dropped_events }
      else record j { write_queue = j.write_queue ++ line ∷ [] }

  unfoldable pub enqueue : Env → Entry → Journal → Journal
  enqueue env line j = if j.writer_closed then j else put_nowait line (ensure_writer env j)

  -- What `record` does with a normalized event; it swallows every error.
  unfoldable pub append : Env → Result TypeError (Option Entry) → Journal → Journal
  append env (err e) j = j
  append env (ok none) j = j
  append env (ok (some e)) j =
      if ltb (min max_event_bytes settings.max_bytes) (settings.line_bytes e)
      then j
      else enqueue env e (record j { events = onto_deque settings.memory_limit j.events e })

  -- A line of a file that was read back, sanitized; a TypeError ends the loading.
  unfoldable pub keep_line :
      Result TypeError (Option Entry) → (Journal → Journal) → Journal → Journal
  keep_line (err x) rest j = j
  keep_line (ok none) rest j = rest j
  keep_line (ok (some e)) rest j =
      rest (record j { events = onto_deque settings.memory_limit j.events e })

  -- `_load_persisted`, over the lines of the files that can be read; `none` is a line that is too long, is
  -- not JSON or is not an object.
  unfoldable pub load_persisted : List (Option Mapping) → Journal → Journal
  load_persisted [] j = j
  load_persisted (none ∷ lines) j = load_persisted lines j
  load_persisted (some value ∷ lines) j =
      keep_line (sanitize_connection_event settings.calendar value) (load_persisted lines) j

  abbrev pub empty_journal : Bool → Journal
  empty_journal ready = record {
    events = [];
    write_queue = [];
    writer_started = false;
    writer_closed = false;
    dropped_events = 0;
    storage_available = ready;
    write_failure_count = 0;
    host_generation = none;
    host_connected = false;
    host_opened_at = none;
    host_last_send = none;
    host_last_receive = none;
    connections = [];
  }

  -- `__init__`, with whether the directory could be made ready.
  unfoldable pub new_journal : Bool → List (Option Mapping) → Journal
  new_journal ready lines =
      if ready then load_persisted lines (empty_journal true) else empty_journal false

  unfoldable pub record_event : Env → String → Mapping → Journal → Journal
  record_event env event fields j = append env (normalize_event env.timestamp event fields) j

  unfoldable pub connection_attempt : Env → String → Value → Journal → Journal
  connection_attempt env id attempt_id j =
      record_event env "connection_attempt"
        (("attempt_id", attempt_id)
          ∷ ("connection_id", text id)
          ∷ ("outcome", text "started")
          ∷ ("reason", text "connect_started")
          ∷ [])
        j

  unfoldable pub connection_open : Env → Option ℕ → String → Value → Value → Journal → Journal
  connection_open env now id attempt_id generation j =
      record_event env "connection_open"
        (("attempt_id", attempt_id)
          ∷ ("connection_id", text id)
          ∷ ("generation", generation)
          ∷ ("outcome", text "success")
          ∷ [])
        (track_connection now id j)

  -- The ages of the connection that was popped, if there was one.
  unfoldable pub connection_ages : Readings → Option Connection → Mapping
  connection_ages r none =
      ("connection_age_ms", null) ∷ ("last_send_age_ms", null) ∷ ("last_receive_age_ms", null) ∷ []
  connection_ages r (some c) =
      (
        "connection_age_ms",
        int_value (age_ms (some c.opened_at) (or_again r.now r.connection_again)),
      )
      ∷ ("last_send_age_ms", int_value (age_ms c.last_send (or_again r.now r.send_again)))
      ∷ ("last_receive_age_ms", int_value (age_ms c.last_receive (or_again r.now r.receive_again)))
      ∷ []

  unfoldable pub connection_disconnect :
      Env → Readings → String → Value → Value → Value → Value → Journal → Journal
  connection_disconnect env r id reason category attempt_id close_code j =
      record_event env "disconnect"
        (("attempt_id", attempt_id)
          ∷ ("connection_id", text id)
          ∷ ("outcome", text "closed")
          ∷ ("reason", reason)
          ∷ ("exception_category", category)
          ∷ ("close_code", close_code)
          ∷ connection_ages r (find_connection id j.connections))
        (record j { connections = pop_connection id j.connections })

  unfoldable pub host_open : Env → Env → Option ℕ → Value → Value → Journal → Journal
  host_open first second now attempt_id generation j =
      let fields : Mapping =
        ("attempt_id", attempt_id)
        ∷ ("generation", generation)
        ∷ ("outcome", text "success")
        ∷ [] in
      let opened : Journal = record j {
        host_connected = true;
        host_generation = clamped_generation generation;
        host_opened_at = now;
        host_last_send = none;
        host_last_receive = none;
      } in
      record_event second "host_generation_change" fields
        (record_event first "connection_open" fields opened)

  unfoldable pub host_closed : Journal → Journal
  host_closed j = record j {
    host_connected = false;
    host_opened_at = none;
    host_last_send = none;
    host_last_receive = none;
  }

  unfoldable pub host_disconnect :
      Env → Readings → Value → Value → Value → Value → Journal → Journal
  host_disconnect env r attempt_id reason category close_code j = host_closed (
      record_event env "disconnect"
        (("attempt_id", attempt_id)
          ∷ ("generation", int_value j.host_generation)
          ∷ ("outcome", text "closed")
          ∷ ("reason", reason)
          ∷ ("exception_category", category)
          ∷ (
            "connection_age_ms",
            int_value (age_ms j.host_opened_at (or_again r.now r.connection_again)),
          )
          ∷ ("last_send_age_ms", int_value (age_ms j.host_last_send (or_again r.now r.send_again)))
          ∷ (
            "last_receive_age_ms",
            int_value (age_ms j.host_last_receive (or_again r.now r.receive_again)),
          )
          ∷ ("close_code", close_code)
          ∷ [])
        j)

  -- `handshake_outcome` and `admission_outcome`, by the name of the event.
  unfoldable pub outcome_of : String → Env → String → Value → Value → Value → Journal → Journal
  outcome_of event env id outcome reason category j =
      record_event env event
        (("connection_id", text id)
          ∷ ("outcome", outcome)
          ∷ ("reason", reason)
          ∷ ("exception_category", category)
          ∷ [])
        j

  unfoldable pub reconnect_attempt : Env → Value → Value → Journal → Journal
  reconnect_attempt env attempt_id attempt_number j =
      record_event env "reconnect_attempt"
        (("attempt_id", attempt_id)
          ∷ ("attempt_number", attempt_number)
          ∷ ("outcome", text "started")
          ∷ ("reason", text "connect_started")
          ∷ [])
        j

  unfoldable pub reconnect_backoff : Env → Value → Value → Journal → Journal
  reconnect_backoff env attempt_id backoff_ms j =
      record_event env "reconnect_backoff"
        (("attempt_id", attempt_id) ∷ ("backoff_ms", backoff_ms) ∷ ("outcome", text "started") ∷ [])
        j

  unfoldable pub reconnect_result : Env → Value → Value → Value → Value → Journal → Journal
  reconnect_result env attempt_id outcome reason category j =
      record_event env "reconnect_result"
        (("attempt_id", attempt_id)
          ∷ ("outcome", outcome)
          ∷ ("reason", reason)
          ∷ ("exception_category", category)
          ∷ [])
        j

  -- The writer takes a line; `persisted` is false where `_persist` meets a failure.
  unfoldable pub writer_step : Bool → Journal → Journal
  writer_step persisted j =
      let taken : Journal = record j { write_queue = drop 1 j.write_queue } in
      if persisted then taken else mark_write_failure taken

  unfoldable pub close : Journal → Journal
  close j = record j { writer_closed = true }

  -- The events of `export`.
  unfoldable pub exported_events : Journal → Result TypeError (List Entry)
  exported_events j = do
    events ← sanitize_connection_events settings.calendar (map to_mapping j.events)
    ok (drop (length events - settings.memory_limit) events)
