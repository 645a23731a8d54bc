-- ===== src/ConnectionJournal/Bounds.antt =====
-- The bounds of the journal of connection_journal.py.
use Prim.Native.String.{String}
use mercury_relay_plugin.Prelude.{
  ℕ, ◌≤◌, ◌≡◌, refl, min, inl, inr, Bool, Bool-cases, true, false, ◌||◌, Option, none, some, List,
  [], ◌∷◌, leb, ltb, length, length-append, length-drop, drop, All, arith, Result, ok, err,
  if◌then◌else◌,
}
use mercury_relay_plugin.ConnectionJournal.{Value, TypeError, Mapping, Entry, max_generation}
use mercury_relay_plugin.ConnectionJournal.Safe.{IsSafe, IsWithin, sanitize_connection_event-IsSafe}
use mercury_relay_plugin.ConnectionJournal.Journal.{
  max_connections, keep_line, load_persisted, empty_journal, new_journal, Settings, Connection,
  Journal, Env, Readings, normalized_mapping, mark_write_failure, ensure_writer, track_connection,
  mark_send, mark_receive, normalize_event, put_nowait, enqueue, append, record_event,
  connection_attempt, connection_open, connection_disconnect, host_open, host_closed,
  host_disconnect, outcome_of, reconnect_attempt, reconnect_backoff, reconnect_result, writer_step,
  close,
}
use mercury_relay_plugin.ConnectionJournal.Tables.{
  length-pop_connection, length-onto_deque, All-onto_deque, length-track_at, length-with_send,
  length-with_receive, clamped_generation-IsWithin,
}

module _ (settings : Settings) where
  -- The deque, the queue and the table are within their limits, what is kept is safe, and the generation
  -- is in its range.
  pub record IsBounded (j : Journal) : Type 0 where
    pub memory : length j.events ≤ settings.memory_limit
    pub safe : All (IsSafe settings.calendar) j.events
    pub queue : length j.write_queue ≤ settings.writer_queue_limit
    pub connections : length j.connections ≤ max_connections
    pub generation : IsWithin max_generation j.host_generation

  mark_write_failure-IsBounded : (j : Journal) → IsBounded j → IsBounded (mark_write_failure j)
  unfolding mark_write_failure
  mark_write_failure-IsBounded j i = record {
    memory = i.memory;
    safe = i.safe;
    queue = i.queue;
    connections = i.connections;
    generation = i.generation;
  }

  if-IsBounded :
      (test : Bool) (x y : Journal) → IsBounded x → IsBounded y → IsBounded (if test then x else y)
  if-IsBounded true x y i k = i
  if-IsBounded false x y i k = k

  ensure_writer-IsBounded :
      (env : Env) (j : Journal) → IsBounded j → IsBounded (ensure_writer env j)
  unfolding ensure_writer
  ensure_writer-IsBounded env j i = if-IsBounded (j.writer_started || j.writer_closed) j _ i (
      if-IsBounded env.thread_starts _ _
        (record {
          memory = i.memory;
          safe = i.safe;
          queue = i.queue;
          connections = i.connections;
          generation = i.generation;
        })
        (mark_write_failure-IsBounded j i))

  put_nowait-IsBounded :
      (line : Entry) (j : Journal) → IsBounded j → IsBounded (put_nowait settings line j)
  unfolding put_nowait
  put_nowait-IsBounded line j i =
      elim (Bool-cases (leb settings.writer_queue_limit (length j.write_queue))) [
        | inl full ↦ rw full (record {
          memory = i.memory;
          safe = i.safe;
          queue = i.queue;
          connections = i.connections;
          generation = i.generation;
        })
        | inr room ↦ rw room (record {
          memory = i.memory;
          safe = i.safe;
          queue = ground (arith, room, length-append j.write_queue (line ∷ []));
          connections = i.connections;
          generation = i.generation;
        })
      ]

  enqueue-IsBounded :
      (env : Env) (line : Entry) (j : Journal)
      → IsBounded j
      → IsBounded (enqueue settings env line j)
  unfolding enqueue
  enqueue-IsBounded env line j i =
      if-IsBounded j.writer_closed j _ i
        (put_nowait-IsBounded line _ (ensure_writer-IsBounded env j i))

  -- An event that is appended has to be safe.
  append-IsBounded :
      (env : Env) (r : Result TypeError (Option Entry)) (j : Journal)
      → ((e : Entry) → r ≡ ok (some e) → IsSafe settings.calendar e)
      → IsBounded j
      → IsBounded (append settings env r j)
  unfolding append
  append-IsBounded env (err x) j s i = i
  append-IsBounded env (ok none) j s i = i
  append-IsBounded env (ok (some e)) j s i =
      elim (Bool-cases (ltb (min 2048 settings.max_bytes) (settings.line_bytes e))) [
        | inl long ↦ rw long i
        | inr short ↦ rw short (
            enqueue-IsBounded env e _ (record {
              memory = length-onto_deque settings.memory_limit j.events e;
              safe =
                  All-onto_deque (IsSafe settings.calendar) settings.memory_limit j.events e i.safe
                    (s e refl);
              queue = i.queue;
              connections = i.connections;
              generation = i.generation;
            }))
      ]

  normalize_event-IsSafe :
      (timestamp : Option String) (event : String) (fields : Mapping) (e : Entry)
      → normalize_event settings timestamp event fields ≡ ok (some e)
      → IsSafe settings.calendar e
  unfolding normalize_event
  normalize_event-IsSafe none event fields e h = cc
  normalize_event-IsSafe (some t) event fields e h =
      sanitize_connection_event-IsSafe settings.calendar (normalized_mapping t event fields) e h

  record_event-IsBounded :
      (env : Env) (event : String) (fields : Mapping) (j : Journal)
      → IsBounded j
      → IsBounded (record_event settings env event fields j)
  unfolding record_event
  record_event-IsBounded env event fields j i =
      append-IsBounded env _ j (normalize_event-IsSafe env.timestamp event fields) i

  -- One call of a method, or a line that the writer takes.
  pub data Call : Type 0 where
    attempts : Env → String → Value → Call
    opens : Env → Option ℕ → String → Value → Value → Call
    disconnects : Env → Readings → String → Value → Value → Value → Value → Call
    sends receives : Option ℕ → Option String → Call
    host_opens : Env → Env → Option ℕ → Value → Value → Call
    host_disconnects : Env → Readings → Value → Value → Value → Value → Call
    handshakes admissions : Env → String → Value → Value → Value → Call
    reconnects : Env → Value → Value → Call
    backs_off : Env → Value → Value → Call
    reconnected : Env → Value → Value → Value → Value → Call
    writer_takes : Bool → Call
    closes : Call

  unfoldable pub step : Call → Journal → Journal
  step (attempts env id attempt) j = connection_attempt settings env id attempt j
  step (opens env now id attempt generation) j =
      connection_open settings env now id attempt generation j
  step (disconnects env r id reason category attempt code) j =
      connection_disconnect settings env r id reason category attempt code j
  step (sends now id) j = mark_send now id j
  step (receives now id) j = mark_receive now id j
  step (host_opens first second now attempt generation) j =
      host_open settings first second now attempt generation j
  step (host_disconnects env r attempt reason category code) j =
      host_disconnect settings env r attempt reason category code j
  step (handshakes env id outcome reason category) j =
      outcome_of settings "handshake_outcome" env id outcome reason category j
  step (admissions env id outcome reason category) j =
      outcome_of settings "admission_outcome" env id outcome reason category j
  step (reconnects env attempt number) j = reconnect_attempt settings env attempt number j
  step (backs_off env attempt ms) j = reconnect_backoff settings env attempt ms j
  step (reconnected env attempt outcome reason category) j =
      reconnect_result settings env attempt outcome reason category j
  step (writer_takes persisted) j = writer_step settings persisted j
  step closes j = close settings j

  unfoldable pub run : List Call → Journal → Journal
  run [] j = j
  run (call ∷ calls) j = run calls (step call j)

  writer_step-IsBounded :
      (persisted : Bool) (j : Journal) → IsBounded j → IsBounded (writer_step settings persisted j)
  unfolding writer_step
  writer_step-IsBounded persisted j i =
      let taken : IsBounded (record j { write_queue = drop 1 j.write_queue }) = record {
        memory = i.memory;
        safe = i.safe;
        queue = omega (arith, length-drop 1 j.write_queue, i.queue);
        connections = i.connections;
        generation = i.generation;
      } in
      if-IsBounded persisted _ _ taken (mark_write_failure-IsBounded _ taken)

  tables-IsBounded :
      (j : Journal) (cs : List (String × Connection))
      → IsBounded j
      → length cs ≤ max_connections
      → IsBounded (record j { connections = cs })
  tables-IsBounded j cs i h = record {
    memory = i.memory;
    safe = i.safe;
    queue = i.queue;
    connections = h;
    generation = i.generation;
  }

  mark_send-IsBounded :
      (now : Option ℕ) (id : Option String) (j : Journal)
      → IsBounded j
      → IsBounded (mark_send now id j)
  unfolding mark_send
  mark_send-IsBounded none id j i = i
  mark_send-IsBounded (some now) none j i = record {
    memory = i.memory;
    safe = i.safe;
    queue = i.queue;
    connections = i.connections;
    generation = i.generation;
  }
  mark_send-IsBounded (some now) (some id) j i =
      tables-IsBounded j _ i (length-with_send now id j.connections i.connections)

  mark_receive-IsBounded :
      (now : Option ℕ) (id : Option String) (j : Journal)
      → IsBounded j
      → IsBounded (mark_receive now id j)
  unfolding mark_receive
  mark_receive-IsBounded none id j i = i
  mark_receive-IsBounded (some now) none j i = record {
    memory = i.memory;
    safe = i.safe;
    queue = i.queue;
    connections = i.connections;
    generation = i.generation;
  }
  mark_receive-IsBounded (some now) (some id) j i =
      tables-IsBounded j _ i (length-with_receive now id j.connections i.connections)

  host_open-IsBounded :
      (first second : Env) (now : Option ℕ) (attempt generation : Value) (j : Journal)
      → IsBounded j
      → IsBounded (host_open settings first second now attempt generation j)
  unfolding host_open
  host_open-IsBounded first second now attempt generation j i =
      record_event-IsBounded second _ _ _ (
        record_event-IsBounded first _ _ _ (record {
          memory = i.memory;
          safe = i.safe;
          queue = i.queue;
          connections = i.connections;
          generation = clamped_generation-IsWithin generation;
        }))

  host_closed-IsBounded : (j : Journal) → IsBounded j → IsBounded (host_closed settings j)
  unfolding host_closed
  host_closed-IsBounded j i = record {
    memory = i.memory;
    safe = i.safe;
    queue = i.queue;
    connections = i.connections;
    generation = i.generation;
  }

  close-IsBounded : (j : Journal) → IsBounded j → IsBounded (close settings j)
  unfolding close
  close-IsBounded j i = record {
    memory = i.memory;
    safe = i.safe;
    queue = i.queue;
    connections = i.connections;
    generation = i.generation;
  }

  step-IsBounded : (call : Call) (j : Journal) → IsBounded j → IsBounded (step call j)
  unfolding step connection_attempt connection_open connection_disconnect host_disconnect outcome_of
      reconnect_attempt reconnect_backoff reconnect_result track_connection
  step-IsBounded (attempts env id attempt) j i = record_event-IsBounded env _ _ j i
  step-IsBounded (opens env now id attempt generation) j i =
      record_event-IsBounded env _ _ _
        (tables-IsBounded j _ i (length-track_at now id j.connections i.connections))
  step-IsBounded (disconnects env r id reason category attempt code) j i =
      record_event-IsBounded env _ _ _ (
        tables-IsBounded j _ i
          (omega (arith, length-pop_connection id j.connections, i.connections)))
  step-IsBounded (sends now id) j i = mark_send-IsBounded now id j i
  step-IsBounded (receives now id) j i = mark_receive-IsBounded now id j i
  step-IsBounded (host_opens first second now attempt generation) j i =
      host_open-IsBounded first second now attempt generation j i
  step-IsBounded (host_disconnects env r attempt reason category code) j i =
      host_closed-IsBounded _ (record_event-IsBounded env _ _ j i)
  step-IsBounded (handshakes env id outcome reason category) j i =
      record_event-IsBounded env _ _ j i
  step-IsBounded (admissions env id outcome reason category) j i =
      record_event-IsBounded env _ _ j i
  step-IsBounded (reconnects env attempt number) j i = record_event-IsBounded env _ _ j i
  step-IsBounded (backs_off env attempt ms) j i = record_event-IsBounded env _ _ j i
  step-IsBounded (reconnected env attempt outcome reason category) j i =
      record_event-IsBounded env _ _ j i
  step-IsBounded (writer_takes persisted) j i = writer_step-IsBounded persisted j i
  step-IsBounded closes j i = close-IsBounded j i

  empty-IsBounded : (ready : Bool) → IsBounded (empty_journal settings ready)
  empty-IsBounded ready = record {
    memory = omega arith;
    safe = tt;
    queue = omega arith;
    connections = omega arith;
    generation = tt;
  }

  keep_line-IsBounded :
      (r : Result TypeError (Option Entry)) (rest : Journal → Journal) (j : Journal)
      → ((e : Entry) → r ≡ ok (some e) → IsSafe settings.calendar e)
      → IsBounded j
      → ((k : Journal) → IsBounded k → IsBounded (rest k))
      → IsBounded (keep_line settings r rest j)
  unfolding keep_line
  keep_line-IsBounded (err x) rest j s i next = i
  keep_line-IsBounded (ok none) rest j s i next = next j i
  keep_line-IsBounded (ok (some e)) rest j s i next = next _ (record {
    memory = length-onto_deque settings.memory_limit j.events e;
    safe =
        All-onto_deque (IsSafe settings.calendar) settings.memory_limit j.events e i.safe
          (s e refl);
    queue = i.queue;
    connections = i.connections;
    generation = i.generation;
  })

  load_persisted-IsBounded :
      (lines : List (Option Mapping)) (j : Journal)
      → IsBounded j
      → IsBounded (load_persisted settings lines j)
  unfolding load_persisted
  load_persisted-IsBounded [] j i = i
  load_persisted-IsBounded (none ∷ lines) j i = load_persisted-IsBounded lines j i
  load_persisted-IsBounded (some value ∷ lines) j i =
      keep_line-IsBounded _ _ j (sanitize_connection_event-IsSafe settings.calendar value) i
        (load_persisted-IsBounded lines)

  new_journal-IsBounded :
      (ready : Bool) (lines : List (Option Mapping)) → IsBounded (new_journal settings ready lines)
  unfolding new_journal
  new_journal-IsBounded true lines =
      load_persisted-IsBounded lines (empty_journal settings true) (empty-IsBounded true)
  new_journal-IsBounded false lines = empty-IsBounded false

  run-IsBounded : (calls : List Call) (j : Journal) → IsBounded j → IsBounded (run calls j)
  unfolding run
  run-IsBounded [] j i = i
  run-IsBounded (call ∷ calls) j i = run-IsBounded calls (step call j) (step-IsBounded call j i)

  -- From a journal that was made and loaded from whatever lines there were on disk, whatever calls are made,
  -- and whatever the clocks, the thread and the disk do in them, the journal holds at most `memory_limit`
  -- events, all safe, at most `writer_queue_limit` lines that wait for the disk, at most 64 connections, and
  -- no generation above the greatest.
  pub run-new_journal-IsBounded :
      (ready : Bool) (lines : List (Option Mapping)) (calls : List Call)
      → IsBounded (run calls (new_journal settings ready lines))
  run-new_journal-IsBounded ready lines calls =
      run-IsBounded calls (new_journal settings ready lines) (new_journal-IsBounded ready lines)
