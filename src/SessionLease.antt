-- ===== src/SessionLease.antt =====
-- src/mercury_relay_plugin/session_lease.py: one inner controller that outlives its transports.
-- The ring of retained frames, the one current attachment, and the ledger of submissions. A JSON
-- text is decoded and printed by the library that `Json` stands for. An attachment is known by its
-- number, and those that were detached stay in `gone`, as they may still drain what they hold.
pub mod Ring
pub mod History
pub mod Pending
pub mod Submissions
pub mod Stream
pub mod Manager
mod Tests
use mercury_relay_plugin.Prelude.{
  ℕ, zero, suc, ◌+◌, ◌-◌, Bool, true, false, not, ◌&&◌, ◌||◌, Result, ok, err, Option, none, some,
  List, [], ◌∷◌, ◌++◌, map, Bytes, bytes_eq, length, ltb, leb, ◌==◌, if◌then◌else◌,
}
use mercury_relay_plugin.VirtualWs
use mercury_relay_plugin.VirtualWs.{VirtualWs, Reply, returns, raises, waits}

pub record LeaseLimits : Type 0 where
  pub max_events : ℕ
  pub max_event_bytes : ℕ
  pub max_event_age_seconds : ℕ
  pub max_tracked_submissions : ℕ

pub record RetainedEvent : Type 0 where
  pub lease_seq : ℕ
  pub text : Bytes
  pub size : ℕ
  pub stored_at : ℕ

pub data DetachReason : Type 0 where
  lease_released attachment_replaced attachment_backpressure : DetachReason
  detached_by : Bytes → DetachReason

pub record LeaseAttachment : Type 0 where
  pub number : ℕ
  pub replay : List RetainedEvent
  pub replay_gap : Bool
  pub preamble : Option Bytes
  pub recovery : Bool
  pub replay_complete : Option Bytes
  pub live : List Bytes
  pub live_bytes : ℕ
  pub detached : Bool
  pub detach_reason : Option DetachReason

-- A decoded JSON value, as far as the lease tells values apart.
pub data Value : Type 0 where
  null : Value
  string : Bytes → Value
  other : Bytes → Value

pub data Outcome : Type 0 where
  result : Value → Outcome
  failure : Value → Outcome

pub record SubmissionRecord : Type 0 where
  pub request_id : Value
  pub outcome : Option Outcome
  pub waiters : List (Value × ℕ)

pub record SessionLease : Type 0 where
  pub limits : LeaseLimits
  pub websocket : VirtualWs
  pub ring : List RetainedEvent
  pub ring_bytes : ℕ
  pub last_seq : ℕ
  pub trimmed_through : ℕ
  pub attachment : Option LeaseAttachment
  pub gone : List LeaseAttachment
  pub made : ℕ
  pub submissions : List (Bytes × SubmissionRecord)
  pub recovery_enabled : Bool
  pub released : Bool

-- The fields of a decoded object that the lease reads; `submission_id` is that of the `params`.
pub record Message : Type 0 where
  pub method : Option Value
  pub id : Option Value
  pub result_field : Option Value
  pub error_field : Option Value
  pub submission_id : Option Value

pub data Decoded : Type 0 where
  malformed not_a_mapping : Decoded
  mapping : Message → Decoded

-- Code outside the repository: JSON, `==` on JSON values, and the validator of the websocket.
pub record Json : Type 0 where
  pub loads_strict : Bytes → Decoded
  pub same_value : Value → Value → Bool
  pub frame_text : RetainedEvent → Bool → Bytes
  pub attached_text : ℕ → Bool → Option ℕ → ℕ → Bool → Bool → Bytes
  pub replay_complete_text : ℕ → Bytes
  pub response_text : Value → Outcome → Bytes
  pub validator : Option (Bytes → Option Bytes)

pub data Error : Type 0 where
  lease_is_released invalid_cursor cursor_ahead already_attached : Error
  attachment_detached invalid_submission_id submission_tracking_exhausted : Error
  websocket_error : VirtualWs.Error → Error

-- `_mark_detached`
unfoldable pub drops_queues : DetachReason → Bool
drops_queues lease_released = true
drops_queues attachment_replaced = true
drops_queues attachment_backpressure = false
drops_queues (detached_by reason) = false

unfoldable pub clear_queues : LeaseAttachment → LeaseAttachment
clear_queues a = record a {
  preamble = none;
  replay_complete = none;
  replay = [];
  live = [];
  live_bytes = 0;
}

unfoldable pub mark_detached : LeaseAttachment → DetachReason → LeaseAttachment
unfolding drops_queues clear_queues
mark_detached a reason =
    let b = if drops_queues reason then clear_queues a else a in
    if b.detached then b else record b { detached = true; detach_reason = some reason }

unfoldable pub mark_gone : List LeaseAttachment → ℕ → DetachReason → List LeaseAttachment
unfolding mark_detached
mark_gone [] number reason = []
mark_gone (a ∷ rest) number reason =
    (if a.number == number then mark_detached a reason else a) ∷ mark_gone rest number reason

unfoldable pub is_current : SessionLease → ℕ → Bool
is_current s number = elim s.attachment [ none ↦ false | some a ↦ a.number == number ]

-- `SessionLease.detach`: the current attachment leaves the lease, an older one is only marked.
unfoldable pub detach : SessionLease → ℕ → DetachReason → SessionLease
unfolding mark_detached mark_gone is_current
detach s number reason = elim s.attachment [
  | none ↦ record s { gone = mark_gone s.gone number reason }
  | some a ↦
      if a.number == number
      then record s { attachment = none; gone = mark_detached a reason ∷ s.gone }
      else record s { gone = mark_gone s.gone number reason }
]

-- `_deliver` to the current attachment
unfoldable pub deliver : SessionLease → LeaseAttachment → Bytes → SessionLease
unfolding detach
deliver s a text =
    if leb s.limits.max_events (length a.live)
      || ltb s.limits.max_event_bytes (a.live_bytes + length text)
    then detach s a.number attachment_backpressure
    else record s {
      attachment =
          some (record a { live = a.live ++ text ∷ []; live_bytes = a.live_bytes + length text });
    }

-- `_deliver_local`
unfoldable pub deliver_local : SessionLease → ℕ → Bytes → SessionLease
unfolding deliver
deliver_local s number text = elim s.attachment [
  | none ↦ s
  | some a ↦ if s.released || not (a.number == number) || a.detached then s else deliver s a text
]

pub record Trimmed : Type 0 where
  pub kept : List RetainedEvent
  pub kept_bytes : ℕ
  pub through : ℕ
  pub overflow : Bool

-- `_trim`
unfoldable pub trim_loop : LeaseLimits → ℕ → List RetainedEvent → ℕ → ℕ → Bool → Trimmed
trim_loop limits now [] bytes through overflow = record {
  kept = [];
  kept_bytes = bytes;
  through = through;
  overflow = overflow;
}
trim_loop limits now (e ∷ es) bytes through overflow =
    let rest = trim_loop limits now es (bytes - e.size) e.lease_seq (
      overflow
      || ltb limits.max_events (length es + 1)
      || ltb limits.max_event_bytes (bytes - e.size + e.size)) in
    if ltb limits.max_events (length (e ∷ es))
      || ltb limits.max_event_bytes bytes
      || ltb limits.max_event_age_seconds (now - e.stored_at)
    then rest
    else record { kept = e ∷ es; kept_bytes = bytes; through = through; overflow = overflow }

unfoldable pub trim : SessionLease → ℕ → Bool × SessionLease
unfolding trim_loop
trim s now =
    let t = trim_loop s.limits now s.ring s.ring_bytes s.trimmed_through false in
    (t.overflow, record s { ring = t.kept; ring_bytes = t.kept_bytes; trimmed_through = t.through })

-- `next_text` of an attachment, up to the point where it would wait for `_wakeup`.
pub data Next : Type 0 where
  frame : Bytes → Next
  fails : DetachReason → Next
  sleeps : Next

unfoldable pub next_text : Json → Bool → LeaseAttachment → Next × LeaseAttachment
next_text json released a = if released then (fails lease_released, a) else elim a.preamble [
  | some text ↦ (frame text, record a { preamble = none })
  | none ↦ elim a.replay [
    | e ∷ rest ↦
        (frame (if a.recovery then json.frame_text e true else e.text), record a { replay = rest })
    | [] ↦ elim a.replay_complete [
      | some text ↦ (frame text, record a { replay_complete = none })
      | none ↦ elim a.live [
        | text ∷ rest ↦
            (frame text, record a { live = rest; live_bytes = a.live_bytes - length text })
        | [] ↦ elim a.detach_reason [
          | some reason ↦ if a.detached then (fails reason, a) else (sleeps, a)
          | none ↦ (sleeps, a)
        ]
      ]
    ]
  ]
]

abbrev pub max_cursor : ℕ
max_cursor = 9_223_372_036_854_775_807

-- `[event for event in self._ring if event.lease_seq > cursor]`
unfoldable pub events_after : ℕ → List RetainedEvent → List RetainedEvent
events_after cursor [] = []
events_after cursor (e ∷ es) =
    let rest = events_after cursor es in if ltb cursor e.lease_seq then e ∷ rest else rest

unfoldable pub first_seq : List RetainedEvent → Option ℕ
first_seq [] = none
first_seq (e ∷ es) = some e.lease_seq

unfoldable pub is_attached : SessionLease → Bool
is_attached s = elim s.attachment [ none ↦ false | some a ↦ true ]

-- `attachment_replaced` for the current attachment, if there is one
unfoldable pub replace_attached : SessionLease → List LeaseAttachment
unfolding mark_detached
replace_attached s = elim s.attachment [
  | none ↦ s.gone
  | some a ↦ mark_detached a attachment_replaced ∷ s.gone
]

unfoldable pub new_attachment : Json → SessionLease → ℕ → Bool → Bool → LeaseAttachment
unfolding events_after first_seq
new_attachment json s cursor recovery recovery_reset =
    let replay = events_after cursor s.ring in
    let gap = ltb cursor s.trimmed_through in
    record {
      number = s.made;
      replay = replay;
      replay_gap = gap;
      preamble =
          some
            (json.attached_text s.last_seq gap (first_seq replay) cursor recovery recovery_reset);
      recovery = recovery;
      replay_complete = if recovery then some (json.replay_complete_text s.last_seq) else none;
      live = [];
      live_bytes = 0;
      detached = false;
      detach_reason = none;
    }

unfoldable pub publish : SessionLease → LeaseAttachment → SessionLease
unfolding replace_attached
publish s a = record s {
  attachment = some a;
  gone = replace_attached s;
  made = suc s.made;
  recovery_enabled = s.recovery_enabled || a.recovery;
}

-- `attach`, at a moment `now` of the clock
unfoldable pub attach :
    Json → SessionLease → ℕ → ℕ → Bool → Bool → Bool → Result Error LeaseAttachment × SessionLease
attach json s now cursor recovery recovery_reset replaces =
    if s.released
    then (err lease_is_released, s)
    else if ltb max_cursor cursor
    then (err invalid_cursor, s)
    else if ltb s.last_seq cursor
    then (err cursor_ahead, s)
    else if is_attached s && not (recovery && replaces)
    then (err already_attached, s)
    else let t = (trim s now).1 in
      let a = new_attachment json t cursor recovery recovery_reset in (ok a, publish t a)

-- The ledger: `_record_outcome` and `_deliver_outcome`.
unfoldable pub deliver_waiters : Json → SessionLease → Outcome → List (Value × ℕ) → SessionLease
unfolding deliver_local
deliver_waiters json s outcome [] = s
deliver_waiters json s outcome ((id, number) ∷ rest) =
    deliver_waiters json (deliver_local s number (json.response_text id outcome)) outcome rest

unfoldable pub awaits : Json → SubmissionRecord → Value → Bool
awaits json r id = elim r.outcome [ none ↦ json.same_value r.request_id id | some o ↦ false ]

-- The ledger with the first record that awaits `id` settled, and the waiters of that record.
unfoldable pub settle :
    Json
    → List (Bytes × SubmissionRecord)
    → Value
    → Outcome
    → List (Bytes × SubmissionRecord) × List (Value × ℕ)
unfolding awaits
settle json [] id outcome = ([], [])
settle json ((key, r) ∷ rest) id outcome =
    let later = settle json rest id outcome in
    if awaits json r id
    then ((key, record r { outcome = some outcome; waiters = [] }) ∷ rest, r.waiters)
    else ((key, r) ∷ later.0, later.1)

-- `result` before `error`, and nothing for a reply that has neither.
unfoldable pub reply_outcome : Message → Option Outcome
reply_outcome m = elim m.result_field [
  | some v ↦ some (result v)
  | none ↦ elim m.error_field [ some v ↦ some (failure v) | none ↦ none ]
]

abbrev pub with_id : Value → Option Outcome → Option (Value × Outcome)
with_id id none = none
with_id id (some outcome) = some (id, outcome)

-- The id and the outcome of a frame that is a reply with one.
unfoldable pub reply_of : Decoded → Option (Value × Outcome)
unfolding reply_outcome
reply_of malformed = none
reply_of not_a_mapping = none
reply_of (mapping m) = elim m.method [
  | some v ↦ none
  | none ↦ elim m.id [
    | none ↦ none
    | some null ↦ none
    | some (string b) ↦ with_id (string b) (reply_outcome m)
    | some (other b) ↦ with_id (other b) (reply_outcome m)
  ]
]

unfoldable pub record_outcome : Json → SessionLease → Bytes → SessionLease
unfolding reply_of settle deliver_waiters
record_outcome json s text = elim (reply_of (json.loads_strict text)) [
  | none ↦ s
  | some (id, outcome) ↦
      let settled = settle json s.submissions id outcome in
      deliver_waiters json (record s { submissions = settled.0 }) outcome settled.1
]

-- `self._ring.append`
unfoldable pub append_event : SessionLease → ℕ → Bytes → SessionLease
append_event s now text = record s {
  ring =
      s.ring
      ++ record { lease_seq = s.last_seq; text = text; size = length text; stored_at = now } ∷ [];
  ring_bytes = s.ring_bytes + length text;
}

-- The frame that the current attachment gets for the newest event.
unfoldable pub live_text : Json → SessionLease → LeaseAttachment → ℕ → Bytes → Bytes
live_text json s a now text =
    if a.recovery
    then json.frame_text
        (record { lease_seq = s.last_seq; text = text; size = length text; stored_at = now }) false
    else text

-- The end of `_retain`; the flag tells that `release("retention_cap")` is scheduled.
unfoldable pub after_trim : Json → Bool → SessionLease → ℕ → Bytes → Bool × SessionLease
after_trim json overflow s now text = elim s.attachment [
  | none ↦ (overflow && not s.recovery_enabled, s)
  | some a ↦ (false, deliver s a (live_text json s a now text))
]

-- `_retain`
unfoldable pub retain : Json → SessionLease → ℕ → Bytes → Bool × SessionLease
retain json s now text =
    let recorded = record_outcome json (record s { last_seq = suc s.last_seq }) text in
    let t = trim (append_event recorded now text) now in after_trim json t.0 t.1 now text

-- `_pump`: the next frame of the controller is retained; none when the controller has none.
unfoldable pub pump : Json → SessionLease → ℕ → Option (Bool × SessionLease)
unfolding retain
pump json s now =
    let (reply, websocket) = VirtualWs.next_text s.websocket in
    elim reply [
      | returns text ↦ some (retain json (record s { websocket = websocket }) now text)
      | raises e ↦ none
      | waits ↦ none
    ]

-- `_parse_submission`
pub data Parsed : Type 0 where
  no_submission invalid_submission : Parsed
  submission : Bytes → Value → Parsed

unfoldable pub prompt_submit : Bytes
prompt_submit =
    b'p' ∷ b'r' ∷ b'o' ∷ b'm' ∷ b'p' ∷ b't' ∷ b'.' ∷ b's' ∷ b'u' ∷ b'b' ∷ b'm' ∷ b'i' ∷ b't' ∷ []

abbrev pub id_or_null : Option Value → Value
id_or_null none = null
id_or_null (some v) = v

unfoldable pub is_prompt_submit : Option Value → Bool
unfolding prompt_submit
is_prompt_submit none = false
is_prompt_submit (some null) = false
is_prompt_submit (some (string b)) = bytes_eq b prompt_submit
is_prompt_submit (some (other b)) = false

-- A submission identifier is compared by its characters, one for each code of the list.
unfoldable pub parse_id : Value → Value → Parsed
parse_id null id = invalid_submission
parse_id (other b) id = invalid_submission
parse_id (string b) id =
    if leb 1 (length b) && leb (length b) 128 then submission b id else invalid_submission

unfoldable pub parse_submission : Decoded → Parsed
unfolding is_prompt_submit parse_id
parse_submission malformed = no_submission
parse_submission not_a_mapping = no_submission
parse_submission (mapping m) =
    if not (is_prompt_submit m.method)
    then no_submission
    else elim m.submission_id [ none ↦ no_submission | some v ↦ parse_id v (id_or_null m.id) ]

unfoldable pub lookup : Bytes → List (Bytes × SubmissionRecord) → Option SubmissionRecord
lookup key [] = none
lookup key ((k, r) ∷ rest) = let later = lookup key rest in if bytes_eq k key then some r else later

unfoldable pub set_record :
    Bytes → SubmissionRecord → List (Bytes × SubmissionRecord) → List (Bytes × SubmissionRecord)
set_record key r [] = []
set_record key r ((k, old) ∷ rest) =
    let later = set_record key r rest in if bytes_eq k key then (k, r) ∷ rest else (k, old) ∷ later

-- `self._submissions.pop`
unfoldable pub remove_record :
    Bytes → List (Bytes × SubmissionRecord) → List (Bytes × SubmissionRecord)
remove_record key [] = []
remove_record key ((k, r) ∷ rest) =
    let later = remove_record key rest in if bytes_eq k key then rest else (k, r) ∷ later

abbrev pub is_settled : SubmissionRecord → Bool
is_settled r = elim r.outcome [ none ↦ false | some o ↦ true ]

-- The oldest settled record is evicted; none when every record is in flight.
unfoldable pub evict : List (Bytes × SubmissionRecord) → Option (List (Bytes × SubmissionRecord))
evict [] = none
evict ((k, r) ∷ rest) =
    let later = evict rest in
    if is_settled r
    then some rest
    else elim later [ none ↦ none | some kept ↦ some ((k, r) ∷ kept) ]

unfoldable pub make_room :
    LeaseLimits → List (Bytes × SubmissionRecord) → Option (List (Bytes × SubmissionRecord))
unfolding evict
make_room limits ledger =
    if leb limits.max_tracked_submissions (length ledger) then evict ledger else some ledger

-- A `VirtualWebSocketError` takes the new record back; the validator's rejection is none.
unfoldable pub is_websocket_error : VirtualWs.Error → Bool
is_websocket_error VirtualWs.rejected_by_validator = false
is_websocket_error e = true

unfoldable pub feed_new :
    Json → SessionLease → Bytes → Bytes → Result Error (Unit {0}) × SessionLease
feed_new json s key text =
    let (reply, websocket) = VirtualWs.feed_text json.validator s.websocket text in
    elim reply [
      | returns done ↦ (ok tt, record s { websocket = websocket })
      | waits ↦ (ok tt, record s { websocket = websocket })
      | raises e ↦ (
        err (websocket_error e),
        record s {
          websocket = websocket;
          submissions =
              if is_websocket_error e then remove_record key s.submissions else s.submissions;
        },
      )
    ]

unfoldable pub feed_plain : Json → SessionLease → Bytes → Result Error (Unit {0}) × SessionLease
feed_plain json s text =
    let (reply, websocket) = VirtualWs.feed_text json.validator s.websocket text in
    elim reply [
      | returns done ↦ (ok tt, record s { websocket = websocket })
      | waits ↦ (ok tt, record s { websocket = websocket })
      | raises e ↦ (err (websocket_error e), record s { websocket = websocket })
    ]

unfoldable pub is_waiting : Json → Value → ℕ → List (Value × ℕ) → Bool
is_waiting json id number [] = false
is_waiting json id number ((v, n) ∷ rest) =
    (json.same_value v id && n == number) || is_waiting json id number rest

-- `submit_text` for a submission that is on record.
unfoldable pub submit_again :
    Json → SessionLease → ℕ → Bytes → Value → SubmissionRecord → SessionLease
submit_again json s number key id r = elim r.outcome [
  | some outcome ↦ deliver_local s number (json.response_text id outcome)
  | none ↦
      if ltb (length r.waiters) 8 && not (is_waiting json id number r.waiters)
      then record s {
        submissions =
            set_record key (record r { waiters = r.waiters ++ (id, number) ∷ [] }) s.submissions;
      }
      else s
]

unfoldable pub submit_new :
    Json → SessionLease → Bytes → Value → Bytes → Result Error (Unit {0}) × SessionLease
submit_new json s key id text = elim (make_room s.limits s.submissions) [
  | none ↦ (err submission_tracking_exhausted, s)
  | some ledger ↦
      feed_new json
        (record s {
          submissions =
              ledger ++ (key, record { request_id = id; outcome = none; waiters = [] }) ∷ [];
        })
        key text
]

unfoldable pub submit_parsed :
    Json → SessionLease → ℕ → Parsed → Bytes → Result Error (Unit {0}) × SessionLease
submit_parsed json s number no_submission text = feed_plain json s text
submit_parsed json s number invalid_submission text = (err invalid_submission_id, s)
submit_parsed json s number (submission key id) text = elim (lookup key s.submissions) [
  | some r ↦ (ok tt, submit_again json s number key id r)
  | none ↦ submit_new json s key id text
]

-- `submit_text`, for a request that no local dispatcher takes.
unfoldable pub submit_text :
    Json → SessionLease → ℕ → Bytes → Result Error (Unit {0}) × SessionLease
submit_text json s number text =
    if s.released
    then (err lease_is_released, s)
    else if not (is_current s number)
    then (err attachment_detached, s)
    else submit_parsed json s number (parse_submission (json.loads_strict text)) text
