-- ===== src/SessionLease/Submissions.antt =====
-- The ledger of submissions in session_lease.py.
use mercury_relay_plugin.Prelude.{
  ℕ, ◌≡◌, refl, sym, subst, inl, inr, Bool-cases, none, some, Option-cases, List, [], ◌∷◌, ◌++◌,
  arith, Bytes, bytes_eq, Result, ok, false,
}
use mercury_relay_plugin.SessionLease.{
  Json, SessionLease, LeaseAttachment, Value, SubmissionRecord, submission, DetachReason,
  attachment_backpressure, deliver, deliver_local, detach, lookup, set_record, feed_new, make_room,
  feed_plain, Parsed, no_submission, invalid_submission, Error, submit_again, submit_new,
  submit_parsed, submit_text, parse_submission,
}
use mercury_relay_plugin.SessionLease.Pending.{
  IsPending, append-IsPending, set_record-IsPending, remove_record-IsPending, not_on_record,
  make_room-IsPending, lookup-appended, make_room-free,
}

-- The identifier is on record.
pub record IsTracked (key : Bytes) (ledger : List (Bytes × SubmissionRecord)) : Type 0 where
  pub entry : SubmissionRecord
  pub found : lookup key ledger ≡ some entry

lookup-set_record :
    (key : Bytes) (r : SubmissionRecord) (ledger : List (Bytes × SubmissionRecord))
    → IsTracked key ledger
    → IsTracked key (set_record key r ledger)
unfolding lookup set_record
lookup-set_record key r [] t = ground (arith, t.found)
lookup-set_record key r ((k, old) ∷ ledger) t = elim (Bool-cases (bytes_eq k key)) [
  | inl same ↦ record { entry = r; found = ground (arith, same) }
  | inr other ↦
      let later =
        lookup-set_record key r ledger
          (record { entry = t.entry; found = ground (arith, other, t.found) }) in
      record { entry = later.entry; found = ground (arith, other, later.found) }
]

-- Neither the ledger nor the controller's websocket changes.
record Untouched (s t : SessionLease) : Type 0 where
  ledger : t.submissions ≡ s.submissions
  socket : t.websocket ≡ s.websocket

detach-Untouched : (s : SessionLease) (n : ℕ) (r : DetachReason) → Untouched s (detach s n r)
unfolding detach
detach-Untouched s n r = elim (Option-cases s.attachment) [
  | inl e ↦ ground arith
  | inr (a, e) ↦ ground arith
]

deliver-Untouched :
    (s : SessionLease) (a : LeaseAttachment) (text : Bytes) → Untouched s (deliver s a text)
unfolding deliver
deliver-Untouched s a text = ground (arith, detach-Untouched s a.number attachment_backpressure)

deliver_local-Untouched :
    (s : SessionLease) (n : ℕ) (text : Bytes) → Untouched s (deliver_local s n text)
unfolding deliver_local
deliver_local-Untouched s n text = elim (Option-cases s.attachment) [
  | inl e ↦ ground arith
  | inr (a, e) ↦ ground (arith, deliver-Untouched s a text)
]

submit_again-IsTracked :
    (json : Json) (s : SessionLease) (n : ℕ) (key : Bytes) (id : Value) (r : SubmissionRecord)
    → IsTracked key s.submissions
    → ((submit_again json s n key id r).websocket ≡ s.websocket)
      × IsTracked key (submit_again json s n key id r).submissions
unfolding submit_again
submit_again-IsTracked json s n key id r t = elim (Option-cases r.outcome) [
  | inl e ↦ ground (
    arith,
    lookup-set_record key (record r { waiters = r.waiters ++ (id, n) ∷ [] }) s.submissions t,
  )
  | inr (o, e) ↦ ground (arith, deliver_local-Untouched s n (json.response_text id o))
]

feed_new-ledger :
    (json : Json) (s t : SessionLease) (key text : Bytes)
    → feed_new json s key text ≡ (ok tt, t)
    → t.submissions ≡ s.submissions
unfolding feed_new
feed_new-ledger json s t key text e = ground arith

submit_text_parts :
    (json : Json) (s t : SessionLease) (n : ℕ) (text : Bytes)
    → submit_text json s n text ≡ (ok tt, t)
    → submit_parsed json s n (parse_submission (json.loads_strict text)) text ≡ (ok tt, t)
unfolding submit_text
submit_text_parts json s t n text e = ground arith

tracked_again :
    (json : Json) (s : SessionLease) (n : ℕ) (text key : Bytes) (id : Value)
    → parse_submission (json.loads_strict text) ≡ submission key id
    → IsTracked key s.submissions
    → (submit_text json s n text).1.websocket ≡ s.websocket
unfolding submit_text submit_parsed
tracked_again json s n text key id parsed t =
    ground (arith, submit_again-IsTracked json s n key id t.entry t, t.found)

feed_new-IsPending :
    (json : Json) (key other : Bytes) (s : SessionLease) (text : Bytes)
    → bytes_eq other key ≡ false
    → IsPending key s.submissions
    → IsPending key (feed_new json s other text).1.submissions
unfolding feed_new
feed_new-IsPending json key other s text differs p =
    ground (arith, p, remove_record-IsPending key other s.submissions differs p)

submit_new-IsPending :
    (json : Json) (key other : Bytes) (s : SessionLease) (id : Value) (text : Bytes)
    → bytes_eq other key ≡ false
    → IsPending key s.submissions
    → IsPending key (submit_new json s other id text).1.submissions
unfolding submit_new
submit_new-IsPending json key other s id text differs p =
    elim (Option-cases (make_room s.limits s.submissions)) [
      | inl full ↦ ground (arith, full, p)
      | inr (ledger, room) ↦
          let filled = record s {
            submissions =
                ledger ++ (other, record { request_id = id; outcome = none; waiters = [] }) ∷ [];
          } in
          let is : feed_new json filled other text ≡ submit_new json s other id text =
            ground (arith, room) in
          subst (λ r. IsPending key r.1.submissions) is
            (feed_new-IsPending json key other filled text differs (
              append-IsPending key ledger _
                (make_room-IsPending key s.limits s.submissions ledger room p)))
    ]

submit_again-IsPending :
    (json : Json) (key other : Bytes) (s : SessionLease) (n : ℕ) (id : Value) (r : SubmissionRecord)
    → IsPending key s.submissions
    → IsPending key (submit_again json s n other id r).submissions
unfolding submit_again
submit_again-IsPending json key other s n id r p = elim (Option-cases r.outcome) [
  | inl e ↦ ground (
    arith,
    e,
    p,
    set_record-IsPending key other (record r { waiters = r.waiters ++ (id, n) ∷ [] }) s.submissions
        e p,
  )
  | inr (o, e) ↦
      rw e (
        subst (IsPending key) (sym (deliver_local-Untouched s n (json.response_text id o)).ledger)
          p)
]

feed_plain-ledger :
    (json : Json) (s : SessionLease) (text : Bytes)
    → (feed_plain json s text).1.submissions ≡ s.submissions
unfolding feed_plain
feed_plain-ledger json s text = ground arith

submit_parsed-IsPending :
    (json : Json) (key : Bytes) (s : SessionLease) (n : ℕ) (parsed : Parsed) (text : Bytes)
    → IsPending key s.submissions
    → IsPending key (submit_parsed json s n parsed text).1.submissions
unfolding submit_parsed
submit_parsed-IsPending json key s n no_submission text p =
    subst (IsPending key) (sym (feed_plain-ledger json s text)) p
submit_parsed-IsPending json key s n invalid_submission text p = p
submit_parsed-IsPending json key s n (submission other id) text p =
    elim (Option-cases (lookup other s.submissions)) [
      | inl free ↦
          let is : submit_new json s other id text
              ≡ submit_parsed json s n (submission other id) text =
            ground (arith, free) in
          subst (λ r. IsPending key r.1.submissions) is
            (submit_new-IsPending json key other s id text
              (not_on_record key other s.submissions free p) p)
      | inr (r, old) ↦
          let is : ◌≡◌ {A = Result Error (Unit {0}) × SessionLease}
              (ok tt, submit_again json s n other id r)
              (submit_parsed json s n (submission other id) text) =
            ground (arith, old) in
          subst (λ r. IsPending key r.1.submissions) is
            (submit_again-IsPending json key other s n id r p)
    ]

submit_text-IsPending :
    (json : Json) (key : Bytes) (s : SessionLease) (n : ℕ) (text : Bytes)
    → IsPending key s.submissions
    → IsPending key (submit_text json s n text).1.submissions
unfolding submit_text
submit_text-IsPending json key s n text p = ground (
  arith,
  p,
  submit_parsed-IsPending json key s n (parse_submission (json.loads_strict text)) text p,
)

-- The lease after frames that attachments send one after the other.
unfoldable pub submit_all : Json → SessionLease → List (ℕ × Bytes) → SessionLease
submit_all json s [] = s
submit_all json s ((n, text) ∷ rest) = submit_all json (submit_text json s n text).1 rest

submit_all-IsPending :
    (json : Json) (key : Bytes) (s : SessionLease) (frames : List (ℕ × Bytes))
    → IsPending key s.submissions
    → IsPending key (submit_all json s frames).submissions
unfolding submit_all
submit_all-IsPending json key s [] p = p
submit_all-IsPending json key s ((n, text) ∷ rest) p =
    submit_all-IsPending json key (submit_text json s n text).1 rest
      (submit_text-IsPending json key s n text p)

submit_new-accepted :
    (json : Json) (s t : SessionLease) (key : Bytes) (id : Value) (text : Bytes)
    → lookup key s.submissions ≡ none
    → submit_new json s key id text ≡ (ok tt, t)
    → IsPending key t.submissions
unfolding submit_new
submit_new-accepted json s t key id text free e =
    elim (Option-cases (make_room s.limits s.submissions)) [
      | inl full ↦ absurd (ground (arith, e, full))
      | inr (ledger, room) ↦
          let r : SubmissionRecord = record { request_id = id; outcome = none; waiters = [] } in
          let filled = record s { submissions = ledger ++ (key, r) ∷ [] } in
          let fed = feed_new-ledger json filled t key text (ground (arith, e, room)) in
          subst (IsPending key) (sym fed) (
            lookup-appended key r ledger refl
              (make_room-free key s.limits s.submissions ledger room free))
    ]

submit_parsed-accepted :
    (json : Json) (s t : SessionLease) (n : ℕ) (key : Bytes) (id : Value) (text : Bytes)
    → lookup key s.submissions ≡ none
    → submit_parsed json s n (submission key id) text ≡ (ok tt, t)
    → IsPending key t.submissions
unfolding submit_parsed
submit_parsed-accepted json s t n key id text free e =
    submit_new-accepted json s t key id text free (ground (arith, e, free))

-- Once a submission that is not on record was accepted, and after any further frames of any attachments
-- that come before the controller's answer, a frame with the same submission identifier leaves the
-- controller's websocket as it is, whichever attachment sends it.
pub submit_text-fed_once :
    (json : Json) (s t : SessionLease) (n m : ℕ) (first second key : Bytes) (id again : Value)
    (between : List (ℕ × Bytes))
    → lookup key s.submissions ≡ none
    → parse_submission (json.loads_strict first) ≡ submission key id
    → submit_text json s n first ≡ (ok tt, t)
    → parse_submission (json.loads_strict second) ≡ submission key again
    → (submit_text json (submit_all json t between) m second).1.websocket
      ≡ (submit_all json t between).websocket
submit_text-fed_once json s t n m first second key id again between free p e q =
    let accepted = submit_parsed-accepted json s t n key id first free (
      subst (λ d. submit_parsed json s n d first ≡ (ok tt, t)) p
        (submit_text_parts json s t n first e)) in
    let waits = submit_all-IsPending json key t between accepted in
    tracked_again json (submit_all json t between) m second key again q
      (record { entry = waits.entry; found = waits.found })
