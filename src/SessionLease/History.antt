-- ===== src/SessionLease/History.antt =====
-- A lease of session_lease.py against the history of every frame that its controller sent.
use mercury_relay_plugin.Prelude.{
  ℕ, suc, ◌≤◌, max, ◌≡◌, refl, sym, ◌∙◌, inl, inr, Bool, false, some, Option-cases, List, [], ◌∷◌,
  ◌++◌, arith, Bytes, length, length-append, length-drop, drop, ltb, ok,
}
use mercury_relay_plugin.SessionLease.{
  Json, SessionLease, LeaseAttachment, Outcome, Value, SubmissionRecord, RetainedEvent, trim,
  retain, after_trim, attach, deliver, deliver_local, deliver_waiters, record_outcome, DetachReason,
  attachment_backpressure, append_event, detach, publish, new_attachment, live_text, settle,
  reply_of,
}
use mercury_relay_plugin.SessionLease.Ring.{
  Window, total_size, trim_loop-TrimHolds, events_after-Window, Window-append, total_size-append,
  drop-snoc,
}

-- The ring is a suffix of the history, its sizes are counted, and it starts after what was trimmed.
pub record Holds (history : List Bytes) (s : SessionLease) : Type 0 where
  pub window : Window s.trimmed_through (drop s.trimmed_through history) s.ring
  pub exact : s.ring_bytes ≡ total_size s.ring
  pub counted : s.last_seq ≡ length history
  pub trimmed : s.trimmed_through ≤ s.last_seq

pub record IsWithin (s : SessionLease) : Type 0 where
  pub events_within : length s.ring ≤ s.limits.max_events
  pub bytes_within : s.ring_bytes ≤ s.limits.max_event_bytes

-- The two states differ at most in what is not the ring.
pub record SameRing (s t : SessionLease) : Type 0 where
  pub limits : t.limits ≡ s.limits
  pub ring : t.ring ≡ s.ring
  pub ring_bytes : t.ring_bytes ≡ s.ring_bytes
  pub last_seq : t.last_seq ≡ s.last_seq
  pub trimmed_through : t.trimmed_through ≡ s.trimmed_through

SameRing-trans : (s t u : SessionLease) → SameRing s t → SameRing t u → SameRing s u
SameRing-trans s t u a b = record {
  limits = b.limits ∙ a.limits;
  ring = b.ring ∙ a.ring;
  ring_bytes = b.ring_bytes ∙ a.ring_bytes;
  last_seq = b.last_seq ∙ a.last_seq;
  trimmed_through = b.trimmed_through ∙ a.trimmed_through;
}

detach-SameRing : (s : SessionLease) (n : ℕ) (r : DetachReason) → SameRing s (detach s n r)
unfolding detach
detach-SameRing s n r = elim (Option-cases s.attachment) [
  | inl e ↦ ground arith
  | inr (a, e) ↦ ground arith
]

deliver-SameRing :
    (s : SessionLease) (a : LeaseAttachment) (text : Bytes) → SameRing s (deliver s a text)
unfolding deliver
deliver-SameRing s a text = ground (arith, detach-SameRing s a.number attachment_backpressure)

deliver_local-SameRing :
    (s : SessionLease) (n : ℕ) (text : Bytes) → SameRing s (deliver_local s n text)
unfolding deliver_local
deliver_local-SameRing s n text = elim (Option-cases s.attachment) [
  | inl e ↦ ground arith
  | inr (a, e) ↦ ground (arith, deliver-SameRing s a text)
]

deliver_waiters-SameRing :
    (json : Json) (s : SessionLease) (o : Outcome) (ws : List (Value × ℕ))
    → SameRing s (deliver_waiters json s o ws)
unfolding deliver_waiters
deliver_waiters-SameRing json s o [] = record {
  limits = refl;
  ring = refl;
  ring_bytes = refl;
  last_seq = refl;
  trimmed_through = refl;
}
deliver_waiters-SameRing json s o ((id, n) ∷ ws) =
    let one = deliver_local s n (json.response_text id o) in
    SameRing-trans s one (deliver_waiters json one o ws)
      (deliver_local-SameRing s n (json.response_text id o))
      (deliver_waiters-SameRing json one o ws)

ledger-SameRing :
    (s : SessionLease) (ledger : List (Bytes × SubmissionRecord))
    → SameRing s (record s { submissions = ledger })
ledger-SameRing s ledger = record {
  limits = refl;
  ring = refl;
  ring_bytes = refl;
  last_seq = refl;
  trimmed_through = refl;
}

record_outcome-SameRing :
    (json : Json) (s : SessionLease) (text : Bytes) → SameRing s (record_outcome json s text)
unfolding record_outcome
record_outcome-SameRing json s text = elim (Option-cases (reply_of (json.loads_strict text))) [
  | inl e ↦ rw (e, record_outcome) (ledger-SameRing s s.submissions)
  | inr ((id, o), e) ↦
      let settled = settle json s.submissions id o in
      let noted = record s { submissions = settled.0 } in
      rw (e, record_outcome)
        (SameRing-trans s noted (deliver_waiters json noted o settled.1)
          (ledger-SameRing s settled.0) (deliver_waiters-SameRing json noted o settled.1))
]

Holds-SameRing :
    (history : List Bytes) (s t : SessionLease) → SameRing s t → Holds history s → Holds history t
Holds-SameRing history s t same h = record {
  window = rw (same.ring, same.trimmed_through) h.window;
  exact = rw (same.ring, same.ring_bytes) h.exact;
  counted = rw same.last_seq h.counted;
  trimmed = rw (same.trimmed_through, same.last_seq) h.trimmed;
}

IsWithin-SameRing : (s t : SessionLease) → SameRing s t → IsWithin s → IsWithin t
IsWithin-SameRing s t same w = record {
  events_within = rw (same.ring, same.limits) w.events_within;
  bytes_within = rw (same.ring_bytes, same.limits) w.bytes_within;
}

trim-Holds :
    (history : List Bytes) (s : SessionLease) (now : ℕ)
    → Holds history s
    → Holds history (trim s now).1 × IsWithin (trim s now).1
unfolding trim
trim-Holds history s now h =
    let t =
      trim_loop-TrimHolds history s.limits now s.ring s.ring_bytes s.trimmed_through false h.window
        h.exact (ground (arith, h.counted, h.trimmed)) in
    (
      record {
        window = t.window;
        exact = t.exact;
        counted = h.counted;
        trimmed = ground (arith, t.reaches, h.counted);
      },
      record { events_within = t.within; bytes_within = t.bytes_within },
    )

append_event-Holds :
    (history : List Bytes) (s r : SessionLease) (now : ℕ) (text : Bytes)
    → Holds history s
    → SameRing (record s { last_seq = suc s.last_seq }) r
    → Holds (history ++ text ∷ []) (append_event r now text)
unfolding append_event
append_event-Holds history s r now text h same =
    let e : RetainedEvent = record {
      lease_seq = suc s.last_seq;
      text = text;
      size = length text;
      stored_at = now;
    } in
    record {
      window =
          rw
            (
              same.trimmed_through,
              same.ring,
              same.last_seq,
              drop-snoc s.trimmed_through history text (ground (arith, h.counted, h.trimmed)),
            )
            (Window-append s.trimmed_through s.last_seq (drop s.trimmed_through history) s.ring e
              h.window (ground (arith, length-drop s.trimmed_through history, h.counted, h.trimmed))
              refl refl);
      exact =
          rw (same.ring, same.ring_bytes, same.last_seq, h.exact)
            (sym (total_size-append s.ring e));
      counted = ground (arith, same.last_seq, h.counted, length-append history (text ∷ []));
      trimmed = ground (arith, same.last_seq, same.trimmed_through, h.trimmed);
    }

after_trim-SameRing :
    (json : Json) (overflow : Bool) (s : SessionLease) (now : ℕ) (text : Bytes)
    → SameRing s (after_trim json overflow s now text).1
unfolding after_trim
after_trim-SameRing json overflow s now text = elim (Option-cases s.attachment) [
  | inl e ↦ ground arith
  | inr (a, e) ↦ ground (arith, deliver-SameRing s a (live_text json s a now text))
]

publish-SameRing : (s : SessionLease) (a : LeaseAttachment) → SameRing s (publish s a)
unfolding publish
publish-SameRing s a = record {
  limits = refl;
  ring = refl;
  ring_bytes = refl;
  last_seq = refl;
  trimmed_through = refl;
}

pub attach_parts :
    (json : Json) (s : SessionLease) (now cursor : ℕ) (recovery recovery_reset replaces : Bool)
    (a : LeaseAttachment) (t : SessionLease)
    → attach json s now cursor recovery recovery_reset replaces ≡ (ok a, t)
    → (cursor ≤ s.last_seq)
      × (a ≡ new_attachment json (trim s now).1 cursor recovery recovery_reset)
      × (t ≡ publish (trim s now).1 a)
unfolding attach
attach_parts json s now cursor recovery recovery_reset replaces a t e = ground arith

-- When a lease that holds the history retains a frame, it holds the history that the frame ends: its
-- ring is the newest frames in order, numbered, with their sizes counted. The ring is within the limits
-- on events and bytes.
pub retain-Holds :
    (json : Json) (history : List Bytes) (s : SessionLease) (now : ℕ) (text : Bytes)
    → Holds history s
    → Holds (history ++ text ∷ []) (retain json s now text).1 × IsWithin (retain json s now text).1
unfolding retain
retain-Holds json history s now text h =
    let counted = record s { last_seq = suc s.last_seq } in
    let recorded = record_outcome json counted text in
    let appended =
      append_event-Holds history s recorded now text h
        (record_outcome-SameRing json counted text) in
    let t = (trim (append_event recorded now text) now).1 in
    let (holds, within) =
      trim-Holds (history ++ text ∷ []) (append_event recorded now text) now appended in
    let done = after_trim-SameRing json (trim (append_event recorded now text) now).0 t now text in
    (Holds-SameRing (history ++ text ∷ []) t _ done holds, IsWithin-SameRing t _ done within)

-- When a lease that holds the history attaches a consumer, its cursor is not past the history, and what
-- it replays is exactly the frames after the cursor, or after what the ring no longer holds, numbered
-- and in order; it has a gap when the second comes later. The lease still holds the history, and the
-- consumer is its attachment.
pub attach-replays :
    (json : Json) (history : List Bytes) (s : SessionLease) (now cursor : ℕ)
    (recovery recovery_reset replaces : Bool) (a : LeaseAttachment) (t : SessionLease)
    → Holds history s
    → attach json s now cursor recovery recovery_reset replaces ≡ (ok a, t)
    → Window (max cursor t.trimmed_through) (drop (max cursor t.trimmed_through) history) a.replay
      × (a.replay_gap ≡ ltb cursor t.trimmed_through)
      × (cursor ≤ length history)
      × Holds history t
      × (t.attachment ≡ some a)
unfolding publish new_attachment
attach-replays json history s now cursor recovery recovery_reset replaces a t h e =
    let (reached, is, after) =
      attach_parts json s now cursor recovery recovery_reset replaces a t e in
    let u = (trim s now).1 in
    let (holds, within) = trim-Holds history s now h in
    rw after (
      rw is (
        events_after-Window history cursor u.trimmed_through u.ring holds.window,
        refl,
        ground (arith, reached, h.counted),
        Holds-SameRing history u _ (publish-SameRing u _) holds,
        refl,
      ))
