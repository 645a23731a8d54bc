-- ===== src/SessionLease/Stream/Follows/Delivery.antt =====
-- The stream of a consumer of a lease in session_lease.py, from its attachment on.
use mercury_relay_plugin.Prelude.{
  ℕ, zero, suc, ◌≤◌, max, ◌≡◌, refl, sym, ap, ◌∙◌, subst, inl, inr, Bool, false, some, List, [],
  ◌∷◌, ◌++◌, arith, Bytes, length, drop, drop-all, replicate, ok,
}
use mathlib.Core.List.{append-nil}
use mercury_relay_plugin.SessionLease.{
  Json, SessionLease, LeaseAttachment, RetainedEvent, Next, frame, fails, sleeps, next_text, attach,
  publish, new_attachment, first_seq,
}
use mercury_relay_plugin.SessionLease.Ring.{Window}
use mercury_relay_plugin.SessionLease.History.{Holds, attach_parts, attach-replays}
use mercury_relay_plugin.SessionLease.Stream.{
  texts, pending, IsPlain, Emits, next_text-Emits, IsReady, NoWaiters, trim-SameOwner,
}
use mercury_relay_plugin.SessionLease.Stream.Follows.{
  Consumer, Event, takes, take_next, consume, consume_all, sent, Follows, attached, gone,
  shift_text, consume_all-IsReady, consume_all-Follows,
}

consume_takes :
    (json : Json) (c : Consumer) (a : LeaseAttachment)
    → c.lease.attachment ≡ some a
    → IsReady c.lease
    → consume json c takes ≡ take_next c (next_text json false a)
unfolding consume
consume_takes json c a e r = ground (arith, e, r)

-- So many requests for the next text give all that is pending.
Drains : Json → ℕ → Type 0
Drains json n =
    (c : Consumer) (a : LeaseAttachment)
    → IsReady c.lease
    → c.lease.attachment ≡ some a
    → IsPlain a
    → length (pending a) ≤ n
    → (consume_all json c (replicate n takes)).received ≡ c.received ++ pending a

take_next-Drains :
    (json : Json) (n : ℕ) (c : Consumer) (a : LeaseAttachment)
    → Drains json n
    → IsReady c.lease
    → c.lease.attachment ≡ some a
    → IsPlain a
    → length (pending a) ≤ suc n
    → (m : Next) (b : LeaseAttachment) → Emits a (m, b)
    → (consume_all json (take_next c (m, b)) (replicate n takes)).received ≡ c.received ++ pending a
unfolding Drains take_next Emits
take_next-Drains json n c a ih r e p l (frame t) b (inl (u, same, first, q)) =
    ih (record { lease = record c.lease { attachment = some b }; received = c.received ++ t ∷ [] })
      b (record { no_waiters = r.no_waiters; live = r.live }) refl q
      (omega (arith, l, ap length first))
    ∙ shift_text c.received t u (pending a) (pending b) same first
take_next-Drains json n c a ih r e p l (frame t) b (inr (none_left, empty)) =
    absurd (none_left t refl)
take_next-Drains json n c a ih r e p l (fails reason) b (inl (u, same, first, q)) =
    ground (arith, same)
take_next-Drains json n c a ih r e p l (fails reason) b (inr (none_left, empty)) =
    ih c a r e p (omega (arith, ap length empty))
take_next-Drains json n c a ih r e p l sleeps b (inl (u, same, first, q)) = ground (arith, same)
take_next-Drains json n c a ih r e p l sleeps b (inr (none_left, empty)) =
    ih c a r e p (omega (arith, ap length empty))

consume_all-Drains : (json : Json) (n : ℕ) → Drains json n
unfolding Drains consume_all
consume_all-Drains json zero c a r e p l =
    sym (
      ap (λ z. c.received ++ z) (drop-all 0 (pending a) (omega (arith, l))) ∙ append-nil c.received)
consume_all-Drains json (suc n) c a r e p l =
    ap (λ d. (consume_all json d (replicate n takes)).received) (consume_takes json c a e r)
    ∙ take_next-Drains json n c a (consume_all-Drains json n) r e p l (next_text json false a).0
        (next_text json false a).1 (next_text-Emits json a p)

-- An attachment whose stream is known has it all after the requests for what is pending.
Follows-drained :
    (json : Json) (stream : List Bytes) (c : Consumer) (b : LeaseAttachment)
    → IsReady c.lease
    → Follows stream c
    → c.lease.attachment ≡ some b
    → (consume_all json c (replicate (length (pending b)) takes)).received ≡ stream
unfolding Drains
Follows-drained json stream c b r (attached a e p all) f =
    let same : a ≡ b = ground (arith, e, f) in
    subst (λ x. (consume_all json c (replicate (length (pending x)) takes)).received ≡ stream) same
      (consume_all-Drains json (length (pending a)) c a r e p (omega arith) ∙ all)
Follows-drained json stream c b r (gone rest e all) f = ground (arith, e, f)

texts-Window :
    (from : ℕ) (frames : List Bytes) (ring : List RetainedEvent)
    → Window from frames ring
    → texts ring ≡ frames
texts-Window from frames [] w = sym w
texts-Window from frames (e ∷ es) (rest, are, seq, size, w) =
    ap (λ z. e.text ∷ z) (texts-Window (suc from) rest es w) ∙ sym are

drop-prefix : (n : ℕ) (h more : List Bytes) → n ≤ length h → drop n (h ++ more) ≡ drop n h ++ more
drop-prefix zero h more l = refl
drop-prefix (suc n) [] more l = absurd (omega (arith, l))
drop-prefix (suc n) (x ∷ h) more l = drop-prefix n h more (omega (arith, l))

-- What the library's printing makes of the attach-status frame.
abbrev pub hello : Json → SessionLease → LeaseAttachment → ℕ → Bool → Bytes
hello json t a cursor reset =
    json.attached_text t.last_seq a.replay_gap (first_seq a.replay) cursor false reset

module _ (json : Json) (history : List Bytes) (s : SessionLease) (now cursor : ℕ)
    (recovery_reset replaces : Bool) (a : LeaseAttachment) (t : SessionLease)
    (holds : Holds history s) (no_waiters : NoWaiters s.submissions)
    (attaches : attach json s now cursor false recovery_reset replaces ≡ (ok a, t)) where
  attach_live : s.released ≡ false
  unfolding attach
  attach_live = ground (arith, attaches)

  attach-IsReady : IsReady t
  unfolding publish
  attach-IsReady =
      let (reached, is, after) =
        attach_parts json s now cursor false recovery_reset replaces a t attaches in
      let kept = trim-SameOwner s now in
      rw after
        (record { no_waiters = kept.submissions no_waiters; live = kept.released ∙ attach_live })

  attach-IsPlain : IsPlain a
  unfolding new_attachment
  attach-IsPlain =
      let (reached, is, after) =
        attach_parts json s now cursor false recovery_reset replaces a t attaches in
      rw is (record { plain = refl; unmarked = refl })

  attach_pending : pending a ≡ hello json t a cursor recovery_reset ∷ texts a.replay
  unfolding new_attachment publish
  attach_pending =
      let (reached, is, after) =
        attach_parts json s now cursor false recovery_reset replaces a t attaches in
      rw (after, is, append-nil) refl

  attach_reached : max cursor t.trimmed_through ≤ length history
  attach_reached =
      let (window, gap, reached, h, at) =
        attach-replays json history s now cursor false recovery_reset replaces a t holds attaches in
      omega (arith, reached, h.counted, h.trimmed)

  attach_begins :
      Follows
        (hello json t a cursor recovery_reset ∷ drop (max cursor t.trimmed_through) history)
        (record { lease = t; received = [] })
  attach_begins =
      let (window, gap, reached, h, at) =
        attach-replays json history s now cursor false recovery_reset replaces a t holds attaches in
      attached a at attach-IsPlain (
        attach_pending
        ∙ ap (λ z. hello json t a cursor recovery_reset ∷ z) (texts-Window _ _ a.replay window))

  module _ (events : List Event) where
    -- A consumer without recovery, attached to a lease that holds the history and on which no attachment
    -- waits for the answer to a submission, gets the attach-status frame and then exactly the frames after
    -- its cursor, or after what the ring no longer held: those of the history and those that the controller
    -- sends later. While it is attached what it received and what is pending are that stream; once it was
    -- detached, what it received is how the stream starts.
    pub attach-Follows :
        Follows
          (hello json t a cursor recovery_reset
            ∷ drop (max cursor t.trimmed_through) (history ++ sent events))
          (consume_all json (record { lease = t; received = [] }) events)
    attach-Follows =
        subst
          (λ z.
            Follows (hello json t a cursor recovery_reset ∷ z)
              (consume_all json (record { lease = t; received = [] }) events))
          (sym (drop-prefix (max cursor t.trimmed_through) history (sent events) attach_reached))
          (consume_all-Follows json _ (record { lease = t; received = [] }) events attach-IsReady
            attach_begins)

    attached-IsReady : IsReady (consume_all json (record { lease = t; received = [] }) events).lease
    attached-IsReady =
        consume_all-IsReady json _ (record { lease = t; received = [] }) events attach-IsReady
          attach_begins

    -- A consumer without recovery, attached to a lease that holds the history and on which no attachment
    -- waits for the answer to a submission, that is still attached after these events and then asks for as
    -- many texts as are pending has received the whole stream, each frame once and in order.
    pub attach_drained :
        (b : LeaseAttachment)
        → (consume_all json (record { lease = t; received = [] }) events).lease.attachment ≡ some b
        → (consume_all json
            (consume_all json (record { lease = t; received = [] }) events)
            (replicate (length (pending b)) takes)).received
          ≡ hello json t a cursor recovery_reset
            ∷ drop (max cursor t.trimmed_through) (history ++ sent events)
    attach_drained b e = Follows-drained json _ _ b attached-IsReady attach-Follows e
