-- ===== src/SessionLease/Stream/Follows.antt =====
-- A consumer of a lease in session_lease.py, event by event.
pub mod Delivery
use mercury_relay_plugin.Prelude.{
  ℕ, zero, suc, ◌+◌, ◌-◌, ◌≤◌, max, ◌≡◌, refl, sym, ap, ◌∙◌, subst, ◌⊎◌, inl, inr, Bool, Bool-cases,
  true, false, ◌||◌, Option, none, some, Option-cases, List, [], ◌∷◌, ◌++◌, arith, Bytes, length,
  drop, drop-all, replicate, length-drop, length-append, ltb, leb, Result, ok, err,
}
use mathlib.Core.List.{append_assoc, append-nil}
use mercury_relay_plugin.SessionLease.{
  Json, SessionLease, LeaseAttachment, RetainedEvent, Next, frame, fails, sleeps, next_text,
  deliver, detach, attachment_backpressure, retain, after_trim, live_text, record_outcome,
  append_event, trim, attach, publish, new_attachment, first_seq, reply_of, settle, deliver_waiters,
}
use mercury_relay_plugin.SessionLease.Ring.{Window, drop-snoc}
use mercury_relay_plugin.SessionLease.History.{Holds, attach_parts, attach-replays}
use mercury_relay_plugin.SessionLease.Stream.{
  optional, texts, pending, IsPlain, Emits, next_text-Emits, IsReady, SameOwner, trim-SameOwner,
  DeliversOrDetaches, retain-DeliversOrDetaches, retain_gone,
}

-- A lease, and the texts that its consumer was given.
pub record Consumer : Type 0 where
  pub lease : SessionLease
  pub received : List Bytes

-- The controller sends a frame, or the consumer asks for the next text.
pub data Event : Type 0 where
  sends : ℕ → Bytes → Event
  takes : Event

unfoldable pub take_next : Consumer → Next × LeaseAttachment → Consumer
take_next c (frame t, a) = record {
  lease = record c.lease { attachment = some a };
  received = c.received ++ t ∷ [];
}
take_next c (fails reason, a) = c
take_next c (sleeps, a) = c

unfoldable pub consume : Json → Consumer → Event → Consumer
consume json c (sends now text) = record c { lease = (retain json c.lease now text).1 }
consume json c takes = elim c.lease.attachment [
  | none ↦ c
  | some a ↦ take_next c (next_text json c.lease.released a)
]

unfoldable pub consume_all : Json → Consumer → List Event → Consumer
consume_all json c [] = c
consume_all json c (e ∷ events) = consume_all json (consume json c e) events

abbrev pub sent : List Event → List Bytes
sent [] = []
sent (sends now text ∷ events) = text ∷ sent events
sent (takes ∷ events) = sent events

-- What was received and what is pending make up the stream; once the consumer is detached, what
-- was received starts it.
pub data Follows (stream : List Bytes) (c : Consumer) : Type 0 where
  attached :
      (a : LeaseAttachment)
      → c.lease.attachment ≡ some a
      → IsPlain a
      → c.received ++ pending a ≡ stream
      → Follows stream c
  gone :
      (rest : List Bytes)
      → c.lease.attachment ≡ none
      → c.received ++ rest ≡ stream
      → Follows stream c

extend :
    (xs ys stream : List Bytes) (t : Bytes)
    → xs ++ ys ≡ stream
    → xs ++ (ys ++ t ∷ []) ≡ stream ++ t ∷ []
extend xs ys stream t e = sym (append_assoc xs ys (t ∷ [])) ∙ ap (λ z. z ++ t ∷ []) e

pending-live :
    (a : LeaseAttachment) (text : Bytes) (n : ℕ)
    → pending (record a { live = a.live ++ text ∷ []; live_bytes = n }) ≡ pending a ++ text ∷ []
pending-live a text n =
    ap (λ z. optional a.preamble ++ z) (sym (append_assoc (texts a.replay) a.live (text ∷ [])))
    ∙ sym (append_assoc (optional a.preamble) (texts a.replay ++ a.live) (text ∷ []))

sends-Follows :
    (json : Json) (stream : List Bytes) (c : Consumer) (now : ℕ) (text : Bytes)
    → IsReady c.lease
    → Follows stream c
    → Follows (stream ++ text ∷ []) (consume json c (sends now text))
      × IsReady (consume json c (sends now text)).lease
unfolding consume DeliversOrDetaches
sends-Follows json stream c now text r (attached a e p all) =
    let (result, ready) = retain-DeliversOrDetaches json c.lease now text a e p r in
    elim result [
      | inl (n, still) ↦ (
        attached _ still (record { plain = p.plain; unmarked = p.unmarked })
            (ap (λ z. c.received ++ z) (pending-live a text n)
              ∙ extend c.received (pending a) stream text all),
        ready,
      )
      | inr out ↦
          (gone (pending a ++ text ∷ []) out (extend c.received (pending a) stream text all), ready)
    ]
sends-Follows json stream c now text r (gone rest e all) =
    let (none_left, ready) = retain_gone json c.lease now text e r in
    (gone (rest ++ text ∷ []) none_left (extend c.received rest stream text all), ready)

frame_text_of : Next → Bytes → Bytes
frame_text_of (frame t) d = t
frame_text_of _ d = d

shift_text :
    (received : List Bytes) (t u : Bytes) (before after : List Bytes)
    → frame t ≡ frame u
    → before ≡ u ∷ after
    → (received ++ t ∷ []) ++ after ≡ received ++ before
unfolding frame_text_of
shift_text received t u before after same first =
    append_assoc received (t ∷ []) after
    ∙ ap (λ z. received ++ (z ∷ after)) (ap (λ n. frame_text_of n []) same)
    ∙ ap (λ z. received ++ z) (sym first)

take_next-Follows :
    (stream : List Bytes) (c : Consumer)
    → IsReady c.lease
    → (a : LeaseAttachment) → c.lease.attachment ≡ some a
    → IsPlain a
    → c.received ++ pending a ≡ stream
    → (n : Next) (b : LeaseAttachment) → Emits a (n, b)
    → Follows stream (take_next c (n, b)) × IsReady (take_next c (n, b)).lease
unfolding take_next Emits
take_next-Follows stream c r a e p all (frame t) b (inl (u, same, first, q)) = (
  attached b refl q (shift_text c.received t u (pending a) (pending b) same first ∙ all),
  record { no_waiters = r.no_waiters; live = r.live },
)
take_next-Follows stream c r a e p all (frame t) b (inr (none_left, empty)) =
    absurd (none_left t refl)
take_next-Follows stream c r a e p all (fails reason) b emits = (attached a e p all, r)
take_next-Follows stream c r a e p all sleeps b emits = (attached a e p all, r)

takes-Follows :
    (json : Json) (stream : List Bytes) (c : Consumer)
    → IsReady c.lease
    → Follows stream c
    → Follows stream (consume json c takes) × IsReady (consume json c takes).lease
unfolding consume
takes-Follows json stream c r (gone rest e all) =
    subst (λ d. Follows stream d × IsReady d.lease) (ground (arith, e)) (gone rest e all, r)
takes-Follows json stream c r (attached a e p all) =
    subst (λ d. Follows stream d × IsReady d.lease) (ground (arith, e, r))
      (take_next-Follows stream c r a e p all (next_text json false a).0 (next_text json false a).1
        (next_text-Emits json a p))

consume_all-IsReady :
    (json : Json) (stream : List Bytes) (c : Consumer) (events : List Event)
    → IsReady c.lease
    → Follows stream c
    → IsReady (consume_all json c events).lease
unfolding consume_all
consume_all-IsReady json stream c [] r f = r
consume_all-IsReady json stream c (sends now text ∷ events) r f =
    let (g, q) = sends-Follows json stream c now text r f in
    consume_all-IsReady json (stream ++ text ∷ []) (consume json c (sends now text)) events q g
consume_all-IsReady json stream c (takes ∷ events) r f =
    let (g, q) = takes-Follows json stream c r f in
    consume_all-IsReady json stream (consume json c takes) events q g

consume_all-Follows :
    (json : Json) (stream : List Bytes) (c : Consumer) (events : List Event)
    → IsReady c.lease
    → Follows stream c
    → Follows (stream ++ sent events) (consume_all json c events)
unfolding consume_all
consume_all-Follows json stream c [] r f = subst (λ z. Follows z c) (sym (append-nil stream)) f
consume_all-Follows json stream c (sends now text ∷ events) r f =
    let (g, q) = sends-Follows json stream c now text r f in
    subst (λ z. Follows z (consume_all json (consume json c (sends now text)) events))
      (append_assoc stream (text ∷ []) (sent events))
      (consume_all-Follows json (stream ++ text ∷ []) (consume json c (sends now text)) events q g)
consume_all-Follows json stream c (takes ∷ events) r f =
    let (g, q) = takes-Follows json stream c r f in
    consume_all-Follows json stream (consume json c takes) events q g
