-- ===== src/SessionLease/Stream.antt =====
-- One step of a consumer of a lease in session_lease.py: the next text, and the next frame retained.
pub mod Follows
use mercury_relay_plugin.Prelude.{
  ℕ, zero, suc, ◌+◌, ◌-◌, ◌≤◌, max, ◌≡◌, refl, sym, ap, ◌∙◌, subst, ◌⊎◌, inl, inr, Bool, Bool-cases,
  true, false, ◌||◌, Option, none, some, Option-cases, List, [], ◌∷◌, ◌++◌, arith, Bytes, length,
  drop, drop-all, replicate, length-drop, length-append, ltb, leb, Result, ok, err,
}
use mathlib.Core.List.{append_assoc, append-nil}
use mercury_relay_plugin.SessionLease.{
  Json, SessionLease, LeaseAttachment, RetainedEvent, Next, frame, fails, sleeps, next_text,
  deliver, detach, attachment_backpressure, retain, after_trim, live_text, record_outcome,
  append_event, trim, attach, publish, new_attachment, first_seq, reply_of, settle, deliver_waiters,
  SubmissionRecord, Value, Outcome, awaits,
}
use mercury_relay_plugin.SessionLease.Ring.{Window, drop-snoc}
use mercury_relay_plugin.SessionLease.History.{Holds, attach_parts, attach-replays}

abbrev pub optional : Option Bytes → List Bytes
optional none = []
optional (some b) = b ∷ []

abbrev pub texts : List RetainedEvent → List Bytes
texts [] = []
texts (e ∷ es) = e.text ∷ texts es

-- What a consumer without recovery has still to be given.
abbrev pub pending : LeaseAttachment → List Bytes
pending a = optional a.preamble ++ (texts a.replay ++ a.live)

pub record IsPlain (a : LeaseAttachment) : Type 0 where
  pub plain : a.recovery ≡ false
  pub unmarked : a.replay_complete ≡ none

-- The next text is the first one that is pending, and there is none only when nothing is.
Emits : LeaseAttachment → Next × LeaseAttachment → Type 0
Emits a (r, b) =
    ((t : Bytes) × (r ≡ frame t) × (pending a ≡ t ∷ pending b) × IsPlain b)
    ⊎ (((t : Bytes) → r ≡ frame t → ⊥) × (pending a ≡ []))

List-cases {ℓ} :
    {A : Type ℓ} (xs : List A) → (xs ≡ []) ⊎ ((x : A) × (rest : List A) × (xs ≡ x ∷ rest))
List-cases [] = inl refl
List-cases (x ∷ rest) = inr (x, rest, refl)

-- `next_text` by the first of its queues that is not empty.
module _ (json : Json) (a : LeaseAttachment) (p : IsPlain a) where
  next_text_preamble :
      (t : Bytes)
      → a.preamble ≡ some t
      → next_text json false a ≡ (frame t, record a { preamble = none })
  unfolding next_text
  next_text_preamble t e = ground (arith, e)

  next_text_replay :
      (x : RetainedEvent) (rest : List RetainedEvent)
      → a.preamble ≡ none
      → a.replay ≡ x ∷ rest
      → next_text json false a ≡ (frame x.text, record a { replay = rest })
  unfolding next_text
  next_text_replay x rest e f = ground (arith, e, f, p)

  next_text_live :
      (x : Bytes) (rest : List Bytes)
      → a.preamble ≡ none
      → a.replay ≡ []
      → a.live ≡ x ∷ rest
      → next_text json false a
        ≡ (frame x, record a { live = rest; live_bytes = a.live_bytes - length x })
  unfolding next_text
  next_text_live x rest e f g = ground (arith, e, f, g, p)

  next_text_nothing :
      (t : Bytes)
      → a.preamble ≡ none
      → a.replay ≡ []
      → a.live ≡ []
      → (next_text json false a).0 ≡ frame t
      → ⊥
  unfolding next_text
  next_text_nothing t e f g h = elim (Option-cases a.detach_reason) [
    | inl r ↦ ground (arith, e, f, g, p, r, h)
    | inr (reason, r) ↦ ground (arith, e, f, g, p, r, h)
  ]

  next_text-Emits : Emits a (next_text json false a)
  unfolding Emits
  next_text-Emits = elim (Option-cases a.preamble) [
    | inr (t, e) ↦
        subst (Emits a) (sym (next_text_preamble t e))
          (inl (t, refl, rw e refl, record { plain = p.plain; unmarked = p.unmarked }))
    | inl e ↦ elim (List-cases a.replay) [
      | inr (x, rest, f) ↦
          subst (Emits a) (sym (next_text_replay x rest e f))
            (inl (x.text, refl, rw (e, f) refl, record { plain = p.plain; unmarked = p.unmarked }))
      | inl f ↦ elim (List-cases a.live) [
        | inr (x, rest, g) ↦
            subst (Emits a) (sym (next_text_live x rest e f g))
              (inl (x, refl, rw (e, f, g) refl, record { plain = p.plain; unmarked = p.unmarked }))
        | inl g ↦ inr (λ t. next_text_nothing t e f g, rw (e, f, g) refl)
      ]
    ]
  ]

-- No attachment waits for the answer to a submission of another.
abbrev pub NoWaiters : List (Bytes × SubmissionRecord) → Type 0
NoWaiters [] = Unit
NoWaiters ((key, r) ∷ rest) = (r.waiters ≡ []) × NoWaiters rest

settle-NoWaiters :
    (json : Json) (ledger : List (Bytes × SubmissionRecord)) (id : Value) (o : Outcome)
    → NoWaiters ledger
    → ((settle json ledger id o).1 ≡ []) × NoWaiters (settle json ledger id o).0
unfolding settle
settle-NoWaiters json [] id o h = (refl, tt)
settle-NoWaiters json ((key, r) ∷ rest) id o (none_wait, h) = elim (Bool-cases (awaits json r id)) [
  | inl e ↦ rw e (none_wait, (refl, h))
  | inr e ↦ let (later, kept) = settle-NoWaiters json rest id o h in rw e (later, (none_wait, kept))
]

-- What the frames of the controller leave of the one attachment of a lease.
record IsReady (s : SessionLease) : Type 0 where
  no_waiters : NoWaiters s.submissions
  live : s.released ≡ false

record SameOwner (s t : SessionLease) : Type 0 where
  attachment : t.attachment ≡ s.attachment
  submissions : NoWaiters s.submissions → NoWaiters t.submissions
  released : t.released ≡ s.released

record_outcome-SameOwner :
    (json : Json) (s : SessionLease) (text : Bytes)
    → NoWaiters s.submissions
    → SameOwner s (record_outcome json s text)
unfolding record_outcome deliver_waiters
record_outcome-SameOwner json s text e = elim (Option-cases (reply_of (json.loads_strict text))) [
  | inl r ↦
      let same : s ≡ record_outcome json s text = ground (arith, r) in
      subst (SameOwner s) same (record { attachment = refl; submissions = λ h. h; released = refl })
  | inr ((id, o), r) ↦
      let (no_one, kept) = settle-NoWaiters json s.submissions id o e in
      let settled : record s { submissions = (settle json s.submissions id o).0 }
          ≡ record_outcome json s text =
        ground (arith, r, no_one) in
      subst (SameOwner s) settled
        (record { attachment = refl; submissions = λ h. kept; released = refl })
]

-- The attachment is delivered the text at its end, or is detached.
DeliversOrDetaches : LeaseAttachment → Bytes → SessionLease → Type 0
DeliversOrDetaches a text t =
    ((n : ℕ) × (t.attachment ≡ some (record a { live = a.live ++ text ∷ []; live_bytes = n })))
    ⊎ (t.attachment ≡ none)

detach_current :
    (s : SessionLease) (a : LeaseAttachment)
    → s.attachment ≡ some a
    → IsReady s
    → ((detach s a.number attachment_backpressure).attachment ≡ none)
      × IsReady (detach s a.number attachment_backpressure)
unfolding detach
detach_current s a e r = ground (arith, e, r)

deliver-DeliversOrDetaches :
    (s : SessionLease) (a : LeaseAttachment) (text : Bytes)
    → s.attachment ≡ some a
    → IsReady s
    → DeliversOrDetaches a text (deliver s a text) × IsReady (deliver s a text)
unfolding deliver DeliversOrDetaches
deliver-DeliversOrDetaches s a text e r =
    elim (Bool-cases (
      leb s.limits.max_events (length a.live)
      || ltb s.limits.max_event_bytes (a.live_bytes + length text))) [
        | inl full ↦ rw full (inr (detach_current s a e r).0, (detach_current s a e r).1)
        | inr room ↦ rw room (
          inl (a.live_bytes + length text, refl),
          record { no_waiters = r.no_waiters; live = r.live },
        )
      ]

trim-SameOwner : (s : SessionLease) (now : ℕ) → SameOwner s (trim s now).1
unfolding trim
trim-SameOwner s now = record { attachment = refl; submissions = λ h. h; released = refl }

append_event-SameOwner :
    (s : SessionLease) (now : ℕ) (text : Bytes) → SameOwner s (append_event s now text)
unfolding append_event
append_event-SameOwner s now text = record {
  attachment = refl;
  submissions = λ h. h;
  released = refl;
}

SameOwner-trans : (s t u : SessionLease) → SameOwner s t → SameOwner t u → SameOwner s u
SameOwner-trans s t u a b = record {
  attachment = b.attachment ∙ a.attachment;
  submissions = λ h. b.submissions (a.submissions h);
  released = b.released ∙ a.released;
}

-- The lease before the newest frame is delivered.
retained_to_trim :
    (json : Json) (s : SessionLease) (now : ℕ) (text : Bytes)
    → IsReady s
    → SameOwner s
        (trim
          (append_event
            (record_outcome json (record s { last_seq = suc s.last_seq }) text)
            now
            text)
          now).1
retained_to_trim json s now text r =
    let counted = record s { last_seq = suc s.last_seq } in
    let recorded = record_outcome json counted text in
    let same = record_outcome-SameOwner json counted text r.no_waiters in
    SameOwner-trans s recorded _
      (record {
        attachment = same.attachment;
        submissions = same.submissions;
        released = same.released;
      })
      (SameOwner-trans recorded (append_event recorded now text) _
        (append_event-SameOwner recorded now text)
        (trim-SameOwner (append_event recorded now text) now))

after_trim-DeliversOrDetaches :
    (json : Json) (overflow : Bool) (s : SessionLease) (now : ℕ) (text : Bytes)
    (a : LeaseAttachment)
    → s.attachment ≡ some a
    → IsPlain a
    → IsReady s
    → DeliversOrDetaches a text (after_trim json overflow s now text).1
      × IsReady (after_trim json overflow s now text).1
unfolding after_trim live_text
after_trim-DeliversOrDetaches json overflow s now text a e p r =
    let done = deliver-DeliversOrDetaches s a text e r in
    subst (λ u. DeliversOrDetaches a text u × IsReady u) (ground (arith, e, p)) done

after_trim_gone :
    (json : Json) (overflow : Bool) (s : SessionLease) (now : ℕ) (text : Bytes)
    → s.attachment ≡ none
    → IsReady s
    → ((after_trim json overflow s now text).1.attachment ≡ none)
      × IsReady (after_trim json overflow s now text).1
unfolding after_trim
after_trim_gone json overflow s now text e r = ground (arith, e, r)

retain-DeliversOrDetaches :
    (json : Json) (s : SessionLease) (now : ℕ) (text : Bytes) (a : LeaseAttachment)
    → s.attachment ≡ some a
    → IsPlain a
    → IsReady s
    → DeliversOrDetaches a text (retain json s now text).1 × IsReady (retain json s now text).1
unfolding retain
retain-DeliversOrDetaches json s now text a e p r =
    let t =
      trim
        (append_event (record_outcome json (record s { last_seq = suc s.last_seq }) text) now text)
        now in
    let u : SessionLease = t.1 in
    let kept = retained_to_trim json s now text r in
    let attached : u.attachment ≡ some a = kept.attachment ∙ e in
    let ready : IsReady u = record {
      no_waiters = kept.submissions r.no_waiters;
      live = kept.released ∙ r.live;
    } in
    after_trim-DeliversOrDetaches json t.0 u now text a attached p ready

retain_gone :
    (json : Json) (s : SessionLease) (now : ℕ) (text : Bytes)
    → s.attachment ≡ none
    → IsReady s
    → ((retain json s now text).1.attachment ≡ none) × IsReady (retain json s now text).1
unfolding retain
retain_gone json s now text e r =
    let t =
      trim
        (append_event (record_outcome json (record s { last_seq = suc s.last_seq }) text) now text)
        now in
    let u : SessionLease = t.1 in
    let kept = retained_to_trim json s now text r in
    let attached : u.attachment ≡ none = kept.attachment ∙ e in
    let ready : IsReady u = record {
      no_waiters = kept.submissions r.no_waiters;
      live = kept.released ∙ r.live;
    } in
    after_trim_gone json t.0 u now text attached ready
