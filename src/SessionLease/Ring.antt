-- ===== src/SessionLease/Ring.antt =====
-- The ring of a lease in session_lease.py, as a window on the history of its frames.
use mercury_relay_plugin.Prelude.{
  ℕ, zero, suc, ◌+◌, ◌-◌, ◌≤◌, max, ◌≡◌, refl, sym, ap, subst, inl, inr, Bool, Bool-cases, ◌||◌,
  List, [], ◌∷◌, ◌++◌, arith, Bytes, length, drop, drop-all, length-drop, ltb,
}
use mercury_relay_plugin.SessionLease.{LeaseLimits, RetainedEvent, Trimmed, trim_loop, events_after}

-- The events carry the frames that follow the frame number `from`.
abbrev pub Window : ℕ → List Bytes → List RetainedEvent → Type 0
Window from frames [] = frames ≡ []
Window from frames (e ∷ es) =
    (rest : List Bytes) × (frames ≡ e.text ∷ rest)
    × (e.lease_seq ≡ suc from)
    × (e.size ≡ length e.text)
    × Window (suc from) rest es

abbrev pub total_size : List RetainedEvent → ℕ
total_size [] = 0
total_size (e ∷ es) = e.size + total_size es

drop-suc :
    (n : ℕ) (h : List Bytes) (x : Bytes) (r : List Bytes) → drop n h ≡ x ∷ r → drop (suc n) h ≡ r
drop-suc zero [] x r e = ground (arith, e)
drop-suc zero (y ∷ h) x r e = ground (arith, e)
drop-suc (suc n) [] x r e = ground (arith, e)
drop-suc (suc n) (y ∷ h) x r e = drop-suc n h x r e

drop-past : (n m : ℕ) (h : List Bytes) → drop n h ≡ [] → n ≤ m → drop m h ≡ []
drop-past n m h e l = drop-all m h (omega (arith, length-drop n h, ap length e))

pub drop-snoc :
    (n : ℕ) (h : List Bytes) (x : Bytes) → n ≤ length h → drop n (h ++ x ∷ []) ≡ drop n h ++ x ∷ []
drop-snoc zero h x l = refl
drop-snoc (suc n) [] x l = ground (arith)
drop-snoc (suc n) (y ∷ h) x l = drop-snoc n h x (omega (arith, l))

-- What a trim of the ring leaves.
pub record TrimHolds (history : List Bytes) (limits : LeaseLimits) (t : Trimmed) : Type 0 where
  pub window : Window t.through (drop t.through history) t.kept
  pub exact : t.kept_bytes ≡ total_size t.kept
  pub within : length t.kept ≤ limits.max_events
  pub bytes_within : t.kept_bytes ≤ limits.max_event_bytes
  pub reaches : t.through ≤ length history

pub trim_loop-TrimHolds :
    (history : List Bytes) (limits : LeaseLimits) (now : ℕ) (ring : List RetainedEvent)
    (bytes through : ℕ) (overflow : Bool)
    → Window through (drop through history) ring
    → bytes ≡ total_size ring
    → through ≤ length history
    → TrimHolds history limits (trim_loop limits now ring bytes through overflow)
unfolding trim_loop
trim_loop-TrimHolds history limits now [] bytes through overflow w b starts = record {
  window = w;
  exact = b;
  within = omega arith;
  bytes_within = omega (arith, b);
  reaches = starts;
}
trim_loop-TrimHolds history limits now (e ∷ es) bytes through overflow (rest, are, seq, size, w) b
      starts =
    let shorter =
      subst (λ n. Window n (drop n history) es) (sym seq)
        (subst (λ fs. Window (suc through) fs es) (sym (drop-suc through history e.text rest are))
          w) in
    let later =
      trim_loop-TrimHolds history limits now es (bytes - e.size) e.lease_seq
        (overflow
          || ltb limits.max_events (length es + 1)
          || ltb limits.max_event_bytes (bytes - e.size + e.size))
        shorter (omega (arith, b))
        (ground (arith, seq, ap length are, length-drop through history)) in
    let whole : Window through (drop through history) (e ∷ es) = (rest, are, seq, size, w) in
    ground (arith, later, whole)

-- The events after the cursor are the frames after it, or after the window's start.
pub events_after-Window :
    (history : List Bytes) (cursor from : ℕ) (ring : List RetainedEvent)
    → Window from (drop from history) ring
    → Window (max cursor from) (drop (max cursor from) history) (events_after cursor ring)
unfolding events_after
events_after-Window history cursor from [] w =
    drop-past from (max cursor from) history w (omega arith)
events_after-Window history cursor from (e ∷ es) (rest, are, seq, size, w) =
    let shorter : Window (suc from) (drop (suc from) history) es =
      subst (λ fs. Window (suc from) fs es) (sym (drop-suc from history e.text rest are)) w in
    let later = events_after-Window history cursor (suc from) es shorter in
    elim (Bool-cases (ltb cursor e.lease_seq)) [
      | inl after ↦ rw after (
          at_start (max cursor from) from (e ∷ events_after cursor es) (ground (arith, after, seq))
            (
              rest,
              are,
              seq,
              size,
              subst (λ fs. Window (suc from) fs (events_after cursor es))
                  (drop-suc from history e.text rest are)
                  (at_start (suc from) (max cursor (suc from)) (events_after cursor es)
                    (ground (arith, after, seq)) later),
            ))
      | inr before ↦ rw before (
          at_start (max cursor from) (max cursor (suc from)) (events_after cursor es)
            (ground (arith, before, seq)) later)
    ]
  where
    at_start :
        (n m : ℕ) (ring : List RetainedEvent)
        → n ≡ m
        → Window m (drop m history) ring
        → Window n (drop n history) ring
    at_start n m ring e w = subst (λ k. Window k (drop k history) ring) (sym e) w

pub Window-append :
    (from n : ℕ) (frames : List Bytes) (ring : List RetainedEvent) (e : RetainedEvent)
    → Window from frames ring
    → from + length frames ≡ n
    → e.lease_seq ≡ suc n
    → e.size ≡ length e.text
    → Window from (frames ++ e.text ∷ []) (ring ++ e ∷ [])
Window-append from n frames [] e w l seq size =
    ([], rw w refl, ground (arith, ap length w), size, refl)
Window-append from n frames (x ∷ ring) e (rest, are, xseq, xsize, w) l seq size = (
  rest ++ e.text ∷ [],
  rw are refl,
  xseq,
  xsize,
  Window-append (suc from) n rest ring e w (ground (arith, ap length are)) seq size,
)

pub total_size-append :
    (ring : List RetainedEvent) (e : RetainedEvent)
    → total_size (ring ++ e ∷ []) ≡ total_size ring + e.size
total_size-append [] e = omega arith
total_size-append (x ∷ ring) e = omega (arith, total_size-append ring e)
