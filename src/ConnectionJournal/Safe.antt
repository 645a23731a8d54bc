-- ===== src/ConnectionJournal/Safe.antt =====
-- What `sanitize_connection_event` of connection_journal.py returns.
use Prim.Native.String.{String}
use mercury_relay_plugin.Prelude.{
  ℕ, ◌≤◌, ◌≡◌, refl, sym, ap, ◌∙◌, subst, inl, inr, Bool, Bool-cases, true, false, ◌&&◌, Option,
  none, some, List, leb, arith, Result, ok, bind_returns, ok_injective, if◌then◌else◌, pos, negsuc,
}
use mercury_relay_plugin.ConnectionJournal.{
  Value, null, float_one, unhashable, other, boolean, integer, text, TypeError, Calendar, Mapping,
  Entry, max_event_age_ms, max_generation, max_attempt_number, max_close_code, event_names,
  outcomes, reasons, exception_categories, event_keys, is_member, only_keys, get, is_id,
  bounded_int, safe_id, safe_choice, is_schema_version, event_name, is_timestamp, safe_timestamp,
  sanitized_fields, sanitized_named, sanitized_timed, sanitize_connection_event,
}

abbrev pub IsId : Option String → Type 0
IsId none = Unit {0}
IsId (some s) = is_id s ≡ true

abbrev pub IsWithin : ℕ → Option ℕ → Type 0
IsWithin maximum none = Unit {0}
IsWithin maximum (some n) = n ≤ maximum

-- A word of the vocabulary; `unknown` is a word of each.
abbrev pub IsChoice : List String → Option String → Type 0
IsChoice allowed none = Unit {0}
IsChoice allowed (some s) = is_member s allowed ≡ true

module _ (calendar : Calendar) where
  pub record IsSafe (e : Entry) : Type 0 where
    pub timestamp : is_timestamp calendar e.timestamp ≡ true
    pub event : is_member e.event event_names ≡ true
    pub attempt_id : IsId e.attempt_id
    pub connection_id : IsId e.connection_id
    pub generation : IsWithin max_generation e.generation
    pub outcome : IsChoice outcomes e.outcome
    pub reason : IsChoice reasons e.reason
    pub exception_category : IsChoice exception_categories e.exception_category
    pub backoff_ms : IsWithin max_event_age_ms e.backoff_ms
    pub attempt_number : IsWithin max_attempt_number e.attempt_number
    pub connection_age_ms : IsWithin max_event_age_ms e.connection_age_ms
    pub last_send_age_ms : IsWithin max_event_age_ms e.last_send_age_ms
    pub last_receive_age_ms : IsWithin max_event_age_ms e.last_receive_age_ms
    pub close_code : IsWithin max_close_code e.close_code

safe_id-IsId : (v : Value) → IsId (safe_id v)
unfolding safe_id
safe_id-IsId null = tt
safe_id-IsId float_one = tt
safe_id-IsId unhashable = tt
safe_id-IsId other = tt
safe_id-IsId (boolean b) = tt
safe_id-IsId (integer n) = tt
safe_id-IsId (text t) = elim (Bool-cases (is_id t)) [ inl e ↦ rw e e | inr e ↦ rw e tt ]

bounded_int-IsWithin : (maximum : ℕ) (v : Value) → IsWithin maximum (bounded_int maximum v)
unfolding bounded_int
bounded_int-IsWithin maximum null = tt
bounded_int-IsWithin maximum float_one = tt
bounded_int-IsWithin maximum unhashable = tt
bounded_int-IsWithin maximum other = tt
bounded_int-IsWithin maximum (boolean b) = tt
bounded_int-IsWithin maximum (integer (pos n)) = elim (Bool-cases (leb n maximum)) [
  | inl e ↦ rw e (ground (arith, e))
  | inr e ↦ rw e tt
]
bounded_int-IsWithin maximum (integer (negsuc n)) = tt
bounded_int-IsWithin maximum (text t) = tt

pub on_true : {A : Type 0} (test : Bool) (x y : A) → test ≡ true → (if test then x else y) ≡ x
on_true true x y h = refl
on_true false x y h = cc

on_false : {A : Type 0} (test : Bool) (x y : A) → test ≡ false → (if test then x else y) ≡ y
on_false true x y h = cc
on_false false x y h = refl

some_injective : {A : Type 0} {a b : A} → some a ≡ some b → a ≡ b
some_injective h = cc

safe_choice-IsChoice :
    (v : Value) (allowed : List String) (o : Option String)
    → is_member "unknown" allowed ≡ true
    → safe_choice v allowed ≡ ok o
    → IsChoice allowed o
unfolding safe_choice
safe_choice-IsChoice null allowed o u e = subst (IsChoice allowed) (ok_injective e) tt
safe_choice-IsChoice float_one allowed o u e = subst (IsChoice allowed) (ok_injective e) u
safe_choice-IsChoice unhashable allowed o u e = cc
safe_choice-IsChoice other allowed o u e = subst (IsChoice allowed) (ok_injective e) u
safe_choice-IsChoice (boolean b) allowed o u e = subst (IsChoice allowed) (ok_injective e) u
safe_choice-IsChoice (integer n) allowed o u e = subst (IsChoice allowed) (ok_injective e) u
safe_choice-IsChoice (text t) allowed o u e = elim (Bool-cases (is_member t allowed)) [
  | inl m ↦
      subst (IsChoice allowed)
        (ok_injective
          (sym (on_true (is_member t allowed) (ok (some t)) (ok (some "unknown")) m) ∙ e))
        m
  | inr m ↦
      subst (IsChoice allowed)
        (ok_injective
          (sym (on_false (is_member t allowed) (ok (some t)) (ok (some "unknown")) m) ∙ e))
        u
]

named_text :
    (t name : String) → event_name (text t) ≡ ok (some name) → is_member name event_names ≡ true
unfolding event_name
named_text t name e = elim (Bool-cases (is_member t event_names)) [
  | inl m ↦
      ap (λ z. is_member z event_names)
        (sym (same (sym (on_true (is_member t event_names) (ok (some t)) (ok none) m) ∙ e)))
      ∙ m
  | inr m ↦
      absurd (differs (sym (on_false (is_member t event_names) (ok (some t)) (ok none) m) ∙ e))
]
  where
    same : ◌≡◌ {A = Result TypeError (Option String)} (ok (some t)) (ok (some name)) → t ≡ name
    same h = cc

    differs : ◌≡◌ {A = Result TypeError (Option String)} (ok none) (ok (some name)) → ⊥
    differs h = cc

event_name-returns :
    (v : Value) (name : String) → event_name v ≡ ok (some name) → is_member name event_names ≡ true
unfolding event_name
event_name-returns null name e = cc
event_name-returns float_one name e = cc
event_name-returns unhashable name e = cc
event_name-returns other name e = cc
event_name-returns (boolean b) name e = cc
event_name-returns (integer n) name e = cc
event_name-returns (text t) name e = named_text t name e

timed_text :
    (calendar : Calendar) (s t : String)
    → safe_timestamp calendar (text s) ≡ some t
    → is_timestamp calendar t ≡ true
unfolding safe_timestamp
timed_text calendar s t e = elim (Bool-cases (is_timestamp calendar s)) [
  | inl m ↦
      ap (is_timestamp calendar)
        (sym (same (sym (on_true (is_timestamp calendar s) (some s) none m) ∙ e)))
      ∙ m
  | inr m ↦ absurd (differs (sym (on_false (is_timestamp calendar s) (some s) none m) ∙ e))
]
  where
    same : some s ≡ some t → s ≡ t
    same h = cc

    differs : ◌≡◌ {A = Option String} none (some t) → ⊥
    differs h = cc

safe_timestamp-returns :
    (calendar : Calendar) (v : Value) (t : String)
    → safe_timestamp calendar v ≡ some t
    → is_timestamp calendar t ≡ true
unfolding safe_timestamp
safe_timestamp-returns calendar null t e = cc
safe_timestamp-returns calendar float_one t e = cc
safe_timestamp-returns calendar unhashable t e = cc
safe_timestamp-returns calendar other t e = cc
safe_timestamp-returns calendar (boolean b) t e = cc
safe_timestamp-returns calendar (integer n) t e = cc
safe_timestamp-returns calendar (text s) t e = timed_text calendar s t e

unknown_outcome : is_member "unknown" outcomes ≡ true
unfolding is_member
unknown_outcome = refl

unknown_reason : is_member "unknown" reasons ≡ true
unfolding is_member
unknown_reason = refl

unknown_category : is_member "unknown" exception_categories ≡ true
unfolding is_member
unknown_category = refl

module _ (calendar : Calendar) where
  sanitized_fields-IsSafe :
      (value : Mapping) (timestamp event : String) (e : Entry)
      → is_timestamp calendar timestamp ≡ true
      → is_member event event_names ≡ true
      → sanitized_fields calendar value timestamp event ≡ ok (some e)
      → IsSafe calendar e
  unfolding sanitized_fields
  sanitized_fields-IsSafe value timestamp event e at_time is_event h =
      let (outcome, o, h1) = bind_returns (safe_choice (get "outcome" value) outcomes) _ h in
      let (reason, r, h2) = bind_returns (safe_choice (get "reason" value) reasons) _ h1 in
      let (category, c, h3) =
        bind_returns (safe_choice (get "exception_category" value) exception_categories) _ h2 in
      subst (IsSafe calendar) (some_injective (ok_injective h3)) (record {
        timestamp = at_time;
        event = is_event;
        attempt_id = safe_id-IsId (get "attempt_id" value);
        connection_id = safe_id-IsId (get "connection_id" value);
        generation = bounded_int-IsWithin max_generation (get "generation" value);
        outcome = safe_choice-IsChoice _ outcomes outcome unknown_outcome o;
        reason = safe_choice-IsChoice _ reasons reason unknown_reason r;
        exception_category =
            safe_choice-IsChoice _ exception_categories category unknown_category c;
        backoff_ms = bounded_int-IsWithin max_event_age_ms (get "backoff_ms" value);
        attempt_number = bounded_int-IsWithin max_attempt_number (get "attempt_number" value);
        connection_age_ms = bounded_int-IsWithin max_event_age_ms (get "connection_age_ms" value);
        last_send_age_ms = bounded_int-IsWithin max_event_age_ms (get "last_send_age_ms" value);
        last_receive_age_ms =
            bounded_int-IsWithin max_event_age_ms (get "last_receive_age_ms" value);
        close_code = bounded_int-IsWithin max_close_code (get "close_code" value);
      })

  sanitized_named-IsSafe :
      (value : Mapping) (timestamp : String) (name : Option String) (e : Entry)
      → is_timestamp calendar timestamp ≡ true
      → event_name (get "event" value) ≡ ok name
      → sanitized_named calendar value timestamp name ≡ ok (some e)
      → IsSafe calendar e
  unfolding sanitized_named
  sanitized_named-IsSafe value timestamp none e at_time n h = cc
  sanitized_named-IsSafe value timestamp (some event) e at_time n h =
      sanitized_fields-IsSafe value timestamp event e at_time
        (event_name-returns (get "event" value) event n) h

  sanitized_timed-IsSafe :
      (value : Mapping) (timestamp : Option String) (e : Entry)
      → safe_timestamp calendar (get "timestamp" value) ≡ timestamp
      → sanitized_timed calendar value timestamp ≡ ok (some e)
      → IsSafe calendar e
  unfolding sanitized_timed
  sanitized_timed-IsSafe value none e t h = cc
  sanitized_timed-IsSafe value (some timestamp) e t h =
      let (name, n, h1) = bind_returns (event_name (get "event" value)) _ h in
      sanitized_named-IsSafe value timestamp name e
        (safe_timestamp-returns calendar (get "timestamp" value) timestamp t) n h1

  -- Whatever mapping is sanitized, an event that is returned is safe: its time has the fixed format and is
  -- a date, its name and its outcome, reason and category are words of the closed vocabularies, its
  -- identifiers are sixteen hexadecimal digits, and its numbers are within their bounds.
  pub sanitize_connection_event-IsSafe :
      (value : Mapping) (e : Entry)
      → sanitize_connection_event calendar value ≡ ok (some e)
      → IsSafe calendar e
  unfolding sanitize_connection_event
  sanitize_connection_event-IsSafe value e h =
      elim (Bool-cases
        (only_keys event_keys value && is_schema_version (get "schema_version" value))) [
          | inl known ↦ sanitized_timed-IsSafe value _ e refl (
              sym (
                on_true
                  (only_keys event_keys value && is_schema_version (get "schema_version" value)) _
                  (ok none) known)
              ∙ h)
          | inr unknown ↦ absurd (
              differs (
                sym (
                  on_false
                    (only_keys event_keys value && is_schema_version (get "schema_version" value))
                    (sanitized_timed calendar value
                      (safe_timestamp calendar (get "timestamp" value)))
                    (ok none) unknown)
                ∙ h))
        ]
    where
      differs : ◌≡◌ {A = Result TypeError (Option Entry)} (ok none) (ok (some e)) → ⊥
      differs h = cc
