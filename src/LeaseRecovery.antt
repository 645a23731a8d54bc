-- ===== src/LeaseRecovery.antt =====
-- src/mercury_relay_plugin/lease_recovery.py: the store of the last known state of every child task.
-- A clock reading is whole seconds. `relay_event_id` prints `recovery_revision`, and the durable session
-- and the profile of an event repeat its binding, so these three are left out.
pub mod Keys
pub mod Bounds
pub mod Terminal
pub mod Revoked
pub mod Shown
mod Tests
use Prim.Native.String.{String, count}
use Prim.Native.String as Text
use text.Mathlib.Text.{starts_with}
use text.Mathlib.Text as Compare
use mercury_relay_plugin.Prelude.{
  ℕ, zero, suc, ◌+◌, ◌-◌, ◌*◌, Bool, true, false, not, ◌&&◌, ◌||◌, Option, none, some, List, [],
  ◌∷◌, ◌++◌, ltb, leb, ◌==◌, length, drop, Result, ok, err, if◌then◌else◌,
}

-- The key of a child: by its own identifier, by its session's, or by its place in a delegation. The
-- texts that the code builds of these tell them apart.
pub data Child : Type 0 where
  subagent child_session : String → Child
  delegation : String → ℕ → Child

pub record Payload : Type 0 where
  pub texts : List (String × String)
  pub numbers : List (String × ℕ)

pub record Binding : Type 0 where
  pub runtime_session_id : String
  pub durable_session_id : String
  pub profile : String
  pub live : Bool

pub record Event : Type 0 where
  pub session_id : String
  pub kind : String
  pub payload : Payload
  pub recovery_binding : Binding
  pub recovery_revision : ℕ

pub record Scope : Type 0 where
  pub installation : String
  pub device : String
  pub generation : ℕ

pub record Key : Type 0 where
  pub scope : Scope
  pub profile : String
  pub durable_session_id : String
  pub child : Option Child

pub record Row : Type 0 where
  pub key : Key
  pub expires_at : ℕ
  pub event : Event

pub record File : Type 0 where
  pub rows : List Row
  pub revision : ℕ
  pub truncated : Bool

-- The object and the file that it has written last.
pub record Store : Type 0 where
  pub memory : File
  pub disk : File

-- `encoded_size` is the length of the printed JSON.
pub record Settings : Type 0 where
  pub max_rows : ℕ
  pub ttl_seconds : ℕ
  pub encoded_size : File → ℕ

-- What `_atomic_write` does: it may raise before or after the file is replaced.
pub data Write : Type 0 where
  writes fails fails_after : Write

pub data StoreError : Type 0 where
  write_failed : StoreError

abbrev pub max_snapshot_rows : ℕ
max_snapshot_rows = 64

abbrev pub max_store_bytes : ℕ
max_store_bytes = 2 * 1024 * 1024

unfoldable pub lookup {ℓ} : {V : Type ℓ} → String → List (String × V) → Option V
lookup k [] = none
lookup k ((j, v) ∷ m) = if Compare.◌==◌ j k then some v else lookup k m

unfoldable pub assign {ℓ} : {V : Type ℓ} → String → V → List (String × V) → List (String × V)
assign k v [] = (k, v) ∷ []
assign k v ((j, w) ∷ m) = if Compare.◌==◌ j k then (j, v) ∷ m else (j, w) ∷ assign k v m

-- `payload.get("status") in TERMINAL`
unfoldable pub is_terminal_status : Option String → Bool
is_terminal_status none = false
is_terminal_status (some s) =
    Compare.◌==◌ s "completed"
    || Compare.◌==◌ s "failed"
    || Compare.◌==◌ s "cancelled"
    || Compare.◌==◌ s "interrupted"
    || Compare.◌==◌ s "error"
    || Compare.◌==◌ s "timeout"

unfoldable pub is_terminal : Event → Bool
unfolding lookup is_terminal_status
is_terminal e = is_terminal_status (lookup "status" e.payload.texts)

-- `identifier`
unfoldable pub identifier : Option String → Option String
identifier none = none
identifier (some s) = if leb 1 (count s) && leb (count s) 128 then some s else none

unfoldable pub delegated : Option String → Option ℕ → Option Child
delegated none index = none
delegated (some d) none = none
delegated (some d) (some n) = if leb n 10_000 then some (delegation d n) else none

unfoldable pub or_else {ℓ} : {A : Type ℓ} → Option A → Option A → Option A
or_else none other = other
or_else (some a) other = some a

unfoldable pub named : (String → Child) → Option String → Option Child
named tag none = none
named tag (some s) = some (tag s)

unfoldable pub child_key : Payload → Option Child
unfolding lookup identifier delegated or_else named
child_key p = or_else (named subagent (identifier (lookup "subagent_id" p.texts))) (
    or_else (named child_session (identifier (lookup "child_session_id" p.texts)))
      (delegated (identifier (lookup "delegation_id" p.texts)) (lookup "task_index" p.numbers)))

unfoldable pub child_eq : Option Child → Option Child → Bool
child_eq none none = true
child_eq (some (subagent a)) (some (subagent b)) = Compare.◌==◌ a b
child_eq (some (child_session a)) (some (child_session b)) = Compare.◌==◌ a b
child_eq (some (delegation a m)) (some (delegation b n)) = Compare.◌==◌ a b && m == n
child_eq a b = false

unfoldable pub scope_eq : Scope → Scope → Bool
scope_eq a b =
    Compare.◌==◌ a.installation b.installation
    && Compare.◌==◌ a.device b.device
    && a.generation == b.generation

unfoldable pub key_eq : Key → Key → Bool
key_eq a b =
    scope_eq a.scope b.scope
    && Compare.◌==◌ a.profile b.profile
    && Compare.◌==◌ a.durable_session_id b.durable_session_id
    && child_eq a.child b.child

unfoldable pub key_of : Scope → Event → Key
key_of scope e = record {
  scope = scope;
  profile = e.recovery_binding.profile;
  durable_session_id = e.recovery_binding.durable_session_id;
  child = child_key e.payload;
}

-- `[r for r in rows if test(r)]`
unfoldable pub filter : (Row → Bool) → List Row → List Row
filter test [] = []
filter test (r ∷ rows) = let rest = filter test rows in if test r then r ∷ rest else rest

-- `rows[-n:]`, for a positive `n`
abbrev pub newest {ℓ} : {A : Type ℓ} → ℕ → List A → List A
newest n rows = drop (length rows - n) rows

-- `next((r for r in self.rows if r["key"] == key), None)`
unfoldable pub find_row : Key → List Row → Option Row
find_row key [] = none
find_row key (r ∷ rows) = if key_eq r.key key then some r else find_row key rows

-- The loop of `_save` that pops the oldest row while the text is too long.
unfoldable pub shrink : (File → ℕ) → ℕ → Bool → List Row → File
shrink size revision truncated [] = record { rows = []; revision = revision; truncated = truncated }
shrink size revision truncated (r ∷ rows) =
    let rest = shrink size revision true rows in
    let whole : File = record { rows = r ∷ rows; revision = revision; truncated = truncated } in
    if ltb max_store_bytes (size whole) then rest else whole

module _ (settings : Settings) where
  unfoldable pub prune : ℕ → File → File
  prune now f =
      let kept = filter (λ r. ltb now r.expires_at) f.rows in
      record {
        rows = newest settings.max_rows kept;
        revision = f.revision;
        truncated =
            f.truncated
            || not (length kept == length f.rows)
            || ltb settings.max_rows (length kept);
      }

  -- What `_save` prints.
  unfoldable pub fitted : ℕ → File → File
  fitted now f = let p = prune now f in shrink settings.encoded_size p.revision p.truncated p.rows

  unfoldable pub write : Write → File → File → Result StoreError (Unit {0}) × Store
  write writes disk f = (ok tt, record { memory = f; disk = f })
  write fails disk f = (err write_failed, record { memory = f; disk = disk })
  write fails_after disk f = (err write_failed, record { memory = f; disk = f })

  -- `_save`, of the rows `f` over what is on disk.
  unfoldable pub save : ℕ → Write → File → File → Result StoreError (Unit {0}) × Store
  save now outcome disk f = write outcome disk (fitted now f)

  -- The event as it is stored: a copy with the new revision.
  unfoldable pub added : ℕ → Key → Event → File → File
  added now key event f = record {
    rows =
        filter (λ r. not (key_eq r.key key)) f.rows
        ++ (record {
          key = key;
          expires_at = now + settings.ttl_seconds;
          event = record event { recovery_revision = suc f.revision };
        }
            ∷ []);
    revision = suc f.revision;
    truncated = f.truncated;
  }

  -- The `try` around `_save`: what raises puts the old rows back.
  unfoldable pub restore :
      File → Event → Result StoreError (Unit {0}) × Store → Result StoreError (ℕ × Event) × Store
  restore before event (ok x, s) = (ok (s.memory.revision, event), s)
  restore before event (err e, s) = (err e, record { memory = before; disk = s.disk })

  -- The three readings of the clock in `put`.
  pub record Moments : Type 0 where
    pub first : ℕ
    pub stored : ℕ
    pub saved : ℕ

  unfoldable pub put_new :
      Key → Moments → Write → Event → Store → Result StoreError (ℕ × Event) × Store
  put_new key m outcome event s =
      restore s.memory event
        (save m.saved outcome s.disk (added m.stored key event (prune m.first s.memory)))

  -- The event that is handed back for terminal evidence, as `put` has changed it.
  unfoldable pub answered : Event → Event → Event
  answered prior event = record event { payload = prior.payload; kind = prior.kind }

  unfoldable pub put_over :
      Option Row → Key → Moments → Write → Event → Store → Result StoreError (ℕ × Event) × Store
  put_over none key m outcome event s = put_new key m outcome event s
  put_over (some prior) key m outcome event s =
      if is_terminal prior.event
      then (
        ok (prior.event.recovery_revision, answered prior.event event),
        record { memory = prune m.first s.memory; disk = s.disk },
      )
      else put_new key m outcome event s

  unfoldable pub put :
      Scope → Moments → Write → Event → Store → Result StoreError (ℕ × Event) × Store
  put scope m outcome event s =
      let key = key_of scope event in
      put_over (find_row key (prune m.first s.memory).rows) key m outcome event s

  -- Is the row of this device, under its own name or under one of its channels?
  unfoldable pub is_of_device : String → String → Row → Bool
  is_of_device installation device r =
      Compare.◌==◌ r.key.scope.installation installation
      && (Compare.◌==◌ r.key.scope.device device
          || starts_with r.key.scope.device (Text.◌++◌ device "/"))

  unfoldable pub revoke : String → String → ℕ → Write → Store → Result StoreError (Unit {0}) × Store
  revoke installation device now outcome s = save now outcome s.disk (record s.memory {
    rows = filter (λ r. not (is_of_device installation device r)) s.memory.rows;
  })

  -- An event as a later connection is shown it.
  unfoldable pub shown : Event → Event
  shown e =
      let stale : Event = record e {
        recovery_binding = record e.recovery_binding { live = false };
      } in
      if is_terminal e then stale else record stale {
        payload = record e.payload { texts = assign "status" "unknown" e.payload.texts };
      }

  unfoldable pub shown_rows : Scope → (String → Bool) → List Row → List Event
  shown_rows scope authorizer [] = []
  shown_rows scope authorizer (r ∷ rows) =
      let rest = shown_rows scope authorizer rows in
      if scope_eq r.key.scope scope && authorizer r.key.profile then shown r.event ∷ rest else rest

  unfoldable pub snapshot : Scope → (String → Bool) → ℕ → Store → (List Event × Bool) × Store
  snapshot scope authorizer now s =
      let p = prune now s.memory in
      let result = shown_rows scope authorizer p.rows in
      (
        (newest max_snapshot_rows result, p.truncated || ltb max_snapshot_rows (length result)),
        record { memory = p; disk = s.disk },
      )
