-- ===== src/LeaseRecovery/Tests.antt =====
-- The store at concrete events, and its theorems applied.
use Prim.Native.String.{String}
use mercury_relay_plugin.Prelude.{
  ◌≡◌, refl, ◌≤◌, ◌⊎◌, inl, true, false, [], ◌∷◌, some, none, ok, err, length, All, arith,
}
use mercury_relay_plugin.LeaseRecovery.{
  Event, Scope, Row, File, Store, Settings, writes, fails_after, write_failed, subagent, delegation,
  child_key, key_of, put, revoke, snapshot, max_snapshot_rows, is_terminal, is_terminal_status,
  identifier, lookup, delegated, or_else, named, find_row, key_eq, scope_eq, child_eq, filter,
  shrink, prune, fitted, write, save, added, restore, put_new, put_over,
}
use mercury_relay_plugin.LeaseRecovery.Bounds.{
  IsStore, IsFile, puts, revokes, snapshots, run, run-IsStore,
}
use mercury_relay_plugin.LeaseRecovery.Terminal.{IsIn, put-is_terminal}
use mercury_relay_plugin.LeaseRecovery.Revoked.{IsOther, revoke-IsOther}
use mercury_relay_plugin.LeaseRecovery.Shown.{IsShown, snapshot-IsShown}

abbrev test_settings : Settings
test_settings = record { max_rows = 2; ttl_seconds = 100; encoded_size = λ f. 1000 }

abbrev event_of : String → String → Event
event_of child status = record {
  session_id = "runtime";
  kind = "subagent.progress";
  payload = record { texts = ("subagent_id", child) ∷ ("status", status) ∷ []; numbers = [] };
  recovery_binding = record {
    runtime_session_id = "runtime";
    durable_session_id = "durable";
    profile = "default";
    live = true;
  };
  recovery_revision = 1;
}

abbrev phone : Scope
phone = record { installation = "home"; device = "phone/tab"; generation = 1 }

abbrev ended : Row
ended = record {
  key = record {
    scope = phone;
    profile = "default";
    durable_session_id = "durable";
    child = some (subagent "a");
  };
  expires_at = 150;
  event = event_of "a" "completed";
}

abbrev one_row : File
one_row = record { rows = ended ∷ []; revision = 1; truncated = false }

abbrev test_store : Store
test_store = record { memory = one_row; disk = one_row }

-- A child of a delegation is known by its place; the index is bounded.
places :
    child_key (record { texts = ("delegation_id", "d") ∷ []; numbers = ("task_index", 3) ∷ [] })
    ≡ some (delegation "d" 3)
unfolding child_key lookup identifier delegated or_else named
places = refl

has_no_place :
    child_key
      (record { texts = ("delegation_id", "d") ∷ []; numbers = ("task_index", 10_001) ∷ [] })
    ≡ none
unfolding child_key lookup identifier delegated or_else named
has_no_place = refl

-- A new child gets the next revision; of a write that fails nothing stays in memory.
puts_new :
    (put test_settings phone
      (record { first = 60; stored = 60; saved = 60 })
      writes
      (event_of "b" "running")
      test_store).0
    ≡ ok (2, event_of "b" "running")
unfolding put put_over put_new find_row added prune fitted shrink save write restore filter key_of
    key_eq scope_eq child_eq child_key lookup identifier delegated or_else named
puts_new = refl

restores :
    (put test_settings phone
      (record { first = 60; stored = 60; saved = 60 })
      fails_after
      (event_of "b" "running")
      test_store).1.memory
    ≡ one_row
unfolding put put_over put_new find_row added prune fitted shrink save write restore filter key_of
    key_eq scope_eq child_eq child_key lookup identifier delegated or_else named
restores = refl

one_row-IsFile : IsFile test_settings one_row
one_row-IsFile = record { bounded = omega arith; in_order = ((omega arith, omega arith), (tt, tt)) }

test_store-IsStore : IsStore test_settings test_store
test_store-IsStore = record {
  memory = one_row-IsFile;
  disk = one_row-IsFile;
  fits = inl (omega arith);
}

run-IsStore_example : IsStore test_settings (
    run test_settings
      (puts phone (record { first = 60; stored = 60; saved = 61 }) writes (event_of "b" "running")
        ∷ snapshots phone (λ p. true) 62
        ∷ revokes "home" "phone" 63 fails_after
        ∷ [])
      test_store)
run-IsStore_example =
    run-IsStore test_settings
      (puts phone (record { first = 60; stored = 60; saved = 61 }) writes (event_of "b" "running")
        ∷ snapshots phone (λ p. true) 62
        ∷ revokes "home" "phone" 63 fails_after
        ∷ [])
      test_store test_store-IsStore

same_key : ended.key ≡ key_of phone (event_of "a" "running")
unfolding key_of child_key lookup identifier delegated or_else named
same_key = refl

has_ended : is_terminal ended.event ≡ true
unfolding is_terminal is_terminal_status lookup
has_ended = refl

put-is_terminal_example :
    ((put test_settings phone
        (record { first = 60; stored = 60; saved = 60 })
        writes
        (event_of "a" "running")
        test_store).0
      ≡ ok (
        1,
        record (event_of "a" "running") { payload = ended.event.payload; kind = ended.event.kind },
      ))
    × ((put test_settings phone
          (record { first = 60; stored = 60; saved = 60 })
          writes
          (event_of "a" "running")
          test_store).1.disk
        ≡ one_row)
    × IsIn ended
        (put test_settings phone
          (record { first = 60; stored = 60; saved = 60 })
          writes
          (event_of "a" "running")
          test_store).1.memory.rows
put-is_terminal_example =
    put-is_terminal test_settings phone (record { first = 60; stored = 60; saved = 60 }) writes
      (event_of "a" "running") test_store ended one_row-IsFile (inl refl) (omega arith) has_ended
      same_key

revoke-IsOther_example :
    All
      (IsOther test_settings "home" "phone")
      (revoke test_settings "home" "phone" 60 writes test_store).1.memory.rows
    × ((((revoke test_settings "home" "phone" 60 writes test_store).0 ≡ ok tt)
          × All
              (IsOther test_settings "home" "phone")
              (revoke test_settings "home" "phone" 60 writes test_store).1.disk.rows)
        ⊎ ((revoke test_settings "home" "phone" 60 writes test_store).0 ≡ err write_failed))
revoke-IsOther_example = revoke-IsOther test_settings "home" "phone" 60 writes test_store

snapshot-IsShown_example :
    (length (snapshot test_settings phone (λ p. true) 60 test_store).0.0 ≤ max_snapshot_rows)
    × All
        (IsShown test_settings phone (λ p. true) test_store.memory.rows)
        (snapshot test_settings phone (λ p. true) 60 test_store).0.0
snapshot-IsShown_example = snapshot-IsShown test_settings phone (λ p. true) 60 test_store
