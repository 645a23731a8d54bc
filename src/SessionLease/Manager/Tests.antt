-- ===== src/SessionLease/Manager/Tests.antt =====
-- The registry at concrete inputs: the theorem applied, and a run of the code.
use mercury_relay_plugin.Prelude.{
  ◌≡◌, refl, arith, true, false, List, [], ◌∷◌, Bytes, bytes_eq, err,
}
use mercury_relay_plugin.SessionLease.Manager.{
  Manager, Step, new_lease, registers_lease, releases, finishes, run, register, register_free, get,
  find, owned, put, has_key, step, fence, finish, device_already_leased,
}
use mercury_relay_plugin.SessionLease.Manager.Registry.{IsRegistry, run-IsRegistry}

abbrev phone : Bytes
phone = b'p' ∷ []

abbrev tablet : Bytes
tablet = b't' ∷ []

abbrev empty : Manager
empty = record { max_leases = 1; leases = []; closed = false }

abbrev reconnects : List Step
reconnects =
    registers_lease phone []
    ∷ registers_lease tablet []
    ∷ releases phone []
    ∷ finishes phone [] true
    ∷ registers_lease tablet []
    ∷ []

empty-IsRegistry : IsRegistry empty
empty-IsRegistry = record { distinct = tt; bounded = omega arith }

run-IsRegistry_example : IsRegistry (run empty reconnects)
run-IsRegistry_example = run-IsRegistry empty reconnects empty-IsRegistry

-- The released lease gave its place to the tablet.
tablet_takes_place : (run empty reconnects).leases ≡ new_lease tablet [] ∷ []
unfolding run step register register_free get find owned put has_key fence finish bytes_eq
tablet_takes_place = refl

second_lease : (register (run empty reconnects) (new_lease tablet [])).0 ≡ err device_already_leased
unfolding run step register register_free get find owned put has_key fence finish bytes_eq
second_lease = refl
