-- ===== src/SessionLease/Manager.antt =====
-- src/mercury_relay_plugin/session_lease.py: the registry of the leases, `SessionLeaseManager`.
-- A lease is what the registry reads of it. Releasing is two steps: the fence, and the end of the
-- cleanup, which succeeds or fails.
pub mod Registry
mod Tests
use mercury_relay_plugin.Prelude.{
  ℕ, ◌+◌, Bool, true, false, not, ◌&&◌, ◌||◌, Option, none, some, List, [], ◌∷◌, Bytes, bytes_eq,
  length, leb, Result, ok, err, if◌then◌else◌,
}

pub data Error : Type 0 where
  manager_closed device_already_leased lease_limit_reached : Error

pub record Lease : Type 0 where
  pub device_id : Bytes
  pub channel : Bytes
  pub released : Bool
  pub release_succeeded : Bool

-- `leases` is the dictionary; a lease stands under its own device and channel.
pub record Manager : Type 0 where
  pub max_leases : ℕ
  pub leases : List Lease
  pub closed : Bool

unfoldable pub has_key : Bytes → Bytes → Lease → Bool
has_key device channel l = bytes_eq l.device_id device && bytes_eq l.channel channel

unfoldable pub find : Bytes → Bytes → List Lease → Option Lease
find device channel [] = none
find device channel (l ∷ ls) =
    let later = find device channel ls in if has_key device channel l then some l else later

-- `del self._leases[key]`
unfoldable pub delete : Bytes → Bytes → List Lease → List Lease
delete device channel [] = []
delete device channel (l ∷ ls) =
    let later = delete device channel ls in if has_key device channel l then ls else l ∷ later

-- `active_count`
unfoldable pub active_count : List Lease → ℕ
active_count [] = 0
active_count (l ∷ ls) = (if l.release_succeeded then 0 else 1) + active_count ls

unfoldable pub get : Manager → Bytes → Bytes → Option Lease × Manager
get m device channel = elim (find device channel m.leases) [
  | none ↦ (none, m)
  | some l ↦
      if l.release_succeeded
      then (none, record m { leases = delete device channel m.leases })
      else (some l, m)
]

unfoldable pub leases_for : Bytes → List Lease → List Lease
leases_for device [] = []
leases_for device (l ∷ ls) =
    let rest = leases_for device ls in
    if bytes_eq l.device_id device && not l.release_succeeded then l ∷ rest else rest

-- The leases that are still owned.
unfoldable pub owned : List Lease → List Lease
owned [] = []
owned (l ∷ ls) = let rest = owned ls in if l.release_succeeded then rest else l ∷ rest

-- `self._leases[key] = lease`
unfoldable pub put : Lease → List Lease → List Lease
put lease [] = lease ∷ []
put lease (l ∷ ls) =
    let rest = put lease ls in
    if has_key lease.device_id lease.channel l then lease ∷ ls else l ∷ rest

-- `register` once the key was found free
unfoldable pub register_free : Manager → Lease → Result Error (Unit {0}) × Manager
register_free m lease =
    let n = record m { leases = owned m.leases } in
    if leb n.max_leases (length n.leases)
    then (err lease_limit_reached, n)
    else (ok tt, record n { leases = put lease n.leases })

unfoldable pub register : Manager → Lease → Result Error (Unit {0}) × Manager
register m lease =
    if m.closed then (err manager_closed, m) else elim (get m lease.device_id lease.channel).0 [
      | some l ↦ (err device_already_leased, (get m lease.device_id lease.channel).1)
      | none ↦ register_free (get m lease.device_id lease.channel).1 lease
    ]

-- The fence of `SessionLease.release`, on the leases that `which` picks.
unfoldable pub fence : (Lease → Bool) → List Lease → List Lease
fence which [] = []
fence which (l ∷ ls) = (if which l then record l { released = true } else l) ∷ fence which ls

-- The end of `_finish_release`: cleanup that failed leaves the lease owned.
unfoldable pub finish : Bytes → Bytes → Bool → List Lease → List Lease
finish device channel succeeded [] = []
finish device channel succeeded (l ∷ ls) =
    (if has_key device channel l && l.released
      then record l { release_succeeded = l.release_succeeded || succeeded }
      else l)
    ∷ finish device channel succeeded ls

pub data Step : Type 0 where
  gets registers_lease releases : Bytes → Bytes → Step
  releases_device : Bytes → Step
  finishes : Bytes → Bytes → Bool → Step
  closes : Step

abbrev pub new_lease : Bytes → Bytes → Lease
new_lease device channel = record {
  device_id = device;
  channel = channel;
  released = false;
  release_succeeded = false;
}

-- `release_lease`, `release_device` and `close` up to the wait for the cleanup
unfoldable pub step : Manager → Step → Manager
step m (gets device channel) = (get m device channel).1
step m (registers_lease device channel) = (register m (new_lease device channel)).1
step m (releases device channel) =
    let n = (get m device channel).1 in
    record n { leases = fence (has_key device channel) n.leases }
step m (releases_device device) = record m {
  leases = fence (λ l. bytes_eq l.device_id device && not l.release_succeeded) m.leases;
}
step m (finishes device channel succeeded) = record m {
  leases = finish device channel succeeded m.leases;
}
step m closes = record m { closed = true; leases = fence (λ l. true) m.leases }

unfoldable pub run : Manager → List Step → Manager
run m [] = m
run m (s ∷ steps) = run (step m s) steps
