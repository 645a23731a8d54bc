-- ===== src/Authorization.antt =====
-- `class AuthorizationRepository` of src/mercury_relay_plugin/authorization.py. A method runs under
-- the transaction lock, so it is an action on the state that is on disk: it returns what the method
-- returns or raises, with the state on disk after it. The clock, the random bytes, the host identity
-- and the outcome of a write are in the `Env` of the call.
pub mod Records
pub mod Slots
pub mod Changes
pub mod Calls
pub mod Revocation
mod Compaction
pub mod Refusals
pub mod Withdrawal
pub mod Tests
use mercury_relay_plugin.Prelude.{
  ℕ, zero, suc, ◌+◌, ◌-◌, ◌^◌, Bool, true, false, not, ◌&&◌, ◌||◌, Option, none, some, List, [],
  ◌∷◌, ◌++◌, map, Bytes, bytes_eq, length, take, ltb, leb, ◌==◌, if◌then◌else◌, Result, ok, err,
  ◌/◌, ◌%◌,
}
use Records.{
  Text, Status, pending, authorized, revoked, denied, active, expired, consumed, OfferStatus,
  Device, Offer, State, Library, evidence_of, contains, client, is_active, is_pending,
  is_authorized_status, is_revoked, is_denied, active_count, texts_eq, b64url_exact,
  clean_device_text, validate_auth_state, raw_bytes, max_ttl_seconds, max_device_records,
  max_active_devices,
}
use Slots.{
  find_device, set_device, expired_devices, expire_devices, expire_pending_in_state,
  make_device_slot, key_digest,
}

pub data Error : Type 0 where
  invalid_pairing_ttl random_failed history_full pairing_rejected approval_rejected : Error
  state_invalid state_unavailable time_unavailable invalid_device_identifier : Error
  transition_rejected invalid_label invalid_pending_timeout invalid_offer_identifier : Error
  identity_unavailable : Error

-- `self.store.save(state)`: it may fail after the file was replaced, when the directory is synced.
pub data Write : Type 0 where
  written failed replaced_then_failed : Write

pub record Identity : Type 0 where
  pub installation_id : Bytes
  pub public_key : Bytes

-- `now` and `later` are the first and the second reading of `int(self._clock())`; `none` is an
-- exception or a negative value.
pub record Env : Type 0 where
  pub now : Option ℕ
  pub later : Option ℕ
  pub first_write : Write
  pub second_write : Write
  pub identifiers : List (Option Bytes)
  pub capability : Option Bytes
  pub identity : Option Identity

pub record DeviceSummary : Type 0 where
  pub device_id : Text
  pub status : Status
  pub fingerprint : Text
  pub created_at : ℕ
  pub updated_at : ℕ
  pub epoch : ℕ
  pub capabilities : List Text
  pub device_name : Text
  pub label : Text

pub record PairingOffer : Type 0 where
  pub offer_id : Text
  pub installation_id : Bytes
  pub host_public_key : Bytes
  pub expires_at : ℕ
  pub capability : Bytes

-- An action on the state on disk.
abbrev pub Tx : Type 0 → Type 0
Tx A = State → Result Error A × State

abbrev pub continue : {A B : Type 0} → Result Error A → (A → Tx B) → Tx B
continue (ok a) f disk = f a disk
continue (err e) f disk = (err e, disk)

unfoldable pub pure : {A : Type 0} → A → Tx A
pure a disk = (ok a, disk)

unfoldable pub raise : {A : Type 0} → Error → Tx A
raise e disk = (err e, disk)

unfoldable pub require : Bool → Error → Tx (Unit {0})
unfolding pure raise
require test e = if test then pure tt else raise e

unfoldable pub or_raise : {A : Type 0} → Option A → Error → Tx A
unfolding pure raise
or_raise none e = raise e
or_raise (some a) e = pure a

infixl 5 ◌>>=◌ ◌>>◌
unfoldable pub ◌>>=◌ : {A B : Type 0} → Tx A → (A → Tx B) → Tx B
unfolding pure raise require or_raise
◌>>=◌ m f disk = let (r, disk') = m disk in continue r f disk'

unfoldable pub ◌>>◌ : {B : Type 0} → Tx (Unit {0}) → Tx B → Tx B
unfolding ◌>>=◌
m >> k = m >>= λ _. k

-- `if x is None: … else: …`
unfoldable pub on_found : {A B : Type 0} → Option A → Tx B → (A → Tx B) → Tx B
on_found none k l = k
on_found (some a) k l = l a

-- The state on disk after a write of `s`.
abbrev pub write_outcome : Write → State → Tx (Unit {0})
write_outcome written s disk = (ok tt, s)
write_outcome failed s disk = (err state_unavailable, disk)
write_outcome replaced_then_failed s disk = (err state_unavailable, s)

-- A drawn identifier: whether it has its size, whether it is taken, and the tries that remain.
unfoldable pub try_identifier : Bool → Bool → Text → Tx Text → Tx Text
unfolding pure raise
try_identifier false taken id rest = raise random_failed
try_identifier true false id rest = pure id
try_identifier true true id rest = rest

abbrev pub is_empty : List Device → Bool
is_empty [] = true
is_empty (d ∷ ds) = false

hex_digit : ℕ → ℕ
hex_digit n = if ltb n 10 then n + b'0' else (n - 10) + b'a'

unfoldable pub hex : Bytes → Text
unfolding hex_digit
hex [] = []
hex (b ∷ bs) = hex_digit (b / 16) ∷ hex_digit (b % 16) ∷ hex bs

-- `digest.hex()[:16]`
abbrev pub fingerprint_of : Device → Text
fingerprint_of d = take 16 (hex d.channel_binding_digest)

abbrev pub text_or_empty : Option Text → Text
text_or_empty none = []
text_or_empty (some t) = t

-- `_summary`
unfoldable pub summary : Device → DeviceSummary
unfolding hex
summary d = record {
  device_id = d.device_id;
  status = d.status;
  fingerprint = fingerprint_of d;
  created_at = d.created_at;
  updated_at = d.updated_at;
  epoch = d.epoch;
  capabilities = d.capabilities;
  device_name = text_or_empty d.device_name;
  label = text_or_empty d.label;
}

-- `_now`, of one reading of the clock
unfoldable pub clock_now : Option ℕ → Tx ℕ
unfolding pure raise
clock_now none = raise time_unavailable
clock_now (some t) = if ltb (2 ^ 63 - 1) t then raise time_unavailable else pure t

abbrev pub load_identity : Env → Tx Identity
load_identity env = or_raise env.identity identity_unavailable

-- An active offer is superseded by a new one.
abbrev pub supersede : Option Offer → Option Offer
supersede none = none
supersede (some o) = elim o.status [ active ↦ some (record o { status = expired }) | _ ↦ some o ]

abbrev existing_offer_ids : Option Offer → List Text
existing_offer_ids none = [] ∷ []
existing_offer_ids (some o) = o.offer_id ∷ []

abbrev pub is_active_offer : Offer → Bool
is_active_offer o = elim o.status [ active ↦ true | _ ↦ false ]

abbrev pub usable : Offer → ℕ → Bool
usable o now = is_active_offer o && ltb now o.expires_at

unfoldable pub any_revoked : Bytes → List Device → Bool
any_revoked key [] = false
any_revoked key (d ∷ ds) =
    (is_revoked d.status && bytes_eq d.device_public_key key) || any_revoked key ds

unfoldable pub device_ids : List Device → List Text
device_ids [] = []
device_ids (d ∷ ds) = d.device_id ∷ device_ids ds

abbrev pub approved : Device → ℕ → Device
approved d now = record d { status = authorized; updated_at = now; capabilities = client ∷ [] }

abbrev pub denied_device : Device → ℕ → Device
denied_device d now = record d { status = denied; updated_at = now; epoch = d.epoch + 1 }

abbrev pub revoked_device : Device → ℕ → Device
revoked_device d now = record d {
  status = revoked;
  updated_at = now;
  epoch = d.epoch + 1;
  capabilities = [];
}

module _ (lib : Library) where
  -- `_load_state_unlocked`
  unfoldable pub load_state : Tx State
  load_state disk =
      if validate_auth_state lib disk then (ok disk, disk) else (err state_invalid, disk)

  -- `_save_state_unlocked`
  unfoldable pub save_state : Write → State → Tx (Unit {0})
  save_state outcome s disk =
      if validate_auth_state lib s
      then write_outcome outcome s disk
      else (err state_unavailable, disk)

  -- `_new_identifier(16, existing)`: the tries that are left, with what the random source gives.
  unfoldable pub new_identifier : ℕ → List (Option Bytes) → List Text → Tx Text
  unfolding contains try_identifier
  new_identifier zero random existing = raise random_failed
  new_identifier (suc tries) [] existing = raise random_failed
  new_identifier (suc tries) (none ∷ random) existing = raise random_failed
  new_identifier (suc tries) (some bytes ∷ random) existing =
      let rest = new_identifier tries random existing in
      try_identifier (length bytes == 16) (contains (lib.b64url_encode bytes) existing)
        (lib.b64url_encode bytes) rest

  -- `_random_bytes(RAW_BYTES)`
  unfoldable pub random_capability : Option Bytes → Tx Bytes
  unfolding pure raise
  random_capability none = raise random_failed
  random_capability (some bytes) =
      if length bytes == raw_bytes then pure bytes else raise random_failed

  unfoldable pub create_offer : Env → ℕ → Tx PairingOffer
  create_offer env ttl_seconds = do
    require (ltb 0 ttl_seconds && leb ttl_seconds max_ttl_seconds) invalid_pairing_ttl
    _ ← load_state
    identity ← load_identity env
    state ← load_state
    now ← clock_now env.now
    let aged = expire_pending_in_state now max_ttl_seconds state
    let replaced = record aged { pairing_offer = supersede aged.pairing_offer }
    let room = make_device_slot lib replaced
    require (ltb (length room.devices) max_device_records) history_full
    offer_id ← new_identifier 8 env.identifiers (existing_offer_ids room.pairing_offer)
    capability ← random_capability env.capability
    let offer : Offer = record {
      offer_id = offer_id;
      capability_digest = lib.sha256 capability;
      installation_id = identity.installation_id;
      host_public_key = identity.public_key;
      created_at = now;
      expires_at = now + ttl_seconds;
      status = active;
      consumed_at = 0;
    }
    save_state env.first_write (record room { pairing_offer = some offer })
    pure (record {
      offer_id = offer_id;
      installation_id = identity.installation_id;
      host_public_key = identity.public_key;
      expires_at = now + ttl_seconds;
      capability = capability;
    })

  -- The offer answers to this capability and to this host.
  abbrev pub offer_matches : Offer → Identity → Bytes → Bool
  offer_matches o identity capability =
      bytes_eq (lib.sha256 capability) o.capability_digest
      && (bytes_eq identity.installation_id o.installation_id
          && bytes_eq identity.public_key o.host_public_key)

  -- `revoked_key` of `consume_offer`
  unfoldable pub revoked_key : Bytes → State → Bool
  unfolding contains any_revoked
  revoked_key key s = contains (lib.sha256 key) (evidence_of s) || any_revoked key s.devices

  -- An offer that ran out is marked before the rejection.
  unfoldable pub reject_offer : Env → State → Offer → ℕ → Tx DeviceSummary
  reject_offer env state o now =
      if is_active_offer o && leb o.expires_at now
      then (do
        save_state env.first_write
            (record state { pairing_offer = some (record o { status = expired }) })
        raise pairing_rejected)
      else raise pairing_rejected

  abbrev pub new_device : Text → Bytes → Bytes → ℕ → Device
  new_device device_id public_key binding now = record {
    device_id = device_id;
    device_public_key = public_key;
    channel_binding_digest = lib.sha256 binding;
    status = pending;
    created_at = now;
    updated_at = now;
    epoch = 0;
    capabilities = [];
    device_name = none;
    label = none;
  }

  -- `consume_offer` from the point where the offer has been found usable.
  unfoldable pub admit_device : Env → State → Offer → Bytes → Bytes → ℕ → Tx DeviceSummary
  admit_device env state o public_key binding now = do
    let room = make_device_slot lib (expire_pending_in_state now max_ttl_seconds state)
    require
        (not (
          leb max_active_devices (active_count room.devices)
          || (revoked_key public_key room || leb max_device_records (length room.devices))))
        pairing_rejected
    device_id ← new_identifier 8 env.identifiers (device_ids room.devices)
    let device = new_device device_id public_key binding now
    save_state env.first_write (record room {
      pairing_offer = some (record o { status = consumed; consumed_at = now });
      devices = room.devices ++ device ∷ [];
    })
    pure (summary device)

  unfoldable pub consume_offer : Env → Bytes → Bytes → Bytes → Tx DeviceSummary
  consume_offer env capability public_key binding = do
    require
        ((length capability == raw_bytes)
          && ((length public_key == raw_bytes) && (length binding == raw_bytes)))
        pairing_rejected
    _ ← load_state
    identity ← load_identity env
    state ← load_state
    o ← or_raise state.pairing_offer pairing_rejected
    now ← clock_now env.now
    if offer_matches o identity capability && usable o now
        then admit_device env state o public_key binding now
        else reject_offer env state o now

  -- `if self._expire_pending_in_state(state, …): self._save_state_unlocked(state)`
  unfoldable pub expire_and_save : Write → ℕ → State → Tx State
  expire_and_save outcome now state =
      if is_empty (expired_devices now max_ttl_seconds state.devices) then pure state else (do
        save_state outcome (expire_pending_in_state now max_ttl_seconds state)
        pure (expire_pending_in_state now max_ttl_seconds state))

  -- `updated` takes the place of the record, and the state is saved.
  unfoldable pub store_device : Write → State → Device → Tx DeviceSummary
  store_device outcome state updated = do
    save_state outcome
        (record state { devices = set_device updated.device_id updated state.devices })
    pure (summary updated)

  -- `approve` from the look-up of the record on.
  unfoldable pub finish_approval : Env → Text → Bytes → State → Tx DeviceSummary
  finish_approval env device_id digest state = do
    d ← or_raise (find_device device_id state.devices) approval_rejected
    require (bytes_eq digest d.channel_binding_digest && is_active d.status) approval_rejected
    if is_authorized_status d.status then pure (summary d) else (do
      later ← clock_now env.later
      store_device env.second_write state (approved d later))

  unfoldable pub approve : Env → Text → Bytes → Tx DeviceSummary
  approve env device_id digest = do
    require (b64url_exact lib 16 device_id && (length digest == raw_bytes)) approval_rejected
    loaded ← load_state
    now ← clock_now env.now
    state ← expire_and_save env.first_write now loaded
    finish_approval env device_id digest state

  -- `approve_confirmed` from the look-up of the record on.
  unfoldable pub finish_confirmation : Env → Text → Text → State → Tx DeviceSummary
  finish_confirmation env device_id confirmed_fingerprint state = do
    d ← or_raise (find_device device_id state.devices) approval_rejected
    require (bytes_eq confirmed_fingerprint (fingerprint_of d)) approval_rejected
    if is_authorized_status d.status then pure (summary d) else (do
      require (is_pending d.status) approval_rejected
      later ← clock_now env.later
      store_device env.second_write state (approved d later))

  unfoldable pub approve_confirmed : Env → Text → Text → Tx DeviceSummary
  approve_confirmed env device_id confirmed_fingerprint = do
    require (b64url_exact lib 16 device_id) approval_rejected
    loaded ← load_state
    now ← clock_now env.now
    state ← expire_and_save env.first_write now loaded
    finish_confirmation env device_id confirmed_fingerprint state

  unfoldable pub set_label : Env → Text → Text → Tx (Option DeviceSummary)
  set_label env device_id label = do
    require (b64url_exact lib 16 device_id) invalid_device_identifier
    cleaned ←
        or_raise (if bytes_eq label [] then some [] else clean_device_text lib label) invalid_label
    state ← load_state
    on_found (find_device device_id state.devices) (pure none) (λ d. do
      s ← store_device env.first_write state (record d { label = some cleaned })
      pure (some s))

  -- The part of `note_device_name` under the lock.
  unfoldable pub name_device : Env → Text → Bytes → Text → Tx Bool
  name_device env device_id public_key cleaned = do
    state ← load_state
    on_found (find_device device_id state.devices) (pure false) (λ d.
        if not (is_active d.status && bytes_eq d.device_public_key public_key)
        then pure false
        else if bytes_eq (text_or_empty d.device_name) cleaned
        then pure true
        else (do
          _ ← store_device env.first_write state (record d { device_name = some cleaned })
          pure true))

  unfoldable pub note_device_name : Env → Text → Bytes → Text → Tx Bool
  note_device_name env device_id public_key name =
      on_found (clean_device_text lib name) (pure false) (λ cleaned.
        if b64url_exact lib 16 device_id && (length public_key == raw_bytes)
        then name_device env device_id public_key cleaned
        else pure false)

  unfoldable pub deny : Env → Text → Tx (Option DeviceSummary)
  deny env device_id = do
    require (b64url_exact lib 16 device_id) invalid_device_identifier
    state ← load_state
    on_found (find_device device_id state.devices) (pure none) (λ d.
        if is_denied d.status then pure (some (summary d)) else (do
          require (is_pending d.status) transition_rejected
          now ← clock_now env.now
          s ← store_device env.first_write state (denied_device d now)
          pure (some s)))

  unfoldable pub expire_pending : Env → ℕ → Tx (List DeviceSummary)
  expire_pending env max_age = do
    require (ltb 0 max_age && leb max_age max_ttl_seconds) invalid_pending_timeout
    state ← load_state
    now ← clock_now env.now
    let changed = expired_devices now max_age state.devices
    if is_empty changed then pure [] else (do
      save_state env.first_write (expire_pending_in_state now max_age state)
      pure (map summary changed))

  unfoldable pub revoke : Env → Text → Tx (Option DeviceSummary)
  revoke env device_id = do
    require (b64url_exact lib 16 device_id) invalid_device_identifier
    state ← load_state
    on_found (find_device device_id state.devices) (pure none) (λ d.
        if is_revoked d.status then pure (some (summary d)) else (do
          now ← clock_now env.now
          s ← store_device env.first_write state (revoked_device d now)
          pure (some s)))

  unfoldable pub is_authorized : Text → Bytes → Tx Bool
  is_authorized device_id public_key =
      if b64url_exact lib 16 device_id && (length public_key == raw_bytes)
      then (do
        state ← load_state
        on_found (find_device device_id state.devices) (pure false) (λ d. pure (
            is_authorized_status d.status
            && (texts_eq d.capabilities (client ∷ []) && bytes_eq d.device_public_key public_key))))
      else pure false

  unfoldable pub list_devices : Env → Tx (List DeviceSummary)
  list_devices env = do
    loaded ← load_state
    now ← clock_now env.now
    state ← expire_and_save env.first_write now loaded
    pure (map summary state.devices)

  unfoldable pub cancel_offer : Env → Text → Tx Bool
  cancel_offer env offer_id = do
    require (b64url_exact lib 16 offer_id) invalid_offer_identifier
    state ← load_state
    on_found state.pairing_offer (pure false) (λ o.
        if not (bytes_eq o.offer_id offer_id && is_active_offer o) then pure false else (do
          save_state env.first_write
              (record state { pairing_offer = some (record o { status = expired }) })
          pure true))

  -- `offer_status`: the offer with the status that it reports.
  unfoldable pub offer_status : Env → Tx (Option Offer)
  offer_status env = do
    state ← load_state
    on_found state.pairing_offer (pure none) (λ o.
        if is_active_offer o
        then (do
          now ← clock_now env.now
          pure (some (if leb o.expires_at now then record o { status = expired } else o)))
        else pure (some o))

-- What a run of a method computes with.
unfoldable pub runs : Unit {0}
unfolding ◌>>◌ on_found load_state save_state clock_now new_identifier random_capability
    reject_offer admit_device expire_and_save store_device name_device finish_approval
    finish_confirmation b64url_exact clean_device_text texts_eq validate_auth_state
    expire_pending_in_state expired_devices expire_devices make_device_slot find_device set_device
    revoked_key device_ids any_revoked active_count summary
runs = tt
