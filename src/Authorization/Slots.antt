-- ===== src/Authorization/Slots.antt =====
-- The bounded device history of authorization.py: time-outs of pending records, and compaction.
use mercury_relay_plugin.Prelude.{
  ℕ, ◌+◌, Bool, true, false, ◌&&◌, ◌||◌, Option, none, some, List, [], ◌∷◌, ◌++◌, Bytes, bytes_eq,
  length, ltb, leb, ◌==◌, if◌then◌else◌,
}
use mercury_relay_plugin.Authorization.Records.{
  Text, Status, pending, authorized, revoked, denied, Device, State, Library, evidence_of, contains,
  texts_eq, is_pending, is_denied, is_revoked, max_device_records, max_revoked_key_digests,
}

-- The first record with the id. Ids are unique in a valid state.
unfoldable pub find_device : Text → List Device → Option Device
find_device id [] = none
find_device id (d ∷ ds) = if bytes_eq d.device_id id then some d else find_device id ds

-- `state["devices"][index] = updated`, at the first record with the id.
unfoldable pub set_device : Text → Device → List Device → List Device
set_device id updated [] = []
set_device id updated (d ∷ ds) =
    if bytes_eq d.device_id id then updated ∷ ds else d ∷ set_device id updated ds

abbrev optional_eq : Option Text → Option Text → Bool
optional_eq none none = true
optional_eq (some a) (some b) = bytes_eq a b
optional_eq _ _ = false

abbrev status_eq : Status → Status → Bool
status_eq pending pending = true
status_eq authorized authorized = true
status_eq revoked revoked = true
status_eq denied denied = true
status_eq _ _ = false

-- Equality of two records, as of two dictionaries.
unfoldable pub device_eq : Device → Device → Bool
unfolding texts_eq
device_eq a b =
    status_eq a.status b.status
    && (bytes_eq a.device_public_key b.device_public_key
        && (bytes_eq a.device_id b.device_id
            && (bytes_eq a.channel_binding_digest b.channel_binding_digest
                && ((a.created_at == b.created_at)
                    && ((a.updated_at == b.updated_at)
                        && ((a.epoch == b.epoch)
                            && (texts_eq a.capabilities b.capabilities
                                && (optional_eq a.device_name b.device_name
                                    && optional_eq a.label b.label))))))))

-- `state["devices"].remove(record)`
unfoldable pub remove_device : Device → List Device → List Device
unfolding device_eq
remove_device r [] = []
remove_device r (d ∷ ds) = if device_eq d r then ds else d ∷ remove_device r ds

-- Whether a pending record has timed out: `now - created_at >= max_age`.
abbrev pub is_stale : ℕ → ℕ → Device → Bool
is_stale now max_age d = is_pending d.status && leb (d.created_at + max_age) now

abbrev pub expire_device : ℕ → Device → Device
expire_device now d = record d { status = denied; updated_at = now; epoch = d.epoch + 1 }

unfoldable pub expire_devices : ℕ → ℕ → List Device → List Device
expire_devices now max_age [] = []
expire_devices now max_age (d ∷ ds) =
    (if is_stale now max_age d then expire_device now d else d) ∷ expire_devices now max_age ds

-- The records that `_expire_pending_in_state` changed, as they are now.
unfoldable pub expired_devices : ℕ → ℕ → List Device → List Device
expired_devices now max_age [] = []
expired_devices now max_age (d ∷ ds) =
    let rest = expired_devices now max_age ds in
    if is_stale now max_age d then expire_device now d ∷ rest else rest

-- `_expire_pending_in_state`
unfoldable pub expire_pending_in_state : ℕ → ℕ → State → State
expire_pending_in_state now max_age s = record s { devices = expire_devices now max_age s.devices }

unfoldable pub text_leb : Text → Text → Bool
text_leb [] ys = true
text_leb (x ∷ xs) [] = false
text_leb (x ∷ xs) (y ∷ ys) = ltb x y || ((x == y) && text_leb xs ys)

abbrev rank : Device → ℕ
rank d = if is_denied d.status then 0 else 1

-- The order of the sort key `(status != "denied", updated_at, device_id)`.
unfoldable pub before : Device → Device → Bool
unfolding text_leb
before a b =
    ltb (rank a) (rank b)
    || ((rank a == rank b)
        && (ltb a.updated_at b.updated_at
            || ((a.updated_at == b.updated_at) && text_leb a.device_id b.device_id)))

unfoldable pub insert_candidate : Device → List Device → List Device
unfolding before
insert_candidate a [] = a ∷ []
insert_candidate a (b ∷ bs) = if before a b then a ∷ b ∷ bs else b ∷ insert_candidate a bs

-- `sorted(item for item in devices if status in {"denied", "revoked"})`
unfoldable pub candidates : List Device → List Device
candidates [] = []
candidates (d ∷ ds) =
    let rest = candidates ds in
    if is_denied d.status || is_revoked d.status then insert_candidate d rest else rest

module _ (lib : Library) where
  abbrev pub key_digest : Device → Bytes
  key_digest d = lib.sha256 d.device_public_key

  abbrev pub drop_record : Device → State → State
  drop_record d s = record s { devices = remove_device d s.devices }

  -- One round of the loop; `none` is its `continue`, with the state unchanged.
  unfoldable pub compact : Device → State → Option State
  compact d s =
      if is_revoked d.status
      then if contains (key_digest d) (evidence_of s)
        then some (record (drop_record d s) {
          revoked_key_digests = some (evidence_of s);
          schema_version = 2;
        })
        else if leb max_revoked_key_digests (length (evidence_of s))
        then none
        else some (record (drop_record d s) {
          revoked_key_digests = some (evidence_of s ++ key_digest d ∷ []);
          schema_version = 2;
        })
      else some (drop_record d s)

  unfoldable pub compact_loop : List Device → State → State
  compact_loop [] s = s
  compact_loop (d ∷ ds) s = elim (compact d s) [
    | none ↦ compact_loop ds s
    | some next ↦ elim (ltb (length next.devices) max_device_records) [
      | true ↦ next
      | false ↦ compact_loop ds next
    ]
  ]

  -- `_make_device_slot`
  unfoldable pub make_device_slot : State → State
  make_device_slot s =
      if ltb (length s.devices) max_device_records then s else compact_loop (candidates s.devices) s
