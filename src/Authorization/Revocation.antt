-- ===== src/Authorization/Revocation.antt =====
-- The evidence of revoked keys in authorization.py along the calls and the compaction.
use mercury_relay_plugin.Prelude.{
  ℕ, ◌≡◌, refl, ◌⊎◌, inl, inr, Bool, true, false, some, List, [], ◌∷◌, ◌++◌, arith, Bytes,
  bytes_eq→eq, bytes_eq_refl, length, Bool-cases, Option-cases, ltb,
}
use mercury_relay_plugin.Authorization.Records.{
  Text, Device, State, Library, contains, is_revoked, evidence_of,
}
use mercury_relay_plugin.Authorization.Slots.{
  find_device, set_device, remove_device, device_eq, expire_devices, expire_pending_in_state,
  compact, compact_loop, make_device_slot, candidates, key_digest,
}
use mercury_relay_plugin.Authorization.{any_revoked, revoked_key}
use mercury_relay_plugin.Authorization.Changes.{
  Moves, Change, Changes, here, next, end_offer, make_offer, forget_denied, forget_revoked, age,
  enrol, replace, relabel, authorize, refuse, withdraw,
}

pub contains-append :
    (x y : Bytes) (ys : List Bytes) → contains x ys ≡ true → contains x (ys ++ y ∷ []) ≡ true
unfolding contains
contains-append x y [] h = cc
contains-append x y (z ∷ zs) h = ground (arith, contains-append x y zs)

pub contains-append_last : (x : Bytes) (ys : List Bytes) → contains x (ys ++ x ∷ []) ≡ true
unfolding contains
contains-append_last x [] = ground (arith, bytes_eq_refl x)
contains-append_last x (z ∷ zs) = ground (arith, contains-append_last x zs)

any_revoked-expire :
    (now limit : ℕ) (key : Bytes) (ds : List Device)
    → any_revoked key (expire_devices now limit ds) ≡ any_revoked key ds
unfolding any_revoked expire_devices
any_revoked-expire now limit key [] = refl
any_revoked-expire now limit key (d ∷ ds) = ground (arith, any_revoked-expire now limit key ds)

any_revoked-append :
    (key : Bytes) (ds : List Device) (d : Device)
    → any_revoked key ds ≡ true
    → any_revoked key (ds ++ d ∷ []) ≡ true
unfolding any_revoked
any_revoked-append key [] d h = cc
any_revoked-append key (x ∷ ds) d h = ground (arith, any_revoked-append key ds d)

device_eq-same :
    (d r : Device)
    → device_eq d r ≡ true
    → (is_revoked d.status ≡ is_revoked r.status) × (d.device_public_key ≡ r.device_public_key)
unfolding device_eq
device_eq-same d r h = ground (arith, bytes_eq→eq d.device_public_key r.device_public_key)

-- A record that is taken out held the key, revoked, or the key is still there.
any_revoked-remove :
    (key : Bytes) (r : Device) (ds : List Device)
    → any_revoked key ds ≡ true
    → ((is_revoked r.status ≡ true) × (r.device_public_key ≡ key))
      ⊎ (any_revoked key (remove_device r ds) ≡ true)
unfolding any_revoked remove_device
any_revoked-remove key r [] h = cc
any_revoked-remove key r (d ∷ ds) h = elim (Bool-cases (device_eq d r)) [
  | inl same ↦
      rw same (ground (arith, device_eq-same d r same, bytes_eq→eq d.device_public_key key))
  | inr other ↦ rw other (ground (arith, any_revoked-remove key r ds))
]

module _ (lib : Library) (key : Bytes) where
  compact-revoked_key :
      (r : Device) (s t : State)
      → revoked_key lib key s ≡ true
      → compact lib r s ≡ some t
      → revoked_key lib key t ≡ true
  unfolding compact revoked_key
  compact-revoked_key r s t h e = ground (
    arith,
    any_revoked-remove key r s.devices,
    contains-append (lib.sha256 key) (key_digest lib r) (evidence_of s),
    contains-append_last (lib.sha256 key) (evidence_of s),
  )

  slot_cases :
      (free : Bool) (t : State) (rs : List Device)
      → revoked_key lib key t ≡ true
      → revoked_key lib key (compact_loop lib rs t) ≡ true
      → revoked_key lib key (elim free [ true ↦ t | false ↦ compact_loop lib rs t ]) ≡ true
  slot_cases true t rs h g = h
  slot_cases false t rs h g = g

  compact_loop-revoked_key :
      (rs : List Device) (s : State)
      → revoked_key lib key s ≡ true
      → revoked_key lib key (compact_loop lib rs s) ≡ true
  unfolding compact_loop
  compact_loop-revoked_key [] s h = h
  compact_loop-revoked_key (r ∷ rs) s h = elim (Option-cases (compact lib r s)) [
    | inl e ↦ rw (e, compact_loop) (compact_loop-revoked_key rs s h)
    | inr (t, e) ↦
        let kept = compact-revoked_key r s t h e in
        rw (e, compact_loop)
          (slot_cases (ltb (length t.devices) 16) t rs kept (compact_loop-revoked_key rs t kept))
  ]

  Moves-revoked :
      (id : Text) (d u : Device) (ds : List Device)
      → find_device id ds ≡ some d
      → u.device_public_key ≡ d.device_public_key
      → (is_revoked d.status ≡ true → is_revoked u.status ≡ true)
      → any_revoked key ds ≡ true
      → any_revoked key (set_device id u ds) ≡ true
  unfolding find_device any_revoked set_device
  Moves-revoked id d u [] f k m h = cc
  Moves-revoked id d u (x ∷ xs) f k m h = ground (arith, Moves-revoked id d u xs, m)

  Moves-keeps : (d u : Device) → Moves d u → is_revoked d.status ≡ true → is_revoked u.status ≡ true
  Moves-keeps d u (relabel s e) h = rw s h
  Moves-keeps d u (authorize p s e) h = ground arith
  Moves-keeps d u (refuse p s e) h = ground arith
  Moves-keeps d u (withdraw p s e) h = ground arith

  pub make_device_slot-revoked_key :
      (s : State)
      → revoked_key lib key s ≡ true
      → revoked_key lib key (make_device_slot lib s) ≡ true
  unfolding make_device_slot
  make_device_slot-revoked_key s h =
      ground (arith, compact_loop-revoked_key (candidates s.devices) s h)

  Change-revoked_key :
      (s t : State) → Change lib s t → revoked_key lib key s ≡ true → revoked_key lib key t ≡ true
  unfolding revoked_key
  Change-revoked_key s t (age now limit e) h =
      rw e (unfold expire_pending_in_state in rw (any_revoked-expire now limit key s.devices) h)
  Change-revoked_key s t (end_offer o i a e) h = rw e h
  Change-revoked_key s t (make_offer o i a e) h = rw e h
  Change-revoked_key s t (forget_denied d denies e) h =
      rw e (ground (arith, any_revoked-remove key d s.devices, denies))
  Change-revoked_key s t (forget_revoked d gone held keeps rest offer) h =
      rw rest (ground (arith, any_revoked-remove key d s.devices, held, keeps (lib.sha256 key)))
  Change-revoked_key s t (enrol d o now p k a l i c e) h =
      rw e (ground (arith, any_revoked-append key s.devices d))
  Change-revoked_key s t (replace d u found same moves e) h =
      rw e
        (ground (arith, Moves-revoked u.device_id d u s.devices found same (Moves-keeps d u moves)))

  pub Changes-revoked_key :
      {s t : State} → Changes lib s t → revoked_key lib key s ≡ true → revoked_key lib key t ≡ true
  Changes-revoked_key here h = h
  Changes-revoked_key (next r c) h = Change-revoked_key _ _ c (Changes-revoked_key r h)
