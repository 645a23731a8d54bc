-- ===== src/Authorization/Compaction.antt =====
-- The compaction of authorization.py, record by record.
use mercury_relay_plugin.Prelude.{
  ◌≡◌, refl, sym, subst, ◌∙◌, inl, inr, Bool, true, false, ◌||◌, some, List, [], ◌∷◌, ◌++◌, All,
  arith, length, Bool-cases, Option-cases, ltb, leb,
}
use mercury_relay_plugin.Authorization.Records.{
  Status, denied, revoked, Device, State, Library, max_revoked_key_digests, contains, is_denied,
  is_revoked, evidence_of,
}
use mercury_relay_plugin.Authorization.Slots.{
  remove_device, insert_candidate, candidates, before, compact, compact_loop, make_device_slot,
  key_digest,
}
use mercury_relay_plugin.Authorization.Changes.{
  Change, Changes, Changes-trans, here, next, forget_denied, forget_revoked,
}
use mercury_relay_plugin.Authorization.Revocation.{contains-append, contains-append_last}

-- The record of a device that is gone for good.
abbrev IsGone : Device → Type 0
IsGone d = (is_denied d.status || is_revoked d.status) ≡ true

insert_candidate-IsGone :
    (a : Device) (ds : List Device) → IsGone a → All IsGone ds → All IsGone (insert_candidate a ds)
unfolding insert_candidate
insert_candidate-IsGone a [] g rest = (g, tt)
insert_candidate-IsGone a (d ∷ ds) g (h, rest) = elim (Bool-cases (before a d)) [
  | inl e ↦ rw e (g, (h, rest))
  | inr e ↦ rw e (h, insert_candidate-IsGone a ds g rest)
]

candidates-IsGone : (ds : List Device) → All IsGone (candidates ds)
unfolding candidates
candidates-IsGone [] = tt
candidates-IsGone (d ∷ ds) = elim (Bool-cases (is_denied d.status || is_revoked d.status)) [
  | inl e ↦ rw e (insert_candidate-IsGone d (candidates ds) e (candidates-IsGone ds))
  | inr e ↦ rw e (candidates-IsGone ds)
]

revoked_status : (st : Status) → is_revoked st ≡ true → st ≡ revoked
revoked_status st h = ground arith

denied_status :
    (st : Status) → (is_denied st || is_revoked st) ≡ true → is_revoked st ≡ false → st ≡ denied
denied_status st h g = ground arith

module _ (lib : Library) where
  compact-Change :
      (d : Device) (s t : State)
      → IsGone d
      → compact lib d s ≡ some t
      → Change lib s t × (t.pairing_offer ≡ s.pairing_offer)
  unfolding compact
  compact-Change d s t gone e = elim (Bool-cases (is_revoked d.status)) [
    | inr other ↦
        let is : record s { devices = remove_device d s.devices } ≡ t = ground (arith, e, other) in
        (
          forget_denied d (denied_status d.status gone other) (sym is),
          subst (λ x. x.pairing_offer ≡ s.pairing_offer) is refl,
        )
    | inl hit ↦ elim (Bool-cases (contains (key_digest lib d) (evidence_of s))) [
      | inl held ↦
          let is : record s {
            devices = remove_device d s.devices;
            revoked_key_digests = some (evidence_of s);
            schema_version = 2;
          }
              ≡ t =
            ground (arith, e, hit, held) in
          subst (λ x. Change lib s x × (x.pairing_offer ≡ s.pairing_offer)) is
            (forget_revoked d (revoked_status d.status hit) held (λ digest h. h) refl refl, refl)
      | inr new ↦ elim (Bool-cases (leb max_revoked_key_digests (length (evidence_of s)))) [
        | inl full ↦ absurd (ground (arith, e, hit, new, full))
        | inr room ↦
            let is : record s {
              devices = remove_device d s.devices;
              revoked_key_digests = some (evidence_of s ++ key_digest lib d ∷ []);
              schema_version = 2;
            }
                ≡ t =
              ground (arith, e, hit, new, room) in
            subst (λ x. Change lib s x × (x.pairing_offer ≡ s.pairing_offer)) is
              (
                forget_revoked d (revoked_status d.status hit)
                    (contains-append_last (key_digest lib d) (evidence_of s))
                    (λ digest h. contains-append digest (key_digest lib d) (evidence_of s) h) refl
                    refl,
                refl,
              )
      ]
    ]
  ]

  -- Records are forgotten, and the offer is the same.
  abbrev pub Compacts : State → State → Type 0
  Compacts s t = Changes lib s t × (t.pairing_offer ≡ s.pairing_offer)

  Compacts-next :
      {s t u : State}
      → Change lib s t
      → t.pairing_offer ≡ s.pairing_offer
      → Compacts t u
      → Compacts s u
  Compacts-next c o (r, p) = (Changes-trans lib (next here c) r, p ∙ o)

  slot-Compacts :
      (free : Bool) (t : State) (ds : List Device)
      → Compacts t (compact_loop lib ds t)
      → Compacts t (elim free [ true ↦ t | false ↦ compact_loop lib ds t ])
  slot-Compacts true t ds h = (here, refl)
  slot-Compacts false t ds h = h

  compact_loop-Compacts :
      (ds : List Device) (s : State) → All IsGone ds → Compacts s (compact_loop lib ds s)
  unfolding compact_loop
  compact_loop-Compacts [] s gone = (here, refl)
  compact_loop-Compacts (d ∷ ds) s (g, gone) = elim (Option-cases (compact lib d s)) [
    | inl e ↦ rw (e, compact_loop) (compact_loop-Compacts ds s gone)
    | inr (t, e) ↦
        let (change, offer) = compact-Change d s t g e in
        rw (e, compact_loop)
          (Compacts-next change offer
            (slot-Compacts (ltb (length t.devices) 16) t ds (compact_loop-Compacts ds t gone)))
  ]

  pub make_device_slot-Compacts : (s : State) → Compacts s (make_device_slot lib s)
  unfolding make_device_slot
  make_device_slot-Compacts s = elim (Bool-cases (ltb (length s.devices) 16)) [
    | inl e ↦ rw e (here, refl)
    | inr e ↦ rw e (compact_loop-Compacts (candidates s.devices) s (candidates-IsGone s.devices))
  ]
