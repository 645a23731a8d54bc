-- ===== src/Authorization/Calls.antt =====
-- Each method of authorization.py against the transition system of `Changes`.
use mercury_relay_plugin.Authorization.Changes.{
  Moves, Changes, Changes-trans, here, next, end_offer, make_offer, age, enrol, replace, relabel,
  authorize, refuse, withdraw, Leaves, Leaves-pure, Leaves-raise, Leaves-require, Leaves-if,
  Leaves-clock, Leaves-load, Leaves-save, Leaves-identifier, Leaves-capability, Leaves-or_raise,
  Leaves-on_found, Leaves-bind_then, Leaves-bind_pure, Leaves-if_bind,
}
use mercury_relay_plugin.Authorization.Compaction.{make_device_slot-Compacts}
use mercury_relay_plugin.Prelude.{
  ap, Option, none, ◌≢◌, ℕ, ◌==◌, ◌≡◌, refl, sym, ◌∙◌, subst, true, false, not, ◌&&◌, some, List,
  [], ◌∷◌, arith, Bytes, bytes_eq, bytes_eq→eq, length, leb,
}
use mercury_relay_plugin.Authorization.Records.{
  Text, Status, pending, Device, Offer, OfferStatus, active, consumed, expired, State, Library,
  is_active, is_authorized_status, is_denied, raw_bytes, b64url_exact, is_revoked, is_pending,
}
use mercury_relay_plugin.Authorization.Slots.{
  find_device, set_device, expired_devices, expire_pending_in_state,
}
use mercury_relay_plugin.Authorization.{
  Write, Env, Tx, ◌>>=◌, pure, clock_now, DeviceSummary, finish_approval, finish_confirmation,
  is_empty, name_device, text_or_empty, summary, denied_device, revoked_device, approved,
  new_device, offer_matches, usable, is_active_offer, supersede, create_offer, consume_offer,
  approve, approve_confirmed, set_label, note_device_name, deny, expire_pending, revoke,
  list_devices, cancel_offer, reject_offer, admit_device, expire_and_save, store_device,
}

module _ {P : State → Type 0} (lib : Library) where
  Leaves-store :
      {B : Type 0} (outcome : Write) (state : State) (u : Device) (k : DeviceSummary → Tx B)
      (disk : State)
      → P disk
      → P (record state { devices = set_device u.device_id u state.devices })
      → ((s : DeviceSummary)
          → Leaves P (record state { devices = set_device u.device_id u state.devices }) (k s))
      → Leaves P disk (store_device lib outcome state u >>= k)
  unfolding store_device
  Leaves-store outcome state u k disk p q r =
      Leaves-bind_then _ _ _ disk
        (Leaves-save lib outcome _ _ disk p q (Leaves-bind_pure _ k _ (r (summary u))))

  Leaves-store_last :
      (outcome : Write) (state : State) (u : Device) (disk : State)
      → P disk
      → P (record state { devices = set_device u.device_id u state.devices })
      → Leaves P disk (store_device lib outcome state u)
  unfolding store_device
  Leaves-store_last outcome state u disk p q =
      Leaves-save lib outcome _ (pure (summary u)) disk p q (Leaves-pure _ _ q)

  Leaves-expire :
      {B : Type 0} (outcome : Write) (now : ℕ) (k : State → Tx B) (disk : State)
      → P disk
      → P (expire_pending_in_state now 600 disk)
      → Leaves P disk (k disk)
      → Leaves P (expire_pending_in_state now 600 disk) (k (expire_pending_in_state now 600 disk))
      → Leaves P disk (expire_and_save lib outcome now disk >>= k)
  unfolding expire_and_save
  Leaves-expire outcome now k disk p q r t =
      Leaves-if_bind _ _ _ k disk (λ _. Leaves-bind_pure _ k disk r)
        (λ _.
          Leaves-bind_then _ _ _ disk
            (Leaves-save lib outcome _ _ disk p q (Leaves-bind_pure _ k _ t)))

active_status : (o : Offer) → is_active_offer o ≡ true → o.status ≡ active
active_status o h = ground (arith, h)

superseded_active :
    (o : Offer) → o.status ≡ active → supersede (some o) ≡ some (record o { status = expired })
superseded_active o is = ground (arith, is)

superseded_again : (o : Offer) → o.status ≡ expired → supersede (some o) ≡ some o
superseded_again o is = ground (arith, is)

superseded_used : (o : Offer) → o.status ≡ consumed → supersede (some o) ≡ some o
superseded_used o is = ground (arith, is)

-- A superseded offer is not active.
supersede-ends :
    (offer : Option Offer) (old : Offer) → supersede offer ≡ some old → old.status ≢ active
supersede-ends offer old e = λ h. ground (arith, e, h)

found_id :
    (id : Text) (ds : List Device) (d : Device) → find_device id ds ≡ some d → d.device_id ≡ id
unfolding find_device
found_id id [] d e = cc
found_id id (x ∷ xs) d e = ground (arith, found_id id xs d, bytes_eq→eq x.device_id id)

module _ (lib : Library) (disk : State) where
  abbrev InReach : State → Type 0
  InReach = Changes lib disk

  -- One record is replaced, as `Moves` allows.
  replaced :
      {s : State} (id : Text) (d u : Device)
      → InReach s
      → find_device id s.devices ≡ some d
      → u.device_id ≡ d.device_id
      → u.device_public_key ≡ d.device_public_key
      → Moves d u
      → InReach (record s { devices = set_device u.device_id u s.devices })
  replaced {s} id d u r found same_id same_key moves = next r (
      replace d u
        (subst (λ i. find_device i s.devices ≡ some d)
          (sym (same_id ∙ found_id id s.devices d found)) found)
        same_key moves refl)

  aged : (now max_age : ℕ) → InReach (expire_pending_in_state now max_age disk)
  aged now max_age = next here (age now max_age refl)

  deny-Changes : (env : Env) (id : Text) → Leaves InReach disk (deny lib env id)
  unfolding deny
  deny-Changes env id = Leaves-require _ _ _ disk here λ _. Leaves-load lib _ disk here (
      Leaves-on_found _ _ _ disk (λ _. Leaves-pure _ _ here)
        λ d found.
          Leaves-if (is_denied d.status) _ _ disk (λ _. Leaves-pure _ _ here)
            λ _. Leaves-require _ _ _ disk here λ pending. Leaves-clock _ _ disk here λ now.
              let end : InReach (record disk {
                devices = set_device d.device_id (denied_device d now) disk.devices;
              }) =
                replaced id d (denied_device d now) here found refl refl
                  (refuse (ground arith) refl refl) in
              Leaves-store lib _ _ (denied_device d now) _ disk here end (λ s. Leaves-pure _ _ end))

  revoke-Changes : (env : Env) (id : Text) → Leaves InReach disk (revoke lib env id)
  unfolding revoke
  revoke-Changes env id = Leaves-require _ _ _ disk here λ _. Leaves-load lib _ disk here (
      Leaves-on_found _ _ _ disk (λ _. Leaves-pure _ _ here)
        λ d found.
          Leaves-if (is_revoked d.status) _ _ disk (λ _. Leaves-pure _ _ here)
            λ live. Leaves-clock _ _ disk here λ now.
              let end : InReach (record disk {
                devices = set_device d.device_id (revoked_device d now) disk.devices;
              }) =
                replaced id d (revoked_device d now) here found refl refl
                  (withdraw live refl refl) in
              Leaves-store lib _ _ (revoked_device d now) _ disk here end
                (λ s. Leaves-pure _ _ end))

  set_label-Changes :
      (env : Env) (id label : Text) → Leaves InReach disk (set_label lib env id label)
  unfolding set_label
  set_label-Changes env id label = Leaves-require _ _ _ disk here λ _.
      Leaves-or_raise _ _ _ disk here λ cleaned _. Leaves-load lib _ disk here (
        Leaves-on_found _ _ _ disk (λ _. Leaves-pure _ _ here)
          λ d found.
            let u : Device = record d { label = some cleaned } in
            let end : InReach (record disk { devices = set_device u.device_id u disk.devices }) =
              replaced id d u here found refl refl (relabel refl refl) in
            Leaves-store lib _ _ u _ disk here end (λ s. Leaves-pure _ _ end))

  name_device-Changes :
      (env : Env) (id : Text) (key : Bytes) (cleaned : Text)
      → Leaves InReach disk (name_device lib env id key cleaned)
  unfolding name_device
  name_device-Changes env id key cleaned = Leaves-load lib _ disk here (
      Leaves-on_found _ _ _ disk (λ _. Leaves-pure _ _ here)
        λ d found.
          let u : Device = record d { device_name = some cleaned } in
          let end : InReach (record disk { devices = set_device u.device_id u disk.devices }) =
            replaced id d u here found refl refl (relabel refl refl) in
          Leaves-if (not (is_active d.status && bytes_eq d.device_public_key key)) _ _ disk
            (λ _. Leaves-pure _ _ here)
            λ _.
              Leaves-if (bytes_eq (text_or_empty d.device_name) cleaned) _ _ disk
                (λ _. Leaves-pure _ _ here)
                λ _. Leaves-store lib _ _ u _ disk here end (λ s. Leaves-pure _ _ end))

  note_device_name-Changes :
      (env : Env) (id : Text) (key : Bytes) (name : Text)
      → Leaves InReach disk (note_device_name lib env id key name)
  unfolding note_device_name
  note_device_name-Changes env id key name =
      Leaves-on_found _ _ _ disk (λ _. Leaves-pure _ _ here)
        λ cleaned _.
          Leaves-if (b64url_exact lib 16 id && (length key == raw_bytes)) _ _ disk
            (λ _. name_device-Changes env id key cleaned) (λ _. Leaves-pure _ _ here)

  cancel_offer-Changes : (env : Env) (id : Text) → Leaves InReach disk (cancel_offer lib env id)
  unfolding cancel_offer
  cancel_offer-Changes env id = Leaves-require _ _ _ disk here λ _. Leaves-load lib _ disk here (
      Leaves-on_found _ _ _ disk (λ _. Leaves-pure _ _ here)
        λ o found.
          Leaves-if (not (bytes_eq o.offer_id id && is_active_offer o)) _ _ disk
            (λ _. Leaves-pure _ _ here)
            λ waits.
              let end = next here (end_offer o found (active_status o (ground arith)) refl) in
              Leaves-save lib _ _ _ disk here end (Leaves-pure _ _ end))

  expire_pending-Changes :
      (env : Env) (max_age : ℕ) → Leaves InReach disk (expire_pending lib env max_age)
  unfolding expire_pending
  expire_pending-Changes env max_age = Leaves-require _ _ _ disk here λ _.
      Leaves-load lib _ disk here (
        Leaves-clock _ _ disk here λ now.
          Leaves-if (is_empty (expired_devices now max_age disk.devices)) _ _ disk
            (λ _. Leaves-pure _ _ here)
            λ _.
              Leaves-save lib _ _ _ disk here (aged now max_age)
                (Leaves-pure _ _ (aged now max_age)))

  list_devices-Changes : (env : Env) → Leaves InReach disk (list_devices lib env)
  unfolding list_devices
  list_devices-Changes env = Leaves-load lib _ disk here (
      Leaves-clock _ _ disk here λ now.
        Leaves-expire lib _ now _ disk here (aged now 600) (Leaves-pure _ _ here)
          (Leaves-pure _ _ (aged now 600)))

  store_approved :
      (env : Env) {s : State} (id : Text) (d : Device)
      → InReach s
      → find_device id s.devices ≡ some d
      → is_pending d.status ≡ true
      → Leaves InReach s
          (clock_now env.later >>= λ later. store_device lib env.second_write s (approved d later))
  store_approved env {s} id d r found waits = Leaves-clock _ _ s r λ later.
      Leaves-store_last lib _ _ (approved d later) s r (
        replaced id d (approved d later) r found refl refl
          (authorize (pending_status d.status waits) refl refl))
    where
      pending_status : (st : Status) → is_pending st ≡ true → st ≡ pending
      pending_status st h = ground arith

  approve_rest :
      (env : Env) (id : Text) (digest : Bytes) {s : State}
      → InReach s
      → Leaves InReach s (finish_approval lib env id digest s)
  unfolding finish_approval
  approve_rest env id digest {s} r = Leaves-or_raise _ _ _ s r λ d found.
      Leaves-require _ _ _ s r λ matches.
        Leaves-if (is_authorized_status d.status) _ _ s (λ _. Leaves-pure _ _ r)
          λ not_yet. store_approved env id d r found (still_pending d matches not_yet)
    where
      still_pending :
          (d : Device)
          → (bytes_eq digest d.channel_binding_digest && is_active d.status) ≡ true
          → is_authorized_status d.status ≡ false
          → is_pending d.status ≡ true
      still_pending d p q = ground arith

  approve-Changes :
      (env : Env) (id : Text) (digest : Bytes) → Leaves InReach disk (approve lib env id digest)
  unfolding approve
  approve-Changes env id digest = Leaves-require _ _ _ disk here λ _. Leaves-load lib _ disk here (
      Leaves-clock _ _ disk here λ now.
        Leaves-expire lib _ now _ disk here (aged now 600) (approve_rest env id digest here)
          (approve_rest env id digest (aged now 600)))

  confirm_rest :
      (env : Env) (id confirmed : Text) {s : State}
      → InReach s
      → Leaves InReach s (finish_confirmation lib env id confirmed s)
  unfolding finish_confirmation
  confirm_rest env id confirmed {s} r = Leaves-or_raise _ _ _ s r λ d found.
      Leaves-require _ _ _ s r λ _.
        Leaves-if (is_authorized_status d.status) _ _ s (λ _. Leaves-pure _ _ r)
          λ _. Leaves-require _ _ _ s r λ waits. store_approved env id d r found waits

  approve_confirmed-Changes :
      (env : Env) (id confirmed : Text)
      → Leaves InReach disk (approve_confirmed lib env id confirmed)
  unfolding approve_confirmed
  approve_confirmed-Changes env id confirmed = Leaves-require _ _ _ disk here λ _.
      Leaves-load lib _ disk here (
        Leaves-clock _ _ disk here λ now.
          Leaves-expire lib _ now _ disk here (aged now 600) (confirm_rest env id confirmed here)
            (confirm_rest env id confirmed (aged now 600)))

  superseded :
      (s : State) → InReach s → InReach (record s { pairing_offer = supersede s.pairing_offer })
  superseded s r = supersede_known s.pairing_offer refl
    where
      unchanged :
          supersede s.pairing_offer ≡ s.pairing_offer
          → InReach (record s { pairing_offer = supersede s.pairing_offer })
      unchanged same = subst (λ x. InReach (record s { pairing_offer = x })) (sym same) r

      ends_of :
          (o : Offer)
          → s.pairing_offer ≡ some o
          → o.status ≡ active
          → supersede s.pairing_offer ≡ some (record o { status = expired })
      ends_of o e is = ap supersede e ∙ superseded_active o is

      by_status :
          (o : Offer) (status : OfferStatus)
          → o.status ≡ status
          → s.pairing_offer ≡ some o
          → InReach (record s { pairing_offer = supersede s.pairing_offer })
      by_status o active is e =
          next r (end_offer o e is (ap (λ x. record s { pairing_offer = x }) (ends_of o e is)))
      by_status o consumed is e = unchanged (ap supersede e ∙ superseded_used o is ∙ sym e)
      by_status o expired is e = unchanged (ap supersede e ∙ superseded_again o is ∙ sym e)

      supersede_known :
          (offer : Option Offer)
          → s.pairing_offer ≡ offer
          → InReach (record s { pairing_offer = supersede s.pairing_offer })
      supersede_known none e = unchanged (rw e refl)
      supersede_known (some o) e = by_status o o.status refl e

  create_offer-Changes : (env : Env) (ttl : ℕ) → Leaves InReach disk (create_offer lib env ttl)
  unfolding create_offer
  create_offer-Changes env ttl = Leaves-require _ _ _ disk here λ _. Leaves-load lib _ disk here (
      Leaves-or_raise _ _ _ disk here λ identity _. Leaves-load lib _ disk here (
        Leaves-clock _ _ disk here λ now. Leaves-require _ _ _ disk here λ _.
          Leaves-identifier lib 8 _ _ _ disk here λ offer_id.
            Leaves-capability lib _ _ disk here λ capability.
              let aged_state = expire_pending_in_state now 600 disk in
              let ended = superseded (expire_pending_in_state now 600 disk) (aged now 600) in
              let (room, kept) =
                make_device_slot-Compacts lib
                  (record aged_state { pairing_offer = supersede aged_state.pairing_offer }) in
              let end = next (Changes-trans lib ended room) (
                make_offer _ refl
                  (λ old e. supersede-ends aged_state.pairing_offer old (sym kept ∙ e)) refl) in
              Leaves-save lib _ _ _ disk here end (Leaves-pure _ _ end)))

  reject_offer-Changes :
      (env : Env) (o : Offer) (now : ℕ)
      → disk.pairing_offer ≡ some o
      → Leaves InReach disk (reject_offer lib env disk o now)
  unfolding reject_offer
  reject_offer-Changes env o now found =
      Leaves-if (is_active_offer o && leb o.expires_at now) _ _ disk
        (λ old.
          let end = next here (end_offer o found (active_status o (ground (arith, old))) refl) in
          Leaves-save lib _ _ _ disk here end (Leaves-raise _ _ end))
        (λ _. Leaves-raise _ _ here)

  admit_device-Changes :
      (env : Env) (o : Offer) (key binding : Bytes) (now : ℕ)
      → disk.pairing_offer ≡ some o
      → o.status ≡ active
      → Leaves InReach disk (admit_device lib env disk o key binding now)
  unfolding admit_device expire_pending_in_state
  admit_device-Changes env o key binding now found waits = Leaves-require _ _ _ disk here λ free.
      Leaves-identifier lib 8 _ _ _ disk here λ device_id.
        let (room, kept) = make_device_slot-Compacts lib (expire_pending_in_state now 600 disk) in
        let end = next (Changes-trans lib (aged now 600) room) (
          enrol (new_device lib device_id key binding now) o now refl (ground arith) (ground arith)
            (ground arith) (kept ∙ found) waits refl) in
        Leaves-save lib _ _ _ disk here end (Leaves-pure _ _ end)

  consume_offer-Changes :
      (env : Env) (capability key binding : Bytes)
      → Leaves InReach disk (consume_offer lib env capability key binding)
  unfolding consume_offer
  consume_offer-Changes env capability key binding = Leaves-require _ _ _ disk here λ _.
      Leaves-load lib _ disk here (
        Leaves-or_raise _ _ _ disk here λ identity _. Leaves-load lib _ disk here (
          Leaves-or_raise _ _ _ disk here λ o found. Leaves-clock _ _ disk here λ now.
            Leaves-if (offer_matches lib o identity capability && usable o now) _ _ disk
              (λ fits.
                admit_device-Changes env o key binding now found
                  (active_status o (ground (arith, fits))))
              (λ _. reject_offer-Changes env o now found)))

-- A call of a method that may write.
pub data Call : Type 0 where
  creates_offer : ℕ → Call
  consumes_offer : Bytes → Bytes → Bytes → Call
  approves : Text → Bytes → Call
  confirms : Text → Text → Call
  labels : Text → Text → Call
  names : Text → Bytes → Text → Call
  denies : Text → Call
  expires : ℕ → Call
  revokes : Text → Call
  lists : Call
  cancels : Text → Call

module _ (lib : Library) where
  -- The state on disk after a call, whether it returned or raised.
  unfoldable pub perform : Env → Call → State → State
  perform env (creates_offer ttl) disk = (create_offer lib env ttl disk).1
  perform env (consumes_offer capability key binding) disk =
      (consume_offer lib env capability key binding disk).1
  perform env (approves id digest) disk = (approve lib env id digest disk).1
  perform env (confirms id confirmed) disk = (approve_confirmed lib env id confirmed disk).1
  perform env (labels id label) disk = (set_label lib env id label disk).1
  perform env (names id key name) disk = (note_device_name lib env id key name disk).1
  perform env (denies id) disk = (deny lib env id disk).1
  perform env (expires max_age) disk = (expire_pending lib env max_age disk).1
  perform env (revokes id) disk = (revoke lib env id disk).1
  perform env lists disk = (list_devices lib env disk).1
  perform env (cancels id) disk = (cancel_offer lib env id disk).1

  unfoldable pub perform_all : List (Env × Call) → State → State
  perform_all [] disk = disk
  perform_all ((env, call) ∷ calls) disk = perform_all calls (perform env call disk)

  pub perform-Changes :
      (env : Env) (call : Call) (disk : State) → Changes lib disk (perform env call disk)
  unfolding perform
  perform-Changes env (creates_offer ttl) disk = (create_offer-Changes lib disk env ttl).at
  perform-Changes env (consumes_offer capability key binding) disk =
      (consume_offer-Changes lib disk env capability key binding).at
  perform-Changes env (approves id digest) disk = (approve-Changes lib disk env id digest).at
  perform-Changes env (confirms id confirmed) disk =
      (approve_confirmed-Changes lib disk env id confirmed).at
  perform-Changes env (labels id label) disk = (set_label-Changes lib disk env id label).at
  perform-Changes env (names id key name) disk =
      (note_device_name-Changes lib disk env id key name).at
  perform-Changes env (denies id) disk = (deny-Changes lib disk env id).at
  perform-Changes env (expires max_age) disk = (expire_pending-Changes lib disk env max_age).at
  perform-Changes env (revokes id) disk = (revoke-Changes lib disk env id).at
  perform-Changes env lists disk = (list_devices-Changes lib disk env).at
  perform-Changes env (cancels id) disk = (cancel_offer-Changes lib disk env id).at

  pub perform_all-Changes :
      (calls : List (Env × Call)) (disk : State) → Changes lib disk (perform_all calls disk)
  unfolding perform_all
  perform_all-Changes [] disk = here
  perform_all-Changes ((env, call) ∷ calls) disk =
      Changes-trans lib (perform-Changes env call disk)
        (perform_all-Changes calls (perform env call disk))
