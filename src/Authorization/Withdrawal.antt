-- ===== src/Authorization/Withdrawal.antt =====
-- `revoke` of authorization.py against `is_authorized`.
use mercury_relay_plugin.Prelude.{
  subst, ℕ, ◌≡◌, ◌≢◌, refl, inl, inr, Bool, true, false, ◌&&◌, Option, none, some, List, [], ◌∷◌,
  arith, Bytes, bytes_eq, bytes_eq→eq, bytes_eq_refl, length, ok, Bool-cases, if◌then◌else◌, ltb,
  ◌==◌,
}
use mercury_relay_plugin.Authorization.Records.{
  Text, Device, State, Library, is_authorized_status, is_revoked, validate_auth_state, b64url_exact,
  raw_bytes,
}
use mercury_relay_plugin.Authorization.Slots.{find_device, set_device}
use mercury_relay_plugin.Authorization.{
  Error, Write, written, failed, replaced_then_failed, Env, Tx, ◌>>=◌, ◌>>◌, pure, require,
  on_found, clock_now, load_state, save_state, store_device, DeviceSummary, summary, revoked_device,
  revoke, is_authorized,
}

-- Run from `disk`, the action raises, or it returns a value and leaves a state for which `Q` holds.
pub record Returns {A : Type 0} (Q : A → State → Type 0) (disk : State) (m : Tx A) : Type 0 where
  pub at : (a : A) → (m disk).0 ≡ ok a → Q a (m disk).1

module _ {B : Type 0} {Q : B → State → Type 0} where
  Returns-pure : (b : B) (disk : State) → Q b disk → Returns Q disk (pure b)
  unfolding pure
  Returns-pure b disk q = record { at = λ a e. subst (λ x. Q x disk) (ground (arith, e)) q }

  Returns-require :
      (test : Bool) (e : Error) (k : Tx B) (disk : State)
      → Returns Q disk k
      → Returns Q disk (require test e >> k)
  unfolding ◌>>◌
  Returns-require true e k disk q = record { at = q.at }
  Returns-require false e k disk q = record { at = λ a r. ground (arith, r) }

  Returns-load :
      (lib : Library) (k : State → Tx B) (disk : State)
      → Returns Q disk (k disk)
      → Returns Q disk (load_state lib >>= k)
  unfolding ◌>>=◌ load_state
  Returns-load lib k disk q = elim (Bool-cases (validate_auth_state lib disk)) [
    | inl e ↦ record { at = rw e q.at }
    | inr e ↦ record { at = λ a r. ground (arith, e, r) }
  ]

  Returns-clock :
      (reading : Option ℕ) (k : ℕ → Tx B) (disk : State)
      → ((now : ℕ) → Returns Q disk (k now))
      → Returns Q disk (clock_now reading >>= k)
  unfolding ◌>>=◌ clock_now
  Returns-clock none k disk q = record { at = λ a r. ground (arith, r) }
  Returns-clock (some now) k disk q = elim (Bool-cases (ltb 9_223_372_036_854_775_807 now)) [
    | inl e ↦ record { at = λ a r. ground (arith, e, r) }
    | inr e ↦ record { at = rw e (q now).at }
  ]

  Returns-on_found :
      {A : Type 0} (o : Option A) (k : Tx B) (l : A → Tx B) (disk : State)
      → (o ≡ none → Returns Q disk k)
      → ((a : A) → o ≡ some a → Returns Q disk (l a))
      → Returns Q disk (on_found o k l)
  unfolding on_found
  Returns-on_found none k l disk p q = p refl
  Returns-on_found (some a) k l disk p q = q a refl

  Returns-if :
      (test : Bool) (k l : Tx B) (disk : State)
      → (test ≡ true → Returns Q disk k)
      → (test ≡ false → Returns Q disk l)
      → Returns Q disk (if test then k else l)
  Returns-if true k l disk p q = p refl
  Returns-if false k l disk p q = q refl

  Returns-store :
      (lib : Library) (outcome : Write) (state : State) (u : Device) (k : DeviceSummary → Tx B)
      (disk : State)
      → Returns Q
          (record state { devices = set_device u.device_id u state.devices })
          (k (summary u))
      → Returns Q disk (store_device lib outcome state u >>= k)
  unfolding ◌>>=◌ ◌>>◌ store_device save_state pure
  Returns-store lib outcome state u k disk q =
      elim (Bool-cases (
        validate_auth_state lib
          (record state { devices = set_device u.device_id u state.devices }))) [
            | inl e ↦ stored outcome e
            | inr e ↦ record { at = λ a r. ground (arith, e, r) }
          ]
    where
      stored :
          (w : Write)
          → validate_auth_state lib
              (record state { devices = set_device u.device_id u state.devices })
            ≡ true
          → Returns Q disk (store_device lib w state u >>= k)
      stored written e = record { at = rw e q.at }
      stored failed e = record { at = λ a r. ground (arith, e, r) }
      stored replaced_then_failed e = record { at = λ a r. ground (arith, e, r) }

-- The record that the identifier finds, if any, is not authorized.
pub record IsShut (id : Text) (s : State) : Type 0 where
  pub shut :
      (d : Device) → find_device id s.devices ≡ some d → is_authorized_status d.status ≡ false

find_device-set_device :
    (id : Text) (u : Device) (ds : List Device) (d : Device)
    → u.device_id ≡ id
    → find_device id (set_device id u ds) ≡ some d
    → d ≡ u
unfolding find_device set_device
find_device-set_device id u [] d same e = ground (arith, e)
find_device-set_device id u (x ∷ ds) d same e = elim (Bool-cases (bytes_eq x.device_id id)) [
  | inl hit ↦ ground (arith, hit, e, same, bytes_eq_refl id)
  | inr miss ↦ find_device-set_device id u ds d same (ground (arith, miss, e))
]

found_id :
    (id : Text) (ds : List Device) (d : Device) → find_device id ds ≡ some d → d.device_id ≡ id
unfolding find_device
found_id id [] d e = ground (arith, e)
found_id id (x ∷ ds) d e = ground (arith, e, found_id id ds d, bytes_eq→eq x.device_id id)

revoke-Returns :
    (lib : Library) (env : Env) (id : Text) (disk : State)
    → Returns (λ r s. IsShut id s) disk (revoke lib env id)
unfolding revoke
revoke-Returns lib env id disk = Returns-require _ _ _ disk (
    Returns-load lib _ disk (
      Returns-on_found (find_device id disk.devices) _ _ disk
        (λ e. Returns-pure none disk (record { shut = λ d f. ground (arith, e, f) }))
        (λ d e.
          Returns-if (is_revoked d.status) _ _ disk
            (λ r. Returns-pure _ disk (record { shut = λ x f. ground (arith, e, f, r) }))
            (λ r. Returns-clock env.now _ disk λ now.
              Returns-store lib env.first_write disk (revoked_device d now) _ disk (
                Returns-pure _ _
                  (record { shut = λ x f. shut_by d x now (found_id id disk.devices d e) f }))))))
  where
    shut_by :
        (d x : Device) (now : ℕ)
        → d.device_id ≡ id
        → find_device id (set_device d.device_id (revoked_device d now) disk.devices) ≡ some x
        → is_authorized_status x.status ≡ false
    shut_by d x now same f =
        let g : find_device id (set_device id (revoked_device d now) disk.devices) ≡ some x =
          subst (λ i. find_device id (set_device i (revoked_device d now) disk.devices) ≡ some x)
            same f in
        let is = find_device-set_device id (revoked_device d now) disk.devices x same g in
        rw is refl

and_false : (a b : Bool) → a ≡ false → (a && b) ≡ false
and_false a b e = ground (arith, e)

is_authorized-Returns :
    (lib : Library) (id : Text) (key : Bytes) (disk : State)
    → IsShut id disk
    → Returns (λ b s. b ≡ false) disk (is_authorized lib id key)
unfolding is_authorized
is_authorized-Returns lib id key disk h =
    Returns-if (b64url_exact lib 16 id && (length key == raw_bytes)) _ _ disk
      (λ _. Returns-load lib _ disk (
        Returns-on_found (find_device id disk.devices) _ _ disk (λ _. Returns-pure false disk refl)
          (λ d e. Returns-pure _ disk (and_false _ _ (h.shut d e)))))
      (λ _. Returns-pure false disk refl)

-- When `revoke` returns, whether it found the record or not, and whether or not the record was already
-- revoked, `is_authorized` on the state that it leaves does not return `True` for that device, with any
-- public key.
pub revoke-is_authorized :
    (lib : Library) (env : Env) (id : Text) (key : Bytes) (disk : State)
    (reply : Option DeviceSummary)
    → (revoke lib env id disk).0 ≡ ok reply
    → (is_authorized lib id key (revoke lib env id disk).1).0 ≢ ok true
revoke-is_authorized lib env id key disk reply e r =
    let shut = (revoke-Returns lib env id disk).at reply e in
    ground (arith, (is_authorized-Returns lib id key (revoke lib env id disk).1 shut).at true r)
