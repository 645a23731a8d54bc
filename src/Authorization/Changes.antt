-- ===== src/Authorization/Changes.antt =====
-- A transition system for the state on disk of authorization.py, and the rules to show that an action
-- moves along it.
use mercury_relay_plugin.Prelude.{
  ℕ, zero, suc, ◌-◌, ◌^◌, ◌==◌, ◌+◌, ◌<◌, ◌≡◌, ◌≢◌, refl, inl, inr, Bool, true, false, Option, none,
  some, List, [], ◌∷◌, ◌++◌, Bytes, length, Result, ok, err, Bool-cases, if◌then◌else◌, ltb,
}
use mercury_relay_plugin.Authorization.Records.{
  Text, pending, authorized, revoked, denied, Device, Offer, State, Library, contains, is_revoked,
  active, expired, consumed, evidence_of, active_count, validate_auth_state,
}
use mercury_relay_plugin.Authorization.Slots.{
  find_device, set_device, remove_device, expire_pending_in_state,
}
use mercury_relay_plugin.Authorization.{
  Error, Write, on_found, continue, write_outcome, try_identifier, written, failed,
  replaced_then_failed, Tx, ◌>>=◌, ◌>>◌, require, or_raise, raise, pure, clock_now, load_state,
  save_state, new_identifier, random_capability, revoked_key,
}

-- What may happen to one device record.
pub data Moves (d u : Device) : Type 0 where
  relabel : u.status ≡ d.status → u.epoch ≡ d.epoch → Moves d u
  authorize : d.status ≡ pending → u.status ≡ authorized → u.epoch ≡ d.epoch → Moves d u
  refuse : d.status ≡ pending → u.status ≡ denied → u.epoch ≡ d.epoch + 1 → Moves d u
  withdraw : is_revoked d.status ≡ false → u.status ≡ revoked → u.epoch ≡ d.epoch + 1 → Moves d u

module _ (lib : Library) where
  pub data Change (s t : State) : Type 0 where
    age : (now max_age : ℕ) → t ≡ expire_pending_in_state now max_age s → Change s t
    end_offer :
        (o : Offer)
        → s.pairing_offer ≡ some o
        → o.status ≡ active
        → t ≡ record s { pairing_offer = some (record o { status = expired }) }
        → Change s t
    make_offer :
        (o : Offer)
        → o.status ≡ active
        → ((old : Offer) → s.pairing_offer ≡ some old → old.status ≢ active)
        → t ≡ record s { pairing_offer = some o }
        → Change s t
    forget_denied :
        (d : Device)
        → d.status ≡ denied
        → t ≡ record s { devices = remove_device d s.devices }
        → Change s t
    forget_revoked :
        (d : Device)
        → d.status ≡ revoked
        → contains (lib.sha256 d.device_public_key) (evidence_of t) ≡ true
        → ((digest : Bytes)
            → contains digest (evidence_of s) ≡ true
            → contains digest (evidence_of t) ≡ true)
        → t.devices ≡ remove_device d s.devices
        → t.pairing_offer ≡ s.pairing_offer
        → Change s t
    enrol :
        (d : Device) (o : Offer) (now : ℕ)
        → d.status ≡ pending
        → revoked_key lib d.device_public_key s ≡ false
        → active_count s.devices < 5
        → length s.devices < 16
        → s.pairing_offer ≡ some o
        → o.status ≡ active
        → t ≡ record s {
          devices = s.devices ++ d ∷ [];
          pairing_offer = some (record o { status = consumed; consumed_at = now });
        }
        → Change s t
    replace :
        (d u : Device)
        → find_device u.device_id s.devices ≡ some d
        → u.device_public_key ≡ d.device_public_key
        → Moves d u
        → t ≡ record s { devices = set_device u.device_id u s.devices }
        → Change s t

  pub data Changes (s : State) : State → Type 0 where
    here : Changes s s
    next : {t u : State} → Changes s t → Change t u → Changes s u

  pub Changes-trans : {s t u : State} → Changes s t → Changes t u → Changes s u
  Changes-trans h here = h
  Changes-trans h (next r c) = next (Changes-trans h r) c

-- Run from `disk`, the action leaves a state on disk for which `P` holds.
pub record Leaves (P : State → Type 0) {A : Type 0} (disk : State) (m : Tx A) : Type 0 where
  pub at : P (m disk).1

-- One rule for each step of an action: what follows a step may assume what the step established.
module _ {P : State → Type 0} {B : Type 0} where
  pub Leaves-pure : (b : B) (disk : State) → P disk → Leaves P disk (pure b)
  unfolding pure
  Leaves-pure b disk p = record { at = p }

  pub Leaves-raise : (e : Error) (disk : State) → P disk → Leaves P disk (raise {A = B} e)
  unfolding raise
  Leaves-raise e disk p = record { at = p }

  pub Leaves-require :
      (test : Bool) (e : Error) (k : Tx B) (disk : State)
      → P disk
      → (test ≡ true → Leaves P disk k)
      → Leaves P disk (require test e >> k)
  unfolding ◌>>◌
  Leaves-require true e k disk p q = record { at = (q refl).at }
  Leaves-require false e k disk p q = record { at = p }

  pub Leaves-if :
      (test : Bool) (k l : Tx B) (disk : State)
      → (test ≡ true → Leaves P disk k)
      → (test ≡ false → Leaves P disk l)
      → Leaves P disk (if test then k else l)
  Leaves-if true k l disk p q = p refl
  Leaves-if false k l disk p q = q refl

  pub Leaves-clock :
      (reading : Option ℕ) (k : ℕ → Tx B) (disk : State)
      → P disk
      → ((t : ℕ) → Leaves P disk (k t))
      → Leaves P disk (clock_now reading >>= k)
  unfolding clock_now ◌>>=◌
  Leaves-clock none k disk p q = record { at = p }
  Leaves-clock (some t) k disk p q = elim (Bool-cases (ltb (2 ^ 63 - 1) t)) [
    | inl e ↦ record { at = rw e p }
    | inr e ↦ record { at = rw e (q t).at }
  ]

  pub Leaves-load :
      (lib : Library) (k : State → Tx B) (disk : State)
      → P disk
      → Leaves P disk (k disk)
      → Leaves P disk (load_state lib >>= k)
  unfolding load_state ◌>>=◌
  Leaves-load lib k disk p q = elim (Bool-cases (validate_auth_state lib disk)) [
    | inl e ↦ record { at = rw e q.at }
    | inr e ↦ record { at = rw e p }
  ]

  Leaves-write :
      (outcome : Write) (s : State) (k : Tx B) (disk : State)
      → P disk
      → P s
      → Leaves P s k
      → Leaves P disk (write_outcome outcome s >> k)
  unfolding ◌>>◌
  Leaves-write written s k disk p q r = record { at = r.at }
  Leaves-write failed s k disk p q r = record { at = p }
  Leaves-write replaced_then_failed s k disk p q r = record { at = q }

  pub Leaves-save :
      (lib : Library) (outcome : Write) (s : State) (k : Tx B) (disk : State)
      → P disk
      → P s
      → Leaves P s k
      → Leaves P disk (save_state lib outcome s >> k)
  unfolding save_state ◌>>◌
  Leaves-save lib outcome s k disk p q r = elim (Bool-cases (validate_auth_state lib s)) [
    | inl e ↦ record { at = rw e (Leaves-write outcome s k disk p q r).at }
    | inr e ↦ record { at = rw e p }
  ]

  Leaves-try :
      (fits taken : Bool) (id : Text) (rest : Tx Text) (k : Text → Tx B) (disk : State)
      → P disk
      → Leaves P disk (k id)
      → Leaves P disk (rest >>= k)
      → Leaves P disk (try_identifier fits taken id rest >>= k)
  unfolding try_identifier ◌>>=◌
  Leaves-try false taken id rest k disk p q r = record { at = p }
  Leaves-try true false id rest k disk p q r = record { at = q.at }
  Leaves-try true true id rest k disk p q r = record { at = r.at }

  pub Leaves-identifier :
      (lib : Library) (tries : ℕ) (random : List (Option Bytes)) (existing : List Text)
      (k : Text → Tx B) (disk : State)
      → P disk
      → ((id : Text) → Leaves P disk (k id))
      → Leaves P disk (new_identifier lib tries random existing >>= k)
  unfolding new_identifier ◌>>=◌
  Leaves-identifier lib zero random existing k disk p q = record { at = p }
  Leaves-identifier lib (suc n) [] existing k disk p q = record { at = p }
  Leaves-identifier lib (suc n) (none ∷ random) existing k disk p q = record { at = p }
  Leaves-identifier lib (suc n) (some b ∷ random) existing k disk p q =
      Leaves-try (length b == 16) (contains (lib.b64url_encode b) existing) (lib.b64url_encode b)
        (new_identifier lib n random existing) k disk p (q (lib.b64url_encode b))
        (Leaves-identifier lib n random existing k disk p q)

  pub Leaves-capability :
      (lib : Library) (random : Option Bytes) (k : Bytes → Tx B) (disk : State)
      → P disk
      → ((c : Bytes) → Leaves P disk (k c))
      → Leaves P disk (random_capability lib random >>= k)
  unfolding random_capability ◌>>=◌
  Leaves-capability lib none k disk p q = record { at = p }
  Leaves-capability lib (some b) k disk p q = elim (Bool-cases (length b == 32)) [
    | inl e ↦ record { at = rw e (q b).at }
    | inr e ↦ record { at = rw e p }
  ]

module _ {A B : Type 0} where
  Leaves-continue :
      (P : State → Type 0) (r : Result Error A) (f : A → Tx B) {C : Type 0} (g : B → Tx C)
      (disk : State)
      → P (continue r (λ a. f a >>= g) disk).1
      → P ((continue r f >>= g) disk).1
  unfolding ◌>>=◌
  Leaves-continue P (ok a) f g disk h = h
  Leaves-continue P (err e) f g disk h = h

module _ {P : State → Type 0} {A B : Type 0} where
  pub Leaves-or_raise :
      (o : Option A) (e : Error) (k : A → Tx B) (disk : State)
      → P disk
      → ((a : A) → o ≡ some a → Leaves P disk (k a))
      → Leaves P disk (or_raise o e >>= k)
  unfolding ◌>>=◌
  Leaves-or_raise none e k disk p q = record { at = p }
  Leaves-or_raise (some a) e k disk p q = record { at = (q a refl).at }

  pub Leaves-on_found :
      (o : Option A) (k : Tx B) (l : A → Tx B) (disk : State)
      → (o ≡ none → Leaves P disk k)
      → ((a : A) → o ≡ some a → Leaves P disk (l a))
      → Leaves P disk (on_found o k l)
  unfolding on_found
  Leaves-on_found none k l disk p q = record { at = (p refl).at }
  Leaves-on_found (some a) k l disk p q = record { at = (q a refl).at }

  -- A step within a step runs as the one after the other.
  pub Leaves-bind_then :
      (m : Tx (Unit {0})) (f : Tx A) (g : A → Tx B) (disk : State)
      → Leaves P disk (m >> (f >>= g))
      → Leaves P disk (m >> f >>= g)
  unfolding ◌>>◌
  Leaves-bind_then m f g disk h = record {
    at = Leaves-continue P (m disk).0 (λ _. f) g (m disk).1 h.at;
  }

  pub Leaves-bind_pure :
      (a : A) (g : A → Tx B) (disk : State) → Leaves P disk (g a) → Leaves P disk (pure a >>= g)
  unfolding ◌>>=◌
  Leaves-bind_pure a g disk h = record { at = h.at }

  pub Leaves-if_bind :
      (test : Bool) (k l : Tx A) (g : A → Tx B) (disk : State)
      → (test ≡ true → Leaves P disk (k >>= g))
      → (test ≡ false → Leaves P disk (l >>= g))
      → Leaves P disk ((if test then k else l) >>= g)
  Leaves-if_bind true k l g disk p q = p refl
  Leaves-if_bind false k l g disk p q = q refl
