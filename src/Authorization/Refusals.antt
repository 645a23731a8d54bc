-- ===== src/Authorization/Refusals.antt =====
-- Rejections of `consume_offer` of authorization.py.
use mercury_relay_plugin.Prelude.{
  ℕ, ◌≡◌, refl, inl, inr, Bool, true, false, not, Option-cases, sym, ◌⊎◌, ok, bytes_eq→eq, ◌<◌,
  ◌&&◌, ◌||◌, Option, none, some, List, arith, Bytes, length, err, Bool-cases, leb, ltb,
  if◌then◌else◌, ◌^◌, ◌-◌,
}
use mercury_relay_plugin.Authorization.Records.{
  active, Offer, State, Library, validate_auth_state, active_count,
}
use mercury_relay_plugin.Authorization.Slots.{expire_pending_in_state, make_device_slot}
use mercury_relay_plugin.Authorization.{
  Error, DeviceSummary, time_unavailable, state_invalid, state_unavailable, Env, Tx, ◌>>=◌, ◌>>◌,
  require, or_raise, raise, clock_now, load_state, save_state, write_outcome, Write, written,
  failed, replaced_then_failed, revoked_key, consume_offer, admit_device, reject_offer,
  is_active_offer, usable, offer_matches, Identity,
}
use mercury_relay_plugin.Authorization.Changes.{here, next, age}
use mercury_relay_plugin.Authorization.Calls.{Call, perform_all, perform_all-Changes}
use mercury_relay_plugin.Authorization.Revocation.{
  Changes-revoked_key, make_device_slot-revoked_key,
}

-- Run from `disk`, the action raises.
pub record Raises {A : Type 0} (disk : State) (m : Tx A) : Type 0 where
  pub error : Error
  pub raised : (m disk).0 ≡ err error

module _ {B : Type 0} where
  Raises-raise : (e : Error) (disk : State) → Raises {A = B} disk (raise e)
  unfolding raise
  Raises-raise e disk = record { error = e; raised = refl }

  Raises-require :
      (test : Bool) (e : Error) (k : Tx B) (disk : State)
      → (test ≡ true → Raises disk k)
      → Raises disk (require test e >> k)
  unfolding ◌>>◌
  Raises-require true e k disk q = record { error = (q refl).error; raised = (q refl).raised }
  Raises-require false e k disk q = record { error = e; raised = refl }

  Raises-or_raise :
      {A : Type 0} (o : Option A) (e : Error) (k : A → Tx B) (disk : State)
      → ((a : A) → o ≡ some a → Raises disk (k a))
      → Raises disk (or_raise o e >>= k)
  unfolding ◌>>=◌
  Raises-or_raise none e k disk q = record { error = e; raised = refl }
  Raises-or_raise (some a) e k disk q = record {
    error = (q a refl).error;
    raised = (q a refl).raised;
  }

  Raises-clock :
      (reading : Option ℕ) (k : ℕ → Tx B) (disk : State)
      → ((t : ℕ) → reading ≡ some t → Raises disk (k t))
      → Raises disk (clock_now reading >>= k)
  unfolding clock_now ◌>>=◌
  Raises-clock none k disk q = record { error = time_unavailable; raised = refl }
  Raises-clock (some t) k disk q = elim (Bool-cases (ltb (2 ^ 63 - 1) t)) [
    | inl e ↦ record { error = time_unavailable; raised = rw e }
    | inr e ↦ record { error = (q t refl).error; raised = rw e (q t refl).raised }
  ]

  Raises-load :
      (lib : Library) (k : State → Tx B) (disk : State)
      → Raises disk (k disk)
      → Raises disk (load_state lib >>= k)
  unfolding load_state ◌>>=◌
  Raises-load lib k disk q = elim (Bool-cases (validate_auth_state lib disk)) [
    | inl e ↦ record { error = q.error; raised = rw e q.raised }
    | inr e ↦ record { error = state_invalid; raised = rw e }
  ]

  Raises-write :
      (outcome : Write) (s : State) (k : Tx B) (disk : State)
      → Raises s k
      → Raises disk (write_outcome outcome s >> k)
  unfolding ◌>>◌
  Raises-write written s k disk q = record { error = q.error; raised = q.raised }
  Raises-write failed s k disk q = record { error = state_unavailable; raised = refl }
  Raises-write replaced_then_failed s k disk q = record { error = state_unavailable; raised = refl }

  Raises-save :
      (lib : Library) (outcome : Write) (s : State) (k : Tx B) (disk : State)
      → Raises s k
      → Raises disk (save_state lib outcome s >> k)
  unfolding save_state ◌>>◌
  Raises-save lib outcome s k disk q = elim (Bool-cases (validate_auth_state lib s)) [
    | inl e ↦
        let w = Raises-write outcome s k disk q in
        record { error = w.error; raised = rw e w.raised }
    | inr e ↦ record { error = state_unavailable; raised = rw e }
  ]

  Raises-if :
      (test : Bool) (k l : Tx B) (disk : State)
      → (test ≡ true → Raises disk k)
      → (test ≡ false → Raises disk l)
      → Raises disk (if test then k else l)
  Raises-if true k l disk p q = p refl
  Raises-if false k l disk p q = q refl

module _ (lib : Library) (env : Env) where
  reject_offer-Raises :
      (o : Offer) (now : ℕ) (s disk : State) → Raises disk (reject_offer lib env s o now)
  unfolding reject_offer
  reject_offer-Raises o now s disk =
      Raises-if (is_active_offer o && leb o.expires_at now) _ _ disk
        (λ _. Raises-save lib _ _ _ disk (Raises-raise _ _)) (λ _. Raises-raise _ disk)

  admit_device-Raises :
      (o : Offer) (key binding : Bytes) (now : ℕ) (disk : State)
      → revoked_key lib key disk ≡ true
      → Raises disk (admit_device lib env disk o key binding now)
  unfolding admit_device
  admit_device-Raises o key binding now disk h =
      Raises-require _ _ _ disk λ free. absurd (full free)
    where
      kept :
          revoked_key lib key (make_device_slot lib (expire_pending_in_state now 600 disk)) ≡ true
      kept =
          make_device_slot-revoked_key lib key _
            (Changes-revoked_key lib key (next here (age now 600 refl)) h)

      full :
          not (
              leb 5
                (active_count (make_device_slot lib (expire_pending_in_state now 600 disk)).devices)
              || (revoked_key lib key (make_device_slot lib (expire_pending_in_state now 600 disk))
                  || leb 16 (
                      length
                        (make_device_slot lib (expire_pending_in_state now 600 disk)).devices)))
            ≡ true
          → ⊥
      full p = ground (arith, kept)

  consume_offer-Raises :
      (capability key binding : Bytes) (disk : State)
      → revoked_key lib key disk ≡ true
      → Raises disk (consume_offer lib env capability key binding)
  unfolding consume_offer
  consume_offer-Raises capability key binding disk h = Raises-require _ _ _ disk λ _.
      Raises-load lib _ disk (
        Raises-or_raise _ _ _ disk λ identity _. Raises-load lib _ disk (
          Raises-or_raise _ _ _ disk λ o _. Raises-clock _ _ disk λ now _.
            Raises-if (offer_matches lib o identity capability && usable o now) _ _ disk
              (λ _. admit_device-Raises o key binding now disk h)
              (λ _. reject_offer-Raises o now disk disk)))

  -- Once a key is revoked, in a record or in the compacted evidence, then after any sequence of calls,
  -- failing ones included, a pairing attempt with that key raises, whatever offer it answers to.
  pub revoked_key_never_pairs :
      (key : Bytes) (calls : List (Env × Call)) (disk : State) (capability binding : Bytes)
      → revoked_key lib key disk ≡ true
      → Raises (perform_all lib calls disk) (consume_offer lib env capability key binding)
  revoked_key_never_pairs key calls disk capability binding h =
      consume_offer-Raises capability key binding (perform_all lib calls disk)
        (Changes-revoked_key lib key (perform_all-Changes lib calls disk) h)

  mismatch-Raises :
      (capability key binding : Bytes) (disk : State)
      → ((o : Offer) (identity : Identity) (now : ℕ)
          → disk.pairing_offer ≡ some o
          → env.identity ≡ some identity
          → env.now ≡ some now
          → (offer_matches lib o identity capability && usable o now) ≡ false)
      → Raises disk (consume_offer lib env capability key binding)
  unfolding consume_offer
  mismatch-Raises capability key binding disk h = Raises-require _ _ _ disk λ _.
      Raises-load lib _ disk (
        Raises-or_raise _ _ _ disk λ identity e. Raises-load lib _ disk (
          Raises-or_raise _ _ _ disk λ o f. Raises-clock _ _ disk λ now g.
            Raises-if (offer_matches lib o identity capability && usable o now) _ _ disk
              (λ t. cc (h o identity now f e g)) (λ _. reject_offer-Raises o now disk disk)))

  -- The offer on disk is active, its time has not come at the reading of the clock, the digest of the
  -- capability is its digest, and it was made by this host: installation and public key are its own.
  pub record IsUsable (capability : Bytes) (disk : State) : Type 0 where
    pub offer : Offer
    pub identity : Identity
    pub now : ℕ
    pub stored : disk.pairing_offer ≡ some offer
    pub this_host : env.identity ≡ some identity
    pub clock : env.now ≡ some now
    pub is_active : offer.status ≡ active
    pub in_time : now < offer.expires_at
    pub digest : offer.capability_digest ≡ lib.sha256 capability
    pub installation : offer.installation_id ≡ identity.installation_id
    pub host_key : offer.host_public_key ≡ identity.public_key

  active_status : (o : Offer) → is_active_offer o ≡ true → o.status ≡ active
  active_status o h = ground (arith, h)

  checked :
      (capability : Bytes) (disk : State) (o : Offer) (identity : Identity) (now : ℕ)
      → disk.pairing_offer ≡ some o
      → env.identity ≡ some identity
      → env.now ≡ some now
      → (offer_matches lib o identity capability && usable o now) ≡ true
      → IsUsable capability disk
  checked capability disk o identity now e f g h = record {
    offer = o;
    identity = identity;
    now = now;
    stored = e;
    this_host = f;
    clock = g;
    is_active = active_status o (ground (arith, h));
    in_time = ground (arith, h);
    digest = sym (bytes_eq→eq _ _ (ground (arith, h)));
    installation = sym (bytes_eq→eq _ _ (ground (arith, h)));
    host_key = sym (bytes_eq→eq _ _ (ground (arith, h)));
  }

  raised_or_checked :
      (capability key binding : Bytes) (disk : State)
      → Raises disk (consume_offer lib env capability key binding) ⊎ IsUsable capability disk
  raised_or_checked capability key binding disk = elim (Option-cases disk.pairing_offer) [
    | inl e ↦
        inl (
          mismatch-Raises capability key binding disk
            (λ o i n f _ _. absurd (ground (arith, e, f))))
    | inr (o, e) ↦ elim (Option-cases env.identity) [
      | inl f ↦ inl (
          mismatch-Raises capability key binding disk
            (λ _ i _ _ g _. absurd (ground (arith, f, g))))
      | inr (identity, f) ↦ elim (Option-cases env.now) [
        | inl g ↦ inl (
            mismatch-Raises capability key binding disk
              (λ _ _ n _ _ h. absurd (ground (arith, g, h))))
        | inr (now, g) ↦
            elim (Bool-cases (offer_matches lib o identity capability && usable o now)) [
              | inl h ↦ inr (checked capability disk o identity now e f g h)
              | inr h ↦
                  inl (mismatch-Raises capability key binding disk (differs o identity now e f g h))
            ]
      ]
    ]
  ]
    where
      differs :
          (o : Offer) (identity : Identity) (now : ℕ)
          → disk.pairing_offer ≡ some o
          → env.identity ≡ some identity
          → env.now ≡ some now
          → (offer_matches lib o identity capability && usable o now) ≡ false
          → (p : Offer) (other : Identity) (t : ℕ) → disk.pairing_offer ≡ some p
          → env.identity ≡ some other
          → env.now ≡ some t
          → (offer_matches lib p other capability && usable p t) ≡ false
      differs o identity now e f g h p other t e' f' g' = cc

  -- A pairing attempt that returns had an offer on disk that was active and whose time had not come at the
  -- reading of the clock, with the digest of the capability presented and made by this host.
  pub unusable_offer_never_pairs :
      (capability key binding : Bytes) (disk : State) (summary : DeviceSummary)
      → (consume_offer lib env capability key binding disk).0 ≡ ok summary
      → IsUsable capability disk
  unusable_offer_never_pairs capability key binding disk summary e =
      elim (raised_or_checked capability key binding disk) [
        | inl r ↦ absurd (ground (arith, r.raised, e))
        | inr usable ↦ usable
      ]
