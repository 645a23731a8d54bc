-- ===== src/Admission/Admitted.antt =====
-- What `open_controller` of admission.py has proved when it returns.
use Prim.Native.String.{String}
use mercury_relay_plugin.Prelude.{ℕ, ◌≡◌, refl, ◌⊎◌, inl, inr, true, Option, some, Bytes, ok, err}
use mercury_relay_plugin.StrictJson.{Json}
use mercury_relay_plugin.MethodPolicy.{codes}
use mercury_relay_plugin.SecureChannel.{Noise, NoiseChannel, decrypt}
use mercury_relay_plugin.Authorization.Records.{State, Library}
use mercury_relay_plugin.Authorization.{is_authorized, list_devices}
use mercury_relay_plugin.Admission.{Refusal, AuthEnvelope, parse_controller_auth}
use mercury_relay_plugin.Admission.Open.{
  Leases, World, Answers, epoch_of, remote_key, unless_claimed, list_again, prove_again, listed,
  noted, opened, open_controller,
}
use mercury_relay_plugin.Admission.Claims.{IsClaimed, IsUnclaimed, IsUnclaimed-cases}
use mercury_relay_plugin.Admission.Stages.{
  Leased, Ends, Marked, epoch_again-Ends, keyed-Ends, keyed_again-Ends, mark-Ends, opened-Ends,
  parsed-Ends, permitted-Ends, profile_again-Ends, proved-Ends, proved_again-Ends, with_epoch-Ends,
}

module _ {C L A : Type 0} (lib : Library) (leases : Leases L A) (answers : Answers C L)
    (noise : Noise C) (decode : Bytes → Option String) (loads : String → Option Json)
    (ciphertext : Bytes) (w : World C L) where
  -- The first proofs: the envelope came through the channel; the key of the peer is that of an authorized
  -- device, the profile is permitted, and the device has an epoch.
  pub record FirstProofs : Type 0 where
    pub plaintext : Bytes
    pub carried : NoiseChannel C
    pub decrypted : decrypt noise ciphertext w.channel ≡ (ok plaintext, carried)
    pub envelope : AuthEnvelope
    pub says : parse_controller_auth decode loads plaintext ≡ ok envelope
    pub key : Bytes
    pub has_key : remote_key carried ≡ some key
    pub state : State
    pub authorized :
        is_authorized lib
          (codes envelope.device_id)
          key
          (noted lib leases answers envelope key w.state)
        ≡ (ok true, state)
    pub permitted : answers.first_profile envelope.profile ≡ some true
    pub epoch : ℕ
    pub has_epoch :
        epoch_of (codes envelope.device_id) (list_devices lib answers.first state).0 ≡ ok epoch

  -- The proofs behind an admission: the first proofs; the lease is the one asked for with them, on the leases
  -- that there were at the start; and after the awaits the proofs hold once more, at the same epoch.
  pub record IsAdmitted (a : A) (last : World C L) : Type 0 where
    pub first : FirstProofs
    pub lease : L
    pub leased : Leased leases first.envelope first.key first.epoch w.leases a lease
    pub late : World C L
    pub awaited :
        late
        ≡ answers.awaited (record {
          state = (list_devices lib answers.first first.state).1;
          channel = first.carried;
          leases = lease;
        })
    pub late_key : Bytes
    pub has_late_key : remote_key late.channel ≡ some late_key
    pub late_state : State
    pub still_authorized :
        is_authorized lib (codes first.envelope.device_id) late_key late.state
        ≡ (ok true, late_state)
    pub same_epoch :
        epoch_of (codes first.envelope.device_id) (list_devices lib answers.second late_state).0
        ≡ ok first.epoch
    pub still_permitted : answers.second_profile first.envelope.profile ≡ some true
    pub marked : Marked last.channel

  -- No lease was asked for or released, or the first proofs hold.
  abbrev pub IsEarly : L → Type 0
  IsEarly l = (l ≡ w.leases) ⊎ FirstProofs

  proved_twice :
      (first : FirstProofs) (a : A) (l : L)
      → Leased leases first.envelope first.key first.epoch w.leases a l
      → Ends IsAdmitted IsEarly (
          prove_again lib leases answers first.envelope a first.epoch (
            answers.awaited (record {
              state = (list_devices lib answers.first first.state).1;
              channel = first.carried;
              leases = l;
            })))
  unfolding list_again prove_again
  proved_twice first a l leased =
      let e = first.envelope in
      let late : (l : L) → IsEarly l = λ _. inr first in
      keyed_again-Ends lib leases answers IsAdmitted IsEarly e a first.epoch _ _ late
        λ late_key has_late_key.
          proved_again-Ends lib leases answers IsAdmitted IsEarly e a first.epoch _ _ late
            λ late_state still_authorized.
              epoch_again-Ends lib leases answers IsAdmitted IsEarly e a first.epoch _ _ late
                λ same_epoch.
                  profile_again-Ends lib leases answers IsAdmitted IsEarly e a _ _ late
                    λ still_permitted.
                      mark-Ends lib leases answers IsAdmitted IsEarly a _ late λ d marked. record {
                        first = first;
                        lease = l;
                        leased = leased;
                        late = answers.awaited (record {
                          state = (list_devices lib answers.first first.state).1;
                          channel = first.carried;
                          leases = l;
                        });
                        awaited = refl;
                        late_key = late_key;
                        has_late_key = has_late_key;
                        late_state = late_state;
                        still_authorized = still_authorized;
                        same_epoch = same_epoch;
                        still_permitted = still_permitted;
                        marked = marked;
                      }

  opened-IsAdmitted : Ends IsAdmitted IsEarly (
      opened lib leases answers
        (parse_controller_auth decode loads)
        (decrypt noise ciphertext w.channel)
        w)
  unfolding listed
  opened-IsAdmitted =
      opened-Ends lib leases answers IsAdmitted IsEarly _ _ w (inl refl) λ plaintext c decrypted.
        parsed-Ends lib leases answers IsAdmitted IsEarly _ _ (inl refl) λ e says.
          keyed-Ends lib leases answers IsAdmitted IsEarly e _ _ (inl refl) λ key has_key.
            proved-Ends lib leases answers IsAdmitted IsEarly e key _ _ (inl refl)
              λ state authorized.
                permitted-Ends lib leases answers IsAdmitted IsEarly e key _ _ (inl refl)
                  λ permitted.
                    let first : (epoch : ℕ)
                        → epoch_of (codes e.device_id) (list_devices lib answers.first state).0
                          ≡ ok epoch
                        → FirstProofs =
                      λ epoch has_epoch. record {
                        plaintext = plaintext;
                        carried = c;
                        decrypted = decrypted;
                        envelope = e;
                        says = says;
                        key = key;
                        has_key = has_key;
                        state = state;
                        authorized = authorized;
                        permitted = permitted;
                        epoch = epoch;
                        has_epoch = has_epoch;
                      } in
                    with_epoch-Ends lib leases answers IsAdmitted IsEarly e key _ _ (inl refl)
                      (λ epoch has_epoch l. inr (first epoch has_epoch))
                      λ epoch a l has_epoch leased. proved_twice (first epoch has_epoch) a l leased

  -- A channel that is the initiator's, in its handshake, closed or admitted already is refused with that
  -- reason, and nothing changes. With any other, `open_controller` returns only with its envelope read from the
  -- channel, the device that it names authorized with the key of the channel's peer, its profile permitted and
  -- its epoch found; with the lease that was then asked for, on the leases as they were at the start; and with
  -- the same proofs once more after the awaits, at the same epoch, and the channel is then finished and
  -- admitted. Where it raises, the channel is closed, and the leases are those of the start unless the first
  -- proofs hold.
  pub open_controller-IsAdmitted :
      ((reason : Refusal) × IsClaimed w.channel reason
        × (open_controller lib leases answers noise decode loads ciphertext w ≡ (err reason, w)))
      ⊎ (IsUnclaimed w.channel
          × Ends IsAdmitted IsEarly
              (open_controller lib leases answers noise decode loads ciphertext w))
  unfolding open_controller unless_claimed
  open_controller-IsAdmitted = elim (IsUnclaimed-cases w.channel) [
    | inl (reason, claimed, e) ↦ inl (reason, claimed, rw e refl)
    | inr (free, e) ↦ inr (free, rw e opened-IsAdmitted)
  ]
