-- ===== src/Admission/Stages.antt =====
-- The stages of an admission of admission.py: each one goes on, or closes the channel.
use mercury_relay_plugin.Prelude.{
  ℕ, ◌≡◌, ◌≢◌, refl, sym, ◌∙◌, ap, subst, inl, inr, Bool, Bool-cases, true, false, not, Option,
  none, some, Bytes, ◌==◌, Result, ok, err, arith,
}
use mercury_relay_plugin.MethodPolicy.{codes}
use mercury_relay_plugin.SecureChannel.{
  ChannelError, NoiseChannel, Reply, handshake_finished, mark_admitted, close, is_open,
  open_connection,
}
use mercury_relay_plugin.Authorization.Records.{State, Library}
use mercury_relay_plugin.Authorization.{Error, is_authorized, list_devices}
use mercury_relay_plugin.Admission.{Refusal, AuthEnvelope}
use mercury_relay_plugin.Admission.Open.{
  Leases, World, Answers, Admission, asked_for, remote_key, refuses, was_marked, mark, withdraws,
  profile_again, epoch_again, list_again, proved_again, keyed_again, prove_again, has_lease,
  take_lease, with_epoch, listed, permitted, proved, noted, keyed, parsed, opened,
}

-- A channel that `mark_admitted` has just marked.
pub record Marked {C : Type 0} (c : NoiseChannel C) : Type 0 where
  pub finished : handshake_finished c ≡ true
  pub is_admitted : c.admitted ≡ true

pub mark_admitted-Marked :
    {C : Type 0} (c d : NoiseChannel C) (u : Unit {0}) → mark_admitted c ≡ (ok u, d) → Marked d
unfolding mark_admitted handshake_finished
mark_admitted-Marked c d u e = elim (Bool-cases (not (is_open (open_connection c)))) [
  | inl shut ↦ absurd (ground (arith, e, shut))
  | inr live ↦ elim (Bool-cases (handshake_finished c)) [
    | inr early ↦ absurd (ground (arith, e, live, early))
    | inl up ↦ elim (Bool-cases c.admitted) [
      | inl was ↦ absurd (ground (arith, e, live, up, was))
      | inr new ↦
          let marked : record c { admitted = true } ≡ d = ground (arith, e, live, up, new) in
          subst Marked marked (record { finished = up; is_admitted = refl })
    ]
  ]
]

-- A lease was asked for once, with what there is for the device and the channel: nothing, a lease of the same
-- epoch, or one of another epoch, and then the leases of the device were released first.
pub data Leased {L A : Type 0} (leases : Leases L A) (e : AuthEnvelope) (key : Bytes) (epoch : ℕ)
    (before : L) (a : A) (after : L) : Type 0 where
  first_lease :
      leases.get e.device_id e.lease_channel before ≡ none
      → leases.ask (asked_for e none) e key epoch before ≡ (ok a, after)
      → Leased leases e key epoch before a after
  same_lease :
      leases.get e.device_id e.lease_channel before ≡ some epoch
      → leases.ask (asked_for e (some epoch)) e key epoch before ≡ (ok a, after)
      → Leased leases e key epoch before a after
  released_first :
      (was : ℕ)
      → leases.get e.device_id e.lease_channel before ≡ some was
      → was ≢ epoch
      → leases.ask (asked_for e none) e key epoch (leases.release_device e.device_id before)
        ≡ (ok a, after)
      → Leased leases e key epoch before a after

module _ {C L : Type 0} where
  abbrev EndsIn :
      {A : Type 0} → (A → World C L → Type 0) → (L → Type 0) → Result Refusal A → World C L → Type 0
  EndsIn P Q (ok a) w = P a w
  EndsIn P Q (err reason) w = (w.channel.closed ≡ true) × Q w.leases

  -- A call that returns has the property `P`; one that is refused has closed the channel, and the leases
  -- that it leaves have the property `Q`.
  pub record Ends {A : Type 0} (P : A → World C L → Type 0) (Q : L → Type 0) (r : Admission A C L)
      : Type 0 where
    pub ends_in : EndsIn P Q r.0 r.1

  pub refuses-Ends :
      {A : Type 0} (P : A → World C L → Type 0) (Q : L → Type 0) (reason : Refusal) (w : World C L)
      → Q w.leases
      → Ends P Q (refuses reason w)
  unfolding refuses close
  refuses-Ends P Q reason w q = record { ends_in = (refl, q) }

  module _ {A : Type 0} (lib : Library) (leases : Leases L A) (answers : Answers C L)
      (P : A → World C L → Type 0) (Q : L → Type 0) where
    was_marked-Ends :
        (a : A) (w : World C L) (r : Result ChannelError (Unit {0}) × NoiseChannel C)
        → ((l : L) → Q l)
        → mark_admitted w.channel ≡ r
        → ((d : NoiseChannel C) → Marked d → P a (record w { channel = d }))
        → Ends P Q (was_marked lib leases answers a w r)
    unfolding was_marked
    was_marked-Ends a w (ok u, d) late e next = record {
      ends_in = next d (mark_admitted-Marked w.channel d u e);
    }
    was_marked-Ends a w (err x, d) late e next = refuses-Ends P Q _ _ (late _)

    pub mark-Ends :
        (a : A) (w : World C L)
        → ((l : L) → Q l)
        → ((d : NoiseChannel C) → Marked d → P a (record w { channel = d }))
        → Ends P Q (mark lib leases answers a w)
    unfolding mark
    mark-Ends a w late next = was_marked-Ends a w _ late refl next

    pub profile_again-Ends :
        (e : AuthEnvelope) (a : A) (o : Option Bool) (w : World C L)
        → ((l : L) → Q l)
        → (o ≡ some true → Ends P Q (mark lib leases answers a w))
        → Ends P Q (profile_again lib leases answers e a o w)
    unfolding profile_again withdraws
    profile_again-Ends e a none w late next = refuses-Ends P Q _ w (late _)
    profile_again-Ends e a (some false) w late next = refuses-Ends P Q _ _ (late _)
    profile_again-Ends e a (some true) w late next = next refl

    pub epoch_again-Ends :
        (e : AuthEnvelope) (a : A) (epoch : ℕ) (r : Result Refusal ℕ) (w : World C L)
        → ((l : L) → Q l)
        → (r ≡ ok epoch
            → Ends P Q (profile_again lib leases answers e a (answers.second_profile e.profile) w))
        → Ends P Q (epoch_again lib leases answers e a epoch r w)
    unfolding epoch_again withdraws
    epoch_again-Ends e a epoch (err x) w late next = refuses-Ends P Q _ w (late _)
    epoch_again-Ends e a epoch (ok now) w late next = elim (Bool-cases (now == epoch)) [
      | inl same ↦ rw same (next (ap ok (ground (arith, same))))
      | inr other ↦ rw other (refuses-Ends P Q _ _ (late _))
    ]

    pub proved_again-Ends :
        (e : AuthEnvelope) (a : A) (epoch : ℕ) (r : Result Error Bool × State) (w : World C L)
        → ((l : L) → Q l)
        → ((state : State)
            → r ≡ (ok true, state)
            → Ends P Q (
                list_again lib leases answers e a epoch
                  (list_devices lib answers.second state)
                  (record w { state = state })))
        → Ends P Q (proved_again lib leases answers e a epoch r w)
    unfolding proved_again withdraws
    proved_again-Ends e a epoch (err x, state) w late next = refuses-Ends P Q _ _ (late _)
    proved_again-Ends e a epoch (ok false, state) w late next = refuses-Ends P Q _ _ (late _)
    proved_again-Ends e a epoch (ok true, state) w late next = next state refl

    pub keyed_again-Ends :
        (e : AuthEnvelope) (a : A) (epoch : ℕ) (o : Option Bytes) (w : World C L)
        → ((l : L) → Q l)
        → ((key : Bytes)
            → o ≡ some key
            → Ends P Q (
                proved_again lib leases answers e a epoch
                  (is_authorized lib (codes e.device_id) key w.state)
                  w))
        → Ends P Q (keyed_again lib leases answers e a epoch o w)
    unfolding keyed_again
    keyed_again-Ends e a epoch none w late next = refuses-Ends P Q _ w (late _)
    keyed_again-Ends e a epoch (some key) w late next = next key refl

    has_lease-Ends :
        (e : AuthEnvelope) (epoch : ℕ) (r : Result Refusal A × L) (w : World C L)
        → ((l : L) → Q l)
        → ((a : A) (l : L)
            → r ≡ (ok a, l)
            → Ends P Q (
                prove_again lib leases answers e a epoch
                  (answers.awaited (record w { leases = l }))))
        → Ends P Q (has_lease lib leases answers e epoch r w)
    unfolding has_lease
    has_lease-Ends e epoch (err x, l) w late next = refuses-Ends P Q _ _ (late _)
    has_lease-Ends e epoch (ok a, l) w late next = next a l refl

    take_lease-Ends :
        (e : AuthEnvelope) (key : Bytes) (epoch : ℕ) (o : Option ℕ) (w : World C L)
        → leases.get e.device_id e.lease_channel w.leases ≡ o
        → ((l : L) → Q l)
        → ((a : A) (l : L)
            → Leased leases e key epoch w.leases a l
            → Ends P Q (
                prove_again lib leases answers e a epoch
                  (answers.awaited (record w { leases = l }))))
        → Ends P Q (take_lease lib leases answers e key epoch o w)
    unfolding take_lease
    take_lease-Ends e key epoch none w there late next =
        has_lease-Ends e epoch _ w late (λ a l is. next a l (first_lease there is))
    take_lease-Ends e key epoch (some was) w there late next = elim (Bool-cases (was == epoch)) [
      | inl same ↦
          let is_same : was ≡ epoch = ground (arith, same) in
          rw same (
            has_lease-Ends e epoch _ w late λ a l is. next a l (
              same_lease (there ∙ ap some is_same) (
                ap (λ n. leases.ask (asked_for e (some n)) e key epoch w.leases) (sym is_same)
                ∙ is)))
      | inr other ↦ rw other (
          has_lease-Ends e epoch _ w late
            λ a l is. next a l (released_first was there (λ same. ground (arith, other, same)) is))
    ]

    pub with_epoch-Ends :
        (e : AuthEnvelope) (key : Bytes) (r : Result Refusal ℕ) (w : World C L)
        → Q w.leases
        → ((epoch : ℕ) → r ≡ ok epoch → (l : L) → Q l)
        → ((epoch : ℕ) (a : A) (l : L)
            → r ≡ ok epoch
            → Leased leases e key epoch w.leases a l
            → Ends P Q (
                prove_again lib leases answers e a epoch
                  (answers.awaited (record w { leases = l }))))
        → Ends P Q (with_epoch lib leases answers e key r w)
    unfolding with_epoch
    with_epoch-Ends e key (err x) w early late next = refuses-Ends P Q _ w early
    with_epoch-Ends e key (ok epoch) w early late next =
        take_lease-Ends e key epoch _ w refl (late epoch refl) (λ a l. next epoch a l refl)

    pub permitted-Ends :
        (e : AuthEnvelope) (key : Bytes) (o : Option Bool) (w : World C L)
        → Q w.leases
        → (o ≡ some true
            → Ends P Q (listed lib leases answers e key (list_devices lib answers.first w.state) w))
        → Ends P Q (permitted lib leases answers e key o w)
    unfolding permitted
    permitted-Ends e key none w early next = refuses-Ends P Q _ w early
    permitted-Ends e key (some false) w early next = refuses-Ends P Q _ w early
    permitted-Ends e key (some true) w early next = next refl

    pub proved-Ends :
        (e : AuthEnvelope) (key : Bytes) (r : Result Error Bool × State) (w : World C L)
        → Q w.leases
        → ((state : State)
            → r ≡ (ok true, state)
            → Ends P Q (
                permitted lib leases answers e key
                  (answers.first_profile e.profile)
                  (record w { state = state })))
        → Ends P Q (proved lib leases answers e key r w)
    unfolding proved
    proved-Ends e key (err x, state) w early next = refuses-Ends P Q _ _ early
    proved-Ends e key (ok false, state) w early next = refuses-Ends P Q _ _ early
    proved-Ends e key (ok true, state) w early next = next state refl

    pub keyed-Ends :
        (e : AuthEnvelope) (o : Option Bytes) (w : World C L)
        → Q w.leases
        → ((key : Bytes)
            → o ≡ some key
            → Ends P Q (
                proved lib leases answers e key
                  (is_authorized lib
                    (codes e.device_id)
                    key
                    (noted lib leases answers e key w.state))
                  w))
        → Ends P Q (keyed lib leases answers e o w)
    unfolding keyed
    keyed-Ends e none w early next = refuses-Ends P Q _ w early
    keyed-Ends e (some key) w early next = next key refl

    pub parsed-Ends :
        (r : Result Refusal AuthEnvelope) (w : World C L)
        → Q w.leases
        → ((e : AuthEnvelope)
            → r ≡ ok e
            → Ends P Q (keyed lib leases answers e (remote_key w.channel) w))
        → Ends P Q (parsed lib leases answers r w)
    unfolding parsed
    parsed-Ends (err x) w early next = refuses-Ends P Q _ w early
    parsed-Ends (ok e) w early next = next e refl

    pub opened-Ends :
        (parse : Bytes → Result Refusal AuthEnvelope) (r : Reply Bytes C) (w : World C L)
        → Q w.leases
        → ((plaintext : Bytes) (c : NoiseChannel C)
            → r ≡ (ok plaintext, c)
            → Ends P Q (parsed lib leases answers (parse plaintext) (record w { channel = c })))
        → Ends P Q (opened lib leases answers parse r w)
    unfolding opened
    opened-Ends parse (err x, c) w early next = refuses-Ends P Q _ _ early
    opened-Ends parse (ok plaintext, c) w early next = next plaintext c refl
