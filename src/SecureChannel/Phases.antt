-- ===== src/SecureChannel/Phases.antt =====
-- `NoiseChannel` of secure_channel.py against the life of a channel: three messages in turn, then a
-- channel that is admitted once and bound once, until it is shut for good.
use mercury_relay_plugin.Prelude.{
  ℕ, zero, suc, ◌≡◌, ◌≢◌, refl, sym, ap, ◌∙◌, ◌⊎◌, inl, inr, Bool, Bool-cases, true, false, not,
  ◌&&◌, ◌||◌, Option, none, some, Bytes, if◌then◌else◌, Result, ok, err, arith,
}
use mercury_relay_plugin.SecureChannel.{
  ChannelError, Action, write1, read1, write2, read2, write3, read3, complete, NoiseChannel,
  after_write, after_read, is_complete, is_key, Reply, close, fails, open_connection, is_open,
}

pub data Phase : Type 0 where
  handshaking : ℕ → Phase
  established admitted bound shut : Phase

pub data Op : Type 0 where
  writes reads encrypts decrypts : Bytes → Op
  admits binds closes : Op

-- Does this side write the message with this number? The initiator writes the first and the last.
abbrev pub is_mine : Bool → ℕ → Bool
is_mine initiator zero = initiator
is_mine initiator (suc zero) = not initiator
is_mine initiator (suc (suc n)) = initiator

-- The phase after a message is exchanged; `none` where it is not the turn of the side.
abbrev pub forward : Bool → Bool → Phase → Option Phase
forward initiator writing established = none
forward initiator writing admitted = none
forward initiator writing bound = none
forward initiator writing shut = none
forward true true (handshaking zero) = some (handshaking 1)
forward true false (handshaking (suc zero)) = some (handshaking 2)
forward true true (handshaking (suc (suc n))) = some established
forward false false (handshaking zero) = some (handshaking 1)
forward false true (handshaking (suc zero)) = some (handshaking 2)
forward false false (handshaking (suc (suc n))) = some established
forward initiator writing (handshaking n) = none

abbrev pub is_up : Phase → Bool
is_up (handshaking n) = false
is_up established = true
is_up admitted = true
is_up bound = true
is_up shut = false

-- A message: what it leads to, or the end of the channel.
abbrev pub Exchange : Bool → Bool → Phase → Bool → Phase → Type 0
Exchange initiator writing p done q =
    ((done ≡ true) × (forward initiator writing p ≡ some q)) ⊎ ((done ≡ false) × (q ≡ shut))

-- A record: only on a channel that is up, and a failure may shut it.
abbrev pub Transport : Phase → Bool → Phase → Type 0
Transport p done q =
    ((is_up p ≡ true) × (q ≡ p))
    ⊎ (((is_up p ≡ true) × (done ≡ false) × (q ≡ shut))
        ⊎ ((is_up p ≡ false) × (done ≡ false) × (q ≡ p)))

abbrev pub Moves : Phase → Phase → Phase → Bool → Phase → Type 0
Moves from to p done q =
    ((done ≡ true) × (p ≡ from) × (q ≡ to)) ⊎ ((done ≡ false) × (p ≢ from) × (q ≡ p))

-- What an operation may do to a channel in phase `p`: whether it succeeds, and the phase that follows.
abbrev pub Permits : Bool → Phase → Op → Bool → Phase → Type 0
Permits initiator p (writes payload) done q = Exchange initiator true p done q
Permits initiator p (reads wire) done q = Exchange initiator false p done q
Permits initiator p (encrypts plaintext) done q = Transport p done q
Permits initiator p (decrypts ciphertext) done q = Transport p done q
Permits initiator p admits done q = Moves established admitted p done q
Permits initiator p binds done q = Moves admitted bound p done q
Permits initiator p closes done q = (done ≡ true) × (q ≡ shut)

abbrev pub up_phase : Bool → Bool → Phase
up_phase is_admitted true = bound
up_phase true false = admitted
up_phase false false = established

abbrev pub phase_of : Action → Bool → Bool → Phase
phase_of write1 a b = handshaking 0
phase_of read1 a b = handshaking 0
phase_of write2 a b = handshaking 1
phase_of read2 a b = handshaking 1
phase_of write3 a b = handshaking 2
phase_of read3 a b = handshaking 2
phase_of complete a b = up_phase a b

-- Does the action belong to the side?
abbrev pub fits_role : Action → Bool → Bool
fits_role write1 initiator = initiator
fits_role read1 initiator = not initiator
fits_role write2 initiator = not initiator
fits_role read2 initiator = initiator
fits_role write3 initiator = initiator
fits_role read3 initiator = not initiator
fits_role complete initiator = true

abbrev pub succeeded {ℓ} : {A : Type ℓ} {E : Type ℓ} → Result E A → Bool
succeeded (ok a) = true
succeeded (err e) = false

pub after_write-forward :
    (a : Action) (i : Bool) (size : ℕ) (next : Action)
    → after_write a i size ≡ some next
    → (forward i true (phase_of a false false) ≡ some (phase_of next false false))
      × (is_complete a ≡ false)
      × (fits_role next i ≡ true)
unfolding after_write is_complete
after_write-forward write1 true size next e = ground (arith, e)
after_write-forward write1 false size next e = cc
after_write-forward write2 true size next e = cc
after_write-forward write2 false size next e = ground (arith, e)
after_write-forward write3 true size next e = ground (arith, e)
after_write-forward write3 false size next e = cc
after_write-forward read1 i size next e = cc
after_write-forward read2 i size next e = cc
after_write-forward read3 i size next e = cc
after_write-forward complete i size next e = cc

pub after_read-forward :
    (a : Action) (i : Bool) (next : Action)
    → after_read a i ≡ some next
    → (forward i false (phase_of a false false) ≡ some (phase_of next false false))
      × (is_complete a ≡ false)
      × (fits_role next i ≡ true)
unfolding after_read is_complete
after_read-forward read1 true next e = cc
after_read-forward read1 false next e = ground (arith, e)
after_read-forward read2 true next e = ground (arith, e)
after_read-forward read2 false next e = cc
after_read-forward read3 true next e = cc
after_read-forward read3 false next e = ground (arith, e)
after_read-forward write1 i next e = cc
after_read-forward write2 i next e = cc
after_read-forward write3 i next e = cc
after_read-forward complete i next e = cc

-- The phase of an action is past the handshake just when the action is the last.
pub is_up-phase_of : (a : Action) (x y : Bool) → is_up (phase_of a x y) ≡ is_complete a
unfolding is_complete
is_up-phase_of write1 x y = refl
is_up-phase_of read1 x y = refl
is_up-phase_of write2 x y = refl
is_up-phase_of read2 x y = refl
is_up-phase_of write3 x y = refl
is_up-phase_of read3 x y = refl
is_up-phase_of complete x true = refl
is_up-phase_of complete true false = refl
is_up-phase_of complete false false = refl

pub is_complete-eq : (next : Action) → is_complete next ≡ true → complete ≡ next
unfolding is_complete
is_complete-eq write1 e = cc
is_complete-eq read1 e = cc
is_complete-eq write2 e = cc
is_complete-eq read2 e = cc
is_complete-eq write3 e = cc
is_complete-eq read3 e = cc
is_complete-eq complete e = refl

module _ {C : Type 0} where
  unfoldable pub phase : NoiseChannel C → Phase
  phase c = if c.closed then shut else phase_of c.next_action c.admitted c.transport_bound

  -- An open channel has a connection and a closed one has none, the action is one of the side's, an open
  -- channel that is complete has its keys, and it is complete before it is admitted, and admitted before it is bound.
  pub record IsChannel (c : NoiseChannel C) : Type 0 where
    pub alive : is_open c.connection ≡ not c.closed
    pub role : fits_role c.next_action c.is_initiator ≡ true
    pub keys :
        (c.closed
          || not (is_complete c.next_action)
          || (is_key c.channel_binding && is_key c.remote_static_public))
        ≡ true
    pub was_complete : (not c.admitted || is_complete c.next_action) ≡ true
    pub was_admitted : (not c.transport_bound || c.admitted) ≡ true

  -- A reply that leads to the phase, or that has shut the channel.
  pub record Leads (i : Bool) (target : Phase) (r : Reply Bytes C) : Type 0 where
    pub to :
        ((succeeded r.0 ≡ true) × (phase r.1 ≡ target))
        ⊎ ((succeeded r.0 ≡ false) × (phase r.1 ≡ shut))
    pub is_channel : IsChannel r.1
    pub same_role : r.1.is_initiator ≡ i

  pub close-IsChannel : (c : NoiseChannel C) → IsChannel c → IsChannel (close c)
  unfolding close is_open
  close-IsChannel c h = record {
    alive = refl;
    role = h.role;
    keys = refl;
    was_complete = h.was_complete;
    was_admitted = h.was_admitted;
  }

  -- Before its end a channel is neither admitted nor bound.
  pub not_yet :
      (c : NoiseChannel C)
      → IsChannel c
      → is_complete c.next_action ≡ false
      → (c.admitted ≡ false) × (c.transport_bound ≡ false)
  not_yet c h e =
      (ground (arith, h.was_complete, e), ground (arith, h.was_complete, h.was_admitted, e))

  pub fails-Leads :
      (reason : ChannelError) (target : Phase) (c : NoiseChannel C)
      → IsChannel c
      → Leads c.is_initiator target (fails reason c)
  unfolding fails close phase
  fails-Leads reason target c h = record {
    to = inr (refl, refl);
    is_channel = close-IsChannel c h;
    same_role = refl;
  }

  -- A reply of an operation: what it did is permitted, and the channel is still one of the side's.
  pub record Refines {A : Type 0} (op : Op) (c : NoiseChannel C) (r : Reply A C) : Type 0 where
    pub permits : Permits c.is_initiator (phase c) op (succeeded r.0) (phase r.1)
    pub is_channel : IsChannel r.1
    pub same_role : r.1.is_initiator ≡ c.is_initiator

  pub exchange :
      (i writing : Bool) (p target : Phase) (r : Reply Bytes C)
      → forward i writing p ≡ some target
      → Leads i target r
      → Exchange i writing p (succeeded r.0) (phase r.1)
  exchange i writing p target r f l = elim l.to [
    | inl (done, at) ↦ inl (done, f ∙ ap some (sym at))
    | inr (failed, at) ↦ inr (failed, at)
  ]

  pub running_phase :
      (c : NoiseChannel C)
      → IsChannel c
      → c.closed ≡ false
      → is_complete c.next_action ≡ false
      → phase c ≡ phase_of c.next_action false false
  unfolding phase
  running_phase c h live running = let (a, b) = not_yet c h running in rw (live, a, b) refl

  pub shut_phase : (c : NoiseChannel C) → c.closed ≡ true → phase c ≡ shut
  unfolding phase
  shut_phase c e = rw e refl

  -- A closed channel has no connection and an open one has one.
  is_open-eq-true : (o : Option C) → is_open o ≡ true → (k : C) × (o ≡ some k)
  unfolding is_open
  is_open-eq-true none e = cc
  is_open-eq-true (some k) e = (k, refl)

  pub opens :
      (c : NoiseChannel C)
      → IsChannel c
      → ((c.closed ≡ true) × (open_connection c ≡ none))
        ⊎ ((c.closed ≡ false) × (k : C) × (open_connection c ≡ some k))
  unfolding open_connection
  opens c h = elim (Bool-cases c.closed) [
    | inl e ↦ inl (e, ground (arith, e))
    | inr e ↦
        let (k, there) = is_open-eq-true c.connection (h.alive ∙ ap not e) in
        inr (e, k, ground (arith, e, there))
  ]

  pub closed-Refines :
      {A : Type 0} (op : Op) (c : NoiseChannel C) (reason : ChannelError)
      → IsChannel c
      → c.closed ≡ true
      → ((i : Bool) → Permits i shut op false shut)
      → Refines {A = A} op c (err reason, c)
  closed-Refines op c reason h e may = record {
    permits = rw (shut_phase c e) (may c.is_initiator);
    is_channel = h;
    same_role = refl;
  }
