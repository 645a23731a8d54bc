-- ===== src/SecureChannel/Refinement.antt =====
-- Runs of operations on a `NoiseChannel`, secure_channel.py, against lives of an abstract channel.
use mercury_relay_plugin.Prelude.{◌≡◌, refl, subst, Bool, true, false, Option, List, [], ◌∷◌, Bytes}
use mercury_relay_plugin.SecureChannel.{
  Noise, NoiseChannel, is_complete, Reply, close, write_handshake, read_handshake, encrypt, decrypt,
  is_open, mark_admitted, mark_transport_bound, fresh,
}
use mercury_relay_plugin.SecureChannel.Phases.{
  Phase, handshaking, Op, writes, reads, encrypts, decrypts, admits, binds, closes, Permits,
  succeeded, phase, shut_phase, IsChannel, Refines, close-IsChannel,
}
use mercury_relay_plugin.SecureChannel.Handshake.{write_handshake-Refines, read_handshake-Refines}
use mercury_relay_plugin.SecureChannel.Records.{encrypt-Refines, decrypt-Refines}
use mercury_relay_plugin.SecureChannel.Marks.{mark_admitted-Refines, mark_transport_bound-Refines}

-- A life of a channel from one phase to another: its operations, and which of them succeed.
pub data Life (i : Bool) : Phase → List Op → List Bool → Phase → Type 0 where
  rests : {p : Phase} → Life i p [] [] p
  acts :
      {p q r : Phase} {op : Op} {ops : List Op} {done : Bool} {dones : List Bool}
      → Permits i p op done q
      → Life i q ops dones r
      → Life i p (op ∷ ops) (done ∷ dones) r

module _ {C : Type 0} where
  -- What a caller may ask of a channel, and did it succeed?
  abbrev pub performed : {A : Type 0} → Reply A C → Bool × NoiseChannel C
  performed r = (succeeded r.0, r.1)

  pub record Performs (op : Op) (c : NoiseChannel C) (r : Bool × NoiseChannel C) : Type 0 where
    pub permits : Permits c.is_initiator (phase c) op r.0 (phase r.1)
    pub is_channel : IsChannel r.1
    pub same_role : r.1.is_initiator ≡ c.is_initiator

  performed-Performs :
      {A : Type 0} (op : Op) (c : NoiseChannel C) (r : Reply A C)
      → Refines op c r
      → Performs op c (performed r)
  performed-Performs op c r h = record {
    permits = h.permits;
    is_channel = h.is_channel;
    same_role = h.same_role;
  }

  module _ (noise : Noise C) where
    unfoldable pub perform : Op → NoiseChannel C → Bool × NoiseChannel C
    perform (writes payload) c = performed (write_handshake noise payload c)
    perform (reads wire) c = performed (read_handshake noise wire c)
    perform (encrypts plaintext) c = performed (encrypt noise plaintext c)
    perform (decrypts ciphertext) c = performed (decrypt noise ciphertext c)
    perform admits c = performed (mark_admitted c)
    perform binds c = performed (mark_transport_bound c)
    perform closes c = (true, close c)

    unfoldable pub run : List Op → NoiseChannel C → List Bool × NoiseChannel C
    run [] c = ([], c)
    run (op ∷ ops) c =
        let (done, d) = perform op c in let (dones, e) = run ops d in (done ∷ dones, e)

    perform-Performs : (op : Op) (c : NoiseChannel C) → IsChannel c → Performs op c (perform op c)
    unfolding perform close
    perform-Performs (writes payload) c h =
        performed-Performs _ c _ (write_handshake-Refines noise payload c h)
    perform-Performs (reads wire) c h =
        performed-Performs _ c _ (read_handshake-Refines noise wire c h)
    perform-Performs (encrypts plaintext) c h =
        performed-Performs _ c _ (encrypt-Refines noise plaintext c h)
    perform-Performs (decrypts ciphertext) c h =
        performed-Performs _ c _ (decrypt-Refines noise ciphertext c h)
    perform-Performs admits c h = performed-Performs _ c _ (mark_admitted-Refines c h)
    perform-Performs binds c h = performed-Performs _ c _ (mark_transport_bound-Refines c h)
    perform-Performs closes c h = record {
      permits = (refl, shut_phase (close c) refl);
      is_channel = close-IsChannel c h;
      same_role = refl;
    }

    run-Life :
        (ops : List Op) (c : NoiseChannel C)
        → IsChannel c
        → Life c.is_initiator (phase c) ops (run ops c).0 (phase (run ops c).1)
          × IsChannel (run ops c).1
    unfolding run
    run-Life [] c h = (rests, h)
    run-Life (op ∷ ops) c h =
        let p = perform-Performs op c h in
        let (life, last) = run-Life ops (perform op c).1 p.is_channel in
        (
          acts p.permits (
              subst
                (λ i.
                  Life i (phase (perform op c).1) ops (run ops (perform op c).1).0
                    (phase (run ops (perform op c).1).1))
                p.same_role life),
          last,
        )

  fresh-IsChannel :
      (initiator : Bool) (remote : Option Bytes) (k : C) → IsChannel (fresh initiator remote k)
  unfolding fresh is_open is_complete
  fresh-IsChannel true remote k = record {
    alive = refl;
    role = refl;
    keys = refl;
    was_complete = refl;
    was_admitted = refl;
  }
  fresh-IsChannel false remote k = record {
    alive = refl;
    role = refl;
    keys = refl;
    was_complete = refl;
    was_admitted = refl;
  }

  phase-fresh :
      (initiator : Bool) (remote : Option Bytes) (k : C)
      → phase (fresh initiator remote k) ≡ handshaking 0
  unfolding fresh phase
  phase-fresh true remote k = refl
  phase-fresh false remote k = refl

  -- Whatever the Noise library answers, any operations on a channel that was just made are a life of the
  -- abstract channel that starts before the first message: each one succeeds only in a phase that permits
  -- it, and leads to the phase that it permits. The channel at the end is one of the side's again.
  pub fresh-Life :
      (noise : Noise C) (initiator : Bool) (remote : Option Bytes) (k : C) (ops : List Op)
      → Life initiator
          (handshaking 0)
          ops
          (run noise ops (fresh initiator remote k)).0
          (phase (run noise ops (fresh initiator remote k)).1)
        × IsChannel (run noise ops (fresh initiator remote k)).1
  unfolding fresh
  fresh-Life noise initiator remote k ops =
      let (life, last) =
        run-Life noise ops (fresh initiator remote k) (fresh-IsChannel initiator remote k) in
      (
        subst
            (λ p.
              Life initiator p ops (run noise ops (fresh initiator remote k)).0
                (phase (run noise ops (fresh initiator remote k)).1))
            (phase-fresh initiator remote k) life,
        last,
      )
