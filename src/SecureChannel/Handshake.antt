-- ===== src/SecureChannel/Handshake.antt =====
-- The handshake of `NoiseChannel`, secure_channel.py, against the life of a channel.
use mercury_relay_plugin.Prelude.{
  ◌≡◌, refl, ap, ◌∙◌, subst, inl, inr, Bool-cases, true, false, ◌&&◌, Option, none, some, Bytes,
  length, ltb, ok, arith,
}
use mercury_relay_plugin.SecureChannel.{
  authentication_failed, channel_closed, Action, Noise, NoiseChannel, after_write, after_read,
  may_carry, is_complete, is_wire_size, peer_of, is_key, close, fails, finished_with,
  finish_handshake, advance, wrote, write_next, write_open, write_handshake, was_read, read_next,
  read_open, read_handshake, is_open,
}
use mercury_relay_plugin.SecureChannel.Phases.{
  established, writes, reads, forward, phase_of, fits_role, is_complete-eq, after_write-forward,
  after_read-forward, phase, IsChannel, Leads, close-IsChannel, not_yet, fails-Leads, Refines,
  exchange, running_phase, opens, closed-Refines,
}

module _ {C : Type 0} where
  -- What is left to show of a channel once the message has gone through.
  finished_with-Leads :
      (reply : Bytes) (binding peer : Option Bytes) (c : NoiseChannel C)
      → is_open c.connection ≡ true
      → c.closed ≡ false
      → (c.admitted ≡ false) × (c.transport_bound ≡ false)
      → fits_role c.next_action c.is_initiator ≡ true
      → Leads c.is_initiator established (finished_with reply binding peer c)
  unfolding finished_with phase is_complete fails close is_open
  finished_with-Leads reply binding peer c h live (a, b) role =
      elim (Bool-cases (is_key binding && is_key peer)) [
        | inl e ↦ rw e (record {
          to = inl (refl, ground (arith, live, a, b));
          is_channel = record {
            alive = ground (arith, h, live);
            role = refl;
            keys = ground (arith, e);
            was_complete = ground arith;
            was_admitted = ground (arith, a, b);
          };
          same_role = refl;
        })
        | inr e ↦ rw e (record {
          to = inr (refl, refl);
          is_channel = record {
            alive = refl;
            role = role;
            keys = refl;
            was_complete = ground (arith, a);
            was_admitted = ground (arith, a, b);
          };
          same_role = refl;
        })
      ]

  module _ (noise : Noise C) where
    moved-Leads :
        (next : Action) (reply : Bytes) (k : C) (c : NoiseChannel C)
        → IsChannel c
        → c.closed ≡ false
        → (c.admitted ≡ false) × (c.transport_bound ≡ false)
        → fits_role next c.is_initiator ≡ true
        → is_complete next ≡ false
        → Leads c.is_initiator
            (phase_of next false false)
            (ok reply, record c { connection = some k; next_action = next })
    unfolding phase is_open
    moved-Leads next reply k c h live (a, b) fits more = record {
      to = inl (refl, rw (live, a, b) refl);
      is_channel = record {
        alive = ground (arith, live);
        role = fits;
        keys = ground (arith, more);
        was_complete = ground (arith, a);
        was_admitted = ground (arith, a, b);
      };
      same_role = refl;
    }

    advance-Leads :
        (next : Action) (reply : Bytes) (k : C) (c : NoiseChannel C)
        → IsChannel c
        → c.closed ≡ false
        → is_complete c.next_action ≡ false
        → fits_role next c.is_initiator ≡ true
        → Leads c.is_initiator (phase_of next false false) (advance noise next reply k c)
    unfolding advance finish_handshake is_open
    advance-Leads next reply k c h live running fits = elim (Bool-cases (is_complete next)) [
      | inl e ↦ rw e (
          subst
            (λ a. Leads c.is_initiator (phase_of a false false) (
              finished_with reply (noise.handshake_hash k)
                (peer_of (noise.captured_peer k) c.configured_remote_static)
                (record c { connection = some k; next_action = next })))
            (is_complete-eq next e)
            (finished_with-Leads reply _ _ (record c { connection = some k; next_action = next })
              refl live (not_yet c h running) fits))
      | inr e ↦ rw e (moved-Leads next reply k c h live (not_yet c h running) fits e)
    ]

    wrote-Leads :
        (next : Action) (o : Option (Bytes × C)) (c : NoiseChannel C)
        → IsChannel c
        → c.closed ≡ false
        → is_complete c.next_action ≡ false
        → fits_role next c.is_initiator ≡ true
        → Leads c.is_initiator (phase_of next false false) (wrote noise next o c)
    unfolding wrote
    wrote-Leads next none c h live running fits = fails-Leads authentication_failed _ c h
    wrote-Leads next (some (wire, k)) c h live running fits =
        elim (Bool-cases (is_wire_size (length wire))) [
          | inl e ↦ rw e (advance-Leads next wire k c h live running fits)
          | inr e ↦ rw e (fails-Leads authentication_failed _ c h)
        ]

    was_read-Leads :
        (next : Action) (o : Option (Bytes × C)) (c : NoiseChannel C)
        → IsChannel c
        → c.closed ≡ false
        → is_complete c.next_action ≡ false
        → fits_role next c.is_initiator ≡ true
        → Leads c.is_initiator (phase_of next false false) (was_read noise next o c)
    unfolding was_read
    was_read-Leads next none c h live running fits = fails-Leads authentication_failed _ c h
    was_read-Leads next (some (payload, k)) c h live running fits =
        elim (Bool-cases (may_carry c.next_action (length payload))) [
          | inl e ↦ rw e (advance-Leads next payload k c h live running fits)
          | inr e ↦ rw e (fails-Leads authentication_failed _ c h)
        ]

  module _ (noise : Noise C) where
    failed_write :
        (payload : Bytes) (c : NoiseChannel C)
        → IsChannel c
        → Refines (writes payload) c (fails authentication_failed c)
    unfolding fails close phase
    failed_write payload c h = record {
      permits = inr (refl, refl);
      is_channel = close-IsChannel c h;
      same_role = refl;
    }

    write_next-Refines :
        (next : Option Action) (payload : Bytes) (k : C) (c : NoiseChannel C)
        → IsChannel c
        → c.closed ≡ false
        → after_write c.next_action c.is_initiator (length payload) ≡ next
        → Refines (writes payload) c (write_next noise next payload k c)
    unfolding write_next
    write_next-Refines none payload k c h live e = failed_write payload c h
    write_next-Refines (some next) payload k c h live e =
        let (turn, running, fits) =
          after_write-forward c.next_action c.is_initiator (length payload) next e in
        let l = wrote-Leads noise next (noise.write_message k payload) c h live running fits in
        record {
          permits =
              exchange c.is_initiator true (phase c) (phase_of next false false) _
                (ap (forward c.is_initiator true) (running_phase c h live running) ∙ turn) l;
          is_channel = l.is_channel;
          same_role = l.same_role;
        }

    pub write_handshake-Refines :
        (payload : Bytes) (c : NoiseChannel C)
        → IsChannel c
        → Refines (writes payload) c (write_handshake noise payload c)
    unfolding write_handshake write_open
    write_handshake-Refines payload c h = elim (opens c h) [
      | inl (e, gone) ↦
          rw gone (closed-Refines (writes payload) c channel_closed h e (λ i. inr (refl, refl)))
      | inr (live, k, there) ↦ rw there (elim (Bool-cases (ltb 32 (length payload))) [
        | inl long ↦ rw long (failed_write payload c h)
        | inr short ↦ rw short (write_next-Refines _ payload k c h live refl)
      ])
    ]

    failed_read :
        (wire : Bytes) (c : NoiseChannel C)
        → IsChannel c
        → Refines (reads wire) c (fails authentication_failed c)
    unfolding fails close phase
    failed_read wire c h = record {
      permits = inr (refl, refl);
      is_channel = close-IsChannel c h;
      same_role = refl;
    }

    read_next-Refines :
        (next : Option Action) (wire : Bytes) (k : C) (c : NoiseChannel C)
        → IsChannel c
        → c.closed ≡ false
        → after_read c.next_action c.is_initiator ≡ next
        → Refines (reads wire) c (read_next noise next wire k c)
    unfolding read_next
    read_next-Refines none wire k c h live e = failed_read wire c h
    read_next-Refines (some next) wire k c h live e =
        let (turn, running, fits) = after_read-forward c.next_action c.is_initiator next e in
        let l = was_read-Leads noise next (noise.read_message k wire) c h live running fits in
        record {
          permits =
              exchange c.is_initiator false (phase c) (phase_of next false false) _
                (ap (forward c.is_initiator false) (running_phase c h live running) ∙ turn) l;
          is_channel = l.is_channel;
          same_role = l.same_role;
        }

    pub read_handshake-Refines :
        (wire : Bytes) (c : NoiseChannel C)
        → IsChannel c
        → Refines (reads wire) c (read_handshake noise wire c)
    unfolding read_handshake read_open
    read_handshake-Refines wire c h = elim (opens c h) [
      | inl (e, gone) ↦
          rw gone (closed-Refines (reads wire) c channel_closed h e (λ i. inr (refl, refl)))
      | inr (live, k, there) ↦ rw there (elim (Bool-cases (is_wire_size (length wire))) [
        | inl e ↦ rw e (read_next-Refines _ wire k c h live refl)
        | inr e ↦ rw e (failed_read wire c h)
      ])
    ]
