-- ===== src/SecureChannel/Records.antt =====
-- The records of `NoiseChannel`, secure_channel.py, against the life of a channel.
use mercury_relay_plugin.Prelude.{
  ℕ, ◌≡◌, refl, ap, ◌∙◌, inl, inr, Bool-cases, true, false, ◌||◌, Option, none, some, Bytes, length,
  ltb, leb, err, arith,
}
use mercury_relay_plugin.SecureChannel.{
  ChannelError, handshake_not_finished, channel_closed, plaintext_limit, ciphertext_limit, Noise,
  NoiseChannel, is_complete, Reply, close, fails, handshake_finished, transported, encrypt_open,
  encrypt, decrypt_open, decrypt, is_open,
}
use mercury_relay_plugin.SecureChannel.Phases.{
  encrypts, decrypts, is_up, Transport, succeeded, is_up-phase_of, phase, IsChannel,
  close-IsChannel, Refines, shut_phase, opens,
}

module _ {C : Type 0} where
  -- The transport of a record, before it is known which of the two it is.
  pub record Carries (c : NoiseChannel C) (r : Reply Bytes C) : Type 0 where
    pub transport : Transport (phase c) (succeeded r.0) (phase r.1)
    pub is_channel : IsChannel r.1
    pub same_role : r.1.is_initiator ≡ c.is_initiator

  pub is_up-finished : (c : NoiseChannel C) → is_up (phase c) ≡ handshake_finished c
  unfolding phase handshake_finished is_complete
  is_up-finished c = elim (Bool-cases c.closed) [
    | inl e ↦ ground (arith, e)
    | inr e ↦ ground (arith, e, is_up-phase_of c.next_action c.admitted c.transport_bound)
  ]

  kept-Carries :
      (c : NoiseChannel C) (reason : ChannelError)
      → IsChannel c
      → is_up (phase c) ≡ false
      → Carries c (err reason, c)
  kept-Carries c reason h e = record {
    transport = inr (inr (e, refl, refl));
    is_channel = h;
    same_role = refl;
  }

  refused-Carries :
      (c : NoiseChannel C) (reason : ChannelError)
      → IsChannel c
      → is_up (phase c) ≡ true
      → Carries c (err reason, c)
  refused-Carries c reason h e = record {
    transport = inl (e, refl);
    is_channel = h;
    same_role = refl;
  }

  transported-Carries :
      (limit : ℕ) (o : Option (Bytes × C)) (c : NoiseChannel C)
      → IsChannel c
      → c.closed ≡ false
      → is_up (phase c) ≡ true
      → Carries c (transported limit o c)
  unfolding transported fails close phase is_open
  transported-Carries limit none c h live up = record {
    transport = inr (inl (up, refl, refl));
    is_channel = close-IsChannel c h;
    same_role = refl;
  }
  transported-Carries limit (some (bytes, k)) c h live up =
      elim (Bool-cases (leb (length bytes) limit)) [
        | inl e ↦ rw e (record {
          transport = inl (up, refl);
          is_channel = record {
            alive = ground (arith, live);
            role = h.role;
            keys = h.keys;
            was_complete = h.was_complete;
            was_admitted = h.was_admitted;
          };
          same_role = refl;
        })
        | inr e ↦ rw e (record {
          transport = inr (inl (up, refl, refl));
          is_channel = close-IsChannel c h;
          same_role = refl;
        })
      ]

  module _ (noise : Noise C) where
    encrypt-Carries :
        (plaintext : Bytes) (c : NoiseChannel C)
        → IsChannel c
        → Carries c (encrypt noise plaintext c)
    unfolding encrypt encrypt_open
    encrypt-Carries plaintext c h = elim (opens c h) [
      | inl (e, gone) ↦ rw gone (kept-Carries c channel_closed h (ap is_up (shut_phase c e)))
      | inr (live, k, there) ↦ rw there (elim (Bool-cases (handshake_finished c)) [
        | inr e ↦ rw e (kept-Carries c handshake_not_finished h (is_up-finished c ∙ e))
        | inl e ↦ rw e (elim (Bool-cases (ltb 65_519 (length plaintext))) [
          | inl long ↦ rw long (refused-Carries c plaintext_limit h (is_up-finished c ∙ e))
          | inr short ↦ rw short (
              transported-Carries 65_535 (noise.encrypt_record k plaintext) c h live
                (is_up-finished c ∙ e))
        ])
      ])
    ]

    decrypt-Carries :
        (ciphertext : Bytes) (c : NoiseChannel C)
        → IsChannel c
        → Carries c (decrypt noise ciphertext c)
    unfolding decrypt decrypt_open
    decrypt-Carries ciphertext c h = elim (opens c h) [
      | inl (e, gone) ↦ rw gone (kept-Carries c channel_closed h (ap is_up (shut_phase c e)))
      | inr (live, k, there) ↦ rw there (elim (Bool-cases (handshake_finished c)) [
        | inr e ↦ rw e (kept-Carries c handshake_not_finished h (is_up-finished c ∙ e))
        | inl e ↦
            rw e (elim (Bool-cases (ltb 65_535 (length ciphertext) || ltb (length ciphertext) 16)) [
              | inl long ↦ rw long (refused-Carries c ciphertext_limit h (is_up-finished c ∙ e))
              | inr short ↦ rw short (
                  transported-Carries 65_519 (noise.decrypt_record k ciphertext) c h live
                    (is_up-finished c ∙ e))
            ])
      ])
    ]

    pub encrypt-Refines :
        (plaintext : Bytes) (c : NoiseChannel C)
        → IsChannel c
        → Refines (encrypts plaintext) c (encrypt noise plaintext c)
    encrypt-Refines plaintext c h =
        let r = encrypt-Carries plaintext c h in
        record { permits = r.transport; is_channel = r.is_channel; same_role = r.same_role }

    pub decrypt-Refines :
        (ciphertext : Bytes) (c : NoiseChannel C)
        → IsChannel c
        → Refines (decrypts ciphertext) c (decrypt noise ciphertext c)
    decrypt-Refines ciphertext c h =
        let r = decrypt-Carries ciphertext c h in
        record { permits = r.transport; is_channel = r.is_channel; same_role = r.same_role }
