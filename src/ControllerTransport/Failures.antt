-- ===== src/ControllerTransport/Failures.antt =====
-- How `EncryptedControllerTransport` of controller_transport.py ends: an error shuts all that the
-- transport owns, once, and detaches with the reason that is raised.
use mercury_relay_plugin.Prelude.{
  ◌≡◌, refl, sym, subst, ap, ◌∙◌, [], ◌∷◌, ◌⊎◌, inl, inr, Bool, Bool-cases, true, false, Option,
  none, some, List, Bytes, length, ◌==◌, if◌then◌else◌, Result, ok, err, arith,
}
use mercury_relay_plugin.Framing.{Error}
use mercury_relay_plugin.Framing.Reassembler.{Reassembler, reset}
use mercury_relay_plugin.Framing.Reassembler.Messages.{IsIdle}
use mercury_relay_plugin.SecureChannel.{
  ChannelError, Noise, NoiseChannel, close, encrypt, encrypt_open, open_connection,
}
use mercury_relay_plugin.ControllerTransport.{
  Failure, Reason, channel_closed, malformed_frame, protocol_violation, Outcome, returns, raises,
  passes, Attachment, Transport, inbound_reason, outbound_reason, Step, close_with, fails, caught,
  require_open, was_fed, feed_message, was_pushed, was_decrypted, feed_ciphertext, was_encrypted,
  encrypt_all, was_encoded, send_message, was_taken, next_ciphertexts,
}

module _ {C W : Type 0} where
  -- Nothing of the connection is left.
  pub record Severed (t : Transport C W) : Type 0 where
    pub is_closed : t.closed ≡ true
    pub channel_closed : t.channel.closed ≡ true
    pub no_connection : t.channel.connection ≡ none
    pub is_idle : IsIdle t.reassembler

  -- The transport as it was at the await, or as the method left it after that: the attachment is the same, and
  -- it is open as before or severed as before.
  pub record Settled (u t : Transport C W) : Type 0 where
    pub same : t.attachment ≡ u.attachment
    pub whole : ((u.closed ≡ false) × (t.closed ≡ false)) ⊎ ((u.closed ≡ true) × Severed t)

  -- What other tasks make of an open transport: it stays open, or it is severed.
  abbrev pub IsOrderly : (Transport C W → Transport C W) → Type 0
  IsOrderly meanwhile =
      (u : Transport C W)
      → u.closed ≡ false
      → ((meanwhile u).closed ≡ false) ⊎ Severed (meanwhile u)

  module _ (lease : Attachment W) where
    abbrev pub EndsIn : {A : Type 0} → (Transport C W → Type 0) → Outcome A → Transport C W → Type 0
    EndsIn At (returns a) t = (u : Transport C W) × At u × Settled u t
    EndsIn At (passes e) t = (u : Transport C W) × At u × Settled u t
    EndsIn At (raises reason) t =
        Severed t
        × (u : Transport C W) × At u
        × (((u.closed ≡ false) × (t.attachment ≡ lease.detach reason u.attachment))
            ⊎ ((u.closed ≡ true) × (t.attachment ≡ u.attachment)))

    -- How a method ends that found such a transport after its await, or that did not come to it: where it returns
    -- or lets an exception through, the transport is as it found it, open or severed. Where it raises, the
    -- transport is severed, and detached with the reason that is raised, unless others had closed it before.
    pub record Ends {A : Type 0} (At : Transport C W → Type 0) (r : Step A C W) : Type 0 where
      pub ends_in : EndsIn At r.0 r.1

    -- The transport that `feed_ciphertext` finds after its await, or with which it began.
    abbrev pub Fed : (Transport C W → Transport C W) → Transport C W → Transport C W → Type 0
    Fed meanwhile t u =
        (u ≡ t)
        ⊎ ((v : Transport C W) × (text : Bytes) × (v.closed ≡ false)
            × (v.attachment ≡ (lease.feed_text text t.attachment).1)
            × (u ≡ meanwhile v))

    abbrev pub Taken : (Transport C W → Transport C W) → Transport C W → Transport C W → Type 0
    Taken meanwhile t u =
        (u ≡ t)
        ⊎ (u ≡ record (meanwhile t) { attachment = (lease.next_text (meanwhile t).attachment).1 })

    if-Ends :
        {A : Type 0} {At : Transport C W → Type 0} (b : Bool) {r s : Step A C W}
        → (b ≡ true → Ends At r)
        → (b ≡ false → Ends At s)
        → Ends At (if b then r else s)
    if-Ends true left right = left refl
    if-Ends false left right = right refl

    close_with-closed :
        (reason : Reason) (t : Transport C W) → t.closed ≡ true → close_with lease reason t ≡ t
    unfolding close_with
    close_with-closed reason t h = ground (arith, h)

    pub close_with-Severed :
        (reason : Reason) (t : Transport C W)
        → t.closed ≡ false
        → Severed (close_with lease reason t)
    unfolding close_with close reset
    close_with-Severed reason t live = rw live (record {
      is_closed = refl;
      channel_closed = refl;
      no_connection = refl;
      is_idle = (refl, refl, refl, refl);
    })

    fails-Ends :
        {A : Type 0} (At : Transport C W → Type 0) (reason : Reason) (u t : Transport C W)
        → At u
        → Settled u t
        → Ends {A = A} At (fails lease reason t)
    unfolding fails close_with close reset
    fails-Ends {A = A} At reason u t at s = elim s.whole [
      | inl (was, live) ↦ record {
        ends_in = rw live (
          record {
            is_closed = refl;
            channel_closed = refl;
            no_connection = refl;
            is_idle = (refl, refl, refl, refl);
          },
          u,
          at,
          inl (was, ap (lease.detach reason) s.same),
        );
      }
      | inr (was, gone) ↦
          subst (λ x. Ends {A = A} At (raises reason, x))
            (sym (close_with-closed reason t gone.is_closed))
            (record { ends_in = (gone, u, at, inr (was, s.same)) })
    ]

    caught-Ends :
        {A : Type 0} (At : Transport C W → Type 0) (reason : Option Reason) (e : Failure)
        (u t : Transport C W)
        → At u
        → Settled u t
        → Ends {A = A} At (caught lease reason e t)
    unfolding caught
    caught-Ends At none e u t at s = record { ends_in = (u, at, s) }
    caught-Ends At (some reason) e u t at s = fails-Ends At reason u t at s

    require_open-Ends :
        {A : Type 0} (At : Transport C W → Type 0) (t : Transport C W) (rest : Step A C W)
        → t.closed ≡ false
        → At t
        → Ends At rest
        → Ends At (require_open lease t rest)
    unfolding require_open
    require_open-Ends At t rest live at h =
        if-Ends t.closed (λ e. cc)
          (λ e.
            if-Ends t.channel.closed
              (λ e.
                fails-Ends At channel_closed t t at
                  (record { same = refl; whole = inl (live, live) }))
              (λ e. h))

    -- What others leave of an open transport is settled as it is.
    orderly-Settled : (u : Transport C W) → (u.closed ≡ false) ⊎ Severed u → Settled u u
    orderly-Settled u (inl live) = record { same = refl; whole = inl (live, live) }
    orderly-Settled u (inr gone) = record { same = refl; whole = inr (gone.is_closed, gone) }

    was_fed-Ends :
        (At : Transport C W → Type 0) (u : Transport C W) (r : Result Failure (Unit {0}))
        → At u
        → Settled u u
        → Ends At (was_fed lease u r)
    unfolding was_fed
    was_fed-Ends At u (ok x) at s = record { ends_in = (u, at, s) }
    was_fed-Ends At u (err x) at s = caught-Ends At (inbound_reason x) x u u at s

    module _ (meanwhile : Transport C W → Transport C W) (orderly : IsOrderly meanwhile)
        (t : Transport C W) (live : t.closed ≡ false) where
      abbrev IsFed : Transport C W → Type 0
      IsFed = Fed meanwhile t

      abbrev IsTaken : Transport C W → Type 0
      IsTaken = Taken meanwhile t

      feed_message-Ends :
          (is_utf8 : Bytes → Bool) (message : Bytes) (c : NoiseChannel C) (r : Reassembler)
          → Ends IsFed (
              feed_message lease meanwhile is_utf8 message
                (record t { channel = c; reassembler = r }))
      unfolding feed_message
      feed_message-Ends is_utf8 message c r = elim (Bool-cases (is_utf8 message)) [
        | inr e ↦ rw e (
            fails-Ends IsFed malformed_frame t (record t { channel = c; reassembler = r })
              (inl refl) (record { same = refl; whole = inl (live, live) }))
        | inl e ↦
            let v : Transport C W = record t {
              channel = c;
              reassembler = r;
              attachment = (lease.feed_text message t.attachment).1;
            } in
            rw e (
              was_fed-Ends IsFed (meanwhile v) (lease.feed_text message t.attachment).0
                (inr (v, message, live, refl, refl))
                (orderly-Settled (meanwhile v) (orderly v live)))
      ]

      was_pushed-Ends :
          (is_utf8 : Bytes → Bool) (c : NoiseChannel C)
          (reply : Result Error (Option Bytes) × Reassembler)
          → Ends IsFed (was_pushed lease meanwhile is_utf8 (record t { channel = c }) reply)
      unfolding was_pushed
      was_pushed-Ends is_utf8 c (err e, r) =
          fails-Ends IsFed protocol_violation t (record t { channel = c; reassembler = r })
            (inl refl) (record { same = refl; whole = inl (live, live) })
      was_pushed-Ends is_utf8 c (ok none, r) = record {
        ends_in = (t, inl refl, record { same = refl; whole = inl (live, live) });
      }
      was_pushed-Ends is_utf8 c (ok (some message), r) = feed_message-Ends is_utf8 message c r

      was_decrypted-Ends :
          (is_utf8 : Bytes → Bool) (reply : Result ChannelError Bytes × NoiseChannel C)
          → Ends IsFed (was_decrypted lease meanwhile is_utf8 t reply)
      unfolding was_decrypted
      was_decrypted-Ends is_utf8 (err e, c) =
          fails-Ends IsFed protocol_violation t (record t { channel = c }) (inl refl)
            (record { same = refl; whole = inl (live, live) })
      was_decrypted-Ends is_utf8 (ok bytes, c) = was_pushed-Ends is_utf8 c _

      -- `feed_ciphertext` of an open transport ends as it should, whatever others do during its await, as long
      -- as they leave the transport open or severed.
      pub feed_ciphertext-Ends :
          (noise : Noise C) (is_utf8 : Bytes → Bool) (ciphertext : Bytes)
          → Ends IsFed (feed_ciphertext lease meanwhile noise is_utf8 ciphertext t)
      unfolding feed_ciphertext
      feed_ciphertext-Ends noise is_utf8 ciphertext =
          require_open-Ends IsFed t _ live (inl refl) (was_decrypted-Ends is_utf8 _)

    -- Nothing is encrypted on a closed channel, and it stays as it is.
    encrypt_all-closed :
        (noise : Noise C) (rs : List Bytes) (c : NoiseChannel C)
        → c.closed ≡ true
        → (encrypt_all noise rs c).1 ≡ c
    unfolding encrypt_all encrypt encrypt_open open_connection
    encrypt_all-closed noise [] c h = refl
    encrypt_all-closed noise (r ∷ rs) c h = rw h refl

    encrypted-Settled :
        (noise : Noise C) (rs : List Bytes) (u t : Transport C W)
        → Settled u t
        → Settled u (record t { channel = (encrypt_all noise rs t.channel).1 })
    encrypted-Settled noise rs u t s = record {
      same = s.same;
      whole = elim s.whole [
        | inl still_open ↦ inl still_open
        | inr (was, gone) ↦
            let still = encrypt_all-closed noise rs t.channel gone.channel_closed in
            inr (
              was,
              record {
                is_closed = gone.is_closed;
                channel_closed = ap (λ c. c.closed) still ∙ gone.channel_closed;
                no_connection = ap (λ c. c.connection) still ∙ gone.no_connection;
                is_idle = gone.is_idle;
              },
            )
      ];
    }

    was_encrypted-Ends :
        (At : Transport C W → Type 0) (u t : Transport C W)
        (r : Result ChannelError (List Bytes) × NoiseChannel C)
        → At u
        → Settled u (record t { channel = r.1 })
        → Ends At (was_encrypted lease t r)
    unfolding was_encrypted
    was_encrypted-Ends At u t (ok ys, c) at s = record { ends_in = (u, at, s) }
    was_encrypted-Ends At u t (err e, c) at s =
        fails-Ends At protocol_violation u (record t { channel = c }) at s

    was_encoded-Ends :
        (noise : Noise C) (At : Transport C W → Type 0) (u t : Transport C W)
        (r : Result Error (List Bytes))
        → At u
        → Settled u t
        → Ends At (was_encoded lease noise t r)
    unfolding was_encoded
    was_encoded-Ends noise At u t (err e) at s = fails-Ends At protocol_violation u t at s
    was_encoded-Ends noise At u t (ok rs) at s =
        was_encrypted-Ends At u t _ at (encrypted-Settled noise rs u t s)

    send_message-Ends :
        (noise : Noise C) (message_id : Result Failure Bytes) (text : Bytes)
        (At : Transport C W → Type 0) (u t : Transport C W)
        → At u
        → Settled u t
        → Ends At (send_message lease noise message_id text t)
    unfolding send_message
    send_message-Ends noise (err e) text At u t at s = caught-Ends At (outbound_reason e) e u t at s
    send_message-Ends noise (ok i) text At u t at s = elim (Bool-cases (length i == 16)) [
      | inl e ↦ rw e (was_encoded-Ends noise At u t _ at s)
      | inr e ↦ rw e (fails-Ends At protocol_violation u t at s)
    ]

    moved-whole :
        (u : Transport C W) (w : W)
        → (u.closed ≡ false) ⊎ Severed u
        → ((record u { attachment = w }).closed ≡ false) ⊎ Severed (record u { attachment = w })
    moved-whole u w (inl live) = inl live
    moved-whole u w (inr gone) = inr (record {
      is_closed = gone.is_closed;
      channel_closed = gone.channel_closed;
      no_connection = gone.no_connection;
      is_idle = gone.is_idle;
    })

    was_taken-Ends :
        (noise : Noise C) (message_id : Result Failure Bytes) (At : Transport C W → Type 0)
        (u : Transport C W) (r : Result Failure Bytes × W)
        → At (record u { attachment = r.1 })
        → (u.closed ≡ false) ⊎ Severed u
        → Ends At (was_taken lease noise message_id u r)
    unfolding was_taken
    was_taken-Ends noise message_id At u (err e, w) at whole =
        let v : Transport C W = record u { attachment = w } in
        caught-Ends At (outbound_reason e) e v v at (orderly-Settled v (moved-whole u w whole))
    was_taken-Ends noise message_id At u (ok text, w) at whole =
        let v : Transport C W = record u { attachment = w } in
        send_message-Ends noise message_id text At v v at
          (orderly-Settled v (moved-whole u w whole))

    next-Ends :
        (meanwhile : Transport C W → Transport C W)
        → IsOrderly meanwhile
        → (noise : Noise C) (message_id : Result Failure Bytes) (t : Transport C W)
        → t.closed ≡ false
        → Ends (Taken meanwhile t) (next_ciphertexts lease meanwhile noise message_id t)
    unfolding next_ciphertexts
    next-Ends meanwhile orderly noise message_id t live =
        require_open-Ends (Taken meanwhile t) t _ live (inl refl) (
          was_taken-Ends noise message_id (Taken meanwhile t) (meanwhile t) _ (inr refl)
            (orderly t live))

    -- Let other tasks leave an open transport open or severed during the await of a method. On an open
    -- transport either method then ends as it should, whether or not they close it meanwhile: where it
    -- returns or lets an exception through, the transport is open, or severed by them; where it raises, the
    -- transport, the channel and the message in progress are gone, and the attachment is detached with the
    -- reason that is raised, unless they had closed the transport, and then the method does not detach it
    -- again. On a closed one both raise channel_closed and change nothing.
    pub methods_end :
        (meanwhile : Transport C W → Transport C W)
        → IsOrderly meanwhile
        → (noise : Noise C) (is_utf8 : Bytes → Bool) (ciphertext : Bytes)
          (message_id : Result Failure Bytes) (t : Transport C W)
        → ((t.closed ≡ false)
            × Ends (Fed meanwhile t) (feed_ciphertext lease meanwhile noise is_utf8 ciphertext t)
            × Ends (Taken meanwhile t) (next_ciphertexts lease meanwhile noise message_id t))
          ⊎ ((t.closed ≡ true)
              × (feed_ciphertext lease meanwhile noise is_utf8 ciphertext t
                  ≡ (raises channel_closed, t))
              × (next_ciphertexts lease meanwhile noise message_id t ≡ (raises channel_closed, t)))
    unfolding feed_ciphertext next_ciphertexts require_open
    methods_end meanwhile orderly noise is_utf8 ciphertext message_id t =
        elim (Bool-cases t.closed) [
          | inr live ↦ inl (
            live,
            feed_ciphertext-Ends meanwhile orderly t live noise is_utf8 ciphertext,
            next-Ends meanwhile orderly noise message_id t live,
          )
          | inl e ↦ inr (e, ground (arith, e), ground (arith, e))
        ]
