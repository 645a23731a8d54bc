-- ===== src/ControllerTransport/Start.antt =====
-- The constructor of `EncryptedControllerTransport`, controller_transport.py.
use mercury_relay_plugin.Prelude.{
  ◌≡◌, refl, ◌⊎◌, inl, inr, Bool, Bool-cases, true, false, not, ◌&&◌, none, some, [], Bytes, length,
  ◌==◌, ok, arith,
}
use mercury_relay_plugin.Framing.{sized_view, validate_kind_flags}
use mercury_relay_plugin.Framing.Reassembler.{Reassembler, new_reassembler}
use mercury_relay_plugin.SecureChannel.{
  NoiseChannel, handshake_finished, mark_transport_bound, open_connection, is_open,
}
use mercury_relay_plugin.ControllerTransport.{Transport, bound_by, bind}
use mercury_relay_plugin.ControllerTransport.Inbound.{IsReady}

-- A channel that the host has admitted and not bound yet, and an identifier of the right size.
abbrev pub accepts : {C : Type 0} → NoiseChannel C → Bytes → Bool
accepts c id =
    not c.is_initiator
    && (handshake_finished c && (c.admitted && (not c.transport_bound && (length id == 16))))

abbrev idle_for : Bytes → Reassembler
idle_for id = record {
  channel_id = some id;
  expected_kind = 1;
  expected_flags = 0;
  active_channel_id = none;
  message_id = none;
  fragment_count = 0;
  logical_length = 0;
  next_index = 0;
  received_length = 0;
  parts = [];
}

new_reassembler-idle_for :
    (id : Bytes) → length id ≡ 16 → new_reassembler (some id) 1 0 ≡ ok (idle_for id)
unfolding new_reassembler sized_view validate_kind_flags
new_reassembler-idle_for id e = ground (arith, e)

mark_bound :
    {C : Type 0} (c : NoiseChannel C) (id : Bytes) (k : C)
    → accepts c id ≡ true
    → c.connection ≡ some k
    → mark_transport_bound c ≡ (ok tt, record c { transport_bound = true })
unfolding mark_transport_bound open_connection is_open handshake_finished
mark_bound c id k h e = ground (arith, h, e)

bind_accepted :
    {C W : Type 0} (c : NoiseChannel C) (w : W) (id : Bytes) (k : C)
    → accepts c id ≡ true
    → c.connection ≡ some k
    → bind c w id
      ≡ some (record {
        channel = record c { transport_bound = true };
        attachment = w;
        channel_id = id;
        reassembler = idle_for id;
        closed = false;
      })
unfolding bind bound_by
bind_accepted c w id k h e =
    ground (arith, h, mark_bound c id k h e, new_reassembler-idle_for id (ground (arith, h)))

-- For a channel with a connection: the constructor returns exactly where the channel is the host's, has
-- finished its handshake, is admitted and not bound yet, and the identifier has 16 bytes. The transport is then
-- open and between two messages, holds the attachment, and its channel is bound.
pub bind-IsReady :
    {C W : Type 0} (c : NoiseChannel C) (w : W) (id : Bytes) (k : C)
    → c.connection ≡ some k
    → ((accepts c id ≡ true)
        × (t : Transport C W) × (bind c w id ≡ some t)
        × IsReady t k
        × (t.attachment ≡ w)
        × (t.channel.transport_bound ≡ true))
      ⊎ ((accepts c id ≡ false) × (bind c w id ≡ none))
unfolding bind handshake_finished
bind-IsReady c w id k e = elim (Bool-cases (accepts c id)) [
  | inl h ↦ inl (
    h,
    _,
    bind_accepted c w id k h e,
    record {
      live = refl;
      up = record { finished = ground (arith, h); connected = e };
      id_size = ground (arith, h);
      same_id = refl;
      is_data = refl;
      no_flags = refl;
      is_idle = (refl, refl, refl, refl);
    },
    refl,
    refl,
  )
  | inr h ↦ inr (h, ground (arith, h))
]
