-- ===== src/ControllerTransport.antt =====
-- src/mercury_relay_plugin/controller_transport.py: the class `EncryptedControllerTransport`, which carries
-- the frames of one attachment through framing.py and secure_channel.py. `Attachment W` is what it calls of
-- a LeaseAttachment, in a state of type `W`. The two methods hold
-- different locks and `close` holds none, so each has one await at which others may act: `meanwhile` is what
-- they make of the transport then. Each starts where it has its lock.
pub mod Failures
pub mod Start
pub mod Inbound
pub mod Outbound
mod Tests
use mercury_relay_plugin.Prelude.{
  ℕ, Bool, true, false, not, ◌||◌, Option, none, some, List, [], ◌∷◌, Bytes, length, ◌==◌,
  if◌then◌else◌, Result, ok, err,
}
use mercury_relay_plugin.Framing.{Error, channel_id_size, message_id_size, encode_message}
use mercury_relay_plugin.Framing.Reassembler.{Reassembler, reset, push, new_reassembler}
use mercury_relay_plugin.SecureChannel.{
  ChannelError, Noise, NoiseChannel, handshake_finished, encrypt, decrypt, mark_transport_bound,
  close,
}

-- What an await can raise, as far as the `except` clauses tell it apart.
pub data Failure : Type 0 where
  cancelled timed_out lease_is_released websocket_backpressure websocket_error : Failure
  session_lease_error : Bool → Failure
  value_error unknown_error : Failure

pub data Reason : Type 0 where
  channel_closed lease_released backpressure malformed_frame protocol_violation : Reason
  local_hermes_unavailable detached : Reason

-- What a method does: it returns, raises a ControllerTransportError, or lets an exception through.
pub data Outcome (A : Type 0) : Type 0 where
  returns : A → Outcome A
  raises : Reason → Outcome A
  passes : Failure → Outcome A

pub record Attachment (W : Type 0) : Type 0 where
  pub feed_text : Bytes → W → Result Failure (Unit {0}) × W
  pub next_text : W → Result Failure Bytes × W
  pub detach : Reason → W → W

pub record Transport (C W : Type 0) : Type 0 where
  pub channel : NoiseChannel C
  pub attachment : W
  pub channel_id : Bytes
  pub reassembler : Reassembler
  pub closed : Bool

-- The clauses of `feed_ciphertext`; `none` lets the exception through. A `session_lease_error` says
-- whether its reason is `attachment_backpressure`.
unfoldable pub inbound_reason : Failure → Option Reason
inbound_reason cancelled = none
inbound_reason lease_is_released = some lease_released
inbound_reason websocket_backpressure = some backpressure
inbound_reason websocket_error = some protocol_violation
inbound_reason (session_lease_error full) = some protocol_violation
inbound_reason value_error = some protocol_violation
inbound_reason timed_out = some local_hermes_unavailable
inbound_reason unknown_error = some local_hermes_unavailable

-- The clauses of `next_ciphertexts`.
unfoldable pub outbound_reason : Failure → Option Reason
outbound_reason cancelled = none
outbound_reason timed_out = none
outbound_reason lease_is_released = some lease_released
outbound_reason (session_lease_error true) = some backpressure
outbound_reason (session_lease_error false) = some channel_closed
outbound_reason value_error = some protocol_violation
outbound_reason websocket_backpressure = some local_hermes_unavailable
outbound_reason websocket_error = some local_hermes_unavailable
outbound_reason unknown_error = some local_hermes_unavailable

abbrev pub Step : Type 0 → Type 0 → Type 0 → Type 0
Step A C W = Outcome A × Transport C W

module _ {C : Type 0} where
  abbrev with_first :
      Bytes
      → Result ChannelError (List Bytes) × NoiseChannel C
      → Result ChannelError (List Bytes) × NoiseChannel C
  with_first y (ok ys, c) = (ok (y ∷ ys), c)
  with_first y (err e, c) = (err e, c)

  -- The records of a frame through the channel, up to the first that fails.
  unfoldable pub encrypt_all :
      Noise C → List Bytes → NoiseChannel C → Result ChannelError (List Bytes) × NoiseChannel C
  encrypt_all noise [] c = (ok [], c)
  encrypt_all noise (r ∷ rs) c =
      let (reply, d) = encrypt noise r c in
      elim reply [ err e ↦ (err e, d) | ok y ↦ with_first y (encrypt_all noise rs d) ]

module _ {C W : Type 0} where
  unfoldable pub bound_by :
      W
      → Bytes
      → Result ChannelError (Unit {0}) × NoiseChannel C
      → Result Error Reassembler
      → Option (Transport C W)
  bound_by attachment channel_id (err e, bound) r = none
  bound_by attachment channel_id (ok u, bound) (err e) = none
  bound_by attachment channel_id (ok u, bound) (ok r) = some (record {
    channel = bound;
    attachment = attachment;
    channel_id = channel_id;
    reassembler = r;
    closed = false;
  })

  -- `__init__`, where the arguments have their types; `none` is a ValueError, or the SecureChannelError of
  -- `mark_transport_bound`.
  unfoldable pub bind : NoiseChannel C → W → Bytes → Option (Transport C W)
  bind channel attachment channel_id =
      if channel.is_initiator || not (handshake_finished channel) || not channel.admitted
      then none
      else if not (length channel_id == channel_id_size)
      then none
      else if channel.transport_bound
      then none
      else bound_by attachment channel_id (mark_transport_bound channel)
          (new_reassembler (some channel_id) 1 0)

  module _ (lease : Attachment W) where
    unfoldable pub close_with : Reason → Transport C W → Transport C W
    close_with reason t = if t.closed then t else record t {
      closed = true;
      reassembler = reset t.reassembler;
      channel = close t.channel;
      attachment = lease.detach reason t.attachment;
    }

    -- `_fail`
    unfoldable pub fails : {A : Type 0} → Reason → Transport C W → Step A C W
    fails reason t = (raises reason, close_with reason t)

    -- An `except` clause, or the exception itself.
    unfoldable pub caught : {A : Type 0} → Option Reason → Failure → Transport C W → Step A C W
    caught none e t = (passes e, t)
    caught (some reason) e t = fails reason t

    -- `_require_open`, and then the rest.
    unfoldable pub require_open : {A : Type 0} → Transport C W → Step A C W → Step A C W
    require_open t rest =
        if t.closed
        then (raises channel_closed, t)
        else if t.channel.closed
        then fails channel_closed t
        else rest

    unfoldable pub was_fed : Transport C W → Result Failure (Unit {0}) → Step Bool C W
    was_fed t (ok u) = (returns true, t)
    was_fed t (err e) = caught (inbound_reason e) e t

    unfoldable pub was_encrypted :
        Transport C W → Result ChannelError (List Bytes) × NoiseChannel C → Step (List Bytes) C W
    was_encrypted t (ok ys, c) = (returns ys, record t { channel = c })
    was_encrypted t (err e, c) = fails protocol_violation (record t { channel = c })

    unfoldable pub was_encoded :
        Noise C → Transport C W → Result Error (List Bytes) → Step (List Bytes) C W
    was_encoded noise t (err e) = fails protocol_violation t
    was_encoded noise t (ok rs) = was_encrypted t (encrypt_all noise rs t.channel)

    -- `message_id` is what the factory gives.
    unfoldable pub send_message :
        Noise C → Result Failure Bytes → Bytes → Transport C W → Step (List Bytes) C W
    send_message noise (err e) text t = caught (outbound_reason e) e t
    send_message noise (ok message_id) text t =
        if length message_id == message_id_size
        then was_encoded noise t (encode_message t.channel_id message_id text 1 0)
        else fails protocol_violation t

    unfoldable pub was_taken :
        Noise C
        → Result Failure Bytes
        → Transport C W
        → Result Failure Bytes × W
        → Step (List Bytes) C W
    was_taken noise message_id t (err e, w) =
        caught (outbound_reason e) e (record t { attachment = w })
    was_taken noise message_id t (ok text, w) =
        send_message noise message_id text (record t { attachment = w })

    module _ (meanwhile : Transport C W → Transport C W) where
      -- A text is its UTF-8 bytes, so it is the message where that can be decoded.
      unfoldable pub feed_message : (Bytes → Bool) → Bytes → Transport C W → Step Bool C W
      feed_message is_utf8 message t =
          if is_utf8 message
          then (let (reply, w) = lease.feed_text message t.attachment in
              was_fed (meanwhile (record t { attachment = w })) reply)
          else fails malformed_frame t

      unfoldable pub was_pushed :
          (Bytes → Bool) → Transport C W → Result Error (Option Bytes) × Reassembler → Step Bool C W
      was_pushed is_utf8 t (err e, r) = fails protocol_violation (record t { reassembler = r })
      was_pushed is_utf8 t (ok none, r) = (returns false, record t { reassembler = r })
      was_pushed is_utf8 t (ok (some message), r) =
          feed_message is_utf8 message (record t { reassembler = r })

      unfoldable pub was_decrypted :
          (Bytes → Bool)
          → Transport C W
          → Result ChannelError Bytes × NoiseChannel C
          → Step Bool C W
      was_decrypted is_utf8 t (err e, c) = fails protocol_violation (record t { channel = c })
      was_decrypted is_utf8 t (ok bytes, c) =
          was_pushed is_utf8 (record t { channel = c }) (push t.reassembler bytes)

      unfoldable pub feed_ciphertext :
          Noise C → (Bytes → Bool) → Bytes → Transport C W → Step Bool C W
      feed_ciphertext noise is_utf8 ciphertext t =
          require_open t (was_decrypted is_utf8 t (decrypt noise ciphertext t.channel))

      unfoldable pub next_ciphertexts :
          Noise C → Result Failure Bytes → Transport C W → Step (List Bytes) C W
      next_ciphertexts noise message_id t =
          require_open t
            (let u = meanwhile t in was_taken noise message_id u (lease.next_text u.attachment))
