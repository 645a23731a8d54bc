-- ===== src/ControllerTransport/Tests.antt =====
-- A transport over a library that only puts sixteen zeros before a record, and over an attachment that
-- keeps what it is fed: the theorems at a short text.
use mercury_relay_plugin.Prelude.{
  inr, ℕ, ◌+◌, ◌≡◌, refl, ap, ◌⊎◌, Bool, true, false, none, some, List, [], ◌∷◌, Bytes, length,
  drop, replicate, ok, err, arith, not,
}
use mercury_relay_plugin.Framing.{encode_message}
use mercury_relay_plugin.Framing.Reassembler.{Reassembler, reset, push_all}
use mercury_relay_plugin.Framing.Reassembler.Messages.{replies_of}
use mercury_relay_plugin.SecureChannel.{
  Noise, NoiseChannel, complete, is_complete, handshake_finished,
}
use mercury_relay_plugin.ControllerTransport.{
  detached, session_lease_error, close_with, require_open, was_taken, caught, fails,
  outbound_reason, raises, channel_closed, returns, Attachment, Transport, feed_ciphertext,
  next_ciphertexts, encrypt_all, bind,
}
use mercury_relay_plugin.ControllerTransport.Failures.{
  Fed, Taken, Ends, IsOrderly, close_with-Severed, methods_end,
}
use mercury_relay_plugin.ControllerTransport.Inbound.{
  InStep, Decrypts, IsUp, IsReady, at_connection, moved, outcomes_of, feed_all,
  feed_all-encode_message,
}
use mercury_relay_plugin.ControllerTransport.Start.{accepts, bind-IsReady}
use mercury_relay_plugin.ControllerTransport.Outbound.{next_ciphertexts-push_all}

abbrev zeros_then : Bytes → Bytes
zeros_then x = 0 ∷ 0 ∷ 0 ∷ 0 ∷ 0 ∷ 0 ∷ 0 ∷ 0 ∷ 0 ∷ 0 ∷ 0 ∷ 0 ∷ 0 ∷ 0 ∷ 0 ∷ 0 ∷ x

abbrev plain : Noise ℕ
plain = record {
  start = λ initiator private prologue remote. some 0;
  write_message = λ k payload. some ([], k);
  read_message = λ k wire. some ([], k);
  encrypt_record = λ k bytes. some (zeros_then bytes, k + 1);
  decrypt_record = λ k bytes. some (drop 16 bytes, k + 1);
  handshake_hash = λ k. none;
  captured_peer = λ k. none;
}

plain-InStep : InStep plain (λ a b. a ≡ b)
plain-InStep = record {
  carries =
      λ a b x e short. (zeros_then x, a + 1, b + 1, refl, refl, omega arith, ap (λ k. k + 1) e);
}

abbrev hello : Bytes
hello = b'h' ∷ b'i' ∷ []

abbrev keeps : Attachment (List Bytes)
keeps = record {
  feed_text = λ text fed. (ok tt, text ∷ fed);
  next_text = λ fed. (ok hello, fed);
  detach = λ reason fed. fed;
}

-- An attachment that is detached gives nothing.
abbrev ended : Attachment (List Bytes)
ended = record keeps { next_text = λ fed. (err (session_lease_error false), fed) }

abbrev channel_on : ℕ → Bool → NoiseChannel ℕ
channel_on k initiator = record {
  connection = some k;
  is_initiator = initiator;
  closed = false;
  admitted = not initiator;
  transport_bound = not initiator;
  next_action = complete;
  channel_binding = some (replicate 32 1);
  remote_static_public = some (replicate 32 2);
  configured_remote_static = none;
}

abbrev id : Bytes
id = replicate 16 7

abbrev between : Reassembler
between = record {
  channel_id = some id;
  expected_kind = 1;
  expected_flags = 0;
  active_channel_id = none;
  message_id = none;
  fragment_count = 0;
  logical_length = 0;
  next_index = 0;
  received_length = 0;
  parts = [];
}

abbrev transport : Transport ℕ (List Bytes)
transport = record {
  channel = channel_on 5 false;
  attachment = [];
  channel_id = id;
  reassembler = between;
  closed = false;
}

abbrev any_text : Bytes → Bool
any_text text = true

channel_on-IsUp : (k : ℕ) (initiator : Bool) → IsUp (channel_on k initiator) k
unfolding handshake_finished is_complete
channel_on-IsUp k initiator = record { finished = refl; connected = refl }

transport-IsReady : IsReady transport 5
transport-IsReady = record {
  live = refl;
  up = channel_on-IsUp 5 false;
  id_size = refl;
  same_id = refl;
  is_data = refl;
  no_flags = refl;
  is_idle = (refl, refl, refl, refl);
}

-- Nobody else acts.
abbrev unmoved : Transport ℕ (List Bytes) → Transport ℕ (List Bytes)
unmoved t = t

feed_all-encode_message_example :
    (rs ys : List Bytes) × (k l : ℕ) × (encode_message id (replicate 16 9) hello 1 0 ≡ ok rs)
    × (encrypt_all plain rs (channel_on 5 true) ≡ (ok ys, at_connection (channel_on 5 true) k))
    × (feed_all keeps unmoved plain any_text ys transport ≡ (
      outcomes_of (length ys),
      record (moved transport l (reset between)) { attachment = hello ∷ [] },
    ))
    × (k ≡ l)
    × IsReady (record (moved transport l (reset between)) { attachment = hello ∷ [] }) l
feed_all-encode_message_example =
    feed_all-encode_message keeps unmoved plain any_text (λ a b. a ≡ b) plain-InStep
      (channel_on 5 true) 5 5 transport (replicate 16 9) hello (hello ∷ []) refl (omega arith)
      (channel_on-IsUp 5 true) transport-IsReady refl refl refl

next_ciphertexts-push_all_example :
    (rs ys : List Bytes) × (k l : ℕ) × (next_ciphertexts keeps unmoved plain
        (ok (replicate 16 9))
        transport
      ≡ (
        returns ys,
        record transport { channel = at_connection (channel_on 5 false) k; attachment = [] },
      ))
    × Decrypts plain 5 ys rs l
    × (push_all between rs ≡ (replies_of hello (length ys), reset between))
    × (k ≡ l)
    × IsReady
        (record transport { channel = at_connection (channel_on 5 false) k; attachment = [] })
        k
next_ciphertexts-push_all_example =
    next_ciphertexts-push_all keeps unmoved plain (λ a b. a ≡ b) plain-InStep 5 5 transport between
      (replicate 16 9) hello [] refl (omega arith) refl refl transport-IsReady refl
      (refl, refl, refl, refl) refl refl refl refl

-- Meanwhile another task closes the transport.
abbrev closing : Transport ℕ (List Bytes) → Transport ℕ (List Bytes)
closing t = close_with keeps detached t

closing-IsOrderly : IsOrderly closing
closing-IsOrderly u live = inr (close_with-Severed keeps detached u live)

methods_end_example :
    ((false ≡ false)
      × Ends keeps
          (Fed keeps closing transport)
          (feed_ciphertext keeps closing plain any_text hello transport)
      × Ends keeps
          (Taken keeps closing transport)
          (next_ciphertexts keeps closing plain (ok (replicate 16 9)) transport))
    ⊎ ((false ≡ true)
        × (feed_ciphertext keeps closing plain any_text hello transport
            ≡ (raises channel_closed, transport))
        × (next_ciphertexts keeps closing plain (ok (replicate 16 9)) transport
            ≡ (raises channel_closed, transport)))
methods_end_example =
    methods_end keeps closing closing-IsOrderly plain any_text hello (ok (replicate 16 9)) transport

-- A reader that waits when the transport is closed: it ends with an error, and the transport stays closed.
blocked_reader :
    next_ciphertexts ended closing plain (ok (replicate 16 9)) transport
    ≡ (raises channel_closed, closing transport)
unfolding next_ciphertexts require_open was_taken caught fails close_with outbound_reason
blocked_reader = refl

abbrev unbound : NoiseChannel ℕ
unbound = record (channel_on 5 false) { transport_bound = false }

bind-IsReady_example :
    ((accepts unbound id ≡ true)
      × (t : Transport ℕ Bytes) × (bind unbound hello id ≡ some t)
      × IsReady t 5
      × (t.attachment ≡ hello)
      × (t.channel.transport_bound ≡ true))
    ⊎ ((accepts unbound id ≡ false) × (bind unbound hello id ≡ none))
bind-IsReady_example = bind-IsReady unbound hello id 5 refl
