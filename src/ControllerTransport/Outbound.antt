-- ===== src/ControllerTransport/Outbound.antt =====
-- A frame of the session through `next_ciphertexts` of controller_transport.py to the phone's end.
use mercury_relay_plugin.Prelude.{false, ◌≤◌, ◌≡◌, some, List, Bytes, length, ok, arith}
use mercury_relay_plugin.Framing.{max_logical_message_bytes}
use mercury_relay_plugin.Framing.Reassembler.{Reassembler, reset, push_all}
use mercury_relay_plugin.Framing.Reassembler.Messages.{IsIdle, replies_of, push_all-encode_message}
use mercury_relay_plugin.SecureChannel.{Noise}
use mercury_relay_plugin.ControllerTransport.{
  returns, Attachment, Transport, require_open, was_taken, send_message, was_encoded, was_encrypted,
  next_ciphertexts,
}
use mercury_relay_plugin.ControllerTransport.Inbound.{
  InStep, Decrypts, IsReady, at_connection, is_open_up, moved-IsUp, encrypt_all-Decrypts,
  length-Decrypts, set_and_differs-same,
}

-- Let the transport be open with its channel, and still be so after what other tasks do during the
-- await of the attachment, between two messages and with its channel in step with a connection of the
-- phone's. A text of at most 16 MiB that the attachment gives then leaves as records that the phone's
-- connection decrypts, in order, to fragments from which an idle reassembler for that channel makes
-- exactly the text, with the last of them. The connections are in step again, and the transport is
-- still open and between two messages. The message identifier is 16 bytes.
pub next_ciphertexts-push_all :
    {C W : Type 0} (lease : Attachment W) (meanwhile : Transport C W → Transport C W)
    (noise : Noise C) (R : C → C → Type 0) (session : InStep noise R) (a b : C) (t : Transport C W)
    (s : Reassembler) (message_id text : Bytes) (w : W)
    → length message_id ≡ 16
    → length text ≤ max_logical_message_bytes
    → t.closed ≡ false
    → t.channel.closed ≡ false
    → IsReady (meanwhile t) a
    → R a b
    → IsIdle s
    → s.expected_kind ≡ 1
    → s.expected_flags ≡ 0
    → s.channel_id ≡ some (meanwhile t).channel_id
    → lease.next_text (meanwhile t).attachment ≡ (ok text, w)
    → (rs ys : List Bytes) × (k l : C) × (next_ciphertexts lease meanwhile noise (ok message_id) t
        ≡ (
          returns ys,
          record (meanwhile t) { channel = at_connection (meanwhile t).channel k; attachment = w },
        ))
      × Decrypts noise b ys rs l
      × (push_all s rs ≡ (replies_of text (length ys), reset s))
      × R k l
      × IsReady
          (record (meanwhile t) { channel = at_connection (meanwhile t).channel k; attachment = w })
          k
unfolding next_ciphertexts require_open was_taken send_message was_encoded was_encrypted
next_ciphertexts-push_all lease meanwhile noise R session a b t s message_id text w ms small
      open_then running_then ready together idle kind plain same given =
    let (rs, encoded, count, short, pushed) =
      push_all-encode_message (meanwhile t).channel_id message_id text s ready.id_size ms small idle
        kind plain (set_and_differs-same s.channel_id (meanwhile t).channel_id same) in
    let (ys, k, l, sent, ds, next) =
      encrypt_all-Decrypts noise R session rs (meanwhile t).channel a b ready.up together short in
    let (here, running) = is_open_up (meanwhile t).channel a ready.up in
    (
      rs,
      ys,
      k,
      l,
      ground (arith, open_then, running_then, ready.live, running, given, ms, encoded, sent),
      ds,
      rw (length-Decrypts noise b l ys rs ds) pushed,
      next,
      record {
        live = ready.live;
        up = moved-IsUp (meanwhile t).channel a k ready.up;
        id_size = ready.id_size;
        same_id = ready.same_id;
        is_data = ready.is_data;
        no_flags = ready.no_flags;
        is_idle = ready.is_idle;
      },
    )
