-- ===== src/SecureChannel.antt =====
-- src/mercury_relay_plugin/secure_channel.py: the class `NoiseChannel`, its handshake and its transport.
-- `Noise C` stands for the Noise library, where a connection is a value of `C`. A method returns its reply
-- and the object after it; an argument is bytes, so the tests on types have nothing to refuse.
pub mod Phases
pub mod Handshake
pub mod Records
pub mod Marks
pub mod Refinement
pub mod Once
pub mod Keys
mod Tests
use mercury_relay_plugin.Prelude.{
  ℕ, Bool, true, false, not, ◌&&◌, ◌||◌, Option, none, some, List, [], ◌∷◌, Bytes, length, ltb, leb,
  ◌==◌, if◌then◌else◌, Result, ok, err,
}

pub data ChannelError : Type 0 where
  handshake_not_finished authentication_failed channel_closed : ChannelError
  plaintext_limit ciphertext_limit transport_failed : ChannelError
  channel_already_admitted channel_not_admitted channel_transport_bound : ChannelError

pub data Action : Type 0 where
  write1 read1 write2 read2 write3 read3 complete : Action

abbrev pub key_bytes : ℕ
key_bytes = 32

abbrev pub pairing_capability_bytes : ℕ
pairing_capability_bytes = 32

abbrev pub max_ciphertext_record_bytes : ℕ
max_ciphertext_record_bytes = 65_535

abbrev pub max_plaintext_record_bytes : ℕ
max_plaintext_record_bytes = 65_519

-- What the code calls of the library; `none` is an exception. `captured_peer` is the key that the hook on
-- the end of the handshake keeps.
pub record Noise (C : Type 0) : Type 0 where
  pub start : Bool → Bytes → Bytes → Option Bytes → Option C
  pub write_message : C → Bytes → Option (Bytes × C)
  pub read_message : C → Bytes → Option (Bytes × C)
  pub encrypt_record : C → Bytes → Option (Bytes × C)
  pub decrypt_record : C → Bytes → Option (Bytes × C)
  pub handshake_hash : C → Option Bytes
  pub captured_peer : C → Option Bytes

pub record NoiseChannel (C : Type 0) : Type 0 where
  pub connection : Option C
  pub is_initiator : Bool
  pub closed : Bool
  pub admitted : Bool
  pub transport_bound : Bool
  pub next_action : Action
  pub channel_binding : Option Bytes
  pub remote_static_public : Option Bytes
  pub configured_remote_static : Option Bytes

-- The action after a message is written, with a body of this size; `none` where that is refused.
unfoldable pub after_write : Action → Bool → ℕ → Option Action
after_write write1 true size = if size == 0 then some read2 else none
after_write write2 false size = if size == 0 then some read3 else none
after_write write3 true size =
    if size == 0 || size == pairing_capability_bytes then some complete else none
after_write action initiator size = none

unfoldable pub after_read : Action → Bool → Option Action
after_read read1 false = some write2
after_read read2 true = some write3
after_read read3 false = some complete
after_read action initiator = none

-- May the message that was read carry a payload of this size?
unfoldable pub may_carry : Action → ℕ → Bool
may_carry read3 size = size == 0 || size == pairing_capability_bytes
may_carry action size = size == 0

unfoldable pub is_complete : Action → Bool
is_complete complete = true
is_complete action = false

unfoldable pub is_wire_size : ℕ → Bool
is_wire_size size = leb 32 size && leb size max_ciphertext_record_bytes

-- The key of the peer: the one that was captured, or else the one that was configured.
unfoldable pub peer_of : Option Bytes → Option Bytes → Option Bytes
peer_of none configured = configured
peer_of (some peer) configured = some peer

unfoldable pub is_key : Option Bytes → Bool
is_key none = false
is_key (some key) = length key == key_bytes

abbrev pub Reply : Type 0 → Type 0 → Type 0
Reply A C = Result ChannelError A × NoiseChannel C

module _ {C : Type 0} where
  unfoldable pub close : NoiseChannel C → NoiseChannel C
  close c = record c { closed = true; connection = none }

  -- `_fail`
  unfoldable pub fails : ChannelError → NoiseChannel C → Reply Bytes C
  fails reason c = (err reason, close c)

  -- The connection that `_require_open` wants.
  unfoldable pub open_connection : NoiseChannel C → Option C
  open_connection c = if c.closed then none else c.connection

  unfoldable pub handshake_finished : NoiseChannel C → Bool
  unfolding is_complete
  handshake_finished c = is_complete c.next_action && not c.closed

  -- `_finish_handshake`, with what the library gives.
  unfoldable pub finished_with :
      Bytes → Option Bytes → Option Bytes → NoiseChannel C → Reply Bytes C
  finished_with reply binding peer c =
      if is_key binding && is_key peer
      then (
        ok reply,
        record c { channel_binding = binding; remote_static_public = peer; next_action = complete },
      )
      else fails authentication_failed c

  -- The object that `NoiseChannel.__init__` leaves.
  unfoldable pub fresh : Bool → Option Bytes → C → NoiseChannel C
  fresh initiator remote k = record {
    connection = some k;
    is_initiator = initiator;
    closed = false;
    admitted = false;
    transport_bound = false;
    next_action = if initiator then write1 else read1;
    channel_binding = none;
    remote_static_public = none;
    configured_remote_static = remote;
  }

  -- `NoiseChannel.__init__` after its tests on the arguments; `none` is `authentication_failed`.
  unfoldable pub started : Bool → Option Bytes → Option C → Option (NoiseChannel C)
  started initiator remote none = none
  started initiator remote (some k) = some (fresh initiator remote k)

  -- A record that the library has made, if it is no longer than it may be.
  unfoldable pub transported : ℕ → Option (Bytes × C) → NoiseChannel C → Reply Bytes C
  transported limit none c = fails transport_failed c
  transported limit (some (bytes, k)) c =
      if leb (length bytes) limit
      then (ok bytes, record c { connection = some k })
      else fails transport_failed c

  module _ (noise : Noise C) where
    unfoldable pub finish_handshake : Bytes → C → NoiseChannel C → Reply Bytes C
    finish_handshake reply k c =
        finished_with reply (noise.handshake_hash k)
          (peer_of (noise.captured_peer k) c.configured_remote_static) c

    unfoldable pub advance : Action → Bytes → C → NoiseChannel C → Reply Bytes C
    advance next reply k c =
        let moved : NoiseChannel C = record c { connection = some k; next_action = next } in
        if is_complete next then finish_handshake reply k moved else (ok reply, moved)

    unfoldable pub wrote : Action → Option (Bytes × C) → NoiseChannel C → Reply Bytes C
    wrote next none c = fails authentication_failed c
    wrote next (some (wire, k)) c =
        if is_wire_size (length wire) then advance next wire k c else fails authentication_failed c

    unfoldable pub write_next : Option Action → Bytes → C → NoiseChannel C → Reply Bytes C
    write_next none payload k c = fails authentication_failed c
    write_next (some next) payload k c = wrote next (noise.write_message k payload) c

    unfoldable pub write_open : Bytes → Option C → NoiseChannel C → Reply Bytes C
    write_open payload none c = (err channel_closed, c)
    write_open payload (some k) c =
        if ltb pairing_capability_bytes (length payload)
        then fails authentication_failed c
        else write_next (after_write c.next_action c.is_initiator (length payload)) payload k c

    unfoldable pub write_handshake : Bytes → NoiseChannel C → Reply Bytes C
    write_handshake payload c = write_open payload (open_connection c) c

    unfoldable pub was_read : Action → Option (Bytes × C) → NoiseChannel C → Reply Bytes C
    was_read next none c = fails authentication_failed c
    was_read next (some (payload, k)) c =
        if may_carry c.next_action (length payload)
        then advance next payload k c
        else fails authentication_failed c

    unfoldable pub read_next : Option Action → Bytes → C → NoiseChannel C → Reply Bytes C
    read_next none wire k c = fails authentication_failed c
    read_next (some next) wire k c = was_read next (noise.read_message k wire) c

    unfoldable pub read_open : Bytes → Option C → NoiseChannel C → Reply Bytes C
    read_open wire none c = (err channel_closed, c)
    read_open wire (some k) c =
        if is_wire_size (length wire)
        then read_next (after_read c.next_action c.is_initiator) wire k c
        else fails authentication_failed c

    unfoldable pub read_handshake : Bytes → NoiseChannel C → Reply Bytes C
    read_handshake wire c = read_open wire (open_connection c) c

    unfoldable pub encrypt_open : Bytes → Option C → NoiseChannel C → Reply Bytes C
    encrypt_open plaintext none c = (err channel_closed, c)
    encrypt_open plaintext (some k) c =
        if not (handshake_finished c)
        then (err handshake_not_finished, c)
        else if ltb max_plaintext_record_bytes (length plaintext)
        then (err plaintext_limit, c)
        else transported max_ciphertext_record_bytes (noise.encrypt_record k plaintext) c

    unfoldable pub encrypt : Bytes → NoiseChannel C → Reply Bytes C
    encrypt plaintext c = encrypt_open plaintext (open_connection c) c

    unfoldable pub decrypt_open : Bytes → Option C → NoiseChannel C → Reply Bytes C
    decrypt_open ciphertext none c = (err channel_closed, c)
    decrypt_open ciphertext (some k) c =
        if not (handshake_finished c)
        then (err handshake_not_finished, c)
        else if ltb max_ciphertext_record_bytes (length ciphertext) || ltb (length ciphertext) 16
        then (err ciphertext_limit, c)
        else transported max_plaintext_record_bytes (noise.decrypt_record k ciphertext) c

    unfoldable pub decrypt : Bytes → NoiseChannel C → Reply Bytes C
    decrypt ciphertext c = decrypt_open ciphertext (open_connection c) c

    unfoldable pub initiator : Bytes → Bytes → Bytes → Option (NoiseChannel C)
    initiator static_private installation remote =
        started true (some remote) (noise.start true static_private installation (some remote))

    unfoldable pub responder : Bytes → Bytes → Option (NoiseChannel C)
    responder static_private installation =
        started false none (noise.start false static_private installation none)

  unfoldable pub is_open : Option C → Bool
  is_open none = false
  is_open (some k) = true

  unfoldable pub mark_admitted : NoiseChannel C → Reply (Unit {0}) C
  unfolding is_open open_connection
  mark_admitted c =
      if not (is_open (open_connection c))
      then (err channel_closed, c)
      else if not (handshake_finished c)
      then (err handshake_not_finished, c)
      else if c.admitted
      then (err channel_already_admitted, c)
      else (ok tt, record c { admitted = true })

  unfoldable pub mark_transport_bound : NoiseChannel C → Reply (Unit {0}) C
  unfolding is_open open_connection
  mark_transport_bound c =
      if not (is_open (open_connection c))
      then (err channel_closed, c)
      else if not (handshake_finished c) || not c.admitted
      then (err channel_not_admitted, c)
      else if c.transport_bound
      then (err channel_transport_bound, c)
      else (ok tt, record c { transport_bound = true })
