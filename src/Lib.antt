-- ===== src/Lib.antt =====
-- Mercury Relay: the core of the plugin that lets paired phones reach a Hermes agent through a relay.
--
-- The relay carries encrypted records between a phone and the host. `framing` cuts a message into
-- records and puts them together again; `authorization` keeps the paired devices and the one pairing
-- offer in a state file; `virtual_ws` is the pair of bounded queues that the Hermes session sees as a
-- websocket; `session_lease` keeps that session alive while the phone reconnects, retains its frames
-- for replay, and feeds each prompt once. `operational_metrics` counts pairings and attachments, and
-- `routing_auth` mints and verifies the tokens that admit a host or a phone to the relay. Each request
-- of a phone is read by `strict_json` and passes `method_policy` before it reaches the session, and
-- `lease_recovery` stores the last known state of every child task for a later connection.
-- `secure_channel` is one mutually authenticated connection, its handshake and its encrypted records,
-- and `controller_transport` carries the frames of a session through it.
-- `admission` pairs a phone, or opens a controller for one that is authorized.
-- `connection_journal` keeps a bounded record of what happens to the connections, free of secrets.
--
-- Files, and the code they are about (paths from the repository's root):
--   Prelude, Prelude/*: tests on numbers, lists and byte strings, results, signed integers.
--   Framing, Framing/Wire: src/mercury_relay_plugin/framing.py, records and `_HEADER`; a byte is a
--     number, and `pack_header` and `unpack_header` write out the big-endian layout of `struct`.
--   Framing/Codec: `encode_record` against `decode_record`.
--   Framing/Reassembler, with Messages and Integrity: the class `Reassembler`; `push` returns the reply
--     and the object after it, so an exception is a value.
--   Authorization, with Records and Slots: src/mercury_relay_plugin/authorization.py. A method is an
--     action on the state on disk, as the transaction lock is held for all of it. `Env` holds what the
--     clock, the random source, the identity store and the writes of the state file do in one call; a
--     write may fail before or after the file is replaced. `Library` stands for base64, SHA-256 and the
--     white space of `str.split`.
--   Authorization/Changes, Calls, Compaction, Revocation, Refusals, Withdrawal: the transition system of the state,
--     and what follows for revoked keys, for offers and for a device that was revoked.
--   VirtualWs, VirtualWs/Bounds: src/mercury_relay_plugin/virtual_ws.py. A frame is its UTF-8 bytes.
--   SessionLease, with Ring, History, Pending and Submissions: src/mercury_relay_plugin/session_lease.py, the
--     ring, attachments, delivery and the ledger of submissions, on top of VirtualWs. The clock is in
--     whole seconds. `Json` stands for the JSON library.
--   SessionLease/Manager, Manager/Registry: the class `SessionLeaseManager` of the same file; a release is
--     the fence and, as a step of its own, the end of the cleanup.
--   SessionLease/Stream, Stream/Follows, Follows/Delivery: the same file, deliveries and reads of one consumer.
--   RoutingAuth, with Verify, Mint and MachineId: src/mercury_relay_plugin/routing_auth.py. `TokenLibrary`
--     stands for base64, Ed25519, SHA-256 and JSON; an object is what `get` gives for the keys that are read.
--   StrictJson, StrictJson/Keys: src/mercury_relay_plugin/strict_json.py. The parser is a parameter that
--     gives the tree of a text with every pair; the hooks then go over it.
--   MethodPolicy, MethodPolicy/Permitted: src/mercury_relay_plugin/method_policy.py, and validate_profile_id
--     of config.py. The authorizer may raise, answer True or answer anything else.
--   LeaseRecovery, with Keys, Bounds, Terminal, Revoked and Shown: src/mercury_relay_plugin/lease_recovery.py,
--     the class `RecoveryStore`. `Store` is the object and the file that it has written last; a write may
--     fail before or after the file is replaced; the size of the printed JSON is a parameter.
--   ConnectionJournal, with Journal, Safe, Again, Tables, Bounds and Export:
--     src/mercury_relay_plugin/connection_journal.py. The writer thread takes a line in a step of its own.
--     `Calendar` stands for `strptime` and the digits of `re`.
--   SecureChannel, with Phases, Handshake, Records, Marks, Refinement, Once and Keys:
--     src/mercury_relay_plugin/secure_channel.py.
--     `Noise` stands for the Noise library; a method returns its reply and the object after it.
--   ControllerTransport, with Start, Inbound, Outbound and Failures:
--     src/mercury_relay_plugin/controller_transport.py, on top of Framing and SecureChannel.
--     `Attachment` is the interface of the lease.
--   Admission, with Values, Envelope, Open, Claims, Stages, Admitted and Pairing:
--     src/mercury_relay_plugin/admission.py, on top of Authorization, SecureChannel, StrictJson and
--     MethodPolicy. `Leases` is the interface of the lease manager and the runtime; `awaited` is what other tasks do while a lease is opened.
--   OperationalMetrics, OperationalMetrics/Restart: src/mercury_relay_plugin/operational_metrics.py. A
--     file is the object that it decodes to; the size of the printed JSON is a parameter.
--
-- Every loop is structural recursion on the list that the code loops over, but `encode_fragments`,
-- which counts the fragments that are left, `new_identifier`, which makes the eight attempts of the
-- code, and `grouped`, which is given the length of the text and takes four or five characters in
-- each round; no fuel is used beyond these counts.
--
-- Not modelled: sockets, tasks and their cancellation, files and their permissions, cryptography,
-- the files of the journal but for the lines they are loaded from, the loading of the recovery
-- store, the recovery projection and the push observer that look at the retained frames, the local
-- reads and mutations of a lease, the task that sends what a transport encrypts, the way a lease is
-- opened for an admission, and the parts of the plugin that only connect these. A coroutine is one
-- step between its awaits: a transport's method lets other tasks act once, while it waits for the
-- attachment, and an admission lets them act once, while the lease is opened.

pub mod Prelude
pub mod Framing
pub mod Authorization
pub mod VirtualWs
pub mod SessionLease
pub mod OperationalMetrics
pub mod RoutingAuth
pub mod StrictJson
pub mod MethodPolicy
pub mod LeaseRecovery
pub mod ConnectionJournal
pub mod SecureChannel
pub mod ControllerTransport
pub mod Admission
