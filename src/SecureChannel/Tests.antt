-- ===== src/SecureChannel/Tests.antt =====
-- Runs of both sides of secure_channel.py with a library that encrypts nothing, and the theorems at them.
use mercury_relay_plugin.Prelude.{
  ℕ, ◌+◌, ◌≤◌, ◌≡◌, refl, true, false, none, some, List, [], ◌∷◌, Bytes, replicate,
}
use mercury_relay_plugin.SecureChannel.{
  Noise, complete, NoiseChannel, write_handshake, read_handshake, write_open, read_open,
  open_connection, write_next, read_next, after_write, after_read, wrote, was_read, is_wire_size,
  may_carry, advance, is_complete, handshake_finished, finish_handshake, finished_with, is_key,
  peer_of, fails, close, transported, encrypt, encrypt_open, decrypt, decrypt_open, is_open,
  mark_admitted, mark_transport_bound, fresh,
}
use mercury_relay_plugin.SecureChannel.Phases.{
  handshaking, Op, writes, reads, encrypts, decrypts, admits, binds, closes, phase, IsChannel,
}
use mercury_relay_plugin.SecureChannel.Refinement.{Life, perform, run, fresh-Life}
use mercury_relay_plugin.SecureChannel.Once.{times, admissions, bindings, fresh-times}
use mercury_relay_plugin.SecureChannel.Keys.{run-keys}

abbrev zeros : Bytes
zeros = replicate 32 0

-- A connection counts its messages, and a record is the text itself.
abbrev plain : Noise ℕ
plain = record {
  start = λ initiator private prologue remote. some 0;
  write_message = λ k payload. some (zeros, k + 1);
  read_message = λ k wire. some ([], k + 1);
  encrypt_record = λ k bytes. some (bytes, k);
  decrypt_record = λ k bytes. some (bytes, k);
  handshake_hash = λ k. some zeros;
  captured_peer = λ k. none;
}

abbrev life : List Op
life =
    writes []
    ∷ reads zeros
    ∷ admits
    ∷ writes []
    ∷ admits
    ∷ encrypts (1 ∷ [])
    ∷ admits
    ∷ binds
    ∷ binds
    ∷ decrypts zeros
    ∷ reads zeros
    ∷ closes
    ∷ []

life_goes :
    (run plain life (fresh true (some zeros) 0)).0
    ≡ (true ∷ true ∷ false ∷ true ∷ true ∷ true ∷ false ∷ true ∷ false ∷ true ∷ false ∷ true ∷ [])
unfolding run perform fresh write_handshake read_handshake write_open read_open open_connection
    write_next read_next after_write after_read wrote was_read is_wire_size may_carry advance
    is_complete handshake_finished finish_handshake finished_with is_key peer_of fails close
    transported encrypt encrypt_open decrypt decrypt_open is_open mark_admitted mark_transport_bound
life_goes = refl

fresh-Life_example :
    Life true
      (handshaking 0)
      life
      (run plain life (fresh true (some zeros) 0)).0
      (phase (run plain life (fresh true (some zeros) 0)).1)
    × IsChannel (run plain life (fresh true (some zeros) 0)).1
fresh-Life_example = fresh-Life plain true (some zeros) 0 life

fresh-times_example :
    (times admissions life (run plain life (fresh true (some zeros) 0)).0 ≤ 1)
    × (times bindings life (run plain life (fresh true (some zeros) 0)).0
        ≤ times admissions life (run plain life (fresh true (some zeros) 0)).0)
fresh-times_example = fresh-times plain true (some zeros) 0 life

-- An initiator after its handshake.
abbrev finished : NoiseChannel ℕ
finished = record {
  connection = some 3;
  is_initiator = true;
  closed = false;
  admitted = false;
  transport_bound = false;
  next_action = complete;
  channel_binding = some zeros;
  remote_static_public = some zeros;
  configured_remote_static = some zeros;
}

run-keys_example :
    ((run plain (admits ∷ reads zeros ∷ []) finished).1.channel_binding ≡ finished.channel_binding)
    × ((run plain (admits ∷ reads zeros ∷ []) finished).1.remote_static_public
        ≡ finished.remote_static_public)
unfolding handshake_finished is_complete
run-keys_example = run-keys plain (admits ∷ reads zeros ∷ []) finished refl
