-- ===== src/SecureChannel/Keys.antt =====
-- The keys that a `NoiseChannel`, secure_channel.py, has after its handshake.
use mercury_relay_plugin.Prelude.{
  ℕ, ◌≡◌, refl, sym, ◌∙◌, Bool, true, false, not, Option, none, some, List, [], ◌∷◌, Bytes, length,
  ltb, leb, ◌||◌, if◌then◌else◌, arith,
}
use mercury_relay_plugin.SecureChannel.{
  Action, Noise, NoiseChannel, after_write, after_read, is_complete, is_wire_size, Reply, close,
  fails, open_connection, handshake_finished, write_open, write_next, write_handshake, read_open,
  read_next, read_handshake, transported, encrypt_open, encrypt, decrypt_open, decrypt, is_open,
  mark_admitted, mark_transport_bound,
}
use mercury_relay_plugin.SecureChannel.Phases.{
  Op, writes, reads, encrypts, decrypts, admits, binds, closes, is_complete-eq,
}
use mercury_relay_plugin.SecureChannel.Refinement.{run, perform}

module _ {C : Type 0} where
  -- The last action, and the two keys.
  pub record Fixed (c d : NoiseChannel C) : Type 0 where
    pub last : is_complete d.next_action ≡ true
    pub binding : d.channel_binding ≡ c.channel_binding
    pub peer : d.remote_static_public ≡ c.remote_static_public

  same-Fixed : (c : NoiseChannel C) → is_complete c.next_action ≡ true → Fixed c c
  same-Fixed c e = record { last = e; binding = refl; peer = refl }

  if-Fixed :
      {A : Type 0} (b : Bool) {c : NoiseChannel C} (r s : Reply A C)
      → Fixed c r.1
      → Fixed c s.1
      → Fixed c (if b then r else s).1
  if-Fixed true r s left right = left
  if-Fixed false r s left right = right

  transported-Fixed :
      (limit : ℕ) (o : Option (Bytes × C)) (c : NoiseChannel C)
      → is_complete c.next_action ≡ true
      → Fixed c (transported limit o c).1
  unfolding transported fails close
  transported-Fixed limit none c e = record { last = e; binding = refl; peer = refl }
  transported-Fixed limit (some (bytes, k)) c e =
      if-Fixed (leb (length bytes) limit) _ _ (record { last = e; binding = refl; peer = refl })
        (record { last = e; binding = refl; peer = refl })

  module _ (noise : Noise C) where
    encrypt_open-Fixed :
        (plaintext : Bytes) (o : Option C) (c : NoiseChannel C)
        → is_complete c.next_action ≡ true
        → Fixed c (encrypt_open noise plaintext o c).1
    unfolding encrypt_open
    encrypt_open-Fixed plaintext none c e = same-Fixed c e
    encrypt_open-Fixed plaintext (some k) c e =
        if-Fixed (not (handshake_finished c)) _ _ (same-Fixed c e) (
          if-Fixed (ltb 65_519 (length plaintext)) _ _ (same-Fixed c e)
            (transported-Fixed 65_535 _ c e))

    decrypt_open-Fixed :
        (ciphertext : Bytes) (o : Option C) (c : NoiseChannel C)
        → is_complete c.next_action ≡ true
        → Fixed c (decrypt_open noise ciphertext o c).1
    unfolding decrypt_open
    decrypt_open-Fixed ciphertext none c e = same-Fixed c e
    decrypt_open-Fixed ciphertext (some k) c e =
        if-Fixed (not (handshake_finished c)) _ _ (same-Fixed c e) (
          if-Fixed (ltb 65_535 (length ciphertext) || ltb (length ciphertext) 16) _ _
            (same-Fixed c e) (transported-Fixed 65_519 _ c e))

    after_write_complete :
        (a : Action) (i : Bool) (size : ℕ) → is_complete a ≡ true → after_write a i size ≡ none
    unfolding after_write
    after_write_complete a i size e = rw (sym (is_complete-eq a e)) refl

    after_read_complete : (a : Action) (i : Bool) → is_complete a ≡ true → after_read a i ≡ none
    unfolding after_read
    after_read_complete a i e = rw (sym (is_complete-eq a e)) refl

    write_open-Fixed :
        (payload : Bytes) (o : Option C) (c : NoiseChannel C)
        → is_complete c.next_action ≡ true
        → Fixed c (write_open noise payload o c).1
    unfolding write_open write_next fails close
    write_open-Fixed payload none c e = same-Fixed c e
    write_open-Fixed payload (some k) c e =
        if-Fixed (ltb 32 (length payload)) _ _ (record { last = e; binding = refl; peer = refl })
          (rw (after_write_complete c.next_action c.is_initiator (length payload) e)
            (record { last = e; binding = refl; peer = refl }))

    read_open-Fixed :
        (wire : Bytes) (o : Option C) (c : NoiseChannel C)
        → is_complete c.next_action ≡ true
        → Fixed c (read_open noise wire o c).1
    unfolding read_open read_next fails close
    read_open-Fixed wire none c e = same-Fixed c e
    read_open-Fixed wire (some k) c e =
        if-Fixed (is_wire_size (length wire)) _ _
          (rw (after_read_complete c.next_action c.is_initiator e)
            (record { last = e; binding = refl; peer = refl }))
          (record { last = e; binding = refl; peer = refl })

    perform-Fixed :
        (op : Op) (c : NoiseChannel C)
        → is_complete c.next_action ≡ true
        → Fixed c (perform noise op c).1
    unfolding perform write_handshake read_handshake encrypt decrypt mark_admitted
        mark_transport_bound close
    perform-Fixed (writes payload) c e = write_open-Fixed payload (open_connection c) c e
    perform-Fixed (reads wire) c e = read_open-Fixed wire (open_connection c) c e
    perform-Fixed (encrypts plaintext) c e = encrypt_open-Fixed plaintext (open_connection c) c e
    perform-Fixed (decrypts ciphertext) c e = decrypt_open-Fixed ciphertext (open_connection c) c e
    perform-Fixed admits c e = if-Fixed (not (is_open (open_connection c))) _ _ (same-Fixed c e) (
        if-Fixed (not (handshake_finished c)) _ _ (same-Fixed c e) (
          if-Fixed c.admitted _ _ (same-Fixed c e)
            (record { last = e; binding = refl; peer = refl })))
    perform-Fixed binds c e = if-Fixed (not (is_open (open_connection c))) _ _ (same-Fixed c e) (
        if-Fixed (not (handshake_finished c) || not c.admitted) _ _ (same-Fixed c e) (
          if-Fixed c.transport_bound _ _ (same-Fixed c e)
            (record { last = e; binding = refl; peer = refl })))
    perform-Fixed closes c e = record { last = e; binding = refl; peer = refl }

    run-Fixed :
        (ops : List Op) (c : NoiseChannel C)
        → is_complete c.next_action ≡ true
        → Fixed c (run noise ops c).1
    unfolding run
    run-Fixed [] c e = same-Fixed c e
    run-Fixed (op ∷ ops) c e =
        let f = perform-Fixed op c e in
        let g = run-Fixed ops (perform noise op c).1 f.last in
        record { last = g.last; binding = g.binding ∙ f.binding; peer = g.peer ∙ f.peer }

  -- Once a handshake is finished, no operations change the channel binding or the key of the peer.
  pub run-keys :
      (noise : Noise C) (ops : List Op) (c : NoiseChannel C)
      → handshake_finished c ≡ true
      → ((run noise ops c).1.channel_binding ≡ c.channel_binding)
        × ((run noise ops c).1.remote_static_public ≡ c.remote_static_public)
  unfolding handshake_finished
  run-keys noise ops c e = let f = run-Fixed noise ops c (ground (arith, e)) in (f.binding, f.peer)
