-- ===== src/ControllerTransport/Inbound.antt =====
-- A message from the phone through `feed_ciphertext` of controller_transport.py: framing.py on the phone's
-- side and on the host's, with the two ends of a Noise session between them.
use mercury_relay_plugin.Prelude.{
  ℕ, zero, suc, ◌+◌, ◌≤◌, ◌≡◌, refl, ap, ◌∙◌, Bool, true, false, Option, none, some, List, [], ◌∷◌,
  Bytes, All, bytes_eq_refl, length, Result, ok, arith,
}
use mercury_relay_plugin.Framing.{Error, encode_message, max_logical_message_bytes}
use mercury_relay_plugin.Framing.Reassembler.{Reassembler, reset, push, push_all, set_and_differs}
use mercury_relay_plugin.Framing.Reassembler.Messages.{
  IsIdle, IsIdle-reset, replies_of, push_all-encode_message,
}
use mercury_relay_plugin.SecureChannel.{
  Noise, NoiseChannel, handshake_finished, open_connection, transported, encrypt, encrypt_open,
  decrypt, decrypt_open,
}
use mercury_relay_plugin.ControllerTransport.{
  Outcome, returns, Attachment, Transport, require_open, was_fed, feed_message, was_pushed,
  was_decrypted, feed_ciphertext, encrypt_all,
}

-- What the Noise library promises of two connections that are in step: a record that one encrypts is 16
-- bytes longer, the other decrypts it to the same bytes, and they are in step again.
pub record InStep {C : Type 0} (noise : Noise C) (R : C → C → Type 0) : Type 0 where
  pub carries :
      (a b : C) (x : Bytes)
      → R a b
      → length x ≤ 65_519
      → (y : Bytes) × (c : C) × (d : C) × (noise.encrypt_record a x ≡ some (y, c))
        × (noise.decrypt_record b y ≡ some (x, d))
        × (length y ≡ length x + 16)
        × R c d

-- Ciphertexts that a connection decrypts to these records, one after the other.
pub data Decrypts {C : Type 0} (noise : Noise C) : C → List Bytes → List Bytes → C → Type 0 where
  ended : {k : C} → Decrypts noise k [] [] k
  decrypts_to :
      {k l m : C} {y r : Bytes} {ys rs : List Bytes}
      → length y ≡ length r + 16
      → length r ≤ 65_519
      → noise.decrypt_record k y ≡ some (r, l)
      → Decrypts noise l ys rs m
      → Decrypts noise k (y ∷ ys) (r ∷ rs) m

module _ {C : Type 0} where
  -- A channel that carries records, on this connection.
  pub record IsUp (c : NoiseChannel C) (k : C) : Type 0 where
    pub finished : handshake_finished c ≡ true
    pub connected : c.connection ≡ some k

  abbrev pub at_connection : NoiseChannel C → C → NoiseChannel C
  at_connection c k = record c { connection = some k }

  pub moved-IsUp : (c : NoiseChannel C) (k l : C) → IsUp c k → IsUp (at_connection c l) l
  unfolding handshake_finished
  moved-IsUp c k l up = record { finished = up.finished; connected = refl }

  pub is_open_up :
      (c : NoiseChannel C) (k : C) → IsUp c k → (open_connection c ≡ some k) × (c.closed ≡ false)
  unfolding open_connection handshake_finished
  is_open_up c k up = (ground (arith, up.finished, up.connected), ground (arith, up.finished))

  decrypt_up :
      (noise : Noise C) (c : NoiseChannel C) (k l : C) (y r : Bytes)
      → IsUp c k
      → length y ≡ length r + 16
      → length r ≤ 65_519
      → noise.decrypt_record k y ≡ some (r, l)
      → decrypt noise y c ≡ (ok r, at_connection c l)
  unfolding decrypt decrypt_open transported
  decrypt_up noise c k l y r up long short e =
      let (here, live) = is_open_up c k up in rw here (ground (arith, up.finished, long, short, e))

  encrypt_up :
      (noise : Noise C) (c : NoiseChannel C) (k l : C) (y r : Bytes)
      → IsUp c k
      → length y ≡ length r + 16
      → length r ≤ 65_519
      → noise.encrypt_record k r ≡ some (y, l)
      → encrypt noise r c ≡ (ok y, at_connection c l)
  unfolding encrypt encrypt_open transported
  encrypt_up noise c k l y r up long short e =
      let (here, live) = is_open_up c k up in rw here (ground (arith, up.finished, long, short, e))

  -- Records that fit are encrypted in order to what the other side decrypts.
  pub encrypt_all-Decrypts :
      (noise : Noise C) (R : C → C → Type 0) (session : InStep noise R) (rs : List Bytes)
      (c : NoiseChannel C) (a b : C)
      → IsUp c a
      → R a b
      → All (λ r. length r ≤ 65_519) rs
      → (ys : List Bytes) × (k : C) × (l : C) × (encrypt_all noise rs c
          ≡ (ok ys, at_connection c k))
        × Decrypts noise b ys rs l
        × R k l
  unfolding encrypt_all
  encrypt_all-Decrypts noise R session [] c a b up together fits =
      ([], a, b, ap (λ o. (ok [], record c { connection = o })) up.connected, ended, together)
  encrypt_all-Decrypts noise R session (r ∷ rs) c a b up together fits =
      let (y, k, l, enc, dec, long, next) = session.carries a b r together fits.0 in
      let (ys, m, n, all, ds, last) =
        encrypt_all-Decrypts noise R session rs (at_connection c k) k l (moved-IsUp c a k up) next
          fits.1 in
      (
        y ∷ ys,
        m,
        n,
        ground (arith, encrypt_up noise c a k y r up long fits.0 enc, all),
        decrypts_to long fits.0 dec ds,
        last,
      )

-- The transport once it has taken records: its connection, its reassembler and its attachment.
abbrev pub moved : {C W : Type 0} → Transport C W → C → Reassembler → Transport C W
moved t k r = record t { channel = at_connection t.channel k; reassembler = r }

-- `False` for each record but the last.
abbrev pub outcomes_of : ℕ → List (Outcome Bool)
outcomes_of zero = []
outcomes_of (suc zero) = returns true ∷ []
outcomes_of (suc (suc n)) = returns false ∷ outcomes_of (suc n)

push_all-first :
    (s last : Reassembler) (r : Bytes) (rs : List Bytes) (reply : Result Error (Option Bytes))
    (replies : List (Result Error (Option Bytes)))
    → push_all s (r ∷ rs) ≡ (reply ∷ replies, last)
    → (next : Reassembler) × (push s r ≡ (reply, next)) × (push_all next rs ≡ (replies, last))
unfolding push_all
push_all-first s last r rs reply replies e = ((push s r).1, ground (arith, e), ground (arith, e))

module _ {C W : Type 0} (lease : Attachment W) (meanwhile : Transport C W → Transport C W)
    (noise : Noise C) (is_utf8 : Bytes → Bool) where
  -- Ciphertexts that are fed in order.
  unfoldable pub feed_all : List Bytes → Transport C W → List (Outcome Bool) × Transport C W
  feed_all [] t = ([], t)
  feed_all (y ∷ ys) t =
      let (reply, next) = feed_ciphertext lease meanwhile noise is_utf8 y t in
      let (replies, last) = feed_all ys next in (reply ∷ replies, last)

  feed_part :
      (t : Transport C W) (k l : C) (y r : Bytes) (next : Reassembler)
      → t.closed ≡ false
      → IsUp t.channel k
      → length y ≡ length r + 16
      → length r ≤ 65_519
      → noise.decrypt_record k y ≡ some (r, l)
      → push t.reassembler r ≡ (ok none, next)
      → feed_ciphertext lease meanwhile noise is_utf8 y t ≡ (returns false, moved t l next)
  unfolding feed_ciphertext require_open was_decrypted was_pushed
  feed_part t k l y r next live up long short e p =
      let (here, running) = is_open_up t.channel k up in
      ground (arith, live, running, decrypt_up noise t.channel k l y r up long short e, p)

  feed_whole :
      (t : Transport C W) (k l : C) (y r text : Bytes) (next : Reassembler) (w : W)
      → t.closed ≡ false
      → IsUp t.channel k
      → length y ≡ length r + 16
      → length r ≤ 65_519
      → noise.decrypt_record k y ≡ some (r, l)
      → push t.reassembler r ≡ (ok (some text), next)
      → is_utf8 text ≡ true
      → lease.feed_text text t.attachment ≡ (ok tt, w)
      → feed_ciphertext lease meanwhile noise is_utf8 y t
        ≡ (returns true, meanwhile (record (moved t l next) { attachment = w }))
  unfolding feed_ciphertext require_open was_decrypted was_pushed feed_message was_fed
  feed_whole t k l y r text next w live up long short e p valid fed =
      let (here, running) = is_open_up t.channel k up in
      ground
        (arith, live, running, decrypt_up noise t.channel k l y r up long short e, p, valid, fed)

  feed_all-Decrypts :
      (rs ys : List Bytes) (r : Bytes) (k m : C) (payload : Bytes) (w : W) (last : Reassembler)
      (t : Transport C W)
      → Decrypts noise k ys (r ∷ rs) m
      → t.closed ≡ false
      → IsUp t.channel k
      → is_utf8 payload ≡ true
      → lease.feed_text payload t.attachment ≡ (ok tt, w)
      → push_all t.reassembler (r ∷ rs) ≡ (replies_of payload (suc (length rs)), last)
      → feed_all ys t
        ≡ (outcomes_of (suc (length rs)), meanwhile (record (moved t m last) { attachment = w }))
  unfolding feed_all push_all push_all-first
  feed_all-Decrypts [] (y ∷ ys) r k m payload w last t (decrypts_to long short e ended) live up
        valid fed p =
      let (next, a, b) = push_all-first t.reassembler last r [] _ _ p in
      let at_end : next ≡ last = ap (λ r. r.1) b in
      let h =
        feed_whole t k m y r payload last w live up long short e
          (a ∙ ap (λ x. (ok (some payload), x)) at_end) valid fed in
      ground (arith, h)
  feed_all-Decrypts (q ∷ rs) (y ∷ ys) r k m payload w last t (decrypts_to {l = l} long short e rest)
        live up valid fed p =
      let (next, a, b) = push_all-first t.reassembler last r (q ∷ rs) _ _ p in
      let h = feed_part t k l y r next live up long short e a in
      let g =
        feed_all-Decrypts rs ys q l m payload w last (moved t l next) rest live
          (moved-IsUp t.channel k l up) valid fed b in
      ground (arith, h, g)
  feed_all-Decrypts [] [] r k m payload w last t none_left live up valid fed p = elim none_left [ ]
  feed_all-Decrypts (q ∷ rs) [] r k m payload w last t none_left live up valid fed p =
      elim none_left [ ]

  feed_all-records :
      (rs ys : List Bytes) (k m : C) (payload : Bytes) (w : W) (last : Reassembler)
      (t : Transport C W)
      → 1 ≤ length rs
      → Decrypts noise k ys rs m
      → t.closed ≡ false
      → IsUp t.channel k
      → is_utf8 payload ≡ true
      → lease.feed_text payload t.attachment ≡ (ok tt, w)
      → push_all t.reassembler rs ≡ (replies_of payload (length rs), last)
      → feed_all ys t
        ≡ (outcomes_of (length rs), meanwhile (record (moved t m last) { attachment = w }))
  feed_all-records [] ys k m payload w last t some_left ds live up valid fed p =
      absurd (omega arith)
  feed_all-records (r ∷ rs) ys k m payload w last t some_left ds live up valid fed p =
      feed_all-Decrypts rs ys r k m payload w last t ds live up valid fed p

-- An open transport between two messages, on this connection.
pub record IsReady {C W : Type 0} (t : Transport C W) (k : C) : Type 0 where
  pub live : t.closed ≡ false
  pub up : IsUp t.channel k
  pub id_size : length t.channel_id ≡ 16
  pub same_id : t.reassembler.channel_id ≡ some t.channel_id
  pub is_data : t.reassembler.expected_kind ≡ 1
  pub no_flags : t.reassembler.expected_flags ≡ 0
  pub is_idle : IsIdle t.reassembler

pub length-Decrypts :
    {C : Type 0} (noise : Noise C) (k m : C) (ys rs : List Bytes)
    → Decrypts noise k ys rs m
    → length ys ≡ length rs
length-Decrypts noise k m ys rs ended = refl
length-Decrypts noise k m ys rs (decrypts_to {l = l} {ys = more} {rs = rest} long short e ds) =
    ap suc (length-Decrypts noise l m more rest ds)

pub set_and_differs-same :
    (o : Option Bytes) (id : Bytes) → o ≡ some id → set_and_differs o id ≡ false
set_and_differs-same o id e = rw (e, bytes_eq_refl id) refl

-- Let the phone's channel and the transport's be in step, and the transport open and between two messages. The
-- records of a text of at most 16 MiB are then encrypted by the phone, and the transport that is fed them in
-- order returns False until the last, and with the last it feeds the attachment exactly the text, once.
-- The channels are in step again, and the transport between two messages, up to what other tasks make of it
-- during the await of the attachment. The text is UTF-8, and the attachment takes it.
pub feed_all-encode_message :
    {C W : Type 0} (lease : Attachment W) (meanwhile : Transport C W → Transport C W)
    (noise : Noise C) (is_utf8 : Bytes → Bool) (R : C → C → Type 0) (session : InStep noise R)
    (phone : NoiseChannel C) (a b : C) (t : Transport C W) (message_id text : Bytes) (w : W)
    → length message_id ≡ 16
    → length text ≤ max_logical_message_bytes
    → IsUp phone a
    → IsReady t b
    → R a b
    → is_utf8 text ≡ true
    → lease.feed_text text t.attachment ≡ (ok tt, w)
    → (rs ys : List Bytes) × (k l : C) × (encode_message t.channel_id message_id text 1 0 ≡ ok rs)
      × (encrypt_all noise rs phone ≡ (ok ys, at_connection phone k))
      × (feed_all lease meanwhile noise is_utf8 ys t ≡ (
        outcomes_of (length ys),
        meanwhile (record (moved t l (reset t.reassembler)) { attachment = w }),
      ))
      × R k l
      × IsReady (record (moved t l (reset t.reassembler)) { attachment = w }) l
unfolding reset
feed_all-encode_message lease meanwhile noise is_utf8 R session phone a b t message_id text w ms
      small up ready together valid fed =
    let (rs, encoded, count, short, pushed) =
      push_all-encode_message t.channel_id message_id text t.reassembler ready.id_size ms small
        ready.is_idle ready.is_data ready.no_flags
        (set_and_differs-same t.reassembler.channel_id t.channel_id ready.same_id) in
    let (ys, k, l, sent, ds, next) =
      encrypt_all-Decrypts noise R session rs phone a b up together short in
    (
      rs,
      ys,
      k,
      l,
      encoded,
      sent,
      rw (length-Decrypts noise b l ys rs ds) (
          feed_all-records lease meanwhile noise is_utf8 rs ys b l text w (reset t.reassembler) t
            (omega arith) ds ready.live ready.up valid fed pushed),
      next,
      record {
        live = ready.live;
        up = moved-IsUp t.channel b l ready.up;
        id_size = ready.id_size;
        same_id = ready.same_id;
        is_data = ready.is_data;
        no_flags = ready.no_flags;
        is_idle = IsIdle-reset t.reassembler ready.is_idle;
      },
    )
