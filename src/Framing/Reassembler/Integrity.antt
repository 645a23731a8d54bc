-- ===== src/Framing/Reassembler/Integrity.antt =====
-- The `Reassembler` of framing.py on any records, whoever sends them.
use mercury_relay_plugin.Prelude.{
  ℕ, suc, ◌+◌, ◌≤◌, ◌≡◌, refl, sym, ap, subst, ◌∙◌, ◌⊎◌, inl, inr, Option, none, some, List, [],
  ◌∷◌, ◌++◌, arith, Bytes, bytes_eq→eq, length, Result, ok, err, ◌>>=◌, length-append, map,
}
use mercury_relay_plugin.Framing.{Error, Frame, decode_record}
use mercury_relay_plugin.Framing.Reassembler.Messages.{IsIdle, join-append, extend}
use mercury_relay_plugin.Framing.Reassembler.{
  Reassembler, reset, begin_or_continue, join, append_part, accept, push, reset_on_error,
}

-- `frames` are the first frames of one message: same ids, count and length, indices from `i` on.
abbrev pub AreFragments : Bytes → Bytes → ℕ → ℕ → ℕ → List Frame → Type 0
AreFragments channel message count n i [] = Unit
AreFragments channel message count n i (f ∷ fs) =
    ((f.channel_id ≡ channel)
      × (f.message_id ≡ message)
      × (f.fragment_count ≡ count)
      × (f.logical_length ≡ n)
      × (f.fragment_index ≡ i))
    × AreFragments channel message count n (suc i) fs

abbrev pub payloads : List Frame → List Bytes
payloads = map λ f. f.payload

AreFragments-append :
    (channel message : Bytes) (count n i : ℕ) (fs : List Frame) (f : Frame)
    → AreFragments channel message count n i fs
    → f.channel_id ≡ channel
    → f.message_id ≡ message
    → f.fragment_count ≡ count
    → f.logical_length ≡ n
    → f.fragment_index ≡ i + length fs
    → AreFragments channel message count n i (fs ++ f ∷ [])
AreFragments-append channel message count n i [] f h a b c d e = ((a, b, c, d, omega arith), tt)
AreFragments-append channel message count n i (g ∷ fs) f h a b c d e =
    (h.0, AreFragments-append channel message count n (suc i) fs f h.1 a b c d (omega arith))

-- The object holds the fragments `frames` of one message.
pub record Holds (s : Reassembler) (frames : List Frame) : Type 0 where
  pub parts_are : s.parts ≡ payloads frames
  pub next_is : s.next_index ≡ length frames
  pub received : s.received_length ≡ length (join s.parts)
  pub phase :
      ((s.message_id ≡ none) × (frames ≡ []))
      ⊎ ((channel : Bytes) × (message : Bytes) × (s.active_channel_id ≡ some channel)
          × (s.message_id ≡ some message)
          × (length (join s.parts) ≤ s.logical_length)
          × AreFragments channel message s.fragment_count s.logical_length 0 frames)

-- A message that was put together from `frames`.
pub record Assembled (frames : List Frame) (m : Bytes) : Type 0 where
  pub channel : Bytes
  pub message : Bytes
  pub count : ℕ
  pub are_fragments : AreFragments channel message count (length m) 0 frames
  pub complete : length frames ≡ count
  pub content : m ≡ join (payloads frames)

payloads-append :
    (fs : List Frame) (f : Frame) → payloads (fs ++ f ∷ []) ≡ payloads fs ++ f.payload ∷ []
payloads-append [] f = refl
payloads-append (g ∷ fs) f = ap (◌∷◌ g.payload) (payloads-append fs f)

-- The object after the test on `self._message_id`: a message at hand, to which the frame belongs.
record Begun (b : Reassembler) (f : Frame) (frames : List Frame) : Type 0 where
  parts_are : b.parts ≡ payloads frames
  next_is : b.next_index ≡ length frames
  received : b.received_length ≡ length (join b.parts)
  active_channel : b.active_channel_id ≡ some f.channel_id
  active_message : b.message_id ≡ some f.message_id
  same_count : f.fragment_count ≡ b.fragment_count
  same_length : f.logical_length ≡ b.logical_length
  bounded : length (join b.parts) ≤ b.logical_length
  are_fragments : AreFragments f.channel_id f.message_id b.fragment_count b.logical_length 0 frames

begins : Reassembler → Frame → Reassembler
begins s f = record s {
  active_channel_id = some f.channel_id;
  message_id = some f.message_id;
  fragment_count = f.fragment_count;
  logical_length = f.logical_length;
}

begin_idle :
    (s b : Reassembler) (f : Frame)
    → s.message_id ≡ none
    → begin_or_continue s f ≡ ok b
    → begins s f ≡ b
unfolding begin_or_continue begins
begin_idle s b f idle e = ground arith

continue_same :
    (s b : Reassembler) (f : Frame) (channel message : Bytes)
    → s.active_channel_id ≡ some channel
    → s.message_id ≡ some message
    → begin_or_continue s f ≡ ok b
    → (s ≡ b)
      × (channel ≡ f.channel_id)
      × (message ≡ f.message_id)
      × (f.fragment_count ≡ s.fragment_count)
      × (f.logical_length ≡ s.logical_length)
unfolding begin_or_continue
continue_same s b f channel message c m e =
    ground (arith, bytes_eq→eq f.channel_id channel, bytes_eq→eq f.message_id message)

begins-Begun : (s : Reassembler) (f : Frame) → Holds s [] → Begun (begins s f) f []
unfolding begins join
begins-Begun s f h = record {
  parts_are = h.parts_are;
  next_is = h.next_is;
  received = h.received;
  active_channel = refl;
  active_message = refl;
  same_count = refl;
  same_length = refl;
  bounded = rw h.parts_are (omega arith);
  are_fragments = tt;
}

begin_or_continue-Begun :
    (s b : Reassembler) (f : Frame) (frames : List Frame)
    → Holds s frames
    → begin_or_continue s f ≡ ok b
    → Begun b f frames
begin_or_continue-Begun s b f frames h e = elim h.phase [
  | inl (idle, none_yet) ↦
      subst (λ b. Begun b f frames) (begin_idle s b f idle e)
        (subst (λ fs. Begun (begins s f) f fs) (sym none_yet)
          (begins-Begun s f (subst (Holds s) none_yet h)))
  | inr (channel, message, c, m, bound, fragments) ↦
      let (same, ce, me, count, n) = continue_same s b f channel message c m e in
      subst (λ b. Begun b f frames) same
        (record {
          parts_are = h.parts_are;
          next_is = h.next_is;
          received = h.received;
          active_channel = c ∙ ap some ce;
          active_message = m ∙ ap some me;
          same_count = count;
          same_length = n;
          bounded = bound;
          are_fragments =
              subst (λ x. AreFragments x f.message_id s.fragment_count s.logical_length 0 frames) ce
                (subst (λ y. AreFragments channel y s.fragment_count s.logical_length 0 frames) me
                  fragments);
        })
]

-- What `append_part` returns.
abbrev Appended : List Frame → Option Bytes × Reassembler → Type 0
Appended frames (none, next) = Holds next frames
Appended frames (some m, next) = Assembled frames m × Holds next []

module _ (b : Reassembler) (f : Frame) (frames : List Frame) (g : Begun b f frames) where
  length-join-part :
      length (join (b.parts ++ f.payload ∷ [])) ≡ b.received_length + length f.payload
  length-join-part =
      ap length (join-append b.parts f.payload)
      ∙ length-append (join b.parts) f.payload
      ∙ ap (λ k. k + length f.payload) (sym g.received)

  fragments :
      f.fragment_index ≡ b.next_index
      → AreFragments f.channel_id f.message_id b.fragment_count b.logical_length 0
          (frames ++ f ∷ [])
  fragments e =
      AreFragments-append f.channel_id f.message_id b.fragment_count b.logical_length 0 frames f
        g.are_fragments refl refl g.same_count g.same_length (omega (arith, g.next_is))

  extend-Holds :
      f.fragment_index ≡ b.next_index
      → b.received_length + length f.payload ≤ b.logical_length
      → Holds (extend b f) (frames ++ f ∷ [])
  extend-Holds e h = record {
    parts_are = ap (λ ps. ps ++ f.payload ∷ []) g.parts_are ∙ sym (payloads-append frames f);
    next_is = omega (arith, g.next_is, length-append {0} frames (f ∷ []));
    received = sym length-join-part;
    phase = inr (
      f.channel_id,
      f.message_id,
      g.active_channel,
      g.active_message,
      omega (arith, length-join-part),
      fragments e,
    );
  }

  finish-Assembled :
      f.fragment_index ≡ b.next_index
      → b.next_index + 1 ≡ b.fragment_count
      → b.received_length + length f.payload ≡ b.logical_length
      → Assembled (frames ++ f ∷ []) (join (b.parts ++ f.payload ∷ []))
  finish-Assembled e n h = record {
    channel = f.channel_id;
    message = f.message_id;
    count = b.fragment_count;
    are_fragments =
        subst (λ k. AreFragments f.channel_id f.message_id b.fragment_count k 0 (frames ++ f ∷ []))
          (sym h ∙ sym length-join-part) (fragments e);
    complete = omega (arith, g.next_is, length-append {0} frames (f ∷ []));
    content =
        ap join (ap (λ ps. ps ++ f.payload ∷ []) g.parts_are ∙ sym (payloads-append frames f));
  }

reset-Holds : (s : Reassembler) → Holds (reset s) []
unfolding reset join
reset-Holds s = record {
  parts_are = refl;
  next_is = refl;
  received = refl;
  phase = inl (refl, refl);
}

-- The two ways in which `append_part` returns.
append_part_cases :
    (b : Reassembler) (f : Frame) (r : Option Bytes × Reassembler)
    → append_part b f ≡ ok r
    → (f.fragment_index ≡ b.next_index)
      × (b.received_length + length f.payload ≤ b.logical_length)
      × (((none, extend b f) ≡ r)
          ⊎ ((b.next_index + 1 ≡ b.fragment_count)
              × (b.received_length + length f.payload ≡ b.logical_length)
              × ((some (join (b.parts ++ f.payload ∷ [])), reset b) ≡ r)))
unfolding append_part reset
append_part_cases b f r e = ground arith

accept_parts :
    (s : Reassembler) (f : Frame) (r : Option Bytes × Reassembler)
    → accept s f ≡ ok r
    → (b : Reassembler) × (begin_or_continue s f ≡ ok b) × (append_part b f ≡ ok r)
unfolding accept
accept_parts s f r e = ground arith

accept-Appended :
    (s : Reassembler) (f : Frame) (frames : List Frame) (r : Option Bytes × Reassembler)
    → Holds s frames
    → accept s f ≡ ok r
    → Appended (frames ++ f ∷ []) r
accept-Appended s f frames r h e =
    let (b, begun, appended) = accept_parts s f r e in
    let g = begin_or_continue-Begun s b f frames h begun in
    let (index, fits, cases) = append_part_cases b f r appended in
    elim cases [
      | inl more ↦ subst (Appended (frames ++ f ∷ [])) more (extend-Holds b f frames g index fits)
      | inr (last, whole, done) ↦
          subst (Appended (frames ++ f ∷ [])) done
            (finish-Assembled b f frames g index last whole, reset-Holds b)
    ]

-- What the object holds after a push, and what the push returned, given what it held before.
abbrev pub Pushed : List Frame → Bytes → Result Error (Option Bytes) × Reassembler → Type 0
Pushed frames r (err e, next) = Holds next [] × IsIdle next
Pushed frames r (ok none, next) =
    (f : Frame) × (decode_record r ≡ ok f) × Holds next (frames ++ f ∷ [])
Pushed frames r (ok (some m), next) =
    (f : Frame) × (decode_record r ≡ ok f) × Assembled (frames ++ f ∷ []) m × Holds next []

accept-Pushed :
    (s : Reassembler) (r : Bytes) (f : Frame) (frames : List Frame)
    (a : Result Error (Option Bytes × Reassembler))
    → Holds s frames
    → decode_record r ≡ ok f
    → accept s f ≡ a
    → Pushed frames r (reset_on_error s a)
unfolding reset
accept-Pushed s r f frames (err x) h d e = (reset-Holds s, (refl, refl, refl, refl))
accept-Pushed s r f frames (ok (none, next)) h d e =
    (f, d, accept-Appended s f frames (none, next) h e)
accept-Pushed s r f frames (ok (some m, next)) h d e =
    let done = accept-Appended s f frames (some m, next) h e in (f, d, done.0, done.1)

decode-Pushed :
    (s : Reassembler) (r : Bytes) (frames : List Frame) (d : Result Error Frame)
    → Holds s frames
    → decode_record r ≡ d
    → Pushed frames r (reset_on_error s (d >>= accept s))
unfolding reset
decode-Pushed s r frames (err x) h e = (reset-Holds s, (refl, refl, refl, refl))
decode-Pushed s r frames (ok f) h e = accept-Pushed s r f frames (accept s f) h e refl

-- Whatever record is pushed into an object that holds `frames`: a push that raises leaves nothing
-- held; one that returns `None` decoded a frame that continues the same message, at the next index,
-- and holds it too; one that returns a message decoded its last frame, and the message is the payloads
-- of all its fragments in the order of their indices, none missing and none of another message.
pub push-Pushed :
    (s : Reassembler) (r : Bytes) (frames : List Frame)
    → Holds s frames
    → Pushed frames r (push s r)
unfolding push
push-Pushed s r frames h = decode-Pushed s r frames (decode_record r) h refl
