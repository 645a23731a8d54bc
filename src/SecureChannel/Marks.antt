-- ===== src/SecureChannel/Marks.antt =====
-- The marks of a `NoiseChannel`, secure_channel.py, against the life of a channel.
use mercury_relay_plugin.Prelude.{
  ◌≡◌, ◌≢◌, refl, sym, ap, ◌∙◌, ◌⊎◌, inl, inr, Bool, Bool-cases, true, false, not, ◌||◌,
  if◌then◌else◌, err, arith,
}
use mercury_relay_plugin.SecureChannel.{
  ChannelError, handshake_not_finished, channel_closed, channel_already_admitted,
  channel_not_admitted, channel_transport_bound, NoiseChannel, Reply, handshake_finished, is_open,
  mark_admitted, mark_transport_bound,
}
use mercury_relay_plugin.SecureChannel.Phases.{
  Phase, established, admitted, Op, admits, binds, is_up, Permits, up_phase, is_complete-eq, phase,
  IsChannel, Refines, opens, closed-Refines,
}
use mercury_relay_plugin.SecureChannel.Records.{is_up-finished}

up-is_up : (p q : Phase) → is_up q ≡ true → is_up p ≡ false → p ≢ q
up-is_up p q up down e = cc

up_phase-established : (x y : Bool) → x ≡ true → up_phase x y ≢ established
up_phase-established x true was e = cc
up_phase-established true false was e = cc
up_phase-established false false was e = cc

up_phase-admitted : (x y : Bool) → (x ≡ false) ⊎ (y ≡ true) → up_phase x y ≢ admitted
up_phase-admitted x true was e = cc
up_phase-admitted true false (inl a) e = cc
up_phase-admitted true false (inr a) e = cc
up_phase-admitted false false was e = cc

is-true : (b : Bool) → not b ≡ false → b ≡ true
is-true b e = ground (arith, e)

module _ {C : Type 0} where
  -- What is left to show where the channel stays as it is.
  kept-Refines :
      {A : Type 0} (op : Op) (c : NoiseChannel C) (reason : ChannelError)
      → IsChannel c
      → Permits c.is_initiator (phase c) op false (phase c)
      → Refines {A = A} op c (err reason, c)
  kept-Refines op c reason h may = record { permits = may; is_channel = h; same_role = refl }

  -- Either reply of a test.
  if-Refines :
      {A : Type 0} {op : Op} {c : NoiseChannel C} (b : Bool) {r s : Reply A C}
      → (b ≡ true → Refines op c r)
      → (b ≡ false → Refines op c s)
      → Refines op c (if b then r else s)
  if-Refines true left right = left refl
  if-Refines false left right = right refl

  phase-finished :
      (c : NoiseChannel C) (x y : Bool)
      → handshake_finished c ≡ true
      → phase (record c { admitted = x; transport_bound = y }) ≡ up_phase x y
  unfolding phase handshake_finished
  phase-finished c x y e =
      let live : c.closed ≡ false = ground (arith, e) in
      rw (live, sym (is_complete-eq c.next_action (ground (arith, e)))) refl

  -- A channel that is up may be marked.
  marked-IsChannel :
      (c : NoiseChannel C) (x y : Bool)
      → IsChannel c
      → handshake_finished c ≡ true
      → (not y || x) ≡ true
      → IsChannel (record c { admitted = x; transport_bound = y })
  unfolding handshake_finished
  marked-IsChannel c x y h e fits = record {
    alive = h.alive;
    role = h.role;
    keys = h.keys;
    was_complete = ground (arith, e);
    was_admitted = fits;
  }

  not_admitted :
      (c : NoiseChannel C)
      → (not (handshake_finished c) || not c.admitted) ≡ true
      → phase c ≢ admitted
  not_admitted c e = elim (Bool-cases (handshake_finished c)) [
    | inl up ↦ λ x.
        up_phase-admitted c.admitted c.transport_bound (inl (ground (arith, e, up)))
          (sym (phase-finished c c.admitted c.transport_bound up) ∙ x)
    | inr down ↦ up-is_up (phase c) admitted refl (is_up-finished c ∙ down)
  ]

  pub mark_admitted-Refines :
      (c : NoiseChannel C) → IsChannel c → Refines admits c (mark_admitted c)
  unfolding mark_admitted is_open
  mark_admitted-Refines c h = elim (opens c h) [
    | inl (e, gone) ↦
        rw gone (closed-Refines admits c channel_closed h e (λ i. inr (refl, (λ x. cc), refl)))
    | inr (live, k, there) ↦ rw there (
        if-Refines (not (handshake_finished c))
          (λ e. kept-Refines admits c handshake_not_finished h (
            inr (
              refl,
              up-is_up (phase c) established refl (is_up-finished c ∙ ground (arith, e)),
              refl,
            )))
          (λ e.
            let up = is-true (handshake_finished c) e in
            let here = phase-finished c c.admitted c.transport_bound up in
            if-Refines c.admitted
              (λ was. kept-Refines admits c channel_already_admitted h (
                inr (
                  refl,
                  (λ x. up_phase-established c.admitted c.transport_bound was (sym here ∙ x)),
                  refl,
                )))
              (λ new.
                let unbound : c.transport_bound ≡ false = ground (arith, h.was_admitted, new) in
                record {
                  permits = inl (
                    refl,
                    here ∙ rw (new, unbound) refl,
                    phase-finished c true c.transport_bound up ∙ ap (up_phase true) unbound,
                  );
                  is_channel = marked-IsChannel c true c.transport_bound h up (ground arith);
                  same_role = refl;
                })))
  ]

  pub mark_transport_bound-Refines :
      (c : NoiseChannel C) → IsChannel c → Refines binds c (mark_transport_bound c)
  unfolding mark_transport_bound is_open
  mark_transport_bound-Refines c h = elim (opens c h) [
    | inl (e, gone) ↦
        rw gone (closed-Refines binds c channel_closed h e (λ i. inr (refl, (λ x. cc), refl)))
    | inr (live, k, there) ↦ rw there (
        if-Refines (not (handshake_finished c) || not c.admitted)
          (λ e. kept-Refines binds c channel_not_admitted h (inr (refl, not_admitted c e, refl)))
          (λ e.
            let up : handshake_finished c ≡ true = ground (arith, e) in
            let was : c.admitted ≡ true = ground (arith, e) in
            let here = phase-finished c c.admitted c.transport_bound up in
            if-Refines c.transport_bound
              (λ has. kept-Refines binds c channel_transport_bound h (
                inr (
                  refl,
                  (λ x. up_phase-admitted c.admitted c.transport_bound (inr has) (sym here ∙ x)),
                  refl,
                )))
              (λ new. record {
                permits = inl (
                  refl,
                  here ∙ rw (was, new) refl,
                  phase-finished c c.admitted true up ∙ ap (λ x. up_phase x true) was,
                );
                is_channel = marked-IsChannel c c.admitted true h up was;
                same_role = refl;
              })))
  ]
