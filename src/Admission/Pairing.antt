-- ===== src/Admission/Pairing.antt =====
-- `complete_pairing` of admission.py, and an admission against a revocation of the device meanwhile.
use Prim.Native.String.{String}
use mercury_relay_plugin.Prelude.{
  ◌≡◌, ◌≢◌, refl, sym, ap, subst, ◌∙◌, ◌⊎◌, inl, inr, Option, none, some, Bytes, Result, ok, err,
  ok_injective,
}
use mercury_relay_plugin.StrictJson.{Json}
use mercury_relay_plugin.MethodPolicy.{codes}
use mercury_relay_plugin.SecureChannel.{ChannelError, Noise, NoiseChannel, decrypt, mark_admitted}
use mercury_relay_plugin.Authorization.Records.{State, Library}
use mercury_relay_plugin.Authorization.{
  Error, Env, DeviceSummary, consume_offer, is_authorized, revoke, list_devices,
}
use mercury_relay_plugin.Authorization.Withdrawal.{revoke-is_authorized}
use mercury_relay_plugin.Admission.{Refusal, AuthEnvelope, parse_controller_auth}
use mercury_relay_plugin.Admission.Open.{
  Leases, World, Answers, Admission, remote_key, binding_of, consumed, paired, pair_with,
  unless_claimed, complete_pairing, open_controller,
}
use mercury_relay_plugin.Admission.Stages.{Ends, Marked, refuses-Ends, mark_admitted-Marked}
use mercury_relay_plugin.Admission.Claims.{IsClaimed, IsUnclaimed, IsUnclaimed-cases}
use mercury_relay_plugin.Admission.Admitted.{open_controller-IsAdmitted}

module _ {C L : Type 0} (lib : Library) (env : Env) (payload : Bytes) (w : World C L) where
  -- The offer was consumed with the keys of the channel, and the channel is admitted.
  pub record IsPaired (summary : DeviceSummary) (last : World C L) : Type 0 where
    pub key : Bytes
    pub binding : Bytes
    pub has_key : remote_key w.channel ≡ some key
    pub has_binding : binding_of w.channel ≡ some binding
    pub consumed : consume_offer lib env payload key binding w.state ≡ (ok summary, last.state)
    pub marked : Marked last.channel

  -- The leases are those that there were.
  abbrev pub Unmoved : L → Type 0
  Unmoved l = l ≡ w.leases

  paired-Ends :
      (key binding : Bytes) (summary : DeviceSummary) (state : State)
      (r : Result ChannelError (Unit {0}) × NoiseChannel C)
      → remote_key w.channel ≡ some key
      → binding_of w.channel ≡ some binding
      → consume_offer lib env payload key binding w.state ≡ (ok summary, state)
      → mark_admitted w.channel ≡ r
      → Ends IsPaired Unmoved (paired summary (record w { state = state }) r)
  unfolding paired
  paired-Ends key binding summary state (ok u, d) has_key has_binding e m = record {
    ends_in = record {
      key = key;
      binding = binding;
      has_key = has_key;
      has_binding = has_binding;
      consumed = e;
      marked = mark_admitted-Marked w.channel d u m;
    };
  }
  paired-Ends key binding summary state (err x, d) has_key has_binding e m =
      refuses-Ends IsPaired Unmoved _ _ refl

  consumed-Ends :
      (key binding : Bytes) (r : Result Error DeviceSummary × State)
      → remote_key w.channel ≡ some key
      → binding_of w.channel ≡ some binding
      → consume_offer lib env payload key binding w.state ≡ r
      → Ends IsPaired Unmoved (consumed w r)
  unfolding consumed
  consumed-Ends key binding (err x, state) has_key has_binding e =
      refuses-Ends IsPaired Unmoved _ _ refl
  consumed-Ends key binding (ok summary, state) has_key has_binding e =
      paired-Ends key binding summary state _ has_key has_binding e refl

  pair_with-Ends :
      (k b : Option Bytes)
      → remote_key w.channel ≡ k
      → binding_of w.channel ≡ b
      → Ends IsPaired Unmoved (pair_with lib env payload k b w)
  unfolding pair_with
  pair_with-Ends none b e f = refuses-Ends IsPaired Unmoved _ w refl
  pair_with-Ends (some key) none e f = refuses-Ends IsPaired Unmoved _ w refl
  pair_with-Ends (some key) (some binding) e f = consumed-Ends key binding _ e f refl

  -- A channel that is the initiator's, in its handshake, closed or admitted already is refused with that
  -- reason, and nothing changes. With any other, `complete_pairing` returns only when the offer was consumed
  -- with the key of the channel's peer and with its binding, with what that returned, and the channel is then
  -- finished and admitted. Where it raises, the channel is closed and no lease is touched.
  pub complete_pairing-IsPaired :
      ((reason : Refusal) × IsClaimed w.channel reason
        × (complete_pairing lib env payload w ≡ (err reason, w)))
      ⊎ (IsUnclaimed w.channel × Ends IsPaired Unmoved (complete_pairing lib env payload w))
  unfolding complete_pairing unless_claimed
  complete_pairing-IsPaired = elim (IsUnclaimed-cases w.channel) [
    | inl (reason, claimed, e) ↦ inl (reason, claimed, rw e refl)
    | inr (free, e) ↦ inr (free, rw e (pair_with-Ends _ _ refl refl))
  ]

reason_is_no_value :
    {A : Type 0} {a : A} {reason : Refusal} → ◌≡◌ {A = Result Refusal A} (ok a) (err reason) → ⊥
reason_is_no_value e = cc

ends-returned :
    {C L A : Type 0} {P : A → World C L → Type 0} {Q : L → Type 0} {r : Admission A C L} {a : A}
    {last : World C L}
    → Ends P Q r
    → r ≡ (ok a, last)
    → P a last
ends-returned {P = P} {Q = Q} h e = (subst (Ends P Q) e h).ends_in

-- If other tasks revoke the device that the envelope names while its lease is opened, and the revocation
-- returns, `open_controller` does not return.
pub revoked_while_opening :
    {C L A : Type 0} (lib : Library) (leases : Leases L A) (answers : Answers C L) (noise : Noise C)
    (decode : Bytes → Option String) (loads : String → Option Json) (ciphertext plaintext : Bytes)
    (w : World C L) (carried : NoiseChannel C) (e : AuthEnvelope) (env : Env)
    → decrypt noise ciphertext w.channel ≡ (ok plaintext, carried)
    → parse_controller_auth decode loads plaintext ≡ ok e
    → ((v : World C L)
        → (before : State) × (reply : Option DeviceSummary) × ((revoke lib env
              (codes e.device_id)
              before).0
            ≡ ok reply)
          × ((answers.awaited v).state ≡ (revoke lib env (codes e.device_id) before).1))
    → (a : A) (last : World C L)
    → open_controller lib leases answers noise decode loads ciphertext w ≢ (ok a, last)
revoked_while_opening lib leases answers noise decode loads ciphertext plaintext w carried e env d p
      gone a last h =
    elim (open_controller-IsAdmitted lib leases answers noise decode loads ciphertext w) [
      | inl (reason, claimed, refused) ↦ reason_is_no_value (ap (λ r. r.0) (sym h ∙ refused))
      | inr (free, ends) ↦
          let q = ends-returned ends h in
          let text : q.first.plaintext ≡ plaintext =
            ok_injective (ap (λ r. r.0) (sym q.first.decrypted ∙ d)) in
          let same : q.first.envelope ≡ e =
            ok_injective (sym q.first.says ∙ (ap (parse_controller_auth decode loads) text ∙ p)) in
          let (before, reply, returned, now) = gone (record {
            state = (list_devices lib answers.first q.first.state).1;
            channel = q.first.carried;
            leases = q.lease;
          }) in
          let there : q.late.state ≡ (revoke lib env (codes e.device_id) before).1 =
            ap (λ v. v.state) q.awaited ∙ now in
          revoke-is_authorized lib env (codes e.device_id) q.late_key before reply returned (
            ap (λ r. r.0)
              (sym (
                  ap (λ x. is_authorized lib (codes x.device_id) q.late_key q.late.state) same
                  ∙ ap (is_authorized lib (codes e.device_id) q.late_key) there)
                ∙ q.still_authorized))
    ]
