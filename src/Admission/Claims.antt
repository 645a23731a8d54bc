-- ===== src/Admission/Claims.antt =====
-- The channels that `_require_unclaimed_host_channel` of admission.py lets through.
use mercury_relay_plugin.Prelude.{◌≡◌, ◌⊎◌, inl, inr, Bool-cases, true, false, none, some, arith}
use mercury_relay_plugin.SecureChannel.{NoiseChannel, is_complete, handshake_finished}
use mercury_relay_plugin.Admission.{Refusal, invalid_channel, channel_already_admitted}
use mercury_relay_plugin.Admission.Open.{require_unclaimed}

-- The host's end of a connection that is open, past its handshake and not admitted.
pub record IsUnclaimed {C : Type 0} (c : NoiseChannel C) : Type 0 where
  pub responds : c.is_initiator ≡ false
  pub is_open : c.closed ≡ false
  pub is_past : is_complete c.next_action ≡ true
  pub not_admitted : c.admitted ≡ false

-- Why a channel is refused.
pub data IsClaimed {C : Type 0} (c : NoiseChannel C) : Refusal → Type 0 where
  initiates : c.is_initiator ≡ true → IsClaimed c invalid_channel
  is_closed : c.closed ≡ true → IsClaimed c invalid_channel
  in_handshake : is_complete c.next_action ≡ false → IsClaimed c invalid_channel
  was_admitted : c.admitted ≡ true → IsClaimed c channel_already_admitted

pub IsUnclaimed-cases :
    {C : Type 0} (c : NoiseChannel C)
    → ((reason : Refusal) × IsClaimed c reason × (require_unclaimed c ≡ some reason))
      ⊎ (IsUnclaimed c × (require_unclaimed c ≡ none))
unfolding require_unclaimed handshake_finished
IsUnclaimed-cases c = elim (Bool-cases c.is_initiator) [
  | inl e ↦ inl (invalid_channel, initiates e, ground (arith, e))
  | inr e ↦ elim (Bool-cases c.closed) [
    | inl f ↦ inl (invalid_channel, is_closed f, ground (arith, e, f))
    | inr f ↦ elim (Bool-cases (is_complete c.next_action)) [
      | inr g ↦ inl (invalid_channel, in_handshake g, ground (arith, e, f, g))
      | inl g ↦ elim (Bool-cases c.admitted) [
        | inl h ↦ inl (channel_already_admitted, was_admitted h, ground (arith, e, f, g, h))
        | inr h ↦ inr (
          record { responds = e; is_open = f; is_past = g; not_admitted = h },
          ground (arith, e, f, g, h),
        )
      ]
    ]
  ]
]
