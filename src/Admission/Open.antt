-- ===== src/Admission/Open.antt =====
-- `DeviceAdmissionService` of admission.py: `complete_pairing` and `open_controller`, on top of the
-- repository of authorization.py and the channel of secure_channel.py. `Leases` is what it calls of the
-- lease manager and of the runtime; `awaited` is what other tasks do while a lease is opened.
use Prim.Native.String.{String}
use mercury_relay_plugin.Prelude.{
  ℕ, Bool, true, false, not, ◌&&◌, ◌||◌, Option, none, some, List, [], ◌∷◌, Bytes, bytes_eq, ◌==◌,
  if◌then◌else◌, Result, ok, err,
}
use mercury_relay_plugin.StrictJson.{Json}
use mercury_relay_plugin.MethodPolicy.{codes}
use mercury_relay_plugin.SecureChannel.{
  ChannelError, Noise, NoiseChannel, Reply, handshake_finished, decrypt, mark_admitted, close,
}
use mercury_relay_plugin.Authorization.Records.{Text, State, Library, is_authorized_status}
use mercury_relay_plugin.Authorization as Repository
use mercury_relay_plugin.Authorization.{
  Error, Env, DeviceSummary, consume_offer, note_device_name, is_authorized, list_devices,
}
use mercury_relay_plugin.Admission.{
  Refusal, invalid_channel, channel_already_admitted, device_not_authorized, profile_not_available,
  runtime_unavailable, pairing_unavailable, pairing_rejected, rejected_by_offer, AuthEnvelope,
  parse_controller_auth,
}

-- Which lease an envelope asks for.
pub data Ask : Type 0 where
  opens : Bool → Bool → Ask
  reattaches : ℕ → Bool → Bool → Ask

-- `get` gives the epoch of the lease that is there, `ask` is `_open_lease` or `_reattach_lease`.
pub record Leases (L A : Type 0) : Type 0 where
  pub get : String → String → L → Option ℕ
  pub release_device : String → L → L
  pub ask : Ask → AuthEnvelope → Bytes → ℕ → L → Result Refusal A × L
  pub detach : A → L → L

pub record World (C L : Type 0) : Type 0 where
  pub state : State
  pub channel : NoiseChannel C
  pub leases : L

-- What the calls of one admission are answered; `none` is an exception.
pub record Answers (C L : Type 0) : Type 0 where
  pub naming : Env
  pub first : Env
  pub second : Env
  pub first_profile : String → Option Bool
  pub second_profile : String → Option Bool
  pub awaited : World C L → World C L

abbrev pub Admission : Type 0 → Type 0 → Type 0 → Type 0
Admission A C L = Result Refusal A × World C L

-- The epoch of the device in the list, if it is authorized there.
unfoldable pub find_epoch : Text → List DeviceSummary → Option ℕ
find_epoch id [] = none
find_epoch id (d ∷ ds) =
    let rest = find_epoch id ds in
    if bytes_eq d.device_id id && is_authorized_status d.status then some d.epoch else rest

-- `_epoch`
unfoldable pub epoch_of : Text → Result Error (List DeviceSummary) → Result Refusal ℕ
epoch_of id (err e) = err runtime_unavailable
epoch_of id (ok devices) = found (find_epoch id devices)
  where
    found : Option ℕ → Result Refusal ℕ
    found none = err device_not_authorized
    found (some n) = ok n

unfoldable pub asked_for : AuthEnvelope → Option ℕ → Ask
asked_for e existing = choose e.recovers existing e.resume_cursor
  where
    choose : Bool → Option ℕ → Option ℕ → Ask
    choose true none none = opens true false
    choose true none (some cursor) = opens true true
    choose true (some epoch) none = reattaches 0 true false
    choose true (some epoch) (some cursor) = reattaches cursor true true
    choose false existing (some cursor) = reattaches cursor false false
    choose false existing none = opens false false

-- `_require_unclaimed_host_channel`, for a channel; `none` where it passes.
unfoldable pub require_unclaimed : {C : Type 0} → NoiseChannel C → Option Refusal
require_unclaimed c =
    if c.is_initiator || not (handshake_finished c)
    then some invalid_channel
    else if c.admitted
    then some channel_already_admitted
    else none

-- The property `remote_static_public`; `none` is the SecureChannelError.
unfoldable pub remote_key : {C : Type 0} → NoiseChannel C → Option Bytes
remote_key c = if handshake_finished c then c.remote_static_public else none

unfoldable pub binding_of : {C : Type 0} → NoiseChannel C → Option Bytes
binding_of c = if handshake_finished c then c.channel_binding else none

-- The `except` clauses of `complete_pairing`: a PairingRejected passes, and an IdentityError is not an
-- AuthorizationError.
unfoldable pub pairing_reason : Error → Refusal
pairing_reason Repository.pairing_rejected = rejected_by_offer
pairing_reason Repository.identity_unavailable = pairing_rejected
pairing_reason e = pairing_unavailable

module _ {C L : Type 0} where
  unfoldable pub refuses : {A : Type 0} → Refusal → World C L → Admission A C L
  refuses reason w = (err reason, record w { channel = close w.channel })

  unfoldable pub paired :
      {A : Type 0}
      → A
      → World C L
      → Result ChannelError (Unit {0}) × NoiseChannel C
      → Admission A C L
  paired summary w (ok u, c) = (ok summary, record w { channel = c })
  paired summary w (err e, c) = refuses pairing_unavailable (record w { channel = c })

  unfoldable pub consumed : {A : Type 0} → World C L → Result Error A × State → Admission A C L
  consumed w (err e, state) = refuses (pairing_reason e) (record w { state = state })
  consumed w (ok summary, state) =
      paired summary (record w { state = state }) (mark_admitted w.channel)

  -- The two properties of the channel are read first.
  unfoldable pub pair_with :
      Library → Env → Bytes → Option Bytes → Option Bytes → World C L → Admission DeviceSummary C L
  pair_with lib env payload (some key) (some binding) w =
      consumed w (consume_offer lib env payload key binding w.state)
  pair_with lib env payload key binding w = refuses pairing_unavailable w

  unfoldable pub unless_claimed :
      {A : Type 0} → Option Refusal → World C L → Admission A C L → Admission A C L
  unless_claimed none w rest = rest
  unless_claimed (some reason) w rest = (err reason, w)

  unfoldable pub complete_pairing : Library → Env → Bytes → World C L → Admission DeviceSummary C L
  complete_pairing lib env payload w =
      unless_claimed (require_unclaimed w.channel) w
        (pair_with lib env payload (remote_key w.channel) (binding_of w.channel) w)

  module _ {A : Type 0} (lib : Library) (leases : Leases L A) (answers : Answers C L) where
    unfoldable pub was_marked :
        A → World C L → Result ChannelError (Unit {0}) × NoiseChannel C → Admission A C L
    was_marked a w (ok u, c) = (ok a, record w { channel = c })
    was_marked a w (err e, c) =
        refuses channel_already_admitted
          (record w { channel = c; leases = leases.detach a w.leases })

    unfoldable pub mark : A → World C L → Admission A C L
    mark a w = was_marked a w (mark_admitted w.channel)

    -- A lease that was opened, for a device that may not have it any more.
    unfoldable pub withdraws : Refusal → AuthEnvelope → World C L → Admission A C L
    withdraws reason e w =
        refuses reason (record w { leases = leases.release_device e.device_id w.leases })

    unfoldable pub profile_again : AuthEnvelope → A → Option Bool → World C L → Admission A C L
    profile_again e a none w = refuses runtime_unavailable w
    profile_again e a (some false) w = withdraws profile_not_available e w
    profile_again e a (some true) w = mark a w

    unfoldable pub epoch_again :
        AuthEnvelope → A → ℕ → Result Refusal ℕ → World C L → Admission A C L
    epoch_again e a epoch (err reason) w = refuses reason w
    epoch_again e a epoch (ok now) w =
        if now == epoch
        then profile_again e a (answers.second_profile e.profile) w
        else withdraws device_not_authorized e w

    unfoldable pub list_again :
        AuthEnvelope
        → A
        → ℕ
        → Result Error (List DeviceSummary) × State
        → World C L
        → Admission A C L
    list_again e a epoch (r, state) w =
        epoch_again e a epoch (epoch_of (codes e.device_id) r) (record w { state = state })

    unfoldable pub proved_again :
        AuthEnvelope → A → ℕ → Result Error Bool × State → World C L → Admission A C L
    proved_again e a epoch (err x, state) w =
        refuses runtime_unavailable (record w { state = state })
    proved_again e a epoch (ok false, state) w =
        withdraws device_not_authorized e (record w { state = state })
    proved_again e a epoch (ok true, state) w =
        list_again e a epoch (list_devices lib answers.second state) (record w { state = state })

    unfoldable pub keyed_again : AuthEnvelope → A → ℕ → Option Bytes → World C L → Admission A C L
    keyed_again e a epoch none w = refuses runtime_unavailable w
    keyed_again e a epoch (some key) w =
        proved_again e a epoch (is_authorized lib (codes e.device_id) key w.state) w

    -- The second proof, after the awaits.
    unfoldable pub prove_again : AuthEnvelope → A → ℕ → World C L → Admission A C L
    prove_again e a epoch w = keyed_again e a epoch (remote_key w.channel) w

    unfoldable pub has_lease : AuthEnvelope → ℕ → Result Refusal A × L → World C L → Admission A C L
    has_lease e epoch (err reason, l) w = refuses reason (record w { leases = l })
    has_lease e epoch (ok a, l) w =
        prove_again e a epoch (answers.awaited (record w { leases = l }))

    -- The lease that is there, unless it is of another epoch: then all of the device are released.
    unfoldable pub take_lease : AuthEnvelope → Bytes → ℕ → Option ℕ → World C L → Admission A C L
    take_lease e key epoch none w =
        has_lease e epoch (leases.ask (asked_for e none) e key epoch w.leases) w
    take_lease e key epoch (some was) w =
        if was == epoch
        then has_lease e epoch (leases.ask (asked_for e (some was)) e key epoch w.leases) w
        else has_lease e epoch
            (leases.ask (asked_for e none) e key epoch (leases.release_device e.device_id w.leases))
            w

    unfoldable pub with_epoch :
        AuthEnvelope → Bytes → Result Refusal ℕ → World C L → Admission A C L
    with_epoch e key (err reason) w = refuses reason w
    with_epoch e key (ok epoch) w =
        take_lease e key epoch (leases.get e.device_id e.lease_channel w.leases) w

    unfoldable pub listed :
        AuthEnvelope
        → Bytes
        → Result Error (List DeviceSummary) × State
        → World C L
        → Admission A C L
    listed e key (r, state) w =
        with_epoch e key (epoch_of (codes e.device_id) r) (record w { state = state })

    unfoldable pub permitted : AuthEnvelope → Bytes → Option Bool → World C L → Admission A C L
    permitted e key none w = refuses runtime_unavailable w
    permitted e key (some false) w = refuses profile_not_available w
    permitted e key (some true) w = listed e key (list_devices lib answers.first w.state) w

    unfoldable pub proved :
        AuthEnvelope → Bytes → Result Error Bool × State → World C L → Admission A C L
    proved e key (err x, state) w = refuses device_not_authorized (record w { state = state })
    proved e key (ok false, state) w = refuses device_not_authorized (record w { state = state })
    proved e key (ok true, state) w =
        permitted e key (answers.first_profile e.profile) (record w { state = state })

    -- The name is noted whatever that call answers.
    unfoldable pub noted : AuthEnvelope → Bytes → State → State
    noted e key state = note e.device_name
      where
        note : Option String → State
        note none = state
        note (some name) =
            (note_device_name lib answers.naming (codes e.device_id) key (codes name) state).1

    unfoldable pub keyed : AuthEnvelope → Option Bytes → World C L → Admission A C L
    keyed e none w = refuses device_not_authorized w
    keyed e (some key) w =
        proved e key (is_authorized lib (codes e.device_id) key (noted e key w.state)) w

    unfoldable pub parsed : Result Refusal AuthEnvelope → World C L → Admission A C L
    parsed (err reason) w = refuses reason w
    parsed (ok e) w = keyed e (remote_key w.channel) w

    unfoldable pub opened :
        (Bytes → Result Refusal AuthEnvelope) → Reply Bytes C → World C L → Admission A C L
    opened parse (err x, c) w = refuses device_not_authorized (record w { channel = c })
    opened parse (ok plaintext, c) w = parsed (parse plaintext) (record w { channel = c })

    -- `_open_controller_locked`, with the UTF-8 codec and the parser of the json module.
    unfoldable pub open_controller :
        Noise C
        → (Bytes → Option String)
        → (String → Option Json)
        → Bytes
        → World C L
        → Admission A C L
    open_controller noise decode loads ciphertext w =
        unless_claimed (require_unclaimed w.channel) w
          (opened (parse_controller_auth decode loads) (decrypt noise ciphertext w.channel) w)
