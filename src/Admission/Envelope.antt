-- ===== src/Admission/Envelope.antt =====
-- The envelopes that `_parse_controller_auth` of admission.py accepts.
use Prim.Native.String.{String}
use mercury_relay_plugin.Prelude.{
  ◌≤◌, ◌≡◌, refl, sym, ap, subst, ◌∙◌, ◌↔◌, true, ◌&&◌, Option, some, Bytes, length, leb, ok,
  or_fail, bind_returns, guard_returns, ok_injective, arith,
}
use mercury_relay_plugin.StrictJson.{Json, string, object, Fields, get, loads_strict}
use mercury_relay_plugin.StrictJson.Keys.{is_strict, loads_strict_iff}
use mercury_relay_plugin.MethodPolicy.{codes, only_fields, is_text, validate_profile_id}
use mercury_relay_plugin.MethodPolicy.Permitted.{is_text_iff, is_text-returns}
use mercury_relay_plugin.Admission.{
  invalid_auth_envelope, AuthEnvelope, envelope_fields, string_of, cursor_of, recovery_of,
  channel_of, name_of, object_of, parse_options, has_required, is_device_size, parse_fields,
  parse_controller_auth,
}
use mercury_relay_plugin.Admission.Values.{
  HasChannel, HasChannel-channel_of, HasCursor, HasCursor-cursor_of, HasName, HasName-name_of,
  HasRecovery, HasRecovery-recovery_of, channel_of-HasChannel, cursor_of-HasCursor, has_key-get,
  name_of-HasName, object_of-returns, or_fail-returns, recovery_of-HasRecovery, string_of-returns,
}

-- What the fields say of an envelope.
pub record HasFields (fields : Fields) (e : AuthEnvelope) : Type 0 where
  pub known : only_fields envelope_fields fields ≡ true
  pub is_open : get "type" fields ≡ some (string "controller.open")
  pub device : get "device_id" fields ≡ some (string e.device_id)
  pub device_size : (1 ≤ length (codes e.device_id)) × (length (codes e.device_id) ≤ 128)
  pub profile : get "profile" fields ≡ some (string e.profile)
  pub profile_fits : validate_profile_id e.profile ≡ true
  pub cursor : HasCursor (get "resume_cursor" fields) e.resume_cursor
  pub recovery : HasRecovery (get "recovery_version" fields) e.recovers
  pub channel : HasChannel (get "channel" fields) e.lease_channel
  pub name : HasName (get "device_name" fields) e.device_name

record HasOptions (d p : String) (fields : Fields) (e : AuthEnvelope) : Type 0 where
  device : d ≡ e.device_id
  profile : p ≡ e.profile
  cursor : HasCursor (get "resume_cursor" fields) e.resume_cursor
  recovery : HasRecovery (get "recovery_version" fields) e.recovers
  channel : HasChannel (get "channel" fields) e.lease_channel
  name : HasName (get "device_name" fields) e.device_name

parse_options-HasOptions :
    (d p : String) (fs : Fields) (e : AuthEnvelope)
    → parse_options d p fs ≡ ok e
    → HasOptions d p fs e
unfolding parse_options
parse_options-HasOptions d p fs e h =
    let (c, cursor, h1) = bind_returns (cursor_of (get "resume_cursor" fs)) _ h in
    let (r, recovery, h2) = bind_returns (recovery_of (get "recovery_version" fs)) _ h1 in
    let (l, channel, h3) = bind_returns (channel_of (get "channel" fs)) _ h2 in
    let (n, name, h4) = bind_returns (name_of (get "device_name" fs)) _ h3 in
    subst (HasOptions d p fs) (ok_injective h4) (record {
      device = refl;
      profile = refl;
      cursor = cursor_of-HasCursor _ c cursor;
      recovery = recovery_of-HasRecovery _ r recovery;
      channel = channel_of-HasChannel _ l channel;
      name = name_of-HasName _ n name;
    })

parse_fields-HasFields : (fs : Fields) (e : AuthEnvelope) → parse_fields fs ≡ ok e → HasFields fs e
unfolding parse_fields is_device_size
parse_fields-HasFields fs e h =
    let (required, h4) = guard_returns (has_required fs) _ _ h in
    let (known, h5) = guard_returns (only_fields envelope_fields fs) _ _ h4 in
    let (type, h6) = guard_returns (is_text "controller.open" (get "type" fs)) _ _ h5 in
    let (d, device, h7) =
      bind_returns (or_fail (string_of (get "device_id" fs)) invalid_auth_envelope) _ h6 in
    let (size, h8) = guard_returns (is_device_size (length (codes d))) _ _ h7 in
    let (p, profile, h9) =
      bind_returns (or_fail (string_of (get "profile" fs)) invalid_auth_envelope) _ h8 in
    let (fits, h10) = guard_returns (validate_profile_id p) _ _ h9 in
    let o = parse_options-HasOptions d p fs e h10 in
    record {
      known = known;
      is_open = is_text-returns "controller.open" _ type;
      device =
          string_of-returns _ d (or_fail-returns _ _ d device) ∙ ap (λ s. some (string s)) o.device;
      device_size =
          subst (λ s. (1 ≤ length (codes s)) × (length (codes s) ≤ 128)) o.device
            (ground (arith, size), ground (arith, size));
      profile =
          string_of-returns _ p (or_fail-returns _ _ p profile)
          ∙ ap (λ s. some (string s)) o.profile;
      profile_fits = ap validate_profile_id (sym o.profile) ∙ fits;
      cursor = o.cursor;
      recovery = o.recovery;
      channel = o.channel;
      name = o.name;
    }

HasFields-parse_fields : (fs : Fields) (e : AuthEnvelope) → HasFields fs e → parse_fields fs ≡ ok e
unfolding parse_fields parse_options has_required string_of is_device_size
HasFields-parse_fields fs e h =
    let is_open : is_text "controller.open" (get "type" fs) ≡ true =
      (is_text_iff "controller.open" _).1 h.is_open in
    let (least, most) = h.device_size in
    let fits : (leb 1 (length (codes e.device_id)) && leb (length (codes e.device_id)) 128) ≡ true =
      ground (arith, least, most) in
    rw
      (
        has_key-get "type" fs _ h.is_open,
        has_key-get "device_id" fs _ h.device,
        has_key-get "profile" fs _ h.profile,
        h.known,
        is_open,
        h.device,
        fits,
        h.profile,
        h.profile_fits,
        HasCursor-cursor_of _ _ h.cursor,
        HasRecovery-recovery_of _ _ h.recovery,
        HasChannel-channel_of _ _ h.channel,
        HasName-name_of _ _ h.name,
      )
      refl

module _ (decode : Bytes → Option String) (loads : String → Option Json) where
  -- An envelope that is returned is what the bytes say.
  pub record IsEnvelope (plaintext : Bytes) (e : AuthEnvelope) : Type 0 where
    pub short : length plaintext ≤ 512
    pub text : String
    pub decoded : decode plaintext ≡ some text
    pub fields : Fields
    pub loaded : loads text ≡ some (object fields)
    pub strict : is_strict (object fields) ≡ true
    pub says : HasFields fields e

  parse_controller_auth-IsEnvelope :
      (plaintext : Bytes) (e : AuthEnvelope)
      → parse_controller_auth decode loads plaintext ≡ ok e
      → IsEnvelope plaintext e
  unfolding parse_controller_auth
  parse_controller_auth-IsEnvelope plaintext e h =
      let (short, h1) = guard_returns (leb (length plaintext) 512) _ _ h in
      let (text, t, h2) = bind_returns (or_fail (decode plaintext) invalid_auth_envelope) _ h1 in
      let (fs, f, h3) = bind_returns (object_of (loads_strict loads text)) _ h2 in
      let (tree, strict) = (loads_strict_iff loads text (object fs)).0 (object_of-returns _ fs f) in
      record {
        short = ground (arith, short);
        text = text;
        decoded = or_fail-returns (decode plaintext) _ text t;
        fields = fs;
        loaded = tree;
        strict = strict;
        says = parse_fields-HasFields fs e h3;
      }

  IsEnvelope-parse_controller_auth :
      (plaintext : Bytes) (e : AuthEnvelope)
      → IsEnvelope plaintext e
      → parse_controller_auth decode loads plaintext ≡ ok e
  unfolding parse_controller_auth object_of
  IsEnvelope-parse_controller_auth plaintext e h =
      let size : leb (length plaintext) 512 ≡ true = ground (arith, h.short) in
      rw
        (
          size,
          h.decoded,
          (loads_strict_iff loads h.text (object h.fields)).1 (h.loaded, h.strict),
          HasFields-parse_fields h.fields e h.says,
        )
        refl

  -- `_parse_controller_auth` returns an envelope exactly if the bytes are at most 512 and decode to strict JSON, an
  -- object with known fields only, of type controller.open, with a device identifier of 1 to 128
  -- characters and a valid profile, and each other field is absent, with its default, or has a value that
  -- fits and is the envelope's.
  pub parse_controller_auth_iff :
      (plaintext : Bytes) (e : AuthEnvelope)
      → (parse_controller_auth decode loads plaintext ≡ ok e) ↔ IsEnvelope plaintext e
  parse_controller_auth_iff plaintext e =
      (parse_controller_auth-IsEnvelope plaintext e, IsEnvelope-parse_controller_auth plaintext e)
