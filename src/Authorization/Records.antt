-- ===== src/Authorization/Records.antt =====
-- The authorization state of src/mercury_relay_plugin/authorization.py and `_validate_auth_state`.
-- The JSON object is a record: a text that has to be the canonical base64 of 32 bytes stands as those
-- bytes, and the sets of statuses are data types, so what remains of a test is the length.
use mercury_relay_plugin.Prelude.{
  ℕ, ◌+◌, ◌-◌, ◌^◌, ◌%◌, ◌++◌, replicate, Bool, true, false, not, ◌&&◌, ◌||◌, Option, none, some,
  List, [], ◌∷◌, Bytes, bytes_eq, length, ltb, leb, ◌==◌, if◌then◌else◌,
}

-- Text is the list of its code points.
abbrev pub Text : Type 0
Text = Bytes

abbrev pub raw_bytes : ℕ
raw_bytes = 32

abbrev max_b64_text : ℕ
max_b64_text = 128

abbrev pub max_ttl_seconds : ℕ
max_ttl_seconds = 600

abbrev pub max_device_records : ℕ
max_device_records = 16

abbrev pub max_revoked_key_digests : ℕ
max_revoked_key_digests = 512

abbrev pub max_active_devices : ℕ
max_active_devices = 5

abbrev pub max_device_id_text : ℕ
max_device_id_text = 128

abbrev pub max_device_name_chars : ℕ
max_device_name_chars = 64

pub data Status : Type 0 where
  pending authorized revoked denied : Status

pub data OfferStatus : Type 0 where
  active expired consumed : OfferStatus

pub record Device : Type 0 where
  pub device_id : Text
  pub device_public_key : Bytes
  pub channel_binding_digest : Bytes
  pub status : Status
  pub created_at : ℕ
  pub updated_at : ℕ
  pub epoch : ℕ
  pub capabilities : List Text
  pub device_name : Option Text
  pub label : Option Text

pub record Offer : Type 0 where
  pub offer_id : Text
  pub capability_digest : Bytes
  pub installation_id : Bytes
  pub host_public_key : Bytes
  pub created_at : ℕ
  pub expires_at : ℕ
  pub status : OfferStatus
  pub consumed_at : ℕ

-- `none` where the key is absent from the object.
pub record State : Type 0 where
  pub schema_version : ℕ
  pub revoked_key_digests : Option (List Bytes)
  pub devices : List Device
  pub pairing_offer : Option Offer

abbrev pub client : Text
client = b'c' ∷ b'l' ∷ b'i' ∷ b'e' ∷ b'n' ∷ b't' ∷ []

-- `state.get("revoked_key_digests", [])`
abbrev pub evidence_of : State → List Bytes
evidence_of s = elim s.revoked_key_digests [ none ↦ [] | some ds ↦ ds ]

unfoldable pub contains : Bytes → List Bytes → Bool
contains x [] = false
contains x (y ∷ ys) = bytes_eq x y || contains x ys

abbrev pub is_pending : Status → Bool
is_pending pending = true
is_pending _ = false

abbrev pub is_authorized_status : Status → Bool
is_authorized_status authorized = true
is_authorized_status _ = false

abbrev pub is_revoked : Status → Bool
is_revoked revoked = true
is_revoked _ = false

abbrev pub is_denied : Status → Bool
is_denied denied = true
is_denied _ = false

-- `status in {"pending", "authorized"}`
abbrev pub is_active : Status → Bool
is_active pending = true
is_active authorized = true
is_active _ = false

unfoldable pub active_count : List Device → ℕ
active_count [] = 0
active_count (d ∷ ds) = (if is_active d.status then 1 else 0) + active_count ds

unfoldable pub texts_eq : List Text → List Text → Bool
texts_eq [] [] = true
texts_eq (x ∷ xs) (y ∷ ys) = bytes_eq x y && texts_eq xs ys
texts_eq _ _ = false

-- `_validate_int`, of an integer that is not negative.
abbrev pub valid_int : ℕ → Bool
valid_int n = leb n (2 ^ 63 - 1)

abbrev pub expected_capabilities : Status → List Text
expected_capabilities authorized = client ∷ []
expected_capabilities _ = []

-- What the code takes from the library of Python: base64 (the encoder with its padding stripped),
-- SHA-256 and the white space of `str.split`.
pub record Library : Type 0 where
  pub urlsafe_b64decode : Text → Option Bytes
  pub b64url_encode : Bytes → Text
  pub sha256 : Bytes → Bytes
  pub is_space : ℕ → Bool

unfoldable pub all_below : ℕ → Text → Bool
all_below n [] = true
all_below n (c ∷ cs) = ltb c n && all_below n cs

unfoldable pub any_control : Text → Bool
any_control [] = false
any_control (c ∷ cs) = (ltb c 0x20 || (c == 0x7F)) || any_control cs

-- The words of `" ".join(value.split())`: `word` is the word at hand, and `out` the text so far.
abbrev flush : Text → Text → Text
flush out [] = out
flush [] word = word
flush out word = out ++ (b' ' ∷ word)

unfoldable pub collapse_spaces : (ℕ → Bool) → Text → Text → Text → Text
collapse_spaces is_space out word [] = flush out word
collapse_spaces is_space out word (c ∷ cs) =
    collapse_spaces is_space (if is_space c then flush out word else out)
      (if is_space c then [] else word ++ c ∷ []) cs

-- `"=" * (-n % 4)`
abbrev padding : ℕ → Text
padding n = replicate ((4 - n % 4) % 4) b'='

module _ (lib : Library) where
  -- `_b64url_decode_exact(value, size)`: whether it returns.
  unfoldable pub b64url_exact : ℕ → Text → Bool
  unfolding all_below
  b64url_exact size value =
      if (length value == 0) || (ltb max_b64_text (length value) || not (all_below 128 value))
      then false
      else elim (lib.urlsafe_b64decode (value ++ padding (length value))) [
        | none ↦ false
        | some decoded ↦ (length decoded == size) && bytes_eq (lib.b64url_encode decoded) value
      ]

  -- `_clean_device_text`
  unfoldable pub clean_device_text : Text → Option Text
  unfolding collapse_spaces any_control
  clean_device_text value =
      let cleaned = collapse_spaces lib.is_space [] [] value in
      if (length cleaned == 0) || ltb max_device_name_chars (length cleaned)
      then none
      else if any_control cleaned
      then none
      else some cleaned

  abbrev clean_or_empty : Option Text → Bool
  clean_or_empty none = true
  clean_or_empty (some t) = elim (clean_device_text t) [
    | none ↦ bytes_eq t []
    | some c ↦ bytes_eq t [] || bytes_eq c t
  ]

  -- The tests on one record of `devices`.
  unfoldable pub valid_device : Device → Bool
  unfolding texts_eq b64url_exact clean_device_text
  valid_device d =
      clean_or_empty d.device_name
      && (clean_or_empty d.label
          && (ltb 0 (length d.device_id)
              && (leb (length d.device_id) max_device_id_text
                  && (b64url_exact 16 d.device_id
                      && ((length d.device_public_key == raw_bytes)
                          && ((length d.channel_binding_digest == raw_bytes)
                              && (valid_int d.created_at
                                  && (valid_int d.updated_at
                                      && (leb d.created_at d.updated_at
                                          && (leb d.epoch (2 ^ 31 - 1)
                                              && texts_eq d.capabilities
                                                  (expected_capabilities d.status)))))))))))

  -- The loop over `devices`: `identifiers` are the ids seen so far.
  unfoldable pub valid_devices : List Text → List Device → Bool
  unfolding valid_device contains
  valid_devices identifiers [] = true
  valid_devices identifiers (d ∷ ds) =
      let rest = valid_devices (d.device_id ∷ identifiers) ds in
      valid_device d && (not (contains d.device_id identifiers) && rest)

  -- The loop over the evidence.
  unfoldable pub valid_evidence : List Bytes → List Bytes → Bool
  unfolding contains
  valid_evidence seen [] = true
  valid_evidence seen (x ∷ xs) =
      let rest = valid_evidence (x ∷ seen) xs in
      (length x == raw_bytes) && (not (contains x seen) && rest)

  abbrev pub consumed_at_ok : Offer → Bool
  consumed_at_ok o = elim o.status [ consumed ↦ not (o.consumed_at == 0) | _ ↦ o.consumed_at == 0 ]

  unfoldable pub valid_offer : Option Offer → Bool
  unfolding b64url_exact
  valid_offer none = true
  valid_offer (some o) =
      b64url_exact 16 o.offer_id
      && ((length o.capability_digest == raw_bytes)
          && ((length o.installation_id == raw_bytes)
              && ((length o.host_public_key == raw_bytes)
                  && (valid_int o.created_at
                      && (valid_int o.expires_at
                          && (valid_int o.consumed_at
                              && (ltb o.created_at o.expires_at
                                  && (leb (o.expires_at - o.created_at) max_ttl_seconds
                                      && consumed_at_ok o))))))))

  -- Schema 1 has no evidence and schema 2 has some.
  abbrev schema_ok : State → Bool
  schema_ok s = elim s.revoked_key_digests [
    | none ↦ s.schema_version == 1
    | some ds ↦ s.schema_version == 2
  ]

  -- `_validate_auth_state`: whether it returns without an exception.
  unfoldable pub validate_auth_state : State → Bool
  unfolding valid_devices valid_evidence valid_offer active_count
  validate_auth_state s =
      schema_ok s
      && (leb (length (evidence_of s)) max_revoked_key_digests
          && (valid_evidence [] (evidence_of s)
              && (leb (length s.devices) max_device_records
                  && (valid_devices [] s.devices
                      && (leb (active_count s.devices) max_active_devices
                          && valid_offer s.pairing_offer)))))
