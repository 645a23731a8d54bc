-- ===== src/OperationalMetrics.antt =====
-- src/mercury_relay_plugin/operational_metrics.py: the aggregate counters and the file they are kept in.
-- `json.dumps` and `json.loads` are not modelled: a file is the object that it decodes to.
pub mod Restart
mod Tests
use mercury_relay_plugin.Prelude.{
  ℕ, suc, ◌+◌, max, Bool, true, false, not, ◌&&◌, ◌||◌, Option, none, some, Result, ok, err, leb,
  ltb, ◌==◌, if◌then◌else◌,
}
use mercury_relay_plugin.Authorization.{Write, written, failed, replaced_then_failed}

pub data Error : Type 0 where
  invalid_operational_metrics operational_metrics_unavailable : Error

pub data Counter : Type 0 where
  total_pairings total_controller_opens total_reattachments : Counter

pub record Metrics : Type 0 where
  pub schema_version : ℕ
  pub started_at : ℕ
  pub updated_at : ℕ
  pub active_leases : ℕ
  pub registered_devices : ℕ
  pub pairings : ℕ
  pub controller_opens : ℕ
  pub reattachments : ℕ

-- One key of a decoded object: absent, not an integer or negative, or a number.
pub data Field : Type 0 where
  absent bad : Field
  number : ℕ → Field

-- A decoded object: the field of each known key, and whether there is any other key. The values `true`
-- and 1.0, which Python takes for a 1 when it looks for schema 1, are `bad` here.
pub record Fields : Type 0 where
  pub schema_version : Field
  pub started_at : Field
  pub updated_at : Field
  pub active_leases : Field
  pub registered_devices : Field
  pub pairings : Field
  pub controller_opens : Field
  pub reattachments : Field
  pub other_keys : Bool

-- A file: missing, not readable or not an object, or an object.
pub data File : Type 0 where
  missing broken : File
  object : Fields → File

abbrev pub max_metrics_bytes : ℕ
max_metrics_bytes = 4096

abbrev pub metrics_schema_version : ℕ
metrics_schema_version = 2

abbrev pub with_number : {A : Type 0} → Field → (ℕ → Option A) → Option A
with_number absent k = none
with_number bad k = none
with_number (number n) k = k n

-- The last two tests of `_validate`
unfoldable pub checked : Metrics → Option Metrics
checked m =
    if not (m.schema_version == metrics_schema_version)
    then none
    else if ltb m.updated_at m.started_at
    then none
    else some m

unfoldable pub read_fields : Fields → Option Metrics
unfolding checked
read_fields f = with_number f.schema_version λ schema_version.
    with_number f.started_at λ started_at. with_number f.updated_at λ updated_at.
      with_number f.active_leases λ active_leases.
        with_number f.registered_devices λ registered_devices. with_number f.pairings λ pairings.
          with_number f.controller_opens λ controller_opens.
            with_number f.reattachments λ reattachments. checked (record {
              schema_version = schema_version;
              started_at = started_at;
              updated_at = updated_at;
              active_leases = active_leases;
              registered_devices = registered_devices;
              pairings = pairings;
              controller_opens = controller_opens;
              reattachments = reattachments;
            })

-- `_validate`: every key is there with a number, and no other.
unfoldable pub validate : Fields → Option Metrics
unfolding read_fields
validate f = if f.other_keys then none else read_fields f

abbrev pub is_number : ℕ → Field → Bool
is_number n absent = false
is_number n bad = false
is_number n (number m) = m == n

abbrev pub is_absent : Field → Bool
is_absent absent = true
is_absent bad = false
is_absent (number m) = false

-- A file of schema 1 has no `registered_devices`, and is read with the number 0.
unfoldable pub migrate : Fields → Option Fields
migrate f =
    if is_number 1 f.schema_version
    then (if is_absent f.registered_devices
        then some (record f {
          schema_version = number metrics_schema_version;
          registered_devices = number 0;
        })
        else none)
    else some f

pub data Loaded : Type 0 where
  not_found : Loaded
  invalid : Loaded
  loaded : Metrics → Loaded

abbrev pub as_loaded : Option Metrics → Loaded
as_loaded none = invalid
as_loaded (some m) = loaded m

-- `_load`
unfoldable pub load : File → Loaded
unfolding migrate validate
load missing = not_found
load broken = invalid
load (object f) = elim (migrate f) [ none ↦ invalid | some g ↦ as_loaded (validate g) ]

-- What `_encode` writes, as the object that it decodes to.
unfoldable pub fields_of : Metrics → Fields
fields_of m = record {
  schema_version = number m.schema_version;
  started_at = number m.started_at;
  updated_at = number m.updated_at;
  active_leases = number m.active_leases;
  registered_devices = number m.registered_devices;
  pairings = number m.pairings;
  controller_opens = number m.controller_opens;
  reattachments = number m.reattachments;
  other_keys = false;
}

-- The object in memory and the file. `encoded_size` is the length of what `json.dumps` returns.
pub record Meter : Type 0 where
  pub value : Metrics
  pub file : File

-- `_encode`
unfoldable pub encodes : (Metrics → ℕ) → Metrics → Bool
unfolding validate fields_of
encodes encoded_size m = elim (validate (fields_of m)) [
  | none ↦ false
  | some v ↦ leb (encoded_size v) max_metrics_bytes
]

-- `_save`
unfoldable pub save : (Metrics → ℕ) → Write → Meter → Result Error (Unit {0}) × Meter
save encoded_size outcome s =
    if not (encodes encoded_size s.value)
    then (err invalid_operational_metrics, s)
    else elim outcome [
      | written ↦ (ok tt, record s { file = object (fields_of s.value) })
      | failed ↦ (err operational_metrics_unavailable, s)
      | replaced_then_failed ↦
          (err operational_metrics_unavailable, record s { file = object (fields_of s.value) })
    ]

unfoldable pub count : Option Counter → Metrics → Metrics
count none m = m
count (some total_pairings) m = record m { pairings = suc m.pairings }
count (some total_controller_opens) m = record m { controller_opens = suc m.controller_opens }
count (some total_reattachments) m = record m { reattachments = suc m.reattachments }

-- `updated_at` is set and the value saved; `none` is a clock that raises or is negative.
unfoldable pub touch : (Metrics → ℕ) → Option ℕ → Write → Meter → Result Error (Unit {0}) × Meter
touch encoded_size none outcome s = (err invalid_operational_metrics, s)
touch encoded_size (some now) outcome s =
    save encoded_size outcome
      (record s { value = record s.value { updated_at = max s.value.started_at now } })

-- `_record`, for a counter that exists
unfoldable pub record_counter :
    (Metrics → ℕ) → Option ℕ → Write → Option Counter → ℕ → Meter → Result Error (Unit {0}) × Meter
record_counter encoded_size clock outcome counter leases s =
    touch encoded_size clock outcome
      (record s { value = record (count counter s.value) { active_leases = leases } })

-- `update_registered_devices`
unfoldable pub update_registered_devices :
    (Metrics → ℕ) → Option ℕ → Write → ℕ → Meter → Result Error (Unit {0}) × Meter
update_registered_devices encoded_size clock outcome devices s =
    touch encoded_size clock outcome
      (record s { value = record s.value { registered_devices = devices } })

unfoldable pub fresh : ℕ → Metrics
fresh now = record {
  schema_version = metrics_schema_version;
  started_at = now;
  updated_at = now;
  active_leases = 0;
  registered_devices = 0;
  pairings = 0;
  controller_opens = 0;
  reattachments = 0;
}

-- An exception of `_save` leaves the constructor.
abbrev pub opened : Result Error (Unit {0}) × Meter → Result Error Meter
opened (ok done, s) = ok s
opened (err e, s) = err e

-- The constructor: the file, or the legacy file, or a fresh value; the last two are saved.
unfoldable pub open_fresh : (Metrics → ℕ) → Option ℕ → Write → File → Result Error Meter
open_fresh encoded_size none outcome file = err invalid_operational_metrics
open_fresh encoded_size (some now) outcome file =
    let s : Meter = record { value = fresh now; file = file } in
    opened (save encoded_size outcome s)

unfoldable pub open_legacy : (Metrics → ℕ) → Write → Metrics → File → Result Error Meter
open_legacy encoded_size outcome m file =
    let s : Meter = record { value = m; file = file } in opened (save encoded_size outcome s)

unfoldable pub open_loaded :
    (Metrics → ℕ) → Option ℕ → Write → File → Loaded → Loaded → Result Error Meter
open_loaded encoded_size clock outcome file (loaded m) legacy =
    ok (record { value = m; file = file })
open_loaded encoded_size clock outcome file invalid legacy = err invalid_operational_metrics
open_loaded encoded_size clock outcome file not_found (loaded m) =
    open_legacy encoded_size outcome m file
open_loaded encoded_size clock outcome file not_found invalid = err invalid_operational_metrics
open_loaded encoded_size clock outcome file not_found not_found =
    open_fresh encoded_size clock outcome file

unfoldable pub open_metrics : (Metrics → ℕ) → Option ℕ → Write → File → File → Result Error Meter
open_metrics encoded_size clock outcome file legacy =
    open_loaded encoded_size clock outcome file (load file) (load legacy)
