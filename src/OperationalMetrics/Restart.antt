-- ===== src/OperationalMetrics/Restart.antt =====
-- The file of operational_metrics.py as a restart reads it.
use mercury_relay_plugin.Prelude.{
  subst, ℕ, Bool-cases, Option-cases, inl, inr, ◌≤◌, ◌≡◌, refl, arith, List, [], ◌∷◌, Option, none,
  some, Result, ok, max,
}
use mercury_relay_plugin.Authorization.{Write, written, failed, replaced_then_failed}
use mercury_relay_plugin.OperationalMetrics.{
  opened, open_loaded, with_number, Error, open_metrics, open_fresh, open_legacy, checked,
  read_fields, migrate, invalid, not_found, Fields, Field, absent, bad, number, missing, broken,
  fresh, Metrics, Counter, total_pairings, total_controller_opens, total_reattachments, File,
  object, Meter, Loaded, loaded, load, fields_of, validate, save, count, touch, record_counter,
  update_registered_devices, encodes,
}

pub record IsValid (m : Metrics) : Type 0 where
  pub schema : m.schema_version ≡ 2
  pub ordered : m.started_at ≤ m.updated_at

-- No total is smaller in the second, and both count from the same time.
pub record Grows (m n : Metrics) : Type 0 where
  pub started : n.started_at ≡ m.started_at
  pub pairings : m.pairings ≤ n.pairings
  pub controller_opens : m.controller_opens ≤ n.controller_opens
  pub reattachments : m.reattachments ≤ n.reattachments

Grows-trans : (l m n : Metrics) → Grows l m → Grows m n → Grows l n
Grows-trans l m n a b = ground (arith, a, b)

load-fields_of : (m : Metrics) → IsValid m → load (object (fields_of m)) ≡ loaded m
unfolding load fields_of
load-fields_of m v = ground (arith, v)

-- The file reloads to a valid value that has every count since `start` that was saved.
pub record Sound (start : Metrics) (s : Meter) : Type 0 where
  pub valid : IsValid s.value
  pub saved : Metrics
  pub file_is : load s.file ≡ loaded saved
  pub saved_valid : IsValid saved
  pub since : Grows start saved
  pub behind : Grows saved s.value

-- A call, with the clock and the outcome of the write.
pub data Call : Type 0 where
  counts : Option ℕ → Write → Option Counter → ℕ → Call
  updates_devices : Option ℕ → Write → ℕ → Call

unfoldable pub perform : (Metrics → ℕ) → Call → Meter → Result Error (Unit {0}) × Meter
perform encoded_size (counts clock outcome counter leases) s =
    record_counter encoded_size clock outcome counter leases s
perform encoded_size (updates_devices clock outcome devices) s =
    update_registered_devices encoded_size clock outcome devices s

unfoldable pub perform_all : (Metrics → ℕ) → List Call → Meter → Meter
perform_all encoded_size [] s = s
perform_all encoded_size (c ∷ calls) s = perform_all encoded_size calls (perform encoded_size c s).1

module _ (encoded_size : Metrics → ℕ) (start : Metrics) where
  -- A value that is saved becomes what the file reloads to.
  stored-Sound :
      (s : Meter) → Sound start s → Sound start (record s { file = object (fields_of s.value) })
  stored-Sound s h = record {
    valid = h.valid;
    saved = s.value;
    file_is = load-fields_of s.value h.valid;
    saved_valid = h.valid;
    since = Grows-trans start h.saved s.value h.since h.behind;
    behind = record {
      started = refl;
      pairings = omega arith;
      controller_opens = omega arith;
      reattachments = omega arith;
    };
  }

  save-Sound :
      (outcome : Write) (s : Meter) → Sound start s → Sound start (save encoded_size outcome s).1
  unfolding save
  save-Sound written s h = ground (arith, stored-Sound s h)
  save-Sound failed s h = ground (arith)
  save-Sound replaced_then_failed s h = ground (arith, stored-Sound s h)

  -- The value in memory may grow.
  grown-Sound :
      (s : Meter) (m : Metrics)
      → IsValid m
      → Grows s.value m
      → Sound start s
      → Sound start (record s { value = m })
  grown-Sound s m v g h = record {
    valid = v;
    saved = h.saved;
    file_is = h.file_is;
    saved_valid = h.saved_valid;
    since = h.since;
    behind = Grows-trans h.saved s.value m h.behind g;
  }

  touch-Sound :
      (clock : Option ℕ) (outcome : Write) (s : Meter)
      → Sound start s
      → Sound start (touch encoded_size clock outcome s).1
  unfolding touch
  touch-Sound none outcome s h = h
  touch-Sound (some now) outcome s h = save-Sound outcome _ (
      grown-Sound s (record s.value { updated_at = max s.value.started_at now })
        (record { schema = h.valid.schema; ordered = omega arith })
        (record {
          started = refl;
          pairings = omega arith;
          controller_opens = omega arith;
          reattachments = omega arith;
        })
        h)

  count-Grows :
      (counter : Option Counter) (m : Metrics) (leases : ℕ)
      → IsValid m
      → IsValid (record (count counter m) { active_leases = leases })
        × Grows m (record (count counter m) { active_leases = leases })
  unfolding count
  count-Grows none m leases v = ground (arith, v)
  count-Grows (some total_pairings) m leases v = ground (arith, v)
  count-Grows (some total_controller_opens) m leases v = ground (arith, v)
  count-Grows (some total_reattachments) m leases v = ground (arith, v)

  perform-Sound : (c : Call) (s : Meter) → Sound start s → Sound start (perform encoded_size c s).1
  unfolding perform record_counter update_registered_devices
  perform-Sound (counts clock outcome counter leases) s h =
      let (v, g) = count-Grows counter s.value leases h.valid in
      touch-Sound clock outcome _ (grown-Sound s _ v g h)
  perform-Sound (updates_devices clock outcome devices) s h = touch-Sound clock outcome _ (
      grown-Sound s (record s.value { registered_devices = devices })
        (record { schema = h.valid.schema; ordered = h.valid.ordered })
        (record {
          started = refl;
          pairings = omega arith;
          controller_opens = omega arith;
          reattachments = omega arith;
        })
        h)

checked-IsValid : (m n : Metrics) → checked m ≡ some n → IsValid n
unfolding checked
checked-IsValid m n e = ground arith

number_read :
    (fld : Field) (k : ℕ → Option Metrics) (m : Metrics)
    → with_number fld k ≡ some m
    → (n : ℕ) × (k n ≡ some m)
number_read absent k m e = ground (arith, e)
number_read bad k m e = ground (arith, e)
number_read (number n) k m e = (n, e)

read_fields-IsValid : (f : Fields) (m : Metrics) → read_fields f ≡ some m → IsValid m
unfolding read_fields
read_fields-IsValid f m e =
    let (v0, a) = number_read f.schema_version _ m e in
    let (v1, b) = number_read f.started_at _ m a in
    let (v2, c) = number_read f.updated_at _ m b in
    let (v3, d) = number_read f.active_leases _ m c in
    let (v4, g) = number_read f.registered_devices _ m d in
    let (v5, h) = number_read f.pairings _ m g in
    let (v6, i) = number_read f.controller_opens _ m h in
    let (v7, j) = number_read f.reattachments _ m i in
    checked-IsValid
      (record {
        schema_version = v0;
        started_at = v1;
        updated_at = v2;
        active_leases = v3;
        registered_devices = v4;
        pairings = v5;
        controller_opens = v6;
        reattachments = v7;
      })
      m j

validate-IsValid : (f : Fields) (m : Metrics) → validate f ≡ some m → IsValid m
unfolding validate
validate-IsValid f m e = elim (Bool-cases f.other_keys) [
  | inl other ↦ ground (arith, e, other)
  | inr known ↦ read_fields-IsValid f m (ground (arith, e, known))
]

load-IsValid : (file : File) (m : Metrics) → load file ≡ loaded m → IsValid m
unfolding load
load-IsValid missing m e = ground (arith, e)
load-IsValid broken m e = ground (arith, e)
load-IsValid (object f) m e = elim (Option-cases (migrate f)) [
  | inl old ↦ ground (arith, e, old)
  | inr (g, new) ↦ elim (Option-cases (validate g)) [
    | inl wrong ↦ ground (arith, e, new, wrong)
    | inr (n, is) ↦ ground (arith, e, new, is, validate-IsValid g n is)
  ]
]

-- A meter whose file was just loaded or saved is sound.
same-Sound :
    (m : Metrics) (file : File)
    → IsValid m
    → load file ≡ loaded m
    → Sound m (record { value = m; file = file })
same-Sound m file v e = record {
  valid = v;
  saved = m;
  file_is = e;
  saved_valid = v;
  since = record {
    started = refl;
    pairings = omega arith;
    controller_opens = omega arith;
    reattachments = omega arith;
  };
  behind = record {
    started = refl;
    pairings = omega arith;
    controller_opens = omega arith;
    reattachments = omega arith;
  };
}

save_new :
    (encoded_size : Metrics → ℕ) (outcome : Write) (m : Metrics) (file : File) (s : Meter)
    → IsValid m
    → opened (save encoded_size outcome (record { value = m; file = file })) ≡ ok s
    → Sound s.value s
unfolding save
save_new encoded_size written m file s v e = elim (Bool-cases (encodes encoded_size m)) [
  | inl fits ↦
      subst (λ t. Sound t.value t) (ground (arith, e, fits))
        (same-Sound m (object (fields_of m)) v (load-fields_of m v))
  | inr large ↦ ground (arith, e, large)
]
save_new encoded_size failed m file s v e = ground (arith, e)
save_new encoded_size replaced_then_failed m file s v e = ground (arith, e)

fresh-IsValid : (now : ℕ) → IsValid (fresh now)
unfolding fresh
fresh-IsValid now = record { schema = refl; ordered = omega arith }

open_fresh-Sound :
    (encoded_size : Metrics → ℕ) (clock : Option ℕ) (outcome : Write) (file : File) (s : Meter)
    → open_fresh encoded_size clock outcome file ≡ ok s
    → Sound s.value s
unfolding open_fresh
open_fresh-Sound encoded_size none outcome file s e = ground (arith, e)
open_fresh-Sound encoded_size (some now) outcome file s e =
    save_new encoded_size outcome (fresh now) file s (fresh-IsValid now) e

-- The three ways to open.
open_metrics-Sound :
    (encoded_size : Metrics → ℕ) (clock : Option ℕ) (outcome : Write) (file legacy : File)
    (s : Meter)
    → open_metrics encoded_size clock outcome file legacy ≡ ok s
    → Sound s.value s
unfolding open_metrics open_loaded open_legacy
open_metrics-Sound encoded_size clock outcome file legacy s e =
    from_file (load file) (load legacy) refl refl e
  where
    from_file :
        (l k : Loaded)
        → load file ≡ l
        → load legacy ≡ k
        → open_loaded encoded_size clock outcome file l k ≡ ok s
        → Sound s.value s
    from_file (loaded m) k p q r =
        subst (λ t. Sound t.value t) (ground (arith, r))
          (same-Sound m file (load-IsValid file m p) p)
    from_file invalid k p q r = ground (arith, r)
    from_file not_found (loaded m) p q r =
        save_new encoded_size outcome m file s (load-IsValid legacy m q) r
    from_file not_found invalid p q r = ground (arith, r)
    from_file not_found not_found p q r = open_fresh-Sound encoded_size clock outcome file s r

perform_all-Sound :
    (encoded_size : Metrics → ℕ) (start : Metrics) (calls : List Call) (s : Meter)
    → Sound start s
    → Sound start (perform_all encoded_size calls s)
unfolding perform_all
perform_all-Sound encoded_size start [] s h = h
perform_all-Sound encoded_size start (c ∷ calls) s h =
    perform_all-Sound encoded_size start calls (perform encoded_size c s).1
      (perform-Sound encoded_size start c s h)

-- After the counters were opened, from the file, the legacy file or anew, and any calls, whatever the
-- clock and the writes do: the file reloads to a valid value, whose totals are no smaller than those
-- that were opened and no larger than those in memory, which are valid too.
pub reopen-Sound :
    (encoded_size : Metrics → ℕ) (clock : Option ℕ) (outcome : Write) (file legacy : File)
    (s : Meter) (calls : List Call)
    → open_metrics encoded_size clock outcome file legacy ≡ ok s
    → Sound s.value (perform_all encoded_size calls s)
reopen-Sound encoded_size clock outcome file legacy s calls e =
    perform_all-Sound encoded_size s.value calls s
      (open_metrics-Sound encoded_size clock outcome file legacy s e)
