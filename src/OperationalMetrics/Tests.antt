-- ===== src/OperationalMetrics/Tests.antt =====
-- The counters at concrete inputs: the theorem applied, and runs of the code.
use mercury_relay_plugin.Prelude.{ℕ, ◌≡◌, refl, none, some, [], ◌∷◌, ok}
use mercury_relay_plugin.Authorization.{written, failed}
use mercury_relay_plugin.OperationalMetrics.{
  Metrics, Meter, total_pairings, object, missing, fields_of, fresh, open_metrics, load, encodes,
  save, open_fresh, open_loaded,
}
use mercury_relay_plugin.OperationalMetrics.Restart.{Sound, counts, perform_all, reopen-Sound}

abbrev small : Metrics → ℕ
small m = 200

abbrev first_run : Meter
first_run = record { value = fresh 7; file = object (fields_of (fresh 7)) }

first_run_opens : open_metrics small (some 7) written missing missing ≡ ok first_run
unfolding open_metrics load open_loaded open_fresh save encodes fresh
first_run_opens = refl

reopen-Sound_example : Sound (fresh 7) (
    perform_all small
      (counts (some 9) written (some total_pairings) 1
        ∷ counts none failed (some total_pairings) 2
        ∷ [])
      first_run)
reopen-Sound_example =
    reopen-Sound small (some 7) written missing missing first_run
      (counts (some 9) written (some total_pairings) 1
        ∷ counts none failed (some total_pairings) 2
        ∷ [])
      first_run_opens
