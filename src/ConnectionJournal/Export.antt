-- ===== src/ConnectionJournal/Export.antt =====
-- What the journal of connection_journal.py exports.
use mathlib.Core.List.{append_assoc, append-nil}
use mercury_relay_plugin.Prelude.{
  ℕ, ◌+◌, ◌-◌, ◌≤◌, ◌≡◌, sym, ap, ◌∙◌, List, [], ◌∷◌, ◌++◌, map, length, length-append, drop, All,
  arith, ok,
}
use mercury_relay_plugin.ConnectionJournal.{
  Calendar, Entry, default_memory_events, to_mapping, sanitize_connection_events, sanitize_all,
  keep_event, onto_deque,
}
use mercury_relay_plugin.ConnectionJournal.Safe.{IsSafe}
use mercury_relay_plugin.ConnectionJournal.Journal.{Settings, Journal, exported_events}
use mercury_relay_plugin.ConnectionJournal.Bounds.{IsBounded}
use mercury_relay_plugin.ConnectionJournal.Again.{sanitize_connection_event-to_mapping}

drop_none : {A : Type 0} (n k : ℕ) (xs : List A) → n ≤ k → drop (n - k) xs ≡ xs
drop_none n k xs h = ap (λ m. drop m xs) (none_over n k h)
  where
    none_over : (n k : ℕ) → n ≤ k → n - k ≡ 0
    none_over n k h = omega (arith, h)

sanitize_all-to_mapping :
    (calendar : Calendar) (result es : List Entry)
    → length result + length es ≤ default_memory_events
    → All (IsSafe calendar) es
    → sanitize_all calendar result (map to_mapping es) ≡ ok (result ++ es)
unfolding sanitize_all keep_event onto_deque
sanitize_all-to_mapping calendar result [] n h = ap ok (sym (append-nil result))
sanitize_all-to_mapping calendar result (e ∷ es) n (s, h) =
    rw
      (
        sanitize_connection_event-to_mapping calendar e s,
        drop_none (length result + 1) default_memory_events (result ++ e ∷ []) (omega (arith, n)),
      )
      (sanitize_all-to_mapping calendar (result ++ e ∷ []) es
          (omega (arith, n, length-append result (e ∷ []))) h
        ∙ ap ok (append_assoc result (e ∷ []) es))

-- A journal in its bounds that keeps at most 64 events exports exactly the events that it holds, in order.
pub exported_events_all :
    (settings : Settings) (j : Journal)
    → settings.memory_limit ≤ default_memory_events
    → IsBounded settings j
    → exported_events settings j ≡ ok j.events
unfolding exported_events sanitize_connection_events
exported_events_all settings j n i =
    rw (sanitize_all-to_mapping settings.calendar [] j.events (omega (arith, n, i.memory)) i.safe)
      (ap ok (drop_none (length j.events) settings.memory_limit j.events i.memory))
