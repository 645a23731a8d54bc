-- ===== src/LeaseRecovery/Shown.antt =====
-- `snapshot` of lease_recovery.py: what a later connection is shown.
use Prim.Native.String.{String}
use text.Mathlib.TextEquality.{eq_iff}
use mercury_relay_plugin.Prelude.{
  All-drop, ℕ, ◌-◌, ◌≤◌, ◌≡◌, refl, ◌⊎◌, inl, inr, Bool, Bool-cases, true, false, ◌&&◌, some, List,
  [], ◌∷◌, length, length-drop, All, arith,
}
use mercury_relay_plugin.LeaseRecovery.{
  Scope, Row, Event, Store, Settings, is_terminal, lookup, assign, prune, shown, shown_rows,
  snapshot, scope_eq, max_snapshot_rows,
}
use mercury_relay_plugin.LeaseRecovery.Keys.{scope_eq→eq}
use mercury_relay_plugin.LeaseRecovery.Terminal.{IsIn}
use mercury_relay_plugin.LeaseRecovery.Revoked.{All-prune}

lookup-assign : (k v : String) (m : List (String × String)) → lookup k (assign k v m) ≡ some v
unfolding lookup assign
lookup-assign k v [] = ground (arith, (eq_iff k k).1 refl)
lookup-assign k v ((j, w) ∷ m) = ground (arith, lookup-assign k v m)

-- What is shown of an event: nothing live, and the child has ended or its state is not known.
abbrev pub IsStale : Event → Type 0
IsStale e =
    (e.recovery_binding.live ≡ false)
    × ((is_terminal e ≡ true) ⊎ (lookup "status" e.payload.texts ≡ some "unknown"))

All-map : (P Q : Row → Type 0) (rows : List Row) → ((r : Row) → P r → Q r) → All P rows → All Q rows
All-map P Q [] f h = tt
All-map P Q (r ∷ rows) f (h, rest) = (f r h, All-map P Q rows f rest)

IsIn-All : (rows : List Row) → All (λ r. IsIn r rows) rows
IsIn-All [] = tt
IsIn-All (x ∷ rows) = (
  inl refl,
  All-map (λ r. IsIn r rows) (λ r. IsIn r (x ∷ rows)) rows (λ r i. inr i) (IsIn-All rows),
)

module _ (settings : Settings) where
  shown-IsStale : (e : Event) → IsStale (shown settings e)
  unfolding shown is_terminal
  shown-IsStale e = elim (Bool-cases (is_terminal e)) [
    | inl ended ↦ rw ended (refl, inl ended)
    | inr runs ↦ rw runs (refl, inr (lookup-assign "status" "unknown" e.payload.texts))
  ]

  -- A row stands behind what is shown: one of the same scope and of a profile that is authorized.
  abbrev pub IsShown : Scope → (String → Bool) → List Row → Event → Type 0
  IsShown scope authorizer rows e =
      IsStale e
      × (r : Row) × IsIn r rows
      × (r.key.scope ≡ scope)
      × (authorizer r.key.profile ≡ true)
      × (e ≡ shown settings r.event)

  shown_rows-IsShown :
      (scope : Scope) (authorizer : String → Bool) (all rows : List Row)
      → All (λ r. IsIn r all) rows
      → All (IsShown scope authorizer all) (shown_rows settings scope authorizer rows)
  unfolding shown_rows
  shown_rows-IsShown scope authorizer all [] h = tt
  shown_rows-IsShown scope authorizer all (r ∷ rows) (h, rest) =
      elim (Bool-cases (scope_eq r.key.scope scope && authorizer r.key.profile)) [
        | inl e ↦ rw e (
          (
            shown-IsStale r.event,
            r,
            h,
            scope_eq→eq r.key.scope scope (ground (arith, e)),
            ground (arith, e),
            refl,
          ),
          shown_rows-IsShown scope authorizer all rows rest,
        )
        | inr e ↦ rw e (shown_rows-IsShown scope authorizer all rows rest)
      ]

  -- At most 64 events are shown; nothing in them is live, and of each child they say that it has ended or
  -- that its state is not known. Each is what is shown of a row of the scope that asks, and of a profile
  -- that the authorizer admits.
  pub snapshot-IsShown :
      (scope : Scope) (authorizer : String → Bool) (now : ℕ) (s : Store)
      → (length (snapshot settings scope authorizer now s).0.0 ≤ max_snapshot_rows)
        × All
            (IsShown scope authorizer s.memory.rows)
            (snapshot settings scope authorizer now s).0.0
  unfolding snapshot
  snapshot-IsShown scope authorizer now s =
      let result = shown_rows settings scope authorizer (prune settings now s.memory).rows in
      (
        omega (arith, length-drop (length result - max_snapshot_rows) result),
        All-drop (IsShown scope authorizer s.memory.rows) (length result - max_snapshot_rows) result
            (shown_rows-IsShown scope authorizer s.memory.rows (prune settings now s.memory).rows (
              All-prune settings (λ r. IsIn r s.memory.rows) now s.memory
                (IsIn-All s.memory.rows))),
      )
