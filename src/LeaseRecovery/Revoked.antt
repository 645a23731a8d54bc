-- ===== src/LeaseRecovery/Revoked.antt =====
-- `revoke` and `snapshot` of lease_recovery.py: which rows stay, and which are shown.
use Prim.Native.String.{String}
use Prim.Native.String as Text
use text.Mathlib.Text as Compare
use text.Mathlib.Text.{starts_with}
use text.Mathlib.TextEquality.{eq_iff}
use mercury_relay_plugin.Prelude.{
  All-drop, ℕ, ◌≡◌, ◌≢◌, refl, sym, subst, ◌⊎◌, inl, inr, Bool, Bool-cases, true, false, not, List,
  [], ◌∷◌, ltb, All, arith, ok, err,
}
use mercury_relay_plugin.LeaseRecovery.{
  Row, File, Store, Settings, Write, writes, fails, fails_after, write_failed, filter, is_of_device,
  shrink, prune, fitted, write, save, revoke, max_store_bytes,
}
use mercury_relay_plugin.LeaseRecovery.Bounds.{All-filter}

module _ (settings : Settings) where
  All-shrink :
      (P : Row → Type 0) (size : File → ℕ) (revision : ℕ) (truncated : Bool) (rows : List Row)
      → All P rows
      → All P (shrink size revision truncated rows).rows
  unfolding shrink
  All-shrink P size revision truncated [] h = tt
  All-shrink P size revision truncated (r ∷ rows) (h, rest) =
      elim (Bool-cases (
        ltb max_store_bytes
          (size (record { rows = r ∷ rows; revision = revision; truncated = truncated })))) [
            | inl e ↦ rw e (All-shrink P size revision true rows rest)
            | inr e ↦ rw e (h, rest)
          ]

  pub All-prune :
      (P : Row → Type 0) (now : ℕ) (f : File) → All P f.rows → All P (prune settings now f).rows
  unfolding prune
  All-prune P now f h = All-drop P _ _ (All-filter P (λ r. ltb now r.expires_at) f.rows h)

  All-fitted :
      (P : Row → Type 0) (now : ℕ) (f : File) → All P f.rows → All P (fitted settings now f).rows
  unfolding fitted
  All-fitted P now f h = All-shrink P settings.encoded_size _ _ _ (All-prune P now f h)

  -- The row is of another installation, or of a device that has neither the name nor its channels.
  abbrev pub IsOther : String → String → Row → Type 0
  IsOther installation device r =
      (r.key.scope.installation ≢ installation)
      ⊎ ((r.key.scope.device ≢ device)
          × (starts_with r.key.scope.device (Text.◌++◌ device "/") ≡ false))

  is_of_device-IsOther :
      (installation device : String) (r : Row)
      → is_of_device settings installation device r ≡ false
      → IsOther installation device r
  unfolding is_of_device
  is_of_device-IsOther installation device r e =
      elim (Bool-cases (Compare.◌==◌ r.key.scope.installation installation)) [
        | inl here ↦ inr (
          (λ d. absurd (ground (arith, e, here, (eq_iff r.key.scope.device device).1 d))),
          ground (arith, e, here),
        )
        | inr elsewhere ↦ inl λ same.
            absurd
              (ground (arith, elsewhere, (eq_iff r.key.scope.installation installation).1 same))
      ]

  filter-IsOther :
      (installation device : String) (rows : List Row)
      → All
          (IsOther installation device)
          (filter (λ r. not (is_of_device settings installation device r)) rows)
  unfolding filter
  filter-IsOther installation device [] = tt
  filter-IsOther installation device (r ∷ rows) =
      elim (Bool-cases (is_of_device settings installation device r)) [
        | inl e ↦ rw e (filter-IsOther installation device rows)
        | inr e ↦
            rw e (
              is_of_device-IsOther installation device r e,
              filter-IsOther installation device rows,
            )
      ]

  write_cases :
      (outcome : Write) (disk f : File)
      → (((write settings outcome disk f).0 ≡ ok tt) × ((write settings outcome disk f).1.disk ≡ f))
        ⊎ ((write settings outcome disk f).0 ≡ err write_failed)
  unfolding write
  write_cases writes disk f = inl (refl, refl)
  write_cases fails disk f = inr refl
  write_cases fails_after disk f = inr refl

  in_memory : (outcome : Write) (disk f : File) → (write settings outcome disk f).1.memory ≡ f
  unfolding write
  in_memory writes disk f = refl
  in_memory fails disk f = refl
  in_memory fails_after disk f = refl

  -- After a device was revoked, whether the call returned or raised, no row in memory is of that device or
  -- of one of its channels; and unless it raised, none on disk is.
  pub revoke-IsOther :
      (installation device : String) (now : ℕ) (outcome : Write) (s : Store)
      → All
          (IsOther installation device)
          (revoke settings installation device now outcome s).1.memory.rows
        × ((((revoke settings installation device now outcome s).0 ≡ ok tt)
              × All
                  (IsOther installation device)
                  (revoke settings installation device now outcome s).1.disk.rows)
            ⊎ ((revoke settings installation device now outcome s).0 ≡ err write_failed))
  unfolding revoke save
  revoke-IsOther installation device now outcome s =
      let kept : File = record s.memory {
        rows = filter (λ r. not (is_of_device settings installation device r)) s.memory.rows;
      } in
      let others =
        All-fitted (IsOther installation device) now kept
          (filter-IsOther installation device s.memory.rows) in
      (
        subst (λ f. All (IsOther installation device) f.rows)
            (sym (in_memory outcome s.disk (fitted settings now kept))) others,
        elim (write_cases outcome s.disk (fitted settings now kept)) [
          | inl (e, disk) ↦
              inl (e, subst (λ f. All (IsOther installation device) f.rows) (sym disk) others)
          | inr e ↦ inr e
        ],
      )
