-- ===== src/LeaseRecovery/Bounds.antt =====
-- The rows that the store of lease_recovery.py holds and has written.
use Prim.Native.String.{String}
use mercury_relay_plugin.Prelude.{
  All-last, ℕ, zero, suc, ◌-◌, ◌≤◌, ◌<◌, ◌≡◌, refl, ◌⊎◌, inl, inr, Bool, Bool-cases, true, false,
  not, Option, none, some, List, [], ◌∷◌, ◌++◌, ltb, length, drop, All, arith, Result, ok, err,
}
use mercury_relay_plugin.LeaseRecovery.{
  Scope, Key, Row, Event, File, Store, Settings, Write, writes, fails, fails_after, StoreError,
  filter, key_eq, is_terminal, max_store_bytes, shrink, prune, fitted, write, save, added, restore,
  Moments, put_new, put_over, put, revoke, snapshot,
}
use mercury_relay_plugin.LeaseRecovery.Keys.{key_eq_sym, length-newest}

-- Revisions rise along the rows, from above the first number to at most the second.
abbrev pub IsOrdered : ℕ → List Row → ℕ → Type 0
IsOrdered low [] high = low ≤ high
IsOrdered low (r ∷ rows) high =
    (low < r.event.recovery_revision) × IsOrdered r.event.recovery_revision rows high

-- No two rows have one key.
abbrev pub IsDistinct : List Row → Type 0
IsDistinct [] = Unit {0}
IsDistinct (r ∷ rows) = All (λ x. key_eq x.key r.key ≡ false) rows × IsDistinct rows

-- The rows of a file that is in order, apart from their number.
abbrev pub IsInOrder : File → Type 0
IsInOrder f = IsOrdered 0 f.rows f.revision × IsDistinct f.rows

module _ (settings : Settings) where
  -- At most `max_rows` rows, one for each key, with rising revisions.
  pub record IsFile (f : File) : Type 0 where
    pub bounded : length f.rows ≤ settings.max_rows
    pub in_order : IsInOrder f

  -- What is on disk is also short enough, or holds no row.
  pub record IsStore (s : Store) : Type 0 where
    pub memory : IsFile s.memory
    pub disk : IsFile s.disk
    pub fits : (settings.encoded_size s.disk ≤ max_store_bytes) ⊎ (s.disk.rows ≡ [])

IsOrdered-weaken :
    (low low' high : ℕ) (rows : List Row)
    → low' ≤ low
    → IsOrdered low rows high
    → IsOrdered low' rows high
IsOrdered-weaken low low' high [] p o = omega (arith, p, o)
IsOrdered-weaken low low' high (r ∷ rows) p (o, rest) = (omega (arith, p, o), rest)

IsOrdered-drop :
    (n low high : ℕ) (rows : List Row) → IsOrdered low rows high → IsOrdered low (drop n rows) high
IsOrdered-drop zero low high rows o = o
IsOrdered-drop (suc n) low high [] o = o
IsOrdered-drop (suc n) low high (r ∷ rows) (o, rest) =
    IsOrdered-drop n low high rows
      (IsOrdered-weaken r.event.recovery_revision low high rows (omega (arith, o)) rest)

IsOrdered-filter :
    (test : Row → Bool) (low high : ℕ) (rows : List Row)
    → IsOrdered low rows high
    → IsOrdered low (filter test rows) high
unfolding filter
IsOrdered-filter test low high [] o = o
IsOrdered-filter test low high (r ∷ rows) (o, rest) = elim (Bool-cases (test r)) [
  | inl e ↦ rw e (o, IsOrdered-filter test r.event.recovery_revision high rows rest)
  | inr e ↦ rw e (
      IsOrdered-filter test low high rows
        (IsOrdered-weaken r.event.recovery_revision low high rows (omega (arith, o)) rest))
]

IsOrdered-add :
    (low high : ℕ) (rows : List Row) (new : Row)
    → new.event.recovery_revision ≡ suc high
    → IsOrdered low rows high
    → IsOrdered low (rows ++ new ∷ []) (suc high)
IsOrdered-add low high [] new e o = (omega (arith, e, o), omega (arith, e))
IsOrdered-add low high (r ∷ rows) new e (o, rest) =
    (o, IsOrdered-add r.event.recovery_revision high rows new e rest)

pub All-filter :
    (P : Row → Type 0) (test : Row → Bool) (rows : List Row) → All P rows → All P (filter test rows)
unfolding filter
All-filter P test [] h = h
All-filter P test (r ∷ rows) (h, rest) = elim (Bool-cases (test r)) [
  | inl e ↦ rw e (h, All-filter P test rows rest)
  | inr e ↦ rw e (All-filter P test rows rest)
]

IsDistinct-drop : (n : ℕ) (rows : List Row) → IsDistinct rows → IsDistinct (drop n rows)
IsDistinct-drop zero rows h = h
IsDistinct-drop (suc n) [] h = h
IsDistinct-drop (suc n) (r ∷ rows) (h, rest) = IsDistinct-drop n rows rest

IsDistinct-filter :
    (test : Row → Bool) (rows : List Row) → IsDistinct rows → IsDistinct (filter test rows)
unfolding filter
IsDistinct-filter test [] h = h
IsDistinct-filter test (r ∷ rows) (h, rest) = elim (Bool-cases (test r)) [
  | inl e ↦
      rw e
        (All-filter (λ x. key_eq x.key r.key ≡ false) test rows h, IsDistinct-filter test rows rest)
  | inr e ↦ rw e (IsDistinct-filter test rows rest)
]

IsDistinct-add :
    (rows : List Row) (new : Row)
    → All (λ x. key_eq x.key new.key ≡ false) rows
    → IsDistinct rows
    → IsDistinct (rows ++ new ∷ [])
IsDistinct-add [] new a h = (a, h)
IsDistinct-add (r ∷ rows) new (a, others) (h, rest) = (
  All-last (λ x. key_eq x.key r.key ≡ false) rows new h (key_eq_sym r.key new.key a),
  IsDistinct-add rows new others rest,
)

filter-other :
    (key : Key) (rows : List Row)
    → All (λ x. key_eq x.key key ≡ false) (filter (λ r. not (key_eq r.key key)) rows)
unfolding filter
filter-other key [] = tt
filter-other key (r ∷ rows) = elim (Bool-cases (key_eq r.key key)) [
  | inl e ↦ rw e (filter-other key rows)
  | inr e ↦ rw e (e, filter-other key rows)
]

module _ (settings : Settings) where
  prune-IsInOrder : (now : ℕ) (f : File) → IsInOrder f → IsInOrder (prune settings now f)
  unfolding prune
  prune-IsInOrder now f (o, d) =
      let kept = filter (λ r. ltb now r.expires_at) f.rows in
      (
        IsOrdered-drop (length kept - settings.max_rows) 0 f.revision kept
            (IsOrdered-filter _ 0 f.revision f.rows o),
        IsDistinct-drop (length kept - settings.max_rows) kept (IsDistinct-filter _ f.rows d),
      )

  pub prune-IsFile : (now : ℕ) (f : File) → IsInOrder f → IsFile settings (prune settings now f)
  unfolding prune
  prune-IsFile now f h = record {
    bounded = length-newest settings.max_rows (filter (λ r. ltb now r.expires_at) f.rows);
    in_order = prune-IsInOrder now f h;
  }

  shrink-IsFile :
      (size : File → ℕ) (revision : ℕ) (truncated : Bool) (rows : List Row)
      → length rows ≤ settings.max_rows
      → IsOrdered 0 rows revision
      → IsDistinct rows
      → IsFile settings (shrink size revision truncated rows)
  unfolding shrink
  shrink-IsFile size revision truncated [] n o d = record { bounded = n; in_order = (o, d) }
  shrink-IsFile size revision truncated (r ∷ rows) n (o, rest) (a, d) =
      elim (Bool-cases (
        ltb max_store_bytes
          (size (record { rows = r ∷ rows; revision = revision; truncated = truncated })))) [
            | inl e ↦ rw e (
                shrink-IsFile size revision true rows (omega (arith, n))
                  (IsOrdered-weaken r.event.recovery_revision 0 revision rows (omega arith) rest) d)
            | inr e ↦ rw e (record { bounded = n; in_order = ((o, rest), (a, d)) })
          ]

  shrink-fits :
      (size : File → ℕ) (revision : ℕ) (truncated : Bool) (rows : List Row)
      → (size (shrink size revision truncated rows) ≤ max_store_bytes)
        ⊎ ((shrink size revision truncated rows).rows ≡ [])
  unfolding shrink
  shrink-fits size revision truncated [] = inr refl
  shrink-fits size revision truncated (r ∷ rows) =
      elim (Bool-cases (
        ltb max_store_bytes
          (size (record { rows = r ∷ rows; revision = revision; truncated = truncated })))) [
            | inl e ↦ rw e (shrink-fits size revision true rows)
            | inr e ↦ rw e (inl (ground (arith, e)))
          ]

  fitted-IsFile : (now : ℕ) (f : File) → IsInOrder f → IsFile settings (fitted settings now f)
  unfolding fitted
  fitted-IsFile now f h =
      let p = prune-IsFile now f h in
      shrink-IsFile settings.encoded_size (prune settings now f).revision
        (prune settings now f).truncated (prune settings now f).rows p.bounded p.in_order.0
        p.in_order.1

  fitted-fits :
      (now : ℕ) (f : File)
      → (settings.encoded_size (fitted settings now f) ≤ max_store_bytes)
        ⊎ ((fitted settings now f).rows ≡ [])
  unfolding fitted
  fitted-fits now f =
      shrink-fits settings.encoded_size (prune settings now f).revision
        (prune settings now f).truncated (prune settings now f).rows

  save-IsStore :
      (now : ℕ) (outcome : Write) (s : Store) (f : File)
      → IsStore settings s
      → IsInOrder f
      → IsStore settings (save settings now outcome s.disk f).1
  unfolding save write
  save-IsStore now writes s f i h = record {
    memory = fitted-IsFile now f h;
    disk = fitted-IsFile now f h;
    fits = fitted-fits now f;
  }
  save-IsStore now fails s f i h = record {
    memory = fitted-IsFile now f h;
    disk = i.disk;
    fits = i.fits;
  }
  save-IsStore now fails_after s f i h = record {
    memory = fitted-IsFile now f h;
    disk = fitted-IsFile now f h;
    fits = fitted-fits now f;
  }

  restore-IsStore :
      (before : File) (event : Event) (x : Result StoreError (Unit {0}) × Store)
      → IsFile settings before
      → IsStore settings x.1
      → IsStore settings (restore settings before event x).1
  unfolding restore
  restore-IsStore before event (ok u, s) b i = i
  restore-IsStore before event (err e, s) b i = record { memory = b; disk = i.disk; fits = i.fits }

  added-IsInOrder :
      (now : ℕ) (key : Key) (event : Event) (f : File)
      → IsInOrder f
      → IsInOrder (added settings now key event f)
  unfolding added
  added-IsInOrder now key event f (o, d) =
      let others = filter (λ r. not (key_eq r.key key)) f.rows in
      (
        IsOrdered-add 0 f.revision others _ refl (IsOrdered-filter _ 0 f.revision f.rows o),
        IsDistinct-add others _ (filter-other key f.rows) (IsDistinct-filter _ f.rows d),
      )

  put_new-IsStore :
      (key : Key) (m : Moments settings) (outcome : Write) (event : Event) (s : Store)
      → IsStore settings s
      → IsStore settings (put_new settings key m outcome event s).1
  unfolding put_new
  put_new-IsStore key m outcome event s i = restore-IsStore s.memory event _ i.memory (
      save-IsStore m.saved outcome s _ i
        (added-IsInOrder m.stored key event _ (prune-IsInOrder m.first s.memory i.memory.in_order)))

  put_over-IsStore :
      (found : Option Row) (key : Key) (m : Moments settings) (outcome : Write) (event : Event)
      (s : Store)
      → IsStore settings s
      → IsStore settings (put_over settings found key m outcome event s).1
  unfolding put_over
  put_over-IsStore none key m outcome event s i = put_new-IsStore key m outcome event s i
  put_over-IsStore (some prior) key m outcome event s i =
      elim (Bool-cases (is_terminal prior.event)) [
        | inl e ↦ rw e (record {
          memory = prune-IsFile m.first s.memory i.memory.in_order;
          disk = i.disk;
          fits = i.fits;
        })
        | inr e ↦ rw e (put_new-IsStore key m outcome event s i)
      ]

  -- One call, with whatever the clock and the write do in it.
  pub data Call : Type 0 where
    puts : Scope → Moments settings → Write → Event → Call
    revokes : String → String → ℕ → Write → Call
    snapshots : Scope → (String → Bool) → ℕ → Call

  unfoldable pub step : Call → Store → Store
  step (puts scope m outcome event) s = (put settings scope m outcome event s).1
  step (revokes installation device now outcome) s =
      (revoke settings installation device now outcome s).1
  step (snapshots scope authorizer now) s = (snapshot settings scope authorizer now s).1

  unfoldable pub run : List Call → Store → Store
  run [] s = s
  run (call ∷ calls) s = run calls (step call s)

  step-IsStore : (call : Call) (s : Store) → IsStore settings s → IsStore settings (step call s)
  unfolding step put revoke snapshot
  step-IsStore (puts scope m outcome event) s i = put_over-IsStore _ _ m outcome event s i
  step-IsStore (revokes installation device now outcome) s i = save-IsStore now outcome s _ i (
    IsOrdered-filter _ 0 s.memory.revision s.memory.rows i.memory.in_order.0,
    IsDistinct-filter _ s.memory.rows i.memory.in_order.1,
  )
  step-IsStore (snapshots scope authorizer now) s i = record {
    memory = prune-IsFile now s.memory i.memory.in_order;
    disk = i.disk;
    fits = i.fits;
  }

  -- From a store that is in order, whatever calls are made and whatever the clock and the writes do in
  -- them: what is in memory and what is on disk has at most `max_rows` rows, one for each key, with
  -- rising revisions up to the counter, and what is on disk is at most 2 MiB or holds no row.
  pub run-IsStore :
      (calls : List Call) (s : Store) → IsStore settings s → IsStore settings (run calls s)
  unfolding run
  run-IsStore [] s i = i
  run-IsStore (call ∷ calls) s i = run-IsStore calls (step call s) (step-IsStore call s i)
