-- ===== src/LeaseRecovery/Terminal.antt =====
-- `put` of lease_recovery.py where the store holds terminal evidence.
use mercury_relay_plugin.Prelude.{
  ℕ, ◌-◌, ◌≤◌, ◌<◌, ◌≡◌, refl, sym, ap, ◌∙◌, subst, ◌⊎◌, inl, inr, Bool, Bool-cases, true, false,
  some, List, [], ◌∷◌, ltb, length, drop, All, arith, ok,
}
use mercury_relay_plugin.LeaseRecovery.{
  Scope, Row, Event, File, Store, Settings, Write, filter, newest, find_row, key_eq, key_of,
  is_terminal, prune, answered, Moments, put_over, put,
}
use mercury_relay_plugin.LeaseRecovery.Keys.{key_eq_sym, key_eq_refl}
use mercury_relay_plugin.LeaseRecovery.Bounds.{IsDistinct, IsFile, prune-IsFile}

abbrev pub IsIn : Row → List Row → Type 0
IsIn r [] = ⊥
IsIn r (x ∷ rows) = (x ≡ r) ⊎ IsIn r rows

All-IsIn : (P : Row → Type 0) (r : Row) (rows : List Row) → All P rows → IsIn r rows → P r
All-IsIn P r [] h i = absurd i
All-IsIn P r (x ∷ rows) (h, rest) (inl e) = subst P e h
All-IsIn P r (x ∷ rows) (h, rest) (inr i) = All-IsIn P r rows rest i

find_row-IsIn :
    (r : Row) (rows : List Row) → IsDistinct rows → IsIn r rows → find_row r.key rows ≡ some r
unfolding find_row
find_row-IsIn r [] d i = absurd i
find_row-IsIn r (x ∷ rows) (a, d) (inl e) = rw (e, key_eq_refl r.key) refl
find_row-IsIn r (x ∷ rows) (a, d) (inr i) =
    let other : key_eq x.key r.key ≡ false =
      key_eq_sym r.key x.key (All-IsIn (λ y. key_eq y.key x.key ≡ false) r rows a i) in
    rw other (find_row-IsIn r rows d i)

IsIn-filter :
    (test : Row → Bool) (r : Row) (rows : List Row)
    → test r ≡ true
    → IsIn r rows
    → IsIn r (filter test rows)
unfolding filter
IsIn-filter test r [] h i = i
IsIn-filter test r (x ∷ rows) h (inl e) = rw (ap test e ∙ h) (inl e)
IsIn-filter test r (x ∷ rows) h (inr i) = elim (Bool-cases (test x)) [
  | inl e ↦ rw e (inr (IsIn-filter test r rows h i))
  | inr e ↦ rw e (IsIn-filter test r rows h i)
]

length-filter : (test : Row → Bool) (rows : List Row) → length (filter test rows) ≤ length rows
unfolding filter
length-filter test [] = omega arith
length-filter test (x ∷ rows) = ground (arith, length-filter test rows)

newest_all : (n : ℕ) (rows : List Row) → length rows ≤ n → newest n rows ≡ rows
newest_all n rows h = ap (λ k. drop k rows) (none_over n (length rows) h)
  where
    none_over : (n k : ℕ) → k ≤ n → k - n ≡ 0
    none_over n k h = omega (arith, h)

module _ (settings : Settings) where
  -- A row that has not expired is kept, as long as there are no more rows than may be.
  IsIn-prune :
      (now : ℕ) (f : File) (r : Row)
      → IsFile settings f
      → now < r.expires_at
      → IsIn r f.rows
      → IsIn r (prune settings now f).rows
  unfolding prune
  IsIn-prune now f r i fresh h =
      let kept = filter (λ x. ltb now x.expires_at) f.rows in
      let all : newest settings.max_rows kept ≡ kept =
        newest_all settings.max_rows kept
          (omega (arith, length-filter (λ x. ltb now x.expires_at) f.rows, i.bounded)) in
      subst (IsIn r) (sym all)
        (IsIn-filter (λ x. ltb now x.expires_at) r f.rows (ground (arith, fresh)) h)

  -- When a row of a store that is in order says that the child has ended and has not expired, an event for
  -- its key is answered with the row's revision and with that event, its payload and type those of the row. Nothing
  -- is written, and the row is still there: it is not replaced, whatever the event says.
  pub put-is_terminal :
      (scope : Scope) (m : Moments settings) (outcome : Write) (event : Event) (s : Store) (r : Row)
      → IsFile settings s.memory
      → IsIn r s.memory.rows
      → m.first < r.expires_at
      → is_terminal r.event ≡ true
      → r.key ≡ key_of scope event
      → ((put settings scope m outcome event s).0
          ≡ ok (
            r.event.recovery_revision,
            record event { payload = r.event.payload; kind = r.event.kind },
          ))
        × ((put settings scope m outcome event s).1.disk ≡ s.disk)
        × IsIn r (put settings scope m outcome event s).1.memory.rows
  unfolding put put_over answered
  put-is_terminal scope m outcome event s r i h fresh ended same =
      let kept = IsIn-prune m.first s.memory r i fresh h in
      let found : find_row (key_of scope event) (prune settings m.first s.memory).rows ≡ some r =
        ap (λ k. find_row k (prune settings m.first s.memory).rows) (sym same)
        ∙ find_row-IsIn r _ (prune-IsFile settings m.first s.memory i.in_order).in_order.1 kept in
      rw (found, ended) (refl, refl, kept)
