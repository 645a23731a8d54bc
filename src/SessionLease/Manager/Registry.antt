-- ===== src/SessionLease/Manager/Registry.antt =====
-- The keys and the size of the registry `SessionLeaseManager` of session_lease.py.
use mercury_relay_plugin.Prelude.{
  ap, bytes_eq_refl, bytes_eq→eq, suc, ◌≤◌, ◌≡◌, refl, arith, inl, inr, Bool, true, false, not,
  ◌&&◌, Bool-cases, Option-cases, none, some, List, [], ◌∷◌, Bytes, bytes_eq, length,
}
use mercury_relay_plugin.SessionLease.Manager.{
  Lease, Manager, has_key, find, delete, get, owned, put, register, register_free, fence, finish,
  Step, gets, registers_lease, releases, releases_device, finishes, closes, new_lease, step, run,
}

-- No two leases of the list have the same key.
abbrev pub AreDistinct : List Lease → Type 0
AreDistinct [] = Unit
AreDistinct (l ∷ ls) = (find l.device_id l.channel ls ≡ none) × AreDistinct ls

pub record IsRegistry (m : Manager) : Type 0 where
  pub distinct : AreDistinct m.leases
  pub bounded : length m.leases ≤ m.max_leases

find-delete :
    (d c e f : Bytes) (ls : List Lease) → find d c ls ≡ none → find d c (delete e f ls) ≡ none
unfolding find delete
find-delete d c e f [] h = refl
find-delete d c e f (l ∷ ls) h = ground (arith, h, find-delete d c e f ls)

delete-AreDistinct : (e f : Bytes) (ls : List Lease) → AreDistinct ls → AreDistinct (delete e f ls)
unfolding delete
delete-AreDistinct e f [] h = h
delete-AreDistinct e f (l ∷ ls) (new, h) = elim (Bool-cases (has_key e f l)) [
  | inl same ↦ ground (arith, same, h)
  | inr other ↦ rw other (find-delete l.device_id l.channel e f ls new, delete-AreDistinct e f ls h)
]

length-delete : (e f : Bytes) (ls : List Lease) → length (delete e f ls) ≤ length ls
unfolding delete
length-delete e f [] = omega arith
length-delete e f (l ∷ ls) = ground (arith, length-delete e f ls)

find-owned : (d c : Bytes) (ls : List Lease) → find d c ls ≡ none → find d c (owned ls) ≡ none
unfolding find owned
find-owned d c [] h = refl
find-owned d c (l ∷ ls) h = ground (arith, h, find-owned d c ls)

owned-AreDistinct : (ls : List Lease) → AreDistinct ls → AreDistinct (owned ls)
unfolding owned
owned-AreDistinct [] h = h
owned-AreDistinct (l ∷ ls) (new, h) = elim (Bool-cases l.release_succeeded) [
  | inl gone ↦ rw gone (owned-AreDistinct ls h)
  | inr kept ↦ rw kept (find-owned l.device_id l.channel ls new, owned-AreDistinct ls h)
]

length-owned : (ls : List Lease) → length (owned ls) ≤ length ls
unfolding owned
length-owned [] = omega arith
length-owned (l ∷ ls) = ground (arith, length-owned ls)

length-put : (x : Lease) (ls : List Lease) → length (put x ls) ≤ suc (length ls)
unfolding put
length-put x [] = omega arith
length-put x (l ∷ ls) = ground (arith, length-put x ls)

find-fence :
    (d c : Bytes) (which : Lease → Bool) (ls : List Lease)
    → find d c ls ≡ none
    → find d c (fence which ls) ≡ none
unfolding find fence has_key
find-fence d c which [] h = refl
find-fence d c which (l ∷ ls) h = ground (arith, h, find-fence d c which ls)

find-finish :
    (d c e f : Bytes) (b : Bool) (ls : List Lease)
    → find d c ls ≡ none
    → find d c (finish e f b ls) ≡ none
unfolding find finish has_key
find-finish d c e f b [] h = refl
find-finish d c e f b (l ∷ ls) h = ground (arith, h, find-finish d c e f b ls)

fence-AreDistinct :
    (which : Lease → Bool) (ls : List Lease) → AreDistinct ls → AreDistinct (fence which ls)
unfolding fence
fence-AreDistinct which [] h = h
fence-AreDistinct which (l ∷ ls) (new, h) = elim (Bool-cases (which l)) [
  | inl hit ↦ rw hit (find-fence l.device_id l.channel which ls new, fence-AreDistinct which ls h)
  | inr miss ↦ rw miss (find-fence l.device_id l.channel which ls new, fence-AreDistinct which ls h)
]

length-fence : (which : Lease → Bool) (ls : List Lease) → length (fence which ls) ≡ length ls
unfolding fence
length-fence which [] = refl
length-fence which (l ∷ ls) = ap suc (length-fence which ls)

finish-AreDistinct :
    (d c : Bytes) (b : Bool) (ls : List Lease) → AreDistinct ls → AreDistinct (finish d c b ls)
unfolding finish
finish-AreDistinct d c b [] h = h
finish-AreDistinct d c b (l ∷ ls) (new, h) = elim (Bool-cases (has_key d c l && l.released)) [
  | inl hit ↦ rw hit (find-finish l.device_id l.channel d c b ls new, finish-AreDistinct d c b ls h)
  | inr miss ↦
      rw miss (find-finish l.device_id l.channel d c b ls new, finish-AreDistinct d c b ls h)
]

length-finish : (d c : Bytes) (b : Bool) (ls : List Lease) → length (finish d c b ls) ≡ length ls
unfolding finish
length-finish d c b [] = refl
length-finish d c b (l ∷ ls) = ap suc (length-finish d c b ls)

-- Another key is found as before.
find-put :
    (d c : Bytes) (x : Lease) (ls : List Lease)
    → has_key d c x ≡ false
    → find d c ls ≡ none
    → find d c (put x ls) ≡ none
unfolding find put
find-put d c x [] other h = ground (arith, other)
find-put d c x (l ∷ ls) other h = ground (arith, h, other, find-put d c x ls)

find-put_same : (x : Lease) (ls : List Lease) → find x.device_id x.channel (put x ls) ≡ some x
unfolding find put has_key
find-put_same x [] = ground (arith, bytes_eq_refl x.device_id, bytes_eq_refl x.channel)
find-put_same x (l ∷ ls) =
    ground (arith, bytes_eq_refl x.device_id, bytes_eq_refl x.channel, find-put_same x ls)

-- A list in which the key is not found does not hold it at its head.
absent_key :
    (x l : Lease) (ls : List Lease)
    → find x.device_id x.channel (l ∷ ls) ≡ none
    → has_key l.device_id l.channel x ≡ false
unfolding find has_key
absent_key x l ls h = ground (
  arith,
  h,
  bytes_eq→eq x.device_id l.device_id,
  bytes_eq→eq x.channel l.channel,
  bytes_eq_refl x.device_id,
  bytes_eq_refl x.channel,
)

put-AreDistinct :
    (x : Lease) (ls : List Lease)
    → find x.device_id x.channel ls ≡ none
    → AreDistinct ls
    → AreDistinct (put x ls)
unfolding put find
put-AreDistinct x [] f h = (refl, tt)
put-AreDistinct x (l ∷ ls) f (new, h) = elim (Bool-cases (has_key x.device_id x.channel l)) [
  | inl same ↦ ground (arith, same, f)
  | inr other ↦ rw other (
    find-put l.device_id l.channel x ls (absent_key x l ls f) new,
    put-AreDistinct x ls (ground (arith, f, other)) h,
  )
]

get-IsRegistry : (m : Manager) (d c : Bytes) → IsRegistry m → IsRegistry (get m d c).1
unfolding get
get-IsRegistry m d c h = elim (Option-cases (find d c m.leases)) [
  | inl e ↦ ground (arith, e, h)
  | inr (l, e) ↦
      ground (arith, e, h, delete-AreDistinct d c m.leases h.distinct, length-delete d c m.leases)
]

-- The key is not found in what `get` leaves when it returns `None`.
find-delete_same :
    (d c : Bytes) (ls : List Lease) → AreDistinct ls → find d c (delete d c ls) ≡ none
unfolding find delete has_key
find-delete_same d c [] h = refl
find-delete_same d c (l ∷ ls) (new, h) = elim (Bool-cases (has_key d c l)) [
  | inl same ↦ ground (arith, same, new, bytes_eq→eq l.device_id d, bytes_eq→eq l.channel c)
  | inr other ↦ ground (arith, other, find-delete_same d c ls h)
]

get-free :
    (m : Manager) (d c : Bytes)
    → IsRegistry m
    → (get m d c).0 ≡ none
    → find d c (get m d c).1.leases ≡ none
unfolding get
get-free m d c h e = elim (Option-cases (find d c m.leases)) [
  | inl f ↦ ground (arith, e, f)
  | inr (l, f) ↦ ground (arith, e, f, find-delete_same d c m.leases h.distinct)
]

register_free-IsRegistry :
    (m : Manager) (x : Lease)
    → IsRegistry m
    → find x.device_id x.channel m.leases ≡ none
    → IsRegistry (register_free m x).1
unfolding register_free
register_free-IsRegistry m x h free =
    let o = owned-AreDistinct m.leases h.distinct in
    let f = find-owned x.device_id x.channel m.leases free in
    ground (
      arith,
      h,
      o,
      length-owned m.leases,
      length-put x (owned m.leases),
      put-AreDistinct x (owned m.leases) f o,
    )

register-IsRegistry : (m : Manager) (x : Lease) → IsRegistry m → IsRegistry (register m x).1
unfolding register
register-IsRegistry m x h = elim (Bool-cases m.closed) [
  | inl shut ↦ ground (arith, shut, h)
  | inr live ↦ elim (Option-cases (get m x.device_id x.channel).0) [
    | inl none_there ↦ ground (
      arith,
      live,
      none_there,
      register_free-IsRegistry (get m x.device_id x.channel).1 x
          (get-IsRegistry m x.device_id x.channel h)
          (get-free m x.device_id x.channel h none_there),
    )
    | inr (l, there) ↦ ground (arith, live, there, get-IsRegistry m x.device_id x.channel h)
  ]
]

step-IsRegistry : (m : Manager) (s : Step) → IsRegistry m → IsRegistry (step m s)
unfolding step
step-IsRegistry m (gets d c) h = get-IsRegistry m d c h
step-IsRegistry m (registers_lease d c) h = register-IsRegistry m (new_lease d c) h
step-IsRegistry m (releases d c) h =
    let g = get-IsRegistry m d c h in
    record {
      distinct = fence-AreDistinct (has_key d c) (get m d c).1.leases g.distinct;
      bounded = omega (arith, g.bounded, length-fence (has_key d c) (get m d c).1.leases);
    }
step-IsRegistry m (releases_device d) h = record {
  distinct = fence-AreDistinct _ m.leases h.distinct;
  bounded = omega (
    arith,
    h.bounded,
    length-fence (λ l. bytes_eq l.device_id d && not l.release_succeeded) m.leases,
  );
}
step-IsRegistry m (finishes d c b) h = record {
  distinct = finish-AreDistinct d c b m.leases h.distinct;
  bounded = omega (arith, h.bounded, length-finish d c b m.leases);
}
step-IsRegistry m closes h = record {
  distinct = fence-AreDistinct _ m.leases h.distinct;
  bounded = omega (arith, h.bounded, length-fence (λ l. true) m.leases);
}

-- Whatever steps are taken from a registry that is one, an empty one to begin with: no two of its
-- leases have the same device and channel, and there are no more than `max_leases` of them.
pub run-IsRegistry : (m : Manager) (steps : List Step) → IsRegistry m → IsRegistry (run m steps)
unfolding run
run-IsRegistry m [] h = h
run-IsRegistry m (s ∷ steps) h = run-IsRegistry (step m s) steps (step-IsRegistry m s h)
