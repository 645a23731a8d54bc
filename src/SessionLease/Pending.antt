-- ===== src/SessionLease/Pending.antt =====
-- The ledger of submissions in session_lease.py: records whose outcome is not known stay.
use mercury_relay_plugin.Prelude.{
  ◌≡◌, subst, inl, inr, Bool-cases, none, some, Option-cases, List, [], ◌∷◌, ◌++◌, arith, Bytes,
  bytes_eq, bytes_eq_refl, bytes_eq→eq, true, false, leb, length, ap, ◌∙◌,
}
use mercury_relay_plugin.SessionLease.{
  LeaseLimits, SubmissionRecord, lookup, set_record, make_room, evict, remove_record, Outcome,
}

-- The identifier is on record, and its outcome is not known yet.
pub record IsPending (key : Bytes) (ledger : List (Bytes × SubmissionRecord)) : Type 0 where
  pub entry : SubmissionRecord
  pub found : lookup key ledger ≡ some entry
  pub unsettled : entry.outcome ≡ none

-- The same of the rest of the ledger, past another identifier.
drop-IsPending :
    (key k : Bytes) (x : SubmissionRecord) (rest : List (Bytes × SubmissionRecord))
    → bytes_eq k key ≡ false
    → IsPending key ((k, x) ∷ rest)
    → IsPending key rest
unfolding lookup
drop-IsPending key k x rest other p = record {
  entry = p.entry;
  found = ground (arith, p.found, other);
  unsettled = p.unsettled;
}

past :
    (key k : Bytes) (x : SubmissionRecord) (rest : List (Bytes × SubmissionRecord))
    → bytes_eq k key ≡ false
    → IsPending key rest
    → IsPending key ((k, x) ∷ rest)
unfolding lookup
past key k x rest other p = record {
  entry = p.entry;
  found = ground (arith, p.found, other);
  unsettled = p.unsettled;
}

-- A record at the front that is pending stays at the front.
at_front :
    (key k : Bytes) (x : SubmissionRecord) (rest : List (Bytes × SubmissionRecord))
    → bytes_eq k key ≡ true
    → x.outcome ≡ none
    → IsPending key ((k, x) ∷ rest)
unfolding lookup
at_front key k x rest same waits = record {
  entry = x;
  found = ground (arith, same);
  unsettled = waits;
}

front_unsettled :
    (key k : Bytes) (x : SubmissionRecord) (rest : List (Bytes × SubmissionRecord))
    → bytes_eq k key ≡ true
    → IsPending key ((k, x) ∷ rest)
    → x.outcome ≡ none
unfolding lookup
front_unsettled key k x rest same p = ground (arith, p.found, p.unsettled, same)

pub append-IsPending :
    (key : Bytes) (ledger more : List (Bytes × SubmissionRecord))
    → IsPending key ledger
    → IsPending key (ledger ++ more)
unfolding lookup
append-IsPending key [] more p = cc (p.found)
append-IsPending key ((k, x) ∷ rest) more p = elim (Bool-cases (bytes_eq k key)) [
  | inl same ↦ at_front key k x (rest ++ more) same (front_unsettled key k x rest same p)
  | inr other ↦
      past key k x (rest ++ more) other
        (append-IsPending key rest more (drop-IsPending key k x rest other p))
]

evict-IsPending :
    (key : Bytes) (ledger kept : List (Bytes × SubmissionRecord))
    → evict ledger ≡ some kept
    → IsPending key ledger
    → IsPending key kept
unfolding evict
evict-IsPending key [] kept e p = cc
evict-IsPending key ((k, x) ∷ rest) kept e p = elim (Option-cases (evict rest)) [
  | inl full ↦ elim (Option-cases x.outcome) [
    | inl waits ↦ absurd (ground (arith, e, full, waits))
    | inr (o, done) ↦ subst (IsPending key) (ground (arith, e, done)) (settled_front done)
  ]
  | inr (later, room) ↦ elim (Option-cases x.outcome) [
    | inl waits ↦
        subst (IsPending key) (ground (arith, e, room, waits)) (elim (Bool-cases (bytes_eq k key)) [
          | inl same ↦ at_front key k x later same waits
          | inr other ↦
              past key k x later other
                (evict-IsPending key rest later room (drop-IsPending key k x rest other p))
        ])
    | inr (o, done) ↦ subst (IsPending key) (ground (arith, e, done)) (settled_front done)
  ]
]
  where
    settled_front : {o : Outcome} → x.outcome ≡ some o → IsPending key rest
    settled_front done = elim (Bool-cases (bytes_eq k key)) [
      | inl same ↦ absurd (ground (arith, front_unsettled key k x rest same p, done))
      | inr other ↦ drop-IsPending key k x rest other p
    ]

pub set_record-IsPending :
    (key other : Bytes) (r : SubmissionRecord) (ledger : List (Bytes × SubmissionRecord))
    → r.outcome ≡ none
    → IsPending key ledger
    → IsPending key (set_record other r ledger)
unfolding set_record
set_record-IsPending key other r [] waits p = p
set_record-IsPending key other r ((k, x) ∷ rest) waits p = elim (Bool-cases (bytes_eq k other)) [
  | inl hit ↦ rw hit (elim (Bool-cases (bytes_eq k key)) [
    | inl same ↦ at_front key k r rest same waits
    | inr differs ↦ past key k r rest differs (drop-IsPending key k x rest differs p)
  ])
  | inr missed ↦ rw missed (elim (Bool-cases (bytes_eq k key)) [
    | inl same ↦ at_front key k x _ same (front_unsettled key k x rest same p)
    | inr differs ↦
        past key k x _ differs
          (set_record-IsPending key other r rest waits (drop-IsPending key k x rest differs p))
  ])
]

pub remove_record-IsPending :
    (key other : Bytes) (ledger : List (Bytes × SubmissionRecord))
    → bytes_eq other key ≡ false
    → IsPending key ledger
    → IsPending key (remove_record other ledger)
unfolding remove_record
remove_record-IsPending key other [] differs p = p
remove_record-IsPending key other ((k, x) ∷ rest) differs p = elim (Bool-cases (bytes_eq k other)) [
  | inl hit ↦
      let away : bytes_eq k key ≡ false =
        ap (λ z. bytes_eq z key) (bytes_eq→eq k other hit) ∙ differs in
      rw hit (drop-IsPending key k x rest away p)
  | inr missed ↦ rw missed (elim (Bool-cases (bytes_eq k key)) [
    | inl same ↦ at_front key k x _ same (front_unsettled key k x rest same p)
    | inr away ↦
        past key k x _ away
          (remove_record-IsPending key other rest differs (drop-IsPending key k x rest away p))
  ])
]

-- A record that is found under another identifier is not the pending one.
pub not_on_record :
    (key other : Bytes) (ledger : List (Bytes × SubmissionRecord))
    → lookup other ledger ≡ none
    → IsPending key ledger
    → bytes_eq other key ≡ false
not_on_record key other ledger free p = elim (Bool-cases (bytes_eq other key)) [
  | inr e ↦ e
  | inl e ↦
      let same : lookup other ledger ≡ lookup key ledger =
        ap (λ k. lookup k ledger) (bytes_eq→eq other key e) in
      absurd (ground (arith, free, same, p.found))
]

pub make_room-IsPending :
    (key : Bytes) (limits : LeaseLimits) (ledger kept : List (Bytes × SubmissionRecord))
    → make_room limits ledger ≡ some kept
    → IsPending key ledger
    → IsPending key kept
unfolding make_room
make_room-IsPending key limits ledger kept e p =
    elim (Bool-cases (leb limits.max_tracked_submissions (length ledger))) [
      | inl full ↦ evict-IsPending key ledger kept (ground (arith, e, full)) p
      | inr room ↦ subst (IsPending key) (ground (arith, e, room)) p
    ]

pub lookup-appended :
    (key : Bytes) (r : SubmissionRecord) (ledger : List (Bytes × SubmissionRecord))
    → r.outcome ≡ none
    → lookup key ledger ≡ none
    → IsPending key (ledger ++ (key, r) ∷ [])
unfolding lookup
lookup-appended key r [] waits free = at_front key key r [] (bytes_eq_refl key) waits
lookup-appended key r ((k, x) ∷ rest) waits free = elim (Bool-cases (bytes_eq k key)) [
  | inl same ↦ absurd (ground (arith, free, same))
  | inr other ↦
      past key k x _ other (lookup-appended key r rest waits (ground (arith, free, other)))
]

evict-free :
    (key : Bytes) (ledger kept : List (Bytes × SubmissionRecord))
    → evict ledger ≡ some kept
    → lookup key ledger ≡ none
    → lookup key kept ≡ none
unfolding evict lookup
evict-free key [] kept e free = cc
evict-free key ((k, x) ∷ rest) kept e free = elim (Bool-cases (bytes_eq k key)) [
  | inl same ↦ absurd (ground (arith, free, same))
  | inr other ↦
      let past_front : lookup key rest ≡ none = ground (arith, free, other) in
      elim (Option-cases x.outcome) [
        | inr (o, done) ↦
            let is : rest ≡ kept = ground (arith, e, done) in
            subst (λ l. lookup key l ≡ none) is past_front
        | inl waits ↦ elim (Option-cases (evict rest)) [
          | inl full ↦ absurd (ground (arith, e, full, waits))
          | inr (later, room) ↦
              let still = evict-free key rest later room past_front in
              let front : lookup key ((k, x) ∷ later) ≡ none = ground (arith, other, still) in
              let is : (k, x) ∷ later ≡ kept = ground (arith, e, room, waits) in
              subst (λ l. lookup key l ≡ none) is front
        ]
      ]
]

pub make_room-free :
    (key : Bytes) (limits : LeaseLimits) (ledger kept : List (Bytes × SubmissionRecord))
    → make_room limits ledger ≡ some kept
    → lookup key ledger ≡ none
    → lookup key kept ≡ none
unfolding make_room
make_room-free key limits ledger kept e free =
    elim (Bool-cases (leb limits.max_tracked_submissions (length ledger))) [
      | inl full ↦ evict-free key ledger kept (ground (arith, e, full)) free
      | inr room ↦ subst (λ l. lookup key l ≡ none) (ground (arith, e, room)) free
    ]
