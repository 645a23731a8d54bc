-- ===== src/SecureChannel/Once.antt =====
-- What a run of a `NoiseChannel`, secure_channel.py, can do once only.
use mercury_relay_plugin.Prelude.{
  ℕ, zero, suc, ◌+◌, ◌≤◌, ◌≡◌, inl, inr, Bool, true, false, Option, some, List, [], ◌∷◌, Bytes,
  arith,
}
use mercury_relay_plugin.SecureChannel.{Noise, fresh}
use mercury_relay_plugin.SecureChannel.Phases.{
  Phase, handshaking, established, admitted, bound, shut, Op, writes, reads, encrypts, decrypts,
  admits, binds, closes, forward, Exchange, Transport, Permits,
}
use mercury_relay_plugin.SecureChannel.Refinement.{Life, rests, acts, run, fresh-Life}

abbrev pub admissions : Op → Bool → ℕ
admissions admits true = 1
admissions op done = 0

abbrev pub bindings : Op → Bool → ℕ
bindings binds true = 1
bindings op done = 0

-- How often a run did something.
abbrev pub times : (Op → Bool → ℕ) → List Op → List Bool → ℕ
times count [] dones = 0
times count (op ∷ ops) [] = 0
times count (op ∷ ops) (done ∷ dones) = count op done + times count ops dones

abbrev admissions_left : Phase → ℕ
admissions_left (handshaking n) = 1
admissions_left established = 1
admissions_left admitted = 0
admissions_left bound = 0
admissions_left shut = 0

abbrev bindings_owed : Phase → ℕ
bindings_owed (handshaking n) = 0
bindings_owed established = 0
bindings_owed admitted = 1
bindings_owed bound = 0
bindings_owed shut = 0

forward-counts :
    (i writing : Bool) (p q : Phase)
    → forward i writing p ≡ some q
    → (admissions_left p ≡ 1) × (admissions_left q ≡ 1) × (bindings_owed q ≡ 0)
forward-counts i writing established q e = cc
forward-counts i writing admitted q e = cc
forward-counts i writing bound q e = cc
forward-counts i writing shut q e = cc
forward-counts true true (handshaking zero) q e = ground (arith, e)
forward-counts true true (handshaking (suc zero)) q e = cc
forward-counts true true (handshaking (suc (suc n))) q e = ground (arith, e)
forward-counts true false (handshaking zero) q e = cc
forward-counts true false (handshaking (suc zero)) q e = ground (arith, e)
forward-counts true false (handshaking (suc (suc n))) q e = cc
forward-counts false true (handshaking zero) q e = cc
forward-counts false true (handshaking (suc zero)) q e = ground (arith, e)
forward-counts false true (handshaking (suc (suc n))) q e = cc
forward-counts false false (handshaking zero) q e = ground (arith, e)
forward-counts false false (handshaking (suc zero)) q e = cc
forward-counts false false (handshaking (suc (suc n))) q e = ground (arith, e)

-- Each operation uses what is left, and owes what it gains.
pub record Pays (p : Phase) (op : Op) (done : Bool) (q : Phase) : Type 0 where
  pub left : admissions op done + admissions_left q ≤ admissions_left p
  pub owed : bindings op done + bindings_owed q ≤ admissions op done + bindings_owed p

-- A message or a record gains nothing.
abbrev Quiet : Phase → Phase → Type 0
Quiet p q = (admissions_left q ≤ admissions_left p) × (bindings_owed q ≤ bindings_owed p)

Exchange-Quiet :
    (i writing : Bool) (p : Phase) (done : Bool) (q : Phase)
    → Exchange i writing p done q
    → Quiet p q
Exchange-Quiet i writing p done q (inl (e, f)) =
    let (a, b, c) = forward-counts i writing p q f in ground (arith, a, b, c)
Exchange-Quiet i writing p done q (inr (e, f)) = rw f (ground arith)

Transport-Quiet : (p : Phase) (done : Bool) (q : Phase) → Transport p done q → Quiet p q
Transport-Quiet p done q (inl (e, f)) = rw f (ground arith)
Transport-Quiet p done q (inr (inl (e, f, g))) = rw g (ground arith)
Transport-Quiet p done q (inr (inr (e, f, g))) = rw g (ground arith)

Permits-Pays :
    (i : Bool) (p : Phase) (op : Op) (done : Bool) (q : Phase)
    → Permits i p op done q
    → Pays p op done q
Permits-Pays i p (writes payload) done q h =
    let (l, o) = Exchange-Quiet i true p done q h in
    record { left = ground (arith, l); owed = ground (arith, o) }
Permits-Pays i p (reads wire) done q h =
    let (l, o) = Exchange-Quiet i false p done q h in
    record { left = ground (arith, l); owed = ground (arith, o) }
Permits-Pays i p (encrypts plaintext) done q h =
    let (l, o) = Transport-Quiet p done q h in
    record { left = ground (arith, l); owed = ground (arith, o) }
Permits-Pays i p (decrypts ciphertext) done q h =
    let (l, o) = Transport-Quiet p done q h in
    record { left = ground (arith, l); owed = ground (arith, o) }
Permits-Pays i p admits done q (inl (e, f, g)) =
    rw (e, f, g) (record { left = ground arith; owed = ground arith })
Permits-Pays i p admits done q (inr (e, f, g)) =
    rw (e, g) (record { left = ground arith; owed = ground arith })
Permits-Pays i p binds done q (inl (e, f, g)) =
    rw (e, f, g) (record { left = ground arith; owed = ground arith })
Permits-Pays i p binds done q (inr (e, f, g)) =
    rw (e, g) (record { left = ground arith; owed = ground arith })
Permits-Pays i p closes done q (e, f) =
    rw (e, f) (record { left = ground arith; owed = ground arith })

Life-counts :
    (i : Bool) (p q : Phase) (ops : List Op) (dones : List Bool)
    → Life i p ops dones q
    → (times admissions ops dones ≤ admissions_left p)
      × (times bindings ops dones ≤ times admissions ops dones + bindings_owed p)
Life-counts i p q ops dones rests = ground arith
Life-counts i p q ops dones
      (acts {q = m} {op = op} {ops = rest} {done = done} {dones = more} permits life) =
    let pays = Permits-Pays i p op done m permits in
    let (a, b) = Life-counts i m q rest more life in ground (arith, pays.left, pays.owed, a, b)

module _ {C : Type 0} where
  -- In any run of a channel that was just made, `mark_admitted` succeeds at most once, and
  -- `mark_transport_bound` no more often than that.
  pub fresh-times :
      (noise : Noise C) (initiator : Bool) (remote : Option Bytes) (k : C) (ops : List Op)
      → (times admissions ops (run noise ops (fresh initiator remote k)).0 ≤ 1)
        × (times bindings ops (run noise ops (fresh initiator remote k)).0
            ≤ times admissions ops (run noise ops (fresh initiator remote k)).0)
  fresh-times noise initiator remote k ops =
      let (life, last) = fresh-Life noise initiator remote k ops in
      let (a, b) = Life-counts initiator (handshaking 0) _ ops _ life in ground (arith, a, b)
