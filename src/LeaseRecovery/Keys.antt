-- ===== src/LeaseRecovery/Keys.antt =====
-- The comparison of keys, and lists of rows that are filtered or cut.
use text.Mathlib.TextEquality.{eq_iff}
use mercury_relay_plugin.Prelude.{
  ℕ, ◌-◌, ◌≤◌, ◌≡◌, refl, sym, ap, inl, inr, Bool-cases, true, false, Option, none, some, List,
  length, length-drop, arith,
}
use mercury_relay_plugin.LeaseRecovery.{
  Child, subagent, child_session, delegation, Scope, Key, Row, newest, child_eq, scope_eq, key_eq,
}

child_eq→eq : (a b : Option Child) → child_eq a b ≡ true → a ≡ b
unfolding child_eq
child_eq→eq none none e = refl
child_eq→eq none (some b) e = cc
child_eq→eq (some (subagent a)) none e = cc
child_eq→eq (some (child_session a)) none e = cc
child_eq→eq (some (delegation a m)) none e = cc
child_eq→eq (some (subagent a)) (some (subagent b)) e =
    ap (λ z. some (subagent z)) ((eq_iff a b).0 e)
child_eq→eq (some (subagent a)) (some (child_session b)) e = cc
child_eq→eq (some (subagent a)) (some (delegation b n)) e = cc
child_eq→eq (some (child_session a)) (some (subagent b)) e = cc
child_eq→eq (some (child_session a)) (some (child_session b)) e =
    ap (λ z. some (child_session z)) ((eq_iff a b).0 e)
child_eq→eq (some (child_session a)) (some (delegation b n)) e = cc
child_eq→eq (some (delegation a m)) (some (subagent b)) e = cc
child_eq→eq (some (delegation a m)) (some (child_session b)) e = cc
child_eq→eq (some (delegation a m)) (some (delegation b n)) e =
    let texts : a ≡ b = (eq_iff a b).0 (ground (arith, e)) in
    let places : m ≡ n = ground (arith, e) in cc (texts, places)

child_eq_refl : (a : Option Child) → child_eq a a ≡ true
unfolding child_eq
child_eq_refl none = refl
child_eq_refl (some (subagent a)) = (eq_iff a a).1 refl
child_eq_refl (some (child_session a)) = (eq_iff a a).1 refl
child_eq_refl (some (delegation a m)) = ground (arith, (eq_iff a a).1 refl)

pub scope_eq→eq : (a b : Scope) → scope_eq a b ≡ true → a ≡ b
unfolding scope_eq
scope_eq→eq a b e =
    let installation : a.installation ≡ b.installation =
      (eq_iff a.installation b.installation).0 (ground (arith, e)) in
    let device : a.device ≡ b.device = (eq_iff a.device b.device).0 (ground (arith, e)) in
    let generation : a.generation ≡ b.generation = ground (arith, e) in
    cc (installation, device, generation)

pub key_eq→eq : (a b : Key) → key_eq a b ≡ true → a ≡ b
unfolding key_eq
key_eq→eq a b e =
    let scope : a.scope ≡ b.scope = scope_eq→eq a.scope b.scope (ground (arith, e)) in
    let profile : a.profile ≡ b.profile = (eq_iff a.profile b.profile).0 (ground (arith, e)) in
    let durable : a.durable_session_id ≡ b.durable_session_id =
      (eq_iff a.durable_session_id b.durable_session_id).0 (ground (arith, e)) in
    let child : a.child ≡ b.child = child_eq→eq a.child b.child (ground (arith, e)) in
    cc (scope, profile, durable, child)

pub key_eq_refl : (a : Key) → key_eq a a ≡ true
unfolding key_eq scope_eq
key_eq_refl a = ground (
  arith,
  (eq_iff a.scope.installation a.scope.installation).1 refl,
  (eq_iff a.scope.device a.scope.device).1 refl,
  (eq_iff a.profile a.profile).1 refl,
  (eq_iff a.durable_session_id a.durable_session_id).1 refl,
  child_eq_refl a.child,
)

-- Which rows have another key is the same from both sides.
pub key_eq_sym : (a b : Key) → key_eq a b ≡ false → key_eq b a ≡ false
key_eq_sym a b e = elim (Bool-cases (key_eq b a)) [
  | inl same ↦
      absurd (ground (arith, e, ap (λ k. key_eq k b) (sym (key_eq→eq b a same)), key_eq_refl b))
  | inr other ↦ other
]

pub length-newest : (n : ℕ) (rows : List Row) → length (newest n rows) ≤ n
length-newest n rows = omega (arith, length-drop (length rows - n) rows)
