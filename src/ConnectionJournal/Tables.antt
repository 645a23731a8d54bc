-- ===== src/ConnectionJournal/Tables.antt =====
-- The table of connections and the deque of connection_journal.py.
use Prim.Native.String.{String}
use package.text.Mathlib.Text as Text
use mercury_relay_plugin.Prelude.{
  All-drop, All-last, ℕ, suc, ◌+◌, ◌-◌, ◌≤◌, ◌<◌, ◌≡◌, refl, ap, inl, inr, Bool-cases, true, not,
  ◌&&◌, Option, Option-cases, none, some, List, [], ◌∷◌, ◌++◌, leb, length, length-append,
  length-drop, drop, All, arith, if◌then◌else◌, pos, negsuc,
}
use mercury_relay_plugin.ConnectionJournal.{
  Value, null, float_one, unhashable, other, boolean, integer, text, max_generation, onto_deque,
}
use mercury_relay_plugin.ConnectionJournal.Safe.{IsWithin}
use mercury_relay_plugin.ConnectionJournal.Journal.{
  max_connections, Connection, find_connection, set_connection, pop_connection, is_tracked,
  with_room, track_at, with_send, with_receive, clamped_generation,
}

-- The number of connections after one is set: one more only where it was not there.
length-set_connection :
    (id : String) (c : Connection) (cs : List (String × Connection))
    → length (set_connection id c cs)
      ≡ (if is_tracked (find_connection id cs) then length cs else suc (length cs))
unfolding set_connection find_connection is_tracked
length-set_connection id c [] = refl
length-set_connection id c ((k, d) ∷ rest) = elim (Bool-cases (Text.◌==◌ k id)) [
  | inl e ↦ rw e refl
  | inr e ↦ rw e (ground (arith, length-set_connection id c rest))
]

pub length-pop_connection :
    (id : String) (cs : List (String × Connection)) → length (pop_connection id cs) ≤ length cs
unfolding pop_connection
length-pop_connection id [] = omega arith
length-pop_connection id ((k, d) ∷ rest) = elim (Bool-cases (Text.◌==◌ k id)) [
  | inl e ↦ rw e (omega arith)
  | inr e ↦ rw e (omega (arith, length-pop_connection id rest))
]

pub length-onto_deque :
    {A : Type 0} (limit : ℕ) (xs : List A) (x : A) → length (onto_deque limit xs x) ≤ limit
unfolding onto_deque
length-onto_deque limit xs x =
    omega (arith, length-drop (length xs + 1 - limit) (xs ++ x ∷ []), length-append xs (x ∷ []))

pub All-onto_deque :
    {A : Type 0} (P : A → Type 0) (limit : ℕ) (xs : List A) (x : A)
    → All P xs
    → P x
    → All P (onto_deque limit xs x)
unfolding onto_deque
All-onto_deque P limit xs x h p =
    All-drop P (length xs + 1 - limit) (xs ++ x ∷ []) (All-last P xs x h p)

set_connection_room :
    (id : String) (c : Connection) (cs : List (String × Connection))
    → length cs < max_connections
    → length (set_connection id c cs) ≤ max_connections
set_connection_room id c cs h = ground (arith, length-set_connection id c cs, h)

set_connection_tracked :
    (id : String) (c : Connection) (cs : List (String × Connection))
    → is_tracked (find_connection id cs) ≡ true
    → length cs ≤ max_connections
    → length (set_connection id c cs) ≤ max_connections
set_connection_tracked id c cs t h = ground (arith, length-set_connection id c cs, t, h)

pub length-track_at :
    (now : Option ℕ) (id : String) (cs : List (String × Connection))
    → length cs ≤ max_connections
    → length (track_at now id (with_room id cs)) ≤ max_connections
unfolding track_at with_room
length-track_at none id cs h =
    elim (Bool-cases
      (leb max_connections (length cs) && not (is_tracked (find_connection id cs)))) [
        | inl e ↦ rw e (omega (arith, length-drop 1 cs, h))
        | inr e ↦ rw e h
      ]
length-track_at (some now) id cs h =
    elim (Bool-cases
      (leb max_connections (length cs) && not (is_tracked (find_connection id cs)))) [
        | inl e ↦ rw e (set_connection_room id _ (drop 1 cs) (ground (arith, length-drop 1 cs, h)))
        | inr e ↦ rw e (elim (Bool-cases (is_tracked (find_connection id cs))) [
          | inl t ↦ set_connection_tracked id _ cs t h
          | inr t ↦ set_connection_room id _ cs (ground (arith, e, t, h))
        ])
      ]

pub length-with_send :
    (now : ℕ) (id : String) (cs : List (String × Connection))
    → length cs ≤ max_connections
    → length (with_send now id (find_connection id cs) cs) ≤ max_connections
unfolding with_send is_tracked
length-with_send now id cs h = elim (Option-cases (find_connection id cs)) [
  | inl e ↦ rw e h
  | inr (c, e) ↦ rw e (set_connection_tracked id _ cs (ap is_tracked e) h)
]

pub length-with_receive :
    (now : ℕ) (id : String) (cs : List (String × Connection))
    → length cs ≤ max_connections
    → length (with_receive now id (find_connection id cs) cs) ≤ max_connections
unfolding with_receive is_tracked
length-with_receive now id cs h = elim (Option-cases (find_connection id cs)) [
  | inl e ↦ rw e h
  | inr (c, e) ↦ rw e (set_connection_tracked id _ cs (ap is_tracked e) h)
]

pub clamped_generation-IsWithin : (v : Value) → IsWithin max_generation (clamped_generation v)
unfolding clamped_generation
clamped_generation-IsWithin null = tt
clamped_generation-IsWithin float_one = tt
clamped_generation-IsWithin unhashable = tt
clamped_generation-IsWithin other = tt
clamped_generation-IsWithin (boolean b) = tt
clamped_generation-IsWithin (integer (pos n)) = omega arith
clamped_generation-IsWithin (integer (negsuc n)) = omega arith
clamped_generation-IsWithin (text t) = tt
