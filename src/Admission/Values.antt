-- ===== src/Admission/Values.antt =====
-- Each field of an envelope of admission.py against the values that it may have.
use Prim.Native.String.{String}
use text.Mathlib.Text as Text
use text.Mathlib.TextEquality.{eq_iff}
use mercury_relay_plugin.Prelude.{
  ℕ, ◌≤◌, ◌≡◌, refl, sym, ap, ◌∙◌, ◌⊎◌, inl, inr, Bool, Bool-cases, true, false, Option, none, some,
  length, leb, ◌==◌, Result, ok, err, or_fail, ok_injective, pos, negsuc, arith,
}
use mercury_relay_plugin.StrictJson.{
  Json, null, constant, decimal, boolean, integer, string, array, object, Fields, no_field, field,
  get, has_key, StrictJsonError,
}
use mercury_relay_plugin.MethodPolicy.{codes}
use mercury_relay_plugin.SessionLease.{max_cursor}
use mercury_relay_plugin.Admission.{
  Refusal, matches_channel, validate_channel, string_of, cursor_of, recovery_of, named_channel,
  channel_of, name_of, object_of,
}

-- The field is absent, or it is a cursor that fits.
abbrev pub HasCursor : Option Json → Option ℕ → Type 0
HasCursor o c =
    ((o ≡ none) × (c ≡ none))
    ⊎ ((n : ℕ) × (o ≡ some (integer (pos n))) × (n ≤ max_cursor) × (c ≡ some n))

abbrev pub HasRecovery : Option Json → Bool → Type 0
HasRecovery o r = ((o ≡ none) × (r ≡ false)) ⊎ ((o ≡ some (integer (pos 1))) × (r ≡ true))

abbrev pub HasChannel : Option Json → String → Type 0
HasChannel o c = ((o ≡ none) × (c ≡ "")) ⊎ ((o ≡ some (string c)) × (matches_channel c ≡ true))

abbrev pub HasName : Option Json → Option String → Type 0
HasName o name =
    ((o ≡ none) × (name ≡ none))
    ⊎ ((s : String) × (o ≡ some (string s)) × (length (codes s) ≤ 256) × (name ≡ some s))

pub string_of-returns : (o : Option Json) (s : String) → string_of o ≡ some s → o ≡ some (string s)
unfolding string_of
string_of-returns none s e = cc
string_of-returns (some null) s e = cc
string_of-returns (some constant) s e = cc
string_of-returns (some decimal) s e = cc
string_of-returns (some (boolean b)) s e = cc
string_of-returns (some (integer n)) s e = cc
string_of-returns (some (string t)) s e = cc
string_of-returns (some (array xs)) s e = cc
string_of-returns (some (object fs)) s e = cc

pub cursor_of-HasCursor : (o : Option Json) (c : Option ℕ) → cursor_of o ≡ ok c → HasCursor o c
unfolding cursor_of
cursor_of-HasCursor none c e = inl (refl, sym (ok_injective e))
cursor_of-HasCursor (some null) c e = cc
cursor_of-HasCursor (some constant) c e = cc
cursor_of-HasCursor (some decimal) c e = cc
cursor_of-HasCursor (some (boolean b)) c e = cc
cursor_of-HasCursor (some (integer (pos n))) c e = elim (Bool-cases (leb n max_cursor)) [
  | inl h ↦ inr (n, refl, ground (arith, h), ground (arith, e, h))
  | inr h ↦ absurd (ground (arith, e, h))
]
cursor_of-HasCursor (some (integer (negsuc n))) c e = cc
cursor_of-HasCursor (some (string t)) c e = cc
cursor_of-HasCursor (some (array xs)) c e = cc
cursor_of-HasCursor (some (object fs)) c e = cc

pub HasCursor-cursor_of : (o : Option Json) (c : Option ℕ) → HasCursor o c → cursor_of o ≡ ok c
unfolding cursor_of
HasCursor-cursor_of o c (inl (e, f)) = rw (e, f) refl
HasCursor-cursor_of o c (inr (n, e, small, f)) = rw (e, f) (ground (arith, small))

pub recovery_of-HasRecovery : (o : Option Json) (r : Bool) → recovery_of o ≡ ok r → HasRecovery o r
unfolding recovery_of
recovery_of-HasRecovery none c e = inl (refl, sym (ok_injective e))
recovery_of-HasRecovery (some null) c e = cc
recovery_of-HasRecovery (some constant) c e = cc
recovery_of-HasRecovery (some decimal) c e = cc
recovery_of-HasRecovery (some (boolean b)) c e = cc
recovery_of-HasRecovery (some (integer (pos n))) c e = elim (Bool-cases (n == 1)) [
  | inl h ↦
      let one : n ≡ 1 = ground (arith, h) in
      inr (ap (λ m. some (integer (pos m))) one, ground (arith, e, h))
  | inr h ↦ absurd (ground (arith, e, h))
]
recovery_of-HasRecovery (some (integer (negsuc n))) c e = cc
recovery_of-HasRecovery (some (string t)) c e = cc
recovery_of-HasRecovery (some (array xs)) c e = cc
recovery_of-HasRecovery (some (object fs)) c e = cc

pub HasRecovery-recovery_of : (o : Option Json) (r : Bool) → HasRecovery o r → recovery_of o ≡ ok r
unfolding recovery_of
HasRecovery-recovery_of o r (inl (e, f)) = rw (e, f) refl
HasRecovery-recovery_of o r (inr (e, f)) = rw (e, f) refl

pub name_of-HasName :
    (o : Option Json) (name : Option String) → name_of o ≡ ok name → HasName o name
unfolding name_of
name_of-HasName none c e = inl (refl, sym (ok_injective e))
name_of-HasName (some null) c e = cc
name_of-HasName (some constant) c e = cc
name_of-HasName (some decimal) c e = cc
name_of-HasName (some (boolean b)) c e = cc
name_of-HasName (some (integer n)) c e = cc
name_of-HasName (some (string t)) c e = elim (Bool-cases (leb (length (codes t)) 256)) [
  | inl h ↦ inr (t, refl, ground (arith, h), ground (arith, e, h))
  | inr h ↦ absurd (ground (arith, e, h))
]
name_of-HasName (some (array xs)) c e = cc
name_of-HasName (some (object fs)) c e = cc

pub HasName-name_of :
    (o : Option Json) (name : Option String) → HasName o name → name_of o ≡ ok name
unfolding name_of
HasName-name_of o name (inl (e, f)) = rw (e, f) refl
HasName-name_of o name (inr (s, e, small, f)) = rw (e, f) (ground (arith, small))

not_empty : (c : String) → matches_channel c ≡ true → Text.◌==◌ c "" ≡ false
unfolding matches_channel
not_empty c h = elim (Bool-cases (Text.◌==◌ c "")) [
  | inl e ↦
      let bad : matches_channel "" ≡ true = ap matches_channel (sym ((eq_iff c "").0 e)) ∙ h in
      absurd (ground (arith, bad))
  | inr e ↦ e
]

pub channel_of-HasChannel : (o : Option Json) (c : String) → channel_of o ≡ ok c → HasChannel o c
unfolding channel_of named_channel validate_channel
channel_of-HasChannel none c e = inl (refl, sym (ok_injective e))
channel_of-HasChannel (some null) c e = absurd (ground (arith, e))
channel_of-HasChannel (some constant) c e = cc
channel_of-HasChannel (some decimal) c e = cc
channel_of-HasChannel (some (boolean b)) c e = cc
channel_of-HasChannel (some (integer n)) c e = cc
channel_of-HasChannel (some (string t)) c e = elim (Bool-cases (matches_channel t)) [
  | inl h ↦
      let same : t ≡ c = ground (arith, e, h, not_empty t h) in
      inr (ap (λ s. some (string s)) same, ap matches_channel (sym same) ∙ h)
  | inr h ↦ absurd (ground (arith, e, h))
]
channel_of-HasChannel (some (array xs)) c e = cc
channel_of-HasChannel (some (object fs)) c e = cc

pub HasChannel-channel_of : (o : Option Json) (c : String) → HasChannel o c → channel_of o ≡ ok c
unfolding channel_of named_channel validate_channel
HasChannel-channel_of o c (inl (e, f)) = rw (e, f) refl
HasChannel-channel_of o c (inr (e, h)) = rw e (ground (arith, h, not_empty c h))

pub or_fail-returns :
    {A : Type 0} (o : Option A) (x : Refusal) (a : A) → or_fail o x ≡ ok a → o ≡ some a
or_fail-returns none x a e = cc
or_fail-returns (some b) x a e = cc

pub object_of-returns :
    (r : Result StrictJsonError Json) (fs : Fields) → object_of r ≡ ok fs → r ≡ ok (object fs)
unfolding object_of
object_of-returns (err x) fs e = cc
object_of-returns (ok null) fs e = cc
object_of-returns (ok constant) fs e = cc
object_of-returns (ok decimal) fs e = cc
object_of-returns (ok (boolean b)) fs e = cc
object_of-returns (ok (integer n)) fs e = cc
object_of-returns (ok (string t)) fs e = cc
object_of-returns (ok (array xs)) fs e = cc
object_of-returns (ok (object gs)) fs e = ap (λ fs. ok (object fs)) (ok_injective e)

pub has_key-get :
    (key : String) (fs : Fields) (v : Json) → get key fs ≡ some v → has_key key fs ≡ true
unfolding get has_key
has_key-get key no_field v e = cc
has_key-get key (field k w rest) v e = elim (Bool-cases (Text.◌==◌ k key)) [
  | inl h ↦ rw h refl
  | inr h ↦ rw h (has_key-get key rest v (ground (arith, e, h)))
]
