-- ===== src/RoutingAuth/MachineId.antt =====
-- The machine ID of routing_auth.py and its check character.
use mercury_relay_plugin.Prelude.{
  ℕ, zero, suc, ◌+◌, ◌-◌, ◌*◌, ◌%◌, ◌<◌, ◌≡◌, refl, ap, ◌∙◌, ◌↔◌, inl, inr, Bool, Bool-cases, true,
  false, not, ◌&&◌, ◌||◌, [], ◌∷◌, ◌++◌, arith, Bytes, length, length-append, take, drop, ltb, leb,
  ◌==◌, if◌then◌else◌, Result, ok, guard, ok_injective, ◌>>=◌, ◌>>◌,
}
use mercury_relay_plugin.RoutingAuth.{
  Reason, invalid_machine_id, invalid_issuer_key, invalid_installation_id, TokenLibrary, strip_end,
  b64url_encode,
}

-- `MACHINE_ID_ALPHABET`: A to Z and 2 to 7.
unfoldable pub is_letter : ℕ → Bool
is_letter c = (leb b'A' c && leb c b'Z') || (leb b'2' c && leb c b'7')

-- `MACHINE_ID_ALPHABET.index(c)`, for a character of the alphabet
unfoldable pub value : ℕ → ℕ
value c = if leb b'A' c then c - b'A' else c - b'2' + 26

-- `MACHINE_ID_ALPHABET[n]`
unfoldable pub letter : ℕ → ℕ
letter n = if ltb n 26 then n + b'A' else n - 26 + b'2'

unfoldable pub all_letters : Bytes → Bool
unfolding is_letter
all_letters [] = true
all_letters (c ∷ cs) = is_letter c && all_letters cs

-- The sum of the values, each times its position, from position `i` on.
unfoldable pub weighted : ℕ → Bytes → ℕ
weighted i [] = 0
weighted i (c ∷ cs) = i * value c + weighted (suc i) cs

unfoldable pub machine_id_check_char : Bytes → Result Reason ℕ
machine_id_check_char body = do
  guard ((length body == 24) && all_letters body) invalid_machine_id
  ok (letter (weighted 1 body % 31))

-- `"-".join(raw[i : i + n] …)`, where `k` bounds the number of groups.
unfoldable pub grouped : ℕ → ℕ → Bytes → Bytes
grouped zero n raw = raw
grouped (suc k) n raw =
    let rest = grouped k n (drop n raw) in
    if leb (length raw) n then raw else take n raw ++ b'-' ∷ rest

abbrev pub machine_id_domain : Bytes
machine_id_domain =
    b'm' ∷ b'e' ∷ b'r' ∷ b'c' ∷ b'u' ∷ b'r' ∷ b'y' ∷ b'-' ∷ b'r' ∷ b'e' ∷ b'l' ∷ b'a' ∷ b'y' ∷ b'-'
    ∷ b'm' ∷ b'a' ∷ b'c' ∷ b'h' ∷ b'i' ∷ b'n' ∷ b'e' ∷ b'-' ∷ b'i' ∷ b'd' ∷ b'/' ∷ b'v' ∷ b'1' ∷ []

abbrev pub prefix : Bytes
prefix = b'M' ∷ b'R' ∷ b'-' ∷ []

-- `raw.replace("-", "")`
unfoldable pub without_dashes : Bytes → Bytes
without_dashes [] = []
without_dashes (c ∷ cs) = let rest = without_dashes cs in if c == b'-' then rest else c ∷ rest

module _ (lib : TokenLibrary) where
  unfoldable pub machine_id : Bytes → Bytes → Result Reason Bytes
  machine_id installation_id public_key = do
    guard (length installation_id == 32) invalid_installation_id
    guard (length public_key == 32) invalid_issuer_key
    let route = b64url_encode lib installation_id
    let pk = b64url_encode lib public_key
    let digest = lib.sha256 (machine_id_domain ++ (route ++ pk))
    let raw = strip_end (lib.b32encode (take 15 digest))
    ok (prefix ++ grouped (length raw) 4 raw)

  unfoldable pub machine_id_display : Bytes → Bytes → Result Reason Bytes
  machine_id_display installation_id public_key = do
    id ← machine_id installation_id public_key
    let body = without_dashes (drop 3 id)
    check ← machine_id_check_char body
    ok (prefix ++ grouped 5 5 (take 25 (body ++ check ∷ [])))

-- The letters of the residues are different.
letter_injective : (m n : ℕ) → m < 31 → n < 31 → letter m ≡ letter n → m ≡ n
unfolding letter
letter_injective m n p q e = ground (arith, e)

value_bound : (c : ℕ) → is_letter c ≡ true → value c < 32
unfolding is_letter value
value_bound c e = ground (arith, e)

weighted-append :
    (i : ℕ) (xs ys : Bytes) → weighted i (xs ++ ys) ≡ weighted i xs + weighted (i + length xs) ys
unfolding weighted
weighted-append i [] ys =
    let same : weighted (i + 0) ys ≡ weighted i ys = ap (λ k. weighted k ys) (plus_zero i) in
    omega (arith, same)
  where
    plus_zero : (i : ℕ) → i + 0 ≡ i
    plus_zero i = omega arith
weighted-append i (x ∷ xs) ys =
    omega (arith, weighted-append (suc i) xs ys, ap (λ k. weighted k ys) (shift i (length xs)))
  where
    shift : (i n : ℕ) → suc i + n ≡ i + suc n
    shift i n = omega arith

holds_at_all : (ℕ → Bool) → ℕ → Bool
holds_at_all test zero = true
holds_at_all test (suc bound) = if test bound then holds_at_all test bound else false

-- A table that was computed speaks for each of its entries.
entry : (test : ℕ → Bool) (bound k : ℕ) → k < bound → holds_at_all test bound ≡ true → test k ≡ true
unfolding holds_at_all
entry test zero k small table = absurd (omega arith)
entry test (suc bound) k small table =
    let others = entry test bound k in
    elim (Bool-cases (test bound)) [
      | inl holds ↦ elim (Bool-cases (k == bound)) [
        | inl same ↦ ap test (equal same) ∙ holds
        | inr below ↦ others (ground (arith, small, below)) (ground (arith, table, holds))
      ]
      | inr fails ↦ absurd (ground (arith, table, fails))
    ]
  where
    equal : (k == bound) ≡ true → k ≡ bound
    equal e = ground (arith, e)

same_if : Bool → Bool → Bool
same_if a b = if a then b else not b

-- At a position, two values weigh the same mod 31 if they are the same mod 31, and only then.
tells : ℕ → ℕ → ℕ → Bool
tells k a b = same_if ((k * a) % 31 == (k * b) % 31) (a % 31 == b % 31)

-- Zero is not a position.
tells_at : ℕ → Bool
tells_at zero = true
tells_at (suc k) = holds_at_all (λ a. holds_at_all (tells (suc k) a) 32) 32

tells_table : holds_at_all tells_at 25 ≡ true
unfolding holds_at_all tells tells_at same_if
tells_table = refl

mod_cancel : (x y s : ℕ) → ((x + s) % 31 ≡ (y + s) % 31) ↔ (x % 31 ≡ y % 31)
mod_cancel x y s = (λ e. omega (arith, e), λ e. omega (arith, e))

told : (x y a b : ℕ) → same_if (x == y) (a == b) ≡ true → (x ≡ y) ↔ (a ≡ b)
unfolding same_if
told x y a b e = (λ h. ground (arith, h, e), λ h. ground (arith, h, e))

same_weight :
    (k a b : ℕ)
    → k < 24
    → a < 32
    → b < 32
    → ((suc k * a) % 31 ≡ (suc k * b) % 31) ↔ (a % 31 ≡ b % 31)
unfolding tells_at tells
same_weight k a b p ha hb =
    let rows : tells_at (suc k) ≡ true = entry tells_at 25 (suc k) (omega arith) tells_table in
    let row : holds_at_all (tells (suc k) a) 32 ≡ true =
      entry (λ a. holds_at_all (tells (suc k) a) 32) 32 a ha rows in
    told _ _ _ _ (entry (tells (suc k) a) 32 b hb row)

all_letters-append :
    (xs ys : Bytes)
    → all_letters (xs ++ ys) ≡ true
    → (all_letters xs ≡ true) × (all_letters ys ≡ true)
unfolding all_letters
all_letters-append [] ys h = (refl, h)
all_letters-append (x ∷ xs) ys h = ground (arith, h, all_letters-append xs ys)

abbrev pub IsBody : Bytes → Type 0
IsBody body = (length body ≡ 24) × (all_letters body ≡ true)

check_char_residue :
    (x y : Bytes)
    → IsBody x
    → IsBody y
    → (machine_id_check_char x ≡ machine_id_check_char y) ↔ (weighted 1 x % 31 ≡ weighted 1 y % 31)
unfolding machine_id_check_char
check_char_residue x y (lx, ax) (ly, ay) =
    rw (lx, ax, ly, ay)
      (
        (λ e. letter_injective _ _ (omega arith) (omega arith) (ok_injective e)),
        λ e. ap (λ n. ok (letter n)) e,
      )

↔_trans : {A B C : Type 0} → A ↔ B → B ↔ C → A ↔ C
↔_trans f g = (λ a. g.0 (f.0 a), λ c. f.1 (g.1 c))

one_plus : (n : ℕ) → 1 + n ≡ suc n
one_plus n = omega arith

weighted-insert :
    (pre rest : Bytes) (a : ℕ)
    → weighted 1 (pre ++ a ∷ rest)
      ≡ weighted 1 pre + (suc (length pre) * value a + weighted (suc (suc (length pre))) rest)
unfolding weighted
weighted-insert pre rest a =
    weighted-append 1 pre (a ∷ rest)
    ∙ ap (λ k. weighted 1 pre + weighted k (a ∷ rest)) (one_plus (length pre))

weighted-insert_two :
    (pre rest : Bytes) (a b : ℕ)
    → weighted 1 (pre ++ a ∷ b ∷ rest)
      ≡ weighted 1 pre
        + (suc (length pre) * value a
            + (suc (suc (length pre)) * value b + weighted (suc (suc (suc (length pre)))) rest))
unfolding weighted
weighted-insert_two pre rest a b =
    weighted-append 1 pre (a ∷ b ∷ rest)
    ∙ ap (λ k. weighted 1 pre + weighted k (a ∷ b ∷ rest)) (one_plus (length pre))

-- The character after the prefix is in the alphabet, and the prefix is short.
IsBody-at :
    (pre rest : Bytes) (a : ℕ)
    → IsBody (pre ++ a ∷ rest)
    → (length pre < 24) × (value a < 32) × (all_letters rest ≡ true)
unfolding all_letters
IsBody-at pre rest a (n, h) =
    let (_, tail) = all_letters-append pre (a ∷ rest) h in
    (
      omega (arith, n, length-append pre (a ∷ rest)),
      value_bound a (ground (arith, tail)),
      ground (arith, tail),
    )

one_changed : (x y s t : ℕ) → ((s + (x + t)) % 31 ≡ (s + (y + t)) % 31) ↔ (x % 31 ≡ y % 31)
one_changed x y s t = (λ e. omega (arith, e), λ e. omega (arith, e))

two_swapped :
    (k a b s t : ℕ)
    → ((s + (k * a + (suc k * b + t))) % 31 ≡ (s + (k * b + (suc k * a + t))) % 31)
      ↔ (a % 31 ≡ b % 31)
two_swapped k a b s t = (λ e. omega (arith, e), λ e. omega (arith, e))

-- Of two bodies that differ in one character, the check characters are the same exactly if the values
-- of the two characters are the same modulo 31.
pub machine_id_check_char-substitute :
    (pre post : Bytes) (a b : ℕ)
    → IsBody (pre ++ a ∷ post)
    → IsBody (pre ++ b ∷ post)
    → (machine_id_check_char (pre ++ a ∷ post) ≡ machine_id_check_char (pre ++ b ∷ post))
      ↔ (value a % 31 ≡ value b % 31)
machine_id_check_char-substitute pre post a b x y =
    let (p, va, _) = IsBody-at pre post a x in
    let (_, vb, _) = IsBody-at pre post b y in
    ↔_trans (check_char_residue _ _ x y) (
      rw (weighted-insert pre post a, weighted-insert pre post b)
        (↔_trans (one_changed _ _ _ _) (same_weight (length pre) (value a) (value b) p va vb)))

all_letters-swap :
    (pre post : Bytes) (a b : ℕ)
    → all_letters (pre ++ b ∷ a ∷ post) ≡ all_letters (pre ++ a ∷ b ∷ post)
unfolding all_letters
all_letters-swap [] post a b = ground arith
all_letters-swap (c ∷ pre) post a b = ap (λ z. is_letter c && z) (all_letters-swap pre post a b)

IsBody-swap :
    (pre post : Bytes) (a b : ℕ) → IsBody (pre ++ a ∷ b ∷ post) → IsBody (pre ++ b ∷ a ∷ post)
IsBody-swap pre post a b (n, h) = (
  omega (arith, n, length-append pre (a ∷ b ∷ post), length-append pre (b ∷ a ∷ post)),
  all_letters-swap pre post a b ∙ h,
)

-- Of a body and the one with two adjacent characters swapped, the check characters are the same exactly
-- if the values of the two characters are the same modulo 31.
pub machine_id_check_char-transpose :
    (pre post : Bytes) (a b : ℕ)
    → IsBody (pre ++ a ∷ b ∷ post)
    → (machine_id_check_char (pre ++ a ∷ b ∷ post) ≡ machine_id_check_char (pre ++ b ∷ a ∷ post))
      ↔ (value a % 31 ≡ value b % 31)
machine_id_check_char-transpose pre post a b x =
    ↔_trans (check_char_residue _ _ x (IsBody-swap pre post a b x)) (
      rw (weighted-insert_two pre post a b, weighted-insert_two pre post b a)
        (two_swapped (suc (length pre)) (value a) (value b) _ _))
