-- ===== src/StrictJson/Keys.antt =====
-- What strict_json.py lets pass.
use Prim.Native.String.{String}
use text.Mathlib.Text.{◌==◌}
use text.Mathlib.TextEquality.{eq_iff}
use mercury_relay_plugin.Prelude.{
  ◌≡◌, refl, sym, ap, subst, ◌∙◌, ◌↔◌, Bool, Bool-cases, true, false, not, ◌&&◌, ◌||◌, inl, inr,
  Option, none, some, ok, err, or_fail, bind_returns, ok_injective, if◌then◌else◌, arith,
}
use mercury_relay_plugin.StrictJson.{
  duplicate_object_key, invalid_json, Json, null, constant, decimal, boolean, integer, string,
  array, object, Items, no_item, item, Fields, no_field, field, has_key, put_last, add_pairs,
  reject_duplicate_keys, strict, strict_items, strict_fields, loads_strict,
}

abbrev join : Fields → Fields → Fields
join no_field others = others
join (field k v rest) others = field k v (join rest others)

-- No key stands twice.
unfoldable pub distinct : Fields → Bool
distinct no_field = true
distinct (field k v rest) = not (has_key k rest) && distinct rest

-- No key of the second stands in the first.
apart : Fields → Fields → Bool
apart result no_field = true
apart result (field k v rest) = not (has_key k result) && apart result rest

-- No constant, and distinct keys in every object, at any depth.
unfoldable mutual
  pub is_strict : Json → Bool
  is_strict null = true
  is_strict constant = false
  is_strict decimal = true
  is_strict (boolean b) = true
  is_strict (integer n) = true
  is_strict (string s) = true
  is_strict (array xs) = all_strict xs
  is_strict (object pairs) = all_fields_strict pairs && distinct pairs

  pub all_strict : Items → Bool
  all_strict no_item = true
  all_strict (item x xs) = is_strict x && all_strict xs

  pub all_fields_strict : Fields → Bool
  all_fields_strict no_field = true
  all_fields_strict (field k v rest) = is_strict v && all_fields_strict rest

has_key-put_last :
    (f : Fields) (k j : String) (v : Json) → has_key j (put_last f k v) ≡ (has_key j f || k == j)
unfolding has_key put_last
has_key-put_last no_field k j v = ground arith
has_key-put_last (field i w rest) k j v = ground (arith, has_key-put_last rest k j v)

join-put_last :
    (f others : Fields) (k : String) (v : Json)
    → join (put_last f k v) others ≡ join f (field k v others)
unfolding put_last
join-put_last no_field others k v = refl
join-put_last (field i w rest) others k v = ap (field i w) (join-put_last rest others k v)

join-no_field : (f : Fields) → join f no_field ≡ f
join-no_field no_field = refl
join-no_field (field i w rest) = ap (field i w) (join-no_field rest)

same_sym : (k j : String) → (k == j) ≡ (j == k)
same_sym k j = elim (Bool-cases (k == j)) [
  | inl e ↦ ground (arith, e, (eq_iff j k).1 (sym ((eq_iff k j).0 e)))
  | inr e ↦ elim (Bool-cases (j == k)) [
    | inl d ↦ ground (arith, e, (eq_iff k j).1 (sym ((eq_iff j k).0 d)))
    | inr d ↦ e ∙ sym d
  ]
]

apart-put_last :
    (f pairs : Fields) (k : String) (v : Json)
    → apart (put_last f k v) pairs ≡ (apart f pairs && not (has_key k pairs))
unfolding apart has_key
apart-put_last f no_field k v = ground arith
apart-put_last f (field j w rest) k v =
    ground (arith, has_key-put_last f k j v, apart-put_last f rest k v, same_sym k j)

add_pairs-join :
    (result pairs : Fields)
    → add_pairs result pairs ≡ (
        if apart result pairs && distinct pairs
        then ok (join result pairs)
        else err duplicate_object_key)
unfolding add_pairs apart distinct
add_pairs-join result no_field = ground (arith, join-no_field result)
add_pairs-join result (field k v rest) = ground (
  arith,
  add_pairs-join (put_last result k v) rest,
  apart-put_last result rest k v,
  join-put_last result rest k v,
)

apart-no_field : (pairs : Fields) → apart no_field pairs ≡ true
unfolding apart has_key
apart-no_field no_field = refl
apart-no_field (field k v rest) = apart-no_field rest

reject_duplicate_keys_lem :
    (pairs : Fields)
    → reject_duplicate_keys pairs ≡ (if distinct pairs then ok pairs else err duplicate_object_key)
unfolding reject_duplicate_keys
reject_duplicate_keys_lem pairs =
    ground (arith, add_pairs-join no_field pairs, apart-no_field pairs)

reject_duplicate_keys-returns :
    (pairs result : Fields)
    → reject_duplicate_keys pairs ≡ ok result
    → (distinct pairs ≡ true) × (result ≡ pairs)
reject_duplicate_keys-returns pairs result e =
    let lem = sym (reject_duplicate_keys_lem pairs) ∙ e in
    elim (Bool-cases (distinct pairs)) [
      | inl d ↦ (
        d,
        sym (
            ok_injective
              (subst (λ b. (if b then ok pairs else err duplicate_object_key) ≡ ok result) d lem)),
      )
      | inr d ↦ absurd (ground (arith, lem, d))
    ]

or_fail-returns : (o : Option Json) (v : Json) → or_fail o invalid_json ≡ ok v → o ≡ some v
or_fail-returns none v e = cc
or_fail-returns (some w) v e = ap some (ok_injective e)

-- A value that the hooks let pass is strict, and they give it back as it is.
mutual
  unfolding strict strict_items strict_fields is_strict all_strict all_fields_strict

  strict-returns : (v w : Json) → strict v ≡ ok w → (is_strict v ≡ true) × (w ≡ v)
  strict-returns null w e = (refl, sym (ok_injective e))
  strict-returns constant w e = cc
  strict-returns decimal w e = (refl, sym (ok_injective e))
  strict-returns (boolean b) w e = (refl, sym (ok_injective e))
  strict-returns (integer n) w e = (refl, sym (ok_injective e))
  strict-returns (string s) w e = (refl, sym (ok_injective e))
  strict-returns (array xs) w e =
      let (ys, a, b) = bind_returns (strict_items xs) (λ ys. ok (array ys)) e in
      let (s, same) = strict_items-returns xs ys a in (s, sym (ok_injective b) ∙ ap array same)
  strict-returns (object pairs) w e =
      let (values, a, b) = bind_returns (strict_fields pairs) _ e in
      let (s, same) = strict_fields-returns pairs values a in
      let (result, c, d) = bind_returns (reject_duplicate_keys values) _ b in
      let (apart, kept) = reject_duplicate_keys-returns values result c in
      (
        ground (arith, s, ap distinct (sym same) ∙ apart),
        sym (ok_injective d) ∙ ap object (kept ∙ same),
      )

  strict_items-returns :
      (xs ys : Items) → strict_items xs ≡ ok ys → (all_strict xs ≡ true) × (ys ≡ xs)
  strict_items-returns no_item ys e = (refl, sym (ok_injective e))
  strict_items-returns (item x xs) ys e =
      let (z, a, b) = bind_returns (strict x) _ e in
      let (zs, c, d) = bind_returns (strict_items xs) _ b in
      let (s, same) = strict-returns x z a in
      let (t, others) = strict_items-returns xs zs c in
      (ground (arith, s, t), sym (ok_injective d) ∙ cc (same, others))

  strict_fields-returns :
      (fs gs : Fields) → strict_fields fs ≡ ok gs → (all_fields_strict fs ≡ true) × (gs ≡ fs)
  strict_fields-returns no_field gs e = (refl, sym (ok_injective e))
  strict_fields-returns (field k v rest) gs e =
      let (z, a, b) = bind_returns (strict v) _ e in
      let (zs, c, d) = bind_returns (strict_fields rest) _ b in
      let (s, same) = strict-returns v z a in
      let (t, others) = strict_fields-returns rest zs c in
      (ground (arith, s, t), sym (ok_injective d) ∙ cc (same, others))

mutual
  unfolding strict strict_items strict_fields is_strict all_strict all_fields_strict

  strict-passes : (v : Json) → is_strict v ≡ true → strict v ≡ ok v
  strict-passes null h = refl
  strict-passes constant h = cc
  strict-passes decimal h = refl
  strict-passes (boolean b) h = refl
  strict-passes (integer n) h = refl
  strict-passes (string s) h = refl
  strict-passes (array xs) h = rw (strict_items-passes xs h) refl
  strict-passes (object pairs) h =
      rw (strict_fields-passes pairs (ground (arith, h)), reject_duplicate_keys_lem pairs)
        (ground (arith, h))

  strict_items-passes : (xs : Items) → all_strict xs ≡ true → strict_items xs ≡ ok xs
  strict_items-passes no_item h = refl
  strict_items-passes (item x xs) h =
      rw (strict-passes x (ground (arith, h)), strict_items-passes xs (ground (arith, h))) refl

  strict_fields-passes : (fs : Fields) → all_fields_strict fs ≡ true → strict_fields fs ≡ ok fs
  strict_fields-passes no_field h = refl
  strict_fields-passes (field k v rest) h =
      rw (strict-passes v (ground (arith, h)), strict_fields-passes rest (ground (arith, h))) refl

-- The reader returns a value exactly if it is the tree that the parser gives for the text, and that tree
-- has no constant and, in every object at any depth, distinct keys.
pub loads_strict_iff :
    (loads : String → Option Json) (text : String) (value : Json)
    → (loads_strict loads text ≡ ok value) ↔ ((loads text ≡ some value) × (is_strict value ≡ true))
unfolding loads_strict
loads_strict_iff loads text value = (
  (λ e.
      let (tree, parsed, e1) = bind_returns (or_fail (loads text) invalid_json) _ e in
      let (h, same) = strict-returns tree value e1 in
      (or_fail-returns (loads text) tree parsed ∙ ap some (sym same), ap is_strict same ∙ h)),
  λ (tree, h). rw tree (strict-passes value h),
)
