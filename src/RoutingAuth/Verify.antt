-- ===== src/RoutingAuth/Verify.antt =====
-- `verify_routing_token` of routing_auth.py against the list of its conditions.
use mercury_relay_plugin.Prelude.{
  ℕ, ◌≤◌, ◌≡◌, refl, sym, ap, ◌∙◌, subst, ◌↔◌, ◌⊎◌, inl, inr, Bool, true, false, ◌&&◌, Option, none,
  some, List, [], ◌∷◌, ◌++◌, arith, Bytes, bytes_eq, bytes_eq→eq, bytes_eq_refl, length, leb, ◌==◌,
  ok, guard, bind_returns, guard_returns, ok_injective, ℤ, pos, ◌-ℤ◌, ◌≤ℤ◌, ◌<ℤ◌,
}
use mercury_relay_plugin.RoutingAuth.{
  invalid_claims, invalid_signature, Reason, Role, host, pairing_device, authorized_device, Value,
  text, integer, unhashable, other, Claims, Decoded, not_json, not_object, object, TokenLibrary,
  token_audience, role_text, max_lifetime, split_dots, role_of_text, read_role, read_text, read_int,
  Checked, check_shape, check_installation, check_lifetime, check_moment, header_b64,
  b64url_decode_loose, check_key, claims_of, verify_parts, verify_split, verify_routing_token,
}

-- The claims have the shape that the code wants, and say `k`.
pub record HasShape (c : Claims) (k : Checked) : Type 0 where
  pub audience : c.aud ≡ some (text token_audience)
  pub role : c.role ≡ some (text (role_text k.role))
  pub inst : c.inst ≡ some (text k.inst)
  pub iat : c.iat ≡ some (integer k.iat)
  pub exp : c.exp ≡ some (integer k.exp)
  pub nonce : (jti : Bytes) × (c.jti ≡ some (text jti)) × (1 ≤ length jti) × (length jti ≤ 64)

read_text-eq-ok : (v : Option Value) (b : Bytes) → read_text v ≡ ok b → v ≡ some (text b)
unfolding read_text
read_text-eq-ok none b e = ground (arith, e)
read_text-eq-ok (some (text x)) b e = ground (arith, e)
read_text-eq-ok (some (integer n)) b e = ground (arith, e)
read_text-eq-ok (some unhashable) b e = ground (arith, e)
read_text-eq-ok (some other) b e = ground (arith, e)

read_int-eq-ok : (v : Option Value) (n : ℤ) → read_int v ≡ ok n → v ≡ some (integer n)
unfolding read_int
read_int-eq-ok none b e = ground (arith, e)
read_int-eq-ok (some (text x)) b e = ground (arith, e)
read_int-eq-ok (some (integer n)) b e = ground (arith, e)
read_int-eq-ok (some unhashable) b e = ground (arith, e)
read_int-eq-ok (some other) b e = ground (arith, e)

role_of_text-eq-some : (b : Bytes) (r : Role) → role_of_text b ≡ some r → b ≡ role_text r
unfolding role_of_text
role_of_text-eq-some b r e = ground (
  arith,
  e,
  bytes_eq→eq b (role_text host),
  bytes_eq→eq b (role_text pairing_device),
  bytes_eq→eq b (role_text authorized_device),
)

read_role-eq-ok : (v : Option Value) (r : Role) → read_role v ≡ ok r → v ≡ some (text (role_text r))
unfolding read_role
read_role-eq-ok none r e = ground (arith, e)
read_role-eq-ok (some (text b)) r e = ground (arith, e, role_of_text-eq-some b r)
read_role-eq-ok (some (integer n)) r e = ground (arith, e)
read_role-eq-ok (some unhashable) r e = ground (arith, e)
read_role-eq-ok (some other) r e = ground (arith, e)

role_of_text-role_text : (r : Role) → role_of_text (role_text r) ≡ some r
unfolding role_of_text bytes_eq
role_of_text-role_text host = refl
role_of_text-role_text pairing_device = refl
role_of_text-role_text authorized_device = refl

check_shape-HasShape : (c : Claims) (k : Checked) → check_shape c ≡ ok k → HasShape c k
unfolding check_shape
check_shape-HasShape c k e =
    let (aud, a, e1) = bind_returns (read_text c.aud) _ e in
    let (b, e2) = guard_returns _ _ _ e1 in
    let (role, r, e3) = bind_returns (read_role c.role) _ e2 in
    let (inst, i, e4) = bind_returns (read_text c.inst) _ e3 in
    let (iat, t, e5) = bind_returns (read_int c.iat) _ e4 in
    let (exp, x, e6) = bind_returns (read_int c.exp) _ e5 in
    let (jti, j, e7) = bind_returns (read_text c.jti) _ e6 in
    let (l, e8) = guard_returns _ _ _ e7 in
    subst (HasShape c) (ok_injective e8) (record {
      audience =
          read_text-eq-ok c.aud aud a ∙ ap (λ z. some (text z)) (bytes_eq→eq aud token_audience b);
      role = read_role-eq-ok c.role role r;
      inst = read_text-eq-ok c.inst inst i;
      iat = read_int-eq-ok c.iat iat t;
      exp = read_int-eq-ok c.exp exp x;
      nonce = (jti, read_text-eq-ok c.jti jti j, ground (arith, l), ground (arith, l));
    })

HasShape-check_shape : (c : Claims) (k : Checked) → HasShape c k → check_shape c ≡ ok k
unfolding check_shape read_text read_role read_int
HasShape-check_shape c k h =
    let (jti, j, low, high) = h.nonce in
    rw
      (
        h.audience,
        bytes_eq_refl token_audience,
        h.role,
        role_of_text-role_text k.role,
        h.inst,
        h.iat,
        h.exp,
        j,
      )
      (ground (arith, low, high))

claims_of-eq-ok : (d : Decoded) (c : Claims) → claims_of d ≡ ok c → d ≡ object c
unfolding claims_of
claims_of-eq-ok not_json c e = cc
claims_of-eq-ok not_object c e = cc
claims_of-eq-ok (object b) c e = ap object (ok_injective e)

guard_ok : (test : Bool) (e : Reason) → guard test e ≡ ok tt → test ≡ true
guard_ok true e h = refl
guard_ok false e h = cc

-- The named key, if there is one, is the key that verifies.
abbrev pub NamesKey : TokenLibrary → Bytes → Option Value → Type 0
NamesKey lib public_key pk =
    (pk ≡ none)
    ⊎ ((key : Bytes) × (pk ≡ some (text key))
        × (length key ≡ 43)
        × (b64url_decode_loose lib key ≡ ok public_key))

abbrev pub IsOnRoute : Option Bytes → Bytes → Type 0
IsOnRoute installation inst = (installation ≡ none) ⊎ (installation ≡ some inst)

check_key-NamesKey :
    (lib : TokenLibrary) (public_key : Bytes) (pk : Option Value)
    → check_key lib public_key pk ≡ ok tt
    → NamesKey lib public_key pk
unfolding check_key
check_key-NamesKey lib public_key none e = inl refl
check_key-NamesKey lib public_key (some pk) e =
    let (key, t, e1) = bind_returns (read_text (some pk)) _ e in
    let (size, e2) = guard_returns (length key == 43) invalid_claims _ e1 in
    let (named, d, e3) = bind_returns (b64url_decode_loose lib key) _ e2 in
    inr (
      key,
      read_text-eq-ok (some pk) key t,
      ground (arith, size),
      d ∙ ap ok (bytes_eq→eq named public_key (guard_ok _ invalid_signature e3)),
    )

NamesKey-check_key :
    (lib : TokenLibrary) (public_key : Bytes) (pk : Option Value)
    → NamesKey lib public_key pk
    → check_key lib public_key pk ≡ ok tt
unfolding check_key read_text
NamesKey-check_key lib public_key pk (inl e) = rw e refl
NamesKey-check_key lib public_key pk (inr (key, e, size, d)) =
    rw (e, size, d, bytes_eq_refl public_key) refl

check_installation-IsOnRoute :
    (installation : Option Bytes) (k : Checked)
    → (check_installation installation k ≡ ok tt) ↔ IsOnRoute installation k.inst
unfolding check_installation
check_installation-IsOnRoute none k = (λ e. inl refl, λ r. refl)
check_installation-IsOnRoute (some i) k =
    (λ e. inr (ap some (sym (bytes_eq→eq k.inst i (guard_ok _ invalid_claims e)))), same k.inst)
  where
    same : (inst : Bytes) → IsOnRoute (some i) inst → guard (bytes_eq inst i) invalid_claims ≡ ok tt
    same inst (inl e) = ground (arith, e)
    same inst (inr e) = ground (arith, e, bytes_eq_refl i)

module _ (lib : TokenLibrary) (public_key : Bytes) (installation : Option Bytes) (moment : ℤ)
    (skew : ℕ) where
  -- Every condition that a token has to meet, for the claims `c` that it carries.
  pub record IsAdmissible (token : Bytes) (c : Claims) : Type 0 where
    pub bounded : (1 ≤ length token) × (length token ≤ 1024)
    pub claims_b64 : Bytes
    pub signature_b64 : Bytes
    pub parts : split_dots token ≡ header_b64 lib ∷ claims_b64 ∷ signature_b64 ∷ []
    pub claims_raw : Bytes
    pub decoded : b64url_decode_loose lib claims_b64 ≡ ok claims_raw
    pub signature : Bytes
    pub signature_decoded : b64url_decode_loose lib signature_b64 ≡ ok signature
    pub signature_size : length signature ≡ 64
    pub signed :
        lib.ed25519_verify public_key signature (header_b64 lib ++ b'.' ∷ claims_b64) ≡ true
    pub loaded : lib.loads claims_raw ≡ object c
    pub says : Checked
    pub shape : HasShape c says
    pub route : IsOnRoute installation says.inst
    pub key : NamesKey lib public_key c.pk
    pub lasts :
        (pos 1 ≤ℤ (says.exp -ℤ says.iat)) × ((says.exp -ℤ says.iat) ≤ℤ pos (max_lifetime says.role))
    pub current : ((says.iat -ℤ pos skew) ≤ℤ moment) × (moment <ℤ says.exp)

  check_lifetime_iff :
      (k : Checked)
      → (check_lifetime k ≡ ok tt)
        ↔ ((pos 1 ≤ℤ (k.exp -ℤ k.iat)) × ((k.exp -ℤ k.iat) ≤ℤ pos (max_lifetime k.role)))
  unfolding check_lifetime
  check_lifetime_iff k = ground arith

  check_moment_iff :
      (k : Checked)
      → (check_moment moment skew k ≡ ok tt) ↔ (((k.iat -ℤ pos skew) ≤ℤ moment) × (moment <ℤ k.exp))
  unfolding check_moment
  check_moment_iff k = ground arith

  verify_parts-IsAdmissible :
      (token : Bytes) (c : Claims) (header claims_b64 signature_b64 : Bytes)
      → (1 ≤ length token) × (length token ≤ 1024)
      → split_dots token ≡ header ∷ claims_b64 ∷ signature_b64 ∷ []
      → verify_parts lib public_key installation moment skew header claims_b64 signature_b64 ≡ ok c
      → IsAdmissible token c
  unfolding verify_parts
  verify_parts-IsAdmissible token c header claims_b64 signature_b64 size parts e =
      let (h, e1) = guard_returns (bytes_eq header (header_b64 lib)) _ _ e in
      let (raw, d, e2) = bind_returns (b64url_decode_loose lib claims_b64) _ e1 in
      let (sig, sd, e3) = bind_returns (b64url_decode_loose lib signature_b64) _ e2 in
      let (n, e4) = guard_returns (length sig == 64) _ _ e3 in
      let (v, e5) =
        guard_returns (lib.ed25519_verify public_key sig (header ++ b'.' ∷ claims_b64)) _ _ e4 in
      let (b, l, e6) = bind_returns (claims_of (lib.loads raw)) _ e5 in
      let (k, s, e7) = bind_returns (check_shape b) _ e6 in
      let (_, i, e8) = bind_returns (check_installation installation k) _ e7 in
      let (_, y, e9) = bind_returns (check_key lib public_key b.pk) _ e8 in
      let (_, t, e10) = bind_returns (check_lifetime k) _ e9 in
      let (_, m, e11) = bind_returns (check_moment moment skew k) _ e10 in
      let same : header ≡ header_b64 lib = bytes_eq→eq header (header_b64 lib) h in
      subst (IsAdmissible token) (ok_injective e11) (record {
        bounded = size;
        claims_b64 = claims_b64;
        signature_b64 = signature_b64;
        parts = parts ∙ ap (λ z. z ∷ claims_b64 ∷ signature_b64 ∷ []) same;
        claims_raw = raw;
        decoded = d;
        signature = sig;
        signature_decoded = sd;
        signature_size = ground (arith, n);
        signed =
            subst (λ z. lib.ed25519_verify public_key sig (z ++ b'.' ∷ claims_b64) ≡ true) same v;
        loaded = claims_of-eq-ok (lib.loads raw) b l;
        says = k;
        shape = check_shape-HasShape b k s;
        route = (check_installation-IsOnRoute installation k).0 i;
        key = check_key-NamesKey lib public_key b.pk y;
        lasts = (check_lifetime_iff k).0 t;
        current = (check_moment_iff k).0 m;
      })

  verify_split-IsAdmissible :
      (token : Bytes) (c : Claims) (parts : List Bytes)
      → (1 ≤ length token) × (length token ≤ 1024)
      → split_dots token ≡ parts
      → verify_split lib public_key installation moment skew parts ≡ ok c
      → IsAdmissible token c
  unfolding verify_split
  verify_split-IsAdmissible token c [] size p e = cc
  verify_split-IsAdmissible token c (h ∷ []) size p e = cc
  verify_split-IsAdmissible token c (h ∷ b ∷ []) size p e = cc
  verify_split-IsAdmissible token c (h ∷ b ∷ s ∷ []) size p e =
      verify_parts-IsAdmissible token c h b s size p e
  verify_split-IsAdmissible token c (h ∷ b ∷ s ∷ x ∷ xs) size p e = cc

  verify_routing_token-IsAdmissible :
      (token : Bytes) (c : Claims)
      → verify_routing_token lib public_key installation moment skew token ≡ ok c
      → IsAdmissible token c
  unfolding verify_routing_token
  verify_routing_token-IsAdmissible token c e =
      let (size, e1) = guard_returns (leb 1 (length token) && leb (length token) 1024) _ _ e in
      verify_split-IsAdmissible token c (split_dots token) (ground (arith, size)) refl e1

  IsAdmissible-verify_routing_token :
      (token : Bytes) (c : Claims)
      → IsAdmissible token c
      → verify_routing_token lib public_key installation moment skew token ≡ ok c
  unfolding verify_routing_token verify_split verify_parts claims_of
  IsAdmissible-verify_routing_token token c a =
      let size : (leb 1 (length token) && leb (length token) 1024) ≡ true =
        ground (arith, a.bounded) in
      rw
        (
          size,
          a.parts,
          bytes_eq_refl (header_b64 lib),
          a.decoded,
          a.signature_decoded,
          a.signature_size,
          a.signed,
          a.loaded,
          claims_of,
          HasShape-check_shape c a.says a.shape,
          (check_installation-IsOnRoute installation a.says).1 a.route,
          NamesKey-check_key lib public_key c.pk a.key,
          (check_lifetime_iff a.says).1 a.lasts,
          (check_moment_iff a.says).1 a.current,
        )
        refl

  pub verify_routing_token_iff :
      (token : Bytes) (c : Claims)
      → (verify_routing_token lib public_key installation moment skew token ≡ ok c)
        ↔ IsAdmissible token c
  verify_routing_token_iff token c =
      (verify_routing_token-IsAdmissible token c, IsAdmissible-verify_routing_token token c)
