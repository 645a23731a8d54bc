-- ===== src/RoutingAuth/Mint.antt =====
-- `mint` of routing_auth.py against `verify_routing_token`.
use mercury_relay_plugin.Prelude.{
  ℕ, zero, suc, ◌+◌, ◌≤◌, ◌<◌, ◌≡◌, refl, ap, ◌∙◌, subst, inr, true, not, some, [], ◌∷◌, ◌++◌,
  arith, Bytes, length, length-append, replicate, ltb, ◌==◌, ok, guard_returns, ok_injective, pos,
  -ℤ_parts,
}
use mathlib.Core.List.{append_assoc}
use mercury_relay_plugin.RoutingAuth.{
  Role, Claims, object, TokenLibrary, max_lifetime, header_json, split_dots, onto_stripped,
  strip_end, padding, is_url_safe, all_url_safe, b64url_encode, header_b64, b64url_decode_loose,
  minted_claims, signing_input, token_of, mint, verify_routing_token,
}
use mercury_relay_plugin.RoutingAuth.Verify.{IsAdmissible, verify_routing_token_iff}

-- `urlsafe_b64encode` and `urlsafe_b64decode` at one value: the encoding is URL-safe characters that
-- are padded to a multiple of four, there are some if there are bytes, and it decodes to the value.
pub record Encodes (lib : TokenLibrary) (b : Bytes) : Type 0 where
  pub body : Bytes
  pub padded : lib.urlsafe_b64encode b ≡ body ++ padding (length body)
  pub safe : all_url_safe body ≡ true
  pub some_chars : 1 ≤ length body
  pub decodes : lib.urlsafe_b64decode (lib.urlsafe_b64encode b) ≡ some b

strip_end-padding : (k : ℕ) → strip_end (replicate k b'=') ≡ []
unfolding strip_end
strip_end-padding zero = refl
strip_end-padding (suc k) = rw (strip_end-padding k) refl

strip_end-safe :
    (body : Bytes) (k : ℕ) → all_url_safe body ≡ true → strip_end (body ++ replicate k b'=') ≡ body
unfolding strip_end all_url_safe is_url_safe
strip_end-safe [] k h = strip_end-padding k
strip_end-safe (c ∷ body) k h =
    ap (onto_stripped c) (strip_end-safe body k (ground (arith, h)))
    ∙ kept c body (ground (arith, h))
  where
    kept : (c : ℕ) (xs : Bytes) → is_url_safe c ≡ true → onto_stripped c xs ≡ c ∷ xs
    kept c [] e = ground (arith, e)
    kept c (x ∷ xs) e = refl

split_dots-safe :
    (a rest : Bytes) → all_url_safe a ≡ true → split_dots (a ++ b'.' ∷ rest) ≡ a ∷ split_dots rest
unfolding split_dots all_url_safe is_url_safe
split_dots-safe [] rest h = refl
split_dots-safe (c ∷ a) rest h = ground (arith, h, split_dots-safe a rest)

split_dots-last : (a : Bytes) → all_url_safe a ≡ true → split_dots a ≡ a ∷ []
unfolding split_dots all_url_safe is_url_safe
split_dots-last [] h = refl
split_dots-last (c ∷ a) h = ground (arith, h, split_dots-last a)

-- The two base64 functions of the code undo one another.
module _ (lib : TokenLibrary) (b : Bytes) (e : Encodes lib b) where
  b64url_encode_body : b64url_encode lib b ≡ e.body
  unfolding b64url_encode
  b64url_encode_body = ap strip_end e.padded ∙ strip_end-safe e.body _ e.safe

  b64url_encode-safe : all_url_safe (b64url_encode lib b) ≡ true
  b64url_encode-safe = rw b64url_encode_body e.safe

  b64url_decode_loose-encode : b64url_decode_loose lib (b64url_encode lib b) ≡ ok b
  unfolding b64url_decode_loose
  b64url_decode_loose-encode =
      rw (b64url_encode_body, e.safe, ← e.padded, e.decodes) (ground (arith, e.some_chars))

-- What minting takes from the libraries, at the values that it encodes and signs.
pub record Documented (lib : TokenLibrary) (private_key : Bytes) (c : Claims) : Type 0 where
  pub header_encodes : Encodes lib header_json
  pub claims_encode : Encodes lib (lib.dumps c)
  pub signature_encodes : Encodes lib (lib.ed25519_sign private_key (signing_input lib c))
  pub key_encodes : Encodes lib (lib.public_bytes private_key)
  pub key_chars : length (b64url_encode lib (lib.public_bytes private_key)) ≡ 43
  pub signature_size : length (lib.ed25519_sign private_key (signing_input lib c)) ≡ 64
  pub signs :
      lib.ed25519_verify
        (lib.public_bytes private_key)
        (lib.ed25519_sign private_key (signing_input lib c))
        (signing_input lib c)
      ≡ true
  pub reloads : lib.loads (lib.dumps c) ≡ object c

module _ (lib : TokenLibrary) (private_key : Bytes) (c : Claims)
    (d : Documented lib private_key c) where
  split_dots-token_of :
      split_dots (token_of lib private_key c)
      ≡ header_b64 lib
        ∷ b64url_encode lib (lib.dumps c)
        ∷ b64url_encode lib (lib.ed25519_sign private_key (signing_input lib c))
        ∷ []
  unfolding token_of signing_input header_b64
  split_dots-token_of =
      ap split_dots (append_assoc (header_b64 lib) (b'.' ∷ b64url_encode lib (lib.dumps c)) _)
      ∙ split_dots-safe (header_b64 lib) _ (b64url_encode-safe lib header_json d.header_encodes)
      ∙ ap (λ z. header_b64 lib ∷ z)
          (split_dots-safe (b64url_encode lib (lib.dumps c)) _
              (b64url_encode-safe lib _ d.claims_encode)
            ∙ ap (λ z. b64url_encode lib (lib.dumps c) ∷ z)
                (split_dots-last _ (b64url_encode-safe lib _ d.signature_encodes)))

token_chars :
    (lib : TokenLibrary) (private_key : Bytes) (c : Claims)
    → 1 ≤ length (token_of lib private_key c)
unfolding token_of
token_chars lib private_key c = omega (
  arith,
  length-append (signing_input lib c)
      (b'.' ∷ b64url_encode lib (lib.ed25519_sign private_key (signing_input lib c))),
)

-- What `mint` returns for a role, with a lifetime that the role allows, is accepted with its claims by the
-- verifier with the issuer's public key and the same installation, at a moment that is not before the time
-- of issue, the skew granted, and before the expiry, when the nonce encodes to 1 to 64 characters and the
-- libraries do what `Documented` says with what was encoded and signed.
pub verify_routing_token-mint :
    (lib : TokenLibrary) (private_key : Bytes) (role : Role) (installation_id jti token : Bytes)
    (ttl now moment skew : ℕ)
    → Documented lib private_key (minted_claims lib private_key role installation_id ttl now jti)
    → (1 ≤ length (b64url_encode lib jti)) × (length (b64url_encode lib jti) ≤ 64)
    → ttl ≤ max_lifetime role
    → now ≤ moment + skew
    → moment < now + ttl
    → mint lib private_key role installation_id ttl now jti ≡ ok token
    → verify_routing_token lib
        (lib.public_bytes private_key)
        (some (b64url_encode lib installation_id))
        (pos moment)
        skew
        token
      ≡ ok (minted_claims lib private_key role installation_id ttl now jti)
unfolding mint minted_claims signing_input
verify_routing_token-mint lib private_key role installation_id jti token ttl now moment skew d nonce
      lasts issued current e =
    let c = minted_claims lib private_key role installation_id ttl now jti in
    let (id, e1) = guard_returns (length installation_id == 32) _ _ e in
    let (positive, e2) = guard_returns (not (ltb ttl 1)) _ _ e1 in
    let (size, e3) = guard_returns (not (ltb 1024 (length (token_of lib private_key c)))) _ _ e2 in
    let is : token_of lib private_key c ≡ token = ok_injective e3 in
    (verify_routing_token_iff lib (lib.public_bytes private_key)
        (some (b64url_encode lib installation_id)) (pos moment) skew token c).1
      (subst
        (λ z.
          IsAdmissible lib (lib.public_bytes private_key) (some (b64url_encode lib installation_id))
            (pos moment) skew z c)
        is
        (record {
          bounded = (token_chars lib private_key c, ground (arith, size));
          claims_b64 = b64url_encode lib (lib.dumps c);
          signature_b64 = b64url_encode lib (lib.ed25519_sign private_key (signing_input lib c));
          parts = split_dots-token_of lib private_key c d;
          claims_raw = lib.dumps c;
          decoded = b64url_decode_loose-encode lib _ d.claims_encode;
          signature = lib.ed25519_sign private_key (signing_input lib c);
          signature_decoded = b64url_decode_loose-encode lib _ d.signature_encodes;
          signature_size = d.signature_size;
          signed = d.signs;
          loaded = d.reloads;
          says = record {
            role = role;
            inst = b64url_encode lib installation_id;
            iat = pos now;
            exp = pos (now + ttl);
          };
          shape = record {
            audience = refl;
            role = refl;
            inst = refl;
            iat = refl;
            exp = refl;
            nonce = (b64url_encode lib jti, refl, nonce.0, nonce.1);
          };
          route = inr refl;
          key = inr (
            b64url_encode lib (lib.public_bytes private_key),
            refl,
            d.key_chars,
            b64url_decode_loose-encode lib _ d.key_encodes,
          );
          lasts = ground (arith, -ℤ_parts (pos (now + ttl)) (pos now), positive, lasts);
          current = ground (arith, -ℤ_parts (pos now) (pos skew), issued, current);
        }))
