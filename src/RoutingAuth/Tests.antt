-- ===== src/RoutingAuth/Tests.antt =====
-- Minting, verifying and the machine ID at concrete inputs.
use mercury_relay_plugin.Prelude.{
  ℕ, ◌≡◌, ◌↔◌, ◌+◌, ◌-◌, ◌%◌, ◌*◌, refl, sym, subst, ◌<◌, ◌≤◌, guard, ltb, leb, true, false, Option,
  none, some, Bytes, List, [], ◌∷◌, ◌++◌, arith, bytes_eq, length, replicate, if◌then◌else◌, Result,
  ok, err, ℤ, pos, inl, inr,
}
use mercury_relay_plugin.RoutingAuth.{
  invalid_token, token_expired, host, text, integer, Claims, object, TokenLibrary, token_audience,
  role_text, header_json, strip_end, padding, all_url_safe, b64url_encode, mint, minted_claims,
  token_of, signing_input, header_b64, is_url_safe, verify_split, verify_parts, b64url_decode_loose,
  check_key, check_shape, check_installation, check_lifetime, check_moment, claims_of, read_text,
  read_role, read_int, role_of_text, split_dots, verify_routing_token, mint_host_token,
}
use mercury_relay_plugin.RoutingAuth.Mint.{Encodes, Documented, verify_routing_token-mint}
use mercury_relay_plugin.RoutingAuth.MachineId.{
  IsBody, value, letter, weighted, all_letters, is_letter, machine_id_check_char,
  machine_id_check_char-transpose,
}

-- The one text that is not URL-safe is the header.
abbrev header_chars : Bytes
header_chars = replicate 4 b'H'

abbrev public_chars : Bytes
public_chars = replicate 43 b'P'

abbrev signature_chars : Bytes
signature_chars = replicate 64 b'S'

abbrev claims_chars : Bytes
claims_chars = replicate 8 b'D'

abbrev installation : Bytes
installation = replicate 32 b'I'

abbrev nonce : Bytes
nonce = replicate 16 b'J'

abbrev host_claims : Claims
host_claims = record {
  aud = some (text token_audience);
  role = some (text (role_text host));
  inst = some (text installation);
  iat = some (integer (pos 1000));
  exp = some (integer (pos 1600));
  jti = some (text nonce);
  pk = some (text public_chars);
}

unfoldable encode : Bytes → Bytes
encode b = if all_url_safe b then b ++ padding (length b) else header_chars

unfoldable decode : Bytes → Option Bytes
decode t = if bytes_eq t header_chars then some header_json else some (strip_end t)

abbrev test_library : TokenLibrary
test_library = record {
  urlsafe_b64decode = decode;
  urlsafe_b64encode = encode;
  ed25519_verify = λ k s m. bytes_eq s signature_chars;
  ed25519_sign = λ k m. signature_chars;
  public_bytes = λ k. public_chars;
  loads = λ b. object host_claims;
  dumps = λ c. claims_chars;
  sha256 = λ b. b;
  b32encode = λ b. b;
}

abbrev token : Bytes
token = header_chars ++ b'.' ∷ claims_chars ++ b'.' ∷ signature_chars

mints : mint_host_token test_library [] installation 1000 nonce ≡ ok token
unfolding mint_host_token mint minted_claims signing_input token_of b64url_encode header_b64 encode
    strip_end all_url_safe is_url_safe
mints = refl

verifies :
    verify_routing_token test_library public_chars (some installation) (pos 1200) 30 token
    ≡ ok host_claims
unfolding verify_routing_token verify_split verify_parts b64url_decode_loose check_key check_shape
    check_installation check_lifetime check_moment claims_of read_text read_role read_int
    role_of_text split_dots header_b64 b64url_encode encode decode strip_end all_url_safe
    is_url_safe bytes_eq mercury_relay_plugin.Prelude.◌-ℤ◌
verifies = refl

expires :
    verify_routing_token test_library public_chars (some installation) (pos 1600) 30 token
    ≡ err token_expired
unfolding verify_routing_token verify_split verify_parts b64url_decode_loose check_key check_shape
    check_installation check_lifetime check_moment claims_of read_text read_role read_int
    role_of_text split_dots header_b64 b64url_encode encode decode strip_end all_url_safe
    is_url_safe bytes_eq mercury_relay_plugin.Prelude.◌-ℤ◌
expires = refl

too_long :
    verify_routing_token test_library public_chars none (pos 1200) 30 (replicate 1025 b'.')
    ≡ err invalid_token
unfolding verify_routing_token verify_split verify_parts b64url_decode_loose check_key check_shape
    check_installation check_lifetime check_moment claims_of read_text read_role read_int
    role_of_text split_dots header_b64 b64url_encode encode decode strip_end all_url_safe
    is_url_safe bytes_eq mercury_relay_plugin.Prelude.◌-ℤ◌
too_long = refl

header-Encodes : Encodes test_library header_json
unfolding encode decode all_url_safe is_url_safe bytes_eq strip_end
header-Encodes = record {
  body = header_chars;
  padded = refl;
  safe = refl;
  some_chars = omega arith;
  decodes = refl;
}

claims-Encodes : Encodes test_library claims_chars
unfolding encode decode all_url_safe is_url_safe bytes_eq strip_end
claims-Encodes = record {
  body = claims_chars;
  padded = refl;
  safe = refl;
  some_chars = omega arith;
  decodes = refl;
}

signature-Encodes : Encodes test_library signature_chars
unfolding encode decode all_url_safe is_url_safe bytes_eq strip_end
signature-Encodes = record {
  body = signature_chars;
  padded = refl;
  safe = refl;
  some_chars = omega arith;
  decodes = refl;
}

public-Encodes : Encodes test_library public_chars
unfolding encode decode all_url_safe is_url_safe bytes_eq strip_end
public-Encodes = record {
  body = public_chars;
  padded = refl;
  safe = refl;
  some_chars = omega arith;
  decodes = refl;
}

documented : Documented test_library [] host_claims
unfolding b64url_encode encode strip_end all_url_safe is_url_safe bytes_eq
    mercury_relay_plugin.Prelude.◌-ℤ◌
documented = record {
  header_encodes = header-Encodes;
  claims_encode = claims-Encodes;
  signature_encodes = signature-Encodes;
  key_encodes = public-Encodes;
  key_chars = refl;
  signature_size = refl;
  signs = refl;
  reloads = refl;
}

mint-claims : minted_claims test_library [] host installation 600 1000 nonce ≡ host_claims
unfolding minted_claims b64url_encode encode strip_end all_url_safe is_url_safe
mint-claims = refl

nonce_chars : length (b64url_encode test_library nonce) ≡ 16
unfolding b64url_encode encode strip_end all_url_safe is_url_safe
nonce_chars = refl

verify_routing_token-mint_example :
    verify_routing_token test_library public_chars
      (some (b64url_encode test_library installation))
      (pos 1200)
      30
      token
    ≡ ok (minted_claims test_library [] host installation 600 1000 nonce)
unfolding mint_host_token
verify_routing_token-mint_example =
    verify_routing_token-mint test_library [] host installation nonce token 600 1000 1200 30
      (subst (Documented test_library []) (sym mint-claims) documented)
      (omega (arith, nonce_chars), omega (arith, nonce_chars)) (omega arith) (omega arith)
      (omega arith) mints

abbrev body : Bytes
body = b'A' ∷ b'7' ∷ replicate 22 b'C'

body-IsBody : IsBody body
unfolding all_letters is_letter
body-IsBody = (refl, refl)

other-IsBody : IsBody (b'M' ∷ b'7' ∷ replicate 22 b'C')
unfolding all_letters is_letter
other-IsBody = (refl, refl)

machine_id_check_char-transpose_example :
    (machine_id_check_char body ≡ machine_id_check_char (b'7' ∷ b'A' ∷ replicate 22 b'C'))
    ↔ (value b'A' % 31 ≡ value b'7' % 31)
machine_id_check_char-transpose_example =
    machine_id_check_char-transpose [] (replicate 22 b'C') b'A' b'7' body-IsBody

-- The values of the two are 0 and 31.
swap_is_hidden :
    machine_id_check_char body ≡ machine_id_check_char (b'7' ∷ b'A' ∷ replicate 22 b'C')
unfolding machine_id_check_char all_letters is_letter weighted value letter
swap_is_hidden = refl
