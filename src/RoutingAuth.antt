-- ===== src/RoutingAuth.antt =====
-- src/mercury_relay_plugin/routing_auth.py: the routing tokens, minted and verified.
-- A text is the list of its codes. `TokenLibrary` stands for base64, Ed25519 and JSON.
pub mod Verify
pub mod Mint
pub mod MachineId
mod Tests
use mercury_relay_plugin.Prelude.{
  ℕ, ◌+◌, ◌-◌, ◌%◌, ◌*◌, Bool, true, false, not, ◌&&◌, ◌||◌, Option, none, some, List, [], ◌∷◌,
  ◌++◌, Bytes, bytes_eq, length, replicate, ltb, leb, ◌==◌, if◌then◌else◌, Result, ok, err, guard,
  or_fail, ◌>>=◌, ◌>>◌, ℤ, pos, ◌-ℤ◌, ltb_ℤ, leb_ℤ,
}

pub data Reason : Type 0 where
  invalid_token invalid_signature invalid_claims token_expired : Reason
  invalid_role invalid_installation_id invalid_ttl token_too_large : Reason
  invalid_machine_id invalid_issuer_key unhashable_role : Reason

pub data Role : Type 0 where
  host pairing_device authorized_device : Role

-- A JSON value of a claim; `unhashable` is an array or an object.
pub data Value : Type 0 where
  text : Bytes → Value
  integer : ℤ → Value
  unhashable other : Value

-- A decoded object: what `get` gives for the keys that the code reads.
pub record Claims : Type 0 where
  pub aud : Option Value
  pub role : Option Value
  pub inst : Option Value
  pub iat : Option Value
  pub exp : Option Value
  pub jti : Option Value
  pub pk : Option Value

pub data Decoded : Type 0 where
  not_json not_object : Decoded
  object : Claims → Decoded

pub record TokenLibrary : Type 0 where
  pub urlsafe_b64decode : Bytes → Option Bytes
  pub urlsafe_b64encode : Bytes → Bytes
  pub ed25519_verify : Bytes → Bytes → Bytes → Bool
  pub ed25519_sign : Bytes → Bytes → Bytes
  pub public_bytes : Bytes → Bytes
  pub loads : Bytes → Decoded
  pub dumps : Claims → Bytes
  pub sha256 : Bytes → Bytes
  pub b32encode : Bytes → Bytes

abbrev pub token_audience : Bytes
token_audience =
    b'm' ∷ b'e' ∷ b'r' ∷ b'c' ∷ b'u' ∷ b'r' ∷ b'y' ∷ b'-' ∷ b'r' ∷ b'e' ∷ b'l' ∷ b'a' ∷ b'y' ∷ []

abbrev pub role_text : Role → Bytes
role_text host = b'h' ∷ b'o' ∷ b's' ∷ b't' ∷ []
role_text pairing_device =
    b'p' ∷ b'a' ∷ b'i' ∷ b'r' ∷ b'i' ∷ b'n' ∷ b'g' ∷ b'_' ∷ b'd' ∷ b'e' ∷ b'v' ∷ b'i' ∷ b'c' ∷ b'e'
    ∷ []
role_text authorized_device =
    b'a' ∷ b'u' ∷ b't' ∷ b'h' ∷ b'o' ∷ b'r' ∷ b'i' ∷ b'z' ∷ b'e' ∷ b'd' ∷ b'_' ∷ b'd' ∷ b'e' ∷ b'v'
    ∷ b'i' ∷ b'c' ∷ b'e' ∷ []

-- `MAX_TOKEN_LIFETIME_SECONDS`
abbrev pub max_lifetime : Role → ℕ
max_lifetime host = 3_600
max_lifetime pairing_device = 900
max_lifetime authorized_device = 45 * 24 * 3_600

abbrev pub max_token_chars : ℕ
max_token_chars = 1024

abbrev pub max_jti_chars : ℕ
max_jti_chars = 64

-- `_HEADER_JSON`
abbrev pub header_json : Bytes
header_json =
    b'{' ∷ b'"' ∷ b'a' ∷ b'l' ∷ b'g' ∷ b'"' ∷ b':' ∷ b'"' ∷ b'E' ∷ b'd' ∷ b'D' ∷ b'S' ∷ b'A' ∷ b'"'
    ∷ b',' ∷ b'"' ∷ b't' ∷ b'y' ∷ b'p' ∷ b'"' ∷ b':' ∷ b'"' ∷ b'm' ∷ b'r' ∷ b't' ∷ b'1' ∷ b'"'
    ∷ b'}' ∷ []

-- `s.rstrip("=")`
abbrev pub onto_stripped : ℕ → Bytes → Bytes
onto_stripped c [] = if c == b'=' then [] else c ∷ []
onto_stripped c (x ∷ xs) = c ∷ (x ∷ xs)

unfoldable pub strip_end : Bytes → Bytes
strip_end [] = []
strip_end (c ∷ cs) = onto_stripped c (strip_end cs)

-- `token.split(".")`
abbrev pub onto_first : ℕ → List Bytes → List Bytes
onto_first c [] = (c ∷ []) ∷ []
onto_first c (part ∷ parts) = (c ∷ part) ∷ parts

unfoldable pub split_dots : Bytes → List Bytes
split_dots [] = [] ∷ []
split_dots (c ∷ cs) = let rest = split_dots cs in if c == b'.' then [] ∷ rest else onto_first c rest

-- `[A-Za-z0-9_-]`
unfoldable pub is_url_safe : ℕ → Bool
is_url_safe c =
    (leb b'A' c && leb c b'Z')
    || (leb b'a' c && leb c b'z')
    || (leb b'0' c && leb c b'9')
    || (c == b'_')
    || (c == b'-')

unfoldable pub all_url_safe : Bytes → Bool
unfolding is_url_safe
all_url_safe [] = true
all_url_safe (c ∷ cs) = is_url_safe c && all_url_safe cs

abbrev pub padding : ℕ → Bytes
padding n = replicate ((4 - n % 4) % 4) b'='

-- `claims.get("role")` as a role: it may raise on a list or an object.
unfoldable pub role_of_text : Bytes → Option Role
role_of_text b =
    if bytes_eq b (role_text host)
    then some host
    else if bytes_eq b (role_text pairing_device)
    then some pairing_device
    else if bytes_eq b (role_text authorized_device)
    then some authorized_device
    else none

unfoldable pub read_role : Option Value → Result Reason Role
unfolding role_of_text
read_role none = err invalid_claims
read_role (some (text b)) = or_fail (role_of_text b) invalid_claims
read_role (some (integer n)) = err invalid_claims
read_role (some unhashable) = err unhashable_role
read_role (some other) = err invalid_claims

unfoldable pub read_text : Option Value → Result Reason Bytes
read_text none = err invalid_claims
read_text (some (text b)) = ok b
read_text (some (integer n)) = err invalid_claims
read_text (some unhashable) = err invalid_claims
read_text (some other) = err invalid_claims

unfoldable pub read_int : Option Value → Result Reason ℤ
read_int none = err invalid_claims
read_int (some (text b)) = err invalid_claims
read_int (some (integer n)) = ok n
read_int (some unhashable) = err invalid_claims
read_int (some other) = err invalid_claims

-- What the checks have read of the claims.
pub record Checked : Type 0 where
  pub role : Role
  pub inst : Bytes
  pub iat : ℤ
  pub exp : ℤ

-- The disjunction of the shape tests, in its order.
unfoldable pub check_shape : Claims → Result Reason Checked
check_shape c = do
  aud ← read_text c.aud
  guard (bytes_eq aud token_audience) invalid_claims
  role ← read_role c.role
  inst ← read_text c.inst
  iat ← read_int c.iat
  exp ← read_int c.exp
  jti ← read_text c.jti
  guard (leb 1 (length jti) && leb (length jti) max_jti_chars) invalid_claims
  ok (record { role = role; inst = inst; iat = iat; exp = exp })

unfoldable pub check_installation : Option Bytes → Checked → Result Reason (Unit {0})
check_installation none k = ok tt
check_installation (some installation) k = guard (bytes_eq k.inst installation) invalid_claims

unfoldable pub check_lifetime : Checked → Result Reason (Unit {0})
check_lifetime k =
    guard (leb_ℤ (pos 1) (k.exp -ℤ k.iat) && leb_ℤ (k.exp -ℤ k.iat) (pos (max_lifetime k.role)))
      invalid_claims

unfoldable pub check_moment : ℤ → ℕ → Checked → Result Reason (Unit {0})
check_moment moment skew k =
    guard (not (ltb_ℤ moment (k.iat -ℤ pos skew)) && ltb_ℤ moment k.exp) token_expired

-- `json.loads`, and the test that it gave an object
unfoldable pub claims_of : Decoded → Result Reason Claims
claims_of not_json = err invalid_token
claims_of not_object = err invalid_claims
claims_of (object c) = ok c

module _ (lib : TokenLibrary) where
  -- `_b64url_encode`
  unfoldable pub b64url_encode : Bytes → Bytes
  b64url_encode b = strip_end (lib.urlsafe_b64encode b)

  -- `_HEADER_B64`
  unfoldable pub header_b64 : Bytes
  header_b64 = b64url_encode header_json

  -- `_b64url_decode_loose`
  unfoldable pub b64url_decode_loose : Bytes → Result Reason Bytes
  b64url_decode_loose segment = do
    guard (not (length segment == 0) && all_url_safe segment) invalid_token
    or_fail (lib.urlsafe_b64decode (segment ++ padding (length segment))) invalid_token

  unfoldable pub check_key : Bytes → Option Value → Result Reason (Unit {0})
  check_key public_key none = ok tt
  check_key public_key (some pk) = do
    key ← read_text (some pk)
    guard (length key == 43) invalid_claims
    named ← b64url_decode_loose key
    guard (bytes_eq named public_key) invalid_signature

  -- What follows once the three parts of the token are at hand.
  unfoldable pub verify_parts :
      Bytes → Option Bytes → ℤ → ℕ → Bytes → Bytes → Bytes → Result Reason Claims
  verify_parts public_key installation moment skew header claims_b64 signature_b64 = do
    guard (bytes_eq header header_b64) invalid_token
    claims_raw ← b64url_decode_loose claims_b64
    signature ← b64url_decode_loose signature_b64
    guard (length signature == 64) invalid_token
    guard (lib.ed25519_verify public_key signature (header ++ b'.' ∷ claims_b64)) invalid_signature
    c ← claims_of (lib.loads claims_raw)
    k ← check_shape c
    check_installation installation k
    check_key public_key c.pk
    check_lifetime k
    check_moment moment skew k
    ok c

  unfoldable pub verify_split : Bytes → Option Bytes → ℤ → ℕ → List Bytes → Result Reason Claims
  verify_split public_key installation moment skew (h ∷ c ∷ s ∷ []) =
      verify_parts public_key installation moment skew h c s
  verify_split public_key installation moment skew parts = err invalid_token

  -- `verify_routing_token`, where `moment` is `now` or the reading of the clock.
  unfoldable pub verify_routing_token : Bytes → Option Bytes → ℤ → ℕ → Bytes → Result Reason Claims
  verify_routing_token public_key installation moment skew token = do
    guard (leb 1 (length token) && leb (length token) max_token_chars) invalid_token
    verify_split public_key installation moment skew (split_dots token)

  -- `RoutingTokenIssuer.mint`, at a reading `now` of the clock and with a fresh `jti`.
  unfoldable pub minted_claims : Bytes → Role → Bytes → ℕ → ℕ → Bytes → Claims
  minted_claims private_key role installation_id ttl now jti = record {
    aud = some (text token_audience);
    role = some (text (role_text role));
    inst = some (text (b64url_encode installation_id));
    iat = some (integer (pos now));
    exp = some (integer (pos (now + ttl)));
    jti = some (text (b64url_encode jti));
    pk = some (text (b64url_encode (lib.public_bytes private_key)));
  }

  unfoldable pub signing_input : Claims → Bytes
  signing_input c = header_b64 ++ b'.' ∷ b64url_encode (lib.dumps c)

  unfoldable pub token_of : Bytes → Claims → Bytes
  token_of private_key c =
      signing_input c ++ b'.' ∷ b64url_encode (lib.ed25519_sign private_key (signing_input c))

  unfoldable pub mint : Bytes → Role → Bytes → ℕ → ℕ → Bytes → Result Reason Bytes
  mint private_key role installation_id ttl now jti = do
    guard (length installation_id == 32) invalid_installation_id
    guard (not (ltb ttl 1)) invalid_ttl
    let token = token_of private_key (minted_claims private_key role installation_id ttl now jti)
    guard (not (ltb max_token_chars (length token))) token_too_large
    ok token

  -- `mint_host_token`
  unfoldable pub mint_host_token : Bytes → Bytes → ℕ → Bytes → Result Reason Bytes
  mint_host_token private_key installation_id now jti =
      mint private_key host installation_id 600 now jti
