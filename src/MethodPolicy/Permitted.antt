-- ===== src/MethodPolicy/Permitted.antt =====
-- The requests that method_policy.py lets pass.
use Prim.Native.String.{String}
use text.Mathlib.Text as Text
use text.Mathlib.TextEquality.{eq_iff}
use mercury_relay_plugin.Prelude.{
  ◌≡◌, ◌≢◌, refl, sym, ap, ◌∙◌, ◌↔◌, ◌⊎◌, inl, inr, Bool, Bool-cases, true, false, not, ◌||◌,
  Option, none, some, List, Result, ok, err, guard, bind_returns, guard_returns, ok_injective, ℤ,
  arith,
}
use mercury_relay_plugin.StrictJson.{
  Json, null, constant, decimal, boolean, integer, string, array, object, Fields, no_field, get,
  has_key, StrictJsonError, loads_strict,
}
use mercury_relay_plugin.StrictJson.Keys.{is_strict, loads_strict_iff}
use mercury_relay_plugin.MethodPolicy.{
  Reason, invalid_request, invalid_params, profile_not_available, Policy, is_member, request_fields,
  only_fields, is_text, is_correlated, is_allowed, mapping, params_of, validate_profile_id,
  authorizes, is_permitted, check_profile, parsed, validate_text,
}

abbrev pub IsId : Option Json → Type 0
IsId o = ((n : ℤ) × (o ≡ some (integer n))) ⊎ ((t : String) × (o ≡ some (string t)) × (t ≢ ""))

abbrev pub IsMethod : List String → Option Json → Type 0
IsMethod names o = (m : String) × (o ≡ some (string m)) × (is_member m names ≡ true)

-- The parameters are there, or none are.
abbrev pub HasParams : Option Json → Fields → Type 0
HasParams o params = ((o ≡ none) × (params ≡ no_field)) ⊎ (o ≡ some (object params))

-- The installation's own profile, or one that its authorizer answers `True` for.
abbrev pub IsAvailable : String → Option (String → Option Bool) → String → Type 0
IsAvailable own authorizer profile =
    (validate_profile_id profile ≡ true)
    × (((authorizer ≡ none) × (profile ≡ own))
        ⊎ ((ask : String → Option Bool) × (authorizer ≡ some ask) × (ask profile ≡ some true)))

abbrev pub IsProfile : Policy → Option Json → Type 0
IsProfile policy o =
    (o ≡ none)
    ⊎ ((o ≡ some null)
        ⊎ ((profile : String) × (o ≡ some (string profile))
            × IsAvailable policy.profile policy.profile_authorizer profile))

-- What a request has to be.
pub record IsPermitted (policy : Policy) (loads : String → Option Json) (raw : String)
    : Type 0 where
  pub request : Fields
  pub loaded : loads raw ≡ some (object request)
  pub strict : is_strict (object request) ≡ true
  pub version : get "jsonrpc" request ≡ some (string "2.0")
  pub known : only_fields request_fields request ≡ true
  pub id : IsId (get "id" request)
  pub method : IsMethod policy.allowed_methods (get "method" request)
  pub params : Fields
  pub given : HasParams (get "params" request) params
  pub unprivileged :
      (has_key "auth_identity" params ≡ false) × (has_key "principal_id" params ≡ false)
  pub profile : IsProfile policy (get "profile" params)

pub is_text-returns : (s : String) (o : Option Json) → is_text s o ≡ true → o ≡ some (string s)
unfolding is_text
is_text-returns s none e = cc
is_text-returns s (some null) e = cc
is_text-returns s (some constant) e = cc
is_text-returns s (some decimal) e = cc
is_text-returns s (some (boolean b)) e = cc
is_text-returns s (some (integer n)) e = cc
is_text-returns s (some (string t)) e = ap (λ z. some (string z)) ((eq_iff t s).0 e)
is_text-returns s (some (array xs)) e = cc
is_text-returns s (some (object fs)) e = cc

pub is_text_iff : (s : String) (o : Option Json) → (is_text s o ≡ true) ↔ (o ≡ some (string s))
unfolding is_text
is_text_iff s o = (is_text-returns s o, λ e. rw e ((eq_iff s s).1 refl))

is_correlated-IsId : (o : Option Json) → is_correlated o ≡ true → IsId o
unfolding is_correlated
is_correlated-IsId none e = cc
is_correlated-IsId (some null) e = cc
is_correlated-IsId (some constant) e = cc
is_correlated-IsId (some decimal) e = cc
is_correlated-IsId (some (boolean b)) e = cc
is_correlated-IsId (some (integer n)) e = inl (n, refl)
is_correlated-IsId (some (string t)) e =
    inr (t, refl, λ empty. absurd (ground (arith, e, (eq_iff t "").1 empty)))
is_correlated-IsId (some (array xs)) e = cc
is_correlated-IsId (some (object fs)) e = cc

IsId-is_correlated : (o : Option Json) → IsId o → is_correlated o ≡ true
unfolding is_correlated
IsId-is_correlated o (inl (n, e)) = rw e refl
IsId-is_correlated o (inr (t, e, filled)) = rw e (elim (Bool-cases (Text.◌==◌ t "")) [
  | inl h ↦ absurd (filled ((eq_iff t "").0 h))
  | inr h ↦ ap not h
])

is_allowed-IsMethod :
    (names : List String) (o : Option Json) → is_allowed names o ≡ true → IsMethod names o
unfolding is_allowed
is_allowed-IsMethod names none e = cc
is_allowed-IsMethod names (some null) e = cc
is_allowed-IsMethod names (some constant) e = cc
is_allowed-IsMethod names (some decimal) e = cc
is_allowed-IsMethod names (some (boolean b)) e = cc
is_allowed-IsMethod names (some (integer n)) e = cc
is_allowed-IsMethod names (some (string t)) e = (t, refl, e)
is_allowed-IsMethod names (some (array xs)) e = cc
is_allowed-IsMethod names (some (object fs)) e = cc

IsMethod-is_allowed :
    (names : List String) (o : Option Json) → IsMethod names o → is_allowed names o ≡ true
unfolding is_allowed
IsMethod-is_allowed names o (m, e, h) = rw e h

authorizes-returns : (o : Option Bool) → authorizes o ≡ true → o ≡ some true
unfolding authorizes
authorizes-returns none h = cc
authorizes-returns (some b) h = ap some h

is_permitted-IsAvailable :
    (own profile : String) (authorizer : Option (String → Option Bool))
    → is_permitted own authorizer profile ≡ true
    → IsAvailable own authorizer profile
unfolding is_permitted
is_permitted-IsAvailable own profile none e =
    (ground (arith, e), inl (refl, (eq_iff profile own).0 (ground (arith, e))))
is_permitted-IsAvailable own profile (some ask) e =
    (ground (arith, e), inr (ask, refl, authorizes-returns (ask profile) (ground (arith, e))))

mapping-returns :
    (reason : Reason) (v : Json) (fs : Fields) → mapping reason v ≡ ok fs → v ≡ object fs
unfolding mapping
mapping-returns reason null fs e = cc
mapping-returns reason constant fs e = cc
mapping-returns reason decimal fs e = cc
mapping-returns reason (boolean b) fs e = cc
mapping-returns reason (integer n) fs e = cc
mapping-returns reason (string t) fs e = cc
mapping-returns reason (array xs) fs e = cc
mapping-returns reason (object gs) fs e = ap object (ok_injective e)

params_of-returns :
    (o : Option Json) (params : Fields) → params_of o ≡ ok params → HasParams o params
unfolding params_of
params_of-returns none params e = inl (refl, sym (ok_injective e))
params_of-returns (some v) params e = inr (ap some (mapping-returns invalid_params v params e))

HasParams-params_of :
    (o : Option Json) (params : Fields) → HasParams o params → params_of o ≡ ok params
unfolding params_of mapping
HasParams-params_of o params (inl (e, none_given)) = rw (e, none_given) refl
HasParams-params_of o params (inr e) = rw e refl

IsAvailable-is_permitted :
    (own profile : String) (authorizer : Option (String → Option Bool))
    → IsAvailable own authorizer profile
    → is_permitted own authorizer profile ≡ true
unfolding is_permitted authorizes
IsAvailable-is_permitted own profile authorizer (h, inl (e, same)) =
    rw (e, h) ((eq_iff profile own).1 same)
IsAvailable-is_permitted own profile authorizer (h, inr (ask, e, granted)) = rw (e, h, granted) refl

passes : (test : Bool) (e : Reason) → guard test e ≡ ok tt → test ≡ true
passes true e h = refl
passes false e h = cc

check_profile-IsProfile :
    (policy : Policy) (o : Option Json) → check_profile policy o ≡ ok tt → IsProfile policy o
unfolding check_profile
check_profile-IsProfile policy none e = inl refl
check_profile-IsProfile policy (some null) e = inr (inl refl)
check_profile-IsProfile policy (some constant) e = cc
check_profile-IsProfile policy (some decimal) e = cc
check_profile-IsProfile policy (some (boolean b)) e = cc
check_profile-IsProfile policy (some (integer n)) e = cc
check_profile-IsProfile policy (some (string t)) e = inr (
    inr (
      t,
      refl,
      is_permitted-IsAvailable policy.profile t policy.profile_authorizer
          (passes _ profile_not_available e),
    ))
check_profile-IsProfile policy (some (array xs)) e = cc
check_profile-IsProfile policy (some (object fs)) e = cc

IsProfile-check_profile :
    (policy : Policy) (o : Option Json) → IsProfile policy o → check_profile policy o ≡ ok tt
unfolding check_profile
IsProfile-check_profile policy o (inl e) = rw e refl
IsProfile-check_profile policy o (inr (inl e)) = rw e refl
IsProfile-check_profile policy o (inr (inr (t, e, h))) =
    rw (e, IsAvailable-is_permitted policy.profile t policy.profile_authorizer h) refl

parsed-returns : (r : Result StrictJsonError Json) (v : Json) → parsed r ≡ ok v → r ≡ ok v
unfolding parsed
parsed-returns (ok w) v e = ap ok (ok_injective e)
parsed-returns (err x) v e = cc

module _ (policy : Policy) (loads : String → Option Json) where
  validate_text-IsPermitted :
      (raw reply : String)
      → validate_text policy loads raw ≡ ok reply
      → (reply ≡ raw) × IsPermitted policy loads raw
  unfolding validate_text
  validate_text-IsPermitted raw reply e =
      let (value, l, e1) = bind_returns (parsed (loads_strict loads raw)) _ e in
      let (request, m, e2) = bind_returns (mapping invalid_request value) _ e1 in
      let (version, e3) = guard_returns (is_text "2.0" (get "jsonrpc" request)) _ _ e2 in
      let (known, e4) = guard_returns (only_fields request_fields request) _ _ e3 in
      let (id, e5) = guard_returns (is_correlated (get "id" request)) _ _ e4 in
      let (method, e6) =
        guard_returns (is_allowed policy.allowed_methods (get "method" request)) _ _ e5 in
      let (params, p, e7) = bind_returns (params_of (get "params" request)) _ e6 in
      let (unprivileged, e8) =
        guard_returns (not (has_key "auth_identity" params || has_key "principal_id" params)) _ _
          e7 in
      let (_, profile, e9) = bind_returns (check_profile policy (get "profile" params)) _ e8 in
      let is_object : value ≡ object request = mapping-returns invalid_request value request m in
      let (tree, strict) = (loads_strict_iff loads raw value).0 (parsed-returns _ value l) in
      (
        sym (ok_injective e9),
        record {
          request = request;
          loaded = tree ∙ ap some is_object;
          strict = ap is_strict (sym is_object) ∙ strict;
          version = is_text-returns "2.0" _ version;
          known = known;
          id = is_correlated-IsId _ id;
          method = is_allowed-IsMethod _ _ method;
          params = params;
          given = params_of-returns _ params p;
          unprivileged = (ground (arith, unprivileged), ground (arith, unprivileged));
          profile = check_profile-IsProfile policy _ profile;
        },
      )

  IsPermitted-validate_text :
      (raw : String) → IsPermitted policy loads raw → validate_text policy loads raw ≡ ok raw
  unfolding validate_text parsed mapping
  IsPermitted-validate_text raw p =
      let version : is_text "2.0" (get "jsonrpc" p.request) ≡ true =
        (is_text_iff "2.0" _).1 p.version in
      rw
        (
          (loads_strict_iff loads raw (object p.request)).1 (p.loaded, p.strict),
          version,
          p.known,
          IsId-is_correlated _ p.id,
          IsMethod-is_allowed _ _ p.method,
          HasParams-params_of _ _ p.given,
          p.unprivileged.0,
          p.unprivileged.1,
          IsProfile-check_profile policy _ p.profile,
        )
        refl

  -- The policy returns a text exactly if it is the request's own, and the request is strict JSON and an
  -- object of version 2.0 with known fields, a correlated identifier, an allowed method, parameters (or none)
  -- without a privileged identity, and no profile or one that is available.
  pub validate_text_iff :
      (raw reply : String)
      → (validate_text policy loads raw ≡ ok reply) ↔ ((reply ≡ raw) × IsPermitted policy loads raw)
  validate_text_iff raw reply = (
    validate_text-IsPermitted raw reply,
    λ (same, p). IsPermitted-validate_text raw p ∙ ap ok (sym same),
  )
