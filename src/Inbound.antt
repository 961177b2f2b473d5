-- ===== src/Inbound.antt =====
-- auth/inbound.py: the verification of a caller's token.
pub mod Tokens
use mcp_portal.Base.{
  Bool, Dict, List, Option, Text, [], any, contains, err, false, filter, if◌then◌else◌, is_empty,
  lookup, nat_eq, none, not, ok, option_eq, some, text, text_eq, true, ℕ, ◌==◌, ◌>>=◌, ◌>>◌, ◌∷◌,
}
use mcp_portal.Json.{Fields, Items, Json, arr, bool, cons, nil, null, num, obj, str}
use mcp_portal.Principal.{AccessToken}
use mcp_portal.Platform.{Platform}
use mcp_portal.Jwks.{Authenticates, JsonResponse, JwksCache, as_text, crashed, key_for, parsed}

-- `[str(s) for s in claims["scp"]]`
unfoldable pub str_values : Platform → Items → List Text
str_values py nil = []
str_values py (cons j r) = py.str_value j ∷ str_values py r

-- `split` is `str.split`, on white space.
unfoldable pub scopes_from_claims : Platform → (Text → List Text) → Dict Text Json → List Text
scopes_from_claims py split claims = elim (lookup (text "scp") claims) [
  | some (arr xs) ↦ str_values py xs
  | _ ↦ elim (as_text (lookup (text "scope") claims)) [
    | some scope ↦ if is_empty scope then [] else split scope
    | none ↦ []
  ]
]

-- What the verifier takes from PyJWT and from Python: `get_unverified_header`, `none` where it
-- raises an `InvalidTokenError`; `decode` with the key of the JWK and with `exp`, `iss` and `aud`
-- required, `none` where one of them raises a `PyJWTError`; `str.split`; `int` of a JSON value;
-- and whether a number is true.
pub record Jwt : Type 0 where
  pub get_unverified_header : Text → Option (Dict Text Json)
  pub decode : Text → Json → Text → Text → Text → ℕ → Option (Dict Text Json)
  pub split : Text → List Text
  pub int : Json → Option ℕ
  pub nonzero : Text → Bool

pub record JwtTokenVerifier : Type 0 where
  pub issuer : Text
  pub audience : Text
  pub algorithms : List Text
  pub required_scopes : List Text
  pub leeway_s : ℕ

-- `frozenset(algorithms) - {"none"}`
unfoldable pub jwt_verifier : Text → Text → List Text → List Text → ℕ → JwtTokenVerifier
jwt_verifier issuer audience algorithms required_scopes leeway_s = record {
  issuer = issuer;
  audience = audience;
  algorithms = filter (λ alg. not (alg == text "none")) algorithms;
  required_scopes = required_scopes;
  leeway_s = leeway_s;
}

-- The algorithm, if it is one of the set's: a list or an object has no hash.
unfoldable pub allowed_algorithm : Option Json → List Text → Authenticates (Option Text)
allowed_algorithm (some (str alg)) algorithms =
    ok (if contains algorithms alg then some alg else none)
allowed_algorithm (some (arr xs)) algorithms = err crashed
allowed_algorithm (some (obj fs)) algorithms = err crashed
allowed_algorithm _ algorithms = ok none

abbrev pub accepted_typ : List Text
accepted_typ = text "at+jwt" ∷ text "jwt" ∷ []

unfoldable pub typ_accepted : Platform → Option Json → Bool
typ_accepted py typ = elim (as_text typ) [
  | none ↦ false
  | some t ↦ contains accepted_typ (py.lower t)
]

-- `raw_details is None or isinstance(raw_details, list)`
abbrev pub details_are_a_list : Option Json → Bool
details_are_a_list none = true
details_are_a_list (some null) = true
details_are_a_list (some (arr xs)) = true
details_are_a_list _ = false

unfoldable pub truthy : Jwt → Json → Bool
truthy jwt null = false
truthy jwt (bool b) = b
truthy jwt (num n) = jwt.nonzero n
truthy jwt (str s) = not (is_empty s)
truthy jwt (arr nil) = false
truthy jwt (arr (cons _ _)) = true
truthy jwt (obj Fields.end) = false
truthy jwt (obj (Fields.field _ _ _)) = true

-- `claims.get(name) or rest`, with `str` of it
unfoldable pub claim_or : Platform → Jwt → Option Json → Text → Text
claim_or py jwt none rest = rest
claim_or py jwt (some j) rest = if truthy jwt j then py.str_value j else rest

-- The SDK's `AccessToken` takes a text or `None` as its `subject`.
abbrev pub subject_of : Option Json → Authenticates (Option Text)
subject_of none = ok none
subject_of (some null) = ok none
subject_of (some (str s)) = ok (some s)
subject_of (some _) = err crashed

module _ (py : Platform) (jwt : Jwt) (verifier : JwtTokenVerifier) (token : Text) where
  unfoldable pub granted_token :
      Dict Text Json → List Text → Json → Option Text → Authenticates AccessToken
  granted_token claims scopes exp subject = elim (jwt.int exp) [
    | none ↦ err crashed
    | some expires_at ↦ ok (record {
      token = token;
      client_id =
          claim_or py jwt (lookup (text "client_id") claims)
            (claim_or py jwt (lookup (text "sub") claims) (text "unknown"));
      scopes = scopes;
      expires_at = some expires_at;
      subject = subject;
      claims = some claims;
    })
  ]

  -- From `raw_details` on.
  unfoldable pub check_claims : Dict Text Json → Authenticates (Option AccessToken)
  check_claims claims =
      let scopes = scopes_from_claims py jwt.split claims in
      if not (details_are_a_list (lookup (text "authorization_details") claims))
      then ok none
      else if any (λ scope. not (contains scopes scope)) verifier.required_scopes
      then ok none
      else (do
        exp ← parsed (lookup (text "exp") claims)
        subject ← subject_of (lookup (text "sub") claims)
        access ← granted_token claims scopes exp subject
        ok (some access))

  -- From `PyJWK.from_dict` on.
  unfoldable pub check_signature : Text → Option Json → Authenticates (Option AccessToken)
  check_signature alg none = ok none
  check_signature alg (some jwk) =
      elim (jwt.decode token jwk alg verifier.issuer verifier.audience verifier.leeway_s) [
        | none ↦ ok none
        | some claims ↦ check_claims claims
      ]

  module _ (client : Text → Option JsonResponse) (jwks_uri : Text) (now : ℕ)
      (cache : JwksCache) where
    unfoldable pub check_key : Text → Option Text → Authenticates (Option AccessToken × JwksCache)
    check_key alg none = ok (none, cache)
    check_key alg (some kid) = do
      found ← key_for client jwks_uri now kid cache
      verdict ← check_signature alg found.0
      ok (verdict, found.1)

    unfoldable pub check_header :
        Dict Text Json → Option Text → Authenticates (Option AccessToken × JwksCache)
    check_header header none = ok (none, cache)
    check_header header (some alg) =
        if not (typ_accepted py (lookup (text "typ") header))
        then ok (none, cache)
        else check_key alg (as_text (lookup (text "kid") header))

    unfoldable pub verify_token : Authenticates (Option AccessToken × JwksCache)
    verify_token = elim (jwt.get_unverified_header token) [
      | none ↦ ok (none, cache)
      | some header ↦
          allowed_algorithm (lookup (text "alg") header) verifier.algorithms >>= check_header header
    ]
