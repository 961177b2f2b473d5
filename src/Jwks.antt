-- ===== src/Jwks.antt =====
-- auth/inbound.py: the discovery of an identity provider's keys, and their cache. Times are counted
-- in milliseconds.
pub mod Discovery
pub mod Keys
use mcp_portal.Base.{
  Bool, Dict, List, Option, Result, Text, [], err, false, if◌then◌else◌, insert, is_empty, leb,
  lookup, ltb, nat_eq, none, not, ok, option_eq, some, text, text_eq, ℕ, ◌&&◌, ◌++◌, ◌-◌, ◌==◌,
  ◌>>=◌, ◌>>◌, ◌∷◌,
}
use mcp_portal.Json.{Fields, Items, Json, arr, cons, fields, nil, obj, str}

-- A response of the HTTP client: `json` is `none` where `response.json()` raises a `ValueError`.
pub record JsonResponse : Type 0 where
  pub status_code : ℕ
  pub json : Option Json

-- What escapes from the code: `undiscovered` is an `InboundAuthError`, `crashed` an exception that
-- no clause of the module names.
pub data AuthFault : Type 0 where
  undiscovered crashed : AuthFault

abbrev pub Authenticates : Type 0 → Type 0
Authenticates A = Result AuthFault A

abbrev pub discovery_suffixes : List Text
discovery_suffixes =
    text "/.well-known/oauth-authorization-server" ∷ text "/.well-known/openid-configuration" ∷ []

-- `issuer.rstrip("/")`
unfoldable pub rstrip_slashes : Text → Text
rstrip_slashes [] = []
rstrip_slashes (c ∷ s) =
    let rest = rstrip_slashes s in if is_empty rest && c == b'/' then [] else c ∷ rest

-- `value.get(name)`: only a `dict` has it.
unfoldable pub get : Text → Json → Authenticates (Option Json)
get name (obj fs) = ok (lookup name (fields fs))
get name _ = err crashed

abbrev pub as_text : Option Json → Option Text
as_text (some (str s)) = some s
as_text _ = none

abbrev pub parsed : Option Json → Authenticates Json
parsed none = err crashed
parsed (some j) = ok j

-- One turn of the loop: the URI that the response names, `none` to go on.
unfoldable pub jwks_uri_of : Option JsonResponse → Authenticates (Option Text)
jwks_uri_of none = ok none
jwks_uri_of (some response) =
    if not (response.status_code == 200)
    then ok none
    else (do payload ← parsed response.json; uri ← get (text "jwks_uri") payload; ok (as_text uri))

-- `client.get`, `none` where it raises an `httpx.RequestError`
module _ (client : Text → Option JsonResponse) where
  unfoldable pub discover : Text → List Text → Authenticates Text
  discover base [] = err undiscovered
  discover base (suffix ∷ suffixes) = jwks_uri_of (client (base ++ suffix)) >>= λ uri. elim uri [
    | none ↦ discover base suffixes
    | some u ↦ ok u
  ]

  unfoldable pub discover_jwks_uri : Text → Authenticates Text
  discover_jwks_uri issuer = discover (rstrip_slashes issuer) discovery_suffixes

-- `_last_refresh` is `none` for minus infinity.
pub record JwksCache : Type 0 where
  pub keys : Dict Text Json
  pub last_refresh : Option ℕ

abbrev pub no_keys : JwksCache
no_keys = record { keys = []; last_refresh = none }

abbrev pub refresh_interval : ℕ
refresh_interval = 60000

unfoldable pub is_recent : ℕ → Option ℕ → Bool
is_recent now none = false
is_recent now (some last) = ltb (now - last) refresh_interval

-- `for jwk in keys: …`
unfoldable pub add_keys : Items → Dict Text Json → Authenticates (Dict Text Json)
add_keys nil known = ok known
add_keys (cons jwk rest) known = do
  kid ← get (text "kid") jwk
  add_keys rest (elim (as_text kid) [ none ↦ known | some k ↦ insert k jwk known ])

-- What the loop runs over: an array, or nothing where a text or an object is empty; each item of
-- one that is not is a text, which has no `get`.
unfoldable pub listed_keys : Option Json → Authenticates Items
listed_keys none = ok nil
listed_keys (some (arr xs)) = ok xs
listed_keys (some (obj Fields.end)) = ok nil
listed_keys (some (str [])) = ok nil
listed_keys (some _) = err crashed

-- The keys after a fetch, or `none` after an `httpx.HTTPError`, which `raise_for_status` raises
-- too unless the status is between 200 and 299.
unfoldable pub fetched_keys :
    Option JsonResponse → Dict Text Json → Authenticates (Option (Dict Text Json))
fetched_keys none known = ok none
fetched_keys (some response) known =
    if not (leb 200 response.status_code && leb response.status_code 299) then ok none else (do
      payload ← parsed response.json
      listed ← get (text "keys") payload
      jwks ← listed_keys listed
      after ← add_keys jwks known
      ok (some after))

abbrev pub refreshed : ℕ → Option (Dict Text Json) → JwksCache → JwksCache
refreshed now none cache = record cache { last_refresh = some now }
refreshed now (some known) cache = record { keys = known; last_refresh = some now }

module _ (client : Text → Option JsonResponse) (jwks_uri : Text) where
  -- `_maybe_refresh` at `now`, which no other call meets: the lock is free.
  unfoldable pub maybe_refresh : ℕ → JwksCache → Authenticates JwksCache
  maybe_refresh now cache = if is_recent now cache.last_refresh then ok cache else (do
    fetched ← fetched_keys (client jwks_uri) cache.keys
    ok (refreshed now fetched cache))

  unfoldable pub key_for : ℕ → Text → JwksCache → Authenticates (Option Json × JwksCache)
  key_for now kid cache = elim (lookup kid cache.keys) [
    | some key ↦ ok (some key, cache)
    | none ↦ do after ← maybe_refresh now cache; ok (lookup kid after.keys, after)
  ]
