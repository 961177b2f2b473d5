-- ===== src/Tests/Tokens.antt =====
-- The theorems on tokens, their caches and their verification, at a clerk's tokens.
use mcp_portal.Base.{
  Dict, Option, Text, [], arith, contains, err, insert_by, join, lookup, nat_eq, none, ok,
  option_eq, refl, some, sorted_by, text, text_eq, text_le, true, ◌*◌, ◌+◌, ◌-◌, ◌<◌, ◌>>=◌, ◌↔◌,
  ◌∷◌, ◌≡◌, ◌≢◌, ◌⊎◌,
}
use mcp_portal.Json.{Fields, Json, arr, cons, nil, num, obj, str}
use mcp_portal.Principal.{AccessToken}
use mcp_portal.TokenCache.{
  Clock, Entries, erase_all, expired, get_or_fetch, live, purge_expired, store,
}
use mcp_portal.TokenCache.Lifetime.{get_or_fetch-live}
use mcp_portal.Outbound.{
  ClientCredentialsSource, CredentialError, Idp, TokenExchangeSource, bearer, credentials_fetch,
  exchange_fetch, exchange_key, expires_in, expiry_leeway, get_exchanged, post_token_request,
  read_response, read_token, subject_ttl,
}
use mcp_portal.Outbound.Sent.{Posts, token_requests-Carries}
use mcp_portal.Config.{client_credentials}
use mcp_portal.Outbound.Exchange.{exchange_key_iff, get_exchanged-expiry}
use mcp_portal.Jwks.{
  AuthFault, JsonResponse, JwksCache, add_keys, discover, discover_jwks_uri, fetched_keys, get,
  is_recent, jwks_uri_of, key_for, listed_keys, maybe_refresh, no_keys,
}
use mcp_portal.Inbound.{
  Jwt, JwtTokenVerifier, allowed_algorithm, check_claims, check_header, check_key, check_signature,
  claim_or, granted_token, jwt_verifier, scopes_from_claims, str_values, truthy, typ_accepted,
  verify_token,
}
use mcp_portal.Jwks.Keys.{IsQuiet, Unreadable, key_for-limited}
use mcp_portal.Inbound.Tokens.{IsVerified, verify_token-IsVerified}
use mcp_portal.Tests.{ascii, orders_read, shop}

abbrev morning : Clock
morning = record { looked = 10; stored = 20; purged = 30 }

abbrev held : Entries
held = (text "a", record { value = text "old"; expires_at = 25 }) ∷ []

held_is_dead : live morning.looked (lookup (text "b") held) ≡ none
unfolding live text_eq
held_is_dead = refl

get_or_fetch-live_example :
    live 40 (
      lookup
        (text "b")
        (get_or_fetch {E = CredentialError} morning (text "b") (ok (text "new", 100)) held).1)
    ≡ some (text "new")
unfolding text_eq
get_or_fetch-live_example =
    get_or_fetch-live CredentialError morning (text "b") (text "b") (text "new") 100 40 held
      (omega arith) held_is_dead

abbrev idp : Idp
idp = record {
  post = λ request. some (record {
    status_code = 200;
    json = some (
        obj (
          Fields.field (text "access_token") (str (text "t"))
            (Fields.field (text "expires_in") (num (text "3600")) Fields.end)));
  });
  float_ms = λ j. some 3600000;
  hash_text = λ s. text "17";
  hash_details = λ ds. text "19";
  show_scopes = λ ss. text "()";
}

abbrev source : TokenExchangeSource
source = record {
  token_endpoint = text "https://idp/token";
  client_id = text "portal";
  client_secret = text "s";
  requested_token_type = text "jwt";
  scopes = [];
  upstream_key = text "shop";
  audience = none;
  resource = none;
}

abbrev exchanged_key : Text
exchanged_key = exchange_key ascii idp source (text "u") (orders_read ∷ [])

-- Two subject tokens of one hash share a key.
exchange_key_iff_example :
    (exchange_key ascii idp source (text "u") [] ≡ exchange_key ascii idp source (text "v") [])
    ↔ (text "17" ≡ text "17") × (text "19" ≡ text "19")
unfolding nat_eq
exchange_key_iff_example = exchange_key_iff ascii idp source (text "u") (text "v") [] [] (λ u. refl)

nothing_exchanged : live morning.looked (lookup exchanged_key []) ≡ none
unfolding live
nothing_exchanged = refl

-- The subject token lasts until 100 s after the epoch.
exchanged :
    live 1000 (
      lookup exchanged_key
        (get_exchanged ascii idp source morning 20
          (orders_read ∷ [])
          (some (text "u"))
          (some 100)
          []).1)
    ≡ some (text "t")
unfolding live get_exchanged bearer get_or_fetch exchange_fetch post_token_request read_response
    nat_eq read_token text_eq expires_in store purge_expired erase_all expired exchange_key
    subject_ttl insert_by join sorted_by text_le
exchanged = refl

get_exchanged-expiry_example : 20 + (1000 - 20) + expiry_leeway < 1000 * 100
get_exchanged-expiry_example =
    get_exchanged-expiry ascii idp source morning 20 1000 100 (orders_read ∷ []) (text "u")
      (text "t") [] (omega arith) (omega arith) (omega arith) nothing_exchanged exchanged

abbrev minting : ClientCredentialsSource
minting = record {
  outbound = record shop.auth.outbound {
    mode = client_credentials;
    token_endpoint = some (text "https://idp/token");
    client_id = some (text "portal");
    client_secret = some (text "env:S");
  };
  secrets = (text "env:S", text "s") ∷ [];
  upstream_key = text "shop";
}

secret_loaded : lookup (text "env:S") minting.secrets ≡ some (text "s")
unfolding text_eq
secret_loaded = refl

token_requests-Carries_example :
    Posts ascii idp
      (text "https://idp/token")
      (text "portal")
      (text "s")
      (orders_read ∷ [])
      (λ posted. posted)
      (credentials_fetch ascii idp minting (orders_read ∷ []))
    × Posts ascii idp
        (text "https://idp/token")
        (text "portal")
        (text "s")
        (orders_read ∷ [])
        (λ posted. do minted ← posted; ok (minted.0, subject_ttl ascii idp 20 (some 100) minted.1))
        (exchange_fetch ascii idp source 20 (orders_read ∷ []) (text "u") (some 100))
token_requests-Carries_example =
    token_requests-Carries ascii idp minting source (orders_read ∷ []) (text "https://idp/token")
      (text "portal") (text "env:S") (text "s") (text "u") 20 (some 100) refl refl refl
      secret_loaded

abbrev jwk : Json
jwk = obj (Fields.field (text "kid") (str (text "k")) Fields.end)

abbrev jwks_client : Text → Option JsonResponse
jwks_client uri = some (record {
  status_code = 200;
  json = some (obj (Fields.field (text "keys") (arr (cons jwk nil)) Fields.end));
})

abbrev filled : JwksCache
filled = record { keys = (text "k", jwk) ∷ []; last_refresh = some 5 }

key_fetched :
    key_for jwks_client (text "https://idp/keys") 5 (text "k") no_keys ≡ ok (some jwk, filled)
unfolding key_for maybe_refresh is_recent fetched_keys get listed_keys text_eq add_keys
key_fetched = refl

key_for-limited_example :
    ((e : AuthFault) × (key_for jwks_client (text "https://idp/keys") 5 (text "k") no_keys ≡ err e)
      × Unreadable (jwks_client (text "https://idp/keys")))
    ⊎ ((found : Option Json) × (after : JwksCache) × (key_for jwks_client
            (text "https://idp/keys")
            5
            (text "k")
            no_keys
          ≡ ok (found, after))
        × IsQuiet 5 no_keys after)
key_for-limited_example =
    key_for-limited jwks_client (text "https://idp/keys") 5 (text "k") no_keys refl

abbrev metadata : Text → Option JsonResponse
metadata uri = some (record {
  status_code = 200;
  json = some (obj (Fields.field (text "jwks_uri") (str (text "https://idp/keys")) Fields.end));
})

uri_found : discover_jwks_uri metadata (text "https://idp/") ≡ ok (text "https://idp/keys")
unfolding discover_jwks_uri discover jwks_uri_of nat_eq get text_eq
uri_found = refl

abbrev claims : Dict Text Json
claims =
    (text "exp", num (text "9"))
    ∷ (text "sub", str (text "clerk"))
    ∷ (text "scope", str (text "read"))
    ∷ []

abbrev jwt : Jwt
jwt = record {
  get_unverified_header = λ token. some (
      (text "alg", str (text "RS256"))
      ∷ (text "typ", str (text "JWT"))
      ∷ (text "kid", str (text "k"))
      ∷ []);
  decode = λ token key alg issuer audience leeway. some claims;
  split = λ s. s ∷ [];
  int = λ j. some 9;
  nonzero = λ n. true;
}

abbrev clerk_token : AccessToken
clerk_token = record {
  token = text "u";
  client_id = text "clerk";
  scopes = text "read" ∷ [];
  expires_at = some 9;
  subject = some (text "clerk");
  claims = some claims;
}

abbrev verifier : JwtTokenVerifier
verifier =
    jwt_verifier (text "https://idp") (text "portal") (text "RS256" ∷ text "none" ∷ [])
      (text "read" ∷ []) 30

token_passes :
    verify_token ascii jwt verifier (text "u") jwks_client (text "https://idp/keys") 5 no_keys
    ≡ ok (some clerk_token, filled)
unfolding verify_token allowed_algorithm text_eq check_header jwt_verifier typ_accepted check_key
    key_for maybe_refresh is_recent fetched_keys get listed_keys add_keys check_signature
    check_claims scopes_from_claims nat_eq claim_or granted_token str_values truthy
token_passes = refl

verify_token-IsVerified_example :
    (v : IsVerified ascii jwt verifier (text "u") filled.keys clerk_token) × (contains
        (text "RS256" ∷ text "none" ∷ [])
        v.alg
      ≡ true)
    × (v.alg ≢ text "none")
verify_token-IsVerified_example =
    verify_token-IsVerified ascii jwt (text "https://idp") (text "portal")
      (text "RS256" ∷ text "none" ∷ []) (text "read" ∷ []) 30 (text "u") jwks_client
      (text "https://idp/keys") 5 no_keys filled clerk_token token_passes
