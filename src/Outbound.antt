-- ===== src/Outbound.antt =====
-- auth/outbound.py: the credential of a request to an upstream. A number of seconds is counted in
-- milliseconds.
pub mod Details
pub mod Exchange
pub mod Sent
use mcp_portal.Base.{
  Dict, List, Option, Result, Text, [], err, if◌then◌else◌, insert, is_empty, join, lookup, min,
  nat_eq, none, not, ok, option_eq, some, sorted_by, text, text_eq, ℕ, ◌*◌, ◌++◌, ◌-◌, ◌==◌, ◌>>=◌,
  ◌>>◌, ◌∷◌,
}
use mcp_portal.Json.{Fields, Items, Json, arr, cons, fields, nil, obj, str}
use mcp_portal.Platform.{Platform}
use mcp_portal.Rar.{AuthorizationDetail}
use mcp_portal.Config.{OutboundConfig, no_credential}
use mcp_portal.Transports.Http.{Credential}
use mcp_portal.TokenCache.{Clock, Entries, get_or_fetch}

abbrev pub expiry_leeway : ℕ
expiry_leeway = 60000

-- `unfit` is a `ConfigError`, the others are raised when a tool is called: `refused`, `tokenless`,
-- `malformed`, `unresolved` and `no_subject_token` as an `OutboundError`, the last two by Python
-- itself or by the HTTP client.
pub data CredentialError : Type 0 where
  unfit : CredentialError
  refused : ℕ → CredentialError
  tokenless malformed no_subject_token : CredentialError
  unresolved : Text → CredentialError
  unreachable crashed : CredentialError

abbrev pub Acquires : Type 0 → Type 0
Acquires A = Result CredentialError A

abbrev pub present : {A : Type 0} → Option A → Acquires A
present none = err crashed
present (some a) = ok a

-- `self.secrets[ref]`
unfoldable pub secret_of : Text → Dict Text Text → CredentialError → Acquires Text
secret_of ref secrets e = elim (lookup ref secrets) [ none ↦ err e | some s ↦ ok s ]

-- `f"{scheme} {secret}" if scheme else secret`
unfoldable pub with_scheme : Option Text → Text → Text
with_scheme none secret = secret
with_scheme (some scheme) secret = if is_empty scheme then secret else scheme ++ (b' ' ∷ secret)

unfoldable pub static_credential : OutboundConfig → Dict Text Text → Acquires (Option Credential)
static_credential outbound secrets = do
  ref ← elim outbound.value [ none ↦ err unfit | some r ↦ ok r ]
  secret ← secret_of ref secrets unfit
  ok (some (record { header = outbound.header; value = with_scheme outbound.scheme secret }))

unfoldable pub credential_for : OutboundConfig → Dict Text Text → Acquires (Option Credential)
credential_for outbound secrets = elim outbound.mode [
  | no_credential ↦ ok none
  | _ ↦ static_credential outbound secrets
]

-- A detail as `_authorization_details_json` writes it: what is empty is left out.
unfoldable pub list_items : List Text → Items
list_items [] = nil
list_items (s ∷ ss) = cons (str s) (list_items ss)

unfoldable pub list_field : Text → List Text → Fields → Fields
list_field name ss rest = if is_empty ss then rest else Fields.field name (arr (list_items ss)) rest

unfoldable pub text_field : Text → Option Text → Fields → Fields
text_field name none rest = rest
text_field name (some s) rest = Fields.field name (str s) rest

unfoldable pub detail_object : AuthorizationDetail → Json
detail_object d = obj (
    Fields.field (text "type") (str d.type) (
      list_field (text "actions") d.actions (
        list_field (text "locations") d.locations (
          list_field (text "datatypes") d.datatypes (
            text_field (text "identifier") d.identifier
              (list_field (text "privileges") d.privileges Fields.end))))))

unfoldable pub detail_objects : List AuthorizationDetail → Items
detail_objects [] = nil
detail_objects (d ∷ ds) = cons (detail_object d) (detail_objects ds)

unfoldable pub authorization_details_json : Platform → List AuthorizationDetail → Option Text
authorization_details_json py details =
    if is_empty details then none else some (py.json_dumps (arr (detail_objects details)))

pub record TokenRequest : Type 0 where
  pub token_endpoint : Text
  pub client_id : Text
  pub client_secret : Text
  -- `data=`
  pub form : Dict Text Text

-- `json` is `none` where `response.json()` raises a `ValueError`.
pub record TokenResponse : Type 0 where
  pub status_code : ℕ
  pub json : Option Json

-- What the sources take from the HTTP client and from Python: `client.post`, `none` where it
-- raises; `float(x)` in milliseconds, 0 for less, `none` where it raises a `ValueError` or a
-- `TypeError`; what f-strings print for the hash of a text, the hash of details and a tuple.
pub record Idp : Type 0 where
  pub post : TokenRequest → Option TokenResponse
  pub float_ms : Json → Option ℕ
  pub hash_text : Text → Text
  pub hash_details : List AuthorizationDetail → Text
  pub show_scopes : List Text → Text

module _ (idp : Idp) where
  -- `float(payload.get("expires_in", 300))`
  unfoldable pub expires_in : Option Json → Acquires ℕ
  expires_in none = ok 300000
  expires_in (some x) = elim (idp.float_ms x) [ none ↦ err malformed | some t ↦ ok t ]

  abbrev pub access_token : Option Json → Acquires Text
  access_token (some (str token)) = ok token
  access_token _ = err tokenless

  unfoldable pub read_token : Json → Acquires (Text × ℕ)
  read_token (obj payload) = do
    token ← access_token (lookup (text "access_token") (fields payload))
    lifetime ← expires_in (lookup (text "expires_in") (fields payload))
    ok (token, lifetime - expiry_leeway)
  read_token _ = err crashed

  unfoldable pub read_response : TokenResponse → Acquires (Text × ℕ)
  read_response response =
      if not (response.status_code == 200)
      then err (refused response.status_code)
      else elim response.json [ none ↦ err malformed | some payload ↦ read_token payload ]

  unfoldable pub post_token_request : TokenRequest → Acquires (Text × ℕ)
  post_token_request request = elim (idp.post request) [
    | none ↦ err unreachable
    | some response ↦ read_response response
  ]

-- `if value is not None: data[name] = value`
unfoldable pub put : Text → Option Text → Dict Text Text → Dict Text Text
put name none form = form
put name (some value) form = insert name value form

-- `tuple(sorted(scopes))`, and `data["scope"] = " ".join(scopes)` if there is one
abbrev pub sorted_scopes : List Text → List Text
sorted_scopes = sorted_by (λ s. s)

abbrev pub scope_of : List Text → Option Text
scope_of [] = none
scope_of scopes = some (join (text " ") scopes)

unfoldable pub bearer : Acquires Text × Entries → Acquires (Option Credential) × Entries
bearer (err e, entries) = (err e, entries)
bearer (ok token, entries) =
    (ok (some (record { header = text "Authorization"; value = text "Bearer " ++ token })), entries)

pub record ClientCredentialsSource : Type 0 where
  pub outbound : OutboundConfig
  pub secrets : Dict Text Text
  pub upstream_key : Text

pub record TokenExchangeSource : Type 0 where
  pub token_endpoint : Text
  pub client_id : Text
  pub client_secret : Text
  pub requested_token_type : Text
  pub scopes : List Text
  pub upstream_key : Text
  pub audience : Option Text
  pub resource : Option Text

module _ (py : Platform) (idp : Idp) where
  unfoldable pub credentials_key : ClientCredentialsSource → List AuthorizationDetail → Text
  credentials_key source carry =
      text "client_credentials:"
      ++ (source.upstream_key
          ++ (b':'
              ∷ (idp.show_scopes (sorted_scopes source.outbound.scopes)
                  ++ (b':' ∷ idp.hash_details carry))))

  unfoldable pub credentials_form : List Text → List AuthorizationDetail → Dict Text Text
  credentials_form scopes carry =
      put (text "authorization_details") (authorization_details_json py carry)
        (put (text "scope") (scope_of scopes) ((text "grant_type", text "client_credentials") ∷ []))

  unfoldable pub credentials_fetch :
      ClientCredentialsSource → List AuthorizationDetail → Acquires (Text × ℕ)
  credentials_fetch source carry = do
    endpoint ← present source.outbound.token_endpoint
    id ← present source.outbound.client_id
    ref ← present source.outbound.client_secret
    secret ← secret_of ref source.secrets (unresolved ref)
    post_token_request idp (record {
      token_endpoint = endpoint;
      client_id = id;
      client_secret = secret;
      form = credentials_form (sorted_scopes source.outbound.scopes) carry;
    })

  unfoldable pub get_credentials :
      ClientCredentialsSource
      → Clock
      → List AuthorizationDetail
      → Entries
      → Acquires (Option Credential) × Entries
  get_credentials source clock carry entries =
      bearer
        (get_or_fetch clock (credentials_key source carry) (credentials_fetch source carry) entries)

  unfoldable pub exchange_key : TokenExchangeSource → Text → List AuthorizationDetail → Text
  exchange_key source subject_token carry =
      text "token_exchange:"
      ++ (source.upstream_key
          ++ (b':'
              ∷ (idp.hash_text subject_token
                  ++ (b':'
                      ∷ (idp.show_scopes (sorted_scopes source.scopes)
                          ++ (b':' ∷ idp.hash_details carry))))))

  unfoldable pub exchange_form :
      TokenExchangeSource → Text → List AuthorizationDetail → Dict Text Text
  exchange_form source subject_token carry =
      put (text "authorization_details") (authorization_details_json py carry) (
        put (text "scope") (scope_of (sorted_scopes source.scopes)) (
          put (text "resource") source.resource (
            put (text "audience") source.audience (
              (text "grant_type", text "urn:ietf:params:oauth:grant-type:token-exchange")
              ∷ (text "subject_token", subject_token)
              ∷ (text "subject_token_type", text "urn:ietf:params:oauth:token-type:access_token")
              ∷ (text "requested_token_type", source.requested_token_type)
              ∷ []))))

  -- `min(ttl, max(0.0, expires_at - time.time() - 60))`
  unfoldable pub subject_ttl : ℕ → Option ℕ → ℕ → ℕ
  subject_ttl now none ttl = ttl
  subject_ttl now (some expires_at) ttl = min ttl (1000 * expires_at - now - expiry_leeway)

  -- `now` is `time.time()` after the answer.
  unfoldable pub exchange_fetch :
      TokenExchangeSource → ℕ → List AuthorizationDetail → Text → Option ℕ → Acquires (Text × ℕ)
  exchange_fetch source now carry subject_token expires_at = do
    minted ← post_token_request idp (record {
      token_endpoint = source.token_endpoint;
      client_id = source.client_id;
      client_secret = source.client_secret;
      form = exchange_form source subject_token carry;
    })
    ok (minted.0, subject_ttl now expires_at minted.1)

  unfoldable pub get_exchanged :
      TokenExchangeSource
      → Clock
      → ℕ
      → List AuthorizationDetail
      → Option Text
      → Option ℕ
      → Entries
      → Acquires (Option Credential) × Entries
  get_exchanged source clock now carry none expires_at entries = (err no_subject_token, entries)
  get_exchanged source clock now carry (some subject_token) expires_at entries = bearer (
      get_or_fetch clock (exchange_key source subject_token carry)
        (exchange_fetch source now carry subject_token expires_at) entries)
