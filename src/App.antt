-- ===== src/App.antt =====
-- app.py: a loaded config as an application.
pub mod Wiring
pub mod Upstreams
use mcp_portal.Base.{
  Bool, Dict, List, Option, Result, Text, [], any, err, false, if◌then◌else◌, lookup, map, nat_eq,
  none, not, ok, option_eq, some, text, text_eq, true, ◌&&◌, ◌==◌, ◌>>=◌, ◌>>◌, ◌∷◌,
}
use mcp_portal.Operations.{Binding, Operation, effect_eq, graphql, location_eq, sensitivity_eq}
use mcp_portal.Platform.{Platform}
use mcp_portal.Rar.{RarError}
use mcp_portal.PolicyConfig.{PolicyConfig, allow}
use mcp_portal.Principal.{Principal, local_principal}
use mcp_portal.Naming.{NameCollisionError}
use mcp_portal.Config.{
  McpPortalConfig, OutboundConfig, UpstreamConfig, client_credentials, configured, http_transport,
  stdio, token_exchange,
}
use mcp_portal.Registry.{ToolSet, build_toolset}
use mcp_portal.Merge.{merge_operations}
use mcp_portal.Flatten.{FlattenError}
use mcp_portal.Explicit.{explicit_operations, text_or, value_or}
use mcp_portal.Loader.{LoadedConfig}
use mcp_portal.Outbound.{
  ClientCredentialsSource, CredentialError, TokenExchangeSource, credential_for,
}
use mcp_portal.Transports.Http.{Credential}

pub data AppError : Type 0 where
  unfit_entry : Text → FlattenError → AppError
  name_collision : NameCollisionError → AppError
  unfit_principal : RarError → AppError
  missing_secret : Text → AppError
  unfit_credential : CredentialError → AppError
  -- An introspection that fails, a failed assertion or a missing key.
  not_introspected unbuildable : AppError

abbrev pub Builds : Type 0 → Type 0
Builds A = Result AppError A

pub data CredentialSource : Type 0 where
  static_source : Option Credential → CredentialSource
  client_credentials_source : ClientCredentialsSource → CredentialSource
  token_exchange_source : TokenExchangeSource → CredentialSource

-- What `HttpTransport` and `GraphQlTransport` are made of, the HTTP client aside.
pub record Adapter : Type 0 where
  pub upstream : UpstreamConfig
  pub credential_source : CredentialSource

-- `routing` is `_ProtocolRoutingTransport`, whose two transports are made of the same.
pub data Transport : Type 0 where
  only_http : Adapter → Transport
  only_graphql : Adapter → Transport
  routing : Adapter → Transport

pub data Protocol : Type 0 where
  http_protocol graphql_protocol : Protocol

-- The protocol over which `execute` calls an operation of the binding; `none` where it asserts
-- another one.
unfoldable pub executes : Transport → Binding → Option Protocol
executes (only_http a) (Binding.http b) = some http_protocol
executes (only_graphql a) (Binding.graphql b) = some graphql_protocol
executes (routing a) (Binding.http b) = some http_protocol
executes (routing a) (Binding.graphql b) = some graphql_protocol
executes _ _ = none

abbrev pub is_http_binding : Binding → Bool
is_http_binding (Binding.http b) = true
is_http_binding (Binding.graphql b) = false

-- `HttpBinding in binding_types_by_upstream[key]`, and the other one
unfoldable pub has_http : Text → List Operation → Bool
has_http key ops = any (λ (op : Operation). op.upstream == key && is_http_binding op.binding) ops

unfoldable pub has_graphql : Text → List Operation → Bool
has_graphql key ops =
    any (λ (op : Operation). op.upstream == key && not (is_http_binding op.binding)) ops

unfoldable pub transport_for : Text → List Operation → Adapter → Transport
transport_for key ops a =
    if has_http key ops && has_graphql key ops
    then routing a
    else if has_graphql key ops
    then only_graphql a
    else only_http a

abbrev pub asserted {ℓ} : {A : Type ℓ} → Option A → Result AppError A
asserted none = err unbuildable
asserted (some a) = ok a

unfoldable pub exchange_source : Text → OutboundConfig → Dict Text Text → Builds TokenExchangeSource
exchange_source key outbound secrets = do
  endpoint ← asserted outbound.token_endpoint
  id ← asserted outbound.client_id
  ref ← asserted outbound.client_secret
  secret ← elim (lookup ref secrets) [ none ↦ err (missing_secret ref) | some s ↦ ok s ]
  ok (record {
    token_endpoint = endpoint;
    client_id = id;
    client_secret = secret;
    requested_token_type = outbound.requested_token_type;
    scopes = outbound.scopes;
    upstream_key = key;
    audience = outbound.audience;
    resource = outbound.resource;
  })

unfoldable pub static_source_for : OutboundConfig → Dict Text Text → Builds CredentialSource
static_source_for outbound secrets = elim (credential_for outbound secrets) [
  | err e ↦ err (unfit_credential e)
  | ok credential ↦ ok (static_source credential)
]

unfoldable pub source_for : Text → OutboundConfig → Dict Text Text → Builds CredentialSource
source_for key outbound secrets = elim outbound.mode [
  | client_credentials ↦ ok (
      client_credentials_source
        (record { outbound = outbound; secrets = secrets; upstream_key = key }))
  | token_exchange ↦ do
    source ← exchange_source key outbound secrets
    ok (token_exchange_source source)
  | _ ↦ static_source_for outbound secrets
]

module _ (secrets : Dict Text Text) (base_urls : Dict Text Text) (ops : List Operation) where
  unfoldable pub build_transport : Text → UpstreamConfig → Builds Transport
  build_transport key upstream = do
    source ← source_for key upstream.auth.outbound secrets
    base_url ← asserted (lookup key base_urls)
    ok (
        transport_for key ops (record {
          upstream = record upstream { base_url = some base_url };
          credential_source = source;
        }))

  -- `for key, upstream in config.upstreams.items(): …`
  unfoldable pub build_transports : Dict Text UpstreamConfig → Builds (Dict Text Transport)
  build_transports [] = ok []
  build_transports ((key, upstream) ∷ upstreams) = do
    transport ← build_transport key upstream
    rest ← build_transports upstreams
    ok ((key, transport) ∷ rest)

abbrev pub default_policy : PolicyConfig
default_policy = record { defaults = record { unmatched = allow }; rules = [] }

unfoldable pub app_principal : McpPortalConfig → Builds Principal
app_principal config = elim config.server.transport [
  | stdio ↦ elim (local_principal config.auth.local_principal.authorization_details) [
    | err e ↦ err (unfit_principal e)
    | ok p ↦ ok p
  ]
  | http_transport ↦ ok (record {
    identity = text "local";
    authorization_details = [];
    subject_token = none;
    subject_token_expires_at = none;
  })
]

-- `{key: u.base_url or "" for key, u in config.upstreams.items()}`
unfoldable pub configured_base_urls : Dict Text UpstreamConfig → Dict Text Text
configured_base_urls = map (λ (key, u). (key, text_or u.base_url []))

pub record App : Type 0 where
  pub toolset : ToolSet
  pub transports : Dict Text Transport
  pub policy : PolicyConfig
  pub principal : Principal

-- `introspect_upstreams`: the operations and the base URLs.
module _ (py : Platform)
    (introspect : McpPortalConfig → Option (List Operation × Dict Text Text)) where
  unfoldable pub introspected_operations :
      McpPortalConfig → Builds (List Operation × Dict Text Text)
  introspected_operations config = elim config.mode [
    | configured ↦ ok ([], configured_base_urls config.upstreams)
    | _ ↦ elim (introspect config) [ none ↦ err not_introspected | some found ↦ ok found ]
  ]

  unfoldable pub explicit_of : McpPortalConfig → Builds (List Operation)
  explicit_of config = elim (explicit_operations py config.operations) [
    | err (id, e) ↦ err (unfit_entry id e)
    | ok ops ↦ ok ops
  ]

  unfoldable pub app_toolset : List Operation → List Operation → McpPortalConfig → Builds ToolSet
  app_toolset introspected explicit config = elim (merge_operations introspected explicit) [
    | err e ↦ err (name_collision e)
    | ok operations ↦ elim (build_toolset py operations config) [
      | err e ↦ err (name_collision e)
      | ok toolset ↦ ok toolset
    ]
  ]

  unfoldable pub build_app : LoadedConfig → Builds App
  build_app loaded = do
    found ← introspected_operations loaded.config
    explicit ← explicit_of loaded.config
    toolset ← app_toolset found.0 explicit loaded.config
    principal ← app_principal loaded.config
    transports ← build_transports loaded.secrets found.1 toolset.operations loaded.config.upstreams
    ok (record {
      toolset = toolset;
      transports = transports;
      policy = value_or loaded.policy default_policy;
      principal = principal;
    })
