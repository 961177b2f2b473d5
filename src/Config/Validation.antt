-- ===== src/Config/Validation.antt =====
-- The validators of config/models.py, in the order in which they run. Pydantic reports every
-- error of a model together; here the first ends the validation.
use mcp_portal.Base.{
  Bool, Dict, List, Option, Result, Text, [], contains, dedup, false, filter, guard, if◌then◌else◌,
  is_empty, keys, ltb, map, nat_eq, none, not, ok, option_eq, some, sorted_by, text, text_eq, true,
  ℕ, ◌&&◌, ◌*◌, ◌++◌, ◌==◌, ◌>>=◌, ◌>>◌, ◌||◌, ◌∷◌,
}
use mcp_portal.Config.{
  GraphQlIntrospectionConfig, InboundAuthConfig, IntrospectionConfig, McpPortalConfig,
  OpenApiIntrospectionConfig, OperationEntry, OutboundConfig, OutboundMode, ServerTransport,
  SourceMode, UpstreamConfig, configured, http_transport, introspect_unsafe, no_credential, static,
  stdio, token_exchange,
}

pub data ConfigError : Type 0 where
  one_document_source one_protocol static_needs_value : ConfigError
  missing_settings : List Text → ConfigError
  not_positive base_url_or_introspection graphql_needs_base_url graphql_url_mismatch : ConfigError
  issuer_and_audience none_algorithm : ConfigError
  unknown_upstreams : List Text → ConfigError
  not_acknowledged : ConfigError
  missing_base_urls : List Text → ConfigError
  unauthenticated_http : ConfigError
  exchange_without_inbound : List Text → ConfigError

abbrev pub is_none {ℓ} : {A : Type ℓ} → Option A → Bool
is_none none = true
is_none (some a) = false

-- `(a is None) == (b is None)` raises.
unfoldable pub exactly_one {ℓ κ} : {A : Type ℓ} {B : Type κ} → Option A → Option B → Bool
exactly_one none none = false
exactly_one none (some b) = true
exactly_one (some a) none = true
exactly_one (some a) (some b) = false

unfoldable pub validate_openapi : Option OpenApiIntrospectionConfig → Result ConfigError (Unit {0})
validate_openapi none = ok tt
validate_openapi (some o) = guard (exactly_one o.url o.file) one_document_source

unfoldable pub validate_introspection : Option IntrospectionConfig → Result ConfigError (Unit {0})
validate_introspection none = ok tt
validate_introspection (some i) = do
  validate_openapi i.openapi
  guard (exactly_one i.openapi i.graphql) one_protocol

unfoldable pub static_needs_a_value : OutboundConfig → Bool
static_needs_a_value o = elim o.mode [ static ↦ not (is_none o.value) | _ ↦ true ]

unfoldable pub missing_dynamic : OutboundConfig → List Text
missing_dynamic o =
    (if is_none o.token_endpoint then text "token_endpoint" ∷ [] else [])
    ++ ((if is_none o.client_id then text "client_id" ∷ [] else [])
        ++ (if is_none o.client_secret then text "client_secret" ∷ [] else []))

unfoldable pub dynamic_modes_need_endpoint_and_client :
    OutboundConfig → Result ConfigError (Unit {0})
dynamic_modes_need_endpoint_and_client o = elim o.mode [
  | no_credential ↦ ok tt
  | static ↦ ok tt
  | _ ↦ guard (is_empty (missing_dynamic o)) (missing_settings (missing_dynamic o))
]

unfoldable pub validate_outbound : OutboundConfig → Result ConfigError (Unit {0})
validate_outbound o = do
  guard (static_needs_a_value o) static_needs_value
  dynamic_modes_need_endpoint_and_client o

unfoldable pub default_total_budget : UpstreamConfig → UpstreamConfig
default_total_budget u = elim u.max_total_ms [
  | none ↦ record u { max_total_ms = some (u.timeout_ms * 3) }
  | some _ ↦ u
]

-- `max_total_ms`, where it is given, is positive.
abbrev pub budget_positive : Option ℕ → Bool
budget_positive none = true
budget_positive (some b) = ltb 0 b

abbrev pub graphql_of : Option IntrospectionConfig → Option GraphQlIntrospectionConfig
graphql_of none = none
graphql_of (some i) = i.graphql

unfoldable pub graphql_introspection_needs_base_url : UpstreamConfig → Bool
graphql_introspection_needs_base_url u =
    is_none (graphql_of u.introspection) || not (is_none u.base_url)

unfoldable pub graphql_base_url_matches : Option GraphQlIntrospectionConfig → Option Text → Bool
graphql_base_url_matches none base_url = true
graphql_base_url_matches (some g) none = true
graphql_base_url_matches (some g) (some base_url) = base_url == g.url

unfoldable pub validate_upstream : UpstreamConfig → Result ConfigError UpstreamConfig
validate_upstream u = do
  validate_outbound u.auth.outbound
  validate_introspection u.introspection
  guard (ltb 0 u.timeout_ms && budget_positive u.max_total_ms && ltb 0 u.max_response_bytes)
      not_positive
  guard (not (is_none u.base_url && is_none u.introspection)) base_url_or_introspection
  guard (graphql_introspection_needs_base_url u) graphql_needs_base_url
  guard (graphql_base_url_matches (graphql_of u.introspection) u.base_url) graphql_url_mismatch
  ok (default_total_budget u)

unfoldable pub validate_upstreams :
    Dict Text UpstreamConfig → Result ConfigError (Dict Text UpstreamConfig)
validate_upstreams [] = ok []
validate_upstreams ((key, u) ∷ us) = do
  v ← validate_upstream u
  vs ← validate_upstreams us
  ok ((key, v) ∷ vs)

unfoldable pub validate_inbound : InboundAuthConfig → Result ConfigError (Unit {0})
validate_inbound a = do
  guard (not (a.enabled && (is_none a.issuer || is_none a.audience))) issuer_and_audience
  guard (not (contains a.algorithms (text "none"))) none_algorithm

abbrev pub loopback_hosts : List Text
loopback_hosts = text "127.0.0.1" ∷ text "localhost" ∷ text "::1" ∷ []

-- `{o.upstream for o in operations} - set(upstreams)`
unfoldable pub unknown_upstreams_of : McpPortalConfig → List Text
unknown_upstreams_of c =
    filter (λ key. not (contains (keys c.upstreams) key))
      (map (λ (o : OperationEntry). o.upstream) c.operations)

abbrev pub acknowledged : SourceMode → Bool → Bool
acknowledged introspect_unsafe flag = flag
acknowledged _ flag = true

unfoldable pub without_base_url : Dict Text UpstreamConfig → List Text
without_base_url us = keys (filter (λ (_, u). is_none u.base_url) us)

unfoldable pub unresolvable : SourceMode → Dict Text UpstreamConfig → List Text
unresolvable configured us = without_base_url us
unresolvable _ us = []

abbrev pub is_http : ServerTransport → Bool
is_http stdio = false
is_http http_transport = true

unfoldable pub unauthenticated_http_is_guarded : McpPortalConfig → Bool
unauthenticated_http_is_guarded c =
    if not (is_http c.server.transport) || c.auth.inbound.enabled
    then true
    else if contains loopback_hosts c.server.http.host
    then true
    else c.auth.inbound.allow_unauthenticated_http

abbrev pub is_exchange : OutboundMode → Bool
is_exchange token_exchange = true
is_exchange _ = false

unfoldable pub exchanging : Dict Text UpstreamConfig → List Text
exchanging us = keys (filter (λ (_, u). is_exchange u.auth.outbound.mode) us)

-- The five validators of the whole config, after those of its parts.
unfoldable pub check_config : McpPortalConfig → Result ConfigError (Unit {0})
check_config c = do
  guard (is_empty (unknown_upstreams_of c))
      (unknown_upstreams (sorted_by (λ k. k) (dedup (unknown_upstreams_of c))))
  guard (acknowledged c.mode c.acknowledge_unsafe) not_acknowledged
  guard (is_empty (unresolvable c.mode c.upstreams))
      (missing_base_urls (sorted_by (λ k. k) (unresolvable c.mode c.upstreams)))
  guard (unauthenticated_http_is_guarded c) unauthenticated_http
  guard
      (is_empty (exchanging c.upstreams) || (is_http c.server.transport && c.auth.inbound.enabled))
      (exchange_without_inbound (sorted_by (λ k. k) (exchanging c.upstreams)))

unfoldable pub validate_config : McpPortalConfig → Result ConfigError McpPortalConfig
validate_config c = do
  us ← validate_upstreams c.upstreams
  validate_inbound c.auth.inbound
  let validated : McpPortalConfig = record c { upstreams = us }
  check_config validated
  ok validated
