-- ===== src/Config.antt =====
-- config/models.py: the main config's models, as the records that pydantic builds. Its string
-- patterns (secret references, base URLs, tool names) and the session settings that are handed to
-- the SDK are left out; the validators are in the child modules.
pub mod Validation
pub mod Usable
pub mod Sound
use mcp_portal.Base.{Bool, Dict, List, Option, Text, nat_eq, option_eq, text_eq, ℕ}
use mcp_portal.Json.{Json}
use mcp_portal.Operations.{
  BodyMode, Effect, OperationType, ParamLocation, Schema, Sensitivity, effect_eq, location_eq,
  sensitivity_eq,
}
use mcp_portal.Naming.{Strategy}

pub record OpenApiIntrospectionConfig : Type 0 where
  pub url : Option Text
  pub file : Option Text
  pub include_deprecated : Bool
  pub allow_external_refs : Bool
  pub allowed_hosts : List Text

pub record GraphQlIntrospectionConfig : Type 0 where
  pub url : Text
  pub type_policy : Dict Text (List Text)

pub record IntrospectionConfig : Type 0 where
  pub openapi : Option OpenApiIntrospectionConfig
  pub graphql : Option GraphQlIntrospectionConfig

-- The port is any number here: its bounds, above 0 and below 65536, are pydantic's to check, and
-- the settings of sessions are left out.
pub record HttpServerConfig : Type 0 where
  pub host : Text
  pub port : ℕ
  pub path : Text
  pub allowed_origins : List Text
  pub allowed_hosts : List Text

pub data OutboundMode : Type 0 where
  no_credential static client_credentials token_exchange : OutboundMode

pub record OutboundConfig : Type 0 where
  pub mode : OutboundMode
  pub header : Text
  pub scheme : Option Text
  pub value : Option Text
  pub token_endpoint : Option Text
  pub client_id : Option Text
  pub client_secret : Option Text
  pub scopes : List Text
  pub audience : Option Text
  pub resource : Option Text
  pub requested_token_type : Text

pub record UpstreamAuthConfig : Type 0 where
  pub outbound : OutboundConfig

pub record UpstreamConfig : Type 0 where
  pub base_url : Option Text
  pub timeout_ms : ℕ
  pub max_total_ms : Option ℕ
  pub max_response_bytes : ℕ
  pub auth : UpstreamAuthConfig
  pub introspection : Option IntrospectionConfig

pub data ServerTransport : Type 0 where
  stdio http_transport : ServerTransport

pub record ServerConfig : Type 0 where
  pub name : Text
  pub transport : ServerTransport
  pub http : HttpServerConfig

pub record ParameterEntry : Type 0 where
  pub arg : Text
  pub location : ParamLocation
  pub wire_name : Option Text
  pub required : Bool
  pub schema : Schema
  pub explode : Bool

pub record BodyEntry : Type 0 where
  pub content_type : Text
  pub mode : BodyMode
  pub schema : Schema

pub record HttpBindingEntry : Type 0 where
  pub method : Text
  pub path : Text
  pub parameters : List ParameterEntry
  pub body : Option BodyEntry

pub record GraphQlVariableEntry : Type 0 where
  pub name : Text
  pub graphql_type : Text
  pub required : Bool

pub record GraphQlBindingEntry : Type 0 where
  pub operation_type : OperationType
  pub document : Text
  pub variables : List GraphQlVariableEntry

pub data BindingEntry : Type 0 where
  http_entry : HttpBindingEntry → BindingEntry
  graphql_entry : GraphQlBindingEntry → BindingEntry

pub record OperationEntry : Type 0 where
  pub id : Text
  pub upstream : Text
  pub description : Text
  pub title : Option Text
  pub name : Option Text
  pub group_tags : List Text
  pub effect : Option Effect
  pub sensitivity : Option Sensitivity
  pub binding : BindingEntry

pub record MatchSpec : Type 0 where
  pub ids : List Text
  pub tags : List Text
  pub upstream : List Text
  pub effect : List Effect

pub record ClassificationRule : Type 0 where
  pub match : MatchSpec
  pub effect : Option Effect
  pub sensitivity : Option Sensitivity

pub record SelectionConfig : Type 0 where
  pub include_tags : Option (List Text)
  pub exclude_tags : List Text
  pub include_ids : Option (List Text)
  pub exclude_ids : List Text

pub record NamingConfig : Type 0 where
  pub strategy : Strategy
  pub prefix_with_group_tag : Bool
  pub prefix_with_upstream : Bool

pub record LocalPrincipalConfig : Type 0 where
  pub authorization_details : Json

pub record InboundAuthConfig : Type 0 where
  pub enabled : Bool
  pub issuer : Option Text
  pub audience : Option Text
  pub jwks_uri : Option Text
  pub required_scopes : List Text
  pub algorithms : List Text
  pub leeway_s : ℕ
  pub allow_unauthenticated_http : Bool

pub record AuthConfig : Type 0 where
  pub local_principal : LocalPrincipalConfig
  pub inbound : InboundAuthConfig

pub record PolicyFileConfig : Type 0 where
  pub file : Text

pub data SourceMode : Type 0 where
  configured introspect_safe introspect_unsafe : SourceMode

pub record McpPortalConfig : Type 0 where
  pub mode : SourceMode
  pub acknowledge_unsafe : Bool
  pub server : ServerConfig
  pub upstreams : Dict Text UpstreamConfig
  pub operations : List OperationEntry
  pub classification : List ClassificationRule
  pub selection : SelectionConfig
  pub naming : NamingConfig
  pub auth : AuthConfig
  pub policy : Option PolicyFileConfig
