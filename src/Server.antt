-- ===== src/Server.antt =====
-- server/mcp.py: the tools that are listed, and a tool call.
pub mod Calls
use mcp_portal.Base.{
  Bool, Dict, List, Option, Result, Text, [], err, false, if◌then◌else◌, leb, lookup, ltb, map,
  nat_eq, none, not, ok, option_eq, some, text_eq, true, ℕ, ◌&&◌, ◌∷◌,
}
use mcp_portal.Json.{Json}
use mcp_portal.Operations.{
  Effect, Operation, Schema, effect_eq, idempotent_write, location_eq, read_only, sensitivity_eq,
}
use mcp_portal.Rar.{AuthorizationDetail}
use mcp_portal.PolicyConfig.{PolicyConfig}
use mcp_portal.Principal.{Principal}
use mcp_portal.Policy.{PolicyDecision, evaluate}
use mcp_portal.Registry.{ToolSet}
use mcp_portal.Transports.Http.{RequestBuildError}

-- `types.ToolAnnotations` and `types.Tool` of the SDK, the fields that the portal sets.
pub record ToolAnnotations : Type 0 where
  pub hint_title : Text
  pub read_only_hint : Bool
  pub destructive_hint : Bool
  pub idempotent_hint : Bool
  pub open_world_hint : Bool

pub record Tool : Type 0 where
  pub name : Text
  pub title : Text
  pub description : Text
  pub input_schema : Schema
  pub annotations : ToolAnnotations

unfoldable pub annotations_for : Operation → ToolAnnotations
annotations_for op = elim op.effect [
  | read_only ↦ record {
    hint_title = op.title;
    read_only_hint = true;
    destructive_hint = false;
    idempotent_hint = true;
    open_world_hint = true;
  }
  | idempotent_write ↦ record {
    hint_title = op.title;
    read_only_hint = false;
    destructive_hint = true;
    idempotent_hint = true;
    open_world_hint = true;
  }
  | Effect.action ↦ record {
    hint_title = op.title;
    read_only_hint = false;
    destructive_hint = true;
    idempotent_hint = false;
    open_world_hint = true;
  }
]

unfoldable pub to_mcp_tool : Operation → Tool
to_mcp_tool op = record {
  name = op.name;
  title = op.title;
  description = op.description;
  input_schema = op.input_schema;
  annotations = annotations_for op;
}

-- What a transport's `execute` raises.
pub data ExecuteError : Type 0 where
  build_failed : RequestBuildError → ExecuteError
  timeout_raised : ExecuteError
  request_failed : Text → ExecuteError
  outbound_failed : Text → ExecuteError

-- A response as the tool call reads it.
pub record ToolResponse : Type 0 where
  pub status : ℕ
  pub shown : Text

-- What is handed to a transport: the call's trace.
pub record Forwarded : Type 0 where
  pub operation : Operation
  pub arguments : Dict Text Json
  pub carry : List AuthorizationDetail
  pub subject_token : Option Text
  pub subject_token_expires_at : Option ℕ

abbrev pub TransportAdapter : Type 0
TransportAdapter = Forwarded → Result ExecuteError ToolResponse

-- The error results, by what their messages name.
pub data ToolError : Type 0 where
  unknown_tool : Text → ToolError
  invalid_arguments : Text → Text → ToolError
  authorization_denied : Text → List Text → ToolError
  no_transport : Text → ToolError
  request_not_built : Text → RequestBuildError → ToolError
  upstream_timed_out : Text → ToolError
  upstream_failed : Text → Text → ToolError
  credential_failed : Text → ToolError

pub data CallToolResult : Type 0 where
  error_result : ToolError → CallToolResult
  text_result : Text → Bool → CallToolResult

abbrev pub is_error : CallToolResult → Bool
is_error (error_result e) = true
is_error (text_result t failed) = failed

unfoldable pub reply_of : Text → Text → Result ExecuteError ToolResponse → CallToolResult
reply_of name upstream (ok r) = text_result r.shown (not (leb 200 r.status && ltb r.status 300))
reply_of name upstream (err (build_failed e)) = error_result (request_not_built name e)
reply_of name upstream (err timeout_raised) = error_result (upstream_timed_out upstream)
reply_of name upstream (err (request_failed e)) = error_result (upstream_failed upstream e)
reply_of name upstream (err (outbound_failed e)) = error_result (credential_failed upstream)

-- `dict(arguments or {})`
unfoldable pub given_arguments : Option (Dict Text Json) → Dict Text Json
given_arguments none = []
given_arguments (some arguments) = arguments

-- `ToolInvoker`, with `jsonschema.validate` as the place and the message of its error.
pub record ToolInvoker : Type 0 where
  pub toolset : ToolSet
  pub transports : Dict Text TransportAdapter
  pub policy : PolicyConfig
  pub principal : Principal
  pub validate : Dict Text Json → Schema → Option Text

unfoldable pub tools : ToolInvoker → List Tool
tools invoker = map to_mcp_tool invoker.toolset.operations

unfoldable pub effective_principal : ToolInvoker → Option Principal → Principal
effective_principal invoker none = invoker.principal
effective_principal invoker (some principal) = principal

-- The request that a decision allows.
unfoldable pub forward : Operation → Dict Text Json → PolicyDecision → Principal → Forwarded
forward op arguments decision principal = record {
  operation = op;
  arguments = arguments;
  carry = decision.carry;
  subject_token = principal.subject_token;
  subject_token_expires_at = principal.subject_token_expires_at;
}

-- `ToolInvoker.call`: the result, and what was handed to a transport.
unfoldable pub call :
    ToolInvoker
    → Text
    → Option (Dict Text Json)
    → Option Principal
    → CallToolResult × List Forwarded
call invoker name arguments principal =
    let given = given_arguments arguments in
    let caller = effective_principal invoker principal in
    elim (lookup name invoker.toolset.by_name) [
      | none ↦ (error_result (unknown_tool name), [])
      | some op ↦ elim (invoker.validate given op.input_schema) [
        | some message ↦ (error_result (invalid_arguments name message), [])
        | none ↦
            let decision = evaluate invoker.policy op caller in
            let denied : CallToolResult × List Forwarded = (
              error_result (
                  authorization_denied name
                    (map (λ (d : AuthorizationDetail). d.type) decision.missing)),
              [],
            ) in
            let sent = forward op given decision caller in
            let answered : CallToolResult × List Forwarded =
              elim (lookup op.upstream invoker.transports) [
                | none ↦ (error_result (no_transport op.upstream), [])
                | some transport ↦ (reply_of name op.upstream (transport sent), sent ∷ [])
              ] in
            if not decision.allowed then denied else answered
      ]
    ]
