-- ===== src/HttpServer.antt =====
-- server/http.py: the principal of a request and its tool call.
pub mod Requests
use mcp_portal.Base.{
  Dict, List, Option, Result, Text, [], if◌then◌else◌, nat_eq, none, not, ok, option_eq, some,
  text_eq, ◌>>=◌, ◌>>◌,
}
use mcp_portal.Json.{Json}
use mcp_portal.Rar.{RarError}
use mcp_portal.Principal.{AccessToken, Principal, local_principal, principal_from_access_token}
use mcp_portal.Config.{McpPortalConfig}
use mcp_portal.Server.{
  CallToolResult, Forwarded, ToolInvoker, authorization_denied, call, error_result,
}

-- `_principal_for_request`: `access` is what the SDK's `get_access_token` returns.
unfoldable pub principal_for_request :
    McpPortalConfig → Option AccessToken → Result RarError (Option Principal)
principal_for_request config access =
    if not config.auth.inbound.enabled
    then (do p ← local_principal config.auth.local_principal.authorization_details; ok (some p))
    else elim access [ none ↦ ok none | some t ↦ ok (principal_from_access_token t) ]

-- `on_call_tool`: a request without a principal is denied.
unfoldable pub on_call_tool :
    McpPortalConfig
    → ToolInvoker
    → Option AccessToken
    → Text
    → Option (Dict Text Json)
    → Result RarError (CallToolResult × List Forwarded)
on_call_tool config invoker access name arguments =
    principal_for_request config access >>= λ principal. elim principal [
      | none ↦ ok (error_result (authorization_denied name []), [])
      | some p ↦ ok (call invoker name arguments (some p))
    ]
