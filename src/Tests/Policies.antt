-- ===== src/Tests/Policies.antt =====
-- The policy's and the tool call's theorems at a clerk who may read orders.
use mcp_portal.Json.{Fields, Json, arr, cons, nil, obj, str}
use mcp_portal.Principal.{
  AccessToken, Principal, identity_of, principal_from_access_token, raw_details,
}
use mcp_portal.Config.{McpPortalConfig}
use mcp_portal.HttpServer.{on_call_tool, principal_for_request}
use mcp_portal.HttpServer.Requests.{SentFor, on_call_tool-authenticated}
use mcp_portal.Base.{
  All, Any, List, [], any, contains, false, fnmatch, length, lookup, nat_eq, none, not, ok,
  option_eq, refl, some, text, text_eq, true, ◌++◌, ◌<◌, ◌↔◌, ◌∷◌, ◌≡◌, ◌≢◌, ◌≤◌, ◌⊎◌,
}
use mcp_portal.Operations.{Operation, effect_eq, location_eq, sensitivity_eq}
use mcp_portal.Rar.{
  covers, covers_one, detail_identifier, detail_type, get_or_empty, parse_authorization_details,
  parse_entries, parse_entry, string_field, string_tuple, strings, within,
}
use mcp_portal.PolicyConfig.{
  PolicyRule, allow, non_empty_when_present, offending, require_less_rule_forbidden_under_deny,
  validate, validate_require, validate_requirement, validate_requirements, validate_rules,
}
use mcp_portal.Policy.{
  accumulated_details, dead_rule_warnings, detail_of, evaluate, matches, matching_rules,
  rule_details,
}
use mcp_portal.Policy.Decision.{Granted, evaluate-allowed_iff, requirements, with_rules}
use mcp_portal.Policy.DeadRules.{dead_rule_warnings-at}
use mcp_portal.Policy.Validated.{Enforced, IsFailClosed, deny_fail_closed, validate_iff}
use mcp_portal.Registry.Selected.{IsHarmless}
use mcp_portal.Server.{
  CallToolResult, Forwarded, ToolInvoker, ToolResponse, TransportAdapter, call, effective_principal,
  error_result, forward, given_arguments, is_error, reply_of, unknown_tool,
}
use mcp_portal.Server.Calls.{MayForward, call-IsAuthorized, call-IsHarmless, call-success_iff}
use mcp_portal.Tests.Names.{safe_toolset, safe_toolset-built}
use mcp_portal.Tests.{
  ascii, clerk, closed_policy, config, open_policy, order_delete, order_read, read_rule,
}

closed_allows : (evaluate closed_policy order_read clerk).allowed ≡ true
unfolding evaluate accumulated_details matching_rules matches text_eq effect_eq rule_details covers
    covers_one detail_of within
closed_allows = refl

evaluate-allowed_iff_example : ((evaluate closed_policy order_read clerk).allowed ≡ true) ↔ (
    (requirements closed_policy order_read ≡ []) × (closed_policy.defaults.unmatched ≡ allow)
    ⊎ (requirements closed_policy order_read ≢ [])
      × All (Granted clerk) (requirements closed_policy order_read))
evaluate-allowed_iff_example = evaluate-allowed_iff closed_policy order_read clerk

open_allows :
    (evaluate (with_rules open_policy ([] ++ ((read_rule ∷ []) ++ []))) order_read clerk).allowed
    ≡ true
unfolding evaluate accumulated_details matching_rules matches text_eq effect_eq rule_details covers
    covers_one detail_of within
open_allows = refl

validate_iff_example :
    (validate closed_policy ≡ ok closed_policy)
    ↔ (closed_policy ≡ closed_policy) × IsFailClosed closed_policy
validate_iff_example = validate_iff closed_policy closed_policy

closed_policy-validates : validate closed_policy ≡ ok closed_policy
unfolding validate validate_rules validate_require validate_requirements validate_requirement
    non_empty_when_present require_less_rule_forbidden_under_deny offending
closed_policy-validates = refl

deny_fail_closed_example :
    Any (λ rule. matches order_read rule.match ≡ true) closed_policy.rules
    × All (Enforced clerk order_read) closed_policy.rules
deny_fail_closed_example =
    deny_fail_closed closed_policy order_read clerk closed_policy-validates refl closed_allows

dead_rule_warnings-at_example :
    contains
      (dead_rule_warnings (with_rules closed_policy ([] ++ (read_rule ∷ []))) (order_delete ∷ []))
      (length {A = PolicyRule} [])
    ≡ not (any (λ op. matches op read_rule.match) (order_delete ∷ []))
dead_rule_warnings-at_example =
    dead_rule_warnings-at closed_policy [] [] read_rule (order_delete ∷ [])

-- A portal that publishes the order's two operations, and an upstream that answers 200.
abbrev answer : TransportAdapter
answer f = ok (record { status = 200; shown = text "order" })

abbrev invoker : ToolInvoker
invoker = record {
  toolset = safe_toolset;
  transports = (text "shop", answer) ∷ [];
  policy = closed_policy;
  principal = clerk;
  validate = λ given schema. none;
}

call_forwards : length (call invoker (text "order_get") none none).1 ≡ 1
unfolding call text_eq evaluate accumulated_details matching_rules matches effect_eq rule_details
    covers effective_principal covers_one detail_of within
call_forwards = refl

call_unknown :
    (call invoker (text "remove") none none).0 ≡ error_result (unknown_tool (text "remove"))
unfolding call text_eq
call_unknown = refl

call-IsAuthorized_example :
    (length (call invoker (text "order_get") none none).1 ≤ 1)
    × All
        (λ (f : Forwarded).
          (lookup (text "order_get") safe_toolset.by_name ≡ some f.operation)
          × (invoker.validate f.arguments f.operation.input_schema ≡ none)
          × ((evaluate closed_policy f.operation (effective_principal invoker none)).allowed ≡ true)
          × All (Granted (effective_principal invoker none)) f.carry)
        (call invoker (text "order_get") none none).1
call-IsAuthorized_example = call-IsAuthorized invoker (text "order_get") none none

call-success_iff_example : (is_error (call invoker (text "order_get") none none).0 ≡ false) ↔ (
    (op : Operation) × (transport : TransportAdapter) × (r : ToolResponse) × MayForward invoker
      (text "order_get")
      (given_arguments none)
      (effective_principal invoker none)
      op
      transport
    × (transport (
          forward op
            (given_arguments none)
            (evaluate closed_policy op (effective_principal invoker none))
            (effective_principal invoker none))
        ≡ ok r)
    × (200 ≤ r.status)
    × (r.status < 300))
call-success_iff_example = call-success_iff invoker (text "order_get") none none

call-IsHarmless_example :
    All (λ (f : Forwarded). IsHarmless f.operation) (call invoker (text "order_get") none none).1
call-IsHarmless_example =
    call-IsHarmless ascii (order_read ∷ order_delete ∷ []) config invoker (text "order_get") none
      none safe_toolset-built refl

abbrev guarded_config : McpPortalConfig
guarded_config = record config {
  auth = record config.auth { inbound = record config.auth.inbound { enabled = true } };
}

abbrev orders_claim : Json
orders_claim = arr (
    cons
      (obj (
        Fields.field (text "type") (str (text "orders"))
          (Fields.field (text "actions") (arr (cons (str (text "read")) nil)) Fields.end)))
      nil)

abbrev orders_token : AccessToken
orders_token = record {
  token = text "u";
  client_id = text "clerk";
  scopes = [];
  expires_at = none;
  subject = none;
  claims = some ((text "authorization_details", orders_claim) ∷ []);
}

abbrev token_clerk : Principal
token_clerk = record clerk { subject_token = some (text "u") }

abbrev token_call : CallToolResult × List Forwarded
token_call = call invoker (text "order_get") none (some token_clerk)

token_call_made :
    on_call_tool guarded_config invoker (some orders_token) (text "order_get") none
    ≡ ok (token_call.0, token_call.1)
unfolding on_call_tool principal_for_request principal_from_access_token parse_authorization_details
    raw_details get_or_empty text_eq nat_eq parse_entries parse_entry detail_type detail_identifier
    string_field string_tuple strings identity_of call evaluate accumulated_details matching_rules
    matches effect_eq sensitivity_eq option_eq rule_details covers covers_one detail_of within
    effective_principal forward given_arguments reply_of fnmatch
token_call_made = refl

on_call_tool-authenticated_example : All (SentFor invoker (some orders_token)) token_call.1
on_call_tool-authenticated_example =
    on_call_tool-authenticated guarded_config invoker (some orders_token) (text "order_get") none
      token_call.0 token_call.1 refl token_call_made
