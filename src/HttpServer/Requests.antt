-- ===== src/HttpServer/Requests.antt =====
-- What a request over HTTP hands to an upstream.
use mcp_portal.Base.{
  All, All-imp, Dict, List, Option, Option-cases, Result, Result-cases, Text, ap, arith, inl, inr,
  nat_eq, none, ok, ok-injective, option_eq, refl, some, subst, text_eq, true, ◌≡◌,
}
use mcp_portal.Json.{Json}
use mcp_portal.Rar.{RarError, parse_authorization_details}
use mcp_portal.Principal.{AccessToken, Principal, principal_from_access_token, raw_details}
use mcp_portal.Config.{McpPortalConfig}
use mcp_portal.Policy.{evaluate}
use mcp_portal.Policy.Decision.{Granted}
use mcp_portal.Server.{CallToolResult, Forwarded, ToolInvoker, call, effective_principal}
use mcp_portal.HttpServer.{on_call_tool, principal_for_request}
use mcp_portal.Server.Calls.{call-IsAuthorized}

-- The principal is the token's: its details are those of the token's claims.
abbrev pub IsOf : AccessToken → Principal → Type 0
IsOf t p =
    (parse_authorization_details (raw_details t.claims) ≡ ok p.authorization_details)
    × (p.subject_token ≡ some t.token)

principal_from_access_token-IsOf :
    (t : AccessToken) (p : Principal) → principal_from_access_token t ≡ some p → IsOf t p
unfolding principal_from_access_token
principal_from_access_token-IsOf t p h =
    elim (Result-cases (parse_authorization_details (raw_details t.claims))) [
      | inl (x, e) ↦ ground arith
      | inr (ds, e) ↦
          subst (IsOf t) (some-injective (rw (principal_from_access_token, e) at h)) (e, refl)
    ]
  where
    some-injective : {q : Principal} → ◌≡◌ {A = Option Principal} (some q) (some p) → q ≡ p
    some-injective x = cc

principal_for_request-enabled :
    (config : McpPortalConfig) (access : Option AccessToken)
    → config.auth.inbound.enabled ≡ true
    → principal_for_request config access
      ≡ elim access [ none ↦ ok none | some t ↦ ok (principal_from_access_token t) ]
unfolding principal_for_request
principal_for_request-enabled config access on = rw on refl

sent_of :
    {x : CallToolResult × List Forwarded} (result : CallToolResult) (sent : List Forwarded)
    → ◌≡◌ {A = Result RarError (CallToolResult × List Forwarded)} (ok x) (ok (result, sent))
    → x.1 ≡ sent
sent_of result sent h = ap (λ (y : CallToolResult × List Forwarded). y.1) (ok-injective h)

-- What is handed over for a token's request.
abbrev pub SentFor : ToolInvoker → Option AccessToken → Forwarded → Type 0
SentFor invoker access f =
    (t : AccessToken) × (p : Principal) × (access ≡ some t)
    × IsOf t p
    × ((evaluate invoker.policy f.operation p).allowed ≡ true)
    × All (Granted p) f.carry

-- With inbound authentication, a tool call over HTTP hands something to a transport only for a
-- request with a token whose claims hold readable authorization details; the policy allows the
-- operation to them, and the details that it carries are granted by them.
pub on_call_tool-authenticated :
    (config : McpPortalConfig) (invoker : ToolInvoker) (access : Option AccessToken) (name : Text)
    (arguments : Option (Dict Text Json)) (result : CallToolResult) (sent : List Forwarded)
    → config.auth.inbound.enabled ≡ true
    → on_call_tool config invoker access name arguments ≡ ok (result, sent)
    → All (SentFor invoker access) sent
unfolding on_call_tool effective_principal
on_call_tool-authenticated config invoker none name arguments result sent on h =
    subst (All (SentFor invoker none))
      (sent_of result sent (rw (on_call_tool, principal_for_request-enabled config none on) at h))
      tt
on_call_tool-authenticated config invoker (some t) name arguments result sent on h =
    let enabled = principal_for_request-enabled config (some t) on in
    elim (Option-cases (principal_from_access_token t)) [
      | inl e ↦
          subst (All (SentFor invoker (some t)))
            (sent_of result sent (rw (on_call_tool, enabled, e) at h)) tt
      | inr (p, e) ↦
          subst (All (SentFor invoker (some t)))
            (sent_of result sent (rw (on_call_tool, enabled, e) at h))
            (All-imp (call invoker name arguments (some p)).1
              (λ f (_, _, allowed, granted).
                (t, p, refl, principal_from_access_token-IsOf t p e, allowed, granted))
              (call-IsAuthorized invoker name arguments (some p)).1)
    ]
