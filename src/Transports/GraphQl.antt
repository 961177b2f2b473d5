-- ===== src/Transports/GraphQl.antt =====
-- transports/graphql.py: the request of a GraphQL binding, and the call that sends it.
pub mod Status
use mcp_portal.Base.{
  Bool, Dict, List, Option, Text, [], contains, false, if◌then◌else◌, insert, is_empty, length,
  lookup, nat_eq, none, not, option_eq, some, text, text_eq, ℕ, ◌&&◌, ◌==◌, ◌∷◌,
}
use mcp_portal.Json.{Json, arr, bool, fields, items, null, num, obj, str}
use mcp_portal.Operations.{Effect, GraphQlBinding, Variable, effect_eq, location_eq, sensitivity_eq}
use mcp_portal.Platform.{Platform}
use mcp_portal.Config.{UpstreamConfig}
use mcp_portal.Transports.Common.{BodyTexts, map_body}
use mcp_portal.Transports.Retry.{Response, World, returned, run_attempts, timed_out}
use mcp_portal.Transports.Http.{Credential, PreparedRequest, object_of, with_credential}

-- `{v.name: arguments[v.name] for v in variables if v.name in arguments}`
unfoldable pub variables_of : List Variable → Dict Text Json → Dict Text Json
variables_of [] arguments = []
variables_of (v ∷ vs) arguments =
    let rest = variables_of vs arguments in
    elim (lookup v.name arguments) [ none ↦ rest | some value ↦ insert v.name value rest ]

pub record GraphQlResponse : Type 0 where
  pub status : ℕ
  pub shown : Text
  pub truncated : Bool
  pub original_bytes : ℕ

-- The truth of a value as an `if` of Python has it.
unfoldable pub truthy : Json → Bool
truthy null = false
truthy (bool b) = b
truthy (num n) = not (contains (text "0" ∷ text "-0" ∷ text "0.0" ∷ text "-0.0" ∷ []) n)
truthy (str s) = not (is_empty s)
truthy (arr xs) = not (is_empty (items xs))
truthy (obj fs) = not (is_empty (fields fs))

-- `isinstance(parsed, dict) and parsed.get("errors")`
unfoldable pub has_errors : Option Json → Bool
has_errors (some (obj fs)) = elim (lookup (text "errors") (fields fs)) [
  | none ↦ false
  | some e ↦ truthy e
]
has_errors _ = false

module _ (py : Platform) where
  unfoldable pub build_graphql_request :
      GraphQlBinding → Text → Dict Text Json → Option Credential → PreparedRequest
  build_graphql_request binding endpoint arguments credential = record {
    method = text "POST";
    url = endpoint;
    headers = with_credential credential ((text "Content-Type", text "application/json") ∷ []);
    content = some (
        py.json_dumps (
          obj (
            object_of (
              (text "query", str binding.document)
              ∷ (text "variables", obj (object_of (variables_of binding.variables arguments)))
              ∷ []))));
  }

-- `loads` is `json.loads` of the raw body, `none` where it raises a `ValueError`.
module _ (texts : BodyTexts) (loads : List ℕ → Option Json) where
  unfoldable pub synthetic_status : Response → ℕ
  synthetic_status r =
      if r.status_code == 200 && has_errors (loads r.content) then 502 else r.status_code

  unfoldable pub map_graphql : ℕ → Response → GraphQlResponse
  map_graphql max_response_bytes r =
      let (shown, cut) =
        map_body texts r.content r.content_type max_response_bytes (some r.text_value) in
      record {
        status = synthetic_status r;
        shown = shown;
        truncated = cut;
        original_bytes = length r.content;
      }

  -- `GraphQlTransport.execute`, from the request on, and the number of requests sent; `none` is
  -- the timeout that it raises.
  unfoldable pub execute_graphql : UpstreamConfig → World → Effect → Option GraphQlResponse × ℕ
  execute_graphql upstream world effect =
      let run = run_attempts upstream.max_total_ms upstream.timeout_ms world effect in
      elim run.outcome [
        | returned r ↦ (some (map_graphql upstream.max_response_bytes r), run.requests)
        | timed_out ↦ (none, run.requests)
      ]
