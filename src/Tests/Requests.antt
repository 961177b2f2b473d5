-- ===== src/Tests/Requests.antt =====
-- The transports' theorems at an order's request and at an upstream that answers 503, then 200.
use mathlib.Core.Option.{some-injective}
use mcp_portal.Base.{
  All, Dict, List, Option, Text, [], count, false, nat_eq, none, ok, option_eq, refl, some,
  starts_with, subst, suc, text, text_eq, true, zero, ℕ, ◌&&◌, ◌*◌, ◌-◌, ◌<◌, ◌==◌, ◌∷◌, ◌≡◌, ◌≤◌,
}
use mcp_portal.Json.{Fields, Json, null, obj, str}
use mcp_portal.Operations.{
  BodySpec, Effect, Variable, effect_eq, location_eq, read_only, sensitivity_eq,
}
use mcp_portal.Transports.Common.{
  BodyTexts, is_retryable_status, is_textual, map_body, retry_delay_ms, trusted_delay,
  wait_for_retry,
}
use mcp_portal.Transports.Quote.{quote, quote_byte, utf8}
use mcp_portal.Transports.Replace.{replace, replace_from}
use mcp_portal.Transports.Retry.{
  Response, World, attempt_from, response, retryable, run_attempts, wait,
}
use mcp_portal.Transports.Retry.Steps.{answer_of}
use mcp_portal.Transports.Retry.Bounds.{
  AllFunded, AllRetried, Ends, run_attempts-AllFunded, run_attempts-outcome, run_attempts-requests,
}
use mcp_portal.Transports.Http.{
  Credential, PreparedRequest, build_content, build_request, check_header_value, encode_path_value,
  join_url, lstrip_slash, place, place_all, rstrip_slash, with_query,
}
use mcp_portal.Transports.Http.PathSafety.{Absent, IsDelimiter, build_request-path}
use mcp_portal.Transports.Http.Headers.{AllClean, IsClean, build_request-AllClean}
use mcp_portal.Transports.GraphQl.{
  GraphQlResponse, execute_graphql, has_errors, map_graphql, synthetic_status,
}
use mcp_portal.Transports.GraphQl.Status.{execute_graphql-success}
use mcp_portal.Tests.{ascii, order_binding, shop}

-- A path value that tries to leave its segment.
abbrev given : Dict Text Json
given = (text "id", str (text "../a?b")) ∷ (text "trace", str (text "t1")) ∷ []

abbrev token : Credential
token = record { header = text "Authorization"; value = text "Bearer x" }

abbrev order_request : PreparedRequest
order_request = record {
  method = text "GET";
  url = text "https://shop/orders/..%2Fa%3Fb";
  headers = (text "X-Trace", text "t1") ∷ (text "Authorization", text "Bearer x") ∷ [];
  content = none;
}

order_request-built :
    build_request ascii order_binding (text "https://shop/") given (some token) ≡ ok order_request
unfolding build_request place_all place encode_path_value check_header_value build_content quote
    quote_byte utf8 replace replace_from join_url lstrip_slash rstrip_slash with_query text_eq
    nat_eq starts_with
order_request-built = refl

slash-IsDelimiter : IsDelimiter b'/'
unfolding nat_eq
slash-IsDelimiter = (refl, (λ e. cc), (λ e. cc))

-- '/' stands in no wire name of the order's parameters.
slash-Absent : All (Absent b'/') order_binding.parameters
unfolding nat_eq
slash-Absent = (refl, (refl, tt))

build_request-path_example :
    (path : Text) × (query : List (Text × Text)) × (order_request.url
      ≡ with_query query (join_url (text "https://shop/") path))
    × (count b'/' path ≡ count b'/' order_binding.path)
build_request-path_example =
    build_request-path ascii b'/' slash-IsDelimiter order_binding (text "https://shop/") given
      (some token) order_request slash-Absent order_request-built

no_body : (b : BodySpec) → order_binding.body ≡ some b → IsClean b.content_type
no_body b e = cc

token-IsClean : (c : Credential) → some token ≡ some c → IsClean c.value
unfolding nat_eq
token-IsClean c e = subst (λ x. IsClean x.value) (some-injective token c e) (refl, refl)

build_request-AllClean_example : AllClean order_request.headers
build_request-AllClean_example =
    build_request-AllClean ascii order_binding (text "https://shop/") given (some token)
      order_request no_body token-IsClean order_request-built

abbrev busy : Response
busy = record {
  status_code = 503;
  retry_after = none;
  content_type = text "text/plain";
  content = [];
  text_value = [];
}

abbrev fine : Response
fine = record busy { status_code = 200; content = 111 ∷ 107 ∷ []; text_value = text "ok" }

-- Busy at first, then fine.
abbrev world : World
world = record {
  answer = λ n. elim n [ zero ↦ response busy | suc m ↦ response fine ];
  elapsed_ms = λ n. n * 100;
  jitter = λ n bound. bound;
}

retried_once : (run_attempts (some 3000) 1000 world read_only).requests ≡ 2
unfolding run_attempts attempt_from wait wait_for_retry retryable retry_delay_ms trusted_delay
    is_retryable_status nat_eq
retried_once = refl

run_attempts-requests_example :
    (1 ≤ (run_attempts (some 3000) 1000 world Effect.action).requests)
    × ((run_attempts (some 3000) 1000 world Effect.action).requests ≤ 3)
    × (Effect.action ≡ Effect.action
        → (run_attempts (some 3000) 1000 world Effect.action).requests ≡ 1)
run_attempts-requests_example = run_attempts-requests (some 3000) 1000 world Effect.action

run_attempts-outcome_example :
    (answer_of (run_attempts (some 3000) 1000 world read_only).outcome
      ≡ world.answer ((run_attempts (some 3000) 1000 world read_only).requests - 1))
    × AllRetried (some 3000) 1000 world 0 (run_attempts (some 3000) 1000 world read_only).requests
    × Ends (some 3000) 1000 world 3 (run_attempts (some 3000) 1000 world read_only).requests
run_attempts-outcome_example = run_attempts-outcome (some 3000) 1000 world read_only

run_attempts-AllFunded_example :
    AllFunded (some 3000) 1000 world 0 (run_attempts (some 3000) 1000 world read_only).waits
run_attempts-AllFunded_example = run_attempts-AllFunded (some 3000) 1000 world read_only

abbrev texts : BodyTexts
texts = record { decode = λ bs. bs; placeholder = λ n t. text "?"; marker = λ n m. text "!" }

abbrev loads : List ℕ → Option Json
loads bytes = some (obj (Fields.field (text "data") null Fields.end))

abbrev graphql_answer : GraphQlResponse
graphql_answer = record { status = 200; shown = text "ok"; truncated = false; original_bytes = 2 }

graphql_answered : (execute_graphql texts loads shop world read_only).0 ≡ some graphql_answer
unfolding execute_graphql map_graphql synthetic_status has_errors map_body is_textual run_attempts
    attempt_from wait wait_for_retry retryable retry_delay_ms trusted_delay is_retryable_status
    text_eq nat_eq starts_with
graphql_answered = refl

execute_graphql-success_example :
    (n : ℕ) × (r : Response) × (n < 3)
    × (world.answer n ≡ response r)
    × ((r.status_code == 200 && has_errors (loads r.content)) ≡ false)
    × (graphql_answer.status ≡ r.status_code)
execute_graphql-success_example =
    execute_graphql-success texts loads shop world read_only graphql_answer graphql_answered refl

abbrev order_variable : Variable
order_variable = record { name = text "id"; graphql_type = text "ID!"; required = true }
