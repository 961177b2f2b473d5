-- ===== src/Transports/GraphQl/Status.antt =====
-- The status that stands for GraphQL's errors, and the variables that are sent.
use mcp_portal.Base.{
  ==→≡, Bool, Dict, List, Option, Option-cases, Text, [], ap, arith, contains, false, if◌then◌else◌,
  inl, inr, leb, lookup, lookup-insert, ltb, map, nat_eq, none, option_eq, refl, some, sym, text_eq,
  true, ℕ, ◌&&◌, ◌-◌, ◌<◌, ◌==◌, ◌∙◌, ◌∷◌, ◌≡◌, ◌⊎◌,
}
use mcp_portal.Json.{Json}
use mcp_portal.Operations.{Effect, Variable, effect_eq, location_eq, sensitivity_eq}
use mcp_portal.Config.{UpstreamConfig}
use mcp_portal.Transports.Common.{BodyTexts}
use mcp_portal.Transports.Retry.{
  Outcome, Response, Run, World, response, returned, run_attempts, timed_out,
}
use mcp_portal.Transports.Retry.Steps.{answer_of}
use mcp_portal.Transports.GraphQl.{
  GraphQlResponse, execute_graphql, has_errors, map_graphql, synthetic_status, variables_of,
}
use mcp_portal.Transports.Retry.Bounds.{run_attempts-outcome, run_attempts-requests}

-- The statuses that the tool call counts as success.
abbrev pub is_success : ℕ → Bool
is_success status = leb 200 status && ltb status 300

Outcome-cases : (o : Outcome) → ((r : Response) × (o ≡ returned r)) ⊎ (o ≡ timed_out)
Outcome-cases (returned r) = inl (r, refl)
Outcome-cases timed_out = inr refl

synthetic_status-success :
    (texts : BodyTexts) (loads : List ℕ → Option Json) (r : Response)
    → is_success (synthetic_status texts loads r) ≡ true
    → ((r.status_code == 200 && has_errors (loads r.content)) ≡ false)
      × (synthetic_status texts loads r ≡ r.status_code)
unfolding synthetic_status
synthetic_status-success texts loads r s = ground arith

-- A call succeeds only on an answer without errors: if the status of the result is 2xx, some
-- attempt got a response whose body, however large, has no `errors` or whose status is not 200.
pub execute_graphql-success :
    (texts : BodyTexts) (loads : List ℕ → Option Json) (upstream : UpstreamConfig) (world : World)
    (effect : Effect) (result : GraphQlResponse)
    → (execute_graphql texts loads upstream world effect).0 ≡ some result
    → is_success result.status ≡ true
    → (n : ℕ) × (r : Response) × (n < 3)
      × (world.answer n ≡ response r)
      × ((r.status_code == 200 && has_errors (loads r.content)) ≡ false)
      × (result.status ≡ r.status_code)
unfolding execute_graphql map_graphql synthetic_status
execute_graphql-success texts loads upstream world effect result h s =
    elim (Outcome-cases run.outcome) [
      | inl (r, e) ↦
          let same : map_graphql texts loads upstream.max_response_bytes r ≡ result =
            ground arith in
          let (least, most, _) =
            run_attempts-requests upstream.max_total_ms upstream.timeout_ms world effect in
          let (answered, _, _) =
            run_attempts-outcome upstream.max_total_ms upstream.timeout_ms world effect in
          let (clean, kept) =
            synthetic_status-success texts loads r
              (ap (λ (g : GraphQlResponse). is_success g.status) same ∙ s) in
          (
            run.requests - 1,
            r,
            omega arith,
            sym answered ∙ ap answer_of e,
            clean,
            ap (λ (g : GraphQlResponse). g.status) (sym same) ∙ kept,
          )
      | inr e ↦ ground arith
    ]
  where
    run : Run
    run = run_attempts upstream.max_total_ms upstream.timeout_ms world effect

-- A variable is sent exactly when the arguments give it, with the argument's value.
pub lookup-variables_of :
    (name : Text) (vs : List Variable) (arguments : Dict Text Json)
    → lookup name (variables_of vs arguments)
      ≡ (if contains (map (λ (v : Variable). v.name) vs) name then lookup name arguments else none)
unfolding variables_of
lookup-variables_of name [] arguments = refl
lookup-variables_of name (v ∷ vs) arguments = elim (Option-cases (lookup v.name arguments)) [
  | inl e ↦ ground (arith, e, ==→≡ name v.name, lookup-variables_of name vs arguments)
  | inr (value, e) ↦ ground (
    arith,
    e,
    ==→≡ name v.name,
    lookup-insert name v.name value (variables_of vs arguments),
    lookup-variables_of name vs arguments,
  )
]
