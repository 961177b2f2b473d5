-- ===== src/Server/Calls.antt =====
-- What a tool call hands to an upstream, and when it succeeds.
use mathlib.Core.Bool.{false≢true}
use mathlib.Core.Option.{some-injective}
use mcp_portal.Base.{
  All, All-imp, Bool-cases, Dict, List, Option, Option-cases, Result, Text, [], ap, arith, err,
  false, inl, inr, insert, length, lookup, lookup-insert, nat_eq, none, ok, option_eq, refl, some,
  subst, sym, text_eq, true, ◌<◌, ◌==◌, ◌↔◌, ◌∙◌, ◌∷◌, ◌≡◌, ◌≤◌, ◌⊎◌,
}
use mcp_portal.Json.{Json}
use mcp_portal.Operations.{Operation, effect_eq, location_eq, sensitivity_eq}
use mcp_portal.Principal.{Principal}
use mcp_portal.Policy.{evaluate}
use mcp_portal.Policy.Decision.{Granted, carry-Granted}
use mcp_portal.Server.{
  CallToolResult, ExecuteError, Forwarded, ToolInvoker, ToolResponse, TransportAdapter,
  build_failed, call, effective_principal, forward, given_arguments, is_error, outbound_failed,
  reply_of, request_failed, timeout_raised,
}
use mcp_portal.Platform.{Platform}
use mcp_portal.Config.{McpPortalConfig, introspect_safe}
use mcp_portal.Registry.{build_toolset, index_by_name}
use mcp_portal.Registry.Toolset.{build_toolset-eq-ok}
use mcp_portal.Registry.Selected.{IsHarmless, build_toolset-IsHarmless}

-- An operation and a transport that a call may go to.
abbrev pub MayForward :
    ToolInvoker → Text → Dict Text Json → Principal → Operation → TransportAdapter → Type 0
MayForward invoker name given caller op transport =
    (lookup name invoker.toolset.by_name ≡ some op)
    × (invoker.validate given op.input_schema ≡ none)
    × ((evaluate invoker.policy op caller).allowed ≡ true)
    × (lookup op.upstream invoker.transports ≡ some transport)

reply_of-success :
    (name upstream : Text) (x : Result ExecuteError ToolResponse)
    → is_error (reply_of name upstream x) ≡ false
    → (r : ToolResponse) × (x ≡ ok r) × (200 ≤ r.status) × (r.status < 300)
unfolding reply_of
reply_of-success name upstream (ok r) h = (r, refl, ground arith, ground arith)
reply_of-success name upstream (err (build_failed e)) h = cc
reply_of-success name upstream (err timeout_raised) h = cc
reply_of-success name upstream (err (request_failed e)) h = cc
reply_of-success name upstream (err (outbound_failed e)) h = cc

reply_of-in_range :
    (name upstream : Text) (r : ToolResponse)
    → 200 ≤ r.status
    → r.status < 300
    → is_error (reply_of name upstream (ok r)) ≡ false
unfolding reply_of
reply_of-in_range name upstream r least below = ground arith

module _ (invoker : ToolInvoker) (name : Text) (arguments : Option (Dict Text Json))
    (principal : Option Principal) where
  abbrev pub given : Dict Text Json
  given = given_arguments arguments

  abbrev pub caller : Principal
  caller = effective_principal invoker principal

  abbrev pub sent_for : Operation → Forwarded
  sent_for op = forward op given (evaluate invoker.policy op caller) caller

  call-forwarded :
      (op : Operation) (transport : TransportAdapter)
      → MayForward invoker name given caller op transport
      → call invoker name arguments principal
        ≡ (reply_of name op.upstream (transport (sent_for op)), sent_for op ∷ [])
  unfolding call evaluate
  call-forwarded op transport (e, v, a, t) = rw (call, e, v, a, t) refl

  -- A call that reaches no upstream is an error, and one that does hands over a single request:
  -- for a published operation of that name, with arguments that its schema admits, allowed by
  -- the policy; and its result is the answer's.
  call_cases :
      ((is_error (call invoker name arguments principal).0 ≡ true)
        × ((call invoker name arguments principal).1 ≡ []))
      ⊎ ((op : Operation) × (transport : TransportAdapter) × MayForward invoker name given caller op
            transport
          × (call invoker name arguments principal
              ≡ (reply_of name op.upstream (transport (sent_for op)), sent_for op ∷ [])))
  unfolding call
  call_cases = elim (Option-cases (lookup name invoker.toolset.by_name)) [
    | inl e ↦ inl (rw (call, e) (refl, refl))
    | inr (op, e) ↦ elim (Option-cases (invoker.validate given op.input_schema)) [
      | inr (message, v) ↦ inl (rw (call, e, v) (refl, refl))
      | inl v ↦ elim (Bool-cases (evaluate invoker.policy op caller).allowed) [
        | inr a ↦ inl (rw (call, e, v, a) (refl, refl))
        | inl a ↦ elim (Option-cases (lookup op.upstream invoker.transports)) [
          | inl t ↦ inl (rw (call, e, v, a, t) (refl, refl))
          | inr (transport, t) ↦
              inr (op, transport, (e, v, a, t), call-forwarded op transport (e, v, a, t))
        ]
      ]
    ]
  ]

  -- What a call hands over is allowed by the policy, with arguments that the schema admits, and
  -- the details that it carries are granted to the caller. At most one request is handed over.
  pub call-IsAuthorized :
      (length (call invoker name arguments principal).1 ≤ 1)
      × All
          (λ (f : Forwarded).
            (lookup name invoker.toolset.by_name ≡ some f.operation)
            × (invoker.validate f.arguments f.operation.input_schema ≡ none)
            × ((evaluate invoker.policy f.operation caller).allowed ≡ true)
            × All (Granted caller) f.carry)
          (call invoker name arguments principal).1
  unfolding forward
  call-IsAuthorized = elim call_cases [
    | inl (_, none_sent) ↦ rw none_sent (omega arith, tt)
    | inr (op, transport, (e, v, a, t), same) ↦
        rw same (omega arith, ((e, v, a, carry-Granted invoker.policy op caller a), tt))
  ]

  -- A call succeeds exactly when it may go to a transport whose answer has a status in 2xx.
  pub call-success_iff : (is_error (call invoker name arguments principal).0 ≡ false) ↔ (
      (op : Operation) × (transport : TransportAdapter) × (r : ToolResponse) × MayForward invoker
        name given caller op transport
      × (transport (sent_for op) ≡ ok r)
      × (200 ≤ r.status)
      × (r.status < 300))
  call-success_iff = (
    (λ good. elim call_cases [
      | inl (bad, _) ↦ absurd (false≢true (sym good ∙ bad))
      | inr (op, transport, may, same) ↦
          let (r, answered, least, below) =
            reply_of-success name op.upstream (transport (sent_for op))
              (ap (λ (c : CallToolResult × List Forwarded). is_error c.0) (sym same) ∙ good) in
          (op, transport, r, may, answered, least, below)
    ]),
    λ (op, transport, r, may, answered, least, below).
        ap (λ (c : CallToolResult × List Forwarded). is_error c.0) (call-forwarded op transport may)
        ∙ ap (λ x. is_error (reply_of name op.upstream x)) answered
        ∙ reply_of-in_range name op.upstream r least below,
  )

lookup-index_by_name-All :
    (P : Operation → Type 0) (n : Text) (ops : List Operation) (by_name : Dict Text Operation)
    (op : Operation)
    → All P ops
    → ((x : Operation) → lookup n by_name ≡ some x → P x)
    → lookup n (index_by_name ops by_name) ≡ some op
    → P op
unfolding index_by_name
lookup-index_by_name-All P n [] by_name op a f h = f op h
lookup-index_by_name-All P n (o ∷ ops) by_name op (p, a) f h =
    lookup-index_by_name-All P n ops (insert o.name o by_name) op a
      (λ x hx. elim (Bool-cases (n == o.name)) [
        | inl e ↦
            subst P
              (some-injective o x (sym (lookup-insert n o.name o by_name ∙ ground arith) ∙ hx)) p
        | inr e ↦ f x (sym (lookup-insert n o.name o by_name ∙ ground arith) ∙ hx)
      ])
      h

-- In mode `introspect-safe`, whatever a client calls, only read-only operations that are not
-- sensitive are handed to an upstream.
pub call-IsHarmless :
    (py : Platform) (operations : List Operation) (config : McpPortalConfig) (invoker : ToolInvoker)
    (name : Text) (arguments : Option (Dict Text Json)) (principal : Option Principal)
    → build_toolset py operations config ≡ ok invoker.toolset
    → config.mode ≡ introspect_safe
    → All (λ (f : Forwarded). IsHarmless f.operation) (call invoker name arguments principal).1
call-IsHarmless py operations config invoker name arguments principal built mode =
    let (_, indexed) = build_toolset-eq-ok py operations config invoker.toolset built in
    All-imp (call invoker name arguments principal).1
      (λ f (published, _, _, _).
        lookup-index_by_name-All IsHarmless name invoker.toolset.operations [] f.operation
          (build_toolset-IsHarmless py operations config invoker.toolset built mode) (λ x e. cc)
          (ap (lookup name) (sym indexed) ∙ published))
      (call-IsAuthorized invoker name arguments principal).1
