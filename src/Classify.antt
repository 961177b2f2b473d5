-- ===== src/Classify.antt =====
-- classify.py: an operation's effect from its HTTP method or GraphQL operation type.
use mcp_portal.Base.{
  Dict, List, Result, Text, [], err, keys, lookup, nat_eq, none, ok, option_eq, some, text, text_eq,
  ◌∷◌,
}
use mcp_portal.Operations.{
  Effect, OperationType, effect_eq, idempotent_write, location_eq, mutation_operation,
  query_operation, read_only, sensitivity_eq,
}
use mcp_portal.Platform.{Platform}

-- `_METHOD_EFFECT`
abbrev pub method_effect : Dict Text Effect
method_effect =
    (text "GET", read_only)
    ∷ (text "PUT", idempotent_write)
    ∷ (text "DELETE", idempotent_write)
    ∷ (text "POST", Effect.action)
    ∷ (text "PATCH", Effect.action)
    ∷ []

abbrev pub exposed_methods : List Text
exposed_methods = keys method_effect

pub data ClassifyError : Type 0 where
  unsupported_method : Text → ClassifyError

unfoldable pub effect_for_method : Platform → Text → Result ClassifyError Effect
effect_for_method py method = elim (lookup (py.upper method) method_effect) [
  | none ↦ err (unsupported_method method)
  | some effect ↦ ok effect
]

-- The two operation types that a binding can have; "subscription" is none of them.
unfoldable pub effect_for_operation_type : OperationType → Effect
effect_for_operation_type query_operation = read_only
effect_for_operation_type mutation_operation = Effect.action
