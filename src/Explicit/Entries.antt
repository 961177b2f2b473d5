-- ===== src/Explicit/Entries.antt =====
-- What the operations of the config's entries have.
use mcp_portal.Base.{
  >>=-eq-ok, >>_iff, All, Distinct, List, Option, Option-cases, Result, Result-cases, Text, [], ap,
  arith, contains, inl, inr, nat_eq, ok, ok-injective, option_eq, refl, some, subst, sym, text_eq,
  ◌∙◌, ◌∷◌, ◌≡◌, ◌≢◌, ◌⊎◌,
}
use mcp_portal.Operations.{
  Binding, GraphQlBinding, HttpBinding, Operation, effect_eq, location_eq, sensitivity_eq,
}
use mcp_portal.Platform.{Platform}
use mathlib.Core.Option.{some-injective}
use mcp_portal.Classify.{effect_for_method}
use mcp_portal.Config.{
  BindingEntry, GraphQlBindingEntry, HttpBindingEntry, OperationEntry, graphql_entry, http_entry,
}
use mcp_portal.Flatten.{
  FlattenError, build_input_schema, check_path_template, placeholders_of, resolve_arg_names,
}
use mcp_portal.Flatten.Template.{check_path_template-Matched, path_parameters, wire_names}
use mcp_portal.Flatten.Arguments.{
  argument_names, resolve_arg_names-Distinct, resolve_arg_names-path_names,
}
use mcp_portal.Explicit.{
  build, build_graphql, build_http, explicit_operations, http_binding, operation_of,
}

-- The arguments have names of their own, and the placeholders are the path parameters' wire names.
abbrev pub IsCallable : HttpBinding → Type 0
IsCallable b =
    Distinct (argument_names b)
    × ((w : Text)
        → contains (placeholders_of b.path) w
          ≡ contains (wire_names (path_parameters b.parameters)) w)

abbrev pub Callable : Operation → Type 0
Callable op = (b : HttpBinding) → op.binding ≡ Binding.http b → IsCallable b

pub BindingEntry-cases :
    (b : BindingEntry)
    → ((h : HttpBindingEntry) × (b ≡ http_entry h))
      ⊎ ((g : GraphQlBindingEntry) × (b ≡ graphql_entry g))
BindingEntry-cases (http_entry h) = inl (h, refl)
BindingEntry-cases (graphql_entry g) = inr (g, refl)

http-injective : (a b : HttpBinding) → Binding.http a ≡ Binding.http b → a ≡ b
http-injective a b h = cc

graphql-ne-http : (g : GraphQlBinding) (b : HttpBinding) → Binding.graphql g ≢ Binding.http b
graphql-ne-http g b h = cc

resolved-IsCallable :
    (binding resolved : HttpBinding)
    → check_path_template binding ≡ ok tt
    → resolve_arg_names binding ≡ ok resolved
    → IsCallable resolved
resolved-IsCallable binding resolved template names =
    let (_, matched, _) = check_path_template-Matched binding template in
    let (distinct, _, same_path, _) = resolve_arg_names-Distinct binding resolved names in
    (
      distinct,
      λ w.
          ap (λ path. contains (placeholders_of path) w) same_path
          ∙ (matched w
              ∙ ap (λ ns. contains ns w)
                  (sym (resolve_arg_names-path_names binding resolved names))),
    )

build_http-Callable :
    (py : Platform) (entry : OperationEntry) (b : HttpBindingEntry) (op : Operation)
    → build_http py entry b ≡ ok (some op)
    → Callable op
unfolding build_http operation_of
build_http-Callable py entry b op h =
    let binding = http_binding py b in
    elim (Result-cases (effect_for_method py binding.method)) [
      | inl (unsupported, e) ↦ ground arith
      | inr (effect, e) ↦
          let (template, h₁) =
            (>>_iff (check_path_template binding) _ (some op)).0 (rw (build_http, e) at h) in
          let (resolved, names, h₂) = >>=-eq-ok (resolve_arg_names binding) _ h₁ in
          let (schema, _, h₃) = >>=-eq-ok (build_input_schema binding) _ h₂ in
          λ r same.
            subst IsCallable
              (http-injective resolved r
                (ap (λ (o : Operation). o.binding) (some-injective _ _ (ok-injective h₃)) ∙ same))
              (resolved-IsCallable binding resolved template names)
    ]

build-Callable :
    (py : Platform) (entry : OperationEntry) (op : Operation)
    → build py entry ≡ ok (some op)
    → Callable op
unfolding build build_graphql operation_of
build-Callable py entry op h = elim (BindingEntry-cases entry.binding) [
  | inl (b, e) ↦ build_http-Callable py entry b op (rw (build, e) at h)
  | inr (b, e) ↦
      let built : ◌≡◌ {A = Result FlattenError (Option Operation)}
          (ok (some (build_graphql entry b))) (ok (some op)) =
        rw (build, e) at h in
      λ r same. absurd (
        graphql-ne-http _ r
          (ap (λ (o : Operation). o.binding) (some-injective _ _ (ok-injective built)) ∙ same))
]

-- Every operation of the config's entries that is sent over HTTP has arguments with names of their
-- own, those of its body included, and a path whose placeholders its path parameters fill.
pub explicit_operations-Callable :
    (py : Platform) (entries : List OperationEntry) (ops : List Operation)
    → explicit_operations py entries ≡ ok ops
    → All Callable ops
unfolding explicit_operations
explicit_operations-Callable py [] ops h = subst (All Callable) (ok-injective h) tt
explicit_operations-Callable py (entry ∷ entries) ops h = elim (Result-cases (build py entry)) [
  | inl (problem, e) ↦ ground arith
  | inr (built, e) ↦ elim (Option-cases built) [
    | inl n ↦ explicit_operations-Callable py entries ops (rw (explicit_operations, e, n) at h)
    | inr (op, o) ↦
        let (rest, h₁, h₂) =
          >>=-eq-ok (explicit_operations py entries) (λ (os : List Operation). ok (op ∷ os))
            (rw (explicit_operations, e, o) at h) in
        subst (All Callable) (ok-injective h₂) (
          build-Callable py entry op (e ∙ ap ok o),
          explicit_operations-Callable py entries rest h₁,
        )
  ]
]
