-- ===== src/Tests/Sources.antt =====
-- The theorems on path templates, argument names and configured entries at an order's entry.
use mcp_portal.Base.{
  All, Distinct, Text, [], arith, contains, dedup, map, nat_eq, none, ok, option_eq, refl, repeated,
  sorted_by, text, text_eq, true, without_last, ◌∷◌, ◌≡◌,
}
use mcp_portal.Json.{Fields, arr, cons, nil, obj, str}
use mcp_portal.Operations.{
  Binding, HttpBinding, Operation, ParamLocation, Parameter, effect_eq, location_eq, normal,
  read_only, sensitivity_eq,
}
use mcp_portal.Classify.{effect_for_method}
use mcp_portal.Transports.Http.{object_of}
use mcp_portal.Config.{OperationEntry, ParameterEntry, http_entry}
use mcp_portal.Flatten.{
  body_names, build_input_schema, check_content_type, check_path_template, contributions,
  declare_all, declare_path, find_placeholders, insert_all, json_texts, location_value,
  placeholders_of, rename, renamed, resolve_arg_names, schema_properties, schema_required, see_all,
}
use mcp_portal.Flatten.Template.{check_path_template-Matched, path_parameters, wire_names}
use mcp_portal.Flatten.Arguments.{argument_names, resolve_arg_names-Distinct}
use mcp_portal.Explicit.{
  between_brackets, build, build_http, explicit_operations, first_line, http_binding,
  json_type_for_graphql_type, json_type_on, line, lstrip_blank, operation_of, parameter_of,
  rstrip_blank, scalar_type, text_or, without_bang,
}
use mcp_portal.Explicit.Entries.{Callable, explicit_operations-Callable}
use mcp_portal.Explicit.Types.{
  GraphQlType, IsWritten, json_type_for_graphql_type-print, list_of, named, schema_of,
}
use mcp_portal.Tests.{ascii, get_order, order_binding, trace_header}

template_passes : check_path_template order_binding ≡ ok tt
unfolding check_path_template placeholders_of find_placeholders declare_all declare_path repeated
    dedup sorted_by text_eq nat_eq location_eq
template_passes = refl

check_path_template-Matched_example :
    Distinct (placeholders_of order_binding.path)
    × ((w : Text)
        → contains (placeholders_of order_binding.path) w
          ≡ contains (wire_names (path_parameters order_binding.parameters)) w)
    × All (λ (p : Parameter). p.required ≡ true) (path_parameters order_binding.parameters)
check_path_template-Matched_example = check_path_template-Matched order_binding template_passes

-- Two parameters of one name are told apart by their locations.
abbrev id_header : Parameter
id_header = record trace_header { arg = text "id" }

abbrev clashing : HttpBinding
clashing = record order_binding { parameters = get_order ∷ id_header ∷ [] }

abbrev told_apart : HttpBinding
told_apart = record order_binding {
  parameters =
      record get_order { arg = text "path_id" } ∷ record id_header { arg = text "header_id" } ∷ [];
}

names_resolve : resolve_arg_names clashing ≡ ok told_apart
unfolding resolve_arg_names check_content_type see_all contributions renamed rename location_value
    body_names sorted_by text_eq nat_eq
names_resolve = refl

resolve_arg_names-Distinct_example :
    Distinct (argument_names told_apart)
    × (map (λ (p : Parameter). p.wire_name) told_apart.parameters
        ≡ map (λ (p : Parameter). p.wire_name) clashing.parameters)
    × (told_apart.path ≡ clashing.path)
    × (told_apart.body ≡ clashing.body)
resolve_arg_names-Distinct_example = resolve_arg_names-Distinct clashing told_apart names_resolve

abbrev id_entry : ParameterEntry
id_entry = record {
  arg = text "id";
  location = ParamLocation.path;
  wire_name = none;
  required = true;
  schema = [];
  explode = true;
}

abbrev order_entry : OperationEntry
order_entry = record {
  id = text "Order.Get";
  upstream = text "shop";
  description = text "Get";
  title = none;
  name = none;
  group_tags = [];
  effect = none;
  sensitivity = none;
  binding = http_entry (record {
    method = text "get";
    path = text "/orders/{id}";
    parameters = id_entry ∷ [];
    body = none;
  });
}

abbrev order_built : Operation
order_built = record {
  id = text "Order.Get";
  upstream = text "shop";
  name = [];
  title = text "Get";
  description = text "Get";
  group_tags = [];
  effect = read_only;
  sensitivity = normal;
  input_schema =
      (text "type", str (text "object"))
      ∷ (text "properties", obj (Fields.field (text "id") (obj Fields.end) Fields.end))
      ∷ (text "required", arr (cons (str (text "id")) nil))
      ∷ [];
  binding = Binding.http (record {
    method = text "GET";
    path = text "/orders/{id}";
    parameters = get_order ∷ [];
    body = none;
  });
  meta = [];
}

entry_builds : explicit_operations ascii (order_entry ∷ []) ≡ ok (order_built ∷ [])
unfolding explicit_operations build build_http http_binding parameter_of text_or operation_of
    first_line line effect_for_method build_input_schema schema_properties schema_required
    insert_all json_texts object_of check_path_template placeholders_of find_placeholders
    declare_all declare_path repeated dedup resolve_arg_names check_content_type see_all
    contributions renamed rename location_value body_names sorted_by text_eq nat_eq location_eq
entry_builds = refl

explicit_operations-Callable_example : All Callable (order_built ∷ [])
explicit_operations-Callable_example =
    explicit_operations-Callable ascii (order_entry ∷ []) (order_built ∷ []) entry_builds

list_type :
    json_type_for_graphql_type (text "[Int]!")
    ≡ obj (
        Fields.field (text "type") (str (text "array")) (
          Fields.field
            (text "items")
            (obj (Fields.field (text "type") (str (text "integer")) Fields.end))
            Fields.end))
unfolding json_type_for_graphql_type json_type_on scalar_type between_brackets without_bang
    without_last lstrip_blank rstrip_blank text_eq nat_eq
list_type = refl

abbrev ints : GraphQlType
ints = list_of (named (text "Int") true) true

ints_written : IsWritten ints
unfolding nat_eq
ints_written = (
  (λ e. cc),
  (
    (refl, omega arith, omega arith, omega arith),
    (
      (refl, omega arith, omega arith, omega arith),
      ((refl, omega arith, omega arith, omega arith), tt),
    ),
  ),
)

json_type_for_graphql_type-print_example :
    json_type_for_graphql_type (text "[Int!]!") ≡ schema_of ints
json_type_for_graphql_type-print_example = json_type_for_graphql_type-print ints ints_written
