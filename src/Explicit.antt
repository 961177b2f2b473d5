-- ===== src/Explicit.antt =====
-- sources/explicit.py: operations from the config's `operations[]` entries.
pub mod Entries
pub mod Fuel
pub mod Types
use mcp_portal.Base.{
  Bool, Dict, List, Option, Result, Text, [], contains, err, filter, if◌then◌else◌, insert,
  is_empty, leb, length, map, nat_eq, none, ok, option_eq, some, suc, text, text_eq, without_last,
  zero, ℕ, ◌&&◌, ◌==◌, ◌>>=◌, ◌>>◌, ◌||◌, ◌∷◌,
}
use mcp_portal.Json.{Fields, Json, arr, obj, str}
use mcp_portal.Operations.{
  Binding, BodySpec, Effect, GraphQlBinding, HttpBinding, Operation, Parameter, Schema, Variable,
  effect_eq, graphql, location_eq, normal, sensitivity_eq,
}
use mcp_portal.Platform.{Platform}
use mcp_portal.Config.{
  BodyEntry, GraphQlBindingEntry, GraphQlVariableEntry, HttpBindingEntry, OperationEntry,
  ParameterEntry, graphql_entry, http_entry,
}
use mcp_portal.Classify.{effect_for_method, effect_for_operation_type}
use mcp_portal.Transports.Http.{object_of}
use mcp_portal.Flatten.{
  Flat, FlattenError, build_input_schema, check_path_template, json_texts, resolve_arg_names,
}

-- `str.strip()` and `str.splitlines()`: the characters that Python counts as blank and as the end
-- of a line.
abbrev pub is_blank : ℕ → Bool
is_blank c =
    (leb 9 c && leb c 13)
    || ((leb 28 c && leb c 32)
        || ((leb 8192 c && leb c 8202)
            || contains (133 ∷ 160 ∷ 5760 ∷ 8232 ∷ 8233 ∷ 8239 ∷ 8287 ∷ 12288 ∷ []) c))

abbrev ends_line : ℕ → Bool
ends_line c =
    (leb 10 c && leb c 13) || ((leb 28 c && leb c 30) || contains (133 ∷ 8232 ∷ 8233 ∷ []) c)

unfoldable pub lstrip_blank : Text → Text
lstrip_blank [] = []
lstrip_blank (c ∷ s) = let rest = lstrip_blank s in if is_blank c then rest else c ∷ s

unfoldable pub rstrip_blank : Text → Text
rstrip_blank [] = []
rstrip_blank (c ∷ s) =
    let rest = rstrip_blank s in if is_blank c && is_empty rest then [] else c ∷ rest

unfoldable pub without_bang : Text → Text
without_bang t = elim (without_last b'!' t) [ none ↦ t | some rest ↦ rest ]

-- What stands between the brackets of a list type.
unfoldable pub between_brackets : Text → Option Text
between_brackets [] = none
between_brackets (c ∷ s) = if c == b'[' then without_last b']' s else none

unfoldable pub scalar_type : Text → Json
scalar_type t =
    if t == text "Int"
    then str (text "integer")
    else if t == text "Float"
    then str (text "number")
    else if t == text "Boolean"
    then str (text "boolean")
    else str (text "string")

-- On fuel: each pair of brackets shortens the text.
unfoldable pub json_type_on : ℕ → Text → Json
json_type_on zero t = obj Fields.end
json_type_on (suc n) t =
    let bare = without_bang (rstrip_blank (lstrip_blank t)) in
    elim (between_brackets bare) [
      | none ↦ obj (Fields.field (text "type") (scalar_type bare) Fields.end)
      | some item ↦ obj (
          Fields.field (text "type") (str (text "array"))
            (Fields.field (text "items") (json_type_on n item) Fields.end))
    ]

unfoldable pub json_type_for_graphql_type : Text → Json
json_type_for_graphql_type t = json_type_on (suc (length t)) t

-- `option or default`, where an empty text counts as none.
unfoldable pub text_or : Option Text → Text → Text
text_or none default = default
text_or (some t) default = if is_empty t then default else t

abbrev pub value_or {ℓ} : {A : Type ℓ} → Option A → A → A
value_or none default = default
value_or (some a) default = a

unfoldable pub parameter_of : ParameterEntry → Parameter
parameter_of p = record {
  arg = p.arg;
  location = p.location;
  wire_name = text_or p.wire_name p.arg;
  required = p.required;
  schema = p.schema;
  explode = p.explode;
}

unfoldable pub body_of : BodyEntry → BodySpec
body_of b = record { content_type = b.content_type; schema = b.schema; mode = b.mode }

unfoldable pub http_binding : Platform → HttpBindingEntry → HttpBinding
http_binding py entry = record {
  method = py.upper entry.method;
  path = entry.path;
  parameters = map parameter_of entry.parameters;
  body = elim entry.body [ none ↦ none | some b ↦ some (body_of b) ];
}

unfoldable pub variable_of : GraphQlVariableEntry → Variable
variable_of v = record { name = v.name; graphql_type = v.graphql_type; required = v.required }

unfoldable pub graphql_binding : GraphQlBindingEntry → GraphQlBinding
graphql_binding entry = record {
  operation_type = entry.operation_type;
  document = entry.document;
  variables = map variable_of entry.variables;
}

-- `next(iter(description.splitlines()), id)`
unfoldable pub line : Text → Text
line [] = []
line (c ∷ s) = let rest = line s in if ends_line c then [] else c ∷ rest

unfoldable pub first_line : Text → Text → Text
first_line [] default = default
first_line (c ∷ s) default = line (c ∷ s)

unfoldable pub operation_of : OperationEntry → Effect → Schema → Binding → Operation
operation_of entry derived_effect input_schema binding = record {
  id = entry.id;
  upstream = entry.upstream;
  name = value_or entry.name [];
  title = text_or entry.title (first_line entry.description entry.id);
  description = entry.description;
  group_tags = entry.group_tags;
  effect = value_or entry.effect derived_effect;
  sensitivity = value_or entry.sensitivity normal;
  input_schema = input_schema;
  binding = binding;
  meta = [];
}

unfoldable pub variable_types : List Variable → Dict Text Json → Dict Text Json
variable_types [] properties = properties
variable_types (v ∷ vs) properties =
    variable_types vs (insert v.name (json_type_for_graphql_type v.graphql_type) properties)

unfoldable pub variables_schema : List Variable → Schema
variables_schema vs =
    (text "type", str (text "object"))
    ∷ (text "properties", obj (object_of (variable_types vs [])))
    ∷ (
      text "required",
      arr (json_texts (map (λ (v : Variable). v.name) (filter (λ v. v.required) vs))),
    )
    ∷ []

unfoldable pub build_graphql : OperationEntry → GraphQlBindingEntry → Operation
build_graphql entry binding_entry =
    let binding = graphql_binding binding_entry in
    operation_of entry (effect_for_operation_type binding_entry.operation_type)
      (variables_schema binding.variables) (Binding.graphql binding)

-- `none` for a method that is dropped at the source.
unfoldable pub build_http : Platform → OperationEntry → HttpBindingEntry → Flat (Option Operation)
build_http py entry binding_entry =
    let binding = http_binding py binding_entry in
    elim (effect_for_method py binding.method) [
      | err unsupported ↦ ok none
      | ok derived_effect ↦ do
        check_path_template binding
        resolved ← resolve_arg_names binding
        input_schema ← build_input_schema binding
        ok (some (operation_of entry derived_effect input_schema (Binding.http resolved)))
    ]

unfoldable pub build : Platform → OperationEntry → Flat (Option Operation)
build py entry = elim entry.binding [
  | graphql_entry b ↦ ok (some (build_graphql entry b))
  | http_entry b ↦ build_http py entry b
]

-- `list(ExplicitSource(config).operations())`; the error names the entry.
unfoldable pub explicit_operations :
    Platform → List OperationEntry → Result (Text × FlattenError) (List Operation)
explicit_operations py [] = ok []
explicit_operations py (entry ∷ entries) =
    let rest = explicit_operations py entries in
    elim (build py entry) [
      | err e ↦ err (entry.id, e)
      | ok none ↦ rest
      | ok (some op) ↦ rest >>= λ ops. ok (op ∷ ops)
    ]
