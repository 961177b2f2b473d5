-- ===== src/Flatten.antt =====
-- sources/flatten.py: path templates, argument names and the input schema of a tool.
pub mod Template
pub mod Arguments
use mcp_portal.Base.{
  Bool, Dict, List, Option, Result, Text, [], contains, count, dedup, err, filter, guard,
  if◌then◌else◌, insert, is_empty, keys, lookup, ltb, map, nat_eq, none, not, ok, option_eq,
  repeated, some, sorted_by, text, text_eq, values, ◌++◌, ◌==◌, ◌>>=◌, ◌>>◌, ◌∷◌,
}
use mcp_portal.Json.{Items, Json, arr, cons, fields, nil, obj, str}
use mcp_portal.Operations.{
  BodySpec, HttpBinding, ParamLocation, Parameter, Schema, effect_eq, location_eq, sensitivity_eq,
}
use mcp_portal.Transports.Http.{is_whole, object_of, required_names}

pub data FlattenError : Type 0 where
  unsupported_content_type : Text → FlattenError
  repeated_placeholders : List Text → FlattenError
  optional_path_parameter : Text → FlattenError
  shared_wire_name : Text → Text → Text → FlattenError
  unmatched_placeholders : List Text → FlattenError
  unplaced_parameters : List Text → FlattenError
  argument_collision : Text → Text → Text → FlattenError

abbrev pub Flat : Type 0 → Type 0
Flat A = Result FlattenError A

abbrev pub body_arg : Text
body_arg = text "body"

abbrev pub supported_content_types : List Text
supported_content_types = text "application/json" ∷ []

abbrev pub dropped_body_keywords : List Text
dropped_body_keywords =
    text "oneOf"
    ∷ text "anyOf"
    ∷ text "allOf"
    ∷ text "not"
    ∷ text "if"
    ∷ text "then"
    ∷ text "else"
    ∷ text "additionalProperties"
    ∷ text "unevaluatedProperties"
    ∷ text "patternProperties"
    ∷ text "propertyNames"
    ∷ text "dependentRequired"
    ∷ text "dependentSchemas"
    ∷ text "minProperties"
    ∷ text "maxProperties"
    ∷ []

-- The fields of an object. `dict` of a value of another kind raises or, of an empty text or list,
-- has none: here each has none, so a schema whose `properties` are no object is read as without.
unfoldable pub object_fields : Option Json → Dict Text Json
object_fields (some (obj fs)) = fields fs
object_fields _ = []

unfoldable pub body_properties : BodySpec → Option (Dict Text Json)
body_properties body =
    if is_whole body then none else some (object_fields (lookup (text "properties") body.schema))

unfoldable pub check_content_type : Option BodySpec → Flat (Unit {0})
check_content_type none = ok tt
check_content_type (some body) =
    guard (contains supported_content_types body.content_type)
      (unsupported_content_type body.content_type)

-- `_PLACEHOLDER.findall`: what has been read since the last opening brace, if there is one.
unfoldable pub find_placeholders : Option Text → Text → List Text
find_placeholders since [] = []
find_placeholders none (c ∷ s) =
    let opened = find_placeholders (some []) s in
    let outside = find_placeholders none s in if c == b'{' then opened else outside
find_placeholders (some name) (c ∷ s) =
    let opened = find_placeholders (some []) s in
    let closed = name ∷ find_placeholders none s in
    let longer = find_placeholders (some (name ++ (c ∷ []))) s in
    if c == b'{' then opened else if c == b'}' then closed else longer

unfoldable pub placeholders_of : Text → List Text
placeholders_of path = find_placeholders none path

abbrev pub is_path : Parameter → Bool
is_path p = p.location == ParamLocation.path

-- The body of the loop: `declared` maps wire names to argument names.
unfoldable pub declare_path : Parameter → Dict Text Text → Flat (Dict Text Text)
declare_path p declared =
    if not p.required
    then err (optional_path_parameter p.arg)
    else elim (lookup p.wire_name declared) [
      | some other ↦ err (shared_wire_name other p.arg p.wire_name)
      | none ↦ ok (insert p.wire_name p.arg declared)
    ]

unfoldable pub declare_all : List Parameter → Dict Text Text → Flat (Dict Text Text)
declare_all [] declared = ok declared
declare_all (p ∷ ps) declared = do
  next ← (if is_path p then declare_path p declared else ok declared)
  declare_all ps next

unfoldable pub check_path_template : HttpBinding → Flat (Unit {0})
check_path_template binding =
    let placeholders = placeholders_of binding.path in
    let twice = repeated placeholders in
    do
      guard (is_empty twice) (repeated_placeholders (sorted_by (λ p. p) (dedup twice)))
      declared ← declare_all binding.parameters []
      let unmatched = filter (λ p. not (contains (keys declared) p)) placeholders
      guard (is_empty unmatched) (unmatched_placeholders (sorted_by (λ p. p) (dedup unmatched)))
      let unplaced = filter (λ (w, _). not (contains placeholders w)) declared
      guard (is_empty unplaced) (unplaced_parameters (sorted_by (λ a. a) (values unplaced)))

unfoldable pub unsupported_body_keywords : Option BodySpec → List Text
unsupported_body_keywords none = []
unsupported_body_keywords (some body) =
    if is_whole body then [] else filter (λ k. contains (keys body.schema) k) dropped_body_keywords

unfoldable pub location_value : ParamLocation → Text
location_value ParamLocation.path = text "path"
location_value ParamLocation.query = text "query"
location_value ParamLocation.header = text "header"

-- The names that the body contributes.
unfoldable pub body_names : Option BodySpec → List Text
body_names none = []
body_names (some body) = elim (body_properties body) [
  | none ↦ body_arg ∷ []
  | some properties ↦ keys properties
]

unfoldable pub rename : List Text → Parameter → Parameter
rename names p =
    if ltb 1 (count p.arg names)
    then record p { arg = location_value p.location ++ (b'_' ∷ p.arg) }
    else p

unfoldable pub renamed : HttpBinding → List Parameter
renamed binding =
    map (rename (map (λ (p : Parameter). p.arg) binding.parameters ++ body_names binding.body))
      binding.parameters

-- The two loops over `seen`: each name with what contributes it.
unfoldable pub see_all : Dict Text Text → Dict Text Text → Flat (Unit {0})
see_all [] seen = ok tt
see_all ((name, contributor) ∷ rest) seen = elim (lookup name seen) [
  | some other ↦ err (argument_collision name other contributor)
  | none ↦ see_all rest (insert name contributor seen)
]

unfoldable pub contributions : HttpBinding → Dict Text Text
contributions binding =
    map (λ (p : Parameter). (p.arg, location_value p.location)) (renamed binding)
    ++ map (λ n. (n, text "body")) (sorted_by (λ n. n) (body_names binding.body))

unfoldable pub resolve_arg_names : HttpBinding → Flat HttpBinding
resolve_arg_names binding = do
  check_content_type binding.body
  see_all (contributions binding) []
  ok (record binding { parameters = renamed binding })

unfoldable pub insert_all : Dict Text Json → Dict Text Json → Dict Text Json
insert_all [] properties = properties
insert_all ((k, v) ∷ rest) properties = insert_all rest (insert k v properties)

unfoldable pub schema_properties : HttpBinding → Dict Text Json
schema_properties resolved =
    let parameters =
      insert_all (map (λ (p : Parameter). (p.arg, obj (object_of p.schema))) resolved.parameters)
        [] in
    elim resolved.body [
      | none ↦ parameters
      | some body ↦ elim (body_properties body) [
        | none ↦ insert body_arg (obj (object_of body.schema)) parameters
        | some properties ↦ insert_all properties parameters
      ]
    ]

unfoldable pub schema_required : HttpBinding → List Text
schema_required resolved =
    map (λ (p : Parameter). p.arg) (filter (λ p. p.required) resolved.parameters)
    ++ elim resolved.body [
      | none ↦ []
      | some body ↦
          if is_whole body
          then body_arg ∷ []
          else required_names (lookup (text "required") body.schema)
    ]

unfoldable pub json_texts : List Text → Items
json_texts [] = nil
json_texts (t ∷ ts) = cons (str t) (json_texts ts)

unfoldable pub build_input_schema : HttpBinding → Flat Schema
build_input_schema binding = do
  resolved ← resolve_arg_names binding
  let required = schema_required resolved
  ok (
      (text "type", str (text "object"))
      ∷ (text "properties", obj (object_of (schema_properties resolved)))
      ∷ (if is_empty required then [] else (text "required", arr (json_texts required)) ∷ []))
