-- ===== src/Tests/Loading.antt =====
-- The theorems on the loading of a config, at a shop's config with one secret.
use mcp_portal.Classify.{effect_for_method}
use mcp_portal.Base.{
  All, Any, Dict, Text, [], dedup, false, inl, insert_by, join, lookup, nat_eq, none, ok, option_eq,
  refl, repeated, some, sorted_by, starts_with, text, text_eq, text_le, true, without_last, ◌++◌,
  ◌∷◌, ◌≡◌, ◌≢◌,
}
use mcp_portal.Json.{Fields, Json, obj, str}
use mcp_portal.Operations.{
  Binding, Operation, ParamLocation, Schema, effect_eq, location_eq, normal, read_only,
  sensitivity_eq,
}
use mcp_portal.Config.{
  HttpBindingEntry, McpPortalConfig, OperationEntry, ParameterEntry, UpstreamConfig, configured,
  http_entry, static,
}
use mcp_portal.Config.Validation.{
  check_config, default_total_budget, dynamic_modes_need_endpoint_and_client, exactly_one,
  exchanging, graphql_base_url_matches, graphql_introspection_needs_base_url, missing_dynamic,
  static_needs_a_value, unauthenticated_http_is_guarded, unknown_upstreams_of, unresolvable,
  validate_config, validate_inbound, validate_introspection, validate_openapi, validate_outbound,
  validate_upstream, validate_upstreams, without_base_url,
}
use mcp_portal.PolicyConfig.{
  non_empty_when_present, offending, require_less_rule_forbidden_under_deny, validate,
  validate_require, validate_requirement, validate_requirements, validate_rules,
}
use mcp_portal.Explicit.{
  build, build_http, explicit_operations, first_line, http_binding, line, operation_of,
  parameter_of, text_or,
}
use mcp_portal.Flatten.{
  body_names, build_input_schema, check_content_type, check_path_template, contributions,
  declare_all, find_placeholders, insert_all, json_texts, location_value, placeholders_of, rename,
  renamed, resolve_arg_names, schema_properties, schema_required, see_all,
}
use mcp_portal.Transports.Http.{
  Credential, PreparedRequest, build_content, build_request, check_header_value, join_url,
  lstrip_slash, object_of, place, place_all, rstrip_slash, with_query,
}
use mcp_portal.Loader.{
  Environment, LoadedConfig, Readers, check_entries, check_entry, check_header_denylist,
  check_parameter, check_parameters, collect_secrets, collect_text, credential_headers_for,
  is_denylisted, load_config, load_policy, load_policy_file, read_file, read_valid, resolve_ref,
  resolve_secret, resolved_path, secret_ref, target_of, without_newline,
}
use mcp_portal.Loader.Loaded.{IsLoaded, load_config-IsLoaded}
use mcp_portal.Loader.Checked.{build_request-credential_alone}
use mcp_portal.App.{
  App, Transport, app_principal, app_toolset, build_app, build_transport, build_transports,
  configured_base_urls, executes, explicit_of, has_graphql, has_http, introspected_operations,
  only_http, source_for, static_source, static_source_for, transport_for,
}
use mcp_portal.App.Wiring.{protocol_of}
use mcp_portal.App.Upstreams.{build_app-serves}
use mcp_portal.Tests.{ascii, closed_policy, config, shop}
use mcp_portal.Registry.{
  apply_mode_posture, apply_rule, assign_names, build_toolset, claim, classify, classify_one,
  declared_rules, finish_names, generate_rest, index_by_name, keep, keep_excluded, keep_ids,
  matches, named, named_all, reserve, select, selected_operations,
}
use mcp_portal.Naming.{
  base_name, base_names, cap, core_name, final_name, generate_names, lstrip, name_parts,
  name_pattern, normalize, resolve_names, rstrip, sub_invalid, suffix,
}
use mcp_portal.Merge.{by_id, merge_operations, replaced}
use mcp_portal.Rar.{parse_authorization_details, parse_entries}
use mcp_portal.Principal.{local_principal}
use mcp_portal.Outbound.{credential_for, secret_of, static_credential, with_scheme}

abbrev key_ref : Text
key_ref = text "$" ++ text "{env:K}"

abbrev keyed_shop : UpstreamConfig
keyed_shop = record shop {
  auth = record {
    outbound = record shop.auth.outbound {
      mode = static;
      header = text "X-Key";
      value = some key_ref;
    };
  };
}

abbrev trace_parameter : ParameterEntry
trace_parameter = record {
  arg = text "trace";
  location = ParamLocation.header;
  wire_name = none;
  required = false;
  schema = [];
  explode = true;
}

abbrev list_binding : HttpBindingEntry
list_binding = record {
  method = text "get";
  path = text "/orders";
  parameters = trace_parameter ∷ [];
  body = none;
}

abbrev list_entry : OperationEntry
list_entry = record {
  id = text "Order.List";
  upstream = text "shop";
  description = text "List";
  title = none;
  name = none;
  group_tags = [];
  effect = none;
  sensitivity = none;
  binding = http_entry list_binding;
}

abbrev keyed_config : McpPortalConfig
keyed_config = record config {
  mode = configured;
  upstreams = (text "shop", keyed_shop) ∷ [];
  operations = list_entry ∷ [];
  policy = some (record { file = text "p" });
}

-- The file's value, which holds one reference.
abbrev raw_config : Json
raw_config = obj (Fields.field (text "value") (str key_ref) Fields.end)

abbrev machine : Environment
machine = record { getenv = λ name. some (text "s"); read_text = λ path. some (text "{}") }

abbrev readers : Readers
readers = record {
  parse = λ path content. some raw_config;
  read_config = λ raw. some keyed_config;
  read_policy = λ raw. some closed_policy;
}

abbrev loaded : LoadedConfig
loaded = record {
  config = keyed_config;
  base_dir = text "/etc";
  secrets = (key_ref, text "s") ∷ [];
  policy = some closed_policy;
}

config_loads : load_config machine readers ascii (text "/etc/c") (text "/etc") ≡ ok loaded
unfolding load_config read_file read_valid validate_config validate_upstreams validate_upstream
    validate_outbound static_needs_a_value dynamic_modes_need_endpoint_and_client
    validate_introspection graphql_introspection_needs_base_url graphql_base_url_matches
    validate_inbound check_config unknown_upstreams_of text_eq unresolvable dedup nat_eq insert_by
    sorted_by starts_with text_le without_last default_total_budget exactly_one exchanging
    missing_dynamic unauthenticated_http_is_guarded validate_openapi without_base_url text_or
    check_entries check_entry check_header_denylist check_parameter check_parameters collect_secrets
    collect_text credential_headers_for is_denylisted load_policy load_policy_file resolve_ref
    resolve_secret resolved_path secret_ref target_of without_newline location_eq
    non_empty_when_present offending require_less_rule_forbidden_under_deny validate
    validate_require validate_requirement validate_requirements validate_rules
config_loads = refl

load_config-IsLoaded_example :
    (raw : Json) × (read_file machine readers (text "/etc/c") ≡ ok raw)
    × IsLoaded machine readers ascii raw loaded
load_config-IsLoaded_example =
    load_config-IsLoaded machine readers ascii (text "/etc/c") (text "/etc") loaded config_loads

secrets_found : collect_secrets machine (text "/etc") raw_config [] ≡ ok ((key_ref, text "s") ∷ [])
unfolding collect_secrets collect_text secret_ref target_of starts_with nat_eq without_last
    resolve_secret resolve_ref
secrets_found = refl

abbrev key : Credential
key = record { header = text "X-Key"; value = text "s" }

abbrev list_arguments : Dict Text Json
list_arguments = (text "trace", str (text "t")) ∷ []

abbrev list_request : PreparedRequest
list_request = record {
  method = text "GET";
  url = text "https://shop/orders";
  headers = (text "trace", text "t") ∷ (text "X-Key", text "s") ∷ [];
  content = none;
}

list_names :
    resolve_arg_names (http_binding ascii list_binding) ≡ ok (http_binding ascii list_binding)
unfolding resolve_arg_names check_content_type http_binding see_all contributions renamed sorted_by
    body_names parameter_of rename text_eq
list_names = refl

list_built :
    build_request ascii
      (http_binding ascii list_binding)
      (text "https://shop")
      list_arguments
      (some key)
    ≡ ok list_request
unfolding build_request place_all http_binding text_eq parameter_of place check_header_value
    build_content with_query text_or join_url rstrip_slash lstrip_slash
list_built = refl

key_is_no_content_type : ascii.lower (text "Content-Type") ≢ ascii.lower key.header
key_is_no_content_type e = cc

build_request-credential_alone_example :
    Any (λ (h : Text × Text). h ≡ (key.header, key.value)) list_request.headers
    × All
        (λ (h : Text × Text).
          ascii.lower h.0 ≡ ascii.lower key.header → h ≡ (key.header, key.value))
        list_request.headers
build_request-credential_alone_example =
    build_request-credential_alone machine readers ascii (text "/etc/c") (text "/etc") loaded
      list_entry list_binding keyed_shop (http_binding ascii list_binding) (text "https://shop")
      list_arguments key list_request config_loads (inl refl) refl list_names (inl refl) refl refl
      key_is_no_content_type list_built

abbrev list_schema : Schema
list_schema =
    (text "type", str (text "object"))
    ∷ (text "properties", obj (Fields.field (text "trace") (obj Fields.end) Fields.end))
    ∷ []

abbrev list_operation : Operation
list_operation = record {
  id = text "Order.List";
  upstream = text "shop";
  name = text "order_list";
  title = text "List";
  description = text "List";
  group_tags = [];
  effect = read_only;
  sensitivity = normal;
  input_schema = list_schema;
  binding = Binding.http (http_binding ascii list_binding);
  meta = [];
}

abbrev served : App
served = record {
  toolset = record {
    operations = list_operation ∷ [];
    by_name = (text "order_list", list_operation) ∷ [];
    warnings = [];
  };
  transports =
      (
        text "shop",
        only_http (record { upstream = keyed_shop; credential_source = static_source (some key) }),
      )
      ∷ [];
  policy = closed_policy;
  principal = record {
    identity = text "local";
    authorization_details = [];
    subject_token = none;
    subject_token_expires_at = none;
  };
}

app_built : build_app ascii (λ c. none) loaded ≡ ok served
unfolding build_app introspected_operations explicit_of explicit_operations build build_http
    effect_for_method text_eq http_binding check_path_template repeated placeholders_of
    find_placeholders declare_all location_eq parameter_of resolve_arg_names check_content_type
    see_all contributions renamed rename body_names build_input_schema schema_properties
    schema_required insert_all location_value json_texts operation_of first_line line text_or
    app_toolset merge_operations by_id replaced build_toolset selected_operations classify
    classify_one apply_mode_posture select keep keep_ids keep_excluded declared_rules assign_names
    generate_rest finish_names reserve claim named named_all index_by_name matches apply_rule
    generate_names resolve_names base_names base_name name_parts core_name cap final_name normalize
    suffix sub_invalid lstrip rstrip name_pattern nat_eq effect_eq sensitivity_eq sorted_by join
    dedup app_principal local_principal parse_authorization_details parse_entries build_transports
    build_transport source_for static_source_for credential_for static_credential secret_of
    with_scheme configured_base_urls transport_for has_http has_graphql object_of
app_built = refl

build_app-serves_example :
    (t : Transport) × (lookup (text "shop") served.transports ≡ some t)
    × (executes t list_operation.binding ≡ some (protocol_of list_operation.binding))
build_app-serves_example =
    build_app-serves ascii (λ c. none) machine readers (text "/etc/c") (text "/etc") loaded served
      list_operation config_loads refl app_built (inl refl)
