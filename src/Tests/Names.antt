-- ===== src/Tests/Names.antt =====
-- The theorems on names, tool sets, merged operations and configs at a shop with two operations.
use mcp_portal.Base.{
  All, Dict, Distinct, List, Text, [], dedup, err, join, lookup, map, nat_eq, none, ok, option_eq,
  refl, repeated, some, sorted_by, text, text_eq, values, ◌∷◌, ◌≡◌, ◌≢◌,
}
use mcp_portal.Operations.{Operation, effect_eq, location_eq, sensitivity_eq}
use mcp_portal.Naming.{
  base_name, base_names, cap, core_name, duplicate_ids, final_name, generate_names, lstrip,
  name_parts, name_pattern, normalize, resolve_names, rstrip, sub_invalid, suffix, unpublishable,
}
use mcp_portal.Naming.Lengths.{generate_names-ne-unpublishable}
use mcp_portal.Config.Validation.{
  check_config, default_total_budget, dynamic_modes_need_endpoint_and_client, exchanging,
  graphql_base_url_matches, graphql_introspection_needs_base_url, static_needs_a_value,
  unauthenticated_http_is_guarded, unknown_upstreams_of, unresolvable, validate_config,
  validate_inbound, validate_introspection, validate_outbound, validate_upstream,
  validate_upstreams,
}
use mcp_portal.Config.Sound.{IsSound, validate_config-IsSound}
use mcp_portal.Registry.{
  ToolSet, apply_mode_posture, apply_rule, assign_names, build_toolset, claim, classify,
  classify_one, declared_rules, finish_names, generate_rest, index_by_name, keep, keep_excluded,
  keep_ids, matches, named, named_all, reserve, select, selected_operations,
}
use mcp_portal.Registry.Names.{assign_names-Distinct}
use mcp_portal.Registry.Toolset.{build_toolset-routes}
use mcp_portal.Registry.Errors.{Internal, build_toolset-errors}
use mcp_portal.Registry.Selected.{IsSelected, build_toolset-IsSelected}
use mcp_portal.Merge.{by_id, merge_operations, replaced}
use mcp_portal.Merge.Laws.{find, find-merge_operations}
use mcp_portal.Tests.{ascii, ascii-IsLawful, config, options, order_delete, order_read}

abbrev pub safe_toolset : ToolSet
safe_toolset = record {
  operations = record order_read { name = text "order_get" } ∷ [];
  by_name = (text "order_get", record order_read { name = text "order_get" }) ∷ [];
  warnings = [];
}

pub safe_toolset-built :
    build_toolset ascii (order_read ∷ order_delete ∷ []) config ≡ ok safe_toolset
unfolding build_toolset selected_operations classify classify_one apply_mode_posture select keep
    keep_ids keep_excluded declared_rules assign_names generate_rest finish_names reserve claim
    named named_all index_by_name matches apply_rule generate_names resolve_names base_names
    base_name name_parts core_name cap final_name normalize suffix sub_invalid lstrip rstrip
    name_pattern text_eq nat_eq effect_eq sensitivity_eq repeated sorted_by join dedup
safe_toolset-built = refl

abbrev both : List Operation
both = order_read ∷ order_delete ∷ []

abbrev both_names : Dict Text Text
both_names =
    (text "Order.Delete", text "orders_order_delete")
    ∷ (text "Order.Get", text "orders_order_get")
    ∷ []

both_named : generate_names ascii both options ≡ ok both_names
unfolding generate_names resolve_names base_names base_name name_parts core_name cap final_name
    normalize suffix sub_invalid lstrip rstrip name_pattern text_eq nat_eq sorted_by repeated join
both_named = refl

generate_names-ne-unpublishable_example :
    generate_names ascii both options ≢ err (unpublishable (values both_names))
generate_names-ne-unpublishable_example =
    generate_names-ne-unpublishable ascii both options (values both_names) ascii-IsLawful

build_toolset-routes_example :
    Distinct (map (λ (op : Operation). op.name) safe_toolset.operations)
    × All
        (λ (op : Operation). lookup op.name safe_toolset.by_name ≡ some op)
        safe_toolset.operations
build_toolset-routes_example =
    build_toolset-routes ascii both config safe_toolset safe_toolset-built

build_toolset-IsSelected_example : All (IsSelected config.selection) safe_toolset.operations
build_toolset-IsSelected_example =
    build_toolset-IsSelected ascii both config safe_toolset safe_toolset-built

twice_fails :
    build_toolset ascii (order_read ∷ order_read ∷ []) config
    ≡ err (duplicate_ids (text "Order.Get" ∷ []))
unfolding build_toolset selected_operations classify classify_one apply_mode_posture select keep
    keep_ids keep_excluded declared_rules assign_names text_eq nat_eq effect_eq sensitivity_eq
    sorted_by repeated dedup
twice_fails = refl

build_toolset-errors_example : ¬ Internal (duplicate_ids (text "Order.Get" ∷ []))
build_toolset-errors_example =
    build_toolset-errors ascii (order_read ∷ order_read ∷ []) config
      (duplicate_ids (text "Order.Get" ∷ [])) ascii-IsLawful twice_fails

abbrev named_both : List Operation
named_both = record order_read { name = text "orders_order_get" } ∷ order_delete ∷ []

assigned : assign_names ascii both options ≡ ok named_both
unfolding assign_names generate_rest finish_names reserve claim named named_all generate_names
    resolve_names base_names base_name name_parts core_name cap final_name normalize suffix
    sub_invalid lstrip rstrip name_pattern text_eq nat_eq sorted_by repeated join
assigned = refl

assign_names-Distinct_example :
    Distinct (map (λ (op : Operation). op.id) both)
    × Distinct (map (λ (op : Operation). op.name) named_both)
assign_names-Distinct_example = assign_names-Distinct ascii both named_both options assigned

merged : merge_operations both (order_delete ∷ []) ≡ ok both
unfolding merge_operations replaced by_id text_eq nat_eq sorted_by repeated
merged = refl

find-merge_operations_example :
    find (text "Order.Delete") both ≡ elim (find (text "Order.Delete") (order_delete ∷ [])) [
      | none ↦ find (text "Order.Delete") both
      | some e ↦ some e
    ]
find-merge_operations_example =
    find-merge_operations (text "Order.Delete") both (order_delete ∷ []) both merged

config-validates : validate_config config ≡ ok config
unfolding validate_config validate_upstreams validate_upstream validate_outbound
    static_needs_a_value dynamic_modes_need_endpoint_and_client validate_introspection
    graphql_introspection_needs_base_url graphql_base_url_matches default_total_budget
    validate_inbound check_config unknown_upstreams_of unresolvable unauthenticated_http_is_guarded
    exchanging text_eq nat_eq
config-validates = refl

validate_config-IsSound_example : IsSound config
validate_config-IsSound_example = validate_config-IsSound config config config-validates
