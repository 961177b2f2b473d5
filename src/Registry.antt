-- ===== src/Registry.antt =====
-- registry.py: classify, select, name: the tool set that is published.
pub mod Owners
pub mod Names
pub mod Selected
pub mod Toolset
pub mod Errors
use mcp_portal.Base.{
  Bool, Dict, List, Option, Result, Text, [], any, contains, dedup, err, false, filter, flat_map,
  fnmatch, guard, if◌then◌else◌, insert, is_empty, length, lookup, map, nat_eq, none, not, ok,
  option_eq, repeated, some, sorted_by, text_eq, true, ◌&&◌, ◌++◌, ◌==◌, ◌>>=◌, ◌>>◌, ◌∷◌,
}
use mcp_portal.Operations.{Operation, effect_eq, location_eq, normal, read_only, sensitivity_eq}
use mcp_portal.Platform.{Platform}
use mcp_portal.Naming.{
  NameCollisionError, NamingOptions, both_declare, declared_explicitly, duplicate_ids,
  generate_names, no_generated_name, shadowed,
}
use mcp_portal.Config.{
  ClassificationRule, MatchSpec, McpPortalConfig, NamingConfig, SelectionConfig, SourceMode,
  introspect_safe,
}

pub record ToolSet : Type 0 where
  pub operations : List Operation
  pub by_name : Dict Text Operation
  -- the stale selection rules that the warnings name
  pub warnings : List Text

-- `set(xs) & set(ys)`, as a truth value
abbrev pub meets : List Text → List Text → Bool
meets xs ys = any (λ x. contains ys x) xs

unfoldable pub matches : Operation → MatchSpec → Bool
matches op spec =
    if not (is_empty spec.ids) && not (any (λ pattern'. fnmatch op.id pattern') spec.ids)
    then false
    else if not (is_empty spec.tags) && not (meets spec.tags op.group_tags)
    then false
    else if not (is_empty spec.upstream) && not (contains spec.upstream op.upstream)
    then false
    else not (not (is_empty spec.effect) && not (contains spec.effect op.effect))

abbrev pub or_else {ℓ} : {A : Type ℓ} → Option A → A → A
or_else none a = a
or_else (some b) a = b

-- `dataclasses.replace(op, **changes)`
unfoldable pub apply_rule : Operation → ClassificationRule → Operation
apply_rule op rule = record op {
  effect = or_else rule.effect op.effect;
  sensitivity = or_else rule.sensitivity op.sensitivity;
}

-- The inner loop: later rules win, and match the operation as earlier ones left it.
unfoldable pub classify_one : Operation → List ClassificationRule → Operation
classify_one op [] = op
classify_one op (rule ∷ rules) =
    classify_one (if matches op rule.match then apply_rule op rule else op) rules

unfoldable pub classify : List Operation → List ClassificationRule → List Operation
classify ops rules = map (λ op. classify_one op rules) ops

abbrev pub is_safe : Operation → Bool
is_safe op = op.effect == read_only && op.sensitivity == normal

unfoldable pub apply_mode_posture : List Operation → SourceMode → List Operation
apply_mode_posture operations introspect_safe = filter is_safe operations
apply_mode_posture operations _ = operations

-- The patterns of a list that match the operation's id.
abbrev pub id_hits : Operation → List Text → List Text
id_hits op patterns = filter (λ p. fnmatch op.id p) patterns

abbrev pub tag_hits : Operation → List Text → List Text
tag_hits op tags = filter (λ t. contains op.group_tags t) tags

-- `keep`: whether the operation stays, and the rules that it adds to `used`.
unfoldable pub keep_excluded : SelectionConfig → Operation → Bool × List Text
keep_excluded s op =
    let hit_tags = tag_hits op s.exclude_tags in
    let hit_ids = id_hits op s.exclude_ids in
    if not (is_empty hit_tags)
    then (false, hit_tags)
    else if not (is_empty hit_ids)
    then (false, hit_ids)
    else (true, [])

unfoldable pub keep_ids : SelectionConfig → Operation → Bool × List Text
keep_ids s op = elim s.include_ids [
  | none ↦ keep_excluded s op
  | some patterns ↦
      let hits = id_hits op patterns in
      let (kept, used) = keep_excluded s op in
      if is_empty hits then (false, []) else (kept, hits ++ used)
]

unfoldable pub keep : SelectionConfig → Operation → Bool × List Text
keep s op = elim s.include_tags [
  | none ↦ keep_ids s op
  | some tags ↦
      let hits = tag_hits op tags in
      let (kept, used) = keep_ids s op in
      if is_empty hits then (false, []) else (kept, hits ++ used)
]

unfoldable pub declared_rules : SelectionConfig → List Text
declared_rules s =
    s.exclude_tags ++ (s.exclude_ids ++ (or_else s.include_tags [] ++ or_else s.include_ids []))

unfoldable pub select : List Operation → SelectionConfig → List Operation × List Text
select ops s =
    let used = flat_map (λ op. (keep s op).1) ops in
    (
      filter (λ op. (keep s op).0) ops,
      sorted_by (λ r. r) (filter (λ r. not (contains used r)) (dedup (declared_rules s))),
    )

-- The explicit names in the order of their ids; each takes its name in `owner`.
unfoldable pub reserve :
    List Operation → Dict Text Text → Result NameCollisionError (Dict Text Text)
reserve [] owner = ok owner
reserve (op ∷ ops) owner = elim (lookup op.name owner) [
  | some other ↦ err (both_declare other op.id op.name)
  | none ↦ reserve ops (insert op.name op.id owner)
]

-- The generated names, in the order of their ids.
unfoldable pub claim : Dict Text Text → Dict Text Text → Result NameCollisionError (Dict Text Text)
claim [] owner = ok owner
claim ((op_id, name) ∷ names) owner = elim (lookup name owner) [
  | some other ↦ err (declared_explicitly op_id name other)
  | none ↦ claim names (insert name op_id owner)
]

-- `op.name or generated[op.id]`
unfoldable pub named : Dict Text Text → Operation → Result NameCollisionError Operation
named generated op =
    if is_empty op.name
    then elim (lookup op.id generated) [
      | none ↦ err (no_generated_name op.id)
      | some name ↦ ok (record op { name = name })
    ]
    else ok op

unfoldable pub named_all :
    Dict Text Text → List Operation → Result NameCollisionError (List Operation)
named_all generated [] = ok []
named_all generated (op ∷ ops) = do
  first_op ← named generated op
  rest ← named_all generated ops
  ok (first_op ∷ rest)

abbrev pub has_name : Operation → Bool
has_name op = not (is_empty op.name)

-- The end of `assign_names`: no generated name may displace an explicit one.
unfoldable pub finish_names :
    List Operation → Dict Text Text → Dict Text Text → Result NameCollisionError (List Operation)
finish_names selected owner generated = do
  owned ← claim (sorted_by (λ (op_id, _). op_id) generated) owner
  named_all generated selected

unfoldable pub generate_rest :
    Platform
    → List Operation
    → NamingOptions
    → Dict Text Text
    → Result NameCollisionError (List Operation)
generate_rest py selected options owner = do
  generated ← generate_names py (filter (λ op. is_empty op.name) selected) options
  finish_names selected owner generated

unfoldable pub assign_names :
    Platform → List Operation → NamingOptions → Result NameCollisionError (List Operation)
assign_names py selected options =
    let duplicates = repeated (map (λ (op : Operation). op.id) selected) in
    do
      guard (is_empty duplicates) (duplicate_ids (sorted_by (λ i. i) (dedup duplicates)))
      owner ← reserve (sorted_by (λ (op : Operation). op.id) (filter has_name selected)) []
      generate_rest py selected options owner

-- `{op.name: op for op in named}`
unfoldable pub index_by_name : List Operation → Dict Text Operation → Dict Text Operation
index_by_name [] by_name = by_name
index_by_name (op ∷ ops) by_name = index_by_name ops (insert op.name op by_name)

unfoldable pub selected_operations : List Operation → McpPortalConfig → List Operation × List Text
selected_operations operations config =
    select (apply_mode_posture (classify operations config.classification) config.mode)
      config.selection

abbrev pub naming_options : NamingConfig → NamingOptions
naming_options n = record {
  strategy = n.strategy;
  prefix_with_group_tag = n.prefix_with_group_tag;
  prefix_with_upstream = n.prefix_with_upstream;
}

unfoldable pub build_toolset :
    Platform → List Operation → McpPortalConfig → Result NameCollisionError ToolSet
build_toolset py operations config = do
  let (selected, warnings) = selected_operations operations config
  ops ← assign_names py selected (naming_options config.naming)
  let by_name = index_by_name ops []
  guard (length by_name == length ops) shadowed
  ok (record { operations = ops; by_name = by_name; warnings = warnings })
