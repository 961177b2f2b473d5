-- ===== src/Merge.antt =====
-- sources/merge.py: introspected and explicit operations, merged by id.
pub mod Laws
use mcp_portal.Base.{
  Dict, List, Result, Text, contains, dedup, filter, guard, is_empty, lookup, map, nat_eq, none,
  not, ok, option_eq, repeated, some, sorted_by, text_eq, ◌++◌, ◌>>=◌, ◌>>◌,
}
use mcp_portal.Operations.{Operation, effect_eq, location_eq, sensitivity_eq}
use mcp_portal.Naming.{NameCollisionError, duplicate_ids}

-- `{op.id: op for op in operations}`, for operations of distinct ids.
unfoldable pub by_id : List Operation → Dict Text Operation
by_id ops = map (λ (op : Operation). (op.id, op)) ops

unfoldable pub replaced : Dict Text Operation → Operation → Operation
replaced explicit_by_id op = elim (lookup op.id explicit_by_id) [ none ↦ op | some e ↦ e ]

unfoldable pub merge_operations :
    List Operation → List Operation → Result NameCollisionError (List Operation)
merge_operations introspected explicit =
    let duplicates = repeated (map (λ (op : Operation). op.id) explicit) in
    let seen = map (λ (op : Operation). op.id) introspected in
    do
      guard (is_empty duplicates) (duplicate_ids (sorted_by (λ i. i) (dedup duplicates)))
      ok (
          map (replaced (by_id explicit)) introspected
          ++ filter (λ op. not (contains seen op.id)) explicit)
