-- ===== src/Registry/Toolset.antt =====
-- The published tool set: each name routes to its own operation.
use mcp_portal.Base.{
  All, Dict, Distinct, List, Text, [], arith, contains, false, insert, length, lookup,
  lookup-insert, nat_eq, none, ok, option_eq, refl, some, suc, text_eq, true, ◌+◌, ◌∙◌, ◌∷◌, ◌≡◌,
}
use mcp_portal.Operations.{Operation, effect_eq, location_eq, sensitivity_eq}
use mcp_portal.Platform.{Platform}
use mcp_portal.Config.{McpPortalConfig}
use mcp_portal.Registry.{
  ToolSet, assign_names, build_toolset, index_by_name, named, naming_options, selected_operations,
}
use mcp_portal.Registry.Names.{assign_names-Distinct}
use mcp_portal.Registry.Owners.{names}

lookup-index_by_name :
    (n : Text) (ops : List Operation) (by_name : Dict Text Operation)
    → contains (names ops) n ≡ false
    → lookup n (index_by_name ops by_name) ≡ lookup n by_name
unfolding index_by_name
lookup-index_by_name n [] by_name h = refl
lookup-index_by_name n (op ∷ ops) by_name h =
    lookup-index_by_name n ops (insert op.name op by_name) (ground arith)
    ∙ ground (arith, lookup-insert n op.name op by_name)

index_by_name-routes :
    (ops : List Operation) (by_name : Dict Text Operation)
    → Distinct (names ops)
    → All (λ (op : Operation). lookup op.name (index_by_name ops by_name) ≡ some op) ops
unfolding index_by_name
index_by_name-routes [] by_name d = tt
index_by_name-routes (op ∷ ops) by_name (fresh, d) = (
  lookup-index_by_name op.name ops (insert op.name op by_name) fresh
      ∙ ground (arith, lookup-insert op.name op.name op by_name),
  index_by_name-routes ops (insert op.name op by_name) d,
)

length-insert_fresh :
    (k : Text) (op : Operation) (d : Dict Text Operation)
    → lookup k d ≡ none
    → length (insert k op d) ≡ suc (length d)
length-insert_fresh k op [] h = refl
length-insert_fresh k op ((j, w) ∷ d) h = ground (arith, length-insert_fresh k op d)

pub length-index_by_name :
    (ops : List Operation) (by_name : Dict Text Operation)
    → Distinct (names ops)
    → ((n : Text) → contains (names ops) n ≡ true → lookup n by_name ≡ none)
    → length (index_by_name ops by_name) ≡ length ops + length by_name
unfolding index_by_name
length-index_by_name [] by_name d apart = omega arith
length-index_by_name (op ∷ ops) by_name (fresh, d) apart = omega (
  arith,
  length-index_by_name ops (insert op.name op by_name) d
      λ n m. ground (arith, apart n, lookup-insert n op.name op by_name),
  length-insert_fresh op.name op by_name (apart op.name (ground arith)),
)

pub build_toolset-eq-ok :
    (py : Platform) (operations : List Operation) (config : McpPortalConfig) (ts : ToolSet)
    → build_toolset py operations config ≡ ok ts
    → (assign_names py (selected_operations operations config).0 (naming_options config.naming)
        ≡ ok ts.operations)
      × (ts.by_name ≡ index_by_name ts.operations [])
unfolding build_toolset
build_toolset-eq-ok py operations config ts h = ground arith

-- In a published tool set the names are pairwise distinct, and looking a name up yields the very
-- operation that is published under it.
pub build_toolset-routes :
    (py : Platform) (operations : List Operation) (config : McpPortalConfig) (ts : ToolSet)
    → build_toolset py operations config ≡ ok ts
    → Distinct (names ts.operations)
      × All (λ (op : Operation). lookup op.name ts.by_name ≡ some op) ts.operations
build_toolset-routes py operations config ts h =
    let (named, indexed) = build_toolset-eq-ok py operations config ts h in
    let (_, distinct) = assign_names-Distinct py _ ts.operations _ named in
    (distinct, rw indexed (index_by_name-routes ts.operations [] distinct))
