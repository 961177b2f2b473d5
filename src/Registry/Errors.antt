-- ===== src/Registry/Errors.antt =====
-- The errors of `build_toolset` are the collisions that it documents: its assertions hold.
use mcp_portal.Base.{
  >>=-ErrorsIn, >>=-eq-err, All, Bool, Dict, Distinct, ErrorsIn, List, Option-cases, Result, Text,
  [], arith, contains, dedup, err, err-injective, false, filter, guard, inl, inr, insert, is_empty,
  length, lookup, lookup-ne-none, nat_eq, none, ok, option_eq, refl, repeated, sorted_by, subst,
  sym, text_eq, true, ◌>>=◌, ◌∙◌, ◌∷◌, ◌≡◌, ◌≢◌,
}
use mcp_portal.Operations.{Operation, effect_eq, location_eq, sensitivity_eq}
use mcp_portal.Naming.{
  NameCollisionError, NamingOptions, both_declare, declared_explicitly, duplicate_ids,
  generate_names, no_generated_name, shadowed, survived_suffixing, unpublishable,
}
use mcp_portal.Registry.{
  assign_names, build_toolset, claim, finish_names, generate_rest, has_name, index_by_name, named,
  named_all, naming_options, reserve, selected_operations,
}
use mcp_portal.Platform.{IsLawful, Platform}
use mcp_portal.Naming.Lengths.{generate_names-ne-unpublishable}
use mcp_portal.Registry.Names.{assign_names-Distinct}
use mcp_portal.Registry.Owners.{names}
use mcp_portal.Config.{McpPortalConfig}
use mcp_portal.Naming.Unique.{contains-resolve_names, ids}
use mcp_portal.Registry.Toolset.{length-index_by_name}

-- A failed assertion or a missing key, and no collision of names or ids.
abbrev pub Internal : NameCollisionError → Type 0
Internal (unpublishable _) = Unit
Internal (no_generated_name _) = Unit
Internal shadowed = Unit
Internal _ = ⊥

same_error :
    (A : Type 0) (e₀ e : NameCollisionError)
    → ¬ Internal e₀
    → ◌≡◌ {A = Result NameCollisionError A} (err e₀) (err e)
    → ¬ Internal e
same_error A e₀ e n h i = n (subst Internal (sym (err-injective h)) i)

guard_error :
    (t : Bool) (e₀ : NameCollisionError) → ¬ Internal e₀ → ErrorsIn (λ e. ¬ Internal e) (guard t e₀)
guard_error true e₀ n e h = cc
guard_error false e₀ n e h = same_error Unit e₀ e n h

length-index :
    (ops : List Operation) → Distinct (names ops) → length (index_by_name ops []) ≡ length ops
length-index ops d = omega (arith, length-index_by_name ops [] d (λ n m. refl))

reserve-errors :
    (ops : List Operation) (owner : Dict Text Text) (e : NameCollisionError)
    → reserve ops owner ≡ err e
    → ¬ Internal e
unfolding reserve
reserve-errors [] owner e h = cc
reserve-errors (op ∷ ops) owner e h = elim (Option-cases (lookup op.name owner)) [
  | inr (other, there) ↦
      same_error (Dict Text Text) (both_declare other op.id op.name) e (λ i. i) (ground arith)
  | inl fresh ↦ reserve-errors ops (insert op.name op.id owner) e (ground arith)
]

claim-errors :
    (generated owner : Dict Text Text) (e : NameCollisionError)
    → claim generated owner ≡ err e
    → ¬ Internal e
unfolding claim
claim-errors [] owner e h = cc
claim-errors ((op_id, name) ∷ generated) owner e h = elim (Option-cases (lookup name owner)) [
  | inr (other, there) ↦
      same_error (Dict Text Text) (declared_explicitly op_id name other) e (λ i. i) (ground arith)
  | inl fresh ↦ claim-errors generated (insert name op_id owner) e (ground arith)
]

generate_names-ne-registry :
    (py : Platform) (ops : List Operation) (options : NamingOptions)
    → (generate_names py ops options ≢ err shadowed)
      × ((n : Text) → generate_names py ops options ≢ err (no_generated_name n))
unfolding generate_names
generate_names-ne-registry py ops options = (λ h. ground arith, λ n h. ground arith)

generate_names-errors :
    (py : Platform) (ops : List Operation) (options : NamingOptions) (e : NameCollisionError)
    → IsLawful py
    → generate_names py ops options ≡ err e
    → ¬ Internal e
generate_names-errors py ops options (unpublishable names) lawful h i =
    generate_names-ne-unpublishable py ops options names lawful h
generate_names-errors py ops options (no_generated_name n) lawful h i =
    (generate_names-ne-registry py ops options).1 n h
generate_names-errors py ops options shadowed lawful h i =
    (generate_names-ne-registry py ops options).0 h
generate_names-errors py ops options (duplicate_ids _) lawful h i = i
generate_names-errors py ops options (survived_suffixing _) lawful h i = i
generate_names-errors py ops options (both_declare _ _ _) lawful h i = i
generate_names-errors py ops options (declared_explicitly _ _ _) lawful h i = i

named_all-total :
    (generated : Dict Text Text) (ops : List Operation) (e : NameCollisionError)
    → All (λ (op : Operation). is_empty op.name ≡ true → lookup op.id generated ≢ none) ops
    → named_all generated ops ≢ err e
unfolding named_all named
named_all-total generated [] e a h = cc
named_all-total generated (op ∷ ops) e (found, a) h =
    ground (arith, named_all-total generated ops e a)

found_in_generated :
    (py : Platform) (ops unnamed : List Operation) (options : NamingOptions)
    (generated : Dict Text Text)
    → generate_names py unnamed options ≡ ok generated
    → ((op_id : Text)
        → contains (ids (filter (λ op. is_empty op.name) ops)) op_id ≡ true
        → contains (ids unnamed) op_id ≡ true)
    → All (λ (op : Operation). is_empty op.name ≡ true → lookup op.id generated ≢ none) ops
found_in_generated py [] unnamed options generated h sub = tt
found_in_generated py (op ∷ ops) unnamed options generated h sub = (
  λ e.
      lookup-ne-none op.id generated
        (contains-resolve_names py unnamed options generated op.id h ∙ sub op.id (ground arith)),
  found_in_generated py ops unnamed options generated h λ i m. sub i (ground arith),
)

abbrev Documented : NameCollisionError → Type 0
Documented e = ¬ Internal e

generate_rest-errors :
    (py : Platform) (selected : List Operation) (options : NamingOptions) (owner : Dict Text Text)
    → IsLawful py
    → ErrorsIn Documented (generate_rest py selected options owner)
unfolding generate_rest finish_names
generate_rest-errors py selected options owner lawful =
    let unnamed = filter (λ (op : Operation). is_empty op.name) selected in
    >>=-ErrorsIn Documented (generate_names py unnamed options) (finish_names selected owner)
      (λ e. generate_names-errors py unnamed options e lawful)
      λ generated produced.
        >>=-ErrorsIn Documented (claim (sorted_by (λ (op_id, _). op_id) generated) owner)
          (λ _. named_all generated selected)
          (claim-errors (sorted_by (λ (op_id, _). op_id) generated) owner)
          λ _ _ e h. absurd (
            named_all-total generated selected e
              (found_in_generated py selected unnamed options generated produced (λ i m. m)) h)

assign_names-errors :
    (py : Platform) (selected : List Operation) (options : NamingOptions)
    → IsLawful py
    → ErrorsIn Documented (assign_names py selected options)
unfolding assign_names
assign_names-errors py selected options lawful =
    let duplicates = repeated (ids selected) in
    let explicit = sorted_by (λ (op : Operation). op.id) (filter has_name selected) in
    let clash = duplicate_ids (sorted_by (λ i. i) (dedup duplicates)) in
    >>=-ErrorsIn Documented (guard (is_empty duplicates) clash)
      (λ _. reserve explicit [] >>= generate_rest py selected options)
      (guard_error (is_empty duplicates) clash (λ i. i))
      λ _ _.
        >>=-ErrorsIn Documented (reserve explicit []) (generate_rest py selected options)
          (reserve-errors explicit [])
          λ owner _. generate_rest-errors py selected options owner lawful

-- Whatever the operations and the config, `build_toolset` fails only for duplicate ids or colliding
-- names: every name that it generates can be published, every operation finds its name, and no
-- name is shadowed.
pub build_toolset-errors :
    (py : Platform) (operations : List Operation) (config : McpPortalConfig)
    (e : NameCollisionError)
    → IsLawful py
    → build_toolset py operations config ≡ err e
    → ¬ Internal e
unfolding build_toolset
build_toolset-errors py operations config e lawful h =
    let selected = (selected_operations operations config).0 in
    let options = naming_options config.naming in
    elim (>>=-eq-err (assign_names py selected options) _ h) [
      | inl failed ↦ assign_names-errors py selected options lawful e failed
      | inr (ops, named, h₁) ↦
          absurd (
            ground
              (arith, length-index ops (assign_names-Distinct py selected ops options named).1))
    ]
