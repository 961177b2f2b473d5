-- ===== src/Registry/Selected.antt =====
-- Which operations reach the tool set: the selection lists and the mode's posture.
use mcp_portal.Base.{
  >>=-eq-ok, >>_iff, All, All-imp, Bool, Bool-cases, Dict, List, Option-cases, Text, [], any, arith,
  contains, false, filter, fnmatch, guard, inl, inr, is_empty, nat_eq, not, ok, option_eq, refl,
  some, subst, sym, text_eq, true, ◌↔◌, ◌∷◌, ◌≡◌,
}
use mcp_portal.Operations.{Operation, effect_eq, location_eq, normal, read_only, sensitivity_eq}
use mcp_portal.Platform.{Platform}
use mcp_portal.Config.{McpPortalConfig, SelectionConfig, introspect_safe}
use mcp_portal.Naming.{generate_names}
use mcp_portal.Registry.{
  ToolSet, apply_mode_posture, assign_names, build_toolset, claim, classify, finish_names,
  generate_rest, is_safe, keep, keep_excluded, keep_ids, named, named_all, reserve, select,
  selected_operations,
}
use mcp_portal.Registry.Owners.{named-cases, named_all-cons, named_all-nil}
use mcp_portal.Registry.Toolset.{build_toolset-eq-ok}

-- What the selection lists ask of an operation.
pub record IsSelected (s : SelectionConfig) (op : Operation) : Type 0 where
  pub included_tag :
      (tags : List Text)
      → s.include_tags ≡ some tags
      → any (λ t. contains op.group_tags t) tags ≡ true
  pub included_id :
      (patterns : List Text)
      → s.include_ids ≡ some patterns
      → any (λ p. fnmatch op.id p) patterns ≡ true
  pub no_excluded_tag : any (λ t. contains op.group_tags t) s.exclude_tags ≡ false
  pub no_excluded_id : any (λ p. fnmatch op.id p) s.exclude_ids ≡ false

is_empty-filter : (p : Text → Bool) (xs : List Text) → is_empty (filter p xs) ≡ not (any p xs)
is_empty-filter p [] = refl
is_empty-filter p (x ∷ xs) = ground (arith, is_empty-filter p xs)

keep_excluded_iff :
    (s : SelectionConfig) (op : Operation)
    → ((keep_excluded s op).0 ≡ true)
      ↔ (any (λ t. contains op.group_tags t) s.exclude_tags ≡ false)
        × (any (λ p. fnmatch op.id p) s.exclude_ids ≡ false)
unfolding keep_excluded
keep_excluded_iff s op = ground (
  arith,
  is_empty-filter (λ t. contains op.group_tags t) s.exclude_tags,
  is_empty-filter (λ p. fnmatch op.id p) s.exclude_ids,
)

keep_ids_iff :
    (s : SelectionConfig) (op : Operation)
    → ((keep_ids s op).0 ≡ true)
      ↔ ((patterns : List Text)
          → s.include_ids ≡ some patterns
          → any (λ p. fnmatch op.id p) patterns ≡ true)
        × ((keep_excluded s op).0 ≡ true)
unfolding keep_ids
keep_ids_iff s op = elim (Option-cases s.include_ids) [
  | inl e ↦ rw e (λ h. (λ ps e'. cc, h), λ h. h.1)
  | inr (patterns, e) ↦
      let hits = is_empty-filter (λ p. fnmatch op.id p) patterns in
      rw e (λ h. (λ ps e'. ground arith, ground arith), λ h. ground (arith, h.0 patterns refl))
]

keep_tags_iff :
    (s : SelectionConfig) (op : Operation)
    → ((keep s op).0 ≡ true)
      ↔ ((tags : List Text)
          → s.include_tags ≡ some tags
          → any (λ t. contains op.group_tags t) tags ≡ true)
        × ((keep_ids s op).0 ≡ true)
unfolding keep
keep_tags_iff s op = elim (Option-cases s.include_tags) [
  | inl e ↦ rw e (λ h. (λ ts e'. cc, h), λ h. h.1)
  | inr (tags, e) ↦
      let hits = is_empty-filter (λ t. contains op.group_tags t) tags in
      rw e (λ h. (λ ts e'. ground arith, ground arith), λ h. ground (arith, h.0 tags refl))
]

-- An operation is kept exactly when it has an included tag and id, where such lists are given,
-- and neither an excluded tag nor an excluded id.
pub keep_iff : (s : SelectionConfig) (op : Operation) → ((keep s op).0 ≡ true) ↔ IsSelected s op
keep_iff s op = (
  λ h.
      let (tags, h₁) = (keep_tags_iff s op).0 h in
      let (patterns, h₂) = (keep_ids_iff s op).0 h₁ in
      let (tag, id) = (keep_excluded_iff s op).0 h₂ in
      record {
        included_tag = tags;
        included_id = patterns;
        no_excluded_tag = tag;
        no_excluded_id = id;
      },
  λ k. (keep_tags_iff s op).1 (
    k.included_tag,
    (keep_ids_iff s op).1
        (k.included_id, (keep_excluded_iff s op).1 (k.no_excluded_tag, k.no_excluded_id)),
  ),
)

module _ (P : Operation → Type 0)
    (P_named : (op : Operation) (n : Text) → P op → P (record op { name = n })) where
  named_all-All :
      (generated : Dict Text Text) (ops result : List Operation)
      → named_all generated ops ≡ ok result
      → All P ops
      → All P result
  named_all-All generated [] result h a = subst (All P) (named_all-nil generated result h) tt
  named_all-All generated (op ∷ ops) result h (p, a) =
      let (x, rest, hx, hr, same) = named_all-cons generated op ops result h in
      subst (All P) same (
        elim (named-cases generated op x hx) [
          | inl (_, e) ↦ subst P (sym e) p
          | inr (_, (n, _, e)) ↦ subst P (sym e) (P_named op n p)
        ],
        named_all-All generated ops rest hr a,
      )

  -- A property that a name does not touch passes from the selected operations to the tool set.
  pub toolset-All :
      (py : Platform) (operations : List Operation) (config : McpPortalConfig) (ts : ToolSet)
      → build_toolset py operations config ≡ ok ts
      → All P (selected_operations operations config).0
      → All P ts.operations
  unfolding assign_names generate_rest finish_names
  toolset-All py operations config ts h a =
      let selected = (selected_operations operations config).0 in
      let (named, _) = build_toolset-eq-ok py operations config ts h in
      let (_, h₁) = (>>_iff (guard _ _) _ ts.operations).0 named in
      let (owner, _, h₂) = >>=-eq-ok (reserve _ []) _ h₁ in
      let (generated, _, h₃) = >>=-eq-ok (generate_names py _ _) _ h₂ in
      let (_, _, h₄) = >>=-eq-ok (claim _ owner) _ h₃ in
      named_all-All generated selected ts.operations h₄ a

All-filter : (p : Operation → Bool) (ops : List Operation) → All (λ op. p op ≡ true) (filter p ops)
All-filter p [] = tt
All-filter p (op ∷ ops) = ground (arith, All-filter p ops)

pub All-filtered :
    (P : Operation → Type 0) (p : Operation → Bool) (ops : List Operation)
    → All P ops
    → All P (filter p ops)
All-filtered P p [] a = tt
All-filtered P p (op ∷ ops) (x, a) = elim (Bool-cases (p op)) [
  | inl e ↦ rw e (x, All-filtered P p ops a)
  | inr e ↦ rw e (All-filtered P p ops a)
]

abbrev Kept : SelectionConfig → Operation → Type 0
Kept s op = (keep s op).0 ≡ true

Kept-named :
    (s : SelectionConfig) (op : Operation) (n : Text) → Kept s op → Kept s (record op { name = n })
unfolding keep keep_ids keep_excluded
Kept-named s op n h = h

-- Every published operation passes the selection lists, whatever the mode.
pub build_toolset-IsSelected :
    (py : Platform) (operations : List Operation) (config : McpPortalConfig) (ts : ToolSet)
    → build_toolset py operations config ≡ ok ts
    → All (IsSelected config.selection) ts.operations
unfolding selected_operations select
build_toolset-IsSelected py operations config ts h =
    All-imp ts.operations (λ op. (keep_iff config.selection op).0)
      (toolset-All (Kept config.selection) (Kept-named config.selection) py operations config ts h
        (All-filter (λ op. (keep config.selection op).0) _))

abbrev pub IsHarmless : Operation → Type 0
IsHarmless op = (op.effect ≡ read_only) × (op.sensitivity ≡ normal)

safe-IsHarmless : (ops : List Operation) → All IsHarmless (filter is_safe ops)
safe-IsHarmless [] = tt
safe-IsHarmless (op ∷ ops) = ground (arith, safe-IsHarmless ops)

-- In mode `introspect-safe` every published operation is read-only and not sensitive, after the
-- classification rules have had their say.
pub build_toolset-IsHarmless :
    (py : Platform) (operations : List Operation) (config : McpPortalConfig) (ts : ToolSet)
    → build_toolset py operations config ≡ ok ts
    → config.mode ≡ introspect_safe
    → All IsHarmless ts.operations
unfolding selected_operations select apply_mode_posture
build_toolset-IsHarmless py operations config ts h mode =
    toolset-All IsHarmless (λ op n p. p) py operations config ts h
      (All-filtered IsHarmless (λ op. (keep config.selection op).0)
        (apply_mode_posture (classify operations config.classification) config.mode)
        (rw mode (safe-IsHarmless (classify operations config.classification))))
