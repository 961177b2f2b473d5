-- ===== src/Naming.antt =====
-- naming.py: tool names from operations.
pub mod Slug
pub mod Lengths
pub mod Unique
use mcp_portal.Base.{
  Bool, Dict, List, Result, Text, [], all, count, dedup, false, guard, if◌then◌else◌, is_empty,
  join, leb, length, map, nat_eq, not, ok, option_eq, repeated, sorted_by, take, text, text_eq,
  true, values, ℕ, ◌&&◌, ◌++◌, ◌-◌, ◌==◌, ◌>>=◌, ◌>>◌, ◌||◌, ◌∷◌,
}
use mcp_portal.Operations.{Binding, Operation, effect_eq, graphql, location_eq, sensitivity_eq}
use mcp_portal.Platform.{Platform, is_digit, is_lower_letter}

abbrev pub max_name_length : ℕ
max_name_length = 64

abbrev pub suffix_length : ℕ
suffix_length = 6

abbrev pub truncate_to : ℕ
truncate_to = max_name_length - suffix_length - 1

-- `[a-z0-9]`
abbrev pub is_word : ℕ → Bool
is_word c = is_lower_letter c || is_digit c

-- `[a-z0-9_]`
abbrev pub is_name_char : ℕ → Bool
is_name_char c = is_word c || c == b'_'

-- `NAME_PATTERN.fullmatch(name)`
unfoldable pub name_pattern : Text → Bool
name_pattern name =
    all is_name_char name && (not (is_empty name) && leb (length name) max_name_length)

pub data NameCollisionError : Type 0 where
  duplicate_ids : List Text → NameCollisionError
  survived_suffixing : List Text → NameCollisionError
  -- the registry's two errors
  both_declare : Text → Text → Text → NameCollisionError
  declared_explicitly : Text → Text → Text → NameCollisionError
  -- `assert all(NAME_PATTERN.fullmatch(n) …)`
  unpublishable : List Text → NameCollisionError
  -- the registry's `KeyError` for `generated[op.id]`, and its closing assertion
  no_generated_name : Text → NameCollisionError
  shadowed : NameCollisionError

pub data Strategy : Type 0 where
  operation_id method_path : Strategy

pub record NamingOptions : Type 0 where
  pub strategy : Strategy
  pub prefix_with_group_tag : Bool
  pub prefix_with_upstream : Bool

-- `_INVALID.sub("_", text)`: the flag says that the run that goes on has its `_`.
unfoldable pub sub_invalid : Bool → Text → Text
sub_invalid in_run [] = []
sub_invalid in_run (c ∷ s) =
    let kept = c ∷ sub_invalid false s in
    let run = sub_invalid true s in if is_word c then kept else if in_run then run else b'_' ∷ run

-- `text.strip("_")`, from the left and from the right.
unfoldable pub lstrip : Text → Text
lstrip [] = []
lstrip (c ∷ s) = let rest = lstrip s in if c == b'_' then rest else c ∷ s

unfoldable pub rstrip : Text → Text
rstrip [] = []
rstrip (c ∷ s) = let rest = rstrip s in if c == b'_' && is_empty rest then [] else c ∷ rest

module _ (py : Platform) where
  unfoldable pub normalize : Text → Text
  normalize s = rstrip (lstrip (sub_invalid false (py.lower s)))

  -- `op_id.encode()` raises on a lone surrogate, which no text has here: the digest is total.
  unfoldable pub suffix : Text → Text
  suffix op_id = take suffix_length (py.sha256_hexdigest op_id)

  unfoldable pub core_name : Operation → Strategy → Text
  core_name op operation_id = op.id
  core_name op method_path = elim op.binding [
    | Binding.http b ↦ b.method ++ (b'_' ∷ b.path)
    | Binding.graphql b ↦ op.id
  ]

  unfoldable pub name_parts : Operation → NamingOptions → List Text
  name_parts op options =
      (if options.prefix_with_upstream then op.upstream ∷ [] else [])
      ++ ((if options.prefix_with_group_tag then take 1 op.group_tags else [])
          ++ (core_name op options.strategy ∷ []))

  unfoldable pub base_name : Operation → NamingOptions → Text
  base_name op options =
      let base = normalize (join (text "_") (name_parts op options)) in
      if is_empty base then text "op_" ++ suffix op.id else base

  unfoldable pub cap : Text → Text
  cap name =
      if leb (length name) max_name_length
      then name
      else take truncate_to name ++ (b'_' ∷ suffix name)

  -- `{op.id: _cap(_base_name(op, options)) for op in ops}`, for operations of distinct ids.
  unfoldable pub base_names : List Operation → NamingOptions → Dict Text Text
  base_names ops options = map (λ op. (op.id, cap (base_name op options))) ops

  -- The body of the loop: `taken` is the number of operations with this base name.
  unfoldable pub final_name : ℕ → Text → Text → Text
  final_name taken op_id base =
      if taken == 1 then base else take truncate_to base ++ (b'_' ∷ suffix op_id)

  -- The loop over `sorted(bases)`.
  unfoldable pub resolve_names : Dict Text Text → Dict Text Text
  resolve_names bases =
      map (λ (op_id, base). (op_id, final_name (count base (values bases)) op_id base))
        (sorted_by (λ (op_id, base). op_id) bases)

  unfoldable pub generate_names :
      List Operation → NamingOptions → Result NameCollisionError (Dict Text Text)
  generate_names ops options =
      let duplicates = repeated (map (λ (op : Operation). op.id) ops) in
      let names = resolve_names (base_names ops options) in
      let unresolved = repeated (values names) in
      do
        guard (is_empty duplicates) (duplicate_ids (sorted_by (λ i. i) (dedup duplicates)))
        guard (is_empty unresolved) (survived_suffixing (sorted_by (λ n. n) (dedup unresolved)))
        guard (all name_pattern (values names)) (unpublishable (values names))
        ok names
