-- ===== src/Naming/Lengths.antt =====
-- Every generated name can be published.
use mcp_portal.Base.{
  Bool-cases, Dict, List, Text, [], all, all-append, all-sorted_by, all-take, all_mono, and-left,
  arith, count, err, false, inl, inr, is_empty, join, leb, length, length-append, length-take-le,
  map, nat_eq, option_eq, refl, take, text, text_eq, true, values, ℕ, ◌++◌, ◌==◌, ◌∙◌, ◌∷◌, ◌≡◌,
  ◌≢◌, ◌≤◌,
}
use mcp_portal.Operations.{Operation, effect_eq, location_eq, sensitivity_eq}
use mcp_portal.Naming.{
  NamingOptions, base_name, base_names, cap, final_name, generate_names, is_name_char, name_parts,
  name_pattern, resolve_names, suffix, unpublishable,
}
use mcp_portal.Platform.{IsLawful, Platform, is_hex}
use mcp_portal.Naming.Slug.{normalize-chars}

hex-name_chars : (s : Text) → all is_hex s ≡ true → all is_name_char s ≡ true
hex-name_chars s h = all_mono is_hex is_name_char s (λ c e. ground arith) h

suffix-chars : (py : Platform) → IsLawful py → (s : Text) → all is_name_char (suffix py s) ≡ true
unfolding suffix
suffix-chars py lawful s =
    all-take is_name_char 6 (py.sha256_hexdigest s)
      (hex-name_chars (py.sha256_hexdigest s) (lawful.hexdigest_hex s))

suffix-length : (py : Platform) (s : Text) → length (suffix py s) ≤ 6
unfolding suffix
suffix-length py s = length-take-le 6 (py.sha256_hexdigest s)

name_pattern_of :
    (name : Text)
    → all is_name_char name ≡ true
    → is_empty name ≡ false
    → length name ≤ 64
    → name_pattern name ≡ true
unfolding name_pattern
name_pattern_of name h n le = ground arith

is_empty-append-cons : (xs ys : Text) (y : ℕ) → is_empty (xs ++ (y ∷ ys)) ≡ false
is_empty-append-cons [] ys y = refl
is_empty-append-cons (x ∷ xs) ys y = refl

-- A name cut to `truncate_to` characters, with an underscore and a suffix, can be published.
suffixed-name_pattern :
    (py : Platform)
    → IsLawful py
    → (name s : Text) → all is_name_char name ≡ true
    → name_pattern (take 57 name ++ (b'_' ∷ suffix py s)) ≡ true
suffixed-name_pattern py lawful name s h =
    name_pattern_of _
      (rw all-append (ground (arith, all-take is_name_char 57 name h, suffix-chars py lawful s)))
      (is_empty-append-cons (take 57 name) (suffix py s) b'_')
      (omega (
        arith,
        length-append (take 57 name) (b'_' ∷ suffix py s),
        length-take-le 57 name,
        suffix-length py s,
      ))

cap-name_pattern :
    (py : Platform)
    → IsLawful py
    → (name : Text) → all is_name_char name ≡ true
    → is_empty name ≡ false
    → name_pattern (cap py name) ≡ true
unfolding cap
cap-name_pattern py lawful name h n = elim (Bool-cases (leb (length name) 64)) [
  | inl e ↦ rw e (name_pattern_of name h n (ground arith))
  | inr e ↦ rw e (suffixed-name_pattern py lawful name name h)
]

base_name-chars :
    (py : Platform)
    → IsLawful py
    → (op : Operation) (options : NamingOptions)
    → (all is_name_char (base_name py op options) ≡ true)
      × (is_empty (base_name py op options) ≡ false)
unfolding base_name
base_name-chars py lawful op options = ground (
  arith,
  suffix-chars py lawful op.id,
  normalize-chars py (join (text "_") (name_parts py op options)),
)

final_name-name_pattern :
    (py : Platform)
    → IsLawful py
    → (taken : ℕ) (op_id base : Text) → name_pattern base ≡ true
    → name_pattern (final_name py taken op_id base) ≡ true
unfolding final_name
final_name-name_pattern py lawful taken op_id base h = elim (Bool-cases (taken == 1)) [
  | inl e ↦ rw e h
  | inr e ↦
      rw e (suffixed-name_pattern py lawful base op_id (unfold name_pattern in and-left _ _ h))
]

base_names-name_pattern :
    (py : Platform)
    → IsLawful py
    → (ops : List Operation) (options : NamingOptions)
    → all (λ (_, base). name_pattern base) (base_names py ops options) ≡ true
unfolding base_names
base_names-name_pattern py lawful [] options = refl
base_names-name_pattern py lawful (op ∷ ops) options =
    let (chars, some_char) = base_name-chars py lawful op options in
    ground (
      arith,
      cap-name_pattern py lawful (base_name py op options) chars some_char,
      base_names-name_pattern py lawful ops options,
    )

final_names-name_pattern :
    (py : Platform)
    → IsLawful py
    → (taken : Text → ℕ) (d : Dict Text Text) → all (λ (_, base). name_pattern base) d ≡ true
    → all name_pattern
        (values (map (λ (op_id, base). (op_id, final_name py (taken base) op_id base)) d))
      ≡ true
final_names-name_pattern py lawful taken [] h = refl
final_names-name_pattern py lawful taken ((op_id, base) ∷ d) h = ground (
  arith,
  final_name-name_pattern py lawful (taken base) op_id base,
  final_names-name_pattern py lawful taken d,
)

resolve_names-name_pattern :
    (py : Platform)
    → IsLawful py
    → (bases : Dict Text Text) → all (λ (_, base). name_pattern base) bases ≡ true
    → all name_pattern (values (resolve_names py bases)) ≡ true
unfolding resolve_names
resolve_names-name_pattern py lawful bases h =
    final_names-name_pattern py lawful (λ base. count base (values bases)) _
      (all-sorted_by (λ (op_id, base). op_id) (λ (_, base). name_pattern base) bases ∙ h)

-- The assertion at the end of `generate_names` never fails: with a digest of 64 hexadecimal
-- digits, every name it would return is of 1 to 64 characters of `[a-z0-9_]`.
pub generate_names-ne-unpublishable :
    (py : Platform) (ops : List Operation) (options : NamingOptions) (names : List Text)
    → IsLawful py
    → generate_names py ops options ≢ err (unpublishable names)
unfolding generate_names
generate_names-ne-unpublishable py ops options names lawful h = ground (
  arith,
  resolve_names-name_pattern py lawful (base_names py ops options)
      (base_names-name_pattern py lawful ops options),
)
