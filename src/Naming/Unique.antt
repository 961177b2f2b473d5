-- ===== src/Naming/Unique.antt =====
-- Generated names are distinct, one for each operation.
use mathlib.Core.List.{Perm}
use mathlib.Core.List.Perm
use mcp_portal.Base.{
  >>_iff, Dict, Distinct, List, Text, [], all, ap, contains, contains-sorted_by, count, guard,
  guard_iff, is_empty, keys, map, nat_eq, ok, ok-injective, option_eq, refl, repeated,
  repeated-eq-nil, sorted_by-perm, text_eq, true, values, ℕ, ◌∷◌, ◌≡◌,
}
use mcp_portal.Operations.{Operation, effect_eq, location_eq, sensitivity_eq}
use mcp_portal.Naming.{
  NamingOptions, base_names, final_name, generate_names, name_pattern, resolve_names,
}
use mcp_portal.Platform.{Platform}

abbrev pub ids : List Operation → List Text
ids ops = map (λ (op : Operation). op.id) ops

pub is_empty→nil : (xs : List Text) → is_empty xs ≡ true → xs ≡ []
is_empty→nil [] h = refl
is_empty→nil (x ∷ xs) h = cc

-- What `generate_names` returns is the loop's result, and it has passed all the checks.
pub generate_names-eq-ok :
    (py : Platform) (ops : List Operation) (options : NamingOptions) (names : Dict Text Text)
    → generate_names py ops options ≡ ok names
    → (resolve_names py (base_names py ops options) ≡ names)
      × (repeated (ids ops) ≡ [])
      × (repeated (values names) ≡ [])
      × (all name_pattern (values names) ≡ true)
unfolding generate_names
generate_names-eq-ok py ops options names h =
    let (a, h₁) = (>>_iff (guard _ _) _ names).0 h in
    let (b, h₂) = (>>_iff (guard _ _) _ names).0 h₁ in
    let (c, h₃) = (>>_iff (guard _ _) _ names).0 h₂ in
    let same = ok-injective h₃ in
    (
      same,
      is_empty→nil _ ((guard_iff _ _).0 a),
      rw (← same) (is_empty→nil _ ((guard_iff _ _).0 b)),
      rw (← same) ((guard_iff _ _).0 c),
    )

map-final_name-keys :
    (py : Platform) (taken : Text → ℕ) (d : Dict Text Text)
    → keys (map (λ (op_id, base). (op_id, final_name py (taken base) op_id base)) d) ≡ keys d
map-final_name-keys py taken [] = refl
map-final_name-keys py taken ((op_id, base) ∷ d) =
    ap (λ r. op_id ∷ r) (map-final_name-keys py taken d)

keys-resolve_names :
    (py : Platform) (bases : Dict Text Text) → Perm (keys (resolve_names py bases)) (keys bases)
unfolding resolve_names
keys-resolve_names py bases =
    rw (map-final_name-keys py (λ base. count base (values bases)))
      (Perm.map (λ (x : Text × Text). x.0) (sorted_by-perm (λ (op_id, _). op_id) bases))

keys-base_names :
    (py : Platform) (ops : List Operation) (options : NamingOptions)
    → keys (base_names py ops options) ≡ ids ops
unfolding base_names
keys-base_names py [] options = refl
keys-base_names py (op ∷ ops) options = ap (λ r. op.id ∷ r) (keys-base_names py ops options)

pub contains-resolve_names :
    (py : Platform) (ops : List Operation) (options : NamingOptions) (names : Dict Text Text)
    (i : Text)
    → generate_names py ops options ≡ ok names
    → contains (keys names) i ≡ contains (ids ops) i
unfolding resolve_names
contains-resolve_names py ops options names i h =
    let bases = base_names py ops options in
    rw (← (generate_names-eq-ok py ops options names h).0) (
      rw (map-final_name-keys py (λ base. count base (values bases))) (
        rw (← keys-base_names py ops options)
          (contains-sorted_by (λ (x : Text × Text). x.0) (λ (x : Text × Text). x.0) i bases)))

-- When `generate_names` returns, it names exactly the given operations, whose ids are distinct,
-- the names are pairwise distinct, and each is of 1 to 64 characters of `[a-z0-9_]`.
pub generate_names-Distinct :
    (py : Platform) (ops : List Operation) (options : NamingOptions) (names : Dict Text Text)
    → generate_names py ops options ≡ ok names
    → Distinct (ids ops)
      × Perm (keys names) (ids ops)
      × Distinct (values names)
      × (all name_pattern (values names) ≡ true)
generate_names-Distinct py ops options names h =
    let (same, no_duplicates, no_collisions, publishable) =
      generate_names-eq-ok py ops options names h in
    (
      repeated-eq-nil (ids ops) no_duplicates,
      rw (← same, ← keys-base_names py ops options)
          (keys-resolve_names py (base_names py ops options)),
      repeated-eq-nil (values names) no_collisions,
      publishable,
    )
