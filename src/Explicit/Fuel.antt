-- ===== src/Explicit/Fuel.antt =====
-- The JSON type of a GraphQL type needs no more fuel than its text is long.
use mcp_portal.Base.{
  Bool-cases, Option-cases, Text, [], arith, inl, inr, length, nat_eq, option_eq, refl, some, suc,
  text_eq, without_last, zero, ℕ, ◌<◌, ◌==◌, ◌∷◌, ◌≡◌, ◌≤◌,
}
use mcp_portal.Explicit.{
  between_brackets, json_type_for_graphql_type, json_type_on, lstrip_blank, rstrip_blank,
  without_bang,
}

without_last-length :
    (last : ℕ) (t u : Text) → without_last last t ≡ some u → length t ≡ suc (length u)
unfolding without_last
without_last-length last [] u h = cc
without_last-length last (c ∷ []) u h = ground arith
without_last-length last (c ∷ d ∷ s) u h = elim (Option-cases (without_last last (d ∷ s))) [
  | inl e ↦ ground arith
  | inr (rest, e) ↦ let shorter = without_last-length last (d ∷ s) rest e in ground arith
]

lstrip_blank-length : (t : Text) → length (lstrip_blank t) ≤ length t
unfolding lstrip_blank
lstrip_blank-length [] = omega arith
lstrip_blank-length (c ∷ s) = ground (arith, lstrip_blank-length s)

rstrip_blank-length : (t : Text) → length (rstrip_blank t) ≤ length t
unfolding rstrip_blank
rstrip_blank-length [] = omega arith
rstrip_blank-length (c ∷ s) = ground (arith, rstrip_blank-length s)

without_bang-length : (t : Text) → length (without_bang t) ≤ length t
unfolding without_bang
without_bang-length t = elim (Option-cases (without_last b'!' t)) [
  | inl e ↦ rw (without_bang, e) (omega arith)
  | inr (rest, e) ↦ rw (without_bang, e) (omega (arith, without_last-length b'!' t rest e))
]

pub between_brackets-length : (t u : Text) → between_brackets t ≡ some u → length u < length t
unfolding between_brackets
between_brackets-length [] u h = cc
between_brackets-length (c ∷ s) u h = elim (Bool-cases (c == b'[')) [
  | inl e ↦ omega (arith, without_last-length b']' s u (rw (between_brackets, e) at h))
  | inr e ↦ ground arith
]

abbrev pub bare : Text → Text
bare t = without_bang (rstrip_blank (lstrip_blank t))

pub bare-length : (t : Text) → length (bare t) ≤ length t
bare-length t = omega (
  arith,
  without_bang-length (rstrip_blank (lstrip_blank t)),
  rstrip_blank-length (lstrip_blank t),
  lstrip_blank-length t,
)

json_type_on-same :
    (n m : ℕ) (t : Text) → length t < n → length t < m → json_type_on n t ≡ json_type_on m t
unfolding json_type_on
json_type_on-same zero m t a b = absurd (omega arith)
json_type_on-same (suc n) zero t a b = absurd (omega arith)
json_type_on-same (suc n) (suc m) t a b = elim (Option-cases (between_brackets (bare t))) [
  | inl e ↦ rw (json_type_on, e) refl
  | inr (item, e) ↦
      let shorter = between_brackets-length (bare t) item e in
      let short = bare-length t in
      rw (json_type_on, e, json_type_on-same n m item (omega arith) (omega arith)) refl
]

-- The fuel of the translation is enough: with any fuel beyond the length of the type's text the
-- result is the same, and the clause for no fuel is never reached.
pub json_type_for_graphql_type-fuel :
    (n : ℕ) (t : Text) → length t < n → json_type_on n t ≡ json_type_for_graphql_type t
unfolding json_type_for_graphql_type
json_type_for_graphql_type-fuel n t h = json_type_on-same n (suc (length t)) t h (omega arith)
