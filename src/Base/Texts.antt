-- ===== src/Base/Texts.antt =====
-- Python's `str` as its list of code points.
use Prim.Native.Nat.{ℕ}
use Prim.Native.Char.{code}
use Prim.Native.String.{String}
use mathlib.Core.Option.{Option, none, some}
use mathlib.Core.Bool.{Bool, true, false, ◌||◌}
use mathlib.Core.List.{List, [], ◌∷◌, ◌++◌}
use mcp_portal.Base.Logic.{if◌then◌else◌, ltb}
use mcp_portal.Base.Equality.{Eq, list_eq, nat_eq, option_eq, ◌==◌}

abbrev pub Text : Type 0
Text = List ℕ

instance unfoldable pub text_eq : Eq Text
unfolding list_eq nat_eq
text_eq = list_eq

-- A literal of the source.
abbrev pub text : String → Text
text String.[] = []
text (String.◌∷◌ c s) = code c ∷ text s

-- `sep.join(parts)`
unfoldable pub join : Text → List Text → Text
join sep [] = []
join sep (x ∷ []) = x
join sep (x ∷ y ∷ r) = x ++ (sep ++ join sep (y ∷ r))

-- `text.startswith(prefix)`
unfoldable pub starts_with : Text → Text → Bool
starts_with s [] = true
starts_with [] (c ∷ p) = false
starts_with (d ∷ s) (c ∷ p) = elim (d == c) [ true ↦ starts_with s p | false ↦ false ]

-- The text without its last character, if that is the given one.
unfoldable pub without_last : ℕ → Text → Option Text
without_last last [] = none
without_last last (c ∷ []) = if c == last then some [] else none
without_last last (c ∷ d ∷ s) = elim (without_last last (d ∷ s)) [
  | none ↦ none
  | some rest ↦ some (c ∷ rest)
]

-- `a <= b` on texts: by code points, from the left.
unfoldable pub text_le : Text → Text → Bool
text_le [] b = true
text_le (x ∷ a) [] = false
text_le (x ∷ a) (y ∷ b) = let rest = text_le a b in ltb x y || (if x == y then rest else false)

module _ {ℓ} {A : Type ℓ} (key : A → Text) where
  unfoldable pub insert_by : A → List A → List A
  insert_by x [] = x ∷ []
  insert_by x (y ∷ ys) =
      let rest = insert_by x ys in if text_le (key x) (key y) then x ∷ y ∷ ys else y ∷ rest

  -- `sorted(xs, key=key)`: stable.
  unfoldable pub sorted_by : List A → List A
  unfolding insert_by text_le
  sorted_by [] = []
  sorted_by (x ∷ xs) = insert_by x (sorted_by xs)
