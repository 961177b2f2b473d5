-- ===== src/Base/Glob.antt =====
-- `fnmatch` of Python's standard library on POSIX, where names are compared as they stand.
use Prim.Native.Nat.{ℕ}
use mathlib.Core.Bool.{Bool, true, false, ◌&&◌}
use mathlib.Core.List.{List, [], ◌∷◌, reverse}
use mcp_portal.Base.Logic.{if◌then◌else◌, leb}
use mcp_portal.Base.Lists.{any}
use mcp_portal.Base.Equality.{contains, nat_eq, option_eq, ◌==◌}
use mcp_portal.Base.Texts.{Text, text_eq}

pub data Piece : Type 0 where
  star one : Piece
  lit : ℕ → Piece
  ranges : Bool → List (ℕ × ℕ) → Piece

-- The text between brackets: `a-z` is a range where a character stands on either side.
unfoldable pub bracket_ranges : Text → List (ℕ × ℕ)
bracket_ranges [] = []
bracket_ranges (c ∷ []) = (c, c) ∷ []
bracket_ranges (c ∷ d ∷ []) = (c, c) ∷ (d, d) ∷ []
bracket_ranges (c ∷ x ∷ d ∷ r) =
    let range = (c, d) ∷ bracket_ranges r in
    let single = (c, c) ∷ bracket_ranges (x ∷ d ∷ r) in if x == b'-' then range else single

bracket : Text → Piece
unfolding bracket_ranges
bracket [] = ranges false []
bracket (c ∷ r) =
    if c == b'!' then ranges true (bracket_ranges r) else ranges false (bracket_ranges (c ∷ r))

-- Whether a bracket that opens here is closed: a `]` in first place, after any `!`, is no close.
closed_after_first : Text → Bool
closed_after_first [] = false
closed_after_first (c ∷ r) = contains r b']'

closed : Text → Bool
unfolding closed_after_first
closed [] = false
closed (c ∷ r) = if c == b'!' then closed_after_first r else contains r b']'

pub data Mode : Type 0 where
  outside opening first body : Mode

-- The text between brackets is gathered in reverse.
unfoldable pub pieces : Mode → Text → Text → List Piece
unfolding bracket closed
pieces mode got [] = []
pieces outside got (c ∷ r) =
    let star_rest = star ∷ pieces outside [] r in
    let one_rest = one ∷ pieces outside [] r in
    let inside = pieces opening [] r in
    let lit_rest = lit c ∷ pieces outside [] r in
    if c == b'*'
    then star_rest
    else if c == b'?'
    then one_rest
    else if c == b'[' && closed r
    then inside
    else lit_rest
pieces opening got (c ∷ r) = pieces (if c == b'!' then first else body) (c ∷ got) r
pieces first got (c ∷ r) = pieces body (c ∷ got) r
pieces body got (c ∷ r) =
    let done = bracket (reverse got) ∷ pieces outside [] r in
    let more = pieces body (c ∷ got) r in if c == b']' then done else more

in_ranges : ℕ → List (ℕ × ℕ) → Bool
in_ranges c rs = any (λ (lo, hi). leb lo c && leb c hi) rs

unfoldable pub matches_pieces : List Piece → Text → Bool
unfolding in_ranges
matches_pieces [] [] = true
matches_pieces [] (d ∷ s) = false
matches_pieces (star ∷ ps) [] = matches_pieces ps []
matches_pieces (star ∷ ps) (d ∷ s) = elim (matches_pieces ps (d ∷ s)) [
  | true ↦ true
  | false ↦ matches_pieces (star ∷ ps) s
]
matches_pieces (one ∷ ps) [] = false
matches_pieces (one ∷ ps) (d ∷ s) = matches_pieces ps s
matches_pieces (lit c ∷ ps) [] = false
matches_pieces (lit c ∷ ps) (d ∷ s) =
    let rest = matches_pieces ps s in if c == d then rest else false
matches_pieces (ranges negated rs ∷ ps) [] = false
matches_pieces (ranges true rs ∷ ps) (d ∷ s) =
    let rest = matches_pieces ps s in if in_ranges d rs then false else rest
matches_pieces (ranges false rs ∷ ps) (d ∷ s) =
    let rest = matches_pieces ps s in if in_ranges d rs then rest else false

unfoldable pub fnmatch : Text → Text → Bool
unfolding pieces matches_pieces nat_eq
fnmatch name pattern' = matches_pieces (pieces outside [] pattern') name
