-- ===== src/Transports/Replace.antt =====
-- `text.replace(old, new)` for a text `old` that is not empty: every occurrence, from the left,
-- without overlap. The first argument counts the characters of an occurrence that are left.
pub mod Counts
use mcp_portal.Base.{
  Text, [], if◌then◌else◌, length, nat_eq, option_eq, starts_with, suc, text_eq, zero, ℕ, ◌++◌, ◌-◌,
  ◌∷◌,
}

unfoldable pub replace_from : ℕ → Text → Text → Text → Text
replace_from n old new [] = []
replace_from (suc n) old new (c ∷ s) = replace_from n old new s
replace_from zero old new (c ∷ s) =
    let found = new ++ replace_from (length old - 1) old new s in
    let passed = c ∷ replace_from 0 old new s in if starts_with (c ∷ s) old then found else passed

unfoldable pub replace : Text → Text → Text → Text
replace old new s = replace_from 0 old new s
