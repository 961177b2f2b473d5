-- ===== src/Transports/Replace/Counts.antt =====
-- Replacing a text by another leaves the characters that are in neither.
use mcp_portal.Base.{
  Bool-cases, Text, [], ap, arith, contains, count, false, inl, inr, length, nat_eq, option_eq,
  refl, starts_with, suc, take, text_eq, true, zero, ℕ, ◌++◌, ◌+◌, ◌-◌, ◌∷◌, ◌≡◌,
}
use mcp_portal.Transports.Replace.{replace, replace_from}

count-append : (c : ℕ) (xs ys : Text) → count c (xs ++ ys) ≡ count c xs + count c ys
count-append c [] ys = omega arith
count-append c (x ∷ xs) ys = ground (arith, count-append c xs ys)

count-absent : (c : ℕ) (xs : Text) → contains xs c ≡ false → count c xs ≡ 0
count-absent c [] h = refl
count-absent c (x ∷ xs) h = ground (arith, count-absent c xs)

-- The characters of an occurrence are those of the text that is sought.
starts_with-take :
    (c : ℕ) (s old : Text)
    → starts_with s old ≡ true
    → contains old c ≡ false
    → contains (take (length old) s) c ≡ false
unfolding starts_with
starts_with-take c s [] h n = refl
starts_with-take c [] (o ∷ old) h n = refl
starts_with-take c (d ∷ s) (o ∷ old) h n = ground (arith, starts_with-take c s old)

count-replace_from :
    (c n o : ℕ) (old new s : Text)
    → contains (o ∷ old) c ≡ false
    → contains new c ≡ false
    → contains (take n s) c ≡ false
    → count c (replace_from n (o ∷ old) new s) ≡ count c s
unfolding replace_from
count-replace_from c n o old new [] ho hn ht = refl
count-replace_from c (suc n) o old new (d ∷ s) ho hn ht =
    ground (arith, count-replace_from c n o old new s)
count-replace_from c zero o old new (d ∷ s) ho hn ht =
    elim (Bool-cases (starts_with (d ∷ s) (o ∷ old))) [
      | inl found ↦
          let after = length (o ∷ old) - 1 in
          let seen = starts_with-take c (d ∷ s) (o ∷ old) found ho in
          let same : take after s ≡ take (length old) s = ap (λ k. take k s) (omega arith) in
          let rest = count-replace_from c after o old new s ho hn (rw same (ground arith)) in
          rw found (
            ground (
              arith,
              count-append c new (replace_from after (o ∷ old) new s),
              count-absent c new,
              rest,
            ))
      | inr passed ↦ rw passed (ground (arith, count-replace_from c zero o old new s ho hn refl))
    ]

-- A character that is neither in the text sought nor in the text put in occurs as often as before.
pub count-replace :
    (c o : ℕ) (old new s : Text)
    → contains (o ∷ old) c ≡ false
    → contains new c ≡ false
    → count c (replace (o ∷ old) new s) ≡ count c s
unfolding replace
count-replace c o old new s ho hn = count-replace_from c 0 o old new s ho hn refl
