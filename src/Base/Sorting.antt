-- ===== src/Base/Sorting.antt =====
-- `sorted` keeps the elements.
use mathlib.Core.Path.{◌≡◌, refl, ◌∙◌, ap}
use mathlib.Core.Bool.{Bool, ◌&&◌, ◌||◌}
use mathlib.Core.Logic.{inl, inr}
use mathlib.Core.List.{List, [], ◌∷◌, Perm, map}
use mathlib.Core.List.Perm
use native.Mathlib.Omega.{arith}
use mcp_portal.Base.Logic.{Bool-cases}
use mcp_portal.Base.Equality.{Eq, contains, nat_eq, option_eq}
use mcp_portal.Base.Dicts.{Distinct, Distinct-of_count, count, count-le-one}
use mcp_portal.Base.Lists.{all, any}
use mcp_portal.Base.Texts.{Text, insert_by, sorted_by, text_eq, text_le}

module _ {ℓ} {A : Type ℓ} (key : A → Text) (p : A → Bool) where
  all-insert_by : (x : A) (ys : List A) → all p (insert_by key x ys) ≡ (p x && all p ys)
  unfolding insert_by
  all-insert_by x [] = refl
  all-insert_by x (y ∷ ys) = ground (arith, all-insert_by x ys)

  pub all-sorted_by : (xs : List A) → all p (sorted_by key xs) ≡ all p xs
  unfolding sorted_by
  all-sorted_by [] = refl
  all-sorted_by (x ∷ xs) =
      all-insert_by x (sorted_by key xs) ∙ ap (λ b. p x && b) (all-sorted_by xs)

  any-insert_by : (x : A) (ys : List A) → any p (insert_by key x ys) ≡ (p x || any p ys)
  unfolding insert_by
  any-insert_by x [] = refl
  any-insert_by x (y ∷ ys) = ground (arith, any-insert_by x ys)

  pub any-sorted_by : (xs : List A) → any p (sorted_by key xs) ≡ any p xs
  unfolding sorted_by
  any-sorted_by [] = refl
  any-sorted_by (x ∷ xs) =
      any-insert_by x (sorted_by key xs) ∙ ap (λ b. p x || b) (any-sorted_by xs)

module _ {ℓ} {A : Type ℓ} (key : A → Text) where
  insert_by-perm : (x : A) (ys : List A) → Perm (insert_by key x ys) (x ∷ ys)
  unfolding insert_by
  insert_by-perm x [] = Perm.refl (x ∷ [])
  insert_by-perm x (y ∷ ys) = elim (Bool-cases (text_le (key x) (key y))) [
    | inl e ↦ rw e (Perm.refl (x ∷ y ∷ ys))
    | inr e ↦ rw e (Perm.trans (Perm.cons y (insert_by-perm x ys)) (Perm.swap x y ys))
  ]

  pub sorted_by-perm : (xs : List A) → Perm (sorted_by key xs) xs
  unfolding sorted_by
  sorted_by-perm [] = Perm.refl []
  sorted_by-perm (x ∷ xs) =
      Perm.trans (insert_by-perm x (sorted_by key xs)) (Perm.cons x (sorted_by-perm xs))

module _ {ℓ κ} {A : Type ℓ} {B : Type κ} ⦃e : Eq B⦄ (key : A → Text) (f : A → B) (b : B) where
  count-insert_by :
      (x : A) (ys : List A) → count b (map f (insert_by key x ys)) ≡ count b (map f (x ∷ ys))
  unfolding insert_by
  count-insert_by x [] = refl
  count-insert_by x (y ∷ ys) = ground (arith, count-insert_by x ys)

  pub count-sorted_by : (xs : List A) → count b (map f (sorted_by key xs)) ≡ count b (map f xs)
  unfolding sorted_by
  count-sorted_by [] = refl
  count-sorted_by (x ∷ xs) =
      ground (arith, count-insert_by x (sorted_by key xs), count-sorted_by xs)

  contains-insert_by :
      (x : A) (ys : List A) → contains (map f (insert_by key x ys)) b ≡ contains (map f (x ∷ ys)) b
  unfolding insert_by
  contains-insert_by x [] = refl
  contains-insert_by x (y ∷ ys) = ground (arith, contains-insert_by x ys)

  pub contains-sorted_by :
      (xs : List A) → contains (map f (sorted_by key xs)) b ≡ contains (map f xs) b
  unfolding sorted_by
  contains-sorted_by [] = refl
  contains-sorted_by (x ∷ xs) =
      ground (arith, contains-insert_by x (sorted_by key xs), contains-sorted_by xs)

pub Distinct-sorted_by {ℓ κ} :
    {A : Type ℓ} {B : Type κ} ⦃e : Eq B⦄ (key : A → Text) (f : A → B) (xs : List A)
    → Distinct (map f (sorted_by key xs))
    → Distinct (map f xs)
Distinct-sorted_by key f xs d =
    Distinct-of_count (map f xs)
      λ b. omega (arith, count-sorted_by key f b xs, count-le-one b (map f (sorted_by key xs)) d)
