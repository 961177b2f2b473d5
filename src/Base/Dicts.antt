-- ===== src/Base/Dicts.antt =====
-- Python's `dict` in insertion order, and `set` as the list of its distinct elements.
use mathlib.Core.Path.{◌≡◌, refl}
use mathlib.Core.Logic.{◌≢◌}
use mathlib.Core.Bool.{Bool, true, false, ◌&&◌}
use mathlib.Core.Option.{Option, none, some}
use mathlib.Core.List.{List, [], ◌∷◌, map}
use native.Mathlib.Omega.{arith}
use Prim.Native.Nat.{ℕ, suc, ◌≤◌}
use mcp_portal.Base.Lists.{filter}
use mcp_portal.Base.Logic.{if◌then◌else◌, ltb}
use mcp_portal.Base.Equality.{==→≡, Eq, contains, nat_eq, option_eq, ◌==◌}

abbrev pub Dict {ℓ κ} : Type ℓ → Type κ → Type (ℓ ⊔ κ)
Dict K V = List (K × V)

abbrev pub keys {ℓ κ} : {K : Type ℓ} {V : Type κ} → Dict K V → List K
keys = map (λ (k, _). k)

abbrev pub values {ℓ κ} : {K : Type ℓ} {V : Type κ} → Dict K V → List V
values = map (λ (_, v). v)

module _ {ℓ} {A : Type ℓ} ⦃e : Eq A⦄ where
  -- No element occurs twice.
  abbrev pub Distinct : List A → Type 0
  Distinct [] = Unit
  Distinct (x ∷ xs) = (contains xs x ≡ false) × Distinct xs

module _ {ℓ κ} {K : Type ℓ} {V : Type κ} ⦃e : Eq K⦄ where
  -- `d.get(k)`
  abbrev pub lookup : K → Dict K V → Option V
  lookup k [] = none
  lookup k ((j, v) ∷ d) = if k == j then some v else lookup k d

  -- `d[k] = v`
  abbrev pub insert : K → V → Dict K V → Dict K V
  insert k v [] = (k, v) ∷ []
  insert k v ((j, w) ∷ d) = let rest = insert k v d in if k == j then (j, v) ∷ d else (j, w) ∷ rest

  -- `del d[k]`, `d.pop(k, None)`
  abbrev pub erase : K → Dict K V → Dict K V
  erase k [] = []
  erase k ((j, w) ∷ d) = let rest = erase k d in if k == j then rest else (j, w) ∷ rest

  pub lookup-insert :
      (j k : K) (v : V) (d : Dict K V)
      → lookup j (insert k v d) ≡ (if j == k then some v else lookup j d)
  lookup-insert j k v [] = refl
  lookup-insert j k v ((i, w) ∷ d) = ground (arith, lookup-insert j k v d)

  pub lookup-ne-none : (k : K) (m : Dict K V) → contains (keys m) k ≡ true → lookup k m ≢ none
  lookup-ne-none k [] h n = cc
  lookup-ne-none k ((j, w) ∷ m) h n = ground (arith, lookup-ne-none k m)

  pub contains-values :
      ⦃d : Eq V⦄ (k : K) (v : V) (m : Dict K V) → lookup k m ≡ some v → contains (values m) v ≡ true
  contains-values k v [] h = cc
  contains-values k v ((j, w) ∷ m) h = ground (arith, contains-values k v m)

  -- In a dict of distinct values, a value stands under one key.
  pub lookup-injective :
      ⦃d : Eq V⦄ (k j : K) (v : V) (m : Dict K V)
      → Distinct (values m)
      → lookup k m ≡ some v
      → lookup j m ≡ some v
      → k ≡ j
  lookup-injective k j v [] u p q = cc
  lookup-injective k j v ((i, w) ∷ m) (f, u) p q =
      ground (arith, lookup-injective k j v m u, contains-values k v m, contains-values j v m)

  pub lookup-erase :
      (j k : K) (d : Dict K V) → lookup j (erase k d) ≡ (if j == k then none else lookup j d)
  lookup-erase j k [] = ground arith
  lookup-erase j k ((i, w) ∷ d) = ground (arith, lookup-erase j k d)

module _ {ℓ} {A : Type ℓ} ⦃e : Eq A⦄ where
  pub contains-filter :
      (p : A → Bool) (xs : List A) (a : A) → contains (filter p xs) a ≡ (contains xs a && p a)
  contains-filter p [] a = refl
  contains-filter p (x ∷ xs) a = ground (arith, contains-filter p xs a, ==→≡ a x)

  -- `xs.count(a)`
  abbrev pub count : A → List A → ℕ
  count a [] = 0
  count a (x ∷ xs) = let rest = count a xs in if a == x then suc rest else rest

  -- `[x for x in xs if xs.count(x) > 1]`
  unfoldable pub repeated : List A → List A
  repeated xs = filter (λ x. ltb 1 (count x xs)) xs

  count-pos : (a : A) (xs : List A) → contains xs a ≡ true → 1 ≤ count a xs
  count-pos a [] h = cc
  count-pos a (x ∷ xs) h = ground (arith, count-pos a xs)

  filter-repeated :
      (all_xs xs : List A)
      → ((a : A) → count a xs ≤ count a all_xs)
      → filter (λ x. ltb 1 (count x all_xs)) xs ≡ []
      → Distinct xs
  filter-repeated all_xs [] le h = tt
  filter-repeated all_xs (x ∷ xs) le h = (
    ground (arith, count-pos x xs, le x),
    filter-repeated all_xs xs (λ a. ground (arith, le a)) (ground arith),
  )

  pub repeated-eq-nil : (xs : List A) → repeated xs ≡ [] → Distinct xs
  unfolding repeated
  repeated-eq-nil xs h = filter-repeated xs xs (λ a. omega arith) h

  count-eq-zero : (a : A) (xs : List A) → contains xs a ≡ false → count a xs ≡ 0
  count-eq-zero a [] h = refl
  count-eq-zero a (x ∷ xs) h = ground (arith, count-eq-zero a xs)

  pub count-le-one : (a : A) (xs : List A) → Distinct xs → count a xs ≤ 1
  count-le-one a [] d = omega arith
  count-le-one a (x ∷ xs) (f, d) = ground (arith, count-le-one a xs d, count-eq-zero a xs)

  pub Distinct-of_count : (xs : List A) → ((a : A) → count a xs ≤ 1) → Distinct xs
  Distinct-of_count [] le = tt
  Distinct-of_count (x ∷ xs) le =
      (ground (arith, count-pos x xs, le x), Distinct-of_count xs (λ a. ground (arith, le a)))

  pub Distinct→repeated : (xs : List A) → Distinct xs → repeated xs ≡ []
  unfolding repeated
  Distinct→repeated xs d = filter-none xs
    where
      filter-none : (ys : List A) → filter (λ x. ltb 1 (count x xs)) ys ≡ []
      filter-none [] = refl
      filter-none (y ∷ ys) = ground (arith, filter-none ys, count-le-one y xs d)

  -- The elements of `set(xs)`, each once.
  unfoldable pub dedup : List A → List A
  dedup [] = []
  dedup (x ∷ xs) = let rest = dedup xs in if contains xs x then rest else x ∷ rest
