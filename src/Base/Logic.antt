-- ===== src/Base/Logic.antt =====
-- Tests, results and their do blocks.
use Prim.Native.Nat.{ℕ, ◌≤◌, compare, Ordering}
use mathlib.Core.Path.{◌≡◌, refl}
use mathlib.Core.Logic.{◌⊎◌, ◌↔◌, inl, inr}
use mathlib.Core.Bool.{Bool, true, false, ◌&&◌}
use mathlib.Core.Option.{Option, none, some}
use native.Mathlib.Omega.{arith}

infix 1 if◌then◌else◌
abbrev pub if◌then◌else◌ {ℓ} : {A : Type ℓ} → Bool → A → A → A
if true then x else y = x
if false then x else y = y

abbrev pub ltb : ℕ → ℕ → Bool
ltb a b = elim (compare a b) [ Ordering.lt ↦ true | _ ↦ false ]

abbrev pub leb : ℕ → ℕ → Bool
leb a b = elim (compare a b) [ Ordering.gt ↦ false | _ ↦ true ]

pub leb→le : (a b : ℕ) → leb a b ≡ true → a ≤ b
leb→le a b h = ground arith

pub Bool-cases : (b : Bool) → (b ≡ true) ⊎ (b ≡ false)
Bool-cases true = inl refl
Bool-cases false = inr refl

pub Option-cases {ℓ} : {A : Type ℓ} (o : Option A) → (o ≡ none) ⊎ ((a : A) × (o ≡ some a))
Option-cases none = inl refl
Option-cases (some a) = inr (a, refl)

pub and-left : (a b : Bool) → (a && b) ≡ true → a ≡ true
and-left a b h = ground arith

pub and-right : (a b : Bool) → (a && b) ≡ true → b ≡ true
and-right a b h = ground arith

-- A computation that returns or raises.
pub data Result {ℓ κ} (E : Type ℓ) (A : Type κ) : Type (ℓ ⊔ κ) where
  ok : A → Result E A
  err : E → Result E A

pub Result-cases {ℓ κ} :
    {E : Type ℓ} {A : Type κ} (r : Result E A) → ((e : E) × (r ≡ err e)) ⊎ ((a : A) × (r ≡ ok a))
Result-cases (err e) = inl (e, refl)
Result-cases (ok a) = inr (a, refl)

-- Raises unless the test holds.
abbrev pub guard {ℓ} : {E : Type ℓ} → Bool → E → Result E (Unit {0})
guard false problem = err problem
guard true problem = ok tt

infixl 5 ◌>>=◌
abbrev pub ◌>>=◌ {ℓ κ μ} :
    {E : Type ℓ} {A : Type κ} {B : Type μ} → Result E A → (A → Result E B) → Result E B
err problem >>= next = err problem
ok value >>= next = next value

-- Inversions of a successful step, for proofs in which the steps stay shut.
module _ {ℓ κ μ} {E : Type ℓ} {A : Type κ} {B : Type μ} where
  pub >>=-eq-ok :
      (start : Result E A) (next : A → Result E B) {b : B}
      → (start >>= next) ≡ ok b
      → (value : A) × (start ≡ ok value) × (next value ≡ ok b)
  >>=-eq-ok (err problem) next h = cc
  >>=-eq-ok (ok value) next h = (value, refl, h)

  pub >>=-eq-err :
      (m : Result E A) (f : A → Result E B) {e : E}
      → (m >>= f) ≡ err e
      → (m ≡ err e) ⊎ ((a : A) × (m ≡ ok a) × (f a ≡ err e))
  >>=-eq-err (ok a) f h = inr (a, refl, h)
  >>=-eq-err (err e) f h = inl (cc)

infixl 5 ◌>>◌
abbrev pub ◌>>◌ {ℓ κ} : {E : Type ℓ} {B : Type κ} → Result E (Unit {0}) → Result E B → Result E B
first_step >> second_step = first_step >>= λ _. second_step

module _ {ℓ κ} {E : Type ℓ} {B : Type κ} where
  pub >>_iff :
      (m : Result E (Unit {0})) (k : Result E B) (b : B)
      → ((m >> k) ≡ ok b) ↔ (m ≡ ok tt) × (k ≡ ok b)
  >>_iff (ok tt) k b = (λ h. (refl, h), λ h. h.1)
  >>_iff (err e) k b = (λ h. cc, λ h. cc (h.0))

pub guard_iff {ℓ} : {E : Type ℓ} (t : Bool) (e : E) → (guard t e ≡ ok tt) ↔ (t ≡ true)
guard_iff true e = (λ h. refl, λ h. refl)
guard_iff false e = (λ h. cc, λ h. cc)

module _ {ℓ κ} {E : Type ℓ} {B : Type κ} where
  pub guard-eq-ok :
      (t : Bool) (e : E) (k : Result E B) {b : B}
      → (guard t e >> k) ≡ ok b
      → (t ≡ true) × (k ≡ ok b)
  guard-eq-ok true e k h = (refl, h)
  guard-eq-ok false e k h = cc

pub ok-injective {ℓ κ} :
    {E : Type ℓ} {A : Type κ} {a b : A} → ◌≡◌ {A = Result E A} (ok a) (ok b) → a ≡ b
ok-injective h = cc

pub err-injective {ℓ κ} :
    {E : Type ℓ} {A : Type κ} {a b : E} → ◌≡◌ {A = Result E A} (err a) (err b) → a ≡ b
err-injective h = cc

-- Every error that the computation raises has the property.
abbrev pub ErrorsIn {ℓ κ} : {E : Type ℓ} {A : Type κ} → (E → Type 0) → Result E A → Type (ℓ ⊔ κ)
ErrorsIn {E = E} P r = (e : E) → r ≡ err e → P e

pub >>=-ErrorsIn {ℓ κ μ} :
    {E : Type ℓ} {A : Type κ} {B : Type μ} (P : E → Type 0) (m : Result E A) (f : A → Result E B)
    → ErrorsIn P m
    → ((a : A) → m ≡ ok a → ErrorsIn P (f a))
    → ErrorsIn P (m >>= f)
>>=-ErrorsIn P (ok a) f hm hf e h = hf a refl e h
>>=-ErrorsIn P (err e₀) f hm hf e h = hm e (cc)
