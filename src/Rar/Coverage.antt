-- ===== src/Rar/Coverage.antt =====
-- What coverage by one presented detail means, field by field.
use mcp_portal.Base.{
  Any, Any-imp, Bool, List, Option, Text, [], all, any-append, any_iff, arith, contains, nat_eq,
  none, option_eq, refl, some, sym, text_eq, true, ◌&&◌, ◌++◌, ◌==◌, ◌||◌, ◌↔◌, ◌∙◌, ◌∷◌, ◌≡◌,
}
use mcp_portal.Rar.{AuthorizationDetail, covers, covers_one, within}

-- Every value of the first list is in the second.
abbrev pub Subset : List Text → List Text → Type 0
Subset xs ys = (a : Text) → contains xs a ≡ true → contains ys a ≡ true

pub record Grants (required presented : AuthorizationDetail) : Type 0 where
  pub type : presented.type ≡ required.type
  pub actions : Subset required.actions presented.actions
  pub locations : Subset required.locations presented.locations
  pub datatypes : Subset required.datatypes presented.datatypes
  pub privileges : Subset required.privileges presented.privileges
  pub identifier : (i : Text) → required.identifier ≡ some i → presented.identifier ≡ some i

all-contains→Subset : (xs ys : List Text) → all (λ x. contains ys x) xs ≡ true → Subset xs ys
all-contains→Subset [] ys h a m = cc
all-contains→Subset (x ∷ xs) ys h a m = ground (arith, all-contains→Subset xs ys (ground arith) a)

Subset→all-contains : (xs ys : List Text) → Subset xs ys → all (λ x. contains ys x) xs ≡ true
Subset→all-contains [] ys h = refl
Subset→all-contains (x ∷ xs) ys h =
    ground (arith, h x, Subset→all-contains xs ys (λ a m. h a (ground arith)))

within_iff : (xs ys : List Text) → (within xs ys ≡ true) ↔ Subset xs ys
unfolding within
within_iff [] ys = (λ h a m. cc, λ h. refl)
within_iff (x ∷ xs) ys = (all-contains→Subset (x ∷ xs) ys, Subset→all-contains (x ∷ xs) ys)

abbrev same_identifier : Option Text → Option Text → Bool
same_identifier none presented = true
same_identifier (some i) presented = presented == some i

same_identifier_iff :
    (required presented : Option Text)
    → (same_identifier required presented ≡ true)
      ↔ ((i : Text) → required ≡ some i → presented ≡ some i)
same_identifier_iff none presented = (λ h i e. cc, λ h. refl)
same_identifier_iff (some j) presented = (λ h i e. ground arith, λ h. ground (arith, h j refl))

-- The tests of `covers_one`, in one conjunction.
covers_one_lem :
    (r p : AuthorizationDetail)
    → covers_one r p ≡ (
        p.type == r.type
        && (within r.actions p.actions
            && (within r.locations p.locations
                && (within r.datatypes p.datatypes
                    && (within r.privileges p.privileges
                        && same_identifier r.identifier p.identifier)))))
unfolding covers_one
covers_one_lem r p = ground arith

covers_one→Grants : (r p : AuthorizationDetail) → covers_one r p ≡ true → Grants r p
covers_one→Grants r p h =
    let c = sym (covers_one_lem r p) ∙ h in
    record {
      type = ground arith;
      actions = (within_iff r.actions p.actions).0 (ground arith);
      locations = (within_iff r.locations p.locations).0 (ground arith);
      datatypes = (within_iff r.datatypes p.datatypes).0 (ground arith);
      privileges = (within_iff r.privileges p.privileges).0 (ground arith);
      identifier = (same_identifier_iff r.identifier p.identifier).0 (ground arith);
    }

Grants→covers_one : (r p : AuthorizationDetail) → Grants r p → covers_one r p ≡ true
Grants→covers_one r p g = ground (
  arith,
  covers_one_lem r p,
  g.type,
  (within_iff r.actions p.actions).1 g.actions,
  (within_iff r.locations p.locations).1 g.locations,
  (within_iff r.datatypes p.datatypes).1 g.datatypes,
  (within_iff r.privileges p.privileges).1 g.privileges,
  (same_identifier_iff r.identifier p.identifier).1 g.identifier,
)

-- A requirement is covered exactly when one presented detail grants it: it has the required
-- type, every value of each list that the requirement names, and the required identifier.
pub covers_iff :
    (r : AuthorizationDetail) (ps : List AuthorizationDetail)
    → (covers r ps ≡ true) ↔ Any (λ p. Grants r p) ps
unfolding covers
covers_iff r ps = (
  λ h. Any-imp ps (covers_one→Grants r) ((any_iff (covers_one r) ps).0 h),
  λ h. (any_iff (covers_one r) ps).1 (Any-imp ps (Grants→covers_one r) h),
)

-- Coverage by two lists together is coverage by one of them alone: no two details combine.
pub covers-append :
    (r : AuthorizationDetail) (ps qs : List AuthorizationDetail)
    → covers r (ps ++ qs) ≡ (covers r ps || covers r qs)
unfolding covers
covers-append r ps qs = any-append (covers_one r) ps qs
