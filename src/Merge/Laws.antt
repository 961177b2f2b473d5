-- ===== src/Merge/Laws.antt =====
-- An explicit operation stands for the introspected one of its id, and no other changes.
use mcp_portal.Base.{
  List, Option, Option-cases, Text, [], arith, contains, false, filter, if◌then◌else◌, inl, inr,
  lookup, map, nat_eq, none, not, ok, option_eq, refl, some, subst, text_eq, ◌++◌, ◌==◌, ◌∷◌, ◌≡◌,
}
use mcp_portal.Operations.{Operation, effect_eq, location_eq, sensitivity_eq}
use mcp_portal.Naming.Unique.{ids}
use mcp_portal.Merge.{by_id, merge_operations, replaced}

-- The first operation of this id.
abbrev pub find : Text → List Operation → Option Operation
find i [] = none
find i (op ∷ ops) = if i == op.id then some op else find i ops

lookup-by_id : (i : Text) (ops : List Operation) → lookup i (by_id ops) ≡ find i ops
unfolding by_id
lookup-by_id i [] = refl
lookup-by_id i (op ∷ ops) = ground (arith, lookup-by_id i ops)

find-id : (i : Text) (ops : List Operation) (op : Operation) → find i ops ≡ some op → op.id ≡ i
find-id i [] op h = cc
find-id i (o ∷ ops) op h = ground (arith, find-id i ops op)

find-append :
    (i : Text) (xs ys : List Operation)
    → find i (xs ++ ys) ≡ elim (find i xs) [ none ↦ find i ys | some op ↦ some op ]
find-append i [] ys = refl
find-append i (x ∷ xs) ys = ground (arith, find-append i xs ys)

find-replaced :
    (i : Text) (xs es : List Operation)
    → find i (map (replaced (by_id es)) xs) ≡ elim (find i xs) [
      | none ↦ none
      | some op ↦ elim (find i es) [ none ↦ some op | some e ↦ some e ]
    ]
unfolding replaced
find-replaced i [] es = refl
find-replaced i (x ∷ xs) es = elim (Option-cases (find x.id es)) [
  | inl e ↦ ground (arith, lookup-by_id x.id es, find-replaced i xs es)
  | inr (o, e) ↦ ground (arith, lookup-by_id x.id es, find-id x.id es o e, find-replaced i xs es)
]

find-unseen :
    (i : Text) (seen : List Text) (es : List Operation)
    → contains seen i ≡ false
    → find i (filter (λ op. not (contains seen op.id)) es) ≡ find i es
find-unseen i seen [] h = refl
find-unseen i seen (e ∷ es) h = ground (arith, find-unseen i seen es h)

find-contains : (i : Text) (xs : List Operation) → find i xs ≡ none → contains (ids xs) i ≡ false
find-contains i [] h = refl
find-contains i (x ∷ xs) h = ground (arith, find-contains i xs)

abbrev merged_of : List Operation → List Operation → List Operation
merged_of xs es = map (replaced (by_id es)) xs ++ filter (λ op. not (contains (ids xs) op.id)) es

find-merged_of :
    (i : Text) (xs es : List Operation)
    → find i (merged_of xs es) ≡ elim (find i es) [ none ↦ find i xs | some e ↦ some e ]
find-merged_of i xs es = ground (
  arith,
  find-append i (map (replaced (by_id es)) xs) (filter (λ op. not (contains (ids xs) op.id)) es),
  find-replaced i xs es,
  find-contains i xs,
  find-unseen i (ids xs) es,
)

merge_operations-eq-ok :
    (xs es merged : List Operation) → merge_operations xs es ≡ ok merged → merged_of xs es ≡ merged
unfolding merge_operations
merge_operations-eq-ok xs es merged h = ground arith

-- When the merge succeeds, an id stands for its explicit operation if there is one, and
-- otherwise for the first introspected operation of that id.
pub find-merge_operations :
    (i : Text) (introspected explicit merged : List Operation)
    → merge_operations introspected explicit ≡ ok merged
    → find i merged ≡ elim (find i explicit) [ none ↦ find i introspected | some e ↦ some e ]
find-merge_operations i xs es merged h =
    subst (λ m. find i m ≡ elim (find i es) [ none ↦ find i xs | some e ↦ some e ])
      (merge_operations-eq-ok xs es merged h) (find-merged_of i xs es)
