-- ===== src/Reconcile/Partition.antt =====
-- Each id stands in one part of the report, and each operation is decided again.
use mcp_portal.Base.{
  ==→≡, Bool, Dict, List, Option, Option-cases, Text, [], ap, arith, contains, contains-filter,
  contains-sorted_by, dedup, eq_self, false, filter, if◌then◌else◌, inl, inr, insert, keys, lookup,
  lookup-ne-none, map, nat_eq, none, not, option_eq, refl, some, subst, sym, text_eq, true, ◌&&◌,
  ◌==◌, ◌||◌, ◌∙◌, ◌∷◌, ◌≡◌, ◌≢◌,
}
use mcp_portal.Operations.{Binding, HttpBinding, Operation, effect_eq, location_eq, sensitivity_eq}
use mcp_portal.Configure.{OperationDecision}
use mcp_portal.Reconcile.{
  ReconcileReport, by_id, compare_operation, diff_operation_ids, keys_within, keys_without,
  same_binding, sorted_texts, split_changed,
}

map_id : (xs : List Text) → map (λ s. s) xs ≡ xs
map_id [] = refl
map_id (x ∷ xs) = ap (λ r. x ∷ r) (map_id xs)

contains-sorted_texts : (xs : List Text) (k : Text) → contains (sorted_texts xs) k ≡ contains xs k
contains-sorted_texts xs k =
    ap (λ ys. contains ys k) (sym (map_id (sorted_texts xs)))
    ∙ contains-sorted_by (λ s. s) (λ s. s) k xs
    ∙ ap (λ ys. contains ys k) (map_id xs)

contains-dedup : (xs : List Text) (k : Text) → contains (dedup xs) k ≡ contains xs k
unfolding dedup
contains-dedup [] k = refl
contains-dedup (x ∷ xs) k = ground (arith, contains-dedup xs k, ==→≡ k x)

contains-keys_without {ℓ κ} :
    {A : Type ℓ} {B : Type κ} (a : Dict Text A) (b : Dict Text B) (k : Text)
    → contains (keys_without a b) k ≡ (contains (keys a) k && not (contains (keys b) k))
unfolding keys_without
contains-keys_without a b k =
    contains-sorted_texts (filter (λ k. not (contains (keys b) k)) (dedup (keys a))) k
    ∙ contains-filter (λ k. not (contains (keys b) k)) (dedup (keys a)) k
    ∙ ap (λ x. x && not (contains (keys b) k)) (contains-dedup (keys a) k)

contains-keys_within {ℓ κ} :
    {A : Type ℓ} {B : Type κ} (a : Dict Text A) (b : Dict Text B) (k : Text)
    → contains (keys_within a b) k ≡ (contains (keys a) k && contains (keys b) k)
unfolding keys_within
contains-keys_within a b k =
    contains-sorted_texts (filter (λ k. contains (keys b) k) (dedup (keys a))) k
    ∙ contains-filter (λ k. contains (keys b) k) (dedup (keys a)) k
    ∙ ap (λ x. x && contains (keys b) k) (contains-dedup (keys a) k)

contains-keys-insert {ℓ} :
    {A : Type ℓ} (j k : Text) (v : A) (d : Dict Text A)
    → contains (keys (insert k v d)) j ≡ (j == k || contains (keys d) j)
contains-keys-insert j k v [] = refl
contains-keys-insert j k v ((i, w) ∷ d) = ground (arith, contains-keys-insert j k v d, ==→≡ k i)

abbrev pub ids_of : List Operation → List Text
ids_of = map (λ (op : Operation). op.id)

pub contains-keys-by_id :
    (ops : List Operation) (d : Dict Text Operation) (k : Text)
    → contains (keys (by_id ops d)) k ≡ (contains (ids_of ops) k || contains (keys d) k)
unfolding by_id
contains-keys-by_id [] d k = refl
contains-keys-by_id (op ∷ ops) d k =
    ground (arith, contains-keys-by_id ops (insert op.id op d) k, contains-keys-insert k op.id op d)

abbrev pub says_same : Option Bool → Bool
says_same (some true) = true
says_same _ = false

abbrev pub says_changed : Option Bool → Bool
says_changed (some false) = true
says_changed _ = false

-- The two lists hold the ids on which the comparison says so.
abbrev Parts : List Text → List Text → List Text → Text → Option Bool → Type 0
Parts ids changed unchanged k verdict =
    (contains changed k ≡ (contains ids k && says_changed verdict))
    × (contains unchanged k ≡ (contains ids k && says_same verdict))
    × (contains ids k ≡ (contains changed k || contains unchanged k))

Parts-cons :
    (b : Bool) (k id : Text) (ids changed unchanged : List Text) (verdict : Option Bool)
    → (k ≡ id → verdict ≡ some b)
    → Parts ids changed unchanged k verdict
    → Parts
        (id ∷ ids)
        (if b then changed else id ∷ changed)
        (if b then id ∷ unchanged else unchanged)
        k
        verdict
Parts-cons true k id ids changed unchanged verdict at_id p = ground (arith, at_id, ==→≡ k id)
Parts-cons false k id ids changed unchanged verdict at_id p = ground (arith, at_id, ==→≡ k id)

pair-if :
    (b : Bool) (c u changed unchanged : List Text) (id : Text)
    → ◌≡◌ {A = Option (List Text × List Text)}
        (some (if b then (c, id ∷ u) else (id ∷ c, u)))
        (some (changed, unchanged))
    → ((if b then c else id ∷ c) ≡ changed) × ((if b then id ∷ u else u) ≡ unchanged)
pair-if true c u changed unchanged id h = (cc, cc)
pair-if false c u changed unchanged id h = (cc, cc)

abbrev pub IsHttp : Binding → Type 0
IsHttp b = (h : HttpBinding) × (b ≡ Binding.http h)

-- What both runs know is bound to HTTP in both.
abbrev pub Comparable : Dict Text OperationDecision → Dict Text Operation → Type 0
Comparable previous current =
    (k : Text) (d : OperationDecision) (op : Operation)
    → lookup k previous ≡ some d
    → lookup k current ≡ some op
    → IsHttp d.operation.binding × IsHttp op.binding

module _ (same : HttpBinding → HttpBinding → Bool) where
  split_changed-parts :
      (ids : List Text) (previous : Dict Text OperationDecision) (current : Dict Text Operation)
      (changed unchanged : List Text) (k : Text)
      → split_changed same ids previous current ≡ some (changed, unchanged)
      → Parts ids changed unchanged k (compare_operation same k previous current)
  unfolding split_changed
  split_changed-parts [] previous current changed unchanged k h = ground arith
  split_changed-parts (id ∷ ids) previous current changed unchanged k h =
      elim (Option-cases (compare_operation same id previous current)) [
        | inl e ↦ absurd (some-none (rw (split_changed, e) at h))
        | inr (b, e) ↦ elim (Option-cases (split_changed same ids previous current)) [
          | inl f ↦ absurd (some-none (rw (split_changed, e, f) at h))
          | inr ((c, u), f) ↦
              let (same_changed, same_unchanged) =
                pair-if b c u changed unchanged id (rw (split_changed, e, f) at h) in
              let parts =
                Parts-cons b k id ids c u (compare_operation same k previous current)
                  (λ at. ap (λ j. compare_operation same j previous current) at ∙ e)
                  (split_changed-parts ids previous current c u k f) in
              rw (same_changed, same_unchanged) at parts
        ]
      ]
    where
      some-none : ◌≢◌ {A = Option (List Text × List Text)} none (some (changed, unchanged))
      some-none x = cc

  -- Where the id stands in the report, by what the two runs know of it.
  abbrev pub Placed : Dict Text OperationDecision → List Operation → ReconcileReport → Text → Type 0
  Placed previous ops r k =
      (contains r.new k ≡ (contains (ids_of ops) k && not (contains (keys previous) k)))
      × (contains r.removed k ≡ (contains (keys previous) k && not (contains (ids_of ops) k)))
      × (contains r.changed k ≡ (
          contains (keys previous) k
          && contains (ids_of ops) k
          && says_changed (compare_operation same k previous (by_id ops []))))
      × (contains r.unchanged k ≡ (
          contains (keys previous) k
          && contains (ids_of ops) k
          && says_same (compare_operation same k previous (by_id ops []))))
      × ((contains (keys previous) k && contains (ids_of ops) k)
          ≡ (contains r.changed k || contains r.unchanged k))

  pub diff_operation_ids-Placed :
      (previous : Dict Text OperationDecision) (ops : List Operation) (r : ReconcileReport)
      (k : Text)
      → diff_operation_ids same previous ops ≡ some r
      → Placed previous ops r k
  unfolding diff_operation_ids
  diff_operation_ids-Placed previous ops r k h =
      let current = by_id ops [] in
      let known = keys_within previous current in
      elim (Option-cases (split_changed same known previous current)) [
        | inl e ↦ absurd (no_report (rw (diff_operation_ids, e) at h))
        | inr ((changed, unchanged), e) ↦
            let (c, u, both) = split_changed-parts known previous current changed unchanged k e in
            let now = contains-keys-by_id ops [] k in
            let within = contains-keys_within previous current k in
            subst (λ (q : ReconcileReport). Placed previous ops q k)
              (report_of (rw (diff_operation_ids, e) at h))
              (
                contains-keys_without current previous k ∙ ground (arith, now),
                contains-keys_without previous current k ∙ ground (arith, now),
                c ∙ ground (arith, now, within),
                u ∙ ground (arith, now, within),
                ground (arith, now, within, both),
              )
      ]
    where
      no_report : ◌≢◌ {A = Option ReconcileReport} none (some r)
      no_report x = cc

      report_of : {q : ReconcileReport} → ◌≡◌ {A = Option ReconcileReport} (some q) (some r) → q ≡ r
      report_of x = cc

  same_binding-IsHttp : (x y : Binding) → IsHttp x → IsHttp y → same_binding same x y ≢ none
  unfolding same_binding
  same_binding-IsHttp x y (a, p) (b, q) h = some-none (rw (p, q) at h)
    where
      some-none : {b : Bool} → ◌≢◌ {A = Option Bool} (some b) none
      some-none e = cc

  compare_operation-known :
      (k : Text) (previous : Dict Text OperationDecision) (current : Dict Text Operation)
      → contains (keys previous) k ≡ true
      → contains (keys current) k ≡ true
      → Comparable previous current
      → compare_operation same k previous current ≢ none
  unfolding compare_operation
  compare_operation-known k previous current before now comparable =
      elim (Option-cases (lookup k previous)) [
        | inl e ↦ absurd (lookup-ne-none k previous before e)
        | inr (d, e) ↦ elim (Option-cases (lookup k current)) [
          | inl f ↦ absurd (lookup-ne-none k current now f)
          | inr (op, f) ↦
              let (is_http, is_http') = comparable k d op e f in
              λ h.
                same_binding-IsHttp d.operation.binding op.binding is_http is_http'
                  (rw (compare_operation, e, f) at h)
        ]
      ]

  split_changed-known :
      (ids : List Text) (previous : Dict Text OperationDecision) (current : Dict Text Operation)
      → ((k : Text) → contains ids k ≡ true → compare_operation same k previous current ≢ none)
      → split_changed same ids previous current ≢ none
  unfolding split_changed
  split_changed-known [] previous current known h = cc
  split_changed-known (id ∷ ids) previous current known h =
      elim (Option-cases (compare_operation same id previous current)) [
        | inl e ↦ known id (rw (eq_self id) refl) e
        | inr (b, e) ↦ elim (Option-cases (split_changed same ids previous current)) [
          | inl f ↦ split_changed-known ids previous current (λ k m. known k (ground arith)) f
          | inr ((c, u), f) ↦ some-none (rw (split_changed, e, f) at h)
        ]
      ]
    where
      some-none :
          {p : List Text × List Text} → ◌≢◌ {A = Option (List Text × List Text)} (some p) none
      some-none x = cc

  -- Where every operation that both runs know has an HTTP binding in both, there is a report, and
  -- each id stands in it by what the runs know of it: a new one only in `new`, a dropped one only
  -- in `removed`, and one that both have in exactly one of `changed` and `unchanged`, by its
  -- binding.
  pub diff_operation_ids-parts :
      (previous : Dict Text OperationDecision) (ops : List Operation)
      → Comparable previous (by_id ops [])
      → (r : ReconcileReport) × (diff_operation_ids same previous ops ≡ some r)
        × ((k : Text) → Placed previous ops r k)
  unfolding diff_operation_ids
  diff_operation_ids-parts previous ops comparable =
      let current = by_id ops [] in
      elim (Option-cases (diff_operation_ids same previous ops)) [
        | inr (r, e) ↦ (r, e, λ k. diff_operation_ids-Placed previous ops r k e)
        | inl e ↦
            elim (Option-cases
              (split_changed same (keys_within previous current) previous current)) [
                | inl f ↦ absurd (
                    split_changed-known (keys_within previous current) previous current
                      (λ k m.
                        let within = contains-keys_within previous current k in
                        compare_operation-known k previous current (ground arith) (ground arith)
                          comparable)
                      f)
                | inr ((c, u), f) ↦ absurd (some-none (rw (diff_operation_ids, f) at e))
              ]
      ]
    where
      some-none : {r : ReconcileReport} → ◌≢◌ {A = Option ReconcileReport} (some r) none
      some-none x = cc
