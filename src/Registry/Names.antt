-- ===== src/Registry/Names.antt =====
-- `assign_names` gives the selected operations distinct names and looks up no missing one.
use mcp_portal.Base.{
  >>=-eq-ok, >>_iff, Bool-cases, Dict, Distinct, Distinct-sorted_by, List, Text, [], ap, arith,
  contains, contains-sorted_by, contains-values, false, filter, guard, guard_iff, inl, inr,
  is_empty, lookup-injective, nat_eq, ok, option_eq, repeated, repeated-eq-nil, some, sorted_by,
  subst, text_eq, true, values, ◌∙◌, ◌∷◌, ◌≡◌,
}
use mcp_portal.Operations.{Operation, effect_eq, location_eq, sensitivity_eq}
use mcp_portal.Naming.Unique.{generate_names-Distinct, ids, is_empty→nil}
use mcp_portal.Registry.{
  assign_names, claim, finish_names, generate_rest, has_name, named, named_all, reserve,
}
use mcp_portal.Platform.{Platform}
use mcp_portal.Naming.{NamingOptions, generate_names}
use mcp_portal.Registry.Owners.{
  Source, claim-fresh, named-cases, named_all-Source, named_all-cons, named_all-nil, names,
  reserve-Reserved,
}

module _ (generated : Dict Text Text) (generated_distinct : Distinct (values generated)) where
  Source-fresh :
      (op x : Operation) (ops : List Operation)
      → named generated op ≡ ok x
      → Distinct (ids (op ∷ ops))
      → Distinct (names (filter has_name (op ∷ ops)))
      → ((a : Text)
          → contains (values generated) a ≡ true
          → contains (names (filter has_name (op ∷ ops))) a ≡ false)
      → Source generated ops x.name
      → ⊥
  Source-fresh op x ops h di dn apart s = elim (named-cases generated op x h) [
    | inl (e, same) ↦
        let name_same = ap (λ (o : Operation). o.name) same in
        elim s [
          | inl m ↦ ground arith
          | inr (i, mi, there) ↦
              ground (arith, apart x.name, contains-values i x.name generated there)
        ]
    | inr (e, (k, there, same)) ↦
        let name_same = ap (λ (o : Operation). o.name) same in
        let k_there = contains-values op.id k generated there in
        elim s [
          | inl m ↦ ground (arith, apart k)
          | inr (i, mi, there') ↦
              let there_k = there' ∙ ap some name_same in
              ground (arith, lookup-injective op.id i k generated generated_distinct there there_k)
        ]
  ]

  not_there :
      (op x : Operation) (ops rest : List Operation)
      → named generated op ≡ ok x
      → named_all generated ops ≡ ok rest
      → Distinct (ids (op ∷ ops))
      → Distinct (names (filter has_name (op ∷ ops)))
      → ((a : Text)
          → contains (values generated) a ≡ true
          → contains (names (filter has_name (op ∷ ops))) a ≡ false)
      → contains (names rest) x.name ≡ false
  not_there op x ops rest hx hr di dn apart = elim (Bool-cases (contains (names rest) x.name)) [
    | inr e ↦ e
    | inl m ↦
        absurd
          (Source-fresh op x ops hx di dn apart (named_all-Source generated ops rest x.name hr m))
  ]

  tail-Distinct :
      (op : Operation) (ops : List Operation)
      → Distinct (names (filter has_name (op ∷ ops)))
      → Distinct (names (filter has_name ops))
  tail-Distinct op ops d = elim (Bool-cases (has_name op)) [
    | inl e ↦ (rw e at d).1
    | inr e ↦ rw e at d
  ]

  named_all-Distinct :
      (ops result : List Operation)
      → named_all generated ops ≡ ok result
      → Distinct (ids ops)
      → Distinct (names (filter has_name ops))
      → ((a : Text)
          → contains (values generated) a ≡ true
          → contains (names (filter has_name ops)) a ≡ false)
      → Distinct (names result)
  named_all-Distinct [] result h di dn apart = rw (← named_all-nil generated result h) tt
  named_all-Distinct (op ∷ ops) result h di dn apart =
      let (x, rest, hx, hr, same) = named_all-cons generated op ops result h in
      let later =
        named_all-Distinct ops rest hr di.1 (tail-Distinct op ops dn)
          (λ a m. ground (arith, apart a)) in
      subst (λ r. Distinct (names r)) same (not_there op x ops rest hx hr di dn apart, later)

parts-Distinct :
    (py : Platform) (selected result : List Operation) (options : NamingOptions)
    (owner generated owned : Dict Text Text)
    → repeated (ids selected) ≡ []
    → reserve (sorted_by (λ (op : Operation). op.id) (filter has_name selected)) [] ≡ ok owner
    → generate_names py (filter (λ op. is_empty op.name) selected) options ≡ ok generated
    → claim (sorted_by (λ (op_id, _). op_id) generated) owner ≡ ok owned
    → named_all generated selected ≡ ok result
    → Distinct (ids selected) × Distinct (names result)
parts-Distinct py selected result options owner generated owned no_duplicates reserved produced
      claimed done =
    let explicit = filter has_name selected in
    let by_id = λ (op : Operation). op.id in
    let r = reserve-Reserved (sorted_by by_id explicit) [] owner reserved in
    let unique = generate_names-Distinct py _ options generated produced in
    let distinct_ids = repeated-eq-nil (ids selected) no_duplicates in
    (
      distinct_ids,
      named_all-Distinct generated unique.2 selected result done distinct_ids
          (Distinct-sorted_by by_id (λ (op : Operation). op.name) explicit r.distinct)
          λ a m. ground (
            arith,
            r.held a,
            contains-sorted_by by_id (λ (op : Operation). op.name) a explicit,
            claim-fresh (sorted_by (λ (op_id, _). op_id) generated) owner owned claimed a,
            contains-sorted_by (λ (x : Text × Text). x.0) (λ (x : Text × Text). x.1) a generated,
          ),
    )

-- The operations that `assign_names` returns have pairwise distinct names, explicit and generated
-- ones together, and it returns only when the ids of the selected operations are distinct.
pub assign_names-Distinct :
    (py : Platform) (selected result : List Operation) (options : NamingOptions)
    → assign_names py selected options ≡ ok result
    → Distinct (ids selected) × Distinct (names result)
unfolding assign_names generate_rest finish_names
assign_names-Distinct py selected result options h =
    let (a, h₁) = (>>_iff (guard _ _) _ result).0 h in
    let (owner, reserved, h₂) =
      >>=-eq-ok (reserve (sorted_by (λ (op : Operation). op.id) (filter has_name selected)) []) _
        h₁ in
    let (generated, produced, h₃) =
      >>=-eq-ok (generate_names py (filter (λ op. is_empty op.name) selected) options) _ h₂ in
    let (owned, claimed, h₄) =
      >>=-eq-ok (claim (sorted_by (λ (op_id, _). op_id) generated) owner) _ h₃ in
    parts-Distinct py selected result options owner generated owned
      (is_empty→nil _ ((guard_iff _ _).0 a)) reserved produced claimed h₄
