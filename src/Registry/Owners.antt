-- ===== src/Registry/Owners.antt =====
-- The loops of `assign_names`: reserving, claiming and giving out names.
use mcp_portal.Base.{
  ==→≡, >>=-eq-ok, Bool-cases, Dict, Distinct, List, Option-cases, Text, [], ap, arith, contains,
  false, filter, inl, inr, insert, is_empty, lookup, lookup-insert, map, nat_eq, none, ok,
  ok-injective, option_eq, some, subst, sym, text_eq, true, values, ◌==◌, ◌∙◌, ◌∷◌, ◌≡◌, ◌≢◌, ◌⊎◌,
}
use mcp_portal.Operations.{Operation, effect_eq, location_eq, sensitivity_eq}
use mcp_portal.Naming.Unique.{ids}
use mcp_portal.Registry.{claim, has_name, named, named_all, reserve}

abbrev pub names : List Operation → List Text
names ops = map (λ (op : Operation). op.name) ops

-- What the reservation of explicit names establishes.
pub record Reserved (ops : List Operation) (owner owner' : Dict Text Text) : Type 0 where
  pub distinct : Distinct (names ops)
  pub fresh : (a : Text) → contains (names ops) a ≡ true → lookup a owner ≡ none
  pub held : (a : Text) → contains (names ops) a ≡ true → lookup a owner' ≢ none
  pub kept : (a : Text) → lookup a owner ≢ none → lookup a owner' ≢ none

pub reserve-Reserved :
    (ops : List Operation) (owner owner' : Dict Text Text)
    → reserve ops owner ≡ ok owner'
    → Reserved ops owner owner'
unfolding reserve
reserve-Reserved [] owner owner' h = record {
  distinct = tt;
  fresh = λ a m. cc;
  held = λ a m. cc;
  kept = λ a n. rw (← ok-injective h) n;
}
reserve-Reserved (op ∷ ops) owner owner' h = elim (Option-cases (lookup op.name owner)) [
  | inr (other, e) ↦ cc
  | inl e ↦
      let r = reserve-Reserved ops (insert op.name op.id owner) owner' (ground arith) in
      record {
        distinct = (
          ground (arith, r.fresh op.name, lookup-insert op.name op.name op.id owner),
          r.distinct,
        );
        fresh = λ a m. ground (arith, r.fresh a, lookup-insert a op.name op.id owner);
        held = λ a m n. ground (arith, r.held a, r.kept a, lookup-insert a op.name op.id owner);
        kept = λ a n. r.kept a (rw lookup-insert (ground arith));
      }
]

pub claim-fresh :
    (generated owner owner' : Dict Text Text)
    → claim generated owner ≡ ok owner'
    → (a : Text) → contains (values generated) a ≡ true
    → lookup a owner ≡ none
unfolding claim
claim-fresh [] owner owner' h a m = cc
claim-fresh ((op_id, name) ∷ generated) owner owner' h a m =
    elim (Option-cases (lookup name owner)) [
      | inr (other, e) ↦ cc
      | inl e ↦ ground (
        arith,
        claim-fresh generated (insert name op_id owner) owner' (ground arith) a,
        lookup-insert a name op_id owner,
      )
    ]

pub named-cases :
    (generated : Dict Text Text) (op x : Operation)
    → named generated op ≡ ok x
    → (has_name op ≡ true) × (x ≡ op)
      ⊎ (has_name op ≡ false)
        × ((n : Text) × (lookup op.id generated ≡ some n) × (x ≡ record op { name = n }))
unfolding named
named-cases generated op x h = elim (Bool-cases (is_empty op.name)) [
  | inr e ↦ inl (ground arith, ground arith)
  | inl e ↦ elim (Option-cases (lookup op.id generated)) [
    | inl none_there ↦ cc
    | inr (n, there) ↦ inr (ground arith, (n, there, ground arith))
  ]
]

-- What `named_all` returns, and in which order.
pub named_all-cons :
    (generated : Dict Text Text) (op : Operation) (ops result : List Operation)
    → named_all generated (op ∷ ops) ≡ ok result
    → (x : Operation) × (rest : List Operation) × (named generated op ≡ ok x)
      × (named_all generated ops ≡ ok rest)
      × (x ∷ rest ≡ result)
unfolding named_all
named_all-cons generated op ops result h =
    let (x, hx, h₁) = >>=-eq-ok (named generated op) _ h in
    let (rest, hr, h₂) = >>=-eq-ok (named_all generated ops) _ h₁ in
    (x, rest, hx, hr, ok-injective h₂)

pub named_all-nil :
    (generated : Dict Text Text) (result : List Operation)
    → named_all generated [] ≡ ok result
    → [] ≡ result
unfolding named_all
named_all-nil generated result h = ok-injective h

-- The name `n` is an explicit one, or it is generated for one of the ids.
abbrev pub Source : Dict Text Text → List Operation → Text → Type 0
Source generated ops n =
    (contains (names (filter has_name ops)) n ≡ true)
    ⊎ ((i : Text) × (contains (ids ops) i ≡ true) × (lookup i generated ≡ some n))

Source-tail :
    (generated : Dict Text Text) (op : Operation) (ops : List Operation) (n : Text)
    → Source generated ops n
    → Source generated (op ∷ ops) n
Source-tail generated op ops n (inl m) = inl (ground arith)
Source-tail generated op ops n (inr (i, m, e)) = inr (i, ground arith, e)

Source-head :
    (generated : Dict Text Text) (op x : Operation) (ops : List Operation)
    → named generated op ≡ ok x
    → Source generated (op ∷ ops) x.name
Source-head generated op x ops h = elim (named-cases generated op x h) [
  | inl (e, same) ↦ inl (ground (arith, ap (λ (o : Operation). o.name) same))
  | inr (e, (n, there, same)) ↦
      inr (op.id, ground arith, there ∙ ap some (sym (ap (λ (o : Operation). o.name) same)))
]

pub named_all-Source :
    (generated : Dict Text Text) (ops result : List Operation) (n : Text)
    → named_all generated ops ≡ ok result
    → contains (names result) n ≡ true
    → Source generated ops n
named_all-Source generated [] result n h m =
    let e = named_all-nil generated result h in absurd (ground (arith, ap names e))
named_all-Source generated (op ∷ ops) result n h m =
    let (x, rest, hx, hr, same) = named_all-cons generated op ops result h in
    let m' = subst (λ r. contains (names r) n ≡ true) (sym same) m in
    elim (Bool-cases (n == x.name)) [
      | inl e ↦ rw (==→≡ n x.name e) (Source-head generated op x ops hx)
      | inr e ↦
          Source-tail generated op ops n (named_all-Source generated ops rest n hr (ground arith))
    ]

-- The names of the result are distinct when the explicit ones are, the generated ones are, no
-- name is both, and the ids are distinct.
