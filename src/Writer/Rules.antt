-- ===== src/Writer/Rules.antt =====
-- Which rules a written policy has.
use mcp_portal.Base.{
  ==→≡, Any, Any-append-left, Any-append-right, Bool, Bool-cases, List, Option, Option-cases, Text,
  [], ap, arith, contains, eq_self, false, filter, if◌then◌else◌, inl, inr, is_empty, nat_eq, none,
  not, option_eq, refl, some, sym, text_eq, true, ◌++◌, ◌==◌, ◌↔◌, ◌∙◌, ◌∷◌, ◌≡◌, ◌≢◌, ◌⊎◌,
}
use mcp_portal.PolicyConfig.{PolicyConfig, PolicyRule}
use mcp_portal.Configure.{OperationDecision, RequiredDetail}
use mcp_portal.Writer.{
  configure_id, existing_defaults, existing_rules, foreign_ids, foreign_rules, is_configure_owned,
  owned_rule, owned_rules, render_policy, rule_of,
}
use mcp_portal.Writer.Owned.{Matches, Owned, configure_id_iff, is_configure_owned-false}
use mcp_portal.Operations.{effect_eq, location_eq, sensitivity_eq}

filter-Any_iff :
    {A : Type 0} (p : A → Bool) (a : A) (xs : List A)
    → Any (λ x. x ≡ a) (filter p xs) ↔ (Any (λ x. x ≡ a) xs × (p a ≡ true))
filter-Any_iff p a [] = ((λ m. absurd m), λ (m, _). m)
filter-Any_iff p a (x ∷ xs) =
    let (there, back) = filter-Any_iff p a xs in
    elim (Bool-cases (p x)) [
      | inl e ↦ rw e (
        (λ m. elim m [
          | inl here ↦ (inl here, ap p (sym here) ∙ e)
          | inr later ↦ let (n, h) = there later in (inr n, h)
        ]),
        λ (m, h). elim m [ inl here ↦ inl here | inr later ↦ inr (back (later, h)) ],
      )
      | inr e ↦ rw e (
        (λ m. let (n, h) = there m in (inr n, h)),
        λ (m, h). elim m [
          | inl here ↦ absurd (false-ne-true (sym e ∙ ap p here ∙ h))
          | inr later ↦ back (later, h)
        ],
      )
    ]
  where
    false-ne-true : false ≢ true
    false-ne-true e = cc

append-Any : {A : Type 0} (P : A → Type 0) (xs ys : List A) → Any P (xs ++ ys) → Any P xs ⊎ Any P ys
append-Any P [] ys m = inr m
append-Any P (x ∷ xs) ys (inl h) = inl (inl h)
append-Any P (x ∷ xs) ys (inr m) = elim (append-Any P xs ys m) [
  | inl here ↦ inl (inr here)
  | inr there ↦ inr there
]

-- The rule of an operation that requires one detail of a type, with actions if there are any.
abbrev rule_with : Text → Text → Option (List Text) → PolicyRule
rule_with id type actions = record {
  match = record { ids = id ∷ []; tags = []; upstream = []; effect = []; sensitivity = [] };
  require = some (record {
    authorization_details =
        record {
          type = type;
          actions = actions;
          locations = none;
          datatypes = none;
          identifier = none;
          privileges = none;
        }
        ∷ [];
  });
  outbound = record { carry = false };
}

abbrev actions_of : List Text → Option (List Text)
actions_of [] = none
actions_of (a ∷ actions) = some (a ∷ actions)

abbrev pub rule_for : Text → RequiredDetail → PolicyRule
rule_for id r = rule_with id r.type (actions_of r.actions)

actions_of-lem : (xs : List Text) → (if is_empty xs then none else some xs) ≡ actions_of xs
actions_of-lem [] = refl
actions_of-lem (a ∷ xs) = refl

module _ (decisions : List OperationDecision) where
  owned_rule-rule_for : (id : Text) (r : RequiredDetail) → owned_rule decisions id r ≡ rule_for id r
  unfolding owned_rule
  owned_rule-rule_for id r = ap (rule_with id r.type) (actions_of-lem r.actions)

  -- Another rule, which the survey does not own, matches the operation alone by its id.
  abbrev pub Taken : List PolicyRule → Text → Type 0
  Taken rules id =
      (other : PolicyRule) × Any (λ o. o ≡ other) rules
      × (¬ Owned decisions other)
      × Matches decisions id other

  foreign_ids-cons :
      (rule : PolicyRule) (rules : List PolicyRule) (id : Text)
      → (contains (foreign_ids decisions rules) id ≡ true) ↔ Taken rules id
      → (contains (foreign_ids decisions (rule ∷ rules)) id ≡ true) ↔ Taken (rule ∷ rules) id
  unfolding foreign_ids
  foreign_ids-cons rule rules id rest = (forwards, backwards)
    where
      later : Taken rules id → Taken (rule ∷ rules) id
      later (other, m, foreign, matches) = (other, inr m, foreign, matches)

      forwards : contains (foreign_ids decisions (rule ∷ rules)) id ≡ true → Taken (rule ∷ rules) id
      forwards h = elim (Bool-cases (is_configure_owned decisions rule)) [
        | inl owned ↦ later (rest.0 (rw (foreign_ids, owned) at h))
        | inr foreign ↦ elim (Option-cases (configure_id decisions rule)) [
          | inl e ↦ later (rest.0 (rw (foreign_ids, foreign, e) at h))
          | inr (i, e) ↦ elim (Bool-cases (id == i)) [
            | inl same ↦ (
              rule,
              inl refl,
              (is_configure_owned-false decisions rule).0 foreign,
              (configure_id_iff decisions rule id).0 (e ∙ ap some (sym (==→≡ id i same))),
            )
            | inr other ↦ later (rest.0 (rw (foreign_ids, foreign, e, other) at h))
          ]
        ]
      ]

      in_rest :
          contains (foreign_ids decisions rules) id ≡ true
          → contains (foreign_ids decisions (rule ∷ rules)) id ≡ true
      in_rest h = elim (Bool-cases (is_configure_owned decisions rule)) [
        | inl owned ↦ rw (foreign_ids, owned) h
        | inr foreign ↦ elim (Option-cases (configure_id decisions rule)) [
          | inl e ↦ rw (foreign_ids, foreign, e) h
          | inr (i, e) ↦ rw (foreign_ids, foreign, e) (ground arith)
        ]
      ]

      backwards :
          Taken (rule ∷ rules) id → contains (foreign_ids decisions (rule ∷ rules)) id ≡ true
      backwards (other, inl here, foreign, matches) =
          rw
            (
              foreign_ids,
              ap (is_configure_owned decisions) here
                  ∙ (is_configure_owned-false decisions other).1 foreign,
              ap (configure_id decisions) here ∙ (configure_id_iff decisions other id).1 matches,
              eq_self id,
            )
            refl
      backwards (other, inr m, foreign, matches) = in_rest (rest.1 (other, m, foreign, matches))

  foreign_ids_iff :
      (rules : List PolicyRule) (id : Text)
      → (contains (foreign_ids decisions rules) id ≡ true) ↔ Taken rules id
  unfolding foreign_ids
  foreign_ids_iff [] id = ((λ h. cc), λ (_, m, _, _). absurd m)
  foreign_ids_iff (rule ∷ rules) id = foreign_ids-cons rule rules id (foreign_ids_iff rules id)

  -- The rule of an exposed operation with a requirement, whose id is not taken.
  abbrev pub IsFor : List PolicyRule → PolicyRule → OperationDecision → Type 0
  IsFor rules rule d =
      (r : RequiredDetail) × (d.exposed ≡ true)
      × (d.require ≡ some r)
      × (¬ Taken rules d.operation.id)
      × (rule ≡ rule_for d.operation.id r)

  rule_of_iff :
      (rules : List PolicyRule) (rule : PolicyRule) (d : OperationDecision)
      → (rule_of decisions (foreign_ids decisions rules) d ≡ some rule) ↔ IsFor rules rule d
  unfolding rule_of
  rule_of_iff rules rule d = (forwards, backwards)
    where
      none-some : ◌≢◌ {A = Option PolicyRule} none (some rule)
      none-some e = cc

      some-injective : (a b : PolicyRule) → ◌≡◌ {A = Option PolicyRule} (some a) (some b) → b ≡ a
      some-injective a b e = cc

      forwards : rule_of decisions (foreign_ids decisions rules) d ≡ some rule → IsFor rules rule d
      forwards h = elim (Bool-cases d.exposed) [
        | inr x ↦ absurd (none-some (rw (rule_of, x) at h))
        | inl x ↦ elim (Option-cases d.require) [
          | inl e ↦ absurd (none-some (rw (rule_of, x, e) at h))
          | inr (r, e) ↦ elim (Bool-cases (contains (foreign_ids decisions rules) d.operation.id)) [
            | inl t ↦ absurd (none-some (rw (rule_of, x, e, t) at h))
            | inr t ↦ (
              r,
              x,
              e,
              (λ taken. let there = (foreign_ids_iff rules d.operation.id).1 taken in ground arith),
              some-injective (owned_rule decisions d.operation.id r) rule
                    (rw (rule_of, x, e, t) at h)
                  ∙ owned_rule-rule_for d.operation.id r,
            )
          ]
        ]
      ]

      backwards : IsFor rules rule d → rule_of decisions (foreign_ids decisions rules) d ≡ some rule
      backwards (r, x, e, untaken, same) =
          elim (Bool-cases (contains (foreign_ids decisions rules) d.operation.id)) [
            | inl t ↦ absurd (untaken ((foreign_ids_iff rules d.operation.id).0 t))
            | inr t ↦
                rw (rule_of, x, e, t) (ap some (owned_rule-rule_for d.operation.id r ∙ sym same))
          ]

  owned_rules_iff :
      (rules : List PolicyRule) (rule : PolicyRule) (ds : List OperationDecision)
      → Any (λ o. o ≡ rule) (owned_rules decisions (foreign_ids decisions rules) ds)
        ↔ Any (IsFor rules rule) ds
  unfolding owned_rules
  owned_rules_iff rules rule [] = ((λ m. m), λ m. m)
  owned_rules_iff rules rule (d ∷ ds) =
      let taken = foreign_ids decisions rules in
      let (there, back) = owned_rules_iff rules rule ds in
      elim (Option-cases (rule_of decisions taken d)) [
        | inl n ↦
            rw (owned_rules, n)
              (
                (λ m. inr (there m)),
                λ m. elim m [
                  | inl here ↦ absurd (none-some (sym n ∙ (rule_of_iff rules rule d).1 here))
                  | inr later ↦ back later
                ],
              )
        | inr (written, n) ↦
            rw (owned_rules, n)
              (
                (λ m. elim m [
                  | inl here ↦ inl ((rule_of_iff rules rule d).0 (n ∙ ap some here))
                  | inr later ↦ inr (there later)
                ]),
                λ m. elim m [
                  | inl here ↦
                      inl (some-injective written (sym n ∙ (rule_of_iff rules rule d).1 here))
                  | inr later ↦ inr (back later)
                ],
              )
      ]
    where
      none-some : ◌≢◌ {A = Option PolicyRule} none (some rule)
      none-some e = cc

      some-injective :
          (a : PolicyRule) → ◌≡◌ {A = Option PolicyRule} (some a) (some rule) → a ≡ rule
      some-injective a e = cc

  foreign_rules_iff :
      (rules : List PolicyRule) (rule : PolicyRule)
      → Any (λ o. o ≡ rule) (foreign_rules decisions rules)
        ↔ (Any (λ o. o ≡ rule) rules × (¬ Owned decisions rule))
  unfolding foreign_rules
  foreign_rules_iff rules rule =
      let (there, back) = filter-Any_iff (λ o. not (is_configure_owned decisions o)) rule rules in
      (
        (λ m.
            let (n, h) = there m in
            (n, (is_configure_owned-false decisions rule).0 (ground arith))),
        λ (m, foreign).
            let h = (is_configure_owned-false decisions rule).1 foreign in back (m, rw h refl),
      )

  -- A written policy keeps the default, and its rules are these and no others: the rules of the
  -- existing policy that the survey does not own, and for each exposed operation with a
  -- requirement the rule of that requirement, unless a rule that is kept matches this operation
  -- alone by its id. The survey owns a rule that matches one of its operations by its id and by
  -- nothing else, carries no details, and requires none or a single one by its type and actions.
  -- Without an existing policy there is nothing to keep, and the default allows.
  pub render_policy-rules :
      (existing : Option PolicyConfig) (rule : PolicyRule)
      → ((render_policy decisions existing).defaults ≡ existing_defaults decisions existing)
        × (Any (λ o. o ≡ rule) (render_policy decisions existing).rules ↔ (
            (Any (λ o. o ≡ rule) (existing_rules decisions existing) × (¬ Owned decisions rule))
            ⊎ Any (IsFor (existing_rules decisions existing) rule) decisions))
  unfolding render_policy
  render_policy-rules existing rule =
      let rules = existing_rules decisions existing in
      let kept = foreign_rules decisions rules in
      let written = owned_rules decisions (foreign_ids decisions rules) decisions in
      let (keeps, kept_by) = foreign_rules_iff rules rule in
      let (writes, written_by) = owned_rules_iff rules rule decisions in
      (
        refl,
        (
          (λ m. elim (append-Any (λ o. o ≡ rule) kept written m) [
            | inl k ↦ inl (keeps k)
            | inr w ↦ inr (writes w)
          ]),
          λ m. elim m [
            | inl k ↦ Any-append-left (λ o. o ≡ rule) kept written (kept_by k)
            | inr w ↦ Any-append-right (λ o. o ≡ rule) kept written (written_by w)
          ],
        ),
      )
