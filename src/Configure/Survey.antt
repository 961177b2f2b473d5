-- ===== src/Configure/Survey.antt =====
-- What a survey decides, whatever the operator answers.
use mcp_portal.Base.{
  All, All-append, Bool-cases, Dict, List, Option, Text, [], ap, arith, false, flat_map, inl, inr,
  length, map, nat_eq, none, option_eq, refl, sorted_by, suc, text_eq, true, ℕ, ◌++◌, ◌+◌, ◌∙◌, ◌∷◌,
  ◌≡◌,
}
use mcp_portal.Operations.{Operation, effect_eq, location_eq, read_only, sensitivity_eq}
use mcp_portal.Configure.{
  OperationDecision, Prompter, RequiredDetail, accept, add_to_groups, ask_require, default_for,
  expose_all, expose_one, group_by_tag, run_survey, survey_each, survey_group, survey_groups,
  survey_one, tag_for,
}

-- The decision keeps the operation's effect, and it asks for nothing of a caller when the operation
-- only reads or is not exposed.
abbrev pub IsConsistent : OperationDecision → Type 0
IsConsistent d =
    (d.effect ≡ d.operation.effect)
    × (d.operation.effect ≡ read_only → d.require ≡ none)
    × (d.exposed ≡ false → d.require ≡ none)

-- The operations of the decisions, in order.
abbrev pub decided : List OperationDecision → List Operation
decided = map (λ (d : OperationDecision). d.operation)

decided-append : (ds es : List OperationDecision) → decided (ds ++ es) ≡ decided ds ++ decided es
decided-append [] es = refl
decided-append (d ∷ ds) es = ap (λ r. d.operation ∷ r) (decided-append ds es)

ungroup-add_to_groups :
    (op : Operation) (groups : List (Text × List Operation))
    → flat_map (λ (tag, group). group) (add_to_groups op groups)
      ≡ op ∷ flat_map (λ (tag, group). group) groups
unfolding add_to_groups
ungroup-add_to_groups op [] = refl
ungroup-add_to_groups op ((tag, group) ∷ rest) = ground arith

ungroup-group_by_tag :
    (ops : List Operation) → flat_map (λ (tag, group). group) (group_by_tag ops) ≡ ops
unfolding group_by_tag
ungroup-group_by_tag [] = refl
ungroup-group_by_tag (op ∷ ops) =
    ungroup-add_to_groups op (group_by_tag ops) ∙ ap (λ r. op ∷ r) (ungroup-group_by_tag ops)

module _ (prompter : Prompter) (defaults : Dict Text OperationDecision) where
  record Decides (ops : List Operation) (decisions : List OperationDecision) : Type 0 where
    operations : decided decisions ≡ ops
    consistent : All IsConsistent decisions

  Decides-append :
      (xs ys : List Operation) (ds es : List OperationDecision)
      → Decides xs ds
      → Decides ys es
      → Decides (xs ++ ys) (ds ++ es)
  Decides-append xs ys ds es a b = record {
    operations = decided-append ds es ∙ rw (a.operations, b.operations) refl;
    consistent = (All-append IsConsistent ds es).1 (a.consistent, b.consistent);
  }

  ask_require-read_only :
      (op : Operation) (default : Option RequiredDetail) (n : ℕ)
      → op.effect ≡ read_only
      → (ask_require prompter defaults op default n).0 ≡ none
  unfolding ask_require
  ask_require-read_only op default n e = ground arith

  survey_one-Decides :
      (op : Operation) (n : ℕ) → Decides (op ∷ []) ((survey_one prompter defaults op n).0 ∷ [])
  unfolding survey_one
  survey_one-Decides op n =
      elim (Bool-cases (
        prompter.confirm n (expose_one op.id op.effect)
          (default_for prompter defaults op).exposed)) [
            | inl e ↦
                rw (survey_one, e)
                  (record {
                    operations = refl;
                    consistent = ((refl, λ r. ask_require-read_only op _ (n + 2) r, λ x. cc), tt);
                  })
            | inr e ↦
                rw (survey_one, e)
                  (record { operations = refl; consistent = ((refl, λ r. refl, λ x. refl), tt) })
          ]

  accept-Decides : (ops : List Operation) → Decides ops (map (accept prompter defaults) ops)
  unfolding accept
  accept-Decides [] = record { operations = refl; consistent = tt }
  accept-Decides (op ∷ ops) =
      let rest = accept-Decides ops in
      record {
        operations = ap (λ r. op ∷ r) rest.operations;
        consistent = ((refl, λ e. ground arith, λ e. cc), rest.consistent);
      }

  survey_each-Decides :
      (ops : List Operation) (n : ℕ) → Decides ops (survey_each prompter defaults ops n).0
  unfolding survey_each
  survey_each-Decides [] n = record { operations = refl; consistent = tt }
  survey_each-Decides (op ∷ ops) n =
      Decides-append (op ∷ []) ops ((survey_one prompter defaults op n).0 ∷ []) _
        (survey_one-Decides op n) (survey_each-Decides ops (survey_one prompter defaults op n).1)

  survey_group-Decides :
      (tag : Text) (group : List Operation) (n : ℕ)
      → Decides group (survey_group prompter defaults (tag, group) n).0
  unfolding survey_group
  survey_group-Decides tag group n =
      elim (Bool-cases (prompter.confirm n (expose_all (length group) tag) true)) [
        | inl e ↦ rw (survey_group, e) (accept-Decides group)
        | inr e ↦ rw (survey_group, e) (survey_each-Decides group (suc n))
      ]

  survey_groups-Decides :
      (groups : List (Text × List Operation)) (n : ℕ)
      → Decides
          (flat_map (λ (tag, group). group) groups)
          (survey_groups prompter defaults groups n).0
  unfolding survey_groups
  survey_groups-Decides [] n = record { operations = refl; consistent = tt }
  survey_groups-Decides ((tag, group) ∷ groups) n =
      Decides-append group (flat_map (λ (t, g). g) groups)
        (survey_group prompter defaults (tag, group) n).0 _ (survey_group-Decides tag group n)
        (survey_groups-Decides groups (survey_group prompter defaults (tag, group) n).1)

-- Whatever the operator answers, a survey decides each operation once, in the order of the tags,
-- keeps its effect, and asks for no authorization detail where the operation only reads or is not
-- exposed.
pub run_survey-decided :
    (prompter : Prompter) (defaults : Dict Text OperationDecision) (ops : List Operation)
    → (decided (run_survey prompter defaults ops) ≡ sorted_by tag_for ops)
      × All IsConsistent (run_survey prompter defaults ops)
unfolding run_survey
run_survey-decided prompter defaults ops =
    let d = survey_groups-Decides prompter defaults (group_by_tag (sorted_by tag_for ops)) 0 in
    (d.operations ∙ ungroup-group_by_tag (sorted_by tag_for ops), d.consistent)
