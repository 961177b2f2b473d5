-- ===== src/Configure.antt =====
-- configure/decisions.py and configure/survey.py: what an operator decides of each operation.
pub mod Survey
use mcp_portal.Base.{
  Bool, Dict, List, Option, Text, [], false, if◌then◌else◌, is_empty, length, lookup, map, nat_eq,
  none, not, option_eq, some, sorted_by, suc, text, text_eq, true, ℕ, ◌++◌, ◌+◌, ◌==◌, ◌∷◌,
}
use mcp_portal.Operations.{
  Effect, Operation, Sensitivity, effect_eq, location_eq, normal, read_only, sensitive,
  sensitivity_eq,
}

pub record RequiredDetail : Type 0 where
  pub type : Text
  pub actions : List Text

pub record OperationDecision : Type 0 where
  pub operation : Operation
  pub exposed : Bool
  pub effect : Effect
  pub sensitivity : Sensitivity
  pub require : Option RequiredDetail

-- What the operator is asked, by what the prompt names.
pub data Question : Type 0 where
  expose_all : ℕ → Text → Question
  expose_one : Text → Effect → Question
  mark_sensitive : Text → Question
  require_detail : Text → Question
  detail_type : Question

-- The operator: the answer to the question of that number, with its default.
pub record Prompter : Type 0 where
  pub confirm : ℕ → Question → Bool → Bool
  pub reply : ℕ → Question → Text → Text

abbrev pub is_read_only : Effect → Bool
is_read_only read_only = true
is_read_only _ = false

abbrev pub is_sensitive : Sensitivity → Bool
is_sensitive sensitive = true
is_sensitive _ = false

abbrev pub is_some {ℓ} : {A : Type ℓ} → Option A → Bool
is_some none = false
is_some (some a) = true

unfoldable pub tag_for : Operation → Text
tag_for op = elim op.group_tags [ [] ↦ text "(ungrouped)" | tag ∷ _ ↦ tag ]

-- `itertools.groupby` by the tag
unfoldable pub add_to_groups :
    Operation → List (Text × List Operation) → List (Text × List Operation)
add_to_groups op [] = (tag_for op, op ∷ []) ∷ []
add_to_groups op ((tag, group) ∷ rest) =
    if tag_for op == tag
    then (tag, op ∷ group) ∷ rest
    else (tag_for op, op ∷ []) ∷ (tag, group) ∷ rest

unfoldable pub group_by_tag : List Operation → List (Text × List Operation)
group_by_tag [] = []
group_by_tag (op ∷ ops) = add_to_groups op (group_by_tag ops)

module _ (prompter : Prompter) (defaults : Dict Text OperationDecision) where
  unfoldable pub default_for : Operation → OperationDecision
  default_for op = elim (lookup op.id defaults) [
    | some d ↦ d
    | none ↦ record {
      operation = op;
      exposed = true;
      effect = op.effect;
      sensitivity = op.sensitivity;
      require = none;
    }
  ]

  abbrev pub default_type : Option RequiredDetail → Text
  default_type none = []
  default_type (some r) = r.type

  -- `RequiredDetail(type=detail_type) if detail_type else None`
  abbrev pub required_type : Text → Option RequiredDetail
  required_type given =
      if is_empty given then none else some (record { type = given; actions = [] })

  -- The requirement, and the number of the next question.
  unfoldable pub ask_require : Operation → Option RequiredDetail → ℕ → Option RequiredDetail × ℕ
  ask_require op default n =
      if is_read_only op.effect
      then (none, n)
      else if prompter.confirm n (require_detail op.id) (is_some default)
      then (required_type (prompter.reply (suc n) detail_type (default_type default)), n + 2)
      else (none, suc n)

  unfoldable pub survey_one : Operation → ℕ → OperationDecision × ℕ
  survey_one op n =
      let default = default_for op in
      if not (prompter.confirm n (expose_one op.id op.effect) default.exposed)
      then (
        record {
          operation = op;
          exposed = false;
          effect = op.effect;
          sensitivity = default.sensitivity;
          require = none;
        },
        suc n,
      )
      else let marked =
          prompter.confirm (suc n) (mark_sensitive op.id) (is_sensitive default.sensitivity) in
        let (required, m) = ask_require op default.require (n + 2) in
        (
          record {
            operation = op;
            exposed = true;
            effect = op.effect;
            sensitivity = if marked then sensitive else normal;
            require = required;
          },
          m,
        )

  unfoldable pub accept : Operation → OperationDecision
  accept op = record {
    operation = op;
    exposed = true;
    effect = op.effect;
    sensitivity = (default_for op).sensitivity;
    require = if is_read_only op.effect then none else (default_for op).require;
  }

  unfoldable pub survey_each : List Operation → ℕ → List OperationDecision × ℕ
  survey_each [] n = ([], n)
  survey_each (op ∷ ops) n =
      let (decision, m) = survey_one op n in
      let (decisions, k) = survey_each ops m in (decision ∷ decisions, k)

  unfoldable pub survey_group : Text × List Operation → ℕ → List OperationDecision × ℕ
  survey_group (tag, group) n =
      if prompter.confirm n (expose_all (length group) tag) true
      then (map accept group, suc n)
      else survey_each group (suc n)

  unfoldable pub survey_groups : List (Text × List Operation) → ℕ → List OperationDecision × ℕ
  survey_groups [] n = ([], n)
  survey_groups (group ∷ groups) n =
      let (decisions, m) = survey_group group n in
      let (rest, k) = survey_groups groups m in (decisions ++ rest, k)

  -- The warnings of a survey stay empty.
  unfoldable pub run_survey : List Operation → List OperationDecision
  run_survey operations = (survey_groups (group_by_tag (sorted_by tag_for operations)) 0).0
