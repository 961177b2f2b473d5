-- ===== src/Reconcile.antt =====
-- configure/reconcile.py: a fresh introspection against the decisions of an earlier run.
pub mod Partition
pub mod Complete
use mcp_portal.Base.{
  Bool, Dict, List, Option, Result, Text, [], contains, dedup, filter, if◌then◌else◌, insert, keys,
  lookup, nat_eq, none, not, ok, option_eq, some, sorted_by, text_eq, true, ◌++◌, ◌>>=◌, ◌>>◌, ◌∷◌,
}
use mcp_portal.Operations.{
  Binding, Effect, HttpBinding, Operation, effect_eq, location_eq, normal, sensitivity_eq,
}
use mcp_portal.Platform.{Platform}
use mcp_portal.Classify.{ClassifyError, effect_for_method}
use mcp_portal.Rar.{AuthorizationDetail}
use mcp_portal.PolicyConfig.{PolicyConfig}
use mcp_portal.Policy.{accumulated_details, matching_rules}
use mcp_portal.Config.{HttpBindingEntry, McpPortalConfig, OperationEntry, graphql_entry, http_entry}
use mcp_portal.Explicit.{http_binding, text_or, value_or}
use mcp_portal.Configure.{OperationDecision, Prompter, RequiredDetail, run_survey}

module _ (py : Platform) (policy : Option PolicyConfig) where
  unfoldable pub first_detail : List AuthorizationDetail → Option RequiredDetail
  first_detail [] = none
  first_detail (d ∷ _) = some (record { type = d.type; actions = d.actions })

  unfoldable pub require_for : Operation → Option RequiredDetail
  require_for op = elim policy [
    | none ↦ none
    | some p ↦ first_detail (accumulated_details (matching_rules op p.rules))
  ]

  unfoldable pub recorded_operation : OperationEntry → HttpBindingEntry → Effect → Operation
  recorded_operation entry binding effect = record {
    id = entry.id;
    upstream = entry.upstream;
    name = value_or entry.name [];
    title = text_or entry.title entry.description;
    description = entry.description;
    group_tags = entry.group_tags;
    effect = effect;
    sensitivity = value_or entry.sensitivity normal;
    input_schema = [];
    binding = Binding.http (http_binding py binding);
    meta = [];
  }

  -- `entry.effect or _fallback_effect(binding.method)`
  unfoldable pub recorded_effect : OperationEntry → HttpBindingEntry → Result ClassifyError Effect
  recorded_effect entry binding = elim entry.effect [
    | some e ↦ ok e
    | none ↦ effect_for_method py binding.method
  ]

  unfoldable pub decision_of : Operation → OperationDecision
  decision_of op = record {
    operation = op;
    exposed = true;
    effect = op.effect;
    sensitivity = op.sensitivity;
    require = require_for op;
  }

  unfoldable pub record_entry :
      OperationEntry
      → Dict Text OperationDecision
      → Result ClassifyError (Dict Text OperationDecision)
  record_entry entry decisions = elim entry.binding [
    | graphql_entry b ↦ ok decisions
    | http_entry b ↦ do
      effect ← recorded_effect entry b
      ok (insert entry.id (decision_of (recorded_operation entry b effect)) decisions)
  ]

  unfoldable pub record_entries :
      List OperationEntry
      → Dict Text OperationDecision
      → Result ClassifyError (Dict Text OperationDecision)
  record_entries [] decisions = ok decisions
  record_entries (entry ∷ entries) decisions =
      record_entry entry decisions >>= record_entries entries

  unfoldable pub decisions_from_config :
      McpPortalConfig → Result ClassifyError (Dict Text OperationDecision)
  decisions_from_config config = record_entries config.operations []

pub record ReconcileReport : Type 0 where
  pub new : List Text
  pub removed : List Text
  pub changed : List Text
  pub unchanged : List Text

-- `{op.id: op for op in operations}`
unfoldable pub by_id : List Operation → Dict Text Operation → Dict Text Operation
by_id [] d = d
by_id (op ∷ ops) d = by_id ops (insert op.id op d)

abbrev pub sorted_texts : List Text → List Text
sorted_texts = sorted_by (λ s. s)

-- `sorted(set(a) - set(b))` and `sorted(set(a) & set(b))`
unfoldable pub keys_without {ℓ κ} :
    {A : Type ℓ} {B : Type κ} → Dict Text A → Dict Text B → List Text
keys_without a b = sorted_texts (filter (λ k. not (contains (keys b) k)) (dedup (keys a)))

unfoldable pub keys_within {ℓ κ} : {A : Type ℓ} {B : Type κ} → Dict Text A → Dict Text B → List Text
keys_within a b = sorted_texts (filter (λ k. contains (keys b) k) (dedup (keys a)))

-- `[d[k] for k in ids]` and `{k: d[k] for k in ids}`, with ids that are keys of the dict
unfoldable pub pick {ℓ} : {A : Type ℓ} → Dict Text A → List Text → List A
pick d [] = []
pick d (id ∷ ids) = elim (lookup id d) [ none ↦ pick d ids | some a ↦ a ∷ pick d ids ]

unfoldable pub restrict {ℓ} : {A : Type ℓ} → Dict Text A → List Text → Dict Text A
restrict d [] = []
restrict d (id ∷ ids) =
    let rest = restrict d ids in elim (lookup id d) [ none ↦ rest | some a ↦ (id, a) ∷ rest ]

unfoldable pub reconciled :
    Prompter
    → Dict Text OperationDecision
    → Dict Text Operation
    → ReconcileReport
    → List OperationDecision
reconciled prompter previous current report =
    pick previous report.unchanged
    ++ run_survey prompter (restrict previous report.changed)
        (pick current (report.new ++ report.changed))

-- `same` is `==` of the two tuples of `_binding_key`, on which Python compares schemas as dicts.
module _ (same : HttpBinding → HttpBinding → Bool) where
  -- The assertion fails on a GraphQL binding: `none`.
  unfoldable pub same_binding : Binding → Binding → Option Bool
  same_binding (Binding.http a) (Binding.http b) = some (same a b)
  same_binding _ _ = none

  unfoldable pub compare_operation :
      Text → Dict Text OperationDecision → Dict Text Operation → Option Bool
  compare_operation id previous current = elim (lookup id previous) [
    | none ↦ none
    | some d ↦ elim (lookup id current) [
      | none ↦ none
      | some op ↦ same_binding d.operation.binding op.binding
    ]
  ]

  -- The ids that changed, and those that did not.
  unfoldable pub split_changed :
      List Text → Dict Text OperationDecision → Dict Text Operation → Option (List Text × List Text)
  split_changed [] previous current = some ([], [])
  split_changed (id ∷ ids) previous current =
      let rest = split_changed ids previous current in
      elim (compare_operation id previous current) [
        | none ↦ none
        | some is_same ↦ elim rest [
          | none ↦ none
          | some (changed, unchanged) ↦
              some (if is_same then (changed, id ∷ unchanged) else (id ∷ changed, unchanged))
        ]
      ]

  unfoldable pub diff_operation_ids :
      Dict Text OperationDecision → List Operation → Option ReconcileReport
  diff_operation_ids previous operations =
      let current = by_id operations [] in
      elim (split_changed (keys_within previous current) previous current) [
        | none ↦ none
        | some (changed, unchanged) ↦ some (record {
          new = keys_without current previous;
          removed = keys_without previous current;
          changed = changed;
          unchanged = unchanged;
        })
      ]

  unfoldable pub run_reconcile :
      List Operation
      → Dict Text OperationDecision
      → Prompter
      → Option (List OperationDecision × ReconcileReport)
  run_reconcile operations previous prompter = elim (diff_operation_ids previous operations) [
    | none ↦ none
    | some report ↦ some (reconciled prompter previous (by_id operations []) report, report)
  ]
