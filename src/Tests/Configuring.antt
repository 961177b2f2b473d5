-- ===== src/Tests/Configuring.antt =====
-- The theorems on the survey and the reconciliation, at a shop's operations.
use mcp_portal.Base.{
  All, Any, Bool, Bool-cases, Dict, List, Option, Text, [], contains, dedup, false, inl, inr,
  lookup, nat_eq, none, ok, option_eq, refl, some, sorted_by, subst, text, text_eq, ◌==◌, ◌↔◌, ◌∷◌,
  ◌≡◌, ◌≢◌, ◌⊎◌,
}
use mcp_portal.Operations.{
  HttpBinding, Operation, effect_eq, idempotent_write, location_eq, sensitivity_eq,
}
use mcp_portal.PolicyConfig.{PolicyRule}
use mcp_portal.Config.{HttpBindingEntry, OperationEntry, http_entry}
use mcp_portal.Configure.{OperationDecision, Prompter, RequiredDetail, run_survey, tag_for}
use mcp_portal.Configure.Survey.{IsConsistent, decided, run_survey-decided}
use mcp_portal.Reconcile.{
  ReconcileReport, by_id, compare_operation, decision_of, decisions_from_config, diff_operation_ids,
  keys_within, keys_without, reconciled, record_entries, record_entry, recorded_effect,
  recorded_operation, run_reconcile, same_binding, split_changed,
}
use mcp_portal.Reconcile.Partition.{Comparable, IsHttp, Placed, diff_operation_ids-parts, ids_of}
use mcp_portal.Reconcile.Complete.{decided_ids, run_reconcile-decided}
use mcp_portal.Writer.{existing_defaults, existing_rules, owned_rule, render_policy}
use mcp_portal.Writer.Owned.{Owned}
use mcp_portal.Writer.Rules.{IsFor, render_policy-rules}
use mcp_portal.Tests.{ascii, closed_policy, config, order_delete, order_read}

-- An operator who says no to everything and names a detail when asked.
abbrev refuses : Prompter
refuses = record { confirm = λ n q default. false; reply = λ n q default. text "orders" }

run_survey-decided_example :
    (decided (run_survey refuses [] (order_delete ∷ order_read ∷ []))
      ≡ sorted_by tag_for (order_delete ∷ order_read ∷ []))
    × All IsConsistent (run_survey refuses [] (order_delete ∷ order_read ∷ []))
run_survey-decided_example = run_survey-decided refuses [] (order_delete ∷ order_read ∷ [])

abbrev deletion : HttpBindingEntry
deletion = record { method = text "delete"; path = text "/orders"; parameters = []; body = none }

abbrev deletion_entry : OperationEntry
deletion_entry = record {
  id = text "Order.Delete";
  upstream = text "shop";
  description = text "Delete";
  title = none;
  name = none;
  group_tags = [];
  effect = some idempotent_write;
  sensitivity = none;
  binding = http_entry deletion;
}

abbrev recorded : OperationDecision
recorded =
    decision_of ascii none (recorded_operation ascii none deletion_entry deletion idempotent_write)

abbrev previous : Dict Text OperationDecision
previous = (text "Order.Delete", recorded) ∷ []

previous_recorded :
    decisions_from_config ascii none (record config { operations = deletion_entry ∷ [] })
    ≡ ok previous
unfolding decisions_from_config record_entries record_entry recorded_effect
previous_recorded = refl

-- The deletion has changed, and the reading is new.
abbrev report : ReconcileReport
report = record {
  new = text "Order.Get" ∷ [];
  removed = [];
  changed = text "Order.Delete" ∷ [];
  unchanged = [];
}

abbrev differ : HttpBinding → HttpBinding → Bool
differ a b = false

report_made : diff_operation_ids differ previous (order_delete ∷ order_read ∷ []) ≡ some report
unfolding diff_operation_ids split_changed keys_within sorted_by dedup by_id text_eq
    compare_operation same_binding decision_of recorded_operation keys_without
report_made = refl

lookup-All :
    {V : Type 0} (P : V → Type 0) (k : Text) (d : Dict Text V) (v : V)
    → All (λ (p : Text × V). P p.1) d
    → lookup k d ≡ some v
    → P v
lookup-All P k [] v a h = absurd (none-some v h)
  where
    none-some : {A : Type 0} (x : A) → ◌≢◌ {A = Option A} none (some x)
    none-some x e = cc
lookup-All P k ((j, w) ∷ d) v (p, a) h = elim (Bool-cases (k == j)) [
  | inl e ↦ subst P (some-injective (rw e at h)) p
  | inr e ↦ lookup-All P k d v a (rw e at h)
]
  where
    some-injective : ◌≡◌ (some w) (some v) → w ≡ v
    some-injective e = cc

all_http : Comparable previous (by_id (order_delete ∷ order_read ∷ []) [])
unfolding by_id text_eq decision_of recorded_operation
all_http k d op e f = (
  lookup-All (λ (x : OperationDecision). IsHttp x.operation.binding) k previous d ((_, refl), tt) e,
  lookup-All (λ (x : Operation). IsHttp x.binding) k (by_id (order_delete ∷ order_read ∷ []) []) op
      ((_, refl), ((_, refl), tt)) f,
)

diff_operation_ids-parts_example :
    (r : ReconcileReport) × (diff_operation_ids differ previous (order_delete ∷ order_read ∷ [])
      ≡ some r)
    × ((k : Text) → Placed differ previous (order_delete ∷ order_read ∷ []) r k)
diff_operation_ids-parts_example =
    diff_operation_ids-parts differ previous (order_delete ∷ order_read ∷ []) all_http

abbrev redecided : List OperationDecision
redecided = reconciled refuses previous (by_id (order_delete ∷ order_read ∷ []) []) report

reconciled_now :
    run_reconcile differ (order_delete ∷ order_read ∷ []) previous refuses
    ≡ some (redecided, report)
unfolding run_reconcile diff_operation_ids split_changed keys_within sorted_by dedup by_id text_eq
    compare_operation same_binding decision_of recorded_operation keys_without
reconciled_now = refl

run_reconcile-decided_example :
    contains (decided_ids redecided) (text "Order.Get")
    ≡ contains (ids_of (order_delete ∷ order_read ∷ [])) (text "Order.Get")
run_reconcile-decided_example =
    run_reconcile-decided ascii none (record config { operations = deletion_entry ∷ [] }) differ
      (order_delete ∷ order_read ∷ []) previous refuses redecided report (text "Order.Get")
      previous_recorded reconciled_now

abbrev orders_detail : RequiredDetail
orders_detail = record { type = text "orders"; actions = text "delete" ∷ [] }

abbrev guarded : OperationDecision
guarded = record recorded { require = some orders_detail }

abbrev guarding : PolicyRule
guarding = owned_rule (guarded ∷ []) (text "Order.Delete") orders_detail

render_policy-rules_example :
    ((render_policy (guarded ∷ []) (some closed_policy)).defaults
      ≡ existing_defaults (guarded ∷ []) (some closed_policy))
    × (Any (λ o. o ≡ guarding) (render_policy (guarded ∷ []) (some closed_policy)).rules ↔ (
        (Any (λ o. o ≡ guarding) (existing_rules (guarded ∷ []) (some closed_policy))
          × (¬ Owned (guarded ∷ []) guarding))
        ⊎ Any (IsFor (guarded ∷ []) closed_policy.rules guarding) (guarded ∷ [])))
render_policy-rules_example = render_policy-rules (guarded ∷ []) (some closed_policy) guarding
