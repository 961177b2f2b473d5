-- ===== src/Reconcile/Complete.antt =====
-- What a reconciliation decides.
use mcp_portal.Base.{
  ==→≡, >>=-eq-ok, All, Bool, Dict, List, Option, Option-cases, Text, [], ap, arith, contains,
  contains-sorted_by, false, inl, inr, insert, keys, lookup, map, nat_eq, none, ok, ok-injective,
  option_eq, refl, some, subst, sym, text_eq, true, ◌&&◌, ◌++◌, ◌||◌, ◌∙◌, ◌∷◌, ◌≡◌, ◌≢◌,
}
use mcp_portal.Operations.{HttpBinding, Operation, effect_eq, location_eq, sensitivity_eq}
use mcp_portal.Platform.{Platform}
use mcp_portal.PolicyConfig.{PolicyConfig}
use mcp_portal.Config.{BindingEntry, McpPortalConfig, OperationEntry, graphql_entry, http_entry}
use mcp_portal.Configure.{OperationDecision, Prompter, is_some, run_survey, tag_for}
use mcp_portal.Reconcile.{
  ReconcileReport, by_id, decision_of, decisions_from_config, diff_operation_ids, pick, reconciled,
  record_entries, record_entry, recorded_effect, recorded_operation, restrict, run_reconcile,
}
use mcp_portal.Configure.Survey.{decided, run_survey-decided}
use mcp_portal.Reconcile.Partition.{contains-keys-by_id, diff_operation_ids-Placed, ids_of}

module _ {A : Type 0} (f : A → Text) where
  -- Every value carries its key.
  abbrev pub Keyed : Dict Text A → Type 0
  Keyed d = All (λ (e : Text × A). f e.1 ≡ e.0) d

  lookup-Keyed : (d : Dict Text A) (k : Text) (a : A) → Keyed d → lookup k d ≡ some a → f a ≡ k
  lookup-Keyed [] k a h e = cc
  lookup-Keyed ((j, b) ∷ d) k a (hb, h) e = ground (arith, lookup-Keyed d k a h, ==→≡ k j)

  insert-Keyed : (k : Text) (a : A) (d : Dict Text A) → f a ≡ k → Keyed d → Keyed (insert k a d)
  insert-Keyed k a [] e h = (e, tt)
  insert-Keyed k a ((j, b) ∷ d) e (hb, h) = ground (arith, insert-Keyed k a d e h, ==→≡ k j)

  is_some-lookup : (d : Dict Text A) (k : Text) → is_some (lookup k d) ≡ contains (keys d) k
  is_some-lookup [] k = refl
  is_some-lookup ((j, b) ∷ d) k = ground (arith, is_some-lookup d k)

  pick-ids :
      (d : Dict Text A) (ids : List Text) (k : Text)
      → Keyed d
      → contains (map f (pick d ids)) k ≡ (contains ids k && contains (keys d) k)
  unfolding pick
  pick-ids d [] k h = refl
  pick-ids d (id ∷ ids) k h = elim (Option-cases (lookup id d)) [
    | inl e ↦
        let missing : contains (keys d) id ≡ false = sym (is_some-lookup d id) ∙ rw e refl in
        rw (pick, e) (ground (arith, pick-ids d ids k h, ==→≡ k id))
    | inr (a, e) ↦
        let there : contains (keys d) id ≡ true = sym (is_some-lookup d id) ∙ rw e refl in
        let same = lookup-Keyed d id a h e in
        rw (pick, e) (ground (arith, pick-ids d ids k h, ==→≡ k id))
  ]

contains-append_texts :
    (xs ys : List Text) (k : Text) → contains (xs ++ ys) k ≡ (contains xs k || contains ys k)
contains-append_texts [] ys k = refl
contains-append_texts (x ∷ xs) ys k = ground (arith, contains-append_texts xs ys k)

by_id-Keyed :
    (ops : List Operation) (d : Dict Text Operation)
    → Keyed (λ (op : Operation). op.id) d
    → Keyed (λ (op : Operation). op.id) (by_id ops d)
unfolding by_id
by_id-Keyed [] d h = h
by_id-Keyed (op ∷ ops) d h =
    by_id-Keyed ops (insert op.id op d) (insert-Keyed (λ (o : Operation). o.id) op.id op d refl h)

-- The ids of the decisions.
abbrev pub decided_ids : List OperationDecision → List Text
decided_ids = map (λ (d : OperationDecision). d.operation.id)

decided_ids-append :
    (ds es : List OperationDecision) → decided_ids (ds ++ es) ≡ decided_ids ds ++ decided_ids es
decided_ids-append [] es = refl
decided_ids-append (d ∷ ds) es = ap (λ r. d.operation.id ∷ r) (decided_ids-append ds es)

ids_of-decided : (ds : List OperationDecision) → ids_of (decided ds) ≡ decided_ids ds
ids_of-decided [] = refl
ids_of-decided (d ∷ ds) = ap (λ r. d.operation.id ∷ r) (ids_of-decided ds)

surveyed-ids :
    (prompter : Prompter) (defaults : Dict Text OperationDecision) (ops : List Operation) (k : Text)
    → contains (decided_ids (run_survey prompter defaults ops)) k ≡ contains (ids_of ops) k
surveyed-ids prompter defaults ops k =
    ap (λ ids. contains ids k) (sym (ids_of-decided (run_survey prompter defaults ops)))
    ∙ ap (λ os. contains (ids_of os) k) (run_survey-decided prompter defaults ops).0
    ∙ contains-sorted_by tag_for (λ (op : Operation). op.id) k ops

-- A reconciliation decides exactly the operations of the new run, if each decision of the earlier
-- run stands under the id of its operation.
reconciled-Keyed :
    (same : HttpBinding → HttpBinding → Bool) (ops : List Operation)
    (previous : Dict Text OperationDecision) (prompter : Prompter)
    (decisions : List OperationDecision) (r : ReconcileReport) (k : Text)
    → Keyed (λ (d : OperationDecision). d.operation.id) previous
    → run_reconcile same ops previous prompter ≡ some (decisions, r)
    → contains (decided_ids decisions) k ≡ contains (ids_of ops) k
unfolding run_reconcile reconciled
reconciled-Keyed same ops previous prompter decisions r k keyed h =
    elim (Option-cases (diff_operation_ids same previous ops)) [
      | inl e ↦ absurd (no_result (rw (run_reconcile, e) at h))
      | inr (q, e) ↦
          let current = by_id ops [] in
          let result = decisions_of (rw (run_reconcile, e) at h) in
          let (n, _, _, _, both) = diff_operation_ids-Placed same previous ops q k e in
          let kept =
            pick-ids (λ (d : OperationDecision). d.operation.id) previous q.unchanged k keyed in
          let asked =
            surveyed-ids prompter (restrict previous q.changed) (pick current (q.new ++ q.changed))
              k
            ∙ pick-ids (λ (op : Operation). op.id) current (q.new ++ q.changed) k
                (by_id-Keyed ops [] tt) in
          let now = contains-keys-by_id ops [] k in
          ap (λ ds. contains (decided_ids ds) k) (sym result)
          ∙ ap (λ ids. contains ids k) (decided_ids-append (pick previous q.unchanged) _)
          ∙ contains-append_texts (decided_ids (pick previous q.unchanged)) _ k
          ∙ ground (arith, n, both, kept, asked, now, contains-append_texts q.new q.changed k)
    ]
  where
    no_result :
        ◌≢◌ {A = Option (List OperationDecision × ReconcileReport)} none (some (decisions, r))
    no_result x = cc

    decisions_of :
        {ds : List OperationDecision} {q : ReconcileReport}
        → ◌≡◌ {A = Option (List OperationDecision × ReconcileReport)}
            (some (ds, q))
            (some (decisions, r))
        → ds ≡ decisions
    decisions_of x = cc

module _ (py : Platform) (policy : Option PolicyConfig) where
  record_entry-Keyed :
      (entry : OperationEntry) (before after : Dict Text OperationDecision)
      → Keyed (λ (d : OperationDecision). d.operation.id) before
      → record_entry py policy entry before ≡ ok after
      → Keyed (λ (d : OperationDecision). d.operation.id) after
  unfolding record_entry decision_of recorded_operation
  record_entry-Keyed entry before after keyed h = with_binding entry.binding refl
    where
      with_binding :
          (b : BindingEntry)
          → entry.binding ≡ b
          → Keyed (λ (d : OperationDecision). d.operation.id) after
      with_binding (graphql_entry b) e =
          subst (Keyed (λ (d : OperationDecision). d.operation.id))
            (ok-injective (rw (record_entry, e) at h)) keyed
      with_binding (http_entry b) e =
          let (effect, _, h₁) =
            >>=-eq-ok (recorded_effect py policy entry b) _ (rw (record_entry, e) at h) in
          subst (Keyed (λ (d : OperationDecision). d.operation.id)) (ok-injective h₁)
            (insert-Keyed (λ (d : OperationDecision). d.operation.id) entry.id _ before refl keyed)

  record_entries-Keyed :
      (entries : List OperationEntry) (before after : Dict Text OperationDecision)
      → Keyed (λ (d : OperationDecision). d.operation.id) before
      → record_entries py policy entries before ≡ ok after
      → Keyed (λ (d : OperationDecision). d.operation.id) after
  unfolding record_entries
  record_entries-Keyed [] before after keyed h =
      subst (Keyed (λ (d : OperationDecision). d.operation.id)) (ok-injective h) keyed
  record_entries-Keyed (entry ∷ entries) before after keyed h =
      let (middle, h₁, h₂) = >>=-eq-ok (record_entry py policy entry before) _ h in
      record_entries-Keyed entries middle after (record_entry-Keyed entry before middle keyed h₁) h₂

-- A reconciliation with the decisions that a config records decides exactly the operations of the
-- new run, whatever the operator answers: none is dropped, and none that is gone is kept.
pub run_reconcile-decided :
    (py : Platform) (policy : Option PolicyConfig) (config : McpPortalConfig)
    (same : HttpBinding → HttpBinding → Bool) (ops : List Operation)
    (previous : Dict Text OperationDecision) (prompter : Prompter)
    (decisions : List OperationDecision) (r : ReconcileReport) (k : Text)
    → decisions_from_config py policy config ≡ ok previous
    → run_reconcile same ops previous prompter ≡ some (decisions, r)
    → contains (decided_ids decisions) k ≡ contains (ids_of ops) k
unfolding decisions_from_config
run_reconcile-decided py policy config same ops previous prompter decisions r k recorded h =
    reconciled-Keyed same ops previous prompter decisions r k
      (record_entries-Keyed py policy config.operations [] previous tt recorded) h
