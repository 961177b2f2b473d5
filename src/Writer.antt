-- ===== src/Writer.antt =====
-- configure/write.py: the policy that a survey writes. A rule that is dumped to JSON stands as itself.
pub mod Owned
pub mod Rules
use mcp_portal.Base.{
  Bool, List, Option, Text, [], contains, false, filter, if◌then◌else◌, is_empty, map, nat_eq, none,
  not, option_eq, some, text_eq, true, ◌&&◌, ◌++◌, ◌∷◌,
}
use mcp_portal.Operations.{effect_eq, location_eq, sensitivity_eq}
use mcp_portal.PolicyConfig.{
  AuthorizationDetailRequirement, PolicyConfig, PolicyDefaults, PolicyRule, allow,
}
use mcp_portal.Configure.{OperationDecision, RequiredDetail, is_some}

abbrev pub blank {ℓ} : {A : Type ℓ} → Option (List A) → Bool
blank none = true
blank (some xs) = is_empty xs

unfoldable pub only_type_and_actions : AuthorizationDetailRequirement → Bool
only_type_and_actions d =
    blank d.locations && (blank d.datatypes && (blank d.identifier && blank d.privileges))

unfoldable pub one_plain_detail : List AuthorizationDetailRequirement → Bool
one_plain_detail (d ∷ []) = only_type_and_actions d
one_plain_detail _ = false

unfoldable pub within_required_detail_shape : PolicyRule → Bool
within_required_detail_shape rule =
    if rule.outbound.carry
    then false
    else elim rule.require [ none ↦ true | some r ↦ one_plain_detail r.authorization_details ]

unfoldable pub single_id : List Text → Option Text
single_id (id ∷ []) = some id
single_id _ = none

module _ (decisions : List OperationDecision) where
  -- The id of a rule that matches one managed operation by its id and by nothing else.
  unfoldable pub configure_id : PolicyRule → Option Text
  configure_id rule = elim (single_id rule.match.ids) [
    | none ↦ none
    | some id ↦
        if contains (map (λ (d : OperationDecision). d.operation.id) decisions) id
          && (is_empty rule.match.tags
              && (is_empty rule.match.upstream
                  && (is_empty rule.match.effect && is_empty rule.match.sensitivity)))
        then some id
        else none
  ]

  unfoldable pub is_configure_owned : PolicyRule → Bool
  is_configure_owned rule = is_some (configure_id rule) && within_required_detail_shape rule

  unfoldable pub foreign_rules : List PolicyRule → List PolicyRule
  foreign_rules rules = filter (λ rule. not (is_configure_owned rule)) rules

  -- The ids of the foreign rules that look like a managed one's.
  unfoldable pub foreign_ids : List PolicyRule → List Text
  foreign_ids [] = []
  foreign_ids (rule ∷ rules) =
      let rest = foreign_ids rules in
      if is_configure_owned rule
      then rest
      else elim (configure_id rule) [ none ↦ rest | some id ↦ id ∷ rest ]

  unfoldable pub owned_rule : Text → RequiredDetail → PolicyRule
  owned_rule id require = record {
    match = record { ids = id ∷ []; tags = []; upstream = []; effect = []; sensitivity = [] };
    require = some (record {
      authorization_details =
          record {
            type = require.type;
            actions = if is_empty require.actions then none else some require.actions;
            locations = none;
            datatypes = none;
            identifier = none;
            privileges = none;
          }
          ∷ [];
    });
    outbound = record { carry = false };
  }

  unfoldable pub rule_of : List Text → OperationDecision → Option PolicyRule
  rule_of taken d = if not d.exposed then none else elim d.require [
    | none ↦ none
    | some r ↦ if contains taken d.operation.id then none else some (owned_rule d.operation.id r)
  ]

  unfoldable pub owned_rules : List Text → List OperationDecision → List PolicyRule
  owned_rules taken [] = []
  owned_rules taken (d ∷ ds) =
      let rest = owned_rules taken ds in
      elim (rule_of taken d) [ none ↦ rest | some rule ↦ rule ∷ rest ]

  abbrev pub existing_rules : Option PolicyConfig → List PolicyRule
  existing_rules none = []
  existing_rules (some p) = p.rules

  abbrev pub existing_defaults : Option PolicyConfig → PolicyDefaults
  existing_defaults none = record { unmatched = allow }
  existing_defaults (some p) = p.defaults

  unfoldable pub render_policy : Option PolicyConfig → PolicyConfig
  render_policy existing = record {
    defaults = existing_defaults existing;
    rules =
        foreign_rules (existing_rules existing)
        ++ owned_rules (foreign_ids (existing_rules existing)) decisions;
  }
