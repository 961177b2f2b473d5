-- ===== src/Policy.antt =====
-- policy.py: rule matching, the accumulated requirements, and the decision.
pub mod Decision
pub mod Validated
pub mod DeadRules
use mcp_portal.Base.{
  Bool, List, Option, Text, [], any, contains, false, filter, flat_map, fnmatch, if◌then◌else◌,
  is_empty, map, nat_eq, none, not, option_eq, some, text_eq, true, ℕ, ◌&&◌, ◌+◌, ◌∷◌,
}
use mcp_portal.Operations.{Operation, effect_eq, location_eq, sensitivity_eq}
use mcp_portal.Rar.{AuthorizationDetail, covers}
use mcp_portal.PolicyConfig.{
  AuthorizationDetailRequirement, PolicyConfig, PolicyMatchSpec, PolicyRule, RequireConfig, allow,
  deny,
}
use mcp_portal.Principal.{Principal}

pub record PolicyDecision : Type 0 where
  pub allowed : Bool
  pub missing : List AuthorizationDetail
  pub carry : List AuthorizationDetail

-- `set(xs) & set(ys)`, as a truth value
abbrev pub meets : List Text → List Text → Bool
meets xs ys = any (λ x. contains ys x) xs

unfoldable pub matches : Operation → PolicyMatchSpec → Bool
matches op spec =
    if not (is_empty spec.ids) && not (any (λ pattern'. fnmatch op.id pattern') spec.ids)
    then false
    else if not (is_empty spec.tags) && not (meets spec.tags op.group_tags)
    then false
    else if not (is_empty spec.upstream) && not (contains spec.upstream op.upstream)
    then false
    else if not (is_empty spec.effect) && not (contains spec.effect op.effect)
    then false
    else not (not (is_empty spec.sensitivity) && not (contains spec.sensitivity op.sensitivity))

unfoldable pub matching_rules : Operation → List PolicyRule → List PolicyRule
matching_rules op rules = filter (λ rule. matches op rule.match) rules

-- `tuple(values or ())`
abbrev values_or_empty : Option (List Text) → List Text
values_or_empty none = []
values_or_empty (some xs) = xs

unfoldable pub detail_of : AuthorizationDetailRequirement → AuthorizationDetail
detail_of d = record {
  type = d.type;
  actions = values_or_empty d.actions;
  locations = values_or_empty d.locations;
  datatypes = values_or_empty d.datatypes;
  identifier = d.identifier;
  privileges = values_or_empty d.privileges;
}

unfoldable pub rule_details : Option RequireConfig → List AuthorizationDetail
rule_details none = []
rule_details (some r) = map detail_of r.authorization_details

unfoldable pub accumulated_details : List PolicyRule → List AuthorizationDetail
accumulated_details rules = flat_map (λ rule. rule_details rule.require) rules

unfoldable pub evaluate : PolicyConfig → Operation → Principal → PolicyDecision
evaluate policy op principal =
    let matching = matching_rules op policy.rules in
    let required = accumulated_details matching in
    let carry = accumulated_details (filter (λ rule. rule.outbound.carry) matching) in
    let missing = filter (λ r. not (covers r principal.authorization_details)) required in
    if is_empty required
    then record {
      allowed = elim policy.defaults.unmatched [ allow ↦ true | deny ↦ false ];
      missing = [];
      carry = carry;
    }
    else record { allowed = is_empty missing; missing = missing; carry = carry }

-- The indices of the rules that the warnings name, from index `i`.
unfoldable pub dead_rules : ℕ → List PolicyRule → List Operation → List ℕ
dead_rules i [] operations = []
dead_rules i (rule ∷ rules) operations =
    let rest = dead_rules (i + 1) rules operations in
    if not (any (λ op. matches op rule.match) operations) then i ∷ rest else rest

unfoldable pub dead_rule_warnings : PolicyConfig → List Operation → List ℕ
dead_rule_warnings policy operations = dead_rules 0 policy.rules operations
