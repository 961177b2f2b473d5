-- ===== src/Policy/DeadRules.antt =====
-- The rules that the dead-rule warnings name.
use mcp_portal.Base.{
  ==→≡, Bool-cases, List, [], any, arith, contains, false, inl, inr, length, nat_eq, not, option_eq,
  refl, text_eq, ℕ, ◌++◌, ◌+◌, ◌<◌, ◌∷◌, ◌≡◌,
}
use mcp_portal.Operations.{Operation, effect_eq, location_eq, sensitivity_eq}
use mcp_portal.PolicyConfig.{PolicyConfig, PolicyRule}
use mcp_portal.Policy.{dead_rule_warnings, dead_rules, matches}
use mcp_portal.Policy.Decision.{with_rules}

dead_rules-above :
    (i k : ℕ) (rules : List PolicyRule) (ops : List Operation)
    → k < i
    → contains (dead_rules i rules ops) k ≡ false
unfolding dead_rules
dead_rules-above i k [] ops h = refl
dead_rules-above i k (rule ∷ rules) ops h =
    elim (Bool-cases (any (λ op. matches op rule.match) ops)) [
      | inl e ↦ rw (dead_rules, e) (dead_rules-above (i + 1) k rules ops (omega arith))
      | inr e ↦
          rw (dead_rules, e)
            (ground (arith, ==→≡ k i, dead_rules-above (i + 1) k rules ops (omega arith)))
    ]

dead_rules-at :
    (i k : ℕ) (before after : List PolicyRule) (rule : PolicyRule) (ops : List Operation)
    → k ≡ i + length before
    → contains (dead_rules i (before ++ (rule ∷ after)) ops) k
      ≡ not (any (λ op. matches op rule.match) ops)
unfolding dead_rules nat_eq
dead_rules-at i k [] after rule ops h = elim (Bool-cases (any (λ op. matches op rule.match) ops)) [
  | inl e ↦ rw (dead_rules, e) (dead_rules-above (i + 1) k after ops (omega arith))
  | inr e ↦ rw (dead_rules, e) (ground arith)
]
dead_rules-at i k (r ∷ before) after rule ops h =
    let rest = dead_rules-at (i + 1) k before after rule ops (omega arith) in
    elim (Bool-cases (any (λ op. matches op r.match) ops)) [
      | inl e ↦ rw (dead_rules, e) rest
      | inr e ↦ rw (dead_rules, e) (ground (arith, rest))
    ]

-- The warnings name the index of a rule exactly when the rule matches none of the operations.
pub dead_rule_warnings-at :
    (policy : PolicyConfig) (before after : List PolicyRule) (rule : PolicyRule)
    (ops : List Operation)
    → contains
        (dead_rule_warnings (with_rules policy (before ++ (rule ∷ after))) ops)
        (length before)
      ≡ not (any (λ op. matches op rule.match) ops)
unfolding dead_rule_warnings
dead_rule_warnings-at policy before after rule ops =
    dead_rules-at 0 (length before) before after rule ops (omega arith)
