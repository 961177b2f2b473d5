-- ===== src/Policy/Validated.antt =====
-- What the policy file's validators guarantee, and what that gives under the default `deny`.
use mcp_portal.Base.{
  >>_iff, All, All-append, Any, Bool-cases, List, Option, Option-cases, Text, [], ap, arith, guard,
  guard_iff, inl, inr, is_empty, map, nat_eq, none, not, ok, ok-injective, option_eq, refl, some,
  text_eq, true, ℕ, ◌+◌, ◌↔◌, ◌∷◌, ◌≡◌, ◌≢◌,
}
use mcp_portal.Operations.{Operation, effect_eq, location_eq, sensitivity_eq}
use mcp_portal.Principal.{Principal}
use mcp_portal.Policy.Decision.{Granted, evaluate-allowed_iff}
use mcp_portal.Policy.{
  accumulated_details, detail_of, evaluate, matches, matching_rules, rule_details,
}
use mcp_portal.PolicyConfig.{
  AuthorizationDetailRequirement, PolicyConfig, PolicyError, PolicyRule, RequireConfig, deny,
  empty_require, non_empty_when_present, offending, require_less,
  require_less_rule_forbidden_under_deny, validate, validate_require, validate_requirement,
  validate_requirements, validate_rules,
}

-- The array is absent, or it has an element.
abbrev pub NonEmptyWhenPresent : Option (List Text) → Type 0
NonEmptyWhenPresent none = Unit
NonEmptyWhenPresent (some xs) = xs ≢ []

pub record IsMeaningful (d : AuthorizationDetailRequirement) : Type 0 where
  pub actions : NonEmptyWhenPresent d.actions
  pub locations : NonEmptyWhenPresent d.locations
  pub datatypes : NonEmptyWhenPresent d.datatypes
  pub privileges : NonEmptyWhenPresent d.privileges

-- A `require` that is present asks for a detail, and each of its details is meaningful.
abbrev pub RequiresSomething : Option RequireConfig → Type 0
RequiresSomething none = Unit
RequiresSomething (some r) =
    All IsMeaningful r.authorization_details × (r.authorization_details ≢ [])

pub record IsFailClosed (p : PolicyConfig) : Type 0 where
  pub rules : All (λ rule. RequiresSomething rule.require) p.rules
  pub required_under_deny : p.defaults.unmatched ≡ deny → All (λ rule. rule.require ≢ none) p.rules

-- An equivalence of a conjunction from those of its parts.
both : {A B C P Q : Type 0} → (A ↔ B × C) → (B ↔ P) → (C ↔ Q) → A ↔ P × Q
both e f g = (λ a. let (b, c) = e.0 a in (f.0 b, g.0 c), λ (p, q). e.1 (f.1 p, g.1 q))

non_empty_when_present_iff :
    (o : Option (List Text)) → (non_empty_when_present o ≡ ok tt) ↔ NonEmptyWhenPresent o
unfolding non_empty_when_present
non_empty_when_present_iff none = (λ h. tt, λ h. refl)
non_empty_when_present_iff (some []) = (λ h. cc, λ h. absurd (h refl))
non_empty_when_present_iff (some (x ∷ xs)) = (λ h p. cc, λ h. refl)

validate_requirement_iff :
    (d : AuthorizationDetailRequirement) → (validate_requirement d ≡ ok tt) ↔ IsMeaningful d
unfolding validate_requirement
validate_requirement_iff d = grind (
  arith,
  >>_iff,
  non_empty_when_present_iff d.actions,
  non_empty_when_present_iff d.locations,
  non_empty_when_present_iff d.datatypes,
  non_empty_when_present_iff d.privileges,
)

validate_requirements_iff :
    (ds : List AuthorizationDetailRequirement)
    → (validate_requirements ds ≡ ok tt) ↔ All IsMeaningful ds
unfolding validate_requirements
validate_requirements_iff [] = (λ h. tt, λ h. refl)
validate_requirements_iff (d ∷ ds) =
    both (>>_iff _ _ tt) (validate_requirement_iff d) (validate_requirements_iff ds)

non_empty_iff :
    (ds : List AuthorizationDetailRequirement) (e : PolicyError)
    → (guard (not (is_empty ds)) e ≡ ok tt) ↔ (ds ≢ [])
non_empty_iff [] e = (λ h. cc, λ h. absurd (h refl))
non_empty_iff (d ∷ ds) e = (λ h p. cc, λ h. refl)

validate_require_iff :
    (r : Option RequireConfig) → (validate_require r ≡ ok tt) ↔ RequiresSomething r
unfolding validate_require
validate_require_iff none = (λ h. tt, λ h. refl)
validate_require_iff (some r) =
    both (>>_iff _ _ tt) (validate_requirements_iff r.authorization_details)
      (non_empty_iff r.authorization_details empty_require)

validate_rules_iff :
    (rules : List PolicyRule)
    → (validate_rules rules ≡ ok tt) ↔ All (λ rule. RequiresSomething rule.require) rules
unfolding validate_rules
validate_rules_iff [] = (λ h. tt, λ h. refl)
validate_rules_iff (rule ∷ rules) =
    both (>>_iff _ _ tt) (validate_require_iff rule.require) (validate_rules_iff rules)

offending_iff :
    (i : ℕ) (rules : List PolicyRule)
    → (is_empty (offending i rules) ≡ true) ↔ All (λ rule. rule.require ≢ none) rules
unfolding offending
offending_iff i [] = (λ h. tt, λ h. refl)
offending_iff i (rule ∷ rules) = elim (Option-cases rule.require) [
  | inl e ↦ rw e (λ h. cc, λ h. absurd (h.0 refl))
  | inr (r, e) ↦
      rw e (
        λ h. (λ p. cc, (offending_iff (i + 1) rules).0 h),
        λ h. (offending_iff (i + 1) rules).1 h.1,
      )
]

deny_rule_iff :
    (p : PolicyConfig)
    → (require_less_rule_forbidden_under_deny p ≡ ok tt)
      ↔ (p.defaults.unmatched ≡ deny → All (λ rule. rule.require ≢ none) p.rules)
unfolding require_less_rule_forbidden_under_deny
deny_rule_iff p = ground (
  arith,
  offending_iff 0 p.rules,
  guard_iff (is_empty (offending 0 p.rules)) (require_less (offending 0 p.rules)),
)

-- The validators accept a policy exactly when no `require` and no array in it is empty and, if
-- the default is `deny`, every rule has a `require`. They change nothing in it.
pub validate_iff : (p q : PolicyConfig) → (validate p ≡ ok q) ↔ (p ≡ q) × IsFailClosed p
unfolding validate
validate_iff p q = (
  λ h.
      let (a, rest) = (>>_iff (validate_rules p.rules) _ q).0 h in
      let (b, same) = (>>_iff (require_less_rule_forbidden_under_deny p) _ q).0 rest in
      (
        ok-injective same,
        record {
          rules = (validate_rules_iff p.rules).0 a;
          required_under_deny = (deny_rule_iff p).0 b;
        },
      ),
  λ (same, c). (>>_iff (validate_rules p.rules) _ q).1 (
    (validate_rules_iff p.rules).1 c.rules,
    (>>_iff (require_less_rule_forbidden_under_deny p) _ q).1
        ((deny_rule_iff p).1 c.required_under_deny, ap ok same),
  ),
)

rule_details-ne-nil :
    (o : Option RequireConfig) → RequiresSomething o → o ≢ none → rule_details o ≢ []
unfolding rule_details
rule_details-ne-nil none h n p = n refl
rule_details-ne-nil (some r) h n p = map-ne-nil r.authorization_details h.1 p
  where
    map-ne-nil : (ds : List AuthorizationDetailRequirement) → ds ≢ [] → map detail_of ds ≡ [] → ⊥
    map-ne-nil [] n e = n refl
    map-ne-nil (d ∷ ds) n e = cc

some_rule_matches :
    (op : Operation) (rules : List PolicyRule)
    → accumulated_details (matching_rules op rules) ≢ []
    → Any (λ rule. matches op rule.match ≡ true) rules
unfolding accumulated_details matching_rules
some_rule_matches op [] n = absurd (n refl)
some_rule_matches op (rule ∷ rules) n = elim (Bool-cases (matches op rule.match)) [
  | inl e ↦ inl e
  | inr e ↦ inr (some_rule_matches op rules (rw e at n))
]

-- What a matching rule of a fail-closed policy asks for, and that it is granted.
abbrev pub Enforced : Principal → Operation → PolicyRule → Type 0
Enforced principal op rule =
    matches op rule.match ≡ true
    → (rule_details rule.require ≢ []) × All (Granted principal) (rule_details rule.require)

rules-Enforced :
    (principal : Principal) (op : Operation) (rules : List PolicyRule)
    → All (λ rule. RequiresSomething rule.require) rules
    → All (λ rule. rule.require ≢ none) rules
    → All (Granted principal) (accumulated_details (matching_rules op rules))
    → All (Enforced principal op) rules
unfolding accumulated_details matching_rules
rules-Enforced principal op [] a b g = tt
rules-Enforced principal op (rule ∷ rules) (a, as') (b, bs) g =
    elim (Bool-cases (matches op rule.match)) [
      | inl e ↦
          let (now, later) =
            (All-append (Granted principal) (rule_details rule.require) _).0 (rw e at g) in
          (
            λ _. (rule_details-ne-nil rule.require a b, now),
            rules-Enforced principal op rules as' bs later,
          )
      | inr e ↦ (λ m. cc, rules-Enforced principal op rules as' bs (rw e at g))
    ]

-- An accepted policy that denies by default is fail-closed: what it allows is matched by one of
-- its rules, and every rule that matches requires details which the principal is granted.
pub deny_fail_closed :
    (p : PolicyConfig) (op : Operation) (principal : Principal)
    → validate p ≡ ok p
    → p.defaults.unmatched ≡ deny
    → (evaluate p op principal).allowed ≡ true
    → Any (λ rule. matches op rule.match ≡ true) p.rules × All (Enforced principal op) p.rules
deny_fail_closed p op principal v d h =
    let closed = ((validate_iff p p).0 v).1 in
    elim ((evaluate-allowed_iff p op principal).0 h) [
      | inl (_, a) ↦ cc
      | inr (n, g) ↦ (
        some_rule_matches op p.rules n,
        rules-Enforced principal op p.rules closed.rules (closed.required_under_deny d) g,
      )
    ]
