-- ===== src/PolicyConfig.antt =====
-- config/policy.py: the policy file's models and validators. Pydantic's reading of the file into
-- these records is not modelled; a validator returns the first of the errors that it would report.
use mcp_portal.Base.{
  Bool, List, Option, Result, Text, [], guard, is_empty, nat_eq, none, not, ok, option_eq, some,
  text_eq, ℕ, ◌+◌, ◌>>◌, ◌∷◌,
}
use mcp_portal.Operations.{Effect, Sensitivity, effect_eq, location_eq, sensitivity_eq}

pub record AuthorizationDetailRequirement : Type 0 where
  pub type : Text
  pub actions : Option (List Text)
  pub locations : Option (List Text)
  pub datatypes : Option (List Text)
  pub identifier : Option Text
  pub privileges : Option (List Text)

pub record RequireConfig : Type 0 where
  pub authorization_details : List AuthorizationDetailRequirement

pub record PolicyOutboundConfig : Type 0 where
  pub carry : Bool

pub record PolicyMatchSpec : Type 0 where
  pub ids : List Text
  pub tags : List Text
  pub upstream : List Text
  pub effect : List Effect
  pub sensitivity : List Sensitivity

pub record PolicyRule : Type 0 where
  pub match : PolicyMatchSpec
  pub require : Option RequireConfig
  pub outbound : PolicyOutboundConfig

pub data Unmatched : Type 0 where
  allow deny : Unmatched

pub record PolicyDefaults : Type 0 where
  pub unmatched : Unmatched

pub record PolicyConfig : Type 0 where
  pub defaults : PolicyDefaults
  pub rules : List PolicyRule

pub data PolicyError : Type 0 where
  empty_array empty_require : PolicyError
  require_less : List ℕ → PolicyError

unfoldable pub non_empty_when_present : Option (List Text) → Result PolicyError (Unit {0})
non_empty_when_present none = ok tt
non_empty_when_present (some value) = guard (not (is_empty value)) empty_array

unfoldable pub validate_requirement : AuthorizationDetailRequirement → Result PolicyError (Unit {0})
validate_requirement d = do
  non_empty_when_present d.actions
  non_empty_when_present d.locations
  non_empty_when_present d.datatypes
  non_empty_when_present d.privileges

unfoldable pub validate_requirements :
    List AuthorizationDetailRequirement → Result PolicyError (Unit {0})
validate_requirements [] = ok tt
validate_requirements (d ∷ ds) = do validate_requirement d; validate_requirements ds

unfoldable pub validate_require : Option RequireConfig → Result PolicyError (Unit {0})
validate_require none = ok tt
validate_require (some r) = do
  validate_requirements r.authorization_details
  guard (not (is_empty r.authorization_details)) empty_require

unfoldable pub validate_rules : List PolicyRule → Result PolicyError (Unit {0})
validate_rules [] = ok tt
validate_rules (r ∷ rs) = do validate_require r.require; validate_rules rs

-- `[i for i, rule in enumerate(rules) if rule.require is None]`, from index `i`.
unfoldable pub offending : ℕ → List PolicyRule → List ℕ
offending i [] = []
offending i (r ∷ rs) =
    let rest = offending (i + 1) rs in elim r.require [ none ↦ i ∷ rest | some _ ↦ rest ]

unfoldable pub require_less_rule_forbidden_under_deny : PolicyConfig → Result PolicyError (Unit {0})
require_less_rule_forbidden_under_deny p = elim p.defaults.unmatched [
  | allow ↦ ok tt
  | deny ↦ guard (is_empty (offending 0 p.rules)) (require_less (offending 0 p.rules))
]

unfoldable pub validate : PolicyConfig → Result PolicyError PolicyConfig
validate p = do validate_rules p.rules; require_less_rule_forbidden_under_deny p; ok p
