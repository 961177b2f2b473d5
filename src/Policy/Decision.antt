-- ===== src/Policy/Decision.antt =====
-- What `evaluate` decides, and how the decision moves with the rules and with the principal.
use mcp_portal.Base.{
  All, All-append, All-imp, Any, Any-append-left, Any-append-right, Bool-cases, List, [], arith,
  filter, filter-append, flat_map-append, inl, inr, is_empty, nat_eq, not, option_eq, refl, text_eq,
  true, ◌++◌, ◌↔◌, ◌∷◌, ◌≡◌, ◌≢◌, ◌⊎◌,
}
use mcp_portal.Operations.{Operation, effect_eq, location_eq, sensitivity_eq}
use mcp_portal.Rar.{AuthorizationDetail, covers}
use mcp_portal.Rar.Coverage.{Grants, covers_iff}
use mcp_portal.PolicyConfig.{PolicyConfig, PolicyRule, Unmatched, allow}
use mcp_portal.Principal.{Principal}
use mcp_portal.Policy.{accumulated_details, evaluate, matching_rules, rule_details}

-- The requirements of the rules that match the operation.
abbrev pub requirements : PolicyConfig → Operation → List AuthorizationDetail
requirements policy op = accumulated_details (matching_rules op policy.rules)

-- Some detail of the principal grants the requirement.
abbrev pub Granted : Principal → AuthorizationDetail → Type 0
Granted principal r = Any (λ p. Grants r p) principal.authorization_details

missing_of : Principal → List AuthorizationDetail → List AuthorizationDetail
missing_of principal rs = filter (λ r. not (covers r principal.authorization_details)) rs

nothing_missing_iff :
    (principal : Principal) (rs : List AuthorizationDetail)
    → (is_empty (missing_of principal rs) ≡ true) ↔ All (Granted principal) rs
unfolding missing_of
nothing_missing_iff principal [] = (λ h. tt, λ h. refl)
nothing_missing_iff principal (r ∷ rs) =
    ground (arith, covers_iff r principal.authorization_details, nothing_missing_iff principal rs)

-- An operation is allowed exactly when its matching rules require nothing and the default is to
-- allow, or they require something and every requirement is granted by one of the details that
-- the principal presents.
pub evaluate-allowed_iff :
    (policy : PolicyConfig) (op : Operation) (principal : Principal)
    → ((evaluate policy op principal).allowed ≡ true) ↔ (
        (requirements policy op ≡ []) × (policy.defaults.unmatched ≡ allow)
        ⊎ (requirements policy op ≢ []) × All (Granted principal) (requirements policy op))
unfolding evaluate missing_of
evaluate-allowed_iff policy op principal =
    ground (arith, nothing_missing_iff principal (requirements policy op))

All-carried :
    (P : AuthorizationDetail → Type 0) (rules : List PolicyRule)
    → All P (accumulated_details rules)
    → All P (accumulated_details (filter (λ rule. rule.outbound.carry) rules))
unfolding accumulated_details
All-carried P [] h = tt
All-carried P (rule ∷ rules) h =
    let ds = rule_details rule.require in
    let (a, b) = (All-append P ds (accumulated_details rules)).0 h in
    let ih = All-carried P rules b in
    elim (Bool-cases rule.outbound.carry) [
      | inl e ↦ rw e ((All-append P ds _).1 (a, ih))
      | inr e ↦ rw e ih
    ]

evaluate-carry :
    (policy : PolicyConfig) (op : Operation) (principal : Principal)
    → (evaluate policy op principal).carry
      ≡ accumulated_details (filter (λ rule. rule.outbound.carry) (matching_rules op policy.rules))
unfolding evaluate
evaluate-carry policy op principal = ground arith

pub allowed→Granted :
    (policy : PolicyConfig) (op : Operation) (principal : Principal)
    → (evaluate policy op principal).allowed ≡ true
    → All (Granted principal) (requirements policy op)
allowed→Granted policy op principal h = elim ((evaluate-allowed_iff policy op principal).0 h) [
  | inl (none_required, _) ↦ rw none_required tt
  | inr (_, all_granted) ↦ all_granted
]

-- When an operation is allowed, every detail that goes to the upstream with the call is granted
-- by one detail of the calling principal: no rule lends authority that the caller does not hold.
pub carry-Granted :
    (policy : PolicyConfig) (op : Operation) (principal : Principal)
    → (evaluate policy op principal).allowed ≡ true
    → All (Granted principal) (evaluate policy op principal).carry
carry-Granted policy op principal h = rw (evaluate-carry policy op principal) (
    All-carried (Granted principal) (matching_rules op policy.rules)
      (allowed→Granted policy op principal h))

-- The policy with other rules.
abbrev pub with_rules : PolicyConfig → List PolicyRule → PolicyConfig
with_rules policy rules = record policy { rules = rules }

details_of : Operation → List PolicyRule → List AuthorizationDetail
details_of op rules = accumulated_details (matching_rules op rules)

details_of-append :
    (op : Operation) (xs ys : List PolicyRule)
    → details_of op (xs ++ ys) ≡ details_of op xs ++ details_of op ys
unfolding details_of accumulated_details matching_rules
details_of-append op xs ys = simp (filter-append, flat_map-append)

module _ (op : Operation) (principal : Principal) (before added after : List PolicyRule) where
  Granted-without :
      All (Granted principal) (details_of op (before ++ (added ++ after)))
      → All (Granted principal) (details_of op (before ++ after))
  Granted-without h =
      let (a, b) =
        (All-append (Granted principal) (details_of op before) _).0 (rw details_of-append at h) in
      let (_, c) =
        (All-append (Granted principal) (details_of op added) _).0 (rw details_of-append at b) in
      rw details_of-append ((All-append (Granted principal) (details_of op before) _).1 (a, c))

allow_or_granted :
    (P : AuthorizationDetail → Type 0) {u : Unmatched} (rs : List AuthorizationDetail)
    → u ≡ allow
    → All P rs
    → ((rs ≡ []) × (u ≡ allow)) ⊎ ((rs ≢ []) × All P rs)
allow_or_granted P [] e h = inl (refl, e)
allow_or_granted P (r ∷ rs) e h = inr (λ p. cc, h)

-- Under the default `allow`, rules only take away: what a policy allows is still allowed when
-- any of its rules are removed, wherever they stand.
pub allowed_without_rules :
    (policy : PolicyConfig) (op : Operation) (principal : Principal)
    (before added after : List PolicyRule)
    → policy.defaults.unmatched ≡ allow
    → (evaluate (with_rules policy (before ++ (added ++ after))) op principal).allowed ≡ true
    → (evaluate (with_rules policy (before ++ after)) op principal).allowed ≡ true
unfolding details_of
allowed_without_rules policy op principal before added after default h =
    let less =
      Granted-without op principal before added after
        (allowed→Granted (with_rules policy (before ++ (added ++ after))) op principal h) in
    (evaluate-allowed_iff (with_rules policy (before ++ after)) op principal).1
      (allow_or_granted (Granted principal) _ default less)

-- A principal that presents more details is never refused what fewer details allow.
pub allowed_with_more_details :
    (policy : PolicyConfig) (op : Operation) (principal : Principal)
    (before after : List AuthorizationDetail)
    → (evaluate policy op principal).allowed ≡ true
    → (evaluate policy op (record principal {
      authorization_details = before ++ (principal.authorization_details ++ after);
    })).allowed
      ≡ true
allowed_with_more_details policy op principal before after h =
    let more : Principal = record principal {
      authorization_details = before ++ (principal.authorization_details ++ after);
    } in
    let wider = All-imp (requirements policy op) λ r g.
      Any-append-right (Grants r) before (principal.authorization_details ++ after)
        (Any-append-left (Grants r) principal.authorization_details after g) in
    (evaluate-allowed_iff policy op more).1 (elim ((evaluate-allowed_iff policy op principal).0 h) [
      | inl by_default ↦ inl by_default
      | inr (some_required, all_granted) ↦ inr (some_required, wider all_granted)
    ])
