-- ===== src/Writer/Owned.antt =====
-- Which rules of a policy the survey owns, by their fields.
use mcp_portal.Base.{
  Bool, Bool-cases, List, Option, Option-cases, Text, [], ap, arith, contains, false, if◌then◌else◌,
  inl, inr, is_empty, map, nat_eq, none, option_eq, refl, some, subst, text_eq, true, ◌&&◌, ◌↔◌,
  ◌∙◌, ◌∷◌, ◌≡◌, ◌≢◌, ◌⊎◌,
}
use mcp_portal.PolicyConfig.{AuthorizationDetailRequirement, PolicyRule, RequireConfig}
use mcp_portal.Configure.{OperationDecision}
use mcp_portal.Writer.{
  blank, configure_id, is_configure_owned, one_plain_detail, only_type_and_actions, single_id,
  within_required_detail_shape,
}
use mcp_portal.Operations.{effect_eq, location_eq, sensitivity_eq}

is_empty-nil {ℓ} : {A : Type ℓ} (xs : List A) → is_empty xs ≡ true → xs ≡ []
is_empty-nil [] h = refl
is_empty-nil (x ∷ xs) h = cc

blank_iff {ℓ} : {A : Type ℓ} (o : Option (List A)) → (blank o ≡ true) ↔ ((o ≡ none) ⊎ (o ≡ some []))
blank_iff none = ((λ h. inl refl), λ h. refl)
blank_iff (some []) = ((λ h. inr refl), λ h. refl)
blank_iff {A = A} (some (x ∷ xs)) = (
  (λ h. absurd (false-ne-true h)),
  λ h. elim h [ inl e ↦ absurd (some-none e) | inr e ↦ absurd (cons-nil e) ],
)
  where
    false-ne-true : false ≢ true
    false-ne-true e = cc

    some-none : ◌≢◌ {A = Option (List A)} (some (x ∷ xs)) none
    some-none e = cc

    cons-nil : ◌≢◌ {A = Option (List A)} (some (x ∷ xs)) (some [])
    cons-nil e = cc

-- The requirement has a type, and actions at most.
abbrev pub IsPlain : AuthorizationDetailRequirement → Type 0
IsPlain d =
    ((d.locations ≡ none) ⊎ (d.locations ≡ some []))
    × ((d.datatypes ≡ none) ⊎ (d.datatypes ≡ some []))
    × ((d.identifier ≡ none) ⊎ (d.identifier ≡ some []))
    × ((d.privileges ≡ none) ⊎ (d.privileges ≡ some []))

only_type_and_actions_iff :
    (d : AuthorizationDetailRequirement) → (only_type_and_actions d ≡ true) ↔ IsPlain d
unfolding only_type_and_actions
only_type_and_actions_iff d =
    let (l, l') = blank_iff d.locations in
    let (t, t') = blank_iff d.datatypes in
    let (i, i') = blank_iff d.identifier in
    let (p, p') = blank_iff d.privileges in
    (
      (λ h. (l (ground arith), t (ground arith), i (ground arith), p (ground arith))),
      λ (a, b, c, e). rw (l' a, t' b, i' c, p' e) refl,
    )

-- The rule asks for no details, or for one plain one, and carries none.
abbrev pub IsOfShape : PolicyRule → Type 0
IsOfShape rule =
    (rule.outbound.carry ≡ false)
    × ((rule.require ≡ none)
        ⊎ ((r : RequireConfig) × (d : AuthorizationDetailRequirement) × (rule.require ≡ some r)
            × (r.authorization_details ≡ d ∷ [])
            × IsPlain d))

one_plain_detail-some :
    (ds : List AuthorizationDetailRequirement)
    → one_plain_detail ds ≡ true
    → (d : AuthorizationDetailRequirement) × (ds ≡ d ∷ []) × IsPlain d
unfolding one_plain_detail
one_plain_detail-some [] h = cc
one_plain_detail-some (d ∷ []) h = (d, refl, (only_type_and_actions_iff d).0 h)
one_plain_detail-some (d ∷ e ∷ ds) h = cc

within_required_detail_shape_iff :
    (rule : PolicyRule) → (within_required_detail_shape rule ≡ true) ↔ IsOfShape rule
unfolding within_required_detail_shape one_plain_detail
within_required_detail_shape_iff rule = (forwards, backwards)
  where
    forwards : within_required_detail_shape rule ≡ true → IsOfShape rule
    forwards h = elim (Bool-cases rule.outbound.carry) [
      | inl c ↦ absurd (false-ne-true (rw (within_required_detail_shape, c) at h))
      | inr c ↦ elim (Option-cases rule.require) [
        | inl e ↦ (c, inl e)
        | inr (r, e) ↦
            let (d, one, plain) =
              one_plain_detail-some r.authorization_details
                (rw (within_required_detail_shape, c, e) at h) in
            (c, inr (r, d, e, one, plain))
      ]
    ]
      where
        false-ne-true : false ≢ true
        false-ne-true e = cc

    backwards : IsOfShape rule → within_required_detail_shape rule ≡ true
    backwards (c, inl e) = rw (within_required_detail_shape, c, e) refl
    backwards (c, inr (r, d, e, one, plain)) =
        rw (within_required_detail_shape, c, e, one) ((only_type_and_actions_iff d).1 plain)

module _ (decisions : List OperationDecision) where
  -- The rule matches one operation, which the survey decides, by its id and by nothing else.
  pub record Matches (id : Text) (rule : PolicyRule) : Type 0 where
    pub decided : contains (map (λ (d : OperationDecision). d.operation.id) decisions) id ≡ true
    pub by_id : rule.match.ids ≡ id ∷ []
    pub no_tags : rule.match.tags ≡ []
    pub no_upstream : rule.match.upstream ≡ []
    pub no_effect : rule.match.effect ≡ []
    pub no_sensitivity : rule.match.sensitivity ≡ []

  -- A rule that the survey owns.
  abbrev pub Owned : PolicyRule → Type 0
  Owned rule = ((id : Text) × Matches id rule) × IsOfShape rule

  single_id-some : (ids : List Text) (id : Text) → single_id ids ≡ some id → ids ≡ id ∷ []
  unfolding single_id
  single_id-some [] id h = cc
  single_id-some (i ∷ []) id h = ap (λ o. elim o [ none ↦ [] | some j ↦ j ∷ [] ]) h
  single_id-some (i ∷ j ∷ ids) id h = cc

  pub configure_id_iff :
      (rule : PolicyRule) (id : Text) → (configure_id decisions rule ≡ some id) ↔ Matches id rule
  unfolding configure_id single_id
  configure_id_iff rule id = (forwards, backwards)
    where
      backwards : Matches id rule → configure_id decisions rule ≡ some id
      backwards m =
          rw
            (
              configure_id, m.by_id, m.decided, m.no_tags, m.no_upstream, m.no_effect,
              m.no_sensitivity,
            )
            refl

      matched :
          (i : Text) (a b c d e : Bool)
          → (if a && (b && (c && (d && e))) then some i else none) ≡ some id
          → (i ≡ id) × (a ≡ true) × (b ≡ true) × (c ≡ true) × (d ≡ true) × (e ≡ true)
      matched i a b c d e h = ground arith

      forwards : configure_id decisions rule ≡ some id → Matches id rule
      forwards h = elim (Option-cases (single_id rule.match.ids)) [
        | inl e ↦ absurd (none-some (rw (configure_id, e) at h))
        | inr (i, e) ↦
            let (same, a, b, c, d, s) = matched i _ _ _ _ _ (rw (configure_id, e) at h) in
            record {
              decided =
                  subst
                    (λ j.
                      contains (map (λ (d : OperationDecision). d.operation.id) decisions) j ≡ true)
                    same a;
              by_id = single_id-some rule.match.ids id (e ∙ ap some same);
              no_tags = is_empty-nil _ b;
              no_upstream = is_empty-nil _ c;
              no_effect = is_empty-nil _ d;
              no_sensitivity = is_empty-nil _ s;
            }
      ]
        where
          none-some : ◌≢◌ {A = Option Text} none (some id)
          none-some e = cc

  pub is_configure_owned_iff :
      (rule : PolicyRule) → (is_configure_owned decisions rule ≡ true) ↔ Owned rule
  unfolding is_configure_owned
  is_configure_owned_iff rule = (
    (λ h. elim (Option-cases (configure_id decisions rule)) [
      | inl e ↦ absurd (false-ne-true (rw (is_configure_owned, e) at h))
      | inr (id, e) ↦ (
        (id, (configure_id_iff rule id).0 e),
        (within_required_detail_shape_iff rule).0 (rw (is_configure_owned, e) at h),
      )
    ]),
    λ ((id, m), shape).
        rw
          (
            is_configure_owned,
            (configure_id_iff rule id).1 m,
            (within_required_detail_shape_iff rule).1 shape,
          )
          refl,
  )
    where
      false-ne-true : false ≢ true
      false-ne-true e = cc

  pub is_configure_owned-false :
      (rule : PolicyRule) → (is_configure_owned decisions rule ≡ false) ↔ (¬ Owned rule)
  is_configure_owned-false rule = (
    (λ h o. let owned = (is_configure_owned_iff rule).1 o in ground arith),
    λ n. elim (Bool-cases (is_configure_owned decisions rule)) [
      | inl e ↦ absurd (n ((is_configure_owned_iff rule).0 e))
      | inr e ↦ e
    ],
  )
