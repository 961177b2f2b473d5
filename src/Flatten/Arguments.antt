-- ===== src/Flatten/Arguments.antt =====
-- The argument names of a tool, and the schema that declares them.
use mcp_portal.Base.{
  ==→≡, >>_iff, Dict, Distinct, List, Option-cases, Text, [], ap, arith, contains, inl, inr, insert,
  keys, lookup, lookup-insert, map, nat_eq, none, ok, ok-injective, option_eq, refl, sorted_by,
  subst, sym, text, text_eq, true, ◌++◌, ◌∙◌, ◌∷◌, ◌≡◌,
}
use mcp_portal.Operations.{HttpBinding, Parameter, effect_eq, location_eq, sensitivity_eq}
use mcp_portal.Flatten.Template.{path_parameters, wire_names}
use mcp_portal.Flatten.{
  body_names, check_content_type, contributions, location_value, rename, renamed, resolve_arg_names,
  see_all,
}

-- Names that are seen without an error are new and differ from each other.
see_all-Distinct :
    (names seen : Dict Text Text)
    → see_all names seen ≡ ok tt
    → Distinct (keys names) × ((n : Text) → contains (keys names) n ≡ true → lookup n seen ≡ none)
unfolding see_all
see_all-Distinct [] seen h = (tt, λ n c. cc)
see_all-Distinct ((name, contributor) ∷ rest) seen h = elim (Option-cases (lookup name seen)) [
  | inr (other, e) ↦ ground arith
  | inl e ↦
      let (distinct, fresh) =
        see_all-Distinct rest (insert name contributor seen) (rw (see_all, e) at h) in
      (
        (ground (arith, lookup-insert name name contributor seen, fresh name), distinct),
        λ n c. ground (arith, ==→≡ n name, lookup-insert n name contributor seen, fresh n, e),
      )
]

-- The names that a tool takes, its body's included.
abbrev pub argument_names : HttpBinding → List Text
argument_names binding =
    map (λ (p : Parameter). p.arg) binding.parameters
    ++ sorted_by (λ n. n) (body_names binding.body)

keys-parameters :
    (ps : List Parameter)
    → keys (map (λ (p : Parameter). (p.arg, location_value p.location)) ps)
      ≡ map (λ (p : Parameter). p.arg) ps
keys-parameters [] = refl
keys-parameters (p ∷ ps) = ap (λ ns. p.arg ∷ ns) (keys-parameters ps)

keys-names : (by : Text) (ns : List Text) → keys (map (λ (n : Text). (n, by)) ns) ≡ ns
keys-names by [] = refl
keys-names by (n ∷ ns) = ap (λ ms. n ∷ ms) (keys-names by ns)

keys-append : (xs ys : Dict Text Text) → keys (xs ++ ys) ≡ keys xs ++ keys ys
keys-append [] ys = refl
keys-append ((k, v) ∷ xs) ys = ap (λ ks. k ∷ ks) (keys-append xs ys)

keys-contributions :
    (binding : HttpBinding)
    → keys (contributions binding)
      ≡ argument_names (record binding { parameters = renamed binding })
unfolding contributions
keys-contributions binding =
    keys-append (map (λ (p : Parameter). (p.arg, location_value p.location)) (renamed binding))
      (map (λ n. (n, text "body")) (sorted_by (λ n. n) (body_names binding.body)))
    ∙ rw
        (
          keys-parameters (renamed binding),
          keys-names (text "body") (sorted_by (λ n. n) (body_names binding.body)),
        )
        refl

pub rename-same :
    (names : List Text) (p : Parameter)
    → ((rename names p).wire_name ≡ p.wire_name)
      × ((rename names p).location ≡ p.location)
      × ((rename names p).required ≡ p.required)
unfolding rename
rename-same names p = ground arith

renamed-wire_names :
    (names : List Text) (ps : List Parameter)
    → map (λ (p : Parameter). p.wire_name) (map (rename names) ps)
      ≡ map (λ (p : Parameter). p.wire_name) ps
renamed-wire_names names [] = refl
renamed-wire_names names (p ∷ ps) = ground (arith, rename-same names p, renamed-wire_names names ps)

-- When the names are resolved, no two arguments of the tool share one, those of the body included,
-- and the upstream is still sent the names that it expects, in the same path and body.
pub resolve_arg_names-Distinct :
    (binding resolved : HttpBinding)
    → resolve_arg_names binding ≡ ok resolved
    → Distinct (argument_names resolved)
      × (map (λ (p : Parameter). p.wire_name) resolved.parameters
          ≡ map (λ (p : Parameter). p.wire_name) binding.parameters)
      × (resolved.path ≡ binding.path)
      × (resolved.body ≡ binding.body)
unfolding resolve_arg_names renamed
resolve_arg_names-Distinct binding resolved h =
    let (_, h₁) = (>>_iff (check_content_type binding.body) _ resolved).0 h in
    let (seen, h₂) = (>>_iff (see_all (contributions binding) []) _ resolved).0 h₁ in
    let (distinct, _) = see_all-Distinct (contributions binding) [] seen in
    let same = ok-injective h₂ in
    (
      subst (λ r. Distinct (argument_names r)) same
          (subst Distinct (keys-contributions binding) distinct),
      ap (λ (r : HttpBinding). map (λ (p : Parameter). p.wire_name) r.parameters) (sym same)
          ∙ renamed-wire_names _ binding.parameters,
      ap (λ (r : HttpBinding). r.path) (sym same),
      ap (λ (r : HttpBinding). r.body) (sym same),
    )

renamed-path_names :
    (names : List Text) (ps : List Parameter)
    → wire_names (path_parameters (map (rename names) ps)) ≡ wire_names (path_parameters ps)
renamed-path_names names [] = refl
renamed-path_names names (p ∷ ps) = ground (arith, rename-same names p, renamed-path_names names ps)

pub resolve_arg_names-path_names :
    (binding resolved : HttpBinding)
    → resolve_arg_names binding ≡ ok resolved
    → wire_names (path_parameters resolved.parameters)
      ≡ wire_names (path_parameters binding.parameters)
unfolding resolve_arg_names renamed
resolve_arg_names-path_names binding resolved h =
    let (_, h₁) = (>>_iff (check_content_type binding.body) _ resolved).0 h in
    let (_, h₂) = (>>_iff (see_all (contributions binding) []) _ resolved).0 h₁ in
    ap (λ (r : HttpBinding). wire_names (path_parameters r.parameters)) (sym (ok-injective h₂))
    ∙ renamed-path_names _ binding.parameters
