-- ===== src/Flatten/Template.antt =====
-- A path template that passes has exactly one required path parameter for each placeholder.
use mcp_portal.Base.{
  ==→≡, >>=-eq-ok, >>_iff, All, Bool, Bool-cases, Dict, Distinct, List, Text, [], ap, arith,
  contains, false, filter, guard, guard_iff, inl, inr, insert, is_empty, keys, lookup, map, nat_eq,
  none, not, ok, ok-injective, option_eq, refl, repeated-eq-nil, sym, text_eq, true, ◌++◌, ◌∙◌, ◌∷◌,
  ◌≡◌,
}
use mcp_portal.Operations.{HttpBinding, Parameter, effect_eq, location_eq, sensitivity_eq}
use mcp_portal.Naming.Unique.{is_empty→nil}
use mcp_portal.Flatten.{check_path_template, declare_all, declare_path, is_path, placeholders_of}

abbrev pub path_parameters : List Parameter → List Parameter
path_parameters ps = filter is_path ps

abbrev pub wire_names : List Parameter → List Text
wire_names ps = map (λ (p : Parameter). p.wire_name) ps

append_nil : (xs : List Text) → xs ++ [] ≡ xs
append_nil [] = refl
append_nil (x ∷ xs) = ap (λ ys. x ∷ ys) (append_nil xs)

append_assoc :
    (xs : List Text) (y : Text) (zs : List Text) → (xs ++ (y ∷ [])) ++ zs ≡ xs ++ (y ∷ zs)
append_assoc [] y zs = refl
append_assoc (x ∷ xs) y zs = ap (λ ys. x ∷ ys) (append_assoc xs y zs)

keys-insert_fresh :
    (k v : Text) (d : Dict Text Text) → lookup k d ≡ none → keys (insert k v d) ≡ keys d ++ (k ∷ [])
keys-insert_fresh k v [] h = refl
keys-insert_fresh k v ((j, w) ∷ d) h = ground (arith, keys-insert_fresh k v d)

lookup-none-keys : (k : Text) (d : Dict Text Text) → lookup k d ≡ none → contains (keys d) k ≡ false
lookup-none-keys k [] h = refl
lookup-none-keys k ((j, w) ∷ d) h = ground (arith, lookup-none-keys k d)

declare_path-eq-ok :
    (p : Parameter) (declared next : Dict Text Text)
    → declare_path p declared ≡ ok next
    → (p.required ≡ true)
      × (lookup p.wire_name declared ≡ none)
      × (insert p.wire_name p.arg declared ≡ next)
unfolding declare_path
declare_path-eq-ok p declared next h = ground arith

-- What is declared are the wire names of the path parameters, in their order.
declare_all-eq-ok :
    (ps : List Parameter) (declared result : Dict Text Text)
    → declare_all ps declared ≡ ok result
    → (keys result ≡ keys declared ++ wire_names (path_parameters ps))
      × All (λ (p : Parameter). p.required ≡ true) (path_parameters ps)
unfolding declare_all
declare_all-eq-ok [] declared result h =
    (ap keys (sym (ok-injective h)) ∙ sym (append_nil (keys declared)), tt)
declare_all-eq-ok (p ∷ ps) declared result h = elim (Bool-cases (is_path p)) [
  | inl e ↦
      let (next, h₁, h₂) =
        >>=-eq-ok (declare_path p declared) (declare_all ps) (rw (e, declare_all) at h) in
      let (required, fresh, same) = declare_path-eq-ok p declared next h₁ in
      let (listed, all_required) = declare_all-eq-ok ps next result h₂ in
      rw e (
        listed
            ∙ ap (λ ks. ks ++ wire_names (path_parameters ps))
                (ap keys (sym same) ∙ keys-insert_fresh p.wire_name p.arg declared fresh)
            ∙ append_assoc (keys declared) p.wire_name (wire_names (path_parameters ps)),
        (required, all_required),
      )
  | inr e ↦
      let (listed, all_required) =
        declare_all-eq-ok ps declared result (rw (e, declare_all) at h) in
      rw e (listed, all_required)
]

contains-unplaced :
    (placeholders : List Text) (declared : Dict Text Text)
    → is_empty (filter (λ (w, _). not (contains placeholders w)) declared) ≡ true
    → (w : Text) → contains (keys declared) w ≡ true
    → contains placeholders w ≡ true
contains-unplaced placeholders [] h w c = cc
contains-unplaced placeholders ((k, v) ∷ declared) h w c =
    ground (arith, ==→≡ w k, contains-unplaced placeholders declared _ w)

contains-unmatched :
    (declared placeholders : List Text)
    → is_empty (filter (λ p. not (contains declared p)) placeholders) ≡ true
    → (w : Text) → contains placeholders w ≡ true
    → contains declared w ≡ true
contains-unmatched declared [] h w c = cc
contains-unmatched declared (p ∷ placeholders) h w c =
    ground (arith, ==→≡ w p, contains-unmatched declared placeholders _ w)

Same-contains : (a b : Bool) → (a ≡ true → b ≡ true) → (b ≡ true → a ≡ true) → a ≡ b
Same-contains a b f g = ground (arith, f, g)

-- A path template that passes names each placeholder once, its placeholders are exactly the wire
-- names of its path parameters, and every path parameter is required.
pub check_path_template-Matched :
    (binding : HttpBinding)
    → check_path_template binding ≡ ok tt
    → Distinct (placeholders_of binding.path)
      × ((w : Text)
          → contains (placeholders_of binding.path) w
            ≡ contains (wire_names (path_parameters binding.parameters)) w)
      × All (λ (p : Parameter). p.required ≡ true) (path_parameters binding.parameters)
unfolding check_path_template
check_path_template-Matched binding h =
    let (once, h₁) = (>>_iff (guard _ _) _ tt).0 h in
    let (declared, listing, h₂) = >>=-eq-ok (declare_all binding.parameters []) _ h₁ in
    let (matched, h₃) = (>>_iff (guard _ _) _ tt).0 h₂ in
    let (listed, all_required) = declare_all-eq-ok binding.parameters [] declared listing in
    (
      repeated-eq-nil (placeholders_of binding.path) (is_empty→nil _ ((guard_iff _ _).0 once)),
      λ w.
          Same-contains _ _
            (λ c.
              ap (λ ks. contains ks w) (sym listed)
              ∙ (contains-unmatched (keys declared) _ ((guard_iff _ _).0 matched) w c))
            (λ c.
              contains-unplaced _ declared ((guard_iff _ _).0 h₃) w
                (ap (λ ks. contains ks w) listed ∙ c)),
      all_required,
    )
