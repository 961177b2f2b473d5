-- ===== src/Loader/Denylist.antt =====
-- What the denylist of headers keeps out of a request.
use mcp_portal.Base.{
  >>=-eq-ok, >>_iff, All, Dict, List, Option, Option-cases, Text, [], ap, arith, false, inl, inr,
  insert, lookup, map, nat_eq, none, ok, ok-injective, option_eq, refl, some, subst, sym, text,
  text_eq, ◌∙◌, ◌∷◌, ◌≡◌,
}
use mcp_portal.Operations.{
  BodySpec, HttpBinding, ParamLocation, Parameter, effect_eq, location_eq, sensitivity_eq,
}
use mcp_portal.Platform.{Platform}
use mcp_portal.Config.{HttpBindingEntry, OperationEntry, ParameterEntry, http_entry}
use mcp_portal.Explicit.{http_binding, parameter_of}
use mcp_portal.Flatten.{
  check_content_type, contributions, rename, renamed, resolve_arg_names, see_all,
}
use mcp_portal.Flatten.Arguments.{rename-same}
use mcp_portal.Loader.{check_entries, check_entry, check_parameter, check_parameters, is_denylisted}
use mcp_portal.Json.{Json}
use mcp_portal.Transports.Http.{
  Parts, check_header_value, encode_path_value, place, place_all, with_content_type,
}

module _ (py : Platform) where
  -- A header parameter that the denylist lets through.
  abbrev pub IsAllowed : List Text → Parameter → Type 0
  IsAllowed extra p = p.location ≡ ParamLocation.header → is_denylisted py p.wire_name extra ≡ false

  abbrev pub EntryAllowed : List Text → OperationEntry → Type 0
  EntryAllowed extra op =
      (b : HttpBindingEntry)
      → op.binding ≡ http_entry b
      → All (IsAllowed extra) (http_binding py b).parameters

  check_parameters-Allowed :
      (op_id : Text) (extra : List Text) (ps : List ParameterEntry)
      → check_parameters py op_id extra ps ≡ ok tt
      → All (IsAllowed extra) (map parameter_of ps)
  unfolding check_parameters check_parameter parameter_of
  check_parameters-Allowed op_id extra [] h = tt
  check_parameters-Allowed op_id extra (p ∷ ps) h =
      let (one, rest) =
        (>>_iff (check_parameter py op_id extra p) (check_parameters py op_id extra ps) tt).0 h in
      (one_allowed one, check_parameters-Allowed op_id extra ps rest)
    where
      one_allowed : check_parameter py op_id extra p ≡ ok tt → IsAllowed extra (parameter_of p)
      one_allowed one = ground arith

  pub check_entries-Allowed :
      (extra : List Text) (ops : List OperationEntry)
      → check_entries py extra ops ≡ ok tt
      → All (EntryAllowed extra) ops
  unfolding check_entries check_entry http_binding
  check_entries-Allowed extra [] h = tt
  check_entries-Allowed extra (op ∷ ops) h =
      let (one, rest) = (>>_iff (check_entry py extra op) (check_entries py extra ops) tt).0 h in
      (
        λ b e. check_parameters-Allowed op.id extra b.parameters (rw e at one),
        check_entries-Allowed extra ops rest,
      )

  rename-Allowed :
      (extra names : List Text) (ps : List Parameter)
      → All (IsAllowed extra) ps
      → All (IsAllowed extra) (map (rename names) ps)
  rename-Allowed extra names [] a = tt
  rename-Allowed extra names (p ∷ ps) (a, as') =
      let (same_name, same_place, _) = rename-same names p in
      (
        λ h. ap (λ n. is_denylisted py n extra) same_name ∙ a (sym same_place ∙ h),
        rename-Allowed extra names ps as',
      )

  pub resolved-Allowed :
      (extra : List Text) (binding resolved : HttpBinding)
      → resolve_arg_names binding ≡ ok resolved
      → All (IsAllowed extra) binding.parameters
      → All (IsAllowed extra) resolved.parameters
  unfolding resolve_arg_names renamed
  resolved-Allowed extra binding resolved h a =
      let (_, h₁) = (>>_iff (check_content_type binding.body) _ resolved).0 h in
      let (_, h₂) = (>>_iff (see_all (contributions binding) []) _ resolved).0 h₁ in
      subst (λ (r : HttpBinding). All (IsAllowed extra) r.parameters) (ok-injective h₂)
        (rename-Allowed extra _ binding.parameters a)

  -- Every name among the headers has the property.
  abbrev pub Named : (Text → Type 0) → Dict Text Text → Type 0
  Named P headers = All (λ (h : Text × Text). P h.0) headers

  pub insert-Named :
      (P : Text → Type 0) (name value : Text) (headers : Dict Text Text)
      → P name
      → Named P headers
      → Named P (insert name value headers)
  insert-Named P name value [] n h = (n, tt)
  insert-Named P name value ((k, x) ∷ headers) n (hx, h) =
      ground (arith, insert-Named P name value headers n h)

  module _ (P : Text → Type 0) where
    abbrev Fits : Parameter → Type 0
    Fits p = p.location ≡ ParamLocation.header → P p.wire_name

    place-Named :
        (location : ParamLocation) (p : Parameter) (value : Json) (parts parts' : Parts)
        → (location ≡ ParamLocation.header → P p.wire_name)
        → Named P parts.headers
        → place py location p value parts ≡ ok parts'
        → Named P parts'.headers
    unfolding place
    place-Named ParamLocation.path p value parts parts' f a h =
        let (encoded, h₁, h₂) = >>=-eq-ok (encode_path_value py p.arg value) _ h in
        rw (sym (ok-injective h₂)) a
    place-Named ParamLocation.query p value parts parts' f a h = rw (sym (ok-injective h)) a
    place-Named ParamLocation.header p value parts parts' f a h =
        let (checked, h₁, h₂) =
          >>=-eq-ok (check_header_value py p.wire_name (py.str_value value)) _ h in
        rw (sym (ok-injective h₂)) (insert-Named P p.wire_name checked parts.headers (f refl) a)

    pub place_all-Named :
        (ps : List Parameter) (arguments : Dict Text Json) (parts parts' : Parts)
        → All Fits ps
        → Named P parts.headers
        → place_all py ps arguments parts ≡ ok parts'
        → Named P parts'.headers
    unfolding place_all
    place_all-Named [] arguments parts parts' f a h = rw (sym (ok-injective h)) a
    place_all-Named (p ∷ ps) arguments parts parts' (f, fs) a h =
        elim (Option-cases (lookup p.arg arguments)) [
          | inl e ↦ place_all-Named ps arguments parts parts' fs a (ground arith)
          | inr (value, e) ↦
              let (middle, h₁, h₂) =
                >>=-eq-ok (place py p.location p value parts) (place_all py ps arguments)
                  (rw (e, place_all) at h) in
              place_all-Named ps arguments middle parts' fs
                (place-Named p.location p value parts middle f a h₁) h₂
        ]

    pub content_type-Named :
        (body : Option BodySpec) (headers : Dict Text Text)
        → P (text "Content-Type")
        → Named P headers
        → Named P (with_content_type body headers)
    content_type-Named none headers n h = h
    content_type-Named (some b) headers n h = insert-Named P _ b.content_type headers n h
