-- ===== src/Transports/Http/Headers.antt =====
-- The headers of a request that is built, and the parameters it needed.
use mcp_portal.Base.{
  >>=-eq-ok, All, Bool-cases, Dict, List, Option, Option-cases, Text, [], arith, contains, false,
  inl, inr, insert, lookup, lookup-insert, nat_eq, none, ok, ok-injective, option_eq, refl, some,
  sym, text_eq, true, ◌∙◌, ◌∷◌, ◌≡◌, ◌≢◌,
}
use mcp_portal.Json.{Json}
use mcp_portal.Operations.{
  BodySpec, HttpBinding, ParamLocation, Parameter, effect_eq, location_eq, sensitivity_eq,
}
use mcp_portal.Platform.{Platform}
use mcp_portal.Transports.Http.{
  Credential, Parts, PreparedRequest, build_content, build_request, check_header_value,
  encode_path_value, place, place_all, with_content_type, with_credential,
}

-- A header value that cannot end its line.
abbrev pub IsClean : Text → Type 0
IsClean value = (contains value 13 ≡ false) × (contains value 10 ≡ false)

abbrev pub AllClean : Dict Text Text → Type 0
AllClean headers = All (λ (h : Text × Text). IsClean h.1) headers

insert-AllClean :
    (name value : Text) (headers : Dict Text Text)
    → IsClean value
    → AllClean headers
    → AllClean (insert name value headers)
insert-AllClean name value [] v h = (v, tt)
insert-AllClean name value ((k, x) ∷ headers) v (hx, h) =
    ground (arith, insert-AllClean name value headers v h)

content_type-AllClean :
    (body : Option BodySpec) (headers : Dict Text Text)
    → ((b : BodySpec) → body ≡ some b → IsClean b.content_type)
    → AllClean headers
    → AllClean (with_content_type body headers)
content_type-AllClean none headers hb h = h
content_type-AllClean (some b) headers hb h = insert-AllClean _ _ headers (hb b refl) h

credential-AllClean :
    (credential : Option Credential) (headers : Dict Text Text)
    → ((c : Credential) → credential ≡ some c → IsClean c.value)
    → AllClean headers
    → AllClean (with_credential credential headers)
credential-AllClean none headers hc h = h
credential-AllClean (some c) headers hc h = insert-AllClean _ _ headers (hc c refl) h

-- The parameter has an argument, if it is required.
abbrev pub Given : Dict Text Json → Parameter → Type 0
Given arguments p = p.required ≡ true → lookup p.arg arguments ≢ none

module _ (py : Platform) where
  check_header_value-IsClean :
      (name value checked : Text) → check_header_value py name value ≡ ok checked → IsClean checked
  unfolding check_header_value
  check_header_value-IsClean name value checked h = ground arith

  place-AllClean :
      (location : ParamLocation) (p : Parameter) (value : Json) (parts parts' : Parts)
      → AllClean parts.headers
      → place py location p value parts ≡ ok parts'
      → AllClean parts'.headers
  unfolding place
  place-AllClean ParamLocation.path p value parts parts' a h =
      let (encoded, h₁, h₂) = >>=-eq-ok (encode_path_value py p.arg value) _ h in
      rw (sym (ok-injective h₂)) a
  place-AllClean ParamLocation.query p value parts parts' a h = rw (sym (ok-injective h)) a
  place-AllClean ParamLocation.header p value parts parts' a h =
      let (checked, h₁, h₂) =
        >>=-eq-ok (check_header_value py p.wire_name (py.str_value value)) _ h in
      rw (sym (ok-injective h₂)) (
        insert-AllClean p.wire_name checked parts.headers
          (check_header_value-IsClean p.wire_name (py.str_value value) checked h₁) a)

  place_all-AllClean :
      (ps : List Parameter) (arguments : Dict Text Json) (parts parts' : Parts)
      → AllClean parts.headers
      → place_all py ps arguments parts ≡ ok parts'
      → AllClean parts'.headers
  unfolding place_all
  place_all-AllClean [] arguments parts parts' a h = rw (sym (ok-injective h)) a
  place_all-AllClean (p ∷ ps) arguments parts parts' a h =
      elim (Option-cases (lookup p.arg arguments)) [
        | inl e ↦ place_all-AllClean ps arguments parts parts' a (ground arith)
        | inr (value, e) ↦
            let (middle, h₁, h₂) =
              >>=-eq-ok (place py p.location p value parts) (place_all py ps arguments)
                (rw (e, place_all) at h) in
            place_all-AllClean ps arguments middle parts'
              (place-AllClean p.location p value parts middle a h₁) h₂
      ]

  -- Whatever the arguments, no header value of a request that is built holds a carriage return
  -- or a line feed, if the operation's content type and the credential's value hold none.
  pub build_request-AllClean :
      (binding : HttpBinding) (base_url : Text) (arguments : Dict Text Json)
      (credential : Option Credential) (request : PreparedRequest)
      → ((b : BodySpec) → binding.body ≡ some b → IsClean b.content_type)
      → ((c : Credential) → credential ≡ some c → IsClean c.value)
      → build_request py binding base_url arguments credential ≡ ok request
      → AllClean request.headers
  unfolding build_request
  build_request-AllClean binding base_url arguments credential request hb hc h =
      let start : Parts = record { path = binding.path; query = []; headers = [] } in
      let (parts, placed, h₁) = >>=-eq-ok (place_all py binding.parameters arguments start) _ h in
      let (content, _, h₂) = >>=-eq-ok (build_content py binding.body arguments) _ h₁ in
      rw (sym (ok-injective h₂)) (
        credential-AllClean credential (with_content_type binding.body parts.headers) hc (
          content_type-AllClean binding.body parts.headers hb
            (place_all-AllClean binding.parameters arguments start parts tt placed)))

  -- The credential has the last word: whatever header parameters the arguments fill, the header
  -- of that name carries the credential's value.
  pub build_request-credential :
      (binding : HttpBinding) (base_url : Text) (arguments : Dict Text Json) (c : Credential)
      (request : PreparedRequest)
      → build_request py binding base_url arguments (some c) ≡ ok request
      → lookup c.header request.headers ≡ some c.value
  unfolding build_request
  build_request-credential binding base_url arguments c request h =
      let start : Parts = record { path = binding.path; query = []; headers = [] } in
      let (parts, placed, h₁) = >>=-eq-ok (place_all py binding.parameters arguments start) _ h in
      let (content, _, h₂) = >>=-eq-ok (build_content py binding.body arguments) _ h₁ in
      rw (sym (ok-injective h₂)) (
        lookup-insert c.header c.header c.value (with_content_type binding.body parts.headers)
        ∙ ground arith)

  place_all-Given :
      (ps : List Parameter) (arguments : Dict Text Json) (parts parts' : Parts)
      → place_all py ps arguments parts ≡ ok parts'
      → All (Given arguments) ps
  unfolding place_all
  place_all-Given [] arguments parts parts' h = tt
  place_all-Given (p ∷ ps) arguments parts parts' h = elim (Option-cases (lookup p.arg arguments)) [
    | inl e ↦ elim (Bool-cases p.required) [
      | inl r ↦ ground arith
      | inr r ↦ ((λ required missing. cc), place_all-Given ps arguments parts parts' (ground arith))
    ]
    | inr (value, e) ↦
        let (middle, h₁, h₂) =
          >>=-eq-ok (place py p.location p value parts) (place_all py ps arguments)
            (rw (e, place_all) at h) in
        ((λ required missing. cc), place_all-Given ps arguments middle parts' h₂)
  ]

  -- A request is built only when every required parameter has an argument.
  pub build_request-required :
      (binding : HttpBinding) (base_url : Text) (arguments : Dict Text Json)
      (credential : Option Credential) (request : PreparedRequest)
      → build_request py binding base_url arguments credential ≡ ok request
      → All (Given arguments) binding.parameters
  unfolding build_request
  build_request-required binding base_url arguments credential request h =
      let start : Parts = record { path = binding.path; query = []; headers = [] } in
      let (parts, placed, h₁) = >>=-eq-ok (place_all py binding.parameters arguments start) _ h in
      place_all-Given binding.parameters arguments start parts placed
