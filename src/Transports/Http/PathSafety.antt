-- ===== src/Transports/Http/PathSafety.antt =====
-- No argument changes the shape of the path.
use mathlib.Core.Bool.{false≢true}
use mcp_portal.Base.{
  ==→≡, >>=-eq-ok, All, Bool-cases, Dict, List, Option, Option-cases, Text, [], all, and-left,
  and-right, ap, arith, contains, count, false, guard, inl, inr, insert, is_empty, lookup, nat_eq,
  not, ok, ok-injective, option_eq, refl, sym, text_eq, true, ℕ, ◌++◌, ◌==◌, ◌||◌, ◌∙◌, ◌∷◌, ◌≡◌,
  ◌≢◌,
}
use mcp_portal.Json.{Json, str}
use mcp_portal.Operations.{
  HttpBinding, ParamLocation, Parameter, effect_eq, location_eq, sensitivity_eq,
}
use mcp_portal.Platform.{IsLawful, Platform}
use mcp_portal.Transports.Quote.Safe.{is_quoted, quote-quoted, quote_unreserved}
use mcp_portal.Transports.Quote.{is_unreserved, quote}
use mcp_portal.Transports.Replace.Counts.{count-replace}
use mcp_portal.Transports.Replace.{replace}
use mcp_portal.Transports.Http.{
  Credential, Parts, PreparedRequest, build_content, build_request, check_header_value,
  empty_path_value, encode_path_value, join_url, place, place_all, placeholder, with_query,
}

-- The character can stand in no encoded value and in no placeholder's braces.
abbrev pub IsDelimiter : ℕ → Type 0
IsDelimiter c = (is_quoted c ≡ false) × (c ≢ b'{') × (c ≢ b'}')

quoted-absent :
    (c : ℕ) (s : Text) → all is_quoted s ≡ true → is_quoted c ≡ false → contains s c ≡ false
quoted-absent c [] h n = refl
quoted-absent c (x ∷ s) h n = elim (Bool-cases (c == x)) [
  | inl e ↦ absurd (false≢true (sym n ∙ rw (==→≡ c x e) (and-left _ _ h)))
  | inr e ↦ rw e (quoted-absent c s (and-right _ _ h) n)
]

contains-append : (c : ℕ) (xs ys : Text) → contains (xs ++ ys) c ≡ (contains xs c || contains ys c)
contains-append c [] ys = refl
contains-append c (x ∷ xs) ys = ground (arith, contains-append c xs ys)

placeholder-absent :
    (c : ℕ) (wire_name : Text)
    → IsDelimiter c
    → contains wire_name c ≡ false
    → contains (placeholder wire_name) c ≡ false
placeholder-absent c wire_name (_, open_brace, close_brace) h =
    ground (arith, contains-append c wire_name (b'}' ∷ []))

-- The character is not in the parameter's wire name.
abbrev pub Absent : ℕ → Parameter → Type 0
Absent c p = contains p.wire_name c ≡ false

module _ (py : Platform) (c : ℕ) (delimiter : IsDelimiter c) where
  encoded-absent :
      (arg : Text) (value : Json) (encoded : Text)
      → encode_path_value py arg value ≡ ok encoded
      → contains encoded c ≡ false
  unfolding encode_path_value
  encoded-absent arg value encoded h =
      let (u, h₁, h₂) =
        >>=-eq-ok (guard (not (is_empty (py.str_value value))) (empty_path_value arg))
          (λ u. ok (quote (py.str_value value))) h in
      rw (sym (ok-injective h₂)) (
        quoted-absent c (quote (py.str_value value)) (quote-quoted (py.str_value value))
          delimiter.0)

  place-count :
      (location : ParamLocation) (p : Parameter) (value : Json) (parts parts' : Parts)
      → Absent c p
      → place py location p value parts ≡ ok parts'
      → count c parts'.path ≡ count c parts.path
  unfolding place encode_path_value check_header_value
  place-count ParamLocation.path p value parts parts' a h =
      let (encoded, h₁, h₂) =
        >>=-eq-ok (encode_path_value py p.arg value)
          (λ encoded.
            ok (record parts { path = replace (placeholder p.wire_name) encoded parts.path }))
          h in
      ap (λ (q : Parts). count c q.path) (sym (ok-injective h₂))
      ∙ count-replace c b'{' (p.wire_name ++ (b'}' ∷ [])) encoded parts.path
          (placeholder-absent c p.wire_name delimiter a) (encoded-absent p.arg value encoded h₁)
  place-count ParamLocation.query p value parts parts' a h =
      ap (λ (q : Parts). count c q.path) (sym (ok-injective h))
  place-count ParamLocation.header p value parts parts' a h =
      let (checked, h₁, h₂) =
        >>=-eq-ok (check_header_value py p.wire_name (py.str_value value))
          (λ checked. ok (record parts { headers = insert p.wire_name checked parts.headers })) h in
      ap (λ (q : Parts). count c q.path) (sym (ok-injective h₂))

  place_all-count :
      (ps : List Parameter) (arguments : Dict Text Json) (parts parts' : Parts)
      → All (Absent c) ps
      → place_all py ps arguments parts ≡ ok parts'
      → count c parts'.path ≡ count c parts.path
  unfolding place_all
  place_all-count [] arguments parts parts' a h =
      ap (λ (q : Parts). count c q.path) (sym (ok-injective h))
  place_all-count (p ∷ ps) arguments parts parts' (a, as') h =
      elim (Option-cases (lookup p.arg arguments)) [
        | inl e ↦ place_all-count ps arguments parts parts' as' (ground arith)
        | inr (value, e) ↦
            let (middle, h₁, h₂) =
              >>=-eq-ok (place py p.location p value parts) (place_all py ps arguments)
                (rw (e, place_all) at h) in
            place_all-count ps arguments middle parts' as' h₂
            ∙ place-count p.location p value parts middle a h₁
      ]

  -- The arguments do not change the shape of the path. A character such as '/', '?' or '#', which
  -- is in no percent-encoded value, is no brace and is in no wire name, stands in the path of a
  -- request that is built as often as in the path of the operation's binding.
  pub build_request-path :
      (binding : HttpBinding) (base_url : Text) (arguments : Dict Text Json)
      (credential : Option Credential) (request : PreparedRequest)
      → All (Absent c) binding.parameters
      → build_request py binding base_url arguments credential ≡ ok request
      → (path : Text) × (query : List (Text × Text)) × (request.url
          ≡ with_query query (join_url base_url path))
        × (count c path ≡ count c binding.path)
  unfolding build_request
  build_request-path binding base_url arguments credential request a h =
      let start : Parts = record { path = binding.path; query = []; headers = [] } in
      let (parts, placed, h₁) = >>=-eq-ok (place_all py binding.parameters arguments start) _ h in
      let (content, _, h₂) = >>=-eq-ok (build_content py binding.body arguments) _ h₁ in
      (
        parts.path,
        parts.query,
        ap (λ (r : PreparedRequest). r.url) (sym (ok-injective h₂)),
        place_all-count binding.parameters arguments start parts a placed,
      )

-- A path value that is a text of unreserved characters, and not empty, stands in the path as it
-- is: the dot segments `.` and `..` are such texts.
pub encode_path_value-unreserved :
    (py : Platform) (arg s : Text) (c : ℕ)
    → IsLawful py
    → all is_unreserved (c ∷ s) ≡ true
    → encode_path_value py arg (str (c ∷ s)) ≡ ok (c ∷ s)
unfolding encode_path_value
encode_path_value-unreserved py arg s c lawful h =
    rw (lawful.str_value_text (c ∷ s), quote_unreserved (c ∷ s) h) refl
