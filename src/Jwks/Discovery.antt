-- ===== src/Jwks/Discovery.antt =====
-- Where the keys of the identity provider are found.
use mcp_portal.Base.{
  ==→≡, >>=-eq-ok, Any, Bool-cases, List, Option, Option-cases, Text, [], ap, arith, inl, inr,
  lookup, nat_eq, none, ok, ok-injective, option_eq, refl, some, text, text_eq, ◌++◌, ◌==◌, ◌∙◌,
  ◌∷◌, ◌≡◌,
}
use mcp_portal.Json.{Fields, Json, arr, bool, fields, null, num, obj, str}
use mcp_portal.Jwks.{
  JsonResponse, as_text, discover, discover_jwks_uri, discovery_suffixes, get, jwks_uri_of, parsed,
  rstrip_slashes,
}

-- The response is a document that answers 200 and names the URI.
abbrev pub Names : Option JsonResponse → Text → Type 0
Names answer uri =
    (response : JsonResponse) × (payload : Fields) × (answer ≡ some response)
    × (response.status_code ≡ 200)
    × (response.json ≡ some (obj payload))
    × (lookup (text "jwks_uri") (fields payload) ≡ some (str uri))

pub as_text-some : (j : Option Json) (s : Text) → as_text j ≡ some s → j ≡ some (str s)
as_text-some none s h = cc
as_text-some (some (str t)) s h = rw (some-injective h) refl
  where
    some-injective : ◌≡◌ {A = Option Text} (some t) (some s) → t ≡ s
    some-injective h = cc
as_text-some (some null) s h = cc
as_text-some (some (bool b)) s h = cc
as_text-some (some (num n)) s h = cc
as_text-some (some (arr xs)) s h = cc
as_text-some (some (obj fs)) s h = cc

get-obj :
    (name : Text) (j : Json) (v : Option Json)
    → get name j ≡ ok v
    → (fs : Fields) × (j ≡ obj fs) × (lookup name (fields fs) ≡ v)
unfolding get
get-obj name (obj fs) v h = (fs, refl, ok-injective h)
get-obj name null v h = cc
get-obj name (bool b) v h = cc
get-obj name (num n) v h = cc
get-obj name (str s) v h = cc
get-obj name (arr xs) v h = cc

parsed-some : (j : Option Json) (v : Json) → parsed j ≡ ok v → j ≡ some v
parsed-some none v h = cc
parsed-some (some j) v h = ap some (ok-injective h)

jwks_uri_of-Names :
    (answer : Option JsonResponse) (uri : Text)
    → jwks_uri_of answer ≡ ok (some uri)
    → Names answer uri
unfolding jwks_uri_of
jwks_uri_of-Names none uri h = cc
jwks_uri_of-Names (some response) uri h = elim (Bool-cases (response.status_code == 200)) [
  | inr e ↦ ground arith
  | inl e ↦
      let (payload, is_json, h₁) = >>=-eq-ok (parsed response.json) _ (rw e at h) in
      let (found, is_uri, h₂) = >>=-eq-ok (get (text "jwks_uri") payload) _ h₁ in
      let (fs, same, at_name) = get-obj (text "jwks_uri") payload found is_uri in
      (
        response,
        fs,
        refl,
        ==→≡ response.status_code 200 e,
        parsed-some response.json payload is_json ∙ ap some same,
        at_name ∙ as_text-some found uri (ok-injective h₂),
      )
]

discover-Names :
    (client : Text → Option JsonResponse) (base : Text) (suffixes : List Text) (uri : Text)
    → discover client base suffixes ≡ ok uri
    → Any (λ suffix. Names (client (base ++ suffix)) uri) suffixes
unfolding discover
discover-Names client base [] uri h = cc
discover-Names client base (suffix ∷ suffixes) uri h =
    let (found, here, h₁) = >>=-eq-ok (jwks_uri_of (client (base ++ suffix))) _ h in
    elim (Option-cases found) [
      | inl e ↦ inr (discover-Names client base suffixes uri (rw e at h₁))
      | inr (u, e) ↦ inl (
          jwks_uri_of-Names (client (base ++ suffix)) uri
            (here ∙ ap ok (e ∙ ap some (ok-injective (rw e at h₁)))))
    ]

-- A URI that is discovered is the one that a document names which answers 200 at one of the
-- issuer's two places.
pub discover_jwks_uri-Names :
    (client : Text → Option JsonResponse) (issuer uri : Text)
    → discover_jwks_uri client issuer ≡ ok uri
    → Any (λ suffix. Names (client (rstrip_slashes issuer ++ suffix)) uri) discovery_suffixes
unfolding discover_jwks_uri
discover_jwks_uri-Names client issuer uri h =
    discover-Names client (rstrip_slashes issuer) discovery_suffixes uri h
