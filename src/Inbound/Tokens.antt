-- ===== src/Inbound/Tokens.antt =====
-- What a token that passes has shown.
use mcp_portal.Base.{
  >>=-eq-ok, All, All-imp, Bool-cases, Dict, List, Option, Option-cases, Text, [], any, ap, arith,
  contains, contains-filter, false, if◌then◌else◌, inl, inr, is_empty, lookup, nat_eq, none, not,
  ok, ok-injective, option_eq, refl, some, subst, text, text_eq, true, ℕ, ◌==◌, ◌∙◌, ◌∷◌, ◌≡◌, ◌≢◌,
  ◌⊎◌,
}
use mcp_portal.Json.{Items, Json, arr, bool, null, num, obj, str}
use mcp_portal.Platform.{Platform}
use mcp_portal.Principal.{AccessToken}
use mcp_portal.Jwks.{
  Authenticates, JsonResponse, JwksCache, as_text, key_for, maybe_refresh, parsed,
}
use mcp_portal.Inbound.{
  Jwt, JwtTokenVerifier, allowed_algorithm, check_claims, check_header, check_key, check_signature,
  details_are_a_list, granted_token, jwt_verifier, scopes_from_claims, str_values, subject_of,
  typ_accepted, verify_token,
}
use mcp_portal.Jwks.Discovery.{as_text-some}

key_for-lookup :
    (client : Text → Option JsonResponse) (jwks_uri : Text) (now : ℕ) (kid : Text)
    (cache after : JwksCache) (found : Option Json)
    → key_for client jwks_uri now kid cache ≡ ok (found, after)
    → lookup kid after.keys ≡ found
unfolding key_for
key_for-lookup client jwks_uri now kid cache after found h =
    elim (Option-cases (lookup kid cache.keys)) [
      | inl e ↦
          let (c, _, h₁) =
            >>=-eq-ok (maybe_refresh client jwks_uri now cache) _ (rw (key_for, e) at h) in
          let pairs = ok-injective h₁ in
          subst (λ (p : Option Json × JwksCache). lookup kid p.1.keys ≡ p.0) pairs refl
      | inr (j, e) ↦
          let pairs = ok-injective (rw (key_for, e) at h) in
          subst (λ (p : Option Json × JwksCache). lookup kid p.1.keys ≡ p.0) pairs e
    ]

allowed_algorithm-some :
    (j : Option Json) (algorithms : List Text) (alg : Text)
    → allowed_algorithm j algorithms ≡ ok (some alg)
    → (j ≡ some (str alg)) × (contains algorithms alg ≡ true)
unfolding allowed_algorithm
allowed_algorithm-some none algorithms alg h = cc
allowed_algorithm-some (some (str s)) algorithms alg h = ground arith
allowed_algorithm-some (some null) algorithms alg h = cc
allowed_algorithm-some (some (bool b)) algorithms alg h = cc
allowed_algorithm-some (some (num n)) algorithms alg h = cc
allowed_algorithm-some (some (arr xs)) algorithms alg h = cc
allowed_algorithm-some (some (obj fs)) algorithms alg h = cc

module _ (py : Platform) (jwt : Jwt) (verifier : JwtTokenVerifier) (token : Text) where
  -- The claims hold a scope: it is one that an array `scp` lists, or, without such an array, one
  -- that the text `scope` splits into.
  abbrev pub Claims : Dict Text Json → Text → Type 0
  Claims claims s =
      ((xs : Items) × (lookup (text "scp") claims ≡ some (arr xs))
        × (contains (str_values py xs) s ≡ true))
      ⊎ ((scope : Text) × (lookup (text "scope") claims ≡ some (str scope))
          × ((xs : Items) → lookup (text "scp") claims ≢ some (arr xs))
          × (contains (jwt.split scope) s ≡ true))

  -- The claims have the form and the scopes that are asked for, and the token carries them.
  pub record IsGranted (claims : Dict Text Json) (t : AccessToken) : Type 0 where
    pub details : details_are_a_list (lookup (text "authorization_details") claims) ≡ true
    pub scoped : All (Claims claims) verifier.required_scopes
    pub same_scopes : t.scopes ≡ scopes_from_claims py jwt.split claims
    pub same_token : t.token ≡ token
    pub same_claims : t.claims ≡ some claims

  -- The token is signed by a key of the cache, with an algorithm of the verifier.
  pub record IsVerified (keys : Dict Text Json) (t : AccessToken) : Type 0 where
    pub header : Dict Text Json
    pub alg : Text
    pub kid : Text
    pub jwk : Json
    pub claims : Dict Text Json
    pub is_header : jwt.get_unverified_header token ≡ some header
    pub has_alg : lookup (text "alg") header ≡ some (str alg)
    pub allowed : contains verifier.algorithms alg ≡ true
    pub typed : typ_accepted py (lookup (text "typ") header) ≡ true
    pub has_kid : lookup (text "kid") header ≡ some (str kid)
    pub has_key : lookup kid keys ≡ some jwk
    pub signed :
        jwt.decode token jwk alg verifier.issuer verifier.audience verifier.leeway_s ≡ some claims
    pub granted : IsGranted claims t

  from_scope :
      (o : Option Text) (s : Text)
      → contains
          (elim o [ some scope ↦ if is_empty scope then [] else jwt.split scope | none ↦ [] ])
          s
        ≡ true
      → (scope : Text) × (o ≡ some scope) × (contains (jwt.split scope) s ≡ true)
  from_scope none s h = cc
  from_scope (some []) s h = cc
  from_scope (some (c ∷ scope)) s h = (c ∷ scope, refl, h)

  split_scope :
      (claims : Dict Text Json) (s : Text)
      → ((xs : Items) → lookup (text "scp") claims ≢ some (arr xs))
      → contains
          (elim (as_text (lookup (text "scope") claims)) [
            | some scope ↦ if is_empty scope then [] else jwt.split scope
            | none ↦ []
          ])
          s
        ≡ true
      → Claims claims s
  split_scope claims s unlisted h =
      let (scope, e, m) = from_scope (as_text (lookup (text "scope") claims)) s h in
      inr (scope, as_text-some (lookup (text "scope") claims) scope e, unlisted, m)

  scopes_from_claims-Claims :
      (claims : Dict Text Json) (s : Text) (scp : Option Json)
      → lookup (text "scp") claims ≡ scp
      → contains (scopes_from_claims py jwt.split claims) s ≡ true
      → Claims claims s
  unfolding scopes_from_claims
  scopes_from_claims-Claims claims s (some (arr xs)) e h =
      inl (xs, e, rw (scopes_from_claims, e) at h)
  scopes_from_claims-Claims claims s none e h =
      split_scope claims s (λ xs same. cc) (rw (scopes_from_claims, e) at h)
  scopes_from_claims-Claims claims s (some null) e h =
      split_scope claims s (λ xs same. cc) (rw (scopes_from_claims, e) at h)
  scopes_from_claims-Claims claims s (some (bool b)) e h =
      split_scope claims s (λ xs same. cc) (rw (scopes_from_claims, e) at h)
  scopes_from_claims-Claims claims s (some (num n)) e h =
      split_scope claims s (λ xs same. cc) (rw (scopes_from_claims, e) at h)
  scopes_from_claims-Claims claims s (some (str t)) e h =
      split_scope claims s (λ xs same. cc) (rw (scopes_from_claims, e) at h)
  scopes_from_claims-Claims claims s (some (obj fs)) e h =
      split_scope claims s (λ xs same. cc) (rw (scopes_from_claims, e) at h)

  missing-All :
      (scopes required : List Text)
      → any (λ s. not (contains scopes s)) required ≡ false
      → All (λ s. contains scopes s ≡ true) required
  missing-All scopes [] h = tt
  missing-All scopes (s ∷ required) h = (ground arith, missing-All scopes required (ground arith))

  granted_token-fields :
      (claims : Dict Text Json) (scopes : List Text) (exp : Json) (subject : Option Text)
      (t : AccessToken)
      → granted_token py jwt verifier token claims scopes exp subject ≡ ok t
      → (t.token ≡ token) × (t.scopes ≡ scopes) × (t.claims ≡ some claims)
  unfolding granted_token
  granted_token-fields claims scopes exp subject t h = elim (Option-cases (jwt.int exp)) [
    | inl e ↦ ground arith
    | inr (expires_at, e) ↦
        let same = ok-injective (rw (granted_token, e) at h) in
        subst
          (λ (u : AccessToken). (u.token ≡ token) × (u.scopes ≡ scopes) × (u.claims ≡ some claims))
          same (refl, refl, refl)
  ]

  check_claims-IsGranted :
      (claims : Dict Text Json) (t : AccessToken)
      → check_claims py jwt verifier token claims ≡ ok (some t)
      → IsGranted claims t
  unfolding check_claims
  check_claims-IsGranted claims t h =
      let scopes = scopes_from_claims py jwt.split claims in
      elim (Bool-cases (details_are_a_list (lookup (text "authorization_details") claims))) [
        | inr d ↦ absurd (no_token t (rw (check_claims, d) at h))
        | inl d ↦ elim (Bool-cases (any (λ s. not (contains scopes s)) verifier.required_scopes)) [
          | inl m ↦ absurd (no_token t (rw (check_claims, d, m) at h))
          | inr m ↦
              let (exp, _, h₁) =
                >>=-eq-ok (parsed (lookup (text "exp") claims)) _ (rw (check_claims, d, m) at h) in
              let (subject, _, h₂) = >>=-eq-ok (subject_of (lookup (text "sub") claims)) _ h₁ in
              let (access, granted, h₃) =
                >>=-eq-ok (granted_token py jwt verifier token claims scopes exp subject) _ h₂ in
              let same : access ≡ t = cc in
              let (same_token, same_scopes, same_claims) =
                granted_token-fields claims scopes exp subject t (granted ∙ ap ok same) in
              record {
                details = d;
                scoped =
                    All-imp verifier.required_scopes
                      (λ s. scopes_from_claims-Claims claims s (lookup (text "scp") claims) refl)
                      (missing-All scopes verifier.required_scopes m);
                same_scopes = same_scopes;
                same_token = same_token;
                same_claims = same_claims;
              }
        ]
      ]
    where
      no_token :
          (u : AccessToken) → ◌≢◌ {A = Authenticates (Option AccessToken)} (ok none) (ok (some u))
      no_token u e = cc

  check_signature-IsGranted :
      (alg : Text) (found : Option Json) (t : AccessToken)
      → check_signature py jwt verifier token alg found ≡ ok (some t)
      → (jwk : Json) × (claims : Dict Text Json) × (found ≡ some jwk)
        × (jwt.decode token jwk alg verifier.issuer verifier.audience verifier.leeway_s
            ≡ some claims)
        × IsGranted claims t
  unfolding check_signature
  check_signature-IsGranted alg none t h = cc
  check_signature-IsGranted alg (some jwk) t h =
      elim (Option-cases
        (jwt.decode token jwk alg verifier.issuer verifier.audience verifier.leeway_s)) [
          | inl e ↦ ground arith
          | inr (claims, e) ↦
              (jwk, claims, refl, e, check_claims-IsGranted claims t (rw (check_signature, e) at h))
        ]

  check_key-IsGranted :
      (client : Text → Option JsonResponse) (jwks_uri : Text) (now : ℕ) (cache after : JwksCache)
      (t : AccessToken) (alg kid : Text)
      → check_key py jwt verifier token client jwks_uri now cache alg (some kid)
        ≡ ok (some t, after)
      → (jwk : Json) × (claims : Dict Text Json) × (lookup kid after.keys ≡ some jwk)
        × (jwt.decode token jwk alg verifier.issuer verifier.audience verifier.leeway_s
            ≡ some claims)
        × IsGranted claims t
  unfolding check_key
  check_key-IsGranted client jwks_uri now cache after t alg kid h =
      let (found, looked, h₁) = >>=-eq-ok (key_for client jwks_uri now kid cache) _ h in
      let (verdict, checked, h₂) =
        >>=-eq-ok (check_signature py jwt verifier token alg found.0) _ h₁ in
      let passed : verdict ≡ some t = cc in
      let kept : found.1 ≡ after = cc in
      let (jwk, claims, has, signed, granted) =
        check_signature-IsGranted alg found.0 t (checked ∙ ap ok passed) in
      (
        jwk,
        claims,
        subst (λ (c : JwksCache). lookup kid c.keys ≡ some jwk) kept
            (key_for-lookup client jwks_uri now kid cache found.1 found.0 looked ∙ has),
        signed,
        granted,
      )

  verified :
      (client : Text → Option JsonResponse) (jwks_uri : Text) (now : ℕ) (cache after : JwksCache)
      (t : AccessToken)
      → verify_token py jwt verifier token client jwks_uri now cache ≡ ok (some t, after)
      → IsVerified after.keys t
  unfolding verify_token check_header check_key
  verified client jwks_uri now cache after t h =
      elim (Option-cases (jwt.get_unverified_header token)) [
        | inl e ↦ absurd (denied (rw (verify_token, e) at h))
        | inr (header, e) ↦
            let (chosen, from_header, h₁) =
              >>=-eq-ok (allowed_algorithm (lookup (text "alg") header) verifier.algorithms) _
                (rw (verify_token, e) at h) in
            elim (Option-cases chosen) [
              | inl c ↦ absurd (denied (rw (c, check_header) at h₁))
              | inr (alg, c) ↦
                  let (has_alg, allowed) =
                    allowed_algorithm-some _ verifier.algorithms alg (from_header ∙ ap ok c) in
                  elim (Bool-cases (typ_accepted py (lookup (text "typ") header))) [
                    | inr f ↦ absurd (denied (rw (c, check_header, f) at h₁))
                    | inl f ↦ elim (Option-cases (as_text (lookup (text "kid") header))) [
                      | inl k ↦ absurd (denied (rw (c, check_header, f, k) at h₁))
                      | inr (kid, k) ↦
                          let (jwk, claims, has_key, signed, granted) =
                            check_key-IsGranted client jwks_uri now cache after t alg kid
                              (rw (c, check_header, f, k) at h₁) in
                          record {
                            header = header;
                            alg = alg;
                            kid = kid;
                            jwk = jwk;
                            claims = claims;
                            is_header = e;
                            has_alg = has_alg;
                            allowed = allowed;
                            typed = f;
                            has_kid = as_text-some (lookup (text "kid") header) kid k;
                            has_key = has_key;
                            signed = signed;
                            granted = granted;
                          }
                    ]
                  ]
            ]
      ]
    where
      denied :
          ◌≢◌ {A = Authenticates (Option AccessToken × JwksCache)}
            (ok (none, cache))
            (ok (some t, after))
      denied e = cc

-- A token that is verified has a header of an accepted `typ` and of an algorithm that is listed
-- and is not `none`, is signed by the key which the cache holds under its key id, and its claims
-- hold every scope that is required, in the array `scp` or, without one, in the text `scope`, and
-- a list of authorization details, if any; the answer carries these claims and their scopes.
pub verify_token-IsVerified :
    (py : Platform) (jwt : Jwt) (issuer audience : Text) (algorithms required_scopes : List Text)
    (leeway_s : ℕ) (token : Text) (client : Text → Option JsonResponse) (jwks_uri : Text) (now : ℕ)
    (cache after : JwksCache) (t : AccessToken)
    → verify_token py jwt
        (jwt_verifier issuer audience algorithms required_scopes leeway_s)
        token
        client
        jwks_uri
        now
        cache
      ≡ ok (some t, after)
    → (v : IsVerified py jwt
        (jwt_verifier issuer audience algorithms required_scopes leeway_s)
        token
        after.keys
        t)
      × (contains algorithms v.alg ≡ true)
      × (v.alg ≢ text "none")
unfolding jwt_verifier
verify_token-IsVerified py jwt issuer audience algorithms required_scopes leeway_s token client
      jwks_uri now cache after t h =
    let verifier = jwt_verifier issuer audience algorithms required_scopes leeway_s in
    let v = verified py jwt verifier token client jwks_uri now cache after t h in
    let listed = contains-filter (λ a. not (a == text "none")) algorithms v.alg in
    let allowed = v.allowed in (v, ground arith, λ e. ground arith)
