-- ===== src/Outbound/Sent.antt =====
-- What the identity provider is asked for.
use mcp_portal.Base.{
  Dict, List, Option, Text, [], eq_self, false, lookup, lookup-insert, nat_eq, none, ok, option_eq,
  refl, some, text, text_eq, ℕ, ◌==◌, ◌>>=◌, ◌∙◌, ◌∷◌, ◌≡◌,
}
use mcp_portal.Json.{Json, arr}
use mcp_portal.Platform.{Platform}
use mcp_portal.Rar.{AuthorizationDetail, parse_authorization_details}
use mcp_portal.Outbound.{
  Acquires, ClientCredentialsSource, Idp, TokenExchangeSource, authorization_details_json,
  credentials_fetch, credentials_form, detail_objects, exchange_fetch, exchange_form,
  post_token_request, put, scope_of, secret_of, sorted_scopes, subject_ttl,
}
use mcp_portal.Outbound.Details.{parse_authorization_details-detail_objects}

lookup-put :
    (k name : Text) (value : Option Text) (form : Dict Text Text)
    → (k == name) ≡ false
    → lookup k (put name value form) ≡ lookup k form
unfolding put
lookup-put k name none form h = refl
lookup-put k name (some value) form h = lookup-insert k name value form ∙ rw h refl

lookup-put_here :
    (name : Text) (value : Option Text) (form : Dict Text Text)
    → lookup name form ≡ none
    → lookup name (put name value form) ≡ value
unfolding put
lookup-put_here name none form h = h
lookup-put_here name (some value) form h =
    lookup-insert name name value form ∙ rw (eq_self name) refl

module _ (py : Platform) where
  -- The form names the details, in a JSON text whose value the parser reads as them, or has no such
  -- field where there are none.
  abbrev pub Carries : Dict Text Text → List AuthorizationDetail → Type 0
  Carries form [] = lookup (text "authorization_details") form ≡ none
  Carries form (d ∷ ds) =
      (json : Json) × (lookup (text "authorization_details") form ≡ some (py.json_dumps json))
      × (parse_authorization_details json ≡ ok (d ∷ ds))

  put-Carries :
      (form : Dict Text Text) (ds : List AuthorizationDetail)
      → lookup (text "authorization_details") form ≡ none
      → Carries (put (text "authorization_details") (authorization_details_json py ds) form) ds
  unfolding authorization_details_json
  put-Carries form [] h = lookup-put_here (text "authorization_details") none form h
  put-Carries form (d ∷ ds) h = (
    arr (detail_objects (d ∷ ds)),
    lookup-put_here (text "authorization_details")
        (some (py.json_dumps (arr (detail_objects (d ∷ ds))))) form h,
    parse_authorization_details-detail_objects (d ∷ ds),
  )

  module _ (idp : Idp) where
    -- One request is posted, whose form carries the details, and the result is made of its answer.
    abbrev pub Posts :
        Text
        → Text
        → Text
        → List AuthorizationDetail
        → (Acquires (Text × ℕ) → Acquires (Text × ℕ))
        → Acquires (Text × ℕ)
        → Type 0
    Posts endpoint id secret carry made_of result =
        (form : Dict Text Text) × Carries form carry
        × (result
            ≡ made_of (
                post_token_request idp (record {
                  token_endpoint = endpoint;
                  client_id = id;
                  client_secret = secret;
                  form = form;
                })))

    credentials_form-Carries :
        (scopes : List Text) (carry : List AuthorizationDetail)
        → Carries (credentials_form py idp scopes carry) carry
    unfolding credentials_form text_eq nat_eq
    credentials_form-Carries scopes carry =
        put-Carries
          (put (text "scope") (scope_of scopes)
            ((text "grant_type", text "client_credentials") ∷ []))
          carry
          (lookup-put (text "authorization_details") (text "scope") (scope_of scopes)
            ((text "grant_type", text "client_credentials") ∷ []) refl)

    exchange_form-Carries :
        (source : TokenExchangeSource) (subject_token : Text) (carry : List AuthorizationDetail)
        → Carries (exchange_form py idp source subject_token carry) carry
    unfolding exchange_form text_eq nat_eq
    exchange_form-Carries source subject_token carry = put-Carries _ carry (
        lookup-put (text "authorization_details") (text "scope")
          (scope_of (sorted_scopes source.scopes)) _ refl
        ∙ lookup-put (text "authorization_details") (text "resource") source.resource _ refl
        ∙ lookup-put (text "authorization_details") (text "audience") source.audience _ refl)

    -- Both token sources post one request to the configured endpoint, with the configured client's
    -- id and secret, and their result is what its answer says, with the lifetime limited by the
    -- subject token's in an exchange. The form of the request carries the details that the call
    -- carries and no others: its field `authorization_details` is the JSON text of a value that the
    -- parser of details reads as them, and the field is missing where there are none. A source of
    -- client credentials does so where its endpoint, id and secret are configured and loaded.
    pub token_requests-Carries :
        (credentials : ClientCredentialsSource) (source : TokenExchangeSource)
        (carry : List AuthorizationDetail) (endpoint id ref secret subject_token : Text) (now : ℕ)
        (expires_at : Option ℕ)
        → credentials.outbound.token_endpoint ≡ some endpoint
        → credentials.outbound.client_id ≡ some id
        → credentials.outbound.client_secret ≡ some ref
        → lookup ref credentials.secrets ≡ some secret
        → Posts endpoint id secret carry
            (λ posted. posted)
            (credentials_fetch py idp credentials carry)
          × Posts source.token_endpoint source.client_id source.client_secret carry
              (λ posted. do
                minted ← posted
                ok (minted.0, subject_ttl py idp now expires_at minted.1))
              (exchange_fetch py idp source now carry subject_token expires_at)
    unfolding credentials_fetch secret_of exchange_fetch
    token_requests-Carries credentials source carry endpoint id ref secret subject_token now
          expires_at has_endpoint has_id has_ref has_secret =
        (
          (
            credentials_form py idp (sorted_scopes credentials.outbound.scopes) carry,
            credentials_form-Carries (sorted_scopes credentials.outbound.scopes) carry,
            rw (credentials_fetch, has_endpoint, has_id, has_ref, secret_of, has_secret) refl,
          ),
          (
            exchange_form py idp source subject_token carry,
            exchange_form-Carries source subject_token carry,
            refl,
          ),
        )
