-- ===== src/Outbound/Exchange.antt =====
-- The keys and lifetimes of exchanged tokens.
use mcp_portal.Base.{
  >>=-eq-ok, List, Text, [], arith, contains, err, false, lookup, min, nat_eq, none, ok, option_eq,
  refl, some, text, text_eq, ℕ, ◌*◌, ◌++◌, ◌+◌, ◌-◌, ◌<◌, ◌↔◌, ◌∷◌, ◌≡◌, ◌≤◌,
}
use mcp_portal.Platform.{Platform}
use mcp_portal.Rar.{AuthorizationDetail}
use mcp_portal.TokenCache.{Clock, Entries, get_or_fetch, live}
use mcp_portal.Outbound.{
  Acquires, Idp, TokenExchangeSource, bearer, exchange_fetch, exchange_key, expiry_leeway,
  get_exchanged, post_token_request, sorted_scopes, subject_ttl,
}
use mcp_portal.TokenCache.Lifetime.{get_or_fetch-served}

append-cancel : (p a b : Text) → p ++ a ≡ p ++ b → a ≡ b
append-cancel [] a b h = h
append-cancel (c ∷ p) a b h = append-cancel p a b (∷-injective h)
  where
    ∷-injective : c ∷ (p ++ a) ≡ c ∷ (p ++ b) → p ++ a ≡ p ++ b
    ∷-injective h = cc

-- What stands before the first colon, and after it.
split_at_colon :
    (x y a b : Text)
    → contains x b':' ≡ false
    → contains y b':' ≡ false
    → x ++ (b':' ∷ a) ≡ y ++ (b':' ∷ b)
    → (x ≡ y) × (a ≡ b)
split_at_colon [] [] a b hx hy h = (refl, cc)
split_at_colon [] (d ∷ y) a b hx hy h = let e : b':' ≡ d = cc in ground arith
split_at_colon (c ∷ x) [] a b hx hy h = let e : c ≡ b':' = cc in ground arith
split_at_colon (c ∷ x) (d ∷ y) a b hx hy h =
    let heads : c ≡ d = cc in
    let tails : x ++ (b':' ∷ a) ≡ y ++ (b':' ∷ b) = cc in
    let (same, rest) = split_at_colon x y a b (ground arith) (ground arith) tails in
    (rw (heads, same) refl, rest)

module _ (py : Platform) (idp : Idp) where
  -- Two calls of a source share an exchanged token exactly when the hashes of their subject tokens
  -- and those of their details are the same, if the printed hashes hold no colon.
  pub exchange_key_iff :
      (source : TokenExchangeSource) (s t : Text) (c d : List AuthorizationDetail)
      → ((u : Text) → contains (idp.hash_text u) b':' ≡ false)
      → (exchange_key py idp source s c ≡ exchange_key py idp source t d)
        ↔ (idp.hash_text s ≡ idp.hash_text t) × (idp.hash_details c ≡ idp.hash_details d)
  unfolding exchange_key
  exchange_key_iff source s t c d no_colon = (
    λ h.
        let tail =
          append-cancel (text ":") _ _ (
            append-cancel source.upstream_key _ _ (append-cancel (text "token_exchange:") _ _ h)) in
        let (same, rest) = split_at_colon _ _ _ _ (no_colon s) (no_colon t) tail in
        (
          same,
          append-cancel (text ":") _ _
              (append-cancel (idp.show_scopes (sorted_scopes source.scopes)) _ _ rest),
        ),
    λ (h, k). rw (h, k) refl,
  )

  bearer-entries : (r : Acquires Text) (entries : Entries) → (bearer (r, entries)).1 ≡ entries
  unfolding bearer
  bearer-entries (ok token) entries = refl
  bearer-entries (err e) entries = refl

  exchange_fetch-ttl :
      (source : TokenExchangeSource) (now : ℕ) (carry : List AuthorizationDetail)
      (subject_token token : Text) (expires_at ttl : ℕ)
      → exchange_fetch py idp source now carry subject_token (some expires_at) ≡ ok (token, ttl)
      → ttl ≤ 1000 * expires_at - now - expiry_leeway
  unfolding exchange_fetch subject_ttl
  exchange_fetch-ttl source now carry subject_token token expires_at ttl h =
      let (minted, _, h₁) = >>=-eq-ok (post_token_request idp _) _ h in
      let same : min minted.1 (1000 * expires_at - now - expiry_leeway) ≡ ttl = cc in omega arith

  -- A token that is exchanged for a subject token with an expiry is served only while the subject
  -- token has more than a minute left: `now` is the wall clock when the token is stored, and it
  -- runs with the monotonic one.
  pub get_exchanged-expiry :
      (source : TokenExchangeSource) (clock : Clock) (now later expires_at : ℕ)
      (carry : List AuthorizationDetail) (subject_token token : Text) (entries : Entries)
      → clock.looked ≤ clock.stored
      → clock.stored ≤ clock.purged
      → clock.purged ≤ later
      → live clock.looked (lookup (exchange_key py idp source subject_token carry) entries) ≡ none
      → live later (
          lookup
            (exchange_key py idp source subject_token carry)
            (get_exchanged py idp source clock now carry
              (some subject_token)
              (some expires_at)
              entries).1)
        ≡ some token
      → now + (later - clock.stored) + expiry_leeway < 1000 * expires_at
  unfolding get_exchanged
  get_exchanged-expiry source clock now later expires_at carry subject_token token entries ls sp pl
        missing h =
      let key = exchange_key py idp source subject_token carry in
      let fetched = exchange_fetch py idp source now carry subject_token (some expires_at) in
      let (ttl, minted, lt) =
        get_or_fetch-served clock key token later fetched entries (omega arith) pl missing (
          rw
            (bearer-entries (get_or_fetch clock key fetched entries).0
              (get_or_fetch clock key fetched entries).1)
            at h) in
      let bound = exchange_fetch-ttl source now carry subject_token token expires_at ttl minted in
      omega arith
