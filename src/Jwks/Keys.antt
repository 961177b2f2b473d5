-- ===== src/Jwks/Keys.antt =====
-- The keys of the identity provider: how they are kept and fetched.
use mcp_portal.Base.{
  >>=-eq-ok, Bool-cases, Dict, Option, Option-cases, Result-cases, Text, ap, arith, err, inl, inr,
  insert, leb, lookup, lookup-insert, nat_eq, none, ok, ok-injective, option_eq, refl, some, subst,
  sym, text, text_eq, true, ℕ, ◌&&◌, ◌+◌, ◌<◌, ◌∙◌, ◌≡◌, ◌≢◌, ◌≤◌, ◌⊎◌,
}
use mcp_portal.Json.{Fields, Items, Json, arr, cons, fields, nil, obj}
use mcp_portal.Jwks.{
  AuthFault, Authenticates, JsonResponse, JwksCache, add_keys, as_text, fetched_keys, get,
  is_recent, key_for, listed_keys, maybe_refresh, parsed, refresh_interval, refreshed,
}

-- A key that is known stays known.
abbrev pub Kept : Dict Text Json → Dict Text Json → Type 0
Kept before after = (k : Text) → lookup k before ≢ none → lookup k after ≢ none

insert-Kept : (k : Text) (j : Json) (known : Dict Text Json) → Kept known (insert k j known)
insert-Kept k j known i h = ground (arith, lookup-insert i k j known, h)

put-Kept :
    (kid : Option Text) (j : Json) (known : Dict Text Json)
    → Kept known (elim kid [ none ↦ known | some k ↦ insert k j known ])
put-Kept none j known i h = h
put-Kept (some k) j known i h = insert-Kept k j known i h

add_keys-Kept :
    (xs : Items) (known after : Dict Text Json) → add_keys xs known ≡ ok after → Kept known after
unfolding add_keys
add_keys-Kept nil known after h = subst (Kept known) (ok-injective h) (λ k n. n)
add_keys-Kept (cons jwk rest) known after h =
    let (kid, _, h₁) = >>=-eq-ok (get (text "kid") jwk) _ h in
    λ k n. add_keys-Kept rest _ after h₁ k (put-Kept (as_text kid) jwk known k n)

fetched_keys-Kept :
    (response : Option JsonResponse) (known after : Dict Text Json)
    → fetched_keys response known ≡ ok (some after)
    → Kept known after
unfolding fetched_keys
fetched_keys-Kept none known after h = cc
fetched_keys-Kept (some response) known after h =
    elim (Bool-cases (leb 200 response.status_code && leb response.status_code 299)) [
      | inl e ↦
          let (payload, _, h₁) = >>=-eq-ok (parsed response.json) _ (rw e at h) in
          let (listed, _, h₂) = >>=-eq-ok (get (text "keys") payload) _ h₁ in
          let (jwks, _, h₃) = >>=-eq-ok (listed_keys listed) _ h₂ in
          let (added, from_keys, h₄) = >>=-eq-ok (add_keys jwks known) _ h₃ in
          let same : added ≡ after = cc in
          subst (Kept known) same (add_keys-Kept jwks known added from_keys)
      | inr e ↦ ground arith
    ]

refreshed-Kept :
    (now : ℕ) (response : Option JsonResponse) (fetched : Option (Dict Text Json))
    (cache : JwksCache)
    → fetched_keys response cache.keys ≡ ok fetched
    → Kept cache.keys (refreshed now fetched cache).keys
refreshed-Kept now response none cache h = λ k n. n
refreshed-Kept now response (some known) cache h = fetched_keys-Kept response cache.keys known h

refreshed-last :
    (now : ℕ) (fetched : Option (Dict Text Json)) (cache : JwksCache)
    → (refreshed now fetched cache).last_refresh ≡ some now
refreshed-last now none cache = refl
refreshed-last now (some known) cache = refl

is_recent-last :
    (now : ℕ) (last : Option ℕ)
    → is_recent now last ≡ true
    → (l : ℕ) × (last ≡ some l) × (now < l + refresh_interval)
unfolding is_recent
is_recent-last now none h = cc
is_recent-last now (some l) h = (l, refl, ground arith)

module _ (client : Text → Option JsonResponse) (jwks_uri : Text) where
  -- A refresh keeps what is known, and leaves a cache that is recent.
  maybe_refresh-recent :
      (now : ℕ) (cache after : JwksCache)
      → maybe_refresh client jwks_uri now cache ≡ ok after
      → Kept cache.keys after.keys
        × ((last : ℕ) × (after.last_refresh ≡ some last) × (now < last + refresh_interval))
  unfolding maybe_refresh
  maybe_refresh-recent now cache after h = elim (Bool-cases (is_recent now cache.last_refresh)) [
    | inl e ↦
        let same : cache ≡ after = ok-injective (rw (maybe_refresh, e) at h) in
        subst
          (λ (c : JwksCache).
            Kept cache.keys c.keys
            × ((last : ℕ) × (c.last_refresh ≡ some last) × (now < last + refresh_interval)))
          same ((λ k n. n), is_recent-last now cache.last_refresh e)
    | inr e ↦
        let (fetched, from_response, h₁) =
          >>=-eq-ok (fetched_keys (client jwks_uri) cache.keys) _ (rw (maybe_refresh, e) at h) in
        subst
          (λ (c : JwksCache).
            Kept cache.keys c.keys
            × ((last : ℕ) × (c.last_refresh ≡ some last) × (now < last + refresh_interval)))
          (ok-injective h₁)
          (
            refreshed-Kept now (client jwks_uri) fetched cache from_response,
            (now, refreshed-last now fetched cache, omega arith),
          )
  ]

-- Within the interval a lookup asks nobody: whatever the client would answer, the keys that are
-- there decide.
key_for-recent :
    (client : Text → Option JsonResponse) (jwks_uri : Text) (now last : ℕ) (kid : Text)
    (cache : JwksCache)
    → cache.last_refresh ≡ some last
    → now < last + refresh_interval
    → key_for client jwks_uri now kid cache ≡ ok (lookup kid cache.keys, cache)
unfolding key_for maybe_refresh is_recent
key_for-recent client jwks_uri now last kid cache h lt =
    let recent : is_recent now cache.last_refresh ≡ true = ground arith in
    elim (Option-cases (lookup kid cache.keys)) [
      | inl e ↦ rw (key_for, e, maybe_refresh, recent) (ap (λ f. ok (f, cache)) e)
      | inr (j, e) ↦ rw (key_for, e) refl
    ]

-- The call keeps the known keys, and until a minute after the last refresh, which is less than a
-- minute ago, the keys that are there answer every call, whatever its client would.
abbrev pub IsQuiet : ℕ → JwksCache → JwksCache → Type 0
IsQuiet now cache after =
    Kept cache.keys after.keys
    × ((last : ℕ) × (after.last_refresh ≡ some last)
        × (now < last + refresh_interval)
        × ((other : Text → Option JsonResponse) (uri : Text) (later : ℕ) (k : Text)
            → later < last + refresh_interval
            → key_for other uri later k after ≡ ok (lookup k after.keys, after)))

abbrev pub AllObjects : Items → Type 0
AllObjects nil = Unit
AllObjects (cons j rest) = ((fs : Fields) × (j ≡ obj fs)) × AllObjects rest

-- An object whose `keys` are an array of objects.
abbrev pub IsKeySet : Option Json → Type 0
IsKeySet j =
    (fs : Fields) × (xs : Items) × (j ≡ some (obj fs))
    × (lookup (text "keys") (fields fs) ≡ some (arr xs))
    × AllObjects xs

-- An answer of success that holds no key set.
abbrev pub Unreadable : Option JsonResponse → Type 0
Unreadable answer =
    (response : JsonResponse) × (answer ≡ some response)
    × (200 ≤ response.status_code)
    × (response.status_code ≤ 299)
    × ¬ (IsKeySet response.json)

add_keys-AllObjects :
    (xs : Items) (known : Dict Text Json)
    → AllObjects xs
    → (after : Dict Text Json) × (add_keys xs known ≡ ok after)
unfolding add_keys get
add_keys-AllObjects nil known a = (known, refl)
add_keys-AllObjects (cons j rest) known ((fs, e), a) =
    let known' : Dict Text Json = elim (as_text (lookup (text "kid") (fields fs))) [
      | none ↦ known
      | some k ↦ insert k j known
    ] in
    let (after, h) = add_keys-AllObjects rest known' a in (after, rw (get-object j fs e) h)
  where
    get-object :
        (i : Json) (gs : Fields)
        → i ≡ obj gs
        → get (text "kid") i ≡ ok (lookup (text "kid") (fields gs))
    get-object i gs same = rw same refl

fetched_keys-IsKeySet :
    (response : JsonResponse) (known : Dict Text Json)
    → leb 200 response.status_code && leb response.status_code 299 ≡ true
    → IsKeySet response.json
    → (after : Dict Text Json) × (fetched_keys (some response) known ≡ ok (some after))
unfolding fetched_keys get listed_keys
fetched_keys-IsKeySet response known success (fs, xs, is_json, listed, objects) =
    let (after, h) = add_keys-AllObjects xs known objects in
    (after, rw (success, is_json, listed, h) refl)

fetched_keys-err :
    (answer : Option JsonResponse) (known : Dict Text Json) (e : AuthFault)
    → fetched_keys answer known ≡ err e
    → Unreadable answer
unfolding fetched_keys
fetched_keys-err none known e h = cc
fetched_keys-err (some response) known e h =
    elim (Bool-cases (leb 200 response.status_code && leb response.status_code 299)) [
      | inr failed ↦ absurd (ok-ne-err none (rw failed at h))
      | inl success ↦ (
        response,
        refl,
        ground arith,
        ground arith,
        λ key_set.
            let (after, returns) = fetched_keys-IsKeySet response known success key_set in
            ok-ne-err (some after) (sym returns ∙ h),
      )
    ]
  where
    ok-ne-err :
        (x : Option (Dict Text Json))
        → ◌≢◌ {A = Authenticates (Option (Dict Text Json))} (ok x) (err e)
    ok-ne-err x p = cc

key_for-IsQuiet :
    (client : Text → Option JsonResponse) (jwks_uri : Text) (now : ℕ) (kid : Text)
    (cache after : JwksCache) (found : Option Json)
    → lookup kid cache.keys ≡ none
    → key_for client jwks_uri now kid cache ≡ ok (found, after)
    → IsQuiet now cache after
unfolding key_for
key_for-IsQuiet client jwks_uri now kid cache after found unknown h =
    let (c, refresh, h₁) =
      >>=-eq-ok (maybe_refresh client jwks_uri now cache) _ (rw (key_for, unknown) at h) in
    let same : c ≡ after = cc in
    let (kept, (last, refreshed_at, lt)) =
      maybe_refresh-recent client jwks_uri now cache after (refresh ∙ ap ok same) in
    (
      kept,
      (
        last,
        refreshed_at,
        lt,
        λ other uri later k within_interval.
            key_for-recent other uri later last k after refreshed_at within_interval,
      ),
    )

-- A call with an unknown key id either raises, which it does only upon an answer of success whose
-- JSON is no object with an array of objects under `keys`, or it returns, also when the identity
-- provider is not reached or answers with an error. If it returns, it keeps every key that is
-- known, and from then on until a minute after the last refresh, which is less than a minute ago,
-- no call asks the identity provider: the keys that are there decide, whatever a client would
-- answer.
pub key_for-limited :
    (client : Text → Option JsonResponse) (jwks_uri : Text) (now : ℕ) (kid : Text)
    (cache : JwksCache)
    → lookup kid cache.keys ≡ none
    → ((e : AuthFault) × (key_for client jwks_uri now kid cache ≡ err e)
        × Unreadable (client jwks_uri))
      ⊎ ((found : Option Json) × (after : JwksCache) × (key_for client jwks_uri now kid cache
            ≡ ok (found, after))
          × IsQuiet now cache after)
unfolding key_for maybe_refresh
key_for-limited client jwks_uri now kid cache unknown =
    elim (Result-cases (maybe_refresh client jwks_uri now cache)) [
      | inl (e, raised) ↦ inl (e, rw (key_for, unknown, raised) refl, maybe_refresh-err e raised)
      | inr (after, refreshed_to) ↦
          let returns : key_for client jwks_uri now kid cache ≡ ok (lookup kid after.keys, after) =
            rw (key_for, unknown, refreshed_to) refl in
          inr (
            lookup kid after.keys,
            after,
            returns,
            key_for-IsQuiet client jwks_uri now kid cache after (lookup kid after.keys) unknown
                returns,
          )
    ]
  where
    maybe_refresh-err :
        (e : AuthFault)
        → maybe_refresh client jwks_uri now cache ≡ err e
        → Unreadable (client jwks_uri)
    maybe_refresh-err e h = elim (Bool-cases (is_recent now cache.last_refresh)) [
      | inl recent ↦ absurd (ok-ne-err cache (rw (maybe_refresh, recent) at h))
      | inr stale ↦ elim (Result-cases (fetched_keys (client jwks_uri) cache.keys)) [
        | inl (e', f) ↦ fetched_keys-err (client jwks_uri) cache.keys e' f
        | inr (fetched, f) ↦
            absurd (ok-ne-err (refreshed now fetched cache) (rw (maybe_refresh, stale, f) at h))
      ]
    ]
      where
        ok-ne-err : (x : JwksCache) → ◌≢◌ {A = Authenticates JwksCache} (ok x) (err e)
        ok-ne-err x p = cc
