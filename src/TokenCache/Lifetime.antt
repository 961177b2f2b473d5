-- ===== src/TokenCache/Lifetime.antt =====
-- How long a token is served.
use mcp_portal.Base.{
  Bool, Bool-cases, List, Option, Result, Text, [], ap, arith, contains, contains-filter, eq_self,
  erase, err, false, if◌then◌else◌, inl, inr, insert, keys, lookup, lookup-erase, lookup-insert,
  ltb, nat_eq, none, not, ok, option_eq, refl, some, sym, text_eq, true, ℕ, ◌&&◌, ◌+◌, ◌<◌, ◌==◌,
  ◌∙◌, ◌∷◌, ◌≡◌, ◌≢◌, ◌≤◌,
}
use mcp_portal.TokenCache.{
  CachedToken, Clock, Entries, erase_all, expired, get_or_fetch, is_stale, live, purge_expired,
  store,
}

lookup-erase_all :
    (k : Text) (ks : List Text) (entries : Entries)
    → lookup k (erase_all ks entries) ≡ (if contains ks k then none else lookup k entries)
unfolding erase_all
lookup-erase_all k [] entries = refl
lookup-erase_all k (j ∷ ks) entries =
    ground (arith, lookup-erase_all k ks (erase j entries), lookup-erase k j entries)

expired-is_stale :
    (now : ℕ) (k exclude : Text) (entries : Entries)
    → contains (expired now exclude entries) k ≡ true
    → is_stale now (lookup k entries) ≡ true
unfolding expired
expired-is_stale now k exclude entries h = ground (
  arith,
  contains-filter (λ j. not (j == exclude) && is_stale now (lookup j entries)) (keys entries) k,
)

live-is_stale :
    (now later : ℕ) (c : Option CachedToken)
    → now ≤ later
    → is_stale now c ≡ true
    → live later c ≡ none
unfolding live
live-is_stale now later none le h = refl
live-is_stale now later (some c) le h = ground arith

-- A purge changes no answer that is given from then on.
pub live-purge_expired :
    (now later : ℕ) (k exclude : Text) (entries : Entries)
    → now ≤ later
    → live later (lookup k (purge_expired now exclude entries)) ≡ live later (lookup k entries)
unfolding purge_expired live
live-purge_expired now later k exclude entries le =
    elim (Bool-cases (contains (expired now exclude entries) k)) [
      | inl e ↦
          ap (live later) (lookup-erase_all k (expired now exclude entries) entries)
          ∙ rw e (
              sym (
                live-is_stale now later (lookup k entries) le
                  (expired-is_stale now k exclude entries e)))
      | inr e ↦
          ap (live later) (lookup-erase_all k (expired now exclude entries) entries) ∙ rw e refl
    ]

live-ite :
    (later : ℕ) (b : Bool) (c : CachedToken) (rest : Option CachedToken)
    → live later (if b then some c else rest)
      ≡ (if b then (if ltb later c.expires_at then some c.value else none) else live later rest)
unfolding live
live-ite later true c rest = refl
live-ite later false c rest = refl

-- A call of `get_or_fetch` for a key without a live token, whose fetch brings a token with a
-- lifetime: at every time from its purge on, this key is answered with that token for as long as
-- the lifetime, counted from when the token is stored, lasts, and with none after it, and every
-- other key is answered as without the call.
pub get_or_fetch-live {ℓ} :
    (E : Type ℓ) (clock : Clock) (key k token : Text) (ttl later : ℕ) (entries : Entries)
    → clock.purged ≤ later
    → live clock.looked (lookup key entries) ≡ none
    → live later (lookup k (get_or_fetch {E = E} clock key (ok (token, ttl)) entries).1) ≡ (
        if k == key
        then (if ltb later (clock.stored + ttl) then some token else none)
        else live later (lookup k entries))
unfolding get_or_fetch store live
get_or_fetch-live E clock key k token ttl later entries le missing =
    let minted : CachedToken = record { value = token; expires_at = clock.stored + ttl } in
    rw (get_or_fetch, missing)
      (live-purge_expired clock.purged later k key (insert key minted entries) le
        ∙ ap (live later) (lookup-insert k key minted entries)
        ∙ live-ite later (k == key) minted (lookup k entries))

-- What was dead stays so.
live-later :
    (now later : ℕ) (c : Option CachedToken) → now ≤ later → live now c ≡ none → live later c ≡ none
unfolding live
live-later now later none le h = refl
live-later now later (some c) le h = ground arith

-- A key that had no live token is answered with the one that was fetched, while it lasts.
pub get_or_fetch-served {ℓ} :
    {E : Type ℓ} (clock : Clock) (key token : Text) (later : ℕ) (fetched : Result E (Text × ℕ))
    (entries : Entries)
    → clock.looked ≤ later
    → clock.purged ≤ later
    → live clock.looked (lookup key entries) ≡ none
    → live later (lookup key (get_or_fetch clock key fetched entries).1) ≡ some token
    → (ttl : ℕ) × (fetched ≡ ok (token, ttl)) × (later < clock.stored + ttl)
unfolding get_or_fetch live
get_or_fetch-served clock key token later (err e) entries le le' missing h =
    let dead = live-later clock.looked later (lookup key entries) le missing in
    absurd (some-ne-none token (sym (rw (get_or_fetch, missing) at h) ∙ dead))
  where
    some-ne-none : (t : Text) → ◌≢◌ {A = Option Text} (some t) none
    some-ne-none t e = cc
get_or_fetch-served {E = E} clock key token later (ok (minted, ttl)) entries le le' missing h =
    let answer = get_or_fetch-live E clock key key minted ttl later entries le' missing in
    let (same, lt) =
      served minted (clock.stored + ttl) (live later (lookup key entries))
        (rw (eq_self key) at (sym answer ∙ h)) in
    (ttl, ap (λ t. ok (t, ttl)) same, lt)
  where
    served :
        (t : Text) (until : ℕ) (rest : Option Text)
        → (if ltb later until then some t else none) ≡ some token
        → (t ≡ token) × (later < until)
    served t until rest e = ground arith
