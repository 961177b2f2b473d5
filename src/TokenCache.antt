-- ===== src/TokenCache.antt =====
-- auth/token_cache.py: tokens kept until they expire, one fetch at a time for a key. Times are
-- counted in milliseconds. Here a call that no other call meets; `Tasks` has the interleaved ones.
pub mod Lifetime
pub mod Tasks
pub mod Locks
pub mod SingleFlight
pub mod Progress
use mcp_portal.Base.{
  Bool, Dict, List, Option, Result, Text, [], erase, err, false, filter, if◌then◌else◌, insert,
  keys, leb, lookup, ltb, nat_eq, none, not, ok, option_eq, some, text_eq, ℕ, ◌&&◌, ◌+◌, ◌==◌, ◌∷◌,
}

pub record CachedToken : Type 0 where
  pub value : Text
  pub expires_at : ℕ

abbrev pub Entries : Type 0
Entries = Dict Text CachedToken

-- The `cached.value` that a caller returns at `now`, if it returns it.
unfoldable pub live : ℕ → Option CachedToken → Option Text
live now none = none
live now (some c) = if ltb now c.expires_at then some c.value else none

abbrev pub is_stale : ℕ → Option CachedToken → Bool
is_stale now none = false
is_stale now (some c) = leb c.expires_at now

unfoldable pub expired : ℕ → Text → Entries → List Text
expired now exclude entries =
    filter (λ k. not (k == exclude) && is_stale now (lookup k entries)) (keys entries)

-- `for k in ks: del self._entries[k]`
unfoldable pub erase_all : List Text → Entries → Entries
erase_all [] entries = entries
erase_all (k ∷ ks) entries = erase_all ks (erase k entries)

-- `_purge_expired`, without the locks
unfoldable pub purge_expired : ℕ → Text → Entries → Entries
purge_expired now exclude entries = erase_all (expired now exclude entries) entries

-- The clock when the entry is looked up, when the token is stored and when the rest is purged.
pub record Clock : Type 0 where
  pub looked : ℕ
  pub stored : ℕ
  pub purged : ℕ

unfoldable pub store : Clock → Text → Text × ℕ → Entries → Entries
store clock key (token, ttl) entries =
    purge_expired clock.purged key
      (insert key (record { value = token; expires_at = clock.stored + ttl }) entries)

unfoldable pub get_or_fetch {ℓ} :
    {E : Type ℓ} → Clock → Text → Result E (Text × ℕ) → Entries → Result E Text × Entries
get_or_fetch clock key fetched entries = elim (live clock.looked (lookup key entries)) [
  | some token ↦ (ok token, entries)
  | none ↦ elim fetched [
    | err e ↦ (err e, entries)
    | ok minted ↦ (ok minted.0, store clock key minted entries)
  ]
]
