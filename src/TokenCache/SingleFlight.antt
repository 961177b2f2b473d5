-- ===== src/TokenCache/SingleFlight.antt =====
-- One fetch at a time for each key, when no fetch ends while a waiter has been woken and has not run.
use mcp_portal.Base.{
  ==→≡, Bool-cases, Dict, List, Option-cases, Text, [], arith, eq_self, inl, inr, insert, lookup,
  lookup-erase, lookup-insert, nat_eq, option_eq, refl, some, text_eq, true, ℕ, ◌+◌, ◌∙◌, ◌∷◌, ◌≡◌,
  ◌≢◌,
}
use mcp_portal.TokenCache.{expired, live}
use mcp_portal.TokenCache.Tasks.{
  AsyncLock, Loop, Reach, Step, Task, acquire, become, call, crash, enter, fail, fetching, finish,
  free_lock, here, is_free, lock_for, locked, mint, next, purge_lock, purge_locks, raised, release,
  resume, returned, tick, waiting, wake, with_lock,
}
use mcp_portal.TokenCache.Locks.{Held, IsAt, Reach-Held, Reach-one_per_lock}

-- A lock that is locked is not purged.
purge_lock-keeps :
    (lock_at : ℕ → AsyncLock) (j : Text) (locks : Dict Text ℕ) (k : Text) (l : ℕ)
    → lookup k locks ≡ some l
    → locked (lock_at l) ≡ true
    → lookup k (purge_lock lock_at j locks) ≡ some l
unfolding purge_lock
purge_lock-keeps lock_at j locks k l h held = ground (arith, lookup-erase k j locks, ==→≡ k j)

purge_locks-keeps :
    (lock_at : ℕ → AsyncLock) (ks : List Text) (locks : Dict Text ℕ) (k : Text) (l : ℕ)
    → lookup k locks ≡ some l
    → locked (lock_at l) ≡ true
    → lookup k (purge_locks lock_at ks locks) ≡ some l
unfolding purge_locks
purge_locks-keeps lock_at [] locks k l h held = h
purge_locks-keeps lock_at (j ∷ ks) locks k l h held =
    purge_locks-keeps lock_at ks (purge_lock lock_at j locks) k l
      (purge_lock-keeps lock_at j locks k l h held) held

-- No waiter has been woken that has not run: whoever waits, waits for a lock that is locked.
abbrev pub IsSettled : Loop → Type 0
IsSettled s =
    (t : ℕ) (k : Text) (l : ℕ) → s.tasks t ≡ some (waiting k l) → locked (s.lock_at l) ≡ true

-- Who has gone to a lock has gone to the one that the key still has.
abbrev Registered : Loop → Type 0
Registered s = (t : ℕ) (k : Text) (l : ℕ) → IsAt s t k l → lookup k s.locks ≡ some l

lock_for-registers :
    (key : Text) (s : Loop) → lookup key (lock_for key s).1.locks ≡ some (lock_for key s).0
unfolding lock_for
lock_for-registers key s = elim (Option-cases (lookup key s.locks)) [
  | inl e ↦ rw (lock_for, e) (lookup-insert key key s.next_lock s.locks ∙ rw (eq_self key) refl)
  | inr (l, e) ↦ rw (lock_for, e) e
]

lock_for-Registered : (key : Text) (s : Loop) → Registered s → Registered (lock_for key s).1
unfolding lock_for
lock_for-Registered key s r = elim (Option-cases (lookup key s.locks)) [
  | inl e ↦
      rw (lock_for, e)
        (λ t k l a. ground (arith, r t k l, lookup-insert k key s.next_lock s.locks, ==→≡ k key))
  | inr (l, e) ↦ rw (lock_for, e) r
]

at-Registered :
    (s : Loop) (t : ℕ) (key : Text) (l : ℕ) (lock : AsyncLock)
    → Registered s
    → lookup key s.locks ≡ some l
    → Registered (become t (waiting key l) (with_lock l lock s))
      × Registered (become t (fetching key l) (with_lock l lock s))
at-Registered s t key l lock r has =
    (λ u k m a. ground (arith, r u k m), λ u k m a. ground (arith, r u k m))

done-Registered :
    (s : Loop) (t : ℕ) (task : Task)
    → Registered s
    → ((k : Text) (m : ℕ) → task ≢ fetching k m)
    → ((k : Text) (m : ℕ) → task ≢ waiting k m)
    → Registered (become t task s)
done-Registered s t task r no_fetch no_wait u k m a =
    ground (arith, r u k m, no_fetch k m, no_wait k m)

acquire-Registered :
    (t : ℕ) (key : Text) (l : ℕ) (s : Loop)
    → Registered s
    → lookup key s.locks ≡ some l
    → Registered (acquire t key (l, s))
unfolding acquire
acquire-Registered t key l s r has = elim (Bool-cases (is_free (s.lock_at l))) [
  | inl e ↦ rw (acquire, e) (at-Registered s t key l free_lock r has).1
  | inr e ↦ rw (acquire, e) (at-Registered s t key l free_lock r has).0
]

enter-Registered : (t : ℕ) (key : Text) (s : Loop) → Registered s → Registered (enter t key s)
unfolding enter
enter-Registered t key s r = elim (Option-cases (live s.now (lookup key s.entries))) [
  | inl e ↦
      rw (enter, e)
        (acquire-Registered t key (lock_for key s).0 (lock_for key s).1
          (lock_for-Registered key s r) (lock_for-registers key s))
  | inr (token, e) ↦
      rw (enter, e) (done-Registered s t (returned token) r (λ k m p. cc) (λ k m p. cc))
]

resume-Registered :
    (t : ℕ) (key : Text) (l : ℕ) (rest : List ℕ) (s : Loop)
    → Registered s
    → s.tasks t ≡ some (waiting key l)
    → Registered (resume t key l rest s)
unfolding resume
resume-Registered t key l rest s r waits = elim (Option-cases (live s.now (lookup key s.entries))) [
  | inl e ↦ rw (resume, e) (at-Registered s t key l free_lock r (r t key l (inl waits))).1
  | inr (token, e) ↦
      rw (resume, e) (done-Registered s t (returned token) r (λ k m p. cc) (λ k m p. cc))
]

-- Whoever has gone to a lock has gone to one that is locked, in a settled state.
settled-locked :
    (s : Loop) (t : ℕ) (k : Text) (l : ℕ)
    → Held s
    → IsSettled s
    → IsAt s t k l
    → locked (s.lock_at l) ≡ true
unfolding locked
settled-locked s t k l h settled (inl waits) = settled t k l waits
settled-locked s t k l h settled (inr fetches) = ground (arith, h.holds t k l fetches)

finish-Registered :
    (t : ℕ) (key : Text) (l : ℕ) (minted : Text × ℕ) (s : Loop)
    → Held s
    → IsSettled s
    → Registered s
    → Registered (finish t key l minted s)
unfolding finish
finish-Registered t key l (token, ttl) s h settled r =
    let minted = insert key (record { value = token; expires_at = s.now + ttl }) s.entries in
    let gone = expired s.now key minted in
    done-Registered (record s { locks = purge_locks s.lock_at gone s.locks }) t (returned token)
      (λ u k m a.
        purge_locks-keeps s.lock_at gone s.locks k m (r u k m a)
          (settled-locked s u k m h settled a))
      (λ k m p. cc) (λ k m p. cc)

Step-Registered : {s u : Loop} → Step IsSettled s u → Held s → Registered s → Registered u
unfolding fail
Step-Registered (call s t key fresh) h r = enter-Registered t key s r
Step-Registered (wake s t key l rest waits lock) h r = resume-Registered t key l rest s r waits
Step-Registered (mint s t key l minted fetches settled) h r =
    finish-Registered t key l minted s h settled r
Step-Registered (crash s t key l fetches) h r =
    done-Registered (release l s) t raised r (λ k m p. cc) (λ k m p. cc)
Step-Registered (tick s n) h r = r

Reach-Registered : {now : ℕ} {s : Loop} → Reach IsSettled now s → Registered s
Reach-Registered here = λ t k l a. ground arith
Reach-Registered (next r step) = Step-Registered step (Reach-Held r) (Reach-Registered r)

-- If no fetch ends while a waiter has been woken and has not run, then in every state that the
-- loop can reach no two tasks fetch for one key.
pub Reach-one_per_key :
    (now : ℕ) (s : Loop) (t u l m : ℕ) (k : Text)
    → Reach IsSettled now s
    → s.tasks t ≡ some (fetching k l)
    → s.tasks u ≡ some (fetching k m)
    → t ≡ u
Reach-one_per_key now s t u l m k r ft fu =
    let registered = Reach-Registered r in
    let a = registered t k l (inr ft) in
    let b = registered u k m (inr fu) in
    let same : l ≡ m = cc in Reach-one_per_lock IsSettled now s t u m k k r (ft ∙ rw same refl) fu
