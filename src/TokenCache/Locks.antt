-- ===== src/TokenCache/Locks.antt =====
-- One fetch at a time for each lock.
use mcp_portal.Base.{
  Bool-cases, Dict, List, Option-cases, Text, [], ap, arith, inl, inr, lookup, lookup-erase,
  lookup-insert, nat_eq, none, option_eq, some, text_eq, ℕ, ◌++◌, ◌<◌, ◌∷◌, ◌≡◌, ◌≢◌, ◌⊎◌,
}
use mcp_portal.TokenCache.{live}
use mcp_portal.TokenCache.Tasks.{
  AsyncLock, Loop, Reach, Step, Task, acquire, become, call, crash, enter, fail, fetching, finish,
  here, initial, is_free, lock_for, locked, mint, next, purge_lock, purge_locks, raised, resume,
  returned, tick, waiting, wake, with_lock,
}

-- The task has gone to the lock for the key.
abbrev pub IsAt : Loop → ℕ → Text → ℕ → Type 0
IsAt s t k l = (s.tasks t ≡ some (waiting k l)) ⊎ (s.tasks t ≡ some (fetching k l))

pub record Held (s : Loop) : Type 0 where
  pub holds :
      (t : ℕ) (k : Text) (l : ℕ) → s.tasks t ≡ some (fetching k l) → (s.lock_at l).holder ≡ some t
  pub old : (t : ℕ) (k : Text) (l : ℕ) → IsAt s t k l → l < s.next_lock
  pub listed : (k : Text) (l : ℕ) → lookup k s.locks ≡ some l → l < s.next_lock

initial-Held : (now : ℕ) → Held (initial now)
initial-Held now = record {
  holds = λ t k l h. cc;
  old = λ t k l h. ground arith;
  listed = λ k l h. cc;
}

lock_for-Held : (key : Text) (s : Loop) → Held s → Held (lock_for key s).1
unfolding lock_for
lock_for-Held key s h = elim (Option-cases (lookup key s.locks)) [
  | inl e ↦
      rw (lock_for, e)
        (record {
          holds = λ t k l f. ground (arith, h.holds t k l, h.old t k l);
          old = λ t k l a. ground (arith, h.old t k l);
          listed = λ k l f. ground (arith, h.listed k l, lookup-insert k key s.next_lock s.locks);
        })
  | inr (l, e) ↦ rw (lock_for, e) h
]

-- The lock that is found is one of those that were made.
lock_for-old : (key : Text) (s : Loop) → Held s → (lock_for key s).0 < (lock_for key s).1.next_lock
unfolding lock_for
lock_for-old key s h = elim (Option-cases (lookup key s.locks)) [
  | inl e ↦ rw (lock_for, e) (omega arith)
  | inr (l, e) ↦ rw (lock_for, e) (h.listed key l e)
]

-- A task that takes a lock which nobody holds.
take-Held :
    (s : Loop) (t : ℕ) (key : Text) (l : ℕ) (ws : List ℕ)
    → Held s
    → l < s.next_lock
    → (s.lock_at l).holder ≡ none
    → Held (become t (fetching key l) (with_lock l (record { holder = some t; waiters = ws }) s))
take-Held s t key l ws h lt free = record {
  holds = λ u k m f. ground (arith, h.holds u k m);
  old = λ u k m a. ground (arith, h.old u k m);
  listed = h.listed;
}

-- A task that waits for a lock.
wait-Held :
    (s : Loop) (t : ℕ) (key : Text) (l : ℕ) (ws : List ℕ)
    → Held s
    → l < s.next_lock
    → Held (become t (waiting key l) (with_lock l (record (s.lock_at l) { waiters = ws }) s))
wait-Held s t key l ws h lt = record {
  holds = λ u k m f. ground (arith, h.holds u k m);
  old = λ u k m a. ground (arith, h.old u k m);
  listed = h.listed;
}

-- A task that ends, and leaves a lock which nobody else holds.
leave-Held :
    (s : Loop) (t : ℕ) (task : Task) (l : ℕ) (ws : List ℕ)
    → Held s
    → ((k : Text) (m : ℕ) → task ≢ fetching k m)
    → ((k : Text) (m : ℕ) → task ≢ waiting k m)
    → ((u : ℕ) → (s.lock_at l).holder ≡ some u → u ≡ t)
    → Held (become t task (with_lock l (record { holder = none; waiters = ws }) s))
leave-Held s t task l ws h no_fetch no_wait mine = record {
  holds = λ u k m f. ground (arith, h.holds u k m, mine u, no_fetch k m);
  old = λ u k m a. ground (arith, h.old u k m, no_fetch k m, no_wait k m);
  listed = h.listed;
}

acquire-Held :
    (t : ℕ) (key : Text) (l : ℕ) (s : Loop) → Held s → l < s.next_lock → Held (acquire t key (l, s))
unfolding acquire locked
acquire-Held t key l s h lt = elim (Bool-cases (is_free (s.lock_at l))) [
  | inl e ↦ rw (acquire, e) (take-Held s t key l (s.lock_at l).waiters h lt (ground arith))
  | inr e ↦ rw (acquire, e) (wait-Held s t key l ((s.lock_at l).waiters ++ (t ∷ [])) h lt)
]

return-Held : (s : Loop) (t : ℕ) (token : Text) → Held s → Held (become t (returned token) s)
return-Held s t token h = record {
  holds = λ u k m f. ground (arith, h.holds u k m);
  old = λ u k m a. ground (arith, h.old u k m);
  listed = h.listed;
}

enter-Held : (t : ℕ) (key : Text) (s : Loop) → Held s → Held (enter t key s)
unfolding enter
enter-Held t key s h = elim (Option-cases (live s.now (lookup key s.entries))) [
  | inl e ↦
      rw (enter, e)
        (acquire-Held t key (lock_for key s).0 (lock_for key s).1 (lock_for-Held key s h)
          (lock_for-old key s h))
  | inr (token, e) ↦ rw (enter, e) (return-Held s t token h)
]

resume-Held :
    (t : ℕ) (key : Text) (l : ℕ) (rest : List ℕ) (s : Loop)
    → Held s
    → s.tasks t ≡ some (waiting key l)
    → (s.lock_at l).holder ≡ none
    → Held (resume t key l rest s)
unfolding resume
resume-Held t key l rest s h waits free = elim (Option-cases (live s.now (lookup key s.entries))) [
  | inl e ↦ rw (resume, e) (take-Held s t key l rest h (h.old t key l (inl waits)) free)
  | inr (token, e) ↦
      rw (resume, e)
        (leave-Held s t (returned token) l rest h (λ k m p. cc) (λ k m p. cc) (λ u p. cc))
]

lookup-purge_lock :
    (lock_at : ℕ → AsyncLock) (j : Text) (locks : Dict Text ℕ) (k : Text) (l : ℕ)
    → lookup k (purge_lock lock_at j locks) ≡ some l
    → lookup k locks ≡ some l
unfolding purge_lock
lookup-purge_lock lock_at j locks k l h = ground (arith, lookup-erase k j locks)

pub lookup-purge_locks :
    (lock_at : ℕ → AsyncLock) (ks : List Text) (locks : Dict Text ℕ) (k : Text) (l : ℕ)
    → lookup k (purge_locks lock_at ks locks) ≡ some l
    → lookup k locks ≡ some l
unfolding purge_locks
lookup-purge_locks lock_at [] locks k l h = h
lookup-purge_locks lock_at (j ∷ ks) locks k l h =
    lookup-purge_lock lock_at j locks k l
      (lookup-purge_locks lock_at ks (purge_lock lock_at j locks) k l h)

finish-Held :
    (t : ℕ) (key : Text) (l : ℕ) (minted : Text × ℕ) (s : Loop)
    → Held s
    → s.tasks t ≡ some (fetching key l)
    → Held (finish t key l minted s)
unfolding finish
finish-Held t key l (token, ttl) s h fetches =
    leave-Held _ t (returned token) l (s.lock_at l).waiters
      (record {
        holds = h.holds;
        old = h.old;
        listed = λ k m f. h.listed k m (lookup-purge_locks s.lock_at _ s.locks k m f);
      })
      (λ k m p. cc) (λ k m p. cc) (λ u held. ground (arith, h.holds t key l fetches))

fail-Held :
    (t : ℕ) (key : Text) (l : ℕ) (s : Loop)
    → Held s
    → s.tasks t ≡ some (fetching key l)
    → Held (fail t l s)
unfolding fail
fail-Held t key l s h fetches =
    leave-Held s t raised l (s.lock_at l).waiters h (λ k m p. cc) (λ k m p. cc)
      (λ u held. ground (arith, h.holds t key l fetches))

Step-Held : {P : Loop → Type 0} {s u : Loop} → Step P s u → Held s → Held u
Step-Held (call s t key fresh) h = enter-Held t key s h
Step-Held (wake s t key l rest waits lock) h =
    resume-Held t key l rest s h waits (ap (λ (a : AsyncLock). a.holder) lock)
Step-Held (mint s t key l minted fetches may) h = finish-Held t key l minted s h fetches
Step-Held (crash s t key l fetches) h = fail-Held t key l s h fetches
Step-Held (tick s n) h = record { holds = h.holds; old = h.old; listed = h.listed }

pub Reach-Held : {P : Loop → Type 0} {now : ℕ} {s : Loop} → Reach P now s → Held s
Reach-Held {now = now} here = initial-Held now
Reach-Held (next r step) = Step-Held step (Reach-Held r)

-- In every state that the loop can reach, whatever it runs, no two tasks fetch under one lock.
pub Reach-one_per_lock :
    (P : Loop → Type 0) (now : ℕ) (s : Loop) (t u l : ℕ) (j k : Text)
    → Reach P now s
    → s.tasks t ≡ some (fetching j l)
    → s.tasks u ≡ some (fetching k l)
    → t ≡ u
Reach-one_per_lock P now s t u l j k r ft fu =
    let h = Reach-Held r in let a = h.holds t j l ft in let b = h.holds u k l fu in cc
