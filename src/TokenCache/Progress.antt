-- ===== src/TokenCache/Progress.antt =====
-- No waiter is forgotten.
use mcp_portal.Base.{
  ==→≡, Bool, Bool-cases, Distinct, List, Option, Option-cases, Text, [], arith, contains, eq_self,
  false, if◌then◌else◌, inl, inr, lookup, nat_eq, none, option_eq, refl, some, subst, sym, text_eq,
  true, ℕ, ◌++◌, ◌<◌, ◌==◌, ◌||◌, ◌∙◌, ◌∷◌, ◌≡◌, ◌⊎◌,
}
use mcp_portal.TokenCache.Tasks.{
  AsyncLock, Loop, Reach, Step, Task, acquire, become, call, crash, enter, fail, fetching, finish,
  free_lock, here, initial, is_free, lock_for, locked, mint, next, raised, release, resume,
  returned, tick, waiting, wake, with_lock,
}
use mcp_portal.TokenCache.Locks.{Held, Reach-Held}
use mcp_portal.TokenCache.{live}

abbrev waits_at : ℕ → Option Task → Bool
waits_at l (some (waiting k m)) = m == l
waits_at l _ = false

abbrev fetches_at : ℕ → Option Task → Bool
fetches_at l (some (fetching k m)) = m == l
fetches_at l _ = false

-- The waiters of a lock are the tasks that wait for it, each once, and its holder is the task that
-- fetches under it.
record Queued (s : Loop) : Type 0 where
  queue : (l t : ℕ) → contains (s.lock_at l).waiters t ≡ waits_at l (s.tasks t)
  once : (l : ℕ) → Distinct (s.lock_at l).waiters
  held : (l t : ℕ) → ((s.lock_at l).holder == some t) ≡ fetches_at l (s.tasks t)

initial-Queued : (now : ℕ) → Queued (initial now)
initial-Queued now = record { queue = λ l t. refl; once = λ l. tt; held = λ l t. ground arith }

task_at-old :
    (task : Option Task) (l : ℕ)
    → ((k : Text) (m : ℕ) → (task ≡ some (waiting k m)) ⊎ (task ≡ some (fetching k m)) → m < l)
    → (waits_at l task ≡ false) × (fetches_at l task ≡ false)
task_at-old none l old = (refl, refl)
task_at-old (some (waiting k m)) l old = ground (arith, old k m (inl refl))
task_at-old (some (fetching k m)) l old = ground (arith, old k m (inr refl))
task_at-old (some (returned token)) l old = (refl, refl)
task_at-old (some raised) l old = (refl, refl)

-- Nobody is at a lock that is yet to be made.
waits_at-old :
    (s : Loop) (l t : ℕ)
    → Held s
    → l ≡ s.next_lock
    → (waits_at l (s.tasks t) ≡ false) × (fetches_at l (s.tasks t) ≡ false)
waits_at-old s l t h same = rw same (task_at-old (s.tasks t) s.next_lock (λ k m a. h.old t k m a))

-- The task is at no lock but that one.
abbrev OnlyAt : ℕ → Option Task → Type 0
OnlyAt l task = (m : ℕ) → (m == l) ≡ false → (waits_at m task ≡ false) × (fetches_at m task ≡ false)

if-intro :
    (P : AsyncLock → Type 0) (b : Bool) (x y : AsyncLock) → P x → P y → P (if b then x else y)
if-intro P true x y p q = p
if-intro P false x y p q = q

-- A task moves from one state at a lock to another, and only it and that lock change.
move-Queued :
    (s : Loop) (t : ℕ) (task : Task) (l : ℕ) (lock : AsyncLock)
    → Queued s
    → OnlyAt l (s.tasks t)
    → OnlyAt l (some task)
    → Distinct lock.waiters
    → ((u : ℕ)
        → contains lock.waiters u
          ≡ (if u == t then waits_at l (some task) else contains (s.lock_at l).waiters u))
    → ((u : ℕ)
        → (lock.holder == some u)
          ≡ (if u == t then fetches_at l (some task) else (s.lock_at l).holder == some u))
    → Queued (become t task (with_lock l lock s))
move-Queued s t task l lock q before after d ws hs = record {
  queue = λ m u. ground (arith, q.queue m u, ws u, before m, after m);
  once = λ m. if-intro (λ a. Distinct a.waiters) (m == l) lock (s.lock_at m) d (q.once m);
  held = λ m u. ground (arith, q.held m u, hs u, before m, after m);
}

at_none : (s : Loop) (t l : ℕ) → s.tasks t ≡ none → OnlyAt l (s.tasks t)
at_none s t l e m ne = rw e (refl, refl)

lock_for-Queued : (key : Text) (s : Loop) → Held s → Queued s → Queued (lock_for key s).1
unfolding lock_for
lock_for-Queued key s h q = elim (Option-cases (lookup key s.locks)) [
  | inl e ↦
      rw (lock_for, e)
        (record {
          queue = λ l t. ground (arith, q.queue l t, waits_at-old s l t h);
          once = λ l.
              if-intro (λ a. Distinct a.waiters) (l == s.next_lock) free_lock (s.lock_at l) tt
                (q.once l);
          held = λ l t. ground (arith, q.held l t, waits_at-old s l t h);
        })
  | inr (l, e) ↦ rw (lock_for, e) q
]

only_waiting : (k : Text) (l : ℕ) → OnlyAt l (some (waiting k l))
only_waiting k l m ne = ground arith

only_fetching : (k : Text) (l : ℕ) → OnlyAt l (some (fetching k l))
only_fetching k l m ne = ground arith

contains-append_one :
    (w t : ℕ) (ws : List ℕ) → contains (ws ++ (t ∷ [])) w ≡ (contains ws w || w == t)
contains-append_one w t [] = ground arith
contains-append_one w t (x ∷ ws) = ground (arith, contains-append_one w t ws)

Distinct-append_one :
    (t : ℕ) (ws : List ℕ) → Distinct ws → contains ws t ≡ false → Distinct (ws ++ (t ∷ []))
Distinct-append_one t [] d n = (refl, tt)
Distinct-append_one t (w ∷ ws) (f, d) n =
    (ground (arith, contains-append_one w t ws), Distinct-append_one t ws d (ground arith))

-- Who is not there yet is in no queue and holds nothing.
absent :
    (s : Loop) (t l : ℕ)
    → Queued s
    → s.tasks t ≡ none
    → (contains (s.lock_at l).waiters t ≡ false) × (((s.lock_at l).holder == some t) ≡ false)
absent s t l q fresh = (q.queue l t ∙ rw fresh refl, q.held l t ∙ rw fresh refl)

acquire-Queued :
    (t : ℕ) (key : Text) (l : ℕ) (s : Loop)
    → Queued s
    → s.tasks t ≡ none
    → Queued (acquire t key (l, s))
unfolding acquire locked
acquire-Queued t key l s q fresh =
    let (not_queued, not_holder) = absent s t l q fresh in
    elim (Bool-cases (is_free (s.lock_at l))) [
      | inl e ↦
          rw (acquire, e)
            (move-Queued s t (fetching key l) l _ q (at_none s t l fresh) (only_fetching key l)
              (q.once l) (λ u. ground arith) (λ u. ground arith))
      | inr e ↦
          rw (acquire, e)
            (move-Queued s t (waiting key l) l _ q (at_none s t l fresh) (only_waiting key l)
              (Distinct-append_one t (s.lock_at l).waiters (q.once l) not_queued)
              (λ u. ground (arith, contains-append_one u t (s.lock_at l).waiters))
              (λ u. ground arith))
    ]

return-Queued :
    (s : Loop) (t : ℕ) (token : Text)
    → Queued s
    → s.tasks t ≡ none
    → Queued (become t (returned token) s)
return-Queued s t token q fresh = record {
  queue = λ m u. ground (arith, q.queue m u);
  once = q.once;
  held = λ m u. ground (arith, q.held m u);
}

lock_for-tasks : (key : Text) (s : Loop) (t : ℕ) → (lock_for key s).1.tasks t ≡ s.tasks t
unfolding lock_for
lock_for-tasks key s t = elim (Option-cases (lookup key s.locks)) [
  | inl e ↦ rw (lock_for, e) refl
  | inr (l, e) ↦ rw (lock_for, e) refl
]

enter-Queued :
    (t : ℕ) (key : Text) (s : Loop) → Held s → Queued s → s.tasks t ≡ none → Queued (enter t key s)
unfolding enter
enter-Queued t key s h q fresh = elim (Option-cases (live s.now (lookup key s.entries))) [
  | inl e ↦
      rw (enter, e)
        (acquire-Queued t key (lock_for key s).0 (lock_for key s).1 (lock_for-Queued key s h q)
          (lock_for-tasks key s t ∙ fresh))
  | inr (token, e) ↦ rw (enter, e) (return-Queued s t token q fresh)
]

resume-Queued :
    (t : ℕ) (key : Text) (l : ℕ) (rest : List ℕ) (s : Loop)
    → Queued s
    → s.tasks t ≡ some (waiting key l)
    → s.lock_at l ≡ record { holder = none; waiters = t ∷ rest }
    → Queued (resume t key l rest s)
unfolding resume
resume-Queued t key l rest s q waits lock =
    let (first, others) = subst (λ (a : AsyncLock). Distinct a.waiters) lock (q.once l) in
    let before : OnlyAt l (s.tasks t) = rw waits (only_waiting key l) in
    elim (Option-cases (live s.now (lookup key s.entries))) [
      | inl e ↦
          rw (resume, e)
            (move-Queued s t (fetching key l) l _ q before (only_fetching key l) others
              (λ u. ground arith) (λ u. ground arith))
      | inr (token, e) ↦
          rw (resume, e)
            (move-Queued s t (returned token) l _ q before (λ m ne. (refl, refl)) others
              (λ u. ground arith) (λ u. ground arith))
    ]

-- A task that fetched under the lock ends and releases it.
leave-Queued :
    (s : Loop) (t : ℕ) (key : Text) (l : ℕ) (task : Task)
    → Queued s
    → s.tasks t ≡ some (fetching key l)
    → ((m : ℕ) → (waits_at m (some task) ≡ false) × (fetches_at m (some task) ≡ false))
    → Queued (become t task (release l s))
leave-Queued s t key l task q fetches over =
    move-Queued s t task l _ q (rw fetches (only_fetching key l)) (λ m ne. over m) (q.once l)
      (λ u. ground (arith, over l, q.queue l t)) (λ u. ground (arith, over l, q.held l t))

Step-Queued : {P : Loop → Type 0} {s u : Loop} → Step P s u → Held s → Queued s → Queued u
unfolding finish fail
Step-Queued (call s t key fresh) h q = enter-Queued t key s h q fresh
Step-Queued (wake s t key l rest waits lock) h q = resume-Queued t key l rest s q waits lock
Step-Queued (mint s t key l (token, ttl) fetches may) h q =
    let r = leave-Queued s t key l (returned token) q fetches (λ m. (refl, refl)) in
    record { queue = r.queue; once = r.once; held = r.held }
Step-Queued (crash s t key l fetches) h q =
    leave-Queued s t key l raised q fetches (λ m. (refl, refl))
Step-Queued (tick s n) h q = record { queue = q.queue; once = q.once; held = q.held }

Reach-Queued : {P : Loop → Type 0} {now : ℕ} {s : Loop} → Reach P now s → Queued s
Reach-Queued {now = now} here = initial-Queued now
Reach-Queued (next r step) = Step-Queued step (Reach-Held r) (Reach-Queued r)

fetches_at-some :
    (l : ℕ) (task : Option Task)
    → fetches_at l task ≡ true
    → (j : Text) × (task ≡ some (fetching j l))
fetches_at-some l none h = cc
fetches_at-some l (some (waiting k m)) h = cc
fetches_at-some l (some (fetching k m)) h = (k, rw (==→≡ m l h) refl)
fetches_at-some l (some (returned token)) h = cc
fetches_at-some l (some raised) h = cc

waits_at-some :
    (l : ℕ) (task : Option Task) → waits_at l task ≡ true → (j : Text) × (task ≡ some (waiting j l))
waits_at-some l none h = cc
waits_at-some l (some (waiting k m)) h = (k, rw (==→≡ m l h) refl)
waits_at-some l (some (fetching k m)) h = cc
waits_at-some l (some (returned token)) h = cc
waits_at-some l (some raised) h = cc

first_waiter :
    (ws : List ℕ) (t : ℕ) → contains ws t ≡ true → (u : ℕ) × (rest : List ℕ) × (ws ≡ u ∷ rest)
first_waiter [] t h = cc
first_waiter (u ∷ rest) t h = (u, rest, refl)

lock_of :
    (a : AsyncLock) (u : ℕ) (rest : List ℕ)
    → a.holder ≡ none
    → a.waiters ≡ u ∷ rest
    → a ≡ record { holder = none; waiters = u ∷ rest }
lock_of a u rest e ws i = record { holder = e i; waiters = ws i }

-- No waiter is forgotten: in every state that the loop can reach where a task waits for a lock,
-- some task fetches under that lock, or the first one that waits for it can run.
pub Reach-progress :
    (P : Loop → Type 0) (now : ℕ) (s : Loop) (t l : ℕ) (key : Text)
    → Reach P now s
    → s.tasks t ≡ some (waiting key l)
    → ((u : ℕ) × (j : Text) × (s.tasks u ≡ some (fetching j l)))
      ⊎ ((u : ℕ) × (j : Text) × (rest : List ℕ) × Step P s (resume u j l rest s))
Reach-progress P now s t l key r waits =
    let q = Reach-Queued r in
    elim (Option-cases (s.lock_at l).holder) [
      | inr (u, e) ↦
          let (j, fetches) =
            fetches_at-some l (s.tasks u)
              (sym (q.held l u) ∙ rw e (eq_self {A = Option ℕ} (some u))) in
          inl (u, j, fetches)
      | inl e ↦
          let (u, rest, ws) =
            first_waiter (s.lock_at l).waiters t (q.queue l t ∙ rw waits (eq_self l)) in
          let (j, first) = waits_at-some l (s.tasks u) (sym (q.queue l u) ∙ rw ws (ground arith)) in
          inr (u, j, rest, wake s u j l rest first (lock_of (s.lock_at l) u rest e ws))
    ]
