-- ===== src/TokenCache/Tasks.antt =====
-- The calls of `TokenCache.get_or_fetch` as tasks of one event loop. A step runs a task from one
-- `await` to the next, so nothing comes between the statements of a step.
use mcp_portal.Base.{
  Bool, Dict, List, Option, Text, [], erase, false, if◌then◌else◌, insert, is_empty, lookup, nat_eq,
  none, not, option_eq, some, suc, text_eq, true, ℕ, ◌&&◌, ◌++◌, ◌+◌, ◌==◌, ◌∷◌, ◌≡◌,
}
use mcp_portal.TokenCache.{Entries, expired, live, purge_expired}

-- `asyncio.Lock`: the task that set `_locked`, and the tasks that wait, the first one first. A
-- release wakes the first of them, which takes the lock when it runs; until then the lock is not
-- locked, but who comes later waits behind.
pub record AsyncLock : Type 0 where
  pub holder : Option ℕ
  pub waiters : List ℕ

abbrev pub free_lock : AsyncLock
free_lock = record { holder = none; waiters = [] }

unfoldable pub locked : AsyncLock → Bool
locked lock = elim lock.holder [ none ↦ false | some t ↦ true ]

pub data Task : Type 0 where
  waiting : Text → ℕ → Task
  fetching : Text → ℕ → Task
  returned : Text → Task
  raised : Task

-- `locks` maps a key to the number of its lock, and `lock_at` a number to the lock. Locks that are
-- in nobody's dict any more live on for the tasks that wait for them.
pub record Loop : Type 0 where
  pub entries : Entries
  pub locks : Dict Text ℕ
  pub lock_at : ℕ → AsyncLock
  pub next_lock : ℕ
  pub tasks : ℕ → Option Task
  pub now : ℕ

abbrev pub set {ℓ} : {A : Type ℓ} → ℕ → A → (ℕ → A) → ℕ → A
set i a f j = if j == i then a else f j

abbrev pub become : ℕ → Task → Loop → Loop
become t task s = record s { tasks = set t (some task) s.tasks }

abbrev pub with_lock : ℕ → AsyncLock → Loop → Loop
with_lock l lock s = record s { lock_at = set l lock s.lock_at }

-- `_lock_for`
unfoldable pub lock_for : Text → Loop → ℕ × Loop
lock_for key s = elim (lookup key s.locks) [
  | some l ↦ (l, s)
  | none ↦ (
    s.next_lock,
    record s {
      locks = insert key s.next_lock s.locks;
      lock_at = set s.next_lock free_lock s.lock_at;
      next_lock = suc s.next_lock;
    },
  )
]

abbrev pub is_free : AsyncLock → Bool
is_free lock = not (locked lock) && is_empty lock.waiters

-- `async with lock`, and the fetch if the lock is free: no time passes after the first look.
unfoldable pub acquire : ℕ → Text → ℕ × Loop → Loop
acquire t key (l, s) =
    let lock = s.lock_at l in
    if is_free lock
    then become t (fetching key l) (with_lock l (record lock { holder = some t }) s)
    else become t (waiting key l)
        (with_lock l (record lock { waiters = lock.waiters ++ (t ∷ []) }) s)

-- A call, up to its first `await`.
unfoldable pub enter : ℕ → Text → Loop → Loop
enter t key s = elim (live s.now (lookup key s.entries)) [
  | some token ↦ become t (returned token) s
  | none ↦ acquire t key (lock_for key s)
]

-- The first waiter runs: it returns the token that it finds, or fetches one with the lock held.
unfoldable pub resume : ℕ → Text → ℕ → List ℕ → Loop → Loop
resume t key l rest s = elim (live s.now (lookup key s.entries)) [
  | some token ↦
      become t (returned token) (with_lock l (record { holder = none; waiters = rest }) s)
  | none ↦ become t (fetching key l) (with_lock l (record { holder = some t; waiters = rest }) s)
]

abbrev pub release : ℕ → Loop → Loop
release l s = with_lock l (record (s.lock_at l) { holder = none }) s

-- The lock of a key that is purged goes too, unless it is locked.
unfoldable pub purge_lock : (ℕ → AsyncLock) → Text → Dict Text ℕ → Dict Text ℕ
purge_lock lock_at k locks = elim (lookup k locks) [
  | none ↦ locks
  | some l ↦ if locked (lock_at l) then locks else erase k locks
]

unfoldable pub purge_locks : (ℕ → AsyncLock) → List Text → Dict Text ℕ → Dict Text ℕ
purge_locks lock_at [] locks = locks
purge_locks lock_at (k ∷ ks) locks = purge_locks lock_at ks (purge_lock lock_at k locks)

-- A fetch ends with a token: it is stored, the rest is purged, and the lock is released.
unfoldable pub finish : ℕ → Text → ℕ → Text × ℕ → Loop → Loop
finish t key l (token, ttl) s =
    let entries = insert key (record { value = token; expires_at = s.now + ttl }) s.entries in
    become t (returned token) (
      release l (record s {
        entries = purge_expired s.now key entries;
        locks = purge_locks s.lock_at (expired s.now key entries) s.locks;
      }))

-- A fetch raises: the lock is released.
unfoldable pub fail : ℕ → ℕ → Loop → Loop
fail t l s = become t raised (release l s)

-- What the loop may run next. `MayFinish` says in which states a fetch may end.
pub data Step (MayFinish : Loop → Type 0) : Loop → Loop → Type 0 where
  call : (s : Loop) (t : ℕ) (key : Text) → s.tasks t ≡ none → Step MayFinish s (enter t key s)
  wake :
      (s : Loop) (t : ℕ) (key : Text) (l : ℕ) (rest : List ℕ)
      → s.tasks t ≡ some (waiting key l)
      → s.lock_at l ≡ record { holder = none; waiters = t ∷ rest }
      → Step MayFinish s (resume t key l rest s)
  mint :
      (s : Loop) (t : ℕ) (key : Text) (l : ℕ) (minted : Text × ℕ)
      → s.tasks t ≡ some (fetching key l)
      → MayFinish s
      → Step MayFinish s (finish t key l minted s)
  crash :
      (s : Loop) (t : ℕ) (key : Text) (l : ℕ)
      → s.tasks t ≡ some (fetching key l)
      → Step MayFinish s (fail t l s)
  tick : (s : Loop) (n : ℕ) → Step MayFinish s (record s { now = s.now + n })

abbrev pub initial : ℕ → Loop
initial now = record {
  entries = [];
  locks = [];
  lock_at = λ l. free_lock;
  next_lock = 0;
  tasks = λ t. none;
  now = now;
}

pub data Reach (MayFinish : Loop → Type 0) (now : ℕ) : Loop → Type 0 where
  here : Reach MayFinish now (initial now)
  next : {s u : Loop} → Reach MayFinish now s → Step MayFinish s u → Reach MayFinish now u
