-- ===== src/Tests/Tasks.antt =====
-- Calls that share a token cache, one interleaving at a time.
use mcp_portal.Base.{
  List, Text, [], nat_eq, none, option_eq, refl, some, text, text_eq, ℕ, ◌≡◌, ◌⊎◌,
}
use mcp_portal.TokenCache.Tasks.{
  Loop, Reach, Step, acquire, call, enter, fetching, finish, here, initial, lock_for, locked, mint,
  next, purge_lock, purge_locks, resume, waiting, wake,
}
use mcp_portal.TokenCache.SingleFlight.{IsSettled, Reach-one_per_key}
use mcp_portal.TokenCache.Progress.{Reach-progress}
use mcp_portal.TokenCache.{erase_all, expired, live, purge_expired}

abbrev Always : Loop → Type 0
Always s = Unit

abbrev one_call : Loop
one_call = enter 0 (text "a") (initial 0)

-- A second call for the key waits.
abbrev two_calls : Loop
two_calls = enter 1 (text "a") one_call

two_calls-reached : (P : Loop → Type 0) → Reach P 0 two_calls
unfolding enter live acquire locked lock_for nat_eq
two_calls-reached P =
    next (next here (call (initial 0) 0 (text "a") refl)) (call one_call 1 (text "a") second_is_new)
  where
    second_is_new : one_call.tasks 1 ≡ none
    second_is_new = refl

first_fetches : two_calls.tasks 0 ≡ some (fetching (text "a") 0)
unfolding enter live acquire locked lock_for nat_eq text_eq
first_fetches = refl

second_waits : two_calls.tasks 1 ≡ some (waiting (text "a") 0)
unfolding enter live acquire locked lock_for nat_eq text_eq
second_waits = refl

Reach-one_per_key_example : ◌≡◌ {A = ℕ} 0 0
Reach-one_per_key_example =
    Reach-one_per_key 0 two_calls 0 0 0 0 (text "a") (two_calls-reached IsSettled) first_fetches
      first_fetches

Reach-progress_example :
    ((u : ℕ) × (j : Text) × (two_calls.tasks u ≡ some (fetching j 0)))
    ⊎ ((u : ℕ) × (j : Text) × (rest : List ℕ) × Step Always two_calls (resume u j 0 rest two_calls))
Reach-progress_example =
    Reach-progress Always 0 two_calls 1 0 (text "a") (two_calls-reached Always) second_waits

-- A third call, for another key, whose fetch ends after the first one's release and before the
-- waiter has run.
abbrev three_calls : Loop
three_calls = enter 2 (text "b") two_calls

-- The first fetch brings a token that is expired at once.
abbrev released : Loop
released = finish 0 (text "a") 0 (text "t", 0) three_calls

abbrev purged : Loop
purged = finish 2 (text "b") 1 (text "u", 9) released

abbrev resumed : Loop
resumed = resume 1 (text "a") 0 [] purged

abbrev raced : Loop
raced = enter 3 (text "a") resumed

raced-reached : Reach Always 0 raced
unfolding enter live acquire locked lock_for nat_eq text_eq finish resume purge_expired erase_all
    expired
raced-reached =
    next
      (next
        (next
          (next (next (two_calls-reached Always) (call two_calls 2 (text "b") refl))
            (mint three_calls 0 (text "a") 0 (text "t", 0) refl tt))
          (mint released 2 (text "b") 1 (text "u", 9) refl tt))
        (wake purged 1 (text "a") 0 [] refl refl))
      (call resumed 3 (text "a") refl)

-- Two tasks fetch for one key: the purge dropped a lock that was free and had a waiter.
raced-twice :
    (raced.tasks 1 ≡ some (fetching (text "a") 0)) × (raced.tasks 3 ≡ some (fetching (text "a") 2))
unfolding enter live resume finish purge_expired erase_all expired acquire locked lock_for nat_eq
    text_eq purge_locks purge_lock
raced-twice = (refl, refl)
