-- ===== src/Transports/Retry/Steps.antt =====
-- One turn of the retry loop: it stops with the attempt's answer, or it waits and goes on.
use mcp_portal.Base.{
  Bool-cases, List, Option, Option-cases, Text, [], arith, false, inl, inr, nat_eq, none, option_eq,
  refl, some, suc, text_eq, true, zero, ℕ, ◌++◌, ◌+◌, ◌∷◌, ◌≡◌, ◌≢◌, ◌≤◌, ◌⊎◌,
}
use mcp_portal.Operations.{effect_eq, location_eq, sensitivity_eq}
use mcp_portal.Transports.Common.{
  is_retryable_status, retry_delay_ms, trusted_delay, wait_for_retry,
}
use mcp_portal.Transports.Retry.{
  Answer, Outcome, Response, Run, World, attempt_from, response, returned, timed_out, timeout, wait,
}

abbrev pub last_response : Answer → Option Response
last_response timeout = none
last_response (response r) = some r

abbrev pub answer_of : Outcome → Answer
answer_of (returned r) = response r
answer_of timed_out = timeout

-- An answer after which a call may be sent again.
abbrev pub MayRetry : Answer → Type 0
MayRetry timeout = Unit
MayRetry (response r) =
    (r.status_code ≡ 429)
    ⊎ ((r.status_code ≡ 502) ⊎ ((r.status_code ≡ 503) ⊎ (r.status_code ≡ 504)))

is_retryable_status-MayRetry :
    (r : Response) → is_retryable_status r.status_code ≡ true → MayRetry (response r)
unfolding is_retryable_status
is_retryable_status-MayRetry r h = ground arith

final-MayRetry :
    (r : Response) → is_retryable_status r.status_code ≡ false → ¬ (MayRetry (response r))
unfolding is_retryable_status
final-MayRetry r h m = ground arith

wait_for_retry-funds :
    (max_total_ms : Option ℕ) (timeout_ms elapsed delay d budget : ℕ)
    → wait_for_retry max_total_ms timeout_ms elapsed delay ≡ some d
    → (d ≡ delay) × (max_total_ms ≡ some budget → d + timeout_ms + elapsed ≤ budget)
unfolding wait_for_retry
wait_for_retry-funds max_total_ms timeout_ms elapsed delay d budget h = ground arith

trusted_delay-le :
    (status : Option ℕ) (header : Option Text) (d : ℕ)
    → trusted_delay status header ≡ some d
    → d ≤ 10000
unfolding trusted_delay
trusted_delay-le none header d h = cc
trusted_delay-le (some status) none d h = cc
trusted_delay-le (some status) (some header) d h = ground arith

module _ (max_total_ms : Option ℕ) (timeout_ms : ℕ) (world : World) where
  -- The wait after an attempt fits in the budget, with the attempt that it buys.
  abbrev pub Funds : ℕ → ℕ → Type 0
  Funds attempt d =
      (budget : ℕ) → max_total_ms ≡ some budget → d + timeout_ms + world.elapsed_ms attempt ≤ budget

  abbrev Stops : ℕ → List ℕ → Run → Type 0
  Stops attempt waits run =
      (run.requests ≡ attempt + 1)
      × (run.waits ≡ waits)
      × (answer_of run.outcome ≡ world.answer attempt)

  -- The attempt's answer is final, or the budget does not allow the wait that would follow it.
  abbrev pub IsFinal : ℕ → Type 0
  IsFinal attempt =
      ¬ (MayRetry (world.answer attempt))
      ⊎ ((max_total_ms ≢ none)
          × (wait max_total_ms timeout_ms world attempt (last_response (world.answer attempt))
              ≡ none))

  wait_for_retry-none :
      (elapsed delay : ℕ)
      → wait_for_retry max_total_ms timeout_ms elapsed delay ≡ none
      → max_total_ms ≢ none
  unfolding wait_for_retry
  wait_for_retry-none elapsed delay h e = absurd (some-none delay (rw (wait_for_retry, e) at h))
    where
      some-none : (d : ℕ) → ◌≢◌ {A = Option ℕ} (some d) none
      some-none d x = cc

  wait-none :
      (attempt : ℕ) (last : Option Response)
      → wait max_total_ms timeout_ms world attempt last ≡ none
      → max_total_ms ≢ none
  unfolding wait
  wait-none attempt none h =
      wait_for_retry-none (world.elapsed_ms attempt)
        (retry_delay_ms (world.jitter attempt) attempt none none) h
  wait-none attempt (some r) h =
      wait_for_retry-none (world.elapsed_ms attempt)
        (retry_delay_ms (world.jitter attempt) attempt (some r.status_code) r.retry_after) h

  abbrev Continues : ℕ → ℕ → List ℕ → Run → Type 0
  Continues left attempt waits run =
      (d : ℕ) × (run
        ≡ attempt_from max_total_ms timeout_ms world left (attempt + 1) (waits ++ (d ∷ [])))
      × MayRetry (world.answer attempt)
      × Funds attempt d
      × ((last : Option Response) × (wait max_total_ms timeout_ms world attempt last ≡ some d))

  wait-Funds :
      (attempt d : ℕ) (last : Option Response)
      → wait max_total_ms timeout_ms world attempt last ≡ some d
      → Funds attempt d
  unfolding wait
  wait-Funds attempt d none h budget e =
      (wait_for_retry-funds max_total_ms timeout_ms (world.elapsed_ms attempt) _ d budget h).1 e
  wait-Funds attempt d (some r) h budget e =
      (wait_for_retry-funds max_total_ms timeout_ms (world.elapsed_ms attempt) _ d budget h).1 e

  Answer-cases : (a : Answer) → (a ≡ timeout) ⊎ ((r : Response) × (a ≡ response r))
  Answer-cases timeout = inl refl
  Answer-cases (response r) = inr (r, refl)

  pub last_attempt :
      (attempt : ℕ) (waits : List ℕ)
      → Stops attempt waits (attempt_from max_total_ms timeout_ms world zero attempt waits)
  unfolding attempt_from
  last_attempt attempt waits = ground arith

  pub attempt_cases :
      (left attempt : ℕ) (waits : List ℕ)
      → (Stops attempt waits (attempt_from max_total_ms timeout_ms world (suc left) attempt waits)
          × IsFinal attempt)
        ⊎ Continues left attempt waits
            (attempt_from max_total_ms timeout_ms world (suc left) attempt waits)
  unfolding attempt_from
  attempt_cases left attempt waits = elim (Answer-cases (world.answer attempt)) [
    | inl e ↦ elim (Option-cases (wait max_total_ms timeout_ms world attempt none)) [
      | inl spent ↦ inl (ground arith, inr (wait-none attempt none spent, rw e spent))
      | inr (d, funded) ↦
          inr (d, ground arith, rw e tt, wait-Funds attempt d none funded, (none, funded))
    ]
    | inr (r, e) ↦ elim (Bool-cases (is_retryable_status r.status_code)) [
      | inr final ↦ inl (ground arith, inl (rw e (final-MayRetry r final)))
      | inl again ↦ elim (Option-cases (wait max_total_ms timeout_ms world attempt (some r))) [
        | inl spent ↦ inl (ground arith, inr (wait-none attempt (some r) spent, rw e spent))
        | inr (d, funded) ↦ inr (
          d,
          ground arith,
          rw e (is_retryable_status-MayRetry r again),
          wait-Funds attempt d (some r) funded,
          (some r, funded),
        )
      ]
    ]
  ]
