-- ===== src/Transports/Retry.antt =====
-- The retry loop of `HttpTransport.execute` and `GraphQlTransport.execute`, in a world that says
-- how each attempt ends.
pub mod Bounds
pub mod Steps
use mcp_portal.Base.{
  Bool, List, Option, Text, [], false, if◌then◌else◌, nat_eq, none, not, option_eq, some, suc,
  text_eq, true, zero, ℕ, ◌++◌, ◌+◌, ◌-◌, ◌>>=◌, ◌>>◌, ◌∷◌,
}
use mcp_portal.Operations.{
  Effect, effect_eq, idempotent_write, location_eq, read_only, sensitivity_eq,
}
use mcp_portal.Transports.Common.{is_retryable_status, max_attempts, retry_delay_ms, wait_for_retry}

pub record Response : Type 0 where
  pub status_code : ℕ
  pub retry_after : Option Text
  pub content_type : Text
  pub content : List ℕ
  pub text_value : Text

-- What `client.request` does: it raises `httpx.TimeoutException`, or it returns a response.
-- Other exceptions leave the loop as they do the program and are not modelled.
pub data Answer : Type 0 where
  timeout : Answer
  response : Response → Answer

-- The world of one call: the answer to each attempt, the time that has passed when the loop asks
-- whether to retry after it, and the draws of the jitter.
pub record World : Type 0 where
  pub answer : ℕ → Answer
  pub elapsed_ms : ℕ → ℕ
  pub jitter : ℕ → ℕ → ℕ

pub data Outcome : Type 0 where
  returned : Response → Outcome
  timed_out : Outcome

-- How the call ended, after how many requests and which waits.
pub record Run : Type 0 where
  pub outcome : Outcome
  pub requests : ℕ
  pub waits : List ℕ

unfoldable pub retryable : Effect → Bool
retryable read_only = true
retryable idempotent_write = true
retryable Effect.action = false

abbrev pub attempts_for : Effect → ℕ
attempts_for effect = if retryable effect then max_attempts else 1

module _ (max_total_ms : Option ℕ) (timeout_ms : ℕ) (world : World) where
  unfoldable pub wait : ℕ → Option Response → Option ℕ
  wait attempt none =
      wait_for_retry max_total_ms timeout_ms (world.elapsed_ms attempt)
        (retry_delay_ms (world.jitter attempt) attempt none none)
  wait attempt (some r) =
      wait_for_retry max_total_ms timeout_ms (world.elapsed_ms attempt)
        (retry_delay_ms (world.jitter attempt) attempt (some r.status_code) r.retry_after)

  -- `left` counts the attempts behind this one; at 0 it is the last.
  unfoldable pub attempt_from : ℕ → ℕ → List ℕ → Run
  attempt_from zero attempt waits = elim (world.answer attempt) [
    | timeout ↦ record { outcome = timed_out; requests = attempt + 1; waits = waits }
    | response r ↦ record { outcome = returned r; requests = attempt + 1; waits = waits }
  ]
  attempt_from (suc left) attempt waits =
      let retry = λ (delay : ℕ). attempt_from left (attempt + 1) (waits ++ (delay ∷ [])) in
      elim (world.answer attempt) [
        | timeout ↦ elim (wait attempt none) [
          | none ↦ record { outcome = timed_out; requests = attempt + 1; waits = waits }
          | some delay ↦ retry delay
        ]
        | response r ↦
            if not (is_retryable_status r.status_code)
            then record { outcome = returned r; requests = attempt + 1; waits = waits }
            else elim (wait attempt (some r)) [
              | none ↦ record { outcome = returned r; requests = attempt + 1; waits = waits }
              | some delay ↦ retry delay
            ]
      ]

  unfoldable pub run_attempts : Effect → Run
  run_attempts effect = attempt_from (attempts_for effect - 1) 0 []
