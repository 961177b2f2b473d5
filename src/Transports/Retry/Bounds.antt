-- ===== src/Transports/Retry/Bounds.antt =====
-- How often a call is sent, what its waits cost, and which answer it returns.
use mcp_portal.Base.{
  List, Option, [], ap, arith, count, inl, inr, length, length-append, nat_eq, option_eq, refl,
  subst, suc, text_eq, zero, ℕ, ◌++◌, ◌+◌, ◌-◌, ◌<◌, ◌∙◌, ◌∷◌, ◌≡◌, ◌≤◌, ◌⊎◌,
}
use mcp_portal.Operations.{
  Effect, effect_eq, idempotent_write, location_eq, read_only, sensitivity_eq,
}
use mcp_portal.Transports.Retry.{Run, World, attempt_from, attempts_for, retryable, run_attempts}
use mcp_portal.Transports.Retry.Steps.{
  Funds, IsFinal, MayRetry, answer_of, attempt_cases, last_attempt,
}

-- How often a call may be sent.
abbrev pub allowed_for : Effect → ℕ
allowed_for Effect.action = 1
allowed_for _ = 3

module _ (max_total_ms : Option ℕ) (timeout_ms : ℕ) (world : World) where
  abbrev go : ℕ → ℕ → List ℕ → Run
  go = attempt_from max_total_ms timeout_ms world

  attempt_from-requests :
      (left attempt : ℕ) (waits : List ℕ)
      → (attempt + 1 ≤ (go left attempt waits).requests)
        × ((go left attempt waits).requests ≤ attempt + left + 1)
  attempt_from-requests zero attempt waits =
      omega (arith, (last_attempt max_total_ms timeout_ms world attempt waits).0)
  attempt_from-requests (suc left) attempt waits =
      elim (attempt_cases max_total_ms timeout_ms world left attempt waits) [
        | inl ((n, _, _), _) ↦ omega arith
        | inr (d, same, _, _, _) ↦
            rw same (omega (arith, attempt_from-requests left (attempt + 1) (waits ++ (d ∷ []))))
      ]

  -- An action is sent once, whatever comes back. Any other call is sent one to three times.
  pub run_attempts-requests :
      (effect : Effect)
      → (1 ≤ (run_attempts max_total_ms timeout_ms world effect).requests)
        × ((run_attempts max_total_ms timeout_ms world effect).requests ≤ 3)
        × (effect ≡ Effect.action
            → (run_attempts max_total_ms timeout_ms world effect).requests ≡ 1)
  unfolding run_attempts retryable
  run_attempts-requests read_only =
      let (a, b) = attempt_from-requests 2 0 [] in (omega arith, omega arith, λ e. cc)
  run_attempts-requests idempotent_write =
      let (a, b) = attempt_from-requests 2 0 [] in (omega arith, omega arith, λ e. cc)
  run_attempts-requests Effect.action =
      let (a, b) = attempt_from-requests 0 0 [] in (omega arith, omega arith, λ e. omega arith)

  -- The answers from one attempt on, all of which let the call be sent again.
  abbrev pub AllRetried : ℕ → ℕ → Type 0
  AllRetried first count = (i : ℕ) → first ≤ i → i + 1 < count → MayRetry (world.answer i)

  -- The last of so many requests is the last that is allowed, or its answer ends the call.
  abbrev pub Ends : ℕ → ℕ → Type 0
  Ends allowed requests =
      (requests ≡ allowed) ⊎ IsFinal max_total_ms timeout_ms world (requests - 1)

  attempt_from-outcome :
      (left attempt : ℕ) (waits : List ℕ)
      → (answer_of (go left attempt waits).outcome
          ≡ world.answer ((go left attempt waits).requests - 1))
        × AllRetried attempt (go left attempt waits).requests
        × Ends (attempt + left + 1) (go left attempt waits).requests
  attempt_from-outcome zero attempt waits =
      let (n, _, e) = last_attempt max_total_ms timeout_ms world attempt waits in
      (rw n (e ∙ ap world.answer (omega arith)), (λ i a b. absurd (omega arith)), inl (omega arith))
  attempt_from-outcome (suc left) attempt waits =
      elim (attempt_cases max_total_ms timeout_ms world left attempt waits) [
        | inl ((n, _, e), final) ↦ (
          rw n (e ∙ ap world.answer (omega arith)),
          (λ i a b. absurd (omega arith)),
          inr (subst (IsFinal max_total_ms timeout_ms world) (omega arith) final),
        )
        | inr (d, same, again, _, _) ↦
            let (e, later, ends) = attempt_from-outcome left (attempt + 1) (waits ++ (d ∷ [])) in
            rw same (
              e,
              (λ i a b. elim (at_or_after attempt i a) [
                | inl here ↦ rw (← here) again
                | inr after ↦ later i after b
              ]),
              elim ends [ inl last ↦ inl (omega arith) | inr final ↦ inr final ],
            )
      ]
    where
      at_or_after : (k i : ℕ) → k ≤ i → (k ≡ i) ⊎ (k + 1 ≤ i)
      at_or_after k i h = grind arith

  -- A call ends with the answer to its last request. A request is followed by another only when it
  -- timed out or was answered 429, 502, 503 or 504, and such a request is followed by another as
  -- long as the call may be sent again, one time for an action and three for any other, and its
  -- total budget, if it has one, allows the wait.
  pub run_attempts-outcome :
      (effect : Effect)
      → let run = run_attempts max_total_ms timeout_ms world effect in
        (answer_of run.outcome ≡ world.answer (run.requests - 1))
        × AllRetried 0 run.requests
        × Ends (allowed_for effect) run.requests
  unfolding run_attempts retryable
  run_attempts-outcome read_only = attempt_from-outcome 2 0 []
  run_attempts-outcome idempotent_write = attempt_from-outcome 2 0 []
  run_attempts-outcome Effect.action = attempt_from-outcome 0 0 []

  -- The waits behind the attempts from `attempt` on.
  abbrev pub AllFunded : ℕ → List ℕ → Type 0
  AllFunded attempt [] = Unit
  AllFunded attempt (d ∷ ds) =
      Funds max_total_ms timeout_ms world attempt d × AllFunded (attempt + 1) ds

  AllFunded-snoc :
      (k : ℕ) (ds : List ℕ) (d : ℕ)
      → AllFunded k ds
      → Funds max_total_ms timeout_ms world (k + length ds) d
      → AllFunded k (ds ++ (d ∷ []))
  AllFunded-snoc k [] d a f =
      (subst (λ n. Funds max_total_ms timeout_ms world n d) (omega arith) f, tt)
  AllFunded-snoc k (x ∷ ds) d (g, a) f = (
    g,
    AllFunded-snoc (k + 1) ds d a
        (subst (λ n. Funds max_total_ms timeout_ms world n d) (omega arith) f),
  )

  attempt_from-AllFunded :
      (left attempt : ℕ) (waits : List ℕ)
      → length waits ≡ attempt
      → AllFunded 0 waits
      → AllFunded 0 (go left attempt waits).waits
  attempt_from-AllFunded zero attempt waits n a =
      rw (last_attempt max_total_ms timeout_ms world attempt waits).1 a
  attempt_from-AllFunded (suc left) attempt waits n a =
      elim (attempt_cases max_total_ms timeout_ms world left attempt waits) [
        | inl ((_, same, _), _) ↦ rw same a
        | inr (d, same, _, funds, _) ↦ rw same (
            attempt_from-AllFunded left (attempt + 1) (waits ++ (d ∷ []))
              (omega (arith, length-append waits (d ∷ [])))
              (AllFunded-snoc 0 waits d a
                (subst (λ k. Funds max_total_ms timeout_ms world k d) (omega arith) funds)))
      ]

  -- With a total budget, no wait begins that would leave too little of the budget for itself and
  -- one more attempt.
  pub run_attempts-AllFunded :
      (effect : Effect) → AllFunded 0 (run_attempts max_total_ms timeout_ms world effect).waits
  unfolding run_attempts
  run_attempts-AllFunded effect = attempt_from-AllFunded (attempts_for effect - 1) 0 [] refl tt
