-- ===== src/Resilience/Execute.antt =====
-- DependencyResilienceGuard.execute. An operation is its outcome at each attempt, and the fallback
-- its outcome for each failure; neither uses the guard while it runs.
use media_center.Prelude.{
  ℕ, zero, suc, ◌+◌, ◌-◌, String, Bool, true, false, Option, none, some, ◌∷◌,
}
use media_center.Resilience.{
  CircuitBreakerState, closed, opened, half_open, succeeded, answered_degraded, unavailable,
  timeout, degraded, Raised, timeout_error, dependency_failure, exception, cancelled, Outcome,
  returned, raised, Seconds, DependencyFailure, DependencyResilienceGuard, Breaker,
  DependencyCallResult, delay_for_attempt,
}
use media_center.Resilience.Steps.{
  reading, read, record_failure, record_success, should_retry, transition_open_circuit_if_ready,
}

-- The end of the loop over the attempts: a value, with the number of the attempt and whether the
-- circuit closed; no value, with the last failure and the number of attempts; or CancelledError.
pub data LoopEnd (T : Type 0) : Type 0 where
  success : T → ℕ → Bool → LoopEnd T
  exhausted : Option DependencyFailure → ℕ → LoopEnd T
  interrupted : LoopEnd T

module _ {Time : Type 0} (s : Seconds Time) (guard : DependencyResilienceGuard Time) where
  -- _timeout_failure, _unknown_failure and _circuit_open_failure. The constructor of the failure
  -- leaves the guard's name, which is normalised, and these codes as they are.
  unfoldable pub timeout_failure : DependencyFailure
  timeout_failure = record {
    dependency_name = guard.dependency_name;
    dependency_kind = guard.dependency_kind;
    failure_mode = timeout;
    error_code = "dependency_timeout";
    message = "dependency call timed out";
    retryable = true;
  }

  unfoldable pub unknown_failure : String → DependencyFailure
  unknown_failure message = record {
    dependency_name = guard.dependency_name;
    dependency_kind = guard.dependency_kind;
    failure_mode = unavailable;
    error_code = "dependency_error";
    message = message;
    retryable = true;
  }

  unfoldable pub circuit_open_failure : DependencyFailure
  circuit_open_failure = record {
    dependency_name = guard.dependency_name;
    dependency_kind = guard.dependency_kind;
    failure_mode = degraded;
    error_code = "circuit_open";
    message = "dependency circuit breaker is open";
    retryable = true;
  }

  -- What the `except` clauses make of an exception: `none` if none of them catches it.
  unfoldable pub as_failure : Raised → Option DependencyFailure
  unfolding timeout_failure unknown_failure
  as_failure timeout_error = some timeout_failure
  as_failure (dependency_failure failure) = some failure
  as_failure (exception message) = some (unknown_failure message)
  as_failure cancelled = none

  abbrev pub call : Breaker Time → Breaker Time
  call b = record b { calls = b.calls + 1 }

  -- await self.sleeper(self.retry_policy.delay_for_attempt(attempt))
  abbrev pub sleep : ℕ → Breaker Time → Breaker Time
  sleep attempt b = record b {
    delays = delay_for_attempt s guard.retry_policy (attempt - 1) ∷ b.delays;
  }

  module _ {T : Type 0} (operation : ℕ → Outcome T) (max_attempts : ℕ) (started_at : Time) where
    abbrev pub Loop : Type 0
    Loop = Option DependencyFailure → Breaker Time → LoopEnd T × Breaker Time

    abbrev pub if_retried :
        DependencyFailure → ℕ → Loop → Bool × Breaker Time → LoopEnd T × Breaker Time
    if_retried failure attempt rest (true, b) = rest (some failure) (sleep attempt b)
    if_retried failure attempt rest (false, b) = (exhausted (some failure) attempt, b)

    unfoldable pub after_failure :
        Option DependencyFailure → ℕ → Loop → Breaker Time → LoopEnd T × Breaker Time
    after_failure none attempt rest b = (interrupted, b)
    after_failure (some failure) attempt rest b =
        if_retried failure attempt rest
          (should_retry s guard failure attempt max_attempts started_at (record_failure s guard b))

    -- What follows one attempt.
    abbrev pub after : Outcome T → ℕ → Loop → Breaker Time → LoopEnd T × Breaker Time
    after (returned value) attempt rest b =
        let (recovered, b') = record_success s guard b in (success value attempt recovered, b')
    after (raised error) attempt rest b = after_failure (as_failure error) attempt rest b

    -- The loop, with so many attempts left after `used` ones.
    unfoldable pub attempts_loop : ℕ → ℕ → Loop
    attempts_loop zero used last b = (exhausted last used, b)
    attempts_loop (suc left) used last b =
        after (operation (used + 1)) (used + 1) (attempts_loop left (used + 1)) (call b)

  module _ {T : Type 0} (fallback : Option (DependencyFailure → Outcome T)) where
    -- _fallback_or_raise
    unfoldable pub fallback_or_raise : DependencyFailure → Outcome T
    fallback_or_raise failure = elim fallback [
      | none ↦ raised (dependency_failure failure)
      | some handler ↦ handler failure
    ]

    -- _degraded_result on the value of the fallback, with what the latter raises
    unfoldable pub degraded_result :
        ℕ → Outcome T → DependencyFailure → String → Breaker Time → Outcome (DependencyCallResult T)
    degraded_result attempts (raised error) failure degraded_reason b = raised error
    degraded_result attempts (returned value) failure degraded_reason b = returned (record {
      dependency_name = guard.dependency_name;
      dependency_kind = guard.dependency_kind;
      status = answered_degraded;
      attempts = attempts;
      value = value;
      error_code = some failure.error_code;
      degraded_reason = some degraded_reason;
      circuit_state = b.state;
      recovered = false;
    })

    unfoldable pub succeeded_result : T → ℕ → Bool → Breaker Time → DependencyCallResult T
    succeeded_result value attempts recovered b = record {
      dependency_name = guard.dependency_name;
      dependency_kind = guard.dependency_kind;
      status = succeeded;
      attempts = attempts;
      value = value;
      error_code = none;
      degraded_reason = none;
      circuit_state = b.state;
      recovered = recovered;
    }

    -- What `execute` makes of the end of the loop; without a failure, `assert` raises.
    unfoldable pub finish :
        LoopEnd T × Breaker Time → Outcome (DependencyCallResult T) × Breaker Time
    finish (success value attempt recovered, b) =
        (returned (succeeded_result value attempt recovered b), b)
    finish (exhausted none attempts, b) = (raised (exception "AssertionError"), b)
    finish (exhausted (some failure) attempts, b) =
        (degraded_result attempts (fallback_or_raise failure) failure "retry_exhausted" b, b)
    finish (interrupted, b) = (raised cancelled, b)

    abbrev pub run_attempts :
        (ℕ → Outcome T) → ℕ → Breaker Time → Outcome (DependencyCallResult T) × Breaker Time
    run_attempts operation max_attempts b = finish (
        attempts_loop operation max_attempts (reading s guard b) max_attempts 0 none
          (read s guard b))

    abbrev pub execute_in :
        CircuitBreakerState
        → (ℕ → Outcome T)
        → Breaker Time
        → Outcome (DependencyCallResult T) × Breaker Time
    execute_in opened operation b = (
      degraded_result 0 (fallback_or_raise circuit_open_failure) circuit_open_failure "circuit_open"
          b,
      b,
    )
    execute_in half_open operation b = run_attempts operation 1 b
    execute_in closed operation b = run_attempts operation guard.retry_policy.max_attempts b

    -- DependencyResilienceGuard.execute
    unfoldable pub execute :
        (ℕ → Outcome T) → Breaker Time → Outcome (DependencyCallResult T) × Breaker Time
    execute operation before =
        let b = transition_open_circuit_if_ready s guard before in execute_in b.state operation b
