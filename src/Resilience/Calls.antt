-- ===== src/Resilience/Calls.antt =====
-- The methods of the circuit breaker call no operation.
use media_center.Prelude.{
  ℕ, ◌+◌, ◌≡◌, inl, inr, refl, Bool, true, false, Option, none, some, leb, if◌then◌else◌,
  Bool-cases,
}
use media_center.Resilience.{
  CircuitBreakerState, closed, opened, half_open, Seconds, DependencyFailure,
  DependencyResilienceGuard, Breaker,
}
use media_center.Resilience.Steps.{
  open_circuit, count_failure, failure_in, record_failure, count_success, success_in,
  record_success, ready_in, transition_open_circuit_if_ready, within_budget, when, should_retry,
  has_cooled_down,
}

module _ {Time : Type 0} (s : Seconds Time) (guard : DependencyResilienceGuard Time) where
  pub record_failure-calls : (b : Breaker Time) → (record_failure s guard b).calls ≡ b.calls
  unfolding record_failure count_failure open_circuit
  record_failure-calls b = by_state b.state
    where
      counted :
          (k : Bool)
          → (if k
              then open_circuit s guard
                  (record b { consecutive_failures = b.consecutive_failures + 1 })
              else record b { consecutive_failures = b.consecutive_failures + 1 }).calls
            ≡ b.calls
      counted true = refl
      counted false = refl

      by_state : (st : CircuitBreakerState) → (failure_in s guard st b).calls ≡ b.calls
      by_state closed = counted _
      by_state opened = counted _
      by_state half_open = refl

  pub record_success-calls : (b : Breaker Time) → (record_success s guard b).1.calls ≡ b.calls
  unfolding record_success count_success
  record_success-calls b = by_state b.state
    where
      by_state : (st : CircuitBreakerState) → (success_in s guard st b).1.calls ≡ b.calls
      by_state closed = refl
      by_state opened = refl
      by_state half_open =
          elim (Bool-cases (
            leb guard.circuit_breaker_policy.recovery_success_threshold
              (b.recovery_successes + 1))) [ inl k ↦ rw k refl | inr k ↦ rw k refl ]

  pub transition-calls :
      (b : Breaker Time) → (transition_open_circuit_if_ready s guard b).calls ≡ b.calls
  unfolding transition_open_circuit_if_ready
  transition-calls b = by_state b.state b.opened_at
    where
      by_state :
          (st : CircuitBreakerState) (at : Option Time) → (ready_in s guard st at b).calls ≡ b.calls
      by_state closed at = refl
      by_state half_open at = refl
      by_state opened none = refl
      by_state opened (some t) = elim (Bool-cases (has_cooled_down s guard t b)) [
        | inl k ↦ rw k refl
        | inr k ↦ rw k refl
      ]

  pub should_retry-calls :
      (f : DependencyFailure) (attempt m : ℕ) (t : Time) (b : Breaker Time)
      → (should_retry s guard f attempt m t b).1.calls ≡ b.calls
  unfolding should_retry
  should_retry-calls f attempt m t b = by_test _ guard.timeout_budget.total_seconds
    where
      by_test :
          (test : Bool) (total : Option Time)
          → (when s guard test (within_budget s guard total attempt t b) b).1.calls ≡ b.calls
      by_test true none = refl
      by_test true (some total) = refl
      by_test false total = refl
