-- ===== src/Resilience/Steps.antt =====
-- The circuit breaker of DependencyResilienceGuard: the four methods that change its state.
use media_center.Prelude.{ℕ, ◌+◌, ◌-◌, Bool, true, false, Option, none, some, leb, if◌then◌else◌}
use media_center.Resilience.{
  CircuitBreakerState, closed, opened, half_open, Seconds, DependencyFailure,
  DependencyResilienceGuard, Breaker, is_retryable, delay_for_attempt,
}

module _ {Time : Type 0} (s : Seconds Time) (guard : DependencyResilienceGuard Time) where
  -- self.clock(), and the guard after it
  abbrev pub reading : Breaker Time → Time
  reading b = guard.clock b.readings

  abbrev pub read : Breaker Time → Breaker Time
  read b = record b { readings = b.readings + 1 }

  -- _open_circuit
  unfoldable pub open_circuit : Breaker Time → Breaker Time
  open_circuit b = record (read b) {
    state = opened;
    opened_at = some (reading b);
    recovery_successes = 0;
  }

  -- _record_failure outside HALF_OPEN
  unfoldable pub count_failure : Breaker Time → Breaker Time
  unfolding open_circuit
  count_failure b =
      let counted = record b { consecutive_failures = b.consecutive_failures + 1 } in
      if leb guard.circuit_breaker_policy.failure_threshold counted.consecutive_failures
      then open_circuit counted
      else counted

  abbrev pub failure_in : CircuitBreakerState → Breaker Time → Breaker Time
  failure_in half_open b = open_circuit b
  failure_in closed b = count_failure b
  failure_in opened b = count_failure b

  -- _record_failure
  unfoldable pub record_failure : Breaker Time → Breaker Time
  record_failure b = failure_in b.state b

  abbrev pub close_circuit : Breaker Time → Breaker Time
  close_circuit b = record b {
    state = closed;
    consecutive_failures = 0;
    recovery_successes = 0;
    opened_at = none;
  }

  -- _record_success in HALF_OPEN
  unfoldable pub count_success : Breaker Time → Bool × Breaker Time
  count_success b =
      let counted = record b { recovery_successes = b.recovery_successes + 1 } in
      if leb guard.circuit_breaker_policy.recovery_success_threshold counted.recovery_successes
      then (true, close_circuit counted)
      else (false, counted)

  abbrev pub forget_failures : Breaker Time → Breaker Time
  forget_failures b = record b { consecutive_failures = 0; recovery_successes = 0 }

  abbrev pub success_in : CircuitBreakerState → Breaker Time → Bool × Breaker Time
  success_in half_open b = count_success b
  success_in closed b = (false, forget_failures b)
  success_in opened b = (false, forget_failures b)

  -- _record_success
  unfoldable pub record_success : Breaker Time → Bool × Breaker Time
  record_success b = success_in b.state b

  -- self.clock() - self._opened_at >= cooldown_seconds
  unfoldable pub has_cooled_down : Time → Breaker Time → Bool
  has_cooled_down opened_at b =
      s.at_most guard.circuit_breaker_policy.cooldown_seconds (s.minus (reading b) opened_at)

  abbrev pub ready_in : CircuitBreakerState → Option Time → Breaker Time → Breaker Time
  ready_in opened (some opened_at) b =
      if has_cooled_down opened_at b
      then record (read b) { state = half_open; recovery_successes = 0 }
      else read b
  ready_in _ _ b = b

  -- _transition_open_circuit_if_ready
  unfoldable pub transition_open_circuit_if_ready : Breaker Time → Breaker Time
  transition_open_circuit_if_ready b = ready_in b.state b.opened_at b

  -- elapsed + next_delay < total_seconds, if there is a total
  abbrev pub within_budget : Option Time → ℕ → Time → Breaker Time → Bool × Breaker Time
  within_budget none attempt started_at b = (true, b)
  within_budget (some total_seconds) attempt started_at b =
      let elapsed = s.minus (reading b) started_at in
      let next_delay = delay_for_attempt s guard.retry_policy (attempt - 1) in
      (s.less (s.plus elapsed next_delay) total_seconds, read b)

  abbrev pub when : Bool → Bool × Breaker Time → Breaker Time → Bool × Breaker Time
  when true next b = next
  when false next b = (false, b)

  abbrev pub is_open : CircuitBreakerState → Bool
  is_open opened = true
  is_open _ = false

  -- _should_retry
  unfoldable pub should_retry :
      DependencyFailure → ℕ → ℕ → Time → Breaker Time → Bool × Breaker Time
  should_retry failure attempt max_attempts started_at b =
      when
        (if is_open b.state
          then false
          else if leb max_attempts attempt
          then false
          else is_retryable guard.retry_policy failure)
        (within_budget guard.timeout_budget.total_seconds attempt started_at b) b
