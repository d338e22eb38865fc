-- ===== src/Resilience/Safety.antt =====
-- What always holds of the circuit breaker, however the calls of one guard interleave.
use media_center.Prelude.{
  ℕ, zero, suc, ◌+◌, ◌<◌, ◌≡◌, refl, Bool, true, false, Option, none, some, List, [], ◌∷◌, leb,
  is_some, arith, Bool-cases, inl, inr,
}
use media_center.Resilience.{
  CircuitBreakerState, closed, opened, half_open, Seconds, DependencyFailure, Outcome, returned,
  raised, DependencyResilienceGuard, Breaker, is_circuit_breaker_policy,
}
use media_center.Resilience.Steps.{
  read, open_circuit, count_failure, failure_in, record_failure, count_success, success_in,
  record_success, ready_in, transition_open_circuit_if_ready, within_budget, when, should_retry,
  has_cooled_down,
}
use media_center.Resilience.Execute.{
  Loop, if_retried, after_failure, after, attempts_loop, finish, execute_in, execute, as_failure,
  LoopEnd, success, exhausted, interrupted, call, sleep,
}

module _ {Time : Type 0} (s : Seconds Time) (guard : DependencyResilienceGuard Time) where
  -- A closed circuit has counted fewer failures than open it and knows no time of opening; an open
  -- or half-open one knows that time; and fewer successes are counted than close it, none unless
  -- it is half-open.
  abbrev pub IsWellIn : CircuitBreakerState → ℕ → ℕ → Option Time → Type 0
  IsWellIn closed failures successes opened_at =
      (failures < guard.circuit_breaker_policy.failure_threshold)
      × (successes ≡ 0)
      × (opened_at ≡ none)
  IsWellIn opened failures successes opened_at = (is_some opened_at ≡ true) × (successes ≡ 0)
  IsWellIn half_open failures successes opened_at =
      (is_some opened_at ≡ true)
      × (successes < guard.circuit_breaker_policy.recovery_success_threshold)

  abbrev pub IsWell : Breaker Time → Type 0
  IsWell b = IsWellIn b.state b.consecutive_failures b.recovery_successes b.opened_at

  -- What runs between two `await`s of a call, on the breaker.
  pub data Step : Type 0 where
    check_cooldown failure_recorded success_recorded clock_read operation_called : Step
    slept : ℕ → Step

  pub perform_step : Step → Breaker Time → Breaker Time
  perform_step check_cooldown b = transition_open_circuit_if_ready s guard b
  perform_step failure_recorded b = record_failure s guard b
  perform_step success_recorded b = (record_success s guard b).1
  perform_step clock_read b = read s guard b
  perform_step operation_called b = call s guard b
  perform_step (slept attempt) b = sleep s guard attempt b

  pub perform_steps : List Step → Breaker Time → Breaker Time
  perform_steps [] b = b
  perform_steps (step ∷ steps) b = perform_steps steps (perform_step step b)

  count_failure-IsWell :
      (st : CircuitBreakerState) (b : Breaker Time)
      → b.state ≡ st
      → IsWellIn st b.consecutive_failures b.recovery_successes b.opened_at
      → IsWell (failure_in s guard st b)
  unfolding count_failure open_circuit
  count_failure-IsWell half_open b e h = (refl, refl)
  count_failure-IsWell closed b e h =
      elim (Bool-cases
        (leb guard.circuit_breaker_policy.failure_threshold (b.consecutive_failures + 1))) [
          | inl k ↦ rw k (refl, refl)
          | inr k ↦ rw k (rw e (ground arith, h.1, h.2))
        ]
  count_failure-IsWell opened b e h =
      elim (Bool-cases
        (leb guard.circuit_breaker_policy.failure_threshold (b.consecutive_failures + 1))) [
          | inl k ↦ rw k (refl, refl)
          | inr k ↦ rw k (rw e h)
        ]

  success-IsWell :
      (st : CircuitBreakerState) (b : Breaker Time)
      → is_circuit_breaker_policy s guard.circuit_breaker_policy ≡ true
      → b.state ≡ st
      → IsWellIn st b.consecutive_failures b.recovery_successes b.opened_at
      → IsWell (success_in s guard st b).1
  unfolding count_success is_circuit_breaker_policy
  success-IsWell closed b v e h = rw e (ground arith, refl, h.2)
  success-IsWell opened b v e h = rw e (h.0, refl)
  success-IsWell half_open b v e h =
      elim (Bool-cases
        (leb guard.circuit_breaker_policy.recovery_success_threshold (b.recovery_successes + 1))) [
          | inl k ↦ rw k (ground arith, refl, refl)
          | inr k ↦ rw k (rw e (h.0, ground arith))
        ]

  ready-IsWell :
      (st : CircuitBreakerState) (at : Option Time) (b : Breaker Time)
      → is_circuit_breaker_policy s guard.circuit_breaker_policy ≡ true
      → b.state ≡ st
      → b.opened_at ≡ at
      → IsWellIn st b.consecutive_failures b.recovery_successes b.opened_at
      → IsWell (ready_in s guard st at b)
  unfolding is_circuit_breaker_policy
  ready-IsWell closed at b v e f h = rw e h
  ready-IsWell half_open at b v e f h = rw e h
  ready-IsWell opened none b v e f h = rw e h
  ready-IsWell opened (some t) b v e f h = elim (Bool-cases (has_cooled_down s guard t b)) [
    | inl k ↦ rw k (h.0, ground arith)
    | inr k ↦ rw k (rw e h)
  ]

  abbrev pub IsValid : Type 0
  IsValid = is_circuit_breaker_policy s guard.circuit_breaker_policy ≡ true

  perform_step-IsWell :
      (step : Step) (b : Breaker Time) → IsValid → IsWell b → IsWell (perform_step step b)
  unfolding perform_step record_failure record_success transition_open_circuit_if_ready
  perform_step-IsWell check_cooldown b v h = ready-IsWell b.state b.opened_at b v refl refl h
  perform_step-IsWell failure_recorded b v h = count_failure-IsWell b.state b refl h
  perform_step-IsWell success_recorded b v h = success-IsWell b.state b v refl h
  perform_step-IsWell clock_read b v h = h
  perform_step-IsWell operation_called b v h = h
  perform_step-IsWell (slept attempt) b v h = h

  -- However the calls of one guard with a valid policy interleave at their `await`s, the circuit
  -- breaker stays well-formed.
  pub perform_steps-IsWell :
      (steps : List Step) (b : Breaker Time) → IsValid → IsWell b → IsWell (perform_steps steps b)
  unfolding perform_steps
  perform_steps-IsWell [] b v h = h
  perform_steps-IsWell (step ∷ steps) b v h =
      perform_steps-IsWell steps (perform_step step b) v (perform_step-IsWell step b v h)

  when-IsWell :
      (test : Bool) (total : Option Time) (attempt : ℕ) (t : Time) (b : Breaker Time)
      → IsWell b
      → IsWell (when s guard test (within_budget s guard total attempt t b) b).1
  when-IsWell true none attempt t b h = h
  when-IsWell true (some total) attempt t b h = h
  when-IsWell false total attempt t b h = h

  module _ {T : Type 0} (operation : ℕ → Outcome T) (max_attempts : ℕ) (started_at : Time) where
    should_retry-IsWell :
        (f : DependencyFailure) (attempt : ℕ) (b : Breaker Time)
        → IsWell b
        → IsWell (should_retry s guard f attempt max_attempts started_at b).1
    unfolding should_retry
    should_retry-IsWell f attempt b h = when-IsWell _ _ attempt started_at b h

    abbrev KeepsWell : Loop s guard operation max_attempts started_at → Type 0
    KeepsWell rest =
        (last : Option DependencyFailure) (b : Breaker Time) → IsWell b → IsWell (rest last b).1

    if_retried-IsWell :
        (f : DependencyFailure) (attempt : ℕ)
        (rest : Loop s guard operation max_attempts started_at) (answer : Bool × Breaker Time)
        → KeepsWell rest
        → IsWell answer.1
        → IsWell (if_retried s guard operation max_attempts started_at f attempt rest answer).1
    if_retried-IsWell f attempt rest (true, b) k h = k (some f) (sleep s guard attempt b) h
    if_retried-IsWell f attempt rest (false, b) k h = h

    after-IsWell :
        (outcome : Outcome T) (attempt : ℕ) (rest : Loop s guard operation max_attempts started_at)
        (b : Breaker Time)
        → IsValid
        → KeepsWell rest
        → IsWell b
        → IsWell (after s guard operation max_attempts started_at outcome attempt rest b).1
    unfolding after_failure record_success perform_step record_failure
    after-IsWell (returned value) attempt rest b v k h = perform_step-IsWell success_recorded b v h
    after-IsWell (raised error) attempt rest b v k h = caught (as_failure s guard error)
      where
        caught :
            (f : Option DependencyFailure)
            → IsWell (after_failure s guard operation max_attempts started_at f attempt rest b).1
        caught none = h
        caught (some f) =
            if_retried-IsWell f attempt rest
              (should_retry s guard f attempt max_attempts started_at (record_failure s guard b)) k
              (should_retry-IsWell f attempt (record_failure s guard b)
                (perform_step-IsWell failure_recorded b v h))

    attempts_loop-IsWell :
        (left used : ℕ)
        → IsValid
        → KeepsWell (attempts_loop s guard operation max_attempts started_at left used)
    unfolding attempts_loop
    attempts_loop-IsWell zero used v last b h = h
    attempts_loop-IsWell (suc left) used v last b h =
        after-IsWell (operation (used + 1)) (used + 1)
          (attempts_loop s guard operation max_attempts started_at left (used + 1)) (call s guard b)
          v (attempts_loop-IsWell left (used + 1) v) h

  module _ {T : Type 0} (fallback : Option (DependencyFailure → Outcome T)) where
    finish-IsWell :
        (r : LoopEnd T × Breaker Time) → IsWell r.1 → IsWell (finish s guard fallback r).1
    unfolding finish
    finish-IsWell (success v n r, b) h = h
    finish-IsWell (exhausted none n, b) h = h
    finish-IsWell (exhausted (some f) n, b) h = h
    finish-IsWell (interrupted, b) h = h

    execute_in-IsWell :
        (st : CircuitBreakerState) (operation : ℕ → Outcome T) (b : Breaker Time)
        → IsValid
        → IsWell b
        → IsWell (execute_in s guard fallback st operation b).1
    execute_in-IsWell opened operation b v h = h
    execute_in-IsWell half_open operation b v h =
        finish-IsWell _
          (attempts_loop-IsWell operation 1 (guard.clock b.readings) 1 0 v none (read s guard b) h)
    execute_in-IsWell closed operation b v h =
        finish-IsWell _
          (attempts_loop-IsWell operation _ (guard.clock b.readings) _ 0 v none (read s guard b) h)

    pub execute-IsWell :
        (operation : ℕ → Outcome T) (b : Breaker Time)
        → IsValid
        → IsWell b
        → IsWell (execute s guard fallback operation b).1
    unfolding execute perform_step
    execute-IsWell operation b v h =
        execute_in-IsWell (transition_open_circuit_if_ready s guard b).state operation
          (transition_open_circuit_if_ready s guard b) v (perform_step-IsWell check_cooldown b v h)
