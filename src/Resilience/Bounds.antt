-- ===== src/Resilience/Bounds.antt =====
-- How often `execute` calls its operation, and what it makes of the outcomes.
use media_center.Prelude.{
  ℕ, String, zero, suc, ◌+◌, ◌<◌, ◌≤◌, ◌≡◌, ◌⊎◌, inl, inr, refl, sym, ap, ◌∙◌, Bool, true, false,
  Option, none, some, leb, arith, Bool-cases,
}
use media_center.Resilience.{
  CircuitBreakerState, closed, opened, half_open, Seconds, DependencyFailure, Outcome, returned,
  raised, cancelled, timeout_error, dependency_failure, exception, Raised,
  DependencyResilienceGuard, Breaker, DependencyCallResult, timeout, unavailable, degraded,
  succeeded, answered_degraded,
}
use media_center.Resilience.Steps.{
  read, record_failure, transition_open_circuit_if_ready, should_retry,
}
use media_center.Resilience.Execute.{
  Loop, if_retried, after_failure, after, attempts_loop, finish, run_attempts, execute_in, execute,
  as_failure, timeout_failure, unknown_failure, LoopEnd, success, exhausted, interrupted, call,
  sleep, degraded_result, fallback_or_raise, circuit_open_failure, succeeded_result,
}
use media_center.Resilience.Calls.{
  record_failure-calls, record_success-calls, transition-calls, should_retry-calls,
}

module _ {Time : Type 0} (s : Seconds Time) (guard : DependencyResilienceGuard Time) where
  only_cancelled : (e : Raised) → as_failure s guard e ≡ none → e ≡ cancelled
  unfolding as_failure
  only_cancelled timeout_error h = cc
  only_cancelled (dependency_failure f) h = cc
  only_cancelled (exception m) h = cc
  only_cancelled cancelled h = refl

  -- The failure that stands for an exception that is caught: a cancellation is not.
  abbrev pub caught_as : Raised → Option DependencyFailure
  caught_as timeout_error = some (record {
    dependency_name = guard.dependency_name;
    dependency_kind = guard.dependency_kind;
    failure_mode = timeout;
    error_code = "dependency_timeout";
    message = "dependency call timed out";
    retryable = true;
  })
  caught_as (dependency_failure failure) = some failure
  caught_as (exception message) = some (record {
    dependency_name = guard.dependency_name;
    dependency_kind = guard.dependency_kind;
    failure_mode = unavailable;
    error_code = "dependency_error";
    message = message;
    retryable = true;
  })
  caught_as cancelled = none

  pub caught_as-as_failure : (e : Raised) → caught_as e ≡ as_failure s guard e
  unfolding as_failure timeout_failure unknown_failure
  caught_as-as_failure timeout_error = refl
  caught_as-as_failure (dependency_failure f) = refl
  caught_as-as_failure (exception m) = refl
  caught_as-as_failure cancelled = refl

  -- The failure of a call on an open circuit
  abbrev pub open_failure : DependencyFailure
  open_failure = record {
    dependency_name = guard.dependency_name;
    dependency_kind = guard.dependency_kind;
    failure_mode = degraded;
    error_code = "circuit_open";
    message = "dependency circuit breaker is open";
    retryable = true;
  }

  module _ {T : Type 0} (operation : ℕ → Outcome T) where
    -- The attempt ended with an exception that is caught, as this failure.
    abbrev pub FailsWith : ℕ → DependencyFailure → Type 0
    FailsWith attempt f = (e : Raised) × (operation attempt ≡ raised e) × (caught_as e ≡ some f)

    abbrev pub Fails : ℕ → Type 0
    Fails attempt = (f : DependencyFailure) × FailsWith attempt f

    -- The end of the loop at this attempt.
    abbrev pub EndsAt : LoopEnd T → ℕ → Type 0
    EndsAt (success value attempts recovered) n = (attempts ≡ n) × (operation n ≡ returned value)
    EndsAt (exhausted (some f) attempts) n = (attempts ≡ n) × FailsWith n f
    EndsAt (exhausted none attempts) n = ⊥
    EndsAt interrupted n = operation n ≡ raised cancelled

    abbrev LastFailed : Option DependencyFailure → ℕ → Type 0
    LastFailed none n = ⊥
    LastFailed (some f) n = FailsWith n f

    -- After `used` attempts with so many left, the loop ends at an attempt `m`, and each one
    -- before it that the loop ran has failed.
    Answers : ℕ → ℕ → ℕ → Breaker Time → LoopEnd T × Breaker Time → Type 0
    Answers least used left b r =
        (m : ℕ) × (least ≤ m)
        × (m ≤ used + left)
        × (r.1.calls + used ≡ b.calls + m)
        × ((j : ℕ) → used < j → j < m → Fails j)
        × EndsAt r.0 m

    module _ (max_attempts : ℕ) (started_at : Time) where
      abbrev RestAnswers : Loop s guard operation max_attempts started_at → ℕ → ℕ → Type 0
      RestAnswers rest used left =
          (last : Option DependencyFailure) (b : Breaker Time)
          → LastFailed last used
          → Answers used used left b (rest last b)

      after_one :
          (used left : ℕ) (f : DependencyFailure) (b b' : Breaker Time)
          (r : LoopEnd T × Breaker Time)
          → FailsWith (used + 1) f
          → b'.calls ≡ b.calls + 1
          → Answers (used + 1) (used + 1) left b' r
          → Answers (used + 1) used (suc left) b r
      unfolding Answers
      after_one used left f b b' r failed c (m, low, high, counted, earlier, end) =
          (m, omega arith, omega arith, omega arith, before, end)
        where
          before : (j : ℕ) → used < j → j < m → Fails j
          before j l h = elim (Bool-cases (leb j (used + 1))) [
            | inl k ↦ let same : used + 1 ≡ j = ground arith in rw (sym same) (f, failed)
            | inr k ↦ earlier j (ground arith) h
          ]

      after-Answers :
          (used left : ℕ) (rest : Loop s guard operation max_attempts started_at) (b : Breaker Time)
          → RestAnswers rest (used + 1) left
          → Answers (used + 1) used (suc left) b (
              after s guard operation max_attempts started_at
                (operation (used + 1))
                (used + 1)
                rest
                (call s guard b))
      unfolding after_failure Answers
      after-Answers used left rest b k = by_outcome (operation (used + 1)) refl
        where
          retried :
              (f : DependencyFailure) (answer : Bool × Breaker Time)
              → FailsWith (used + 1) f
              → answer.1.calls ≡ b.calls + 1
              → Answers
                  (used + 1)
                  used
                  (suc left)
                  b
                  (if_retried s guard operation max_attempts started_at f (used + 1) rest answer)
          retried f (true, b') failed c =
              after_one used left f b (sleep s guard (used + 1) b')
                (rest (some f) (sleep s guard (used + 1) b')) failed c
                (k (some f) (sleep s guard (used + 1) b') failed)
          retried f (false, b') failed c = (
            used + 1,
            omega arith,
            omega arith,
            omega arith,
            (λ j l h. absurd (omega arith)),
            (refl, failed),
          )

          caught :
              (e : Raised) (f : Option DependencyFailure)
              → operation (used + 1) ≡ raised e
              → as_failure s guard e ≡ f
              → Answers (used + 1) used (suc left) b (
                  after_failure s guard operation max_attempts started_at f
                    (used + 1)
                    rest
                    (call s guard b))
          caught e none o q = (
            used + 1,
            omega arith,
            omega arith,
            omega arith,
            (λ j l h. absurd (omega arith)),
            o ∙ ap raised (only_cancelled e q),
          )
          caught e (some f) o q =
              retried f
                (should_retry s guard f (used + 1) max_attempts started_at
                  (record_failure s guard (call s guard b)))
                (e, o, caught_as-as_failure e ∙ q)
                (should_retry-calls s guard f (used + 1) max_attempts started_at
                    (record_failure s guard (call s guard b))
                  ∙ record_failure-calls s guard (call s guard b))

          by_outcome :
              (o : Outcome T)
              → operation (used + 1) ≡ o
              → Answers (used + 1) used (suc left) b (
                  after s guard operation max_attempts started_at o
                    (used + 1)
                    rest
                    (call s guard b))
          by_outcome (returned value) q = (
            used + 1,
            omega arith,
            omega arith,
            omega (arith, record_success-calls s guard (call s guard b)),
            (λ j l h. absurd (omega arith)),
            (refl, q),
          )
          by_outcome (raised e) q = caught e (as_failure s guard e) q refl

      attempts_loop-Answers :
          (left used : ℕ) (last : Option DependencyFailure) (b : Breaker Time)
          → LastFailed last used
          → Answers used used left b
              (attempts_loop s guard operation max_attempts started_at left used last b)
      unfolding attempts_loop Answers
      attempts_loop-Answers zero used none b h = absurd h
      attempts_loop-Answers zero used (some f) b h =
          (used, omega arith, omega arith, refl, (λ j l h. absurd (omega arith)), (refl, h))
      attempts_loop-Answers (suc left) used last b h =
          let (m, low, high, counted, earlier, end) =
            after-Answers used left
              (attempts_loop s guard operation max_attempts started_at left (used + 1)) b
              (attempts_loop-Answers left (used + 1)) in
          (m, omega arith, high, counted, earlier, end)

      first_attempt-Answers :
          (left : ℕ) (b : Breaker Time)
          → 0 < left
          → Answers 1 0 left b
              (attempts_loop s guard operation max_attempts started_at left 0 none b)
      unfolding attempts_loop
      first_attempt-Answers zero b h = absurd (omega arith)
      first_attempt-Answers (suc left) b h =
          after-Answers 0 left (attempts_loop s guard operation max_attempts started_at left 1) b
            (attempts_loop-Answers left 1)

    -- What a failure is answered with: the failure itself without a fallback, and what the fallback
    -- makes of it with one.
    abbrev pub fallback_answer :
        Option (DependencyFailure → Outcome T) → DependencyFailure → Outcome T
    fallback_answer none f = raised (dependency_failure f)
    fallback_answer (some handler) f = handler f

    -- The answer for a failure: what is raised is raised, and a value is a degraded result.
    abbrev pub degraded_answer :
        ℕ
        → DependencyFailure
        → String
        → CircuitBreakerState
        → Outcome T
        → Outcome (DependencyCallResult T)
    degraded_answer attempts f reason state (raised e) = raised e
    degraded_answer attempts f reason state (returned value) = returned (record {
      dependency_name = guard.dependency_name;
      dependency_kind = guard.dependency_kind;
      status = answered_degraded;
      attempts = attempts;
      value = value;
      error_code = some f.error_code;
      degraded_reason = some reason;
      circuit_state = state;
      recovered = false;
    })

    degraded_result-fallback :
        (fallback : Option (DependencyFailure → Outcome T)) (attempts : ℕ) (f : DependencyFailure)
        (reason : String) (b : Breaker Time)
        → degraded_result s guard fallback attempts
            (fallback_or_raise s guard fallback f)
            f
            reason
            b
          ≡ degraded_answer attempts f reason b.state (fallback_answer fallback f)
    unfolding degraded_result fallback_or_raise
    degraded_result-fallback none attempts f reason b = refl
    degraded_result-fallback (some handler) attempts f reason b = of_outcome (handler f)
      where
        of_outcome :
            (o : Outcome T)
            → degraded_result s guard (some handler) attempts o f reason b
              ≡ degraded_answer attempts f reason b.state o
        of_outcome (returned value) = refl
        of_outcome (raised e) = refl

    module _ (fallback : Option (DependencyFailure → Outcome T)) where
      -- A value, as the result says that it came from this attempt; or what the fallback makes of
      -- the failure of this attempt, which is the last; or CancelledError.
      abbrev pub ResultAt : ℕ → Outcome (DependencyCallResult T) × Breaker Time → Type 0
      ResultAt m r =
          ((value : T) × (recovered : Bool) × (operation m ≡ returned value)
            × (r.0
                ≡ returned (record {
                  dependency_name = guard.dependency_name;
                  dependency_kind = guard.dependency_kind;
                  status = succeeded;
                  attempts = m;
                  value = value;
                  error_code = none;
                  degraded_reason = none;
                  circuit_state = r.1.state;
                  recovered = recovered;
                })))
          ⊎ ((f : DependencyFailure) × FailsWith m f
              × (r.0
                  ≡ degraded_answer m f "retry_exhausted" r.1.state (fallback_answer fallback f)))
          ⊎ ((operation m ≡ raised cancelled) × (r.0 ≡ raised cancelled))

      -- The attempts that a state of the circuit allows.
      abbrev pub allowed : CircuitBreakerState → ℕ
      allowed opened = 0
      allowed half_open = 1
      allowed closed = guard.retry_policy.max_attempts

      abbrev pub ResultIn :
          CircuitBreakerState → ℕ → Outcome (DependencyCallResult T) × Breaker Time → Type 0
      ResultIn opened calls r =
          (r.1.calls ≡ calls)
          × (r.0
              ≡ degraded_answer 0 open_failure "circuit_open" r.1.state
                  (fallback_answer fallback open_failure))
      ResultIn st calls r =
          (m : ℕ) × (0 < m)
          × (m ≤ allowed st)
          × (r.1.calls ≡ calls + m)
          × ((j : ℕ) → 0 < j → j < m → Fails j)
          × ResultAt m r

      finish-ResultAt :
          (m : ℕ) (r : LoopEnd T × Breaker Time)
          → EndsAt r.0 m
          → ResultAt m (finish s guard fallback r)
      unfolding finish succeeded_result
      finish-ResultAt m (success v n q, b) (e, o) = inl (v, q, o, rw e refl)
      finish-ResultAt m (exhausted none n, b) h = absurd h
      finish-ResultAt m (exhausted (some f) n, b) (e, h) =
          inr (inl (f, h, degraded_result-fallback fallback n f "retry_exhausted" b ∙ rw e refl))
      finish-ResultAt m (interrupted, b) h = inr (inr (h, refl))

      pub finish_leaves : (r : LoopEnd T × Breaker Time) → (finish s guard fallback r).1 ≡ r.1
      unfolding finish
      finish_leaves (success v n q, b) = refl
      finish_leaves (exhausted none n, b) = refl
      finish_leaves (exhausted (some f) n, b) = refl
      finish_leaves (interrupted, b) = refl

      run_attempts-ResultAt :
          (left : ℕ) (b : Breaker Time)
          → 0 < left
          → (m : ℕ) × (0 < m)
            × (m ≤ left)
            × ((run_attempts s guard fallback operation left b).1.calls ≡ b.calls + m)
            × ((j : ℕ) → 0 < j → j < m → Fails j)
            × ResultAt m (run_attempts s guard fallback operation left b)
      unfolding Answers
      run_attempts-ResultAt left b h =
          let loop =
            attempts_loop s guard operation left (guard.clock b.readings) left 0 none
              (read s guard b) in
          let (m, low, high, counted, earlier, end) =
            first_attempt-Answers left (guard.clock b.readings) left (read s guard b) h in
          (
            m,
            low,
            omega arith,
            (ap (λ (r : Breaker Time). r.calls) (finish_leaves loop)) ∙ omega arith,
            earlier,
            finish-ResultAt m loop end,
          )

      -- If the policy allows an attempt: if the circuit is open and has not cooled down, `execute`
      -- calls no operation and answers for the failure of an open circuit. Otherwise it calls the
      -- operation until an attempt returns, is cancelled, or fails for the last time: at least once,
      -- and at most as often as the policy allows, or once on a half-open circuit; and each attempt
      -- before the last failed. The result is the value of the last attempt, with the number of the
      -- attempt; or the answer for its failure; or its cancellation. The answer for a failure is a
      -- degraded result with what the fallback returns for it, or what the fallback raises, or
      -- without a fallback the failure, raised.
      pub execute-ResultIn :
          (b : Breaker Time)
          → 0 < guard.retry_policy.max_attempts
          → ResultIn
              (transition_open_circuit_if_ready s guard b).state
              b.calls
              (execute s guard fallback operation b)
      unfolding execute circuit_open_failure
      execute-ResultIn b h =
          by_state (transition_open_circuit_if_ready s guard b) (transition-calls s guard b)
        where
          by_state :
              (b' : Breaker Time)
              → b'.calls ≡ b.calls
              → ResultIn b'.state b.calls (execute_in s guard fallback b'.state operation b')
          by_state b' e = in_state b'.state b' e
            where
              in_state :
                  (st : CircuitBreakerState) (b' : Breaker Time)
                  → b'.calls ≡ b.calls
                  → ResultIn st b.calls (execute_in s guard fallback st operation b')
              in_state opened b' e = (
                e,
                degraded_result-fallback fallback 0 (circuit_open_failure s guard) "circuit_open"
                    b',
              )
              in_state half_open b' e = rw (sym e) (run_attempts-ResultAt 1 b' (omega arith))
              in_state closed b' e =
                  rw (sym e) (run_attempts-ResultAt guard.retry_policy.max_attempts b' h)
