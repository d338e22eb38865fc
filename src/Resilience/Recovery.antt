-- ===== src/Resilience/Recovery.antt =====
-- The circuit opens on failures and closes again on successes.
use media_center.Prelude.{
  ℕ, suc, ◌+◌, ◌<◌, ◌≡◌, refl, sym, ap, ◌∙◌, true, false, Option, some, List, [], ◌∷◌, length, leb,
  arith,
}
use media_center.Resilience.{
  CircuitBreakerState, closed, opened, half_open, Seconds, DependencyFailure, Outcome, returned,
  DependencyResilienceGuard, Breaker,
}
use media_center.Resilience.Steps.{
  read, count_success, success_in, record_success, ready_in, transition_open_circuit_if_ready,
  has_cooled_down,
}
use media_center.Resilience.Execute.{attempts_loop, execute_in, execute, call}
use media_center.Resilience.Bounds.{finish_leaves}

module _ {Time : Type 0} (s : Seconds Time) (guard : DependencyResilienceGuard Time) {T : Type 0}
    (fallback : Option (DependencyFailure → Outcome T)) where
  -- One call after the other.
  unfoldable pub execute_all : List (ℕ → Outcome T) → Breaker Time → Breaker Time
  execute_all [] b = b
  execute_all (operation ∷ rest) b = execute_all rest (execute s guard fallback operation b).1

  abbrev pub AllSucceed : List (ℕ → Outcome T) → Type 0
  AllSucceed [] = Unit
  AllSucceed (operation ∷ rest) = ((value : T) × (operation 1 ≡ returned value)) × AllSucceed rest

  -- After `counted` successes of `wanted` in HALF_OPEN, with the circuit closed at the last one.
  abbrev pub IsRecovering : ℕ → Breaker Time → Type 0
  IsRecovering missing b =
      (b.state ≡ half_open)
      × (b.recovery_successes + missing ≡ guard.circuit_breaker_policy.recovery_success_threshold)

  abbrev pub IsRecovered : Breaker Time → Type 0
  IsRecovered b = (b.state ≡ closed) × (b.consecutive_failures ≡ 0)

  half_open_attempt :
      (operation : ℕ → Outcome T) (value : T) (b : Breaker Time)
      → operation 1 ≡ returned value
      → (execute_in s guard fallback half_open operation b).1
        ≡ (record_success s guard (call s guard (read s guard b))).1
  unfolding attempts_loop
  half_open_attempt operation value b e = finish_leaves s guard operation fallback _ ∙ rw e refl

  half_open_stays :
      (b : Breaker Time) → b.state ≡ half_open → transition_open_circuit_if_ready s guard b ≡ b
  unfolding transition_open_circuit_if_ready
  half_open_stays b e = rw e refl

  execute_half_open :
      (operation : ℕ → Outcome T) (value : T) (b : Breaker Time)
      → operation 1 ≡ returned value
      → b.state ≡ half_open
      → (execute s guard fallback operation b).1
        ≡ (count_success s guard (call s guard (read s guard b))).1
  unfolding execute record_success
  execute_half_open operation value b e h =
      ap (λ (b' : Breaker Time). (execute_in s guard fallback b'.state operation b').1)
        (half_open_stays b h)
      ∙ ap (λ (st : CircuitBreakerState). (execute_in s guard fallback st operation b).1) h
      ∙ half_open_attempt operation value b e
      ∙ ap (λ (st : CircuitBreakerState). (success_in s guard st (call s guard (read s guard b))).1)
          h

  -- One success in HALF_OPEN, as the last that is missing, or before it.
  last_success :
      (operation : ℕ → Outcome T) (value : T) (b : Breaker Time)
      → operation 1 ≡ returned value
      → IsRecovering 1 b
      → IsRecovered (execute s guard fallback operation b).1
  unfolding count_success
  last_success operation value b o (st, missing) =
      let k : leb guard.circuit_breaker_policy.recovery_success_threshold (b.recovery_successes + 1)
          ≡ true =
        ground arith in
      rw (execute_half_open operation value b o st, k) (refl, refl)

  one_success :
      (operation : ℕ → Outcome T) (value : T) (b : Breaker Time) (missing : ℕ)
      → operation 1 ≡ returned value
      → IsRecovering (suc (suc missing)) b
      → IsRecovering (suc missing) (execute s guard fallback operation b).1
  unfolding count_success
  one_success operation value b missing o (st, sum) =
      let k : leb guard.circuit_breaker_policy.recovery_success_threshold (b.recovery_successes + 1)
          ≡ false =
        ground arith in
      rw (execute_half_open operation value b o st, k) (st, omega arith)

  recovers :
      (operations : List (ℕ → Outcome T)) (b : Breaker Time)
      → AllSucceed operations
      → IsRecovering (length operations) b
      → 0 < length operations
      → IsRecovered (execute_all operations b)
  unfolding execute_all
  recovers [] b ok h pos = absurd (omega arith)
  recovers (operation ∷ []) b ((value, o), ok) h pos = last_success operation value b o h
  recovers (operation ∷ next ∷ rest) b ((value, o), ok) h pos =
      recovers (next ∷ rest) (execute s guard fallback operation b).1 ok
        (one_success operation value b (length rest) o h) (omega arith)

  ready :
      (t : Time) (b : Breaker Time)
      → b.state ≡ opened
      → b.opened_at ≡ some t
      → has_cooled_down s guard t b ≡ true
      → transition_open_circuit_if_ready s guard b
        ≡ record (read s guard b) { state = half_open; recovery_successes = 0 }
  unfolding transition_open_circuit_if_ready
  ready t b st at cool =
      ap (λ (x : CircuitBreakerState). ready_in s guard x b.opened_at b) st
      ∙ ap (λ (o : Option Time). ready_in s guard opened o b) at
      ∙ rw cool refl

  -- Calls depend on the breaker only after its first check.
  as_if_ready :
      (operations : List (ℕ → Outcome T)) (b b' : Breaker Time)
      → 0 < length operations
      → transition_open_circuit_if_ready s guard b ≡ transition_open_circuit_if_ready s guard b'
      → execute_all operations b ≡ execute_all operations b'
  unfolding execute_all execute
  as_if_ready [] b b' pos e = absurd (omega arith)
  as_if_ready (operation ∷ rest) b b' pos e =
      ap
        (λ (x : Breaker Time). execute_all rest (execute_in s guard fallback x.state operation x).1)
        e

  -- Once an open circuit has cooled down, as many calls as its policy wants, each returning at its
  -- first attempt, close it and clear the count of failures.
  pub execute_all-IsRecovered :
      (operations : List (ℕ → Outcome T)) (t : Time) (b : Breaker Time)
      → b.state ≡ opened
      → b.opened_at ≡ some t
      → has_cooled_down s guard t b ≡ true
      → AllSucceed operations
      → length operations ≡ guard.circuit_breaker_policy.recovery_success_threshold
      → 0 < length operations
      → IsRecovered (execute_all operations b)
  execute_all-IsRecovered operations t b st at cool ok enough pos =
      let b' : Breaker Time = record (read s guard b) {
        state = half_open;
        recovery_successes = 0;
      } in
      rw (as_if_ready operations b b' pos (ready t b st at cool ∙ sym (half_open_stays b' refl)))
        (recovers operations b' ok (refl, omega arith) pos)
