-- ===== src/Resilience/Tests.antt =====
-- Runs of a guard whose seconds are whole numbers.
use media_center.Prelude.{
  ℕ, zero, suc, ◌+◌, ◌-◌, ◌*◌, ◌^◌, ◌≡◌, refl, true, none, some, List, [], ◌∷◌, ◌++◌, ltb, leb,
  arith,
}
use media_center.Resilience.{
  opened, database, Seconds, Outcome, returned, raised, exception, timeout_error, cancelled,
  DependencyFailure, DependencyResilienceGuard, Breaker, new_breaker, is_circuit_breaker_policy,
  is_retryable, delay_for_attempt,
}
use media_center.Resilience.Steps.{
  should_retry, record_failure, count_failure, record_success, has_cooled_down,
  transition_open_circuit_if_ready,
}
use media_center.Events.Inbox.{has}
use media_center.Resilience.Execute.{
  unknown_failure, finish, attempts_loop, after_failure, execute, as_failure,
}
use media_center.Resilience.Safety.{
  perform_steps, check_cooldown, failure_recorded, success_recorded, perform_steps-IsWell, IsWell,
}
use media_center.Resilience.Bounds.{execute-ResultIn, ResultIn}
use media_center.Resilience.Recovery.{execute_all, execute_all-IsRecovered, IsRecovered}
use media_center.Resilience.Opening.{AllFail, execute_all-opens}

abbrev whole_seconds : Seconds ℕ
whole_seconds = record {
  zero_seconds = 0;
  one_second = 1;
  minus = λ a b. a - b;
  plus = λ a b. a + b;
  times = λ a b. a * b;
  power = λ a n. a ^ n;
  less = ltb;
  at_most = leb;
}

abbrev postgres : DependencyResilienceGuard ℕ
postgres = record {
  dependency_name = "postgres";
  dependency_kind = database;
  retry_policy = record {
    max_attempts = 3;
    initial_backoff_seconds = 1;
    backoff_multiplier = 2;
    max_backoff_seconds = 5;
    retryable_error_codes = "dependency_error" ∷ "dependency_timeout" ∷ [];
  };
  timeout_budget = record { per_attempt_seconds = some 1; total_seconds = some 60 };
  circuit_breaker_policy = record {
    failure_threshold = 2;
    recovery_success_threshold = 2;
    cooldown_seconds = 30;
  };
  clock = λ n. n * 10;
}

abbrev open_circuit_at_5 : Breaker ℕ
open_circuit_at_5 = record new_breaker {
  state = opened;
  consecutive_failures = 2;
  opened_at = some 5;
  readings = 4;
}

-- The first attempt times out; the second returns 7.
abbrev second_time : ℕ → Outcome ℕ
second_time zero = raised cancelled
second_time (suc zero) = raised timeout_error
second_time (suc (suc n)) = returned 7

abbrev broken : ℕ → Outcome ℕ
broken attempt = raised (exception "boom")

broken_fails : AllFail whole_seconds postgres broken
unfolding as_failure
broken_fails attempt =
    (unknown_failure whole_seconds postgres "boom", (exception "boom", refl, refl))

abbrev at_once : ℕ → Outcome ℕ
at_once attempt = returned 7

is_valid : is_circuit_breaker_policy whole_seconds postgres.circuit_breaker_policy ≡ true
unfolding is_circuit_breaker_policy
is_valid = refl

succeeds_after_retry : (execute whole_seconds postgres none second_time new_breaker).1.calls ≡ 2
unfolding execute transition_open_circuit_if_ready finish attempts_loop after_failure as_failure
    should_retry record_failure count_failure is_retryable has delay_for_attempt record_success
succeeds_after_retry = refl

perform_steps-IsWell_example : IsWell whole_seconds postgres (
    perform_steps whole_seconds postgres
      (failure_recorded ∷ failure_recorded ∷ success_recorded ∷ check_cooldown ∷ [])
      new_breaker)
perform_steps-IsWell_example =
    perform_steps-IsWell whole_seconds postgres
      (failure_recorded ∷ failure_recorded ∷ success_recorded ∷ check_cooldown ∷ []) new_breaker
      is_valid (omega arith, refl, refl)

abbrev zero_instead : DependencyFailure → Outcome ℕ
zero_instead failure = returned 0

execute-ResultIn_example :
    ResultIn whole_seconds postgres broken
      (some zero_instead)
      (transition_open_circuit_if_ready whole_seconds postgres new_breaker).state
      0
      (execute whole_seconds postgres (some zero_instead) broken new_breaker)
execute-ResultIn_example =
    execute-ResultIn whole_seconds postgres broken (some zero_instead) new_breaker (omega arith)

execute_all-IsRecovered_example :
    IsRecovered whole_seconds postgres {T = ℕ} none
      (execute_all whole_seconds postgres none (at_once ∷ at_once ∷ []) open_circuit_at_5)
execute_all-IsRecovered_example =
    execute_all-IsRecovered whole_seconds postgres none (at_once ∷ at_once ∷ []) 5 open_circuit_at_5
      refl refl (unfold has_cooled_down in refl) ((7, refl), ((7, refl), tt)) refl (omega arith)

execute_all-opens_example :
    (before after : List (ℕ → Outcome ℕ)) × (broken ∷ broken ∷ [] ≡ before ++ after)
    × ((execute_all whole_seconds postgres none before new_breaker).state ≡ opened)
execute_all-opens_example =
    execute_all-opens whole_seconds postgres none (broken ∷ broken ∷ []) new_breaker is_valid
      (omega arith) (omega arith, refl, refl) refl (broken_fails, (broken_fails, tt)) (omega arith)
