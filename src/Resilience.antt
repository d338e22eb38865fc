-- ===== src/Resilience.antt =====
-- The data of libs/shared/resilience.py: failures of a dependency, the policies of a guard with
-- their checks, and the guard with its circuit breaker. Seconds are doubles in the source; here
-- they are any type `Time` with the operations that the source applies to them.
pub mod Steps
pub mod Execute
pub mod Safety
pub mod Calls
pub mod Bounds
pub mod Recovery
pub mod Opening
pub mod Tests
use media_center.Prelude.{
  ℕ, ◌+◌, String, Bool, true, false, not, ◌&&◌, ◌||◌, Option, none, some, List, [], ◌∷◌, ◌==◌,
  str_eq, if◌then◌else◌,
}
use media_center.Text.{strip, any_char, is_space}
use media_center.Events.Inbox.{has}

-- CircuitBreakerState, DependencyCallStatus, DependencyKind and FailureMode
pub data CircuitBreakerState : Type 0 where
  closed opened half_open : CircuitBreakerState

pub data DependencyCallStatus : Type 0 where
  succeeded answered_degraded failed : DependencyCallStatus

pub data DependencyKind : Type 0 where
  database message_broker external_api proxy : DependencyKind

pub data FailureMode : Type 0 where
  unavailable timeout rate_limited degraded : FailureMode

-- _normalize_name, `none` for ValueError
unfoldable pub normalize_name : String → Option String
normalize_name value =
    let normalized = strip value in
    if str_eq normalized "" || any_char is_space normalized then none else some normalized

-- _normalize_error_code; `lower` is str.lower
unfoldable pub normalize_error_code : (String → String) → String → Option String
normalize_error_code lower value =
    let normalized = lower (strip value) in
    if str_eq normalized "" || any_char is_space normalized then none else some normalized

pub record DependencyFailure : Type 0 where
  pub dependency_name : String
  pub dependency_kind : DependencyKind
  pub failure_mode : FailureMode
  pub error_code : String
  pub message : String
  pub retryable : Bool

-- What the guarded code can raise: TimeoutError, DependencyFailure, another Exception with
-- `str(error) or error.__class__.__name__`, and CancelledError, which is no Exception.
pub data Raised : Type 0 where
  timeout_error : Raised
  dependency_failure : DependencyFailure → Raised
  exception : String → Raised
  cancelled : Raised

pub data Outcome (T : Type 0) : Type 0 where
  returned : T → Outcome T
  raised : Raised → Outcome T

-- The arithmetic and the order of seconds: a - b, a + b, a * b, a ** n, a < b and a <= b.
pub record Seconds (Time : Type 0) : Type 0 where
  pub zero_seconds : Time
  pub one_second : Time
  pub minus : Time → Time → Time
  pub plus : Time → Time → Time
  pub times : Time → Time → Time
  pub power : Time → ℕ → Time
  pub less : Time → Time → Bool
  pub at_most : Time → Time → Bool

pub record RetryPolicy (Time : Type 0) : Type 0 where
  pub max_attempts : ℕ
  pub initial_backoff_seconds : Time
  pub backoff_multiplier : Time
  pub max_backoff_seconds : Time
  pub retryable_error_codes : List String

pub record TimeoutBudget (Time : Type 0) : Type 0 where
  pub per_attempt_seconds : Option Time
  pub total_seconds : Option Time

pub record CircuitBreakerPolicy (Time : Type 0) : Type 0 where
  pub failure_threshold : ℕ
  pub recovery_success_threshold : ℕ
  pub cooldown_seconds : Time

-- The fields of DependencyResilienceGuard that are given to it. The clock is a function of the
-- number of times that it has been read.
pub record DependencyResilienceGuard (Time : Type 0) : Type 0 where
  pub dependency_name : String
  pub dependency_kind : DependencyKind
  pub retry_policy : RetryPolicy Time
  pub timeout_budget : TimeoutBudget Time
  pub circuit_breaker_policy : CircuitBreakerPolicy Time
  pub clock : ℕ → Time

-- Its own fields, and what it does outside: how often it has read the clock and called an
-- operation, and what it has given to its sleeper, the last first.
pub record Breaker (Time : Type 0) : Type 0 where
  pub state : CircuitBreakerState
  pub consecutive_failures : ℕ
  pub recovery_successes : ℕ
  pub opened_at : Option Time
  pub readings : ℕ
  pub calls : ℕ
  pub delays : List Time

abbrev pub new_breaker : {Time : Type 0} → Breaker Time
new_breaker = record {
  state = closed;
  consecutive_failures = 0;
  recovery_successes = 0;
  opened_at = none;
  readings = 0;
  calls = 0;
  delays = [];
}

pub record DependencyCallResult (T : Type 0) : Type 0 where
  pub dependency_name : String
  pub dependency_kind : DependencyKind
  pub status : DependencyCallStatus
  pub attempts : ℕ
  pub value : T
  pub error_code : Option String
  pub degraded_reason : Option String
  pub circuit_state : CircuitBreakerState
  pub recovered : Bool

-- RetryPolicy.is_retryable
pub is_retryable : {Time : Type 0} → RetryPolicy Time → DependencyFailure → Bool
is_retryable policy failure =
    failure.retryable && has failure.error_code policy.retryable_error_codes

module _ {Time : Type 0} (s : Seconds Time) where
  -- RetryPolicy.delay_for_attempt from the second line on, for the attempt after `earlier` ones:
  -- min(a, b) is b only if b < a.
  pub delay_for_attempt : RetryPolicy Time → ℕ → Time
  delay_for_attempt policy earlier =
      let delay =
        s.times policy.initial_backoff_seconds (s.power policy.backoff_multiplier earlier) in
      if s.less policy.max_backoff_seconds delay then policy.max_backoff_seconds else delay

  -- The tests of the three __post_init__, negative counts aside: what passes is a policy.
  unfoldable pub is_retry_policy : RetryPolicy Time → Bool
  is_retry_policy policy =
      not (policy.max_attempts == 0)
      && not (s.less policy.initial_backoff_seconds s.zero_seconds)
      && not (s.less policy.backoff_multiplier s.one_second)
      && not (s.less policy.max_backoff_seconds policy.initial_backoff_seconds)

  abbrev pub is_positive : Option Time → Bool
  is_positive none = true
  is_positive (some seconds) = not (s.at_most seconds s.zero_seconds)

  abbrev pub is_below : Option Time → Option Time → Bool
  is_below (some total) (some per_attempt) = s.less total per_attempt
  is_below _ _ = false

  unfoldable pub is_timeout_budget : TimeoutBudget Time → Bool
  is_timeout_budget budget =
      is_positive budget.per_attempt_seconds
      && is_positive budget.total_seconds
      && not (is_below budget.total_seconds budget.per_attempt_seconds)

  pub is_circuit_breaker_policy : CircuitBreakerPolicy Time → Bool
  is_circuit_breaker_policy policy =
      not (policy.failure_threshold == 0)
      && not (policy.recovery_success_threshold == 0)
      && not (s.less policy.cooldown_seconds s.zero_seconds)
