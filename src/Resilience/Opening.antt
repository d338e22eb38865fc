-- ===== src/Resilience/Opening.antt =====
-- The circuit opens on failures.
use media_center.Prelude.{
  ℕ, zero, suc, ◌+◌, ◌<◌, ◌≤◌, ◌≡◌, ◌⊎◌, inl, inr, refl, sym, ap, ◌∙◌, Bool, true, false, Option,
  none, some, List, [], ◌∷◌, ◌++◌, length, leb, arith, Bool-cases,
}
use media_center.Resilience.{
  CircuitBreakerState, closed, opened, Seconds, DependencyFailure, Outcome,
  DependencyResilienceGuard, Breaker,
}
use media_center.Resilience.Steps.{
  read, open_circuit, count_failure, record_failure, transition_open_circuit_if_ready,
  within_budget, when, should_retry,
}
use media_center.Resilience.Execute.{
  Loop, if_retried, after_failure, after, attempts_loop, execute_in, execute, call, sleep,
}
use media_center.Resilience.Bounds.{Fails, caught_as-as_failure, finish_leaves}
use media_center.Resilience.Recovery.{execute_all}
use media_center.Resilience.Safety.{IsWell, IsWellIn, IsValid, execute-IsWell}

module _ {Time : Type 0} (s : Seconds Time) (guard : DependencyResilienceGuard Time) where
  abbrev pub AllFail : {T : Type 0} → (ℕ → Outcome T) → Type 0
  AllFail operation = (attempt : ℕ) → Fails s guard operation attempt

  -- The circuit is open, or it is closed with this many failures counted at least.
  abbrev pub HasCounted : ℕ → Breaker Time → Type 0
  HasCounted least b = (b.state ≡ opened) ⊎ ((b.state ≡ closed) × (least ≤ b.consecutive_failures))

  failure-HasCounted :
      (b : Breaker Time)
      → b.state ≡ closed
      → HasCounted (b.consecutive_failures + 1) (record_failure s guard b)
  unfolding record_failure count_failure open_circuit
  failure-HasCounted b h =
      rw h
        (elim (Bool-cases
          (leb guard.circuit_breaker_policy.failure_threshold (b.consecutive_failures + 1))) [
            | inl k ↦ rw k (inl refl)
            | inr k ↦ rw k (inr (refl, omega arith))
          ])

  failure-keeps :
      (least : ℕ) (b : Breaker Time)
      → HasCounted least b
      → HasCounted least (record_failure s guard b)
  unfolding record_failure count_failure open_circuit
  failure-keeps least b (inl h) =
      rw h
        (elim (Bool-cases
          (leb guard.circuit_breaker_policy.failure_threshold (b.consecutive_failures + 1))) [
            | inl k ↦ rw k (inl refl)
            | inr k ↦ rw k (inl refl)
          ])
  failure-keeps least b (inr (h, few)) = elim (failure-HasCounted b h) [
    | inl o ↦ inl o
    | inr (c, n) ↦ inr (c, omega arith)
  ]

  should_retry-keeps :
      (least : ℕ) (f : DependencyFailure) (attempt m : ℕ) (t : Time) (b : Breaker Time)
      → HasCounted least b
      → HasCounted least (should_retry s guard f attempt m t b).1
  unfolding should_retry
  should_retry-keeps least f attempt m t b h = by_test _ guard.timeout_budget.total_seconds
    where
      by_test :
          (test : Bool) (total : Option Time)
          → HasCounted least (when s guard test (within_budget s guard total attempt t b) b).1
      by_test true none = h
      by_test true (some total) = h
      by_test false total = h

  module _ {T : Type 0} (operation : ℕ → Outcome T) (m : ℕ) (t : Time) (least : ℕ) where
    abbrev KeepsCount : Loop s guard operation m t → Type 0
    KeepsCount rest =
        (last : Option DependencyFailure) (b : Breaker Time)
        → HasCounted least b
        → HasCounted least (rest last b).1

    after-keeps :
        (attempt : ℕ) (rest : Loop s guard operation m t) (b : Breaker Time)
        → Fails s guard operation attempt
        → KeepsCount rest
        → HasCounted least (record_failure s guard b)
        → HasCounted least (after s guard operation m t (operation attempt) attempt rest b).1
    unfolding after_failure
    after-keeps attempt rest b (f, (e, o, q)) k h =
        rw (o, sym (caught_as-as_failure s guard e) ∙ q)
          (retried _ (should_retry-keeps least f attempt m t _ h))
      where
        retried :
            (answer : Bool × Breaker Time)
            → HasCounted least answer.1
            → HasCounted least (if_retried s guard operation m t f attempt rest answer).1
        retried (true, b') c = k (some f) (sleep s guard attempt b') c
        retried (false, b') c = c

    attempts_loop-keeps :
        (left used : ℕ)
        → AllFail operation
        → KeepsCount (attempts_loop s guard operation m t left used)
    unfolding attempts_loop
    attempts_loop-keeps zero used a last b h = h
    attempts_loop-keeps (suc left) used a last b h =
        after-keeps (used + 1) (attempts_loop s guard operation m t left (used + 1))
          (call s guard b) (a (used + 1)) (attempts_loop-keeps left (used + 1) a)
          (failure-keeps least (call s guard b) h)

    first-HasCounted :
        (left : ℕ) (b : Breaker Time)
        → AllFail operation
        → 0 < left
        → b.state ≡ closed
        → least ≡ b.consecutive_failures + 1
        → HasCounted least (attempts_loop s guard operation m t left 0 none b).1
    unfolding attempts_loop
    first-HasCounted zero b a pos h e = absurd (omega arith)
    first-HasCounted (suc left) b a pos h e =
        after-keeps 1 (attempts_loop s guard operation m t left 1) (call s guard b) (a 1)
          (attempts_loop-keeps left 1 a) (rw e (failure-HasCounted (call s guard b) h))

  module _ {T : Type 0} (fallback : Option (DependencyFailure → Outcome T)) where
    closed_stays :
        (b : Breaker Time) → b.state ≡ closed → transition_open_circuit_if_ready s guard b ≡ b
    unfolding transition_open_circuit_if_ready
    closed_stays b e = rw e refl

    execute-HasCounted :
        (operation : ℕ → Outcome T) (b : Breaker Time)
        → AllFail operation
        → 0 < guard.retry_policy.max_attempts
        → b.state ≡ closed
        → HasCounted (b.consecutive_failures + 1) (execute s guard fallback operation b).1
    unfolding execute
    execute-HasCounted operation b a pos h =
        let m = guard.retry_policy.max_attempts in
        let same : (execute s guard fallback operation b).1
            ≡ (attempts_loop s guard operation m (guard.clock b.readings) m 0 none
                (read s guard b)).1 =
          ap (λ (b' : Breaker Time). (execute_in s guard fallback b'.state operation b').1)
            (closed_stays b h)
          ∙ ap (λ (st : CircuitBreakerState). (execute_in s guard fallback st operation b).1) h
          ∙ finish_leaves s guard operation fallback _ in
        rw same (
          first-HasCounted operation m (guard.clock b.readings) (b.consecutive_failures + 1) m
            (read s guard b) a pos h refl)

    abbrev pub AllFailing : List (ℕ → Outcome T) → Type 0
    AllFailing [] = Unit
    AllFailing (operation ∷ rest) = AllFail operation × AllFailing rest

    -- If a closed circuit is well-formed, then among calls whose attempts all fail, as many as the
    -- failures that it still misses, there is one after which it is open.
    pub execute_all-opens :
        (operations : List (ℕ → Outcome T)) (b : Breaker Time)
        → IsValid s guard
        → 0 < guard.retry_policy.max_attempts
        → IsWell s guard b
        → b.state ≡ closed
        → AllFailing operations
        → guard.circuit_breaker_policy.failure_threshold
          ≤ b.consecutive_failures + length operations
        → (before after : List (ℕ → Outcome T)) × (operations ≡ before ++ after)
          × ((execute_all s guard fallback before b).state ≡ opened)
    unfolding execute_all
    execute_all-opens [] b v pos w h a enough = absurd (few (rw h at w))
      where
        few : IsWellIn s guard closed b.consecutive_failures b.recovery_successes b.opened_at → ⊥
        few w' = omega arith
    execute_all-opens (operation ∷ rest) b v pos w h (a, fail) enough =
        elim (execute-HasCounted operation b a pos h) [
          | inl o ↦ (operation ∷ [], rest, refl, o)
          | inr (c, n) ↦
              let (before, after, e, o) =
                execute_all-opens rest (execute s guard fallback operation b).1 v pos
                  (execute-IsWell s guard fallback operation b v w) c fail (omega arith) in
              (operation ∷ before, after, ap (λ (xs : List (ℕ → Outcome T)). operation ∷ xs) e, o)
        ]
