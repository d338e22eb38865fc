-- ===== src/Resources/Effects.antt =====
-- What a call of the resource manager does to its state.
use media_center.Prelude.{
  ℕ, ◌+◌, ◌≤◌, String, Bool, true, false, ◌≡◌, refl, ap, ◌∙◌, ◌⊎◌, inl, inr, ltb, leb, List, [],
  ◌∷◌, arith,
}
use media_center.Value.{ℤ}
use media_center.Access.{TenantContext}
use media_center.Exec.{Result, ok, err, lift, gets, modify, pure, ◌>>=◌}
use media_center.Exec.Rules.{Result-cases}
use media_center.Resources.{
  TenantResourcePlan, TenantResourceState, validated_tenant_id, normalized_token, positive_amount,
}
use media_center.Resources.Manager.{
  ResourceManager, Managing, put_state, state_of, set_plan, on_state, Asked, decide,
  configure_tenant,
}
use media_center.Resources.Calls.{
  admit_request, acquire_operation_slot, release_operation_slot, reserve_queue_items,
  release_queue_items, reserve_storage_bytes, release_storage_bytes, snapshot,
}

-- The calls of a manager; each may create the state of its tenant or roll its window.
pub data Operation : Type 0 where
  admit : TenantContext → String → String → ℕ → ℕ → Operation
  acquire : TenantContext → String → ℕ → Operation
  release : TenantContext → String → ℕ → Operation
  reserve_queue : TenantContext → String → ℤ → ℕ → Operation
  release_queue : TenantContext → String → ℤ → ℕ → Operation
  reserve_storage : TenantContext → ℤ → String → ℕ → Operation
  release_storage : TenantContext → ℤ → String → ℕ → Operation
  configure : String → TenantResourcePlan → ℕ → Operation
  look : TenantContext → ℕ → Operation

unfoldable pub perform : Operation → ResourceManager → ResourceManager
perform (admit c service operation now later) m = (admit_request c service operation now later m).1
perform (acquire c operation now) m = (acquire_operation_slot c operation now m).1
perform (release c operation now) m = (release_operation_slot c operation now m).1
perform (reserve_queue c name amount now) m = (reserve_queue_items c name amount now m).1
perform (release_queue c name amount now) m = (release_queue_items c name amount now m).1
perform (reserve_storage c amount kind now) m = (reserve_storage_bytes c amount kind now m).1
perform (release_storage c amount kind now) m = (release_storage_bytes c amount kind now m).1
perform (configure tenant_id plan now) m = (configure_tenant tenant_id plan now m).1
perform (look c now) m = (snapshot c now m).1

unfoldable pub perform_all : List Operation → ResourceManager → ResourceManager
perform_all [] m = m
perform_all (o ∷ os) m = perform_all os (perform o m)

-- The tenant that a call names, and the time at which it looks at the state
abbrev pub tenant_in : Operation → String
tenant_in (admit c service operation now later) = c.tenant_id
tenant_in (acquire c operation now) = c.tenant_id
tenant_in (release c operation now) = c.tenant_id
tenant_in (reserve_queue c name amount now) = c.tenant_id
tenant_in (release_queue c name amount now) = c.tenant_id
tenant_in (reserve_storage c amount kind now) = c.tenant_id
tenant_in (release_storage c amount kind now) = c.tenant_id
tenant_in (configure tenant_id plan now) = tenant_id
tenant_in (look c now) = c.tenant_id

abbrev pub time_of : Operation → ℕ
time_of (admit c service operation now later) = now
time_of (acquire c operation now) = now
time_of (release c operation now) = now
time_of (reserve_queue c name amount now) = now
time_of (release_queue c name amount now) = now
time_of (reserve_storage c amount kind now) = now
time_of (release_storage c amount kind now) = now
time_of (configure tenant_id plan now) = now
time_of (look c now) = now

-- A counter that has not grown, or is within its limit
abbrev pub Stays : ℕ → ℕ → ℕ → Type 0
Stays limit before after = (after ≤ before) ⊎ (after ≤ limit)

-- What a call may make of a state: the plan and the window stay, and a counter grows within its
-- limit only.
pub record Counts (s s' : TenantResourceState) : Type 0 where
  pub same_plan : s'.plan ≡ s.plan
  pub same_window : s'.window_started_at ≡ s.window_started_at
  pub requests : Stays s.plan.request_limit s.requests_used s'.requests_used
  pub requests_kept : s.requests_used ≤ s'.requests_used
  pub operations :
      Stays s.plan.concurrent_operations s.concurrent_operations s'.concurrent_operations
  pub storage : Stays s.plan.storage_bytes s.storage_bytes_used s'.storage_bytes_used
  pub queue : Stays s.plan.queue_depth s.queue_items s'.queue_items

pub data Effect (o : Operation) (m : ResourceManager) : ResourceManager → Type 0 where
  refused : Effect o m m
  counted :
      {named : String} {s : TenantResourceState}
      → validated_tenant_id (tenant_in o) ≡ ok named
      → Counts (state_of named (time_of o) m) s
      → Effect o m (put_state named s m)
  replanned :
      {named name : String} {new_plan : TenantResourcePlan} {now : ℕ}
      → o ≡ configure name new_plan now
      → validated_tenant_id name ≡ ok named
      → Effect o m (set_plan named new_plan now m)

after_lift :
    {A B : Type 0} (P : ResourceManager → Type 0) (r : Result A) (next : A → Managing B)
    (m : ResourceManager)
    → P m
    → ((a : A) → r ≡ ok a → P (next a m).1)
    → P ((lift r >>= next) m).1
unfolding lift ◌>>=◌
after_lift P (ok a) next m failed found = found a refl
after_lift P (err e) next m failed found = failed

module _ (o : Operation) (m : ResourceManager) where
  on_state-Effect :
      {A : Type 0} (c : TenantContext) (now : ℕ)
      (change : TenantResourceState → A × TenantResourceState)
      → tenant_in o ≡ c.tenant_id
      → time_of o ≡ now
      → ((s : TenantResourceState) → Counts s (change s).1)
      → Effect o m (on_state c now change m).1
  unfolding on_state lift gets modify pure ◌>>=◌
  on_state-Effect c now change same at counts =
      elim (Result-cases (validated_tenant_id c.tenant_id)) [
        | inr (e, v) ↦ rw v refused
        | inl (tenant, v) ↦ rw v (counted (ap validated_tenant_id same ∙ v) (rw at (counts _)))
      ]

-- A counter that a call does not touch
stays : {limit n : ℕ} → Stays limit n n
stays = inl (omega arith)

module _ {s s' : TenantResourceState} where
  within :
      s'.plan ≡ s.plan
      → s'.window_started_at ≡ s.window_started_at
      → Stays s.plan.request_limit s.requests_used s'.requests_used
      → s.requests_used ≤ s'.requests_used
      → Stays s.plan.concurrent_operations s.concurrent_operations s'.concurrent_operations
      → Stays s.plan.storage_bytes s.storage_bytes_used s'.storage_bytes_used
      → Stays s.plan.queue_depth s.queue_items s'.queue_items
      → Counts s s'
  within p w a k b c d = record {
    same_plan = p;
    same_window = w;
    requests = a;
    requests_kept = k;
    operations = b;
    storage = c;
    queue = d;
  }

unchanged : (s : TenantResourceState) → Counts s s
unchanged s = within refl refl stays (omega arith) stays stays stays

decide-Counts :
    (c : TenantContext) (asked : Asked) (over : Bool) (reason : String) (wait : ℕ)
    (s s' : TenantResourceState)
    → (over ≡ false → Counts s s')
    → Counts s (decide c asked over reason wait s s').1
decide-Counts c asked true reason wait s s' allowed = unchanged s
decide-Counts c asked false reason wait s s' allowed = allowed refl

module _ (s : TenantResourceState) (n : ℕ) where
  requests-Counts :
      Stays s.plan.request_limit s.requests_used n
      → s.requests_used ≤ n
      → Counts s (record s { requests_used = n })
  requests-Counts h more = within refl refl h more stays stays stays

  operations-Counts :
      Stays s.plan.concurrent_operations s.concurrent_operations n
      → Counts s (record s { concurrent_operations = n })
  operations-Counts h = within refl refl stays (omega arith) h stays stays

  storage-Counts :
      Stays s.plan.storage_bytes s.storage_bytes_used n
      → Counts s (record s { storage_bytes_used = n })
  storage-Counts h = within refl refl stays (omega arith) stays h stays

  queue-Counts : Stays s.plan.queue_depth s.queue_items n → Counts s (record s { queue_items = n })
  queue-Counts h = within refl refl stays (omega arith) stays stays h

pub perform-Effect : (o : Operation) (m : ResourceManager) → Effect o m (perform o m)
unfolding perform admit_request acquire_operation_slot release_operation_slot reserve_queue_items
    release_queue_items reserve_storage_bytes release_storage_bytes configure_tenant snapshot ◌>>=◌
    lift modify
perform-Effect (admit c service operation now later) m =
    after_lift (Effect _ m) (normalized_token service) _ m refused λ s e.
      after_lift (Effect _ m) (normalized_token operation) _ m refused λ t f.
        on_state-Effect _ m c now _ refl refl λ x.
          decide-Counts c _ (leb x.plan.request_limit x.requests_used) _ _ x _
            λ h. requests-Counts x (x.requests_used + 1) (inr (ground arith)) (omega arith)
perform-Effect (acquire c operation now) m =
    after_lift (Effect _ m) (normalized_token operation) _ m refused λ t f.
      on_state-Effect _ m c now _ refl refl λ x.
        decide-Counts c _ (leb x.plan.concurrent_operations x.concurrent_operations) _ _ x _
          λ h. operations-Counts x (x.concurrent_operations + 1) (inr (ground arith))
perform-Effect (release c operation now) m =
    after_lift (Effect _ m) (normalized_token operation) _ m refused
      λ t f. on_state-Effect _ m c now _ refl refl λ x. operations-Counts x _ (inl (omega arith))
perform-Effect (reserve_queue c name amount now) m =
    after_lift (Effect _ m) (normalized_token name) _ m refused λ s e.
      after_lift (Effect _ m) (positive_amount amount) _ m refused λ t f.
        on_state-Effect _ m c now _ refl refl λ x.
          decide-Counts c _ (ltb x.plan.queue_depth (x.queue_items + t)) _ _ x _
            λ h. queue-Counts x (x.queue_items + t) (inr (ground arith))
perform-Effect (release_queue c name amount now) m =
    after_lift (Effect _ m) (normalized_token name) _ m refused λ s e.
      after_lift (Effect _ m) (positive_amount amount) _ m refused
        λ t f. on_state-Effect _ m c now _ refl refl λ x. queue-Counts x _ (inl (omega arith))
perform-Effect (reserve_storage c amount kind now) m =
    after_lift (Effect _ m) (positive_amount amount) _ m refused λ s e.
      after_lift (Effect _ m) (normalized_token kind) _ m refused λ t f.
        on_state-Effect _ m c now _ refl refl λ x.
          decide-Counts c _ (ltb x.plan.storage_bytes (x.storage_bytes_used + s)) _ _ x _
            λ h. storage-Counts x (x.storage_bytes_used + s) (inr (ground arith))
perform-Effect (release_storage c amount kind now) m =
    after_lift (Effect _ m) (normalized_token kind) _ m refused λ s e.
      after_lift (Effect _ m) (positive_amount amount) _ m refused
        λ t f. on_state-Effect _ m c now _ refl refl λ x. storage-Counts x _ (inl (omega arith))
perform-Effect (configure tenant_id plan now) m =
    after_lift (Effect _ m) (validated_tenant_id tenant_id) _ m refused λ t f. replanned refl f
perform-Effect (look c now) m = on_state-Effect _ m c now _ refl refl unchanged
