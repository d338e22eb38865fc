-- ===== src/Resources/Manager.antt =====
-- InMemoryTenantResourceManager. Its lock makes each call one step.
use media_center.Prelude.{
  ℕ, String, Bool, true, false, Option, none, some, List, [], ◌∷◌, str_eq, if◌then◌else◌,
}
use media_center.Access.{TenantContext}
use media_center.Exec.{Exec, Result, ok, err, lift, gets, modify, pure, ◌>>=◌, ◌>>◌}
use media_center.Resources.{
  TenantResourcePlan, TenantResourceDecision, TenantResourceState, snapshot_of, new_state,
  roll_window_if_needed, validated_tenant_id,
}

pub record ResourceManager : Type 0 where
  pub default_plan : TenantResourcePlan
  pub tenant_plans : String → Option TenantResourcePlan
  pub states : String → Option TenantResourceState

-- What a later entry of a dictionary leaves of an earlier one with the same key.
abbrev pub unless_later :
    Option TenantResourcePlan → Option TenantResourcePlan → Option TenantResourcePlan
unless_later none earlier = earlier
unless_later (some later) earlier = some later

abbrev pub with_plan :
    Result String
    → TenantResourcePlan
    → Result (String → Option TenantResourcePlan)
    → Result (String → Option TenantResourcePlan)
with_plan (err e) plan rest = err e
with_plan (ok tenant_id) plan (err e) = err e
with_plan (ok tenant_id) plan (ok plans) =
    ok (λ t. unless_later (plans t) (if str_eq t tenant_id then some plan else none))

unfoldable pub plans_by_tenant :
    List (String × TenantResourcePlan) → Result (String → Option TenantResourcePlan)
plans_by_tenant [] = ok (λ t. none)
plans_by_tenant ((tenant_id, plan) ∷ rest) =
    with_plan (validated_tenant_id tenant_id) plan (plans_by_tenant rest)

abbrev pub starting :
    TenantResourcePlan → Result (String → Option TenantResourcePlan) → Result ResourceManager
starting default_plan (err e) = err e
starting default_plan (ok plans) =
    ok (record { default_plan = default_plan; tenant_plans = plans; states = λ t. none })

-- InMemoryTenantResourceManager.__init__
unfoldable pub new_manager :
    TenantResourcePlan → List (String × TenantResourcePlan) → Result ResourceManager
new_manager default_plan tenant_plans = starting default_plan (plans_by_tenant tenant_plans)

abbrev pub Managing : Type 0 → Type 0
Managing = Exec ResourceManager

abbrev pub or_plan : Option TenantResourcePlan → TenantResourcePlan → TenantResourcePlan
or_plan none default = default
or_plan (some plan) default = plan

-- self._tenant_plans.get(tenant_id, self._default_plan)
abbrev pub plan_of : String → ResourceManager → TenantResourcePlan
plan_of tenant_id m = or_plan (m.tenant_plans tenant_id) m.default_plan

abbrev pub rolled_or_new : TenantResourcePlan → ℕ → Option TenantResourceState → TenantResourceState
rolled_or_new plan now none = new_state plan now
rolled_or_new plan now (some state) = roll_window_if_needed plan now state

unfoldable pub put_state : String → TenantResourceState → ResourceManager → ResourceManager
put_state tenant_id state m = record m {
  states = λ t. if str_eq t tenant_id then some state else m.states t;
}

-- The state that _state_for_context gives.
abbrev pub state_of : String → ℕ → ResourceManager → TenantResourceState
state_of tenant_id now m = rolled_or_new (plan_of tenant_id m) now (m.states tenant_id)

-- _state_for_context, and what the call makes of the state
unfoldable pub on_state :
    {A : Type 0} → TenantContext → ℕ → (TenantResourceState → A × TenantResourceState) → Managing A
on_state context now change = do
  tenant_id ← lift (validated_tenant_id context.tenant_id)
  state ← gets (state_of tenant_id now)
  modify (put_state tenant_id (change state).1)
  pure (change state).0

-- A decision, but for the state
pub record Asked : Type 0 where
  pub service_name : Option String
  pub operation : Option String
  pub resource_type : String
  pub requested_amount : ℕ

-- _decision
unfoldable pub decision :
    TenantContext → Asked → Bool → Option String → ℕ → TenantResourceState → TenantResourceDecision
decision context asked allowed reason retry_after_seconds state = record {
  allowed = allowed;
  tenant_id = context.tenant_id;
  plan_name = state.plan.name;
  reason = reason;
  retry_after_seconds = retry_after_seconds;
  service_name = asked.service_name;
  operation = asked.operation;
  resource_type = asked.resource_type;
  requested_amount = asked.requested_amount;
  snapshot = snapshot_of context.tenant_id state;
}

-- What a call does with the state: it refuses with a reason and a time to wait, and leaves the
-- state, or it allows, and counts.
abbrev pub decide :
    TenantContext
    → Asked
    → Bool
    → String
    → ℕ
    → TenantResourceState
    → TenantResourceState
    → TenantResourceDecision × TenantResourceState
decide context asked true reason retry_after state counted =
    (decision context asked false (some reason) retry_after state, state)
decide context asked false reason retry_after state counted =
    (decision context asked true none 0 counted, counted)

-- plan_for_tenant
unfoldable pub plan_for_tenant : String → Managing TenantResourcePlan
plan_for_tenant tenant_id = do
  normalized_tenant_id ← lift (validated_tenant_id tenant_id)
  gets (plan_of normalized_tenant_id)

abbrev pub replan : TenantResourcePlan → ℕ → Option TenantResourceState → Option TenantResourceState
replan plan now none = none
replan plan now (some state) = some (roll_window_if_needed plan now state)

unfoldable pub set_plan : String → TenantResourcePlan → ℕ → ResourceManager → ResourceManager
set_plan tenant_id plan now m = record m {
  tenant_plans = λ t. if str_eq t tenant_id then some plan else m.tenant_plans t;
  states = λ t. if str_eq t tenant_id then replan plan now (m.states t) else m.states t;
}

-- configure_tenant
unfoldable pub configure_tenant : String → TenantResourcePlan → ℕ → Managing (Unit {0})
configure_tenant tenant_id plan now = do
  normalized_tenant_id ← lift (validated_tenant_id tenant_id)
  modify (set_plan normalized_tenant_id plan now)
