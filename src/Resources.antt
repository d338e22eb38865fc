-- ===== src/Resources.antt =====
-- libs/shared/tenant_resources.py: the plans of tenants, and what the tenants have used of them.
pub mod Manager
pub mod Calls
pub mod Effects
pub mod Limits
pub mod Isolation
pub mod Admits
pub mod Windows
pub mod Tests
use media_center.Prelude.{
  ℕ, zero, suc, ◌+◌, ◌-◌, String, Bool, true, false, not, Option, none, some, str_eq, ◌==◌, ltb,
  if◌then◌else◌,
}
use Prim.Native.Nat.{◌%◌}
use media_center.Text.{strip, is_tenant_id}
use media_center.Value.{ℤ, pos, negsuc}
use media_center.Exec.{Result, ok, err, value_error}

pub record TenantResourcePlan : Type 0 where
  pub name : String
  pub request_limit : ℕ
  pub window_seconds : ℕ
  pub concurrent_operations : ℕ
  pub storage_bytes : ℕ
  pub queue_depth : ℕ

abbrev pub nonempty : String → Result String
nonempty value = if str_eq value "" then err value_error else ok value

-- TenantResourcePlan.__post_init__, negative numbers aside
unfoldable pub plan_model : TenantResourcePlan → Result TenantResourcePlan
plan_model plan = elim (nonempty (strip plan.name)) [
  | err e ↦ err e
  | ok name ↦ if plan.window_seconds == 0 then err value_error else ok (record plan { name = name })
]

pub record TenantResourceSnapshot : Type 0 where
  pub tenant_id : String
  pub plan_name : String
  pub window_started_at : ℕ
  pub window_seconds : ℕ
  pub request_limit : ℕ
  pub requests_used : ℕ
  pub concurrent_operations_limit : ℕ
  pub concurrent_operations : ℕ
  pub storage_bytes_limit : ℕ
  pub storage_bytes_used : ℕ
  pub queue_depth_limit : ℕ
  pub queue_items : ℕ

-- max(limit - used, 0), for each of the four
unfoldable pub requests_remaining : TenantResourceSnapshot → ℕ
requests_remaining s = s.request_limit - s.requests_used

unfoldable pub operation_slots_remaining : TenantResourceSnapshot → ℕ
operation_slots_remaining s = s.concurrent_operations_limit - s.concurrent_operations

unfoldable pub storage_bytes_remaining : TenantResourceSnapshot → ℕ
storage_bytes_remaining s = s.storage_bytes_limit - s.storage_bytes_used

unfoldable pub queue_slots_remaining : TenantResourceSnapshot → ℕ
queue_slots_remaining s = s.queue_depth_limit - s.queue_items

pub record TenantResourceDecision : Type 0 where
  pub allowed : Bool
  pub tenant_id : String
  pub plan_name : String
  pub reason : Option String
  pub retry_after_seconds : ℕ
  pub service_name : Option String
  pub operation : Option String
  pub resource_type : String
  pub requested_amount : ℕ
  pub snapshot : TenantResourceSnapshot

-- _TenantResourceState
pub record TenantResourceState : Type 0 where
  pub plan : TenantResourcePlan
  pub window_started_at : ℕ
  pub requests_used : ℕ
  pub concurrent_operations : ℕ
  pub storage_bytes_used : ℕ
  pub queue_items : ℕ

-- _snapshot
unfoldable pub snapshot_of : String → TenantResourceState → TenantResourceSnapshot
snapshot_of tenant_id state = record {
  tenant_id = tenant_id;
  plan_name = state.plan.name;
  window_started_at = state.window_started_at;
  window_seconds = state.plan.window_seconds;
  request_limit = state.plan.request_limit;
  requests_used = state.requests_used;
  concurrent_operations_limit = state.plan.concurrent_operations;
  concurrent_operations = state.concurrent_operations;
  storage_bytes_limit = state.plan.storage_bytes;
  storage_bytes_used = state.storage_bytes_used;
  queue_depth_limit = state.plan.queue_depth;
  queue_items = state.queue_items;
}

-- _window_started_at, for `int(self._clock())`
unfoldable pub window_started_at : TenantResourcePlan → ℕ → ℕ
window_started_at plan now = now - now % plan.window_seconds

unfoldable pub new_state : TenantResourcePlan → ℕ → TenantResourceState
new_state plan now = record {
  plan = plan;
  window_started_at = window_started_at plan now;
  requests_used = 0;
  concurrent_operations = 0;
  storage_bytes_used = 0;
  queue_items = 0;
}

-- `state.plan = plan` and _roll_window_if_needed
unfoldable pub roll_window_if_needed :
    TenantResourcePlan → ℕ → TenantResourceState → TenantResourceState
roll_window_if_needed plan now state =
    if state.window_started_at == window_started_at plan now
    then record state { plan = plan }
    else record state {
      plan = plan;
      window_started_at = window_started_at plan now;
      requests_used = 0;
    }

-- _validated_tenant_id
unfoldable pub validated_tenant_id : String → Result String
validated_tenant_id tenant_id =
    if is_tenant_id (strip tenant_id) then ok (strip tenant_id) else err value_error

-- _normalized_token
unfoldable pub normalized_token : String → Result String
normalized_token value = nonempty (strip value)

-- _positive_amount
abbrev pub positive_amount : ℤ → Result ℕ
positive_amount (pos zero) = err value_error
positive_amount (pos (suc n)) = ok (suc n)
positive_amount (negsuc n) = err value_error
