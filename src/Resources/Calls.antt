-- ===== src/Resources/Calls.antt =====
-- The calls of InMemoryTenantResourceManager that admit, reserve and release.
use media_center.Prelude.{ℕ, ◌+◌, ◌-◌, String, none, some, ltb, leb, if◌then◌else◌}
use media_center.Value.{ℤ}
use media_center.Access.{TenantContext}
use media_center.Exec.{lift, ◌>>=◌, ◌>>◌}
use media_center.Resources.{
  TenantResourceSnapshot, TenantResourceDecision, TenantResourceState, snapshot_of,
  normalized_token, positive_amount,
}
use media_center.Resources.Manager.{Managing, on_state, decide}

-- max(1, reset_at - later)
unfoldable pub retry_after : TenantResourceState → ℕ → ℕ
retry_after state later =
    let left = state.window_started_at + state.plan.window_seconds - later in
    if ltb 1 left then left else 1

-- admit_request; the clock is read again for the time to wait
unfoldable pub admit_request :
    TenantContext → String → String → ℕ → ℕ → Managing TenantResourceDecision
admit_request context service_name operation now later = do
  normalized_service ← lift (normalized_token service_name)
  normalized_operation ← lift (normalized_token operation)
  on_state context now (λ state.
      decide context
        (record {
          service_name = some normalized_service;
          operation = some normalized_operation;
          resource_type = "request";
          requested_amount = 1;
        })
        (leb state.plan.request_limit state.requests_used) "request_limit_exceeded"
        (retry_after state later) state (record state { requests_used = state.requests_used + 1 }))

-- acquire_operation_slot
unfoldable pub acquire_operation_slot : TenantContext → String → ℕ → Managing TenantResourceDecision
acquire_operation_slot context operation now = do
  normalized_operation ← lift (normalized_token operation)
  on_state context now (λ state.
      decide context
        (record {
          service_name = none;
          operation = some normalized_operation;
          resource_type = "concurrent_operation";
          requested_amount = 1;
        })
        (leb state.plan.concurrent_operations state.concurrent_operations)
        "concurrency_limit_exceeded" 1 state
        (record state { concurrent_operations = state.concurrent_operations + 1 }))

-- A release and the snapshot after it
abbrev pub released :
    TenantContext → TenantResourceState → TenantResourceSnapshot × TenantResourceState
released context state = (snapshot_of context.tenant_id state, state)

-- release_operation_slot
unfoldable pub release_operation_slot : TenantContext → String → ℕ → Managing TenantResourceSnapshot
release_operation_slot context operation now =
    lift (normalized_token operation)
    >> on_state context now (λ state.
      released context (record state { concurrent_operations = state.concurrent_operations - 1 }))

-- reserve_queue_items
unfoldable pub reserve_queue_items :
    TenantContext → String → ℤ → ℕ → Managing TenantResourceDecision
reserve_queue_items context queue_name amount now = do
  normalized_queue ← lift (normalized_token queue_name)
  normalized_amount ← lift (positive_amount amount)
  on_state context now (λ state.
      decide context
        (record {
          service_name = none;
          operation = some normalized_queue;
          resource_type = "queue";
          requested_amount = normalized_amount;
        })
        (ltb state.plan.queue_depth (state.queue_items + normalized_amount)) "queue_depth_exceeded"
        1 state (record state { queue_items = state.queue_items + normalized_amount }))

-- release_queue_items
unfoldable pub release_queue_items :
    TenantContext → String → ℤ → ℕ → Managing TenantResourceSnapshot
release_queue_items context queue_name amount now = do
  normalized_queue ← lift (normalized_token queue_name)
  normalized_amount ← lift (positive_amount amount)
  on_state context now (λ state.
      released context (record state { queue_items = state.queue_items - normalized_amount }))

-- reserve_storage_bytes
unfoldable pub reserve_storage_bytes :
    TenantContext → ℤ → String → ℕ → Managing TenantResourceDecision
reserve_storage_bytes context amount resource_type now = do
  normalized_amount ← lift (positive_amount amount)
  normalized_resource ← lift (normalized_token resource_type)
  on_state context now (λ state.
      decide context
        (record {
          service_name = none;
          operation = none;
          resource_type = normalized_resource;
          requested_amount = normalized_amount;
        })
        (ltb state.plan.storage_bytes (state.storage_bytes_used + normalized_amount))
        "storage_quota_exceeded" 0 state
        (record state { storage_bytes_used = state.storage_bytes_used + normalized_amount }))

-- release_storage_bytes
unfoldable pub release_storage_bytes :
    TenantContext → ℤ → String → ℕ → Managing TenantResourceSnapshot
release_storage_bytes context amount resource_type now = do
  normalized_resource ← lift (normalized_token resource_type)
  normalized_amount ← lift (positive_amount amount)
  on_state context now (λ state.
      released context
        (record state { storage_bytes_used = state.storage_bytes_used - normalized_amount }))

-- snapshot
unfoldable pub snapshot : TenantContext → ℕ → Managing TenantResourceSnapshot
snapshot context now = on_state context now (released context)
