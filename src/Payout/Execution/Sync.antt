-- ===== src/Payout/Execution/Sync.antt =====
-- PayoutExecutionManager.sync_payment_status
use media_center.Prelude.{ℕ, ◌+◌, String, false, Option, none, some, [], ◌∷◌, ◌++◌}
use media_center.Text.{or_else}
use media_center.Value.{null, bool, str, obj, Json, Fields, field, end}
use media_center.Platform.{Platform}
use media_center.Redaction.{audit_safe_metadata}
use media_center.AuditLog.{AuditEntry, no_points}
use media_center.Events.{EventEnvelope}
use media_center.Exec.{
  Result, ok, err, lift, or_raise, ◌>>=◌, ◌>>◌, validation_error, connector, payout_not_executable,
  not_sent,
}
use media_center.Payout.Types.{
  PayoutQueueItem, PayoutPaymentStatus, payment_status_value, PaymentStatusUpdate,
  with_payment_status,
}
use media_center.Payout.Commands.{
  PayoutPaymentStatusCommand, PayoutPaymentStatusResult, PayoutPaymentStatusReceipt, Connectors,
}
use media_center.Payout.Validation.{status_command_model, status_receipt_model}
use media_center.Payout.State.{
  Gateway, Call, get_payout, update_payout, audit, envelope, publish, ref_hash, new_id,
}
use media_center.Payout.Execution.Failure.{send, FailureContext, guarded}

-- The arguments of `sync_payment_status`.
pub record SyncRequest : Type 0 where
  pub tenant_id : String
  pub payout_id : String
  pub correlation_id : String
  pub event_id : Option String
  pub failure_event_id : Option String
  pub now : ℕ
  pub metadata : Fields
  pub fresh : ℕ

-- The execution and payment identifiers of a payout that has been sent to the gateway.
unfoldable pub sent_ids : PayoutQueueItem → Result (String × String)
sent_ids payout = elim payout.execution_id [
  | none ↦ err (payout_not_executable not_sent)
  | some execution_id ↦ elim payout.payment_gateway_id [
    | none ↦ err (payout_not_executable not_sent)
    | some payment_gateway_id ↦ ok (execution_id, payment_gateway_id)
  ]
]

-- _payment_status_connector
unfoldable pub payment_status_connector :
    Connectors → Result (PayoutPaymentStatusCommand → Result PayoutPaymentStatusResult)
payment_status_connector k = elim k.sync_payout_status [
  | some sync ↦ ok sync
  | none ↦ err (
      connector (record {
        connector_name = "payment_gateway";
        error_code = "payment_status_sync_unsupported";
        retryable = false;
      }))
]

abbrev optional_text : Option String → Json
optional_text none = null
optional_text (some s) = str s

abbrev optional_status : Option PayoutPaymentStatus → Json
optional_status none = null
optional_status (some s) = str (payment_status_value s)

-- `updated.payment_status.value if ... else payment_status.status.value`
abbrev status_or : Option PayoutPaymentStatus → PayoutPaymentStatus → PayoutPaymentStatus
status_or none s = s
status_or (some t) s = t

abbrev field_if : String → Option String → Fields → Fields
field_if k none rest = rest
field_if k (some s) rest = field k (str s) rest

unfoldable pub noted_query : PayoutPaymentStatusCommand → Gateway → Gateway
noted_query c g = record g { status_queries = g.status_queries ++ (c ∷ []) }

module _ (p : Platform) where
  unfoldable pub sync_failure_context : SyncRequest → PayoutQueueItem → FailureContext
  sync_failure_context r payout = record {
    payout = payout;
    correlation_id = r.correlation_id;
    failure_event_id = r.failure_event_id;
    metadata = r.metadata;
    fresh = r.fresh + 1;
  }

  unfoldable pub status_command :
      SyncRequest → String → String → String → PayoutPaymentStatusCommand
  status_command r execution_id payment_gateway_id connector_name = record {
    tenant_id = r.tenant_id;
    payout_id = r.payout_id;
    execution_id = execution_id;
    payment_gateway_id = payment_gateway_id;
    connector_name = connector_name;
    correlation_id = r.correlation_id;
    requested_at = r.now;
    metadata = r.metadata;
  }

  -- refund_ref_hash
  unfoldable pub refund_hash : SyncRequest → PayoutPaymentStatusResult → Option String
  refund_hash r s = elim s.refund_id [ none ↦ none | some id ↦ some (ref_hash p r.tenant_id id) ]

  unfoldable pub synced_audit :
      SyncRequest → PayoutQueueItem → String → PayoutPaymentStatusResult → AuditEntry
  synced_audit r payout execution_id s = record {
    event_type = "payout.payment_status_synced";
    tenant_id = r.tenant_id;
    points = no_points;
    metadata = field "payout_id" (str payout.payout_id) (
        field "execution_id" (str execution_id) (
          field "payment_ref_hash" (str (ref_hash p r.tenant_id s.payment_gateway_id)) (
            field "payment_connector" (str s.connector_name) (
              field "previous_payment_status" (optional_status payout.payment_status) (
                field "new_payment_status" (str (payment_status_value s.status)) (
                  field "error_code" (optional_text s.error_code) (
                    field "retryable" (bool s.retryable) (
                      field "refund_ref_hash" (optional_text (refund_hash r s)) (
                        field "metadata" (obj (audit_safe_metadata p.lower r.metadata))
                          end)))))))));
    timestamp = s.synced_at;
    correlation_id = some r.correlation_id;
    actor_hash = none;
    source = some "hitl-payout-gateway";
  }

  unfoldable pub status_update : PayoutPaymentStatusResult → String → PaymentStatusUpdate
  status_update s audit_hash = record {
    payment_status = s.status;
    synced_at = s.synced_at;
    audit_hash = audit_hash;
    payment_connector_name = s.connector_name;
    payment_gateway_id = s.payment_gateway_id;
    payment_error_code = s.error_code;
    payment_refund_id = s.refund_id;
  }

  unfoldable pub synced_event :
      SyncRequest → PayoutQueueItem → PayoutPaymentStatusResult → String → EventEnvelope
  synced_event r updated s audit_hash = record {
    event_id = or_else r.event_id (new_id p "evt-payout-payment-status-synced" r.fresh);
    type = "payout.payment_status_synced";
    schema_version = "1.0";
    tenant_id = r.tenant_id;
    source = "hitl-payout-gateway";
    correlation_id = r.correlation_id;
    occurred_at = s.synced_at;
    payload = field "payout_id" (str updated.payout_id) (
        field "payment_ref_hash" (str (ref_hash p r.tenant_id s.payment_gateway_id)) (
          field "status" (str (payment_status_value (status_or updated.payment_status s.status))) (
            field "connector" (str s.connector_name) (
              field "audit_hash" (str audit_hash) (
                field_if "error_code" s.error_code
                  (field_if "refund_ref_hash" (refund_hash r s) end))))));
    causation_id = none;
  }

  unfoldable pub status_receipt :
      SyncRequest → PayoutPaymentStatusResult → String → PayoutPaymentStatusReceipt
  status_receipt r s audit_hash = record {
    tenant_id = r.tenant_id;
    payout_id = r.payout_id;
    payment_gateway_id = s.payment_gateway_id;
    payment_ref_hash = ref_hash p r.tenant_id s.payment_gateway_id;
    status = s.status;
    connector_name = s.connector_name;
    synced_at = s.synced_at;
    audit_hash = audit_hash;
    correlation_id = r.correlation_id;
    error_code = s.error_code;
    retryable = s.retryable;
    refund_id = s.refund_id;
  }

  -- PayoutExecutionManager.sync_payment_status
  unfoldable pub sync_payment_status : Connectors → SyncRequest → Call PayoutPaymentStatusReceipt
  sync_payment_status k r = do
    payout ← get_payout r.tenant_id r.payout_id
    ids ← lift (sent_ids payout)
    sync ← lift (payment_status_connector k)
    let connector_name = or_else payout.payment_connector_name "payment_gateway"
    s ←
        guarded p (sync_failure_context r payout) connector_name r.now (
          send (status_command_model (status_command r ids.0 ids.1 connector_name)) noted_query
            sync)
    audit_record ← audit p (synced_audit r payout ids.0 s)
    updated ← update_payout (with_payment_status payout (status_update s audit_record.audit_hash))
    event ← envelope p (synced_event r updated s audit_record.audit_hash)
    publish event
    or_raise validation_error (status_receipt_model (status_receipt r s audit_record.audit_hash))
