-- ===== src/Payout/Execution/Run.antt =====
-- PayoutExecutionManager.execute_payout
use media_center.Prelude.{ℕ, ◌+◌, String, Option, none, some, [], ◌∷◌, ◌++◌}
use media_center.Text.{or_else}
use media_center.Value.{null, str, obj, Json, Fields, field, end}
use media_center.Platform.{Platform}
use media_center.Redaction.{audit_safe_metadata}
use media_center.AuditLog.{AuditEntry, no_points}
use media_center.Events.{EventEnvelope}
use media_center.Exec.{or_raise, ◌>>=◌, ◌>>◌, validation_error}
use media_center.Payout.Types.{
  PayoutQueueItem, executed, status_value, ExecutionUpdate, with_execution,
}
use media_center.Payout.Commands.{
  PayoutPaymentCommand, PayoutPaymentResult, BlockchainAuditRecordCommand,
  BlockchainAuditRecordResult, PayoutNotificationCommand, PayoutNotificationResult,
  PayoutExecutionReceipt, Connectors,
}
use media_center.Payout.Validation.{
  payment_command_model, chain_command_model, notification_command_model, execution_receipt_model,
}
use media_center.Payout.State.{
  Gateway, Call, get_payout, update_payout, audit, envelope, publish, ref_hash, new_id,
}
use media_center.Payout.Execution.Failure.{require_executable, send, FailureContext, guarded}

-- The arguments of `execute_payout`.
pub record ExecuteRequest : Type 0 where
  pub tenant_id : String
  pub payout_id : String
  pub correlation_id : String
  pub execution_id : Option String
  pub event_id : Option String
  pub failure_event_id : Option String
  pub notification_id : Option String
  pub now : ℕ
  pub metadata : Fields
  pub fresh : ℕ

abbrev optional_json : Option String → Json
optional_json none = null
optional_json (some s) = str s

unfoldable pub sent_payment : PayoutPaymentCommand → Gateway → Gateway
sent_payment c g = record g { payments = g.payments ++ (c ∷ []) }

unfoldable pub sent_chain_record : BlockchainAuditRecordCommand → Gateway → Gateway
sent_chain_record c g = record g { chain_records = g.chain_records ++ (c ∷ []) }

unfoldable pub sent_notification : PayoutNotificationCommand → Gateway → Gateway
sent_notification c g = record g { notifications = g.notifications ++ (c ∷ []) }

module _ (p : Platform) where
  pub resolved_execution_id : ExecuteRequest → String
  resolved_execution_id r = or_else r.execution_id (new_id p "execution" r.fresh)

  pub resolved_event_id : ExecuteRequest → String
  resolved_event_id r = or_else r.event_id (new_id p "evt-payout-executed" (r.fresh + 1))

  pub resolved_notification_id : ExecuteRequest → String
  resolved_notification_id r = or_else r.notification_id (new_id p "notification" (r.fresh + 2))

  unfoldable pub failure_context : ExecuteRequest → PayoutQueueItem → FailureContext
  failure_context r payout = record {
    payout = payout;
    correlation_id = r.correlation_id;
    failure_event_id = r.failure_event_id;
    metadata = r.metadata;
    fresh = r.fresh + 3;
  }

  unfoldable pub payment_command : ExecuteRequest → PayoutQueueItem → PayoutPaymentCommand
  unfolding resolved_execution_id
  payment_command r payout = record {
    tenant_id = r.tenant_id;
    payout_id = r.payout_id;
    execution_id = resolved_execution_id r;
    member_id = payout.member_id;
    member_hash = payout.member_hash;
    period = payout.period;
    payout_share = payout.payout_share;
    distribution_id = payout.distribution_id;
    distribution_hash = payout.distribution_hash;
    correlation_id = r.correlation_id;
    requested_at = r.now;
    metadata = r.metadata;
  }

  unfoldable pub executed_audit :
      ExecuteRequest → PayoutQueueItem → PayoutPaymentResult → AuditEntry
  unfolding resolved_execution_id
  executed_audit r payout payment = record {
    event_type = "payout.executed";
    tenant_id = r.tenant_id;
    points = no_points;
    metadata = field "payout_id" (str payout.payout_id) (
        field "execution_id" (str (resolved_execution_id r)) (
          field "execution_ref_hash" (str (ref_hash p r.tenant_id payment.execution_ref)) (
            field "payment_connector" (str payment.connector_name) (
              field "previous_status" (str (status_value payout.status)) (
                field "new_status" (str (status_value executed)) (
                  field "confirmation_id" (optional_json payout.confirmation_id) (
                    field "distribution_hash" (str payout.distribution_hash)
                      (field "metadata" (obj (audit_safe_metadata p.lower r.metadata)) end))))))));
    timestamp = payment.executed_at;
    correlation_id = some r.correlation_id;
    actor_hash = none;
    source = some "hitl-payout-gateway";
  }

  unfoldable pub chain_command :
      ExecuteRequest → PayoutQueueItem → PayoutPaymentResult → String → BlockchainAuditRecordCommand
  unfolding resolved_event_id resolved_execution_id
  chain_command r payout payment audit_hash = record {
    tenant_id = r.tenant_id;
    event_id = resolved_event_id r;
    event_type = "payout.executed";
    audit_hash = audit_hash;
    correlation_id = r.correlation_id;
    occurred_at = payment.executed_at;
    metadata = field "payout_id" (str payout.payout_id) (
        field "execution_id" (str (resolved_execution_id r)) (
          field "execution_ref_hash" (str (ref_hash p r.tenant_id payment.execution_ref))
            (field "source" (str "hitl-payout-gateway") end)));
  }

  unfoldable pub notification_command :
      ExecuteRequest
      → PayoutQueueItem
      → PayoutPaymentResult
      → String
      → BlockchainAuditRecordResult
      → PayoutNotificationCommand
  unfolding resolved_notification_id
  notification_command r payout payment audit_hash chain = record {
    notification_id = resolved_notification_id r;
    tenant_id = r.tenant_id;
    recipient_id = payout.member_id;
    recipient_hash = payout.member_hash;
    payout_id = payout.payout_id;
    event_type = "payout.executed";
    template_key = "hitl_payout_executed";
    correlation_id = r.correlation_id;
    metadata = field "payout_id" (str payout.payout_id) (
        field "execution_ref_hash" (str (ref_hash p r.tenant_id payment.execution_ref)) (
          field "audit_hash" (str audit_hash)
            (field "audit_chain_ref" (str chain.audit_chain_ref) end)));
  }

  unfoldable pub execution_update :
      ExecuteRequest
      → PayoutPaymentResult
      → String
      → BlockchainAuditRecordResult
      → PayoutNotificationResult
      → ExecutionUpdate
  unfolding resolved_execution_id
  execution_update r payment audit_hash chain notification = record {
    execution_id = resolved_execution_id r;
    execution_ref_hash = ref_hash p r.tenant_id payment.execution_ref;
    audit_chain_ref = chain.audit_chain_ref;
    notification_id = notification.notification_id;
    executed_at = payment.executed_at;
    audit_hash = audit_hash;
    payment_connector_name = payment.connector_name;
    payment_gateway_id = or_else payment.gateway_payment_id payment.execution_ref;
    payment_status = payment.gateway_status;
  }

  unfoldable pub executed_event :
      ExecuteRequest → PayoutQueueItem → PayoutPaymentResult → String → EventEnvelope
  unfolding resolved_event_id
  executed_event r updated payment audit_hash = record {
    event_id = resolved_event_id r;
    type = "payout.executed";
    schema_version = "1.0";
    tenant_id = r.tenant_id;
    source = "hitl-payout-gateway";
    correlation_id = r.correlation_id;
    occurred_at = payment.executed_at;
    payload = field "payout_id" (str updated.payout_id) (
        field "execution_ref_hash" (str (ref_hash p r.tenant_id payment.execution_ref)) (
          field "status" (str (status_value updated.status))
            (field "audit_hash" (str audit_hash) end)));
    causation_id = none;
  }

  unfoldable pub execution_receipt : ExecuteRequest → ExecutionUpdate → PayoutExecutionReceipt
  execution_receipt r u = record {
    execution_id = u.execution_id;
    tenant_id = r.tenant_id;
    payout_id = r.payout_id;
    execution_ref_hash = u.execution_ref_hash;
    audit_hash = u.audit_hash;
    audit_chain_ref = u.audit_chain_ref;
    notification_id = u.notification_id;
    executed_at = u.executed_at;
    correlation_id = r.correlation_id;
  }

  unfoldable pub pay : Connectors → ExecuteRequest → PayoutQueueItem → Call PayoutPaymentResult
  unfolding send
  pay k r payout =
      guarded p (failure_context r payout) "payment_gateway" r.now
        (send (payment_command_model (payment_command r payout)) sent_payment k.execute_payout)

  unfoldable pub record_on_chain :
      Connectors
      → ExecuteRequest
      → PayoutQueueItem
      → PayoutPaymentResult
      → String
      → Call BlockchainAuditRecordResult
  unfolding send
  record_on_chain k r payout payment audit_hash =
      guarded p (failure_context r payout) "blockchain_auditor" payment.executed_at (
        send (chain_command_model (chain_command r payout payment audit_hash)) sent_chain_record
          k.record_audit_hash)

  unfoldable pub notify :
      Connectors
      → ExecuteRequest
      → PayoutQueueItem
      → PayoutPaymentResult
      → String
      → BlockchainAuditRecordResult
      → Call PayoutNotificationResult
  unfolding send
  notify k r payout payment audit_hash chain =
      guarded p (failure_context r payout) "notification_gateway" payment.executed_at (
        send (notification_command_model (notification_command r payout payment audit_hash chain))
          sent_notification k.notify_payout_executed)

  -- What follows the payment.
  unfoldable pub complete :
      Connectors
      → ExecuteRequest
      → PayoutQueueItem
      → PayoutPaymentResult
      → Call PayoutExecutionReceipt
  complete k r payout payment = do
    audit_record ← audit p (executed_audit r payout payment)
    chain ← record_on_chain k r payout payment audit_record.audit_hash
    notification ← notify k r payout payment audit_record.audit_hash chain
    let u = execution_update r payment audit_record.audit_hash chain notification
    updated ← update_payout (with_execution payout u)
    event ← envelope p (executed_event r updated payment audit_record.audit_hash)
    publish event
    or_raise validation_error (execution_receipt_model (execution_receipt r u))

  -- PayoutExecutionManager.execute_payout
  unfoldable pub execute_payout : Connectors → ExecuteRequest → Call PayoutExecutionReceipt
  execute_payout k r = do
    payout ← get_payout r.tenant_id r.payout_id
    require_executable payout r.now
    payment ← pay k r payout
    complete k r payout payment
