-- ===== src/Payout/Validation.antt =====
-- The pydantic models of the gateway as checks: each takes the arguments of a constructor and gives
-- the model with its texts trimmed, or `none` where pydantic raises ValidationError.
use Prim.Native.String
use media_center.Prelude.{Option, some, ◌==◌}
use media_center.Prelude.Maybe.{◌>>=◌, ◌>>◌, require}
use media_center.Text.{trim, tenant_id_field, token_field, audit_hash_field, text_field}
use media_center.Value.{is_share}
use media_center.Platform.{Platform}
use media_center.AuditLog.{optional_field}
use media_center.Payout.Fields.{
  period_field, ref_hash_field, connector_name_field, reason_code_field, template_key_field,
  event_type_field,
}
use media_center.Payout.Types.{PayoutQueueItem, PayoutConfirmation, VetoDecision}
use media_center.Payout.Commands.{
  PayoutPaymentCommand, PayoutPaymentStatusCommand, PayoutPaymentStatusReceipt,
  BlockchainAuditRecordCommand, PayoutNotificationCommand, PayoutExecutionReceipt,
}

-- A payout as `queue_payout` builds it: the fields of later stages are not given.
unfoldable pub queue_item_model : Platform → PayoutQueueItem → Option PayoutQueueItem
queue_item_model p d = do
  payout_id ← token_field d.payout_id
  tenant_id ← tenant_id_field d.tenant_id
  member_id ← token_field d.member_id
  period ← period_field p d.period
  require (is_share d.payout_share)
  distribution_id ← token_field d.distribution_id
  distribution_hash ← audit_hash_field d.distribution_hash
  audit_hash ← audit_hash_field d.audit_hash
  created_by ← token_field d.created_by
  some (record d {
    payout_id = payout_id;
    tenant_id = tenant_id;
    member_id = member_id;
    member_hash = trim d.member_hash;
    period = period;
    distribution_id = distribution_id;
    distribution_hash = distribution_hash;
    audit_hash = audit_hash;
    created_by = created_by;
    created_by_hash = trim d.created_by_hash;
  })

unfoldable pub confirmation_model : PayoutConfirmation → Option PayoutConfirmation
confirmation_model d = do
  confirmation_id ← token_field d.confirmation_id
  tenant_id ← tenant_id_field d.tenant_id
  payout_id ← token_field d.payout_id
  actor_id ← token_field d.actor_id
  actor_role ← token_field d.actor_role
  two_factor_method ← text_field 32 d.two_factor_method
  audit_hash ← audit_hash_field d.audit_hash
  correlation_id ← token_field d.correlation_id
  some (record {
    confirmation_id = confirmation_id;
    tenant_id = tenant_id;
    payout_id = payout_id;
    actor_id = actor_id;
    actor_hash = trim d.actor_hash;
    actor_role = actor_role;
    two_factor_method = two_factor_method;
    operation = trim d.operation;
    audit_hash = audit_hash;
    confirmed_at = d.confirmed_at;
    correlation_id = correlation_id;
  })

unfoldable pub decision_model : VetoDecision → Option VetoDecision
decision_model d = do
  decision_id ← token_field d.decision_id
  tenant_id ← tenant_id_field d.tenant_id
  payout_id ← token_field d.payout_id
  actor_id ← token_field d.actor_id
  reason_code ← reason_code_field d.reason_code
  reason ← text_field 512 d.reason
  audit_hash ← audit_hash_field d.audit_hash
  correlation_id ← token_field d.correlation_id
  some (record {
    decision_id = decision_id;
    tenant_id = tenant_id;
    payout_id = payout_id;
    actor_id = actor_id;
    actor_hash = trim d.actor_hash;
    reason_code = reason_code;
    reason = reason;
    reason_hash = trim d.reason_hash;
    audit_hash = audit_hash;
    decided_at = d.decided_at;
    correlation_id = correlation_id;
  })

unfoldable pub payment_command_model : PayoutPaymentCommand → Option PayoutPaymentCommand
payment_command_model d = do
  tenant_id ← tenant_id_field d.tenant_id
  payout_id ← token_field d.payout_id
  execution_id ← token_field d.execution_id
  member_id ← token_field d.member_id
  member_hash ← ref_hash_field d.member_hash
  require (String.count (trim d.period) == 7)
  require (is_share d.payout_share)
  distribution_id ← token_field d.distribution_id
  distribution_hash ← audit_hash_field d.distribution_hash
  correlation_id ← token_field d.correlation_id
  some (record {
    tenant_id = tenant_id;
    payout_id = payout_id;
    execution_id = execution_id;
    member_id = member_id;
    member_hash = member_hash;
    period = trim d.period;
    payout_share = d.payout_share;
    distribution_id = distribution_id;
    distribution_hash = distribution_hash;
    correlation_id = correlation_id;
    requested_at = d.requested_at;
    metadata = d.metadata;
  })

unfoldable pub status_command_model : PayoutPaymentStatusCommand → Option PayoutPaymentStatusCommand
status_command_model d = do
  tenant_id ← tenant_id_field d.tenant_id
  payout_id ← token_field d.payout_id
  execution_id ← token_field d.execution_id
  payment_gateway_id ← text_field 256 d.payment_gateway_id
  connector_name ← connector_name_field d.connector_name
  correlation_id ← token_field d.correlation_id
  some (record {
    tenant_id = tenant_id;
    payout_id = payout_id;
    execution_id = execution_id;
    payment_gateway_id = payment_gateway_id;
    connector_name = connector_name;
    correlation_id = correlation_id;
    requested_at = d.requested_at;
    metadata = d.metadata;
  })

unfoldable pub status_receipt_model : PayoutPaymentStatusReceipt → Option PayoutPaymentStatusReceipt
status_receipt_model d = do
  tenant_id ← tenant_id_field d.tenant_id
  payout_id ← token_field d.payout_id
  payment_gateway_id ← text_field 256 d.payment_gateway_id
  payment_ref_hash ← ref_hash_field d.payment_ref_hash
  connector_name ← connector_name_field d.connector_name
  audit_hash ← audit_hash_field d.audit_hash
  correlation_id ← token_field d.correlation_id
  error_code ← optional_field (text_field 128) d.error_code
  refund_id ← optional_field (text_field 256) d.refund_id
  some (record {
    tenant_id = tenant_id;
    payout_id = payout_id;
    payment_gateway_id = payment_gateway_id;
    payment_ref_hash = payment_ref_hash;
    status = d.status;
    connector_name = connector_name;
    synced_at = d.synced_at;
    audit_hash = audit_hash;
    correlation_id = correlation_id;
    error_code = error_code;
    retryable = d.retryable;
    refund_id = refund_id;
  })

unfoldable pub chain_command_model :
    BlockchainAuditRecordCommand → Option BlockchainAuditRecordCommand
chain_command_model d = do
  tenant_id ← tenant_id_field d.tenant_id
  event_id ← token_field d.event_id
  event_type ← event_type_field d.event_type
  audit_hash ← audit_hash_field d.audit_hash
  correlation_id ← token_field d.correlation_id
  some (record {
    tenant_id = tenant_id;
    event_id = event_id;
    event_type = event_type;
    audit_hash = audit_hash;
    correlation_id = correlation_id;
    occurred_at = d.occurred_at;
    metadata = d.metadata;
  })

unfoldable pub notification_command_model :
    PayoutNotificationCommand → Option PayoutNotificationCommand
notification_command_model d = do
  notification_id ← token_field d.notification_id
  tenant_id ← tenant_id_field d.tenant_id
  recipient_id ← token_field d.recipient_id
  recipient_hash ← ref_hash_field d.recipient_hash
  payout_id ← token_field d.payout_id
  event_type ← event_type_field d.event_type
  template_key ← template_key_field d.template_key
  correlation_id ← token_field d.correlation_id
  some (record {
    notification_id = notification_id;
    tenant_id = tenant_id;
    recipient_id = recipient_id;
    recipient_hash = recipient_hash;
    payout_id = payout_id;
    event_type = event_type;
    template_key = template_key;
    correlation_id = correlation_id;
    metadata = d.metadata;
  })

unfoldable pub execution_receipt_model : PayoutExecutionReceipt → Option PayoutExecutionReceipt
execution_receipt_model d = do
  execution_id ← token_field d.execution_id
  tenant_id ← tenant_id_field d.tenant_id
  payout_id ← token_field d.payout_id
  execution_ref_hash ← ref_hash_field d.execution_ref_hash
  audit_hash ← audit_hash_field d.audit_hash
  audit_chain_ref ← text_field 256 d.audit_chain_ref
  notification_id ← token_field d.notification_id
  correlation_id ← token_field d.correlation_id
  some (record {
    execution_id = execution_id;
    tenant_id = tenant_id;
    payout_id = payout_id;
    execution_ref_hash = execution_ref_hash;
    audit_hash = audit_hash;
    audit_chain_ref = audit_chain_ref;
    notification_id = notification_id;
    executed_at = d.executed_at;
    correlation_id = correlation_id;
  })
