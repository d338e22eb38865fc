-- ===== src/Payout/Commands.antt =====
-- What execution_manager.py hands to its three connectors and what they answer. The connectors are
-- protocols: a call is answered by the environment, with a result or an exception.
use media_center.Prelude.{ℕ, String, Bool, Option}
use media_center.Value.{Float, Fields}
use media_center.Exec.{Result}
use media_center.Payout.Types.{PayoutPaymentStatus}

pub record PayoutPaymentCommand : Type 0 where
  pub tenant_id : String
  pub payout_id : String
  pub execution_id : String
  pub member_id : String
  pub member_hash : String
  pub period : String
  pub payout_share : Float
  pub distribution_id : String
  pub distribution_hash : String
  pub correlation_id : String
  pub requested_at : ℕ
  pub metadata : Fields

pub record PayoutPaymentResult : Type 0 where
  pub execution_ref : String
  pub connector_name : String
  pub executed_at : ℕ
  pub gateway_payment_id : Option String
  pub gateway_status : PayoutPaymentStatus

pub record PayoutPaymentStatusCommand : Type 0 where
  pub tenant_id : String
  pub payout_id : String
  pub execution_id : String
  pub payment_gateway_id : String
  pub connector_name : String
  pub correlation_id : String
  pub requested_at : ℕ
  pub metadata : Fields

pub record PayoutPaymentStatusResult : Type 0 where
  pub payment_gateway_id : String
  pub status : PayoutPaymentStatus
  pub connector_name : String
  pub synced_at : ℕ
  pub error_code : Option String
  pub retryable : Bool
  pub refund_id : Option String

pub record PayoutPaymentStatusReceipt : Type 0 where
  pub tenant_id : String
  pub payout_id : String
  pub payment_gateway_id : String
  pub payment_ref_hash : String
  pub status : PayoutPaymentStatus
  pub connector_name : String
  pub synced_at : ℕ
  pub audit_hash : String
  pub correlation_id : String
  pub error_code : Option String
  pub retryable : Bool
  pub refund_id : Option String

pub record BlockchainAuditRecordCommand : Type 0 where
  pub tenant_id : String
  pub event_id : String
  pub event_type : String
  pub audit_hash : String
  pub correlation_id : String
  pub occurred_at : ℕ
  pub metadata : Fields

pub record BlockchainAuditRecordResult : Type 0 where
  pub audit_chain_ref : String
  pub connector_name : String
  pub recorded_at : ℕ

pub record PayoutNotificationCommand : Type 0 where
  pub notification_id : String
  pub tenant_id : String
  pub recipient_id : String
  pub recipient_hash : String
  pub payout_id : String
  pub event_type : String
  pub template_key : String
  pub correlation_id : String
  pub metadata : Fields

pub record PayoutNotificationResult : Type 0 where
  pub notification_id : String
  pub connector_name : String
  pub accepted_at : ℕ

pub record PayoutExecutionReceipt : Type 0 where
  pub execution_id : String
  pub tenant_id : String
  pub payout_id : String
  pub execution_ref_hash : String
  pub audit_hash : String
  pub audit_chain_ref : String
  pub notification_id : String
  pub executed_at : ℕ
  pub correlation_id : String

-- How the three connectors answer the calls of one operation.
pub record Connectors : Type 0 where
  pub execute_payout : PayoutPaymentCommand → Result PayoutPaymentResult
  pub record_audit_hash : BlockchainAuditRecordCommand → Result BlockchainAuditRecordResult
  pub notify_payout_executed : PayoutNotificationCommand → Result PayoutNotificationResult
  -- `none` for a payment connector that is no PaymentStatusConnector
  pub sync_payout_status : Option (PayoutPaymentStatusCommand → Result PayoutPaymentStatusResult)
