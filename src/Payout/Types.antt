-- ===== src/Payout/Types.antt =====
-- PayoutQueueItem of queue_manager.py, with the copies that its `with_*` methods make, and the
-- decisions of veto_manager.py and confirmation_manager.py.
use media_center.Prelude.{ℕ, String, Bool, Option, none, some, str_eq, if◌then◌else◌}
use media_center.Value.{Float}

pub data PayoutStatus : Type 0 where
  queued ready_to_execute canceled executed : PayoutStatus

pub data PayoutPaymentStatus : Type 0 where
  accepted processing succeeded failed returned refunded : PayoutPaymentStatus

pub record PayoutQueueItem : Type 0 where
  pub payout_id : String
  pub tenant_id : String
  pub member_id : String
  pub member_hash : String
  pub period : String
  pub payout_share : Float
  pub distribution_id : String
  pub distribution_hash : String
  pub status : PayoutStatus
  pub veto_until : ℕ
  pub requires_2fa : Bool
  pub confirmation_id : Option String
  pub confirmed_by : Option String
  pub confirmed_by_hash : Option String
  pub confirmed_by_role : Option String
  pub confirmed_at : Option ℕ
  pub audit_hash : String
  pub created_by : String
  pub created_by_hash : String
  pub created_at : ℕ
  pub updated_at : ℕ
  pub veto_decision_id : Option String
  pub execution_id : Option String
  pub execution_ref_hash : Option String
  pub audit_chain_ref : Option String
  pub notification_id : Option String
  pub executed_at : Option ℕ
  pub payment_connector_name : Option String
  pub payment_gateway_id : Option String
  pub payment_status : Option PayoutPaymentStatus
  pub payment_status_synced_at : Option ℕ
  pub payment_error_code : Option String
  pub payment_refund_id : Option String

abbrev pub status_value : PayoutStatus → String
status_value queued = "queued"
status_value ready_to_execute = "ready_to_execute"
status_value canceled = "canceled"
status_value executed = "executed"

abbrev pub payment_status_value : PayoutPaymentStatus → String
payment_status_value accepted = "accepted"
payment_status_value processing = "processing"
payment_status_value succeeded = "succeeded"
payment_status_value failed = "failed"
payment_status_value returned = "returned"
payment_status_value refunded = "refunded"

-- `updates[...] = value` if the argument is given
abbrev override : Option String → String → String
override none old = old
override (some new) old = new

abbrev override_optional : Option String → Option String → Option String
override_optional none old = old
override_optional (some new) old = some new

unfoldable pub with_status :
    PayoutQueueItem → PayoutStatus → ℕ → Option String → Option String → PayoutQueueItem
with_status item status updated_at audit_hash veto_decision_id = record item {
  status = status;
  updated_at = updated_at;
  audit_hash = override audit_hash item.audit_hash;
  veto_decision_id = override_optional veto_decision_id item.veto_decision_id;
}

pub record PayoutConfirmation : Type 0 where
  pub confirmation_id : String
  pub tenant_id : String
  pub payout_id : String
  pub actor_id : String
  pub actor_hash : String
  pub actor_role : String
  pub two_factor_method : String
  pub operation : String
  pub audit_hash : String
  pub confirmed_at : ℕ
  pub correlation_id : String

-- with_confirmation, at the arguments that `confirm_payout` takes from a confirmation
unfoldable pub with_confirmation : PayoutQueueItem → PayoutConfirmation → PayoutQueueItem
with_confirmation item c = record item {
  confirmation_id = some c.confirmation_id;
  confirmed_by = some c.actor_id;
  confirmed_by_hash = some c.actor_hash;
  confirmed_by_role = some c.actor_role;
  confirmed_at = some c.confirmed_at;
  audit_hash = c.audit_hash;
  updated_at = c.confirmed_at;
}

-- The arguments of `with_execution`.
pub record ExecutionUpdate : Type 0 where
  pub execution_id : String
  pub execution_ref_hash : String
  pub audit_chain_ref : String
  pub notification_id : String
  pub executed_at : ℕ
  pub audit_hash : String
  pub payment_connector_name : String
  pub payment_gateway_id : String
  pub payment_status : PayoutPaymentStatus

unfoldable pub with_execution : PayoutQueueItem → ExecutionUpdate → PayoutQueueItem
with_execution item u = record item {
  status = executed;
  execution_id = some u.execution_id;
  execution_ref_hash = some u.execution_ref_hash;
  audit_chain_ref = some u.audit_chain_ref;
  notification_id = some u.notification_id;
  executed_at = some u.executed_at;
  audit_hash = u.audit_hash;
  updated_at = u.executed_at;
  payment_connector_name = some u.payment_connector_name;
  payment_gateway_id = some u.payment_gateway_id;
  payment_status = some u.payment_status;
  payment_status_synced_at = some u.executed_at;
  payment_error_code = none;
  payment_refund_id = none;
}

-- `new or old`: an empty text is false.
abbrev new_or_old : String → Option String → Option String
new_or_old new old = if str_eq new "" then old else some new

-- The arguments of `with_payment_status`.
pub record PaymentStatusUpdate : Type 0 where
  pub payment_status : PayoutPaymentStatus
  pub synced_at : ℕ
  pub audit_hash : String
  pub payment_connector_name : String
  pub payment_gateway_id : String
  pub payment_error_code : Option String
  pub payment_refund_id : Option String

unfoldable pub with_payment_status : PayoutQueueItem → PaymentStatusUpdate → PayoutQueueItem
with_payment_status item u = record item {
  payment_status = some u.payment_status;
  payment_status_synced_at = some u.synced_at;
  payment_connector_name = new_or_old u.payment_connector_name item.payment_connector_name;
  payment_gateway_id = new_or_old u.payment_gateway_id item.payment_gateway_id;
  payment_error_code = u.payment_error_code;
  payment_refund_id = u.payment_refund_id;
  audit_hash = u.audit_hash;
  updated_at = u.synced_at;
}

pub record VetoDecision : Type 0 where
  pub decision_id : String
  pub tenant_id : String
  pub payout_id : String
  pub actor_id : String
  pub actor_hash : String
  pub reason_code : String
  pub reason : String
  pub reason_hash : String
  pub audit_hash : String
  pub decided_at : ℕ
  pub correlation_id : String
