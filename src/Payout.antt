-- ===== src/Payout.antt =====
-- services/hitl-payout-gateway/hitl_payout_gateway: the queue of payouts, the Council's veto, the
-- two-factor confirmation, the execution and the payment status, each manager in a child.
pub mod Types
pub mod Commands
pub mod Fields
pub mod Validation
pub mod State
pub mod Queue
pub mod Veto
pub mod Confirmation
pub mod Execution
pub mod Effects
pub mod Change
pub mod Payments
pub mod Listing
pub mod Memory
pub mod Returns
mod Tests
