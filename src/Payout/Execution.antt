-- ===== src/Payout/Execution.antt =====
-- PayoutExecutionManager of execution_manager.py: payment, audit chain and notification, each behind
-- a connector that may raise, then the payout's update; and the later check of the payment status.
mod Run
mod Sync
pub mod Failure
unfoldable pub use Run.*
unfoldable pub use Sync.*
