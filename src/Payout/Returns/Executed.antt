-- ===== src/Payout/Returns/Executed.antt =====
-- A payout that was executed.
use media_center.Prelude.{◌≡◌, refl, true, none, some, arith}
use media_center.Dict.{lookup, insert}
use media_center.Platform.{Platform}
use media_center.Exec.{ok}
use media_center.Payout.Types.{PayoutQueueItem, executed, with_execution, ExecutionUpdate}
use media_center.Payout.Commands.{Connectors, PayoutPaymentResult, PayoutExecutionReceipt}
use media_center.Payout.Validation.{execution_receipt_model}
use media_center.Payout.State.{Gateway, payout_key, update_payout}
use media_center.Payout.Queue.{is_executable}
use media_center.Payout.Execution.{
  ExecuteRequest, execute_payout, complete, execution_update, resolved_execution_id,
  execution_receipt,
}
use media_center.Payout.Effects.{Quiet-or_raise, Quiet-audit, Quiet-envelope, Quiet-publish}
use media_center.Payout.Change.{Payouts, payouts_of}
use media_center.Payout.Change.Steps.{payouts-HidesTrail, get_payout-Quiet}
use media_center.Payout.Change.Executing.{
  require_executable-Quiet, pay-Quiet, record_on_chain-Quiet, notify-Quiet,
}
use media_center.Payout.Returns.Rules.{Returns, Returns-step, Returns-bind, Returns-last}
use media_center.Payout.Returns.Decided.{update_payout-Returns}

module _ (p : Platform) (k : Connectors) where
  -- What a returned execution has done.
  abbrev pub Executed : ExecuteRequest → Payouts → PayoutExecutionReceipt → Payouts → Type 0
  Executed r d receipt d' =
      (v : PayoutQueueItem) × (u : ExecutionUpdate) × (lookup (r.tenant_id, r.payout_id) d ≡ some v)
      × (is_executable v r.now ≡ true)
      × (u.execution_id ≡ resolved_execution_id p r)
      × (receipt.executed_at ≡ u.executed_at)
      × (d'
          ≡ insert (payout_key v)
              (record v {
                status = executed;
                execution_id = some u.execution_id;
                execution_ref_hash = some u.execution_ref_hash;
                audit_chain_ref = some u.audit_chain_ref;
                notification_id = some u.notification_id;
                executed_at = some u.executed_at;
                audit_hash = u.audit_hash;
                updated_at = u.executed_at;
                payment_connector_name = some u.payment_connector_name;
                payment_gateway_id = some u.payment_gateway_id;
                payment_status = some u.payment_status;
                payment_status_synced_at = some u.executed_at;
                payment_error_code = none;
                payment_refund_id = none;
              })
              d)

  receipt_time :
      (r : ExecuteRequest) (u : ExecutionUpdate) (receipt : PayoutExecutionReceipt)
      → execution_receipt_model (execution_receipt p r u) ≡ some receipt
      → receipt.executed_at ≡ u.executed_at
  unfolding execution_receipt_model execution_receipt
  receipt_time r u receipt h = ground arith

  complete-Returns :
      (r : ExecuteRequest) (v : PayoutQueueItem) (payment : PayoutPaymentResult) (d : Payouts)
      → lookup (r.tenant_id, r.payout_id) d ≡ some v
      → is_executable v r.now ≡ true
      → Returns payouts_of (Executed r d) d (complete p k r v payment)
  unfolding complete with_execution
  complete-Returns r v payment d found ready =
      Returns-bind (Quiet-audit payouts_of payouts-HidesTrail p _) λ a _.
        Returns-bind (record_on_chain-Quiet p k r v payment a.audit_hash) λ chain _.
          Returns-bind (notify-Quiet p k r v payment a.audit_hash chain) λ notification _.
            Returns-step (update_payout _) _ (update_payout-Returns _ d) λ b y w.
              Returns-bind (Quiet-envelope payouts_of payouts-HidesTrail p _) λ event _.
                Returns-bind (Quiet-publish payouts-HidesTrail event) λ _ _.
                  Returns-last (Quiet-or_raise payouts_of _ _) λ receipt built. (
                    v,
                    execution_update p r payment a.audit_hash chain notification,
                    found,
                    ready,
                    unfold execution_update in refl,
                    receipt_time r _ receipt built,
                    w,
                  )

  execute-Returns :
      (r : ExecuteRequest) (d : Payouts)
      → Returns payouts_of (Executed r d) d (execute_payout p k r)
  unfolding execute_payout
  execute-Returns r d = Returns-bind (get_payout-Quiet r.tenant_id r.payout_id) λ v found.
      Returns-bind (require_executable-Quiet v r.now) λ _ ready.
        Returns-bind (pay-Quiet p k r v) λ payment _. complete-Returns r v payment d found ready

  -- If `execute_payout` returns a receipt, the payout was pending, confirmed and out of its veto
  -- window at the time of the call, and in the queue it alone has changed: its status is executed, its
  -- execution identifier is the call's, its time of execution, of update and of payment status are the
  -- receipt's, it has references, an audit hash and a payment status, no payment error and no
  -- refund, and its other fields, such as the member, the share and the confirmation, are as before.
  pub execute_payout-Executed :
      (r : ExecuteRequest) (g : Gateway) (receipt : PayoutExecutionReceipt)
      → (execute_payout p k r g).0 ≡ ok receipt
      → Executed r g.payouts receipt (execute_payout p k r g).1.payouts
  execute_payout-Executed r g receipt h = (execute-Returns r g.payouts).at g receipt refl h
