-- ===== src/Payout/Change/Own.antt =====
-- The abstract specification of the queue of payouts: what a call of the gateway for a tenant may
-- make of the repository of queue_manager.py. Every operation refines it, on every path.
use media_center.Prelude.{
  ℕ, String, ◌≡◌, ◌≤◌, ◌<◌, ◌⊎◌, true, none, some, is_some, str_eq, if◌then◌else◌,
}
use media_center.Dict.{lookup, insert}
use media_center.Platform.{Platform}
use media_center.Payout.Types.{
  PayoutQueueItem, queued, ready_to_execute, canceled, executed, PayoutConfirmation,
  ExecutionUpdate, PaymentStatusUpdate,
}
use media_center.Payout.State.{payout_key}
use media_center.Payout.Change.{Payouts, IsFresh, Change, executed_at}

-- A payout that may be executed at this time: pending, out of its veto window, and confirmed.
pub record IsReady (v : PayoutQueueItem) (at : ℕ) : Type 0 where
  pub pending : (v.status ≡ queued) ⊎ (v.status ≡ ready_to_execute)
  pub window_ended : v.veto_until ≤ at
  pub is_confirmed : is_some v.confirmation_id ≡ true

-- The changes of the repository `d` to `d'` for the tenant `t`, at the key of one payout of its own:
-- each constructor says when the change is made, and every field that it writes.
pub data OwnChange (t : String) (d d' : Payouts) : Type 0 where
  nothing : d' ≡ d → OwnChange t d d'
  queues :
      (i : String) (v : PayoutQueueItem)
      → payout_key v ≡ (t, i)
      → IsFresh v
      → lookup (t, i) d ≡ none
      → d' ≡ insert (t, i) v d
      → OwnChange t d d'
  cancels :
      (i : String) (v : PayoutQueueItem) (at : ℕ) (decision_hash decision_id : String)
      → lookup (t, i) d ≡ some v
      → v.status ≡ queued
      → at < v.veto_until
      → d'
        ≡ insert
            (t, i)
            (record v {
              status = canceled;
              updated_at = at;
              audit_hash = decision_hash;
              veto_decision_id = some decision_id;
            })
            d
      → OwnChange t d d'
  confirms :
      (i : String) (v : PayoutQueueItem) (c : PayoutConfirmation)
      → lookup (t, i) d ≡ some v
      → v.status ≡ queued
      → v.confirmation_id ≡ none
      → c.actor_role ≡ "council"
      → d'
        ≡ insert
            (t, i)
            (record v {
              confirmation_id = some c.confirmation_id;
              confirmed_by = some c.actor_id;
              confirmed_by_hash = some c.actor_hash;
              confirmed_by_role = some "council";
              confirmed_at = some c.confirmed_at;
              audit_hash = c.audit_hash;
              updated_at = c.confirmed_at;
            })
            d
      → OwnChange t d d'
  readies :
      (i : String) (v : PayoutQueueItem) (at : ℕ)
      → lookup (t, i) d ≡ some v
      → v.status ≡ queued
      → IsReady v at
      → d' ≡ insert (t, i) (record v { status = ready_to_execute; updated_at = at }) d
      → OwnChange t d d'
  executes :
      (i : String) (v : PayoutQueueItem) (at : ℕ) (u : ExecutionUpdate)
      → lookup (t, i) d ≡ some v
      → IsReady v at
      → d'
        ≡ insert
            (t, i)
            (record v {
              status = executed;
              execution_id = some u.execution_id;
              execution_ref_hash = some u.execution_ref_hash;
              audit_chain_ref = some u.audit_chain_ref;
              notification_id = some u.notification_id;
              executed_at = some u.executed_at;
              audit_hash = u.audit_hash;
              updated_at = u.executed_at;
              payment_connector_name = some u.payment_connector_name;
              payment_gateway_id = some u.payment_gateway_id;
              payment_status = some u.payment_status;
              payment_status_synced_at = some u.executed_at;
              payment_error_code = none;
              payment_refund_id = none;
            })
            d
      → OwnChange t d d'
  syncs :
      (i : String) (v : PayoutQueueItem) (u : PaymentStatusUpdate)
      → lookup (t, i) d ≡ some v
      → v.status ≡ executed
      → d'
        ≡ insert
            (t, i)
            (record v {
              payment_status = some u.payment_status;
              payment_status_synced_at = some u.synced_at;
              payment_connector_name =
                  if str_eq u.payment_connector_name ""
                  then v.payment_connector_name
                  else some u.payment_connector_name;
              payment_gateway_id =
                  if str_eq u.payment_gateway_id ""
                  then v.payment_gateway_id
                  else some u.payment_gateway_id;
              payment_error_code = u.payment_error_code;
              payment_refund_id = u.payment_refund_id;
              audit_hash = u.audit_hash;
              updated_at = u.synced_at;
            })
            d
      → OwnChange t d d'
