-- ===== src/Payout/Change.antt =====
-- The changes that the gateway makes to the repository of queue_manager.py, as its managers write
-- them. Own has the specification that these changes refine.
pub mod Steps
pub mod Deciding
pub mod Executing
pub mod Item
pub mod Progress
pub mod History
pub mod Tenants
pub mod Own
use media_center.Prelude.{ℕ, String, ◌≡◌, ◌≤◌, ◌<◌, Bool, true, false, Option, none, some, is_some}
use media_center.Dict.{Key, Dict, lookup, insert}
use media_center.Payout.Types.{
  PayoutQueueItem, PayoutStatus, queued, ready_to_execute, canceled, executed, with_status,
  PayoutConfirmation, with_confirmation, ExecutionUpdate, with_execution, PaymentStatusUpdate,
  with_payment_status,
}
use media_center.Payout.Queue.{is_executable, is_pending}
use media_center.Payout.State.{Gateway, payout_key}

abbrev pub Payouts : Type 0
Payouts = Dict PayoutQueueItem

abbrev pub payouts_of : Gateway → Payouts
payouts_of g = g.payouts

-- A payout as it enters the queue.
pub record IsFresh (v : PayoutQueueItem) : Type 0 where
  pub queued_first : v.status ≡ queued
  pub unconfirmed : v.confirmation_id ≡ none
  pub undecided : v.veto_decision_id ≡ none
  pub unexecuted : v.execution_id ≡ none
  pub two_factor : v.requires_2fa ≡ true

-- The changes of the repository `d` to `d'` by a call for the tenant `t`: a payout that is found
-- under a key of `t` is written again, at the payout's key.
pub data Change (t : String) (d d' : Payouts) : Type 0 where
  same : d' ≡ d → Change t d d'
  added :
      (v : PayoutQueueItem)
      → IsFresh v
      → v.tenant_id ≡ t
      → lookup (payout_key v) d ≡ none
      → d' ≡ insert (payout_key v) v d
      → Change t d d'
  vetoed :
      (i : String) (v : PayoutQueueItem) (at : ℕ) (audit_hash decision_id : String)
      → lookup (t, i) d ≡ some v
      → v.status ≡ queued
      → at < v.veto_until
      → d'
        ≡ insert (payout_key v) (with_status v canceled at (some audit_hash) (some decision_id)) d
      → Change t d d'
  confirmed :
      (i : String) (v : PayoutQueueItem) (c : PayoutConfirmation)
      → lookup (t, i) d ≡ some v
      → v.status ≡ queued
      → v.confirmation_id ≡ none
      → c.actor_role ≡ "council"
      → d' ≡ insert (payout_key v) (with_confirmation v c) d
      → Change t d d'
  readied :
      (i : String) (v : PayoutQueueItem) (at : ℕ)
      → lookup (t, i) d ≡ some v
      → v.status ≡ queued
      → is_executable v at ≡ true
      → d' ≡ insert (payout_key v) (with_status v ready_to_execute at none none) d
      → Change t d d'
  executed_at :
      (i : String) (v : PayoutQueueItem) (at : ℕ) (u : ExecutionUpdate)
      → lookup (t, i) d ≡ some v
      → is_executable v at ≡ true
      → d' ≡ insert (payout_key v) (with_execution v u) d
      → Change t d d'
  synced :
      (i : String) (v : PayoutQueueItem) (u : PaymentStatusUpdate)
      → lookup (t, i) d ≡ some v
      → is_some v.execution_id ≡ true
      → d' ≡ insert (payout_key v) (with_payment_status v u) d
      → Change t d d'
