-- ===== src/Payout/Change/Executing.antt =====
-- The operations that make a payout ready, execute it and check its payment make only the changes
-- of the specification, whether they return or raise.
use media_center.Prelude.{ℕ, String, ◌≡◌, refl, true, Option, none, some, arith, is_some}
use media_center.Dict.{lookup}
use media_center.Platform.{Platform}
use media_center.Exec.{Result, ok, err, ◌>>=◌, raise_if}
use media_center.Payout.Types.{
  PayoutQueueItem, PayoutStatus, queued, ready_to_execute, canceled, executed, with_status,
  with_execution, with_payment_status,
}
use media_center.Payout.Commands.{Connectors, BlockchainAuditRecordResult, PayoutPaymentResult}
use media_center.Payout.State.{Gateway, update_payout}
use media_center.Payout.Queue.{is_executable, by_status, make_ready, mark_ready_for_execution}
use media_center.Payout.Execution.Failure.{send, require_executable}
use media_center.Payout.Execution.{
  ExecuteRequest, execute_payout, pay, record_on_chain, notify, complete, sent_payment,
  sent_chain_record, sent_notification, SyncRequest, sync_payment_status, sent_ids, noted_query,
  status_update,
}
use media_center.Payout.Effects.{
  Any, Quiet, Ends, Ends-bind, Ends-step, Ends-Quiet, Quiet-bind, Quiet-pure, Quiet-lift,
  Quiet-or_raise, Quiet-raise_if, Quiet-audit, Quiet-envelope, Quiet-publish, Quiet-guarded,
  Quiet-modify, Quiet-raise,
}
use media_center.Payout.Change.Steps.{
  payouts-HidesTrail, get_payout-Quiet, Written, update_payout-Written, true_of_test,
}
use media_center.Payout.Change.{Payouts, payouts_of, Change, same, readied, executed_at, synced}

-- Handing a command to a connector is quiet where the view does not show the commands.
send-Quiet :
    {C R : Type 0} (c : Option C) (sent : C → Gateway → Gateway) (answer : C → Result R)
    → ((x : C) (g : Gateway) → payouts_of (sent x g) ≡ payouts_of g)
    → Quiet payouts_of Any (send c sent answer)
unfolding send
send-Quiet c sent answer hidden = Quiet-bind (Quiet-or_raise payouts_of _ c) λ x.
    Quiet-bind (Quiet-modify (sent x) (hidden x))
      λ _. record { same = λ g. (Quiet-lift payouts_of (answer x)).same g; gives = λ g a h. tt }

-- The guards of `_require_executable` are those of `is_executable`.
pub require_executable-Quiet :
    (v : PayoutQueueItem) (at : ℕ)
    → Quiet payouts_of (λ d u. is_executable v at ≡ true) (require_executable v at)
unfolding require_executable is_executable ◌>>=◌ raise_if
require_executable-Quiet v at = record { same = λ g. ground arith; gives = λ g a h. ground arith }

ready-Ends :
    (v : PayoutQueueItem) (t i : String) (at : ℕ) (d : Payouts)
    → lookup (t, i) d ≡ some v
    → v.status ≡ queued
    → Ends payouts_of (Change t d) d (make_ready v at)
unfolding make_ready with_status
ready-Ends v t i at d found waiting = Ends-bind (Quiet-raise_if payouts_of _ _) (same refl) λ _ _.
    Ends-bind (Quiet-raise_if payouts_of _ _) (same refl) λ _ _.
      Ends-bind (Quiet-raise_if payouts_of _ _) (same refl) λ _ passed. record {
        at = λ g e.
            by_write (update_payout _ g).0 _ (update_payout-Written _ d g e)
              (true_of_test _ passed);
      }
  where
    by_write :
        (r : Result PayoutQueueItem) (y : Payouts)
        → Written d (with_status v ready_to_execute at none none) r y
        → is_executable v at ≡ true
        → Change t d y
    by_write (ok _) y w x = readied i v at found waiting x w
    by_write (err _) y w x = same w

by_status-Ends :
    (s : PayoutStatus) (v : PayoutQueueItem) (t i : String) (at : ℕ) (d : Payouts)
    → lookup (t, i) d ≡ some v
    → v.status ≡ s
    → Ends payouts_of (Change t d) d (by_status s v at)
by_status-Ends queued v t i at d found e = ready-Ends v t i at d found e
by_status-Ends ready_to_execute v t i at d found e =
    Ends-Quiet (Quiet-pure payouts_of v) (same refl)
by_status-Ends canceled v t i at d found e = Ends-Quiet {Q = Any} (Quiet-raise _) (same refl)
by_status-Ends executed v t i at d found e = Ends-Quiet {Q = Any} (Quiet-raise _) (same refl)

mark-Ends :
    (t i : String) (now : ℕ) (d : Payouts)
    → Ends payouts_of (Change t d) d (mark_ready_for_execution t i now)
unfolding mark_ready_for_execution
mark-Ends t i now d =
    Ends-bind (get_payout-Quiet t i) (same refl)
      λ v found. by_status-Ends v.status v t i now d found refl

-- A call of `mark_ready_for_execution` readies one queued payout that is confirmed and out of its
-- veto window, or changes nothing.
pub mark_ready_for_execution-Change :
    (t i : String) (now : ℕ) (g : Gateway)
    → Change t g.payouts (mark_ready_for_execution t i now g).1.payouts
mark_ready_for_execution-Change t i now g = (mark-Ends t i now g.payouts).at g refl

executed_of_ids :
    (v : PayoutQueueItem) (ids : String × String)
    → sent_ids v ≡ ok ids
    → is_some v.execution_id ≡ true
unfolding sent_ids
executed_of_ids v ids h = ground arith

module _ (p : Platform) (k : Connectors) where
  pub pay-Quiet : (r : ExecuteRequest) (v : PayoutQueueItem) → Quiet payouts_of Any (pay p k r v)
  unfolding pay sent_payment
  pay-Quiet r v =
      Quiet-guarded payouts-HidesTrail p _ _ _ (send-Quiet _ sent_payment _ (λ x g. refl))

  pub record_on_chain-Quiet :
      (r : ExecuteRequest) (v : PayoutQueueItem) (payment : PayoutPaymentResult) (hash : String)
      → Quiet payouts_of Any (record_on_chain p k r v payment hash)
  unfolding record_on_chain sent_chain_record
  record_on_chain-Quiet r v payment hash =
      Quiet-guarded payouts-HidesTrail p _ _ _ (send-Quiet _ sent_chain_record _ (λ x g. refl))

  pub notify-Quiet :
      (r : ExecuteRequest) (v : PayoutQueueItem) (payment : PayoutPaymentResult) (hash : String)
      (chain : BlockchainAuditRecordResult)
      → Quiet payouts_of Any (notify p k r v payment hash chain)
  unfolding notify sent_notification
  notify-Quiet r v payment hash chain =
      Quiet-guarded payouts-HidesTrail p _ _ _ (send-Quiet _ sent_notification _ (λ x g. refl))

  complete-Ends :
      (r : ExecuteRequest) (v : PayoutQueueItem) (payment : PayoutPaymentResult) (d : Payouts)
      → lookup (r.tenant_id, r.payout_id) d ≡ some v
      → is_executable v r.now ≡ true
      → Ends payouts_of (Change r.tenant_id d) d (complete p k r v payment)
  unfolding complete with_execution
  complete-Ends r v payment d found ready =
      Ends-bind (Quiet-audit payouts_of payouts-HidesTrail p _) (same refl) λ a _.
        Ends-bind (record_on_chain-Quiet r v payment a.audit_hash) (same refl) λ chain _.
          Ends-bind (notify-Quiet r v payment a.audit_hash chain) (same refl) λ notification _.
            Ends-step (update_payout _) (Written d _) (update_payout-Written _ d) (λ e y w. same w)
              λ b y w.
                let change : Change r.tenant_id d y =
                  executed_at r.payout_id v r.now _ found ready w in
                Ends-bind (Quiet-envelope payouts_of payouts-HidesTrail p _) change λ event _.
                  Ends-bind (Quiet-publish payouts-HidesTrail event) change
                    λ _ _. Ends-Quiet (Quiet-or_raise payouts_of _ _) change

  execute-Ends :
      (r : ExecuteRequest) (d : Payouts)
      → Ends payouts_of (Change r.tenant_id d) d (execute_payout p k r)
  unfolding execute_payout
  execute-Ends r d = Ends-bind (get_payout-Quiet r.tenant_id r.payout_id) (same refl) λ v found.
      Ends-bind (require_executable-Quiet v r.now) (same refl) λ _ ready.
        Ends-bind (pay-Quiet r v) (same refl) λ payment _. complete-Ends r v payment d found ready

  -- A call of `execute_payout` executes one payout that is pending, confirmed and out of its veto
  -- window, or changes nothing, however the connectors answer.
  pub execute_payout-Change :
      (r : ExecuteRequest) (g : Gateway)
      → Change r.tenant_id g.payouts (execute_payout p k r g).1.payouts
  execute_payout-Change r g = (execute-Ends r g.payouts).at g refl

  sync-Ends :
      (r : SyncRequest) (d : Payouts)
      → Ends payouts_of (Change r.tenant_id d) d (sync_payment_status p k r)
  unfolding sync_payment_status with_payment_status noted_query
  sync-Ends r d = Ends-bind (get_payout-Quiet r.tenant_id r.payout_id) (same refl) λ v found.
      Ends-bind (Quiet-lift payouts_of _) (same refl) λ ids sent.
        Ends-bind (Quiet-lift payouts_of _) (same refl) λ answer _.
          Ends-bind
            (Quiet-guarded payouts-HidesTrail p _ _ _
              (send-Quiet _ noted_query answer (λ x g. refl)))
            (same refl)
            λ s _. Ends-bind (Quiet-audit payouts_of payouts-HidesTrail p _) (same refl) λ a _.
              Ends-step (update_payout _) (Written d _) (update_payout-Written _ d)
                (λ e y w. same w)
                λ b y w.
                  let change : Change r.tenant_id d y =
                    synced r.payout_id v (status_update p s a.audit_hash) found
                      (executed_of_ids v ids sent) w in
                  Ends-bind (Quiet-envelope payouts_of payouts-HidesTrail p _) change λ event _.
                    Ends-bind (Quiet-publish payouts-HidesTrail event) change
                      λ _ _. Ends-Quiet (Quiet-or_raise payouts_of _ _) change

  -- A call of `sync_payment_status` changes the payment fields of one payout that was sent, or
  -- nothing.
  pub sync_payment_status-Change :
      (r : SyncRequest) (g : Gateway)
      → Change r.tenant_id g.payouts (sync_payment_status p k r g).1.payouts
  sync_payment_status-Change r g = (sync-Ends r g.payouts).at g refl
