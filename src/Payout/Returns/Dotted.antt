-- ===== src/Payout/Returns/Dotted.antt =====
-- Tenants whose identifier is no routing segment: libs/shared/models.py allows a dot in a tenant's
-- identifier, and libs/shared/events.py does not.
use media_center.Prelude.{ℕ, ◌≡◌, ◌≢◌, refl, none, some, arith, true, [], ◌∷◌, ◌++◌}
use media_center.Platform.{Platform}
use media_center.Exec.{ok, lift}
use media_center.Events.{EventEnvelope}
use media_center.Events.Envelope.{normalize_routing_segment, normalize_envelope, make_envelope}
use media_center.Payout.State.{Gateway, Call, envelope, add_payout, update_payout}
use media_center.Payout.Effects.{Quiet, Quiet-lift, Quiet-or_raise, Quiet-raise_if, Quiet-audit}
use media_center.Payout.Queue.{
  QueueRequest, PayoutQueueResult, queue_payout, queued_event, is_executable,
}
use media_center.Payout.Commands.{Connectors, PayoutExecutionReceipt, PayoutPaymentCommand}
use media_center.Payout.Execution.{
  ExecuteRequest, execute_payout, complete, executed_event, payment_command,
}
use media_center.Dict.{lookup}
use media_center.Payout.Types.{PayoutQueueItem}
use media_center.Payout.Validation.{payment_command_model}
use media_center.Payout.Payments.Sent.{execute_payout-sends}
use media_center.Payout.Change.{Payouts, payouts_of}
use media_center.Payout.Change.Steps.{payouts-HidesTrail, get_payout-Quiet}
use media_center.Payout.Change.Executing.{
  require_executable-Quiet, pay-Quiet, record_on_chain-Quiet, notify-Quiet,
}
use media_center.Payout.Returns.Rules.{Returns, Returns-step, Returns-bind}

no_envelope :
    (p : Platform) (e : EventEnvelope) (x : EventEnvelope)
    → normalize_routing_segment e.tenant_id ≡ none
    → make_envelope p e ≡ ok x
    → ⊥
unfolding make_envelope normalize_envelope
no_envelope p e x dotted h = ground arith

dotted_envelope :
    (p : Platform) (e : EventEnvelope)
    → normalize_routing_segment e.tenant_id ≡ none
    → Quiet payouts_of (λ x a. ⊥) (envelope p e)
unfolding envelope lift
dotted_envelope p e dotted = record {
  same = λ g. refl;
  gives = λ g a h. no_envelope p e a dotted h;
}

anything : {A : Type 0} (m : Call A) (d : Payouts) → Returns payouts_of (λ a y. Unit {0}) d m
anything m d = record { at = λ g a e h. tt }

module _ (p : Platform) where
  queue-Returns_nothing :
      (hours : ℕ) (r : QueueRequest) (d : Payouts)
      → normalize_routing_segment r.tenant_id ≡ none
      → Returns payouts_of (λ a y. ⊥) d (queue_payout p hours r)
  unfolding queue_payout queued_event
  queue-Returns_nothing hours r d dotted = Returns-bind (Quiet-raise_if payouts_of _ _) λ _ _.
      Returns-bind (Quiet-lift payouts_of _) λ until _.
        Returns-bind (Quiet-audit payouts_of payouts-HidesTrail p _) λ a _.
          Returns-bind (Quiet-or_raise payouts_of _ _) λ v _.
            Returns-step (add_payout v) _ (anything _ d) λ b y _.
              Returns-bind (dotted_envelope p (queued_event p r v) dotted)
                λ event raised. absurd raised

  -- For a tenant whose identifier is no routing segment, as one with a dot is none, `queue_payout`
  -- never returns.
  pub queue_payout-dotted :
      (hours : ℕ) (r : QueueRequest) (g : Gateway) (result : PayoutQueueResult)
      → normalize_routing_segment r.tenant_id ≡ none
      → (queue_payout p hours r g).0 ≢ ok result
  queue_payout-dotted hours r g result dotted h =
      (queue-Returns_nothing hours r g.payouts dotted).at g result refl h

  execute-Returns_nothing :
      (k : Connectors) (r : ExecuteRequest) (d : Payouts)
      → normalize_routing_segment r.tenant_id ≡ none
      → Returns payouts_of (λ a y. ⊥) d (execute_payout p k r)
  unfolding execute_payout complete executed_event
  execute-Returns_nothing k r d dotted =
      Returns-bind (get_payout-Quiet r.tenant_id r.payout_id) λ v _.
        Returns-bind (require_executable-Quiet v r.now) λ _ _.
          Returns-bind (pay-Quiet p k r v) λ payment _.
            Returns-bind (Quiet-audit payouts_of payouts-HidesTrail p _) λ a _.
              Returns-bind (record_on_chain-Quiet p k r v payment a.audit_hash) λ chain _.
                Returns-bind (notify-Quiet p k r v payment a.audit_hash chain) λ notification _.
                  Returns-step (update_payout _) _ (anything _ d) λ b y _.
                    Returns-bind
                      (dotted_envelope p (executed_event p r b payment a.audit_hash) dotted)
                      λ event raised. absurd raised

  -- For such a tenant `execute_payout` never returns either, and a payout that may be executed, with
  -- a valid command, is paid all the same.
  pub execute_payout-dotted :
      (k : Connectors) (r : ExecuteRequest) (g : Gateway) (v : PayoutQueueItem)
      (c : PayoutPaymentCommand)
      → normalize_routing_segment r.tenant_id ≡ none
      → lookup (r.tenant_id, r.payout_id) g.payouts ≡ some v
      → is_executable v r.now ≡ true
      → payment_command_model (payment_command p r v) ≡ some c
      → ((receipt : PayoutExecutionReceipt) → (execute_payout p k r g).0 ≢ ok receipt)
        × ((execute_payout p k r g).1.payments ≡ g.payments ++ (c ∷ []))
  execute_payout-dotted k r g v c dotted found ready valid = (
    λ receipt h. (execute-Returns_nothing k r g.payouts dotted).at g receipt refl h,
    execute_payout-sends p k r g v found ready valid,
  )
