-- ===== src/Payout/Payments/Twice.antt =====
-- What a failure behind the payment leaves: the payout may be executed, and its payment handed over, again.
use media_center.Prelude.{
  String, ◌≡◌, ◌≢◌, arith, refl, sym, ◌∙◌, ap, true, some, List, [], ◌∷◌, ◌++◌,
}
use media_center.Dict.{lookup}
use media_center.Platform.{Platform}
use media_center.Exec.{Error, ok, err, lift}
use media_center.Text.{trim, token_field, field_of}
use media_center.Payout.Types.{PayoutQueueItem}
use media_center.Payout.Commands.{
  Connectors, PayoutPaymentCommand, PayoutPaymentResult, BlockchainAuditRecordCommand,
  PayoutExecutionReceipt,
}
use media_center.Payout.Validation.{payment_command_model}
use media_center.Payout.State.{Gateway}
use media_center.Payout.Queue.{is_executable}
use media_center.Payout.Execution.Failure.{send}
use media_center.Payout.Execution.{
  ExecuteRequest, execute_payout, complete, record_on_chain, sent_chain_record, payment_command,
  resolved_execution_id,
}
use media_center.Payout.Effects.{
  Quiet, Ends-bind, Quiet-bind, Quiet-or_raise, Quiet-audit, Quiet-guarded, Quiet-modify,
}
use media_center.Payout.Change.{Payouts, payouts_of}
use media_center.Payout.Returns.Rules.{Returns, Returns-bind}
use media_center.Payout.Change.Steps.{payouts-HidesTrail, get_payout-Quiet}
use media_center.Payout.Change.Executing.{require_executable-Quiet, pay-Quiet}
use media_center.Payout.Payments.Sent.{execute_payout-sends}

-- The audit chain answers every command with an exception.
abbrev pub ChainFails : Connectors → Type 0
ChainFails k = (c : BlockchainAuditRecordCommand) → (e : Error) × (k.record_audit_hash c ≡ err e)

module _ (p : Platform) (k : Connectors) (fails : ChainFails k) where
  chain_step :
      (c : BlockchainAuditRecordCommand)
      → Quiet payouts_of (λ x a. ⊥) (lift (k.record_audit_hash c))
  unfolding lift
  chain_step c = record {
    same = λ g. refl;
    gives = λ g a h. let (e, failed) = fails c in cc (failed, h);
  }

  chain_raises :
      (r : ExecuteRequest) (v : PayoutQueueItem) (payment : PayoutPaymentResult) (hash : String)
      → Quiet payouts_of (λ x a. ⊥) (record_on_chain p k r v payment hash)
  unfolding record_on_chain send sent_chain_record
  chain_raises r v payment hash = Quiet-guarded payouts-HidesTrail p _ _ _ (
      Quiet-bind (Quiet-or_raise payouts_of _ _)
        λ c. Quiet-bind (Quiet-modify (sent_chain_record c) (λ g. refl)) λ _. chain_step c)

  -- While the audit chain fails, an execution leaves the queue as it is.
  pub chain_failure_keeps :
      (r : ExecuteRequest) (g : Gateway) → (execute_payout p k r g).1.payouts ≡ g.payouts
  unfolding execute_payout complete
  chain_failure_keeps r g =
      (Ends-bind {view = payouts_of} {R = λ d. d ≡ g.payouts}
          (get_payout-Quiet r.tenant_id r.payout_id) refl
          λ v _. Ends-bind (require_executable-Quiet v r.now) refl λ _ _.
            Ends-bind (pay-Quiet p k r v) refl λ payment _.
              Ends-bind (Quiet-audit payouts_of payouts-HidesTrail p _) refl λ a _.
                Ends-bind (chain_raises r v payment a.audit_hash) refl
                  λ chain raised. absurd raised).at
        g refl

  -- While the audit chain fails, no execution returns.
  chain_failure_raises :
      (r : ExecuteRequest) (d : Payouts) → Returns payouts_of (λ x y. ⊥) d (execute_payout p k r)
  unfolding execute_payout complete
  chain_failure_raises r d = Returns-bind (get_payout-Quiet r.tenant_id r.payout_id) λ v _.
      Returns-bind (require_executable-Quiet v r.now) λ _ _.
        Returns-bind (pay-Quiet p k r v) λ payment _.
          Returns-bind (Quiet-audit payouts_of payouts-HidesTrail p _) λ a _.
            Returns-bind (chain_raises r v payment a.audit_hash) λ chain raised. absurd raised

  -- A valid command carries the trimmed execution identifier of the call.
  pub command-execution_id :
      (r : ExecuteRequest) (v : PayoutQueueItem) (c : PayoutPaymentCommand)
      → payment_command_model (payment_command p r v) ≡ some c
      → c.execution_id ≡ trim (resolved_execution_id p r)
  unfolding payment_command_model payment_command token_field field_of
  command-execution_id r v c h = ground arith

  -- If the audit chain raises on every command, then two executions of one payout that is executable
  -- at the time of each, with valid commands and trimmed execution identifiers that differ, hand the
  -- payment gateway one command each, under two different execution identifiers and whatever the
  -- gateway answers to them: the first call does not return, and after it the queue still shows the
  -- payout as it was, so that the second call sends its command as well.
  pub chain_failure_sends_twice :
      (k' : Connectors) (r r' : ExecuteRequest) (g : Gateway) (v : PayoutQueueItem)
      (c c' : PayoutPaymentCommand)
      → r'.tenant_id ≡ r.tenant_id
      → r'.payout_id ≡ r.payout_id
      → lookup (r.tenant_id, r.payout_id) g.payouts ≡ some v
      → is_executable v r.now ≡ true
      → is_executable v r'.now ≡ true
      → payment_command_model (payment_command p r v) ≡ some c
      → payment_command_model (payment_command p r' v) ≡ some c'
      → trim (resolved_execution_id p r) ≢ trim (resolved_execution_id p r')
      → let g' = (execute_payout p k r g).1 in
        ((receipt : PayoutExecutionReceipt) → (execute_payout p k r g).0 ≢ ok receipt)
        × (lookup (r.tenant_id, r.payout_id) g'.payouts ≡ some v)
        × ((execute_payout p k' r' g').1.payments ≡ (g.payments ++ (c ∷ [])) ++ (c' ∷ []))
        × (c.execution_id ≢ c'.execution_id)
  chain_failure_sends_twice k' r r' g v c c' same_tenant same_id found ready ready' valid valid'
        own =
      let g' : Gateway = (execute_payout p k r g).1 in
      let still : lookup (r.tenant_id, r.payout_id) g'.payouts ≡ some v =
        rw (chain_failure_keeps r g) found in
      (
        (λ receipt returned. (chain_failure_raises r g.payouts).at g receipt refl returned),
        still,
        execute_payout-sends p k' r' g' v (rw (same_tenant, same_id) still) ready' valid'
            ∙ ap (λ (l : List PayoutPaymentCommand). l ++ (c' ∷ []))
                (execute_payout-sends p k r g v found ready valid),
        (λ same.
            own (
              sym (command-execution_id r v c valid) ∙ same ∙ command-execution_id r' v c' valid')),
      )
