-- ===== src/Payout/State.antt =====
-- The state behind one gateway: the repositories, the audit log, the event bus, and the commands
-- that its connectors have been handed. The repositories' operations on it are those of
-- InMemoryPayoutQueueRepository, InMemoryVetoDecisionRepository and
-- InMemoryPayoutConfirmationRepository.
use media_center.Prelude.{
  ℕ, String, Bool, true, false, Option, none, some, List, [], ◌∷◌, ◌++◌, map, str_eq, select, ◌&&◌,
  if◌then◌else◌,
}
use media_center.Prelude.Sort.{sorted_by}
use media_center.Text.{concat}
use media_center.Dict.{Key, Dict, lookup, insert, contains}
use media_center.Platform.{Platform}
use media_center.AuditLog.{AuditLogRecord, AuditEntry, record_audit}
use media_center.Events.{EventEnvelope, PublishedEvent}
use media_center.Events.Envelope.{make_envelope, event_routing_key}
use media_center.Exec.{
  Exec, pure, lift, gets, modify, raise_if, or_raise, ◌>>=◌, ◌>>◌, value_error, payout_queue,
  payout_not_found, payout_not_executable, duplicate_id, already_confirmed, not_found_in_tenant,
}
use media_center.Payout.Types.{
  PayoutQueueItem, PayoutStatus, PayoutConfirmation, VetoDecision, queued, ready_to_execute,
  canceled, executed,
}
use media_center.Payout.Commands.{
  PayoutPaymentCommand, PayoutPaymentStatusCommand, BlockchainAuditRecordCommand,
  PayoutNotificationCommand,
}

pub record Gateway : Type 0 where
  pub payouts : Dict PayoutQueueItem
  pub confirmations : Dict PayoutConfirmation
  pub payout_index : Dict String
  pub decisions : Dict VetoDecision
  pub audit_log : List AuditLogRecord
  pub bus : List PublishedEvent
  pub payments : List PayoutPaymentCommand
  pub status_queries : List PayoutPaymentStatusCommand
  pub chain_records : List BlockchainAuditRecordCommand
  pub notifications : List PayoutNotificationCommand

abbrev pub Call : Type 0 → Type 0
Call = Exec Gateway

-- _payout_key
abbrev pub payout_key : PayoutQueueItem → Key
payout_key payout = (payout.tenant_id, payout.payout_id)

unfoldable pub add_payout : PayoutQueueItem → Call PayoutQueueItem
add_payout payout = do
  raise_if (← gets (λ g. contains (payout_key payout) g.payouts)) (payout_queue duplicate_id)
  modify (λ g. record g { payouts = insert (payout_key payout) payout g.payouts })
  pure payout

unfoldable pub get_payout : String → String → Call PayoutQueueItem
get_payout tenant_id payout_id = do
  or_raise payout_not_found (← gets (λ g. lookup (tenant_id, payout_id) g.payouts))

unfoldable pub update_payout : PayoutQueueItem → Call PayoutQueueItem
update_payout payout = do
  known ← gets (λ g. contains (payout_key payout) g.payouts)
  raise_if (if known then false else true) payout_not_found
  modify (λ g. record g { payouts = insert (payout_key payout) payout g.payouts })
  pure payout

abbrev pub status_is : Option PayoutStatus → PayoutStatus → Bool
status_is none _ = true
status_is (some queued) queued = true
status_is (some ready_to_execute) ready_to_execute = true
status_is (some canceled) canceled = true
status_is (some executed) executed = true
status_is (some _) _ = false

-- `payout.status is status` under the tenant's key
abbrev pub is_listed : String → Option PayoutStatus → Key × PayoutQueueItem → Bool
is_listed tenant_id status ((t, _), payout) = str_eq t tenant_id && status_is status payout.status

abbrev pub entry_value {ℓ} : {V : Type ℓ} → Key × V → V
entry_value (_, v) = v

unfoldable pub list_payouts : String → Option PayoutStatus → Gateway → List PayoutQueueItem
list_payouts tenant_id status g =
    sorted_by (λ (payout : PayoutQueueItem). payout.created_at)
      (map entry_value (select (is_listed tenant_id status) g.payouts))

unfoldable pub add_decision : VetoDecision → Call VetoDecision
add_decision decision = do
  known ← gets (λ g. contains (decision.tenant_id, decision.decision_id) g.decisions)
  raise_if known (payout_queue duplicate_id)
  modify (λ g. record g {
    decisions = insert (decision.tenant_id, decision.decision_id) decision g.decisions;
  })
  pure decision

unfoldable pub get_decision : String → String → Call VetoDecision
get_decision tenant_id decision_id = do
  or_raise (payout_queue not_found_in_tenant)
      (← gets (λ g. lookup (tenant_id, decision_id) g.decisions))

unfoldable pub add_confirmation : PayoutConfirmation → Call PayoutConfirmation
add_confirmation c = do
  known ← gets (λ g. contains (c.tenant_id, c.confirmation_id) g.confirmations)
  raise_if known (payout_queue duplicate_id)
  indexed ← gets (λ g. contains (c.tenant_id, c.payout_id) g.payout_index)
  raise_if indexed (payout_not_executable already_confirmed)
  modify (λ g. record g {
    confirmations = insert (c.tenant_id, c.confirmation_id) c g.confirmations;
    payout_index = insert (c.tenant_id, c.payout_id) c.confirmation_id g.payout_index;
  })
  pure c

pub get_confirmation : String → String → Call PayoutConfirmation
get_confirmation tenant_id confirmation_id = do
  or_raise (payout_queue not_found_in_tenant)
      (← gets (λ g. lookup (tenant_id, confirmation_id) g.confirmations))

unfoldable pub get_confirmation_for_payout : String → String → Call PayoutConfirmation
unfolding get_confirmation
get_confirmation_for_payout tenant_id payout_id = do
  found ← gets (λ g. lookup (tenant_id, payout_id) g.payout_index)
  confirmation_id ← or_raise (payout_queue not_found_in_tenant) found
  get_confirmation tenant_id confirmation_id

-- self.audit_logger.record(...)
unfoldable pub audit : Platform → AuditEntry → Call AuditLogRecord
audit p e g = let (r, log) = record_audit p e g.audit_log in (r, record g { audit_log = log })

-- await self.publisher.publish(event), with the in-memory bus
unfoldable pub publish : EventEnvelope → Call (Unit {0})
publish e = do
  key ← or_raise value_error (event_routing_key e.tenant_id e.type)
  modify (λ g. record g { bus = g.bus ++ (record { envelope = e; routing_key = key } ∷ []) })

-- EventEnvelope(...)
unfoldable pub envelope : Platform → EventEnvelope → Call EventEnvelope
envelope p e = lift (make_envelope p e)

-- subject_ref_hash, _reason_hash and _hash_ref are one function.
unfoldable pub ref_hash : Platform → String → String → String
ref_hash p tenant_id value =
    concat ("sha256:" ∷ p.sha256_hex (concat (tenant_id ∷ ":" ∷ value ∷ [])) ∷ [])

-- _new_id
unfoldable pub new_id : Platform → String → ℕ → String
new_id p prefix n = concat (prefix ∷ "-" ∷ p.uuid n ∷ [])
