-- ===== src/Payout/Veto.antt =====
-- VetoManager of veto_manager.py.
use media_center.Prelude.{ℕ, ◌+◌, String, Bool, true, false, Option, none, some, leb, if◌then◌else◌}
use media_center.Text.{or_else}
use media_center.Value.{str, obj, Fields, field, end}
use media_center.Platform.{Platform}
use media_center.Redaction.{audit_safe_metadata}
use media_center.AuditLog.{AuditEntry, no_points}
use media_center.Events.{EventEnvelope}
use media_center.Exec.{
  pure, raise_if, or_raise, ◌>>=◌, ◌>>◌, validation_error, payout_not_executable, not_queued,
  veto_window_closed,
}
use media_center.Payout.Types.{
  PayoutQueueItem, PayoutStatus, queued, canceled, status_value, with_status, VetoDecision,
}
use media_center.Payout.Validation.{decision_model}
use media_center.Payout.State.{
  Call, get_payout, update_payout, add_decision, audit, envelope, publish, ref_hash, new_id,
}

-- The arguments of `veto_payout`.
pub record VetoRequest : Type 0 where
  pub tenant_id : String
  pub payout_id : String
  pub actor_id : String
  pub reason_code : String
  pub reason : String
  pub correlation_id : String
  pub decision_id : Option String
  pub event_id : Option String
  pub now : ℕ
  pub metadata : Fields
  pub fresh : ℕ

-- `payout.status is PayoutStatus.QUEUED`
abbrev pub is_queued : PayoutStatus → Bool
is_queued queued = true
is_queued _ = false

module _ (p : Platform) where
  pub resolved_decision_id : VetoRequest → String
  resolved_decision_id r = or_else r.decision_id (new_id p "veto" r.fresh)

  unfoldable pub vetoed_audit : VetoRequest → PayoutQueueItem → AuditEntry
  unfolding resolved_decision_id
  vetoed_audit r payout =
      let actor_hash = ref_hash p r.tenant_id r.actor_id in
      record {
        event_type = "payout.vetoed";
        tenant_id = r.tenant_id;
        points = no_points;
        metadata = field "payout_id" (str payout.payout_id) (
            field "decision_id" (str (resolved_decision_id r)) (
              field "actor_hash" (str actor_hash) (
                field "reason_code" (str r.reason_code) (
                  field "reason_hash" (str (ref_hash p r.tenant_id r.reason)) (
                    field "previous_status" (str (status_value payout.status)) (
                      field "new_status" (str (status_value canceled))
                        (field "metadata" (obj (audit_safe_metadata p.lower r.metadata)) end)))))));
        timestamp = r.now;
        correlation_id = some r.correlation_id;
        actor_hash = some actor_hash;
        source = some "hitl-payout-gateway";
      }

  unfoldable pub decision_of : VetoRequest → String → VetoDecision
  unfolding resolved_decision_id
  decision_of r audit_hash = record {
    decision_id = resolved_decision_id r;
    tenant_id = r.tenant_id;
    payout_id = r.payout_id;
    actor_id = r.actor_id;
    actor_hash = ref_hash p r.tenant_id r.actor_id;
    reason_code = r.reason_code;
    reason = r.reason;
    reason_hash = ref_hash p r.tenant_id r.reason;
    audit_hash = audit_hash;
    decided_at = r.now;
    correlation_id = r.correlation_id;
  }

  unfoldable pub vetoed_event : VetoRequest → PayoutQueueItem → VetoDecision → EventEnvelope
  vetoed_event r payout decision = record {
    event_id = or_else r.event_id (new_id p "evt-payout-vetoed" (r.fresh + 1));
    type = "payout.vetoed";
    schema_version = "1.0";
    tenant_id = r.tenant_id;
    source = "hitl-payout-gateway";
    correlation_id = r.correlation_id;
    occurred_at = r.now;
    payload = field "payout_id" (str payout.payout_id) (
        field "decision_id" (str decision.decision_id) (
          field "reason_code" (str decision.reason_code)
            (field "audit_hash" (str decision.audit_hash) end)));
    causation_id = none;
  }

  -- VetoManager.veto_payout
  unfoldable pub veto_payout : VetoRequest → Call VetoDecision
  veto_payout r = do
    payout ← get_payout r.tenant_id r.payout_id
    raise_if (if is_queued payout.status then false else true) (payout_not_executable not_queued)
    raise_if (leb payout.veto_until r.now) veto_window_closed
    audit_record ← audit p (vetoed_audit r payout)
    decision ← or_raise validation_error (decision_model (decision_of r audit_record.audit_hash))
    add_decision decision
    update_payout
        (with_status payout canceled r.now (some decision.audit_hash) (some decision.decision_id))
    event ← envelope p (vetoed_event r payout decision)
    publish event
    pure decision
