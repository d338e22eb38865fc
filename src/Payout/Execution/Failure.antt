-- ===== src/Payout/Execution/Failure.antt =====
-- `_require_executable`, the calls of the connectors, and what happens when one raises:
-- `_as_connector_error` and `_record_connector_failure`.
use media_center.Prelude.{ℕ, String, true, false, Option, none, some, ltb, is_some, if◌then◌else◌}
use media_center.Text.{or_else}
use media_center.Value.{bool, str, obj, Fields, field, end}
use media_center.Platform.{Platform}
use media_center.Redaction.{audit_safe_metadata}
use media_center.AuditLog.{AuditEntry, no_points}
use media_center.Events.{EventEnvelope}
use media_center.Exec.{
  ConnectorError, Error, Result, ok, err, pure, raise, lift, modify, raise_if, or_raise, catch,
  ◌>>=◌, ◌>>◌, validation_error, connector, payout_not_executable, already_canceled,
  already_executed, window_open, not_confirmed,
}
use media_center.Payout.Types.{
  PayoutQueueItem, PayoutStatus, queued, ready_to_execute, canceled, executed, status_value,
}
use media_center.Payout.State.{Gateway, Call, audit, envelope, publish, new_id}

abbrev pub check_status : PayoutStatus → Result (Unit {0})
check_status queued = ok tt
check_status ready_to_execute = ok tt
check_status canceled = err (payout_not_executable already_canceled)
check_status executed = err (payout_not_executable already_executed)

-- _require_executable
unfoldable pub require_executable : PayoutQueueItem → ℕ → Call (Unit {0})
require_executable payout at = do
  lift (check_status payout.status)
  raise_if (ltb at payout.veto_until) (payout_not_executable window_open)
  raise_if (if is_some payout.confirmation_id then false else true)
      (payout_not_executable not_confirmed)

-- A command is built, is handed over (`sent` notes it), and the connector answers.
unfoldable pub send : {C R : Type 0} → Option C → (C → Gateway → Gateway) → (C → Result R) → Call R
send command sent answer = do
  c ← or_raise validation_error command
  modify (sent c)
  lift (answer c)

-- _as_connector_error
unfoldable pub as_connector_error : Error → String → ConnectorError
as_connector_error (connector e) name = e
as_connector_error _ name = record {
  connector_name = name;
  error_code = "connector_error";
  retryable = true;
}

-- What a failure's record needs of the call.
pub record FailureContext : Type 0 where
  pub payout : PayoutQueueItem
  pub correlation_id : String
  pub failure_event_id : Option String
  pub metadata : Fields
  pub fresh : ℕ

module _ (p : Platform) where
  unfoldable pub failed_audit : FailureContext → ConnectorError → ℕ → AuditEntry
  failed_audit c e occurred_at = record {
    event_type = "payout.failed";
    tenant_id = c.payout.tenant_id;
    points = no_points;
    metadata = field "payout_id" (str c.payout.payout_id) (
        field "connector" (str e.connector_name) (
          field "error_code" (str e.error_code) (
            field "retryable" (bool e.retryable) (
              field "previous_status" (str (status_value c.payout.status))
                (field "metadata" (obj (audit_safe_metadata p.lower c.metadata)) end)))));
    timestamp = occurred_at;
    correlation_id = some c.correlation_id;
    actor_hash = none;
    source = some "hitl-payout-gateway";
  }

  unfoldable pub failed_event : FailureContext → ConnectorError → ℕ → String → EventEnvelope
  failed_event c e occurred_at audit_hash = record {
    event_id = or_else c.failure_event_id (new_id p "evt-payout-failed" c.fresh);
    type = "payout.failed";
    schema_version = "1.0";
    tenant_id = c.payout.tenant_id;
    source = "hitl-payout-gateway";
    correlation_id = c.correlation_id;
    occurred_at = occurred_at;
    payload = field "payout_id" (str c.payout.payout_id) (
        field "error_code" (str e.error_code) (
          field "retryable" (bool e.retryable)
            (field "connector" (str e.connector_name) (field "audit_hash" (str audit_hash) end))));
    causation_id = none;
  }

  -- _record_connector_failure
  unfoldable pub record_connector_failure :
      FailureContext → String → ℕ → Error → Call ConnectorError
  record_connector_failure c name occurred_at error = do
    let e = as_connector_error error name
    failure_audit ← audit p (failed_audit c e occurred_at)
    event ← envelope p (failed_event c e occurred_at failure_audit.audit_hash)
    publish event
    pure e

  -- try: ... except Exception as error: raise await self._record_connector_failure(...)
  unfoldable pub guarded : {R : Type 0} → FailureContext → String → ℕ → Call R → Call R
  guarded c name occurred_at body =
      catch body
        λ error. do e ← record_connector_failure c name occurred_at error; raise (connector e)
