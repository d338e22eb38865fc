-- ===== src/Payout/Queue.antt =====
-- PayoutQueueManager of queue_manager.py.
use media_center.Prelude.{
  ℕ, ◌+◌, ◌*◌, String, Bool, true, false, ◌&&◌, ◌||◌, Option, none, some, ltb, leb, is_some,
  if◌then◌else◌,
}
use media_center.Text.{or_else}
use media_center.Value.{ℤ, pos, negsuc, Float, bool, str, obj, Fields, field, end}
use media_center.Platform.{Platform, format_datetime, hour, max_instant}
use media_center.Redaction.{audit_safe_metadata}
use media_center.AuditLog.{AuditEntry, no_points}
use media_center.Events.{EventEnvelope}
use media_center.Exec.{
  Result, ok, err, pure, raise, lift, raise_if, or_raise, ◌>>=◌, ◌>>◌, value_error,
  validation_error, overflow_error, payout_not_executable, already_canceled, already_executed,
  window_open, not_confirmed, not_queued,
}
use media_center.Payout.Types.{
  PayoutQueueItem, PayoutStatus, queued, ready_to_execute, canceled, executed, status_value,
  with_status,
}
use media_center.Payout.Validation.{queue_item_model}
use media_center.Payout.State.{
  Call, add_payout, get_payout, update_payout, audit, envelope, publish, ref_hash, new_id,
}

-- validate_veto_window_hours
unfoldable pub validate_veto_window_hours : ℤ → Result ℕ
validate_veto_window_hours (pos value) =
    if ltb value 4 || ltb 12 value then err value_error else ok value
validate_veto_window_hours (negsuc n) = err value_error

-- The arguments of `queue_payout`: `now` is the instant that `_normalize_datetime(now or
-- datetime.now(UTC))` gives, and `fresh` numbers the two identifiers that the call may generate.
pub record QueueRequest : Type 0 where
  pub tenant_id : String
  pub member_id : String
  pub period : String
  pub payout_share : Float
  pub distribution_id : String
  pub distribution_hash : String
  pub created_by : String
  pub correlation_id : String
  pub payout_id : Option String
  pub event_id : Option String
  pub now : ℕ
  pub requires_2fa : Bool
  pub metadata : Fields
  pub fresh : ℕ

pub record PayoutQueueResult : Type 0 where
  pub payout : PayoutQueueItem
  pub event : EventEnvelope

module _ (p : Platform) where
  -- queued_at + timedelta(hours=veto_window_hours)
  unfoldable pub veto_until_of : ℕ → ℕ → Result ℕ
  veto_until_of queued_at veto_window_hours =
      let until = queued_at + veto_window_hours * hour in
      if ltb max_instant until then err overflow_error else ok until

  pub queued_payout_id : QueueRequest → String
  queued_payout_id r = or_else r.payout_id (new_id p "payout" r.fresh)

  unfoldable pub queued_audit : QueueRequest → ℕ → AuditEntry
  unfolding queued_payout_id
  queued_audit r veto_until =
      let created_by_hash = ref_hash p r.tenant_id r.created_by in
      record {
        event_type = "payout.queued";
        tenant_id = r.tenant_id;
        points = no_points;
        metadata = field "payout_id" (str (queued_payout_id r)) (
            field "member_hash" (str (ref_hash p r.tenant_id r.member_id)) (
              field "period" (str r.period) (
                field "distribution_id" (str r.distribution_id) (
                  field "distribution_hash" (str r.distribution_hash) (
                    field "status" (str (status_value queued)) (
                      field "veto_until" (str (format_datetime p veto_until)) (
                        field "requires_2fa" (bool r.requires_2fa) (
                          field "created_by_hash" (str created_by_hash) (
                            field "metadata" (obj (audit_safe_metadata p.lower r.metadata))
                              end)))))))));
        timestamp = r.now;
        correlation_id = some r.correlation_id;
        actor_hash = some created_by_hash;
        source = some "hitl-payout-gateway";
      }

  unfoldable pub queued_item : QueueRequest → ℕ → String → PayoutQueueItem
  unfolding queued_payout_id
  queued_item r veto_until audit_hash = record {
    payout_id = queued_payout_id r;
    tenant_id = r.tenant_id;
    member_id = r.member_id;
    member_hash = ref_hash p r.tenant_id r.member_id;
    period = r.period;
    payout_share = r.payout_share;
    distribution_id = r.distribution_id;
    distribution_hash = r.distribution_hash;
    status = queued;
    veto_until = veto_until;
    requires_2fa = r.requires_2fa;
    confirmation_id = none;
    confirmed_by = none;
    confirmed_by_hash = none;
    confirmed_by_role = none;
    confirmed_at = none;
    audit_hash = audit_hash;
    created_by = r.created_by;
    created_by_hash = ref_hash p r.tenant_id r.created_by;
    created_at = r.now;
    updated_at = r.now;
    veto_decision_id = none;
    execution_id = none;
    execution_ref_hash = none;
    audit_chain_ref = none;
    notification_id = none;
    executed_at = none;
    payment_connector_name = none;
    payment_gateway_id = none;
    payment_status = none;
    payment_status_synced_at = none;
    payment_error_code = none;
    payment_refund_id = none;
  }

  unfoldable pub queued_event : QueueRequest → PayoutQueueItem → EventEnvelope
  queued_event r payout = record {
    event_id = or_else r.event_id (new_id p "evt-payout-queued" (r.fresh + 1));
    type = "payout.queued";
    schema_version = "1.0";
    tenant_id = r.tenant_id;
    source = "hitl-payout-gateway";
    correlation_id = r.correlation_id;
    occurred_at = r.now;
    payload = field "payout_id" (str payout.payout_id) (
        field "period" (str payout.period) (
          field "veto_until" (str (format_datetime p payout.veto_until))
            (field "requires_2fa" (bool payout.requires_2fa) end)));
    causation_id = none;
  }

  -- PayoutQueueManager.queue_payout, for a manager with this veto window
  unfoldable pub queue_payout : ℕ → QueueRequest → Call PayoutQueueResult
  queue_payout veto_window_hours r = do
    raise_if (if r.requires_2fa then false else true) value_error
    veto_until ← lift (veto_until_of r.now veto_window_hours)
    audit_record ← audit p (queued_audit r veto_until)
    payout ←
        or_raise validation_error
          (queue_item_model p (queued_item r veto_until audit_record.audit_hash))
    add_payout payout
    event ← envelope p (queued_event r payout)
    publish event
    pure (record { payout = payout; event = event })

-- `payout.status in {QUEUED, READY_TO_EXECUTE}`
abbrev pub is_pending : PayoutStatus → Bool
is_pending queued = true
is_pending ready_to_execute = true
is_pending _ = false

unfoldable pub is_executable : PayoutQueueItem → ℕ → Bool
is_executable payout at =
    is_pending payout.status && leb payout.veto_until at && is_some payout.confirmation_id

-- The body of `mark_ready_for_execution` behind the test for READY_TO_EXECUTE.
unfoldable pub make_ready : PayoutQueueItem → ℕ → Call PayoutQueueItem
unfolding is_executable
make_ready payout at = do
  raise_if (ltb at payout.veto_until) (payout_not_executable window_open)
  raise_if (if is_some payout.confirmation_id then false else true)
      (payout_not_executable not_confirmed)
  raise_if (if is_executable payout at then false else true) (payout_not_executable not_queued)
  update_payout (with_status payout ready_to_execute at none none)

abbrev pub by_status : PayoutStatus → PayoutQueueItem → ℕ → Call PayoutQueueItem
by_status ready_to_execute payout at = pure payout
by_status canceled payout at = raise (payout_not_executable already_canceled)
by_status executed payout at = raise (payout_not_executable already_executed)
by_status queued payout at = make_ready payout at

unfoldable pub mark_ready_for_execution : String → String → ℕ → Call PayoutQueueItem
mark_ready_for_execution tenant_id payout_id now = do
  payout ← get_payout tenant_id payout_id
  by_status payout.status payout now
