-- ===== src/Payout/Tests/Samples.antt =====
-- Example calls, payouts and states of the gateway.
use media_center.Prelude.{leb, ◌&&◌, ℕ, ◌+◌, ◌*◌, String, true, false, none, some, List, [], ◌∷◌}
use media_center.Value.{finite, field, end, str, bool, pos}
use media_center.Platform.{Platform, hour, unix_epoch}
use media_center.Exec.{ok, err, value_error}
use media_center.Payout.State.{Gateway}
use media_center.Payout.Types.{
  succeeded, PayoutQueueItem, queued, VetoDecision, PayoutConfirmation, processing,
}
use media_center.Payout.Queue.{QueueRequest, PayoutQueueResult}
use media_center.Payout.Veto.{VetoRequest}
use media_center.Payout.Confirmation.{ConfirmRequest}
use media_center.Payout.Execution.{ExecuteRequest, SyncRequest, payment_command}
use media_center.Payout.Commands.{
  PayoutPaymentResult, Connectors, PayoutPaymentCommand, PayoutExecutionReceipt,
}
use media_center.Payout.Change.History.{
  Operation, queue, veto, confirm, mark_ready, execute, sync, empty_gateway,
}
use media_center.Payout.Memory.{InMemoryPaymentConnector}

abbrev pub zeros : String
zeros = "0000000000000000000000000000000000000000000000000000000000000000"

abbrev pub platform : Platform
platform = record {
  sha256_hex = λ s. zeros;
  dumps_sorted = λ d. "{}";
  isoformat = λ at. "2026-01-01T00:00:00+00:00";
  lower = λ s. s;
  is_decimal = λ c. leb b'0' c && leb c b'9';
  uuid = λ n. "u";
}

abbrev pub start : ℕ
start = unix_epoch

abbrev pub queue_request : QueueRequest
queue_request = record {
  tenant_id = "studio";
  member_id = "m1";
  period = "2026-01";
  payout_share = finite false 1 2;
  distribution_id = "d1";
  distribution_hash = zeros;
  created_by = "clerk";
  correlation_id = "c1";
  payout_id = some "p1";
  event_id = some "e1";
  now = start;
  requires_2fa = true;
  metadata = end;
  fresh = 0;
}

abbrev pub zeros_ref : String
zeros_ref = "sha256:0000000000000000000000000000000000000000000000000000000000000000"

abbrev pub queued_payout : PayoutQueueItem
queued_payout = record {
  payout_id = "p1";
  tenant_id = "studio";
  member_id = "m1";
  member_hash = zeros_ref;
  period = "2026-01";
  payout_share = finite false 1 2;
  distribution_id = "d1";
  distribution_hash = zeros;
  status = queued;
  veto_until = start + 4 * hour;
  requires_2fa = true;
  confirmation_id = none;
  confirmed_by = none;
  confirmed_by_hash = none;
  confirmed_by_role = none;
  confirmed_at = none;
  audit_hash = zeros;
  created_by = "clerk";
  created_by_hash = zeros_ref;
  created_at = start;
  updated_at = start;
  veto_decision_id = none;
  execution_id = none;
  execution_ref_hash = none;
  audit_chain_ref = none;
  notification_id = none;
  executed_at = none;
  payment_connector_name = none;
  payment_gateway_id = none;
  payment_status = none;
  payment_status_synced_at = none;
  payment_error_code = none;
  payment_refund_id = none;
}

abbrev pub g_waiting : Gateway
g_waiting = record empty_gateway { payouts = (("studio", "p1"), queued_payout) ∷ [] }

abbrev pub confirmed_payout : PayoutQueueItem
confirmed_payout = record queued_payout {
  confirmation_id = some "k1";
  confirmed_by = some "a2";
  confirmed_by_hash = some zeros_ref;
  confirmed_by_role = some "council";
  confirmed_at = some (start + 2 * hour);
}

abbrev pub veto_request : VetoRequest
veto_request = record {
  tenant_id = "studio";
  payout_id = "p1";
  actor_id = "a1";
  reason_code = "fraud";
  reason = "doubtful share";
  correlation_id = "c2";
  decision_id = some "v1";
  event_id = some "e2";
  now = start + hour;
  metadata = end;
  fresh = 0;
}

abbrev pub confirm_request : ConfirmRequest
confirm_request = record {
  tenant_id = "studio";
  payout_id = "p1";
  context = record {
    tenant_id = "studio";
    subject = some "a2";
    roles = "board" ∷ "council" ∷ [];
    correlation_id = some "c3";
  };
  two_factor_confirmation = record {
    tenant_id = "studio";
    subject = some "a2";
    operation = "payout.confirm";
    resource_id = "p1";
    method = "totp";
    confirmed_at = pos 7200;
    correlation_id = none;
  };
  confirmation_id = some "k1";
  event_id = some "e3";
  metadata = end;
  fresh = 0;
}

abbrev pub g_confirmed : Gateway
g_confirmed = record empty_gateway { payouts = (("studio", "p1"), confirmed_payout) ∷ [] }

abbrev pub execute_request : ExecuteRequest
execute_request = record {
  tenant_id = "studio";
  payout_id = "p1";
  correlation_id = "c4";
  execution_id = none;
  event_id = none;
  failure_event_id = none;
  notification_id = none;
  now = start + 5 * hour;
  metadata = end;
  fresh = 0;
}

abbrev pub connectors : Connectors
connectors = record {
  execute_payout = λ c. ok (record {
    execution_ref = "ref-1";
    connector_name = "bank";
    executed_at = start + 5 * hour;
    gateway_payment_id = none;
    gateway_status = processing;
  });
  record_audit_hash = λ c. ok (record {
    audit_chain_ref = "chain-1";
    connector_name = "auditor";
    recorded_at = start + 5 * hour;
  });
  notify_payout_executed = λ c.
      ok (record {
        notification_id = "n1";
        connector_name = "mail";
        accepted_at = start + 5 * hour;
      });
  sync_payout_status = none;
}

abbrev pub failing_chain : Connectors
failing_chain = record connectors { record_audit_hash = λ c. err value_error }

abbrev pub queue_result : PayoutQueueResult
queue_result = record {
  payout = queued_payout;
  event = record {
    event_id = "e1";
    type = "payout.queued";
    schema_version = "1.0";
    tenant_id = "studio";
    source = "hitl-payout-gateway";
    correlation_id = "c1";
    occurred_at = start;
    payload = field "payout_id" (str "p1") (
        field "period" (str "2026-01")
          (field "veto_until" (str "2026-01-01T00:00:00Z") (field "requires_2fa" (bool true) end)));
    causation_id = none;
  };
}

abbrev pub decision : VetoDecision
decision = record {
  decision_id = "v1";
  tenant_id = "studio";
  payout_id = "p1";
  actor_id = "a1";
  actor_hash = zeros_ref;
  reason_code = "fraud";
  reason = "doubtful share";
  reason_hash = zeros_ref;
  audit_hash = zeros;
  decided_at = start + hour;
  correlation_id = "c2";
}

abbrev pub confirmation : PayoutConfirmation
confirmation = record {
  confirmation_id = "k1";
  tenant_id = "studio";
  payout_id = "p1";
  actor_id = "a2";
  actor_hash = zeros_ref;
  actor_role = "council";
  two_factor_method = "totp";
  operation = "payout.confirm";
  audit_hash = zeros;
  confirmed_at = start + 2 * hour;
  correlation_id = "c3";
}

abbrev pub receipt : PayoutExecutionReceipt
receipt = record {
  execution_id = "execution-u";
  tenant_id = "studio";
  payout_id = "p1";
  execution_ref_hash = zeros_ref;
  audit_hash = zeros;
  audit_chain_ref = "chain-1";
  notification_id = "n1";
  executed_at = start + 5 * hour;
  correlation_id = "c4";
}

abbrev pub first_payment : PayoutPaymentCommand
first_payment = payment_command platform execute_request confirmed_payout

-- A later call for the same payout, with an execution identifier of its own.
abbrev pub second_execute_request : ExecuteRequest
second_execute_request = record execute_request {
  execution_id = some "execution-2";
  now = start + 6 * hour;
  fresh = 20;
}

abbrev pub second_payment : PayoutPaymentCommand
second_payment = payment_command platform second_execute_request confirmed_payout

abbrev pub sync_request : SyncRequest
sync_request = record {
  tenant_id = "studio";
  payout_id = "p1";
  correlation_id = "c5";
  event_id = none;
  failure_event_id = none;
  now = start + 6 * hour;
  metadata = end;
  fresh = 9;
}

-- A payout is queued, vetoed in vain by a wrong identifier, confirmed, readied, executed and asked
-- about; then a veto comes too late.
abbrev pub history : List Operation
history =
    queue 4 queue_request
    ∷ veto (record veto_request { payout_id = "p2" })
    ∷ confirm confirm_request
    ∷ mark_ready "studio" "p1" (start + 4 * hour)
    ∷ execute connectors execute_request
    ∷ sync connectors sync_request
    ∷ veto veto_request
    ∷ []

-- A tenant whose identifier has a dot.
abbrev pub dotted_queue_request : QueueRequest
dotted_queue_request = record queue_request { tenant_id = "acme.studio" }

abbrev pub dotted_payout : PayoutQueueItem
dotted_payout = record confirmed_payout { tenant_id = "acme.studio" }

abbrev pub g_dotted : Gateway
g_dotted = record empty_gateway { payouts = (("acme.studio", "p1"), dotted_payout) ∷ [] }

abbrev pub dotted_execute_request : ExecuteRequest
dotted_execute_request = record execute_request { tenant_id = "acme.studio" }

-- The calls of another tenant.
abbrev pub foreign_calls : List Operation
foreign_calls =
    queue 4 (record queue_request { tenant_id = "label" })
    ∷ veto (record veto_request { tenant_id = "label" })
    ∷ execute connectors (record execute_request { tenant_id = "label" })
    ∷ []

-- A veto when the window has just ended.
abbrev pub late_veto_request : VetoRequest
late_veto_request = record veto_request { now = start + 4 * hour }

-- The in-memory payment connector, before its first command.
abbrev pub memory : InMemoryPaymentConnector
memory = record {
  connector_name = "in_memory_payment";
  fail_with = none;
  commands = [];
  results = [];
}

abbrev pub repeated_payment : PayoutPaymentCommand
repeated_payment = record first_payment { requested_at = start + 9 * hour }

abbrev pub first_result : PayoutPaymentResult
first_result = record {
  execution_ref = "payment-execution-u";
  connector_name = "in_memory_payment";
  executed_at = start + 5 * hour;
  gateway_payment_id = none;
  gateway_status = succeeded;
}
