-- ===== src/Payout/Tests/Runs.antt =====
-- Calls that return, evaluated, and what the theorems say of them.
use media_center.Platform.{has_prefix}
use media_center.Platform.{format_datetime}
use media_center.Prelude.{◌≡◌, refl, []}
use media_center.Text.{
  any_char, codes, strip, tenant_id_field, token_field, audit_hash_field, text_field, concat,
  or_else, is_event_type,
}
use media_center.Value.{is_share}
use media_center.Exec.{catch, ◌>>=◌, raise_if, modify, or_raise, ok}
use media_center.Access.{assert_requested_tenant, require_access}
use media_center.AuditLog.{audit_hash_from_payload, build_record, record_audit}
use media_center.Events.Envelope.{
  normalize_token, normalize_routing_segment, normalize_event_type, normalize_schema_version,
  normalize_causation, normalize_envelope, event_routing_key, make_envelope,
}
use media_center.Dict.{lookup, key_eq}
use media_center.Payout.Fields.{
  period_field, ref_hash_field, reason_code_field, template_key_field, event_type_field,
}
use media_center.Payout.Validation.{
  queue_item_model, confirmation_model, decision_model, payment_command_model, chain_command_model,
  notification_command_model, execution_receipt_model,
}
use media_center.Payout.State.{
  add_payout, get_payout, update_payout, add_decision, add_confirmation, audit, publish, envelope,
  ref_hash, new_id,
}
use media_center.Payout.Types.{with_status, with_confirmation, with_execution}
use media_center.Payout.Queue.{veto_until_of, queued_audit, queued_item, queued_event, queue_payout}
use media_center.Payout.Veto.{vetoed_audit, decision_of, vetoed_event, veto_payout}
use media_center.Payout.Confirmation.{
  require_matching_two_factor_confirmation, confirmed_by_role, resolve_correlation_id,
  datetime_from_unix, require_subject, confirmation_of, confirmed_audit, confirmed_event,
  confirm_payout,
}
use media_center.Payout.Execution.{
  sent_payment, sent_chain_record, sent_notification, payment_command, executed_audit,
  chain_command, notification_command, execution_update, executed_event, execution_receipt, pay,
  record_on_chain, notify, complete, execute_payout,
}
use media_center.Payout.Execution.Failure.{require_executable, guarded}
use media_center.Payout.Change.History.{empty_gateway}
use media_center.Payout.Returns.Decided.{
  Queued, queue_payout-Queued, Vetoed, veto_payout-Vetoed, Confirmed, confirm_payout-Confirmed,
}
use media_center.Payout.Returns.Executed.{Executed, execute_payout-Executed}
use media_center.Payout.Tests.Samples.{
  platform, queue_request, g_waiting, veto_request, confirm_request, g_confirmed, execute_request,
  connectors, queue_result, decision, confirmation, receipt,
}

queue_returned : (queue_payout platform 4 queue_request empty_gateway).0 ≡ ok queue_result
unfolding lookup any_char codes strip tenant_id_field token_field audit_hash_field concat or_else
    is_event_type is_share ◌>>=◌ raise_if modify or_raise audit_hash_from_payload build_record
    record_audit normalize_token normalize_routing_segment normalize_event_type
    normalize_schema_version normalize_causation normalize_envelope event_routing_key make_envelope
    period_field queue_item_model add_payout audit publish envelope ref_hash veto_until_of
    queued_audit queued_item queued_event queue_payout format_datetime has_prefix
queue_returned = refl

veto_returned : (veto_payout platform veto_request g_waiting).0 ≡ ok decision
unfolding key_eq lookup any_char strip tenant_id_field token_field audit_hash_field text_field
    concat or_else is_event_type ◌>>=◌ raise_if modify or_raise audit_hash_from_payload build_record
    record_audit normalize_token normalize_routing_segment normalize_event_type
    normalize_schema_version normalize_causation normalize_envelope event_routing_key make_envelope
    reason_code_field decision_model with_status get_payout update_payout add_decision audit publish
    envelope ref_hash vetoed_audit decision_of vetoed_event veto_payout
veto_returned = refl

confirm_returned : (confirm_payout platform confirm_request g_waiting).0 ≡ ok confirmation
unfolding key_eq lookup any_char strip tenant_id_field token_field audit_hash_field text_field
    concat or_else is_event_type ◌>>=◌ raise_if modify or_raise audit_hash_from_payload build_record
    record_audit normalize_token normalize_routing_segment normalize_event_type
    normalize_schema_version normalize_causation normalize_envelope event_routing_key make_envelope
    confirmation_model with_confirmation get_payout update_payout add_confirmation audit publish
    envelope ref_hash assert_requested_tenant require_access
    require_matching_two_factor_confirmation confirmed_by_role resolve_correlation_id
    datetime_from_unix require_subject confirmation_of confirmed_audit confirmed_event
    confirm_payout
confirm_returned = refl

execute_returned : (execute_payout platform connectors execute_request g_confirmed).0 ≡ ok receipt
unfolding key_eq lookup any_char codes strip tenant_id_field token_field audit_hash_field text_field
    concat or_else is_event_type is_share catch ◌>>=◌ raise_if modify or_raise
    audit_hash_from_payload build_record record_audit normalize_token normalize_routing_segment
    normalize_event_type normalize_schema_version normalize_causation normalize_envelope
    event_routing_key make_envelope ref_hash_field template_key_field event_type_field
    payment_command_model chain_command_model notification_command_model execution_receipt_model
    with_execution get_payout update_payout audit publish envelope ref_hash new_id
    require_executable guarded sent_payment sent_chain_record sent_notification payment_command
    executed_audit chain_command notification_command execution_update executed_event
    execution_receipt pay record_on_chain notify complete execute_payout
execute_returned = refl

queue_payout-Queued_example :
    Queued platform 4 queue_request [] queue_result
      (queue_payout platform 4 queue_request empty_gateway).1.payouts
queue_payout-Queued_example =
    queue_payout-Queued platform 4 queue_request empty_gateway queue_result queue_returned

veto_payout-Vetoed_example :
    Vetoed platform veto_request g_waiting.payouts decision
      (veto_payout platform veto_request g_waiting).1.payouts
veto_payout-Vetoed_example =
    veto_payout-Vetoed platform veto_request g_waiting decision veto_returned

confirm_payout-Confirmed_example :
    Confirmed platform confirm_request g_waiting.payouts confirmation
      (confirm_payout platform confirm_request g_waiting).1.payouts
confirm_payout-Confirmed_example =
    confirm_payout-Confirmed platform confirm_request g_waiting confirmation confirm_returned

execute_payout-Executed_example :
    Executed platform connectors execute_request g_confirmed.payouts receipt
      (execute_payout platform connectors execute_request g_confirmed).1.payouts
execute_payout-Executed_example =
    execute_payout-Executed platform connectors execute_request g_confirmed receipt execute_returned
