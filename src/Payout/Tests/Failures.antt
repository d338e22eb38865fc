-- ===== src/Payout/Tests/Failures.antt =====
-- Calls that are refused, that fail behind the payment, or that come for a tenant with a dot.
use media_center.Prelude.{
  false, sym, ◌∙◌, eq_iff, is_some, ◌≢◌, ◌≡◌, refl, true, none, some, [], ◌∷◌, ◌⊎◌,
}
use media_center.Text.{
  trim, any_char, codes, strip, tenant_id_field, token_field, audit_hash_field, concat, or_else,
  is_event_type,
}
use media_center.Value.{is_share}
use media_center.Exec.{
  veto_window_closed, payout_not_executable, not_confirmed, ◌>>=◌, raise_if, modify, or_raise, ok,
  err, value_error,
}
use media_center.AuditLog.{audit_hash_from_payload, build_record, record_audit}
use media_center.Events.Envelope.{
  normalize_token, normalize_routing_segment, normalize_event_type, normalize_schema_version,
  normalize_causation, normalize_envelope, event_routing_key, make_envelope,
}
use media_center.Dict.{insert, lookup, insert, key_eq}
use media_center.Payout.Fields.{period_field, ref_hash_field}
use media_center.Payout.Validation.{queue_item_model, payment_command_model}
use media_center.Payout.State.{add_payout, audit, publish, envelope, ref_hash, new_id}
use media_center.Payout.Queue.{
  veto_until_of, queued_audit, queued_item, queued_event, queue_payout, is_executable,
}
use media_center.Payout.Veto.{veto_payout}
use media_center.Payout.Execution.{payment_command, execute_payout, resolved_execution_id}
use media_center.Payout.Commands.{PayoutExecutionReceipt}
use media_center.Payout.Change.History.{empty_gateway}
use media_center.Payout.Payments.Sent.{Sends, execute_payout-Sends, execute_payout-sends}
use media_center.Payout.Payments.Twice.{ChainFails, command-execution_id, chain_failure_sends_twice}
use media_center.Payout.Returns.Dotted.{queue_payout-dotted}
use media_center.Payout.Returns.Refused.{
  veto_refusal, veto_payout-refused, execution_refusal, execute_payout-refused,
}
use media_center.Payout.Tests.Samples.{
  platform, g_waiting, confirmed_payout, g_confirmed, execute_request, connectors, failing_chain,
  queue_result, first_payment, second_payment, second_execute_request, dotted_queue_request,
  dotted_payout, g_dotted, dotted_execute_request, late_veto_request,
}

payment_valid :
    payment_command_model (payment_command platform execute_request confirmed_payout)
    ≡ some first_payment
unfolding codes tenant_id_field token_field audit_hash_field concat or_else is_share ref_hash_field
    payment_command_model new_id payment_command
payment_valid = refl

waits_no_more : is_executable confirmed_payout execute_request.now ≡ true
unfolding is_executable
waits_no_more = refl

is_stored : lookup ("studio", "p1") g_confirmed.payouts ≡ some confirmed_payout
unfolding key_eq lookup
is_stored = refl

execute_payout-Sends_example :
    ((execute_payout platform connectors execute_request g_confirmed).1.payments ≡ [])
    ⊎ Sends platform connectors execute_request g_confirmed
        (execute_payout platform connectors execute_request g_confirmed).1.payments
execute_payout-Sends_example = execute_payout-Sends platform connectors execute_request g_confirmed

execute_payout-sends_example :
    (execute_payout platform connectors execute_request g_confirmed).1.payments ≡ first_payment ∷ []
execute_payout-sends_example =
    execute_payout-sends platform connectors execute_request g_confirmed confirmed_payout is_stored
      waits_no_more payment_valid

chain_fails : ChainFails failing_chain
chain_fails c = (value_error, refl)

second_valid :
    payment_command_model (payment_command platform second_execute_request confirmed_payout)
    ≡ some second_payment
unfolding codes tenant_id_field token_field audit_hash_field concat or_else is_share ref_hash_field
    payment_command_model new_id payment_command
second_valid = refl

still_waits_no_more : is_executable confirmed_payout second_execute_request.now ≡ true
unfolding is_executable
still_waits_no_more = refl

first_named : first_payment.execution_id ≡ trim (resolved_execution_id platform execute_request)
first_named =
    command-execution_id platform failing_chain chain_fails execute_request confirmed_payout
      first_payment payment_valid

second_named :
    second_payment.execution_id ≡ trim (resolved_execution_id platform second_execute_request)
second_named =
    command-execution_id platform failing_chain chain_fails second_execute_request confirmed_payout
      second_payment second_valid

are_named_apart :
    trim (resolved_execution_id platform execute_request)
    ≢ trim (resolved_execution_id platform second_execute_request)
unfolding payment_command or_else new_id concat
are_named_apart e =
    let same : first_payment.execution_id ≡ second_payment.execution_id =
      first_named ∙ e ∙ sym second_named in
    let impossible : false ≡ true =
      (eq_iff first_payment.execution_id second_payment.execution_id).1 same in
    cc

chain_failure_sends_twice_example :
    let g' = (execute_payout platform failing_chain execute_request g_confirmed).1 in
    ((receipt : PayoutExecutionReceipt)
      → (execute_payout platform failing_chain execute_request g_confirmed).0 ≢ ok receipt)
    × (lookup ("studio", "p1") g'.payouts ≡ some confirmed_payout)
    × ((execute_payout platform connectors second_execute_request g').1.payments
        ≡ first_payment ∷ second_payment ∷ [])
    × (first_payment.execution_id ≢ second_payment.execution_id)
chain_failure_sends_twice_example =
    chain_failure_sends_twice platform failing_chain chain_fails connectors execute_request
      second_execute_request g_confirmed confirmed_payout first_payment second_payment refl refl
      is_stored waits_no_more still_waits_no_more payment_valid second_valid are_named_apart

no_routing_segment : normalize_routing_segment "acme.studio" ≡ none
unfolding normalize_routing_segment normalize_token strip any_char
no_routing_segment = refl

dotted_stored : lookup ("acme.studio", "p1") g_dotted.payouts ≡ some dotted_payout
unfolding key_eq lookup
dotted_stored = refl

dotted_waits_no_more : is_executable dotted_payout dotted_execute_request.now ≡ true
unfolding is_executable
dotted_waits_no_more = refl

dotted_valid :
    payment_command_model (payment_command platform dotted_execute_request dotted_payout)
    ≡ some (payment_command platform dotted_execute_request dotted_payout)
unfolding codes tenant_id_field token_field audit_hash_field concat or_else is_share ref_hash_field
    payment_command_model new_id payment_command
dotted_valid = refl

-- The payout of the call that raised is in the queue, and no event was published.
dotted_is_queued :
    is_some (
      lookup
        ("acme.studio", "p1")
        (queue_payout platform 4 dotted_queue_request empty_gateway).1.payouts)
    ≡ true
unfolding key_eq insert lookup any_char codes strip tenant_id_field token_field audit_hash_field
    concat or_else is_event_type is_share ◌>>=◌ raise_if modify or_raise audit_hash_from_payload
    build_record record_audit normalize_token normalize_routing_segment normalize_event_type
    normalize_schema_version normalize_causation normalize_envelope event_routing_key make_envelope
    period_field queue_item_model add_payout audit publish envelope ref_hash veto_until_of
    queued_audit queued_item queued_event queue_payout
dotted_is_queued = refl

dotted_is_unpublished : (queue_payout platform 4 dotted_queue_request empty_gateway).1.bus ≡ []
unfolding lookup any_char codes strip tenant_id_field token_field audit_hash_field concat or_else
    is_event_type is_share ◌>>=◌ raise_if modify or_raise audit_hash_from_payload build_record
    record_audit normalize_token normalize_routing_segment normalize_event_type
    normalize_schema_version normalize_causation normalize_envelope event_routing_key make_envelope
    period_field queue_item_model add_payout audit publish envelope ref_hash veto_until_of
    queued_audit queued_item queued_event queue_payout
dotted_is_unpublished = refl

queue_payout-dotted_example :
    (queue_payout platform 4 dotted_queue_request empty_gateway).0 ≢ ok queue_result
queue_payout-dotted_example =
    queue_payout-dotted platform 4 dotted_queue_request empty_gateway queue_result
      no_routing_segment

veto_is_late :
    veto_refusal (lookup ("studio", "p1") g_waiting.payouts) late_veto_request.now
    ≡ some veto_window_closed
unfolding veto_refusal lookup key_eq
veto_is_late = refl

veto_payout-refused_example :
    veto_payout platform late_veto_request g_waiting ≡ (err veto_window_closed, g_waiting)
veto_payout-refused_example =
    veto_payout-refused platform late_veto_request g_waiting veto_window_closed veto_is_late

execution_is_unconfirmed :
    execution_refusal (lookup ("studio", "p1") g_waiting.payouts) execute_request.now
    ≡ some (payout_not_executable not_confirmed)
unfolding execution_refusal lookup key_eq
execution_is_unconfirmed = refl

execute_payout-refused_example :
    execute_payout platform connectors execute_request g_waiting
    ≡ (err (payout_not_executable not_confirmed), g_waiting)
execute_payout-refused_example =
    execute_payout-refused platform connectors execute_request g_waiting
      (payout_not_executable not_confirmed) execution_is_unconfirmed
