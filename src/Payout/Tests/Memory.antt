-- ===== src/Payout/Tests/Memory.antt =====
-- The in-memory payment connector.
use media_center.Prelude.{◌≡◌, refl}
use media_center.Text.{text_field, concat, or_else}
use media_center.Exec.{ok}
use media_center.AuditLog.{optional_field}
use media_center.Dict.{lookup}
use media_center.Payout.Fields.{connector_name_field}
use media_center.Payout.State.{new_id}
use media_center.Payout.Execution.{payment_command}
use media_center.Payout.Memory.{pay_in_memory, new_payment_result, payment_result_model}
use media_center.Payout.Tests.Samples.{first_payment, memory, first_result}

first_paid : (pay_in_memory first_payment memory).0 ≡ ok first_result
unfolding pay_in_memory new_payment_result payment_result_model text_field connector_name_field
    optional_field concat lookup payment_command or_else new_id
first_paid = refl
