-- ===== src/Payout/Confirmation.antt =====
-- PayoutConfirmationManager of confirmation_manager.py, and TwoFactorConfirmation of
-- libs/shared/auth.py.
use media_center.Prelude.{
  ℕ, suc, ◌+◌, ◌-◌, ◌*◌, ◌^◌, String, Bool, true, false, not, ◌||◌, Option, none, some, List, [],
  ◌∷◌, str_eq, ltb, is_some, if◌then◌else◌,
}
use media_center.Text.{or_else, strip}
use media_center.Value.{ℤ, pos, negsuc, str, obj, Fields, field, end}
use media_center.Platform.{Platform, max_instant, unix_epoch, second}
use media_center.Redaction.{audit_safe_metadata}
use media_center.Access.{
  TenantContext, AccessPolicy, assert_requested_tenant, require_access, includes,
}
use media_center.AuditLog.{AuditEntry, no_points}
use media_center.Events.{EventEnvelope}
use media_center.Exec.{
  Result, ok, err, pure, lift, raise_if, or_raise, ◌>>=◌, ◌>>◌, value_error, overflow_error,
  validation_error, payout_queue, payout_not_executable, no_subject, not_queued, already_confirmed,
  two_factor_mismatch, correlation_mismatch, no_role, no_correlation_id,
}
use media_center.Payout.Types.{PayoutQueueItem, status_value, PayoutConfirmation, with_confirmation}
use media_center.Payout.Validation.{confirmation_model}
use media_center.Payout.Veto.{is_queued}
use media_center.Payout.State.{
  Call, get_payout, update_payout, add_confirmation, audit, envelope, publish, ref_hash, new_id,
}

pub record TwoFactorConfirmation : Type 0 where
  pub tenant_id : String
  pub subject : Option String
  pub operation : String
  pub resource_id : String
  pub method : String
  pub confirmed_at : ℤ
  pub correlation_id : Option String

-- PAYOUT_CONFIRM_POLICY
abbrev pub payout_confirm_policy : AccessPolicy
payout_confirm_policy = record {
  allowed_roles = "council" ∷ [];
  action = "payout.confirm";
  resource_type = "hitl_payout";
}

-- The arguments of `confirm_payout`.
pub record ConfirmRequest : Type 0 where
  pub tenant_id : String
  pub payout_id : String
  pub context : TenantContext
  pub two_factor_confirmation : TwoFactorConfirmation
  pub confirmation_id : Option String
  pub event_id : Option String
  pub metadata : Fields
  pub fresh : ℕ

unfoldable pub optional_eq : Option String → Option String → Bool
optional_eq none none = true
optional_eq (some s) (some t) = str_eq s t
optional_eq _ _ = false

-- Both identifiers are given, and they differ.
unfoldable pub given_and_different : Option String → Option String → Bool
given_and_different (some s) (some t) = not (str_eq s t)
given_and_different _ _ = false

-- _require_matching_two_factor_confirmation
unfoldable pub require_matching_two_factor_confirmation :
    TwoFactorConfirmation → String → String → TenantContext → Result (Unit {0})
unfolding optional_eq given_and_different
require_matching_two_factor_confirmation c tenant_id payout_id context =
    if not (str_eq c.tenant_id tenant_id)
      || not (optional_eq c.subject context.subject)
      || not (str_eq c.operation "payout.confirm")
      || not (str_eq c.resource_id payout_id)
    then err (payout_not_executable two_factor_mismatch)
    else if given_and_different c.correlation_id context.correlation_id
    then err (payout_not_executable correlation_mismatch)
    else ok tt

-- _confirmed_by_role
unfoldable pub confirmed_by_role : List String → Result String
confirmed_by_role [] = err (payout_not_executable no_role)
confirmed_by_role (role ∷ roles) =
    if includes role payout_confirm_policy.allowed_roles then ok role else confirmed_by_role roles

-- `a or b` on optional texts
pub optional_or : Option String → Option String → Option String
optional_or none b = b
optional_or (some s) b = if str_eq s "" then b else some s

-- _resolve_correlation_id
unfoldable pub resolve_correlation_id : TenantContext → TwoFactorConfirmation → Result String
unfolding optional_or
resolve_correlation_id context c = elim (optional_or context.correlation_id c.correlation_id) [
  | none ↦ err (payout_queue no_correlation_id)
  | some s ↦ if str_eq (strip s) "" then err (payout_queue no_correlation_id) else ok s
]

-- _datetime_from_unix: beyond a 64-bit time_t OverflowError, beyond `datetime`'s years ValueError
unfoldable pub datetime_from_unix : ℤ → Result ℕ
datetime_from_unix (pos n) =
    if ltb (2 ^ 63 - 1) n
    then err overflow_error
    else if ltb max_instant (unix_epoch + n * second)
    then err value_error
    else ok (unix_epoch + n * second)
datetime_from_unix (negsuc n) =
    if ltb (2 ^ 63 - 1) n
    then err overflow_error
    else if ltb unix_epoch (suc n * second)
    then err value_error
    else ok (unix_epoch - suc n * second)

unfoldable pub require_subject : TenantContext → Result String
require_subject context = elim context.subject [
  | none ↦ err (payout_not_executable no_subject)
  | some s ↦ ok s
]

module _ (p : Platform) where
  pub resolved_confirmation_id : ConfirmRequest → String
  resolved_confirmation_id r = or_else r.confirmation_id (new_id p "confirmation" r.fresh)

  -- A PayoutConfirmation before its audit hash is known.
  unfoldable pub confirmation_of :
      ConfirmRequest → String → String → ℕ → String → String → PayoutConfirmation
  unfolding resolved_confirmation_id
  confirmation_of r subject role confirmed_at correlation_id audit_hash = record {
    confirmation_id = resolved_confirmation_id r;
    tenant_id = r.tenant_id;
    payout_id = r.payout_id;
    actor_id = subject;
    actor_hash = ref_hash p r.tenant_id subject;
    actor_role = role;
    two_factor_method = r.two_factor_confirmation.method;
    operation = r.two_factor_confirmation.operation;
    audit_hash = audit_hash;
    confirmed_at = confirmed_at;
    correlation_id = correlation_id;
  }

  unfoldable pub confirmed_audit :
      ConfirmRequest → PayoutQueueItem → String → String → ℕ → String → AuditEntry
  unfolding resolved_confirmation_id
  confirmed_audit r payout subject role confirmed_at correlation_id =
      let actor_hash = ref_hash p r.tenant_id subject in
      record {
        event_type = "payout.confirmed";
        tenant_id = r.tenant_id;
        points = no_points;
        metadata = field "payout_id" (str payout.payout_id) (
            field "confirmation_id" (str (resolved_confirmation_id r)) (
              field "actor_hash" (str actor_hash) (
                field "confirmed_by_role" (str role) (
                  field "two_factor_method" (str r.two_factor_confirmation.method) (
                    field "operation" (str r.two_factor_confirmation.operation) (
                      field "resource_id" (str r.two_factor_confirmation.resource_id) (
                        field "previous_status" (str (status_value payout.status)) (
                          field "metadata" (obj (audit_safe_metadata p.lower r.metadata))
                            end))))))));
        timestamp = confirmed_at;
        correlation_id = some correlation_id;
        actor_hash = some actor_hash;
        source = some "hitl-payout-gateway";
      }

  unfoldable pub confirmed_event :
      ConfirmRequest → PayoutQueueItem → PayoutConfirmation → String → ℕ → EventEnvelope
  confirmed_event r payout confirmation correlation_id confirmed_at = record {
    event_id = or_else r.event_id (new_id p "evt-payout-confirmed" (r.fresh + 1));
    type = "payout.confirmed";
    schema_version = "1.0";
    tenant_id = r.tenant_id;
    source = "hitl-payout-gateway";
    correlation_id = correlation_id;
    occurred_at = confirmed_at;
    payload = field "payout_id" (str payout.payout_id) (
        field "decision_id" (str confirmation.confirmation_id) (
          field "confirmed_by_role" (str confirmation.actor_role)
            (field "audit_hash" (str confirmation.audit_hash) end)));
    causation_id = none;
  }

  -- PayoutConfirmationManager.confirm_payout
  unfoldable pub confirm_payout : ConfirmRequest → Call PayoutConfirmation
  confirm_payout r = do
    lift (assert_requested_tenant (some r.tenant_id) r.context)
    actor_context ← lift (require_access payout_confirm_policy r.context)
    subject ← lift (require_subject actor_context)
    payout ← get_payout r.tenant_id r.payout_id
    raise_if (if is_queued payout.status then false else true) (payout_not_executable not_queued)
    raise_if (is_some payout.confirmation_id) (payout_not_executable already_confirmed)
    lift (
        require_matching_two_factor_confirmation r.two_factor_confirmation r.tenant_id r.payout_id
          actor_context)
    role ← lift (confirmed_by_role actor_context.roles)
    confirmed_at ← lift (datetime_from_unix r.two_factor_confirmation.confirmed_at)
    correlation_id ← lift (resolve_correlation_id actor_context r.two_factor_confirmation)
    audit_record ← audit p (confirmed_audit r payout subject role confirmed_at correlation_id)
    confirmation ← or_raise validation_error (
        confirmation_model
          (confirmation_of r subject role confirmed_at correlation_id audit_record.audit_hash))
    add_confirmation confirmation
    update_payout (with_confirmation payout confirmation)
    event ← envelope p (confirmed_event r payout confirmation correlation_id confirmed_at)
    publish event
    pure confirmation
