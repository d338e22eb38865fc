-- ===== src/Tenant/Records.antt =====
-- TenantScopedRepository of libs/shared/tenant.py: records of any type, of which the tenant and
-- whether the identifier is the one that is looked for are functions. An audit sink is the list of
-- what it has recorded.
use media_center.Prelude.{
  ℕ, String, Bool, Option, none, some, List, [], ◌∷◌, ◌++◌, str_eq, if◌then◌else◌,
}
use media_center.Value.{Json}
use media_center.Access.{TenantContext}
use media_center.Auth.{validated_tenant_id}
use media_center.Exec.{Exec, Result, ok, err, tenant_isolation}

pub record TenantAuditEvent : Type 0 where
  pub event_type : String
  pub tenant_id : Option String
  pub requested_tenant_hash : Option String
  pub actor_hash : Option String
  pub resource_type : String
  pub correlation_id : Option String
  pub reason : String
  pub status_code : ℕ
  pub error_code : String

abbrev pub Auditing : Type 0 → Type 0
Auditing = Exec (List TenantAuditEvent)

abbrev pub hash_identifier : (String → String) → Option String → Option String
hash_identifier sha256_hex none = none
hash_identifier sha256_hex (some value) = some (sha256_hex value)

-- A repository, and whether the calls are given an audit sink.
module _ {Record : Type 0} (sha256_hex : String → String) (tenant_of : Record → Option Json)
    (resource_type : String) (has_sink : Bool) where
  -- _build_tenant_violation_event
  unfoldable pub build_tenant_violation_event :
      TenantContext → Option String → String → TenantAuditEvent
  build_tenant_violation_event context requested_tenant_id reason = record {
    event_type = "tenant.isolation_violation";
    tenant_id = some context.tenant_id;
    requested_tenant_hash = hash_identifier sha256_hex requested_tenant_id;
    actor_hash = hash_identifier sha256_hex context.subject;
    resource_type = resource_type;
    correlation_id = context.correlation_id;
    reason = reason;
    status_code = 403;
    error_code = "tenant_isolation_violation";
  }

  -- audit_sink.record
  unfoldable pub recorded : TenantAuditEvent → List TenantAuditEvent → List TenantAuditEvent
  recorded event events = if has_sink then events ++ event ∷ [] else events

  -- _deny_tenant_access
  unfoldable pub deny_tenant_access : {A : Type 0} → TenantContext → String → String → Auditing A
  deny_tenant_access context requested_tenant_id reason events = (
    err tenant_isolation,
    recorded (build_tenant_violation_event context (some requested_tenant_id) reason) events,
  )

  -- _record_tenant_id
  unfoldable pub record_tenant_id : Record → Result String
  record_tenant_id r = validated_tenant_id (tenant_of r)

  abbrev pub require_same : Record → Result String → TenantContext → Auditing Record
  require_same r (err e) context events = (err e, events)
  require_same r (ok record_tenant) context events =
      if str_eq record_tenant context.tenant_id
      then (ok r, events)
      else deny_tenant_access context record_tenant "resource_tenant_mismatch" events

  -- require_owned
  unfoldable pub require_owned : Record → TenantContext → Auditing Record
  require_owned r = require_same r (record_tenant_id r)

  abbrev pub as_found :
      Result Record × List TenantAuditEvent → Result (Option Record) × List TenantAuditEvent
  as_found (ok r, events) = (ok (some r), events)
  as_found (err e, events) = (err e, events)

  -- get_owned; `matches` is `_record_field(record, id_field) == resource_id`
  unfoldable pub get_owned :
      List Record → (Record → Bool) → TenantContext → Auditing (Option Record)
  get_owned [] matches context events = (ok none, events)
  get_owned (r ∷ records) matches context events =
      let rest = get_owned records matches context events in
      if matches r then as_found (require_owned r context events) else rest

  abbrev pub keep_if_same :
      Record → TenantContext → Result String → Result (List Record) → Result (List Record)
  keep_if_same r context (err e) rest = err e
  keep_if_same r context (ok record_tenant) (err e) = err e
  keep_if_same r context (ok record_tenant) (ok records) =
      if str_eq record_tenant context.tenant_id then ok (r ∷ records) else ok records

  -- list_for_tenant
  unfoldable pub list_for_tenant : List Record → TenantContext → Result (List Record)
  list_for_tenant [] context = ok []
  list_for_tenant (r ∷ records) context =
      keep_if_same r context (record_tenant_id r) (list_for_tenant records context)
