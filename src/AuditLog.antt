-- ===== src/AuditLog.antt =====
-- libs/shared/audit_logger.py: hash-only audit records, kept in order by an in-memory sink.
use media_center.Prelude.{ℕ, String, Option, none, some, List, [], ◌∷◌, ◌++◌, if◌then◌else◌}
use media_center.Text.{is_tenant_id, field_of, token_field, audit_hash_field, is_event_type, trim}
use media_center.Value.{ℤ, Float, Json, null, int, float, str, obj, Fields, end, field}
use media_center.Platform.{Platform, format_datetime}
use media_center.Exec.{Result, ok, err, value_error, validation_error}

-- AuditPoints, after `_reject_bool_points`
pub data AuditPoints : Type 0 where
  no_points : AuditPoints
  int_points : ℤ → AuditPoints
  float_points : Float → AuditPoints

pub points_json : AuditPoints → Json
points_json no_points = null
points_json (int_points n) = int n
points_json (float_points x) = float x

pub record AuditPayload : Type 0 where
  pub event_type : String
  pub tenant_id : String
  pub points : AuditPoints
  pub metadata : Fields
  pub timestamp : ℕ

pub record AuditLogRecord : Type 0 where
  pub payload : AuditPayload
  pub open payload use *
  pub audit_hash : String
  pub correlation_id : Option String
  pub actor_hash : Option String
  pub source : Option String

-- The fields of one call of `AuditLogger.record`.
pub record AuditEntry : Type 0 where
  pub event_type : String
  pub tenant_id : String
  pub points : AuditPoints
  pub metadata : Fields
  pub timestamp : ℕ
  pub correlation_id : Option String
  pub actor_hash : Option String
  pub source : Option String

module _ (p : Platform) where
  -- AuditPayload.to_hash_payload
  pub to_hash_payload : AuditPayload → Fields
  unfolding points_json
  to_hash_payload a = field "event_type" (str a.event_type) (
      field "tenant_id" (str a.tenant_id) (
        field "points" (points_json a.points) (
          field "metadata" (obj a.metadata)
            (field "timestamp" (str (format_datetime p a.timestamp)) end))))

  pub canonical_audit_json : AuditPayload → String
  unfolding to_hash_payload
  canonical_audit_json a = p.dumps_sorted (to_hash_payload a)

  unfoldable pub audit_hash_from_payload : AuditPayload → String
  unfolding canonical_audit_json
  audit_hash_from_payload a = p.sha256_hex (canonical_audit_json a)

-- build_audit_payload: `_normalize_tenant_id` accepts an identifier as it is or raises ValueError,
-- then pydantic checks the event type.
unfoldable pub build_audit_payload : AuditEntry → Result AuditPayload
build_audit_payload e =
    if is_tenant_id e.tenant_id
    then elim (field_of is_event_type e.event_type) [
      | none ↦ err validation_error
      | some event_type ↦ ok (record {
        event_type = event_type;
        tenant_id = e.tenant_id;
        points = e.points;
        metadata = e.metadata;
        timestamp = e.timestamp;
      })
    ]
    else err value_error

-- An optional field with a constraint.
unfoldable pub optional_field : (String → Option String) → Option String → Option (Option String)
optional_field check none = some none
optional_field check (some s) = elim (check s) [ none ↦ none | some t ↦ some (some t) ]

-- The AuditLogRecord of a payload.
pub audit_record_of : Platform → AuditEntry → AuditPayload → Option AuditLogRecord
unfolding optional_field
audit_record_of p e a = elim (audit_hash_field (audit_hash_from_payload p a)) [
  | none ↦ none
  | some hash ↦ elim (optional_field token_field e.correlation_id) [
    | none ↦ none
    | some correlation_id ↦ some (record {
      payload = a;
      audit_hash = hash;
      correlation_id = correlation_id;
      actor_hash = trimmed e.actor_hash;
      source = trimmed e.source;
    })
  ]
]
  where
    trimmed : Option String → Option String
    trimmed none = none
    trimmed (some s) = some (trim s)

-- AuditLogger.record, without the sink
unfoldable pub build_record : Platform → AuditEntry → Result AuditLogRecord
unfolding build_audit_payload audit_record_of
build_record p e = elim (build_audit_payload e) [
  | err x ↦ err x
  | ok a ↦ elim (audit_record_of p e a) [ none ↦ err validation_error | some r ↦ ok r ]
]

abbrev append_if_ok : Result AuditLogRecord → List AuditLogRecord → List AuditLogRecord
append_if_ok (ok r) log = log ++ (r ∷ [])
append_if_ok (err x) log = log

-- AuditLogger.record with InMemoryAuditLogSink: the record is appended if it can be built.
unfoldable pub record_audit :
    Platform → AuditEntry → List AuditLogRecord → Result AuditLogRecord × List AuditLogRecord
record_audit p e log = let r = build_record p e in (r, append_if_ok r log)
