-- ===== src/Events/Serial.antt =====
-- Envelopes as JSON objects: to_dict and from_dict.
use Prim.Native.Char.{code}
use Prim.Native.String
use media_center.Prelude.{ℕ, String, Bool, true, false, Option, none, some, ◌==◌, if◌then◌else◌}
use media_center.Value.{Json, null, str, obj, Fields, field, end, get_field}
use media_center.Platform.{Platform, format_datetime}
use media_center.Exec.{Result, ok, err, value_error}
use media_center.Events.Envelope.{EventEnvelope, make_envelope}
use media_center.Auth.{◌>>=◌}

-- "causation_id", if there is one
abbrev pub causation_field : Option String → Fields
causation_field none = end
causation_field (some causation_id) = field "causation_id" (str causation_id) end

-- EventEnvelope.to_dict
unfoldable pub to_dict : Platform → EventEnvelope → Fields
to_dict p e = field "event_id" (str e.event_id) (
    field "type" (str e.type) (
      field "schema_version" (str e.schema_version) (
        field "tenant_id" (str e.tenant_id) (
          field "source" (str e.source) (
            field "correlation_id" (str e.correlation_id) (
              field "occurred_at" (str (format_datetime p e.occurred_at))
                (field "payload" (obj e.payload) (causation_field e.causation_id))))))))

-- _required_string, on the value that is found
abbrev pub required_string : Option Json → Result String
required_string (some (str value)) = ok value
required_string _ = err value_error

-- _optional_string, on the value that is found
abbrev pub optional_string : Option Json → Result (Option String)
optional_string none = ok none
optional_string (some null) = ok none
optional_string (some (str value)) = ok (some value)
optional_string (some _) = err value_error

abbrev pub payload_object : Option Json → Result Fields
payload_object (some (obj payload)) = ok payload
payload_object _ = err value_error

-- raw_value.replace("Z", "+00:00")
unfoldable pub without_z : String → String
without_z String.[] = String.[]
without_z (String.◌∷◌ c s) =
    let rest = without_z s in
    if code c == b'Z' then String.◌++◌ "+00:00" rest else String.◌∷◌ c rest

-- _normalize_datetime: a time without a zone is refused.
abbrev pub aware : Bool × ℕ → Result ℕ
aware (true, instant) = ok instant
aware (false, instant) = err value_error

-- `fromisoformat` is datetime.fromisoformat and, if the time has a zone, astimezone(UTC), with the
-- error of the two: whether it has a zone, and the instant.
module _ (p : Platform) (fromisoformat : String → Result (Bool × ℕ)) where
  -- _parse_datetime
  unfoldable pub parse_datetime : String → Result ℕ
  parse_datetime raw_value = fromisoformat (without_z raw_value) >>= aware

  -- EventEnvelope.from_dict
  unfoldable pub from_dict : Fields → Result EventEnvelope
  from_dict data_fields = do
    payload ← payload_object (get_field "payload" data_fields)
    event_id ← required_string (get_field "event_id" data_fields)
    type ← required_string (get_field "type" data_fields)
    schema_version ← required_string (get_field "schema_version" data_fields)
    tenant_id ← required_string (get_field "tenant_id" data_fields)
    source ← required_string (get_field "source" data_fields)
    correlation_id ← required_string (get_field "correlation_id" data_fields)
    raw_time ← required_string (get_field "occurred_at" data_fields)
    occurred_at ← parse_datetime raw_time
    causation_id ← optional_string (get_field "causation_id" data_fields)
    make_envelope p (record {
      event_id = event_id;
      type = type;
      schema_version = schema_version;
      tenant_id = tenant_id;
      source = source;
      correlation_id = correlation_id;
      occurred_at = occurred_at;
      payload = payload;
      causation_id = causation_id;
    })
