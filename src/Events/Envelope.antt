-- ===== src/Events/Envelope.antt =====
-- EventEnvelope, its normalisation and its routing key.
use media_center.Prelude.{
  ℕ, String, Bool, false, not, ◌&&◌, ◌||◌, Option, none, some, List, [], ◌∷◌, str_eq, ◌==◌,
  if◌then◌else◌,
}
use media_center.Prelude.Maybe.{◌>>=◌}
use media_center.Text.{strip, any_char, all_chars, is_space, matches_event_type, split_on, concat}
use media_center.Value.{Fields}
use media_center.Platform.{Platform}
use media_center.Exec.{Result, ok, err, value_error}

pub record EventEnvelope : Type 0 where
  pub event_id : String
  pub type : String
  pub schema_version : String
  pub tenant_id : String
  pub source : String
  pub correlation_id : String
  pub occurred_at : ℕ
  pub payload : Fields
  pub causation_id : Option String

pub record PublishedEvent : Type 0 where
  pub envelope : EventEnvelope
  pub routing_key : String

-- _normalize_token; `none` is ValueError
unfoldable pub normalize_token : String → Option String
normalize_token value =
    let normalized = strip value in
    if str_eq normalized "" || any_char is_space normalized then none else some normalized

-- _normalize_routing_segment
unfoldable pub normalize_routing_segment : String → Option String
normalize_routing_segment value = elim (normalize_token value) [
  | none ↦ none
  | some normalized ↦ if any_char (λ c. c == b'.') normalized then none else some normalized
]

-- _normalize_event_type
unfoldable pub normalize_event_type : String → Option String
normalize_event_type event_type =
    let normalized = strip event_type in
    if matches_event_type normalized then some normalized else none

abbrev pub nonempty_digits : (ℕ → Bool) → String → Bool
nonempty_digits digit s = not (str_eq s "") && all_chars digit s

-- \d+\.\d+
abbrev pub is_major_minor : (ℕ → Bool) → List String → Bool
is_major_minor digit (major ∷ minor ∷ []) =
    nonempty_digits digit major && nonempty_digits digit minor
is_major_minor digit _ = false

-- _normalize_schema_version
unfoldable pub normalize_schema_version : Platform → String → Option String
normalize_schema_version p schema_version =
    let normalized = strip schema_version in
    if is_major_minor p.is_decimal (split_on b'.' normalized) then some normalized else none

unfoldable pub normalize_causation : Option String → Option (Option String)
normalize_causation none = some none
normalize_causation (some s) = do t ← normalize_token s; some (some t)

-- EventEnvelope.__post_init__
unfoldable pub normalize_envelope : Platform → EventEnvelope → Option EventEnvelope
normalize_envelope p e = do
  event_id ← normalize_token e.event_id
  type ← normalize_event_type e.type
  schema_version ← normalize_schema_version p e.schema_version
  tenant_id ← normalize_routing_segment e.tenant_id
  source ← normalize_token e.source
  correlation_id ← normalize_token e.correlation_id
  causation_id ← normalize_causation e.causation_id
  some (record {
    event_id = event_id;
    type = type;
    schema_version = schema_version;
    tenant_id = tenant_id;
    source = source;
    correlation_id = correlation_id;
    occurred_at = e.occurred_at;
    payload = e.payload;
    causation_id = causation_id;
  })

-- event_routing_key
unfoldable pub event_routing_key : String → String → Option String
event_routing_key tenant_id event_type = do
  tenant ← normalize_routing_segment tenant_id
  type ← normalize_event_type event_type
  some (concat ("tenant." ∷ tenant ∷ "." ∷ type ∷ []))

-- The constructor, which raises ValueError.
unfoldable pub make_envelope : Platform → EventEnvelope → Result EventEnvelope
make_envelope p e = elim (normalize_envelope p e) [ none ↦ err value_error | some n ↦ ok n ]
