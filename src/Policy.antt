-- ===== src/Policy.antt =====
-- The data of services/policy-manager/policy_manager/manager.py, and its defaults.
pub mod Rules
pub mod Manager
pub mod Versions
pub mod Updates
pub mod Appends
pub mod Decisions
pub mod Thresholds
pub mod Tests
use Prim.Native.String
use media_center.Prelude.{
  ℕ, String, Bool, true, false, ◌&&◌, Option, none, some, List, [], ◌∷◌, length, leb, ◌==◌, str_eq,
  if◌then◌else◌,
}
use media_center.Prelude.Maybe.{◌>>=◌, ◌>>◌, require}
use media_center.Text.{
  strip, trim, split_on, all_segments, concat, tenant_id_field, token_field, audit_hash_field,
  field_of,
}
use media_center.Value.{
  pos, Float, finite, Json, null, bool, int, float, str, arr, obj, Items, nil, cons, Fields, field,
  end, set_field,
}
use media_center.Dict.{Dict}
use media_center.Platform.{unix_epoch}
use media_center.AuditLog.{AuditLogRecord, optional_field}
use media_center.Events.{PublishedEvent}
use media_center.Exec.{Result, ok, err, Exec, value_error, validation_error}

pub data PolicyDecision : Type 0 where
  allow escalate : PolicyDecision

pub record PolicyRecord : Type 0 where
  pub tenant_id : String
  pub key : String
  pub value : Fields
  pub version : ℕ
  pub updated_by : Option String
  pub updated_at : ℕ
  pub audit_hash : String
  pub metadata : Fields

pub record PolicyApplicationResult : Type 0 where
  pub tenant_id : String
  pub decision : PolicyDecision
  pub policy_versions : Fields
  pub reasons : List String
  pub applied_at : ℕ

-- The arguments of `update_policy`: `now` is the instant that `normalize_datetime(updated_at or
-- datetime.now(UTC))` gives, and `fresh` numbers the identifier that the call may generate.
pub record PolicyUpdate : Type 0 where
  pub tenant_id : String
  pub key : String
  pub updated_by : String
  pub correlation_id : String
  pub value : Fields
  pub metadata : Fields
  pub now : ℕ
  pub event_id : Option String
  pub fresh : ℕ

-- PolicyManager with the in-memory repository, audit sink and event bus.
pub record Policies : Type 0 where
  pub history : Dict (List PolicyRecord)
  pub audit_log : List AuditLogRecord
  pub bus : List PublishedEvent

abbrev pub new_policies : Policies
new_policies = record { history = []; audit_log = []; bus = [] }

abbrev pub Managing : Type 0 → Type 0
Managing = Exec Policies

-- POLICY_KEY_PATTERN: one to eight segments
pub is_policy_key : String → Bool
is_policy_key s = let segments = split_on b'.' s in all_segments segments && leb (length segments) 8

-- normalize_policy_key
pub normalize_policy_key : String → Result String
normalize_policy_key key =
    let normalized = strip key in
    if is_policy_key normalized then ok normalized else err value_error

-- Field(min_length=1, max_length=128, pattern=POLICY_KEY_PATTERN)
pub policy_key_field : String → Option String
policy_key_field = field_of (λ s. is_policy_key s && leb (String.count s) 128)

-- What `str_strip_whitespace=True` does to a JSON value: its texts and keys are trimmed, and an
-- item whose trimmed key is there already replaces the value under that key.
mutual
  pub trim_json : Json → Json
  trim_json null = null
  trim_json (bool b) = bool b
  trim_json (int n) = int n
  trim_json (float x) = float x
  trim_json (str s) = str (trim s)
  trim_json (arr items) = arr (trim_items items)
  trim_json (obj d) = obj (trim_onto end d)

  pub trim_items : Items → Items
  trim_items nil = nil
  trim_items (cons item items) = cons (trim_json item) (trim_items items)

  pub trim_onto : Fields → Fields → Fields
  trim_onto trimmed end = trimmed
  trim_onto trimmed (field k v d) = trim_onto (set_field (trim k) (trim_json v) trimmed) d

unfoldable pub trim_fields : Fields → Fields
unfolding trim_onto
trim_fields = trim_onto end

-- PolicyRecord(...)
pub policy_record_model : PolicyRecord → Option PolicyRecord
policy_record_model policy = do
  tenant_id ← tenant_id_field policy.tenant_id
  key ← policy_key_field policy.key
  require (leb 1 policy.version)
  updated_by ← optional_field token_field policy.updated_by
  audit_hash ← audit_hash_field policy.audit_hash
  some (record policy {
    tenant_id = tenant_id;
    key = key;
    value = trim_fields policy.value;
    updated_by = updated_by;
    audit_hash = audit_hash;
  })

-- DEFAULT_POLICY_AUDIT_HASH
abbrev pub default_policy_audit_hash : String
default_policy_audit_hash = "0000000000000000000000000000000000000000000000000000000000000000"

abbrev threshold_policy : String → String → Fields → Fields
threshold_policy target operator rest =
    field "kind" (str "threshold")
      (field "target" (str target) (field "operator" (str operator) rest))

abbrev flag_policy : String → Fields → Fields
flag_policy target rest =
    field "kind" (str "flag") (field "target" (str target) (field "expected" (bool true) rest))

abbrev escalated : String → Fields
escalated reason = field "reason" (str reason) (field "decision_on_violation" (str "escalate") end)

abbrev within : ℕ → ℕ → Fields → Fields
within low high rest = field "min" (int (pos low)) (field "max" (int (pos high)) rest)

-- DEFAULT_POLICY_VALUES, in order: the doubles are those nearest to 0.7, 0.65, 0.75 and 0.02.
abbrev pub default_policy_values : List (String × Fields)
default_policy_values =
    (
      "automation.max_autonomous_risk_score",
      threshold_policy "risk_score" "lte" (
          field "threshold" (float (finite false 3152519739159347 52))
            (escalated "risk_score_above_threshold")),
    )
    ∷ (
      "automation.min_agent_confidence",
      threshold_policy "agent_confidence" "gte" (
          field "threshold" (float (finite false 5854679515581645 53))
            (escalated "confidence_below_threshold")),
    )
    ∷ (
      "hitl.veto_window_hours",
      threshold_policy "veto_window_hours" "between"
          (within 4 12 (field "default" (int (pos 8)) (escalated "veto_window_out_of_range"))),
    )
    ∷ (
      "rl_kpi.min_precision",
      threshold_policy "rl_precision" "gte"
          (field "threshold" (float (finite false 3 2)) (escalated "rl_precision_below_threshold")),
    )
    ∷ (
      "rl_kpi.window_days",
      threshold_policy "window_days" "between"
          (within 7 30 (escalated "rl_kpi_window_out_of_range")),
    )
    ∷ (
      "rl_kpi.require_council_approval",
      flag_policy "has_council_approval" (escalated "council_approval_required"),
    )
    ∷ (
      "rl_kpi.min_effect_lift",
      threshold_policy "effect_lift" "gte" (
          field "threshold" (float (finite false 5764607523034235 58))
            (escalated "effect_lift_below_threshold")),
    )
    ∷ ("ethics.require_xai", flag_policy "has_xai" (escalated "xai_required"))
    ∷ []

pub find_value : String → List (String × Fields) → Option Fields
find_value key [] = none
find_value key ((k, v) ∷ rest) = if str_eq k key then some v else find_value key rest

-- DEFAULT_POLICY_VALUES.get(key)
pub default_value : String → Option Fields
default_value key = find_value key default_policy_values

-- _default_policy_record for the value of a default key
pub default_policy_record : String → String → Fields → Result PolicyRecord
default_policy_record tenant_id key value =
    elim (policy_record_model (record {
      tenant_id = tenant_id;
      key = key;
      value = value;
      version = 1;
      updated_by = none;
      updated_at = unix_epoch;
      audit_hash = default_policy_audit_hash;
      metadata = field "source" (str "default") end;
    })) [ none ↦ err validation_error | some policy ↦ ok policy ]
