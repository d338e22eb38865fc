-- ===== src/Policy/Tests.antt =====
-- Runs of the policy manager.
use media_center.Value.{set_field, pos, nan, finite, int, float, str, Fields, field, end, get_field}
use media_center.Policy.Rules.{
  policy_reasons, flag_policy_reasons, fact_equals, decision_on_violation, nonempty_text,
  threshold_violation, string_field, number_field, threshold_policy_reasons,
}
use media_center.Policy.Manager.{
  unique_from, apply_loop, updated_policy, saved, save_policy, publish, policy_event, policy_audit,
  audit, last_of, find_policy, existing_or_none, get_policy, get_history, update_policy,
  apply_policies,
}
use media_center.Numbers.{
  same_number, round_magnitude, less, json_eq, float_of_int, excess_bits, count_fields, at_most,
  as_number,
}
use media_center.Events.Inbox.{has}
use media_center.AuditLog.{
  audit_hash_from_payload, record_audit, optional_field, build_record, build_audit_payload,
}
use media_center.Text.{
  token_field, tenant_id_field, or_else, is_event_type, field_of, concat, audit_hash_field,
  any_char, is_white_space, is_space, between, is_snake, all_chars, is_lower, is_snake_segment,
  strip, split_on, all_segments,
}
use media_center.Policy.{
  policy_record_model, trim_fields, policy_key_field, default_policy_record, find_value,
  default_value, is_policy_key, normalize_policy_key, default_policy_audit_hash, PolicyRecord,
  PolicyUpdate, Policies, new_policies, PolicyApplicationResult, escalate,
}
use media_center.Exec.{pure, or_raise, modify, lift, ◌>>=◌, Result, ok}
use media_center.Events.Envelope.{
  normalize_token, normalize_schema_version, normalize_routing_segment, normalize_event_type,
  normalize_envelope, normalize_causation, make_envelope, event_routing_key,
}
use media_center.Dict.{key_eq, insert, lookup}
use media_center.Prelude.{
  ◌≢◌, ap, not, ℕ, String, Bool, true, false, none, some, List, [], ◌∷◌, ◌≡◌, refl,
}
use media_center.Platform.{Platform, unix_epoch}
use media_center.Policy.Updates.{get_policy-update_policy}
use media_center.Policy.Versions.{update_all, get_history-IsNumbered, IsNumbered}
use media_center.Policy.Decisions.{apply_policies-Decides, Applied, Decides}
use media_center.Policy.Thresholds.{operator_name, meets, threshold_violation-meets, lte}

abbrev platform : Platform
platform = record {
  sha256_hex = λ text. "abababababababababababababababababababababababababababababababab";
  dumps_sorted = λ fields. "{}";
  isoformat = λ instant. "now";
  lower = λ text. text;
  is_decimal = λ c. true;
  uuid = λ n. "id";
}

abbrev stricter : PolicyUpdate
stricter = record {
  tenant_id = "acme";
  key = " automation.max_autonomous_risk_score ";
  updated_by = "council-1";
  correlation_id = "corr-1";
  value = field "kind" (str "threshold") (
      field " target" (str "risk_score ")
        (field "operator" (str "lte") (field "threshold" (float (finite false 1 1)) end)));
  metadata = end;
  now = 63000000000000000;
  event_id = none;
  fresh = 1;
}

abbrev saved_policy : PolicyRecord
saved_policy = record {
  tenant_id = "acme";
  key = "automation.max_autonomous_risk_score";
  value = field "kind" (str "threshold") (
      field "target" (str "risk_score")
        (field "operator" (str "lte") (field "threshold" (float (finite false 1 1)) end)));
  version = 2;
  updated_by = some "council-1";
  updated_at = 63000000000000000;
  audit_hash = "abababababababababababababababababababababababababababababababab";
  metadata = end;
}

abbrev after_update : Policies
after_update = (update_policy platform stricter new_policies).1

update_returned : (update_policy platform stricter new_policies).0 ≡ ok saved_policy
unfolding update_policy ◌>>=◌ normalize_policy_key is_policy_key all_segments split_on strip
    is_snake_segment is_lower all_chars is_snake existing_or_none get_policy find_policy last_of
    lookup default_value find_value build_audit_payload build_record optional_field record_audit
    insert key_eq event_routing_key make_envelope normalize_causation normalize_envelope
    normalize_event_type normalize_routing_segment normalize_schema_version normalize_token lift
    modify or_raise pure audit policy_audit policy_event publish save_policy saved updated_policy
    default_policy_record policy_key_field policy_record_model between is_space is_white_space
    any_char audit_hash_field concat field_of is_event_type or_else tenant_id_field token_field
    audit_hash_from_payload trim_fields set_field
update_returned = refl

get_policy-update_policy_example :
    (get_policy "acme" stricter.key after_update ≡ ok saved_policy)
    × (saved_policy.value ≡ trim_fields stricter.value)
get_policy-update_policy_example =
    get_policy-update_policy platform stricter new_policies after_update saved_policy
      (ap (λ (r : Result PolicyRecord). (r, after_update)) update_returned)

abbrev default_policy : PolicyRecord
default_policy = record {
  tenant_id = "acme";
  key = "automation.max_autonomous_risk_score";
  value = field "kind" (str "threshold") (
      field "target" (str "risk_score") (
        field "operator" (str "lte") (
          field "threshold" (float (finite false 3152519739159347 52)) (
            field "reason" (str "risk_score_above_threshold")
              (field "decision_on_violation" (str "escalate") end)))));
  version = 1;
  updated_by = none;
  updated_at = unix_epoch;
  audit_hash = default_policy_audit_hash;
  metadata = field "source" (str "default") end;
}

history_returned :
    get_history "acme" stricter.key (update_all platform (stricter ∷ []) new_policies)
    ≡ ok (default_policy ∷ saved_policy ∷ [])
unfolding get_history normalize_policy_key is_policy_key all_segments split_on strip
    is_snake_segment is_lower all_chars is_snake default_value find_value default_policy_record
    policy_record_model tenant_id_field policy_key_field optional_field audit_hash_field key_eq
    lookup between is_space is_white_space field_of token_field update_all update_policy ◌>>=◌
    existing_or_none get_policy find_policy last_of audit record_audit build_record policy_audit
    is_event_type audit_hash_from_payload or_raise updated_policy save_policy modify
    build_audit_payload insert event_routing_key make_envelope normalize_causation
    normalize_envelope normalize_event_type normalize_routing_segment normalize_schema_version
    normalize_token lift pure policy_event publish saved any_char concat or_else trim_fields
    set_field
history_returned = refl

get_history-IsNumbered_example : IsNumbered 1 (default_policy ∷ saved_policy ∷ [])
get_history-IsNumbered_example =
    get_history-IsNumbered platform (stricter ∷ []) "acme" stricter.key
      (default_policy ∷ saved_policy ∷ []) history_returned

-- The risk score is 3/4, above the default 0.7 and above the stricter 1/2.
abbrev risky : Fields
risky = field "risk_score" (float (finite false 3 2)) end

abbrev keys : List String
keys = "automation.max_autonomous_risk_score" ∷ []

abbrev escalated_result : PolicyApplicationResult
escalated_result = record {
  tenant_id = "acme";
  decision = escalate;
  policy_versions = field "automation.max_autonomous_risk_score" (int (pos 1)) end;
  reasons = "risk_score_above_threshold" ∷ [];
  applied_at = 63000000000000000;
}

apply_returned :
    apply_policies "acme" risky 63000000000000000 keys new_policies ≡ ok escalated_result
unfolding apply_policies apply_loop get_policy normalize_policy_key is_policy_key all_segments
    split_on strip is_snake_segment is_lower all_chars is_snake find_policy last_of lookup
    default_value find_value default_policy_record optional_field key_eq has as_number at_most
    count_fields excess_bits float_of_int json_eq less round_magnitude same_number unique_from
    decision_on_violation fact_equals flag_policy_reasons nonempty_text number_field policy_reasons
    string_field threshold_policy_reasons threshold_violation policy_key_field policy_record_model
    between is_space is_white_space audit_hash_field concat field_of tenant_id_field token_field
    get_field set_field trim_fields
apply_returned = refl

apply_policies-Decides_example :
    (reasons : List String) × Applied "acme" risky new_policies keys reasons
    × Decides escalated_result reasons
apply_policies-Decides_example =
    apply_policies-Decides "acme" risky 63000000000000000 keys new_policies escalated_result
      apply_returned

threshold_read : number_field stricter.value "threshold" ≡ ok (finite false 1 1)
unfolding number_field get_field
threshold_read = refl

not_nan : (s : Bool) (m k : ℕ) → finite s m k ≢ nan
not_nan s m k h = cc

threshold_violation-meets_example :
    threshold_violation stricter.value (operator_name lte) (finite false 3 2)
    ≡ ok (not (meets lte (finite false 3 2) (finite false 1 1)))
threshold_violation-meets_example =
    threshold_violation-meets lte stricter.value (finite false 3 2) (finite false 1 1)
      threshold_read (not_nan false 3 2) (not_nan false 1 1)

target_read : string_field saved_policy.value "target" none ≡ ok "risk_score"
unfolding string_field get_field nonempty_text strip
target_read = refl

operator_read : string_field saved_policy.value "operator" none ≡ ok (operator_name lte)
unfolding string_field operator_name get_field nonempty_text strip
operator_read = refl

abbrev unknown_risk : Fields
unknown_risk = field "risk_score" (float nan) end

fact_read : number_field unknown_risk "risk_score" ≡ ok nan
unfolding number_field get_field
fact_read = refl
