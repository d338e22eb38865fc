-- ===== src/Policy/Manager.antt =====
-- InMemoryPolicyRepository and PolicyManager.
use media_center.Prelude.{ℕ, ◌+◌, String, Option, none, some, List, [], ◌∷◌, ◌++◌, if◌then◌else◌}
use media_center.Text.{tenant_id_field, concat, or_else}
use media_center.Value.{Fields, field, end, int, str, obj, pos, set_field}
use media_center.Dict.{Key, Dict, lookup, insert}
use media_center.Platform.{Platform}
use media_center.AuditLog.{AuditEntry, AuditLogRecord, no_points, record_audit}
use media_center.Events.{EventEnvelope}
use media_center.Events.Envelope.{make_envelope, event_routing_key}
use media_center.Events.Inbox.{has}
use media_center.Exec.{
  Result, ok, err, pure, lift, modify, or_raise, ◌>>=◌, ◌>>◌, value_error, validation_error,
  policy_manager, policy_not_found,
}
use media_center.Policy.{
  PolicyDecision, allow, escalate, PolicyRecord, PolicyApplicationResult, PolicyUpdate, Policies,
  Managing, normalize_policy_key, policy_record_model, default_value, default_policy_record,
}
use media_center.Policy.Rules.{policy_reasons}

-- history[-1] of a history that is there and not empty
unfoldable pub last_of : List PolicyRecord → Option PolicyRecord
last_of [] = none
last_of (policy ∷ []) = some policy
last_of (policy ∷ next ∷ rest) = last_of (next ∷ rest)

abbrev pub all_of : Option (List PolicyRecord) → List PolicyRecord
all_of none = []
all_of (some history) = history

abbrev pub or_default : Option Fields → String → String → Result PolicyRecord
or_default none tenant_id key = err policy_not_found
or_default (some value) tenant_id key = default_policy_record tenant_id key value

abbrev pub latest_or_default : Option PolicyRecord → String → String → Result PolicyRecord
latest_or_default (some policy) tenant_id key = ok policy
latest_or_default none tenant_id key = or_default (default_value key) tenant_id key

-- get_policy behind the normalisation of the key
unfoldable pub find_policy : String → String → Policies → Result PolicyRecord
find_policy tenant_id key s =
    latest_or_default (last_of (all_of (lookup (tenant_id, key) s.history))) tenant_id key

-- What follows the normalisation of a key.
abbrev pub for_key : {A : Type 0} → Result String → (String → Result A) → Result A
for_key (err e) next = err e
for_key (ok key) next = next key

-- InMemoryPolicyRepository.get_policy
unfoldable pub get_policy : String → String → Policies → Result PolicyRecord
get_policy tenant_id key s =
    for_key (normalize_policy_key key) (λ normalized_key. find_policy tenant_id normalized_key s)

abbrev pub in_front : Result PolicyRecord → List PolicyRecord → Result (List PolicyRecord)
in_front (err e) history = err e
in_front (ok policy) history = ok (policy ∷ history)

abbrev pub with_default :
    Option Fields → String → String → List PolicyRecord → Result (List PolicyRecord)
with_default (some value) tenant_id key history =
    in_front (default_policy_record tenant_id key value) history
with_default none tenant_id key [] = err policy_not_found
with_default none tenant_id key (policy ∷ rest) = ok (policy ∷ rest)

-- InMemoryPolicyRepository.get_history
unfoldable pub get_history : String → String → Policies → Result (List PolicyRecord)
get_history tenant_id key s = for_key (normalize_policy_key key) (λ normalized_key.
    with_default (default_value normalized_key) tenant_id normalized_key
      (all_of (lookup (tenant_id, normalized_key) s.history)))

unfoldable pub saved : PolicyRecord → Dict (List PolicyRecord) → Dict (List PolicyRecord)
saved policy d =
    let key : Key = (policy.tenant_id, policy.key) in
    insert key (all_of (lookup key d) ++ (policy ∷ [])) d

-- InMemoryPolicyRepository.save_policy
unfoldable pub save_policy : PolicyRecord → Managing (Unit {0})
save_policy policy = modify (λ s. record s { history = saved policy s.history })

-- _existing_or_none
abbrev pub none_if_missing : Result PolicyRecord → Result (Option PolicyRecord)
none_if_missing (ok policy) = ok (some policy)
none_if_missing (err policy_not_found) = ok none
none_if_missing (err e) = err e

unfoldable pub existing_or_none : String → String → Managing (Option PolicyRecord)
existing_or_none tenant_id key s = (none_if_missing (get_policy tenant_id key s), s)

abbrev pub next_version : Option PolicyRecord → ℕ
next_version none = 1
next_version (some existing) = existing.version + 1

module _ (p : Platform) where
  -- subject_ref_hash
  pub subject_ref_hash : String → String → String
  subject_ref_hash tenant_id subject_id =
      concat ("sha256:" ∷ p.sha256_hex (concat (tenant_id ∷ ":" ∷ subject_id ∷ [])) ∷ [])

  unfoldable pub policy_audit : PolicyUpdate → String → ℕ → AuditEntry
  policy_audit q key version = record {
    event_type = "policy.updated";
    tenant_id = q.tenant_id;
    points = no_points;
    metadata = field "key" (str key) (
        field "version" (int (pos version))
          (field "value" (obj q.value) (field "metadata" (obj q.metadata) end)));
    timestamp = q.now;
    correlation_id = some q.correlation_id;
    actor_hash = some (subject_ref_hash q.tenant_id q.updated_by);
    source = some "policy-manager";
  }

  unfoldable pub updated_policy : PolicyUpdate → String → ℕ → String → PolicyRecord
  updated_policy q key version audit_hash = record {
    tenant_id = q.tenant_id;
    key = key;
    value = q.value;
    version = version;
    updated_by = some q.updated_by;
    updated_at = q.now;
    audit_hash = audit_hash;
    metadata = q.metadata;
  }

  unfoldable pub policy_event : PolicyUpdate → PolicyRecord → EventEnvelope
  policy_event q policy = record {
    event_id = or_else q.event_id (concat ("evt-policy-updated" ∷ "-" ∷ p.uuid q.fresh ∷ []));
    type = "policy.updated";
    schema_version = "1.0";
    tenant_id = q.tenant_id;
    source = "policy-manager";
    correlation_id = q.correlation_id;
    occurred_at = q.now;
    payload = field "key" (str policy.key) (
        field "version" (int (pos policy.version))
          (field "audit_hash" (str policy.audit_hash) end));
    causation_id = none;
  }

  unfoldable pub audit : AuditEntry → Managing AuditLogRecord
  audit e s = let (r, log) = record_audit p e s.audit_log in (r, record s { audit_log = log })

  unfoldable pub publish : EventEnvelope → Managing (Unit {0})
  publish e = do
    key ← or_raise value_error (event_routing_key e.tenant_id e.type)
    modify (λ s. record s { bus = s.bus ++ (record { envelope = e; routing_key = key } ∷ []) })

  -- PolicyManager.update_policy
  unfoldable pub update_policy : PolicyUpdate → Managing PolicyRecord
  update_policy q = do
    key ← lift (normalize_policy_key q.key)
    existing ← existing_or_none q.tenant_id key
    let version = next_version existing
    audit_record ← audit (policy_audit q key version)
    policy ←
        or_raise validation_error
          (policy_record_model (updated_policy q key version audit_record.audit_hash))
    save_policy policy
    event ← lift (make_envelope p (policy_event q policy))
    publish event
    pure policy

-- The loop of `apply_policies`: the versions and the reasons found so far.
abbrev pub Findings : Type 0
Findings = Fields × List String

abbrev pub add_findings : PolicyRecord → Result (List String) → Findings → Result Findings
add_findings policy (err e) found = err e
add_findings policy (ok reasons) (versions, found) =
    ok (set_field policy.key (int (pos policy.version)) versions, found ++ reasons)

abbrev pub apply_one : Result PolicyRecord → Fields → Findings → Result Findings
apply_one (err e) facts found = err e
apply_one (ok policy) facts found = add_findings policy (policy_reasons policy facts) found

abbrev pub continued : {A B : Type 0} → Result A → (A → Result B) → Result B
continued (err e) next = err e
continued (ok value) next = next value

unfoldable pub apply_loop : String → Fields → Policies → List String → Findings → Result Findings
apply_loop tenant_id facts s [] found = ok found
apply_loop tenant_id facts s (key ∷ keys) found =
    continued (apply_one (get_policy tenant_id key s) facts found)
      (apply_loop tenant_id facts s keys)

-- tuple(dict.fromkeys(reasons)), for the reasons not in `seen`
unfoldable pub unique_from : List String → List String → List String
unique_from seen [] = []
unique_from seen (reason ∷ rest) =
    let skipped = unique_from seen rest in
    let kept = reason ∷ unique_from (reason ∷ seen) rest in
    if has reason seen then skipped else kept

abbrev pub decision_for : List String → PolicyDecision
decision_for [] = allow
decision_for (reason ∷ rest) = escalate

abbrev pub application_result : Option String → ℕ → Findings → Result PolicyApplicationResult
application_result none applied_at found = err validation_error
application_result (some tenant_id) applied_at (versions, found) =
    let unique_reasons = unique_from [] found in
    ok (record {
      tenant_id = tenant_id;
      decision = decision_for unique_reasons;
      policy_versions = versions;
      reasons = unique_reasons;
      applied_at = applied_at;
    })

abbrev pub apply_all : String → Fields → ℕ → List String → Policies → Result PolicyApplicationResult
apply_all tenant_id facts applied_at keys s =
    continued (apply_loop tenant_id facts s keys (end, []))
      (application_result (tenant_id_field tenant_id) applied_at)

-- PolicyManager.apply_policies
unfoldable pub apply_policies :
    String → Fields → ℕ → List String → Policies → Result PolicyApplicationResult
apply_policies tenant_id facts applied_at [] s = err policy_manager
apply_policies tenant_id facts applied_at (key ∷ keys) s =
    apply_all tenant_id facts applied_at (key ∷ keys) s
