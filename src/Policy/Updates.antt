-- ===== src/Policy/Updates.antt =====
-- What `update_policy` does to the repository, and what is read back.
use media_center.Prelude.{
  ℕ, String, true, Option, some, List, [], ◌∷◌, ◌++◌, ◌≡◌, refl, sym, ap, ◌∙◌, inl, inr, arith,
  Bool-cases, Option-cases,
}
use media_center.Text.{tenant_id_field, is_tenant_id, field_of, trim, strip}
use media_center.Text.Trim.{trim-is_tenant_id}
use media_center.Text.Strip.{trim-strip, strip_again}
use media_center.Dict.{lookup, lookup-insert_self}
use media_center.Platform.{Platform}
use media_center.AuditLog.{
  AuditEntry, AuditLogRecord, record_audit, build_record, build_audit_payload,
}
use media_center.Events.{EventEnvelope}
use media_center.Events.Envelope.{make_envelope, event_routing_key}
use mathlib.Core.Path.{subst}
use media_center.Exec.{
  Error, Result, ok, err, pure, lift, modify, or_raise, ◌>>=◌, ◌>>◌, value_error, validation_error,
  from_ok,
}
use media_center.Exec.Rules.{bind-cases, state_of, result_of, or_raise-same, or_raise-some}
use media_center.Policy.{
  PolicyRecord, PolicyUpdate, Policies, normalize_policy_key, policy_record_model, policy_key_field,
  is_policy_key, trim_fields,
}
use media_center.Policy.Manager.{
  last_of, all_of, find_policy, get_policy, saved, save_policy, none_if_missing, existing_or_none,
  next_version, update_policy, audit, publish, policy_audit, updated_policy, policy_event,
}

-- The policy that an update on this state saves.
pub record Saves (s : Policies) (q : PolicyUpdate) (policy : PolicyRecord) : Type 0 where
  pub normalized : normalize_policy_key q.key ≡ ok policy.key
  pub tenant : policy.tenant_id ≡ q.tenant_id
  pub existing : Option PolicyRecord
  pub found : none_if_missing (get_policy q.tenant_id policy.key s) ≡ ok existing
  pub version : policy.version ≡ next_version existing
  pub value : policy.value ≡ trim_fields q.value

-- How an update ends: nothing is saved; the policy is saved and returned; or it is saved and its
-- event then refused.
pub data UpdateEnds (s : Policies) (q : PolicyUpdate)
    : Result PolicyRecord × Policies → Type 0 where
  refused :
      {e : Error} {after : Policies} → after.history ≡ s.history → UpdateEnds s q (err e, after)
  stored :
      {policy : PolicyRecord} {after : Policies}
      → Saves s q policy
      → after.history ≡ saved policy s.history
      → UpdateEnds s q (ok policy, after)
  unannounced :
      {e : Error} {policy : PolicyRecord} {after : Policies}
      → Saves s q policy
      → after.history ≡ saved policy s.history
      → UpdateEnds s q (err e, after)

ok_is_no_err : {A : Type 0} {a : A} {e : Error} → ok a ≡ err e → ⊥
ok_is_no_err h = cc

history_of : {s t : Policies} → s ≡ t → s.history ≡ t.history
history_of h = ap (λ (x : Policies). x.history) h

module _ (p : Platform) where
  audit-history :
      (e : AuditEntry) (s s' : Policies) (r : Result AuditLogRecord)
      → audit p e s ≡ (r, s')
      → s'.history ≡ s.history
  unfolding audit
  audit-history e s s' r h = sym (ap (λ (x : Result AuditLogRecord × Policies). x.1.history) h)

  audit-tenant :
      (e : AuditEntry) (s s' : Policies) (r : AuditLogRecord)
      → audit p e s ≡ (ok r, s')
      → is_tenant_id e.tenant_id ≡ true
  unfolding audit record_audit build_record build_audit_payload
  audit-tenant e s s' r h =
      let made : build_record p e ≡ ok r = ap (λ (x : Result AuditLogRecord × Policies). x.0) h in
      ground arith

  publish-history :
      (e : EventEnvelope) (s s' : Policies) (r : Result (Unit {0}))
      → publish p e s ≡ (r, s')
      → s'.history ≡ s.history
  unfolding publish ◌>>=◌ or_raise modify
  publish-history e s s' r h =
      sym (ap (λ (x : Result (Unit {0}) × Policies). x.1.history) h)
      ∙ elim (Option-cases (event_routing_key e.tenant_id e.type)) [
        | inl k ↦ rw k refl
        | inr (key, k) ↦ rw k refl
      ]

-- A normalised key is a stripped text.
normalized_is_trimmed : (key k : String) → normalize_policy_key key ≡ ok k → trim k ≡ k
unfolding normalize_policy_key
normalized_is_trimmed key k h = elim (Bool-cases (is_policy_key (strip key))) [
  | inl e ↦ let same : strip key ≡ k = from_ok (rw e at h) in rw (sym same) (trim-strip key)
  | inr e ↦ let no : err value_error ≡ ok k = rw e at h in cc
]

-- What is normalised is left as it is by another normalisation.
pub normalize_policy_key-again :
    (key k : String) → normalize_policy_key key ≡ ok k → normalize_policy_key k ≡ ok k
unfolding normalize_policy_key
normalize_policy_key-again key k h = elim (Bool-cases (is_policy_key (strip key))) [
  | inl e ↦
      let same : strip key ≡ k = from_ok (rw e at h) in rw (sym same) (rw (strip_again key, e) refl)
  | inr e ↦ let no : err value_error ≡ ok k = rw e at h in absurd (ok_is_no_err (sym no))
]

module _ (p : Platform) where
  model_fields :
      (q : PolicyUpdate) (key hash : String) (version : ℕ) (policy : PolicyRecord)
      → policy_record_model (updated_policy p q key version hash) ≡ some policy
      → (policy.tenant_id ≡ trim q.tenant_id)
        × (policy.key ≡ trim key)
        × (policy.version ≡ version)
        × (policy.value ≡ trim_fields q.value)
  unfolding policy_record_model updated_policy tenant_id_field policy_key_field field_of
  model_fields q key hash version policy h = ground arith

  model-Saves :
      (s : Policies) (q : PolicyUpdate) (key hash : String) (existing : Option PolicyRecord)
      (policy : PolicyRecord)
      → normalize_policy_key q.key ≡ ok key
      → none_if_missing (get_policy q.tenant_id key s) ≡ ok existing
      → is_tenant_id q.tenant_id ≡ true
      → policy_record_model (updated_policy p q key (next_version existing) hash) ≡ some policy
      → Saves s q policy
  model-Saves s q key hash existing policy n f t h =
      let (tenant, k, version, value) = model_fields q key hash (next_version existing) policy h in
      let same : key ≡ policy.key = sym (k ∙ normalized_is_trimmed q.key key n) in
      record {
        normalized = n ∙ ap ok same;
        tenant = tenant ∙ trim-is_tenant_id q.tenant_id t;
        existing = existing;
        found = sym (ap (λ (k' : String). none_if_missing (get_policy q.tenant_id k' s)) same) ∙ f;
        version = version;
        value = value;
      }

  -- The end of `update_policy`, after the policy is saved.
  announced :
      (s : Policies) (q : PolicyUpdate) (policy : PolicyRecord) (s5 : Policies)
      → Saves s q policy
      → s5.history ≡ saved policy s.history
      → UpdateEnds s q (
          (lift (make_envelope p (policy_event p q policy)) >>= λ event.
          publish p event >> pure policy)
            s5)
  unfolding lift pure
  announced s q policy s5 w after =
      bind-cases (UpdateEnds s q) (lift (make_envelope p (policy_event p q policy))) _ s5
        (λ e s' h. unannounced w (history_of (sym (state_of h)) ∙ after))
        (λ event s6 h6.
          bind-cases (UpdateEnds s q) (publish p event) _ s6
            (λ e s' h.
              unannounced w
                (publish-history p event s6 s' _ h ∙ history_of (sym (state_of h6)) ∙ after))
            (λ u' s7 h7.
              stored w
                (publish-history p event s6 s7 _ h7 ∙ history_of (sym (state_of h6)) ∙ after)))

  -- How `update_policy` ends, on every path.
  pub update_policy-Ends : (q : PolicyUpdate) (s : Policies) → UpdateEnds s q (update_policy p q s)
  unfolding update_policy lift existing_or_none save_policy modify policy_audit
  update_policy-Ends q s =
      bind-cases (UpdateEnds s q) (lift (normalize_policy_key q.key)) _ s
        (λ e s' h. refused (history_of (sym (state_of h))))
        (λ key s1 h1.
          bind-cases (UpdateEnds s q) (existing_or_none q.tenant_id key) _ s1
            (λ e s' h. refused (history_of (sym (state_of h1 ∙ state_of h))))
            (λ existing s2 h2.
              let back : s2 ≡ s = sym (state_of h1 ∙ state_of h2) in
              bind-cases (UpdateEnds s q) (audit p (policy_audit p q key (next_version existing))) _
                s2 (λ e s' h. refused (audit-history p _ s2 s' _ h ∙ history_of back))
                (λ audited s3 h3.
                  let same : s3.history ≡ s.history =
                    audit-history p _ s2 s3 _ h3 ∙ history_of back in
                  let tenant : is_tenant_id q.tenant_id ≡ true =
                    audit-tenant p _ s2 s3 audited h3 in
                  let model =
                    policy_record_model
                      (updated_policy p q key (next_version existing) audited.audit_hash) in
                  bind-cases (UpdateEnds s q) (or_raise validation_error model) _ s3
                    (λ e s' h. refused (history_of (or_raise-same _ model s3 s' _ h) ∙ same))
                    (λ policy s4 h4.
                      bind-cases (UpdateEnds s q) (save_policy policy) _ s4
                        (λ e s' h. let no : ok tt ≡ err e = result_of h in absurd (ok_is_no_err no))
                        (λ u s5 h5.
                          let w : Saves s q policy =
                            model-Saves s q key audited.audit_hash existing policy (result_of h1)
                              (ap (λ (t : Policies). none_if_missing (get_policy q.tenant_id key t))
                                  (state_of h1)
                                ∙ result_of h2)
                              tenant (or_raise-some _ model s3 s4 policy h4) in
                          let at_save : s4.history ≡ s.history =
                            history_of (or_raise-same _ model s3 s4 _ h4) ∙ same in
                          announced s q policy s5 w
                            (history_of (sym (state_of h5)) ∙ ap (saved policy) at_save))))))

last_of-append :
    (xs : List PolicyRecord) (policy : PolicyRecord) → last_of (xs ++ (policy ∷ [])) ≡ some policy
unfolding last_of
last_of-append [] policy = refl
last_of-append (x ∷ []) policy = refl
last_of-append (x ∷ y ∷ xs) policy = last_of-append (y ∷ xs) policy

find_policy-saved :
    (policy : PolicyRecord) (s after : Policies)
    → after.history ≡ saved policy s.history
    → find_policy policy.tenant_id policy.key after ≡ ok policy
unfolding find_policy saved
find_policy-saved policy s after h =
    rw
      (
        h,
        lookup-insert_self (policy.tenant_id, policy.key)
            (all_of (lookup (policy.tenant_id, policy.key) s.history) ++ (policy ∷ [])) s.history,
        last_of-append (all_of (lookup (policy.tenant_id, policy.key) s.history)) policy,
      )
      refl

-- An update that returned has saved what it returned.
pub returned-Saves :
    (s : Policies) (q : PolicyUpdate) (r : Result PolicyRecord × Policies) (policy : PolicyRecord)
    (after : Policies)
    → UpdateEnds s q r
    → r ≡ (ok policy, after)
    → Saves s q policy × (after.history ≡ saved policy s.history)
returned-Saves s q _ policy after (refused same) e = absurd (ok_is_no_err (sym (result_of e)))
returned-Saves s q _ policy after (unannounced w same) e = absurd (ok_is_no_err (sym (result_of e)))
returned-Saves s q _ policy after (stored w same) e =
    let it = from_ok (result_of e) in
    (
      subst (λ (x : PolicyRecord). Saves s q x) it w,
      sym (history_of (state_of e)) ∙ same ∙ ap (λ (x : PolicyRecord). saved x s.history) it,
    )

module _ (p : Platform) where
  -- If `update_policy` returns a policy, then the policy read back for the same tenant and key is
  -- that policy, with the value given, whose texts and keys are trimmed at any depth.
  pub get_policy-update_policy :
      (q : PolicyUpdate) (s after : Policies) (policy : PolicyRecord)
      → update_policy p q s ≡ (ok policy, after)
      → (get_policy q.tenant_id q.key after ≡ ok policy) × (policy.value ≡ trim_fields q.value)
  unfolding get_policy
  get_policy-update_policy q s after policy h =
      let (w, same) =
        returned-Saves s q (update_policy p q s) policy after (update_policy-Ends p q s) h in
      (rw (w.normalized, sym w.tenant) (find_policy-saved policy s after same), w.value)
