-- ===== src/Tenant/Owned.antt =====
-- Which records a TenantScopedRepository hands out.
use media_center.Prelude.{
  String, Bool, false, Option, none, some, List, [], ◌∷◌, ◌++◌, ◌≡◌, refl, sym, ap, ◌∙◌, inl, inr,
  str_eq, select, Bool-cases, eq_iff, if◌then◌else◌,
}
use mathlib.Core.Option.{map}
use media_center.Value.{Json}
use media_center.Access.{TenantContext}
use media_center.Exec.{Error, Result, ok, err, tenant_isolation, from_ok}
use media_center.Exec.Rules.{Result-cases}
use media_center.Tenant.Records.{
  TenantAuditEvent, build_tenant_violation_event, hash_identifier, recorded, deny_tenant_access,
  record_tenant_id, require_owned, get_owned, list_for_tenant,
}

pub first_match : {Record : Type 0} → (Record → Bool) → List Record → Option Record
first_match matches [] = none
first_match matches (r ∷ records) =
    let rest = first_match matches records in if matches r then some r else rest

module _ {Record : Type 0} (sha256_hex : String → String) (tenant_of : Record → Option Json)
    (resource_type : String) (has_sink : Bool) where
  -- The event that a denied access to a record of this tenant leaves
  abbrev pub violation : TenantContext → String → TenantAuditEvent
  violation context tenant = record {
    event_type = "tenant.isolation_violation";
    tenant_id = some context.tenant_id;
    requested_tenant_hash = some (sha256_hex tenant);
    actor_hash = map sha256_hex context.subject;
    resource_type = resource_type;
    correlation_id = context.correlation_id;
    reason = "resource_tenant_mismatch";
    status_code = 403;
    error_code = "tenant_isolation_violation";
  }

  -- The ends of `get_owned`, by the first record with the identifier
  pub data OwnedEnds (context : TenantContext) (found : Option Record)
      (events : List TenantAuditEvent)
      : Result (Option Record) × List TenantAuditEvent → Type 0 where
    missing : found ≡ none → OwnedEnds context found events (ok none, events)
    owned :
        {r : Record}
        → found ≡ some r
        → record_tenant_id sha256_hex tenant_of resource_type has_sink r ≡ ok context.tenant_id
        → OwnedEnds context found events (ok (some r), events)
    without_tenant :
        {r : Record} {e : Error}
        → found ≡ some r
        → record_tenant_id sha256_hex tenant_of resource_type has_sink r ≡ err e
        → OwnedEnds context found events (err e, events)
    denied :
        {r : Record} {tenant : String}
        → found ≡ some r
        → record_tenant_id sha256_hex tenant_of resource_type has_sink r ≡ ok tenant
        → str_eq tenant context.tenant_id ≡ false
        → OwnedEnds context found events (
          err tenant_isolation,
          if has_sink then events ++ violation context tenant ∷ [] else events,
        )

  hashed_subject :
      (subject : Option String) → hash_identifier sha256_hex subject ≡ map sha256_hex subject
  hashed_subject none = refl
  hashed_subject (some value) = refl

  -- `get_owned` looks at the first record with the identifier. If there is none, it returns none; if
  -- its tenant is that of the context, it returns it; otherwise it raises. Then, if the other tenant
  -- is an identifier and there is an audit sink, it records one violation: with the tenant of the
  -- context, the hashes of the other tenant and of the subject, the resource type, the correlation
  -- identifier, the reason and status 403.
  pub get_owned-Ends :
      (records : List Record) (matches : Record → Bool) (context : TenantContext)
      (events : List TenantAuditEvent)
      → OwnedEnds context
          (first_match matches records)
          events
          (get_owned sha256_hex tenant_of resource_type has_sink records matches context events)
  unfolding get_owned first_match require_owned deny_tenant_access recorded
      build_tenant_violation_event
  get_owned-Ends [] matches context events = missing refl
  get_owned-Ends (r ∷ records) matches context events = elim (Bool-cases (matches r)) [
    | inr m ↦ rw m (get_owned-Ends records matches context events)
    | inl m ↦ elim (Result-cases (record_tenant_id sha256_hex tenant_of resource_type has_sink r)) [
      | inr (e, t) ↦ rw (m, t) (without_tenant refl t)
      | inl (tenant, t) ↦ elim (Bool-cases (str_eq tenant context.tenant_id)) [
        | inl same ↦ rw (m, t, same) (owned refl (t ∙ ap ok ((eq_iff _ _).0 same)))
        | inr other ↦ rw (m, t, other, hashed_subject context.subject) (denied refl t other)
      ]
    ]
  ]

  abbrev pub is_named : String → Result String → Bool
  is_named tenant_id (ok tenant) = str_eq tenant tenant_id
  is_named tenant_id (err e) = false

  -- Whether the record is one of this tenant
  abbrev pub is_of : String → Record → Bool
  is_of tenant_id r =
      is_named tenant_id (record_tenant_id sha256_hex tenant_of resource_type has_sink r)

  -- If `list_for_tenant` returns, it returns the records of the tenant of the context, in order.
  pub list_for_tenant-select :
      (records kept : List Record) (context : TenantContext)
      → list_for_tenant sha256_hex tenant_of resource_type has_sink records context ≡ ok kept
      → kept ≡ select (is_of context.tenant_id) records
  unfolding list_for_tenant select
  list_for_tenant-select [] kept context h = sym (from_ok h)
  list_for_tenant-select (r ∷ records) kept context h =
      elim (Result-cases (record_tenant_id sha256_hex tenant_of resource_type has_sink r)) [
        | inr (e, t) ↦ let impossible : err e ≡ ok kept = rw t at h in cc
        | inl (tenant, t) ↦
            elim (Result-cases
              (list_for_tenant sha256_hex tenant_of resource_type has_sink records context)) [
                | inr (e, l) ↦ let impossible : err e ≡ ok kept = rw (t, l) at h in cc
                | inl (rest, l) ↦
                    let ih = list_for_tenant-select records rest context l in
                    elim (Bool-cases (str_eq tenant context.tenant_id)) [
                      | inl same ↦
                          rw (t, same) (sym (from_ok (rw (t, l, same) at h)) ∙ ap (λ x. r ∷ x) ih)
                      | inr other ↦ rw (t, other) (sym (from_ok (rw (t, l, other) at h)) ∙ ih)
                    ]
              ]
      ]
