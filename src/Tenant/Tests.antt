-- ===== src/Tenant/Tests.antt =====
-- Runs of the headers and of a repository of records.
use media_center.Tenant.Records.{
  build_tenant_violation_event, recorded, deny_tenant_access, record_tenant_id, require_owned,
  TenantAuditEvent, get_owned, list_for_tenant,
}
use media_center.Text.{split_on, strip, is_tenant_id, is_token}
use media_center.Tenant.{
  stripped_roles, length, roles_from_header, header, Forwarding, header_values,
  tenant_headers_from_context, tenant_context_from_trusted_headers,
}
use media_center.Prelude.{String, Bool, true, Option, none, some, List, [], ◌∷◌, ◌≡◌, refl, str_eq}
use media_center.Value.{Json, str}
use media_center.Access.{TenantContext}
use media_center.Exec.{ok, err, tenant_isolation, unauthorized}
use media_center.Tenant.RoundTrip.{KeepsNames, IsIdentified, tenant_context-headers}
use media_center.Tenant.Owned.{OwnedEnds, first_match, get_owned-Ends}

abbrev context : TenantContext
context = record {
  tenant_id = "acme";
  subject = some "user-1";
  roles = "council" ∷ "member_full" ∷ [];
  correlation_id = some "c-1";
}

abbrev forwarding : Forwarding
forwarding = record {
  service_name = some "api-gateway";
  forwarded_prefix = none;
  original_path = some "/payouts";
}

-- The names are in lower case already.
abbrev same_name : String → String
same_name name = name

names_kept : KeepsNames same_name (header_values context forwarding)
names_kept = (refl, (refl, (refl, (refl, (refl, (refl, (refl, tt)))))))

context-IsIdentified : IsIdentified context
unfolding is_token is_tenant_id
context-IsIdentified = (refl, refl, (refl, (refl, tt)), refl)

tenant_context-headers_example :
    tenant_context_from_trusted_headers same_name (tenant_headers_from_context context forwarding)
    ≡ ok context
tenant_context-headers_example =
    tenant_context-headers same_name context forwarding names_kept context-IsIdentified

-- A blank role among the others is refused.
blank_role :
    tenant_context_from_trusted_headers same_name
      (("x-tenant-id", "acme") ∷ ("x-actor-roles", "council, ,board") ∷ [])
    ≡ err unauthorized
unfolding tenant_context_from_trusted_headers header is_tenant_id strip roles_from_header length
    stripped_roles split_on
blank_role = refl

-- A record of two texts: the tenant and the identifier.
abbrev Document : Type 0
Document = String × String

abbrev documents : List Document
documents = ("acme", "d-1") ∷ ("other", "d-2") ∷ ("acme", "d-3") ∷ []

abbrev tenant_of : Document → Option Json
tenant_of (tenant, id) = some (str tenant)

abbrev has_id : String → Document → Bool
has_id wanted (tenant, id) = str_eq id wanted

abbrev sample_hash : String → String
sample_hash text = "hash"

abbrev violation : TenantAuditEvent
violation = record {
  event_type = "tenant.isolation_violation";
  tenant_id = some "acme";
  requested_tenant_hash = some "hash";
  actor_hash = some "hash";
  resource_type = "document";
  correlation_id = some "c-1";
  reason = "resource_tenant_mismatch";
  status_code = 403;
  error_code = "tenant_isolation_violation";
}

other_document :
    get_owned sample_hash tenant_of "document" true documents (has_id "d-2") context []
    ≡ (err tenant_isolation, violation ∷ [])
unfolding get_owned require_owned record_tenant_id is_tenant_id deny_tenant_access recorded
    build_tenant_violation_event
other_document = refl

get_owned-Ends_example :
    OwnedEnds sample_hash tenant_of "document" true context
      (first_match (has_id "d-2") documents)
      []
      (get_owned sample_hash tenant_of "document" true documents (has_id "d-2") context [])
get_owned-Ends_example =
    get_owned-Ends sample_hash tenant_of "document" true documents (has_id "d-2") context []

abbrev own_documents : List Document
own_documents = ("acme", "d-1") ∷ ("acme", "d-3") ∷ []

documents_listed :
    list_for_tenant sample_hash tenant_of "document" true documents context ≡ ok own_documents
unfolding list_for_tenant record_tenant_id is_tenant_id
documents_listed = refl
