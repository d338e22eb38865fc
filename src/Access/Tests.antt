-- ===== src/Access/Tests.antt =====
-- Runs of the guard in front of the blockchain auditor.
use media_center.Access.Endpoints.{
  ends_with, is_parameter, path_part_matches, split_path, parts_match, matches, policy_for_scope,
  EndpointAccessPolicy, blockchain_audit_endpoint_policies, unlisted, guard, path_template_matches,
}
use media_center.Text.{split_on, strip}
use media_center.Access.{require_access, TenantContext}
use media_center.Prelude.{String, none, some, [], ◌∷◌, ◌≡◌, ◌↔◌, refl}
use media_center.Exec.{ok, err, forbidden}
use media_center.Access.Roles.{SharesRole}
use media_center.Access.Guard.{IsFirst, guard-denies_by_default}

abbrev same_text : String → String
same_text text = text

abbrev council_member : TenantContext
council_member = record {
  tenant_id = "acme";
  subject = some "user-1";
  roles = "member_full" ∷ "council" ∷ [];
  correlation_id = none;
}

abbrev guest : TenantContext
guest = record council_member { roles = "guest" ∷ "member_full" ∷ [] }

record_read :
    guard same_text blockchain_audit_endpoint_policies unlisted "GET" "/audit/records/e-1/"
      council_member
    ≡ ok council_member
unfolding guard require_access policy_for_scope matches path_template_matches parts_match split_path
    strip split_on path_part_matches is_parameter ends_with
record_read = refl

guest_refused :
    guard same_text blockchain_audit_endpoint_policies unlisted "GET" "/audit/records/e-1" guest
    ≡ err forbidden
unfolding guard require_access policy_for_scope matches path_template_matches parts_match split_path
    strip split_on path_part_matches is_parameter ends_with
guest_refused = refl

unlisted_refused :
    guard same_text blockchain_audit_endpoint_policies unlisted "GET" "/audit/records"
      council_member
    ≡ err forbidden
unfolding guard require_access policy_for_scope matches path_template_matches parts_match split_path
    strip split_on path_part_matches is_parameter
unlisted_refused = refl

guard-denies_by_default_example :
    (guard same_text blockchain_audit_endpoint_policies unlisted "GET" "/audit/records/e-1/"
        council_member
      ≡ ok council_member)
    ↔ ((e : EndpointAccessPolicy) × IsFirst same_text blockchain_audit_endpoint_policies "GET"
          "/audit/records/e-1/" e
        × SharesRole council_member.roles e.access_policy.allowed_roles)
guard-denies_by_default_example =
    guard-denies_by_default same_text blockchain_audit_endpoint_policies "GET" "/audit/records/e-1/"
      council_member
