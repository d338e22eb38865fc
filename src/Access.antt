-- ===== src/Access.antt =====
-- Who may do what: the tenant check of libs/shared/tenant.py and the role check of
-- libs/shared/rbac.py, for a context that is handed over.
pub mod Endpoints
pub mod Roles
pub mod Guard
mod Tests
use media_center.Prelude.{
  String, Bool, false, ◌||◌, Option, none, some, List, [], ◌∷◌, str_eq, if◌then◌else◌, select,
}
use media_center.Text.{is_tenant_id}
use media_center.Exec.{Result, ok, err, forbidden, tenant_isolation}

pub record TenantContext : Type 0 where
  pub tenant_id : String
  pub subject : Option String
  pub roles : List String
  pub correlation_id : Option String

-- assert_requested_tenant with no audit sink
unfoldable pub assert_requested_tenant : Option String → TenantContext → Result (Unit {0})
assert_requested_tenant none context = ok tt
assert_requested_tenant (some requested) context =
    if is_tenant_id requested
    then (if str_eq requested context.tenant_id then ok tt else err tenant_isolation)
    else err tenant_isolation

abbrev pub governance_roles : List String
governance_roles =
    "council" ∷ "presidium" ∷ "board" ∷ "member_full" ∷ "member_assoc" ∷ "audience" ∷ []

-- value in values
unfoldable pub includes : String → List String → Bool
includes s [] = false
includes s (t ∷ ts) = str_eq s t || includes s ts

-- The roles of an AccessPolicy, which `_normalize_allowed_roles` has checked.
pub record AccessPolicy : Type 0 where
  pub allowed_roles : List String
  pub action : String
  pub resource_type : String

-- bool(xs.intersection(ys))
unfoldable pub intersects : List String → List String → Bool
unfolding includes
intersects [] ys = false
intersects (x ∷ xs) ys = includes x ys || intersects xs ys

-- require_access
unfoldable pub require_access : AccessPolicy → TenantContext → Result TenantContext
unfolding intersects select
require_access policy context =
    if intersects (select (λ role. includes role governance_roles) context.roles)
      policy.allowed_roles
    then ok context
    else err forbidden
