-- ===== src/Tenant.antt =====
-- Tenant identity between services: the trusted headers of libs/shared/tenant.py.
pub mod Records
pub mod RoundTrip
pub mod Owned
pub mod Tests
use Prim.Native.String
use media_center.Prelude.{
  ℕ, zero, suc, String, Bool, true, false, ◌||◌, ◌==◌, Option, none, some, List, [], ◌∷◌, str_eq,
  if◌then◌else◌,
}
use media_center.Text.{split_on, strip}
use media_center.Value.{Json, str}
use media_center.Access.{TenantContext}
use media_center.Exec.{Result, ok, err, unauthorized}
use media_center.Auth.{validated_tenant_id, ◌>>=◌}

-- Headers in the order in which they were set
abbrev pub Headers : Type 0
Headers = List (String × String)

-- The further arguments of `tenant_headers_from_context`.
pub record Forwarding : Type 0 where
  pub service_name : Option String
  pub forwarded_prefix : Option String
  pub original_path : Option String

-- ",".join(roles)
pub joined : List String → String
joined [] = ""
joined (role ∷ []) = role
joined (role ∷ next ∷ roles) = String.◌++◌ role (String.◌++◌ "," (joined (next ∷ roles)))

abbrev pub roles_header : List String → Option String
roles_header [] = none
roles_header (role ∷ roles) = some (joined (role ∷ roles))

-- The headers whose values are not None
pub given : List (String × Option String) → Headers
given [] = []
given ((name, none) ∷ rest) = given rest
given ((name, some value) ∷ rest) = (name, value) ∷ given rest

abbrev pub header_values : TenantContext → Forwarding → List (String × Option String)
header_values context forwarding =
    ("x-tenant-id", some context.tenant_id)
    ∷ ("x-subject-id", context.subject)
    ∷ ("x-actor-roles", roles_header context.roles)
    ∷ ("x-correlation-id", context.correlation_id)
    ∷ ("x-service-name", forwarding.service_name)
    ∷ ("x-forwarded-prefix", forwarding.forwarded_prefix)
    ∷ ("x-original-path", forwarding.original_path)
    ∷ []

-- tenant_headers_from_context
pub tenant_headers_from_context : TenantContext → Forwarding → Headers
tenant_headers_from_context context forwarding = given (header_values context forwarding)

-- What a later entry leaves of an earlier one with the same key.
abbrev pub prefer : Option String → Option String → Option String
prefer (some later) earlier = some later
prefer none earlier = earlier

-- The roles that are not blank, stripped
pub stripped_roles : List String → List String
stripped_roles [] = []
stripped_roles (role ∷ roles) =
    let rest = stripped_roles roles in if str_eq (strip role) "" then rest else strip role ∷ rest

pub length : List String → ℕ
length [] = zero
length (s ∷ ss) = suc (length ss)

abbrev pub unless_dropped : List String → List String → Result (List String)
unless_dropped raw_roles roles =
    if length roles == length raw_roles then ok roles else err unauthorized

-- _roles_from_header
pub roles_from_header : Option String → Result (List String)
roles_from_header none = ok []
roles_from_header (some value) =
    if str_eq (strip value) ""
    then ok []
    else unless_dropped (split_on b',' value) (stripped_roles (split_on b',' value))

-- _optional_header, on the value that is found
abbrev pub optional_header : Option String → Option String
optional_header none = none
optional_header (some value) = if str_eq value "" then none else some value

abbrev pub as_json : Option String → Option Json
as_json none = none
as_json (some value) = some (str value)

-- `lower` is str.lower.
module _ (lower : String → String) where
  -- normalized_headers.get(name)
  pub header : String → Headers → Option String
  header name [] = none
  header name ((key, value) ∷ rest) =
      prefer (header name rest) (if str_eq (lower key) name then some (strip value) else none)

  -- tenant_context_from_trusted_headers
  pub tenant_context_from_trusted_headers : Headers → Result TenantContext
  tenant_context_from_trusted_headers headers = do
    let correlation_id = optional_header (header "x-correlation-id" headers)
    tenant_id ← validated_tenant_id (as_json (header "x-tenant-id" headers))
    let subject = optional_header (header "x-subject-id" headers)
    roles ← roles_from_header (header "x-actor-roles" headers)
    ok (record {
      tenant_id = tenant_id;
      subject = subject;
      roles = roles;
      correlation_id = correlation_id;
    })
