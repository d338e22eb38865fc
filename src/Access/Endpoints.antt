-- ===== src/Access/Endpoints.antt =====
-- The endpoint policies of libs/shared/rbac.py and the guard in front of a service. `upper` is
-- Python's `str.upper`.
use Prim.Native.Char.{code}
use Prim.Native.String
use media_center.Prelude.{
  ℕ, String, Bool, true, false, not, ◌&&◌, List, [], ◌∷◌, str_eq, ◌==◌, ltb, select, if◌then◌else◌,
}
use media_center.Text.{strip, strip_by, split_on}
use media_center.Exec.{Result, ok, err, value_error}
use media_center.Access.{TenantContext, AccessPolicy, governance_roles, includes, require_access}

-- _require_non_empty, and the text stripped
abbrev pub stripped : String → Result String
stripped value = if str_eq (strip value) "" then err value_error else ok (strip value)

-- Whether no text of the list is left out
unfoldable pub all_in : List String → List String → Bool
all_in [] known = true
all_in (s ∷ ss) known = includes s known && all_in ss known

-- tuple(dict.fromkeys(roles)), without those that came before
unfoldable pub from_keys : List String → List String → List String
from_keys seen [] = []
from_keys seen (role ∷ roles) =
    let again = from_keys seen roles in
    let new = role ∷ from_keys (role ∷ seen) roles in if includes role seen then again else new

-- _normalize_allowed_roles
unfoldable pub normalize_allowed_roles : List String → Result (List String)
normalize_allowed_roles roles =
    if all_in (from_keys [] roles) governance_roles
    then ok (from_keys [] roles)
    else err value_error

abbrev pub access_policy_of :
    Result String → Result String → Result (List String) → Result AccessPolicy
access_policy_of (ok action) (ok resource_type) (ok allowed_roles) =
    ok (record { allowed_roles = allowed_roles; action = action; resource_type = resource_type })
access_policy_of _ _ _ = err value_error

-- AccessPolicy.__post_init__
unfoldable pub access_policy_model : AccessPolicy → Result AccessPolicy
access_policy_model policy =
    access_policy_of (stripped policy.action) (stripped policy.resource_type)
      (normalize_allowed_roles policy.allowed_roles)

-- AccessPolicy.deny_all
abbrev pub deny_all : String → String → AccessPolicy
deny_all action resource_type = record {
  allowed_roles = [];
  action = action;
  resource_type = resource_type;
}

-- require_any_role
unfoldable pub require_any_role :
    List String → TenantContext → String → String → Result TenantContext
require_any_role roles context action resource_type =
    elim (access_policy_model
      (record { allowed_roles = roles; action = action; resource_type = resource_type })) [
        | err e ↦ err e
        | ok policy ↦ require_access policy context
      ]

pub record EndpointAccessPolicy : Type 0 where
  pub method : String
  pub path_template : String
  pub access_policy : AccessPolicy

-- _split_path
unfoldable pub split_path : String → List String
split_path value =
    if str_eq (strip value) "/"
    then []
    else select (λ part. not (str_eq part ""))
        (split_on b'/' (strip_by (λ c. c == b'/') (strip value)))

abbrev pub starts_with : ℕ → String → Bool
starts_with c String.[] = false
starts_with c (String.◌∷◌ d s) = code d == c

unfoldable pub ends_with : ℕ → String → Bool
ends_with c String.[] = false
ends_with c (String.◌∷◌ d s) = let rest = ends_with c s in if str_eq s "" then code d == c else rest

-- template_part.startswith("{") and template_part.endswith("}")
unfoldable pub is_parameter : String → Bool
is_parameter part = starts_with b'{' part && ends_with b'}' part

-- _path_part_matches
unfoldable pub path_part_matches : String → String → Bool
path_part_matches template_part path_part =
    if is_parameter template_part
    then ltb 2 (String.count template_part) && not (str_eq path_part "")
    else str_eq template_part path_part

-- all(...) over parts of which there are as many
unfoldable pub parts_match : List String → List String → Bool
parts_match [] [] = true
parts_match [] (p ∷ ps) = false
parts_match (t ∷ ts) [] = false
parts_match (t ∷ ts) (p ∷ ps) = path_part_matches t p && parts_match ts ps

-- _path_template_matches
unfoldable pub path_template_matches : String → String → Bool
path_template_matches template path = parts_match (split_path template) (split_path path)

-- The policy of a guard that is given none
abbrev pub unlisted : AccessPolicy
unlisted = deny_all "endpoint.unlisted" "endpoint"

abbrev council_may : String → AccessPolicy
council_may action = record {
  allowed_roles = "council" ∷ [];
  action = action;
  resource_type = "blockchain_auditor";
}

-- BLOCKCHAIN_AUDIT_ENDPOINT_POLICIES
abbrev pub blockchain_audit_endpoint_policies : List EndpointAccessPolicy
blockchain_audit_endpoint_policies =
    record {
      method = "POST";
      path_template = "/audit/record";
      access_policy = council_may "blockchain_audit.record";
    }
    ∷ record {
      method = "POST";
      path_template = "/audit/verify";
      access_policy = council_may "blockchain_audit.verify";
    }
    ∷ record {
      method = "GET";
      path_template = "/audit/records/{event_id}";
      access_policy = council_may "blockchain_audit.read";
    }
    ∷ []

module _ (upper : String → String) where
  abbrev pub endpoint_of :
      Result String → Result String → AccessPolicy → Result EndpointAccessPolicy
  endpoint_of (ok method) (ok path_template) policy =
      if starts_with b'/' path_template
      then ok
          (record { method = upper method; path_template = path_template; access_policy = policy })
      else err value_error
  endpoint_of _ _ policy = err value_error

  -- EndpointAccessPolicy.__post_init__
  unfoldable pub endpoint_model : EndpointAccessPolicy → Result EndpointAccessPolicy
  endpoint_model endpoint =
      endpoint_of (stripped endpoint.method) (stripped endpoint.path_template)
        endpoint.access_policy

  -- EndpointAccessPolicy.matches
  unfoldable pub matches : EndpointAccessPolicy → String → String → Bool
  matches endpoint method path =
      str_eq endpoint.method (upper method) && path_template_matches endpoint.path_template path

  -- _policy_for_scope
  unfoldable pub policy_for_scope :
      List EndpointAccessPolicy → AccessPolicy → String → String → AccessPolicy
  policy_for_scope [] default_policy method path = default_policy
  policy_for_scope (endpoint ∷ endpoints) default_policy method path =
      let rest = policy_for_scope endpoints default_policy method path in
      if matches endpoint (upper method) path then endpoint.access_policy else rest

  -- RBACASGIMiddleware.__call__ on an HTTP request: whether the service is called
  unfoldable pub guard :
      List EndpointAccessPolicy
      → AccessPolicy
      → String
      → String
      → TenantContext
      → Result TenantContext
  guard endpoints default_policy method path context =
      require_access (policy_for_scope endpoints default_policy method path) context
